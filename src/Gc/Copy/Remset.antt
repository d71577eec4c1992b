-- ===== src/Gc/Copy/Remset.antt =====
-- `forward_remset`: every remembered cell is treated, and those that pointed into from-space are
-- remembered again, below the limit of to-space.
use native.Mathlib.Decide.{ℕ_discrete}
use certirocq.Prelude.{
  ℕ, zero, suc, ◌+◌, ◌*◌, ◌≤◌, ◌<◌, ◌≡◌, ◌≢◌, refl, ◌⊎◌, inl, inr, ◌∙◌, sym, Bool-cases, true,
  false, arith,
}
use certirocq.Gc.Copy.{Copy, remset_loop}
use certirocq.Gc.Copy.Invariant.{Layout, IsLayout, Inv, Good, from_ptr}
use certirocq.Gc.Copy.Place.{IsRoot, Outside, Place-Outside}
use certirocq.Gc.Copy.Steps.{Grows, Grows-refl, Grows-trans, Treated}
use certirocq.Gc.Copy.Settled.{
  Settled, Treated-Settled, Settled-Treated, Settled-Settled, Good-Settled,
}
use certirocq.Gc.Copy.Entry.{NotSpare, in_from, IsCell, Entries, Entry, Entry-after, opposite}

module _ {L : Layout} (w : IsLayout L) (top : ℕ) where
  -- The whole loop.
  pub record RemsetTreated (scan n q : ℕ) (c : Copy) (limit : ℕ) (c' : Copy) (limit' : ℕ)
      : Type 0 where
    pub inv : Inv L scan c'
    pub grows : Grows L c c'
    pub treated :
        (i : ℕ)
        → i < n
        → in_from L top (c.mem (q + 8 * i)) ≡ false
        → Treated L (c.mem (c.mem (q + 8 * i))) c'.mem (c.mem (q + 8 * i))
    pub settled :
        (x : ℕ)
        → Outside L c.next x
        → NotSpare L top x
        → Good L (c.mem x)
        → Settled w (c.mem x) c'.mem x
    pub frame :
        (x : ℕ)
        → Outside L c.next x
        → (x < L.to_limit) ⊎ (limit ≤ x)
        → ((i : ℕ) → i < n → in_from L top (c.mem (q + 8 * i)) ≡ false → x ≢ c.mem (q + 8 * i))
        → c'.mem x ≡ c.mem x
    pub logged :
        (i : ℕ)
        → i < n
        → in_from L top (c.mem (q + 8 * i)) ≡ false
        → from_ptr L (c.mem (c.mem (q + 8 * i))) ≡ true
        → (a : ℕ) × (limit' ≤ a) × (a < limit) × (c'.mem a ≡ c.mem (q + 8 * i))
    pub down : (limit' ≤ limit) × (limit ≤ limit' + 8 * n)

  -- The first entry, then the others.
  module _ {scan n q limit lim : ℕ} {c b : Copy} (inv : Inv L scan c)
      (spare : (L.from_limit ≤ L.to_limit) ⊎ (top ≤ L.from_start))
      (room : (L.to_limit + 8 * suc n ≤ limit) × (limit ≤ top)) (es : Entries L top (suc n) q c.mem)
      (first : Entry w top scan (c.mem q) c limit b lim) where
    later : (i : ℕ) → q + 8 + 8 * i ≡ q + 8 * suc i
    later i = omega arith

    start : q + 8 * 0 ≡ q
    start = omega arith

    first_apart : (j : ℕ) → j < suc n → in_from L top (c.mem q) ≡ false → c.mem q ≢ q + 8 * j
    first_apart j lt = rw start at (es.apart 0 j (omega arith) lt)

    word-Outside : (i : ℕ) → i < suc n → Outside L c.next (q + 8 * i)
    word-Outside i lt = Place-Outside L w inv (q + 8 * i) (inl (es.word i lt).0)

    -- The entries that are left stand as they were.
    word_kept : (i : ℕ) → i < n → b.mem (q + 8 + 8 * i) ≡ c.mem (q + 8 * suc i)
    word_kept i lt = rw (later i) (
        first.frame (q + 8 * suc i) (word-Outside (suc i) (omega arith))
          (omega (arith, (es.word (suc i) (omega arith)).1))
          (λ nf e. first_apart (suc i) (omega arith) nf (sym e)))

    Settled-once : (x : ℕ) → Outside L c.next x → NotSpare L top x → Settled w (c.mem x) b.mem x
    Settled-once x out ns = elim (Bool-cases (in_from L top (c.mem q))) [
      | inl from ↦ inl (first.frame x out (omega arith) (λ nf e. opposite _ from nf))
      | inr nf ↦ elim (ℕ_discrete x (c.mem q)) [
        | yes e ↦ inr (rw e (first.treated nf))
        | no ne ↦ inl (first.frame x out (omega arith) (λ _. ne))
      ]
    ]

    wider : (x : ℕ) → Outside L c.next x → Outside L b.next x
    wider x out = (out.0, omega (arith, out.1, first.grows.next_le))

    still_cell : (p : ℕ) → IsCell L top c.mem p → IsCell L top b.mem p
    still_cell p (inl from) = inl from
    still_cell p (inr (root, good, ns)) = inr (
      root,
      Good-Settled w (c.mem p) p good (Settled-once p (Place-Outside L w inv p (inl root)) ns),
      ns,
    )

    pub still-Entries : Entries L top n (q + 8) b.mem
    still-Entries = record {
      word = λ i lt. rw (later i) (es.word (suc i) (omega arith));
      cell = λ i lt. rw (word_kept i lt) (still_cell _ (es.cell (suc i) (omega arith)));
      apart = λ i j lt lt'.
          rw (word_kept i lt, later j) (es.apart (suc i) (suc j) (omega arith) (omega arith));
    }

    module _ {c' : Copy} {limit' : ℕ} (rest : RemsetTreated scan n (q + 8) b lim c' limit') where
      settled :
          (x : ℕ)
          → Outside L c.next x
          → NotSpare L top x
          → Good L (c.mem x)
          → Settled w (c.mem x) c'.mem x
      settled x out ns good =
          let once = Settled-once x out ns in
          Settled-Settled w (c.mem x) x good once rest.grows
            (rest.settled x (wider x out) ns (Good-Settled w (c.mem x) x good once))

      cell_of :
          (i : ℕ)
          → i < suc n
          → in_from L top (c.mem (q + 8 * i)) ≡ false
          → IsRoot L (c.mem (q + 8 * i))
            × Good L (c.mem (c.mem (q + 8 * i)))
            × NotSpare L top (c.mem (q + 8 * i))
      cell_of i lt nf = elim (es.cell i lt) [ inl from ↦ absurd (opposite _ from nf) | inr is ↦ is ]

      spare-Outside : (a : ℕ) → L.to_limit ≤ a → a < top → Outside L b.next a
      spare-Outside a lo hi = (omega arith, omega arith)

      not_cell :
          (a i : ℕ)
          → L.to_limit ≤ a
          → a < top
          → i < n
          → in_from L top (b.mem (q + 8 + 8 * i)) ≡ false
          → a ≢ b.mem (q + 8 + 8 * i)
      not_cell a i lo hi lt nf e = elim (still-Entries.cell i lt) [
        | inl from ↦ opposite _ from nf
        | inr (root, good, ns) ↦ omega arith
      ]

      Treated-first : in_from L top (c.mem q) ≡ false → Treated L (c.mem (c.mem q)) c'.mem (c.mem q)
      Treated-first nf =
          let (root, good, ns) = rw start at (cell_of 0 (omega arith) (rw start nf)) in
          let out = Place-Outside L w inv (c.mem q) (inl root) in
          let once = first.treated nf in
          Treated-Settled w _ _ good once rest.grows
            (rest.settled _ (wider _ out) ns (Good-Settled w _ _ good (inr once)))

      treated :
          (i : ℕ)
          → i < suc n
          → in_from L top (c.mem (q + 8 * i)) ≡ false
          → Treated L (c.mem (c.mem (q + 8 * i))) c'.mem (c.mem (q + 8 * i))
      treated zero lt nf = rw start (Treated-first (rw start at nf))
      treated (suc i) lt nf =
          let (root, good, ns) = cell_of (suc i) lt nf in
          let out = Place-Outside L w inv _ (inl root) in
          let e = word_kept i (omega arith) in
          Settled-Treated w _ _ good (Settled-once _ out ns) rest.grows
            (rw e at (rest.treated i (omega arith) (rw e nf)))

      logged_first :
          in_from L top (c.mem q) ≡ false
          → from_ptr L (c.mem (c.mem q)) ≡ true
          → (a : ℕ) × (limit' ≤ a) × (a < limit) × (c'.mem a ≡ c.mem q)
      logged_first nf ptr =
          let (a, lo, hi, at) = first.logged nf ptr in
          (
            a,
            omega (arith, rest.down),
            hi,
            rest.frame a (spare-Outside a (omega (arith, first.down)) (omega arith)) (omega arith)
                  (λ i lt nf' e. not_cell a i (omega (arith, first.down)) (omega arith) lt nf' e)
                ∙ at,
          )

      logged :
          (i : ℕ)
          → i < suc n
          → in_from L top (c.mem (q + 8 * i)) ≡ false
          → from_ptr L (c.mem (c.mem (q + 8 * i))) ≡ true
          → (a : ℕ) × (limit' ≤ a) × (a < limit) × (c'.mem a ≡ c.mem (q + 8 * i))
      logged zero lt nf ptr = rw start (logged_first (rw start at nf) (rw start at ptr))
      logged (suc i) lt nf ptr = elim (ℕ_discrete (c.mem (q + 8 * suc i)) (c.mem q)) [
        | yes same ↦ rw same (logged_first (rw same at nf) (rw same at ptr))
        | no differ ↦
            let (root, good, ns) = cell_of (suc i) lt nf in
            let out = Place-Outside L w inv _ (inl root) in
            let word = word_kept i (omega arith) in
            let kept : b.mem (c.mem (q + 8 * suc i)) ≡ c.mem (c.mem (q + 8 * suc i)) =
              first.frame _ out (omega arith) (λ _. differ) in
            let (a, lo, hi, at) = rest.logged i (omega arith) (rw word nf) (rw (word, kept) ptr) in
            (a, lo, omega (arith, first.down), at ∙ word)
      ]

      pub RemsetTreated-cons : RemsetTreated scan (suc n) q c limit c' limit'
      RemsetTreated-cons = record {
        inv = rest.inv;
        grows = Grows-trans L first.grows rest.grows;
        treated = treated;
        settled = settled;
        frame = λ x out ns ne.
            rest.frame x (wider x out) (omega (arith, first.down)) (λ i lt nf.
              rw (word_kept i lt) (ne (suc i) (omega arith) (rw (word_kept i lt) at nf)))
            ∙ first.frame x out ns (λ nf. rw start at (ne 0 (omega arith) (rw start nf)));
        logged = logged;
        down = omega (arith, rest.down, first.down);
      }

  pub remset_loop-RemsetTreated :
      {scan : ℕ}
      → (L.from_limit ≤ L.to_limit) ⊎ (top ≤ L.from_start)
      → (n q : ℕ) (c : Copy) (limit : ℕ) → Inv L scan c
      → Entries L top n q c.mem
      → (L.to_limit + 8 * n ≤ limit) × (limit ≤ top)
      → RemsetTreated scan n q c limit
          (remset_loop L.from_start L.from_limit n q (c, limit)).0
          (remset_loop L.from_start L.from_limit n q (c, limit)).1
  unfolding remset_loop
  remset_loop-RemsetTreated spare zero q c limit inv es room = record {
    inv = inv;
    grows = Grows-refl L c;
    treated = λ i lt. absurd (omega arith);
    settled = λ x out ns good. inl refl;
    frame = λ x out ns ne. refl;
    logged = λ i lt. absurd (omega arith);
    down = omega arith;
  }
  remset_loop-RemsetTreated {scan} spare (suc n) q c limit inv es room =
      let start : q + 8 * 0 ≡ q = omega arith in
      let first =
        Entry-after w top {scan = scan} {p = c.mem q} {limit = limit} inv spare (omega arith)
          (rw start at (es.cell 0 (omega arith))) in
      RemsetTreated-cons inv spare room es first (
        remset_loop-RemsetTreated spare n (q + 8) _ _ first.inv
          (still-Entries inv spare room es first) (omega (arith, first.down, first.inv.above)))
