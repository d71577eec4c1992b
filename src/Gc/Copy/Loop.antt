-- ===== src/Gc/Copy/Loop.antt =====
-- Loops of `forward` over consecutive words.
use certirocq.Prelude.{ℕ, zero, suc, ◌+◌, ◌*◌, ◌<◌, ◌≡◌, ◌≢◌, refl, inl, inr, ◌∙◌, arith}
use native.Mathlib.Decide.{ℕ_discrete}
use certirocq.Values.{Memory}
use certirocq.Gc.Copy.{Copy, for_words}
use certirocq.Gc.Copy.Invariant.{Layout, IsLayout, Inv, Good}
use certirocq.Gc.Copy.Place.{Outside, Place, Place-Outside}
use certirocq.Gc.Copy.Steps.{Grows, Grows-refl, Grows-trans, Place-Grows, Treated, Step}
use certirocq.Gc.Copy.Settled.{Settled, Treated-Grows, Settled-Settled, Good-Settled}

module _ {L : Layout} (w : IsLayout L) where
  -- The whole of a loop over the `n` words from `a` on.
  pub record Steps (scan n a : ℕ) (c c' : Copy) : Type 0 where
    pub inv : Inv L scan c'
    pub grows : Grows L c c'
    pub treated : (i : ℕ) → i < n → Treated L (c.mem (a + 8 * i)) c'.mem (a + 8 * i)
    pub frame :
        (x : ℕ) → Outside L c.next x → ((i : ℕ) → i < n → x ≢ a + 8 * i) → c'.mem x ≡ c.mem x
    pub settled : (x : ℕ) → Outside L c.next x → Good L (c.mem x) → Settled w (c.mem x) c'.mem x

  abbrev pub Treats : ℕ → (ℕ → Copy → Copy) → Type 0
  Treats scan f =
      (p : ℕ) (c : Copy)
      → Inv L scan c
      → Place L c.mem p
      → Good L (c.mem p)
      → Step L scan p c (f p c)

  head_ready :
      {m : Memory} (n a : ℕ)
      → ((i : ℕ) → i < suc n → Place L m (a + 8 * i) × Good L (m (a + 8 * i)))
      → Place L m a × Good L (m a)
  head_ready n a ready = let at : a + 8 * 0 ≡ a = omega arith in rw at at (ready 0 (omega arith))

  -- The first word, then the others.
  module _ {scan : ℕ} (n a : ℕ) {c b : Copy} (inv : Inv L scan c)
      (ready : (i : ℕ) → i < suc n → Place L c.mem (a + 8 * i) × Good L (c.mem (a + 8 * i)))
      (first : Step L scan a c b) where
    later : (i : ℕ) → a + 8 + 8 * i ≡ a + 8 * suc i
    later i = omega arith

    ready_later : (i : ℕ) → i < n → Place L c.mem (a + 8 + 8 * i) × Good L (c.mem (a + 8 + 8 * i))
    ready_later i lt = rw (← later i) at (ready (suc i) (omega arith))

    unchanged : (i : ℕ) → i < n → b.mem (a + 8 + 8 * i) ≡ c.mem (a + 8 + 8 * i)
    unchanged i lt =
        first.frame (a + 8 + 8 * i) (Place-Outside L w inv _ (ready_later i lt).0)
          (λ e. omega arith)

    still : (i : ℕ) → i < n → Place L b.mem (a + 8 + 8 * i) × Good L (b.mem (a + 8 + 8 * i))
    still i lt =
        let (place, good) = ready_later i lt in
        (Place-Grows L first.grows place, rw (unchanged i lt) good)

    here : Place L c.mem a × Good L (c.mem a)
    here = head_ready n a ready

    Steps-cons : {c' : Copy} → Steps scan n (a + 8) b c' → Steps scan (suc n) a c c'
    Steps-cons {c'} rest = record {
      inv = rest.inv;
      grows = Grows-trans L first.grows rest.grows;
      treated = treated;
      frame = λ x out ne.
          rest.frame x (out.0, omega (arith, out.1, first.grows.next_le))
            (λ i lt e. ne (suc i) (omega arith) (omega arith))
          ∙ first.frame x out (λ e. ne 0 (omega arith) (omega arith));
      settled = settled;
    }
      where
        outside : Outside L b.next a
        outside =
            let (nf, o) = Place-Outside L w inv a here.0 in
            (nf, omega (arith, o, first.grows.next_le))

        at_first : (x : ℕ) → Outside L c.next x → Settled w (c.mem x) b.mem x
        at_first x out = elim (ℕ_discrete x a) [
          | yes e ↦ inr (rw e first.treated)
          | no ne ↦ inl (first.frame x out ne)
        ]

        settled : (x : ℕ) → Outside L c.next x → Good L (c.mem x) → Settled w (c.mem x) c'.mem x
        settled x out good =
            let once = at_first x out in
            Settled-Settled w (c.mem x) x good once rest.grows (
              rest.settled x (out.0, omega (arith, out.1, first.grows.next_le))
                (Good-Settled w (c.mem x) x good once))

        treated : (i : ℕ) → i < suc n → Treated L (c.mem (a + 8 * i)) c'.mem (a + 8 * i)
        treated zero lt =
            let at : a + 8 * 0 ≡ a = omega arith in
            rw at (
              Treated-Grows w (c.mem a) a here.1 first.treated rest.grows
                (rest.frame a outside (λ i lt e. omega arith)))
        treated (suc i) lt =
            rw (← later i) (rw (unchanged i (omega arith)) at (rest.treated i (omega arith)))

  pub for_words-Steps :
      {scan : ℕ} (f : ℕ → Copy → Copy)
      → Treats scan f
      → (n a : ℕ) (c : Copy) → Inv L scan c
      → ((i : ℕ) → i < n → Place L c.mem (a + 8 * i) × Good L (c.mem (a + 8 * i)))
      → Steps scan n a c (for_words f n a c)
  unfolding for_words
  for_words-Steps f treats zero a c inv ready = record {
    inv = inv;
    grows = Grows-refl L c;
    treated = λ i lt. absurd (omega arith);
    frame = λ x out ne. refl;
    settled = λ x out good. inl refl;
  }
  for_words-Steps f treats (suc n) a c inv ready =
      let (place, good) = head_ready n a ready in
      let first = treats a c inv place good in
      Steps-cons n a inv ready first
        (for_words-Steps f treats n (a + 8) (f a c) first.inv (still n a inv ready first))
