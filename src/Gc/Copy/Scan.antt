-- ===== src/Gc/Copy/Scan.antt =====
-- `do_scan` ends, and leaves no pointer into from-space in the copies.
use certirocq.Prelude.{
  ℕ, zero, suc, ◌+◌, ◌-◌, ◌*◌, ◌≤◌, ◌<◌, ◌≡◌, refl, ◌⊎◌, inl, inr, ◌∙◌, arith, true, false, ltb,
  Bool-cases, if◌then◌else◌, lt→ltb,
}
use mathlib.Core.Path.{subst}
use certirocq.Values.{wosize_hd, tag_hd, no_scan}
use certirocq.Gc.Types.{ok, depth}
use certirocq.Gc.Copy.{Copy, forward, for_words, do_scan}
use certirocq.Gc.Copy.Invariant.{Layout, Block, bare, IsLayout, Inv, Good, Moved_of_gone}
use certirocq.Gc.Copy.Place.{NotFrom, InCopy, Place, next-le}
use certirocq.Gc.Copy.Steps.{Queue, done, more, Queue-le, Grows, Grows-refl, Grows-trans}
use certirocq.Gc.Copy.Settled.{InCopy-Good}
use certirocq.Gc.Copy.Loop.{for_words-Steps}
use certirocq.Gc.Copy.Depth.{forward-Step}
use certirocq.Gc.Copy.Advance.{advance-Inv}

module _ {L : Layout} (w : IsLayout L) where
  -- What one round, and the whole scan, leave behind: words below the scan pointer stay.
  pub record Progress (s s' : ℕ) (c c' : Copy) : Type 0 where
    pub inv : Inv L s' c'
    pub grows : Grows L c c'
    pub frame : (x : ℕ) → NotFrom L x → (x < s) ⊎ (L.to_limit ≤ x) → c'.mem x ≡ c.mem x

  abbrev scan_block : ℕ → ℕ → Copy → Copy
  scan_block n s c = for_words (forward L.from_start L.from_limit depth) n (s + 8) c

  module _ (s : ℕ) (c : Copy) (inv : Inv L s c) (v n : ℕ) (b : Block L v n)
      (gone : c.mem (v - 8) ≡ 0) (at : c.mem v ≡ s + 8)
      (rest : Queue L c.mem c.next (s + 8 + 8 * n)) where
    header_at : c.mem s ≡ L.old (v - 8)
    header_at =
        let moved = Moved_of_gone L w v n inv b gone in
        let same : c.mem v - 8 ≡ s = omega (arith, at) in rw same at moved.header

    pub size_at : wosize_hd (c.mem s) ≡ n
    size_at = rw header_at (w.headers v n b)

    scan_bare : bare L v ≡ true → Progress s (s + 8 + 8 * n) c c
    scan_bare data_only = record {
      inv = advance-Inv w inv v n b gone at (Queue-le L rest) λ i lt scans. absurd (both scans);
      grows = Grows-refl L c;
      frame = λ x nf out. refl;
    }
      where
        both : bare L v ≡ false → ⊥
        both scans = cc

    scan_fields : bare L v ≡ false → Progress s (s + 8 + 8 * n) c (scan_block n s c)
    scan_fields scans =
        let steps = for_words-Steps w _ (forward-Step w depth) n (s + 8) c inv ready in
        let (gone', image) = steps.grows.kept v n b gone in
        record {
          inv =
              advance-Inv w steps.inv v n b gone' (image ∙ at)
                (omega (arith, Queue-le L rest, steps.grows.next_le))
                λ i lt _. (steps.treated i lt).not_from;
          grows = steps.grows;
          frame = λ x nf out.
              steps.frame x (nf, omega (arith, out, inv.scan_below))
                (λ i lt e. omega (arith, out, Queue-le L rest, next-le L w inv));
        }
      where
        field : (i : ℕ) → i < n → InCopy L c.mem (s + 8 + 8 * i)
        field i lt = record {
          block = v;
          size = n;
          index = i;
          is_block = b;
          gone = gone;
          in_range = lt;
          scans = scans;
          at = omega (arith, at);
        }

        ready : (i : ℕ) → i < n → Place L c.mem (s + 8 + 8 * i) × Good L (c.mem (s + 8 + 8 * i))
        ready i lt = (inr (field i lt), InCopy-Good w (s + 8 + 8 * i) inv (field i lt))

    -- One round of the loop.
    pub scan_round :
        Progress s
          (s + 8 + 8 * n)
          c
          (if no_scan (tag_hd (c.mem s)) then c else scan_block (wosize_hd (c.mem s)) s c)
    scan_round = elim (Bool-cases (bare L v)) [
      | inl data_only ↦ rw (header_at, data_only) (scan_bare data_only)
      | inr scans ↦
          let size : wosize_hd (L.old (v - 8)) ≡ n = w.headers v n b in
          rw (header_at, scans, size) (scan_fields scans)
    ]

  -- Enough fuel for the words up to the end of to-space is enough, and then all fields of all
  -- copies have been scanned.
  pub do_scan-Progress :
      (fuel s : ℕ) (c : Copy)
      → Inv L s c
      → Queue L c.mem c.next s
      → L.to_limit < s + 8 * fuel
      → (c' : Copy) × (do_scan L.from_start L.from_limit fuel s c ≡ ok c') × Progress s c'.next c c'
  unfolding do_scan
  do_scan-Progress zero s c inv q enough = absurd (omega (arith, Queue-le L q, next-le L w inv))
  do_scan-Progress (suc fuel) s c inv (done e) enough =
      let stop : ltb s c.next ≡ false = ground arith in
      (
        c,
        rw stop,
        record {
          inv = subst (λ t. Inv L t c) e inv;
          grows = Grows-refl L c;
          frame = λ x nf out. refl;
        },
      )
  do_scan-Progress (suc fuel) s c inv (more v n b gone at rest) enough =
      let go : ltb s c.next ≡ true = lt→ltb s c.next (omega (arith, Queue-le L rest)) in
      let round = scan_round s c inv v n b gone at rest in
      let size = size_at s c inv v n b gone at rest in
      let next_scan : s + 8 * (1 + n) ≡ s + 8 + 8 * n = omega arith in
      let (c', returns, tail) =
        do_scan-Progress fuel (s + 8 + 8 * n) _ round.inv (round.grows.extend _ rest)
          (omega arith) in
      (
        c',
        rw (go, size, next_scan) (rw size at returns),
        record {
          inv = tail.inv;
          grows = Grows-trans L round.grows tail.grows;
          frame = λ x nf out. tail.frame x nf (omega (arith, out)) ∙ round.frame x nf out;
        },
      )
