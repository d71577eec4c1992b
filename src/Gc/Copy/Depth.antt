-- ===== src/Gc/Copy/Depth.antt =====
-- `forward` at every depth of its search.
use native.Mathlib.Nat.{add-zero, le_refl}
use certirocq.Prelude.{
  ℕ, zero, suc, ◌+◌, ◌-◌, ◌*◌, ◌≤◌, ◌≡◌, ◌≢◌, inl, inr, ◌∙◌, arith, Bool-cases, true, false, ◌==◌,
  ==_iff,
}
use certirocq.Values.{wosize_hd, tag_hd, no_scan}
use certirocq.Gc.Copy.{Copy, move, forward, for_words}
use certirocq.Gc.Copy.Invariant.{
  Layout, Block, bare, IsLayout, Inv, from_ptr, Good, Unmoved_of_header,
}
use certirocq.Gc.Copy.Place.{Place, Place-Outside, next-le}
use certirocq.Gc.Copy.Steps.{Grows-trans, Step}
use certirocq.Gc.Copy.Forward.{Step-not_from, Step-moved, move-Step, move-InCopy, move_next}
use certirocq.Gc.Copy.Settled.{Treated-Grows, InCopy-Good}
use certirocq.Gc.Copy.Loop.{Treats, Steps, for_words-Steps}

module _ {L : Layout} (w : IsLayout L) where
  -- A step, and a loop over words that are new to it.
  Step-Steps :
      {scan : ℕ} {c b c' : Copy} (p n a : ℕ)
      → Inv L scan c
      → Place L c.mem p
      → Good L (c.mem p)
      → Step L scan p c b
      → c.next + 8 ≤ a
      → a + 8 * n ≤ b.next
      → Steps w scan n a b c'
      → Step L scan p c c'
  Step-Steps {c} {b} {c'} p n a inv place good step lo hi loop =
      let out = Place-Outside L w inv p place in
      let top = next-le L w step.inv in
      record {
        inv = loop.inv;
        grows = Grows-trans L step.grows loop.grows;
        treated = Treated-Grows w (c.mem p) p good step.treated loop.grows (
            loop.frame p (out.0, omega (arith, out.1, step.grows.next_le))
              (λ i lt e. omega (arith, out.1)));
        frame = λ x o ne.
            loop.frame x (o.0, omega (arith, o.1, step.grows.next_le))
              (λ i lt e. omega (arith, o.1))
            ∙ step.frame x o ne;
      }

  not_zero : (x : ℕ) → (x == 0) ≡ false → x ≢ 0
  not_zero x ne e = ground arith

  -- The search in depth, at an object that has just been moved.
  deeper-Step :
      {scan : ℕ} (f : ℕ → Copy → Copy)
      → Treats w scan f
      → (p n : ℕ) (c : Copy) → Inv L scan c
      → Place L c.mem p
      → (b : Block L (c.mem p) n) → c.mem (c.mem p - 8) ≢ 0
      → from_ptr L (c.mem p) ≡ true
      → bare L (c.mem p) ≡ false
      → Step L scan p c (
          for_words f
            (wosize_hd (c.mem (c.mem p - 8)))
            (c.next + 8)
            (move (c.mem (c.mem p - 8)) (c.mem p) p c))
  deeper-Step {scan} f treats p n c inv place b set from scans =
      let header = (Unmoved_of_header L w (c.mem p) n inv b set).header in
      let size : wosize_hd (c.mem (c.mem p - 8)) ≡ n = rw header (w.headers (c.mem p) n b) in
      let step = move-Step w p n inv place b set from in
      rw size (
        Step-Steps p n (c.next + 8) inv place (λ _. (n, b)) step (le_refl _)
          (move_next w p n inv place b set)
          (for_words-Steps w f treats n (c.next + 8) _ step.inv λ i lt.
            let f = move-InCopy w p n inv place b set i lt scans in
            (inr f, InCopy-Good w (c.next + 8 + 8 * i) step.inv f)))

  -- `forward`, whatever the depth of its search.
  pub forward-Step : {scan : ℕ} (d : ℕ) → Treats w scan (forward L.from_start L.from_limit d)
  unfolding forward
  forward-Step zero p c inv place good = elim (Bool-cases (from_ptr L (c.mem p))) [
    | inr nf ↦ rw nf (Step-not_from w p inv nf)
    | inl from ↦
        let (n, b) = good from in
        elim (Bool-cases (c.mem (c.mem p - 8) == 0)) [
          | inl gone ↦
              rw (from, gone, add-zero (c.mem p))
                (Step-moved w p n inv place b ((==_iff _ 0).0 gone) from)
          | inr set ↦ rw (from, set) (move-Step w p n inv place b (not_zero _ set) from)
        ]
  ]
  forward-Step (suc d) p c inv place good = elim (Bool-cases (from_ptr L (c.mem p))) [
    | inr nf ↦ rw nf (Step-not_from w p inv nf)
    | inl from ↦
        let (n, b) = good from in
        elim (Bool-cases (c.mem (c.mem p - 8) == 0)) [
          | inl gone ↦
              rw (from, gone, add-zero (c.mem p))
                (Step-moved w p n inv place b ((==_iff _ 0).0 gone) from)
          | inr set ↦
              let ne = not_zero (c.mem (c.mem p - 8)) set in
              let header = (Unmoved_of_header L w (c.mem p) n inv b ne).header in
              elim (Bool-cases (no_scan (tag_hd (c.mem (c.mem p - 8))))) [
                | inl data_only ↦ rw (from, set, data_only) (move-Step w p n inv place b ne from)
                | inr scans ↦
                    rw (from, set, scans)
                      (deeper-Step _ (forward-Step d) p n c inv place b ne from
                        (rw header at scans))
              ]
        ]
  ]
