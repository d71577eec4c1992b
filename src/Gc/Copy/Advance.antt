-- ===== src/Gc/Copy/Advance.antt =====
-- The scan pointer moves past a copy whose fields have all been forwarded.
use certirocq.Prelude.{ℕ, ◌+◌, ◌-◌, ◌*◌, ◌≤◌, ◌<◌, ◌≡◌, inl, inr, arith, false, ltb, Bool-cases}
use certirocq.Gc.Copy.{Copy}
use certirocq.Gc.Copy.Invariant.{Layout, Block, bare, IsLayout, Inv, from_ptr, Moved_of_gone}

module _ {L : Layout} (w : IsLayout L) {s : ℕ} {c : Copy} (inv : Inv L s c) (v n : ℕ)
    (b : Block L v n) (gone : c.mem (v - 8) ≡ 0) (at : c.mem v ≡ s + 8)
    (room : s + 8 + 8 * n ≤ c.next)
    (forwarded : (i : ℕ)
      → i < n
      → bare L v ≡ false
      → from_ptr L (c.mem (s + 8 + 8 * i)) ≡ false) where
  advance_scanned :
      (u j i : ℕ)
      → Block L u j
      → c.mem (u - 8) ≡ 0
      → i < j
      → c.mem u + 8 * i < s + 8 + 8 * n
      → bare L u ≡ false
      → from_ptr L (c.mem (c.mem u + 8 * i)) ≡ false
  advance_scanned u j i bu gu lt before scans =
      let moved = Moved_of_gone L w u j inv bu gu in
      elim (Bool-cases (ltb (c.mem u + 8 * i) s)) [
        | inl old ↦ (moved.fields i lt).scanned (ground arith) scans
        | inr new ↦ elim (inv.distinct u j v n bu b gu gone) [
          | inl one ↦
              let k : c.mem u ≡ s + 8 = rw one at in
              rw k (forwarded i (omega (arith, k)) (rw (← one) scans))
          | inr apart ↦ absurd (ground arith)
        ]
      ]

  pub advance-Inv : Inv L (s + 8 + 8 * n) c
  advance-Inv = record {
    space = inv.space;
    above = inv.above;
    aligned = inv.aligned;
    scan_below = room;
    block = λ u j bu. elim (inv.block u j bu) [
      | inl un ↦ inl un
      | inr moved ↦ inr (record {
        gone = moved.gone;
        above = moved.above;
        below = moved.below;
        aligned = moved.aligned;
        header = moved.header;
        fields = λ i lt. record {
          value = (moved.fields i lt).value;
          scanned = advance_scanned u j i bu moved.gone lt;
        };
      })
    ];
    distinct = inv.distinct;
  }
