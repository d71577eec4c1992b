-- ===== src/Strings/Compare.antt =====
-- The order of `prim_string_compare`.
use certirocq.Prelude.{
  ℕ, zero, suc, ◌+◌, ◌^◌, ◌<◌, ◌≡◌, ◌≢◌, refl, sym, ap, ap₂, ◌∙◌, ◌⊎◌, inl, inr, Bool-cases, true,
  false, not, ◌==◌, ltb, arith, if◌then◌else◌,
}
use certirocq.Prelude.Int.{ℤ, pos, pos_part, ◌-ℤ◌}
use certirocq.Word.{u64, of_signed}
use certirocq.Values.{Memory, byte_at, val_long_signed}
use certirocq.Values.Long.{val_long-eq}
use certirocq.Int63.{eqb_ℤ}
use certirocq.Strings.Bytes.{signed8, byte}
use certirocq.Strings.{prim_strlen, compare_bytes, prim_string_compare}

-- What the comparison of two different bytes returns.
abbrev pub difference : (b c : ℕ) → ℤ
difference b c = signed8 b -ℤ signed8 c

difference-zero : (b c : ℕ) → b < 256 → c < 256 → eqb_ℤ (difference b c) (pos 0) ≡ (b == c)
unfolding ◌-ℤ◌
difference-zero b c hb hc = ground arith

difference-word : (b c : ℕ) → b < 256 → c < 256 → b ≢ c → of_signed (difference b c) ≢ 0
unfolding ◌-ℤ◌
difference-word b c hb hc ne = ground arith

module _ (m : Memory) (x y : ℕ) where
  abbrev pub SameBytes : ℕ → Type 0
  SameBytes n = (i : ℕ) → i < n → byte_at m (x + i) ≡ byte_at m (y + i)

  -- The strings agree up to the byte `k`, where they differ.
  pub record DifferAt (k : ℕ) : Type 0 where
    pub same : SameBytes k
    pub differ : byte_at m (x + k) ≢ byte_at m (y + k)

  SameBytes-suc :
      (i : ℕ) → SameBytes i → (byte_at m (x + i) == byte_at m (y + i)) ≡ true → SameBytes (i + 1)
  SameBytes-suc i same equal j lt = elim (Bool-cases (j == i)) [
    | inl here ↦ let e : j ≡ i = ground arith in rw e (ground arith)
    | inr there ↦ same j (ground arith)
  ]

  compare_bytes-suc :
      (n i : ℕ)
      → x + i < 2 ^ 63
      → y + i < 2 ^ 63
      → compare_bytes m x y (suc n) i ≡ (
          if not (byte_at m (x + i) == byte_at m (y + i))
          then difference (byte_at m (x + i)) (byte_at m (y + i))
          else compare_bytes m x y n (i + 1))
  unfolding compare_bytes byte
  compare_bytes-suc n i hx hy =
      let ex : u64 (x + i) ≡ x + i = omega arith in
      let ey : u64 (y + i) ≡ y + i = omega arith in
      let zero_is =
        difference-zero (byte_at m (x + i)) (byte_at m (y + i)) (omega arith) (omega arith) in
      ap₂
        (λ a b.
          let cmp = signed8 (byte_at m a) -ℤ signed8 (byte_at m b) in
          if not (eqb_ℤ cmp (pos 0)) then cmp else compare_bytes m x y n (i + 1))
        ex ey
      ∙ ap
          (λ t.
            if not t
            then difference (byte_at m (x + i)) (byte_at m (y + i))
            else compare_bytes m x y n (i + 1))
          zero_is

  compare_bytes-cases :
      (n i : ℕ)
      → x + (i + n) < 2 ^ 63
      → y + (i + n) < 2 ^ 63
      → SameBytes i
      → (SameBytes (i + n) × (compare_bytes m x y n i ≡ pos 0))
        ⊎ ((k : ℕ) × (k < i + n)
            × DifferAt k
            × (compare_bytes m x y n i ≡ difference (byte_at m (x + k)) (byte_at m (y + k))))
  unfolding compare_bytes
  compare_bytes-cases zero i hx hy same = inl (λ j lt. same j (omega arith), refl)
  compare_bytes-cases (suc n) i hx hy same =
      let b = byte_at m (x + i) in
      let c = byte_at m (y + i) in
      elim (Bool-cases (b == c)) [
        | inl equal ↦
            let next : SameBytes (i + 1) = SameBytes-suc i same equal in
            let step : compare_bytes m x y (suc n) i ≡ compare_bytes m x y n (i + 1) =
              compare_bytes-suc n i (omega arith) (omega arith) ∙ rw equal refl in
            elim (compare_bytes-cases n (i + 1) (omega arith) (omega arith) next) [
              | inl (all, zero_is) ↦ inl (λ j lt. all j (omega arith), step ∙ zero_is)
              | inr (k, lt, differ, value) ↦ inr (k, omega arith, differ, step ∙ value)
            ]
        | inr other ↦ inr (
          i,
          omega arith,
          record { same = same; differ = ground arith },
          compare_bytes-suc n i (omega arith) (omega arith) ∙ rw other refl,
        )
      ]

-- The two cases of the lengths.
prim_string_compare-lengths :
    (m : Memory) (x y lx ly : ℕ)
    → prim_strlen m x ≡ pos lx
    → prim_strlen m y ≡ pos ly
    → (lx ≡ ly → prim_string_compare m x y ≡ of_signed (compare_bytes m x y lx 0))
      × (lx ≢ ly → prim_string_compare m x y ≡ val_long_signed (pos lx -ℤ pos ly))
unfolding prim_string_compare
prim_string_compare-lengths m x y lx ly ex ey =
    let both : prim_string_compare m x y ≡ (
        if lx == ly
        then of_signed (compare_bytes m x y lx 0)
        else val_long_signed (pos lx -ℤ pos ly)) =
      ap₂
        (λ a b.
          if eqb_ℤ a b
          then of_signed (compare_bytes m x y (pos_part a) 0)
          else val_long_signed (a -ℤ b))
        ex ey
      ∙ ap
          (λ t.
            if t then of_signed (compare_bytes m x y lx 0) else val_long_signed (pos lx -ℤ pos ly))
          (by_parts lx ly) in
    (
      λ same. both ∙ (let e : (lx == ly) ≡ true = ground arith in rw e refl),
      λ other. both ∙ (let e : (lx == ly) ≡ false = ground arith in rw e refl),
    )
  where
    by_parts : (a b : ℕ) → (a + 0 == b + 0) ≡ (a == b)
    by_parts a b = ap₂ (λ s t. s == t) (omega arith) (omega arith)

-- A tagged word is not 0.
val_long_signed-nonzero : (z : ℤ) → val_long_signed z ≢ 0
unfolding val_long_signed
val_long_signed-nonzero z = omega (arith, val_long-eq (of_signed z))

DifferAt-unique : (m : Memory) (x y j k : ℕ) → DifferAt m x y j → DifferAt m x y k → j ≡ k
DifferAt-unique m x y j k dj dk = elim (Bool-cases (ltb j k)) [
  | inl less ↦ absurd (dj.differ (dk.same j (ground arith)))
  | inr not_less ↦ elim (Bool-cases (ltb k j)) [
    | inl less ↦ absurd (dk.differ (dj.same k (ground arith)))
    | inr same ↦ ground arith
  ]
]

bytes_cases :
    (m : Memory) (x y n : ℕ)
    → x + n < 2 ^ 63
    → y + n < 2 ^ 63
    → (SameBytes m x y n × (compare_bytes m x y n 0 ≡ pos 0))
      ⊎ ((k : ℕ) × (k < n)
          × DifferAt m x y k
          × (compare_bytes m x y n 0 ≡ difference (byte_at m (x + k)) (byte_at m (y + k))))
bytes_cases m x y n hx hy =
    elim (compare_bytes-cases m x y n 0 (omega arith) (omega arith)
      (λ i lt. absurd (omega arith))) [
        | inl (all, value) ↦ inl (λ i lt. all i (omega arith), value)
        | inr (k, lt, differ, value) ↦ inr (k, omega arith, differ, value)
      ]

-- Two strings whose bytes stay below 2^63. `prim_string_compare` returns 0 exactly on strings with
-- the same bytes; on strings of the same length that differ first at byte `k` it returns the
-- difference of the two bytes, read as signed characters and not tagged; on strings of different
-- lengths it returns the tagged difference of the lengths.
pub prim_string_compare-SameBytes :
    (m : Memory) (x y lx ly : ℕ)
    → prim_strlen m x ≡ pos lx
    → prim_strlen m y ≡ pos ly
    → x + lx < 2 ^ 63
    → y + ly < 2 ^ 63
    → (prim_string_compare m x y ≡ 0 → (lx ≡ ly) × SameBytes m x y lx)
      × (lx ≡ ly → SameBytes m x y lx → prim_string_compare m x y ≡ 0)
      × ((k : ℕ)
          → lx ≡ ly
          → k < lx
          → DifferAt m x y k
          → prim_string_compare m x y
            ≡ of_signed (difference (byte_at m (x + k)) (byte_at m (y + k))))
      × (lx ≢ ly → prim_string_compare m x y ≡ val_long_signed (pos lx -ℤ pos ly))
prim_string_compare-SameBytes m x y lx ly ex ey hx hy =
    let (equal_lengths, other_lengths) = prim_string_compare-lengths m x y lx ly ex ey in
    (
      λ zero_is. elim (Bool-cases (lx == ly)) [
        | inl equal ↦
            let e : lx ≡ ly = ground arith in
            (
              e,
              elim (bytes_cases m x y lx hx (rw e hy)) [
                | inl (all, value) ↦ all
                | inr (k, lt, differ, value) ↦ absurd (
                    difference-word (byte_at m (x + k)) (byte_at m (y + k)) (omega arith)
                      (omega arith) differ.differ
                      (sym (ap of_signed value) ∙ sym (equal_lengths e) ∙ zero_is))
              ],
            )
        | inr other ↦
            let ne : lx ≢ ly = ground arith in
            absurd (val_long_signed-nonzero (pos lx -ℤ pos ly) (sym (other_lengths ne) ∙ zero_is))
      ],
      λ e same. elim (bytes_cases m x y lx hx (rw e hy)) [
        | inl (all, value) ↦ equal_lengths e ∙ ap of_signed value
        | inr (k, lt, differ, value) ↦ absurd (differ.differ (same k lt))
      ],
      λ k e lt d. elim (bytes_cases m x y lx hx (rw e hy)) [
        | inl (all, value) ↦ absurd (d.differ (all k lt))
        | inr (j, lt', d', value) ↦
            equal_lengths e
            ∙ ap of_signed value
            ∙ ap (λ i. of_signed (difference (byte_at m (x + i)) (byte_at m (y + i))))
                (DifferAt-unique m x y j k d' d)
      ],
      other_lengths,
    )
