-- ===== src/Floats/Equal.antt =====
-- Equality of floating-point numbers up to the identity of NaNs.
use certirocq.Prelude.{
  ℕ, ◌*◌, ◌^◌, ◌<◌, ◌≡◌, ◌∙◌, refl, ap, Bool, Bool-cases, ◌⊎◌, inl, inr, true, false, ◌&&◌, ◌||◌,
  ◌==◌, arith,
}
use certirocq.Values.{Memory}
use certirocq.Int63.{mk_bool}
use certirocq.Floats.{
  FloatUnit, infinity, fabs, negate, isnan, double_eq, FloatClass, fpclassify, prim_float_equal,
}

-- The comparison of two bit patterns, `r` giving the reciprocals.
compared : (r : ℕ → ℕ) (a b : ℕ) → Bool
compared r a b = elim (fpclassify a) [
  | FloatClass.fp_nan ↦ isnan b
  | FloatClass.fp_zero ↦ double_eq a b && double_eq (r a) (r b)
  | _ ↦ double_eq a b
]

-- A zero is equal to the zero of the same sign, which its reciprocal tells.
compared-zero :
    (r : ℕ → ℕ) (a b : ℕ)
    → b < 2 ^ 64
    → r 0 ≡ infinity
    → r (2 ^ 63) ≡ negate infinity
    → (a ≡ 0) ⊎ (a ≡ 2 ^ 63)
    → compared r a b ≡ ((a == b) || (isnan a && isnan b))
unfolding compared
compared-zero r a b hb e0 e1 (inl a0) = elim (Bool-cases (fabs b == 0)) [
  | inl zero_b ↦ elim (Bool-cases (b == 0)) [
    | inl same ↦ let b0 : b ≡ 0 = ground arith in rw (a0, b0, e0) refl
    | inr other ↦ let b1 : b ≡ 2 ^ 63 = ground arith in rw (a0, b1, e0, e1) refl
  ]
  | inr nonzero ↦ rw a0 (ground arith)
]
compared-zero r a b hb e0 e1 (inr a1) = elim (Bool-cases (fabs b == 0)) [
  | inl zero_b ↦ elim (Bool-cases (b == 0)) [
    | inl same ↦ let b0 : b ≡ 0 = ground arith in rw (a1, b0, e0, e1) refl
    | inr other ↦ let b1 : b ≡ 2 ^ 63 = ground arith in rw (a1, b1, e1) refl
  ]
  | inr nonzero ↦ rw a1 (ground arith)
]

compared-nonzero :
    (r : ℕ → ℕ) (a b : ℕ)
    → a < 2 ^ 64
    → b < 2 ^ 64
    → (fabs a == 0) ≡ false
    → compared r a b ≡ ((a == b) || (isnan a && isnan b))
unfolding compared
compared-nonzero r a b ha hb nonzero = ground arith

by_class :
    (c : FloatClass) (p q r : Bool)
    → elim c [ FloatClass.fp_nan ↦ mk_bool p | FloatClass.fp_zero ↦ mk_bool q | _ ↦ mk_bool r ]
      ≡ mk_bool (elim c [ FloatClass.fp_nan ↦ p | FloatClass.fp_zero ↦ q | _ ↦ r ])
by_class FloatClass.fp_nan p q r = refl
by_class FloatClass.fp_infinite p q r = refl
by_class FloatClass.fp_zero p q r = refl
by_class FloatClass.fp_subnormal p q r = refl
by_class FloatClass.fp_normal p q r = refl

-- `prim_float_equal` says whether two numbers have the same bits or are both a NaN, provided that
-- dividing 1 by the two zeros gives the two infinities.
pub prim_float_equal-bits :
    (unit : FloatUnit) (m : Memory) (x y : ℕ)
    → m x < 2 ^ 64
    → m y < 2 ^ 64
    → unit.div (1023 * 2 ^ 52) 0 ≡ infinity
    → unit.div (1023 * 2 ^ 52) (2 ^ 63) ≡ negate infinity
    → prim_float_equal unit m x y ≡ mk_bool ((m x == m y) || (isnan (m x) && isnan (m y)))
unfolding prim_float_equal compared
prim_float_equal-bits unit m x y hx hy zero' minus_zero =
    by_class (fpclassify (m x)) _ _ _ ∙ ap mk_bool decided
  where
    zeros : (a : ℕ) → a < 2 ^ 64 → (fabs a == 0) ≡ true → (a ≡ 0) ⊎ (a ≡ 2 ^ 63)
    zeros a h e = ground arith

    decided :
        compared (unit.div (1023 * 2 ^ 52)) (m x) (m y)
        ≡ ((m x == m y) || (isnan (m x) && isnan (m y)))
    decided = elim (Bool-cases (fabs (m x) == 0)) [
      | inl zero_x ↦
          compared-zero (unit.div (1023 * 2 ^ 52)) (m x) (m y) hy zero' minus_zero
            (zeros (m x) hx zero_x)
      | inr nonzero ↦ compared-nonzero (unit.div (1023 * 2 ^ 52)) (m x) (m y) hx hy nonzero
    ]
