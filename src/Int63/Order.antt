-- ===== src/Int63/Order.antt =====
-- The comparisons of 63-bit integers: which of them are unsigned, and which are signed.
use certirocq.Prelude.{
  ℕ, ◌+◌, ◌*◌, ◌^◌, ◌≤◌, ◌<◌, ◌≡◌, refl, Bool, true, false, ◌==◌, ltb, leb, arith, if◌then◌else◌,
}
use certirocq.Prelude.Int.{ℤ, ◌≤ℤ◌, ltb_ℤ}
use certirocq.Values.{val_long, val_long_signed, max_long, min_long}
use certirocq.Values.Long.{val_long-eq, long_val-val_long_signed}
use certirocq.Int63.{
  eqb_ℤ, leb_ℤ, mk_bool, prim_int63_eqb, prim_int63_leb, prim_int63_ltb, prim_int63_lesb,
  prim_int63_ltsb, prim_int63_compare, prim_int63_compares,
}
use certirocq.Int63.Arith.{untag}

-- The words of `comparison` for the constructors `Eq`, `Lt` and `Gt`.
abbrev pub comparison : (equal less : Bool) → ℕ
comparison equal less = if equal then 1 else if less then 3 else 5

-- The signed comparisons decide the order of the signed numbers of 63 bits.
pub prim_int63_signed_order :
    (x y : ℤ)
    → min_long ≤ℤ x
    → x ≤ℤ max_long
    → min_long ≤ℤ y
    → y ≤ℤ max_long
    → (prim_int63_lesb (val_long_signed x) (val_long_signed y) ≡ mk_bool (leb_ℤ x y))
      × (prim_int63_ltsb (val_long_signed x) (val_long_signed y) ≡ mk_bool (ltb_ℤ x y))
      × (prim_int63_compares (val_long_signed x) (val_long_signed y)
          ≡ comparison (eqb_ℤ x y) (ltb_ℤ x y))
unfolding prim_int63_lesb prim_int63_ltsb prim_int63_compares
prim_int63_signed_order x y lx hx ly hy =
    rw (long_val-val_long_signed x lx hx, long_val-val_long_signed y ly hy)
      (refl, refl, ground arith)

-- Equality and the three-way comparison decide the order of the unsigned numbers.
prim_int63_compare_lem :
    (a b : ℕ)
    → a < 2 ^ 63
    → b < 2 ^ 63
    → (prim_int63_eqb (val_long a) (val_long b) ≡ mk_bool (a == b))
      × (prim_int63_compare (val_long a) (val_long b) ≡ comparison (a == b) (ltb a b))
unfolding prim_int63_eqb prim_int63_compare
prim_int63_compare_lem a b ha hb = rw (untag a ha, untag b hb) (refl, ground arith)

-- `prim_int63_leb` and `prim_int63_ltb` compare the tagged words as signed. On two numbers below
-- 2^62, or two from 2^62 on, that is the order of the unsigned numbers; between the halves it is
-- the reverse: a number below 2^62 counts as larger than one from 2^62 on.
prim_int63_leb_halves :
    (a b : ℕ)
    → a < 2 ^ 63
    → b < 2 ^ 63
    → (ltb a (2 ^ 62) ≡ ltb b (2 ^ 62)
        → (prim_int63_leb (val_long a) (val_long b) ≡ mk_bool (leb a b))
          × (prim_int63_ltb (val_long a) (val_long b) ≡ mk_bool (ltb a b)))
      × (a < 2 ^ 62
          → 2 ^ 62 ≤ b
          → (prim_int63_leb (val_long a) (val_long b) ≡ mk_bool false)
            × (prim_int63_ltb (val_long a) (val_long b) ≡ mk_bool false)
            × (prim_int63_leb (val_long b) (val_long a) ≡ mk_bool true)
            × (prim_int63_ltb (val_long b) (val_long a) ≡ mk_bool true))
unfolding prim_int63_leb prim_int63_ltb
prim_int63_leb_halves a b ha hb =
    let ea : val_long a ≡ 2 * a + 1 = omega (arith, val_long-eq a) in
    let eb : val_long b ≡ 2 * b + 1 = omega (arith, val_long-eq b) in
    rw (ea, eb)
      (
        λ same. (ground arith, ground arith),
        λ lo hi. (ground arith, ground arith, ground arith, ground arith),
      )

-- The comparisons of unsigned numbers. Equality and the three-way comparison decide their order.
-- `prim_int63_leb` and `prim_int63_ltb` compare the tagged words as signed: on two numbers below
-- 2^62, or two from 2^62 on, that is the order of the unsigned numbers; between the halves it is
-- the reverse: a number below 2^62 counts as larger than one from 2^62 on.
pub prim_int63_unsigned_order :
    (a b : ℕ)
    → a < 2 ^ 63
    → b < 2 ^ 63
    → (prim_int63_eqb (val_long a) (val_long b) ≡ mk_bool (a == b))
      × (prim_int63_compare (val_long a) (val_long b) ≡ comparison (a == b) (ltb a b))
      × (ltb a (2 ^ 62) ≡ ltb b (2 ^ 62)
          → (prim_int63_leb (val_long a) (val_long b) ≡ mk_bool (leb a b))
            × (prim_int63_ltb (val_long a) (val_long b) ≡ mk_bool (ltb a b)))
      × (a < 2 ^ 62
          → 2 ^ 62 ≤ b
          → (prim_int63_leb (val_long a) (val_long b) ≡ mk_bool false)
            × (prim_int63_ltb (val_long a) (val_long b) ≡ mk_bool false)
            × (prim_int63_leb (val_long b) (val_long a) ≡ mk_bool true)
            × (prim_int63_ltb (val_long b) (val_long a) ≡ mk_bool true))
prim_int63_unsigned_order a b ha hb =
    let (eqb, compare) = prim_int63_compare_lem a b ha hb in
    let (same, between) = prim_int63_leb_halves a b ha hb in (eqb, compare, same, between)
