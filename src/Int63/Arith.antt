-- ===== src/Int63/Arith.antt =====
-- The arithmetic of 63-bit integers is that of numbers modulo 2^63.
use native.Mathlib.Nat.{
  div-add-mod, mod-lt, one-le-pow, pow-suc, mul-lt-mul_of_pos_right, add-mul-mod_self_left,
  mod-eq_of_lt, div-lt_iff_lt-mul,
}
use certirocq.Prelude.{
  ℕ, zero, suc, ◌+◌, ◌-◌, ◌*◌, ◌/◌, ◌%◌, ◌^◌, ◌<◌, ◌≡◌, ◌≢◌, refl, ◌∙◌, sym, ap, bit_and,
  Bool-cases, inl, inr, ◌==◌, ltb, arith, if◌then◌else◌,
}
use certirocq.Word.{bit_or_fields, bit_and_mask, ◌<<<◌}
use certirocq.Values.{val_long, unsigned_long_val}
use certirocq.Values.Long.{val_long-eq, unsigned_long_val-val_long}
use certirocq.Int63.{
  maxuint63, prim_int63_add, prim_int63_sub, prim_int63_mul, prim_int63_mod, prim_int63_div,
  prim_int63_lsl, prim_int63_lsr, prim_int63_addmuldiv,
}

-- Tagging forgets what is above 63 bits.
pub val_long-mod : (x y : ℕ) → x % 2 ^ 63 ≡ y % 2 ^ 63 → val_long x ≡ val_long y
val_long-mod x y e = omega (arith, val_long-eq x, val_long-eq y)

pub untag : (a : ℕ) → a < 2 ^ 63 → unsigned_long_val (val_long a) ≡ a
untag a h = omega (arith, unsigned_long_val-val_long a)

-- Addition, subtraction and multiplication of tagged numbers are those of the numbers modulo 2^63.
pub prim_int63_ring :
    (a b : ℕ)
    → a < 2 ^ 63
    → b < 2 ^ 63
    → (prim_int63_add (val_long a) (val_long b) ≡ val_long ((a + b) % 2 ^ 63))
      × (prim_int63_sub (val_long a) (val_long b) ≡ val_long ((a + 2 ^ 63 - b) % 2 ^ 63))
      × (prim_int63_mul (val_long a) (val_long b) ≡ val_long (a * b % 2 ^ 63))
unfolding prim_int63_add prim_int63_sub prim_int63_mul
prim_int63_ring a b ha hb =
    rw (untag a ha, untag b hb)
      (
        val_long-mod _ _ (omega arith),
        val_long-mod _ _ (omega arith),
        val_long-mod _ _ (omega arith),
      )

-- Division and remainder: for a divisor other than 0 they are quotient and remainder, by 0 the
-- quotient is 0 and the remainder the dividend.
pub prim_int63_div-mod :
    (a b : ℕ)
    → a < 2 ^ 63
    → b < 2 ^ 63
    → (q : ℕ) × (r : ℕ) × (prim_int63_div (val_long a) (val_long b) ≡ val_long q)
      × (prim_int63_mod (val_long a) (val_long b) ≡ val_long r)
      × (b ≢ 0 → (a ≡ b * q + r) × (r < b))
      × (b ≡ 0 → (q ≡ 0) × (r ≡ a))
unfolding prim_int63_div prim_int63_mod
prim_int63_div-mod a b ha hb = elim (Bool-cases (b == 0)) [
  | inl none ↦ (
    0,
    a,
    rw (untag b hb, none),
    rw (untag b hb, none),
    λ ne. absurd (ground arith),
    λ e. (refl, refl),
  )
  | inr some ↦ (
    a / b,
    a % b,
    rw (untag a ha, untag b hb, some),
    rw (untag a ha, untag b hb, some),
    λ ne. (sym (div-add-mod a b), mod-lt a (omega arith)),
    λ e. absurd (ground arith),
  )
]

-- Shifts by less than 63 multiply and divide by the power of 2; a longer shift gives 0.
prim_int63_shifts :
    (a k : ℕ)
    → a < 2 ^ 63
    → k < 2 ^ 63
    → (prim_int63_lsl (val_long a) (val_long k)
        ≡ val_long (if ltb k 63 then a * 2 ^ k % 2 ^ 63 else 0))
      × (prim_int63_lsr (val_long a) (val_long k) ≡ val_long (if ltb k 63 then a / 2 ^ k else 0))
unfolding prim_int63_lsl prim_int63_lsr
prim_int63_shifts a k ha hk = elim (Bool-cases (ltb k 63)) [
  | inl short ↦ rw (untag a ha, untag k hk, short) (val_long-mod _ _ (omega arith), refl)
  | inr long ↦ rw (untag a ha, untag k hk, long) (refl, refl)
]

pub two_pow_split : (j i : ℕ) → 2 ^ i * 2 ^ j ≡ 2 ^ (i + j)
two_pow_split zero i = let e : i + 0 ≡ i = omega arith in rw e (omega arith)
two_pow_split (suc j) i =
    let e : i + suc j ≡ suc (i + j) = omega arith in
    rw e
      (omega (arith, two_pow_split j i, pow-suc 2 (i + j), ap (λ (t : ℕ). 2 ^ i * t) (pow-suc 2 j)))

-- A multiple of `m` modulo a multiple of `m`.
mul-mod-mul : (a m n : ℕ) → 0 < n → a * m % (m * n) ≡ a % n * m
mul-mod-mul a m n pos = elim (Bool-cases (m == 0)) [
  | inl none ↦ let e : m ≡ 0 = ground arith in rw e (omega arith)
  | inr some ↦
      let split : a * m ≡ a % n * m + m * n * (a / n) =
        omega (arith, ap (λ (t : ℕ). t * m) (div-add-mod a n)) in
      let small : a % n * m < m * n =
        omega (arith, mul-lt-mul_of_pos_right {k = m} (mod-lt a pos) (ground arith)) in
      rw split (add-mul-mod_self_left (a % n * m) (m * n) (a / n) ∙ mod-eq_of_lt small)
]

-- `addmuldiv p x y` is `x` moved up by `p` bits, with the top `p` bits of `y` below; for `p` above 63
-- it is 0.
pub prim_int63_addmuldiv_lem :
    (p a b : ℕ)
    → p < 2 ^ 63
    → a < 2 ^ 63
    → b < 2 ^ 63
    → prim_int63_addmuldiv (val_long p) (val_long a) (val_long b)
      ≡ val_long (if ltb 63 p then 0 else a * 2 ^ p % 2 ^ 63 + b / 2 ^ (63 - p))
unfolding prim_int63_addmuldiv
prim_int63_addmuldiv_lem p a b hp ha hb = elim (Bool-cases (ltb 63 p)) [
  | inl over ↦ rw (untag p hp, over)
  | inr fits ↦
      let total : 63 ≡ p + (63 - p) = ground arith in
      let whole : 2 ^ p * 2 ^ (63 - p) ≡ 2 ^ 63 =
        two_pow_split (63 - p) p ∙ ap (λ t. 2 ^ t) (sym total) in
      let pos = one-le-pow (63 - p) 2 (omega arith) in
      let high : a * 2 ^ p % 2 ^ 63 ≡ a % 2 ^ (63 - p) * 2 ^ p =
        rw (← whole) (mul-mod-mul a (2 ^ p) (2 ^ (63 - p)) pos) in
      let masked : bit_and (a <<< p) maxuint63 ≡ a % 2 ^ (63 - p) * 2 ^ p =
        bit_and_mask 63 (a <<< p) ∙ omega (arith, high) in
      let low : b / 2 ^ (63 - p) < 2 ^ p = (div-lt_iff_lt-mul pos).1 (omega (arith, whole)) in
      rw (untag p hp, untag a ha, untag b hb, fits, masked, high)
        (ap val_long (bit_or_fields p (a % 2 ^ (63 - p)) (b / 2 ^ (63 - p)) low))
]
