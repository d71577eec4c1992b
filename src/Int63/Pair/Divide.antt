-- ===== src/Int63/Pair/Divide.antt =====
-- The divisions of 63-bit integers that return quotient and remainder.
use mathlib.Core.Path.{subst}
use native.Mathlib.Nat.{div-add-mod, mod-lt, pow-suc, pow-le-pow_right}
use certirocq.Prelude.{
  ℕ, zero, suc, ◌+◌, ◌*◌, ◌/◌, ◌%◌, ◌^◌, ◌≤◌, ◌<◌, ◌≡◌, ◌≢◌, ◌==◌, ◌∙◌, refl, sym, ap, ap₂, bit_or,
  bit_and, Bool, Bool-cases, inl, inr, true, false, leb, arith, if◌then◌else◌,
}
use certirocq.Word.{◌<<<◌, ◌>>>◌, bit_or_fields, bit_and_mask}
use certirocq.Values.{val_long, unsigned_long_val}
use certirocq.Gc.Alloc.{World}
use certirocq.Int63.{maxuint63}
use certirocq.Int63.Arith.{untag}
use certirocq.Int63.Pair.{
  mk_pair, divide_step, divide_rounds, prim_int63_diveucl_21_long, prim_int63_diveucl_21,
  prim_int63_diveucl,
}

-- What the words of the long division stand for, shifted up by 63 bits.
total : (y : ℕ) → ℕ × ℕ × ℕ → ℕ
total y (nh, nl, q) = (q * y + nh) * 2 ^ 63 + nl

-- Between the rounds: the remainder is below the divisor and the quotient has `k` bits.
Divided : (y k : ℕ) → ℕ × ℕ × ℕ → Type 0
Divided y k (nh, nl, q) = (nh < y) × (nl < 2 ^ 63) × (q < 2 ^ k)

divide_step-Divided :
    (y k : ℕ) (s : ℕ × ℕ × ℕ)
    → y < 2 ^ 63
    → k < 63
    → Divided y k s
    → Divided y (suc k) (divide_step y s) × (total y (divide_step y s) ≡ 2 * total y s)
unfolding divide_step Divided total
divide_step-Divided y k (nh, nl, q) hy hk (hnh, hnl, hq) =
    let wide : 2 ^ k < 2 ^ 63 =
      omega (arith, pow-le-pow_right {n = 2} (omega arith) {i = k} {j = 62} (omega arith)) in
    let double : 2 ^ suc k ≡ 2 * 2 ^ k = pow-suc 2 k ∙ omega arith in
    let high : bit_or (nh <<< 1) (nl >>> 62) ≡ 2 * nh + nl / 2 ^ 62 =
      ap (λ t. bit_or t (nl / 2 ^ 62)) shifted_nh
      ∙ bit_or_fields 1 nh (nl / 2 ^ 62) (omega arith)
      ∙ omega arith in
    let low : bit_and (nl <<< 1) maxuint63 ≡ 2 * nl % 2 ^ 63 =
      bit_and_mask 63 (nl <<< 1) ∙ omega arith in
    rw (high, low)
      elim (Bool-cases (leb y (2 * nh + nl / 2 ^ 62))) [
        | inl le ↦
            let one : bit_or (q <<< 1) 1 ≡ 2 * q + 1 =
              ap (λ t. bit_or t 1) (shifted_q wide)
              ∙ bit_or_fields 1 q 1 (omega arith)
              ∙ omega arith in
            rw (le, one) ((ground arith, omega arith, omega (arith, double)), ground arith)
        | inr gt ↦
            rw (gt, shifted_q wide)
              ((ground arith, omega arith, omega (arith, double)), omega arith)
      ]
  where
    shifted_nh : (nh <<< 1) ≡ nh * 2 ^ 1
    shifted_nh = omega arith

    shifted_q : 2 ^ k < 2 ^ 63 → (q <<< 1) ≡ q * 2 ^ 1
    shifted_q wide = omega arith

divide_rounds-Divided :
    (n y k : ℕ) (s : ℕ × ℕ × ℕ)
    → y < 2 ^ 63
    → k + n ≤ 63
    → Divided y k s
    → Divided y (k + n) (divide_rounds n y s) × (total y (divide_rounds n y s) ≡ 2 ^ n * total y s)
unfolding divide_rounds
divide_rounds-Divided zero y k s hy hk d = (subst (λ t. Divided y t s) (omega arith) d, omega arith)
divide_rounds-Divided (suc n) y k s hy hk d =
    let (d', e) = divide_step-Divided y k s hy (omega arith) d in
    let (d'', e') = divide_rounds-Divided n y (suc k) (divide_step y s) hy (omega arith) d' in
    (
      subst (λ t. Divided y t (divide_rounds n y (divide_step y s))) (omega arith) d'',
      e' ∙ ap (λ t. 2 ^ n * t) e ∙ omega (arith, ap (λ t. t * total y s) (pow-suc 2 n)),
    )

-- The 63 rounds of the long division: they leave the remainder and the quotient.
divide_rounds-quotient :
    (xh xl y : ℕ)
    → y < 2 ^ 63
    → xh < y
    → xl < 2 ^ 63
    → (r : ℕ) × (l : ℕ) × (q : ℕ) × (divide_rounds 63 y (xh, xl, 0) ≡ (r, l, q))
      × (q * y + r ≡ xh * 2 ^ 63 + xl)
      × (r < y)
      × (q < 2 ^ 63)
unfolding Divided total
divide_rounds-quotient xh xl y hy hx hl =
    let (d, e) = divide_rounds-Divided 63 y 0 (xh, xl, 0) hy (omega arith) (hx, hl, omega arith) in
    let s = divide_rounds 63 y (xh, xl, 0) in
    (s.0, s.1, s.2, refl, cancel s.0 s.1 s.2 e d.1, d.0, d.2)
  where
    cancel :
        (r l q : ℕ)
        → (q * y + r) * 2 ^ 63 + l ≡ 2 ^ 63 * ((0 * y + xh) * 2 ^ 63 + xl)
        → l < 2 ^ 63
        → q * y + r ≡ xh * 2 ^ 63 + xl
    cancel r l q e small = omega arith

prim_int63_diveucl_21_long-mk_pair :
    (w : World)
    → (xh xl y r l q : ℕ) → xh < 2 ^ 63
    → xl < 2 ^ 63
    → divide_rounds 63 y (xh, xl, 0) ≡ (r, l, q)
    → prim_int63_diveucl_21_long w xh xl y ≡ mk_pair w (val_long q) (val_long r)
unfolding prim_int63_diveucl_21_long
prim_int63_diveucl_21_long-mk_pair w xh xl y r l q hh hl e =
    ap pair (ap₂ (λ a b. divide_rounds 63 y (a, b, 0)) (masked xh hh) (masked xl hl) ∙ e)
  where
    pair : ℕ × ℕ × ℕ → ℕ × World
    pair (a, b, c) = mk_pair w (val_long c) (val_long a)

    masked : (a : ℕ) → a < 2 ^ 63 → bit_and a maxuint63 ≡ a
    masked a h = bit_and_mask 63 a ∙ omega arith

prim_int63_diveucl_21-branch :
    (w : World)
    → (xh xl y : ℕ) → xh < 2 ^ 63
    → xl < 2 ^ 63
    → y < 2 ^ 63
    → (b : Bool) → leb y xh ≡ b
    → prim_int63_diveucl_21 w (val_long xh) (val_long xl) (val_long y)
      ≡ (if b then mk_pair w (val_long 0) (val_long 0) else prim_int63_diveucl_21_long w xh xl y)
unfolding prim_int63_diveucl_21
prim_int63_diveucl_21-branch w xh xl y hh hl hy b e =
    subst
      (λ t.
        branch (unsigned_long_val (val_long xh)) (unsigned_long_val (val_long xl))
          (unsigned_long_val (val_long y))
        ≡ branch' t)
      e (ap₂ (λ f a. f a) (ap₂ branch (untag xh hh) (untag xl hl)) (untag y hy))
  where
    branch : ℕ → ℕ → ℕ → ℕ × World
    branch a c d =
        if leb d a then mk_pair w (val_long 0) (val_long 0) else prim_int63_diveucl_21_long w a c d

    branch' : Bool → ℕ × World
    branch' t =
        if t then mk_pair w (val_long 0) (val_long 0) else prim_int63_diveucl_21_long w xh xl y

-- `diveucl_21` of 63-bit numbers, for a high word below the divisor (which the comment in
-- prim_int63.c asks for), returns the pair of the quotient and the remainder of `xh * 2^63 + xl`
-- divided by `y`. Otherwise it returns the pair of two zeros, which is what prim_int63.h documents
-- only for the divisor 0.
pub prim_int63_diveucl_21-cases :
    (w : World)
    → (xh xl y : ℕ) → xh < 2 ^ 63
    → xl < 2 ^ 63
    → y < 2 ^ 63
    → (xh < y
        → (q : ℕ) × (r : ℕ) × (prim_int63_diveucl_21 w (val_long xh) (val_long xl) (val_long y)
            ≡ mk_pair w (val_long q) (val_long r))
          × (xh * 2 ^ 63 + xl ≡ q * y + r)
          × (r < y)
          × (q < 2 ^ 63))
      × (y ≤ xh
          → prim_int63_diveucl_21 w (val_long xh) (val_long xl) (val_long y)
            ≡ mk_pair w (val_long 0) (val_long 0))
prim_int63_diveucl_21-cases w xh xl y hh hl hy = (divides, zeros)
  where
    divides :
        xh < y
        → (q : ℕ) × (r : ℕ) × (prim_int63_diveucl_21 w (val_long xh) (val_long xl) (val_long y)
            ≡ mk_pair w (val_long q) (val_long r))
          × (xh * 2 ^ 63 + xl ≡ q * y + r)
          × (r < y)
          × (q < 2 ^ 63)
    divides lt =
        let below : leb y xh ≡ false = ground arith in
        let (r, l, q, e, total, small, bits) = divide_rounds-quotient xh xl y hy lt hl in
        (
          q,
          r,
          prim_int63_diveucl_21-branch w xh xl y hh hl hy false below
              ∙ prim_int63_diveucl_21_long-mk_pair w xh xl y r l q hh hl e,
          sym total,
          small,
          bits,
        )

    zeros :
        y ≤ xh
        → prim_int63_diveucl_21 w (val_long xh) (val_long xl) (val_long y)
          ≡ mk_pair w (val_long 0) (val_long 0)
    zeros le = prim_int63_diveucl_21-branch w xh xl y hh hl hy true (ground arith)

-- `diveucl` returns the pair of the quotient and the remainder for a divisor other than 0, and the
-- pair of 0 and the dividend for the divisor 0.
prim_int63_diveucl-quotient :
    (w : World)
    → (a b : ℕ) → a < 2 ^ 63
    → b < 2 ^ 63
    → (q : ℕ) × (r : ℕ) × (prim_int63_diveucl w (val_long a) (val_long b)
        ≡ mk_pair w (val_long q) (val_long r))
      × (a ≡ b * q + r)
      × (b ≢ 0 → r < b)
      × (b ≡ 0 → q ≡ 0)
unfolding prim_int63_diveucl
prim_int63_diveucl-quotient w a b ha hb = elim (Bool-cases (b == 0)) [
  | inl none ↦ (
    0,
    a,
    rw (untag a ha, untag b hb, none) refl,
    omega arith,
    λ ne. absurd (ground arith),
    λ e. refl,
  )
  | inr some ↦ (
    a / b,
    a % b,
    rw (untag a ha, untag b hb, some) refl,
    sym (div-add-mod a b),
    λ ne. mod-lt a (omega arith),
    λ e. absurd (ground arith),
  )
]
