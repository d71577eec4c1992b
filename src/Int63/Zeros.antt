-- ===== src/Int63/Zeros.antt =====
-- Counting the zeros at the low end of a 63-bit number.
use native.Mathlib.Nat.{div-add-mod}
use certirocq.Prelude.{
  ℕ, ◌+◌, ◌-◌, ◌*◌, ◌/◌, ◌%◌, ◌^◌, ◌<◌, ◌≡◌, ◌≢◌, ◌==◌, ◌∙◌, refl, ap, bit_and, Bool-cases, inl,
  inr, arith, if◌then◌else◌,
}
use certirocq.Word.{bit_and_mask}
use certirocq.Values.{val_long}
use certirocq.Int63.{tail0_step, prim_int63_tail0}
use certirocq.Int63.Arith.{untag, two_pow_split}

-- Between the steps of `prim_int63_tail0`: `r` zeros have been shifted out, and the low bits that
-- are left to search, `m` being 2 to their number, are not all 0.
Searched : (init m : ℕ) → ℕ × ℕ → Type 0
Searched init m (x, r) = (init ≡ x * 2 ^ r) × (x % m ≢ 0)

-- One step halves the bits that are left; `half` says so of the number that it shifts.
tail0_step-Searched :
    (init m k : ℕ) (s : ℕ × ℕ)
    → ((x : ℕ) → x % m ≢ 0 → x % 2 ^ k ≡ 0 → x / 2 ^ k % 2 ^ k ≢ 0)
    → Searched init m s
    → Searched init (2 ^ k) (tail0_step (2 ^ k - 1) k s)
unfolding tail0_step Searched
tail0_step-Searched init m k (x, r) half (whole, some) = elim (Bool-cases (x % 2 ^ k == 0)) [
  | inl zeros ↦
      let none : x % 2 ^ k ≡ 0 = ground arith in
      let shifted : x ≡ x / 2 ^ k * 2 ^ k = omega (arith, div-add-mod x (2 ^ k)) in
      rw (bit_and_mask k x, zeros)
        (
          whole
              ∙ omega (
                arith,
                ap (λ (t : ℕ). t * 2 ^ r) shifted,
                ap (λ (t : ℕ). x / 2 ^ k * t) (two_pow_split k r),
              ),
          half x some none,
        )
  | inr found ↦ rw (bit_and_mask k x, found) (whole, ground arith)
]

-- The last two bits.
last_digit :
    (init : ℕ) (s : ℕ × ℕ)
    → Searched init (2 ^ 2) s
    → (r : ℕ) × (b : ℕ) × (val_long (if bit_and s.0 0x1 == 0 then s.1 + 1 else s.1) ≡ val_long r)
      × (init ≡ (2 * b + 1) * 2 ^ r)
unfolding Searched
last_digit init (x, r) (whole, some) = elim (Bool-cases (x % 2 == 0)) [
  | inl even ↦
      let split : x ≡ (2 * (x / 4) + 1) * 2 = ground arith in
      (
        r + 1,
        x / 4,
        rw (bit_and_mask 1 x, even) refl,
        whole
            ∙ omega (
              arith,
              ap (λ (t : ℕ). t * 2 ^ r) split,
              ap (λ (t : ℕ). (2 * (x / 4) + 1) * t) (two_pow_split 1 r),
            ),
      )
  | inr odd ↦
      let split : x ≡ 2 * (x / 2) + 1 = ground arith in
      (r, x / 2, rw (bit_and_mask 1 x, odd) refl, whole ∙ ap (λ (t : ℕ). t * 2 ^ r) split)
]

-- `tail0` of a number other than 0 is the number of zeros at its low end: the number is an odd one
-- times that power of 2. `tail0` of 0 is 63.
pub prim_int63_tail0-odd :
    (a : ℕ)
    → a < 2 ^ 63
    → (a ≢ 0
        → (r : ℕ) × (b : ℕ) × (prim_int63_tail0 (val_long a) ≡ val_long r)
          × (a ≡ (2 * b + 1) * 2 ^ r))
      × (a ≡ 0 → prim_int63_tail0 (val_long a) ≡ val_long 63)
unfolding prim_int63_tail0 Searched
prim_int63_tail0-odd a h = (λ ne. rw (untag a h) (last_digit a _ (found ne)), λ e. rw e refl)
  where
    start : a ≢ 0 → Searched a (2 ^ 64) (a, 0)
    start ne = (omega arith, ground arith)

    found :
        a ≢ 0
        → Searched a (2 ^ 2) (
            tail0_step (2 ^ 2 - 1) 2 (
              tail0_step (2 ^ 4 - 1) 4 (
                tail0_step
                  (2 ^ 8 - 1)
                  8
                  (tail0_step (2 ^ 16 - 1) 16 (tail0_step (2 ^ 32 - 1) 32 (a, 0))))))
    found ne =
        tail0_step-Searched a (2 ^ 4) 2 _ (λ x s z. omega arith)
          (tail0_step-Searched a (2 ^ 8) 4 _ (λ x s z. omega arith)
            (tail0_step-Searched a (2 ^ 16) 8 _ (λ x s z. omega arith)
              (tail0_step-Searched a (2 ^ 32) 16 _ (λ x s z. omega arith)
                (tail0_step-Searched a (2 ^ 64) 32 (a, 0) (λ x s z. omega arith) (start ne)))))
