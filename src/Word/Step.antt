-- ===== src/Word/Step.antt =====
-- One binary digit of `&`, `|` and `^`: the native operations are defined by a recursion on
-- digits whose fuel is dropped here.
use Prim.Native.Nat.{digits, bitwise, bit_and-bitwise, bit_or-bitwise, bit_xor-bitwise, differ}
use certirocq.Prelude.{
  ℕ, zero, suc, ◌+◌, ◌*◌, ◌/◌, ◌%◌, ◌≤◌, ◌≡◌, refl, sym, ap, ◌∙◌, min, max, bit_and, bit_or,
  bit_xor, arith,
}

module _ (z : ℕ → ℕ) (f : ℕ → ℕ → ℕ) where
  -- Once the left operand has run out, fuel does not matter.
  run_out : (n b : ℕ) → digits z f n 0 b ≡ z b
  run_out zero b = refl
  run_out (suc n) b = refl

  -- Nor does it when there is enough of it.
  any_fuel : (a b : ℕ) (n m : ℕ) → a ≤ n → a ≤ m → digits z f n a b ≡ digits z f m a b
  any_fuel zero b n m le le' = run_out n b ∙ sym (run_out m b)
  any_fuel (suc a) b zero m le le' = absurd (omega arith)
  any_fuel (suc a) b (suc n) zero le le' = absurd (omega arith)
  any_fuel (suc a) b (suc n) (suc m) le le' =
      ap (λ high. high * 2 + f (suc a % 2) (b % 2))
        (any_fuel (suc a / 2) (b / 2) n m (omega arith) (omega arith))

  -- The lowest digit, for an operation that gives it as well when the left operand is 0.
  lowest_digit :
      ((b : ℕ) → z b ≡ z (b / 2) * 2 + f 0 (b % 2))
      → (a b : ℕ) → bitwise z f a b ≡ bitwise z f (a / 2) (b / 2) * 2 + f (a % 2) (b % 2)
  lowest_digit none zero b = none b
  lowest_digit none (suc a) b =
      ap (λ high. high * 2 + f (suc a % 2) (b % 2))
        (any_fuel (suc a / 2) (b / 2) a (suc a / 2) (omega arith) (omega arith))

pub bit_and_step : (a b : ℕ) → bit_and a b ≡ bit_and (a / 2) (b / 2) * 2 + min (a % 2) (b % 2)
bit_and_step a b = simp bit_and-bitwise (lowest_digit (λ _. 0) min (λ b. omega arith) a b)

pub bit_or_step : (a b : ℕ) → bit_or a b ≡ bit_or (a / 2) (b / 2) * 2 + max (a % 2) (b % 2)
bit_or_step a b = simp bit_or-bitwise (lowest_digit (λ y. y) max (λ b. omega arith) a b)

pub bit_xor_step : (a b : ℕ) → bit_xor a b ≡ bit_xor (a / 2) (b / 2) * 2 + differ (a % 2) (b % 2)
bit_xor_step a b = simp bit_xor-bitwise (lowest_digit (λ y. y) differ (λ b. omega arith) a b)

pub zero-bit_or : (b : ℕ) → bit_or 0 b ≡ b
zero-bit_or b = simp bit_or-bitwise (omega arith)

pub differ-zero : (a : ℕ) → differ a 0 ≡ a
differ-zero zero = refl
differ-zero (suc a) = refl
