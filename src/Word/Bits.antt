-- ===== src/Word/Bits.antt =====
-- `&` with a mask and `|` of disjoint fields, read as arithmetic at every width.
use mathlib.Core.WellFounded
use Prim.Native.Nat.{differ}
use native.Mathlib.Nat.{pow-suc, one-le-pow}
use certirocq.Prelude.{
  ℕ, zero, suc, ◌+◌, ◌-◌, ◌*◌, ◌/◌, ◌%◌, ◌^◌, ◌≤◌, ◌<◌, ◌≡◌, refl, ap, ap₂, ◌∙◌, bit_and, bit_or,
  bit_xor, arith,
}
use certirocq.Prelude.Order.{lt_wf}
use certirocq.Word.Step.{bit_and_step, bit_or_step, zero-bit_or, bit_xor_step, differ-zero}

-- What `& 0` and `| 0` do, below a bound `k` on the other operand.
zero_masks : (k a : ℕ) → a ≤ k → (bit_and a 0 ≡ 0) × (bit_or a 0 ≡ a)
zero_masks k zero le = (refl, refl)
zero_masks zero (suc a) le = absurd (omega arith)
zero_masks (suc k) (suc a) le =
    let (no_bits, all_bits) = zero_masks k (suc a / 2) (omega arith) in
    (omega (arith, bit_and_step (suc a) 0), omega (arith, bit_or_step (suc a) 0))

bit_and-zero : (a : ℕ) → bit_and a 0 ≡ 0
bit_and-zero a = (zero_masks a a (omega arith)).0

bit_or-zero : (a : ℕ) → bit_or a 0 ≡ a
bit_or-zero a = (zero_masks a a (omega arith)).1

double-two_pow : (q k : ℕ) → q * 2 ^ suc k ≡ 2 * (q * 2 ^ k)
double-two_pow q k = omega (arith, ap (λ (t : ℕ). q * t) (pow-suc 2 k))

-- `|` of a value shifted by `k` and a value of `k` bits is their sum.
pub bit_or_fields : (k q r : ℕ) → r < 2 ^ k → bit_or (q * 2 ^ k) r ≡ q * 2 ^ k + r
bit_or_fields zero q r small = ground (arith, bit_or-zero q)
bit_or_fields (suc k) q r small =
    let higher = bit_or_fields k q (r / 2) (omega arith) in
    let lowest = bit_or_step (q * 2 ^ suc k) r in ground (arith, higher, lowest, double-two_pow q k)

-- Below `k` zero bits of the mask, `&` reads only the bits from `k` up.
pub bit_and_fields :
    (k q r m : ℕ) → r < 2 ^ k → bit_and (q * 2 ^ k + r) (m * 2 ^ k) ≡ bit_and q m * 2 ^ k
bit_and_fields zero q r m small = let none : r ≡ 0 = omega arith in rw none (ground arith)
bit_and_fields (suc k) q r m small = ground (
  arith,
  double-two_pow q k,
  double-two_pow m k,
  double-two_pow (bit_and q m) k,
  bit_and_step (q * 2 ^ suc k + r) (m * 2 ^ suc k),
  bit_and_fields k q (r / 2) m (omega arith),
)

bit_and_low : (k q r : ℕ) → r < 2 ^ k → bit_and (q * 2 ^ k + r) (2 ^ k - 1) ≡ r
bit_and_low zero q r small = rw bit_and-zero (omega arith)
bit_and_low (suc k) q r small =
    let higher = bit_and_low k q (r / 2) (omega arith) in
    let lowest = bit_and_step (q * 2 ^ suc k + r) (2 ^ suc k - 1) in
    ground (arith, higher, lowest, double-two_pow q k, pow-suc 2 k)

-- A mask of `k` low ones is the remainder by `2 ^ k`.
pub bit_and_mask : (k a : ℕ) → bit_and a (2 ^ k - 1) ≡ a % 2 ^ k
bit_and_mask k a =
    let split = bit_and_low k (a / 2 ^ k) (a % 2 ^ k) in ground (arith, split, one-le-pow k 2)

-- A mask of `j` ones above `k` zeros reads the field of `j` bits that starts at bit `k`.
pub bit_and_field : (j k a : ℕ) → bit_and a ((2 ^ j - 1) * 2 ^ k) ≡ a / 2 ^ k % 2 ^ j * 2 ^ k
bit_and_field j k a = ground (
  arith,
  one-le-pow k 2,
  bit_and_fields k (a / 2 ^ k) (a % 2 ^ k) (2 ^ j - 1),
  bit_and_mask j (a / 2 ^ k),
)

pub bit_or_comm : (a b : ℕ) → bit_or a b ≡ bit_or b a
bit_or_comm a b =
    WellFounded.induction lt_wf {C = λ n. (b : ℕ) → bit_or n b ≡ bit_or b n} a
      (λ n ih. swap_digit n ih) b
  where
    swap_digit :
        (n : ℕ)
        → ((m : ℕ) → m < n → (b : ℕ) → bit_or m b ≡ bit_or b m)
        → (b : ℕ) → bit_or n b ≡ bit_or b n
    swap_digit zero ih b = omega (arith, zero-bit_or b, bit_or-zero b)
    swap_digit (suc n) ih b =
        omega (
          arith,
          bit_or_step (suc n) b,
          bit_or_step b (suc n),
          ih (suc n / 2) (omega arith) (b / 2),
        )

-- `^` with the top bit of a number takes it away.
pub bit_xor_top : (k r : ℕ) → r < 2 ^ k → bit_xor (2 ^ k + r) (2 ^ k) ≡ r
bit_xor_top zero r small = let none : r ≡ 0 = omega arith in rw none refl
bit_xor_top (suc k) r small =
    let top : 2 ^ suc k ≡ 2 * 2 ^ k = pow-suc 2 k ∙ omega arith in
    let low : (2 ^ suc k + r) % 2 ≡ r % 2 = omega (arith, top) in
    let low' : 2 ^ suc k % 2 ≡ 0 = omega (arith, top) in
    let high : (2 ^ suc k + r) / 2 ≡ 2 ^ k + r / 2 = omega (arith, top) in
    let high' : 2 ^ suc k / 2 ≡ 2 ^ k = omega (arith, top) in
    let digit : differ ((2 ^ suc k + r) % 2) (2 ^ suc k % 2) ≡ r % 2 =
      ap₂ differ low low' ∙ differ-zero (r % 2) in
    let halves : bit_xor ((2 ^ suc k + r) / 2) (2 ^ suc k / 2) ≡ bit_xor (2 ^ k + r / 2) (2 ^ k) =
      ap₂ bit_xor high high' in
    omega (
      arith,
      digit,
      halves,
      bit_xor_step (2 ^ suc k + r) (2 ^ suc k),
      bit_xor_top k (r / 2) (omega (arith, top)),
    )
