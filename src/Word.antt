-- ===== src/Word.antt =====
-- Machine words of the 64-bit target (runtime/m.h: SIZEOF_PTR 8): a C `long`, `unsigned long
-- long` or pointer is its bit pattern, a number below 2^64. Wrap-around and shifts are written out.
mod Bits
mod Step
pub use Bits.*
use certirocq.Prelude.{ℕ, ◌+◌, ◌-◌, ◌*◌, ◌/◌, ◌%◌, ◌^◌, Bool, ltb, if◌then◌else◌}
use certirocq.Prelude.Int.{ℤ, pos, negsuc}

-- The cast to `unsigned long long`.
abbrev pub u64 : ℕ → ℕ
u64 n = n % 2 ^ 64

-- `x << k` and `x >> k` on `unsigned long long`.
infixl 75 ◌<<<◌ ◌>>>◌
abbrev pub ◌<<<◌ : ℕ → ℕ → ℕ
x <<< k = u64 (x * 2 ^ k)

abbrev pub ◌>>>◌ : ℕ → ℕ → ℕ
x >>> k = x / 2 ^ k

-- Unsigned `x - y`, for words.
abbrev pub sub64 : ℕ → ℕ → ℕ
sub64 x y = u64 (x + 2 ^ 64 - y)

-- The number that a bit pattern stands for as a signed `long`.
abbrev pub signed64 : ℕ → ℤ
signed64 w = if ltb w (2 ^ 63) then pos w else negsuc (2 ^ 64 - w - 1)

-- The bit pattern of a signed number, reduced to 64 bits.
abbrev pub of_signed : ℤ → ℕ
of_signed (pos n) = u64 n
of_signed (negsuc n) = 2 ^ 64 - 1 - u64 n

-- Signed comparison of bit patterns: flipping the sign bit orders them as unsigned.
abbrev pub flip_sign : ℕ → ℕ
flip_sign w = (w + 2 ^ 63) % 2 ^ 64

abbrev pub slt : ℕ → ℕ → Bool
slt x y = ltb (flip_sign x) (flip_sign y)
