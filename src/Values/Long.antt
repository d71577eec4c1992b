-- ===== src/Values/Long.antt =====
-- Tagged integers: the conversions between words and numbers of 63 bits.
use certirocq.Prelude.{ℕ, ◌+◌, ◌*◌, ◌%◌, ◌^◌, ◌≡◌, true, arith}
use certirocq.Prelude.Int.{ℤ, pos, negsuc, ◌≤ℤ◌}
use certirocq.Word.{bit_and_mask}
use certirocq.Values.{
  is_long, val_long, unsigned_long_val, long_val, val_long_signed, max_long, min_long,
}

-- Tagging keeps the low 63 bits.
pub val_long-eq : (x : ℕ) → val_long x ≡ 2 * (x % 2 ^ 63) + 1
unfolding val_long
val_long-eq x = omega arith

pub unsigned_long_val-val_long : (x : ℕ) → unsigned_long_val (val_long x) ≡ x % 2 ^ 63
unfolding unsigned_long_val
unsigned_long_val-val_long x = omega (arith, val_long-eq x)

pub is_long-val_long : (x : ℕ) → is_long (val_long x) ≡ true
unfolding is_long
is_long-val_long x = ground (arith, val_long-eq x, bit_and_mask 1 (val_long x))

-- Signed numbers of 63 bits survive tagging.
pub long_val-val_long_signed :
    (z : ℤ) → min_long ≤ℤ z → z ≤ℤ max_long → long_val (val_long_signed z) ≡ z
unfolding long_val val_long_signed val_long
long_val-val_long_signed (pos n) lo hi = ground arith
long_val-val_long_signed (negsuc n) lo hi = ground arith
