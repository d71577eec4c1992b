-- ===== src/Int63.antt =====
-- runtime/prim_int63.c: 63-bit integers as tagged words. Here are the operations that allocate
-- nothing; those that return a carry or a pair are in Int63/Carry and Int63/Pair.
pub mod Arith
pub mod Order
pub mod Leading
pub mod Zeros
pub mod Carry
pub mod Pair
mod Examples
use certirocq.Prelude.{
  ℕ, ◌+◌, ◌-◌, ◌*◌, ◌/◌, ◌%◌, ◌^◌, bit_and, bit_or, bit_xor, Bool, not, ◌==◌, ltb, if◌then◌else◌,
}
use certirocq.Prelude.Int.{ℤ, pos, pos_part, neg_part, ltb_ℤ, ◌-ℤ◌}
use certirocq.Word.{u64, ◌<<<◌, ◌>>>◌, sub64, slt}
use certirocq.Values.{val_long, val_long_signed, unsigned_long_val, long_val}

abbrev pub maxuint63 : ℕ
maxuint63 = 2 ^ 63 - 1

unfoldable pub prim_int63_add : ℕ → ℕ → ℕ
unfolding val_long unsigned_long_val
prim_int63_add x y = val_long (u64 (unsigned_long_val x + unsigned_long_val y))

unfoldable pub prim_int63_sub : ℕ → ℕ → ℕ
unfolding val_long unsigned_long_val
prim_int63_sub x y = val_long (sub64 (unsigned_long_val x) (unsigned_long_val y))

unfoldable pub prim_int63_mul : ℕ → ℕ → ℕ
unfolding val_long unsigned_long_val
prim_int63_mul x y = val_long (u64 (unsigned_long_val x * unsigned_long_val y))

unfoldable pub prim_int63_mod : ℕ → ℕ → ℕ
unfolding val_long unsigned_long_val
prim_int63_mod x y =
    if unsigned_long_val y == 0 then x else val_long (unsigned_long_val x % unsigned_long_val y)

unfoldable pub prim_int63_div : ℕ → ℕ → ℕ
unfolding val_long unsigned_long_val
prim_int63_div x y =
    if unsigned_long_val y == 0
    then val_long 0
    else val_long (unsigned_long_val x / unsigned_long_val y)

-- Tests of signed numbers.
abbrev pub eqb_ℤ : ℤ → ℤ → Bool
eqb_ℤ a b = pos_part a + neg_part b == pos_part b + neg_part a

abbrev pub leb_ℤ : ℤ → ℤ → Bool
leb_ℤ a b = not (ltb_ℤ b a)

-- C's signed division, towards 0.
unfoldable pub quot_ℤ : ℤ → ℤ → ℤ
unfolding ◌-ℤ◌
quot_ℤ a b =
    pos (pos_part a / pos_part b + neg_part a / neg_part b)
    -ℤ pos (pos_part a / neg_part b + neg_part a / pos_part b)

unfoldable pub prim_int63_mods : ℕ → ℕ → ℕ
unfolding val_long unsigned_long_val long_val
prim_int63_mods x y =
    if eqb_ℤ (long_val y) (pos 0) then x else val_long (unsigned_long_val x % unsigned_long_val y)

unfoldable pub prim_int63_divs : ℕ → ℕ → ℕ
unfolding val_long val_long_signed long_val quot_ℤ
prim_int63_divs x y =
    if eqb_ℤ (long_val y) (pos 0)
    then val_long 0
    else val_long_signed (quot_ℤ (long_val x) (long_val y))

unfoldable pub prim_int63_land : ℕ → ℕ → ℕ
unfolding val_long unsigned_long_val
prim_int63_land x y = val_long (bit_and (unsigned_long_val x) (unsigned_long_val y))

unfoldable pub prim_int63_lsl : ℕ → ℕ → ℕ
unfolding val_long unsigned_long_val
prim_int63_lsl x y =
    if ltb (unsigned_long_val y) 63
    then val_long (unsigned_long_val x <<< unsigned_long_val y)
    else val_long 0

unfoldable pub prim_int63_lsr : ℕ → ℕ → ℕ
unfolding val_long unsigned_long_val
prim_int63_lsr x y =
    if ltb (unsigned_long_val y) 63
    then val_long (unsigned_long_val x >>> unsigned_long_val y)
    else val_long 0

-- The signed `xr` holds an unsigned value of 63 bits, so that the shift brings in zeros.
unfoldable pub prim_int63_asr : ℕ → ℕ → ℕ
unfolding val_long unsigned_long_val
prim_int63_asr x y =
    if ltb (unsigned_long_val y) 63
    then val_long (unsigned_long_val x >>> unsigned_long_val y)
    else val_long 0

unfoldable pub prim_int63_lor : ℕ → ℕ → ℕ
unfolding val_long unsigned_long_val
prim_int63_lor x y = val_long (bit_or (unsigned_long_val x) (unsigned_long_val y))

unfoldable pub prim_int63_lxor : ℕ → ℕ → ℕ
unfolding val_long unsigned_long_val
prim_int63_lxor x y = val_long (bit_xor (unsigned_long_val x) (unsigned_long_val y))

-- The two constructors of `bool`, as tagged words.
unfoldable pub mk_bool : Bool → ℕ
mk_bool b = if b then 3 else 1

unfoldable pub prim_int63_eqb : ℕ → ℕ → ℕ
unfolding mk_bool unsigned_long_val
prim_int63_eqb x y = mk_bool (unsigned_long_val x == unsigned_long_val y)

-- `x <= y` and `x < y` on `value`, which is a signed type.
unfoldable pub prim_int63_leb : ℕ → ℕ → ℕ
unfolding mk_bool
prim_int63_leb x y = mk_bool (not (slt y x))

unfoldable pub prim_int63_lesb : ℕ → ℕ → ℕ
unfolding mk_bool long_val
prim_int63_lesb x y = mk_bool (leb_ℤ (long_val x) (long_val y))

unfoldable pub prim_int63_ltb : ℕ → ℕ → ℕ
unfolding mk_bool
prim_int63_ltb x y = mk_bool (slt x y)

unfoldable pub prim_int63_ltsb : ℕ → ℕ → ℕ
unfolding mk_bool long_val
prim_int63_ltsb x y = mk_bool (ltb_ℤ (long_val x) (long_val y))

-- The constructors of `comparison`: `Eq`, `Lt` and `Gt` are the words 1, 3 and 5.
unfoldable pub prim_int63_compare : ℕ → ℕ → ℕ
unfolding unsigned_long_val ◌-ℤ◌
prim_int63_compare x y =
    let result = pos (unsigned_long_val x) -ℤ pos (unsigned_long_val y) in
    if eqb_ℤ result (pos 0) then 1 else if ltb_ℤ result (pos 0) then 3 else 5

unfoldable pub prim_int63_compares : ℕ → ℕ → ℕ
unfolding long_val ◌-ℤ◌
prim_int63_compares x y =
    let result = long_val x -ℤ long_val y in
    if eqb_ℤ result (pos 0) then 1 else if ltb_ℤ result (pos 0) then 3 else 5

-- One step of the search of `prim_int63_head0`: `if ((x & mask) == 0) { x = (x << k) & max; r += k; }`
unfoldable pub head0_step : (mask k : ℕ) → ℕ × ℕ → ℕ × ℕ
head0_step mask k (x, r) =
    if bit_and x mask == 0 then (bit_and (x <<< k) maxuint63, r + k) else (x, r)

unfoldable pub prim_int63_head0 : ℕ → ℕ
unfolding head0_step val_long unsigned_long_val
prim_int63_head0 init =
    let x = unsigned_long_val init in
    let s0 : ℕ × ℕ = if bit_and x 0x7FFFFFFF00000000 == 0 then (x, 31) else (x >>> 31, 0) in
    let s1 = head0_step 0xFFFF0000 16 s0 in
    let s2 = head0_step 0xFF000000 8 s1 in
    let s3 = head0_step 0xF0000000 4 s2 in
    let s4 = head0_step 0xC0000000 2 s3 in
    let (x', r) = head0_step 0x80000000 1 s4 in
    val_long (if bit_and x' 0x80000000 == 0 then r + 1 else r)

-- One step of `prim_int63_tail0`.
unfoldable pub tail0_step : (mask k : ℕ) → ℕ × ℕ → ℕ × ℕ
tail0_step mask k (x, r) = if bit_and x mask == 0 then (x >>> k, r + k) else (x, r)

unfoldable pub prim_int63_tail0 : ℕ → ℕ
unfolding tail0_step val_long unsigned_long_val
prim_int63_tail0 init =
    let s1 = tail0_step 0xFFFFFFFF 32 (unsigned_long_val init, 0) in
    let s2 = tail0_step 0xFFFF 16 s1 in
    let s3 = tail0_step 0xFF 8 s2 in
    let s4 = tail0_step 0xF 4 s3 in
    let (x, r) = tail0_step 0x3 2 s4 in val_long (if bit_and x 0x1 == 0 then r + 1 else r)

-- The high `p` bits of `y` behind `x` shifted by `p`.
unfoldable pub prim_int63_addmuldiv : ℕ → ℕ → ℕ → ℕ
unfolding val_long unsigned_long_val
prim_int63_addmuldiv pp xp yp =
    let p = unsigned_long_val pp in
    let x = unsigned_long_val xp in
    let y = unsigned_long_val yp in
    if ltb 63 p
    then val_long 0
    else val_long (bit_or (bit_and (x <<< p) maxuint63) (y >>> (63 - p)))
