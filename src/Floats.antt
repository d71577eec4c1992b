-- ===== src/Floats.antt =====
-- runtime/prim_floats.c: floating-point numbers, blocks of one word. A `double` is its bit pattern in
-- the binary64 format: the sign bit, the exponent and the mantissa. What rounds (arithmetic, roots,
-- conversions, `frexp` and `ldexp`) is a parameter; comparison, classification and the sign are read
-- off the bits.
pub mod Next
pub mod Equal
mod Examples
use certirocq.Prelude.{ℕ, ◌+◌, ◌-◌, ◌*◌, ◌%◌, ◌^◌, Bool, not, ◌&&◌, ◌==◌, leb, ltb, if◌then◌else◌}
use certirocq.Prelude.Int.{ℤ, pos, sub_ℕ, ltb_ℤ}
use certirocq.Word.{u64, of_signed, slt}
use certirocq.Values.{Memory, val_long, long_val}
use certirocq.Gc.Types.{Result, ok, ◌>>=◌}
use certirocq.Gc.Alloc.{World, reserve, put_one}
use certirocq.Int63.{eqb_ℤ, leb_ℤ, mk_bool}
use certirocq.Int63.Pair.{mk_pair}

-- `Double_block`.
abbrev pub double_block : ℕ
double_block = 1277

-- `INFINITY`: the exponent is all ones, the mantissa 0.
abbrev pub infinity : ℕ
infinity = 2047 * 2 ^ 52

-- `fabs`, `signbit`, and the unary minus.
abbrev pub fabs : ℕ → ℕ
fabs b = b % 2 ^ 63

abbrev pub signbit : ℕ → Bool
signbit b = leb (2 ^ 63) b

abbrev pub negate : ℕ → ℕ
negate b = u64 (b + 2 ^ 63)

abbrev pub isnan : ℕ → Bool
isnan b = ltb infinity (fabs b)

-- The position of a number in the order of all of them; both zeros have the position 0.
abbrev pub position : ℕ → ℤ
position b = if signbit b then sub_ℕ 0 (fabs b) else pos (fabs b)

-- The comparisons of C, which are false for a NaN.
abbrev pub double_lt : ℕ → ℕ → Bool
double_lt x y = not (isnan x) && (not (isnan y) && ltb_ℤ (position x) (position y))

abbrev pub double_le : ℕ → ℕ → Bool
double_le x y = not (isnan x) && (not (isnan y) && leb_ℤ (position x) (position y))

abbrev pub double_eq : ℕ → ℕ → Bool
double_eq x y = not (isnan x) && (not (isnan y) && eqb_ℤ (position x) (position y))

pub data FloatClass : Type 0 where
  fp_nan fp_infinite fp_zero fp_subnormal fp_normal : FloatClass

abbrev pub fpclassify : ℕ → FloatClass
fpclassify b =
    if isnan b
    then fp_nan
    else if fabs b == infinity
    then fp_infinite
    else if fabs b == 0
    then fp_zero
    else if ltb (fabs b) (2 ^ 52)
    then fp_subnormal
    else fp_normal

-- What the processor and the mathematical library compute.
pub record FloatUnit : Type 0 where
  pub add : ℕ → ℕ → ℕ
  pub sub : ℕ → ℕ → ℕ
  pub mul : ℕ → ℕ → ℕ
  pub div : ℕ → ℕ → ℕ
  pub sqrt : ℕ → ℕ
  pub of_long : ℤ → ℕ
  pub to_unsigned : ℕ → ℕ
  pub frexp : ℕ → ℕ × ℤ
  pub ldexp : ℕ → ℕ → ℕ

abbrev pub double_val : Memory → ℕ → ℕ
double_val m x = m x

-- The constructors of the comparison, at the addresses of the two blocks.
unfoldable pub prim_float_compare : ℕ → ℕ → ℕ
prim_float_compare x y = if slt x y then 3 else if slt y x then 5 else if x == y then 1 else 7

unfoldable pub prim_float_eqb : Memory → ℕ → ℕ → ℕ
unfolding mk_bool
prim_float_eqb m x y = mk_bool (double_eq (double_val m x) (double_val m y))

unfoldable pub prim_float_equal : FloatUnit → Memory → ℕ → ℕ → ℕ
unfolding mk_bool
prim_float_equal unit m x y =
    let xv = double_val m x in
    let yv = double_val m y in
    let one = 1023 * 2 ^ 52 in
    elim (fpclassify xv) [
      | fp_nan ↦ mk_bool (isnan yv)
      | fp_zero ↦ mk_bool (double_eq xv yv && double_eq (unit.div one xv) (unit.div one yv))
      | _ ↦ mk_bool (double_eq xv yv)
    ]

unfoldable pub prim_float_ltb : Memory → ℕ → ℕ → ℕ
unfolding mk_bool
prim_float_ltb m x y = mk_bool (double_lt (double_val m x) (double_val m y))

unfoldable pub prim_float_leb : Memory → ℕ → ℕ → ℕ
unfolding mk_bool
prim_float_leb m x y = mk_bool (double_le (double_val m x) (double_val m y))

unfoldable pub prim_float_normfr_mantissa : FloatUnit → Memory → ℕ → ℕ
unfolding val_long
prim_float_normfr_mantissa unit m x =
    let f = fabs (double_val m x) in
    if double_le (1022 * 2 ^ 52) f && double_lt f (1023 * 2 ^ 52)
    then val_long (unit.to_unsigned (unit.ldexp f 53))
    else val_long 0

unfoldable pub prim_float_classify : Memory → ℕ → ℕ
prim_float_classify m x =
    let xv = double_val m x in
    elim (fpclassify xv) [
      | fp_nan ↦ 17
      | fp_infinite ↦ if signbit xv then 15 else 13
      | fp_zero ↦ if signbit xv then 11 else 9
      | fp_subnormal ↦ if signbit xv then 7 else 5
      | fp_normal ↦ if signbit xv then 3 else 1
    ]

-- `++bits.u`, `--bits.u` and the tests of `int64_t i` are on the bit pattern.
unfoldable pub next_up : ℕ → ℕ
next_up x =
    if not (double_lt x infinity)
    then x
    else if not (signbit x)
    then u64 (x + 1)
    else if u64 (x + x) == 0
    then 1
    else u64 (x + 2 ^ 64 - 1)

unfoldable pub next_down : ℕ → ℕ
next_down x =
    if not (double_lt (negate infinity) x)
    then x
    else if x == 0
    then 2 ^ 63 + 1
    else if signbit x
    then u64 (x + 1)
    else u64 (x + 2 ^ 64 - 1)

module _ (unit : FloatUnit) (malloc : ℕ → ℕ) where
  unfoldable pub mk_float : World → ℕ → Result (ℕ × World)
  unfolding reserve
  mk_float w x = do w' ← reserve malloc 2 w; ok (put_one double_block x w')

  -- `mk_pair(tinfo, frac, Val_long(e + eshift))` for the two parts of a number.
  unfoldable pub float_parts : World → ℕ → Result (ℕ × World)
  unfolding mk_float mk_pair val_long
  float_parts w xv =
      let (fraction, e) = unit.frexp xv in
      mk_float w fraction >>= λ r. ok (mk_pair r.1 r.0 (val_long (u64 (of_signed e + 2101))))

  unfoldable pub prim_float_frshiftexp : World → ℕ → Result (ℕ × World)
  unfolding float_parts mk_pair val_long
  prim_float_frshiftexp w x =
      let xv = double_val w.1 x in
      elim (fpclassify xv) [
        | fp_normal ↦ float_parts w xv
        | fp_subnormal ↦ float_parts w xv
        | _ ↦ ok (mk_pair w x (val_long 0))
      ]

  -- The exponent `y` is not used.
  unfoldable pub prim_float_ldshiftexp : World → ℕ → (y : ℕ) → Result (ℕ × World)
  unfolding float_parts mk_pair val_long
  prim_float_ldshiftexp w x y =
      let xv = double_val w.1 x in
      elim (fpclassify xv) [
        | fp_normal ↦ float_parts w xv
        | fp_subnormal ↦ float_parts w xv
        | _ ↦ ok (mk_pair w x (val_long 0))
      ]

  unfoldable pub prim_float_abs : World → ℕ → Result (ℕ × World)
  unfolding mk_float
  prim_float_abs w x = mk_float w (fabs (double_val w.1 x))

  unfoldable pub prim_float_sqrt : World → ℕ → Result (ℕ × World)
  unfolding mk_float
  prim_float_sqrt w x = mk_float w (unit.sqrt (double_val w.1 x))

  unfoldable pub prim_float_opp : World → ℕ → Result (ℕ × World)
  unfolding mk_float
  prim_float_opp w x = mk_float w (negate (double_val w.1 x))

  unfoldable pub prim_float_div : World → (x y : ℕ) → Result (ℕ × World)
  unfolding mk_float
  prim_float_div w x y = mk_float w (unit.div (double_val w.1 x) (double_val w.1 y))

  unfoldable pub prim_float_mul : World → (x y : ℕ) → Result (ℕ × World)
  unfolding mk_float
  prim_float_mul w x y = mk_float w (unit.mul (double_val w.1 x) (double_val w.1 y))

  unfoldable pub prim_float_add : World → (x y : ℕ) → Result (ℕ × World)
  unfolding mk_float
  prim_float_add w x y = mk_float w (unit.add (double_val w.1 x) (double_val w.1 y))

  unfoldable pub prim_float_sub : World → (x y : ℕ) → Result (ℕ × World)
  unfolding mk_float
  prim_float_sub w x y = mk_float w (unit.sub (double_val w.1 x) (double_val w.1 y))

  unfoldable pub prim_float_of_uint63 : World → ℕ → Result (ℕ × World)
  unfolding mk_float long_val
  prim_float_of_uint63 w x = mk_float w (unit.of_long (long_val x))

  unfoldable pub prim_float_next_up : World → ℕ → Result (ℕ × World)
  unfolding mk_float next_up
  prim_float_next_up w x = mk_float w (next_up (double_val w.1 x))

  unfoldable pub prim_float_next_down : World → ℕ → Result (ℕ × World)
  unfolding mk_float next_down
  prim_float_next_down w x = mk_float w (next_down (double_val w.1 x))
