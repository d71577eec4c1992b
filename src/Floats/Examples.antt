-- ===== src/Floats/Examples.antt =====
-- The neighbours of -0, and its comparison with 0.
use certirocq.Prelude.{◌^◌, ◌≡◌, refl, true, false, ◌==◌, ◌||◌, ◌&&◌, arith, if◌then◌else◌}
use certirocq.Prelude.Int.{pos, ◌+ℤ◌, ◌-ℤ◌}
use certirocq.Values.{Memory}
use certirocq.Int63.{mk_bool}
use certirocq.Floats.{
  FloatUnit, infinity, negate, isnan, position, double_lt, next_up, next_down, prim_float_equal,
}
use certirocq.Floats.Next.{next_up-position}
use certirocq.Floats.Equal.{prim_float_equal-bits}

next_up-position_example :
    (double_lt (2 ^ 63) infinity ≡ true
      → (position (next_up (2 ^ 63)) ≡ position (2 ^ 63) +ℤ pos 1)
        × (isnan (next_up (2 ^ 63)) ≡ false))
    × (double_lt (2 ^ 63) infinity ≡ false → next_up (2 ^ 63) ≡ 2 ^ 63)
    × (double_lt (negate infinity) (2 ^ 63) ≡ true
        → (position (next_down (2 ^ 63)) ≡ position (2 ^ 63) -ℤ pos 1)
          × (isnan (next_down (2 ^ 63)) ≡ false))
    × (double_lt (negate infinity) (2 ^ 63) ≡ false → next_down (2 ^ 63) ≡ 2 ^ 63)
next_up-position_example = next_up-position (2 ^ 63) (omega arith)

-- A unit that divides 1 by the zeros as the standard says.
abbrev unit : FloatUnit
unit = record {
  add = λ x y. x;
  sub = λ x y. x;
  mul = λ x y. x;
  div = λ x y. if y == 2 ^ 63 then negate infinity else infinity;
  sqrt = λ x. x;
  of_long = λ z. 0;
  to_unsigned = λ x. x;
  frexp = λ x. (x, pos 0);
  ldexp = λ x n. x;
}

-- 0 at the address 0, -0 at the others.
abbrev memory : Memory
memory a = if a == 0 then 0 else 2 ^ 63

prim_float_equal-bits_example :
    prim_float_equal unit memory 0 8
    ≡ mk_bool ((memory 0 == memory 8) || (isnan (memory 0) && isnan (memory 8)))
prim_float_equal-bits_example =
    prim_float_equal-bits unit memory 0 8 (omega arith) (omega arith) refl refl
