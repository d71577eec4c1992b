-- ===== src/Gmp/Arith.antt =====
-- The arithmetic of runtime/certirocq_gmp.c: on tagged numbers while the result fits, else by GMP.
pub mod Laws
pub mod Unary
pub mod Examples
use certirocq.Prelude.{ℕ, ◌+◌, ◌-◌, ◌*◌, Bool, ◌&&◌, ◌==◌, if◌then◌else◌}
use certirocq.Prelude.Int.{ℤ, pos, ltb_ℤ, ◌+ℤ◌, ◌-ℤ◌, ◌*ℤ◌, neg_part, pos_part}
use certirocq.Values.{
  Memory, is_long, long_val, val_long, val_long_signed, unsigned_long_val, max_long, min_long,
}
use certirocq.Gc.Closure.{closure_call}
use certirocq.Gc.Types.{Result, ok, fail, division_by_zero, ◌>>=◌}
use certirocq.Int63.{eqb_ℤ, leb_ℤ, quot_ℤ}
use certirocq.Gmp.Library.{Gmp}
use certirocq.Gmp.{Numbers, mpz_val, mpz_of_value, mk_gmp_int, gmp_binary, gmp_unary, on_two}

-- Both arguments are tagged numbers.
abbrev pub both_long : ℕ → ℕ → Bool
both_long x y = is_long x && is_long y

-- `Min_long <= z && z <= Max_long`.
abbrev pub fits_long : ℤ → Bool
fits_long z = leb_ℤ min_long z && leb_ℤ z max_long

unfoldable pub z_zero : ℕ
unfolding val_long
z_zero = val_long 0

unfoldable pub z_one : ℕ
unfolding val_long
z_one = val_long 1

module _ (gmp : Gmp) (malloc : ℕ → ℕ) where
  -- `gmp_succ` and `gmp_pred`; the latter leaves the call of `mk_gmp_int` to its caller.
  unfoldable pub gmp_succ : ℕ → Numbers gmp → Result (ℕ × Numbers gmp)
  unfolding gmp_unary
  gmp_succ x n = gmp_unary gmp malloc (λ res x. gmp.mpz_add_ui res x 1) x n

  unfoldable pub gmp_pred : ℕ → Numbers gmp → ℕ × Numbers gmp
  gmp_pred x (s, w) =
      let (res, s') = gmp.malloc_mpz s in (res, (gmp.mpz_sub_ui res x 1 (gmp.init res s'), w))

  unfoldable pub z_succ : ℕ → Numbers gmp → Result (ℕ × Numbers gmp)
  unfolding gmp_succ mpz_of_value is_long long_val val_long_signed ◌+ℤ◌
  z_succ x n =
      let (p, n') = mpz_of_value gmp malloc x n in
      if is_long x
      then if ltb_ℤ (long_val x) max_long
        then ok (val_long_signed (long_val x +ℤ pos 1), n)
        else gmp_succ p n'
      else gmp_succ (mpz_val gmp malloc n x) n

  unfoldable pub z_pred : ℕ → Numbers gmp → Result (ℕ × Numbers gmp)
  unfolding gmp_pred mk_gmp_int mpz_of_value is_long long_val val_long_signed ◌-ℤ◌
  z_pred x n =
      let (p, n') = mpz_of_value gmp malloc x n in
      let (q, n'') = gmp_pred p n' in
      if is_long x && ltb_ℤ min_long (long_val x)
      then ok (val_long_signed (long_val x -ℤ pos 1), n)
      else mk_gmp_int gmp malloc q n''

  unfoldable pub z_is_zero : ℕ → Numbers gmp → Bool
  unfolding is_long long_val
  z_is_zero x (s, w) =
      if is_long x
      then eqb_ℤ (long_val x) (pos 0)
      else eqb_ℤ (gmp.mpz_cmp_ui (mpz_val gmp malloc (s, w) x) 0 s) (pos 0)

  unfoldable pub gmp_nat_pred : ℕ → Numbers gmp → ℕ × Numbers gmp
  unfolding gmp_pred
  gmp_nat_pred x (s, w) =
      if eqb_ℤ (gmp.mpz_cmp_ui x 0 s) (pos 0) then (x, (s, w)) else gmp_pred x (s, w)

  unfoldable pub z_nat_pred : ℕ → Numbers gmp → Result (ℕ × Numbers gmp)
  unfolding gmp_nat_pred mk_gmp_int is_long unsigned_long_val val_long
  z_nat_pred x n =
      let y = unsigned_long_val x in
      let (p, n') = gmp_nat_pred (mpz_val gmp malloc n x) n in
      if is_long x
      then if y == 0 then ok (x, n) else ok (val_long (y - 1), n)
      else mk_gmp_int gmp malloc p n'

  -- What a call of the code of a closure does is the compiler's.
  module _ (enter : (code env arg : ℕ) → Numbers gmp → Result (ℕ × Numbers gmp)) where
    abbrev pub memory : Numbers gmp → Memory
    memory n = n.1.1

    unfoldable pub z_nat_case :
        (discr zero_case succ_case : ℕ) → Numbers gmp → Result (ℕ × Numbers gmp)
    unfolding z_is_zero z_nat_pred closure_call
    z_nat_case discr zero_case succ_case n =
        if z_is_zero discr n
        then closure_call memory enter zero_case discr n
        else z_nat_pred discr n >>= λ r. closure_call memory enter succ_case r.0 r.1

    unfoldable pub z_nat_case_untyped_erasure :
        (dummy discr zero_case succ_case : ℕ) → Numbers gmp → Result (ℕ × Numbers gmp)
    unfolding z_is_zero z_nat_pred closure_call
    z_nat_case_untyped_erasure dummy discr zero_case succ_case n =
        if z_is_zero discr n
        then closure_call memory enter zero_case discr n
        else z_nat_pred discr n >>= λ r. closure_call memory enter succ_case r.0 r.1

  unfoldable pub gmp_abs : ℕ → Numbers gmp → Result (ℕ × Numbers gmp)
  unfolding gmp_unary
  gmp_abs x n = gmp_unary gmp malloc gmp.mpz_abs x n

  -- The smallest tagged number is read as a pointer.
  unfoldable pub z_abs : ℕ → Numbers gmp → Result (ℕ × Numbers gmp)
  unfolding gmp_abs is_long long_val val_long_signed
  z_abs x n =
      if is_long x && ltb_ℤ min_long (long_val x)
      then ok (val_long_signed (pos (pos_part (long_val x) + neg_part (long_val x))), n)
      else gmp_abs (mpz_val gmp malloc n x) n

  unfoldable pub gmp_neg : ℕ → Numbers gmp → Result (ℕ × Numbers gmp)
  unfolding gmp_unary
  gmp_neg x n = gmp_unary gmp malloc gmp.mpz_neg x n

  unfoldable pub z_neg : ℕ → Numbers gmp → Result (ℕ × Numbers gmp)
  unfolding gmp_neg mpz_of_value is_long long_val val_long_signed ◌-ℤ◌
  z_neg x n =
      let (res, n') = mpz_of_value gmp malloc x n in
      if is_long x
      then if ltb_ℤ (long_val x) max_long
        then ok (val_long_signed (pos 0 -ℤ long_val x), n)
        else gmp_neg res n'
      else gmp_neg (mpz_val gmp malloc n x) n

  unfoldable pub gmp_add : (x y : ℕ) → Numbers gmp → Result (ℕ × Numbers gmp)
  unfolding gmp_binary
  gmp_add x y n = gmp_binary gmp malloc gmp.mpz_add x y n

  unfoldable pub z_add : (x y : ℕ) → Numbers gmp → Result (ℕ × Numbers gmp)
  unfolding gmp_add on_two is_long long_val val_long_signed ◌+ℤ◌
  z_add x y n =
      let z = long_val x +ℤ long_val y in
      if both_long x y && fits_long z
      then ok (val_long_signed z, n)
      else on_two gmp malloc gmp_add x y n

  unfoldable pub gmp_sub : (x y : ℕ) → Numbers gmp → Result (ℕ × Numbers gmp)
  unfolding gmp_binary
  gmp_sub x y n = gmp_binary gmp malloc gmp.mpz_sub x y n

  unfoldable pub z_sub : (x y : ℕ) → Numbers gmp → Result (ℕ × Numbers gmp)
  unfolding gmp_sub on_two is_long long_val val_long_signed ◌-ℤ◌
  z_sub x y n =
      let z = long_val x -ℤ long_val y in
      if both_long x y && fits_long z
      then ok (val_long_signed z, n)
      else on_two gmp malloc gmp_sub x y n

  unfoldable pub gmp_mul : (x y : ℕ) → Numbers gmp → Result (ℕ × Numbers gmp)
  unfolding gmp_binary
  gmp_mul x y n = gmp_binary gmp malloc gmp.mpz_mul x y n

  unfoldable pub z_mul : (x y : ℕ) → Numbers gmp → Result (ℕ × Numbers gmp)
  unfolding gmp_mul on_two
  z_mul x y n = on_two gmp malloc gmp_mul x y n

  unfoldable pub gmp_div : (x y : ℕ) → Numbers gmp → Result (ℕ × Numbers gmp)
  unfolding gmp_binary
  gmp_div x y n = gmp_binary gmp malloc gmp.mpz_tdiv_q x y n

  -- C's division by 0 stops the program.
  unfoldable pub z_div : (x y : ℕ) → Numbers gmp → Result (ℕ × Numbers gmp)
  unfolding gmp_div on_two is_long long_val val_long_signed quot_ℤ
  z_div x y n =
      if both_long x y
      then if eqb_ℤ (long_val y) (pos 0)
        then fail division_by_zero
        else ok (val_long_signed (quot_ℤ (long_val x) (long_val y)), n)
      else on_two gmp malloc gmp_div x y n

  unfoldable pub gmp_rem : (x y : ℕ) → Numbers gmp → Result (ℕ × Numbers gmp)
  unfolding gmp_binary
  gmp_rem x y n = gmp_binary gmp malloc gmp.mpz_tdiv_r x y n

  unfoldable pub z_rem : (x y : ℕ) → Numbers gmp → Result (ℕ × Numbers gmp)
  unfolding gmp_rem on_two is_long long_val val_long_signed quot_ℤ ◌-ℤ◌ ◌*ℤ◌
  z_rem x y n =
      let a = long_val x in
      let b = long_val y in
      if both_long x y
      then if eqb_ℤ b (pos 0)
        then fail division_by_zero
        else ok (val_long_signed (a -ℤ quot_ℤ a b *ℤ b), n)
      else on_two gmp malloc gmp_rem x y n

  unfoldable pub gmp_pow : (x y : ℕ) → Numbers gmp → Result (ℕ × Numbers gmp)
  unfolding gmp_binary
  gmp_pow x y n =
      gmp_binary gmp malloc (λ res x y s. gmp.mpz_pow_ui res x (gmp.mpz_get_ui y s) s) x y n

  unfoldable pub z_pow : (x y : ℕ) → Numbers gmp → Result (ℕ × Numbers gmp)
  unfolding gmp_pow on_two
  z_pow x y n = on_two gmp malloc gmp_pow x y n
