-- ===== src/Gmp/Compare.antt =====
-- The bitwise operations and the comparisons of runtime/certirocq_gmp.c.
pub mod Order
use certirocq.Prelude.{ℕ, bit_and, bit_or, bit_xor, ◌==◌, if◌then◌else◌}
use certirocq.Prelude.Int.{ℤ, pos, negsuc, ltb_ℤ, ◌-ℤ◌}
use certirocq.Word.{of_signed, slt}
use certirocq.Values.{is_long, long_val, val_long, val_long_signed}
use certirocq.Gc.Types.{Result, ok}
use certirocq.Int63.{eqb_ℤ, leb_ℤ, mk_bool, prim_int63_compares, prim_int63_lesb, prim_int63_ltsb}
use certirocq.Gmp.Library.{Gmp}
use certirocq.Gmp.{Numbers, mpz_of_value, gmp_binary, gmp_unary, on_two}
use certirocq.Gmp.Arith.{both_long}

module _ (gmp : Gmp) (malloc : ℕ → ℕ) where
  unfoldable pub gmp_logand : (x y : ℕ) → Numbers gmp → Result (ℕ × Numbers gmp)
  unfolding gmp_binary
  gmp_logand x y n = gmp_binary gmp malloc gmp.mpz_and x y n

  unfoldable pub z_logand : (x y : ℕ) → Numbers gmp → Result (ℕ × Numbers gmp)
  unfolding gmp_logand on_two is_long long_val val_long
  z_logand x y n =
      if both_long x y
      then ok (val_long (bit_and (of_signed (long_val x)) (of_signed (long_val y))), n)
      else on_two gmp malloc gmp_logand x y n

  unfoldable pub gmp_logor : (x y : ℕ) → Numbers gmp → Result (ℕ × Numbers gmp)
  unfolding gmp_binary
  gmp_logor x y n = gmp_binary gmp malloc gmp.mpz_ior x y n

  unfoldable pub z_logor : (x y : ℕ) → Numbers gmp → Result (ℕ × Numbers gmp)
  unfolding gmp_logor on_two is_long long_val val_long
  z_logor x y n =
      if both_long x y
      then ok (val_long (bit_or (of_signed (long_val x)) (of_signed (long_val y))), n)
      else on_two gmp malloc gmp_logor x y n

  unfoldable pub gmp_logxor : (x y : ℕ) → Numbers gmp → Result (ℕ × Numbers gmp)
  unfolding gmp_binary
  gmp_logxor x y n = gmp_binary gmp malloc gmp.mpz_xor x y n

  unfoldable pub z_logxor : (x y : ℕ) → Numbers gmp → Result (ℕ × Numbers gmp)
  unfolding gmp_logxor on_two is_long long_val val_long
  z_logxor x y n =
      if both_long x y
      then ok (val_long (bit_xor (of_signed (long_val x)) (of_signed (long_val y))), n)
      else on_two gmp malloc gmp_logxor x y n

  unfoldable pub gmp_lognot : ℕ → Numbers gmp → Result (ℕ × Numbers gmp)
  unfolding gmp_unary
  gmp_lognot x n = gmp_unary gmp malloc gmp.mpz_com x n

  -- `~y` is `- y - 1`.
  unfoldable pub z_lognot : ℕ → Numbers gmp → Result (ℕ × Numbers gmp)
  unfolding gmp_lognot mpz_of_value is_long long_val val_long_signed ◌-ℤ◌
  z_lognot x n =
      let (p, n') = mpz_of_value gmp malloc x n in
      if is_long x then ok (val_long_signed (negsuc 0 -ℤ long_val x), n) else gmp_lognot p n'

  -- The comparison of two numbers in the library.
  unfoldable pub compare_mpz : (x y : ℕ) → Numbers gmp → ℤ × Numbers gmp
  unfolding mpz_of_value
  compare_mpz x y n =
      let (p, n') = mpz_of_value gmp malloc x n in
      let (q, (s, w)) = mpz_of_value gmp malloc y n' in (gmp.mpz_cmp p q s, (s, w))

  -- The operations `gmp_compare`, `gmp_equal`, `gmp_leq`, ... are written out in their callers.
  unfoldable pub z_compare : (x y : ℕ) → Numbers gmp → ℕ × Numbers gmp
  unfolding compare_mpz is_long val_long_signed prim_int63_compares
  z_compare x y n =
      let (cmp, n') = compare_mpz x y n in
      if both_long x y then (prim_int63_compares x y, n) else (val_long_signed cmp, n')

  unfoldable pub z_equal : (x y : ℕ) → Numbers gmp → ℕ × Numbers gmp
  unfolding compare_mpz is_long mk_bool
  z_equal x y n =
      let (cmp, n') = compare_mpz x y n in
      if both_long x y then (mk_bool (x == y), n) else (mk_bool (eqb_ℤ cmp (pos 0)), n')

  unfoldable pub z_leq : (x y : ℕ) → Numbers gmp → ℕ × Numbers gmp
  unfolding compare_mpz is_long mk_bool prim_int63_lesb
  z_leq x y n =
      let (cmp, n') = compare_mpz x y n in
      if both_long x y then (prim_int63_lesb x y, n) else (mk_bool (leb_ℤ cmp (pos 0)), n')

  unfoldable pub z_geq : (x y : ℕ) → Numbers gmp → ℕ × Numbers gmp
  unfolding compare_mpz is_long mk_bool prim_int63_lesb
  z_geq x y n =
      let (cmp, n') = compare_mpz x y n in
      if both_long x y then (prim_int63_lesb y x, n) else (mk_bool (leb_ℤ (pos 0) cmp), n')

  unfoldable pub z_gt : (x y : ℕ) → Numbers gmp → ℕ × Numbers gmp
  unfolding compare_mpz is_long mk_bool prim_int63_ltsb
  z_gt x y n =
      let (cmp, n') = compare_mpz x y n in
      if both_long x y then (prim_int63_ltsb y x, n) else (mk_bool (ltb_ℤ (pos 0) cmp), n')

  -- The tagged words are compared as signed.
  unfoldable pub z_lt : (x y : ℕ) → Numbers gmp → ℕ × Numbers gmp
  unfolding compare_mpz is_long mk_bool
  z_lt x y n =
      let (cmp, n') = compare_mpz x y n in
      if both_long x y then (mk_bool (slt x y), n) else (mk_bool (ltb_ℤ cmp (pos 0)), n')

  unfoldable pub z_max : (x y : ℕ) → Numbers gmp → ℕ × Numbers gmp
  unfolding compare_mpz is_long long_val
  z_max x y n =
      let (cmp, n') = compare_mpz x y n in
      if both_long x y
      then (if ltb_ℤ (long_val y) (long_val x) then x else y, n)
      else (if ltb_ℤ (pos 0) cmp then x else y, n')

  unfoldable pub z_min : (x y : ℕ) → Numbers gmp → ℕ × Numbers gmp
  unfolding compare_mpz is_long long_val
  z_min x y n =
      let (cmp, n') = compare_mpz x y n in
      if both_long x y
      then (if ltb_ℤ (long_val x) (long_val y) then x else y, n)
      else (if ltb_ℤ cmp (pos 0) then x else y, n')
