-- ===== src/Gmp.antt =====
-- runtime/certirocq_gmp.c: integers of any size, as tagged words where they are small and as blocks
-- that hold a pointer to a number of the GMP library. The library is the parameter `gmp`.
pub mod Library
pub mod Arith
pub mod Compare
pub mod Allocate
pub mod Text
mod Examples
use certirocq.Prelude.{ℕ, bit_or, if◌then◌else◌}
use certirocq.Word.{◌<<<◌}
use certirocq.Values.{is_long, long_val}
use certirocq.Gc.Types.{Result, ok, ◌>>=◌, ◌>>◌}
use certirocq.Gc.Alloc.{World, reserve, put_one}
use certirocq.Gmp.Library.{Gmp}

-- `No_scan_tag | (1 << 10)`.
abbrev pub header_gmp : ℕ
header_gmp = bit_or 251 (1 <<< 10)

-- The numbers of the library with the thread and the memory.
abbrev pub Numbers : Gmp → Type 0
Numbers gmp = gmp.State × World

module _ (gmp : Gmp) (malloc : ℕ → ℕ) where
  -- `MPZ_val`.
  abbrev pub mpz_val : Numbers gmp → ℕ → ℕ
  mpz_val (s, (ti, m)) x = m x

  unfoldable pub mpz_of_value : ℕ → Numbers gmp → ℕ × Numbers gmp
  unfolding is_long long_val
  mpz_of_value x (s, w) =
      let (p, s') = gmp.malloc_mpz s in
      if is_long x then (p, (gmp.init_set_si p (long_val x) s', w)) else (mpz_val (s, w) x, (s, w))

  unfoldable pub mk_gmp_int : ℕ → Numbers gmp → Result (ℕ × Numbers gmp)
  unfolding reserve
  mk_gmp_int p (s, w) = do
    w' ← reserve malloc 2 w
    let (x, w'') = put_one header_gmp p w'
    ok (x, (s, w''))

  -- The body that the operations `gmp_*` of two numbers share, for the function `f` of the library:
  -- `res = malloc(...); mpz_init(res); f(res, x, y); return mk_gmp_int(tinfo, res);`
  unfoldable pub gmp_binary :
      (f : (res x y : ℕ) → gmp.State → gmp.State)
      → (x y : ℕ) → Numbers gmp
      → Result (ℕ × Numbers gmp)
  unfolding mk_gmp_int
  gmp_binary f x y (s, w) =
      let (res, s') = gmp.malloc_mpz s in mk_gmp_int res (f res x y (gmp.init res s'), w)

  -- That of the operations of one number.
  unfoldable pub gmp_unary :
      (f : (res x : ℕ) → gmp.State → gmp.State) → (x : ℕ) → Numbers gmp → Result (ℕ × Numbers gmp)
  unfolding mk_gmp_int
  gmp_unary f x (s, w) =
      let (res, s') = gmp.malloc_mpz s in mk_gmp_int res (f res x (gmp.init res s'), w)

  -- The arguments `mpz_of_value(x), mpz_of_value(y)` of a call, from left to right.
  unfoldable pub on_two :
      ((x y : ℕ) → Numbers gmp → Result (ℕ × Numbers gmp))
      → (x y : ℕ) → Numbers gmp
      → Result (ℕ × Numbers gmp)
  unfolding mpz_of_value
  on_two f x y n = let (p, n') = mpz_of_value x n in let (q, n'') = mpz_of_value y n' in f p q n''
