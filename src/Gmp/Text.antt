-- ===== src/Gmp/Text.antt =====
-- runtime/certirocq_gmp.c: integers as decimal text. The text comes from GMP and from `snprintf`.
pub mod Laws
mod Examples
use certirocq.Prelude.{
  ℕ, zero, suc, ◌+◌, ◌==◌, not, if◌then◌else◌, List, [], ◌∷◌, ◌++◌, Option, none, some,
}
use certirocq.Prelude.Int.{ℤ, pos_part}
use certirocq.Values.{Memory, byte_at, is_long, long_val}
use certirocq.Word.{u64}
use certirocq.Gc.Types.{Result, ok, fail, exit_status, assertion, check, ◌>>=◌, ◌>>◌}
use certirocq.Strings.Bytes.{c_string}
use certirocq.Strings.{prim_strlen, mk_ocaml_string}
use certirocq.Gmp.Library.{Gmp}
use certirocq.Gmp.{Numbers, mpz_val, mk_gmp_int}

-- `mpz_get_str(NULL, 10, x)`, `none` for NULL; `snprintf` with "%li"; `mpz_set_str(res, text, 10)`
-- with its result.
pub record TextLibrary (gmp : Gmp) : Type 0 where
  pub mpz_get_str : (x : ℕ) → gmp.State → Option (List ℕ)
  pub snprintf_li : ℤ → List ℕ
  pub mpz_set_str : (res : ℕ) → List ℕ → gmp.State → ℕ × gmp.State

-- "new string length: ".
abbrev pub new_string_length : List ℕ
new_string_length =
    b'n' ∷ b'e' ∷ b'w' ∷ b' ' ∷ b's' ∷ b't' ∷ b'r' ∷ b'i' ∷ b'n' ∷ b'g' ∷ b' ' ∷ b'l' ∷ b'e' ∷ b'n'
    ∷ b'g' ∷ b't' ∷ b'h' ∷ b':' ∷ b' ' ∷ []

module _ (gmp : Gmp) (text : TextLibrary gmp) (malloc : ℕ → ℕ) where
  -- The argument is a pointer to a number already and is read once more.
  unfoldable pub print_mpz : ℕ → Numbers gmp → Option (List ℕ)
  print_mpz x (s, w) = text.mpz_get_str (mpz_val gmp malloc (s, w) x) s

  unfoldable pub print_gmp_int : ℕ → Numbers gmp → Result (List ℕ)
  unfolding is_long long_val
  print_gmp_int x (s, w) =
      if is_long x
      then ok (text.snprintf_li (long_val x))
      else elim (text.mpz_get_str (mpz_val gmp malloc (s, w) x) s) [
        | none ↦ fail (exit_status 1)
        | some str ↦ ok str
      ]

  -- With what is printed on the way.
  unfoldable pub z_to_string : ℕ → Numbers gmp → Result (ℕ × Numbers gmp × List ℕ)
  unfolding prim_strlen
  z_to_string x (s, w) =
      if is_long x
      then (do
        (r, w') ← mk_ocaml_string malloc w (text.snprintf_li (long_val x))
        ok (r, (s, w'), []))
      else elim (text.mpz_get_str (mpz_val gmp malloc (s, w) x) s) [
        | none ↦ fail (exit_status 1)
        | some str ↦ do
          (pstr, (ti, m)) ← mk_ocaml_string malloc w str
          ok (pstr, (s, (ti, m)), new_string_length ++ text.snprintf_li (prim_strlen m pstr))
      ]

  -- The loop `cp[i] = Byte (x, i)`.
  unfoldable pub bytes_from : ℕ → Memory → (x i : ℕ) → List ℕ
  bytes_from zero m x i = []
  bytes_from (suc n) m x i = byte_at m (u64 (x + i)) ∷ bytes_from n m x (i + 1)

  -- `res` is memory that `malloc` has just given out, on which `mpz_init` is not called, and `cp`
  -- what it returns for the copy of the bytes.
  unfoldable pub z_of_string : (cp : ℕ) → ℕ → Numbers gmp → Result (ℕ × Numbers gmp)
  unfolding prim_strlen bytes_from c_string mk_gmp_int
  z_of_string cp x (s, (ti, m)) = do
    check (not (cp == 0)) assertion
    let (res, s') = gmp.malloc_mpz s
    let len = pos_part (prim_strlen m x)
    let (code, s'') = text.mpz_set_str res (c_string (bytes_from len m x 0)) s'
    if code == 0 then mk_gmp_int gmp malloc res (s'', (ti, m)) else fail (exit_status code)

-- `gmp_of_int` and `z_of_int`.
abbrev pub gmp_of_int : ℕ → ℕ
gmp_of_int x = x

abbrev pub z_of_int : ℕ → ℕ
z_of_int x = x
