-- ===== src/Gmp/Text/Laws.antt =====
-- The text that `z_to_string` makes is the decimal numeral of the integer.
use certirocq.Prelude.{
  ℕ, zero, suc, ◌+◌, ◌*◌, ◌/◌, ◌%◌, ◌^◌, ◌≤◌, ◌<◌, ◌≡◌, refl, ap, ◌∙◌, inl, inr, Bool-cases, true,
  false, arith, ltb, if◌then◌else◌, List, [], ◌∷◌, ◌++◌, some, length, get_or, ◌-◌, ◌==◌,
}
use certirocq.Prelude.Int.{ℤ, pos, negsuc, ◌-ℤ◌}
use certirocq.Values.{byte_at, is_long, long_val}
use certirocq.Gc.Types.{ThreadInfo, ok}
use certirocq.Strings.{prim_strlen, has_words_signed, mk_ocaml_string}
use certirocq.Strings.Laws.{AreBytes}
use certirocq.Strings.Build.{mk_ocaml_string-prim_strlen}
use certirocq.Gmp.Library.{Gmp}
use certirocq.Gmp.Arith.Laws.{number_of}
use certirocq.Gmp.Text.{TextLibrary, new_string_length, z_to_string}

-- The decimal digits of a number, in front of `rest`; each round takes one off, so that as many
-- rounds as the number itself are enough.
unfoldable pub digits : (fuel n : ℕ) → List ℕ → List ℕ
digits zero n rest = rest
digits (suc f) n rest =
    let more = digits f (n / 10) ((b'0' + n % 10) ∷ rest) in
    if ltb n 10 then (b'0' + n) ∷ rest else more

unfoldable pub decimal : ℤ → List ℕ
decimal (pos n) = digits (suc n) n []
decimal (negsuc n) = b'-' ∷ digits (suc (suc n)) (suc n) []

-- The number that digits stand for, read from the left behind `n`.
abbrev pub read_digits : ℕ → List ℕ → ℕ
read_digits n [] = n
read_digits n (b ∷ bs) = read_digits (n * 10 + (b - b'0')) bs

-- The integer that a numeral stands for.
abbrev pub read_decimal : List ℕ → ℤ
read_decimal [] = pos 0
read_decimal (b ∷ bs) =
    if b == b'-' then pos 0 -ℤ pos (read_digits 0 bs) else pos (read_digits 0 (b ∷ bs))

digits-read :
    (f n : ℕ) (rest : List ℕ) → n < f → read_digits 0 (digits f n rest) ≡ read_digits n rest
unfolding digits
digits-read zero n rest lt = absurd (omega arith)
digits-read (suc f) n rest lt = elim (Bool-cases (ltb n 10)) [
  | inl last ↦ rw last (ap (λ k. read_digits k rest) (omega arith))
  | inr more ↦
      let below : n / 10 < f = ground arith in
      rw more (
        digits-read f (n / 10) ((b'0' + n % 10) ∷ rest) below
        ∙ ap (λ k. read_digits k rest) (omega arith))
]

-- The first character is a digit.
digits-first :
    (f n : ℕ) (rest : List ℕ)
    → (b : ℕ) × (bs : List ℕ) × (digits (suc f) n rest ≡ b ∷ bs) × (b'0' ≤ b)
unfolding digits
digits-first zero n rest = elim (Bool-cases (ltb n 10)) [
  | inl last ↦ (b'0' + n, rest, rw last refl, omega arith)
  | inr more ↦ (b'0' + n % 10, rest, rw more refl, omega arith)
]
digits-first (suc f) n rest = elim (Bool-cases (ltb n 10)) [
  | inl last ↦ (b'0' + n, rest, rw last refl, omega arith)
  | inr more ↦
      let (b, bs, e, lo) = digits-first f (n / 10) ((b'0' + n % 10) ∷ rest) in
      (b, bs, rw more e, lo)
]

-- A numeral that starts with a digit is not negative.
read_decimal-digits :
    (l : List ℕ) (b : ℕ) (bs : List ℕ)
    → l ≡ b ∷ bs
    → b'0' ≤ b
    → read_decimal l ≡ pos (read_digits 0 l)
read_decimal-digits l b bs e lo =
    let sign : (b == b'-') ≡ false = ground arith in rw e (rw sign refl)

decimal-read : (z : ℤ) → read_decimal (decimal z) ≡ z
unfolding decimal ◌-ℤ◌
decimal-read (pos n) =
    let (b, bs, e, lo) = digits-first n n [] in
    read_decimal-digits _ b bs e lo ∙ ap pos (digits-read (suc n) n [] (omega arith))
decimal-read (negsuc n) =
    ap (λ k. pos 0 -ℤ pos k) (digits-read (suc (suc n)) (suc n) [] (omega arith)) ∙ ground arith

AreBytes-cons : (b : ℕ) (bs : List ℕ) → b < 256 → AreBytes bs → AreBytes (b ∷ bs)
AreBytes-cons b bs small smalls zero = small
AreBytes-cons b bs small smalls (suc i) = smalls i

digits-AreBytes : (f n : ℕ) (rest : List ℕ) → AreBytes rest → AreBytes (digits f n rest)
unfolding digits
digits-AreBytes zero n rest small = small
digits-AreBytes (suc f) n rest small = elim (Bool-cases (ltb n 10)) [
  | inl last ↦ rw last (AreBytes-cons (b'0' + n) rest (ground arith) small)
  | inr more ↦ rw more (
      digits-AreBytes f (n / 10) ((b'0' + n % 10) ∷ rest)
        (AreBytes-cons (b'0' + n % 10) rest (omega arith) small))
]

decimal-AreBytes : (z : ℤ) → AreBytes (decimal z)
unfolding decimal
decimal-AreBytes (pos n) = digits-AreBytes (suc n) n [] (λ i. omega arith)
decimal-AreBytes (negsuc n) =
    AreBytes-cons b'-' (digits (suc (suc n)) (suc n) []) (omega arith)
      (digits-AreBytes (suc (suc n)) (suc n) [] (λ i. omega arith))

-- `mpz_get_str` and "%li" give decimal numerals.
pub record IsDecimal {gmp : Gmp} (text : TextLibrary gmp) : Type 0 where
  pub get_str : (s : gmp.State) (x : ℕ) → text.mpz_get_str x s ≡ some (decimal (gmp.value_of s x))
  pub printf_li : (z : ℤ) → text.snprintf_li z ≡ decimal z

module _ (gmp : Gmp) (text : TextLibrary gmp) (malloc : ℕ → ℕ) where
  z_to_string-text :
      IsDecimal text
      → (x : ℕ) (s : gmp.State) (ti : ThreadInfo) (m m' : ℕ → ℕ) (r n : ℕ) (ti' : ThreadInfo)
      → mk_ocaml_string malloc (ti, m) (decimal (number_of gmp (s, (ti, m)) x)) ≡ ok (r, (ti', m'))
      → prim_strlen m' r ≡ pos n
      → z_to_string gmp text malloc x (s, (ti, m))
        ≡ ok (r, (s, (ti', m')), if is_long x then [] else new_string_length ++ decimal (pos n))
  unfolding z_to_string number_of
  z_to_string-text laws x s ti m m' r n ti' e len = elim (Bool-cases (is_long x)) [
    | inl long ↦
        let made : mk_ocaml_string malloc (ti, m) (decimal (long_val x)) ≡ ok (r, (ti', m')) =
          rw long at e in
        rw (long, laws.printf_li (long_val x), made) refl
    | inr block ↦
        let made : mk_ocaml_string malloc (ti, m) (decimal (gmp.value_of s (m x)))
            ≡ ok (r, (ti', m')) =
          rw block at e in
        rw (block, laws.get_str s (m x), made)
          (ap (λ t. ok (r, (s, (ti', m')), new_string_length ++ t))
            (laws.printf_li (prim_strlen m' r) ∙ ap decimal len))
  ]

  -- `z_to_string` makes the string of the decimal numeral of the integer, whether that is tagged or
  -- a number of GMP: the numeral reads back as the integer, `prim_strlen` reads the numeral's length
  -- from it and `Byte` its characters. For a number of GMP this length is printed as well.
  -- The numeral has less than 2^24 characters, and the string and its header fit in what is left of
  -- an aligned nursery.
  pub z_to_string-decimal :
      IsDecimal text
      → (x : ℕ) (s : gmp.State) (ti : ThreadInfo) (m : ℕ → ℕ)
      → let str = decimal (number_of gmp (s, (ti, m)) x) in
        length str < 2 ^ 24
        → ti.alloc % 8 ≡ 0
        → ti.alloc < 2 ^ 62
        → has_words_signed (length str / 8 + 2) ti ≡ true
        → (ti' : ThreadInfo) × (m' : ℕ → ℕ) × (z_to_string gmp text malloc x (s, (ti, m))
            ≡ ok (
              ti.alloc + 8,
              (s, (ti', m')),
              if is_long x then [] else new_string_length ++ decimal (pos (length str)),
            ))
          × (read_decimal str ≡ number_of gmp (s, (ti, m)) x)
          × (prim_strlen m' (ti.alloc + 8) ≡ pos (length str))
          × ((i : ℕ) → i < length str → byte_at m' (ti.alloc + 8 + i) ≡ get_or str i 0)
          × ((a : ℕ) → a < ti.alloc → m' a ≡ m a)
  z_to_string-decimal laws x s ti m short even low room =
      let (m', e, len, bytes, below) =
        mk_ocaml_string-prim_strlen malloc ti m _ (decimal-AreBytes (number_of gmp (s, (ti, m)) x))
          short even low room in
      (
        _,
        m',
        z_to_string-text laws x s ti m m' (ti.alloc + 8) _ _ e len,
        decimal-read _,
        len,
        bytes,
        below,
      )
