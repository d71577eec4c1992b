-- ===== src/Gmp/Text/Examples.antt =====
-- The text of the number -5 of the small library, made by the reference numeral.
use certirocq.Prelude.{
  ℕ, ◌+◌, ◌<◌, ◌≡◌, refl, arith, some, length, get_or, [], ◌∷◌, ◌++◌, if◌then◌else◌,
}
use certirocq.Prelude.Int.{pos}
use certirocq.Values.{byte_at, is_long}
use certirocq.Gc.Types.{ThreadInfo, ok}
use certirocq.Strings.{prim_strlen}
use certirocq.Gmp.Arith.Examples.{table, assign, malloc, numbers}
use certirocq.Gmp.Arith.Laws.{number_of}
use certirocq.Gmp.Text.{TextLibrary, new_string_length, z_to_string}
use certirocq.Gmp.Text.Laws.{digits, decimal, read_decimal, IsDecimal, z_to_string-decimal}

abbrev decimal_text : TextLibrary table
decimal_text = record {
  mpz_get_str = λ x s. some (decimal (s.1 x));
  snprintf_li = decimal;
  mpz_set_str = λ res str s. (0, assign res (read_decimal str) s);
}

decimal_text-IsDecimal : IsDecimal decimal_text
decimal_text-IsDecimal = record { get_str = λ s x. refl; printf_li = λ z. refl }

minus_five : decimal (number_of table numbers 104) ≡ b'-' ∷ b'5' ∷ []
unfolding decimal number_of is_long digits
minus_five = refl

z_to_string-decimal_example :
    (ti' : ThreadInfo) × (m' : ℕ → ℕ) × (z_to_string table decimal_text malloc 104 numbers
      ≡ ok (
        1008,
        (numbers.0, (ti', m')),
        if is_long 104
            then []
            else new_string_length
              ++ decimal (pos (length (decimal (number_of table numbers 104)))),
      ))
    × (read_decimal (decimal (number_of table numbers 104)) ≡ number_of table numbers 104)
    × (prim_strlen m' 1008 ≡ pos (length (decimal (number_of table numbers 104))))
    × ((i : ℕ)
        → i < length (decimal (number_of table numbers 104))
        → byte_at m' (1008 + i) ≡ get_or (decimal (number_of table numbers 104)) i 0)
    × ((a : ℕ) → a < 1000 → m' a ≡ numbers.1.1 a)
z_to_string-decimal_example =
    z_to_string-decimal table decimal_text malloc decimal_text-IsDecimal 104 numbers.0 numbers.1.0
      numbers.1.1 (rw minus_five (omega arith)) refl (omega arith) (rw minus_five refl)
