-- ===== src/Strings/Join/Examples.antt =====
-- Two short strings in memory, joined, cut and compared.
use certirocq.Prelude.{
  ℕ, ◌+◌, ◌-◌, ◌*◌, ◌^◌, ◌<◌, ◌≡◌, ◌≢◌, refl, [], ◌∷◌, inl, ◌==◌, arith, if◌then◌else◌,
}
use certirocq.Prelude.Int.{pos, ◌-ℤ◌}
use certirocq.Word.{of_signed}
use certirocq.Values.{Memory, byte_at, val_long, val_long_signed, wosize_hd}
use certirocq.Gc.Types.{ThreadInfo, ok}
use certirocq.Strings.Bytes.{byte}
use certirocq.Strings.{prim_strlen, prim_string_cat, prim_string_sub, prim_string_compare}
use certirocq.Strings.Join.{IsString, prim_string_cat-append, prim_string_sub-read_bytes}
use certirocq.Strings.Compare.{difference, SameBytes, DifferAt, prim_string_compare-SameBytes}
use certirocq.Strings.Examples.{thread}

-- "ab" stands at 104, "cde" at 208 and "ac" at 304, each in one word behind its header.
abbrev memory : Memory
memory a =
    if a == 96
    then 1276
    else if a == 104
    then 97 + 98 * 256 + 5 * 256 ^ 7
    else if a == 200
    then 1276
    else if a == 208
    then 99 + 100 * 256 + 101 * 256 ^ 2 + 4 * 256 ^ 7
    else if a == 296
    then 1276
    else if a == 304
    then 97 + 99 * 256 + 5 * 256 ^ 7
    else 0

first_strlen : prim_strlen memory 104 ≡ pos 2
unfolding prim_strlen byte ◌-ℤ◌ wosize_hd
first_strlen = refl

second_strlen : prim_strlen memory 208 ≡ pos 3
unfolding prim_strlen byte ◌-ℤ◌ wosize_hd
second_strlen = refl

prim_string_cat-append_example :
    (ti' : ThreadInfo) × (m' : Memory) × (prim_string_cat (λ _. 0) (thread, memory) 104 208
      ≡ ok (1000 + 8, (ti', m')))
    × IsString thread memory (97 ∷ 98 ∷ 99 ∷ 100 ∷ 101 ∷ []) ti' m'
prim_string_cat-append_example =
    prim_string_cat-append (λ _. 0) thread memory 104 208 2 3 first_strlen second_strlen
      (omega arith) refl (omega arith) refl (inl (omega arith)) (inl (omega arith))

-- From byte 1 on, 3 bytes: what follows the string up to the end of its word is read as well.
prim_string_sub-read_bytes_example :
    (ti' : ThreadInfo) × (m' : Memory) × (prim_string_sub
        (λ _. 0)
        (thread, memory)
        208
        (val_long 0)
        (val_long 1)
      ≡ ok (1000 + 8, (ti', m')))
    × IsString thread memory (100 ∷ 101 ∷ 0 ∷ []) ti' m'
prim_string_sub-read_bytes_example =
    prim_string_sub-read_bytes (λ _. 0) thread memory 208 0 1 (omega arith) (omega arith)
      (omega arith) refl (omega arith) refl (inl (omega arith))

third_strlen : prim_strlen memory 304 ≡ pos 2
unfolding prim_strlen byte ◌-ℤ◌ wosize_hd
third_strlen = refl

-- "ab" and "ac": the difference of the second bytes.
compared : prim_string_compare memory 104 304 ≡ 2 ^ 64 - 1
unfolding prim_string_compare byte ◌-ℤ◌ wosize_hd
compared = refl

prim_string_compare-SameBytes_example :
    (prim_string_compare memory 104 304 ≡ 0 → (◌≡◌ {A = ℕ} 2 2) × SameBytes memory 104 304 2)
    × (◌≡◌ {A = ℕ} 2 2 → SameBytes memory 104 304 2 → prim_string_compare memory 104 304 ≡ 0)
    × ((k : ℕ)
        → ◌≡◌ {A = ℕ} 2 2
        → k < 2
        → DifferAt memory 104 304 k
        → prim_string_compare memory 104 304
          ≡ of_signed (difference (byte_at memory (104 + k)) (byte_at memory (304 + k))))
    × (◌≢◌ {A = ℕ} 2 2 → prim_string_compare memory 104 304 ≡ val_long_signed (pos 2 -ℤ pos 2))
prim_string_compare-SameBytes_example =
    prim_string_compare-SameBytes memory 104 304 2 2 first_strlen third_strlen (omega arith)
      (omega arith)
