-- ===== src/Ffi.antt =====
-- runtime/rocq_c_ffi.c and runtime/get_ordinal.c: how C code reads the values of the compiled
-- program. A string of the program is a chain of blocks of two fields, a character and the rest.
pub mod Laws
pub mod Messages
pub mod Callbacks
mod Examples
use certirocq.Prelude.{
  ℕ, zero, suc, ◌+◌, ◌*◌, ◌%◌, bit_and, true, false, List, [], ◌∷◌, ◌++◌, ◌==◌, if◌then◌else◌,
}
use certirocq.Word.{u64, ◌>>>◌}
use certirocq.Values.{Memory, is_block, val_long}
use certirocq.Gc.Types.{Result, ok, fail, out_of_fuel, null_buffer, ◌>>=◌, ◌>>◌}

-- The loop of `length_of_coq_string` from `ptr` on.
unfoldable pub count_from : (fuel : ℕ) → Memory → (len ptr : ℕ) → Result ℕ
unfolding is_block
count_from zero m len ptr = fail out_of_fuel
count_from (suc n) m len ptr = elim (is_block ptr) [
  | true ↦ count_from n m (u64 (len + 1)) (m (ptr + 8))
  | false ↦ ok len
]

unfoldable pub length_of_coq_string : (fuel : ℕ) → Memory → ℕ → Result ℕ
unfolding count_from
length_of_coq_string fuel m s = count_from fuel m 0 s

-- The loop of `string_of_coq_string`: the bytes that it writes from `str + len` on.
unfoldable pub write_from : (fuel : ℕ) → Memory → (ptr : ℕ) → Result (List ℕ)
unfolding is_block
write_from zero m ptr = fail out_of_fuel
write_from (suc n) m ptr = elim (is_block ptr) [
  | true ↦ write_from n m (m (ptr + 8)) >>= λ rest. ok ((m ptr >>> 1) % 256 ∷ rest)
  | false ↦ ok (0 ∷ [])
]

-- What has been written to the standard streams so far.
pub record Output : Type 0 where
  pub stdout : List ℕ
  pub stderr : List ℕ

-- "malloc of %lu bytes failed:", where `lu` is the text that the C library prints for the number.
abbrev pub malloc_failed : (lu : ℕ → List ℕ) → ℕ → List ℕ
malloc_failed lu size =
    (b'm' ∷ b'a' ∷ b'l' ∷ b'l' ∷ b'o' ∷ b'c' ∷ b' ' ∷ b'o' ∷ b'f' ∷ b' ' ∷ [])
    ++ lu size
    ++ (b' ' ∷ b'b' ∷ b'y' ∷ b't' ∷ b'e' ∷ b's' ∷ b' ' ∷ b'f' ∷ b'a' ∷ b'i' ∷ b'l' ∷ b'e' ∷ b'd'
        ∷ b':' ∷ [])

-- The size of the buffer, which is at `malloced`, and what is written to it. A failed allocation is
-- reported, and the first write to the buffer, of a character or of the final 0, stops the program.
unfoldable pub string_of_coq_string :
    (lu : ℕ → List ℕ) → (malloced fuel : ℕ) → Memory → ℕ → Output → Output × Result (ℕ × List ℕ)
unfolding length_of_coq_string write_from
string_of_coq_string lu malloced fuel m s out = elim (length_of_coq_string fuel m s) [
  | fail e ↦ (out, fail e)
  | ok len ↦
      let size = u64 (len + 1) in
      if malloced == 0
      then (record out { stderr = out.stderr ++ malloc_failed lu size }, fail null_buffer)
      else (out, write_from fuel m s >>= λ bytes. ok (size, bytes))
]

unfoldable pub get_unboxed_ordinal : ℕ → ℕ
unfolding val_long
get_unboxed_ordinal v = val_long v

-- The offset 2^64 - 1, in words, is -1.
unfoldable pub get_boxed_ordinal : Memory → ℕ → ℕ
get_boxed_ordinal m v = bit_and (m (u64 (v + 8 * 18446744073709551615))) 255
