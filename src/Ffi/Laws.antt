-- ===== src/Ffi/Laws.antt =====
-- What the loops over the strings of the program return.
use certirocq.Prelude.{
  ℕ, zero, suc, ◌+◌, ◌%◌, ◌^◌, ◌<◌, ◌≡◌, ◌≢◌, ◌==◌, refl, ap, ◌∙◌, true, false, arith, List, [],
  ◌∷◌, ◌++◌, map, length, length-append,
}
use certirocq.Word.{u64, ◌>>>◌}
use certirocq.Values.{Memory, is_block}
use certirocq.Gc.Types.{ok, fail, null_buffer}
use certirocq.Ffi.{
  count_from, length_of_coq_string, write_from, Output, malloc_failed, string_of_coq_string,
}

-- The value `p` is a string of the program, of the characters `cs`.
pub data CoqString (m : Memory) : ℕ → List ℕ → Type 0 where
  empty : (p : ℕ) → is_block p ≡ false → CoqString m p []
  character :
      (p : ℕ) (cs : List ℕ)
      → is_block p ≡ true
      → CoqString m (m (p + 8)) cs
      → CoqString m p (m p ∷ cs)

-- The `char` of a character, whose bits are a tagged number.
abbrev pub char_of : ℕ → ℕ
char_of c = (c >>> 1) % 256

count_from-CoqString :
    (m : Memory) (n len : ℕ) {p : ℕ} {cs : List ℕ}
    → CoqString m p cs
    → length cs < n
    → len + length cs < 2 ^ 64
    → count_from n m len p ≡ ok (len + length cs)
unfolding count_from
count_from-CoqString m zero len s lt small = absurd (omega arith)
count_from-CoqString m (suc n) len (empty p end) lt small =
    rw (count_from, end) (ap ok (omega arith))
count_from-CoqString m (suc n) len (character p cs block rest) lt small =
    rw (count_from, block)
      (count_from-CoqString m n (u64 (len + 1)) rest (omega arith) (omega arith)
        ∙ ap ok (omega arith))

write_from-CoqString :
    (m : Memory) (n : ℕ) {p : ℕ} {cs : List ℕ}
    → CoqString m p cs
    → length cs < n
    → write_from n m p ≡ ok (map char_of cs ++ 0 ∷ [])
unfolding write_from
write_from-CoqString m zero s lt = absurd (omega arith)
write_from-CoqString m (suc n) (empty p end) lt = rw (write_from, end) refl
write_from-CoqString m (suc n) (character p cs block rest) lt =
    rw (write_from, block, write_from-CoqString m n rest (omega arith)) refl

-- With more fuel than the string has characters, `length_of_coq_string` returns their number. If
-- `malloc` returns a buffer, `string_of_coq_string` writes their bytes and a final 0 to it, exactly
-- as many as it has asked for, and prints nothing. If it returns NULL, it reports the size on the
-- standard error, writes nothing else to the streams, and the program stops at the NULL buffer.
pub string_of_coq_string-CoqString :
    (lu : ℕ → List ℕ) (malloced fuel : ℕ) (m : Memory) (p : ℕ) (cs : List ℕ) (out : Output)
    → CoqString m p cs
    → length cs < fuel
    → length cs < 2 ^ 63
    → (length_of_coq_string fuel m p ≡ ok (length cs))
      × (malloced ≢ 0
          → string_of_coq_string lu malloced fuel m p out
            ≡ (out, ok (length cs + 1, map char_of cs ++ 0 ∷ [])))
      × (malloced ≡ 0
          → string_of_coq_string lu malloced fuel m p out ≡ (
            record out { stderr = out.stderr ++ malloc_failed lu (length cs + 1) },
            fail null_buffer,
          ))
      × (length (map char_of cs ++ 0 ∷ []) ≡ length cs + 1)
unfolding string_of_coq_string length_of_coq_string
string_of_coq_string-CoqString lu malloced fuel m p cs out s enough small = (
  count_from-CoqString m fuel 0 s enough (omega arith) ∙ ap ok (omega arith),
  λ ne.
      let given : (malloced == 0) ≡ false = ground arith in
      let size : u64 (0 + length cs + 1) ≡ length cs + 1 = omega arith in
      rw (counted, string_of_coq_string, given, write_from-CoqString m fuel s enough, size) refl,
  λ e.
      let null : (malloced == 0) ≡ true = ground arith in
      let size : u64 (0 + length cs + 1) ≡ length cs + 1 = omega arith in
      rw (counted, string_of_coq_string, null, size) refl,
  length-append (map char_of cs) (0 ∷ []) ∙ omega (arith, length-map cs),
)
  where
    counted : length_of_coq_string fuel m p ≡ ok (0 + length cs)
    counted = count_from-CoqString m fuel 0 s enough (omega arith)

    length-map : (cs : List ℕ) → length (map char_of cs) ≡ length cs
    length-map [] = refl
    length-map (c ∷ cs) = ap suc (length-map cs)
