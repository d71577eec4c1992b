-- ===== src/Ffi/Examples.antt =====
-- A string of two characters in the memory.
use certirocq.Prelude.{
  ℕ, ◌+◌, ◌≡◌, ◌≢◌, refl, ◌==◌, List, [], ◌∷◌, ◌++◌, map, length, arith, if◌then◌else◌,
}
use certirocq.Values.{Memory, is_block}
use certirocq.Gc.Types.{ok, fail, null_buffer}
use certirocq.Ffi.{Output, malloc_failed, length_of_coq_string, string_of_coq_string}
use certirocq.Ffi.Laws.{CoqString, char_of, string_of_coq_string-CoqString}

-- The blocks at 1000 and 1024, and the empty string, the word 1.
abbrev pub memory : Memory
memory a = if a == 1000 then 209 else if a == 1008 then 1024 else if a == 1024 then 211 else 1

abbrev pub two : List ℕ
two = 209 ∷ 211 ∷ []

pub two_characters : CoqString memory 1000 two
unfolding is_block
two_characters =
    CoqString.character 1000 (211 ∷ []) refl
      (CoqString.character 1024 [] refl (CoqString.empty 1 refl))

abbrev quiet : Output
quiet = record { stdout = []; stderr = [] }

-- Every number is printed as "3", as the size of this buffer is.
abbrev lu : ℕ → List ℕ
lu size = b'3' ∷ []

string_of_coq_string-CoqString_example :
    (length_of_coq_string 3 memory 1000 ≡ ok (length two))
    × (◌≢◌ {A = ℕ} 4096 0
        → string_of_coq_string lu 4096 3 memory 1000 quiet
          ≡ (quiet, ok (length two + 1, map char_of two ++ 0 ∷ [])))
    × (◌≡◌ {A = ℕ} 4096 0
        → string_of_coq_string lu 4096 3 memory 1000 quiet
          ≡ (record quiet { stderr = malloc_failed lu (length two + 1) }, fail null_buffer))
    × (length (map char_of two ++ 0 ∷ []) ≡ length two + 1)
string_of_coq_string-CoqString_example =
    string_of_coq_string-CoqString lu 4096 3 memory 1000 two quiet two_characters (omega arith)
      (omega arith)
