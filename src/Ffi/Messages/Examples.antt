-- ===== src/Ffi/Messages/Examples.antt =====
-- The message of two characters in the memory.
use certirocq.Prelude.{ℕ, ◌≡◌, ◌≢◌, List, [], ◌∷◌, ◌++◌, map, arith}
use certirocq.Gc.Types.{ok, fail, exit_status}
use certirocq.Ffi.{Output}
use certirocq.Ffi.Laws.{char_of}
use certirocq.Ffi.Examples.{memory, two, two_characters}
use certirocq.Ffi.Messages.{rocq_msg_info, rocq_user_error, rocq_msg_debug, rocq_msg_notice}
use certirocq.Ffi.Messages.Laws.{unprinted, rocq_msg_info-CoqString}

abbrev before : Output
before = record { stdout = b'>' ∷ []; stderr = [] }

-- Every number is printed as "3", as the size of this buffer is.
abbrev lu : ℕ → List ℕ
lu size = b'3' ∷ []

rocq_msg_info-CoqString_example :
    (◌≢◌ {A = ℕ} 4096 0
      → (rocq_msg_info lu 4096 3 memory 1000 before
          ≡ (record before { stdout = b'>' ∷ (map char_of two ++ 10 ∷ []) }, ok 1))
        × (rocq_msg_debug lu 4096 3 memory 1000 before
            ≡ (record before { stdout = b'>' ∷ map char_of two }, ok 1))
        × (rocq_msg_notice lu 4096 3 memory 1000 before
            ≡ (record before { stdout = b'>' ∷ map char_of two }, ok 1))
        × (rocq_user_error lu 4096 3 memory 1000 before
            ≡ (record before { stderr = map char_of two }, fail (exit_status 1))))
    × (◌≡◌ {A = ℕ} 4096 0
        → (rocq_msg_info lu 4096 3 memory 1000 before ≡ unprinted lu 2 before)
          × (rocq_msg_debug lu 4096 3 memory 1000 before ≡ unprinted lu 2 before)
          × (rocq_msg_notice lu 4096 3 memory 1000 before ≡ unprinted lu 2 before)
          × (rocq_user_error lu 4096 3 memory 1000 before ≡ unprinted lu 2 before))
rocq_msg_info-CoqString_example =
    rocq_msg_info-CoqString lu 4096 3 memory 1000 two before two_characters (omega arith)
      (omega arith) (omega arith)
