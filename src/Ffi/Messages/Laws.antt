-- ===== src/Ffi/Messages/Laws.antt =====
-- What a message prints.
use certirocq.Prelude.{ℕ, ◌^◌, ◌+◌, ◌<◌, ◌≡◌, ◌≢◌, ap, ◌∙◌, List, [], ◌∷◌, ◌++◌, map, length}
use certirocq.Values.{Memory}
use certirocq.Gc.Types.{Result, ok, fail, exit_status, null_buffer}
use certirocq.Strings.Bytes.{c_string, NonZero, c_string-ended}
use certirocq.Ffi.{Output, malloc_failed}
use certirocq.Ffi.Laws.{CoqString, char_of, string_of_coq_string-CoqString}
use certirocq.Ffi.Messages.{
  Printed, with_text, rocq_msg_info, rocq_user_error, rocq_msg_debug, rocq_msg_notice,
}

-- The text that a message is given is that of its characters.
with_text-CoqString :
    (lu : ℕ → List ℕ) (malloced fuel : ℕ) (m : Memory) (p : ℕ) (cs : List ℕ) (out : Output)
    (print : Output → List ℕ → Printed)
    → CoqString m p cs
    → length cs < fuel
    → length cs < 2 ^ 63
    → NonZero (map char_of cs)
    → (malloced ≢ 0 → with_text lu malloced fuel m p out print ≡ print out (map char_of cs))
      × (malloced ≡ 0
          → with_text lu malloced fuel m p out print ≡ (
            record out { stderr = out.stderr ++ malloc_failed lu (length cs + 1) },
            fail null_buffer,
          ))
unfolding with_text
with_text-CoqString lu malloced fuel m p cs out print s enough small nz =
    let (len, given, null, size) =
      string_of_coq_string-CoqString lu malloced fuel m p cs out s enough small in
    (
      λ ne. ap (after print) (given ne) ∙ ap (print out) (c_string-ended (map char_of cs) nz),
      λ e. ap (after print) (null e),
    )
  where
    after : (Output → List ℕ → Printed) → Output × Result (ℕ × List ℕ) → Printed
    after print (out', fail e) = (out', fail e)
    after print (out', ok (size, str)) = print out' (c_string str)

-- What is left when the buffer of a text of `n` characters could not be allocated.
abbrev pub unprinted : (lu : ℕ → List ℕ) → (n : ℕ) → Output → Printed
unprinted lu n out =
    (record out { stderr = out.stderr ++ malloc_failed lu (n + 1) }, fail null_buffer)

-- For a message of the program without the character 0, with more fuel than it has characters, and
-- a buffer from `malloc`: the three kinds of message write its characters to the standard output, in
-- order and behind what is there, `rocq_msg_info` with the end of the line, and return unit;
-- `rocq_user_error` writes them to the standard error and ends the program with status 1. When
-- `malloc` returns NULL, all four report that on the standard error, write nothing else and stop
-- the program at the NULL buffer.
pub rocq_msg_info-CoqString :
    (lu : ℕ → List ℕ) (malloced fuel : ℕ) (m : Memory) (p : ℕ) (cs : List ℕ) (out : Output)
    → CoqString m p cs
    → length cs < fuel
    → length cs < 2 ^ 63
    → NonZero (map char_of cs)
    → (malloced ≢ 0
        → (rocq_msg_info lu malloced fuel m p out
            ≡ (record out { stdout = out.stdout ++ (map char_of cs ++ 10 ∷ []) }, ok 1))
          × (rocq_msg_debug lu malloced fuel m p out
              ≡ (record out { stdout = out.stdout ++ map char_of cs }, ok 1))
          × (rocq_msg_notice lu malloced fuel m p out
              ≡ (record out { stdout = out.stdout ++ map char_of cs }, ok 1))
          × (rocq_user_error lu malloced fuel m p out
              ≡ (record out { stderr = out.stderr ++ map char_of cs }, fail (exit_status 1))))
      × (malloced ≡ 0
          → (rocq_msg_info lu malloced fuel m p out ≡ unprinted lu (length cs) out)
            × (rocq_msg_debug lu malloced fuel m p out ≡ unprinted lu (length cs) out)
            × (rocq_msg_notice lu malloced fuel m p out ≡ unprinted lu (length cs) out)
            × (rocq_user_error lu malloced fuel m p out ≡ unprinted lu (length cs) out))
unfolding rocq_msg_info rocq_msg_debug rocq_msg_notice rocq_user_error
rocq_msg_info-CoqString lu malloced fuel m p cs out s enough small nz = (
  λ ne. ((text _).0 ne, (text _).0 ne, (text _).0 ne, (text _).0 ne),
  λ e. ((text _).1 e, (text _).1 e, (text _).1 e, (text _).1 e),
)
  where
    text :
        (print : Output → List ℕ → Printed)
        → (malloced ≢ 0 → with_text lu malloced fuel m p out print ≡ print out (map char_of cs))
          × (malloced ≡ 0 → with_text lu malloced fuel m p out print ≡ unprinted lu (length cs) out)
    text print = with_text-CoqString lu malloced fuel m p cs out print s enough small nz
