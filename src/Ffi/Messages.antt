-- ===== src/Ffi/Messages.antt =====
-- runtime/rocq_c_ffi.c: the messages of a program that runs without OCaml, on the standard streams.
pub mod Laws
mod Examples
use certirocq.Prelude.{ℕ, List, [], ◌∷◌, ◌++◌}
use certirocq.Values.{Memory}
use certirocq.Gc.Types.{Result, ok, fail, exit_status, ◌>>=◌}
use certirocq.Strings.Bytes.{c_string}
use certirocq.Ffi.{Output, string_of_coq_string}

-- A call: what it has written, and how it ends.
abbrev pub Printed : Type 0
Printed = Output × Result ℕ

-- The message as a C string, if the loops over it end.
unfoldable pub with_text :
    (lu : ℕ → List ℕ)
    → (malloced fuel : ℕ) → Memory
    → (msg : ℕ) → Output
    → (Output → List ℕ → Printed)
    → Printed
with_text lu malloced fuel m msg out print =
    let (out', r) = string_of_coq_string lu malloced fuel m msg out in
    elim r [ fail e ↦ (out', fail e) | ok (size, str) ↦ print out' (c_string str) ]

module _ (lu : ℕ → List ℕ) (malloced fuel : ℕ) (m : Memory) where
  -- `puts` writes the end of the line as well.
  unfoldable pub rocq_msg_info : (msg : ℕ) → Output → Printed
  rocq_msg_info msg out =
      with_text lu malloced fuel m msg out
        λ out str. (record out { stdout = out.stdout ++ (str ++ 10 ∷ []) }, ok 1)

  unfoldable pub rocq_user_error : (msg : ℕ) → Output → Printed
  rocq_user_error msg out =
      with_text lu malloced fuel m msg out
        λ out str. (record out { stderr = out.stderr ++ str }, fail (exit_status 1))

  unfoldable pub rocq_msg_debug : (msg : ℕ) → Output → Printed
  rocq_msg_debug msg out =
      with_text lu malloced fuel m msg out
        λ out str. (record out { stdout = out.stdout ++ str }, ok 1)

  unfoldable pub rocq_msg_notice : (msg : ℕ) → Output → Printed
  rocq_msg_notice msg out =
      with_text lu malloced fuel m msg out
        λ out str. (record out { stdout = out.stdout ++ str }, ok 1)
