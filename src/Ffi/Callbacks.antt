-- ===== src/Ffi/Callbacks.antt =====
-- runtime/rocq_ffi.c: the messages of a program that OCaml runs, as calls of closures which OCaml
-- has registered under names. The OCaml runtime is the parameter `Caml`.
pub mod Laws
mod Examples
use certirocq.Prelude.{ℕ, Bool, true, false, Option, none, some, if◌then◌else◌}
use certirocq.Gc.Types.{Result, ok, fail, null_closure, ◌>>=◌, ◌>>◌}

-- The names "rocq_msg_info", "rocq_user_error", "rocq_msg_debug" and "rocq_msg_notice".
pub data Name : Type 0 where
  msg_info user_error msg_debug msg_notice : Name

abbrev pub same_name : Name → Name → Bool
same_name msg_info msg_info = true
same_name user_error user_error = true
same_name msg_debug msg_debug = true
same_name msg_notice msg_notice = true
same_name _ _ = false

-- `caml_named_value`, with `none` for NULL and else the address of OCaml's cell for the name; the
-- closure in a cell; and `caml_callback`.
pub record Caml (W : Type 0) : Type 0 where
  pub caml_named_value : Name → W → Option ℕ
  pub value_at : ℕ → W → ℕ
  pub caml_callback : (closure msg : ℕ) → W → W

-- The variables `static const value * closure_f`, one in each function.
abbrev pub Statics : Type 0
Statics = Name → Option ℕ

module _ {W : Type 0} (caml : Caml W) where
  -- The body that the functions share: the cell is looked up the first time around, and its closure
  -- is read at each call.
  unfoldable pub call_named : Name → (msg : ℕ) → Statics × W → Result (Statics × W)
  call_named name msg (statics, w) =
      let found : Option ℕ = elim (statics name) [
        | none ↦ caml.caml_named_value name w
        | some p ↦ some p
      ] in
      elim found [
        | none ↦ fail null_closure
        | some p ↦ ok (
          λ n. if same_name n name then some p else statics n,
          caml.caml_callback (caml.value_at p w) msg w,
        )
      ]

  unfoldable pub call_rocq_msg_info : ℕ → Statics × W → Result (Statics × W)
  unfolding call_named
  call_rocq_msg_info msg s = call_named msg_info msg s

  unfoldable pub rocq_msg_info : ℕ → Statics × W → Result (ℕ × Statics × W)
  unfolding call_rocq_msg_info
  rocq_msg_info msg s = do (statics, w) ← call_rocq_msg_info msg s; ok (1, statics, w)

  unfoldable pub call_rocq_user_error : ℕ → Statics × W → Result (Statics × W)
  unfolding call_named
  call_rocq_user_error msg s = call_named user_error msg s

  unfoldable pub rocq_user_error : ℕ → Statics × W → Result (ℕ × Statics × W)
  unfolding call_rocq_user_error
  rocq_user_error msg s = do (statics, w) ← call_rocq_user_error msg s; ok (1, statics, w)

  unfoldable pub call_rocq_msg_debug : ℕ → Statics × W → Result (Statics × W)
  unfolding call_named
  call_rocq_msg_debug msg s = call_named msg_debug msg s

  unfoldable pub rocq_msg_debug : ℕ → Statics × W → Result (ℕ × Statics × W)
  unfolding call_rocq_msg_debug
  rocq_msg_debug msg s = do (statics, w) ← call_rocq_msg_debug msg s; ok (1, statics, w)

  unfoldable pub call_rocq_msg_notice : ℕ → Statics × W → Result (Statics × W)
  unfolding call_named
  call_rocq_msg_notice msg s = call_named msg_notice msg s

  unfoldable pub rocq_msg_notice : ℕ → Statics × W → Result (ℕ × Statics × W)
  unfolding call_rocq_msg_notice
  rocq_msg_notice msg s = do (statics, w) ← call_rocq_msg_notice msg s; ok (1, statics, w)
