-- ===== src/Bootstrap/Print.antt =====
-- bootstrap/certirocqc/print.c and bootstrap/certirocqchk/print.c: the messages of the compiled
-- compiler and checker, which go to OCaml as those of runtime/rocq_ffi.c do.
use certirocq.Prelude.{ℕ}
use certirocq.Gc.Types.{Result, ok, ◌>>=◌}
use certirocq.Ffi.Callbacks.{Caml, Statics, msg_info, user_error, msg_debug, call_named}

-- `Val_true`.
abbrev pub val_true : ℕ
val_true = 3

module _ {W : Type 0} (caml : Caml W) where
  unfoldable pub call_rocq_msg_info : ℕ → Statics × W → Result (Statics × W)
  call_rocq_msg_info msg s = call_named caml msg_info msg s

  unfoldable pub rocq_msg_info : ℕ → Statics × W → Result (ℕ × Statics × W)
  rocq_msg_info msg s = do (statics, w) ← call_rocq_msg_info msg s; ok (1, statics, w)

  unfoldable pub call_rocq_user_error : ℕ → Statics × W → Result (Statics × W)
  call_rocq_user_error msg s = call_named caml user_error msg s

  unfoldable pub rocq_user_error : ℕ → Statics × W → Result (ℕ × Statics × W)
  rocq_user_error msg s = do (statics, w) ← call_rocq_user_error msg s; ok (1, statics, w)

  unfoldable pub call_rocq_msg_debug : ℕ → Statics × W → Result (Statics × W)
  call_rocq_msg_debug msg s = call_named caml msg_debug msg s

  unfoldable pub rocq_msg_debug : ℕ → Statics × W → Result (ℕ × Statics × W)
  rocq_msg_debug msg s = do (statics, w) ← call_rocq_msg_debug msg s; ok (1, statics, w)

  -- The checker's names for the two functions.
  unfoldable pub print_msg_info : ℕ → Statics × W → Result (ℕ × Statics × W)
  print_msg_info msg s = do (statics, w) ← call_rocq_msg_info msg s; ok (1, statics, w)

  unfoldable pub print_msg_debug : ℕ → Statics × W → Result (ℕ × Statics × W)
  print_msg_debug msg s = do (statics, w) ← call_rocq_msg_debug msg s; ok (1, statics, w)

-- The guard condition is taken to hold.
abbrev pub metarocq_guard_impl : (fixcofix globalenv context term : ℕ) → ℕ
metarocq_guard_impl fixcofix globalenv context term = val_true
