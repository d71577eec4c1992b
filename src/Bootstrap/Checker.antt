-- ===== src/Bootstrap/Checker.antt =====
-- certirocqchk_wrapper.c: one run of the compiled proof checker. Its result is a Boolean, which is
-- returned as it is, and the storage of the checker is not given back.
pub mod Laws
use certirocq.Prelude.{ℕ, ◌*◌, none, some, Bool, true, false, ltb, ◌&&◌, not, if◌then◌else◌}
use certirocq.Word.{u64}
use certirocq.Values.{Memory}
use certirocq.Gc.Types.{Result, ok, ◌>>=◌, ◌>>◌}
use certirocq.Gc.Heap.{make_tinfo}
use certirocq.Gc.Alloc.{World}
use certirocq.Bootstrap.Threads.{
  Runtime, default_stack_size_mb, certirocqchk_stack_size, checker_on_current_stack,
}
use certirocq.Bootstrap.Pipeline.{Program, Sites}

-- `Val_false`.
abbrev pub val_false : ℕ
val_false = 1

-- The checker works in the memory in which it finds its argument.
unfoldable pub run_checker : Program → Sites → (prog : ℕ) → Memory → Result (ℕ × World)
run_checker p sites prog m = do
  ti ← make_tinfo sites.malloced_heap sites.malloced_nursery sites.malloced_tinfo sites.args
  let (closure, w) = p.body (ti, m)
  ok (p.call closure prog w)

-- `struct checker_call`.
pub record CheckerCall : Type 0 where
  pub prog : ℕ
  pub res : ℕ
  pub ran : Bool

module _ {W : Type 0} (rt : Runtime W) (run : (prog : ℕ) → W → Result (ℕ × W)) where
  unfoldable pub checker_thread : CheckerCall → W → Result (CheckerCall × W)
  checker_thread c w =
      let (registered, w1) = rt.caml_c_thread_register w in
      if registered
      then (do
        (r, w2) ← run c.prog (rt.caml_acquire_runtime_system w1)
        ok (
          record c { res = r; ran = true },
          rt.caml_c_thread_unregister (rt.caml_release_runtime_system w2),
        ))
      else ok (c, w1)

  unfoldable pub checker_stack_size : ℕ
  checker_stack_size =
      let mb : ℕ = elim (rt.getenv certirocqchk_stack_size) [ none ↦ 0 | some s ↦ rt.strtoul s ] in
      u64 (u64 ((if ltb 0 mb then mb else default_stack_size_mb) * 1024) * 1024)

  unfoldable pub certirocqchk_wrapper : (prog : ℕ) → W → Result (ℕ × W)
  unfolding checker_thread checker_stack_size
  certirocqchk_wrapper prog w =
      let (moved, w1) = rt.caml_minor_collection w in
      let c : CheckerCall = record { prog = moved prog; res = val_false; ran = false } in
      let created = rt.pthread_attr_setstacksize checker_stack_size in
      let w2 = rt.caml_release_runtime_system w1 in
      (if created && rt.pthread_create then checker_thread c w2 else ok (c, w2)) >>= λ joined.
      let w3 = rt.caml_acquire_runtime_system joined.1 in
      if not joined.0.ran
      then run (moved prog) (rt.printf checker_on_current_stack w3)
      else ok (joined.0.res, w3)
