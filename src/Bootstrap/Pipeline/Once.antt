-- ===== src/Bootstrap/Pipeline/Once.antt =====
-- The wrapper of the compiler: it runs once, on whichever stack there is.
use certirocq.Prelude.{
  ℕ, ◌+◌, ◌≤◌, ◌≡◌, ap, ◌∙◌, inl, inr, Bool, Bool-cases, true, false, arith, ◌&&◌, if◌then◌else◌,
}
use certirocq.Gc.Types.{Result, ok, ◌>>=◌}
use certirocq.Bootstrap.Copy.{val_unit}
use certirocq.Bootstrap.Threads.{Runtime, compiler_on_current_stack}
use certirocq.Bootstrap.Lock.{RuntimeLaws, RunsOnce, bind_bind, and_parts, and_other}
use certirocq.Bootstrap.Pipeline.{
  PipelineCall, pipeline_thread, pipeline_stack_size, certirocq_pipeline_wrapper,
}

module _ {W : Type 0} (rt : Runtime W) (holds : W → Bool) (roots : W → ℕ)
    (laws : RuntimeLaws rt holds roots) (run : (opts prog : ℕ) → W → Result (ℕ × W)) where
  -- Whether there is a new thread.
  abbrev pub created : Bool
  created = rt.pthread_attr_setstacksize (pipeline_stack_size rt run) && rt.pthread_create

  -- The state once the root is registered and the lock released, and whether the new thread can
  -- register in it.
  abbrev pub released : W → W
  released w =
      rt.caml_release_runtime_system
        (rt.caml_register_generational_global_root val_unit (rt.caml_minor_collection w).1)

  abbrev pub registered : W → Bool × W
  registered w = rt.caml_c_thread_register (released w)

  -- What the thread and then the wrapper do to the outcome of the run, and what they do without.
  abbrev pub finish_thread : ℕ × W → ℕ × W
  finish_thread r =
      let done = rt.caml_release_runtime_system (rt.caml_modify_generational_global_root r.0 r.1) in
      let back = rt.caml_acquire_runtime_system (rt.caml_c_thread_unregister done) in
      (rt.root back, rt.caml_remove_generational_global_root back)

  abbrev pub finish_here : ℕ × W → ℕ × W
  finish_here r = (r.0, rt.caml_remove_generational_global_root r.1)

  abbrev first_call : (opts prog : ℕ) → W → PipelineCall
  first_call opts prog w =
      let moved = (rt.caml_minor_collection w).0 in
      record { opts = moved opts; prog = moved prog; ran = false }

  -- What follows the join.
  abbrev joined : (opts prog : ℕ) → W → PipelineCall × W → Result (ℕ × W)
  joined opts prog w j =
      let moved = (rt.caml_minor_collection w).0 in
      let w4 = rt.caml_acquire_runtime_system j.1 in
      (if j.0.ran
        then ok (rt.root w4, w4)
        else run (moved opts) (moved prog) (rt.printf compiler_on_current_stack w4))
      >>= λ r. ok (r.0, rt.caml_remove_generational_global_root r.1)

  -- The end of the thread.
  abbrev after_run : PipelineCall → ℕ × W → Result (PipelineCall × W)
  after_run c r = ok (
    record c { ran = true },
    rt.caml_c_thread_unregister
        (rt.caml_release_runtime_system (rt.caml_modify_generational_global_root r.0 r.1)),
  )

  wrapper-branch :
      (opts prog : ℕ) (w : W) (b : Bool)
      → created ≡ b
      → certirocq_pipeline_wrapper rt run opts prog w ≡ (
          (if b
            then pipeline_thread rt run (first_call opts prog w) (released w)
            else ok (first_call opts prog w, released w))
          >>= joined opts prog w)
  unfolding certirocq_pipeline_wrapper
  wrapper-branch opts prog w b e =
      ap
        (λ b.
          (if b
            then pipeline_thread rt run (first_call opts prog w) (released w)
            else ok (first_call opts prog w, released w))
          >>= joined opts prog w)
        e

  thread-branch :
      (c : PipelineCall) (w : W) (b : Bool)
      → (rt.caml_c_thread_register w).0 ≡ b
      → pipeline_thread rt run c w ≡ (
          if b
          then run c.opts c.prog (rt.caml_acquire_runtime_system (rt.caml_c_thread_register w).1)
            >>= after_run c
          else ok (c, (rt.caml_c_thread_register w).1))
  unfolding pipeline_thread
  thread-branch c w b e =
      ap
        (λ b.
          if b
          then run c.opts c.prog (rt.caml_acquire_runtime_system (rt.caml_c_thread_register w).1)
            >>= after_run c
          else ok (c, (rt.caml_c_thread_register w).1))
        e

  -- The lock and the roots along the way.
  released-Moves :
      (w : W) → holds w ≡ true → (holds (released w) ≡ false) × (roots (released w) ≡ roots w + 1)
  released-Moves w h =
      let (h1, r1) = laws.collection w h in
      let (h2, r2) = laws.add_root val_unit _ h1 in
      let (h3, r3) = laws.release _ h2 in (h3, r3 ∙ r2 ∙ ap (λ n. n + 1) r1)

  acquired :
      (w u : W)
      → holds u ≡ false
      → roots u ≡ roots w + 1
      → (holds (rt.caml_acquire_runtime_system u) ≡ true)
        × (roots (rt.caml_acquire_runtime_system u) ≡ roots w + 1)
  acquired w u h r = let (h', r') = laws.acquire u h in (h', r' ∙ r)

  finish_here-unroots :
      (r : ℕ × W)
      → holds r.1 ≡ true
      → 1 ≤ roots r.1
      → (holds (finish_here r).1 ≡ true) × (roots (finish_here r).1 + 1 ≡ roots r.1)
  finish_here-unroots r h le = laws.remove_root r.1 h (omega arith)

  finish_thread-unroots :
      (r : ℕ × W)
      → holds r.1 ≡ true
      → 1 ≤ roots r.1
      → (holds (finish_thread r).1 ≡ true) × (roots (finish_thread r).1 + 1 ≡ roots r.1)
  finish_thread-unroots r h le =
      let (h1, r1) = laws.modify r.0 r.1 h in
      let (h2, r2) = laws.release _ h1 in
      let (h3, r3) = laws.unregister _ h2 in
      let (h4, r4) = laws.acquire _ h3 in
      let (h5, r5) = laws.remove_root _ h4 (omega (arith, r4, r3, r2, r1)) in
      (h5, r5 ∙ r4 ∙ r3 ∙ r2 ∙ r1)

  -- The run on the current stack, from a state `u` that the failed attempt has left.
  run_here :
      (opts prog : ℕ) (w u : W)
      → holds u ≡ false
      → roots u ≡ roots w + 1
      → certirocq_pipeline_wrapper rt run opts prog w
        ≡ joined opts prog w (first_call opts prog w, u)
      → let moved = (rt.caml_minor_collection w).0 in
        RunsOnce rt holds roots
          (certirocq_pipeline_wrapper rt run opts prog w)
          (run (moved opts) (moved prog))
          1
          w
          (rt.printf compiler_on_current_stack (rt.caml_acquire_runtime_system u))
          finish_here
  run_here opts prog w u h r e =
      let (h1, r1) = acquired w u h r in
      let (h2, r2) = laws.printf compiler_on_current_stack _ h1 in
      record { once = e; locked = h2; rooted = r2 ∙ r1; released = finish_here-unroots }

  -- The compiler runs exactly once, on the promoted arguments, with the runtime lock held and the
  -- root for the result registered; if the run ends with both, the wrapper returns with the lock
  -- held and the root gone.
  -- If the stack of the new thread can be set, the thread is created and it registers with the
  -- OCaml runtime, the run is on that thread and the result is what the root holds once the wrapper
  -- has the lock again; else a notice is printed, the run is on the current stack and its result is
  -- returned. The run's failure is the wrapper's.
  pub certirocq_pipeline_wrapper-run :
      (opts prog : ℕ) (w : W)
      → holds w ≡ true
      → let moved = (rt.caml_minor_collection w).0 in
        let once =
          RunsOnce rt holds roots
            (certirocq_pipeline_wrapper rt run opts prog w)
            (run (moved opts) (moved prog))
            1
            w in
        ((created && (registered w).0) ≡ true
          → once (rt.caml_acquire_runtime_system (registered w).1) finish_thread)
        × ((created && (registered w).0) ≡ false
            → once
                (rt.printf compiler_on_current_stack (
                  rt.caml_acquire_runtime_system
                    (if created then (registered w).1 else released w)))
                finish_here)
  certirocq_pipeline_wrapper-run opts prog w h =
      let (h1, r1) = released-Moves w h in
      let (h2, r2) = laws.register (released w) h1 in
      let c = first_call opts prog w in
      (
        λ both.
            let (made, can) = and_parts created (registered w).0 both in
            let (h3, r3) = acquired w (registered w).1 h2 (r2 ∙ r1) in
            record {
              once =
                  wrapper-branch opts prog w true made
                  ∙ ap (λ r. r >>= joined opts prog w) (thread-branch c (released w) true can)
                  ∙ bind_bind (after_run c) (joined opts prog w)
                      (run c.opts c.prog (rt.caml_acquire_runtime_system (registered w).1));
              locked = h3;
              rooted = r3;
              released = finish_thread-unroots;
            },
        λ neither. elim (Bool-cases created) [
          | inl made ↦
              let cannot = and_other created (registered w).0 made neither in
              rw made (
                run_here opts prog w (registered w).1 h2 (r2 ∙ r1) (
                  wrapper-branch opts prog w true made
                  ∙ ap (λ r. r >>= joined opts prog w) (thread-branch c (released w) false cannot)))
          | inr not_made ↦
              rw not_made (
                run_here opts prog w (released w) h1 r1 (wrapper-branch opts prog w false not_made))
        ],
      )
