-- ===== src/Bootstrap/Checker/Laws.antt =====
-- The wrapper of the checker: it runs once, on whichever stack there is.
use certirocq.Prelude.{
  ℕ, ◌+◌, ◌≤◌, ◌≡◌, ap, ◌∙◌, inl, inr, Bool, Bool-cases, true, false, not, ◌&&◌, if◌then◌else◌,
  arith,
}
use certirocq.Gc.Types.{Result, ok, ◌>>=◌}
use certirocq.Bootstrap.Threads.{Runtime, checker_on_current_stack}
use certirocq.Bootstrap.Lock.{RuntimeLaws, RunsOnce, bind_bind, bind-ok_id, and_parts, and_other}
use certirocq.Bootstrap.Checker.{
  CheckerCall, val_false, checker_thread, checker_stack_size, certirocqchk_wrapper,
}

module _ {W : Type 0} (rt : Runtime W) (holds : W → Bool) (roots : W → ℕ)
    (laws : RuntimeLaws rt holds roots) (run : (prog : ℕ) → W → Result (ℕ × W)) where
  -- Whether there is a new thread.
  abbrev pub created : Bool
  created = rt.pthread_attr_setstacksize (checker_stack_size rt run) && rt.pthread_create

  -- The state once the lock is released, and whether the new thread can register in it.
  abbrev pub released : W → W
  released w = rt.caml_release_runtime_system (rt.caml_minor_collection w).1

  abbrev pub registered : W → Bool × W
  registered w = rt.caml_c_thread_register (released w)

  -- What the thread and then the wrapper do to the outcome of the run, and what they do without.
  abbrev pub finish_thread : ℕ × W → ℕ × W
  finish_thread r = (
    r.0,
    rt.caml_acquire_runtime_system
        (rt.caml_c_thread_unregister (rt.caml_release_runtime_system r.1)),
  )

  abbrev pub finish_here : ℕ × W → ℕ × W
  finish_here r = r

  abbrev first_call : (prog : ℕ) → W → CheckerCall
  first_call prog w = record {
    prog = (rt.caml_minor_collection w).0 prog;
    res = val_false;
    ran = false;
  }

  -- What follows the join.
  abbrev joined : (prog : ℕ) → W → CheckerCall × W → Result (ℕ × W)
  joined prog w j =
      let w3 = rt.caml_acquire_runtime_system j.1 in
      if not j.0.ran
      then run ((rt.caml_minor_collection w).0 prog) (rt.printf checker_on_current_stack w3)
      else ok (j.0.res, w3)

  -- The end of the thread.
  abbrev after_run : CheckerCall → ℕ × W → Result (CheckerCall × W)
  after_run c r = ok (
    record c { res = r.0; ran = true },
    rt.caml_c_thread_unregister (rt.caml_release_runtime_system r.1),
  )

  wrapper-branch :
      (prog : ℕ) (w : W) (b : Bool)
      → created ≡ b
      → certirocqchk_wrapper rt run prog w ≡ (
          (if b
            then checker_thread rt run (first_call prog w) (released w)
            else ok (first_call prog w, released w))
          >>= joined prog w)
  unfolding certirocqchk_wrapper
  wrapper-branch prog w b e =
      ap
        (λ b.
          (if b
            then checker_thread rt run (first_call prog w) (released w)
            else ok (first_call prog w, released w))
          >>= joined prog w)
        e

  thread-branch :
      (c : CheckerCall) (w : W) (b : Bool)
      → (rt.caml_c_thread_register w).0 ≡ b
      → checker_thread rt run c w ≡ (
          if b
          then run c.prog (rt.caml_acquire_runtime_system (rt.caml_c_thread_register w).1)
            >>= after_run c
          else ok (c, (rt.caml_c_thread_register w).1))
  unfolding checker_thread
  thread-branch c w b e =
      ap
        (λ b.
          if b
          then run c.prog (rt.caml_acquire_runtime_system (rt.caml_c_thread_register w).1)
            >>= after_run c
          else ok (c, (rt.caml_c_thread_register w).1))
        e

  released-Moves :
      (w : W) → holds w ≡ true → (holds (released w) ≡ false) × (roots (released w) ≡ roots w + 0)
  released-Moves w h =
      let (h1, r1) = laws.collection w h in
      let (h2, r2) = laws.release _ h1 in (h2, r2 ∙ r1 ∙ omega arith)

  finish_thread-unroots :
      (r : ℕ × W)
      → holds r.1 ≡ true
      → 0 ≤ roots r.1
      → (holds (finish_thread r).1 ≡ true) × (roots (finish_thread r).1 + 0 ≡ roots r.1)
  finish_thread-unroots r h le =
      let (h1, r1) = laws.release r.1 h in
      let (h2, r2) = laws.unregister _ h1 in
      let (h3, r3) = laws.acquire _ h2 in (h3, omega arith ∙ r3 ∙ r2 ∙ r1)

  -- The run on the current stack, from a state `u` that the failed attempt has left.
  run_here :
      (prog : ℕ) (w u : W)
      → holds u ≡ false
      → roots u ≡ roots w + 0
      → certirocqchk_wrapper rt run prog w ≡ joined prog w (first_call prog w, u)
      → RunsOnce rt holds roots
          (certirocqchk_wrapper rt run prog w)
          (run ((rt.caml_minor_collection w).0 prog))
          0
          w
          (rt.printf checker_on_current_stack (rt.caml_acquire_runtime_system u))
          finish_here
  run_here prog w u h r e =
      let (h1, r1) = laws.acquire u h in
      let (h2, r2) = laws.printf checker_on_current_stack _ h1 in
      record {
        once = e ∙ bind-ok_id _;
        locked = h2;
        rooted = r2 ∙ r1 ∙ r;
        released = λ r h le. (h, omega arith);
      }

  -- The checker runs exactly once, on the promoted argument and with the runtime lock held; the
  -- wrapper returns with the lock held if the run does, and with as many roots. If the stack of the new thread can
  -- be set, the thread is created and it registers with the OCaml runtime, the run is on that
  -- thread; else a notice is printed and the run is on the current stack. The answer is that of the
  -- run either way, and its failure is the wrapper's.
  pub certirocqchk_wrapper-run :
      (prog : ℕ) (w : W)
      → holds w ≡ true
      → let once =
          RunsOnce rt holds roots
            (certirocqchk_wrapper rt run prog w)
            (run ((rt.caml_minor_collection w).0 prog))
            0
            w in
        ((created && (registered w).0) ≡ true
          → once (rt.caml_acquire_runtime_system (registered w).1) finish_thread)
        × ((created && (registered w).0) ≡ false
            → once
                (rt.printf checker_on_current_stack (
                  rt.caml_acquire_runtime_system
                    (if created then (registered w).1 else released w)))
                finish_here)
  certirocqchk_wrapper-run prog w h =
      let (h1, r1) = released-Moves w h in
      let (h2, r2) = laws.register (released w) h1 in
      let c = first_call prog w in
      (
        λ both.
            let (made, can) = and_parts created (registered w).0 both in
            let (h3, r3) = laws.acquire (registered w).1 h2 in
            record {
              once =
                  wrapper-branch prog w true made
                  ∙ ap (λ r. r >>= joined prog w) (thread-branch c (released w) true can)
                  ∙ bind_bind (after_run c) (joined prog w)
                      (run c.prog (rt.caml_acquire_runtime_system (registered w).1));
              locked = h3;
              rooted = r3 ∙ r2 ∙ r1;
              released = finish_thread-unroots;
            },
        λ neither. elim (Bool-cases created) [
          | inl made ↦
              let cannot = and_other created (registered w).0 made neither in
              rw made (
                run_here prog w (registered w).1 h2 (r2 ∙ r1) (
                  wrapper-branch prog w true made
                  ∙ ap (λ r. r >>= joined prog w) (thread-branch c (released w) false cannot)))
          | inr not_made ↦
              rw not_made
                (run_here prog w (released w) h1 r1 (wrapper-branch prog w false not_made))
        ],
      )
