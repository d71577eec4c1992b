-- ===== src/Bootstrap/Lock.antt =====
-- The rules of the OCaml runtime that the wrappers have to obey, and what it is to obey them.
use certirocq.Prelude.{ℕ, ◌+◌, ◌≤◌, ◌<◌, ◌≡◌, refl, Bool, true, false, ◌&&◌}
use certirocq.Gc.Types.{Result, ok, fail, ◌>>=◌}
use certirocq.Bootstrap.Threads.{Runtime, Notice}

module _ {W : Type 0} (rt : Runtime W) (holds : W → Bool) (roots : W → ℕ) where
  -- `w` has become `w'`, with the lock as `b` says and as many roots as before.
  abbrev pub Moves : Bool → W → W → Type 0
  Moves b w w' = (holds w' ≡ b) × (roots w' ≡ roots w)

  -- `holds` tells whether the thread that runs holds the runtime lock, `roots` how many global roots
  -- are registered. The lock is taken by a thread that does not hold it and released by one that
  -- does. A thread registers and unregisters without it; collections and roots need it.
  pub record RuntimeLaws : Type 0 where
    pub acquire : (w : W) → holds w ≡ false → Moves true w (rt.caml_acquire_runtime_system w)
    pub release : (w : W) → holds w ≡ true → Moves false w (rt.caml_release_runtime_system w)
    pub collection : (w : W) → holds w ≡ true → Moves true w (rt.caml_minor_collection w).1
    pub register : (w : W) → holds w ≡ false → Moves false w (rt.caml_c_thread_register w).1
    pub unregister : (w : W) → holds w ≡ false → Moves false w (rt.caml_c_thread_unregister w)
    pub printf : (t : Notice) (w : W) → holds w ≡ true → Moves true w (rt.printf t w)
    pub modify :
        (v : ℕ) (w : W)
        → holds w ≡ true
        → Moves true w (rt.caml_modify_generational_global_root v w)
    pub add_root :
        (v : ℕ) (w : W)
        → holds w ≡ true
        → (holds (rt.caml_register_generational_global_root v w) ≡ true)
          × (roots (rt.caml_register_generational_global_root v w) ≡ roots w + 1)
    pub remove_root :
        (w : W)
        → holds w ≡ true
        → 0 < roots w
        → (holds (rt.caml_remove_generational_global_root w) ≡ true)
          × (roots (rt.caml_remove_generational_global_root w) + 1 ≡ roots w)

  -- The wrapper is one call of `run` from the state `before`, with what `finish` does to its outcome.
  -- The lock is held, and `extra` more roots are registered, when the run starts. If the run ends
  -- with the lock held and these roots registered, then the wrapper returns with the lock held and
  -- without these roots.
  pub record RunsOnce (wrapped : Result (ℕ × W)) (run : W → Result (ℕ × W)) (extra : ℕ) (w : W)
      (before : W) (finish : ℕ × W → ℕ × W) : Type 0 where
    pub once : wrapped ≡ (run before >>= λ r. ok (finish r))
    pub locked : holds before ≡ true
    pub rooted : roots before ≡ roots w + extra
    pub released :
        (r : ℕ × W)
        → holds r.1 ≡ true
        → extra ≤ roots r.1
        → (holds (finish r).1 ≡ true) × (roots (finish r).1 + extra ≡ roots r.1)

-- What follows on what follows can be read as one step.
pub bind_bind :
    {S T U : Type 0} (first : S → Result T) (then : T → Result U) (outcome : Result S)
    → ((outcome >>= first) >>= then) ≡ (outcome >>= λ s. first s >>= then)
bind_bind first then (fail reason) = refl
bind_bind first then (ok s) = refl

pub and_parts : (a b : Bool) → (a && b) ≡ true → (a ≡ true) × (b ≡ true)
and_parts true b e = (refl, e)
and_parts false b e = absurd cc

pub and_other : (a b : Bool) → a ≡ true → (a && b) ≡ false → b ≡ false
and_other a b e f = cc

pub bind-ok_id : {A : Type 0} (r : Result A) → r ≡ (r >>= λ a. ok a)
bind-ok_id (ok a) = refl
bind-ok_id (fail e) = refl
