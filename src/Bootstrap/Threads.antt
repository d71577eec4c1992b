-- ===== src/Bootstrap/Threads.antt =====
-- What the wrappers use of POSIX threads, of the environment, of `printf` and of the OCaml runtime,
-- none of which is part of the repository.
use certirocq.Prelude.{ℕ, List, Option, Bool}

-- The names "CERTIROCQC_STACK_SIZE" and "CERTIROCQCHK_STACK_SIZE".
pub data Variable : Type 0 where
  certirocqc_stack_size certirocqchk_stack_size : Variable

-- "could not run the compiler (the checker) on a large stack, using the current one".
pub data Notice : Type 0 where
  compiler_on_current_stack checker_on_current_stack : Notice

-- `W` is the state of the process on the OCaml side, with the runtime lock. The collection of the
-- minor heap gives each argument its new name, which it keeps from then on. The wrapper of the
-- compiler registers one root; `root` is the value in it, which the runtime updates.
pub record Runtime (W : Type 0) : Type 0 where
  pub caml_minor_collection : W → (ℕ → ℕ) × W
  pub caml_acquire_runtime_system : W → W
  pub caml_release_runtime_system : W → W
  pub caml_register_generational_global_root : ℕ → W → W
  pub caml_modify_generational_global_root : ℕ → W → W
  pub caml_remove_generational_global_root : W → W
  pub root : W → ℕ
  pub caml_c_thread_register : W → Bool × W
  pub caml_c_thread_unregister : W → W
  pub printf : Notice → W → W
  -- Whether these calls succeed.
  pub pthread_attr_setstacksize : ℕ → Bool
  pub pthread_create : Bool
  -- The text of a variable of the environment, and the number that it starts with.
  pub getenv : Variable → Option (List ℕ)
  pub strtoul : List ℕ → ℕ

abbrev pub default_stack_size_mb : ℕ
default_stack_size_mb = 4096
