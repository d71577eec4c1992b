-- ===== src/Bootstrap/Pipeline.antt =====
-- certirocqc_wrapper.c: one run of the compiled compiler, on a thread with a large stack or, when
-- there can be none, on the current one.
pub mod Laws
pub mod Once
use certirocq.Prelude.{ℕ, ◌*◌, List, none, some, Bool, true, false, ltb, ◌&&◌, if◌then◌else◌}
use certirocq.Word.{u64}
use certirocq.Values.{Memory}
use certirocq.Gc.Types.{Result, ok, fail, null_heap, out_of_fuel, ◌>>=◌, ◌>>◌}
use certirocq.Gc.Heap.{make_tinfo, free_heap}
use certirocq.Gc.Alloc.{World}
use certirocq.Bootstrap.Ocaml.{OcamlHeap}
use certirocq.Bootstrap.Copy.{CodeRange, Phdr, find_code, copy_value, val_unit}
use certirocq.Bootstrap.Threads.{
  Runtime, default_stack_size_mb, certirocqc_stack_size, compiler_on_current_stack,
}

-- The compiled program: its entry `body`, and `call`, which applies a closure.
pub record Program : Type 0 where
  pub body : World → ℕ × World
  pub call : ℕ → ℕ → World → ℕ × World

-- What `malloc` returns to `make_tinfo`, and what the fresh array of arguments holds.
pub record Sites : Type 0 where
  pub malloced_heap : ℕ
  pub malloced_nursery : ℕ
  pub malloced_tinfo : ℕ
  pub args : ℕ → ℕ

-- The two calls, in the order of the arguments.
abbrev pub compile : Program → (opts prog : ℕ) → World → ℕ × World
compile p opts prog w =
    let (closure, w1) = p.body w in
    let (applied, w2) = p.call closure opts w1 in p.call applied prog w2

-- The objects that the dynamic linker lists, and the address of the compiled program in them; and
-- what an earlier search has left in `code_start` and `code_end`.
pub record Loaded : Type 0 where
  pub objects : List (ℕ × List Phdr)
  pub body : ℕ
  pub code : CodeRange

module _ (o : OcamlHeap) (p : Program) (memory : o.State → Memory) (sites : Sites) (loaded : Loaded)
    (depth : ℕ) where
  -- `run_pipeline`: the result with the OCaml heap and the blocks that `free_heap` gives back.
  -- `depth` bounds the nesting of the result.
  unfoldable pub run_pipeline : (opts prog : ℕ) → o.State → Result (ℕ × o.State × List ℕ)
  run_pipeline opts prog s = do
    ti ← make_tinfo sites.malloced_heap sites.malloced_nursery sites.malloced_tinfo sites.args
    let (restemp, (ti', m)) = compile p opts prog (ti, memory s)
    h ← elim ti'.heap [ none ↦ fail null_heap | some h ↦ ok h ]
    let code = find_code loaded.objects loaded.body loaded.code
    (res, s') ← elim (copy_value o h code m depth restemp s) [
      | none ↦ fail out_of_fuel
      | some r ↦ ok r
    ]
    ok (res, s', free_heap sites.malloced_heap h)

-- `struct pipeline_call`, less its field `res`, which is a root of the OCaml runtime.
pub record PipelineCall : Type 0 where
  pub opts : ℕ
  pub prog : ℕ
  pub ran : Bool

module _ {W : Type 0} (rt : Runtime W) (run : (opts prog : ℕ) → W → Result (ℕ × W)) where
  unfoldable pub pipeline_thread : PipelineCall → W → Result (PipelineCall × W)
  pipeline_thread c w =
      let (registered, w1) = rt.caml_c_thread_register w in
      if registered
      then (do
        (r, w2) ← run c.opts c.prog (rt.caml_acquire_runtime_system w1)
        let w3 = rt.caml_modify_generational_global_root r w2
        ok (
          record c { ran = true },
          rt.caml_c_thread_unregister (rt.caml_release_runtime_system w3),
        ))
      else ok (c, w1)

  unfoldable pub pipeline_stack_size : ℕ
  pipeline_stack_size =
      let mb : ℕ = elim (rt.getenv certirocqc_stack_size) [ none ↦ 0 | some s ↦ rt.strtoul s ] in
      u64 (u64 ((if ltb 0 mb then mb else default_stack_size_mb) * 1024) * 1024)

  unfoldable pub certirocq_pipeline_wrapper : (opts prog : ℕ) → W → Result (ℕ × W)
  unfolding pipeline_thread pipeline_stack_size
  certirocq_pipeline_wrapper opts prog w =
      let (moved, w1) = rt.caml_minor_collection w in
      let c : PipelineCall = record { opts = moved opts; prog = moved prog; ran = false } in
      let w2 = rt.caml_register_generational_global_root val_unit w1 in
      let created = rt.pthread_attr_setstacksize pipeline_stack_size in
      let w3 = rt.caml_release_runtime_system w2 in
      (if created && rt.pthread_create then pipeline_thread c w3 else ok (c, w3)) >>= λ joined.
      let w4 = rt.caml_acquire_runtime_system joined.1 in
      (if joined.0.ran
        then ok (rt.root w4, w4)
        else run (moved opts) (moved prog) (rt.printf compiler_on_current_stack w4))
      >>= λ r. ok (r.0, rt.caml_remove_generational_global_root r.1)
