-- ===== src/Bootstrap/Pipeline/Laws.antt =====
-- A run of the compiler: its result is a copy in the OCaml heap; and the size of its stack.
use mathlib.Core.List.{Memᴰ}
use certirocq.Prelude.{
  ℕ, ◌*◌, ◌^◌, ◌≤◌, ◌<◌, ◌≡◌, ◌≢◌, refl, ◌⊎◌, inl, inr, List, none, some, arith, ltb, if◌then◌else◌,
}
use certirocq.Word.{u64}
use certirocq.Values.{Memory}
use certirocq.Gc.Types.{Heap, ThreadInfo, max_spaces, Result, ok}
use certirocq.Gc.Heap.{make_tinfo, free_heap}
use certirocq.Gc.Heap.Freed.{free_heap_iff}
use certirocq.Bootstrap.Ocaml.{OcamlHeap, OcamlLaws, Keeps}
use certirocq.Bootstrap.Copy.{CodeRange, find_code}
use certirocq.Bootstrap.Copy.Laws.{Copied, IsShallow, copy_value-Copies}
use certirocq.Bootstrap.Threads.{Runtime, default_stack_size_mb, certirocqc_stack_size}
use certirocq.Bootstrap.Pipeline.{
  Program, Sites, Loaded, compile, run_pipeline, pipeline_stack_size,
}

-- What a run returns: a copy of the compiler's result in the OCaml heap, whose former blocks are as
-- they were; the storage of the compiled program is given back, and nothing else: the blocks of its
-- generations and that of their descriptors, which is at `address`.
pub record IsRun (o : OcamlHeap) (h : Heap) (code : CodeRange) (m : Memory) (s : o.State)
    (restemp address : ℕ) (r : Result (ℕ × o.State × List ℕ)) : Type 0 where
  pub value : ℕ
  pub state : o.State
  pub freed : List ℕ
  pub returns : r ≡ ok (value, state, freed)
  pub copied : Copied o h code m s state restemp value
  pub kept : (b : ℕ) → o.Live s b → Keeps o s state b
  pub all_freed : (i : ℕ) → i < max_spaces → (h i).start ≢ 0 → Memᴰ (h i).start freed
  pub descriptors_freed : Memᴰ address freed
  pub only_freed :
      (p : ℕ)
      → Memᴰ p freed
      → ((i : ℕ) × (i < max_spaces) × ((h i).start ≢ 0) × (p ≡ (h i).start)) ⊎ (p ≡ address)

-- When the three allocations succeed and the value that the compiled compiler returns is nested at
-- most `depth` deep in its heap, `run_pipeline` returns a copy of that value in the OCaml heap, made
-- with the code segment that `find_code` has found; the OCaml blocks that were there are as they
-- were; and what is given back are the nursery and the other generations of the compiler's heap and
-- the block of their descriptors.
pub run_pipeline-IsRun :
    (o : OcamlHeap) (p : Program) (memory : o.State → Memory) (sites : Sites) (loaded : Loaded)
    (depth opts prog : ℕ) (s : o.State) (h : Heap)
    → OcamlLaws o
    → (ti : ThreadInfo)
    → make_tinfo sites.malloced_heap sites.malloced_nursery sites.malloced_tinfo sites.args ≡ ok ti
    → let (restemp, (ti', m)) = compile p opts prog (ti, memory s) in
      let code = find_code loaded.objects loaded.body loaded.code in
      ti'.heap ≡ some h
      → IsShallow o h code m depth restemp
      → IsRun o h code m s restemp sites.malloced_heap
          (run_pipeline o p memory sites loaded depth opts prog s)
unfolding run_pipeline
run_pipeline-IsRun o p memory sites loaded depth opts prog s h laws ti made heap shallow =
    let c = copy_value-Copies o h _ _ laws depth _ s shallow in
    let freed = free_heap_iff sites.malloced_heap h in
    record {
      value = c.value;
      state = c.state;
      freed = free_heap sites.malloced_heap h;
      returns = rw (made, heap, c.returns) refl;
      copied = c.copied;
      kept = c.kept;
      all_freed = λ i lt set. (freed (h i).start).1 (inl (i, omega arith, omega arith, set, refl));
      descriptors_freed = (freed sites.malloced_heap).1 (inr refl);
      only_freed = λ p is. elim ((freed p).0 is) [
        | inl (i, lo, lt, set, e) ↦ inl (i, omega arith, set, e)
        | inr e ↦ inr e
      ];
    }

bytes_bounds :
    (mb : ℕ)
    → mb < 2 ^ 44
    → let bytes = u64 (u64 ((if ltb 0 mb then mb else default_stack_size_mb) * 1024) * 1024) in
      (2 ^ 20 ≤ bytes)
      × (bytes < 2 ^ 64)
      × (0 < mb → bytes ≡ 2 ^ 20 * mb)
      × (mb ≡ 0 → bytes ≡ 2 ^ 32)
bytes_bounds mb lt = ground arith

-- The stack of the new thread has the megabytes that CERTIROCQC_STACK_SIZE asks for, or 4096 when
-- it is unset or asks for none. Below 2^44 megabytes that is the size in bytes, without overflow.
pub pipeline_stack_size_bounds :
    {W : Type 0} (rt : Runtime W) (run : (opts prog : ℕ) → W → Result (ℕ × W))
    → let mb : ℕ = elim (rt.getenv certirocqc_stack_size) [ none ↦ 0 | some t ↦ rt.strtoul t ] in
      mb < 2 ^ 44
      → (2 ^ 20 ≤ pipeline_stack_size rt run)
        × (pipeline_stack_size rt run < 2 ^ 64)
        × (0 < mb → pipeline_stack_size rt run ≡ 2 ^ 20 * mb)
        × (mb ≡ 0 → pipeline_stack_size rt run ≡ 2 ^ 32)
unfolding pipeline_stack_size
pipeline_stack_size_bounds rt run lt = bytes_bounds _ lt
