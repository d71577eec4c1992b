-- ===== src/Bootstrap/Examples.antt =====
-- A concrete OCaml heap, and runs of the wrappers on it.
use certirocq.Prelude.{
  ℕ, zero, suc, ◌+◌, ◌*◌, ◌^◌, ◌≤◌, ◌<◌, ◌≡◌, refl, inl, inr, List, [], ◌∷◌, Option, none, some,
  Bool, true, false, ◌-◌, arith, ◌==◌, ltb, ◌&&◌, if◌then◌else◌,
}
use certirocq.Values.{Memory, field, wosize_val, is_long, wosize_hd, tag_hd}
use certirocq.Gc.Types.{Heap, no_space, set_space, ThreadInfo, Result, ok}
use certirocq.Gc.Heap.{make_tinfo}
use certirocq.Bootstrap.Ocaml.{OcamlHeap, OcamlLaws}
use certirocq.Bootstrap.Copy.{CodeRange, Phdr, find_code, in_certirocq_heap, copy_value}
use certirocq.Bootstrap.Copy.Laws.{Copies, IsShallow, copy_value-Copies}
use certirocq.Bootstrap.Threads.{Runtime}
use certirocq.Bootstrap.Lock.{RuntimeLaws, RunsOnce}
use certirocq.Bootstrap.Pipeline.{
  Program, Sites, Loaded, run_pipeline, pipeline_stack_size, certirocq_pipeline_wrapper,
}
use certirocq.Bootstrap.Pipeline.Laws.{IsRun, run_pipeline-IsRun, pipeline_stack_size_bounds}
use certirocq.Bootstrap.Checker.{checker_stack_size, certirocqchk_wrapper}
use certirocq.Bootstrap.Pipeline.Once.{finish_thread, finish_here, certirocq_pipeline_wrapper-run}
use certirocq.Bootstrap.Checker.Laws.{certirocqchk_wrapper-run}

-- Blocks are numbered in the order of their allocation and named by twice their number plus 4096.
record Blocks : Type 0 where
  count : ℕ
  size : ℕ → ℕ
  tag : ℕ → ℕ
  word : ℕ → ℕ → ℕ

abbrev name_of : ℕ → ℕ
name_of k = 4096 + 2 * k

abbrev allocate : (size tag : ℕ) → Blocks → ℕ × Blocks
allocate n t s = (
  name_of s.count,
  record {
    count = s.count + 1;
    size = λ b. if b == name_of s.count then n else s.size b;
    tag = λ b. if b == name_of s.count then t else s.tag b;
    word = λ b i. if b == name_of s.count then 1 else s.word b i;
  },
)

abbrev blocks : OcamlHeap
blocks = record {
  State = Blocks;
  caml_alloc = allocate;
  store_field =
      λ r i v s. record s { word = λ b j. if (b == r) && (j == i) then v else s.word b j };
  size_of = λ s b. s.size b;
  tag_of = λ s b. s.tag b;
  field_of = λ s b i. s.word b i;
  Live = λ s b. b < name_of s.count;
}

blocks-OcamlLaws : OcamlLaws blocks
blocks-OcamlLaws = record {
  alloc_live = λ n t s some_fields. omega arith;
  alloc_fresh = λ n t s some_fields live. omega arith;
  alloc_size = λ n t s. ground arith;
  alloc_tag = λ n t s. ground arith;
  alloc_keeps = λ n t s b live. record {
    live = omega arith;
    size = ground arith;
    tag = ground arith;
    fields = λ i. ground arith;
  };
  store_live = λ r i v s b live. live;
  store_size = λ r i v s b. refl;
  store_tag = λ r i v s b. refl;
  store_field_self = λ r i v s live lt. ground arith;
  store_field_other = λ r i v s b j differ. ground arith;
}

-- The heap of a compiled program that has built a pair of the integer 3 and a pointer to code.
abbrev pair_heap : Heap
pair_heap =
    set_space (λ _. no_space) 0
      (record { start = 65536; next = 65536; limit = 589824; rem_limit = 589824 })

abbrev pair_memory : Memory
pair_memory a = if a == 65536 then 2048 else if a == 65544 then 7 else if a == 65552 then 300 else 0

abbrev code_range : CodeRange
code_range = record { code_start = 256; code_end = 512 }

abbrev no_blocks : Blocks
no_blocks = record { count = 0; size = λ _. 0; tag = λ _. 0; word = λ _ _. 0 }

IsShallow-field :
    (i : ℕ)
    → i < wosize_val pair_memory 65544
    → IsShallow blocks pair_heap code_range pair_memory 0 (field pair_memory 65544 i)
unfolding is_long in_certirocq_heap wosize_hd
IsShallow-field zero lt = inl refl
IsShallow-field (suc zero) lt = inr refl
IsShallow-field (suc (suc i)) lt = absurd (omega arith)

some_fields : 1 ≤ wosize_val pair_memory 65544
unfolding wosize_hd
some_fields = omega arith

pair-IsShallow : IsShallow blocks pair_heap code_range pair_memory 1 65544
pair-IsShallow = inr (inr (some_fields, IsShallow-field))

copy_value-Copies_example :
    Copies blocks pair_heap code_range pair_memory 65544 no_blocks
      (copy_value blocks pair_heap code_range pair_memory 1 65544 no_blocks)
copy_value-Copies_example =
    copy_value-Copies blocks pair_heap code_range pair_memory blocks-OcamlLaws 1 65544 no_blocks
      pair-IsShallow

abbrev fields_of : Option (ℕ × Blocks) → ℕ × ℕ × ℕ
fields_of none = (0, 0, 0)
fields_of (some (r, s)) = (r, s.word r 0, s.word r 1)

copy_value_runs :
    fields_of (copy_value blocks pair_heap code_range pair_memory 1 65544 no_blocks) ≡ (4096, 7, 1)
unfolding copy_value wosize_hd tag_hd
copy_value_runs = refl

-- A compiled program that returns this pair for whatever it is given.
abbrev pair_program : Program
pair_program = record { body = λ w. (3, w); call = λ f a w. if f == 3 then (5, w) else (65544, w) }

abbrev sites : Sites
sites = record { malloced_heap = 16; malloced_nursery = 65536; malloced_tinfo = 32; args = λ _. 0 }

abbrev new_thread : ThreadInfo
new_thread = record {
  alloc = 65536;
  limit = 589824;
  heap = some pair_heap;
  args = λ _. 0;
  fp = [];
  nalloc = 0;
  odata = 0;
}

made : make_tinfo 16 65536 32 (λ _. 0) ≡ ok new_thread
unfolding make_tinfo
made = refl

-- The linker lists one object, whose second segment is the code of the program at 300.
abbrev objects : List (ℕ × List Phdr)
objects =
    (
      200,
      record { p_type = 1; p_flags = 4; p_vaddr = 0; p_memsz = 4096 }
          ∷ record { p_type = 1; p_flags = 5; p_vaddr = 56; p_memsz = 256 }
          ∷ [],
    )
    ∷ []

abbrev loaded : Loaded
loaded = record { objects = objects; body = 300; code = record { code_start = 0; code_end = 0 } }

found : find_code objects 300 (record { code_start = 0; code_end = 0 }) ≡ code_range
unfolding find_code
found = refl

run_pipeline-IsRun_example :
    IsRun blocks pair_heap code_range pair_memory no_blocks 65544 16
      (run_pipeline blocks pair_program (λ _. pair_memory) sites loaded 1 1 1 no_blocks)
unfolding find_code
run_pipeline-IsRun_example =
    run_pipeline-IsRun blocks pair_program (λ _. pair_memory) sites loaded 1 1 1 no_blocks pair_heap
      blocks-OcamlLaws new_thread made refl pair-IsShallow

-- An OCaml side that counts the times that the lock has been released, with the lock, the number of
-- roots and the value of the root, and with a minor heap whose values move up by 8.
abbrev Process : Type 0
Process = ℕ × Bool × ℕ × ℕ

abbrev runtime : Runtime Process
runtime = record {
  caml_minor_collection = λ w. (λ v. v + 8, w);
  caml_acquire_runtime_system = λ w. (w.0, true, w.2, w.3);
  caml_release_runtime_system = λ w. (w.0 + 1, false, w.2, w.3);
  caml_register_generational_global_root = λ v w. (w.0, w.1, w.2 + 1, v);
  caml_modify_generational_global_root = λ v w. (w.0, w.1, w.2, v);
  caml_remove_generational_global_root = λ w. (w.0, w.1, w.2 - 1, w.3);
  root = λ w. w.3;
  caml_c_thread_register = λ w. (true, w);
  caml_c_thread_unregister = λ w. w;
  printf = λ t w. w;
  pthread_attr_setstacksize = λ size. ltb size (2 ^ 34);
  pthread_create = true;
  getenv = λ name. some (b'6' ∷ []);
  strtoul = λ text. 6;
}

abbrev holds : Process → Bool
holds w = w.1

abbrev roots : Process → ℕ
roots w = w.2

runtime-RuntimeLaws : RuntimeLaws runtime holds roots
runtime-RuntimeLaws = record {
  acquire = λ w h. (refl, refl);
  release = λ w h. (refl, refl);
  collection = λ w h. (h, refl);
  register = λ w h. (h, refl);
  unregister = λ w h. (h, refl);
  printf = λ t w h. (h, refl);
  modify = λ v w h. (h, refl);
  add_root = λ v w h. (h, refl);
  remove_root = λ w h some_root. (h, omega arith);
}

-- A compiler that adds up its arguments and the releases.
abbrev adding : (opts prog : ℕ) → Process → Result (ℕ × Process)
adding opts prog w = ok (opts + prog + w.0, w)

certirocq_pipeline_wrapper-run_example :
    let once =
      RunsOnce runtime holds roots
        (certirocq_pipeline_wrapper runtime adding 100 200 (0, true, 0, 0))
        (adding 108 208)
        1
        (0, true, 0, 0) in
    (true ≡ true
      → once (1, true, 1, 1) (finish_thread runtime holds roots runtime-RuntimeLaws adding))
    × (true ≡ false
        → once (1, true, 1, 1) (finish_here runtime holds roots runtime-RuntimeLaws adding))
unfolding pipeline_stack_size
certirocq_pipeline_wrapper-run_example =
    certirocq_pipeline_wrapper-run runtime holds roots runtime-RuntimeLaws adding 100 200
      (0, true, 0, 0) refl

-- The run on the new thread: its result, the two releases, the lock, and no root left.
wrapper_runs :
    certirocq_pipeline_wrapper runtime adding 100 200 (0, true, 0, 0) ≡ ok (317, (2, true, 0, 317))
unfolding certirocq_pipeline_wrapper
wrapper_runs = refl

pipeline_stack_size_bounds_example :
    (2 ^ 20 ≤ pipeline_stack_size runtime adding)
    × (pipeline_stack_size runtime adding < 2 ^ 64)
    × (0 < 6 → pipeline_stack_size runtime adding ≡ 2 ^ 20 * 6)
    × (◌≡◌ {A = ℕ} 6 0 → pipeline_stack_size runtime adding ≡ 2 ^ 32)
pipeline_stack_size_bounds_example = pipeline_stack_size_bounds runtime adding (omega arith)

abbrev doubling : (prog : ℕ) → Process → Result (ℕ × Process)
doubling prog w = ok (2 * prog + 1, w)

certirocqchk_wrapper-run_example :
    let once =
      RunsOnce runtime holds roots
        (certirocqchk_wrapper runtime doubling 100 (0, true, 0, 0))
        (doubling 108)
        0
        (0, true, 0, 0) in
    (true ≡ true → once (1, true, 0, 0) (λ r. (r.0, (r.1.0 + 1, true, r.1.2, r.1.3))))
    × (true ≡ false → once (1, true, 0, 0) (λ r. r))
unfolding checker_stack_size
certirocqchk_wrapper-run_example =
    certirocqchk_wrapper-run runtime holds roots runtime-RuntimeLaws doubling 100 (0, true, 0, 0)
      refl

checker_runs : certirocqchk_wrapper runtime doubling 100 (0, true, 0, 0) ≡ ok (217, (2, true, 0, 0))
unfolding certirocqchk_wrapper
checker_runs = refl
