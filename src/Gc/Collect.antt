-- ===== src/Gc/Collect.antt =====
-- `garbage_collect`, `garbage_collect_all` and `export_heap` of runtime/gc_stack.c.
pub mod Laws
pub mod Remembered
pub mod View
pub mod Sizes
pub mod Restart
pub mod Examples
use certirocq.Prelude.{
  ℕ, zero, suc, ◌+◌, ◌-◌, ◌*◌, List, [], ◌∷◌, none, some, Bool, ◌==◌, leb, if◌then◌else◌,
}
use certirocq.Values.{Memory, store, is_block}
use certirocq.Gc.Types.{
  StackFrame, Heap, ThreadInfo, set_space, max_spaces, ratio, Result, ok, fail, words, null_heap,
  out_of_generations, ◌>>=◌, ◌>>◌,
}
use certirocq.Gc.Heap.{create_space, create_heap, resume}
use certirocq.Gc.Generation.{do_generation}

-- A heap with the memory.
pub record Collected : Type 0 where
  pub heap : Heap
  pub mem : Memory

-- Generation `i + 1` is created when it does not exist yet; `malloc` says what the allocator
-- returns for each generation.
unfoldable pub with_next : (malloc : ℕ → ℕ) → ℕ → Heap → Result Heap
unfolding create_space
with_next malloc i h =
    if (h (i + 1)).start == 0
    then (do
      s ← create_space (malloc (i + 1)) (ratio * words (h i).start (h i).rem_limit)
      ok (set_space h (i + 1) s))
    else ok h

-- Generation `i` is collected into the next.
unfoldable pub collect_into : ℕ → List StackFrame → Collected → Result Collected
unfolding do_generation
collect_into i frames c = do
  g ← do_generation (c.heap i) (c.heap (i + 1)) frames c.mem
  ok (record { heap = set_space (set_space c.heap i g.from) (i + 1) g.to; mem = g.mem })

-- Whether generation `i + 1` has room for all that generation `i` can hold.
abbrev pub has_room : ℕ → Heap → Bool
has_room i h = leb (words (h i).start (h i).rem_limit) (words (h (i + 1)).next (h (i + 1)).limit)

-- The loop of `garbage_collect` from generation `i` on, with `n` rounds left.
unfoldable pub collect_from :
    (malloc : ℕ → ℕ) → ℕ → ℕ → ThreadInfo → Collected → Result (ThreadInfo × Memory)
unfolding with_next collect_into resume
collect_from malloc zero i ti c = fail out_of_generations
collect_from malloc (suc n) i ti c = do
  h ← with_next malloc i c.heap
  c' ← collect_into i ti.fp (record { heap = h; mem = c.mem })
  let later = collect_from malloc n (i + 1) ti c'
  if has_room i c'.heap then (do ti' ← resume c'.heap ti; ok (ti', c'.mem)) else later

-- The nursery as the mutator leaves it.
abbrev pub close_nursery : ThreadInfo → Heap → Heap
close_nursery ti h = set_space h 0 (record (h 0) { limit = ti.limit; next = ti.alloc })

unfoldable pub garbage_collect :
    (malloc : ℕ → ℕ) → ThreadInfo → Memory → Result (ThreadInfo × Memory)
unfolding collect_from
garbage_collect malloc ti m = elim ti.heap [
  | none ↦ fail null_heap
  | some h ↦
      collect_from malloc (max_spaces - 1) 0 ti (record { heap = close_nursery ti h; mem = m })
]

-- The loop of `garbage_collect_all`: the generation that holds everything in the end.
unfoldable pub collect_all_from : ℕ → ℕ → List StackFrame → Collected → Result (ℕ × Collected)
unfolding collect_into
collect_all_from zero i frames c = ok (i, c)
collect_all_from (suc n) i frames c =
    let later = (do c' ← collect_into i frames c; collect_all_from n (i + 1) frames c') in
    if (c.heap (i + 1)).start == 0 then ok (i, c) else later

-- A thread without a heap gets one, for which `malloced` and `nursery` are allocated.
unfoldable pub garbage_collect_all :
    (malloced nursery : ℕ) → ThreadInfo → Memory → Result (ℕ × ThreadInfo × Memory)
unfolding create_heap collect_all_from
garbage_collect_all malloced nursery ti m = do
  h ← elim ti.heap [ none ↦ create_heap malloced nursery | some h ↦ ok h ]
  (i, c) ← collect_all_from (max_spaces - 1) 0 ti.fp (record { heap = close_nursery ti h; mem = m })
  ok (i, record ti { heap = some c.heap }, c.mem)

-- The addresses that `export_heap` is given: of its local array of roots, and by `malloc`.
pub record ExportSites : Type 0 where
  pub roots : ℕ
  pub malloced_heap : ℕ
  pub malloced_nursery : ℕ
  pub malloced_fake : ℕ
  pub malloced_value : ℕ

abbrev pub export_frame : ExportSites → StackFrame
export_frame sites = record { next = sites.roots + 8; root = sites.roots }

-- The result is the value itself if that is not a pointer, and else the address of the object
-- that was copied first into a space of its own.
unfoldable pub export_heap :
    ExportSites → ThreadInfo → Memory → ℕ → Result (ℕ × ThreadInfo × Memory)
unfolding garbage_collect_all do_generation create_space is_block
export_heap sites ti m root =
    let rooted = store m sites.roots root in
    let ti' = record ti { fp = export_frame sites ∷ [] } in
    let exported = (do
      (i, ti'', m1) ← garbage_collect_all sites.malloced_heap sites.malloced_nursery ti' rooted
      h ← elim ti''.heap [ none ↦ fail null_heap | some h ↦ ok h ]
      fake ← create_space sites.malloced_fake (words (h i).start (h i).next)
      g1 ← do_generation (h i) fake ti''.fp m1
      value_sp ← create_space sites.malloced_value (words g1.to.start g1.to.next)
      g2 ← do_generation g1.to value_sp ti''.fp g1.mem
      ok (g2.to.start + 8, record ti'' { heap = some (set_space h i g1.from) }, g2.mem)) in
    if is_block root then exported else ok (root, ti', rooted)
