-- ===== src/Gc/Heap.antt =====
-- The spaces of the heap in runtime/gc_stack.c: creation, reset, release, the start of a thread
-- and what the collector hands back to the mutator. What `malloc` returns is an argument, 0 for
-- NULL.
pub mod Laws
pub mod Freed
use certirocq.Prelude.{
  ℕ, zero, suc, ◌+◌, ◌-◌, ◌*◌, ◌%◌, ◌^◌, List, [], ◌∷◌, ◌++◌, some, Bool, true, false, not, ◌==◌,
  ltb, leb, ◌&&◌, if◌then◌else◌,
}
use certirocq.Prelude.Int.{ℤ, pos, negsuc}
use certirocq.Word.{u64}
use certirocq.Int63.{eqb_ℤ}
use certirocq.Values.{Memory, store, is_block}
use certirocq.Gc.Types.{
  Space, no_space, Heap, ThreadInfo, set_space, max_spaces, nursery_size, Result, ok, fail, words,
  no_generation, no_heap, no_thread_info, nursery_too_small, assertion, check, ◌>>=◌, ◌>>◌,
}

unfoldable pub create_space : (malloced n : ℕ) → Result Space
create_space malloced n =
    if malloced == 0
    then fail no_generation
    else ok (record {
      start = malloced;
      next = malloced;
      limit = malloced + 8 * n;
      rem_limit = malloced + 8 * n;
    })

-- `malloced` is the block of descriptors, `nursery` that of generation 0.
unfoldable pub create_heap : (malloced nursery : ℕ) → Result Heap
unfolding create_space
create_heap malloced nursery = do
  check (not (malloced == 0)) no_heap
  s ← create_space nursery nursery_size
  ok (set_space (λ _. no_space) 0 s)

unfoldable pub make_tinfo : (heap nursery malloced : ℕ) (args : ℕ → ℕ) → Result ThreadInfo
unfolding create_heap
make_tinfo heap nursery malloced args = do
  h ← create_heap heap nursery
  check (not (malloced == 0)) no_thread_info
  ok (record {
    alloc = (h 0).start;
    limit = (h 0).limit;
    heap = some h;
    args = args;
    fp = [];
    nalloc = 0;
    odata = 0;
  })

-- `hi - lo` as an unsigned number, the way a comparison with one reads it.
abbrev pub unsigned_words : (lo hi : ℕ) → ℕ
unsigned_words lo hi = if leb lo hi then words lo hi else u64 (2 ^ 64 - words hi lo)

-- The mutator goes on in the nursery, if that has the room it asked for.
unfoldable pub resume : Heap → ThreadInfo → Result ThreadInfo
resume h ti =
    let lo = (h 0).start in
    let hi = (h 0).limit in
    if ltb (unsigned_words lo hi) ti.nalloc
    then fail nursery_too_small
    else ok (record ti { alloc = lo; limit = hi; heap = some h })

-- The loop of `reset_heap` from generation `i` on.
unfoldable pub reset_from : ℕ → ℕ → Heap → Heap
reset_from zero i h = h
reset_from (suc n) i h = reset_from n (i + 1) (set_space h i (record (h i) { next = (h i).start }))

unfoldable pub reset_heap : Heap → Heap
unfolding reset_from
reset_heap h = reset_from max_spaces 0 h

-- The loop of `free_heap` from generation `i` on: the blocks that are given back.
unfoldable pub freed_from : ℕ → ℕ → Heap → List ℕ
freed_from zero i h = []
freed_from (suc n) i h =
    let rest = freed_from n (i + 1) h in if (h i).start == 0 then rest else (h i).start ∷ rest

-- The block of the descriptors is at `address`.
unfoldable pub free_heap : (address : ℕ) → Heap → List ℕ
unfolding freed_from
free_heap address h = freed_from max_spaces 0 h ++ address ∷ []

-- `in_heap`, from generation `i` on.
unfoldable pub in_heap_from : ℕ → ℕ → Heap → ℕ → Bool
in_heap_from zero i h v = false
in_heap_from (suc n) i h v =
    let rest = in_heap_from n (i + 1) h v in
    if not ((h i).start == 0) && (leb (h i).start v && leb v (h i).limit) then true else rest

unfoldable pub in_heap : Heap → ℕ → Bool
unfolding in_heap_from
in_heap h v = in_heap_from max_spaces 0 h v

-- `(int)(hi - lo)`.
abbrev pub int_words : (lo hi : ℕ) → ℤ
int_words lo hi =
    let w = unsigned_words lo hi % 2 ^ 32 in
    if ltb w (2 ^ 31) then pos w else negsuc (2 ^ 32 - 1 - w)

-- The lines of `print_heapsize` from generation `i` on: its number, size, and the words that are
-- allocated and remembered.
unfoldable pub heapsize_from : ℕ → ℕ → Heap → List (ℕ × ℤ × ℤ × ℤ)
heapsize_from zero i h = []
heapsize_from (suc n) i h =
    let rest = heapsize_from n (i + 1) h in
    let allocated = int_words (h i).start (h i).next in
    let remembered = int_words (h i).limit (h i).rem_limit in
    if eqb_ℤ allocated (pos 0) && eqb_ℤ remembered (pos 0)
    then rest
    else (i, int_words (h i).start (h i).rem_limit, allocated, remembered) ∷ rest

unfoldable pub print_heapsize : Heap → List (ℕ × ℤ × ℤ × ℤ)
unfolding heapsize_from
print_heapsize h = heapsize_from max_spaces 0 h

-- The write barrier: a cell that gets a pointer is remembered below the nursery's limit.
unfoldable pub certirocq_modify :
    ThreadInfo → Memory → (p_cell p_val : ℕ) → Result (ThreadInfo × Memory)
unfolding is_block
certirocq_modify ti m p_cell p_val = do
  check (ltb ti.alloc ti.limit) assertion
  let written = store m p_cell p_val
  ok (
      if is_block p_val
      then (record ti { limit = ti.limit - 8 }, store written (ti.limit - 8) p_cell)
      else (ti, written))
