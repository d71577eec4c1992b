-- ===== src/Gc/Alloc.antt =====
-- How the primitives of the runtime take words from the nursery: the test of the room that is left,
-- which calls the collector when it fails, and the blocks that they build.
use certirocq.Prelude.{ℕ, ◌+◌, Bool, ◌||◌, ltb, leb, if◌then◌else◌}
use certirocq.Values.{Memory, store}
use certirocq.Gc.Types.{ThreadInfo, Result, ok, words}
use certirocq.Gc.Collect.{garbage_collect}

-- A thread with the memory.
abbrev pub World : Type 0
World = ThreadInfo × Memory

-- `n <= limit - alloc`, compared as unsigned words: a negative difference is a large one.
abbrev pub has_words : ℕ → ThreadInfo → Bool
has_words n ti = ltb ti.limit ti.alloc || leb n (words ti.alloc ti.limit)

-- `if (!(n <= limit - alloc)) { nalloc = n; garbage_collect(tinfo); }`
unfoldable pub reserve : (malloc : ℕ → ℕ) → ℕ → World → Result World
unfolding garbage_collect
reserve malloc n (ti, m) =
    if has_words n ti then ok (ti, m) else garbage_collect malloc (record ti { nalloc = n }) m

-- A block of one field, and one of two fields, at the allocation pointer.
abbrev pub put_one : (hd a : ℕ) → World → ℕ × World
put_one hd a (ti, m) = (
  ti.alloc + 8,
  (record ti { alloc = ti.alloc + 16 }, store (store m ti.alloc hd) (ti.alloc + 8) a),
)

abbrev pub put_two : (hd a b : ℕ) → World → ℕ × World
put_two hd a b (ti, m) = (
  ti.alloc + 8,
  (
    record ti { alloc = ti.alloc + 24 },
    store (store (store m ti.alloc hd) (ti.alloc + 8) a) (ti.alloc + 16) b,
  ),
)
