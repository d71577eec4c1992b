-- ===== src/Gc/Examples.antt =====
-- A small heap: two objects in the nursery, the first of which points to the second, and two roots,
-- of which the second is an integer. The theorems of the collector at this heap.
use certirocq.Prelude.{
  ℕ, zero, suc, ◌+◌, ◌-◌, ◌*◌, ◌<◌, ◌≡◌, ◌≢◌, refl, inl, inr, List, [], ◌∷◌, some, true, false,
  arith, ◌==◌, if◌then◌else◌,
}
use certirocq.Values.{Memory, is_block, wosize_hd}
use certirocq.Gc.Types.{
  Space, no_space, StackFrame, Heap, ThreadInfo, set_space, Result, ok, fail, nursery_size,
}
use certirocq.Gc.Copy.Blocks.{unmoved}
use certirocq.Gc.Copy.Invariant.{Layout, IsLayout, Block, Good, bare, from_ptr}
use certirocq.Gc.Copy.Place.{IsRoot}
use certirocq.Gc.Copy.Roots.{InRoots}
use certirocq.Gc.Generation.{Generation, do_generation}
use certirocq.Gc.Heap.{make_tinfo, certirocq_modify}
use certirocq.Gc.Heap.Laws.{IsSpace, IsThread, make_tinfo-IsThread, certirocq_modify-IsThread}
use certirocq.Gc.Generation.Laws.{layout, IsCollected, do_generation-IsCollected}

abbrev pub memory : Memory
memory a =
    if a == 100
    then 1008
    else if a == 108
    then 7
    else if a == 1000
    then 1024
    else if a == 1008
    then 1024
    else if a == 1016
    then 1024
    else if a == 1024
    then 9
    else 0

abbrev pub frames : List StackFrame
frames = record { next = 116; root = 100 } ∷ []

abbrev pub nursery : Space
nursery = record { start = 1000; next = 1032; limit = 1064; rem_limit = 1064 }

abbrev pub older : Space
older = record { start = 2000; next = 2000; limit = 2200; rem_limit = 2200 }

abbrev small : Layout
small = layout nursery older (1 ∷ 1 ∷ []) memory

headers : (v n : ℕ) → Block small v n → wosize_hd (memory (v - 8)) ≡ n
unfolding wosize_hd
headers v n (inl b) = rw (b.0, b.1)
headers v n (inr (inl b)) = rw (b.0, b.1)
headers v n (inr (inr b)) = absurd b

closed :
    (v n i : ℕ) → Block small v n → i < n → bare small v ≡ false → Good small (memory (v + 8 * i))
unfolding is_block
closed v n i (inl b) lt scans from =
    (1, let e : v + 8 * i ≡ 1008 = omega (arith, b) in rw e (inr (inl (refl, refl))))
closed v n i (inr (inl b)) lt scans from =
    let e : v + 8 * i ≡ 1024 = omega (arith, b) in absurd (odd (rw e at from))
  where
    odd : from_ptr small (memory 1024) ≡ true → ⊥
    odd e = cc
closed v n i (inr (inr b)) lt scans from = absurd b

small-IsLayout : IsLayout small
unfolding unmoved
small-IsLayout = record {
  tiles = omega arith;
  fits = omega arith;
  apart = inl (omega arith);
  aligned = refl;
  room = omega arith;
  headers = headers;
  closed = closed;
}

roots : (p : ℕ) → InRoots frames p → IsRoot small p × Good small (memory p)
unfolding is_block
roots p (inl (zero, lt, e)) =
    let at : p ≡ 100 = omega arith in
    ((omega arith, omega arith), λ from. (1, rw at (inl (refl, refl))))
roots p (inl (suc zero, lt, e)) =
    let at : p ≡ 108 = omega arith in
    ((omega arith, omega arith), λ from. absurd (odd (rw at at from)))
  where
    odd : from_ptr small (memory 108) ≡ true → ⊥
    odd e = cc
roots p (inl (suc (suc i), lt, e)) = absurd (omega arith)
roots p (inr r) = absurd r

do_generation-IsCollected_example :
    (g : Generation) × (do_generation nursery older frames memory ≡ ok g)
    × IsCollected small frames g.mem g.to.next
    × (g.from ≡ record nursery { next = 1000 })
    × (g.to ≡ record older { next = g.to.next })
do_generation-IsCollected_example =
    do_generation-IsCollected nursery older (1 ∷ 1 ∷ []) frames memory small-IsLayout roots refl

-- The code run on this heap: the root leads to the copy at 2008, whose field leads to the copy at
-- 2024, whose field is the integer.
abbrev read : ℕ → Result Generation → ℕ
read a (ok g) = g.mem a
read a (fail e) = 0

do_generation_runs :
    (read 100 (do_generation nursery older frames memory) ≡ 2008)
    × (read 2008 (do_generation nursery older frames memory) ≡ 2024)
    × (read 2024 (do_generation nursery older frames memory) ≡ 9)
unfolding do_generation
do_generation_runs = (refl, refl, refl)

abbrev pub heap : Heap
heap = set_space (set_space (λ _. no_space) 1 older) 0 nursery

abbrev pub thread : ThreadInfo
thread = record {
  alloc = 1032;
  limit = 1064;
  heap = some heap;
  args = λ _. 0;
  fp = frames;
  nalloc = 3;
  odata = 0;
}

thread-IsThread : IsThread thread heap
thread-IsThread = record {
  heap = refl;
  spaces = spaces;
  exists = omega arith;
  alloc = omega arith;
  limit = omega arith;
}
  where
    spaces : (i : ℕ) → IsSpace (heap i)
    spaces zero = omega arith
    spaces (suc zero) = omega arith
    spaces (suc (suc i)) =
        let e0 : (suc (suc i) == 0) ≡ false = ground arith in
        let e1 : (suc (suc i) == 1) ≡ false = ground arith in rw (e0, e1) (omega arith)

make_tinfo-IsThread_example :
    (ti : ThreadInfo) × (h : Heap) × (make_tinfo 16 4096 800000 (λ _. 0) ≡ ok ti)
    × IsThread ti h
    × ((h 0).start ≡ 4096)
    × ((h 0).next ≡ 4096)
    × ((h 0).limit ≡ 4096 + 8 * nursery_size)
    × ((h 0).rem_limit ≡ 4096 + 8 * nursery_size)
    × (ti.alloc ≡ 4096)
    × (ti.limit ≡ 4096 + 8 * nursery_size)
    × ((i : ℕ) → 0 < i → (h i).start ≡ 0)
make_tinfo-IsThread_example =
    make_tinfo-IsThread 16 4096 800000 (λ _. 0) (omega arith) (omega arith) (omega arith)

certirocq_modify-IsThread_example :
    (ti' : ThreadInfo) × (m' : Memory) × (certirocq_modify thread memory 2008 1008 ≡ ok (ti', m'))
    × IsThread ti' heap
    × (m' 2008 ≡ 1008)
    × (is_block 1008 ≡ true → (ti'.limit ≡ 1056) × (m' ti'.limit ≡ 2008))
    × (is_block 1008 ≡ false → ti' ≡ thread)
    × ((a : ℕ) → a ≢ 2008 → a ≢ 1056 → m' a ≡ memory a)
certirocq_modify-IsThread_example =
    certirocq_modify-IsThread thread heap memory 2008 1008 thread-IsThread (omega arith)
      (omega arith)
