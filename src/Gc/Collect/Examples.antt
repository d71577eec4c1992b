-- ===== src/Gc/Collect/Examples.antt =====
-- The small heap with an older object outside it, whose cell at 3000 has been made to point to the
-- first object of the nursery by the write barrier.
use certirocq.Prelude.{
  ℕ, zero, suc, ◌+◌, ◌-◌, ◌*◌, ◌≤◌, ◌<◌, ◌≡◌, refl, ◌⊎◌, inl, inr, [], ◌∷◌, some, true, false,
  arith,
}
use certirocq.Values.{Memory, store, is_block, wosize_hd}
use certirocq.Gc.Types.{Space, Heap, ThreadInfo, Result, ok, fail, ◌>>=◌}
use certirocq.Gc.Copy.Blocks.{unmoved}
use certirocq.Gc.Copy.Invariant.{Layout, IsLayout, Block, Good, bare, from_ptr}
use certirocq.Gc.Copy.Place.{IsRoot, NotFrom}
use certirocq.Gc.Copy.Roots.{InRoots}
use certirocq.Gc.Copy.Entry.{IsCell}
use certirocq.Gc.Generation.{Generation, do_generation}
use certirocq.Gc.Generation.Laws.{IsTraced, Image}
use certirocq.Gc.Generation.Remembered.{
  spare_layout, InCells, NotLog, IsRemset, do_generation-IsTraced,
}
use certirocq.Gc.Heap.{certirocq_modify}
use certirocq.Gc.Collect.{with_next, close_nursery, garbage_collect}
use certirocq.Gc.Collect.Remembered.{
  IsResumed, garbage_collect-IsResumed, certirocq_modify-garbage_collect,
}
use certirocq.Gc.Examples.{memory, frames, nursery, older, heap, thread}

abbrev pub modified : Memory
modified = store (store memory 3000 1008) 1056 3000

abbrev pub barred : Space
barred = record nursery { limit = 1056 }

abbrev pub small : Layout
small = spare_layout 1 barred older (1 ∷ 1 ∷ []) modified

headers : (v n : ℕ) → Block small v n → wosize_hd (modified (v - 8)) ≡ n
unfolding wosize_hd
headers v n (inl b) = rw (b.0, b.1)
headers v n (inr (inl b)) = rw (b.0, b.1)
headers v n (inr (inr b)) = absurd b

closed :
    (v n i : ℕ) → Block small v n → i < n → bare small v ≡ false → Good small (modified (v + 8 * i))
unfolding is_block
closed v n i (inl b) lt scans from =
    (1, let e : v + 8 * i ≡ 1008 = omega (arith, b) in rw e (inr (inl (refl, refl))))
closed v n i (inr (inl b)) lt scans from =
    let e : v + 8 * i ≡ 1024 = omega (arith, b) in absurd (odd (rw e at from))
  where
    odd : from_ptr small (modified 1024) ≡ true → ⊥
    odd e = cc
closed v n i (inr (inr b)) lt scans from = absurd b

small-IsLayout : IsLayout small
unfolding unmoved
small-IsLayout = record {
  tiles = omega arith;
  fits = omega arith;
  apart = inl (omega arith);
  aligned = refl;
  room = omega arith;
  headers = headers;
  closed = closed;
}

roots :
    (p : ℕ)
    → InRoots frames p
    → IsRoot small p × Good small (modified p) × NotLog barred older (1 ∷ 1 ∷ []) 1 modified p
unfolding is_block
roots p (inl (zero, lt, e)) =
    let at : p ≡ 100 = omega arith in
    (omega arith, λ from. (1, rw at (inl (refl, refl))), omega arith)
roots p (inl (suc zero, lt, e)) =
    let at : p ≡ 108 = omega arith in
    (omega arith, λ from. absurd (odd (rw at at from)), omega arith)
  where
    odd : from_ptr small (modified 108) ≡ true → ⊥
    odd e = cc
roots p (inl (suc (suc i), lt, e)) = absurd (omega arith)
roots p (inr r) = absurd r

even : is_block 1008 ≡ true
unfolding is_block
even = refl

cells : (i : ℕ) → i < 1 → IsCell small 2200 modified (modified (1056 + 8 * i))
cells zero lt = inr (omega arith, λ from. (1, inl (refl, refl)), omega arith)
cells (suc i) lt = absurd (omega arith)

cells_apart :
    (p : ℕ)
    → InCells barred older (1 ∷ 1 ∷ []) 1 modified p
    → NotLog barred older (1 ∷ 1 ∷ []) 1 modified p
cells_apart p (zero, lt, nf, e) = omega arith
cells_apart p (suc i, lt, nf, e) = absurd (omega arith)

pub remset : IsRemset barred older (1 ∷ 1 ∷ []) 1 modified frames
remset = record {
  layout = small-IsLayout;
  whole = refl;
  apart = inl (omega arith);
  ordered = omega arith;
  room = omega arith;
  cells = cells;
  cells_apart = cells_apart;
  roots = roots;
}

do_generation-IsTraced_example :
    (g : Generation) × (do_generation barred older frames modified ≡ ok g)
    × IsTraced small
        (λ p. InRoots frames p ⊎ InCells barred older (1 ∷ 1 ∷ []) 1 modified p)
        g.mem
        g.to.next
    × ((x : ℕ)
        → NotFrom small x
        → (x < 2000) ⊎ (2200 ≤ x)
        → ¬ (InRoots frames x ⊎ InCells barred older (1 ∷ 1 ∷ []) 1 modified x)
        → g.mem x ≡ modified x)
    × ((p : ℕ)
        → InCells barred older (1 ∷ 1 ∷ []) 1 modified p
        → from_ptr small (modified p) ≡ true
        → (a : ℕ) × (g.to.limit ≤ a) × (a < 2200) × (g.mem a ≡ p))
    × (g.from ≡ record barred { next = 1000; limit = 1064 })
    × (g.to ≡ record older { next = g.to.next; limit = g.to.limit })
    × (g.to.next ≤ g.to.limit)
    × (g.to.limit ≤ 2200)
    × (2200 ≤ g.to.limit + 8 * 1)
do_generation-IsTraced_example =
    do_generation-IsTraced barred older (1 ∷ 1 ∷ []) 1 frames modified remset

-- The code run on this heap: the cell leads to the copy, and is remembered at 2192.
abbrev read : ℕ → Result Generation → ℕ
read a (ok g) = g.mem a
read a (fail e) = 0

abbrev to_limit : Result Generation → ℕ
to_limit (ok g) = g.to.limit
to_limit (fail e) = 0

do_generation_runs :
    (read 3000 (do_generation barred older frames modified) ≡ 2008)
    × (read 2192 (do_generation barred older frames modified) ≡ 3000)
    × (to_limit (do_generation barred older frames modified) ≡ 2192)
unfolding do_generation
do_generation_runs = (refl, refl, refl)

abbrev pub barred_thread : ThreadInfo
barred_thread = record thread { limit = 1056 }

pub heap_exists :
    with_next (λ _. 0) 0 (close_nursery barred_thread heap) ≡ ok (close_nursery barred_thread heap)
unfolding with_next
heap_exists = refl

garbage_collect-IsResumed_example :
    (ti' : ThreadInfo) × (m' : Memory) × (h'' : Heap) × (garbage_collect
        (λ _. 0)
        barred_thread
        modified
      ≡ ok (ti', m'))
    × IsResumed barred_thread (close_nursery barred_thread heap) (1 ∷ 1 ∷ []) 1 modified ti' m' h''
garbage_collect-IsResumed_example =
    garbage_collect-IsResumed (λ _. 0) barred_thread modified heap
      (close_nursery barred_thread heap) (1 ∷ 1 ∷ []) 1 refl heap_exists remset (omega arith)
      (omega arith)

certirocq_modify-garbage_collect_example :
    (ti' : ThreadInfo) × (m' : Memory) × (h'' : Heap) × ((certirocq_modify thread memory 3000 1008
        >>= λ w. garbage_collect (λ _. 0) w.0 w.1)
      ≡ ok (ti', m'))
    × (ti'.heap ≡ some h'')
    × Image small m' 1008 (m' 3000)
    × (from_ptr small 1008 ≡ true → (a : ℕ) × ((h'' 1).limit ≤ a) × (a < 2200) × (m' a ≡ 3000))
certirocq_modify-garbage_collect_example =
    certirocq_modify-garbage_collect (λ _. 0) thread memory heap (close_nursery barred_thread heap)
      (1 ∷ 1 ∷ []) 0 3000 1008 refl (omega arith) even (omega arith) refl heap_exists remset
      (omega arith) (omega arith)
