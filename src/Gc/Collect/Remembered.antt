-- ===== src/Gc/Collect/Remembered.antt =====
-- `garbage_collect` when older objects point into the nursery, and the write barrier before it.
use certirocq.Prelude.{
  ℕ, suc, ◌+◌, ◌-◌, ◌*◌, ◌≤◌, ◌<◌, ◌≡◌, ◌≢◌, refl, ◌⊎◌, inl, inr, ◌∙◌, ap, sym, Bool-cases, ◌==◌,
  List, some, true, false, arith, leb, ltb, lt→ltb,
}
use certirocq.Values.{Memory, store, is_block}
use certirocq.Gc.Types.{Space, Heap, ThreadInfo, set_space, Result, ok, fail, words, ◌>>=◌}
use certirocq.Gc.Heap.{resume, certirocq_modify}
use certirocq.Gc.Copy.Blocks.{unmoved-le}
use certirocq.Gc.Copy.Invariant.{from_ptr}
use certirocq.Gc.Copy.Place.{NotFrom}
use certirocq.Gc.Copy.Roots.{InRoots}
use certirocq.Gc.Copy.{is_from}
use certirocq.Gc.Generation.Laws.{IsTraced, Image}
use certirocq.Gc.Generation.Remembered.{spare_layout, InCells, IsRemset, do_generation-IsTraced}
use certirocq.Gc.Collect.{has_room, with_next, close_nursery, garbage_collect}
use certirocq.Gc.Collect.Laws.{collect_from-resume, resume_fits}

-- What a minor collection leaves for the mutator: the thread with a whole nursery, the graph
-- traced from the roots and the remembered cells, and the cells remembered in generation 1.
pub record IsResumed (ti : ThreadInfo) (h' : Heap) (sizes : List ℕ) (n : ℕ) (m : Memory)
    (ti' : ThreadInfo) (m' : Memory) (h'' : Heap) : Type 0 where
  pub thread : ti' ≡ record ti { alloc = (h' 0).start; limit = (h' 0).rem_limit; heap = some h'' }
  pub nursery : h'' 0 ≡ record (h' 0) { next = (h' 0).start; limit = (h' 0).rem_limit }
  pub traced :
      IsTraced
        (spare_layout n (h' 0) (h' 1) sizes m)
        (λ p. InRoots ti.fp p ⊎ InCells (h' 0) (h' 1) sizes n m p)
        m'
        (h'' 1).next
  pub others :
      (x : ℕ)
      → NotFrom (spare_layout n (h' 0) (h' 1) sizes m) x
      → (x < (h' 1).next) ⊎ ((h' 1).limit ≤ x)
      → ¬ (InRoots ti.fp x ⊎ InCells (h' 0) (h' 1) sizes n m x)
      → m' x ≡ m x
  pub remembered :
      (p : ℕ)
      → InCells (h' 0) (h' 1) sizes n m p
      → from_ptr (spare_layout n (h' 0) (h' 1) sizes m) (m p) ≡ true
      → (a : ℕ) × ((h'' 1).limit ≤ a) × (a < (h' 1).limit) × (m' a ≡ p)
  pub ordered : ((h'' 1).next ≤ (h'' 1).limit) × ((h'' 1).limit ≤ (h' 1).limit)

-- A minor collection with a remembered set of `n` cells. Generation 1 has room for what the nursery
-- holds, the remembered set and another full nursery; the request fits the nursery. Then
-- `garbage_collect` returns to the mutator with the whole nursery free, the words of the remembered
-- set included, no other field of the thread but the heap has changed, the live graph is the same,
-- the remembered cells are updated like the roots, those that pointed into the nursery are
-- remembered in generation 1, and no word outside the spaces but the roots and these cells changes.
pub garbage_collect-IsResumed :
    (malloc : ℕ → ℕ) (ti : ThreadInfo) (m : Memory) (h h' : Heap) (sizes : List ℕ) (n : ℕ)
    → ti.heap ≡ some h
    → with_next malloc 0 (close_nursery ti h) ≡ ok h'
    → IsRemset (h' 0) (h' 1) sizes n m ti.fp
    → (h' 1).next + ((h' 0).next - (h' 0).start) + 8 * n + ((h' 0).rem_limit - (h' 0).start)
      ≤ (h' 1).limit
    → ti.nalloc ≤ words (h' 0).start (h' 0).rem_limit
    → (ti' : ThreadInfo) × (m' : Memory) × (h'' : Heap) × (garbage_collect malloc ti m
        ≡ ok (ti', m'))
      × IsResumed ti h' sizes n m ti' m' h''
unfolding garbage_collect
garbage_collect-IsResumed malloc ti m h h' sizes n heap created r room request =
    let (g, copied, traced, others, remembered, from, to, within, lower, least) =
      do_generation-IsTraced (h' 0) (h' 1) sizes n ti.fp m r in
    let h'' = set_space (set_space h' 0 g.from) 1 g.to in
    let start : g.from.start ≡ (h' 0).start = ap (λ (s : Space). s.start) from in
    let limit : g.from.limit ≡ (h' 0).rem_limit = ap (λ (s : Space). s.limit) from in
    let rem : g.from.rem_limit ≡ (h' 0).rem_limit = ap (λ (s : Space). s.rem_limit) from in
    let size = unmoved-le sizes (h' 0).start (h' 0).next m r.layout.tiles in
    let enough : has_room 0 h'' ≡ true = le→leb _ _ (omega (arith, traced.bounded)) in
    let fits : resume h'' ti
        ≡ ok (record ti { alloc = g.from.start; limit = g.from.limit; heap = some h'' }) =
      resume_fits h'' ti (rw (start, limit) request) in
    (
      record ti { alloc = (h' 0).start; limit = (h' 0).rem_limit; heap = some h'' },
      g.mem,
      h'',
      rw heap (
          collect_from-resume malloc 41 0 ti (record { heap = close_nursery ti h; mem = m }) h' g
            created copied enough
          ∙ rw (fits, start, limit) refl),
      record {
        thread = refl;
        nursery = from;
        traced = traced;
        others = others;
        remembered = remembered;
        ordered = omega arith;
      },
    )
  where
    le→leb : (a b : ℕ) → a ≤ b → leb a b ≡ true
    le→leb a b le = ground arith

abbrev nursery_of : Heap → Result Heap → Space
nursery_of k (ok h) = h 0
nursery_of k (fail x) = k 0

with_new_nursery :
    (k h' : Heap) (r : Result Space) → (r >>= λ s. ok (set_space k 1 s)) ≡ ok h' → h' 0 ≡ k 0
with_new_nursery k h' (ok s) e = sym (ap (nursery_of k) e)
with_new_nursery k h' (fail x) e = sym (ap (nursery_of k) e)

-- The next generation's creation leaves the nursery alone.
with_next_nursery : (malloc : ℕ → ℕ) (k h' : Heap) → with_next malloc 0 k ≡ ok h' → h' 0 ≡ k 0
unfolding with_next
with_next_nursery malloc k h' e = elim (Bool-cases ((k 1).start == 0)) [
  | inl absent ↦ with_new_nursery k h' _ (rw absent at e)
  | inr exists ↦ sym (ap (nursery_of k) (rw exists at e))
]

-- The mutator stores a pointer into an older object with `certirocq_modify`, on a nursery with a
-- free word, and the nursery is collected next, under the conditions of a minor collection. Then
-- the collection returns, the older object's cell holds the new address of what was stored, or the
-- value itself if that was not in the nursery, and if it was there the cell is remembered in
-- generation 1.
pub certirocq_modify-garbage_collect :
    (malloc : ℕ → ℕ) (ti : ThreadInfo) (m : Memory) (h h' : Heap) (sizes : List ℕ)
    (n p_cell p_val : ℕ)
    → ti.heap ≡ some h
    → ti.alloc < ti.limit
    → is_block p_val ≡ true
    → p_cell ≢ ti.limit - 8
    → is_from (h 0).start (ti.limit - 8) p_cell ≡ false
    → with_next malloc 0 (close_nursery (record ti { limit = ti.limit - 8 }) h) ≡ ok h'
    → IsRemset
        (h' 0)
        (h' 1)
        sizes
        (suc n)
        (store (store m p_cell p_val) (ti.limit - 8) p_cell)
        ti.fp
    → (h' 1).next + ((h' 0).next - (h' 0).start) + 8 * suc n + ((h' 0).rem_limit - (h' 0).start)
      ≤ (h' 1).limit
    → ti.nalloc ≤ words (h' 0).start (h' 0).rem_limit
    → let L =
        spare_layout
          (suc n)
          (h' 0)
          (h' 1)
          sizes
          (store (store m p_cell p_val) (ti.limit - 8) p_cell) in
      (ti' : ThreadInfo) × (m' : Memory) × (h'' : Heap) × ((certirocq_modify ti m p_cell p_val
          >>= λ w. garbage_collect malloc w.0 w.1)
        ≡ ok (ti', m'))
      × (ti'.heap ≡ some h'')
      × Image L m' p_val (m' p_cell)
      × (from_ptr L p_val ≡ true
          → (a : ℕ) × ((h'' 1).limit ≤ a) × (a < (h' 1).limit) × (m' a ≡ p_cell))
unfolding certirocq_modify
certirocq_modify-garbage_collect malloc ti m h h' sizes n p_cell p_val heap free ptr apart outside
      created r room request =
    let passes : ltb ti.alloc ti.limit ≡ true = lt→ltb ti.alloc ti.limit free in
    let e =
      with_next_nursery malloc (close_nursery (record ti { limit = ti.limit - 8 }) h) h' created in
    let start : (h' 0).start ≡ (h 0).start = ap (λ (s : Space). s.start) e in
    let limit : (h' 0).limit ≡ ti.limit - 8 = ap (λ (s : Space). s.limit) e in
    let (ti', m', h'', returns, resumed) =
      garbage_collect-IsResumed malloc (record ti { limit = ti.limit - 8 })
        (store (store m p_cell p_val) (ti.limit - 8) p_cell) h h' sizes (suc n) heap created r room
        request in
    let first : store (store m p_cell p_val) (ti.limit - 8) p_cell ((h' 0).limit + 8 * 0) ≡ p_cell =
      ground arith in
    let outside' : is_from (h' 0).start (h' 0).limit
          (store (store m p_cell p_val) (ti.limit - 8) p_cell ((h' 0).limit + 8 * 0))
        ≡ false =
      rw (first, start, limit) outside in
    let held : store (store m p_cell p_val) (ti.limit - 8) p_cell p_cell ≡ p_val = ground arith in
    (
      ti',
      m',
      h'',
      rw (passes, ptr) returns,
      ap (λ (t : ThreadInfo). t.heap) resumed.thread,
      rw held at (resumed.traced.roots p_cell (inr (0, omega arith, outside', sym first))),
      λ led. resumed.remembered p_cell (0, omega arith, outside', sym first) (rw held led),
    )
