-- ===== src/Gc/Heap/Laws.antt =====
-- The invariant of the space descriptors, and the operations that establish and keep it.
use certirocq.Prelude.{
  ℕ, zero, suc, ◌+◌, ◌-◌, ◌*◌, ◌≤◌, ◌<◌, ◌≡◌, ◌≢◌, refl, ◌⊎◌, inl, inr, [], some, Bool, Bool-cases,
  true, false, not, arith, ◌==◌, ==_iff, ltb, leb, if◌then◌else◌, ◌&&◌, ◌↔◌, lt→ltb,
}
use certirocq.Values.{Memory, store, is_block}
use certirocq.Gc.Types.{
  Space, no_space, Heap, ThreadInfo, set_space, max_spaces, nursery_size, ok, fail,
  nursery_too_small,
}
use certirocq.Gc.Heap.{
  make_tinfo, resume, unsigned_words, reset_from, reset_heap, certirocq_modify, in_heap_from,
  in_heap,
}

-- A space is absent, or its parts are in order.
pub record IsSpace (s : Space) : Type 0 where
  pub absent : s.start ≡ 0 → (s.next ≡ 0) × (s.limit ≡ 0) × (s.rem_limit ≡ 0)
  pub ordered : (s.start ≤ s.next) × (s.next ≤ s.limit) × (s.limit ≤ s.rem_limit)

abbrev pub IsHeap : Heap → Type 0
IsHeap h = (i : ℕ) → IsSpace (h i)

-- The mutator's view of its nursery.
pub record IsThread (ti : ThreadInfo) (h : Heap) : Type 0 where
  pub heap : ti.heap ≡ some h
  pub spaces : IsHeap h
  pub exists : (h 0).start ≢ 0
  pub alloc : ((h 0).start ≤ ti.alloc) × (ti.alloc ≤ ti.limit)
  pub limit : ti.limit ≤ (h 0).rem_limit

IsSpace-none : IsSpace no_space
IsSpace-none = omega arith

-- When the three allocations succeed, a new thread has an empty nursery of 65536 words at the
-- address that was allocated for it, all of which are free and none remembered, no other generation,
-- and its spaces are in order.
pub make_tinfo-IsThread :
    (heap nursery malloced : ℕ) (args : ℕ → ℕ)
    → heap ≢ 0
    → nursery ≢ 0
    → malloced ≢ 0
    → (ti : ThreadInfo) × (h : Heap) × (make_tinfo heap nursery malloced args ≡ ok ti)
      × IsThread ti h
      × ((h 0).start ≡ nursery)
      × ((h 0).next ≡ nursery)
      × ((h 0).limit ≡ nursery + 8 * nursery_size)
      × ((h 0).rem_limit ≡ nursery + 8 * nursery_size)
      × (ti.alloc ≡ nursery)
      × (ti.limit ≡ nursery + 8 * nursery_size)
      × ((i : ℕ) → 0 < i → (h i).start ≡ 0)
unfolding make_tinfo
make_tinfo-IsThread heap nursery malloced args h1 h2 h3 =
    let e1 : (heap == 0) ≡ false = ground arith in
    let e2 : (nursery == 0) ≡ false = ground arith in
    let e3 : (malloced == 0) ≡ false = ground arith in
    (
      record {
        alloc = nursery;
        limit = nursery + 8 * nursery_size;
        heap = some (set_space (λ _. no_space) 0 full);
        args = args;
        fp = [];
        nalloc = 0;
        odata = 0;
      },
      set_space (λ _. no_space) 0 full,
      rw (e1, e2, e3),
      record {
        heap = refl;
        spaces = spaces;
        exists = h2;
        alloc = omega arith;
        limit = omega arith;
      },
      refl,
      refl,
      refl,
      refl,
      refl,
      refl,
      later,
    )
  where
    full : Space
    full = record {
      start = nursery;
      next = nursery;
      limit = nursery + 8 * nursery_size;
      rem_limit = nursery + 8 * nursery_size;
    }

    spaces : (i : ℕ) → IsSpace (set_space (λ _. no_space) 0 full i)
    spaces zero = record { absent = λ e. absurd (h2 e); ordered = omega arith }
    spaces (suc i) = let e : (suc i == 0) ≡ false = ground arith in rw e IsSpace-none

    later : (i : ℕ) → 0 < i → (set_space (λ _. no_space) 0 full i).start ≡ 0
    later zero lt = absurd (omega arith)
    later (suc i) lt = let e : (suc i == 0) ≡ false = ground arith in rw e refl

-- The two cases of `resume`.
pub resume_cases :
    (h : Heap) (ti : ThreadInfo)
    → (ti.nalloc ≤ unsigned_words (h 0).start (h 0).limit)
        × (resume h ti ≡ ok (record ti { alloc = (h 0).start; limit = (h 0).limit; heap = some h }))
      ⊎ (unsigned_words (h 0).start (h 0).limit < ti.nalloc)
        × (resume h ti ≡ fail nursery_too_small)
unfolding resume
resume_cases h ti = elim (Bool-cases (ltb (unsigned_words (h 0).start (h 0).limit) ti.nalloc)) [
  | inl short ↦ inr (ground arith, rw short)
  | inr fits ↦ inl (ground arith, rw fits)
]

-- The loop of `reset_heap` empties the generations from `i` up to `i + n`, and no other.
reset_from_lem :
    (n i : ℕ) (h : Heap) (j : ℕ)
    → reset_from n i h j
      ≡ (if leb i j && ltb j (i + n) then record (h j) { next = (h j).start } else h j)
unfolding reset_from
reset_from_lem zero i h j = let out : (leb i j && ltb j (i + 0)) ≡ false = ground arith in rw out
reset_from_lem (suc n) i h j = elim (Bool-cases (j == i)) [
  | inl at ↦
      let e : j ≡ i = (==_iff j i).0 at in
      let past : (leb (i + 1) j && ltb j (i + 1 + n)) ≡ false = ground arith in
      let here : (leb i j && ltb j (i + suc n)) ≡ true = ground arith in
      rw (reset_from_lem n (i + 1) _ j, past, here, at, e)
  | inr ne ↦
      let same : (leb (i + 1) j && ltb j (i + 1 + n)) ≡ (leb i j && ltb j (i + suc n)) =
        ground arith in
      rw (reset_from_lem n (i + 1) _ j, same, ne)
]

-- `reset_heap` empties every generation and keeps its storage, its limit and its remembered set.
pub reset_heap-all :
    (h : Heap) (i : ℕ) → i < max_spaces → reset_heap h i ≡ record (h i) { next = (h i).start }
unfolding reset_heap
reset_heap-all h i lt =
    let inside : (leb 0 i && ltb i (0 + max_spaces)) ≡ true = ground arith in
    rw (reset_from_lem max_spaces 0 h i, inside)

in_heap_from_iff :
    (n i : ℕ) (h : Heap) (v : ℕ)
    → (in_heap_from n i h v ≡ true) ↔ (
        (j : ℕ) × (i ≤ j) × (j < i + n) × ((h j).start ≢ 0) × ((h j).start ≤ v) × (v ≤ (h j).limit))
unfolding in_heap_from
in_heap_from_iff zero i h v = (λ e. cc, λ (j, lo, hi, set, above, below). absurd (omega arith))
in_heap_from_iff (suc n) i h v = elim (Bool-cases here) [
  | inl inside ↦ (
    λ e. (i, omega arith, omega arith, ground arith, ground arith, ground arith),
    λ found. rw inside,
  )
  | inr not_here ↦ (
    λ e.
        let (j, lo, hi, set, above, below) =
          (in_heap_from_iff n (i + 1) h v).0 (rw not_here at e) in
        (j, omega arith, omega arith, set, above, below),
    λ (j, lo, hi, set, above, below). rw not_here (elim (Bool-cases (j == i)) [
      | inl at ↦
          let e : j ≡ i = (==_iff j i).0 at in
          absurd (excluded (rw e at set) (rw e at above) (rw e at below) not_here)
      | inr ne ↦
          (in_heap_from_iff n (i + 1) h v).1 (j, ground arith, omega arith, set, above, below)
    ]),
  )
]
  where
    here : Bool
    here = not ((h i).start == 0) && (leb (h i).start v && leb v (h i).limit)

    excluded :
        (h i).start ≢ 0
        → (h i).start ≤ v
        → v ≤ (h i).limit
        → (not ((h i).start == 0) && (leb (h i).start v && leb v (h i).limit)) ≡ false
        → ⊥
    excluded set above below e = ground arith

-- `in_heap` finds exactly the addresses from the start to the limit of a generation that exists.
pub in_heap_iff :
    (h : Heap) (v : ℕ)
    → (in_heap h v ≡ true)
      ↔ ((j : ℕ) × (j < max_spaces) × ((h j).start ≢ 0) × ((h j).start ≤ v) × (v ≤ (h j).limit))
unfolding in_heap
in_heap_iff h v =
    let (there, back) = in_heap_from_iff max_spaces 0 h v in
    (
      λ e. let (j, lo, hi, set, above, below) = there e in (j, omega arith, set, above, below),
      λ (j, hi, set, above, below). back (j, omega arith, omega arith, set, above, below),
    )

-- The write barrier on a nursery with a free word: the cell is written, a pointer is remembered in
-- the word below the nursery's limit, which becomes the limit, and no other word changes.
pub certirocq_modify-IsThread :
    (ti : ThreadInfo) (h : Heap) (m : Memory) (p_cell p_val : ℕ)
    → IsThread ti h
    → ti.alloc + 8 ≤ ti.limit
    → p_cell ≢ ti.limit - 8
    → (ti' : ThreadInfo) × (m' : Memory) × (certirocq_modify ti m p_cell p_val ≡ ok (ti', m'))
      × IsThread ti' h
      × (m' p_cell ≡ p_val)
      × (is_block p_val ≡ true → (ti'.limit ≡ ti.limit - 8) × (m' ti'.limit ≡ p_cell))
      × (is_block p_val ≡ false → ti' ≡ ti)
      × ((a : ℕ) → a ≢ p_cell → a ≢ ti.limit - 8 → m' a ≡ m a)
unfolding certirocq_modify
certirocq_modify-IsThread ti h m p_cell p_val t room apart =
    let passes : ltb ti.alloc ti.limit ≡ true = lt→ltb ti.alloc ti.limit (omega arith) in
    elim (Bool-cases (is_block p_val)) [
      | inl ptr ↦ (
        record ti { limit = ti.limit - 8 },
        store (store m p_cell p_val) (ti.limit - 8) p_cell,
        rw (passes, ptr),
        record {
          heap = t.heap;
          spaces = t.spaces;
          exists = t.exists;
          alloc = omega (arith, t.alloc);
          limit = omega (arith, t.limit);
        },
        ground arith,
        λ _. (refl, ground arith),
        λ e. absurd (opposite (is_block p_val) ptr e),
        λ a ne ne'. ground arith,
      )
      | inr int ↦ (
        ti,
        store m p_cell p_val,
        rw (passes, int),
        t,
        ground arith,
        λ e. absurd (opposite (is_block p_val) e int),
        λ _. refl,
        λ a ne ne'. ground arith,
      )
    ]
  where
    opposite : (b : Bool) → b ≡ true → b ≡ false → ⊥
    opposite b t f = cc
