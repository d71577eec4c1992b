-- ===== src/Gc/Collect/Laws.antt =====
-- `garbage_collect`: a minor collection, and what it promises the mutator.
use certirocq.Prelude.{
  ℕ, suc, ◌+◌, ◌-◌, ◌≤◌, ◌<◌, ◌≡◌, refl, inl, inr, ◌∙◌, ap, List, some, true, arith, leb,
}
use certirocq.Values.{Memory}
use certirocq.Gc.Types.{Space, Heap, ThreadInfo, set_space, ok, words, ◌>>=◌}
use certirocq.Gc.Heap.{resume, unsigned_words}
use certirocq.Gc.Heap.Laws.{resume_cases}
use certirocq.Gc.Copy.Blocks.{unmoved-le}
use certirocq.Gc.Copy.Invariant.{IsLayout, Good}
use certirocq.Gc.Copy.Place.{IsRoot}
use certirocq.Gc.Copy.Roots.{InRoots}
use certirocq.Gc.Generation.{Generation, do_generation}
use certirocq.Gc.Generation.Laws.{layout, IsCollected, do_generation-IsCollected}
use certirocq.Gc.Collect.{
  Collected, with_next, collect_into, has_room, collect_from, close_nursery, garbage_collect,
}

-- A request that fits.
pub resume_fits :
    (k : Heap) (ti : ThreadInfo)
    → ti.nalloc ≤ words (k 0).start (k 0).limit
    → resume k ti ≡ ok (record ti { alloc = (k 0).start; limit = (k 0).limit; heap = some k })
resume_fits k ti le = elim (resume_cases k ti) [
  | inl (fits, e) ↦ e
  | inr (short, e) ↦ absurd (larger (k 0).start (k 0).limit le short)
]
  where
    larger : (lo hi : ℕ) → ti.nalloc ≤ words lo hi → unsigned_words lo hi < ti.nalloc → ⊥
    larger lo hi le short = ground arith

-- One round that leaves enough room ends the collection by `resume`.
pub collect_from-resume :
    (malloc : ℕ → ℕ) (n i : ℕ) (ti : ThreadInfo) (c : Collected) (h : Heap) (g : Generation)
    → with_next malloc i c.heap ≡ ok h
    → do_generation (h i) (h (i + 1)) ti.fp c.mem ≡ ok g
    → has_room i (set_space (set_space h i g.from) (i + 1) g.to) ≡ true
    → collect_from malloc (suc n) i ti c
      ≡ (resume (set_space (set_space h i g.from) (i + 1) g.to) ti >>= λ ti'. ok (ti', g.mem))
unfolding collect_from collect_into
collect_from-resume malloc n i ti c h g created copied room = rw (created, copied, room)

-- A minor collection. The nursery as the mutator leaves it, and generation 1, which is created if
-- need be, are the spaces of `do_generation-IsCollected`; generation 1 has room for what the
-- nursery holds and for another full nursery; the request fits the nursery. Then `garbage_collect`
-- returns to the mutator with the whole nursery free, from its start to its limit, and at least the
-- words it asked for; the live graph is the same and no other field of the thread has changed.
garbage_collect-minor :
    (malloc : ℕ → ℕ) (ti : ThreadInfo) (m : Memory) (h h' : Heap) (sizes : List ℕ)
    → ti.heap ≡ some h
    → with_next malloc 0 (close_nursery ti h) ≡ ok h'
    → IsLayout (layout (h' 0) (h' 1) sizes m)
    → ((p : ℕ)
        → InRoots ti.fp p
        → IsRoot (layout (h' 0) (h' 1) sizes m) p × Good (layout (h' 0) (h' 1) sizes m) (m p))
    → (h' 0).rem_limit ≡ (h' 0).limit
    → ((h' 0).start ≤ (h' 0).next) × ((h' 0).next ≤ (h' 0).limit)
    → (h' 1).next + ((h' 0).next - (h' 0).start) + ((h' 0).limit - (h' 0).start) ≤ (h' 1).limit
    → ti.nalloc ≤ words (h' 0).start (h' 0).limit
    → (h'' : Heap) × (m' : Memory) × (garbage_collect malloc ti m
        ≡ ok (record ti { alloc = (h' 0).start; limit = (h' 0).limit; heap = some h'' }, m'))
      × (h'' 0 ≡ record (h' 0) { next = (h' 0).start })
      × IsCollected (layout (h' 0) (h' 1) sizes m) ti.fp m' (h'' 1).next
unfolding garbage_collect
garbage_collect-minor malloc ti m h h' sizes heap created w ready nothing ordered room request =
    let (g, copied, collected, from, to) =
      do_generation-IsCollected (h' 0) (h' 1) sizes ti.fp m w ready nothing in
    let h'' = set_space (set_space h' 0 g.from) 1 g.to in
    let start : g.from.start ≡ (h' 0).start = ap (λ (s : Space). s.start) from in
    let limit : g.from.limit ≡ (h' 0).limit = ap (λ (s : Space). s.limit) from in
    let rem : g.from.rem_limit ≡ (h' 0).rem_limit = ap (λ (s : Space). s.rem_limit) from in
    let to_limit : g.to.limit ≡ (h' 1).limit = ap (λ (s : Space). s.limit) to in
    let size = unmoved-le sizes (h' 0).start (h' 0).next m w.tiles in
    let enough : has_room 0 h'' ≡ true = le→leb _ _ (omega (arith, collected.bounded)) in
    let fits : resume h'' ti
        ≡ ok (record ti { alloc = g.from.start; limit = g.from.limit; heap = some h'' }) =
      resume_fits h'' ti (rw (start, limit) request) in
    (
      h'',
      g.mem,
      rw heap (
          collect_from-resume malloc 41 0 ti (record { heap = close_nursery ti h; mem = m }) h' g
            created copied enough
          ∙ rw (fits, start, limit) refl),
      from,
      collected,
    )
  where
    le→leb : (a b : ℕ) → a ≤ b → leb a b ≡ true
    le→leb a b le = ground arith
