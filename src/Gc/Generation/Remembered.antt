-- ===== src/Gc/Generation/Remembered.antt =====
-- The collection of one generation that older objects point into: the cells of its remembered set
-- are roots too, and those that led into it are remembered in the generation above.
use certirocq.Prelude.{
  ℕ, ◌+◌, ◌-◌, ◌*◌, ◌≤◌, ◌<◌, ◌≡◌, refl, ◌⊎◌, inl, inr, ◌∙◌, List, true, false, arith, leb, sym,
}
use certirocq.Values.{Memory}
use certirocq.Gc.Types.{Space, StackFrame, ok, words}
use certirocq.Gc.Copy.{Copy, forward_remset, remset_loop, forward_roots, do_scan}
use certirocq.Gc.Copy.Invariant.{Layout, IsLayout, from_ptr, Good}
use certirocq.Gc.Copy.Place.{NotFrom, IsRoot}
use certirocq.Gc.Copy.Steps.{done, Treated, Grows-trans}
use certirocq.Gc.Copy.Settled.{Treated-Settled, Settled-Treated, Good-Settled}
use certirocq.Gc.Copy.Scan.{Progress, do_scan-Progress}
use certirocq.Gc.Copy.Roots.{InRoots, Ready, RootsTreated, forward_roots-RootsTreated}
use certirocq.Gc.Copy.Entry.{NotSpare, in_from, IsCell, Entries, opposite}
use certirocq.Gc.Copy.Remset.{RemsetTreated, remset_loop-RemsetTreated}
use certirocq.Gc.Generation.{Generation, do_generation, scan_fuel}
use certirocq.Gc.Generation.Laws.{IsTraced, start, start-Inv, IsTraced-of_treated, layout}

-- The layout of a collection that sets `n` words of `to` aside for its remembered set.
abbrev pub spare_layout : ℕ → Space → Space → List ℕ → Memory → Layout
spare_layout n from to sizes m = record (layout from to sizes m) { to_limit = to.limit - 8 * n }

module _ (from to : Space) (sizes : List ℕ) (n : ℕ) (m : Memory) where
  -- The cell of entry `i` of the remembered set.
  abbrev pub cell : ℕ → ℕ
  cell i = m (from.limit + 8 * i)

  -- A remembered cell outside from-space.
  abbrev pub InCells : ℕ → Type 0
  InCells p =
      (i : ℕ) × (i < n)
      × (in_from (spare_layout n from to sizes m) to.limit (cell i) ≡ false)
      × (p ≡ cell i)

  -- Not a word of the old remembered set, nor set aside for the new one.
  abbrev pub NotLog : ℕ → Type 0
  NotLog p = ((p < from.limit) ⊎ (from.rem_limit ≤ p)) × ((p < to.limit - 8 * n) ⊎ (to.limit ≤ p))

  -- The remembered set has `n` entries, for which to-space has room, and the roots and cells that
  -- it leads to are no words of it.
  pub record IsRemset (frames : List StackFrame) : Type 0 where
    pub layout : IsLayout (spare_layout n from to sizes m)
    pub whole : from.rem_limit ≡ from.limit + 8 * n
    pub apart : (from.rem_limit ≤ to.start) ⊎ (to.limit ≤ from.start)
    pub ordered : (from.start ≤ from.limit) × (to.start ≤ to.next)
    pub room : to.next + 8 * n ≤ to.limit
    pub cells : (i : ℕ) → i < n → IsCell (spare_layout n from to sizes m) to.limit m (cell i)
    pub cells_apart : (p : ℕ) → InCells p → NotLog p
    pub roots :
        (p : ℕ)
        → InRoots frames p
        → IsRoot (spare_layout n from to sizes m) p
          × Good (spare_layout n from to sizes m) (m p)
          × NotLog p

module _ {from to : Space} {sizes : List ℕ} {n : ℕ} {m : Memory} {frames : List StackFrame}
    (r : IsRemset from to sizes n m frames) where
  abbrev L : Layout
  L = spare_layout n from to sizes m

  entries : Entries L to.limit n from.limit m
  entries = record {
    word = λ i lt. (
      (omega arith, omega (arith, r.apart, r.whole, r.ordered, r.room)),
      omega (arith, r.apart, r.whole, r.ordered, r.room),
    );
    cell = r.cells;
    apart = λ i j lt lt' nf e.
        omega (arith, r.cells_apart (m (from.limit + 8 * i)) (i, lt, nf, refl), r.whole);
  }

  abbrev before : Copy
  before = start r.layout

  abbrev after_remset : Copy × ℕ
  after_remset = remset_loop from.start from.limit n from.limit (before, to.limit)

  remset :
      RemsetTreated r.layout to.limit to.next n from.limit before to.limit after_remset.0
        after_remset.1
  remset =
      remset_loop-RemsetTreated r.layout to.limit
        (omega (arith, r.apart, r.whole, r.ordered, r.room)) n from.limit (start r.layout) to.limit
        (start-Inv r.layout) entries (omega (arith, r.room))

  ready : Ready r.layout frames after_remset.0
  ready p is =
      let (root, good, nl) = r.roots p is in
      (root, Good-Settled r.layout (m p) p good (remset.settled p root (omega (arith, nl)) good))

  abbrev after_roots : Copy
  after_roots = forward_roots from.start from.limit frames after_remset.0

  rooted : RootsTreated r.layout to.next frames after_remset.0 after_roots
  rooted = forward_roots-RootsTreated r.layout frames after_remset.0 remset.inv ready

  wider : (x : ℕ) → IsRoot L x → IsRoot (record L { to_start = after_remset.0.next }) x
  wider x root = (root.0, omega (arith, root.1, remset.grows.next_le))

  pub cell-IsRoot :
      (p : ℕ) → InCells from to sizes n m p → IsRoot L p × Good L (m p) × NotSpare L to.limit p
  cell-IsRoot p (i, lt, nf, e) = elim (r.cells i lt) [
    | inl from ↦ absurd (opposite _ from nf)
    | inr is ↦ rw e is
  ]

  cell-Treated : (p : ℕ) → InCells from to sizes n m p → Treated L (m p) after_roots.mem p
  cell-Treated p (i, lt, nf, e) =
      let (root, good, ns) = cell-IsRoot p (i, lt, nf, e) in
      let once : Treated L (m p) after_remset.0.mem p = rw e (remset.treated i lt nf) in
      Treated-Settled r.layout (m p) p good once rooted.grows
        (rooted.settled p (wider p root) (Good-Settled r.layout (m p) p good (inr once)))

  root-Treated : (p : ℕ) → InRoots frames p → Treated L (m p) after_roots.mem p
  root-Treated p is =
      let (root, good, nl) = r.roots p is in
      Settled-Treated r.layout (m p) p good (remset.settled p root (omega (arith, nl)) good)
        rooted.grows (rooted.treated p is)

  -- The roots of this collection.
  abbrev Roots : ℕ → Type 0
  Roots p = InRoots frames p ⊎ InCells from to sizes n m p

  treated : (p : ℕ) → Roots p → IsRoot L p × Good L (m p) × Treated L (m p) after_roots.mem p
  treated p (inl is) = let (root, good, nl) = r.roots p is in (root, good, root-Treated p is)
  treated p (inr is) = let (root, good, ns) = cell-IsRoot p is in (root, good, cell-Treated p is)

  scanned :
      (c : Copy) × (do_scan from.start from.limit (scan_fuel to.next to.limit) to.next after_roots
        ≡ ok c)
      × Progress r.layout to.next c.next after_roots c
  scanned =
      do_scan-Progress r.layout (scan_fuel to.next to.limit) to.next after_roots rooted.inv
        ((Grows-trans L remset.grows rooted.grows).extend to.next (done refl)) (omega arith)

  returns : forward_remset from to before ≡ ok after_remset
  unfolding forward_remset
  returns =
      let size : words from.limit from.rem_limit ≡ n = omega (arith, r.whole) in
      let passes : leb n (words to.start to.limit) ≡ true =
        le→leb _ _ (omega (arith, r.room, r.ordered)) in
      rw (size, passes)
    where
      le→leb : (a b : ℕ) → a ≤ b → leb a b ≡ true
      le→leb a b le = ground arith

  log_kept :
      (c : Copy)
      → Progress r.layout to.next c.next after_roots c
      → (a : ℕ) → after_remset.1 ≤ a
      → a < to.limit
      → c.mem a ≡ after_remset.0.mem a
  log_kept c p a lo hi =
      let out : IsRoot L a = (
        omega (arith, remset.down, r.apart, r.whole, r.ordered, r.room),
        omega (arith, remset.down, r.room),
      ) in
      p.frame a out.0 out.1
      ∙ rooted.frame a (wider a out) (λ is. omega (arith, (r.roots a is).2, remset.down, r.room))

  others :
      (c : Copy)
      → Progress r.layout to.next c.next after_roots c
      → (x : ℕ) → NotFrom L x
      → (x < to.next) ⊎ (to.limit ≤ x)
      → ¬ Roots x
      → c.mem x ≡ m x
  others c p x nf out none_of =
      let root : IsRoot L x = (nf, omega (arith, out, r.room)) in
      p.frame x nf root.1
      ∙ rooted.frame x (wider x root) (λ is. none_of (inl is))
      ∙ remset.frame x root (omega (arith, out, r.room)) (λ i lt nf e. none_of (inr (i, lt, nf, e)))

  logged :
      (c : Copy)
      → Progress r.layout to.next c.next after_roots c
      → (p : ℕ) → InCells from to sizes n m p
      → from_ptr L (m p) ≡ true
      → (a : ℕ) × (after_remset.1 ≤ a) × (a < to.limit) × (c.mem a ≡ p)
  logged c progress p (i, lt, nf, e) led =
      let (a, lo, hi, at) = remset.logged i lt nf (rw e at led) in
      (a, lo, hi, log_kept c progress a lo hi ∙ at ∙ sym e)

-- Where older objects are remembered to point into the space that is collected, `do_generation`
-- returns, if to-space has room for the objects and for the remembered set. Then the remembered
-- cells outside from-space are updated like the roots: they hold the address of the copy where they
-- pointed into from-space and their old word otherwise. Each cell that pointed into from-space
-- stands in the new remembered set, between the new limit and the old limit of to-space, which is
-- no larger than the old set. The live graph is the same, no word
-- outside the spaces but the roots and these cells has changed, and from-space and its remembered
-- set are empty.
pub do_generation-IsTraced :
    (from to : Space) (sizes : List ℕ) (n : ℕ) (frames : List StackFrame) (m : Memory)
    → IsRemset from to sizes n m frames
    → (g : Generation) × (do_generation from to frames m ≡ ok g)
      × IsTraced
          (spare_layout n from to sizes m)
          (λ p. InRoots frames p ⊎ InCells from to sizes n m p)
          g.mem
          g.to.next
      × ((x : ℕ)
          → NotFrom (spare_layout n from to sizes m) x
          → (x < to.next) ⊎ (to.limit ≤ x)
          → ¬ (InRoots frames x ⊎ InCells from to sizes n m x)
          → g.mem x ≡ m x)
      × ((p : ℕ)
          → InCells from to sizes n m p
          → from_ptr (spare_layout n from to sizes m) (m p) ≡ true
          → (a : ℕ) × (g.to.limit ≤ a) × (a < to.limit) × (g.mem a ≡ p))
      × (g.from ≡ record from { next = from.start; limit = from.rem_limit })
      × (g.to ≡ record to { next = g.to.next; limit = g.to.limit })
      × (g.to.next ≤ g.to.limit)
      × (g.to.limit ≤ to.limit)
      × (to.limit ≤ g.to.limit + 8 * n)
unfolding do_generation
do_generation-IsTraced from to sizes n frames m r =
    let (c, ends, p) = scanned r in
    let traced = IsTraced-of_treated r.layout (Roots r) (after_roots r) c p (treated r) in
    (
      record {
        from = record from { next = from.start; limit = from.rem_limit };
        to = record to { next = c.next; limit = (after_remset r).1 };
        mem = c.mem;
      },
      rw (returns r, ends),
      traced,
      others r c p,
      logged r c p,
      refl,
      refl,
      omega (arith, traced.within, (remset r).down, r.room),
      omega (arith, (remset r).down),
      omega (arith, (remset r).down),
    )
