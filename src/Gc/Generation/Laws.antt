-- ===== src/Gc/Generation/Laws.antt =====
-- The collection of one generation: the live objects are in to-space, as they were.
use certirocq.Prelude.{
  ℕ, ◌+◌, ◌-◌, ◌*◌, ◌%◌, ◌≤◌, ◌<◌, ◌≡◌, refl, ◌⊎◌, inl, inr, ◌∙◌, List, Bool, true, false, arith,
  leb,
}
use certirocq.Values.{Memory}
use certirocq.Gc.Types.{Space, StackFrame, ok, words}
use certirocq.Gc.Copy.{Copy, forward_remset, remset_loop, forward_roots, do_scan}
use certirocq.Gc.Copy.Invariant.{
  Layout, Block, IsLayout, Inv, from_ptr, Forwarded, Good, bare, Moved_of_gone, old_header,
}
use certirocq.Gc.Copy.Blocks.{unmoved}
use certirocq.Gc.Copy.Place.{NotFrom, IsRoot, next-le}
use certirocq.Gc.Copy.Steps.{done, Treated}
use certirocq.Gc.Copy.Settled.{Treated-Grows}
use certirocq.Gc.Copy.Scan.{Progress, do_scan-Progress}
use certirocq.Gc.Copy.Roots.{InRoots, Ready, RootsTreated, forward_roots-RootsTreated}
use certirocq.Gc.Generation.{Generation, do_generation, scan_fuel}

module _ (L : Layout) where
  -- The word `w'` stands after the collection for the word `w` before: a pointer into from-space
  -- has become the address of the copy, every other word is the same.
  pub record Image (m : Memory) (w w' : ℕ) : Type 0 where
    pub value : (w' ≡ w) ⊎ Forwarded L m w w'
    pub not_from : from_ptr L w' ≡ false

  -- The copy of the object at `v`: its header, and its fields with their pointers replaced.
  pub record IsCopied (m : Memory) (next v n : ℕ) : Type 0 where
    pub above : L.to_start + 8 ≤ m v
    pub below : m v + 8 * n ≤ next
    pub aligned : m v % 8 ≡ 0
    pub header : m (m v - 8) ≡ L.old (v - 8)
    pub data_fields : (i : ℕ) → i < n → bare L v ≡ true → m (m v + 8 * i) ≡ L.old (v + 8 * i)
    pub value_fields :
        (i : ℕ) → i < n → bare L v ≡ false → Image m (L.old (v + 8 * i)) (m (m v + 8 * i))

  -- The graph of the objects that the roots reach, before and after, is the same.
  pub record IsTraced (Roots : ℕ → Type 0) (m : Memory) (next : ℕ) : Type 0 where
    pub roots : (p : ℕ) → Roots p → Image m (L.old p) (m p)
    pub copies : (v n : ℕ) → Block L v n → m (v - 8) ≡ 0 → IsCopied m next v n
    pub apart :
        (u j v n : ℕ)
        → Block L u j
        → Block L v n
        → m (u - 8) ≡ 0
        → m (v - 8) ≡ 0
        → (u ≡ v) ⊎ (m u + 8 * j + 8 ≤ m v) ⊎ (m v + 8 * n + 8 ≤ m u)
    pub grows : L.to_start ≤ next
    pub within : next ≤ L.to_limit
    pub bounded : next ≤ L.to_start + 8 * unmoved L.old L.from_start L.sizes

  -- It is, and nothing else has changed.
  pub record IsCollected (frames : List StackFrame) (m : Memory) (next : ℕ) : Type 0 where
    pub traced : IsTraced (InRoots frames) m next
    pub open traced use *
    pub others :
        (x : ℕ)
        → NotFrom L x
        → (x < L.to_start) ⊎ (L.to_limit ≤ x)
        → ¬ InRoots frames x
        → m x ≡ L.old x

module _ {L : Layout} (w : IsLayout L) where
  abbrev pub start : Copy
  start = record { mem = L.old; next = L.to_start }

  -- Nothing has been moved yet.
  pub start-Inv : Inv L L.to_start start
  start-Inv = record {
    space = refl;
    above = omega arith;
    aligned = w.aligned;
    scan_below = omega arith;
    block = λ v n b. inl (record { header = refl; fields = λ i lt. refl });
    distinct = λ u j v n bu bv gu gv. absurd (old_header L w u j bu gu);
  }

  -- Roots that have been treated, and then a scan, leave the graph in to-space.
  module _ (Roots : ℕ → Type 0) (c0 c : Copy) (p : Progress w L.to_start c.next c0 c)
      (treated : (r : ℕ)
        → Roots r
        → IsRoot L r × Good L (L.old r) × Treated L (L.old r) c0.mem r) where
    copies : (v n : ℕ) → Block L v n → c.mem (v - 8) ≡ 0 → IsCopied L c.mem c.next v n
    copies v n b gone =
        let moved = Moved_of_gone L w v n p.inv b gone in
        record {
          above = moved.above;
          below = moved.below;
          aligned = moved.aligned;
          header = moved.header;
          data_fields = λ i lt data_only. elim (moved.fields i lt).value [
            | inl same ↦ same
            | inr (scans, fwd) ↦ absurd (opposite (bare L v) data_only scans)
          ];
          value_fields = λ i lt scans. record {
            value = elim (moved.fields i lt).value [ inl same ↦ inl same | inr (_, fwd) ↦ inr fwd ];
            not_from = (moved.fields i lt).scanned (omega (arith, moved.below)) scans;
          };
        }
      where
        opposite : (y : Bool) → y ≡ true → y ≡ false → ⊥
        opposite y t f = cc

    pub IsTraced-of_treated : IsTraced L Roots c.mem c.next
    IsTraced-of_treated = record {
      roots = λ r is.
          let (root, good, once) = treated r is in
          let t = Treated-Grows w (L.old r) r good once p.grows (p.frame r root.0 root.1) in
          record { value = t.value; not_from = t.not_from };
      copies = copies;
      apart = p.inv.distinct;
      grows = omega (arith, p.inv.above);
      within = next-le L w p.inv;
      bounded = omega (arith, p.inv.space);
    }

  module _ (frames : List StackFrame) (ready : Ready w frames start) where
    rooted :
        RootsTreated w L.to_start frames start
          (forward_roots L.from_start L.from_limit frames start)
    rooted = forward_roots-RootsTreated w frames start start-Inv ready

    -- The scan's result is a collected heap.
    finish :
        (c : Copy)
        → Progress w L.to_start c.next (forward_roots L.from_start L.from_limit frames start) c
        → IsCollected L frames c.mem c.next
    finish c p = record {
      traced =
          IsTraced-of_treated (InRoots frames) _ c p
            λ r is. ((ready r is).0, (ready r is).1, rooted.treated r is);
      others = λ x nf out no. p.frame x nf out ∙ rooted.frame x (nf, out) no;
    }

-- The layout of a collection of `from`, whose objects have these sizes, into `to`.
abbrev pub layout : Space → Space → List ℕ → Memory → Layout
layout from to sizes m = record {
  from_start = from.start;
  from_limit = from.limit;
  sizes = sizes;
  sizes_end = from.next;
  old = m;
  to_start = to.next;
  to_limit = to.limit;
}

-- An empty remembered set is passed over.
forward_remset-none :
    (from to : Space) (c : Copy)
    → from.rem_limit ≡ from.limit
    → forward_remset from to c ≡ ok (c, to.limit)
unfolding forward_remset remset_loop
forward_remset-none from to c nothing =
    let empty : words from.limit from.rem_limit ≡ 0 = omega arith in
    let passes : leb 0 (words to.start to.limit) ≡ true = ground arith in rw (empty, passes)

-- Where the objects of from-space are laid out one after another, to-space has room for them, the
-- roots and the fields point to objects if into from-space at all, and nothing is remembered,
-- `do_generation` returns, and the objects that the roots reach are in to-space as they were:
-- every root and field has become the address of the copy where it pointed into from-space and is
-- unchanged otherwise, headers and data are the same, distinct objects have copies that do not
-- overlap, no word outside the two spaces but the roots has changed, and from-space is empty.
pub do_generation-IsCollected :
    (from to : Space) (sizes : List ℕ) (frames : List StackFrame) (m : Memory)
    → (w : IsLayout (layout from to sizes m))
    → ((p : ℕ)
        → InRoots frames p
        → IsRoot (layout from to sizes m) p × Good (layout from to sizes m) (m p))
    → from.rem_limit ≡ from.limit
    → (g : Generation) × (do_generation from to frames m ≡ ok g)
      × IsCollected (layout from to sizes m) frames g.mem g.to.next
      × (g.from ≡ record from { next = from.start })
      × (g.to ≡ record to { next = g.to.next })
unfolding do_generation
do_generation-IsCollected from to sizes frames m w ready nothing =
    let (c, returns, progress) = scanned in
    (
      record {
        from = record from { next = from.start; limit = from.rem_limit };
        to = record to { next = c.next };
        mem = c.mem;
      },
      rw (forward_remset-none from to (record { mem = m; next = to.next }) nothing, returns),
      finish w frames ready c progress,
      rw nothing,
      refl,
    )
  where
    scanned :
        (c : Copy) × (do_scan from.start from.limit
            (scan_fuel to.next to.limit)
            to.next
            (forward_roots from.start from.limit frames (record { mem = m; next = to.next }))
          ≡ ok c)
        × Progress w to.next c.next
            (forward_roots from.start from.limit frames (record { mem = m; next = to.next }))
            c
    scanned =
        let r = rooted w frames ready in
        do_scan-Progress w (scan_fuel to.next to.limit) to.next _ r.inv
          (r.grows.extend to.next (done refl)) (omega arith)
