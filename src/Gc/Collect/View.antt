-- ===== src/Gc/Collect/View.antt =====
-- What the mutator sees of its data before and after `garbage_collect`.
mod Examples
use certirocq.Prelude.{ℕ, ◌+◌, ◌-◌, ◌*◌, ◌≤◌, ◌<◌, ◌≡◌, ◌⊎◌, inl, inr, ap, List, some, false, arith}
use certirocq.Values.{Memory}
use certirocq.Gc.Types.{Heap, ThreadInfo, ok, words}
use certirocq.Gc.Copy.Invariant.{Layout, Block, Good, bare}
use certirocq.Gc.Copy.Roots.{InRoots}
use certirocq.Gc.Generation.View.{points, view, Image-view}
use certirocq.Gc.Generation.Remembered.{spare_layout, InCells, IsRemset, cell-IsRoot}
use certirocq.Gc.Collect.{with_next, close_nursery, garbage_collect}
use certirocq.Gc.Collect.Remembered.{garbage_collect-IsResumed}

-- The word is no pointer into the free part of to-space.
abbrev pub NotAhead : Layout → ℕ → Type 0
NotAhead L x = points L.to_start L.to_limit x ≡ false

-- Nothing before the collection leads into the part of to-space that it fills.
pub record IsFresh (L : Layout) (Roots : ℕ → Type 0) : Type 0 where
  pub roots : (p : ℕ) → Roots p → NotAhead L (L.old p)
  pub fields : (v n i : ℕ) → Block L v n → i < n → bare L v ≡ false → NotAhead L (L.old (v + 8 * i))

-- It leads into no smaller part either.
NotAhead-below :
    (L : Layout) (next x : ℕ) → next ≤ L.to_limit → NotAhead L x → points L.to_start next x ≡ false
NotAhead-below L next x le out = ground arith

-- A minor collection with a remembered set, under the conditions of `garbage_collect-IsResumed`,
-- from a heap in which no root, no remembered cell and no field of a nursery object points into
-- the free part of generation 1. Then `garbage_collect` returns, and what the mutator sees from any
-- root and any remembered cell, followed to any depth through headers and fields, is the same
-- tree: in the nursery before, in the part of generation 1 that has been filled after.
pub garbage_collect-view :
    (malloc : ℕ → ℕ) (ti : ThreadInfo) (m : Memory) (h h' : Heap) (sizes : List ℕ) (n : ℕ)
    → ti.heap ≡ some h
    → with_next malloc 0 (close_nursery ti h) ≡ ok h'
    → IsRemset (h' 0) (h' 1) sizes n m ti.fp
    → (h' 1).next + ((h' 0).next - (h' 0).start) + 8 * n + ((h' 0).rem_limit - (h' 0).start)
      ≤ (h' 1).limit
    → ti.nalloc ≤ words (h' 0).start (h' 0).rem_limit
    → IsFresh
        (spare_layout n (h' 0) (h' 1) sizes m)
        (λ p. InRoots ti.fp p ⊎ InCells (h' 0) (h' 1) sizes n m p)
    → (ti' : ThreadInfo) × (m' : Memory) × (h'' : Heap) × (garbage_collect malloc ti m
        ≡ ok (ti', m'))
      × (ti'.heap ≡ some h'')
      × ((p depth : ℕ)
          → (InRoots ti.fp p ⊎ InCells (h' 0) (h' 1) sizes n m p)
          → view (h' 0).start (h' 0).limit m depth (m p)
            ≡ view (h' 1).next (h'' 1).next m' depth (m' p))
garbage_collect-view malloc ti m h h' sizes n heap created r room request fresh =
    let (ti', m', h'', returns, resumed) =
      garbage_collect-IsResumed malloc ti m h h' sizes n heap created r room request in
    (
      ti',
      m',
      h'',
      returns,
      ap (λ (t : ThreadInfo). t.heap) resumed.thread,
      λ p depth is.
          let t = resumed.traced in
          let L = spare_layout n (h' 0) (h' 1) sizes m in
          Image-view r.layout t
            (λ v k i b lt scans. NotAhead-below L _ _ t.within (fresh.fields v k i b lt scans))
            depth (m p) (m' p) (good p is) (NotAhead-below L _ _ t.within (fresh.roots p is))
            (t.roots p is),
    )
  where
    good :
        (p : ℕ)
        → (InRoots ti.fp p ⊎ InCells (h' 0) (h' 1) sizes n m p)
        → Good (spare_layout n (h' 0) (h' 1) sizes m) (m p)
    good p (inl is) = (r.roots p is).1
    good p (inr is) = (cell-IsRoot r p is).1
