-- ===== src/Gc/Collect/View/Examples.antt =====
-- What the mutator sees of the small heap with a remembered cell, before and after its collection.
use certirocq.Prelude.{
  ℕ, zero, suc, ◌+◌, ◌*◌, ◌<◌, ◌≡◌, refl, ◌⊎◌, inl, inr, [], ◌∷◌, some, false, arith,
}
use certirocq.Gc.Types.{Heap, ThreadInfo, ok}
use certirocq.Values.{Memory, is_block, wosize_hd, tag_hd, no_scan}
use certirocq.Gc.Copy.Invariant.{Block, bare}
use certirocq.Gc.Copy.Roots.{InRoots}
use certirocq.Gc.Generation.View.{view, fields_view, word, object, none, field}
use certirocq.Gc.Generation.Remembered.{InCells}
use certirocq.Gc.Collect.{close_nursery, garbage_collect}
use certirocq.Gc.Collect.View.{NotAhead, IsFresh, garbage_collect-view}
use certirocq.Gc.Examples.{frames, older, heap}
use certirocq.Gc.Collect.Examples.{modified, barred, small, barred_thread, remset, heap_exists}

-- The root leads to an object whose field leads to another, whose field is the word 9.
root_seen :
    view 1000 1056 modified 4 (modified 100)
    ≡ object 1024 (field (object 1024 (field (word 9) none)) none)
unfolding view is_block wosize_hd tag_hd no_scan fields_view
root_seen = refl

fields_fresh :
    (v n i : ℕ)
    → Block small v n
    → i < n
    → bare small v ≡ false
    → NotAhead small (modified (v + 8 * i))
unfolding is_block
fields_fresh v n i (inl b) lt scans = let e : v + 8 * i ≡ 1008 = omega (arith, b) in rw e refl
fields_fresh v n i (inr (inl b)) lt scans = let e : v + 8 * i ≡ 1024 = omega (arith, b) in rw e refl
fields_fresh v n i (inr (inr b)) lt scans = absurd b

roots_fresh :
    (p : ℕ)
    → (InRoots frames p ⊎ InCells barred older (1 ∷ 1 ∷ []) 1 modified p)
    → NotAhead small (modified p)
unfolding is_block
roots_fresh p (inl (inl (zero, lt, e))) = let at : p ≡ 100 = omega arith in rw at refl
roots_fresh p (inl (inl (suc zero, lt, e))) = let at : p ≡ 108 = omega arith in rw at refl
roots_fresh p (inl (inl (suc (suc i), lt, e))) = absurd (omega arith)
roots_fresh p (inl (inr r)) = absurd r
roots_fresh p (inr (zero, lt, nf, e)) = let at : p ≡ 3000 = e in rw at refl
roots_fresh p (inr (suc i, lt, nf, e)) = absurd (omega arith)

fresh : IsFresh small (λ p. InRoots frames p ⊎ InCells barred older (1 ∷ 1 ∷ []) 1 modified p)
fresh = record { roots = roots_fresh; fields = fields_fresh }

garbage_collect-view_example :
    (ti' : ThreadInfo) × (m' : Memory) × (h'' : Heap) × (garbage_collect
        (λ _. 0)
        barred_thread
        modified
      ≡ ok (ti', m'))
    × (ti'.heap ≡ some h'')
    × ((p depth : ℕ)
        → (InRoots frames p ⊎ InCells barred older (1 ∷ 1 ∷ []) 1 modified p)
        → view 1000 1056 modified depth (modified p) ≡ view 2000 (h'' 1).next m' depth (m' p))
garbage_collect-view_example =
    garbage_collect-view (λ _. 0) barred_thread modified heap (close_nursery barred_thread heap)
      (1 ∷ 1 ∷ []) 1 refl heap_exists remset (omega arith) (omega arith) fresh
