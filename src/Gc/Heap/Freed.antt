-- ===== src/Gc/Heap/Freed.antt =====
-- What `free_heap` gives back.
use mathlib.Core.List.{Memᴰ}
use mathlib.Core.List.Memᴰ
use certirocq.Prelude.{
  ℕ, zero, suc, ◌+◌, ◌≤◌, ◌<◌, ◌≡◌, ◌≢◌, ap, ◌∙◌, inl, inr, ◌⊎◌, ◌↔◌, Bool-cases, false, arith,
  ◌==◌, [], ◌∷◌,
}
use certirocq.Gc.Types.{Heap, max_spaces}
use certirocq.Gc.Heap.{freed_from, free_heap}

-- The start of one of the generations from `i` up to `i + n` that exists.
abbrev pub IsStart : (n i : ℕ) → Heap → ℕ → Type 0
IsStart n i h p = (j : ℕ) × (i ≤ j) × (j < i + n) × ((h j).start ≢ 0) × (p ≡ (h j).start)

IsStart-suc : (n i : ℕ) (h : Heap) (p : ℕ) → IsStart n (i + 1) h p → IsStart (suc n) i h p
IsStart-suc n i h p (j, lo, hi, set, e) = (j, omega arith, omega arith, set, e)

freed_from-IsStart : (n i : ℕ) (h : Heap) (p : ℕ) → Memᴰ p (freed_from n i h) → IsStart n i h p
unfolding freed_from
freed_from-IsStart zero i h p is = absurd (Memᴰ.not-nil is)
freed_from-IsStart (suc n) i h p is = elim (Bool-cases ((h i).start == 0)) [
  | inl absent ↦ IsStart-suc n i h p (freed_from-IsStart n (i + 1) h p (rw absent at is))
  | inr there ↦ elim (Memᴰ.cases_cons (rw there at is)) [
    | inl e ↦ (i, omega arith, omega arith, ground arith, e)
    | inr later ↦ IsStart-suc n i h p (freed_from-IsStart n (i + 1) h p later)
  ]
]

IsStart-freed_from : (n i : ℕ) (h : Heap) (p : ℕ) → IsStart n i h p → Memᴰ p (freed_from n i h)
unfolding freed_from
IsStart-freed_from zero i h p (j, lo, hi, set, e) = absurd (omega arith)
IsStart-freed_from (suc n) i h p (j, lo, hi, set, e) = elim (Bool-cases (j == i)) [
  | inl here ↦
      let at : j ≡ i = ground arith in
      let start : p ≡ (h i).start = e ∙ ap (λ k. (h k).start) at in
      let there : ((h i).start == 0) ≡ false = not_zero (λ z. set (ap (λ k. (h k).start) at ∙ z)) in
      rw there (Memᴰ.head start)
  | inr later ↦
      let rest = IsStart-freed_from n (i + 1) h p (j, ground arith, omega arith, set, e) in
      elim (Bool-cases ((h i).start == 0)) [
        | inl absent ↦ rw absent rest
        | inr there ↦ rw there (Memᴰ.tail rest)
      ]
]
  where
    not_zero : (h i).start ≢ 0 → ((h i).start == 0) ≡ false
    not_zero ne = ground arith

-- The blocks given back are those of the generations that exist, the nursery included, and that of
-- the descriptors.
pub free_heap_iff :
    (address : ℕ) (h : Heap) (p : ℕ)
    → Memᴰ p (free_heap address h) ↔ (IsStart max_spaces 0 h p ⊎ (p ≡ address))
unfolding free_heap
free_heap_iff address h p = (
  λ is. elim (Memᴰ.append_cases (freed_from max_spaces 0 h) is) [
    | inl start ↦ inl (freed_from-IsStart max_spaces 0 h p start)
    | inr last ↦ inr (Memᴰ.eq_of_singleton last)
  ],
  λ is. elim is [
    | inl start ↦ Memᴰ.append_left (address ∷ []) (IsStart-freed_from max_spaces 0 h p start)
    | inr e ↦ Memᴰ.append_right (freed_from max_spaces 0 h) (Memᴰ.head e)
  ],
)
