-- ===== src/Gc/Copy/Blocks.antt =====
-- The objects of a space: contiguous blocks, each a header word and at least one field. A block is
-- named by the address of its first field, as a value is.
use certirocq.Prelude.{
  ℕ, ◌+◌, ◌-◌, ◌*◌, ◌≤◌, ◌≡◌, ◌≢◌, ◌⊎◌, inl, inr, List, [], ◌∷◌, ◌==◌, if◌then◌else◌, arith,
}
use certirocq.Values.{Memory}

-- Blocks of these sizes lie side by side from `a` up to `e`.
abbrev pub Tiles : ℕ → List ℕ → ℕ → Type 0
Tiles a [] e = a ≡ e
Tiles a (n ∷ ns) e = (1 ≤ n) × Tiles (a + 8 + 8 * n) ns e

-- One of these blocks is at `v` and has `n` fields.
abbrev pub HasBlock : ℕ → List ℕ → ℕ → ℕ → Type 0
HasBlock a [] v n = ⊥
HasBlock a (k ∷ ks) v n = ((v ≡ a + 8) × (n ≡ k)) ⊎ HasBlock (a + 8 + 8 * k) ks v n

-- The words that the blocks with a header other than 0 take, headers included.
unfoldable pub unmoved : Memory → ℕ → List ℕ → ℕ
unmoved m a [] = 0
unmoved m a (k ∷ ks) = (if m a == 0 then 0 else 1 + k) + unmoved m (a + 8 + 8 * k) ks

pub Tiles-le : (ks : List ℕ) (a e : ℕ) → Tiles a ks e → a ≤ e
Tiles-le [] a e t = omega arith
Tiles-le (k ∷ ks) a e t = omega (arith, Tiles-le ks (a + 8 + 8 * k) e t.1)

pub HasBlock-bounds :
    (ks : List ℕ) (a e : ℕ) (v n : ℕ)
    → Tiles a ks e
    → HasBlock a ks v n
    → (a + 8 ≤ v) × (v + 8 * n ≤ e) × (1 ≤ n)
HasBlock-bounds [] a e v n t b = absurd b
HasBlock-bounds (k ∷ ks) a e v n t (inl b) = omega (arith, Tiles-le ks (a + 8 + 8 * k) e t.1)
HasBlock-bounds (k ∷ ks) a e v n t (inr b) =
    omega (arith, HasBlock-bounds ks (a + 8 + 8 * k) e v n t.1 b)

-- Two blocks are one, or do not overlap.
pub HasBlock-apart :
    (ks : List ℕ) (a e : ℕ) (u j v n : ℕ)
    → Tiles a ks e
    → HasBlock a ks u j
    → HasBlock a ks v n
    → (u ≡ v) × (j ≡ n) ⊎ (u + 8 * j + 8 ≤ v) ⊎ (v + 8 * n + 8 ≤ u)
HasBlock-apart [] a e u j v n t b c = absurd b
HasBlock-apart (k ∷ ks) a e u j v n t (inl b) (inl c) = inl (omega arith)
HasBlock-apart (k ∷ ks) a e u j v n t (inl b) (inr c) =
    inr (inl (omega (arith, HasBlock-bounds ks (a + 8 + 8 * k) e v n t.1 c)))
HasBlock-apart (k ∷ ks) a e u j v n t (inr b) (inl c) =
    inr (inr (omega (arith, HasBlock-bounds ks (a + 8 + 8 * k) e u j t.1 b)))
HasBlock-apart (k ∷ ks) a e u j v n t (inr b) (inr c) =
    HasBlock-apart ks (a + 8 + 8 * k) e u j v n t.1 b c

-- Headers that stay the same keep the measure.
pub unmoved_ext :
    (ks : List ℕ) (a e : ℕ) (m m' : Memory)
    → Tiles a ks e
    → ((u j : ℕ) → HasBlock a ks u j → m' (u - 8) ≡ m (u - 8))
    → unmoved m' a ks ≡ unmoved m a ks
unfolding unmoved
unmoved_ext [] a e m m' t same = omega arith
unmoved_ext (k ∷ ks) a e m m' t same =
    let here : m' a ≡ m a = head (same (a + 8) k (inl (omega arith))) in
    let rest = unmoved_ext ks (a + 8 + 8 * k) e m m' t.1 λ u j b. same u j (inr b) in
    rw here (omega (arith, rest))
  where
    head : m' (a + 8 - 8) ≡ m (a + 8 - 8) → m' a ≡ m a
    head h = let e : a + 8 - 8 ≡ a = omega arith in rw e at h

-- Clearing one header takes that block out of the measure.
pub unmoved_clear :
    (ks : List ℕ) (a e : ℕ) (v n : ℕ) (m m' : Memory)
    → Tiles a ks e
    → HasBlock a ks v n
    → m (v - 8) ≢ 0
    → m' (v - 8) ≡ 0
    → ((u j : ℕ) → HasBlock a ks u j → u ≢ v → m' (u - 8) ≡ m (u - 8))
    → unmoved m' a ks + (1 + n) ≡ unmoved m a ks
unfolding unmoved
unmoved_clear [] a e v n m m' t b set clear same = absurd b
unmoved_clear (k ∷ ks) a e v n m m' t (inl b) set clear same =
    let at : v - 8 ≡ a = omega arith in
    let was : m a ≢ 0 = λ z. set (rw at z) in
    let now : m' a ≡ 0 = rw (← at) clear in
    let rest = unmoved_ext ks (a + 8 + 8 * k) e m m' t.1 λ u j c.
      same u j (inr c)
        (λ one. absurd (omega (arith, HasBlock-bounds ks (a + 8 + 8 * k) e u j t.1 c))) in
    ground (arith, rest)
unmoved_clear (k ∷ ks) a e v n m m' t (inr b) set clear same =
    let at : a + 8 - 8 ≡ a = omega arith in
    let here : m' a ≡ m a = rw at at (
      same (a + 8) k (inl (omega arith))
        (λ one. absurd (omega (arith, HasBlock-bounds ks (a + 8 + 8 * k) e v n t.1 b)))) in
    let rest =
      unmoved_clear ks (a + 8 + 8 * k) e v n m m' t.1 b set clear λ u j c. same u j (inr c) in
    rw here (omega (arith, rest))

-- A block that has not been moved counts.
pub unmoved-ge :
    (ks : List ℕ) (a v n : ℕ) (m : Memory)
    → HasBlock a ks v n
    → m (v - 8) ≢ 0
    → 1 + n ≤ unmoved m a ks
unfolding unmoved
unmoved-ge [] a v n m b set = absurd b
unmoved-ge (k ∷ ks) a v n m (inl b) set =
    let at : v - 8 ≡ a = omega arith in let was : m a ≢ 0 = λ z. set (rw at z) in ground arith
unmoved-ge (k ∷ ks) a v n m (inr b) set = omega (arith, unmoved-ge ks (a + 8 + 8 * k) v n m b set)

-- No more can be moved than the space holds.
pub unmoved-le : (ks : List ℕ) (a e : ℕ) (m : Memory) → Tiles a ks e → a + 8 * unmoved m a ks ≤ e
unfolding unmoved
unmoved-le [] a e m t = omega arith
unmoved-le (k ∷ ks) a e m t = ground (arith, unmoved-le ks (a + 8 + 8 * k) e m t.1)
