-- ===== src/Gc/Copy/Invariant.antt =====
-- What holds of memory while objects are being copied out of from-space.
use certirocq.Prelude.{
  ℕ, ◌+◌, ◌-◌, ◌*◌, ◌%◌, ◌≤◌, ◌<◌, ◌≡◌, ◌≢◌, ◌⊎◌, inl, inr, List, Bool, true, false, ◌&&◌, arith,
}
use certirocq.Values.{Memory, tag_hd, wosize_hd, no_scan}
use certirocq.Gc.Copy.{Copy, is_ptr, is_from}
use certirocq.Gc.Copy.Blocks.{Tiles, HasBlock, HasBlock-bounds, HasBlock-apart, unmoved}

-- From-space, the sizes of its objects, the memory before the collection, and the part of to-space
-- that copies may use.
pub record Layout : Type 0 where
  pub from_start : ℕ
  pub from_limit : ℕ
  pub sizes : List ℕ
  pub sizes_end : ℕ
  pub old : Memory
  pub to_start : ℕ
  pub to_limit : ℕ

module _ (L : Layout) where
  abbrev pub Block : ℕ → ℕ → Type 0
  Block v n = HasBlock L.from_start L.sizes v n

  -- A word that `forward` takes for a pointer into from-space.
  abbrev pub from_ptr : ℕ → Bool
  from_ptr w = is_ptr w && is_from L.from_start L.from_limit w

  -- A word that is such a pointer only if it points to an object.
  abbrev pub Good : ℕ → Type 0
  Good w = from_ptr w ≡ true → (n : ℕ) × Block w n

  -- Whether the object at `v` holds bare data.
  abbrev pub bare : ℕ → Bool
  bare v = no_scan (tag_hd (L.old (v - 8)))

  abbrev pub InFrom : ℕ → Type 0
  InFrom a = (L.from_start ≤ a) × (a < L.from_limit)

  -- The state of the world before the collection.
  pub record IsLayout : Type 0 where
    pub tiles : Tiles L.from_start L.sizes L.sizes_end
    pub fits : L.sizes_end ≤ L.from_limit
    pub apart : (L.from_limit ≤ L.to_start) ⊎ (L.to_limit ≤ L.from_start)
    pub aligned : L.to_start % 8 ≡ 0
    pub room : L.to_start + 8 * unmoved L.old L.from_start L.sizes ≤ L.to_limit
    pub headers : (v n : ℕ) → Block v n → wosize_hd (L.old (v - 8)) ≡ n
    pub closed : (v n i : ℕ) → Block v n → i < n → bare v ≡ false → Good (L.old (v + 8 * i))

  -- `a` holds the word `w` with its pointer replaced by that of the copy.
  pub record Forwarded (m : Memory) (w w' : ℕ) : Type 0 where
    pub from : from_ptr w ≡ true
    pub gone : m (w - 8) ≡ 0
    pub image : w' ≡ m w

  -- Field `i` of the object at `v`, whose copy is at `m v`. `scan` is the address up to which
  -- to-space has been scanned.
  pub record FieldCopied (scan : ℕ) (m : Memory) (v i : ℕ) : Type 0 where
    pub value :
        (m (m v + 8 * i) ≡ L.old (v + 8 * i))
        ⊎ ((bare v ≡ false) × Forwarded m (L.old (v + 8 * i)) (m (m v + 8 * i)))
    pub scanned : m v + 8 * i < scan → bare v ≡ false → from_ptr (m (m v + 8 * i)) ≡ false

  pub record Unmoved (m : Memory) (v n : ℕ) : Type 0 where
    pub header : m (v - 8) ≡ L.old (v - 8)
    pub fields : (i : ℕ) → i < n → m (v + 8 * i) ≡ L.old (v + 8 * i)

  pub record Moved (scan : ℕ) (c : Copy) (v n : ℕ) : Type 0 where
    pub gone : c.mem (v - 8) ≡ 0
    pub above : L.to_start + 8 ≤ c.mem v
    pub below : c.mem v + 8 * n ≤ c.next
    pub aligned : c.mem v % 8 ≡ 0
    pub header : c.mem (c.mem v - 8) ≡ L.old (v - 8)
    pub fields : (i : ℕ) → i < n → FieldCopied scan c.mem v i

  pub record Inv (scan : ℕ) (c : Copy) : Type 0 where
    pub space :
        c.next + 8 * unmoved c.mem L.from_start L.sizes
        ≡ L.to_start + 8 * unmoved L.old L.from_start L.sizes
    pub above : L.to_start ≤ c.next
    pub aligned : c.next % 8 ≡ 0
    pub scan_below : scan ≤ c.next
    pub block : (v n : ℕ) → Block v n → Unmoved c.mem v n ⊎ Moved scan c v n
    pub distinct :
        (u j v n : ℕ)
        → Block u j
        → Block v n
        → c.mem (u - 8) ≡ 0
        → c.mem (v - 8) ≡ 0
        → (u ≡ v) ⊎ (c.mem u + 8 * j + 8 ≤ c.mem v) ⊎ (c.mem v + 8 * n + 8 ≤ c.mem u)

  module _ (w : IsLayout) where
    pub block_bounds :
        (v n : ℕ) → Block v n → (L.from_start + 8 ≤ v) × (v + 8 * n ≤ L.from_limit) × (1 ≤ n)
    block_bounds v n b =
        omega (arith, HasBlock-bounds L.sizes L.from_start L.sizes_end v n w.tiles b, w.fits)

    pub blocks_apart :
        (u j v n : ℕ)
        → Block u j
        → Block v n
        → (u ≡ v) × (j ≡ n) ⊎ (u + 8 * j + 8 ≤ v) ⊎ (v + 8 * n + 8 ≤ u)
    blocks_apart u j v n b c = HasBlock-apart L.sizes L.from_start L.sizes_end u j v n w.tiles b c

    -- A block's header was not 0 before.
    pub old_header : (v n : ℕ) → Block v n → L.old (v - 8) ≢ 0
    unfolding wosize_hd
    old_header v n b z = absurd (omega (arith, w.headers v n b, block_bounds v n b))

    -- The header decides whether a block has been moved.
    pub Moved_of_gone :
        {scan : ℕ} {c : Copy} (v n : ℕ)
        → Inv scan c
        → Block v n
        → c.mem (v - 8) ≡ 0
        → Moved scan c v n
    Moved_of_gone v n inv b gone = elim (inv.block v n b) [
      | inl u ↦ absurd (old_header v n b (omega (arith, u.header)))
      | inr moved ↦ moved
    ]

    pub Unmoved_of_header :
        {scan : ℕ} {c : Copy} (v n : ℕ)
        → Inv scan c
        → Block v n
        → c.mem (v - 8) ≢ 0
        → Unmoved c.mem v n
    Unmoved_of_header v n inv b set = elim (inv.block v n b) [
      | inl unmoved_yet ↦ unmoved_yet
      | inr moved ↦ absurd (set moved.gone)
    ]
