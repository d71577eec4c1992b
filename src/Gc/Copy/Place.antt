-- ===== src/Gc/Copy/Place.antt =====
-- The words that the collector may overwrite: roots, and fields of copies. Overwriting one by the
-- address of a copy keeps the invariant.
use mathlib.Core.Logic.{◌⊎◌, inl, inr}
use certirocq.Prelude.{ℕ, ◌+◌, ◌-◌, ◌*◌, ◌≤◌, ◌<◌, ◌≡◌, ◌≢◌, Bool-cases, true, false, arith}
use certirocq.Values.{Memory}
use certirocq.Gc.Copy.{Copy}
use certirocq.Gc.Copy.Invariant.{
  Layout, Block, from_ptr, bare, InFrom, IsLayout, Inv, block_bounds, Moved_of_gone,
}

module _ (L : Layout) where
  abbrev pub NotFrom : ℕ → Type 0
  NotFrom a = (a < L.from_start) ⊎ (L.from_limit ≤ a)

  -- Neither in from-space nor where copies may still be put, once to-space is used up to `next`.
  abbrev pub Outside : ℕ → ℕ → Type 0
  Outside next a = NotFrom a × ((a < next) ⊎ (L.to_limit ≤ a))

  -- A field, to be scanned, of a copy.
  pub record InCopy (m : Memory) (p : ℕ) : Type 0 where
    pub block : ℕ
    pub size : ℕ
    pub index : ℕ
    pub is_block : Block L block size
    pub gone : m (block - 8) ≡ 0
    pub in_range : index < size
    pub scans : bare L block ≡ false
    pub at : p ≡ m block + 8 * index

  abbrev pub IsRoot : ℕ → Type 0
  IsRoot p = Outside L.to_start p

  abbrev pub Place : Memory → ℕ → Type 0
  Place m p = IsRoot p ⊎ InCopy m p

  module _ (w : IsLayout L) where
    pub from_ptr-InFrom : (a : ℕ) → from_ptr L a ≡ true → InFrom L a
    from_ptr-InFrom a h = ground arith

    -- An address in to-space does not point into from-space.
    pub from_ptr-to : (a : ℕ) → L.to_start ≤ a → a < L.to_limit → from_ptr L a ≡ false
    from_ptr-to a lo hi = elim (Bool-cases (from_ptr L a)) [
      | inl p ↦ absurd (omega (arith, from_ptr-InFrom a p, w.apart))
      | inr np ↦ np
    ]

    module _ {scan : ℕ} {c : Copy} (inv : Inv L scan c) where
      pub next-le : c.next ≤ L.to_limit
      next-le = omega (arith, inv.space, w.room)

      -- Where the copy of a moved block lies.
      pub image_bounds :
          (v n : ℕ)
          → Block L v n
          → c.mem (v - 8) ≡ 0
          → (L.to_start + 8 ≤ c.mem v) × (c.mem v + 8 * n ≤ c.next) × (c.mem v < L.to_limit)
      image_bounds v n b gone =
          let moved = Moved_of_gone L w v n inv b gone in
          omega (arith, moved.above, moved.below, block_bounds L w v n b, next-le)

      pub image_not_from :
          (v n : ℕ) → Block L v n → c.mem (v - 8) ≡ 0 → from_ptr L (c.mem v) ≡ false
      image_not_from v n b gone =
          let (lo, hi, lt) = image_bounds v n b gone in from_ptr-to (c.mem v) (omega arith) lt

      pub Place-Outside : (p : ℕ) → Place c.mem p → Outside c.next p
      Place-Outside p (inl (nf, out)) = (nf, omega (arith, inv.above))
      Place-Outside p (inr f) =
          let bounds = image_bounds f.block f.size f.is_block f.gone in
          (
            omega (arith, bounds, f.at, f.in_range, w.apart, next-le),
            omega (arith, bounds, f.at, f.in_range),
          )

      -- The copy of the block `v` holds no place but its own scanned fields.
      pub not_header :
          (p v n : ℕ) → Place c.mem p → Block L v n → c.mem (v - 8) ≡ 0 → c.mem v - 8 ≢ p
      not_header p v n (inl (nf, out)) b gone e = omega (arith, image_bounds v n b gone, next-le)
      not_header p v n (inr f) b gone e =
          elim (inv.distinct f.block f.size v n f.is_block b f.gone gone) [
            | inl one ↦
                let same : c.mem f.block ≡ c.mem v = rw one in
                omega (arith, f.at, same, image_bounds v n b gone)
            | inr apart ↦ omega (arith, apart, f.at, f.in_range, image_bounds v n b gone)
          ]

      pub field_scans :
          (p v n i : ℕ)
          → Place c.mem p
          → Block L v n
          → c.mem (v - 8) ≡ 0
          → i < n
          → c.mem v + 8 * i ≡ p
          → bare L v ≡ false
      field_scans p v n i (inl (nf, out)) b gone lt e =
          absurd (omega (arith, image_bounds v n b gone, next-le))
      field_scans p v n i (inr f) b gone lt e =
          elim (inv.distinct f.block f.size v n f.is_block b f.gone gone) [
            | inl one ↦ rw (← one) f.scans
            | inr apart ↦ absurd (omega (arith, apart, f.at, f.in_range))
          ]
