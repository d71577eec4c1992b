-- ===== src/Gc/Copy/Outside.antt =====
-- Memory that differs only outside from-space and the copies: the invariant does not see it.
use certirocq.Prelude.{ℕ, ◌+◌, ◌-◌, ◌*◌, ◌≤◌, ◌<◌, ◌≡◌, ◌⊎◌, inl, inr, ◌∙◌, sym, arith}
use certirocq.Values.{Memory, store}
use certirocq.Gc.Copy.{Copy}
use certirocq.Gc.Copy.Blocks.{unmoved_ext}
use certirocq.Gc.Copy.Invariant.{
  Layout, Block, IsLayout, FieldCopied, Unmoved, Moved, Inv, block_bounds, Moved_of_gone,
}
use certirocq.Gc.Copy.Place.{IsRoot, next-le, image_bounds}
use certirocq.Gc.Copy.Steps.{Grows, Queue-map}
use certirocq.Gc.Copy.Overwrite.{store_ne}

module _ {L : Layout} (w : IsLayout L) {scan : ℕ} {c : Copy} (inv : Inv L scan c) (m : Memory)
    (same_from : (a : ℕ) → L.from_start ≤ a → a < L.from_limit → m a ≡ c.mem a)
    (same_copies : (a : ℕ) → L.to_start ≤ a → a < c.next → m a ≡ c.mem a) where
  abbrev after : Copy
  after = record c { mem = m }

  same_header : (v n : ℕ) → Block L v n → m (v - 8) ≡ c.mem (v - 8)
  same_header v n b =
      let bounds = block_bounds L w v n b in same_from (v - 8) (omega arith) (omega arith)

  same_image : (v n : ℕ) → Block L v n → m v ≡ c.mem v
  same_image v n b = let bounds = block_bounds L w v n b in same_from v (omega arith) (omega arith)

  agree_field : (v n i : ℕ) → Block L v n → c.mem (v - 8) ≡ 0 → i < n → FieldCopied L scan m v i
  agree_field v n i b gone lt =
      let image = same_image v n b in
      let (lo, hi, top) = image_bounds L w inv v n b gone in
      let now : m (m v + 8 * i) ≡ c.mem (c.mem v + 8 * i) =
        rw image (same_copies (c.mem v + 8 * i) (omega arith) (omega arith)) in
      let before = (Moved_of_gone L w v n inv b gone).fields i lt in
      record {
        value = elim before.value [
          | inl same ↦ inl (now ∙ same)
          | inr (scans, fwd) ↦
              let (k, ok) = w.closed v n i b lt scans fwd.from in
              inr (
                scans,
                record {
                  from = fwd.from;
                  gone = same_header _ k ok ∙ fwd.gone;
                  image = now ∙ fwd.image ∙ sym (same_image _ k ok);
                },
              )
        ];
        scanned = λ lt_scan scans. rw now (before.scanned (rw (← image) lt_scan) scans);
      }

  agree_block : (v n : ℕ) → Block L v n → Unmoved L m v n ⊎ Moved L scan after v n
  agree_block v n b = elim (inv.block v n b) [
    | inl unmoved_yet ↦
        let bounds = block_bounds L w v n b in
        inl (record {
          header = same_header v n b ∙ unmoved_yet.header;
          fields =
              λ i lt. same_from (v + 8 * i) (omega arith) (omega arith) ∙ unmoved_yet.fields i lt;
        })
    | inr moved ↦
        let image = same_image v n b in
        let (lo, hi, top) = image_bounds L w inv v n b moved.gone in
        inr (record {
          gone = same_header v n b ∙ moved.gone;
          above = rw image moved.above;
          below = rw image moved.below;
          aligned = rw image moved.aligned;
          header = rw image (same_copies (c.mem v - 8) (omega arith) (omega arith) ∙ moved.header);
          fields = λ i lt. agree_field v n i b moved.gone lt;
        })
  ]

  agree-Inv : Inv L scan after
  agree-Inv = record {
    space = rw (unmoved_ext L.sizes L.from_start L.sizes_end c.mem m w.tiles same_header) inv.space;
    above = inv.above;
    aligned = inv.aligned;
    scan_below = inv.scan_below;
    block = agree_block;
    distinct = λ u j v n bu bv gu gv.
        let d =
          inv.distinct u j v n bu bv (sym (same_header u j bu) ∙ gu)
            (sym (same_header v n bv) ∙ gv) in
        rw (same_image u j bu, same_image v n bv) d;
  }

  agree_kept : (v n : ℕ) → Block L v n → c.mem (v - 8) ≡ 0 → (m (v - 8) ≡ 0) × (m v ≡ c.mem v)
  agree_kept v n b gone = (same_header v n b ∙ gone, same_image v n b)

  agree-Grows : Grows L c after
  agree-Grows = record {
    next_le = omega arith;
    kept = agree_kept;
    extend = λ s q. Queue-map L q agree_kept;
  }

-- A word outside both spaces is written.
module _ {L : Layout} (w : IsLayout L) {scan : ℕ} {c : Copy} (inv : Inv L scan c) (x v : ℕ)
    (out : IsRoot L x) where
  from_agrees : (a : ℕ) → L.from_start ≤ a → a < L.from_limit → store c.mem x v a ≡ c.mem a
  from_agrees a lo hi = store_ne c.mem x v a (λ e. omega (arith, out))

  copies_agree : (a : ℕ) → L.to_start ≤ a → a < c.next → store c.mem x v a ≡ c.mem a
  copies_agree a lo hi = store_ne c.mem x v a (λ e. omega (arith, out, next-le L w inv))

  pub store-Inv : Inv L scan (record c { mem = store c.mem x v })
  store-Inv = agree-Inv w inv (store c.mem x v) from_agrees copies_agree

  pub store-Grows : Grows L c (record c { mem = store c.mem x v })
  store-Grows = agree-Grows w inv (store c.mem x v) from_agrees copies_agree
