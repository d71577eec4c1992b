-- ===== src/Gc/Copy/Overwrite.antt =====
-- Overwriting a pointer to a moved object by the address of its copy keeps the invariant.
use certirocq.Prelude.{
  ℕ, ◌+◌, ◌-◌, ◌*◌, ◌≤◌, ◌<◌, ◌≡◌, ◌≢◌, ◌⊎◌, inl, inr, Bool, Bool-cases, true, false, ◌∙◌, sym, ap,
  arith, ◌==◌, ==_iff,
}
use certirocq.Values.{Memory, store}
use certirocq.Gc.Copy.{Copy}
use certirocq.Gc.Copy.Blocks.{unmoved_ext}
use certirocq.Gc.Copy.Invariant.{
  Layout, Block, from_ptr, IsLayout, Forwarded, FieldCopied, Unmoved, Moved, Inv, block_bounds,
  Moved_of_gone,
}
use certirocq.Gc.Copy.Place.{Place, image_not_from, Place-Outside, not_header, field_scans}

pub store_ne : (m : Memory) (p w a : ℕ) → a ≢ p → store m p w a ≡ m a
store_ne m p w a ne = ground arith

pub store_self : (m : Memory) (p w : ℕ) → store m p w p ≡ w
store_self m p w = ground arith

module _ {L : Layout} (w : IsLayout L) {scan : ℕ} {c : Copy} (inv : Inv L scan c) (p v n : ℕ)
    (place : Place L c.mem p) (b : Block L v n) (gone : c.mem (v - 8) ≡ 0) (at : c.mem p ≡ v)
    (from : from_ptr L v ≡ true) where
  abbrev after : Copy
  after = record c { mem = store c.mem p (c.mem v) }

  same_in_from : (a : ℕ) → L.from_start ≤ a → a < L.from_limit → after.mem a ≡ c.mem a
  same_in_from a lo hi =
      let outside = Place-Outside L w inv p place in
      store_ne c.mem p (c.mem v) a (λ e. omega (arith, outside.0))

  same_header : (u j : ℕ) → Block L u j → after.mem (u - 8) ≡ c.mem (u - 8)
  same_header u j bu =
      let bounds = block_bounds L w u j bu in same_in_from (u - 8) (omega arith) (omega arith)

  same_field : (u j i : ℕ) → Block L u j → i < j → after.mem (u + 8 * i) ≡ c.mem (u + 8 * i)
  same_field u j i bu lt =
      let bounds = block_bounds L w u j bu in same_in_from (u + 8 * i) (omega arith) (omega arith)

  same_image : (u j : ℕ) → Block L u j → after.mem u ≡ c.mem u
  same_image u j bu =
      let bounds = block_bounds L w u j bu in same_in_from u (omega arith) (omega arith)

  -- The field of a copy that is overwritten: its old value points to `v`.
  overwritten :
      (u j i : ℕ)
      → Block L u j
      → c.mem (u - 8) ≡ 0
      → i < j
      → c.mem u + 8 * i ≡ p
      → (m' : Memory) → ((a k : ℕ) → Block L a k → m' (a - 8) ≡ c.mem (a - 8))
      → ((a k : ℕ) → Block L a k → m' a ≡ c.mem a)
      → Forwarded L m' (L.old (u + 8 * i)) (c.mem v)
  overwritten u j i bu gu lt e m' heads images =
      elim ((Moved_of_gone L w u j inv bu gu).fields i lt).value [
        | inl same ↦
            let old_v : L.old (u + 8 * i) ≡ v = sym same ∙ ap c.mem e ∙ at in
            record {
              from = rw old_v from;
              gone = rw old_v (heads v n b ∙ gone);
              image = rw old_v (sym (images v n b));
            }
        | inr (scans, fwd) ↦
            let (k, ok) = w.closed u j i bu lt scans fwd.from in
            let not_from = image_not_from L w inv (L.old (u + 8 * i)) k ok fwd.gone in
            let reads : c.mem (L.old (u + 8 * i)) ≡ v = sym fwd.image ∙ ap c.mem e ∙ at in
            absurd (contradiction (from_ptr L v) from (rw reads at not_from))
      ]
    where
      contradiction : (x : Bool) → x ≡ true → x ≡ false → ⊥
      contradiction x t f = cc

  pub overwrite_field :
      (u j i : ℕ) → Block L u j → c.mem (u - 8) ≡ 0 → i < j → FieldCopied L scan after.mem u i
  overwrite_field u j i bu gu lt =
      let image = same_image u j bu in
      elim (Bool-cases (c.mem u + 8 * i == p)) [
        | inl eq ↦
            let e : c.mem u + 8 * i ≡ p = (==_iff _ p).0 eq in
            let now : after.mem (after.mem u + 8 * i) ≡ c.mem v =
              rw (image, e) (store_self c.mem p (c.mem v)) in
            let scans = field_scans L w inv p u j i place bu gu lt e in
            let fwd = overwritten u j i bu gu lt e after.mem same_header same_image in
            record {
              value = inr (scans, rw now fwd);
              scanned = λ _ _. rw now (image_not_from L w inv v n b gone);
            }
        | inr ne ↦
            let now : after.mem (after.mem u + 8 * i) ≡ c.mem (c.mem u + 8 * i) =
              rw image (store_ne c.mem p (c.mem v) (c.mem u + 8 * i) (λ e. clash _ ne e)) in
            let before = (Moved_of_gone L w u j inv bu gu).fields i lt in
            record {
              value = elim before.value [
                | inl same ↦ inl (now ∙ same)
                | inr (scans, fwd) ↦
                    let (k, ok) = w.closed u j i bu lt scans fwd.from in
                    inr (
                      scans,
                      record {
                        from = fwd.from;
                        gone = same_header _ k ok ∙ fwd.gone;
                        image = now ∙ fwd.image ∙ sym (same_image _ k ok);
                      },
                    )
              ];
              scanned = λ lt_scan scans. rw now (before.scanned (rw (← image) lt_scan) scans);
            }
      ]
    where
      clash : (a : ℕ) → (a == p) ≡ false → a ≢ p
      clash a ne e = ground arith

  overwrite_block : (u j : ℕ) → Block L u j → Unmoved L after.mem u j ⊎ Moved L scan after u j
  overwrite_block u j bu = elim (inv.block u j bu) [
    | inl unmoved_yet ↦ inl (record {
      header = same_header u j bu ∙ unmoved_yet.header;
      fields = λ i lt. same_field u j i bu lt ∙ unmoved_yet.fields i lt;
    })
    | inr moved ↦
        let image = same_image u j bu in
        inr (record {
          gone = same_header u j bu ∙ moved.gone;
          above = rw image moved.above;
          below = rw image moved.below;
          aligned = rw image moved.aligned;
          header = rw image (
              store_ne c.mem p (c.mem v) (c.mem u - 8)
                (not_header L w inv p u j place bu moved.gone)
              ∙ moved.header);
          fields = λ i lt. overwrite_field u j i bu moved.gone lt;
        })
  ]

  pub overwrite-Inv : Inv L scan after
  overwrite-Inv = record {
    space =
        rw (unmoved_ext L.sizes L.from_start L.sizes_end c.mem after.mem w.tiles same_header)
          inv.space;
    above = inv.above;
    aligned = inv.aligned;
    scan_below = inv.scan_below;
    block = overwrite_block;
    distinct = λ u j x k bu bx gu gx.
        let d =
          inv.distinct u j x k bu bx (sym (same_header u j bu) ∙ gu)
            (sym (same_header x k bx) ∙ gx) in
        rw (same_image u j bu, same_image x k bx) d;
  }
