-- ===== src/Gc/Copy/Evacuate.antt =====
-- Copying one object to the end of to-space keeps the invariant.
use certirocq.Prelude.{ℕ, ◌+◌, ◌-◌, ◌*◌, ◌≤◌, ◌<◌, ◌≡◌, ◌≢◌, ◌⊎◌, inl, inr, ◌∙◌, sym, arith}
use native.Mathlib.Decide.{ℕ_discrete}
use certirocq.Values.{Memory, store}
use certirocq.Gc.Copy.{Copy, copy_fields}
use certirocq.Gc.Copy.Blocks.{unmoved, unmoved_clear, unmoved-ge}
use certirocq.Gc.Copy.Invariant.{
  Layout, Block, IsLayout, Unmoved, Moved, Inv, block_bounds, blocks_apart, Moved_of_gone,
  Unmoved_of_header,
}
use certirocq.Gc.Copy.Overwrite.{store_ne, store_self}
use certirocq.Gc.Copy.Fields.{copy_fields_outside, copy_fields_inside}

-- `m'` is `m` with the object at `v` copied to `next` and marked as moved.
pub record IsEvacuated (v n next : ℕ) (m m' : Memory) : Type 0 where
  pub gone : m' (v - 8) ≡ 0
  pub image : m' v ≡ next + 8
  pub header : m' next ≡ m (v - 8)
  pub fields : (i : ℕ) → i < n → m' (next + 8 + 8 * i) ≡ m (v + 8 * i)
  pub others : (a : ℕ) → a ≢ v - 8 → a ≢ v → (a < next) ⊎ (next + 8 + 8 * n ≤ a) → m' a ≡ m a

-- The writes of `forward` before the last one.
abbrev pub evacuated : ℕ → ℕ → ℕ → ℕ → Memory → Memory
evacuated hd v n next m =
    store (store (copy_fields n (next + 8) v (store m next hd)) (v - 8) 0) v (next + 8)

module _ (v n next : ℕ) (m : Memory) where
  abbrev with_header : Memory
  with_header = store m next (m (v - 8))

  abbrev with_fields : Memory
  with_fields = copy_fields n (next + 8) v with_header

  abbrev with_mark : Memory
  with_mark = store with_fields (v - 8) 0

  pub evacuated-IsEvacuated :
      8 ≤ v
      → 1 ≤ n
      → (v + 8 * n ≤ next) ⊎ (next + 8 + 8 * n + 8 ≤ v)
      → IsEvacuated v n next m (evacuated (m (v - 8)) v n next m)
  evacuated-IsEvacuated pos nonempty apart = record {
    gone =
        store_ne with_mark v (next + 8) (v - 8) (λ e. omega arith)
        ∙ store_self with_fields (v - 8) 0;
    image = store_self with_mark v (next + 8);
    header =
        untouched next (λ e. omega arith) (λ e. omega arith) (omega arith)
        ∙ store_self m next (m (v - 8));
    fields = λ i lt.
        store_ne with_mark v (next + 8) (next + 8 + 8 * i) (λ e. omega arith)
        ∙ store_ne with_fields (v - 8) 0 (next + 8 + 8 * i) (λ e. omega arith)
        ∙ copy_fields_inside n (next + 8) v with_header i lt (omega arith)
        ∙ store_ne m next (m (v - 8)) (v + 8 * i) (λ e. omega arith);
    others = λ a ne_head ne out.
        untouched a ne_head ne (omega arith) ∙ store_ne m next (m (v - 8)) a (λ e. omega arith);
  }
    where
      untouched :
          (a : ℕ)
          → a ≢ v - 8
          → a ≢ v
          → (a < next + 8) ⊎ (next + 8 + 8 * n ≤ a)
          → evacuated (m (v - 8)) v n next m a ≡ with_header a
      untouched a ne_head ne out =
          store_ne with_mark v (next + 8) a ne
          ∙ store_ne with_fields (v - 8) 0 a ne_head
          ∙ copy_fields_outside n (next + 8) v with_header a out

module _ {L : Layout} (w : IsLayout L) {scan : ℕ} {c : Copy} (inv : Inv L scan c) (v n : ℕ)
    (b : Block L v n) (set : c.mem (v - 8) ≢ 0) {m' : Memory}
    (ev : IsEvacuated v n c.next c.mem m') where
  abbrev after : Copy
  after = record { mem = m'; next = c.next + 8 + 8 * n }

  -- There is room for the copy.
  pub fits : c.next + 8 + 8 * n ≤ L.to_limit
  fits = omega (arith, inv.space, w.room, unmoved-ge L.sizes L.from_start v n c.mem b set)

  -- Other words of from-space stay.
  other_word : (a : ℕ) → L.from_start ≤ a → a < L.from_limit → a ≢ v - 8 → a ≢ v → m' a ≡ c.mem a
  other_word a lo hi ne_head ne = ev.others a ne_head ne (omega (arith, w.apart, inv.above, fits))

  pub other_header : (u j : ℕ) → Block L u j → u ≢ v → m' (u - 8) ≡ c.mem (u - 8)
  other_header u j bu ne =
      let bounds = block_bounds L w u j bu in
      let bounds_v = block_bounds L w v n b in
      let apart = blocks_apart L w u j v n bu b in
      other_word (u - 8) (omega arith) (omega arith) (λ e. ne (omega arith)) (λ e. ne (omega arith))

  other_field : (u j i : ℕ) → Block L u j → u ≢ v → i < j → m' (u + 8 * i) ≡ c.mem (u + 8 * i)
  other_field u j i bu ne lt =
      let bounds = block_bounds L w u j bu in
      let bounds_v = block_bounds L w v n b in
      let apart = blocks_apart L w u j v n bu b in
      other_word (u + 8 * i) (omega arith) (omega arith) (λ e. ne (omega arith))
        (λ e. ne (omega arith))

  pub other_image : (u j : ℕ) → Block L u j → u ≢ v → m' u ≡ c.mem u
  other_image u j bu ne =
      let bounds = block_bounds L w u j bu in
      let bounds_v = block_bounds L w v n b in
      let apart = blocks_apart L w u j v n bu b in
      other_word u (omega arith) (omega arith) (λ e. ne (omega arith)) ne

  -- So do the copies that are already there.
  old_copy : (a : ℕ) → L.to_start ≤ a → a < c.next → m' a ≡ c.mem a
  old_copy a lo hi =
      let bounds_v = block_bounds L w v n b in
      ev.others a (λ e. omega (arith, w.apart, fits)) (λ e. omega (arith, w.apart, fits)) (inl hi)

  space_left :
      c.next + 8 + 8 * n + 8 * unmoved m' L.from_start L.sizes
      ≡ L.to_start + 8 * unmoved L.old L.from_start L.sizes
  space_left = omega (
    arith,
    inv.space,
    unmoved_clear L.sizes L.from_start L.sizes_end v n c.mem m' w.tiles b set ev.gone other_header,
  )

  -- The new copy holds what the object held.
  new_Moved : Moved L scan after v n
  new_Moved =
      let was = Unmoved_of_header L w v n inv b set in
      record {
        gone = ev.gone;
        above = omega (arith, ev.image, inv.above);
        below = omega (arith, ev.image);
        aligned = omega (arith, ev.image, inv.aligned);
        header =
            let at : m' v - 8 ≡ c.next = omega (arith, ev.image) in rw at (ev.header ∙ was.header);
        fields = λ i lt. record {
          value = inl (rw (ev.image) (ev.fields i lt ∙ was.fields i lt));
          scanned = λ before. absurd (omega (arith, before, ev.image, inv.scan_below));
        };
      }

  kept_Moved : (u j : ℕ) → Block L u j → u ≢ v → Moved L scan c u j → Moved L scan after u j
  kept_Moved u j bu ne moved =
      let image = other_image u j bu ne in
      record {
        gone = other_header u j bu ne ∙ moved.gone;
        above = rw image moved.above;
        below = omega (arith, image, moved.below);
        aligned = rw image moved.aligned;
        header = rw image (
            old_copy (c.mem u - 8) (omega (arith, moved.above))
              (omega (arith, moved.above, moved.below))
            ∙ moved.header);
        fields = λ i lt.
            let now : m' (m' u + 8 * i) ≡ c.mem (c.mem u + 8 * i) = rw image (
              old_copy (c.mem u + 8 * i) (omega (arith, moved.above))
                (omega (arith, moved.below))) in
            let before = moved.fields i lt in
            record {
              value = elim before.value [
                | inl same ↦ inl (now ∙ same)
                | inr (scans, fwd) ↦
                    let (k, ok) = w.closed u j i bu lt scans fwd.from in
                    let other : L.old (u + 8 * i) ≢ v = λ e. set (rw e at fwd.gone) in
                    inr (
                      scans,
                      record {
                        from = fwd.from;
                        gone = other_header _ k ok other ∙ fwd.gone;
                        image = now ∙ fwd.image ∙ sym (other_image _ k ok other);
                      },
                    )
              ];
              scanned = λ lt_scan scans. rw now (before.scanned (rw (← image) lt_scan) scans);
            };
      }

  kept_Unmoved : (u j : ℕ) → Block L u j → u ≢ v → Unmoved L c.mem u j → Unmoved L m' u j
  kept_Unmoved u j bu ne un = record {
    header = other_header u j bu ne ∙ un.header;
    fields = λ i lt. other_field u j i bu ne lt ∙ un.fields i lt;
  }

  evacuate_block : (u j : ℕ) → Block L u j → Unmoved L m' u j ⊎ Moved L scan after u j
  evacuate_block u j bu = elim (ℕ_discrete u v) [
    | yes e ↦
        let size : j ≡ n = omega (arith, blocks_apart L w u j v n bu b, block_bounds L w u j bu) in
        inr (rw (e, size) new_Moved)
    | no ne ↦ elim (inv.block u j bu) [
      | inl un ↦ inl (kept_Unmoved u j bu ne un)
      | inr moved ↦ inr (kept_Moved u j bu ne moved)
    ]
  ]

  -- The new copy lies behind all others.
  behind : (u j : ℕ) → Block L u j → u ≢ v → m' (u - 8) ≡ 0 → m' u + 8 * j + 8 ≤ m' v
  behind u j bu ne gone =
      let moved = Moved_of_gone L w u j inv bu (sym (other_header u j bu ne) ∙ gone) in
      omega (arith, other_image u j bu ne, moved.below, ev.image)

  evacuate_distinct :
      (u j x k : ℕ)
      → Block L u j
      → Block L x k
      → m' (u - 8) ≡ 0
      → m' (x - 8) ≡ 0
      → (u ≡ x) ⊎ (m' u + 8 * j + 8 ≤ m' x) ⊎ (m' x + 8 * k + 8 ≤ m' u)
  evacuate_distinct u j x k bu bx gu gx = elim (ℕ_discrete u v) [
    | yes e ↦ elim (ℕ_discrete x v) [
      | yes f ↦ inl (e ∙ sym f)
      | no nf ↦ rw e (inr (inr (behind x k bx nf gx)))
    ]
    | no ne ↦ elim (ℕ_discrete x v) [
      | yes f ↦ rw f (inr (inl (behind u j bu ne gu)))
      | no nf ↦
          let d =
            inv.distinct u j x k bu bx (sym (other_header u j bu ne) ∙ gu)
              (sym (other_header x k bx nf) ∙ gx) in
          rw (other_image u j bu ne, other_image x k bx nf) d
    ]
  ]

  pub evacuate-Inv : Inv L scan after
  evacuate-Inv = record {
    space = space_left;
    above = omega (arith, inv.above);
    aligned = omega (arith, inv.aligned);
    scan_below = omega (arith, inv.scan_below);
    block = evacuate_block;
    distinct = evacuate_distinct;
  }
