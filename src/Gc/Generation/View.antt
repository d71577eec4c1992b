-- ===== src/Gc/Generation/View.antt =====
-- What the mutator can see of the objects of a space, as trees cut off at any depth. A collection
-- does not change it.
use certirocq.Prelude.{
  ℕ, zero, suc, ◌+◌, ◌-◌, ◌*◌, ◌<◌, ◌≡◌, refl, sym, ap, ap₂, ◌∙◌, inl, inr, Bool, Bool-cases, true,
  false, ◌&&◌, arith, if◌then◌else◌,
}
use certirocq.Values.{Memory, wosize_hd, tag_hd, no_scan}
use certirocq.Values.Header.{is_block-mod}
use certirocq.Gc.Copy.{is_ptr, is_from}
use certirocq.Gc.Copy.Invariant.{Layout, Block, IsLayout, from_ptr, Good, bare, block_bounds}
use certirocq.Gc.Generation.Laws.{Image, IsCopied, IsTraced}

-- A word that is no pointer into the space is seen as it is; a pointer is seen as the header and the
-- fields of its object, the fields of bare data as words.
mutual
  pub data View : Type 0 where
    cut : View
    word : ℕ → View
    object : ℕ → Views → View

  pub data Views : Type 0 where
    none : Views
    field : View → Views → Views

-- The fields from `a` on, each seen by `see`.
unfoldable pub fields_view : (see : ℕ → View) → Memory → (n a : ℕ) → Views
fields_view see m zero a = none
fields_view see m (suc n) a = field (see (m a)) (fields_view see m n (a + 8))

-- A pointer into the space.
abbrev pub points : (start limit : ℕ) → ℕ → Bool
points start limit w = is_ptr w && is_from start limit w

module _ (start limit : ℕ) (m : Memory) where
  unfoldable pub view : (depth : ℕ) → ℕ → View
  unfolding fields_view
  view zero w = cut
  view (suc d) w =
      let hd = m (w - 8) in
      let inside = fields_view (view d) m (wosize_hd hd) w in
      let raw = fields_view word m (wosize_hd hd) w in
      if points start limit w
      then object hd (if no_scan (tag_hd hd) then raw else inside)
      else word w

  view-word : (d w : ℕ) → points start limit w ≡ false → view (suc d) w ≡ word w
  unfolding view
  view-word d w out = rw out refl

  view-data :
      (d w hd n : ℕ)
      → points start limit w ≡ true
      → m (w - 8) ≡ hd
      → wosize_hd hd ≡ n
      → no_scan (tag_hd hd) ≡ true
      → view (suc d) w ≡ object hd (fields_view word m n w)
  unfolding view
  view-data d w hd n into header size data_only = rw (into, header, size, data_only) refl

  view-values :
      (d w hd n : ℕ)
      → points start limit w ≡ true
      → m (w - 8) ≡ hd
      → wosize_hd hd ≡ n
      → no_scan (tag_hd hd) ≡ false
      → view (suc d) w ≡ object hd (fields_view (view d) m n w)
  unfolding view
  view-values d w hd n into header size scans = rw (into, header, size, scans) refl

-- Fields that look the same look the same together.
fields_view_ext :
    (see see' : ℕ → View) (m m' : Memory) (n a a' : ℕ)
    → ((i : ℕ) → i < n → see (m (a + 8 * i)) ≡ see' (m' (a' + 8 * i)))
    → fields_view see m n a ≡ fields_view see' m' n a'
unfolding fields_view
fields_view_ext see see' m m' zero a a' same = refl
fields_view_ext see see' m m' (suc n) a a' same = ap₂ field (at_first (same 0 (omega arith))) (
    fields_view_ext see see' m m' n (a + 8) (a' + 8) λ i lt.
      let e : a + 8 * suc i ≡ a + 8 + 8 * i = omega arith in
      let e' : a' + 8 * suc i ≡ a' + 8 + 8 * i = omega arith in
      rw (e, e') at (same (suc i) (omega arith)))
  where
    at_first : see (m (a + 8 * 0)) ≡ see' (m' (a' + 8 * 0)) → see (m a) ≡ see' (m' a')
    at_first h =
        let e : a + 8 * 0 ≡ a = omega arith in
        let e' : a' + 8 * 0 ≡ a' = omega arith in rw (e, e') at h

module _ {L : Layout} (w : IsLayout L) {Roots : ℕ → Type 0} {m : Memory} {next : ℕ}
    (t : IsTraced L Roots m next) where
  -- A word that does not point into the part of to-space that has been filled.
  abbrev pub NotNew : ℕ → Type 0
  NotNew x = points L.to_start next x ≡ false

  -- Where the copy of an object is.
  IsCopied-points :
      (v n : ℕ) → Block L v n → IsCopied L m next v n → points L.to_start next (m v) ≡ true
  IsCopied-points v n b c =
      ground (arith, is_block-mod (m v), c.above, c.below, c.aligned, block_bounds L w v n b)

  module _
      (old_fields : (v n i : ℕ)
        → Block L v n
        → i < n
        → bare L v ≡ false
        → NotNew (L.old (v + 8 * i))) where
    view-zero : (x x' : ℕ) → view L.from_start L.from_limit L.old 0 x ≡ view L.to_start next m 0 x'
    unfolding view
    view-zero x x' = refl

    -- An object and its copy, whose fields look the same one level down.
    IsCopied-view :
        (d x n : ℕ)
        → (b : Block L x n) → from_ptr L x ≡ true
        → IsCopied L m next x n
        → ((i : ℕ)
            → i < n
            → bare L x ≡ false
            → view L.from_start L.from_limit L.old d (L.old (x + 8 * i))
              ≡ view L.to_start next m d (m (m x + 8 * i)))
        → view L.from_start L.from_limit L.old (suc d) x ≡ view L.to_start next m (suc d) (m x)
    IsCopied-view d x n b from c fields = elim (Bool-cases (bare L x)) [
      | inl data_only ↦
          view-data L.from_start L.from_limit L.old d x _ n from refl (w.headers x n b) data_only
          ∙ ap (object (L.old (x - 8))) (
              fields_view_ext word word L.old m n x (m x)
                λ i lt. ap word (sym (c.data_fields i lt data_only)))
          ∙ sym (
              view-data L.to_start next m d (m x) _ n (IsCopied-points x n b c) c.header
                (w.headers x n b) data_only)
      | inr scans ↦
          view-values L.from_start L.from_limit L.old d x _ n from refl (w.headers x n b) scans
          ∙ ap (object (L.old (x - 8)))
              (fields_view_ext _ _ L.old m n x (m x) λ i lt. fields i lt scans)
          ∙ sym (
              view-values L.to_start next m d (m x) _ n (IsCopied-points x n b c) c.header
                (w.headers x n b) scans)
    ]

    pub Image-view :
        (d x x' : ℕ)
        → Good L x
        → NotNew x
        → Image L m x x'
        → view L.from_start L.from_limit L.old d x ≡ view L.to_start next m d x'
    Image-view zero x x' good new image = view-zero x x'
    Image-view (suc d) x x' good new image = elim image.value [
      | inl same ↦
          let out : from_ptr L x ≡ false = rw same at image.not_from in
          view-word L.from_start L.from_limit L.old d x out
          ∙ ap word (sym same)
          ∙ sym (view-word L.to_start next m d x' (rw same new))
      | inr fwd ↦
          let (n, b) = good fwd.from in
          let c = t.copies x n b fwd.gone in
          rw fwd.image (
            IsCopied-view d x n b fwd.from c λ i lt scans.
              Image-view d (L.old (x + 8 * i)) (m (m x + 8 * i)) (w.closed x n i b lt scans)
                (old_fields x n i b lt scans) (c.value_fields i lt scans))
    ]
