-- ===== src/Gc/Copy/Forward.antt =====
-- `forward` keeps the invariant at every depth, and treats the word that it is given.
use certirocq.Prelude.{
  ℕ, ◌+◌, ◌-◌, ◌*◌, ◌≤◌, ◌<◌, ◌≡◌, ◌≢◌, refl, inl, inr, ◌∙◌, sym, arith, true, false,
}
use certirocq.Values.{store, wosize_hd}
use certirocq.Gc.Copy.{Copy, move}
use certirocq.Gc.Copy.Invariant.{
  Layout, Block, bare, IsLayout, Inv, from_ptr, block_bounds, Unmoved_of_header,
}
use certirocq.Gc.Copy.Place.{Outside, InCopy, Place, image_not_from, Place-Outside}
use certirocq.Gc.Copy.Overwrite.{overwrite-Inv, store_ne, store_self}
use certirocq.Gc.Copy.Evacuate.{
  IsEvacuated, evacuated, evacuated-IsEvacuated, evacuate-Inv, fits, other_header, other_image,
}
use certirocq.Gc.Copy.Blocks.{unmoved-ge}
use certirocq.Gc.Copy.Steps.{
  Grows, Queue-map, Queue-snoc, Grows-refl, Grows-trans, Place-Grows, Step,
}

module _ {L : Layout} (w : IsLayout L) {scan : ℕ} where
  -- A word that does not point into from-space stays.
  pub Step-not_from :
      {c : Copy} (p : ℕ) → Inv L scan c → from_ptr L (c.mem p) ≡ false → Step L scan p c c
  Step-not_from {c} p inv nf = record {
    inv = inv;
    grows = Grows-refl L c;
    treated = record { value = inl refl; not_from = nf };
    frame = λ a out ne. refl;
  }

  -- A word that points to a moved object is overwritten.
  pub Step-moved :
      {c : Copy} (p n : ℕ)
      → Inv L scan c
      → Place L c.mem p
      → Block L (c.mem p) n
      → c.mem (c.mem p - 8) ≡ 0
      → from_ptr L (c.mem p) ≡ true
      → Step L scan p c (record c { mem = store c.mem p (c.mem (c.mem p)) })
  Step-moved {c} p n inv place b gone from =
      let v = c.mem p in
      let out = Place-Outside L w inv p place in
      let same : (u j : ℕ)
          → Block L u j
          → (store c.mem p (c.mem v) (u - 8) ≡ c.mem (u - 8))
            × (store c.mem p (c.mem v) u ≡ c.mem u) =
        λ u j bu.
          let bounds = block_bounds L w u j bu in
          (
            store_ne c.mem p (c.mem v) (u - 8) (λ e. omega (arith, out.0)),
            store_ne c.mem p (c.mem v) u (λ e. omega (arith, out.0)),
          ) in
      let now : store c.mem p (c.mem v) p ≡ c.mem v = store_self c.mem p (c.mem v) in
      let kept : (u j : ℕ)
          → Block L u j
          → c.mem (u - 8) ≡ 0
          → (store c.mem p (c.mem v) (u - 8) ≡ 0) × (store c.mem p (c.mem v) u ≡ c.mem u) =
        λ u j bu gu. ((same u j bu).0 ∙ gu, (same u j bu).1) in
      record {
        inv = overwrite-Inv w inv p v n place b gone refl from;
        grows = record { next_le = omega arith; kept = kept; extend = λ s q. Queue-map L q kept };
        treated = record {
          value = inr (record {
            from = from;
            gone = (same v n b).0 ∙ gone;
            image = now ∙ sym ((same v n b).1);
          });
          not_from = rw now (image_not_from L w inv v n b gone);
        };
        frame = λ a outside ne. store_ne c.mem p (c.mem v) a ne;
      }

  -- A word that points to an object that is still in place: the object is moved first.
  module _ {c : Copy} (p n : ℕ) (inv : Inv L scan c) (place : Place L c.mem p)
      (b : Block L (c.mem p) n) (set : c.mem (c.mem p - 8) ≢ 0) where
    abbrev copied : Copy
    copied = record {
      mem = evacuated (c.mem (c.mem p - 8)) (c.mem p) n c.next c.mem;
      next = c.next + 8 + 8 * n;
    }

    copied-IsEvacuated : IsEvacuated (c.mem p) n c.next c.mem copied.mem
    copied-IsEvacuated =
        let bounds = block_bounds L w (c.mem p) n b in
        evacuated-IsEvacuated (c.mem p) n c.next c.mem (omega arith) (omega arith)
          (omega (arith, w.apart, inv.above, copied_fits))
      where
        copied_fits : c.next + 8 + 8 * n ≤ L.to_limit
        copied_fits =
            omega
              (arith, inv.space, w.room, unmoved-ge L.sizes L.from_start (c.mem p) n c.mem b set)

    copied_frame : (a : ℕ) → Outside L c.next a → copied.mem a ≡ c.mem a
    copied_frame a (nf, out) =
        let bounds = block_bounds L w (c.mem p) n b in
        let room = fits w inv (c.mem p) n b set copied-IsEvacuated in
        copied-IsEvacuated.others a (λ e. omega arith) (λ e. omega arith) (omega arith)

    copied-Grows : Grows L c copied
    copied-Grows =
        let kept : (u j : ℕ)
            → Block L u j
            → c.mem (u - 8) ≡ 0
            → (copied.mem (u - 8) ≡ 0) × (copied.mem u ≡ c.mem u) =
          λ u j bu gone.
            let ne : u ≢ c.mem p = λ e. set (rw e at gone) in
            (
              other_header w inv (c.mem p) n b set copied-IsEvacuated u j bu ne ∙ gone,
              other_image w inv (c.mem p) n b set copied-IsEvacuated u j bu ne,
            ) in
        record {
          next_le = omega arith;
          kept = kept;
          extend = λ s q.
              Queue-snoc L (c.mem p) n (Queue-map L q kept) b copied-IsEvacuated.gone
                copied-IsEvacuated.image;
        }

    pub copied-Step :
        from_ptr L (c.mem p) ≡ true
        → Step L scan p c (record copied { mem = store copied.mem p (copied.mem (c.mem p)) })
    copied-Step from =
        let inv' = evacuate-Inv w inv (c.mem p) n b set copied-IsEvacuated in
        let same : copied.mem p ≡ c.mem p = copied_frame p (Place-Outside L w inv p place) in
        let step : Step L scan p copied
            (record copied { mem = store copied.mem p (copied.mem (copied.mem p)) }) =
          Step-moved p n inv' (Place-Grows L copied-Grows place) (rw same b)
            (rw same copied-IsEvacuated.gone) (rw same from) in
        let step' = rw same at step in
        record {
          inv = step'.inv;
          grows = Grows-trans L copied-Grows step'.grows;
          treated = rw same at step'.treated;
          frame = λ a out ne. step'.frame a (out.0, omega (arith, out.1)) ne ∙ copied_frame a out;
        }

    pub move-Step :
        from_ptr L (c.mem p) ≡ true → Step L scan p c (move (c.mem (c.mem p - 8)) (c.mem p) p c)
    unfolding move
    move-Step from =
        let un = Unmoved_of_header L w (c.mem p) n inv b set in
        let size : wosize_hd (c.mem (c.mem p - 8)) ≡ n = rw un.header (w.headers (c.mem p) n b) in
        rw size (rw copied-IsEvacuated.image at (copied-Step from))

    -- Where the object has gone.
    move_mark :
        let c' = move (c.mem (c.mem p - 8)) (c.mem p) p c in
        (c'.mem (c.mem p - 8) ≡ 0) × (c'.mem (c.mem p) ≡ c.next + 8)
    unfolding move
    move_mark =
        let un = Unmoved_of_header L w (c.mem p) n inv b set in
        let size : wosize_hd (c.mem (c.mem p - 8)) ≡ n = rw un.header (w.headers (c.mem p) n b) in
        let bounds = block_bounds L w (c.mem p) n b in
        let out = Place-Outside L w inv p place in
        rw size (
          store_ne copied.mem p (c.next + 8) (c.mem p - 8) (λ e. omega (arith, out.0))
              ∙ copied-IsEvacuated.gone,
          store_ne copied.mem p (c.next + 8) (c.mem p) (λ e. omega (arith, out.0))
              ∙ copied-IsEvacuated.image,
        )

    pub move_next : c.next + 8 + 8 * n ≤ (move (c.mem (c.mem p - 8)) (c.mem p) p c).next
    unfolding move
    move_next =
        let un = Unmoved_of_header L w (c.mem p) n inv b set in
        let size : wosize_hd (c.mem (c.mem p - 8)) ≡ n = rw un.header (w.headers (c.mem p) n b) in
        rw size (omega arith)

    -- The fields of the new copy, for the search in depth.
    pub move-InCopy :
        (i : ℕ)
        → i < n
        → bare L (c.mem p) ≡ false
        → InCopy L (move (c.mem (c.mem p - 8)) (c.mem p) p c).mem (c.next + 8 + 8 * i)
    move-InCopy i lt scans = record {
      block = c.mem p;
      size = n;
      index = i;
      is_block = b;
      gone = move_mark.0;
      in_range = lt;
      scans = scans;
      at = omega (arith, move_mark.1);
    }
