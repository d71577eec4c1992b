-- ===== src/Gc/Copy/Settled.antt =====
-- Words that have been treated stay so.
use certirocq.Prelude.{ℕ, ◌+◌, ◌*◌, ◌≡◌, ◌⊎◌, inl, inr, ◌∙◌, sym, ap, Bool, true, false}
use mathlib.Core.Path.{subst}
use certirocq.Values.{Memory}
use certirocq.Gc.Copy.{Copy}
use certirocq.Gc.Copy.Invariant.{Layout, IsLayout, Inv, from_ptr, Good, Moved_of_gone}
use certirocq.Gc.Copy.Place.{InCopy, image_not_from}
use certirocq.Gc.Copy.Steps.{Grows, Treated}

module _ {L : Layout} (w : IsLayout L) where
  -- A field of a copy points to an object, if into from-space at all.
  pub InCopy-Good :
      {scan : ℕ} {c : Copy} (p : ℕ) → Inv L scan c → InCopy L c.mem p → Good L (c.mem p)
  InCopy-Good {c} p inv f from =
      let moved = Moved_of_gone L w f.block f.size inv f.is_block f.gone in
      elim (moved.fields f.index f.in_range).value [
        | inl same ↦
            let word : c.mem p ≡ L.old (f.block + 8 * f.index) = ap c.mem f.at ∙ same in
            let (k, ok) =
              w.closed f.block f.size f.index f.is_block f.in_range f.scans (rw (← word) from) in
            (k, rw word ok)
        | inr (scans, fwd) ↦
            let (k, ok) = w.closed f.block f.size f.index f.is_block f.in_range f.scans fwd.from in
            let nf = image_not_from L w inv _ k ok fwd.gone in
            let word : c.mem p ≡ c.mem (L.old (f.block + 8 * f.index)) =
              ap c.mem f.at ∙ fwd.image in
            absurd (both (from_ptr L (c.mem p)) from (rw word nf))
      ]
    where
      both : (x : Bool) → x ≡ true → x ≡ false → ⊥
      both x t f = cc

  -- What was treated stays so, while its word is left alone.
  pub Treated-Grows :
      {c c' : Copy} (old p : ℕ)
      → Good L old
      → Treated L old c.mem p
      → Grows L c c'
      → c'.mem p ≡ c.mem p
      → Treated L old c'.mem p
  Treated-Grows old p good t g same = record {
    value = elim t.value [
      | inl e ↦ inl (same ∙ e)
      | inr fwd ↦
          let (k, ok) = good fwd.from in
          let (gone, image) = g.kept old k ok fwd.gone in
          inr (record { from = fwd.from; gone = gone; image = same ∙ fwd.image ∙ sym image })
    ];
    not_from = rw same t.not_from;
  }

  -- A word that has been left alone or treated, perhaps more than once.
  abbrev pub Settled : ℕ → Memory → ℕ → Type 0
  Settled old m x = (m x ≡ old) ⊎ Treated L old m x

  pub Treated-Settled :
      {c c' : Copy} (old x : ℕ)
      → Good L old
      → Treated L old c.mem x
      → Grows L c c'
      → Settled (c.mem x) c'.mem x
      → Treated L old c'.mem x
  Treated-Settled old x good t g (inl same) = Treated-Grows old x good t g same
  Treated-Settled {c} {c'} old x good t g (inr again) = elim again.value [
    | inl same ↦ Treated-Grows old x good t g same
    | inr fwd ↦ absurd (opposite (from_ptr L (c.mem x)) fwd.from t.not_from)
  ]
    where
      opposite : (b : Bool) → b ≡ true → b ≡ false → ⊥
      opposite b t f = cc

  pub Settled-Settled :
      {c c' : Copy} (old x : ℕ)
      → Good L old
      → Settled old c.mem x
      → Grows L c c'
      → Settled (c.mem x) c'.mem x
      → Settled old c'.mem x
  Settled-Settled old x good (inr t) g s = inr (Treated-Settled old x good t g s)
  Settled-Settled {c} {c'} old x good (inl e) g s =
      let s' : Settled old c'.mem x = subst (λ o. Settled o c'.mem x) e s in s'

  pub Good-Settled : {m : Memory} (old x : ℕ) → Good L old → Settled old m x → Good L (m x)
  Good-Settled old x good (inl same) = rw same good
  Good-Settled {m} old x good (inr t) = λ from. absurd (opposite (from_ptr L (m x)) from t.not_from)
    where
      opposite : (y : Bool) → y ≡ true → y ≡ false → ⊥
      opposite y t f = cc

  -- A settled word that is treated next has been treated.
  pub Settled-Treated :
      {b c : Copy} (old x : ℕ)
      → Good L old
      → Settled old b.mem x
      → Grows L b c
      → Treated L (b.mem x) c.mem x
      → Treated L old c.mem x
  Settled-Treated old x good (inl same) g t = rw (← same) t
  Settled-Treated old x good (inr once) g t = Treated-Settled old x good once g (inr t)
