-- ===== src/Gc/Copy/Entry.antt =====
-- One entry of the remembered set in `forward_remset`: the cell is treated, and remembered again
-- below the limit of to-space if it pointed into from-space.
use certirocq.Prelude.{
  ℕ, ◌+◌, ◌-◌, ◌*◌, ◌≤◌, ◌<◌, ◌≡◌, ◌≢◌, refl, ◌⊎◌, inl, inr, ◌∙◌, Bool, Bool-cases, true, false,
  arith, ◌==◌, ==_iff, if◌then◌else◌,
}
use certirocq.Values.{Memory, store}
use certirocq.Gc.Types.{depth}
use certirocq.Gc.Copy.{Copy, is_from, forward}
use certirocq.Gc.Copy.Invariant.{Layout, IsLayout, Inv, Good, from_ptr}
use certirocq.Gc.Copy.Place.{IsRoot, Outside}
use certirocq.Gc.Copy.Steps.{Grows, Grows-refl, Grows-trans, Treated, Step}
use certirocq.Gc.Copy.Settled.{Treated-Grows}
use certirocq.Gc.Copy.Depth.{forward-Step}
use certirocq.Gc.Copy.Overwrite.{store_ne, store_self}
use certirocq.Gc.Copy.Outside.{store-Inv, store-Grows}

module _ (L : Layout) (top : ℕ) where
  -- Not among the words that are set aside for the new remembered set.
  abbrev pub NotSpare : ℕ → Type 0
  NotSpare x = (x < L.to_limit) ⊎ (top ≤ x)

  abbrev pub in_from : ℕ → Bool
  in_from p = is_from L.from_start L.from_limit p

  -- A cell that may be remembered: in from-space, or like a root.
  abbrev pub IsCell : Memory → ℕ → Type 0
  IsCell m p = (in_from p ≡ true) ⊎ (IsRoot L p × Good L (m p) × NotSpare p)

  -- The `n` entries from `q` on, their own words being no cells.
  pub record Entries (n q : ℕ) (m : Memory) : Type 0 where
    pub word : (i : ℕ) → i < n → IsRoot L (q + 8 * i) × NotSpare (q + 8 * i)
    pub cell : (i : ℕ) → i < n → IsCell m (m (q + 8 * i))
    pub apart :
        (i j : ℕ) → i < n → j < n → in_from (m (q + 8 * i)) ≡ false → m (q + 8 * i) ≢ q + 8 * j

pub opposite : (b : Bool) → b ≡ true → b ≡ false → ⊥
opposite b t f = cc

module _ {L : Layout} (w : IsLayout L) (top : ℕ) where
  -- One entry, for the cell `p`.
  pub record Entry (scan p : ℕ) (c : Copy) (limit : ℕ) (c' : Copy) (limit' : ℕ) : Type 0 where
    pub inv : Inv L scan c'
    pub grows : Grows L c c'
    pub treated : in_from L top p ≡ false → Treated L (c.mem p) c'.mem p
    pub frame :
        (x : ℕ)
        → Outside L c.next x
        → (x < L.to_limit) ⊎ (limit ≤ x)
        → (in_from L top p ≡ false → x ≢ p)
        → c'.mem x ≡ c.mem x
    pub logged :
        in_from L top p ≡ false
        → from_ptr L (c.mem p) ≡ true
        → (a : ℕ) × (limit' ≤ a) × (a < limit) × (c'.mem a ≡ p)
    pub down : (limit' ≤ limit) × (limit ≤ limit' + 8)

  -- The body of the loop.
  abbrev pub entry_after : ℕ → Copy → ℕ → Copy × ℕ
  entry_after p c limit =
      let b = forward L.from_start L.from_limit depth p c in
      if in_from L top p
      then (c, limit)
      else if c.mem p == b.mem p
      then (b, limit)
      else (record b { mem = store b.mem (limit - 8) p }, limit - 8)

  module _ {scan p limit : ℕ} {c : Copy} (inv : Inv L scan c)
      (spare : (L.from_limit ≤ L.to_limit) ⊎ (top ≤ L.from_start))
      (room : (L.to_limit + 8 ≤ limit) × (limit ≤ top)) where
    skipped : in_from L top p ≡ true → Entry scan p c limit c limit
    skipped from = record {
      inv = inv;
      grows = Grows-refl L c;
      treated = λ nf. absurd (opposite _ from nf);
      frame = λ x out ns ne. refl;
      logged = λ nf ptr. absurd (opposite _ from nf);
      down = omega arith;
    }

    module _ (root : IsRoot L p) (good : Good L (c.mem p)) (ns : NotSpare L top p) {b : Copy}
        (s : Step L scan p c b) (out_p : in_from L top p ≡ false) where
      unchanged : c.mem p ≡ b.mem p → Entry scan p c limit b limit
      unchanged same = record {
        inv = s.inv;
        grows = s.grows;
        treated = λ nf. s.treated;
        frame = λ x out ns ne. s.frame x out (ne out_p);
        logged = λ nf ptr. absurd (opposite _ ptr (rw same s.treated.not_from));
        down = omega arith;
      }

      pushed_out : IsRoot L (limit - 8)
      pushed_out = (omega arith, omega arith)

      pushed : Entry scan p c limit (record b { mem = store b.mem (limit - 8) p }) (limit - 8)
      pushed = record {
        inv = store-Inv w s.inv (limit - 8) p pushed_out;
        grows = Grows-trans L s.grows again;
        treated = λ nf.
            Treated-Grows w (c.mem p) p good s.treated again
              (store_ne b.mem (limit - 8) p p (λ e. omega arith));
        frame = λ x out ns ne.
            store_ne b.mem (limit - 8) p x (λ e. omega arith) ∙ s.frame x out (ne out_p);
        logged = λ nf ptr. (limit - 8, omega arith, omega arith, store_self b.mem (limit - 8) p);
        down = omega arith;
      }
        where
          again : Grows L b (record b { mem = store b.mem (limit - 8) p })
          again = store-Grows w s.inv (limit - 8) p pushed_out

    pub Entry-after :
        IsCell L top c.mem p
        → Entry scan p c limit (entry_after p c limit).0 (entry_after p c limit).1
    Entry-after (inl from) = rw from (skipped from)
    Entry-after (inr (root, good, ns)) = elim (Bool-cases (in_from L top p)) [
      | inl from ↦ rw from (skipped from)
      | inr nf ↦
          let s = forward-Step w depth p c inv (inl root) good in
          elim (Bool-cases (c.mem p == (forward L.from_start L.from_limit depth p c).mem p)) [
            | inl same ↦ rw (nf, same) (unchanged root good ns s nf ((==_iff _ _).0 same))
            | inr differ ↦ rw (nf, differ) (pushed root good ns s nf)
          ]
    ]
