-- ===== src/Gc/Copy/Steps.antt =====
-- What a run of the copying code does to the world, composed step by step.
use certirocq.Prelude.{ℕ, ◌+◌, ◌-◌, ◌*◌, ◌≤◌, ◌≡◌, ◌≢◌, refl, ◌⊎◌, inl, inr, ◌∙◌, arith, false}
use certirocq.Values.{Memory}
use certirocq.Gc.Copy.{Copy}
use certirocq.Gc.Copy.Invariant.{Layout, Block, Inv, from_ptr, Forwarded}
use certirocq.Gc.Copy.Place.{Outside, InCopy, Place}

module _ (L : Layout) where
  -- The copies that lie side by side from an address up to `next`.
  pub data Queue (m : Memory) (next : ℕ) : ℕ → Type 0 where
    done : {s : ℕ} → s ≡ next → Queue m next s
    more :
        {s : ℕ} (v n : ℕ)
        → Block L v n
        → m (v - 8) ≡ 0
        → m v ≡ s + 8
        → Queue m next (s + 8 + 8 * n)
        → Queue m next s

  -- Objects that have been moved stay where they are, and the copies only grow.
  pub record Grows (c c' : Copy) : Type 0 where
    pub next_le : c.next ≤ c'.next
    pub kept :
        (v n : ℕ) → Block L v n → c.mem (v - 8) ≡ 0 → (c'.mem (v - 8) ≡ 0) × (c'.mem v ≡ c.mem v)
    pub extend : (s : ℕ) → Queue c.mem c.next s → Queue c'.mem c'.next s

  pub Queue-map :
      {m m' : Memory} {next s : ℕ}
      → Queue m next s
      → ((v n : ℕ) → Block L v n → m (v - 8) ≡ 0 → (m' (v - 8) ≡ 0) × (m' v ≡ m v))
      → Queue m' next s
  Queue-map (done e) kept = done e
  Queue-map (more v n b gone at rest) kept =
      let (gone', image) = kept v n b gone in more v n b gone' (image ∙ at) (Queue-map rest kept)

  pub Queue-snoc :
      {m : Memory} {next s : ℕ} (v n : ℕ)
      → Queue m next s
      → Block L v n
      → m (v - 8) ≡ 0
      → m v ≡ next + 8
      → Queue m (next + 8 + 8 * n) s
  Queue-snoc v n (done e) b gone at = more v n b gone (omega arith) (done (omega arith))
  Queue-snoc v n (more u j bu gu au rest) b gone at =
      more u j bu gu au (Queue-snoc v n rest b gone at)

  pub Queue-le : {m : Memory} {next s : ℕ} → Queue m next s → s ≤ next
  Queue-le (done e) = omega arith
  Queue-le (more v n b gone at rest) = omega (arith, Queue-le rest)

  pub Grows-refl : (c : Copy) → Grows c c
  Grows-refl c = record {
    next_le = omega arith;
    kept = λ v n b gone. (gone, refl);
    extend = λ s q. q;
  }

  pub Grows-trans : {a b c : Copy} → Grows a b → Grows b c → Grows a c
  Grows-trans g h = record {
    next_le = omega (arith, g.next_le, h.next_le);
    kept = λ v n b gone.
        let (gone', image) = g.kept v n b gone in
        let (gone'', image') = h.kept v n b gone' in (gone'', image' ∙ image);
    extend = λ s q. h.extend s (g.extend s q);
  }

  pub InCopy-Grows : {c c' : Copy} {p : ℕ} → Grows c c' → InCopy L c.mem p → InCopy L c'.mem p
  InCopy-Grows g f =
      let (gone, image) = g.kept f.block f.size f.is_block f.gone in
      record {
        block = f.block;
        size = f.size;
        index = f.index;
        is_block = f.is_block;
        gone = gone;
        in_range = f.in_range;
        scans = f.scans;
        at = rw image f.at;
      }

  pub Place-Grows : {c c' : Copy} {p : ℕ} → Grows c c' → Place L c.mem p → Place L c'.mem p
  Place-Grows g (inl root) = inl root
  Place-Grows g (inr f) = inr (InCopy-Grows g f)

  -- The word at `p` has been treated: it is as before and no pointer into from-space, or it
  -- leads to the copy.
  pub record Treated (old : ℕ) (m : Memory) (p : ℕ) : Type 0 where
    pub value : (m p ≡ old) ⊎ Forwarded L m old (m p)
    pub not_from : from_ptr L (m p) ≡ false

  -- `forward` at the word `p`.
  pub record Step (scan p : ℕ) (c c' : Copy) : Type 0 where
    pub inv : Inv L scan c'
    pub grows : Grows c c'
    pub treated : Treated (c.mem p) c'.mem p
    pub frame : (a : ℕ) → Outside L c.next a → a ≢ p → c'.mem a ≡ c.mem a
