-- ===== src/Gc/Copy/Roots.antt =====
-- `forward_roots`: every root of every frame is treated.
use certirocq.Prelude.{ℕ, ◌+◌, ◌*◌, ◌<◌, ◌≡◌, refl, ◌⊎◌, inl, inr, ◌∙◌, List, [], ◌∷◌, arith}
use certirocq.Gc.Types.{StackFrame, depth, words}
use certirocq.Gc.Copy.{Copy, forward_roots}
use certirocq.Gc.Copy.Invariant.{Layout, IsLayout, Inv, Good}
use certirocq.Gc.Copy.Place.{IsRoot, Outside, Place-Outside}
use certirocq.Gc.Copy.Steps.{Grows, Grows-refl, Grows-trans, Treated}
use certirocq.Gc.Copy.Settled.{
  Settled, Treated-Settled, Settled-Treated, Settled-Settled, Good-Settled,
}
use certirocq.Gc.Copy.Loop.{Steps, for_words-Steps}
use certirocq.Gc.Copy.Depth.{forward-Step}

-- `p` is a root of one of the frames.
abbrev pub InRoots : List StackFrame → ℕ → Type 0
InRoots [] p = ⊥
InRoots (f ∷ frames) p =
    ((i : ℕ) × (i < words f.root f.next) × (p ≡ f.root + 8 * i)) ⊎ InRoots frames p

module _ {L : Layout} (w : IsLayout L) where
  pub record RootsTreated (scan : ℕ) (frames : List StackFrame) (c c' : Copy) : Type 0 where
    pub inv : Inv L scan c'
    pub grows : Grows L c c'
    pub treated : (p : ℕ) → InRoots frames p → Treated L (c.mem p) c'.mem p
    pub settled : (x : ℕ) → Outside L c.next x → Good L (c.mem x) → Settled w (c.mem x) c'.mem x
    pub frame : (x : ℕ) → Outside L c.next x → ¬ InRoots frames x → c'.mem x ≡ c.mem x

  abbrev pub Ready : List StackFrame → Copy → Type 0
  Ready frames c = (p : ℕ) → InRoots frames p → IsRoot L p × Good L (c.mem p)

  module _ {scan : ℕ} (f : StackFrame) (frames : List StackFrame) {c b : Copy} (inv : Inv L scan c)
      (ready : Ready (f ∷ frames) c) (first : Steps w scan (words f.root f.next) f.root c b) where
    outside : (p : ℕ) → IsRoot L p → Outside L c.next p
    outside p root = Place-Outside L w inv p (inl root)

    wider : (p : ℕ) → Outside L c.next p → Outside L b.next p
    wider p (nf, out) = (nf, omega (arith, out, first.grows.next_le))

    pub still-Ready : Ready frames b
    still-Ready p r =
        let (root, good) = ready p (inr r) in
        (root, Good-Settled w (c.mem p) p good (first.settled p (outside p root) good))

    pub RootsTreated-cons :
        {c' : Copy} → RootsTreated scan frames b c' → RootsTreated scan (f ∷ frames) c c'
    RootsTreated-cons {c'} rest = record {
      inv = rest.inv;
      grows = Grows-trans L first.grows rest.grows;
      treated = treated;
      settled = λ x out good.
          let once = first.settled x out good in
          Settled-Settled w (c.mem x) x good once rest.grows
            (rest.settled x (wider x out) (Good-Settled w (c.mem x) x good once));
      frame = λ x out no.
          rest.frame x (wider x out) (λ r. no (inr r))
          ∙ first.frame x out (λ i lt e. no (inl (i, lt, e)));
    }
      where
        settled_later : (p : ℕ) → IsRoot L p → Good L (c.mem p) → Settled w (b.mem p) c'.mem p
        settled_later p root good =
            let once = first.settled p (outside p root) good in
            rest.settled p (wider p (outside p root)) (Good-Settled w (c.mem p) p good once)

        treated : (p : ℕ) → InRoots (f ∷ frames) p → Treated L (c.mem p) c'.mem p
        treated p (inl (i, lt, e)) =
            let (root, good) = ready p (inl (i, lt, e)) in
            let once : Treated L (c.mem p) b.mem p = rw e (first.treated i lt) in
            Treated-Settled w (c.mem p) p good once rest.grows (settled_later p root good)
        treated p (inr r) =
            let (root, good) = ready p (inr r) in
            Settled-Treated w (c.mem p) p good (first.settled p (outside p root) good) rest.grows
              (rest.treated p r)

  pub forward_roots-RootsTreated :
      {scan : ℕ} (frames : List StackFrame) (c : Copy)
      → Inv L scan c
      → Ready frames c
      → RootsTreated scan frames c (forward_roots L.from_start L.from_limit frames c)
  unfolding forward_roots
  forward_roots-RootsTreated [] c inv ready = record {
    inv = inv;
    grows = Grows-refl L c;
    treated = λ p r. absurd r;
    settled = λ x out good. inl refl;
    frame = λ x out no. refl;
  }
  forward_roots-RootsTreated (f ∷ frames) c inv ready =
      let first =
        for_words-Steps w _ (forward-Step w depth) (words f.root f.next) f.root c inv λ i lt.
          let (root, good) = ready (f.root + 8 * i) (inl (i, lt, refl)) in (inl root, good) in
      RootsTreated-cons f frames inv ready first
        (forward_roots-RootsTreated frames _ first.inv (still-Ready f frames inv ready first))
