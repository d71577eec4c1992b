-- ===== src/Gc/Collect/Sizes.antt =====
-- The sizes and the places of the generations, which `garbage_collect` keeps over any number of
-- rounds.
use native.Mathlib.Nat.{pow-suc}
use certirocq.Prelude.{
  ℕ, ◌+◌, ◌*◌, ◌^◌, ◌≡◌, ◌≢◌, refl, sym, ap, ◌∙◌, ◌⊎◌, inl, inr, Bool-cases, List, true, false,
  arith, ◌==◌,
}
use certirocq.Values.{Memory}
use certirocq.Gc.Types.{
  Space, Heap, StackFrame, set_space, nursery_size, ratio, no_generation, Result, ok, fail, words,
  ◌>>=◌,
}
use certirocq.Gc.Generation.{Generation, do_generation, scan_fuel}
use certirocq.Gc.Copy.{Copy, forward_remset, forward_roots, do_scan}
use certirocq.Gc.Collect.{Collected, with_next, collect_into}

-- What a result that is not a failure came from.
pub bind-ok :
    {A B : Type 0} (r : Result A) (f : A → Result B) (b : B)
    → (r >>= f) ≡ ok b
    → (a : A) × (r ≡ ok a) × (f a ≡ ok b)
bind-ok (ok a) f b e = (a, refl, e)
bind-ok (fail x) f b e = absurd cc

-- The words of generation `i`.
abbrev pub size_of : ℕ → ℕ
size_of i = nursery_size * 2 ^ i

-- Every generation that exists has its size: generation 0 that of the nursery, and each of the
-- others twice that of the one before.
abbrev pub IsSized : Heap → Type 0
IsSized h = (i : ℕ) → (h i).start ≢ 0 → (h i).rem_limit ≡ (h i).start + 8 * size_of i

-- The generations that exist stay where they are.
abbrev pub Kept : Heap → Heap → Type 0
Kept h h' = (i : ℕ) → (h i).start ≢ 0 → (h' i).start ≡ (h i).start

-- The nursery is empty, its remembered set included.
abbrev pub IsEmpty : Space → Type 0
IsEmpty s = (s.next ≡ s.start) × (s.limit ≡ s.rem_limit)

set_space-other : (h : Heap) (i j : ℕ) (s : Space) → j ≢ i → set_space h i s j ≡ h j
set_space-other h i j s ne = let e : (j == i) ≡ false = ground arith in rw e refl

set_space-same : (h : Heap) (i : ℕ) (s : Space) → set_space h i s i ≡ s
set_space-same h i s = let e : (i == i) ≡ true = ground arith in rw e refl

-- A space of the right size is put in, at the place of the old one if there was one.
pub set_space-IsSized :
    (h : Heap) (i : ℕ) (s : Space)
    → IsSized h
    → s.rem_limit ≡ s.start + 8 * size_of i
    → ((h i).start ≢ 0 → s.start ≡ (h i).start)
    → IsSized (set_space h i s) × Kept h (set_space h i s)
set_space-IsSized h i s sized size kept = (
  λ j. elim (Bool-cases (j == i)) [
    | inl here ↦ let e : j ≡ i = ground arith in rw (here, e) (λ _. size)
    | inr other ↦ rw other (sized j)
  ],
  λ j. elim (Bool-cases (j == i)) [
    | inl here ↦ let e : j ≡ i = ground arith in rw (here, e) kept
    | inr other ↦ rw other (λ _. refl)
  ],
)

pub ok-inj : {A : Type 0} (a b : A) → ok a ≡ ok b → a ≡ b
ok-inj a b e = cc

-- The spaces after a round.
abbrev after_round : (from to : Space) → ℕ → Copy → Generation
after_round from to limit c = record {
  from = record from { next = from.start; limit = from.rem_limit };
  to = record to { next = c.next; limit = limit };
  mem = c.mem;
}

-- What a round does to the descriptors of its two spaces.
do_generation-spaces :
    (from to : Space) (frames : List StackFrame) (m : Memory) (g : Generation)
    → do_generation from to frames m ≡ ok g
    → (g.from ≡ record from { next = from.start; limit = from.rem_limit })
      × (g.to.start ≡ to.start)
      × (g.to.rem_limit ≡ to.rem_limit)
unfolding do_generation
do_generation-spaces from to frames m g e =
    let scan : Copy × ℕ → Result Copy = λ p.
      do_scan from.start from.limit (scan_fuel to.next to.limit) to.next
        (forward_roots from.start from.limit frames p.0) in
    let (remembered, forwarded, e1) =
      bind-ok (forward_remset from to (record { mem = m; next = to.next }))
        (λ p. scan p >>= λ c. ok (after_round from to p.1 c)) g e in
    let (scanned, ends, e2) =
      bind-ok (scan remembered) (λ c. ok (after_round from to remembered.1 c)) g e1 in
    let made = ok-inj (after_round from to remembered.1 scanned) g e2 in
    (
      sym (ap (λ (g : Generation). g.from) made),
      sym (ap (λ (g : Generation). g.to.start) made),
      sym (ap (λ (g : Generation). g.to.rem_limit) made),
    )

-- The next generation is there, and no other has changed.
pub record NextExists (i : ℕ) (h h' : Heap) : Type 0 where
  pub sized : IsSized h'
  pub kept : Kept h h'
  pub exists : (h' (i + 1)).start ≢ 0
  pub same : (j : ℕ) → j ≢ i + 1 → h' j ≡ h j

pub with_next-NextExists :
    (malloc : ℕ → ℕ) (i : ℕ) (h h' : Heap)
    → IsSized h
    → (h i).start ≢ 0
    → with_next malloc i h ≡ ok h'
    → NextExists i h h'
unfolding with_next
with_next-NextExists malloc i h h' sized here e = elim (Bool-cases ((h (i + 1)).start == 0)) [
  | inl absent ↦ elim (Bool-cases (malloc (i + 1) == 0)) [
    | inl failed ↦ absurd (failure (rw (absent, failed) at e))
    | inr given ↦ created (ground arith) (ground arith) (ok-inj _ h' (rw (absent, given) at e))
  ]
  | inr there ↦
      let same : h ≡ h' = ok-inj h h' (rw there at e) in
      rw (← same)
        (record { sized = sized; kept = λ j _. refl; exists = ground arith; same = λ j _. refl })
]
  where
    failure : fail no_generation ≡ ok h' → ⊥
    failure e = cc

    next : Space
    next = record {
      start = malloc (i + 1);
      next = malloc (i + 1);
      limit = malloc (i + 1) + 8 * (ratio * words (h i).start (h i).rem_limit);
      rem_limit = malloc (i + 1) + 8 * (ratio * words (h i).start (h i).rem_limit);
    }

    created :
        (h (i + 1)).start ≡ 0
        → malloc (i + 1) ≢ 0
        → set_space h (i + 1) next ≡ h'
        → NextExists i h h'
    created absent given made =
        let double : 2 ^ (i + 1) ≡ 2 * 2 ^ i =
          ap (λ t. 2 ^ t) (omega arith) ∙ (pow-suc 2 i ∙ omega arith) in
        let twice : next.rem_limit ≡ next.start + 8 * size_of (i + 1) =
          omega (arith, double, sized i here) in
        let (sized', kept) =
          set_space-IsSized h (i + 1) next sized twice (λ is. absurd (is absent)) in
        rw (← made) (record {
          sized = sized';
          kept = kept;
          exists = rw (set_space-same h (i + 1) next) given;
          same = λ j ne. set_space-other h (i + 1) j next ne;
        })

-- The heap after a round, and the nursery empty from the first round on.
pub record AfterRound (h h' : Heap) : Type 0 where
  pub sized : IsSized h'
  pub kept : Kept h h'
  pub empty : IsEmpty (h' 0)

pub collect_into-AfterRound :
    (i : ℕ) (frames : List StackFrame) (h : Heap) (m : Memory) (c' : Collected)
    → IsSized h
    → (h i).start ≢ 0
    → (h (i + 1)).start ≢ 0
    → (i ≡ 0) ⊎ IsEmpty (h 0)
    → collect_into i frames (record { heap = h; mem = m }) ≡ ok c'
    → AfterRound h c'.heap
unfolding collect_into
collect_into-AfterRound i frames h m c' sized here above empty e =
    let (g, ran, e1) =
      bind-ok (do_generation (h i) (h (i + 1)) frames m)
        (λ g. ok (record { heap = set_space (set_space h i g.from) (i + 1) g.to; mem = g.mem })) c'
        e in
    let (from, to_start, to_rem) = do_generation-spaces (h i) (h (i + 1)) frames m g ran in
    let made : set_space (set_space h i g.from) (i + 1) g.to ≡ c'.heap =
      ap (λ (c : Collected). c.heap) (ok-inj _ c' e1) in
    let from_start : g.from.start ≡ (h i).start = ap (λ (s : Space). s.start) from in
    let from_rem : g.from.rem_limit ≡ (h i).rem_limit = ap (λ (s : Space). s.rem_limit) from in
    let (sized1, kept1) =
      set_space-IsSized h i g.from sized (omega (arith, sized i here)) (λ _. from_start) in
    let next : set_space h i g.from (i + 1) ≡ h (i + 1) =
      set_space-other h i (i + 1) g.from (omega arith) in
    let (sized2, kept2) =
      set_space-IsSized (set_space h i g.from) (i + 1) g.to sized1
        (omega (arith, sized (i + 1) above))
        (λ _. to_start ∙ ap (λ (s : Space). s.start) (sym next)) in
    let at_0 : set_space (set_space h i g.from) (i + 1) g.to 0 ≡ set_space h i g.from 0 =
      set_space-other (set_space h i g.from) (i + 1) 0 g.to (omega arith) in
    rw (← made) (record {
      sized = sized2;
      kept = λ j is. kept2 j (λ z. is (sym (kept1 j is) ∙ z)) ∙ kept1 j is;
      empty = rw at_0 (elim (Bool-cases (0 == i)) [
        | inl first ↦ rw (first, from) (refl, refl)
        | inr later ↦ rw later (not_first (ground arith))
      ]);
    })
  where
    not_first : i ≢ 0 → IsEmpty (h 0)
    not_first ne = elim empty [ inl first ↦ absurd (ne first) | inr is ↦ is ]
