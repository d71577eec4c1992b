-- ===== src/Bootstrap/Copy/Laws.antt =====
-- The copy in the OCaml heap has the shape of the value, and what was there stays.
use mathlib.Core.Path.{subst}
use native.Mathlib.Decide.{ℕ_discrete}
use certirocq.Prelude.{
  ℕ, zero, suc, ◌+◌, ◌≤◌, ◌<◌, ◌≡◌, ◌≢◌, refl, ◌⊎◌, inl, inr, ◌∙◌, Option, none, some, Bool,
  Bool-cases, true, false, arith,
}
use certirocq.Values.{Memory, field, hd_val, wosize_val, tag_hd, is_long}
use certirocq.Gc.Types.{Heap}
use certirocq.Bootstrap.Ocaml.{OcamlHeap, OcamlLaws, Keeps, Keeps-refl, Keeps-trans, store-Keeps}
use certirocq.Bootstrap.Copy.{
  CodeRange, in_certirocq_heap, in_code, val_unit, copy_fields, copy_with, copy_value,
}

module _ (o : OcamlHeap) (h : Heap) (code : CodeRange) (m : Memory) where
  -- The word `r` is a copy of the value `v`, all of whose blocks are new since `s`: integers and
  -- values of the OCaml heap are themselves, pointers to code are unit, and a block has a block of
  -- the same size and tag whose fields are copies of its fields.
  pub data Copied (s t : o.State) : ℕ → ℕ → Type 0 where
    long : {v r : ℕ} → is_long v ≡ true → r ≡ v → Copied s t v r
    foreign :
        {v r : ℕ}
        → is_long v ≡ false
        → in_certirocq_heap h v ≡ false
        → in_code code v ≡ false
        → r ≡ v
        → Copied s t v r
    erased :
        {v r : ℕ}
        → is_long v ≡ false
        → in_certirocq_heap h v ≡ false
        → in_code code v ≡ true
        → r ≡ val_unit
        → Copied s t v r
    block :
        {v r : ℕ}
        → is_long v ≡ false
        → in_certirocq_heap h v ≡ true
        → ¬ o.Live s r
        → o.Live t r
        → o.size_of t r ≡ wosize_val m v
        → o.tag_of t r ≡ tag_hd (hd_val m v)
        → ((i : ℕ) → i < wosize_val m v → Copied s t (field m v i) (o.field_of t r i))
        → Copied s t v r

  -- The value is nested at most `depth` deep, and its blocks have fields.
  abbrev pub IsShallow : ℕ → ℕ → Type 0
  IsShallow zero v = (is_long v ≡ true) ⊎ (in_certirocq_heap h v ≡ false)
  IsShallow (suc d) v =
      (is_long v ≡ true)
      ⊎ (in_certirocq_heap h v ≡ false)
      ⊎ (1 ≤ wosize_val m v) × ((i : ℕ) → i < wosize_val m v → IsShallow d (field m v i))

  -- A copy stays one while its blocks are kept.
  Copied-Keeps :
      {s s' t t' : o.State} {v r : ℕ}
      → Copied s t v r
      → ((b : ℕ) → o.Live s' b → o.Live s b)
      → ((b : ℕ) → ¬ o.Live s b → o.Live t b → Keeps o t t' b)
      → Copied s' t' v r
  Copied-Keeps (long l e) back keeps = long l e
  Copied-Keeps (foreign l nh nc e) back keeps = foreign l nh nc e
  Copied-Keeps (erased l nh c e) back keeps = erased l nh c e
  Copied-Keeps {s} {s'} {t} {t'} {v} {r} (block l ih fresh live size tag kids) back keeps =
      let k = keeps r fresh live in
      block l ih (λ was. fresh (back r was)) k.live (k.size ∙ size) (k.tag ∙ tag)
        (λ i lt. rw (k.fields i) (Copied-Keeps (kids i lt) back keeps))

  -- What a call of `copy_value` at `v` achieves.
  pub record Copies (v : ℕ) (s : o.State) (result : Option (ℕ × o.State)) : Type 0 where
    pub value : ℕ
    pub state : o.State
    pub returns : result ≡ some (value, state)
    pub copied : Copied s state v value
    pub kept : (b : ℕ) → o.Live s b → Keeps o s state b

  copy_fields-suc :
      (recur : ℕ → o.State → Option (ℕ × o.State)) (n i v result : ℕ) (s : o.State) (x : ℕ)
      (t : o.State)
      → recur (field m v i) s ≡ some (x, t)
      → copy_fields o h code m recur (suc n) i v result s
        ≡ copy_fields o h code m recur n (i + 1) v result (o.store_field result i x t)
  unfolding copy_fields
  copy_fields-suc recur n i v result s x t e = rw (e, copy_fields) refl

  module _ (laws : OcamlLaws o) (recur : ℕ → o.State → Option (ℕ × o.State)) (v result : ℕ)
      (base : o.State) (is_live : o.Live base result)
      (copies : (i : ℕ)
        → i < wosize_val m v
        → (s : o.State) → Copies (field m v i) s (recur (field m v i) s)) where
    -- The loop has copied the first `n` fields.
    record Filled (n : ℕ) (s : o.State) : Type 0 where
      live : (b : ℕ) → o.Live base b → o.Live s b
      size : o.size_of s result ≡ wosize_val m v
      tag : o.tag_of s result ≡ o.tag_of base result
      kept : (b : ℕ) → o.Live base b → b ≢ result → Keeps o base s b
      fields : (j : ℕ) → j < n → Copied base s (field m v j) (o.field_of s result j)

    -- One round.
    Filled-suc :
        (i : ℕ) (s : o.State)
        → i < wosize_val m v
        → Filled i s
        → (c : Copies (field m v i) s (recur (field m v i) s))
        → Filled (i + 1) (o.store_field result i c.value c.state)
    Filled-suc i s lt f c = record {
      live = λ b is. laws.store_live result i c.value c.state b (c.kept b (f.live b is)).live;
      size = laws.store_size result i c.value c.state result ∙ mine.size ∙ f.size;
      tag = laws.store_tag result i c.value c.state result ∙ mine.tag ∙ f.tag;
      kept = λ b is ne.
          let k = c.kept b (f.live b is) in
          Keeps-trans (Keeps-trans (f.kept b is ne) k) (stored b ne k.live);
      fields = fields;
    }
      where
        mine : Keeps o s c.state result
        mine = c.kept result (f.live result is_live)

        stored :
            (b : ℕ)
            → b ≢ result
            → o.Live c.state b
            → Keeps o c.state (o.store_field result i c.value c.state) b
        stored b ne is = store-Keeps laws result i c.value c.state b ne is

        fields :
            (j : ℕ)
            → j < i + 1
            → Copied base
                (o.store_field result i c.value c.state)
                (field m v j)
                (o.field_of (o.store_field result i c.value c.state) result j)
        fields j lt' = elim (ℕ_discrete j i) [
          | yes e ↦
              rw
                (
                  e,
                  laws.store_field_self result i c.value c.state mine.live
                      (rw (mine.size, f.size) lt),
                )
                (Copied-Keeps c.copied f.live
                  (λ b fresh is. stored b (λ e. fresh (rw e (f.live result is_live))) is))
          | no ne ↦
              rw (laws.store_field_other result i c.value c.state result j (inr ne), mine.fields j)
                (Copied-Keeps
                  (Copied-Keeps (f.fields j (omega arith)) (λ b is. is) (λ b fresh is. c.kept b is))
                  (λ b is. is) (λ b fresh is. stored b (λ e. fresh (rw e is_live)) is))
        ]

    -- The rest of the loop.
    filled :
        (n i : ℕ) (s : o.State)
        → i + n ≡ wosize_val m v
        → Filled i s
        → (t : o.State) × (copy_fields o h code m recur n i v result s ≡ some (result, t))
          × Filled (wosize_val m v) t
    unfolding copy_fields
    filled zero i s e f =
        (s, refl, let e' : i ≡ wosize_val m v = omega arith in subst (λ n. Filled n s) e' f)
    filled (suc n) i s e f =
        let c = copies i (omega arith) s in
        let (t, returns, f') =
          filled n (i + 1) (o.store_field result i c.value c.state) (omega arith)
            (Filled-suc i s (omega arith) f c) in
        (t, copy_fields-suc recur n i v result s c.value c.state c.returns ∙ returns, f')

  -- At a block of the compiled program.
  at_block :
      OcamlLaws o
      → (recur : ℕ → o.State → Option (ℕ × o.State)) (v : ℕ) (s : o.State) → is_long v ≡ false
      → in_certirocq_heap h v ≡ true
      → (1 ≤ wosize_val m v)
        × ((i : ℕ)
            → i < wosize_val m v
            → (s : o.State) → Copies (field m v i) s (recur (field m v i) s))
      → let b = o.caml_alloc (wosize_val m v) (tag_hd (hd_val m v)) s in
        Copies v s (copy_fields o h code m recur (wosize_val m v) 0 v b.0 b.1)
  at_block laws recur v s l ih (some_fields, copies) =
      let n = wosize_val m v in
      let tag = tag_hd (hd_val m v) in
      let b = o.caml_alloc n tag s in
      let is_live = laws.alloc_live n tag s some_fields in
      let fresh = laws.alloc_fresh n tag s some_fields in
      let (t, returns, f) =
        filled laws recur v b.0 b.1 is_live copies n 0 b.1 (omega arith) (record {
          live = λ x is. is;
          size = laws.alloc_size n tag s;
          tag = refl;
          kept = λ x is ne. Keeps-refl b.1 x is;
          fields = λ j lt. absurd (omega arith);
        }) in
      record {
        value = b.0;
        state = t;
        returns = returns;
        copied =
            block l ih fresh (f.live b.0 is_live) f.size (f.tag ∙ laws.alloc_tag n tag s) (λ i lt.
              Copied-Keeps (f.fields i lt) (λ x is. (laws.alloc_keeps n tag s x is).live)
                (λ x fresh is. Keeps-refl t x is));
        kept = λ x is.
            let k = laws.alloc_keeps n tag s x is in
            Keeps-trans k (f.kept x k.live (λ e. fresh (rw e at is)));
      }

  -- One call, if the recursive calls do their work.
  copy_with-Copies :
      OcamlLaws o
      → (recur : ℕ → o.State → Option (ℕ × o.State)) (v : ℕ) (s : o.State)
      → (is_long v ≡ true)
        ⊎ (in_certirocq_heap h v ≡ false)
        ⊎ (1 ≤ wosize_val m v)
          × ((i : ℕ)
              → i < wosize_val m v
              → (s : o.State) → Copies (field m v i) s (recur (field m v i) s))
      → Copies v s (copy_with o h code m recur v s)
  unfolding copy_with
  copy_with-Copies laws recur v s shape = elim (Bool-cases (is_long v)) [
    | inl l ↦
        rw l (record {
          value = v;
          state = s;
          returns = refl;
          copied = long l refl;
          kept = Keeps-refl s;
        })
    | inr l ↦ elim (Bool-cases (in_certirocq_heap h v)) [
      | inr out ↦ elim (Bool-cases (in_code code v)) [
        | inl c ↦
            rw (l, out, c)
              (record {
                value = val_unit;
                state = s;
                returns = refl;
                copied = erased l out c refl;
                kept = Keeps-refl s;
              })
        | inr nc ↦
            rw (l, out, nc)
              (record {
                value = v;
                state = s;
                returns = refl;
                copied = foreign l out nc refl;
                kept = Keeps-refl s;
              })
      ]
      | inl ih ↦ rw (l, ih) (at_block laws recur v s l ih (kids shape l ih))
    ]
  ]
    where
      kids : {P : Type 0} {x y : Bool} → (x ≡ true) ⊎ (y ≡ false) ⊎ P → x ≡ false → y ≡ true → P
      kids (inl e) l ih = absurd (cc)
      kids (inr (inl e)) l ih = absurd (cc)
      kids (inr (inr p)) l ih = p

  -- `copy_value` at a value that is nested at most `depth` deep returns, the result is a copy of
  -- the value (integers and OCaml values as they are, pointers to code replaced by unit, every
  -- block of the compiled program replaced by a new block of the same size and tag whose fields
  -- are copies of its fields), and the blocks that were in the OCaml heap are as they were.
  pub copy_value-Copies :
      OcamlLaws o
      → (depth v : ℕ) (s : o.State) → IsShallow depth v
      → Copies v s (copy_value o h code m depth v s)
  unfolding copy_value
  copy_value-Copies laws zero v s shallow =
      copy_with-Copies laws (λ _ _. none) v s (elim shallow [ inl l ↦ inl l | inr f ↦ inr (inl f) ])
  copy_value-Copies laws (suc d) v s shallow =
      copy_with-Copies laws (copy_value o h code m d) v s (elim shallow [
        | inl l ↦ inl l
        | inr (inl f) ↦ inr (inl f)
        | inr (inr (some_fields, kids)) ↦
            inr (inr (some_fields, λ i lt t. copy_value-Copies laws d (field m v i) t (kids i lt)))
      ])
