-- ===== src/Bootstrap/Ocaml.antt =====
-- What the wrappers use of the OCaml runtime, which is not part of the repository: `caml_alloc`
-- and `Store_field`, with their documented behaviour. A value is named by a word. The wrappers
-- register their local variables and the thread's result as roots, so that the names stay when the
-- OCaml runtime moves a block.
use certirocq.Prelude.{ℕ, ◌≤◌, ◌<◌, ◌≡◌, refl, ◌∙◌, ◌≢◌, ◌⊎◌, inl}

pub record OcamlHeap : Type 1 where
  pub State : Type 0
  pub caml_alloc : (size tag : ℕ) → State → ℕ × State
  pub store_field : (block i v : ℕ) → State → State
  pub size_of : State → ℕ → ℕ
  pub tag_of : State → ℕ → ℕ
  pub field_of : State → ℕ → ℕ → ℕ
  -- The blocks that have been allocated.
  pub Live : State → ℕ → Type 0

-- The blocks of `s` stand in `t` as they were.
pub record Keeps (o : OcamlHeap) (s t : o.State) (b : ℕ) : Type 0 where
  pub live : o.Live t b
  pub size : o.size_of t b ≡ o.size_of s b
  pub tag : o.tag_of t b ≡ o.tag_of s b
  pub fields : (i : ℕ) → o.field_of t b i ≡ o.field_of s b i

-- `caml_alloc` returns a block of the given size and tag, a new one unless the size is 0, and leaves
-- the others alone;
-- `Store_field` sets one field of a block.
pub record OcamlLaws (o : OcamlHeap) : Type 0 where
  pub alloc_live :
      (n t : ℕ) (s : o.State) → 1 ≤ n → o.Live (o.caml_alloc n t s).1 (o.caml_alloc n t s).0
  pub alloc_fresh : (n t : ℕ) (s : o.State) → 1 ≤ n → ¬ o.Live s (o.caml_alloc n t s).0
  pub alloc_size :
      (n t : ℕ) (s : o.State) → o.size_of (o.caml_alloc n t s).1 (o.caml_alloc n t s).0 ≡ n
  pub alloc_tag :
      (n t : ℕ) (s : o.State) → o.tag_of (o.caml_alloc n t s).1 (o.caml_alloc n t s).0 ≡ t
  pub alloc_keeps :
      (n t : ℕ) (s : o.State) (b : ℕ) → o.Live s b → Keeps o s (o.caml_alloc n t s).1 b
  pub store_live : (r i v : ℕ) (s : o.State) (b : ℕ) → o.Live s b → o.Live (o.store_field r i v s) b
  pub store_size :
      (r i v : ℕ) (s : o.State) (b : ℕ) → o.size_of (o.store_field r i v s) b ≡ o.size_of s b
  pub store_tag :
      (r i v : ℕ) (s : o.State) (b : ℕ) → o.tag_of (o.store_field r i v s) b ≡ o.tag_of s b
  pub store_field_self :
      (r i v : ℕ) (s : o.State)
      → o.Live s r
      → i < o.size_of s r
      → o.field_of (o.store_field r i v s) r i ≡ v
  pub store_field_other :
      (r i v : ℕ) (s : o.State) (b j : ℕ)
      → (b ≢ r) ⊎ (j ≢ i)
      → o.field_of (o.store_field r i v s) b j ≡ o.field_of s b j

module _ {o : OcamlHeap} where
  pub Keeps-refl : (s : o.State) (b : ℕ) → o.Live s b → Keeps o s s b
  Keeps-refl s b live = record { live = live; size = refl; tag = refl; fields = λ i. refl }

  pub Keeps-trans : {s t u : o.State} {b : ℕ} → Keeps o s t b → Keeps o t u b → Keeps o s u b
  Keeps-trans k k' = record {
    live = k'.live;
    size = k'.size ∙ k.size;
    tag = k'.tag ∙ k.tag;
    fields = λ i. k'.fields i ∙ k.fields i;
  }

  -- A store leaves the other blocks alone.
  pub store-Keeps :
      (laws : OcamlLaws o) (r i v : ℕ) (s : o.State) (b : ℕ)
      → b ≢ r
      → o.Live s b
      → Keeps o s (o.store_field r i v s) b
  store-Keeps laws r i v s b ne live = record {
    live = laws.store_live r i v s b live;
    size = laws.store_size r i v s b;
    tag = laws.store_tag r i v s b;
    fields = λ j. laws.store_field_other r i v s b j (inl ne);
  }
