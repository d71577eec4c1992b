-- ===== src/Gmp/Arith/Laws.antt =====
-- The operations of runtime/certirocq_gmp.c compute with integers, whichever representation their
-- arguments have.
use mathlib.Core.Path.{subst}
use certirocq.Prelude.{
  ℕ, ◌+◌, ◌^◌, ◌%◌, ◌<◌, ◌≡◌, ◌≢◌, inl, inr, refl, sym, ap₂, ◌∙◌, Bool, Bool-cases, true, false,
  ◌&&◌, ◌==◌, arith, if◌then◌else◌,
}
use certirocq.Prelude.Int.{ℤ, ◌+ℤ◌, ◌-ℤ◌, ◌*ℤ◌}
use certirocq.Values.{is_long, long_val, val_long_signed}
use certirocq.Values.Header.{is_long-not, is_block-mod}
use certirocq.Values.Long.{is_long-val_long, long_val-val_long_signed}
use certirocq.Gc.Types.{ok}
use certirocq.Gc.Alloc.{World, has_words, reserve}
use certirocq.Gmp.Library.{Gmp, IsGmp, Assigns, InUse}
use certirocq.Gmp.{Numbers, mpz_of_value, mk_gmp_int, gmp_binary, on_two}
use certirocq.Gmp.Arith.{both_long, fits_long, z_add, z_sub, z_mul, gmp_add, gmp_sub, gmp_mul}

pub and_parts : (a b : Bool) → (a && b) ≡ true → (a ≡ true) × (b ≡ true)
and_parts true b e = (refl, e)
and_parts false b e = absurd cc

module _ (gmp : Gmp) where
  -- The integer that a value stands for.
  unfoldable pub number_of : Numbers gmp → ℕ → ℤ
  number_of (s, (ti, m)) x = if is_long x then long_val x else gmp.value_of s (m x)

  -- A word: a tagged number, or a block that holds a pointer to an initialised number.
  unfoldable pub IsNumber : Numbers gmp → ℕ → Type 0
  IsNumber (s, (ti, m)) x = (x < 2 ^ 64) × ((is_long x ≡ false) → InUse gmp s (m x))

  -- Two words of the nursery are free, and it is aligned.
  unfoldable pub HasRoom : World → Type 0
  HasRoom (ti, m) = (has_words 2 ti ≡ true) × (ti.alloc % 2 ≡ 0)

  -- What was in use is in use and has its value.
  unfoldable pub Keeps : gmp.State → gmp.State → Type 0
  Keeps s s' = (p : ℕ) → InUse gmp s p → InUse gmp s' p × (gmp.value_of s' p ≡ gmp.value_of s p)

  module _ (laws : IsGmp gmp) (malloc : ℕ → ℕ) where
    -- A number just made is new.
    fresh_ne : (s : gmp.State) (p : ℕ) → gmp.live s p ≡ true → p ≢ (gmp.malloc_mpz s).0
    fresh_ne s p live e =
        let dead = laws.malloc_fresh s in
        let dead' : gmp.live s p ≡ false = subst (λ t. gmp.live s t ≡ false) (sym e) dead in
        absurd cc

    malloc-Keeps : (s : gmp.State) → Keeps s (gmp.malloc_mpz s).1
    unfolding Keeps
    malloc-Keeps s p used = (
      (laws.malloc_keeps s p used.0, laws.malloc_initialised s p used.0 ∙ used.1),
      laws.malloc_value s p,
    )

    -- An assignment to a number that has just been made keeps the others.
    pub Assigns-Keeps :
        (s t : gmp.State) (z : ℤ)
        → Assigns gmp (gmp.malloc_mpz s).1 t (gmp.malloc_mpz s).0 z
        → Keeps s t
    unfolding Keeps
    Assigns-Keeps s t z a p used =
        let (here, others, lives, made, inits) = a in
        let ne = fresh_ne s p used.0 in
        let (used', value) = malloc-Keeps s p used in
        ((lives p ∙ used'.0, inits p ne ∙ used'.1), others p ne ∙ value)

    -- It is in use itself.
    pub Assigns-InUse :
        (s t : gmp.State) (z : ℤ)
        → Assigns gmp (gmp.malloc_mpz s).1 t (gmp.malloc_mpz s).0 z
        → InUse gmp t (gmp.malloc_mpz s).0
    Assigns-InUse s t z a =
        let (here, others, lives, made, inits) = a in
        (lives (gmp.malloc_mpz s).0 ∙ laws.malloc_live s, made)

    -- The pointer that an argument is turned into has its value.
    pub mpz_of_value-number_of :
        (x : ℕ) (s : gmp.State) (w : World)
        → IsNumber (s, w) x
        → (p : ℕ) × (s' : gmp.State) × (mpz_of_value gmp malloc x (s, w) ≡ (p, (s', w)))
          × InUse gmp s' p
          × (gmp.value_of s' p ≡ number_of (s, w) x)
          × Keeps s s'
    unfolding mpz_of_value number_of IsNumber Keeps
    mpz_of_value-number_of x s w valid = elim (Bool-cases (is_long x)) [
      | inl long ↦
          let new = gmp.malloc_mpz s in
          let law = laws.init_set_si new.1 new.0 (long_val x) (laws.malloc_live s) in
          rw long (
            new.0,
            gmp.init_set_si new.0 (long_val x) new.1,
            refl,
            Assigns-InUse s _ _ law,
            law.0,
            Assigns-Keeps s _ _ law,
          )
      | inr block ↦ rw block (w.1 x, s, refl, valid.1 block, refl, λ p used. (used, refl))
    ]

    pub number_of-Keeps :
        (s s' : gmp.State) (w : World) (x : ℕ)
        → IsNumber (s, w) x
        → Keeps s s'
        → number_of (s', w) x ≡ number_of (s, w) x
    unfolding number_of IsNumber Keeps
    number_of-Keeps s s' w x valid keep = elim (Bool-cases (is_long x)) [
      | inl long ↦ rw long refl
      | inr block ↦ rw block (keep _ (valid.1 block)).1
    ]

    -- Making the value of a number that has been computed.
    pub mk_gmp_int-number_of :
        (p : ℕ) (s : gmp.State) (w : World)
        → HasRoom w
        → (r : ℕ) × (w' : World) × (mk_gmp_int gmp malloc p (s, w) ≡ ok (r, (s, w')))
          × (number_of (s, w') r ≡ gmp.value_of s p)
    unfolding mk_gmp_int reserve HasRoom number_of
    mk_gmp_int-number_of p s (ti, m) (room, even) =
        let block : is_long (ti.alloc + 8) ≡ false =
          is_long-not _ ∙ rw (is_block-mod (ti.alloc + 8)) (ground arith) in
        let here : (ti.alloc + 8 == ti.alloc + 8) ≡ true = ground arith in
        rw room (_, _, refl, rw (block, here) refl)

    -- The operations `gmp_*` of two numbers in use.
    gmp_binary-number_of :
        (f : (res x y : ℕ) → gmp.State → gmp.State) (g : ℤ → ℤ → ℤ)
        → ((s : gmp.State) (res x y : ℕ)
            → InUse gmp s res
            → InUse gmp s x
            → InUse gmp s y
            → Assigns gmp s (f res x y s) res (g (gmp.value_of s x) (gmp.value_of s y)))
        → (p q : ℕ) (s : gmp.State) (w : World) → InUse gmp s p
        → InUse gmp s q
        → HasRoom w
        → (r : ℕ) × (n : Numbers gmp) × (gmp_binary gmp malloc f p q (s, w) ≡ ok (r, n))
          × (number_of n r ≡ g (gmp.value_of s p) (gmp.value_of s q))
    unfolding gmp_binary Keeps
    gmp_binary-number_of f g law p q s w lp lq room =
        let new = gmp.malloc_mpz s in
        let s' = gmp.init new.0 new.1 in
        let made = laws.init new.1 new.0 (laws.malloc_live s) in
        let same = Assigns-Keeps s s' _ made in
        let (r, w', e, value) = mk_gmp_int-number_of new.0 (f new.0 p q s') w room in
        (
          r,
          (f new.0 p q s', w'),
          e,
          value
              ∙ (law s' new.0 p q (Assigns-InUse s s' _ made) (same p lp).0 (same q lq).0).0
              ∙ ap₂ g (same p lp).1 (same q lq).1,
        )

    on_two-number_of :
        (f : (res x y : ℕ) → gmp.State → gmp.State) (g : ℤ → ℤ → ℤ)
        → ((s : gmp.State) (res x y : ℕ)
            → InUse gmp s res
            → InUse gmp s x
            → InUse gmp s y
            → Assigns gmp s (f res x y s) res (g (gmp.value_of s x) (gmp.value_of s y)))
        → (x y : ℕ) (s : gmp.State) (w : World) → IsNumber (s, w) x
        → IsNumber (s, w) y
        → HasRoom w
        → (r : ℕ) × (n : Numbers gmp) × (on_two gmp malloc (gmp_binary gmp malloc f) x y (s, w)
            ≡ ok (r, n))
          × (number_of n r ≡ g (number_of (s, w) x) (number_of (s, w) y))
    unfolding on_two Keeps IsNumber number_of
    on_two-number_of f g law x y s w vx vy room =
        let (p, s1, ep, lp, valp, keep) = mpz_of_value-number_of x s w vx in
        let (q, s2, eq', lq, valq, keep') =
          mpz_of_value-number_of y s1 w (vy.0, λ block. (keep _ (vy.1 block)).0) in
        let (r, n, e, value) = gmp_binary-number_of f g law p q s2 w (keep' p lp).0 lq room in
        (
          r,
          n,
          rw (ep, eq') e,
          value ∙ ap₂ g ((keep' p lp).1 ∙ valp) (valq ∙ number_of-Keeps s s1 w y vy keep),
        )

    -- A small result.
    pub tagged-number_of :
        (z : ℤ) (n : Numbers gmp) → fits_long z ≡ true → number_of n (val_long_signed z) ≡ z
    unfolding number_of val_long_signed
    tagged-number_of z n fits =
        let long : is_long (val_long_signed z) ≡ true = is_long-val_long _ in
        rw long (long_val-val_long_signed z (ground arith) (ground arith))

    tagged_result :
        (g : ℤ → ℤ → ℤ) (x y : ℕ) (n : Numbers gmp)
        → (both_long x y && fits_long (g (long_val x) (long_val y))) ≡ true
        → number_of n (val_long_signed (g (long_val x) (long_val y)))
          ≡ g (number_of n x) (number_of n y)
    unfolding number_of
    tagged_result g x y n small =
        let (longs, fits) = and_parts (both_long x y) _ small in
        let (long_x, long_y) = and_parts (is_long x) (is_long y) longs in
        rw (long_x, long_y) (tagged-number_of (g (long_val x) (long_val y)) n fits)

    -- `z_add`, `z_sub` and `z_mul` give the sum, the difference and the product of the integers
    -- that their arguments stand for, tagged or not, when two words of the nursery are free.
    pub z_add-number_of :
        (x y : ℕ) (n : Numbers gmp)
        → IsNumber n x
        → IsNumber n y
        → HasRoom n.1
        → ((r : ℕ) × (n' : Numbers gmp) × (z_add gmp malloc x y n ≡ ok (r, n'))
            × (number_of n' r ≡ number_of n x +ℤ number_of n y))
          × ((r : ℕ) × (n' : Numbers gmp) × (z_sub gmp malloc x y n ≡ ok (r, n'))
              × (number_of n' r ≡ number_of n x -ℤ number_of n y))
          × ((r : ℕ) × (n' : Numbers gmp) × (z_mul gmp malloc x y n ≡ ok (r, n'))
              × (number_of n' r ≡ number_of n x *ℤ number_of n y))
    unfolding z_add z_sub z_mul gmp_add gmp_sub gmp_mul
    z_add-number_of x y (s, w) vx vy room = (
      elim (Bool-cases (both_long x y && fits_long (long_val x +ℤ long_val y))) [
        | inl small ↦ rw small (_, (s, w), refl, tagged_result ◌+ℤ◌ x y (s, w) small)
        | inr big ↦ rw big (on_two-number_of gmp.mpz_add ◌+ℤ◌ laws.add x y s w vx vy room)
      ],
      elim (Bool-cases (both_long x y && fits_long (long_val x -ℤ long_val y))) [
        | inl small ↦ rw small (_, (s, w), refl, tagged_result ◌-ℤ◌ x y (s, w) small)
        | inr big ↦ rw big (on_two-number_of gmp.mpz_sub ◌-ℤ◌ laws.sub x y s w vx vy room)
      ],
      on_two-number_of gmp.mpz_mul ◌*ℤ◌ laws.mul x y s w vx vy room,
    )
