-- ===== src/Gmp/Arith/Unary.antt =====
-- The operations of runtime/certirocq_gmp.c on one integer.
use certirocq.Prelude.{
  ℕ, ◌^◌, ◌-◌, ◌<◌, ◌≡◌, ◌≢◌, refl, sym, ap, ap₂, ◌∙◌, Bool, Bool-cases, inl, inr, true, false,
  ◌&&◌, arith, if◌then◌else◌,
}
use certirocq.Prelude.Int.{ℤ, pos, negsuc, ◌+ℤ◌, ◌-ℤ◌, ◌≤ℤ◌, ltb_ℤ}
use certirocq.Values.{is_long, long_val, val_long_signed, min_long, max_long}
use certirocq.Gc.Types.{ok}
use certirocq.Gc.Alloc.{World}
use certirocq.Gmp.Library.{Gmp, IsGmp, Assigns, InUse}
use certirocq.Gmp.{Numbers, mpz_val, mpz_of_value, gmp_unary}
use certirocq.Gmp.Arith.{fits_long, z_succ, gmp_succ, z_pred, gmp_pred, z_neg, gmp_neg}
use certirocq.Gmp.Arith.Laws.{
  and_parts, number_of, IsNumber, HasRoom, Keeps, Assigns-Keeps, Assigns-InUse,
  mpz_of_value-number_of, mk_gmp_int-number_of, tagged-number_of,
}

-- The successor, the predecessor and the negation of a tagged number that are tagged numbers.
neighbours_fit :
    (z : ℤ)
    → min_long ≤ℤ z
    → z ≤ℤ max_long
    → (ltb_ℤ z max_long ≡ true → fits_long (z +ℤ pos 1) ≡ true)
      × (ltb_ℤ min_long z ≡ true → fits_long (z -ℤ pos 1) ≡ true)
      × (z ≢ min_long → fits_long (pos 0 -ℤ z) ≡ true)
unfolding ◌+ℤ◌ ◌-ℤ◌
neighbours_fit (pos n) lo hi = (λ small. ground arith, λ above. ground arith, λ ne. ground arith)
neighbours_fit (negsuc n) lo hi = (
  λ small. ground arith,
  λ above. ground arith,
  λ ne. let other : n ≢ 2 ^ 62 - 1 = λ e. ne (ap negsuc e) in ground arith,
)

module _ (gmp : Gmp) (laws : IsGmp gmp) (malloc : ℕ → ℕ) where
  -- The operations `gmp_*` of one number in use.
  gmp_unary-number_of :
      (f : (res x : ℕ) → gmp.State → gmp.State) (g : ℤ → ℤ)
      → ((s : gmp.State) (res x : ℕ)
          → InUse gmp s res
          → InUse gmp s x
          → Assigns gmp s (f res x s) res (g (gmp.value_of s x)))
      → (p : ℕ) (s : gmp.State) (w : World) → InUse gmp s p
      → HasRoom gmp w
      → (r : ℕ) × (n : Numbers gmp) × (gmp_unary gmp malloc f p (s, w) ≡ ok (r, n))
        × (number_of gmp n r ≡ g (gmp.value_of s p))
  unfolding gmp_unary Keeps
  gmp_unary-number_of f g law p s w lp room =
      let new = gmp.malloc_mpz s in
      let s' = gmp.init new.0 new.1 in
      let made = laws.init new.1 new.0 (laws.malloc_live s) in
      let same = Assigns-Keeps gmp laws malloc s s' _ made in
      let used = Assigns-InUse gmp laws malloc s s' _ made in
      let (r, w', e, value) = mk_gmp_int-number_of gmp laws malloc new.0 (f new.0 p s') w room in
      (r, (f new.0 p s', w'), e, value ∙ (law s' new.0 p used (same p lp).0).0 ∙ ap g (same p lp).1)

  -- A tagged argument and a result that is tagged.
  long-number_of : (x : ℕ) (n : Numbers gmp) → is_long x ≡ true → number_of gmp n x ≡ long_val x
  unfolding number_of
  long-number_of x n long = rw long refl

  -- Every tagged number fits.
  word-fits : (x : ℕ) → x < 2 ^ 64 → (min_long ≤ℤ long_val x) × (long_val x ≤ℤ max_long)
  unfolding long_val
  word-fits x h = (ground arith, ground arith)

  fits :
      (x : ℕ)
      → x < 2 ^ 64
      → (ltb_ℤ (long_val x) max_long ≡ true → fits_long (long_val x +ℤ pos 1) ≡ true)
        × (ltb_ℤ min_long (long_val x) ≡ true → fits_long (long_val x -ℤ pos 1) ≡ true)
        × (long_val x ≢ min_long → fits_long (pos 0 -ℤ long_val x) ≡ true)
  fits x h = let (lo, hi) = word-fits x h in neighbours_fit (long_val x) lo hi

  block-number_of :
      (x : ℕ) (s : gmp.State) (w : World)
      → is_long x ≡ false
      → number_of gmp (s, w) x ≡ gmp.value_of s (w.1 x)
  unfolding number_of
  block-number_of x s w block = rw block refl

  -- The branches of `z_succ`, `z_pred` and `z_neg`.
  z_succ-branch :
      (x : ℕ) (n : Numbers gmp)
      → (b c : Bool) → is_long x ≡ b
      → ltb_ℤ (long_val x) max_long ≡ c
      → z_succ gmp malloc x n ≡ (
          if b
          then if c
            then ok (val_long_signed (long_val x +ℤ pos 1), n)
            else gmp_succ gmp malloc (mpz_of_value gmp malloc x n).0 (mpz_of_value gmp malloc x n).1
          else gmp_succ gmp malloc (mpz_val gmp malloc n x) n)
  unfolding z_succ
  z_succ-branch x n b c eb ec =
      ap₂
        (λ b c.
          if b
          then if c
            then ok (val_long_signed (long_val x +ℤ pos 1), n)
            else gmp_succ gmp malloc (mpz_of_value gmp malloc x n).0 (mpz_of_value gmp malloc x n).1
          else gmp_succ gmp malloc (mpz_val gmp malloc n x) n)
        eb ec

  z_pred-branch :
      (x : ℕ) (n : Numbers gmp)
      → (b : Bool) → (is_long x && ltb_ℤ min_long (long_val x)) ≡ b
      → z_pred gmp malloc x n ≡ (
          if b
          then ok (val_long_signed (long_val x -ℤ pos 1), n)
          else gmp_unary gmp malloc
              (λ res x. gmp.mpz_sub_ui res x 1)
              (mpz_of_value gmp malloc x n).0
              (mpz_of_value gmp malloc x n).1)
  unfolding z_pred gmp_pred gmp_unary
  z_pred-branch x n b eb =
      ap
        (λ b.
          if b
          then ok (val_long_signed (long_val x -ℤ pos 1), n)
          else gmp_unary gmp malloc (λ res x. gmp.mpz_sub_ui res x 1)
              (mpz_of_value gmp malloc x n).0 (mpz_of_value gmp malloc x n).1)
        eb

  z_neg-branch :
      (x : ℕ) (n : Numbers gmp)
      → (b c : Bool) → is_long x ≡ b
      → ltb_ℤ (long_val x) max_long ≡ c
      → z_neg gmp malloc x n ≡ (
          if b
          then if c
            then ok (val_long_signed (pos 0 -ℤ long_val x), n)
            else gmp_neg gmp malloc (mpz_of_value gmp malloc x n).0 (mpz_of_value gmp malloc x n).1
          else gmp_neg gmp malloc (mpz_val gmp malloc n x) n)
  unfolding z_neg
  z_neg-branch x n b c eb ec =
      ap₂
        (λ b c.
          if b
          then if c
            then ok (val_long_signed (pos 0 -ℤ long_val x), n)
            else gmp_neg gmp malloc (mpz_of_value gmp malloc x n).0 (mpz_of_value gmp malloc x n).1
          else gmp_neg gmp malloc (mpz_val gmp malloc n x) n)
        eb ec

  gmp_succ-number_of :
      (p : ℕ) (s : gmp.State) (w : World)
      → InUse gmp s p
      → HasRoom gmp w
      → (r : ℕ) × (n : Numbers gmp) × (gmp_succ gmp malloc p (s, w) ≡ ok (r, n))
        × (number_of gmp n r ≡ gmp.value_of s p +ℤ pos 1)
  unfolding gmp_succ
  gmp_succ-number_of p s w live room =
      gmp_unary-number_of (λ res x. gmp.mpz_add_ui res x 1) (λ a. a +ℤ pos 1)
        (λ s res x. laws.add_ui s res x 1) p s w live room

  gmp_neg-number_of :
      (p : ℕ) (s : gmp.State) (w : World)
      → InUse gmp s p
      → HasRoom gmp w
      → (r : ℕ) × (n : Numbers gmp) × (gmp_neg gmp malloc p (s, w) ≡ ok (r, n))
        × (number_of gmp n r ≡ pos 0 -ℤ gmp.value_of s p)
  unfolding gmp_neg
  gmp_neg-number_of p s w live room =
      gmp_unary-number_of gmp.mpz_neg (λ a. pos 0 -ℤ a) laws.neg p s w live room

  -- `z_succ` gives the successor of the integer that its argument stands for, also of the largest
  -- tagged number, when two words of the nursery are free.
  pub z_succ-number_of :
      (x : ℕ) (n : Numbers gmp)
      → IsNumber gmp n x
      → HasRoom gmp n.1
      → (r : ℕ) × (n' : Numbers gmp) × (z_succ gmp malloc x n ≡ ok (r, n'))
        × (number_of gmp n' r ≡ number_of gmp n x +ℤ pos 1)
  unfolding IsNumber
  z_succ-number_of x (s, w) vx room = elim (Bool-cases (is_long x)) [
    | inl long ↦ elim (Bool-cases (ltb_ℤ (long_val x) max_long)) [
      | inl small ↦ (
        _,
        (s, w),
        z_succ-branch x (s, w) true true long small,
        tagged-number_of gmp laws malloc _ (s, w) ((fits x vx.0).0 small)
            ∙ ap (λ a. a +ℤ pos 1) (sym (long-number_of x (s, w) long)),
      )
      | inr big ↦
          let (p, s', e, lp, value, keep) = mpz_of_value-number_of gmp laws malloc x s w vx in
          let (r, n', e', value') = gmp_succ-number_of p s' w lp room in
          (
            r,
            n',
            z_succ-branch x (s, w) true false long big
                ∙ ap (λ (t : ℕ × Numbers gmp). gmp_succ gmp malloc t.0 t.1) e
                ∙ e',
            value' ∙ ap (λ a. a +ℤ pos 1) value,
          )
    ]
    | inr block ↦
        let (r, n', e', value') = gmp_succ-number_of (w.1 x) s w (vx.1 block) room in
        (
          r,
          n',
          z_succ-branch x (s, w) false (ltb_ℤ (long_val x) max_long) block refl ∙ e',
          value' ∙ ap (λ a. a +ℤ pos 1) (sym (block-number_of x s w block)),
        )
  ]

  -- `z_pred` gives the predecessor of the integer that its argument stands for, also of the
  -- smallest tagged number, when two words of the nursery are free.
  pub z_pred-number_of :
      (x : ℕ) (n : Numbers gmp)
      → IsNumber gmp n x
      → HasRoom gmp n.1
      → (r : ℕ) × (n' : Numbers gmp) × (z_pred gmp malloc x n ≡ ok (r, n'))
        × (number_of gmp n' r ≡ number_of gmp n x -ℤ pos 1)
  unfolding IsNumber
  z_pred-number_of x (s, w) vx room = elim (Bool-cases (is_long x && ltb_ℤ min_long (long_val x))) [
    | inl small ↦
        let (long, above) = and_parts (is_long x) _ small in
        (
          _,
          (s, w),
          z_pred-branch x (s, w) true small,
          tagged-number_of gmp laws malloc _ (s, w) ((fits x vx.0).1 above)
              ∙ ap (λ a. a -ℤ pos 1) (sym (long-number_of x (s, w) long)),
        )
    | inr big ↦
        let (p, s', e, lp, value, keep) = mpz_of_value-number_of gmp laws malloc x s w vx in
        let (r, n', e', value') =
          gmp_unary-number_of (λ res x. gmp.mpz_sub_ui res x 1) (λ a. a -ℤ pos 1)
            (λ s res x. laws.sub_ui s res x 1) p s' w lp room in
        (
          r,
          n',
          z_pred-branch x (s, w) false big
              ∙ ap
                  (λ (t : ℕ × Numbers gmp).
                    gmp_unary gmp malloc (λ res x. gmp.mpz_sub_ui res x 1) t.0 t.1)
                  e
              ∙ e',
          value' ∙ ap (λ a. a -ℤ pos 1) value,
        )
  ]

  -- `z_neg` gives the negation of the integer that its argument stands for when two words of the
  -- nursery are free and the argument is not the smallest tagged number.
  pub z_neg-number_of :
      (x : ℕ) (n : Numbers gmp)
      → IsNumber gmp n x
      → HasRoom gmp n.1
      → number_of gmp n x ≢ min_long
      → (r : ℕ) × (n' : Numbers gmp) × (z_neg gmp malloc x n ≡ ok (r, n'))
        × (number_of gmp n' r ≡ pos 0 -ℤ number_of gmp n x)
  unfolding IsNumber
  z_neg-number_of x (s, w) vx room ne = elim (Bool-cases (is_long x)) [
    | inl long ↦ elim (Bool-cases (ltb_ℤ (long_val x) max_long)) [
      | inl small ↦ (
        _,
        (s, w),
        z_neg-branch x (s, w) true true long small,
        tagged-number_of gmp laws malloc _ (s, w)
              ((fits x vx.0).2 (λ e. ne (long-number_of x (s, w) long ∙ e)))
            ∙ ap (λ a. pos 0 -ℤ a) (sym (long-number_of x (s, w) long)),
      )
      | inr big ↦
          let (p, s', e, lp, value, keep) = mpz_of_value-number_of gmp laws malloc x s w vx in
          let (r, n', e', value') = gmp_neg-number_of p s' w lp room in
          (
            r,
            n',
            z_neg-branch x (s, w) true false long big
                ∙ ap (λ (t : ℕ × Numbers gmp). gmp_neg gmp malloc t.0 t.1) e
                ∙ e',
            value' ∙ ap (λ a. pos 0 -ℤ a) value,
          )
    ]
    | inr block ↦
        let (r, n', e', value') = gmp_neg-number_of (w.1 x) s w (vx.1 block) room in
        (
          r,
          n',
          z_neg-branch x (s, w) false (ltb_ℤ (long_val x) max_long) block refl ∙ e',
          value' ∙ ap (λ a. pos 0 -ℤ a) (sym (block-number_of x s w block)),
        )
  ]

  -- `z_succ` and `z_pred` give the successor and the predecessor of the integer that their argument
  -- stands for, tagged or not, the largest and the smallest tagged one included, when two words of
  -- the nursery are free.
  pub neighbour-number_of :
      (x : ℕ) (n : Numbers gmp)
      → IsNumber gmp n x
      → HasRoom gmp n.1
      → ((r : ℕ) × (n' : Numbers gmp) × (z_succ gmp malloc x n ≡ ok (r, n'))
          × (number_of gmp n' r ≡ number_of gmp n x +ℤ pos 1))
        × ((r : ℕ) × (n' : Numbers gmp) × (z_pred gmp malloc x n ≡ ok (r, n'))
            × (number_of gmp n' r ≡ number_of gmp n x -ℤ pos 1))
  neighbour-number_of x n vx room = (z_succ-number_of x n vx room, z_pred-number_of x n vx room)
