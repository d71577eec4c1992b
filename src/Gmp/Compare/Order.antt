-- ===== src/Gmp/Compare/Order.antt =====
-- The tests of runtime/certirocq_gmp.c decide the order of the integers.
use certirocq.Prelude.{
  ℕ, ◌^◌, ◌%◌, ◌<◌, ◌≡◌, refl, ap, ap₂, ◌∙◌, Bool, true, false, ◌==◌, arith, if◌then◌else◌,
}
use certirocq.Prelude.Int.{ℤ, pos, ltb_ℤ}
use certirocq.Word.{slt, bit_and_mask}
use certirocq.Values.{is_long, long_val}
use certirocq.Int63.{eqb_ℤ, leb_ℤ, mk_bool, prim_int63_lesb, prim_int63_ltsb}
use certirocq.Gmp.Library.{Gmp, IsGmp}
use certirocq.Gmp.{Numbers}
use certirocq.Gmp.Arith.{both_long}
use certirocq.Gmp.Arith.Laws.{
  and_parts, number_of, IsNumber, Keeps, mpz_of_value-number_of, number_of-Keeps,
}
use certirocq.Gmp.Compare.{compare_mpz, z_equal, z_leq, z_geq, z_gt, z_lt}

-- Two tagged numbers are ordered as their words, read as signed.
long_order :
    (x y : ℕ)
    → x < 2 ^ 64
    → y < 2 ^ 64
    → is_long x ≡ true
    → is_long y ≡ true
    → ((x == y) ≡ eqb_ℤ (long_val x) (long_val y)) × (slt x y ≡ ltb_ℤ (long_val x) (long_val y))
unfolding is_long long_val
long_order x y hx hy lx ly =
    let ox : x % 2 ≡ 1 = ground (arith, bit_and_mask 1 x) in
    let oy : y % 2 ≡ 1 = ground (arith, bit_and_mask 1 y) in (ground arith, ground arith)

-- What the sign of a comparison tells.
signs :
    (c a b : ℤ)
    → eqb_ℤ c (pos 0) ≡ eqb_ℤ a b
    → ltb_ℤ c (pos 0) ≡ ltb_ℤ a b
    → (leb_ℤ c (pos 0) ≡ leb_ℤ a b) × (leb_ℤ (pos 0) c ≡ leb_ℤ b a) × (ltb_ℤ (pos 0) c ≡ ltb_ℤ b a)
signs c a b e l = (ground arith, ground arith, ground arith)

-- Both branches of a test give the same word.
either :
    {A : Type 0} (b : Bool) (u v r : ℕ) (s t : A)
    → (b ≡ true → u ≡ r)
    → v ≡ r
    → (if◌then◌else◌ {A = ℕ × A} b (u, s) (v, t)).0 ≡ r
either true u v r s t left right = left refl
either false u v r s t left right = right

module _ (gmp : Gmp) (laws : IsGmp gmp) (malloc : ℕ → ℕ) where
  compare_mpz-number_of :
      (x y : ℕ) (n : Numbers gmp)
      → IsNumber gmp n x
      → IsNumber gmp n y
      → (eqb_ℤ (compare_mpz gmp malloc x y n).0 (pos 0)
          ≡ eqb_ℤ (number_of gmp n x) (number_of gmp n y))
        × (ltb_ℤ (compare_mpz gmp malloc x y n).0 (pos 0)
            ≡ ltb_ℤ (number_of gmp n x) (number_of gmp n y))
  unfolding compare_mpz IsNumber Keeps
  compare_mpz-number_of x y (s, w) vx vy =
      let (p, s1, ep, lp, valp, keep) = mpz_of_value-number_of gmp laws malloc x s w vx in
      let (q, s2, eq', lq, valq, keep') =
        mpz_of_value-number_of gmp laws malloc y s1 w (vy.0, λ block. (keep _ (vy.1 block)).0) in
      let left : gmp.value_of s2 p ≡ number_of gmp (s, w) x = (keep' p lp).1 ∙ valp in
      let right : gmp.value_of s2 q ≡ number_of gmp (s, w) y =
        valq ∙ number_of-Keeps gmp laws malloc s s1 w y vy keep in
      let (eqs, lts) = laws.cmp s2 p q (keep' p lp).0 lq in
      rw (ep, eq') (eqs ∙ ap₂ eqb_ℤ left right, lts ∙ ap₂ ltb_ℤ left right)

  -- A tagged argument.
  long-number_of : (x : ℕ) (n : Numbers gmp) → is_long x ≡ true → long_val x ≡ number_of gmp n x
  unfolding number_of
  long-number_of x n long = rw long refl

  -- `z_equal`, `z_lt`, `z_leq`, `z_gt` and `z_geq` decide the order of the integers that their
  -- arguments stand for, tagged or not.
  pub z_lt-number_of :
      (x y : ℕ) (n : Numbers gmp)
      → IsNumber gmp n x
      → IsNumber gmp n y
      → ((z_equal gmp malloc x y n).0 ≡ mk_bool (eqb_ℤ (number_of gmp n x) (number_of gmp n y)))
        × ((z_lt gmp malloc x y n).0 ≡ mk_bool (ltb_ℤ (number_of gmp n x) (number_of gmp n y)))
        × ((z_leq gmp malloc x y n).0 ≡ mk_bool (leb_ℤ (number_of gmp n x) (number_of gmp n y)))
        × ((z_gt gmp malloc x y n).0 ≡ mk_bool (ltb_ℤ (number_of gmp n y) (number_of gmp n x)))
        × ((z_geq gmp malloc x y n).0 ≡ mk_bool (leb_ℤ (number_of gmp n y) (number_of gmp n x)))
  unfolding z_equal z_lt z_leq z_gt z_geq prim_int63_lesb prim_int63_ltsb IsNumber
  z_lt-number_of x y n vx vy =
      let (eqs, lts) = compare_mpz-number_of x y n vx vy in
      let (les, ges, gts) = signs _ (number_of gmp n x) (number_of gmp n y) eqs lts in
      (
        either (both_long x y) _ _ _ _ _ (λ both. ap mk_bool ((words both).0 ∙ values both eqb_ℤ))
            (ap mk_bool eqs),
        either (both_long x y) _ _ _ _ _ (λ both. ap mk_bool ((words both).1 ∙ values both ltb_ℤ))
            (ap mk_bool lts),
        either (both_long x y) _ _ _ _ _ (λ both. ap mk_bool (values both leb_ℤ)) (ap mk_bool les),
        either (both_long x y) _ _ _ _ _ (λ both. ap mk_bool (values both λ a b. ltb_ℤ b a))
            (ap mk_bool gts),
        either (both_long x y) _ _ _ _ _ (λ both. ap mk_bool (values both λ a b. leb_ℤ b a))
            (ap mk_bool ges),
      )
    where
      words :
          both_long x y ≡ true
          → ((x == y) ≡ eqb_ℤ (long_val x) (long_val y))
            × (slt x y ≡ ltb_ℤ (long_val x) (long_val y))
      words both =
          let (lx, ly) = and_parts (is_long x) (is_long y) both in long_order x y vx.0 vy.0 lx ly

      values :
          both_long x y ≡ true
          → (f : ℤ → ℤ → Bool)
          → f (long_val x) (long_val y) ≡ f (number_of gmp n x) (number_of gmp n y)
      values both f =
          let (lx, ly) = and_parts (is_long x) (is_long y) both in
          ap₂ f (long-number_of x n lx) (long-number_of y n ly)
