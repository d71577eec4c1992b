-- ===== src/Gmp/Library.antt =====
-- The functions of the GMP library that runtime/certirocq_gmp.c calls, and what its manual says of
-- them. A pointer to a number is an address; the state of the library gives each its number.
use certirocq.Prelude.{ℕ, ◌≢◌, ◌≡◌, Bool, true, false}
use certirocq.Int63.{eqb_ℤ}
use certirocq.Prelude.Int.{ltb_ℤ, ℤ, pos, ◌+ℤ◌, ◌-ℤ◌, ◌*ℤ◌}

pub record Gmp : Type 1 where
  pub State : Type 0
  pub value_of : State → ℕ → ℤ
  -- An address that `malloc` has given out, and one at which a number has been initialised.
  pub live : State → ℕ → Bool
  pub initialised : State → ℕ → Bool
  pub malloc_mpz : State → ℕ × State
  pub init : (res : ℕ) → State → State
  pub init_set_si : (res : ℕ) → ℤ → State → State
  pub mpz_add : (res x y : ℕ) → State → State
  pub mpz_sub : (res x y : ℕ) → State → State
  pub mpz_mul : (res x y : ℕ) → State → State
  pub mpz_tdiv_q : (res x y : ℕ) → State → State
  pub mpz_tdiv_r : (res x y : ℕ) → State → State
  pub mpz_and : (res x y : ℕ) → State → State
  pub mpz_ior : (res x y : ℕ) → State → State
  pub mpz_xor : (res x y : ℕ) → State → State
  pub mpz_add_ui : (res x n : ℕ) → State → State
  pub mpz_sub_ui : (res x n : ℕ) → State → State
  pub mpz_pow_ui : (res x n : ℕ) → State → State
  pub mpz_abs : (res x : ℕ) → State → State
  pub mpz_neg : (res x : ℕ) → State → State
  pub mpz_com : (res x : ℕ) → State → State
  pub mpz_cmp : (x y : ℕ) → State → ℤ
  pub mpz_cmp_ui : (x n : ℕ) → State → ℤ
  pub mpz_get_ui : (x : ℕ) → State → ℕ

-- A number that functions of the library may read or assign to.
abbrev pub InUse : (gmp : Gmp) → gmp.State → ℕ → Type 0
InUse gmp s p = (gmp.live s p ≡ true) × (gmp.initialised s p ≡ true)

-- `res` has become an initialised number of this value; the other numbers are as they were.
abbrev pub Assigns : (gmp : Gmp) → gmp.State → gmp.State → (res : ℕ) → ℤ → Type 0
Assigns gmp s s' res z =
    (gmp.value_of s' res ≡ z)
    × ((p : ℕ) → p ≢ res → gmp.value_of s' p ≡ gmp.value_of s p)
    × ((p : ℕ) → gmp.live s' p ≡ gmp.live s p)
    × (gmp.initialised s' res ≡ true)
    × ((p : ℕ) → p ≢ res → gmp.initialised s' p ≡ gmp.initialised s p)

-- All functions but those that initialise a number need one that has been initialised, as their
-- result and as their arguments.
pub record IsGmp (gmp : Gmp) : Type 0 where
  pub malloc_fresh : (s : gmp.State) → gmp.live s (gmp.malloc_mpz s).0 ≡ false
  pub malloc_live : (s : gmp.State) → gmp.live (gmp.malloc_mpz s).1 (gmp.malloc_mpz s).0 ≡ true
  pub malloc_keeps :
      (s : gmp.State) → (p : ℕ) → gmp.live s p ≡ true → gmp.live (gmp.malloc_mpz s).1 p ≡ true
  pub malloc_value :
      (s : gmp.State) → (p : ℕ) → gmp.value_of (gmp.malloc_mpz s).1 p ≡ gmp.value_of s p
  pub malloc_initialised :
      (s : gmp.State)
      → (p : ℕ) → gmp.live s p ≡ true
      → gmp.initialised (gmp.malloc_mpz s).1 p ≡ gmp.initialised s p
  pub init :
      (s : gmp.State) (res : ℕ) → gmp.live s res ≡ true → Assigns gmp s (gmp.init res s) res (pos 0)
  pub init_set_si :
      (s : gmp.State) (res : ℕ) (z : ℤ)
      → gmp.live s res ≡ true
      → Assigns gmp s (gmp.init_set_si res z s) res z
  pub add :
      (s : gmp.State) (res x y : ℕ)
      → InUse gmp s res
      → InUse gmp s x
      → InUse gmp s y
      → Assigns gmp s (gmp.mpz_add res x y s) res (gmp.value_of s x +ℤ gmp.value_of s y)
  pub sub :
      (s : gmp.State) (res x y : ℕ)
      → InUse gmp s res
      → InUse gmp s x
      → InUse gmp s y
      → Assigns gmp s (gmp.mpz_sub res x y s) res (gmp.value_of s x -ℤ gmp.value_of s y)
  pub mul :
      (s : gmp.State) (res x y : ℕ)
      → InUse gmp s res
      → InUse gmp s x
      → InUse gmp s y
      → Assigns gmp s (gmp.mpz_mul res x y s) res (gmp.value_of s x *ℤ gmp.value_of s y)
  pub add_ui :
      (s : gmp.State) (res x n : ℕ)
      → InUse gmp s res
      → InUse gmp s x
      → Assigns gmp s (gmp.mpz_add_ui res x n s) res (gmp.value_of s x +ℤ pos n)
  pub sub_ui :
      (s : gmp.State) (res x n : ℕ)
      → InUse gmp s res
      → InUse gmp s x
      → Assigns gmp s (gmp.mpz_sub_ui res x n s) res (gmp.value_of s x -ℤ pos n)
  pub neg :
      (s : gmp.State) (res x : ℕ)
      → InUse gmp s res
      → InUse gmp s x
      → Assigns gmp s (gmp.mpz_neg res x s) res (pos 0 -ℤ gmp.value_of s x)
  -- `mpz_cmp` is negative, zero or positive as the order of the two numbers says.
  pub cmp :
      (s : gmp.State) (x y : ℕ)
      → InUse gmp s x
      → InUse gmp s y
      → (eqb_ℤ (gmp.mpz_cmp x y s) (pos 0) ≡ eqb_ℤ (gmp.value_of s x) (gmp.value_of s y))
        × (ltb_ℤ (gmp.mpz_cmp x y s) (pos 0) ≡ ltb_ℤ (gmp.value_of s x) (gmp.value_of s y))
