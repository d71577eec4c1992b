-- ===== src/Gmp/Arith/Examples.antt =====
-- A library of numbers that satisfies what is asked of GMP, and the operations on a sum that does not
-- fit in a tagged number.
use certirocq.Prelude.{
  ℕ, suc, ◌-◌, ◌^◌, ◌≡◌, ◌≢◌, refl, Bool, true, false, ◌==◌, ltb, arith, none, [], if◌then◌else◌,
}
use certirocq.Prelude.Int.{ltb_ℤ, ℤ, pos, negsuc, ◌+ℤ◌, ◌-ℤ◌, ◌*ℤ◌}
use certirocq.Values.{is_long, long_val}
use certirocq.Gc.Types.{ok}
use certirocq.Int63.{eqb_ℤ, leb_ℤ, mk_bool}
use certirocq.Gmp.Library.{Gmp, IsGmp, Assigns}
use certirocq.Gmp.{Numbers}
use certirocq.Gmp.Arith.{z_add, z_sub, z_mul, z_succ, z_pred, z_neg}
use certirocq.Gmp.Compare.{z_equal, z_lt, z_leq, z_gt, z_geq}
use certirocq.Gmp.Compare.Order.{z_lt-number_of}
use certirocq.Gmp.Arith.Laws.{number_of, IsNumber, HasRoom, z_add-number_of}
use certirocq.Gmp.Arith.Unary.{neighbour-number_of, z_neg-number_of}

-- The addresses below the counter have been given out.
abbrev pub Table : Type 0
Table = ℕ × (ℕ → ℤ) × (ℕ → Bool)

abbrev pub assign : (res : ℕ) → ℤ → Table → Table
assign res z (next, value, set) =
    (next, (λ p. if p == res then z else value p), λ p. if p == res then true else set p)

abbrev pub binary : (ℤ → ℤ → ℤ) → (res x y : ℕ) → Table → Table
binary f res x y s = assign res (f (s.1 x) (s.1 y)) s

abbrev pub table : Gmp
table = record {
  State = Table;
  value_of = λ s. s.1;
  live = λ s p. ltb p s.0;
  initialised = λ s p. s.2 p;
  malloc_mpz = λ s. (s.0, (suc s.0, s.1, s.2));
  init = λ res s. assign res (pos 0) s;
  init_set_si = assign;
  mpz_add = binary ◌+ℤ◌;
  mpz_sub = binary ◌-ℤ◌;
  mpz_mul = binary ◌*ℤ◌;
  mpz_tdiv_q = binary ◌*ℤ◌;
  mpz_tdiv_r = binary ◌*ℤ◌;
  mpz_and = binary ◌*ℤ◌;
  mpz_ior = binary ◌*ℤ◌;
  mpz_xor = binary ◌*ℤ◌;
  mpz_add_ui = λ res x n s. assign res (s.1 x +ℤ pos n) s;
  mpz_sub_ui = λ res x n s. assign res (s.1 x -ℤ pos n) s;
  mpz_pow_ui = λ res x n s. assign res (s.1 x) s;
  mpz_abs = λ res x s. assign res (s.1 x) s;
  mpz_neg = λ res x s. assign res (pos 0 -ℤ s.1 x) s;
  mpz_com = λ res x s. assign res (s.1 x) s;
  mpz_cmp = λ x y s. s.1 x -ℤ s.1 y;
  mpz_cmp_ui = λ x n s. s.1 x -ℤ pos n;
  mpz_get_ui = λ x s. 0;
}

assign-Assigns : (s : Table) (res : ℕ) (z : ℤ) → Assigns table s (assign res z s) res z
assign-Assigns s res z = (here, others, (λ p. refl), set, sets)
  where
    here : (assign res z s).1 res ≡ z
    here = let same : (res == res) ≡ true = ground arith in rw same refl

    others : (p : ℕ) → p ≢ res → (assign res z s).1 p ≡ s.1 p
    others p ne = let apart : (p == res) ≡ false = ground arith in rw apart refl

    set : (assign res z s).2 res ≡ true
    set = let same : (res == res) ≡ true = ground arith in rw same refl

    sets : (p : ℕ) → p ≢ res → (assign res z s).2 p ≡ s.2 p
    sets p ne = let apart : (p == res) ≡ false = ground arith in rw apart refl

table-cmp : (a b : ℤ) → (eqb_ℤ (a -ℤ b) (pos 0) ≡ eqb_ℤ a b) × (ltb_ℤ (a -ℤ b) (pos 0) ≡ ltb_ℤ a b)
unfolding ◌-ℤ◌
table-cmp a b = (ground arith, ground arith)

table-IsGmp : IsGmp table
table-IsGmp = record {
  malloc_fresh = λ s. ground arith;
  malloc_live = λ s. ground arith;
  malloc_keeps = λ s p h. ground arith;
  malloc_value = λ s p. refl;
  malloc_initialised = λ s p h. refl;
  init = λ s res h. assign-Assigns s res (pos 0);
  init_set_si = λ s res z h. assign-Assigns s res z;
  add = λ s res x y h hx hy. assign-Assigns s res (s.1 x +ℤ s.1 y);
  sub = λ s res x y h hx hy. assign-Assigns s res (s.1 x -ℤ s.1 y);
  mul = λ s res x y h hx hy. assign-Assigns s res (s.1 x *ℤ s.1 y);
  add_ui = λ s res x n h hx. assign-Assigns s res (s.1 x +ℤ pos n);
  sub_ui = λ s res x n h hx. assign-Assigns s res (s.1 x -ℤ pos n);
  cmp = λ s x y hx hy. table-cmp (s.1 x) (s.1 y);
  neg = λ s res x h hx. assign-Assigns s res (pos 0 -ℤ s.1 x);
}

abbrev pub malloc : ℕ → ℕ
malloc _ = 0

-- One number in use, -5, to which the block at 104 points.
abbrev pub numbers : Numbers table
numbers = (
  (1, (λ _. negsuc 4), λ p. p == 0),
  (
    record {
      alloc = 1000;
      limit = 2000;
      heap = none;
      args = λ _. 0;
      fp = [];
      nalloc = 0;
      odata = 0;
    },
    λ _. 0,
  ),
)

-- The largest tagged number, 2^62 - 1.
abbrev largest : ℕ
largest = 2 ^ 63 - 1

block : IsNumber table numbers 104
unfolding IsNumber
block = (omega arith, λ e. (refl, refl))

tagged : IsNumber table numbers largest
unfolding IsNumber is_long
tagged = (omega arith, λ e. absurd cc)

room : HasRoom table numbers.1
unfolding HasRoom
room = (refl, refl)

largest-number_of : number_of table numbers largest ≡ pos (2 ^ 62 - 1)
unfolding number_of is_long long_val
largest-number_of = refl

z_add-number_of_example :
    ((r : ℕ) × (n' : Numbers table) × (z_add table malloc largest 104 numbers ≡ ok (r, n'))
      × (number_of table n' r ≡ number_of table numbers largest +ℤ number_of table numbers 104))
    × ((r : ℕ) × (n' : Numbers table) × (z_sub table malloc largest 104 numbers ≡ ok (r, n'))
        × (number_of table n' r ≡ number_of table numbers largest -ℤ number_of table numbers 104))
    × ((r : ℕ) × (n' : Numbers table) × (z_mul table malloc largest 104 numbers ≡ ok (r, n'))
        × (number_of table n' r ≡ number_of table numbers largest *ℤ number_of table numbers 104))
z_add-number_of_example =
    z_add-number_of table table-IsGmp malloc largest 104 numbers tagged block room

neighbour-number_of_example :
    ((r : ℕ) × (n' : Numbers table) × (z_succ table malloc largest numbers ≡ ok (r, n'))
      × (number_of table n' r ≡ number_of table numbers largest +ℤ pos 1))
    × ((r : ℕ) × (n' : Numbers table) × (z_pred table malloc largest numbers ≡ ok (r, n'))
        × (number_of table n' r ≡ number_of table numbers largest -ℤ pos 1))
neighbour-number_of_example =
    neighbour-number_of table table-IsGmp malloc largest numbers tagged room

z_neg-number_of_example :
    (r : ℕ) × (n' : Numbers table) × (z_neg table malloc largest numbers ≡ ok (r, n'))
    × (number_of table n' r ≡ pos 0 -ℤ number_of table numbers largest)
z_neg-number_of_example =
    z_neg-number_of table table-IsGmp malloc largest numbers tagged room not_smallest
  where
    not_smallest : number_of table numbers largest ≢ negsuc (2 ^ 62 - 1)
    not_smallest e = let known = largest-number_of in absurd cc

z_lt-number_of_example :
    ((z_equal table malloc largest 104 numbers).0
      ≡ mk_bool (eqb_ℤ (number_of table numbers largest) (number_of table numbers 104)))
    × ((z_lt table malloc largest 104 numbers).0
        ≡ mk_bool (ltb_ℤ (number_of table numbers largest) (number_of table numbers 104)))
    × ((z_leq table malloc largest 104 numbers).0
        ≡ mk_bool (leb_ℤ (number_of table numbers largest) (number_of table numbers 104)))
    × ((z_gt table malloc largest 104 numbers).0
        ≡ mk_bool (ltb_ℤ (number_of table numbers 104) (number_of table numbers largest)))
    × ((z_geq table malloc largest 104 numbers).0
        ≡ mk_bool (leb_ℤ (number_of table numbers 104) (number_of table numbers largest)))
z_lt-number_of_example = z_lt-number_of table table-IsGmp malloc largest 104 numbers tagged block
