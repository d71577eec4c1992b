-- ===== src/Int63/Examples.antt =====
-- The theorems of 63-bit integers at concrete numbers.
use certirocq.Prelude.{
  ℕ, ◌+◌, ◌-◌, ◌*◌, ◌/◌, ◌%◌, ◌^◌, ◌≤◌, ◌<◌, ◌≡◌, ◌≢◌, refl, inr, true, false, ◌==◌, ltb, leb, none,
  [], arith, if◌then◌else◌,
}
use certirocq.Prelude.Int.{pos, negsuc, ltb_ℤ}
use certirocq.Values.{val_long, val_long_signed}
use certirocq.Gc.Alloc.{World}
use certirocq.Int63.{
  eqb_ℤ, leb_ℤ, mk_bool, prim_int63_add, prim_int63_sub, prim_int63_mul, prim_int63_div,
  prim_int63_mod, prim_int63_addmuldiv, prim_int63_eqb, prim_int63_compare, prim_int63_lesb,
  prim_int63_ltsb, prim_int63_compares, prim_int63_leb, prim_int63_ltb,
}
use certirocq.Int63.{prim_int63_tail0, prim_int63_head0}
use certirocq.Int63.Zeros.{prim_int63_tail0-odd}
use certirocq.Int63.Leading.{prim_int63_head0-leading}
use certirocq.Int63.Arith.{prim_int63_ring, prim_int63_div-mod, prim_int63_addmuldiv_lem}
use certirocq.Int63.Order.{comparison, prim_int63_signed_order, prim_int63_unsigned_order}
use certirocq.Int63.Carry.{mk_c0, mk_c1, prim_int63_addc, prim_int63_subc, prim_int63_subcarryc}
use certirocq.Int63.Carry.Laws.{prim_int63_carries}
use certirocq.Int63.Pair.{mk_pair, prim_int63_mulc, prim_int63_diveucl_21}
use certirocq.Int63.Pair.Product.{prim_int63_mulc-product}
use certirocq.Int63.Pair.Divide.{prim_int63_diveucl_21-cases}

abbrev world : World
world = (
  record { alloc = 1000; limit = 2000; heap = none; args = λ _. 0; fp = []; nalloc = 0; odata = 0 },
  λ _. 0,
)

abbrev malloc : ℕ → ℕ
malloc _ = 0

prim_int63_ring_example :
    (prim_int63_add (val_long (2 ^ 63 - 1)) (val_long 2) ≡ val_long ((2 ^ 63 - 1 + 2) % 2 ^ 63))
    × (prim_int63_sub (val_long (2 ^ 63 - 1)) (val_long 2)
        ≡ val_long ((2 ^ 63 - 1 + 2 ^ 63 - 2) % 2 ^ 63))
    × (prim_int63_mul (val_long (2 ^ 63 - 1)) (val_long 2) ≡ val_long ((2 ^ 63 - 1) * 2 % 2 ^ 63))
prim_int63_ring_example = prim_int63_ring (2 ^ 63 - 1) 2 (omega arith) (omega arith)

prim_int63_div-mod_example :
    (q : ℕ) × (r : ℕ) × (prim_int63_div (val_long 17) (val_long 5) ≡ val_long q)
    × (prim_int63_mod (val_long 17) (val_long 5) ≡ val_long r)
    × (◌≢◌ {A = ℕ} 5 0 → (17 ≡ 5 * q + r) × (r < 5))
    × (◌≡◌ {A = ℕ} 5 0 → (q ≡ 0) × (r ≡ 17))
prim_int63_div-mod_example = prim_int63_div-mod 17 5 (omega arith) (omega arith)

prim_int63_addmuldiv_lem_example :
    prim_int63_addmuldiv (val_long 4) (val_long 3) (val_long (2 ^ 62))
    ≡ val_long (if ltb 63 4 then 0 else 3 * 2 ^ 4 % 2 ^ 63 + 2 ^ 62 / 2 ^ (63 - 4))
prim_int63_addmuldiv_lem_example =
    prim_int63_addmuldiv_lem 4 3 (2 ^ 62) (omega arith) (omega arith) (omega arith)

prim_int63_signed_order_example :
    (prim_int63_lesb (val_long_signed (negsuc 4)) (val_long_signed (pos 3))
      ≡ mk_bool (leb_ℤ (negsuc 4) (pos 3)))
    × (prim_int63_ltsb (val_long_signed (negsuc 4)) (val_long_signed (pos 3))
        ≡ mk_bool (ltb_ℤ (negsuc 4) (pos 3)))
    × (prim_int63_compares (val_long_signed (negsuc 4)) (val_long_signed (pos 3))
        ≡ comparison (eqb_ℤ (negsuc 4) (pos 3)) (ltb_ℤ (negsuc 4) (pos 3)))
prim_int63_signed_order_example =
    prim_int63_signed_order (negsuc 4) (pos 3) (omega arith) (omega arith) (omega arith)
      (omega arith)

prim_int63_unsigned_order_example :
    (prim_int63_eqb (val_long 3) (val_long (2 ^ 62)) ≡ mk_bool (3 == 2 ^ 62))
    × (prim_int63_compare (val_long 3) (val_long (2 ^ 62))
        ≡ comparison (3 == 2 ^ 62) (ltb 3 (2 ^ 62)))
    × (ltb 3 (2 ^ 62) ≡ ltb (2 ^ 62) (2 ^ 62)
        → (prim_int63_leb (val_long 3) (val_long (2 ^ 62)) ≡ mk_bool (leb 3 (2 ^ 62)))
          × (prim_int63_ltb (val_long 3) (val_long (2 ^ 62)) ≡ mk_bool (ltb 3 (2 ^ 62))))
    × (3 < 2 ^ 62
        → 2 ^ 62 ≤ 2 ^ 62
        → (prim_int63_leb (val_long 3) (val_long (2 ^ 62)) ≡ mk_bool false)
          × (prim_int63_ltb (val_long 3) (val_long (2 ^ 62)) ≡ mk_bool false)
          × (prim_int63_leb (val_long (2 ^ 62)) (val_long 3) ≡ mk_bool true)
          × (prim_int63_ltb (val_long (2 ^ 62)) (val_long 3) ≡ mk_bool true))
prim_int63_unsigned_order_example = prim_int63_unsigned_order 3 (2 ^ 62) (omega arith) (omega arith)

prim_int63_carries_example :
    (prim_int63_addc malloc world (val_long 3) (val_long 5)
      ≡ mk_c0 malloc world (val_long ((3 + 5) % 2 ^ 63)))
    × (ltb 3 (2 ^ 62) ≡ ltb 5 (2 ^ 62)
        → (prim_int63_subc malloc world (val_long 3) (val_long 5) ≡ (
            if ltb 3 5
            then mk_c1 malloc world (val_long (3 + 2 ^ 63 - 5))
            else mk_c0 malloc world (val_long (3 - 5))))
          × (prim_int63_subcarryc malloc world (val_long 3) (val_long 5) ≡ (
              if leb 3 5
              then mk_c1 malloc world (val_long (3 + 2 ^ 63 - 5 - 1))
              else mk_c0 malloc world (val_long (3 - 5 - 1)))))
prim_int63_carries_example = prim_int63_carries malloc world 3 5 (omega arith) (omega arith)

prim_int63_mulc-product_example :
    (w' : World) × (h : ℕ) × (l : ℕ) × (prim_int63_mulc world
        (val_long (2 ^ 62))
        (val_long (2 ^ 63 - 1))
      ≡ mk_pair w' (val_long h) (val_long l))
    × (h * 2 ^ 63 + l ≡ 2 ^ 62 * (2 ^ 63 - 1))
    × (l < 2 ^ 63)
prim_int63_mulc-product_example =
    prim_int63_mulc-product world (2 ^ 62) (2 ^ 63 - 1) (omega arith) (omega arith)
      (inr (inr (omega arith)))

prim_int63_diveucl_21-cases_example :
    (2 < 7
      → (q : ℕ) × (r : ℕ) × (prim_int63_diveucl_21 world (val_long 2) (val_long 5) (val_long 7)
          ≡ mk_pair world (val_long q) (val_long r))
        × (2 * 2 ^ 63 + 5 ≡ q * 7 + r)
        × (r < 7)
        × (q < 2 ^ 63))
    × (7 ≤ 2
        → prim_int63_diveucl_21 world (val_long 2) (val_long 5) (val_long 7)
          ≡ mk_pair world (val_long 0) (val_long 0))
prim_int63_diveucl_21-cases_example =
    prim_int63_diveucl_21-cases world 2 5 7 (omega arith) (omega arith) (omega arith)

-- For `xh` = 2, `xl` = 1 and `y` = 2, the remainder that prim_int63.h documents is 1.
zero_remainder :
    (prim_int63_diveucl_21 world (val_long 2) (val_long 1) (val_long 2)
      ≡ mk_pair world (val_long 0) (val_long 0))
    × (2 * 2 ^ 63 + 1 ≡ 2 ^ 63 * 2 + 1)
unfolding prim_int63_diveucl_21 val_long
zero_remainder = (refl, refl)

-- The carry that the second branch of `prim_int63_mulc` loses: the high word of the square of
-- 2^62 + 1 is 2^61 + 1.
high_word : ℕ × World → ℕ
high_word (p, (ti, m)) = m p

lost_carry :
    (high_word (prim_int63_mulc world (val_long (2 ^ 62 + 1)) (val_long (2 ^ 62 + 1)))
      ≡ val_long (2 ^ 61))
    × ((2 ^ 62 + 1) * (2 ^ 62 + 1) ≡ (2 ^ 61 + 1) * 2 ^ 63 + 1)
unfolding prim_int63_mulc val_long high_word
lost_carry = (refl, refl)

prim_int63_tail0-odd_example :
    (◌≢◌ {A = ℕ} 40 0
      → (r : ℕ) × (b : ℕ) × (prim_int63_tail0 (val_long 40) ≡ val_long r)
        × (40 ≡ (2 * b + 1) * 2 ^ r))
    × (◌≡◌ {A = ℕ} 40 0 → prim_int63_tail0 (val_long 40) ≡ val_long 63)
prim_int63_tail0-odd_example = prim_int63_tail0-odd 40 (omega arith)

prim_int63_head0-leading_example :
    (◌≢◌ {A = ℕ} 40 0
      → (r : ℕ) × (prim_int63_head0 (val_long 40) ≡ val_long r)
        × (2 ^ 62 ≤ 40 * 2 ^ r)
        × (40 * 2 ^ r < 2 ^ 63))
    × (◌≡◌ {A = ℕ} 40 0 → prim_int63_head0 (val_long 40) ≡ val_long 63)
prim_int63_head0-leading_example = prim_int63_head0-leading 40 (omega arith)
