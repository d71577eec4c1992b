-- ===== src/Int63/Carry/Laws.antt =====
-- Which results of 63-bit additions and subtractions are marked as carried.
use certirocq.Prelude.{
  ℕ, ◌+◌, ◌-◌, ◌*◌, ◌%◌, ◌^◌, ◌<◌, ◌≡◌, ap, Bool-cases, inl, inr, false, not, ltb, leb, arith,
  if◌then◌else◌,
}
use certirocq.Word.{u64, slt}
use certirocq.Values.{val_long}
use certirocq.Values.Long.{val_long-eq}
use certirocq.Gc.Alloc.{World}
use certirocq.Int63.Carry.{mk_c0, mk_c1, prim_int63_addc, prim_int63_subc, prim_int63_subcarryc}
use certirocq.Int63.Arith.{untag, val_long-mod}

-- The sum of two numbers of 63 bits never wraps around in the 64 bits of `r`, so `addc` always
-- answers with the sum modulo 2^63 and the constructor without a carry, also when the sum is 2^63
-- or more.
prim_int63_addc-mk_c0 :
    (malloc : ℕ → ℕ) (w : World)
    → (a b : ℕ) → a < 2 ^ 63
    → b < 2 ^ 63
    → prim_int63_addc malloc w (val_long a) (val_long b)
      ≡ mk_c0 malloc w (val_long ((a + b) % 2 ^ 63))
unfolding prim_int63_addc
prim_int63_addc-mk_c0 malloc w a b ha hb =
    let wraps : ltb (u64 (a + b)) a ≡ false = ground arith in
    rw (untag a ha, untag b hb, wraps) (ap (mk_c0 malloc w) (val_long-mod _ _ (omega arith)))

-- For two numbers on the same side of 2^62, subtraction and subtraction with a borrow give the
-- difference modulo 2^63, marked as borrowed exactly when it is negative.
prim_int63_subc_same_half :
    (malloc : ℕ → ℕ) (w : World)
    → (a b : ℕ) → a < 2 ^ 63
    → b < 2 ^ 63
    → ltb a (2 ^ 62) ≡ ltb b (2 ^ 62)
    → (prim_int63_subc malloc w (val_long a) (val_long b) ≡ (
        if ltb a b
        then mk_c1 malloc w (val_long (a + 2 ^ 63 - b))
        else mk_c0 malloc w (val_long (a - b))))
      × (prim_int63_subcarryc malloc w (val_long a) (val_long b) ≡ (
          if leb a b
          then mk_c1 malloc w (val_long (a + 2 ^ 63 - b - 1))
          else mk_c0 malloc w (val_long (a - b - 1))))
unfolding prim_int63_subc prim_int63_subcarryc
prim_int63_subc_same_half malloc w a b ha hb same =
    let ea : val_long a ≡ 2 * a + 1 = omega (arith, val_long-eq a) in
    let eb : val_long b ≡ 2 * b + 1 = omega (arith, val_long-eq b) in
    let below : slt (2 * a + 1) (2 * b + 1) ≡ ltb a b = ground arith in
    let above : slt (2 * b + 1) (2 * a + 1) ≡ not (leb a b) = ground arith in
    rw (untag a ha, untag b hb, ea, eb, below, above)
      (
        elim (Bool-cases (ltb a b)) [
          | inl lt ↦ rw lt (ap (mk_c1 malloc w) (val_long-mod _ _ (ground arith)))
          | inr ge ↦ rw ge (ap (mk_c0 malloc w) (val_long-mod _ _ (ground arith)))
        ],
        elim (Bool-cases (leb a b)) [
          | inl le ↦ rw le (ap (mk_c1 malloc w) (val_long-mod _ _ (ground arith)))
          | inr gt ↦ rw gt (ap (mk_c0 malloc w) (val_long-mod _ _ (ground arith)))
        ],
      )

-- The operations with a carry. The sum of two numbers of 63 bits never wraps around in the 64 bits
-- of `r`, so `addc` always answers with the sum modulo 2^63 and the constructor without a carry,
-- also when the sum is 2^63 or more. For two numbers on the same side of 2^62, subtraction and
-- subtraction with a borrow give the difference modulo 2^63, marked as borrowed exactly when it is
-- negative.
pub prim_int63_carries :
    (malloc : ℕ → ℕ) (w : World)
    → (a b : ℕ) → a < 2 ^ 63
    → b < 2 ^ 63
    → (prim_int63_addc malloc w (val_long a) (val_long b)
        ≡ mk_c0 malloc w (val_long ((a + b) % 2 ^ 63)))
      × (ltb a (2 ^ 62) ≡ ltb b (2 ^ 62)
          → (prim_int63_subc malloc w (val_long a) (val_long b) ≡ (
              if ltb a b
              then mk_c1 malloc w (val_long (a + 2 ^ 63 - b))
              else mk_c0 malloc w (val_long (a - b))))
            × (prim_int63_subcarryc malloc w (val_long a) (val_long b) ≡ (
                if leb a b
                then mk_c1 malloc w (val_long (a + 2 ^ 63 - b - 1))
                else mk_c0 malloc w (val_long (a - b - 1)))))
prim_int63_carries malloc w a b ha hb =
    (prim_int63_addc-mk_c0 malloc w a b ha hb, prim_int63_subc_same_half malloc w a b ha hb)
