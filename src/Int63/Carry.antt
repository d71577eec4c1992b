-- ===== src/Int63/Carry.antt =====
-- The operations of runtime/prim_int63.c that mark their result as carried or not: the constructors
-- without and with a carry are blocks of one field with the tags 0 and 1.
pub mod Laws
use certirocq.Prelude.{ℕ, ◌+◌, not, ltb, if◌then◌else◌}
use certirocq.Word.{u64, sub64, slt}
use certirocq.Values.{Memory, store, val_long, unsigned_long_val}
use certirocq.Gc.Types.{Result, ok, ◌>>=◌, ◌>>◌}
use certirocq.Gc.Alloc.{World, reserve, put_one}

-- The words of the two headers, `1 << 10` and `(1 << 10) | 1`.
abbrev pub header_c0 : ℕ
header_c0 = 1024

abbrev pub header_c1 : ℕ
header_c1 = 1025

-- `prim_int63_alloc_make_Coq_Numbers_Cyclic_Abstract_CarryType_carry_C0`, `mk_C0`.
unfoldable pub mk_c0 : (malloc : ℕ → ℕ) → World → ℕ → Result (ℕ × World)
unfolding reserve
mk_c0 malloc w x = do w' ← reserve malloc 2 w; ok (put_one header_c0 x w')

-- `prim_int63_alloc_make_Coq_Numbers_Cyclic_Abstract_CarryType_carry_C1`, `mk_C1`.
unfoldable pub mk_c1 : (malloc : ℕ → ℕ) → World → ℕ → Result (ℕ × World)
unfolding reserve
mk_c1 malloc w x = do w' ← reserve malloc 2 w; ok (put_one header_c1 x w')

-- The two functions `prim_int63_make_Coq_Numbers_Cyclic_Abstract_CarryType_carry_*` without `alloc`:
-- they build the block at `argv` and return that address, as a number, plus 1.
unfoldable pub make_c0 : (x argv : ℕ) → Memory → ℕ × Memory
make_c0 x argv m = (argv + 1, store (store m argv header_c0) (argv + 8) x)

unfoldable pub make_c1 : (x argv : ℕ) → Memory → ℕ × Memory
make_c1 x argv m = (argv + 1, store (store m argv header_c1) (argv + 8) x)

module _ (malloc : ℕ → ℕ) (w : World) where
  unfoldable pub prim_int63_addc : ℕ → ℕ → Result (ℕ × World)
  unfolding mk_c0 mk_c1 val_long unsigned_long_val
  prim_int63_addc x y =
      let xr = unsigned_long_val x in
      let r = u64 (xr + unsigned_long_val y) in
      if ltb r xr then mk_c1 malloc w (val_long r) else mk_c0 malloc w (val_long r)

  -- `r` and `x` are signed.
  unfoldable pub prim_int63_addcarryc : ℕ → ℕ → Result (ℕ × World)
  unfolding mk_c0 mk_c1 val_long unsigned_long_val
  prim_int63_addcarryc x y =
      let r = u64 (unsigned_long_val x + unsigned_long_val y + 1) in
      if not (slt x r) then mk_c1 malloc w (val_long r) else mk_c0 malloc w (val_long r)

  -- `x` and `y` are compared as signed tagged words.
  unfoldable pub prim_int63_subc : ℕ → ℕ → Result (ℕ × World)
  unfolding mk_c0 mk_c1 val_long unsigned_long_val
  prim_int63_subc x y =
      let r = sub64 (unsigned_long_val x) (unsigned_long_val y) in
      if not (slt x y) then mk_c0 malloc w (val_long r) else mk_c1 malloc w (val_long r)

  unfoldable pub prim_int63_subcarryc : ℕ → ℕ → Result (ℕ × World)
  unfolding mk_c0 mk_c1 val_long unsigned_long_val
  prim_int63_subcarryc x y =
      let r = sub64 (sub64 (unsigned_long_val x) (unsigned_long_val y)) 1 in
      if slt y x then mk_c0 malloc w (val_long r) else mk_c1 malloc w (val_long r)
