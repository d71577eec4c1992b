-- ===== src/Int63/Pair.antt =====
-- The operations of runtime/prim_int63.c that return a pair, a block of two fields with the tag 0:
-- the full product, and the divisions.
pub mod Product
pub mod Divide
use certirocq.Prelude.{
  ℕ, zero, suc, ◌+◌, ◌-◌, ◌*◌, ◌/◌, ◌%◌, ◌^◌, bit_and, bit_or, bit_xor, ◌||◌, ◌==◌, ltb, leb,
  if◌then◌else◌,
}
use certirocq.Word.{u64, sub64, ◌<<<◌, ◌>>>◌}
use certirocq.Values.{Memory, store, val_long, unsigned_long_val}
use certirocq.Gc.Alloc.{World, put_two}
use certirocq.Int63.{maxuint63}

-- `2 << 10`, the header of a pair.
abbrev pub header_pair : ℕ
header_pair = 2048

-- `prim_int63_alloc_make_Coq_Init_Datatypes_prod_pair`, `mk_pair`: there is no test of the room.
unfoldable pub mk_pair : World → ℕ → ℕ → ℕ × World
mk_pair w x y = put_two header_pair x y w

-- `prim_int63_make_Coq_Init_Datatypes_prod_pair`: the block at `argv`.
unfoldable pub make_pair : (x y argv : ℕ) → Memory → ℕ × Memory
make_pair x y argv m =
    (argv + 8, store (store (store m argv header_pair) (argv + 8) x) (argv + 16) y)

abbrev pub maxuint31 : ℕ
maxuint31 = 2 ^ 31 - 1

-- The two words of `mulc_aux`, high and low.
unfoldable pub mulc_words : ℕ → ℕ → ℕ × ℕ
mulc_words x y =
    let lx = bit_and x maxuint31 in
    let ly = bit_and y maxuint31 in
    let hx = x >>> 31 in
    let hy = y >>> 31 in
    let hxy = u64 (hx * hy) in
    let hxly = u64 (hx * ly) in
    let lxhy = u64 (lx * hy) in
    let lxy = u64 (lx * ly) in
    let l = bit_or lxy (hxy <<< 62) in
    let h = hxy >>> 1 in
    let hl = bit_and (u64 (hxly + lxhy)) maxuint63 in
    let h' = if ltb hl hxly then u64 (h + 2 ^ 31) else h in
    let hl2 = bit_and (hl <<< 31) maxuint63 in
    let l' = bit_and (u64 (l + hl2)) maxuint63 in
    let h'' = if ltb l' hl2 then u64 (h' + 1) else h' in (u64 (h'' + (hl >>> 32)), l')

unfoldable pub mulc_aux : World → ℕ → ℕ → ℕ × World
unfolding mulc_words mk_pair val_long
mulc_aux w x y = let (h, l) = mulc_words x y in mk_pair w (val_long h) (val_long l)

-- The second half of `prim_int63_mulc`, from the pair `p` that `mulc_aux` built for `x` and `yl`.
unfoldable pub mulc_raise : (x : ℕ) → ℕ × World → ℕ × World
unfolding mk_pair val_long unsigned_long_val
mulc_raise x (p, (ti, m)) =
    let h = unsigned_long_val (m p) in
    let l = unsigned_long_val (m (p + 8)) in
    let l2 = u64 (l + (x <<< 62)) in
    let h' = if ltb l2 l then u64 (h + 1) else h in
    mk_pair (ti, m) (val_long (u64 (h' + (x >>> 1)))) (val_long l2)

unfoldable pub prim_int63_mulc : World → ℕ → ℕ → ℕ × World
unfolding mulc_aux mulc_raise unsigned_long_val
prim_int63_mulc w xp yp =
    let x = unsigned_long_val xp in
    let y = unsigned_long_val yp in
    if x >>> 62 == 0 || y >>> 62 == 0
    then mulc_aux w x y
    else mulc_raise x (mulc_aux w x (bit_xor y (1 <<< 62)))

-- One round of the long division, at the words `nh`, `nl` and `q`.
unfoldable pub divide_step : (y : ℕ) → ℕ × ℕ × ℕ → ℕ × ℕ × ℕ
divide_step y (nh, nl, q) =
    let nh' = bit_or (nh <<< 1) (nl >>> 62) in
    let nl' = bit_and (nl <<< 1) maxuint63 in
    let q' = q <<< 1 in if leb y nh' then (sub64 nh' y, nl', bit_or q' 1) else (nh', nl', q')

unfoldable pub divide_rounds : ℕ → (y : ℕ) → ℕ × ℕ × ℕ → ℕ × ℕ × ℕ
unfolding divide_step
divide_rounds zero y s = s
divide_rounds (suc n) y s = divide_rounds n y (divide_step y s)

unfoldable pub prim_int63_diveucl_21_long : World → (xh xl y : ℕ) → ℕ × World
unfolding divide_rounds mk_pair val_long
prim_int63_diveucl_21_long w xh xl y =
    let (nh, nl, q) = divide_rounds 63 y (bit_and xh maxuint63, bit_and xl maxuint63, 0) in
    mk_pair w (val_long q) (val_long nh)

unfoldable pub prim_int63_diveucl_21 : World → (xh xl y : ℕ) → ℕ × World
unfolding prim_int63_diveucl_21_long mk_pair val_long unsigned_long_val
prim_int63_diveucl_21 w xh xl y =
    let xhl = unsigned_long_val xh in
    let xll = unsigned_long_val xl in
    let yl = unsigned_long_val y in
    if leb yl xhl
    then mk_pair w (val_long 0) (val_long 0)
    else prim_int63_diveucl_21_long w xhl xll yl

unfoldable pub prim_int63_diveucl : World → ℕ → ℕ → ℕ × World
unfolding mk_pair val_long unsigned_long_val
prim_int63_diveucl w xp yp =
    let x = unsigned_long_val xp in
    let y = unsigned_long_val yp in
    if y == 0
    then mk_pair w (val_long 0) (val_long x)
    else mk_pair w (val_long (x / y)) (val_long (x % y))
