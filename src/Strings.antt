-- ===== src/Strings.antt =====
-- runtime/prim_string.c: OCaml strings, blocks of the tag 252 whose last byte tells how many bytes
-- of the last word the string does not use. The C string that `mk_ocaml_string` copies is the list
-- of its bytes.
pub mod Bytes
pub mod Laws
pub mod Read
pub mod Finished
pub mod Build
pub mod Join
pub mod Compare
pub mod Examples
use certirocq.Prelude.{
  ℕ, zero, suc, ◌+◌, ◌-◌, ◌*◌, ◌/◌, ◌%◌, ◌^◌, bit_or, Bool, true, false, not, ◌&&◌, ltb, leb,
  if◌then◌else◌, List, [], ◌∷◌, length, replicate,
}
use certirocq.Prelude.Int.{ℤ, pos, pos_part, ◌-ℤ◌}
use certirocq.Word.{u64, ◌<<<◌, sub64, signed64, of_signed}
use certirocq.Values.{Memory, store, val_long, val_long_signed, long_val, bosize_val, byte_at}
use certirocq.Gc.Types.{ThreadInfo, Result, ok, assertion, check, words, ◌>>=◌, ◌>>◌}
use certirocq.Gc.Collect.{garbage_collect}
use certirocq.Gc.Alloc.{World, has_words, reserve}
use certirocq.Int63.{eqb_ℤ, quot_ℤ}
use certirocq.Strings.Bytes.{byte, store_byte}

abbrev pub string_tag : ℕ
string_tag = 252

unfoldable pub prim_strlen : Memory → ℕ → ℤ
unfolding byte ◌-ℤ◌
prim_strlen m s = let temp = sub64 (bosize_val m s) 1 in signed64 temp -ℤ byte m s temp

-- The loop of `prim_string_compare` with `n` bytes to go.
unfoldable pub compare_bytes : Memory → (x y n i : ℕ) → ℤ
unfolding byte ◌-ℤ◌
compare_bytes m x y zero i = pos 0
compare_bytes m x y (suc n) i =
    let rest = compare_bytes m x y n (i + 1) in
    let cmp = byte m x i -ℤ byte m y i in if not (eqb_ℤ cmp (pos 0)) then cmp else rest

unfoldable pub prim_string_compare : Memory → (x y : ℕ) → ℕ
unfolding prim_strlen compare_bytes val_long_signed ◌-ℤ◌
prim_string_compare m x y =
    let lenx = prim_strlen m x in
    let leny = prim_strlen m y in
    if eqb_ℤ lenx leny
    then of_signed (compare_bytes m x y (pos_part lenx) 0)
    else val_long_signed (lenx -ℤ leny)

unfoldable pub prim_string_get : Memory → (x i : ℕ) → ℕ
unfolding byte val_long_signed long_val
prim_string_get m x i = val_long_signed (byte m x (of_signed (long_val i)))

unfoldable pub prim_string_length : Memory → ℕ → ℕ
unfolding prim_strlen val_long_signed
prim_string_length m x = val_long_signed (prim_strlen m x)

unfoldable pub prim_string_max_length : ℕ
unfolding val_long
prim_string_max_length = val_long 0xfffff

-- `for (i = 0; i < len; i++) strp[i] = str[i];`
unfoldable pub put_bytes : Memory → ℕ → List ℕ → Memory
unfolding store_byte
put_bytes m a [] = m
put_bytes m a (b ∷ bs) = put_bytes (store_byte m a b) (a + 1) bs

-- `for (; ((j + 1) / 8) < words; j++) strp[j] = 0;`. The loop runs less than eight times, since
-- `words` is `i / 8 + 1` for the first `j`, which is `i`.
unfoldable pub pad : (fuel strp size j : ℕ) → Memory → ℕ × Memory
unfolding store_byte
pad zero strp size j m = (j, m)
pad (suc n) strp size j m = elim (ltb ((j + 1) / 8) size) [
  | true ↦ pad n strp size (j + 1) (store_byte m (strp + j) 0)
  | false ↦ (j, m)
]

-- The end of a string whose `i` bytes have been written: `strp[j] = j - i` behind the padding.
unfoldable pub end_string : (strp size i : ℕ) → Memory → Memory
unfolding pad store_byte
end_string strp size i m =
    let (j, m') = pad 8 strp size i m in store_byte m' (strp + j) ((j - i) % 256)

-- `n <= limit - alloc`, compared as signed numbers.
abbrev pub has_words_signed : ℕ → ThreadInfo → Bool
has_words_signed n ti = leb ti.alloc ti.limit && leb n (words ti.alloc ti.limit)

-- `words` is a 32-bit `unsigned int`, and so is `words + 1`, which the test of the room converts to
-- `long`.
unfoldable pub mk_ocaml_string : (malloc : ℕ → ℕ) → World → List ℕ → Result (ℕ × World)
unfolding put_bytes end_string garbage_collect
mk_ocaml_string malloc (ti, m) str = do
  let n = (length str / 8 + 1) % 2 ^ 32
  let request = (n + 1) % 2 ^ 32
  (ti', m') ←
      if has_words_signed request ti
      then ok (ti, m)
      else garbage_collect malloc (record ti { nalloc = request }) m
  check (has_words_signed request ti') assertion
  let strp = ti'.alloc + 8
  let hd = bit_or string_tag (n * 2 ^ 10 % 2 ^ 32)
  let m'' = end_string strp n (length str) (put_bytes (store m' ti'.alloc hd) strp str)
  ok (strp, (record ti' { alloc = ti'.alloc + 8 * n + 8 }, m''))

-- The block that the next three operations build once `words` is known: `write` fills in the bytes
-- from `strp` on, `count` of them.
unfoldable pub build_string :
    (malloc : ℕ → ℕ) → World → (n count : ℕ) → (Memory → ℕ → Memory) → Result (ℕ × World)
unfolding reserve end_string
build_string malloc w n count write = do
  (ti, m) ← reserve malloc n w
  check (has_words n ti) assertion
  let strp = ti.alloc + 8
  let m' = write (store m ti.alloc (bit_or string_tag (n <<< 10))) strp
  ok (strp, (record ti { alloc = ti.alloc + 8 * n }, end_string strp n count m'))

-- `(n / 8) + 1` for a signed number.
abbrev pub words_for : ℤ → ℕ
words_for n = u64 (of_signed (quot_ℤ n (pos 8)) + 1)

-- `bytes` is the tagged word itself.
unfoldable pub prim_string_make : (malloc : ℕ → ℕ) → World → (bytes d : ℕ) → Result (ℕ × World)
unfolding build_string quot_ℤ put_bytes
prim_string_make malloc w bytes d =
    let count = pos_part (signed64 bytes) in
    build_string malloc w (words_for (signed64 bytes)) count
      λ m strp. put_bytes m strp (replicate count (d % 256))

-- `n` bytes from `src` on, each read from the memory that the loop has reached.
unfoldable pub copy_bytes : ℕ → Memory → (dst src : ℕ) → Memory
unfolding store_byte
copy_bytes zero m dst src = m
copy_bytes (suc n) m dst src = copy_bytes n (store_byte m dst (byte_at m src)) (dst + 1) (src + 1)

-- `from` and `len` are the tagged words themselves.
unfoldable pub prim_string_sub : (malloc : ℕ → ℕ) → World → (x from len : ℕ) → Result (ℕ × World)
unfolding build_string quot_ℤ copy_bytes
prim_string_sub malloc w x from len =
    let count = pos_part (signed64 len) in
    build_string malloc w (words_for (signed64 len)) count
      λ m strp. copy_bytes count m strp (u64 (x + from))

unfoldable pub prim_string_cat : (malloc : ℕ → ℕ) → World → (x y : ℕ) → Result (ℕ × World)
unfolding prim_strlen build_string copy_bytes
prim_string_cat malloc w x y =
    let lenx = of_signed (prim_strlen (w.1) x) in
    let leny = of_signed (prim_strlen (w.1) y) in
    build_string malloc w (u64 (lenx + leny) / 8 + 1) (u64 (lenx + leny))
      λ m strp. copy_bytes leny (copy_bytes lenx m strp x) (strp + lenx) y
