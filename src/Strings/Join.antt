-- ===== src/Strings/Join.antt =====
-- The two operations that build a string from bytes of others.
mod Examples
use certirocq.Prelude.{
  ℕ, ◌+◌, ◌-◌, ◌*◌, ◌/◌, ◌%◌, ◌^◌, ◌<◌, ◌≡◌, refl, sym, ap, ap₂, ◌∙◌, true, arith, bit_or, List,
  ◌++◌, length, length-append,
}
use certirocq.Prelude.Int.{pos}
use certirocq.Word.{u64, of_signed, ◌<<<◌}
use certirocq.Values.{Memory, store, val_long}
use certirocq.Values.Long.{val_long-eq}
use certirocq.Gc.Types.{ThreadInfo, ok}
use certirocq.Gc.Alloc.{has_words}
use certirocq.Strings.{
  string_tag, prim_strlen, put_bytes, end_string, build_string, copy_bytes, prim_string_cat,
  prim_string_sub,
}
use certirocq.Strings.Laws.{AreBytes}
use certirocq.Strings.Read.{
  read_bytes, length-read_bytes, read_bytes-AreBytes, append-AreBytes, read_bytes_lem, Apart,
  read_bytes-header, copied_twice, copy_bytes-put_bytes,
}
use certirocq.Strings.Build.{words_for-val_long}
use certirocq.Strings.Finished.{finished, finished-string, string_header, build_string-room}

-- A finished string of given bytes in an aligned nursery.
pub record IsString (ti : ThreadInfo) (m : Memory) (bytes : List ℕ) (ti' : ThreadInfo) (m' : Memory)
    : Type 0 where
  pub strlen : prim_strlen m' (ti.alloc + 8) ≡ pos (length bytes)
  pub contents : read_bytes m' (ti.alloc + 8) (length bytes) ≡ bytes
  pub below : (a : ℕ) → a < ti.alloc → m' a ≡ m a
  pub thread : ti' ≡ record ti { alloc = ti.alloc + 8 * (length bytes / 8 + 1) }

build_string-IsString :
    (malloc : ℕ → ℕ) (ti : ThreadInfo) (m : Memory) (size count : ℕ) (write : Memory → ℕ → Memory)
    (bytes : List ℕ)
    → ((hd : ℕ)
        → write (store m ti.alloc hd) (ti.alloc + 8)
          ≡ put_bytes (store m ti.alloc hd) (ti.alloc + 8) bytes)
    → count ≡ length bytes
    → size ≡ length bytes / 8 + 1
    → AreBytes bytes
    → length bytes < 2 ^ 24
    → ti.alloc % 8 ≡ 0
    → ti.alloc < 2 ^ 62
    → has_words (length bytes / 8 + 1) ti ≡ true
    → (ti' : ThreadInfo) × (m' : Memory) × (build_string malloc (ti, m) size count write
        ≡ ok (ti.alloc + 8, (ti', m')))
      × IsString ti m bytes ti' m'
unfolding finished
build_string-IsString malloc ti m size count write bytes written ec es small short even low room =
    let hd = bit_or string_tag (size <<< 10) in
    let (len, get, below, last) =
      finished-string m ti.alloc size hd bytes even small es (omega (arith, es))
        (string_header size (omega (arith, es))) in
    (
      record ti { alloc = ti.alloc + 8 * size },
      finished m ti.alloc size hd bytes,
      build_string-room malloc ti m size count write (rw es room)
          ∙ ap₂
              (λ c t. ok (
                ti.alloc + 8,
                (record ti { alloc = ti.alloc + 8 * size }, end_string (ti.alloc + 8) size c t),
              ))
              ec (written hd),
      record {
        strlen = len;
        contents = read_bytes_lem (finished m ti.alloc size hd bytes) (ti.alloc + 8) bytes get;
        below = below;
        thread = rw es refl;
      },
    )

prim_string_cat-build :
    (malloc : ℕ → ℕ) (ti : ThreadInfo) (m : Memory) (x y lx ly : ℕ)
    → prim_strlen m x ≡ pos lx
    → prim_strlen m y ≡ pos ly
    → lx + ly < 2 ^ 24
    → prim_string_cat malloc (ti, m) x y
      ≡ build_string malloc
          (ti, m)
          ((lx + ly) / 8 + 1)
          (lx + ly)
          (λ m1 strp. copy_bytes ly (copy_bytes lx m1 strp x) (strp + lx) y)
unfolding prim_string_cat
prim_string_cat-build malloc ti m x y lx ly ex ey short =
    let ex' : of_signed (prim_strlen m x) ≡ lx = ap of_signed ex ∙ omega arith in
    let ey' : of_signed (prim_strlen m y) ≡ ly = ap of_signed ey ∙ omega arith in
    let both : u64 (lx + ly) ≡ lx + ly = omega arith in
    ap₂
      (λ a b.
        build_string malloc (ti, m) (u64 (a + b) / 8 + 1) (u64 (a + b))
          λ m1 strp. copy_bytes b (copy_bytes a m1 strp x) (strp + a) y)
      ex' ey'
    ∙ ap
        (λ n.
          build_string malloc (ti, m) (n / 8 + 1) n
            λ m1 strp. copy_bytes ly (copy_bytes lx m1 strp x) (strp + lx) y)
        both

-- Two strings are joined with room in an aligned nursery for the words of both, when they have less
-- than 2^24 bytes together and do not lie where the new block comes to lie. The new string has the
-- bytes of the first and behind them those of the second, and is as long as both; the words below
-- it keep their contents, and the allocation pointer stops one word before the end of the block.
pub prim_string_cat-append :
    (malloc : ℕ → ℕ) (ti : ThreadInfo) (m : Memory) (x y lx ly : ℕ)
    → prim_strlen m x ≡ pos lx
    → prim_strlen m y ≡ pos ly
    → lx + ly < 2 ^ 24
    → ti.alloc % 8 ≡ 0
    → ti.alloc < 2 ^ 62
    → has_words ((lx + ly) / 8 + 1) ti ≡ true
    → Apart x lx ti.alloc (8 * ((lx + ly) / 8 + 1) + 8)
    → Apart y ly ti.alloc (8 * ((lx + ly) / 8 + 1) + 8)
    → (ti' : ThreadInfo) × (m' : Memory) × (prim_string_cat malloc (ti, m) x y
        ≡ ok (ti.alloc + 8, (ti', m')))
      × IsString ti m (read_bytes m x lx ++ read_bytes m y ly) ti' m'
prim_string_cat-append malloc ti m x y lx ly ex ey short even low room apart_x apart_y =
    let len : length (read_bytes m x lx ++ read_bytes m y ly) ≡ lx + ly =
      length-append (read_bytes m x lx) (read_bytes m y ly)
      ∙ ap₂ (λ a b. a + b) (length-read_bytes m x lx) (length-read_bytes m y ly) in
    rw (prim_string_cat-build malloc ti m x y lx ly ex ey short) (
      build_string-IsString malloc ti m ((lx + ly) / 8 + 1) (lx + ly)
        (λ m1 strp. copy_bytes ly (copy_bytes lx m1 strp x) (strp + lx) y)
        (read_bytes m x lx ++ read_bytes m y ly)
        (λ hd.
          copied_twice m ti.alloc hd x y lx ly ((lx + ly) / 8 + 1) even (omega arith) apart_x
            apart_y)
        (sym len) (rw len refl)
        (append-AreBytes _ _ (read_bytes-AreBytes m x lx) (read_bytes-AreBytes m y ly))
        (rw len short) even low (rw len room))

prim_string_sub-build :
    (malloc : ℕ → ℕ) (ti : ThreadInfo) (m : Memory) (x from len : ℕ)
    → from < 2 ^ 20
    → len < 2 ^ 20
    → x < 2 ^ 62
    → prim_string_sub malloc (ti, m) x (val_long from) (val_long len)
      ≡ build_string malloc
          (ti, m)
          ((2 * len + 1) / 8 + 1)
          (2 * len + 1)
          (λ m1 strp. copy_bytes (2 * len + 1) m1 strp (x + (2 * from + 1)))
unfolding prim_string_sub
prim_string_sub-build malloc ti m x from len hf hl hx =
    let (ec, es) = words_for-val_long len hl in
    let at : u64 (x + val_long from) ≡ x + (2 * from + 1) = omega (arith, val_long-eq from) in
    ap₂
      (λ c n.
        build_string malloc (ti, m) n c λ m1 strp. copy_bytes c m1 strp (u64 (x + val_long from)))
      ec es
    ∙ ap
        (λ a.
          build_string malloc (ti, m) ((2 * len + 1) / 8 + 1) (2 * len + 1)
            λ m1 strp. copy_bytes (2 * len + 1) m1 strp a)
        at

-- A part of a string, at the tagged numbers `from` and `len` below 2^20, with room in an aligned
-- nursery and with no byte that is read where the new block comes to lie: the new string has
-- `2 * len + 1` bytes, the tagged word of `len`, which are those from `2 * from + 1` on, the tagged
-- word of `from`; the words below it keep their contents, and the allocation pointer stops one word
-- before the end of the block.
pub prim_string_sub-read_bytes :
    (malloc : ℕ → ℕ) (ti : ThreadInfo) (m : Memory) (x from len : ℕ)
    → from < 2 ^ 20
    → len < 2 ^ 20
    → x < 2 ^ 62
    → ti.alloc % 8 ≡ 0
    → ti.alloc < 2 ^ 62
    → has_words ((2 * len + 1) / 8 + 1) ti ≡ true
    → Apart (x + (2 * from + 1)) (2 * len + 1) ti.alloc (8 * ((2 * len + 1) / 8 + 1) + 8)
    → (ti' : ThreadInfo) × (m' : Memory) × (prim_string_sub malloc
          (ti, m)
          x
          (val_long from)
          (val_long len)
        ≡ ok (ti.alloc + 8, (ti', m')))
      × IsString ti m (read_bytes m (x + (2 * from + 1)) (2 * len + 1)) ti' m'
prim_string_sub-read_bytes malloc ti m x from len hf hl hx even low room apart =
    let src = x + (2 * from + 1) in
    let count = 2 * len + 1 in
    let size = (2 * len + 1) / 8 + 1 in
    let length_is = length-read_bytes m src count in
    rw (prim_string_sub-build malloc ti m x from len hf hl hx) (
      build_string-IsString malloc ti m size count (λ m1 strp. copy_bytes count m1 strp src)
        (read_bytes m src count)
        (λ hd.
          copy_bytes-put_bytes count (store m ti.alloc hd) (ti.alloc + 8) src (omega arith)
          ∙ ap (put_bytes (store m ti.alloc hd) (ti.alloc + 8))
              (read_bytes-header m ti.alloc hd src count size even apart))
        (sym length_is) (rw length_is refl) (read_bytes-AreBytes m src count)
        (omega (arith, length_is)) even low (rw length_is room))
