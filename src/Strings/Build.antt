-- ===== src/Strings/Build.antt =====
-- The two ways in which the runtime makes a string: from a C string, and from one repeated byte.
use certirocq.Prelude.{
  ℕ, suc, ◌+◌, ◌-◌, ◌*◌, ◌/◌, ◌%◌, ◌^◌, ◌<◌, ◌≡◌, refl, sym, ap, ap₂, ◌∙◌, true, arith, bit_or,
  List, length, get_or, replicate, length-replicate, zero,
}
use certirocq.Prelude.Int.{pos, ◌-ℤ◌, pos_part}
use certirocq.Word.{signed64, ◌<<<◌}
use certirocq.Values.{Memory, store, byte_at, val_long}
use certirocq.Values.Long.{val_long-eq}
use certirocq.Gc.Types.{ThreadInfo, ok}
use certirocq.Gc.Alloc.{has_words}
use certirocq.Int63.{quot_ℤ}
use certirocq.Strings.{
  string_tag, prim_strlen, put_bytes, end_string, has_words_signed, mk_ocaml_string, build_string,
  prim_string_make, words_for,
}
use certirocq.Strings.Finished.{finished, finished-string, string_header, build_string-room}
use certirocq.Strings.Laws.{AreBytes}

mk_ocaml_string-room :
    (malloc : ℕ → ℕ) (ti : ThreadInfo) (m : Memory) (str : List ℕ) (size hd : ℕ)
    → (length str / 8 + 1) % 2 ^ 32 ≡ size
    → bit_or string_tag (size * 2 ^ 10 % 2 ^ 32) ≡ hd
    → (size + 1) % 2 ^ 32 ≡ size + 1
    → has_words_signed (size + 1) ti ≡ true
    → mk_ocaml_string malloc (ti, m) str
      ≡ ok (
        ti.alloc + 8,
        (record ti { alloc = ti.alloc + 8 * size + 8 }, finished m ti.alloc size hd str),
      )
unfolding mk_ocaml_string finished
mk_ocaml_string-room malloc ti m str size hd es ehd narrow room =
    rw (es, narrow, room, room, ehd) refl

-- With room in an aligned nursery for its words and a header, a C string of less than 2^24 bytes
-- becomes a block from which `prim_strlen` reads its length and `Byte` its bytes; the allocation
-- pointer moves behind the block, and the words below the block keep their contents.
pub mk_ocaml_string-prim_strlen :
    (malloc : ℕ → ℕ) (ti : ThreadInfo) (m : Memory) (str : List ℕ)
    → AreBytes str
    → length str < 2 ^ 24
    → ti.alloc % 8 ≡ 0
    → ti.alloc < 2 ^ 62
    → has_words_signed (length str / 8 + 2) ti ≡ true
    → (m' : Memory) × (mk_ocaml_string malloc (ti, m) str
        ≡ ok (ti.alloc + 8, (record ti { alloc = ti.alloc + 8 * (length str / 8 + 1) + 8 }, m')))
      × (prim_strlen m' (ti.alloc + 8) ≡ pos (length str))
      × ((i : ℕ) → i < length str → byte_at m' (ti.alloc + 8 + i) ≡ get_or str i 0)
      × ((a : ℕ) → a < ti.alloc → m' a ≡ m a)
mk_ocaml_string-prim_strlen malloc ti m str small short even low room =
    let size = length str / 8 + 1 in
    let hd = bit_or string_tag (size <<< 10) in
    let (len, bytes, below, last) =
      finished-string m ti.alloc size hd str even small refl (omega arith)
        (string_header size (omega arith)) in
    (
      finished m ti.alloc size hd str,
      mk_ocaml_string-room malloc ti m str size hd (omega arith)
          (ap (bit_or string_tag) (omega arith)) (omega arith)
          (ap (λ t. has_words_signed t ti) (omega arith) ∙ room),
      len,
      bytes,
      below,
    )

get_or-replicate : (n i b d : ℕ) → i < n → get_or (replicate n b) i d ≡ b
get_or-replicate zero i b d lt = absurd (omega arith)
get_or-replicate (suc n) zero b d lt = refl
get_or-replicate (suc n) (suc i) b d lt = get_or-replicate n i b d (omega arith)

replicate-AreBytes : (n b : ℕ) → b < 256 → AreBytes (replicate n b)
replicate-AreBytes zero b small i = omega arith
replicate-AreBytes (suc n) b small zero = small
replicate-AreBytes (suc n) b small (suc i) = replicate-AreBytes n b small i

-- The words that a small tagged number is divided into.
pub words_for-val_long :
    (n : ℕ)
    → n < 2 ^ 20
    → (pos_part (signed64 (val_long n)) ≡ 2 * n + 1)
      × (words_for (signed64 (val_long n)) ≡ (2 * n + 1) / 8 + 1)
unfolding quot_ℤ ◌-ℤ◌
words_for-val_long n small =
    let tagged : val_long n ≡ 2 * n + 1 = omega (arith, val_long-eq n) in
    let e : signed64 (val_long n) ≡ pos (2 * n + 1) = ap signed64 tagged ∙ ground arith in
    (ap pos_part e, ap words_for e ∙ ground arith)

prim_string_make-room :
    (malloc : ℕ → ℕ) (ti : ThreadInfo) (m : Memory) (bytes d count size : ℕ)
    → pos_part (signed64 bytes) ≡ count
    → words_for (signed64 bytes) ≡ size
    → has_words size ti ≡ true
    → prim_string_make malloc (ti, m) bytes d
      ≡ ok (
        ti.alloc + 8,
        (
          record ti { alloc = ti.alloc + 8 * size },
          finished m ti.alloc size (bit_or string_tag (size <<< 10)) (replicate count (d % 256)),
        ),
      )
unfolding prim_string_make finished
prim_string_make-room malloc ti m bytes d count size ec es room =
    ap₂ (λ c n. build_string malloc (ti, m) n c λ m strp. put_bytes m strp (replicate c (d % 256)))
      ec es
    ∙ build_string-room malloc ti m size count
        (λ m strp. put_bytes m strp (replicate count (d % 256))) room
    ∙ ap
        (λ c. ok (
          ti.alloc + 8,
          (
            record ti { alloc = ti.alloc + 8 * size },
            end_string (ti.alloc + 8) size c (
                put_bytes (store m ti.alloc (bit_or string_tag (size <<< 10))) (ti.alloc + 8)
                  (replicate count (d % 256))),
          ),
        ))
        (sym (length-replicate count (d % 256)))

-- `prim_string_make` at the tagged numbers of a count `n` below 2^20 and of a byte, with room in an
-- aligned nursery: the string has `2 * n + 1` bytes, the tagged word of the count; and the
-- allocation pointer stops one word before the end of the block, whose last byte, which tells the
-- length, lies behind it.
pub prim_string_make-prim_strlen :
    (malloc : ℕ → ℕ) (ti : ThreadInfo) (m : Memory) (n d : ℕ)
    → n < 2 ^ 20
    → ti.alloc % 8 ≡ 0
    → ti.alloc < 2 ^ 62
    → has_words ((2 * n + 1) / 8 + 1) ti ≡ true
    → (ti' : ThreadInfo) × (m' : Memory) × (prim_string_make malloc (ti, m) (val_long n) d
        ≡ ok (ti.alloc + 8, (ti', m')))
      × (prim_strlen m' (ti.alloc + 8) ≡ pos (2 * n + 1))
      × ((i : ℕ) → i < 2 * n + 1 → byte_at m' (ti.alloc + 8 + i) ≡ d % 256)
      × (ti'.alloc ≡ ti.alloc + 8 * ((2 * n + 1) / 8 + 1))
      × (byte_at m' (ti'.alloc + 7) ≡ 8 * ((2 * n + 1) / 8 + 1) - 1 - (2 * n + 1))
prim_string_make-prim_strlen malloc ti m n d small even low room =
    let size = (2 * n + 1) / 8 + 1 in
    let bytes = replicate (2 * n + 1) (d % 256) in
    let count = length-replicate (2 * n + 1) (d % 256) in
    let (ec, es) = words_for-val_long n small in
    let (len, get, below, last) =
      finished-string m ti.alloc size (bit_or string_tag (size <<< 10)) bytes even
        (replicate-AreBytes (2 * n + 1) (d % 256) (omega arith)) (ap (λ t. t / 8 + 1) (sym count))
        (omega arith) (string_header size (omega arith)) in
    (
      record ti { alloc = ti.alloc + 8 * size },
      finished m ti.alloc size (bit_or string_tag (size <<< 10)) bytes,
      prim_string_make-room malloc ti m (val_long n) d (2 * n + 1) size ec es room,
      len ∙ ap pos count,
      λ i lt. get i (omega (arith, count)) ∙ get_or-replicate (2 * n + 1) i (d % 256) 0 lt,
      refl,
      ap (byte_at (finished m ti.alloc size (bit_or string_tag (size <<< 10)) bytes)) (omega arith)
          ∙ last
          ∙ omega (arith, count),
    )
