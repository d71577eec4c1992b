-- ===== src/Strings/Finished.antt =====
-- What the operations that build a string of runtime/prim_string.c leave in memory.
use certirocq.Prelude.{
  ℕ, ◌+◌, ◌-◌, ◌*◌, ◌/◌, ◌%◌, ◌^◌, ◌<◌, ◌≡◌, refl, ap, ◌∙◌, true, arith, bit_or, List, length,
  get_or,
}
use certirocq.Prelude.Int.{pos}
use certirocq.Word.{◌<<<◌, bit_or_comm}
use certirocq.Values.{Memory, store, byte_at, wosize_hd}
use certirocq.Values.Header.{header_fields}
use certirocq.Gc.Types.{ThreadInfo, ok}
use certirocq.Gc.Alloc.{has_words, reserve}
use certirocq.Strings.{string_tag, prim_strlen, put_bytes, end_string, build_string}
use certirocq.Strings.Laws.{
  AreBytes, put_bytes-below, put_bytes-get, end_string-length, prim_strlen-ended,
}

-- The memory of a finished string: `bytes` written behind a header at `base`.
unfoldable pub finished : (m : Memory) (base size hd : ℕ) (bytes : List ℕ) → Memory
unfolding end_string put_bytes
finished m base size hd bytes =
    end_string (base + 8) size (length bytes) (put_bytes (store m base hd) (base + 8) bytes)

pub finished-string :
    (m : Memory) (base size hd : ℕ) (bytes : List ℕ)
    → base % 8 ≡ 0
    → AreBytes bytes
    → size ≡ length bytes / 8 + 1
    → base + 8 + 8 * size < 2 ^ 63
    → wosize_hd hd ≡ size
    → (prim_strlen (finished m base size hd bytes) (base + 8) ≡ pos (length bytes))
      × ((i : ℕ)
          → i < length bytes
          → byte_at (finished m base size hd bytes) (base + 8 + i) ≡ get_or bytes i 0)
      × ((a : ℕ) → a < base → finished m base size hd bytes a ≡ m a)
      × (byte_at (finished m base size hd bytes) (base + 8 + (8 * size - 1))
          ≡ 8 * size - 1 - length bytes)
unfolding finished
finished-string m base size hd bytes even small es fits ehd =
    let m1 = store m base hd in
    let m2 = put_bytes m1 (base + 8) bytes in
    let (last, below, before) =
      end_string-length (base + 8) size (length bytes) m2 (omega arith) (omega arith)
        (omega arith) in
    let header : finished m base size hd bytes (base + 8 - 8) ≡ hd =
      below (base + 8 - 8) (omega arith)
      ∙ put_bytes-below m1 (base + 8) (base + 8 - 8) (base + 8) bytes (omega arith) (omega arith)
          (omega arith)
      ∙ stored m base hd in
    (
      prim_strlen-ended _ (base + 8) size (length bytes) (ap wosize_hd header ∙ ehd) fits
          (omega arith) (omega arith) last,
      λ i lt. before (base + 8 + i) (omega arith) ∙ put_bytes-get m1 (base + 8) i bytes small lt,
      λ a lt.
          below a (omega arith)
          ∙ put_bytes-below m1 (base + 8) a (base + 8) bytes (omega arith) (omega arith)
              (omega arith)
          ∙ kept m base hd a lt,
      last,
    )
  where
    stored : (m : Memory) (base hd : ℕ) → store m base hd (base + 8 - 8) ≡ hd
    stored m base hd = ground arith

    kept : (m : Memory) (base hd a : ℕ) → a < base → store m base hd a ≡ m a
    kept m base hd a lt = ground arith

-- The header that the operations write.
pub string_header : (size : ℕ) → size < 2 ^ 54 → wosize_hd (bit_or string_tag (size <<< 10)) ≡ size
string_header size h =
    ap wosize_hd (bit_or_comm string_tag (size <<< 10))
    ∙ (header_fields size string_tag h (omega arith)).1

pub build_string-room :
    (malloc : ℕ → ℕ) (ti : ThreadInfo) (m : Memory) (size count : ℕ) (write : Memory → ℕ → Memory)
    → has_words size ti ≡ true
    → build_string malloc (ti, m) size count write
      ≡ ok (
        ti.alloc + 8,
        (
          record ti { alloc = ti.alloc + 8 * size },
          end_string
              (ti.alloc + 8)
              size
              count
              (write (store m ti.alloc (bit_or string_tag (size <<< 10))) (ti.alloc + 8)),
        ),
      )
unfolding build_string reserve
build_string-room malloc ti m size count write room = rw (room, room) refl
