-- ===== src/Strings/Examples.antt =====
-- Two strings built in a small nursery.
use certirocq.Prelude.{
  ℕ, zero, suc, ◌+◌, ◌-◌, ◌*◌, ◌/◌, ◌%◌, ◌<◌, ◌≡◌, refl, List, [], ◌∷◌, length, get_or, none, arith,
}
use certirocq.Prelude.Int.{pos}
use certirocq.Values.{Memory, byte_at, val_long}
use certirocq.Gc.Types.{ThreadInfo, ok}
use certirocq.Strings.{prim_strlen, mk_ocaml_string, prim_string_make}
use certirocq.Strings.Laws.{AreBytes}
use certirocq.Strings.Build.{mk_ocaml_string-prim_strlen, prim_string_make-prim_strlen}

abbrev pub thread : ThreadInfo
thread = record {
  alloc = 1000;
  limit = 2000;
  heap = none;
  args = λ _. 0;
  fp = [];
  nalloc = 0;
  odata = 0;
}

abbrev rocq : List ℕ
rocq = 114 ∷ 111 ∷ 99 ∷ 113 ∷ []

rocq-AreBytes : AreBytes rocq
rocq-AreBytes zero = omega arith
rocq-AreBytes (suc zero) = omega arith
rocq-AreBytes (suc (suc zero)) = omega arith
rocq-AreBytes (suc (suc (suc zero))) = omega arith
rocq-AreBytes (suc (suc (suc (suc i)))) = omega arith

mk_ocaml_string-prim_strlen_example :
    (m' : Memory) × (mk_ocaml_string (λ _. 0) (thread, λ _. 0) rocq
      ≡ ok (1000 + 8, (record thread { alloc = 1000 + 8 * (length rocq / 8 + 1) + 8 }, m')))
    × (prim_strlen m' (1000 + 8) ≡ pos (length rocq))
    × ((i : ℕ) → i < length rocq → byte_at m' (1000 + 8 + i) ≡ get_or rocq i 0)
    × ((a : ℕ) → a < 1000 → m' a ≡ 0)
mk_ocaml_string-prim_strlen_example =
    mk_ocaml_string-prim_strlen (λ _. 0) thread (λ _. 0) rocq rocq-AreBytes (omega arith) refl
      (omega arith) refl

prim_string_make-prim_strlen_example :
    (ti' : ThreadInfo) × (m' : Memory) × (prim_string_make
        (λ _. 0)
        (thread, λ _. 0)
        (val_long 3)
        195
      ≡ ok (1000 + 8, (ti', m')))
    × (prim_strlen m' (1000 + 8) ≡ pos (2 * 3 + 1))
    × ((i : ℕ) → i < 2 * 3 + 1 → byte_at m' (1000 + 8 + i) ≡ 195 % 256)
    × (ti'.alloc ≡ 1000 + 8 * ((2 * 3 + 1) / 8 + 1))
    × (byte_at m' (ti'.alloc + 7) ≡ 8 * ((2 * 3 + 1) / 8 + 1) - 1 - (2 * 3 + 1))
prim_string_make-prim_strlen_example =
    prim_string_make-prim_strlen (λ _. 0) thread (λ _. 0) 3 195 (omega arith) refl (omega arith)
      refl
