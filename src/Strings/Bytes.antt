-- ===== src/Strings/Bytes.antt =====
-- Bytes of the memory: `char` is signed, and a store of a byte keeps the others of its word.
use native.Mathlib.Nat.{pow-suc, div-div-eq-div-mul}
use certirocq.Prelude.{
  ℕ, zero, suc, ◌+◌, ◌-◌, ◌*◌, ◌/◌, ◌%◌, ◌^◌, ◌<◌, ◌≡◌, refl, sym, ap, ap₂, ◌∙◌, ◌==◌, inl, inr,
  Bool-cases, false, ltb, arith, if◌then◌else◌, List, [], ◌∷◌, ◌++◌,
}
use certirocq.Prelude.Int.{ℤ, pos, negsuc}
use certirocq.Word.{u64}
use certirocq.Values.{Memory, byte_at}

-- The number that a `char` stands for.
abbrev pub signed8 : ℕ → ℤ
signed8 b = if ltb b 128 then pos b else negsuc (255 - b)

-- `Byte(x, i)`.
unfoldable pub byte : Memory → ℕ → ℕ → ℤ
byte m s i = signed8 (byte_at m (u64 (s + i)))

-- What the C library reads of the bytes in a buffer: those up to the first 0.
unfoldable pub c_string : List ℕ → List ℕ
c_string [] = []
c_string (b ∷ bs) = let rest = c_string bs in if b == 0 then [] else b ∷ rest

-- A word with the byte `b` in place of its `k`-th, counted from the lowest.
abbrev pub put_byte : (k w b : ℕ) → ℕ
put_byte zero w b = w / 256 * 256 + b
put_byte (suc k) w b = put_byte k (w / 256) b * 256 + w % 256

-- `p[0] = b` for a `char *p`.
unfoldable pub store_byte : Memory → ℕ → ℕ → Memory
store_byte m p b a = if a == p / 8 * 8 then put_byte (p % 8) (m a) b else m a

next_byte : (v j : ℕ) → v / 256 ^ suc j ≡ v / 256 / 256 ^ j
next_byte v j =
    ap (λ t. v / t) (pow-suc 256 j ∙ omega arith) ∙ sym (div-div-eq-div-mul v 256 (256 ^ j))

byte_of_put_byte :
    (k j w b : ℕ)
    → b < 256
    → put_byte k w b / 256 ^ j % 256 ≡ (if j == k then b else w / 256 ^ j % 256)
byte_of_put_byte zero zero w b small = omega arith
byte_of_put_byte zero (suc j) w b small =
    let same : (w / 256 * 256 + b) / 256 ≡ w / 256 = omega arith in
    ap (λ t. t % 256) (next_byte _ j ∙ ap (λ t. t / 256 ^ j) same ∙ sym (next_byte w j))
    ∙ ground arith
byte_of_put_byte (suc k) zero w b small = ground arith
byte_of_put_byte (suc k) (suc j) w b small =
    let same : (put_byte k (w / 256) b * 256 + w % 256) / 256 ≡ put_byte k (w / 256) b =
      omega arith in
    let tail = byte_of_put_byte k j (w / 256) b small in
    let head : (suc j == suc k) ≡ (j == k) = ground arith in
    ap (λ t. t % 256) (next_byte _ j ∙ ap (λ t. t / 256 ^ j) same)
    ∙ tail
    ∙ ap₂ (λ e t. if e then b else t % 256) (sym head) (sym (next_byte w j))

-- A store of a byte changes that byte and no other.
pub byte_at-store_byte :
    (m : Memory) (p b a : ℕ)
    → b < 256
    → byte_at (store_byte m p b) a ≡ (if a == p then b else byte_at m a)
unfolding store_byte
byte_at-store_byte m p b a small = elim (Bool-cases (a / 8 * 8 == p / 8 * 8)) [
  | inl word ↦
      let inside : (a % 8 == p % 8) ≡ (a == p) = ground arith in
      rw (word, ← inside) (byte_of_put_byte (p % 8) (a % 8) (m (a / 8 * 8)) b small)
  | inr other ↦ let apart : (a == p) ≡ false = ground arith in rw (other, apart) refl
]

-- None of the bytes is 0.
abbrev pub NonZero : List ℕ → Type 0
NonZero [] = Unit
NonZero (b ∷ bs) = (0 < b) × NonZero bs

pub c_string-ended : (bs : List ℕ) → NonZero bs → c_string (bs ++ 0 ∷ []) ≡ bs
unfolding c_string
c_string-ended [] nz = refl
c_string-ended (b ∷ bs) nz =
    let set : (b == 0) ≡ false = ground arith in rw (set, c_string-ended bs nz.1) refl
