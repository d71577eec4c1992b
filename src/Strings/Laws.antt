-- ===== src/Strings/Laws.antt =====
-- The strings that the runtime builds, read back.
use certirocq.Prelude.{
  ℕ, zero, suc, ◌+◌, ◌-◌, ◌*◌, ◌/◌, ◌%◌, ◌^◌, ◌≤◌, ◌<◌, ◌≡◌, ◌≢◌, inl, inr, refl, ap, ◌∙◌,
  Bool-cases, true, false, ◌==◌, ltb, arith, if◌then◌else◌, List, [], ◌∷◌, length, get_or,
}
use certirocq.Prelude.Int.{pos, ◌-ℤ◌}
use certirocq.Word.{u64, sub64}
use certirocq.Values.{Memory, byte_at, wosize_hd}
use certirocq.Strings.Bytes.{byte, store_byte, byte_at-store_byte}
use certirocq.Strings.{prim_strlen, put_bytes, pad, end_string}

-- The elements are bytes.
abbrev pub AreBytes : List ℕ → Type 0
AreBytes bs = (i : ℕ) → get_or bs i 0 < 256

-- A byte written from an aligned address on leaves the words below it.
store_byte-below : (m : Memory) (p b a s : ℕ) → s % 8 ≡ 0 → s ≤ p → a < s → store_byte m p b a ≡ m a
unfolding store_byte
store_byte-below m p b a s even le lt =
    let apart : (a == p / 8 * 8) ≡ false = ground arith in rw apart refl

pub store_byte-other :
    (m : Memory) (p b a : ℕ) → b < 256 → a ≢ p → byte_at (store_byte m p b) a ≡ byte_at m a
store_byte-other m p b a small ne =
    let apart : (a == p) ≡ false = ground arith in
    byte_at-store_byte m p b a small ∙ ap (λ t. if t then b else byte_at m a) apart

store_byte-same : (m : Memory) (p b : ℕ) → b < 256 → byte_at (store_byte m p b) p ≡ b
store_byte-same m p b small =
    let same : (p == p) ≡ true = ground arith in
    byte_at-store_byte m p b p small ∙ ap (λ t. if t then b else byte_at m p) same

pub put_bytes-below :
    (m : Memory) (p a s : ℕ) (bs : List ℕ) → s % 8 ≡ 0 → s ≤ p → a < s → put_bytes m p bs a ≡ m a
unfolding put_bytes
put_bytes-below m p a s [] even le lt = refl
put_bytes-below m p a s (b ∷ bs) even le lt =
    put_bytes-below (store_byte m p b) (p + 1) a s bs even (omega arith) lt
    ∙ store_byte-below m p b a s even le lt

pub put_bytes-before :
    (m : Memory) (p a : ℕ) (bs : List ℕ)
    → AreBytes bs
    → a < p
    → byte_at (put_bytes m p bs) a ≡ byte_at m a
unfolding put_bytes
put_bytes-before m p a [] small lt = refl
put_bytes-before m p a (b ∷ bs) small lt =
    put_bytes-before (store_byte m p b) (p + 1) a bs (λ i. small (suc i)) (omega arith)
    ∙ store_byte-other m p b a (small 0) (omega arith)

pub put_bytes-get :
    (m : Memory) (p i : ℕ) (bs : List ℕ)
    → AreBytes bs
    → i < length bs
    → byte_at (put_bytes m p bs) (p + i) ≡ get_or bs i 0
unfolding put_bytes
put_bytes-get m p i [] small lt = absurd (omega arith)
put_bytes-get m p zero (b ∷ bs) small lt =
    ap (byte_at (put_bytes (store_byte m p b) (p + 1) bs)) (omega arith)
    ∙ put_bytes-before (store_byte m p b) (p + 1) p bs (λ i. small (suc i)) (omega arith)
    ∙ store_byte-same m p b (small 0)
put_bytes-get m p (suc i) (b ∷ bs) small lt =
    ap (byte_at (put_bytes (store_byte m p b) (p + 1) bs)) (omega arith)
    ∙ put_bytes-get (store_byte m p b) (p + 1) i bs (λ i. small (suc i)) (omega arith)

-- The padding runs to the last byte of the last word.
pad-ends :
    (fuel strp size j : ℕ) (m : Memory)
    → strp % 8 ≡ 0
    → j < 8 * size
    → 8 * size ≤ j + fuel
    → (m' : Memory) × (pad fuel strp size j m ≡ (8 * size - 1, m'))
      × ((a : ℕ) → a < strp → m' a ≡ m a)
      × ((a : ℕ) → a < strp + j → byte_at m' a ≡ byte_at m a)
unfolding pad
pad-ends zero strp size j m even lt enough = absurd (omega arith)
pad-ends (suc n) strp size j m even lt enough = elim (Bool-cases (ltb ((j + 1) / 8) size)) [
  | inl more ↦
      let (m', e, below, before) =
        pad-ends n strp size (j + 1) (store_byte m (strp + j) 0) even (ground arith)
          (omega arith) in
      rw (pad, more)
        (
          m',
          e,
          λ a lt'. below a lt' ∙ store_byte-below m (strp + j) 0 a strp even (omega arith) lt',
          λ a lt'.
              before a (omega arith)
              ∙ store_byte-other m (strp + j) 0 a (omega arith) (omega arith),
        )
  | inr last ↦
      let end : j ≡ 8 * size - 1 = ground arith in
      rw (pad, last) (m, ap (λ t. (t, m)) end, λ a lt'. refl, λ a lt'. refl)
]

pub end_string-length :
    (strp size i : ℕ) (m : Memory)
    → strp % 8 ≡ 0
    → i < 8 * size
    → 8 * size ≤ i + 8
    → (byte_at (end_string strp size i m) (strp + (8 * size - 1)) ≡ 8 * size - 1 - i)
      × ((a : ℕ) → a < strp → end_string strp size i m a ≡ m a)
      × ((a : ℕ) → a < strp + i → byte_at (end_string strp size i m) a ≡ byte_at m a)
unfolding end_string
end_string-length strp size i m even lt enough =
    let (m', e, below, before) = pad-ends 8 strp size i m even lt enough in
    let small : (8 * size - 1 - i) % 256 ≡ 8 * size - 1 - i = omega arith in
    rw (e, small)
      (
        store_byte-same m' (strp + (8 * size - 1)) (8 * size - 1 - i) (omega arith),
        λ a lt'.
            store_byte-below m' (strp + (8 * size - 1)) (8 * size - 1 - i) a strp even (omega arith)
              lt'
            ∙ below a lt',
        λ a lt'.
            store_byte-other m' (strp + (8 * size - 1)) (8 * size - 1 - i) a (omega arith)
              (omega arith)
            ∙ before a lt',
      )

pub prim_strlen-ended :
    (m : Memory) (s size i : ℕ)
    → wosize_hd (m (s - 8)) ≡ size
    → s + 8 * size < 2 ^ 63
    → i < 8 * size
    → 8 * size ≤ i + 8
    → byte_at m (s + (8 * size - 1)) ≡ 8 * size - 1 - i
    → prim_strlen m s ≡ pos i
unfolding prim_strlen byte ◌-ℤ◌
prim_strlen-ended m s size i hd small lt enough last =
    let temp : sub64 (8 * size) 1 ≡ 8 * size - 1 = omega arith in
    let at : u64 (s + (8 * size - 1)) ≡ s + (8 * size - 1) = omega arith in
    rw (hd, temp, at, last) (ground arith)
