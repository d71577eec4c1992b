-- ===== src/Strings/Read.antt =====
-- Bytes of strings read as a list.
use certirocq.Prelude.{
  ℕ, zero, suc, ◌+◌, ◌*◌, ◌/◌, ◌%◌, ◌≤◌, ◌<◌, ◌≡◌, refl, sym, ap, ap₂, ◌∙◌, ◌⊎◌, false, ◌==◌, arith,
  List, [], ◌∷◌, ◌++◌, length, get_or,
}
use certirocq.Values.{Memory, store, byte_at}
use certirocq.Strings.Bytes.{store_byte}
use certirocq.Strings.{put_bytes, copy_bytes}
use certirocq.Strings.Laws.{AreBytes, store_byte-other}

-- The `n` bytes from the address `a` on.
abbrev pub read_bytes : Memory → (a n : ℕ) → List ℕ
read_bytes m a zero = []
read_bytes m a (suc n) = byte_at m a ∷ read_bytes m (a + 1) n

pub length-read_bytes : (m : Memory) (a n : ℕ) → length (read_bytes m a n) ≡ n
length-read_bytes m a zero = refl
length-read_bytes m a (suc n) = ap suc (length-read_bytes m (a + 1) n)

pub read_bytes-AreBytes : (m : Memory) (a n : ℕ) → AreBytes (read_bytes m a n)
read_bytes-AreBytes m a zero i = omega arith
read_bytes-AreBytes m a (suc n) zero = omega arith
read_bytes-AreBytes m a (suc n) (suc i) = read_bytes-AreBytes m (a + 1) n i

pub append-AreBytes : (xs ys : List ℕ) → AreBytes xs → AreBytes ys → AreBytes (xs ++ ys)
append-AreBytes [] ys hx hy i = hy i
append-AreBytes (x ∷ xs) ys hx hy zero = hx 0
append-AreBytes (x ∷ xs) ys hx hy (suc i) = append-AreBytes xs ys (λ k. hx (suc k)) hy i

-- A list that the bytes agree with.
pub read_bytes_lem :
    (m : Memory) (a : ℕ) (bs : List ℕ)
    → ((i : ℕ) → i < length bs → byte_at m (a + i) ≡ get_or bs i 0)
    → read_bytes m a (length bs) ≡ bs
read_bytes_lem m a [] get = refl
read_bytes_lem m a (b ∷ bs) get =
    ap₂ (λ c cs. c ∷ cs) (ap (byte_at m) (omega arith) ∙ get 0 (omega arith))
      (read_bytes_lem m (a + 1) bs λ i lt. ap (byte_at m) (omega arith) ∙ get (suc i) (omega arith))

pub read_bytes_ext :
    (m m' : Memory) (a n : ℕ)
    → ((i : ℕ) → i < n → byte_at m (a + i) ≡ byte_at m' (a + i))
    → read_bytes m a n ≡ read_bytes m' a n
read_bytes_ext m m' a zero same = refl
read_bytes_ext m m' a (suc n) same =
    ap₂ (λ c cs. c ∷ cs)
      (ap (byte_at m) (omega arith) ∙ same 0 (omega arith) ∙ ap (byte_at m') (omega arith))
      (read_bytes_ext m m' (a + 1) n λ i lt.
        ap (byte_at m) (omega arith) ∙ same (suc i) (omega arith) ∙ ap (byte_at m') (omega arith))

-- Two ranges of addresses that share none.
abbrev pub Apart : (a n b k : ℕ) → Type 0
Apart a n b k = (a + n ≤ b) ⊎ (b + k ≤ a)

-- Copied from a range that is not written to, the bytes are those that stood there.
pub copy_bytes-put_bytes :
    (n : ℕ) (m : Memory) (dst src : ℕ)
    → Apart src n dst n
    → copy_bytes n m dst src ≡ put_bytes m dst (read_bytes m src n)
unfolding copy_bytes put_bytes
copy_bytes-put_bytes zero m dst src apart = refl
copy_bytes-put_bytes (suc n) m dst src apart =
    copy_bytes-put_bytes n (store_byte m dst (byte_at m src)) (dst + 1) (src + 1) (omega arith)
    ∙ ap (put_bytes (store_byte m dst (byte_at m src)) (dst + 1)) (
        read_bytes_ext (store_byte m dst (byte_at m src)) m (src + 1) n
          λ i lt. store_byte-other m dst (byte_at m src) (src + 1 + i) (omega arith) (omega arith))

pub put_bytes-append :
    (m : Memory) (a : ℕ) (xs ys : List ℕ)
    → put_bytes (put_bytes m a xs) (a + length xs) ys ≡ put_bytes m a (xs ++ ys)
unfolding put_bytes
put_bytes-append m a [] ys = ap (λ t. put_bytes m t ys) (omega arith)
put_bytes-append m a (x ∷ xs) ys =
    ap (λ t. put_bytes (put_bytes (store_byte m a x) (a + 1) xs) t ys) (omega arith)
    ∙ put_bytes-append (store_byte m a x) (a + 1) xs ys

pub put_bytes-outside :
    (m : Memory) (p a : ℕ) (bs : List ℕ)
    → AreBytes bs
    → (a < p) ⊎ (p + length bs ≤ a)
    → byte_at (put_bytes m p bs) a ≡ byte_at m a
unfolding put_bytes
put_bytes-outside m p a [] small out = refl
put_bytes-outside m p a (b ∷ bs) small out =
    put_bytes-outside (store_byte m p b) (p + 1) a bs (λ i. small (suc i)) (omega arith)
    ∙ store_byte-other m p b a (small 0) (omega arith)

-- The bytes of other words than the stored one.
pub store-byte_at :
    (m : Memory) (p w a : ℕ)
    → p % 8 ≡ 0
    → (a < p) ⊎ (p + 8 ≤ a)
    → byte_at (store m p w) a ≡ byte_at m a
store-byte_at m p w a even out =
    let other : (a / 8 * 8 == p) ≡ false = ground arith in rw other refl

-- Bytes of a source that the header's word does not touch.
pub read_bytes-header :
    (m : Memory) (base hd a n size : ℕ)
    → base % 8 ≡ 0
    → Apart a n base (8 * size + 8)
    → read_bytes (store m base hd) a n ≡ read_bytes m a n
read_bytes-header m base hd a n size even apart =
    read_bytes_ext (store m base hd) m a n
      λ i lt. store-byte_at m base hd (a + i) even (omega arith)

-- What `memcpy` twice leaves: the bytes of both sources, one behind the other.
pub copied_twice :
    (m : Memory) (base hd x y lx ly size : ℕ)
    → base % 8 ≡ 0
    → lx + ly ≤ 8 * size
    → Apart x lx base (8 * size + 8)
    → Apart y ly base (8 * size + 8)
    → copy_bytes ly (copy_bytes lx (store m base hd) (base + 8) x) (base + 8 + lx) y
      ≡ put_bytes (store m base hd) (base + 8) (read_bytes m x lx ++ read_bytes m y ly)
copied_twice m base hd x y lx ly size even fits apart_x apart_y =
    let m1 = store m base hd in
    let xs = read_bytes m x lx in
    let len = length-read_bytes m x lx in
    let first : copy_bytes lx m1 (base + 8) x ≡ put_bytes m1 (base + 8) xs =
      copy_bytes-put_bytes lx m1 (base + 8) x (omega arith)
      ∙ ap (put_bytes m1 (base + 8)) (read_bytes-header m base hd x lx size even apart_x) in
    let second : read_bytes (put_bytes m1 (base + 8) xs) y ly ≡ read_bytes m y ly =
      read_bytes_ext (put_bytes m1 (base + 8) xs) m1 y ly (λ i lt.
        put_bytes-outside m1 (base + 8) (y + i) xs (read_bytes-AreBytes m x lx)
          (omega (arith, len)))
      ∙ read_bytes-header m base hd y ly size even apart_y in
    ap (λ t. copy_bytes ly t (base + 8 + lx) y) first
    ∙ copy_bytes-put_bytes ly (put_bytes m1 (base + 8) xs) (base + 8 + lx) y (omega arith)
    ∙ ap₂ (λ k ys. put_bytes (put_bytes m1 (base + 8) xs) (base + 8 + k) ys) (sym len) second
    ∙ put_bytes-append m1 (base + 8) xs (read_bytes m y ly)
