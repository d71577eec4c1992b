-- ===== src/Int63/Pair/Product.antt =====
-- The full product of two numbers of 63 bits.
use certirocq.Prelude.{
  ℕ, ◌+◌, ◌-◌, ◌*◌, ◌/◌, ◌%◌, ◌^◌, ◌≤◌, ◌<◌, ◌≡◌, ◌≢◌, ◌⊎◌, ◌==◌, ◌||◌, ◌∙◌, refl, sym, ap, ap₂,
  bit_and, bit_or, bit_xor, Bool-cases, inl, inr, false, ltb, arith, if◌then◌else◌,
}
use certirocq.Word.{u64, ◌<<<◌, ◌>>>◌, bit_or_fields, bit_or_comm, bit_xor_top, bit_and_mask}
use certirocq.Values.{val_long}
use certirocq.Gc.Alloc.{World}
use certirocq.Int63.{maxuint63}
use certirocq.Int63.Arith.{untag, val_long-mod}
use certirocq.Int63.Pair.{mulc_words, mk_pair, mulc_aux, mulc_raise, prim_int63_mulc}

-- The words from the four partial products: `a` of the high parts, `b` and `c` mixed, `d` of the low.
combine : (a b c d : ℕ) → ℕ × ℕ
combine a b c d =
    let l = bit_or d (a <<< 62) in
    let h = a >>> 1 in
    let hl = bit_and (u64 (b + c)) maxuint63 in
    let h' = if ltb hl b then u64 (h + 2 ^ 31) else h in
    let hl2 = bit_and (hl <<< 31) maxuint63 in
    let l' = bit_and (u64 (l + hl2)) maxuint63 in
    let h'' = if ltb l' hl2 then u64 (h' + 1) else h' in (u64 (h'' + (hl >>> 32)), l')

combine_lem :
    (a b c d : ℕ)
    → a < 2 ^ 64
    → b < 2 ^ 63
    → c < 2 ^ 63
    → d < 2 ^ 62
    → ((combine a b c d).0 * 2 ^ 63 + (combine a b c d).1 ≡ a * 2 ^ 62 + (b + c) * 2 ^ 31 + d)
      × ((combine a b c d).1 < 2 ^ 63)
unfolding combine
combine_lem a b c d ha hb hc hd =
    let low : bit_or d (a <<< 62) ≡ d + a % 4 * 2 ^ 62 =
      bit_or_comm d (a <<< 62)
      ∙ omega (arith, bit_or_fields 62 (a % 4) d hd, ap (λ (t : ℕ). bit_or t d) (shifted a)) in
    rw
      (
        low,
        bit_and_mask 63 (u64 (b + c)),
        bit_and_mask 63 (((u64 (b + c)) % 2 ^ 63) <<< 31),
        bit_and_mask 63,
      )
      (ground arith, omega arith)
  where
    shifted : (a : ℕ) → (a <<< 62) ≡ a % 4 * 2 ^ 62
    shifted a = omega arith

bounded : (a b m n : ℕ) → a < m → b < n → a * b < m * n
bounded a b m n h k = grind arith

in_word : (k a : ℕ) → 2 ^ k ≤ 2 ^ 64 → a < 2 ^ k → u64 a ≡ a
in_word k a wide small = omega arith

factor :
    (p q r s : ℕ)
    → p * r * 2 ^ 62 + (p * s + q * r) * 2 ^ 31 + q * s ≡ (p * 2 ^ 31 + q) * (r * 2 ^ 31 + s)
factor p q r s = omega arith

-- The 64 bits of a word hold each of the four partial products.
mulc_words-combine :
    (x y : ℕ)
    → x < 2 ^ 63
    → y < 2 ^ 63
    → (w : ℕ × ℕ) × (mulc_words x y ≡ w) × (w.0 * 2 ^ 63 + w.1 ≡ x * y) × (w.1 < 2 ^ 63)
unfolding mulc_words combine
mulc_words-combine x y hx hy =
    let parts = combine_lem _ _ _ _ hh hl lh ll in (_, same, parts.0 ∙ whole, parts.1)
  where
    hh : x / 2 ^ 31 * (y / 2 ^ 31) < 2 ^ 64
    hh = bounded (x / 2 ^ 31) (y / 2 ^ 31) (2 ^ 32) (2 ^ 32) (omega arith) (omega arith)

    hl : x / 2 ^ 31 * (y % 2 ^ 31) < 2 ^ 63
    hl = bounded (x / 2 ^ 31) (y % 2 ^ 31) (2 ^ 32) (2 ^ 31) (omega arith) (omega arith)

    lh : x % 2 ^ 31 * (y / 2 ^ 31) < 2 ^ 63
    lh = bounded (x % 2 ^ 31) (y / 2 ^ 31) (2 ^ 31) (2 ^ 32) (omega arith) (omega arith)

    ll : x % 2 ^ 31 * (y % 2 ^ 31) < 2 ^ 62
    ll = bounded (x % 2 ^ 31) (y % 2 ^ 31) (2 ^ 31) (2 ^ 31) (omega arith) (omega arith)

    whole :
        x / 2 ^ 31 * (y / 2 ^ 31) * 2 ^ 62
          + (x / 2 ^ 31 * (y % 2 ^ 31) + x % 2 ^ 31 * (y / 2 ^ 31)) * 2 ^ 31
          + x % 2 ^ 31 * (y % 2 ^ 31)
        ≡ x * y
    whole =
        factor (x / 2 ^ 31) (x % 2 ^ 31) (y / 2 ^ 31) (y % 2 ^ 31)
        ∙ ap₂ ◌*◌ (sym (omega arith)) (omega arith)

    same :
        mulc_words x y
        ≡ combine
            (x / 2 ^ 31 * (y / 2 ^ 31))
            (x / 2 ^ 31 * (y % 2 ^ 31))
            (x % 2 ^ 31 * (y / 2 ^ 31))
            (x % 2 ^ 31 * (y % 2 ^ 31))
    same =
        rw
          (
            bit_and_mask 31 x,
            bit_and_mask 31 y,
            in_word 64 _ (omega arith) hh,
            in_word 63 _ (omega arith) hl,
            in_word 63 _ (omega arith) lh,
            in_word 62 _ (omega arith) ll,
          )
          refl

-- The two words of the product of two numbers of 63 bits.
pub mulc_words-product :
    (x y : ℕ)
    → x < 2 ^ 63
    → y < 2 ^ 63
    → ((mulc_words x y).0 * 2 ^ 63 + (mulc_words x y).1 ≡ x * y) × ((mulc_words x y).1 < 2 ^ 63)
mulc_words-product x y hx hy =
    let (w, same, parts, small) = mulc_words-combine x y hx hy in rw same (parts, small)

-- The correction of `mulc` for a second factor with its top bit set.
raised_words : (x : ℕ) → ℕ × ℕ → ℕ × ℕ
raised_words x (h, l) =
    let l2 = u64 (l + (x <<< 62)) in
    let h' = if ltb l2 l then u64 (h + 1) else h in (u64 (h' + (x >>> 1)), l2 % 2 ^ 63)

raised_words_lem :
    (x y : ℕ) (hl : ℕ × ℕ)
    → x < 2 ^ 63
    → x % 4 ≢ 1
    → hl.0 * 2 ^ 63 + hl.1 ≡ x * y
    → y < 2 ^ 62
    → hl.1 < 2 ^ 63
    → ((raised_words x hl).0 * 2 ^ 63 + (raised_words x hl).1 ≡ x * (2 ^ 62 + y))
      × ((raised_words x hl).1 < 2 ^ 63)
unfolding raised_words
raised_words_lem x y (h, l) hx odd e hy hl =
    let high : h < 2 ^ 62 = omega (arith, bounded x y (2 ^ 63) (2 ^ 62) hx hy) in
    (ground arith, omega arith)

mulc_raise-mk_pair :
    (x : ℕ) (w : World) (h l : ℕ)
    → h < 2 ^ 62
    → l < 2 ^ 63
    → mulc_raise x (mk_pair w (val_long h) (val_long l))
      ≡ mk_pair
          (mk_pair w (val_long h) (val_long l)).1
          (val_long (raised_words x (h, l)).0)
          (val_long (raised_words x (h, l)).1)
unfolding mulc_raise mk_pair raised_words
mulc_raise-mk_pair x w h l hh hl =
    rw (at_high, at_low, untag h (omega arith), untag l hl)
      (ap (mk_pair _ _)
        (val_long-mod (u64 (l + (x <<< 62))) (u64 (l + (x <<< 62)) % 2 ^ 63) (omega arith)))
  where
    at_high :
        (mk_pair w (val_long h) (val_long l)).1.1 (mk_pair w (val_long h) (val_long l)).0
        ≡ val_long h
    at_high = ground arith

    at_low :
        (mk_pair w (val_long h) (val_long l)).1.1 ((mk_pair w (val_long h) (val_long l)).0 + 8)
        ≡ val_long l
    at_low = ground arith

-- The full product of two numbers of 63 bits is a pair of the words `h` and `l` with
-- `h * 2^63 + l ≡ a * b`, provided that one factor is below 2^62 or the first factor is not 1
-- modulo 4. (With both from 2^62 on, and the first 1 modulo 4, a carry into `h` can be lost.)
pub prim_int63_mulc-product :
    (w : World)
    → (a b : ℕ) → a < 2 ^ 63
    → b < 2 ^ 63
    → (a < 2 ^ 62) ⊎ (b < 2 ^ 62) ⊎ (a % 4 ≢ 1)
    → (w' : World) × (h : ℕ) × (l : ℕ) × (prim_int63_mulc w (val_long a) (val_long b)
        ≡ mk_pair w' (val_long h) (val_long l))
      × (h * 2 ^ 63 + l ≡ a * b)
      × (l < 2 ^ 63)
unfolding prim_int63_mulc mulc_aux
prim_int63_mulc-product w a b ha hb small = elim (Bool-cases (a / 2 ^ 62 == 0 || b / 2 ^ 62 == 0)) [
  | inl one ↦ (
    w,
    (mulc_words a b).0,
    (mulc_words a b).1,
    rw (untag a ha, untag b hb, one) refl,
    (mulc_words-product a b ha hb).0,
    (mulc_words-product a b ha hb).1,
  )
  | inr both ↦
      let top : bit_xor b (2 ^ 62) ≡ b - 2 ^ 62 =
        ap (λ t. bit_xor t (2 ^ 62)) (ground arith) ∙ bit_xor_top 62 (b - 2 ^ 62) (omega arith) in
      let (product, low) = mulc_words-product a (b - 2 ^ 62) ha (omega arith) in
      let (product', low') =
        raised_words_lem a (b - 2 ^ 62) (mulc_words a (b - 2 ^ 62)) ha (odd both) product
          (omega arith) low in
      (
        (mulc_aux w a (b - 2 ^ 62)).1,
        (raised_words a (mulc_words a (b - 2 ^ 62))).0,
        (raised_words a (mulc_words a (b - 2 ^ 62))).1,
        rw (untag a ha, untag b hb, both, top)
            (mulc_raise-mk_pair a w (mulc_words a (b - 2 ^ 62)).0 (mulc_words a (b - 2 ^ 62)).1
              (omega (arith, product, bounded a (b - 2 ^ 62) (2 ^ 63) (2 ^ 62) ha (omega arith)))
              low),
        product' ∙ ap (λ t. a * t) (ground arith),
        low',
      )
]
  where
    odd : (a / 2 ^ 62 == 0 || b / 2 ^ 62 == 0) ≡ false → a % 4 ≢ 1
    odd both = elim small [
      | inl lo ↦ absurd (ground arith)
      | inr (inl lo) ↦ absurd (ground arith)
      | inr (inr other) ↦ other
    ]
