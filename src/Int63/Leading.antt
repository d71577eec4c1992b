-- ===== src/Int63/Leading.antt =====
-- Counting the zeros at the high end of a 63-bit number.
use native.Mathlib.Nat.{one-le-pow, mul-lt-mul_of_pos_right, mul-le-mul_right}
use certirocq.Prelude.{
  ℕ, ◌+◌, ◌-◌, ◌*◌, ◌/◌, ◌^◌, ◌≤◌, ◌<◌, ◌≡◌, ◌≢◌, ◌==◌, ◌∙◌, refl, sym, ap, bit_and, Bool-cases,
  inl, inr, true, false, arith, ltb, if◌then◌else◌,
}
use certirocq.Word.{bit_and_mask, bit_and_field, ◌<<<◌, ◌>>>◌}
use certirocq.Values.{val_long, unsigned_long_val}
use certirocq.Int63.{maxuint63, head0_step, prim_int63_head0}
use certirocq.Int63.Arith.{untag, two_pow_split}

-- Between the steps of `prim_int63_head0`: `y`, from which the search started with the count `r0`,
-- has been moved up by at most `n` places to `x`, which has 32 bits and is at least `m`.
record Raised (y r0 n m : ℕ) (s : ℕ × ℕ) : Type 0 where
  pub places : ℕ
  pub few : places ≤ n
  pub moved : s.0 ≡ y * 2 ^ places
  pub count : s.1 ≡ r0 + places
  pub low : m ≤ s.0
  pub high : s.0 < 2 ^ 32

-- A step whose mask tells whether a number of 32 bits is below `b`, where `b` times 2^k is 2^32.
head0_step-Raised :
    (y r0 n m mask k b : ℕ) (s : ℕ × ℕ)
    → ((x : ℕ) → x < 2 ^ 32 → (bit_and x mask == 0) ≡ ltb x b)
    → b * 2 ^ k ≡ 2 ^ 32
    → b ≤ m * 2 ^ k
    → Raised y r0 n m s
    → Raised y r0 (n + k) b (head0_step mask k s)
unfolding head0_step
head0_step-Raised y r0 n m mask k b (x, r) test full enough raised = elim (Bool-cases (ltb x b)) [
  | inl below ↦
      let top : x * 2 ^ k < 2 ^ 32 = omega (
        arith,
        mul-lt-mul_of_pos_right {k = 2 ^ k} (ltb→lt x b below) (one-le-pow k 2 (omega arith)),
      ) in
      let shifted : bit_and (x <<< k) maxuint63 ≡ x * 2 ^ k =
        bit_and_mask 63 (x <<< k) ∙ omega arith in
      rw (test x raised.high, below, shifted)
        (record {
          places = raised.places + k;
          few = omega (arith, raised.few);
          moved =
              ap (λ (t : ℕ). t * 2 ^ k) raised.moved
              ∙ omega (arith, ap (λ (t : ℕ). y * t) (two_pow_split k raised.places));
          count = omega (arith, raised.count);
          low = omega (arith, enough, mul-le-mul_right (2 ^ k) raised.low);
          high = top;
        })
  | inr above ↦
      rw (test x raised.high, above)
        (record {
          places = raised.places;
          few = omega (arith, raised.few);
          moved = raised.moved;
          count = raised.count;
          low = ground arith;
          high = raised.high;
        })
]
  where
    ltb→lt : (a b : ℕ) → ltb a b ≡ true → a < b
    ltb→lt a b e = ground arith

abbrev search : ℕ × ℕ → ℕ × ℕ
search s = head0_step 0x80000000 1 (
    head0_step 0xC0000000 2
      (head0_step 0xF0000000 4 (head0_step 0xFF000000 8 (head0_step 0xFFFF0000 16 s))))

search-Raised : (y r0 : ℕ) → y ≢ 0 → y < 2 ^ 32 → Raised y r0 31 (2 ^ 31) (search (y, r0))
search-Raised y r0 ne h =
    head0_step-Raised y r0 30 (2 ^ 30) 0x80000000 1 (2 ^ 31) _
      (λ x lt. ground (arith, bit_and_field 1 31 x)) refl (omega arith)
      (head0_step-Raised y r0 28 (2 ^ 28) 0xC0000000 2 (2 ^ 30) _
        (λ x lt. ground (arith, bit_and_field 2 30 x)) refl (omega arith)
        (head0_step-Raised y r0 24 (2 ^ 24) 0xF0000000 4 (2 ^ 28) _
          (λ x lt. ground (arith, bit_and_field 4 28 x)) refl (omega arith)
          (head0_step-Raised y r0 16 (2 ^ 16) 0xFF000000 8 (2 ^ 24) _
            (λ x lt. ground (arith, bit_and_field 8 24 x)) refl (omega arith)
            (head0_step-Raised y r0 0 1 0xFFFF0000 16 (2 ^ 16) _
              (λ x lt. ground (arith, bit_and_field 16 16 x)) refl (omega arith)
              (record {
                places = 0;
                few = omega arith;
                moved = omega arith;
                count = omega arith;
                low = omega arith;
                high = h;
              })))))

-- A product below a multiple of its second factor leaves room for one more.
next_multiple : (y s : ℕ) → s ≤ 31 → y * 2 ^ s < 2 ^ 32 → (y + 1) * 2 ^ s ≤ 2 ^ 32
next_multiple y s few h =
    let total : s + (32 - s) ≡ 32 = omega arith in
    let parts : 2 ^ s * 2 ^ (32 - s) ≡ 2 ^ 32 = two_pow_split (32 - s) s ∙ ap (λ t. 2 ^ t) total in
    elim (Bool-cases (ltb y (2 ^ (32 - s)))) [
      | inl below ↦
          let le : y + 1 ≤ 2 ^ (32 - s) = ground arith in
          omega (arith, mul-le-mul_right (2 ^ s) le, parts)
      | inr above ↦
          let le : 2 ^ (32 - s) ≤ y = ground arith in
          absurd (omega (arith, mul-le-mul_right (2 ^ s) le, parts))
    ]

-- The start of the search, and what it leads to.
start : ℕ → ℕ × ℕ
start a = if bit_and a 0x7FFFFFFF00000000 == 0 then (a, 31) else (a >>> 31, 0)

start-leading :
    (a : ℕ)
    → a < 2 ^ 63
    → a ≢ 0
    → (2 ^ 62 ≤ a * 2 ^ (search (start a)).1)
      × (a * 2 ^ (search (start a)).1 < 2 ^ 63)
      × (2 ^ 31 ≤ (search (start a)).0)
      × ((search (start a)).0 < 2 ^ 32)
unfolding start
start-leading a h ne = elim (Bool-cases (bit_and a 0x7FFFFFFF00000000 == 0)) [
  | inl low ↦
      let small : a < 2 ^ 32 = ground (arith, bit_and_field 31 32 a) in
      rw low (from_low (search (a, 31)) (search-Raised a 31 ne small))
  | inr high ↦
      let large : 2 ^ 32 ≤ a = ground (arith, bit_and_field 31 32 a) in
      rw high (
        from_high (search (a / 2 ^ 31, 0)) large
          (search-Raised (a / 2 ^ 31) 0 (omega arith) (omega arith)))
]
  where
    from_low :
        (s : ℕ × ℕ)
        → Raised a 31 31 (2 ^ 31) s
        → (2 ^ 62 ≤ a * 2 ^ s.1) × (a * 2 ^ s.1 < 2 ^ 63) × (2 ^ 31 ≤ s.0) × (s.0 < 2 ^ 32)
    from_low (x, r) raised =
        let power : 2 ^ r ≡ 2 ^ raised.places * 2 ^ 31 =
          ap (λ t. 2 ^ t) raised.count ∙ sym (two_pow_split raised.places 31) ∙ omega arith in
        let value : a * 2 ^ r ≡ x * 2 ^ 31 =
          omega (arith, ap (λ (t : ℕ). a * t) power, raised.moved) in
        (
          omega (arith, value, raised.low),
          omega (arith, value, raised.high),
          raised.low,
          raised.high,
        )

    from_high :
        (s : ℕ × ℕ)
        → 2 ^ 32 ≤ a
        → Raised (a / 2 ^ 31) 0 31 (2 ^ 31) s
        → (2 ^ 62 ≤ a * 2 ^ s.1) × (a * 2 ^ s.1 < 2 ^ 63) × (2 ^ 31 ≤ s.0) × (s.0 < 2 ^ 32)
    from_high (x, r) large raised =
        let same : raised.places ≡ r = omega (arith, raised.count) in
        let moved : x ≡ a / 2 ^ 31 * 2 ^ r = raised.moved ∙ ap (λ t. a / 2 ^ 31 * 2 ^ t) same in
        let top =
          next_multiple (a / 2 ^ 31) r (omega (arith, raised.few))
            (omega (arith, moved, raised.high)) in
        let above : a / 2 ^ 31 * 2 ^ 31 ≤ a = omega arith in
        let below : a + 1 ≤ (a / 2 ^ 31 + 1) * 2 ^ 31 = omega arith in
        (
          omega (arith, moved, raised.low, mul-le-mul_right (2 ^ r) above),
          omega (arith, top, mul-le-mul_right (2 ^ r) below, one-le-pow r 2 (omega arith)),
          raised.low,
          raised.high,
        )

-- The last digit, and the result.
finish : ℕ × ℕ → ℕ
finish (x, r) = val_long (if bit_and x 0x80000000 == 0 then r + 1 else r)

finish-found : (s : ℕ × ℕ) → 2 ^ 31 ≤ s.0 → s.0 < 2 ^ 32 → finish s ≡ val_long s.1
unfolding finish
finish-found (x, r) top fits =
    let one : (bit_and x 0x80000000 == 0) ≡ false = ground (arith, bit_and_field 1 31 x) in
    rw one refl

prim_int63_head0-finish :
    (w : ℕ) → prim_int63_head0 w ≡ finish (search (start (unsigned_long_val w)))
unfolding prim_int63_head0 finish start
prim_int63_head0-finish w = refl

at_zero : prim_int63_head0 (val_long 0) ≡ val_long 63
unfolding prim_int63_head0 val_long
at_zero = refl

-- `head0` of a number other than 0 is the number of zeros before its first one, of 63 digits: that
-- many places up, it has its first one in the digit of 2^62. `head0` of 0 is 63.
pub prim_int63_head0-leading :
    (a : ℕ)
    → a < 2 ^ 63
    → (a ≢ 0
        → (r : ℕ) × (prim_int63_head0 (val_long a) ≡ val_long r)
          × (2 ^ 62 ≤ a * 2 ^ r)
          × (a * 2 ^ r < 2 ^ 63))
      × (a ≡ 0 → prim_int63_head0 (val_long a) ≡ val_long 63)
prim_int63_head0-leading a h = (counted, λ e. ap (λ t. prim_int63_head0 (val_long t)) e ∙ at_zero)
  where
    counted :
        a ≢ 0
        → (r : ℕ) × (prim_int63_head0 (val_long a) ≡ val_long r)
          × (2 ^ 62 ≤ a * 2 ^ r)
          × (a * 2 ^ r < 2 ^ 63)
    counted ne =
        let (lo, hi, top, fits) = start-leading a h ne in
        (
          (search (start a)).1,
          prim_int63_head0-finish (val_long a)
              ∙ ap (λ t. finish (search (start t))) (untag a h)
              ∙ finish-found (search (start a)) top fits,
          lo,
          hi,
        )
