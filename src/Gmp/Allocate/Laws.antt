-- ===== src/Gmp/Allocate/Laws.antt =====
-- The blocks that the GMP library is given.
use certirocq.Prelude.{
  ℕ, zero, suc, ◌+◌, ◌-◌, ◌*◌, ◌%◌, ◌^◌, ◌≤◌, ◌<◌, ◌≡◌, refl, ap, ◌∙◌, ◌⊎◌, inl, inr, bit_or,
  Bool-cases, true, ◌==◌, arith,
}
use certirocq.Word.{◌<<<◌, bit_or_comm}
use certirocq.Values.{Memory, store, wosize_hd, tag_hd}
use certirocq.Values.Header.{header_fields}
use certirocq.Gc.Types.{ok}
use certirocq.Gc.Alloc.{World, has_words, reserve}
use certirocq.Gmp.Allocate.{clear_words, words_of_size, allocate_function}

clear_words-below :
    (n : ℕ) (m : Memory) (p a : ℕ) → (a < p) ⊎ (p + 8 * n ≤ a) → clear_words m p n a ≡ m a
clear_words-below zero m p a out = refl
clear_words-below (suc n) m p a out =
    clear_words-below n (store m p 0) (p + 8) a (omega arith) ∙ stored_elsewhere
  where
    stored_elsewhere : store m p 0 a ≡ m a
    stored_elsewhere = ground arith

clear_words-zero : (n : ℕ) (m : Memory) (p i : ℕ) → i < n → clear_words m p n (p + 8 * i) ≡ 0
clear_words-zero zero m p i lt = absurd (omega arith)
clear_words-zero (suc n) m p zero lt =
    clear_words-below n (store m p 0) (p + 8) (p + 8 * 0) (omega arith) ∙ stored
  where
    stored : store m p 0 (p + 8 * 0) ≡ 0
    stored = ground arith
clear_words-zero (suc n) m p (suc i) lt =
    ap (clear_words (store m p 0) (p + 8) n) (omega arith)
    ∙ clear_words-zero n (store m p 0) (p + 8) i (omega arith)

-- A block at `start`, of at least `size` bytes, that is all zeros and that the collector does not
-- scan.
pub record IsCleared (m : Memory) (start size : ℕ) (m' : Memory) : Type 0 where
  pub words : ℕ
  pub enough : (size ≤ 8 * words) × (8 * words < size + 8)
  pub wosize : wosize_hd (m' start) ≡ words
  pub tag : tag_hd (m' start) ≡ 251
  pub zeros : (i : ℕ) → i < words → m' (start + 8 + 8 * i) ≡ 0
  pub others : (a : ℕ) → (a < start) ⊎ (start + 8 + 8 * words ≤ a) → m' a ≡ m a

-- What an allocation leaves in memory.
abbrev block_memory : Memory → (start words : ℕ) → Memory
block_memory m start words =
    clear_words (store m start (bit_or 251 (words <<< 10))) (start + 8) words

words_of_size_bounds :
    (size : ℕ) → (size ≤ 8 * (words_of_size size - 1)) × (8 * (words_of_size size - 1) < size + 8)
words_of_size_bounds size = elim (Bool-cases (size % 8 == 0)) [
  | inl whole ↦ rw whole (ground arith, ground arith)
  | inr part ↦ rw part (ground arith, ground arith)
]

block_memory-IsCleared :
    (m : Memory) (start size words : ℕ)
    → (size ≤ 8 * words) × (8 * words < size + 8)
    → size < 2 ^ 48
    → IsCleared m start size (block_memory m start words)
block_memory-IsCleared m start size words enough small =
    let (tag, wosize) = header_fields words 251 (omega arith) (omega arith) in
    let header : block_memory m start words start ≡ bit_or (words <<< 10) 251 =
      clear_words-below words _ (start + 8) start (omega arith)
      ∙ stored m start (bit_or 251 (words <<< 10))
      ∙ bit_or_comm 251 (words <<< 10) in
    record {
      words = words;
      enough = enough;
      wosize = ap wosize_hd header ∙ wosize;
      tag = ap tag_hd header ∙ tag;
      zeros = λ i lt. clear_words-zero words _ (start + 8) i lt;
      others = λ a out.
          clear_words-below words _ (start + 8) a (omega arith)
          ∙ kept m start (bit_or 251 (words <<< 10)) a (omega arith);
    }
  where
    stored : (m : Memory) (p w : ℕ) → store m p w p ≡ w
    stored m p w = ground arith

    kept : (m : Memory) (p w a : ℕ) → (a < p) ⊎ (p < a) → store m p w a ≡ m a
    kept m p w a out = ground arith

allocate_function-room :
    (malloc : ℕ → ℕ)
    → (size : ℕ) → (w : World) → has_words (words_of_size size) w.0 ≡ true
    → allocate_function malloc size w
      ≡ ok (w.0.alloc + 8, (w.0, block_memory w.1 w.0.alloc (words_of_size size - 1)))
unfolding allocate_function reserve
allocate_function-room malloc size w room = rw (room, room) refl

-- When the nursery has room, `allocate_function` returns the address behind a header at the
-- allocation pointer, of a block with the words that `size` bytes need, which the collector does not
-- scan; its words are 0 and no other word changes. The allocation pointer does not move: the next
-- request that finds room gets the same address, and the block made for it, header and zeros
-- included, lies over the first.
pub allocate_function-IsCleared :
    (malloc : ℕ → ℕ)
    → (size size' : ℕ) → (w : World) → size < 2 ^ 48
    → size' < 2 ^ 48
    → has_words (words_of_size size) w.0 ≡ true
    → has_words (words_of_size size') w.0 ≡ true
    → (m m' : Memory) × (allocate_function malloc size w ≡ ok (w.0.alloc + 8, (w.0, m)))
      × IsCleared w.1 w.0.alloc size m
      × (allocate_function malloc size' (w.0, m) ≡ ok (w.0.alloc + 8, (w.0, m')))
      × IsCleared m w.0.alloc size' m'
allocate_function-IsCleared malloc size size' w small small' room room' =
    let m = block_memory w.1 w.0.alloc (words_of_size size - 1) in
    (
      m,
      block_memory m w.0.alloc (words_of_size size' - 1),
      allocate_function-room malloc size w room,
      block_memory-IsCleared w.1 w.0.alloc size _ (words_of_size_bounds size) small,
      allocate_function-room malloc size' (w.0, m) room',
      block_memory-IsCleared m w.0.alloc size' _ (words_of_size_bounds size') small',
    )
