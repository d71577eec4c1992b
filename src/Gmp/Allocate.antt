-- ===== src/Gmp/Allocate.antt =====
-- The memory functions that runtime/certirocq_gmp.c gives to the GMP library: they take the words of
-- the library's numbers from the nursery.
pub mod Laws
use certirocq.Prelude.{ℕ, zero, suc, ◌+◌, ◌-◌, ◌/◌, ◌%◌, bit_or, ◌==◌, ltb, if◌then◌else◌}
use certirocq.Word.{◌<<<◌}
use certirocq.Values.{Memory, store}
use certirocq.Gc.Types.{ThreadInfo, Result, ok, assertion, check, ◌>>=◌, ◌>>◌}
use certirocq.Gc.Alloc.{World, has_words, reserve}
use certirocq.Strings.{copy_bytes}

-- `memset(p, 0, n * sizeof(value))`.
abbrev pub clear_words : Memory → (p n : ℕ) → Memory
clear_words m p zero = m
clear_words m p (suc n) = clear_words (store m p 0) (p + 8) n

abbrev pub words_of_size : ℕ → ℕ
words_of_size size = if size % 8 == 0 then size / 8 + 1 else size / 8 + 2

module _ (malloc : ℕ → ℕ) where
  -- The allocation pointer stays where it is.
  unfoldable pub allocate_function : (alloc_size : ℕ) → World → Result (ℕ × World)
  unfolding reserve
  allocate_function alloc_size w = do
    (ti, m) ← reserve malloc (words_of_size alloc_size) w
    check (has_words (words_of_size alloc_size) ti) assertion
    let size = words_of_size alloc_size - 1
    let m' = store m ti.alloc (bit_or 251 (size <<< 10))
    ok (ti.alloc + 8, (ti, clear_words m' (ti.alloc + 8) size))

  unfoldable pub reallocate_function : (p old_size new_size : ℕ) → World → Result (ℕ × World)
  unfolding allocate_function copy_bytes
  reallocate_function p old_size new_size w = do
    (p', (ti, m)) ← allocate_function new_size w
    ok (p', (ti, copy_bytes (if ltb new_size old_size then new_size else old_size) m p' p))

  unfoldable pub free_function : (p size : ℕ) → World → World
  free_function p size w = w

  -- What `mp_set_memory_functions` is given.
  pub record MemoryFunctions : Type 0 where
    pub allocate : (alloc_size : ℕ) → World → Result (ℕ × World)
    pub reallocate : (p old_size new_size : ℕ) → World → Result (ℕ × World)
    pub free : (p size : ℕ) → World → World

  -- The thread becomes the one from whose nursery the library's numbers come, `global_tinfo`.
  unfoldable pub init_gmp_alloc : ThreadInfo → ThreadInfo × MemoryFunctions
  unfolding allocate_function reallocate_function free_function
  init_gmp_alloc tinfo = (
    tinfo,
    record { allocate = allocate_function; reallocate = reallocate_function; free = free_function },
  )
