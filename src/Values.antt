-- ===== src/Values.antt =====
-- runtime/values.h: the representation of OCaml values on a 64-bit target, as the runtime uses it.
-- A value is a word; it is a tagged integer when its lowest bit is set, else an address. A block
-- has a header word (size, colour, tag) below its fields.
pub mod Header
pub mod Long
use certirocq.Prelude.{
  ℕ, ◌+◌, ◌-◌, ◌*◌, ◌/◌, ◌%◌, ◌^◌, bit_and, Bool, not, ◌==◌, leb, if◌then◌else◌,
}
use certirocq.Prelude.Int.{ℤ, pos, negsuc}
use certirocq.Word.{u64, ◌<<<◌, ◌>>>◌, signed64, of_signed}

-- The contents of the memory: a word for each address. Aligned words are eight bytes apart.
abbrev pub Memory : Type 0
Memory = ℕ → ℕ

abbrev pub store : Memory → ℕ → ℕ → Memory
store m p w a = if a == p then w else m a

-- `Is_long` and `Is_block`.
unfoldable pub is_long : ℕ → Bool
is_long x = not (bit_and x 1 == 0)

unfoldable pub is_block : ℕ → Bool
is_block x = bit_and x 1 == 0

-- `Val_long`, from a word.
unfoldable pub val_long : ℕ → ℕ
val_long x = u64 ((x <<< 1) + 1)

-- `Unsigned_long_val`: a logical shift.
unfoldable pub unsigned_long_val : ℕ → ℕ
unsigned_long_val x = x >>> 1

-- `Long_val`: an arithmetic shift of the signed word, rounding down.
unfoldable pub long_val : ℕ → ℤ
long_val x = elim (signed64 x) [ pos n ↦ pos (n / 2) | negsuc n ↦ negsuc (n / 2) ]

-- `Val_long` of a signed `long`.
unfoldable pub val_long_signed : ℤ → ℕ
unfolding val_long
val_long_signed z = val_long (of_signed z)

-- `Max_long` and `Min_long`: the 63-bit range.
abbrev pub max_long : ℤ
max_long = pos (2 ^ 62 - 1)

abbrev pub min_long : ℤ
min_long = negsuc (2 ^ 62 - 1)

-- `Tag_hd` and `Wosize_hd`, without profiling information.
unfoldable pub tag_hd : ℕ → ℕ
tag_hd hd = bit_and hd 0xff

unfoldable pub wosize_hd : ℕ → ℕ
wosize_hd hd = hd >>> 10

-- `Hd_val` and `Field`, read.
abbrev pub hd_val : Memory → ℕ → ℕ
hd_val m v = m (v - 8)

abbrev pub field : Memory → ℕ → ℕ → ℕ
field m v i = m (v + 8 * i)

abbrev pub wosize_val : Memory → ℕ → ℕ
wosize_val m v = wosize_hd (hd_val m v)

-- `Bosize_val`: the size in bytes.
abbrev pub bosize_val : Memory → ℕ → ℕ
bosize_val m v = 8 * wosize_val m v

-- `Byte_u`: the byte at an address, on a little-endian machine.
abbrev pub byte_at : Memory → ℕ → ℕ
byte_at m a = m (a / 8 * 8) / 256 ^ (a % 8) % 256

-- `No_scan` of runtime/gc_stack.h: blocks of these tags hold no values.
unfoldable pub no_scan : ℕ → Bool
no_scan tag = leb 251 tag
