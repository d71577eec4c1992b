-- ===== src/Gc/Types.antt =====
-- The data of runtime/gc_stack.h, and the ways in which the runtime stops.
use certirocq.Prelude.{ℕ, Option, ◌+◌, ◌-◌, ◌*◌, ◌/◌, ◌^◌, List, Bool, ◌==◌, if◌then◌else◌}

-- One generation: `start` is 0 (NULL) until it has been created.
pub record Space : Type 0 where
  pub start : ℕ
  pub next : ℕ
  pub limit : ℕ
  pub rem_limit : ℕ

abbrev pub no_space : Space
no_space = record { start = 0; next = 0; limit = 0; rem_limit = 0 }

-- A frame of the shadow stack: the roots lie from `root` up to `next`.
pub record StackFrame : Type 0 where
  pub next : ℕ
  pub root : ℕ

-- `struct heap`: the descriptors of the generations.
abbrev pub Heap : Type 0
Heap = ℕ → Space

-- `struct thread_info`, with the heap that it points to (`none` for NULL). The chain of frames that
-- starts at `fp` is the list of the frames, innermost first.
pub record ThreadInfo : Type 0 where
  pub alloc : ℕ
  pub limit : ℕ
  pub heap : Option Heap
  pub args : ℕ → ℕ
  pub fp : List StackFrame
  pub nalloc : ℕ
  pub odata : ℕ

abbrev pub set_space : Heap → ℕ → Space → Heap
set_space h i s j = if j == i then s else h j

-- `MAX_SPACES` and `NURSERY_SIZE` on a 64-bit target; `RATIO` and `DEPTH` have their defaults.
abbrev pub max_spaces : ℕ
max_spaces = 8 * 8 - (2 + 3 + 16)

abbrev pub nursery_size : ℕ
nursery_size = 2 ^ 16

abbrev pub ratio : ℕ
ratio = 2

abbrev pub depth : ℕ
depth = 0

-- The calls of `abort_with` by their messages, a failed `assert`, a read through
-- a NULL heap or closure, a write to a NULL buffer, a loop whose fuel has run out, a division of C numbers by 0, and `exit`.
pub data Failure : Type 0 where
  no_generation no_heap no_thread_info nursery_too_small out_of_generations : Failure
  assertion null_heap null_closure null_buffer out_of_fuel division_by_zero : Failure
  exit_status : ℕ → Failure

pub data Result {ℓ} (A : Type ℓ) : Type ℓ where
  ok : A → Result A
  fail : Failure → Result A

infixl 5 ◌>>=◌ ◌>>◌
abbrev pub ◌>>=◌ {ℓ κ} : {A : Type ℓ} {B : Type κ} → Result A → (A → Result B) → Result B
ok a >>= f = f a
fail e >>= f = fail e

abbrev pub ◌>>◌ {ℓ} : {B : Type ℓ} → Result (Unit {0}) → Result B → Result B
m >> k = m >>= λ _. k

abbrev pub check : Bool → Failure → Result (Unit {0})
check b e = if b then ok tt else fail e

-- The number of words from `p` up to `q`, for `p ≤ q`: the pointer subtraction `q - p`.
abbrev pub words : ℕ → ℕ → ℕ
words p q = (q - p) / 8
