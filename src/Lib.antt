-- ===== src/Lib.antt =====
-- Verification of the C runtime of CertiRocq (runtime/), on its 64-bit target.
--
-- The compiled program is C code that works on words: a word is a tagged integer or the address of a
-- block, whose header (size and tag) stands one word below its first field. The program takes blocks
-- from the nursery of a thread, calls the collector when the nursery is full, keeps its live values
-- in a chain of frames of roots, and calls the primitives of the runtime for 63-bit integers,
-- floats, strings and big integers, which allocate in the nursery as well.
--
-- The parts, and where they are:
--   * Prelude (with Tests, Lists, Int, Order): names of the libraries, Boolean tests, lists measured
--     by native numbers, signed integers.
--   * Word (with Step, Bits): 64-bit words; wrap-around, shifts, signed readings, and the reading of
--     `&`, `|` and `^` with masks as arithmetic.
--   * Values (with Header, Long): the macros of runtime/values.h. The memory is a function from
--     addresses to words; words are eight bytes apart.
--   * Gc: runtime/gc_stack.c and runtime/gc_stack.h.
--       - Types: `struct space`, `struct heap`, `struct stack_frame`, `struct thread_info`, and the
--         ways to stop (`abort_with`, a failed `assert`).
--       - Copy: `Is_from`, `forward`, `do_scan`, `forward_roots`, `forward_remset`. Its children
--         prove the collection's invariant (Invariant) of each step: an object is moved (Evacuate),
--         a word is overwritten (Overwrite), `forward` at every depth (Forward, Depth), loops over
--         words (Loop), the scan (Advance, Scan), the roots (Roots), words outside both spaces
--         (Outside), the remembered set (Entry, Remset).
--       - Generation: `do_generation`; Generation/Laws has the theorem on the live graph,
--         Generation/Remembered the one for a generation that older objects point into,
--         Generation/View what can be seen of an object, as a tree, before and after.
--       - Heap: `create_space`, `create_heap`, `make_tinfo`, `resume`, `reset_heap`, `free_heap`,
--         `in_heap`, `print_heapsize`, `certirocq_modify`; Heap/Laws the invariants of spaces and
--         threads, Heap/Freed which blocks `free_heap` gives back.
--       - Collect: `garbage_collect`, `garbage_collect_all`, `export_heap`; Collect/Laws the minor
--         collection, Collect/Remembered the minor collection with a remembered set and after the
--         write barrier, Collect/View what the mutator sees before and after,
--         Collect/Sizes and Collect/Restart the runs over any number of generations.
--       - Alloc: how a primitive makes room and builds a block; Closure: `closure_call`; Examples: a
--         small heap.
--   * Int63: runtime/prim_int63.c. Int63 has the operations that allocate nothing, Carry those that
--     return a carry, Pair those that return a pair; Arith, Order, Leading, Zeros, Carry/Laws,
--     Pair/Product and Pair/Divide have their theorems, Examples the concrete inputs.
--   * Strings: runtime/prim_string.c. Bytes has the bytes of the memory, Laws the loops and the
--     length, Read the bytes of a string as a list, Finished what is left in memory by the operations
--     that build a string, Build two of them, Join the other two, which read strings as well, and
--     Compare the comparison.
--   * Gmp: runtime/certirocq_gmp.c. Library states what the code calls of the GMP library and what
--     its manual says of it, Arith has the arithmetic (theorems in Arith/Laws and Arith/Unary),
--     Compare the bitwise operations and comparisons (theorem in Compare/Order), Allocate the memory
--     functions (theorem in Allocate/Laws), Text the decimal text with what is printed on the way.
--   * Floats: runtime/prim_floats.c on bit patterns; Next and Equal have its theorems. What rounds is
--     the parameter `FloatUnit`.
--   * Bootstrap: bootstrap/certirocqc/certirocqc_wrapper.c and
--     bootstrap/certirocqchk/certirocqchk_wrapper.c, which call the compiled compiler and the compiled
--     checker from OCaml. Ocaml and Threads state what they use of the OCaml runtime, of POSIX threads
--     and of the environment, Lock the rules of the runtime lock and of global roots; Copy is `copy_value` with the tests of where a word points, Pipeline
--     and Checker are the two wrappers, each with its Laws (Pipeline/Once has the theorem on the lock); Print has bootstrap/certirocqc/print.c and
--     bootstrap/certirocqchk/print.c; Examples has a concrete OCaml heap.
--   * Ffi: runtime/rocq_c_ffi.c and runtime/get_ordinal.c; Messages has the messages of
--     runtime/rocq_c_ffi.c, Callbacks those of runtime/rocq_ffi.c: a closure is looked up once, and
--     read from the cell of the OCaml runtime at each call.
--   * RunMain: runtime/certirocq_run_main.c.
--
-- Definitions carry the names of the C functions. A function that changes the thread or the memory
-- takes and returns them; `Result` says whether the program goes on. What `malloc` returns is an
-- argument. A pointer is compared and stepped as a number; a difference of pointers is written out
-- in words.
--
-- Loops: those over a count are recursions on it. `do_scan` runs on fuel, one round for each word of
-- to-space above its start and one more, which is enough as a round passes at least one word; the
-- theorem on `do_generation` includes that it returns. The loops of the collector over generations
-- have the number of generations as their bound. The padding of a string has fuel 8, since the
-- padding starts in the last word. The loops over a string of the program have fuel as an argument.
-- `copy_value` recurses on a bound for the nesting of the value that it copies; its theorem includes
-- that it returns when the value is nested no deeper.
--
-- Not modelled: the printing of trees and of times, the code under `#if 0` and for macOS, the compiler
-- itself (theories/, proved in Rocq) and the plugins. The code that the compiler makes, the OCaml
-- runtime, the GMP library, POSIX threads and the text functions of the C library are parameters.
-- Data races, alignment traps and the undefined cases of C's signed overflow are left out, and so are
-- strings of 2^31 bytes and more, whose length the `int` counters of prim_string.c do not hold.
pub mod Prelude
pub mod Word
pub mod Values
pub mod Gc
pub mod Int63
pub mod Strings
pub mod Gmp
pub mod Ffi
pub mod Bootstrap
pub mod RunMain
pub mod Floats
