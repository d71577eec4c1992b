-- ===== src/Gc.antt =====
-- runtime/gc_stack.c and gc_stack.h: the generational copying collector that finds its roots on
-- a shadow stack. Pointers are byte addresses and `value *` arithmetic goes by eight.
pub mod Types
pub mod Copy
pub mod Generation
pub mod Heap
pub mod Collect
mod Examples
pub mod Alloc
pub mod Closure
