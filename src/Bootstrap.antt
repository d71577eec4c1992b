-- ===== src/Bootstrap.antt =====
-- The wrappers that make the compiled compiler and the compiled proof checker callable from OCaml:
-- bootstrap/certirocqc/certirocqc_wrapper.c and bootstrap/certirocqchk/certirocqchk_wrapper.c.
pub mod Ocaml
pub mod Copy
pub mod Threads
pub mod Lock
pub mod Pipeline
pub mod Checker
pub mod Print
mod Examples
