-- ===== src/Libc.antt =====
-- c/rts-stubs.c, what the evaluator needs of a C library.
pub mod Division
pub mod Memory
pub mod Text
pub mod Number
pub mod Alloc
pub mod Sort
pub mod Printf
pub mod Bits
pub mod Stubs
