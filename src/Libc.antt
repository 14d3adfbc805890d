-- ===== src/Libc.antt =====
-- The C library of the system, src/libc.
pub mod Memory
pub mod Utf
pub mod Text
pub mod Stdlib
pub mod Bztalloc
