-- ===== src/Printf.antt =====
-- src/printf.c: digits, one converted number, and the format interpreter.
pub mod Digits
pub mod Number
pub mod Format
pub mod Reference
