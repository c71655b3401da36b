-- ===== src/Strings.antt =====
-- private_libary/cstring_extern_lib/cstring_extern_lib.c
pub mod Trim
pub mod Case
pub mod Split
pub mod Hex
pub mod Demo
