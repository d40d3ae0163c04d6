-- ===== src/Libc.antt =====
-- The C library of ikanOSv5-1-Bootloader-Base/libc-main.cpp.
pub mod Numbers
pub mod Strings
pub mod Time
pub mod Addresses
