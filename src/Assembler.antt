-- ===== src/Assembler.antt =====
-- The assembler al.cpp of ikanOSv5-1-Bootloader-Base: operands, lines, the sizes of the first pass,
-- the bytes of the second, and the executable file.
pub mod Operands
pub mod Lines
pub mod Sizes
pub mod Encoding
pub mod Passes
pub mod Elf
pub mod Program
