-- ===== src/Compiler.antt =====
-- The C compiler cc.cpp of ikanOSv5-1-Bootloader-Base: from tokens to programs.
pub mod Lexer
pub mod Symbols
pub mod Expressions
pub mod Statements
pub mod Control
pub mod Functions
