-- ===== src/Compiler/Functions/Frames.antt =====
-- The code of a function of cc.cpp and its frame.
use ikan_osv5_student.Prelude.{ℕ, List, [], ◌++◌, ltb, if◌then◌else◌}
use ikan_osv5_student.Libc.Numbers.{itoa}
use ikan_osv5_student.Compiler.Lexer.{lbrace}
use ikan_osv5_student.Compiler.Statements.{
  codes, Compilation, with_parser, expect_token, emit_assembly,
}
use ikan_osv5_student.Compiler.Control.{define_label}

-- The code of a function with its frame.
unfoldable pub framed_code : ℕ → List ℕ → List ℕ
framed_code stack_size body =
    (if ltb 0 stack_size
      then (codes "\tpush ebp\n\tmov ebp, esp\n\tsub esp, " ++ (itoa stack_size ++ codes "\n"))
        ++ (body ++ codes "\tmov esp, ebp\n\tpop ebp\n")
      else body)
    ++ codes "\tret\n"

-- The state before the statements of a function's body, from its brace on.
unfoldable pub body_start : List ℕ → Compilation → Compilation
body_start name c =
    let opened = expect_token lbrace c in
    let p = opened.parser in
    emit_assembly (define_label name) (with_parser (record p { symbols = [] }) opened)
