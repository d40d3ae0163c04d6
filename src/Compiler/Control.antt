-- ===== src/Compiler/Control.antt =====
-- The statements of cc.cpp that hold others, calls, and lists of statements.
pub mod Growth
pub mod Rounds
use ikan_osv5_student.Prelude.{
  ℕ, zero, suc, ◌+◌, ◌*◌, Bool, true, false, ◌||◌, Option, none, some, List, [], ◌∷◌, ◌++◌, ◌==◌,
  if◌then◌else◌, length,
}
use ikan_osv5_student.Libc.Numbers.{itoa, is_space}
use ikan_osv5_student.Libc.Strings.{same_text}
use ikan_osv5_student.Compiler.Lexer.{
  int, lparen, rparen, lbrace, rbrace, identifier, number, return, semicolon, end, if_token,
  else_token, not_equal, comma, syscall, while, less, star, char, expected_identifier,
  expected_number, expected_not_equal, expected_less, invalid_statement,
  expected_identifier_for_call,
}
use ikan_osv5_student.Compiler.Symbols.{report}
use ikan_osv5_student.Compiler.Expressions.{ExprInfo}
use ikan_osv5_student.Compiler.Statements.{
  ◌>>=◌, codes, Compilation, value_of, at_token, with_parser, advance, require_token, expect_token,
  emit_assembly, expression, load, location, parse_declaration, parse_assignment,
  parse_deref_assignment, parse_return_statement, parse_syscall_statement,
}

-- `else_0`, `loop_0`, `end_0`
abbrev pub label : List ℕ → ℕ → List ℕ
label prefix n = prefix ++ itoa n

abbrev pub end_label : ℕ → List ℕ
end_label n = label (codes "end_") n

abbrev pub define_label : List ℕ → List ℕ
define_label name = name ++ codes ":\n"

abbrev pub jump_line : List ℕ → List ℕ → List ℕ
jump_line instruction target = codes "\t" ++ (instruction ++ (codes " " ++ (target ++ codes "\n")))

-- An identifier in a condition: its place, and what stands behind it.
abbrev pub condition_variable : Compilation → List ℕ × Compilation
condition_variable c =
    let d = require_token identifier expected_identifier c in
    let (place, e) = location (value_of d) d in (place, advance e)

module _ (statement_list : Compilation → Option Compilation) where
  abbrev pub braced : Compilation → Option Compilation
  braced c = do d ← statement_list c; some (expect_token rbrace d)

  unfoldable pub else_part : Compilation → Option Compilation
  else_part c =
      if at_token else_token c
      then braced (expect_token lbrace (expect_token else_token c))
      else some c

  -- From the brace on: the places compared, and the number of the labels.
  unfoldable pub if_body : List ℕ → List ℕ → Compilation → Option Compilation
  if_body place1 place2 c = do
    let n = c.if_labels
    let else_label = label (codes "else_") n
    let test =
        codes "\tmov eax, "
        ++ (place1
            ++ (codes "\n\tcmp eax, "
                ++ (place2 ++ (codes "\n" ++ jump_line (codes "je") else_label))))
    d ← braced (emit_assembly test (record c { if_labels = n + 1 }))
    let turn = jump_line (codes "jmp") (end_label n) ++ define_label else_label
    e ← else_part (emit_assembly turn d)
    some (emit_assembly (define_label (end_label n)) e)

  unfoldable pub parse_if_statement : Compilation → Option Compilation
  parse_if_statement c =
      let (place1, d) = condition_variable (expect_token lparen (expect_token if_token c)) in
      let (place2, e) =
        condition_variable (advance (require_token not_equal expected_not_equal d)) in
      if_body place1 place2 (expect_token lbrace (expect_token rparen e))

  unfoldable pub while_body : List ℕ → List ℕ → Compilation → Option Compilation
  while_body place bound c = do
    let n = c.while_labels
    let loop_label = label (codes "loop_") n
    let test =
        define_label loop_label
        ++ (codes "\tcmp "
            ++ (place
                ++ (codes ", "
                    ++ (bound ++ (codes "\n" ++ jump_line (codes "jge") (end_label n))))))
    d ← braced (emit_assembly test (record c { while_labels = n + 1 }))
    some (emit_assembly (jump_line (codes "jmp") loop_label ++ define_label (end_label n)) d)

  unfoldable pub parse_while_statement : Compilation → Option Compilation
  parse_while_statement c =
      let (place, d) = condition_variable (expect_token lparen (expect_token while c)) in
      let e = require_token number expected_number (advance (require_token less expected_less d)) in
      while_body place (value_of e) (expect_token lbrace (expect_token rparen (advance e)))

unfoldable pub is_function_defined : List ℕ → List (List ℕ) → Bool
is_function_defined name [] = false
is_function_defined name (f ∷ functions) =
    let later = is_function_defined name functions in if same_text f name then true else later

-- The loop over arguments, on the places left in `args`.
unfoldable pub call_arguments : ℕ → ℕ → Compilation → Option (List ExprInfo × Compilation)
call_arguments rounds zero c = none
call_arguments rounds (suc places) c =
    let later = λ (d : Compilation). call_arguments rounds places (advance d) in
    (do
      (info, d) ← expression rounds c
      (if at_token comma d
          then (do (rest, e) ← later d; some (info ∷ rest, e))
          else some (info ∷ [], d)))

-- The arguments are pushed from the last to the first.
unfoldable pub push_arguments : List ExprInfo → List ℕ
push_arguments [] = []
push_arguments (info ∷ arguments) =
    push_arguments arguments ++ (load "eax" info ++ codes "\tpush eax\n")

abbrev pub call_line : List ℕ → List ℕ
call_line name = codes "\tcall " ++ (name ++ codes "\n")

abbrev pub call_code : List ℕ → List ExprInfo → List ℕ
call_code name arguments =
    codes "\tpush eax\n\tpush ecx\n\tpush edx\n"
    ++ (push_arguments arguments
        ++ (call_line name
            ++ (codes "\tadd esp, "
                ++ (itoa (length arguments * 4) ++ codes "\n\tpop edx\n\tpop ecx\n\tpop eax\n"))))

unfoldable pub parse_function_call : ℕ → Compilation → Option Compilation
parse_function_call rounds c =
    let d = require_token identifier expected_identifier_for_call c in
    let name = value_of d in
    let e = expect_token lparen (advance d) in
    if is_function_defined name e.defined_functions
    then some (expect_token semicolon (emit_assembly (call_line name) (expect_token rparen e)))
    else (do
      (arguments, f) ← (if at_token rparen e then some ([], e) else call_arguments rounds 5 e)
      let g = emit_assembly (call_code name arguments) (expect_token rparen f)
      some (expect_token semicolon g))

-- The first character that is no blank; 0 at the end.
unfoldable pub peek_next_non_space : List ℕ → ℕ
peek_next_non_space [] = 0
peek_next_non_space (c ∷ text) =
    let later = peek_next_non_space text in if is_space c then later else c

abbrev pub invalid : Compilation → Option Compilation
invalid c = some (with_parser (report invalid_statement c.parser) c)

module _ (statement_list : Compilation → Option Compilation) (rounds : ℕ) where
  -- An invalid statement is reported, and the parser stays where it is.
  unfoldable pub parse_statement : Compilation → Option Compilation
  parse_statement c =
      let ahead = peek_next_non_space c.parser.source.rest in
      if at_token int c || at_token char c
      then parse_declaration rounds c
      else (if at_token identifier c
          then (if ahead == b'='
              then parse_assignment rounds c
              else (if ahead == b'(' then parse_function_call rounds c else invalid c))
          else (if at_token star c
              then parse_deref_assignment rounds c
              else (if at_token return c
                  then parse_return_statement rounds c
                  else (if at_token if_token c
                      then parse_if_statement statement_list c
                      else (if at_token while c
                          then parse_while_statement statement_list c
                          else (if at_token syscall c
                              then parse_syscall_statement rounds c
                              else invalid c))))))

-- On rounds: one for each statement in turn and for each level of braces.
unfoldable pub parse_statement_list : ℕ → Compilation → Option Compilation
parse_statement_list zero c = none
parse_statement_list (suc rounds) c =
    let later = λ (d : Compilation). parse_statement_list rounds d in
    if at_token rbrace c || at_token end c
    then some c
    else (parse_statement later rounds c >>= later)
