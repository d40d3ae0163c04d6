-- ===== src/Tests/Programs.antt =====
-- Programs for the compiler.
use ikan_osv5_student.Prelude.{ℕ, ◌≡◌, refl, Option, none, some, List, [], ◌++◌}
use ikan_osv5_student.Libc.Numbers.{fill_digits, itoa, is_space, is_digit, is_alpha}
use ikan_osv5_student.Libc.Strings.{same_text}
use ikan_osv5_student.Assembler.Lines.{take_until}
use ikan_osv5_student.Compiler.Lexer.{
  skip_blanks, comment, skip_space, keyword, symbol, lex_number, lex_symbol, lex, get_next_token,
  is_plus, is_number, semicolon,
}
use ikan_osv5_student.Compiler.Symbols.{add_symbol, symbol_index, get_symbol_offset}
use ikan_osv5_student.Compiler.Expressions.{
  is_data, operand_after_plus, parse_additions, parse_primary, chain_result, parse_expression_info,
}
use ikan_osv5_student.Compiler.Statements.{
  within_arrays, codes, Compilation, token_index, token_of, at_token, advance, require,
  expression_of, operand, assign_from, parse_assignment,
}
use ikan_osv5_student.Compiler.Control.{peek_next_non_space, parse_statement, parse_statement_list}
use ikan_osv5_student.Compiler.Control.Rounds.{parse_statement_list_endless}
use ikan_osv5_student.Compiler.Functions.{
  with_frame, function_body, parse_function_definition, parse_program, skip_to_brace, skip_body,
  skip_function, collect_loop, collect_defined_functions, empty_compilation, output_text,
  compile_source,
}

-- A function's body with its braces.
abbrev at_brace : List ℕ → Compilation
at_brace source_code = advance (empty_compilation source_code)

abbrev body : Compilation
body = at_brace (codes "{a=5+2;}")

abbrev state_of : Compilation → Option Compilation → Compilation
state_of c none = c
state_of c (some d) = d

body_code :
    (state_of body (function_body 3 (codes "f") body)).asm_code
    ≡ codes "f:\n\tpush ebp\n\tmov ebp, esp\n\tsub esp, 4\n\tmov eax, 5\n\tadd eax, 2\n"
      ++ codes "\tmov eax, eax\n\tmov [ebp-4], eax\n\tmov esp, ebp\n\tpop ebp\n\tret\n"
unfolding within_arrays function_body parse_statement_list at_token token_index get_next_token lex
    skip_space comment skip_blanks require is_space is_digit is_alpha lex_symbol symbol keyword
    same_text take_until parse_statement peek_next_non_space chain_result is_data operand_after_plus
    parse_additions parse_expression_info parse_primary with_frame is_number is_plus lex_number
    assign_from expression_of operand parse_assignment add_symbol get_symbol_offset symbol_index
    fill_digits itoa
body_code = refl

abbrev body_end : Compilation
body_end = state_of body (function_body 3 (codes "f") body)

abbrev statement : Compilation
statement = at_brace (codes ";")

at_statement : token_of statement ≡ semicolon
unfolding get_next_token lex skip_space comment skip_blanks is_space is_digit is_alpha lex_symbol
    symbol
at_statement = refl

parse_statement_list_endless_example : parse_statement_list 8 statement ≡ none
parse_statement_list_endless_example = parse_statement_list_endless 8 statement at_statement

abbrev compiled : List ℕ
compiled = elim (compile_source 12 (codes "void f(){a=5+2;}")) [ none ↦ [] | some text ↦ text ]

compile_there : compile_source 12 (codes "void f(){a=5+2;}") ≡ some compiled
unfolding within_arrays function_body parse_statement_list at_token token_index get_next_token lex
    skip_space comment skip_blanks require is_space is_digit is_alpha lex_symbol symbol keyword
    same_text take_until parse_statement peek_next_non_space chain_result is_data operand_after_plus
    parse_additions parse_expression_info parse_primary with_frame is_number is_plus lex_number
    assign_from expression_of operand parse_assignment add_symbol get_symbol_offset symbol_index
    fill_digits itoa compile_source collect_defined_functions collect_loop skip_function
    skip_to_brace skip_body parse_program parse_function_definition output_text
compile_there = refl
