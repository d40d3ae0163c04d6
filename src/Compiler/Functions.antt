-- ===== src/Compiler/Functions.antt =====
-- Functions and the program of cc.cpp, from `parseFunctionDefinition` to `compileSource`.
pub mod Frames
use ikan_osv5_student.Prelude.{
  Bool, leb, false, replicate, ℕ, zero, suc, ◌+◌, ◌-◌, ◌*◌, ◌&&◌, ◌||◌, not, Option, none, some,
  List, [], ◌∷◌, ◌++◌, ◌==◌, ltb, if◌then◌else◌, length, take, drop,
}
use ikan_osv5_student.Libc.Numbers.{itoa}
use ikan_osv5_student.Compiler.Lexer.{
  Source, int, void, function, lparen, rparen, lbrace, rbrace, identifier, end, expected_identifier,
  too_many_functions, invalid_top_level_declaration,
}
use ikan_osv5_student.Compiler.Symbols.{max_symbols, report}
use ikan_osv5_student.Compiler.Statements.{
  max_asm_output, within_arrays, ◌>>=◌, codes, Compilation, value_of, at_token, with_parser,
  advance, require, require_token, expect_token, emit_assembly,
}
use ikan_osv5_student.Compiler.Control.{define_label, parse_statement_list}

abbrev pub prologue : ℕ → List ℕ
prologue stack_size =
    codes "\tpush ebp\n\tmov ebp, esp\n\tsub esp, " ++ (itoa stack_size ++ codes "\n")

abbrev pub epilogue : List ℕ
epilogue = codes "\tmov esp, ebp\n\tpop ebp\n"

-- The prologue is put before the body, which stands from `body_start` on, once the number of
-- variables is known.
unfoldable pub with_frame : ℕ → Compilation → Compilation
with_frame body_start c =
    let stack_size = length c.parser.symbols * 4 in
    let body = drop body_start c.asm_code in
    let framed : Compilation = record c {
      asm_code = take body_start c.asm_code ++ (prologue stack_size ++ (body ++ epilogue));
    } in
    emit_assembly (codes "\tret\n") (if ltb 0 stack_size then framed else c)

-- From the opening brace of a function on.
unfoldable pub function_body : ℕ → List ℕ → Compilation → Option Compilation
function_body rounds name c =
    let d = expect_token lbrace c in
    let p = d.parser in
    let e = emit_assembly (define_label name) (with_parser (record p { symbols = [] }) d) in
    parse_statement_list rounds e >>= λ f.
    within_arrays (with_frame (length e.asm_code) (expect_token rbrace f))

unfoldable pub parse_function_definition : ℕ → Compilation → Option Compilation
parse_function_definition rounds c =
    let d = require_token identifier expected_identifier (expect_token void c) in
    function_body rounds (value_of d) (expect_token rparen (expect_token lparen (advance d)))

unfoldable pub generate_main_code : ℕ → Compilation → Option Compilation
generate_main_code rounds c =
    let d = expect_token lparen (expect_token function (expect_token int c)) in
    function_body rounds (codes "_start") (expect_token rparen d)

-- An invalid declaration is reported, and the parser stays where it is.
unfoldable pub parse_program : ℕ → Compilation → Option Compilation
parse_program zero c = none
parse_program (suc rounds) c =
    let later = λ (d : Compilation). parse_program rounds d in
    if at_token end c
    then some c
    else ((if at_token void c
          then parse_function_definition rounds c
          else (if at_token int c
              then generate_main_code rounds c
              else some (with_parser (report invalid_top_level_declaration c.parser) c)))
        >>= later)

-- The loop to the next opening brace.
unfoldable pub skip_to_brace : ℕ → Compilation → Option Compilation
skip_to_brace zero c = none
skip_to_brace (suc rounds) c =
    let later = skip_to_brace rounds (advance c) in
    if at_token lbrace c || at_token end c then some c else later

-- The loop to the closing one, with the number of open braces.
unfoldable pub skip_body : ℕ → ℕ → Compilation → Option Compilation
skip_body zero braces c = none
skip_body (suc rounds) braces c =
    let open_braces =
      if at_token lbrace c then braces + 1 else if at_token rbrace c then braces - 1 else braces in
    let later = skip_body rounds open_braces (advance c) in
    if ltb 0 braces && not (at_token end c) then later else some c

unfoldable pub skip_function : ℕ → Compilation → Option Compilation
skip_function rounds c = skip_to_brace rounds c >>= λ d.
    if at_token lbrace d then skip_body rounds 1 (advance d) else some d

abbrev pub add_function : List ℕ → Compilation → Compilation
add_function name c =
    let d = record c {
      defined_functions = c.defined_functions ++ name ∷ [];
      full = leb max_symbols (length c.defined_functions) || c.full;
    } in
    require (ltb (length d.defined_functions) max_symbols) too_many_functions d

-- The first pass: the names of the functions.
unfoldable pub collect_loop : ℕ → Compilation → Option Compilation
collect_loop zero c = none
collect_loop (suc rounds) c =
    let d = advance c in
    let later = λ (e : Compilation). collect_loop rounds e in
    if at_token end c
    then some c
    else (if at_token void c
        then (skip_function rounds
              (if at_token identifier d then add_function (value_of d) d else d)
            >>= later)
        else (if at_token int c
            then (skip_function rounds
                  (if at_token function d then add_function (codes "main") d else d)
                >>= later)
            else later d))

-- The state of the parser is put back; the complaints stay.
unfoldable pub collect_defined_functions : ℕ → Compilation → Option Compilation
collect_defined_functions rounds c = collect_loop rounds (advance c) >>= λ d.
    let p = c.parser in
    let kept : Source = record c.parser.source {
      errors = d.parser.source.errors;
      overrun = d.parser.source.overrun;
    } in
    some (
      with_parser (record p { source = kept })
        (record c { defined_functions = d.defined_functions; full = d.full }))

abbrev pub empty_compilation : List ℕ → Compilation
empty_compilation source_code = record {
  parser = record {
    source = record {
      rest = source_code;
      line = 1;
      token = int;
      value = [];
      errors = [];
      overrun = false;
    };
    symbols = [];
    data_symbols = [];
  };
  asm_code = [];
  data_section = [];
  if_labels = 0;
  while_labels = 0;
  defined_functions = [];
  full = false;
}

abbrev pub text_header : List ℕ
text_header = codes "\nsection .text\n"

-- The code is moved up by the room for both headers and the data. Without data, the first header is
-- not written, so what stood behind the place of the second one stays before the code, and as much
-- is lost at its end.
unfoldable pub output_text : Compilation → List ℕ
output_text c =
    let code = c.asm_code in
    let stale = take 14 (drop 15 (code ++ replicate 29 0)) in
    if length c.data_section == 0
    then take (15 + length code) (text_header ++ (stale ++ code))
    else codes "section .data\n" ++ (c.data_section ++ (text_header ++ code))

-- The code is moved up within its buffer.
abbrev pub has_room : Compilation → Bool
has_room c = leb (29 + length c.data_section + length c.asm_code) max_asm_output

unfoldable pub compile_source : ℕ → List ℕ → Option (List ℕ)
compile_source rounds source_code =
    collect_defined_functions rounds (empty_compilation source_code) >>= λ c.
    parse_program rounds (advance c) >>= λ d.
    within_arrays d >>= λ e. if has_room e then some (output_text e) else none
