-- ===== src/Compiler/Statements.antt =====
-- The statements of cc.cpp without a body, from `parseDeclaration` to `parseSyscallStatement`. A text
-- that is emitted is appended to the code or to the data section. A statement is none where a loop does
-- not end in the rounds given, where a variable of the compiler is used that was never set, or where a
-- call has more than the five arguments that there is room for.
pub mod Slots
pub mod Growth
use Prim.Native.Char.{code}
use Prim.Native.String.{String}
use ikan_osv5_student.Prelude.{
  ◌||◌, leb, length, ℕ, Bool, not, Option, none, some, List, [], ◌∷◌, ◌++◌, ◌==◌, if◌then◌else◌,
}
use ikan_osv5_student.Compiler.Lexer.{
  TokenType, Message, int, int_pointer, void, function, lparen, rparen, lbrace, rbrace, identifier,
  number, equals, return, semicolon, end, if_token, else_token, not_equal, comma, syscall, while,
  plus, less, star, char, string_literal, unexpected_token, expected_identifier,
  string_literals_only_for_char, expected_number, cannot_dereference_non_pointer,
  expected_identifier_after_star,
}
use ikan_osv5_student.Compiler.Symbols.{
  max_symbols, overrun_if, Parser, report, add_symbol, get_symbol_type, get_symbol_offset,
}
use ikan_osv5_student.Compiler.Expressions.{
  ExprInfo, Parsed, next, stack_location, parse_expression_info, parsed, endless, unset,
}

abbrev pub codes : String → List ℕ
codes String.[] = []
codes (String.◌∷◌ c s) = code c ∷ codes s

-- What a compilation changes. `full` says that more was written to one of the two output buffers or
-- to `definedFunctionNames` than it holds. `labelCount` is a static variable of two functions.
pub record Compilation : Type 0 where
  pub parser : Parser
  pub asm_code : List ℕ
  pub data_section : List ℕ
  pub if_labels : ℕ
  pub while_labels : ℕ
  pub defined_functions : List (List ℕ)
  pub full : Bool

infixl 5 ◌>>=◌
abbrev pub ◌>>=◌ : {A B : Type 0} → Option A → (A → Option B) → Option B
none >>= next = none
some a >>= next = next a

-- The position in `enum TokenType`.
unfoldable pub token_index : TokenType → ℕ
token_index int = 0
token_index int_pointer = 1
token_index void = 2
token_index function = 3
token_index lparen = 4
token_index rparen = 5
token_index lbrace = 6
token_index rbrace = 7
token_index identifier = 8
token_index number = 9
token_index equals = 10
token_index return = 11
token_index semicolon = 12
token_index end = 13
token_index if_token = 14
token_index else_token = 15
token_index not_equal = 16
token_index comma = 17
token_index syscall = 18
token_index while = 19
token_index plus = 20
token_index less = 21
token_index star = 22
token_index char = 23
token_index string_literal = 24

abbrev pub token_of : Compilation → TokenType
token_of c = c.parser.source.token

abbrev pub value_of : Compilation → List ℕ
value_of c = c.parser.source.value

unfoldable pub at_token : TokenType → Compilation → Bool
at_token t c = token_index (token_of c) == token_index t

abbrev pub with_parser : Parser → Compilation → Compilation
with_parser p c = record c { parser = p }

abbrev pub advance : Compilation → Compilation
advance c = with_parser (next c.parser) c

-- A complaint after which the parser goes on.
unfoldable pub require : Bool → Message → Compilation → Compilation
require ok message c = if ok then c else with_parser (report message c.parser) c

abbrev pub require_token : TokenType → Message → Compilation → Compilation
require_token t message c = require (at_token t c) message c

abbrev pub expect_token : TokenType → Compilation → Compilation
expect_token t c = advance (require_token t unexpected_token c)

-- MAX_ASM_OUTPUT, the room for a text and its final zero
abbrev pub max_asm_output : ℕ
max_asm_output = 0x1000

abbrev pub emit_assembly : List ℕ → Compilation → Compilation
emit_assembly text c =
    let asm_code = c.asm_code ++ text in
    record c { asm_code = asm_code; full = leb max_asm_output (length asm_code) || c.full }

abbrev pub emit_data : List ℕ → Compilation → Compilation
emit_data text c =
    let data_section = c.data_section ++ text in
    record c {
      data_section = data_section;
      full = leb max_asm_output (length data_section) || c.full;
    }

-- The state, where nothing was written behind the end of an array.
unfoldable pub within_arrays : Compilation → Option Compilation
within_arrays c = if c.full || c.parser.source.overrun then none else some c

-- An expression, in as many rounds.
unfoldable pub expression_of : Parsed → Compilation → Option (ExprInfo × Compilation)
expression_of (parsed info p) c = some (info, with_parser p c)
expression_of endless c = none
expression_of unset c = none

abbrev pub expression : ℕ → Compilation → Option (ExprInfo × Compilation)
expression rounds c = expression_of (parse_expression_info rounds c.parser) c

unfoldable pub operand : ExprInfo → List ℕ
operand info = if info.is_immediate then info.value else info.location

-- The code of an expression, and its value moved to a register.
abbrev pub load : String → ExprInfo → List ℕ
load register info =
    info.code
    ++ (codes "\tmov " ++ (codes register ++ (codes ", " ++ (operand info ++ codes "\n"))))

-- The place of a variable, and the parser that knows it.
abbrev pub location : List ℕ → Compilation → List ℕ × Compilation
location name c =
    let (offset, p) = get_symbol_offset name c.parser in (stack_location offset, with_parser p c)

abbrev pub store_line : List ℕ → List ℕ
store_line place = codes "\tmov " ++ (place ++ codes ", eax\n")

-- The number and the two arguments of a system call, from the parenthesis to the interrupt.
unfoldable pub syscall_call : ℕ → Compilation → Option Compilation
syscall_call rounds c = do
  let d = require_token number expected_number (expect_token lparen c)
  let e = advance (emit_assembly (codes "\tmov eax, " ++ (value_of d ++ codes "\n")) d)
  (info1, f) ← expression rounds (expect_token comma e)
  (info2, g) ← expression rounds (expect_token comma (emit_assembly (load "ebx" info1) f))
  let code = load "ecx" info2 ++ codes "\tpusha\n\tint 0x80\n\tpopa\n"
  some (emit_assembly code g)

-- The right side of an assignment to a variable.
unfoldable pub assign_from : ℕ → List ℕ → Compilation → Option Compilation
assign_from rounds name c =
    if at_token syscall c
    then (do
      d ← syscall_call rounds (advance c)
      let (place, e) = location name d
      some (expect_token rparen (emit_assembly (store_line place) e)))
    else (do
      (info, d) ← expression rounds c
      let (place, e) = location name d
      some (emit_assembly (load "eax" info ++ store_line place) e))

abbrev pub declare : List ℕ → TokenType → Compilation → Compilation
declare name kind c = expect_token semicolon (with_parser (add_symbol name kind c.parser) c)

abbrev pub declare_text : List ℕ → TokenType → Compilation → Compilation
declare_text name kind c =
    let d = require (token_index kind == token_index char) string_literals_only_for_char c in
    let p = d.parser in
    let q = overrun_if (leb max_symbols (length p.data_symbols)) p in
    let e = with_parser (record q { data_symbols = p.data_symbols ++ name ∷ [] }) d in
    let text = name ++ (codes ":\n    db '" ++ (value_of d ++ codes "'\n\n")) in
    expect_token semicolon (advance (emit_data text e))

-- A declaration of a variable of the type, from the name on.
unfoldable pub declare_variable : ℕ → TokenType → Compilation → Option Compilation
declare_variable rounds kind c =
    let d = require_token identifier expected_identifier c in
    let name = value_of d in
    let e = advance d in
    let f = advance e in
    if not (at_token equals e)
    then some (declare name kind e)
    else (if at_token string_literal f
        then some (declare_text name kind f)
        else (do g ← assign_from rounds name f; some (declare name kind g)))

unfoldable pub parse_declaration : ℕ → Compilation → Option Compilation
parse_declaration rounds c =
    let d = advance c in
    if at_token int c
    then (if at_token star d
        then declare_variable rounds int_pointer (advance d)
        else declare_variable rounds int d)
    else (if at_token char c
        then declare_variable rounds char (if at_token star d then advance d else d)
        else none)

unfoldable pub parse_assignment : ℕ → Compilation → Option Compilation
parse_assignment rounds c = do
  let d = require_token identifier expected_identifier c
  e ← assign_from rounds (value_of d) (expect_token equals (advance d))
  some (expect_token semicolon e)

abbrev pub store_through : List ℕ → List ℕ
store_through place = codes "\tmov eax, " ++ (place ++ codes "\n\tmov [eax], ebx\n")

-- `*name = ...`
unfoldable pub parse_deref_assignment : ℕ → Compilation → Option Compilation
parse_deref_assignment rounds c = do
  let d = require_token identifier expected_identifier_after_star (expect_token star c)
  let name = value_of d
  let (kind, p) = get_symbol_type name d.parser
  let e =
      require (token_index kind == token_index int_pointer) cannot_dereference_non_pointer
        (with_parser p d)
  let (place, f) = location name e
  let g = expect_token equals (advance f)
  h ←
      (if at_token syscall g
        then (do
          i ← syscall_call rounds (advance g)
          some (
              expect_token rparen
                (emit_assembly (codes "\tmov ebx, eax\n" ++ store_through place) i)))
        else (do
          (info, i) ← expression rounds g
          some (emit_assembly (load "ebx" info ++ store_through place) i)))
  some (expect_token semicolon h)

unfoldable pub parse_return_statement : ℕ → Compilation → Option Compilation
parse_return_statement rounds c = do
  (info, d) ← expression rounds (expect_token return c)
  let code = load "ebx" info ++ codes "\tmov eax, 1\n\tint 0x80\n"
  some (expect_token semicolon (emit_assembly code d))

unfoldable pub parse_syscall_statement : ℕ → Compilation → Option Compilation
parse_syscall_statement rounds c = do
  d ← syscall_call rounds (expect_token syscall c)
  some (expect_token semicolon (expect_token rparen d))
