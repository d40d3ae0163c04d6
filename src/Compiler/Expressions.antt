-- ===== src/Compiler/Expressions.antt =====
-- `parseExpressionInfo` of cc.cpp: a number or a variable, and a chain of numbers added to it. The
-- assembly text that it makes is read by al.cpp.
pub mod Chains
pub mod Assembled
use ikan_osv5_student.Prelude.{
  leb, length, ℕ, zero, suc, Bool, true, false, Option, none, some, List, [], ◌∷◌, ◌++◌,
  if◌then◌else◌,
}
use ikan_osv5_student.Libc.Numbers.{itoa}
use ikan_osv5_student.Libc.Strings.{same_text}
use ikan_osv5_student.Compiler.Lexer.{
  get_next_token, is_plus, is_number, identifier, number, expected_number_after_plus,
}
use ikan_osv5_student.Compiler.Symbols.{Parser, report, overrun_if, get_symbol_offset}

pub record ExprInfo : Type 0 where
  pub code : List ℕ
  pub is_immediate : Bool
  pub value : List ℕ
  pub location : List ℕ

-- The function returns; or its loop never ends; or it goes on with variables that it never set.
pub data Parsed : Type 0 where
  parsed : ExprInfo → Parser → Parsed
  endless : Parsed
  unset : Parsed

abbrev pub next : Parser → Parser
next p = record p { source = get_next_token p.source }

-- MAX_EXPR_CODE, and the sizes of `primaryVal` and `primaryLoc`. A variable's place always fits into
-- the last, as does its offset, at most 256, into `offbuf`.
abbrev pub max_expr_code : ℕ
max_expr_code = 200

abbrev pub primary_value_size : ℕ
primary_value_size = 20

abbrev pub primary_location_size : ℕ
primary_location_size = 30

-- Whether the name is one of the data section.
unfoldable pub is_data : List ℕ → List (List ℕ) → Bool
is_data name [] = false
is_data name (d ∷ rest) = let later = is_data name rest in if same_text d name then true else later

-- `[ebp-4]`
abbrev pub stack_location : ℕ → List ℕ
stack_location offset = b'[' ∷ b'e' ∷ b'b' ∷ b'p' ∷ (itoa offset ++ b']' ∷ [])

abbrev pub mov_line : List ℕ → List ℕ
mov_line operand =
    b'\t' ∷ b'm' ∷ b'o' ∷ b'v' ∷ b' ' ∷ b'e' ∷ b'a' ∷ b'x' ∷ b',' ∷ b' ' ∷ (operand ++ b'\n' ∷ [])

abbrev pub add_line : List ℕ → List ℕ
add_line operand =
    b'\t' ∷ b'a' ∷ b'd' ∷ b'd' ∷ b' ' ∷ b'e' ∷ b'a' ∷ b'x' ∷ b',' ∷ b' ' ∷ (operand ++ b'\n' ∷ [])

-- One round of the loop over `+`: the operand's text and the parser behind it.
unfoldable pub operand_after_plus : Parser → Parser
operand_after_plus p =
    let q = next p in if is_number q.source.token then q else report expected_number_after_plus q

-- The loop, on the rounds left.
unfoldable pub parse_additions : ℕ → List ℕ → Parser → Option (List ℕ × Parser)
parse_additions zero code p = none
parse_additions (suc rounds) code p =
    let q = operand_after_plus p in
    let longer = code ++ add_line q.source.value in
    let later =
      parse_additions rounds longer (next (overrun_if (leb max_expr_code (length longer)) q)) in
    if is_plus p.source.token then later else some (code, p)

-- The first operand: whether it is a number, its text, and the parser behind it.
unfoldable pub parse_primary : Parser → Option (Bool × List ℕ × Parser)
parse_primary p =
    let name = p.source.value in
    let (offset, q) = get_symbol_offset name p in
    elim p.source.token as (λ t. Option (Bool × List ℕ × Parser)) [
      | number ↦ some (true, name, next (overrun_if (leb primary_value_size (length name)) p))
      | identifier ↦
          if is_data name p.data_symbols
          then some (false, name, next (overrun_if (leb primary_location_size (length name)) p))
          else some (false, stack_location offset, next q)
      | _ ↦ none
    ]

unfoldable pub chain_result : Option (List ℕ × Parser) → Parsed
chain_result none = endless
chain_result (some (code, p)) =
    parsed
      (record { code = code; is_immediate = false; value = []; location = b'e' ∷ b'a' ∷ b'x' ∷ [] })
      p

unfoldable pub parse_expression_info : ℕ → Parser → Parsed
parse_expression_info rounds p = elim (parse_primary p) [
  | none ↦ unset
  | some (immediate, text, q) ↦
      if is_plus q.source.token
      then chain_result (parse_additions rounds (mov_line text) q)
      else if immediate
      then parsed (record { code = []; is_immediate = true; value = text; location = [] }) q
      else parsed (record { code = []; is_immediate = false; value = []; location = text }) q
]
