-- ===== src/Compiler/Lexer.antt =====
-- `getNextToken` of cc.cpp. The input is the text from `sourcePosition` on, up to the final zero.
pub mod Progress
use ikan_osv5_student.Prelude.{
  ℕ, zero, suc, ◌+◌, Bool, true, false, ◌&&◌, ◌||◌, not, Option, none, some, List, [], ◌∷◌, ◌==◌,
  leb, if◌then◌else◌, length, drop,
}
use ikan_osv5_student.Libc.Numbers.{is_space, is_digit, is_alpha}
use ikan_osv5_student.Libc.Strings.{same_text}
use ikan_osv5_student.Assembler.Lines.{take_until}

pub data TokenType : Type 0 where
  int int_pointer void function lparen rparen lbrace rbrace identifier number equals return
        semicolon :
      TokenType
  end if_token else_token not_equal comma syscall while plus less star char string_literal :
      TokenType

-- What is printed, with the line's number.
pub data Message : Type 0 where
  invalid_character unexpected_token expected_number_after_plus expected_operand undefined_symbol :
      Message
  too_many_variables expected_identifier expected_identifier_after_star : Message
  expected_identifier_for_call string_literals_only_for_char : Message
  expected_number cannot_dereference_non_pointer expected_not_equal expected_less : Message
  too_many_functions invalid_statement invalid_top_level_declaration : Message

-- The state of the lexer. `overrun` says that something was written behind the end of an array of
-- the compiler; what the rest of the state is then, the source does not say.
pub record Source : Type 0 where
  pub rest : List ℕ
  pub line : ℕ
  pub token : TokenType
  pub value : List ℕ
  pub errors : List (ℕ × Message)
  pub overrun : Bool

abbrev pub complain : Message → Source → Source
complain m s = record s { errors = (s.line, m) ∷ s.errors }

-- The loop over blanks, with the number of the line.
unfoldable pub skip_blanks : List ℕ → ℕ → List ℕ × ℕ
skip_blanks [] line = ([], line)
skip_blanks (c ∷ text) line =
    let later = skip_blanks text (if c == b'\n' then line + 1 else line) in
    if is_space c then later else (c ∷ text, line)

-- The rest of a comment.
unfoldable pub skip_comment : List ℕ → ℕ → List ℕ × ℕ
skip_comment [] line = ([], line)
skip_comment (c ∷ text) line =
    let later = skip_comment text line in if c == b'\n' then (text, line + 1) else later

-- The text behind `//`.
unfoldable pub comment : List ℕ → Option (List ℕ)
comment (c ∷ d ∷ text) = if c == b'/' && d == b'/' then some text else none
comment text = none

-- The outer loop, on the rounds left.
unfoldable pub skip_space : ℕ → List ℕ → ℕ → List ℕ × ℕ
skip_space zero text line = (text, line)
skip_space (suc rounds) text line =
    let (rest, n) = skip_blanks text line in
    elim (comment rest) [
      | none ↦ (rest, n)
      | some inside ↦ let (after, m) = skip_comment inside n in skip_space rounds after m
    ]

abbrev pub is_identifier_char : ℕ → Bool
is_identifier_char c = (is_alpha c || is_digit c) || c == b'_'

abbrev pub is_hex_digit : ℕ → Bool
is_hex_digit c = is_digit c || ((leb b'a' c && leb c b'f') || (leb b'A' c && leb c b'F'))

-- The chain of `isKeywordMatch`.
unfoldable pub keyword : List ℕ → TokenType
keyword word =
    if same_text word (b'i' ∷ b'n' ∷ b't' ∷ [])
    then int
    else if same_text word (b'c' ∷ b'h' ∷ b'a' ∷ b'r' ∷ [])
    then char
    else if same_text word (b'v' ∷ b'o' ∷ b'i' ∷ b'd' ∷ [])
    then void
    else if same_text word (b'm' ∷ b'a' ∷ b'i' ∷ b'n' ∷ [])
    then function
    else if same_text word (b'r' ∷ b'e' ∷ b't' ∷ b'u' ∷ b'r' ∷ b'n' ∷ [])
    then return
    else if same_text word (b'i' ∷ b'f' ∷ [])
    then if_token
    else if same_text word (b'e' ∷ b'l' ∷ b's' ∷ b'e' ∷ [])
    then else_token
    else if same_text word (b's' ∷ b'y' ∷ b's' ∷ b'c' ∷ b'a' ∷ b'l' ∷ b'l' ∷ [])
    then syscall
    else if same_text word (b'w' ∷ b'h' ∷ b'i' ∷ b'l' ∷ b'e' ∷ [])
    then while
    else identifier

-- The symbols of one character.
unfoldable pub symbol : ℕ → Option TokenType
symbol c =
    if c == b'('
    then some lparen
    else if c == b')'
    then some rparen
    else if c == b'{'
    then some lbrace
    else if c == b'}'
    then some rbrace
    else if c == b';'
    then some semicolon
    else if c == b'='
    then some equals
    else if c == b','
    then some comma
    else if c == b'+'
    then some plus
    else if c == b'<'
    then some less
    else if c == b'*'
    then some star
    else none

abbrev pub Lexeme : Type 0
Lexeme = TokenType × List ℕ × List ℕ

-- A number, decimal or with `0x`.
unfoldable pub lex_number : ℕ → List ℕ → Lexeme
lex_number c [] = (number, c ∷ [], [])
lex_number c (x ∷ text) =
    let (hex, after_hex) = take_until (λ d. not (is_hex_digit d)) text in
    let (digits, after) = take_until (λ d. not (is_digit d)) (x ∷ text) in
    if c == b'0' && (x == b'x' || x == b'X')
    then (number, c ∷ x ∷ hex, after_hex)
    else (number, c ∷ digits, after)

unfoldable pub lex_symbol : ℕ → List ℕ → Option Lexeme
lex_symbol c text = elim (symbol c) [
  | some t ↦ some (t, c ∷ [], text)
  | none ↦ lex_not_equal c text
]
  where
    lex_not_equal : ℕ → List ℕ → Option Lexeme
    lex_not_equal c [] = none
    lex_not_equal c (d ∷ text) =
        if c == b'!' && d == b'=' then some (not_equal, c ∷ d ∷ [], text) else none

-- The token at the start of a text that begins with no blank: its type, its value and the text
-- behind it; `none` for an invalid character.
unfoldable pub lex : List ℕ → Option Lexeme
lex [] = some (end, [], [])
lex (c ∷ text) =
    let (inside, after) = take_until (λ d. d == b'"') text in
    let (word, behind) = take_until (λ d. not (is_identifier_char d)) text in
    if c == b'"'
    then some (string_literal, inside, drop 1 after)
    else if is_digit c
    then some (lex_number c text)
    else if is_alpha c
    then some (keyword (c ∷ word), c ∷ word, behind)
    else lex_symbol c text

-- MAX_TOKEN_VALUE, the room for a token and its final zero
abbrev pub max_token_value : ℕ
max_token_value = 50

unfoldable pub get_next_token : Source → Source
get_next_token s =
    let (text, n) = skip_space (suc (length s.rest)) s.rest s.line in
    elim (lex text) [
      | none ↦ complain invalid_character (record s { rest = text; line = n })
      | some (t, value, after) ↦ record s {
        rest = after;
        line = n;
        token = t;
        value = value;
        overrun = leb max_token_value (length value) || s.overrun;
      }
    ]

unfoldable pub is_plus : TokenType → Bool
is_plus plus = true
is_plus t = false

unfoldable pub is_number : TokenType → Bool
is_number number = true
is_number t = false
