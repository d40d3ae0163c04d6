-- ===== src/Tests/Compiling.antt =====
-- Small texts through the parts of cc.cpp.
use ikan_osv5_student.Prelude.{
  ◌≤◌, ℕ, ◌<◌, ◌≡◌, refl, ap, ◌≢◌, true, false, none, some, List, [], ◌∷◌, arith, length, get_or,
}
use ikan_osv5_student.Libc.Numbers.{is_space, is_digit, is_alpha}
use ikan_osv5_student.Libc.Strings.{same_text}
use ikan_osv5_student.Assembler.Lines.{take_until}
use ikan_osv5_student.Compiler.Lexer.{
  TokenType, skip_blanks, skip_comment, comment, skip_space, keyword, symbol, lex_number,
  lex_symbol, lex, get_next_token, is_plus, is_number, number, plus,
}
use ikan_osv5_student.Compiler.Lexer.Progress.{upcoming, get_next_token_progress}
use ikan_osv5_student.Compiler.Symbols.{max_symbols, Parser, symbol_index, get_symbol_offset}
use ikan_osv5_student.Compiler.Symbols.Slots.{IsStack, get_symbol_offset_distinct}
use ikan_osv5_student.Compiler.Expressions.{next}
use ikan_osv5_student.Compiler.Expressions.Chains.{IsBlocked}
use ikan_osv5_student.Compiler.Expressions.Assembled.{is_visible}

-- At a token of a type, with the rest of the text.
abbrev at_token : TokenType → List ℕ → List ℕ → Parser
at_token t value rest = record {
  source = record { rest = rest; line = 1; token = t; value = value; errors = []; overrun = false };
  symbols = [];
  data_symbols = [];
}

-- `7 + 12 + 5;` behind its first token.
abbrev seven : Parser
seven =
    at_token number (b'7' ∷ []) (b' ' ∷ b'+' ∷ b' ' ∷ b'1' ∷ b'2' ∷ b' ' ∷ b'+' ∷ b'5' ∷ b';' ∷ [])

-- `a + @`, behind the `+`
abbrev odd : Parser
odd = at_token plus (b'+' ∷ []) (b' ' ∷ b'@' ∷ [])

abbrev first_plus : Parser
first_plus = next seven

seven_lexes :
    lex (upcoming seven.source)
    ≡ some (plus, b'+' ∷ [], b' ' ∷ b'1' ∷ b'2' ∷ b' ' ∷ b'+' ∷ b'5' ∷ b';' ∷ [])
unfolding get_next_token skip_space skip_blanks skip_comment comment lex lex_number lex_symbol
    symbol keyword same_text take_until is_space is_digit is_alpha is_plus is_number
seven_lexes = refl

seven_left : length (upcoming seven.source) ≢ 0
unfolding get_next_token skip_space skip_blanks skip_comment comment lex lex_number lex_symbol
    symbol keyword same_text take_until is_space is_digit is_alpha is_plus is_number
seven_left e = absurd (omega arith)

get_next_token_progress_example : length (get_next_token seven.source).rest < 9
get_next_token_progress_example =
    get_next_token_progress seven.source
      (plus, b'+' ∷ [], b' ' ∷ b'1' ∷ b'2' ∷ b' ' ∷ b'+' ∷ b'5' ∷ b';' ∷ []) seven_lexes seven_left

odd-IsBlocked : IsBlocked odd
unfolding get_next_token skip_space skip_blanks skip_comment comment lex lex_number lex_symbol
    symbol keyword same_text take_until is_space is_digit is_alpha is_plus is_number
odd-IsBlocked = record { at_plus = refl; invalid = refl }

abbrev a_name : List ℕ
a_name = b'a' ∷ []

abbrev p_name : List ℕ
p_name = b'p' ∷ []

empty-IsStack : IsStack 0 []
unfolding IsStack
empty-IsStack = tt

differ : a_name ≢ p_name
differ e = absurd (omega (arith, ap (λ t. get_or t 0 0) e))

get_symbol_offset_distinct_example :
    ((get_symbol_offset a_name seven).0
      ≢ (get_symbol_offset p_name (get_symbol_offset a_name seven).1).0)
    × IsStack 0 (get_symbol_offset p_name (get_symbol_offset a_name seven).1).1.symbols
    × (length (get_symbol_offset p_name (get_symbol_offset a_name seven).1).1.symbols ≤ max_symbols)
    × ((get_symbol_offset p_name (get_symbol_offset a_name seven).1).1.source ≡ seven.source)
get_symbol_offset_distinct_example =
    get_symbol_offset_distinct a_name p_name seven empty-IsStack (omega arith) differ

p_unknown : symbol_index p_name 0 seven.symbols ≡ none
unfolding symbol_index
p_unknown = refl

twelve_visible : is_visible (b'1' ∷ b'2' ∷ []) ≡ true
unfolding is_visible is_space
twelve_visible = refl
