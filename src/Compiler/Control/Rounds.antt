-- ===== src/Compiler/Control/Rounds.antt =====
-- Lists of statements of cc.cpp and the rounds of their loop.
use ikan_osv5_student.Prelude.{ℕ, zero, suc, ◌≡◌, refl, ap, none, ◌==◌}
use ikan_osv5_student.Compiler.Lexer.{
  TokenType, int, rbrace, identifier, return, semicolon, end, if_token, syscall, while, star, char,
  invalid_statement,
}
use ikan_osv5_student.Compiler.Symbols.{report}
use ikan_osv5_student.Compiler.Statements.{
  Compilation, token_index, token_of, at_token, with_parser,
}
use ikan_osv5_student.Compiler.Control.{parse_statement, parse_statement_list}

at_semicolon :
    (t : TokenType) (c : Compilation)
    → token_of c ≡ semicolon
    → at_token t c ≡ (token_index semicolon == token_index t)
unfolding at_token
at_semicolon t c h = ap (λ u. token_index u == token_index t) h

-- With a semicolon where a statement is expected, no number of rounds ends the loop over the
-- statements.
pub parse_statement_list_endless :
    (rounds : ℕ) (c : Compilation) → token_of c ≡ semicolon → parse_statement_list rounds c ≡ none
unfolding parse_statement_list parse_statement token_index
parse_statement_list_endless zero c h = refl
parse_statement_list_endless (suc rounds) c h =
    let at = λ (t : TokenType). at_semicolon t c h in
    rw
      (
        at rbrace,
        at end,
        at int,
        at char,
        at identifier,
        at star,
        at return,
        at if_token,
        at while,
        at syscall,
      )
      (parse_statement_list_endless rounds (with_parser (report invalid_statement c.parser) c) h)
