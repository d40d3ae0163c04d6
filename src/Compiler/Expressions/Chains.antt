-- ===== src/Compiler/Expressions/Chains.antt =====
-- The loop over `+` in cc.cpp: the code of a chain of numbers, and a character that stops it.
use ikan_osv5_student.Prelude.{
  leb, ℕ, zero, suc, ◌≡◌, refl, ap, ◌∙◌, true, false, none, List, [], ◌∷◌, ◌++◌, arith, length,
}
use ikan_osv5_student.Compiler.Lexer.{TokenType, lex, is_plus, is_number, number}
use ikan_osv5_student.Compiler.Lexer.Progress.{upcoming, get_next_token_stays}
use ikan_osv5_student.Compiler.Symbols.{Parser, overrun_if}
use ikan_osv5_student.Compiler.Expressions.{
  max_expr_code, next, add_line, operand_after_plus, parse_additions,
}

-- The parser stands at a `+`, and an invalid character follows.
pub record IsBlocked (p : Parser) : Type 0 where
  pub at_plus : is_plus p.source.token ≡ true
  pub invalid : lex (upcoming p.source) ≡ none

next-IsBlocked : (p : Parser) → IsBlocked p → IsBlocked (next p)
next-IsBlocked p b =
    let (invalid, token, value) = get_next_token_stays p.source b.invalid in
    record { at_plus = ap is_plus token ∙ b.at_plus; invalid = invalid }

plus-no-number : (t : TokenType) → is_plus t ≡ true → is_number t ≡ false
unfolding is_plus is_number
plus-no-number number h = absurd (ground arith)
plus-no-number t h = refl

operand_after_plus-IsBlocked : (p : Parser) → IsBlocked p → IsBlocked (operand_after_plus p)
unfolding operand_after_plus
operand_after_plus-IsBlocked p b =
    let c : IsBlocked (next p) = next-IsBlocked p b in
    let e : is_number (next p).source.token ≡ false =
      plus-no-number (next p).source.token c.at_plus in
    rw (e, operand_after_plus) (record { at_plus = c.at_plus; invalid = c.invalid })

-- With an invalid character behind a `+`, no number of rounds ends the loop of additions.
parse_additions_endless :
    (rounds : ℕ) (code : List ℕ) (p : Parser) → IsBlocked p → parse_additions rounds code p ≡ none
unfolding parse_additions
parse_additions_endless zero code p b = refl
parse_additions_endless (suc rounds) code p b =
    let q : Parser = operand_after_plus p in
    let longer = code ++ add_line q.source.value in
    let marked = overrun_if (leb max_expr_code (length longer)) q in
    let at_q = operand_after_plus-IsBlocked p b in
    let c : IsBlocked (next marked) =
      next-IsBlocked marked (record { at_plus = at_q.at_plus; invalid = at_q.invalid }) in
    rw (b.at_plus, parse_additions) (parse_additions_endless rounds longer (next marked) c)

-- The tokens from a parser on are `+` and a number, some times over.
pub data Chain : Parser → List (List ℕ) → Parser → Type 0 where
  finished : (p : Parser) → is_plus p.source.token ≡ false → Chain p [] p
  plus_number :
      (p q : Parser) (numbers : List (List ℕ))
      → is_plus p.source.token ≡ true
      → is_number (next p).source.token ≡ true
      → Chain (next (next p)) numbers q
      → Chain p ((next p).source.value ∷ numbers) q

-- A line of assembly with `eax` and an operand.
abbrev pub eax_line : List ℕ → List ℕ → List ℕ
eax_line instruction operand =
    b'\t' ∷ (instruction ++ (b' ' ∷ b'e' ∷ b'a' ∷ b'x' ∷ b',' ∷ b' ' ∷ (operand ++ b'\n' ∷ [])))

-- The lines that add the numbers to eax.
unfoldable pub add_lines : List (List ℕ) → List ℕ
add_lines [] = []
add_lines (n ∷ numbers) = eax_line (b'a' ∷ b'd' ∷ b'd' ∷ []) n ++ add_lines numbers

-- The code of a chain.
unfoldable pub chain_code : List ℕ → List (List ℕ) → List ℕ
chain_code first numbers = eax_line (b'm' ∷ b'o' ∷ b'v' ∷ []) first ++ add_lines numbers
