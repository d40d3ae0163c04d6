-- ===== src/Compiler/Expressions/Assembled.antt =====
-- How the assembler al.cpp reads a line that the compiler cc.cpp emits for an addition.
use ikan_osv5_student.Prelude.{
  ℕ, zero, suc, ◌-◌, ◌≤◌, ◌<◌, ◌≡◌, refl, ap, ◌∙◌, Bool, true, false, ◌&&◌, not, some, List, [],
  ◌∷◌, ◌++◌, arith, ◌==◌, ltb, length, take, drop,
}
use ikan_osv5_student.Libc.Numbers.{is_space, skip_whitespace}
use ikan_osv5_student.Assembler.Lines.{
  take_until, Line, bounded, take_argument, parse_second, parse_arguments, parse_instruction,
  parse_rest, parse_line, max_line, next_line_at, get_next_line,
}
use ikan_osv5_student.Compiler.Expressions.{add_line}

-- `add eax` and an operand, as the assembler reads it.
abbrev pub added : List ℕ → Line
added operand = record {
  instruction = b'a' ∷ b'd' ∷ b'd' ∷ [];
  arg1 = b'e' ∷ b'a' ∷ b'x' ∷ [];
  arg2 = operand;
  is_label = false;
  label_name = [];
}

-- A text without blanks.
unfoldable pub is_visible : List ℕ → Bool
is_visible [] = true
is_visible (c ∷ text) = not (is_space c) && is_visible text

take_until_all : (text : List ℕ) → is_visible text ≡ true → take_until is_space text ≡ (text, [])
unfolding take_until is_visible
take_until_all [] h = refl
take_until_all (c ∷ text) h =
    let visible : is_space c ≡ false = ground arith in
    rw (visible, take_until) (ap (λ p. (c ∷ p.0, p.1)) (take_until_all text (ground arith)))

whole_argument :
    (c : ℕ) (text : List ℕ)
    → is_visible (c ∷ text) ≡ true
    → (c == b'\'') ≡ false
    → length (c ∷ text) < 64
    → bounded 64 (take_argument is_space (skip_whitespace (c ∷ text))).0 ≡ c ∷ text
unfolding bounded take_argument skip_whitespace is_visible
whole_argument c text h unquoted short =
    let visible : is_space c ≡ false = ground arith in
    let word : take_until is_space (c ∷ text) ≡ (c ∷ text, []) = take_until_all (c ∷ text) h in
    let fits : ltb (length (c ∷ text)) 64 ≡ true = ground arith in
    rw (visible, skip_whitespace)
      (rw (unquoted, take_argument) (ap (λ p. bounded 64 p.0) word ∙ rw (fits, bounded) refl))

no_line_end : (c : ℕ) → is_space c ≡ false → (c == b'\n') ≡ false
unfolding is_space
no_line_end c h = ground arith

take_line :
    (text rest : List ℕ)
    → is_visible text ≡ true
    → take_until (λ c. c == b'\n') ((text ++ b'\n' ∷ []) ++ rest) ≡ (text, b'\n' ∷ rest)
unfolding take_until is_visible
take_line [] rest h = refl
take_line (c ∷ text) rest h =
    let visible : is_space c ≡ false = ground arith in
    rw (no_line_end c visible, take_until)
      (ap (λ p. (c ∷ p.0, p.1)) (take_line text rest (ground arith)))

take_short : (n : ℕ) (text : List ℕ) → length text ≤ n → take n text ≡ text
take_short zero [] h = refl
take_short zero (c ∷ text) h = absurd (omega arith)
take_short (suc n) [] h = refl
take_short (suc n) (c ∷ text) h = ap (◌∷◌ c) (take_short n text (omega arith))

abbrev pub add_text : List ℕ → List ℕ
add_text operand = b'a' ∷ b'd' ∷ b'd' ∷ b' ' ∷ b'e' ∷ b'a' ∷ b'x' ∷ b',' ∷ b' ' ∷ operand

get_next_line-add_line :
    (operand rest : List ℕ)
    → is_visible operand ≡ true
    → length operand < 64
    → get_next_line (add_line operand ++ rest) ≡ some (add_text operand, rest)
unfolding get_next_line next_line_at skip_whitespace is_space take_until
get_next_line-add_line operand rest h short =
    ap (λ p. some (take (max_line - 1) (add_text p.0), drop 1 p.1)) (take_line operand rest h)
    ∙ ap (λ t. some (add_text t, rest)) (take_short (max_line - 1 - 9) operand (omega arith))

parse_line-add_text :
    (c : ℕ) (text : List ℕ)
    → is_visible (c ∷ text) ≡ true
    → (c == b'\'') ≡ false
    → length (c ∷ text) < 64
    → parse_line (add_text (c ∷ text)) ≡ added (c ∷ text)
unfolding parse_line parse_rest parse_instruction parse_arguments parse_second take_argument
    take_until bounded skip_whitespace is_space
parse_line-add_text c text h unquoted short = ap added (whole_argument c text h unquoted short)

-- The line that the compiler emits for an addition, with an operand of 1 to 63 characters without
-- blanks that does not start with a quote, is one line to the assembler, which reads from it the
-- instruction `add` with the arguments `eax` and the operand.
parse_line-add_line :
    (c : ℕ) (text rest : List ℕ)
    → is_visible (c ∷ text) ≡ true
    → (c == b'\'') ≡ false
    → length (c ∷ text) < 64
    → (line : List ℕ) × (get_next_line (add_line (c ∷ text) ++ rest) ≡ some (line, rest))
      × (parse_line line ≡ added (c ∷ text))
parse_line-add_line c text rest h unquoted short = (
  add_text (c ∷ text),
  get_next_line-add_line (c ∷ text) rest h short,
  parse_line-add_text c text h unquoted short,
)
