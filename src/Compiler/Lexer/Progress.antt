-- ===== src/Compiler/Lexer/Progress.antt =====
-- The lexer of cc.cpp moves on at every token, and stays at a character that is none of its own.
use ikan_osv5_student.Prelude.{
  ◌≢◌, ℕ, zero, suc, ◌+◌, ◌≤◌, ◌<◌, ◌≡◌, refl, ap, ◌∙◌, inl, inr, not, none, some, List, [], ◌∷◌,
  arith, ◌==◌, if◌then◌else◌, length, length-drop, Bool-cases, Option-cases,
}
use ikan_osv5_student.Libc.Numbers.{is_space, is_digit}
use ikan_osv5_student.Assembler.Lines.{take_until}
use ikan_osv5_student.Assembler.Lines.Bounds.{take_until_shorter}
use ikan_osv5_student.Compiler.Lexer.{
  complain, Lexeme, Source, get_next_token, invalid_character, TokenType, skip_blanks, skip_comment,
  comment, skip_space, is_identifier_char, is_hex_digit, lex_number, lex_symbol, lex,
}

skip_blanks_shorter : (text : List ℕ) (n : ℕ) → length (skip_blanks text n).0 ≤ length text
unfolding skip_blanks
skip_blanks_shorter [] n = omega arith
skip_blanks_shorter (c ∷ text) n =
    let m : ℕ = if c == b'\n' then n + 1 else n in ground (arith, skip_blanks_shorter text m)

skip_comment_shorter : (text : List ℕ) (n : ℕ) → length (skip_comment text n).0 ≤ length text
unfolding skip_comment
skip_comment_shorter [] n = omega arith
skip_comment_shorter (c ∷ text) n = ground (arith, skip_comment_shorter text n)

comment_shorter : (text inside : List ℕ) → comment text ≡ some inside → length inside < length text
unfolding comment
comment_shorter [] inside h = absurd (ground arith)
comment_shorter (c ∷ []) inside h = absurd (ground arith)
comment_shorter (c ∷ d ∷ text) inside h = ground arith

-- The text begins with neither a blank nor a comment.
pub record IsSettled (text : List ℕ) : Type 0 where
  pub no_blank : (n : ℕ) → skip_blanks text n ≡ (text, n)
  pub no_comment : comment text ≡ none

skip_blanks_again :
    (text : List ℕ) (n m : ℕ) → skip_blanks (skip_blanks text n).0 m ≡ ((skip_blanks text n).0, m)
unfolding skip_blanks
skip_blanks_again [] n m = refl
skip_blanks_again (c ∷ text) n m =
    let k : ℕ = if c == b'\n' then n + 1 else n in
    elim (Bool-cases (is_space c)) [
      | inl blank ↦ rw (blank, skip_blanks) (skip_blanks_again text k m)
      | inr visible ↦ rw (visible, skip_blanks) (rw (visible, skip_blanks) refl)
    ]

-- What is left after blanks and comments.
abbrev pub skipped : ℕ → List ℕ → ℕ → List ℕ
skipped rounds text n = (skip_space rounds text n).0

skip_space-plain :
    (rounds : ℕ) (text : List ℕ) (n : ℕ)
    → comment (skip_blanks text n).0 ≡ none
    → skip_space (suc rounds) text n ≡ skip_blanks text n
unfolding skip_space
skip_space-plain rounds text n h = rw (h, skip_space) refl

skip_space-comment :
    (rounds : ℕ) (text inside : List ℕ) (n : ℕ)
    → comment (skip_blanks text n).0 ≡ some inside
    → skip_space (suc rounds) text n
      ≡ skip_space rounds
          (skip_comment inside (skip_blanks text n).1).0
          (skip_comment inside (skip_blanks text n).1).1
unfolding skip_space
skip_space-comment rounds text inside n h = rw (h, skip_space) refl

behind_comment :
    (text inside : List ℕ) (n : ℕ)
    → comment (skip_blanks text n).0 ≡ some inside
    → length (skip_comment inside (skip_blanks text n).1).0 < length text
behind_comment text inside n h = omega (
  arith,
  skip_blanks_shorter text n,
  comment_shorter (skip_blanks text n).0 inside h,
  skip_comment_shorter inside (skip_blanks text n).1,
)

skip_space_shorter :
    (rounds : ℕ) (text : List ℕ) (n : ℕ) → length (skipped rounds text n) ≤ length text
unfolding skip_space
skip_space_shorter zero text n = omega arith
skip_space_shorter (suc rounds) text n = elim (Option-cases (comment (skip_blanks text n).0)) [
  | inl plain ↦
      let same : skipped (suc rounds) text n ≡ (skip_blanks text n).0 =
        ap (λ p. p.0) (skip_space-plain rounds text n plain) in
      rw same (skip_blanks_shorter text n)
  | inr (inside, found) ↦
      let second : List ℕ × ℕ = skip_comment inside (skip_blanks text n).1 in
      let same : skipped (suc rounds) text n ≡ skipped rounds second.0 second.1 =
        ap (λ p. p.0) (skip_space-comment rounds text inside n found) in
      rw same (
        omega
          (arith, skip_space_shorter rounds second.0 second.1, behind_comment text inside n found))
]

skip_space-IsSettled :
    (rounds : ℕ) (text : List ℕ) (n : ℕ) → length text < rounds → IsSettled (skipped rounds text n)
skip_space-IsSettled zero text n h = absurd (omega arith)
skip_space-IsSettled (suc rounds) text n h = elim (Option-cases (comment (skip_blanks text n).0)) [
  | inl plain ↦
      let same : skipped (suc rounds) text n ≡ (skip_blanks text n).0 =
        ap (λ p. p.0) (skip_space-plain rounds text n plain) in
      rw same (record { no_blank = skip_blanks_again text n; no_comment = plain })
  | inr (inside, found) ↦
      let second : List ℕ × ℕ = skip_comment inside (skip_blanks text n).1 in
      let same : skipped (suc rounds) text n ≡ skipped rounds second.0 second.1 =
        ap (λ p. p.0) (skip_space-comment rounds text inside n found) in
      rw same (
        skip_space-IsSettled rounds second.0 second.1
          (omega (arith, behind_comment text inside n found)))
]

skip_space-settled :
    (rounds : ℕ) (text : List ℕ) (n : ℕ)
    → IsSettled text
    → skip_space (suc rounds) text n ≡ (text, n)
skip_space-settled rounds text n t =
    skip_space-plain rounds text n (ap (λ p. comment p.0) (t.no_blank n) ∙ t.no_comment)
    ∙ t.no_blank n

lex_number_shorter : (c : ℕ) (text : List ℕ) → length (lex_number c text).2 ≤ length text
unfolding lex_number
lex_number_shorter c [] = omega arith
lex_number_shorter c (x ∷ text) = ground (
  arith,
  take_until_shorter (λ d. not (is_hex_digit d)) text,
  take_until_shorter (λ d. not (is_digit d)) (x ∷ text),
)

lex_symbol_shorter :
    (c : ℕ) (text : List ℕ) (t : TokenType) (value after : List ℕ)
    → lex_symbol c text ≡ some (t, value, after)
    → length after ≤ length text
unfolding lex_symbol
lex_symbol_shorter c [] t value after h = ground arith
lex_symbol_shorter c (d ∷ text) t value after h = ground arith

lex_shorter :
    (c : ℕ) (text : List ℕ) (t : TokenType) (value after : List ℕ)
    → lex (c ∷ text) ≡ some (t, value, after)
    → length after ≤ length text
unfolding lex
lex_shorter c text t value after h =
    let inside : List ℕ × List ℕ = take_until (λ d. d == b'"') text in
    ground (
      arith,
      take_until_shorter (λ d. d == b'"') text,
      length-drop {A = ℕ} 1 inside.1,
      lex_number_shorter c text,
      take_until_shorter (λ d. not (is_identifier_char d)) text,
      lex_symbol_shorter c text t value after,
    )

-- The text at which the next token starts.
abbrev pub upcoming : Source → List ℕ
upcoming s = skipped (suc (length s.rest)) s.rest s.line

get_next_token-some :
    (s : Source) (t : TokenType) (value after : List ℕ)
    → lex (upcoming s) ≡ some (t, value, after)
    → (get_next_token s).rest ≡ after
unfolding get_next_token
get_next_token-some s t value after h = rw (h, get_next_token) refl

get_next_token-none :
    (s : Source)
    → lex (upcoming s) ≡ none
    → get_next_token s
      ≡ complain invalid_character (record s {
        rest = upcoming s;
        line = (skip_space (suc (length s.rest)) s.rest s.line).1;
      })
unfolding get_next_token
get_next_token-none s h = rw (h, get_next_token) refl

-- Where the text ahead is not at its end and starts with a token, reading it leaves a shorter text.
pub get_next_token_progress :
    (s : Source) (lexeme : Lexeme)
    → lex (upcoming s) ≡ some lexeme
    → length (upcoming s) ≢ 0
    → length (get_next_token s).rest < length s.rest
get_next_token_progress s (t, value, after) h left =
    let same : (get_next_token s).rest ≡ after = get_next_token-some s t value after h in
    let shorter : length (upcoming s) ≤ length s.rest =
      skip_space_shorter (suc (length s.rest)) s.rest s.line in
    let behind : length after < length (upcoming s) = go (upcoming s) h left in
    rw same (omega arith)
  where
    go :
        (text : List ℕ)
        → lex text ≡ some (t, value, after)
        → length text ≢ 0
        → length after < length text
    go [] h left = absurd (left refl)
    go (c ∷ text) h left = omega (arith, lex_shorter c text t value after h)

-- At an invalid character the text, the token and its value stay.
pub get_next_token_stays :
    (s : Source)
    → lex (upcoming s) ≡ none
    → (lex (upcoming (get_next_token s)) ≡ none)
      × ((get_next_token s).token ≡ s.token)
      × ((get_next_token s).value ≡ s.value)
get_next_token_stays s h =
    let first : Source =
      complain invalid_character (record s {
        rest = upcoming s;
        line = (skip_space (suc (length s.rest)) s.rest s.line).1;
      }) in
    let settled : skip_space (suc (length first.rest)) first.rest first.line
        ≡ (first.rest, first.line) =
      skip_space-settled (length first.rest) first.rest first.line
        (skip_space-IsSettled (suc (length s.rest)) s.rest s.line (omega arith)) in
    let again : lex (upcoming first) ≡ none = ap (λ p. lex p.0) settled ∙ h in
    (
      ap (λ t. lex (upcoming t)) (get_next_token-none s h) ∙ again,
      ap (λ t. t.token) (get_next_token-none s h),
      ap (λ t. t.value) (get_next_token-none s h),
    )
