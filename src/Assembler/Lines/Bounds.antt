-- ===== src/Assembler/Lines/Bounds.antt =====
-- The lines that al.cpp reads and what it takes from them fit the buffers, and the reading ends.
use ikan_osv5_student.Prelude.{
  ℕ, zero, suc, ◌<◌, ◌≤◌, ◌≡◌, Bool, true, List, [], ◌∷◌, some, ◌==◌, ◌||◌, Bool-cases, length,
  length-drop, arith, refl, Option-cases, inl, inr, ap, sym,
}
use ikan_osv5_student.Libc.Numbers.{is_space, skip_whitespace}
use ikan_osv5_student.Assembler.Lines.{
  take_until, Line, empty_line, bounded, take_argument, parse_second, parse_arguments,
  parse_instruction, parse_rest, parse_line, next_line_at, get_next_line, source_lines,
}

-- The sizes of the buffers, each with its final zero.
pub record FitsBuffers (line : Line) : Type 0 where
  pub instruction : length line.instruction < 16
  pub arg1 : length line.arg1 < 64
  pub arg2 : length line.arg2 < 64
  pub label_name : length line.label_name < 32

bounded-lt : (size : ℕ) (word : List ℕ) → 0 < size → length (bounded size word) < size
unfolding bounded
bounded-lt size word h = ground arith

parse_second-FitsBuffers :
    (line : Line) (text : List ℕ) → FitsBuffers line → FitsBuffers (parse_second line text)
unfolding parse_second
parse_second-FitsBuffers line [] f = f
parse_second-FitsBuffers line (c ∷ rest) f = elim (Bool-cases (c == b',')) [
  | inl hit ↦
      rw (hit, parse_second)
        (record {
          instruction = f.instruction;
          arg1 = f.arg1;
          arg2 = bounded-lt 64 (take_argument is_space (skip_whitespace rest)).0 (omega arith);
          label_name = f.label_name;
        })
  | inr miss ↦ rw (miss, parse_second) f
]

parse_arguments-FitsBuffers :
    (line : Line) (text : List ℕ) → FitsBuffers line → FitsBuffers (parse_arguments line text)
unfolding parse_arguments
parse_arguments-FitsBuffers line text f =
    let (word, rest) = take_argument (λ c. c == b',' || is_space c) (skip_whitespace text) in
    let found : Line = record line { arg1 = bounded 64 word } in
    let fits : FitsBuffers found = record {
      instruction = f.instruction;
      arg1 = bounded-lt 64 word (omega arith);
      arg2 = f.arg2;
      label_name = f.label_name;
    } in
    elim (Bool-cases (length (bounded 64 word) == 0)) [
      | inl hit ↦ rw hit fits
      | inr miss ↦ rw miss (parse_second-FitsBuffers found (skip_whitespace rest) fits)
    ]

parse_instruction-FitsBuffers :
    (line : Line) (word text : List ℕ)
    → FitsBuffers line
    → FitsBuffers (parse_instruction line word text)
unfolding parse_instruction
parse_instruction-FitsBuffers line word text f =
    let found : Line = record line { instruction = bounded 16 word } in
    let fits : FitsBuffers found = record {
      instruction = bounded-lt 16 word (omega arith);
      arg1 = f.arg1;
      arg2 = f.arg2;
      label_name = f.label_name;
    } in
    elim (Bool-cases (length (bounded 16 word) == 0)) [
      | inl hit ↦ rw hit fits
      | inr miss ↦ rw miss (parse_arguments-FitsBuffers found text fits)
    ]

empty_line-FitsBuffers : FitsBuffers empty_line
empty_line-FitsBuffers = record {
  instruction = omega arith;
  arg1 = omega arith;
  arg2 = omega arith;
  label_name = omega arith;
}

parse_rest-FitsBuffers : (word text : List ℕ) → FitsBuffers (parse_rest word text)
unfolding parse_rest
parse_rest-FitsBuffers word [] =
    parse_instruction-FitsBuffers empty_line word [] empty_line-FitsBuffers
parse_rest-FitsBuffers word (c ∷ rest) =
    let labelled : Line = record empty_line { is_label = true; label_name = bounded 32 word } in
    let fits : FitsBuffers labelled = record {
      instruction = omega arith;
      arg1 = omega arith;
      arg2 = omega arith;
      label_name = bounded-lt 32 word (omega arith);
    } in
    let (next_word, text) = take_until is_space (skip_whitespace rest) in
    elim (Bool-cases (c == b':')) [
      | inl hit ↦ rw hit (parse_instruction-FitsBuffers labelled next_word text fits)
      | inr miss ↦
          rw miss (parse_instruction-FitsBuffers empty_line word (c ∷ rest) empty_line-FitsBuffers)
    ]

-- Whatever the line, what `parseLine` takes from it fits the buffers for the instruction, both
-- arguments and the label, with their final zeros.
parse_line-FitsBuffers : (text : List ℕ) → FitsBuffers (parse_line text)
unfolding parse_line
parse_line-FitsBuffers text =
    let (word, rest) = take_until (λ c. c == b':' || is_space c) (skip_whitespace text) in
    parse_rest-FitsBuffers word rest

skip_whitespace_shorter : (text : List ℕ) → length (skip_whitespace text) ≤ length text
unfolding skip_whitespace
skip_whitespace_shorter [] = omega arith
skip_whitespace_shorter (c ∷ text) = ground (arith, skip_whitespace_shorter text)

pub take_until_shorter :
    (stops : ℕ → Bool) (text : List ℕ) → length (take_until stops text).1 ≤ length text
unfolding take_until
take_until_shorter stops [] = omega arith
take_until_shorter stops (c ∷ text) = ground (arith, take_until_shorter stops text)

next_line_at_shorter :
    (text : List ℕ) (line rest : List ℕ)
    → next_line_at text ≡ some (line, rest)
    → length rest < length text
unfolding next_line_at
next_line_at_shorter [] line rest h = absurd (ground arith)
next_line_at_shorter (c ∷ text) line rest h =
    let found : List ℕ × List ℕ = take_until (λ c. c == b'\n') (c ∷ text) in
    ground (arith, length-drop {A = ℕ} 1 found.1, take_until_shorter (λ c. c == b'\n') (c ∷ text))

source_lines_empty : (rounds : ℕ) → source_lines rounds [] ≡ []
unfolding source_lines get_next_line next_line_at skip_whitespace
source_lines_empty zero = refl
source_lines_empty (suc rounds) = refl

-- Reading lines ends: any two numbers of rounds that are at least the length of the input give the
-- same lines.
source_lines_enough :
    (rounds more : ℕ) (input : List ℕ)
    → length input ≤ rounds
    → length input ≤ more
    → source_lines rounds input ≡ source_lines more input
unfolding source_lines get_next_line
source_lines_enough zero more [] h k = sym (source_lines_empty more)
source_lines_enough zero more (c ∷ input) h k = absurd (omega arith)
source_lines_enough (suc rounds) zero [] h k = source_lines_empty (suc rounds)
source_lines_enough (suc rounds) zero (c ∷ input) h k = absurd (omega arith)
source_lines_enough (suc rounds) (suc more) input h k =
    elim (Option-cases (next_line_at (skip_whitespace input))) [
      | inl ended ↦ ground arith
      | inr ((line, rest), found) ↦
          let shorter : length rest < length input = omega (
            arith,
            next_line_at_shorter (skip_whitespace input) line rest found,
            skip_whitespace_shorter input,
          ) in
          rw (found, source_lines)
            (ap (◌∷◌ line) (source_lines_enough rounds more rest (omega arith) (omega arith)))
    ]
