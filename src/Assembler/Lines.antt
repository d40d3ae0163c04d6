-- ===== src/Assembler/Lines.antt =====
-- `getNextLine` and `parseLine` of al.cpp.
pub mod Bounds
use ikan_osv5_student.Prelude.{
  ℕ, zero, suc, ◌+◌, ◌-◌, Bool, true, false, ◌&&◌, ◌||◌, List, [], ◌∷◌, Option, none, some, ◌==◌,
  ltb, if◌then◌else◌, length, take, drop,
}
use ikan_osv5_student.Libc.Numbers.{is_space, skip_whitespace}

-- The loop that finds the end of a word: the word, and the text from its end on.
module _ (stops : ℕ → Bool) where
  unfoldable pub take_until : List ℕ → List ℕ × List ℕ
  take_until [] = ([], [])
  take_until (c ∷ rest) =
      let (word, text) = take_until rest in if stops c then ([], c ∷ rest) else (c ∷ word, text)

-- What the buffers hold after `parseLine`.
pub record Line : Type 0 where
  pub instruction : List ℕ
  pub arg1 : List ℕ
  pub arg2 : List ℕ
  pub is_label : Bool
  pub label_name : List ℕ

abbrev pub empty_line : Line
empty_line = record { instruction = []; arg1 = []; arg2 = []; is_label = false; label_name = [] }

-- `if (length > 0 && length < size)` around a copy into an empty buffer.
unfoldable pub bounded : ℕ → List ℕ → List ℕ
bounded size word = if ltb (length word) size then word else []

-- The inside of a quoted argument with its closing quote, and the text behind it.
unfoldable pub take_quoted : List ℕ → List ℕ × List ℕ
take_quoted [] = ([], [])
take_quoted (c ∷ rest) =
    let (inside, text) = take_quoted rest in
    if c == b'\'' then (c ∷ [], rest) else (c ∷ inside, text)

-- An argument, quoted or up to a character at which it stops.
unfoldable pub take_argument : (ℕ → Bool) → List ℕ → List ℕ × List ℕ
take_argument stops [] = ([], [])
take_argument stops (c ∷ rest) =
    let (inside, text) = take_quoted rest in
    if c == b'\'' then (c ∷ inside, text) else take_until stops (c ∷ rest)

-- From the second argument on, with the line read so far.
unfoldable pub parse_second : Line → List ℕ → Line
parse_second line [] = line
parse_second line (c ∷ rest) =
    if c == b','
    then record line { arg2 = bounded 64 (take_argument is_space (skip_whitespace rest)).0 }
    else line

-- From the first argument on.
unfoldable pub parse_arguments : Line → List ℕ → Line
parse_arguments line text =
    let (word, rest) = take_argument (λ c. c == b',' || is_space c) (skip_whitespace text) in
    let found = record line { arg1 = bounded 64 word } in
    if length (bounded 64 word) == 0 then found else parse_second found (skip_whitespace rest)

-- From the instruction on.
unfoldable pub parse_instruction : Line → List ℕ → List ℕ → Line
parse_instruction line word text =
    let found = record line { instruction = bounded 16 word } in
    if length (bounded 16 word) == 0 then found else parse_arguments found text

-- At the colon or the end of the line's first word.
unfoldable pub parse_rest : List ℕ → List ℕ → Line
parse_rest word [] = parse_instruction empty_line word []
parse_rest word (c ∷ rest) =
    let labelled = record empty_line { is_label = true; label_name = bounded 32 word } in
    let (next_word, text) = take_until is_space (skip_whitespace rest) in
    if c == b':'
    then parse_instruction labelled next_word text
    else parse_instruction empty_line word (c ∷ rest)

unfoldable pub parse_line : List ℕ → Line
parse_line line =
    let (word, text) = take_until (λ c. c == b':' || is_space c) (skip_whitespace line) in
    parse_rest word text

abbrev pub max_line : ℕ
max_line = 256

-- `getNextLine`: the line and the rest of the input, `none` for the result 0. The blanks skipped
-- first include line ends.
unfoldable pub next_line_at : List ℕ → Option (List ℕ × List ℕ)
next_line_at [] = none
next_line_at (c ∷ text) =
    let (line, rest) = take_until (λ c. c == b'\n') (c ∷ text) in
    some (take (max_line - 1) line, drop 1 rest)

unfoldable pub get_next_line : List ℕ → Option (List ℕ × List ℕ)
get_next_line input = next_line_at (skip_whitespace input)

-- All the lines that the loop `while (getNextLine(...))` meets, on the rounds left; each takes a
-- character at least.
unfoldable pub source_lines : ℕ → List ℕ → List (List ℕ)
source_lines zero input = []
source_lines (suc rounds) input = elim (get_next_line input) [
  | none ↦ []
  | some (line, rest) ↦ line ∷ source_lines rounds rest
]
