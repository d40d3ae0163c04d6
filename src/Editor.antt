-- ===== src/Editor.antt =====
-- The line editor, edlin.cpp: what its operations do to the text in memory. A row of `textBuffer`
-- is the text before its final zero; the lines that the user types are an argument, the ones still
-- to be typed a result.
pub mod Keyboard
pub mod Commands
pub mod Rows
pub mod Text
pub mod Bounds
pub mod Files
pub mod Invariant
pub mod Inside
pub mod Sessions
use ikan_osv5_student.Prelude.{
  ℕ, zero, suc, ◌+◌, ◌-◌, ◌%◌, ◌^◌, ◌||◌, List, [], ◌∷◌, ◌++◌, ◌==◌, ltb, leb, if◌then◌else◌,
  length, get_or, set, take, replicate,
}
use ikan_osv5_student.Libc.Numbers.{ceiling}
use ikan_osv5_student.Libc.Strings.{same_text}

-- MAX_LINES, MAX_LINE_LENGTH, MAX_DISPLAY_LINES
abbrev pub max_lines : ℕ
max_lines = 250

abbrev pub max_line_length : ℕ
max_line_length = 65

abbrev pub max_display_lines : ℕ
max_display_lines = 35

pub record Editor : Type 0 where
  pub text_buffer : List (List ℕ)
  pub total_lines : ℕ
  pub current_line_index : ℕ
  pub display_start_line_number : ℕ

-- `n - 1` on uint32_t
abbrev pub less_one : ℕ → ℕ
less_one n = (n + (2 ^ 32 - 1)) % 2 ^ 32

-- What the editor does with typed lines: it ends, it waits for a line that is not typed yet, or it
-- writes outside `textBuffer`.
pub data Reply {ℓ} (A : Type ℓ) : Type ℓ where
  done : A → Reply A
  waiting : Reply A
  outside : Reply A

-- The loop of `deleteTextLine`, on the rounds left.
unfoldable pub shift_up : ℕ → ℕ → List (List ℕ) → List (List ℕ)
shift_up zero i rows = rows
shift_up (suc n) i rows = shift_up n (suc i) (set rows i (get_or rows (suc i) []))

unfoldable pub delete_text_line : ℕ → Editor → Editor
delete_text_line line_number e =
    let total = e.total_lines in
    let shifted = shift_up (total - line_number) (line_number - 1) e.text_buffer in
    let last = less_one total in
    if ltb line_number 1 || ltb total line_number then e else record e {
      text_buffer = shifted;
      total_lines = last;
      current_line_index =
          if leb last e.current_line_index then less_one last else e.current_line_index;
    }

-- The inner loop of `insertNewLines`, on the rounds left.
unfoldable pub shift_down : ℕ → ℕ → List (List ℕ) → List (List ℕ)
shift_down zero i rows = rows
shift_down (suc n) i rows = shift_down n (i - 1) (set rows i (get_or rows (i - 1) []))

-- A new row, the ones from its position on moved down.
unfoldable pub insert_row : ℕ → ℕ → List ℕ → List (List ℕ) → List (List ℕ)
insert_row position total line rows = set (shift_down (total - position) total rows) position line

pub record Insertion : Type 0 where
  pub rows : List (List ℕ)
  pub total : ℕ
  pub position : ℕ
  pub typed : List (List ℕ)

unfoldable pub insert_loop : ℕ → ℕ → List (List ℕ) → List (List ℕ) → Reply Insertion
insert_loop position total rows [] = waiting
insert_loop position total rows (line ∷ typed) =
    let ended = done (record { rows = rows; total = total; position = position; typed = typed }) in
    let further =
      insert_loop (suc position) (suc total) (insert_row position total line rows) typed in
    if same_text line (b'.' ∷ [])
    then ended
    else (if leb max_lines total
        then ended
        else (if leb max_lines position then outside else further))

abbrev pub after_insertion : Editor → Reply Insertion → Reply (Editor × List (List ℕ))
after_insertion e (done i) = done (
  record e {
    text_buffer = i.rows;
    total_lines = i.total;
    current_line_index = less_one i.position;
  },
  i.typed,
)
after_insertion e waiting = waiting
after_insertion e outside = outside

unfoldable pub insert_new_lines : Editor → List (List ℕ) → Reply (Editor × List (List ℕ))
insert_new_lines e typed =
    after_insertion e (insert_loop e.current_line_index e.total_lines e.text_buffer typed)

-- `readInputLine(textBuffer[lineIndex], ...)` writes the row.
unfoldable pub edit_row : ℕ → Editor → List (List ℕ) → Reply (Editor × List (List ℕ))
edit_row line_number e [] = waiting
edit_row line_number e (line ∷ typed) = done (
  record e {
    text_buffer = set e.text_buffer (line_number - 1) line;
    total_lines = if ltb e.total_lines line_number then line_number else e.total_lines;
    current_line_index = line_number - 1;
  },
  typed,
)

unfoldable pub edit_text_line : ℕ → Editor → List (List ℕ) → Reply (Editor × List (List ℕ))
edit_text_line line_number e typed =
    if ltb line_number 1 || ltb max_lines line_number
    then done (e, typed)
    else edit_row line_number e typed

-- The inner loop of `loadFileContent`, on the room left in the row, with the step over a newline: the row
-- and the content after it.
unfoldable pub load_row : ℕ → List ℕ → List ℕ × List ℕ
load_row room [] = ([], [])
load_row zero (c ∷ content) = if c == b'\n' then ([], content) else ([], c ∷ content)
load_row (suc room) (c ∷ content) =
    let later = load_row room content in
    if c == b'\n' then ([], content) else (c ∷ later.0, later.1)

-- The outer loop, on the rows left: the rows that it fills.
unfoldable pub load_rows : ℕ → List ℕ → List (List ℕ)
load_rows zero content = []
load_rows (suc n) [] = []
load_rows (suc n) (c ∷ content) =
    let found = load_row max_line_length (c ∷ content) in found.0 ∷ load_rows n found.1

-- The content of the file is what stands before its first zero.
unfoldable pub load_file_content : List ℕ → Editor
load_file_content content =
    let rows = load_rows max_lines content in
    record {
      text_buffer = rows ++ replicate (max_lines - length rows) [];
      total_lines = length rows;
      current_line_index = 0;
      display_start_line_number = 1;
    }

unfoldable pub total_size : List (List ℕ) → ℕ
total_size [] = 0
total_size (row ∷ rows) = length row + 1 + total_size rows

-- What `saveFileContent` writes before the final zero.
unfoldable pub output_of : List (List ℕ) → List ℕ
output_of [] = []
output_of (row ∷ rows) = row ++ b'\n' ∷ output_of rows

-- The lines of the text.
abbrev pub text : Editor → List (List ℕ)
text e = take e.total_lines e.text_buffer

-- The file that is created, and the pages asked for it.
unfoldable pub save_file_content : Editor → List ℕ × ℕ
save_file_content e = (output_of (text e), ceiling (total_size (text e)) 4096)
