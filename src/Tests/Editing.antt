-- ===== src/Tests/Editing.antt =====
-- The line editor at work.

use ikan_osv5_student.Prelude.{
  ◌≢◌, ◌⊎◌, ◌<◌, ℕ, ◌<◌, ◌≡◌, refl, ◌⊎◌, true, Option, none, some, List, [], ◌∷◌, arith,
}
use ikan_osv5_student.Libc.Strings.{same_text}
use ikan_osv5_student.Libc.Numbers.{
  is_space, is_digit, skip_whitespace, digits_value, signed_value, atoi,
}
use ikan_osv5_student.Editor.{
  Editor, delete_text_line, insert_new_lines, load_row, load_rows, load_file_content, text,
  save_file_content, done, outside,
}
use ikan_osv5_student.Editor.Keyboard.{
  character_in, type_character, Reading, read_key, read_keys, read_input_line,
}
use ikan_osv5_student.Editor.Commands.{jump, run_command, nothing, loaded, commanded}
use ikan_osv5_student.Editor.Bounds.{AreRows, IsWellFormed, load_file_content-IsWellFormed}
use ikan_osv5_student.Editor.Text.{
  AreEntered, text-delete_text_line, insert_new_lines_lem, insert_new_lines_loses,
  insert_new_lines-delete_text_line,
}
use ikan_osv5_student.Editor.Files.{load_file_content-save_file_content}
use ikan_osv5_student.Editor.Sessions.{Reachable-IsWellFormed}

abbrev one : List ℕ
one = b'o' ∷ b'n' ∷ b'e' ∷ []

abbrev two : List ℕ
two = b't' ∷ b'w' ∷ b'o' ∷ []

abbrev ended : List ℕ
ended = b'.' ∷ []

abbrev two_lines : Editor
two_lines = load_file_content (b'o' ∷ b'n' ∷ b'e' ∷ b'\n' ∷ b't' ∷ b'w' ∷ b'o' ∷ [])

two_lines-text : text two_lines ≡ one ∷ two ∷ []
unfolding load_file_content load_rows load_row
two_lines-text = refl

abbrev line_of : Option (Reading × List ℕ) → List ℕ
line_of none = []
line_of (some (r, codes)) = r.line

no_rows : AreRows []
unfolding AreRows
no_rows = tt

-- Shift, `o`, shift released, `n`, `e`, backspace, Enter
read_shifted :
    line_of (read_input_line true two_lines (0x2A ∷ 0x18 ∷ 0xAA ∷ 0x31 ∷ 0x12 ∷ 0x0E ∷ 0x1C ∷ []))
    ≡ b'O' ∷ b'n' ∷ []
unfolding read_input_line read_keys read_key type_character character_in load_file_content
read_shifted = refl

insert_new_lines_lem_example :
    (f : Editor) × (insert_new_lines two_lines (two ∷ ended ∷ one ∷ []) ≡ done (f, one ∷ []))
    × (text f ≡ two ∷ one ∷ two ∷ [])
    × (f.total_lines ≡ 3)
    × (f.current_line_index ≡ 0)
unfolding AreEntered same_text load_file_content load_rows load_row
insert_new_lines_lem_example =
    insert_new_lines_lem two_lines (two ∷ []) (one ∷ []) (refl, tt) (omega arith) (omega arith) refl

text-delete_text_line_example :
    (text (delete_text_line 1 two_lines) ≡ two ∷ [])
    × ((delete_text_line 1 two_lines).total_lines ≡ 1)
    × (((delete_text_line 1 two_lines).total_lines ≡ 0)
        ⊎ ((delete_text_line 1 two_lines).current_line_index
            < (delete_text_line 1 two_lines).total_lines))
unfolding load_file_content load_rows load_row
text-delete_text_line_example =
    text-delete_text_line two_lines 1 (omega arith) (omega arith) (omega arith) (omega arith)

insert_new_lines_loses_example :
    (f : Editor) × (insert_new_lines (jump 9 two_lines) (one ∷ ended ∷ []) ≡ done (f, []))
    × (text f ≡ one ∷ two ∷ [] ∷ [])
unfolding load_file_content load_rows load_row jump same_text
insert_new_lines_loses_example =
    insert_new_lines_loses (jump 9 two_lines) one [] refl (omega arith) (omega arith)

insert_new_lines-delete_text_line_example :
    insert_new_lines (delete_text_line 1 (load_file_content one)) (two ∷ []) ≡ outside
unfolding load_file_content load_rows load_row same_text
insert_new_lines-delete_text_line_example =
    insert_new_lines-delete_text_line (load_file_content one) two [] refl refl

load_file_content-save_file_content_example :
    text (load_file_content (save_file_content two_lines).0) ≡ text two_lines
load_file_content-save_file_content_example =
    load_file_content-save_file_content two_lines
      (load_file_content-IsWellFormed (b'o' ∷ b'n' ∷ b'e' ∷ b'\n' ∷ b't' ∷ b'w' ∷ b'o' ∷ []))

Reachable-IsWellFormed_example :
    IsWellFormed (jump 2 (load_file_content one))
    × ((run_command [] (b'i' ∷ []) (jump 2 (load_file_content one)) (two ∷ ended ∷ []) ≢ outside)
        ⊎ ((jump 2 (load_file_content one)).total_lines
            < (jump 2 (load_file_content one)).current_line_index))
unfolding run_command is_digit atoi skip_whitespace is_space signed_value digits_value
Reachable-IsWellFormed_example = Reachable-IsWellFormed [] (b'i' ∷ []) (two ∷ ended ∷ []) (
    commanded [] (b'2' ∷ []) []
      (record { editor = jump 2 (load_file_content one); typed = []; effect = nothing })
      (loaded one) no_rows refl)
