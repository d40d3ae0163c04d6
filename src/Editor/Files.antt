-- ===== src/Editor/Files.antt =====
-- Saving the text of the line editor and loading it again (edlin.cpp).
use ikan_osv5_student.Prelude.{
  ℕ, zero, suc, ◌-◌, ◌≤◌, ◌≡◌, refl, ap, ◌∙◌, false, List, [], ◌∷◌, ◌++◌, arith, ◌==◌, length,
  replicate, length-append, length-take, take-append,
}
use ikan_osv5_student.Editor.{
  max_lines, max_line_length, Editor, load_row, load_rows, load_file_content, total_size, output_of,
  text, save_file_content,
}
use ikan_osv5_student.Editor.Bounds.{IsRow, AreRows, IsWellFormed, AreRows-take}

load_row_lem :
    (room : ℕ) (row rest : List ℕ)
    → IsRow room row
    → load_row room (row ++ b'\n' ∷ rest) ≡ (row, rest)
unfolding load_row IsRow
load_row_lem zero [] rest h = refl
load_row_lem (suc room) [] rest h = refl
load_row_lem zero (c ∷ row) rest h = absurd h
load_row_lem (suc room) (c ∷ row) rest h =
    let other : (c == b'\n') ≡ false = ground arith in
    rw (other, load_row_lem room row rest h.1) refl

load_rows_step :
    (n : ℕ) (row : List ℕ) (d : ℕ) (rest : List ℕ)
    → load_rows (suc n) (row ++ d ∷ rest)
      ≡ (load_row max_line_length (row ++ d ∷ rest)).0
        ∷ load_rows n (load_row max_line_length (row ++ d ∷ rest)).1
unfolding load_rows
load_rows_step n [] d rest = refl
load_rows_step n (c ∷ row) d rest = refl

load_rows-output_of :
    (n : ℕ) (rows : List (List ℕ))
    → AreRows rows
    → length rows ≤ n
    → load_rows n (output_of rows) ≡ rows
unfolding AreRows output_of load_rows
load_rows-output_of zero [] a h = refl
load_rows-output_of (suc n) [] a h = refl
load_rows-output_of zero (row ∷ rows) a h = absurd (omega arith)
load_rows-output_of (suc n) (row ∷ rows) a h =
    load_rows_step n row b'\n' (output_of rows)
    ∙ rw (load_row_lem max_line_length row (output_of rows) a.0)
        (ap (◌∷◌ row) (load_rows-output_of n rows a.1 (omega arith)))

-- Loading what was saved gives the same text, for a well-formed buffer.
pub load_file_content-save_file_content :
    (e : Editor) → IsWellFormed e → text (load_file_content (save_file_content e).0) ≡ text e
unfolding load_file_content save_file_content
load_file_content-save_file_content e w =
    let rows = text e in
    let few : length rows ≤ max_lines =
      omega (arith, length-take e.total_lines e.text_buffer, w.within) in
    let same : load_rows max_lines (output_of rows) ≡ rows =
      load_rows-output_of max_lines rows (AreRows-take e.total_lines e.text_buffer w.rows) few in
    rw same (take-append rows (replicate (max_lines - length rows) []))

length-output_of : (rows : List (List ℕ)) → length (output_of rows) ≡ total_size rows
unfolding output_of total_size
length-output_of [] = refl
length-output_of (row ∷ rows) =
    omega (arith, length-append row (b'\n' ∷ output_of rows), length-output_of rows)
