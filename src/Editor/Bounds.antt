-- ===== src/Editor/Bounds.antt =====
-- The rows and the number of lines of the line editor stay within the buffer (edlin.cpp).
use ikan_osv5_student.Prelude.{
  ℕ, zero, suc, ◌-◌, ◌≤◌, ◌≡◌, ◌≢◌, inl, inr, List, [], ◌∷◌, ◌++◌, arith, ◌==◌, length, get_or, set,
  take, replicate, length-append, length-replicate, Bool-cases,
}
use ikan_osv5_student.Editor.{
  max_lines, max_line_length, Editor, shift_up, shift_down, insert_row, load_row, load_rows,
  load_file_content,
}

-- A row of the buffer: no newline, and room for the final zero.
unfoldable pub IsRow : ℕ → List ℕ → Type 0
IsRow room [] = Unit
IsRow zero (c ∷ row) = ⊥
IsRow (suc room) (c ∷ row) = (c ≢ b'\n') × IsRow room row

unfoldable pub AreRows : List (List ℕ) → Type 0
AreRows [] = Unit
AreRows (row ∷ rows) = IsRow max_line_length row × AreRows rows

pub record IsWellFormed (e : Editor) : Type 0 where
  pub rows : AreRows e.text_buffer
  pub full : length e.text_buffer ≡ max_lines
  pub within : e.total_lines ≤ max_lines

pub AreRows-take : (n : ℕ) (rows : List (List ℕ)) → AreRows rows → AreRows (take n rows)
unfolding AreRows
AreRows-take zero rows a = tt
AreRows-take (suc n) [] a = tt
AreRows-take (suc n) (row ∷ rows) a = (a.0, AreRows-take n rows a.1)

IsRow-get_or :
    (rows : List (List ℕ)) (i : ℕ) → AreRows rows → IsRow max_line_length (get_or rows i [])
unfolding AreRows IsRow
IsRow-get_or [] i a = tt
IsRow-get_or (row ∷ rows) zero a = a.0
IsRow-get_or (row ∷ rows) (suc i) a = IsRow-get_or rows i a.1

pub AreRows-set :
    (rows : List (List ℕ)) (i : ℕ) (row : List ℕ)
    → AreRows rows
    → IsRow max_line_length row
    → AreRows (set rows i row)
unfolding AreRows
AreRows-set [] i row a r = tt
AreRows-set (old ∷ rows) zero row a r = (r, a.1)
AreRows-set (old ∷ rows) (suc i) row a r = (a.0, AreRows-set rows i row a.1 r)

AreRows-append : (rows more : List (List ℕ)) → AreRows rows → AreRows more → AreRows (rows ++ more)
unfolding AreRows
AreRows-append [] more a b = b
AreRows-append (row ∷ rows) more a b = (a.0, AreRows-append rows more a.1 b)

AreRows-replicate : (n : ℕ) → AreRows (replicate n [])
unfolding AreRows IsRow
AreRows-replicate zero = tt
AreRows-replicate (suc n) = (tt, AreRows-replicate n)

pub AreRows-shift_up : (n i : ℕ) (rows : List (List ℕ)) → AreRows rows → AreRows (shift_up n i rows)
unfolding shift_up
AreRows-shift_up zero i rows a = a
AreRows-shift_up (suc n) i rows a =
    let next = get_or rows (suc i) [] in
    AreRows-shift_up n (suc i) (set rows i next)
      (AreRows-set rows i next a (IsRow-get_or rows (suc i) a))

AreRows-shift_down : (n i : ℕ) (rows : List (List ℕ)) → AreRows rows → AreRows (shift_down n i rows)
unfolding shift_down
AreRows-shift_down zero i rows a = a
AreRows-shift_down (suc n) i rows a =
    let above = get_or rows (i - 1) [] in
    AreRows-shift_down n (i - 1) (set rows i above)
      (AreRows-set rows i above a (IsRow-get_or rows (i - 1) a))

pub AreRows-insert_row :
    (position total : ℕ) (line : List ℕ) (rows : List (List ℕ))
    → AreRows rows
    → IsRow max_line_length line
    → AreRows (insert_row position total line rows)
unfolding insert_row
AreRows-insert_row position total line rows a l =
    AreRows-set (shift_down (total - position) total rows) position line
      (AreRows-shift_down (total - position) total rows a) l

load_row-IsRow : (room : ℕ) (content : List ℕ) → IsRow room (load_row room content).0
unfolding load_row IsRow
load_row-IsRow room [] = tt
load_row-IsRow zero (c ∷ content) = elim (Bool-cases (c == b'\n')) [
  | inl hit ↦ rw hit tt
  | inr miss ↦ rw miss tt
]
load_row-IsRow (suc room) (c ∷ content) = elim (Bool-cases (c == b'\n')) [
  | inl hit ↦ rw hit tt
  | inr miss ↦ rw miss (ground arith, load_row-IsRow room content)
]

load_rows-AreRows : (n : ℕ) (content : List ℕ) → AreRows (load_rows n content)
unfolding load_rows AreRows
load_rows-AreRows zero content = tt
load_rows-AreRows (suc n) [] = tt
load_rows-AreRows (suc n) (c ∷ content) = (
  load_row-IsRow max_line_length (c ∷ content),
  load_rows-AreRows n (load_row max_line_length (c ∷ content)).1,
)

length-load_rows : (n : ℕ) (content : List ℕ) → length (load_rows n content) ≤ n
unfolding load_rows
length-load_rows zero content = omega arith
length-load_rows (suc n) [] = omega arith
length-load_rows (suc n) (c ∷ content) =
    omega (arith, length-load_rows n (load_row max_line_length (c ∷ content)).1)

pub load_file_content-IsWellFormed : (content : List ℕ) → IsWellFormed (load_file_content content)
unfolding load_file_content
load_file_content-IsWellFormed content =
    let rows = load_rows max_lines content in
    let free = max_lines - length rows in
    record {
      rows =
          AreRows-append rows (replicate free []) (load_rows-AreRows max_lines content)
            (AreRows-replicate free);
      full = omega (
        arith,
        length-append rows (replicate free []),
        length-replicate {A = List ℕ} free [],
        length-load_rows max_lines content,
      );
      within = length-load_rows max_lines content;
    }
