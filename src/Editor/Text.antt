-- ===== src/Editor/Text.antt =====
-- What the operations of the line editor do to its text, the list of its lines (edlin.cpp).
use ikan_osv5_student.Prelude.{
  ℕ, zero, suc, ◌+◌, ◌-◌, ◌^◌, ◌≤◌, ◌<◌, ◌≡◌, refl, sym, ap, ◌∙◌, ◌⊎◌, inl, inr, true, false, ◌||◌,
  List, [], ◌∷◌, ◌++◌, arith, ltb, leb, if◌then◌else◌, length, set, take, drop, length-take,
  take-append-drop, Bool-cases,
}
use ikan_osv5_student.Libc.Strings.{same_text, same_text_refl}
use ikan_osv5_student.Editor.{
  max_lines, Editor, less_one, delete_text_line, shift_down, insert_row, Insertion, insert_loop,
  insert_new_lines, text, done, outside,
}
use ikan_osv5_student.Editor.Rows.{take-shift_up, take-insert_row, length-insert_row}

abbrev pub dot : List ℕ
dot = b'.' ∷ []

-- Lines that do not end the insertion.
unfoldable pub AreEntered : List (List ℕ) → Type 0
AreEntered [] = Unit
AreEntered (line ∷ lines) = (same_text line dot ≡ false) × AreEntered lines

current_IsInside :
    (last current : ℕ)
    → last < 2 ^ 32
    → (last ≡ 0) ⊎ ((if leb last current then less_one last else current) < last)
current_IsInside zero current h = inl refl
current_IsInside (suc last) current h =
    let less : less_one (suc last) ≡ last = omega arith in
    rw less (elim (Bool-cases (leb (suc last) current)) [
      | inl hit ↦ rw hit (inr (omega arith))
      | inr miss ↦ rw miss (inr (ground arith))
    ])

-- Deleting a line of the text takes that line out and keeps all others in order; unless the text is
-- then empty, the current line is one of it.
pub text-delete_text_line :
    (e : Editor) (line_number : ℕ)
    → e.total_lines ≤ length e.text_buffer
    → e.total_lines < 2 ^ 32
    → 1 ≤ line_number
    → line_number ≤ e.total_lines
    → (text (delete_text_line line_number e)
        ≡ take (line_number - 1) (text e) ++ drop line_number (text e))
      × ((delete_text_line line_number e).total_lines ≡ e.total_lines - 1)
      × (((delete_text_line line_number e).total_lines ≡ 0)
          ⊎ ((delete_text_line line_number e).current_line_index
              < (delete_text_line line_number e).total_lines))
unfolding delete_text_line
text-delete_text_line e zero h u l m = absurd (omega arith)
text-delete_text_line e (suc k) h u l m =
    let total = e.total_lines in
    let kept : (ltb (suc k) 1 || ltb total (suc k)) ≡ false = ground arith in
    let last : less_one total ≡ total - 1 = omega arith in
    let first : suc k - 1 ≡ k = omega arith in
    let whole : suc (total - 1) ≡ total = omega arith in
    rw (kept, last, first)
      (
        take-shift_up k (total - suc k) (total - 1) e.text_buffer (omega arith) (omega arith)
            ∙ ap (λ m. take k (take m e.text_buffer) ++ drop (suc k) (take m e.text_buffer)) whole,
        refl,
        current_IsInside (total - 1) e.current_line_index (omega arith),
      )

take-set_above :
    (n m : ℕ) (rows : List (List ℕ)) (v : List ℕ) → n ≤ m → take n (set rows m v) ≡ take n rows
take-set_above zero m rows v h = refl
take-set_above (suc n) m [] v h = refl
take-set_above (suc n) zero (row ∷ rows) v h = absurd (omega arith)
take-set_above (suc n) (suc m) (row ∷ rows) v h =
    ap (◌∷◌ row) (take-set_above n m rows v (omega arith))

take-drop_around :
    (p : ℕ) (xs ys : List (List ℕ)) (line : List ℕ) (lines : List (List ℕ))
    → length xs ≡ p
    → take (suc p) (xs ++ line ∷ ys) ++ (lines ++ drop (suc p) (xs ++ line ∷ ys))
      ≡ xs ++ (line ∷ lines ++ ys)
take-drop_around zero [] ys line lines h = refl
take-drop_around (suc p) [] ys line lines h = absurd (omega arith)
take-drop_around zero (x ∷ xs) ys line lines h = absurd (omega arith)
take-drop_around (suc p) (x ∷ xs) ys line lines h =
    ap (◌∷◌ x) (take-drop_around p xs ys line lines (omega arith))

insert_loop_lem :
    (position total : ℕ) (rows lines typed : List (List ℕ))
    → AreEntered lines
    → position ≤ total
    → total + length lines ≤ max_lines
    → length rows ≡ max_lines
    → (i : Insertion) × (insert_loop position total rows (lines ++ dot ∷ typed) ≡ done i)
      × (take i.total i.rows
          ≡ take position (take total rows) ++ (lines ++ drop position (take total rows)))
      × (i.position ≡ position + length lines)
      × (i.total ≡ total + length lines)
      × (i.typed ≡ typed)
unfolding insert_loop AreEntered
insert_loop_lem position total rows [] typed a h m l = (
  record { rows = rows; total = total; position = position; typed = typed },
  rw (same_text_refl dot) refl,
  sym (take-append-drop position (take total rows)),
  omega arith,
  omega arith,
  refl,
)
insert_loop_lem position total rows (line ∷ lines) typed a h m l =
    let t = take total rows in
    let inserted = insert_row position total line rows in
    let room : leb max_lines total ≡ false = ground arith in
    let inside : leb max_lines position ≡ false = ground arith in
    let placed : take (suc total) inserted ≡ take position t ++ line ∷ drop position t =
      take-insert_row position total line rows h (omega arith) in
    let (i, e, content, at, count, rest) =
      insert_loop_lem (suc position) (suc total) inserted lines typed a.1 (omega arith)
        (omega arith) (length-insert_row position total line rows ∙ l) in
    let head : length (take position t) ≡ position =
      omega (arith, length-take position t, length-take total rows) in
    (
      i,
      rw (a.0, room, inside) e,
      content
          ∙ ap (λ m. take (suc position) m ++ (lines ++ drop (suc position) m)) placed
          ∙ take-drop_around position (take position t) (drop position t) line lines head,
      omega arith,
      omega arith,
      rest,
    )

-- With the current line in the text or just behind it and room for all lines, typing lines that are
-- not a single dot and then a dot puts them before the current line, in order, makes the last of
-- them the current line, and leaves what is typed afterwards.
pub insert_new_lines_lem :
    (e : Editor) (lines typed : List (List ℕ))
    → AreEntered lines
    → e.current_line_index ≤ e.total_lines
    → e.total_lines + length lines ≤ max_lines
    → length e.text_buffer ≡ max_lines
    → (f : Editor) × (insert_new_lines e (lines ++ dot ∷ typed) ≡ done (f, typed))
      × (text f
          ≡ take e.current_line_index (text e) ++ (lines ++ drop e.current_line_index (text e)))
      × (f.total_lines ≡ e.total_lines + length lines)
      × (f.current_line_index ≡ less_one (e.current_line_index + length lines))
unfolding insert_new_lines
insert_new_lines_lem e lines typed a h m l =
    let (i, r, content, at, count, rest) =
      insert_loop_lem e.current_line_index e.total_lines e.text_buffer lines typed a h m l in
    let f : Editor = record e {
      text_buffer = i.rows;
      total_lines = i.total;
      current_line_index = less_one i.position;
    } in
    (f, rw r (ap (λ x. done (f, x)) rest), content, count, ap less_one at)

-- With the current line behind the line after the text, as after a jump, a line that is inserted is
-- not added to the text: the text grows by the row that stood behind it.
pub insert_new_lines_loses :
    (e : Editor) (line : List ℕ) (typed : List (List ℕ))
    → same_text line dot ≡ false
    → e.total_lines < e.current_line_index
    → e.current_line_index < max_lines
    → (f : Editor) × (insert_new_lines e (line ∷ dot ∷ typed) ≡ done (f, typed))
      × (text f ≡ take (suc e.total_lines) e.text_buffer)
unfolding insert_new_lines insert_loop insert_row shift_down
insert_new_lines_loses e line typed a h m =
    let room : leb max_lines e.total_lines ≡ false = ground arith in
    let inside : leb max_lines e.current_line_index ≡ false = ground arith in
    let none_moved : e.total_lines - e.current_line_index ≡ 0 = omega arith in
    let rows = set e.text_buffer e.current_line_index line in
    (
      record e {
        text_buffer = rows;
        total_lines = suc e.total_lines;
        current_line_index = less_one (suc e.current_line_index);
      },
      rw (a, room, inside, none_moved, same_text_refl dot) refl,
      take-set_above (suc e.total_lines) e.current_line_index e.text_buffer line (omega arith),
    )

-- After the only line is deleted, inserting a line writes outside the buffer.
pub insert_new_lines-delete_text_line :
    (e : Editor) (line : List ℕ) (typed : List (List ℕ))
    → e.total_lines ≡ 1
    → same_text line dot ≡ false
    → insert_new_lines (delete_text_line 1 e) (line ∷ typed) ≡ outside
unfolding insert_new_lines insert_loop delete_text_line
insert_new_lines-delete_text_line e line typed one a =
    let low : leb (less_one 1) e.current_line_index ≡ true = ground arith in rw (one, low, a) refl
