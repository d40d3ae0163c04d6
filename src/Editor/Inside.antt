-- ===== src/Editor/Inside.antt =====
-- Where the commands of edlin.cpp write: inside `textBuffer` or outside it.
use mathlib.Core.Path.{subst}
use ikan_osv5_student.Prelude.{
  ℕ, suc, ◌+◌, ◌%◌, ◌^◌, ◌<◌, ◌≤◌, ◌≡◌, ◌≢◌, ◌⊎◌, inl, inr, Bool, true, false, ◌&&◌, ◌||◌, List, [],
  ◌∷◌, arith, ◌==◌, ltb, leb, if◌then◌else◌, Bool-cases, dec_lt,
}
use ikan_osv5_student.Libc.Numbers.{is_digit, atoi}
use ikan_osv5_student.Libc.Strings.{same_text}
use ikan_osv5_student.Editor.{
  Editor, Reply, Insertion, delete_text_line, insert_row, insert_loop, after_insertion,
  insert_new_lines, edit_row, edit_text_line, max_lines, done, waiting, outside,
}
use ikan_osv5_student.Editor.Commands.{
  turn, turn_of, show_help, save_as, save_current, jump, letter, letter_command, run_command,
  nothing, quit, switch_to_parent,
}

unfoldable IsInside : {A : Type 0} → Reply A → Type 0
IsInside (done a) = Unit
IsInside waiting = Unit
IsInside outside = ⊥

IsInside-if :
    {A : Type 0} (b : Bool) (r s : Reply A)
    → IsInside r
    → IsInside s
    → IsInside (if b then r else s)
IsInside-if true r s h k = h
IsInside-if false r s h k = k

insert_loop-IsInside :
    (position total : ℕ) (rows typed : List (List ℕ))
    → position ≤ total
    → IsInside (insert_loop position total rows typed)
unfolding insert_loop IsInside
insert_loop-IsInside position total rows [] h = tt
insert_loop-IsInside position total rows (line ∷ typed) h =
    let new_rows = insert_row position total line rows in
    elim (Bool-cases (same_text line (b'.' ∷ []))) [
      | inl ended ↦ rw (ended, IsInside) tt
      | inr further ↦ elim (Bool-cases (leb max_lines total)) [
        | inl at_end ↦ rw (further, at_end, IsInside) tt
        | inr room ↦
            let within : leb max_lines position ≡ false = ground (arith, room) in
            rw (further, room, within)
              (insert_loop-IsInside (suc position) (suc total) new_rows typed (omega arith))
      ]
    ]

turn_of-IsInside : (r : Reply (Editor × List (List ℕ))) → IsInside r → IsInside (turn_of r)
unfolding IsInside
turn_of-IsInside (done (e, typed)) h = tt
turn_of-IsInside waiting h = tt
turn_of-IsInside outside h = h

after_insertion-IsInside :
    (e : Editor) (r : Reply Insertion) → IsInside r → IsInside (after_insertion e r)
unfolding IsInside
after_insertion-IsInside e (done i) h = tt
after_insertion-IsInside e waiting h = tt
after_insertion-IsInside e outside h = h

edit_text_line-IsInside :
    (line_number : ℕ) (e : Editor) (typed : List (List ℕ))
    → IsInside (edit_text_line line_number e typed)
unfolding edit_text_line edit_row IsInside
edit_text_line-IsInside n e [] =
    IsInside-if (ltb n 1 || ltb max_lines n) (done (e, [])) waiting tt tt
edit_text_line-IsInside n e (line ∷ typed) =
    IsInside-if (ltb n 1 || ltb max_lines n) (done (e, line ∷ typed)) (edit_row n e (line ∷ typed))
      tt tt

show_help-IsInside : (e : Editor) (typed : List (List ℕ)) → IsInside (show_help e typed)
unfolding IsInside
show_help-IsInside e [] = tt
show_help-IsInside e (line ∷ typed) = tt

save_current-IsInside :
    (file_name : List ℕ) (e : Editor) (typed : List (List ℕ))
    → IsInside (save_current file_name e typed)
unfolding IsInside save_current
save_current-IsInside [] e typed = tt
save_current-IsInside (c ∷ file_name) e typed = tt

letter_command-IsInside :
    (file_name : List ℕ) (c : ℕ) (e : Editor) (typed : List (List ℕ))
    → e.current_line_index ≤ e.total_lines
    → IsInside (letter_command file_name c e typed)
unfolding IsInside letter_command insert_new_lines
letter_command-IsInside file_name c e typed h =
    let current = (e.current_line_index + 1) % 2 ^ 32 in
    IsInside-if (letter b'e' c) _ _
      (turn_of-IsInside (edit_text_line current e typed) (edit_text_line-IsInside current e typed))
      (IsInside-if (letter b'i' c) _ _
        (turn_of-IsInside (insert_new_lines e typed) (
          after_insertion-IsInside e _
            (insert_loop-IsInside e.current_line_index e.total_lines e.text_buffer typed h)))
        (IsInside-if (letter b'd' c) (turn nothing (delete_text_line current e) typed) _ tt (
          IsInside-if (letter b'q' c) (turn quit e typed) _ tt (
            IsInside-if (letter b'p' c) (turn switch_to_parent e typed) _ tt (
              IsInside-if (letter b's' c) _ _ (save_current-IsInside file_name e typed) (
                IsInside-if (letter b'h' c) _ (turn nothing e typed) (show_help-IsInside e typed)
                  tt))))))

run_command-IsInside :
    (file_name command : List ℕ) (e : Editor) (typed : List (List ℕ))
    → e.current_line_index ≤ e.total_lines
    → IsInside (run_command file_name command e typed)
unfolding IsInside run_command
run_command-IsInside file_name [] e typed h = tt
run_command-IsInside file_name (c ∷ []) e typed h =
    IsInside-if (is_digit c) (turn nothing (jump (atoi (c ∷ [])) e) typed) _ tt
      (letter_command-IsInside file_name c e typed h)
run_command-IsInside file_name (c ∷ d ∷ rest) e typed h =
    IsInside-if (is_digit c) (turn nothing (jump (atoi (c ∷ d ∷ rest)) e) typed) _ tt
      (IsInside-if (letter b'w' c && d == b' ') (save_as rest e typed) (turn nothing e typed) tt tt)

pub run_command-outside :
    (file_name command : List ℕ) (e : Editor) (typed : List (List ℕ))
    → (run_command file_name command e typed ≢ outside) ⊎ (e.total_lines < e.current_line_index)
unfolding IsInside
run_command-outside file_name command e typed = elim (dec_lt e.total_lines e.current_line_index) [
  | yes behind ↦ inr behind
  | no before ↦
      inl (λ h. subst IsInside h (run_command-IsInside file_name command e typed (omega arith)))
]
