-- ===== src/Editor/Sessions.antt =====
-- Every state that commands bring the line editor to is well formed (edlin.cpp).
use mathlib.Core.Path.{subst}
use ikan_osv5_student.Prelude.{
  ◌<◌, ◌≢◌, ◌⊎◌, ℕ, ◌+◌, ◌%◌, ◌^◌, inl, inr, ◌&&◌, List, [], ◌∷◌, ◌==◌, ltb, if◌then◌else◌,
  Bool-cases,
}
use ikan_osv5_student.Libc.Numbers.{is_digit, atoi}
use ikan_osv5_student.Editor.{
  Editor, Reply, delete_text_line, insert_new_lines, edit_text_line, done, waiting, outside,
}
use ikan_osv5_student.Editor.Commands.{
  Turn, turn, turn_of, show_help, save_as, save_current, jump, letter, letter_command, run_command,
  Reachable, nothing, quit, switch_to_parent, started, loaded, commanded,
}
use ikan_osv5_student.Editor.Bounds.{AreRows, IsWellFormed, load_file_content-IsWellFormed}
use ikan_osv5_student.Editor.Inside.{run_command-outside}
use ikan_osv5_student.Editor.Invariant.{
  Brings, delete_text_line-IsWellFormed, insert_new_lines-IsWellFormed, edit_text_line-IsWellFormed,
  Brings-if,
}

-- A turn that leaves the text well formed.
unfoldable pub Keeps : Reply Turn → Type 0
Keeps r = Brings (λ t. IsWellFormed t.editor) r

turn_of-Keeps :
    (r : Reply (Editor × List (List ℕ))) → Brings (λ s. IsWellFormed s.0) r → Keeps (turn_of r)
unfolding Brings Keeps
turn_of-Keeps (done (e, typed)) h = h
turn_of-Keeps waiting h = tt
turn_of-Keeps outside h = tt

show_help-Keeps : (e : Editor) (typed : List (List ℕ)) → IsWellFormed e → Keeps (show_help e typed)
unfolding Brings Keeps
show_help-Keeps e [] w = tt
show_help-Keeps e (line ∷ typed) w = w

save_current-Keeps :
    (file_name : List ℕ) (e : Editor) (typed : List (List ℕ))
    → IsWellFormed e
    → Keeps (save_current file_name e typed)
unfolding Brings Keeps save_current
save_current-Keeps [] e typed w = w
save_current-Keeps (c ∷ file_name) e typed w = w

jump-IsWellFormed :
    (line_number : ℕ) (e : Editor) → IsWellFormed e → IsWellFormed (jump line_number e)
unfolding jump
jump-IsWellFormed n e w = elim (Bool-cases (ltb 0 n)) [
  | inl hit ↦ rw hit (record { rows = w.rows; full = w.full; within = w.within })
  | inr miss ↦ rw miss w
]

letter_command-Keeps :
    (file_name : List ℕ) (c : ℕ) (e : Editor) (typed : List (List ℕ))
    → IsWellFormed e
    → AreRows typed
    → Keeps (letter_command file_name c e typed)
unfolding Keeps Brings letter_command
letter_command-Keeps file_name c e typed w t =
    let P = λ (u : Turn). IsWellFormed u.editor in
    let current = (e.current_line_index + 1) % 2 ^ 32 in
    let edited = turn_of (edit_text_line current e typed) in
    let inserted = turn_of (insert_new_lines e typed) in
    let deleted = turn nothing (delete_text_line current e) typed in
    let saved = save_current file_name e typed in
    let help = if letter b'h' c then show_help e typed else turn nothing e typed in
    let from_save = if letter b's' c then saved else help in
    let from_parent = if letter b'p' c then turn switch_to_parent e typed else from_save in
    let from_quit = if letter b'q' c then turn quit e typed else from_parent in
    let from_delete = if letter b'd' c then deleted else from_quit in
    let from_insert = if letter b'i' c then inserted else from_delete in
    Brings-if P (letter b'e' c) edited from_insert
      (turn_of-Keeps (edit_text_line current e typed)
        (edit_text_line-IsWellFormed current e typed w t))
      (Brings-if P (letter b'i' c) inserted from_delete
        (turn_of-Keeps (insert_new_lines e typed) (insert_new_lines-IsWellFormed e typed w t))
        (Brings-if P (letter b'd' c) deleted from_quit (delete_text_line-IsWellFormed current e w) (
          Brings-if P (letter b'q' c) (turn quit e typed) from_parent w (
            Brings-if P (letter b'p' c) (turn switch_to_parent e typed) from_save w (
              Brings-if P (letter b's' c) saved help (save_current-Keeps file_name e typed w) (
                Brings-if P (letter b'h' c) (show_help e typed) (turn nothing e typed)
                  (show_help-Keeps e typed w) w))))))

run_command-Keeps :
    (file_name command : List ℕ) (e : Editor) (typed : List (List ℕ))
    → IsWellFormed e
    → AreRows typed
    → Keeps (run_command file_name command e typed)
unfolding Keeps Brings run_command
run_command-Keeps file_name [] e typed w t = w
run_command-Keeps file_name (c ∷ []) e typed w t =
    Brings-if (λ (u : Turn). IsWellFormed u.editor) (is_digit c)
      (turn nothing (jump (atoi (c ∷ [])) e) typed) (letter_command file_name c e typed)
      (jump-IsWellFormed (atoi (c ∷ [])) e w) (letter_command-Keeps file_name c e typed w t)
run_command-Keeps file_name (c ∷ d ∷ rest) e typed w t =
    let P = λ (u : Turn). IsWellFormed u.editor in
    let other = if letter b'w' c && d == b' ' then save_as rest e typed else turn nothing e typed in
    Brings-if P (is_digit c) (turn nothing (jump (atoi (c ∷ d ∷ rest)) e) typed) other
      (jump-IsWellFormed (atoi (c ∷ d ∷ rest)) e w)
      (Brings-if P (letter b'w' c && d == b' ') (save_as rest e typed) (turn nothing e typed) w w)

reachable_lem : {e : Editor} → Reachable AreRows e → IsWellFormed e
unfolding Keeps Brings
reachable_lem started = load_file_content-IsWellFormed []
reachable_lem (loaded content) = load_file_content-IsWellFormed content
reachable_lem (commanded {e} file_name command typed t r a h) =
    subst Keeps h (run_command-Keeps file_name command e typed (reachable_lem r) a)

-- From an empty text or any loaded file, after any commands that did not write outside the buffer,
-- with lines typed that fit a row and hold no newline, the text has at most 250 lines, and each row
-- of the buffer has at most 65 characters, none of them a newline; and no next command writes
-- outside the buffer, unless the current line lies behind the line after the text.
pub Reachable-IsWellFormed :
    {e : Editor} (file_name command : List ℕ) (typed : List (List ℕ))
    → Reachable AreRows e
    → IsWellFormed e
      × ((run_command file_name command e typed ≢ outside) ⊎ (e.total_lines < e.current_line_index))
Reachable-IsWellFormed {e} file_name command typed r =
    (reachable_lem r, run_command-outside file_name command e typed)
