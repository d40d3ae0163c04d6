-- ===== src/Editor/Commands.antt =====
-- The loop of `main` in edlin.cpp: what a typed command does.
use ikan_osv5_student.Prelude.{
  ℕ, ◌+◌, ◌-◌, ◌%◌, ◌^◌, ◌≡◌, Bool, ◌&&◌, ◌||◌, List, [], ◌∷◌, ◌==◌, ltb, if◌then◌else◌,
}
use ikan_osv5_student.Libc.Numbers.{is_digit, atoi}
use ikan_osv5_student.Editor.{
  Editor, Reply, delete_text_line, insert_new_lines, edit_text_line, load_file_content,
  save_file_content, done, waiting, outside,
}

-- What a command leaves to the kernel. A file to save is the name, the content and the pages asked
-- for.
pub data Effect : Type 0 where
  nothing : Effect
  quit : Effect
  switch_to_parent : Effect
  save : List ℕ → List ℕ → ℕ → Effect

pub record Turn : Type 0 where
  pub editor : Editor
  pub typed : List (List ℕ)
  pub effect : Effect

abbrev pub turn : Effect → Editor → List (List ℕ) → Reply Turn
turn effect e typed = done (record { editor = e; typed = typed; effect = effect })

abbrev pub turn_of : Reply (Editor × List (List ℕ)) → Reply Turn
turn_of (done (e, typed)) = turn nothing e typed
turn_of waiting = waiting
turn_of outside = outside

-- `waitForEnter` reads keys up to Enter.
abbrev pub show_help : Editor → List (List ℕ) → Reply Turn
show_help e [] = waiting
show_help e (line ∷ typed) = turn nothing e typed

abbrev pub save_as : List ℕ → Editor → List (List ℕ) → Reply Turn
save_as file_name e typed =
    let (content, pages) = save_file_content e in turn (save file_name content pages) e typed

unfoldable pub save_current : List ℕ → Editor → List (List ℕ) → Reply Turn
save_current [] e typed = turn nothing e typed
save_current (c ∷ file_name) e typed = save_as (c ∷ file_name) e typed

unfoldable pub jump : ℕ → Editor → Editor
jump line_number e =
    if ltb 0 line_number
    then record e { current_line_index = line_number - 1; display_start_line_number = line_number }
    else e

-- A letter in small or capital form.
abbrev pub letter : ℕ → ℕ → Bool
letter small c = c == small || c == small - 32

-- The commands of one letter.
unfoldable pub letter_command : List ℕ → ℕ → Editor → List (List ℕ) → Reply Turn
letter_command file_name c e typed =
    let current = (e.current_line_index + 1) % 2 ^ 32 in
    if letter b'e' c
    then turn_of (edit_text_line current e typed)
    else (if letter b'i' c
        then turn_of (insert_new_lines e typed)
        else (if letter b'd' c
            then turn nothing (delete_text_line current e) typed
            else (if letter b'q' c
                then turn quit e typed
                else (if letter b'p' c
                    then turn switch_to_parent e typed
                    else (if letter b's' c
                        then save_current file_name e typed
                        else (if letter b'h' c
                            then show_help e typed
                            else turn nothing e typed))))))

-- A command on an editor with an initial file name, empty without one. `l` shows the text, as other
-- commands do afterwards, and an unknown command does nothing.
unfoldable pub run_command : List ℕ → List ℕ → Editor → List (List ℕ) → Reply Turn
run_command file_name [] e typed = turn nothing e typed
run_command file_name (c ∷ []) e typed =
    if is_digit c
    then turn nothing (jump (atoi (c ∷ [])) e) typed
    else letter_command file_name c e typed
run_command file_name (c ∷ d ∷ rest) e typed =
    if is_digit c
    then turn nothing (jump (atoi (c ∷ d ∷ rest)) e) typed
    else (if letter b'w' c && d == b' ' then save_as rest e typed else turn nothing e typed)

-- The states that the editor comes to: an empty text or a file that is loaded, and what commands make
-- of them while lines that satisfy `Typed` are typed.
pub data Reachable (Typed : List (List ℕ) → Type 0) : Editor → Type 0 where
  started : Reachable Typed (load_file_content [])
  loaded : (content : List ℕ) → Reachable Typed (load_file_content content)
  commanded :
      {e : Editor} (file_name command : List ℕ) (typed : List (List ℕ)) (t : Turn)
      → Reachable Typed e
      → Typed typed
      → run_command file_name command e typed ≡ done t
      → Reachable Typed t.editor
