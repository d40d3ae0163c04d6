-- ===== src/Editor/Keyboard/Typing.antt =====
-- The line that `readInputLine` reads fits a row of the text (edlin.cpp).
use ikan_osv5_student.Prelude.{
  ℕ, zero, suc, ◌-◌, ◌<◌, ◌≡◌, refl, sym, ◌≢◌, inl, inr, Bool, true, false, ◌&&◌, ◌||◌, not, some,
  List, [], ◌∷◌, ◌++◌, arith, ◌==◌, ltb, leb, if◌then◌else◌, length, take, Bool-cases,
}
use ikan_osv5_student.Editor.{max_line_length, Editor}
use ikan_osv5_student.Editor.Bounds.{IsRow}
use ikan_osv5_student.Editor.Keyboard.{
  Key, keys, character_in, character_of, type_character, Reading, read_key, read_keys,
  read_input_line,
}

unfoldable types_newline : List Key → Bool
types_newline [] = false
types_newline (k ∷ ks) = (k.shifted == b'\n' || k.plain == b'\n') || types_newline ks

character_in-ne :
    (ks : List Key) (scan_code : ℕ) (shift : Bool)
    → types_newline ks ≡ false
    → character_in ks scan_code shift ≢ b'\n'
unfolding character_in types_newline
character_in-ne [] scan_code shift h = λ e. absurd (omega arith)
character_in-ne (k ∷ ks) scan_code shift h =
    let here : (k.shifted == b'\n' || k.plain == b'\n') ≡ false = ground arith in
    let later : types_newline ks ≡ false = ground arith in
    elim (Bool-cases (scan_code == k.scan_code)) [
      | inl hit ↦ rw hit (elim shift as (λ s. (if s then k.shifted else k.plain) ≢ b'\n') [
        | true ↦ λ e. absurd (ground arith)
        | false ↦ λ e. absurd (ground arith)
      ])
      | inr miss ↦ rw miss (character_in-ne ks scan_code shift later)
    ]

character_of-ne : (scan_code : ℕ) (shift : Bool) → character_of scan_code shift ≢ b'\n'
unfolding types_newline
character_of-ne scan_code shift = character_in-ne keys scan_code shift refl

IsRow-append :
    (room : ℕ) (row : List ℕ) (c : ℕ)
    → IsRow room row
    → length row < room
    → c ≢ b'\n'
    → IsRow room (row ++ c ∷ [])
unfolding IsRow
IsRow-append zero row c h l n = absurd (omega arith)
IsRow-append (suc room) [] c h l n = (n, tt)
IsRow-append (suc room) (d ∷ row) c h l n = (h.0, IsRow-append room row c h.1 (omega arith) n)

IsRow-take : (room n : ℕ) (row : List ℕ) → IsRow room row → IsRow room (take n row)
unfolding IsRow
IsRow-take room zero row h = tt
IsRow-take room (suc n) [] h = tt
IsRow-take zero (suc n) (c ∷ row) h = absurd h
IsRow-take (suc room) (suc n) (c ∷ row) h = (h.0, IsRow-take room n row h.1)

type_character-IsRow :
    (line : List ℕ) (c : ℕ)
    → IsRow max_line_length line
    → c ≢ b'\n'
    → IsRow max_line_length (type_character line c)
unfolding type_character
type_character-IsRow line c h n =
    elim (Bool-cases (not (c == 0) && ltb (length line) max_line_length)) [
      | inl hit ↦ rw hit (IsRow-append max_line_length line c h (ground arith) n)
      | inr miss ↦ rw miss h
    ]

-- The line of a reading fits a row.
FitsRow : Reading → Type 0
FitsRow r = IsRow max_line_length r.line

FitsRow-if : (b : Bool) (r s : Reading) → FitsRow r → FitsRow s → FitsRow (if b then r else s)
FitsRow-if true r s x y = x
FitsRow-if false r s x y = y

read_key-FitsRow :
    (paging : Bool) (code : ℕ) (r : Reading) → FitsRow r → FitsRow (read_key paging code r)
unfolding read_key FitsRow
read_key-FitsRow paging code r h = FitsRow-if (code == 0x2A || code == 0x36) _ _ h (
    FitsRow-if (code == 0xAA || code == 0xB6) _ _ h (
      FitsRow-if (leb 0x80 code) _ _ h (
        FitsRow-if (code == 0x0E) _ _ (IsRow-take max_line_length (length r.line - 1) r.line h) (
          FitsRow-if (paging && code == 0x49) _ _ h (
            FitsRow-if (paging && code == 0x51) _ _ h (
              type_character-IsRow r.line (character_of code r.shift_pressed) h
                (character_of-ne code r.shift_pressed)))))))

read_keys-FitsRow :
    (paging : Bool) (r s : Reading) (codes rest : List ℕ)
    → FitsRow r
    → read_keys paging r codes ≡ some (s, rest)
    → FitsRow s
unfolding read_keys
read_keys-FitsRow paging r s [] rest f h = absurd (ground arith)
read_keys-FitsRow paging r s (code ∷ codes) rest f h = elim (Bool-cases (code == 0x1C)) [
  | inl hit ↦ let same : r ≡ s = ground arith in rw (sym same) f
  | inr miss ↦
      read_keys-FitsRow paging (read_key paging code r) s codes rest
        (read_key-FitsRow paging code r f) (ground arith)
]

-- A line that is read from the keyboard, whatever keys are pressed before Enter, fits a row and
-- holds no newline.
read_input_line-IsRow :
    (paging : Bool) (e : Editor) (codes rest : List ℕ) (r : Reading)
    → read_input_line paging e codes ≡ some (r, rest)
    → IsRow max_line_length r.line
unfolding read_input_line FitsRow IsRow
read_input_line-IsRow paging e codes rest r h =
    let start : Reading = record { shift_pressed = false; line = []; editor = e } in
    read_keys-FitsRow paging start r codes rest tt h
