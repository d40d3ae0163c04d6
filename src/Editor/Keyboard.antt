-- ===== src/Editor/Keyboard.antt =====
-- `readInputLine` of edlin.cpp: the line that a sequence of scan codes types.
pub mod Typing
use ikan_osv5_student.Prelude.{
  ℕ, ◌+◌, ◌-◌, ◌%◌, ◌^◌, Bool, true, false, ◌&&◌, ◌||◌, not, Option, none, some, List, [], ◌∷◌,
  ◌++◌, ◌==◌, ltb, leb, if◌then◌else◌, length, take,
}
use ikan_osv5_student.Editor.{max_line_length, max_display_lines, Editor}

pub record Key : Type 0 where
  pub scan_code : ℕ
  pub shifted : ℕ
  pub plain : ℕ

abbrev key : ℕ → ℕ → ℕ → Key
key scan_code shifted plain = record { scan_code = scan_code; shifted = shifted; plain = plain }

abbrev pub keys : List Key
keys =
    key 0x10 0x51 0x71
    ∷ key 0x11 0x57 0x77
    ∷ key 0x12 0x45 0x65
    ∷ key 0x13 0x52 0x72
    ∷ key 0x14 0x54 0x74
    ∷ key 0x15 0x59 0x79
    ∷ key 0x16 0x55 0x75
    ∷ key 0x17 0x49 0x69
    ∷ key 0x18 0x4F 0x6F
    ∷ key 0x19 0x50 0x70
    ∷ key 0x1E 0x41 0x61
    ∷ key 0x1F 0x53 0x73
    ∷ key 0x20 0x44 0x64
    ∷ key 0x21 0x46 0x66
    ∷ key 0x22 0x47 0x67
    ∷ key 0x23 0x48 0x68
    ∷ key 0x24 0x4A 0x6A
    ∷ key 0x25 0x4B 0x6B
    ∷ key 0x26 0x4C 0x6C
    ∷ key 0x2C 0x5A 0x7A
    ∷ key 0x2D 0x58 0x78
    ∷ key 0x2E 0x43 0x63
    ∷ key 0x2F 0x56 0x76
    ∷ key 0x30 0x42 0x62
    ∷ key 0x31 0x4E 0x6E
    ∷ key 0x32 0x4D 0x6D
    ∷ key 0x02 0x21 0x31
    ∷ key 0x03 0x40 0x32
    ∷ key 0x04 0x23 0x33
    ∷ key 0x05 0x24 0x34
    ∷ key 0x06 0x25 0x35
    ∷ key 0x07 0x5E 0x36
    ∷ key 0x08 0x26 0x37
    ∷ key 0x09 0x2A 0x38
    ∷ key 0x0A 0x28 0x39
    ∷ key 0x0B 0x29 0x30
    ∷ key 0x0C 0x5F 0x2D
    ∷ key 0x0D 0x2B 0x3D
    ∷ key 0x1A 0x7B 0x5B
    ∷ key 0x1B 0x7D 0x5D
    ∷ key 0x2B 0x7C 0x5C
    ∷ key 0x33 0x3C 0x2C
    ∷ key 0x34 0x3E 0x2E
    ∷ key 0x35 0x3F 0x2F
    ∷ key 0x27 0x3A 0x3B
    ∷ key 0x28 0x22 0x27
    ∷ key 0x39 0x20 0x20
    ∷ []

unfoldable pub character_in : List Key → ℕ → Bool → ℕ
character_in [] scan_code shift = 0
character_in (k ∷ ks) scan_code shift =
    if scan_code == k.scan_code
    then (if shift then k.shifted else k.plain)
    else character_in ks scan_code shift

-- The chain of tests on the scan code; 0 is no character.
abbrev pub character_of : ℕ → Bool → ℕ
character_of scan_code shift = character_in keys scan_code shift

abbrev pub page_up : Editor → Editor
page_up e = record e {
  display_start_line_number =
      if ltb max_display_lines e.display_start_line_number
      then e.display_start_line_number - max_display_lines
      else 1;
}

abbrev pub page_down : Editor → Editor
page_down e =
    let next = (e.display_start_line_number + max_display_lines) % 2 ^ 32 in
    record e {
      display_start_line_number =
          if ltb e.total_lines next
          then (if ltb (max_display_lines - 1) e.total_lines
              then e.total_lines - (max_display_lines - 1)
              else 1)
          else next;
    }

-- A character is added where the row has room for it.
unfoldable pub type_character : List ℕ → ℕ → List ℕ
type_character line character =
    if not (character == 0) && ltb (length line) max_line_length
    then line ++ character ∷ []
    else line

pub record Reading : Type 0 where
  pub shift_pressed : Bool
  pub line : List ℕ
  pub editor : Editor

-- What a scan code other than that of Enter does.
unfoldable pub read_key : Bool → ℕ → Reading → Reading
read_key paging code r =
    if code == 0x2A || code == 0x36
    then record r { shift_pressed = true }
    else (if code == 0xAA || code == 0xB6
        then record r { shift_pressed = false }
        else (if leb 0x80 code
            then r
            else (if code == 0x0E
                then record r { line = take (length r.line - 1) r.line }
                else (if paging && code == 0x49
                    then record r { editor = page_up r.editor }
                    else (if paging && code == 0x51
                        then record r { editor = page_down r.editor }
                        else record r {
                          line = type_character r.line (character_of code r.shift_pressed);
                        })))))

-- On the scan codes that the keyboard gives: what is read up to Enter, and the codes behind it.
-- Without an Enter among them, the line is not read yet.
unfoldable pub read_keys : Bool → Reading → List ℕ → Option (Reading × List ℕ)
read_keys paging r [] = none
read_keys paging r (code ∷ codes) =
    let later = read_keys paging (read_key paging code r) codes in
    if code == 0x1C then some (r, codes) else later

unfoldable pub read_input_line : Bool → Editor → List ℕ → Option (Reading × List ℕ)
read_input_line paging e codes =
    read_keys paging (record { shift_pressed = false; line = []; editor = e }) codes
