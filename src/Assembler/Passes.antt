-- ===== src/Assembler/Passes.antt =====
-- `firstPass` and `secondPass` of al.cpp. Both read the same lines, which are listed here.
pub mod Addresses
pub mod Resolution
use ikan_osv5_student.Prelude.{
  ℕ, ◌+◌, Bool, true, false, ◌&&◌, ◌||◌, List, [], ◌∷◌, ◌++◌, Option, none, some, ◌==◌, ltb, length,
  if◌then◌else◌, map,
}
use ikan_osv5_student.Libc.Numbers.{to_lower}
use ikan_osv5_student.Assembler.Operands.{
  LabelEntry, JumpTable, find_label, find_lib_function, add_label, parse_register_index,
}
use ikan_osv5_student.Libc.Strings.{same_text}
use ikan_osv5_student.Assembler.Lines.{Line, parse_line, source_lines}
use ikan_osv5_student.Assembler.Sizes.{Mnemonic, call, mnemonic, get_instruction_size}
use ikan_osv5_student.Assembler.Encoding.{encode}

-- `section`, with the section that the argument names, or an instruction.
pub data Statement : Type 0 where
  nothing : Statement
  directive : Option ℕ → Statement
  operation : Mnemonic → List ℕ → List ℕ → Statement

unfoldable pub section_named : List ℕ → Option ℕ
section_named arg1 =
    if same_text arg1 (b'.' ∷ b'd' ∷ b'a' ∷ b't' ∷ b'a' ∷ [])
    then some 1
    else if same_text arg1 (b'.' ∷ b't' ∷ b'e' ∷ b'x' ∷ b't' ∷ [])
        || same_text arg1 (b'.' ∷ b't' ∷ b'x' ∷ b't' ∷ [])
    then some 0
    else none

-- What a line asks for, its label aside.
unfoldable pub statement : Line → Statement
statement line =
    let instruction = map to_lower line.instruction in
    if length line.instruction == 0
    then nothing
    else if same_text instruction (b's' ∷ b'e' ∷ b'c' ∷ b't' ∷ b'i' ∷ b'o' ∷ b'n' ∷ [])
    then directive (section_named line.arg1)
    else operation (mnemonic instruction) line.arg1 line.arg2

-- `if (*linePointer == ';' || *linePointer == '#') continue;`
unfoldable pub is_comment : List ℕ → Bool
is_comment [] = false
is_comment (c ∷ rest) = c == b';' || c == b'#'

-- The globals that the first pass changes.
pub record First : Type 0 where
  pub labels : List LabelEntry
  pub section : ℕ
  pub code_offset : ℕ
  pub data_offset : ℕ

-- A label that is not known yet gets the offset reached in its section.
unfoldable pub record_label : Line → First → First
record_label line s =
    let address = if s.section == 0 then s.code_offset else s.data_offset in
    elim (find_label s.labels line.label_name) [
      | some l ↦ s
      | none ↦
          if line.is_label
          then record s { labels = add_label line.label_name address s.section s.labels }
          else s
    ]

unfoldable pub count_statement : Statement → First → First
count_statement nothing s = s
count_statement (directive none) s = s
count_statement (directive (some section)) s = record s { section = section }
count_statement (operation m arg1 arg2) s =
    let size = get_instruction_size m arg1 arg2 in
    if s.section == 0
    then record s { code_offset = s.code_offset + size }
    else if s.section == 1
    then record s { data_offset = s.data_offset + size }
    else s

-- The body of the loop of `firstPass`.
unfoldable pub first_line : List ℕ → First → First
first_line text s =
    let line = parse_line text in
    if is_comment text then s else count_statement (statement line) (record_label line s)

unfoldable pub first_lines : List (List ℕ) → First → First
first_lines [] s = s
first_lines (text ∷ rest) s = first_lines rest (first_line text s)

abbrev pub first_start : First
first_start = record { labels = []; section = 0; code_offset = 0; data_offset = 0 }

unfoldable pub first_pass : List ℕ → First
first_pass input = first_lines (source_lines (length input) input) first_start

-- The globals that the second pass changes.
pub record Second : Type 0 where
  pub section : ℕ
  pub code : List ℕ
  pub data_bytes : List ℕ
  pub address : ℕ
  pub external : Bool

abbrev pub max_code : ℕ
max_code = 4096

unfoldable pub emit_byte : ℕ → Second → Second
emit_byte b s =
    if s.section == 0
    then if ltb (length s.code) max_code
      then record s { code = s.code ++ b ∷ []; address = s.address + 1 }
      else s
    else if s.section == 1
    then if ltb (length s.data_bytes) max_code
      then record s { data_bytes = s.data_bytes ++ b ∷ [] }
      else s
    else s

unfoldable pub emit_bytes : List ℕ → Second → Second
emit_bytes [] s = s
emit_bytes (b ∷ bytes) s = emit_bytes bytes (emit_byte b s)

module _ (labels : List LabelEntry) (table : JumpTable) (code_section_offset : ℕ) where
  -- A call of a function that is no label needs the library.
  unfoldable pub is_external : Mnemonic → List ℕ → Bool
  is_external call [] = false
  is_external call (c ∷ arg1) = elim (parse_register_index (c ∷ arg1)) [
    | some index ↦ false
    | none ↦ elim (find_label labels (c ∷ arg1)) [ some l ↦ false | none ↦ true ]
  ]
  is_external m arg1 = false

  unfoldable pub emit_statement : Statement → Second → Second
  emit_statement nothing s = s
  emit_statement (directive none) s = s
  emit_statement (directive (some section)) s = record s { section = section }
  emit_statement (operation m arg1 arg2) s =
      let bytes = encode labels table code_section_offset s.section s.address m arg1 arg2 in
      emit_bytes bytes (record s { external = s.external || is_external m arg1 })

  -- The body of the loop of `secondPass`.
  unfoldable pub second_line : List ℕ → Second → Second
  second_line text s = if is_comment text then s else emit_statement (statement (parse_line text)) s

  unfoldable pub second_lines : List (List ℕ) → Second → Second
  second_lines [] s = s
  second_lines (text ∷ rest) s = second_lines rest (second_line text s)

abbrev pub second_start : Second
second_start = record { section = 0; code = []; data_bytes = []; address = 0; external = false }

-- Both passes, as `main` runs them.
unfoldable pub assemble : JumpTable → List ℕ → First × Second
assemble table input =
    let first = first_pass input in
    (
      first,
      second_lines first.labels table first.code_offset (source_lines (length input) input)
          second_start,
    )
