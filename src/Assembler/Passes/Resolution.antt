-- ===== src/Assembler/Passes/Resolution.antt =====
-- The addresses of labels in al.cpp: what the first pass records is where the second pass arrives.
use ikan_osv5_student.Prelude.{
  ℕ, ◌≤◌, ◌<◌, ◌≡◌, ◌∙◌, inl, inr, true, false, List, [], ◌∷◌, ◌++◌, none, some, ◌==◌,
  if◌then◌else◌, arith, refl, ap, ap₂, length, Bool-cases,
}
use ikan_osv5_student.Assembler.Operands.{
  LabelEntry, JumpTable, find_label, append_label, add_label, count_labels, max_labels,
}
use ikan_osv5_student.Libc.Strings.{same_text, same_text_refl}
use ikan_osv5_student.Assembler.Lines.{Line, parse_line, source_lines}
use ikan_osv5_student.Assembler.Passes.{
  Statement, nothing, directive, operation, statement, is_comment, First, record_label,
  count_statement, first_line, first_lines, first_start, first_pass, Second, max_code, second_line,
  second_lines, second_start,
}
use ikan_osv5_student.Assembler.Passes.Addresses.{
  Agree, line_supported, lines_supported, line-Agree, record_label-same,
}

count_statement_grows :
    (st : Statement) (f : First)
    → (f.code_offset ≤ (count_statement st f).code_offset)
      × (f.data_offset ≤ (count_statement st f).data_offset)
      × ((count_statement st f).labels ≡ f.labels)
unfolding count_statement
count_statement_grows nothing f = (omega arith, omega arith, refl)
count_statement_grows (directive none) f = (omega arith, omega arith, refl)
count_statement_grows (directive (some section)) f = (omega arith, omega arith, refl)
count_statement_grows (operation m arg1 arg2) f = ground arith

-- A label that was found is found again when others have been added.
find_label-append :
    (labels : List LabelEntry) (new : LabelEntry) (name : List ℕ) (l : LabelEntry)
    → find_label labels name ≡ some l
    → find_label (append_label labels new) name ≡ some l
unfolding find_label append_label
find_label-append [] new name l h = absurd (ground arith)
find_label-append (m ∷ labels) new name l h = elim (Bool-cases (same_text m.name name)) [
  | inl same ↦ ground arith
  | inr differs ↦ ground (arith, find_label-append labels new name l)
]

find_label-append_new :
    (labels : List LabelEntry) (new : LabelEntry)
    → find_label labels new.name ≡ none
    → find_label (append_label labels new) new.name ≡ some new
unfolding find_label append_label
find_label-append_new [] new h = ground (arith, same_text_refl new.name)
find_label-append_new (m ∷ labels) new h = elim (Bool-cases (same_text m.name new.name)) [
  | inl same ↦ absurd (ground arith)
  | inr differs ↦ ground (arith, find_label-append_new labels new)
]

record_label_keeps :
    (line : Line) (f : First) (name : List ℕ) (l : LabelEntry)
    → find_label f.labels name ≡ some l
    → find_label (record_label line f).labels name ≡ some l
unfolding record_label add_label
record_label_keeps line f name l h =
    let address : ℕ = if f.section == 0 then f.code_offset else f.data_offset in
    let new : LabelEntry = record {
      name = line.label_name;
      address = address;
      section = f.section;
    } in
    ground (arith, find_label-append f.labels new name l h)

first_line_keeps :
    (text : List ℕ) (f : First) (name : List ℕ) (l : LabelEntry)
    → find_label f.labels name ≡ some l
    → find_label (first_line text f).labels name ≡ some l
unfolding first_line
first_line_keeps text f name l h =
    let line : Line = parse_line text in
    ground (
      arith,
      record_label_keeps line f name l h,
      (count_statement_grows (statement line) (record_label line f)).2,
    )

first_lines_keep :
    (lines : List (List ℕ)) (f : First) (name : List ℕ) (l : LabelEntry)
    → find_label f.labels name ≡ some l
    → find_label (first_lines lines f).labels name ≡ some l
unfolding first_lines
first_lines_keep [] f name l h = h
first_lines_keep (text ∷ rest) f name l h =
    first_lines_keep rest (first_line text f) name l (first_line_keeps text f name l h)

first_line_grows :
    (text : List ℕ) (f : First)
    → (f.code_offset ≤ (first_line text f).code_offset)
      × (f.data_offset ≤ (first_line text f).data_offset)
unfolding first_line
first_line_grows text f =
    let line : Line = parse_line text in
    let (e1, e2, e3) = record_label-same line f in
    let (g1, g2, g3) = count_statement_grows (statement line) (record_label line f) in ground arith

first_lines_grow :
    (lines : List (List ℕ)) (f : First)
    → (f.code_offset ≤ (first_lines lines f).code_offset)
      × (f.data_offset ≤ (first_lines lines f).data_offset)
unfolding first_lines
first_lines_grow [] f = (omega arith, omega arith)
first_lines_grow (text ∷ rest) f =
    let (g1, g2) = first_line_grows text f in
    let (h1, h2) = first_lines_grow rest (first_line text f) in (omega arith, omega arith)

first_lines-append :
    (before after : List (List ℕ)) (f : First)
    → first_lines (before ++ after) f ≡ first_lines after (first_lines before f)
unfolding first_lines
first_lines-append [] after f = refl
first_lines-append (text ∷ before) after f = first_lines-append before after (first_line text f)

module _ (labels : List LabelEntry) (table : JumpTable) (offset : ℕ) where
  -- Over supported lines that fit the buffers, both passes stay in agreement.
  pub first_lines-second_lines :
      (lines : List (List ℕ)) (f : First) (s : Second)
      → Agree f s
      → lines_supported labels table lines f ≡ true
      → (first_lines lines f).code_offset ≤ max_code
      → (first_lines lines f).data_offset ≤ max_code
      → Agree (first_lines lines f) (second_lines labels table offset lines s)
  unfolding first_lines second_lines lines_supported
  first_lines-second_lines [] f s a h c1 c2 = a
  first_lines-second_lines (text ∷ rest) f s a h c1 c2 =
      let (g1, g2) = first_lines_grow rest (first_line text f) in
      let ok : line_supported labels table f.section text ≡ true = ground arith in
      first_lines-second_lines rest (first_line text f) (second_line labels table offset text s)
        (line-Agree labels table offset text f s a ok (omega arith) (omega arith)) (ground arith) c1
        c2

start-Agree : Agree first_start second_start
start-Agree = record {
  sections = refl;
  one_of_two = inl refl;
  code = refl;
  emitted = refl;
  data_part = refl;
}

-- A line that defines a label which is not known yet.
pub record IsDefinition (text : List ℕ) (f : First) : Type 0 where
  pub no_comment : is_comment text ≡ false
  pub labelled : (parse_line text).is_label ≡ true
  pub unknown : find_label f.labels (parse_line text).label_name ≡ none
  pub room : count_labels f.labels < max_labels

first_line-definition :
    (text : List ℕ) (f : First)
    → IsDefinition text f
    → find_label (first_line text f).labels (parse_line text).label_name
      ≡ some (record {
        name = (parse_line text).label_name;
        address = if f.section == 0 then f.code_offset else f.data_offset;
        section = f.section;
      })
unfolding first_line record_label add_label
first_line-definition text f d =
    let line : Line = parse_line text in
    let address : ℕ = if f.section == 0 then f.code_offset else f.data_offset in
    let new : LabelEntry = record {
      name = line.label_name;
      address = address;
      section = f.section;
    } in
    ground (
      arith,
      d.no_comment,
      d.labelled,
      d.unknown,
      d.room,
      find_label-append_new f.labels new d.unknown,
      (count_statement_grows (statement line) (record_label line f)).2,
    )

module _ (table : JumpTable) (input : List ℕ) (before : List (List ℕ)) (text : List ℕ)
    (after : List (List ℕ)) where
  abbrev pub first : First
  first = first_lines before first_start

  abbrev pub second : Second
  second =
      second_lines (first_pass input).labels table (first_pass input).code_offset before
        second_start

  -- Where a line defines a label that is not known yet, the lines before it are supported, and the
  -- code and data before it fit the buffers, the label's final entry has the number of bytes that
  -- the second pass has emitted in that section when it reaches the line.
  pub find_label-first_pass :
      source_lines (length input) input ≡ before ++ (text ∷ after)
      → IsDefinition text first
      → lines_supported (first_pass input).labels table before first_start ≡ true
      → first.code_offset ≤ max_code
      → first.data_offset ≤ max_code
      → find_label (first_pass input).labels (parse_line text).label_name
        ≡ some (record {
          name = (parse_line text).label_name;
          address = if second.section == 0 then length second.code else length second.data_bytes;
          section = second.section;
        })
  unfolding first_pass first_lines
  find_label-first_pass split d supported c1 c2 =
      let a =
        first_lines-second_lines (first_pass input).labels table (first_pass input).code_offset
          before first_start second_start start-Agree supported c1 c2 in
      let found =
        first_lines_keep after (first_line text first) (parse_line text).label_name _
          (first_line-definition text first d) in
      let whole : (first_pass input).labels ≡ (first_lines after (first_line text first)).labels =
        ap (λ lines. (first_lines lines first_start).labels) split
        ∙ ap (λ x. x.labels) (first_lines-append before (text ∷ after) first_start) in
      let address : (if first.section == 0 then first.code_offset else first.data_offset)
          ≡ (if second.section == 0 then length second.code else length second.data_bytes) =
        ground (arith, a.sections, a.code, a.emitted, a.data_part) in
      ap (λ labels. find_label labels (parse_line text).label_name) whole
      ∙ (found
          ∙ ap₂
              (λ n section.
                some
                  (record { name = (parse_line text).label_name; address = n; section = section }))
              address a.sections)
