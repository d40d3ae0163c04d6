-- ===== src/Assembler/Passes/Addresses.antt =====
-- The offsets that the first pass of al.cpp counts against the addresses that the second reaches.
use ikan_osv5_student.Prelude.{
  ℕ, ◌+◌, ◌≤◌, ◌<◌, ◌≡◌, ◌⊎◌, ◌∙◌, inl, inr, Bool, true, ◌&&◌, ◌||◌, List, [], ◌∷◌, ◌++◌, none,
  some, arith, refl, sym, ap, length, length-append, Bool-cases,
}
use ikan_osv5_student.Assembler.Operands.{LabelEntry, JumpTable}
use ikan_osv5_student.Assembler.Lines.{Line, parse_line}
use ikan_osv5_student.Assembler.Sizes.{Mnemonic, get_instruction_size}
use ikan_osv5_student.Assembler.Encoding.{encode}
use ikan_osv5_student.Assembler.Encoding.Agreement.{is_supported, length-encode}
use ikan_osv5_student.Assembler.Passes.{
  Statement, nothing, directive, operation, section_named, statement, is_comment, First,
  record_label, count_statement, first_line, Second, max_code, emit_byte, emit_bytes, is_external,
  emit_statement, second_line,
}

-- The states of both passes at the same line.
pub record Agree (f : First) (s : Second) : Type 0 where
  pub sections : f.section ≡ s.section
  pub one_of_two : (f.section ≡ 0) ⊎ (f.section ≡ 1)
  pub code : f.code_offset ≡ s.address
  pub emitted : length s.code ≡ s.address
  pub data_part : f.data_offset ≡ length s.data_bytes

emit_byte-code :
    (b : ℕ) (s : Second)
    → s.section ≡ 0
    → length s.code < max_code
    → emit_byte b s ≡ record s { code = s.code ++ b ∷ []; address = s.address + 1 }
unfolding emit_byte
emit_byte-code b s z h = ground arith

emit_byte-data :
    (b : ℕ) (s : Second)
    → s.section ≡ 1
    → length s.data_bytes < max_code
    → emit_byte b s ≡ record s { data_bytes = s.data_bytes ++ b ∷ [] }
unfolding emit_byte
emit_byte-data b s z h = ground arith

emit_bytes-code :
    (bytes : List ℕ) (s : Second)
    → s.section ≡ 0
    → length s.code + length bytes ≤ max_code
    → let s' = emit_bytes bytes s in
      (s'.section ≡ s.section)
      × (s'.address ≡ s.address + length bytes)
      × (length s'.code ≡ length s.code + length bytes)
      × (s'.data_bytes ≡ s.data_bytes)
unfolding emit_bytes
emit_bytes-code [] s z h = (refl, omega arith, omega arith, refl)
emit_bytes-code (b ∷ bytes) s z h =
    let s' : Second = record s { code = s.code ++ b ∷ []; address = s.address + 1 } in
    let one = length-append {A = ℕ} s.code (b ∷ []) in
    let (e1, e2, e3, e4) = emit_bytes-code bytes s' z (omega arith) in
    rw (emit_byte-code b s z (omega arith), emit_bytes) (e1, omega arith, omega arith, e4)

emit_bytes-data :
    (bytes : List ℕ) (s : Second)
    → s.section ≡ 1
    → length s.data_bytes + length bytes ≤ max_code
    → let s' = emit_bytes bytes s in
      (s'.section ≡ s.section)
      × (s'.address ≡ s.address)
      × (s'.code ≡ s.code)
      × (length s'.data_bytes ≡ length s.data_bytes + length bytes)
unfolding emit_bytes
emit_bytes-data [] s z h = (refl, refl, refl, omega arith)
emit_bytes-data (b ∷ bytes) s z h =
    let s' : Second = record s { data_bytes = s.data_bytes ++ b ∷ [] } in
    let one = length-append {A = ℕ} s.data_bytes (b ∷ []) in
    let (e1, e2, e3, e4) = emit_bytes-data bytes s' z (omega arith) in
    rw (emit_byte-data b s z (omega arith), emit_bytes) (e1, e2, e3, omega arith)

section_named_cases :
    (arg1 : List ℕ) (section : ℕ)
    → section_named arg1 ≡ some section
    → (section ≡ 0) ⊎ (section ≡ 1)
unfolding section_named
section_named_cases arg1 section h = ground arith

-- A directive names one of the two sections.
statement_cases :
    (line : Line) (section : ℕ)
    → statement line ≡ directive (some section)
    → (section ≡ 0) ⊎ (section ≡ 1)
unfolding statement
statement_cases line section h = section_named_cases line.arg1 section (ground arith)

-- What a label changes of the first pass's state.
pub record_label-same :
    (line : Line) (f : First)
    → ((record_label line f).section ≡ f.section)
      × ((record_label line f).code_offset ≡ f.code_offset)
      × ((record_label line f).data_offset ≡ f.data_offset)
unfolding record_label
record_label-same line f = ground arith

count_statement-code :
    (m : Mnemonic) (arg1 arg2 : List ℕ) (f : First)
    → f.section ≡ 0
    → count_statement (operation m arg1 arg2) f
      ≡ record f { code_offset = f.code_offset + get_instruction_size m arg1 arg2 }
unfolding count_statement
count_statement-code m arg1 arg2 f z = ground arith

count_statement-data :
    (m : Mnemonic) (arg1 arg2 : List ℕ) (f : First)
    → f.section ≡ 1
    → count_statement (operation m arg1 arg2) f
      ≡ record f { data_offset = f.data_offset + get_instruction_size m arg1 arg2 }
unfolding count_statement
count_statement-data m arg1 arg2 f z = ground arith

module _ (labels : List LabelEntry) (table : JumpTable) where
  unfoldable pub statement_supported : ℕ → Statement → Bool
  statement_supported section (operation m arg1 arg2) =
      is_supported labels table section m arg1 arg2
  statement_supported section _ = true

  unfoldable pub line_supported : ℕ → List ℕ → Bool
  line_supported section text =
      is_comment text || statement_supported section (statement (parse_line text))

  -- Every line is supported in the section that the first pass is in when it reaches it.
  unfoldable pub lines_supported : List (List ℕ) → First → Bool
  lines_supported [] f = true
  lines_supported (text ∷ rest) f =
      line_supported f.section text && lines_supported rest (first_line text f)

  module _ (offset : ℕ) where
    statement-Agree :
        (st : Statement) (f : First) (s : Second)
        → ((section : ℕ) → st ≡ directive (some section) → (section ≡ 0) ⊎ (section ≡ 1))
        → Agree f s
        → statement_supported f.section st ≡ true
        → (count_statement st f).code_offset ≤ max_code
        → (count_statement st f).data_offset ≤ max_code
        → Agree (count_statement st f) (emit_statement labels table offset st s)
    unfolding emit_statement statement_supported count_statement
    statement-Agree nothing f s d a h c1 c2 = a
    statement-Agree (directive none) f s d a h c1 c2 = a
    statement-Agree (directive (some section)) f s d a h c1 c2 = record {
      sections = refl;
      one_of_two = d section refl;
      code = a.code;
      emitted = a.emitted;
      data_part = a.data_part;
    }
    statement-Agree (operation m arg1 arg2) f s d a h c1 c2 =
        let bytes : List ℕ = encode labels table offset s.section s.address m arg1 arg2 in
        let s' : Second = record s {
          external = s.external || is_external labels table offset m arg1;
        } in
        let size =
          length-encode labels table offset s.section s.address m arg1 arg2
            (ground (arith, a.sections)) in
        elim a.one_of_two [
          | inl z ↦
              let e = count_statement-code m arg1 arg2 f z in
              let room : f.code_offset + get_instruction_size m arg1 arg2 ≤ max_code =
                rw (ap (λ x. x.code_offset) e) at c1 in
              let (e1, e2, e3, e4) =
                emit_bytes-code bytes s' (sym a.sections ∙ z)
                  (omega (arith, a.code, a.emitted, size)) in
              rw e (record {
                sections = a.sections ∙ sym e1;
                one_of_two = a.one_of_two;
                code = omega (arith, a.code, size, e2);
                emitted = omega (arith, a.emitted, size, e2, e3);
                data_part = a.data_part ∙ ap (λ x. length x) (sym e4);
              })
          | inr z ↦
              let e = count_statement-data m arg1 arg2 f z in
              let room : f.data_offset + get_instruction_size m arg1 arg2 ≤ max_code =
                rw (ap (λ x. x.data_offset) e) at c2 in
              let (e1, e2, e3, e4) =
                emit_bytes-data bytes s' (sym a.sections ∙ z) (omega (arith, a.data_part, size)) in
              rw e (record {
                sections = a.sections ∙ sym e1;
                one_of_two = a.one_of_two;
                code = a.code ∙ sym e2;
                emitted = ap (λ x. length x) e3 ∙ (a.emitted ∙ sym e2);
                data_part = omega (arith, a.data_part, size, e4);
              })
        ]

    pub line-Agree :
        (text : List ℕ) (f : First) (s : Second)
        → Agree f s
        → line_supported f.section text ≡ true
        → (first_line text f).code_offset ≤ max_code
        → (first_line text f).data_offset ≤ max_code
        → Agree (first_line text f) (second_line labels table offset text s)
    unfolding first_line second_line line_supported
    line-Agree text f s a h c1 c2 = elim (Bool-cases (is_comment text)) [
      | inl comment ↦ rw (comment, first_line, second_line) a
      | inr code ↦
          let line : Line = parse_line text in
          let (e1, e2, e3) = record_label-same line f in
          rw (code, first_line, second_line)
            (statement-Agree (statement line) (record_label line f) s (statement_cases line)
              (record {
                sections = e1 ∙ a.sections;
                one_of_two = rw e1 a.one_of_two;
                code = e2 ∙ a.code;
                emitted = a.emitted;
                data_part = e3 ∙ a.data_part;
              })
              (rw e1 (ground arith)) (ground arith) (ground arith))
    ]
