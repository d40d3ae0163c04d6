-- ===== src/Assembler/Encoding/Agreement.antt =====
-- The sizes of the first pass of al.cpp against the bytes of the second.
use ikan_osv5_student.Prelude.{
  ℕ, ◌+◌, ◌≡◌, Bool, true, false, ◌&&◌, ◌||◌, not, List, [], ◌∷◌, none, some, ◌==◌, if◌then◌else◌,
  arith, refl, length, length-append, Option-cases, inl, inr, ◌⊎◌,
}
use ikan_osv5_student.Assembler.Operands.{
  LabelEntry, find_label, JumpTable, find_lib_function, parse_register_index, parse_immediate_value,
  is_memory_operand, get_disp_bytes, get_imm_bytes,
}
use ikan_osv5_student.Assembler.Sizes.{
  Mnemonic, db, mov, add, sub, cmp, jmp, call, jne, jle, jge, int, pusha, popa, push, pop, ret,
  other, disp_bytes, move_size, compare_size, call_size, if_given, get_instruction_size,
  immediate_size,
}
use ikan_osv5_student.Assembler.Encoding.{
  dword, displacement, with_memory, immediate, narrow_or_wide, encode_mov, encode_arithmetic,
  encode_cmp, encode_jump, encode_call, quoted_text, encode_db, both_given, one_given, one_register,
  encode, immediate_or_label,
}

-- The argument is a register.
unfoldable pub is_register : List ℕ → Bool
is_register arg = elim (parse_register_index arg) [ some index ↦ true | none ↦ false ]

-- The text ends with the quote that it contains first.
unfoldable pub is_quoted : List ℕ → Bool
is_quoted [] = false
is_quoted (c ∷ rest) = if c == b'\'' then length rest == 0 else is_quoted rest

unfoldable pub is_given : List ℕ → Bool
is_given [] = false
is_given (c ∷ arg) = true

unfoldable pub is_known : List LabelEntry → List ℕ → Bool
is_known labels name = elim (find_label labels name) [ some l ↦ true | none ↦ false ]

-- The instructions for which both passes agree, the kinds of their operands being known.
module _ (labels : List LabelEntry) (table : JumpTable) where
  unfoldable pub is_supported : ℕ → Mnemonic → List ℕ → List ℕ → Bool
  is_supported section db [] arg2 = true
  is_supported section db (c ∷ rest) arg2 = section == 1 && (c == b'\'' && is_quoted rest)
  is_supported section mov arg1 arg2 =
      is_given arg1
      && (is_given arg2
          && (is_register arg1
              || (is_register arg2 || get_imm_bytes (parse_immediate_value arg2) == 4)))
  is_supported section add arg1 arg2 =
      is_given arg1 && (is_given arg2 && (is_register arg1 || not (is_register arg2)))
  is_supported section sub arg1 arg2 =
      is_given arg1 && (is_given arg2 && (is_register arg1 || not (is_register arg2)))
  is_supported section cmp arg1 arg2 = is_given arg1 && is_given arg2
  is_supported section jmp arg1 arg2 = is_known labels arg1
  is_supported section jne arg1 arg2 = is_known labels arg1
  is_supported section jle arg1 arg2 = is_known labels arg1
  is_supported section jge arg1 arg2 = is_known labels arg1
  is_supported section call arg1 arg2 =
      is_register arg1 || (is_known labels arg1 || not (find_lib_function table arg1 == 0))
  is_supported section push arg1 arg2 = is_given arg1 && is_register arg1
  is_supported section pop arg1 arg2 = is_given arg1 && is_register arg1
  is_supported section m arg1 arg2 = true

length-dword : (n : ℕ) → length (dword n) ≡ 4
unfolding dword
length-dword n = refl

imm_bytes_cases : (n : ℕ) → length (immediate n) ≡ get_imm_bytes n
unfolding immediate get_imm_bytes dword
imm_bytes_cases n = ground arith

imm_bytes_range : (n : ℕ) → (get_imm_bytes n ≡ 1) ⊎ (get_imm_bytes n ≡ 4)
unfolding get_imm_bytes
imm_bytes_range n = ground arith

length-with_memory :
    (opcode reg : ℕ) (arg : List ℕ) → length (with_memory opcode reg arg) ≡ 2 + disp_bytes arg
unfolding with_memory displacement get_disp_bytes dword
length-with_memory opcode reg arg = ground arith

module _ (labels : List LabelEntry) (table : JumpTable) (offset : ℕ) where
  length-encode_mov :
      (arg1 arg2 : List ℕ)
      → (is_register arg1 || (is_register arg2 || get_imm_bytes (parse_immediate_value arg2) == 4))
        ≡ true
      → length (encode_mov labels table offset arg1 arg2) ≡ move_size 5 4 arg1 arg2
  unfolding encode_mov move_size is_register
  length-encode_mov arg1 arg2 h =
      let value : ℕ = parse_immediate_value arg2 in
      let opcode : ℕ = narrow_or_wide value 0xC6 0xC7 in
      elim (Option-cases (parse_register_index arg1)) [
        | inr (reg1, e1) ↦ elim (Option-cases (parse_register_index arg2)) [
          | inr (reg2, e2) ↦ ground arith
          | inl e2 ↦ ground (
            arith,
            length-dword (immediate_or_label labels table offset arg2),
            length-with_memory 0x8B reg1 arg2,
          )
        ]
        | inl e1 ↦ elim (Option-cases (parse_register_index arg2)) [
          | inr (reg2, e2) ↦ ground (arith, length-with_memory 0x89 reg2 arg1)
          | inl e2 ↦ ground (
            arith,
            imm_bytes_cases value,
            length-append {A = ℕ} (with_memory opcode 0 arg1) (immediate value),
            length-with_memory opcode 0 arg1,
          )
        ]
      ]

length-encode_arithmetic :
    (a b extension : ℕ) (arg1 arg2 : List ℕ)
    → (is_register arg1 || not (is_register arg2)) ≡ true
    → length (encode_arithmetic a b extension arg1 arg2)
      ≡ move_size (immediate_size arg2) (get_imm_bytes (parse_immediate_value arg2)) arg1 arg2
unfolding encode_arithmetic move_size is_register
length-encode_arithmetic a b extension arg1 arg2 h =
    let value : ℕ = parse_immediate_value arg2 in
    let opcode : ℕ = narrow_or_wide value 0x83 0x81 in
    elim (Option-cases (parse_register_index arg1)) [
      | inr (reg1, e1) ↦ elim (Option-cases (parse_register_index arg2)) [
        | inr (reg2, e2) ↦ ground arith
        | inl e2 ↦
            ground
              (arith, imm_bytes_cases value, imm_bytes_range value, length-with_memory b reg1 arg2)
      ]
      | inl e1 ↦ ground (
        arith,
        imm_bytes_cases value,
        length-append {A = ℕ} (with_memory opcode extension arg1) (immediate value),
        length-with_memory opcode extension arg1,
      )
    ]

length-encode_cmp : (arg1 arg2 : List ℕ) → length (encode_cmp arg1 arg2) ≡ compare_size arg1 arg2
unfolding encode_cmp compare_size
length-encode_cmp arg1 arg2 =
    let value : ℕ = parse_immediate_value arg2 in
    let opcode : ℕ = narrow_or_wide value 0x83 0x81 in
    elim (Option-cases (parse_register_index arg1)) [
      | inr (reg1, e1) ↦ ground (arith, imm_bytes_cases value, imm_bytes_range value)
      | inl e1 ↦ ground (
        arith,
        imm_bytes_cases value,
        length-append {A = ℕ} (with_memory opcode 7 arg1) (immediate value),
        length-with_memory opcode 7 arg1,
      )
    ]

length-quoted_text :
    (text : List ℕ) → is_quoted text ≡ true → length (quoted_text text) ≡ length text
unfolding quoted_text is_quoted
length-quoted_text [] h = absurd (ground arith)
length-quoted_text (c ∷ rest) h = ground (arith, length-quoted_text rest)

module _ (labels : List LabelEntry) (table : JumpTable) (offset : ℕ) where
  -- For every instruction whose operands `is_supported` accepts, the second pass emits as many
  -- bytes as the first pass counts for it.
  pub length-encode :
      (section address : ℕ) (m : Mnemonic) (arg1 arg2 : List ℕ)
      → is_supported labels table section m arg1 arg2 ≡ true
      → length (encode labels table offset section address m arg1 arg2)
        ≡ get_instruction_size m arg1 arg2
  unfolding encode get_instruction_size is_supported encode_db both_given one_given if_given
      encode_jump encode_call is_known call_size is_given one_register is_register dword
  length-encode section address db [] arg2 h = refl
  length-encode section address db (c ∷ rest) arg2 h = ground (arith, length-quoted_text rest)
  length-encode section address mov [] arg2 h = ground arith
  length-encode section address mov (c ∷ a) [] h = ground arith
  length-encode section address mov (c ∷ a) (d ∷ b) h =
      length-encode_mov labels table offset (c ∷ a) (d ∷ b) h
  length-encode section address add [] arg2 h = ground arith
  length-encode section address add (c ∷ a) [] h = ground arith
  length-encode section address add (c ∷ a) (d ∷ b) h =
      length-encode_arithmetic 0x01 0x03 0 (c ∷ a) (d ∷ b) h
  length-encode section address sub [] arg2 h = ground arith
  length-encode section address sub (c ∷ a) [] h = ground arith
  length-encode section address sub (c ∷ a) (d ∷ b) h =
      length-encode_arithmetic 0x29 0x2B 5 (c ∷ a) (d ∷ b) h
  length-encode section address cmp [] arg2 h = ground arith
  length-encode section address cmp (c ∷ a) [] h = ground arith
  length-encode section address cmp (c ∷ a) (d ∷ b) h = length-encode_cmp (c ∷ a) (d ∷ b)
  length-encode section address jmp [] arg2 h = refl
  length-encode section address jmp (c ∷ a) arg2 h = ground arith
  length-encode section address jne [] arg2 h = refl
  length-encode section address jne (c ∷ a) arg2 h = ground arith
  length-encode section address jle [] arg2 h = refl
  length-encode section address jle (c ∷ a) arg2 h = ground arith
  length-encode section address jge [] arg2 h = refl
  length-encode section address jge (c ∷ a) arg2 h = ground arith
  length-encode section address call [] arg2 h = refl
  length-encode section address call (c ∷ a) arg2 h = ground arith
  length-encode section address int [] arg2 h = refl
  length-encode section address int (c ∷ a) arg2 h = refl
  length-encode section address push [] arg2 h = absurd (ground arith)
  length-encode section address push (c ∷ a) arg2 h = ground arith
  length-encode section address pop [] arg2 h = absurd (ground arith)
  length-encode section address pop (c ∷ a) arg2 h = ground arith
  length-encode section address pusha arg1 arg2 h = refl
  length-encode section address popa arg1 arg2 h = refl
  length-encode section address ret arg1 arg2 h = refl
  length-encode section address other arg1 arg2 h = refl

  -- A `mov` of a number that fits in a byte to memory is counted three bytes longer by the first
  -- pass than what the second pass emits.
  pub mov_byte_to_memory :
      (section address : ℕ) (arg1 arg2 : List ℕ)
      → is_memory_operand arg1 ≡ true
      → is_given arg2 ≡ true
      → is_register arg1 ≡ false
      → is_register arg2 ≡ false
      → get_imm_bytes (parse_immediate_value arg2) ≡ 1
      → length (encode labels table offset section address mov arg1 arg2) + 3
        ≡ get_instruction_size mov arg1 arg2
  unfolding encode get_instruction_size both_given encode_mov move_size is_register
      is_memory_operand is_given
  mov_byte_to_memory section address [] arg2 m g r1 r2 small = absurd (ground arith)
  mov_byte_to_memory section address (c ∷ a) [] m g r1 r2 small = absurd (ground arith)
  mov_byte_to_memory section address (c ∷ a) (d ∷ b) m g r1 r2 small =
      let value : ℕ = parse_immediate_value (d ∷ b) in
      let opcode : ℕ = narrow_or_wide value 0xC6 0xC7 in
      ground (
        arith,
        imm_bytes_cases value,
        length-append {A = ℕ} (with_memory opcode 0 (c ∷ a)) (immediate value),
        length-with_memory opcode 0 (c ∷ a),
      )
