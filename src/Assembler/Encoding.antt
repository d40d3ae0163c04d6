-- ===== src/Assembler/Encoding.antt =====
-- The bytes that `secondPass` of al.cpp emits for an instruction.
pub mod Agreement
pub mod Jumps
use ikan_osv5_student.Prelude.{
  ℕ, ◌+◌, ◌-◌, ◌*◌, ◌/◌, ◌%◌, ◌^◌, Bool, true, false, List, [], ◌∷◌, ◌++◌, Option, none, some, ◌==◌,
  if◌then◌else◌, bit_or,
}
use ikan_osv5_student.Assembler.Operands.{
  w32, LabelEntry, find_label, JumpTable, find_lib_function, parse_register_index,
  parse_immediate_value, is_memory_operand, parse_memory_operand, get_disp_bytes, get_imm_bytes,
}
use ikan_osv5_student.Assembler.Sizes.{
  Mnemonic, db, mov, add, sub, cmp, jmp, call, jne, jle, jge, int, pusha, popa, push, pop, ret,
  other,
}

-- The bytes of `emitDword`.
unfoldable pub dword : ℕ → List ℕ
dword value =
    (value % 2 ^ 8)
    ∷ (value / 2 ^ 8 % 2 ^ 8)
    ∷ (value / 2 ^ 16 % 2 ^ 8)
    ∷ (value / 2 ^ 24 % 2 ^ 8)
    ∷ []

abbrev pub byte : ℕ → List ℕ
byte value = (value % 2 ^ 8) ∷ []

-- `0xC0 | (reg << 3) | rm`
abbrev pub registers : ℕ → ℕ → ℕ
registers reg rm = bit_or (bit_or 0xC0 (reg * 8)) rm % 2 ^ 8

-- `(mod << 6) | (reg << 3) | base`, with the mode that the displacement asks for.
unfoldable pub memory_byte : ℕ → ℕ → ℕ → ℕ
memory_byte disp_bytes reg base =
    let mode = if disp_bytes == 0 then 0 else if disp_bytes == 1 then 1 else 2 in
    bit_or (bit_or (mode * 2 ^ 6) (reg * 8)) base % 2 ^ 8

-- The displacement, of 0, 1 or 4 bytes.
unfoldable pub displacement : ℕ → ℕ → List ℕ
displacement disp_bytes offset =
    if disp_bytes == 1 then byte offset else if disp_bytes == 4 then dword offset else []

-- An opcode with a memory operand.
unfoldable pub with_memory : ℕ → ℕ → List ℕ → List ℕ
with_memory opcode reg arg =
    let (base, offset) = parse_memory_operand arg in
    let disp_bytes = get_disp_bytes offset base in
    opcode ∷ memory_byte disp_bytes reg base ∷ displacement disp_bytes offset

-- `getImmBytes(imm) == 1` decides between opcodes and between one and four bytes.
unfoldable pub immediate : ℕ → List ℕ
immediate value = if get_imm_bytes value == 1 then byte value else dword value

unfoldable pub narrow_or_wide : ℕ → ℕ → ℕ → ℕ
narrow_or_wide value narrow wide = if get_imm_bytes value == 1 then narrow else wide

-- What `mov` gives a register that gets neither a register nor memory: a label's address in the
-- image, a library function, or a number. The second argument is `codeSectionOffset`.
unfoldable pub immediate_or_label : List LabelEntry → JumpTable → ℕ → List ℕ → ℕ
immediate_or_label labels table code_section_offset arg2 = elim (find_label labels arg2) [
  | some l ↦ w32 (
      l.address
      + (if l.section == 0
          then 0x00402000
          else 0x00402000 + (code_section_offset + 4096 - 1) / 4096 * 4096))
  | none ↦
      let lib = find_lib_function table arg2 in if lib == 0 then parse_immediate_value arg2 else lib
]

unfoldable pub encode_mov : List LabelEntry → JumpTable → ℕ → List ℕ → List ℕ → List ℕ
encode_mov labels table code_section_offset arg1 arg2 = elim (parse_register_index arg1) [
  | some reg1 ↦ elim (parse_register_index arg2) [
    | some reg2 ↦ 0x89 ∷ registers reg2 reg1 ∷ []
    | none ↦
        let value = immediate_or_label labels table code_section_offset arg2 in
        if is_memory_operand arg2 then with_memory 0x8B reg1 arg2 else (0xB8 + reg1) ∷ dword value
  ]
  | none ↦
      let value = parse_immediate_value arg2 in
      let to_memory : List ℕ = elim (parse_register_index arg2) [
        | some reg2 ↦ with_memory 0x89 reg2 arg1
        | none ↦ with_memory (narrow_or_wide value 0xC6 0xC7) 0 arg1 ++ immediate value
      ] in
      if is_memory_operand arg1 then to_memory else []
]

-- `add` and `sub`: the opcodes for two registers and for a register and memory, and the digit of
-- the opcode extension. An immediate value is added to the register's byte, which is 0xC0 and the
-- extension.
unfoldable pub encode_arithmetic : ℕ → ℕ → ℕ → List ℕ → List ℕ → List ℕ
encode_arithmetic to_register from_memory extension arg1 arg2 =
    let value = parse_immediate_value arg2 in
    elim (parse_register_index arg1) [
      | some reg1 ↦ elim (parse_register_index arg2) [
        | some reg2 ↦ to_register ∷ registers reg2 reg1 ∷ []
        | none ↦
            if is_memory_operand arg2
            then with_memory from_memory reg1 arg2
            else narrow_or_wide value 0x83 0x81 ∷ (0xC0 + extension * 8 + reg1) ∷ immediate value
      ]
      | none ↦
          if is_memory_operand arg1
          then with_memory (narrow_or_wide value 0x83 0x81) extension arg1 ++ immediate value
          else []
    ]

unfoldable pub encode_cmp : List ℕ → List ℕ → List ℕ
encode_cmp arg1 arg2 =
    let value = parse_immediate_value arg2 in
    elim (parse_register_index arg1) [
      | some reg1 ↦ elim (parse_register_index arg2) [
        | some reg2 ↦ 0x39 ∷ registers reg2 reg1 ∷ []
        | none ↦ narrow_or_wide value 0x83 0x81 ∷ (0xF8 + reg1) ∷ immediate value
      ]
      | none ↦
          if is_memory_operand arg1
          then with_memory (narrow_or_wide value 0x83 0x81) 7 arg1 ++ immediate value
          else []
    ]

-- `target - (address + size)` as an `int`.
abbrev pub relative : ℕ → ℕ → ℕ → ℕ
relative target address size = w32 (target + 2 ^ 32 - w32 (address + size))

-- A jump with an opcode of `size - 4` bytes; nothing where the label is not known.
unfoldable pub encode_jump : List ℕ → ℕ → List LabelEntry → ℕ → List ℕ → List ℕ
encode_jump opcode size labels address arg1 = elim (find_label labels arg1) [
  | none ↦ []
  | some l ↦ opcode ++ dword (relative l.address address size)
]

unfoldable pub encode_call : List LabelEntry → JumpTable → ℕ → List ℕ → List ℕ
encode_call labels table address arg1 = elim (parse_register_index arg1) [
  | some index ↦ 0xFF ∷ registers 2 index ∷ []
  | none ↦ elim (find_label labels arg1) [
    | some l ↦ 0xE8 ∷ dword (relative l.address address 5)
    | none ↦
        let lib = find_lib_function table arg1 in
        if lib == 0 then [] else 0xE8 ∷ dword (relative lib (0x00402000 + address) 5)
  ]
]

-- The text between the quotes and a final zero.
unfoldable pub quoted_text : List ℕ → List ℕ
quoted_text [] = 0 ∷ []
quoted_text (c ∷ rest) = if c == b'\'' then 0 ∷ [] else c ∷ quoted_text rest

-- `db` emits in the data section only, and quoted text only.
unfoldable pub encode_db : ℕ → List ℕ → List ℕ
encode_db section [] = []
encode_db section (c ∷ rest) =
    let text = quoted_text rest in if section == 1 then if c == b'\'' then text else [] else []

-- `arg1[0] && arg2[0]`
unfoldable pub both_given : List ℕ → List ℕ → List ℕ → List ℕ
both_given [] arg2 bytes = []
both_given (c ∷ arg1) [] bytes = []
both_given (c ∷ arg1) (d ∷ arg2) bytes = bytes

unfoldable pub one_given : List ℕ → List ℕ → List ℕ
one_given [] bytes = []
one_given (c ∷ arg1) bytes = bytes

unfoldable pub one_register : ℕ → List ℕ → List ℕ
one_register opcode arg1 = elim (parse_register_index arg1) [
  | some index ↦ (opcode + index) ∷ []
  | none ↦ []
]

-- The bytes of an instruction at an address, in a section, with the labels, the library and the
-- code's size that the first pass found.
module _ (labels : List LabelEntry) (table : JumpTable) (code_section_offset : ℕ) where
  unfoldable pub encode : ℕ → ℕ → Mnemonic → List ℕ → List ℕ → List ℕ
  encode section address db arg1 arg2 = encode_db section arg1
  encode section address mov arg1 arg2 =
      both_given arg1 arg2 (encode_mov labels table code_section_offset arg1 arg2)
  encode section address add arg1 arg2 =
      both_given arg1 arg2 (encode_arithmetic 0x01 0x03 0 arg1 arg2)
  encode section address sub arg1 arg2 =
      both_given arg1 arg2 (encode_arithmetic 0x29 0x2B 5 arg1 arg2)
  encode section address cmp arg1 arg2 = both_given arg1 arg2 (encode_cmp arg1 arg2)
  encode section address jmp arg1 arg2 =
      one_given arg1 (encode_jump (0xE9 ∷ []) 5 labels address arg1)
  encode section address jne arg1 arg2 =
      one_given arg1 (encode_jump (0x0F ∷ 0x85 ∷ []) 6 labels address arg1)
  encode section address jle arg1 arg2 =
      one_given arg1 (encode_jump (0x0F ∷ 0x8E ∷ []) 6 labels address arg1)
  encode section address jge arg1 arg2 =
      one_given arg1 (encode_jump (0x0F ∷ 0x8D ∷ []) 6 labels address arg1)
  encode section address call arg1 arg2 = one_given arg1 (encode_call labels table address arg1)
  encode section address int arg1 arg2 =
      one_given arg1 (0xCD ∷ (parse_immediate_value arg1 % 2 ^ 8) ∷ [])
  encode section address pusha arg1 arg2 = 0x60 ∷ []
  encode section address popa arg1 arg2 = 0x61 ∷ []
  encode section address push arg1 arg2 = one_given arg1 (one_register 0x50 arg1)
  encode section address pop arg1 arg2 = one_given arg1 (one_register 0x58 arg1)
  encode section address ret arg1 arg2 = 0xC3 ∷ []
  encode section address other arg1 arg2 = []
