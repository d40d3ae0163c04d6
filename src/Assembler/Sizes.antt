-- ===== src/Assembler/Sizes.antt =====
-- `getInstructionSize` of al.cpp, and the instructions that both passes tell apart.
use ikan_osv5_student.Prelude.{ℕ, ◌+◌, ◌-◌, ◌==◌, List, [], ◌∷◌, none, some, if◌then◌else◌, length}
use ikan_osv5_student.Assembler.Operands.{
  parse_register_index, parse_immediate_value, is_memory_operand, parse_memory_operand,
  get_disp_bytes, get_imm_bytes,
}
use ikan_osv5_student.Libc.Strings.{same_text}

pub data Mnemonic : Type 0 where
  db mov add sub cmp jmp call jne jle jge int pusha popa push pop ret other : Mnemonic

-- The chain of comparisons of an instruction with the mnemonics, which exclude each other.
unfoldable pub mnemonic : List ℕ → Mnemonic
mnemonic text =
    if same_text text (b'd' ∷ b'b' ∷ [])
    then db
    else if same_text text (b'm' ∷ b'o' ∷ b'v' ∷ [])
    then mov
    else if same_text text (b'a' ∷ b'd' ∷ b'd' ∷ [])
    then add
    else if same_text text (b's' ∷ b'u' ∷ b'b' ∷ [])
    then sub
    else if same_text text (b'c' ∷ b'm' ∷ b'p' ∷ [])
    then cmp
    else if same_text text (b'j' ∷ b'm' ∷ b'p' ∷ [])
    then jmp
    else if same_text text (b'c' ∷ b'a' ∷ b'l' ∷ b'l' ∷ [])
    then call
    else if same_text text (b'j' ∷ b'n' ∷ b'e' ∷ [])
    then jne
    else if same_text text (b'j' ∷ b'l' ∷ b'e' ∷ [])
    then jle
    else if same_text text (b'j' ∷ b'g' ∷ b'e' ∷ [])
    then jge
    else if same_text text (b'i' ∷ b'n' ∷ b't' ∷ [])
    then int
    else if same_text text (b'p' ∷ b'u' ∷ b's' ∷ b'h' ∷ b'a' ∷ [])
    then pusha
    else if same_text text (b'p' ∷ b'o' ∷ b'p' ∷ b'a' ∷ [])
    then popa
    else if same_text text (b'p' ∷ b'u' ∷ b's' ∷ b'h' ∷ [])
    then push
    else if same_text text (b'p' ∷ b'o' ∷ b'p' ∷ [])
    then pop
    else if same_text text (b'r' ∷ b'e' ∷ b't' ∷ [])
    then ret
    else other

abbrev pub disp_bytes : List ℕ → ℕ
disp_bytes arg = let (base, offset) = parse_memory_operand arg in get_disp_bytes offset base

-- 3 bytes with a byte as immediate value, 6 with four.
abbrev pub immediate_size : List ℕ → ℕ
immediate_size arg = if get_imm_bytes (parse_immediate_value arg) == 1 then 3 else 6

-- `mov`, `add` and `sub`, with the size of a register and an immediate value, and of the immediate
-- value that goes to memory.
unfoldable pub move_size : ℕ → ℕ → List ℕ → List ℕ → ℕ
move_size register_immediate imm_bytes arg1 arg2 = elim (parse_register_index arg1) [
  | some reg1 ↦ elim (parse_register_index arg2) [
    | some reg2 ↦ 2
    | none ↦ if is_memory_operand arg2 then 2 + disp_bytes arg2 else register_immediate
  ]
  | none ↦
      let to_memory : ℕ = elim (parse_register_index arg2) [
        | some reg2 ↦ 2 + disp_bytes arg1
        | none ↦ 2 + disp_bytes arg1 + imm_bytes
      ] in
      if is_memory_operand arg1 then to_memory else 0
]

unfoldable pub compare_size : List ℕ → List ℕ → ℕ
compare_size arg1 arg2 = elim (parse_register_index arg1) [
  | some reg1 ↦ elim (parse_register_index arg2) [ some reg2 ↦ 2 | none ↦ immediate_size arg2 ]
  | none ↦
      if is_memory_operand arg1
      then 2 + disp_bytes arg1 + get_imm_bytes (parse_immediate_value arg2)
      else 0
]

unfoldable pub call_size : List ℕ → ℕ
call_size arg1 = elim (parse_register_index arg1) [ some index ↦ 2 | none ↦ 5 ]

-- `if (arg[0]) size = ...`
unfoldable pub if_given : List ℕ → ℕ → ℕ
if_given [] size = 0
if_given (c ∷ arg) size = size

unfoldable pub get_instruction_size : Mnemonic → List ℕ → List ℕ → ℕ
get_instruction_size db arg1 arg2 = length arg1 - 1
get_instruction_size mov arg1 arg2 = move_size 5 4 arg1 arg2
get_instruction_size add arg1 arg2 =
    move_size (immediate_size arg2) (get_imm_bytes (parse_immediate_value arg2)) arg1 arg2
get_instruction_size sub arg1 arg2 =
    move_size (immediate_size arg2) (get_imm_bytes (parse_immediate_value arg2)) arg1 arg2
get_instruction_size cmp arg1 arg2 = compare_size arg1 arg2
get_instruction_size jmp arg1 arg2 = if_given arg1 5
get_instruction_size call arg1 arg2 = if_given arg1 (call_size arg1)
get_instruction_size jne arg1 arg2 = if_given arg1 6
get_instruction_size jle arg1 arg2 = if_given arg1 6
get_instruction_size jge arg1 arg2 = if_given arg1 6
get_instruction_size int arg1 arg2 = if_given arg1 2
get_instruction_size pusha arg1 arg2 = 1
get_instruction_size popa arg1 arg2 = 1
get_instruction_size push arg1 arg2 = 1
get_instruction_size pop arg1 arg2 = 1
get_instruction_size ret arg1 arg2 = 1
get_instruction_size other arg1 arg2 = 0
