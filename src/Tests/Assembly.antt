-- ===== src/Tests/Assembly.antt =====
-- A small program through the passes of al.cpp.
use ikan_osv5_student.Prelude.{ℕ, ◌≡◌, List, [], ◌∷◌, ◌++◌, some, true, false, refl, arith, length}
use ikan_osv5_student.Assembler.Operands.{
  LabelEntry, find_label, count_labels, append_label, add_label, JumpTable, find_lib_function,
  register_names, register_loop, parse_register_index, digit_of, immediate_loop, unsigned_value,
  parse_immediate_value, last_is_bracket, is_memory_operand, fits_byte, get_imm_bytes,
}
use ikan_osv5_student.Libc.Strings.{same_text}
use ikan_osv5_student.Assembler.Lines.{
  take_until, bounded, take_quoted, take_argument, parse_second, parse_arguments, parse_instruction,
  parse_rest, parse_line, next_line_at, get_next_line, source_lines,
}
use ikan_osv5_student.Assembler.Sizes.{
  jle, mnemonic, move_size, if_given, get_instruction_size, mov,
}
use ikan_osv5_student.Assembler.Encoding.{
  dword, immediate_or_label, encode_mov, encode_jump, both_given, one_given, encode,
}
use ikan_osv5_student.Assembler.Encoding.Agreement.{
  is_register, is_given, is_supported, length-encode,
}
use ikan_osv5_student.Assembler.Encoding.Jumps.{
  condition_of, decode_jump, decode_jump-encode, when_less_or_equal,
}
use ikan_osv5_student.Assembler.Passes.{
  section_named, statement, is_comment, record_label, count_statement, first_line, first_lines,
  first_start, first_pass, emit_byte, emit_bytes, is_external, emit_statement, second_line,
  second_lines, assemble,
}
use ikan_osv5_student.Assembler.Passes.Addresses.{
  statement_supported, line_supported, lines_supported,
}
use ikan_osv5_student.Assembler.Passes.Resolution.{IsDefinition, find_label-first_pass}
use ikan_osv5_student.Assembler.Elf.{padded_section, header_page}
use ikan_osv5_student.Libc.Numbers.{is_space, skip_whitespace, to_lower, is_digit}

abbrev a_label : List ℕ
a_label = b'a' ∷ []

-- `a:mov eax,5`
abbrev move_line : List ℕ
move_line = b'a' ∷ b':' ∷ b'm' ∷ b'o' ∷ b'v' ∷ b' ' ∷ b'e' ∷ b'a' ∷ b'x' ∷ b',' ∷ b'5' ∷ []

-- `b:jmp a`
abbrev jump_line : List ℕ
jump_line = b'b' ∷ b':' ∷ b'j' ∷ b'm' ∷ b'p' ∷ b' ' ∷ b'a' ∷ []

abbrev program : List ℕ
program = move_line ++ (b'\n' ∷ (jump_line ++ (b'\n' ∷ [])))

abbrev eax : List ℕ
eax = b'e' ∷ b'a' ∷ b'x' ∷ []

-- `[ebp-4]`
abbrev local : List ℕ
local = b'[' ∷ b'e' ∷ b'b' ∷ b'p' ∷ b'-' ∷ b'4' ∷ b']' ∷ []

abbrev five : List ℕ
five = b'5' ∷ []

abbrev one_label : List LabelEntry
one_label = record { name = a_label; address = 3; section = 0 } ∷ []

abbrev library : JumpTable
library = (b'f' ∷ [], 0x800) ∷ []

program_lines : source_lines 20 program ≡ move_line ∷ jump_line ∷ []
unfolding source_lines get_next_line next_line_at skip_whitespace is_space take_until
program_lines = refl

program_code :
    (assemble library program).1.code ≡ 0xB8 ∷ 5 ∷ 0 ∷ 0 ∷ 0 ∷ 0xE9 ∷ 0xF6 ∷ 0xFF ∷ 0xFF ∷ 0xFF ∷ []
unfolding assemble first_pass first_lines first_line record_label add_label append_label
    count_labels count_statement get_instruction_size move_size if_given source_lines get_next_line
    next_line_at skip_whitespace is_space take_until parse_line parse_rest parse_instruction
    parse_arguments parse_second bounded take_argument take_quoted same_text find_label
    parse_register_index register_loop register_names parse_immediate_value unsigned_value
    immediate_loop digit_of to_lower is_digit is_memory_operand last_is_bracket get_imm_bytes
    fits_byte statement section_named mnemonic is_comment second_lines second_line emit_statement
    emit_bytes emit_byte is_external encode encode_mov encode_jump immediate_or_label
    find_lib_function dword both_given one_given
program_code = refl

supported : is_supported one_label library 0 mov eax local ≡ true
unfolding is_supported is_given is_register same_text find_label parse_register_index register_loop
    register_names parse_immediate_value unsigned_value immediate_loop digit_of to_lower is_digit
    is_memory_operand last_is_bracket get_imm_bytes fits_byte
supported = refl

length-encode_example :
    length (encode one_label library 9 0 20 mov eax local) ≡ get_instruction_size mov eax local
length-encode_example = length-encode one_label library 9 0 20 mov eax local supported

memory : is_memory_operand local ≡ true
unfolding is_memory_operand last_is_bracket
memory = refl

refl_given : is_given five ≡ true
unfolding is_given
refl_given = refl

no_register : is_register local ≡ false
unfolding is_register same_text find_label parse_register_index register_loop register_names
    parse_immediate_value unsigned_value immediate_loop digit_of to_lower is_digit is_memory_operand
    last_is_bracket get_imm_bytes fits_byte
no_register = refl

no_digit_register : is_register five ≡ false
unfolding is_register same_text find_label parse_register_index register_loop register_names
    parse_immediate_value unsigned_value immediate_loop digit_of to_lower is_digit is_memory_operand
    last_is_bracket get_imm_bytes fits_byte
no_digit_register = refl

small : get_imm_bytes (parse_immediate_value five) ≡ 1
unfolding same_text find_label parse_register_index register_loop register_names
    parse_immediate_value unsigned_value immediate_loop digit_of to_lower is_digit is_memory_operand
    last_is_bracket get_imm_bytes fits_byte
small = refl

label_found :
    find_label one_label a_label ≡ some (record { name = a_label; address = 3; section = 0 })
unfolding find_label same_text
label_found = refl

jumps_back : condition_of jle ≡ some when_less_or_equal
unfolding condition_of
jumps_back = refl

decode_jump-encode_example :
    decode_jump 7 (encode one_label library 9 0 7 jle a_label []) ≡ some (when_less_or_equal, 3)
decode_jump-encode_example =
    decode_jump-encode one_label library 9 jle when_less_or_equal 0 7 b'a' [] []
      (record { name = a_label; address = 3; section = 0 }) jumps_back label_found (omega arith)

abbrev program_bytes : List ℕ
program_bytes = 0xB8 ∷ 5 ∷ 0 ∷ 0 ∷ 0 ∷ 0xE9 ∷ 0xF6 ∷ 0xFF ∷ 0xFF ∷ 0xFF ∷ []

abbrev image : List ℕ
image = header_page false 10 0 0 ++ (padded_section program_bytes ++ padded_section [])

jump_line-IsDefinition : IsDefinition jump_line (first_lines (move_line ∷ []) first_start)
unfolding assemble first_pass first_lines first_line record_label add_label append_label
    count_labels count_statement get_instruction_size move_size if_given source_lines get_next_line
    next_line_at skip_whitespace is_space take_until parse_line parse_rest parse_instruction
    parse_arguments parse_second bounded take_argument take_quoted same_text find_label
    parse_register_index register_loop register_names parse_immediate_value unsigned_value
    immediate_loop digit_of to_lower is_digit is_memory_operand last_is_bracket get_imm_bytes
    fits_byte statement section_named mnemonic is_comment second_lines second_line emit_statement
    emit_bytes emit_byte is_external encode encode_mov encode_jump immediate_or_label
    find_lib_function dword both_given one_given
jump_line-IsDefinition = record {
  no_comment = refl;
  labelled = refl;
  unknown = refl;
  room = omega arith;
}

move_line_supported :
    lines_supported (first_pass program).labels library (move_line ∷ []) first_start ≡ true
unfolding lines_supported line_supported statement_supported is_supported is_given is_register
    assemble first_pass first_lines first_line record_label add_label append_label count_labels
    count_statement get_instruction_size move_size if_given source_lines get_next_line next_line_at
    skip_whitespace is_space take_until parse_line parse_rest parse_instruction parse_arguments
    parse_second bounded take_argument take_quoted same_text find_label parse_register_index
    register_loop register_names parse_immediate_value unsigned_value immediate_loop digit_of
    to_lower is_digit is_memory_operand last_is_bracket get_imm_bytes fits_byte statement
    section_named mnemonic is_comment second_lines second_line emit_statement emit_bytes emit_byte
    is_external encode encode_mov encode_jump immediate_or_label find_lib_function dword both_given
    one_given
move_line_supported = refl

first_offsets :
    ((first_lines (move_line ∷ []) first_start).code_offset ≡ 5)
    × ((first_lines (move_line ∷ []) first_start).data_offset ≡ 0)
unfolding assemble first_pass first_lines first_line record_label add_label append_label
    count_labels count_statement get_instruction_size move_size if_given source_lines get_next_line
    next_line_at skip_whitespace is_space take_until parse_line parse_rest parse_instruction
    parse_arguments parse_second bounded take_argument take_quoted same_text find_label
    parse_register_index register_loop register_names parse_immediate_value unsigned_value
    immediate_loop digit_of to_lower is_digit is_memory_operand last_is_bracket get_imm_bytes
    fits_byte statement section_named mnemonic is_comment second_lines second_line emit_statement
    emit_bytes emit_byte is_external encode encode_mov encode_jump immediate_or_label
    find_lib_function dword both_given one_given
first_offsets = (refl, refl)

find_label-first_pass_example :
    find_label (first_pass program).labels (b'b' ∷ [])
    ≡ some (record { name = b'b' ∷ []; address = 5; section = 0 })
unfolding assemble first_pass first_lines first_line record_label add_label append_label
    count_labels count_statement get_instruction_size move_size if_given source_lines get_next_line
    next_line_at skip_whitespace is_space take_until parse_line parse_rest parse_instruction
    parse_arguments parse_second bounded take_argument take_quoted same_text find_label
    parse_register_index register_loop register_names parse_immediate_value unsigned_value
    immediate_loop digit_of to_lower is_digit is_memory_operand last_is_bracket get_imm_bytes
    fits_byte statement section_named mnemonic is_comment second_lines second_line emit_statement
    emit_bytes emit_byte is_external encode encode_mov encode_jump immediate_or_label
    find_lib_function dword both_given one_given
find_label-first_pass_example =
    find_label-first_pass library program (move_line ∷ []) jump_line [] program_lines
      jump_line-IsDefinition move_line_supported (omega (arith, first_offsets.0))
      (omega (arith, first_offsets.1))
