-- ===== src/Assembler/Operands.antt =====
-- Labels, registers, immediate values and memory operands of al.cpp. An `int` is its value modulo
-- 2^32; a string is the list of its bytes before the final zero.
use ikan_osv5_student.Prelude.{
  ℕ, suc, ◌+◌, ◌-◌, ◌*◌, ◌%◌, ◌^◌, Bool, false, ◌&&◌, ◌||◌, not, List, [], ◌∷◌, Option, none, some,
  ◌==◌, ltb, leb, if◌then◌else◌,
}
use ikan_osv5_student.Libc.Numbers.{to_lower, is_digit}
use ikan_osv5_student.Libc.Strings.{same_text}

abbrev pub w32 : ℕ → ℕ
w32 n = n % 2 ^ 32

-- `-value` of an `int`.
abbrev pub negative : ℕ → ℕ
negative value = w32 (2 ^ 32 - value)

-- `LabelEntry`; section 0 is the text, 1 the data.
pub record LabelEntry : Type 0 where
  pub name : List ℕ
  pub address : ℕ
  pub section : ℕ

-- The entry at the index that `findLabelIndex` returns, `none` for -1.
unfoldable pub find_label : List LabelEntry → List ℕ → Option LabelEntry
find_label [] label_name = none
find_label (l ∷ labels) label_name =
    if same_text l.name label_name then some l else find_label labels label_name

abbrev pub max_labels : ℕ
max_labels = 256

unfoldable pub count_labels : List LabelEntry → ℕ
count_labels [] = 0
count_labels (l ∷ labels) = suc (count_labels labels)

unfoldable pub append_label : List LabelEntry → LabelEntry → List LabelEntry
append_label [] l = l ∷ []
append_label (m ∷ labels) l = m ∷ append_label labels l

unfoldable pub add_label : List ℕ → ℕ → ℕ → List LabelEntry → List LabelEntry
add_label label_name address section labels =
    if ltb (count_labels labels) max_labels
    then append_label labels (record { name = label_name; address = address; section = section })
    else labels

-- The jump table at SHARED_LIBRARIES_START_LOC, up to the null entry.
abbrev pub JumpTable : Type 0
JumpTable = List (List ℕ × ℕ)

unfoldable pub find_lib_function : JumpTable → List ℕ → ℕ
find_lib_function [] name = 0
find_lib_function ((n, func) ∷ table) name =
    if same_text n name then func else find_lib_function table name

unfoldable pub register_names : List (List ℕ)
register_names =
    (b'e' ∷ b'a' ∷ b'x' ∷ [])
    ∷ (b'e' ∷ b'c' ∷ b'x' ∷ [])
    ∷ (b'e' ∷ b'd' ∷ b'x' ∷ [])
    ∷ (b'e' ∷ b'b' ∷ b'x' ∷ [])
    ∷ (b'e' ∷ b's' ∷ b'p' ∷ [])
    ∷ (b'e' ∷ b'b' ∷ b'p' ∷ [])
    ∷ (b'e' ∷ b's' ∷ b'i' ∷ [])
    ∷ (b'e' ∷ b'd' ∷ b'i' ∷ [])
    ∷ []

-- The loop of `parseRegisterIndex`; `none` for -1.
unfoldable pub register_loop : ℕ → List (List ℕ) → List ℕ → Option ℕ
register_loop index [] register_string = none
register_loop index (n ∷ names) register_string =
    if same_text register_string n
    then some index
    else register_loop (suc index) names register_string

unfoldable pub parse_register_index : List ℕ → Option ℕ
parse_register_index register_string = register_loop 0 register_names register_string

-- The value of a character in the base, `none` where the loop breaks.
unfoldable pub digit_of : ℕ → ℕ → Option ℕ
digit_of base character =
    let c = to_lower character in
    if is_digit c
    then some (c - b'0')
    else if base == 16 && (leb b'a' c && leb c b'f')
    then some (c - b'a' + 10)
    else none

-- The loop of `parseImmediateValue`.
unfoldable pub immediate_loop : ℕ → ℕ → List ℕ → ℕ
immediate_loop base value [] = value
immediate_loop base value (c ∷ rest) = elim (digit_of base c) [
  | none ↦ value
  | some digit ↦ immediate_loop base (w32 (value * base + digit)) rest
]

-- From the sign on: the prefix `0x` chooses the base.
unfoldable pub unsigned_value : List ℕ → ℕ
unsigned_value (c ∷ x ∷ rest) =
    if c == b'0' && (x == b'x' || x == b'X')
    then immediate_loop 16 0 rest
    else immediate_loop 10 0 (c ∷ x ∷ rest)
unsigned_value text = immediate_loop 10 0 text

unfoldable pub parse_immediate_value : List ℕ → ℕ
parse_immediate_value [] = 0
parse_immediate_value (c ∷ rest) =
    if c == b'-' then negative (unsigned_value rest) else unsigned_value (c ∷ rest)

unfoldable pub last_is_bracket : List ℕ → Bool
last_is_bracket [] = false
last_is_bracket (c ∷ []) = c == b']'
last_is_bracket (c ∷ d ∷ rest) = last_is_bracket (d ∷ rest)

unfoldable pub is_memory_operand : List ℕ → Bool
is_memory_operand [] = false
is_memory_operand (c ∷ rest) = if c == b'[' then last_is_bracket (c ∷ rest) else false

-- The base register and what follows it; `2 ^ 32 - 1` is the index -1.
unfoldable pub base_register : List ℕ → ℕ × List ℕ
base_register (a ∷ b ∷ c ∷ rest) =
    if to_lower a == b'e' && (to_lower b == b'b' && to_lower c == b'p')
    then (5, rest)
    else if to_lower a == b'e' && (to_lower b == b'a' && to_lower c == b'x')
    then (0, rest)
    else (2 ^ 32 - 1, a ∷ b ∷ c ∷ rest)
base_register text = (2 ^ 32 - 1, text)

unfoldable pub signed_offset : List ℕ → ℕ
signed_offset [] = 0
signed_offset (c ∷ rest) =
    if c == b'-'
    then negative (parse_immediate_value rest)
    else if c == b'+'
    then parse_immediate_value rest
    else parse_immediate_value (c ∷ rest)

-- `base` and `offset` of a memory operand.
unfoldable pub parse_memory_operand : List ℕ → ℕ × ℕ
parse_memory_operand [] = (2 ^ 32 - 1, 0)
parse_memory_operand (c ∷ arg) = let (base, text) = base_register arg in (base, signed_offset text)

-- `value >= -128 && value <= 127`
unfoldable pub fits_byte : ℕ → Bool
fits_byte value = ltb value 128 || leb (2 ^ 32 - 128) value

unfoldable pub get_disp_bytes : ℕ → ℕ → ℕ
get_disp_bytes offset base =
    if offset == 0 && not (base == 5) then 0 else if fits_byte offset then 1 else 4

unfoldable pub get_imm_bytes : ℕ → ℕ
get_imm_bytes value = if fits_byte value then 1 else 4
