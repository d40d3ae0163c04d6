-- ===== src/Assembler/Encoding/Jumps.antt =====
-- Where the jumps that al.cpp encodes lead.
use ikan_osv5_student.Prelude.{
  ℕ, ◌+◌, ◌*◌, ◌^◌, ◌<◌, ◌≡◌, List, [], ◌∷◌, Option, none, some, arith, ap, ◌∙◌, ◌==◌,
  if◌then◌else◌, get_or,
}
use ikan_osv5_student.Assembler.Operands.{w32, LabelEntry, JumpTable, find_label}
use ikan_osv5_student.Assembler.Sizes.{
  Mnemonic, db, mov, add, sub, cmp, jmp, call, jne, jle, jge, int, pusha, popa, push, pop, ret,
  other,
}
use ikan_osv5_student.Assembler.Encoding.{dword, relative, encode_jump, one_given, encode}

-- Four bytes as a number, lowest first.
unfoldable pub read_dword : List ℕ → ℕ
read_dword bytes =
    get_or bytes 0 0
    + get_or bytes 1 0 * 2 ^ 8
    + get_or bytes 2 0 * 2 ^ 16
    + get_or bytes 3 0 * 2 ^ 24

-- When the processor takes a jump.
pub data Condition : Type 0 where
  always when_not_equal when_less_or_equal when_greater_or_equal : Condition

-- A near jump or call: the four bytes behind an opcode of `size - 4` are relative to the instruction
-- that follows.
abbrev target_behind : ℕ → ℕ → List ℕ → ℕ
target_behind address size offset = w32 (address + size + read_dword offset)

unfoldable pub decode_long_jump : ℕ → ℕ → List ℕ → Option (Condition × ℕ)
decode_long_jump address escape [] = none
decode_long_jump address escape (opcode ∷ offset) =
    let target = target_behind address 6 offset in
    if escape == 0x0F
    then (if opcode == 0x85
        then some (when_not_equal, target)
        else if opcode == 0x8E
        then some (when_less_or_equal, target)
        else if opcode == 0x8D
        then some (when_greater_or_equal, target)
        else none)
    else none

-- What the processor reads from the bytes of a near jump at an address: when it jumps, and to where.
unfoldable pub decode_jump : ℕ → List ℕ → Option (Condition × ℕ)
decode_jump address [] = none
decode_jump address (opcode ∷ rest) =
    let long = decode_long_jump address opcode rest in
    if opcode == 0xE9 then some (always, target_behind address 5 rest) else long

-- When the jumps of the assembler's language are to be taken.
unfoldable pub condition_of : Mnemonic → Option Condition
condition_of jmp = some always
condition_of jne = some when_not_equal
condition_of jle = some when_less_or_equal
condition_of jge = some when_greater_or_equal
condition_of m = none

pub read_dword-dword : (n : ℕ) → n < 2 ^ 32 → read_dword (dword n) ≡ n
unfolding read_dword dword
read_dword-dword n h = omega arith

relative-lt : (t a n : ℕ) → relative t a n < 2 ^ 32
relative-lt t a n = omega arith

relative_back : (t a n : ℕ) → t < 2 ^ 32 → w32 (a + n + relative t a n) ≡ t
relative_back t a n h = omega arith

abbrev with_target : ℕ → Option Condition → Option (Condition × ℕ)
with_target target none = none
with_target target (some condition) = some (condition, target)

with_target-relative :
    (condition : Condition) (size target address : ℕ)
    → target < 2 ^ 32
    → with_target
        (target_behind address size (dword (relative target address size)))
        (some condition)
      ≡ with_target target (some condition)
with_target-relative condition size target address small =
    ap (λ t. with_target t (some condition))
      (ap (λ n. w32 (address + size + n))
          (read_dword-dword (relative target address size) (relative-lt target address size))
        ∙ relative_back target address size small)

module _ (labels : List LabelEntry) (table : JumpTable) (code_section_offset : ℕ) where
  -- For `jmp`, `jne`, `jle` and `jge` to a known label with an address of 32 bits, the bytes that
  -- are encoded at any address decode as a jump under the mnemonic's condition to the label's
  -- address.
  pub decode_jump-encode :
      (m : Mnemonic) (condition : Condition) (section address c : ℕ) (name arg2 : List ℕ)
      (l : LabelEntry)
      → condition_of m ≡ some condition
      → find_label labels (c ∷ name) ≡ some l
      → l.address < 2 ^ 32
      → decode_jump address
          (encode labels table code_section_offset section address m (c ∷ name) arg2)
        ≡ some (condition, l.address)
  unfolding encode encode_jump one_given decode_jump decode_long_jump condition_of
  decode_jump-encode jmp condition section address c name arg2 l jumps known small =
      rw (known, decode_jump)
        (with_target-relative always 5 l.address address small ∙ ap (with_target l.address) jumps)
  decode_jump-encode jne condition section address c name arg2 l jumps known small =
      rw (known, decode_jump)
        (with_target-relative when_not_equal 6 l.address address small
          ∙ ap (with_target l.address) jumps)
  decode_jump-encode jle condition section address c name arg2 l jumps known small =
      rw (known, decode_jump)
        (with_target-relative when_less_or_equal 6 l.address address small
          ∙ ap (with_target l.address) jumps)
  decode_jump-encode jge condition section address c name arg2 l jumps known small =
      rw (known, decode_jump)
        (with_target-relative when_greater_or_equal 6 l.address address small
          ∙ ap (with_target l.address) jumps)
  decode_jump-encode db condition section address c name arg2 l jumps known small =
      absurd (ground arith)
  decode_jump-encode mov condition section address c name arg2 l jumps known small =
      absurd (ground arith)
  decode_jump-encode add condition section address c name arg2 l jumps known small =
      absurd (ground arith)
  decode_jump-encode sub condition section address c name arg2 l jumps known small =
      absurd (ground arith)
  decode_jump-encode cmp condition section address c name arg2 l jumps known small =
      absurd (ground arith)
  decode_jump-encode call condition section address c name arg2 l jumps known small =
      absurd (ground arith)
  decode_jump-encode int condition section address c name arg2 l jumps known small =
      absurd (ground arith)
  decode_jump-encode pusha condition section address c name arg2 l jumps known small =
      absurd (ground arith)
  decode_jump-encode popa condition section address c name arg2 l jumps known small =
      absurd (ground arith)
  decode_jump-encode push condition section address c name arg2 l jumps known small =
      absurd (ground arith)
  decode_jump-encode pop condition section address c name arg2 l jumps known small =
      absurd (ground arith)
  decode_jump-encode ret condition section address c name arg2 l jumps known small =
      absurd (ground arith)
  decode_jump-encode other condition section address c name arg2 l jumps known small =
      absurd (ground arith)
