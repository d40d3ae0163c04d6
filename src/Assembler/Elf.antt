-- ===== src/Assembler/Elf.antt =====
-- `writeElf` of al.cpp: the executable as the bytes written to the output buffer.
pub mod Segments
use ikan_osv5_student.Prelude.{
  ℕ, ◌+◌, ◌-◌, ◌*◌, ◌/◌, ◌%◌, ◌^◌, Bool, true, false, List, [], ◌∷◌, ◌++◌, Option, none, some, ◌==◌,
  if◌then◌else◌, length, replicate,
}
use ikan_osv5_student.Assembler.Encoding.{dword}

abbrev pub page_size : ℕ
page_size = 0x1000

-- `((size + PAGE_SIZE - 1) / PAGE_SIZE) * PAGE_SIZE`
abbrev pub aligned : ℕ → ℕ
aligned size = (size + page_size - 1) / page_size * page_size

-- A `uint16_t`, lowest byte first.
abbrev pub word : ℕ → List ℕ
word value = (value % 2 ^ 8) ∷ (value / 2 ^ 8 % 2 ^ 8) ∷ []

-- The fields of `struct elfHeader` that are not the same in every file.
pub record ElfHeader : Type 0 where
  pub e_entry : ℕ
  pub e_flags : ℕ

unfoldable pub elf_header_bytes : ElfHeader → List ℕ
elf_header_bytes h =
    (0x7F ∷ b'E' ∷ b'L' ∷ b'F' ∷ 1 ∷ 1 ∷ 1 ∷ 0 ∷ replicate 8 0)
    ++ (word 2
        ++ (word 3
            ++ (dword 1
                ++ (dword h.e_entry
                    ++ (dword 52
                        ++ (dword 0
                            ++ (dword h.e_flags
                                ++ (word 52
                                    ++ (word 32
                                        ++ (word 3 ++ (word 0 ++ (word 0 ++ word 0))))))))))))

-- `struct pHeader`
pub record ProgramHeader : Type 0 where
  pub p_offset : ℕ
  pub p_vaddr : ℕ
  pub p_filesz : ℕ
  pub p_flags : ℕ

-- All are loadable and aligned to pages, with equal addresses and equal sizes.
unfoldable pub program_header_bytes : ProgramHeader → List ℕ
program_header_bytes p =
    dword 1
    ++ (dword p.p_offset
        ++ (dword p.p_vaddr
            ++ (dword p.p_vaddr
                ++ (dword p.p_filesz
                    ++ (dword p.p_filesz ++ (dword p.p_flags ++ dword page_size))))))

abbrev pub header_vaddr : ℕ
header_vaddr = 0x00401000

abbrev pub code_vaddr : ℕ
code_vaddr = header_vaddr + page_size

abbrev pub header_segment : ProgramHeader
header_segment = record { p_offset = 0; p_vaddr = header_vaddr; p_filesz = page_size; p_flags = 4 }

abbrev pub text_segment : ℕ → ProgramHeader
text_segment code_size = record {
  p_offset = page_size;
  p_vaddr = code_vaddr;
  p_filesz = aligned code_size;
  p_flags = 5;
}

abbrev pub data_segment : ℕ → ℕ → ProgramHeader
data_segment code_size data_size = record {
  p_offset = page_size + aligned code_size;
  p_vaddr = code_vaddr + aligned code_size;
  p_filesz = aligned data_size;
  p_flags = 6;
}

-- `codeSection[0] == 0x7f`, tested where there is code.
unfoldable pub is_malformed : List ℕ → Bool
is_malformed [] = false
is_malformed (b ∷ code) = b == 0x7f

-- A section, padded to whole pages.
unfoldable pub padded_section : List ℕ → List ℕ
padded_section bytes = bytes ++ replicate (aligned (length bytes) - length bytes) 0

unfoldable pub header_page : Bool → ℕ → ℕ → ℕ → List ℕ
header_page has_external_label code_size data_size entry_point_offset =
    elf_header_bytes (record {
      e_entry = code_vaddr + entry_point_offset;
      e_flags = if has_external_label then 0xFF else 0;
    })
    ++ (program_header_bytes header_segment
        ++ (program_header_bytes (text_segment code_size)
            ++ (program_header_bytes (data_segment code_size data_size)
                ++ replicate (page_size - (52 + 96)) 0)))

-- `none` where the program exits with PROCESS_EXIT_CODE_MALFORMED_OUTPUT.
unfoldable pub write_elf : Bool → List ℕ → List ℕ → ℕ → Option (List ℕ)
write_elf has_external_label code data_bytes entry_point_offset =
    if is_malformed code
    then none
    else some (
        header_page has_external_label (length code) (length data_bytes) entry_point_offset
        ++ (padded_section code ++ padded_section data_bytes))
