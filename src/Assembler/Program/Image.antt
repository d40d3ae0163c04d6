-- ===== src/Assembler/Program/Image.antt =====
-- The executable that al.cpp writes for a source, as a loader reads it.
use ikan_osv5_student.Prelude.{ℕ, ◌+◌, ◌*◌, ◌≡◌, Bool, List, ◌++◌, length, take, drop}
use ikan_osv5_student.Assembler.Operands.{JumpTable}
use ikan_osv5_student.Assembler.Passes.{Second, assemble}
use ikan_osv5_student.Assembler.Encoding.Jumps.{read_dword}
use ikan_osv5_student.Assembler.Elf.{header_page}

-- The four bytes at a position of a file.
abbrev pub dword_at : ℕ → List ℕ → ℕ
dword_at position file = read_dword (drop position file)

-- `e_entry` of a file.
pub entry_address : List ℕ → ℕ
entry_address file = dword_at 24 file

-- Where the program header of an index stands: `e_phoff`, and 32 bytes for each one before it.
abbrev pub header_position : ℕ → List ℕ → ℕ
header_position i file = dword_at 28 file + 32 * i

-- What a loader reads from the program header of an index in the file itself: a loadable segment,
-- mapped at an address, with these bytes of the file.
pub record IsLoaded (file : List ℕ) (i address : ℕ) (bytes : List ℕ) : Type 0 where
  pub loadable : dword_at (header_position i file) file ≡ 1
  pub mapped : dword_at (header_position i file + 8) file ≡ address
  pub mapped_bytes :
      take
        (dword_at (header_position i file + 16) file)
        (drop (dword_at (header_position i file + 4) file) file)
      ≡ bytes
  pub in_memory : dword_at (header_position i file + 20) file ≡ length bytes

-- The fields of the program headers of a file, as they are read from it.
module _ (e : Bool) (c d o : ℕ) (rest : List ℕ) where
  abbrev whole_file : List ℕ
  whole_file = header_page e c d o ++ rest

module _ (table : JumpTable) (input file : List ℕ) where
  abbrev pub second : Second
  second = (assemble table input).1
