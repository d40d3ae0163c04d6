-- ===== src/Assembler/Program.antt =====
-- What `main` of al.cpp makes of a source: both passes, the entry point and the executable.
pub mod Image
use ikan_osv5_student.Prelude.{ℕ, Option, none, some, List, [], ◌∷◌}
use ikan_osv5_student.Assembler.Operands.{LabelEntry, find_label, JumpTable}
use ikan_osv5_student.Assembler.Passes.{assemble}
use ikan_osv5_student.Assembler.Elf.{write_elf}

-- The address of the label `start`, 0 without one.
unfoldable pub entry_point : List LabelEntry → ℕ
entry_point labels = elim (find_label labels (b's' ∷ b't' ∷ b'a' ∷ b'r' ∷ b't' ∷ [])) [
  | some l ↦ l.address
  | none ↦ 0
]

unfoldable pub executable : JumpTable → List ℕ → Option (List ℕ)
executable table input =
    let (first, second) = assemble table input in
    write_elf second.external second.code second.data_bytes (entry_point first.labels)
