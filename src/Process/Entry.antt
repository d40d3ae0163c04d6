-- ===== src/Process/Entry.antt =====
-- The entry that `initializeTask` (vm.cpp) makes for a process.
use ikan_osv5_student.Prelude.{
  ℕ, ◌-◌, ◌*◌, ◌+◌, ◌%◌, ◌^◌, ◌≡◌, refl, arith, List, [], ◌∷◌, ◌==◌, if◌then◌else◌, set, drop,
  length,
}
use ikan_osv5_student.Kernel.{Task}
use ikan_osv5_student.Process.{TaskRequest, fill_task}

-- A requested descriptor, or the object of the kernel that stands for 0.
abbrev pub standard : ℕ → ℕ → ℕ
standard requested object = if requested == 0 then object else requested

-- The entry `new` of the process that was asked for, made of the entry `old`.
pub record IsTaskOf (r : TaskRequest) (pid : ℕ) (old new : Task) : Type 0 where
  pub number : new.pid ≡ pid
  pub parent : new.ppid ≡ (if r.ppid == 0 then 0xFF else r.ppid)
  pub state : new.state ≡ r.state
  pub page_directory : new.pgd ≡ (0xA00000 + 0x6000 * (pid - 1)) % 2 ^ 32
  pub stack : new.stack ≡ r.stack
  pub memory : new.phys_mem_start ≡ 0x1000000 * (pid - 1) % 2 ^ 32
  pub descriptors :
      new.file_descriptor
      ≡ standard r.std_in 0x998000
        ∷ standard r.std_out 0x998044
        ∷ standard r.std_err 0x998088
        ∷ drop 3 old.file_descriptor
  pub next_descriptor : new.next_available_file_descriptor ≡ 3
  pub priority : new.priority ≡ r.priority
  pub runtime : new.runtime ≡ 0
  pub name : new.binary_name ≡ r.binary_name
  pub directory : new.current_directory_inode ≡ r.directory_inode
  pub exit : new.exit_code ≡ old.exit_code

set_descriptors :
    (l : List ℕ) (a b c : ℕ) → length l ≡ 15 → set (set (set l 0 a) 1 b) 2 c ≡ a ∷ b ∷ c ∷ drop 3 l
set_descriptors [] a b c h = absurd (omega arith)
set_descriptors (x ∷ []) a b c h = absurd (omega arith)
set_descriptors (x ∷ y ∷ []) a b c h = absurd (omega arith)
set_descriptors (x ∷ y ∷ z ∷ rest) a b c h = refl

pub fill_task-IsTaskOf :
    (r : TaskRequest) (pid : ℕ) (old : Task)
    → length old.file_descriptor ≡ 15
    → IsTaskOf r pid old (fill_task old pid r)
unfolding fill_task
fill_task-IsTaskOf r pid old h = record {
  number = refl;
  parent = refl;
  state = refl;
  page_directory = omega arith;
  stack = refl;
  memory = omega arith;
  descriptors = set_descriptors old.file_descriptor _ _ _ h;
  next_descriptor = refl;
  priority = refl;
  runtime = refl;
  name = refl;
  directory = refl;
  exit = refl;
}
