-- ===== src/Kernel.antt =====
-- The kernel state that vm.cpp and file.cpp of ikanOSv5-1-Bootloader-Base work on, and how a kernel
-- function ends: it returns, it panics (exceptions.cpp: `panic` never returns), or it spins on a
-- lock for ever.
pub mod Slots
pub mod Locks
use ikan_osv5_student.Prelude.{ℕ, ◌+◌, Bool, true, false, List, Option, none, some, if◌then◌else◌}
use ikan_osv5_student.Semaphore.{Semaphore, acquire_lock, release_lock, kernel_owned, lock, unlock}

-- `struct globalObjectTableEntry` (file.h). A name is the text it points to, `none` for a null
-- pointer.
pub record ObjectEntry : Type 0 where
  pub opened_by_pid : ℕ
  pub inode : ℕ
  pub kind : ℕ
  pub source_ip_address : ℕ
  pub destination_ip_address : ℕ
  pub source_port : ℕ
  pub destination_port : ℕ
  pub size : ℕ
  pub userspace_buffer : ℕ
  pub number_of_pages_for_buffer : ℕ
  pub kernel_space_buffer : ℕ
  pub name : Option (List ℕ)
  pub read_offset : ℕ
  pub write_offset : ℕ
  pub locked_for_writing : ℕ
  pub packets_transmitted : ℕ
  pub packets_received : ℕ
  pub reference_count : ℕ

-- `struct task` (vm.h), without the saved registers, which no function modelled here touches.
pub record Task : Type 0 where
  pub pid : ℕ
  pub ppid : ℕ
  pub state : ℕ
  pub pgd : ℕ
  pub stack : ℕ
  pub priority : ℕ
  pub runtime : ℕ
  pub phys_mem_start : ℕ
  pub next_available_file_descriptor : ℕ
  pub current_directory_inode : ℕ
  pub file_descriptor : List ℕ
  pub binary_name : ℕ
  pub exit_code : ℕ

-- KERNEL_SEMAPHORE_TABLE, PROCESS_TABLE_LOC, GLOBAL_OBJECT_TABLE, the page frame map at
-- PAGEFRAME_MAP_BASE and the buffer at STDERR_BUFFER.
pub record Kernel : Type 0 where
  pub semaphores : List Semaphore
  pub tasks : List Task
  pub objects : List ObjectEntry
  pub frames : List ℕ
  pub stderr_buffer : List ℕ

abbrev pub process_table_loc : ℕ
process_table_loc = 0x920000

abbrev pub global_object_table : ℕ
global_object_table = 0x998000

abbrev pub pageframe_map_base : ℕ
pageframe_map_base = 0xAD0000

abbrev pub max_processes : ℕ
max_processes = 0x20

abbrev pub max_system_open_files : ℕ
max_system_open_files = 0x40

pub data Outcome {ℓ} (A : Type ℓ) : Type ℓ where
  done : A → Kernel → Outcome A
  panicked : Kernel → Outcome A
  spinning : Outcome A

-- A kernel function.
abbrev pub M : Type 0 → Type 0
M A = Kernel → Outcome A

infixl 5 ◌>>=◌ ◌>>◌
abbrev pub ◌>>=◌ : {A B : Type 0} → M A → (A → M B) → M B
◌>>=◌ m f k = elim (m k) [ done a k' ↦ f a k' | panicked k' ↦ panicked k' | spinning ↦ spinning ]

abbrev pub ◌>>◌ : {B : Type 0} → M (Unit {0}) → M B → M B
m >> n = m >>= λ _. n

abbrev pub pure : {A : Type 0} → A → M A
pure a k = done a k

abbrev pub get : M Kernel
get k = done k k

abbrev pub put : Kernel → M (Unit {0})
put k' k = done tt k'

abbrev pub panic : {A : Type 0} → M A
panic k = panicked k

-- `while (!acquireLock(KERNEL_OWNED, location)) {}`
abbrev pub take_lock : ℕ → M (Unit {0})
take_lock location k = elim (lock location k.semaphores) [
  | none ↦ spinning
  | some t ↦ done tt (record k { semaphores = t })
]

-- `releaseLock(KERNEL_OWNED, location)`, whatever it returns.
abbrev pub release_once : ℕ → M (Unit {0})
release_once location k =
    done tt (record k { semaphores = (release_lock kernel_owned location k.semaphores).1 })

-- `while (!releaseLock(KERNEL_OWNED, location)) {}`
abbrev pub drop_lock : ℕ → M (Unit {0})
drop_lock location k = elim (unlock location k.semaphores) [
  | none ↦ spinning
  | some t ↦ done tt (record k { semaphores = t })
]
