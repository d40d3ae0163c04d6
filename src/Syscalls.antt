-- ===== src/Syscalls.antt =====
-- What the system call handlers of ikanOSv5-1-Bootloader-Base/syscalls.cpp work on: the kernel's
-- tables, the kernel's heap, memory, and the words at fixed addresses that processes read. A
-- handler returns, panics, spins on a lock for ever, or goes through a null pointer.
pub mod Steps
pub mod Copies
pub mod Pipes
pub mod Opening
pub mod Tasks
use ikan_osv5_student.Prelude.{
  ℕ, zero, suc, ◌+◌, ◌-◌, ◌*◌, ◌/◌, ◌%◌, Option, none, some, List, ◌==◌, if◌then◌else◌, set,
}
use ikan_osv5_student.Kernel.{
  Kernel, Task, ObjectEntry, M, done, panicked, spinning, take_lock, drop_lock, global_object_table,
}
use ikan_osv5_student.Heap.{kernel_usable, malloc, free}
use ikan_osv5_student.Process.{object_entry_size}

-- `struct kernelLog`
pub record LogEntry : Type 0 where
  pub interrupt_count : ℕ
  pub pid : ℕ
  pub kind : List ℕ
  pub value : ℕ
  pub description : List ℕ

-- `memory` holds the bytes at an address, of the buffers that objects have; `heap` the owners of
-- the objects of the kernel's heap; `buffers` and `buffer_sizes` the open buffer table.
pub record System : Type 0 where
  pub kernel : Kernel
  pub heap : List (List ℕ)
  pub memory : ℕ → ℕ
  pub log : List LogEntry
  pub next_write : ℕ
  pub total_interrupt_count : ℕ
  pub current_file_descriptor : ℕ
  pub current_file_descriptor_ptr : ℕ
  pub buffers : List ℕ
  pub buffer_sizes : List ℕ
  pub running_pid : ℕ
  pub run_scheduler : ℕ
  pub returned_mmap_page : ℕ

pub data Result {ℓ} (A : Type ℓ) : Type ℓ where
  returned : A → System → Result A
  halted : System → Result A
  waiting : Result A
  faulted : Result A

abbrev pub S : Type 0 → Type 0
S A = System → Result A

infixl 5 ◌>>=◌ ◌>>◌
abbrev pub ◌>>=◌ : {A B : Type 0} → S A → (A → S B) → S B
◌>>=◌ m f s = elim (m s) [
  | returned a s' ↦ f a s'
  | halted s' ↦ halted s'
  | waiting ↦ waiting
  | faulted ↦ faulted
]

abbrev pub ◌>>◌ : {B : Type 0} → S (Unit {0}) → S B → S B
m >> n = m >>= λ _. n

abbrev pub give : {A : Type 0} → A → S A
give a s = returned a s

abbrev pub current : S System
current s = returned s s

abbrev pub change : (System → System) → S (Unit {0})
change f s = returned tt (f s)

abbrev pub halt : {A : Type 0} → S A
halt s = halted s

abbrev pub fault : {A : Type 0} → S A
fault s = faulted

-- A function on the kernel's tables.
abbrev pub on_kernel : {A : Type 0} → M A → S A
on_kernel m s = elim (m s.kernel) [
  | done a k ↦ returned a (record s { kernel = k })
  | panicked k ↦ halted (record s { kernel = k })
  | spinning ↦ waiting
]

abbrev pub kernel_log_max_events : ℕ
kernel_log_max_events = 0x300

-- The texts are kept whole, though the log has 16 and 40 bytes for them.
unfoldable pub insert_kernel_log : ℕ → List ℕ → ℕ → List ℕ → S (Unit {0})
insert_kernel_log pid kind value description = change (λ s. record s {
  log = set s.log s.next_write (record {
    interrupt_count = s.total_interrupt_count;
    pid = pid;
    kind = kind;
    value = value;
    description = description;
  });
  next_write = (s.next_write + 1) % kernel_log_max_events;
})

abbrev pub kernel_heap : ℕ
kernel_heap = 0xF00000

-- The address of the usable bytes of an object of the kernel's heap, `none` for the result 0.
unfoldable pub k_malloc : ℕ → ℕ → S (Option ℕ)
k_malloc pid object_size s =
    let (found, heap) = malloc kernel_usable pid object_size s.heap in
    elim found [
      | none ↦ returned none (record s { heap = heap })
      | some index ↦ returned (some (kernel_heap + index * 0x402 + 1)) (record s { heap = heap })
    ]

unfoldable pub k_free : ℕ → System → System
k_free pointer s =
    let index = (pointer - (kernel_heap + 1)) / 0x402 in
    record s { heap = free kernel_usable index s.heap }

-- The pointer to an entry of the object table, and the entry that a pointer points to.
abbrev pub object_pointer : ℕ → ℕ
object_pointer index = global_object_table + object_entry_size * index

abbrev pub object_index : ℕ → ℕ
object_index pointer = (pointer - global_object_table) / object_entry_size

-- `bytecpy`: the bytes from the source's address on, one after the other.
unfoldable pub bytecpy : ℕ → ℕ → ℕ → (ℕ → ℕ) → ℕ → ℕ
bytecpy zero destination source memory = memory
bytecpy (suc n) destination source memory =
    let byte = memory source in
    bytecpy n (destination + 1) (source + 1) (λ a. if a == destination then byte else memory a)

-- `fillMemory`
unfoldable pub fill_memory : ℕ → ℕ → ℕ → (ℕ → ℕ) → ℕ → ℕ
fill_memory zero destination value memory = memory
fill_memory (suc n) destination value memory =
    fill_memory n (destination + 1) value (λ a. if a == destination then value else memory a)
