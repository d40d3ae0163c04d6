-- ===== src/Process.antt =====
-- The process table of ikanOSv5-1-Bootloader-Base/vm.cpp: `initializeTask` and `updateTaskState`.
pub mod Entry
pub mod Table
use ikan_osv5_student.Prelude.{
  ℕ, ◌+◌, ◌-◌, ◌*◌, ◌%◌, ◌^◌, Bool, true, false, List, [], ◌∷◌, Option, none, some, ◌==◌,
  if◌then◌else◌, get_or, set, replicate,
}
use ikan_osv5_student.Kernel.{
  Kernel, Task, M, Outcome, done, panicked, spinning, ◌>>=◌, ◌>>◌, pure, get, put, panic, take_lock,
  drop_lock, process_table_loc, global_object_table, max_processes,
}
use ikan_osv5_student.Kernel.Slots.{first_free}
use ikan_osv5_student.Semaphore.{kernel_owned}

abbrev pub max_process_size : ℕ
max_process_size = 0x1000000

abbrev pub page_dir_base : ℕ
page_dir_base = 0xA00000

abbrev pub max_pgtables_size : ℕ
max_pgtables_size = 0x6000

-- `sizeof(globalObjectTableEntry)`
abbrev pub object_entry_size : ℕ
object_entry_size = 68

abbrev pub is_unused : Task → Bool
is_unused t = t.pid == 0

-- An entry of zeros.
abbrev pub no_task : Task
no_task = record {
  pid = 0;
  ppid = 0;
  state = 0;
  pgd = 0;
  stack = 0;
  priority = 0;
  runtime = 0;
  phys_mem_start = 0;
  next_available_file_descriptor = 0;
  current_directory_inode = 0;
  file_descriptor = replicate 15 0;
  binary_name = 0;
  exit_code = 0;
}

-- The arguments of `initializeTask`.
pub record TaskRequest : Type 0 where
  pub ppid : ℕ
  pub state : ℕ
  pub stack : ℕ
  pub binary_name : ℕ
  pub priority : ℕ
  pub directory_inode : ℕ
  pub std_in : ℕ
  pub std_out : ℕ
  pub std_err : ℕ

-- A requested descriptor, or the kernel's own object of that index.
abbrev descriptor : ℕ → ℕ → ℕ
descriptor requested index =
    if requested == 0 then global_object_table + object_entry_size * index else requested

-- The fields that `initializeTask` writes, over the entry's old ones.
unfoldable pub fill_task : Task → ℕ → TaskRequest → Task
fill_task old pid r = record old {
  pid = pid;
  ppid = if r.ppid == 0 then kernel_owned else r.ppid;
  state = r.state;
  pgd = ((pid - 1) * max_pgtables_size + page_dir_base) % 2 ^ 32;
  stack = r.stack;
  phys_mem_start = (max_process_size * (pid - 1)) % 2 ^ 32;
  file_descriptor =
      set (set (set old.file_descriptor 0 (descriptor r.std_in 0)) 1 (descriptor r.std_out 1)) 2
        (descriptor r.std_err 2);
  next_available_file_descriptor = 3;
  priority = r.priority;
  runtime = 0;
  binary_name = r.binary_name;
  current_directory_inode = r.directory_inode;
}

-- On reaching the last entry the code drops the lock and panics, also where an entry was found.
unfoldable pub initialize_task : TaskRequest → M ℕ
initialize_task r = do
  take_lock process_table_loc
  k ← get
  elim (first_free is_unused (max_processes - 1) 0 k.tasks) [
    | none ↦ do drop_lock process_table_loc; panic
    | some i ↦ do
      put (record k { tasks = set k.tasks i (fill_task (get_or k.tasks i no_task) (i + 1) r) })
      drop_lock process_table_loc
      pure (i + 1)
  ]

-- The index of a process's entry. That of pid 0 wraps and lies outside the table.
abbrev pub task_index : ℕ → ℕ
task_index pid = (pid + 2 ^ 32 - 1) % 2 ^ 32

unfoldable pub update_task_state : ℕ → ℕ → M (Unit {0})
update_task_state pid state = do
  take_lock process_table_loc
  k ← get
  let old = get_or k.tasks (task_index pid) no_task
  put (record k { tasks = set k.tasks (task_index pid) (record old { state = state }) })
  drop_lock process_table_loc
