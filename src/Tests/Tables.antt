-- ===== src/Tests/Tables.antt =====
-- The kernel's tables of vm.cpp, file.cpp and frame-allocator.cpp on small states.
use ikan_osv5_student.Prelude.{
  ℕ, zero, suc, ◌+◌, ◌<◌, ◌≤◌, ◌≡◌, ◌≢◌, ◌⊎◌, inl, inr, true, false, List, [], ◌∷◌, ◌++◌, some,
  refl, arith, get_or, replicate, set,
}
use ikan_osv5_student.Semaphore.{Semaphore, acquire_lock, release_lock, lock, unlock}
use ikan_osv5_student.Semaphore.Locking.{entry_at}
use ikan_osv5_student.Kernel.{
  Kernel, ObjectEntry, Task, done, panicked, process_table_loc, global_object_table,
  pageframe_map_base, max_processes,
}
use ikan_osv5_student.Kernel.Locks.{IsFree}
use ikan_osv5_student.Kernel.Slots.{first_free}
use ikan_osv5_student.Objects.{
  no_object, ObjectRequest, fill_object, insert_global_object_table_entry, close_entries,
  close_all_files, lock_file, mark_entry, file_available_to_be_locked,
}
use ikan_osv5_student.Objects.Table.{IsInsertion, insert_total}
use ikan_osv5_student.Objects.FileLocks.{lock_file_exclusive, close_releases}
use ikan_osv5_student.Process.{no_task, TaskRequest, fill_task, initialize_task}
use ikan_osv5_student.Process.Entry.{IsTaskOf}
use ikan_osv5_student.Process.Table.{IsTable, initialize_task-done}

abbrev pub semaphore : ℕ → Semaphore
semaphore location = record { pid = 0xFF; location = location; current_value = 1; max_value = 1 }

-- As `kInit` creates them.
abbrev pub boot_semaphores : List Semaphore
boot_semaphores =
    semaphore global_object_table ∷ semaphore process_table_loc ∷ semaphore pageframe_map_base ∷ []

pub process_lock-IsFree : IsFree process_table_loc boot_semaphores
unfolding entry_at
process_lock-IsFree = record {
  bounded = omega arith;
  entry = semaphore process_table_loc;
  at_location = refl;
  by_kernel = refl;
  free = omega arith;
  in_kernel = omega arith;
}

pub object_lock-IsFree : IsFree global_object_table boot_semaphores
unfolding entry_at
object_lock-IsFree = record {
  bounded = omega arith;
  entry = semaphore global_object_table;
  at_location = refl;
  by_kernel = refl;
  free = omega arith;
  in_kernel = omega arith;
}

frame_lock-IsFree : IsFree pageframe_map_base boot_semaphores
unfolding entry_at
frame_lock-IsFree = record {
  bounded = omega arith;
  entry = semaphore pageframe_map_base;
  at_location = refl;
  by_kernel = refl;
  free = omega arith;
  in_kernel = omega arith;
}

abbrev first_task : Task
first_task = record no_task { pid = 1; ppid = 0xFF; state = 2 }

-- Process 4 has file 12 open.
abbrev open_file : ObjectEntry
open_file = record no_object { opened_by_pid = 4; inode = 12 }

abbrev boot : Kernel
boot = record {
  semaphores = boot_semaphores;
  tasks = first_task ∷ replicate 31 no_task;
  objects = open_file ∷ replicate 63 no_object;
  frames = 4 ∷ replicate 6143 0;
  stderr_buffer = [];
}

abbrev full : Kernel
full = record boot { tasks = replicate 31 first_task ++ no_task ∷ [] }

abbrev task_request : TaskRequest
task_request = record {
  ppid = 1;
  state = 1;
  stack = 0x7FEFF0;
  binary_name = 0x400000;
  priority = 2;
  directory_inode = 2;
  std_in = 0;
  std_out = 0;
  std_err = 0;
}

abbrev object_request : ObjectRequest
object_request = record {
  opened_by_pid = 5;
  inode = 12;
  kind = 0xFFFFFFFE;
  source_ip_address = 0;
  destination_ip_address = 0;
  source_port = 0;
  destination_port = 0;
  size = 2048;
  userspace_buffer = 0x300000;
  number_of_pages_for_buffer = 1;
  kernel_space_buffer = 0;
  name = some (b'n' ∷ b'o' ∷ b't' ∷ b'e' ∷ b's' ∷ []);
  read_offset = 0;
  write_offset = 0;
  locked_for_writing = 0;
}

abbrev boot' : Kernel
boot' = record boot { tasks = set boot.tasks 1 (fill_task no_task 2 task_request) }

initialize_task-boot : initialize_task task_request boot ≡ done 2 boot'
unfolding initialize_task lock unlock acquire_lock release_lock first_free
initialize_task-boot = refl

abbrev opened : Kernel
opened = record boot { objects = set boot.objects 1 (fill_object no_object object_request) }

insert-boot : insert_global_object_table_entry object_request boot ≡ done 1 opened
unfolding insert_global_object_table_entry lock unlock acquire_lock release_lock first_free
insert-boot = refl

abbrev locked : Kernel
locked = record boot {
  objects = record open_file { locked_for_writing = 4 } ∷ replicate 63 no_object;
}

lock_file-boot : lock_file 4 12 boot ≡ done true locked
unfolding lock_file lock unlock acquire_lock release_lock mark_entry file_available_to_be_locked
lock_file-boot = refl

lock_file_stranger : lock_file 9 12 boot ≡ done false boot
unfolding lock_file lock unlock acquire_lock release_lock mark_entry file_available_to_be_locked
lock_file_stranger = refl

abbrev closed : Kernel
closed = record boot { objects = replicate 64 no_object }

close_all_files-locked : close_all_files 4 locked ≡ done tt closed
unfolding close_all_files lock unlock acquire_lock release_lock close_entries
close_all_files-locked = refl

boot_tasks-IsTable : IsTable boot.tasks
boot_tasks-IsTable zero = inr refl
boot_tasks-IsTable (suc i) = inl (get_or-replicate i 31)
  where
    get_or-replicate : (i n : ℕ) → (get_or (replicate n no_task) i no_task).pid ≡ 0
    get_or-replicate zero zero = refl
    get_or-replicate (suc i) zero = refl
    get_or-replicate zero (suc n) = refl
    get_or-replicate (suc i) (suc n) = get_or-replicate i n

entry_at-boot : entry_at process_table_loc boot_semaphores ≡ some (semaphore process_table_loc)
unfolding entry_at
entry_at-boot = refl

initialize_task-done_example :
    (0 < 2)
    × (2 < max_processes)
    × ((get_or boot.tasks 1 no_task).pid ≡ 0)
    × ((2 ≤ 5 + 1) ⊎ ((get_or boot.tasks 5 no_task).pid ≢ 0))
    × IsTaskOf task_request 2 no_task (get_or boot'.tasks 1 no_task)
    × ((2 ≡ 5 + 1) ⊎ (get_or boot'.tasks 5 no_task ≡ get_or boot.tasks 5 no_task))
    × (boot'.semaphores ≡ boot.semaphores)
initialize_task-done_example =
    initialize_task-done task_request boot boot' 2 5 process_lock-IsFree refl initialize_task-boot

insert_total_example :
    ((i : ℕ) × (k' : Kernel) × (insert_global_object_table_entry object_request boot ≡ done i k')
      × IsInsertion object_request boot k' i 5)
    ⊎ ((insert_global_object_table_entry object_request boot ≡ panicked boot)
        × ((get_or boot.objects 5 no_object).opened_by_pid ≢ 0))
insert_total_example = insert_total object_request boot 5 object_lock-IsFree refl (omega arith)

lock_file_exclusive_example :
    (file_available_to_be_locked 12 boot.objects ≡ true)
    × (file_available_to_be_locked 12 locked.objects ≡ false)
    × (lock_file 5 12 locked ≡ done false locked)
lock_file_exclusive_example =
    lock_file_exclusive 4 5 12 boot locked object_lock-IsFree (omega arith) lock_file-boot

close_releases_example : file_available_to_be_locked 12 closed.objects ≡ true
close_releases_example =
    close_releases 4 12 boot locked closed object_lock-IsFree lock_file-boot close_all_files-locked
