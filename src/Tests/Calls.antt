-- ===== src/Tests/Calls.antt =====
-- System calls (syscalls.cpp) on a kernel with two processes and a pipe between them.
use ikan_osv5_student.Prelude.{
  ℕ, ◌≡◌, refl, inl, inr, Bool, true, some, List, [], ◌∷◌, arith, set, replicate,
}
use ikan_osv5_student.Libc.Strings.{same_text, remove_newline}
use ikan_osv5_student.Kernel.{Kernel, ObjectEntry, Task, M, done}
use ikan_osv5_student.Kernel.Slots.{first_free}
use ikan_osv5_student.Heap.{malloc_loop, malloc}
use ikan_osv5_student.Objects.{no_object}
use ikan_osv5_student.Process.{no_task}
use ikan_osv5_student.Syscalls.{◌>>◌, System, ◌>>◌, object_pointer, returned}
use ikan_osv5_student.Syscalls.Pipes.{
  gote_type_pipe, task_of, entry_of, find_buffer_owner, find_pipe, NetworkParameter, sys_write,
  sys_read,
}
use ikan_osv5_student.Syscalls.Pipes.Effects.{written, writer_of, IsPipe, write_logged, read_logged}
use ikan_osv5_student.Syscalls.Pipes.Transfer.{IsConnected, sys_read-sys_write, sys_read_misses}
use ikan_osv5_student.Syscalls.Opening.{sys_open_pipe}
use ikan_osv5_student.Syscalls.Opening.Connection.{IsOpenable, sys_open_pipe_lem}
use ikan_osv5_student.Syscalls.Tasks.{proc_running, proc_zombie, sys_exit}
use ikan_osv5_student.Syscalls.Tasks.Exit.{IsFamily, sys_exit_lem}
use ikan_osv5_student.Tests.Tables.{boot_semaphores, process_lock-IsFree, object_lock-IsFree}

abbrev kernel_buffer : ℕ
kernel_buffer = 0xF00001

abbrev pipe : ℕ → ℕ → ObjectEntry
pipe pid buffer = record no_object {
  opened_by_pid = pid;
  kind = gote_type_pipe;
  userspace_buffer = buffer;
  kernel_space_buffer = kernel_buffer;
  name = some (b'p' ∷ []);
}

-- A process with the object of an index as descriptor 3.
abbrev process : ℕ → ℕ → ℕ → Task
process pid ppid index = record no_task {
  pid = pid;
  ppid = ppid;
  state = 2;
  file_descriptor = set (replicate 15 0) 3 (object_pointer index);
  next_available_file_descriptor = 4;
}

-- Process 1 writes, process 2 reads.
abbrev system : ℕ → ℕ → List ObjectEntry → System
system writer reader objects = record {
  kernel = record {
    semaphores = boot_semaphores;
    tasks = process 1 0xFF writer ∷ process 2 1 reader ∷ replicate 30 no_task;
    objects = objects;
    frames = [];
    stderr_buffer = [];
  };
  heap = replicate 2 (replicate 0x402 0);
  memory = λ a. a;
  log = [];
  next_write = 0;
  total_interrupt_count = 7;
  current_file_descriptor = 0;
  current_file_descriptor_ptr = 0;
  buffers = replicate 15 0;
  buffer_sizes = replicate 15 0;
  running_pid = 2;
  run_scheduler = 0;
  returned_mmap_page = 0;
}

abbrev connected : System
connected = system 0 1 (pipe 1 0x300000 ∷ pipe 2 0x400000 ∷ replicate 62 no_object)

-- The reader's entry stands before the writer's.
abbrev crossed : System
crossed = system 1 0 (pipe 2 0x400000 ∷ pipe 1 0x300000 ∷ replicate 62 no_object)

abbrev drop_packet : NetworkParameter → System → System
drop_packet p s = s

abbrev no_packet : System → System
no_packet s = s

writes : IsPipe 3 1 0 connected.kernel
writes = record { opened = λ e. absurd (omega arith); index = refl; kind = refl }

reads : IsPipe 3 2 1 connected.kernel
reads = record { opened = λ e. absurd (omega arith); index = refl; kind = refl }

owner_found : writer_of 1 connected.kernel ≡ 0
unfolding find_buffer_owner
owner_found = refl

pair-IsConnected : IsConnected 3 1 0 3 2 1 connected.kernel
pair-IsConnected = record {
  unlocked = object_lock-IsFree;
  to_write = writes;
  to_read = reads;
  in_table = omega arith;
  distinct = λ e. absurd (omega arith);
  owner = owner_found;
  apart_writer = inr (omega arith);
  apart_reader = inl (omega arith);
}

sys_read-sys_write_example :
    (s' : System) × ((sys_write drop_packet no_packet 3 1 >> sys_read drop_packet no_packet 3 2)
        connected
      ≡ returned tt s')
    × (s'.memory 0x400011 ≡ 0x300011)
    × ((entry_of 0 s'.kernel).write_offset ≡ 0)
    × (s'.kernel.semaphores ≡ boot_semaphores)
sys_read-sys_write_example =
    sys_read-sys_write drop_packet no_packet 3 1 0 3 2 1 connected 0x11 pair-IsConnected
      (λ e. absurd (omega arith)) (omega arith)

crossed_writes : IsPipe 3 1 1 crossed.kernel
crossed_writes = record { opened = λ e. absurd (omega arith); index = refl; kind = refl }

crossed_reads : IsPipe 3 2 0 crossed.kernel
crossed_reads = record { opened = λ e. absurd (omega arith); index = refl; kind = refl }

own_found : writer_of 0 crossed.kernel ≡ 0
unfolding find_buffer_owner
own_found = refl

sys_read_misses_example :
    (sys_write drop_packet no_packet 3 1 >> sys_read drop_packet no_packet 3 2) crossed
    ≡ returned tt (read_logged 3 2 (written 1 (write_logged 3 1 crossed)))
sys_read_misses_example =
    sys_read_misses drop_packet no_packet 3 1 1 3 2 0 crossed object_lock-IsFree crossed_writes
      crossed_reads (λ e. absurd (omega arith)) (λ e. absurd (omega arith)) own_found refl

abbrev free_page : ℕ → ℕ → Kernel → ℕ
free_page pid pages k = 0x500000

abbrev map_page : ℕ → ℕ → M Bool
map_page pid page k = done true k

p-IsOpenable : IsOpenable free_page map_page 2 (b'p' ∷ b'\n' ∷ []) 2 0 0 2 [] connected
unfolding find_pipe remove_newline same_text malloc malloc_loop first_free
p-IsOpenable = record {
  unlocked = object_lock-IsFree;
  room_for_name = refl;
  page = record { granted = refl };
  found = refl;
  free_slot = refl;
  in_table = omega arith;
  known = omega arith;
  descriptors = omega arith;
}

sys_open_pipe_lem_example :
    (s' : System) × (sys_open_pipe free_page map_page 0 (b'p' ∷ b'\n' ∷ []) 2 2 connected
      ≡ returned 0 s')
    × IsPipe 4 2 2 s'.kernel
    × ((entry_of 2 s'.kernel).kernel_space_buffer ≡ kernel_buffer)
    × ((entry_of 2 s'.kernel).userspace_buffer ≡ 0x500000)
    × (s'.current_file_descriptor ≡ 4)
    × (s'.kernel.semaphores ≡ boot_semaphores)
sys_open_pipe_lem_example =
    sys_open_pipe_lem free_page map_page 2 0 2 0 0 2 (b'p' ∷ b'\n' ∷ []) [] connected p-IsOpenable

child-IsFamily : IsFamily 2 connected.kernel
child-IsFamily = record {
  child = omega arith;
  parent = omega arith;
  distinct = λ e. absurd (omega arith);
}

sys_exit_lem_example :
    (s' : System) × (sys_exit 2 9 connected ≡ returned (some 1) s')
    × (s'.running_pid ≡ 1)
    × (task_of 2 s'.kernel ≡ record (process 2 1 1) { exit_code = 9; state = proc_zombie })
    × (task_of 1 s'.kernel ≡ record (process 1 0xFF 0) { state = proc_running })
    × (s'.kernel.semaphores ≡ boot_semaphores)
sys_exit_lem_example =
    sys_exit_lem 2 9 connected process_lock-IsFree (λ e. absurd (omega arith)) child-IsFamily

abbrev any_page : ℕ → M ℕ
any_page pid k = done 0x600000 k
