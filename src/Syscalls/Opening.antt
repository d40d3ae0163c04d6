-- ===== src/Syscalls/Opening.antt =====
-- The handlers of syscalls.cpp that make and open pipes and sockets. Pages come from the virtual
-- memory's findBuffer and requestSpecificPage, which are parameters: the address of free pages, and
-- whether a page was mapped, with the tables afterwards.
pub mod Connection
use ikan_osv5_student.Prelude.{
  ℕ, ◌+◌, ◌%◌, ◌^◌, Bool, none, some, List, [], ◌∷◌, if◌then◌else◌, set,
}
use ikan_osv5_student.Libc.Strings.{remove_newline}
use ikan_osv5_student.Kernel.{Kernel, Task, M}
use ikan_osv5_student.Objects.{ObjectRequest, insert_global_object_table_entry}
use ikan_osv5_student.Process.{task_index}
use ikan_osv5_student.Syscalls.{
  ◌>>=◌, ◌>>◌, S, give, current, change, halt, fault, on_kernel, insert_kernel_log, k_malloc,
  object_pointer, fill_memory,
}
use ikan_osv5_student.Syscalls.Pipes.{
  gote_type_pipe, gote_type_socket, pipe_buf_size, syscall_fail, task_of, entry_of, find_pipe,
  NetworkParameter,
}

abbrev pub page_size : ℕ
page_size = 0x1000

abbrev network_incoming_payload_buffer : ℕ
network_incoming_payload_buffer = 0xC05000

-- `strcpyRemoveNewline` into a new object of the kernel's heap.
unfoldable pub copy_name : ℕ → ℕ → List ℕ → S (List ℕ)
copy_name pid size file_name = do
  allocated ← k_malloc pid size
  elim allocated [ none ↦ fault | some pointer ↦ give (remove_newline file_name) ]

abbrev pub with_task : ℕ → Task → Kernel → Kernel
with_task pid t k = record k { tasks = set k.tasks (task_index pid) t }

-- A new entry becomes the process's next descriptor, and its buffer is published.
unfoldable pub attach : ℕ → ℕ → ObjectRequest → S (Unit {0})
attach pid buffer r = do
  i ← on_kernel (insert_global_object_table_entry r)
  change (λ s.
      let t = task_of pid s.kernel in
      let fd = t.next_available_file_descriptor in
      record s {
        kernel =
            with_task pid
              (record t {
                file_descriptor = set t.file_descriptor fd (object_pointer i);
                next_available_file_descriptor = (fd + 1) % 2 ^ 32;
              })
              s.kernel;
        buffers = set s.buffers fd buffer;
        buffer_sizes = set s.buffer_sizes fd (entry_of i s.kernel).size;
        current_file_descriptor = fd;
        current_file_descriptor_ptr = buffer;
      })

-- The request for an entry of a pipe.
abbrev pub pipe_request : ℕ → ℕ → ℕ → List ℕ → ℕ → ObjectRequest
pipe_request pid buffer kernel_buffer pipe_name locked_for_writing = record {
  opened_by_pid = pid;
  inode = 0;
  kind = gote_type_pipe;
  source_ip_address = 0;
  destination_ip_address = 0;
  source_port = 0;
  destination_port = 0;
  size = pipe_buf_size;
  userspace_buffer = buffer;
  number_of_pages_for_buffer = 1;
  kernel_space_buffer = kernel_buffer;
  name = some pipe_name;
  read_offset = 0;
  write_offset = 0;
  locked_for_writing = locked_for_writing;
}

module _ (find_buffer : ℕ → ℕ → Kernel → ℕ) (request_specific_page : ℕ → ℕ → M Bool) where
  -- A page for the user's buffer, filled with zeros.
  unfoldable pub request_buffer : ℕ → S ℕ
  request_buffer pid = do
    s ← current
    let buffer = find_buffer pid 1 s.kernel
    granted ← on_kernel (request_specific_page pid buffer)
    if granted
        then (do
          change (λ t. record t { memory = fill_memory page_size buffer 0 t.memory })
          give buffer)
        else halt

  unfoldable pub sys_create_pipe : ℕ → List ℕ → ℕ → ℕ → S (Unit {0})
  sys_create_pipe file_descriptor file_name file_name_length pid = do
    insert_kernel_log pid (b'S' ∷ b'Y' ∷ b'S' ∷ b'C' ∷ b'P' ∷ b'I' ∷ b'P' ∷ b'E' ∷ [])
        file_descriptor file_name
    pipe_name ← copy_name pid file_name_length file_name
    buffer ← request_buffer pid
    allocated ← k_malloc pid pipe_buf_size
    let kernel_buffer : ℕ = elim allocated [ none ↦ 0 | some pointer ↦ pointer ]
    attach pid buffer (pipe_request pid buffer kernel_buffer pipe_name pid)

  unfoldable pub sys_open_pipe : ℕ → List ℕ → ℕ → ℕ → S ℕ
  sys_open_pipe file_descriptor file_name file_name_length pid = do
    insert_kernel_log pid (b'S' ∷ b'Y' ∷ b'S' ∷ b'O' ∷ b'P' ∷ b'I' ∷ b'P' ∷ b'E' ∷ [])
        file_descriptor file_name
    pipe_name ← copy_name pid file_name_length file_name
    buffer ← request_buffer pid
    s ← current
    elim (find_pipe pipe_name 0 s.kernel.objects) [
      | none ↦ give syscall_fail
      | some i ↦ do
        attach pid buffer
            (pipe_request pid buffer (entry_of i s.kernel).kernel_space_buffer pipe_name 0)
        give 0
    ]

  unfoldable pub sys_create_network_pipe : NetworkParameter → ℕ → S (Unit {0})
  sys_create_network_pipe p pid = elim p.socket_name [
    | none ↦ fault
    | some socket_name ↦ do
      insert_kernel_log pid (b'S' ∷ b'Y' ∷ b'S' ∷ b'C' ∷ b'N' ∷ b'P' ∷ b'I' ∷ b'P' ∷ b'E' ∷ [])
          p.destination_ip_address socket_name
      name ← copy_name pid 20 socket_name
      buffer ← request_buffer pid
      attach pid buffer (record (pipe_request pid buffer network_incoming_payload_buffer name pid) {
        kind = gote_type_socket;
        source_ip_address = p.source_ip_address;
        destination_ip_address = p.destination_ip_address;
        source_port = p.source_port;
        destination_port = p.destination_port;
      })
  ]
