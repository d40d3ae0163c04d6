-- ===== src/Syscalls/Pipes.antt =====
-- The handlers of syscalls.cpp for pipes and sockets.
pub mod Effects
pub mod Transfer
use ikan_osv5_student.Prelude.{
  ℕ, suc, ◌+◌, ◌-◌, ◌%◌, ◌^◌, Bool, false, ◌&&◌, Option, none, some, List, [], ◌∷◌, ◌==◌,
  if◌then◌else◌, get_or, set,
}
use ikan_osv5_student.Libc.Strings.{same_text}
use ikan_osv5_student.Kernel.{
  Kernel, Task, ObjectEntry, M, done, panicked, spinning, take_lock, release_once,
  global_object_table,
}
use ikan_osv5_student.Objects.{no_object}
use ikan_osv5_student.Process.{no_task, task_index}
use ikan_osv5_student.Syscalls.{
  k_malloc, k_free, fill_memory, fault, ◌>>=◌, ◌>>◌, System, S, give, current, change, on_kernel,
  insert_kernel_log, object_index, bytecpy,
}

abbrev pub gote_type_pipe : ℕ
gote_type_pipe = 0xFFFFFFFD

abbrev pub gote_type_socket : ℕ
gote_type_socket = 0xFFFFFFFC

abbrev pub pipe_buf_size : ℕ
pipe_buf_size = 0x400

abbrev pub syscall_fail : ℕ
syscall_fail = 0xFFFFFFFF

abbrev pub task_of : ℕ → Kernel → Task
task_of pid k = get_or k.tasks (task_index pid) no_task

abbrev pub pointer_of : ℕ → ℕ → Kernel → ℕ
pointer_of file_descriptor pid k = get_or (task_of pid k).file_descriptor file_descriptor 0

abbrev pub entry_of : ℕ → Kernel → ObjectEntry
entry_of i k = get_or k.objects i no_object

-- Writes to an entry of the object table.
abbrev pub with_entry : ℕ → ObjectEntry → Kernel → Kernel
with_entry i o k = record k { objects = set k.objects i o }

-- The scan for the first entry with a kernel buffer.
unfoldable pub find_buffer_owner : ℕ → ℕ → List ObjectEntry → ℕ
find_buffer_owner kernel_buffer index [] = index
find_buffer_owner kernel_buffer index (o ∷ rest) =
    if o.kernel_space_buffer == kernel_buffer
    then index
    else find_buffer_owner kernel_buffer (suc index) rest

-- The scan of `sysOpenPipe`.
unfoldable pub find_pipe : List ℕ → ℕ → List ObjectEntry → Option ℕ
find_pipe pipe_name index [] = none
find_pipe pipe_name index (o ∷ rest) =
    let later = find_pipe pipe_name (suc index) rest in
    let same : Bool = elim o.name [ none ↦ false | some n ↦ same_text n pipe_name ] in
    if o.kind == gote_type_pipe && same then some index else later

-- `struct networkParameter`
pub record NetworkParameter : Type 0 where
  pub source_ip_address : ℕ
  pub destination_ip_address : ℕ
  pub source_port : ℕ
  pub destination_port : ℕ
  pub socket_name : Option (List ℕ)
  pub packet_payload : ℕ

unfoldable pub write_pipe : ℕ → S (Unit {0})
write_pipe i = do
  s ← current
  let o = entry_of i s.kernel
  if o.write_offset == pipe_buf_size - 1 then give tt else (do
    on_kernel (take_lock global_object_table)
    change (λ t. record t {
      memory = bytecpy pipe_buf_size o.kernel_space_buffer o.userspace_buffer t.memory;
      kernel = with_entry i (record o { write_offset = pipe_buf_size - 1 }) t.kernel;
    })
    on_kernel (release_once global_object_table))

-- The branch of `sysRead` for pipes. The entry that is taken for the writer's is the first with the
-- kernel buffer; it may be the entry itself.
unfoldable pub read_pipe : ℕ → S (Unit {0})
read_pipe i = do
  s ← current
  let o = entry_of i s.kernel
  let w = find_buffer_owner o.kernel_space_buffer 0 s.kernel.objects
  if (entry_of w s.kernel).write_offset == 0 then give tt else (do
    on_kernel (take_lock global_object_table)
    change (λ t.
        let read = with_entry i (record o { write_offset = pipe_buf_size - 1 }) t.kernel in
        record t {
          memory = bytecpy pipe_buf_size o.userspace_buffer o.kernel_space_buffer t.memory;
          kernel =
              with_entry w
                (record (entry_of w read) { read_offset = o.read_offset; write_offset = 0 }) read;
        })
    on_kernel (release_once global_object_table))

-- The network's driver, which the branches for sockets call.
module _ (net_udp_send : NetworkParameter → System → System) (net_udp_rcv : System → System) where
  unfoldable pub write_socket : ℕ → ℕ → S (Unit {0})
  write_socket i pid = do
    allocated ← k_malloc pid 24
    elim allocated [
      | none ↦ fault
      | some parameter ↦ do
        on_kernel (take_lock global_object_table)
        s ← current
        let o = entry_of i s.kernel
        change (λ t.
            net_udp_send
              (record {
                source_ip_address = o.source_ip_address;
                destination_ip_address = o.destination_ip_address;
                source_port = o.source_port;
                destination_port = o.destination_port;
                socket_name = o.name;
                packet_payload = o.kernel_space_buffer;
              })
              (record t {
                memory = bytecpy pipe_buf_size o.kernel_space_buffer o.userspace_buffer t.memory;
              }))
        change (λ t.
            let sent = entry_of i t.kernel in
            record t {
              kernel =
                  with_entry i
                    (record sent {
                      write_offset = pipe_buf_size - 1;
                      packets_transmitted = (sent.packets_transmitted + 1) % 2 ^ 32;
                    })
                    t.kernel;
            })
        on_kernel (release_once global_object_table)
        change (k_free parameter)
    ]

  unfoldable pub read_socket : ℕ → S (Unit {0})
  read_socket i = do
    change net_udp_rcv
    s ← current
    let o = entry_of i s.kernel
    let w = find_buffer_owner o.kernel_space_buffer 0 s.kernel.objects
    change (λ t. record t { memory = fill_memory pipe_buf_size o.userspace_buffer 0 t.memory })
    on_kernel (take_lock global_object_table)
    change (λ t.
        let read = with_entry i (record o { write_offset = 0 }) t.kernel in
        record t {
          memory = bytecpy pipe_buf_size o.userspace_buffer o.kernel_space_buffer t.memory;
          kernel =
              with_entry w (record (entry_of w read) { read_offset = 0; write_offset = 0 }) read;
        })
    on_kernel (release_once global_object_table)

  -- Without a descriptor the code prints a message; of an object of another kind it prints the
  -- buffer.
  unfoldable pub sys_write : ℕ → ℕ → S (Unit {0})
  sys_write file_descriptor pid = do
    insert_kernel_log pid (b'S' ∷ b'Y' ∷ b'S' ∷ b'W' ∷ b'R' ∷ b'I' ∷ b'T' ∷ b'E' ∷ [])
        file_descriptor (b'N' ∷ b'U' ∷ b'L' ∷ b'L' ∷ [])
    s ← current
    let pointer = pointer_of file_descriptor pid s.kernel
    let i = object_index pointer
    let kind = (entry_of i s.kernel).kind
    if pointer == 0
        then give tt
        else if kind == gote_type_pipe
        then write_pipe i
        else if kind == gote_type_socket
        then write_socket i pid
        else give tt

  unfoldable pub sys_read : ℕ → ℕ → S (Unit {0})
  sys_read file_descriptor pid = do
    insert_kernel_log pid (b'S' ∷ b'Y' ∷ b'S' ∷ b'R' ∷ b'E' ∷ b'A' ∷ b'D' ∷ []) file_descriptor
        (b'N' ∷ b'U' ∷ b'L' ∷ b'L' ∷ [])
    s ← current
    let pointer = pointer_of file_descriptor pid s.kernel
    let i = object_index pointer
    let kind = (entry_of i s.kernel).kind
    if pointer == 0
        then give tt
        else if kind == gote_type_pipe
        then read_pipe i
        else if kind == gote_type_socket
        then read_socket i
        else give tt
