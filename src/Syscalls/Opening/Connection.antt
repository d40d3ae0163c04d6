-- ===== src/Syscalls/Opening/Connection.antt =====
-- Opening a pipe by its name (sysOpenPipe of syscalls.cpp).
use ikan_osv5_student.Prelude.{
  none, Option, get_or-set_self, ℕ, ◌+◌, ◌*◌, ◌%◌, ◌^◌, ◌<◌, ◌≡◌, refl, ap, ◌∙◌, Bool, true, some,
  List, [], ◌∷◌, arith, length, get_or, set,
}
use ikan_osv5_student.Libc.Strings.{remove_newline}
use ikan_osv5_student.Kernel.{Kernel, M, done, global_object_table}
use ikan_osv5_student.Kernel.Locks.{IsFree}
use ikan_osv5_student.Heap.{kernel_usable, malloc}
use ikan_osv5_student.Objects.{
  no_object, ObjectRequest, fill_object, insert_global_object_table_entry,
}
use ikan_osv5_student.Objects.Table.{insert-some, free_entry}
use ikan_osv5_student.Process.{no_task, task_index}
use ikan_osv5_student.Syscalls.{
  give, ◌>>◌, System, S, give, on_kernel, kernel_log_max_events, insert_kernel_log, kernel_heap,
  k_malloc, object_pointer, object_index, fill_memory, returned,
}
use ikan_osv5_student.Syscalls.Steps.{bind-returned, on_kernel-done}
use ikan_osv5_student.Syscalls.Pipes.{
  syscall_fail, gote_type_pipe, task_of, pointer_of, entry_of, find_pipe,
}
use ikan_osv5_student.Syscalls.Pipes.Effects.{IsPipe}
use ikan_osv5_student.Syscalls.Opening.{
  page_size, copy_name, with_task, attach, pipe_request, request_buffer, sys_open_pipe,
}

abbrev pub with_heap : List (List ℕ) → System → System
with_heap heap s = record s { heap = heap }

-- The state after the entry of `sysOpenPipe` in the log.
abbrev pub opening : ℕ → List ℕ → ℕ → System → System
opening file_descriptor file_name pid s = record s {
  log = set s.log s.next_write (record {
    interrupt_count = s.total_interrupt_count;
    pid = pid;
    kind = b'S' ∷ b'Y' ∷ b'S' ∷ b'O' ∷ b'P' ∷ b'I' ∷ b'P' ∷ b'E' ∷ [];
    value = file_descriptor;
    description = file_name;
  });
  next_write = (s.next_write + 1) % kernel_log_max_events;
}

-- The state after a name was copied.
abbrev pub named : ℕ → ℕ → System → System
named pid size s = with_heap (malloc kernel_usable pid size s.heap).1 s

k_malloc-some :
    (pid size m : ℕ) (s : System)
    → (malloc kernel_usable pid size s.heap).0 ≡ some m
    → k_malloc pid size s ≡ returned (some (kernel_heap + m * 0x402 + 1)) (named pid size s)
unfolding k_malloc
k_malloc-some pid size m s h = rw (h, k_malloc) refl

copy_name-some :
    (pid size m : ℕ) (file_name : List ℕ) (s : System)
    → (malloc kernel_usable pid size s.heap).0 ≡ some m
    → copy_name pid size file_name s ≡ returned (remove_newline file_name) (named pid size s)
unfolding copy_name
copy_name-some pid size m file_name s h =
    bind-returned (k_malloc pid size) _ s _ _ (k_malloc-some pid size m s h)

-- The tables after an insertion.
abbrev pub inserted : ℕ → ObjectRequest → Kernel → Kernel
inserted j r k = record k {
  objects = set k.objects j (fill_object (get_or k.objects j no_object) r);
}

abbrev pub attached : ℕ → ℕ → ObjectRequest → ℕ → System → System
attached pid buffer r j s =
    let t = task_of pid s.kernel in
    let fd = t.next_available_file_descriptor in
    record s {
      kernel =
          with_task pid
            (record t {
              file_descriptor = set t.file_descriptor fd (object_pointer j);
              next_available_file_descriptor = (fd + 1) % 2 ^ 32;
            })
            (inserted j r s.kernel);
      buffers = set s.buffers fd buffer;
      buffer_sizes = set s.buffer_sizes fd (entry_of j (inserted j r s.kernel)).size;
      current_file_descriptor = fd;
      current_file_descriptor_ptr = buffer;
    }

attach-some :
    (pid buffer j : ℕ) (r : ObjectRequest) (s : System)
    → IsFree global_object_table s.kernel.semaphores
    → free_entry s.kernel ≡ some j
    → attach pid buffer r s ≡ returned tt (attached pid buffer r j s)
unfolding attach
attach-some pid buffer j r s f e =
    bind-returned (on_kernel (insert_global_object_table_entry r)) _ s _ _ (
      on_kernel-done (insert_global_object_table_entry r) s j (inserted j r s.kernel)
        (insert-some r s.kernel j f e))

-- With an entry in the table and room for a descriptor, the new descriptor is that of the new pipe.
attached-IsPipe :
    (pid buffer j : ℕ) (r : ObjectRequest) (s : System)
    → j < length s.kernel.objects
    → task_index pid < length s.kernel.tasks
    → (task_of pid s.kernel).next_available_file_descriptor
      < length (task_of pid s.kernel).file_descriptor
    → r.kind ≡ gote_type_pipe
    → IsPipe
        (task_of pid s.kernel).next_available_file_descriptor
        pid
        j
        (attached pid buffer r j s).kernel
unfolding fill_object
attached-IsPipe pid buffer j r s in_table known room kind =
    let k' : Kernel = (attached pid buffer r j s).kernel in
    let fd : ℕ = (task_of pid s.kernel).next_available_file_descriptor in
    let task : task_of pid k' ≡ _ =
      get_or-set_self s.kernel.tasks (task_index pid) _ no_task known in
    let pointer : pointer_of fd pid k' ≡ object_pointer j =
      ap (λ t. get_or t.file_descriptor fd 0) task
      ∙ get_or-set_self (task_of pid s.kernel).file_descriptor fd (object_pointer j) 0 room in
    record {
      opened = λ e. absurd (omega arith);
      index = ap object_index pointer ∙ omega arith;
      kind = ap (λ o. o.kind) (get_or-set_self s.kernel.objects j _ no_object in_table) ∙ kind;
    }

module _ (find_buffer : ℕ → ℕ → Kernel → ℕ) (request_specific_page : ℕ → ℕ → M Bool) (pid : ℕ) where
  -- The page is mapped, which changes page frames at most.
  pub record IsGranted (k : Kernel) (frames : List ℕ) : Type 0 where
    pub granted :
        request_specific_page pid (find_buffer pid 1 k) k ≡ done true (record k { frames = frames })

  abbrev pub with_page : List ℕ → System → System
  with_page frames s = record s {
    kernel = record s.kernel { frames = frames };
    memory = fill_memory page_size (find_buffer pid 1 s.kernel) 0 s.memory;
  }

  request_buffer-granted :
      (s : System) (frames : List ℕ)
      → IsGranted s.kernel frames
      → request_buffer find_buffer request_specific_page pid s
        ≡ returned (find_buffer pid 1 s.kernel) (with_page frames s)
  unfolding request_buffer
  request_buffer-granted s frames g =
      bind-returned (on_kernel (request_specific_page pid (find_buffer pid 1 s.kernel))) _ s _ _ (
        on_kernel-done (request_specific_page pid (find_buffer pid 1 s.kernel)) s true
          (record s.kernel { frames = frames }) g.granted)

  -- What `sysOpenPipe` needs to find the pipe of entry `p` and to make entry `j`.
  pub record IsOpenable (file_name : List ℕ) (size m p j : ℕ) (frames : List ℕ) (s : System)
      : Type 0 where
    pub unlocked : IsFree global_object_table s.kernel.semaphores
    pub room_for_name : (malloc kernel_usable pid size s.heap).0 ≡ some m
    pub page : IsGranted s.kernel frames
    pub found : find_pipe (remove_newline file_name) 0 s.kernel.objects ≡ some p
    pub free_slot : free_entry s.kernel ≡ some j
    pub in_table : j < length s.kernel.objects
    pub known : task_index pid < length s.kernel.tasks
    pub descriptors :
        (task_of pid s.kernel).next_available_file_descriptor
        < length (task_of pid s.kernel).file_descriptor

  -- Where a pipe has the name, and a page, room for the name, an entry and a descriptor are there,
  -- opening the pipe succeeds: the process's next descriptor is that of a new pipe entry with the
  -- same kernel buffer and a user buffer of its own, the descriptor is reported, and the table's
  -- lock is free.
  pub sys_open_pipe_lem :
      (file_descriptor size m p j : ℕ) (file_name frames : List ℕ) (s : System)
      → IsOpenable file_name size m p j frames s
      → (s' : System) × (sys_open_pipe find_buffer request_specific_page file_descriptor file_name
            size pid s
          ≡ returned 0 s')
        × IsPipe (task_of pid s.kernel).next_available_file_descriptor pid j s'.kernel
        × ((entry_of j s'.kernel).kernel_space_buffer ≡ (entry_of p s.kernel).kernel_space_buffer)
        × ((entry_of j s'.kernel).userspace_buffer ≡ find_buffer pid 1 s.kernel)
        × (s'.current_file_descriptor ≡ (task_of pid s.kernel).next_available_file_descriptor)
        × (s'.kernel.semaphores ≡ s.kernel.semaphores)
  unfolding sys_open_pipe insert_kernel_log attach fill_object
  sys_open_pipe_lem file_descriptor size m p j file_name frames s o = (
    s4,
    run,
    attached-IsPipe pid buffer j r s3 o.in_table o.known o.descriptors refl,
    ap (λ e. e.kernel_space_buffer) entry,
    ap (λ e. e.userspace_buffer) entry,
    refl,
    refl,
  )
    where
      buffer : ℕ
      buffer = find_buffer pid 1 s.kernel

      s1 : System
      s1 = opening file_descriptor file_name pid s

      s3 : System
      s3 = with_page frames (named pid size s1)

      r : ObjectRequest
      r =
          pipe_request pid buffer (entry_of p s.kernel).kernel_space_buffer
            (remove_newline file_name) 0

      s4 : System
      s4 = attached pid buffer r j s3

      entry : entry_of j s4.kernel ≡ fill_object (get_or s.kernel.objects j no_object) r
      entry = get_or-set_self s.kernel.objects j _ no_object o.in_table

      rest : Option ℕ → S ℕ
      rest found = elim found [
        | none ↦ give syscall_fail
        | some i ↦
            attach pid buffer (
              pipe_request pid buffer (entry_of i s.kernel).kernel_space_buffer
                (remove_newline file_name) 0)
            >> give 0
      ]

      run :
          sys_open_pipe find_buffer request_specific_page file_descriptor file_name size pid s
          ≡ returned 0 s4
      run =
          bind-returned (copy_name pid size file_name) _ s1 (named pid size s1)
            (remove_newline file_name) (copy_name-some pid size m file_name s1 o.room_for_name)
          ∙ (bind-returned (request_buffer find_buffer request_specific_page pid) _
                (named pid size s1) s3 buffer
                (request_buffer-granted (named pid size s1) frames o.page)
              ∙ (ap (λ found. rest found s3) o.found
                  ∙ bind-returned (attach pid buffer r) (λ t. give 0) s3 s4 tt
                      (attach-some pid buffer j r s3 o.unlocked o.free_slot)))
