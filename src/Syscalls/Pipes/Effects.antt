-- ===== src/Syscalls/Pipes/Effects.antt =====
-- What sysWrite and sysRead of syscalls.cpp do to a pipe under a free lock.
use ikan_osv5_student.Prelude.{
  ℕ, ◌+◌, ◌-◌, ◌%◌, ◌≡◌, refl, ap, ◌∙◌, ◌≢◌, true, false, Option, none, some, List, [], ◌∷◌, arith,
  ◌==◌, set,
}
use ikan_osv5_student.Kernel.{
  Kernel, M, ObjectEntry, done, spinning, take_lock, release_once, global_object_table,
}
use ikan_osv5_student.Semaphore.{Semaphore}
use ikan_osv5_student.Kernel.Locks.{IsFree, held, lock-free, release-held}
use ikan_osv5_student.Syscalls.{
  ◌>>◌, System, S, ◌>>◌, change, on_kernel, kernel_log_max_events, insert_kernel_log, object_index,
  bytecpy, returned,
}
use ikan_osv5_student.Syscalls.Pipes.{
  gote_type_pipe, pipe_buf_size, pointer_of, entry_of, with_entry, find_buffer_owner,
  NetworkParameter, write_pipe, read_pipe, sys_write, sys_read,
}

-- The state after a write to the pipe of entry `i`, its log aside.
abbrev pub written : ℕ → System → System
written i s =
    let o = entry_of i s.kernel in
    record s {
      memory = bytecpy pipe_buf_size o.kernel_space_buffer o.userspace_buffer s.memory;
      kernel = with_entry i (record o { write_offset = pipe_buf_size - 1 }) s.kernel;
    }

abbrev pub writer_of : ℕ → Kernel → ℕ
writer_of i k = find_buffer_owner (entry_of i k).kernel_space_buffer 0 k.objects

abbrev pub received : ℕ → System → System
received i s =
    let o = entry_of i s.kernel in
    let w = writer_of i s.kernel in
    let read = with_entry i (record o { write_offset = pipe_buf_size - 1 }) s.kernel in
    record s {
      memory = bytecpy pipe_buf_size o.userspace_buffer o.kernel_space_buffer s.memory;
      kernel =
          with_entry w (record (entry_of w read) { read_offset = o.read_offset; write_offset = 0 })
            read;
    }

-- Under a free lock, a change that leaves the semaphores alone takes effect.
locked : (System → System) → S (Unit {0})
locked f = do
  on_kernel (take_lock global_object_table)
  change f
  on_kernel (release_once global_object_table)

with_semaphores : List Semaphore → System → System
with_semaphores t s = record s { kernel = record s.kernel { semaphores = t } }

-- The result of a lock's operation, where it is known.
after : Option (List Semaphore) → M (Unit {0})
after found k = elim found [ none ↦ spinning | some t ↦ done tt (record k { semaphores = t }) ]

locked-free :
    (f : System → System) (s : System)
    → IsFree global_object_table s.kernel.semaphores
    → ((t : List Semaphore) → f (with_semaphores t s) ≡ with_semaphores t (f s))
    → locked f s ≡ returned tt (with_semaphores s.kernel.semaphores (f s))
unfolding locked with_semaphores after
locked-free f s free commutes =
    let t : List Semaphore = s.kernel.semaphores in
    ap (λ o. (on_kernel (after o) >> (change f >> on_kernel (release_once global_object_table))) s)
      (lock-free global_object_table t free)
    ∙ (ap (λ x. on_kernel (release_once global_object_table) x)
          (commutes (held global_object_table t))
        ∙ ap (λ u. returned tt (with_semaphores u (f s))) (release-held global_object_table t free))

pub write_pipe-free :
    (i : ℕ) (s : System)
    → IsFree global_object_table s.kernel.semaphores
    → (entry_of i s.kernel).write_offset ≢ pipe_buf_size - 1
    → write_pipe i s ≡ returned tt (written i s)
unfolding write_pipe locked with_semaphores
write_pipe-free i s f room =
    let e : ((entry_of i s.kernel).write_offset == pipe_buf_size - 1) ≡ false = ground arith in
    rw e (
      locked-free
        (λ t. record t {
          memory =
              bytecpy pipe_buf_size (entry_of i s.kernel).kernel_space_buffer
                (entry_of i s.kernel).userspace_buffer t.memory;
          kernel =
              with_entry i (record (entry_of i s.kernel) { write_offset = pipe_buf_size - 1 })
                t.kernel;
        })
        s f (λ t. refl))

pub read_pipe-free :
    (i : ℕ) (s : System)
    → IsFree global_object_table s.kernel.semaphores
    → (entry_of (writer_of i s.kernel) s.kernel).write_offset ≢ 0
    → read_pipe i s ≡ returned tt (received i s)
unfolding read_pipe locked with_semaphores
read_pipe-free i s f filled =
    let o : ObjectEntry = entry_of i s.kernel in
    let w : ℕ = writer_of i s.kernel in
    let e : ((entry_of w s.kernel).write_offset == 0) ≡ false = ground arith in
    rw e (
      locked-free
        (λ t.
          let read = with_entry i (record o { write_offset = pipe_buf_size - 1 }) t.kernel in
          record t {
            memory = bytecpy pipe_buf_size o.userspace_buffer o.kernel_space_buffer t.memory;
            kernel =
                with_entry w
                  (record (entry_of w read) { read_offset = o.read_offset; write_offset = 0 }) read;
          })
        s f (λ t. refl))

-- The descriptor of a process is that of the pipe with entry `i`.
pub record IsPipe (file_descriptor pid i : ℕ) (k : Kernel) : Type 0 where
  pub opened : pointer_of file_descriptor pid k ≢ 0
  pub index : object_index (pointer_of file_descriptor pid k) ≡ i
  pub kind : (entry_of i k).kind ≡ gote_type_pipe

-- The state after the handler's entry in the log.
abbrev pub logged : ℕ → List ℕ → ℕ → System → System
logged pid kind value s = record s {
  log = set s.log s.next_write (record {
    interrupt_count = s.total_interrupt_count;
    pid = pid;
    kind = kind;
    value = value;
    description = b'N' ∷ b'U' ∷ b'L' ∷ b'L' ∷ [];
  });
  next_write = (s.next_write + 1) % kernel_log_max_events;
}

abbrev pub write_logged : ℕ → ℕ → System → System
write_logged fd pid s = logged pid (b'S' ∷ b'Y' ∷ b'S' ∷ b'W' ∷ b'R' ∷ b'I' ∷ b'T' ∷ b'E' ∷ []) fd s

abbrev pub read_logged : ℕ → ℕ → System → System
read_logged fd pid s = logged pid (b'S' ∷ b'Y' ∷ b'S' ∷ b'R' ∷ b'E' ∷ b'A' ∷ b'D' ∷ []) fd s

module _ (net_udp_send : NetworkParameter → System → System) (net_udp_rcv : System → System) where
  pub sys_write-pipe :
      (fd pid i : ℕ) (s : System)
      → IsPipe fd pid i s.kernel
      → sys_write net_udp_send net_udp_rcv fd pid s ≡ write_pipe i (write_logged fd pid s)
  unfolding sys_write insert_kernel_log
  sys_write-pipe fd pid i s p =
      let e : (pointer_of fd pid s.kernel == 0) ≡ false = ground (arith, p.opened) in
      let e' : ((entry_of i s.kernel).kind == gote_type_pipe) ≡ true = ground (arith, p.kind) in
      rw (e, p.index, e') refl

  pub sys_read-pipe :
      (fd pid i : ℕ) (s : System)
      → IsPipe fd pid i s.kernel
      → sys_read net_udp_send net_udp_rcv fd pid s ≡ read_pipe i (read_logged fd pid s)
  unfolding sys_read insert_kernel_log
  sys_read-pipe fd pid i s p =
      let e : (pointer_of fd pid s.kernel == 0) ≡ false = ground (arith, p.opened) in
      let e' : ((entry_of i s.kernel).kind == gote_type_pipe) ≡ true = ground (arith, p.kind) in
      rw (e, p.index, e') refl
