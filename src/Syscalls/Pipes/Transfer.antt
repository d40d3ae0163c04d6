-- ===== src/Syscalls/Pipes/Transfer.antt =====
-- What a process writes to a pipe, another reads from it (sysWrite and sysRead of syscalls.cpp).
use ikan_osv5_student.Prelude.{
  ℕ, zero, suc, ◌+◌, ◌-◌, ◌≤◌, ◌<◌, ◌≡◌, refl, sym, ap, ◌∙◌, ◌≢◌, inl, inr, true, List, [], ◌∷◌,
  arith, ◌==◌, length, get_or, set, Bool-cases, get_or-set_self, get_or-set_ne, length-set,
}
use ikan_osv5_student.Kernel.{Kernel, ObjectEntry, global_object_table}
use ikan_osv5_student.Kernel.Locks.{IsFree}
use ikan_osv5_student.Objects.{no_object}
use ikan_osv5_student.Syscalls.{◌>>◌, System, ◌>>◌, bytecpy, returned}
use ikan_osv5_student.Syscalls.Copies.{Apart, bytecpy-inside}
use ikan_osv5_student.Syscalls.Pipes.{
  pipe_buf_size, entry_of, with_entry, find_buffer_owner, NetworkParameter, write_pipe, read_pipe,
  sys_write, sys_read,
}
use ikan_osv5_student.Syscalls.Pipes.Effects.{
  written, writer_of, received, write_pipe-free, read_pipe-free, IsPipe, write_logged, read_logged,
  sys_write-pipe, sys_read-pipe,
}

find_buffer_owner-set :
    (kb n : ℕ) (objects : List ObjectEntry) (i : ℕ) (o : ObjectEntry)
    → o.kernel_space_buffer ≡ (get_or objects i no_object).kernel_space_buffer
    → find_buffer_owner kb n (set objects i o) ≡ find_buffer_owner kb n objects
unfolding find_buffer_owner
find_buffer_owner-set kb n [] i o h = refl
find_buffer_owner-set kb n (p ∷ objects) zero o h = rw (h, find_buffer_owner) refl
find_buffer_owner-set kb n (p ∷ objects) (suc i) o h =
    rw (find_buffer_owner-set kb (suc n) objects i o h, find_buffer_owner) refl

find_buffer_owner-le : (kb n : ℕ) (objects : List ObjectEntry) → n ≤ find_buffer_owner kb n objects
unfolding find_buffer_owner
find_buffer_owner-le kb n [] = omega arith
find_buffer_owner-le kb n (p ∷ objects) = ground (arith, find_buffer_owner-le kb (suc n) objects)

find_buffer_owner-buffer :
    (kb n i : ℕ) (objects : List ObjectEntry)
    → find_buffer_owner kb n objects ≡ n + i
    → i < length objects
    → (get_or objects i no_object).kernel_space_buffer ≡ kb
unfolding find_buffer_owner
find_buffer_owner-buffer kb n i [] h l = absurd (omega arith)
find_buffer_owner-buffer kb n zero (p ∷ objects) h l =
    ground (arith, find_buffer_owner-le kb (suc n) objects)
find_buffer_owner-buffer kb n (suc i) (p ∷ objects) h l =
    elim (Bool-cases (p.kernel_space_buffer == kb)) [
      | inl own ↦ absurd (ground arith)
      | inr other ↦ find_buffer_owner-buffer kb (suc n) i objects (ground arith) (omega arith)
    ]

module _ (net_udp_send : NetworkParameter → System → System) (net_udp_rcv : System → System)
    (fw w i : ℕ) (s : System) where
  -- With the table's lock free, a second write to a pipe that nobody has read from changes nothing
  -- but the kernel's log.
  pub sys_write-sys_write :
      IsFree global_object_table s.kernel.semaphores
      → IsPipe fw w i s.kernel
      → i < length s.kernel.objects
      → (entry_of i s.kernel).write_offset ≢ pipe_buf_size - 1
      → (sys_write net_udp_send net_udp_rcv fw w >> sys_write net_udp_send net_udp_rcv fw w) s
        ≡ returned tt (write_logged fw w (written i (write_logged fw w s)))
  unfolding write_pipe
  sys_write-sys_write free pipe inside room =
      let first : System = written i (write_logged fw w s) in
      let new : ObjectEntry = record (entry_of i s.kernel) { write_offset = pipe_buf_size - 1 } in
      let entry : entry_of i first.kernel ≡ new =
        get_or-set_self s.kernel.objects i new no_object inside in
      let again : IsPipe fw w i first.kernel = record {
        opened = pipe.opened;
        index = pipe.index;
        kind = ap (λ o. o.kind) entry ∙ pipe.kind;
      } in
      let full : ((entry_of i first.kernel).write_offset == pipe_buf_size - 1) ≡ true =
        ap (λ o. o.write_offset == pipe_buf_size - 1) entry ∙ ground arith in
      ap (λ x. ((λ t. x) >> sys_write net_udp_send net_udp_rcv fw w) s)
        (sys_write-pipe net_udp_send net_udp_rcv fw w i s pipe
          ∙ write_pipe-free i (write_logged fw w s) free room)
      ∙ (sys_write-pipe net_udp_send net_udp_rcv fw w i first again ∙ rw full refl)

-- The pipe of entry `i` for the writer, of entry `j` for the reader.
pub record IsConnected (fw w i fr r j : ℕ) (k : Kernel) : Type 0 where
  pub unlocked : IsFree global_object_table k.semaphores
  pub to_write : IsPipe fw w i k
  pub to_read : IsPipe fr r j k
  pub in_table : i < length k.objects
  pub distinct : i ≢ j
  pub owner : writer_of j k ≡ i
  pub apart_writer :
      Apart pipe_buf_size (entry_of i k).kernel_space_buffer (entry_of i k).userspace_buffer
  pub apart_reader :
      Apart pipe_buf_size (entry_of j k).userspace_buffer (entry_of j k).kernel_space_buffer

module _ (net_udp_send : NetworkParameter → System → System) (net_udp_rcv : System → System)
    (fw w i fr r j : ℕ) (s : System) where
  abbrev sent : System
  sent = read_logged fr r (written i (write_logged fw w s))

  reader_entry : IsConnected fw w i fr r j s.kernel → entry_of j sent.kernel ≡ entry_of j s.kernel
  reader_entry c = get_or-set_ne s.kernel.objects i j _ no_object c.distinct

  writer_entry :
      IsConnected fw w i fr r j s.kernel
      → entry_of i sent.kernel ≡ record (entry_of i s.kernel) { write_offset = pipe_buf_size - 1 }
  writer_entry c = get_or-set_self s.kernel.objects i _ no_object c.in_table

  writer-sent : IsConnected fw w i fr r j s.kernel → writer_of j sent.kernel ≡ i
  writer-sent c =
      ap (λ o. find_buffer_owner o.kernel_space_buffer 0 sent.kernel.objects) (reader_entry c)
      ∙ (find_buffer_owner-set (entry_of j s.kernel).kernel_space_buffer 0 s.kernel.objects i _ refl
          ∙ c.owner)

  -- Where a pipe connects a writer and a reader (each has a descriptor for an entry of its own with
  -- the same kernel buffer, the writer's the first such entry; user and kernel buffers are apart;
  -- the table's lock is free) and is not full, a write followed by a read returns, copies every
  -- byte of the writer's buffer to the reader's, empties the pipe, and frees the lock.
  pub sys_read-sys_write :
      (k : ℕ)
      → IsConnected fw w i fr r j s.kernel
      → (entry_of i s.kernel).write_offset ≢ pipe_buf_size - 1
      → k < pipe_buf_size
      → (s' : System) × ((sys_write net_udp_send net_udp_rcv fw w
              >> sys_read net_udp_send net_udp_rcv fr r)
            s
          ≡ returned tt s')
        × (s'.memory ((entry_of j s.kernel).userspace_buffer + k)
            ≡ s.memory ((entry_of i s.kernel).userspace_buffer + k))
        × ((entry_of i s'.kernel).write_offset ≡ 0)
        × (s'.kernel.semaphores ≡ s.kernel.semaphores)
  sys_read-sys_write k c room h = (
    received j sent,
    ap (λ x. ((λ t. x) >> sys_read net_udp_send net_udp_rcv fr r) s) wrote
        ∙ (sys_read-pipe net_udp_send net_udp_rcv fr r j (written i (write_logged fw w s))
              still_reader
            ∙ read_pipe-free j sent c.unlocked filled),
    same_byte,
    reset,
    refl,
  )
    where
      wrote :
          sys_write net_udp_send net_udp_rcv fw w s ≡ returned tt (written i (write_logged fw w s))
      wrote =
          sys_write-pipe net_udp_send net_udp_rcv fw w i s c.to_write
          ∙ write_pipe-free i (write_logged fw w s) c.unlocked room

      still_reader : IsPipe fr r j sent.kernel
      still_reader = record {
        opened = c.to_read.opened;
        index = c.to_read.index;
        kind = ap (λ o. o.kind) (reader_entry c) ∙ c.to_read.kind;
      }

      filled : (entry_of (writer_of j sent.kernel) sent.kernel).write_offset ≢ 0
      filled e =
          let full : (entry_of i sent.kernel).write_offset ≡ pipe_buf_size - 1 =
            ap (λ o. o.write_offset) (writer_entry c) in
          let none_there : (entry_of i sent.kernel).write_offset ≡ 0 =
            ap (λ n. (entry_of n sent.kernel).write_offset) (sym (writer-sent c)) ∙ e in
          absurd (omega arith)

      same_buffer :
          (entry_of i s.kernel).kernel_space_buffer ≡ (entry_of j s.kernel).kernel_space_buffer
      same_buffer =
          find_buffer_owner-buffer (entry_of j s.kernel).kernel_space_buffer 0 i s.kernel.objects
            (c.owner ∙ omega arith) c.in_table

      same_byte :
          (received j sent).memory ((entry_of j s.kernel).userspace_buffer + k)
          ≡ s.memory ((entry_of i s.kernel).userspace_buffer + k)
      same_byte =
          ap
            (λ o.
              bytecpy pipe_buf_size o.userspace_buffer o.kernel_space_buffer sent.memory
                ((entry_of j s.kernel).userspace_buffer + k))
            (reader_entry c)
          ∙ (bytecpy-inside pipe_buf_size (entry_of j s.kernel).userspace_buffer
                (entry_of j s.kernel).kernel_space_buffer sent.memory k h c.apart_reader
              ∙ (ap (λ b. sent.memory (b + k)) (sym same_buffer)
                  ∙ bytecpy-inside pipe_buf_size (entry_of i s.kernel).kernel_space_buffer
                      (entry_of i s.kernel).userspace_buffer s.memory k h c.apart_writer))

      read : Kernel
      read =
          with_entry j (record (entry_of j sent.kernel) { write_offset = pipe_buf_size - 1 })
            sent.kernel

      wide : writer_of j sent.kernel < length read.objects
      wide =
          let lengths : length read.objects ≡ length s.kernel.objects =
            length-set sent.kernel.objects j _ ∙ length-set s.kernel.objects i _ in
          let at_i : writer_of j sent.kernel ≡ i = writer-sent c in
          let inside : i < length s.kernel.objects = c.in_table in omega arith

      reset : (entry_of i (received j sent).kernel).write_offset ≡ 0
      reset =
          ap (λ n. (entry_of n (received j sent).kernel).write_offset) (sym (writer-sent c))
          ∙ ap (λ o. o.write_offset)
              (get_or-set_self read.objects (writer_of j sent.kernel) _ no_object wide)

  -- Where the reader's entry, not yet read from, is the first with the kernel buffer, a read after
  -- the writer's write takes the pipe for empty and changes nothing but the kernel's log.
  pub sys_read_misses :
      IsFree global_object_table s.kernel.semaphores
      → IsPipe fw w i s.kernel
      → IsPipe fr r j s.kernel
      → i ≢ j
      → (entry_of i s.kernel).write_offset ≢ pipe_buf_size - 1
      → writer_of j s.kernel ≡ j
      → (entry_of j s.kernel).write_offset ≡ 0
      → (sys_write net_udp_send net_udp_rcv fw w >> sys_read net_udp_send net_udp_rcv fr r) s
        ≡ returned tt (read_logged fr r (written i (write_logged fw w s)))
  unfolding read_pipe
  sys_read_misses free to_write to_read distinct room own unread =
      let first : System = written i (write_logged fw w s) in
      let entry : entry_of j first.kernel ≡ entry_of j s.kernel =
        get_or-set_ne s.kernel.objects i j _ no_object distinct in
      let still : IsPipe fr r j first.kernel = record {
        opened = to_read.opened;
        index = to_read.index;
        kind = ap (λ o. o.kind) entry ∙ to_read.kind;
      } in
      let found : writer_of j first.kernel ≡ j =
        ap (λ o. find_buffer_owner o.kernel_space_buffer 0 first.kernel.objects) entry
        ∙ (find_buffer_owner-set (entry_of j s.kernel).kernel_space_buffer 0 s.kernel.objects i _
              refl
            ∙ own) in
      let empty : ((entry_of (writer_of j first.kernel) first.kernel).write_offset == 0) ≡ true =
        ap (λ n. (entry_of n first.kernel).write_offset == 0) found
        ∙ (ap (λ o. o.write_offset == 0) entry ∙ ground arith) in
      ap (λ x. ((λ t. x) >> sys_read net_udp_send net_udp_rcv fr r) s)
        (sys_write-pipe net_udp_send net_udp_rcv fw w i s to_write
          ∙ write_pipe-free i (write_logged fw w s) free room)
      ∙ (sys_read-pipe net_udp_send net_udp_rcv fr r j first still ∙ rw empty refl)
