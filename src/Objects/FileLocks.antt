-- ===== src/Objects/FileLocks.antt =====
-- The write locks of `lockFile` and `fileAvailableToBeLocked` (file.cpp).
use ikan_osv5_student.Prelude.{
  ℕ, ◌≡◌, ◌≢◌, inl, inr, true, false, List, [], ◌∷◌, if◌then◌else◌, arith, refl, Bool-cases,
}
use ikan_osv5_student.Kernel.{Kernel, ObjectEntry, done, global_object_table}
use ikan_osv5_student.Kernel.Locks.{IsFree, lock-free, unlock-held}
use ikan_osv5_student.Objects.{
  file_available_to_be_locked, mark_entry, lock_file, close_entries, close_all_files,
}

mark_entry_taken :
    (pid inode : ℕ) (l : List ObjectEntry)
    → pid ≢ 0
    → (mark_entry pid inode l).0 ≡ true
    → file_available_to_be_locked inode (mark_entry pid inode l).1 ≡ false
unfolding mark_entry file_available_to_be_locked
mark_entry_taken pid inode [] p h = cc
mark_entry_taken pid inode (o ∷ l) p h = ground (arith, mark_entry_taken pid inode l p)

mark_entry_failed :
    (pid inode : ℕ) (l : List ObjectEntry)
    → (mark_entry pid inode l).0 ≡ false
    → (mark_entry pid inode l).1 ≡ l
unfolding mark_entry
mark_entry_failed pid inode [] h = refl
mark_entry_failed pid inode (o ∷ l) h = ground (arith, mark_entry_failed pid inode l)

lock_file-eq :
    (pid inode : ℕ) (k : Kernel)
    → IsFree global_object_table k.semaphores
    → lock_file pid inode k ≡ (
        if file_available_to_be_locked inode k.objects
        then done
            (mark_entry pid inode k.objects).0
            (record k { objects = (mark_entry pid inode k.objects).1 })
        else done false k)
unfolding lock_file
lock_file-eq pid inode k f = ground (
  arith,
  lock-free global_object_table k.semaphores f,
  unlock-held global_object_table k.semaphores f,
)

-- With the lock of the table free, a process that locks a file found it unlocked, and from then on
-- no process can lock it: every attempt returns false and changes nothing.
pub lock_file_exclusive :
    (pid pid' inode : ℕ) (k k' : Kernel)
    → IsFree global_object_table k.semaphores
    → pid ≢ 0
    → lock_file pid inode k ≡ done true k'
    → (file_available_to_be_locked inode k.objects ≡ true)
      × (file_available_to_be_locked inode k'.objects ≡ false)
      × (lock_file pid' inode k' ≡ done false k')
lock_file_exclusive pid pid' inode k k' f p h =
    elim (Bool-cases (file_available_to_be_locked inode k.objects)) [
      | inr n ↦ absurd (ground (arith, lock_file-eq pid inode k f))
      | inl a ↦
          let (l, taken) = mark_entry pid inode k.objects in
          let k2 : Kernel = record k { objects = (mark_entry pid inode k.objects).1 } in
          let state : k' ≡ k2 = ground (arith, lock_file-eq pid inode k f) in
          let marked : (mark_entry pid inode k.objects).0 ≡ true =
            ground (arith, lock_file-eq pid inode k f) in
          let held_now = mark_entry_taken pid inode k.objects p marked in
          rw state (a, held_now, ground (arith, lock_file-eq pid' inode k2 f))
    ]

-- With the lock of the table free, an attempt to lock a file that returns false leaves the kernel's
-- state as it was.
lock_file-false :
    (pid inode : ℕ) (k k' : Kernel)
    → IsFree global_object_table k.semaphores
    → lock_file pid inode k ≡ done false k'
    → k' ≡ k
lock_file-false pid inode k k' f h =
    ground (arith, lock_file-eq pid inode k f, mark_entry_failed pid inode k.objects)

available-close :
    (pid inode : ℕ) (l : List ObjectEntry)
    → file_available_to_be_locked inode l ≡ true
    → file_available_to_be_locked inode (close_entries pid l) ≡ true
unfolding file_available_to_be_locked close_entries
available-close pid inode [] h = refl
available-close pid inode (o ∷ l) h = ground (arith, available-close pid inode l)

available-close-mark :
    (pid inode : ℕ) (l : List ObjectEntry)
    → file_available_to_be_locked inode l ≡ true
    → file_available_to_be_locked inode (close_entries pid (mark_entry pid inode l).1) ≡ true
unfolding mark_entry file_available_to_be_locked close_entries
available-close-mark pid inode [] h = refl
available-close-mark pid inode (o ∷ l) h =
    ground (arith, available-close-mark pid inode l, available-close pid inode l)

-- With the lock of the table free, when the process that locked a file closes its files, the file
-- can be locked again.
pub close_releases :
    (pid inode : ℕ) (k k' k'' : Kernel)
    → IsFree global_object_table k.semaphores
    → lock_file pid inode k ≡ done true k'
    → close_all_files pid k' ≡ done tt k''
    → file_available_to_be_locked inode k''.objects ≡ true
unfolding close_all_files
close_releases pid inode k k' k'' f h h' =
    elim (Bool-cases (file_available_to_be_locked inode k.objects)) [
      | inr n ↦ absurd (ground (arith, lock_file-eq pid inode k f))
      | inl a ↦ ground (
        arith,
        lock_file-eq pid inode k f,
        lock-free global_object_table k.semaphores f,
        unlock-held global_object_table k.semaphores f,
        available-close-mark pid inode k.objects,
      )
    ]
