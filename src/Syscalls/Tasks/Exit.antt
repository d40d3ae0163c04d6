-- ===== src/Syscalls/Tasks/Exit.antt =====
-- What becomes of a process and its parent when it exits, and what sysMmap reports.
use ikan_osv5_student.Prelude.{
  Bool-cases, inl, inr, refl, sym, get_or-set_self, get_or-set_ne, length-set, length, Bool, ℕ, ◌+◌,
  ◌%◌, ◌<◌, ◌≡◌, ap, ◌∙◌, ◌≢◌, true, false, ◌||◌, not, some, [], ◌∷◌, arith, ◌==◌, if◌then◌else◌,
  length, set,
}
use ikan_osv5_student.Kernel.{Kernel, Task, M, done, process_table_loc}
use ikan_osv5_student.Kernel.Locks.{IsFree, lock-free, unlock-held}
use ikan_osv5_student.Syscalls.Steps.{bind-returned, on_kernel-done}
use ikan_osv5_student.Process.{no_task, task_index, update_task_state}
use ikan_osv5_student.Syscalls.{
  System, give, on_kernel, kernel_log_max_events, insert_kernel_log, returned,
}
use ikan_osv5_student.Syscalls.Pipes.{task_of}
use ikan_osv5_student.Syscalls.Opening.{with_task}
use ikan_osv5_student.Syscalls.Tasks.{
  sys_mmap, proc_sleeping, proc_running, proc_zombie, set_exit_code, sys_exit,
}

update_task_state-free :
    (pid state : ℕ) (k : Kernel)
    → IsFree process_table_loc k.semaphores
    → update_task_state pid state k
      ≡ done tt (with_task pid (record (task_of pid k) { state = state }) k)
unfolding update_task_state
update_task_state-free pid state k f = ground (
  arith,
  lock-free process_table_loc k.semaphores f,
  unlock-held process_table_loc k.semaphores f,
)

never_both : (n : ℕ) → (not (n == proc_sleeping) || not (n == proc_running)) ≡ true
never_both n = ground arith

-- Both processes have an entry of their own.
pub record IsFamily (pid : ℕ) (k : Kernel) : Type 0 where
  pub child : task_index pid < length k.tasks
  pub parent : task_index (task_of pid k).ppid < length k.tasks
  pub distinct : task_index (task_of pid k).ppid ≢ task_index pid

-- The state after the entry of `sysExit` in the log.
abbrev pub exit_logged : ℕ → System → System
exit_logged pid s = record s {
  log = set s.log s.next_write (record {
    interrupt_count = s.total_interrupt_count;
    pid = pid;
    kind = b'S' ∷ b'Y' ∷ b'S' ∷ b'E' ∷ b'X' ∷ b'I' ∷ b'T' ∷ [];
    value = 0;
    description = b'N' ∷ b'U' ∷ b'L' ∷ b'L' ∷ [];
  });
  next_write = (s.next_write + 1) % kernel_log_max_events;
}

module _ (pid exit_code : ℕ) (s : System) where
  abbrev opened : System
  opened = exit_logged pid (set_exit_code pid exit_code s)

  abbrev dead : Kernel
  dead = with_task pid (record (task_of pid opened.kernel) { state = proc_zombie }) opened.kernel

  abbrev parent_of : Kernel → ℕ
  parent_of k = (task_of pid k).ppid

  abbrev resumed : Kernel
  resumed =
      with_task (parent_of dead) (record (task_of (parent_of dead) dead) { state = proc_running })
        dead

  abbrev last : System
  last = record opened { kernel = resumed; running_pid = parent_of resumed }

  sys_exit_run :
      IsFree process_table_loc s.kernel.semaphores
      → pid ≢ 1
      → sys_exit pid exit_code s ≡ returned (some (parent_of resumed)) last
  unfolding sys_exit insert_kernel_log
  sys_exit_run f not_init =
      let e : (pid == 1) ≡ false = ground arith in
      let both : (not ((task_of (parent_of resumed) resumed).state == proc_sleeping)
            || not ((task_of (parent_of resumed) resumed).state == proc_running))
          ≡ true =
        never_both (task_of (parent_of resumed) resumed).state in
      rw e (
        bind-returned (on_kernel (update_task_state pid proc_zombie)) _ opened
          (record opened { kernel = dead }) tt
          (on_kernel-done (update_task_state pid proc_zombie) opened tt dead
            (update_task_state-free pid proc_zombie opened.kernel f))
        ∙ (bind-returned (on_kernel (update_task_state (parent_of dead) proc_running)) _
              (record opened { kernel = dead }) (record opened { kernel = resumed }) tt
              (on_kernel-done (update_task_state (parent_of dead) proc_running)
                (record opened { kernel = dead }) tt resumed
                (update_task_state-free (parent_of dead) proc_running dead f))
            ∙ ap (λ b. (if b then give (some (parent_of resumed)) else give (some 1)) last) both))

  own_entry :
      IsFamily pid s.kernel
      → task_of pid dead
        ≡ record (task_of pid s.kernel) { exit_code = exit_code; state = proc_zombie }
  own_entry c =
      get_or-set_self opened.kernel.tasks (task_index pid) _ no_task wide
      ∙ ap {A = Task} (λ t. record t { state = proc_zombie })
          (get_or-set_self s.kernel.tasks (task_index pid) _ no_task c.child)
    where
      wide : task_index pid < length opened.kernel.tasks
      wide = rw (length-set s.kernel.tasks (task_index pid) _) c.child

  same_parent : IsFamily pid s.kernel → parent_of dead ≡ parent_of s.kernel
  same_parent c = ap (λ t. t.ppid) (own_entry c)

  other_entry : (p : ℕ) → task_index p ≢ task_index pid → task_of p dead ≡ task_of p s.kernel
  other_entry p distinct =
      get_or-set_ne opened.kernel.tasks (task_index pid) (task_index p) _ no_task
        (λ e. distinct (sym e))
      ∙ get_or-set_ne s.kernel.tasks (task_index pid) (task_index p) _ no_task
          (λ e. distinct (sym e))

  -- With the lock of the process table free, a process other than the first that exits becomes a
  -- zombie with its exit code, its parent becomes running and is switched to whatever state it had,
  -- also that of a zombie, and the lock is free again.
  pub sys_exit_lem :
      IsFree process_table_loc s.kernel.semaphores
      → pid ≢ 1
      → IsFamily pid s.kernel
      → (s' : System) × (sys_exit pid exit_code s ≡ returned (some (task_of pid s.kernel).ppid) s')
        × (s'.running_pid ≡ (task_of pid s.kernel).ppid)
        × (task_of pid s'.kernel
            ≡ record (task_of pid s.kernel) { exit_code = exit_code; state = proc_zombie })
        × (task_of (task_of pid s.kernel).ppid s'.kernel
            ≡ record (task_of (task_of pid s.kernel).ppid s.kernel) { state = proc_running })
        × (s'.kernel.semaphores ≡ s.kernel.semaphores)
  sys_exit_lem f not_init c = (
    last,
    sys_exit_run f not_init ∙ ap (λ p. returned (some p) last) still_parent,
    still_parent,
    child,
    parent,
    refl,
  )
    where
      ppid : ℕ
      ppid = parent_of s.kernel

      apart : task_index (parent_of dead) ≢ task_index pid
      apart e = c.distinct (ap task_index (sym (same_parent c)) ∙ e)

      child :
          task_of pid resumed
          ≡ record (task_of pid s.kernel) { exit_code = exit_code; state = proc_zombie }
      child =
          get_or-set_ne dead.tasks (task_index (parent_of dead)) (task_index pid) _ no_task apart
          ∙ own_entry c

      still_parent : parent_of resumed ≡ ppid
      still_parent = ap (λ t. t.ppid) child

      lengths : length dead.tasks ≡ length s.kernel.tasks
      lengths =
          length-set opened.kernel.tasks (task_index pid) _
          ∙ length-set s.kernel.tasks (task_index pid) _

      wide : task_index (parent_of dead) < length dead.tasks
      wide = rw (lengths, same_parent c) c.parent

      parent : task_of ppid resumed ≡ record (task_of ppid s.kernel) { state = proc_running }
      parent =
          ap (λ p. task_of p resumed) (sym (same_parent c))
          ∙ (get_or-set_self dead.tasks (task_index (parent_of dead)) _ no_task wide
              ∙ (ap (λ p. record (task_of p dead) { state = proc_running }) (same_parent c)
                  ∙ ap {A = Task} (λ t. record t { state = proc_running })
                      (other_entry ppid c.distinct)))

-- The state after the entry of `sysMmap` in the log.
abbrev pub mmap_logged : ℕ → ℕ → System → System
mmap_logged requested_page pid s = record s {
  log = set s.log s.next_write (record {
    interrupt_count = s.total_interrupt_count;
    pid = pid;
    kind = b'S' ∷ b'Y' ∷ b'S' ∷ b'M' ∷ b'M' ∷ b'A' ∷ b'P' ∷ [];
    value = requested_page;
    description = b'N' ∷ b'U' ∷ b'L' ∷ b'L' ∷ [];
  });
  next_write = (s.next_write + 1) % kernel_log_max_events;
}

abbrev pub reported : ℕ → Kernel → System → System
reported page k s = record s { kernel = k; returned_mmap_page = page }

module _ (request_available_page : ℕ → M ℕ) (request_specific_page : ℕ → ℕ → M Bool) (pid : ℕ)
    (s : System) where
  sys_mmap_any :
      (page : ℕ) (k : Kernel)
      → request_available_page pid s.kernel ≡ done page k
      → sys_mmap request_available_page request_specific_page 0 pid s
        ≡ returned tt (reported 0 k (mmap_logged 0 pid s))
  unfolding sys_mmap insert_kernel_log
  sys_mmap_any page k answer =
      bind-returned (on_kernel (request_available_page pid)) _ (mmap_logged 0 pid s)
        (record (mmap_logged 0 pid s) { kernel = k }) page
        (on_kernel-done (request_available_page pid) (mmap_logged 0 pid s) page k answer)
      ∙ elim (Bool-cases (page == 0)) [ inl failed ↦ rw failed refl | inr found ↦ rw found refl ]

  sys_mmap_specific :
      (requested_page : ℕ) (granted : Bool) (k : Kernel)
      → requested_page ≢ 0
      → request_specific_page pid requested_page s.kernel ≡ done granted k
      → sys_mmap request_available_page request_specific_page requested_page pid s
        ≡ returned tt (reported requested_page k (mmap_logged requested_page pid s))
  unfolding sys_mmap insert_kernel_log
  sys_mmap_specific requested_page granted k some_page answer =
      let e : (requested_page == 0) ≡ false = ground arith in
      rw e (
        bind-returned (on_kernel (request_specific_page pid requested_page)) _
          (mmap_logged requested_page pid s)
          (record (mmap_logged requested_page pid s) { kernel = k }) granted
          (on_kernel-done (request_specific_page pid requested_page)
            (mmap_logged requested_page pid s) granted k answer)
        ∙ elim (Bool-cases granted) [
          | inl yielded ↦ rw yielded refl
          | inr refused ↦ rw refused refl
        ])

  -- Whatever page the virtual memory finds, a request for any page reports 0; and a request for a
  -- certain page reports that page whether or not it was granted.
  pub sys_mmap_lem :
      (page requested_page : ℕ) (granted : Bool) (k k' : Kernel)
      → request_available_page pid s.kernel ≡ done page k
      → request_specific_page pid requested_page s.kernel ≡ done granted k'
      → requested_page ≢ 0
      → (sys_mmap request_available_page request_specific_page 0 pid s
          ≡ returned tt (reported 0 k (mmap_logged 0 pid s)))
        × (sys_mmap request_available_page request_specific_page requested_page pid s
            ≡ returned tt (reported requested_page k' (mmap_logged requested_page pid s)))
  sys_mmap_lem page requested_page granted k k' answer answer' some_page =
      (sys_mmap_any page k answer, sys_mmap_specific requested_page granted k' some_page answer')
