-- ===== src/Process/Table.antt =====
-- What `initializeTask` and `updateTaskState` (vm.cpp) do to the process table.
use mathlib.Core.Path.{subst}
use ikan_osv5_student.Prelude.{
  sym, ◌∙◌, true, false, ℕ, zero, suc, ◌+◌, ◌-◌, ◌<◌, ◌≤◌, ◌≡◌, ◌≢◌, ◌⊎◌, inl, inr, List, Option,
  none, some, ◌==◌, if◌then◌else◌, get_or, set, length, arith, refl, Option-cases, get_or-set_self,
  get_or-set_ne, ℕ_discrete, [], ◌∷◌, ◌^◌, dec_lt,
}
use ikan_osv5_student.Kernel.{Kernel, Task, done, panicked, process_table_loc, max_processes}
use ikan_osv5_student.Kernel.Slots.{first_free, first_free-some, first_free_before, first_free-none}
use ikan_osv5_student.Kernel.Locks.{IsFree, lock-free, unlock-held}
use ikan_osv5_student.Process.Entry.{IsTaskOf, fill_task-IsTaskOf}
use ikan_osv5_student.Process.{
  is_unused, no_task, TaskRequest, fill_task, initialize_task, task_index, update_task_state,
}

-- The scan of `initializeTask`.
abbrev pub free_slot : Kernel → Option ℕ
free_slot k = first_free is_unused (max_processes - 1) 0 k.tasks

initialize_task-some :
    (r : TaskRequest) (k : Kernel) (i : ℕ)
    → IsFree process_table_loc k.semaphores
    → free_slot k ≡ some i
    → initialize_task r k
      ≡ done
          (i + 1)
          (record k { tasks = set k.tasks i (fill_task (get_or k.tasks i no_task) (i + 1) r) })
unfolding initialize_task
initialize_task-some r k i f e = ground (
  arith,
  lock-free process_table_loc k.semaphores f,
  unlock-held process_table_loc k.semaphores f,
)

initialize_task-none :
    (r : TaskRequest) (k : Kernel)
    → IsFree process_table_loc k.semaphores
    → free_slot k ≡ none
    → initialize_task r k ≡ panicked k
unfolding initialize_task
initialize_task-none r k f e = ground (
  arith,
  lock-free process_table_loc k.semaphores f,
  unlock-held process_table_loc k.semaphores f,
)

initialize_task-fills :
    (r : TaskRequest) (k k' : Kernel) (pid j : ℕ)
    → IsFree process_table_loc k.semaphores
    → initialize_task r k ≡ done pid k'
    → (0 < pid)
      × (pid < max_processes)
      × ((get_or k.tasks (pid - 1) no_task).pid ≡ 0)
      × ((pid ≤ j + 1) ⊎ ((get_or k.tasks j no_task).pid ≢ 0))
      × (get_or k'.tasks j no_task ≡ (
          if pid == j + 1
          then fill_task (get_or k.tasks j no_task) pid r
          else get_or k.tasks j no_task))
      × (k'.semaphores ≡ k.semaphores)
initialize_task-fills r k k' pid j f h = elim (Option-cases (free_slot k)) [
  | inl e ↦ absurd (ground (arith, initialize_task-none r k f e))
  | inr (i, e) ↦
      let (m, a, b, c, g) =
        first_free-some is_unused (max_processes - 1) 0 k.tasks i no_task e (omega arith) in
      let same : pid ≡ i + 1 = ground (arith, initialize_task-some r k i f e) in
      let state : k'
          ≡ record k { tasks = set k.tasks i (fill_task (get_or k.tasks i no_task) (i + 1) r) } =
        ground (arith, initialize_task-some r k i f e) in
      let at_slot : pid - 1 ≡ m = omega arith in
      (
        omega arith,
        omega arith,
        rw at_slot (ground arith),
        elim (dec_lt (0 + j) i) [
          | yes l ↦ inr (
              ground
                (arith, first_free_before is_unused (max_processes - 1) 0 k.tasks i j no_task e l))
          | no nl ↦ inl (omega arith)
        ],
        rw state (elim (ℕ_discrete i j) [
          | yes q ↦ rw (← q) (
              ground (
                arith,
                get_or-set_self k.tasks i (fill_task (get_or k.tasks i no_task) (i + 1) r) no_task,
              ))
          | no nq ↦ ground (
            arith,
            get_or-set_ne k.tasks i j (fill_task (get_or k.tasks i no_task) (i + 1) r) no_task nq,
          )
        ]),
        rw state,
      )
]

-- With the lock of the table free and 15 descriptors in the entry, a new process gets the first
-- unused entry, and its number is the entry's index plus one. Each field of the entry is the one
-- asked for, or the number's page directory and memory, with the kernel's objects for descriptors
-- that are 0; the exit code and the other descriptors stay, all other entries stay, and the lock is
-- free again.
pub initialize_task-done :
    (r : TaskRequest) (k k' : Kernel) (pid j : ℕ)
    → IsFree process_table_loc k.semaphores
    → length (get_or k.tasks (pid - 1) no_task).file_descriptor ≡ 15
    → initialize_task r k ≡ done pid k'
    → (0 < pid)
      × (pid < max_processes)
      × ((get_or k.tasks (pid - 1) no_task).pid ≡ 0)
      × ((pid ≤ j + 1) ⊎ ((get_or k.tasks j no_task).pid ≢ 0))
      × IsTaskOf r pid (get_or k.tasks (pid - 1) no_task) (get_or k'.tasks (pid - 1) no_task)
      × ((pid ≡ j + 1) ⊎ (get_or k'.tasks j no_task ≡ get_or k.tasks j no_task))
      × (k'.semaphores ≡ k.semaphores)
initialize_task-done r k k' pid j f full h =
    let (positive, small, unused, first, entry, free_again) =
      initialize_task-fills r k k' pid j f h in
    let at_slot = (initialize_task-fills r k k' pid (pid - 1) f h).4 in
    let old = get_or k.tasks (pid - 1) no_task in
    let here : (pid == pid - 1 + 1) ≡ true = ground arith in
    let filled : get_or k'.tasks (pid - 1) no_task ≡ fill_task old pid r = at_slot ∙ rw here refl in
    (
      positive,
      small,
      unused,
      first,
      subst (IsTaskOf r pid old) (sym filled) (fill_task-IsTaskOf r pid old full),
      elim (ℕ_discrete pid (j + 1)) [
        | yes same ↦ inl same
        | no other ↦
            let elsewhere : (pid == j + 1) ≡ false = ground arith in inr (entry ∙ rw elsewhere refl)
      ],
      free_again,
    )

-- With the lock free and a table of 32 entries, a call either makes a process or panics with the
-- state unchanged, and it panics only if each of the first 31 entries is in use.
initialize_task_total :
    (r : TaskRequest) (k : Kernel) (j : ℕ)
    → IsFree process_table_loc k.semaphores
    → length k.tasks ≡ max_processes
    → j < max_processes - 1
    → ((pid : ℕ) × (k' : Kernel) × (initialize_task r k ≡ done pid k'))
      ⊎ ((initialize_task r k ≡ panicked k) × ((get_or k.tasks j no_task).pid ≢ 0))
initialize_task_total r k j f l h = elim (Option-cases (free_slot k)) [
  | inl e ↦ inr (
    initialize_task-none r k f e,
    ground (arith, first_free-none is_unused (max_processes - 1) 0 k.tasks j no_task e),
  )
  | inr (i, e) ↦ inl (i + 1, _, initialize_task-some r k i f e)
]

-- Every entry is unused or holds the process that its index stands for.
abbrev pub IsTable : List Task → Type 0
IsTable tasks =
    (i : ℕ) → ((get_or tasks i no_task).pid ≡ 0) ⊎ ((get_or tasks i no_task).pid ≡ i + 1)

-- The first `n` entries are in use.
abbrev pub InUse : ℕ → List Task → Type 0
InUse zero tasks = Unit
InUse (suc n) [] = Unit
InUse (suc n) (t ∷ rest) = (t.pid ≢ 0) × InUse n rest

InUse-none :
    (n i : ℕ) (tasks : List Task)
    → InUse n tasks
    → i + n ≡ max_processes - 1
    → first_free is_unused (max_processes - 1) i tasks ≡ none
unfolding first_free
InUse-none n i [] u e = refl
InUse-none zero i (t ∷ rest) u e = ground arith
InUse-none (suc n) i (t ∷ rest) u e = ground (arith, InUse-none n (suc i) rest u.1)

-- With the lock free and the first 31 entries in use, a call panics with the state unchanged,
-- whatever the last entry holds.
initialize_task_full :
    (r : TaskRequest) (k : Kernel)
    → IsFree process_table_loc k.semaphores
    → InUse 31 k.tasks
    → initialize_task r k ≡ panicked k
initialize_task_full r k f u = initialize_task-none r k f (InUse-none 31 0 k.tasks u (omega arith))

pid-fill_task : (old : Task) (pid : ℕ) (r : TaskRequest) → (fill_task old pid r).pid ≡ pid
unfolding fill_task
pid-fill_task old pid r = refl

-- With the lock free, making a process keeps the table well formed: a used entry holds its index
-- plus one as its number.
initialize_task-IsTable :
    (r : TaskRequest) (k k' : Kernel) (pid j : ℕ)
    → IsFree process_table_loc k.semaphores
    → IsTable k.tasks
    → initialize_task r k ≡ done pid k'
    → ((get_or k'.tasks j no_task).pid ≡ 0) ⊎ ((get_or k'.tasks j no_task).pid ≡ j + 1)
initialize_task-IsTable r k k' pid j f v h =
    let (a, b, c, d, e, s) = initialize_task-fills r k k' pid j f h in
    rw e (ground (arith, v j, pid-fill_task (get_or k.tasks j no_task) pid r))

-- With the lock free, a change of state gives the process of a number in the table's range the new
-- state, leaves its other fields and all other entries alone, and frees the lock again.
update_task_state_lem :
    (pid state j : ℕ) (k : Kernel)
    → IsFree process_table_loc k.semaphores
    → 0 < pid
    → pid ≤ length k.tasks
    → pid < 2 ^ 32
    → (k' : Kernel) × (update_task_state pid state k ≡ done tt k')
      × (get_or k'.tasks j no_task ≡ (
          if pid == j + 1
          then record (get_or k.tasks j no_task) { state = state }
          else get_or k.tasks j no_task))
      × (k'.semaphores ≡ k.semaphores)
unfolding update_task_state
update_task_state_lem pid state j k f p l b =
    let at_slot : task_index pid ≡ pid - 1 = omega arith in
    let new : Task = record (get_or k.tasks (pid - 1) no_task) { state = state } in
    (
      record k { tasks = set k.tasks (pid - 1) new },
      rw at_slot (
          ground (
            arith,
            lock-free process_table_loc k.semaphores f,
            unlock-held process_table_loc k.semaphores f,
          )),
      elim (ℕ_discrete (pid - 1) j) [
        | yes q ↦ rw (← q) (ground (arith, get_or-set_self k.tasks (pid - 1) new no_task))
        | no nq ↦ ground (arith, get_or-set_ne k.tasks (pid - 1) j new no_task nq)
      ],
      refl,
    )
