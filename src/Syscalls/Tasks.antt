-- ===== src/Syscalls/Tasks.antt =====
-- `sysExit`, `sysSwitchToParent`, `sysToggleScheduler` and `sysMmap` of syscalls.cpp. A handler that
-- ends with contextSwitch gives the process whose page directory it loads, `none` without a switch.
pub mod Exit
use ikan_osv5_student.Prelude.{
  ℕ, Bool, ◌||◌, not, Option, none, some, List, [], ◌∷◌, ◌==◌, if◌then◌else◌,
}
use ikan_osv5_student.Kernel.{Kernel, Task, M}
use ikan_osv5_student.Process.{update_task_state}
use ikan_osv5_student.Syscalls.{
  ◌>>=◌, ◌>>◌, System, S, give, current, change, on_kernel, insert_kernel_log,
}
use ikan_osv5_student.Syscalls.Pipes.{task_of}
use ikan_osv5_student.Syscalls.Opening.{with_task}

abbrev pub proc_sleeping : ℕ
proc_sleeping = 1

abbrev pub proc_running : ℕ
proc_running = 2

abbrev pub proc_zombie : ℕ
proc_zombie = 3

abbrev null_text : List ℕ
null_text = b'N' ∷ b'U' ∷ b'L' ∷ b'L' ∷ []

abbrev pub set_exit_code : ℕ → ℕ → System → System
set_exit_code pid code s = record s {
  kernel = with_task pid (record (task_of pid s.kernel) { exit_code = code }) s.kernel;
}

-- The last test has an `or` where the comment above it asks for an `and`.
unfoldable pub sys_exit : ℕ → ℕ → S (Option ℕ)
sys_exit pid exit_code = do
  insert_kernel_log pid (b'S' ∷ b'Y' ∷ b'S' ∷ b'E' ∷ b'X' ∷ b'I' ∷ b'T' ∷ []) 0 null_text
  if pid == 1 then give none else (do
    change (set_exit_code pid exit_code)
    on_kernel (update_task_state pid proc_zombie)
    s ← current
    on_kernel (update_task_state (task_of pid s.kernel).ppid proc_running)
    change (λ t. record t { running_pid = (task_of pid t.kernel).ppid })
    t ← current
    let ppid = (task_of pid t.kernel).ppid
    let parent = task_of ppid t.kernel
    if not (parent.state == proc_sleeping) || not (parent.state == proc_running)
        then give (some ppid)
        else give (some 1))

unfoldable pub sys_switch_to_parent : ℕ → S (Option ℕ)
sys_switch_to_parent caller = do
  insert_kernel_log caller (b'S' ∷ b'Y' ∷ b'S' ∷ b'P' ∷ b'A' ∷ b'R' ∷ b'E' ∷ b'N' ∷ b'T' ∷ []) 0
      null_text
  s ← current
  let pid = s.running_pid
  on_kernel (update_task_state (task_of pid s.kernel).pid proc_sleeping)
  t ← current
  on_kernel (update_task_state (task_of pid t.kernel).ppid proc_running)
  change (λ u. record u { running_pid = (task_of pid u.kernel).ppid })
  u ← current
  give (some (task_of pid u.kernel).ppid)

unfoldable pub sys_toggle_scheduler : System → System
sys_toggle_scheduler s =
    if s.run_scheduler == 0
    then record s { run_scheduler = 1 }
    else if s.run_scheduler == 1
    then record s { run_scheduler = 0 }
    else s

abbrev store_page : ℕ → S (Unit {0})
store_page page = change (λ s. record s { returned_mmap_page = page })

-- The virtual memory's requests: an address or 0, and whether a page was mapped.
module _ (request_available_page : ℕ → M ℕ) (request_specific_page : ℕ → ℕ → M Bool) where
  unfoldable pub sys_mmap : ℕ → ℕ → S (Unit {0})
  sys_mmap requested_page pid = do
    insert_kernel_log pid (b'S' ∷ b'Y' ∷ b'S' ∷ b'M' ∷ b'M' ∷ b'A' ∷ b'P' ∷ []) requested_page
        null_text
    if requested_page == 0
        then (do
          page ← on_kernel (request_available_page pid)
          if page == 0 then store_page 0 else give tt
          store_page requested_page)
        else (do
          granted ← on_kernel (request_specific_page pid requested_page)
          if granted then give tt else store_page 0
          store_page requested_page)
