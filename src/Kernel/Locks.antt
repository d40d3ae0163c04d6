-- ===== src/Kernel/Locks.antt =====
-- A free lock of the kernel is taken at once, and dropping it restores the semaphores.
use ikan_osv5_student.Prelude.{ℕ, ◌<◌, ◌≤◌, ◌≡◌, ap, List, some, arith}
use ikan_osv5_student.Semaphore.{
  Semaphore, kernel_base, kernel_owned, acquire_lock, release_lock, lock, unlock,
}
use ikan_osv5_student.Semaphore.Locking.{IsBounded, entry_at, acquire_kernel_lock, release-acquire}

-- The lock at this location is the kernel's and is free.
pub record IsFree (location : ℕ) (t : List Semaphore) : Type 0 where
  pub bounded : IsBounded t
  pub entry : Semaphore
  pub at_location : entry_at location t ≡ some entry
  pub by_kernel : entry.pid ≡ kernel_owned
  pub free : 0 < entry.current_value
  pub in_kernel : kernel_base ≤ location

-- The semaphores while the lock is held.
abbrev pub held : ℕ → List Semaphore → List Semaphore
held location t = (acquire_lock kernel_owned location t).1

pub lock-free :
    (location : ℕ) (t : List Semaphore)
    → IsFree location t
    → lock location t ≡ some (held location t)
unfolding lock
lock-free location t f =
    ground (
      arith,
      acquire_kernel_lock kernel_owned location location t f.entry f.in_kernel f.at_location,
    )

pub release-held :
    (location : ℕ) (t : List Semaphore)
    → IsFree location t
    → (release_lock kernel_owned location (held location t)).1 ≡ t
release-held location t f =
    ap (λ r. r.1)
      (release-acquire kernel_owned location t f.entry f.bounded f.at_location f.by_kernel f.free)

pub unlock-held :
    (location : ℕ) (t : List Semaphore)
    → IsFree location t
    → unlock location (held location t) ≡ some t
unfolding unlock
unlock-held location t f =
    rw (release-acquire kernel_owned location t f.entry f.bounded f.at_location f.by_kernel f.free)
