-- ===== src/Semaphore/Locking.antt =====
-- Mutual exclusion by the semaphores of vm.cpp.
use ikan_osv5_student.Prelude.{
  ℕ, ◌-◌, ◌^◌, ◌<◌, ◌≤◌, ◌≡◌, ◌≢◌, ◌⊎◌, inr, true, false, List, [], ◌∷◌, refl, arith, ◌==◌, ltb,
  Option, none, some, if◌then◌else◌,
}
use ikan_osv5_student.Semaphore.{Semaphore, kernel_base, acquire_lock, release_lock}

-- No entry's value exceeds its maximum, and the maximum is an `uint32_t`.
abbrev pub IsBounded : List Semaphore → Type 0
IsBounded [] = Unit
IsBounded (s ∷ rest) = (s.current_value ≤ s.max_value) × (s.max_value < 2 ^ 32) × IsBounded rest

-- Where every value is within its maximum, acquiring and releasing a lock keep every value within
-- its maximum.
lock-IsBounded :
    (pid location : ℕ) (t : List Semaphore)
    → IsBounded t
    → IsBounded (acquire_lock pid location t).1 × IsBounded (release_lock pid location t).1
unfolding acquire_lock release_lock
lock-IsBounded pid location [] b = (tt, tt)
lock-IsBounded pid location (s ∷ rest) b = ground (arith, lock-IsBounded pid location rest b.2)

-- The first entry for a location.
unfoldable pub entry_at : ℕ → List Semaphore → Option Semaphore
entry_at location [] = none
entry_at location (s ∷ rest) = if s.location == location then some s else entry_at location rest

-- A kernel lock is a counter that all processes share: acquiring the lock at a location whose first
-- entry is given succeeds exactly when its value is positive, and then takes one from it; the first
-- entries of other locations stay.
pub acquire_kernel_lock :
    (pid location other : ℕ) (t : List Semaphore) (s : Semaphore)
    → kernel_base ≤ location
    → entry_at location t ≡ some s
    → ((acquire_lock pid location t).0 ≡ ltb 0 s.current_value)
      × (entry_at other (acquire_lock pid location t).1 ≡ (
          if other == location
          then some (record s { current_value = s.current_value - 1 })
          else entry_at other t))
unfolding acquire_lock entry_at
acquire_kernel_lock pid location other [] s k e = cc
acquire_kernel_lock pid location other (x ∷ rest) s k e =
    ground (arith, acquire_kernel_lock pid location other rest s k)

-- While a kernel lock of value one is held, every process's attempt to take it fails and changes
-- nothing.
acquire_held :
    (pid pid' location : ℕ) (t : List Semaphore) (s : Semaphore)
    → kernel_base ≤ location
    → entry_at location t ≡ some s
    → s.current_value ≡ 1
    → acquire_lock pid' location (acquire_lock pid location t).1
      ≡ (false, (acquire_lock pid location t).1)
unfolding acquire_lock entry_at
acquire_held pid pid' location [] s k e v = cc
acquire_held pid pid' location (x ∷ rest) s k e v =
    ground (arith, acquire_held pid pid' location rest s k)

-- With every value within its maximum, a process that owns the first entry of a location whose
-- value is positive leaves the table as it was when it acquires and releases the lock.
pub release-acquire :
    (pid location : ℕ) (t : List Semaphore) (s : Semaphore)
    → IsBounded t
    → entry_at location t ≡ some s
    → s.pid ≡ pid
    → 0 < s.current_value
    → release_lock pid location (acquire_lock pid location t).1 ≡ (true, t)
unfolding acquire_lock release_lock entry_at
release-acquire pid location [] s b e o h = cc
release-acquire pid location (x ∷ rest) s b e o h =
    ground (arith, release-acquire pid location rest s b.2)

-- No entry is of this process and this location.
abbrev pub IsStranger : ℕ → ℕ → List Semaphore → Type 0
IsStranger pid location [] = Unit
IsStranger pid location (s ∷ rest) =
    ((s.pid ≢ pid) ⊎ (s.location ≢ location)) × IsStranger pid location rest

-- A process that has no entry for the location cannot release the lock, nor take a user lock.
strangers_fail :
    (pid location : ℕ) (t : List Semaphore)
    → IsStranger pid location t
    → (release_lock pid location t ≡ (false, t))
      × ((kernel_base ≤ location) ⊎ (acquire_lock pid location t ≡ (false, t)))
unfolding acquire_lock release_lock
strangers_fail pid location [] a = (refl, inr refl)
strangers_fail pid location (s ∷ rest) a = ground (arith, strangers_fail pid location rest a.1)
