-- ===== src/Semaphore.antt =====
-- The kernel semaphores of ikanOSv5-1-Bootloader-Base/vm.cpp: `createSemaphore`, `acquireLock` and
-- `releaseLock` over KERNEL_SEMAPHORE_TABLE, and the spinning `while (!acquireLock(…)) {}` that
-- the kernel's tables are guarded by.
pub mod Locking
use ikan_osv5_student.Prelude.{
  ℕ, zero, suc, ◌+◌, ◌-◌, ◌%◌, ◌^◌, Bool, true, false, ◌&&◌, ◌||◌, not, List, [], ◌∷◌, Option, none,
  some, ◌==◌, ltb, leb, if◌then◌else◌,
}

-- `struct semaphore`
pub record Semaphore : Type 0 where
  pub pid : ℕ
  pub location : ℕ
  pub current_value : ℕ
  pub max_value : ℕ

abbrev pub kernel_base : ℕ
kernel_base = 0x800000

abbrev pub max_semaphore_objects : ℕ
max_semaphore_objects = 0x80

-- The condition of `acquireLock`: a user address is locked per process, a kernel address for all.
unfoldable pub acquires : ℕ → ℕ → Semaphore → Bool
acquires pid location s =
    (s.pid == pid && (s.location == location && ltb location kernel_base))
    || (s.location == location && leb kernel_base location)

-- The condition of `releaseLock`.
unfoldable pub releases : ℕ → ℕ → Semaphore → Bool
releases pid location s = s.pid == pid && s.location == location

-- The loop of `acquireLock`: the first matching entry decides.
unfoldable pub acquire_lock : ℕ → ℕ → List Semaphore → Bool × List Semaphore
unfolding acquires
acquire_lock pid location [] = (false, [])
acquire_lock pid location (s ∷ rest) =
    let later = acquire_lock pid location rest in
    if acquires pid location s
    then if s.current_value == 0
      then (false, s ∷ rest)
      else (true, record s { current_value = s.current_value - 1 } ∷ rest)
    else (later.0, s ∷ later.1)

-- The loop of `releaseLock`.
unfoldable pub release_lock : ℕ → ℕ → List Semaphore → Bool × List Semaphore
unfolding releases
release_lock pid location [] = (false, [])
release_lock pid location (s ∷ rest) =
    let later = release_lock pid location rest in
    if releases pid location s
    then if s.current_value == s.max_value
      then (false, s ∷ rest)
      else (true, record s { current_value = (s.current_value + 1) % 2 ^ 32 } ∷ rest)
    else (later.0, s ∷ later.1)

-- The loop of `createSemaphore`: the first entry with `pid` 0 is filled.
unfoldable pub create_semaphore : ℕ → ℕ → ℕ → ℕ → List Semaphore → Bool × List Semaphore
create_semaphore pid location current_value max_value [] = (false, [])
create_semaphore pid location current_value max_value (s ∷ rest) =
    let later = create_semaphore pid location current_value max_value rest in
    if s.pid == 0
    then (
      true,
      record {
        pid = pid;
        location = location;
        current_value = current_value;
        max_value = max_value;
      }
          ∷ rest,
    )
    else (later.0, s ∷ later.1)

abbrev pub kernel_owned : ℕ
kernel_owned = 0xFF

-- `while (!acquireLock(KERNEL_OWNED, location)) {}`: a failing call leaves the table as it is, so
-- alone the loop ends at its first round or never (`none`).
unfoldable pub lock : ℕ → List Semaphore → Option (List Semaphore)
lock location t =
    let (acquired, t') = acquire_lock kernel_owned location t in if acquired then some t' else none

-- `while (!releaseLock(KERNEL_OWNED, location)) {}`
unfoldable pub unlock : ℕ → List Semaphore → Option (List Semaphore)
unlock location t =
    let (released, t') = release_lock kernel_owned location t in if released then some t' else none
