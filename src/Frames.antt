-- ===== src/Frames.antt =====
-- The page frame map of ikanOSv5-1-Bootloader-Base/frame-allocator.cpp, one byte to a frame: the
-- owner's number, or 0. `createPageFrameMap`, `allocateFrame` and `freeAllFrames` have no body in
-- the source.
use ikan_osv5_student.Prelude.{
  ℕ, zero, suc, ◌+◌, ◌<◌, ◌≤◌, ◌≡◌, ◌≢◌, List, ◌==◌, if◌then◌else◌, get_or, set, length, arith,
  refl, ℕ_discrete, get_or-set_self, get_or-set_ne,
}
use ikan_osv5_student.Kernel.{
  Kernel, M, done, ◌>>=◌, ◌>>◌, get, put, take_lock, drop_lock, pageframe_map_base,
}
use ikan_osv5_student.Kernel.Locks.{IsFree, lock-free, unlock-held}

-- KERNEL_BASE / PAGE_SIZE
abbrev pub user_frames : ℕ
user_frames = 0x800

abbrev pub pageframe_map_size : ℕ
pageframe_map_size = 0x1800

-- A frame number outside the map writes elsewhere in the kernel; the map stays.
free_frame : ℕ → M (Unit {0})
free_frame frame_number = do
  take_lock pageframe_map_base
  k ← get
  put (record k { frames = set k.frames frame_number 0 })
  drop_lock pageframe_map_base

-- The loop of `processFramesUsed`, on the frames left.
owned_loop : ℕ → ℕ → ℕ → List ℕ → ℕ
owned_loop zero frame_number pid frames = 0
owned_loop (suc n) frame_number pid frames =
    (if get_or frames frame_number 0 == pid then 1 else 0)
    + owned_loop n (suc frame_number) pid frames

process_frames_used : ℕ → List ℕ → ℕ
process_frames_used pid frames = owned_loop user_frames 0 pid frames

used_loop : ℕ → ℕ → List ℕ → ℕ
used_loop zero frame_number frames = 0
used_loop (suc n) frame_number frames =
    (if get_or frames frame_number 0 == 0 then 0 else 1) + used_loop n (suc frame_number) frames

total_frames_used : List ℕ → ℕ
total_frames_used frames = used_loop pageframe_map_size 0 frames

owned_loop-set_outside :
    (n i j pid : ℕ) (frames : List ℕ)
    → j < i
    → owned_loop n i pid (set frames j 0) ≡ owned_loop n i pid frames
unfolding owned_loop
owned_loop-set_outside zero i j pid frames h = refl
owned_loop-set_outside (suc n) i j pid frames h =
    ground (arith, get_or-set_ne frames j i 0 0, owned_loop-set_outside n (suc i) j pid frames)

owned_loop-set :
    (n i j pid : ℕ) (frames : List ℕ)
    → i ≤ j
    → j < i + n
    → j < length frames
    → pid ≢ 0
    → get_or frames j 0 ≡ pid
    → owned_loop n i pid (set frames j 0) + 1 ≡ owned_loop n i pid frames
unfolding owned_loop
owned_loop-set zero i j pid frames h l b p o = absurd (omega arith)
owned_loop-set (suc n) i j pid frames h l b p o = elim (ℕ_discrete i j) [
  | yes e ↦
      rw e (
        ground (arith, get_or-set_self frames j 0 0, owned_loop-set_outside n (suc j) j pid frames))
  | no ne ↦ ground (arith, get_or-set_ne frames j i 0 0, owned_loop-set n (suc i) j pid frames)
]

used_loop-set_outside :
    (n i j : ℕ) (frames : List ℕ) → j < i → used_loop n i (set frames j 0) ≡ used_loop n i frames
unfolding used_loop
used_loop-set_outside zero i j frames h = refl
used_loop-set_outside (suc n) i j frames h =
    ground (arith, get_or-set_ne frames j i 0 0, used_loop-set_outside n (suc i) j frames)

used_loop-set :
    (n i j : ℕ) (frames : List ℕ)
    → i ≤ j
    → j < i + n
    → j < length frames
    → get_or frames j 0 ≢ 0
    → used_loop n i (set frames j 0) + 1 ≡ used_loop n i frames
unfolding used_loop
used_loop-set zero i j frames h l b o = absurd (omega arith)
used_loop-set (suc n) i j frames h l b o = elim (ℕ_discrete i j) [
  | yes e ↦
      rw e (ground (arith, get_or-set_self frames j 0 0, used_loop-set_outside n (suc j) j frames))
  | no ne ↦ ground (arith, get_or-set_ne frames j i 0 0, used_loop-set n (suc i) j frames)
]

-- With the lock of the frame map free, freeing a user frame that a process owns makes it available,
-- takes one from the process's count and one from the total, and leaves the lock free.
free_frame_counts :
    (frame_number pid : ℕ) (k : Kernel)
    → IsFree pageframe_map_base k.semaphores
    → length k.frames ≡ pageframe_map_size
    → frame_number < user_frames
    → pid ≢ 0
    → get_or k.frames frame_number 0 ≡ pid
    → (k' : Kernel) × (free_frame frame_number k ≡ done tt k')
      × (get_or k'.frames frame_number 0 ≡ 0)
      × (process_frames_used pid k'.frames + 1 ≡ process_frames_used pid k.frames)
      × (total_frames_used k'.frames + 1 ≡ total_frames_used k.frames)
      × (k'.semaphores ≡ k.semaphores)
unfolding free_frame process_frames_used total_frames_used
free_frame_counts n pid k f l h p o = (
  record k { frames = set k.frames n 0 },
  ground (
    arith,
    lock-free pageframe_map_base k.semaphores f,
    unlock-held pageframe_map_base k.semaphores f,
  ),
  get_or-set_self k.frames n 0 0 (omega arith),
  owned_loop-set user_frames 0 n pid k.frames (omega arith) (omega arith) (omega arith) p o,
  used_loop-set pageframe_map_size 0 n k.frames (omega arith) (omega arith) (omega arith)
      (omega arith),
  refl,
)
