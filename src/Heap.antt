-- ===== src/Heap.antt =====
-- The user's and the kernel's heap in libc-main.cpp: `malloc`, `free`, `freeAll`, `countHeapObjects`
-- and the same four for the kernel, which differ in the size of an object only. A heap is the list
-- of its objects, an object the list of its bytes, and a pointer the object's index.
pub mod Objects
use ikan_osv5_student.Prelude.{
  ℕ, zero, suc, ◌+◌, ◌-◌, ◌*◌, ◌%◌, ◌^◌, List, [], ◌∷◌, Option, none, some, ◌==◌, ltb,
  if◌then◌else◌, get_or, set, replicate,
}

-- `heapObjectUser` and `heapObjectKernel` begin with the number of the process, in one byte.
abbrev pub owner : List ℕ → ℕ
owner object = get_or object 0 0

-- The loop of `malloc`: the first object without an owner.
unfoldable pub malloc_loop : ℕ → ℕ → List (List ℕ) → Option ℕ × List (List ℕ)
malloc_loop pid index [] = (none, [])
malloc_loop pid index (object ∷ rest) =
    let later = malloc_loop pid (suc index) rest in
    if owner object == 0
    then (some index, set object 0 (pid % 2 ^ 8) ∷ rest)
    else (later.0, object ∷ later.1)

-- HEAP_OBJ_USABLE_SIZE and KERNEL_HEAP_OBJ_USABLE_SIZE
abbrev pub user_usable : ℕ
user_usable = 0x100 - 2

abbrev pub kernel_usable : ℕ
kernel_usable = 0x402 - 2

-- The first four bytes of an object, as `freeAll` reads them.
unfoldable pub first_word : List ℕ → ℕ
first_word object =
    get_or object 0 0
    + get_or object 1 0 * 2 ^ 8
    + get_or object 2 0 * 2 ^ 16
    + get_or object 3 0 * 2 ^ 24

module _ (usable_size : ℕ) where
  unfoldable pub malloc : ℕ → ℕ → List (List ℕ) → Option ℕ × List (List ℕ)
  malloc current_pid object_size heap =
      if ltb usable_size object_size then (none, heap) else malloc_loop current_pid 0 heap

  -- `fillMemory` over the whole object.
  abbrev pub cleared : List ℕ
  cleared = replicate (usable_size + 2) 0

  unfoldable pub free : ℕ → List (List ℕ) → List (List ℕ)
  free index heap = set heap index cleared

  unfoldable pub free_all : ℕ → List (List ℕ) → List (List ℕ)
  free_all current_pid [] = []
  free_all current_pid (object ∷ rest) =
      (if first_word object == current_pid then cleared else object) ∷ free_all current_pid rest

unfoldable pub count_heap_objects : List (List ℕ) → ℕ
count_heap_objects [] = 0
count_heap_objects (object ∷ rest) = (if owner object == 0 then 0 else 1) + count_heap_objects rest
