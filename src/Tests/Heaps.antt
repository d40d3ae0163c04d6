-- ===== src/Tests/Heaps.antt =====
-- A heap of three objects of six bytes.
use ikan_osv5_student.Prelude.{ℕ, ◌≡◌, List, [], ◌∷◌, some, refl}
use ikan_osv5_student.Heap.{malloc_loop, malloc, cleared}

-- The first object belongs to process 3 and holds text.
abbrev heap : List (List ℕ)
heap = (3 ∷ 72 ∷ 105 ∷ 0 ∷ 0 ∷ 0 ∷ []) ∷ cleared 4 ∷ cleared 4 ∷ []

malloc-heap : (malloc 4 7 4 heap).0 ≡ some 1
unfolding malloc malloc_loop
malloc-heap = refl
