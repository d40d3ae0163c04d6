-- ===== src/Heap/Objects.antt =====
-- What the heap functions of libc-main.cpp do to the objects.
use ikan_osv5_student.Prelude.{
  ℕ, zero, suc, ◌+◌, ◌%◌, ◌^◌, ◌<◌, ◌≤◌, ◌≡◌, ◌≢◌, ◌⊎◌, inl, inr, List, [], ◌∷◌, none, some, ◌==◌,
  ltb, if◌then◌else◌, get_or, set, length, arith, refl, sym, ◌∙◌, ap, Option-cases, Bool-cases,
  get_or-set_self, get_or-set_ne, ℕ_discrete,
}
use ikan_osv5_student.Heap.{
  owner, malloc_loop, malloc, cleared, free, first_word, free_all, count_heap_objects,
}

set_back :
    (heap : List (List ℕ)) (k : ℕ) (object object' : List ℕ)
    → k < length heap
    → get_or heap k [] ≡ object'
    → set (set heap k object) k object' ≡ heap
set_back [] k object object' l e = absurd (omega arith)
set_back (o ∷ rest) zero object object' l e = ap (λ x. x ∷ rest) (sym e)
set_back (o ∷ rest) (suc k) object object' l e =
    ap (◌∷◌ o) (set_back rest k object object' (omega arith) e)

malloc_loop-some :
    (pid index i : ℕ) (heap : List (List ℕ))
    → (malloc_loop pid index heap).0 ≡ some i
    → (k : ℕ) × (i ≡ index + k)
      × (k < length heap)
      × (owner (get_or heap k []) ≡ 0)
      × ((malloc_loop pid index heap).1 ≡ set heap k (set (get_or heap k []) 0 (pid % 2 ^ 8)))
      × ((j : ℕ) → (k ≤ j) ⊎ (owner (get_or heap j []) ≢ 0))
unfolding malloc_loop
malloc_loop-some pid index i [] h = absurd (ground arith)
malloc_loop-some pid index i (o ∷ rest) h = elim (Bool-cases (owner o == 0)) [
  | inl none_yet ↦
      rw (none_yet, malloc_loop)
        (0, ground arith, omega arith, ground arith, refl, λ j. inl (omega arith))
  | inr used ↦
      let (k, e, l, f, r, before) = malloc_loop-some pid (suc index) i rest (ground arith) in
      rw (used, malloc_loop)
        (
          suc k,
          omega arith,
          omega arith,
          f,
          ap (◌∷◌ o) r,
          λ j. elim j as (λ j. (suc k ≤ j) ⊎ (owner (get_or (o ∷ rest) j []) ≢ 0)) [
            | zero ↦ inr (λ z. absurd (ground arith))
            | suc j ↦ elim (before j) [ inl x ↦ inl (omega arith) | inr y ↦ inr y ]
          ],
        )
]

malloc_loop-none :
    (pid index : ℕ) (heap : List (List ℕ))
    → (malloc_loop pid index heap).0 ≡ none
    → ((malloc_loop pid index heap).1 ≡ heap)
      × ((j : ℕ) → j < length heap → owner (get_or heap j []) ≢ 0)
unfolding malloc_loop
malloc_loop-none pid index [] h = (refl, λ j l. absurd (omega arith))
malloc_loop-none pid index (o ∷ rest) h = elim (Bool-cases (owner o == 0)) [
  | inl none_yet ↦ absurd (ground arith)
  | inr used ↦
      let (e, taken) = malloc_loop-none pid (suc index) rest (ground arith) in
      rw (used, malloc_loop)
        (
          ap (◌∷◌ o) e,
          λ j. elim j as (λ j. j < suc (length rest) → owner (get_or (o ∷ rest) j []) ≢ 0) [
            | zero ↦ λ l z. absurd (ground arith)
            | suc j ↦ λ l. taken j (omega arith)
          ],
        )
]

count-set :
    (heap : List (List ℕ)) (k : ℕ) (object : List ℕ)
    → k < length heap
    → count_heap_objects (set heap k object) + (if owner (get_or heap k []) == 0 then 0 else 1)
      ≡ count_heap_objects heap + (if owner object == 0 then 0 else 1)
unfolding count_heap_objects
count-set [] k object l = absurd (omega arith)
count-set (o ∷ rest) zero object l = omega arith
count-set (o ∷ rest) (suc k) object l = omega (arith, count-set rest k object (omega arith))

module _ (usable : ℕ) where
  -- An allocation that succeeds, for a process number that is not a multiple of 256, is of a size
  -- that fits, takes the first object without an owner, gives it to the process, leaves all other
  -- objects alone and adds one to the count of objects in use.
  pub malloc-some :
      (pid size i : ℕ) (heap : List (List ℕ)) (j : ℕ)
      → 0 < length (get_or heap i [])
      → pid % 2 ^ 8 ≢ 0
      → (malloc usable pid size heap).0 ≡ some i
      → let heap' = (malloc usable pid size heap).1 in
        (size ≤ usable)
        × (i < length heap)
        × (owner (get_or heap i []) ≡ 0)
        × (owner (get_or heap' i []) ≡ pid % 2 ^ 8)
        × ((i ≡ j) ⊎ (get_or heap' j [] ≡ get_or heap j []))
        × ((i ≤ j) ⊎ (owner (get_or heap j []) ≢ 0))
        × (count_heap_objects heap' ≡ count_heap_objects heap + 1)
  unfolding malloc
  malloc-some pid size i heap j full nz h = elim (Bool-cases (ltb usable size)) [
    | inl large ↦ absurd (ground arith)
    | inr fits ↦
        let (k, e, l, f, r, before) = malloc_loop-some pid 0 i heap (ground arith) in
        let same : i ≡ k = omega arith in
        let object : List ℕ = set (get_or heap k []) 0 (pid % 2 ^ 8) in
        let new : owner object ≡ pid % 2 ^ 8 =
          get_or-set_self (get_or heap k []) 0 (pid % 2 ^ 8) 0 (ground arith) in
        rw (malloc, fits, r, same)
          (
            ground arith,
            l,
            f,
            ground (arith, new, get_or-set_self heap k object [] l),
            elim (ℕ_discrete k j) [
              | yes x ↦ inl x
              | no x ↦ inr (get_or-set_ne heap k j object [] x)
            ],
            before j,
            ground (arith, new, count-set heap k object l),
          )
  ]

  -- Where an object has no owner, an allocation of a size that fits succeeds, with an object no
  -- later than that one.
  pub malloc_total :
      (pid size : ℕ) (heap : List (List ℕ)) (j : ℕ)
      → size ≤ usable
      → j < length heap
      → owner (get_or heap j []) ≡ 0
      → (i : ℕ) × ((malloc usable pid size heap).0 ≡ some i) × (i ≤ j)
  unfolding malloc
  malloc_total pid size heap j fits l free_one = elim (Option-cases (malloc_loop pid 0 heap).0) [
    | inl e ↦ absurd ((malloc_loop-none pid 0 heap e).1 j l free_one)
    | inr (i, e) ↦
        let (k, e', l', f, r, before) = malloc_loop-some pid 0 i heap e in
        (i, ground arith, elim (before j) [ inl x ↦ omega arith | inr y ↦ absurd (y free_one) ])
  ]

  -- Freeing what was just allocated restores a heap whose free objects are zeroed.
  pub free-malloc :
      (pid size i : ℕ) (heap : List (List ℕ))
      → (malloc usable pid size heap).0 ≡ some i
      → get_or heap i [] ≡ cleared usable
      → free usable i (malloc usable pid size heap).1 ≡ heap
  unfolding malloc free
  free-malloc pid size i heap h zeros = elim (Bool-cases (ltb usable size)) [
    | inl large ↦ absurd (ground arith)
    | inr fits ↦
        let (k, e, l, f, r, before) = malloc_loop-some pid 0 i heap (ground arith) in
        let same : i ≡ k = omega arith in
        rw (free, malloc, fits, r, same)
          (set_back heap k _ (cleared usable) l (ap (λ n. get_or heap n []) (sym same) ∙ zeros))
  ]

  -- `freeAll` for a process number of one byte leaves every object alone whose second byte is not
  -- 0, whoever owns it.
  pub free_all_leaks :
      (pid : ℕ) (heap : List (List ℕ)) (j : ℕ)
      → pid < 2 ^ 8
      → get_or (get_or heap j []) 1 0 ≢ 0
      → get_or (free_all usable pid heap) j [] ≡ get_or heap j []
  unfolding free_all first_word
  free_all_leaks pid [] j l h = refl
  free_all_leaks pid (o ∷ rest) zero l h = ground arith
  free_all_leaks pid (o ∷ rest) (suc j) l h = free_all_leaks pid rest j l h
