-- ===== src/Kernel/Slots.antt =====
-- The scan for a free entry that `initializeTask` (vm.cpp) and `insertGlobalObjectTableEntry`
-- (file.cpp) share: it stops at the first free entry, and gives up on reaching the last index.
use ikan_osv5_student.Prelude.{
  ℕ, zero, suc, ◌+◌, ◌<◌, ◌≤◌, ◌≡◌, inl, inr, Bool, true, false, List, [], ◌∷◌, Option, none, some,
  ◌==◌, if◌then◌else◌, get_or, length, arith, Bool-cases,
}

module _ {A : Type 0} (is_free : A → Bool) (last : ℕ) where
  -- `n` is the index of the list's first entry.
  unfoldable pub first_free : ℕ → List A → Option ℕ
  first_free n [] = none
  first_free n (a ∷ rest) =
      let later = first_free (suc n) rest in
      if n == last then none else if is_free a then some n else later

  -- The entry found is free and lies before the last.
  pub first_free-some :
      (n : ℕ) (l : List A) (i : ℕ) (d : A)
      → first_free n l ≡ some i
      → n ≤ last
      → (m : ℕ) × (i ≡ n + m) × (m < length l) × (i < last) × (is_free (get_or l m d) ≡ true)
  unfolding first_free
  first_free-some n [] i d h p = cc
  first_free-some n (a ∷ rest) i d h p = elim (Bool-cases (n == last)) [
    | inl e ↦ absurd (ground arith)
    | inr ne ↦ elim (Bool-cases (is_free a)) [
      | inl f ↦ (0, ground arith, omega arith, ground arith, f)
      | inr nf ↦
          let (m, e, q, r, f) = first_free-some (suc n) rest i d (ground arith) (ground arith) in
          (suc m, omega arith, omega arith, r, f)
    ]
  ]

  -- No entry before it is free.
  pub first_free_before :
      (n : ℕ) (l : List A) (i j : ℕ) (d : A)
      → first_free n l ≡ some i
      → n + j < i
      → is_free (get_or l j d) ≡ false
  unfolding first_free
  first_free_before n [] i j d h p = cc
  first_free_before n (a ∷ rest) i zero d h p = ground arith
  first_free_before n (a ∷ rest) i (suc j) d h p =
      ground (arith, first_free_before (suc n) rest i j d)

  -- The scan gives up only if no entry before the last is free.
  pub first_free-none :
      (n : ℕ) (l : List A) (j : ℕ) (d : A)
      → first_free n l ≡ none
      → n + j < last
      → j < length l
      → is_free (get_or l j d) ≡ false
  unfolding first_free
  first_free-none n [] j d h p q = absurd (omega arith)
  first_free-none n (a ∷ rest) zero d h p q = ground arith
  first_free-none n (a ∷ rest) (suc j) d h p q = ground (arith, first_free-none (suc n) rest j d)
