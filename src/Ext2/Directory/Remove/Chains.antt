-- ===== src/Ext2/Directory/Remove/Chains.antt =====
-- How the chain of a directory's entries changes when one is removed.
use ikan_osv5_student.Prelude.{
  ℕ, ◌+◌, ◌<◌, ◌≤◌, ◌≡◌, ◌≢◌, ◌⊎◌, inl, inr, List, arith, refl, sym, ◌∙◌,
}
use ikan_osv5_student.Disk.{block_size}
use ikan_osv5_student.Ext2.Directory.{rec_length}
use ikan_osv5_student.Ext2.Directory.Lookup.{Chain, here, next}

module _ (dir : List ℕ) where
  pub Chain-start :
      (pos start : ℕ)
      → Chain dir pos start
      → (start < block_size) × (rec_length dir start ≢ 0) × (start ≤ pos)
  Chain-start pos start (here l r) = (l, r, omega arith)
  Chain-start pos start (next l r c) =
      (l, r, omega (arith, (Chain-start pos (start + rec_length dir start) c).2))

  pub Chain-extend :
      (a pos start : ℕ)
      → Chain dir a start
      → Chain dir pos (a + rec_length dir a)
      → Chain dir pos start
  Chain-extend a pos start (here l r) c = next l r c
  Chain-extend a pos start (next l r c') c =
      next l r (Chain-extend a pos (start + rec_length dir start) c' c)

  pub Chain-split :
      (pos start : ℕ)
      → Chain dir pos start
      → (pos ≡ start) ⊎ Chain dir pos (start + rec_length dir start)
  Chain-split pos start (here l r) = inl refl
  Chain-split pos start (next l r c) = inr c

  -- Two entries of a chain do not overlap.
  pub Chain-apart :
      (a b start : ℕ) → Chain dir a start → Chain dir b start → a < b → a + rec_length dir a ≤ b
  Chain-apart a b start (here l r) c lt = elim (Chain-split b start c) [
    | inl e ↦ absurd (omega arith)
    | inr c' ↦ (Chain-start b (start + rec_length dir start) c').2
  ]
  Chain-apart a b start (next l r c') c lt = elim (Chain-split b start c) [
    | inl e ↦ absurd (omega (arith, (Chain-start a (start + rec_length dir start) c').2))
    | inr c2 ↦ Chain-apart a b (start + rec_length dir start) c' c2 lt
  ]

-- From a point on at which two directories have the same lengths, they have the same chains.
pub Chain-same :
    (dir dir' : List ℕ) (bound pos start : ℕ)
    → ((i : ℕ) → bound ≤ i → rec_length dir' i ≡ rec_length dir i)
    → bound ≤ start
    → Chain dir pos start
    → Chain dir' pos start
Chain-same dir dir' bound pos start same h (here l r) = here l (λ z. r (sym (same start h) ∙ z))
Chain-same dir dir' bound pos start same h (next l r c) =
    next l (λ z. r (sym (same start h) ∙ z))
      (rw (same start h)
        (Chain-same dir dir' bound pos (start + rec_length dir start) same (omega arith) c))
