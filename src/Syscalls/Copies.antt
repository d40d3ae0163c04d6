-- ===== src/Syscalls/Copies.antt =====
-- What a copy does to memory (bytecpy of libc-main.cpp), where source and destination are apart.
use ikan_osv5_student.Prelude.{
  ℕ, zero, suc, ◌+◌, ◌≤◌, ◌<◌, ◌≡◌, refl, ◌∙◌, ◌⊎◌, inl, arith, ◌==◌, if◌then◌else◌,
}
use ikan_osv5_student.Syscalls.{bytecpy}

-- Two ranges of the same length have no address in common.
abbrev pub Apart : ℕ → ℕ → ℕ → Type 0
Apart n a b = (a + n ≤ b) ⊎ (b + n ≤ a)

bytecpy-outside :
    (n d s : ℕ) (memory : ℕ → ℕ) (a : ℕ) → (a < d) ⊎ (d + n ≤ a) → bytecpy n d s memory a ≡ memory a
unfolding bytecpy
bytecpy-outside zero d s memory a h = refl
bytecpy-outside (suc n) d s memory a h =
    let later : (a < d + 1) ⊎ (d + 1 + n ≤ a) = omega arith in
    bytecpy-outside n (d + 1) (s + 1) (λ b. if b == d then memory s else memory b) a later
    ∙ ground arith

pub bytecpy-inside :
    (n d s : ℕ) (memory : ℕ → ℕ) (k : ℕ)
    → k < n
    → Apart n d s
    → bytecpy n d s memory (d + k) ≡ memory (s + k)
unfolding bytecpy
bytecpy-inside zero d s memory k h apart = absurd (omega arith)
bytecpy-inside (suc n) d s memory zero h apart =
    let memory' : ℕ → ℕ = λ b. if b == d then memory s else memory b in
    let start : d + 0 ≡ d = omega arith in
    let source : s + 0 ≡ s = omega arith in
    rw (start, source)
      (bytecpy-outside n (d + 1) (s + 1) memory' d (inl (omega arith)) ∙ ground arith)
bytecpy-inside (suc n) d s memory (suc k) h apart =
    let memory' : ℕ → ℕ = λ b. if b == d then memory s else memory b in
    let start : d + suc k ≡ d + 1 + k = omega arith in
    let source : s + suc k ≡ s + 1 + k = omega arith in
    rw (start, source)
      (bytecpy-inside n (d + 1) (s + 1) memory' k (omega arith) (omega arith) ∙ ground arith)
