-- ===== src/Ext2/Bitmap/Count.antt =====
-- The counting loops of fs.cpp, `readNextAvailableBlock` and `readTotalBlocksUsed`, on a map that
-- is in use from its start on without a gap.
use ikan_osv5_student.Prelude.{
  ℕ, zero, suc, ◌+◌, ◌-◌, ◌*◌, ◌/◌, ◌%◌, ◌^◌, ◌<◌, ◌≤◌, min, ◌&&◌, false, true, List, some, ◌==◌,
  ltb, if◌then◌else◌, ◌≡◌, ◌∙◌, arith, get_or, length, refl, all_below, all_below_sound, has_bit,
  with_bit, ℕ_discrete, get_or-set_self, get_or-set_ne, not, has_bit_full, bool_eq, bool_eq_sound,
}
use ikan_osv5_student.Ext2.Bitmap.{
  run_length, breaks, next_loop, next_available, used_loop, total_used, allocate,
}
use ikan_osv5_student.Ext2.Bitmap.Allocate.{
  bit_at, allocate_first, allocate-some, scan-some, find_clear-some,
}

-- Byte `i` of the map in which the first `n` bits are set and no other.
abbrev pub run_byte : ℕ → ℕ → ℕ
run_byte n i = if ltb i (n / 8) then 255 else if i == n / 8 then 2 ^ (n % 8) - 1 else 0

abbrev pub IsRun : List ℕ → ℕ → Type 0
IsRun m n = (i : ℕ) → get_or m i 0 ≡ run_byte n i

ladder_table :
    all_below 8 (λ j.
      (run_length (2 ^ j - 1) == j)
      && breaks (2 ^ j - 1)
      && (with_bit (2 ^ j - 1) j == 2 ^ (j + 1) - 1))
    ≡ true
unfolding all_below run_length breaks with_bit
ladder_table = refl

ladder :
    (j : ℕ)
    → j < 8
    → (run_length (2 ^ j - 1) ≡ j)
      × (breaks (2 ^ j - 1) ≡ true)
      × (with_bit (2 ^ j - 1) j ≡ 2 ^ (j + 1) - 1)
ladder j h =
    let t =
      all_below_sound 8
        (λ j.
          (run_length (2 ^ j - 1) == j)
          && breaks (2 ^ j - 1)
          && (with_bit (2 ^ j - 1) j == 2 ^ (j + 1) - 1))
        j ladder_table h in
    ground arith

bits_table : all_below 8 (λ j. all_below 8 (λ c. bool_eq (has_bit (2 ^ j - 1) c) (ltb c j))) ≡ true
unfolding all_below has_bit
bits_table = refl

has_bit-ones : (j c : ℕ) → j < 8 → c < 8 → has_bit (2 ^ j - 1) c ≡ ltb c j
has_bit-ones j c hj hc = bool_eq_sound _ _ (
    all_below_sound 8 (λ c. bool_eq (has_bit (2 ^ j - 1) c) (ltb c j)) c
      (all_below_sound 8 (λ j. all_below 8 (λ c. bool_eq (has_bit (2 ^ j - 1) c) (ltb c j))) j
        bits_table hj)
      hc)

ends_table : (run_length 255 ≡ 8) × (breaks 255 ≡ false) × (run_length 0 ≡ 0)
unfolding run_length breaks
ends_table = (refl, refl, refl)

has_bit_zero_table : all_below 8 (λ c. not (has_bit 0 c)) ≡ true
unfolding all_below has_bit
has_bit_zero_table = refl

has_bit_zero : (c : ℕ) → c < 8 → has_bit 0 c ≡ false
has_bit_zero c h = ground (arith, all_below_sound 8 (λ c. not (has_bit 0 c)) c has_bit_zero_table h)

-- Bit `i` of such a map is set exactly below `n`.
bit_at-run : (m : List ℕ) (n i : ℕ) → IsRun m n → bit_at m i ≡ ltb i n
unfolding bit_at
bit_at-run m n i v =
    rw (v (i / 8))
      (ground (arith, has_bit-ones (n % 8) (i % 8), has_bit_full (i % 8), has_bit_zero (i % 8)))

next_loop-run :
    (r i : ℕ) (m : List ℕ) (n : ℕ)
    → IsRun m n
    → i ≤ n / 8
    → n < 8 * (i + r)
    → next_loop r i (8 * i) m ≡ n
unfolding next_loop
next_loop-run zero i m n v p q = absurd (omega arith)
next_loop-run (suc r) i m n v p q = elim (ℕ_discrete i (n / 8)) [
  | yes e ↦ ground (arith, v i, ladder (n % 8))
  | no ne ↦ ground (arith, v i, ends_table, next_loop-run r (suc i) m n v)
]

used_loop-run :
    (r i : ℕ) (m : List ℕ) (n acc : ℕ)
    → IsRun m n
    → acc ≡ min n (8 * i)
    → used_loop r i acc m ≡ min n (8 * (i + r))
unfolding used_loop
used_loop-run zero i m n acc v e = omega arith
used_loop-run (suc r) i m n acc v e = used_loop-run r (suc i) m n _ v step ∙ (omega arith)
  where
    step : acc + run_length (get_or m i 0) ≡ min n (8 * suc i)
    step = rw (v i) (ground (arith, ends_table, ladder (n % 8)))

-- On a map in use without a gap that is not full, `readNextAvailableBlock` names the block that
-- `allocateFreeBlock` would return.
next_available-allocate :
    (bytes : ℕ) (m : List ℕ) (n block : ℕ) (m' : List ℕ)
    → IsRun m n
    → n < 8 * bytes
    → allocate bytes m ≡ some (block, m')
    → next_available bytes m ≡ block
unfolding next_available
next_available-allocate bytes m n block m' v l h = ground (
  arith,
  next_loop-run bytes 0 m n v,
  bit_at-run m n n v,
  bit_at-run m n (block - 1) v,
  allocate_first bytes m block m' n h,
)

-- On a map whose first `n` blocks, and no others, are in use, `readTotalBlocksUsed` counts `n`, up
-- to the map's size.
total_used-run :
    (bytes : ℕ) (m : List ℕ) (n : ℕ) → IsRun m n → n ≤ 8 * bytes → total_used bytes m ≡ n
unfolding total_used
total_used-run bytes m n v l = omega (arith, used_loop-run bytes 0 m n 0 v (omega arith))

next_byte : (n : ℕ) → with_bit (2 ^ (n % 8) - 1) (n % 8) ≡ run_byte (n + 1) (n / 8)
next_byte n = elim (ℕ_discrete (n % 8) 7) [
  | yes e ↦ rw ((ladder (n % 8) (omega arith)).2, e) (ground arith)
  | no ne ↦
      rw ((ladder (n % 8) (omega arith)).2, let e : (n + 1) % 8 ≡ n % 8 + 1 = omega arith in e)
        (ground arith)
]

-- On a long enough map whose first `n` blocks, and no others, are in use and where the next is in
-- range, allocation takes block `n + 1` and keeps the map without a gap.
allocate-IsRun :
    (bytes : ℕ) (m : List ℕ) (n block : ℕ) (m' : List ℕ) (i : ℕ)
    → IsRun m n
    → bytes ≤ length m
    → n < 8 * bytes
    → allocate bytes m ≡ some (block, m')
    → (block ≡ n + 1) × (get_or m' i 0 ≡ run_byte (n + 1) i)
allocate-IsRun bytes m n block m' i v len l h =
    let (k, b, e, e1, e2) = allocate-some bytes m block m' h in
    let (p, q, f) = scan-some bytes 0 m k b e in
    let (f1, f2, f3) = find_clear-some 8 0 (get_or m k 0) b f in
    let at_block : block ≡ n + 1 = ground (
      arith,
      bit_at-run m n n v,
      bit_at-run m n (block - 1) v,
      allocate_first bytes m block m' n h,
    ) in
    let byte : k ≡ n / 8 = omega arith in
    let low : b ≡ n % 8 = omega arith in
    (
      at_block,
      rw e2 (elim (ℕ_discrete k i) [
        | yes g ↦ rw (← g) (
            get_or-set_self m k (with_bit (get_or m k 0) b) 0 (omega arith)
            ∙ (rw (v k, byte, low) (ground (arith, next_byte n))))
        | no ng ↦ rw (get_or-set_ne m k i (with_bit (get_or m k 0) b) 0 ng) (ground (arith, v i))
      ]),
    )
