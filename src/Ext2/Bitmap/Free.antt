-- ===== src/Ext2/Bitmap/Free.antt =====
-- What `freeBlock` (fs.cpp) does to the block map.
use ikan_osv5_student.Prelude.{
  ℕ, ◌+◌, ◌-◌, ◌/◌, ◌%◌, ◌^◌, ◌<◌, ◌≤◌, true, ◌&&◌, ◌||◌, not, xor, List, some, ◌==◌, ==_iff, ◌≡◌,
  ◌≢◌, arith, get_or, length, has_bit, has_bit-clear, has_bit-flip_top, get_or-set_self,
  get_or-set_ne, ℕ_discrete, refl, all_below, all_below_sound,
}
use ikan_osv5_student.Ext2.Bitmap.{free_weight, free, allocate}
use ikan_osv5_student.Ext2.Bitmap.Allocate.{
  bit_at, IsMap, bit_at-allocate, allocate_first, allocate-IsMap,
}

weight_table : all_below 8 (λ b. b == 0 || free_weight b == 2 ^ (b - 1)) ≡ true
unfolding free_weight all_below
weight_table = refl

free_weight_pow : (b : ℕ) → b < 8 → b ≢ 0 → free_weight b ≡ 2 ^ (b - 1)
free_weight_pow b h ne =
    let t = all_below_sound 8 (λ b. b == 0 || free_weight b == 2 ^ (b - 1)) b weight_table h in
    ground (arith, ==_iff (free_weight b) (2 ^ (b - 1)))

free_weight-le : (b : ℕ) → free_weight b ≤ 128
unfolding free_weight
free_weight-le b = ground arith

cut : (x w : ℕ) → w ≤ 128 → (x + 2 ^ 32 - w) % 2 ^ 32 % 256 ≡ (x + 256 - w) % 256
cut x w h = omega arith

-- Away from the multiples of eight, freeing a block in use clears its bit and no other.
bit_at-free :
    (m : List ℕ) (block n : ℕ)
    → IsMap m
    → block % 8 ≢ 0
    → block / 8 < length m
    → bit_at m (block - 1) ≡ true
    → bit_at (free block m) n ≡ (not (block == n + 1) && bit_at m n)
unfolding bit_at free
bit_at-free m block n v ne l h =
    let k : ℕ = block / 8 in
    let x : ℕ = get_or m k 0 in
    let b : ℕ = block % 8 - 1 in
    let same : (block - 1) / 8 ≡ k = omega arith in
    let low : (block - 1) % 8 ≡ b = omega arith in
    let set_bit : has_bit x b ≡ true = rw (← same, ← low) h in
    rw
      (
        cut x (free_weight (block % 8)) (free_weight-le (block % 8)),
        free_weight_pow (block % 8) (omega arith) ne,
      )
      (elim (ℕ_discrete k (n / 8)) [
        | yes g ↦ rw (← g) (
            ground (
              arith,
              get_or-set_self m k ((x + 256 - 2 ^ b) % 256) 0,
              has_bit-clear x b (n % 8) (v k),
            ))
        | no ng ↦ ground (arith, get_or-set_ne m k (n / 8) ((x + 256 - 2 ^ b) % 256) 0)
      ])

-- At a multiple of eight, the bit that changes is that of the block eight further on: it flips.
bit_at-free_multiple :
    (m : List ℕ) (block n : ℕ)
    → IsMap m
    → block % 8 ≡ 0
    → block / 8 < length m
    → bit_at (free block m) n ≡ xor (n == block + 7) (bit_at m n)
unfolding bit_at free free_weight
bit_at-free_multiple m block n v e l =
    let k : ℕ = block / 8 in
    let x : ℕ = get_or m k 0 in
    rw (e, cut x 128 (omega arith))
      (elim (ℕ_discrete k (n / 8)) [
        | yes g ↦ rw (← g) (
            ground (
              arith,
              get_or-set_self m k ((x + 256 - 128) % 256) 0,
              has_bit-flip_top x (n % 8) (v k),
            ))
        | no ng ↦ ground (arith, get_or-set_ne m k (n / 8) ((x + 256 - 128) % 256) 0)
      ])

-- On a map of bytes that is long enough, freeing the block that was just allocated restores every
-- bit, unless its number is a multiple of eight.
pub free-allocate :
    (bytes : ℕ) (m : List ℕ) (block : ℕ) (m' : List ℕ) (n : ℕ)
    → IsMap m
    → bytes ≤ length m
    → allocate bytes m ≡ some (block, m')
    → block % 8 ≢ 0
    → bit_at (free block m') n ≡ bit_at m n
free-allocate bytes m block m' n v l h ne =
    let (p, q, clear, first) = allocate_first bytes m block m' n h in
    let (v', len) = allocate-IsMap bytes m block m' v l h in
    ground (
      arith,
      bit_at-free m' block n v' ne (omega arith),
      bit_at-allocate bytes m block m' n v l h,
      bit_at-allocate bytes m block m' (block - 1) v l h,
    )

-- On a map of bytes with a byte to spare, a block whose number is a multiple of eight stays marked
-- in use when it is freed just after its allocation.
pub free_leaks :
    (bytes : ℕ) (m : List ℕ) (block : ℕ) (m' : List ℕ)
    → IsMap m
    → bytes < length m
    → allocate bytes m ≡ some (block, m')
    → block % 8 ≡ 0
    → bit_at (free block m') (block - 1) ≡ true
free_leaks bytes m block m' v l h e =
    let (p, q, clear, first) = allocate_first bytes m block m' (block - 1) h in
    let (v', len) = allocate-IsMap bytes m block m' v (omega arith) h in
    ground (
      arith,
      bit_at-free_multiple m' block (block - 1) v' e (omega arith),
      bit_at-allocate bytes m block m' (block - 1) v (omega arith) h,
    )
