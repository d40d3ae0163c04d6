-- ===== src/Ext2/Bitmap/Allocate.antt =====
-- What the allocating scan of `allocateFreeBlock` and `allocateInode` (fs.cpp) finds and changes.
use ikan_osv5_student.Prelude.{
  ℕ, zero, suc, ◌+◌, ◌-◌, ◌*◌, ◌/◌, ◌%◌, ◌≤◌, ◌<◌, Bool, true, false, ◌||◌, List, none, some, ◌==◌,
  ◌≡◌, ◌⊎◌, inl, inr, arith, get_or, set, length, has_bit, with_bit, has_bit-with_bit, with_bit-lt,
  has_bit_full, get_or-set_self, get_or-set_ne, length-set, Option-cases, dec_lt, ℕ_discrete,
}
use ikan_osv5_student.Ext2.Bitmap.{find_clear, scan, allocate}

-- Bit `n` of a map: the state of block or inode `n + 1`.
unfoldable pub bit_at : List ℕ → ℕ → Bool
bit_at bitmap n = has_bit (get_or bitmap (n / 8) 0) (n % 8)

-- A map is a list of bytes.
abbrev pub IsMap : List ℕ → Type 0
IsMap bitmap = (i : ℕ) → get_or bitmap i 0 < 256

pub find_clear-some :
    (r b x k : ℕ) → find_clear r b x ≡ some k → (b ≤ k) × (k < b + r) × (has_bit x k ≡ false)
unfolding find_clear
find_clear-some zero b x k h = cc
find_clear-some (suc r) b x k h = ground (arith, find_clear-some r (suc b) x k)

find_clear_before : (r b x k c : ℕ) → find_clear r b x ≡ some k → b ≤ c → c < k → has_bit x c ≡ true
unfolding find_clear
find_clear_before zero b x k c h p q = cc
find_clear_before (suc r) b x k c h p q = elim (ℕ_discrete b c) [
  | yes e ↦ rw (← e) (ground arith)
  | no ne ↦ ground (arith, find_clear_before r (suc b) x k c)
]

find_clear-none : (r b x c : ℕ) → find_clear r b x ≡ none → b ≤ c → c < b + r → has_bit x c ≡ true
unfolding find_clear
find_clear-none zero b x c h p q = absurd (omega arith)
find_clear-none (suc r) b x c h p q = elim (ℕ_discrete b c) [
  | yes e ↦ rw (← e) (ground arith)
  | no ne ↦ ground (arith, find_clear-none r (suc b) x c)
]

-- The place that the scan stops at: a clear bit in range.
pub scan-some :
    (r i : ℕ) (m : List ℕ) (k b : ℕ)
    → scan r i m ≡ some (k, b)
    → (i ≤ k) × (k < i + r) × (find_clear 8 0 (get_or m k 0) ≡ some b)
unfolding scan
scan-some zero i m k b h = cc
scan-some (suc r) i m k b h = ground (arith, scan-some r (suc i) m k b)

-- Every byte before it is full.
scan_before :
    (r i : ℕ) (m : List ℕ) (k b j c : ℕ)
    → scan r i m ≡ some (k, b)
    → i ≤ j
    → j < k
    → c < 8
    → has_bit (get_or m j 0) c ≡ true
unfolding scan
scan_before zero i m k b j c h p q l = cc
scan_before (suc r) i m k b j c h p q l = elim (ℕ_discrete i j) [
  | yes e ↦ rw (← e) (ground (arith, has_bit_full c, find_clear-none 8 0 (get_or m i 0) c))
  | no ne ↦ ground (arith, scan_before r (suc i) m k b j c)
]

scan-none :
    (r i : ℕ) (m : List ℕ) (j c : ℕ)
    → scan r i m ≡ none
    → i ≤ j
    → j < i + r
    → c < 8
    → has_bit (get_or m j 0) c ≡ true
unfolding scan
scan-none zero i m j c h p q l = absurd (omega arith)
scan-none (suc r) i m j c h p q l = elim (ℕ_discrete i j) [
  | yes e ↦ rw (← e) (ground (arith, has_bit_full c, find_clear-none 8 0 (get_or m i 0) c))
  | no ne ↦ ground (arith, scan-none r (suc i) m j c)
]

-- Inversion of a successful allocation.
pub allocate-some :
    (bytes : ℕ) (m : List ℕ) (block : ℕ) (m' : List ℕ)
    → allocate bytes m ≡ some (block, m')
    → (k : ℕ) × (b : ℕ) × (scan bytes 0 m ≡ some (k, b))
      × (block ≡ k * 8 + b + 1)
      × (m' ≡ set m k (with_bit (get_or m k 0) b))
unfolding allocate
allocate-some bytes m block m' h = elim (Option-cases (scan bytes 0 m)) [
  | inl e ↦ absurd (ground arith)
  | inr ((k, b), e) ↦ (k, b, e, ground arith, ground arith)
]

div-eq : (k b n : ℕ) → b < 8 → n ≡ k * 8 + b → (n / 8 ≡ k) × (n % 8 ≡ b)
div-eq k b n h e = omega arith

-- An allocation that succeeds takes a clear bit in range, numbered from 1, and no bit before it is
-- clear.
pub allocate_first :
    (bytes : ℕ) (m : List ℕ) (block : ℕ) (m' : List ℕ) (n : ℕ)
    → allocate bytes m ≡ some (block, m')
    → (0 < block)
      × (block ≤ 8 * bytes)
      × (bit_at m (block - 1) ≡ false)
      × ((block ≤ n + 1) ⊎ (bit_at m n ≡ true))
unfolding bit_at
allocate_first bytes m block m' n h =
    let (k, b, e, e1, e2) = allocate-some bytes m block m' h in
    let (p, q, f) = scan-some bytes 0 m k b e in
    let (f1, f2, f3) = find_clear-some 8 0 (get_or m k 0) b f in
    let (d1, d2) = div-eq k b (block - 1) f2 (omega arith) in
    (omega arith, omega arith, rw (d1, d2) f3, before k b e f e1 f2)
  where
    before :
        (k b : ℕ)
        → scan bytes 0 m ≡ some (k, b)
        → find_clear 8 0 (get_or m k 0) ≡ some b
        → block ≡ k * 8 + b + 1
        → b < 8
        → (block ≤ n + 1) ⊎ (has_bit (get_or m (n / 8) 0) (n % 8) ≡ true)
    before k b e f e1 f2 = elim (dec_lt (n / 8) k) [
      | yes l ↦ inr (scan_before bytes 0 m k b (n / 8) (n % 8) e (omega arith) l (omega arith))
      | no nl ↦ elim (ℕ_discrete (n / 8) k) [
        | yes g ↦ elim (dec_lt (n % 8) b) [
          | yes l ↦ inr (rw g (find_clear_before 8 0 (get_or m k 0) b (n % 8) f (omega arith) l))
          | no nl' ↦ inl (omega arith)
        ]
        | no ng ↦ inl (omega arith)
      ]
    ]

-- On a map of bytes that is long enough, an allocation sets the bit of the block that it returns
-- and changes no other bit.
pub bit_at-allocate :
    (bytes : ℕ) (m : List ℕ) (block : ℕ) (m' : List ℕ) (n : ℕ)
    → IsMap m
    → bytes ≤ length m
    → allocate bytes m ≡ some (block, m')
    → bit_at m' n ≡ (block == n + 1 || bit_at m n)
unfolding bit_at
bit_at-allocate bytes m block m' n v l h =
    let (k, b, e, e1, e2) = allocate-some bytes m block m' h in
    let (p, q, f) = scan-some bytes 0 m k b e in
    let (f1, f2, f3) = find_clear-some 8 0 (get_or m k 0) b f in
    rw e2 (elim (ℕ_discrete k (n / 8)) [
      | yes g ↦ rw (← g) (
          ground (
            arith,
            get_or-set_self m k (with_bit (get_or m k 0) b) 0,
            has_bit-with_bit (get_or m k 0) b (n % 8) (v k),
          ))
      | no ng ↦ ground (arith, get_or-set_ne m k (n / 8) (with_bit (get_or m k 0) b) 0)
    ])

-- The map stays a map.
pub allocate-IsMap :
    (bytes : ℕ) (m : List ℕ) (block : ℕ) (m' : List ℕ)
    → IsMap m
    → bytes ≤ length m
    → allocate bytes m ≡ some (block, m')
    → IsMap m' × (length m' ≡ length m)
allocate-IsMap bytes m block m' v l h =
    let (k, b, e, e1, e2) = allocate-some bytes m block m' h in
    let (p, q, f) = scan-some bytes 0 m k b e in
    let (f1, f2, f3) = find_clear-some 8 0 (get_or m k 0) b f in
    rw e2 (
      (λ i. elim (ℕ_discrete k i) [
        | yes g ↦ rw (← g) (
            rw (get_or-set_self m k (with_bit (get_or m k 0) b) 0 (omega arith))
              (with_bit-lt (get_or m k 0) b (v k) f2))
        | no ng ↦ rw (get_or-set_ne m k i (with_bit (get_or m k 0) b) 0 ng) (v i)
      ]),
      length-set m k (with_bit (get_or m k 0) b),
    )

allocate-none : (bytes : ℕ) (m : List ℕ) → allocate bytes m ≡ none → scan bytes 0 m ≡ none
unfolding allocate
allocate-none bytes m h = ground arith

-- As long as a bit in range is clear, an allocation succeeds, with a number up to that bit's.
allocate_total :
    (bytes : ℕ) (m : List ℕ) (n : ℕ)
    → n < 8 * bytes
    → bit_at m n ≡ false
    → (block : ℕ) × (m' : List ℕ) × (allocate bytes m ≡ some (block, m')) × (block ≤ n + 1)
unfolding bit_at
allocate_total bytes m n l c = elim (Option-cases (allocate bytes m)) [
  | inl e ↦ absurd (full e)
  | inr ((block, m'), e) ↦ (block, m', e, ground (arith, allocate_first bytes m block m' n e))
]
  where
    full : allocate bytes m ≡ none → ⊥
    full e = cc (
      c,
      scan-none bytes 0 m (n / 8) (n % 8) (allocate-none bytes m e) (omega arith) (omega arith)
          (omega arith),
    )
