-- ===== src/Ext2/Volume/Usage.antt =====
-- `allocateFreeBlock`, `allocateInode` and `freeBlock` (fs.cpp) on the disk.
use ikan_osv5_student.Prelude.{
  ℕ, ◌/◌, ◌%◌, ◌<◌, ◌≤◌, ◌≡◌, ◌≢◌, ◌∙◌, Bool, List, none, some, ◌==◌, if◌then◌else◌, arith, length,
  refl, ap, Option-cases, length-set, ◌⊎◌, inl, inr,
}
use ikan_osv5_student.Disk.{Device, Disk, read_block, write_block, block_size}
use ikan_osv5_student.Disk.Blocks.{
  IsGood, block_bytes, block_limit, read_block-eq-block_bytes, block_bytes-read_block,
  read_block-IsGood, write_block-IsGood, block_bytes-write_block, length-block_bytes,
}
use ikan_osv5_student.Ext2.Bitmap.{block_map_bytes, allocate, free}
use ikan_osv5_student.Ext2.Bitmap.Allocate.{bit_at, IsMap, allocate-IsMap}
use ikan_osv5_student.Ext2.Bitmap.Free.{free-allocate}
use ikan_osv5_student.Ext2.Volume.{BlockGroup, allocate_on, allocate_free_block, free_block}

length-free : (b : ℕ) (m : List ℕ) → length (free b m) ≡ length m
unfolding free
length-free b m = length-set m (b / 8) _

module _ (d : Device) (g : BlockGroup) (active : Bool) where
  allocate_on-none :
      (u bytes : ℕ) (k : Disk d)
      → allocate bytes (read_block d active u k).0 ≡ none
      → allocate_on d g active u bytes k ≡ (0, (read_block d active u k).1)
  unfolding allocate_on
  allocate_on-none u bytes k e = rw (e, allocate_on)

  allocate_on-some :
      (u bytes n : ℕ) (m : List ℕ) (k : Disk d)
      → allocate bytes (read_block d active u k).0 ≡ some (n, m)
      → allocate_on d g active u bytes k ≡ (n, write_block d active u m (read_block d active u k).1)
  unfolding allocate_on
  allocate_on-some u bytes n m k e = rw (e, allocate_on)

  -- An allocation on the disk allocates in the map's block and changes no other block; where the
  -- map is full it returns 0 and changes nothing.
  pub allocate_on_lem :
      (map_block bytes c : ℕ) (k : Disk d)
      → IsGood d active k
      → bytes ≤ block_size
      → IsMap (block_bytes d k map_block)
      → map_block < block_limit
      → c < block_limit
      → let (number, k') = allocate_on d g active map_block bytes k in
        IsGood d active k'
        × (((allocate bytes (block_bytes d k map_block) ≡ none)
              × (number ≡ 0)
              × (block_bytes d k' c ≡ block_bytes d k c))
            ⊎ ((m : List ℕ) × (allocate bytes (block_bytes d k map_block) ≡ some (number, m))
                × (block_bytes d k' c ≡ (if map_block == c then m else block_bytes d k c))))
  allocate_on_lem u bytes c k good fits v hu hc =
      let read = read_block-eq-block_bytes d active u k good in
      elim (Option-cases (allocate bytes (block_bytes d k u))) [
        | inl e ↦ rw (allocate_on-none u bytes k (rw read e)) (
          read_block-IsGood d active u k good,
          inl (e, refl, block_bytes-read_block d active u c k good),
        )
        | inr ((n, m), e) ↦
            let len =
              allocate-IsMap bytes (block_bytes d k u) n m v
                (omega (arith, length-block_bytes d k u)) e in
            rw (allocate_on-some u bytes n m k (rw read e)) (
              write_block-IsGood d active u m _ (read_block-IsGood d active u k good),
              inr (
                m,
                e,
                block_bytes-write_block d active u c m _ hu hc (len.1 ∙ length-block_bytes d k u)
                    ∙ ap (λ b. if u == c then m else b)
                        (block_bytes-read_block d active u c k good),
              ),
            )
      ]

  -- Freeing a block on the disk frees it in the map's block and changes no other block.
  pub free_block_lem :
      (b c : ℕ) (k : Disk d)
      → IsGood d active k
      → g.block_usage < block_limit
      → c < block_limit
      → block_bytes d (free_block d g active b k) c
        ≡ (if g.block_usage == c then free b (block_bytes d k g.block_usage) else block_bytes d k c)
  unfolding free_block
  free_block_lem b c k good hu hc = rw (read_block-eq-block_bytes d active g.block_usage k good) (
      block_bytes-write_block d active g.block_usage c (free b (block_bytes d k g.block_usage)) _ hu
        hc (length-free b _ ∙ length-block_bytes d k g.block_usage)
      ∙ ap (λ bytes. if g.block_usage == c then free b (block_bytes d k g.block_usage) else bytes)
          (block_bytes-read_block d active g.block_usage c k good))

  -- On a disk whose cache is coherent and whose block map is a map of bytes, allocating a block and
  -- freeing it restores every bit of the block map, unless the block's number is a multiple of
  -- eight, and leaves every other block as it was.
  pub free_block-allocate_free_block :
      (k : Disk d) (b c n : ℕ)
      → IsGood d active k
      → IsMap (block_bytes d k g.block_usage)
      → g.block_usage < block_limit
      → c < block_limit
      → g.block_usage ≢ c
      → (allocate_free_block d g active k).0 ≡ b
      → b % 8 ≢ 0
      → let k' = free_block d g active b (allocate_free_block d g active k).1 in
        (bit_at (block_bytes d k' g.block_usage) n ≡ bit_at (block_bytes d k g.block_usage) n)
        × (block_bytes d k' c ≡ block_bytes d k c)
  unfolding allocate_free_block
  free_block-allocate_free_block k b c n good v hu hc ne e h =
      let u : ℕ = g.block_usage in
      let k' : Disk d = (allocate_free_block d g active k).1 in
      let (good', at_map) = allocate_on_lem u block_map_bytes u k good (omega arith) v hu hu in
      let (good2, at_c) = allocate_on_lem u block_map_bytes c k good (omega arith) v hu hc in
      let free_u = free_block_lem b u k' good' hu hu in
      let free_c = free_block_lem b c k' good' hu hc in
      (
        elim at_map [
          | inl (x, z, y) ↦ absurd (ground arith)
          | inr (m, x, y) ↦ ground (
            arith,
            free-allocate block_map_bytes (block_bytes d k u) b m n v
                (omega (arith, length-block_bytes d k u)) (ground arith) h,
          )
        ],
        elim at_c [ inl (x, z, y) ↦ absurd (ground arith) | inr (m, x, y) ↦ ground arith ],
      )
