-- ===== src/Tests/Volumes.antt =====
-- The allocation functions of fs.cpp on a drive whose maps are empty.
use ikan_osv5_student.Prelude.{
  ℕ, zero, suc, ◌≡◌, inl, inr, true, ◌∷◌, ◌==◌, some, refl, arith, get_or, replicate, has_bit,
  with_bit, if◌then◌else◌,
}
use ikan_osv5_student.Disk.Blocks.{block_bytes, sectors}
use ikan_osv5_student.Ext2.Bitmap.{allocate, scan, find_clear, block_map_bytes}
use ikan_osv5_student.Ext2.Bitmap.Allocate.{bit_at, IsMap}
use ikan_osv5_student.Ext2.Volume.{
  BlockGroup, allocate_free_block, free_block, write_buffer_to_disk,
}
use ikan_osv5_student.Ext2.Volume.Usage.{allocate_on_lem, free_block-allocate_free_block}
use ikan_osv5_student.Ext2.Volume.Buffers.{write_buffer_to_disk_loses}
use ikan_osv5_student.Tests.Disks.{ram_disk, warm, warm-IsCoherent, get_sector, padded}

get_or-replicate : (n i : ℕ) → get_or {A = ℕ} (replicate n 0) i 0 ≡ 0
get_or-replicate zero zero = refl
get_or-replicate zero (suc i) = refl
get_or-replicate (suc n) zero = refl
get_or-replicate (suc n) (suc i) = get_or-replicate n i

abbrev group : BlockGroup
group = record { block_usage = 3; inode_usage = 4; inode_table = 5 }

block_bytes-warm : block_bytes ram_disk warm 3 ≡ replicate 2048 0
unfolding block_bytes sectors get_sector padded
block_bytes-warm = refl

block_bytes-warm-IsMap : IsMap (block_bytes ram_disk warm 3)
block_bytes-warm-IsMap = rw block_bytes-warm (λ i. omega (arith, get_or-replicate 2048 i))

allocate-empty : allocate block_map_bytes (replicate 2048 0) ≡ some (1, 1 ∷ replicate 2047 0)
unfolding allocate scan find_clear has_bit with_bit
allocate-empty = refl

allocate_free_block-warm : (allocate_free_block ram_disk group true warm).0 ≡ 1
unfolding allocate_free_block
allocate_free_block-warm =
    elim (allocate_on_lem ram_disk group true 3 block_map_bytes 3 warm warm-IsCoherent (omega arith)
      block_bytes-warm-IsMap (omega arith) (omega arith)).1 [
        | inl (x, y, z) ↦ absurd (ground (arith, block_bytes-warm, allocate-empty))
        | inr (m, x, y) ↦ ground (arith, block_bytes-warm, allocate-empty)
      ]

free_block-allocate_free_block_example :
    let k' = free_block ram_disk group true 1 (allocate_free_block ram_disk group true warm).1 in
    (bit_at (block_bytes ram_disk k' 3) 0 ≡ bit_at (block_bytes ram_disk warm 3) 0)
    × (block_bytes ram_disk k' 5 ≡ block_bytes ram_disk warm 5)
free_block-allocate_free_block_example =
    free_block-allocate_free_block ram_disk group true warm 1 5 0 warm-IsCoherent
      block_bytes-warm-IsMap (omega arith) (omega arith) (omega arith) allocate_free_block-warm
      (omega arith)

write_buffer_to_disk_loses_example :
    write_buffer_to_disk ram_disk group true
      (λ i. replicate 2048 65)
      7
      (record { i_block = replicate 15 0; i_size = 0 })
      warm
    ≡ write_buffer_to_disk ram_disk group true
        (λ i. replicate 2048 (if i == 12 then 66 else 65))
        7
        (record { i_block = replicate 15 0; i_size = 0 })
        warm
write_buffer_to_disk_loses_example =
    write_buffer_to_disk_loses ram_disk group true (λ i. replicate 2048 65)
      (λ i. replicate 2048 (if i == 12 then 66 else 65)) 7
      (record { i_block = replicate 15 0; i_size = 0 }) warm (λ i h. ground arith)
