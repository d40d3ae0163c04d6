-- ===== src/Ext2/Volume.antt =====
-- The functions of ikanOSv5-1-Bootloader-Base/fs.cpp that allocate and free on the disk: each reads
-- a usage map by `readBlock`, works on it (Ext2/Bitmap) and writes it back.
pub mod Usage
pub mod Buffers
use ikan_osv5_student.Prelude.{
  ℕ, zero, suc, ◌+◌, ◌-◌, ◌*◌, ◌/◌, ◌%◌, ◌^◌, Bool, true, false, ◌&&◌, List, [], ◌∷◌, ◌++◌, Option,
  none, some, ◌==◌, ltb, leb, if◌then◌else◌, get_or, set, take, replicate,
}
use ikan_osv5_student.Libc.Numbers.{ceiling}
use ikan_osv5_student.Disk.{Device, Disk, read_block, write_block, block_size}
use ikan_osv5_student.Ext2.Bitmap.{
  block_map_bytes, inode_map_bytes, allocate, free, next_available, total_used,
}

-- The fields of `struct blockGroupDescriptor` that the code reads.
pub record BlockGroup : Type 0 where
  pub block_usage : ℕ
  pub inode_usage : ℕ
  pub inode_table : ℕ

-- A block as `uint32_t` words, lowest byte first, and back.
unfoldable pub words : List ℕ → List ℕ
words (a ∷ b ∷ c ∷ d ∷ rest) = (a + b * 2 ^ 8 + c * 2 ^ 16 + d * 2 ^ 24) ∷ words rest
words _ = []

unfoldable pub word_bytes : List ℕ → List ℕ
word_bytes [] = []
word_bytes (w ∷ ws) =
    (w % 2 ^ 8) ∷ (w / 2 ^ 8 % 2 ^ 8) ∷ (w / 2 ^ 16 % 2 ^ 8) ∷ (w / 2 ^ 24 % 2 ^ 8) ∷ word_bytes ws

-- `EXT2_NUMBER_OF_DIRECT_BLOCKS`, also the index of the indirect block.
abbrev pub direct_blocks : ℕ
direct_blocks = 12

-- `EXT2_BLOCKS_PER_INDIRECT_BLOCK`
abbrev pub blocks_per_indirect : ℕ
blocks_per_indirect = 512

-- The fields of the inode that `writeBufferToDisk` changes.
pub record InodeBlocks : Type 0 where
  pub i_block : List ℕ
  pub i_size : ℕ

module _ (d : Device) (g : BlockGroup) (active : Bool) where
  -- The scan of a map and the write that follows it; 0 where nothing is free.
  unfoldable pub allocate_on : ℕ → ℕ → Disk d → ℕ × Disk d
  allocate_on map_block bytes k =
      let (bitmap, k') = read_block d active map_block k in
      elim (allocate bytes bitmap) [
        | none ↦ (0, k')
        | some (number, bitmap') ↦ (number, write_block d active map_block bitmap' k')
      ]

  unfoldable pub allocate_free_block : Disk d → ℕ × Disk d
  allocate_free_block k = allocate_on g.block_usage block_map_bytes k

  unfoldable pub allocate_inode : Disk d → ℕ × Disk d
  allocate_inode k = allocate_on g.inode_usage inode_map_bytes k

  unfoldable pub read_next_available_block : Disk d → ℕ × Disk d
  read_next_available_block k =
      let (bitmap, k') = read_block d active g.block_usage k in
      (next_available block_map_bytes bitmap, k')

  unfoldable pub read_next_available_inode : Disk d → ℕ × Disk d
  read_next_available_inode k =
      let (bitmap, k') = read_block d active g.inode_usage k in
      (next_available inode_map_bytes bitmap, k')

  unfoldable pub read_total_blocks_used : Disk d → ℕ × Disk d
  read_total_blocks_used k =
      let (bitmap, k') = read_block d active g.block_usage k in
      (total_used block_map_bytes bitmap, k')

  unfoldable pub free_block : ℕ → Disk d → Disk d
  free_block block_number k =
      let (bitmap, k') = read_block d active g.block_usage k in
      write_block d active g.block_usage (free block_number bitmap) k'

  -- The loop that both halves of `freeAllBlocks` make: a zero is no block.
  unfoldable pub free_listed : List ℕ → Disk d → Disk d
  free_listed [] k = k
  free_listed (b ∷ rest) k = free_listed rest (if b == 0 then k else free_block b k)

  -- `freeAllBlocks`, on the inode's `i_block`.
  unfoldable pub free_all_blocks : List ℕ → Disk d → Disk d
  free_all_blocks i_block k =
      let k1 = free_listed (take direct_blocks i_block) k in
      let indirect = get_or i_block direct_blocks 0 in
      let (bytes, k2) = read_block d active indirect k1 in
      if indirect == 0 then k1 else free_listed (take blocks_per_indirect (words bytes)) k2

  -- `buffer i` is the i-th block of the user's buffer.
  module _ (buffer : ℕ → List ℕ) (total : ℕ) where
    -- The first loop, on the rounds left: twelve data blocks, then the indirect block.
    unfoldable pub direct_loop : ℕ → ℕ → List ℕ → Disk d → ℕ × List ℕ × Disk d
    direct_loop zero current i_block k = (current, i_block, k)
    direct_loop (suc rounds) current i_block k =
        let (b, k1) = allocate_free_block k in
        let k2 = if ltb current 12 then write_block d active b (buffer current) k1 else k1 in
        let more = direct_loop rounds (current + 1) (set i_block current b) k2 in
        if leb current 12 && ltb current total then more else (current, i_block, k)

    -- The second loop, on the rounds left: the rest of the buffer, and the indirect block's words.
    unfoldable pub indirect_loop : ℕ → ℕ → ℕ → List ℕ → Disk d → ℕ × List ℕ × Disk d
    indirect_loop zero current_direct current table k = (current, table, k)
    indirect_loop (suc rounds) current_direct current table k =
        let (b, k1) = allocate_free_block k in
        let k2 = write_block d active b (buffer (current + current_direct)) k1 in
        let more = indirect_loop rounds current_direct (current + 1) (set table current b) k2 in
        if ltb (current + current_direct) total then more else (current, table, k)

  -- `writeBufferToDisk` on the inode's fields; 13 and `total` rounds end the loops.
  unfoldable pub write_buffer_to_disk :
      (ℕ → List ℕ) → ℕ → InodeBlocks → Disk d → InodeBlocks × Disk d
  write_buffer_to_disk buffer pages inode k =
      let total = ceiling (pages * 4096 % 2 ^ 32) block_size in
      let (direct, i_block, k1) = direct_loop buffer total 13 0 inode.i_block k in
      let (indirect, table, k2) =
        indirect_loop buffer total total direct 0 (replicate blocks_per_indirect 0) k1 in
      if ltb 12 total
      then (
        record { i_block = i_block; i_size = (direct + indirect) * block_size % 2 ^ 32 },
        write_block d active (get_or i_block 12 0) (word_bytes table) k2,
      )
      else (record { i_block = i_block; i_size = direct * block_size % 2 ^ 32 }, k1)
