-- ===== src/Ext2/Volume/Buffers.antt =====
-- Which of the buffer's blocks `writeBufferToDisk` (fs.cpp) writes.
use ikan_osv5_student.Prelude.{
  ℕ, zero, suc, ◌+◌, ◌*◌, ◌%◌, ◌^◌, ◌<◌, ◌≤◌, ◌≡◌, ◌≢◌, Bool, ◌&&◌, List, ltb, leb, if◌then◌else◌,
  arith, refl, ap, Bool-cases, min, inl, inr, replicate,
}
use ikan_osv5_student.Libc.Numbers.{ceiling}
use ikan_osv5_student.Disk.{Device, Disk, block_size}
use ikan_osv5_student.Ext2.Volume.{
  BlockGroup, InodeBlocks, direct_loop, indirect_loop, write_buffer_to_disk,
}

module _ (d : Device) (g : BlockGroup) (active : Bool) where
  direct_loop-count :
      (buffer : ℕ → List ℕ) (total rounds current : ℕ) (i_block : List ℕ) (k : Disk d)
      → current + rounds ≡ 13
      → current ≤ total
      → (direct_loop d g active buffer total rounds current i_block k).0 ≡ min 13 total
  unfolding direct_loop
  direct_loop-count buffer total zero current i_block k e h = omega arith
  direct_loop-count buffer total (suc rounds) current i_block k e h =
      elim (Bool-cases (leb current 12 && ltb current total)) [
        | inl t ↦
            rw (t, direct_loop)
              (direct_loop-count buffer total rounds (current + 1) _ _ (omega arith) (ground arith))
        | inr f ↦ rw (f, direct_loop) (ground arith)
      ]

  module _ (buffer buffer' : ℕ → List ℕ) (same : (i : ℕ) → i ≢ 12 → buffer i ≡ buffer' i)
      (total : ℕ) where
    direct_loop-same :
        (rounds current : ℕ) (i_block : List ℕ) (k : Disk d)
        → direct_loop d g active buffer total rounds current i_block k
          ≡ direct_loop d g active buffer' total rounds current i_block k
    unfolding direct_loop
    direct_loop-same zero current i_block k = refl
    direct_loop-same (suc rounds) current i_block k = elim (Bool-cases (ltb current 12)) [
      | inl l ↦
          rw (l, direct_loop, same current (ground arith))
            (ap
              (λ more. if leb current 12 && ltb current total then more else (current, i_block, k))
              (direct_loop-same rounds (current + 1) _ _))
      | inr nl ↦
          rw (nl, direct_loop)
            (ap
              (λ more. if leb current 12 && ltb current total then more else (current, i_block, k))
              (direct_loop-same rounds (current + 1) _ _))
    ]

    indirect_loop-same :
        (rounds start current : ℕ) (table : List ℕ) (k : Disk d)
        → 12 < start
        → indirect_loop d g active buffer total rounds start current table k
          ≡ indirect_loop d g active buffer' total rounds start current table k
    unfolding indirect_loop
    indirect_loop-same zero start current table k h = refl
    indirect_loop-same (suc rounds) start current table k h =
        rw (same (current + start) (omega arith)) (
          ap (λ more. if ltb (current + start) total then more else (current, table, k))
            (indirect_loop-same rounds start (current + 1) _ _ h))

  -- The buffer's thirteenth block never reaches the disk: `writeBufferToDisk` does the same to the
  -- disk and the inode for two buffers that differ in that block only, however long they are.
  pub write_buffer_to_disk_loses :
      (buffer buffer' : ℕ → List ℕ) (pages : ℕ) (inode : InodeBlocks) (k : Disk d)
      → ((i : ℕ) → i ≢ 12 → buffer i ≡ buffer' i)
      → write_buffer_to_disk d g active buffer pages inode k
        ≡ write_buffer_to_disk d g active buffer' pages inode k
  unfolding write_buffer_to_disk
  write_buffer_to_disk_loses buffer buffer' pages inode k same =
      let total : ℕ = ceiling (pages * 4096 % 2 ^ 32) block_size in
      let first = direct_loop d g active buffer' total 13 0 inode.i_block k in
      let count = direct_loop-count buffer' total 13 0 inode.i_block k refl (omega arith) in
      elim (Bool-cases (ltb 12 total)) [
        | inl more ↦
            let rest =
              indirect_loop-same buffer buffer' same total total first.0 0 (replicate 512 0) first.2
                (ground arith) in
            rw (direct_loop-same buffer buffer' same total 13 0 inode.i_block k, more) (rw rest)
        | inr fits ↦ rw (direct_loop-same buffer buffer' same total 13 0 inode.i_block k, fits)
      ]
