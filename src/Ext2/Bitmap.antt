-- ===== src/Ext2/Bitmap.antt =====
-- The usage bitmaps of ikanOSv5-1-Bootloader-Base/fs.cpp, as byte lists: the scans of
-- `allocateFreeBlock` and `allocateInode`, the byte arithmetic of `freeBlock`, and the two
-- counting loops `readNextAvailableBlock` and `readTotalBlocksUsed` (and their inode copies).
-- The functions here work on the map that `readBlock` has loaded.
pub mod Allocate
pub mod Free
pub mod Count
use ikan_osv5_student.Prelude.{
  ℕ, zero, suc, ◌+◌, ◌-◌, ◌*◌, ◌/◌, ◌%◌, ◌^◌, Bool, true, false, not, List, Option, none, some,
  ◌||◌, ◌==◌, if◌then◌else◌, get_or, set, has_bit, with_bit,
}

-- The bytes of the block map (16000 / 8) and of the inode map (8000 / 8).
abbrev pub block_map_bytes : ℕ
block_map_bytes = 0x7D0

abbrev pub inode_map_bytes : ℕ
inode_map_bytes = 0x3E8

-- The inner loop `for (bit = 0; bit < 8; bit++)`: the first clear bit, on the rounds left.
unfoldable pub find_clear : ℕ → ℕ → ℕ → Option ℕ
find_clear zero bit byte = none
find_clear (suc rounds) bit byte =
    if has_bit byte bit then find_clear rounds (suc bit) byte else some bit

-- The outer loop over `byte_idx`: the first byte and bit found clear.
unfoldable pub scan : ℕ → ℕ → List ℕ → Option (ℕ × ℕ)
scan zero byte_idx bitmap = none
scan (suc rounds) byte_idx bitmap =
    let rest = scan rounds (suc byte_idx) bitmap in
    let byte = get_or bitmap byte_idx 0 in
    if byte == 0xff
    then rest
    else elim (find_clear 8 0 byte) [ none ↦ rest | some bit ↦ some (byte_idx, bit) ]

-- The number returned and the changed map; `none` is the final `return 0`.
unfoldable pub allocate : ℕ → List ℕ → Option (ℕ × List ℕ)
allocate bytes bitmap = elim (scan bytes 0 bitmap) [
  | none ↦ none
  | some (byte_idx, bit) ↦
      some (byte_idx * 8 + bit + 1, set bitmap byte_idx (with_bit (get_or bitmap byte_idx 0) bit))
]

-- The amount that `freeBlock` subtracts, by `blockNumber % 8`.
unfoldable pub free_weight : ℕ → ℕ
free_weight bit =
    if bit == 1
    then 1
    else if bit == 2
    then 2
    else if bit == 3
    then 4
    else if bit == 4
    then 8
    else if bit == 5
    then 16
    else if bit == 6
    then 32
    else if bit == 7
    then 64
    else 128

-- `freeBlock` on the map: the `uint32_t` difference, cut to a byte.
unfoldable pub free : ℕ → List ℕ → List ℕ
free block_number bitmap =
    let byte = get_or bitmap (block_number / 8) 0 in
    set bitmap (block_number / 8) ((byte + 2 ^ 32 - free_weight (block_number % 8)) % 2 ^ 32 % 256)

-- The ladder of comparisons: the bits of a byte 2^k - 1, and nothing for any other byte.
unfoldable pub run_length : ℕ → ℕ
run_length byte =
    if byte == 1
    then 1
    else if byte == 3
    then 2
    else if byte == 7
    then 3
    else if byte == 15
    then 4
    else if byte == 31
    then 5
    else if byte == 63
    then 6
    else if byte == 127
    then 7
    else if byte == 255
    then 8
    else 0

-- Which rungs of the ladder of `readNextAvailableBlock` break out of the loop.
unfoldable pub breaks : ℕ → Bool
breaks byte =
    byte == 0
    || byte == 1
    || byte == 3
    || byte == 7
    || byte == 15
    || byte == 31
    || byte == 63
    || byte == 127

next_loop : ℕ → ℕ → ℕ → List ℕ → ℕ
next_loop zero block_number last_used bitmap = last_used
next_loop (suc rounds) block_number last_used bitmap =
    let byte = get_or bitmap block_number 0 in
    let used = last_used + run_length byte in
    let rest = next_loop rounds (suc block_number) used bitmap in if breaks byte then used else rest

-- `readNextAvailableBlock` / `readNextAvailableInode`, on the loaded map.
unfoldable pub next_available : ℕ → List ℕ → ℕ
unfolding next_loop
next_available bytes bitmap = next_loop bytes 0 0 bitmap + 1

used_loop : ℕ → ℕ → ℕ → List ℕ → ℕ
used_loop zero block_number in_use bitmap = in_use
used_loop (suc rounds) block_number in_use bitmap =
    used_loop rounds (suc block_number) (in_use + run_length (get_or bitmap block_number 0)) bitmap

-- `readTotalBlocksUsed`, on the loaded map.
unfoldable pub total_used : ℕ → List ℕ → ℕ
unfolding used_loop
total_used bytes bitmap = used_loop bytes 0 0 bitmap
