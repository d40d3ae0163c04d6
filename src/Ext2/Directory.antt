-- ===== src/Ext2/Directory.antt =====
-- Directories in fs.cpp. The first block of a directory is a chain of entries: an inode number of
-- four bytes, the entry's length of two, the length of its name, its type, and the name. These are
-- the loops over the chain, on the bytes at KERNEL_WORKING_DIR.
pub mod Lookup
pub mod Remove
use ikan_osv5_student.Prelude.{
  ℕ, zero, suc, ◌+◌, ◌-◌, ◌*◌, ◌/◌, ◌%◌, ◌^◌, Bool, true, false, ◌&&◌, not, List, [], ◌∷◌, Option,
  none, some, ◌==◌, ltb, leb, if◌then◌else◌, get_or, set, length, ◌++◌, replicate, take,
}
use ikan_osv5_student.Disk.{block_size}

abbrev pub byte_at : List ℕ → ℕ → ℕ
byte_at bytes pos = get_or bytes pos 0

-- The fields of a `struct directoryEntry` at a position.
unfoldable pub entry_inode : List ℕ → ℕ → ℕ
entry_inode dir pos =
    byte_at dir pos
    + byte_at dir (pos + 1) * 2 ^ 8
    + byte_at dir (pos + 2) * 2 ^ 16
    + byte_at dir (pos + 3) * 2 ^ 24

unfoldable pub rec_length : List ℕ → ℕ → ℕ
rec_length dir pos = byte_at dir (pos + 4) + byte_at dir (pos + 5) * 2 ^ 8

abbrev pub name_length : List ℕ → ℕ → ℕ
name_length dir pos = byte_at dir (pos + 6)

abbrev pub file_type : List ℕ → ℕ → ℕ
file_type dir pos = byte_at dir (pos + 7)

-- The loop that sets `match`: the bytes from a position on against the name.
unfoldable pub starts_with : List ℕ → ℕ → List ℕ → Bool
starts_with dir pos [] = true
starts_with dir pos (c ∷ rest) =
    if byte_at dir pos == c then starts_with dir (suc pos) rest else false

-- The condition under which `returnInodeofFileName` and `fsFindFile` stop at an entry.
unfoldable pub is_named : List ℕ → List ℕ → ℕ → Bool
is_named dir name pos =
    not (entry_inode dir pos == 0)
    && (name_length dir pos == length name && starts_with dir (pos + 8) name)

module _ (stops_at : ℕ → Bool) (dir : List ℕ) where
  -- The loop `while (pos < BLOCK_SIZE)`, on the rounds left: the first entry of the chain at which
  -- the test holds. An entry of length 0 ends the chain, every other one is a step ahead, so that
  -- BLOCK_SIZE rounds are enough (`Lookup.walk-enough`).
  unfoldable pub walk : ℕ → ℕ → Option ℕ
  walk zero pos = none
  walk (suc rounds) pos =
      let rest = walk rounds (pos + rec_length dir pos) in
      if leb block_size pos
      then none
      else if rec_length dir pos == 0
      then none
      else if stops_at pos
      then some pos
      else rest

-- `returnInodeofFileName` from the loaded directory on; 0 where there is no such name.
unfoldable pub inode_of_name : List ℕ → List ℕ → ℕ
inode_of_name dir name = elim (walk (is_named dir name) dir block_size 0) [
  | none ↦ 0
  | some pos ↦ entry_inode dir pos
]

-- The bytes of a name, from a position on.
unfoldable pub read_bytes : ℕ → List ℕ → ℕ → List ℕ
read_bytes zero dir pos = []
read_bytes (suc n) dir pos = byte_at dir pos ∷ read_bytes n dir (suc pos)

-- `getFilenameFromInode` from the loaded directory on; `none` is `return false`.
unfoldable pub name_of_inode : List ℕ → ℕ → Option (List ℕ)
name_of_inode dir inode = elim (walk (λ pos. entry_inode dir pos == inode) dir block_size 0) [
  | none ↦ none
  | some pos ↦ some (read_bytes (name_length dir pos) dir (pos + 8))
]

-- `fillMemory` with zeros.
unfoldable pub zero_bytes : ℕ → ℕ → List ℕ → List ℕ
zero_bytes zero pos dir = dir
zero_bytes (suc n) pos dir = zero_bytes n (suc pos) (set dir pos 0)

unfoldable pub set_rec_length : ℕ → ℕ → List ℕ → List ℕ
set_rec_length value pos dir =
    set (set dir (pos + 4) (value % 2 ^ 8)) (pos + 5) (value / 2 ^ 8 % 2 ^ 8)

-- The change that `deleteDirectoryEntry` makes at the entry found: the last entry in use before it
-- takes over its bytes.
unfoldable pub unlink : Option ℕ → ℕ → List ℕ → List ℕ
unlink prev pos dir =
    let rec = rec_length dir pos in
    zero_bytes rec pos
      (elim prev [ none ↦ dir | some p ↦ set_rec_length (rec_length dir p + rec) p dir ])

-- The loop of `deleteDirectoryEntry`, on the rounds left; `none` where it changes nothing.
unfoldable pub remove_entry : ℕ → ℕ → Option ℕ → ℕ → List ℕ → Option (List ℕ)
remove_entry inode zero prev pos dir = none
remove_entry inode (suc rounds) prev pos dir =
    let used = not (entry_inode dir pos == 0) in
    let rest =
      remove_entry inode rounds (if used then some pos else prev) (pos + rec_length dir pos) dir in
    if leb block_size pos
    then none
    else if rec_length dir pos == 0
    then none
    else if entry_inode dir pos == inode
    then some (unlink prev pos dir)
    else rest

-- The loop of `createFile` that finds the last entry in use, on the rounds left.
unfoldable pub last_used : ℕ → Option ℕ → ℕ → List ℕ → Option ℕ
last_used zero last pos dir = last
last_used (suc rounds) last pos dir =
    let used = not (entry_inode dir pos == 0) in
    let rest = last_used rounds (if used then some pos else last) (pos + rec_length dir pos) dir in
    if leb block_size pos then last else if rec_length dir pos == 0 then last else rest

-- `((name_len + 8 + 3) / 4) * 4`
abbrev pub padded_length : ℕ → ℕ
padded_length name_len = (name_len + 8 + 3) / 4 * 4

unfoldable pub put_bytes : ℕ → List ℕ → List ℕ → List ℕ
put_bytes pos [] dir = dir
put_bytes pos (b ∷ rest) dir = put_bytes (suc pos) rest (set dir pos b)

-- The bytes of an entry as `createFile` fills them in, zeros behind the name included: its length is
-- what the last entry leaves over.
unfoldable pub new_entry : ℕ → ℕ → List ℕ → List ℕ
new_entry inode rec name =
    (inode % 2 ^ 8)
    ∷ (inode / 2 ^ 8 % 2 ^ 8)
    ∷ (inode / 2 ^ 16 % 2 ^ 8)
    ∷ (inode / 2 ^ 24 % 2 ^ 8)
    ∷ (rec % 2 ^ 8)
    ∷ (rec / 2 ^ 8 % 2 ^ 8)
    ∷ length name
    ∷ 1
    ∷ (name ++ replicate (padded_length (length name) - 8 - length name) 0)

-- What `createFile` does to the directory, with the number that `allocateInode` gives it; `none`
-- where it returns early. The name's length is cut to a byte.
unfoldable pub add_entry : List ℕ → ℕ → List ℕ → Option (List ℕ)
add_entry file_name inode dir = elim (last_used block_size none 0 dir) [
  | none ↦ none
  | some last_pos ↦
      let old_rec = rec_length dir last_pos in
      let min_old = padded_length (name_length dir last_pos) in
      let name = take (length file_name % 2 ^ 8) file_name in
      if ltb old_rec (min_old + padded_length (length name))
      then none
      else some (
          put_bytes (last_pos + min_old) (new_entry inode (old_rec - min_old) name)
            (set_rec_length min_old last_pos dir))
]
