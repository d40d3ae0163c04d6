-- ===== src/Ext2/Files.antt =====
-- The functions of fs.cpp that find and remove files by name: they load an inode and its directory,
-- and walk over the entries (Ext2/Directory).
pub mod Paths
use ikan_osv5_student.Prelude.{
  ℕ, zero, suc, ◌+◌, ◌-◌, ◌*◌, ◌/◌, ◌%◌, ◌^◌, Bool, List, [], ◌∷◌, ◌++◌, Option, none, some, ◌==◌,
  leb, if◌then◌else◌, set, take, drop, length,
}
use ikan_osv5_student.Disk.{Device, Disk, read_block, write_block, block_size}
use ikan_osv5_student.Ext2.Volume.{BlockGroup}
use ikan_osv5_student.Ext2.Directory.{byte_at, inode_of_name, name_of_inode, remove_entry}

-- `INODE_SIZE`
abbrev pub inode_size : ℕ
inode_size = 0x80

-- `BLOCK_SIZE / INODE_SIZE`
abbrev pub inodes_per_block : ℕ
inodes_per_block = 16

-- `MAX_FILES_PER_DIRECTORY / INODES_PER_BLOCK`
abbrev pub inode_blocks : ℕ
inode_blocks = 4

-- `ROOTDIR_INODE`
abbrev pub rootdir_inode : ℕ
rootdir_inode = 2

-- `inodeNumber - 1`
abbrev pub inode_index : ℕ → ℕ
inode_index inode_number = (inode_number + 2 ^ 32 - 1) % 2 ^ 32

-- `i_mode` and `i_block[0]` of an inode's bytes.
abbrev pub i_mode : List ℕ → ℕ
i_mode inode = byte_at inode 0 + byte_at inode 1 * 2 ^ 8

abbrev pub first_block : List ℕ → ℕ
first_block inode =
    byte_at inode 40
    + byte_at inode 41 * 2 ^ 8
    + byte_at inode 42 * 2 ^ 16
    + byte_at inode 43 * 2 ^ 24

-- `(i_mode & 0xF000) | (newMode & 0x0FFF)`
unfoldable pub changed_mode : ℕ → ℕ → ℕ
changed_mode old new_mode = old / 2 ^ 12 % 2 ^ 4 * 2 ^ 12 + new_mode % 2 ^ 12

-- The loop that takes the next component of a path: the name, and the path from the slash on.
unfoldable pub take_component : List ℕ → List ℕ × List ℕ
take_component [] = ([], [])
take_component (c ∷ rest) =
    let (name, path) = take_component rest in if c == b'/' then ([], c ∷ rest) else (c ∷ name, path)

-- `load_file inode` stands for `loadFileFromInodeStruct`, whose body the repository leaves to the
-- student: the bytes of the file that the inode describes, with zeros up to the buffer's end.
module _ (d : Device) (g : BlockGroup) (active : Bool)
    (load_file : List ℕ → Disk d → List ℕ × Disk d) where
  abbrev pub inode_block : ℕ → ℕ
  inode_block inode_number = (g.inode_table + inode_index inode_number / inodes_per_block) % 2 ^ 32

  abbrev pub inode_offset : ℕ → ℕ
  inode_offset inode_number = inode_index inode_number % inodes_per_block * inode_size

  unfoldable pub load_inode : ℕ → Disk d → List ℕ × Disk d
  load_inode inode_number k =
      let (bytes, k') = read_block d active (inode_block inode_number) k in
      (take inode_size (drop (inode_offset inode_number) bytes), k')

  -- The inode of a directory, its bytes, and the disk.
  unfoldable pub load_directory : ℕ → Disk d → List ℕ × List ℕ × Disk d
  load_directory directory_inode k =
      let (inode, k1) = load_inode directory_inode k in
      let (dir, k2) = load_file inode k1 in (inode, dir, k2)

  unfoldable pub return_inode_of_file_name : List ℕ → ℕ → Disk d → ℕ × Disk d
  return_inode_of_file_name file_name directory_inode k =
      let (inode, dir, k') = load_directory directory_inode k in (inode_of_name dir file_name, k')

  unfoldable pub get_filename_from_inode : ℕ → ℕ → Disk d → Option (List ℕ) × Disk d
  get_filename_from_inode inode_number directory_inode k =
      let (inode, dir, k') = load_directory directory_inode k in
      (name_of_inode dir inode_number, k')

  -- The loop that reads the blocks of inodes, on the blocks left.
  unfoldable pub read_inode_blocks : ℕ → ℕ → Disk d → List ℕ × Disk d
  read_inode_blocks zero block k = ([], k)
  read_inode_blocks (suc n) block k =
      let (bytes, k1) = read_block d active ((g.inode_table + block) % 2 ^ 32) k in
      let (rest, k2) = read_inode_blocks n (suc block) k1 in (bytes ++ rest, k2)

  -- The bytes copied to the destination, `none` where the file is not found. `memoryCopy` counts
  -- words of two bytes, so that twice the size of an inode is copied.
  unfoldable pub fs_find_file : List ℕ → ℕ → Disk d → Option (List ℕ) × Disk d
  fs_find_file file_name directory_inode k =
      let (inode, dir, k1) = load_directory directory_inode k in
      let found = inode_of_name dir file_name in
      let (bytes, k2) = read_inode_blocks inode_blocks 0 k1 in
      if found == 0
      then (none, k1)
      else (some (take (2 * inode_size) (drop ((found - 1) * inode_size) bytes)), k2)

  -- The first call only finds the inode; the directory is then loaded again.
  unfoldable pub delete_directory_entry : List ℕ → ℕ → Disk d → Disk d
  delete_directory_entry file_name directory_inode k =
      let (inode_to_remove, k1) = return_inode_of_file_name file_name directory_inode k in
      let (inode, dir, k2) = load_directory directory_inode k1 in
      if inode_to_remove == 0
      then k1
      else elim (remove_entry inode_to_remove block_size none 0 dir) [
        | none ↦ k2
        | some dir' ↦ write_block d active (first_block inode) (take block_size dir') k2
      ]

  unfoldable pub change_file_mode : List ℕ → ℕ → ℕ → Disk d → Disk d
  change_file_mode file_name new_mode directory_inode k =
      let (inode_number, k1) = return_inode_of_file_name file_name directory_inode k in
      let block = inode_block inode_number in
      let offset = inode_offset inode_number in
      let (bytes, k2) = read_block d active block k1 in
      let mode = changed_mode (i_mode (drop offset bytes)) new_mode in
      if inode_number == 0
      then k1
      else write_block d active block
          (set (set bytes offset (mode % 2 ^ 8)) (offset + 1) (mode / 2 ^ 8)) k2

  -- The loop of `getInodeFromPath`, on the rounds left: each takes a component or a slash off the
  -- path, so that as many rounds as the path has characters are enough.
  unfoldable pub follow_path : ℕ → ℕ → List ℕ → Disk d → ℕ × Disk d
  follow_path zero current_inode path k = (current_inode, k)
  follow_path (suc rounds) current_inode [] k = (current_inode, k)
  follow_path (suc rounds) current_inode (c ∷ rest) k =
      let skip = follow_path rounds current_inode rest k in
      let (name, path) = take_component (c ∷ rest) in
      let (next_inode, k1) = return_inode_of_file_name name current_inode k in
      let (inode, k2) = load_inode next_inode k1 in
      let last = follow_path rounds next_inode [] k1 in
      let further = follow_path rounds next_inode (drop 1 path) k2 in
      if c == b'/'
      then skip
      else if leb 256 (length name)
      then (0, k)
      else if next_inode == 0
      then (0, k1)
      else if length path == 0
      then last
      else if i_mode inode / 2 ^ 12 == 4
      then further
      else (0, k2)

  unfoldable pub get_inode_from_path : List ℕ → Disk d → ℕ × Disk d
  get_inode_from_path [] k = (0, k)
  get_inode_from_path (c ∷ path) k =
      let found = follow_path (length path) rootdir_inode path k in
      if c == b'/' then found else (0, k)
