-- ===== src/Objects.antt =====
-- The global object table of ikanOSv5-1-Bootloader-Base/file.cpp. The functions take the table's
-- address as an argument and are always given GLOBAL_OBJECT_TABLE.
pub mod Entry
pub mod Table
pub mod FileLocks
use ikan_osv5_student.Prelude.{
  ℕ, zero, suc, ◌+◌, ◌-◌, ◌*◌, ◌%◌, ◌^◌, Bool, true, false, not, ◌&&◌, ◌||◌, List, [], ◌∷◌, ◌++◌,
  map, Option, none, some, ◌==◌, if◌then◌else◌, get_or, set, drop, length,
}
use ikan_osv5_student.Kernel.{
  Kernel, ObjectEntry, M, done, panicked, spinning, ◌>>=◌, ◌>>◌, pure, get, put, panic, take_lock,
  drop_lock, global_object_table, max_system_open_files,
}
use ikan_osv5_student.Kernel.Slots.{first_free}
use ikan_osv5_student.Semaphore.{kernel_owned}

abbrev pub no_object : ObjectEntry
no_object = record {
  opened_by_pid = 0;
  inode = 0;
  kind = 0;
  source_ip_address = 0;
  destination_ip_address = 0;
  source_port = 0;
  destination_port = 0;
  size = 0;
  userspace_buffer = 0;
  number_of_pages_for_buffer = 0;
  kernel_space_buffer = 0;
  name = none;
  read_offset = 0;
  write_offset = 0;
  locked_for_writing = 0;
  packets_transmitted = 0;
  packets_received = 0;
  reference_count = 0;
}

abbrev pub is_unopened : ObjectEntry → Bool
is_unopened o = o.opened_by_pid == 0

-- The arguments of `insertGlobalObjectTableEntry`.
pub record ObjectRequest : Type 0 where
  pub opened_by_pid : ℕ
  pub inode : ℕ
  pub kind : ℕ
  pub source_ip_address : ℕ
  pub destination_ip_address : ℕ
  pub source_port : ℕ
  pub destination_port : ℕ
  pub size : ℕ
  pub userspace_buffer : ℕ
  pub number_of_pages_for_buffer : ℕ
  pub kernel_space_buffer : ℕ
  pub name : Option (List ℕ)
  pub read_offset : ℕ
  pub write_offset : ℕ
  pub locked_for_writing : ℕ

-- The fields that are written; the three counters keep their old values.
unfoldable pub fill_object : ObjectEntry → ObjectRequest → ObjectEntry
fill_object old r = record old {
  opened_by_pid = r.opened_by_pid;
  inode = r.inode;
  kind = r.kind;
  source_ip_address = r.source_ip_address;
  destination_ip_address = r.destination_ip_address;
  source_port = r.source_port;
  destination_port = r.destination_port;
  size = r.size;
  userspace_buffer = r.userspace_buffer;
  number_of_pages_for_buffer = r.number_of_pages_for_buffer;
  kernel_space_buffer = r.kernel_space_buffer;
  name = r.name;
  read_offset = r.read_offset;
  write_offset = r.write_offset;
  locked_for_writing = r.locked_for_writing;
}

-- The result is the index of the entry that the returned pointer points to.
unfoldable pub insert_global_object_table_entry : ObjectRequest → M ℕ
insert_global_object_table_entry r = do
  take_lock global_object_table
  k ← get
  elim (first_free is_unopened (max_system_open_files - 1) 0 k.objects) [
    | none ↦ do drop_lock global_object_table; panic
    | some i ↦ do
      put (record k { objects = set k.objects i (fill_object (get_or k.objects i no_object) r) })
      drop_lock global_object_table
      pure i
  ]

abbrev is_open : ObjectEntry → Bool
is_open o = not (o.opened_by_pid == 0) || not (o.inode == 0)

unfoldable pub total_open_files : List ObjectEntry → ℕ
total_open_files [] = 0
total_open_files (o ∷ rest) = (if is_open o then 1 else 0) + total_open_files rest

-- The loop of `closeAllFiles`.
unfoldable pub close_entries : ℕ → List ObjectEntry → List ObjectEntry
close_entries pid [] = []
close_entries pid (o ∷ rest) =
    (if o.opened_by_pid == pid then no_object else o) ∷ close_entries pid rest

unfoldable pub close_all_files : ℕ → M (Unit {0})
close_all_files pid = do
  take_lock global_object_table
  k ← get
  put (record k { objects = close_entries pid k.objects })
  drop_lock global_object_table

-- The scan that `fileAvailableToBeLocked` is, and that `lockFile` begins with.
unfoldable pub file_available_to_be_locked : ℕ → List ObjectEntry → Bool
file_available_to_be_locked inode [] = true
file_available_to_be_locked inode (o ∷ rest) =
    let later = file_available_to_be_locked inode rest in
    if o.inode == inode && not (o.locked_for_writing == 0) then false else later

-- The second scan of `lockFile`: the first entry of the file and the process is marked.
unfoldable pub mark_entry : ℕ → ℕ → List ObjectEntry → Bool × List ObjectEntry
mark_entry pid inode [] = (false, [])
mark_entry pid inode (o ∷ rest) =
    let later = mark_entry pid inode rest in
    if o.inode == inode && o.opened_by_pid == pid
    then (true, record o { locked_for_writing = pid } ∷ rest)
    else (later.0, o ∷ later.1)

unfoldable pub lock_file : ℕ → ℕ → M Bool
lock_file pid inode = do
  take_lock global_object_table
  k ← get
  if file_available_to_be_locked inode k.objects
      then (do
        put (record k { objects = (mark_entry pid inode k.objects).1 })
        drop_lock global_object_table
        pure (mark_entry pid inode k.objects).0)
      else (do drop_lock global_object_table; pure false)

abbrev gote_type_buffer : ℕ
gote_type_buffer = 0xFFFFFFFF

abbrev page_size : ℕ
page_size = 0x1000

-- One of the kernel's own three entries, over what the entry held.
abbrev standard_entry : ObjectEntry → List ℕ → ℕ → ℕ → ObjectEntry
standard_entry old name buffer size = record old {
  opened_by_pid = kernel_owned;
  userspace_buffer = buffer;
  name = some name;
  kind = gote_type_buffer;
  size = size;
}

-- The three entries. The words copied to STDERR_BUFFER are those of `message`, whose characters
-- and final zero fill whole words.
unfoldable pub create_open_file_table : List ℕ → M (Unit {0})
create_open_file_table message = do
  take_lock global_object_table
  k ← get
  let objects = set k.objects 0 (
      standard_entry (get_or k.objects 0 no_object) (b'S' ∷ b'T' ∷ b'D' ∷ b'I' ∷ b'N' ∷ []) 0x1000
        page_size)
  let objects' = set objects 1 (
      standard_entry (get_or objects 1 no_object) (b'S' ∷ b'T' ∷ b'D' ∷ b'O' ∷ b'U' ∷ b'T' ∷ [])
        0xb8000 (page_size * 2))
  put (record k {
    objects = set objects' 2 (
        standard_entry (get_or objects' 2 no_object) (b'S' ∷ b'T' ∷ b'D' ∷ b'E' ∷ b'R' ∷ b'R' ∷ [])
          0x3000 page_size);
    stderr_buffer = message ++ 0 ∷ drop (length message + 1) k.stderr_buffer;
  })
  drop_lock global_object_table
