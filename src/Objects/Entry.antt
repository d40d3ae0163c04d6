-- ===== src/Objects/Entry.antt =====
-- The entry that `insertGlobalObjectTableEntry` (file.cpp) makes.
use ikan_osv5_student.Prelude.{◌≡◌, refl}
use ikan_osv5_student.Kernel.{ObjectEntry}
use ikan_osv5_student.Objects.{ObjectRequest, fill_object}

-- The entry `new` that was asked for, made of the entry `old`.
pub record IsEntryOf (r : ObjectRequest) (old new : ObjectEntry) : Type 0 where
  pub opened_by_pid : new.opened_by_pid ≡ r.opened_by_pid
  pub inode : new.inode ≡ r.inode
  pub kind : new.kind ≡ r.kind
  pub source_ip_address : new.source_ip_address ≡ r.source_ip_address
  pub destination_ip_address : new.destination_ip_address ≡ r.destination_ip_address
  pub source_port : new.source_port ≡ r.source_port
  pub destination_port : new.destination_port ≡ r.destination_port
  pub size : new.size ≡ r.size
  pub userspace_buffer : new.userspace_buffer ≡ r.userspace_buffer
  pub number_of_pages_for_buffer : new.number_of_pages_for_buffer ≡ r.number_of_pages_for_buffer
  pub kernel_space_buffer : new.kernel_space_buffer ≡ r.kernel_space_buffer
  pub name : new.name ≡ r.name
  pub read_offset : new.read_offset ≡ r.read_offset
  pub write_offset : new.write_offset ≡ r.write_offset
  pub locked_for_writing : new.locked_for_writing ≡ r.locked_for_writing
  pub packets_transmitted : new.packets_transmitted ≡ old.packets_transmitted
  pub packets_received : new.packets_received ≡ old.packets_received
  pub reference_count : new.reference_count ≡ old.reference_count

pub fill_object-IsEntryOf :
    (r : ObjectRequest) (old : ObjectEntry) → IsEntryOf r old (fill_object old r)
unfolding fill_object
fill_object-IsEntryOf r old = record {
  opened_by_pid = refl;
  inode = refl;
  kind = refl;
  source_ip_address = refl;
  destination_ip_address = refl;
  source_port = refl;
  destination_port = refl;
  size = refl;
  userspace_buffer = refl;
  number_of_pages_for_buffer = refl;
  kernel_space_buffer = refl;
  name = refl;
  read_offset = refl;
  write_offset = refl;
  locked_for_writing = refl;
  packets_transmitted = refl;
  packets_received = refl;
  reference_count = refl;
}
