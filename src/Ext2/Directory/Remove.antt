-- ===== src/Ext2/Directory/Remove.antt =====
-- The bytes and the chain of a directory after `deleteDirectoryEntry` (fs.cpp).
pub mod Chains
pub mod Entries
pub mod Lookups
use ikan_osv5_student.Prelude.{
  ℕ, zero, suc, ◌+◌, ◌-◌, ◌*◌, ◌/◌, ◌%◌, ◌^◌, ◌<◌, ◌≤◌, ◌≡◌, ◌≢◌, ◌⊎◌, ◌∙◌, inl, inr, Bool, true,
  false, ◌&&◌, not, List, [], ◌∷◌, Option, none, some, ◌==◌, ltb, leb, if◌then◌else◌, arith, refl,
  sym, ap, Bool-cases, length, length-set, get_or, set, get_or-set_self, get_or-set_ne, ℕ_discrete,
}
use ikan_osv5_student.Disk.{block_size}
use ikan_osv5_student.Ext2.Directory.{
  byte_at, rec_length, entry_inode, zero_bytes, set_rec_length, unlink, remove_entry,
}

byte_at-set :
    (dir : List ℕ) (pos v i : ℕ)
    → pos < length dir
    → byte_at (set dir pos v) i ≡ (if pos == i then v else byte_at dir i)
byte_at-set dir pos v i l = elim (ℕ_discrete pos i) [
  | yes same ↦ ground (arith, get_or-set_self dir pos v 0 l)
  | no other ↦ ground (arith, get_or-set_ne dir pos i v 0 other)
]

byte_at-set_zero :
    (dir : List ℕ) (pos i : ℕ) → byte_at (set dir pos 0) i ≡ (if pos == i then 0 else byte_at dir i)
byte_at-set_zero [] pos i = ground arith
byte_at-set_zero (x ∷ dir) zero zero = refl
byte_at-set_zero (x ∷ dir) zero (suc i) = ground arith
byte_at-set_zero (x ∷ dir) (suc pos) zero = ground arith
byte_at-set_zero (x ∷ dir) (suc pos) (suc i) = ground (arith, byte_at-set_zero dir pos i)

byte_at-zero_bytes :
    (n pos i : ℕ) (dir : List ℕ)
    → byte_at (zero_bytes n pos dir) i ≡ (if leb pos i && ltb i (pos + n) then 0 else byte_at dir i)
unfolding zero_bytes
byte_at-zero_bytes zero pos i dir = ground arith
byte_at-zero_bytes (suc n) pos i dir =
    ground (arith, byte_at-zero_bytes n (suc pos) i (set dir pos 0), byte_at-set_zero dir pos i)

-- The bytes after an entry at `pos` was unlinked from the entry before it, at `p`.
pub byte_at-unlink :
    (dir : List ℕ) (p pos i : ℕ)
    → p + 5 < length dir
    → let rec = rec_length dir pos in
      let total = rec_length dir p + rec in
      byte_at (unlink (some p) pos dir) i ≡ (
        if leb pos i && ltb i (pos + rec)
        then 0
        else if p + 5 == i
        then total / 2 ^ 8 % 2 ^ 8
        else if p + 4 == i
        then total % 2 ^ 8
        else byte_at dir i)
unfolding unlink set_rec_length
byte_at-unlink dir p pos i l =
    let rec : ℕ = rec_length dir pos in
    let total : ℕ = rec_length dir p + rec in
    rw
      (
        byte_at-zero_bytes rec pos i
            (set (set dir (p + 4) (total % 2 ^ 8)) (p + 5) (total / 2 ^ 8 % 2 ^ 8)),
        byte_at-set (set dir (p + 4) (total % 2 ^ 8)) (p + 5) (total / 2 ^ 8 % 2 ^ 8) i
            (omega (arith, length-set dir (p + 4) (total % 2 ^ 8))),
        byte_at-set dir (p + 4) (total % 2 ^ 8) i (omega arith),
      )
      refl

-- Without an entry in use before it, the entry's bytes are zeroed.
pub byte_at-unlink_first :
    (dir : List ℕ) (pos i : ℕ)
    → pos ≤ i
    → i < pos + rec_length dir pos
    → byte_at (unlink none pos dir) i ≡ 0
unfolding unlink
byte_at-unlink_first dir pos i a b =
    ground (arith, byte_at-zero_bytes (rec_length dir pos) pos i dir)

pub length-bytes :
    (dir : List ℕ) (pos : ℕ)
    → rec_length dir pos ≡ byte_at dir (pos + 4) + byte_at dir (pos + 5) * 2 ^ 8
unfolding rec_length
length-bytes dir pos = refl
