-- ===== src/Tests/Directories.antt =====
-- A directory of three entries, and what fs.cpp finds and removes in it.
use ikan_osv5_student.Prelude.{
  ℕ, ◌+◌, ◌≡◌, ◌≢◌, ◌⊎◌, inl, inr, true, false, List, [], ◌∷◌, ◌==◌, some, none, refl, arith,
  replicate, if◌then◌else◌,
}
use ikan_osv5_student.Disk.{block_size}
use ikan_osv5_student.Ext2.Volume.{BlockGroup}
use ikan_osv5_student.Ext2.Directory.{
  rec_length, entry_inode, name_length, unlink, remove_entry, read_bytes, is_named, inode_of_name,
  walk, starts_with, add_entry, put_bytes, new_entry, last_used, set_rec_length,
}
use ikan_osv5_student.Ext2.Directory.Lookup.{Chain, inode_of_name_lem}
use ikan_osv5_student.Ext2.Directory.Remove.Chains.{Chain-start, Chain-split}
use ikan_osv5_student.Ext2.Directory.Remove.Entries.{IsDirectory}
use ikan_osv5_student.Ext2.Directory.Remove.Lookups.{inode_of_name-remove_entry}

-- Entries for `.`, `a` and `b`, the last of which takes the rest of the block.
abbrev home : List ℕ
home =
    2
    ∷ 0
    ∷ 0
    ∷ 0
    ∷ 12
    ∷ 0
    ∷ 1
    ∷ 2
    ∷ 46
    ∷ 0
    ∷ 0
    ∷ 0
    ∷ 11
    ∷ 0
    ∷ 0
    ∷ 0
    ∷ 12
    ∷ 0
    ∷ 1
    ∷ 1
    ∷ 97
    ∷ 0
    ∷ 0
    ∷ 0
    ∷ 12
    ∷ 0
    ∷ 0
    ∷ 0
    ∷ 232
    ∷ 7
    ∷ 1
    ∷ 1
    ∷ 98
    ∷ replicate 2100 0

positions : (pos : ℕ) → Chain home pos 0 → (pos ≡ 0) ⊎ ((pos ≡ 12) ⊎ (pos ≡ 24))
unfolding rec_length
positions pos c = elim (Chain-split home pos 0 c) [
  | inl e ↦ inl e
  | inr c1 ↦ elim (Chain-split home pos 12 c1) [
    | inl e ↦ inr (inl e)
    | inr c2 ↦ elim (Chain-split home pos 24 c2) [
      | inl e ↦ inr (inr e)
      | inr c3 ↦ absurd (omega (arith, (Chain-start home pos 2048 c3).0))
    ]
  ]
]

inode_at :
    (pos : ℕ)
    → Chain home pos 0
    → entry_inode home pos ≡ (if pos == 0 then 2 else if pos == 12 then 11 else 12)
unfolding entry_inode
inode_at pos c = elim (positions pos c) [
  | inl e ↦ rw e refl
  | inr (inl e) ↦ rw e refl
  | inr (inr e) ↦ rw e refl
]

name_at :
    (pos : ℕ)
    → Chain home pos 0
    → read_bytes (name_length home pos) home (pos + 8)
      ≡ (if pos == 0 then 46 else if pos == 12 then 97 else 98) ∷ []
unfolding read_bytes
name_at pos c = elim (positions pos c) [
  | inl e ↦ rw e refl
  | inr (inl e) ↦ rw e refl
  | inr (inr e) ↦ rw e refl
]

home-IsDirectory : IsDirectory home
unfolding rec_length entry_inode read_bytes
home-IsDirectory = record {
  long = omega arith;
  used = λ pos c. elim (positions pos c) [
    | inl e ↦ rw e (omega arith)
    | inr (inl e) ↦ rw e (omega arith)
    | inr (inr e) ↦ rw e (omega arith)
  ];
  roomy = λ pos c. elim (positions pos c) [
    | inl e ↦ rw e (omega arith)
    | inr (inl e) ↦ rw e (omega arith)
    | inr (inr e) ↦ rw e (omega arith)
  ];
  fits = λ pos c. elim (positions pos c) [
    | inl e ↦ rw e (omega arith)
    | inr (inl e) ↦ rw e (omega arith)
    | inr (inr e) ↦ rw e (omega arith)
  ];
  one_inode = λ p q c c' z. elim (positions p c) [
    | inl e ↦ ground (arith, inode_at p c, inode_at q c', positions q c')
    | inr e ↦ ground (arith, inode_at p c, inode_at q c', positions q c')
  ];
  one_name = λ p q c c' z. elim (positions p c) [
    | inl e ↦ ground (arith, name_at p c, name_at q c', positions q c')
    | inr e ↦ ground (arith, name_at p c, name_at q c', positions q c')
  ];
}

inode_of_name_lem_example :
    let inode = inode_of_name home (97 ∷ []) in
    ((inode ≢ 0)
      × ((pos : ℕ) × Chain home pos 0
          × (is_named home (97 ∷ []) pos ≡ true)
          × (entry_inode home pos ≡ inode)))
    ⊎ ((inode ≡ 0) × ((pos : ℕ) → Chain home pos 0 → is_named home (97 ∷ []) pos ≡ false))
inode_of_name_lem_example = inode_of_name_lem home (97 ∷ [])

inode_of_name-home : inode_of_name home (97 ∷ []) ≡ 11
unfolding inode_of_name walk is_named entry_inode rec_length starts_with
inode_of_name-home = refl

first-home : entry_inode home 0 ≡ 2
unfolding entry_inode
first-home = refl

remove_entry-home : remove_entry 11 block_size none 0 home ≡ some (unlink (some 0) 12 home)
unfolding remove_entry entry_inode rec_length
remove_entry-home = refl

inode_of_name-remove_entry_example :
    inode_of_name (unlink (some 0) 12 home) (98 ∷ [])
    ≡ (if inode_of_name home (98 ∷ []) == 11 then 0 else inode_of_name home (98 ∷ []))
inode_of_name-remove_entry_example =
    inode_of_name-remove_entry home home-IsDirectory 11 block_size (unlink (some 0) 12 home)
      (98 ∷ []) (omega (arith, first-home)) remove_entry-home

length-home : rec_length home 0 ≡ 12
unfolding rec_length
length-home = refl

abbrev home_group : BlockGroup
home_group = record { block_usage = 3; inode_usage = 4; inode_table = 5 }

added :
    add_entry (99 ∷ []) 13 home
    ≡ some (put_bytes 36 (new_entry 13 2012 (99 ∷ [])) (set_rec_length 12 24 home))
unfolding add_entry last_used entry_inode rec_length
added = refl

-- The last entry keeps twelve bytes, and the new one, which takes the rest, is found.
found_again :
    inode_of_name (put_bytes 36 (new_entry 13 2012 (99 ∷ [])) (set_rec_length 12 24 home)) (99 ∷ [])
    ≡ 13
unfolding put_bytes new_entry set_rec_length inode_of_name walk is_named entry_inode rec_length
    starts_with
found_again = refl
