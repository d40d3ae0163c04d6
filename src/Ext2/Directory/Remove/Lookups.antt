-- ===== src/Ext2/Directory/Remove/Lookups.antt =====
-- Lookups in a directory after `deleteDirectoryEntry` (fs.cpp).
use ikan_osv5_student.Prelude.{
  ℕ, zero, suc, ◌+◌, ◌≤◌, ◌≡◌, ◌≢◌, ◌∙◌, inl, inr, true, List, arith, refl, sym, ap, some, none,
  ◌==◌, leb, if◌then◌else◌, Bool-cases, ℕ_discrete,
}
use ikan_osv5_student.Disk.{block_size}
use ikan_osv5_student.Ext2.Directory.{
  rec_length, entry_inode, unlink, remove_entry, is_named, inode_of_name,
}
use ikan_osv5_student.Ext2.Directory.Lookup.{
  Chain, here, is_named_parts, starts_with-read_bytes, inode_of_name_lem,
}
use ikan_osv5_student.Ext2.Directory.Remove.Chains.{Chain-start, Chain-extend}
use ikan_osv5_student.Ext2.Directory.Remove.{byte_at-unlink_first, length-bytes}
use ikan_osv5_student.Ext2.Directory.Remove.Entries.{
  IsDirectory, down, up, inode-same, is_named-same,
}

module _ (dir : List ℕ) (good : IsDirectory dir) (inode : ℕ) where
  -- The entry removed and the one before it.
  remove_entry-some :
      (rounds p pos : ℕ) (dir' : List ℕ)
      → remove_entry inode rounds (some p) pos dir ≡ some dir'
      → Chain dir p 0
      → p + rec_length dir p ≡ pos
      → (p' : ℕ) × (pos' : ℕ) × Chain dir p' 0
        × Chain dir pos' 0
        × (p' + rec_length dir p' ≡ pos')
        × (entry_inode dir pos' ≡ inode)
        × (dir' ≡ unlink (some p') pos' dir)
  unfolding remove_entry
  remove_entry-some zero p pos dir' h c e = absurd (ground arith)
  remove_entry-some (suc rounds) p pos dir' h c e = elim (Bool-cases (leb block_size pos)) [
    | inl out ↦ absurd (ground arith)
    | inr inside ↦ elim (Bool-cases (rec_length dir pos == 0)) [
      | inl ends ↦ absurd (ground arith)
      | inr goes ↦
          let at_pos : Chain dir pos 0 =
            Chain-extend dir p pos 0 c (rw e (here (ground arith) (ground arith))) in
          elim (Bool-cases (entry_inode dir pos == inode)) [
            | inl found ↦ (p, pos, c, at_pos, e, ground arith, ground arith)
            | inr other ↦
                let used = good.used pos at_pos in
                remove_entry-some rounds pos (pos + rec_length dir pos) dir' (ground arith) at_pos
                  refl
          ]
    ]
  ]

  same_name :
      (p q : ℕ) (name : List ℕ)
      → Chain dir p 0
      → Chain dir q 0
      → is_named dir name p ≡ true
      → is_named dir name q ≡ true
      → p ≡ q
  same_name p q name cp cq np nq =
      let (x, len, text) = is_named_parts dir name p np in
      let (x', len', text') = is_named_parts dir name q nq in
      good.one_name p q cp cq (
        rw
          (
            len,
            len',
            starts_with-read_bytes dir (p + 8) name text,
            starts_with-read_bytes dir (q + 8) name text',
          )
          refl)

  -- The number that a lookup returns is that of the entry with the name.
  inode_of_name-eq :
      (q : ℕ) (name : List ℕ)
      → Chain dir q 0
      → is_named dir name q ≡ true
      → inode_of_name dir name ≡ entry_inode dir q
  inode_of_name-eq q name c named = elim (inode_of_name_lem dir name) [
    | inl (nz, (q', c', named', e)) ↦
        sym e ∙ ap (entry_inode dir) (same_name q' q name c' c named' named)
    | inr (z, none_named) ↦ absurd (ground (arith, none_named q c))
  ]

  remove_entry_first :
      (rounds : ℕ) (dir' : List ℕ)
      → entry_inode dir 0 ≢ inode
      → remove_entry inode rounds none 0 dir ≡ some dir'
      → (p : ℕ) × (pos : ℕ) × Chain dir p 0
        × Chain dir pos 0
        × (p + rec_length dir p ≡ pos)
        × (entry_inode dir pos ≡ inode)
        × (dir' ≡ unlink (some p) pos dir)
  unfolding remove_entry
  remove_entry_first zero dir' first h = absurd (ground arith)
  remove_entry_first (suc rounds) dir' first h = elim (Bool-cases (rec_length dir 0 == 0)) [
    | inl ends ↦ absurd (ground arith)
    | inr goes ↦
        let at_0 : Chain dir 0 0 = here (omega arith) (ground arith) in
        let used = good.used 0 at_0 in
        remove_entry-some rounds 0 (0 + rec_length dir 0) dir' (ground arith) at_0 refl
  ]

  module _ (p pos : ℕ) (at_p : Chain dir p 0) (at_pos : Chain dir pos 0)
      (e : p + rec_length dir p ≡ pos) where
    inode_of_name-unlink :
        (name : List ℕ)
        → inode_of_name (unlink (some p) pos dir) name
          ≡ (if inode_of_name dir name == entry_inode dir pos then 0 else inode_of_name dir name)
    inode_of_name-unlink name =
        let (l, r, x) = Chain-start dir p 0 at_p in
        let at_0 : Chain dir 0 0 = here l r in
        elim (inode_of_name_lem (unlink (some p) pos dir) name) [
          | inl (nz, (q, c', named', e')) ↦
              let (c, ne) = down dir good p pos at_p at_pos e q 0 at_0 at_p c' in
              let named = sym (is_named-same dir good p pos at_p at_pos e q name c ne) ∙ named' in
              let same = inode-same dir good p pos at_p at_pos e q c ne in
              let found = inode_of_name-eq q name c named in
              let apart : entry_inode dir q ≢ entry_inode dir pos =
                λ z. ne (good.one_inode q pos c at_pos z) in
              ground arith
          | inr (z, none_named) ↦ elim (inode_of_name_lem dir name) [
            | inr (z2, x) ↦ ground arith
            | inl (nz, (q, c, named, e')) ↦ elim (ℕ_discrete q pos) [
              | yes same ↦
                  let there : entry_inode dir q ≡ entry_inode dir pos = ap (entry_inode dir) same in
                  ground arith
              | no ne ↦
                  let c' = up dir good p pos at_p at_pos e q 0 at_0 at_p c ne in
                  absurd (
                    ground (
                      arith,
                      none_named q c',
                      is_named-same dir good p pos at_p at_pos e q name c ne,
                    ))
            ]
          ]
        ]

  -- In a well-formed directory whose first entry does not hold the inode, removing an inode's entry
  -- changes lookups in this way only: a name that led to the inode is no longer found.
  pub inode_of_name-remove_entry :
      (rounds : ℕ) (dir' name : List ℕ)
      → entry_inode dir 0 ≢ inode
      → remove_entry inode rounds none 0 dir ≡ some dir'
      → inode_of_name dir' name
        ≡ (if inode_of_name dir name == inode then 0 else inode_of_name dir name)
  inode_of_name-remove_entry rounds dir' name first h =
      let (p, pos, at_p, at_pos, e, same, r) = remove_entry_first rounds dir' first h in
      let lookup = inode_of_name-unlink p pos at_p at_pos e name in rw r (rw (sym same) lookup)

-- Removing the first entry of a directory empties it: afterwards no name is found, whatever entries
-- followed.
remove_entry_first_empties :
    (dir name : List ℕ) (rounds : ℕ)
    → 6 ≤ rec_length dir 0
    → let dir' = unlink none 0 dir in
      (remove_entry (entry_inode dir 0) (suc rounds) none 0 dir ≡ some dir')
      × (inode_of_name dir' name ≡ 0)
unfolding remove_entry
remove_entry_first_empties dir name rounds room =
    let byte4 = byte_at-unlink_first dir 0 4 (omega arith) (omega arith) in
    let byte5 = byte_at-unlink_first dir 0 5 (omega arith) (omega arith) in
    let ends : rec_length (unlink none 0 dir) 0 ≡ 0 =
      omega (arith, length-bytes (unlink none 0 dir) 0) in
    (
      ground arith,
      elim (inode_of_name_lem (unlink none 0 dir) name) [
        | inr (z, x) ↦ z
        | inl (nz, (q, c, named, e)) ↦ absurd ((Chain-start (unlink none 0 dir) q 0 c).1 ends)
      ],
    )
