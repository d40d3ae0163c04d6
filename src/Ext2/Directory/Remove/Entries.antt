-- ===== src/Ext2/Directory/Remove/Entries.antt =====
-- The entries that a directory has after `deleteDirectoryEntry` (fs.cpp).
use ikan_osv5_student.Prelude.{
  ℕ, suc, ◌+◌, ◌<◌, ◌≤◌, ◌≡◌, ◌≢◌, ◌⊎◌, ◌^◌, ◌/◌, ◌%◌, inl, inr, List, arith, refl, sym, length,
  some, ℕ_discrete, dec_lt, [], ◌∷◌,
}
use ikan_osv5_student.Disk.{block_size}
use ikan_osv5_student.Ext2.Directory.{
  byte_at, rec_length, entry_inode, name_length, unlink, read_bytes, starts_with, is_named,
}
use ikan_osv5_student.Ext2.Directory.Lookup.{Chain, here, next}
use ikan_osv5_student.Ext2.Directory.Remove.{byte_at-unlink, length-bytes}
use ikan_osv5_student.Ext2.Directory.Remove.Chains.{
  Chain-start, Chain-extend, Chain-split, Chain-apart, Chain-same,
}

-- Every entry of the chain is in use, has room for its eight bytes of fields and its name, and ends
-- in the block; no two entries have the same inode or the same name; the buffer goes on past the
-- block.
pub record IsDirectory (dir : List ℕ) : Type 0 where
  pub long : block_size + 8 ≤ length dir
  pub used : (pos : ℕ) → Chain dir pos 0 → entry_inode dir pos ≢ 0
  pub roomy : (pos : ℕ) → Chain dir pos 0 → 8 + name_length dir pos ≤ rec_length dir pos
  pub fits : (pos : ℕ) → Chain dir pos 0 → pos + rec_length dir pos ≤ block_size
  pub one_inode :
      (p q : ℕ) → Chain dir p 0 → Chain dir q 0 → entry_inode dir p ≡ entry_inode dir q → p ≡ q
  pub one_name :
      (p q : ℕ)
      → Chain dir p 0
      → Chain dir q 0
      → read_bytes (name_length dir p) dir (p + 8) ≡ read_bytes (name_length dir q) dir (q + 8)
      → p ≡ q

module _ (dir : List ℕ) (good : IsDirectory dir) (p pos : ℕ) (at_p : Chain dir p 0)
    (at_pos : Chain dir pos 0) (e : p + rec_length dir p ≡ pos) where
  abbrev pub after : List ℕ
  after = unlink (some p) pos dir

  byte-other :
      (i : ℕ)
      → (i < pos) ⊎ (pos + rec_length dir pos ≤ i)
      → p + 4 ≢ i
      → p + 5 ≢ i
      → byte_at after i ≡ byte_at dir i
  byte-other i out ne4 ne5 =
      let in_block = (Chain-start dir p 0 at_p).0 in
      ground (arith, byte_at-unlink dir p pos i (omega (arith, good.long)))

  rec_length-other :
      (q : ℕ) → (q + 8 ≤ p) ⊎ (pos + rec_length dir pos ≤ q) → rec_length after q ≡ rec_length dir q
  unfolding rec_length
  rec_length-other q out =
      let r = good.roomy p at_p in
      rw
        (
          byte-other (q + 4) (omega arith) (omega arith) (omega arith),
          byte-other (q + 5) (omega arith) (omega arith) (omega arith),
        )
        refl

  rec_length-before : rec_length after p ≡ rec_length dir p + rec_length dir pos
  rec_length-before =
      let in_block = (Chain-start dir p 0 at_p).0 in
      let long = good.long in
      let room = good.roomy p at_p in
      let end = good.fits pos at_pos in
      let low = byte_at-unlink dir p pos (p + 4) (omega arith) in
      let high = byte_at-unlink dir p pos (p + 5) (omega arith) in
      let low' : byte_at after (p + 4) ≡ (rec_length dir p + rec_length dir pos) % 2 ^ 8 =
        ground arith in
      let high' : byte_at after (p + 5) ≡ (rec_length dir p + rec_length dir pos) / 2 ^ 8 % 2 ^ 8 =
        ground arith in
      omega (arith, length-bytes after p, low', high')

  -- Past the entry removed, the two directories have the same chains.
  past : (q start : ℕ) → pos + rec_length dir pos ≤ start → Chain after q start → Chain dir q start
  past q start h c =
      Chain-same after dir (pos + rec_length dir pos) q start
        (λ i l. sym (rec_length-other i (inr l))) h c

  past_back :
      (q start : ℕ) → pos + rec_length dir pos ≤ start → Chain dir q start → Chain after q start
  past_back q start h c =
      Chain-same dir after (pos + rec_length dir pos) q start (λ i l. rec_length-other i (inr l)) h
        c

  step : p + rec_length after p ≡ pos + rec_length dir pos
  step = omega (arith, rec_length-before)

  -- From an entry up to `p` on, an entry of the new chain is one of the old chain, and not `pos`.
  pub down :
      (q start : ℕ)
      → Chain dir start 0
      → Chain dir p start
      → Chain after q start
      → Chain dir q 0 × (q ≢ pos)
  down q start c0 (here l r) c = elim (Chain-split after q p c) [
    | inl same ↦ (rw same at_p, omega (arith, good.roomy p at_p))
    | inr c' ↦
        let c2 : Chain dir q (pos + rec_length dir pos) =
          past q (pos + rec_length dir pos) (omega arith) (rw (sym step) c') in
        (
          Chain-extend dir pos q 0 at_pos c2,
          omega (arith, good.roomy pos at_pos, (Chain-start dir q (pos + rec_length dir pos) c2).2),
        )
  ]
  down q start c0 (next l r c') c =
      let (l', r', le) = Chain-start dir p (start + rec_length dir start) c' in
      let room = good.roomy start c0 in
      let room_p = good.roomy p at_p in
      let same = rec_length-other start (inl (omega arith)) in
      elim (Chain-split after q start c) [
        | inl e2 ↦ (rw e2 c0, omega arith)
        | inr c2 ↦
            down q (start + rec_length dir start) (Chain-extend dir start _ 0 c0 (here l' r')) c'
              (rw (sym same) c2)
      ]

  pub up :
      (q start : ℕ)
      → Chain dir start 0
      → Chain dir p start
      → Chain dir q start
      → q ≢ pos
      → Chain after q start
  up q start c0 (here l r) c ne =
      let (l2, r2, x) = Chain-start dir p p (here l r) in
      let room = good.roomy p at_p in
      let alive : rec_length after p ≢ 0 = omega (arith, rec_length-before) in
      elim (Chain-split dir q p c) [
        | inl same ↦ rw same (here l alive)
        | inr c' ↦ elim (Chain-split dir q pos (rw (sym e) c')) [
          | inl z ↦ absurd (ne z)
          | inr c2 ↦
              next l alive (rw step (past_back q (pos + rec_length dir pos) (omega arith) c2))
        ]
      ]
  up q start c0 (next l r c') c ne =
      let (l', r', le) = Chain-start dir p (start + rec_length dir start) c' in
      let room = good.roomy start c0 in
      let same = rec_length-other start (inl (omega arith)) in
      let alive : rec_length after start ≢ 0 = omega arith in
      elim (Chain-split dir q start c) [
        | inl e2 ↦ rw e2 (here l alive)
        | inr c2 ↦ next l alive (
            rw same (
              up q (start + rec_length dir start) (Chain-extend dir start _ 0 c0 (here l' r')) c' c2
                ne))
      ]

  -- The fields and the name of every other entry stay, but for the length of the entry at `p`.
  entry-same :
      (q i : ℕ)
      → Chain dir q 0
      → q ≢ pos
      → q ≤ i
      → i < q + rec_length dir q
      → q + 4 ≢ i
      → q + 5 ≢ i
      → byte_at after i ≡ byte_at dir i
  entry-same q i c ne low high ne4 ne5 =
      let room = good.roomy p at_p in
      elim (ℕ_discrete q p) [
        | yes same ↦ byte-other i (inl (ground arith)) (ground arith) (ground arith)
        | no other ↦ elim (dec_lt q p) [
          | yes before ↦
              let apart = Chain-apart dir q p 0 c at_p before in
              byte-other i (inl (omega arith)) (omega arith) (omega arith)
          | no not_before ↦
              let apart = Chain-apart dir p q 0 at_p c (omega arith) in
              let apart2 = Chain-apart dir pos q 0 at_pos c (omega arith) in
              byte-other i (inr (omega arith)) (omega arith) (omega arith)
        ]
      ]

  pub inode-same : (q : ℕ) → Chain dir q 0 → q ≢ pos → entry_inode after q ≡ entry_inode dir q
  unfolding entry_inode
  inode-same q c ne =
      let room = good.roomy q c in
      rw
        (
          entry-same q q c ne (omega arith) (omega arith) (omega arith) (omega arith),
          entry-same q (q + 1) c ne (omega arith) (omega arith) (omega arith) (omega arith),
          entry-same q (q + 2) c ne (omega arith) (omega arith) (omega arith) (omega arith),
          entry-same q (q + 3) c ne (omega arith) (omega arith) (omega arith) (omega arith),
        )
        refl

  starts_with-same :
      (q i : ℕ) (name : List ℕ)
      → Chain dir q 0
      → q ≢ pos
      → q + 8 ≤ i
      → i + length name ≤ q + rec_length dir q
      → starts_with after i name ≡ starts_with dir i name
  unfolding starts_with
  starts_with-same q i [] c ne low high = refl
  starts_with-same q i (x ∷ name) c ne low high =
      rw
        (
          entry-same q i c ne (omega arith) (omega arith) (omega arith) (omega arith),
          starts_with-same q (suc i) name c ne (omega arith) (omega arith),
        )
        refl

  pub is_named-same :
      (q : ℕ) (name : List ℕ)
      → Chain dir q 0
      → q ≢ pos
      → is_named after name q ≡ is_named dir name q
  unfolding is_named
  is_named-same q name c ne =
      let room = good.roomy q c in
      let len : name_length after q ≡ name_length dir q =
        entry-same q (q + 6) c ne (omega arith) (omega arith) (omega arith) (omega arith) in
      elim (ℕ_discrete (name_length dir q) (length name)) [
        | yes same ↦
            rw
              (
                len,
                inode-same q c ne,
                starts_with-same q (q + 8) name c ne (omega arith) (omega arith),
              )
              refl
        | no other ↦ ground (arith, inode-same q c ne)
      ]
