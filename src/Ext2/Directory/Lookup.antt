-- ===== src/Ext2/Directory/Lookup.antt =====
-- The walk over a directory's entries (fs.cpp) against the chain that the entries form.
use ikan_osv5_student.Prelude.{
  ℕ, zero, suc, ◌+◌, ◌<◌, ◌≤◌, ◌≡◌, ◌≢◌, ◌⊎◌, inl, inr, Bool, true, false, List, [], ◌∷◌, none,
  some, ◌==◌, leb, arith, refl, Bool-cases, Option-cases, length,
}
use ikan_osv5_student.Disk.{block_size}
use ikan_osv5_student.Ext2.Directory.{
  walk, rec_length, entry_inode, name_length, starts_with, is_named, inode_of_name, name_of_inode,
  read_bytes, byte_at,
}

-- The entry at `pos` is one of those in the directory's first block, from the index on.
pub data Chain (dir : List ℕ) (pos : ℕ) : ℕ → Type 0 where
  here : pos < block_size → rec_length dir pos ≢ 0 → Chain dir pos pos
  next :
      {start : ℕ}
      → start < block_size
      → rec_length dir start ≢ 0
      → Chain dir pos (start + rec_length dir start)
      → Chain dir pos start

module _ (stops_at : ℕ → Bool) (dir : List ℕ) where
  -- An entry at which the walk stops is on the chain, and the test holds there.
  pub walk-some :
      (rounds start pos : ℕ)
      → walk stops_at dir rounds start ≡ some pos
      → Chain dir pos start × (stops_at pos ≡ true)
  unfolding walk
  walk-some zero start pos h = absurd (ground arith)
  walk-some (suc rounds) start pos h = elim (Bool-cases (leb block_size start)) [
    | inl out ↦ absurd (ground arith)
    | inr inside ↦ elim (Bool-cases (rec_length dir start == 0)) [
      | inl ends ↦ absurd (ground arith)
      | inr goes ↦ elim (Bool-cases (stops_at start)) [
        | inl stops ↦
            let same : start ≡ pos = ground arith in
            rw same (here (ground arith) (ground arith), ground arith)
        | inr on ↦
            let (c, t) = walk-some rounds (start + rec_length dir start) pos (ground arith) in
            (next (ground arith) (ground arith) c, t)
      ]
    ]
  ]

  -- Where the walk finds nothing, the test fails at every entry of the chain.
  pub walk-enough :
      (rounds start pos : ℕ)
      → block_size ≤ start + rounds
      → walk stops_at dir rounds start ≡ none
      → Chain dir pos start
      → stops_at pos ≡ false
  unfolding walk
  walk-enough zero start pos enough h (here l r) = absurd (omega arith)
  walk-enough zero start pos enough h (next l r c) = absurd (omega arith)
  walk-enough (suc rounds) start pos enough h (here l r) = ground arith
  walk-enough (suc rounds) start pos enough h (next l r c) =
      walk-enough rounds (start + rec_length dir start) pos (omega arith) (ground arith) c

inode_of_name-none :
    (dir name : List ℕ)
    → walk (is_named dir name) dir block_size 0 ≡ none
    → inode_of_name dir name ≡ 0
unfolding inode_of_name
inode_of_name-none dir name e = rw (e, inode_of_name)

inode_of_name-some :
    (dir name : List ℕ) (pos : ℕ)
    → walk (is_named dir name) dir block_size 0 ≡ some pos
    → inode_of_name dir name ≡ entry_inode dir pos
unfolding inode_of_name
inode_of_name-some dir name pos e = rw (e, inode_of_name)

pub is_named_parts :
    (dir name : List ℕ) (pos : ℕ)
    → is_named dir name pos ≡ true
    → (entry_inode dir pos ≢ 0)
      × (name_length dir pos ≡ length name)
      × (starts_with dir (pos + 8) name ≡ true)
unfolding is_named
is_named_parts dir name pos h = ground arith

-- A lookup either returns the number of an entry of the directory's chain that has the name, which
-- is not 0, or it returns 0 and no entry of the chain has the name.
pub inode_of_name_lem :
    (dir name : List ℕ)
    → let inode = inode_of_name dir name in
      ((inode ≢ 0)
        × ((pos : ℕ) × Chain dir pos 0
            × (is_named dir name pos ≡ true)
            × (entry_inode dir pos ≡ inode)))
      ⊎ ((inode ≡ 0) × ((pos : ℕ) → Chain dir pos 0 → is_named dir name pos ≡ false))
inode_of_name_lem dir name = elim (Option-cases (walk (is_named dir name) dir block_size 0)) [
  | inl e ↦
      rw (inode_of_name-none dir name e) (
        inr (refl, λ pos c. walk-enough (is_named dir name) dir block_size 0 pos (omega arith) e c))
  | inr (pos, e) ↦
      let (c, t) = walk-some (is_named dir name) dir block_size 0 pos e in
      rw (inode_of_name-some dir name pos e)
        (inl ((is_named_parts dir name pos t).0, (pos, c, t, refl)))
]

pub starts_with-read_bytes :
    (dir : List ℕ) (pos : ℕ) (name : List ℕ)
    → starts_with dir pos name ≡ true
    → read_bytes (length name) dir pos ≡ name
unfolding starts_with read_bytes
starts_with-read_bytes dir pos [] h = refl
starts_with-read_bytes dir pos (c ∷ rest) h =
    let same : byte_at dir pos ≡ c = ground arith in
    rw (same, starts_with-read_bytes dir (suc pos) rest (ground arith)) refl

name_of_inode-some :
    (dir : List ℕ) (inode pos : ℕ)
    → walk (λ pos. entry_inode dir pos == inode) dir block_size 0 ≡ some pos
    → name_of_inode dir inode ≡ some (read_bytes (name_length dir pos) dir (pos + 8))
unfolding name_of_inode
name_of_inode-some dir inode pos e = rw (e, name_of_inode)

-- On a directory in which no two entries hold the same inode, the name of the inode that a
-- successful lookup returns is the name looked up.
name_of_inode-inode_of_name :
    (dir name : List ℕ)
    → ((p q : ℕ) → Chain dir p 0 → Chain dir q 0 → entry_inode dir p ≡ entry_inode dir q → p ≡ q)
    → inode_of_name dir name ≢ 0
    → name_of_inode dir (inode_of_name dir name) ≡ some name
name_of_inode-inode_of_name dir name unique found = elim (inode_of_name_lem dir name) [
  | inr (z, x) ↦ absurd (found z)
  | inl (nz, (pos, c, named, e)) ↦
      let stop : ℕ → Bool = λ p. entry_inode dir p == inode_of_name dir name in
      elim (Option-cases (walk stop dir block_size 0)) [
        | inl none_found ↦
            absurd
              (ground (arith, walk-enough stop dir block_size 0 pos (omega arith) none_found c))
        | inr (q, at_q) ↦
            let (c', t) = walk-some stop dir block_size 0 q at_q in
            let same : q ≡ pos = unique q pos c' c (ground arith) in
            let (x, len, text) = is_named_parts dir name pos named in
            rw
              (
                name_of_inode-some dir (inode_of_name dir name) q at_q,
                same,
                len,
                starts_with-read_bytes dir (pos + 8) name text,
              )
              refl
      ]
]
