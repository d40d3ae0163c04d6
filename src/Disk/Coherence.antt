-- ===== src/Disk/Coherence.antt =====
-- The cache of `diskReadSector` (fs.cpp) never shows: every read returns what is on the drive.
use ikan_osv5_student.Prelude.{
  ℕ, zero, suc, ◌+◌, ◌<◌, ◌≡◌, ◌⊎◌, inl, inr, refl, Bool, true, false, ◌&&◌, List, [], ◌∷◌, some,
  ◌==◌, get_or, set, length, map, arith, get_or-set_cases, Option-cases, Bool-cases,
}
use ikan_osv5_student.Disk.{
  Device, Disk, CacheLine, blank, find_hit, hit, miss, flush, disk_read_sector, disk_write_sector,
  victim,
}

pub find_hit-some :
    (s j : ℕ) (ls : List CacheLine) (i : ℕ)
    → find_hit s j ls ≡ some i
    → (n : ℕ) × (i ≡ j + n)
      × (n < length ls)
      × ((get_or ls n blank).valid ≡ 1)
      × ((get_or ls n blank).sector ≡ s)
unfolding find_hit
find_hit-some s j [] i h = cc
find_hit-some s j (l ∷ ls) i h = elim (Bool-cases (l.valid == 1 && l.sector == s)) [
  | inl e ↦ (0, ground arith, omega arith, ground arith, ground arith)
  | inr e ↦
      let (n, a, b, v, t) = find_hit-some s (suc j) ls i (ground arith) in
      (suc n, omega arith, omega arith, v, t)
]

module _ (d : Device) where
  open d use {Platter, read_sector, write_sector}

  -- A line is invalid or holds the bytes of its sector.
  abbrev pub LineIsCoherent : Platter → CacheLine → Type 0
  LineIsCoherent p l = (l.valid ≡ 0) ⊎ (l.bytes ≡ read_sector p l.sector)

  abbrev pub IsCoherent : Disk d → Type 0
  IsCoherent k = (i : ℕ) → LineIsCoherent k.platter (get_or k.cache.lines i blank)

  get_or-blanks : (ls : List CacheLine) (i : ℕ) → get_or (map (λ _. blank) ls) i blank ≡ blank
  get_or-blanks [] i = refl
  get_or-blanks (l ∷ ls) zero = refl
  get_or-blanks (l ∷ ls) (suc i) = get_or-blanks ls i

  pub set-coherent :
      (p : Platter) (ls : List CacheLine) (j : ℕ) (l : CacheLine) (i : ℕ)
      → LineIsCoherent p l
      → LineIsCoherent p (get_or ls i blank)
      → LineIsCoherent p (get_or (set ls j l) i blank)
  set-coherent p ls j l i new old = elim (get_or-set_cases ls j i l blank) [
    | inl e ↦ rw e new
    | inr e ↦ rw e old
  ]

  -- Where the cache is coherent, a read returns the drive's bytes of the sector, whether or not the
  -- cache is used and hit, leaves the drive alone and keeps the cache coherent.
  pub disk_read_sector-eq-read_sector :
      (active : Bool) (s : ℕ) (k : Disk d) (i : ℕ)
      → IsCoherent k
      → let (bytes, k') = disk_read_sector d active s k in
        (bytes ≡ read_sector k.platter s)
        × (k'.platter ≡ k.platter)
        × LineIsCoherent k'.platter (get_or k'.cache.lines i blank)
  unfolding disk_read_sector hit miss
  disk_read_sector-eq-read_sector false s k i v = (refl, refl, v i)
  disk_read_sector-eq-read_sector true s k i v = elim (Option-cases (find_hit s 0 k.cache.lines)) [
    | inl e ↦
        rw (e, disk_read_sector)
          (
            refl,
            refl,
            set-coherent k.platter k.cache.lines (victim k.cache.lines) _ i (inr refl) (v i),
          )
    | inr (n, e) ↦
        let (m, a, b, valid, sector) = find_hit-some s 0 k.cache.lines n e in
        let same : n ≡ m = omega arith in
        rw (e, disk_read_sector)
          (
            rw same (ground (arith, v m)),
            refl,
            set-coherent k.platter k.cache.lines n _ i (v n) (v i),
          )
  ]

  -- A write with the cache in use leaves it empty, so it stays coherent.
  pub disk_write_sector-IsCoherent :
      (s : ℕ) (bytes : List ℕ) (k : Disk d) → IsCoherent (disk_write_sector d true s bytes k)
  unfolding disk_write_sector flush
  disk_write_sector-IsCoherent s bytes k i = inl (rw (get_or-blanks k.cache.lines i))
