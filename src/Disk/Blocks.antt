-- ===== src/Disk/Blocks.antt =====
-- `readBlock` and `writeBlock` (fs.cpp) against the drive's sectors, with the cache or without.
use ikan_osv5_student.Prelude.{
  ℕ, zero, suc, ◌+◌, ◌*◌, ◌%◌, ◌^◌, ◌<◌, ◌≤◌, ◌≡◌, ◌∙◌, ◌⊎◌, inl, refl, sym, ap, ap₂, Bool, true,
  false, List, [], ◌∷◌, ◌++◌, take, drop, length, arith, length-take, length-drop, length-append,
  take-append-drop, ◌==◌, if◌then◌else◌, ℕ_discrete,
}
use ikan_osv5_student.Disk.{
  Device, Disk, disk_read_sector, disk_write_sector, read_sectors, write_sectors, read_block,
  write_block, sector_start, sector_size, block_size,
}
use ikan_osv5_student.Disk.Coherence.{
  IsCoherent, disk_read_sector-eq-read_sector, disk_write_sector-IsCoherent,
}

-- The block numbers whose sectors an `uint32_t` can count.
abbrev pub block_limit : ℕ
block_limit = 2 ^ 29

module _ (d : Device) where
  open d use {Platter, read_sector, write_sector, length_read, read_written, read_other}

  -- `n` sectors of the drive from `s` on.
  unfoldable pub sectors : Platter → ℕ → ℕ → List ℕ
  sectors p zero s = []
  sectors p (suc n) s = read_sector p s ++ sectors p n ((s + 1) % 2 ^ 32)

  put_sectors : Platter → ℕ → ℕ → List ℕ → Platter
  put_sectors p zero s src = p
  put_sectors p (suc n) s src =
      put_sectors (write_sector p s (take sector_size src)) n ((s + 1) % 2 ^ 32)
        (drop sector_size src)

  -- What a cache in the given mode has to satisfy.
  abbrev pub IsGood : Bool → Disk d → Type 0
  IsGood true k = IsCoherent d k
  IsGood false k = Unit

  read_sector_lem :
      (a : Bool) (s : ℕ) (k : Disk d)
      → IsGood a k
      → ((disk_read_sector d a s k).0 ≡ read_sector k.platter s)
        × ((disk_read_sector d a s k).1.platter ≡ k.platter)
        × IsGood a (disk_read_sector d a s k).1
  unfolding disk_read_sector
  read_sector_lem false s k g = (refl, refl, tt)
  read_sector_lem true s k g = (
    (disk_read_sector-eq-read_sector d true s k 0 g).0,
    (disk_read_sector-eq-read_sector d true s k 0 g).1,
    λ i. (disk_read_sector-eq-read_sector d true s k i g).2,
  )

  pub read_sectors_lem :
      (a : Bool) (n s : ℕ) (k : Disk d)
      → IsGood a k
      → ((read_sectors d a n s k).0 ≡ sectors k.platter n s)
        × ((read_sectors d a n s k).1.platter ≡ k.platter)
        × IsGood a (read_sectors d a n s k).1
  unfolding read_sectors sectors
  read_sectors_lem a zero s k g = (refl, refl, g)
  read_sectors_lem a (suc n) s k g =
      let (e, p, g') = read_sector_lem a s k g in
      let (e2, p2, g2) = read_sectors_lem a n ((s + 1) % 2 ^ 32) (disk_read_sector d a s k).1 g' in
      (ap₂ ◌++◌ e (e2 ∙ ap (λ q. sectors q n ((s + 1) % 2 ^ 32)) p), p2 ∙ p, g2)

  platter-write_sectors :
      (a : Bool) (n s : ℕ) (src : List ℕ) (k : Disk d)
      → (write_sectors d a n s src k).platter ≡ put_sectors k.platter n s src
  unfolding write_sectors disk_write_sector put_sectors
  platter-write_sectors a zero s src k = refl
  platter-write_sectors a (suc n) s src k =
      platter-write_sectors a n ((s + 1) % 2 ^ 32) (drop sector_size src)
        (disk_write_sector d a s (take sector_size src) k)

  write_sectors-IsGood :
      (a : Bool) (n s : ℕ) (src : List ℕ) (k : Disk d)
      → IsGood a k
      → IsGood a (write_sectors d a n s src k)
  unfolding write_sectors
  write_sectors-IsGood false n s src k g = tt
  write_sectors-IsGood true zero s src k g = g
  write_sectors-IsGood true (suc n) s src k g =
      write_sectors-IsGood true n ((s + 1) % 2 ^ 32) (drop sector_size src)
        (disk_write_sector d true s (take sector_size src) k)
        (disk_write_sector-IsCoherent d s (take sector_size src) k)

  read-put_sectors_other :
      (p : Platter) (n s t : ℕ) (src : List ℕ)
      → s + n ≤ 2 ^ 32
      → (t < s) ⊎ (s + n ≤ t)
      → read_sector (put_sectors p n s src) t ≡ read_sector p t
  unfolding put_sectors
  read-put_sectors_other p zero s t src h o = refl
  read-put_sectors_other p (suc n) s t src h o = elim (ℕ_discrete n 0) [
    | yes z ↦ rw z (read_other p s t (take sector_size src) (omega arith))
    | no nz ↦ rw (let e : (s + 1) % 2 ^ 32 ≡ s + 1 = omega arith in e) (
        read-put_sectors_other (write_sector p s (take sector_size src)) n (s + 1) t
          (drop sector_size src) (omega arith) (omega arith)
        ∙ read_other p s t (take sector_size src) (omega arith))
  ]

  sectors-put_sectors_other :
      (p : Platter) (n m s t : ℕ) (src : List ℕ)
      → s + n ≤ 2 ^ 32
      → t + m < 2 ^ 32
      → (t + m ≤ s) ⊎ (s + n ≤ t)
      → sectors (put_sectors p n s src) m t ≡ sectors p m t
  unfolding sectors
  sectors-put_sectors_other p n zero s t src h h' o = refl
  sectors-put_sectors_other p n (suc m) s t src h h' o =
      rw (let e : (t + 1) % 2 ^ 32 ≡ t + 1 = omega arith in e) (
        ap₂ ◌++◌ (read-put_sectors_other p n s t src h (omega arith))
          (sectors-put_sectors_other p n m s (t + 1) src h (omega arith) (omega arith)))

  put_step :
      (p : Platter) (n s : ℕ) (src : List ℕ)
      → s + 1 < 2 ^ 32
      → put_sectors p (suc n) s src
        ≡ put_sectors (write_sector p s (take sector_size src)) n (s + 1) (drop sector_size src)
  unfolding put_sectors
  put_step p n s src h =
      ap (λ t. put_sectors (write_sector p s (take sector_size src)) n t (drop sector_size src))
        (omega arith)

  sectors_step :
      (p : Platter) (n s : ℕ)
      → s + 1 < 2 ^ 32
      → sectors p (suc n) s ≡ read_sector p s ++ sectors p n (s + 1)
  unfolding sectors
  sectors_step p n s h = ap (λ t. read_sector p s ++ sectors p n t) (omega arith)

  sectors_nil : (p : Platter) (s : ℕ) (src : List ℕ) → length src ≡ 0 → sectors p 0 s ≡ src
  unfolding sectors
  sectors_nil p s [] h = refl
  sectors_nil p s (x ∷ src) h = absurd (omega arith)

  sectors-put_sectors :
      (p : Platter) (n s : ℕ) (src : List ℕ)
      → s + n < 2 ^ 32
      → length src ≡ n * sector_size
      → sectors (put_sectors p n s src) n s ≡ src
  sectors-put_sectors p zero s src h l = sectors_nil _ s src l
  sectors-put_sectors p (suc n) s src h l =
      let q : Platter = write_sector p s (take sector_size src) in
      rw (put_step p n s src (omega arith), sectors_step _ n s (omega arith))
        (ap₂ ◌++◌
            (read-put_sectors_other q n (s + 1) s (drop sector_size src) (omega arith)
                (inl (omega arith))
              ∙ read_written p s (take sector_size src)
                  (omega (arith, length-take {0} sector_size src)))
            (sectors-put_sectors q n (s + 1) (drop sector_size src) (omega arith)
              (omega (arith, length-drop {0} sector_size src)))
          ∙ take-append-drop sector_size src)

  length-sectors : (p : Platter) (n s : ℕ) → length (sectors p n s) ≡ n * sector_size
  unfolding sectors
  length-sectors p zero s = refl
  length-sectors p (suc n) s = omega (
    arith,
    length-append {0} (read_sector p s) (sectors p n ((s + 1) % 2 ^ 32)),
    length_read p s,
    length-sectors p n ((s + 1) % 2 ^ 32),
  )

  -- The 2048 bytes of a block on the drive.
  unfoldable pub block_bytes : Disk d → ℕ → List ℕ
  block_bytes k b = sectors k.platter 4 (sector_start d b)

  -- Reading a block returns its bytes on the drive, with the cache or without.
  pub read_block-eq-block_bytes :
      (a : Bool) (b : ℕ) (k : Disk d) → IsGood a k → (read_block d a b k).0 ≡ block_bytes k b
  unfolding read_block block_bytes
  read_block-eq-block_bytes a b k g = (read_sectors_lem a 4 (sector_start d b) k g).0

  pub block_bytes-read_block :
      (a : Bool) (b c : ℕ) (k : Disk d)
      → IsGood a k
      → block_bytes (read_block d a b k).1 c ≡ block_bytes k c
  unfolding read_block block_bytes
  block_bytes-read_block a b c k g =
      ap (λ q. sectors q 4 (sector_start d c)) (read_sectors_lem a 4 (sector_start d b) k g).1

  pub read_block-IsGood :
      (a : Bool) (b : ℕ) (k : Disk d) → IsGood a k → IsGood a (read_block d a b k).1
  unfolding read_block
  read_block-IsGood a b k g = (read_sectors_lem a 4 (sector_start d b) k g).2

  pub write_block-IsGood :
      (a : Bool) (b : ℕ) (src : List ℕ) (k : Disk d)
      → IsGood a k
      → IsGood a (write_block d a b src k)
  unfolding write_block
  write_block-IsGood a b src k g = write_sectors-IsGood a 4 (sector_start d b) src k g

  pub length-block_bytes : (k : Disk d) (b : ℕ) → length (block_bytes k b) ≡ block_size
  unfolding block_bytes
  length-block_bytes k b = length-sectors k.platter 4 (sector_start d b)

  -- Writing a block changes that block's bytes to the source and no other block's.
  pub block_bytes-write_block :
      (a : Bool) (b c : ℕ) (src : List ℕ) (k : Disk d)
      → b < block_limit
      → c < block_limit
      → length src ≡ block_size
      → block_bytes (write_block d a b src k) c ≡ (if b == c then src else block_bytes k c)
  unfolding write_block block_bytes
  block_bytes-write_block a b c src k hb hc l =
      rw (platter-write_sectors a 4 (sector_start d b) src k) (elim (ℕ_discrete b c) [
        | yes e ↦
            rw (← e) (
              ground
                (arith, sectors-put_sectors k.platter 4 (sector_start d b) src (omega arith) l))
        | no ne ↦ ground (
          arith,
          sectors-put_sectors_other k.platter 4 4 (sector_start d b) (sector_start d c) src
              (omega arith) (omega arith) (omega arith),
        )
      ])

  -- With a coherent cache or without one, a block that was written is read back, and every other
  -- block reads as before, for sources of one block and block numbers below 2^29.
  pub read_block-write_block :
      (a : Bool) (b c : ℕ) (src : List ℕ) (k : Disk d)
      → IsGood a k
      → b < block_limit
      → c < block_limit
      → length src ≡ block_size
      → (read_block d a c (write_block d a b src k)).0
        ≡ (if b == c then src else (read_block d a c k).0)
  read_block-write_block a b c src k g hb hc l =
      read_block-eq-block_bytes a c (write_block d a b src k) (write_block-IsGood a b src k g)
      ∙ block_bytes-write_block a b c src k hb hc l
      ∙ ap (λ bytes. if b == c then src else bytes) (sym (read_block-eq-block_bytes a c k g))
