-- ===== src/Tests/Disks.antt =====
-- A drive held in memory, and the disk layer of fs.cpp on it.
use ikan_osv5_student.Prelude.{
  ℕ, zero, suc, ◌≡◌, ◌≢◌, inl, inr, true, List, [], ◌∷◌, ◌++◌, ◌==◌, refl, ap, sym, ◌∙◌, arith,
  get_or, length, take, replicate, length-replicate, length-take, length-append, if◌then◌else◌,
}
use ikan_osv5_student.Disk.{
  Device, Disk, CacheLine, blank, disk_read_sector, victim, read_block, write_block,
}
use ikan_osv5_student.Disk.Coherence.{IsCoherent, LineIsCoherent, disk_read_sector-eq-read_sector}
use ikan_osv5_student.Disk.Blocks.{read_block-write_block}

take-exact : (xs ys : List ℕ) → take (length xs) (xs ++ ys) ≡ xs
take-exact [] ys = refl
take-exact (x ∷ xs) ys = ap (◌∷◌ x) (take-exact xs ys)

-- The first 512 bytes, filled up with zeros.
unfoldable pub padded : List ℕ → List ℕ
padded bytes = take 512 (bytes ++ replicate 512 0)

length-padded : (bytes : List ℕ) → length (padded bytes) ≡ 512
unfolding padded
length-padded bytes = omega (
  arith,
  length-take {0} 512 (bytes ++ replicate 512 0),
  length-append {0} bytes (replicate 512 0),
  length-replicate {0} {A = ℕ} 512 0,
)

padded_full : (bytes : List ℕ) → length bytes ≡ 512 → padded bytes ≡ bytes
unfolding padded
padded_full bytes h =
    ap (λ n. take n (bytes ++ replicate 512 0)) (sym h) ∙ take-exact bytes (replicate 512 0)

abbrev Sectors : Type 0
Sectors = ℕ → List ℕ

unfoldable pub put_sector : Sectors → ℕ → List ℕ → Sectors
put_sector p s bytes t = if s == t then bytes else p t

unfoldable pub get_sector : Sectors → ℕ → List ℕ
get_sector p s = padded (p s)

pub length-get_sector : (p : Sectors) (s : ℕ) → length (get_sector p s) ≡ 512
unfolding get_sector
length-get_sector p s = length-padded (p s)

pub get-put_sector_self :
    (p : Sectors) (s : ℕ) (bytes : List ℕ)
    → length bytes ≡ 512
    → get_sector (put_sector p s bytes) s ≡ bytes
unfolding get_sector put_sector
get-put_sector_self p s bytes h = ground (arith, padded_full bytes h)

pub get-put_sector_ne :
    (p : Sectors) (s t : ℕ) (bytes : List ℕ)
    → s ≢ t
    → get_sector (put_sector p s bytes) t ≡ get_sector p t
unfolding get_sector put_sector
get-put_sector_ne p s t bytes h = ground arith

abbrev pub ram_disk : Device
ram_disk = record {
  Platter = Sectors;
  read_sector = get_sector;
  write_sector = put_sector;
  length_read = length-get_sector;
  read_written = get-put_sector_self;
  read_other = get-put_sector_ne;
}

abbrev line : ℕ → ℕ → CacheLine
line sector time = record { sector = sector; valid = 1; access_time = time; bytes = padded [] }

-- An empty drive whose two cache lines hold sectors 7 and 9.
abbrev pub warm : Disk ram_disk
warm = record {
  platter = λ s. [];
  cache = record { lines = line 7 5 ∷ line 9 4 ∷ []; lru_time = 5; hits = 0; misses = 2 };
}

pub warm-IsCoherent : IsCoherent ram_disk warm
unfolding get_sector
warm-IsCoherent zero = inr refl
warm-IsCoherent (suc zero) = inr refl
warm-IsCoherent (suc (suc i)) = inl refl

victim-warm : victim warm.cache.lines ≡ 1
unfolding victim
victim-warm = refl

disk_read_sector-eq-read_sector_example :
    let (bytes, k') = disk_read_sector ram_disk true 3 warm in
    (bytes ≡ get_sector (λ s. []) 3)
    × (k'.platter ≡ (λ s. []))
    × LineIsCoherent ram_disk k'.platter (get_or k'.cache.lines 1 blank)
disk_read_sector-eq-read_sector_example =
    disk_read_sector-eq-read_sector ram_disk true 3 warm 1 warm-IsCoherent

abbrev source : List ℕ
source = replicate 2048 65

read_block-write_block_example :
    (read_block ram_disk true 3 (write_block ram_disk true 3 source warm)).0
    ≡ (if 3 == 3 then source else (read_block ram_disk true 3 warm).0)
read_block-write_block_example =
    read_block-write_block ram_disk true 3 3 source warm warm-IsCoherent (omega arith) (omega arith)
      (length-replicate {A = ℕ} 2048 65)
