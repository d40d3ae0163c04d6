-- ===== src/Disk.antt =====
-- The disk layer of ikanOSv5-1-Bootloader-Base/fs.cpp: the LRU cache of `diskReadSector`, the flush
-- of `diskWriteSector`, and the block transfers `readBlock` and `writeBlock` over them.
-- The transfer of one sector between memory and the drive is left open in the source (a course
-- assignment), so it is the parameter `Device`.
pub mod Coherence
pub mod Eviction
pub mod Blocks
use ikan_osv5_student.Prelude.{
  ℕ, zero, suc, ◌+◌, ◌-◌, ◌*◌, ◌/◌, ◌%◌, ◌^◌, ◌≢◌, ◌≡◌, Bool, true, false, ◌&&◌, List, [], ◌∷◌,
  ◌++◌, Option, none, some, ◌==◌, ltb, if◌then◌else◌, get_or, set, take, drop, length, map,
}

abbrev pub block_size : ℕ
block_size = 0x800

abbrev pub sector_size : ℕ
sector_size = 0x200

abbrev pub cache_size : ℕ
cache_size = 168

abbrev pub ext2_sector_start : ℕ
ext2_sector_start = 0x200

-- A drive of 512-byte sectors: what was written to a sector is read back.
pub record Device : Type 1 where
  pub Platter : Type 0
  pub read_sector : Platter → ℕ → List ℕ
  pub write_sector : Platter → ℕ → List ℕ → Platter
  pub length_read : (p : Platter) (s : ℕ) → length (read_sector p s) ≡ sector_size
  pub read_written :
      (p : Platter) (s : ℕ) (bytes : List ℕ)
      → length bytes ≡ sector_size
      → read_sector (write_sector p s bytes) s ≡ bytes
  pub read_other :
      (p : Platter) (s t : ℕ) (bytes : List ℕ)
      → s ≢ t
      → read_sector (write_sector p s bytes) t ≡ read_sector p t

-- `cacheLineDetail`, with the line's 512 bytes of DISK_READ_CACHE_DATA.
pub record CacheLine : Type 0 where
  pub sector : ℕ
  pub valid : ℕ
  pub access_time : ℕ
  pub bytes : List ℕ

-- The lines, `cacheLRUtime`, and the counters at KERNEL_CACHE_HITS and KERNEL_CACHE_MISSES.
pub record Cache : Type 0 where
  pub lines : List CacheLine
  pub lru_time : ℕ
  pub hits : ℕ
  pub misses : ℕ

abbrev pub tick : ℕ → ℕ
tick n = (n + 1) % 2 ^ 32

-- A line of zeros, as the flush leaves it.
abbrev pub blank : CacheLine
blank = record { sector = 0; valid = 0; access_time = 0; bytes = [] }

-- The first loop: the index of the line that holds the sector.
unfoldable pub find_hit : ℕ → ℕ → List CacheLine → Option ℕ
find_hit sector_number i [] = none
find_hit sector_number i (l ∷ ls) =
    if l.valid == 1 && l.sector == sector_number then some i else find_hit sector_number (suc i) ls

-- The second loop: the first line whose `valid` is 0.
unfoldable pub find_invalid : ℕ → List CacheLine → Option ℕ
find_invalid i [] = none
find_invalid i (l ∷ ls) = if l.valid == 0 then some i else find_invalid (suc i) ls

-- The third loop: `minimumTime` and `cacheLine` as accumulators.
unfoldable pub find_oldest : ℕ → ℕ → ℕ → List CacheLine → ℕ
find_oldest i minimum_time cache_line [] = cache_line
find_oldest i minimum_time cache_line (l ∷ ls) =
    let older = l.valid == 1 && ltb l.access_time minimum_time in
    find_oldest (suc i) (if older then l.access_time else minimum_time)
      (if older then i else cache_line) ls

-- The line that a miss replaces.
unfoldable pub victim : List CacheLine → ℕ
unfolding find_invalid find_oldest
victim lines = elim (find_invalid 0 lines) [ some i ↦ i | none ↦ find_oldest 0 0xFFFFFFFF 0 lines ]

-- A hit reads the line's bytes and stamps it.
unfoldable pub hit : Cache → ℕ → List ℕ × Cache
hit c i =
    let line = get_or c.lines i blank in
    (
      line.bytes,
      record c {
        lines = set c.lines i (record line { access_time = tick c.lru_time });
        lru_time = tick c.lru_time;
        hits = tick c.hits;
      },
    )

-- A miss loads the bytes into the line that is replaced.
unfoldable pub miss : Cache → ℕ → List ℕ → List ℕ × Cache
miss c sector_number loaded = (
  loaded,
  record c {
    lines = set c.lines (victim c.lines) (record {
      sector = sector_number;
      valid = 1;
      access_time = tick c.lru_time;
      bytes = loaded;
    });
    lru_time = tick c.lru_time;
    misses = tick c.misses;
  },
)

-- `fillMemory` over the line details and the cached data.
unfoldable pub flush : Cache → Cache
flush c = record c { lines = map (λ _. blank) c.lines }

module _ (d : Device) where
  open d use {Platter, read_sector, write_sector}

  pub record Disk : Type 0 where
    pub platter : Platter
    pub cache : Cache

  unfoldable pub disk_read_sector : Bool → ℕ → Disk → List ℕ × Disk
  disk_read_sector false s k = (read_sector k.platter s, k)
  disk_read_sector true s k = elim (find_hit s 0 k.cache.lines) [
    | some i ↦ let (bytes, c) = hit k.cache i in (bytes, record k { cache = c })
    | none ↦
        let (bytes, c) = miss k.cache s (read_sector k.platter s) in (bytes, record k { cache = c })
  ]

  unfoldable pub disk_write_sector : Bool → ℕ → List ℕ → Disk → Disk
  disk_write_sector cache_active s bytes k = record {
    platter = write_sector k.platter s bytes;
    cache = if cache_active then flush k.cache else k.cache;
  }

  abbrev pub sector_start : ℕ → ℕ
  sector_start block_number =
      (block_number * (block_size / sector_size) + ext2_sector_start) % 2 ^ 32

  -- The loop of `readBlock`, on the sectors left: the bytes come to lie one sector after the other.
  unfoldable pub read_sectors : Bool → ℕ → ℕ → Disk → List ℕ × Disk
  read_sectors cache_active zero s k = ([], k)
  read_sectors cache_active (suc n) s k =
      let (bytes, k') = disk_read_sector cache_active s k in
      let (rest, k'') = read_sectors cache_active n ((s + 1) % 2 ^ 32) k' in (bytes ++ rest, k'')

  unfoldable pub read_block : Bool → ℕ → Disk → List ℕ × Disk
  read_block cache_active block_number k =
      read_sectors cache_active (block_size / sector_size) (sector_start block_number) k

  -- The loop of `writeBlock`: each round takes the next 512 bytes of the source.
  unfoldable pub write_sectors : Bool → ℕ → ℕ → List ℕ → Disk → Disk
  write_sectors cache_active zero s source k = k
  write_sectors cache_active (suc n) s source k =
      write_sectors cache_active n ((s + 1) % 2 ^ 32) (drop sector_size source)
        (disk_write_sector cache_active s (take sector_size source) k)

  unfoldable pub write_block : Bool → ℕ → List ℕ → Disk → Disk
  write_block cache_active block_number source k =
      write_sectors cache_active (block_size / sector_size) (sector_start block_number) source k
