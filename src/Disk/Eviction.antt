-- ===== src/Disk/Eviction.antt =====
-- Which line the cache of `diskReadSector` (fs.cpp) replaces on a miss.
use ikan_osv5_student.Prelude.{
  ℕ, zero, suc, ◌+◌, ◌^◌, ◌<◌, ◌≤◌, ◌≡◌, ◌⊎◌, inl, inr, refl, true, ◌&&◌, List, [], ◌∷◌, none, some,
  ◌==◌, ltb, if◌then◌else◌, get_or, set, length, arith, Option-cases, Bool-cases, get_or-set_self,
  length-set,
}
use ikan_osv5_student.Disk.{
  Device, Disk, CacheLine, blank, find_invalid, find_oldest, victim, hit, miss, find_hit, tick,
  disk_read_sector,
}
use ikan_osv5_student.Disk.Coherence.{find_hit-some}

find_invalid-some :
    (j : ℕ) (ls : List CacheLine) (i : ℕ)
    → find_invalid j ls ≡ some i
    → (n : ℕ) × (i ≡ j + n) × (n < length ls) × ((get_or ls n blank).valid ≡ 0)
unfolding find_invalid
find_invalid-some j [] i h = cc
find_invalid-some j (l ∷ ls) i h = elim (Bool-cases (l.valid == 0)) [
  | inl e ↦ (0, ground arith, omega arith, ground arith)
  | inr e ↦
      let (n, a, b, v) = find_invalid-some (suc j) ls i (ground arith) in
      (suc n, omega arith, omega arith, v)
]

-- Every line is valid.
abbrev pub IsFull : List CacheLine → Type 0
IsFull [] = Unit
IsFull (l ∷ ls) = (l.valid ≡ 1) × IsFull ls

find_invalid_full : (j : ℕ) (ls : List CacheLine) → IsFull ls → find_invalid j ls ≡ none
unfolding find_invalid
find_invalid_full j [] f = refl
find_invalid_full j (l ∷ ls) f = ground (arith, find_invalid_full (suc j) ls f.1)

find_oldest_step :
    (j time line : ℕ) (l : CacheLine) (ls : List CacheLine)
    → l.valid ≡ 1
    → find_oldest j time line (l ∷ ls) ≡ (
        if ltb l.access_time time
        then find_oldest (suc j) l.access_time j ls
        else find_oldest (suc j) time line ls)
unfolding find_oldest
find_oldest_step j time line l ls v = ground arith

-- The stamp of the line that the scan returns.
stamp_of : ℕ → List CacheLine → ℕ
stamp_of time [] = time
stamp_of time (l ∷ ls) =
    if ltb l.access_time time then stamp_of l.access_time ls else stamp_of time ls

stamp_of-le : (time : ℕ) (ls : List CacheLine) → stamp_of time ls ≤ time
unfolding stamp_of
stamp_of-le time [] = omega arith
stamp_of-le time (l ∷ ls) = ground (arith, stamp_of-le time ls, stamp_of-le l.access_time ls)

stamp_of-le-get :
    (time : ℕ) (ls : List CacheLine) (m : ℕ)
    → m < length ls
    → stamp_of time ls ≤ (get_or ls m blank).access_time
unfolding stamp_of
stamp_of-le-get time [] m h = absurd (omega arith)
stamp_of-le-get time (l ∷ ls) zero h =
    ground (arith, stamp_of-le time ls, stamp_of-le l.access_time ls)
stamp_of-le-get time (l ∷ ls) (suc m) h =
    ground (arith, stamp_of-le-get time ls m, stamp_of-le-get l.access_time ls m)

find_oldest_chosen :
    (j time line : ℕ) (ls : List CacheLine)
    → IsFull ls
    → ((find_oldest j time line ls ≡ line) × (stamp_of time ls ≡ time))
      ⊎ ((n : ℕ) × (find_oldest j time line ls ≡ j + n)
          × (n < length ls)
          × (stamp_of time ls ≡ (get_or ls n blank).access_time))
unfolding stamp_of find_oldest
find_oldest_chosen j time line [] f = inl (refl, refl)
find_oldest_chosen j time line (l ∷ ls) (v, f) =
    rw (find_oldest_step j time line l ls v) (elim (Bool-cases (ltb l.access_time time)) [
      | inl older ↦ rw older (elim (find_oldest_chosen (suc j) l.access_time j ls f) [
        | inl (e, s) ↦ inr (0, omega arith, omega arith, s)
        | inr (n, e, b, s) ↦ inr (suc n, omega arith, omega arith, s)
      ])
      | inr newer ↦ rw newer (elim (find_oldest_chosen (suc j) time line ls f) [
        | inl (e, s) ↦ inl (e, s)
        | inr (n, e, b, s) ↦ inr (suc n, omega arith, omega arith, s)
      ])
    ])

-- On a cache whose lines are all valid, and whose first line's time fits in 32 bits, a miss
-- replaces a line that no other line is older than.
victim-least :
    (ls : List CacheLine) (m : ℕ)
    → IsFull ls
    → m < length ls
    → (get_or ls 0 blank).access_time < 2 ^ 32
    → (victim ls < length ls)
      × ((get_or ls (victim ls) blank).access_time ≤ (get_or ls m blank).access_time)
unfolding victim
victim-least ls m f h w =
    rw (find_invalid_full 0 ls f, victim)
      (elim (find_oldest_chosen 0 0xFFFFFFFF 0 ls f) [
        | inl (e, s) ↦ rw e (omega arith, omega (arith, stamp_of-le-get 0xFFFFFFFF ls m h))
        | inr (n, e, b, s) ↦
            let at_n : find_oldest 0 0xFFFFFFFF 0 ls ≡ n = omega arith in
            rw at_n (b, omega (arith, stamp_of-le-get 0xFFFFFFFF ls m h))
      ])

-- While some line is invalid, a miss replaces an invalid line and keeps every valid one.
victim_invalid :
    (ls : List CacheLine) (i : ℕ)
    → find_invalid 0 ls ≡ some i
    → (victim ls < length ls) × ((get_or ls (victim ls) blank).valid ≡ 0)
unfolding victim
victim_invalid ls i h =
    let (n, e, b, v) = find_invalid-some 0 ls i h in
    let same : i ≡ n = omega arith in rw (h, victim) (rw same (b, v))

find_hit_found :
    (s j : ℕ) (ls : List CacheLine) (n : ℕ)
    → n < length ls
    → (get_or ls n blank).valid ≡ 1
    → (get_or ls n blank).sector ≡ s
    → (i : ℕ) × (find_hit s j ls ≡ some i)
unfolding find_hit
find_hit_found s j [] n h v e = absurd (omega arith)
find_hit_found s j (l ∷ ls) zero h v e = (j, ground arith)
find_hit_found s j (l ∷ ls) (suc n) h v e = elim (Bool-cases (l.valid == 1 && l.sector == s)) [
  | inl t ↦ (j, rw t)
  | inr f ↦ let (i, g) = find_hit_found s (suc j) ls n (omega arith) v e in (i, rw f g)
]

module _ (d : Device) where
  cached_after :
      (s : ℕ) (k : Disk d)
      → victim k.cache.lines < length k.cache.lines
      → (i : ℕ) × (find_hit s 0 (disk_read_sector d true s k).1.cache.lines ≡ some i)
  unfolding disk_read_sector hit miss
  cached_after s k h = elim (Option-cases (find_hit s 0 k.cache.lines)) [
    | inl e ↦
        let line : CacheLine = record {
          sector = s;
          valid = 1;
          access_time = tick k.cache.lru_time;
          bytes = d.read_sector k.platter s;
        } in
        let at_v = get_or-set_self k.cache.lines (victim k.cache.lines) line blank h in
        rw (e, disk_read_sector)
          (find_hit_found s 0 (set k.cache.lines (victim k.cache.lines) line) (victim k.cache.lines)
            (omega (arith, length-set {0} k.cache.lines (victim k.cache.lines) line)) (rw at_v)
            (rw at_v))
    | inr (i, e) ↦
        let (n, a, b, v, t) = find_hit-some s 0 k.cache.lines i e in
        let same : i ≡ n = omega arith in
        let line : CacheLine = record (get_or k.cache.lines n blank) {
          access_time = tick k.cache.lru_time;
        } in
        let at_n = get_or-set_self k.cache.lines n line blank b in
        rw (e, disk_read_sector, same)
          (find_hit_found s 0 (set k.cache.lines n line) n
            (omega (arith, length-set {0} k.cache.lines n line)) (rw at_n v) (rw at_n t))
  ]

  hit_counts :
      (s i : ℕ) (k : Disk d)
      → find_hit s 0 k.cache.lines ≡ some i
      → ((disk_read_sector d true s k).1.cache.hits ≡ tick k.cache.hits)
        × ((disk_read_sector d true s k).1.cache.misses ≡ k.cache.misses)
  unfolding disk_read_sector hit
  hit_counts s i k e = rw (e, disk_read_sector) (refl, refl)

  -- Where the cache has a line to replace, a sector that was just read is in the cache: reading it
  -- again is a hit.
  pub read_again_hits :
      (s : ℕ) (k : Disk d)
      → victim k.cache.lines < length k.cache.lines
      → let k' = (disk_read_sector d true s k).1 in
        ((disk_read_sector d true s k').1.cache.hits ≡ tick k'.cache.hits)
        × ((disk_read_sector d true s k').1.cache.misses ≡ k'.cache.misses)
  read_again_hits s k h =
      hit_counts s (cached_after s k h).0 (disk_read_sector d true s k).1 (cached_after s k h).1
