-- ===== src/Tests/Bitmaps.antt =====
-- The bitmap scans and counts of fs.cpp on small maps.
use ikan_osv5_student.Prelude.{
  ℕ, zero, suc, ◌+◌, ◌*◌, ◌<◌, ◌≤◌, ◌≡◌, ◌⊎◌, true, false, ◌||◌, List, [], ◌∷◌, some, ◌==◌, refl,
  arith, has_bit, with_bit,
}
use ikan_osv5_student.Ext2.Bitmap.{find_clear, scan, allocate, free, total_used, run_length}
use ikan_osv5_student.Ext2.Bitmap.Allocate.{bit_at, IsMap, allocate_first, bit_at-allocate}
use ikan_osv5_student.Ext2.Bitmap.Free.{free_leaks}
use ikan_osv5_student.Ext2.Bitmap.Count.{IsRun}

-- Blocks 1 to 8, 9, 10 and 12 are in use.
abbrev gap_map : List ℕ
gap_map = 255 ∷ 11 ∷ 0 ∷ []

abbrev gap_map' : List ℕ
gap_map' = 255 ∷ 15 ∷ 0 ∷ []

gap_map-IsMap : IsMap gap_map
gap_map-IsMap zero = omega arith
gap_map-IsMap (suc zero) = omega arith
gap_map-IsMap (suc (suc zero)) = omega arith
gap_map-IsMap (suc (suc (suc i))) = omega arith

allocate-gap_map : allocate 3 gap_map ≡ some (11, gap_map')
unfolding allocate scan find_clear has_bit with_bit
allocate-gap_map = refl

-- Block 8 is the first that is free.
abbrev eighth_map : List ℕ
eighth_map = 127 ∷ 0 ∷ []

abbrev eighth_map' : List ℕ
eighth_map' = 255 ∷ 0 ∷ []

eighth_map-IsMap : IsMap eighth_map
eighth_map-IsMap zero = omega arith
eighth_map-IsMap (suc zero) = omega arith
eighth_map-IsMap (suc (suc i)) = omega arith

allocate-eighth_map : allocate 1 eighth_map ≡ some (8, eighth_map')
unfolding allocate scan find_clear has_bit with_bit
allocate-eighth_map = refl

abbrev run_map : List ℕ
run_map = 255 ∷ 7 ∷ 0 ∷ []

abbrev run_map' : List ℕ
run_map' = 255 ∷ 15 ∷ 0 ∷ []

run_map-IsRun : IsRun run_map 11
run_map-IsRun zero = refl
run_map-IsRun (suc zero) = refl
run_map-IsRun (suc (suc zero)) = refl
run_map-IsRun (suc (suc (suc i))) = ground arith

allocate-run_map : allocate 3 run_map ≡ some (12, run_map')
unfolding allocate scan find_clear has_bit with_bit
allocate-run_map = refl

-- The byte 8 is in the middle of no ladder: its block is not counted.
total_used-gap_map : total_used 3 (255 ∷ 8 ∷ 0 ∷ []) ≡ 8
unfolding total_used run_length
total_used-gap_map = refl

bit_at-gap_map : bit_at gap_map 10 ≡ false
unfolding bit_at has_bit
bit_at-gap_map = refl

allocate_first_example :
    (0 < 11)
    × (11 ≤ 8 * 3)
    × (bit_at gap_map 10 ≡ false)
    × ((11 ≤ 8 + 1) ⊎ (bit_at gap_map 8 ≡ true))
allocate_first_example = allocate_first 3 gap_map 11 gap_map' 8 allocate-gap_map

bit_at-allocate_example : bit_at gap_map' 10 ≡ (11 == 10 + 1 || bit_at gap_map 10)
bit_at-allocate_example =
    bit_at-allocate 3 gap_map 11 gap_map' 10 gap_map-IsMap (omega arith) allocate-gap_map

free_leaks_example : bit_at (free 8 eighth_map') 7 ≡ true
free_leaks_example =
    free_leaks 1 eighth_map 8 eighth_map' eighth_map-IsMap (omega arith) allocate-eighth_map refl
