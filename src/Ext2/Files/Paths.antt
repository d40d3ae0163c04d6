-- ===== src/Ext2/Files/Paths.antt =====
-- The loop of `getInodeFromPath` (fs.cpp) ends.
use ikan_osv5_student.Prelude.{
  ℕ, zero, suc, ◌≤◌, ◌≡◌, Bool, List, [], ◌∷◌, arith, refl, drop, length, length-drop,
}
use ikan_osv5_student.Disk.{Device, Disk}
use ikan_osv5_student.Ext2.Volume.{BlockGroup}
use ikan_osv5_student.Ext2.Files.{
  take_component, follow_path, return_inode_of_file_name, load_inode,
}

length-take_component : (path : List ℕ) → length (take_component path).1 ≤ length path
unfolding take_component
length-take_component [] = omega arith
length-take_component (c ∷ rest) = ground (arith, length-take_component rest)

module _ (d : Device) (g : BlockGroup) (active : Bool)
    (load_file : List ℕ → Disk d → List ℕ × Disk d) where
  -- Following a path takes no more rounds than the path has characters: with that many rounds or
  -- more, the result and the disk are the same.
  pub follow_path-enough :
      (n m current : ℕ) (path : List ℕ) (k : Disk d)
      → length path ≤ n
      → length path ≤ m
      → follow_path d g active load_file n current path k
        ≡ follow_path d g active load_file m current path k
  unfolding follow_path
  follow_path-enough zero zero current [] k hn hm = refl
  follow_path-enough zero (suc m) current [] k hn hm = refl
  follow_path-enough (suc n) zero current [] k hn hm = refl
  follow_path-enough (suc n) (suc m) current [] k hn hm = refl
  follow_path-enough zero m current (c ∷ rest) k hn hm = absurd (omega arith)
  follow_path-enough (suc n) zero current (c ∷ rest) k hn hm = absurd (omega arith)
  follow_path-enough (suc n) (suc m) current (c ∷ rest) k hn hm =
      let path : List ℕ = drop 1 (take_component (c ∷ rest)).1 in
      let short : length path ≤ length rest = omega (
        arith,
        length-drop {A = ℕ} 1 (take_component (c ∷ rest)).1,
        length-take_component (c ∷ rest),
      ) in
      let found =
        return_inode_of_file_name d g active load_file (take_component (c ∷ rest)).0 current k in
      rw
        (
          follow_path-enough n m current rest k (omega arith) (omega arith),
          follow_path-enough n m found.0 [] found.1 (omega arith) (omega arith),
          follow_path-enough n m found.0 path (load_inode d g active load_file found.0 found.1).1
              (omega arith) (omega arith),
        )
        refl
