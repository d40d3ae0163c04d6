-- ===== src/Objects/Table.antt =====
-- What `insertGlobalObjectTableEntry`, `totalOpenFiles` and `closeAllFiles` (file.cpp) do.
use mathlib.Core.Path.{subst}
use ikan_osv5_student.Prelude.{
  sym, ◌∙◌, true, false, ℕ, zero, suc, ◌+◌, ◌-◌, ◌<◌, ◌≤◌, ◌≡◌, ◌≢◌, ◌⊎◌, inl, inr, List, [], ◌∷◌,
  Option, none, some, ◌==◌, if◌then◌else◌, get_or, set, length, arith, refl, Option-cases,
  get_or-set_self, get_or-set_ne, ℕ_discrete, dec_lt,
}
use ikan_osv5_student.Kernel.{
  Kernel, ObjectEntry, done, panicked, global_object_table, max_system_open_files,
}
use ikan_osv5_student.Kernel.Slots.{first_free, first_free-some, first_free_before, first_free-none}
use ikan_osv5_student.Kernel.Locks.{IsFree, lock-free, unlock-held}
use ikan_osv5_student.Objects.Entry.{IsEntryOf, fill_object-IsEntryOf}
use ikan_osv5_student.Objects.{
  is_unopened, no_object, ObjectRequest, fill_object, insert_global_object_table_entry,
  total_open_files, close_entries, close_all_files,
}

abbrev pub free_entry : Kernel → Option ℕ
free_entry k = first_free is_unopened (max_system_open_files - 1) 0 k.objects

pub insert-some :
    (r : ObjectRequest) (k : Kernel) (i : ℕ)
    → IsFree global_object_table k.semaphores
    → free_entry k ≡ some i
    → insert_global_object_table_entry r k
      ≡ done i
          (record k { objects = set k.objects i (fill_object (get_or k.objects i no_object) r) })
unfolding insert_global_object_table_entry
insert-some r k i f e = ground (
  arith,
  lock-free global_object_table k.semaphores f,
  unlock-held global_object_table k.semaphores f,
)

insert-none :
    (r : ObjectRequest) (k : Kernel)
    → IsFree global_object_table k.semaphores
    → free_entry k ≡ none
    → insert_global_object_table_entry r k ≡ panicked k
unfolding insert_global_object_table_entry
insert-none r k f e = ground (
  arith,
  lock-free global_object_table k.semaphores f,
  unlock-held global_object_table k.semaphores f,
)

-- With the lock of the table free, an insertion fills the first entry that no process has open,
-- leaves every other entry alone and leaves the lock free.
insert-done :
    (r : ObjectRequest) (k k' : Kernel) (i j : ℕ)
    → IsFree global_object_table k.semaphores
    → insert_global_object_table_entry r k ≡ done i k'
    → (i < max_system_open_files - 1)
      × (i < length k.objects)
      × ((get_or k.objects i no_object).opened_by_pid ≡ 0)
      × ((i ≤ j) ⊎ ((get_or k.objects j no_object).opened_by_pid ≢ 0))
      × (get_or k'.objects j no_object ≡ (
          if i == j
          then fill_object (get_or k.objects j no_object) r
          else get_or k.objects j no_object))
      × (k'.semaphores ≡ k.semaphores)
insert-done r k k' i j f h = elim (Option-cases (free_entry k)) [
  | inl e ↦ absurd (ground (arith, insert-none r k f e))
  | inr (n, e) ↦
      let (m, a, b, c, g) =
        first_free-some is_unopened (max_system_open_files - 1) 0 k.objects n no_object e
          (omega arith) in
      let same : i ≡ n = ground (arith, insert-some r k n f e) in
      let state : k'
          ≡ record k { objects = set k.objects n (fill_object (get_or k.objects n no_object) r) } =
        ground (arith, insert-some r k n f e) in
      let at_slot : i ≡ m = omega arith in
      (
        omega arith,
        omega arith,
        rw at_slot (ground arith),
        elim (dec_lt (0 + j) n) [
          | yes l ↦ inr (
              ground (
                arith,
                first_free_before is_unopened (max_system_open_files - 1) 0 k.objects n j no_object
                    e l,
              ))
          | no nl ↦ inl (omega arith)
        ],
        rw state (elim (ℕ_discrete n j) [
          | yes q ↦ rw (← q) (
              ground (
                arith,
                get_or-set_self k.objects n (fill_object (get_or k.objects n no_object) r)
                    no_object,
              ))
          | no nq ↦ ground (
            arith,
            get_or-set_ne k.objects n j (fill_object (get_or k.objects n no_object) r) no_object nq,
          )
        ]),
        rw state,
      )
]

-- What an insertion into the entry `i` leaves, seen at the entry `j`.
pub record IsInsertion (r : ObjectRequest) (k k' : Kernel) (i j : ℕ) : Type 0 where
  pub inside : i < max_system_open_files - 1
  pub unopened : (get_or k.objects i no_object).opened_by_pid ≡ 0
  pub first : (i ≤ j) ⊎ ((get_or k.objects j no_object).opened_by_pid ≢ 0)
  pub entry : IsEntryOf r (get_or k.objects i no_object) (get_or k'.objects i no_object)
  pub others : (i ≡ j) ⊎ (get_or k'.objects j no_object ≡ get_or k.objects j no_object)
  pub lock_free : k'.semaphores ≡ k.semaphores

insert-IsInsertion :
    (r : ObjectRequest) (k k' : Kernel) (i j : ℕ)
    → IsFree global_object_table k.semaphores
    → insert_global_object_table_entry r k ≡ done i k'
    → IsInsertion r k k' i j
insert-IsInsertion r k k' i j f h =
    let (inside, in_table, unopened, first, entry, free_again) = insert-done r k k' i j f h in
    let at_slot = (insert-done r k k' i i f h).4 in
    let old = get_or k.objects i no_object in
    let here : (i == i) ≡ true = ground arith in
    let filled : get_or k'.objects i no_object ≡ fill_object old r = at_slot ∙ rw here refl in
    record {
      inside = inside;
      unopened = unopened;
      first = first;
      entry = subst (IsEntryOf r old) (sym filled) (fill_object-IsEntryOf r old);
      others = elim (ℕ_discrete i j) [
        | yes same ↦ inl same
        | no other ↦
            let elsewhere : (i == j) ≡ false = ground arith in inr (entry ∙ rw elsewhere refl)
      ];
      lock_free = free_again;
    }

-- With the lock free and a table of 64 entries, an insertion either fills the first entry that no
-- process has open, each field with what was asked for, except the three counters, which stay, and
-- leaves every other entry and the lock as they were, or it panics with the state unchanged, and it
-- panics only if each of the first 63 entries is open.
pub insert_total :
    (r : ObjectRequest) (k : Kernel) (j : ℕ)
    → IsFree global_object_table k.semaphores
    → length k.objects ≡ max_system_open_files
    → j < max_system_open_files - 1
    → ((i : ℕ) × (k' : Kernel) × (insert_global_object_table_entry r k ≡ done i k')
        × IsInsertion r k k' i j)
      ⊎ ((insert_global_object_table_entry r k ≡ panicked k)
          × ((get_or k.objects j no_object).opened_by_pid ≢ 0))
insert_total r k j f l h = elim (Option-cases (free_entry k)) [
  | inl e ↦ inr (
    insert-none r k f e,
    ground
        (arith, first_free-none is_unopened (max_system_open_files - 1) 0 k.objects j no_object e),
  )
  | inr (i, e) ↦
      let inserted = insert-some r k i f e in
      inl (i, _, inserted, insert-IsInsertion r k _ i j f inserted)
]

total-set :
    (l : List ObjectEntry) (i : ℕ) (o : ObjectEntry)
    → i < length l
    → (get_or l i no_object).opened_by_pid ≡ 0
    → (get_or l i no_object).inode ≡ 0
    → o.opened_by_pid ≢ 0
    → total_open_files (set l i o) ≡ total_open_files l + 1
unfolding total_open_files
total-set [] i o h p n q = absurd (omega arith)
total-set (x ∷ l) zero o h p n q = ground arith
total-set (x ∷ l) (suc i) o h p n q = ground (arith, total-set l i o)

-- With the lock free, an insertion for a process number that is not 0, which fills an entry whose
-- inode was 0, adds one to the count of open files.
total_open_files-insert :
    (r : ObjectRequest) (k k' : Kernel) (i : ℕ)
    → IsFree global_object_table k.semaphores
    → insert_global_object_table_entry r k ≡ done i k'
    → r.opened_by_pid ≢ 0
    → (get_or k.objects i no_object).inode ≡ 0
    → total_open_files k'.objects ≡ total_open_files k.objects + 1
unfolding fill_object
total_open_files-insert r k k' i f h p n = elim (Option-cases (free_entry k)) [
  | inl e ↦ absurd (ground (arith, insert-none r k f e))
  | inr (m, e) ↦
      let (a, b, c, d, g, s) = insert-done r k k' i i f h in
      let same : i ≡ m = ground (arith, insert-some r k m f e) in
      let state : k'.objects ≡ set k.objects m (fill_object (get_or k.objects m no_object) r) =
        ground (arith, insert-some r k m f e) in
      rw (state, ← same)
        (total-set k.objects i (fill_object (get_or k.objects i no_object) r) b c n p)
]

get_or-close_entries :
    (pid j : ℕ) (l : List ObjectEntry)
    → get_or (close_entries pid l) j no_object
      ≡ (if (get_or l j no_object).opened_by_pid == pid then no_object else get_or l j no_object)
unfolding close_entries
get_or-close_entries pid j [] = ground arith
get_or-close_entries pid zero (o ∷ l) = refl
get_or-close_entries pid (suc j) (o ∷ l) = get_or-close_entries pid j l

-- With the lock of the table free, closing the files of a process whose number is not 0 zeroes its
-- entries, and no others; afterwards it has none open, and the lock is free again.
close_all_files_lem :
    (pid j : ℕ) (k : Kernel)
    → IsFree global_object_table k.semaphores
    → pid ≢ 0
    → (k' : Kernel) × (close_all_files pid k ≡ done tt k')
      × ((get_or k'.objects j no_object).opened_by_pid ≢ pid)
      × (get_or k'.objects j no_object ≡ (
          if (get_or k.objects j no_object).opened_by_pid == pid
          then no_object
          else get_or k.objects j no_object))
      × (k'.semaphores ≡ k.semaphores)
unfolding close_all_files
close_all_files_lem pid j k f p = (
  record k { objects = close_entries pid k.objects },
  ground (
    arith,
    lock-free global_object_table k.semaphores f,
    unlock-held global_object_table k.semaphores f,
  ),
  rw (get_or-close_entries pid j k.objects) (ground arith),
  get_or-close_entries pid j k.objects,
  refl,
)
