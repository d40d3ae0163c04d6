-- ===== src/Editor/Invariant.antt =====
-- Every operation of the line editor keeps its buffer well formed (edlin.cpp).
use ikan_osv5_student.Prelude.{
  ℕ, suc, ◌-◌, ◌≤◌, ◌≡◌, ◌∙◌, inl, inr, Bool, true, false, ◌||◌, List, [], ◌∷◌, arith, ltb, leb,
  if◌then◌else◌, length, Bool-cases, length-set,
}
use ikan_osv5_student.Libc.Strings.{same_text}
use ikan_osv5_student.Editor.{
  max_lines, Editor, less_one, Reply, delete_text_line, insert_row, Insertion, insert_loop,
  after_insertion, insert_new_lines, edit_row, edit_text_line, done, waiting, outside,
}
use ikan_osv5_student.Editor.Rows.{length-shift_up, length-insert_row}
use ikan_osv5_student.Editor.Bounds.{
  AreRows, IsWellFormed, AreRows-set, AreRows-shift_up, AreRows-insert_row,
}

-- What holds of the value that a reply brings, if it brings one.
unfoldable pub Brings {ℓ} : {A : Type ℓ} → (A → Type 0) → Reply A → Type 0
Brings P (done a) = P a
Brings P waiting = Unit
Brings P outside = Unit

pub delete_text_line-IsWellFormed :
    (line_number : ℕ) (e : Editor) → IsWellFormed e → IsWellFormed (delete_text_line line_number e)
unfolding delete_text_line
delete_text_line-IsWellFormed n e w =
    let total = e.total_lines in
    elim (Bool-cases (ltb n 1 || ltb total n)) [
      | inl hit ↦ rw hit w
      | inr miss ↦
          let least : less_one total ≤ total = ground arith in
          rw miss (record {
            rows = AreRows-shift_up (total - n) (n - 1) e.text_buffer w.rows;
            full = length-shift_up (total - n) (n - 1) e.text_buffer ∙ w.full;
            within = omega (arith, least, w.within);
          })
    ]

IsWellFormedInsertion : Insertion → Type 0
IsWellFormedInsertion i = AreRows i.rows × (length i.rows ≡ max_lines) × (i.total ≤ max_lines)

insert_loop-IsWellFormed :
    (position total : ℕ) (rows typed : List (List ℕ))
    → AreRows rows
    → AreRows typed
    → length rows ≡ max_lines
    → total ≤ max_lines
    → Brings IsWellFormedInsertion (insert_loop position total rows typed)
unfolding insert_loop AreRows Brings IsWellFormedInsertion
insert_loop-IsWellFormed position total rows [] a t l m = tt
insert_loop-IsWellFormed position total rows (line ∷ typed) a t l m =
    elim (Bool-cases (same_text line (b'.' ∷ []))) [
      | inl hit ↦ rw hit (a, l, m)
      | inr miss ↦ rw miss (elim (Bool-cases (leb max_lines total)) [
        | inl hit ↦ rw hit (a, l, m)
        | inr room ↦ rw room (elim (Bool-cases (leb max_lines position)) [
          | inl hit ↦ rw hit tt
          | inr inside ↦ rw inside (
              insert_loop-IsWellFormed (suc position) (suc total)
                (insert_row position total line rows) typed
                (AreRows-insert_row position total line rows a t.0) t.1
                (length-insert_row position total line rows ∙ l) (ground arith))
        ])
      ])
    ]

after_insertion-IsWellFormed :
    (e : Editor) (r : Reply Insertion)
    → Brings IsWellFormedInsertion r
    → Brings (λ s. IsWellFormed s.0) (after_insertion e r)
unfolding Brings IsWellFormedInsertion
after_insertion-IsWellFormed e (done i) h = record { rows = h.0; full = h.1; within = h.2 }
after_insertion-IsWellFormed e waiting h = tt
after_insertion-IsWellFormed e outside h = tt

pub insert_new_lines-IsWellFormed :
    (e : Editor) (typed : List (List ℕ))
    → IsWellFormed e
    → AreRows typed
    → Brings (λ r. IsWellFormed r.0) (insert_new_lines e typed)
unfolding insert_new_lines
insert_new_lines-IsWellFormed e typed w t =
    let position = e.current_line_index in
    after_insertion-IsWellFormed e (insert_loop position e.total_lines e.text_buffer typed)
      (insert_loop-IsWellFormed position e.total_lines e.text_buffer typed w.rows t w.full w.within)

edit_row-IsWellFormed :
    (line_number : ℕ) (e : Editor) (typed : List (List ℕ))
    → line_number ≤ max_lines
    → IsWellFormed e
    → AreRows typed
    → Brings (λ r. IsWellFormed r.0) (edit_row line_number e typed)
unfolding edit_row AreRows Brings
edit_row-IsWellFormed n e [] h w t = tt
edit_row-IsWellFormed n e (line ∷ typed) h w t =
    let bound = w.within in
    record {
      rows = AreRows-set e.text_buffer (n - 1) line w.rows t.0;
      full = length-set e.text_buffer (n - 1) line ∙ w.full;
      within = ground arith;
    }

pub edit_text_line-IsWellFormed :
    (line_number : ℕ) (e : Editor) (typed : List (List ℕ))
    → IsWellFormed e
    → AreRows typed
    → Brings (λ r. IsWellFormed r.0) (edit_text_line line_number e typed)
unfolding edit_text_line Brings
edit_text_line-IsWellFormed n e typed w t = elim (Bool-cases (ltb n 1 || ltb max_lines n)) [
  | inl hit ↦ rw hit w
  | inr miss ↦ rw miss (edit_row-IsWellFormed n e typed (ground arith) w t)
]

pub Brings-if {ℓ} :
    {A : Type ℓ} (P : A → Type 0) (b : Bool) (r s : Reply A)
    → Brings P r
    → Brings P s
    → Brings P (if b then r else s)
Brings-if P true r s x y = x
Brings-if P false r s x y = y
