-- ===== src/Editor/Rows.antt =====
-- What moving the rows of the line editor up or down makes of them (edlin.cpp).
use ikan_osv5_student.Prelude.{
  ◌++◌, ℕ, zero, suc, ◌+◌, ◌-◌, ◌≤◌, ◌<◌, ◌≡◌, refl, sym, ap, ap₂, ◌∙◌, List, [], ◌∷◌, ◌++◌, arith,
  length, get_or, set, take, drop, get_or-set_self, get_or-set_ne, length-set,
}
use ikan_osv5_student.Editor.{insert_row, shift_up, shift_down}

pub length-shift_up : (n i : ℕ) (rows : List (List ℕ)) → length (shift_up n i rows) ≡ length rows
unfolding shift_up
length-shift_up zero i rows = refl
length-shift_up (suc n) i rows =
    length-shift_up n (suc i) (set rows i (get_or rows (suc i) []))
    ∙ length-set rows i (get_or rows (suc i) [])

shift_up-cons :
    (n i : ℕ) (row : List ℕ) (rows : List (List ℕ))
    → shift_up n (suc i) (row ∷ rows) ≡ row ∷ shift_up n i rows
unfolding shift_up
shift_up-cons zero i row rows = refl
shift_up-cons (suc n) i row rows = shift_up-cons n (suc i) row (set rows i (get_or rows (suc i) []))

take-shift_up_first :
    (n : ℕ) (row : List ℕ) (rows : List (List ℕ))
    → n ≤ length rows
    → take n (shift_up n 0 (row ∷ rows)) ≡ take n rows
unfolding shift_up
take-shift_up_first zero row rows h = refl
take-shift_up_first (suc n) row [] h = absurd (omega arith)
take-shift_up_first (suc n) row (next ∷ rows) h =
    ap (take (suc n)) (shift_up-cons n 0 next (next ∷ rows))
    ∙ ap (◌∷◌ next) (take-shift_up_first n next rows (omega arith))

-- The rows from `k` on move up by one, over the row at `k`.
pub take-shift_up :
    (k n last : ℕ) (rows : List (List ℕ))
    → last ≡ k + n
    → last < length rows
    → take last (shift_up n k rows)
      ≡ take k (take (suc last) rows) ++ drop (suc k) (take (suc last) rows)
take-shift_up k n last [] e h = absurd (omega arith)
take-shift_up zero n last (row ∷ rows) e h =
    let same : last ≡ n = omega arith in
    ap (λ m. take m (shift_up n 0 (row ∷ rows))) same
    ∙ take-shift_up_first n row rows (omega arith)
    ∙ ap (λ m. take m rows) (sym same)
take-shift_up (suc k) n zero (row ∷ rows) e h = absurd (omega arith)
take-shift_up (suc k) n (suc last) (row ∷ rows) e h =
    ap (take (suc last)) (shift_up-cons n k row rows)
    ∙ ap (◌∷◌ row) (take-shift_up k n last rows (omega arith) (omega arith))

length-shift_down : (n i : ℕ) (rows : List (List ℕ)) → length (shift_down n i rows) ≡ length rows
unfolding shift_down
length-shift_down zero i rows = refl
length-shift_down (suc n) i rows =
    length-shift_down n (i - 1) (set rows i (get_or rows (i - 1) []))
    ∙ length-set rows i (get_or rows (i - 1) [])

shift_down_step :
    (n i : ℕ) (rows : List (List ℕ))
    → shift_down (suc n) (suc i) rows ≡ shift_down n i (set rows (suc i) (get_or rows i []))
unfolding shift_down
shift_down_step n i rows =
    let less : suc i - 1 ≡ i = omega arith in
    ap (λ m. shift_down n m (set rows (suc i) (get_or rows m []))) less

shift_down-cons :
    (n i : ℕ) (row : List ℕ) (rows : List (List ℕ))
    → n ≤ i
    → shift_down n (suc i) (row ∷ rows) ≡ row ∷ shift_down n i rows
unfolding shift_down
shift_down-cons zero i row rows h = refl
shift_down-cons (suc n) zero row rows h = absurd (omega arith)
shift_down-cons (suc n) (suc i) row rows h =
    shift_down_step n (suc i) (row ∷ rows)
    ∙ shift_down-cons n i row (set rows (suc i) (get_or rows i [])) (omega arith)
    ∙ ap (◌∷◌ row) (sym (shift_down_step n i rows))

get_or-shift_down_above :
    (n i j : ℕ) (rows : List (List ℕ))
    → i < j
    → get_or (shift_down n i rows) j [] ≡ get_or rows j []
unfolding shift_down
get_or-shift_down_above zero i j rows h = refl
get_or-shift_down_above (suc n) i j rows h =
    get_or-shift_down_above n (i - 1) j (set rows i (get_or rows (i - 1) [])) (omega arith)
    ∙ get_or-set_ne rows i j (get_or rows (i - 1) []) [] (λ e. omega arith)

take_last :
    (n : ℕ) (rows : List (List ℕ))
    → n < length rows
    → take (suc n) rows ≡ take n rows ++ get_or rows n [] ∷ []
take_last n [] h = absurd (omega arith)
take_last zero (row ∷ rows) h = refl
take_last (suc n) (row ∷ rows) h = ap (◌∷◌ row) (take_last n rows (omega arith))

take-set_above :
    (n : ℕ) (rows : List (List ℕ)) (v : List ℕ) → take n (set rows (suc n) v) ≡ take n rows
take-set_above zero rows v = refl
take-set_above (suc n) [] v = refl
take-set_above (suc n) (row ∷ rows) v = ap (◌∷◌ row) (take-set_above n rows v)

-- The rows from the first on move down by one, and a line takes the first place.
take-shift_down_first :
    (n : ℕ) (line : List ℕ) (rows : List (List ℕ))
    → n < length rows
    → take (suc n) (set (shift_down n n rows) 0 line) ≡ line ∷ take n rows
unfolding shift_down
take-shift_down_first n line [] h = absurd (omega arith)
take-shift_down_first zero line (row ∷ rows) h = refl
take-shift_down_first (suc n) line (row ∷ rows) h =
    let all = row ∷ rows in
    let moved = set all (suc n) (get_or all n []) in
    let result = set (shift_down n n moved) 0 line in
    let long : length result ≡ length all =
      length-set (shift_down n n moved) 0 line
      ∙ length-shift_down n n moved
      ∙ length-set all (suc n) (get_or all n []) in
    let bound : suc n < length result = omega arith in
    let short : n < length moved = omega (arith, length-set all (suc n) (get_or all n [])) in
    let at : get_or result (suc n) [] ≡ get_or all n [] =
      get_or-set_ne (shift_down n n moved) 0 (suc n) line [] (λ e. omega arith)
      ∙ get_or-shift_down_above n n (suc n) moved (omega arith)
      ∙ get_or-set_self all (suc n) (get_or all n []) [] h in
    ap (λ m. take (suc (suc n)) (set m 0 line)) (shift_down_step n n all)
    ∙ take_last (suc n) result bound
    ∙ ap₂ (λ a b. a ++ b ∷ [])
        (take-shift_down_first n line moved short
          ∙ ap (◌∷◌ line) (take-set_above n all (get_or all n [])))
        at
    ∙ ap (◌∷◌ line) (sym (take_last n all (omega arith)))

-- A line put at `k` into the first `total` rows moves the ones from `k` on down by one.
pub take-insert_row :
    (k total : ℕ) (line : List ℕ) (rows : List (List ℕ))
    → k ≤ total
    → total < length rows
    → take (suc total) (insert_row k total line rows)
      ≡ take k (take total rows) ++ line ∷ drop k (take total rows)
unfolding insert_row
take-insert_row k total line [] h l = absurd (omega arith)
take-insert_row zero total line (row ∷ rows) h l =
    let all : total - 0 ≡ total = omega arith in
    ap (λ n. take (suc total) (set (shift_down n total (row ∷ rows)) 0 line)) all
    ∙ take-shift_down_first total line (row ∷ rows) l
take-insert_row (suc k) zero line (row ∷ rows) h l = absurd (omega arith)
take-insert_row (suc k) (suc total) line (row ∷ rows) h l =
    let less : suc total - suc k ≡ total - k = omega arith in
    ap (λ n. take (suc (suc total)) (set (shift_down n (suc total) (row ∷ rows)) (suc k) line)) less
    ∙ ap (λ m. take (suc (suc total)) (set m (suc k) line))
        (shift_down-cons (total - k) total row rows (omega arith))
    ∙ ap (◌∷◌ row) (take-insert_row k total line rows (omega arith) (omega arith))

pub length-insert_row :
    (k total : ℕ) (line : List ℕ) (rows : List (List ℕ))
    → length (insert_row k total line rows) ≡ length rows
unfolding insert_row
length-insert_row k total line rows =
    length-set (shift_down (total - k) total rows) k line ∙ length-shift_down (total - k) total rows
