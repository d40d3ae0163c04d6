-- ===== src/Compiler/Symbols/Slots.antt =====
-- The stack slots of variables (cc.cpp): different names get different slots.
use ikan_osv5_student.Prelude.{
  ltb, append_assoc, ℕ, suc, ◌+◌, ◌-◌, ◌^◌, ◌≤◌, ◌<◌, ◌≡◌, refl, sym, ap, ap₂, ◌∙◌, ◌≢◌, inl, inr,
  true, none, some, List, [], ◌∷◌, ◌++◌, arith, ◌==◌, length, get_or, length-append, Bool-cases,
  Option-cases,
}
use ikan_osv5_student.Libc.Strings.{same_text, same_text_refl}
use ikan_osv5_student.Compiler.Lexer.{TokenType, int}
use ikan_osv5_student.Compiler.Symbols.{
  max_symbols, SymbolEntry, no_symbol, Parser, slot, add_symbol, symbol_index, get_symbol_type,
  get_symbol_offset,
}

same_text-eq : (a b : List ℕ) → same_text a b ≡ true → a ≡ b
unfolding same_text
same_text-eq [] [] h = refl
same_text-eq [] (d ∷ b) h = absurd (ground arith)
same_text-eq (c ∷ a) [] h = absurd (ground arith)
same_text-eq (c ∷ a) (d ∷ b) h = elim (Bool-cases (c == d)) [
  | inl same ↦
      let heads : c ≡ d = ground arith in
      let tails : same_text a b ≡ true = ground arith in ap₂ (◌∷◌) heads (same_text-eq a b tails)
  | inr differs ↦ absurd (ground arith)
]

-- Entry `i` of the table has slot `i`.
unfoldable pub IsStack : ℕ → List SymbolEntry → Type 0
IsStack i [] = Unit
IsStack i (e ∷ rest) = (e.offset ≡ slot i) × IsStack (suc i) rest

pub IsStack-append :
    (i : ℕ) (table : List SymbolEntry) (e : SymbolEntry)
    → IsStack i table
    → e.offset ≡ slot (i + length table)
    → IsStack i (table ++ e ∷ [])
unfolding IsStack
IsStack-append i [] e s h = (h ∙ ap slot (omega arith), tt)
IsStack-append i (f ∷ table) e s h =
    (s.0, IsStack-append (suc i) table e s.1 (h ∙ ap slot (omega arith)))

-- The entry of a table at an index counted from `n`.
symbol_index-some :
    (name : List ℕ) (n i : ℕ) (table : List SymbolEntry)
    → symbol_index name n table ≡ some i
    → IsStack n table
    → (k : ℕ) × (i ≡ n + k)
      × (k < length table)
      × ((get_or table k no_symbol).name ≡ name)
      × ((get_or table k no_symbol).offset ≡ slot i)
unfolding symbol_index IsStack
symbol_index-some name n i [] h s = absurd (ground arith)
symbol_index-some name n i (e ∷ table) h s = elim (Bool-cases (same_text e.name name)) [
  | inl same ↦
      let first : i ≡ n = ground arith in
      (0, omega arith, omega arith, same_text-eq e.name name same, s.0 ∙ ap slot (sym first))
  | inr differs ↦
      let later : symbol_index name (suc n) table ≡ some i = ground arith in
      let (k, at, inside, called, placed) = symbol_index-some name (suc n) i table later s.1 in
      (suc k, omega arith, omega arith, called, placed)
]

symbol_index-append :
    (name : List ℕ) (n i : ℕ) (table : List SymbolEntry) (e : SymbolEntry)
    → symbol_index name n table ≡ some i
    → symbol_index name n (table ++ e ∷ []) ≡ some i
unfolding symbol_index
symbol_index-append name n i [] e h = absurd (ground arith)
symbol_index-append name n i (f ∷ table) e h =
    ground (arith, symbol_index-append name (suc n) i table e)

symbol_index-append_new :
    (n : ℕ) (table : List SymbolEntry) (e : SymbolEntry)
    → symbol_index e.name n table ≡ none
    → symbol_index e.name n (table ++ e ∷ []) ≡ some (n + length table)
unfolding symbol_index
symbol_index-append_new n [] e h = ground (arith, same_text_refl e.name)
symbol_index-append_new n (f ∷ table) e h = elim (Bool-cases (same_text f.name e.name)) [
  | inl same ↦ absurd (ground arith)
  | inr differs ↦
      rw (differs, symbol_index)
        (symbol_index-append_new (suc n) table e (ground arith) ∙ ap some (omega arith))
]

get_or-append_at :
    (table : List SymbolEntry) (e : SymbolEntry) (rest : List SymbolEntry)
    → get_or (table ++ e ∷ rest) (length table) no_symbol ≡ e
get_or-append_at [] e rest = refl
get_or-append_at (f ∷ table) e rest = get_or-append_at table e rest

get_or-append_last :
    (table : List SymbolEntry) (e : SymbolEntry)
    → get_or (table ++ e ∷ []) (length (table ++ e ∷ []) - 1) no_symbol ≡ e
get_or-append_last table e =
    let n : length (table ++ e ∷ []) - 1 ≡ length table =
      omega (arith, length-append {A = SymbolEntry} table (e ∷ [])) in
    rw n (get_or-append_at table e [])

-- What a lookup leaves: the name is in the table, in the slot that was returned.
pub record IsPlaced (name : List ℕ) (before : List SymbolEntry) (offset : ℕ) (after : Parser)
    (i : ℕ) : Type 0 where
  pub found : symbol_index name 0 after.symbols ≡ some i
  pub inside : i < length after.symbols
  pub placed : offset ≡ slot i
  pub stack : IsStack 0 after.symbols
  pub grown : length after.symbols ≤ length before + 1
  pub kept :
      (other : List ℕ) (j : ℕ)
      → symbol_index other 0 before ≡ some j
      → symbol_index other 0 after.symbols ≡ some j

pub get_symbol_offset_places :
    (name : List ℕ) (p : Parser)
    → IsStack 0 p.symbols
    → (i : ℕ) × IsPlaced name p.symbols (get_symbol_offset name p).0 (get_symbol_offset name p).1 i
unfolding get_symbol_offset add_symbol
get_symbol_offset_places name p s = elim (Option-cases (symbol_index name 0 p.symbols)) [
  | inl unknown ↦
      let new : SymbolEntry = record {
        name = name;
        offset = slot (length p.symbols);
        kind = int;
      } in
      let n : length (p.symbols ++ new ∷ []) ≡ length p.symbols + 1 =
        length-append {A = SymbolEntry} p.symbols (new ∷ []) in
      (
        length p.symbols,
        rw (unknown, get_symbol_offset)
            (record {
              found = symbol_index-append_new 0 p.symbols new unknown ∙ ap some (omega arith);
              inside = omega arith;
              placed = ap (λ e. e.offset) (get_or-append_last p.symbols new);
              stack = IsStack-append 0 p.symbols new s (ap slot (omega arith));
              grown = omega arith;
              kept = λ other j h. symbol_index-append other 0 j p.symbols new h;
            }),
      )
  | inr (i, known) ↦
      let (k, at, within, called, placed) = symbol_index-some name 0 i p.symbols known s in
      let same : i ≡ k = omega arith in
      (
        i,
        rw (known, get_symbol_offset)
            (record {
              found = known;
              inside = omega arith;
              placed = ap (λ j. (get_or p.symbols j no_symbol).offset) same ∙ placed;
              stack = s;
              grown = omega arith;
              kept = λ other j h. h;
            }),
      )
]

slot_distinct : (i j : ℕ) → i < 2 ^ 29 → j < 2 ^ 29 → slot i ≡ slot j → i ≡ j
slot_distinct i j a b e = omega arith

get_symbol_offset_fits :
    (name : List ℕ) (p : Parser)
    → length p.symbols < max_symbols
    → (get_symbol_offset name p).1.source ≡ p.source
unfolding get_symbol_offset add_symbol
get_symbol_offset_fits name p room = elim (Option-cases (symbol_index name 0 p.symbols)) [
  | inl unknown ↦
      let free : ltb (length p.symbols) max_symbols ≡ true = ground arith in
      rw (unknown, get_symbol_offset) (rw free refl)
  | inr (i, known) ↦ rw (known, get_symbol_offset) refl
]

-- In a table with room for two more of its 64 symbols, in which each entry has the slot of its
-- index, two different names get different stack offsets, new ones or old; the table stays so,
-- within its 64 entries, and there is no complaint.
pub get_symbol_offset_distinct :
    (a b : List ℕ) (p : Parser)
    → IsStack 0 p.symbols
    → length p.symbols + 2 ≤ max_symbols
    → a ≢ b
    → ((get_symbol_offset a p).0 ≢ (get_symbol_offset b (get_symbol_offset a p).1).0)
      × IsStack 0 (get_symbol_offset b (get_symbol_offset a p).1).1.symbols
      × (length (get_symbol_offset b (get_symbol_offset a p).1).1.symbols ≤ max_symbols)
      × ((get_symbol_offset b (get_symbol_offset a p).1).1.source ≡ p.source)
get_symbol_offset_distinct a b p s room differ =
    let (i, first) = get_symbol_offset_places a p s in
    let (j, second) = get_symbol_offset_places b (get_symbol_offset a p).1 first.stack in
    let last : List SymbolEntry = (get_symbol_offset b (get_symbol_offset a p).1).1.symbols in
    let (k, at, k_inside, called_a, placed_a) =
      symbol_index-some a 0 i last (second.kept a i first.found) second.stack in
    let (l, at', l_inside, called_b, placed_b) =
      symbol_index-some b 0 j last second.found second.stack in
    let i_small : i < 2 ^ 29 = omega (arith, first.inside, first.grown) in
    let j_small : j < 2 ^ 29 = omega (arith, second.inside, second.grown, first.grown) in
    (
      λ same.
          let slots : slot i ≡ slot j = sym first.placed ∙ (same ∙ second.placed) in
          let indices : i ≡ j = slot_distinct i j i_small j_small slots in
          let k_l : k ≡ l = omega arith in
          differ (sym called_a ∙ (ap (λ n. (get_or last n no_symbol).name) k_l ∙ called_b)),
      second.stack,
      omega (arith, first.grown, second.grown),
      get_symbol_offset_fits b (get_symbol_offset a p).1 (omega (arith, first.grown))
          ∙ get_symbol_offset_fits a p (omega arith),
    )

-- A name that is asked for its offset before it is added, as in a declaration with an initial
-- value, has the type `int` afterwards, whatever type it is added with.
get_symbol_type-int :
    (name : List ℕ) (kind : TokenType) (p : Parser)
    → symbol_index name 0 p.symbols ≡ none
    → (get_symbol_type name (add_symbol name kind (get_symbol_offset name p).1)).0 ≡ int
unfolding get_symbol_type get_symbol_offset add_symbol
get_symbol_type-int name kind p unknown =
    let first : SymbolEntry = record {
      name = name;
      offset = slot (length p.symbols);
      kind = int;
    } in
    let table : List SymbolEntry = p.symbols ++ first ∷ [] in
    let second : SymbolEntry = record { name = name; offset = slot (length table); kind = kind } in
    let n : 0 + length p.symbols ≡ length p.symbols = omega arith in
    let found : symbol_index name 0 (table ++ second ∷ []) ≡ some (length p.symbols) =
      symbol_index-append name 0 (length p.symbols) table second
        (symbol_index-append_new 0 p.symbols first unknown ∙ ap some n) in
    let entry : get_or (table ++ second ∷ []) (length p.symbols) no_symbol ≡ first =
      ap (λ l. get_or l (length p.symbols) no_symbol)
        (append_assoc p.symbols (first ∷ []) (second ∷ []))
      ∙ get_or-append_at p.symbols first (second ∷ []) in
    rw (unknown, get_symbol_offset) (rw (found, get_symbol_type) (ap (λ e. e.kind) entry))
