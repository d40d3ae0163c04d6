-- ===== src/Compiler/Symbols.antt =====
-- The symbol table of cc.cpp.
pub mod Slots
use ikan_osv5_student.Prelude.{
  Bool, true, ◌||◌, ℕ, suc, ◌+◌, ◌-◌, ◌*◌, Option, none, some, List, [], ◌∷◌, ◌++◌, ltb,
  if◌then◌else◌, length, get_or,
}
use ikan_osv5_student.Libc.Strings.{same_text}
use ikan_osv5_student.Assembler.Operands.{negative, w32}
use ikan_osv5_student.Compiler.Lexer.{
  TokenType, Message, Source, complain, int, void, undefined_symbol, too_many_variables,
}

pub record SymbolEntry : Type 0 where
  pub name : List ℕ
  pub offset : ℕ
  pub kind : TokenType

abbrev pub no_symbol : SymbolEntry
no_symbol = record { name = []; offset = 0; kind = int }

-- What the parser changes: the lexer's state, the symbol table and the names of the data section.
pub record Parser : Type 0 where
  pub source : Source
  pub symbols : List SymbolEntry
  pub data_symbols : List (List ℕ)

abbrev pub max_symbols : ℕ
max_symbols = 64

abbrev pub report : Message → Parser → Parser
report m p = record p { source = complain m p.source }

-- Something was written behind the end of an array, where the test says so.
abbrev pub overrun_if : Bool → Parser → Parser
overrun_if test p = record p { source = record p.source { overrun = test || p.source.overrun } }

-- `- (symbolTableCount + 1) * 4` as an `int`.
abbrev pub slot : ℕ → ℕ
slot n = negative ((n + 1) * 4)

-- With MAX_SYMBOLS symbols the code complains and writes behind the array.
unfoldable pub add_symbol : List ℕ → TokenType → Parser → Parser
add_symbol symbol_name symbol_type p =
    let new : SymbolEntry = record {
      name = symbol_name;
      offset = slot (length p.symbols);
      kind = symbol_type;
    } in
    let q =
      if ltb (length p.symbols) max_symbols
      then p
      else overrun_if true (report too_many_variables p) in
    record q { symbols = p.symbols ++ new ∷ [] }

-- The loop of the lookups.
unfoldable pub symbol_index : List ℕ → ℕ → List SymbolEntry → Option ℕ
symbol_index symbol_name i [] = none
symbol_index symbol_name i (e ∷ rest) =
    let later = symbol_index symbol_name (suc i) rest in
    if same_text e.name symbol_name then some i else later

unfoldable pub get_symbol_type : List ℕ → Parser → TokenType × Parser
get_symbol_type symbol_name p = elim (symbol_index symbol_name 0 p.symbols) [
  | none ↦ (void, report undefined_symbol p)
  | some i ↦ ((get_or p.symbols i no_symbol).kind, p)
]

-- A name that is not in the table is added as an `int`.
unfoldable pub get_symbol_offset : List ℕ → Parser → ℕ × Parser
get_symbol_offset symbol_name p = elim (symbol_index symbol_name 0 p.symbols) [
  | none ↦
      let q = add_symbol symbol_name int p in
      ((get_or q.symbols (length q.symbols - 1) no_symbol).offset, q)
  | some i ↦ ((get_or p.symbols i no_symbol).offset, p)
]
