-- ===== src/Compiler/Statements/Slots.antt =====
-- What the statements of cc.cpp do to the code and to the symbol table: the relation and its lemmas for
-- steps of the parser.
use mathlib.Core.Path.{subst}
use ikan_osv5_student.Prelude.{
  leb, ℕ, zero, suc, ◌≡◌, ap, ◌∙◌, inl, inr, Bool, true, false, Option, none, some, List, ◌++◌,
  arith, if◌then◌else◌, length, append_assoc, Bool-cases, Option-cases,
}
use ikan_osv5_student.Compiler.Lexer.{
  TokenType, Message, is_plus, is_number, identifier, number, unexpected_token,
}
use ikan_osv5_student.Compiler.Symbols.{
  overrun_if, Parser, report, slot, add_symbol, get_symbol_offset,
}
use ikan_osv5_student.Compiler.Symbols.Slots.{IsStack, IsStack-append, get_symbol_offset_places}
use ikan_osv5_student.Compiler.Expressions.{
  max_expr_code, primary_value_size, primary_location_size, ExprInfo, Parsed, next, is_data,
  stack_location, mov_line, add_line, operand_after_plus, parse_additions, parse_primary,
  chain_result, parse_expression_info, parsed, endless, unset,
}
use ikan_osv5_student.Compiler.Statements.{
  ◌>>=◌, Compilation, at_token, with_parser, advance, require, require_token, expect_token,
  emit_assembly, expression_of, expression, location,
}

-- What holds of a result, if there is one.
unfoldable pub Holds : {A : Type 0} → (A → Type 0) → Option A → Type 0
Holds P none = Unit
Holds P (some a) = P a

pub Holds-bind :
    {A B : Type 0} (P : A → Type 0) (Q : B → Type 0) (r : Option A) (f : A → Option B)
    → Holds P r
    → ((a : A) → P a → Holds Q (f a))
    → Holds Q (r >>= f)
unfolding Holds
Holds-bind P Q none f h k = tt
Holds-bind P Q (some a) f h k = k a h

pub Holds-if :
    {A : Type 0} (P : A → Type 0) (b : Bool) (r s : Option A)
    → Holds P r
    → Holds P s
    → Holds P (if b then r else s)
Holds-if P true r s x y = x
Holds-if P false r s x y = y

-- The code starts with `start`, and entry `i` of the symbol table has slot `i`.
pub record Grows (start : List ℕ) (c : Compilation) : Type 0 where
  pub more : List ℕ
  pub appended : c.asm_code ≡ start ++ more
  pub stack : IsStack 0 c.parser.symbols

module _ {start : List ℕ} where
  pub with_parser-Grows :
      (p : Parser) (c : Compilation)
      → IsStack 0 p.symbols
      → Grows start c
      → Grows start (with_parser p c)
  with_parser-Grows p c s g = record { more = g.more; appended = g.appended; stack = s }

  pub require-Grows :
      (ok : Bool) (m : Message) (c : Compilation) → Grows start c → Grows start (require ok m c)
  unfolding require
  require-Grows true m c g = g
  require-Grows false m c g = with_parser-Grows (report m c.parser) c g.stack g

  pub advance-Grows : (c : Compilation) → Grows start c → Grows start (advance c)
  advance-Grows c g = with_parser-Grows (next c.parser) c g.stack g

  pub expect-Grows :
      (t : TokenType) (c : Compilation) → Grows start c → Grows start (expect_token t c)
  expect-Grows t c g =
      advance-Grows (require_token t unexpected_token c)
        (require-Grows (at_token t c) unexpected_token c g)

  pub emit-Grows :
      (text : List ℕ) (c : Compilation) → Grows start c → Grows start (emit_assembly text c)
  emit-Grows text c g = record {
    more = g.more ++ text;
    appended = ap (λ a. a ++ text) g.appended ∙ append_assoc start g.more text;
    stack = g.stack;
  }

  pub location-Grows :
      (name : List ℕ) (c : Compilation) → Grows start c → Grows start (location name c).1
  location-Grows name c g =
      with_parser-Grows (get_symbol_offset name c.parser).1 c
        (get_symbol_offset_places name c.parser g.stack).1.stack g

pub IsStack-add_symbol :
    (name : List ℕ) (kind : TokenType) (p : Parser)
    → IsStack 0 p.symbols
    → IsStack 0 (add_symbol name kind p).symbols
unfolding add_symbol
IsStack-add_symbol name kind p s =
    IsStack-append 0 p.symbols
      (record { name = name; offset = slot (length p.symbols); kind = kind }) s
      (ap slot (omega arith))

operand_after_plus-IsStack :
    (p : Parser) → IsStack 0 p.symbols → IsStack 0 (operand_after_plus p).symbols
unfolding operand_after_plus
operand_after_plus-IsStack p s = elim (Bool-cases (is_number (next p).source.token)) [
  | inl hit ↦ rw hit s
  | inr miss ↦ rw miss s
]

HasStack : List ℕ × Parser → Type 0
HasStack r = IsStack 0 r.1.symbols

parse_additions-IsStack :
    (rounds : ℕ) (code : List ℕ) (p : Parser)
    → IsStack 0 p.symbols
    → Holds HasStack (parse_additions rounds code p)
unfolding parse_additions Holds HasStack
parse_additions-IsStack zero code p s = tt
parse_additions-IsStack (suc rounds) code p s =
    let q = operand_after_plus p in
    let longer = code ++ add_line q.source.value in
    let marked = overrun_if (leb max_expr_code (length longer)) q in
    Holds-if HasStack (is_plus p.source.token) (parse_additions rounds longer (next marked))
      (some (code, p))
      (parse_additions-IsStack rounds longer (next marked) (operand_after_plus-IsStack p s)) s

parse_primary-IsStack :
    (p : Parser) → IsStack 0 p.symbols → Holds (λ r. IsStack 0 r.2.symbols) (parse_primary p)
unfolding parse_primary Holds
parse_primary-IsStack p s =
    let name = p.source.value in
    let (offset, q) = get_symbol_offset name p in
    let in_data = next (overrun_if (leb primary_location_size (length name)) p) in
    let P = λ (r : Bool × List ℕ × Parser). IsStack 0 r.2.symbols in
    elim p.source.token
      as (λ t. Holds P (elim t as (λ u. Option (Bool × List ℕ × Parser)) [
        | number ↦ some (true, name, next (overrun_if (leb primary_value_size (length name)) p))
        | identifier ↦
            if is_data name p.data_symbols
            then some (false, name, in_data)
            else some (false, stack_location offset, next q)
        | _ ↦ none
      ])) [
        | number ↦ s
        | identifier ↦
            Holds-if P (is_data name p.data_symbols) (some (false, name, in_data))
              (some (false, stack_location offset, next q)) s
              (get_symbol_offset_places name p s).1.stack
        | _ ↦ tt
      ]

-- The symbol table behind an expression.
unfoldable StackOf : Parsed → Type 0
StackOf (parsed info p) = IsStack 0 p.symbols
StackOf endless = Unit
StackOf unset = Unit

chain_result-StackOf : (r : Option (List ℕ × Parser)) → Holds HasStack r → StackOf (chain_result r)
unfolding chain_result StackOf Holds HasStack
chain_result-StackOf none h = tt
chain_result-StackOf (some (code, p)) h = h

parse_expression_info-StackOf :
    (rounds : ℕ) (p : Parser) → IsStack 0 p.symbols → StackOf (parse_expression_info rounds p)
unfolding parse_expression_info StackOf Holds
parse_expression_info-StackOf rounds p s =
    let primary = parse_primary-IsStack p s in
    elim (Option-cases (parse_primary p)) [
      | inl none_there ↦ rw (none_there, parse_expression_info, StackOf) tt
      | inr ((immediate, text, q), found) ↦
          let t : IsStack 0 q.symbols = subst (Holds (λ r. IsStack 0 r.2.symbols)) found primary in
          rw (found, parse_expression_info, StackOf)
            (elim (Bool-cases (is_plus q.source.token)) [
              | inl chain ↦
                  rw (chain, StackOf)
                    (chain_result-StackOf (parse_additions rounds (mov_line text) q)
                      (parse_additions-IsStack rounds (mov_line text) q t))
              | inr alone ↦
                  rw (alone, StackOf)
                    (elim (Bool-cases immediate) [
                      | inl yes_it ↦ rw (yes_it, StackOf) t
                      | inr no_it ↦ rw (no_it, StackOf) t
                    ])
            ])
    ]

-- An expression with the state behind it.
unfoldable pub GrowsBehind : List ℕ → ExprInfo × Compilation → Type 0
GrowsBehind start r = Grows start r.1

expression_of-Grows :
    {start : List ℕ} (r : Parsed) (c : Compilation)
    → Grows start c
    → StackOf r
    → Holds (GrowsBehind start) (expression_of r c)
unfolding expression_of Holds StackOf GrowsBehind
expression_of-Grows (parsed info p) c g s = with_parser-Grows p c s g
expression_of-Grows endless c g s = tt
expression_of-Grows unset c g s = tt

pub expression-Grows :
    {start : List ℕ} (rounds : ℕ) (c : Compilation)
    → Grows start c
    → Holds (GrowsBehind start) (expression rounds c)
expression-Grows rounds c g =
    expression_of-Grows (parse_expression_info rounds c.parser) c g
      (parse_expression_info-StackOf rounds c.parser g.stack)
