-- ===== src/Compiler/Statements/Growth.antt =====
-- The code and the symbol table behind the statements of cc.cpp that hold no others.
use ikan_osv5_student.Compiler.Symbols.{
  max_symbols, overrun_if, report, add_symbol, symbol_index, get_symbol_type,
}
use ikan_osv5_student.Prelude.{
  leb, length, ℕ, inl, inr, true, false, not, List, [], ◌∷◌, ◌++◌, ◌==◌, if◌then◌else◌,
  Option-cases,
}
use ikan_osv5_student.Compiler.Lexer.{
  TokenType, int, int_pointer, lparen, rparen, identifier, number, equals, return, semicolon, comma,
  syscall, star, char, string_literal, undefined_symbol, expected_identifier,
  string_literals_only_for_char, expected_number, cannot_dereference_non_pointer,
  expected_identifier_after_star,
}
use ikan_osv5_student.Compiler.Statements.{
  codes, Compilation, token_index, value_of, at_token, with_parser, advance, require, require_token,
  expect_token, emit_assembly, emit_data, expression, load, location, store_line, syscall_call,
  assign_from, declare, declare_text, declare_variable, parse_declaration, parse_assignment,
  store_through, parse_deref_assignment, parse_return_statement, parse_syscall_statement,
}
use ikan_osv5_student.Compiler.Statements.Slots.{
  Holds, Holds-bind, Holds-if, Grows, with_parser-Grows, require-Grows, advance-Grows, expect-Grows,
  emit-Grows, location-Grows, IsStack-add_symbol, GrowsBehind, expression-Grows,
}

module _ {start : List ℕ} where
  syscall_call-Grows :
      (rounds : ℕ) (c : Compilation) → Grows start c → Holds (Grows start) (syscall_call rounds c)
  unfolding syscall_call Holds GrowsBehind
  syscall_call-Grows rounds c g =
      let d = require_token number expected_number (expect_token lparen c) in
      let text = codes "\tmov eax, " ++ (value_of d ++ codes "\n") in
      let e = advance (emit_assembly text d) in
      let at_e : Grows start e = advance-Grows (emit_assembly text d) (
        emit-Grows text d (
          require-Grows (at_token number (expect_token lparen c)) expected_number
            (expect_token lparen c) (expect-Grows lparen c g))) in
      Holds-bind (GrowsBehind start) (Grows start) (expression rounds (expect_token comma e)) _
        (expression-Grows rounds (expect_token comma e) (expect-Grows comma e at_e))
        (λ r1 h1.
          let f = emit_assembly (load "ebx" r1.0) r1.1 in
          let at_f = emit-Grows (load "ebx" r1.0) r1.1 h1 in
          Holds-bind (GrowsBehind start) (Grows start) (expression rounds (expect_token comma f)) _
            (expression-Grows rounds (expect_token comma f) (expect-Grows comma f at_f))
            (λ r2 h2.
              emit-Grows (load "ecx" r2.0 ++ codes "\tpusha\n\tint 0x80\n\tpopa\n") r2.1 h2))

  assign_from-Grows :
      (rounds : ℕ) (name : List ℕ) (c : Compilation)
      → Grows start c
      → Holds (Grows start) (assign_from rounds name c)
  unfolding assign_from Holds GrowsBehind
  assign_from-Grows rounds name c g =
      Holds-if (Grows start) (at_token syscall c) _ _
        (Holds-bind (Grows start) (Grows start) (syscall_call rounds (advance c)) _
          (syscall_call-Grows rounds (advance c) (advance-Grows c g))
          (λ d h.
            let (place, e) = location name d in
            expect-Grows rparen (emit_assembly (store_line place) e)
              (emit-Grows (store_line place) e (location-Grows name d h))))
        (Holds-bind (GrowsBehind start) (Grows start) (expression rounds c) _
          (expression-Grows rounds c g)
          (λ r h.
            let (place, e) = location name r.1 in
            emit-Grows (load "eax" r.0 ++ store_line place) e (location-Grows name r.1 h)))

  pub require_identifier-Grows :
      (c : Compilation)
      → Grows start c
      → Grows start (require_token identifier expected_identifier c)
  require_identifier-Grows c g = require-Grows (at_token identifier c) expected_identifier c g

  declare-Grows :
      (name : List ℕ) (kind : TokenType) (c : Compilation)
      → Grows start c
      → Grows start (declare name kind c)
  declare-Grows name kind c g =
      let d = with_parser (add_symbol name kind c.parser) c in
      expect-Grows semicolon d (
        with_parser-Grows (add_symbol name kind c.parser) c
          (IsStack-add_symbol name kind c.parser g.stack) g)

  declare_text-Grows :
      (name : List ℕ) (kind : TokenType) (c : Compilation)
      → Grows start c
      → Grows start (declare_text name kind c)
  declare_text-Grows name kind c g =
      let is_char = token_index kind == token_index char in
      let d = require is_char string_literals_only_for_char c in
      let h = require-Grows is_char string_literals_only_for_char c g in
      let p = d.parser in
      let q = overrun_if (leb max_symbols (length p.data_symbols)) p in
      let e = with_parser (record q { data_symbols = p.data_symbols ++ name ∷ [] }) d in
      let text = name ++ (codes ":\n    db '" ++ (value_of d ++ codes "'\n\n")) in
      let written : Grows start (emit_data text e) = record {
        more = h.more;
        appended = h.appended;
        stack = h.stack;
      } in
      expect-Grows semicolon (advance (emit_data text e)) (advance-Grows (emit_data text e) written)

  declare_variable-Grows :
      (rounds : ℕ) (kind : TokenType) (c : Compilation)
      → Grows start c
      → Holds (Grows start) (declare_variable rounds kind c)
  unfolding declare_variable Holds
  declare_variable-Grows rounds kind c g =
      let d = require_token identifier expected_identifier c in
      let name = value_of d in
      let e = advance d in
      let at_e = advance-Grows d (require_identifier-Grows c g) in
      let at_f = advance-Grows e at_e in
      Holds-if (Grows start) (not (at_token equals e)) _ _ (declare-Grows name kind e at_e) (
        Holds-if (Grows start) (at_token string_literal (advance e)) _ _
          (declare_text-Grows name kind (advance e) at_f)
          (Holds-bind (Grows start) (Grows start) (assign_from rounds name (advance e)) _
            (assign_from-Grows rounds name (advance e) at_f) (λ h k. declare-Grows name kind h k)))

  pub parse_declaration-Grows :
      (rounds : ℕ) (c : Compilation)
      → Grows start c
      → Holds (Grows start) (parse_declaration rounds c)
  unfolding parse_declaration Holds
  parse_declaration-Grows rounds c g =
      let d = advance c in
      let at_d = advance-Grows c g in
      let at_e = advance-Grows d at_d in
      let after : Compilation = if at_token star d then advance d else d in
      let at_after : Grows start after =
        elim (at_token star d) as (λ b. Grows start (if b then advance d else d)) [
          | true ↦ at_e
          | false ↦ at_d
        ] in
      Holds-if (Grows start) (at_token int c) _ _
        (Holds-if (Grows start) (at_token star d) _ _
          (declare_variable-Grows rounds int_pointer (advance d) at_e)
          (declare_variable-Grows rounds int d at_d))
        (Holds-if (Grows start) (at_token char c) _ _
          (declare_variable-Grows rounds char after at_after) tt)

  pub parse_assignment-Grows :
      (rounds : ℕ) (c : Compilation)
      → Grows start c
      → Holds (Grows start) (parse_assignment rounds c)
  unfolding parse_assignment Holds
  parse_assignment-Grows rounds c g =
      let d = require_token identifier expected_identifier c in
      let e = expect_token equals (advance d) in
      Holds-bind (Grows start) (Grows start) (assign_from rounds (value_of d) e) _
        (assign_from-Grows rounds (value_of d) e
          (expect-Grows equals (advance d) (advance-Grows d (require_identifier-Grows c g))))
        (λ h k. expect-Grows semicolon h k)

  get_symbol_type-Grows :
      (name : List ℕ) (c : Compilation)
      → Grows start c
      → Grows start (with_parser (get_symbol_type name c.parser).1 c)
  unfolding get_symbol_type
  get_symbol_type-Grows name c g = elim (Option-cases (symbol_index name 0 c.parser.symbols)) [
    | inl unknown ↦
        rw (unknown, get_symbol_type)
          (with_parser-Grows (report undefined_symbol c.parser) c g.stack g)
    | inr (i, known) ↦ rw (known, get_symbol_type) (with_parser-Grows c.parser c g.stack g)
  ]

  pub parse_deref_assignment-Grows :
      (rounds : ℕ) (c : Compilation)
      → Grows start c
      → Holds (Grows start) (parse_deref_assignment rounds c)
  unfolding parse_deref_assignment Holds GrowsBehind
  parse_deref_assignment-Grows rounds c g =
      let starred = expect_token star c in
      let d = require_token identifier expected_identifier_after_star starred in
      let name = value_of d in
      let typed = with_parser (get_symbol_type name d.parser).1 d in
      let is_pointer = token_index (get_symbol_type name d.parser).0 == token_index int_pointer in
      let e = require is_pointer cannot_dereference_non_pointer typed in
      let (place, f) = location name e in
      let g' = expect_token equals (advance f) in
      let at_d =
        require-Grows (at_token identifier starred) expected_identifier_after_star starred
          (expect-Grows star c g) in
      let at_e =
        require-Grows is_pointer cannot_dereference_non_pointer typed
          (get_symbol_type-Grows name d at_d) in
      let at_g : Grows start g' =
        expect-Grows equals (advance f) (advance-Grows f (location-Grows name e at_e)) in
      Holds-bind (Grows start) (Grows start) _ _
        (Holds-if (Grows start) (at_token syscall g') _ _
          (Holds-bind (Grows start) (Grows start) (syscall_call rounds (advance g')) _
            (syscall_call-Grows rounds (advance g') (advance-Grows g' at_g))
            (λ i k.
              let text = codes "\tmov ebx, eax\n" ++ store_through place in
              expect-Grows rparen (emit_assembly text i) (emit-Grows text i k)))
          (Holds-bind (GrowsBehind start) (Grows start) (expression rounds g') _
            (expression-Grows rounds g' at_g)
            (λ r k. emit-Grows (load "ebx" r.0 ++ store_through place) r.1 k)))
        (λ h k. expect-Grows semicolon h k)

  pub parse_return_statement-Grows :
      (rounds : ℕ) (c : Compilation)
      → Grows start c
      → Holds (Grows start) (parse_return_statement rounds c)
  unfolding parse_return_statement Holds GrowsBehind
  parse_return_statement-Grows rounds c g =
      Holds-bind (GrowsBehind start) (Grows start) (expression rounds (expect_token return c)) _
        (expression-Grows rounds (expect_token return c) (expect-Grows return c g))
        (λ r h.
          let code = load "ebx" r.0 ++ codes "\tmov eax, 1\n\tint 0x80\n" in
          expect-Grows semicolon (emit_assembly code r.1) (emit-Grows code r.1 h))

  pub parse_syscall_statement-Grows :
      (rounds : ℕ) (c : Compilation)
      → Grows start c
      → Holds (Grows start) (parse_syscall_statement rounds c)
  unfolding parse_syscall_statement Holds
  parse_syscall_statement-Grows rounds c g =
      Holds-bind (Grows start) (Grows start) (syscall_call rounds (expect_token syscall c)) _
        (syscall_call-Grows rounds (expect_token syscall c) (expect-Grows syscall c g))
        (λ d h. expect-Grows semicolon (expect_token rparen d) (expect-Grows rparen d h))
