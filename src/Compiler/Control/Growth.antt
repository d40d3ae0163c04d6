-- ===== src/Compiler/Control/Growth.antt =====
-- The code and the symbol table behind the statements of cc.cpp and lists of them.
use ikan_osv5_student.Compiler.Symbols.{report}
use ikan_osv5_student.Prelude.{ℕ, zero, suc, ◌+◌, ◌||◌, Option, some, List, [], ◌++◌, ◌==◌}
use ikan_osv5_student.Compiler.Lexer.{
  int, lparen, rparen, lbrace, rbrace, identifier, number, return, semicolon, end, if_token,
  else_token, not_equal, comma, syscall, while, less, star, char, expected_identifier,
  expected_number, expected_not_equal, expected_less, invalid_statement,
  expected_identifier_for_call,
}
use ikan_osv5_student.Compiler.Expressions.{ExprInfo}
use ikan_osv5_student.Compiler.Statements.{
  codes, Compilation, value_of, at_token, advance, require_token, expect_token, emit_assembly,
  expression, location,
}
use ikan_osv5_student.Compiler.Control.{
  label, end_label, define_label, jump_line, condition_variable, braced, else_part, if_body,
  parse_if_statement, while_body, parse_while_statement, is_function_defined, call_arguments,
  call_line, call_code, parse_function_call, peek_next_non_space, invalid, parse_statement,
  parse_statement_list,
}
use ikan_osv5_student.Compiler.Statements.Slots.{
  Holds, Holds-bind, Holds-if, Grows, with_parser-Grows, require-Grows, advance-Grows, expect-Grows,
  emit-Grows, location-Grows, GrowsBehind, expression-Grows,
}
use ikan_osv5_student.Compiler.Statements.Growth.{
  require_identifier-Grows, parse_declaration-Grows, parse_assignment-Grows,
  parse_deref_assignment-Grows, parse_return_statement-Grows, parse_syscall_statement-Grows,
}

condition_variable-Grows :
    {start : List ℕ} (c : Compilation) → Grows start c → Grows start (condition_variable c).1
condition_variable-Grows c g =
    let d = require_token identifier expected_identifier c in
    let e = (location (value_of d) d).1 in
    advance-Grows e (location-Grows (value_of d) d (require_identifier-Grows c g))

module _ (body : Compilation → Option Compilation) {start : List ℕ}
    (body-Grows : (c : Compilation) → Grows start c → Holds (Grows start) (body c)) where
  braced-Grows : (c : Compilation) → Grows start c → Holds (Grows start) (braced body c)
  unfolding Holds
  braced-Grows c g =
      Holds-bind (Grows start) (Grows start) (body c) _ (body-Grows c g)
        (λ d h. expect-Grows rbrace d h)

  else_part-Grows : (c : Compilation) → Grows start c → Holds (Grows start) (else_part body c)
  unfolding else_part Holds
  else_part-Grows c g =
      let inside = expect_token else_token c in
      Holds-if (Grows start) (at_token else_token c) _ _
        (braced-Grows (expect_token lbrace inside)
          (expect-Grows lbrace inside (expect-Grows else_token c g)))
        g

  if_body-Grows :
      (place1 place2 : List ℕ) (c : Compilation)
      → Grows start c
      → Holds (Grows start) (if_body body place1 place2 c)
  unfolding if_body Holds
  if_body-Grows place1 place2 c g =
      let n = c.if_labels in
      let else_label = label (codes "else_") n in
      let test =
        codes "\tmov eax, "
        ++ (place1
            ++ (codes "\n\tcmp eax, "
                ++ (place2 ++ (codes "\n" ++ jump_line (codes "je") else_label)))) in
      let turn = jump_line (codes "jmp") (end_label n) ++ define_label else_label in
      let counted : Compilation = record c { if_labels = n + 1 } in
      let h : Grows start counted = record {
        more = g.more;
        appended = g.appended;
        stack = g.stack;
      } in
      Holds-bind (Grows start) (Grows start) (braced body (emit_assembly test counted)) _
        (braced-Grows (emit_assembly test counted) (emit-Grows test counted h))
        (λ d k.
          Holds-bind (Grows start) (Grows start) (else_part body (emit_assembly turn d)) _
            (else_part-Grows (emit_assembly turn d) (emit-Grows turn d k))
            (λ e m. emit-Grows (define_label (end_label n)) e m))

  parse_if_statement-Grows :
      (c : Compilation) → Grows start c → Holds (Grows start) (parse_if_statement body c)
  unfolding parse_if_statement
  parse_if_statement-Grows c g =
      let open_c = expect_token lparen (expect_token if_token c) in
      let (place1, d) = condition_variable open_c in
      let at_d =
        condition_variable-Grows open_c
          (expect-Grows lparen (expect_token if_token c) (expect-Grows if_token c g)) in
      let tested = require_token not_equal expected_not_equal d in
      let (place2, e) = condition_variable (advance tested) in
      let at_e =
        condition_variable-Grows (advance tested)
          (advance-Grows tested (require-Grows (at_token not_equal d) expected_not_equal d at_d)) in
      if_body-Grows place1 place2 (expect_token lbrace (expect_token rparen e))
        (expect-Grows lbrace (expect_token rparen e) (expect-Grows rparen e at_e))

  while_body-Grows :
      (place bound : List ℕ) (c : Compilation)
      → Grows start c
      → Holds (Grows start) (while_body body place bound c)
  unfolding while_body Holds
  while_body-Grows place bound c g =
      let n = c.while_labels in
      let loop_label = label (codes "loop_") n in
      let test =
        define_label loop_label
        ++ (codes "\tcmp "
            ++ (place
                ++ (codes ", "
                    ++ (bound ++ (codes "\n" ++ jump_line (codes "jge") (end_label n)))))) in
      let counted : Compilation = record c { while_labels = n + 1 } in
      let h : Grows start counted = record {
        more = g.more;
        appended = g.appended;
        stack = g.stack;
      } in
      Holds-bind (Grows start) (Grows start) (braced body (emit_assembly test counted)) _
        (braced-Grows (emit_assembly test counted) (emit-Grows test counted h))
        (λ d k. emit-Grows (jump_line (codes "jmp") loop_label ++ define_label (end_label n)) d k)

  parse_while_statement-Grows :
      (c : Compilation) → Grows start c → Holds (Grows start) (parse_while_statement body c)
  unfolding parse_while_statement
  parse_while_statement-Grows c g =
      let open_c = expect_token lparen (expect_token while c) in
      let (place, d) = condition_variable open_c in
      let at_d =
        condition_variable-Grows open_c
          (expect-Grows lparen (expect_token while c) (expect-Grows while c g)) in
      let tested = require_token less expected_less d in
      let at_tested = require-Grows (at_token less d) expected_less d at_d in
      let e = require_token number expected_number (advance tested) in
      let at_e =
        require-Grows (at_token number (advance tested)) expected_number (advance tested)
          (advance-Grows tested at_tested) in
      while_body-Grows place (value_of e) (expect_token lbrace (expect_token rparen (advance e))) (
        expect-Grows lbrace (expect_token rparen (advance e))
          (expect-Grows rparen (advance e) (advance-Grows e at_e)))

-- Arguments with the state behind them.
unfoldable GrowsAfter : List ℕ → List ExprInfo × Compilation → Type 0
GrowsAfter start r = Grows start r.1

call_arguments-Grows :
    {start : List ℕ} (rounds places : ℕ) (c : Compilation)
    → Grows start c
    → Holds (GrowsAfter start) (call_arguments rounds places c)
unfolding call_arguments Holds GrowsAfter GrowsBehind
call_arguments-Grows rounds zero c g = tt
call_arguments-Grows {start} rounds (suc places) c g =
    let later = λ (d : Compilation). call_arguments rounds places (advance d) in
    Holds-bind (GrowsBehind start) (GrowsAfter start) (expression rounds c) _
      (expression-Grows rounds c g)
      (λ r h.
        Holds-if (GrowsAfter start) (at_token comma r.1) _ _
          (Holds-bind (GrowsAfter start) (GrowsAfter start) (later r.1) _
            (call_arguments-Grows rounds places (advance r.1) (advance-Grows r.1 h)) (λ s k. k))
          h)

parse_function_call-Grows :
    {start : List ℕ} (rounds : ℕ) (c : Compilation)
    → Grows start c
    → Holds (Grows start) (parse_function_call rounds c)
unfolding parse_function_call Holds GrowsAfter
parse_function_call-Grows {start} rounds c g =
    let d = require_token identifier expected_identifier_for_call c in
    let name = value_of d in
    let e = expect_token lparen (advance d) in
    let at_d = require-Grows (at_token identifier c) expected_identifier_for_call c g in
    let at_e = expect-Grows lparen (advance d) (advance-Grows d at_d) in
    let closed = expect_token rparen e in
    Holds-if (Grows start) (is_function_defined name e.defined_functions) _ _
      (expect-Grows semicolon (emit_assembly (call_line name) closed)
        (emit-Grows (call_line name) closed (expect-Grows rparen e at_e)))
      (Holds-bind (GrowsAfter start) (Grows start) _ _
        (Holds-if (GrowsAfter start) (at_token rparen e) (some ([], e)) (call_arguments rounds 5 e)
          at_e (call_arguments-Grows rounds 5 e at_e))
        (λ r h.
          let code = call_code name r.0 in
          let after = expect_token rparen r.1 in
          expect-Grows semicolon (emit_assembly code after)
            (emit-Grows code after (expect-Grows rparen r.1 h))))

invalid-Grows : {start : List ℕ} (c : Compilation) → Grows start c → Holds (Grows start) (invalid c)
unfolding Holds
invalid-Grows c g = with_parser-Grows (report invalid_statement c.parser) c g.stack g

parse_statement-Grows :
    (body : Compilation → Option Compilation) {start : List ℕ}
    (body-Grows : (c : Compilation) → Grows start c → Holds (Grows start) (body c)) (rounds : ℕ)
    (c : Compilation)
    → Grows start c
    → Holds (Grows start) (parse_statement body rounds c)
unfolding parse_statement
parse_statement-Grows body {start} body-Grows rounds c g =
    let P = Grows start in
    let ahead = peek_next_non_space c.parser.source.rest in
    Holds-if P (at_token int c || at_token char c) _ _ (parse_declaration-Grows rounds c g) (
      Holds-if P (at_token identifier c) _ _
        (Holds-if P (ahead == b'=') _ _ (parse_assignment-Grows rounds c g) (
          Holds-if P (ahead == b'(') _ _ (parse_function_call-Grows rounds c g)
            (invalid-Grows c g)))
        (Holds-if P (at_token star c) _ _ (parse_deref_assignment-Grows rounds c g) (
          Holds-if P (at_token return c) _ _ (parse_return_statement-Grows rounds c g) (
            Holds-if P (at_token if_token c) _ _ (parse_if_statement-Grows body body-Grows c g) (
              Holds-if P (at_token while c) _ _ (parse_while_statement-Grows body body-Grows c g) (
                Holds-if P (at_token syscall c) _ _ (parse_syscall_statement-Grows rounds c g)
                  (invalid-Grows c g)))))))

pub parse_statement_list-Grows :
    {start : List ℕ} (rounds : ℕ) (c : Compilation)
    → Grows start c
    → Holds (Grows start) (parse_statement_list rounds c)
unfolding parse_statement_list Holds
parse_statement_list-Grows zero c g = tt
parse_statement_list-Grows {start} (suc rounds) c g =
    let later = λ (d : Compilation). parse_statement_list rounds d in
    Holds-if (Grows start) (at_token rbrace c || at_token end c) _ _ g (
      Holds-bind (Grows start) (Grows start) (parse_statement later rounds c) _
        (parse_statement-Grows later (parse_statement_list-Grows rounds) rounds c g)
        (λ d h. parse_statement_list-Grows rounds d h))
