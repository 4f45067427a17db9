-- ===== src/Desugar/Rejected.antt =====
-- Indexed operations on arrays of state cells, `expand_indexed_let` of src/desugar.rs under
-- `check_stmt_linearity` of src/types/linearity.rs.
use tourbillon.Base.{
  subst, ℕ, suc, String, List, [], ◌∷◌, ◌++◌, some, ◌≡◌, ◌≢◌, ap, arith, string_eq, append-eq-nil,
  ==_iff,
}
use tourbillon.Base.Dict.{lookup, insert, lookup-insert}
use tourbillon.Ast.{Span, Expr, Pattern, Stmt, Stmts}
use tourbillon.Types.Linearity.{
  CellState, States, take_from, check_expr_linearity, check_stmt_linearity, check_stmts_linearity,
  check_match, check_arms, join_arms, cell_state_eq,
}
use tourbillon.Types.Linearity.Joins.{compare_arms-cons, join_arms-eq-nil}
use tourbillon.Desugar.Bodies.{element_name, index_arms, expand_indexed_let}
use tourbillon.Desugar.Names.{parse_u64-decimal}
use tourbillon.Diagnostics.{Diagnostic, ◌▸◌, ▸-eq-nil}

-- The states after a take of an untouched cell.
abbrev taken_from : String → ℕ → States → States
taken_from name i states = insert (element_name name i) CellState.taken states

-- One arm of the match: it takes the cell of its index.
arm_takes :
    (name : String) (i : ℕ) (p : Pattern) (sp : Span) (states : States)
    → lookup (element_name name i) states ≡ some CellState.untouched
    → check_stmts_linearity
        (Stmts.stmt (Stmt.let_ p (Expr.take (element_name name i) sp) sp) Stmts.done)
        states
      ≡ (taken_from name i states, [])
unfolding check_stmt_linearity check_expr_linearity take_from ◌▸◌
arm_takes name i p sp states h = rw (h)

-- Arms that take different cells do not agree.
arms_disagree :
    (name : String) (states : States) (sp : Span) (rest : List (Span × States))
    → lookup (element_name name 1) states ≡ some CellState.untouched
    → lookup (element_name name 0) states ≡ some CellState.untouched
    → join_arms (taken_from name 0 states) ((sp, taken_from name 1 states) ∷ rest) ≢ []
arms_disagree name states sp rest one zeroth h =
    let taken : lookup (element_name name 0) (taken_from name 0 states) ≡ some CellState.taken =
      ground (
        arith,
        lookup-insert (element_name name 0) (element_name name 0) CellState.taken states,
        ==_iff (element_name name 0) (element_name name 0),
      ) in
    let different : element_name name 1 ≢ element_name name 0 = λ e.
      let no : ◌≡◌ {A = ℕ} 1 0 = (parse_u64-decimal name 1 (omega arith)).1 0 (omega arith) e in
      omega arith in
    let untouched : lookup (element_name name 0) (taken_from name 1 states)
        ≡ some CellState.untouched =
      ground (
        arith,
        lookup-insert (element_name name 1) (element_name name 0) CellState.taken states,
        ==_iff (element_name name 1) (element_name name 0),
      ) in
    let compared = join_arms-eq-nil (element_name name 0) CellState.taken _ _ h taken in
    let same =
      (compare_arms-cons (element_name name 0) CellState.taken sp _ rest CellState.untouched
        compared untouched).0 in
    cc

-- The report of two arms and the rest, when the arms are clean.
clean_arms :
    (first second : States × List Diagnostic) (a b : States) (sp : Span)
    (rest : List (Span × States) × List Diagnostic)
    → first ≡ (a, [])
    → second ≡ (b, [])
    → first.1 ++ ((second.1 ++ rest.1) ++ join_arms first.0 ((sp, second.0) ∷ rest.0)) ≡ []
    → rest.1 ++ join_arms a ((sp, b) ∷ rest.0) ≡ []
clean_arms first second a b sp rest e f h =
    subst (λ y. y.1 ++ rest.1 ++ join_arms a ((sp, y.0) ∷ rest.0) ≡ []) f
      (subst (λ x. x.1 ++ ((second.1 ++ rest.1) ++ join_arms x.0 ((sp, second.0) ∷ rest.0)) ≡ []) e
        h)

-- The body of the arm of an index.
abbrev arm_body : String → Pattern → Span → ℕ → Stmts
arm_body name p sp i = Stmts.stmt (Stmt.let_ p (Expr.take (element_name name i) sp) sp) Stmts.done

match_disagrees :
    (name : String) (n : ℕ) (p : Pattern) (sp : Span) (states : States)
    → lookup (element_name name 0) states ≡ some CellState.untouched
    → lookup (element_name name 1) states ≡ some CellState.untouched
    → (check_match
        (index_arms (λ i. Stmt.let_ p (Expr.take (element_name name i) sp) sp) sp (suc (suc n)) 0)
        states).1
      ≢ []
unfolding index_arms check_stmt_linearity
match_disagrees name n p sp states zeroth one h =
    let rest =
      check_arms (index_arms (λ i. Stmt.let_ p (Expr.take (element_name name i) sp) sp) sp n 2)
        states in
    let reported =
      clean_arms (check_stmts_linearity (arm_body name p sp 0) states)
        (check_stmts_linearity (arm_body name p sp 1) states) (taken_from name 0 states)
        (taken_from name 1 states) sp rest (arm_takes name 0 p sp states zeroth)
        (arm_takes name 1 p sp states one) h in
    arms_disagree name states sp rest.0 one zeroth (append-eq-nil rest.1 _ reported).1

-- A take from an indexed array of two or more state cells is always reported: the arms that it
-- becomes take different cells, so they cannot agree on the states that they leave. The index may
-- be any expression that the check passes without touching a cell.
pub expand_indexed_let-rejected :
    (name : String) (n : ℕ) (idx : Expr) (p : Pattern) (sp : Span) (states : States)
    → check_expr_linearity idx states ≡ (states, [])
    → lookup (element_name name 0) states ≡ some CellState.untouched
    → lookup (element_name name 1) states ≡ some CellState.untouched
    → (check_stmt_linearity (expand_indexed_let name (suc (suc n)) idx Expr.take p sp) states).1
      ≢ []
unfolding expand_indexed_let index_arms check_stmt_linearity
expand_indexed_let-rejected name n idx p sp states clean zeroth one h =
    let arms =
      index_arms (λ i. Stmt.let_ p (Expr.take (element_name name i) sp) sp) sp (suc (suc n)) 0 in
    let (_, reported) = ▸-eq-nil (check_expr_linearity idx) (check_match arms) states h in
    match_disagrees name n p sp states zeroth one
      (subst (λ after. (check_match arms after).1 ≡ []) (ap (λ r. r.0) clean) reported)
