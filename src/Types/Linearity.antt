-- ===== src/Types/Linearity.antt =====
-- The linearity check of cells within a rule, src/types/linearity.rs. The `HashMap` of cell states
-- is an association list, so that loops over it run in the order of the ports.
pub mod Moves
pub mod Steps
pub mod Joins
pub mod Sound
pub mod Hidden
mod Examples
use tourbillon.Base.{
  String, Bool, true, false, ◌≡◌, ◌↔◌, List, [], ◌∷◌, ◌++◌, Option, none, some, Eq, ◌==◌,
  if◌then◌else◌, arith, string_eq,
}
use tourbillon.Base.Dict.{Dict, lookup, insert}
use tourbillon.Ast.{Span, Spanned, Expr, Exprs, Stmt, Stmts, Arms, Rule, expr_span, pattern_span}
use tourbillon.Diagnostics.{
  Message, not_put_back, put_without_take, put_twice, taken_twice, taken_after_put,
  inconsistent_arms, inconsistent_branches, Diagnostic, error_at, Pass, skip, push, ◌▸◌,
}

pub data CellState : Type 0 where
  untouched taken put : CellState

abbrev pub same_state : CellState → CellState → Bool
same_state CellState.untouched CellState.untouched = true
same_state CellState.taken CellState.taken = true
same_state CellState.put CellState.put = true
same_state _ _ = false

pub same_state_iff : (a b : CellState) → (same_state a b ≡ true) ↔ (a ≡ b)
same_state_iff a b = ground arith

instance abbrev pub cell_state_eq : Eq CellState
cell_state_eq = record { same = same_state; same_iff = same_state_iff }

abbrev pub States : Type 0
States = Dict String CellState

-- `take` and `try_take` of a state port, by the state that the map holds.
unfoldable pub take_from : Option CellState → String → Span → Pass States
take_from none queue sp states = skip states
take_from (some CellState.untouched) queue sp states = (insert queue CellState.taken states, [])
take_from (some CellState.taken) queue sp states = push (error_at sp (taken_twice queue)) states
take_from (some CellState.put) queue sp states = push (error_at sp (taken_after_put queue)) states

unfoldable mutual
  pub check_expr_linearity : Expr → Pass States
  check_expr_linearity (Expr.take queue sp) states = take_from (lookup queue states) queue sp states
  check_expr_linearity (Expr.peek _ _) states = skip states
  check_expr_linearity (Expr.try_take queue sp) states =
      take_from (lookup queue states) queue sp states
  check_expr_linearity (Expr.bin_op _ lhs rhs _) states =
      (check_expr_linearity lhs ▸ check_expr_linearity rhs) states
  check_expr_linearity (Expr.unary_op _ inner _) states = check_expr_linearity inner states
  check_expr_linearity (Expr.call _ args _) states = check_exprs_linearity args states
  check_expr_linearity (Expr.tuple items _) states = check_exprs_linearity items states
  check_expr_linearity _ states = skip states

  pub check_exprs_linearity : Exprs → Pass States
  check_exprs_linearity Exprs.none_left states = skip states
  check_exprs_linearity (Exprs.expr e es) states =
      (check_expr_linearity e ▸ check_exprs_linearity es) states

-- `put` to a state port, by the state that the map holds.
unfoldable pub put_to : Option CellState → Spanned String → Pass States
put_to none target states = skip states
put_to (some CellState.untouched) target states =
    push (error_at target.span (put_without_take target.node)) states
put_to (some CellState.taken) target states = (insert target.node CellState.put states, [])
put_to (some CellState.put) target states =
    push (error_at target.span (put_twice target.node)) states

-- One comparison of a join: a diagnostic where the other map has another state for the name.
unfoldable pub compare_state : Message → Span → CellState → Option CellState → List Diagnostic
compare_state message sp state none = []
compare_state message sp state (some other) =
    if state == other then [] else error_at sp message ∷ []

-- The loop over the other arms, each with the span of its pattern.
unfoldable pub compare_arms : String → CellState → List (Span × States) → List Diagnostic
unfolding compare_state
compare_arms name state [] = []
compare_arms name state ((sp, other) ∷ rest) =
    compare_state (inconsistent_arms name) sp state (lookup name other)
    ++ compare_arms name state rest

unfoldable pub join_arms : States → List (Span × States) → List Diagnostic
join_arms [] others = []
join_arms ((name, state) ∷ first) others = compare_arms name state others ++ join_arms first others

unfoldable pub join_branches : Span → States → States → List Diagnostic
unfolding compare_state
join_branches sp [] other = []
join_branches sp ((name, state) ∷ first) other =
    compare_state (inconsistent_branches name) sp state (lookup name other)
    ++ join_branches sp first other

unfoldable mutual
  pub check_stmt_linearity : Stmt → Pass States
  check_stmt_linearity (Stmt.let_ _ value _) states = check_expr_linearity value states
  check_stmt_linearity (Stmt.put target value _) states =
      (check_expr_linearity value ▸ (λ after. put_to (lookup target.node after) target after))
        states
  check_stmt_linearity (Stmt.expr e _) states = check_expr_linearity e states
  check_stmt_linearity (Stmt.match_ scrutinee arms _) states =
      (check_expr_linearity scrutinee ▸ check_match arms) states
  check_stmt_linearity (Stmt.if_ cond then_body else_body _) states =
      (check_expr_linearity cond ▸ λ after.
      let (then_states, ds) = check_stmts_linearity then_body after in
      let (else_states, es) = check_stmts_linearity else_body after in
      (then_states, ds ++ (es ++ join_branches (expr_span cond) then_states else_states)))
        states

  pub check_stmts_linearity : Stmts → Pass States
  check_stmts_linearity Stmts.done states = skip states
  check_stmts_linearity (Stmts.stmt s ss) states =
      (check_stmt_linearity s ▸ check_stmts_linearity ss) states

  -- The arms of a match after its scrutinee: the first arm's state is the merged one.
  pub check_match : Arms → Pass States
  check_match Arms.no_arms states = skip states
  check_match (Arms.arm _ body rest) states =
      let (first, ds) = check_stmts_linearity body states in
      let (others, es) = check_arms rest states in (first, ds ++ (es ++ join_arms first others))

  -- The arms, each from the same state: their final states and all diagnostics.
  pub check_arms : Arms → States → List (Span × States) × List Diagnostic
  check_arms Arms.no_arms states = ([], [])
  check_arms (Arms.arm pattern body rest) states =
      let (after, ds) = check_stmts_linearity body states in
      let (others, es) = check_arms rest states in
      ((pattern_span pattern, after) ∷ others, ds ++ es)

unfoldable pub initial_states : List String → States → States
initial_states [] states = states
initial_states (name ∷ names) states = initial_states names (insert name CellState.untouched states)

-- At the end of the rule: every taken cell must have been put back.
unfoldable pub check_end : Rule → States → List Diagnostic
check_end rule [] = []
check_end rule ((name, state) ∷ states) =
    (if state == CellState.taken
      then error_at rule.name.span (not_put_back name rule.name.node) ∷ []
      else [])
    ++ check_end rule states

unfoldable pub check_rule_linearity : Rule → List String → List Diagnostic
unfolding initial_states
check_rule_linearity rule state_ports =
    let (states, ds) = check_stmts_linearity rule.body (initial_states state_ports []) in
    ds ++ check_end rule states
