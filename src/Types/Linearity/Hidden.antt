-- ===== src/Types/Linearity/Hidden.antt =====
-- What the check does not see: src/types/linearity.rs ends its match over expressions in `_ => {}`.
use tourbillon.Base.{ℕ, String, ◌≡◌, refl, List, [], ◌∷◌, ==_iff, string_eq, arith}
use tourbillon.Base.Dict.{insert}
use tourbillon.Ast.{Span, Spanned, Expr, Stmt, Stmts, Rule, Pattern}
use tourbillon.Ast.Accesses.{Access, expr_accesses}
use tourbillon.Ast.Paths.{RunsStmts}
use tourbillon.Diagnostics.{◌▸◌}
use tourbillon.Types.Linearity.{
  CellState, States, check_expr_linearity, check_stmt_linearity, initial_states, check_end,
  check_rule_linearity,
}
use tourbillon.Types.Linearity.Moves.{moves, IsLinear}

-- A map of cells that are all untouched ends without a diagnostic.
check_end-insert :
    (rule : Rule) (c : String) (states : States)
    → check_end rule states ≡ []
    → check_end rule (insert c CellState.untouched states) ≡ []
unfolding check_end insert
check_end-insert rule c [] h = refl
check_end-insert rule c ((name, CellState.untouched) ∷ states) h =
    ground (arith, check_end-insert rule c states)
check_end-insert rule c ((name, CellState.taken) ∷ states) h = cc
check_end-insert rule c ((name, CellState.put) ∷ states) h =
    ground (arith, check_end-insert rule c states)

check_end-initial_states :
    (rule : Rule) (ports : List String) (states : States)
    → check_end rule states ≡ []
    → check_end rule (initial_states ports states) ≡ []
unfolding initial_states
check_end-initial_states rule [] states h = h
check_end-initial_states rule (p ∷ ports) states h =
    check_end-initial_states rule ports _ (check_end-insert rule p states h)

-- The rule `let p = cell.take()[hi:lo]`.
abbrev pub sliced_take : Spanned String → String → Pattern → (hi lo : ℕ) → Span → Rule
sliced_take name cell p hi lo sp = record {
  name = name;
  body = Stmts.stmt (Stmt.let_ p (Expr.bit_slice (Expr.take cell sp) hi lo sp) sp) Stmts.done;
}

-- A rule that takes a cell under a bit slice and never puts it back is passed without a
-- diagnostic, whatever its state ports are, although its one path is not linear in the cell.
pub sliced_take_passes :
    (name : Spanned String) (cell : String) (p : Pattern) (hi lo : ℕ) (sp : Span)
    (state_ports : List String)
    → (check_rule_linearity (sliced_take name cell p hi lo sp) state_ports ≡ [])
      × RunsStmts (sliced_take name cell p hi lo sp).body (Access.take cell ∷ [])
      × ¬ IsLinear (moves cell (Access.take cell ∷ []))
unfolding check_rule_linearity check_stmt_linearity check_expr_linearity ◌▸◌ expr_accesses moves
    check_end
sliced_take_passes name cell p hi lo sp ports = (
  check_end-initial_states (sliced_take name cell p hi lo sp) ports [] refl,
  (Access.take cell ∷ [], [], refl, refl, refl),
  λ linear. ground (arith, ==_iff cell cell),
)
