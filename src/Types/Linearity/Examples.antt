-- ===== src/Types/Linearity/Examples.antt =====
-- Rules of a counter, checked: tests and instances of the theorems.
use tourbillon.Base.{String, ◌≡◌, refl, List, [], ◌∷◌}
use tourbillon.Ast.{Span, Spanned, Literal, BinOp, Expr, Stmt, Stmts, Rule, Pattern}
use tourbillon.Ast.Accesses.{Access}
use tourbillon.Ast.Paths.{RunsStmts}
use tourbillon.Base.Dict.{lookup, insert}
use tourbillon.Diagnostics.{error_at, not_put_back, inconsistent_branches, ◌▸◌}
use tourbillon.Types.Linearity.{
  take_from, put_to, join_branches, check_expr_linearity, check_stmt_linearity, initial_states,
  check_end, check_rule_linearity,
}
use tourbillon.Types.Linearity.Moves.{moves, IsLinear}
use tourbillon.Types.Linearity.Hidden.{sliced_take, sliced_take_passes}

abbrev sp : Span
sp = record { from = 3; to = 9 }

abbrev at : String → Spanned String
at s = record { node = s; span = sp }

abbrev take_count : Stmt
take_count = Stmt.let_ (Pattern.bind "c" sp) (Expr.take "count" sp) sp

abbrev put_next : Stmt
put_next =
    Stmt.put (at "count")
      (Expr.bin_op BinOp.add (Expr.variable "c" sp) (Expr.lit (Literal.int 1) sp) sp) sp

-- let c = count.take(); if c { count.put(c + 1) } else { count.put(c + 1) }
abbrev tick : Rule
tick = record {
  name = at "tick";
  body = Stmts.stmt take_count (
      Stmts.stmt
        (Stmt.if_ (Expr.variable "c" sp) (Stmts.stmt put_next Stmts.done)
          (Stmts.stmt put_next Stmts.done) sp)
        Stmts.done);
}

-- The same without the `else` branch.
abbrev leaky : Rule
leaky = record {
  name = at "leaky";
  body = Stmts.stmt take_count (
      Stmts.stmt (Stmt.if_ (Expr.variable "c" sp) (Stmts.stmt put_next Stmts.done) Stmts.done sp)
        Stmts.done);
}

abbrev forgetful : Rule
forgetful = record { name = at "forgetful"; body = Stmts.stmt take_count Stmts.done }

-- What a run of the check unfolds.
program : Unit {0}
unfolding check_rule_linearity initial_states check_end check_stmt_linearity check_expr_linearity
    take_from put_to join_branches lookup insert ◌▸◌
program = tt

leaky_fails :
    check_rule_linearity leaky ("count" ∷ []) ≡ error_at sp (inconsistent_branches "count") ∷ []
unfolding program
leaky_fails = refl

forgetful_fails :
    check_rule_linearity forgetful ("count" ∷ [])
    ≡ error_at sp (not_put_back "count" "forgetful") ∷ []
unfolding program
forgetful_fails = refl

abbrev tick_path : List Access
tick_path = Access.take "count" ∷ Access.put "count" ∷ []

sliced_take_passes_example :
    (check_rule_linearity
        (sliced_take (at "tick") "count" (Pattern.bind "hi" sp) 31 28 sp)
        ("count" ∷ [])
      ≡ [])
    × RunsStmts
        (sliced_take (at "tick") "count" (Pattern.bind "hi" sp) 31 28 sp).body
        (Access.take "count" ∷ [])
    × ¬ IsLinear (moves "count" (Access.take "count" ∷ []))
sliced_take_passes_example =
    sliced_take_passes (at "tick") "count" (Pattern.bind "hi" sp) 31 28 sp ("count" ∷ [])
