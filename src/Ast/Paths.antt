-- ===== src/Ast/Paths.antt =====
-- The sequences of queue accesses that an execution of a rule's body can make: each `if` takes one
-- branch, each `match` one arm. A `match` without arms does nothing after its scrutinee.
use tourbillon.Base.{◌≡◌, ◌⊎◌, List, [], ◌∷◌, ◌++◌}
use tourbillon.Ast.{Stmt, Stmts, Arms}
use tourbillon.Ast.Accesses.{Access, expr_accesses}

abbrev mutual
  pub Runs : Stmt → List Access → Type 0
  Runs (Stmt.let_ _ e _) π = π ≡ expr_accesses e
  Runs (Stmt.put target e _) π = π ≡ expr_accesses e ++ Access.put target.node ∷ []
  Runs (Stmt.expr e _) π = π ≡ expr_accesses e
  Runs (Stmt.match_ e Arms.no_arms _) π = π ≡ expr_accesses e
  Runs (Stmt.match_ e (Arms.arm p body rest) _) π =
      (ρ : List Access) × (RunsStmts body ρ ⊎ RunsArms rest ρ) × (π ≡ expr_accesses e ++ ρ)
  Runs (Stmt.if_ c t f _) π =
      (ρ : List Access) × (RunsStmts t ρ ⊎ RunsStmts f ρ) × (π ≡ expr_accesses c ++ ρ)

  pub RunsStmts : Stmts → List Access → Type 0
  RunsStmts Stmts.done π = π ≡ []
  RunsStmts (Stmts.stmt s ss) π =
      (ρ : List Access) × (σ : List Access) × Runs s ρ × RunsStmts ss σ × (π ≡ ρ ++ σ)

  -- One arm of several is taken.
  pub RunsArms : Arms → List Access → Type 0
  RunsArms Arms.no_arms π = ⊥
  RunsArms (Arms.arm _ body rest) π = RunsStmts body π ⊎ RunsArms rest π
