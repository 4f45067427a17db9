-- ===== src/Ast/Accesses.antt =====
-- Which queues a piece of a rule's body accesses, and how: the meaning of the queue operations of
-- src/ast.rs, stated without the analyses that use it. An expression evaluates its parts from left
-- to right. A method call that desugaring has left over is no queue access.
use tourbillon.Base.{String, List, [], ◌∷◌, ◌++◌}
use tourbillon.Ast.{Expr, Exprs, FieldInits, Stmt, Stmts, Arms}

pub data Access : Type 0 where
  take try_take peek put : String → Access

unfoldable mutual
  pub expr_accesses : Expr → List Access
  expr_accesses (Expr.lit _ _) = []
  expr_accesses (Expr.variable _ _) = []
  expr_accesses (Expr.field_access e _ _) = expr_accesses e
  expr_accesses (Expr.index e i _) = expr_accesses e ++ expr_accesses i
  expr_accesses (Expr.update e i v _) = expr_accesses e ++ (expr_accesses i ++ expr_accesses v)
  expr_accesses (Expr.tuple es _) = exprs_accesses es
  expr_accesses (Expr.construct _ fs _) = fields_accesses fs
  expr_accesses (Expr.method_call _ _ _ _) = []
  expr_accesses (Expr.take q _) = Access.take q ∷ []
  expr_accesses (Expr.try_take q _) = Access.try_take q ∷ []
  expr_accesses (Expr.peek q _) = Access.peek q ∷ []
  expr_accesses (Expr.call _ es _) = exprs_accesses es
  expr_accesses (Expr.bit_slice e _ _ _) = expr_accesses e
  expr_accesses (Expr.bin_op _ l r _) = expr_accesses l ++ expr_accesses r
  expr_accesses (Expr.unary_op _ e _) = expr_accesses e

  pub exprs_accesses : Exprs → List Access
  exprs_accesses Exprs.none_left = []
  exprs_accesses (Exprs.expr e es) = expr_accesses e ++ exprs_accesses es

  pub fields_accesses : FieldInits → List Access
  fields_accesses FieldInits.no_fields = []
  fields_accesses (FieldInits.field _ e fs) = expr_accesses e ++ fields_accesses fs

-- Every access that some branch of a statement makes.
unfoldable mutual
  pub stmt_accesses : Stmt → List Access
  stmt_accesses (Stmt.let_ _ e _) = expr_accesses e
  stmt_accesses (Stmt.put target e _) = expr_accesses e ++ Access.put target.node ∷ []
  stmt_accesses (Stmt.expr e _) = expr_accesses e
  stmt_accesses (Stmt.match_ e arms _) = expr_accesses e ++ arms_accesses arms
  stmt_accesses (Stmt.if_ c t f _) = expr_accesses c ++ (stmts_accesses t ++ stmts_accesses f)

  pub stmts_accesses : Stmts → List Access
  stmts_accesses Stmts.done = []
  stmts_accesses (Stmts.stmt s ss) = stmt_accesses s ++ stmts_accesses ss

  pub arms_accesses : Arms → List Access
  arms_accesses Arms.no_arms = []
  arms_accesses (Arms.arm _ body rest) = stmts_accesses body ++ arms_accesses rest
