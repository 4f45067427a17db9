-- ===== src/Types/Check/Statements.antt =====
-- Statements and patterns, `check_stmt`, `check_stmts`, `bind_match_pattern` and `bind_pattern` of
-- src/types/check.rs.
use tourbillon.Base.{
  ℕ, ◌+◌, String, List, [], ◌∷◌, ◌++◌, Option, none, some, ◌==◌, nat_eq, string_eq, if◌then◌else◌,
}
use tourbillon.Ast.{Span, Spanned, Expr, Pattern, Patterns, Stmt, Stmts, Arms, expr_span}
use tourbillon.Types.Ty.{Ty, Tys, Variants}
use tourbillon.Types.Env.{TypeEnv, lookup, define, push_scope, pop_scope}
use tourbillon.Types.Check.Expressions.{
  check_expr, port_elem, report_if, mismatched, not_bool, count_types,
}
use tourbillon.Diagnostics.{
  undefined_port, not_a_queue, put_mismatch, non_bool_condition, tuple_length, non_tuple_pattern,
  Diagnostic, error_at, Pass, skip, push, ◌▸◌,
}

unfoldable pub find_variant : String → Variants → Tys
find_variant name Variants.no_variants = Tys.no_tys
find_variant name (Variants.variant n tys vs) =
    let rest = find_variant name vs in if n == name then tys else rest

unfoldable mutual
  -- It pushes no diagnostic.
  pub bind_match_pattern : Pattern → Ty → TypeEnv → TypeEnv
  bind_match_pattern (Pattern.bind name _) ty env = define name ty env
  bind_match_pattern (Pattern.variant name fields _) (Ty.option inner) env =
      let bound = bind_only fields inner env in if name == "Some" then bound else env
  bind_match_pattern (Pattern.variant name fields _) (Ty.enum _ variants) env =
      bind_match_patterns fields (find_variant name variants) env
  bind_match_pattern (Pattern.tuple parts _) (Ty.tuple tys) env = bind_match_patterns parts tys env
  bind_match_pattern _ _ env = env

  -- `fields[0]` when it is the only one.
  pub bind_only : Patterns → Ty → TypeEnv → TypeEnv
  bind_only (Patterns.pattern_ p Patterns.no_patterns) ty env = bind_match_pattern p ty env
  bind_only _ ty env = env

  -- The loop over `zip`.
  pub bind_match_patterns : Patterns → Tys → TypeEnv → TypeEnv
  bind_match_patterns (Patterns.pattern_ p ps) (Tys.ty t ts) env =
      bind_match_patterns ps ts (bind_match_pattern p t env)
  bind_match_patterns _ _ env = env

unfoldable pub count_patterns : Patterns → ℕ
count_patterns Patterns.no_patterns = 0
count_patterns (Patterns.pattern_ _ ps) = count_patterns ps + 1

-- A tuple pattern on a type that is no tuple.
unfoldable pub reject_tuple : Span → Ty → Pass TypeEnv
reject_tuple sp Ty.error env = skip env
reject_tuple sp ty env = push (error_at sp (non_tuple_pattern ty)) env

unfoldable mutual
  pub bind_pattern : Pattern → Ty → Pass TypeEnv
  bind_pattern (Pattern.bind name _) ty env = skip (define name ty env)
  bind_pattern (Pattern.tuple parts sp) (Ty.tuple tys) env =
      let bound = bind_patterns parts tys env in
      let n = count_patterns parts in
      let m = count_types tys in if n == m then bound else push (error_at sp (tuple_length n m)) env
  bind_pattern (Pattern.tuple _ sp) ty env = reject_tuple sp ty env
  bind_pattern _ _ env = skip env

  pub bind_patterns : Patterns → Tys → Pass TypeEnv
  bind_patterns (Patterns.pattern_ p ps) (Tys.ty t ts) env =
      (bind_pattern p t ▸ bind_patterns ps ts) env
  bind_patterns _ _ env = skip env

-- What a `put` of a value of a type to a port reports, by the port's type and the value's span.
unfoldable pub check_put : Spanned String → Span → Ty → Option Ty → List Diagnostic
check_put target sp val none = error_at target.span (undefined_port target.node) ∷ []
check_put target sp val (some port_ty) = elim (port_elem port_ty) [
  | none ↦ error_at target.span (not_a_queue target.node) ∷ []
  | some expected ↦ report_if (mismatched val expected) sp (put_mismatch expected val)
]

-- An expression for its diagnostics.
unfoldable pub examine : Expr → Pass TypeEnv
examine e env = (env, (check_expr env e).1)

unfoldable pub in_scope : Pass TypeEnv → Pass TypeEnv
in_scope body env = let (after, ds) = body (push_scope env) in (pop_scope after, ds)

unfoldable mutual
  pub check_stmt : Stmt → Pass TypeEnv
  check_stmt (Stmt.let_ pattern value _) env =
      (examine value ▸ bind_pattern pattern (check_expr env value).0) env
  check_stmt (Stmt.put target value _) env = (
    env,
    (check_expr env value).1
        ++ check_put target (expr_span value) (check_expr env value).0 (lookup target.node env),
  )
  check_stmt (Stmt.expr e _) env = examine e env
  check_stmt (Stmt.match_ scrutinee arms _) env =
      (examine scrutinee ▸ check_match_arms (check_expr env scrutinee).0 arms) env
  check_stmt (Stmt.if_ cond then_body else_body _) env =
      let ty = (check_expr env cond).0 in
      (examine cond
          ▸ (λ after. (after, report_if (not_bool ty) (expr_span cond) (non_bool_condition ty)))
          ▸ in_scope (check_stmts then_body)
          ▸ in_scope (check_stmts else_body))
        env

  pub check_match_arms : Ty → Arms → Pass TypeEnv
  check_match_arms ty Arms.no_arms env = skip env
  check_match_arms ty (Arms.arm pattern body rest) env =
      (in_scope (λ inner. check_stmts body (bind_match_pattern pattern ty inner))
          ▸ check_match_arms ty rest)
        env

  pub check_stmts : Stmts → Pass TypeEnv
  check_stmts Stmts.done env = skip env
  check_stmts (Stmts.stmt s ss) env = (check_stmt s ▸ check_stmts ss) env
