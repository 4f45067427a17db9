-- ===== src/Types/Check/StatementRules/Complete.antt =====
-- What follows the typing rules is passed by `check_stmts` of src/types/check.rs.
use tourbillon.Base.{
  String, [], ◌∷◌, Option, none, some, ◌≡◌, refl, ap, subst, arith, ==_iff, nat_eq,
}
use tourbillon.Ast.{Span, Spanned, Expr, Pattern, Patterns, Stmt, Stmts, Arms, expr_span}
use tourbillon.Types.Ty.{Ty, Tys}
use tourbillon.Types.Env.{TypeEnv, lookup, push_scope}
use tourbillon.Types.Check.Expressions.{
  check_expr, port_elem, count_types, mismatched, not_bool, report_if,
}
use tourbillon.Types.Check.Statements.{
  bind_match_pattern, bind_pattern, bind_patterns, reject_tuple, count_patterns, check_put, examine,
  in_scope, check_stmt, check_match_arms, check_stmts,
}
use tourbillon.Types.Check.TypingRules.{Holds, Agree}
use tourbillon.Types.Check.TypingRules.Lookups.{report_if_iff}
use tourbillon.Types.Check.TypingRules.Operators.{mismatched_iff, not_bool_iff}
use tourbillon.Types.Check.StatementRules.Matching.{Matches-bind_match_pattern}
use tourbillon.Types.Check.Typing.{HasType}
use tourbillon.Types.Check.Typing.Complete.{HasType-check_expr}
use tourbillon.Types.Check.StatementRules.{Binds, BindAll, StmtOk, StmtsOk, ArmsOk}
use tourbillon.Types.Check.StatementRules.Sound.{body_restores, arm_restores}
use tourbillon.Diagnostics.{
  pair-path, Pass, ◌▸◌, put_mismatch, error_at, not_a_queue, non_bool_condition,
}

BindAll-count :
    (ps : Patterns) (ts : Tys) (env after : TypeEnv)
    → BindAll ps ts env after
    → count_patterns ps ≡ count_types ts
unfolding count_patterns count_types
BindAll-count _ _ env after BindAll.none_left = refl
BindAll-count (Patterns.pattern_ p ps) (Tys.ty t ts) env after
      (BindAll.pattern_ {between = between} first rest) =
    omega (arith, BindAll-count ps ts between after rest)

▸-clean :
    (f g : Pass TypeEnv) (s between after : TypeEnv)
    → f s ≡ (between, [])
    → g between ≡ (after, [])
    → (f ▸ g) s ≡ (after, [])
unfolding ◌▸◌
▸-clean f g s between after e h = rw (e, h)

mutual
  unfolding bind_pattern bind_patterns reject_tuple

  Binds-bind_pattern :
      (p : Pattern) (t : Ty) (env after : TypeEnv)
      → Binds p t env after
      → bind_pattern p t env ≡ (after, [])
  Binds-bind_pattern _ t env _ Binds.wildcard = refl
  Binds-bind_pattern _ t env _ Binds.literal = refl
  Binds-bind_pattern _ t env _ Binds.variant = refl
  Binds-bind_pattern _ t env _ Binds.bind = refl
  Binds-bind_pattern (Pattern.tuple ps sp) (Ty.tuple ts) env after (Binds.tuple parts) =
      rw ((==_iff (count_patterns ps) (count_types ts)).1 (BindAll-count ps ts env after parts))
        (BindAll-bind_patterns ps ts env after parts)
  Binds-bind_pattern _ _ env _ Binds.tuple_of_error = refl

  BindAll-bind_patterns :
      (ps : Patterns) (ts : Tys) (env after : TypeEnv)
      → BindAll ps ts env after
      → bind_patterns ps ts env ≡ (after, [])
  BindAll-bind_patterns _ _ env _ BindAll.none_left = refl
  BindAll-bind_patterns (Patterns.pattern_ p ps) (Tys.ty t ts) env after
        (BindAll.pattern_ {between = between} first rest) =
      ▸-clean (bind_pattern p t) (bind_patterns ps ts) env between after
        (Binds-bind_pattern p t env between first) (BindAll-bind_patterns ps ts between after rest)

-- By what the port holds.
held-clean :
    (q : Spanned String) (sp : Span) (t elem : Ty) (held : Option Ty)
    → held ≡ some elem
    → Agree t elem
    → elim held [
      | none ↦ error_at q.span (not_a_queue q.node) ∷ []
      | some expected ↦ report_if (mismatched t expected) sp (put_mismatch expected t)
    ]
      ≡ []
held-clean q sp t elem none e agree = cc
held-clean q sp t elem (some found) e agree =
    let same : elem ≡ found = cc in
    (report_if_iff (mismatched t found) sp (put_mismatch found t)).1
      ((mismatched_iff t found).1 (subst (Agree t) same agree))

Holds-check_put :
    (q : Spanned String) (sp : Span) (t elem : Ty) (env : TypeEnv)
    → Holds env q.node elem
    → Agree t elem
    → check_put q sp t (lookup q.node env) ≡ []
unfolding check_put
Holds-check_put q sp t elem env (p, found, held) agree =
    rw (found) (held-clean q sp t elem (port_elem p) held agree)

in_scope-clean :
    (body : Pass TypeEnv) (env after : TypeEnv)
    → (in_scope body env).0 ≡ env
    → body (push_scope env) ≡ (after, [])
    → in_scope body env ≡ (env, [])
unfolding in_scope
in_scope-clean body env after restored h =
    pair-path (in_scope body env) env restored (ap (λ p. p.1) h)

examine-clean : (e : Expr) (env : TypeEnv) (t : Ty) → HasType env e t → examine e env ≡ (env, [])
unfolding examine
examine-clean e env t d = rw (HasType-check_expr env e t d)

mutual
  unfolding check_stmt check_stmts check_match_arms

  StmtOk-check_stmt :
      (s : Stmt) (env after : TypeEnv) → StmtOk s env after → check_stmt s env ≡ (after, [])
  StmtOk-check_stmt (Stmt.let_ p e sp) env after (StmtOk.let_ {t = t} value bound) =
      ▸-clean (examine e) (bind_pattern p (check_expr env e).0) env env after
        (examine-clean e env t value)
        (rw (HasType-check_expr env e t value) (Binds-bind_pattern p t env after bound))
  StmtOk-check_stmt (Stmt.put q e sp) env _ (StmtOk.put {t = t} {elem = elem} value holds agree) =
      rw (HasType-check_expr env e t value)
        (ap (λ ds. (env, ds)) (Holds-check_put q (expr_span e) t elem env holds agree))
  StmtOk-check_stmt (Stmt.expr e sp) env _ (StmtOk.expr {t = t} value) = examine-clean e env t value
  StmtOk-check_stmt (Stmt.match_ e arms sp) env _ (StmtOk.match_ {t = t} value clean) =
      ▸-clean (examine e) (check_match_arms (check_expr env e).0 arms) env env env
        (examine-clean e env t value)
        (rw (HasType-check_expr env e t value) (ArmsOk-check_match_arms t arms env clean))
  StmtOk-check_stmt (Stmt.if_ c then_body else_body sp) env _
        (StmtOk.if_ {t = t} {end_yes = end_yes} {end_no = end_no} value truth first second) =
      let ty = (check_expr env c).0 in
      let test : Pass TypeEnv =
        λ e. (e, report_if (not_bool ty) (expr_span c) (non_bool_condition ty)) in
      let bodies : Pass TypeEnv =
        in_scope (check_stmts then_body) ▸ in_scope (check_stmts else_body) in
      let tested : test env ≡ (env, []) = rw (HasType-check_expr env c t value) (
        ap (λ ds. (env, ds))
          ((report_if_iff (not_bool t) (expr_span c) (non_bool_condition t)).1
            ((not_bool_iff t).1 truth))) in
      ▸-clean (examine c) (test ▸ bodies) env env env (examine-clean c env t value) (
        ▸-clean test bodies env env env tested (
          ▸-clean (in_scope (check_stmts then_body)) (in_scope (check_stmts else_body)) env env env
            (in_scope-clean (check_stmts then_body) env end_yes (body_restores then_body env)
              (StmtsOk-check_stmts then_body (push_scope env) end_yes first))
            (in_scope-clean (check_stmts else_body) env end_no (body_restores else_body env)
              (StmtsOk-check_stmts else_body (push_scope env) end_no second))))

  StmtsOk-check_stmts :
      (ss : Stmts) (env after : TypeEnv) → StmtsOk ss env after → check_stmts ss env ≡ (after, [])
  StmtsOk-check_stmts _ env _ StmtsOk.done = refl
  StmtsOk-check_stmts (Stmts.stmt s ss) env after (StmtsOk.stmt {between = between} first later) =
      ▸-clean (check_stmt s) (check_stmts ss) env between after
        (StmtOk-check_stmt s env between first) (StmtsOk-check_stmts ss between after later)

  ArmsOk-check_match_arms :
      (t : Ty) (arms : Arms) (env : TypeEnv)
      → ArmsOk t arms env
      → check_match_arms t arms env ≡ (env, [])
  ArmsOk-check_match_arms t _ env ArmsOk.no_arms = refl
  ArmsOk-check_match_arms t (Arms.arm p body rest) env
        (ArmsOk.arm {inner = inner} {after = after} bound first later) =
      let here : Pass TypeEnv = λ inner. check_stmts body (bind_match_pattern p t inner) in
      ▸-clean (in_scope here) (check_match_arms t rest) env env env
        (in_scope-clean here env after (arm_restores p t body env) (
          rw (Matches-bind_match_pattern p t (push_scope env) inner bound)
            (StmtsOk-check_stmts body inner after first)))
        (ArmsOk-check_match_arms t rest env later)
