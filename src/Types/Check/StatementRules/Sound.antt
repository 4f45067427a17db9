-- ===== src/Types/Check/StatementRules/Sound.antt =====
-- What `check_stmts` of src/types/check.rs passes follows the typing rules.
use tourbillon.Base.{
  ◌+◌, String, [], ◌∷◌, Option, none, some, ◌≡◌, refl, sym, subst, ◌∙◌, append-eq-nil, arith, Bool,
  true, false, ◌==◌, ==_iff, nat_eq, if◌then◌else◌,
}
use tourbillon.Ast.{Span, Spanned, Expr, Pattern, Patterns, Stmt, Stmts, Arms, expr_span}
use tourbillon.Types.Ty.{Ty, Tys}
use tourbillon.Types.Env.{TypeEnv, lookup, push_scope}
use tourbillon.Types.Check.Expressions.{
  check_expr, port_elem, count_types, mismatched, not_bool, report_if,
}
use tourbillon.Types.Check.Statements.{
  bind_match_pattern, bind_pattern, bind_patterns, reject_tuple, count_patterns, check_put, examine,
  in_scope, check_stmt, check_match_arms, check_stmts,
}
use tourbillon.Types.Check.Scopes.{
  check_match_arms-state, in_scope-state, pop_scope-check_stmts, pop_scope-bind_match_pattern,
}
use tourbillon.Types.Check.TypingRules.{Holds, Agree}
use tourbillon.Types.Check.TypingRules.Lookups.{report_if_iff}
use tourbillon.Types.Check.TypingRules.Operators.{mismatched_iff, not_bool_iff}
use tourbillon.Types.Check.StatementRules.Matching.{bind_match_pattern-Matches}
use tourbillon.Types.Check.Typing.{HasType}
use tourbillon.Types.Check.Typing.Sound.{check_expr-HasType}
use tourbillon.Types.Check.StatementRules.{Binds, BindAll, StmtOk, StmtsOk, ArmsOk}
use tourbillon.Diagnostics.{
  pair-path, Diagnostic, Pass, Reports, ◌▸◌, ▸-eq-nil, put_mismatch, tuple_length, error_at, push,
  not_a_queue, non_bool_condition,
}

count_patterns-cons_inj :
    (p : Pattern) (ps : Patterns) (t : Ty) (ts : Tys)
    → count_patterns (Patterns.pattern_ p ps) ≡ count_types (Tys.ty t ts)
    → count_patterns ps ≡ count_types ts
unfolding count_patterns count_types
count_patterns-cons_inj p ps t ts h = omega arith

-- A tuple pattern, by whether its length is that of the type.
tuple-Binds :
    (b : Bool) (ps : Patterns) (ts : Tys) (sp : Span) (env : TypeEnv) (bound : Reports TypeEnv)
    (d : Diagnostic)
    → (b ≡ true → bound.1 ≡ [] → BindAll ps ts env bound.0)
    → (if b then bound else push d env).1 ≡ []
    → Binds (Pattern.tuple ps sp) (Ty.tuple ts) env (if b then bound else push d env).0
tuple-Binds true ps ts sp env bound d parts h = Binds.tuple (parts refl h)
tuple-Binds false ps ts sp env bound d parts h = absurd (let no : d ∷ [] ≡ [] = h in cc)

mutual
  unfolding bind_pattern bind_patterns reject_tuple count_patterns count_types ◌▸◌

  pub bind_pattern-Binds :
      (p : Pattern) (t : Ty) (env : TypeEnv)
      → (bind_pattern p t env).1 ≡ []
      → Binds p t env (bind_pattern p t env).0
  bind_pattern-Binds (Pattern.wildcard _) t env h = Binds.wildcard
  bind_pattern-Binds (Pattern.literal _ _) t env h = Binds.literal
  bind_pattern-Binds (Pattern.variant _ _ _) t env h = Binds.variant
  bind_pattern-Binds (Pattern.bind _ _) t env h = Binds.bind
  bind_pattern-Binds (Pattern.tuple ps sp) (Ty.tuple ts) env h =
      let n = count_patterns ps in
      let m = count_types ts in
      tuple-Binds (n == m) ps ts sp env (bind_patterns ps ts env) (error_at sp (tuple_length n m))
        (λ e. bind_patterns-BindAll ps ts env ((==_iff n m).0 e)) h
  bind_pattern-Binds (Pattern.tuple ps sp) Ty.error env h = Binds.tuple_of_error
  bind_pattern-Binds (Pattern.tuple ps sp) _ env h = cc

  bind_patterns-BindAll :
      (ps : Patterns) (ts : Tys) (env : TypeEnv)
      → count_patterns ps ≡ count_types ts
      → (bind_patterns ps ts env).1 ≡ []
      → BindAll ps ts env (bind_patterns ps ts env).0
  bind_patterns-BindAll Patterns.no_patterns Tys.no_tys env n h = BindAll.none_left
  bind_patterns-BindAll (Patterns.pattern_ p ps) (Tys.ty t ts) env n h =
      let (first, later) = ▸-eq-nil (bind_pattern p t) (bind_patterns ps ts) env h in
      let rest =
        bind_patterns-BindAll ps ts (bind_pattern p t env).0 (count_patterns-cons_inj p ps t ts n)
          later in
      BindAll.pattern_ (bind_pattern-Binds p t env first) rest
  bind_patterns-BindAll Patterns.no_patterns (Tys.ty t ts) env n h =
      absurd (let no : 0 ≡ count_types ts + 1 = n in omega arith)
  bind_patterns-BindAll (Patterns.pattern_ p ps) Tys.no_tys env n h =
      absurd (let no : count_patterns ps + 1 ≡ 0 = n in omega arith)

-- By what the port holds.
put-Holds :
    (q : Spanned String) (sp : Span) (t : Ty) (env : TypeEnv) (p : Ty) (held : Option Ty)
    → some p ≡ lookup q.node env
    → port_elem p ≡ held
    → elim held [
      | none ↦ error_at q.span (not_a_queue q.node) ∷ []
      | some expected ↦ report_if (mismatched t expected) sp (put_mismatch expected t)
    ]
      ≡ []
    → (elem : Ty) × Holds env q.node elem × Agree t elem
put-Holds q sp t env p none e held h = cc
put-Holds q sp t env p (some elem) e held h = (
  elem,
  (p, sym e, held),
  (mismatched_iff t elem).0 ((report_if_iff (mismatched t elem) sp (put_mismatch elem t)).0 h),
)

check_put-Holds :
    (q : Spanned String) (sp : Span) (t : Ty) (env : TypeEnv) (found : Option Ty)
    → found ≡ lookup q.node env
    → check_put q sp t found ≡ []
    → (elem : Ty) × Holds env q.node elem × Agree t elem
unfolding check_put
check_put-Holds q sp t env none e h = cc
check_put-Holds q sp t env (some p) e h = put-Holds q sp t env p (port_elem p) e refl h

typed : (e : Expr) (env : TypeEnv) → (check_expr env e).1 ≡ [] → HasType env e (check_expr env e).0
typed e env h = check_expr-HasType env e _ (pair-path (check_expr env e) _ refl h)

pub body_restores : (ss : Stmts) (env : TypeEnv) → (in_scope (check_stmts ss) env).0 ≡ env
body_restores ss env =
    in_scope-state (check_stmts ss) env (pop_scope-check_stmts ss (push_scope env))

pub arm_restores :
    (p : Pattern) (t : Ty) (body : Stmts) (env : TypeEnv)
    → (in_scope (λ inner. check_stmts body (bind_match_pattern p t inner)) env).0 ≡ env
arm_restores p t body env =
    in_scope-state (λ inner. check_stmts body (bind_match_pattern p t inner)) env
      (pop_scope-check_stmts body (bind_match_pattern p t (push_scope env))
        ∙ pop_scope-bind_match_pattern p t (push_scope env))

mutual
  unfolding check_stmt check_stmts check_match_arms examine in_scope ◌▸◌

  check_stmt-StmtOk :
      (s : Stmt) (env : TypeEnv) → (check_stmt s env).1 ≡ [] → StmtOk s env (check_stmt s env).0
  check_stmt-StmtOk (Stmt.let_ p e sp) env h =
      let (value, bound) = ▸-eq-nil (examine e) (bind_pattern p (check_expr env e).0) env h in
      StmtOk.let_ (typed e env value) (bind_pattern-Binds p (check_expr env e).0 env bound)
  check_stmt-StmtOk (Stmt.put q e sp) env h =
      let (value, fits) = append-eq-nil (check_expr env e).1 _ h in
      let (elem, holds, agree) =
        check_put-Holds q (expr_span e) (check_expr env e).0 env (lookup q.node env) refl fits in
      StmtOk.put (typed e env value) holds agree
  check_stmt-StmtOk (Stmt.expr e sp) env h = StmtOk.expr (typed e env h)
  check_stmt-StmtOk (Stmt.match_ e arms sp) env h =
      let t = (check_expr env e).0 in
      let (value, clean) = ▸-eq-nil (examine e) (check_match_arms t arms) env h in
      subst (StmtOk (Stmt.match_ e arms sp) env) (sym (check_match_arms-state t arms env))
        (StmtOk.match_ (typed e env value) (check_match_arms-ArmsOk t arms env clean))
  check_stmt-StmtOk (Stmt.if_ c then_body else_body sp) env h =
      let t = (check_expr env c).0 in
      let test : Pass TypeEnv =
        λ after. (after, report_if (not_bool t) (expr_span c) (non_bool_condition t)) in
      let bodies : Pass TypeEnv =
        in_scope (check_stmts then_body) ▸ in_scope (check_stmts else_body) in
      let (value, h') = ▸-eq-nil (examine c) (test ▸ bodies) env h in
      let (truth, h'') =
        append-eq-nil (report_if (not_bool t) (expr_span c) (non_bool_condition t)) _ h' in
      let (first, later) =
        ▸-eq-nil (in_scope (check_stmts then_body)) (in_scope (check_stmts else_body)) env h'' in
      let restored = body_restores then_body env in
      let second : (check_stmts else_body (push_scope env)).1 ≡ [] =
        subst (λ e. (in_scope (check_stmts else_body) e).1 ≡ []) restored later in
      subst (StmtOk (Stmt.if_ c then_body else_body sp) env)
        (sym (body_restores else_body (in_scope (check_stmts then_body) env).0 ∙ restored))
        (StmtOk.if_ (typed c env value)
          ((not_bool_iff t).0
            ((report_if_iff (not_bool t) (expr_span c) (non_bool_condition t)).0 truth))
          (check_stmts-StmtsOk then_body (push_scope env) first)
          (check_stmts-StmtsOk else_body (push_scope env) second))

  pub check_stmts-StmtsOk :
      (ss : Stmts) (env : TypeEnv)
      → (check_stmts ss env).1 ≡ []
      → StmtsOk ss env (check_stmts ss env).0
  check_stmts-StmtsOk Stmts.done env h = StmtsOk.done
  check_stmts-StmtsOk (Stmts.stmt s ss) env h =
      let (first, later) = ▸-eq-nil (check_stmt s) (check_stmts ss) env h in
      StmtsOk.stmt (check_stmt-StmtOk s env first)
        (check_stmts-StmtsOk ss (check_stmt s env).0 later)

  check_match_arms-ArmsOk :
      (t : Ty) (arms : Arms) (env : TypeEnv)
      → (check_match_arms t arms env).1 ≡ []
      → ArmsOk t arms env
  check_match_arms-ArmsOk t Arms.no_arms env h = ArmsOk.no_arms
  check_match_arms-ArmsOk t (Arms.arm p body rest) env h =
      let here : Pass TypeEnv = λ inner. check_stmts body (bind_match_pattern p t inner) in
      let (first, later) = ▸-eq-nil (in_scope here) (check_match_arms t rest) env h in
      ArmsOk.arm (bind_match_pattern-Matches p t (push_scope env))
        (check_stmts-StmtsOk body (bind_match_pattern p t (push_scope env)) first)
        (check_match_arms-ArmsOk t rest env
          (subst (λ e. (check_match_arms t rest e).1 ≡ []) (arm_restores p t body env) later))
