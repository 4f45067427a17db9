-- ===== src/Types/Check/Scopes.antt =====
-- The scope stack through the checking of statements, src/types/check.rs.
use tourbillon.Base.{String, List, [], ◌∷◌, ◌≡◌, refl, ap, ◌∙◌, nat_eq, string_eq, arith}
use tourbillon.Ast.{Pattern, Patterns, Stmt, Stmts, Arms}
use tourbillon.Types.Ty.{Ty, Tys}
use tourbillon.Types.Env.{TypeEnv, define, push_scope, pop_scope, rest_of, define_in}
use tourbillon.Types.Check.Statements.{
  bind_match_pattern, bind_only, bind_match_patterns, bind_pattern, bind_patterns, reject_tuple,
  find_variant, in_scope, examine, check_stmt, check_match_arms, check_stmts,
}
use tourbillon.Diagnostics.{Pass, ◌▸◌}

rest_of-define_in :
    (name : String) (ty : Ty) (scopes : List _)
    → rest_of (define_in name ty scopes) ≡ rest_of scopes
rest_of-define_in name ty [] = refl
rest_of-define_in name ty (_ ∷ _) = refl

pop_scope-define :
    (name : String) (ty : Ty) (env : TypeEnv) → pop_scope (define name ty env) ≡ pop_scope env
unfolding pop_scope define
pop_scope-define name ty env = rw (rest_of-define_in name ty env.scopes)

pop_scope-push_scope : (env : TypeEnv) → pop_scope (push_scope env) ≡ env
unfolding pop_scope push_scope
pop_scope-push_scope env = refl

mutual
  unfolding bind_match_pattern bind_only bind_match_patterns

  pub pop_scope-bind_match_pattern :
      (p : Pattern) (ty : Ty) (env : TypeEnv)
      → pop_scope (bind_match_pattern p ty env) ≡ pop_scope env
  pop_scope-bind_match_pattern (Pattern.bind name _) ty env = pop_scope-define name ty env
  pop_scope-bind_match_pattern (Pattern.variant name fields _) (Ty.option inner) env =
      ground (arith, pop_scope-bind_only fields inner env)
  pop_scope-bind_match_pattern (Pattern.variant name fields _) (Ty.enum _ variants) env =
      pop_scope-bind_match_patterns fields (find_variant name variants) env
  pop_scope-bind_match_pattern (Pattern.tuple parts _) (Ty.tuple tys) env =
      pop_scope-bind_match_patterns parts tys env
  pop_scope-bind_match_pattern _ _ env = refl

  pop_scope-bind_only :
      (ps : Patterns) (ty : Ty) (env : TypeEnv) → pop_scope (bind_only ps ty env) ≡ pop_scope env
  pop_scope-bind_only (Patterns.pattern_ p Patterns.no_patterns) ty env =
      pop_scope-bind_match_pattern p ty env
  pop_scope-bind_only _ ty env = refl

  pop_scope-bind_match_patterns :
      (ps : Patterns) (tys : Tys) (env : TypeEnv)
      → pop_scope (bind_match_patterns ps tys env) ≡ pop_scope env
  pop_scope-bind_match_patterns (Patterns.pattern_ p ps) (Tys.ty t ts) env =
      pop_scope-bind_match_patterns ps ts (bind_match_pattern p t env)
      ∙ pop_scope-bind_match_pattern p t env
  pop_scope-bind_match_patterns _ _ env = refl

mutual
  unfolding bind_pattern bind_patterns reject_tuple ◌▸◌

  pop_scope-bind_pattern :
      (p : Pattern) (ty : Ty) (env : TypeEnv) → pop_scope (bind_pattern p ty env).0 ≡ pop_scope env
  pop_scope-bind_pattern (Pattern.bind name _) ty env = pop_scope-define name ty env
  pop_scope-bind_pattern (Pattern.tuple parts sp) (Ty.tuple tys) env =
      ground (arith, pop_scope-bind_patterns parts tys env)
  pop_scope-bind_pattern _ _ env = refl

  pop_scope-bind_patterns :
      (ps : Patterns) (tys : Tys) (env : TypeEnv)
      → pop_scope (bind_patterns ps tys env).0 ≡ pop_scope env
  pop_scope-bind_patterns (Patterns.pattern_ p ps) (Tys.ty t ts) env =
      pop_scope-bind_patterns ps ts (bind_pattern p t env).0 ∙ pop_scope-bind_pattern p t env
  pop_scope-bind_patterns _ _ env = refl

-- A scope that is popped again leaves the environment as it was.
pub in_scope-state :
    (body : Pass TypeEnv) (env : TypeEnv)
    → pop_scope (body (push_scope env)).0 ≡ pop_scope (push_scope env)
    → (in_scope body env).0 ≡ env
unfolding in_scope
in_scope-state body env h = h ∙ pop_scope-push_scope env

mutual
  unfolding check_stmt check_match_arms check_stmts ◌▸◌ examine

  pop_scope-check_stmt : (s : Stmt) (env : TypeEnv) → pop_scope (check_stmt s env).0 ≡ pop_scope env
  pop_scope-check_stmt (Stmt.let_ pattern value _) env = pop_scope-bind_pattern pattern _ env
  pop_scope-check_stmt (Stmt.put target value _) env = refl
  pop_scope-check_stmt (Stmt.expr e _) env = refl
  pop_scope-check_stmt (Stmt.match_ scrutinee arms _) env =
      ap pop_scope (check_match_arms-state _ arms env)
  pop_scope-check_stmt (Stmt.if_ cond then_body else_body _) env =
      let after = (in_scope (check_stmts then_body) env).0 in
      ap pop_scope (
        in_scope-state (check_stmts else_body) after
          (pop_scope-check_stmts else_body (push_scope after))
        ∙ in_scope-state (check_stmts then_body) env
            (pop_scope-check_stmts then_body (push_scope env)))

  pub check_match_arms-state :
      (ty : Ty) (arms : Arms) (env : TypeEnv) → (check_match_arms ty arms env).0 ≡ env
  check_match_arms-state ty Arms.no_arms env = refl
  check_match_arms-state ty (Arms.arm pattern body rest) env =
      let here : Pass TypeEnv = λ inner. check_stmts body (bind_match_pattern pattern ty inner) in
      check_match_arms-state ty rest (in_scope here env).0
      ∙ in_scope-state here env (
          pop_scope-check_stmts body (bind_match_pattern pattern ty (push_scope env))
          ∙ pop_scope-bind_match_pattern pattern ty (push_scope env))

  pub pop_scope-check_stmts :
      (ss : Stmts) (env : TypeEnv) → pop_scope (check_stmts ss env).0 ≡ pop_scope env
  pop_scope-check_stmts Stmts.done env = refl
  pop_scope-check_stmts (Stmts.stmt s ss) env =
      pop_scope-check_stmts ss (check_stmt s env).0 ∙ pop_scope-check_stmt s env

-- Checking statements changes at most the innermost scope: the outer scopes and all the other parts
-- of the environment stay. So a body that is checked in a scope of its own, which is popped after
-- it, leaves the environment exactly as it was, and so do the arms of a match.
pub check_stmts-scopes :
    (ss : Stmts) (env : TypeEnv)
    → (pop_scope (check_stmts ss env).0 ≡ pop_scope env)
      × ((in_scope (check_stmts ss) env).0 ≡ env)
      × ((ty : Ty) (arms : Arms) → (check_match_arms ty arms env).0 ≡ env)
check_stmts-scopes ss env = (
  pop_scope-check_stmts ss env,
  in_scope-state (check_stmts ss) env (pop_scope-check_stmts ss (push_scope env)),
  λ ty arms. check_match_arms-state ty arms env,
)
