-- ===== src/Types/Check/StatementRules.antt =====
-- The typing rules of statements, as a relation beside `check_stmt` of src/types/check.rs. A
-- statement takes an environment to the one that the statements after it see.
pub mod Sound
pub mod Complete
pub mod Matching
use tourbillon.Base.{String, ◌≡◌, ◌≢◌, ◌⊎◌}
use tourbillon.Ast.{Span, Spanned, Literal, Expr, Pattern, Patterns, Stmt, Stmts, Arms}
use tourbillon.Types.Ty.{Ty, Tys, Variants}
use tourbillon.Types.Env.{TypeEnv, define, push_scope}
use tourbillon.Types.Check.TypingRules.{Holds, Agree, IsTruth}
use tourbillon.Types.Check.Typing.{HasType}

-- The pattern of a `let`.
mutual
  pub data Binds : Pattern → Ty → (before after : TypeEnv) → Type 0 where
    wildcard : {sp : Span} {t : Ty} {env : TypeEnv} → Binds (Pattern.wildcard sp) t env env
    literal :
        {l : Literal} {sp : Span} {t : Ty} {env : TypeEnv} → Binds (Pattern.literal l sp) t env env
    variant :
        {name : String} {ps : Patterns} {sp : Span} {t : Ty} {env : TypeEnv}
        → Binds (Pattern.variant name ps sp) t env env
    bind :
        {name : String} {sp : Span} {t : Ty} {env : TypeEnv}
        → Binds (Pattern.bind name sp) t env (define name t env)
    tuple :
        {ps : Patterns} {sp : Span} {ts : Tys} {before after : TypeEnv}
        → BindAll ps ts before after
        → Binds (Pattern.tuple ps sp) (Ty.tuple ts) before after
    tuple_of_error :
        {ps : Patterns} {sp : Span} {env : TypeEnv} → Binds (Pattern.tuple ps sp) Ty.error env env

  pub data BindAll : Patterns → Tys → (before after : TypeEnv) → Type 0 where
    none_left : {env : TypeEnv} → BindAll Patterns.no_patterns Tys.no_tys env env
    pattern_ :
        {p : Pattern} {ps : Patterns} {t : Ty} {ts : Tys} {before between after : TypeEnv}
        → Binds p t before between
        → BindAll ps ts between after
        → BindAll (Patterns.pattern_ p ps) (Tys.ty t ts) before after

-- The types of the fields of the first variant of a name; a name that is not declared has none.
pub data Declares : Variants → String → Tys → Type 0 where
  here : {name : String} {ts : Tys} {vs : Variants} → Declares (Variants.variant name ts vs) name ts
  later :
      {name other : String} {ts us : Tys} {vs : Variants}
      → other ≢ name
      → Declares vs name ts
      → Declares (Variants.variant other us vs) name ts
  undeclared : {name : String} → Declares Variants.no_variants name Tys.no_tys

abbrev pub HasOne : Patterns → Type 0
HasOne (Patterns.pattern_ _ Patterns.no_patterns) = Unit
HasOne _ = ⊥

abbrev pub HasVariants : Ty → Type 0
HasVariants (Ty.option _) = Unit
HasVariants (Ty.enum _ _) = Unit
HasVariants _ = ⊥

abbrev pub IsTuple : Ty → Type 0
IsTuple (Ty.tuple _) = Unit
IsTuple _ = ⊥

-- The pattern of a match arm: it binds where its shape and the type agree, and never fails.
-- `Some(p)` on an option binds in `p`, a variant of an enum binds in its fields, as far as both the
-- patterns and the types go.
mutual
  pub data Matches : Pattern → Ty → (before after : TypeEnv) → Type 0 where
    wildcard : {sp : Span} {t : Ty} {env : TypeEnv} → Matches (Pattern.wildcard sp) t env env
    literal :
        {l : Literal} {sp : Span} {t : Ty} {env : TypeEnv}
        → Matches (Pattern.literal l sp) t env env
    bind :
        {name : String} {sp : Span} {t : Ty} {env : TypeEnv}
        → Matches (Pattern.bind name sp) t env (define name t env)
    some_ :
        {p : Pattern} {sp : Span} {inner : Ty} {before after : TypeEnv}
        → Matches p inner before after
        → Matches
            (Pattern.variant "Some" (Patterns.pattern_ p Patterns.no_patterns) sp)
            (Ty.option inner)
            before
            after
    no_some :
        {name : String} {ps : Patterns} {sp : Span} {inner : Ty} {env : TypeEnv}
        → (name ≢ "Some") ⊎ (¬ HasOne ps)
        → Matches (Pattern.variant name ps sp) (Ty.option inner) env env
    variant :
        {name enum : String} {ps : Patterns} {sp : Span} {vs : Variants} {ts : Tys}
        {before after : TypeEnv}
        → Declares vs name ts
        → MatchesAll ps ts before after
        → Matches (Pattern.variant name ps sp) (Ty.enum enum vs) before after
    no_variant :
        {name : String} {ps : Patterns} {sp : Span} {t : Ty} {env : TypeEnv}
        → ¬ HasVariants t
        → Matches (Pattern.variant name ps sp) t env env
    tuple :
        {ps : Patterns} {sp : Span} {ts : Tys} {before after : TypeEnv}
        → MatchesAll ps ts before after
        → Matches (Pattern.tuple ps sp) (Ty.tuple ts) before after
    no_tuple :
        {ps : Patterns} {sp : Span} {t : Ty} {env : TypeEnv}
        → ¬ IsTuple t
        → Matches (Pattern.tuple ps sp) t env env

  pub data MatchesAll : Patterns → Tys → (before after : TypeEnv) → Type 0 where
    no_patterns : {ts : Tys} {env : TypeEnv} → MatchesAll Patterns.no_patterns ts env env
    no_tys : {ps : Patterns} {env : TypeEnv} → MatchesAll ps Tys.no_tys env env
    both :
        {p : Pattern} {ps : Patterns} {t : Ty} {ts : Tys} {before between after : TypeEnv}
        → Matches p t before between
        → MatchesAll ps ts between after
        → MatchesAll (Patterns.pattern_ p ps) (Tys.ty t ts) before after

mutual
  pub data StmtOk : Stmt → (before after : TypeEnv) → Type 0 where
    let_ :
        {p : Pattern} {e : Expr} {sp : Span} {t : Ty} {before after : TypeEnv}
        → HasType before e t
        → Binds p t before after
        → StmtOk (Stmt.let_ p e sp) before after
    put :
        {q : Spanned String} {e : Expr} {sp : Span} {t elem : Ty} {env : TypeEnv}
        → HasType env e t
        → Holds env q.node elem
        → Agree t elem
        → StmtOk (Stmt.put q e sp) env env
    expr :
        {e : Expr} {sp : Span} {t : Ty} {env : TypeEnv}
        → HasType env e t
        → StmtOk (Stmt.expr e sp) env env
    match_ :
        {e : Expr} {arms : Arms} {sp : Span} {t : Ty} {env : TypeEnv}
        → HasType env e t
        → ArmsOk t arms env
        → StmtOk (Stmt.match_ e arms sp) env env
    if_ :
        {c : Expr} {yes no : Stmts} {sp : Span} {t : Ty} {env end_yes end_no : TypeEnv}
        → HasType env c t
        → IsTruth t
        → StmtsOk yes (push_scope env) end_yes
        → StmtsOk no (push_scope env) end_no
        → StmtOk (Stmt.if_ c yes no sp) env env

  pub data StmtsOk : Stmts → (before after : TypeEnv) → Type 0 where
    done : {env : TypeEnv} → StmtsOk Stmts.done env env
    stmt :
        {s : Stmt} {ss : Stmts} {before between after : TypeEnv}
        → StmtOk s before between
        → StmtsOk ss between after
        → StmtsOk (Stmts.stmt s ss) before after

  pub data ArmsOk : Ty → Arms → TypeEnv → Type 0 where
    no_arms : {t : Ty} {env : TypeEnv} → ArmsOk t Arms.no_arms env
    arm :
        {t : Ty} {p : Pattern} {body : Stmts} {rest : Arms} {env inner after : TypeEnv}
        → Matches p t (push_scope env) inner
        → StmtsOk body inner after
        → ArmsOk t rest env
        → ArmsOk t (Arms.arm p body rest) env
