-- ===== src/Types/Check/StatementRules/Matching.antt =====
-- The patterns of match arms, `bind_match_pattern` of src/types/check.rs, against their rules.
use tourbillon.Base.{
  String, ◌≡◌, ◌≢◌, ◌⊎◌, inl, inr, refl, sym, ap, ◌∙◌, subst, ◌==◌, ==_iff, ==_refl, string_eq,
  Bool-cases,
}
use tourbillon.Ast.{Span, Pattern, Patterns}
use tourbillon.Types.Ty.{Ty, Tys, Variants}
use tourbillon.Types.Env.{TypeEnv}
use tourbillon.Types.Check.Statements.{
  find_variant, bind_match_pattern, bind_only, bind_match_patterns,
}
use tourbillon.Types.Check.StatementRules.{
  Declares, HasOne, HasVariants, IsTuple, Matches, MatchesAll,
}

find_variant-Declares : (name : String) (vs : Variants) → Declares vs name (find_variant name vs)
unfolding find_variant
find_variant-Declares name Variants.no_variants = Declares.undeclared
find_variant-Declares name (Variants.variant n ts vs) = elim (Bool-cases (n == name)) [
  | inl e ↦
      rw e
        (subst (λ x. Declares (Variants.variant n ts vs) x ts) ((==_iff n name).0 e) Declares.here)
  | inr e ↦ rw e (
      Declares.later (λ same. absurd (cc ((==_iff n name).1 same, e)))
        (find_variant-Declares name vs))
]

Declares-find_variant :
    (name : String) (vs : Variants) (ts : Tys) → Declares vs name ts → find_variant name vs ≡ ts
unfolding find_variant
Declares-find_variant name (Variants.variant n ts vs) us Declares.here = rw (==_refl n) refl
Declares-find_variant name (Variants.variant n us vs) ts (Declares.later other rest) =
    elim (Bool-cases (n == name)) [
      | inl e ↦ absurd (other ((==_iff n name).0 e))
      | inr e ↦ rw e (Declares-find_variant name vs ts rest)
    ]
Declares-find_variant name Variants.no_variants _ Declares.undeclared = refl

mutual
  unfolding bind_match_pattern

  pub bind_match_pattern-Matches :
      (p : Pattern) (t : Ty) (env : TypeEnv) → Matches p t env (bind_match_pattern p t env)
  bind_match_pattern-Matches (Pattern.wildcard sp) t env = Matches.wildcard
  bind_match_pattern-Matches (Pattern.literal l sp) t env = Matches.literal
  bind_match_pattern-Matches (Pattern.bind name sp) t env = Matches.bind
  bind_match_pattern-Matches (Pattern.variant name ps sp) (Ty.option inner) env =
      elim (Bool-cases (name == "Some")) [
        | inl e ↦ rw e (
            subst
              (λ x.
                Matches (Pattern.variant x ps sp) (Ty.option inner) env (bind_only ps inner env))
              (sym ((==_iff name "Some").0 e)) (bind_only-Matches ps sp inner env))
        | inr e ↦
            rw e (Matches.no_some (inl (λ same. absurd (cc ((==_iff name "Some").1 same, e)))))
      ]
  bind_match_pattern-Matches (Pattern.variant name ps sp) (Ty.enum n vs) env =
      Matches.variant (find_variant-Declares name vs)
        (bind_match_patterns-MatchesAll ps (find_variant name vs) env)
  bind_match_pattern-Matches (Pattern.variant name ps sp) t env =
      Matches.no_variant (λ absent. absent)
  bind_match_pattern-Matches (Pattern.tuple ps sp) (Ty.tuple ts) env =
      Matches.tuple (bind_match_patterns-MatchesAll ps ts env)
  bind_match_pattern-Matches (Pattern.tuple ps sp) t env = Matches.no_tuple (λ absent. absent)

  bind_only-Matches :
      (ps : Patterns) (sp : Span) (t : Ty) (env : TypeEnv)
      → Matches (Pattern.variant "Some" ps sp) (Ty.option t) env (bind_only ps t env)
  bind_only-Matches (Patterns.pattern_ p Patterns.no_patterns) sp t env =
      Matches.some_ (bind_match_pattern-Matches p t env)
  bind_only-Matches ps sp t env = Matches.no_some (inr (λ absent. absent))

  bind_match_patterns-MatchesAll :
      (ps : Patterns) (ts : Tys) (env : TypeEnv)
      → MatchesAll ps ts env (bind_match_patterns ps ts env)
  bind_match_patterns-MatchesAll (Patterns.pattern_ p ps) (Tys.ty t ts) env =
      MatchesAll.both (bind_match_pattern-Matches p t env)
        (bind_match_patterns-MatchesAll ps ts (bind_match_pattern p t env))
  bind_match_patterns-MatchesAll Patterns.no_patterns ts env = MatchesAll.no_patterns
  bind_match_patterns-MatchesAll (Patterns.pattern_ p ps) Tys.no_tys env = MatchesAll.no_tys

no_variants :
    (name : String) (ps : Patterns) (sp : Span) (t : Ty) (env : TypeEnv)
    → ¬ HasVariants t
    → bind_match_pattern (Pattern.variant name ps sp) t env ≡ env
unfolding bind_match_pattern
no_variants name ps sp (Ty.option _) env h = absurd (h tt)
no_variants name ps sp (Ty.enum _ _) env h = absurd (h tt)
no_variants name ps sp t env h = refl

not_tuple :
    (ps : Patterns) (sp : Span) (t : Ty) (env : TypeEnv)
    → ¬ IsTuple t
    → bind_match_pattern (Pattern.tuple ps sp) t env ≡ env
unfolding bind_match_pattern
not_tuple ps sp (Ty.tuple _) env h = absurd (h tt)
not_tuple ps sp t env h = refl

not_one : (ps : Patterns) (t : Ty) (env : TypeEnv) → ¬ HasOne ps → bind_only ps t env ≡ env
unfolding bind_match_pattern
not_one (Patterns.pattern_ _ Patterns.no_patterns) t env h = absurd (h tt)
not_one ps t env h = refl

no_some_binds :
    (name : String) (ps : Patterns) (sp : Span) (inner : Ty) (env : TypeEnv)
    → (name ≢ "Some") ⊎ (¬ HasOne ps)
    → bind_match_pattern (Pattern.variant name ps sp) (Ty.option inner) env ≡ env
unfolding bind_match_pattern
no_some_binds name ps sp inner env h = elim (Bool-cases (name == "Some")) [
  | inl e ↦ elim h [
    | inl other ↦ absurd (other ((==_iff name "Some").0 e))
    | inr many ↦ rw e (not_one ps inner env many)
  ]
  | inr e ↦ rw e refl
]

mutual
  unfolding bind_match_pattern

  pub Matches-bind_match_pattern :
      (p : Pattern) (t : Ty) (env after : TypeEnv)
      → Matches p t env after
      → bind_match_pattern p t env ≡ after
  Matches-bind_match_pattern _ t env _ Matches.wildcard = refl
  Matches-bind_match_pattern _ t env _ Matches.literal = refl
  Matches-bind_match_pattern _ t env _ Matches.bind = refl
  Matches-bind_match_pattern (Pattern.variant _ (Patterns.pattern_ p _) _) (Ty.option inner) env
        after (Matches.some_ m) =
      Matches-bind_match_pattern p inner env after m
  Matches-bind_match_pattern (Pattern.variant name ps sp) (Ty.option inner) env _
        (Matches.no_some h) =
      no_some_binds name ps sp inner env h
  Matches-bind_match_pattern (Pattern.variant name ps sp) (Ty.enum n vs) env after
        (Matches.variant {ts = ts} found m) =
      ap (λ us. bind_match_patterns ps us env) (Declares-find_variant name vs ts found)
      ∙ MatchesAll-bind_match_patterns ps ts env after m
  Matches-bind_match_pattern (Pattern.variant name ps sp) t env _ (Matches.no_variant h) =
      no_variants name ps sp t env h
  Matches-bind_match_pattern (Pattern.tuple ps sp) (Ty.tuple ts) env after (Matches.tuple m) =
      MatchesAll-bind_match_patterns ps ts env after m
  Matches-bind_match_pattern (Pattern.tuple ps sp) t env _ (Matches.no_tuple h) =
      not_tuple ps sp t env h

  MatchesAll-bind_match_patterns :
      (ps : Patterns) (ts : Tys) (env after : TypeEnv)
      → MatchesAll ps ts env after
      → bind_match_patterns ps ts env ≡ after
  MatchesAll-bind_match_patterns _ ts env _ MatchesAll.no_patterns = refl
  MatchesAll-bind_match_patterns Patterns.no_patterns _ env _ MatchesAll.no_tys = refl
  MatchesAll-bind_match_patterns (Patterns.pattern_ _ _) _ env _ MatchesAll.no_tys = refl
  MatchesAll-bind_match_patterns (Patterns.pattern_ p ps) (Tys.ty t ts) env after
        (MatchesAll.both {between = between} m ms) =
      ap (bind_match_patterns ps ts) (Matches-bind_match_pattern p t env between m)
      ∙ MatchesAll-bind_match_patterns ps ts between after ms
