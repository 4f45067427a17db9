-- ===== src/Types/Env/Scopes.antt =====
-- Definitions and lookups in the scope stack, src/types/env.rs.
use tourbillon.Base.{
  String, List, [], ◌∷◌, some, ◌≡◌, ◌≢◌, refl, ◌==◌, string_eq, if◌then◌else◌, arith,
}
use tourbillon.Base.Dict
use tourbillon.Base.Dict.{lookup-insert}
use tourbillon.Types.Ty.{Ty}
use tourbillon.Types.Env.{TypeEnv, push_scope, pop_scope, define, define_in, lookup, lookup_in}

lookup_in-define_in :
    (written read : String) (ty : Ty) (scopes : List _)
    → scopes ≢ []
    → lookup_in read (define_in written ty scopes)
      ≡ (if written == read then some ty else lookup_in read scopes)
unfolding lookup_in
lookup_in-define_in written read ty [] h = absurd (h refl)
lookup_in-define_in written read ty (scope ∷ scopes) h =
    ground (arith, lookup-insert written read ty scope)

-- In an environment with a scope, a definition is found under its own name and hides what the name
-- meant before, and every other name keeps its meaning; a new scope hides nothing; and popping the
-- scope that the definition went into restores the environment.
pub lookup-define :
    (written read : String) (ty : Ty) (env : TypeEnv)
    → env.scopes ≢ []
    → (lookup read (define written ty env) ≡ (if written == read then some ty else lookup read env))
      × (lookup read (push_scope env) ≡ lookup read env)
      × (pop_scope (define written ty (push_scope env)) ≡ env)
unfolding lookup define push_scope pop_scope lookup_in Dict.lookup
lookup-define written read ty env h = (lookup_in-define_in written read ty env.scopes h, refl, refl)
