-- ===== src/Base/Dict.antt =====
-- A map as an association list: each key stands at most once when it is built by `insert`.
-- The order of the entries is the order of the first insertions.
use mathlib.Core.Path.{◌≡◌, refl}
use mathlib.Core.Bool.{Bool, true, false}
use mathlib.Core.Option.{Option, none, some}
use mathlib.Core.List.{List, [], ◌∷◌}
use native.Mathlib.Omega.{arith}
use tourbillon.Base.Tests.{if◌then◌else◌}
use tourbillon.Base.Equality.{Eq, ◌==◌, ==_iff}

abbrev pub Dict {κ ν} : Type κ → Type ν → Type (κ ⊔ ν)
Dict K V = List (K × V)

module _ {κ ν} {K : Type κ} {V : Type ν} ⦃q : Eq K⦄ where
  -- `get`
  unfoldable pub lookup : (key : K) (entries : Dict K V) → Option V
  lookup key ((name, value) ∷ entries) = if name == key then some value else lookup key entries
  lookup key [] = none

  -- `insert`, which overwrites the value of a key that is there.
  unfoldable pub insert : (key : K) (new : V) (entries : Dict K V) → Dict K V
  insert key new ((name, value) ∷ entries) =
      if name == key then (key, new) ∷ entries else (name, value) ∷ insert key new entries
  insert key new [] = (key, new) ∷ []

  -- `contains_key`
  unfoldable pub has_key : (key : K) (entries : Dict K V) → Bool
  unfolding lookup
  has_key key entries = elim (lookup key entries) [ none ↦ false | some _ ↦ true ]

  pub lookup-insert :
      (written read : K) (new : V) (entries : Dict K V)
      → lookup read (insert written new entries)
        ≡ (if written == read then some new else lookup read entries)
  unfolding lookup insert
  lookup-insert written read new ((name, value) ∷ entries) =
      let later = lookup-insert written read new entries in
      ground (arith, ==_iff name read, ==_iff name written, ==_iff written read)
  lookup-insert written read new [] = refl
