-- ===== src/Base/Sets.antt =====
-- A set as a list without repetition, with `insert` as the only way to grow it.
use mathlib.Core.Path.{◌≡◌, refl}
use mathlib.Core.Bool.{Bool, false, ◌||◌, ◌&&◌, not}
use mathlib.Core.List.{List, [], ◌∷◌, ◌++◌}
use native.Mathlib.Omega.{arith}
use tourbillon.Base.Tests.{if◌then◌else◌}
use tourbillon.Base.Equality.{Eq, ◌==◌, ==_iff}

module _ {ℓ} {A : Type ℓ} ⦃e : Eq A⦄ where
  unfoldable pub contains : List A → A → Bool
  contains [] a = false
  contains (x ∷ xs) a = x == a || contains xs a

  unfoldable pub insert : A → List A → List A
  insert a xs = if contains xs a then xs else xs ++ a ∷ []

  unfoldable pub remove : A → List A → List A
  remove a [] = []
  remove a (x ∷ xs) = let rest = remove a xs in if x == a then rest else x ∷ rest

  pub contains-append :
      (xs ys : List A) (a : A) → contains (xs ++ ys) a ≡ (contains xs a || contains ys a)
  unfolding contains
  contains-append [] ys a = refl
  contains-append (x ∷ xs) ys a = ground (arith, contains-append xs ys a)

  pub contains-insert :
      (b : A) (xs : List A) (a : A) → contains (insert b xs) a ≡ (b == a || contains xs a)
  unfolding contains insert
  contains-insert b xs a = ground (arith, contains-append xs (b ∷ []) a, ==_iff b a)

  pub contains-remove :
      (b : A) (xs : List A) (a : A) → contains (remove b xs) a ≡ (not (b == a) && contains xs a)
  unfolding contains remove
  contains-remove b [] a = ground arith
  contains-remove b (x ∷ xs) a =
      ground (arith, contains-remove b xs a, ==_iff b a, ==_iff x a, ==_iff x b)
