-- ===== src/Base/Lists.antt =====
-- Lists measured by native numbers, and predicates on them.
use Prim.Native.Nat.{ℕ, zero, suc, ◌+◌, ◌-◌, ◌<◌}
use mathlib.Core.Path.{◌≡◌, refl}
use mathlib.Core.List.{List, [], ◌∷◌, ◌++◌}
use mathlib.Core.Option.{Option, none, some}
use mathlib.Core.Logic.{◌↔◌, ◌⊎◌, inl, inr}
use native.Mathlib.Omega.{arith}

module _ {ℓ} {A : Type ℓ} where
  abbrev pub length : List A → ℕ
  length [] = 0
  length (x ∷ xs) = suc (length xs)

  abbrev pub get_elem? : List A → ℕ → Option A
  get_elem? [] i = none
  get_elem? (x ∷ xs) zero = some x
  get_elem? (x ∷ xs) (suc i) = get_elem? xs i

  -- The element at an index, changed.
  abbrev pub update : ℕ → (A → A) → List A → List A
  update i f [] = []
  update zero f (x ∷ xs) = f x ∷ xs
  update (suc i) f (x ∷ xs) = x ∷ update i f xs

  pub length-append : (xs ys : List A) → length (xs ++ ys) ≡ length xs + length ys
  length-append [] ys = omega arith
  length-append (x ∷ xs) ys = omega (arith, length-append xs ys)

  pub append-eq-nil : (xs ys : List A) → xs ++ ys ≡ [] → (xs ≡ []) × (ys ≡ [])
  append-eq-nil [] ys h = (refl, h)
  append-eq-nil (x ∷ xs) ys h = cc

-- Reading at `b - j` behind an element that stands at `j`.
module _ {ℓ} {A : Type ℓ} (x : A) (xs : List A) (b j : ℕ) where
  pub get_elem?-sub_lt : j < b → get_elem? (x ∷ xs) (b - j) ≡ get_elem? xs (b - (j + 1))
  get_elem?-sub_lt h = let e : b - j ≡ suc (b - (j + 1)) = omega arith in rw e

  pub get_elem?-sub_eq : b ≡ j → get_elem? (x ∷ xs) (b - j) ≡ some x
  get_elem?-sub_eq h = let e : b - j ≡ zero = omega arith in rw e

-- A predicate that holds of every element, as a tuple.
module _ {ℓ κ} {A : Type ℓ} (P : A → Type κ) where
  abbrev pub All : List A → Type κ
  All (first ∷ rest) = P first × All rest
  All [] = Unit

-- A predicate that holds of some element.
module _ {ℓ} {A : Type ℓ} (P : A → Type 0) where
  abbrev pub Any : List A → Type 0
  Any [] = ⊥
  Any (first ∷ rest) = P first ⊎ Any rest

  pub Any-append : (xs ys : List A) → Any (xs ++ ys) ↔ (Any xs ⊎ Any ys)
  Any-append [] ys = ((λ h. inr h), λ h. elim h [ inl x ↦ absurd x | inr y ↦ y ])
  Any-append (x ∷ xs) ys =
      let rest = Any-append xs ys in
      (
        (λ h. elim h [
          | inl here ↦ inl (inl here)
          | inr there ↦ elim (rest.0 there) [ inl a ↦ inl (inr a) | inr b ↦ inr b ]
        ]),
        λ h. elim h [
          | inl (inl here) ↦ inl here
          | inl (inr there) ↦ inr (rest.1 (inl there))
          | inr b ↦ inr (rest.1 (inr b))
        ],
      )
