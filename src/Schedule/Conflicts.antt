-- ===== src/Schedule/Conflicts.antt =====
-- Which pairs of rules `build_conflict_pairs` finds.
use tourbillon.Base.{
  ℕ, ◌+◌, ◌-◌, Bool, true, false, ◌||◌, ◌&&◌, ◌≡◌, refl, ◌↔◌, inl, inr, List, [], ◌∷◌, ◌++◌, Option,
  none, some, ltb, leb, get_elem?, get_elem?-sub_lt, get_elem?-sub_eq, ◌==◌, ==_iff, nat_eq,
  Bool-cases, if◌then◌else◌, arith, and-eq-true, sym, ◌∙◌, ltb→lt, ◌<◌,
}
use tourbillon.Base.Sets.{contains}
use tourbillon.Schedule.{
  RuleResources, intersects, conflicts_of, conflicts_from, build_conflict_pairs, has_pair,
}

-- Two rules of a list mutate a common edge.
abbrev pub shares_edge : RuleResources → Option RuleResources → Bool
shares_edge r none = false
shares_edge r (some s) = intersects r.mutable_edges s.mutable_edges

abbrev pub share_edge : List RuleResources → ℕ → ℕ → Bool
share_edge rs i j = elim (get_elem? rs i) [ none ↦ false | some r ↦ shares_edge r (get_elem? rs j) ]

-- An intersection that is not empty has a member.
pub intersects_iff :
    (xs ys : List ℕ)
    → (intersects xs ys ≡ true) ↔ ((e : ℕ) × (contains xs e ≡ true) × (contains ys e ≡ true))
unfolding intersects contains
intersects_iff xs ys = (forth xs, back xs)
  where
    forth :
        (xs : List ℕ)
        → intersects xs ys ≡ true
        → (e : ℕ) × (contains xs e ≡ true) × (contains ys e ≡ true)
    forth [] h = cc
    forth (x ∷ xs) h = elim (Bool-cases (contains ys x)) [
      | inl found ↦ (x, ground (arith, ==_iff x x), found)
      | inr missing ↦ let (e, hx, hy) = forth xs (rw missing at h) in (e, ground arith, hy)
    ]

    back :
        (xs : List ℕ)
        → (e : ℕ) × (contains xs e ≡ true) × (contains ys e ≡ true)
        → intersects xs ys ≡ true
    back [] (e, hx, hy) = cc
    back (x ∷ xs) (e, hx, hy) = elim (Bool-cases (x == e)) [
      | inl same ↦ ground (arith, ==_iff x e)
      | inr other ↦ ground (arith, back xs (e, rw other at hx, hy))
    ]

has_pair-append :
    (ps qs : List (ℕ × ℕ)) (a b : ℕ)
    → has_pair (ps ++ qs) a b ≡ (has_pair ps a b || has_pair qs a b)
unfolding has_pair
has_pair-append [] qs a b = refl
has_pair-append ((x, y) ∷ ps) qs a b = ground (arith, has_pair-append ps qs a b)

has_pair-conflicts_of :
    (i : ℕ) (r : RuleResources) (j : ℕ) (rest : List RuleResources) (a b : ℕ)
    → has_pair (conflicts_of i r j rest) a b
      ≡ (i == a && (leb j b && shares_edge r (get_elem? rest (b - j))))
unfolding conflicts_of has_pair
has_pair-conflicts_of i r j [] a b = ground arith
has_pair-conflicts_of i r j (s ∷ rest) a b = ground (
  arith,
  has_pair-append (if intersects r.mutable_edges s.mutable_edges then (i, j) ∷ [] else [])
      (conflicts_of i r (j + 1) rest) a b,
  has_pair-conflicts_of i r (j + 1) rest a b,
  get_elem?-sub_lt s rest b j,
  get_elem?-sub_eq s rest b j,
)

has_pair-conflicts_from :
    (i : ℕ) (rs : List RuleResources) (a b : ℕ)
    → has_pair (conflicts_from i rs) a b ≡ (leb i a && (ltb a b && share_edge rs (a - i) (b - i)))
unfolding conflicts_from has_pair
has_pair-conflicts_from i [] a b = ground arith
has_pair-conflicts_from i (r ∷ rest) a b = ground (
  arith,
  has_pair-append (conflicts_of i r (i + 1) rest) (conflicts_from (i + 1) rest) a b,
  has_pair-conflicts_of i r (i + 1) rest a b,
  has_pair-conflicts_from (i + 1) rest a b,
  get_elem?-sub_lt r rest a i,
  get_elem?-sub_eq r rest a i,
  get_elem?-sub_lt r rest b i,
)

pub build_conflict_pairs_lem :
    (rs : List RuleResources) (i j : ℕ)
    → has_pair (build_conflict_pairs rs) i j ≡ (ltb i j && share_edge rs i j)
unfolding build_conflict_pairs
build_conflict_pairs_lem rs i j =
    let at_i : i - 0 ≡ i = omega arith in
    let at_j : j - 0 ≡ j = omega arith in ground (arith, has_pair-conflicts_from 0 rs i j)

-- Rules i and j are rules of the list, and an edge is mutated by both.
abbrev pub MutateCommon : List RuleResources → ℕ → ℕ → Type 0
MutateCommon rs i j =
    (r : RuleResources) × (s : RuleResources) × (get_elem? rs i ≡ some r)
    × (get_elem? rs j ≡ some s)
    × ((e : ℕ) × (contains r.mutable_edges e ≡ true) × (contains s.mutable_edges e ≡ true))

found_iff :
    (o p : Option RuleResources)
    → (elim o [ none ↦ false | some r ↦ shares_edge r p ] ≡ true) ↔ (
        (r : RuleResources) × (s : RuleResources) × (o ≡ some r)
        × (p ≡ some s)
        × ((e : ℕ) × (contains r.mutable_edges e ≡ true) × (contains s.mutable_edges e ≡ true)))
found_iff none p = ((λ h. absurd (cc)), λ (r, s, at_i, _, _). absurd (cc))
found_iff (some r) none = ((λ h. absurd (cc)), λ (_, s, _, at_j, _). absurd (cc))
found_iff (some r) (some s) =
    let same = intersects_iff r.mutable_edges s.mutable_edges in
    (
      (λ h. (r, s, refl, refl, same.0 h)),
      λ (r', s', at_i, at_j, (x, in_r, in_s)).
          let first : r ≡ r' = cc in
          let second : s ≡ s' = cc in same.1 (x, rw first in_r, rw second in_s),
    )

share_edge_iff :
    (rs : List RuleResources) (i j : ℕ) → (share_edge rs i j ≡ true) ↔ MutateCommon rs i j
share_edge_iff rs i j = found_iff (get_elem? rs i) (get_elem? rs j)

-- A pair (i, j) is in the set of conflicts exactly when i < j, i and j are indices of rules, and
-- there is an edge among the mutable edges of both.
pub build_conflict_pairs_iff :
    (rs : List RuleResources) (i j : ℕ)
    → (has_pair (build_conflict_pairs rs) i j ≡ true) ↔ ((i < j) × MutateCommon rs i j)
build_conflict_pairs_iff rs i j =
    let same = build_conflict_pairs_lem rs i j in
    let common = share_edge_iff rs i j in
    (
      (λ h.
          let (lt, shared) = and-eq-true (ltb i j) (share_edge rs i j) (sym same ∙ h) in
          (ltb→lt i j lt, common.0 shared)),
      λ (lt, shared). same ∙ ground (arith, common.1 shared),
    )
