-- ===== src/Schedule/Groups.antt =====
-- The grouping of rules: a partition, without conflicts, by first fit.
use tourbillon.Base.{
  ℕ, zero, suc, ◌+◌, ◌<◌, Bool, true, false, ◌||◌, ◌≡◌, inl, inr, List, [], ◌∷◌, ◌++◌, ltb, All,
  length, length-append, ◌==◌, ==_iff, nat_eq, Bool-cases, if◌then◌else◌, arith,
}
use tourbillon.Base.Sets.{contains, contains-append}
use tourbillon.Schedule.{has_pair, conflicting, any_conflict, place, greedy_groups}

-- How often `i` stands in a group, and in all of the groups.
unfoldable pub occurrences : ℕ → List ℕ → ℕ
occurrences i [] = 0
occurrences i (j ∷ g) = (if j == i then 1 else 0) + occurrences i g

unfoldable pub total_occurrences : ℕ → List (List ℕ) → ℕ
total_occurrences i [] = 0
total_occurrences i (g ∷ gs) = occurrences i g + total_occurrences i gs

unfoldable pub in_some : List (List ℕ) → ℕ → Bool
in_some [] i = false
in_some (g ∷ gs) i = contains g i || in_some gs i

-- A rule of a lower index in the group `g` conflicts with rule `i`.
abbrev pub IsDeferredBy : List (ℕ × ℕ) → List ℕ → ℕ → Type 0
IsDeferredBy c g i = (j : ℕ) × (contains g j ≡ true) × (j < i) × (has_pair c j i ≡ true)

-- Each rule behind a group stands there because of a rule of higher priority in that group.
abbrev pub IsFirstFit : List (ℕ × ℕ) → List (List ℕ) → Type 0
IsFirstFit c [] = Unit
IsFirstFit c (g ∷ gs) = ((i : ℕ) → in_some gs i ≡ true → IsDeferredBy c g i) × IsFirstFit c gs

-- No two rules of the group conflict.
abbrev pub IsCompatible : List (ℕ × ℕ) → List ℕ → Type 0
IsCompatible c g =
    (i j : ℕ) → contains g i ≡ true → contains g j ≡ true → i < j → has_pair c i j ≡ false

abbrev pub IsBelow : ℕ → List ℕ → Type 0
IsBelow n g = (i : ℕ) → contains g i ≡ true → i < n

-- The rules 0, …, n - 1 are grouped: each stands in one group, once.
pub record IsGrouping (c : List (ℕ × ℕ)) (n : ℕ) (gs : List (List ℕ)) : Type 0 where
  pub once : (i : ℕ) → total_occurrences i gs ≡ (if ltb i n then 1 else 0)
  pub below : All (IsBelow n) gs
  pub compatible : All (IsCompatible c) gs
  pub first_fit : IsFirstFit c gs
  pub filled : All (λ g. 0 < length g) gs

occurrences-append :
    (i : ℕ) (g h : List ℕ) → occurrences i (g ++ h) ≡ occurrences i g + occurrences i h
unfolding occurrences
occurrences-append i [] h = omega arith
occurrences-append i (j ∷ g) h = omega (arith, occurrences-append i g h)

module _ (c : List (ℕ × ℕ)) (n : ℕ) where
  any_conflict-eq-false :
      (g : List ℕ) (i : ℕ)
      → any_conflict c g n ≡ false
      → contains g i ≡ true
      → conflicting c i n ≡ false
  unfolding any_conflict contains
  any_conflict-eq-false [] i h k = cc
  any_conflict-eq-false (j ∷ g) i h k = ground (arith, any_conflict-eq-false g i, ==_iff j i)

  any_conflict-eq-true :
      (g : List ℕ)
      → any_conflict c g n ≡ true
      → (i : ℕ) × (contains g i ≡ true) × (conflicting c i n ≡ true)
  unfolding any_conflict contains
  any_conflict-eq-true [] h = cc
  any_conflict-eq-true (j ∷ g) h = elim (Bool-cases (conflicting c j n)) [
    | inl found ↦ (j, ground (arith, ==_iff j j), found)
    | inr missing ↦
        let (i, member, found) = any_conflict-eq-true g (rw missing at h) in
        (i, ground arith, found)
  ]

  conflicting_lt : (i : ℕ) → i < n → conflicting c i n ≡ has_pair c i n
  unfolding conflicting
  conflicting_lt i h = ground arith

  contains_snoc : (g : List ℕ) (i : ℕ) → contains (g ++ n ∷ []) i ≡ (contains g i || n == i)
  unfolding contains
  contains_snoc g i = ground (arith, contains-append g (n ∷ []) i)

  total_occurrences-place :
      (i : ℕ) (gs : List (List ℕ))
      → total_occurrences i (place c n gs) ≡ total_occurrences i gs + (if n == i then 1 else 0)
  unfolding place total_occurrences occurrences
  total_occurrences-place i [] = ground arith
  total_occurrences-place i (g ∷ gs) =
      ground (arith, total_occurrences-place i gs, occurrences-append i g (n ∷ []))

  in_some-place : (i : ℕ) (gs : List (List ℕ)) → in_some (place c n gs) i ≡ (in_some gs i || n == i)
  unfolding place in_some contains
  in_some-place i [] = ground arith
  in_some-place i (g ∷ gs) = ground (arith, in_some-place i gs, contains_snoc g i)

  filled-place :
      (gs : List (List ℕ)) → All (λ g. 0 < length g) gs → All (λ g. 0 < length g) (place c n gs)
  unfolding place
  filled-place [] h = (omega arith, tt)
  filled-place (g ∷ gs) (hg, h) = elim (Bool-cases (any_conflict c g n)) [
    | inl busy ↦ rw busy (hg, filled-place gs h)
    | inr free ↦ rw free (omega (arith, length-append g (n ∷ [])), h)
  ]

  IsBelow-suc : (gs : List (List ℕ)) → All (IsBelow n) gs → All (IsBelow (suc n)) gs
  IsBelow-suc [] h = tt
  IsBelow-suc (g ∷ gs) (hg, h) = (λ i m. omega (arith, hg i m), IsBelow-suc gs h)

  IsBelow-place : (gs : List (List ℕ)) → All (IsBelow n) gs → All (IsBelow (suc n)) (place c n gs)
  unfolding place contains
  IsBelow-place [] h = (λ i m. ground arith, tt)
  IsBelow-place (g ∷ gs) (hg, h) = elim (Bool-cases (any_conflict c g n)) [
    | inl busy ↦ rw busy (λ i m. omega (arith, hg i m), IsBelow-place gs h)
    | inr free ↦ rw free (λ i m. ground (arith, hg i, contains_snoc g i), IsBelow-suc gs h)
  ]

  IsCompatible-place :
      (gs : List (List ℕ))
      → All (IsBelow n) gs
      → All (IsCompatible c) gs
      → All (IsCompatible c) (place c n gs)
  unfolding place contains
  IsCompatible-place [] b h = (λ i j mi mj lt. absurd (ground arith), tt)
  IsCompatible-place (g ∷ gs) (bg, b) (hg, h) = elim (Bool-cases (any_conflict c g n)) [
    | inl busy ↦ rw busy (hg, IsCompatible-place gs b h)
    | inr free ↦ rw free (
      λ i j mi mj lt. ground (
        arith,
        hg i j,
        bg i,
        bg j,
        contains_snoc g i,
        contains_snoc g j,
        any_conflict-eq-false g i,
        conflicting_lt i,
      ),
      h,
    )
  ]

  IsFirstFit-place :
      (gs : List (List ℕ)) → All (IsBelow n) gs → IsFirstFit c gs → IsFirstFit c (place c n gs)
  unfolding place in_some
  IsFirstFit-place [] b h = (λ i m. cc, tt)
  IsFirstFit-place (g ∷ gs) (bg, b) (hg, h) = elim (Bool-cases (any_conflict c g n)) [
    | inl busy ↦ rw busy (
      λ i m. elim (Bool-cases (n == i)) [
        | inl new ↦
            let (j, member, found) = any_conflict-eq-true g busy in
            let lt = bg j member in
            (j, member, ground (arith, ==_iff n i), ground (arith, conflicting_lt j, ==_iff n i))
        | inr old ↦ hg i (ground (arith, in_some-place i gs))
      ],
      IsFirstFit-place gs b h,
    )
    | inr free ↦ rw free (
      λ i m. let (j, member, lt, pair) = hg i m in (j, ground (arith, contains_snoc g j), lt, pair),
      h,
    )
  ]

pub greedy_groups-IsGrouping : (c : List (ℕ × ℕ)) (n : ℕ) → IsGrouping c n (greedy_groups c n)
unfolding greedy_groups total_occurrences
greedy_groups-IsGrouping c zero = record {
  once = λ i. ground arith;
  below = tt;
  compatible = tt;
  first_fit = tt;
  filled = tt;
}
greedy_groups-IsGrouping c (suc n) =
    let before = greedy_groups-IsGrouping c n in
    let gs = greedy_groups c n in
    record {
      once = λ i. ground (arith, before.once i, total_occurrences-place c n i gs);
      below = IsBelow-place c n gs before.below;
      compatible = IsCompatible-place c n gs before.below before.compatible;
      first_fit = IsFirstFit-place c n gs before.below before.first_fit;
      filled = filled-place c n gs before.filled;
    }
