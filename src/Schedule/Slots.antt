-- ===== src/Schedule/Slots.antt =====
-- The schedule of a process: which rules may fire together.
use mathlib.Core.Option
use tourbillon.Base.{
  ℕ, zero, suc, ◌<◌, true, ◌≡◌, refl, ap, sym, ◌∙◌, ◌≢◌, inl, inr, List, [], ◌∷◌, map, some, ltb,
  All, length, get_elem?, Option-cases, nat_eq, if◌then◌else◌, arith,
}
use tourbillon.Base.Sets.{contains}
use tourbillon.Ast.{Rule}
use tourbillon.Ast.Accesses.{stmts_accesses}
use tourbillon.Ir.{ProcessNode}
use tourbillon.Schedule.{
  RuleResources, RuleSlot, exclusive, concurrent, port_map, collect_rule_resources, intersects,
  build_conflict_pairs, greedy_groups, slot_of, group_rules, schedule_node,
}
use tourbillon.Schedule.Resources.{some_access, mutates, collect_rule_resources_lem}
use tourbillon.Schedule.Conflicts.{share_edge, intersects_iff, build_conflict_pairs_lem}
use tourbillon.Schedule.Groups.{
  IsFirstFit, IsCompatible, IsGrouping, in_some, total_occurrences, greedy_groups-IsGrouping,
}

-- The rules of a slot.
unfoldable pub slot_rules : RuleSlot → List ℕ
slot_rules (exclusive i) = i ∷ []
slot_rules (concurrent g) = g

-- A slot that is marked concurrent holds two rules at least.
abbrev pub IsShaped : RuleSlot → Type 0
IsShaped (exclusive i) = Unit
IsShaped (concurrent g) = 1 < length g

slot_rules-slot_of : (g : List ℕ) → slot_rules (slot_of g) ≡ g
unfolding slot_rules slot_of
slot_rules-slot_of [] = refl
slot_rules-slot_of (i ∷ []) = refl
slot_rules-slot_of (i ∷ j ∷ g) = refl

map-slot_rules : (gs : List (List ℕ)) → map slot_rules (map slot_of gs) ≡ gs
map-slot_rules [] = refl
map-slot_rules (g ∷ gs) = cc (slot_rules-slot_of g, map-slot_rules gs)

slot_of-IsShaped : (g : List ℕ) → 0 < length g → IsShaped (slot_of g)
unfolding slot_of
slot_of-IsShaped [] h = absurd (omega arith)
slot_of-IsShaped (i ∷ []) h = tt
slot_of-IsShaped (i ∷ j ∷ g) h = omega arith

map-slot_of-IsShaped :
    (gs : List (List ℕ)) → All (λ g. 0 < length g) gs → All IsShaped (map slot_of gs)
map-slot_of-IsShaped [] h = tt
map-slot_of-IsShaped (g ∷ gs) (hg, h) = (slot_of-IsShaped g hg, map-slot_of-IsShaped gs h)

-- For every number of rules and every set of conflicts, the slots hold each rule once and nothing
-- else; no two rules of a slot conflict; a rule in a later slot conflicts with a rule of lower
-- index in each slot before it; no slot is empty, and a concurrent one has two rules at least.
pub group_rules_lem :
    (num_rules : ℕ) (conflicts : List (ℕ × ℕ))
    → IsGrouping conflicts num_rules (map slot_rules (group_rules num_rules conflicts))
      × All IsShaped (group_rules num_rules conflicts)
unfolding group_rules
group_rules_lem n c =
    let grouped = greedy_groups-IsGrouping c n in
    (
      rw (map-slot_rules (greedy_groups c n)) grouped,
      map-slot_of-IsShaped (greedy_groups c n) grouped.filled,
    )

-- Rule `i` of the process takes from the edge or puts to it, on some branch.
abbrev pub MutatesAt : ProcessNode → ℕ → ℕ → Type 0
MutatesAt node i e =
    (r : Rule) × (get_elem? node.rules i ≡ some r)
    × (some_access (mutates (port_map node) e) (stmts_accesses r.body) ≡ true)

get_elem?-map :
    {A B : Type 0} (f : A → B) (xs : List A) (i : ℕ)
    → get_elem? (map f xs) i ≡ Option.map f (get_elem? xs i)
get_elem?-map f [] i = refl
get_elem?-map f (x ∷ xs) zero = refl
get_elem?-map f (x ∷ xs) (suc i) = get_elem?-map f xs i

module _ (node : ProcessNode) where
  abbrev resources : List RuleResources
  resources = map (collect_rule_resources (port_map node)) node.rules

  resources_at :
      (i : ℕ)
      → get_elem? resources i
        ≡ Option.map (collect_rule_resources (port_map node)) (get_elem? node.rules i)
  resources_at = get_elem?-map (collect_rule_resources (port_map node)) node.rules

  mutable_edges_lem :
      (r : Rule) (e : ℕ)
      → contains (collect_rule_resources (port_map node) r).mutable_edges e
        ≡ some_access (mutates (port_map node) e) (stmts_accesses r.body)
  mutable_edges_lem r e = (collect_rule_resources_lem (port_map node) r "" e).4

  share_edge-MutatesAt :
      (i j : ℕ)
      → share_edge resources i j ≡ true
      → (e : ℕ) × MutatesAt node i e × MutatesAt node j e
  share_edge-MutatesAt i j h = elim (Option-cases (get_elem? node.rules i)) [
    | inl absent ↦ absurd (ground (arith, resources_at i))
    | inr (r, at_i) ↦ elim (Option-cases (get_elem? node.rules j)) [
      | inl absent ↦ absurd (ground (arith, resources_at i, resources_at j))
      | inr (s, at_j) ↦
          let met : intersects (collect_rule_resources (port_map node) r).mutable_edges
                (collect_rule_resources (port_map node) s).mutable_edges
              ≡ true =
            ground (arith, resources_at i, resources_at j) in
          let (e, he, ke) = (intersects_iff _ _).0 met in
          (
            e,
            (r, at_i, sym (mutable_edges_lem r e) ∙ he),
            (s, at_j, sym (mutable_edges_lem s e) ∙ ke),
          )
    ]
  ]

  MutatesAt-share_edge :
      (i j e : ℕ) → MutatesAt node i e → MutatesAt node j e → share_edge resources i j ≡ true
  MutatesAt-share_edge i j e (r, at_i, hr) (s, at_j, hs) =
      let met =
        (intersects_iff (collect_rule_resources (port_map node) r).mutable_edges
            (collect_rule_resources (port_map node) s).mutable_edges).1
          (e, mutable_edges_lem r e ∙ hr, mutable_edges_lem s e ∙ hs) in
      ground (arith, resources_at i, resources_at j)

  abbrev conflicts : List (ℕ × ℕ)
  conflicts = build_conflict_pairs resources

  -- Every rule of the process stands in one slot, once.
  abbrev pub EachOnce : List RuleSlot → Type 0
  EachOnce slots =
      (i : ℕ)
      → total_occurrences i (map slot_rules slots) ≡ (if ltb i (length node.rules) then 1 else 0)

  -- Two rules of a slot never mutate the same edge.
  abbrev pub IsExclusive : RuleSlot → Type 0
  IsExclusive slot =
      (i j e : ℕ)
      → contains (slot_rules slot) i ≡ true
      → contains (slot_rules slot) j ≡ true
      → i ≢ j
      → MutatesAt node i e
      → ¬ MutatesAt node j e

  -- A rule behind a slot shares an edge with a rule of the slot that is declared before it.
  abbrev pub IsTight : List RuleSlot → Type 0
  IsTight [] = Unit
  IsTight (slot ∷ slots) =
      ((i : ℕ)
        → in_some (map slot_rules slots) i ≡ true
        → (j : ℕ) × (contains (slot_rules slot) j ≡ true)
          × (j < i)
          × ((e : ℕ) × MutatesAt node j e × MutatesAt node i e))
      × IsTight slots

  IsCompatible-IsExclusive :
      (slots : List RuleSlot)
      → All (IsCompatible conflicts) (map slot_rules slots)
      → All IsExclusive slots
  IsCompatible-IsExclusive [] h = tt
  IsCompatible-IsExclusive (slot ∷ slots) (here, later) = (
    λ i j e mi mj ne at_i at_j. ground (
      arith,
      here i j,
      here j i,
      build_conflict_pairs_lem resources i j,
      build_conflict_pairs_lem resources j i,
      MutatesAt-share_edge i j e at_i at_j,
      MutatesAt-share_edge j i e at_j at_i,
    ),
    IsCompatible-IsExclusive slots later,
  )

  IsFirstFit-IsTight :
      (slots : List RuleSlot) → IsFirstFit conflicts (map slot_rules slots) → IsTight slots
  IsFirstFit-IsTight [] h = tt
  IsFirstFit-IsTight (slot ∷ slots) (here, later) = (
    λ i m.
        let (j, member, lt, pair) = here i m in
        (
          j,
          member,
          lt,
          share_edge-MutatesAt j i (ground (arith, build_conflict_pairs_lem resources j i)),
        ),
    IsFirstFit-IsTight slots later,
  )

length-map : {A B : Type 0} (f : A → B) (xs : List A) → length (map f xs) ≡ length xs
length-map f [] = refl
length-map f (x ∷ xs) = ap suc (length-map f xs)

-- In the schedule of a process every rule stands in one slot, once; two rules of a slot never take
-- from or put to the same edge; and a rule stands behind a slot only if a rule of that slot that
-- is declared before it takes from or puts to an edge that it takes from or puts to, too.
pub schedule_node_lem :
    (node : ProcessNode)
    → EachOnce node (schedule_node node).rule_order
      × All (IsExclusive node) (schedule_node node).rule_order
      × IsTight node (schedule_node node).rule_order
unfolding schedule_node
schedule_node_lem node =
    let c = conflicts node in
    let n = length (resources node) in
    let same = length-map (collect_rule_resources (port_map node)) node.rules in
    let (grouped, _) = group_rules_lem n c in
    (
      λ i. ground (arith, grouped.once i),
      IsCompatible-IsExclusive node (group_rules n c) grouped.compatible,
      IsFirstFit-IsTight node (group_rules n c) grouped.first_fit,
    )
