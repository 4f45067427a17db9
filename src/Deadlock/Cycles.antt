-- ===== src/Deadlock/Cycles.antt =====
-- What a silent analysis says of the cycles of the network.
use tourbillon.Base.{
  ℕ, zero, suc, ◌≤◌, ◌<◌, true, false, ◌≡◌, refl, ◌≢◌, inl, inr, List, [], ◌∷◌, some, length,
  get_elem?, ◌==◌, ==_iff, nat_eq, append-eq-nil, Bool-cases, arith,
}
use tourbillon.Base.Sets.{contains}
use tourbillon.Ir.{ProcessNode, GraphEdge, Graph}
use tourbillon.Schedule.{ProcessSchedule}
use tourbillon.Deadlock.{
  classify_non_blocking_edges, process_names, at_edge, analyze_component, analyze_components,
  analyze,
}
use tourbillon.Deadlock.Components.{
  is_inside, inner_edges, tokens_of, depth_of, sum_over, analyze_component_sound,
}

-- The paths of the graph from node `a`.
pub data Reach (g : Graph) (a : ℕ) : ℕ → Type 0 where
  here : Reach g a a
  step :
      {b : ℕ} (e : ℕ) (x : GraphEdge)
      → Reach g a b
      → get_elem? g.edges e ≡ some x
      → x.source ≡ b
      → Reach g a x.target

-- A component of the list that holds two nodes.
abbrev pub Together : List (List ℕ) → ℕ → ℕ → Type 0
Together sccs a b =
    (k : ℕ) × (scc : List ℕ) × (get_elem? sccs k ≡ some scc)
    × (contains scc a ≡ true)
    × (contains scc b ≡ true)

-- What the analysis relies on of `tarjan_scc`: nodes of the graph that reach one another stand in
-- one component.
abbrev pub FindsComponents : (Graph → List (List ℕ)) → Graph → Type 0
FindsComponents tarjan_scc g =
    (a b : ℕ) → a < length g.nodes → Reach g a b → Reach g b a → Together (tarjan_scc g) a b

analyze_components-at :
    (g : Graph) (nb : List ℕ) (sccs : List (List ℕ)) (k : ℕ) (scc : List ℕ)
    → analyze_components g nb sccs ≡ []
    → get_elem? sccs k ≡ some scc
    → analyze_component g nb scc ≡ []
unfolding analyze_components
analyze_components-at g nb [] k scc h at_k = cc
analyze_components-at g nb (first ∷ sccs) zero scc h at_k =
    let (silent, _) = append-eq-nil (analyze_component g nb first) _ h in
    let same : first ≡ scc = cc at_k in rw (← same) silent
analyze_components-at g nb (first ∷ sccs) (suc k) scc h at_k =
    let (_, later) = append-eq-nil (analyze_component g nb first) _ h in
    analyze_components-at g nb sccs k scc later at_k

process_names-ne-nil :
    (g : Graph) (scc : List ℕ) (n : ℕ) (node : ProcessNode)
    → contains scc n ≡ true
    → get_elem? g.nodes n ≡ some node
    → node.is_memory_stub ≡ false
    → process_names g scc ≢ []
unfolding process_names contains
process_names-ne-nil g [] n node m at_n real = cc
process_names-ne-nil g (k ∷ scc) n node m at_n real = elim (Bool-cases (k == n)) [
  | inl same ↦ λ h.
      let at_k : get_elem? g.nodes k ≡ some node = rw ((==_iff k n).0 same) at_n in ground arith
  | inr other ↦ λ h.
      let (_, none_left) = append-eq-nil _ (process_names g scc) h in
      process_names-ne-nil g scc n node (rw other at m) at_n real none_left
]

lt-length {ℓ} : {A : Type ℓ} (xs : List A) (i : ℕ) {x : A} → get_elem? xs i ≡ some x → i < length xs
lt-length [] i h = cc
lt-length (y ∷ xs) zero h = omega arith
lt-length (y ∷ xs) (suc i) h = omega (arith, lt-length xs i h)

-- If the analysis is silent, then every blocking edge that lies on a cycle and leaves a process
-- (and no memory stub) lies in a component in which some blocking edge holds a token and the
-- blocking edges have together at least the depth of the number of the processes.
pub analyze_sound :
    (tarjan_scc : Graph → List (List ℕ)) (g : Graph) (schedules : List ProcessSchedule) (e : ℕ)
    (x : GraphEdge) (node : ProcessNode)
    → FindsComponents tarjan_scc g
    → analyze tarjan_scc g schedules ≡ []
    → get_elem? g.edges e ≡ some x
    → contains (classify_non_blocking_edges g schedules) e ≡ false
    → get_elem? g.nodes x.source ≡ some node
    → node.is_memory_stub ≡ false
    → Reach g x.target x.source
    → (scc : List ℕ) × Together (scc ∷ []) x.source x.target
      × ((d : ℕ) × (is_inside g (classify_non_blocking_edges g schedules) scc scc d ≡ true)
          × (0 < at_edge g tokens_of d))
      × (length (process_names g scc)
          ≤ sum_over g depth_of (inner_edges g (classify_non_blocking_edges g schedules) scc))
unfolding analyze
analyze_sound tarjan_scc g ss e x node finds silent at_e hard at_source real back =
    let nb = classify_non_blocking_edges g ss in
    let (k, scc, at_k, in_source, in_target) =
      finds x.source x.target (lt-length g.nodes x.source at_source) (step e x here at_e refl)
        back in
    let quiet = analyze_components-at g nb (tarjan_scc g) k scc silent at_k in
    let inside : is_inside g nb scc scc e ≡ true = ground arith in
    let (token, depth) =
      analyze_component_sound g nb scc e quiet inside
        (process_names-ne-nil g scc x.source node in_source at_source real) in
    (scc, (zero, scc, refl, in_source, in_target), token, depth)
