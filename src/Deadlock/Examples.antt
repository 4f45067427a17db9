-- ===== src/Deadlock/Examples.antt =====
-- Instances of the theorems on a cycle of two processes.
use tourbillon.Base.{
  ℕ, ◌≤◌, ◌<◌, true, false, ◌≡◌, refl, ◌≢◌, ◌↔◌, ◌⊎◌, List, [], ◌∷◌, length, nat_eq, string_eq,
  arith,
}
use tourbillon.Base.Sets.{contains}
use tourbillon.Ir.{Graph}
use tourbillon.Schedule.{schedule}
use tourbillon.Deadlock.{
  classify_non_blocking_edges, edges_from, cycle_edges, blocking, process_names, at_edge,
  analyze_component, analyze,
}
use tourbillon.Deadlock.Blocked.{IsBlocked}
use tourbillon.Deadlock.NonBlocking.{classify_non_blocking_edges_lem}
use tourbillon.Deadlock.Blocking.{is_exempt}
use tourbillon.Deadlock.Components.{
  is_inside, inner_edges, tokens_of, depth_of, sum_over, HasNoInnerEdge, analyze_component_exact,
  analyze_component_sound,
}
use tourbillon.Deadlock.Cycles.{here, step, Together, analyze_sound}
use tourbillon.Deadlock.SharedTokens.{
  empty_cycle, whole, empty_cycle_component, empty_cycle-FindsComponents, empty_cycle_passes,
}

abbrev ring : Graph
ring = empty_cycle 2 3 0

abbrev both : List ℕ
both = 0 ∷ 1 ∷ []

classify_non_blocking_edges_lem_example :
    (contains (classify_non_blocking_edges ring (schedule ring)) 1 ≡ true)
    ↔ ((1 < length ring.edges) × ((is_exempt ring 1 ≡ true) ⊎ ¬ IsBlocked ring 1))
classify_non_blocking_edges_lem_example = classify_non_blocking_edges_lem ring 1

sums : Unit {0}
unfolding sum_over cycle_edges edges_from blocking contains
sums = tt

analyze_component_exact_example : (analyze_component ring [] both ≡ []) ↔ (
    HasNoInnerEdge ring [] both
    ⊎ (process_names ring both ≡ [])
    ⊎ (0 < sum_over ring tokens_of (inner_edges ring [] both))
      × (length (process_names ring both) ≤ sum_over ring depth_of (inner_edges ring [] both)))
unfolding sums
analyze_component_exact_example = analyze_component_exact ring [] both (omega arith) (omega arith)

ring_is_silent : analyze_component ring [] both ≡ []
ring_is_silent = empty_cycle_component 2 3 0 (omega arith) (omega arith)

process_names-ring : process_names ring both ≢ []
unfolding process_names
process_names-ring h = cc

analyze_component_sound_example :
    ((d : ℕ) × (is_inside ring [] both both d ≡ true) × (0 < at_edge ring tokens_of d))
    × (length (process_names ring both) ≤ sum_over ring depth_of (inner_edges ring [] both))
unfolding contains
analyze_component_sound_example =
    analyze_component_sound ring [] both 0 ring_is_silent refl process_names-ring

empty_cycle_passes_example :
    (analyze whole (empty_cycle 2 3 0) (schedule (empty_cycle 2 3 0)) ≡ [])
    × (contains (classify_non_blocking_edges (empty_cycle 2 3 0) (schedule (empty_cycle 2 3 0))) 0
        ≡ false)
    × (contains (classify_non_blocking_edges (empty_cycle 2 3 0) (schedule (empty_cycle 2 3 0))) 1
        ≡ false)
    × (at_edge (empty_cycle 2 3 0) tokens_of 0 ≡ 0)
    × (at_edge (empty_cycle 2 3 0) tokens_of 1 ≡ 0)
empty_cycle_passes_example = empty_cycle_passes 2 3 0 (omega arith) (omega arith)

analyze_sound_example :
    (scc : List ℕ) × Together (scc ∷ []) 0 1
    × ((d : ℕ) × (is_inside ring (classify_non_blocking_edges ring (schedule ring)) scc scc d
          ≡ true)
        × (0 < at_edge ring tokens_of d))
    × (length (process_names ring scc)
        ≤ sum_over ring depth_of
            (inner_edges ring (classify_non_blocking_edges ring (schedule ring)) scc))
analyze_sound_example =
    analyze_sound whole ring (schedule ring) 0 _ _ (empty_cycle-FindsComponents 2 3 0)
      empty_cycle_passes_example.0 refl empty_cycle_passes_example.1 refl refl
      (step 1 _ here refl refl)
