-- ===== src/Deadlock.antt =====
-- The deadlock analysis, src/deadlock.rs. The strongly connected components of the network
-- (`petgraph::algo::tarjan_scc`) are an argument. Sums in `u64` wrap around, as a release build
-- computes them. `graph.edges(node)` is listed in the order of the edge indices; only sums and
-- tests for emptiness read it.
pub mod Edges
pub mod Blocking
pub mod Blocked
pub mod NonBlocking
pub mod Components
pub mod Cycles
pub mod SharedTokens
mod Examples
use tourbillon.Base.{
  ℕ, ◌+◌, ◌%◌, ◌^◌, String, Bool, true, false, not, ◌&&◌, ◌||◌, List, [], ◌∷◌, ◌++◌, Option, none,
  some, ltb, length, get_elem?, ◌==◌, nat_eq, string_eq, if◌then◌else◌,
}
use tourbillon.Base.Dict.{lookup}
use tourbillon.Base.Sets.{contains, remove}
use tourbillon.Ast.{Span}
use tourbillon.Ir.{QueueEdgeKind, QueueEdge, ProcessNode, GraphEdge, Graph}
use tourbillon.Schedule.{RuleResources, ProcessSchedule, PortMap, port_map}
use tourbillon.Diagnostics.{Diagnostic, error_at, no_initial_tokens, too_shallow}

-- The indices of the edges that pass a test, where the first edge of the list stands at `i`.
unfoldable pub edges_from : (GraphEdge → Bool) → ℕ → List GraphEdge → List ℕ
edges_from p i [] = []
edges_from p i (e ∷ es) = (if p e then i ∷ [] else []) ++ edges_from p (i + 1) es

abbrev pub edges_where : (GraphEdge → Bool) → Graph → List ℕ
edges_where p g = edges_from p 0 g.edges

-- `graph[node].is_memory_stub`
abbrev pub is_stub : Graph → ℕ → Bool
is_stub g n = elim (get_elem? g.nodes n) [ none ↦ false | some node ↦ node.is_memory_stub ]

abbrev pub touches_stub : Graph → GraphEdge → Bool
touches_stub g e = is_stub g e.source || is_stub g e.target

abbrev pub is_async : QueueEdgeKind → Bool
is_async QueueEdgeKind.async_queue = true
is_async _ = false

abbrev pub memory_stub_edges : Graph → List ℕ
memory_stub_edges g = edges_where (touches_stub g) g

abbrev pub async_edges : Graph → List ℕ
async_edges g = edges_where (λ e. is_async e.weight.kind) g

module _ (g : Graph) where
  -- `non_blocking.remove(&edge)` unless the edge is exempt.
  unfoldable pub block : Option ℕ → List ℕ → List ℕ
  block none non_blocking = non_blocking
  block (some e) non_blocking =
      if not (contains (memory_stub_edges g) e) && not (contains (async_edges g) e)
      then remove e non_blocking
      else non_blocking

  module _ (ports : PortMap) where
    unfoldable pub block_takes : List String → List String → List ℕ → List ℕ
    block_takes try_takes [] non_blocking = non_blocking
    block_takes try_takes (p ∷ takes) non_blocking =
        block_takes try_takes takes
          (if not (contains try_takes p) then block (lookup p ports) non_blocking else non_blocking)

    unfoldable pub block_puts : List String → List ℕ → List ℕ
    block_puts [] non_blocking = non_blocking
    block_puts (p ∷ puts) non_blocking = block_puts puts (block (lookup p ports) non_blocking)

    unfoldable pub block_rules : List RuleResources → List ℕ → List ℕ
    unfolding block_takes block_puts
    block_rules [] non_blocking = non_blocking
    block_rules (r ∷ rs) non_blocking =
        block_rules rs (block_puts r.puts (block_takes r.try_takes r.takes non_blocking))

  -- The loop over the nodes; node `i` has the schedule at position `i`.
  unfoldable pub block_nodes : List ProcessNode → List ProcessSchedule → List ℕ → List ℕ
  unfolding block_rules
  block_nodes [] schedules non_blocking = non_blocking
  block_nodes (node ∷ nodes) [] non_blocking = non_blocking
  block_nodes (node ∷ nodes) (s ∷ schedules) non_blocking =
      block_nodes nodes schedules (block_rules (port_map node) s.rule_resources non_blocking)

unfoldable pub classify_non_blocking_edges : Graph → List ProcessSchedule → List ℕ
unfolding edges_from block block_nodes
classify_non_blocking_edges g schedules =
    block_nodes g g.nodes schedules (edges_where (λ _. true) g)

module _ (g : Graph) (non_blocking : List ℕ) where
  unfoldable pub blocking : List ℕ → List ℕ
  blocking [] = []
  blocking (e ∷ es) = (if contains non_blocking e then [] else e ∷ []) ++ blocking es

  -- The blocking edges from a node to a node of the set.
  unfoldable pub edges_into : List ℕ → ℕ → List ℕ
  unfolding edges_from blocking
  edges_into scc node = blocking (edges_where (λ e. e.source == node && contains scc e.target) g)

  -- `cycle_edges`: for each node of the component, its blocking edges within the component.
  unfoldable pub cycle_edges : List ℕ → List ℕ → List ℕ
  unfolding edges_into
  cycle_edges scc [] = []
  cycle_edges scc (node ∷ nodes) = edges_into scc node ++ cycle_edges scc nodes

-- The names of the processes of a component that are no memory stubs.
unfoldable pub process_names : Graph → List ℕ → List String
process_names g [] = []
process_names g (n ∷ scc) =
    elim (get_elem? g.nodes n) [
      | none ↦ []
      | some node ↦ if node.is_memory_stub then [] else node.instance_name ∷ []
    ]
    ++ process_names g scc

abbrev pub u64_mod : ℕ
u64_mod = 2 ^ 64

-- `init_tokens.to_u64().unwrap_or(1)`
abbrev pub to_u64_or_one : ℕ → ℕ
to_u64_or_one n = if ltb n u64_mod then n else 1

-- The tokens that an edge adds.
abbrev pub edge_tokens : QueueEdgeKind → ℕ
edge_tokens (QueueEdgeKind.cell _ (some _)) = 1
edge_tokens (QueueEdgeKind.cell _ none) = 0
edge_tokens (QueueEdgeKind.queue init_tokens _) = to_u64_or_one init_tokens
edge_tokens QueueEdgeKind.async_queue = 0

-- `graph[e]`, for a field of the edge's weight.
abbrev pub at_edge : Graph → (QueueEdge → ℕ) → ℕ → ℕ
at_edge g f e = elim (get_elem? g.edges e) [ none ↦ 0 | some edge ↦ f edge.weight ]

unfoldable pub total : Graph → (QueueEdge → ℕ) → ℕ → List ℕ → ℕ
total g f acc [] = acc
total g f acc (e ∷ es) = total g f ((acc + at_edge g f e) % u64_mod) es

unfoldable pub total_tokens : Graph → List ℕ → ℕ
unfolding total
total_tokens g es = total g (λ w. edge_tokens w.kind) 0 es

unfoldable pub total_depth : Graph → List ℕ → ℕ
unfolding total
total_depth g es = total g (λ w. w.depth) 0 es

-- `graph[scc[0]].span`
abbrev pub head_span : Graph → List ℕ → Span
head_span g [] = record { from = 0; to = 0 }
head_span g (n ∷ _) = elim (get_elem? g.nodes n) [
  | none ↦ record { from = 0; to = 0 }
  | some node ↦ node.span
]

abbrev pub is_empty {ℓ} : {A : Type ℓ} → List A → Bool
is_empty [] = true
is_empty (_ ∷ _) = false

-- A component of one node is skipped unless the node has a blocking edge to itself.
abbrev pub is_trivial : Graph → List ℕ → List ℕ → Bool
is_trivial g non_blocking (n ∷ []) = is_empty (edges_into g non_blocking (n ∷ []) n)
is_trivial g non_blocking _ = false

-- The two checks, on a component with blocking edges and processes.
unfoldable pub check_component : Graph → List ℕ → List ℕ → List String → List Diagnostic
check_component g scc edges names =
    (if total_tokens g edges == 0
      then error_at (head_span g scc) (no_initial_tokens names) ∷ []
      else [])
    ++ (if ltb (total_depth g edges) (length names)
        then error_at (head_span g scc) (too_shallow names (total_depth g edges) (length names))
          ∷ []
        else [])

-- The body of the loop over the components.
unfoldable pub analyze_component : Graph → List ℕ → List ℕ → List Diagnostic
unfolding check_component
analyze_component g non_blocking scc =
    let edges = cycle_edges g non_blocking scc scc in
    let names = process_names g scc in
    if is_trivial g non_blocking scc
    then []
    else if is_empty edges
    then []
    else if is_empty names
    then []
    else check_component g scc edges names

unfoldable pub analyze_components : Graph → List ℕ → List (List ℕ) → List Diagnostic
unfolding analyze_component
analyze_components g non_blocking [] = []
analyze_components g non_blocking (scc ∷ sccs) =
    analyze_component g non_blocking scc ++ analyze_components g non_blocking sccs

-- `analyze`, where `tarjan_scc` lists the components of a graph.
unfoldable pub analyze : (Graph → List (List ℕ)) → Graph → List ProcessSchedule → List Diagnostic
unfolding analyze_components classify_non_blocking_edges
analyze tarjan_scc g schedules =
    analyze_components g (classify_non_blocking_edges g schedules) (tarjan_scc g)
