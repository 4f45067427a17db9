-- ===== src/Elaborate/Substitutions.antt =====
-- Phase 4a of `elaborate_pipe_inner` in src/elaborate.rs: the edges of children that are bound to the
-- parent's queues give way to the parent's edges. `remove_edge` moves the last edge to the place of
-- the removed one.
use tourbillon.Base.{
  ℕ, ◌+◌, ◌-◌, String, Bool, false, not, ◌&&◌, ◌||◌, Option, none, some, List, [], ◌∷◌, map, ◌==◌,
  nat_eq, string_eq, if◌then◌else◌, ltb, length, get_elem?, update,
}
use tourbillon.Base.Dict
use tourbillon.Base.Dict.{Dict}
use tourbillon.Base.Sets
use tourbillon.Ast.{Span}
use tourbillon.Ir.{QueueEdge, ResolvedPort, ProcessNode, GraphEdge, Graph}
use tourbillon.Elaborate.{PendingEdge, Elaboration, or_else}
use tourbillon.Elaborate.Edges.{link, end_node, on_deferred}

-- The index of the first edge of a name, from an index on.
unfoldable pub find_edge : (name : String) → List GraphEdge → (i : ℕ) → Option ℕ
find_edge name [] i = none
find_edge name (e ∷ edges) i =
    if e.weight.name == name then some i else find_edge name edges (i + 1)

abbrev pub same_edge : Option ℕ → ℕ → Bool
same_edge none e = false
same_edge (some d) e = d == e

abbrev rebound_port : (old new : ℕ) → ResolvedPort → ResolvedPort
rebound_port old new p = if same_edge p.bound_to old then record p { bound_to = some new } else p

abbrev rebound_node : (old new : ℕ) → ProcessNode → ProcessNode
rebound_node old new n = record n { ports = map (rebound_port old new) n.ports }

-- All ports of an edge bound to another one.
unfoldable pub rebind : (old new : ℕ) → Graph → Graph
rebind old new g = record g { nodes = map (rebound_node old new) g.nodes }

-- The parent's queue gets the ends that it has not from the child's edge.
abbrev inherit : (src dst : String) → Span → PendingEdge → PendingEdge
inherit src dst sp p = record p {
  writer = or_else p.writer (some (src, sp));
  reader = or_else p.reader (some (dst, sp));
}

unfoldable pub inherit_ends :
    (parent_queue_name : String)
    → QueueEdge
    → (src dst : Option ProcessNode) → Option PendingEdge
    → Elaboration
    → Elaboration
inherit_ends parent_queue_name edge (some src) (some dst) (some p) s = record s {
  pending_edges =
      Dict.insert parent_queue_name (inherit src.instance_name dst.instance_name edge.span p)
        s.pending_edges;
}
inherit_ends parent_queue_name edge _ _ _ s = s

unfoldable pub inherit_from :
    (parent_queue_name : String) → Option GraphEdge → Elaboration → Elaboration
unfolding inherit_ends
inherit_from parent_queue_name none s = s
inherit_from parent_queue_name (some e) s =
    inherit_ends parent_queue_name e.weight (get_elem? s.graph.nodes e.source)
      (get_elem? s.graph.nodes e.target) (Dict.lookup parent_queue_name s.pending_edges) s

-- Phase 4a: one substitution of a child's edge by the parent's.
unfoldable pub apply_sub : String × String → Elaboration → Elaboration
unfolding find_edge rebind inherit_from
apply_sub (child_edge_name, parent_queue_name) s =
    elim (find_edge child_edge_name s.graph.edges 0) [
      | none ↦ s
      | some child_edge_idx ↦ elim (Dict.lookup parent_queue_name s.queue_edge_map) [
        | some parent_edge_idx ↦ record s { graph = rebind child_edge_idx parent_edge_idx s.graph }
        | none ↦ inherit_from parent_queue_name (get_elem? s.graph.edges child_edge_idx) s
      ]
    ]

unfoldable pub apply_subs : List (String × String) → Elaboration → Elaboration
unfolding apply_sub
apply_subs [] s = s
apply_subs (sub ∷ subs) s = apply_subs subs (apply_sub sub s)

-- The ports of the child's edges bound to the new edge of a queue.
unfoldable pub rebind_subs :
    (queue_name : String) (edge_idx : ℕ) → List (String × String) → Elaboration → Elaboration
unfolding find_edge rebind
rebind_subs queue_name edge_idx [] s = s
rebind_subs queue_name edge_idx ((child_edge_name, parent_q) ∷ subs) s =
    let found = find_edge child_edge_name s.graph.edges 0 in
    let rebound : Elaboration = elim found [
      | none ↦ s
      | some old ↦ record s { graph = rebind old edge_idx s.graph }
    ] in
    rebind_subs queue_name edge_idx subs (if parent_q == queue_name then rebound else s)

unfoldable pub relink :
    (queue_name : String) → PendingEdge → (src_node dst_node : Option ℕ) → Elaboration → Elaboration
unfolding link rebind_subs
relink queue_name p (some src_node) (some dst_node) s =
    rebind_subs queue_name (length s.graph.edges) s.cross_pipe_subs
      (link queue_name p.edge_data src_node dst_node s)
relink queue_name p _ _ s = s

-- The queues that have both ends only now.
unfoldable pub recreate_deferred : List String → Elaboration → Elaboration
unfolding relink on_deferred end_node
recreate_deferred [] s = s
recreate_deferred (queue_name ∷ names) s =
    let created =
      on_deferred
        (λ p s.
          relink queue_name p (end_node s.instances p.writer) (end_node s.instances p.reader) s)
        (Dict.lookup queue_name s.pending_edges) s in
    recreate_deferred names (if Dict.has_key queue_name s.queue_edge_map then s else created)

abbrev any_port : (edge_idx : ℕ) → List ResolvedPort → Bool
any_port edge_idx [] = false
any_port edge_idx (p ∷ ports) = same_edge p.bound_to edge_idx || any_port edge_idx ports

-- A port of the graph is bound to the edge.
unfoldable pub is_referenced : (edge_idx : ℕ) → List ProcessNode → Bool
is_referenced edge_idx [] = false
is_referenced edge_idx (n ∷ nodes) = any_port edge_idx n.ports || is_referenced edge_idx nodes

unfoldable pub dead_edges :
    (dead_names : List String) → List ProcessNode → List GraphEdge → (i : ℕ) → List ℕ
unfolding is_referenced
dead_edges dead_names nodes [] i = []
dead_edges dead_names nodes (e ∷ edges) i =
    let rest = dead_edges dead_names nodes edges (i + 1) in
    if Sets.contains dead_names e.weight.name && not (is_referenced i nodes) then i ∷ rest else rest

unfoldable pub drop_last {ℓ} : {A : Type ℓ} → List A → List A
drop_last [] = []
drop_last (x ∷ []) = []
drop_last (x ∷ y ∷ xs) = x ∷ drop_last (y ∷ xs)

-- `remove_edge` of the graph.
unfoldable pub remove_edge : ℕ → Graph → Graph
unfolding drop_last
remove_edge ei g = elim (get_elem? g.edges (length g.edges - 1)) [
  | none ↦ g
  | some last_edge ↦ record g { edges = drop_last (update ei (λ _. last_edge) g.edges) }
]

unfoldable pub swapped_name : (last : ℕ) → Dict String ℕ → Option String
swapped_name last [] = none
swapped_name last ((name, e) ∷ entries) = if e == last then some name else swapped_name last entries

abbrev rename_last : (ei : ℕ) → Option String → Dict String ℕ → Dict String ℕ
rename_last ei none entries = entries
rename_last ei (some name) entries = Dict.insert name ei entries

-- One dead edge removed; what refers to the last edge follows it.
unfoldable pub remove_dead : ℕ → Elaboration → Elaboration
unfolding remove_edge rebind swapped_name
remove_dead ei s =
    let last = length s.graph.edges - 1 in
    if ltb ei last
    then record s {
      graph = rebind last ei (remove_edge ei s.graph);
      queue_edge_map = rename_last ei (swapped_name last s.queue_edge_map) s.queue_edge_map;
    }
    else record s { graph = remove_edge ei s.graph }

-- From the highest index on.
unfoldable pub remove_all : List ℕ → Elaboration → Elaboration
unfolding remove_dead
remove_all [] s = s
remove_all (ei ∷ eis) s = remove_dead ei (remove_all eis s)

unfoldable pub prune : Elaboration → Elaboration
unfolding dead_edges remove_all
prune s =
    remove_all (dead_edges (map (λ sub. sub.0) s.cross_pipe_subs) s.graph.nodes s.graph.edges 0) s
