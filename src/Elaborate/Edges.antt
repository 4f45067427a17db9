-- ===== src/Elaborate/Edges.antt =====
-- Phase 4 of `elaborate_pipe_inner` in src/elaborate.rs: the queue edges between their ends, and
-- the ports that are bound to them.
use Prim.Native.String as Text
use tourbillon.Base.{
  ℕ, String, Bool, true, false, Option, none, some, List, [], ◌∷◌, ◌==◌, string_eq, if◌then◌else◌,
  update, length,
}
use tourbillon.Base.Dict
use tourbillon.Base.Dict.{Dict}
use tourbillon.Ast.{Span}
use tourbillon.Ast.Items.{QueueDecl, AsyncQueueDecl, PortBinding, Instance}
use tourbillon.Ir.{QueueEdge, QueueEdgeKind, ResolvedPort, ProcessNode, Graph}
use tourbillon.Elaborate.{PendingEdge, Elaboration, parse_dotted_target, push_edge}
use tourbillon.Elaborate.Nodes.{insert_node}
use tourbillon.Elaborate.Queues.{each_instance}
use tourbillon.Diagnostics.{Pass, skip}

-- The node of a writer or reader.
unfoldable pub end_node : Dict String ℕ → Option (String × Span) → Option ℕ
end_node instances none = none
end_node instances (some (name, _)) = Dict.lookup name instances

abbrev pub is_external_queue : QueueEdgeKind → Bool
is_external_queue (QueueEdgeKind.queue _ is_external) = is_external
is_external_queue _ = false

-- A queue's edge in the graph.
unfoldable pub link : (queue_name : String) → QueueEdge → (src dst : ℕ) → Elaboration → Elaboration
unfolding push_edge
link queue_name edge src dst s =
    let (g, edge_idx) = push_edge src dst edge s.graph in
    record s { graph = g; queue_edge_map = Dict.insert queue_name edge_idx s.queue_edge_map }

unfoldable pub external_stub : (queue_name : String) → Span → ProcessNode
external_stub queue_name sp = record {
  instance_name = Text.◌++◌ "_Ext_" queue_name;
  process_name = Text.◌++◌ "_Ext_" queue_name;
  rules = [];
  ports = [];
  span = sp;
  is_memory_stub = true;
}

-- The stub of an external queue, and the node's index.
unfoldable pub insert_stub : (queue_name : String) → Span → Elaboration → Elaboration × ℕ
unfolding insert_node external_stub
insert_stub queue_name sp s = (insert_node (external_stub queue_name sp) s, length s.graph.nodes)

unfoldable pub link_ends :
    (allow_dangling : Bool) (queue_name : String)
    → PendingEdge
    → (writer_node reader_node : Option ℕ) → Elaboration
    → Elaboration
unfolding link insert_stub
link_ends allow_dangling queue_name p (some src) (some dst) s =
    link queue_name p.edge_data src dst s
link_ends allow_dangling queue_name p (some node) none s =
    let (stubbed, stub_idx) = insert_stub queue_name p.decl_span s in
    if allow_dangling
    then link queue_name p.edge_data node node s
    else if is_external_queue p.edge_data.kind
    then link queue_name p.edge_data node stub_idx stubbed
    else s
link_ends allow_dangling queue_name p none (some node) s =
    let (stubbed, stub_idx) = insert_stub queue_name p.decl_span s in
    if allow_dangling
    then link queue_name p.edge_data node node s
    else if is_external_queue p.edge_data.kind
    then link queue_name p.edge_data stub_idx node stubbed
    else s
link_ends allow_dangling queue_name p none none s = s

-- What is done to the pending edge of a name that is not in the graph yet.
unfoldable pub on_deferred :
    (PendingEdge → Elaboration → Elaboration) → Option PendingEdge → Elaboration → Elaboration
on_deferred visit none s = s
on_deferred visit (some p) s = elim p.edge_idx [ none ↦ visit p s | some _ ↦ s ]

unfoldable pub create_deferred : (allow_dangling : Bool) → List String → Elaboration → Elaboration
unfolding on_deferred link_ends end_node
create_deferred allow_dangling [] s = s
create_deferred allow_dangling (queue_name ∷ names) s = create_deferred allow_dangling names (
    on_deferred
      (λ p s.
        link_ends allow_dangling queue_name p (end_node s.instances p.writer)
          (end_node s.instances p.reader) s)
      (Dict.lookup queue_name s.pending_edges) s)

unfoldable pub queue_names : List QueueDecl → List String
queue_names [] = []
queue_names (d ∷ decls) = d.name.node ∷ queue_names decls

unfoldable pub async_names : List AsyncQueueDecl → List String
async_names [] = []
async_names (d ∷ decls) = d.name.node ∷ async_names decls

-- The first port of a name, bound to an edge if it is not bound.
unfoldable pub bind_free_in :
    (port_name : String) (edge_idx : ℕ) → List ResolvedPort → List ResolvedPort
bind_free_in port_name edge_idx [] = []
bind_free_in port_name edge_idx (p ∷ ports) =
    let rest = bind_free_in port_name edge_idx ports in
    if p.name == port_name
    then elim p.bound_to [
      | none ↦ record p { bound_to = some edge_idx } ∷ ports
      | some _ ↦ p ∷ ports
    ]
    else p ∷ rest

unfoldable pub bind_free : (node_idx : ℕ) (port_name : String) (edge_idx : ℕ) → Graph → Graph
unfolding bind_free_in
bind_free node_idx port_name edge_idx g = record g {
  nodes =
      update node_idx (λ n. record n { ports = bind_free_in port_name edge_idx n.ports }) g.nodes;
}

-- A binding whose target is a queue in the graph. Dotted targets are bound already.
unfoldable pub bind_target : (node_idx : ℕ) → PortBinding → Elaboration → Elaboration
unfolding parse_dotted_target bind_free
bind_target node_idx b s = elim (parse_dotted_target b.target.node) [
  | some _ ↦ s
  | none ↦ elim (Dict.lookup b.target.node s.queue_edge_map) [
    | none ↦ s
    | some edge_idx ↦ record s { graph = bind_free node_idx b.port.node edge_idx s.graph }
  ]
]

unfoldable pub bind_targets : (node_idx : ℕ) → List PortBinding → Elaboration → Elaboration
unfolding bind_target
bind_targets node_idx [] s = s
bind_targets node_idx (b ∷ bindings) s = bind_targets node_idx bindings (bind_target node_idx b s)

unfoldable pub bind_deferred : List Instance → Pass Elaboration
unfolding each_instance bind_targets
bind_deferred instances =
    each_instance (λ inst _ node_idx s. skip (bind_targets node_idx inst.bindings s)) instances 0
