-- ===== src/Elaborate/Children.antt =====
-- Pipes inside a pipe, in `elaborate_pipe_inner` of src/elaborate.rs: the child's network merged
-- into the parent's, and the child's queues that are bound to the parent's. The child's nodes and
-- edges get consecutive indices behind the parent's, so the source's maps from the child's indices
-- to the parent's are sums here.
use tourbillon.Base.{
  ℕ, ◌+◌, String, Option, none, some, List, [], ◌∷◌, ◌++◌, map, nat_eq, string_eq, if◌then◌else◌,
  ltb, length,
}
use tourbillon.Base.Dict
use tourbillon.Base.Dict.{Dict}
use tourbillon.Ast.{Spanned}
use tourbillon.Ast.Items.{PortBinding, Instance}
use tourbillon.Ir.{QueueEdgeKind, ResolvedPort, ProcessNode, GraphEdge, ProcessNetwork}
use tourbillon.Elaborate.{Elaboration, joined, push_edge}
use tourbillon.Elaborate.Nodes.{insert_node}

-- The edge of a child's port in the parent.
abbrev moved_edge : (count first_edge : ℕ) → Option ℕ → Option ℕ
moved_edge count first_edge none = none
moved_edge count first_edge (some e) = if ltb e count then some (first_edge + e) else none

abbrev moved_port : (count first_edge : ℕ) → ResolvedPort → ResolvedPort
moved_port count first_edge p = record p { bound_to = moved_edge count first_edge p.bound_to }

module _ (inst_prefix : String) where
  unfoldable pub child_node : (count first_edge : ℕ) → ProcessNode → ProcessNode
  unfolding joined
  child_node count first_edge n = record n {
    instance_name = joined inst_prefix n.instance_name;
    ports = map (moved_port count first_edge) n.ports;
  }

  unfoldable pub merge_nodes : (count first_edge : ℕ) → List ProcessNode → Elaboration → Elaboration
  unfolding insert_node child_node
  merge_nodes count first_edge [] s = s
  merge_nodes count first_edge (n ∷ nodes) s =
      merge_nodes count first_edge nodes (insert_node (child_node count first_edge n) s)

  abbrev child_kind : QueueEdgeKind → QueueEdgeKind
  child_kind (QueueEdgeKind.cell peekers init) =
      QueueEdgeKind.cell (map (joined inst_prefix) peekers) init
  child_kind kind = kind

  unfoldable pub merge_edges : (first_node : ℕ) → List GraphEdge → Elaboration → Elaboration
  unfolding joined push_edge
  merge_edges first_node [] s = s
  merge_edges first_node (e ∷ edges) s =
      let (g, _) =
        push_edge (first_node + e.source) (first_node + e.target)
          (record e.weight {
            name = joined inst_prefix e.weight.name;
            kind = child_kind e.weight.kind;
          })
          s.graph in
      merge_edges first_node edges (record s { graph = g })

  -- An annotation of the pipe's instance, or else the child's own domain.
  abbrev child_domain : Option (Spanned String) → Option String → Option String
  child_domain (some ann) own = some ann.node
  child_domain none own = own

  unfoldable pub merge_domains :
      Option (Spanned String)
      → Dict String (Option String)
      → Dict String (Option String)
      → Dict String (Option String)
  unfolding joined
  merge_domains ann [] domains = domains
  merge_domains ann ((child_inst, own) ∷ rest) domains =
      merge_domains ann rest
        (Dict.insert (joined inst_prefix child_inst) (child_domain ann own) domains)

  unfoldable pub child_subs : List PortBinding → List (String × String)
  unfolding joined
  child_subs [] = []
  child_subs (b ∷ bindings) = (joined inst_prefix b.port.node, b.target.node) ∷ child_subs bindings

  -- A child's network in the parent.
  unfoldable pub merge_child : Instance → ProcessNetwork → Elaboration → Elaboration
  unfolding merge_nodes merge_edges merge_domains child_subs
  merge_child inst child_net s =
      let first_node = length s.graph.nodes in
      let first_edge = length s.graph.edges in
      let with_nodes =
        merge_nodes (length child_net.graph.edges) first_edge child_net.graph.nodes s in
      let merged = merge_edges first_node child_net.graph.edges with_nodes in
      record merged {
        pipe_instance_domains =
            merge_domains inst.domain child_net.domain_map merged.pipe_instance_domains;
        cross_pipe_subs = merged.cross_pipe_subs ++ child_subs inst.bindings;
      }
