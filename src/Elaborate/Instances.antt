-- ===== src/Elaborate/Instances.antt =====
-- The names of instances, in `elaborate_pipe_inner` and `find_instance_name` of src/elaborate.rs.
use Prim.Native.String as Text
use Prim.Native.String.{String}
use text.Mathlib.TextLemmas.{append_cancel_left, append-nil, cons-append, nil≢cons}
use tourbillon.Base.{
  ℕ, true, false, some, List, [], ◌∷◌, ◌≡◌, ◌≢◌, refl, sym, arith, string_eq, ==_iff, ==_refl, ◌==◌,
  Bool-cases, inl, inr, ◌||◌, ◌∙◌, length,
}
use tourbillon.Base.Decimal.{decimal}
use tourbillon.Base.Dict
use tourbillon.Base.Dict.{Dict, lookup-insert}
use tourbillon.Ast.{Process}
use tourbillon.Ast.Items.{Instance}
use tourbillon.Types.Env.{TypeEnv}
use tourbillon.Ir.{ProcessNode, ProcessNetwork, GraphEdge}
use tourbillon.Elaborate.{Elaboration, joined, new_instance_name, find_instance_name}
use tourbillon.Elaborate.Nodes.{insert_node, create_node, process_node}
use tourbillon.Elaborate.Children.{child_node, merge_nodes, merge_edges, merge_child}

has_key-insert :
    (written read : String) (new : ℕ) (entries : Dict String ℕ)
    → Dict.has_key read (Dict.insert written new entries)
      ≡ (written == read || Dict.has_key read entries)
unfolding Dict.has_key
has_key-insert written read new entries = elim (Bool-cases (written == read)) [
  | inl e ↦ rw (Dict.has_key, lookup-insert written read new entries, e) refl
  | inr e ↦ rw (Dict.has_key, lookup-insert written read new entries, e) refl
]

-- The underscore and what is behind it make a name longer.
joined-neq : (a b : String) → joined a b ≢ a
unfolding joined
joined-neq a b h = nil≢cons (
    append_cancel_left a String.[] (Text.◌++◌ "_" b) (append-nil a ∙ sym h)
    ∙ cons-append "_" String.[] b)

-- An instance of a process whose name is in use already is stored under the name with its index.
-- The later phases look it up by the same process name and index and find the first instance.
pub find_instance_name-create_node :
    (env : TypeEnv) (inst : Instance) (idx : ℕ) (proc_def : Process) (s : Elaboration)
    → Dict.has_key inst.process_name.node s.instances ≡ true
    → (Dict.lookup
          (joined inst.process_name.node (decimal idx))
          (create_node env inst idx (some proc_def) s).0.instances
        ≡ some (length s.graph.nodes))
      × (find_instance_name
            (create_node env inst idx (some proc_def) s).0.instances
            inst.process_name.node
            idx
          ≡ some inst.process_name.node)
unfolding create_node insert_node process_node new_instance_name find_instance_name
find_instance_name-create_node env inst idx proc_def s h =
    let p = inst.process_name.node in
    let suffixed = joined p (decimal idx) in
    let node_idx = length s.graph.nodes in
    let kept : Dict.has_key p (Dict.insert suffixed node_idx s.instances) ≡ true =
      ground (arith, has_key-insert suffixed p node_idx s.instances) in
    (
      rw h (ground (arith, lookup-insert suffixed suffixed node_idx s.instances, ==_refl suffixed)),
      rw (h, kept) refl,
    )

-- The nodes of a child take no name that is the prefix alone.
merge_nodes-prefix :
    (prefix : String) (count first_edge : ℕ) (nodes : List ProcessNode) (s : Elaboration)
    → Dict.has_key prefix (merge_nodes prefix count first_edge nodes s).instances
      ≡ Dict.has_key prefix s.instances
unfolding merge_nodes insert_node child_node
merge_nodes-prefix prefix count first_edge [] s = refl
merge_nodes-prefix prefix count first_edge (n ∷ nodes) s =
    let name = joined prefix n.instance_name in
    merge_nodes-prefix prefix count first_edge nodes
      (insert_node (child_node prefix count first_edge n) s)
    ∙ ground (
      arith,
      has_key-insert name prefix (length s.graph.nodes) s.instances,
      ==_iff name prefix,
      joined-neq prefix n.instance_name,
    )

merge_edges-instances :
    (prefix : String) (first_node : ℕ) (edges : List GraphEdge) (s : Elaboration)
    → (merge_edges prefix first_node edges s).instances ≡ s.instances
unfolding merge_edges
merge_edges-instances prefix first_node [] s = refl
merge_edges-instances prefix first_node (e ∷ edges) s =
    merge_edges-instances prefix first_node edges _

-- When the network of a pipe's instance has been merged under the pipe's name, the next instance of
-- the pipe, at any index, gets the same prefix.
pub merge_child-prefix :
    (inst : Instance) (child_net : ProcessNetwork) (idx : ℕ) (s : Elaboration)
    → Dict.has_key inst.process_name.node s.instances ≡ false
    → new_instance_name
        (merge_child inst.process_name.node inst child_net s).instances
        inst.process_name.node
        idx
      ≡ inst.process_name.node
unfolding new_instance_name merge_child
merge_child-prefix inst child_net idx s free =
    let p = inst.process_name.node in
    let nodes =
      merge_nodes p (length child_net.graph.edges) (length s.graph.edges) child_net.graph.nodes s in
    let same = merge_edges-instances p (length s.graph.nodes) child_net.graph.edges nodes in
    let still =
      merge_nodes-prefix p (length child_net.graph.edges) (length s.graph.edges)
        child_net.graph.nodes s in
    rw (same, still, free) refl
