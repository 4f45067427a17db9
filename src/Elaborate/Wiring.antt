-- ===== src/Elaborate/Wiring.antt =====
-- Phase 3b of `elaborate_pipe_inner` in src/elaborate.rs: the bindings of the instances' ports.
use tourbillon.Base.{
  ℕ, String, Bool, true, false, not, ◌&&◌, ◌||◌, Option, none, some, List, [], ◌∷◌, ◌==◌, string_eq,
  if◌then◌else◌, get_elem?,
}
use tourbillon.Base.Dict
use tourbillon.Base.Dict.{Dict}
use tourbillon.Ast.{Span, PortKind, Port, Process}
use tourbillon.Ast.Items.{PortBinding, Instance}
use tourbillon.Types.Ty.{Ty, same_ty}
use tourbillon.Types.Env.{TypeEnv, resolve_type_expr}
use tourbillon.Ir.{ProcessNode}
use tourbillon.Elaborate.{
  PendingEdge, Elaboration, fail, parse_dotted_target, port_element_type, unwrap_or, dotted,
  bind_port, add_peeker, add_edge_peeker, find_port,
}
use tourbillon.Elaborate.Queues.{insert_pending, is_state_port, each_instance, with_process}
use tourbillon.Diagnostics.{
  no_port, not_a_peek, unknown_instance, no_state_port, unknown_queue, queue_mismatch,
  second_writer, second_reader, Pass, skip, push_all, ◌▸◌,
}

-- One of the ports is the state port of a name.
unfoldable pub has_state_port : String → List Port → Bool
has_state_port name [] = false
has_state_port name (p ∷ ports) =
    p.name.node == name && is_state_port p.kind || has_state_port name ports

abbrev pub is_peeks : PortKind → Bool
is_peeks PortKind.peeks = true
is_peeks _ = false

abbrev is_error_ty : Ty → Bool
is_error_ty Ty.error = true
is_error_ty _ = false

-- The element types differ, and neither is the error type.
unfoldable pub elem_mismatch : Option Ty → Ty → Bool
elem_mismatch none elem_ty = false
elem_mismatch (some port_elem) elem_ty =
    not (is_error_ty port_elem) && (not (is_error_ty elem_ty) && not (same_ty port_elem elem_ty))

module _ (processes : Dict String Process) (instance_name : String) (node_idx : ℕ) where
  -- The process of a node has the state port.
  unfoldable pub node_has_state_port : String → Option ProcessNode → Bool
  unfolding has_state_port
  node_has_state_port ref_port none = false
  node_has_state_port ref_port (some node) = elim (Dict.lookup node.process_name processes) [
    | none ↦ false
    | some ref_proc ↦ has_state_port ref_port ref_proc.ports
  ]

  -- The peek of another instance's cell, at the edge if the cell has one.
  unfoldable pub peek_edge : (port_name : String) → Option PendingEdge → Pass Elaboration
  unfolding add_edge_peeker bind_port
  peek_edge port_name none s = skip s
  peek_edge port_name (some pending) s = elim pending.edge_idx [
    | none ↦ skip s
    | some edge_idx ↦ skip (record s {
      graph =
          bind_port node_idx port_name edge_idx (add_edge_peeker edge_idx instance_name s.graph);
    })
  ]

  unfoldable pub wire_reference :
      PortBinding → (ref_instance ref_port : String) → Option ℕ → Pass Elaboration
  unfolding fail node_has_state_port peek_edge dotted
  wire_reference b ref_instance ref_port none s =
      fail b.target.span (unknown_instance ref_instance) s
  wire_reference b ref_instance ref_port (some ref_node_idx) s =
      if node_has_state_port ref_port (get_elem? s.graph.nodes ref_node_idx)
      then peek_edge b.port.node (Dict.lookup (dotted ref_instance ref_port) s.pending_edges) s
      else fail b.target.span (no_state_port ref_instance ref_port) s

  -- A dotted target, for a port of `peeks:` alone.
  unfoldable pub wire_dotted :
      PortBinding → Port → (ref_instance ref_port : String) → Pass Elaboration
  unfolding fail wire_reference
  wire_dotted b p ref_instance ref_port s =
      if is_peeks p.kind
      then wire_reference b ref_instance ref_port (Dict.lookup ref_instance s.instances) s
      else fail b.target.span (not_a_peek b.target.node) s

  -- An end that is not taken yet.
  abbrev pub first_end : Option (String × Span) → Span → Option (String × Span)
  first_end none sp = some (instance_name, sp)
  first_end (some e) sp = some e

  unfoldable pub record_writer :
      PortBinding → PendingEdge → Option (String × Span) → Pass Elaboration
  unfolding fail insert_pending
  record_writer b pending none =
      insert_pending b.target.node (record pending { writer = some (instance_name, b.target.span) })
  record_writer b pending (some (existing, _)) =
      fail b.target.span (second_writer b.target.node existing)

  unfoldable pub record_reader :
      PortBinding → PendingEdge → Option (String × Span) → Pass Elaboration
  unfolding fail insert_pending
  record_reader b pending none =
      insert_pending b.target.node (record pending { reader = some (instance_name, b.target.span) })
  record_reader b pending (some (existing, _)) =
      fail b.target.span (second_reader b.target.node existing)

  unfoldable pub record_peeker : PortBinding → PendingEdge → Option ℕ → Pass Elaboration
  unfolding add_edge_peeker insert_pending
  record_peeker b pending (some edge_idx) s =
      skip (record s { graph = add_edge_peeker edge_idx instance_name s.graph })
  record_peeker b pending none s =
      insert_pending b.target.node
        (record pending {
          edge_data = record pending.edge_data {
            kind = add_peeker instance_name pending.edge_data.kind;
          };
        })
        s

  -- The writer or reader that a binding makes, by the kind of its port.
  unfoldable pub record_end : PortKind → PortBinding → PendingEdge → Pass Elaboration
  unfolding record_writer record_reader record_peeker insert_pending
  record_end PortKind.produces b pending = record_writer b pending pending.writer
  record_end PortKind.consumes b pending = record_reader b pending pending.reader
  record_end PortKind.state b pending = insert_pending b.target.node (record pending {
    writer = first_end pending.writer b.target.span;
    reader = first_end pending.reader b.target.span;
  })
  record_end PortKind.peeks b pending = record_peeker b pending pending.edge_idx

  -- A port of an edge that is in the graph is bound at once.
  unfoldable pub bind_now : (port_name : String) → Option ℕ → Pass Elaboration
  unfolding bind_port
  bind_now port_name none s = skip s
  bind_now port_name (some edge_idx) s =
      skip (record s { graph = bind_port node_idx port_name edge_idx s.graph })

  unfoldable pub wire_queue : PortBinding → Port → Ty → Option PendingEdge → Pass Elaboration
  unfolding fail elem_mismatch port_element_type record_end bind_now ◌▸◌
  wire_queue b p port_ty none = fail b.target.span (unknown_queue b.target.node)
  wire_queue b p port_ty (some pending) =
      if elem_mismatch (port_element_type port_ty) pending.edge_data.elem_ty
      then fail b.target.span (
          queue_mismatch b.port.node b.target.node (unwrap_or port_ty (port_element_type port_ty))
            pending.edge_data.elem_ty)
      else record_end p.kind b pending ▸ bind_now b.port.node pending.edge_idx

  unfoldable pub wire_target : PortBinding → Port → Ty → Option (String × String) → Pass Elaboration
  unfolding wire_dotted wire_queue
  wire_target b p port_ty (some (ref_instance, ref_port)) s =
      wire_dotted b p ref_instance ref_port s
  wire_target b p port_ty none s =
      wire_queue b p port_ty (Dict.lookup b.target.node s.pending_edges) s

  unfoldable pub wire_port :
      TypeEnv → (proc_name : String) → PortBinding → Option Port → Pass Elaboration
  unfolding fail wire_target parse_dotted_target ◌▸◌
  wire_port env proc_name b none = fail b.port.span (no_port proc_name b.port.node)
  wire_port env proc_name b (some p) =
      let (port_ty, ds) = resolve_type_expr env p.ty in
      push_all ds ▸ wire_target b p port_ty (parse_dotted_target b.target.node)

  unfoldable pub wire_bindings : TypeEnv → Instance → Process → List PortBinding → Pass Elaboration
  unfolding wire_port find_port ◌▸◌
  wire_bindings env inst proc_def [] = skip
  wire_bindings env inst proc_def (b ∷ bindings) =
      wire_port env inst.process_name.node b (find_port b.port.node proc_def.ports)
      ▸ wire_bindings env inst proc_def bindings

unfoldable pub wire_instances : TypeEnv → Dict String Process → List Instance → Pass Elaboration
unfolding each_instance wire_bindings with_process
wire_instances env processes instances =
    each_instance
      (λ inst instance_name node_idx.
        with_process (Dict.lookup inst.process_name.node processes) (λ proc_def.
          wire_bindings processes instance_name node_idx env inst proc_def inst.bindings))
      instances 0
