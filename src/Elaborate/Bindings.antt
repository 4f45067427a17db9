-- ===== src/Elaborate/Bindings.antt =====
-- What each piece of the wiring of a binding does to the ends of a queue, in phase 3b of
-- `elaborate_pipe_inner` of src/elaborate.rs.
use tourbillon.Base.{
  ℕ, String, Bool, Option, none, some, List, [], ◌∷◌, ◌≡◌, refl, arith, ◌==◌, string_eq,
  if◌then◌else◌, Bool-cases, Option-cases, inl, inr, get_elem?,
}
use tourbillon.Base.Dict
use tourbillon.Base.Dict.{Dict, lookup-insert}
use tourbillon.Ast.{Span, PortKind, Port, Process}
use tourbillon.Ast.Items.{PortBinding, Instance}
use tourbillon.Types.Ty.{Ty}
use tourbillon.Types.Env.{TypeEnv}
use tourbillon.Elaborate.{
  PendingEdge, Elaboration, port_element_type, find_port, unwrap_or, add_peeker,
}
use tourbillon.Elaborate.Wiring.{
  is_peeks, elem_mismatch, node_has_state_port, peek_edge, wire_reference, wire_dotted,
  record_writer, record_reader, record_peeker, record_end, bind_now, wire_queue, wire_target,
  wire_port, wire_bindings,
}
use tourbillon.Diagnostics.{
  no_port, not_a_peek, unknown_instance, no_state_port, unknown_queue, queue_mismatch,
  second_writer, second_reader, ◌▸◌,
}
use tourbillon.Elaborate.Writers.{
  Grows, ▸-Grows, ▸-Grows_0, fail-Grows, insert_pending-Grows, target_ends, port_ends,
  bindings_ends, ends, writer_more, reader_more, state_more, peeks_more, no_ends,
}

module _ (writing : Bool) (q : String) (processes : Dict String Process) (instance_name : String)
    (node_idx : ℕ) where
  -- Wiring that leaves the pending edges alone.
  peek_edge-Grows :
      (port : String) (o : Option PendingEdge) (s : Elaboration)
      → Grows writing q 0 s (peek_edge processes instance_name node_idx port o s).0
  unfolding peek_edge
  peek_edge-Grows port none s = ((λ clean. (clean, omega arith)), refl)
  peek_edge-Grows port (some p) s = elim (Option-cases p.edge_idx) [
    | inl e ↦ rw e ((λ clean. (clean, omega arith)), refl)
    | inr (i, e) ↦ rw e ((λ clean. (clean, omega arith)), refl)
  ]

  bind_now-Grows :
      (port : String) (o : Option ℕ) (s : Elaboration)
      → Grows writing q 0 s (bind_now processes instance_name node_idx port o s).0
  unfolding bind_now
  bind_now-Grows port none s = ((λ clean. (clean, omega arith)), refl)
  bind_now-Grows port (some i) s = ((λ clean. (clean, omega arith)), refl)

  wire_reference-Grows :
      (b : PortBinding) (i p : String) (o : Option ℕ) (s : Elaboration)
      → Grows writing q 0 s (wire_reference processes instance_name node_idx b i p o s).0
  unfolding wire_reference
  wire_reference-Grows b i p none s = fail-Grows writing q 0 b.target.span (unknown_instance i) s
  wire_reference-Grows b i p (some ref) s =
      elim (Bool-cases
        (node_has_state_port processes instance_name node_idx p (get_elem? s.graph.nodes ref))) [
          | inl e ↦ rw e (peek_edge-Grows b.port.node _ s)
          | inr e ↦ rw e (fail-Grows writing q 0 b.target.span (no_state_port i p) s)
        ]

  wire_dotted-Grows :
      (b : PortBinding) (p : Port) (i r : String) (s : Elaboration)
      → Grows writing q 0 s (wire_dotted processes instance_name node_idx b p i r s).0
  unfolding wire_dotted
  wire_dotted-Grows b p i r s = elim (Bool-cases (is_peeks p.kind)) [
    | inl e ↦ rw e (wire_reference-Grows b i r _ s)
    | inr e ↦ rw e (fail-Grows writing q 0 b.target.span (not_a_peek b.target.node) s)
  ]

  record_writer-Grows :
      (b : PortBinding) (p : PendingEdge) (o : Option (String × Span)) (s : Elaboration)
      → Dict.lookup b.target.node s.pending_edges ≡ some p
      → p.writer ≡ o
      → Grows writing q
          (if b.target.node == q then ends writing PortKind.produces else 0)
          s
          (record_writer processes instance_name node_idx b p o s).0
  unfolding record_writer
  record_writer-Grows b p (some (existing, sp)) s found e =
      fail-Grows writing q _ b.target.span (second_writer b.target.node existing) s
  record_writer-Grows b p none s found e =
      insert_pending-Grows writing q b.target.node p
        (record p { writer = some (instance_name, b.target.span) }) (ends writing PortKind.produces)
        s found (writer_more writing p (instance_name, b.target.span) e)

  record_reader-Grows :
      (b : PortBinding) (p : PendingEdge) (o : Option (String × Span)) (s : Elaboration)
      → Dict.lookup b.target.node s.pending_edges ≡ some p
      → p.reader ≡ o
      → Grows writing q
          (if b.target.node == q then ends writing PortKind.consumes else 0)
          s
          (record_reader processes instance_name node_idx b p o s).0
  unfolding record_reader
  record_reader-Grows b p (some (existing, sp)) s found e =
      fail-Grows writing q _ b.target.span (second_reader b.target.node existing) s
  record_reader-Grows b p none s found e =
      insert_pending-Grows writing q b.target.node p
        (record p { reader = some (instance_name, b.target.span) }) (ends writing PortKind.consumes)
        s found (reader_more writing p (instance_name, b.target.span) e)

  record_peeker-Grows :
      (b : PortBinding) (p : PendingEdge) (o : Option ℕ) (s : Elaboration)
      → Dict.lookup b.target.node s.pending_edges ≡ some p
      → Grows writing q
          (if b.target.node == q then ends writing PortKind.peeks else 0)
          s
          (record_peeker processes instance_name node_idx b p o s).0
  unfolding record_peeker
  record_peeker-Grows b p (some edge_idx) s found =
      rw (no_ends writing (b.target.node == q)) ((λ clean. (clean, omega arith)), refl)
  record_peeker-Grows b p none s found =
      insert_pending-Grows writing q b.target.node p _ (ends writing PortKind.peeks) s found (
        peeks_more writing p
          (record p.edge_data { kind = add_peeker instance_name p.edge_data.kind }))

  record_end-Grows :
      (kind : PortKind) (b : PortBinding) (p : PendingEdge) (s : Elaboration)
      → Dict.lookup b.target.node s.pending_edges ≡ some p
      → Grows writing q
          (if b.target.node == q then ends writing kind else 0)
          s
          (record_end processes instance_name node_idx kind b p s).0
  unfolding record_end
  record_end-Grows PortKind.produces b p s found = record_writer-Grows b p p.writer s found refl
  record_end-Grows PortKind.consumes b p s found = record_reader-Grows b p p.reader s found refl
  record_end-Grows PortKind.state b p s found =
      insert_pending-Grows writing q b.target.node p _ (ends writing PortKind.state) s found
        (state_more processes instance_name node_idx writing p b.target.span)
  record_end-Grows PortKind.peeks b p s found = record_peeker-Grows b p p.edge_idx s found

  wire_queue-Grows :
      (b : PortBinding) (p : Port) (ty : Ty) (o : Option PendingEdge) (s : Elaboration)
      → Dict.lookup b.target.node s.pending_edges ≡ o
      → Grows writing q
          (if b.target.node == q then ends writing p.kind else 0)
          s
          (wire_queue processes instance_name node_idx b p ty o s).0
  unfolding wire_queue
  wire_queue-Grows b p ty none s found =
      fail-Grows writing q _ b.target.span (unknown_queue b.target.node) s
  wire_queue-Grows b p ty (some pending) s found =
      elim (Bool-cases (elem_mismatch (port_element_type ty) pending.edge_data.elem_ty)) [
        | inl e ↦ rw e (
            fail-Grows writing q _ b.target.span
              (queue_mismatch b.port.node b.target.node (unwrap_or ty (port_element_type ty))
                pending.edge_data.elem_ty)
              s)
        | inr e ↦ rw e (
            ▸-Grows_0 writing q (record_end processes instance_name node_idx p.kind b pending)
              (bind_now processes instance_name node_idx b.port.node pending.edge_idx) _ s
              (record_end-Grows p.kind b pending s found)
              (bind_now-Grows b.port.node pending.edge_idx
                (record_end processes instance_name node_idx p.kind b pending s).0))
      ]

  wire_target-Grows :
      (b : PortBinding) (p : Port) (ty : Ty) (o : Option (String × String)) (s : Elaboration)
      → Grows writing q
          (target_ends writing q b p o)
          s
          (wire_target processes instance_name node_idx b p ty o s).0
  unfolding wire_target
  wire_target-Grows b p ty none s = wire_queue-Grows b p ty _ s refl
  wire_target-Grows b p ty (some (i, r)) s = wire_dotted-Grows b p i r s

  wire_port-Grows :
      (env : TypeEnv) (proc_name : String) (b : PortBinding) (o : Option Port) (s : Elaboration)
      → Grows writing q
          (port_ends writing q b o)
          s
          (wire_port processes instance_name node_idx env proc_name b o s).0
  unfolding wire_port ◌▸◌
  wire_port-Grows env proc_name b none s =
      fail-Grows writing q 0 b.port.span (no_port proc_name b.port.node) s
  wire_port-Grows env proc_name b (some p) s = wire_target-Grows b p _ _ s

  pub wire_bindings-Grows :
      (env : TypeEnv) (inst : Instance) (proc_def : Process) (bindings : List PortBinding)
      (s : Elaboration)
      → Grows writing q
          (bindings_ends writing q proc_def bindings)
          s
          (wire_bindings processes instance_name node_idx env inst proc_def bindings s).0
  unfolding wire_bindings
  wire_bindings-Grows env inst proc_def [] s = ((λ clean. (clean, omega arith)), refl)
  wire_bindings-Grows env inst proc_def (b ∷ bindings) s =
      ▸-Grows writing q
        (wire_port processes instance_name node_idx env inst.process_name.node b
          (find_port b.port.node proc_def.ports))
        (wire_bindings processes instance_name node_idx env inst proc_def bindings) _ _ s
        (wire_port-Grows env inst.process_name.node b (find_port b.port.node proc_def.ports) s)
        (wire_bindings-Grows env inst proc_def bindings _)
