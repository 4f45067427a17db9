-- ===== src/Elaborate/Checks.antt =====
-- The checks at the end of `elaborate_pipe_inner` in src/elaborate.rs: bound ports, and the ends of
-- the queues. The source goes over its map in no fixed order.
use tourbillon.Base.{
  String, Bool, true, false, not, ◌&&◌, Option, none, some, List, [], ◌∷◌, string_eq, get_elem?,
}
use tourbillon.Base.Dict.{Dict}
use tourbillon.Ast.{Span}
use tourbillon.Ast.Items.{Instance}
use tourbillon.Types.Ty.{Ty}
use tourbillon.Ir.{ResolvedPort, ProcessNode}
use tourbillon.Elaborate.{PendingEdge, Elaboration, fail, parse_dotted_target}
use tourbillon.Elaborate.Queues.{is_state_port, each_instance}
use tourbillon.Elaborate.Edges.{is_external_queue}
use tourbillon.Diagnostics.{Message, unbound_port, no_writer, no_reader, Pass, skip, ◌▸◌}

abbrev pub is_none {ℓ} : {A : Type ℓ} → Option A → Bool
is_none none = true
is_none (some _) = false

abbrev pub fail_if : Bool → Span → Message → Pass Elaboration
fail_if true sp m = fail sp m
fail_if false sp m = skip

unfoldable pub check_ports : (instance_name : String) → Span → List ResolvedPort → Pass Elaboration
unfolding fail ◌▸◌
check_ports instance_name sp [] = skip
check_ports instance_name sp (p ∷ ports) =
    fail_if (not (is_state_port p.kind) && is_none p.bound_to) sp
      (unbound_port instance_name p.name)
    ▸ check_ports instance_name sp ports

unfoldable pub check_node : (instance_name : String) → Option ProcessNode → Pass Elaboration
unfolding check_ports
check_node instance_name none = skip
check_node instance_name (some node) = check_ports instance_name node.span node.ports

unfoldable pub check_bound : List Instance → Pass Elaboration
unfolding each_instance check_node
check_bound instances =
    each_instance
      (λ inst instance_name node_idx s.
        check_node instance_name (get_elem? s.graph.nodes node_idx) s)
      instances 0

-- A queue of the pipe that needs a writer and a reader: not a self-loop, not external.
unfoldable pub needs_ends : (allow_dangling : Bool) → String × PendingEdge → Bool
unfolding parse_dotted_target
needs_ends allow_dangling (queue_name, p) =
    is_none (parse_dotted_target queue_name)
    && (not allow_dangling && not (is_external_queue p.edge_data.kind))

unfoldable pub check_ends : (allow_dangling : Bool) → Dict String PendingEdge → Pass Elaboration
unfolding fail needs_ends ◌▸◌
check_ends allow_dangling [] = skip
check_ends allow_dangling ((queue_name, p) ∷ entries) =
    fail_if (needs_ends allow_dangling (queue_name, p) && is_none p.writer) p.decl_span
      (no_writer queue_name)
    ▸ fail_if (needs_ends allow_dangling (queue_name, p) && is_none p.reader) p.decl_span
        (no_reader queue_name)
    ▸ check_ends allow_dangling entries

-- The records and enums of the environment.
unfoldable pub reachable_types : Dict String Ty → Dict String Ty
reachable_types [] = []
reachable_types ((name, Ty.record_ n fs) ∷ defs) = (name, Ty.record_ n fs) ∷ reachable_types defs
reachable_types ((name, Ty.enum n vs) ∷ defs) = (name, Ty.enum n vs) ∷ reachable_types defs
reachable_types ((name, _) ∷ defs) = reachable_types defs
