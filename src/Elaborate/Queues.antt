-- ===== src/Elaborate/Queues.antt =====
-- Phases 3 and 3a of `elaborate_pipe_inner` in src/elaborate.rs: the edges of the declared queues,
-- which wait for their ends, and the self-loops of unbound state ports.
use Prim.Native.Nat.{bit_and}
use tourbillon.Base.{
  ℕ, ◌+◌, ◌-◌, String, Bool, true, false, not, ◌&&◌, ◌||◌, Option, none, some, List, [], ◌∷◌, ◌==◌,
  nat_eq, string_eq, if◌then◌else◌,
}
use tourbillon.Base.Dict
use tourbillon.Base.Dict.{Dict}
use tourbillon.Ast.{PortKind, Port, Process}
use tourbillon.Ast.Items.{QueueDecl, AsyncQueueDecl, PortBinding, Instance}
use tourbillon.Types.Ty.{Ty}
use tourbillon.Types.Env.{TypeEnv, resolve_type_expr}
use tourbillon.Ir.{QueueEdge, QueueEdgeKind}
use tourbillon.Elaborate.{
  PendingEdge, Elaboration, fail, extract_init_value, port_element_type, unwrap_or,
  resolve_queue_decl, find_instance_name, dotted, push_edge, bind_port,
}
use tourbillon.Diagnostics.{no_depth, not_a_power_of_2, Pass, skip, push_all, ◌▸◌}

-- An edge whose ends are not known yet.
unfoldable pub deferred : QueueEdge → PendingEdge
deferred edge = record {
  edge_idx = none;
  edge_data = edge;
  writer = none;
  reader = none;
  decl_span = edge.span;
}

unfoldable pub insert_pending : String → PendingEdge → Pass Elaboration
insert_pending name p s = skip (record s { pending_edges = Dict.insert name p s.pending_edges })

unfoldable pub queue_edge : QueueDecl → Ty × ℕ → QueueEdge
queue_edge decl (elem_ty, depth) = record {
  name = decl.name.node;
  elem_ty = elem_ty;
  depth = depth;
  kind = QueueEdgeKind.queue (unwrap_or 0 decl.init_tokens) decl.is_external;
  span = decl.name.span;
}

unfoldable pub is_power_of_2 : ℕ → Bool
is_power_of_2 depth = not (depth == 0 || not (bit_and depth (depth - 1) == 0))

abbrev async_elem : Ty → Ty
async_elem (Ty.async_queue elem _) = elem
async_elem (Ty.queue elem _) = elem
async_elem ty = ty

unfoldable pub async_edge : AsyncQueueDecl → Ty → (depth : ℕ) → QueueEdge
async_edge decl ty depth = record {
  name = decl.name.node;
  elem_ty = async_elem ty;
  depth = depth;
  kind = QueueEdgeKind.async_queue;
  span = decl.name.span;
}

unfoldable pub declare_async : AsyncQueueDecl → Ty → Option ℕ → Pass Elaboration
unfolding fail is_power_of_2 insert_pending deferred async_edge
declare_async decl ty none = fail decl.name.span (no_depth decl.name.node)
declare_async decl ty (some depth) =
    if is_power_of_2 depth
    then insert_pending decl.name.node (deferred (async_edge decl ty depth))
    else fail decl.name.span (not_a_power_of_2 decl.name.node depth)

module _ (env : TypeEnv) where
  unfoldable pub declare_queues : List QueueDecl → Pass Elaboration
  unfolding resolve_queue_decl insert_pending deferred queue_edge ◌▸◌
  declare_queues [] = skip
  declare_queues (decl ∷ decls) =
      let (resolved, ds) = resolve_queue_decl decl env in
      push_all ds
      ▸ insert_pending decl.name.node (deferred (queue_edge decl resolved))
      ▸ declare_queues decls

  unfoldable pub declare_async_queues : List AsyncQueueDecl → Pass Elaboration
  unfolding declare_async ◌▸◌
  declare_async_queues [] = skip
  declare_async_queues (decl ∷ decls) =
      let (ty, ds) = resolve_type_expr env decl.ty in
      push_all ds ▸ declare_async decl ty decl.depth ▸ declare_async_queues decls

-- A port that one of the bindings names.
unfoldable pub names_port : List PortBinding → String → Bool
names_port [] name = false
names_port (b ∷ bindings) name = b.port.node == name || names_port bindings name

abbrev pub is_state_port : PortKind → Bool
is_state_port PortKind.state = true
is_state_port _ = false

module _ (env : TypeEnv) (instance_name : String) (node_idx : ℕ) where
  unfoldable pub self_loop_edge : Port → Ty → QueueEdge
  unfolding dotted port_element_type extract_init_value
  self_loop_edge p port_ty = record {
    name = dotted instance_name p.name.node;
    elem_ty = unwrap_or port_ty (port_element_type port_ty);
    depth = 1;
    kind = QueueEdgeKind.cell [] (extract_init_value p.ty env);
    span = p.name.span;
  }

  -- The edge of a state port from its node to itself.
  unfoldable pub insert_self_loop : Port → QueueEdge → Elaboration → Elaboration
  unfolding push_edge bind_port
  insert_self_loop p edge s =
      let (g, edge_idx) = push_edge node_idx node_idx edge s.graph in
      let end = some (instance_name, p.name.span) in
      record s {
        graph = bind_port node_idx p.name.node edge_idx g;
        pending_edges =
            Dict.insert edge.name
              (record {
                edge_idx = some edge_idx;
                edge_data = edge;
                writer = end;
                reader = end;
                decl_span = p.name.span;
              })
              s.pending_edges;
      }

  unfoldable pub self_loops : List PortBinding → List Port → Pass Elaboration
  unfolding names_port self_loop_edge insert_self_loop ◌▸◌
  self_loops bindings [] = skip
  self_loops bindings (p ∷ ports) =
      let rest = self_loops bindings ports in
      let (ty, ds) = resolve_type_expr env p.ty in
      if is_state_port p.kind && not (names_port bindings p.name.node)
      then (λ s. (insert_self_loop p (self_loop_edge p ty) s, ds)) ▸ rest
      else rest

-- What a phase does at an instance, if its name is found.
unfoldable pub at_instance :
    (Instance → String → ℕ → Pass Elaboration) → Instance → (idx : ℕ) → Pass Elaboration
at_instance visit inst idx s = elim (find_instance_name s.instances inst.process_name.node idx) [
  | none ↦ skip s
  | some instance_name ↦ elim (Dict.lookup instance_name s.instances) [
    | none ↦ skip s
    | some node_idx ↦ visit inst instance_name node_idx s
  ]
]

unfoldable pub each_instance :
    (Instance → String → ℕ → Pass Elaboration) → List Instance → (idx : ℕ) → Pass Elaboration
unfolding at_instance ◌▸◌
each_instance visit [] idx = skip
each_instance visit (inst ∷ instances) idx =
    at_instance visit inst idx ▸ each_instance visit instances (idx + 1)

-- A phase that passes over the instances that are no processes.
unfoldable pub with_process : Option Process → (Process → Pass Elaboration) → Pass Elaboration
with_process none visit = skip
with_process (some proc_def) visit = visit proc_def

unfoldable pub create_self_loops : TypeEnv → Dict String Process → List Instance → Pass Elaboration
unfolding each_instance self_loops with_process
create_self_loops env processes instances =
    each_instance
      (λ inst instance_name node_idx.
        with_process (Dict.lookup inst.process_name.node processes)
          (λ proc_def. self_loops env instance_name node_idx inst.bindings proc_def.ports))
      instances 0
