-- ===== src/Elaborate/Nodes.antt =====
-- Phases 1 and 2 of `elaborate_pipe_inner` in src/elaborate.rs: a node for each instance of a
-- process.
use tourbillon.Base.{ℕ, String, Option, none, some, List, [], ◌∷◌, string_eq}
use tourbillon.Base.Dict
use tourbillon.Base.Dict.{Dict}
use tourbillon.Ast.{Port, Process}
use tourbillon.Ast.Items.{Instance}
use tourbillon.Types.Env.{TypeEnv, resolve_type_expr}
use tourbillon.Ir.{ResolvedPort, ProcessNode}
use tourbillon.Elaborate.{Elaboration, fail, new_instance_name, starts_with, push_node}
use tourbillon.Diagnostics.{unknown_process, Pass, Reports, return, ◌>>=◌}

-- A node under its name.
unfoldable pub insert_node : ProcessNode → Elaboration → Elaboration
unfolding push_node
insert_node node s =
    let (g, node_idx) = push_node node s.graph in
    record s { graph = g; instances = Dict.insert node.instance_name node_idx s.instances }

unfoldable pub process_node :
    Instance → Process → (instance_name : String) → List ResolvedPort → ProcessNode
unfolding starts_with
process_node inst proc_def instance_name ports = record {
  instance_name = instance_name;
  process_name = inst.process_name.node;
  rules = proc_def.rules;
  ports = ports;
  span = inst.process_name.span;
  is_memory_stub = starts_with inst.process_name.node "_Mem_";
}

module _ (env : TypeEnv) where
  unfoldable pub resolve_ports : List Port → Reports (List ResolvedPort)
  resolve_ports [] = return []
  resolve_ports (p ∷ ports) = resolve_type_expr env p.ty >>= λ ty.
      resolve_ports ports >>= λ resolved.
      return (record { name = p.name.node; kind = p.kind; ty = ty; bound_to = none } ∷ resolved)

  unfoldable pub create_node : Instance → (idx : ℕ) → Option Process → Pass Elaboration
  unfolding fail insert_node process_node new_instance_name resolve_ports
  create_node inst idx none s =
      fail inst.process_name.span (unknown_process inst.process_name.node) s
  create_node inst idx (some proc_def) s =
      let (ports, ds) = resolve_ports proc_def.ports in
      let instance_name = new_instance_name s.instances inst.process_name.node idx in
      (insert_node (process_node inst proc_def instance_name ports) s, ds)
