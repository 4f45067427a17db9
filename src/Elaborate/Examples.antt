-- ===== src/Elaborate/Examples.antt =====
-- Small pipes, elaborated: tests and instances of the theorems.
use tourbillon.Base.{
  ℕ, ◌+◌, ◌≤◌, ◌^◌, String, true, false, none, some, List, [], ◌∷◌, ◌≡◌, ◌↔◌, refl, inl, inr, arith,
  length, get_elem?, All, string_eq,
}
use tourbillon.Base.Decimal.{digit, digits, decimal}
use tourbillon.Base.Dict
use tourbillon.Base.Dict.{Dict}
use tourbillon.Ast.{Span, Spanned, TypeExpr, TypeExprs, PortKind, Port, Process}
use tourbillon.Ast.Items.{Instance, Pipe, Item}
use tourbillon.Types.Ty.{Ty, same_ty}
use tourbillon.Types.Env.{new_env, resolve_type_expr, resolve_bits}
use tourbillon.Ir.{QueueEdge, QueueEdgeKind, ProcessNode, Graph, ProcessNetwork}
use tourbillon.Desugar.Ports.{split_dot}
use tourbillon.Elaborate.{
  PendingEdge, Elaboration, fail, parse_dotted_target, port_element_type, joined, new_instance_name,
  find_instance_name, starts_with, push_node, push_edge, find_port,
}
use tourbillon.Elaborate.Nodes.{insert_node, create_node}
use tourbillon.Elaborate.Queues.{
  is_power_of_2, insert_pending, at_instance, each_instance, with_process, names_port, self_loops,
  create_self_loops,
}
use tourbillon.Elaborate.Wiring.{
  elem_mismatch, record_writer, record_reader, record_end, bind_now, wire_queue, wire_target,
  wire_port, wire_bindings, wire_instances,
}
use tourbillon.Elaborate.Domains.{DomainMap, validate_domains, has_error}
use tourbillon.Elaborate.Children.{merge_child}
use tourbillon.Elaborate.Substitutions.{
  apply_subs, recreate_deferred, relink, prune, dead_edges, remove_all,
}
use tourbillon.Elaborate.Pipes.{start, wire, create_edges, elaborate, elaborate_pipe_inner}
use tourbillon.Elaborate.SelfInstances.{elaborate_self}
use tourbillon.Elaborate.Instances.{find_instance_name-create_node, merge_child-prefix}
use tourbillon.Elaborate.PowersOf2.{is_power_of_2_iff}
use tourbillon.Elaborate.Termination.{Ends, Descends, elaborate_pipe_inner-Ends}
use tourbillon.Elaborate.Writers.{filled, filled_at}
use tourbillon.Elaborate.SingleWriters.{total_ends, wire_instances-ends}
use tourbillon.Elaborate.Ends.{HasDot, IsExternal, wire-ends}
use tourbillon.Elaborate.Edges.{
  create_deferred, on_deferred, link_ends, end_node, link, insert_stub, external_stub,
  bind_deferred, bind_targets, bind_target, bind_free, bind_free_in, queue_names, async_names,
}
use tourbillon.Elaborate.Checks.{check_bound, check_node, check_ports, check_ends, needs_ends}
use tourbillon.Elaborate.Crossings.{Allowed, validate_domains_iff}
use tourbillon.Diagnostics.{◌▸◌, ◌>>=◌}

abbrev sp : Span
sp = record { from = 4; to = 9 }

abbrev at : String → Spanned String
at s = record { node = s; span = sp }

abbrev bits : TypeExpr
bits = TypeExpr.named "Bits" TypeExprs.no_types sp

abbrev port : PortKind → String → Port
port kind name = record {
  kind = kind;
  name = at name;
  ty = TypeExpr.queue bits none sp;
  array_size = none;
}

abbrev source_process : Process
source_process = record {
  name = at "Source";
  ports = port PortKind.produces "out" ∷ [];
  rules = [];
}

abbrev sink_process : Process
sink_process = record { name = at "Sink"; ports = port PortKind.consumes "inp" ∷ []; rules = [] }

abbrev processes : Dict String Process
processes = ("Source", source_process) ∷ ("Sink", sink_process) ∷ []

abbrev instance_of : (process port target : String) → Instance
instance_of process port_name target = record {
  process_name = at process;
  domain = none;
  bindings = record { port = at port_name; target = at target } ∷ [];
}

abbrev instances : List Instance
instances = instance_of "Source" "out" "q" ∷ instance_of "Sink" "inp" "q" ∷ []

abbrev pipe_of : String → List Instance → Pipe
pipe_of name insts = record {
  name = at name;
  queue_decls = [];
  memory_decls = [];
  async_queue_decls = [];
  domain_decls = [];
  instances = insts;
}

abbrev q_edge : QueueEdge
q_edge = record {
  name = "q";
  elem_ty = Ty.bits 32;
  depth = 1;
  kind = QueueEdgeKind.queue 0 false;
  span = sp;
}

abbrev node_of : String → ProcessNode
node_of name = record {
  instance_name = name;
  process_name = name;
  rules = [];
  ports = [];
  span = sp;
  is_memory_stub = false;
}

abbrev two_nodes : Graph
two_nodes = record { nodes = node_of "Source" ∷ node_of "Sink" ∷ []; edges = [] }

abbrev declared : Elaboration
declared = record start {
  graph = two_nodes;
  instances = ("Source", 0) ∷ ("Sink", 1) ∷ [];
  pending_edges =
      (
        "q",
        record {
          edge_idx = none;
          edge_data = q_edge;
          writer = none;
          reader = none;
          decl_span = sp;
        },
      )
      ∷ [];
}

-- What a run of the elaboration unfolds.
run : Unit {0}
unfolding resolve_type_expr resolve_bits ◌▸◌ ◌>>=◌ split_dot parse_dotted_target fail
    port_element_type joined find_instance_name find_port at_instance each_instance with_process
    insert_pending elem_mismatch record_writer record_reader record_end bind_now wire_queue
    wire_target wire_port wire_bindings wire_instances Dict.lookup Dict.insert Dict.has_key same_ty
    is_power_of_2 digit digits decimal starts_with
run = tt

wires_cleanly : (wire_instances new_env processes instances declared).0.had_error ≡ false
unfolding run
wires_cleanly = refl

-- A second source is refused.
two_sources :
    (wire_instances new_env processes
      (instance_of "Source" "out" "q" ∷ instances)
      declared).0.had_error
    ≡ true
unfolding run
two_sources = refl

depth_16 : is_power_of_2 16 ≡ true
unfolding run
depth_16 = refl

depth_12 : is_power_of_2 12 ≡ false
unfolding run
depth_12 = refl

stub_name : starts_with "_Mem_flags" "_Mem_" ≡ true
unfolding run
stub_name = refl

wire_instances-ends_example :
    (filled_at true "q" declared
        + total_ends true "q" new_env processes declared.instances instances 0
      ≤ filled_at true "q" (wire_instances new_env processes instances declared).0)
    × (filled_at true "q" (wire_instances new_env processes instances declared).0 ≤ 1)
wire_instances-ends_example =
    wire_instances-ends true "q" new_env processes instances declared wires_cleanly

source_in_use : Dict.has_key "Source" declared.instances ≡ true
unfolding run
source_in_use = refl

find_instance_name-create_node_example :
    (Dict.lookup
        (joined "Source" (decimal 2))
        (create_node new_env
          (instance_of "Source" "out" "r")
          2
          (some source_process)
          declared).0.instances
      ≡ some 2)
    × (find_instance_name
          (create_node new_env
            (instance_of "Source" "out" "r")
            2
            (some source_process)
            declared).0.instances
          "Source"
          2
        ≡ some "Source")
find_instance_name-create_node_example =
    find_instance_name-create_node new_env (instance_of "Source" "out" "r") 2 source_process
      declared source_in_use

abbrev child_net : ProcessNetwork
child_net = record {
  name = "Stage";
  graph = two_nodes;
  instances = ("Source", 0) ∷ ("Sink", 1) ∷ [];
  type_defs = [];
  domains = [];
  domain_map = [];
  constants = [];
  external_constants = [];
  external_fns = [];
}

stage_free : Dict.has_key "Stage" declared.instances ≡ false
unfolding run
stage_free = refl

merge_child-prefix_example :
    new_instance_name
      (merge_child "Stage" (instance_of "Stage" "inp" "q") child_net declared).instances
      "Stage"
      3
    ≡ "Stage"
merge_child-prefix_example =
    merge_child-prefix (instance_of "Stage" "inp" "q") child_net 3 declared stage_free

abbrev looping : Pipe
looping = pipe_of "Loop" (instance_of "Source" "out" "q" ∷ instance_of "Loop" "out" "q" ∷ [])

elaborate_self_example :
    elaborate 3 (record { items = Item.pipe looping sp ∷ [] }) new_env ≡ some ([], [])
elaborate_self_example = elaborate_self 3 looping sp new_env (inr (inl refl))

abbrev inner : Pipe
inner = pipe_of "Inner" instances

abbrev outer : Pipe
outer = pipe_of "Outer" (instance_of "Inner" "inp" "q" ∷ instances)

abbrev pipes : Dict String Pipe
pipes = ("Outer", outer) ∷ ("Inner", inner) ∷ []

-- The number of instances.
abbrev rank : Pipe → ℕ
rank p = length p.instances

outer-Descends : Descends new_env processes pipes rank outer
unfolding run
outer-Descends = (inr (omega arith), (tt, (tt, tt)))

inner-Descends : Descends new_env processes pipes rank inner
unfolding run
inner-Descends = (tt, (tt, tt))

elaborate_pipe_inner-Ends_example :
    Ends (elaborate_pipe_inner new_env processes pipes 4 false outer)
elaborate_pipe_inner-Ends_example =
    elaborate_pipe_inner-Ends new_env processes pipes rank 4 false outer
      (outer-Descends, (inner-Descends, tt)) outer-Descends (omega arith)

is_power_of_2_iff_example : (is_power_of_2 16 ≡ true) ↔ ((k : ℕ) × (16 ≡ 2 ^ k))
is_power_of_2_iff_example = is_power_of_2_iff 16

abbrev crossing : Graph
crossing = record two_nodes { edges = record { source = 0; target = 1; weight = q_edge } ∷ [] }

abbrev domain_map : DomainMap
domain_map = ("Source", some "fast") ∷ ("Sink", none) ∷ []

validate_domains_iff_example :
    (has_error (validate_domains ("fast" ∷ []) domain_map crossing) ≡ false)
    ↔ All
        (λ e.
          Allowed domain_map e.weight
            (get_elem? crossing.nodes e.source)
            (get_elem? crossing.nodes e.target))
        crossing.edges
validate_domains_iff_example = validate_domains_iff "fast" [] domain_map crossing

abbrev top : Pipe
top = pipe_of "Top" instances

-- What the phases of a pipe unfold.
top_run : Unit {0}
unfolding run wire create_self_loops self_loops names_port create_edges create_deferred on_deferred
    link_ends end_node link push_edge insert_stub insert_node external_stub push_node apply_subs
    recreate_deferred relink prune dead_edges remove_all bind_deferred bind_targets bind_target
    bind_free bind_free_in check_bound check_node check_ports check_ends needs_ends queue_names
    async_names
top_run = tt

top_clean : (wire new_env top false processes declared).0.had_error ≡ false
unfolding top_run
top_clean = refl

-- The entry of the queue after the wiring.
abbrev wired_edge : PendingEdge
wired_edge = record {
  edge_idx = none;
  edge_data = q_edge;
  writer = some ("Source", sp);
  reader = some ("Sink", sp);
  decl_span = sp;
}

wired_at :
    get_elem? (wire new_env top false processes declared).0.pending_edges 0 ≡ some ("q", wired_edge)
unfolding top_run
wired_at = refl

no_dot : ¬ HasDot "q"
no_dot h = elim h [ inl e ↦ absurd (omega arith) | inr x ↦ x ]

not-IsExternal : ¬ IsExternal wired_edge.edge_data.kind
not-IsExternal h = h

wire-ends_example : (filled wired_edge.writer ≡ 1) × (filled wired_edge.reader ≡ 1)
wire-ends_example =
    wire-ends new_env top processes declared 0 "q" wired_edge top_clean wired_at no_dot
      not-IsExternal
