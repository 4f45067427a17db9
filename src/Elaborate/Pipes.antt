-- ===== src/Elaborate/Pipes.antt =====
-- `elaborate_pipe_inner` and `elaborate` of src/elaborate.rs: the phases, one after another. A pipe
-- in a pipe is elaborated by recursion; the model recurs on fuel, and `none` is a run that needs
-- more.
use tourbillon.Base.{
  ℕ, zero, suc, ◌+◌, String, Bool, true, false, Option, none, some, List, [], ◌∷◌, ◌++◌, map, ◌==◌,
  string_eq, if◌then◌else◌,
}
use tourbillon.Base.Dict
use tourbillon.Base.Dict.{Dict}
use tourbillon.Base.Sets
use tourbillon.Ast.{Process}
use tourbillon.Ast.Items.{Instance, Pipe, Item, SourceFile}
use tourbillon.Types.Env.{TypeEnv}
use tourbillon.Ir.{ProcessNetwork}
use tourbillon.Elaborate.{Elaboration, fail, index_definitions, new_instance_name}
use tourbillon.Elaborate.Nodes.{create_node}
use tourbillon.Elaborate.Domains.{
  DomainMap, declare_domains, collect_domains, validate_domains, has_error,
}
use tourbillon.Elaborate.Queues.{declare_queues, declare_async_queues, create_self_loops}
use tourbillon.Elaborate.Wiring.{wire_instances}
use tourbillon.Elaborate.Edges.{queue_names, async_names, create_deferred, bind_deferred}
use tourbillon.Elaborate.Children.{merge_child}
use tourbillon.Elaborate.Substitutions.{apply_subs, recreate_deferred, prune}
use tourbillon.Elaborate.Checks.{check_bound, check_ends, reachable_types}
use tourbillon.Diagnostics.{Diagnostic, instantiates_itself, Pass, skip, ◌▸◌, Reports}

abbrev pub start : Elaboration
start = record {
  graph = record { nodes = []; edges = [] };
  instances = [];
  pending_edges = [];
  queue_edge_map = [];
  cross_pipe_subs = [];
  pipe_instance_domains = [];
  had_error = false;
}

-- The elaboration of a child pipe: a network or none, with its diagnostics.
abbrev pub Elaborated : Type 0
Elaborated = Option (Reports (Option ProcessNetwork))

abbrev pub and_then :
    Option (Elaboration × List Diagnostic)
    → (Elaboration → Option (Elaboration × List Diagnostic))
    → Option (Elaboration × List Diagnostic)
and_then none next = none
and_then (some (s, ds)) next = elim (next s) [ none ↦ none | some (t, es) ↦ some (t, ds ++ es) ]

-- The child's network merged, if the child has one.
unfoldable pub merge_result :
    Instance → (idx : ℕ) → Elaborated → Elaboration → Option (Elaboration × List Diagnostic)
unfolding merge_child new_instance_name
merge_result inst idx none s = none
merge_result inst idx (some (none, ds)) s = some (record s { had_error = true }, ds)
merge_result inst idx (some (some child_net, ds)) s =
    some
      (merge_child (new_instance_name s.instances inst.process_name.node idx) inst child_net s, ds)

module _ (env : TypeEnv) (processes : Dict String Process) (pipes : Dict String Pipe) where
  -- One instance: of a pipe, or of a process.
  unfoldable pub create_instance :
      (child : Pipe → Elaborated) (pipe_name : String)
      → Instance
      → (idx : ℕ) → Option Pipe
      → Elaboration
      → Option (Elaboration × List Diagnostic)
  unfolding fail create_node merge_result
  create_instance child pipe_name inst idx none s =
      some (create_node env inst idx (Dict.lookup inst.process_name.node processes) s)
  create_instance child pipe_name inst idx (some child_pipe) s =
      if inst.process_name.node == pipe_name
      then some (fail inst.process_name.span (instantiates_itself inst.process_name.node) s)
      else merge_result inst idx (child child_pipe) s

  -- Phases 1 and 2
  unfoldable pub create_instances :
      (child : Pipe → Elaborated) (pipe_name : String)
      → List Instance
      → (idx : ℕ) → Elaboration
      → Option (Elaboration × List Diagnostic)
  unfolding create_instance
  create_instances child pipe_name [] idx s = some (s, [])
  create_instances child pipe_name (inst ∷ instances) idx s =
      and_then
        (create_instance child pipe_name inst idx (Dict.lookup inst.process_name.node pipes) s)
        (create_instances child pipe_name instances (idx + 1))

abbrev pub is_clean {ℓ} : {A : Type ℓ} → List A → Bool
is_clean [] = true
is_clean (_ ∷ _) = false

unfoldable pub insert_all :
    Dict String (Option String) → Dict String (Option String) → Dict String (Option String)
insert_all [] entries = entries
insert_all ((name, d) ∷ new) entries = insert_all new (Dict.insert name d entries)

-- Diagnostics before a result.
abbrev pub after :
    List Diagnostic → Reports (Option ProcessNetwork) → Reports (Option ProcessNetwork)
after ds (net, es) = (net, ds ++ es)

module _ (env : TypeEnv) (pipe : Pipe) (allow_dangling : Bool) where
  abbrev domain_names : List String
  domain_names = map (λ d. d.node) pipe.domain_decls

  -- The names of the pipe's queues, in the order of their declarations.
  abbrev deferred_names : List String
  deferred_names = queue_names pipe.queue_decls ++ async_names pipe.async_queue_decls

  unfoldable pub pipe_network : DomainMap → Elaboration → ProcessNetwork
  unfolding reachable_types
  pipe_network domain_map s = record {
    name = pipe.name.node;
    graph = s.graph;
    instances = s.instances;
    type_defs = reachable_types env.type_defs;
    domains = domain_names;
    domain_map = domain_map;
    constants = env.constants;
    external_constants = env.external_constants;
    external_fns = env.external_fns;
  }

  -- From the cross-domain validation on.
  unfoldable pub finish : DomainMap → Elaboration → Reports (Option ProcessNetwork)
  unfolding validate_domains pipe_network
  finish domain_map s =
      let ds = validate_domains domain_names domain_map s.graph in
      if has_error ds then (none, ds) else (some (pipe_network domain_map s), ds)

  -- Phase 4, without its checks.
  unfoldable pub create_edges : Elaboration → Elaboration
  unfolding create_deferred apply_subs recreate_deferred prune
  create_edges s =
      let created = create_deferred allow_dangling deferred_names s in
      prune (recreate_deferred deferred_names (apply_subs created.cross_pipe_subs created))

  -- Phases 3a to 4.
  unfoldable pub wire : (processes : Dict String Process) → Pass Elaboration
  unfolding create_self_loops wire_instances create_edges bind_deferred check_bound check_ends ◌▸◌
  wire processes =
      create_self_loops env processes pipe.instances
      ▸ wire_instances env processes pipe.instances
      ▸ (λ s. skip (create_edges s))
      ▸ bind_deferred pipe.instances
      ▸ check_bound pipe.instances
      ▸ (λ s. check_ends allow_dangling s.pending_edges s)

  -- What follows a phase, unless there was an error.
  abbrev pub unless_error :
      Elaboration × List Diagnostic
      → (Elaboration → Reports (Option ProcessNetwork))
      → Reports (Option ProcessNetwork)
  unless_error (s, ds) next = after ds (if s.had_error then (none, []) else next s)

  unfoldable pub declare_and_wire :
      (processes : Dict String Process) → DomainMap → Elaboration → Reports (Option ProcessNetwork)
  unfolding declare_queues declare_async_queues wire finish ◌▸◌
  declare_and_wire processes domain_map s =
      unless_error
        ((declare_queues env pipe.queue_decls ▸ declare_async_queues env pipe.async_queue_decls) s)
        (λ declared. unless_error (wire processes declared) (finish domain_map))

  -- The domains; their diagnostics are all errors.
  unfoldable pub with_domains :
      (processes : Dict String Process) → Elaboration → Reports (Option ProcessNetwork)
  unfolding declare_domains collect_domains insert_all declare_and_wire
  with_domains processes s =
      let (domain_set, ds) = declare_domains pipe.domain_decls [] in
      let (domain_map, es) = collect_domains s.instances domain_set pipe.instances 0 [] in
      after (ds ++ es) (
        if is_clean (ds ++ es)
        then declare_and_wire processes (insert_all s.pipe_instance_domains domain_map) s
        else (none, []))

  unfoldable pub after_instances :
      (processes : Dict String Process) → Option (Elaboration × List Diagnostic) → Elaborated
  unfolding with_domains
  after_instances processes none = none
  after_instances processes (some created) = some (unless_error created (with_domains processes))

module _ (env : TypeEnv) (processes : Dict String Process) (pipes : Dict String Pipe) where
  unfoldable pub elaborate_pipe_inner : (fuel : ℕ) (allow_dangling : Bool) → Pipe → Elaborated
  unfolding create_instances after_instances
  elaborate_pipe_inner zero allow_dangling pipe = none
  elaborate_pipe_inner (suc fuel) allow_dangling pipe =
      after_instances env pipe allow_dangling processes (
        create_instances env processes pipes (elaborate_pipe_inner fuel true) pipe.name.node
          pipe.instances 0 start)

-- The names of the pipes that are instances of pipes.
unfoldable pub child_names : Dict String Pipe → List Instance → List String → List String
child_names pipes [] names = names
child_names pipes (inst ∷ instances) names = child_names pipes instances (
    if Dict.has_key inst.process_name.node pipes
    then Sets.insert inst.process_name.node names
    else names)

unfoldable pub child_pipes : (pipes left : Dict String Pipe) → List String → List String
unfolding child_names
child_pipes pipes [] names = names
child_pipes pipes ((_, pipe) ∷ left) names =
    child_pipes pipes left (child_names pipes pipe.instances names)

abbrev add_network : Option ProcessNetwork → List ProcessNetwork → List ProcessNetwork
add_network none networks = networks
add_network (some net) networks = net ∷ networks

-- The results of two runs, if both had fuel.
abbrev both_networks :
    Elaborated → Option (Reports (List ProcessNetwork)) → Option (Reports (List ProcessNetwork))
both_networks none rest = none
both_networks (some _) none = none
both_networks (some (net, ds)) (some (networks, es)) = some (add_network net networks, ds ++ es)

unfoldable pub elaborate_items :
    (fuel : ℕ)
    → TypeEnv
    → Dict String Process
    → (pipes : Dict String Pipe) (child : List String) → List Item
    → Option (Reports (List ProcessNetwork))
unfolding elaborate_pipe_inner
elaborate_items fuel env processes pipes child [] = some ([], [])
elaborate_items fuel env processes pipes child (Item.pipe pipe _ ∷ items) =
    let rest = elaborate_items fuel env processes pipes child items in
    if Sets.contains child pipe.name.node
    then rest
    else both_networks (elaborate_pipe_inner env processes pipes fuel false pipe) rest
elaborate_items fuel env processes pipes child (_ ∷ items) =
    elaborate_items fuel env processes pipes child items

unfoldable pub elaborate :
    (fuel : ℕ) → SourceFile → TypeEnv → Option (Reports (List ProcessNetwork))
unfolding index_definitions child_pipes elaborate_items
elaborate fuel source env =
    let (processes, pipes) = index_definitions source.items ([], []) in
    elaborate_items fuel env processes pipes (child_pipes pipes pipes []) source.items
