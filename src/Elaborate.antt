-- ===== src/Elaborate.antt =====
-- Elaboration of pipes into process networks, src/elaborate.rs: the state of `elaborate_pipe_inner`
-- and the helpers of the file. The phases stand in the child modules.
pub mod Nodes
pub mod Domains
pub mod Queues
pub mod Wiring
pub mod Edges
pub mod Children
pub mod Substitutions
pub mod Checks
pub mod Pipes
mod Examples
pub mod Ends
pub mod Crossings
pub mod Termination
pub mod PowersOf2
pub mod Writers
pub mod Bindings
pub mod SingleWriters
pub mod Instances
pub mod SelfInstances
use Prim.Native.Char.{code}
use Prim.Native.String as Text
use tourbillon.Base.{
  ℕ, zero, suc, String, Bool, true, false, ◌&&◌, Option, none, some, List, [], ◌∷◌, ◌++◌, ◌==◌,
  nat_eq, string_eq, if◌then◌else◌, length, update,
}
use tourbillon.Base.Decimal.{decimal}
use tourbillon.Base.Dict
use tourbillon.Base.Dict.{Dict}
use tourbillon.Ast.{Span, Literal, Expr, TypeExpr, Process, Port}
use tourbillon.Ast.Items.{QueueDecl, Pipe, Item}
use tourbillon.Types.Ty.{Ty}
use tourbillon.Types.Env.{TypeEnv, resolve_type_expr}
use tourbillon.Ir.{QueueEdge, QueueEdgeKind, ResolvedPort, ProcessNode, GraphEdge, Graph}
use tourbillon.Desugar.Ports.{split_dot}
use tourbillon.Diagnostics.{Message, error_at, Pass, Reports, return, ◌>>=◌}

pub record PendingEdge : Type 0 where
  pub edge_idx : Option ℕ
  pub edge_data : QueueEdge
  pub writer : Option (String × Span)
  pub reader : Option (String × Span)
  pub decl_span : Span

-- The variables of `elaborate_pipe_inner` that its phases share.
pub record Elaboration : Type 0 where
  pub graph : Graph
  pub instances : Dict String ℕ
  pub pending_edges : Dict String PendingEdge
  pub queue_edge_map : Dict String ℕ
  pub cross_pipe_subs : List (String × String)
  pub pipe_instance_domains : Dict String (Option String)
  pub had_error : Bool

-- `diagnostics.push(Diagnostic::error(...)); had_error = true;`
unfoldable pub fail : Span → Message → Pass Elaboration
fail sp m s = (record s { had_error = true }, error_at sp m ∷ [])

unfoldable pub index_definitions :
    List Item → Dict String Process × Dict String Pipe → Dict String Process × Dict String Pipe
index_definitions [] found = found
index_definitions (Item.process p _ ∷ items) (processes, pipes) =
    index_definitions items (Dict.insert p.name.node p processes, pipes)
index_definitions (Item.pipe p _ ∷ items) (processes, pipes) =
    index_definitions items (processes, Dict.insert p.name.node p pipes)
index_definitions (_ ∷ items) found = index_definitions items found

unfoldable pub parse_dotted_target : String → Option (String × String)
unfolding split_dot
parse_dotted_target target = split_dot target

abbrev init_literal : TypeEnv → Expr → Option ℕ
init_literal env (Expr.lit (Literal.int n) _) = some n
init_literal env (Expr.lit (Literal.bool b) _) = some (if b then 1 else 0)
init_literal env (Expr.variable name _) = Dict.lookup name env.constants
init_literal env _ = none

unfoldable pub extract_init_value : TypeExpr → TypeEnv → Option ℕ
extract_init_value (TypeExpr.cell _ (some init_expr) _) env = init_literal env init_expr
extract_init_value _ env = none

unfoldable pub port_element_type : Ty → Option Ty
port_element_type (Ty.queue elem _) = some elem
port_element_type (Ty.cell elem) = some elem
port_element_type (Ty.async_queue elem _) = some elem
port_element_type _ = none

abbrev pub unwrap_or {ℓ} : {A : Type ℓ} → A → Option A → A
unwrap_or a none = a
unwrap_or a (some b) = b

-- `or` of `Option`
abbrev pub or_else {ℓ} : {A : Type ℓ} → Option A → Option A → Option A
or_else none o = o
or_else (some a) o = some a

abbrev queue_parts : Option ℕ → Ty → Ty × ℕ
queue_parts declared (Ty.queue elem depth) = (elem, unwrap_or 1 (or_else declared depth))
queue_parts declared (Ty.cell elem) = (elem, 1)
queue_parts declared ty = (ty, unwrap_or 1 declared)

unfoldable pub resolve_queue_decl : QueueDecl → TypeEnv → Reports (Ty × ℕ)
resolve_queue_decl decl env =
    resolve_type_expr env decl.ty >>= λ ty. return (queue_parts decl.depth ty)

-- `format!("{a}_{b}")`
unfoldable pub joined : (a b : String) → String
joined a b = Text.◌++◌ a (Text.◌++◌ "_" b)

-- `format!("{a}.{b}")`
unfoldable pub dotted : (a b : String) → String
dotted a b = Text.◌++◌ a (Text.◌++◌ "." b)

-- The name that the source gives a new instance: the process's, with the index behind it when the
-- name is in use.
unfoldable pub new_instance_name : Dict String ℕ → (proc_name : String) (idx : ℕ) → String
unfolding joined
new_instance_name instances proc_name idx =
    if Dict.has_key proc_name instances then joined proc_name (decimal idx) else proc_name

unfoldable pub find_instance_name : Dict String ℕ → (proc_name : String) (idx : ℕ) → Option String
unfolding joined
find_instance_name instances proc_name idx =
    if Dict.has_key proc_name instances
    then some proc_name
    else if Dict.has_key (joined proc_name (decimal idx)) instances
    then some (joined proc_name (decimal idx))
    else none

unfoldable pub starts_with : (text prefix : String) → Bool
starts_with text String.[] = true
starts_with String.[] (String.◌∷◌ c cs) = false
starts_with (String.◌∷◌ d ds) (String.◌∷◌ c cs) = code d == code c && starts_with ds cs

-- `add_node` and `add_edge` of the graph, which give the new index.
unfoldable pub push_node : ProcessNode → Graph → Graph × ℕ
push_node n g = (record g { nodes = g.nodes ++ n ∷ [] }, length g.nodes)

unfoldable pub push_edge : (source target : ℕ) → QueueEdge → Graph → Graph × ℕ
push_edge source target e g = (
  record g { edges = g.edges ++ record { source = source; target = target; weight = e } ∷ [] },
  length g.edges,
)

-- The first port of a name, bound to an edge.
unfoldable pub bind_in : (port_name : String) (edge_idx : ℕ) → List ResolvedPort → List ResolvedPort
bind_in port_name edge_idx [] = []
bind_in port_name edge_idx (p ∷ ports) =
    if p.name == port_name
    then record p { bound_to = some edge_idx } ∷ ports
    else p ∷ bind_in port_name edge_idx ports

unfoldable pub bind_port : (node_idx : ℕ) (port_name : String) (edge_idx : ℕ) → Graph → Graph
unfolding bind_in
bind_port node_idx port_name edge_idx g = record g {
  nodes = update node_idx (λ n. record n { ports = bind_in port_name edge_idx n.ports }) g.nodes;
}

-- One more peeker of a cell.
abbrev pub add_peeker : String → QueueEdgeKind → QueueEdgeKind
add_peeker instance_name (QueueEdgeKind.cell peekers init) =
    QueueEdgeKind.cell (peekers ++ instance_name ∷ []) init
add_peeker instance_name kind = kind

unfoldable pub add_edge_peeker : (edge_idx : ℕ) → String → Graph → Graph
add_edge_peeker edge_idx instance_name g = record g {
  edges =
      update edge_idx
        (λ e. record e {
          weight = record e.weight { kind = add_peeker instance_name e.weight.kind };
        })
        g.edges;
}

-- The first port of a process with a name.
unfoldable pub find_port : String → List Port → Option Port
find_port name [] = none
find_port name (p ∷ ports) = if p.name.node == name then some p else find_port name ports
