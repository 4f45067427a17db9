-- ===== src/Ir.antt =====
-- The process network, src/ir.rs. Graph indices of petgraph are natural numbers: node and edge `i`
-- stand at position `i` of the lists `nodes` and `edges`, and an edge carries its two ends.
use tourbillon.Base.{ℕ, String, Bool, Option, List}
use tourbillon.Ast.{Span, Rule, PortKind}
use tourbillon.Base.Dict.{Dict}
use tourbillon.Types.Ty.{Ty, Tys}

pub data QueueEdgeKind : Type 0 where
  queue : (init_tokens : ℕ) (is_external : Bool) → QueueEdgeKind
  cell : (peeker_instances : List String) (init : Option ℕ) → QueueEdgeKind
  async_queue : QueueEdgeKind

pub record QueueEdge : Type 0 where
  pub name : String
  pub elem_ty : Ty
  pub depth : ℕ
  pub kind : QueueEdgeKind
  pub span : Span

pub record ResolvedPort : Type 0 where
  pub name : String
  pub kind : PortKind
  pub ty : Ty
  pub bound_to : Option ℕ

pub record ProcessNode : Type 0 where
  pub instance_name : String
  pub process_name : String
  pub rules : List Rule
  pub ports : List ResolvedPort
  pub span : Span
  pub is_memory_stub : Bool

-- An edge of the graph with its ends: `edge_endpoints` and the edge's weight.
pub record GraphEdge : Type 0 where
  pub source : ℕ
  pub target : ℕ
  pub weight : QueueEdge

pub record Graph : Type 0 where
  pub nodes : List ProcessNode
  pub edges : List GraphEdge

pub record ProcessNetwork : Type 0 where
  pub name : String
  pub graph : Graph
  pub instances : Dict String ℕ
  pub type_defs : Dict String Ty
  pub domains : List String
  pub domain_map : Dict String (Option String)
  pub constants : Dict String ℕ
  pub external_constants : List String
  pub external_fns : Dict String (Tys × Option Ty)
