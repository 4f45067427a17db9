-- ===== src/Schedule.antt =====
-- Scheduling, src/schedule.rs: what each rule of a process accesses, which rules conflict, and the
-- grouping of the rules into priority tiers. A `BTreeSet` and a `HashSet` are lists without
-- repetition; nothing depends on their order.
pub mod Resources
pub mod Conflicts
pub mod Groups
pub mod Slots
mod Examples
use tourbillon.Base.{
  ℕ, zero, suc, ◌+◌, String, Bool, true, false, not, ◌&&◌, ◌||◌, ◌≡◌, List, [], ◌∷◌, ◌++◌, Option,
  none, some, map, ltb, length, get_elem?, Eq, ◌==◌, nat_eq, string_eq, if◌then◌else◌,
}
use tourbillon.Base.Dict.{Dict, lookup}
use tourbillon.Base.Dict
use tourbillon.Base.Sets.{contains, insert}
use tourbillon.Ast.{Expr, Exprs, FieldInits, Stmt, Stmts, Arms, Rule}
use tourbillon.Ir.{ResolvedPort, ProcessNode, Graph}

pub record RuleResources : Type 0 where
  pub takes : List String
  pub try_takes : List String
  pub puts : List String
  pub peeks : List String
  pub mutable_edges : List ℕ

abbrev pub no_resources : RuleResources
no_resources = record { takes = []; try_takes = []; puts = []; peeks = []; mutable_edges = [] }

pub data RuleSlot : Type 0 where
  exclusive : ℕ → RuleSlot
  concurrent : List ℕ → RuleSlot

pub record ProcessSchedule : Type 0 where
  pub rule_order : List RuleSlot
  pub rule_resources : List RuleResources

abbrev pub PortMap : Type 0
PortMap = Dict String ℕ

-- `if let Some(&edge) = port_map.get(queue) { mutable_edges.insert(edge) }`
abbrev pub add_edge : Option ℕ → List ℕ → List ℕ
add_edge none edges = edges
add_edge (some e) edges = insert e edges

module _ (port_map : PortMap) where
  unfoldable pub note_take : String → RuleResources → RuleResources
  note_take queue r = record r {
    takes = insert queue r.takes;
    mutable_edges = add_edge (lookup queue port_map) r.mutable_edges;
  }

  unfoldable pub note_try_take : String → RuleResources → RuleResources
  note_try_take queue r = record r {
    takes = insert queue r.takes;
    try_takes = insert queue r.try_takes;
    mutable_edges = add_edge (lookup queue port_map) r.mutable_edges;
  }

  unfoldable pub note_peek : String → RuleResources → RuleResources
  note_peek queue r = record r { peeks = insert queue r.peeks }

  unfoldable pub note_put : String → RuleResources → RuleResources
  note_put target r = record r {
    puts = insert target r.puts;
    mutable_edges = add_edge (lookup target port_map) r.mutable_edges;
  }

  unfoldable mutual
    pub collect_expr_resources : Expr → RuleResources → RuleResources
    collect_expr_resources (Expr.take queue _) r = note_take queue r
    collect_expr_resources (Expr.try_take queue _) r = note_try_take queue r
    collect_expr_resources (Expr.peek queue _) r = note_peek queue r
    collect_expr_resources (Expr.bin_op _ lhs rhs _) r =
        collect_expr_resources rhs (collect_expr_resources lhs r)
    collect_expr_resources (Expr.unary_op _ inner _) r = collect_expr_resources inner r
    collect_expr_resources (Expr.call _ args _) r = collect_exprs_resources args r
    collect_expr_resources (Expr.tuple items _) r = collect_exprs_resources items r
    collect_expr_resources (Expr.construct _ fields _) r = collect_fields_resources fields r
    collect_expr_resources (Expr.field_access inner _ _) r = collect_expr_resources inner r
    collect_expr_resources (Expr.index e i _) r =
        collect_expr_resources i (collect_expr_resources e r)
    collect_expr_resources (Expr.update e i v _) r =
        collect_expr_resources v (collect_expr_resources i (collect_expr_resources e r))
    collect_expr_resources (Expr.bit_slice inner _ _ _) r = collect_expr_resources inner r
    collect_expr_resources (Expr.lit _ _) r = r
    collect_expr_resources (Expr.variable _ _) r = r
    collect_expr_resources (Expr.method_call _ _ _ _) r = r

    pub collect_exprs_resources : Exprs → RuleResources → RuleResources
    collect_exprs_resources Exprs.none_left r = r
    collect_exprs_resources (Exprs.expr e es) r =
        collect_exprs_resources es (collect_expr_resources e r)

    pub collect_fields_resources : FieldInits → RuleResources → RuleResources
    collect_fields_resources FieldInits.no_fields r = r
    collect_fields_resources (FieldInits.field _ v fs) r =
        collect_fields_resources fs (collect_expr_resources v r)

  unfoldable mutual
    pub collect_stmt_resources : Stmt → RuleResources → RuleResources
    collect_stmt_resources (Stmt.let_ _ value _) r = collect_expr_resources value r
    collect_stmt_resources (Stmt.put target value _) r =
        collect_expr_resources value (note_put target.node r)
    collect_stmt_resources (Stmt.expr e _) r = collect_expr_resources e r
    collect_stmt_resources (Stmt.if_ cond then_body else_body _) r =
        collect_stmts_resources else_body
          (collect_stmts_resources then_body (collect_expr_resources cond r))
    collect_stmt_resources (Stmt.match_ scrutinee arms _) r =
        collect_arms_resources arms (collect_expr_resources scrutinee r)

    pub collect_stmts_resources : Stmts → RuleResources → RuleResources
    collect_stmts_resources Stmts.done r = r
    collect_stmts_resources (Stmts.stmt s ss) r =
        collect_stmts_resources ss (collect_stmt_resources s r)

    pub collect_arms_resources : Arms → RuleResources → RuleResources
    collect_arms_resources Arms.no_arms r = r
    collect_arms_resources (Arms.arm _ body rest) r =
        collect_arms_resources rest (collect_stmts_resources body r)

  unfoldable pub collect_rule_resources : Rule → RuleResources
  collect_rule_resources rule = collect_stmts_resources rule.body no_resources

-- The port name → edge index map of a node; of two ports of one name the later one counts.
unfoldable pub port_map_from : List ResolvedPort → PortMap → PortMap
port_map_from [] m = m
port_map_from (p ∷ ports) m =
    port_map_from ports (elim p.bound_to [ none ↦ m | some e ↦ Dict.insert p.name e m ])

unfoldable pub port_map : ProcessNode → PortMap
unfolding port_map_from
port_map node = port_map_from node.ports []

-- `intersection(..).next().is_some()`
unfoldable pub intersects : List ℕ → List ℕ → Bool
intersects [] ys = false
intersects (x ∷ xs) ys = contains ys x || intersects xs ys

-- The pairs (i, j) for the rules `rest` that stand at `j`, `j + 1`, … behind rule `i`.
unfoldable pub conflicts_of : ℕ → RuleResources → ℕ → List RuleResources → List (ℕ × ℕ)
conflicts_of i r j [] = []
conflicts_of i r j (s ∷ rest) =
    (if intersects r.mutable_edges s.mutable_edges then (i, j) ∷ [] else [])
    ++ conflicts_of i r (j + 1) rest

-- The outer loop, over the rules that stand at `i`, `i + 1`, …
unfoldable pub conflicts_from : ℕ → List RuleResources → List (ℕ × ℕ)
conflicts_from i [] = []
conflicts_from i (r ∷ rest) = conflicts_of i r (i + 1) rest ++ conflicts_from (i + 1) rest

unfoldable pub build_conflict_pairs : List RuleResources → List (ℕ × ℕ)
unfolding conflicts_from conflicts_of
build_conflict_pairs resources = conflicts_from 0 resources

-- `conflicts.contains(&(lo, hi))`
unfoldable pub has_pair : List (ℕ × ℕ) → ℕ → ℕ → Bool
has_pair [] lo hi = false
has_pair ((a, b) ∷ ps) lo hi = (a == lo && b == hi) || has_pair ps lo hi

-- The test of one rule against one member of a group, with the smaller index first.
unfoldable pub conflicting : List (ℕ × ℕ) → ℕ → ℕ → Bool
conflicting conflicts existing rule_idx =
    if ltb existing rule_idx
    then has_pair conflicts existing rule_idx
    else has_pair conflicts rule_idx existing

unfoldable pub any_conflict : List (ℕ × ℕ) → List ℕ → ℕ → Bool
any_conflict conflicts [] rule_idx = false
any_conflict conflicts (existing ∷ group) rule_idx =
    conflicting conflicts existing rule_idx || any_conflict conflicts group rule_idx

-- The first group without a conflict takes the rule; otherwise a new group is started.
unfoldable pub place : List (ℕ × ℕ) → ℕ → List (List ℕ) → List (List ℕ)
place conflicts rule_idx [] = (rule_idx ∷ []) ∷ []
place conflicts rule_idx (group ∷ groups) =
    if any_conflict conflicts group rule_idx
    then group ∷ place conflicts rule_idx groups
    else (group ++ rule_idx ∷ []) ∷ groups

-- The groups after the rules 0, …, n - 1.
unfoldable pub greedy_groups : List (ℕ × ℕ) → ℕ → List (List ℕ)
greedy_groups conflicts zero = []
greedy_groups conflicts (suc n) = place conflicts n (greedy_groups conflicts n)

unfoldable pub slot_of : List ℕ → RuleSlot
slot_of (i ∷ []) = exclusive i
slot_of g = concurrent g

unfoldable pub group_rules : ℕ → List (ℕ × ℕ) → List RuleSlot
unfolding greedy_groups place slot_of
group_rules num_rules conflicts = map slot_of (greedy_groups conflicts num_rules)

-- The body of the loop of `schedule` for one node.
unfoldable pub schedule_node : ProcessNode → ProcessSchedule
unfolding port_map collect_rule_resources build_conflict_pairs group_rules
schedule_node node =
    let resources = map (collect_rule_resources (port_map node)) node.rules in
    record {
      rule_order = group_rules (length resources) (build_conflict_pairs resources);
      rule_resources = resources;
    }

-- `schedule`: the schedule of node `i` stands at position `i`. No diagnostic is ever pushed.
unfoldable pub schedule : Graph → List ProcessSchedule
unfolding schedule_node
schedule graph = map schedule_node graph.nodes
