-- ===== src/Schedule/Examples.antt =====
-- A process with three rules, scheduled: tests and instances of the theorems.
use tourbillon.Base.{
  ℕ, String, false, ◌≡◌, refl, [], ◌∷◌, some, map, All, true, ◌<◌, ◌↔◌, List, nat_eq, string_eq,
}
use tourbillon.Base.Dict
use tourbillon.Base.Dict.{lookup}
use tourbillon.Base.Sets.{contains, insert}
use tourbillon.Ast.{Span, Spanned, Expr, Stmt, Stmts, Rule, Pattern, PortKind}
use tourbillon.Ast.Accesses.{stmts_accesses}
use tourbillon.Types.Ty.{Ty}
use tourbillon.Ir.{ResolvedPort, ProcessNode}
use tourbillon.Schedule.{
  RuleResources, exclusive, concurrent, port_map, collect_rule_resources, collect_stmts_resources,
  collect_expr_resources, any_conflict, conflicting, note_take, note_put, build_conflict_pairs,
  has_pair, intersects, group_rules, schedule_node,
}
use tourbillon.Schedule.Resources.{
  some_access, takes_from, try_takes_from, puts_to, peeks_at, mutates, collect_rule_resources_lem,
}
use tourbillon.Schedule.Conflicts.{MutateCommon, build_conflict_pairs_iff}
use tourbillon.Schedule.Groups.{IsGrouping}
use tourbillon.Schedule.Slots.{
  slot_rules, IsShaped, group_rules_lem, EachOnce, IsExclusive, IsTight, schedule_node_lem,
}

abbrev sp : Span
sp = record { from = 0; to = 1 }

abbrev at : String → Spanned String
at s = record { node = s; span = sp }

abbrev port : String → ℕ → ResolvedPort
port s e = record { name = s; kind = PortKind.consumes; ty = Ty.bits 32; bound_to = some e }

-- let x = FROM.take(); TO.put(x)
abbrev move : String → String → Rule
move from to = record {
  name = at from;
  body =
      Stmts.stmt (Stmt.let_ (Pattern.bind "x" sp) (Expr.take from sp) sp)
        (Stmts.stmt (Stmt.put (at to) (Expr.variable "x" sp) sp) Stmts.done);
}

-- Rules 0 and 1 put to the same edge, rule 2 has edges of its own.
abbrev router : ProcessNode
router = record {
  instance_name = "Router";
  process_name = "Router";
  rules = move "a" "out" ∷ move "b" "out" ∷ move "c" "dbg" ∷ [];
  ports = port "a" 0 ∷ port "b" 1 ∷ port "c" 2 ∷ port "out" 3 ∷ port "dbg" 4 ∷ [];
  span = sp;
  is_memory_stub = false;
}

router_order : (schedule_node router).rule_order ≡ concurrent (0 ∷ 2 ∷ []) ∷ exclusive 1 ∷ []
unfolding schedule_node lookup contains insert Dict.insert has_pair intersects note_take note_put
    collect_stmts_resources collect_expr_resources any_conflict conflicting
router_order = refl

collect_rule_resources_lem_example :
    (contains (collect_rule_resources (port_map router) (move "a" "out")).takes "a"
      ≡ some_access (takes_from "a") (stmts_accesses (move "a" "out").body))
    × (contains (collect_rule_resources (port_map router) (move "a" "out")).try_takes "a"
        ≡ some_access (try_takes_from "a") (stmts_accesses (move "a" "out").body))
    × (contains (collect_rule_resources (port_map router) (move "a" "out")).puts "a"
        ≡ some_access (puts_to "a") (stmts_accesses (move "a" "out").body))
    × (contains (collect_rule_resources (port_map router) (move "a" "out")).peeks "a"
        ≡ some_access (peeks_at "a") (stmts_accesses (move "a" "out").body))
    × (contains (collect_rule_resources (port_map router) (move "a" "out")).mutable_edges 3
        ≡ some_access (mutates (port_map router) 3) (stmts_accesses (move "a" "out").body))
collect_rule_resources_lem_example =
    collect_rule_resources_lem (port_map router) (move "a" "out") "a" 3

abbrev resources : List RuleResources
resources = map (collect_rule_resources (port_map router)) router.rules

build_conflict_pairs_iff_example :
    (has_pair (build_conflict_pairs resources) 0 1 ≡ true) ↔ ((0 < 1) × MutateCommon resources 0 1)
build_conflict_pairs_iff_example = build_conflict_pairs_iff resources 0 1

group_rules_lem_example :
    IsGrouping ((0, 1) ∷ []) 3 (map slot_rules (group_rules 3 ((0, 1) ∷ [])))
    × All IsShaped (group_rules 3 ((0, 1) ∷ []))
group_rules_lem_example = group_rules_lem 3 ((0, 1) ∷ [])

schedule_node_lem_example :
    EachOnce router (schedule_node router).rule_order
    × All (IsExclusive router) (schedule_node router).rule_order
    × IsTight router (schedule_node router).rule_order
schedule_node_lem_example = schedule_node_lem router
