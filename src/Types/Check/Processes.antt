-- ===== src/Types/Check/Processes.antt =====
-- The checker's entry point, `check`, `check_process` and `check_pipe` of src/types/mod.rs.
use tourbillon.Base.{String, List, [], ◌∷◌, ◌++◌}
use tourbillon.Ast.{PortKind, Port, Rule, Process}
use tourbillon.Ast.Items.{QueueDecl, AsyncQueueDecl, Pipe, Item, SourceFile}
use tourbillon.Types.Env.{
  TypeEnv, new_env, collect_type_defs, collect_constants, collect_external_fns, define, push_scope,
  resolve_type_expr,
}
use tourbillon.Types.Check.Statements.{check_stmts}
use tourbillon.Types.Linearity.{check_rule_linearity}
use tourbillon.Diagnostics.{Diagnostic, Pass, skip}

-- The loop over the ports: `env` resolves their types, the state is the environment of the rules.
unfoldable pub define_ports : TypeEnv → List Port → Pass TypeEnv
define_ports env [] rule_env = skip rule_env
define_ports env (p ∷ ports) rule_env =
    let (ty, ds) = resolve_type_expr env p.ty in
    let (after, es) = define_ports env ports (define p.name.node ty rule_env) in (after, ds ++ es)

abbrev pub add_state : PortKind → String → List String → List String
add_state PortKind.state name names = name ∷ names
add_state _ name names = names

unfoldable pub state_ports : List Port → List String
state_ports [] = []
state_ports (p ∷ ports) = add_state p.kind p.name.node (state_ports ports)

-- The body of the loop over the rules. Each rule has its own copy of the environment.
unfoldable pub check_rule : TypeEnv → List String → Rule → List Diagnostic
check_rule rule_env states rule =
    (check_stmts rule.body (push_scope rule_env)).1 ++ check_rule_linearity rule states

unfoldable pub check_rules : TypeEnv → List String → List Rule → List Diagnostic
check_rules rule_env states [] = []
check_rules rule_env states (rule ∷ rules) =
    check_rule rule_env states rule ++ check_rules rule_env states rules

unfoldable pub check_process : TypeEnv → Process → List Diagnostic
check_process env process =
    let (rule_env, ds) = define_ports env process.ports env in
    ds ++ check_rules rule_env (state_ports process.ports) process.rules

unfoldable pub check_queue_decls : TypeEnv → List QueueDecl → List Diagnostic
check_queue_decls env [] = []
check_queue_decls env (decl ∷ decls) =
    (resolve_type_expr env decl.ty).1 ++ check_queue_decls env decls

unfoldable pub check_async_queue_decls : TypeEnv → List AsyncQueueDecl → List Diagnostic
check_async_queue_decls env [] = []
check_async_queue_decls env (decl ∷ decls) =
    (resolve_type_expr env decl.ty).1 ++ check_async_queue_decls env decls

unfoldable pub check_pipe : TypeEnv → Pipe → List Diagnostic
check_pipe env pipe =
    check_queue_decls env pipe.queue_decls ++ check_async_queue_decls env pipe.async_queue_decls

unfoldable pub check_item : TypeEnv → Item → List Diagnostic
check_item env (Item.process process _) = check_process env process
check_item env (Item.pipe pipe _) = check_pipe env pipe
check_item env _ = []

unfoldable pub check_items : TypeEnv → List Item → List Diagnostic
check_items env [] = []
check_items env (item ∷ items) = check_item env item ++ check_items env items

unfoldable pub check : SourceFile → TypeEnv × List Diagnostic
check source =
    let (with_types, ds) = collect_type_defs source.items new_env in
    let (env, es) = collect_external_fns source.items (collect_constants source.items with_types) in
    (env, ds ++ (es ++ check_items env source.items))
