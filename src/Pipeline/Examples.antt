-- ===== src/Pipeline/Examples.antt =====
-- A counter, from the parsed file to its schedule: instances of the theorems.
use tourbillon.Base.{ℕ, String, none, some, List, [], ◌∷◌, ◌≡◌, refl, string_eq}
use tourbillon.Base.Sets.{contains}
use tourbillon.Ast.{
  Span, Spanned, Literal, BinOp, Expr, Exprs, Pattern, Stmt, Stmts, TypeExpr, TypeExprs, PortKind,
  Port, Rule, Process,
}
use tourbillon.Ast.Items.{Item, SourceFile}
use tourbillon.Types.Env.{TypeEnv}
use tourbillon.Types.Check.Processes as Processes
use tourbillon.Types.Check.Processes.{state_ports}
use tourbillon.Ir.{Graph, ProcessNetwork}
use tourbillon.Desugar.Items.{desugar}
use tourbillon.Pipeline.{Outcome, map_outcome, check, run_pipeline, run_networks, ScheduledNetwork}
use tourbillon.Pipeline.Sound.{Stages, forget, check-run_pipeline, run_pipeline-Stages}

abbrev sp : Span
sp = record { from = 1; to = 8 }

abbrev at : String → Spanned String
at s = record { node = s; span = sp }

abbrev call : String → String → Exprs → Expr
call receiver method args = Expr.method_call (Expr.variable receiver sp) (at method) args sp

-- let c = count.take(); count.put(c + 1)
abbrev body : Stmts
body = Stmts.stmt (Stmt.let_ (Pattern.bind "c" sp) (call "count" "take" Exprs.none_left) sp) (
    Stmts.stmt
      (Stmt.expr
        (call "count" "put" (
          Exprs.expr (Expr.bin_op BinOp.add (Expr.variable "c" sp) (Expr.lit (Literal.int 1) sp) sp)
            Exprs.none_left))
        sp)
      Stmts.done)

abbrev count_port : Port
count_port = record {
  kind = PortKind.state;
  name = at "count";
  ty =
      TypeExpr.cell (TypeExpr.named "Bits" TypeExprs.no_types sp)
        (some (Expr.lit (Literal.int 0) sp)) sp;
  array_size = none;
}

abbrev counter : Process
counter = record {
  name = at "Counter";
  ports = count_port ∷ [];
  rules = record { name = at "tick"; body = body } ∷ [];
}

abbrev program : SourceFile
program = record {
  items =
      Item.process counter sp
      ∷ Item.pipe
          (record {
            name = at "Top";
            queue_decls = [];
            memory_decls = [];
            async_queue_decls = [];
            domain_decls = [];
            instances = record { process_name = at "Counter"; domain = none; bindings = [] } ∷ [];
          })
          sp
      ∷ [];
}

-- What `tarjan_scc` gives for a graph of one node.
abbrev one_component : Graph → List (List ℕ)
one_component g = (0 ∷ []) ∷ []

abbrev schedules_of : Outcome (List ScheduledNetwork) → List ScheduledNetwork
schedules_of (Outcome.passed scheds) = scheds
schedules_of _ = []

abbrev schedules : List ScheduledNetwork
schedules = schedules_of (run_pipeline one_component 2 program)

-- What a run of the pipeline unfolds.
run : Unit {0}
unfolding tourbillon.Desugar.method_of tourbillon.Desugar.call_by
    tourbillon.Desugar.Ports.expand_pipe_array_bindings tourbillon.Desugar.Ports.process_array_ports
    tourbillon.Desugar.Items.desugar tourbillon.Desugar.Bodies.array_call
    tourbillon.Desugar.Bodies.desugar_let tourbillon.Desugar.Bodies.desugar_expr_stmt
    tourbillon.Types.Env.resolve_bits tourbillon.Types.Env.collect_type_defs
    tourbillon.Types.Env.collect_constants tourbillon.Types.Env.collect_external_fns
    tourbillon.Types.Env.push_scope tourbillon.Types.Env.define tourbillon.Types.Env.lookup
    tourbillon.Types.Env.resolve_type_expr tourbillon.Types.Linearity.take_from
    tourbillon.Types.Linearity.put_to tourbillon.Types.Linearity.check_end
    tourbillon.Types.Linearity.check_rule_linearity tourbillon.Types.Linearity.check_expr_linearity
    tourbillon.Types.Linearity.check_stmt_linearity tourbillon.Types.Check.Expressions.mismatched
    tourbillon.Types.Check.Expressions.elem_of tourbillon.Types.Check.Expressions.variable_type
    tourbillon.Types.Check.Expressions.operator_type tourbillon.Types.Check.Processes.define_ports
    tourbillon.Types.Check.Processes.state_ports tourbillon.Types.Check.Processes.check_rule
    tourbillon.Types.Check.Processes.check_rules tourbillon.Types.Check.Processes.check_process
    tourbillon.Types.Check.Processes.check_queue_decls
    tourbillon.Types.Check.Processes.check_async_queue_decls
    tourbillon.Types.Check.Processes.check_pipe tourbillon.Types.Check.Processes.check_item
    tourbillon.Types.Check.Processes.check_items tourbillon.Types.Check.Processes.check
    tourbillon.Types.Check.Statements.check_put tourbillon.Types.Check.Statements.examine
    tourbillon.Types.Check.Statements.bind_pattern tourbillon.Elaborate.Edges.queue_names
    tourbillon.Elaborate.Edges.async_names tourbillon.Elaborate.Pipes.elaborate
    tourbillon.Schedule.note_take tourbillon.Schedule.note_put tourbillon.Schedule.schedule
    tourbillon.Schedule.collect_expr_resources tourbillon.Schedule.collect_stmt_resources
    tourbillon.Deadlock.cycle_edges tourbillon.Deadlock.process_names
    tourbillon.Deadlock.total_tokens tourbillon.Deadlock.total_depth tourbillon.Deadlock.analyze
    tourbillon.Pipeline.run_pipeline tourbillon.Base.Dict.insert tourbillon.Base.Dict.has_key
    tourbillon.Base.Sets.contains tourbillon.Base.Sets.insert tourbillon.Base.Sets.remove
    tourbillon.Diagnostics.◌>>=◌ tourbillon.Desugar.Bodies.desugar_stmts
    tourbillon.Desugar.desugar_expr tourbillon.Types.Check.Statements.check_stmts
    tourbillon.Types.Check.Expressions.check_expr tourbillon.Types.Ty.same_ty
run = tt

passes : run_pipeline one_component 2 program ≡ Outcome.passed schedules
unfolding run
passes = refl

check-run_pipeline_example :
    check one_component 2 program ≡ map_outcome forget (run_pipeline one_component 2 program)
check-run_pipeline_example = check-run_pipeline one_component 2 program

run_pipeline-Stages_example :
    (ast : SourceFile) × (env : TypeEnv) × (networks : List ProcessNetwork) × Stages one_component 2
      program schedules ast env networks
run_pipeline-Stages_example = run_pipeline-Stages one_component 2 program schedules passes

-- The process after desugaring.
abbrev desugared_body : Stmts
desugared_body = Stmts.stmt (Stmt.let_ (Pattern.bind "c" sp) (Expr.take "count" sp) sp) (
    Stmts.stmt
      (Stmt.put (at "count")
        (Expr.bin_op BinOp.add (Expr.variable "c" sp) (Expr.lit (Literal.int 1) sp) sp) sp)
      Stmts.done)

abbrev tick : Rule
tick = record { name = at "tick"; body = desugared_body }

abbrev desugared : Process
desugared = record counter { rules = tick ∷ [] }
