-- ===== src/Pipeline.antt =====
-- The stages one after another, `run_pipeline` and `check` of src/lib.rs, from the parsed file on.
-- Both functions of the source spell all stages out, and so they do here. What is printed by
-- `report_errors` is left out. `schedule` never pushes a diagnostic, so there is no stop
-- after it. The strongly connected components are a parameter, as in Deadlock, and so is the fuel of
-- Elaborate.
pub mod Sound
mod Examples
use tourbillon.Base.{ℕ, Option, none, some, List, [], ◌∷◌, map}
use tourbillon.Ast.Items.{SourceFile}
use tourbillon.Types.Env.{TypeEnv}
use tourbillon.Types.Check.Processes as Processes
use tourbillon.Ir.{Graph, ProcessNetwork}
use tourbillon.Desugar.Items.{desugar}
use tourbillon.Elaborate.Pipes.{elaborate}
use tourbillon.Schedule.{ProcessSchedule, schedule}
use tourbillon.Deadlock.{analyze}
use tourbillon.Diagnostics.{Diagnostic}

-- `Result<A, Errors>`, and a run that needs more fuel.
pub data Outcome {ℓ} (A : Type ℓ) : Type ℓ where
  passed : A → Outcome A
  failed : (diagnostics : List Diagnostic) → Outcome A
  out_of_fuel : Outcome A

module _ {ℓ κ} {A : Type ℓ} {B : Type κ} where
  -- `if !errors.is_empty() { return Err(Errors { diagnostics: errors }); }`
  abbrev pub unless_errors : A × List Diagnostic → (A → Outcome B) → Outcome B
  unless_errors (a, []) next = next a
  unless_errors (a, d ∷ ds) next = Outcome.failed (d ∷ ds)

  -- A run on fuel before the stop.
  abbrev pub unless_errors? : Option (A × List Diagnostic) → (A → Outcome B) → Outcome B
  unless_errors? none next = Outcome.out_of_fuel
  unless_errors? (some (a, [])) next = next a
  unless_errors? (some (a, d ∷ ds)) next = Outcome.failed (d ∷ ds)

  abbrev pub map_outcome : (A → B) → Outcome A → Outcome B
  map_outcome f (Outcome.passed a) = Outcome.passed (f a)
  map_outcome f (Outcome.failed ds) = Outcome.failed ds
  map_outcome f Outcome.out_of_fuel = Outcome.out_of_fuel

pub record ScheduledNetwork : Type 0 where
  pub network : ProcessNetwork
  pub schedules : List ProcessSchedule

unfoldable pub schedule_network : ProcessNetwork → ScheduledNetwork
schedule_network net = record { network = net; schedules = schedule net.graph }

module _ (tarjan_scc : Graph → List (List ℕ)) (fuel : ℕ) where
  -- The deadlock analysis of a scheduled network.
  unfoldable pub deadlocks : ScheduledNetwork → List Diagnostic
  deadlocks sched = analyze tarjan_scc sched.network.graph sched.schedules

  unfoldable pub run_networks : List ProcessNetwork → Outcome (List ScheduledNetwork)
  unfolding schedule_network deadlocks
  run_networks [] = Outcome.passed []
  run_networks (net ∷ networks) =
      let sched = schedule_network net in
      let rest = run_networks networks in
      unless_errors (sched, deadlocks sched) (λ first. map_outcome (λ scheds. first ∷ scheds) rest)

  unfoldable pub check_networks : List ProcessNetwork → Outcome (Unit {0})
  unfolding schedule_network deadlocks
  check_networks [] = Outcome.passed tt
  check_networks (net ∷ networks) =
      let sched = schedule_network net in
      let rest = check_networks networks in unless_errors (sched, deadlocks sched) (λ _. rest)

  unfoldable pub run_pipeline : SourceFile → Outcome (List ScheduledNetwork)
  unfolding run_networks
  run_pipeline cst = unless_errors (desugar cst) (λ ast.
      unless_errors (Processes.check ast)
        (λ env. unless_errors? (elaborate fuel ast env) (λ networks. run_networks networks)))

  unfoldable pub check : SourceFile → Outcome (Unit {0})
  unfolding check_networks
  check cst = unless_errors (desugar cst) (λ ast.
      unless_errors (Processes.check ast)
        (λ env. unless_errors? (elaborate fuel ast env) (λ networks. check_networks networks)))
