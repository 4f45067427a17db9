-- ===== src/Pipeline/Sound.antt =====
-- What it means that `run_pipeline` and `check` of src/lib.rs pass a file.
use tourbillon.Base.{
  ℕ, Option, none, some, List, [], ◌∷◌, map, string_eq, ◌≡◌, refl, sym, ap, ◌∙◌, subst, All,
}
use tourbillon.Ast.Items.{SourceFile}
use tourbillon.Types.Env.{TypeEnv}
use tourbillon.Types.Check.Processes as Processes
use tourbillon.Ir.{Graph, ProcessNetwork}
use tourbillon.Desugar.Items.{desugar}
use tourbillon.Elaborate.Pipes.{elaborate}
use tourbillon.Pipeline.{
  Outcome, unless_errors, unless_errors?, map_outcome, ScheduledNetwork, schedule_network,
  deadlocks, run_networks, check_networks, run_pipeline, check,
}
use tourbillon.Diagnostics.{Diagnostic}

abbrev pub forget : List ScheduledNetwork → Unit {0}
forget _ = tt

-- The stages after a stop.
module _ {ℓ κ ι} {A : Type ℓ} {B : Type κ} {C : Type ι} (h : B → C) where
  unless_errors-map :
      (r : A × List Diagnostic) (f : A → Outcome B) (g : A → Outcome C)
      → ((a : A) → map_outcome h (f a) ≡ g a)
      → map_outcome h (unless_errors r f) ≡ unless_errors r g
  unless_errors-map (a, []) f g same = same a
  unless_errors-map (a, d ∷ ds) f g same = refl

  unless_errors?-map :
      (r : Option (A × List Diagnostic)) (f : A → Outcome B) (g : A → Outcome C)
      → ((a : A) → map_outcome h (f a) ≡ g a)
      → map_outcome h (unless_errors? r f) ≡ unless_errors? r g
  unless_errors?-map none f g same = refl
  unless_errors?-map (some (a, [])) f g same = same a
  unless_errors?-map (some (a, d ∷ ds)) f g same = refl

module _ {ℓ κ} {A : Type ℓ} {B : Type κ} where
  -- A stop that lets pass has no diagnostic before it.
  unless_errors-passed :
      (r : A × List Diagnostic) (f : A → Outcome B) (b : B)
      → unless_errors r f ≡ Outcome.passed b
      → (a : A) × (r ≡ (a, [])) × (f a ≡ Outcome.passed b)
  unless_errors-passed (a, []) f b e = (a, refl, e)
  unless_errors-passed (a, d ∷ ds) f b e = absurd (cc)

  unless_errors?-passed :
      (r : Option (A × List Diagnostic)) (f : A → Outcome B) (b : B)
      → unless_errors? r f ≡ Outcome.passed b
      → (a : A) × (r ≡ some (a, [])) × (f a ≡ Outcome.passed b)
  unless_errors?-passed none f b e = absurd (cc)
  unless_errors?-passed (some (a, [])) f b e = (a, refl, e)
  unless_errors?-passed (some (a, d ∷ ds)) f b e = absurd (cc)

  map_outcome-passed :
      (f : A → B) (o : Outcome A) (b : B)
      → map_outcome f o ≡ Outcome.passed b
      → (a : A) × (o ≡ Outcome.passed a) × (f a ≡ b)
  map_outcome-passed f (Outcome.passed a) b e = (a, refl, cc)
  map_outcome-passed f (Outcome.failed ds) b e = absurd (cc)
  map_outcome-passed f Outcome.out_of_fuel b e = absurd (cc)

module _ (tarjan_scc : Graph → List (List ℕ)) (fuel : ℕ) where
  check_networks-run_networks :
      (networks : List ProcessNetwork)
      → map_outcome forget (run_networks tarjan_scc fuel networks)
        ≡ check_networks tarjan_scc fuel networks
  unfolding run_networks check_networks
  check_networks-run_networks [] = refl
  check_networks-run_networks (net ∷ networks) =
      unless_errors-map forget
        (schedule_network net, deadlocks tarjan_scc fuel (schedule_network net)) _ _
        (λ first.
          forget_cons first (run_networks tarjan_scc fuel networks)
          ∙ check_networks-run_networks networks)
    where
      forget_cons :
          (first : ScheduledNetwork) (o : Outcome (List ScheduledNetwork))
          → map_outcome forget (map_outcome (λ scheds. first ∷ scheds) o) ≡ map_outcome forget o
      forget_cons first (Outcome.passed scheds) = refl
      forget_cons first (Outcome.failed ds) = refl
      forget_cons first Outcome.out_of_fuel = refl

  run_networks-passed :
      (networks : List ProcessNetwork) (scheds : List ScheduledNetwork)
      → run_networks tarjan_scc fuel networks ≡ Outcome.passed scheds
      → (scheds ≡ map schedule_network networks)
        × All (λ sched. deadlocks tarjan_scc fuel sched ≡ []) scheds
  unfolding run_networks
  run_networks-passed [] [] e = (refl, tt)
  run_networks-passed [] (s ∷ scheds) e = absurd (cc)
  run_networks-passed (net ∷ networks) scheds e =
      let sched = schedule_network net in
      let (first, clean, later) =
        unless_errors-passed (sched, deadlocks tarjan_scc fuel sched) _ scheds e in
      let (rest, passes, same) =
        map_outcome-passed _ (run_networks tarjan_scc fuel networks) scheds later in
      let (names, quiet) = run_networks-passed networks rest passes in
      let here : sched ≡ first = ap (λ r. r.0) clean in
      let first_quiet = subst (λ x. deadlocks tarjan_scc fuel x ≡ []) here (ap (λ r. r.1) clean) in
      subst
        (λ all.
          (all ≡ map schedule_network (net ∷ networks))
          × All (λ x. deadlocks tarjan_scc fuel x ≡ []) all)
        same (cc (names, here), (first_quiet, quiet))

-- `check` is `run_pipeline` without its result: it passes the same files, and it fails on the others
-- with the same diagnostics.
pub check-run_pipeline :
    (tarjan_scc : Graph → List (List ℕ)) (fuel : ℕ) (cst : SourceFile)
    → check tarjan_scc fuel cst ≡ map_outcome forget (run_pipeline tarjan_scc fuel cst)
unfolding check run_pipeline
check-run_pipeline tarjan_scc fuel cst = sym (
    unless_errors-map forget (desugar cst) _ _ (λ ast.
      unless_errors-map forget (Processes.check ast) _ _ (λ env.
        unless_errors?-map forget (elaborate fuel ast env) _ _
          (check_networks-run_networks tarjan_scc fuel))))

-- What the stages of a file that passes leave: no diagnostic of any stage, and the schedules of its
-- networks, each without a deadlock that the analysis reports.
abbrev pub Stages :
    (Graph → List (List ℕ))
    → ℕ
    → SourceFile
    → List ScheduledNetwork
    → SourceFile
    → TypeEnv
    → List ProcessNetwork
    → Type 0
Stages tarjan_scc fuel cst scheds ast env networks =
    (desugar cst ≡ (ast, []))
    × ((Processes.check ast ≡ (env, []))
        × ((elaborate fuel ast env ≡ some (networks, []))
            × ((scheds ≡ map schedule_network networks)
                × All (λ sched. deadlocks tarjan_scc fuel sched ≡ []) scheds)))

-- A file that `run_pipeline` passes is desugared, checked and elaborated without a diagnostic; the
-- results are the schedules of its networks in their order, and the deadlock analysis reports
-- nothing for any of them.
pub run_pipeline-Stages :
    (tarjan_scc : Graph → List (List ℕ)) (fuel : ℕ) (cst : SourceFile)
    (scheds : List ScheduledNetwork)
    → run_pipeline tarjan_scc fuel cst ≡ Outcome.passed scheds
    → (ast : SourceFile) × (env : TypeEnv) × (networks : List ProcessNetwork) × Stages tarjan_scc
        fuel cst scheds ast env networks
unfolding run_pipeline
run_pipeline-Stages tarjan_scc fuel cst scheds h =
    let (ast, desugared, checked) = unless_errors-passed (desugar cst) _ scheds h in
    let (env, typed, elaborated) = unless_errors-passed (Processes.check ast) _ scheds checked in
    let (networks, built, ran) =
      unless_errors?-passed (elaborate fuel ast env) _ scheds elaborated in
    (
      ast,
      env,
      networks,
      (desugared, (typed, (built, run_networks-passed tarjan_scc fuel networks scheds ran))),
    )
