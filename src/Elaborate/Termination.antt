-- ===== src/Elaborate/Termination.antt =====
-- The recursion of `elaborate_pipe_inner` of src/elaborate.rs into the pipes of a pipe.
use tourbillon.Base.{
  ℕ, zero, suc, ◌+◌, ◌<◌, String, Bool, true, Option, none, some, List, [], ◌∷◌, ◌++◌, ◌≡◌, ◌⊎◌,
  inl, inr, refl, arith, subst, All, string_eq, ==_refl, ◌==◌, Bool-cases,
}
use tourbillon.Base.Dict
use tourbillon.Base.Dict.{Dict}
use tourbillon.Ast.{Process}
use tourbillon.Ast.Items.{Instance, Pipe}
use tourbillon.Types.Env.{TypeEnv}
use tourbillon.Elaborate.{Elaboration}
use tourbillon.Elaborate.Pipes.{
  Elaborated, and_then, merge_result, create_instance, create_instances, after_instances,
  elaborate_pipe_inner, start,
}
use tourbillon.Diagnostics.{Diagnostic}

-- A run that had enough fuel.
abbrev pub Ends {ℓ} : {A : Type ℓ} → Option A → Type ℓ
Ends {A = A} o = (result : A) × (o ≡ some result)

some_inj : (c d : Pipe) → some c ≡ some d → c ≡ d
some_inj c d e = cc

All-lookup :
    (P : Pipe → Type 0) (name : String) (entries : Dict String Pipe) (c : Pipe)
    → All (λ entry. P entry.1) entries
    → Dict.lookup name entries ≡ some c
    → P c
unfolding Dict.lookup
All-lookup P name [] c all e = absurd (cc)
All-lookup P name ((key, d) ∷ entries) c (here, later) e = elim (Bool-cases (key == name)) [
  | inl same ↦ subst P (some_inj d c (rw same at e)) here
  | inr other ↦ All-lookup P name entries c later (rw other at e)
]

and_then-Ends :
    (m : Option (Elaboration × List Diagnostic))
    (next : Elaboration → Option (Elaboration × List Diagnostic))
    → Ends m
    → ((s : Elaboration) → Ends (next s))
    → Ends (and_then m next)
and_then-Ends none next (r, e) ends = absurd (cc)
and_then-Ends (some (s, ds)) next _ ends =
    let ((t, es), e) = ends s in ((t, ds ++ es), rw (and_then, e) refl)

merge_result-Ends :
    (inst : Instance) (idx : ℕ) (o : Elaborated) (s : Elaboration)
    → Ends o
    → Ends (merge_result inst idx o s)
unfolding merge_result
merge_result-Ends inst idx none s (r, e) = absurd (cc)
merge_result-Ends inst idx (some (none, ds)) s h = (_, refl)
merge_result-Ends inst idx (some (some net, ds)) s h = (_, refl)

module _ (env : TypeEnv) (processes : Dict String Process) (pipes : Dict String Pipe) where
  -- What an instance asks of the recursion: nothing of a process and of the pipe itself.
  abbrev Served : (child : Pipe → Elaborated) (pipe_name : String) → Instance → Option Pipe → Type 0
  Served child pipe_name inst none = Unit
  Served child pipe_name inst (some c) = (inst.process_name.node ≡ pipe_name) ⊎ Ends (child c)

  create_instance-Ends :
      (child : Pipe → Elaborated) (pipe_name : String) (inst : Instance) (idx : ℕ) (o : Option Pipe)
      (s : Elaboration)
      → Served child pipe_name inst o
      → Ends (create_instance env processes pipes child pipe_name inst idx o s)
  unfolding create_instance
  create_instance-Ends child pipe_name inst idx none s h = (_, refl)
  create_instance-Ends child pipe_name inst idx (some c) s (inl e) =
      rw (e, ==_refl pipe_name) (_, refl)
  create_instance-Ends child pipe_name inst idx (some c) s (inr h) =
      elim (Bool-cases (inst.process_name.node == pipe_name)) [
        | inl e ↦ rw e (_, refl)
        | inr e ↦ rw e (merge_result-Ends inst idx (child c) s h)
      ]

  create_instances-Ends :
      (child : Pipe → Elaborated) (pipe_name : String) (instances : List Instance) (idx : ℕ)
      (s : Elaboration)
      → All
          (λ inst. Served child pipe_name inst (Dict.lookup inst.process_name.node pipes))
          instances
      → Ends (create_instances env processes pipes child pipe_name instances idx s)
  unfolding create_instances
  create_instances-Ends child pipe_name [] idx s h = (_, refl)
  create_instances-Ends child pipe_name (inst ∷ instances) idx s (h, later) =
      and_then-Ends
        (create_instance env processes pipes child pipe_name inst idx
          (Dict.lookup inst.process_name.node pipes) s)
        (create_instances env processes pipes child pipe_name instances (idx + 1))
        (create_instance-Ends child pipe_name inst idx (Dict.lookup inst.process_name.node pipes) s
          h)
        (λ t. create_instances-Ends child pipe_name instances (idx + 1) t later)

  module _ (rank : Pipe → ℕ) where
    -- A pipe that an instance names has a lower rank, unless it is the pipe itself.
    abbrev pub Lower : Pipe → Instance → Option Pipe → Type 0
    Lower p inst none = Unit
    Lower p inst (some c) = (inst.process_name.node ≡ p.name.node) ⊎ (rank c < rank p)

    abbrev pub Descends : Pipe → Type 0
    Descends p = All (λ inst. Lower p inst (Dict.lookup inst.process_name.node pipes)) p.instances

    -- Each pipe of the file descends.
    abbrev pub AllDescend : Type 0
    AllDescend = All (λ entry. Descends entry.1) pipes

    -- What is known of a recursion with the fuel.
    abbrev Enough : ℕ → Type 0
    Enough fuel =
        (c : Pipe)
        → Descends c
        → rank c < fuel
        → Ends (elaborate_pipe_inner env processes pipes fuel true c)

    serve :
        (fuel : ℕ) (p : Pipe) (inst : Instance) (o : Option Pipe)
        → Enough fuel
        → AllDescend
        → Dict.lookup inst.process_name.node pipes ≡ o
        → Lower p inst o
        → rank p < suc fuel
        → Served (elaborate_pipe_inner env processes pipes fuel true) p.name.node inst o
    serve fuel p inst none enough all e h less = tt
    serve fuel p inst (some c) enough all e (inl same) less = inl same
    serve fuel p inst (some c) enough all e (inr lower) less =
        inr (enough c (All-lookup Descends inst.process_name.node pipes c all e) (omega arith))

    serve_all :
        (fuel : ℕ) (p : Pipe) (instances : List Instance)
        → Enough fuel
        → AllDescend
        → All (λ inst. Lower p inst (Dict.lookup inst.process_name.node pipes)) instances
        → rank p < suc fuel
        → All
            (λ inst.
              Served
                (elaborate_pipe_inner env processes pipes fuel true)
                p.name.node
                inst
                (Dict.lookup inst.process_name.node pipes))
            instances
    serve_all fuel p [] enough all h less = tt
    serve_all fuel p (inst ∷ instances) enough all (h, later) less = (
      serve fuel p inst (Dict.lookup inst.process_name.node pipes) enough all refl h less,
      serve_all fuel p instances enough all later less,
    )

    pipe-Ends :
        (fuel : ℕ) (allow_dangling : Bool) (p : Pipe)
        → AllDescend
        → Descends p
        → rank p < fuel
        → Ends (elaborate_pipe_inner env processes pipes fuel allow_dangling p)
    unfolding elaborate_pipe_inner after_instances
    pipe-Ends zero allow_dangling p all descends less = absurd (omega arith)
    pipe-Ends (suc fuel) allow_dangling p all descends less =
        let (created, e) =
          create_instances-Ends (elaborate_pipe_inner env processes pipes fuel true) p.name.node
            p.instances 0 start
            (serve_all fuel p p.instances (λ c d l. pipe-Ends fuel true c all d l) all descends
              less) in
        rw e (_, refl)

-- The recursion into child pipes ends: when a rank falls from each pipe to the pipes that it
-- instantiates, itself excepted, fuel above the rank of a pipe is enough to elaborate it.
pub elaborate_pipe_inner-Ends :
    (env : TypeEnv) (processes : Dict String Process) (pipes : Dict String Pipe) (rank : Pipe → ℕ)
    (fuel : ℕ) (allow_dangling : Bool) (p : Pipe)
    → AllDescend env processes pipes rank
    → Descends env processes pipes rank p
    → rank p < fuel
    → Ends (elaborate_pipe_inner env processes pipes fuel allow_dangling p)
elaborate_pipe_inner-Ends env processes pipes rank fuel allow_dangling p all descends less =
    pipe-Ends env processes pipes rank fuel allow_dangling p all descends less
