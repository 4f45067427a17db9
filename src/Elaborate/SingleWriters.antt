-- ===== src/Elaborate/SingleWriters.antt =====
-- The wiring of all instances, phase 3b of `elaborate_pipe_inner` of src/elaborate.rs: one writer and
-- one reader.
use tourbillon.Base.{
  ℕ, ◌+◌, ◌≤◌, String, Bool, false, Option, none, some, List, [], ◌∷◌, ◌≡◌, refl, arith, string_eq,
  Option-cases, inl, inr, subst,
}
use tourbillon.Base.Dict
use tourbillon.Base.Dict.{Dict}
use tourbillon.Ast.{Process}
use tourbillon.Ast.Items.{Instance}
use tourbillon.Types.Env.{TypeEnv}
use tourbillon.Elaborate.{Elaboration, find_instance_name}
use tourbillon.Elaborate.Queues.{at_instance, each_instance, with_process}
use tourbillon.Elaborate.Wiring.{wire_bindings, wire_instances}
use tourbillon.Elaborate.Writers.{filled_at, Grows, ▸-Grows, bindings_ends, filled_at-le}
use tourbillon.Elaborate.Bindings.{wire_bindings-Grows}
use tourbillon.Diagnostics.{Pass}

module _ (writing : Bool) (q : String) (env : TypeEnv) (processes : Dict String Process) where
  abbrev process_ends : Instance → Option Process → ℕ
  process_ends inst none = 0
  process_ends inst (some proc_def) = bindings_ends writing q proc_def inst.bindings

  abbrev node_ends : Instance → Option ℕ → ℕ
  node_ends inst none = 0
  node_ends inst (some _) = process_ends inst (Dict.lookup inst.process_name.node processes)

  abbrev found_ends : Dict String ℕ → Instance → Option String → ℕ
  found_ends names inst none = 0
  found_ends names inst (some name) = node_ends inst (Dict.lookup name names)

  -- How many ends of the queue the bindings of the instances make: writers are ports that produce,
  -- readers are ports that consume. Instances that are no processes of the pipe count nothing.
  abbrev pub total_ends : (names : Dict String ℕ) → List Instance → (idx : ℕ) → ℕ
  total_ends names [] idx = 0
  total_ends names (inst ∷ instances) idx =
      found_ends names inst (find_instance_name names inst.process_name.node idx)
      + total_ends names instances (idx + 1)

  -- What the wiring does at an instance.
  abbrev visit : Instance → String → ℕ → Pass Elaboration
  visit inst instance_name node_idx =
      with_process (Dict.lookup inst.process_name.node processes)
        (λ proc_def. wire_bindings processes instance_name node_idx env inst proc_def inst.bindings)

  visit-Grows :
      (inst : Instance) (name : String) (node_idx : ℕ) (s : Elaboration)
      → Grows writing q
          (process_ends inst (Dict.lookup inst.process_name.node processes))
          s
          (visit inst name node_idx s).0
  unfolding with_process
  visit-Grows inst name node_idx s =
      elim (Option-cases (Dict.lookup inst.process_name.node processes)) [
        | inl e ↦ rw e ((λ clean. (clean, omega arith)), refl)
        | inr (proc_def, e) ↦ rw e (
            wire_bindings-Grows writing q processes name node_idx env inst proc_def inst.bindings s)
      ]

  at_instance-Grows :
      (inst : Instance) (idx : ℕ) (s : Elaboration)
      → Grows writing q
          (found_ends s.instances inst (find_instance_name s.instances inst.process_name.node idx))
          s
          (at_instance visit inst idx s).0
  unfolding at_instance
  at_instance-Grows inst idx s =
      elim (Option-cases (find_instance_name s.instances inst.process_name.node idx)) [
        | inl e ↦ rw (at_instance, e) ((λ clean. (clean, omega arith)), refl)
        | inr (name, e) ↦ elim (Option-cases (Dict.lookup name s.instances)) [
          | inl d ↦ rw (at_instance, e, d) ((λ clean. (clean, omega arith)), refl)
          | inr (node_idx, d) ↦ rw (at_instance, e, d) (visit-Grows inst name node_idx s)
        ]
      ]

  each_instance-Grows :
      (instances : List Instance) (idx : ℕ) (s : Elaboration)
      → Grows writing q
          (total_ends s.instances instances idx)
          s
          (each_instance visit instances idx s).0
  unfolding each_instance
  each_instance-Grows [] idx s = ((λ clean. (clean, omega arith)), refl)
  each_instance-Grows (inst ∷ instances) idx s =
      let here = at_instance-Grows inst idx s in
      let t = (at_instance visit inst idx s).0 in
      ▸-Grows writing q (at_instance visit inst idx) (each_instance visit instances (idx + 1)) _ _ s
        here
        (subst
          (λ names.
            Grows writing q (total_ends names instances (idx + 1)) t
              (each_instance visit instances (idx + 1) t).0)
          here.1 (each_instance-Grows instances (idx + 1) t))

-- When the bindings of a pipe are wired without an error, each queue gets at most one writer from a
-- port that produces, and at most one reader from a port that consumes; none, if the queue had that
-- end before; and the end of every such binding is recorded. State ports that are bound to a queue
-- are not counted.
pub wire_instances-ends :
    (writing : Bool) (q : String) (env : TypeEnv) (processes : Dict String Process)
    (instances : List Instance) (s : Elaboration)
    → (wire_instances env processes instances s).0.had_error ≡ false
    → (filled_at writing q s + total_ends writing q env processes s.instances instances 0
        ≤ filled_at writing q (wire_instances env processes instances s).0)
      × (filled_at writing q (wire_instances env processes instances s).0 ≤ 1)
unfolding wire_instances
wire_instances-ends writing q env processes instances s clean =
    let (_, more) = (each_instance-Grows writing q env processes instances 0 s).0 clean in
    (more, filled_at-le writing q (wire_instances env processes instances s).0)
