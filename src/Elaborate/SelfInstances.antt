-- ===== src/Elaborate/SelfInstances.antt =====
-- Pipes that instantiate themselves, in `elaborate` of src/elaborate.rs.
use tourbillon.Base.{
  ℕ, String, true, List, [], ◌∷◌, some, ◌≡◌, inl, inr, arith, string_eq, ==_refl, Any, Bool-cases,
}
use tourbillon.Base.Dict
use tourbillon.Base.Sets
use tourbillon.Ast.{Span}
use tourbillon.Ast.Items.{Instance, Pipe, Item}
use tourbillon.Types.Env.{TypeEnv}
use tourbillon.Elaborate.{index_definitions}
use tourbillon.Elaborate.Pipes.{child_names, child_pipes, elaborate_items, elaborate}

-- The names that are found stay.
child_names-keeps :
    (pipes : Dict.Dict String Pipe) (name : String) (instances : List Instance)
    (names : List String)
    → Sets.contains names name ≡ true
    → Sets.contains (child_names pipes instances names) name ≡ true
unfolding child_names
child_names-keeps pipes name [] names h = h
child_names-keeps pipes name (inst ∷ instances) names h =
    elim (Bool-cases (Dict.has_key inst.process_name.node pipes)) [
      | inl e ↦ rw e (
          child_names-keeps pipes name instances (Sets.insert inst.process_name.node names)
            (ground (arith, Sets.contains-insert inst.process_name.node names name)))
      | inr e ↦ rw e (child_names-keeps pipes name instances names h)
    ]

child_names-finds :
    (pipes : Dict.Dict String Pipe) (name : String) (instances : List Instance)
    (names : List String)
    → Dict.has_key name pipes ≡ true
    → Any (λ inst. inst.process_name.node ≡ name) instances
    → Sets.contains (child_names pipes instances names) name ≡ true
unfolding child_names
child_names-finds pipes name [] names key h = absurd h
child_names-finds pipes name (inst ∷ instances) names key (inl e) =
    rw (e, key)
      (child_names-keeps pipes name instances (Sets.insert name names)
        (ground (arith, Sets.contains-insert name names name, ==_refl name)))
child_names-finds pipes name (inst ∷ instances) names key (inr later) =
    elim (Bool-cases (Dict.has_key inst.process_name.node pipes)) [
      | inl e ↦ rw e (child_names-finds pipes name instances _ key later)
      | inr e ↦ rw e (child_names-finds pipes name instances names key later)
    ]

-- A file of one pipe that instantiates itself is elaborated to no network and to no diagnostic: the
-- pipe counts as a child, so the error of a pipe that instantiates itself is never reached.
pub elaborate_self :
    (fuel : ℕ) (pipe : Pipe) (sp : Span) (env : TypeEnv)
    → Any (λ inst. inst.process_name.node ≡ pipe.name.node) pipe.instances
    → elaborate fuel (record { items = Item.pipe pipe sp ∷ [] }) env ≡ some ([], [])
unfolding elaborate index_definitions child_pipes elaborate_items Dict.insert Dict.has_key
    Dict.lookup
elaborate_self fuel pipe sp env h = rw (
    child_names-finds ((pipe.name.node, pipe) ∷ []) pipe.name.node pipe.instances []
      (ground (arith, ==_refl pipe.name.node)) h)
