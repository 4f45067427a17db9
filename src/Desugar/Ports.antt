-- ===== src/Desugar/Ports.antt =====
-- Array ports and their bindings, in `desugar` and `expand_pipe_array_bindings` of src/desugar.rs.
use Prim.Native.Char.{code}
use Prim.Native.String as Text
use tourbillon.Base.{
  ℕ, zero, suc, ◌+◌, String, List, [], ◌∷◌, ◌++◌, Option, none, some, ◌==◌, nat_eq, string_eq,
  if◌then◌else◌,
}
use tourbillon.Base.Dict
use tourbillon.Base.Dict.{Dict}
use tourbillon.Ast.{Port}
use tourbillon.Ast.Items.{PortBinding, Instance, Item}
use tourbillon.Desugar.Bodies.{element_name}

-- The sizes of the array ports by their names.
unfoldable pub array_ports_from : List Port → Dict String ℕ → Dict String ℕ
array_ports_from [] sizes = sizes
array_ports_from (p ∷ ports) sizes = elim p.array_size [
  | none ↦ array_ports_from ports sizes
  | some size ↦ array_ports_from ports (Dict.insert p.name.node size sizes)
]

unfoldable pub element_ports : Port → (count i : ℕ) → List Port
element_ports p zero i = []
element_ports p (suc count) i =
    record {
      kind = p.kind;
      name = record { node = element_name p.name.node i; span = p.name.span };
      ty = p.ty;
      array_size = none;
    }
    ∷ element_ports p count (i + 1)

unfoldable pub expand_ports : List Port → List Port
unfolding element_ports
expand_ports [] = []
expand_ports (p ∷ ports) = elim p.array_size [
  | none ↦ p ∷ expand_ports ports
  | some size ↦ element_ports p size 0 ++ expand_ports ports
]

-- `find('.')`: what stands before the first dot and behind it.
unfoldable pub split_dot : String → Option (String × String)
split_dot String.[] = none
split_dot (String.◌∷◌ c s) =
    let rest = split_dot s in
    if code c == b'.'
    then some (String.[], s)
    else elim rest [ none ↦ none | some (before, behind) ↦ some (String.◌∷◌ c before, behind) ]

unfoldable pub element_target : String → ℕ → String
unfolding split_dot
element_target target i = elim (split_dot target) [
  | none ↦ element_name target i
  | some (before, behind) ↦ Text.◌++◌ before (Text.◌++◌ "." (element_name behind i))
]

unfoldable pub element_bindings : PortBinding → (count i : ℕ) → List PortBinding
unfolding element_target
element_bindings b zero i = []
element_bindings b (suc count) i =
    record {
      port = record { node = element_name b.port.node i; span = b.port.span };
      target = record { node = element_target b.target.node i; span = b.target.span };
    }
    ∷ element_bindings b count (i + 1)

unfoldable pub expand_bindings : Dict String ℕ → List PortBinding → List PortBinding
unfolding element_bindings
expand_bindings sizes [] = []
expand_bindings sizes (b ∷ bindings) = elim (Dict.lookup b.port.node sizes) [
  | none ↦ b ∷ expand_bindings sizes bindings
  | some size ↦ element_bindings b size 0 ++ expand_bindings sizes bindings
]

unfoldable pub expand_pipe_array_bindings :
    Dict String (Dict String ℕ) → List Instance → List Instance
unfolding expand_bindings
expand_pipe_array_bindings process_array_ports [] = []
expand_pipe_array_bindings process_array_ports (inst ∷ instances) =
    elim (Dict.lookup inst.process_name.node process_array_ports) [
      | none ↦ inst ∷ expand_pipe_array_bindings process_array_ports instances
      | some sizes ↦
          record inst { bindings = expand_bindings sizes inst.bindings }
          ∷ expand_pipe_array_bindings process_array_ports instances
    ]

abbrev pub insert_sizes :
    String → Dict String ℕ → Dict String (Dict String ℕ) → Dict String (Dict String ℕ)
insert_sizes name [] all = all
insert_sizes name (size ∷ sizes) all = Dict.insert name (size ∷ sizes) all

-- Phase 0: the processes that have array ports.
unfoldable pub process_array_ports :
    List Item → Dict String (Dict String ℕ) → Dict String (Dict String ℕ)
unfolding array_ports_from
process_array_ports [] all = all
process_array_ports (Item.process p _ ∷ items) all =
    process_array_ports items (insert_sizes p.name.node (array_ports_from p.ports []) all)
process_array_ports (_ ∷ items) all = process_array_ports items all
