-- ===== src/Desugar/PortNames.antt =====
-- The ports that array ports become, and the bindings that go with them, in src/desugar.rs.
use tourbillon.Base.{
  ℕ, zero, suc, ◌+◌, ◌≤◌, ◌<◌, List, [], ◌∷◌, ◌++◌, map, Option, none, some, ◌≡◌, ◌↔◌, ◌⊎◌, inl,
  inr, refl, ap, ◌∙◌, Any, Any-append, arith, Bool-cases, ltb,
}
use tourbillon.Ast.{Port}
use tourbillon.Ast.Items.{PortBinding}
use tourbillon.Desugar.Bodies.{element_name}
use tourbillon.Desugar.Ports.{element_ports, expand_ports, element_bindings}

-- The numbered port of an array port.
abbrev pub element_port : Port → ℕ → Port
element_port p i = record {
  kind = p.kind;
  name = record { node = element_name p.name.node i; span = p.name.span };
  ty = p.ty;
  array_size = none;
}

abbrev pub ComesFrom : Option ℕ → Port → Port → Type 0
ComesFrom none q p = q ≡ p
ComesFrom (some size) q p = (i : ℕ) × (i < size) × (q ≡ element_port p i)

element_ports_iff :
    (p q : Port) (count i : ℕ)
    → Any (λ r. q ≡ r) (element_ports p count i)
      ↔ ((j : ℕ) × (i ≤ j) × (j < i + count) × (q ≡ element_port p j))
unfolding element_ports
element_ports_iff p q zero i = ((λ h. absurd h), λ (j, a, b, e). absurd (omega arith))
element_ports_iff p q (suc count) i =
    let rest = element_ports_iff p q count (i + 1) in
    (
      (λ h. elim h [
        | inl here ↦ (i, omega arith, omega arith, here)
        | inr there ↦ let (j, a, b, e) = rest.0 there in (j, omega arith, omega arith, e)
      ]),
      λ (j, a, b, e). elim (Bool-cases (ltb i j)) [
        | inl beyond ↦ inr (rest.1 (j, ground arith, omega arith, e))
        | inr equal ↦ let same : j ≡ i = ground arith in inl (e ∙ ap (element_port p) same)
      ],
    )

-- The expansion of one port before others.
cons_iff :
    (o : Option ℕ) (p q : Port) (rest : List Port)
    → Any (λ r. q ≡ r) (elim o [ none ↦ p ∷ rest | some size ↦ element_ports p size 0 ++ rest ])
      ↔ (ComesFrom o q p ⊎ Any (λ r. q ≡ r) rest)
cons_iff none p q rest = ((λ h. h), λ h. h)
cons_iff (some size) p q rest =
    let parts = Any-append (λ r. q ≡ r) (element_ports p size 0) rest in
    let elements = element_ports_iff p q size 0 in
    (
      (λ h. elim (parts.0 h) [
        | inl here ↦ let (j, _, b, e) = elements.0 here in inl (j, omega arith, e)
        | inr there ↦ inr there
      ]),
      λ h. elim h [
        | inl (j, b, e) ↦ parts.1 (inl (elements.1 (j, omega arith, omega arith, e)))
        | inr there ↦ parts.1 (inr there)
      ],
    )

-- The ports after expansion are exactly the ports that are no arrays and, for each array port of
-- size `n`, the ports of the same kind and type that are named with the numbers below `n`.
pub expand_ports_iff :
    (ports : List Port) (q : Port)
    → Any (λ r. q ≡ r) (expand_ports ports) ↔ Any (λ p. ComesFrom p.array_size q p) ports
unfolding expand_ports
expand_ports_iff [] q = ((λ h. h), λ h. h)
expand_ports_iff (p ∷ ports) q =
    let here = cons_iff p.array_size p q (expand_ports ports) in
    let rest = expand_ports_iff ports q in
    (
      (λ h. elim (here.0 h) [ inl a ↦ inl a | inr b ↦ inr (rest.0 b) ]),
      λ h. here.1 (elim h [ inl a ↦ inl a | inr b ↦ inr (rest.1 b) ]),
    )

-- The bindings that a binding of an array port becomes are for the names of the ports that the
-- array port becomes, in their order.
pub element_bindings-names :
    (p : Port) (b : PortBinding) (count i : ℕ)
    → b.port.node ≡ p.name.node
    → map (λ r. r.port.node) (element_bindings b count i)
      ≡ map (λ r. r.name.node) (element_ports p count i)
unfolding element_bindings element_ports
element_bindings-names p b zero i e = refl
element_bindings-names p b (suc count) i e =
    rw (ap (λ n. element_name n i) e, element_bindings-names p b count (i + 1) e)
