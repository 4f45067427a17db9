-- ===== src/Elaborate/Crossings.antt =====
-- The cross-domain validation at the end of `elaborate_pipe_inner` of src/elaborate.rs.
use tourbillon.Base.Dict.{lookup}
use tourbillon.Base.{
  Bool, ◌⊎◌, sym, ◌∙◌, subst, Option-cases, String, true, false, ◌||◌, Option, none, some, List, [],
  ◌∷◌, ◌++◌, ◌≡◌, ◌↔◌, refl, arith, All, string_eq, ==_iff, Bool-cases, inl, inr, get_elem?,
}
use tourbillon.Ir.{QueueEdge, QueueEdgeKind, ProcessNode, GraphEdge, Graph}
use tourbillon.Elaborate.Domains.{
  DomainMap, domain_of, same_name, check_peekers, check_kind, check_edge, check_between,
  check_edges, validate_domains, has_error,
}
use tourbillon.Diagnostics.{Diagnostic}

same_name_iff : (a b : Option String) → (same_name a b ≡ true) ↔ (a ≡ b)
same_name_iff none none = ((λ h. refl), λ h. refl)
same_name_iff (some a) (some b) = ground (arith, ==_iff a b)
same_name_iff none (some b) = ((λ h. absurd (cc)), λ h. absurd (cc))
same_name_iff (some a) none = ((λ h. absurd (cc)), λ h. absurd (cc))

has_error-append : (ds es : List Diagnostic) → has_error (ds ++ es) ≡ (has_error ds || has_error es)
has_error-append [] es = refl
has_error-append (d ∷ ds) es = ground (arith, has_error-append ds es)

-- The domain of an instance: the one that the map has for it, or else the default, `none`.
pub data InDomain (domain_map : DomainMap) (name : String) : Option String → Type 0 where
  listed : {d : Option String} → lookup name domain_map ≡ some d → InDomain domain_map name d
  unlisted : lookup name domain_map ≡ none → InDomain domain_map name none

domain_of-InDomain :
    (domain_map : DomainMap) (name : String) → InDomain domain_map name (domain_of domain_map name)
unfolding domain_of
domain_of-InDomain domain_map name = elim (Option-cases (lookup name domain_map)) [
  | inl e ↦ rw (domain_of, e) (InDomain.unlisted e)
  | inr (d, e) ↦ rw (domain_of, e) (InDomain.listed e)
]

InDomain-domain_of :
    (domain_map : DomainMap) (name : String) (d : Option String)
    → InDomain domain_map name d
    → domain_of domain_map name ≡ d
unfolding domain_of
InDomain-domain_of domain_map name d (InDomain.listed e) = rw (domain_of, e) refl
InDomain-domain_of domain_map name _ (InDomain.unlisted e) = rw (domain_of, e) refl

-- Two instances in one domain.
abbrev pub Together : DomainMap → (a b : String) → Type 0
Together domain_map a b = (d : Option String) × InDomain domain_map a d × InDomain domain_map b d

Together-iff :
    (domain_map : DomainMap) (a b : String)
    → (domain_of domain_map a ≡ domain_of domain_map b) ↔ Together domain_map a b
Together-iff domain_map a b = (
  (λ e. (
    domain_of domain_map b,
    subst (InDomain domain_map a) e (domain_of-InDomain domain_map a),
    domain_of-InDomain domain_map b,
  )),
  λ (d, in_a, in_b).
      InDomain-domain_of domain_map a d in_a ∙ sym (InDomain-domain_of domain_map b d in_b),
)

-- An edge of a kind may stand between two instances: a queue only in one domain, a cell only where
-- each peeker is in its owner's domain, an asynchronous queue anywhere.
abbrev pub MayCross : DomainMap → (src dst : String) → QueueEdgeKind → Type 0
MayCross domain_map src dst (QueueEdgeKind.queue _ _) = Together domain_map src dst
MayCross domain_map src dst (QueueEdgeKind.cell peekers _) =
    All (λ peeker. Together domain_map src peeker) peekers
MayCross domain_map src dst QueueEdgeKind.async_queue = Unit

check_peekers_iff :
    (domain_map : DomainMap) (edge : QueueEdge) (src : String) (peekers : List String)
    → (has_error (check_peekers domain_map edge (domain_of domain_map src) peekers) ≡ false)
      ↔ All (λ peeker. Together domain_map src peeker) peekers
unfolding check_peekers
check_peekers_iff domain_map edge src [] = ((λ h. tt), λ h. refl)
check_peekers_iff domain_map edge src (peeker ∷ peekers) =
    let rest = check_peekers_iff domain_map edge src peekers in
    let same = same_name_iff (domain_of domain_map src) (domain_of domain_map peeker) in
    let one = Together-iff domain_map src peeker in
    elim (Bool-cases (same_name (domain_of domain_map src) (domain_of domain_map peeker))) [
      | inl e ↦ rw e ((λ h. (one.0 (same.0 e), rest.0 h)), λ (_, h). rest.1 h)
      | inr e ↦ rw e ((λ h. absurd (cc)), λ (h, _). absurd (cc (same.1 (one.1 h), e)))
    ]

check_kind_iff :
    (domain_map : DomainMap) (edge : QueueEdge) (src dst : String) (kind : QueueEdgeKind)
    → (has_error
          (check_kind domain_map edge (domain_of domain_map src) (domain_of domain_map dst) kind)
        ≡ false)
      ↔ MayCross domain_map src dst kind
unfolding check_kind
check_kind_iff domain_map edge src dst (QueueEdgeKind.queue _ _) =
    let same = same_name_iff (domain_of domain_map src) (domain_of domain_map dst) in
    let one = Together-iff domain_map src dst in
    elim (Bool-cases (same_name (domain_of domain_map src) (domain_of domain_map dst))) [
      | inl e ↦ rw e ((λ h. one.0 (same.0 e)), λ h. refl)
      | inr e ↦ rw e ((λ h. absurd (cc)), λ h. absurd (cc (same.1 (one.1 h), e)))
    ]
check_kind_iff domain_map edge src dst (QueueEdgeKind.cell peekers _) =
    check_peekers_iff domain_map edge src peekers
check_kind_iff domain_map edge src dst QueueEdgeKind.async_queue =
    elim (Bool-cases (same_name (domain_of domain_map src) (domain_of domain_map dst))) [
      | inl e ↦ rw e ((λ h. tt), λ h. refl)
      | inr e ↦ rw e ((λ h. tt), λ h. refl)
    ]

-- The two ends of an edge: a memory stub on either side, or instances that the kind allows.
abbrev pub Allowed : DomainMap → QueueEdge → (src dst : Option ProcessNode) → Type 0
Allowed domain_map edge (some src) (some dst) =
    (src.is_memory_stub ≡ true)
    ⊎ ((dst.is_memory_stub ≡ true)
        ⊎ MayCross domain_map src.instance_name dst.instance_name edge.kind)
Allowed domain_map edge _ _ = Unit

stub_cases : (a b : Bool) → (a || b) ≡ true → (a ≡ true) ⊎ (b ≡ true)
stub_cases true b h = inl refl
stub_cases false b h = inr h

check_between_iff :
    (domain_map : DomainMap) (edge : QueueEdge) (src dst : Option ProcessNode)
    → (has_error (check_between domain_map edge src dst) ≡ false) ↔ Allowed domain_map edge src dst
unfolding check_between check_edge
check_between_iff domain_map edge (some src) (some dst) =
    let kinds = check_kind_iff domain_map edge src.instance_name dst.instance_name edge.kind in
    elim (Bool-cases (src.is_memory_stub || dst.is_memory_stub)) [
      | inl e ↦ rw e (
        (λ h. elim (stub_cases src.is_memory_stub dst.is_memory_stub e) [
          | inl a ↦ inl a
          | inr b ↦ inr (inl b)
        ]),
        λ h. refl,
      )
      | inr e ↦ rw e (
        (λ h. inr (inr (kinds.0 h))),
        λ h. elim h [
          | inl a ↦ absurd (ground arith)
          | inr (inl b) ↦ absurd (ground arith)
          | inr (inr may) ↦ kinds.1 may
        ],
      )
    ]
check_between_iff domain_map edge (some src) none = ((λ h. tt), λ h. refl)
check_between_iff domain_map edge none dst = ((λ h. tt), λ h. refl)

no_error-append :
    (ds es : List Diagnostic)
    → (has_error (ds ++ es) ≡ false) ↔ ((has_error ds ≡ false) × (has_error es ≡ false))
no_error-append ds es = ground (arith, has_error-append ds es)

check_edges_iff :
    (domain_map : DomainMap) (nodes : List ProcessNode) (edges : List GraphEdge)
    → (has_error (check_edges domain_map nodes edges) ≡ false)
      ↔ All
          (λ e. Allowed domain_map e.weight (get_elem? nodes e.source) (get_elem? nodes e.target))
          edges
unfolding check_edges
check_edges_iff domain_map nodes [] = ((λ h. tt), λ h. refl)
check_edges_iff domain_map nodes (e ∷ edges) =
    let parts =
      no_error-append
        (check_between domain_map e.weight (get_elem? nodes e.source) (get_elem? nodes e.target))
        (check_edges domain_map nodes edges) in
    let here =
      check_between_iff domain_map e.weight (get_elem? nodes e.source) (get_elem? nodes e.target) in
    let rest = check_edges_iff domain_map nodes edges in
    ((λ h. let (a, b) = parts.0 h in (here.0 a, rest.0 b)), λ (a, b). parts.1 (here.1 a, rest.1 b))

-- A pipe that declares a domain passes the validation without an error exactly when each edge has a
-- memory stub at an end, or is a queue between instances that the domain map puts in one domain, or a
-- cell whose peekers it puts in its owner's domain, or an asynchronous queue. An instance that the
-- map does not have is in the default domain.
pub validate_domains_iff :
    (declared : String) (others : List String) (domain_map : DomainMap) (g : Graph)
    → (has_error (validate_domains (declared ∷ others) domain_map g) ≡ false)
      ↔ All
          (λ e.
            Allowed domain_map e.weight (get_elem? g.nodes e.source) (get_elem? g.nodes e.target))
          g.edges
unfolding validate_domains
validate_domains_iff declared others domain_map g = check_edges_iff domain_map g.nodes g.edges
