-- ===== src/Elaborate/Domains.antt =====
-- Clock domains in `elaborate_pipe_inner` of src/elaborate.rs: their declarations, the domains of
-- the instances, and the validation of the edges between them.
use tourbillon.Base.{
  ℕ, ◌+◌, String, Bool, true, false, ◌||◌, Option, none, some, List, [], ◌∷◌, ◌++◌, ◌==◌, string_eq,
  if◌then◌else◌, get_elem?,
}
use tourbillon.Base.Dict
use tourbillon.Base.Dict.{Dict}
use tourbillon.Base.Sets
use tourbillon.Ast.{Spanned}
use tourbillon.Ast.Items.{Instance}
use tourbillon.Ir.{QueueEdge, QueueEdgeKind, ProcessNode, GraphEdge, Graph}
use tourbillon.Elaborate.{find_instance_name}
use tourbillon.Diagnostics.{
  Diagnostic, DiagnosticKind, error_at, warning_at, duplicate_domain, unknown_domain,
  crosses_domains, peek_crosses_domains, same_domain, Reports, return, report, ◌>>=◌,
}

-- The set of the declared domains.
unfoldable pub declare_domains : List (Spanned String) → List String → Reports (List String)
declare_domains [] domain_set = return domain_set
declare_domains (decl ∷ decls) domain_set =
    let rest = declare_domains decls (Sets.insert decl.node domain_set) in
    if Sets.contains domain_set decl.node
    then (rest.0, error_at decl.span (duplicate_domain decl.node) ∷ rest.1)
    else rest

abbrev pub DomainMap : Type 0
DomainMap = Dict String (Option String)

-- The domain of one instance.
unfoldable pub annotate :
    (domain_set : List String) (instance_name : String)
    → Option (Spanned String)
    → DomainMap
    → Reports DomainMap
annotate domain_set instance_name none domain_map =
    return (Dict.insert instance_name none domain_map)
annotate domain_set instance_name (some ann) domain_map =
    if Sets.contains domain_set ann.node
    then return (Dict.insert instance_name (some ann.node) domain_map)
    else report (error_at ann.span (unknown_domain ann.node)) domain_map

unfoldable pub collect_domains :
    Dict String ℕ
    → (domain_set : List String) → List Instance
    → (idx : ℕ) → DomainMap
    → Reports DomainMap
unfolding find_instance_name annotate
collect_domains instances domain_set [] idx domain_map = return domain_map
collect_domains instances domain_set (inst ∷ rest) idx domain_map =
    elim (find_instance_name instances inst.process_name.node idx) [
      | none ↦ collect_domains instances domain_set rest (idx + 1) domain_map
      | some instance_name ↦
          annotate domain_set instance_name inst.domain domain_map
          >>= collect_domains instances domain_set rest (idx + 1)
    ]

-- The domain of an instance, `flatten`ed: none is the default domain.
unfoldable pub domain_of : DomainMap → String → Option String
domain_of domain_map name = elim (Dict.lookup name domain_map) [ none ↦ none | some d ↦ d ]

abbrev pub same_name : Option String → Option String → Bool
same_name none none = true
same_name (some a) (some b) = a == b
same_name _ _ = false

-- The peekers of a cell whose domain is not its owner's.
unfoldable pub check_peekers :
    DomainMap → QueueEdge → (owner_domain : Option String) → List String → List Diagnostic
unfolding domain_of
check_peekers domain_map edge owner_domain [] = []
check_peekers domain_map edge owner_domain (peeker ∷ peekers) =
    let rest = check_peekers domain_map edge owner_domain peekers in
    let peeker_domain = domain_of domain_map peeker in
    if same_name owner_domain peeker_domain
    then rest
    else error_at edge.span (peek_crosses_domains edge.name owner_domain peeker_domain) ∷ rest

unfoldable pub check_kind :
    DomainMap
    → QueueEdge
    → (src_domain dst_domain : Option String) → QueueEdgeKind
    → List Diagnostic
unfolding check_peekers
check_kind domain_map edge src_domain dst_domain (QueueEdgeKind.queue _ _) =
    if same_name src_domain dst_domain
    then []
    else error_at edge.span (crosses_domains edge.name src_domain dst_domain) ∷ []
check_kind domain_map edge src_domain dst_domain QueueEdgeKind.async_queue =
    if same_name src_domain dst_domain
    then warning_at edge.span (same_domain edge.name) ∷ []
    else []
check_kind domain_map edge src_domain dst_domain (QueueEdgeKind.cell peekers _) =
    check_peekers domain_map edge src_domain peekers

-- An edge between two nodes.
unfoldable pub check_edge : DomainMap → QueueEdge → (src dst : ProcessNode) → List Diagnostic
unfolding check_kind domain_of
check_edge domain_map edge src dst =
    if src.is_memory_stub || dst.is_memory_stub
    then []
    else check_kind domain_map edge (domain_of domain_map src.instance_name)
        (domain_of domain_map dst.instance_name) edge.kind

-- The graph's indices stay in range, so the reads give a node.
unfoldable pub check_between :
    DomainMap → QueueEdge → (src dst : Option ProcessNode) → List Diagnostic
unfolding check_edge
check_between domain_map edge (some src) (some dst) = check_edge domain_map edge src dst
check_between domain_map edge _ _ = []

unfoldable pub check_edges : DomainMap → List ProcessNode → List GraphEdge → List Diagnostic
unfolding check_between
check_edges domain_map nodes [] = []
check_edges domain_map nodes (e ∷ edges) =
    check_between domain_map e.weight (get_elem? nodes e.source) (get_elem? nodes e.target)
    ++ check_edges domain_map nodes edges

-- Without declared domains there is nothing to check.
unfoldable pub validate_domains : (domains : List String) → DomainMap → Graph → List Diagnostic
unfolding check_edges
validate_domains [] domain_map g = []
validate_domains (_ ∷ _) domain_map g = check_edges domain_map g.nodes g.edges

-- What sets `had_error` here: an error, not a warning.
abbrev pub is_error_kind : DiagnosticKind → Bool
is_error_kind DiagnosticKind.error = true
is_error_kind DiagnosticKind.warning = false

abbrev pub has_error : List Diagnostic → Bool
has_error [] = false
has_error (d ∷ ds) = is_error_kind d.kind || has_error ds
