-- ===== src/Deadlock/Blocking.antt =====
-- Which edges the analysis regards as non-blocking.
use tourbillon.Base.{
  ℕ, String, Bool, true, false, not, ◌&&◌, ◌||◌, ◌≡◌, ◌∙◌, ap, inl, inr, List, [], ◌∷◌, map, Option,
  none, some, ◌==◌, ==_iff, nat_eq, string_eq, Bool-cases, arith,
}
use tourbillon.Base.Dict.{lookup}
use tourbillon.Base.Sets.{contains, contains-remove}
use tourbillon.Ir.{ProcessNode, Graph}
use tourbillon.Schedule.{RuleResources, PortMap, port_map, schedule_node, schedule}
use tourbillon.Deadlock.{
  touches_stub, is_async, edges_where, block, block_takes, block_puts, block_rules, block_nodes,
  classify_non_blocking_edges,
}
use tourbillon.Deadlock.Edges.{edge_is, contains-edges_where}

-- An edge that is never regarded as blocking: to or from a memory stub, or asynchronous.
abbrev pub is_exempt : Graph → ℕ → Bool
is_exempt g e = edge_is g (touches_stub g) e || edge_is g (λ x. is_async x.weight.kind) e

abbrev pub binds : Option ℕ → ℕ → Bool
binds none e = false
binds (some d) e = d == e

-- Some blocking operation among the resources of a rule goes to the edge.
abbrev pub takes_block : PortMap → List String → List String → ℕ → Bool
takes_block m tried [] e = false
takes_block m tried (p ∷ ps) e =
    (not (contains tried p) && binds (lookup p m) e) || takes_block m tried ps e

abbrev pub puts_block : PortMap → List String → ℕ → Bool
puts_block m [] e = false
puts_block m (p ∷ ps) e = binds (lookup p m) e || puts_block m ps e

abbrev pub rules_block : PortMap → List RuleResources → ℕ → Bool
rules_block m [] e = false
rules_block m (r ∷ rs) e =
    (takes_block m r.try_takes r.takes e || puts_block m r.puts e) || rules_block m rs e

abbrev pub nodes_block : List ProcessNode → ℕ → Bool
nodes_block [] e = false
nodes_block (node ∷ nodes) e =
    rules_block (port_map node) (schedule_node node).rule_resources e || nodes_block nodes e

module _ (g : Graph) (e : ℕ) where
  -- What is left of the set: the edge stays unless it is blocked and not exempt.
  abbrev pub stays : Bool → Bool → Bool
  stays before blocked = before && (is_exempt g e || not blocked)

  contains-block :
      (o : Option ℕ) (nb : List ℕ) → contains (block g o nb) e ≡ stays (contains nb e) (binds o e)
  unfolding block
  contains-block none nb = ground arith
  contains-block (some d) nb = ground (
    arith,
    contains-remove d nb e,
    ==_iff d e,
    contains-edges_where (touches_stub g) g d,
    contains-edges_where (λ x. is_async x.weight.kind) g d,
    contains-edges_where (touches_stub g) g e,
    contains-edges_where (λ x. is_async x.weight.kind) g e,
  )

  module _ (m : PortMap) where
    contains-block_takes :
        (tried takes : List String) (nb : List ℕ)
        → contains (block_takes g m tried takes nb) e
          ≡ stays (contains nb e) (takes_block m tried takes e)
    unfolding block_takes
    contains-block_takes tried [] nb = ground arith
    contains-block_takes tried (p ∷ ps) nb = elim (Bool-cases (contains tried p)) [
      | inl soft ↦ rw soft (contains-block_takes tried ps nb)
      | inr hard ↦ rw hard (
          ground (
            arith,
            contains-block_takes tried ps (block g (lookup p m) nb),
            contains-block (lookup p m) nb,
          ))
    ]

    contains-block_puts :
        (puts : List String) (nb : List ℕ)
        → contains (block_puts g m puts nb) e ≡ stays (contains nb e) (puts_block m puts e)
    unfolding block_puts
    contains-block_puts [] nb = ground arith
    contains-block_puts (p ∷ ps) nb =
        ground
          (arith, contains-block_puts ps (block g (lookup p m) nb), contains-block (lookup p m) nb)

    contains-block_rules :
        (rs : List RuleResources) (nb : List ℕ)
        → contains (block_rules g m rs nb) e ≡ stays (contains nb e) (rules_block m rs e)
    unfolding block_rules
    contains-block_rules [] nb = ground arith
    contains-block_rules (r ∷ rs) nb =
        let taken = block_takes g m r.try_takes r.takes nb in
        ground (
          arith,
          contains-block_rules rs (block_puts g m r.puts taken),
          contains-block_puts r.puts taken,
          contains-block_takes r.try_takes r.takes nb,
        )

  contains-block_nodes :
      (nodes : List ProcessNode) (nb : List ℕ)
      → contains (block_nodes g nodes (map schedule_node nodes) nb) e
        ≡ stays (contains nb e) (nodes_block nodes e)
  unfolding block_nodes
  contains-block_nodes [] nb = ground arith
  contains-block_nodes (node ∷ nodes) nb =
      let resources = (schedule_node node).rule_resources in
      ground (
        arith,
        contains-block_nodes nodes (block_rules g (port_map node) resources nb),
        contains-block_rules (port_map node) resources nb,
      )

  pub contains-classify :
      contains (classify_non_blocking_edges g (schedule g)) e
      ≡ stays (edge_is g (λ _. true) e) (nodes_block g.nodes e)
  unfolding classify_non_blocking_edges schedule
  contains-classify =
      contains-block_nodes g.nodes (edges_where (λ _. true) g)
      ∙ ap (λ b. stays b (nodes_block g.nodes e)) (contains-edges_where (λ _. true) g e)
