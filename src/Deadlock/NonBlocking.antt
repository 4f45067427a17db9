-- ===== src/Deadlock/NonBlocking.antt =====
-- The edges that the analysis regards as non-blocking, in terms of what the rules do.
use mathlib.Core.Bool.{false≢true}
use tourbillon.Base.{
  ℕ, zero, suc, ◌<◌, Bool, true, false, not, ◌&&◌, ◌||◌, ◌≡◌, refl, sym, ◌∙◌, ◌↔◌, ◌⊎◌, inl, inr,
  List, [], ◌∷◌, none, some, get_elem?, nat_eq, string_eq, Bool-cases, length, arith,
}
use tourbillon.Base.Sets.{contains}
use tourbillon.Ir.{ProcessNode, GraphEdge, Graph}
use tourbillon.Schedule.{port_map, schedule_node, schedule}
use tourbillon.Deadlock.{classify_non_blocking_edges}
use tourbillon.Deadlock.Edges.{edge_is}
use tourbillon.Deadlock.Blocking.{is_exempt, rules_block, nodes_block, contains-classify}
use tourbillon.Deadlock.Blocked.{BlocksEdge, IsBlocked, rules_block_iff}

nodes_block_iff :
    (e : ℕ) (nodes : List ProcessNode)
    → (nodes_block nodes e ≡ true)
      ↔ ((i : ℕ) × (node : ProcessNode) × (get_elem? nodes i ≡ some node) × BlocksEdge node e)
unfolding schedule_node
nodes_block_iff e nodes = (forth nodes, back nodes)
  where
    forth :
        (nodes : List ProcessNode)
        → nodes_block nodes e ≡ true
        → (i : ℕ) × (node : ProcessNode) × (get_elem? nodes i ≡ some node) × BlocksEdge node e
    forth [] h = cc
    forth (node ∷ nodes) h =
        elim (Bool-cases (rules_block (port_map node) (schedule_node node).rule_resources e)) [
          | inl here ↦ (zero, node, refl, (rules_block_iff (port_map node) e node.rules).0 here)
          | inr not_here ↦
              let (i, found, at_i, blocks) = forth nodes (rw not_here at h) in
              (suc i, found, at_i, blocks)
        ]

    back :
        (nodes : List ProcessNode)
        → (i : ℕ) × (node : ProcessNode) × (get_elem? nodes i ≡ some node) × BlocksEdge node e
        → nodes_block nodes e ≡ true
    back [] (i, node, at_i, blocks) = cc
    back (first ∷ nodes) (zero, node, at_i, blocks) =
        let same : first ≡ node = cc at_i in
        let at_first : BlocksEdge first e = rw same blocks in
        let here = (rules_block_iff (port_map first) e first.rules).1 at_first in rw here
    back (first ∷ nodes) (suc i, node, at_i, blocks) =
        let later = back nodes (i, node, at_i, blocks) in ground arith

stays_cases : (a b d : Bool) → (a && (b || not d)) ≡ true → (a ≡ true) × ((b ≡ true) ⊎ (d ≡ false))
stays_cases a b d h = ground arith

stays_exempt : (a b d : Bool) → a ≡ true → b ≡ true → (a && (b || not d)) ≡ true
stays_exempt a b d h k = ground arith

stays_clear : (a b d : Bool) → a ≡ true → d ≡ false → (a && (b || not d)) ≡ true
stays_clear a b d h k = ground arith

edge_is-true : (g : Graph) (e : ℕ) → (edge_is g (λ _. true) e ≡ true) ↔ (e < length g.edges)
edge_is-true g e = go g.edges e
  where
    go :
        (es : List GraphEdge) (e : ℕ)
        → (elim (get_elem? es e) [ none ↦ false | some _ ↦ true ] ≡ true) ↔ (e < length es)
    go [] e = (λ h. cc, λ h. absurd (omega arith))
    go (x ∷ es) zero = (λ _. omega arith, λ _. refl)
    go (x ∷ es) (suc e) = (λ h. omega (arith, (go es e).0 h), λ h. (go es e).1 (omega arith))

-- On a scheduled network, the edges that the analysis regards as non-blocking are the edges that
-- touch a memory stub or are asynchronous, and those to which no rule of any node has a blocking
-- use: a port bound to the edge that the rule puts to, or takes from and never tries.
pub classify_non_blocking_edges_lem :
    (g : Graph) (e : ℕ)
    → (contains (classify_non_blocking_edges g (schedule g)) e ≡ true)
      ↔ ((e < length g.edges) × ((is_exempt g e ≡ true) ⊎ ¬ IsBlocked g e))
classify_non_blocking_edges_lem g e = (forth, back)
  where
    exact :
        contains (classify_non_blocking_edges g (schedule g)) e
        ≡ (edge_is g (λ _. true) e && (is_exempt g e || not (nodes_block g.nodes e)))
    exact = contains-classify g e

    forth :
        contains (classify_non_blocking_edges g (schedule g)) e ≡ true
        → (e < length g.edges) × ((is_exempt g e ≡ true) ⊎ ¬ IsBlocked g e)
    forth h =
        let (there, free) = stays_cases _ (is_exempt g e) (nodes_block g.nodes e) (sym exact ∙ h) in
        (
          (edge_is-true g e).0 there,
          elim free [
            | inl exempt ↦ inl exempt
            | inr unblocked ↦
                inr (λ blocked. false≢true (sym unblocked ∙ (nodes_block_iff e g.nodes).1 blocked))
          ],
        )

    back :
        (e < length g.edges) × ((is_exempt g e ≡ true) ⊎ ¬ IsBlocked g e)
        → contains (classify_non_blocking_edges g (schedule g)) e ≡ true
    back (lt, free) =
        let there = (edge_is-true g e).1 lt in
        elim free [
          | inl exempt ↦ exact ∙ stays_exempt _ _ (nodes_block g.nodes e) there exempt
          | inr unblocked ↦ elim (Bool-cases (nodes_block g.nodes e)) [
            | inl blocked ↦ absurd (unblocked ((nodes_block_iff e g.nodes).0 blocked))
            | inr clear ↦ exact ∙ stays_clear _ (is_exempt g e) _ there clear
          ]
        ]
