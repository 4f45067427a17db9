-- ===== src/Deadlock/Blocked.antt =====
-- When the rules of a node block an edge: the loops of `classify_non_blocking_edges` in
-- src/deadlock.rs, in terms of what the rules do.
use tourbillon.Base.{
  ℕ, zero, suc, String, true, false, not, ◌&&◌, ◌||◌, ◌≡◌, refl, sym, ◌∙◌, ◌↔◌, ◌⊎◌, inl, inr, List,
  [], ◌∷◌, map, Option, none, some, get_elem?, ◌==◌, ==_iff, nat_eq, string_eq, Bool-cases, arith,
}
use tourbillon.Base.Dict.{lookup}
use tourbillon.Base.Sets.{contains}
use tourbillon.Ast.{Rule}
use tourbillon.Ast.Accesses.{stmts_accesses}
use tourbillon.Ir.{ProcessNode, Graph}
use tourbillon.Schedule.{RuleResources, PortMap, port_map, collect_rule_resources}
use tourbillon.Schedule.Resources.{
  some_access, takes_from, try_takes_from, puts_to, collect_rule_resources_lem,
}
use tourbillon.Deadlock.Blocking.{binds, takes_block, puts_block, rules_block}

-- In the rule the port is taken from and never tried, or it is put to.
abbrev pub BlocksPort : Rule → String → Type 0
BlocksPort rule p =
    ((some_access (takes_from p) (stmts_accesses rule.body) ≡ true)
      × (some_access (try_takes_from p) (stmts_accesses rule.body) ≡ false))
    ⊎ (some_access (puts_to p) (stmts_accesses rule.body) ≡ true)

-- A rule of the node blocks a port that is bound to the edge.
abbrev pub BlocksEdge : ProcessNode → ℕ → Type 0
BlocksEdge node e =
    (k : ℕ) × (rule : Rule) × (p : String) × (get_elem? node.rules k ≡ some rule)
    × (lookup p (port_map node) ≡ some e)
    × BlocksPort rule p

abbrev pub IsBlocked : Graph → ℕ → Type 0
IsBlocked g e =
    (i : ℕ) × (node : ProcessNode) × (get_elem? g.nodes i ≡ some node) × BlocksEdge node e

binds_iff : (o : Option ℕ) (e : ℕ) → (binds o e ≡ true) ↔ (o ≡ some e)
binds_iff none e = (λ h. cc, λ h. cc)
binds_iff (some d) e = (λ h. ground (arith, ==_iff d e), λ h. ground (arith, ==_iff d e))

module _ (m : PortMap) (e : ℕ) where
  takes_block_iff :
      (tried takes : List String)
      → (takes_block m tried takes e ≡ true) ↔ (
          (p : String) × (contains takes p ≡ true)
          × (contains tried p ≡ false)
          × (lookup p m ≡ some e))
  unfolding contains
  takes_block_iff tried takes = (forth takes, back takes)
    where
      forth :
          (takes : List String)
          → takes_block m tried takes e ≡ true
          → (p : String) × (contains takes p ≡ true)
            × (contains tried p ≡ false)
            × (lookup p m ≡ some e)
      forth [] h = cc
      forth (q ∷ qs) h = elim (Bool-cases (not (contains tried q) && binds (lookup q m) e)) [
        | inl found ↦ (
          q,
          ground (arith, ==_iff q q),
          ground arith,
          (binds_iff (lookup q m) e).0 (ground arith),
        )
        | inr missing ↦
            let (p, member, fresh, bound) = forth qs (rw missing at h) in
            (p, ground arith, fresh, bound)
      ]

      back :
          (takes : List String)
          → (p : String) × (contains takes p ≡ true)
            × (contains tried p ≡ false)
            × (lookup p m ≡ some e)
          → takes_block m tried takes e ≡ true
      back [] (p, member, fresh, bound) = cc
      back (q ∷ qs) (p, member, fresh, bound) = elim (Bool-cases (q == p)) [
        | inl same ↦
            let named = (==_iff q p).0 same in
            let bound_q : lookup q m ≡ some e = rw named bound in
            let fresh_q : contains tried q ≡ false = rw named fresh in
            ground (arith, (binds_iff (lookup q m) e).1 bound_q)
        | inr other ↦ ground (arith, back qs (p, rw other at member, fresh, bound))
      ]

  puts_block_iff :
      (puts : List String)
      → (puts_block m puts e ≡ true)
        ↔ ((p : String) × (contains puts p ≡ true) × (lookup p m ≡ some e))
  unfolding contains
  puts_block_iff puts = (forth puts, back puts)
    where
      forth :
          (puts : List String)
          → puts_block m puts e ≡ true
          → (p : String) × (contains puts p ≡ true) × (lookup p m ≡ some e)
      forth [] h = cc
      forth (q ∷ qs) h = elim (Bool-cases (binds (lookup q m) e)) [
        | inl found ↦ (q, ground (arith, ==_iff q q), (binds_iff (lookup q m) e).0 found)
        | inr missing ↦
            let (p, member, bound) = forth qs (rw missing at h) in (p, ground arith, bound)
      ]

      back :
          (puts : List String)
          → (p : String) × (contains puts p ≡ true) × (lookup p m ≡ some e)
          → puts_block m puts e ≡ true
      back [] (p, member, bound) = cc
      back (q ∷ qs) (p, member, bound) = elim (Bool-cases (q == p)) [
        | inl same ↦
            let bound_q : lookup q m ≡ some e = rw ((==_iff q p).0 same) bound in
            ground (arith, (binds_iff (lookup q m) e).1 bound_q)
        | inr other ↦ ground (arith, back qs (p, rw other at member, bound))
      ]

  rule_blocks_iff :
      (rule : Rule)
      → ((takes_block m
              (collect_rule_resources m rule).try_takes
              (collect_rule_resources m rule).takes
              e
            || puts_block m (collect_rule_resources m rule).puts e)
          ≡ true)
        ↔ ((p : String) × (lookup p m ≡ some e) × BlocksPort rule p)
  rule_blocks_iff rule = (forth, back)
    where
      r : RuleResources
      r = collect_rule_resources m rule

      forth :
          (takes_block m r.try_takes r.takes e || puts_block m r.puts e) ≡ true
          → (p : String) × (lookup p m ≡ some e) × BlocksPort rule p
      forth h = elim (Bool-cases (takes_block m r.try_takes r.takes e)) [
        | inl taking ↦
            let (p, member, fresh, bound) = (takes_block_iff r.try_takes r.takes).0 taking in
            let l = collect_rule_resources_lem m rule p e in
            (p, bound, inl (sym l.0 ∙ member, sym l.1 ∙ fresh))
        | inr not_taking ↦
            let (p, member, bound) = (puts_block_iff r.puts).0 (rw not_taking at h) in
            let l = collect_rule_resources_lem m rule p e in (p, bound, inr (sym l.2 ∙ member))
      ]

      back :
          (p : String) × (lookup p m ≡ some e) × BlocksPort rule p
          → (takes_block m r.try_takes r.takes e || puts_block m r.puts e) ≡ true
      back (p, bound, blocks) =
          let l = collect_rule_resources_lem m rule p e in
          elim blocks [
            | inl (member, fresh) ↦
                let taking =
                  (takes_block_iff r.try_takes r.takes).1 (p, l.0 ∙ member, l.1 ∙ fresh, bound) in
                ground arith
            | inr member ↦
                let putting = (puts_block_iff r.puts).1 (p, l.2 ∙ member, bound) in ground arith
          ]

  pub rules_block_iff :
      (rules : List Rule)
      → (rules_block m (map (collect_rule_resources m) rules) e ≡ true) ↔ (
          (k : ℕ) × (rule : Rule) × (p : String) × (get_elem? rules k ≡ some rule)
          × (lookup p m ≡ some e)
          × BlocksPort rule p)
  rules_block_iff rules = (forth rules, back rules)
    where
      forth :
          (rules : List Rule)
          → rules_block m (map (collect_rule_resources m) rules) e ≡ true
          → (k : ℕ) × (rule : Rule) × (p : String) × (get_elem? rules k ≡ some rule)
            × (lookup p m ≡ some e)
            × BlocksPort rule p
      forth [] h = cc
      forth (rule ∷ rules) h =
          elim (Bool-cases (
            takes_block m (collect_rule_resources m rule).try_takes
              (collect_rule_resources m rule).takes e
            || puts_block m (collect_rule_resources m rule).puts e)) [
              | inl here ↦
                  let (p, bound, blocks) = (rule_blocks_iff rule).0 here in
                  (zero, rule, p, refl, bound, blocks)
              | inr not_here ↦
                  let (k, found, p, at_k, bound, blocks) = forth rules (rw not_here at h) in
                  (suc k, found, p, at_k, bound, blocks)
            ]

      back :
          (rules : List Rule)
          → (k : ℕ) × (rule : Rule) × (p : String) × (get_elem? rules k ≡ some rule)
            × (lookup p m ≡ some e)
            × BlocksPort rule p
          → rules_block m (map (collect_rule_resources m) rules) e ≡ true
      back [] (k, rule, p, at_k, bound, blocks) = cc
      back (first ∷ rules) (zero, rule, p, at_k, bound, blocks) =
          let same : first ≡ rule = cc at_k in
          let here = (rule_blocks_iff first).1 (p, bound, rw same blocks) in rw here
      back (first ∷ rules) (suc k, rule, p, at_k, bound, blocks) =
          let later = back rules (k, rule, p, at_k, bound, blocks) in ground arith
