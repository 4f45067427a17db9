-- ===== src/Deadlock/Edges.antt =====
-- Which edge indices a search over the edges lists.
use tourbillon.Base.{
  ℕ, ◌+◌, ◌-◌, Bool, false, ◌&&◌, ◌≡◌, List, [], ◌∷◌, none, some, leb, get_elem?, get_elem?-sub_lt,
  get_elem?-sub_eq, nat_eq, if◌then◌else◌, arith,
}
use tourbillon.Base.Sets.{contains, contains-append}
use tourbillon.Ir.{GraphEdge, Graph}
use tourbillon.Deadlock.{edges_from, edges_where}

-- The edge at an index passes the test.
abbrev pub edge_is : Graph → (GraphEdge → Bool) → ℕ → Bool
edge_is g p e = elim (get_elem? g.edges e) [ none ↦ false | some x ↦ p x ]

contains-edges_from :
    (p : GraphEdge → Bool) (i : ℕ) (es : List GraphEdge) (e : ℕ)
    → contains (edges_from p i es) e
      ≡ (leb i e && elim (get_elem? es (e - i)) [ none ↦ false | some x ↦ p x ])
unfolding edges_from contains
contains-edges_from p i [] e = ground arith
contains-edges_from p i (x ∷ es) e = ground (
  arith,
  contains-append (if p x then i ∷ [] else []) (edges_from p (i + 1) es) e,
  contains-edges_from p (i + 1) es e,
  get_elem?-sub_lt x es e i,
  get_elem?-sub_eq x es e i,
)

pub contains-edges_where :
    (p : GraphEdge → Bool) (g : Graph) (e : ℕ) → contains (edges_where p g) e ≡ edge_is g p e
contains-edges_where p g e =
    let same : e - 0 ≡ e = omega arith in ground (arith, contains-edges_from p 0 g.edges e)
