-- ===== src/Deadlock/Components.antt =====
-- What the analysis reports on one strongly connected component.
use mathlib.Core.List.{append-nil}
use mathlib.Core.Bool.{false≢true}
use tourbillon.Base.{
  ℕ, ◌+◌, ◌%◌, ◌≤◌, ◌<◌, String, Bool, true, false, not, ◌&&◌, ◌≡◌, refl, sym, ◌∙◌, ap, ◌≢◌, ◌↔◌,
  ◌⊎◌, inl, inr, List, [], ◌∷◌, ltb, length, ◌==◌, ==_iff, nat_eq, Bool-cases, if◌then◌else◌, arith,
}
use tourbillon.Base.Sets.{contains, contains-append}
use tourbillon.Ir.{QueueEdge, Graph}
use tourbillon.Diagnostics.{Diagnostic}
use tourbillon.Deadlock.{
  edges_where, blocking, edges_into, cycle_edges, process_names, u64_mod, edge_tokens, at_edge,
  total, total_tokens, total_depth, is_empty, is_trivial, check_component, analyze_component,
}
use tourbillon.Deadlock.Edges.{edge_is, contains-edges_where}

module _ (g : Graph) (nb : List ℕ) where
  -- The edge runs from a node of the first list to one of the second and is blocking.
  abbrev pub is_inside : List ℕ → List ℕ → ℕ → Bool
  is_inside from to e =
      edge_is g (λ x. contains from x.source && contains to x.target) e && not (contains nb e)

  contains-blocking :
      (es : List ℕ) (e : ℕ) → contains (blocking g nb es) e ≡ (contains es e && not (contains nb e))
  unfolding blocking contains
  contains-blocking [] e = refl
  contains-blocking (d ∷ es) e = ground (
    arith,
    contains-append (if contains nb d then [] else d ∷ []) (blocking g nb es) e,
    contains-blocking es e,
    ==_iff d e,
  )

  pub contains-cycle_edges :
      (scc nodes : List ℕ) (e : ℕ) → contains (cycle_edges g nb scc nodes) e ≡ is_inside nodes scc e
  unfolding cycle_edges edges_into contains
  contains-cycle_edges scc [] e = ground arith
  contains-cycle_edges scc (n ∷ nodes) e = ground (
    arith,
    contains-append (edges_into g nb scc n) (cycle_edges g nb scc nodes) e,
    contains-blocking (edges_where (λ x. x.source == n && contains scc x.target) g) e,
    contains-edges_where (λ x. x.source == n && contains scc x.target) g e,
    contains-cycle_edges scc nodes e,
  )

-- The sum of a field over edges, without the bound of `u64`.
unfoldable pub sum_over : Graph → (QueueEdge → ℕ) → List ℕ → ℕ
sum_over g f [] = 0
sum_over g f (e ∷ es) = at_edge g f e + sum_over g f es

total-le :
    (g : Graph) (f : QueueEdge → ℕ) (acc : ℕ) (es : List ℕ)
    → total g f acc es ≤ acc + sum_over g f es
unfolding total sum_over
total-le g f acc [] = omega arith
total-le g f acc (e ∷ es) = omega (arith, total-le g f ((acc + at_edge g f e) % u64_mod) es)

-- A sum that fits is exact.
total-exact :
    (g : Graph) (f : QueueEdge → ℕ) (acc : ℕ) (es : List ℕ)
    → acc + sum_over g f es < u64_mod
    → total g f acc es ≡ acc + sum_over g f es
unfolding total sum_over
total-exact g f acc [] h = omega arith
total-exact g f acc (e ∷ es) h =
    let kept : (acc + at_edge g f e) % u64_mod ≡ acc + at_edge g f e = omega arith in
    rw kept (total-exact g f (acc + at_edge g f e) es (omega arith) ∙ omega arith)

is_empty_iff {ℓ} : {A : Type ℓ} (xs : List A) → (is_empty xs ≡ true) ↔ (xs ≡ [])
is_empty_iff [] = (λ _. refl, λ _. refl)
is_empty_iff (x ∷ xs) = (λ h. cc, λ h. cc)

eq-nil_of_contains : (es : List ℕ) → ((e : ℕ) → contains es e ≡ false) → es ≡ []
unfolding contains
eq-nil_of_contains [] h = refl
eq-nil_of_contains (e ∷ es) h = absurd (ground (arith, h e, ==_iff e e))

-- The early skip of a single node agrees with the skip of a component without blocking edges.
is_trivial-cycle_edges :
    (g : Graph) (nb scc : List ℕ) → is_trivial g nb scc ≡ true → cycle_edges g nb scc scc ≡ []
unfolding cycle_edges
is_trivial-cycle_edges g nb [] h = cc
is_trivial-cycle_edges g nb (n ∷ []) h = append-nil _ ∙ (is_empty_iff _).0 h
is_trivial-cycle_edges g nb (n ∷ m ∷ scc) h = cc

check_component_iff :
    (g : Graph) (scc edges : List ℕ) (names : List String)
    → (check_component g scc edges names ≡ [])
      ↔ ((total_tokens g edges ≢ 0) × (length names ≤ total_depth g edges))
unfolding check_component
check_component_iff g scc edges names = (λ h. ground arith, λ (tokens, depth). ground arith)

-- The loop body's guards.
skips_iff :
    (a b c : Bool) (ds : List Diagnostic)
    → ((if a then [] else if b then [] else if c then [] else ds) ≡ [])
      ↔ ((a ≡ true) ⊎ (b ≡ true) ⊎ (c ≡ true) ⊎ (ds ≡ []))
skips_iff a b c ds = (λ h. ground arith, λ h. ground arith)

abbrev pub tokens_of : QueueEdge → ℕ
tokens_of w = edge_tokens w.kind

abbrev pub depth_of : QueueEdge → ℕ
depth_of w = w.depth

module _ (g : Graph) (nb scc : List ℕ) where
  abbrev pub inner_edges : List ℕ
  inner_edges = cycle_edges g nb scc scc

  abbrev pub HasNoInnerEdge : Type 0
  HasNoInnerEdge = (e : ℕ) → is_inside g nb scc scc e ≡ false

  inner_edges-eq-nil : (inner_edges ≡ []) ↔ HasNoInnerEdge
  unfolding contains
  inner_edges-eq-nil = (
    λ h e. sym (contains-cycle_edges g nb scc scc e) ∙ ap (λ es. contains es e) h,
    λ h. eq-nil_of_contains inner_edges (λ e. contains-cycle_edges g nb scc scc e ∙ h e),
  )

  pub analyze_component_iff : (analyze_component g nb scc ≡ []) ↔ (
      HasNoInnerEdge
      ⊎ (process_names g scc ≡ [])
      ⊎ (total_tokens g inner_edges ≢ 0)
        × (length (process_names g scc) ≤ total_depth g inner_edges))
  unfolding analyze_component
  analyze_component_iff = (
    λ h. elim ((skips_iff trivial no_edges no_names found).0 h) [
      | inl skipped ↦ inl (inner_edges-eq-nil.0 (is_trivial-cycle_edges g nb scc skipped))
      | inr (inl skipped) ↦ inl (inner_edges-eq-nil.0 ((is_empty_iff inner_edges).0 skipped))
      | inr (inr (inl skipped)) ↦ inr (inl ((is_empty_iff (process_names g scc)).0 skipped))
      | inr (inr (inr silent)) ↦
          inr (inr ((check_component_iff g scc inner_edges (process_names g scc)).0 silent))
    ],
    λ c. (skips_iff trivial no_edges no_names found).1 (elim c [
      | inl none_inside ↦
          inr (inl ((is_empty_iff inner_edges).1 (inner_edges-eq-nil.1 none_inside)))
      | inr (inl nobody) ↦ inr (inr (inl ((is_empty_iff (process_names g scc)).1 nobody)))
      | inr (inr fine) ↦
          inr (inr (inr ((check_component_iff g scc inner_edges (process_names g scc)).1 fine)))
    ]),
  )
    where
      trivial : Bool
      trivial = is_trivial g nb scc

      no_edges : Bool
      no_edges = is_empty inner_edges

      no_names : Bool
      no_names = is_empty (process_names g scc)

      found : List Diagnostic
      found = check_component g scc inner_edges (process_names g scc)

-- A component is passed in silence exactly when it has no blocking edge within, or no process, or
-- its blocking edges hold a token in sum and have together at least the depth of the number of its
-- processes. (The sums stay below 2^64.)
pub analyze_component_exact :
    (g : Graph) (nb scc : List ℕ)
    → sum_over g tokens_of (inner_edges g nb scc) < u64_mod
    → sum_over g depth_of (inner_edges g nb scc) < u64_mod
    → (analyze_component g nb scc ≡ []) ↔ (
        HasNoInnerEdge g nb scc
        ⊎ (process_names g scc ≡ [])
        ⊎ (0 < sum_over g tokens_of (inner_edges g nb scc))
          × (length (process_names g scc) ≤ sum_over g depth_of (inner_edges g nb scc)))
unfolding total_tokens total_depth
analyze_component_exact g nb scc small_tokens small_depth =
    let tokens : total_tokens g (inner_edges g nb scc)
        ≡ sum_over g tokens_of (inner_edges g nb scc) =
      total-exact g tokens_of 0 (inner_edges g nb scc) (omega arith) ∙ omega arith in
    let depth : total_depth g (inner_edges g nb scc) ≡ sum_over g depth_of (inner_edges g nb scc) =
      total-exact g depth_of 0 (inner_edges g nb scc) (omega arith) ∙ omega arith in
    let i = analyze_component_iff g nb scc in
    (
      λ h. elim (i.0 h) [
        | inl c ↦ inl c
        | inr (inl c) ↦ inr (inl c)
        | inr (inr (t, d)) ↦ inr (inr (omega arith, omega arith))
      ],
      λ c. i.1 (elim c [
        | inl c ↦ inl c
        | inr (inl c) ↦ inr (inl c)
        | inr (inr (t, d)) ↦ inr (inr (omega arith, omega arith))
      ]),
    )

-- A positive sum has a positive part.
some_positive :
    (g : Graph) (f : QueueEdge → ℕ) (es : List ℕ)
    → 0 < sum_over g f es
    → (e : ℕ) × (contains es e ≡ true) × (0 < at_edge g f e)
unfolding sum_over contains
some_positive g f [] h = absurd (omega arith)
some_positive g f (e ∷ es) h = elim (Bool-cases (ltb 0 (at_edge g f e))) [
  | inl positive ↦ (e, ground (arith, ==_iff e e), ground arith)
  | inr nothing ↦
      let (d, member, positive) = some_positive g f es (ground arith) in (d, ground arith, positive)
]

-- If a component with a blocking edge within and a process is passed in silence, then some
-- blocking edge within it holds a token, and its blocking edges have together at least the depth of
-- the number of its processes. No bound on the sums is needed.
pub analyze_component_sound :
    (g : Graph) (nb scc : List ℕ) (e : ℕ)
    → analyze_component g nb scc ≡ []
    → is_inside g nb scc scc e ≡ true
    → process_names g scc ≢ []
    → ((d : ℕ) × (is_inside g nb scc scc d ≡ true) × (0 < at_edge g tokens_of d))
      × (length (process_names g scc) ≤ sum_over g depth_of (inner_edges g nb scc))
unfolding total_tokens total_depth
analyze_component_sound g nb scc e h inside someone = elim ((analyze_component_iff g nb scc).0 h) [
  | inl c ↦ absurd (false≢true (sym (c e) ∙ inside))
  | inr (inl c) ↦ absurd (someone c)
  | inr (inr (t, d)) ↦
      let (x, member, positive) =
        some_positive g tokens_of (inner_edges g nb scc)
          (omega (arith, total-le g tokens_of 0 (inner_edges g nb scc))) in
      (
        (x, sym (contains-cycle_edges g nb scc scc x) ∙ member, positive),
        omega (arith, total-le g depth_of 0 (inner_edges g nb scc)),
      )
]
