-- ===== src/Elaborate/Writers.antt =====
-- The writers and readers of queues, in phase 3b of `elaborate_pipe_inner` of src/elaborate.rs.
use tourbillon.Base.{
  ℕ, ◌+◌, ◌≤◌, String, Bool, true, false, Option, none, some, List, [], ◌∷◌, ◌≡◌, refl, ◌∙◌, arith,
  ◌==◌, ==_iff, string_eq, if◌then◌else◌, Bool-cases, inl, inr, subst,
}
use tourbillon.Base.Dict
use tourbillon.Base.Dict.{Dict, lookup-insert}
use tourbillon.Ast.{Span, PortKind, Port, Process}
use tourbillon.Ast.Items.{PortBinding}
use tourbillon.Ir.{QueueEdge}
use tourbillon.Elaborate.{PendingEdge, Elaboration, fail, parse_dotted_target, find_port}
use tourbillon.Elaborate.Queues.{insert_pending}
use tourbillon.Elaborate.Wiring.{first_end}
use tourbillon.Diagnostics.{Message, Pass, ◌▸◌, ▸-state}

-- 1 for an end that is recorded.
abbrev pub filled : Option (String × Span) → ℕ
filled none = 0
filled (some _) = 1

pub filled-le : (o : Option (String × Span)) → filled o ≤ 1
filled-le none = omega arith
filled-le (some _) = omega arith

-- The writer, or else the reader.
abbrev pub end_of : (writing : Bool) → PendingEdge → Option (String × Span)
end_of true p = p.writer
end_of false p = p.reader

-- How many ends of a side a port of a kind is.
abbrev pub ends : (writing : Bool) → PortKind → ℕ
ends true PortKind.produces = 1
ends false PortKind.consumes = 1
ends _ _ = 0

abbrev pub filled_in : (writing : Bool) → Option PendingEdge → ℕ
filled_in writing none = 0
filled_in writing (some p) = filled (end_of writing p)

pub writer_more :
    (writing : Bool) (p : PendingEdge) (e : String × Span)
    → p.writer ≡ none
    → filled (end_of writing p) + ends writing PortKind.produces
      ≤ filled (end_of writing (record p { writer = some e }))
writer_more true p e h = rw h (omega arith)
writer_more false p e h = omega arith

pub reader_more :
    (writing : Bool) (p : PendingEdge) (e : String × Span)
    → p.reader ≡ none
    → filled (end_of writing p) + ends writing PortKind.consumes
      ≤ filled (end_of writing (record p { reader = some e }))
reader_more true p e h = omega arith
reader_more false p e h = rw h (omega arith)

first_end-le :
    (processes : Dict String Process) (name : String) (node_idx : ℕ) (o : Option (String × Span))
    (sp : Span)
    → filled o ≤ filled (first_end processes name node_idx o sp)
first_end-le processes name node_idx none sp = omega arith
first_end-le processes name node_idx (some e) sp = omega arith

pub state_more :
    (processes : Dict String Process) (name : String) (node_idx : ℕ) (writing : Bool)
    (p : PendingEdge) (sp : Span)
    → filled (end_of writing p) + ends writing PortKind.state
      ≤ filled (
          end_of writing (record p {
            writer = first_end processes name node_idx p.writer sp;
            reader = first_end processes name node_idx p.reader sp;
          }))
state_more processes name node_idx true p sp =
    omega (arith, first_end-le processes name node_idx p.writer sp)
state_more processes name node_idx false p sp =
    omega (arith, first_end-le processes name node_idx p.reader sp)

pub peeks_more :
    (writing : Bool) (p : PendingEdge) (edge : QueueEdge)
    → filled (end_of writing p) + ends writing PortKind.peeks
      ≤ filled (end_of writing (record p { edge_data = edge }))
peeks_more true p edge = omega arith
peeks_more false p edge = omega arith

pub no_ends : (writing c : Bool) → (if c then ends writing PortKind.peeks else 0) ≡ 0
no_ends true true = refl
no_ends false true = refl
no_ends writing false = refl

filled_in-le : (writing : Bool) (o : Option PendingEdge) → filled_in writing o ≤ 1
filled_in-le writing none = omega arith
filled_in-le writing (some p) = filled-le (end_of writing p)

module _ (writing : Bool) (q : String) where
  abbrev pub filled_at : Elaboration → ℕ
  filled_at s = filled_in writing (Dict.lookup q s.pending_edges)

  pub filled_at-le : (s : Elaboration) → filled_at s ≤ 1
  filled_at-le s = filled_in-le writing (Dict.lookup q s.pending_edges)

  -- A part of the wiring that makes `n` ends of the queue, if it meets no error.
  abbrev pub Grows : ℕ → (s t : Elaboration) → Type 0
  Grows n s t =
      (t.had_error ≡ false → (s.had_error ≡ false) × (filled_at s + n ≤ filled_at t))
      × (t.instances ≡ s.instances)

  pub ▸-Grows :
      (f g : Pass Elaboration) (m n : ℕ) (s : Elaboration)
      → Grows m s (f s).0
      → Grows n (f s).0 (g (f s).0).0
      → Grows (m + n) s ((f ▸ g) s).0
  ▸-Grows f g m n s (a, e) (b, d) = rw (▸-state f g s) (
    (λ clean. let (before, more) = b clean in let (first, less) = a before in (first, omega arith)),
    d ∙ e,
  )

  pub ▸-Grows_0 :
      (f g : Pass Elaboration) (m : ℕ) (s : Elaboration)
      → Grows m s (f s).0
      → Grows 0 (f s).0 (g (f s).0).0
      → Grows m s ((f ▸ g) s).0
  ▸-Grows_0 f g m s (a, e) (b, d) = rw (▸-state f g s) (
    (λ clean. let (before, more) = b clean in let (first, less) = a before in (first, omega arith)),
    d ∙ e,
  )

  pub fail-Grows : (n : ℕ) (sp : Span) (m : Message) (s : Elaboration) → Grows n s (fail sp m s).0
  unfolding fail
  fail-Grows n sp m s = ((λ clean. cc), refl)

  pub insert_pending-Grows :
      (target : String) (p p' : PendingEdge) (n : ℕ) (s : Elaboration)
      → Dict.lookup target s.pending_edges ≡ some p
      → filled (end_of writing p) + n ≤ filled (end_of writing p')
      → Grows (if target == q then n else 0) s (insert_pending target p' s).0
  unfolding insert_pending
  insert_pending-Grows target p p' n s found more = elim (Bool-cases (target == q)) [
    | inl e ↦
        let same : target ≡ q = (==_iff target q).0 e in
        let here : Dict.lookup q s.pending_edges ≡ some p =
          subst (λ x. Dict.lookup x s.pending_edges ≡ some p) same found in
        rw (lookup-insert target q p' s.pending_edges, e, here) ((λ clean. (clean, more)), refl)
    | inr e ↦
        rw (lookup-insert target q p' s.pending_edges, e) ((λ clean. (clean, omega arith)), refl)
  ]

  -- How many ends of the queue a binding makes.
  abbrev pub target_ends : PortBinding → Port → Option (String × String) → ℕ
  target_ends b p none = if b.target.node == q then ends writing p.kind else 0
  target_ends b p (some _) = 0

  abbrev pub port_ends : PortBinding → Option Port → ℕ
  port_ends b none = 0
  port_ends b (some p) = target_ends b p (parse_dotted_target b.target.node)

  abbrev pub bindings_ends : Process → List PortBinding → ℕ
  bindings_ends proc_def [] = 0
  bindings_ends proc_def (b ∷ bindings) =
      port_ends b (find_port b.port.node proc_def.ports) + bindings_ends proc_def bindings
