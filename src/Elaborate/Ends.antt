-- ===== src/Elaborate/Ends.antt =====
-- The last checks of `elaborate_pipe_inner` of src/elaborate.rs: the ends of the queues of a pipe
-- that is wired without an error, and the domains of its edges.
use Prim.Native.Char.{code}
use tourbillon.Base.{
  ℕ, zero, suc, List, ◌⊎◌, inl, inr, subst, get_elem?, Bool-cases, ◌==◌, ==_iff, nat_eq, String,
  Bool, true, false, ◌&&◌, Option, none, some, [], ◌∷◌, ◌≡◌, refl, sym, ◌∙◌, ap, arith, All,
  string_eq,
}
use tourbillon.Base.Dict.{Dict}
use tourbillon.Ast.{Span, Process}
use tourbillon.Ast.Items.{Pipe}
use tourbillon.Types.Env.{TypeEnv}
use tourbillon.Elaborate.{PendingEdge, Elaboration, fail, parse_dotted_target}
use tourbillon.Elaborate.Queues.{create_self_loops}
use tourbillon.Elaborate.Wiring.{wire_instances}
use tourbillon.Elaborate.Edges.{bind_deferred, is_external_queue}
use tourbillon.Ir.{QueueEdgeKind}
use tourbillon.Desugar.Ports.{split_dot}
use tourbillon.Elaborate.Checks.{fail_if, is_none, needs_ends, check_bound, check_ends}
use tourbillon.Elaborate.Pipes.{create_edges, wire}
use tourbillon.Elaborate.Writers.{filled}
use tourbillon.Diagnostics.{Message, ◌▸◌, no_writer, no_reader}

fail_if-clean :
    (b : Bool) (sp : Span) (m : Message) (s : Elaboration)
    → (fail_if b sp m s).0.had_error ≡ false
    → (b ≡ false) × ((fail_if b sp m s).0 ≡ s)
unfolding fail
fail_if-clean true sp m s h = absurd (cc)
fail_if-clean false sp m s h = (refl, refl)

-- An entry that needs its ends has them.
abbrev HasEnds : (allow_dangling : Bool) → String × PendingEdge → Type 0
HasEnds allow_dangling (queue_name, p) =
    needs_ends allow_dangling (queue_name, p) ≡ true → (filled p.writer ≡ 1) × (filled p.reader ≡ 1)

not_none :
    (o : Option (String × Span)) (b : Bool) → (b && is_none o) ≡ false → b ≡ true → filled o ≡ 1
not_none (some _) b h e = refl
not_none none b h e = absurd (ground arith)

check_ends-HasEnds :
    (allow_dangling : Bool) (entries : Dict String PendingEdge) (s : Elaboration)
    → (check_ends allow_dangling entries s).0.had_error ≡ false
    → All (HasEnds allow_dangling) entries × ((check_ends allow_dangling entries s).0 ≡ s)
unfolding check_ends ◌▸◌
check_ends-HasEnds allow_dangling [] s h = (tt, refl)
check_ends-HasEnds allow_dangling ((queue_name, p) ∷ entries) s h =
    let needed = needs_ends allow_dangling (queue_name, p) in
    let first = fail_if (needed && is_none p.writer) p.decl_span (no_writer queue_name) in
    let second = fail_if (needed && is_none p.reader) p.decl_span (no_reader queue_name) in
    let (rest, last) = check_ends-HasEnds allow_dangling entries (second (first s).0).0 h in
    let (reader, middle) =
      fail_if-clean (needed && is_none p.reader) p.decl_span (no_reader queue_name) (first s).0
        (ap (λ t. t.had_error) (sym last) ∙ h) in
    let (writer, start) =
      fail_if-clean (needed && is_none p.writer) p.decl_span (no_writer queue_name) s
        (ap (λ t. t.had_error) (sym middle) ∙ ap (λ t. t.had_error) (sym last) ∙ h) in
    (
      ((λ e. (not_none p.writer needed writer e, not_none p.reader needed reader e)), rest),
      last ∙ middle ∙ start,
    )

wire-HasEnds :
    (env : TypeEnv) (pipe : Pipe) (allow_dangling : Bool) (processes : Dict String Process)
    (s : Elaboration)
    → (wire env pipe allow_dangling processes s).0.had_error ≡ false
    → All (HasEnds allow_dangling) (wire env pipe allow_dangling processes s).0.pending_edges
unfolding wire ◌▸◌
wire-HasEnds env pipe allow_dangling processes s h =
    let loops = (create_self_loops env processes pipe.instances s).0 in
    let wired = (wire_instances env processes pipe.instances loops).0 in
    let created = create_edges env pipe allow_dangling wired in
    let bound = (bind_deferred pipe.instances created).0 in
    let t = (check_bound pipe.instances bound).0 in
    let (have, same) = check_ends-HasEnds allow_dangling t.pending_edges t h in rw same have

-- A dot stands in the name, as in the name of a self-loop.
abbrev pub HasDot : String → Type 0
HasDot String.[] = ⊥
HasDot (String.◌∷◌ c s) = (code c ≡ b'.') ⊎ HasDot s

abbrev pub IsExternal : QueueEdgeKind → Type 0
IsExternal (QueueEdgeKind.queue _ true) = Unit
IsExternal _ = ⊥

split_dot-none : (s : String) → ¬ HasDot s → split_dot s ≡ none
unfolding split_dot
split_dot-none String.[] plain = refl
split_dot-none (String.◌∷◌ c s) plain =
    let rest = split_dot-none s (λ dot. plain (inr dot)) in
    elim (Bool-cases (code c == b'.')) [
      | inl e ↦ absurd (plain (inl ((==_iff (code c) b'.').0 e)))
      | inr e ↦ rw (e, rest) refl
    ]

is_external_queue-false :
    (kind : QueueEdgeKind) → ¬ IsExternal kind → is_external_queue kind ≡ false
is_external_queue-false (QueueEdgeKind.queue _ true) h = absurd (h tt)
is_external_queue-false (QueueEdgeKind.queue _ false) h = refl
is_external_queue-false (QueueEdgeKind.cell _ _) h = refl
is_external_queue-false QueueEdgeKind.async_queue h = refl

needs_ends-true :
    (queue_name : String) (p : PendingEdge)
    → ¬ HasDot queue_name
    → ¬ IsExternal p.edge_data.kind
    → needs_ends false (queue_name, p) ≡ true
unfolding needs_ends parse_dotted_target
needs_ends-true queue_name p plain inner =
    rw (split_dot-none queue_name plain, is_external_queue-false p.edge_data.kind inner) refl

All-at {ℓ} :
    {A : Type ℓ} (P : A → Type 0) (xs : List A) (k : ℕ) (x : A)
    → All P xs
    → get_elem? xs k ≡ some x
    → P x
All-at P [] k x all h = absurd (cc)
All-at P (y ∷ ys) zero x (here, _) h = let same : y ≡ x = cc in subst P same here
All-at P (y ∷ ys) (suc k) x (_, later) h = All-at P ys k x later h

-- When the phases of a pipe that is no child of another, from the self-loops on, meet no error, then
-- each of its queues that is not external, with a name without a dot, has a writer and a reader.
pub wire-ends :
    (env : TypeEnv) (pipe : Pipe) (processes : Dict String Process) (s : Elaboration) (k : ℕ)
    (queue_name : String) (p : PendingEdge)
    → (wire env pipe false processes s).0.had_error ≡ false
    → get_elem? (wire env pipe false processes s).0.pending_edges k ≡ some (queue_name, p)
    → ¬ HasDot queue_name
    → ¬ IsExternal p.edge_data.kind
    → (filled p.writer ≡ 1) × (filled p.reader ≡ 1)
wire-ends env pipe processes s k queue_name p clean at_k plain inner =
    All-at (HasEnds false) (wire env pipe false processes s).0.pending_edges k (queue_name, p)
      (wire-HasEnds env pipe false processes s clean) at_k
      (needs_ends-true queue_name p plain inner)
