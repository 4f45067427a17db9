-- ===== src/Deadlock/SharedTokens.antt =====
-- The tokens of a component are counted in one sum (src/deadlock.rs), so that a token on one cycle
-- of the component serves another cycle, too.
use mathlib.Core.List.{append-nil}
use tourbillon.Base.{
  ℕ, zero, suc, ◌∙◌, ◌+◌, ◌<◌, String, true, false, ◌≡◌, refl, List, [], ◌∷◌, none, some, inr,
  arith, nat_eq, string_eq,
}
use tourbillon.Base.Dict
use tourbillon.Base.Dict.{lookup}
use tourbillon.Base.Sets.{contains, insert, remove}
use tourbillon.Ast.{Span, Spanned, Expr, Stmt, Stmts, Rule, Pattern, PortKind}
use tourbillon.Types.Ty.{Ty}
use tourbillon.Ir.{QueueEdgeKind, ResolvedPort, GraphEdge, Graph}
use tourbillon.Schedule.{
  ProcessSchedule, schedule, note_take, note_put, collect_stmts_resources, collect_expr_resources,
}
use tourbillon.Deadlock.{
  classify_non_blocking_edges, edges_from, cycle_edges, process_names, blocking, at_edge, analyze,
  analyze_component, u64_mod,
}
use tourbillon.Deadlock.Cycles.{Reach, here, step, FindsComponents}
use tourbillon.Deadlock.Components.{
  tokens_of, depth_of, sum_over, inner_edges, analyze_component_exact,
}

abbrev sp : Span
sp = record { from = 0; to = 1 }

abbrev at : String → Spanned String
at s = record { node = s; span = sp }

abbrev port : String → PortKind → ℕ → ResolvedPort
port s k e = record { name = s; kind = k; ty = Ty.queue (Ty.bits 32) none; bound_to = some e }

-- let x = input.take(); output.put(x)
abbrev forward : Stmts → Rule
forward rest = record {
  name = at "forward";
  body =
      Stmts.stmt (Stmt.let_ (Pattern.bind "x" sp) (Expr.take "input" sp) sp)
        (Stmts.stmt (Stmt.put (at "output") (Expr.variable "x" sp) sp) rest);
}

-- let s = state.take(); state.put(s)
abbrev touch_state : Stmts
touch_state =
    Stmts.stmt (Stmt.let_ (Pattern.bind "s" sp) (Expr.take "state" sp) sp)
      (Stmts.stmt (Stmt.put (at "state") (Expr.variable "s" sp) sp) Stmts.done)

abbrev edge : ℕ → ℕ → String → ℕ → QueueEdgeKind → GraphEdge
edge s t name depth kind = record {
  source = s;
  target = t;
  weight = record { name = name; elem_ty = Ty.bits 32; depth = depth; kind = kind; span = sp };
}

-- Two processes in a cycle of two empty queues, of any depths, where the first keeps a state cell
-- with any initial value.
abbrev pub empty_cycle : (depth_ab depth_ba init : ℕ) → Graph
empty_cycle depth_ab depth_ba init = record {
  nodes =
      record {
        instance_name = "A";
        process_name = "A";
        rules = forward touch_state ∷ [];
        ports =
            port "input" PortKind.consumes 1
            ∷ port "output" PortKind.produces 0
            ∷ port "state" PortKind.state 2
            ∷ [];
        span = sp;
        is_memory_stub = false;
      }
      ∷ record {
        instance_name = "B";
        process_name = "B";
        rules = forward Stmts.done ∷ [];
        ports = port "input" PortKind.consumes 0 ∷ port "output" PortKind.produces 1 ∷ [];
        span = sp;
        is_memory_stub = false;
      }
      ∷ [];
  edges =
      edge 0 1 "ab" depth_ab (QueueEdgeKind.queue 0 false)
      ∷ edge 1 0 "ba" depth_ba (QueueEdgeKind.queue 0 false)
      ∷ edge 0 0 "A.state" 1 (QueueEdgeKind.cell [] (some init))
      ∷ [];
}

abbrev pub whole : Graph → List (List ℕ)
whole _ = (0 ∷ 1 ∷ []) ∷ []

module _ (depth_ab depth_ba init : ℕ) where
  pub empty_cycle-blocking :
      classify_non_blocking_edges
        (empty_cycle depth_ab depth_ba init)
        (schedule (empty_cycle depth_ab depth_ba init))
      ≡ []
  unfolding classify_non_blocking_edges schedule lookup insert Dict.insert contains remove
      collect_stmts_resources collect_expr_resources note_put note_take
  empty_cycle-blocking = refl

  pub empty_cycle_sums :
      (sum_over
          (empty_cycle depth_ab depth_ba init)
          tokens_of
          (inner_edges (empty_cycle depth_ab depth_ba init) [] (0 ∷ 1 ∷ []))
        ≡ 1)
      × (sum_over
            (empty_cycle depth_ab depth_ba init)
            depth_of
            (inner_edges (empty_cycle depth_ab depth_ba init) [] (0 ∷ 1 ∷ []))
          ≡ depth_ab + (1 + (depth_ba + 0)))
      × (process_names (empty_cycle depth_ab depth_ba init) (0 ∷ 1 ∷ []) ≡ "A" ∷ "B" ∷ [])
  unfolding sum_over cycle_edges edges_from blocking contains process_names
  empty_cycle_sums = (refl, refl, refl)

-- Every path of the graph stays in its two nodes.
Reach-below :
    (depth_ab depth_ba init a b : ℕ)
    → a < 2
    → Reach (empty_cycle depth_ab depth_ba init) a b
    → b < 2
Reach-below ab ba init a b h here = h
Reach-below ab ba init a b h (step zero x r e s) = ground arith
Reach-below ab ba init a b h (step (suc zero) x r e s) = ground arith
Reach-below ab ba init a b h (step (suc (suc zero)) x r e s) = ground arith
Reach-below ab ba init a b h (step (suc (suc (suc n))) x r e s) = cc

contains-whole : (n : ℕ) → n < 2 → contains (0 ∷ 1 ∷ []) n ≡ true
unfolding contains
contains-whole n h = ground arith

pub empty_cycle-FindsComponents :
    (depth_ab depth_ba init : ℕ) → FindsComponents whole (empty_cycle depth_ab depth_ba init)
empty_cycle-FindsComponents ab ba init a b h there back =
    (0, 0 ∷ 1 ∷ [], refl, contains-whole a h, contains-whole b (Reach-below ab ba init a b h there))

analyze-whole :
    (g : Graph) (ss : List ProcessSchedule)
    → analyze_component g (classify_non_blocking_edges g ss) (0 ∷ 1 ∷ []) ≡ []
    → analyze whole g ss ≡ []
unfolding analyze
analyze-whole g ss h = append-nil _ ∙ h

pub empty_cycle_component :
    (depth_ab depth_ba init : ℕ)
    → 0 < depth_ab + depth_ba
    → depth_ab + depth_ba + 1 < u64_mod
    → analyze_component (empty_cycle depth_ab depth_ba init) [] (0 ∷ 1 ∷ []) ≡ []
empty_cycle_component ab ba init some_depth fits =
    let g = empty_cycle ab ba init in
    let (tokens, depth, names) = empty_cycle_sums ab ba init in
    (analyze_component_exact g [] (0 ∷ 1 ∷ []) (omega arith) (omega arith)).1
      (inr (inr (omega arith, rw (names, depth) (omega arith))))

-- For all depths (that sum up in 64 bits) and every initial value of the state cell, the analysis
-- of this graph is silent, although both of its queues are blocking, form a cycle and hold no
-- token.
pub empty_cycle_passes :
    (depth_ab depth_ba init : ℕ)
    → 0 < depth_ab + depth_ba
    → depth_ab + depth_ba + 1 < u64_mod
    → (analyze whole
          (empty_cycle depth_ab depth_ba init)
          (schedule (empty_cycle depth_ab depth_ba init))
        ≡ [])
      × (contains
            (classify_non_blocking_edges
              (empty_cycle depth_ab depth_ba init)
              (schedule (empty_cycle depth_ab depth_ba init)))
            0
          ≡ false)
      × (contains
            (classify_non_blocking_edges
              (empty_cycle depth_ab depth_ba init)
              (schedule (empty_cycle depth_ab depth_ba init)))
            1
          ≡ false)
      × (at_edge (empty_cycle depth_ab depth_ba init) tokens_of 0 ≡ 0)
      × (at_edge (empty_cycle depth_ab depth_ba init) tokens_of 1 ≡ 0)
unfolding contains
empty_cycle_passes ab ba init some_depth fits =
    let nb = empty_cycle-blocking ab ba init in
    (
      analyze-whole (empty_cycle ab ba init) _
          (rw nb (empty_cycle_component ab ba init some_depth fits)),
      rw nb refl,
      rw nb refl,
      refl,
      refl,
    )
