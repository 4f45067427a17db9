-- ===== src/Types/Linearity/Steps.antt =====
-- The check of expressions and of puts follows their accesses.
use mathlib.Core.List.{append-nil}
use tourbillon.Base.{
  and-eq-true, String, true, ◌≡◌, refl, inl, inr, List, [], ◌∷◌, ◌++◌, Option, none, some, ◌==◌,
  ==_iff, string_eq, if◌then◌else◌, Bool-cases, arith,
}
use tourbillon.Base.Dict.{lookup, insert, lookup-insert}
use tourbillon.Ast.{Span, Spanned, Expr, Exprs}
use tourbillon.Ast.Accesses.{Access, expr_accesses, exprs_accesses}
use tourbillon.Diagnostics.{Pass, ▸-eq-nil, ▸-state, ◌▸◌}
use tourbillon.Types.Linearity.{
  CellState, States, take_from, put_to, check_expr_linearity, check_exprs_linearity,
}
use tourbillon.Types.Linearity.Moves.{
  Move, moves, moves-is_quiet, expr_is_visible, exprs_are_visible, history, Follows, Follows-trans,
  Follows-refl,
}

module _ (c : String) where
  -- One move on the cell `q` that the state map records.
  insert-Follows :
      (q : String) (s : States) (π : List Access) (m : Move) (a b : CellState)
      → lookup q s ≡ some a
      → history a ++ m ∷ [] ≡ history b
      → moves c π ≡ (if q == c then m ∷ [] else [])
      → Follows c s (insert q b s) π
  insert-Follows q s π m a b e grows moved = record {
    advance = λ a' k. elim (Bool-cases (q == c)) [
      | inl same ↦ (b, rw (lookup-insert q c b s, same), ground (arith, ==_iff q c))
      | inr other ↦
          (a', rw (lookup-insert q c b s, other) k, rw (moved, other) (append-nil (history a')))
    ];
  }

  -- A cell that the map does not hold is another one than `c`.
  absent-Follows :
      (q : String) (s : States) (π : List Access) (m : Move)
      → lookup q s ≡ none
      → moves c π ≡ (if q == c then m ∷ [] else [])
      → Follows c s s π
  absent-Follows q s π m e moved = record {
    advance = λ a' k. elim (Bool-cases (q == c)) [
      | inl same ↦ absurd (ground (arith, ==_iff q c))
      | inr other ↦ (a', k, rw (moved, other) (append-nil (history a')))
    ];
  }

  take_from-Follows :
      (q : String) (sp : Span) (s : States) (π : List Access) (o : Option CellState)
      → lookup q s ≡ o
      → moves c π ≡ (if q == c then Move.taking ∷ [] else [])
      → (take_from o q sp s).1 ≡ []
      → Follows c s (take_from o q sp s).0 π
  unfolding take_from
  take_from-Follows q sp s π none e moved h = absent-Follows q s π Move.taking e moved
  take_from-Follows q sp s π (some CellState.untouched) e moved h =
      insert-Follows q s π Move.taking CellState.untouched CellState.taken e refl moved
  take_from-Follows q sp s π (some CellState.taken) e moved h = cc
  take_from-Follows q sp s π (some CellState.put) e moved h = cc

  pub put_to-Follows :
      (target : Spanned String) (s : States) (o : Option CellState)
      → lookup target.node s ≡ o
      → (put_to o target s).1 ≡ []
      → Follows c s (put_to o target s).0 (Access.put target.node ∷ [])
  unfolding put_to moves
  put_to-Follows target s none e h = absent-Follows target.node s _ Move.putting e refl
  put_to-Follows target s (some CellState.untouched) e h = cc
  put_to-Follows target s (some CellState.taken) e h =
      insert-Follows target.node s _ Move.putting CellState.taken CellState.put e refl refl
  put_to-Follows target s (some CellState.put) e h = cc

  -- The composition of two passes that follow their accesses.
  pub ▸-Follows :
      (f g : Pass States) (s : States) (π ρ : List Access)
      → (((f s).1 ≡ []) → Follows c s (f s).0 π)
      → (((g (f s).0).1 ≡ []) → Follows c (f s).0 (g (f s).0).0 ρ)
      → ((f ▸ g) s).1 ≡ []
      → Follows c s ((f ▸ g) s).0 (π ++ ρ)
  ▸-Follows f g s π ρ first second h =
      let (hf, hg) = ▸-eq-nil f g s h in rw (▸-state f g s) (Follows-trans (first hf) (second hg))

  mutual
    unfolding check_expr_linearity expr_accesses expr_is_visible moves

    pub expr-Follows :
        (e : Expr) (s : States)
        → expr_is_visible e ≡ true
        → (check_expr_linearity e s).1 ≡ []
        → Follows c s (check_expr_linearity e s).0 (expr_accesses e)
    expr-Follows (Expr.take q sp) s v h = take_from-Follows q sp s _ (lookup q s) refl refl h
    expr-Follows (Expr.try_take q sp) s v h = take_from-Follows q sp s _ (lookup q s) refl refl h
    expr-Follows (Expr.bin_op op l r sp) s v h =
        let (vl, vr) = and-eq-true (expr_is_visible l) (expr_is_visible r) v in
        ▸-Follows (check_expr_linearity l) (check_expr_linearity r) s (expr_accesses l)
          (expr_accesses r) (expr-Follows l s vl) (expr-Follows r _ vr) h
    expr-Follows (Expr.unary_op op e sp) s v h = expr-Follows e s v h
    expr-Follows (Expr.call f es sp) s v h = exprs-Follows es s v h
    expr-Follows (Expr.tuple es sp) s v h = exprs-Follows es s v h
    expr-Follows (Expr.lit l sp) s v h = Follows-refl s [] refl
    expr-Follows (Expr.variable x sp) s v h = Follows-refl s [] refl
    expr-Follows (Expr.peek q sp) s v h = Follows-refl s _ refl
    expr-Follows (Expr.method_call r m es sp) s v h = Follows-refl s [] refl
    expr-Follows (Expr.field_access e x sp) s v h = Follows-refl s _ (moves-is_quiet c _ v)
    expr-Follows (Expr.index e i sp) s v h = Follows-refl s _ (moves-is_quiet c _ v)
    expr-Follows (Expr.update e i x sp) s v h = Follows-refl s _ (moves-is_quiet c _ v)
    expr-Follows (Expr.construct x fs sp) s v h = Follows-refl s _ (moves-is_quiet c _ v)
    expr-Follows (Expr.bit_slice e hi lo sp) s v h = Follows-refl s _ (moves-is_quiet c _ v)

    exprs-Follows :
        (es : Exprs) (s : States)
        → exprs_are_visible es ≡ true
        → (check_exprs_linearity es s).1 ≡ []
        → Follows c s (check_exprs_linearity es s).0 (exprs_accesses es)
    exprs-Follows Exprs.none_left s v h = Follows-refl s [] refl
    exprs-Follows (Exprs.expr e es) s v h =
        let (ve, ves) = and-eq-true (expr_is_visible e) (exprs_are_visible es) v in
        ▸-Follows (check_expr_linearity e) (check_exprs_linearity es) s (expr_accesses e)
          (exprs_accesses es) (expr-Follows e s ve) (exprs-Follows es _ ves) h
