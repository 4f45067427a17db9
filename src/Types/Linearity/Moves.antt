-- ===== src/Types/Linearity/Moves.antt =====
-- What a sequence of queue accesses does to one cell, and what a cell's checked state records.
use tourbillon.Base.{
  String, Bool, true, false, ◌&&◌, ◌≡◌, refl, ap, sym, ◌∙◌, ◌⊎◌, List, [], ◌∷◌, ◌++◌, some, ◌==◌,
  string_eq, if◌then◌else◌, arith,
}
use tourbillon.Base.Dict.{lookup}
use tourbillon.Ast.{Expr, Exprs, Stmt, Stmts, Arms}
use tourbillon.Ast.Accesses.{Access, expr_accesses, fields_accesses}
use tourbillon.Types.Linearity.{CellState, States}
use mathlib.Core.List.{append_assoc, append-nil}

pub data Move : Type 0 where
  taking putting : Move

-- The moves that the accesses make on one cell, in order.
unfoldable pub moves : String → List Access → List Move
moves c [] = []
moves c (Access.take q ∷ π) = if q == c then Move.taking ∷ moves c π else moves c π
moves c (Access.try_take q ∷ π) = if q == c then Move.taking ∷ moves c π else moves c π
moves c (Access.peek q ∷ π) = moves c π
moves c (Access.put q ∷ π) = if q == c then Move.putting ∷ moves c π else moves c π

-- The discipline: the cell is left alone, or taken once and then put back once.
abbrev pub IsLinear : List Move → Type 0
IsLinear ms = (ms ≡ []) ⊎ (ms ≡ Move.taking ∷ Move.putting ∷ [])

-- Nothing is taken or put.
unfoldable pub is_quiet : List Access → Bool
is_quiet [] = true
is_quiet (Access.peek q ∷ π) = is_quiet π
is_quiet (_ ∷ π) = false

-- No queue is taken under a construct that the check does not look into: a field access, an index,
-- an update, a record construction or a bit slice.
unfoldable mutual
  pub expr_is_visible : Expr → Bool
  expr_is_visible (Expr.field_access e _ _) = is_quiet (expr_accesses e)
  expr_is_visible (Expr.index e i _) = is_quiet (expr_accesses e ++ expr_accesses i)
  expr_is_visible (Expr.update e i v _) =
      is_quiet (expr_accesses e ++ (expr_accesses i ++ expr_accesses v))
  expr_is_visible (Expr.construct _ fs _) = is_quiet (fields_accesses fs)
  expr_is_visible (Expr.bit_slice e _ _ _) = is_quiet (expr_accesses e)
  expr_is_visible (Expr.tuple es _) = exprs_are_visible es
  expr_is_visible (Expr.call _ es _) = exprs_are_visible es
  expr_is_visible (Expr.bin_op _ l r _) = expr_is_visible l && expr_is_visible r
  expr_is_visible (Expr.unary_op _ e _) = expr_is_visible e
  expr_is_visible _ = true

  pub exprs_are_visible : Exprs → Bool
  exprs_are_visible Exprs.none_left = true
  exprs_are_visible (Exprs.expr e es) = expr_is_visible e && exprs_are_visible es

unfoldable mutual
  pub stmt_is_visible : Stmt → Bool
  stmt_is_visible (Stmt.let_ _ e _) = expr_is_visible e
  stmt_is_visible (Stmt.put _ e _) = expr_is_visible e
  stmt_is_visible (Stmt.expr e _) = expr_is_visible e
  stmt_is_visible (Stmt.match_ e arms _) = expr_is_visible e && arms_are_visible arms
  stmt_is_visible (Stmt.if_ c t f _) =
      expr_is_visible c && (stmts_are_visible t && stmts_are_visible f)

  pub stmts_are_visible : Stmts → Bool
  stmts_are_visible Stmts.done = true
  stmts_are_visible (Stmts.stmt s ss) = stmt_is_visible s && stmts_are_visible ss

  pub arms_are_visible : Arms → Bool
  arms_are_visible Arms.no_arms = true
  arms_are_visible (Arms.arm _ body rest) = stmts_are_visible body && arms_are_visible rest

pub moves-append : (c : String) (π ρ : List Access) → moves c (π ++ ρ) ≡ moves c π ++ moves c ρ
unfolding moves
moves-append c [] ρ = refl
moves-append c (Access.take q ∷ π) ρ = ground (arith, moves-append c π ρ)
moves-append c (Access.try_take q ∷ π) ρ = ground (arith, moves-append c π ρ)
moves-append c (Access.peek q ∷ π) ρ = moves-append c π ρ
moves-append c (Access.put q ∷ π) ρ = ground (arith, moves-append c π ρ)

pub moves-is_quiet : (c : String) (π : List Access) → is_quiet π ≡ true → moves c π ≡ []
unfolding moves is_quiet
moves-is_quiet c [] h = refl
moves-is_quiet c (Access.take q ∷ π) h = cc
moves-is_quiet c (Access.try_take q ∷ π) h = cc
moves-is_quiet c (Access.peek q ∷ π) h = moves-is_quiet c π h
moves-is_quiet c (Access.put q ∷ π) h = cc

-- The moves that a state stands for.
abbrev pub history : CellState → List Move
history CellState.untouched = []
history CellState.taken = Move.taking ∷ []
history CellState.put = Move.taking ∷ Move.putting ∷ []

-- Along the accesses `π` the state of cell `c` goes from the one in `s` to the one in `t`.
pub record Follows (c : String) (s t : States) (π : List Access) : Type 0 where
  pub advance :
      (a : CellState)
      → lookup c s ≡ some a
      → (b : CellState) × (lookup c t ≡ some b) × (history a ++ moves c π ≡ history b)

pub Follows-trans :
    {c : String} {s t u : States} {π ρ : List Access}
    → Follows c s t π
    → Follows c t u ρ
    → Follows c s u (π ++ ρ)
Follows-trans {c} {s} {t} {u} {π} {ρ} f g = record {
  advance = λ a h.
      let (b, hb, eb) = f.advance a h in
      let (d, hd, ed) = g.advance b hb in
      (
        d,
        hd,
        ap (λ l. history a ++ l) (moves-append c π ρ)
            ∙ (sym (append_assoc (history a) (moves c π) (moves c ρ))
                ∙ (ap (λ l. l ++ moves c ρ) eb ∙ ed)),
      );
}

pub Follows-refl : {c : String} (s : States) (π : List Access) → moves c π ≡ [] → Follows c s s π
Follows-refl {c} s π q = record {
  advance = λ a h. (a, h, ap (λ l. history a ++ l) q ∙ append-nil (history a));
}
