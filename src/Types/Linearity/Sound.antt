-- ===== src/Types/Linearity/Sound.antt =====
-- A rule that the check passes uses each of its cells linearly, on every execution path.
use tourbillon.Base.{
  and-eq-true, String, ◌≡◌, refl, ◌∙◌, sym, ap, inl, inr, List, [], ◌∷◌, ◌++◌, some, true,
  append-eq-nil, string_eq,
}
use tourbillon.Base.Dict.{lookup}
use tourbillon.Ast.{Span, Stmt, Stmts, Arms}
use tourbillon.Ast.Accesses.{Access, expr_accesses}
use tourbillon.Ast.Paths.{Runs, RunsStmts, RunsArms}
use tourbillon.Diagnostics.{▸-eq-nil, ▸-state}
use tourbillon.Types.Linearity.{
  CellState, States, check_expr_linearity, check_stmt_linearity, check_stmts_linearity, check_match,
  check_arms, compare_arms, cell_state_eq, join_branches,
}
use tourbillon.Types.Linearity.Moves.{
  moves, stmt_is_visible, stmts_are_visible, arms_are_visible, expr_is_visible, history, Follows,
  Follows-refl,
}
use tourbillon.Types.Linearity.Steps.{expr-Follows, put_to-Follows, ▸-Follows}
use tourbillon.Types.Linearity.Joins.{join_branches-eq-nil, compare_arms-cons, join_arms-eq-nil}

-- Every body has a path.
mutual
  some_run : (s : Stmt) → (π : List Access) × Runs s π
  some_run (Stmt.let_ p e sp) = (expr_accesses e, refl)
  some_run (Stmt.put q e sp) = (expr_accesses e ++ Access.put q.node ∷ [], refl)
  some_run (Stmt.expr e sp) = (expr_accesses e, refl)
  some_run (Stmt.match_ e Arms.no_arms sp) = (expr_accesses e, refl)
  some_run (Stmt.match_ e (Arms.arm p body rest) sp) =
      let (ρ, r) = some_run_stmts body in (expr_accesses e ++ ρ, (ρ, inl r, refl))
  some_run (Stmt.if_ c t f sp) =
      let (ρ, r) = some_run_stmts t in (expr_accesses c ++ ρ, (ρ, inl r, refl))

  some_run_stmts : (ss : Stmts) → (π : List Access) × RunsStmts ss π
  some_run_stmts Stmts.done = ([], refl)
  some_run_stmts (Stmts.stmt s ss) =
      let (ρ, r) = some_run s in let (σ, q) = some_run_stmts ss in (ρ ++ σ, (ρ, σ, r, q, refl))

module _ (c : String) where
  -- The branches of an `if` that agree on `c`: the merged state serves the other branch too.
  join-Follows :
      (sp : Span) (s first other : States) (π ρ : List Access)
      → join_branches sp first other ≡ []
      → Follows c s first π
      → Follows c s other ρ
      → Follows c s first ρ
  join-Follows sp s first other π ρ h f g = record {
    advance = λ a k.
        let (b, hb, _) = f.advance a k in
        let (d, hd, grows) = g.advance a k in
        (b, hb, grows ∙ ap history (sym (join_branches-eq-nil c b sp first other d h hb hd)));
  }

  mutual
    unfolding check_stmt_linearity stmt_is_visible moves

    stmt-Follows :
        (s : Stmt) (states : States) (π : List Access)
        → stmt_is_visible s ≡ true
        → (check_stmt_linearity s states).1 ≡ []
        → Runs s π
        → Follows c states (check_stmt_linearity s states).0 π
    stmt-Follows (Stmt.let_ p e sp) states π v h r = rw r (expr-Follows c e states v h)
    stmt-Follows (Stmt.expr e sp) states π v h r = rw r (expr-Follows c e states v h)
    stmt-Follows (Stmt.put q e sp) states π v h r = rw r (
        ▸-Follows c (check_expr_linearity e) _ states (expr_accesses e) _
          (expr-Follows c e states v) (put_to-Follows c q (check_expr_linearity e states).0 _ refl)
          h)
    stmt-Follows (Stmt.match_ e Arms.no_arms sp) states π v h r =
        let (vc, _) = and-eq-true (expr_is_visible e) _ v in
        let (he, _) = ▸-eq-nil (check_expr_linearity e) (check_match Arms.no_arms) states h in
        rw (r, ▸-state (check_expr_linearity e) (check_match Arms.no_arms) states)
          (expr-Follows c e states vc he)
    stmt-Follows (Stmt.match_ e (Arms.arm p body rest) sp) states π v h (ρ, choice, eq) =
        let (ve, va) = and-eq-true (expr_is_visible e) _ v in
        let (vb, vr) = and-eq-true (stmts_are_visible body) (arms_are_visible rest) va in
        let after = (check_expr_linearity e states).0 in
        rw eq (
          ▸-Follows c (check_expr_linearity e) _ states (expr_accesses e) ρ
            (expr-Follows c e states ve)
            (λ k.
              let (hb, hk) = append-eq-nil (check_stmts_linearity body after).1 _ k in
              let (hr, hj) = append-eq-nil (check_arms rest after).1 _ hk in
              elim choice [
                | inl taken ↦ stmts-Follows body after ρ vb hb taken
                | inr later ↦ record {
                  advance = λ a l.
                      let (π₀, path) = some_run_stmts body in
                      let (b, lb, _) = (stmts-Follows body after π₀ vb hb path).advance a l in
                      (
                        b,
                        lb,
                        arms-agree rest after ρ a b vr hr (join_arms-eq-nil c b _ _ hj lb) l later,
                      );
                }
              ])
            h)
    stmt-Follows (Stmt.if_ cond t f sp) states π v h (ρ, choice, eq) =
        let (vc, vb) = and-eq-true (expr_is_visible cond) _ v in
        let (vt, vf) = and-eq-true (stmts_are_visible t) (stmts_are_visible f) vb in
        let after = (check_expr_linearity cond states).0 in
        rw eq (
          ▸-Follows c (check_expr_linearity cond) _ states (expr_accesses cond) ρ
            (expr-Follows c cond states vc)
            (λ k.
              let (ht, hk) = append-eq-nil (check_stmts_linearity t after).1 _ k in
              let (hf, hj) = append-eq-nil (check_stmts_linearity f after).1 _ hk in
              elim choice [
                | inl on ↦ stmts-Follows t after ρ vt ht on
                | inr off ↦
                    let (π₀, path) = some_run_stmts t in
                    join-Follows _ after _ _ π₀ ρ hj (stmts-Follows t after π₀ vt ht path)
                      (stmts-Follows f after ρ vf hf off)
              ])
            h)

    stmts-Follows :
        (ss : Stmts) (states : States) (π : List Access)
        → stmts_are_visible ss ≡ true
        → (check_stmts_linearity ss states).1 ≡ []
        → RunsStmts ss π
        → Follows c states (check_stmts_linearity ss states).0 π
    stmts-Follows Stmts.done states π v h r = rw r (Follows-refl states [] refl)
    stmts-Follows (Stmts.stmt s ss) states π v h (ρ, σ, r, q, eq) =
        let (vs, vss) = and-eq-true (stmt_is_visible s) (stmts_are_visible ss) v in
        rw eq (
          ▸-Follows c (check_stmt_linearity s) (check_stmts_linearity ss) states ρ σ
            (λ k. stmt-Follows s states ρ vs k r) (λ k. stmts-Follows ss _ σ vss k q) h)

    -- The arms whose final states agree with the state `b` of the first arm.
    arms-agree :
        (arms : Arms) (states : States) (ρ : List Access) (a b : CellState)
        → arms_are_visible arms ≡ true
        → (check_arms arms states).1 ≡ []
        → compare_arms c b (check_arms arms states).0 ≡ []
        → lookup c states ≡ some a
        → RunsArms arms ρ
        → history a ++ moves c ρ ≡ history b
    arms-agree Arms.no_arms states ρ a b v h k l r = absurd r
    arms-agree (Arms.arm p body rest) states ρ a b v h k l r =
        let (vb, vr) = and-eq-true (stmts_are_visible body) (arms_are_visible rest) v in
        let (hb, hr) = append-eq-nil (check_stmts_linearity body states).1 _ h in
        let (π₀, path) = some_run_stmts body in
        let (d₀, l₀, _) = (stmts-Follows body states π₀ vb hb path).advance a l in
        let (_, agree) = compare_arms-cons c b _ _ _ d₀ k l₀ in
        elim r [
          | inl taken ↦
              let (d, ld, grows) = (stmts-Follows body states ρ vb hb taken).advance a l in
              let (same, _) = compare_arms-cons c b _ _ _ d k ld in grows ∙ ap history (sym same)
          | inr later ↦ arms-agree rest states ρ a b vr hr agree l later
        ]
