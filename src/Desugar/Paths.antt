-- ===== src/Desugar/Paths.antt =====
-- The paths of desugared bodies, `desugar_stmts` of src/desugar.rs.
use tourbillon.Base.{ℕ, String, ◌≡◌, ◌↔◌, refl, ap, ◌∙◌, subst, List, [], ◌∷◌, ◌++◌}
use tourbillon.Base.Dict.{Dict}
use tourbillon.Ast.{Stmt, Stmts, Arms}
use tourbillon.Ast.Accesses.{Access}
use tourbillon.Ast.Paths.{Runs, RunsStmts, RunsArms}
use tourbillon.Desugar.{desugar_expr}
use tourbillon.Desugar.Bodies.{array_call, desugar_stmt, desugar_stmts, desugar_arms}
use tourbillon.Desugar.Meaning.{SurfaceRuns, SurfaceRunsStmts, SurfaceRunsArms}
use tourbillon.Desugar.Again.{desugar_expr-Settled}
use tourbillon.Desugar.Statements.{path_iff, desugar_let-Runs}
use tourbillon.Desugar.Calls.{desugar_expr_stmt-Runs}
use tourbillon.Desugar.Choices.{choice_iff, either_iff, sequence_iff}
use tourbillon.Diagnostics.{clean->>=}

module _ (array_ports : Dict String ℕ) where
  mutual
    unfolding desugar_stmt

    desugar_stmt-Runs :
        (s d : Stmt) (π : List Access)
        → desugar_stmt array_ports s ≡ (d, [])
        → Runs d π ↔ SurfaceRuns array_ports s π
    desugar_stmt-Runs (Stmt.let_ p e sp) d π h =
        desugar_let-Runs (array_call array_ports e) p e sp d π h
    desugar_stmt-Runs (Stmt.expr e sp) d π h =
        desugar_expr_stmt-Runs (array_call array_ports e) e sp d π h
    desugar_stmt-Runs (Stmt.put target e sp) d π h =
        let (first, last) = clean->>= (desugar_expr e) _ d h in
        subst (λ d. Runs d π ↔ SurfaceRuns array_ports (Stmt.put target e sp) π)
          (ap (λ p. p.0) last)
          (path_iff π
            (ap (λ ρ. ρ ++ Access.put target.node ∷ []) (desugar_expr-Settled e _ first).1))
    desugar_stmt-Runs (Stmt.match_ e Arms.no_arms sp) d π h =
        let (first, h') = clean->>= (desugar_expr e) _ d h in
        let (_, last) = clean->>= (desugar_arms array_ports Arms.no_arms) _ d h' in
        subst (λ d. Runs d π ↔ SurfaceRuns array_ports (Stmt.match_ e Arms.no_arms sp) π)
          (ap (λ p. p.0) last) (path_iff π (desugar_expr-Settled e _ first).1)
    desugar_stmt-Runs (Stmt.match_ e (Arms.arm p body rest) sp) d π h =
        let (first, h') = clean->>= (desugar_expr e) _ d h in
        let (second, last) = clean->>= (desugar_arms array_ports (Arms.arm p body rest)) _ d h' in
        let (inner, h'') = clean->>= (desugar_stmts array_ports body) _ _ second in
        let (others, built) = clean->>= (desugar_arms array_ports rest) _ _ h'' in
        subst (λ d. Runs d π ↔ SurfaceRuns array_ports (Stmt.match_ e (Arms.arm p body rest) sp) π)
          (ap (λ r. Stmt.match_ (desugar_expr e).0 r.0 sp) built ∙ ap (λ p. p.0) last)
          (choice_iff π (desugar_expr-Settled e _ first).1 (λ ρ. desugar_stmts-Runs body _ ρ inner)
            (λ ρ. desugar_arms-Runs rest _ ρ others))
    desugar_stmt-Runs (Stmt.if_ c t f sp) d π h =
        let (first, h') = clean->>= (desugar_expr c) _ d h in
        let (second, h'') = clean->>= (desugar_stmts array_ports t) _ d h' in
        let (third, last) = clean->>= (desugar_stmts array_ports f) _ d h'' in
        subst (λ d. Runs d π ↔ SurfaceRuns array_ports (Stmt.if_ c t f sp) π) (ap (λ p. p.0) last)
          (choice_iff π (desugar_expr-Settled c _ first).1 (λ ρ. desugar_stmts-Runs t _ ρ second)
            (λ ρ. desugar_stmts-Runs f _ ρ third))

    desugar_stmts-Runs :
        (ss ds : Stmts) (π : List Access)
        → desugar_stmts array_ports ss ≡ (ds, [])
        → RunsStmts ds π ↔ SurfaceRunsStmts array_ports ss π
    desugar_stmts-Runs Stmts.done ds π h =
        subst (λ ds. RunsStmts ds π ↔ (π ≡ [])) (ap (λ p. p.0) h) (path_iff π refl)
    desugar_stmts-Runs (Stmts.stmt s ss) ds π h =
        let (first, h') = clean->>= (desugar_stmt array_ports s) _ ds h in
        let (rest, last) = clean->>= (desugar_stmts array_ports ss) _ ds h' in
        subst (λ ds. RunsStmts ds π ↔ SurfaceRunsStmts array_ports (Stmts.stmt s ss) π)
          (ap (λ p. p.0) last)
          (sequence_iff π (λ ρ. desugar_stmt-Runs s (desugar_stmt array_ports s).0 ρ first)
            (λ σ. desugar_stmts-Runs ss (desugar_stmts array_ports ss).0 σ rest))

    desugar_arms-Runs :
        (arms ds : Arms) (π : List Access)
        → desugar_arms array_ports arms ≡ (ds, [])
        → RunsArms ds π ↔ SurfaceRunsArms array_ports arms π
    desugar_arms-Runs Arms.no_arms ds π h =
        subst (λ ds. RunsArms ds π ↔ ⊥) (ap (λ p. p.0) h) ((λ x. x), λ x. x)
    desugar_arms-Runs (Arms.arm p body rest) ds π h =
        let (inner, h') = clean->>= (desugar_stmts array_ports body) _ ds h in
        let (others, last) = clean->>= (desugar_arms array_ports rest) _ ds h' in
        subst (λ ds. RunsArms ds π ↔ SurfaceRunsArms array_ports (Arms.arm p body rest) π)
          (ap (λ p. p.0) last)
          (either_iff (desugar_stmts-Runs body (desugar_stmts array_ports body).0 π inner)
            (desugar_arms-Runs rest (desugar_arms array_ports rest).0 π others))
