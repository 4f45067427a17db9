-- ===== src/Desugar/Indexed.antt =====
-- The statements that indexed operations become: `expand_indexed_put` and `expand_indexed_let` of
-- src/desugar.rs.
use mathlib.Core.List.{append-nil}
use tourbillon.Base.{
  ℕ, zero, suc, ◌+◌, ◌≤◌, ◌<◌, ◌≡◌, ◌↔◌, refl, sym, ap, ◌∙◌, inl, inr, List, [], ◌++◌, arith,
  Bool-cases, ltb,
}
use tourbillon.Ast.{Span, Expr, Stmt, Stmts}
use tourbillon.Ast.Accesses.{Access, expr_accesses}
use tourbillon.Ast.Paths.{Runs, RunsStmts, RunsArms}
use tourbillon.Desugar.Bodies.{index_arms}
use tourbillon.Desugar.Meaning.{IndexedRuns}

module _ (body : ℕ → Stmt) (each : ℕ → List Access) (sp : Span)
    (runs : (i : ℕ) (π : List Access) → Runs (body i) π ↔ (π ≡ each i)) where
  single_iff :
      (i : ℕ) (π : List Access) → RunsStmts (Stmts.stmt (body i) Stmts.done) π ↔ (π ≡ each i)
  single_iff i π = (
    (λ (ρ, σ, r, e, f). f ∙ rw (e, append-nil ρ) ((runs i ρ).0 r)),
    λ e. (each i, [], (runs i (each i)).1 refl, refl, e ∙ sym (append-nil (each i))),
  )

  index_arms_iff :
      (count i : ℕ) (π : List Access)
      → RunsArms (index_arms body sp count i) π
        ↔ ((j : ℕ) × (i ≤ j) × (j < i + count) × (π ≡ each j))
  unfolding index_arms
  index_arms_iff zero i π = ((λ h. absurd h), λ (j, a, b, e). absurd (omega arith))
  index_arms_iff (suc count) i π = (
    (λ h. elim h [
      | inl here ↦ (i, omega arith, omega arith, (single_iff i π).0 here)
      | inr later ↦
          let (j, a, b, e) = (index_arms_iff count (i + 1) π).0 later in
          (j, omega arith, omega arith, e)
    ]),
    λ (j, a, b, e). elim (Bool-cases (ltb i j)) [
      | inl beyond ↦ inr ((index_arms_iff count (i + 1) π).1 (j, ground arith, omega arith, e))
      | inr equal ↦ let same : j ≡ i = ground arith in inl ((single_iff i π).1 (e ∙ ap each same))
    ],
  )

  pub indexed_iff :
      (idx : Expr) (size : ℕ) (π : List Access)
      → Runs (Stmt.match_ idx (index_arms body sp size 0) sp) π
        ↔ IndexedRuns size (expr_accesses idx) each π
  unfolding index_arms
  indexed_iff idx zero π = ((λ h. h), λ h. h)
  indexed_iff idx (suc n) π = (
    (λ (ρ, arms, e).
        let (j, _, b, f) = (index_arms_iff (suc n) 0 ρ).0 arms in
        (j, omega arith, e ∙ ap (λ σ. expr_accesses idx ++ σ) f)),
    λ (j, b, e).
        (each j, (index_arms_iff (suc n) 0 (each j)).1 (j, omega arith, omega arith, refl), e),
  )
