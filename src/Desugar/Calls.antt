-- ===== src/Desugar/Calls.antt =====
-- Desugaring keeps the queue accesses of expression statements, `desugar_stmt_into` of
-- src/desugar.rs.
use tourbillon.Base.{ℕ, String, ◌≡◌, ◌↔◌, ap, ◌∙◌, subst, List, [], ◌∷◌, ◌++◌, Option, none, some}
use tourbillon.Ast.{Span, Spanned, Expr, Exprs, Stmt}
use tourbillon.Ast.Accesses.{Access, expr_accesses}
use tourbillon.Ast.Paths.{Runs}
use tourbillon.Desugar.{Method, method_of, extract_ident, call_by, desugar_expr, desugar_exprs}
use tourbillon.Desugar.Bodies.{
  element_name, expand_indexed_put, finish_expr, desugar_plain, put_by, desugar_expr_stmt,
}
use tourbillon.Desugar.Meaning.{surface_accesses, IndexedRuns, CallRuns, PlainRuns, PutBy, ExprRuns}
use tourbillon.Desugar.Again.{desugar_expr-Settled}
use tourbillon.Desugar.Indexed.{indexed_iff}
use tourbillon.Diagnostics.{clean->>=}
use tourbillon.Desugar.Statements.{path_iff, IndexedRuns-path, ↔-trans, finish_by-Runs}

abbrev IsCall : Expr → Type 0
IsCall (Expr.method_call _ _ _ _) = Unit
IsCall _ = ⊥

unchanged : {A : Type 0} → A ↔ A
unchanged = ((λ a. a), λ a. a)

CallRuns-other :
    (m : Method) (found : Option String) (args : Exprs) (other π : List Access) (original r : Expr)
    (method : Spanned String) (argv : Exprs) (sp : Span) (v : Expr)
    → call_by m original r method argv sp ≡ (v, [])
    → (IsCall v → ⊥)
    → (π ≡ other) ↔ CallRuns m found args other π
unfolding call_by
CallRuns-other Method.put found args other π original r method argv sp v h free =
    absurd (free (subst IsCall (ap (λ p. p.0) h) tt))
CallRuns-other _ found args other π original r method argv sp v h free = unchanged

-- An expression that desugars to no method call.
PlainRuns-other :
    (e v : Expr) (π : List Access)
    → desugar_expr e ≡ (v, [])
    → (IsCall v → ⊥)
    → (π ≡ surface_accesses e) ↔ PlainRuns e π
unfolding desugar_expr
PlainRuns-other (Expr.method_call receiver method args sp) v π h free =
    let (first, h') = clean->>= (desugar_expr receiver) _ v h in
    let (second, last) = clean->>= (desugar_exprs args) _ v h' in
    CallRuns-other (method_of method.node) (extract_ident receiver) args _ π _ _ method _ sp v last
      free
PlainRuns-other e v π h free = unchanged

-- A statement after its expression `e` was desugared to `v`.
finish_expr-Runs :
    (e v : Expr) (sp : Span) (d : Stmt) (π : List Access)
    → desugar_expr e ≡ (v, [])
    → finish_expr v sp ≡ (d, [])
    → Runs d π ↔ PlainRuns e π
unfolding finish_expr
finish_expr-Runs e (Expr.method_call r method argv sp') sp d π clean h =
    let (_, same, ident, (receiver, args, is_call, clean_r, clean_args)) =
      desugar_expr-Settled e _ clean in
    let m = method_of method.node in
    let runs =
      finish_by-Runs m none (Expr.method_call r method argv sp') r method args argv sp d π
        clean_args h in
    let meant = surface_accesses (Expr.method_call receiver method args sp') in
    let accesses = same ∙ ap surface_accesses is_call in
    let found : extract_ident r ≡ extract_ident receiver =
      (desugar_expr-Settled receiver r clean_r).2 in
    rw (is_call) (
      subst (λ o. Runs d π ↔ CallRuns m o args meant π) found
        (subst (λ a. Runs d π ↔ CallRuns m (extract_ident r) args a π) accesses runs))
finish_expr-Runs e v sp d π clean h =
    subst (λ d. Runs d π ↔ PlainRuns e π) (ap (λ p. p.0) h)
      (↔-trans (path_iff π (desugar_expr-Settled e v clean).1)
        (PlainRuns-other e v π clean (λ absent. absent)))

desugar_plain-Runs :
    (e : Expr) (sp : Span) (d : Stmt) (π : List Access)
    → desugar_plain e sp ≡ (d, [])
    → Runs d π ↔ PlainRuns e π
unfolding desugar_plain
desugar_plain-Runs e sp d π h =
    let (first, last) = clean->>= (desugar_expr e) _ d h in
    finish_expr-Runs e (desugar_expr e).0 sp d π first last

put_by-Runs :
    (m : Method) (name : String) (size : ℕ) (idx arg e : Expr) (sp : Span) (d : Stmt)
    (π : List Access)
    → put_by m name size idx arg e sp ≡ (d, [])
    → Runs d π ↔ PutBy m name size idx arg e π
unfolding put_by expand_indexed_put
put_by-Runs Method.put name size idx arg e sp d π h =
    let (first, h') = clean->>= (desugar_expr idx) _ d h in
    let (second, last) = clean->>= (desugar_expr arg) _ d h' in
    let each : ℕ → List Access =
      λ i. expr_accesses (desugar_expr arg).0 ++ Access.put (element_name name i) ∷ [] in
    let meant : ℕ → List Access =
      λ i. surface_accesses arg ++ Access.put (element_name name i) ∷ [] in
    let value = (desugar_expr-Settled arg _ second).1 in
    subst (λ d. Runs d π ↔ IndexedRuns size (surface_accesses idx) meant π) (ap (λ p. p.0) last)
      (↔-trans
        (indexed_iff
          (λ i. Stmt.put (record { node = element_name name i; span = sp }) (desugar_expr arg).0 sp)
          each sp (λ i ρ. unchanged) (desugar_expr idx).0 size π)
        (IndexedRuns-path size each meant π (desugar_expr-Settled idx _ first).1
          (λ i. ap (λ ρ. ρ ++ Access.put (element_name name i) ∷ []) value)))
put_by-Runs _ name size idx arg e sp d π h = desugar_plain-Runs e sp d π h

pub desugar_expr_stmt-Runs :
    (o : Option (String × ℕ × Expr × Spanned String × Exprs)) (e : Expr) (sp : Span) (d : Stmt)
    (π : List Access)
    → desugar_expr_stmt o e sp ≡ (d, [])
    → Runs d π ↔ ExprRuns o e π
unfolding desugar_expr_stmt
desugar_expr_stmt-Runs (some (name, size, idx, method, Exprs.expr arg Exprs.none_left)) e sp d π h =
    put_by-Runs (method_of method.node) name size idx arg e sp d π h
desugar_expr_stmt-Runs _ e sp d π h = desugar_plain-Runs e sp d π h
