-- ===== src/Desugar/Statements.antt =====
-- Desugaring keeps the queue accesses of every path, `desugar_stmt_into` of src/desugar.rs.
use tourbillon.Base.{
  ℕ, zero, suc, String, ◌≡◌, ◌↔◌, refl, sym, ap, ◌∙◌, subst, List, [], ◌∷◌, ◌++◌, Option, none,
  some,
}
use tourbillon.Ast.{Span, Spanned, expr_span, Expr, Exprs, Pattern, Stmt}
use tourbillon.Ast.Accesses.{Access, expr_accesses}
use tourbillon.Ast.Paths.{Runs}
use tourbillon.Desugar.{Method, method_of, extract_ident, desugar_expr, desugar_exprs}
use tourbillon.Desugar.Bodies.{
  element_name, expand_indexed_let, let_operation, plain_let, let_with, desugar_let, finish_put,
  finish_by,
}
use tourbillon.Desugar.Meaning.{surface_accesses, IndexedRuns, LetBy, LetRuns, CallRuns}
use tourbillon.Desugar.Again.{desugar_expr-Settled}
use tourbillon.Desugar.Indexed.{indexed_iff}
use tourbillon.Diagnostics.{return, ◌>>=◌, clean->>=, >>=-pure, error_at, put_arity, put_receiver}

pub path_iff : {a b : List Access} (π : List Access) → a ≡ b → (π ≡ a) ↔ (π ≡ b)
path_iff π e = ((λ h. h ∙ e), λ h. h ∙ sym e)

pub IndexedRuns-path :
    (size : ℕ) {a b : List Access} (f g : ℕ → List Access) (π : List Access)
    → a ≡ b
    → ((i : ℕ) → f i ≡ g i)
    → IndexedRuns size a f π ↔ IndexedRuns size b g π
IndexedRuns-path zero f g π e h = path_iff π e
IndexedRuns-path (suc n) {a} {b} f g π e h =
    ((λ (i, lt, r). (i, lt, r ∙ rw (e, h i))), λ (i, lt, r). (i, lt, r ∙ rw (sym e, sym (h i))))

module _ {P Q R : Type 0} where
  pub ↔-trans : P ↔ Q → Q ↔ R → P ↔ R
  ↔-trans f g = ((λ p. g.0 (f.0 p)), λ r. f.1 (g.1 r))

plain_let-Runs :
    (p : Pattern) (e : Expr) (sp : Span) (d : Stmt) (π : List Access)
    → plain_let p e sp ≡ (d, [])
    → Runs d π ↔ (π ≡ surface_accesses e)
unfolding plain_let
plain_let-Runs p e sp d π h =
    let (first, last) = clean->>= (desugar_expr e) _ d h in
    subst (λ d. Runs d π ↔ (π ≡ surface_accesses e)) (ap (λ p. p.0) last)
      (path_iff π (desugar_expr-Settled e _ first).1)

-- An indexed `let` with one of the three operations.
indexed_let-Runs :
    (op : String → Span → Expr) (access : String → Access) (name : String) (size : ℕ) (idx : Expr)
    (p : Pattern) (e : Expr) (sp : Span) (d : Stmt) (π : List Access)
    → ((q : String) → expr_accesses (op q sp) ≡ access q ∷ [])
    → let_with (some op) name size idx p e sp ≡ (d, [])
    → Runs d π ↔ IndexedRuns size (surface_accesses idx) (λ i. access (element_name name i) ∷ []) π
unfolding let_with expand_indexed_let
indexed_let-Runs op access name size idx p e sp d π is_access h =
    let (first, last) = clean->>= (desugar_expr idx) _ d h in
    let each : ℕ → List Access = λ i. access (element_name name i) ∷ [] in
    subst (λ d. Runs d π ↔ IndexedRuns size (surface_accesses idx) each π) (ap (λ p. p.0) last)
      (↔-trans
        (indexed_iff (λ i. Stmt.let_ p (op (element_name name i) sp) sp) each sp
          (λ i ρ. path_iff ρ (is_access (element_name name i))) (desugar_expr idx).0 size π)
        (IndexedRuns-path size each each π (desugar_expr-Settled idx _ first).1 (λ i. refl)))

let_with-LetBy :
    (m : Method) (name : String) (size : ℕ) (idx : Expr) (p : Pattern) (e : Expr) (sp : Span)
    (d : Stmt) (π : List Access)
    → let_with (let_operation m) name size idx p e sp ≡ (d, [])
    → Runs d π ↔ LetBy m name size idx e π
unfolding let_with let_operation expr_accesses
let_with-LetBy Method.take name size idx p e sp d π h =
    indexed_let-Runs Expr.take Access.take name size idx p e sp d π (λ q. refl) h
let_with-LetBy Method.try_take name size idx p e sp d π h =
    indexed_let-Runs Expr.try_take Access.try_take name size idx p e sp d π (λ q. refl) h
let_with-LetBy Method.peek name size idx p e sp d π h =
    indexed_let-Runs Expr.peek Access.peek name size idx p e sp d π (λ q. refl) h
let_with-LetBy _ name size idx p e sp d π h = plain_let-Runs p e sp d π h

pub desugar_let-Runs :
    (o : Option (String × ℕ × Expr × Spanned String × Exprs)) (p : Pattern) (e : Expr) (sp : Span)
    (d : Stmt) (π : List Access)
    → desugar_let o p e sp ≡ (d, [])
    → Runs d π ↔ LetRuns o e π
unfolding desugar_let
desugar_let-Runs none p e sp d π h = plain_let-Runs p e sp d π h
desugar_let-Runs (some (name, size, idx, method, _)) p e sp d π h =
    let_with-LetBy (method_of method.node) name size idx p e sp d π h

-- A `put` that is passed has a receiver and one argument.
put_shape :
    (found : Option String) (called receiver : Expr) (method : Spanned String) (argv : Exprs)
    (sp : Span) (d : Stmt)
    → finish_put found called receiver method argv sp ≡ (d, [])
    → (q : String) × (v : Expr) × (found ≡ some q)
      × (argv ≡ Exprs.expr v Exprs.none_left)
      × ((desugar_expr v >>= λ w.
            return (Stmt.put (record { node = q; span = expr_span receiver }) w sp))
          ≡ (d, []))
unfolding finish_put
put_shape (some q) called receiver method (Exprs.expr v Exprs.none_left) sp d h =
    (q, v, refl, refl, h)
put_shape none called receiver method argv sp d h =
    absurd (let no : error_at (expr_span receiver) put_receiver ∷ [] ≡ [] = ap (λ p. p.1) h in cc)
put_shape (some q) called receiver method argv sp d h =
    absurd (let no : error_at method.span put_arity ∷ [] ≡ [] = ap (λ p. p.1) h in cc)

exprs_shape :
    (args : Exprs) (v : Expr)
    → desugar_exprs args ≡ (Exprs.expr v Exprs.none_left, [])
    → (arg : Expr) × (args ≡ Exprs.expr arg Exprs.none_left) × (desugar_expr arg ≡ (v, []))
unfolding desugar_exprs
exprs_shape Exprs.none_left v h =
    absurd (let no : Exprs.none_left ≡ Exprs.expr v Exprs.none_left = ap (λ p. p.0) h in cc)
exprs_shape (Exprs.expr e es) v h =
    let (first, h') = clean->>= (desugar_expr e) _ _ h in
    let (second, last) = clean->>= (desugar_exprs es) _ _ h' in
    let whole : Exprs.expr (desugar_expr e).0 (desugar_exprs es).0 ≡ Exprs.expr v Exprs.none_left =
      ap (λ p. p.0) last in
    let head : (desugar_expr e).0 ≡ v = cc in
    let rest : (desugar_exprs es).0 ≡ Exprs.none_left = cc in
    (
      e,
      ap (λ r. Exprs.expr e r) (no_exprs es (second ∙ ap (λ r. (r, [])) rest)),
      first ∙ ap (λ r. (r, [])) head,
    )
  where
    no_exprs : (es : Exprs) → desugar_exprs es ≡ (Exprs.none_left, []) → es ≡ Exprs.none_left
    no_exprs Exprs.none_left h = refl
    no_exprs (Exprs.expr e es) h =
        let (first, h') = clean->>= (desugar_expr e) _ _ h in
        let (second, last) = clean->>= (desugar_exprs es) _ _ h' in
        absurd (
          let no : Exprs.expr (desugar_expr e).0 (desugar_exprs es).0 ≡ Exprs.none_left =
            ap (λ p. p.0) last in
          cc)

finish_put-Runs :
    (found : Option String) (called receiver : Expr) (method : Spanned String) (args argv : Exprs)
    (sp : Span) (d : Stmt) (π other : List Access)
    → desugar_exprs args ≡ (argv, [])
    → finish_put found called receiver method argv sp ≡ (d, [])
    → Runs d π ↔ CallRuns Method.put found args other π
finish_put-Runs found called receiver method args argv sp d π other e h =
    let (q, v, is_found, one, last) = put_shape found called receiver method argv sp d h in
    let (arg, single, clean) = exprs_shape args v (e ∙ ap (λ r. (r, [])) one) in
    let (again, same, _, _) = desugar_expr-Settled arg v clean in
    rw (is_found, single)
      (subst (λ d. Runs d π ↔ (π ≡ surface_accesses arg ++ Access.put q ∷ []))
        (ap (λ p. p.0) (sym (>>=-pure (desugar_expr v) _ v again) ∙ last))
        (path_iff π (ap (λ ρ. ρ ++ Access.put q ∷ []) same)))

pub finish_by-Runs :
    (m : Method) (found : Option String) (called receiver : Expr) (method : Spanned String)
    (args argv : Exprs) (sp : Span) (d : Stmt) (π : List Access)
    → desugar_exprs args ≡ (argv, [])
    → finish_by m called receiver method argv sp ≡ (d, [])
    → Runs d π ↔ CallRuns m (extract_ident receiver) args (expr_accesses called) π
unfolding finish_by
finish_by-Runs Method.put found called receiver method args argv sp d π e h =
    finish_put-Runs (extract_ident receiver) called receiver method args argv sp d π
      (expr_accesses called) e h
finish_by-Runs _ found called receiver method args argv sp d π e h =
    subst (λ d. Runs d π ↔ (π ≡ expr_accesses called)) (ap (λ p. p.0) h) ((λ p. p), λ p. p)
