-- ===== src/Desugar/Again.antt =====
-- What desugaring has done to an expression stays: `desugar_expr` of src/desugar.rs, run again on
-- its result, as for the argument of a `put`.
use tourbillon.Base.{String, [], ◌∷◌, Option, none, some, ◌≡◌, refl, sym, ap, ◌∙◌, subst, arith}
use tourbillon.Ast.{Span, Spanned, Expr, Exprs, FieldInits}
use tourbillon.Ast.Accesses.{expr_accesses, exprs_accesses, fields_accesses}
use tourbillon.Desugar.{
  Method, method_of, extract_ident, operation, call_by, desugar_call, desugar_expr, desugar_exprs,
  desugar_inits,
}
use tourbillon.Desugar.Meaning.{call_accesses, surface_accesses, surface_list, surface_inits}
use tourbillon.Diagnostics.{clean->>=, >>=-pure, error_at, unknown_method}

-- A method call that desugaring leaves comes from one.
abbrev pub CallOf : Expr → Expr → Type 0
CallOf e (Expr.method_call r method argv sp) =
    (receiver : Expr) × (args : Exprs) × (e ≡ Expr.method_call receiver method args sp)
    × (desugar_expr receiver ≡ (r, []))
    × (desugar_exprs args ≡ (argv, []))
CallOf e _ = Unit

-- An expression and its desugared form.
abbrev pub Settled : Expr → Expr → Type 0
Settled e d =
    (desugar_expr d ≡ (d, []))
    × (expr_accesses d ≡ surface_accesses e)
    × (extract_ident d ≡ extract_ident e)
    × CallOf e d

abbrev pub SettledList : Exprs → Exprs → Type 0
SettledList es ds = (desugar_exprs ds ≡ (ds, [])) × (exprs_accesses ds ≡ surface_list es)

abbrev pub SettledInits : FieldInits → FieldInits → Type 0
SettledInits fs ds = (desugar_inits ds ≡ (ds, [])) × (fields_accesses ds ≡ surface_inits fs)

-- A method call that is kept.
kept-Settled :
    (receiver r : Expr) (method : Spanned String) (args argv : Exprs) (sp : Span)
    → Settled receiver r
    → desugar_exprs argv ≡ (argv, [])
    → desugar_expr receiver ≡ (r, [])
    → desugar_exprs args ≡ (argv, [])
    → call_accesses (method_of method.node) (extract_ident receiver) ≡ []
    → desugar_call (Expr.method_call r method argv sp) r method argv sp
      ≡ (Expr.method_call r method argv sp, [])
    → Settled (Expr.method_call receiver method args sp) (Expr.method_call r method argv sp)
unfolding desugar_expr expr_accesses surface_accesses
kept-Settled receiver r method args argv sp (again, _, _, _) again' first second silent same = (
  >>=-pure (desugar_expr r) _ r again ∙ (>>=-pure (desugar_exprs argv) _ argv again' ∙ same),
  sym silent,
  refl,
  (receiver, args, refl, first, second),
)

-- An operation on a queue, or a call that is kept because its receiver is no identifier.
operation-Settled :
    (op : String → Span → Expr) (receiver r : Expr) (method : Spanned String) (args argv : Exprs)
    (sp : Span) (d : Expr) (found : Option String)
    → ((q : String)
        → (desugar_expr (op q sp) ≡ (op q sp, []))
          × (expr_accesses (op q sp) ≡ call_accesses (method_of method.node) (some q))
          × (extract_ident (op q sp) ≡ none)
          × ((e : Expr) → CallOf e (op q sp)))
    → extract_ident r ≡ found
    → Settled receiver r
    → desugar_exprs argv ≡ (argv, [])
    → desugar_expr receiver ≡ (r, [])
    → desugar_exprs args ≡ (argv, [])
    → ((original : Expr)
        → desugar_call original r method argv sp
          ≡ operation (extract_ident r) op (Expr.method_call r method argv sp) method argv sp)
    → ((receiver : Expr)
        → extract_ident receiver ≡ none
        → call_accesses (method_of method.node) (extract_ident receiver) ≡ [])
    → operation found op (Expr.method_call r method argv sp) method argv sp ≡ (d, [])
    → Settled (Expr.method_call receiver method args sp) d
unfolding operation surface_accesses
operation-Settled op receiver r method args argv sp d none settled e (again, accesses, ident, shape)
      sa first second same silent h =
    subst (Settled (Expr.method_call receiver method args sp)) (ap (λ p. p.0) h) (
      kept-Settled receiver r method args argv sp (again, accesses, ident, shape) sa first second
        (silent receiver (sym ident ∙ e)) (same (Expr.method_call r method argv sp) ∙ rw (e)))
operation-Settled op receiver r method args argv sp d (some q) settled e (_, _, ident, _) sa first
      second same silent h =
    let (again, accesses, none_left, kept) = settled q in
    subst (Settled (Expr.method_call receiver method args sp)) (ap (λ p. p.0) h)
      (again, rw (sym ident, e) accesses, none_left, kept _)

silent_call : (m : Method) → call_accesses m none ≡ []
silent_call m = ground arith

call_by-Settled :
    (m : Method) (original receiver r : Expr) (method : Spanned String) (args argv : Exprs)
    (sp : Span) (d : Expr)
    → method_of method.node ≡ m
    → Settled receiver r
    → desugar_exprs argv ≡ (argv, [])
    → desugar_expr receiver ≡ (r, [])
    → desugar_exprs args ≡ (argv, [])
    → call_by m original r method argv sp ≡ (d, [])
    → Settled (Expr.method_call receiver method args sp) d
unfolding call_by desugar_expr expr_accesses surface_accesses
call_by-Settled Method.take original receiver r method args argv sp d e sr sa first second h =
    operation-Settled Expr.take receiver r method args argv sp d (extract_ident r)
      (λ q. (refl, rw (e), refl, λ _. tt)) refl sr sa first second (λ o. rw (e))
      (λ receiver none_found. rw (none_found) (silent_call _)) h
call_by-Settled Method.try_take original receiver r method args argv sp d e sr sa first second h =
    operation-Settled Expr.try_take receiver r method args argv sp d (extract_ident r)
      (λ q. (refl, rw (e), refl, λ _. tt)) refl sr sa first second (λ o. rw (e))
      (λ receiver none_found. rw (none_found) (silent_call _)) h
call_by-Settled Method.peek original receiver r method args argv sp d e sr sa first second h =
    operation-Settled Expr.peek receiver r method args argv sp d (extract_ident r)
      (λ q. (refl, rw (e), refl, λ _. tt)) refl sr sa first second (λ o. rw (e))
      (λ receiver none_found. rw (none_found) (silent_call _)) h
call_by-Settled Method.put original receiver r method args argv sp d e sr sa first second h =
    subst (Settled (Expr.method_call receiver method args sp)) (ap (λ p. p.0) h)
      (kept-Settled receiver r method args argv sp sr sa first second (rw (e)) (rw (e)))
call_by-Settled Method.other original receiver r method args argv sp d e sr sa first second h =
    absurd
      (let no : error_at method.span (unknown_method method.node) ∷ [] ≡ [] = ap (λ p. p.1) h in cc)

mutual
  unfolding desugar_expr expr_accesses surface_accesses

  pub desugar_expr-Settled : (e d : Expr) → desugar_expr e ≡ (d, []) → Settled e d
  desugar_expr-Settled (Expr.method_call receiver method args sp) d h =
      let (first, h') = clean->>= (desugar_expr receiver) _ d h in
      let (second, last) = clean->>= (desugar_exprs args) _ d h' in
      call_by-Settled (method_of method.node) _ receiver _ method args _ sp d refl
        (desugar_expr-Settled receiver _ first) (desugar_exprs-Settled args _ second).0 first second
        last
  desugar_expr-Settled (Expr.bin_op op lhs rhs sp) d h =
      let (left, h') = clean->>= (desugar_expr lhs) _ d h in
      let (right, last) = clean->>= (desugar_expr rhs) _ d h' in
      let (again, same, _, _) = desugar_expr-Settled lhs _ left in
      let (again', same', _, _) = desugar_expr-Settled rhs _ right in
      subst (Settled (Expr.bin_op op lhs rhs sp)) (ap (λ p. p.0) last) (
        >>=-pure (desugar_expr _) _ _ again ∙ >>=-pure (desugar_expr _) _ _ again',
        rw (same, same'),
        refl,
        tt,
      )
  desugar_expr-Settled (Expr.unary_op op inner sp) d h =
      let (first, last) = clean->>= (desugar_expr inner) _ d h in
      let (again, same, _, _) = desugar_expr-Settled inner _ first in
      subst (Settled (Expr.unary_op op inner sp)) (ap (λ p. p.0) last)
        (>>=-pure (desugar_expr _) _ _ again, same, refl, tt)
  desugar_expr-Settled (Expr.call func args sp) d h =
      let (first, last) = clean->>= (desugar_exprs args) _ d h in
      let (again, same) = desugar_exprs-Settled args _ first in
      subst (Settled (Expr.call func args sp)) (ap (λ p. p.0) last)
        (>>=-pure (desugar_exprs _) _ _ again, same, refl, tt)
  desugar_expr-Settled (Expr.tuple items sp) d h =
      let (first, last) = clean->>= (desugar_exprs items) _ d h in
      let (again, same) = desugar_exprs-Settled items _ first in
      subst (Settled (Expr.tuple items sp)) (ap (λ p. p.0) last)
        (>>=-pure (desugar_exprs _) _ _ again, same, refl, tt)
  desugar_expr-Settled (Expr.construct name fields sp) d h =
      let (first, last) = clean->>= (desugar_inits fields) _ d h in
      let (again, same) = desugar_inits-Settled fields _ first in
      subst (Settled (Expr.construct name fields sp)) (ap (λ p. p.0) last)
        (>>=-pure (desugar_inits _) _ _ again, same, refl, tt)
  desugar_expr-Settled (Expr.field_access inner field sp) d h =
      let (first, last) = clean->>= (desugar_expr inner) _ d h in
      let (again, same, _, _) = desugar_expr-Settled inner _ first in
      subst (Settled (Expr.field_access inner field sp)) (ap (λ p. p.0) last)
        (>>=-pure (desugar_expr _) _ _ again, same, refl, tt)
  desugar_expr-Settled (Expr.index inner idx sp) d h =
      let (left, h') = clean->>= (desugar_expr inner) _ d h in
      let (right, last) = clean->>= (desugar_expr idx) _ d h' in
      let (again, same, _, _) = desugar_expr-Settled inner _ left in
      let (again', same', _, _) = desugar_expr-Settled idx _ right in
      subst (Settled (Expr.index inner idx sp)) (ap (λ p. p.0) last) (
        >>=-pure (desugar_expr _) _ _ again ∙ >>=-pure (desugar_expr _) _ _ again',
        rw (same, same'),
        refl,
        tt,
      )
  desugar_expr-Settled (Expr.update inner idx value sp) d h =
      let (left, h') = clean->>= (desugar_expr inner) _ d h in
      let (middle, h'') = clean->>= (desugar_expr idx) _ d h' in
      let (right, last) = clean->>= (desugar_expr value) _ d h'' in
      let (again, same, _, _) = desugar_expr-Settled inner _ left in
      let (again', same', _, _) = desugar_expr-Settled idx _ middle in
      let (again'', same'', _, _) = desugar_expr-Settled value _ right in
      subst (Settled (Expr.update inner idx value sp)) (ap (λ p. p.0) last) (
        >>=-pure (desugar_expr _) _ _ again
            ∙ (>>=-pure (desugar_expr _) _ _ again' ∙ >>=-pure (desugar_expr _) _ _ again''),
        rw (same, same', same''),
        refl,
        tt,
      )
  desugar_expr-Settled (Expr.bit_slice inner hi lo sp) d h =
      let (first, last) = clean->>= (desugar_expr inner) _ d h in
      let (again, same, _, _) = desugar_expr-Settled inner _ first in
      subst (Settled (Expr.bit_slice inner hi lo sp)) (ap (λ p. p.0) last)
        (>>=-pure (desugar_expr _) _ _ again, same, refl, tt)
  desugar_expr-Settled e d h = subst (Settled e) (ap (λ p. p.0) h) (refl, refl, refl, tt)

  pub desugar_exprs-Settled : (es ds : Exprs) → desugar_exprs es ≡ (ds, []) → SettledList es ds
  desugar_exprs-Settled Exprs.none_left ds h =
      subst (SettledList Exprs.none_left) (ap (λ p. p.0) h) (refl, refl)
  desugar_exprs-Settled (Exprs.expr e es) ds h =
      let (first, h') = clean->>= (desugar_expr e) _ ds h in
      let (rest, last) = clean->>= (desugar_exprs es) _ ds h' in
      let (again, same, _, _) = desugar_expr-Settled e _ first in
      let (again', same') = desugar_exprs-Settled es _ rest in
      subst (SettledList (Exprs.expr e es)) (ap (λ p. p.0) last) (
        >>=-pure (desugar_expr _) _ _ again ∙ >>=-pure (desugar_exprs _) _ _ again',
        rw (same, same'),
      )

  pub desugar_inits-Settled :
      (fs ds : FieldInits) → desugar_inits fs ≡ (ds, []) → SettledInits fs ds
  desugar_inits-Settled FieldInits.no_fields ds h =
      subst (SettledInits FieldInits.no_fields) (ap (λ p. p.0) h) (refl, refl)
  desugar_inits-Settled (FieldInits.field name e fs) ds h =
      let (first, h') = clean->>= (desugar_expr e) _ ds h in
      let (rest, last) = clean->>= (desugar_inits fs) _ ds h' in
      let (again, same, _, _) = desugar_expr-Settled e _ first in
      let (again', same') = desugar_inits-Settled fs _ rest in
      subst (SettledInits (FieldInits.field name e fs)) (ap (λ p. p.0) last) (
        >>=-pure (desugar_expr _) _ _ again ∙ >>=-pure (desugar_inits _) _ _ again',
        rw (same, same'),
      )
