-- ===== src/Types/Check/Typing/Sound.antt =====
-- What `check_expr` of src/types/check.rs passes follows the typing rules.
use tourbillon.Base.{String, [], ◌≡◌, refl, ap, subst, append-eq-nil, string_eq}
use tourbillon.Base.Dict
use tourbillon.Ast.{Literal, Expr, Exprs, FieldInits, expr_span}
use tourbillon.Types.Ty.{Ty, Tys, Fields}
use tourbillon.Types.Env.{TypeEnv, lookup}
use tourbillon.Types.Check.Expressions.{
  check_expr, check_exprs, check_fields, check_field, find_field,
}
use tourbillon.Types.Check.TypingRules.Lookups.{
  report_iff, variable_type_iff, elem_of_iff, field_type_iff, index_type_iff, update_type_iff,
}
use tourbillon.Types.Check.TypingRules.Operators.{operator_type_iff, slice_type_iff}
use tourbillon.Types.Check.TypingRules.Records.{call_type_iff, check_field_iff, record_type_iff}
use tourbillon.Diagnostics.{pair-path, clean->>=, error_at, leftover_method_call, return}
use tourbillon.Types.Check.Typing.{HasType, HaveTypes, FieldsFit}

module _ (env : TypeEnv) where
  returned : (e : Expr) (a t : Ty) → HasType env e a → return a ≡ (t, []) → HasType env e t
  returned e a t d h = subst (HasType env e) (ap (λ p. p.0) h) d

  mutual
    unfolding check_expr

    pub check_expr-HasType : (e : Expr) (t : Ty) → check_expr env e ≡ (t, []) → HasType env e t
    check_expr-HasType (Expr.lit (Literal.int n) sp) t h = returned _ (Ty.bits 32) t HasType.int h
    check_expr-HasType (Expr.lit (Literal.bool b) sp) t h = returned _ Ty.bool t HasType.bool h
    check_expr-HasType (Expr.variable name sp) t h =
        HasType.variable ((variable_type_iff env name sp t).0 h)
    check_expr-HasType (Expr.take q sp) t h =
        let (p, elem, found, holds, e) = (elem_of_iff q sp (λ ty. ty) (lookup q env) t).0 h in
        subst (HasType env (Expr.take q sp)) e (HasType.take (p, found, holds))
    check_expr-HasType (Expr.try_take q sp) t h =
        let (p, elem, found, holds, e) = (elem_of_iff q sp Ty.option (lookup q env) t).0 h in
        subst (HasType env (Expr.try_take q sp)) e (HasType.try_take (p, found, holds))
    check_expr-HasType (Expr.peek q sp) t h =
        let (p, elem, found, holds, e) = (elem_of_iff q sp Ty.option (lookup q env) t).0 h in
        subst (HasType env (Expr.peek q sp)) e (HasType.peek (p, found, holds))
    check_expr-HasType (Expr.bin_op op l r sp) u h =
        let (left, h') = clean->>= (check_expr env l) _ u h in
        let (right, rule) = clean->>= (check_expr env r) _ u h' in
        HasType.bin_op (check_expr-HasType l _ left) (check_expr-HasType r _ right)
          ((operator_type_iff op _ _ sp (expr_span l) (expr_span r) u).0 rule)
    check_expr-HasType (Expr.unary_op op e sp) t h = HasType.unary_op (check_expr-HasType e t h)
    check_expr-HasType (Expr.tuple es sp) t h =
        let (parts, e) = clean->>= (check_exprs env es) _ t h in
        returned _ _ t (HasType.tuple (check_exprs-HaveTypes es _ parts)) e
    check_expr-HasType (Expr.field_access e f sp) t h =
        let (inner, rule) = clean->>= (check_expr env e) _ t h in
        HasType.field_access (check_expr-HasType e _ inner)
          ((field_type_iff _ f (expr_span e) t).0 rule)
    check_expr-HasType (Expr.index e i sp) t h =
        let (inner, rule) = clean->>= (check_expr env e) _ t h in
        HasType.index (check_expr-HasType e _ inner) ((index_type_iff _ (expr_span e) t).0 rule)
    check_expr-HasType (Expr.update e i v sp) t h =
        let (inner, rule) = clean->>= (check_expr env e) _ t h in
        HasType.update (check_expr-HasType e _ inner) ((update_type_iff _ (expr_span e) t).0 rule)
    check_expr-HasType (Expr.call func es sp) t h =
        let (args, rule) = clean->>= (check_exprs env es) _ t h in
        HasType.call (check_exprs-HaveTypes es _ args) ((call_type_iff env func _ sp t).0 rule)
    check_expr-HasType (Expr.construct name inits sp) t h =
        let (r, fs, found, fits, e) =
          (record_type_iff name (Dict.lookup name env.type_defs) (check_fields env name inits) t).0
            h in
        subst (HasType env (Expr.construct name inits sp)) e
          (HasType.construct found (check_fields-FieldsFit name inits fs fits))
    check_expr-HasType (Expr.bit_slice e hi lo sp) t h =
        let (inner, rule) = clean->>= (check_expr env e) _ t h in
        HasType.bit_slice (check_expr-HasType e _ inner)
          ((slice_type_iff _ hi lo (expr_span e) t).0 rule)
    check_expr-HasType (Expr.method_call e m es sp) t h =
        absurd ((report_iff (error_at m.span leftover_method_call) Ty.error t).0 h)

    check_exprs-HaveTypes :
        (es : Exprs) (ts : Tys) → check_exprs env es ≡ (ts, []) → HaveTypes env es ts
    check_exprs-HaveTypes Exprs.none_left ts h =
        subst (HaveTypes env Exprs.none_left) (ap (λ p. p.0) h) HaveTypes.none_left
    check_exprs-HaveTypes (Exprs.expr e es) ts h =
        let (first, h') = clean->>= (check_expr env e) _ ts h in
        let (rest, e') = clean->>= (check_exprs env es) _ ts h' in
        subst (HaveTypes env (Exprs.expr e es)) (ap (λ p. p.0) e')
          (HaveTypes.expr (check_expr-HasType e _ first) (check_exprs-HaveTypes es _ rest))

    check_fields-FieldsFit :
        (name : String) (inits : FieldInits) (fs : Fields)
        → check_fields env name inits fs ≡ []
        → FieldsFit env inits fs
    check_fields-FieldsFit name FieldInits.no_fields fs h = FieldsFit.no_fields
    check_fields-FieldsFit name (FieldInits.field f value rest) fs h =
        let (clean, h') = append-eq-nil (check_expr env value).1 _ h in
        let (fits, later) =
          append-eq-nil
            (check_field name f (expr_span value) (check_expr env value).0 (find_field f.node fs)) _
            h' in
        FieldsFit.field (check_expr-HasType value _ (pair-path (check_expr env value) _ refl clean))
          ((check_field_iff name f (expr_span value) _ (find_field f.node fs)).0 fits)
          (check_fields-FieldsFit name rest fs later)
