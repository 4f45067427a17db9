-- ===== src/Types/Check/Typing/Complete.antt =====
-- What follows the typing rules is passed by `check_expr` of src/types/check.rs.
use tourbillon.Base.{String, [], ◌≡◌, refl, ◌∙◌, string_eq}
use tourbillon.Base.Dict
use tourbillon.Ast.{Expr, Exprs, FieldInits, expr_span}
use tourbillon.Types.Ty.{Ty, Tys, Fields}
use tourbillon.Types.Env.{TypeEnv, lookup}
use tourbillon.Types.Check.Expressions.{check_expr, check_exprs, check_fields, find_field}
use tourbillon.Types.Check.TypingRules.Lookups.{
  variable_type_iff, elem_of_iff, field_type_iff, index_type_iff, update_type_iff,
}
use tourbillon.Types.Check.TypingRules.Operators.{operator_type_iff, slice_type_iff}
use tourbillon.Types.Check.TypingRules.Records.{call_type_iff, check_field_iff, record_type_iff}
use tourbillon.Diagnostics.{>>=-pure}
use tourbillon.Types.Check.Typing.{HasType, HaveTypes, FieldsFit}

module _ (env : TypeEnv) where
  mutual
    unfolding check_expr

    pub HasType-check_expr : (e : Expr) (t : Ty) → HasType env e t → check_expr env e ≡ (t, [])
    HasType-check_expr _ _ HasType.int = refl
    HasType-check_expr _ _ HasType.bool = refl
    HasType-check_expr (Expr.variable name sp) t (HasType.variable rule) =
        (variable_type_iff env name sp t).1 rule
    HasType-check_expr (Expr.take q sp) t (HasType.take (p, found, holds)) =
        (elem_of_iff q sp (λ ty. ty) (lookup q env) t).1 (p, t, found, holds, refl)
    HasType-check_expr (Expr.try_take q sp) _ (HasType.try_take {t = t} (p, found, holds)) =
        (elem_of_iff q sp Ty.option (lookup q env) (Ty.option t)).1 (p, t, found, holds, refl)
    HasType-check_expr (Expr.peek q sp) _ (HasType.peek {t = t} (p, found, holds)) =
        (elem_of_iff q sp Ty.option (lookup q env) (Ty.option t)).1 (p, t, found, holds, refl)
    HasType-check_expr (Expr.bin_op op l r sp) u (HasType.bin_op {s = s} {t = t} left right rule) =
        >>=-pure (check_expr env l) _ s (HasType-check_expr l s left)
        ∙ (>>=-pure (check_expr env r) _ t (HasType-check_expr r t right)
            ∙ (operator_type_iff op s t sp (expr_span l) (expr_span r) u).1 rule)
    HasType-check_expr (Expr.unary_op op e sp) t (HasType.unary_op inner) =
        HasType-check_expr e t inner
    HasType-check_expr (Expr.tuple es sp) _ (HasType.tuple {ts = ts} parts) =
        >>=-pure (check_exprs env es) _ ts (HaveTypes-check_exprs es ts parts)
    HasType-check_expr (Expr.field_access e f sp) t (HasType.field_access {s = s} inner rule) =
        >>=-pure (check_expr env e) _ s (HasType-check_expr e s inner)
        ∙ (field_type_iff s f (expr_span e) t).1 rule
    HasType-check_expr (Expr.index e i sp) t (HasType.index {s = s} inner rule) =
        >>=-pure (check_expr env e) _ s (HasType-check_expr e s inner)
        ∙ (index_type_iff s (expr_span e) t).1 rule
    HasType-check_expr (Expr.update e i v sp) t (HasType.update {s = s} inner rule) =
        >>=-pure (check_expr env e) _ s (HasType-check_expr e s inner)
        ∙ (update_type_iff s (expr_span e) t).1 rule
    HasType-check_expr (Expr.call func es sp) t (HasType.call {ts = ts} args rule) =
        >>=-pure (check_exprs env es) _ ts (HaveTypes-check_exprs es ts args)
        ∙ (call_type_iff env func ts sp t).1 rule
    HasType-check_expr (Expr.construct name inits sp) _
          (HasType.construct {r = r} {fs = fs} found fits) =
        (record_type_iff name (Dict.lookup name env.type_defs) (check_fields env name inits)
            (Ty.record_ r fs)).1
          (r, fs, found, FieldsFit-check_fields name inits fs fits, refl)
    HasType-check_expr (Expr.bit_slice e hi lo sp) t (HasType.bit_slice {s = s} inner rule) =
        >>=-pure (check_expr env e) _ s (HasType-check_expr e s inner)
        ∙ (slice_type_iff s hi lo (expr_span e) t).1 rule

    HaveTypes-check_exprs :
        (es : Exprs) (ts : Tys) → HaveTypes env es ts → check_exprs env es ≡ (ts, [])
    HaveTypes-check_exprs _ _ HaveTypes.none_left = refl
    HaveTypes-check_exprs (Exprs.expr e es) _ (HaveTypes.expr {t = t} {ts = ts} first rest) =
        >>=-pure (check_expr env e) _ t (HasType-check_expr e t first)
        ∙ >>=-pure (check_exprs env es) _ ts (HaveTypes-check_exprs es ts rest)

    FieldsFit-check_fields :
        (name : String) (inits : FieldInits) (fs : Fields)
        → FieldsFit env inits fs
        → check_fields env name inits fs ≡ []
    FieldsFit-check_fields name _ fs FieldsFit.no_fields = refl
    FieldsFit-check_fields name (FieldInits.field f value rest) fs
          (FieldsFit.field {t = t} val fits later) =
        rw (
          HasType-check_expr value t val,
          (check_field_iff name f (expr_span value) t (find_field f.node fs)).1 fits,
          FieldsFit-check_fields name rest fs later,
        )
