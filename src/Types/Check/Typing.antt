-- ===== src/Types/Check/Typing.antt =====
-- The typing rules of expressions, as a relation beside `check_expr` of src/types/check.rs.
pub mod Sound
pub mod Complete
pub mod Decision
use tourbillon.Base.{
  ℕ, String, List, [], ◌∷◌, ◌++◌, Option, none, some, ◌≡◌, ◌↔◌, ◌⊎◌, inl, inr, refl, sym, ap, subst,
  ◌∙◌, append-eq-nil, arith, Bool, true, false, not, ◌&&◌, string_eq,
}
use tourbillon.Base.Dict
use tourbillon.Ast.{Span, Spanned, Literal, BinOp, UnaryOp, Expr, Exprs, FieldInits, expr_span}
use tourbillon.Types.Ty.{Ty, Tys, Fields}
use tourbillon.Types.Env.{TypeEnv, lookup}
use tourbillon.Types.Check.Expressions.{
  check_expr, check_exprs, check_fields, check_field, find_field, family, elem_of, field_mismatched,
  record_type, variable_type, operator_type, field_type, index_type, update_type, slice_type,
  call_type,
}
use tourbillon.Types.Check.TypingRules.{
  VariableRule, Holds, Agree, IsTruth, FamilyRule, FieldRule, IndexRule, UpdateRule, SliceRule,
  ExternalRule, CallRule, FieldFits,
}
use tourbillon.Diagnostics.{Diagnostic, error_at, leftover_method_call, Reports, return, ◌>>=◌}

module _ (env : TypeEnv) where
  mutual
    pub data HasType : Expr → Ty → Type 0 where
      int : {n : ℕ} {sp : Span} → HasType (Expr.lit (Literal.int n) sp) (Ty.bits 32)
      bool : {b : Bool} {sp : Span} → HasType (Expr.lit (Literal.bool b) sp) Ty.bool
      variable :
          {name : String} {sp : Span} {t : Ty}
          → VariableRule env name t
          → HasType (Expr.variable name sp) t
      take : {q : String} {sp : Span} {t : Ty} → Holds env q t → HasType (Expr.take q sp) t
      try_take :
          {q : String} {sp : Span} {t : Ty}
          → Holds env q t
          → HasType (Expr.try_take q sp) (Ty.option t)
      peek :
          {q : String} {sp : Span} {t : Ty} → Holds env q t → HasType (Expr.peek q sp) (Ty.option t)
      bin_op :
          {op : BinOp} {l r : Expr} {sp : Span} {s t u : Ty}
          → HasType l s
          → HasType r t
          → FamilyRule (family op) s t u
          → HasType (Expr.bin_op op l r sp) u
      unary_op :
          {op : UnaryOp} {e : Expr} {sp : Span} {t : Ty}
          → HasType e t
          → HasType (Expr.unary_op op e sp) t
      tuple :
          {es : Exprs} {sp : Span} {ts : Tys}
          → HaveTypes es ts
          → HasType (Expr.tuple es sp) (Ty.tuple ts)
      field_access :
          {e : Expr} {f : Spanned String} {sp : Span} {s t : Ty}
          → HasType e s
          → FieldRule s f.node t
          → HasType (Expr.field_access e f sp) t
      index :
          {e i : Expr} {sp : Span} {s t : Ty}
          → HasType e s
          → IndexRule s t
          → HasType (Expr.index e i sp) t
      update :
          {e i v : Expr} {sp : Span} {s t : Ty}
          → HasType e s
          → UpdateRule s t
          → HasType (Expr.update e i v sp) t
      call :
          {func : String} {es : Exprs} {sp : Span} {ts : Tys} {t : Ty}
          → HaveTypes es ts
          → CallRule env func ts t
          → HasType (Expr.call func es sp) t
      construct :
          {name r : String} {inits : FieldInits} {sp : Span} {fs : Fields}
          → Dict.lookup name env.type_defs ≡ some (Ty.record_ r fs)
          → FieldsFit inits fs
          → HasType (Expr.construct name inits sp) (Ty.record_ r fs)
      bit_slice :
          {e : Expr} {hi lo : ℕ} {sp : Span} {s t : Ty}
          → HasType e s
          → SliceRule s hi lo t
          → HasType (Expr.bit_slice e hi lo sp) t

    pub data HaveTypes : Exprs → Tys → Type 0 where
      none_left : HaveTypes Exprs.none_left Tys.no_tys
      expr :
          {e : Expr} {es : Exprs} {t : Ty} {ts : Tys}
          → HasType e t
          → HaveTypes es ts
          → HaveTypes (Exprs.expr e es) (Tys.ty t ts)

    -- The given fields of a record expression, by the fields of the definition.
    pub data FieldsFit : FieldInits → Fields → Type 0 where
      no_fields : {fs : Fields} → FieldsFit FieldInits.no_fields fs
      field :
          {f : Spanned String} {e : Expr} {rest : FieldInits} {fs : Fields} {t : Ty}
          → HasType e t
          → FieldFits t (find_field f.node fs)
          → FieldsFit rest fs
          → FieldsFit (FieldInits.field f e rest) fs
