-- ===== src/Types/Check/Expressions.antt =====
-- The types of expressions, `check_expr` of src/types/check.rs.
use tourbillon.Base.{
  ℕ, ◌+◌, ◌-◌, ◌^◌, ◌%◌, String, Bool, true, false, not, ◌&&◌, ◌||◌, List, [], ◌∷◌, ◌++◌, Option,
  none, some, leb, ltb, ◌==◌, nat_eq, string_eq, if◌then◌else◌,
}
use tourbillon.Base.Dict
use tourbillon.Ast.{Span, Spanned, Literal, BinOp, Expr, Exprs, FieldInits, expr_span}
use tourbillon.Types.Ty.{Ty, Tys, Fields, same_ty}
use tourbillon.Types.Env.{TypeEnv, lookup}
use tourbillon.Diagnostics.{
  Message, undefined_variable, undefined_port, not_a_queue, not_a_record, undefined_record,
  type_mismatch, comparison_mismatch, expected_bool, non_record_access, non_array_index,
  non_array_update, slice_of_non_bits, no_field, wrong_arity, field_mismatch, unknown_field,
  slice_out_of_range, slice_reversed, leftover_method_call, Diagnostic, error_at, Reports, return,
  report, ◌>>=◌,
}

abbrev pub both_bits : Ty → Ty → Bool
both_bits (Ty.bits _) (Ty.bits _) = true
both_bits _ _ = false

unfoldable mutual
  pub contains_error : Ty → Bool
  contains_error Ty.error = true
  contains_error (Ty.tuple tys) = any_error tys
  contains_error (Ty.record_ _ fields) = any_field_error fields
  contains_error (Ty.option inner) = contains_error inner
  contains_error (Ty.array elem _) = contains_error elem
  contains_error _ = false

  pub any_error : Tys → Bool
  any_error Tys.no_tys = false
  any_error (Tys.ty t ts) = contains_error t || any_error ts

  pub any_field_error : Fields → Bool
  any_field_error Fields.no_fields = false
  any_field_error (Fields.field _ t fs) = contains_error t || any_field_error fs

-- A diagnostic under a condition.
abbrev pub report_if : Bool → Span → Message → List Diagnostic
report_if true sp m = error_at sp m ∷ []
report_if false sp m = []

-- The test of operators and of `put`: types that differ, with no error in them and not both `Bits`.
unfoldable pub mismatched : Ty → Ty → Bool
unfolding contains_error
mismatched s t =
    not (contains_error s) && (not (contains_error t) && (not (same_ty s t) && not (both_bits s t)))

-- The test of record fields, which looks for an error at the top only.
unfoldable pub field_mismatched : Ty → Ty → Bool
field_mismatched s t =
    not (same_ty s Ty.error)
    && (not (same_ty t Ty.error) && (not (same_ty s t) && not (both_bits s t)))

-- What a queue or a cell holds.
abbrev pub port_elem : Ty → Option Ty
port_elem (Ty.queue elem _) = some elem
port_elem (Ty.cell elem) = some elem
port_elem (Ty.async_queue elem _) = some elem
port_elem _ = none

unfoldable pub elem_of : String → Span → (Ty → Ty) → Option Ty → Reports Ty
elem_of name sp wrap none = report (error_at sp (undefined_port name)) Ty.error
elem_of name sp wrap (some ty) = elim (port_elem ty) [
  | some elem ↦ return (wrap elem)
  | none ↦ report (error_at sp (not_a_queue name)) Ty.error
]

unfoldable pub variable_type : TypeEnv → String → Span → Reports Ty
variable_type env name sp =
    if name == "None" then return (Ty.option Ty.error) else elim (lookup name env) [
      | some ty ↦ return ty
      | none ↦
          if Dict.has_key name env.constants
          then return (Ty.bits 32)
          else report (error_at sp (undefined_variable name)) Ty.error
    ]

abbrev pub first_type : Ty → Ty → Ty
first_type Ty.error rty = rty
first_type lty rty = lty

abbrev pub not_bool : Ty → Bool
not_bool Ty.error = false
not_bool Ty.bool = false
not_bool _ = true

pub data Family : Type 0 where
  arithmetic comparison logical : Family

abbrev pub family : BinOp → Family
family BinOp.eq = Family.comparison
family BinOp.neq = Family.comparison
family BinOp.lt = Family.comparison
family BinOp.gt = Family.comparison
family BinOp.le = Family.comparison
family BinOp.ge = Family.comparison
family BinOp.logical_and = Family.logical
family BinOp.logical_or = Family.logical
family _ = Family.arithmetic

-- The type of an operation, from the types of its operands and the spans of the operation and of
-- its operands.
unfoldable pub operator_type : BinOp → Ty → Ty → (sp left right : Span) → Reports Ty
operator_type op lty rty sp left right = elim (family op) [
  | Family.arithmetic ↦
      (first_type lty rty, report_if (mismatched lty rty) sp (type_mismatch lty rty))
  | Family.comparison ↦ (Ty.bool, report_if (mismatched lty rty) sp (comparison_mismatch lty rty))
  | Family.logical ↦ (
    Ty.bool,
    report_if (not_bool lty) left (expected_bool lty)
        ++ report_if (not_bool rty) right (expected_bool rty),
  )
]

unfoldable pub find_field : String → Fields → Option Ty
find_field name Fields.no_fields = none
find_field name (Fields.field n ty fs) =
    let rest = find_field name fs in if n == name then some ty else rest

unfoldable pub field_type : Ty → Spanned String → Span → Reports Ty
field_type (Ty.record_ r fields) field sp = elim (find_field field.node fields) [
  | some ty ↦ return ty
  | none ↦ report (error_at field.span (no_field field.node (Ty.record_ r fields))) Ty.error
]
field_type Ty.error field sp = return Ty.error
field_type ty field sp = report (error_at sp (non_record_access ty)) Ty.error

unfoldable pub index_type : Ty → Span → Reports Ty
index_type (Ty.array elem _) sp = return elem
index_type Ty.error sp = return Ty.error
index_type ty sp = report (error_at sp (non_array_index ty)) Ty.error

unfoldable pub update_type : Ty → Span → Reports Ty
update_type (Ty.array elem n) sp = return (Ty.array elem n)
update_type Ty.error sp = return Ty.error
update_type ty sp = report (error_at sp (non_array_update ty)) Ty.error

unfoldable pub count_types : Tys → ℕ
count_types Tys.no_tys = 0
count_types (Tys.ty _ ts) = count_types ts + 1

abbrev pub return_type : Option Ty → Ty
return_type none = Ty.bits 0
return_type (some ty) = ty

unfoldable pub external_type : String → Span → Tys → Option (Tys × Option Ty) → Reports Ty
external_type func sp args none = return Ty.error
external_type func sp args (some (params, ret)) = (
  return_type ret,
  report_if (not (count_types args == count_types params)) sp
      (wrong_arity func (count_types params) (count_types args)),
)

unfoldable pub call_type : TypeEnv → String → Tys → Span → Reports Ty
unfolding external_type
call_type env func (Tys.ty arg Tys.no_tys) sp =
    let external =
      external_type func sp (Tys.ty arg Tys.no_tys) (Dict.lookup func env.external_fns) in
    if func == "Some" then return (Ty.option arg) else external
call_type env func args sp = external_type func sp args (Dict.lookup func env.external_fns)

-- The width of a slice, in the wrapping arithmetic of `u64`.
abbrev pub slice_width : ℕ → ℕ → ℕ
slice_width hi lo = (hi + (2 ^ 64 - lo) + 1) % 2 ^ 64

unfoldable pub slice_type : Ty → ℕ → ℕ → Span → Reports Ty
slice_type (Ty.bits n) hi lo sp = (
  Ty.bits (slice_width hi lo),
  report_if (leb n hi) sp (slice_out_of_range hi n)
      ++ report_if (ltb hi lo) sp (slice_reversed lo hi),
)
slice_type Ty.error hi lo sp = return Ty.error
slice_type ty hi lo sp = report (error_at sp (slice_of_non_bits ty)) Ty.error

-- One field of a record expression, whose value has a type, by the field's type in the definition.
unfoldable pub check_field : String → Spanned String → Span → Ty → Option Ty → List Diagnostic
check_field record_name name sp val none =
    error_at name.span (unknown_field name.node record_name) ∷ []
check_field record_name name sp val (some expected) =
    report_if (field_mismatched val expected) sp (field_mismatch name.node expected val)

abbrev no_span : Span
no_span = record { from = 0; to = 0 }

-- A record expression, by the definition of its name. The last argument checks the fields against
-- those of the definition.
unfoldable pub record_type : String → Option Ty → (Fields → List Diagnostic) → Reports Ty
record_type name (some (Ty.record_ r fields)) check = (Ty.record_ r fields, check fields)
record_type name (some _) check = report (error_at no_span (not_a_record name)) Ty.error
record_type name none check = report (error_at no_span (undefined_record name)) Ty.error

module _ (env : TypeEnv) where
  unfoldable mutual
    pub check_expr : Expr → Reports Ty
    check_expr (Expr.lit (Literal.int _) _) = return (Ty.bits 32)
    check_expr (Expr.lit (Literal.bool _) _) = return Ty.bool
    check_expr (Expr.variable name sp) = variable_type env name sp
    check_expr (Expr.take queue sp) = elem_of queue sp (λ ty. ty) (lookup queue env)
    check_expr (Expr.try_take queue sp) = elem_of queue sp Ty.option (lookup queue env)
    check_expr (Expr.peek queue sp) = elem_of queue sp Ty.option (lookup queue env)
    check_expr (Expr.bin_op op lhs rhs sp) = check_expr lhs >>= λ lty.
        check_expr rhs >>= λ rty. operator_type op lty rty sp (expr_span lhs) (expr_span rhs)
    check_expr (Expr.unary_op _ inner _) = check_expr inner
    check_expr (Expr.tuple items _) = check_exprs items >>= λ tys. return (Ty.tuple tys)
    check_expr (Expr.field_access inner field _) =
        check_expr inner >>= λ ty. field_type ty field (expr_span inner)
    check_expr (Expr.index inner _ _) = check_expr inner >>= λ ty. index_type ty (expr_span inner)
    check_expr (Expr.update inner _ _ _) =
        check_expr inner >>= λ ty. update_type ty (expr_span inner)
    check_expr (Expr.call func args sp) = check_exprs args >>= λ tys. call_type env func tys sp
    check_expr (Expr.construct name fields _) =
        record_type name (Dict.lookup name env.type_defs) (check_fields name fields)
    check_expr (Expr.bit_slice inner hi lo _) =
        check_expr inner >>= λ ty. slice_type ty hi lo (expr_span inner)
    check_expr (Expr.method_call _ method _ _) =
        report (error_at method.span leftover_method_call) Ty.error

    pub check_exprs : Exprs → Reports Tys
    check_exprs Exprs.none_left = return Tys.no_tys
    check_exprs (Exprs.expr e es) =
        check_expr e >>= λ ty. check_exprs es >>= λ tys. return (Tys.ty ty tys)

    pub check_fields : String → FieldInits → Fields → List Diagnostic
    check_fields name FieldInits.no_fields defined = []
    check_fields name (FieldInits.field f value rest) defined =
        let (ty, ds) = check_expr value in
        ds
        ++ (check_field name f (expr_span value) ty (find_field f.node defined)
            ++ check_fields name rest defined)
