-- ===== src/Types/Check/TypingRules.antt =====
-- The side conditions of the typing rules of expressions, for the cases of `check_expr` in
-- src/types/check.rs.
pub mod Lookups
pub mod Operators
pub mod Records
use tourbillon.Base.{
  ℕ, ◌+◌, ◌^◌, ◌≤◌, ◌<◌, String, Bool, true, false, not, ◌&&◌, List, [], ◌∷◌, ◌++◌, Option, none,
  some, ◌≡◌, ◌∙◌, ◌≢◌, ◌↔◌, ◌⊎◌, inl, inr, refl, sym, ap, ◌==◌, ==_iff, nat_eq, string_eq, leb, ltb,
  arith, append-eq-nil, Option-cases, if◌then◌else◌,
}
use tourbillon.Base.Dict
use tourbillon.Ast.{Span, Spanned, BinOp}
use tourbillon.Types.Ty.{Ty, Tys, Fields, same_ty}
use tourbillon.Types.Ty.Equality.{same_ty_iff}
use tourbillon.Types.Env.{TypeEnv, lookup}
use tourbillon.Types.Check.Expressions.{
  both_bits, contains_error, mismatched, report_if, port_elem, elem_of, variable_type, first_type,
  not_bool, family, Family, operator_type, find_field, field_type, index_type, update_type,
  check_field, field_mismatched, record_type, count_types, return_type, external_type, call_type,
  slice_width, slice_type,
}
use tourbillon.Diagnostics.{
  Message, Diagnostic, error_at, Reports, return, report, not_a_queue, undefined_port,
  undefined_variable, type_mismatch, comparison_mismatch, expected_bool, slice_out_of_range,
  slice_reversed, no_field, wrong_arity, field_mismatch,
}

-- `None`, a variable, or a constant.
abbrev pub VariableRule : TypeEnv → String → Ty → Type 0
VariableRule env name t =
    ((name ≡ "None") × (Ty.option Ty.error ≡ t))
    ⊎ ((name ≢ "None")
        × ((lookup name env ≡ some t)
            ⊎ ((lookup name env ≡ none)
                × (Dict.has_key name env.constants ≡ true)
                × (Ty.bits 32 ≡ t))))

-- A port that holds elements of the type `t`.
abbrev pub Holds : TypeEnv → String → Ty → Type 0
Holds env name t = (p : Ty) × (lookup name env ≡ some p) × (port_elem p ≡ some t)

-- Types that operators take together.
abbrev pub Agree : Ty → Ty → Type 0
Agree s t =
    ((contains_error s ≡ true) ⊎ (contains_error t ≡ true)) ⊎ ((s ≡ t) ⊎ (both_bits s t ≡ true))

abbrev pub IsTruth : Ty → Type 0
IsTruth Ty.bool = Unit
IsTruth Ty.error = Unit
IsTruth _ = ⊥

abbrev pub FamilyRule : Family → Ty → Ty → Ty → Type 0
FamilyRule Family.arithmetic s t u = Agree s t × (first_type s t ≡ u)
FamilyRule Family.comparison s t u = Agree s t × (Ty.bool ≡ u)
FamilyRule Family.logical s t u = IsTruth s × IsTruth t × (Ty.bool ≡ u)

abbrev pub FieldRule : Ty → String → Ty → Type 0
FieldRule (Ty.record_ _ fields) name t = find_field name fields ≡ some t
FieldRule Ty.error name t = Ty.error ≡ t
FieldRule _ name t = ⊥

abbrev pub IndexRule : Ty → Ty → Type 0
IndexRule (Ty.array elem _) t = elem ≡ t
IndexRule Ty.error t = Ty.error ≡ t
IndexRule _ t = ⊥

abbrev pub UpdateRule : Ty → Ty → Type 0
UpdateRule (Ty.array elem n) t = Ty.array elem n ≡ t
UpdateRule Ty.error t = Ty.error ≡ t
UpdateRule _ t = ⊥

abbrev pub SliceRule : Ty → (hi lo : ℕ) → Ty → Type 0
SliceRule (Ty.bits n) hi lo t = (lo ≤ hi) × (hi < n) × (Ty.bits (slice_width hi lo) ≡ t)
SliceRule Ty.error hi lo t = Ty.error ≡ t
SliceRule _ hi lo t = ⊥

-- A call: `Some` with one argument, an external function, or an unknown one.
abbrev pub ExternalRule : Option (Tys × Option Ty) → Tys → Ty → Type 0
ExternalRule none args t = Ty.error ≡ t
ExternalRule (some (params, ret)) args t =
    (count_types args ≡ count_types params) × (return_type ret ≡ t)

abbrev pub CallRule : TypeEnv → String → Tys → Ty → Type 0
CallRule env func (Tys.ty arg Tys.no_tys) t =
    ((func ≡ "Some") × (Ty.option arg ≡ t))
    ⊎ ((func ≢ "Some") × ExternalRule (Dict.lookup func env.external_fns) (Tys.ty arg Tys.no_tys) t)
CallRule env func args t = ExternalRule (Dict.lookup func env.external_fns) args t

-- The type of a field's value against that in the definition, if the field is defined.
abbrev pub FieldFits : Ty → Option Ty → Type 0
FieldFits val none = ⊥
FieldFits val (some expected) =
    ((val ≡ Ty.error) ⊎ (expected ≡ Ty.error))
    ⊎ ((val ≡ expected) ⊎ (both_bits val expected ≡ true))
