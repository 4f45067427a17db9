-- ===== src/Types/Check/TypingRules/Records.antt =====
-- Calls and record expressions in `check_expr` of src/types/check.rs test the side conditions of
-- their typing rules.
use tourbillon.Base.{
  String, false, not, List, [], Option, none, some, ◌≡◌, ◌∙◌, ◌↔◌, inl, inr, refl, ap, ◌==◌, ==_iff,
  nat_eq, string_eq, arith,
}
use tourbillon.Base.Dict
use tourbillon.Ast.{Span, Spanned}
use tourbillon.Types.Ty.{Ty, Tys, Fields, same_ty}
use tourbillon.Types.Ty.Equality.{same_ty_iff}
use tourbillon.Types.Env.{TypeEnv}
use tourbillon.Types.Check.Expressions.{
  both_bits, check_field, field_mismatched, record_type, count_types, return_type, external_type,
  call_type,
}
use tourbillon.Diagnostics.{Diagnostic, wrong_arity, field_mismatch}
use tourbillon.Types.Check.TypingRules.{ExternalRule, CallRule, FieldFits}
use tourbillon.Types.Check.TypingRules.Lookups.{return_iff, report_iff, report_if_iff, pair_iff}
use tourbillon.Types.Check.TypingRules.Operators.{reported_iff, all_clear_iff}

external_type_iff :
    (func : String) (sp : Span) (args : Tys) (found : Option (Tys × Option Ty)) (t : Ty)
    → (external_type func sp args found ≡ (t, [])) ↔ ExternalRule found args t
unfolding external_type
external_type_iff func sp args none t = return_iff Ty.error t
external_type_iff func sp args (some (params, ret)) t = ground (
  arith,
  ==_iff (count_types args) (count_types params),
  reported_iff (not (count_types args == count_types params)) sp
      (wrong_arity func (count_types params) (count_types args)) (return_type ret) t,
)

pub call_type_iff :
    (env : TypeEnv) (func : String) (args : Tys) (sp : Span) (t : Ty)
    → (call_type env func args sp ≡ (t, [])) ↔ CallRule env func args t
unfolding call_type
call_type_iff env func (Tys.ty arg Tys.no_tys) sp t = ground (
  arith,
  ==_iff func "Some",
  return_iff (Ty.option arg) t,
  external_type_iff func sp (Tys.ty arg Tys.no_tys) (Dict.lookup func env.external_fns) t,
)
call_type_iff env func args sp t =
    external_type_iff func sp args (Dict.lookup func env.external_fns) t

field_mismatched_iff : (s t : Ty) → (field_mismatched s t ≡ false) ↔ FieldFits s (some t)
unfolding field_mismatched
field_mismatched_iff s t =
    let clear =
      all_clear_iff (same_ty s Ty.error) (same_ty t Ty.error) (same_ty s t) (both_bits s t) in
    (
      (λ h. elim (clear.0 h) [
        | inl (inl e) ↦ inl (inl ((same_ty_iff s Ty.error).0 e))
        | inl (inr e) ↦ inl (inr ((same_ty_iff t Ty.error).0 e))
        | inr (inl e) ↦ inr (inl ((same_ty_iff s t).0 e))
        | inr (inr e) ↦ inr (inr e)
      ]),
      λ fits. clear.1 (elim fits [
        | inl (inl e) ↦ inl (inl ((same_ty_iff s Ty.error).1 e))
        | inl (inr e) ↦ inl (inr ((same_ty_iff t Ty.error).1 e))
        | inr (inl e) ↦ inr (inl ((same_ty_iff s t).1 e))
        | inr (inr e) ↦ inr (inr e)
      ]),
    )

pub check_field_iff :
    (record_name : String) (name : Spanned String) (sp : Span) (val : Ty) (found : Option Ty)
    → (check_field record_name name sp val found ≡ []) ↔ FieldFits val found
unfolding check_field
check_field_iff record_name name sp val none = ((λ h. cc), λ e. absurd e)
check_field_iff record_name name sp val (some expected) =
    let test =
      report_if_iff (field_mismatched val expected) sp (field_mismatch name.node expected val) in
    let fits = field_mismatched_iff val expected in
    ((λ h. fits.0 (test.0 h)), λ e. test.1 (fits.1 e))

pub record_type_iff :
    (name : String) (found : Option Ty) (check : Fields → List Diagnostic) (t : Ty)
    → (record_type name found check ≡ (t, [])) ↔ (
        (r : String) × (fs : Fields) × (found ≡ some (Ty.record_ r fs))
        × (check fs ≡ [])
        × (Ty.record_ r fs ≡ t))
unfolding record_type
record_type_iff name (some (Ty.record_ r fs)) check t = (
  (λ h. (r, fs, refl, ap (λ p. p.1) h, ap (λ p. p.0) h)),
  λ (r', fs', e, f, g).
      let names : r ≡ r' = cc in
      let fields : fs ≡ fs' = cc in
      (pair_iff (Ty.record_ r fs) t (check fs)).1 (ap check fields ∙ f, rw (names, fields) g),
)
record_type_iff name found check t = (
  (λ h. absurd ((report_iff _ Ty.error t).0 h)),
  λ (r, fs, e, _, _). absurd (let no : found ≡ some (Ty.record_ r fs) = e in cc),
)
