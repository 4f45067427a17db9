-- ===== src/Types/Check/TypingRules/Lookups.antt =====
-- Variables, ports, fields and indices in `check_expr` of src/types/check.rs test the side
-- conditions of their typing rules.
use tourbillon.Base.{
  String, Bool, true, false, List, [], ◌∷◌, Option, none, some, ◌≡◌, ◌∙◌, ◌↔◌, ◌⊎◌, refl, sym, ap,
  ==_iff, nat_eq, string_eq, arith, if◌then◌else◌,
}
use tourbillon.Base.Dict
use tourbillon.Ast.{Span, Spanned}
use tourbillon.Types.Ty.{Ty}
use tourbillon.Types.Env.{TypeEnv, lookup}
use tourbillon.Types.Check.Expressions.{
  report_if, port_elem, elem_of, variable_type, find_field, field_type, index_type, update_type,
}
use tourbillon.Diagnostics.{
  Message, Diagnostic, error_at, Reports, return, report, not_a_queue, undefined_port,
  undefined_variable, no_field,
}
use tourbillon.Types.Check.TypingRules.{VariableRule, FieldRule, IndexRule, UpdateRule}

pub report_if_iff : (b : Bool) (sp : Span) (m : Message) → (report_if b sp m ≡ []) ↔ (b ≡ false)
report_if_iff b sp m = ground arith

pub pair_iff :
    {A : Type 0} (a b : A) (ds : List Diagnostic)
    → (◌≡◌ {A = Reports A} (a, ds) (b, [])) ↔ ((ds ≡ []) × (a ≡ b))
pair_iff a b ds = ((λ h. (ap (λ p. p.1) h, ap (λ p. p.0) h)), λ (e, f). rw (e, f))

pub return_iff : (a b : Ty) → (return a ≡ (b, [])) ↔ (a ≡ b)
return_iff a b = ((λ h. ap (λ p. p.0) h), λ e. rw e)

pub report_iff : (d : Diagnostic) (a b : Ty) → (report d a ≡ (b, [])) ↔ ⊥
report_iff d a b = ((λ h. let full : d ∷ [] ≡ [] = ap (λ p. p.1) h in cc), λ e. absurd e)

found_iff :
    (wrap : Ty → Ty) (d : Diagnostic) (found : Option Ty) (t : Ty)
    → (elim found [ some ty ↦ return (wrap ty) | none ↦ report d Ty.error ] ≡ (t, []))
      ↔ ((ty : Ty) × (found ≡ some ty) × (wrap ty ≡ t))
found_iff wrap d none t = (
  (λ h. absurd ((report_iff d Ty.error t).0 h)),
  λ (ty, e, f). absurd (let no : none ≡ some ty = e in cc),
)
found_iff wrap d (some ty) t = (
  (λ h. (ty, refl, (return_iff (wrap ty) t).0 h)),
  λ (ty', e, f). let same : ty ≡ ty' = cc in rw (same, f) refl,
)

constant_iff :
    (b : Bool) (d : Diagnostic) (t : Ty)
    → ((if b then return (Ty.bits 32) else report d Ty.error) ≡ (t, []))
      ↔ ((b ≡ true) × (Ty.bits 32 ≡ t))
constant_iff true d t = ground (arith, return_iff (Ty.bits 32) t)
constant_iff false d t = ground (arith, report_iff d Ty.error t)

bound_iff :
    (b : Bool) (d : Diagnostic) (found : Option Ty) (t : Ty)
    → (elim found [
      | some ty ↦ return ty
      | none ↦ if b then return (Ty.bits 32) else report d Ty.error
    ]
        ≡ (t, []))
      ↔ ((found ≡ some t) ⊎ ((found ≡ none) × (b ≡ true) × (Ty.bits 32 ≡ t)))
bound_iff b d none t = ground (arith, constant_iff b d t)
bound_iff b d (some ty) t = ground (arith, return_iff ty t)

pub variable_type_iff :
    (env : TypeEnv) (name : String) (sp : Span) (t : Ty)
    → (variable_type env name sp ≡ (t, [])) ↔ VariableRule env name t
unfolding variable_type
variable_type_iff env name sp t = ground (
  arith,
  ==_iff name "None",
  return_iff (Ty.option Ty.error) t,
  bound_iff (Dict.has_key name env.constants) (error_at sp (undefined_variable name))
      (lookup name env) t,
)

pub elem_of_iff :
    (name : String) (sp : Span) (wrap : Ty → Ty) (found : Option Ty) (t : Ty)
    → (elem_of name sp wrap found ≡ (t, []))
      ↔ ((p : Ty) × (elem : Ty) × (found ≡ some p) × (port_elem p ≡ some elem) × (wrap elem ≡ t))
unfolding elem_of
elem_of_iff name sp wrap none t = (
  (λ h. absurd ((report_iff (error_at sp (undefined_port name)) Ty.error t).0 h)),
  λ (p, elem, e, f, g). absurd (let no : none ≡ some p = e in cc),
)
elem_of_iff name sp wrap (some p) t =
    let here = found_iff wrap (error_at sp (not_a_queue name)) (port_elem p) t in
    (
      (λ h. let (elem, e, f) = here.0 h in (p, elem, refl, e, f)),
      λ (p', elem, e, f, g). let same : p ≡ p' = cc in here.1 (elem, ap port_elem same ∙ f, g),
    )

pub field_type_iff :
    (s : Ty) (field : Spanned String) (sp : Span) (t : Ty)
    → (field_type s field sp ≡ (t, [])) ↔ FieldRule s field.node t
unfolding field_type
field_type_iff (Ty.record_ r fields) field sp t =
    let here =
      found_iff (λ ty. ty) (error_at field.span (no_field field.node (Ty.record_ r fields)))
        (find_field field.node fields) t in
    ((λ h. let (ty, e, f) = here.0 h in rw (sym f) e), λ e. here.1 (t, e, refl))
field_type_iff Ty.error field sp t = return_iff Ty.error t
field_type_iff s field sp t = report_iff _ Ty.error t

pub index_type_iff : (s : Ty) (sp : Span) (t : Ty) → (index_type s sp ≡ (t, [])) ↔ IndexRule s t
unfolding index_type
index_type_iff (Ty.array elem _) sp t = return_iff elem t
index_type_iff Ty.error sp t = return_iff Ty.error t
index_type_iff s sp t = report_iff _ Ty.error t

pub update_type_iff : (s : Ty) (sp : Span) (t : Ty) → (update_type s sp ≡ (t, [])) ↔ UpdateRule s t
unfolding update_type
update_type_iff (Ty.array elem n) sp t = return_iff (Ty.array elem n) t
update_type_iff Ty.error sp t = return_iff Ty.error t
update_type_iff s sp t = report_iff _ Ty.error t
