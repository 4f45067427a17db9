-- ===== src/Types/Check/TypingRules/Operators.antt =====
-- Operators and slices in `check_expr` of src/types/check.rs test the side conditions of their
-- typing rules.
use tourbillon.Base.{
  ℕ, Bool, true, false, not, ◌&&◌, [], ◌∷◌, ◌++◌, ◌≡◌, ◌↔◌, ◌⊎◌, inl, inr, nat_eq, string_eq, leb,
  ltb, arith,
}
use tourbillon.Ast.{Span, BinOp}
use tourbillon.Types.Ty.{Ty, same_ty}
use tourbillon.Types.Ty.Equality.{same_ty_iff}
use tourbillon.Types.Check.Expressions.{
  both_bits, contains_error, mismatched, report_if, first_type, not_bool, family, Family,
  operator_type, slice_width, slice_type,
}
use tourbillon.Diagnostics.{
  Message, error_at, Reports, type_mismatch, comparison_mismatch, expected_bool, slice_out_of_range,
  slice_reversed,
}
use tourbillon.Types.Check.TypingRules.{Agree, IsTruth, FamilyRule, SliceRule}
use tourbillon.Types.Check.TypingRules.Lookups.{return_iff, report_iff, report_if_iff, pair_iff}

pub all_clear_iff :
    (a b c d : Bool)
    → ((not a && (not b && (not c && not d))) ≡ false)
      ↔ (((a ≡ true) ⊎ (b ≡ true)) ⊎ ((c ≡ true) ⊎ (d ≡ true)))
all_clear_iff a b c d = ground arith

pub mismatched_iff : (s t : Ty) → (mismatched s t ≡ false) ↔ Agree s t
unfolding mismatched
mismatched_iff s t =
    let bits = both_bits s t in
    let clear = all_clear_iff (contains_error s) (contains_error t) (same_ty s t) bits in
    (
      (λ h. elim (clear.0 h) [
        | inl e ↦ inl e
        | inr (inl e) ↦ inr (inl ((same_ty_iff s t).0 e))
        | inr (inr e) ↦ inr (inr e)
      ]),
      λ agree. clear.1 (elim agree [
        | inl e ↦ inl e
        | inr (inl e) ↦ inr (inl ((same_ty_iff s t).1 e))
        | inr (inr e) ↦ inr (inr e)
      ]),
    )

pub not_bool_iff : (t : Ty) → (not_bool t ≡ false) ↔ IsTruth t
not_bool_iff t = ground arith

pub reported_iff :
    (b : Bool) (sp : Span) (m : Message) (a u : Ty)
    → (◌≡◌ {A = Reports Ty} (a, report_if b sp m) (u, [])) ↔ ((b ≡ false) × (a ≡ u))
reported_iff b sp m a u = ground (arith, pair_iff a u (report_if b sp m), report_if_iff b sp m)

reported_twice_iff :
    (b c : Bool) (sp sp' : Span) (m m' : Message) (a u : Ty)
    → (◌≡◌ {A = Reports Ty} (a, report_if b sp m ++ report_if c sp' m') (u, []))
      ↔ ((b ≡ false) × (c ≡ false) × (a ≡ u))
reported_twice_iff true c sp sp' m m' a u =
    ground (arith, pair_iff a u (error_at sp m ∷ report_if c sp' m'))
reported_twice_iff false c sp sp' m m' a u = ground (arith, reported_iff c sp' m' a u)

pub family_type_iff :
    (f : Family) (s t : Ty) (sp left right : Span) (u : Ty)
    → (◌≡◌ {A = Reports Ty}
        (elim f [
          | Family.arithmetic ↦ (first_type s t, report_if (mismatched s t) sp (type_mismatch s t))
          | Family.comparison ↦ (Ty.bool, report_if (mismatched s t) sp (comparison_mismatch s t))
          | Family.logical ↦ (
            Ty.bool,
            report_if (not_bool s) left (expected_bool s)
                ++ report_if (not_bool t) right (expected_bool t),
          )
        ])
        (u, []))
      ↔ FamilyRule f s t u
family_type_iff Family.arithmetic s t sp left right u = ground (
  arith,
  reported_iff (mismatched s t) sp (type_mismatch s t) (first_type s t) u,
  mismatched_iff s t,
)
family_type_iff Family.comparison s t sp left right u = ground (
  arith,
  reported_iff (mismatched s t) sp (comparison_mismatch s t) Ty.bool u,
  mismatched_iff s t,
)
family_type_iff Family.logical s t sp left right u = ground (
  arith,
  not_bool_iff s,
  not_bool_iff t,
  reported_twice_iff (not_bool s) (not_bool t) left right (expected_bool s) (expected_bool t)
      Ty.bool u,
)

pub operator_type_iff :
    (op : BinOp) (s t : Ty) (sp left right : Span) (u : Ty)
    → (operator_type op s t sp left right ≡ (u, [])) ↔ FamilyRule (family op) s t u
unfolding operator_type
operator_type_iff op s t sp left right u = family_type_iff (family op) s t sp left right u

pub slice_type_iff :
    (s : Ty) (hi lo : ℕ) (sp : Span) (t : Ty)
    → (slice_type s hi lo sp ≡ (t, [])) ↔ SliceRule s hi lo t
unfolding slice_type
slice_type_iff (Ty.bits n) hi lo sp t = ground (
  arith,
  reported_twice_iff (leb n hi) (ltb hi lo) sp sp (slice_out_of_range hi n) (slice_reversed lo hi)
      (Ty.bits (slice_width hi lo)) t,
)
slice_type_iff Ty.error hi lo sp t = return_iff Ty.error t
slice_type_iff s hi lo sp t = report_iff _ Ty.error t
