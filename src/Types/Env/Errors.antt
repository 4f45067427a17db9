-- ===== src/Types/Env/Errors.antt =====
-- The error types that the resolution of type expressions leaves, `resolve_type_expr`,
-- `resolve_type_def` and `collect_type_defs` of src/types/env.rs.
use tourbillon.Base.{
  ℕ, ◌+◌, String, List, [], ◌∷◌, ◌++◌, some, ◌≡◌, refl, ap, sym, ◌∙◌, length, length-append, ◌==◌,
  nat_eq, string_eq, arith, Option-cases, inl, inr, append-eq-nil, subst, Bool-cases,
}
use tourbillon.Base.Dict
use tourbillon.Base.Dict.{lookup-insert}
use tourbillon.Ast.{TypeExpr, TypeExprs}
use tourbillon.Ast.Items.{Item, TypeDef, TypeDefKind, Field, Variant}
use tourbillon.Types.Ty.{Ty, Tys, Fields, Variants}
use tourbillon.Types.Env.{
  TypeEnv, numeral, resolve_bits, or_zero, named_type, resolve_type_expr, resolve_named,
  resolve_type_exprs, resolve_list, resolve_fields, resolve_variants, resolve_kind,
  resolve_type_def, collect_type_defs,
}
use tourbillon.Diagnostics.{Reports, ◌>>=◌, return}

-- How often the error type stands in a type, at any depth.
unfoldable mutual
  pub errors : Ty → ℕ
  errors Ty.error = 1
  errors (Ty.bits _) = 0
  errors Ty.bool = 0
  errors (Ty.named _) = 0
  errors (Ty.tuple tys) = tys_errors tys
  errors (Ty.record_ _ fields) = fields_errors fields
  errors (Ty.enum _ variants) = variants_errors variants
  errors (Ty.array elem _) = errors elem
  errors (Ty.queue elem _) = errors elem
  errors (Ty.cell elem) = errors elem
  errors (Ty.async_queue elem _) = errors elem
  errors (Ty.option inner) = errors inner

  pub tys_errors : Tys → ℕ
  tys_errors Tys.no_tys = 0
  tys_errors (Tys.ty t ts) = errors t + tys_errors ts

  pub fields_errors : Fields → ℕ
  fields_errors Fields.no_fields = 0
  fields_errors (Fields.field _ t fs) = errors t + fields_errors fs

  pub variants_errors : Variants → ℕ
  variants_errors Variants.no_variants = 0
  variants_errors (Variants.variant _ ts vs) = tys_errors ts + variants_errors vs

-- No definition of the environment has an error type in it.
abbrev pub IsErrorFree : TypeEnv → Type 0
IsErrorFree env =
    (name : String) (ty : Ty) → Dict.lookup name env.type_defs ≡ some ty → errors ty ≡ 0

-- A chain of reports counts as its parts do, when the measure of what it builds is their sum.
module _ {ℓ κ} {A : Type ℓ} {C : Type κ} (of_a : A → ℕ) (of_c : C → ℕ) where
  length->>=-return :
      (m : Reports A) (build : A → C)
      → length m.1 ≡ of_a m.0
      → ((a : A) → of_c (build a) ≡ of_a a)
      → length (m >>= λ a. return (build a)).1 ≡ of_c (m >>= λ a. return (build a)).0
  unfolding ◌>>=◌
  length->>=-return (a, ds) build h e = omega (arith, length-append ds [], e a, h)

  length->>=->>= {ι} :
      {B : Type ι} (of_b : B → ℕ) (m : Reports A) (n : Reports B) (build : A → B → C)
      → length m.1 ≡ of_a m.0
      → length n.1 ≡ of_b n.0
      → ((a : A) (b : B) → of_c (build a b) ≡ of_a a + of_b b)
      → length (m >>= λ a. n >>= λ b. return (build a b)).1
        ≡ of_c (m >>= λ a. n >>= λ b. return (build a b)).0
  unfolding ◌>>=◌
  length->>=->>= of_b (a, ds) (b, es) build h i e =
      omega (arith, length-append ds (es ++ []), length-append es [], e a b, h, i)

resolve_bits-errors :
    (args : TypeExprs) → length (resolve_bits args).1 ≡ errors (resolve_bits args).0
unfolding resolve_bits errors
resolve_bits-errors TypeExprs.no_types = refl
resolve_bits-errors (TypeExprs.type width TypeExprs.no_types) = ground arith
resolve_bits-errors (TypeExprs.type _ (TypeExprs.type _ _)) = refl

module _ (env : TypeEnv) (free : IsErrorFree env) where
  named_type-errors : (name : String) → 0 ≡ errors (named_type env name)
  unfolding named_type errors
  named_type-errors name = elim (Option-cases (Dict.lookup name env.type_defs)) [
    | inl e ↦ rw (named_type, e) refl
    | inr (ty, e) ↦ rw (named_type, e) (sym (free name ty e))
  ]

  mutual
    unfolding resolve_type_expr errors

    resolve_type_expr-errors :
        (te : TypeExpr) → length (resolve_type_expr env te).1 ≡ errors (resolve_type_expr env te).0
    resolve_type_expr-errors (TypeExpr.named name args _) =
        ground (arith, resolve_bits-errors args, resolve_named-errors name args)
    resolve_type_expr-errors (TypeExpr.product parts _) =
        length->>=-return tys_errors errors (resolve_type_exprs env parts) Ty.tuple
          (resolve_type_exprs-errors parts) (λ tys. refl)
    resolve_type_expr-errors (TypeExpr.queue elem depth _) =
        length->>=-return errors errors (resolve_type_expr env elem) (λ ty. Ty.queue ty depth)
          (resolve_type_expr-errors elem) (λ ty. refl)
    resolve_type_expr-errors (TypeExpr.cell elem _ _) =
        length->>=-return errors errors (resolve_type_expr env elem) Ty.cell
          (resolve_type_expr-errors elem) (λ ty. refl)
    resolve_type_expr-errors (TypeExpr.async_queue elem depth _) =
        length->>=-return errors errors (resolve_type_expr env elem) (λ ty. Ty.async_queue ty depth)
          (resolve_type_expr-errors elem) (λ ty. refl)

    resolve_named-errors :
        (name : String) (args : TypeExprs)
        → length (resolve_named env name args).1 ≡ errors (resolve_named env name args).0
    resolve_named-errors name TypeExprs.no_types = named_type-errors name
    resolve_named-errors name (TypeExprs.type _ TypeExprs.no_types) = named_type-errors name
    resolve_named-errors name (TypeExprs.type size (TypeExprs.type elem TypeExprs.no_types)) =
        let array =
          length->>=-return errors errors (resolve_type_expr env elem)
            (λ ty. Ty.array ty (or_zero (numeral size))) (resolve_type_expr-errors elem)
            (λ ty. refl) in
        ground (arith, named_type-errors name, array)
    resolve_named-errors name (TypeExprs.type _ (TypeExprs.type _ (TypeExprs.type _ _))) =
        named_type-errors name

    resolve_type_exprs-errors :
        (parts : TypeExprs)
        → length (resolve_type_exprs env parts).1 ≡ tys_errors (resolve_type_exprs env parts).0
    resolve_type_exprs-errors TypeExprs.no_types = refl
    resolve_type_exprs-errors (TypeExprs.type part parts) =
        length->>=->>= errors tys_errors tys_errors (resolve_type_expr env part)
          (resolve_type_exprs env parts) Tys.ty (resolve_type_expr-errors part)
          (resolve_type_exprs-errors parts) (λ t ts. refl)

  resolve_list-errors :
      (parts : List TypeExpr)
      → length (resolve_list env parts).1 ≡ tys_errors (resolve_list env parts).0
  unfolding resolve_list errors
  resolve_list-errors [] = refl
  resolve_list-errors (part ∷ parts) =
      length->>=->>= errors tys_errors tys_errors (resolve_type_expr env part)
        (resolve_list env parts) Tys.ty (resolve_type_expr-errors part) (resolve_list-errors parts)
        (λ t ts. refl)

  resolve_fields-errors :
      (fs : List Field) → length (resolve_fields env fs).1 ≡ fields_errors (resolve_fields env fs).0
  unfolding resolve_fields errors
  resolve_fields-errors [] = refl
  resolve_fields-errors (f ∷ fs) =
      length->>=->>= errors fields_errors fields_errors (resolve_type_expr env f.ty)
        (resolve_fields env fs) (Fields.field f.name.node) (resolve_type_expr-errors f.ty)
        (resolve_fields-errors fs) (λ t ts. refl)

  resolve_variants-errors :
      (vs : List Variant)
      → length (resolve_variants env vs).1 ≡ variants_errors (resolve_variants env vs).0
  unfolding resolve_variants errors
  resolve_variants-errors [] = refl
  resolve_variants-errors (v ∷ vs) =
      length->>=->>= tys_errors variants_errors variants_errors (resolve_list env v.fields)
        (resolve_variants env vs) (Variants.variant v.name.node) (resolve_list-errors v.fields)
        (resolve_variants-errors vs) (λ t ts. refl)

  resolve_kind-errors :
      (name : String) (kind : TypeDefKind)
      → length (resolve_kind env name kind).1 ≡ errors (resolve_kind env name kind).0
  unfolding resolve_kind errors
  resolve_kind-errors name (TypeDefKind.alias te) = resolve_type_expr-errors te
  resolve_kind-errors name (TypeDefKind.record_ fs) =
      length->>=-return fields_errors errors (resolve_fields env fs) (Ty.record_ name)
        (resolve_fields-errors fs) (λ fields. refl)
  resolve_kind-errors name (TypeDefKind.enum vs) =
      length->>=-return variants_errors errors (resolve_variants env vs) (Ty.enum name)
        (resolve_variants-errors vs) (λ variants. refl)

  -- In an environment without error types, the resolution of a type definition pushes exactly as
  -- many diagnostics as the error type stands in its result, at any depth.
  pub resolve_type_def-errors :
      (td : TypeDef) → length (resolve_type_def env td).1 ≡ errors (resolve_type_def env td).0
  unfolding resolve_type_def
  resolve_type_def-errors td = resolve_kind-errors td.name.node td.kind

-- A definition whose resolution reports nothing keeps the environment free of error types.
insert-IsErrorFree :
    (env : TypeEnv) (written : String) (ty : Ty)
    → IsErrorFree env
    → errors ty ≡ 0
    → IsErrorFree (record env { type_defs = Dict.insert written ty env.type_defs })
insert-IsErrorFree env written ty free none_in read other h =
    let found = lookup-insert written read ty env.type_defs in
    elim (Bool-cases (written == read)) [
      | inl same ↦
          let there : ty ≡ other = let chosen = rw same at (sym found ∙ h) in cc in
          subst (λ t. errors t ≡ 0) there none_in
      | inr different ↦ free read other (rw different at (sym found ∙ h))
    ]

-- If the collection of the type definitions of a file reports nothing, then it leaves no error type
-- in the definitions, at any depth, given that there was none before.
pub collect_type_defs-IsErrorFree :
    (items : List Item) (env : TypeEnv)
    → IsErrorFree env
    → (collect_type_defs items env).1 ≡ []
    → IsErrorFree (collect_type_defs items env).0
unfolding collect_type_defs
collect_type_defs-IsErrorFree [] env free h = free
collect_type_defs-IsErrorFree (Item.type_def td _ ∷ items) env free h =
    let (silent, rest) = append-eq-nil (resolve_type_def env td).1 _ h in
    let count = resolve_type_def-errors env free td in
    collect_type_defs-IsErrorFree items
      (record env {
        type_defs = Dict.insert td.name.node (resolve_type_def env td).0 env.type_defs;
      })
      (insert-IsErrorFree env td.name.node (resolve_type_def env td).0 free
        (sym count ∙ ap length silent))
      rest
collect_type_defs-IsErrorFree (_ ∷ items) env free h =
    collect_type_defs-IsErrorFree items env free h
