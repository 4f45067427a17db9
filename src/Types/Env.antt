-- ===== src/Types/Env.antt =====
-- The type environment, src/types/env.rs. The stack of scopes has the innermost scope first (the
-- source's `Vec` has it last).
pub mod Scopes
pub mod Errors
mod Examples
use Prim.Native.Char.{code}
use tourbillon.Base.{
  ℕ, ◌+◌, ◌-◌, ◌*◌, ◌^◌, String, Bool, true, false, ◌&&◌, List, [], ◌∷◌, ◌++◌, Option, none, some,
  leb, ltb, ◌==◌, nat_eq, string_eq, if◌then◌else◌,
}
use tourbillon.Base.Dict
use tourbillon.Base.Dict.{Dict}
use tourbillon.Base.Sets
use tourbillon.Ast.{Span, Spanned, Expr, TypeExpr, TypeExprs}
use tourbillon.Ast.Items.{
  ConstDef, ExternalFnDef, Field, Variant, TypeDefKind, TypeDef, Item, SourceFile,
}
use tourbillon.Types.Ty.{Ty, Tys, Fields, Variants}
use tourbillon.Diagnostics.{
  Diagnostic, error_at, not_a_width, Pass, skip, ◌▸◌, Reports, return, report, ◌>>=◌,
}

pub record TypeEnv : Type 0 where
  pub type_defs : Dict String Ty
  pub scopes : List (Dict String Ty)
  pub constants : Dict String ℕ
  pub external_constants : List String
  pub external_fns : Dict String (Tys × Option Ty)

-- `TypeEnv::new`
abbrev pub new_env : TypeEnv
new_env = record {
  type_defs = [];
  scopes = [] ∷ [];
  constants = [];
  external_constants = [];
  external_fns = [];
}

abbrev is_digit : ℕ → Bool
is_digit c = leb b'0' c && leb c b'9'

-- The digits of a text behind a value; `none` at any other character and past 2^64.
unfoldable pub parse_digits : ℕ → String → Option ℕ
parse_digits acc String.[] = some acc
parse_digits acc (String.◌∷◌ c s) =
    let next = acc * 10 + (code c - b'0') in
    let rest = parse_digits next s in if is_digit (code c) && ltb next (2 ^ 64) then rest else none

-- `str::parse::<u64>`: decimal digits, at least one, after an optional `+`.
unfoldable pub parse_u64 : String → Option ℕ
unfolding parse_digits
parse_u64 String.[] = none
parse_u64 (String.◌∷◌ c String.[]) = parse_digits 0 (String.◌∷◌ c String.[])
parse_u64 (String.◌∷◌ c (String.◌∷◌ d s)) =
    if code c == b'+'
    then parse_digits 0 (String.◌∷◌ d s)
    else parse_digits 0 (String.◌∷◌ c (String.◌∷◌ d s))

-- The span of a type expression, the `.span` of `Spanned<TypeExpr>`.
abbrev pub type_span : TypeExpr → Span
type_span (TypeExpr.named _ _ sp) = sp
type_span (TypeExpr.product _ sp) = sp
type_span (TypeExpr.queue _ _ sp) = sp
type_span (TypeExpr.cell _ _ sp) = sp
type_span (TypeExpr.async_queue _ _ sp) = sp

-- The number that an argument such as the `32` of `Bits 32` is.
unfoldable pub numeral : TypeExpr → Option ℕ
unfolding parse_u64
numeral (TypeExpr.named digits TypeExprs.no_types _) = parse_u64 digits
numeral _ = none

unfoldable pub resolve_bits : TypeExprs → Reports Ty
unfolding numeral
resolve_bits (TypeExprs.type width TypeExprs.no_types) = elim (numeral width) [
  | some n ↦ return (Ty.bits n)
  | none ↦ report (error_at (type_span width) not_a_width) Ty.error
]
resolve_bits _ = return (Ty.bits 32)

abbrev pub or_zero : Option ℕ → ℕ
or_zero none = 0
or_zero (some n) = n

module _ (env : TypeEnv) where
  -- A name that is no built-in type.
  unfoldable pub named_type : String → Ty
  named_type name = elim (Dict.lookup name env.type_defs) [ some ty ↦ ty | none ↦ Ty.named name ]

  unfoldable mutual
    pub resolve_type_expr : TypeExpr → Reports Ty
    resolve_type_expr (TypeExpr.named name args _) =
        let bits = resolve_bits args in
        let other = resolve_named name args in
        if name == "Bits" then bits else if name == "Bool" then return Ty.bool else other
    resolve_type_expr (TypeExpr.product parts _) =
        resolve_type_exprs parts >>= λ tys. return (Ty.tuple tys)
    resolve_type_expr (TypeExpr.queue elem depth _) =
        resolve_type_expr elem >>= λ ty. return (Ty.queue ty depth)
    resolve_type_expr (TypeExpr.cell elem _ _) =
        resolve_type_expr elem >>= λ ty. return (Ty.cell ty)
    resolve_type_expr (TypeExpr.async_queue elem depth _) =
        resolve_type_expr elem >>= λ ty. return (Ty.async_queue ty depth)

    -- `Array(N, T)`, and names that are looked up.
    pub resolve_named : String → TypeExprs → Reports Ty
    resolve_named name (TypeExprs.type size (TypeExprs.type elem TypeExprs.no_types)) =
        let array =
          resolve_type_expr elem >>= λ ty. return (Ty.array ty (or_zero (numeral size))) in
        if name == "Array" then array else return (named_type name)
    resolve_named name _ = return (named_type name)

    pub resolve_type_exprs : TypeExprs → Reports Tys
    resolve_type_exprs TypeExprs.no_types = return Tys.no_tys
    resolve_type_exprs (TypeExprs.type part parts) =
        resolve_type_expr part >>= λ ty. resolve_type_exprs parts >>= λ tys. return (Tys.ty ty tys)

  unfoldable pub resolve_list : List TypeExpr → Reports Tys
  resolve_list [] = return Tys.no_tys
  resolve_list (part ∷ parts) =
      resolve_type_expr part >>= λ ty. resolve_list parts >>= λ tys. return (Tys.ty ty tys)

  unfoldable pub resolve_fields : List Field → Reports Fields
  resolve_fields [] = return Fields.no_fields
  resolve_fields (f ∷ fs) = resolve_type_expr f.ty >>= λ ty.
      resolve_fields fs >>= λ fields. return (Fields.field f.name.node ty fields)

  unfoldable pub resolve_variants : List Variant → Reports Variants
  resolve_variants [] = return Variants.no_variants
  resolve_variants (v ∷ vs) = resolve_list v.fields >>= λ tys.
      resolve_variants vs >>= λ variants. return (Variants.variant v.name.node tys variants)

  unfoldable pub resolve_kind : String → TypeDefKind → Reports Ty
  resolve_kind name (TypeDefKind.alias te) = resolve_type_expr te
  resolve_kind name (TypeDefKind.record_ fs) =
      resolve_fields fs >>= λ fields. return (Ty.record_ name fields)
  resolve_kind name (TypeDefKind.enum vs) =
      resolve_variants vs >>= λ variants. return (Ty.enum name variants)

  unfoldable pub resolve_type_def : TypeDef → Reports Ty
  unfolding resolve_kind
  resolve_type_def td = resolve_kind td.name.node td.kind

  -- The return type of an external function, if it has one.
  unfoldable pub resolve_option : Option TypeExpr → Reports (Option Ty)
  resolve_option none = return none
  resolve_option (some te) = resolve_type_expr te >>= λ ty. return (some ty)

unfoldable pub type_exprs_of : List (Spanned String × TypeExpr) → List TypeExpr
type_exprs_of [] = []
type_exprs_of ((_, te) ∷ params) = te ∷ type_exprs_of params

-- First pass over the items: each definition sees the ones before it.
unfoldable pub collect_type_defs : List Item → Pass TypeEnv
unfolding resolve_type_def
collect_type_defs [] env = skip env
collect_type_defs (Item.type_def td _ ∷ items) env =
    let (ty, ds) = resolve_type_def env td in
    let (env', es) =
      collect_type_defs items
        (record env { type_defs = Dict.insert td.name.node ty env.type_defs }) in
    (env', ds ++ es)
collect_type_defs (_ ∷ items) env = collect_type_defs items env

unfoldable pub collect_constants : List Item → TypeEnv → TypeEnv
collect_constants [] env = env
collect_constants (Item.const cd _ ∷ items) env = collect_constants items (record env {
  constants = Dict.insert cd.name.node cd.value env.constants;
  external_constants =
      if cd.is_external
      then Sets.insert cd.name.node env.external_constants
      else env.external_constants;
})
collect_constants (_ ∷ items) env = collect_constants items env

unfoldable pub collect_external_fns : List Item → Pass TypeEnv
unfolding resolve_list resolve_option
collect_external_fns [] env = skip env
collect_external_fns (Item.external_fn ef _ ∷ items) env =
    let (params, ds) = resolve_list env (type_exprs_of ef.params) in
    let (ret, es) = resolve_option env ef.return_ty in
    let (env', fs) =
      collect_external_fns items
        (record env { external_fns = Dict.insert ef.name.node (params, ret) env.external_fns }) in
    (env', ds ++ (es ++ fs))
collect_external_fns (_ ∷ items) env = collect_external_fns items env

unfoldable pub push_scope : TypeEnv → TypeEnv
push_scope env = record env { scopes = [] ∷ env.scopes }

abbrev pub rest_of : List (Dict String Ty) → List (Dict String Ty)
rest_of [] = []
rest_of (_ ∷ scopes) = scopes

unfoldable pub pop_scope : TypeEnv → TypeEnv
pop_scope env = record env { scopes = rest_of env.scopes }

abbrev pub define_in : String → Ty → List (Dict String Ty) → List (Dict String Ty)
define_in name ty [] = []
define_in name ty (scope ∷ scopes) = Dict.insert name ty scope ∷ scopes

unfoldable pub define : String → Ty → TypeEnv → TypeEnv
define name ty env = record env { scopes = define_in name ty env.scopes }

unfoldable pub lookup_in : String → List (Dict String Ty) → Option Ty
lookup_in name [] = none
lookup_in name (scope ∷ scopes) = elim (Dict.lookup name scope) [
  | some ty ↦ some ty
  | none ↦ lookup_in name scopes
]

unfoldable pub lookup : String → TypeEnv → Option Ty
unfolding lookup_in
lookup name env = lookup_in name env.scopes
