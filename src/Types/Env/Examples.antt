-- ===== src/Types/Env/Examples.antt =====
-- Environments, looked into: tests and instances of the theorems.
use tourbillon.Base.{
  String, List, ◌∷◌, length, [], none, some, ◌≡◌, ◌≢◌, refl, string_eq, ◌==◌, if◌then◌else◌,
}
use tourbillon.Ast.{Span, TypeExpr, TypeExprs}
use tourbillon.Types.Ty.{Ty}
use tourbillon.Types.Env.{
  TypeEnv, new_env, push_scope, pop_scope, define, lookup, resolve_type_expr, resolve_bits,
  parse_u64, collect_type_defs, resolve_type_def, resolve_fields, resolve_list, resolve_variants,
  named_type,
}
use tourbillon.Base.Dict
use tourbillon.Ast.Items.{Item, TypeDef, TypeDefKind}
use tourbillon.Diagnostics.{◌>>=◌}
use tourbillon.Types.Env.Errors.{
  errors, IsErrorFree, resolve_type_def-errors, collect_type_defs-IsErrorFree,
}
use tourbillon.Types.Env.Scopes.{lookup-define}

parse_plus : parse_u64 "+64" ≡ some 64
unfolding parse_u64
parse_plus = refl

parse_past : parse_u64 "18446744073709551616" ≡ none
unfolding parse_u64
parse_past = refl

parse_last : parse_u64 "18446744073709551615" ≡ some 18446744073709551615
unfolding parse_u64
parse_last = refl

abbrev counter_env : TypeEnv
counter_env = define "count" (Ty.cell (Ty.bits 32)) new_env

counter_env-scopes : counter_env.scopes ≢ []
unfolding define
counter_env-scopes h = cc

lookup-define_example :
    (lookup "count" (define "x" Ty.bool counter_env)
      ≡ (if ◌==◌ {K = String} "x" "count" then some Ty.bool else lookup "count" counter_env))
    × (lookup "count" (push_scope counter_env) ≡ lookup "count" counter_env)
    × (pop_scope (define "x" Ty.bool (push_scope counter_env)) ≡ counter_env)
lookup-define_example = lookup-define "x" "count" Ty.bool counter_env counter_env-scopes

abbrev sp : Span
sp = record { from = 0; to = 4 }

abbrev eight : TypeExprs
eight = TypeExprs.type (TypeExpr.named "8" TypeExprs.no_types sp) TypeExprs.no_types

abbrev wide : TypeExprs
wide = TypeExprs.type (TypeExpr.named "wide" TypeExprs.no_types sp) TypeExprs.no_types

resolved : resolve_type_expr new_env (TypeExpr.named "Bits" eight sp) ≡ (Ty.bits 8, [])
unfolding resolve_type_expr resolve_bits
resolved = refl

-- type Word = Bits 8, and a record with a field of that type.
abbrev word : TypeDef
word = record {
  name = record { node = "Word"; span = sp };
  kind = TypeDefKind.alias (TypeExpr.named "Bits" eight sp);
}

abbrev packet : TypeDef
packet = record {
  name = record { node = "Packet"; span = sp };
  kind = TypeDefKind.record_ (
      record {
        name = record { node = "payload"; span = sp };
        ty = TypeExpr.named "Word" TypeExprs.no_types sp;
      }
      ∷ []);
}

abbrev items : List Item
items = Item.type_def word sp ∷ Item.type_def packet sp ∷ []

new_env-IsErrorFree : IsErrorFree new_env
unfolding Dict.lookup
new_env-IsErrorFree name ty h = absurd (cc)

items-silent : (collect_type_defs items new_env).1 ≡ []
unfolding collect_type_defs resolve_type_expr resolve_fields resolve_bits named_type Dict.insert
    Dict.lookup ◌>>=◌
items-silent = refl

-- An enum with one field whose width is no number.
abbrev reply : TypeDef
reply = record {
  name = record { node = "Reply"; span = sp };
  kind = TypeDefKind.enum (
      record {
        name = record { node = "Word"; span = sp };
        fields = TypeExpr.queue (TypeExpr.named "Bits" wide sp) none sp ∷ [];
      }
      ∷ []);
}

resolve_type_def-errors_example :
    length (resolve_type_def new_env reply).1 ≡ errors (resolve_type_def new_env reply).0
resolve_type_def-errors_example = resolve_type_def-errors new_env new_env-IsErrorFree reply

reply-errors : errors (resolve_type_def new_env reply).0 ≡ 1
unfolding errors resolve_type_def resolve_type_expr resolve_list resolve_variants resolve_bits ◌>>=◌
reply-errors = refl

collect_type_defs-IsErrorFree_example : IsErrorFree (collect_type_defs items new_env).0
collect_type_defs-IsErrorFree_example =
    collect_type_defs-IsErrorFree items new_env new_env-IsErrorFree items-silent
