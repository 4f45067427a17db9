-- ===== src/Desugar/MemoryTypes.antt =====
-- The type check of the process that a memory becomes: `desugar_memory` of src/desugar.rs under
-- `check_process` of src/types/mod.rs.
use mathlib.Core.List.{append-nil}
use tourbillon.Base.{
  String, false, List, [], ◌∷◌, ◌++◌, some, ◌≡◌, ◌≢◌, refl, ◌∙◌, string_eq, arith, ◌==◌, ==_iff,
  nat_eq,
}
use tourbillon.Base.Dict
use tourbillon.Ast.{Span}
use tourbillon.Ast.Items.{MemoryDecl}
use tourbillon.Types.Ty.{Ty, Tys}
use tourbillon.Types.Env.{TypeEnv, define, define_in, lookup, push_scope, resolve_type_expr}
use tourbillon.Types.Env.Scopes.{lookup-define}
use tourbillon.Types.Check.Expressions.{check_expr, elem_of, mismatched, report_if, count_types}
use tourbillon.Types.Check.Statements.{
  check_stmt, check_stmts, check_put, examine, bind_pattern, count_patterns,
}
use tourbillon.Types.Check.Processes.{
  define_ports, state_ports, check_rule, check_rules, check_process,
}
use tourbillon.Types.Linearity.{
  check_rule_linearity, check_expr_linearity, check_stmt_linearity, check_end, initial_states,
  take_from, put_to,
}
use tourbillon.Desugar.Memories.{memory_process, read_rule, write_rule}
use tourbillon.Diagnostics.{put_mismatch, ◌>>=◌, ◌▸◌}

-- A name that is looked up behind a definition.
module _ (written read : String) (ty : Ty) (env : TypeEnv) (scoped : env.scopes ≢ []) where
  found : written ≡ read → lookup read (define written ty env) ≡ some ty
  found e = ground (arith, (lookup-define written read ty env scoped).0, ==_iff written read)

  passed : (written == read) ≡ false → lookup read (define written ty env) ≡ lookup read env
  passed e = ground (arith, (lookup-define written read ty env scoped).0)

define-scopes :
    (name : String) (ty : Ty) (env : TypeEnv) → env.scopes ≢ [] → (define name ty env).scopes ≢ []
unfolding define
define-scopes name ty env h = go env.scopes h
  where
    go : (scopes : List (Dict.Dict String Ty)) → scopes ≢ [] → define_in name ty scopes ≢ []
    go [] h e = h refl
    go (s ∷ ss) h e = cc

push_scope-scopes : (env : TypeEnv) → (push_scope env).scopes ≢ []
unfolding push_scope
push_scope-scopes env e = cc

abbrev pair : Ty → Ty → Ty
pair key val = Ty.tuple (Tys.ty key (Tys.ty val Tys.no_tys))

-- The rules of a memory, in an environment that has its ports.
module _ (env : TypeEnv) (key val : Ty) (sp : Span) (scoped : env.scopes ≢ []) where
  read_rule-check :
      lookup "read_req" env ≡ some (Ty.queue key (some 1))
      → lookup "read_resp" env ≡ some (Ty.queue val (some 1))
      → (check_stmts (read_rule sp).body env).1
        ≡ report_if (mismatched (Ty.bits 32) val) sp (put_mismatch val (Ty.bits 32))
  unfolding check_stmt check_put examine bind_pattern check_expr elem_of ◌▸◌ ◌>>=◌
  read_rule-check req resp =
      let kept : lookup "read_resp" (define "addr" key env) ≡ some (Ty.queue val (some 1)) =
        passed "addr" "read_resp" key env scoped refl ∙ resp in
      rw (
        req,
        kept,
        append-nil (report_if (mismatched (Ty.bits 32) val) sp (put_mismatch val (Ty.bits 32))),
      )

  write_rule-check :
      lookup "write_req" env ≡ some (Ty.queue (pair key val) (some 1))
      → (check_stmts (write_rule sp).body env).1 ≡ []
  unfolding check_stmt check_put examine bind_pattern check_expr elem_of ◌▸◌ ◌>>=◌ count_patterns
      count_types
  write_rule-check write = rw (write)

read_rule-linear : (sp : Span) → check_rule_linearity (read_rule sp) [] ≡ []
unfolding check_rule_linearity check_expr_linearity check_stmt_linearity check_end initial_states
    take_from put_to Dict.lookup ◌▸◌
read_rule-linear sp = refl

write_rule-linear : (sp : Span) → check_rule_linearity (write_rule sp) [] ≡ []
unfolding check_rule_linearity check_expr_linearity check_stmt_linearity check_end initial_states
    take_from put_to Dict.lookup ◌▸◌
write_rule-linear sp = refl

-- The process that stands for a memory is checked without a diagnostic, except that its placeholder
-- `read_resp.put(0)` is reported when the value type differs from `Bits 32`, is no `Bits` at all and
-- contains no error.
pub check_process-memory_process :
    (env : TypeEnv) (mem : MemoryDecl) (key val : Ty)
    → env.scopes ≢ []
    → resolve_type_expr env mem.key_ty ≡ (key, [])
    → resolve_type_expr env mem.val_ty ≡ (val, [])
    → check_process env (memory_process mem)
      ≡ report_if (mismatched (Ty.bits 32) val) mem.name.span (put_mismatch val (Ty.bits 32))
unfolding check_process define_ports check_rules check_rule state_ports resolve_type_expr ◌>>=◌
check_process-memory_process env mem key val scoped k v =
    let sp = mem.name.span in
    let reported = report_if (mismatched (Ty.bits 32) val) sp (put_mismatch val (Ty.bits 32)) in
    let e1 = define "read_req" (Ty.queue key (some 1)) env in
    let e2 = define "read_resp" (Ty.queue val (some 1)) e1 in
    let e3 = define "write_req" (Ty.queue (pair key val) (some 1)) e2 in
    let s1 = define-scopes "read_req" (Ty.queue key (some 1)) env scoped in
    let s2 = define-scopes "read_resp" (Ty.queue val (some 1)) e1 s1 in
    let s3 = define-scopes "write_req" (Ty.queue (pair key val) (some 1)) e2 s2 in
    let inner : (name : String) → lookup name (push_scope e3) ≡ lookup name e3 =
      λ name. (lookup-define "x" name key e3 s3).1 in
    let req : lookup "read_req" (push_scope e3) ≡ some (Ty.queue key (some 1)) =
      inner "read_req"
      ∙ (passed "write_req" "read_req" _ e2 s2 refl
          ∙ (passed "read_resp" "read_req" _ e1 s1 refl
              ∙ found "read_req" "read_req" _ env scoped refl)) in
    let resp : lookup "read_resp" (push_scope e3) ≡ some (Ty.queue val (some 1)) =
      inner "read_resp"
      ∙ (passed "write_req" "read_resp" _ e2 s2 refl
          ∙ found "read_resp" "read_resp" _ e1 s1 refl) in
    let write : lookup "write_req" (push_scope e3) ≡ some (Ty.queue (pair key val) (some 1)) =
      inner "write_req" ∙ found "write_req" "write_req" _ e2 s2 refl in
    rw
      (
        k,
        v,
        read_rule-check (push_scope e3) key val sp (push_scope-scopes e3) req resp,
        write_rule-check (push_scope e3) key val sp (push_scope-scopes e3) write,
        read_rule-linear sp,
        write_rule-linear sp,
      )
      (append-nil (reported ++ []) ∙ append-nil reported)
