-- ===== src/Types/Check/Examples.antt =====
-- A counter, checked: tests and instances of the theorems.
use tourbillon.Base.{String, [], ◌∷◌, none, ◌≡◌, ◌↔◌, refl, string_eq}
use tourbillon.Base.Dict
use tourbillon.Ast.{
  Span, Spanned, Literal, BinOp, Expr, Pattern, Stmt, Stmts, Arms, TypeExpr, TypeExprs, PortKind,
  Port, Rule, Process,
}
use tourbillon.Ast.Items.{Item, SourceFile}
use tourbillon.Types.Ty.{Ty, same_ty}
use tourbillon.Types.Env.{
  TypeEnv, new_env, define, push_scope, pop_scope, lookup, resolve_type_expr, resolve_bits,
  collect_type_defs, collect_constants, collect_external_fns,
}
use tourbillon.Types.Check.Expressions.{
  check_expr, elem_of, variable_type, operator_type, mismatched, slice_type,
}
use tourbillon.Types.Check.Statements.{
  check_stmt, check_stmts, check_match_arms, in_scope, bind_pattern, check_put, examine,
}
use tourbillon.Types.Check.Processes.{
  define_ports, state_ports, check_rule, check_rules, check_process, check_item, check_items, check,
}
use tourbillon.Types.Check.Scopes.{check_stmts-scopes}
use tourbillon.Types.Check.Kinds.{is_state, with_kinds, check_process-with_kinds}
use tourbillon.Types.Check.Typing.{HasType}
use tourbillon.Types.Check.Typing.Decision.{check_expr_iff}
use tourbillon.Types.Linearity.{
  take_from, put_to, check_expr_linearity, check_stmt_linearity, initial_states, check_end,
  check_rule_linearity,
}
use tourbillon.Diagnostics.{◌▸◌, ◌>>=◌}

abbrev sp : Span
sp = record { from = 3; to = 9 }

abbrev at : String → Spanned String
at s = record { node = s; span = sp }

-- let c = count.take(); count.put(c + 1)
abbrev tick : Rule
tick = record {
  name = at "tick";
  body = Stmts.stmt (Stmt.let_ (Pattern.bind "c" sp) (Expr.take "count" sp) sp) (
      Stmts.stmt
        (Stmt.put (at "count")
          (Expr.bin_op BinOp.add (Expr.variable "c" sp) (Expr.lit (Literal.int 1) sp) sp) sp)
        Stmts.done);
}

abbrev count_port : Port
count_port = record {
  kind = PortKind.state;
  name = at "count";
  ty = TypeExpr.cell (TypeExpr.named "Bits" TypeExprs.no_types sp) none sp;
  array_size = none;
}

abbrev counter : Process
counter = record { name = at "Counter"; ports = count_port ∷ []; rules = tick ∷ [] }

abbrev program : SourceFile
program = record { items = Item.process counter sp ∷ [] }

-- What a run of the checker unfolds.
run : Unit {0}
unfolding check check_items check_item check_process check_rules check_rule define_ports state_ports
    collect_type_defs collect_external_fns collect_constants resolve_type_expr define lookup
    push_scope pop_scope check_stmt bind_pattern check_put examine check_expr elem_of variable_type
    operator_type mismatched slice_type check_rule_linearity initial_states check_end resolve_bits
    same_ty check_stmt_linearity check_expr_linearity take_from put_to Dict.lookup Dict.insert ◌▸◌
    ◌>>=◌
run = tt

-- A queue that the process should write to is read from.
abbrev swap : PortKind → PortKind
swap PortKind.consumes = PortKind.produces
swap PortKind.produces = PortKind.peeks
swap PortKind.peeks = PortKind.consumes
swap PortKind.state = PortKind.state

swap-is_state : (k : PortKind) → is_state (swap k) ≡ is_state k
swap-is_state PortKind.consumes = refl
swap-is_state PortKind.produces = refl
swap-is_state PortKind.peeks = refl
swap-is_state PortKind.state = refl

abbrev reader : Process
reader = record {
  name = at "Reader";
  ports = record count_port { kind = PortKind.consumes } ∷ [];
  rules = tick ∷ [];
}

check_process-with_kinds_example :
    check_process new_env (record reader { ports = with_kinds swap reader.ports })
    ≡ check_process new_env reader
check_process-with_kinds_example = check_process-with_kinds swap new_env reader swap-is_state

abbrev word_env : TypeEnv
word_env = define "word" (Ty.bits 8) new_env

abbrev word : Expr
word = Expr.variable "word" sp

check_stmts-scopes_example :
    (pop_scope (check_stmts tick.body word_env).0 ≡ pop_scope word_env)
    × ((in_scope (check_stmts tick.body) word_env).0 ≡ word_env)
    × ((ty : Ty) (arms : Arms) → (check_match_arms ty arms word_env).0 ≡ word_env)
check_stmts-scopes_example = check_stmts-scopes tick.body word_env

check_expr_iff_example :
    (check_expr word_env (Expr.bit_slice word 3 2 sp) ≡ (Ty.bits 2, []))
    ↔ HasType word_env (Expr.bit_slice word 3 2 sp) (Ty.bits 2)
check_expr_iff_example = check_expr_iff word_env (Expr.bit_slice word 3 2 sp) (Ty.bits 2)
