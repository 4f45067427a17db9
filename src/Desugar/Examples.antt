-- ===== src/Desugar/Examples.antt =====
-- Rules and memories, desugared: tests and instances of the theorems.
use tourbillon.Base.{
  ℕ, arith, ◌<◌, ◌^◌, String, List, [], ◌∷◌, map, none, some, ◌≡◌, ◌≢◌, ◌↔◌, refl, string_eq, Any,
}
use tourbillon.Base.Decimal.{digit, digits, decimal}
use tourbillon.Base.Dict
use tourbillon.Ast.{
  Span, Spanned, Expr, Exprs, Pattern, Stmt, Stmts, TypeExpr, TypeExprs, PortKind, Port,
}
use tourbillon.Ast.Items.{MemoryDecl, PortBinding}
use tourbillon.Types.Ty.{Ty}
use tourbillon.Types.Env.{new_env, parse_u64, resolve_type_expr, resolve_bits}
use tourbillon.Types.Check.Expressions.{mismatched, report_if}
use tourbillon.Types.Check.Processes.{check_process}
use tourbillon.Types.Linearity.{CellState, check_expr_linearity, check_stmt_linearity}
use tourbillon.Desugar.{call_by, operation, method_of, desugar_expr}
use tourbillon.Desugar.Bodies.{
  element_name, index_arms, expand_indexed_put, expand_indexed_let, indexed_call, array_call,
  let_operation, plain_let, let_with, desugar_let, finish_put, finish_by, finish_expr,
  desugar_plain, put_by, desugar_expr_stmt, desugar_stmt,
}
use tourbillon.Desugar.Ports.{element_ports, expand_ports, element_bindings}
use tourbillon.Desugar.Memories.{memory_process}
use tourbillon.Desugar.Names.{parse_u64-decimal}
use tourbillon.Desugar.MemoryTypes.{check_process-memory_process}
use tourbillon.Desugar.Rejected.{expand_indexed_let-rejected}
use tourbillon.Desugar.PortNames.{ComesFrom, expand_ports_iff, element_bindings-names}
use tourbillon.Diagnostics.{error_at, unknown_method, put_mismatch, ◌>>=◌}

abbrev sp : Span
sp = record { from = 2; to = 7 }

abbrev at : String → Spanned String
at s = record { node = s; span = sp }

abbrev named : String → Expr
named x = Expr.variable x sp

abbrev call : Expr → String → Exprs → Expr
call receiver method args = Expr.method_call receiver (at method) args sp

-- What a run of the pass unfolds.
run : Unit {0}
unfolding call_by operation method_of desugar_expr element_name index_arms expand_indexed_put
    expand_indexed_let indexed_call array_call let_operation plain_let let_with desugar_let
    finish_put finish_by finish_expr desugar_plain put_by desugar_expr_stmt desugar_stmt digit
    digits decimal Dict.lookup Dict.insert element_ports expand_ports check_expr_linearity
    resolve_type_expr resolve_bits ◌>>=◌
run = tt

decimal_last : decimal 18446744073709551615 ≡ "18446744073709551615"
unfolding run
decimal_last = refl

decimal_zero : decimal 0 ≡ "0"
unfolding run
decimal_zero = refl

flush_fails :
    desugar_expr (call (named "q") "flush" Exprs.none_left)
    ≡ (call (named "q") "flush" Exprs.none_left, error_at sp (unknown_method "flush") ∷ [])
unfolding run
flush_fails = refl

-- let x = q.take(); regs[x].put(regs_out.peek())
abbrev body : Stmts
body = Stmts.stmt (Stmt.let_ (Pattern.bind "x" sp) (call (named "q") "take" Exprs.none_left) sp) (
    Stmts.stmt
      (Stmt.expr
        (call (Expr.index (named "regs") (named "x") sp) "put"
          (Exprs.expr (call (named "out") "peek" Exprs.none_left) Exprs.none_left))
        sp)
      Stmts.done)

abbrev result : Stmts
result =
    Stmts.stmt (Stmt.let_ (Pattern.bind "x" sp) (Expr.take "q" sp) sp)
      (Stmts.stmt (expand_indexed_put "regs" 2 (named "x") (Expr.peek "out" sp) sp) Stmts.done)

parse_u64-decimal_example :
    (parse_u64 (decimal 31) ≡ some 31)
    × ((j : ℕ) → j < 2 ^ 64 → element_name "regs" 31 ≡ element_name "regs" j → 31 ≡ j)
parse_u64-decimal_example = parse_u64-decimal "regs" 31 (omega arith)

-- A memory of Booleans is refused.
abbrev flags : MemoryDecl
flags = record {
  name = at "flags";
  key_ty = TypeExpr.named "Bits" TypeExprs.no_types sp;
  val_ty = TypeExpr.named "Bool" TypeExprs.no_types sp;
  depth = 16;
  latency = 1;
}

key_resolves : resolve_type_expr new_env flags.key_ty ≡ (Ty.bits 32, [])
unfolding run
key_resolves = refl

val_resolves : resolve_type_expr new_env flags.val_ty ≡ (Ty.bool, [])
unfolding run
val_resolves = refl

new_env-scopes : new_env.scopes ≢ []
new_env-scopes h = cc

check_process-memory_process_example :
    check_process new_env (memory_process flags)
    ≡ report_if (mismatched (Ty.bits 32) Ty.bool) sp (put_mismatch Ty.bool (Ty.bits 32))
check_process-memory_process_example =
    check_process-memory_process new_env flags (Ty.bits 32) Ty.bool new_env-scopes key_resolves
      val_resolves

abbrev cells : List (String × CellState)
cells = ("regs_0", CellState.untouched) ∷ ("regs_1", CellState.untouched) ∷ []

index_clean : check_expr_linearity (named "i") cells ≡ (cells, [])
unfolding run
index_clean = refl

zeroth_untouched : Dict.lookup (element_name "regs" 0) cells ≡ some CellState.untouched
unfolding run
zeroth_untouched = refl

first_untouched : Dict.lookup (element_name "regs" 1) cells ≡ some CellState.untouched
unfolding run
first_untouched = refl

expand_indexed_let-rejected_example :
    (check_stmt_linearity
      (expand_indexed_let "regs" 2 (named "i") Expr.take (Pattern.bind "x" sp) sp)
      cells).1
    ≢ []
expand_indexed_let-rejected_example =
    expand_indexed_let-rejected "regs" 0 (named "i") (Pattern.bind "x" sp) sp cells index_clean
      zeroth_untouched first_untouched

abbrev regs : Port
regs = record {
  kind = PortKind.state;
  name = at "regs";
  ty = TypeExpr.cell (TypeExpr.named "Bits" TypeExprs.no_types sp) none sp;
  array_size = some 2;
}

regs_expand : map (λ p. p.name.node) (expand_ports (regs ∷ [])) ≡ "regs_0" ∷ "regs_1" ∷ []
unfolding run
regs_expand = refl

expand_ports_iff_example :
    Any (λ r. regs ≡ r) (expand_ports (regs ∷ []))
    ↔ Any (λ p. ComesFrom p.array_size regs p) (regs ∷ [])
expand_ports_iff_example = expand_ports_iff (regs ∷ []) regs

abbrev binding : PortBinding
binding = record { port = at "regs"; target = at "Writeback.regs" }

element_bindings-names_example :
    map (λ r. r.port.node) (element_bindings binding 2 0)
    ≡ map (λ r. r.name.node) (element_ports regs 2 0)
element_bindings-names_example = element_bindings-names regs binding 2 0 refl
