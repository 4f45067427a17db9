-- ===== src/Desugar.antt =====
-- Desugaring, src/desugar.rs: method calls become queue operations, array ports become numbered
-- ports, memories become processes.
pub mod Bodies
pub mod Ports
pub mod Memories
pub mod Items
pub mod Names
pub mod Meaning
pub mod Surface
pub mod Choices
pub mod Readings
pub mod Again
pub mod Indexed
pub mod Statements
pub mod Calls
pub mod Paths
pub mod MemoryTypes
pub mod Rejected
pub mod PortNames
mod Examples
use Prim.Native.String as Text
use tourbillon.Base.{
  ℕ, zero, suc, ◌+◌, String, List, [], ◌∷◌, Option, none, some, ◌==◌, string_eq, if◌then◌else◌,
}
use tourbillon.Base.Decimal.{decimal}
use tourbillon.Base.Dict
use tourbillon.Base.Dict.{Dict}
use tourbillon.Ast.{
  Span, Spanned, Literal, Expr, Exprs, FieldInits, Pattern, Stmt, Stmts, Arms, expr_span,
}
use tourbillon.Diagnostics.{
  Diagnostic, error_at, takes_no_arguments, put_arity, put_receiver, unknown_method, Reports,
  return, report, ◌>>=◌,
}

-- The names that the source compares a method's name with.
pub data Method : Type 0 where
  take try_take peek put other : Method

unfoldable pub method_of : String → Method
method_of name =
    if name == "take"
    then Method.take
    else if name == "try_take"
    then Method.try_take
    else if name == "peek"
    then Method.peek
    else if name == "put"
    then Method.put
    else Method.other

abbrev pub extract_ident : Expr → Option String
extract_ident (Expr.variable name _) = some name
extract_ident _ = none

abbrev pub extract_indexed_ident : Expr → Option (String × Expr)
extract_indexed_ident (Expr.index (Expr.variable name _) idx _) = some (name, idx)
extract_indexed_ident _ = none

abbrev pub is_empty_exprs : Exprs → List Diagnostic → List Diagnostic
is_empty_exprs Exprs.none_left ds = []
is_empty_exprs (Exprs.expr _ _) ds = ds

-- A queue operation, by its method and the receiver that was found.
unfoldable pub operation :
    (found : Option String)
    → (String → Span → Expr)
    → (kept : Expr) → Spanned String
    → Exprs
    → Span
    → Reports Expr
operation none op kept method args sp = return kept
operation (some queue) op kept method args sp =
    (op queue sp, is_empty_exprs args (error_at method.span (takes_no_arguments method.node) ∷ []))

-- A method call after its receiver and its arguments, by the method. `original` is the call as it
-- was written.
unfoldable pub call_by :
    Method → (original receiver : Expr) → Spanned String → Exprs → Span → Reports Expr
unfolding operation
call_by Method.take original receiver method args sp =
    operation (extract_ident receiver) Expr.take (Expr.method_call receiver method args sp) method
      args sp
call_by Method.try_take original receiver method args sp =
    operation (extract_ident receiver) Expr.try_take (Expr.method_call receiver method args sp)
      method args sp
call_by Method.peek original receiver method args sp =
    operation (extract_ident receiver) Expr.peek (Expr.method_call receiver method args sp) method
      args sp
call_by Method.put original receiver method args sp =
    return (Expr.method_call receiver method args sp)
call_by Method.other original receiver method args sp =
    report (error_at method.span (unknown_method method.node)) original

abbrev pub desugar_call : (original receiver : Expr) → Spanned String → Exprs → Span → Reports Expr
desugar_call original receiver method args sp =
    call_by (method_of method.node) original receiver method args sp

unfoldable mutual
  pub desugar_expr : Expr → Reports Expr
  desugar_expr (Expr.method_call receiver method args sp) = desugar_expr receiver >>= λ r.
      desugar_exprs args >>= λ argv.
      desugar_call (Expr.method_call receiver method args sp) r method argv sp
  desugar_expr (Expr.bin_op op lhs rhs sp) =
      desugar_expr lhs >>= λ l. desugar_expr rhs >>= λ r. return (Expr.bin_op op l r sp)
  desugar_expr (Expr.unary_op op inner sp) =
      desugar_expr inner >>= λ e. return (Expr.unary_op op e sp)
  desugar_expr (Expr.call func args sp) =
      desugar_exprs args >>= λ argv. return (Expr.call func argv sp)
  desugar_expr (Expr.tuple items sp) = desugar_exprs items >>= λ es. return (Expr.tuple es sp)
  desugar_expr (Expr.construct name fields sp) =
      desugar_inits fields >>= λ fs. return (Expr.construct name fs sp)
  desugar_expr (Expr.field_access inner field sp) =
      desugar_expr inner >>= λ e. return (Expr.field_access e field sp)
  desugar_expr (Expr.index inner idx sp) =
      desugar_expr inner >>= λ e. desugar_expr idx >>= λ i. return (Expr.index e i sp)
  desugar_expr (Expr.update inner idx value sp) = desugar_expr inner >>= λ e.
      desugar_expr idx >>= λ i. desugar_expr value >>= λ v. return (Expr.update e i v sp)
  desugar_expr (Expr.bit_slice inner hi lo sp) =
      desugar_expr inner >>= λ e. return (Expr.bit_slice e hi lo sp)
  desugar_expr (Expr.lit l sp) = return (Expr.lit l sp)
  desugar_expr (Expr.variable name sp) = return (Expr.variable name sp)
  desugar_expr (Expr.take q sp) = return (Expr.take q sp)
  desugar_expr (Expr.try_take q sp) = return (Expr.try_take q sp)
  desugar_expr (Expr.peek q sp) = return (Expr.peek q sp)

  pub desugar_exprs : Exprs → Reports Exprs
  desugar_exprs Exprs.none_left = return Exprs.none_left
  desugar_exprs (Exprs.expr e es) =
      desugar_expr e >>= λ d. desugar_exprs es >>= λ ds. return (Exprs.expr d ds)

  pub desugar_inits : FieldInits → Reports FieldInits
  desugar_inits FieldInits.no_fields = return FieldInits.no_fields
  desugar_inits (FieldInits.field name e rest) =
      desugar_expr e >>= λ d. desugar_inits rest >>= λ ds. return (FieldInits.field name d ds)
