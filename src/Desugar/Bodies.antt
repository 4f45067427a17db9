-- ===== src/Desugar/Bodies.antt =====
-- Statements, `desugar_stmts` and `desugar_stmt_into` of src/desugar.rs, and what indexed operations
-- become, `expand_indexed_put` and `expand_indexed_let`.
use Prim.Native.String as Text
use tourbillon.Base.{ℕ, zero, suc, ◌+◌, String, Option, none, some, string_eq}
use tourbillon.Base.Decimal.{decimal}
use tourbillon.Base.Dict
use tourbillon.Base.Dict.{Dict}
use tourbillon.Ast.{Span, Spanned, Literal, Expr, Exprs, Pattern, Stmt, Stmts, Arms, expr_span}
use tourbillon.Diagnostics.{error_at, put_arity, put_receiver, Reports, return, report, ◌>>=◌}
use tourbillon.Desugar.{Method, method_of, extract_ident, extract_indexed_ident, desugar_expr}

-- `format!("{array_name}_{i}")`
unfoldable pub element_name : String → ℕ → String
element_name array_name i = Text.◌++◌ array_name (Text.◌++◌ "_" (decimal i))

-- The arms `i => body(i)` for `count` indices from `i` on.
unfoldable pub index_arms : (ℕ → Stmt) → Span → (count i : ℕ) → Arms
index_arms body sp zero i = Arms.no_arms
index_arms body sp (suc count) i =
    Arms.arm (Pattern.literal (Literal.int i) sp) (Stmts.stmt (body i) Stmts.done)
      (index_arms body sp count (i + 1))

unfoldable pub expand_indexed_put :
    (array_name : String) (size : ℕ) (index value : Expr) → Span → Stmt
unfolding index_arms element_name
expand_indexed_put array_name size idx value sp =
    let body : ℕ → Stmt =
      λ i. Stmt.put (record { node = element_name array_name i; span = sp }) value sp in
    Stmt.match_ idx (index_arms body sp size 0) sp

-- `method` is one of take, try_take and peek.
unfoldable pub expand_indexed_let :
    (array_name : String) (size : ℕ) (index : Expr) (op : String → Span → Expr)
    → Pattern
    → Span
    → Stmt
unfolding index_arms element_name
expand_indexed_let array_name size idx op pattern sp =
    let body : ℕ → Stmt = λ i. Stmt.let_ pattern (op (element_name array_name i) sp) sp in
    Stmt.match_ idx (index_arms body sp size 0) sp

-- The method call of an element of an array port: the array's name, the index, the method and the
-- arguments.
unfoldable pub indexed_call : Expr → Option (String × Expr × Spanned String × Exprs)
indexed_call (Expr.method_call receiver method args _) = elim (extract_indexed_ident receiver) [
  | some (name, idx) ↦ some (name, idx, method, args)
  | none ↦ none
]
indexed_call _ = none

-- The size of the array port that an indexed call is about, if it is one.
unfoldable pub array_call :
    Dict String ℕ → Expr → Option (String × ℕ × Expr × Spanned String × Exprs)
unfolding indexed_call
array_call array_ports e = elim (indexed_call e) [
  | none ↦ none
  | some (name, idx, method, args) ↦ elim (Dict.lookup name array_ports) [
    | none ↦ none
    | some size ↦ some (name, size, idx, method, args)
  ]
]

-- The queue operation of a method that may stand on the right of an indexed `let`.
unfoldable pub let_operation : Method → Option (String → Span → Expr)
let_operation Method.take = some Expr.take
let_operation Method.try_take = some Expr.try_take
let_operation Method.peek = some Expr.peek
let_operation _ = none

unfoldable pub plain_let : Pattern → Expr → Span → Reports Stmt
plain_let pattern value sp = desugar_expr value >>= λ v. return (Stmt.let_ pattern v sp)

-- A `let` of an indexed call, if the method is such an operation.
unfoldable pub let_with :
    Option (String → Span → Expr) → String → ℕ → Expr → Pattern → Expr → Span → Reports Stmt
unfolding plain_let
let_with none name size idx pattern value sp = plain_let pattern value sp
let_with (some op) name size idx pattern value sp =
    desugar_expr idx >>= λ i. return (expand_indexed_let name size i op pattern sp)

unfoldable pub desugar_let :
    Option (String × ℕ × Expr × Spanned String × Exprs) → Pattern → Expr → Span → Reports Stmt
unfolding let_operation let_with
desugar_let none pattern value sp = plain_let pattern value sp
desugar_let (some (name, size, idx, method, _)) pattern value sp =
    let_with (let_operation (method_of method.node)) name size idx pattern value sp

-- A `put` call as a statement, after its receiver and its arguments were desugared.
unfoldable pub finish_put :
    Option String → (called receiver : Expr) → Spanned String → Exprs → Span → Reports Stmt
finish_put (some name) called receiver method (Exprs.expr arg Exprs.none_left) sp =
    desugar_expr arg >>= λ v.
    return (Stmt.put (record { node = name; span = expr_span receiver }) v sp)
finish_put (some name) called receiver method args sp =
    report (error_at method.span put_arity) (Stmt.expr called sp)
finish_put none called receiver method args sp =
    report (error_at (expr_span receiver) put_receiver) (Stmt.expr called sp)

-- A method call as a statement after it was desugared.
unfoldable pub finish_by :
    Method → (called receiver : Expr) → Spanned String → Exprs → Span → Reports Stmt
unfolding finish_put
finish_by Method.put called receiver method args sp =
    finish_put (extract_ident receiver) called receiver method args sp
finish_by _ called receiver method args sp = return (Stmt.expr called sp)

-- An expression statement after its expression was desugared.
unfoldable pub finish_expr : Expr → Span → Reports Stmt
unfolding finish_by
finish_expr (Expr.method_call receiver method args sp') sp =
    finish_by (method_of method.node) (Expr.method_call receiver method args sp') receiver method
      args sp
finish_expr e sp = return (Stmt.expr e sp)

unfoldable pub desugar_plain : Expr → Span → Reports Stmt
unfolding finish_expr
desugar_plain e sp = desugar_expr e >>= λ d. finish_expr d sp

-- An indexed call with one argument, by its method.
unfoldable pub put_by : Method → String → ℕ → (idx arg whole : Expr) → Span → Reports Stmt
unfolding desugar_plain
put_by Method.put name size idx arg whole sp =
    desugar_expr idx >>= λ i. desugar_expr arg >>= λ v. return (expand_indexed_put name size i v sp)
put_by _ name size idx arg whole sp = desugar_plain whole sp

unfoldable pub desugar_expr_stmt :
    Option (String × ℕ × Expr × Spanned String × Exprs) → Expr → Span → Reports Stmt
unfolding put_by
desugar_expr_stmt (some (name, size, idx, method, Exprs.expr arg Exprs.none_left)) e sp =
    put_by (method_of method.node) name size idx arg e sp
desugar_expr_stmt _ e sp = desugar_plain e sp

-- `desugar_stmt_into` pushes one statement on every path.
module _ (array_ports : Dict String ℕ) where
  unfoldable mutual
    pub desugar_stmt : Stmt → Reports Stmt
    desugar_stmt (Stmt.let_ pattern value sp) =
        desugar_let (array_call array_ports value) pattern value sp
    desugar_stmt (Stmt.expr e sp) = desugar_expr_stmt (array_call array_ports e) e sp
    desugar_stmt (Stmt.put target value sp) =
        desugar_expr value >>= λ v. return (Stmt.put target v sp)
    desugar_stmt (Stmt.match_ scrutinee arms sp) = desugar_expr scrutinee >>= λ s.
        desugar_arms arms >>= λ branches. return (Stmt.match_ s branches sp)
    desugar_stmt (Stmt.if_ cond then_body else_body sp) = desugar_expr cond >>= λ c.
        desugar_stmts then_body >>= λ t. desugar_stmts else_body >>= λ f. return (Stmt.if_ c t f sp)

    pub desugar_stmts : Stmts → Reports Stmts
    desugar_stmts Stmts.done = return Stmts.done
    desugar_stmts (Stmts.stmt s ss) =
        desugar_stmt s >>= λ d. desugar_stmts ss >>= λ ds. return (Stmts.stmt d ds)

    pub desugar_arms : Arms → Reports Arms
    desugar_arms Arms.no_arms = return Arms.no_arms
    desugar_arms (Arms.arm pattern body rest) = desugar_stmts body >>= λ b.
        desugar_arms rest >>= λ others. return (Arms.arm pattern b others)
