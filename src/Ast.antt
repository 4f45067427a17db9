-- ===== src/Ast.antt =====
-- The syntax tree, src/ast.rs. `Spanned<T>` is a record. Where the source nests `Spanned` inside a
-- recursive type (`Box<Spanned<Expr>>`, `Vec<Spanned<Stmt>>`), the span is the last argument of
-- each constructor, so that `Expr` here is the source's `Spanned<Expr>`; so for statements,
-- patterns and type expressions. A `BigUint` and a `u64` are natural numbers.
pub mod Accesses
pub mod Paths
pub mod Items
use tourbillon.Base.{ℕ, String, Bool, Option, List}

-- `Range<usize>`
pub record Span : Type 0 where
  pub from : ℕ
  pub to : ℕ

pub record Spanned {ℓ} (A : Type ℓ) : Type ℓ where
  pub node : A
  pub span : Span

pub data Literal : Type 0 where
  int : ℕ → Literal
  bool : Bool → Literal

pub data BinOp : Type 0 where
  add sub mul and or xor shl shr eq neq lt gt le ge logical_and logical_or : BinOp

pub data UnaryOp : Type 0 where
  not neg : UnaryOp

mutual
  pub data Expr : Type 0 where
    lit : Literal → Span → Expr
    variable : String → Span → Expr
    field_access : Expr → Spanned String → Span → Expr
    index : Expr → Expr → Span → Expr
    update : Expr → Expr → Expr → Span → Expr
    tuple : Exprs → Span → Expr
    construct : String → FieldInits → Span → Expr
    method_call : Expr → Spanned String → Exprs → Span → Expr
    take try_take peek : String → Span → Expr
    call : String → Exprs → Span → Expr
    bit_slice : Expr → ℕ → ℕ → Span → Expr
    bin_op : BinOp → Expr → Expr → Span → Expr
    unary_op : UnaryOp → Expr → Span → Expr

  pub data Exprs : Type 0 where
    none_left : Exprs
    expr : Expr → Exprs → Exprs

  pub data FieldInits : Type 0 where
    no_fields : FieldInits
    field : Spanned String → Expr → FieldInits → FieldInits

mutual
  pub data Pattern : Type 0 where
    wildcard : Span → Pattern
    bind : String → Span → Pattern
    tuple : Patterns → Span → Pattern
    variant : String → Patterns → Span → Pattern
    literal : Literal → Span → Pattern

  pub data Patterns : Type 0 where
    no_patterns : Patterns
    pattern_ : Pattern → Patterns → Patterns

mutual
  pub data Stmt : Type 0 where
    let_ : Pattern → Expr → Span → Stmt
    put : Spanned String → Expr → Span → Stmt
    expr : Expr → Span → Stmt
    match_ : Expr → Arms → Span → Stmt
    if_ : Expr → Stmts → Stmts → Span → Stmt

  pub data Stmts : Type 0 where
    done : Stmts
    stmt : Stmt → Stmts → Stmts

  pub data Arms : Type 0 where
    no_arms : Arms
    arm : Pattern → Stmts → Arms → Arms

mutual
  pub data TypeExpr : Type 0 where
    named : String → TypeExprs → Span → TypeExpr
    product : TypeExprs → Span → TypeExpr
    queue : TypeExpr → Option ℕ → Span → TypeExpr
    cell : TypeExpr → Option Expr → Span → TypeExpr
    async_queue : TypeExpr → Option ℕ → Span → TypeExpr

  pub data TypeExprs : Type 0 where
    no_types : TypeExprs
    type : TypeExpr → TypeExprs → TypeExprs

pub data PortKind : Type 0 where
  consumes produces state peeks : PortKind

pub record Port : Type 0 where
  pub kind : PortKind
  pub name : Spanned String
  pub ty : TypeExpr
  pub array_size : Option ℕ

pub record Rule : Type 0 where
  pub name : Spanned String
  pub body : Stmts

pub record Process : Type 0 where
  pub name : Spanned String
  pub ports : List Port
  pub rules : List Rule

-- The span of a pattern, the `.span` of `Spanned<Pattern>`.
abbrev pub pattern_span : Pattern → Span
pattern_span (Pattern.wildcard sp) = sp
pattern_span (Pattern.bind _ sp) = sp
pattern_span (Pattern.tuple _ sp) = sp
pattern_span (Pattern.variant _ _ sp) = sp
pattern_span (Pattern.literal _ sp) = sp

-- The span of an expression, the `.span` of `Spanned<Expr>`.
abbrev pub expr_span : Expr → Span
expr_span (Expr.lit _ sp) = sp
expr_span (Expr.variable _ sp) = sp
expr_span (Expr.field_access _ _ sp) = sp
expr_span (Expr.index _ _ sp) = sp
expr_span (Expr.update _ _ _ sp) = sp
expr_span (Expr.tuple _ sp) = sp
expr_span (Expr.construct _ _ sp) = sp
expr_span (Expr.method_call _ _ _ sp) = sp
expr_span (Expr.take _ sp) = sp
expr_span (Expr.try_take _ sp) = sp
expr_span (Expr.peek _ sp) = sp
expr_span (Expr.call _ _ sp) = sp
expr_span (Expr.bit_slice _ _ _ sp) = sp
expr_span (Expr.bin_op _ _ _ sp) = sp
expr_span (Expr.unary_op _ _ sp) = sp
