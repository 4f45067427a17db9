-- ===== src/Ast/Items.antt =====
-- The items of a source file, src/ast.rs: type definitions, constants, external functions, pipes.
use tourbillon.Base.{ℕ, String, Bool, Option, List}
use tourbillon.Ast.{Span, Spanned, TypeExpr, Process}

pub record ConstDef : Type 0 where
  pub name : Spanned String
  pub value : ℕ
  pub is_external : Bool

pub record ExternalFnDef : Type 0 where
  pub name : Spanned String
  pub params : List (Spanned String × TypeExpr)
  pub return_ty : Option TypeExpr

pub record Field : Type 0 where
  pub name : Spanned String
  pub ty : TypeExpr

pub record Variant : Type 0 where
  pub name : Spanned String
  pub fields : List TypeExpr

pub data TypeDefKind : Type 0 where
  alias : TypeExpr → TypeDefKind
  record_ : List Field → TypeDefKind
  enum : List Variant → TypeDefKind

pub record TypeDef : Type 0 where
  pub name : Spanned String
  pub kind : TypeDefKind

pub record AsyncQueueDecl : Type 0 where
  pub name : Spanned String
  pub ty : TypeExpr
  pub depth : Option ℕ

pub record QueueDecl : Type 0 where
  pub name : Spanned String
  pub ty : TypeExpr
  pub depth : Option ℕ
  pub init_tokens : Option ℕ
  pub is_external : Bool

pub record MemoryDecl : Type 0 where
  pub name : Spanned String
  pub key_ty : TypeExpr
  pub val_ty : TypeExpr
  pub depth : ℕ
  pub latency : ℕ

pub record PortBinding : Type 0 where
  pub port : Spanned String
  pub target : Spanned String

pub record Instance : Type 0 where
  pub process_name : Spanned String
  pub domain : Option (Spanned String)
  pub bindings : List PortBinding

-- `DomainDecl` is its name.
pub record Pipe : Type 0 where
  pub name : Spanned String
  pub queue_decls : List QueueDecl
  pub memory_decls : List MemoryDecl
  pub async_queue_decls : List AsyncQueueDecl
  pub domain_decls : List (Spanned String)
  pub instances : List Instance

pub data Item : Type 0 where
  type_def : TypeDef → Span → Item
  process : Process → Span → Item
  pipe : Pipe → Span → Item
  const : ConstDef → Span → Item
  external_fn : ExternalFnDef → Span → Item

pub record SourceFile : Type 0 where
  pub items : List Item
