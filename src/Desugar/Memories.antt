-- ===== src/Desugar/Memories.antt =====
-- The queues, the process and the instance of a memory, `desugar_memory` of src/desugar.rs.
use Prim.Native.String as Text
use tourbillon.Base.{String, List, [], ◌∷◌, none, some, false}
use tourbillon.Ast.{
  Span, Spanned, Literal, Expr, Pattern, Patterns, Stmt, Stmts, TypeExpr, TypeExprs, PortKind, Port,
  Rule, Process,
}
use tourbillon.Ast.Items.{QueueDecl, MemoryDecl, PortBinding, Instance}

abbrev pub at : String → Span → Spanned String
at s sp = record { node = s; span = sp }

-- The depth-1 queue type of each port of a memory.
abbrev pub queue_of : TypeExpr → Span → TypeExpr
queue_of elem sp = TypeExpr.queue elem (some 1) sp

abbrev pub pair_of : MemoryDecl → TypeExpr
pair_of mem =
    TypeExpr.product (TypeExprs.type mem.key_ty (TypeExprs.type mem.val_ty TypeExprs.no_types))
      mem.name.span

abbrev pub memory_queue : MemoryDecl → String → TypeExpr → QueueDecl
memory_queue mem suffix elem = record {
  name = at (Text.◌++◌ mem.name.node suffix) mem.name.span;
  ty = queue_of elem mem.name.span;
  depth = some 1;
  init_tokens = none;
  is_external = false;
}

abbrev pub memory_queues : MemoryDecl → List QueueDecl
memory_queues mem =
    memory_queue mem "_read_req" mem.key_ty
    ∷ memory_queue mem "_read_resp" mem.val_ty
    ∷ memory_queue mem "_write_req" (pair_of mem)
    ∷ []

abbrev pub memory_port : MemoryDecl → PortKind → String → TypeExpr → Port
memory_port mem kind name elem = record {
  kind = kind;
  name = at name mem.name.span;
  ty = queue_of elem mem.name.span;
  array_size = none;
}

-- let addr = read_req.take(); read_resp.put(0)
abbrev pub read_rule : Span → Rule
read_rule sp = record {
  name = at "read" sp;
  body =
      Stmts.stmt (Stmt.let_ (Pattern.bind "addr" sp) (Expr.take "read_req" sp) sp)
        (Stmts.stmt (Stmt.put (at "read_resp" sp) (Expr.lit (Literal.int 0) sp) sp) Stmts.done);
}

-- let (waddr, wdata) = write_req.take()
abbrev pub write_rule : Span → Rule
write_rule sp = record {
  name = at "write" sp;
  body =
      Stmts.stmt
        (Stmt.let_
          (Pattern.tuple
            (Patterns.pattern_ (Pattern.bind "waddr" sp)
              (Patterns.pattern_ (Pattern.bind "wdata" sp) Patterns.no_patterns))
            sp)
          (Expr.take "write_req" sp) sp)
        Stmts.done;
}

abbrev pub memory_process : MemoryDecl → Process
memory_process mem = record {
  name = at (Text.◌++◌ "_Mem_" mem.name.node) mem.name.span;
  ports =
      memory_port mem PortKind.consumes "read_req" mem.key_ty
      ∷ memory_port mem PortKind.produces "read_resp" mem.val_ty
      ∷ memory_port mem PortKind.consumes "write_req" (pair_of mem)
      ∷ [];
  rules = read_rule mem.name.span ∷ write_rule mem.name.span ∷ [];
}

abbrev pub memory_binding : MemoryDecl → (port suffix : String) → PortBinding
memory_binding mem port suffix = record {
  port = at port mem.name.span;
  target = at (Text.◌++◌ mem.name.node suffix) mem.name.span;
}

abbrev pub memory_instance : MemoryDecl → Instance
memory_instance mem = record {
  process_name = at (Text.◌++◌ "_Mem_" mem.name.node) mem.name.span;
  domain = none;
  bindings =
      memory_binding mem "read_req" "_read_req"
      ∷ memory_binding mem "read_resp" "_read_resp"
      ∷ memory_binding mem "write_req" "_write_req"
      ∷ [];
}

abbrev pub desugar_memory : MemoryDecl → List QueueDecl × Process × Instance
desugar_memory mem = (memory_queues mem, memory_process mem, memory_instance mem)
