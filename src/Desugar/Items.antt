-- ===== src/Desugar/Items.antt =====
-- Processes, pipes and whole files, `desugar` of src/desugar.rs.
use tourbillon.Base.{String, ℕ, List, [], ◌∷◌, ◌++◌, Option, none, some, map, string_eq}
use tourbillon.Base.Dict
use tourbillon.Base.Dict.{Dict}
use tourbillon.Ast.{Port, Rule, Process}
use tourbillon.Ast.Items.{MemoryDecl, QueueDecl, Pipe, Item, SourceFile}
use tourbillon.Desugar.Bodies.{desugar_stmts}
use tourbillon.Desugar.Ports.{expand_ports, expand_pipe_array_bindings, process_array_ports}
use tourbillon.Desugar.Memories.{memory_queues, memory_process, memory_instance}
use tourbillon.Diagnostics.{Reports, return, ◌>>=◌}

unfoldable pub desugar_rules : Dict String ℕ → List Rule → Reports (List Rule)
desugar_rules array_ports [] = return []
desugar_rules array_ports (rule ∷ rules) = desugar_stmts array_ports rule.body >>= λ body.
    desugar_rules array_ports rules >>= λ rest. return (record rule { body = body } ∷ rest)

-- The sizes of a process's array ports, `unwrap_or_default`.
abbrev pub sizes_of : Option (Dict String ℕ) → Dict String ℕ
sizes_of none = []
sizes_of (some sizes) = sizes

abbrev pub new_ports : Dict String ℕ → List Port → List Port
new_ports [] ports = ports
new_ports (_ ∷ _) ports = expand_ports ports

unfoldable pub desugar_process : Dict String (Dict String ℕ) → Process → Reports Process
unfolding desugar_rules expand_ports
desugar_process all process =
    let array_ports = sizes_of (Dict.lookup process.name.node all) in
    desugar_rules array_ports process.rules >>= λ rules.
    return (record process { ports = new_ports array_ports process.ports; rules = rules })

unfoldable pub memories_queues : List MemoryDecl → List QueueDecl
memories_queues [] = []
memories_queues (mem ∷ mems) = memory_queues mem ++ memories_queues mems

unfoldable pub desugar_pipe : Dict String (Dict String ℕ) → Pipe → Pipe
unfolding memories_queues
desugar_pipe all pipe = record pipe {
  queue_decls = pipe.queue_decls ++ memories_queues pipe.memory_decls;
  memory_decls = [];
  instances =
      expand_pipe_array_bindings all (pipe.instances ++ map memory_instance pipe.memory_decls);
}

abbrev pub memory_item : MemoryDecl → Item
memory_item mem = Item.process (memory_process mem) mem.name.span

-- Phase 1: the items, and the processes of the memories.
unfoldable pub desugar_items :
    Dict String (Dict String ℕ) → List Item → Reports (List Item × List Item)
unfolding desugar_process desugar_pipe
desugar_items all [] = return ([], [])
desugar_items all (Item.process p sp ∷ items) = desugar_process all p >>= λ process.
    desugar_items all items >>= λ (rest, new). return (Item.process process sp ∷ rest, new)
desugar_items all (Item.pipe p sp ∷ items) = desugar_items all items >>= λ (rest, new).
    return (Item.pipe (desugar_pipe all p) sp ∷ rest, map memory_item p.memory_decls ++ new)
desugar_items all (item ∷ items) =
    desugar_items all items >>= λ (rest, new). return (item ∷ rest, new)

-- The new items stand before the first pipe.
unfoldable pub insert_items : (new items : List Item) → List Item
insert_items new [] = new
insert_items new (Item.pipe p sp ∷ items) = new ++ Item.pipe p sp ∷ items
insert_items new (item ∷ items) = item ∷ insert_items new items

unfoldable pub desugar : SourceFile → Reports SourceFile
unfolding desugar_items insert_items
desugar source =
    desugar_items (process_array_ports source.items []) source.items >>= λ (items, new).
    return (record { items = insert_items new items })
