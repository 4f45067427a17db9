-- ===== src/Lib.antt =====
-- Tourbillon: the core of the compiler for a hardware description language of queues and rules.
--
-- A source file is parsed into a syntax tree (src/ast.rs), desugared, type-checked (src/types),
-- elaborated into a process network (src/ir.rs), scheduled (src/schedule.rs), analysed for deadlock
-- (src/deadlock.rs) and lowered to SystemVerilog. Which file models which part:
--
--   Base          shared names, lists, tests, maps and sets
--   Ast           src/ast.rs: expressions, statements, patterns, type expressions, processes
--   Ast/Accesses  the queue accesses that a piece of a rule makes: not code, but the meaning of
--                 `take`, `try_take`, `peek` and `put` against which the analyses are stated
--   Ast/Paths     the execution paths of a rule's body, as sequences of accesses
--   Diagnostics   src/diagnostics.rs: a message is a constructor with the values it formats
--   Ast/Items     src/ast.rs: definitions, pipes and the other items of a file
--   Desugar       src/desugar.rs: desugar, its statements and expressions; Ports has array ports,
--                 Memories has desugar_memory, Items the passes over a file; Surface says which
--                 accesses a body makes before desugaring, without the functions of the pass, and
--                 Readings relates the two
--   Types/Ty      src/types/ty.rs: the types of the checker and their equality
--   Types/Env     src/types/env.rs: TypeEnv and its operations
--   Types/Check   src/types/check.rs, and check of src/types/mod.rs: expressions, statements,
--                 processes; Typing and StatementRules have the typing rules that it is compared
--                 with
--   Types/Linearity   src/types/linearity.rs: check_rule_linearity and its helpers
--   Ir            src/ir.rs: nodes and edges of the network
--   Elaborate     src/elaborate.rs: the state and the helpers; Nodes has the instances of processes,
--                 Children those of pipes, Domains the clock domains, Queues the declared queues and
--                 self-loops, Wiring the bindings, Edges the edges, Checks the last checks, Pipes
--                 elaborate_pipe_inner and elaborate
--   Schedule      src/schedule.rs: schedule, collect_*_resources, build_conflict_pairs, group_rules
--   Deadlock      src/deadlock.rs: analyze, classify_non_blocking_edges
--   Pipeline      src/lib.rs: run_pipeline and check, from the parsed file on
--
-- Conventions. A function that mutates a state and pushes diagnostics returns the new state and
-- the diagnostics that it pushes (`Pass`). A `HashMap` is an association list (`Dict`), a `HashSet`
-- or a `BTreeSet` a list without repetition; where the code iterates over one, the model fixes one
-- order, and no theorem depends on it. `Spanned<T>` inside a recursive type is the last argument
-- of each constructor. Node and edge indices of petgraph are positions in lists. `BigUint` and
-- `u64` are natural numbers; the sums of src/deadlock.rs and the width of a slice in
-- src/types/check.rs wrap around at 2^64, as in a release build. All recursion is structural, except
-- that elaborate_pipe_inner calls itself for child pipes: it recurs on fuel, and any number above the
-- rank of a pipe in the order of instantiation is enough.
--
-- Parameters: the strongly connected components of a graph (petgraph's `tarjan_scc`) are an
-- argument of `analyze`; the theorem about cycles assumes that nodes which reach one another stand
-- in one component.
--
-- Not modelled: the parser (combinators of chumsky), the two back ends
-- (src/lower.rs, src/lower_chisel.rs), the output of graphs and waves, provenance and the
-- command line.
pub mod Base
pub mod Ast
pub mod Diagnostics
pub mod Types
pub mod Ir
pub mod Schedule
pub mod Deadlock
pub mod Desugar
pub mod Elaborate
pub mod Pipeline
