-- ===== src/Types/Check/Kinds.antt =====
-- The kinds of ports in the check of a process, `check_process` of src/types/mod.rs.
use tourbillon.Base.{arith, String, Bool, true, false, List, [], ◌∷◌, ◌≡◌, refl}
use tourbillon.Ast.{PortKind, Port, Process}
use tourbillon.Types.Env.{TypeEnv, define, resolve_type_expr}
use tourbillon.Types.Check.Processes.{add_state, define_ports, state_ports, check_process}

-- The ports with their kinds changed.
abbrev pub with_kinds : (PortKind → PortKind) → List Port → List Port
with_kinds f [] = []
with_kinds f (p ∷ ports) = record p { kind = f p.kind } ∷ with_kinds f ports

abbrev pub is_state : PortKind → Bool
is_state PortKind.state = true
is_state _ = false

define_ports-with_kinds :
    (f : PortKind → PortKind) (env rule_env : TypeEnv) (ports : List Port)
    → define_ports env (with_kinds f ports) rule_env ≡ define_ports env ports rule_env
unfolding define_ports
define_ports-with_kinds f env rule_env [] = refl
define_ports-with_kinds f env rule_env (p ∷ ports) = rw (
    define_ports-with_kinds f env (define p.name.node (resolve_type_expr env p.ty).0 rule_env)
      ports)

add_state-is_state :
    (j k : PortKind) (name : String) (names : List String)
    → is_state j ≡ is_state k
    → add_state j name names ≡ add_state k name names
add_state-is_state j k name names h = ground arith

state_ports-with_kinds :
    (f : PortKind → PortKind) (ports : List Port)
    → ((k : PortKind) → is_state (f k) ≡ is_state k)
    → state_ports (with_kinds f ports) ≡ state_ports ports
unfolding state_ports
state_ports-with_kinds f [] h = refl
state_ports-with_kinds f (p ∷ ports) h =
    rw (state_ports-with_kinds f ports h)
      (add_state-is_state (f p.kind) p.kind p.name.node (state_ports ports) (h p.kind))

-- The check of a process does not depend on which ports are `consumes`, `produces` or `peeks`: any
-- change of the kinds that keeps the state ports leaves its diagnostics as they are.
pub check_process-with_kinds :
    (f : PortKind → PortKind) (env : TypeEnv) (process : Process)
    → ((k : PortKind) → is_state (f k) ≡ is_state k)
    → check_process env (record process { ports = with_kinds f process.ports })
      ≡ check_process env process
unfolding check_process
check_process-with_kinds f env process h =
    rw (define_ports-with_kinds f env env process.ports, state_ports-with_kinds f process.ports h)
