-- ===== src/Types/Check/Rules.antt =====
-- What a file that the checker passes satisfies, `check` of src/types/mod.rs.
use tourbillon.Base.{string_eq}
use tourbillon.Ast.{Process}
use tourbillon.Types.Env.{TypeEnv, push_scope}
use tourbillon.Types.Check.Processes.{define_ports}

-- The environment in which the rules of a process are checked.
abbrev pub rule_env : TypeEnv → Process → TypeEnv
rule_env env process = push_scope (define_ports env process.ports env).0
