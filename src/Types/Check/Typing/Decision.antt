-- ===== src/Types/Check/Typing/Decision.antt =====
-- `check_expr` of src/types/check.rs and the typing rules agree.
use tourbillon.Base.{[], ◌≡◌, ◌↔◌, string_eq}
use tourbillon.Ast.{Expr}
use tourbillon.Types.Ty.{Ty}
use tourbillon.Types.Env.{TypeEnv}
use tourbillon.Types.Check.Expressions.{check_expr}
use tourbillon.Types.Check.Typing.{HasType}
use tourbillon.Types.Check.Typing.Sound.{check_expr-HasType}
use tourbillon.Types.Check.Typing.Complete.{HasType-check_expr}

-- The checker decides the typing rules: it gives an expression a type and reports nothing exactly
-- when the rules derive that type for it.
pub check_expr_iff :
    (env : TypeEnv) (e : Expr) (t : Ty) → (check_expr env e ≡ (t, [])) ↔ HasType env e t
check_expr_iff env e t = (check_expr-HasType env e t, HasType-check_expr env e t)
