-- ===== src/Desugar/Meaning.antt =====
-- The queue accesses of statements before desugaring, in the words of the pass of src/desugar.rs: a
-- step between its result and the meaning of Surface, which Readings relates to this.
use tourbillon.Base.{ℕ, zero, suc, ◌<◌, String, ◌≡◌, ◌⊎◌, List, [], ◌∷◌, ◌++◌, Option, none, some}
use tourbillon.Base.Dict.{Dict}
use tourbillon.Ast.{Spanned, Expr, Exprs, FieldInits, Stmt, Stmts, Arms}
use tourbillon.Ast.Accesses.{Access}
use tourbillon.Desugar.{Method, method_of, extract_ident}
use tourbillon.Desugar.Bodies.{element_name, array_call}

-- The access of a method call, by its receiver.
abbrev pub call_accesses : Method → Option String → List Access
call_accesses Method.take (some q) = Access.take q ∷ []
call_accesses Method.try_take (some q) = Access.try_take q ∷ []
call_accesses Method.peek (some q) = Access.peek q ∷ []
call_accesses _ _ = []

unfoldable mutual
  pub surface_accesses : Expr → List Access
  surface_accesses (Expr.method_call receiver method _ _) =
      call_accesses (method_of method.node) (extract_ident receiver)
  surface_accesses (Expr.lit _ _) = []
  surface_accesses (Expr.variable _ _) = []
  surface_accesses (Expr.field_access e _ _) = surface_accesses e
  surface_accesses (Expr.index e i _) = surface_accesses e ++ surface_accesses i
  surface_accesses (Expr.update e i v _) =
      surface_accesses e ++ (surface_accesses i ++ surface_accesses v)
  surface_accesses (Expr.tuple es _) = surface_list es
  surface_accesses (Expr.construct _ fs _) = surface_inits fs
  surface_accesses (Expr.take q _) = Access.take q ∷ []
  surface_accesses (Expr.try_take q _) = Access.try_take q ∷ []
  surface_accesses (Expr.peek q _) = Access.peek q ∷ []
  surface_accesses (Expr.call _ es _) = surface_list es
  surface_accesses (Expr.bit_slice e _ _ _) = surface_accesses e
  surface_accesses (Expr.bin_op _ l r _) = surface_accesses l ++ surface_accesses r
  surface_accesses (Expr.unary_op _ e _) = surface_accesses e

  pub surface_list : Exprs → List Access
  surface_list Exprs.none_left = []
  surface_list (Exprs.expr e es) = surface_accesses e ++ surface_list es

  pub surface_inits : FieldInits → List Access
  surface_inits FieldInits.no_fields = []
  surface_inits (FieldInits.field _ e fs) = surface_accesses e ++ surface_inits fs

-- The paths of a statement that picks one of the elements of an array port.
abbrev pub IndexedRuns : (size : ℕ) → List Access → (ℕ → List Access) → List Access → Type 0
IndexedRuns zero before each π = π ≡ before
IndexedRuns (suc n) before each π = (i : ℕ) × (i < suc n) × (π ≡ before ++ each i)

-- The paths of a `let`, by the array port that its method call is about, if any.
abbrev pub LetBy : Method → String → ℕ → Expr → Expr → List Access → Type 0
LetBy Method.take name size idx e π =
    IndexedRuns size (surface_accesses idx) (λ i. Access.take (element_name name i) ∷ []) π
LetBy Method.try_take name size idx e π =
    IndexedRuns size (surface_accesses idx) (λ i. Access.try_take (element_name name i) ∷ []) π
LetBy Method.peek name size idx e π =
    IndexedRuns size (surface_accesses idx) (λ i. Access.peek (element_name name i) ∷ []) π
LetBy _ name size idx e π = π ≡ surface_accesses e

abbrev pub LetRuns :
    Option (String × ℕ × Expr × Spanned String × Exprs) → Expr → List Access → Type 0
LetRuns none e π = π ≡ surface_accesses e
LetRuns (some (name, size, idx, method, _)) e π = LetBy (method_of method.node) name size idx e π

-- The paths of an expression statement whose method call is about no array port: a `put` to an
-- identifier, or any expression.
abbrev pub CallRuns : Method → Option String → Exprs → List Access → List Access → Type 0
CallRuns Method.put (some q) (Exprs.expr arg Exprs.none_left) other π =
    π ≡ surface_accesses arg ++ Access.put q ∷ []
CallRuns _ _ _ other π = π ≡ other

abbrev pub PlainRuns : Expr → List Access → Type 0
PlainRuns (Expr.method_call receiver method args sp) π =
    CallRuns (method_of method.node) (extract_ident receiver) args
      (surface_accesses (Expr.method_call receiver method args sp)) π
PlainRuns e π = π ≡ surface_accesses e

abbrev pub PutBy : Method → String → ℕ → Expr → Expr → Expr → List Access → Type 0
PutBy Method.put name size idx arg e π =
    IndexedRuns size (surface_accesses idx)
      (λ i. surface_accesses arg ++ Access.put (element_name name i) ∷ []) π
PutBy _ name size idx arg e π = PlainRuns e π

abbrev pub ExprRuns :
    Option (String × ℕ × Expr × Spanned String × Exprs) → Expr → List Access → Type 0
ExprRuns (some (name, size, idx, method, Exprs.expr arg Exprs.none_left)) e π =
    PutBy (method_of method.node) name size idx arg e π
ExprRuns _ e π = PlainRuns e π

-- The paths of statements before desugaring.
module _ (array_ports : Dict String ℕ) where
  abbrev mutual
    pub SurfaceRuns : Stmt → List Access → Type 0
    SurfaceRuns (Stmt.let_ _ e _) π = LetRuns (array_call array_ports e) e π
    SurfaceRuns (Stmt.expr e _) π = ExprRuns (array_call array_ports e) e π
    SurfaceRuns (Stmt.put target e _) π = π ≡ surface_accesses e ++ Access.put target.node ∷ []
    SurfaceRuns (Stmt.match_ e Arms.no_arms _) π = π ≡ surface_accesses e
    SurfaceRuns (Stmt.match_ e (Arms.arm p body rest) _) π =
        (ρ : List Access) × (SurfaceRunsStmts body ρ ⊎ SurfaceRunsArms rest ρ)
        × (π ≡ surface_accesses e ++ ρ)
    SurfaceRuns (Stmt.if_ c t f _) π =
        (ρ : List Access) × (SurfaceRunsStmts t ρ ⊎ SurfaceRunsStmts f ρ)
        × (π ≡ surface_accesses c ++ ρ)

    pub SurfaceRunsStmts : Stmts → List Access → Type 0
    SurfaceRunsStmts Stmts.done π = π ≡ []
    SurfaceRunsStmts (Stmts.stmt s ss) π =
        (ρ : List Access) × (σ : List Access) × SurfaceRuns s ρ
        × SurfaceRunsStmts ss σ
        × (π ≡ ρ ++ σ)

    pub SurfaceRunsArms : Arms → List Access → Type 0
    SurfaceRunsArms Arms.no_arms π = ⊥
    SurfaceRunsArms (Arms.arm _ body rest) π = SurfaceRunsStmts body π ⊎ SurfaceRunsArms rest π
