-- ===== src/Desugar/Surface.antt =====
-- What a rule's body means before desugaring, in which an operation on a queue is still a method
-- call: not code of src/desugar.rs, but what it has to preserve. Nothing here calls a function of
-- the pass.
use Prim.Native.String as Text
use tourbillon.Base.{
  ℕ, zero, suc, ◌<◌, String, Bool, true, false, ◌||◌, ◌≡◌, ◌⊎◌, List, [], ◌∷◌, ◌++◌, Option, none,
  some, ◌==◌, string_eq, if◌then◌else◌,
}
use tourbillon.Base.Decimal.{decimal}
use tourbillon.Base.Dict
use tourbillon.Base.Dict.{Dict}
use tourbillon.Ast.{Expr, Exprs, FieldInits, Stmt, Stmts, Arms}
use tourbillon.Ast.Accesses.{Access}

-- The access that a method's name stands for.
abbrev pub named_access : (method queue : String) → List Access
named_access method q =
    if method == "take"
    then Access.take q ∷ []
    else if method == "try_take"
    then Access.try_take q ∷ []
    else if method == "peek"
    then Access.peek q ∷ []
    else []

-- A method call on an identifier.
abbrev pub receiver_access : Expr → (method : String) → List Access
receiver_access (Expr.variable q _) method = named_access method q
receiver_access _ method = []

unfoldable mutual
  pub meant : Expr → List Access
  meant (Expr.method_call receiver method _ _) = receiver_access receiver method.node
  meant (Expr.lit _ _) = []
  meant (Expr.variable _ _) = []
  meant (Expr.field_access e _ _) = meant e
  meant (Expr.index e i _) = meant e ++ meant i
  meant (Expr.update e i v _) = meant e ++ (meant i ++ meant v)
  meant (Expr.tuple es _) = meant_list es
  meant (Expr.construct _ fs _) = meant_inits fs
  meant (Expr.take q _) = Access.take q ∷ []
  meant (Expr.try_take q _) = Access.try_take q ∷ []
  meant (Expr.peek q _) = Access.peek q ∷ []
  meant (Expr.call _ es _) = meant_list es
  meant (Expr.bit_slice e _ _ _) = meant e
  meant (Expr.bin_op _ l r _) = meant l ++ meant r
  meant (Expr.unary_op _ e _) = meant e

  pub meant_list : Exprs → List Access
  meant_list Exprs.none_left = []
  meant_list (Exprs.expr e es) = meant e ++ meant_list es

  pub meant_inits : FieldInits → List Access
  meant_inits FieldInits.no_fields = []
  meant_inits (FieldInits.field _ e fs) = meant e ++ meant_inits fs

-- The numbered port of an array port.
abbrev pub numbered : (array_name : String) (i : ℕ) → String
numbered array_name i = Text.◌++◌ array_name (Text.◌++◌ "_" (decimal i))

-- The paths that pick one of the elements of an array port, behind its index.
abbrev pub PicksOne : (size : ℕ) → List Access → (ℕ → List Access) → List Access → Type 0
PicksOne zero before each π = π ≡ before
PicksOne (suc n) before each π = (i : ℕ) × (i < suc n) × (π ≡ before ++ each i)

-- The operations that may stand on the right of a `let`.
abbrev pub is_read : (method : String) → Bool
is_read method = method == "take" || (method == "try_take" || method == "peek")

-- A `let` with an operation on an element of an array port of the size.
abbrev pub LetElement :
    (reads : Bool) (method array_name : String) (size : ℕ) (idx whole : Expr) → List Access → Type 0
LetElement true method array_name size idx whole π =
    PicksOne size (meant idx) (λ i. named_access method (numbered array_name i)) π
LetElement false method array_name size idx whole π = π ≡ meant whole

abbrev LetAt : Option ℕ → (method array_name : String) (idx whole : Expr) → List Access → Type 0
LetAt none method array_name idx whole π = π ≡ meant whole
LetAt (some size) method array_name idx whole π =
    LetElement (is_read method) method array_name size idx whole π

-- An expression as a statement: a `put` to an identifier is a put.
abbrev pub put_to :
    (puts : Bool) → (queue : String) → (arg : List Access) → (other : List Access) → List Access
put_to true q arg other = arg ++ Access.put q ∷ []
put_to false q arg other = other

abbrev pub stated : Expr → List Access
stated (Expr.method_call (Expr.variable q sp) method (Exprs.expr arg Exprs.none_left) sp') =
    put_to (method.node == "put") q (meant arg)
      (meant (Expr.method_call (Expr.variable q sp) method (Exprs.expr arg Exprs.none_left) sp'))
stated e = meant e

abbrev pub PutElement :
    (puts : Bool) (array_name : String) (size : ℕ) (idx arg whole : Expr) → List Access → Type 0
PutElement true array_name size idx arg whole π =
    PicksOne size (meant idx) (λ i. meant arg ++ Access.put (numbered array_name i) ∷ []) π
PutElement false array_name size idx arg whole π = π ≡ stated whole

abbrev PutAt : Option ℕ → (method array_name : String) (idx arg whole : Expr) → List Access → Type 0
PutAt none method array_name idx arg whole π = π ≡ stated whole
PutAt (some size) method array_name idx arg whole π =
    PutElement (method == "put") array_name size idx arg whole π

-- The paths of statements. A `let` or a `put` of an element of an array port is that operation on
-- one of its numbered ports.
module _ (array_ports : Dict String ℕ) where
  abbrev pub LetMeans : Expr → List Access → Type 0
  LetMeans (Expr.method_call (Expr.index (Expr.variable name sp) idx sp') method args sp'') π =
      LetAt (Dict.lookup name array_ports) method.node name idx
        (Expr.method_call (Expr.index (Expr.variable name sp) idx sp') method args sp'') π
  LetMeans e π = π ≡ meant e

  abbrev pub ExprMeans : Expr → List Access → Type 0
  ExprMeans
        (Expr.method_call
          (Expr.index (Expr.variable name sp) idx sp')
          method
          (Exprs.expr arg Exprs.none_left)
          sp'')
        π =
      PutAt (Dict.lookup name array_ports) method.node name idx arg
        (Expr.method_call (Expr.index (Expr.variable name sp) idx sp') method
          (Exprs.expr arg Exprs.none_left) sp'')
        π
  ExprMeans e π = π ≡ stated e

  abbrev mutual
    pub Means : Stmt → List Access → Type 0
    Means (Stmt.let_ _ e _) π = LetMeans e π
    Means (Stmt.expr e _) π = ExprMeans e π
    Means (Stmt.put target e _) π = π ≡ meant e ++ Access.put target.node ∷ []
    Means (Stmt.match_ e Arms.no_arms _) π = π ≡ meant e
    Means (Stmt.match_ e (Arms.arm p body rest) _) π =
        (ρ : List Access) × (MeansAll body ρ ⊎ MeansOne rest ρ) × (π ≡ meant e ++ ρ)
    Means (Stmt.if_ c t f _) π =
        (ρ : List Access) × (MeansAll t ρ ⊎ MeansAll f ρ) × (π ≡ meant c ++ ρ)

    pub MeansAll : Stmts → List Access → Type 0
    MeansAll Stmts.done π = π ≡ []
    MeansAll (Stmts.stmt s ss) π =
        (ρ : List Access) × (σ : List Access) × Means s ρ × MeansAll ss σ × (π ≡ ρ ++ σ)

    pub MeansOne : Arms → List Access → Type 0
    MeansOne Arms.no_arms π = ⊥
    MeansOne (Arms.arm _ body rest) π = MeansAll body π ⊎ MeansOne rest π
