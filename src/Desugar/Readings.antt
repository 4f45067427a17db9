-- ===== src/Desugar/Readings.antt =====
-- How the pass of src/desugar.rs reads a method call, against what the call means: `method_of`,
-- `extract_ident` and `array_call` find the operation, the queue and the array port that are there.
use tourbillon.Base.{
  ℕ, zero, suc, String, false, ◌≡◌, ◌↔◌, inl, inr, refl, sym, ap, ◌∙◌, List, [], ◌∷◌, ◌++◌, none,
  some, ◌==◌, ==_iff, string_eq, Bool-cases, Option-cases, arith,
}
use tourbillon.Base.Dict
use tourbillon.Base.Dict.{Dict}
use tourbillon.Ast.{Expr, Exprs, FieldInits, Stmt, Stmts, Arms}
use tourbillon.Ast.Accesses.{Access}
use tourbillon.Desugar.{Method, method_of, extract_ident}
use tourbillon.Desugar.Bodies.{element_name, indexed_call, array_call}
use tourbillon.Desugar.Meaning.{
  call_accesses, surface_accesses, surface_list, surface_inits, IndexedRuns, LetBy, LetRuns,
  CallRuns, PlainRuns, PutBy, ExprRuns, SurfaceRuns, SurfaceRunsStmts, SurfaceRunsArms,
}
use tourbillon.Desugar.Surface.{
  named_access, receiver_access, meant, meant_list, meant_inits, PicksOne, is_read, LetElement,
  LetMeans, put_to, stated, PutElement, ExprMeans, Means, MeansAll, MeansOne,
}
use tourbillon.Desugar.Statements.{path_iff}
use tourbillon.Desugar.Choices.{choice_iff, either_iff, sequence_iff}

-- The method of a name.
data Named (method : String) : Method → Type 0 where
  take : method ≡ "take" → Named method Method.take
  try_take : method ≡ "try_take" → Named method Method.try_take
  peek : method ≡ "peek" → Named method Method.peek
  put : method ≡ "put" → Named method Method.put
  other :
      (method == "take") ≡ false
      → (method == "try_take") ≡ false
      → (method == "peek") ≡ false
      → (method == "put") ≡ false
      → Named method Method.other

method_of-Named : (method : String) → Named method (method_of method)
unfolding method_of
method_of-Named method = elim (Bool-cases (method == "take")) [
  | inl a ↦ rw (method_of, a) (Named.take ((==_iff method "take").0 a))
  | inr a ↦ elim (Bool-cases (method == "try_take")) [
    | inl b ↦ rw (method_of, a, b) (Named.try_take ((==_iff method "try_take").0 b))
    | inr b ↦ elim (Bool-cases (method == "peek")) [
      | inl c ↦ rw (method_of, a, b, c) (Named.peek ((==_iff method "peek").0 c))
      | inr c ↦ elim (Bool-cases (method == "put")) [
        | inl d ↦ rw (method_of, a, b, c, d) (Named.put ((==_iff method "put").0 d))
        | inr d ↦ rw (method_of, a, b, c, d) (Named.other a b c d)
      ]
    ]
  ]
]

some_access :
    (method q : String) (m : Method)
    → Named method m
    → call_accesses m (some q) ≡ named_access method q
some_access method q Method.take (Named.take e) = rw e refl
some_access method q Method.try_take (Named.try_take e) = rw e refl
some_access method q Method.peek (Named.peek e) = rw e refl
some_access method q Method.put (Named.put e) = rw e refl
some_access method q Method.other (Named.other a b c d) = rw (a, b, c) refl

no_access : (m : Method) → call_accesses m none ≡ []
no_access m = ground arith

call_meant :
    (receiver : Expr) (method : String)
    → call_accesses (method_of method) (extract_ident receiver) ≡ receiver_access receiver method
call_meant (Expr.variable q _) method =
    some_access method q (method_of method) (method_of-Named method)
call_meant receiver method = no_access (method_of method)

mutual
  unfolding surface_accesses meant

  pub accesses_meant : (e : Expr) → surface_accesses e ≡ meant e
  accesses_meant (Expr.method_call receiver method _ _) = call_meant receiver method.node
  accesses_meant (Expr.field_access e _ _) = accesses_meant e
  accesses_meant (Expr.index e i _) = rw (accesses_meant e, accesses_meant i) refl
  accesses_meant (Expr.update e i v _) =
      rw (accesses_meant e, accesses_meant i, accesses_meant v) refl
  accesses_meant (Expr.tuple es _) = list_meant es
  accesses_meant (Expr.construct _ fs _) = inits_meant fs
  accesses_meant (Expr.call _ es _) = list_meant es
  accesses_meant (Expr.bit_slice e _ _ _) = accesses_meant e
  accesses_meant (Expr.bin_op _ l r _) = rw (accesses_meant l, accesses_meant r) refl
  accesses_meant (Expr.unary_op _ e _) = accesses_meant e
  accesses_meant e = refl

  list_meant : (es : Exprs) → surface_list es ≡ meant_list es
  list_meant Exprs.none_left = refl
  list_meant (Exprs.expr e es) = rw (accesses_meant e, list_meant es) refl

  inits_meant : (fs : FieldInits) → surface_inits fs ≡ meant_inits fs
  inits_meant FieldInits.no_fields = refl
  inits_meant (FieldInits.field _ e fs) = rw (accesses_meant e, inits_meant fs) refl

picks :
    (size : ℕ) {a b : List Access} (f g : ℕ → List Access) (π : List Access)
    → a ≡ b
    → ((i : ℕ) → f i ≡ g i)
    → IndexedRuns size a f π ↔ PicksOne size b g π
picks zero f g π e h = path_iff π e
picks (suc n) {a} {b} f g π e h =
    ((λ (i, lt, r). (i, lt, r ∙ rw (e, h i))), λ (i, lt, r). (i, lt, r ∙ rw (sym e, sym (h i))))

LetBy-LetElement :
    (method : String) (m : Method) (name : String) (size : ℕ) (idx e : Expr) (π : List Access)
    → Named method m
    → LetBy m name size idx e π ↔ LetElement (is_read method) method name size idx e π
unfolding element_name
LetBy-LetElement method Method.take name size idx e π (Named.take is) =
    rw is (picks size _ _ π (accesses_meant idx) (λ i. refl))
LetBy-LetElement method Method.try_take name size idx e π (Named.try_take is) =
    rw is (picks size _ _ π (accesses_meant idx) (λ i. refl))
LetBy-LetElement method Method.peek name size idx e π (Named.peek is) =
    rw is (picks size _ _ π (accesses_meant idx) (λ i. refl))
LetBy-LetElement method Method.put name size idx e π (Named.put is) =
    rw is (path_iff π (accesses_meant e))
LetBy-LetElement method Method.other name size idx e π (Named.other a b c d) =
    rw (a, b, c) (path_iff π (accesses_meant e))

module _ (array_ports : Dict String ℕ) where
  LetRuns-LetMeans :
      (e : Expr) (π : List Access)
      → LetRuns (array_call array_ports e) e π ↔ LetMeans array_ports e π
  unfolding array_call indexed_call
  LetRuns-LetMeans (Expr.method_call (Expr.index (Expr.variable name sp) idx sp') method args sp'')
        π =
      let e = Expr.method_call (Expr.index (Expr.variable name sp) idx sp') method args sp'' in
      elim (Option-cases (Dict.lookup name array_ports)) [
        | inl missing ↦ rw (array_call, missing) (path_iff π (accesses_meant e))
        | inr (size, found) ↦
            rw (array_call, found)
              (LetBy-LetElement method.node (method_of method.node) name size idx e π
                (method_of-Named method.node))
      ]
  LetRuns-LetMeans e π = path_iff π (accesses_meant e)

CallRuns-put_to :
    (method q : String) (m : Method) (arg : Expr) (a b π : List Access)
    → Named method m
    → a ≡ b
    → CallRuns m (some q) (Exprs.expr arg Exprs.none_left) a π
      ↔ (π ≡ put_to (method == "put") q (meant arg) b)
CallRuns-put_to method q Method.take arg a b π (Named.take is) e = rw is (path_iff π e)
CallRuns-put_to method q Method.try_take arg a b π (Named.try_take is) e = rw is (path_iff π e)
CallRuns-put_to method q Method.peek arg a b π (Named.peek is) e = rw is (path_iff π e)
CallRuns-put_to method q Method.put arg a b π (Named.put is) e =
    rw is (path_iff π (ap (λ ρ. ρ ++ Access.put q ∷ []) (accesses_meant arg)))
CallRuns-put_to method q Method.other arg a b π (Named.other _ _ _ d) e = rw d (path_iff π e)

-- A call on an identifier with no argument, or with two and more, and a call on no identifier.
CallRuns-none :
    (m : Method) (args : Exprs) (a b π : List Access) → a ≡ b → CallRuns m none args a π ↔ (π ≡ b)
CallRuns-none Method.put args a b π e = path_iff π e
CallRuns-none _ args a b π e = path_iff π e

CallRuns-other_args :
    (m : Method) (q : String) (a b π : List Access)
    → a ≡ b
    → CallRuns m (some q) Exprs.none_left a π ↔ (π ≡ b)
CallRuns-other_args Method.put q a b π e = path_iff π e
CallRuns-other_args _ q a b π e = path_iff π e

CallRuns-many_args :
    (m : Method) (q : String) (x y : Expr) (zs : Exprs) (a b π : List Access)
    → a ≡ b
    → CallRuns m (some q) (Exprs.expr x (Exprs.expr y zs)) a π ↔ (π ≡ b)
CallRuns-many_args Method.put q x y zs a b π e = path_iff π e
CallRuns-many_args _ q x y zs a b π e = path_iff π e

PlainRuns-stated : (e : Expr) (π : List Access) → PlainRuns e π ↔ (π ≡ stated e)
PlainRuns-stated (Expr.method_call (Expr.variable q sp) method (Exprs.expr arg Exprs.none_left) sp')
      π =
    CallRuns-put_to method.node q (method_of method.node) arg _ _ π (method_of-Named method.node) (
      accesses_meant
        (Expr.method_call (Expr.variable q sp) method (Exprs.expr arg Exprs.none_left) sp'))
PlainRuns-stated (Expr.method_call (Expr.variable q sp) method Exprs.none_left sp') π =
    CallRuns-other_args (method_of method.node) q _ _ π
      (accesses_meant (Expr.method_call (Expr.variable q sp) method Exprs.none_left sp'))
PlainRuns-stated (Expr.method_call (Expr.variable q sp) method (Exprs.expr x (Exprs.expr y zs)) sp')
      π =
    CallRuns-many_args (method_of method.node) q x y zs _ _ π (
      accesses_meant
        (Expr.method_call (Expr.variable q sp) method (Exprs.expr x (Exprs.expr y zs)) sp'))
PlainRuns-stated (Expr.method_call receiver method args sp) π =
    CallRuns-none (method_of method.node) args _ _ π
      (accesses_meant (Expr.method_call receiver method args sp))
PlainRuns-stated e π = path_iff π (accesses_meant e)

PutBy-PutElement :
    (method : String) (m : Method) (name : String) (size : ℕ) (idx arg e : Expr) (π : List Access)
    → Named method m
    → PutBy m name size idx arg e π ↔ PutElement (method == "put") name size idx arg e π
unfolding element_name
PutBy-PutElement method Method.take name size idx arg e π (Named.take is) =
    rw is (PlainRuns-stated e π)
PutBy-PutElement method Method.try_take name size idx arg e π (Named.try_take is) =
    rw is (PlainRuns-stated e π)
PutBy-PutElement method Method.peek name size idx arg e π (Named.peek is) =
    rw is (PlainRuns-stated e π)
PutBy-PutElement method Method.put name size idx arg e π (Named.put is) = rw is (
    picks size _ _ π (accesses_meant idx)
      (λ i. ap (λ ρ. ρ ++ Access.put (element_name name i) ∷ []) (accesses_meant arg)))
PutBy-PutElement method Method.other name size idx arg e π (Named.other _ _ _ d) =
    rw d (PlainRuns-stated e π)

module _ (array_ports : Dict String ℕ) where
  ExprRuns-ExprMeans :
      (e : Expr) (π : List Access)
      → ExprRuns (array_call array_ports e) e π ↔ ExprMeans array_ports e π
  unfolding array_call indexed_call
  ExprRuns-ExprMeans
        (Expr.method_call
          (Expr.index (Expr.variable name sp) idx sp')
          method
          (Exprs.expr arg Exprs.none_left)
          sp'')
        π =
      let e =
        Expr.method_call (Expr.index (Expr.variable name sp) idx sp') method
          (Exprs.expr arg Exprs.none_left) sp'' in
      elim (Option-cases (Dict.lookup name array_ports)) [
        | inl missing ↦ rw (array_call, missing) (PlainRuns-stated e π)
        | inr (size, found) ↦
            rw (array_call, found)
              (PutBy-PutElement method.node (method_of method.node) name size idx arg e π
                (method_of-Named method.node))
      ]
  ExprRuns-ExprMeans
        (Expr.method_call (Expr.index (Expr.variable name sp) idx sp') method Exprs.none_left sp'')
        π =
      let e =
        Expr.method_call (Expr.index (Expr.variable name sp) idx sp') method Exprs.none_left sp'' in
      elim (Option-cases (Dict.lookup name array_ports)) [
        | inl missing ↦ rw (array_call, missing) (PlainRuns-stated e π)
        | inr (size, found) ↦ rw (array_call, found) (PlainRuns-stated e π)
      ]
  ExprRuns-ExprMeans
        (Expr.method_call
          (Expr.index (Expr.variable name sp) idx sp')
          method
          (Exprs.expr x (Exprs.expr y zs))
          sp'')
        π =
      let e =
        Expr.method_call (Expr.index (Expr.variable name sp) idx sp') method
          (Exprs.expr x (Exprs.expr y zs)) sp'' in
      elim (Option-cases (Dict.lookup name array_ports)) [
        | inl missing ↦ rw (array_call, missing) (PlainRuns-stated e π)
        | inr (size, found) ↦ rw (array_call, found) (PlainRuns-stated e π)
      ]
  ExprRuns-ExprMeans e π = PlainRuns-stated e π

  mutual
    SurfaceRuns-Means :
        (s : Stmt) (π : List Access) → SurfaceRuns array_ports s π ↔ Means array_ports s π
    SurfaceRuns-Means (Stmt.let_ p e sp) π = LetRuns-LetMeans array_ports e π
    SurfaceRuns-Means (Stmt.expr e sp) π = ExprRuns-ExprMeans e π
    SurfaceRuns-Means (Stmt.put target e sp) π =
        path_iff π (ap (λ ρ. ρ ++ Access.put target.node ∷ []) (accesses_meant e))
    SurfaceRuns-Means (Stmt.match_ e Arms.no_arms sp) π = path_iff π (accesses_meant e)
    SurfaceRuns-Means (Stmt.match_ e (Arms.arm p body rest) sp) π =
        choice_iff π (accesses_meant e) (SurfaceRunsStmts-MeansAll body)
          (SurfaceRunsArms-MeansOne rest)
    SurfaceRuns-Means (Stmt.if_ c t f sp) π =
        choice_iff π (accesses_meant c) (SurfaceRunsStmts-MeansAll t) (SurfaceRunsStmts-MeansAll f)

    pub SurfaceRunsStmts-MeansAll :
        (ss : Stmts) (π : List Access)
        → SurfaceRunsStmts array_ports ss π ↔ MeansAll array_ports ss π
    SurfaceRunsStmts-MeansAll Stmts.done π = path_iff π refl
    SurfaceRunsStmts-MeansAll (Stmts.stmt s ss) π =
        sequence_iff π (SurfaceRuns-Means s) (SurfaceRunsStmts-MeansAll ss)

    SurfaceRunsArms-MeansOne :
        (arms : Arms) (π : List Access)
        → SurfaceRunsArms array_ports arms π ↔ MeansOne array_ports arms π
    SurfaceRunsArms-MeansOne Arms.no_arms π = ((λ x. x), λ x. x)
    SurfaceRunsArms-MeansOne (Arms.arm p body rest) π =
        either_iff (SurfaceRunsStmts-MeansAll body π) (SurfaceRunsArms-MeansOne rest π)
