-- ===== src/Schedule/Resources.antt =====
-- What `collect_rule_resources` collects, against the accesses of the rule's body.
use tourbillon.Base.{
  ℕ, String, Bool, false, ◌||◌, ◌≡◌, refl, List, [], ◌∷◌, ◌++◌, Option, none, some, ◌==◌, nat_eq,
  string_eq, arith,
}
use tourbillon.Base.Dict.{lookup}
use tourbillon.Base.Sets.{contains, contains-insert}
use tourbillon.Ast.{Expr, Exprs, FieldInits, Stmt, Stmts, Arms, Rule}
use tourbillon.Ast.Accesses.{
  Access, expr_accesses, exprs_accesses, fields_accesses, stmt_accesses, stmts_accesses,
  arms_accesses,
}
use tourbillon.Schedule.{
  RuleResources, no_resources, PortMap, add_edge, note_take, note_try_take, note_peek, note_put,
  collect_expr_resources, collect_exprs_resources, collect_fields_resources, collect_stmt_resources,
  collect_stmts_resources, collect_arms_resources, collect_rule_resources,
}

-- Some access of the list passes the test.
unfoldable pub some_access : (Access → Bool) → List Access → Bool
some_access p [] = false
some_access p (a ∷ π) = p a || some_access p π

-- `q.take()` or `q.try_take()`
abbrev pub takes_from : String → Access → Bool
takes_from q (Access.take p) = p == q
takes_from q (Access.try_take p) = p == q
takes_from q _ = false

abbrev pub try_takes_from : String → Access → Bool
try_takes_from q (Access.try_take p) = p == q
try_takes_from q _ = false

abbrev pub puts_to : String → Access → Bool
puts_to q (Access.put p) = p == q
puts_to q _ = false

abbrev pub peeks_at : String → Access → Bool
peeks_at q (Access.peek p) = p == q
peeks_at q _ = false

-- The port is bound to the edge.
abbrev pub is_bound : PortMap → ℕ → String → Bool
is_bound m e q = elim (lookup q m) [ none ↦ false | some d ↦ d == e ]

-- The access takes from the edge or puts to it.
abbrev pub mutates : PortMap → ℕ → Access → Bool
mutates m e (Access.take q) = is_bound m e q
mutates m e (Access.try_take q) = is_bound m e q
mutates m e (Access.put q) = is_bound m e q
mutates m e (Access.peek q) = false

pub some_access-append :
    (p : Access → Bool) (π ρ : List Access)
    → some_access p (π ++ ρ) ≡ (some_access p π || some_access p ρ)
unfolding some_access
some_access-append p [] ρ = refl
some_access-append p (a ∷ π) ρ = ground (arith, some_access-append p π ρ)

-- `t` is `r` with the accesses `π` added.
pub record Adds (m : PortMap) (r t : RuleResources) (π : List Access) : Type 0 where
  pub takes :
      (q : String) → contains t.takes q ≡ (some_access (takes_from q) π || contains r.takes q)
  pub try_takes :
      (q : String)
      → contains t.try_takes q ≡ (some_access (try_takes_from q) π || contains r.try_takes q)
  pub puts : (q : String) → contains t.puts q ≡ (some_access (puts_to q) π || contains r.puts q)
  pub peeks : (q : String) → contains t.peeks q ≡ (some_access (peeks_at q) π || contains r.peeks q)
  pub edges :
      (e : ℕ)
      → contains t.mutable_edges e ≡ (some_access (mutates m e) π || contains r.mutable_edges e)

or_swap : (a b c t s : Bool) → s ≡ (a || c) → t ≡ (b || s) → t ≡ ((a || b) || c)
or_swap a b c t s h k = ground arith

or_swap' : (a b c t s : Bool) → s ≡ (b || c) → t ≡ (a || s) → t ≡ ((a || b) || c)
or_swap' a b c t s h k = ground arith

module _ {m : PortMap} {r s t : RuleResources} {π ρ : List Access} where
  Adds-append : Adds m r s π → Adds m s t ρ → Adds m r t (π ++ ρ)
  Adds-append f g = record {
    takes = λ q. rw some_access-append (or_swap _ _ _ _ _ (f.takes q) (g.takes q));
    try_takes = λ q. rw some_access-append (or_swap _ _ _ _ _ (f.try_takes q) (g.try_takes q));
    puts = λ q. rw some_access-append (or_swap _ _ _ _ _ (f.puts q) (g.puts q));
    peeks = λ q. rw some_access-append (or_swap _ _ _ _ _ (f.peeks q) (g.peeks q));
    edges = λ e. rw some_access-append (or_swap _ _ _ _ _ (f.edges e) (g.edges e));
  }

  -- The order of the additions does not matter.
  Adds-append' : Adds m r s ρ → Adds m s t π → Adds m r t (π ++ ρ)
  Adds-append' f g = record {
    takes = λ q. rw some_access-append (or_swap' _ _ _ _ _ (f.takes q) (g.takes q));
    try_takes = λ q. rw some_access-append (or_swap' _ _ _ _ _ (f.try_takes q) (g.try_takes q));
    puts = λ q. rw some_access-append (or_swap' _ _ _ _ _ (f.puts q) (g.puts q));
    peeks = λ q. rw some_access-append (or_swap' _ _ _ _ _ (f.peeks q) (g.peeks q));
    edges = λ e. rw some_access-append (or_swap' _ _ _ _ _ (f.edges e) (g.edges e));
  }

module _ (m : PortMap) where
  Adds-nil : (r : RuleResources) → Adds m r r []
  unfolding some_access
  Adds-nil r = record {
    takes = λ q. refl;
    try_takes = λ q. refl;
    puts = λ q. refl;
    peeks = λ q. refl;
    edges = λ e. refl;
  }

  contains-add_edge :
      (o : Option ℕ) (es : List ℕ) (e : ℕ)
      → contains (add_edge o es) e ≡ (elim o [ none ↦ false | some d ↦ d == e ] || contains es e)
  contains-add_edge none es e = refl
  contains-add_edge (some d) es e = contains-insert d es e

  Adds-take : (q : String) (r : RuleResources) → Adds m r (note_take m q r) (Access.take q ∷ [])
  unfolding note_take some_access
  Adds-take q r = record {
    takes = λ p. ground (arith, contains-insert q r.takes p);
    try_takes = λ p. refl;
    puts = λ p. refl;
    peeks = λ p. refl;
    edges = λ e. ground (arith, contains-add_edge (lookup q m) r.mutable_edges e);
  }

  Adds-try_take :
      (q : String) (r : RuleResources) → Adds m r (note_try_take m q r) (Access.try_take q ∷ [])
  unfolding note_try_take some_access
  Adds-try_take q r = record {
    takes = λ p. ground (arith, contains-insert q r.takes p);
    try_takes = λ p. ground (arith, contains-insert q r.try_takes p);
    puts = λ p. refl;
    peeks = λ p. refl;
    edges = λ e. ground (arith, contains-add_edge (lookup q m) r.mutable_edges e);
  }

  Adds-peek : (q : String) (r : RuleResources) → Adds m r (note_peek m q r) (Access.peek q ∷ [])
  unfolding note_peek some_access
  Adds-peek q r = record {
    takes = λ p. refl;
    try_takes = λ p. refl;
    puts = λ p. refl;
    peeks = λ p. ground (arith, contains-insert q r.peeks p);
    edges = λ e. refl;
  }

  Adds-put : (q : String) (r : RuleResources) → Adds m r (note_put m q r) (Access.put q ∷ [])
  unfolding note_put some_access
  Adds-put q r = record {
    takes = λ p. refl;
    try_takes = λ p. refl;
    puts = λ p. ground (arith, contains-insert q r.puts p);
    peeks = λ p. refl;
    edges = λ e. ground (arith, contains-add_edge (lookup q m) r.mutable_edges e);
  }

  mutual
    unfolding collect_expr_resources expr_accesses

    Adds-expr :
        (e : Expr) (r : RuleResources) → Adds m r (collect_expr_resources m e r) (expr_accesses e)
    Adds-expr (Expr.take q sp) r = Adds-take q r
    Adds-expr (Expr.try_take q sp) r = Adds-try_take q r
    Adds-expr (Expr.peek q sp) r = Adds-peek q r
    Adds-expr (Expr.bin_op op x y sp) r = Adds-append (Adds-expr x r) (Adds-expr y _)
    Adds-expr (Expr.unary_op op e sp) r = Adds-expr e r
    Adds-expr (Expr.call f es sp) r = Adds-exprs es r
    Adds-expr (Expr.tuple es sp) r = Adds-exprs es r
    Adds-expr (Expr.construct n fs sp) r = Adds-fields fs r
    Adds-expr (Expr.field_access e f sp) r = Adds-expr e r
    Adds-expr (Expr.index e i sp) r = Adds-append (Adds-expr e r) (Adds-expr i _)
    Adds-expr (Expr.update e i v sp) r =
        Adds-append (Adds-expr e r) (Adds-append (Adds-expr i _) (Adds-expr v _))
    Adds-expr (Expr.bit_slice e hi lo sp) r = Adds-expr e r
    Adds-expr (Expr.lit l sp) r = Adds-nil r
    Adds-expr (Expr.variable x sp) r = Adds-nil r
    Adds-expr (Expr.method_call e f es sp) r = Adds-nil r

    Adds-exprs :
        (es : Exprs) (r : RuleResources)
        → Adds m r (collect_exprs_resources m es r) (exprs_accesses es)
    Adds-exprs Exprs.none_left r = Adds-nil r
    Adds-exprs (Exprs.expr e es) r = Adds-append (Adds-expr e r) (Adds-exprs es _)

    Adds-fields :
        (fs : FieldInits) (r : RuleResources)
        → Adds m r (collect_fields_resources m fs r) (fields_accesses fs)
    Adds-fields FieldInits.no_fields r = Adds-nil r
    Adds-fields (FieldInits.field n e fs) r = Adds-append (Adds-expr e r) (Adds-fields fs _)

  mutual
    unfolding collect_stmt_resources stmt_accesses

    Adds-stmt :
        (s : Stmt) (r : RuleResources) → Adds m r (collect_stmt_resources m s r) (stmt_accesses s)
    Adds-stmt (Stmt.let_ p e sp) r = Adds-expr e r
    Adds-stmt (Stmt.put q e sp) r = Adds-append' (Adds-put q.node r) (Adds-expr e _)
    Adds-stmt (Stmt.expr e sp) r = Adds-expr e r
    Adds-stmt (Stmt.match_ e arms sp) r = Adds-append (Adds-expr e r) (Adds-arms arms _)
    Adds-stmt (Stmt.if_ c t f sp) r =
        Adds-append (Adds-expr c r) (Adds-append (Adds-stmts t _) (Adds-stmts f _))

    Adds-stmts :
        (ss : Stmts) (r : RuleResources)
        → Adds m r (collect_stmts_resources m ss r) (stmts_accesses ss)
    Adds-stmts Stmts.done r = Adds-nil r
    Adds-stmts (Stmts.stmt s ss) r = Adds-append (Adds-stmt s r) (Adds-stmts ss _)

    Adds-arms :
        (arms : Arms) (r : RuleResources)
        → Adds m r (collect_arms_resources m arms r) (arms_accesses arms)
    Adds-arms Arms.no_arms r = Adds-nil r
    Adds-arms (Arms.arm p body rest) r = Adds-append (Adds-stmts body r) (Adds-arms rest _)

  -- The collected resources of a rule are its accesses: `takes` holds the queues that it takes from
  -- in either way, `try_takes`, `puts` and `peeks` those of their kind, and `mutable_edges` the
  -- edges that the ports it takes from or puts to are bound to, and nothing else.
  pub collect_rule_resources_lem :
      (rule : Rule) (q : String) (e : ℕ)
      → (contains (collect_rule_resources m rule).takes q
          ≡ some_access (takes_from q) (stmts_accesses rule.body))
        × (contains (collect_rule_resources m rule).try_takes q
            ≡ some_access (try_takes_from q) (stmts_accesses rule.body))
        × (contains (collect_rule_resources m rule).puts q
            ≡ some_access (puts_to q) (stmts_accesses rule.body))
        × (contains (collect_rule_resources m rule).peeks q
            ≡ some_access (peeks_at q) (stmts_accesses rule.body))
        × (contains (collect_rule_resources m rule).mutable_edges e
            ≡ some_access (mutates m e) (stmts_accesses rule.body))
  unfolding collect_rule_resources contains
  collect_rule_resources_lem rule q e =
      let a = Adds-stmts rule.body no_resources in
      (
        ground (arith, a.takes q),
        ground (arith, a.try_takes q),
        ground (arith, a.puts q),
        ground (arith, a.peeks q),
        ground (arith, a.edges e),
      )
