-- ===== src/Types/Linearity/Joins.antt =====
-- What a join without diagnostics says of the joined states.
use tourbillon.Base.{
  String, ◌≡◌, inl, inr, List, [], ◌∷◌, some, append-eq-nil, ◌==◌, ==_iff, string_eq, Bool-cases,
  arith,
}
use tourbillon.Base.Dict.{lookup}
use tourbillon.Ast.{Span}
use tourbillon.Diagnostics.{Message}
use tourbillon.Types.Linearity.{
  CellState, cell_state_eq, States, compare_state, compare_arms, join_arms, join_branches,
}

compare_state-eq-nil :
    (m : Message) (sp : Span) (a b : CellState) → compare_state m sp a (some b) ≡ [] → a ≡ b
unfolding compare_state
compare_state-eq-nil m sp a b h = ground (arith, ==_iff a b)

module _ (c : String) (a : CellState) where
  pub join_branches-eq-nil :
      (sp : Span) (first other : States) (b : CellState)
      → join_branches sp first other ≡ []
      → lookup c first ≡ some a
      → lookup c other ≡ some b
      → a ≡ b
  unfolding join_branches lookup
  join_branches-eq-nil sp [] other b h k l = cc
  join_branches-eq-nil sp ((name, state) ∷ first) other b h k l =
      let (here, later) = append-eq-nil _ (join_branches sp first other) h in
      elim (Bool-cases (name == c)) [
        | inl same ↦
            let at_name : lookup name other ≡ some b = rw ((==_iff name c).0 same) l in
            let held = rw same at k in
            cc (held, compare_state-eq-nil _ sp state b (rw at_name at here))
        | inr differ ↦ join_branches-eq-nil sp first other b later (rw differ at k) l
      ]

  pub compare_arms-cons :
      (sp : Span) (other : States) (rest : List (Span × States)) (b : CellState)
      → compare_arms c a ((sp, other) ∷ rest) ≡ []
      → lookup c other ≡ some b
      → (a ≡ b) × (compare_arms c a rest ≡ [])
  unfolding compare_arms
  compare_arms-cons sp other rest b h l =
      let (here, later) = append-eq-nil _ (compare_arms c a rest) h in
      (compare_state-eq-nil _ sp a b (rw l at here), later)

  pub join_arms-eq-nil :
      (first : States) (others : List (Span × States))
      → join_arms first others ≡ []
      → lookup c first ≡ some a
      → compare_arms c a others ≡ []
  unfolding join_arms lookup
  join_arms-eq-nil [] others h k = cc
  join_arms-eq-nil ((name, state) ∷ first) others h k =
      let (here, later) =
        append-eq-nil (compare_arms name state others) (join_arms first others) h in
      elim (Bool-cases (name == c)) [
        | inl same ↦
            let named = (==_iff name c).0 same in
            let entry = rw same at k in let held : state ≡ a = cc entry in rw (← named, ← held) here
        | inr differ ↦ join_arms-eq-nil first others later (rw differ at k)
      ]
