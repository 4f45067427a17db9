-- ===== src/Diagnostics.antt =====
-- Diagnostics, src/diagnostics.rs. A message is a constructor for its text, with the values that
-- the source formats into it.
use tourbillon.Base.{ℕ, String, List, [], ◌∷◌, ◌++◌, ◌≡◌, refl, ap, Option, append-eq-nil}
use tourbillon.Ast.{Span}
use tourbillon.Types.Ty.{Ty}

pub data Message : Type 0 where
  -- src/types/linearity.rs
  not_put_back : (cell rule : String) → Message
  put_without_take put_twice taken_twice taken_after_put : (cell : String) → Message
  inconsistent_arms inconsistent_branches : (cell : String) → Message
  -- src/deadlock.rs: the process names of the cycle
  no_initial_tokens : List String → Message
  too_shallow : List String → (total_depth process_count : ℕ) → Message
  -- src/types/env.rs
  not_a_width : Message
  -- src/types/check.rs
  undefined_variable undefined_port not_a_queue not_a_record undefined_record : String → Message
  type_mismatch comparison_mismatch put_mismatch : Ty → Ty → Message
  expected_bool non_bool_condition non_record_access non_array_index non_array_update : Ty → Message
  slice_of_non_bits non_tuple_pattern : Ty → Message
  no_field : String → Ty → Message
  wrong_arity : String → (expected found : ℕ) → Message
  field_mismatch : String → (expected found : Ty) → Message
  unknown_field : (field name : String) → Message
  slice_out_of_range slice_reversed tuple_length : ℕ → ℕ → Message
  leftover_method_call : Message
  -- src/desugar.rs
  takes_no_arguments unknown_method : (method : String) → Message
  put_arity put_receiver : Message
  -- src/elaborate.rs
  instantiates_itself unknown_process duplicate_domain unknown_domain no_depth : String → Message
  not_a_power_of_2 : (queue : String) (depth : ℕ) → Message
  no_port no_state_port unbound_port : (owner port : String) → Message
  not_a_peek unknown_instance unknown_queue no_writer no_reader : String → Message
  queue_mismatch : (port queue : String) (expected found : Ty) → Message
  second_writer second_reader : (queue existing : String) → Message
  crosses_domains peek_crosses_domains : (edge : String) (source target : Option String) → Message
  same_domain : (queue : String) → Message

pub data DiagnosticKind : Type 0 where
  error warning : DiagnosticKind

pub record Diagnostic : Type 0 where
  pub span : Span
  pub message : Message
  pub kind : DiagnosticKind

-- `Diagnostic::error`
abbrev pub error_at : Span → Message → Diagnostic
error_at sp m = record { span = sp; message = m; kind = DiagnosticKind.error }

-- `Diagnostic::warning`
abbrev pub warning_at : Span → Message → Diagnostic
warning_at sp m = record { span = sp; message = m; kind = DiagnosticKind.warning }

-- A function of the source that mutates a state and pushes diagnostics: it returns the new state
-- and the diagnostics that it pushes, in their order.
abbrev pub Pass {ℓ} : Type ℓ → Type ℓ
Pass S = S → S × List Diagnostic

module _ {ℓ} {S : Type ℓ} where
  abbrev pub skip : Pass S
  skip s = (s, [])

  abbrev pub push : Diagnostic → Pass S
  push d s = (s, d ∷ [])

  -- Diagnostics of a call that changes no state.
  abbrev pub push_all : List Diagnostic → Pass S
  push_all ds s = (s, ds)

  infixr 40 ◌▸◌
  -- One call after another.
  unfoldable pub ◌▸◌ : Pass S → Pass S → Pass S
  ◌▸◌ f g s = ((g (f s).0).0, (f s).1 ++ (g (f s).0).1)

  pub ▸-state : (f g : Pass S) (s : S) → ((f ▸ g) s).0 ≡ (g (f s).0).0
  unfolding ◌▸◌
  ▸-state f g s = refl

  pub ▸-eq-nil : (f g : Pass S) (s : S) → ((f ▸ g) s).1 ≡ [] → ((f s).1 ≡ []) × ((g (f s).0).1 ≡ [])
  unfolding ◌▸◌
  ▸-eq-nil f g s h = append-eq-nil (f s).1 (g (f s).0).1 h

-- A function of the source that returns a value and pushes diagnostics.
abbrev pub Reports {ℓ} : Type ℓ → Type ℓ
Reports A = A × List Diagnostic

abbrev pub return {ℓ} : {A : Type ℓ} → A → Reports A
return a = (a, [])

-- The value, with one diagnostic before it.
abbrev pub report {ℓ} : {A : Type ℓ} → Diagnostic → A → Reports A
report d a = (a, d ∷ [])

module _ {ℓ κ} {A : Type ℓ} {B : Type κ} where
  infixl 5 ◌>>=◌
  unfoldable pub ◌>>=◌ : Reports A → (A → Reports B) → Reports B
  m >>= f = let (a, ds) = m in let (b, es) = f a in (b, ds ++ es)

module _ {ℓ} {A : Type ℓ} where
  pub pair-path : (p : Reports A) (a : A) → p.0 ≡ a → p.1 ≡ [] → p ≡ (a, [])
  pair-path (x, ds) a e f = rw (e, f)

module _ {ℓ κ} {A : Type ℓ} {B : Type κ} where
  -- A chain that reports nothing has parts that report nothing.
  pub clean->>= :
      (m : Reports A) (f : A → Reports B) (b : B)
      → (m >>= f) ≡ (b, [])
      → (m ≡ (m.0, [])) × (f m.0 ≡ (b, []))
  unfolding ◌>>=◌
  clean->>= (a, ds) f b h =
      let (nil, later) = append-eq-nil ds (f a).1 (ap (λ p. p.1) h) in
      (rw (nil), pair-path (f a) b (ap (λ p. p.0) h) later)

  pub >>=-pure : (m : Reports A) (f : A → Reports B) (a : A) → m ≡ (a, []) → (m >>= f) ≡ f a
  unfolding ◌>>=◌
  >>=-pure m f a h = rw (h)
