-- ===== src/Desugar/Choices.antt =====
-- Paths of statements with branches and of one statement after another.
use tourbillon.Base.{◌≡◌, ◌↔◌, ◌⊎◌, sym, ap, ◌∙◌, inl, inr, List, ◌++◌}
use tourbillon.Ast.Accesses.{Access}

-- Two choices of a path behind the accesses of an expression.
pub choice_iff :
    {P Q P' Q' : List Access → Type 0} {a b : List Access} (π : List Access)
    → a ≡ b
    → ((ρ : List Access) → P ρ ↔ P' ρ)
    → ((ρ : List Access) → Q ρ ↔ Q' ρ)
    → ((ρ : List Access) × (P ρ ⊎ Q ρ) × (π ≡ a ++ ρ))
      ↔ ((ρ : List Access) × (P' ρ ⊎ Q' ρ) × (π ≡ b ++ ρ))
choice_iff π e p q = (
  (λ (ρ, o, h).
      (ρ, elim o [ inl x ↦ inl ((p ρ).0 x) | inr y ↦ inr ((q ρ).0 y) ], h ∙ ap (λ a. a ++ ρ) e)),
  λ (ρ, o, h). (
    ρ,
    elim o [ inl x ↦ inl ((p ρ).1 x) | inr y ↦ inr ((q ρ).1 y) ],
    h ∙ sym (ap (λ a. a ++ ρ) e),
  ),
)

pub either_iff : {P Q P' Q' : Type 0} → P ↔ P' → Q ↔ Q' → (P ⊎ Q) ↔ (P' ⊎ Q')
either_iff p q = (
  (λ o. elim o [ inl x ↦ inl (p.0 x) | inr y ↦ inr (q.0 y) ]),
  λ o. elim o [ inl x ↦ inl (p.1 x) | inr y ↦ inr (q.1 y) ],
)

-- One path after another.
pub sequence_iff :
    {P Q P' Q' : List Access → Type 0} (π : List Access)
    → ((ρ : List Access) → P ρ ↔ P' ρ)
    → ((ρ : List Access) → Q ρ ↔ Q' ρ)
    → ((ρ : List Access) × (σ : List Access) × P ρ × Q σ × (π ≡ ρ ++ σ))
      ↔ ((ρ : List Access) × (σ : List Access) × P' ρ × Q' σ × (π ≡ ρ ++ σ))
sequence_iff π p q = (
  (λ (ρ, σ, r, s, e). (ρ, σ, (p ρ).0 r, (q σ).0 s, e)),
  λ (ρ, σ, r, s, e). (ρ, σ, (p ρ).1 r, (q σ).1 s, e),
)
