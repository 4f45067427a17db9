-- ===== src/Elaborate/PowersOf2.antt =====
-- The test for powers of two of an asynchronous queue's depth, in src/elaborate.rs.
use Prim.Native.Nat.{bit_and, bit_and-bitwise, min}
use Prim.Native.Nat as Native
use native.Mathlib.Nat.{pow-suc}
use tourbillon.Base.{
  ℕ, zero, suc, ◌+◌, ◌-◌, ◌*◌, ◌/◌, ◌%◌, ◌^◌, ◌≤◌, ◌<◌, true, not, ◌||◌, ◌≡◌, ◌↔◌, refl, arith, inl,
  inr, ◌⊎◌, ◌==◌, nat_eq, eqb_iff, Bool-cases,
}
use tourbillon.Elaborate.Queues.{is_power_of_2}

-- The bits of two numbers, with fuel.
abbrev both : (fuel a b : ℕ) → ℕ
both fuel a b = Native.digits (λ _. zero) min fuel a b

both_step :
    (fuel a b : ℕ)
    → 0 < a
    → both (suc fuel) a b ≡ both fuel (a / 2) (b / 2) * 2 + min (a % 2) (b % 2)
both_step fuel zero b h = absurd (omega arith)
both_step fuel (suc a) b h = refl

both_same : (fuel a : ℕ) → a ≤ fuel → both fuel a a ≡ a
both_same zero a h = omega arith
both_same (suc fuel) zero h = refl
both_same (suc fuel) (suc a) h =
    omega (arith, both_same fuel (suc a / 2) (omega arith), both_step fuel (suc a) (suc a))

-- Half of the number, when it is even.
both_even : (fuel m : ℕ) → 0 < m → both (suc fuel) (2 * m) (2 * m - 1) ≡ 2 * both fuel m (m - 1)
both_even fuel m h =
    let a : (2 * m) / 2 ≡ m = omega arith in
    let b : (2 * m - 1) / 2 ≡ m - 1 = omega arith in
    let c : (2 * m) % 2 ≡ 0 = omega arith in
    rw (both_step fuel (2 * m) (2 * m - 1) (omega arith), a, b, c) (omega arith)

both_odd : (fuel m : ℕ) → m ≤ fuel → both (suc fuel) (2 * m + 1) (2 * m) ≡ 2 * m
both_odd fuel m h =
    let a : (2 * m + 1) / 2 ≡ m = omega arith in
    let b : (2 * m) / 2 ≡ m = omega arith in
    let c : (2 * m) % 2 ≡ 0 = omega arith in
    rw (both_step fuel (2 * m + 1) (2 * m) (omega arith), a, b, c, both_same fuel m h) (omega arith)

parity : (a : ℕ) → 0 < a → ((m : ℕ) × (0 < m) × (a ≡ 2 * m)) ⊎ ((m : ℕ) × (a ≡ 2 * m + 1))
parity a h = elim (Bool-cases (a % 2 == 0)) [
  | inl e ↦ inl (a / 2, ground arith, ground arith)
  | inr e ↦ inr (a / 2, ground arith)
]

-- Twice a number is a power of two exactly when the number is.
double_iff : (m : ℕ) → 0 < m → ((k : ℕ) × (m ≡ 2 ^ k)) ↔ ((k : ℕ) × (2 * m ≡ 2 ^ k))
double_iff m h = ((λ (k, e). (suc k, omega (arith, pow-suc 2 k))), λ (k, e). double_back k e)
  where
    double_back : (k : ℕ) → 2 * m ≡ 2 ^ k → (k : ℕ) × (m ≡ 2 ^ k)
    double_back zero e = absurd (omega arith)
    double_back (suc k) e = (k, omega (arith, pow-suc 2 k))

odd_power : (m k : ℕ) → 2 * m + 1 ≡ 2 ^ k → m ≡ 0
odd_power m zero e = omega arith
odd_power m (suc k) e = omega (arith, pow-suc 2 k)

both_iff : (fuel a : ℕ) → 0 < a → a ≤ fuel → (both fuel a (a - 1) ≡ 0) ↔ ((k : ℕ) × (a ≡ 2 ^ k))
both_iff zero a h l = absurd (omega arith)
both_iff (suc fuel) a h l = elim (parity a h) [
  | inl (m, positive, e) ↦
      let half = both_iff fuel m positive (omega arith) in
      let same = double_iff m positive in
      rw e (
        (λ none. same.0 (half.0 (omega (arith, both_even fuel m positive)))),
        λ power. omega (arith, both_even fuel m positive, half.1 (same.1 power)),
      )
  | inr (m, e) ↦
      let less : 2 * m + 1 - 1 ≡ 2 * m = omega arith in
      rw (e, less)
        (
          (λ none. (0, omega (arith, both_odd fuel m))),
          λ (k, power). omega (arith, both_odd fuel m, odd_power m k power),
        )
]

pow-positive : (k : ℕ) → 0 < 2 ^ k
pow-positive zero = omega arith
pow-positive (suc k) = omega (arith, pow-positive k, pow-suc 2 k)

accepts :
    (n bits : ℕ) {P : Type 0} → (bits ≡ 0) ↔ P → (not (suc n == 0 || not (bits == 0)) ≡ true) ↔ P
accepts n bits same = (
  (λ h. same.0 (ground (arith, eqb_iff bits 0))),
  λ p. let e = same.1 p in ground (arith, eqb_iff bits 0),
)

-- The depth test of asynchronous queues accepts exactly the powers of two.
pub is_power_of_2_iff : (depth : ℕ) → (is_power_of_2 depth ≡ true) ↔ ((k : ℕ) × (depth ≡ 2 ^ k))
unfolding is_power_of_2
is_power_of_2_iff zero = ((λ h. absurd (cc)), λ (k, e). absurd (omega (arith, pow-positive k)))
is_power_of_2_iff (suc n) =
    let bits = both_iff (suc n) (suc n) (omega arith) (omega arith) in
    let same : bit_and (suc n) (suc n - 1) ≡ both (suc n) (suc n) (suc n - 1) =
      bit_and-bitwise (suc n) (suc n - 1) in
    rw same (accepts n _ bits)
