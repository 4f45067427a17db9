-- ===== src/Base/Decimal.antt =====
-- The decimal print of a `u64`, `{i}` of `format!`.
use Prim.Native.Nat.{ℕ, zero, suc, ◌+◌, ◌*◌, ◌/◌, ◌%◌}
use Prim.Native.Char.{Char}
use Prim.Native.String.{String}
use Prim.Native.Nat.{◌<◌, ◌^◌}
use Prim.Native.Char.{code}
use mathlib.Core.Path.{◌≡◌, refl}
use mathlib.Core.Logic.{inl, inr}
use native.Mathlib.Nat.{pow-suc}
use native.Mathlib.Omega.{arith}
use tourbillon.Base.Tests.{Bool-cases, ltb, if◌then◌else◌}

abbrev digit_char : ℕ → Char
digit_char zero = "0"
digit_char (suc zero) = "1"
digit_char (suc (suc zero)) = "2"
digit_char (suc (suc (suc zero))) = "3"
digit_char (suc (suc (suc (suc zero)))) = "4"
digit_char (suc (suc (suc (suc (suc zero))))) = "5"
digit_char (suc (suc (suc (suc (suc (suc zero)))))) = "6"
digit_char (suc (suc (suc (suc (suc (suc (suc zero))))))) = "7"
digit_char (suc (suc (suc (suc (suc (suc (suc (suc zero)))))))) = "8"
digit_char _ = "9"

-- The last digit of a number.
unfoldable pub digit : ℕ → Char
digit n = digit_char (n % 10)

-- The digits of `n` before a text, at most `fuel` of them.
unfoldable pub digits : (fuel n : ℕ) → String → String
unfolding digit
digits zero n s = s
digits (suc fuel) n s =
    let longer = digits fuel (n / 10) (String.◌∷◌ (digit n) s) in
    if ltb n 10 then String.◌∷◌ (digit n) s else longer

-- A `u64` has at most 20 digits.
unfoldable pub decimal : ℕ → String
unfolding digits
decimal n = digits 20 n String.[]

code-digit_char : (n : ℕ) → n < 10 → code (digit_char n) ≡ n + 48
code-digit_char zero h = refl
code-digit_char (suc zero) h = refl
code-digit_char (suc (suc zero)) h = refl
code-digit_char (suc (suc (suc zero))) h = refl
code-digit_char (suc (suc (suc (suc zero)))) h = refl
code-digit_char (suc (suc (suc (suc (suc zero))))) h = refl
code-digit_char (suc (suc (suc (suc (suc (suc zero)))))) h = refl
code-digit_char (suc (suc (suc (suc (suc (suc (suc zero))))))) h = refl
code-digit_char (suc (suc (suc (suc (suc (suc (suc (suc zero)))))))) h = refl
code-digit_char (suc (suc (suc (suc (suc (suc (suc (suc (suc zero))))))))) h = refl
code-digit_char (suc (suc (suc (suc (suc (suc (suc (suc (suc (suc n)))))))))) h = omega arith

pub code-digit : (n : ℕ) → code (digit n) ≡ n % 10 + 48
unfolding digit
code-digit n = code-digit_char (n % 10) (omega arith)

-- The print has a first digit.
pub digits-cons :
    (fuel n : ℕ) (s : String) → (d : Char) × (t : String) × (digits (suc fuel) n s ≡ String.◌∷◌ d t)
unfolding digits
digits-cons zero n s = elim (Bool-cases (ltb n 10)) [
  | inl e ↦ (digit n, s, rw e)
  | inr e ↦ (digit n, s, rw e)
]
digits-cons (suc fuel) n s =
    let (d, t, e) = digits-cons fuel (n / 10) (String.◌∷◌ (digit n) s) in
    elim (Bool-cases (ltb n 10)) [
      | inl short ↦ (digit n, s, rw short)
      | inr long ↦ (d, t, rw long e)
    ]

pub ten_pow : (fuel : ℕ) → 10 ^ suc fuel ≡ 10 * 10 ^ fuel
ten_pow fuel = omega (arith, pow-suc 10 fuel)
