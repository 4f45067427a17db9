-- ===== src/Desugar/Names.antt =====
-- The numbered names of array ports, `format!("{name}_{i}")` in src/desugar.rs.
use text.Mathlib.TextLemmas.{append_cancel_left, nil≢cons}
use tourbillon.Base.{ℕ, zero, suc, ◌/◌, ◌^◌, ◌<◌, String, some, ◌≡◌, ◌∙◌, sym, ap, arith}
use tourbillon.Base.Decimal.{digit, digits, decimal, code-digit, digits-cons, ten_pow}
use tourbillon.Types.Env.{parse_digits, parse_u64}
use tourbillon.Desugar.Bodies.{element_name}

parse_digits-digits :
    (fuel n : ℕ) (s : String)
    → n < 10 ^ fuel
    → n < 2 ^ 64
    → parse_digits 0 (digits fuel n s) ≡ parse_digits n s
unfolding parse_digits digits
parse_digits-digits zero n s h b = let nil : n ≡ 0 = omega arith in rw nil
parse_digits-digits (suc fuel) n s h b =
    ground (
      arith,
      code-digit n,
      ten_pow fuel,
      parse_digits-digits fuel (n / 10) (String.◌∷◌ (digit n) s),
    )

-- A text with a first character that reads as digits has no sign.
parse_u64-cons :
    (s : String) (c : _) (t : String) (n : ℕ)
    → s ≡ String.◌∷◌ c t
    → parse_digits 0 s ≡ some n
    → parse_u64 s ≡ some n
unfolding parse_u64 parse_digits
parse_u64-cons String.[] c t n e h = absurd (nil≢cons e)
parse_u64-cons (String.◌∷◌ c String.[]) c' t n e h = h
parse_u64-cons (String.◌∷◌ c (String.◌∷◌ d s)) c' t n e h = ground arith

parse_u64-digits :
    (fuel n : ℕ)
    → n < 10 ^ suc fuel
    → n < 2 ^ 64
    → parse_u64 (digits (suc fuel) n String.[]) ≡ some n
unfolding parse_digits
parse_u64-digits fuel n h b =
    let (c, t, e) = digits-cons fuel n String.[] in
    parse_u64-cons (digits (suc fuel) n String.[]) c t n e
      (parse_digits-digits (suc fuel) n String.[] h b)

-- A `u64` is read back from its decimal print, and the names of the elements of an array port are
-- different for different indices.
pub parse_u64-decimal :
    (name : String) (i : ℕ)
    → i < 2 ^ 64
    → (parse_u64 (decimal i) ≡ some i)
      × ((j : ℕ) → j < 2 ^ 64 → element_name name i ≡ element_name name j → i ≡ j)
unfolding decimal element_name
parse_u64-decimal name i h = (
  parse_u64-digits 19 i (omega arith) h,
  λ j k e.
      let same = append_cancel_left "_" _ _ (append_cancel_left name _ _ e) in
      let read : some i ≡ some j =
        sym (parse_u64-digits 19 i (omega arith) h)
        ∙ (ap parse_u64 same ∙ parse_u64-digits 19 j (omega arith) k) in
      cc,
)
