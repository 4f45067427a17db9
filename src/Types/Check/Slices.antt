-- ===== src/Types/Check/Slices.antt =====
-- Bit slices, the `BitSlice` case of `check_expr` in src/types/check.rs.
use tourbillon.Base.{ℕ, ◌+◌, ◌≤◌, ◌<◌, ◌≡◌}
use tourbillon.Types.Ty.{Ty}

-- The types that a clean slice has, by the type of the sliced expression.
pub data SliceOf (hi lo : ℕ) : (whole slice : Ty) → Type 0 where
  slice_of_bits :
      {n w : ℕ} → lo ≤ hi → hi < n → w + lo ≡ hi + 1 → SliceOf hi lo (Ty.bits n) (Ty.bits w)
  slice_of_error : SliceOf hi lo Ty.error Ty.error
