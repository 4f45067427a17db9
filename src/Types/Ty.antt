-- ===== src/Types/Ty.antt =====
-- The types that the checker infers, `Ty` of src/types/ty.rs.
pub mod Equality
use tourbillon.Base.{
  ℕ, String, Bool, true, false, ◌&&◌, Option, none, some, ◌==◌, nat_eq, string_eq,
}

mutual
  pub data Ty : Type 0 where
    bits : ℕ → Ty
    bool : Ty
    tuple : Tys → Ty
    record_ : String → Fields → Ty
    enum : String → Variants → Ty
    array : Ty → ℕ → Ty
    queue : Ty → Option ℕ → Ty
    cell : Ty → Ty
    async_queue : Ty → Option ℕ → Ty
    option : Ty → Ty
    named : String → Ty
    error : Ty

  pub data Tys : Type 0 where
    no_tys : Tys
    ty : Ty → Tys → Tys

  pub data Fields : Type 0 where
    no_fields : Fields
    field : String → Ty → Fields → Fields

  pub data Variants : Type 0 where
    no_variants : Variants
    variant : String → Tys → Variants → Variants

-- `PartialEq`, as `derive` writes it.
abbrev pub same_depth : Option ℕ → Option ℕ → Bool
same_depth none none = true
same_depth (some m) (some n) = m == n
same_depth _ _ = false

unfoldable mutual
  pub same_ty : Ty → Ty → Bool
  same_ty (Ty.bits m) (Ty.bits n) = m == n
  same_ty Ty.bool Ty.bool = true
  same_ty (Ty.tuple ss) (Ty.tuple ts) = same_tys ss ts
  same_ty (Ty.record_ m fs) (Ty.record_ n gs) = m == n && same_fields fs gs
  same_ty (Ty.enum m vs) (Ty.enum n ws) = m == n && same_variants vs ws
  same_ty (Ty.array s m) (Ty.array t n) = same_ty s t && m == n
  same_ty (Ty.queue s c) (Ty.queue t d) = same_ty s t && same_depth c d
  same_ty (Ty.cell s) (Ty.cell t) = same_ty s t
  same_ty (Ty.async_queue s c) (Ty.async_queue t d) = same_ty s t && same_depth c d
  same_ty (Ty.option s) (Ty.option t) = same_ty s t
  same_ty (Ty.named m) (Ty.named n) = m == n
  same_ty Ty.error Ty.error = true
  same_ty _ _ = false

  pub same_tys : Tys → Tys → Bool
  same_tys Tys.no_tys Tys.no_tys = true
  same_tys (Tys.ty s ss) (Tys.ty t ts) = same_ty s t && same_tys ss ts
  same_tys _ _ = false

  pub same_fields : Fields → Fields → Bool
  same_fields Fields.no_fields Fields.no_fields = true
  same_fields (Fields.field m s fs) (Fields.field n t gs) =
      m == n && (same_ty s t && same_fields fs gs)
  same_fields _ _ = false

  pub same_variants : Variants → Variants → Bool
  same_variants Variants.no_variants Variants.no_variants = true
  same_variants (Variants.variant m ss vs) (Variants.variant n ts ws) =
      m == n && (same_tys ss ts && same_variants vs ws)
  same_variants _ _ = false
