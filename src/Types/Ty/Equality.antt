-- ===== src/Types/Ty/Equality.antt =====
-- The derived equality of src/types/ty.rs decides equality.
use tourbillon.Base.{
  ℕ, true, ◌&&◌, ◌≡◌, refl, ◌↔◌, Option, none, some, ◌==◌, ==_iff, ==_refl, nat_eq, string_eq,
  subst, Eq, and-eq-true, arith,
}
use tourbillon.Types.Ty.{
  Ty, Tys, Fields, Variants, same_depth, same_ty, same_tys, same_fields, same_variants,
}

same_depth-eq : (c d : Option ℕ) → same_depth c d ≡ true → c ≡ d
same_depth-eq none none h = refl
same_depth-eq (some m) (some n) h = ground (arith, ==_iff m n)
same_depth-eq c d h = cc

same_depth_refl : (c : Option ℕ) → same_depth c c ≡ true
same_depth_refl none = refl
same_depth_refl (some m) = ==_refl m

mutual
  unfolding same_ty

  same_ty→eq : (s t : Ty) → same_ty s t ≡ true → s ≡ t
  same_ty→eq (Ty.bits m) (Ty.bits n) h = ground (arith, ==_iff m n)
  same_ty→eq (Ty.tuple ss) (Ty.tuple ts) h = ground (arith, same_tys→eq ss ts)
  same_ty→eq (Ty.record_ m fs) (Ty.record_ n gs) h =
      ground (arith, ==_iff m n, same_fields→eq fs gs)
  same_ty→eq (Ty.enum m vs) (Ty.enum n ws) h = ground (arith, ==_iff m n, same_variants→eq vs ws)
  same_ty→eq (Ty.array s m) (Ty.array t n) h = ground (arith, ==_iff m n, same_ty→eq s t)
  same_ty→eq (Ty.queue s c) (Ty.queue t d) h = ground (arith, same_depth-eq c d, same_ty→eq s t)
  same_ty→eq (Ty.cell s) (Ty.cell t) h = ground (arith, same_ty→eq s t)
  same_ty→eq (Ty.async_queue s c) (Ty.async_queue t d) h =
      ground (arith, same_depth-eq c d, same_ty→eq s t)
  same_ty→eq (Ty.option s) (Ty.option t) h = ground (arith, same_ty→eq s t)
  same_ty→eq (Ty.named m) (Ty.named n) h = ground (arith, ==_iff m n)
  same_ty→eq Ty.bool Ty.bool h = refl
  same_ty→eq Ty.error Ty.error h = refl
  same_ty→eq s t h = cc

  same_tys→eq : (ss ts : Tys) → same_tys ss ts ≡ true → ss ≡ ts
  same_tys→eq Tys.no_tys Tys.no_tys h = refl
  same_tys→eq (Tys.ty s ss) (Tys.ty t ts) h = ground (arith, same_ty→eq s t, same_tys→eq ss ts)
  same_tys→eq ss ts h = cc

  same_fields→eq : (fs gs : Fields) → same_fields fs gs ≡ true → fs ≡ gs
  same_fields→eq Fields.no_fields Fields.no_fields h = refl
  same_fields→eq (Fields.field m s fs) (Fields.field n t gs) h =
      ground (arith, ==_iff m n, same_ty→eq s t, same_fields→eq fs gs)
  same_fields→eq fs gs h = cc

  same_variants→eq : (vs ws : Variants) → same_variants vs ws ≡ true → vs ≡ ws
  same_variants→eq Variants.no_variants Variants.no_variants h = refl
  same_variants→eq (Variants.variant m ss vs) (Variants.variant n ts ws) h =
      let (names, parts) = and-eq-true (m == n) (same_tys ss ts && same_variants vs ws) h in
      let (tys, later) = and-eq-true (same_tys ss ts) (same_variants vs ws) parts in
      cc ((==_iff m n).0 names, same_tys→eq ss ts tys, same_variants→eq vs ws later)
  same_variants→eq vs ws h = cc

mutual
  unfolding same_ty

  pub same_ty_refl : (t : Ty) → same_ty t t ≡ true
  same_ty_refl (Ty.bits n) = ==_refl n
  same_ty_refl Ty.bool = refl
  same_ty_refl (Ty.tuple ts) = same_tys_refl ts
  same_ty_refl (Ty.record_ n fs) = ground (arith, ==_refl n, same_fields_refl fs)
  same_ty_refl (Ty.enum n vs) = ground (arith, ==_refl n, same_variants_refl vs)
  same_ty_refl (Ty.array t n) = ground (arith, ==_refl n, same_ty_refl t)
  same_ty_refl (Ty.queue t d) = ground (arith, same_ty_refl t, same_depth_refl d)
  same_ty_refl (Ty.cell t) = same_ty_refl t
  same_ty_refl (Ty.async_queue t d) = ground (arith, same_ty_refl t, same_depth_refl d)
  same_ty_refl (Ty.option t) = same_ty_refl t
  same_ty_refl (Ty.named n) = ==_refl n
  same_ty_refl Ty.error = refl

  same_tys_refl : (ts : Tys) → same_tys ts ts ≡ true
  same_tys_refl Tys.no_tys = refl
  same_tys_refl (Tys.ty t ts) = ground (arith, same_ty_refl t, same_tys_refl ts)

  same_fields_refl : (fs : Fields) → same_fields fs fs ≡ true
  same_fields_refl Fields.no_fields = refl
  same_fields_refl (Fields.field n t fs) =
      ground (arith, ==_refl n, same_ty_refl t, same_fields_refl fs)

  same_variants_refl : (vs : Variants) → same_variants vs vs ≡ true
  same_variants_refl Variants.no_variants = refl
  same_variants_refl (Variants.variant n ts vs) =
      ground (arith, ==_refl n, same_tys_refl ts, same_variants_refl vs)

-- The derived comparison of two types succeeds exactly when they are the same type.
pub same_ty_iff : (s t : Ty) → (same_ty s t ≡ true) ↔ (s ≡ t)
same_ty_iff s t = (same_ty→eq s t, λ e. subst (λ u. same_ty s u ≡ true) e (same_ty_refl s))

instance abbrev pub ty_eq : Eq Ty
ty_eq = record { same = same_ty; same_iff = same_ty_iff }
