-- ===== src/PrimitiveTy/Element.antt =====
-- The Rust type that a `PrimitiveTy` stands for, against `DynPrimitiveTy` and the widths.
use wincode_dynamic.Prelude.{
  ℕ, zero, suc, ◌≤◌, ◌<◌, ◌≡◌, refl, sym, ap, ◌∙◌, ◌↔◌, true, ==_iff, arith,
}
use wincode_dynamic.Wincode.{Primitive, size_of}
use wincode_dynamic.PrimitiveTy.{PrimitiveTy, size, type_of, discriminant, eq}

unfoldable pub element : PrimitiveTy → Primitive
element PrimitiveTy.u8 = Primitive.u8
element PrimitiveTy.u16 = Primitive.u16
element PrimitiveTy.u32 = Primitive.u32
element PrimitiveTy.u64 = Primitive.u64
element PrimitiveTy.i8 = Primitive.i8
element PrimitiveTy.i16 = Primitive.i16
element PrimitiveTy.i32 = Primitive.i32
element PrimitiveTy.i64 = Primitive.i64
element PrimitiveTy.f32 = Primitive.f32
element PrimitiveTy.f64 = Primitive.f64
element PrimitiveTy.bool = Primitive.bool

pub size_of-element : (ty : PrimitiveTy) → size_of (element ty) ≡ size ty
unfolding size_of element size
size_of-element PrimitiveTy.u8 = refl
size_of-element _ = refl

-- The width that a primitive type records is the width of the Rust type that it stands for.
pub size-type_of : (A : Primitive) → size (type_of A) ≡ size_of A
unfolding size_of type_of size
size-type_of Primitive.u8 = refl
size-type_of _ = refl

pub size_bounds : (ty : PrimitiveTy) → (0 < size ty) × (size ty ≤ 8)
unfolding size
size_bounds PrimitiveTy.u8 = omega arith
size_bounds _ = omega arith

pub size_of_bounds : (A : Primitive) → (0 < size_of A) × (size_of A ≤ 8)
unfolding size_of
size_of_bounds Primitive.u8 = omega arith
size_of_bounds _ = omega arith

variant : ℕ → PrimitiveTy
variant zero = PrimitiveTy.u8
variant (suc zero) = PrimitiveTy.u16
variant (suc (suc zero)) = PrimitiveTy.u32
variant (suc (suc (suc zero))) = PrimitiveTy.u64
variant (suc (suc (suc (suc zero)))) = PrimitiveTy.i8
variant (suc (suc (suc (suc (suc zero))))) = PrimitiveTy.i16
variant (suc (suc (suc (suc (suc (suc zero)))))) = PrimitiveTy.i32
variant (suc (suc (suc (suc (suc (suc (suc zero))))))) = PrimitiveTy.i64
variant (suc (suc (suc (suc (suc (suc (suc (suc zero)))))))) = PrimitiveTy.f32
variant (suc (suc (suc (suc (suc (suc (suc (suc (suc zero))))))))) = PrimitiveTy.f64
variant _ = PrimitiveTy.bool

variant-discriminant : (ty : PrimitiveTy) → variant (discriminant ty) ≡ ty
unfolding variant discriminant
variant-discriminant PrimitiveTy.u8 = refl
variant-discriminant _ = refl

-- The Boolean comparison of types is equality.
pub eq_iff : (a b : PrimitiveTy) → (eq a b ≡ true) ↔ (a ≡ b)
unfolding eq
eq_iff a b = (
  λ h.
      sym (variant-discriminant a)
      ∙ ap variant ((==_iff (discriminant a) (discriminant b)).0 h)
      ∙ variant-discriminant b,
  λ h. (==_iff (discriminant a) (discriminant b)).1 (ap discriminant h),
)
