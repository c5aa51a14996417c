-- ===== src/PrimitiveTy.antt =====
-- wincode-dynamic/src/ty.rs: `PrimitiveTy`, its widths, and the Rust types that it stands for
-- (the trait `DynPrimitiveTy`).
pub mod Element
use wincode_dynamic.Prelude.{ℕ, Bool, ◌==◌}
use wincode_dynamic.Wincode.{Primitive, El, size_of}

-- `enum PrimitiveTy`
pub data PrimitiveTy : Type 0 where
  u8 u16 u32 u64 i8 i16 i32 i64 f32 f64 bool : PrimitiveTy

-- `PrimitiveTy::size`
unfoldable pub size : PrimitiveTy → ℕ
size PrimitiveTy.u8 = 1
size PrimitiveTy.u16 = 2
size PrimitiveTy.u32 = 4
size PrimitiveTy.u64 = 8
size PrimitiveTy.i8 = 1
size PrimitiveTy.i16 = 2
size PrimitiveTy.i32 = 4
size PrimitiveTy.i64 = 8
size PrimitiveTy.f32 = 4
size PrimitiveTy.f64 = 8
size PrimitiveTy.bool = 1

-- `trait DynPrimitiveTy`, which any crate may implement: the type that implements it, with its
-- values and `size_of`, and its `TYPE`.
pub record DynPrimitiveTy : Type 1 where
  pub Item : Type 0
  pub ty : PrimitiveTy
  pub size : ℕ

-- `<A as DynPrimitiveTy>::TYPE` of the implementations of the program.
unfoldable pub type_of : Primitive → PrimitiveTy
type_of Primitive.u8 = PrimitiveTy.u8
type_of Primitive.u16 = PrimitiveTy.u16
type_of Primitive.u32 = PrimitiveTy.u32
type_of Primitive.u64 = PrimitiveTy.u64
type_of Primitive.i8 = PrimitiveTy.i8
type_of Primitive.i16 = PrimitiveTy.i16
type_of Primitive.i32 = PrimitiveTy.i32
type_of Primitive.i64 = PrimitiveTy.i64
type_of Primitive.f32 = PrimitiveTy.f32
type_of Primitive.f64 = PrimitiveTy.f64
type_of Primitive.bool = PrimitiveTy.bool

-- The implementations of the program.
abbrev pub builtin : Primitive → DynPrimitiveTy
builtin A = record { Item = El A; ty = type_of A; size = size_of A }

-- The place of a variant in the declaration.
unfoldable pub discriminant : PrimitiveTy → ℕ
discriminant PrimitiveTy.u8 = 0
discriminant PrimitiveTy.u16 = 1
discriminant PrimitiveTy.u32 = 2
discriminant PrimitiveTy.u64 = 3
discriminant PrimitiveTy.i8 = 4
discriminant PrimitiveTy.i16 = 5
discriminant PrimitiveTy.i32 = 6
discriminant PrimitiveTy.i64 = 7
discriminant PrimitiveTy.f32 = 8
discriminant PrimitiveTy.f64 = 9
discriminant PrimitiveTy.bool = 10

-- The derived `PartialEq` of an enum with no payload compares the variants.
unfoldable pub eq : PrimitiveTy → PrimitiveTy → Bool
unfolding discriminant
eq a b = discriminant a == discriminant b
