-- ===== src/Value.antt =====
-- wincode-dynamic/src/value.rs: the decoded values and their payload sizes.
pub mod Eq
pub mod Contents
use wincode_dynamic.Prelude.{ℕ, ℤ, Bool, length}
use wincode_dynamic.Wincode.{Bytes, Cow, as_ref}
use wincode_dynamic.PrimitiveTy.{PrimitiveTy}

-- `enum PrimitiveValue`
pub data PrimitiveValue : Type 0 where
  u8 u16 u32 u64 : ℕ → PrimitiveValue
  i8 i16 i32 i64 : ℤ → PrimitiveValue
  f32 f64 : ℕ → PrimitiveValue
  bool : Bool → PrimitiveValue

-- `struct LazyVec`
pub record LazyVec : Type 0 where
  pub ty : PrimitiveTy
  pub payload : Cow Bytes
  pub len : ℕ

-- `enum Value`
pub data Value : Type 0 where
  u8 u16 u32 u64 : ℕ → Value
  i8 i16 i32 i64 : ℤ → Value
  f32 f64 : ℕ → Value
  bool : Bool → Value
  string : Cow Bytes → Value
  bytes : Cow Bytes → Value
  vec : LazyVec → Value

-- `PrimitiveValue::size`
unfoldable pub primitive_size : PrimitiveValue → ℕ
primitive_size (PrimitiveValue.u8 _) = 1
primitive_size (PrimitiveValue.u16 _) = 2
primitive_size (PrimitiveValue.u32 _) = 4
primitive_size (PrimitiveValue.u64 _) = 8
primitive_size (PrimitiveValue.i8 _) = 1
primitive_size (PrimitiveValue.i16 _) = 2
primitive_size (PrimitiveValue.i32 _) = 4
primitive_size (PrimitiveValue.i64 _) = 8
primitive_size (PrimitiveValue.f32 _) = 4
primitive_size (PrimitiveValue.f64 _) = 8
primitive_size (PrimitiveValue.bool _) = 1

-- `Value::size`
unfoldable pub size : Value → ℕ
size (Value.u8 _) = 1
size (Value.u16 _) = 2
size (Value.u32 _) = 4
size (Value.u64 _) = 8
size (Value.i8 _) = 1
size (Value.i16 _) = 2
size (Value.i32 _) = 4
size (Value.i64 _) = 8
size (Value.f32 _) = 4
size (Value.f64 _) = 8
size (Value.bool _) = 1
size (Value.string text) = length (as_ref text)
size (Value.bytes payload) = length (as_ref payload)
size (Value.vec v) = length (as_ref v.payload)
