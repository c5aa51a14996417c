-- ===== src/Read/Uniform.antt =====
-- The implementations of Read.antt as one function of the Rust type that a `PrimitiveTy` stands
-- for: the arms of each `match` differ in that type and in the constructor only.
use wincode_dynamic.Prelude.{ℕ, ◌≡◌, refl}
use wincode_dynamic.Wincode.{Wincode, Primitive, El, size_of}
use wincode_dynamic.Wincode.Monad.{map_read}
use wincode_dynamic.PrimitiveTy.{size as type_size, PrimitiveTy, type_of}
use wincode_dynamic.PrimitiveTy.Element.{size-type_of, element}
use wincode_dynamic.Value.{PrimitiveValue, Value, primitive_size, size}
use wincode_dynamic.LenMap.{read_len_map, result_of}
use wincode_dynamic.Read.{read_value, read_array}

-- A value of a Rust type as a `PrimitiveValue`, and as a `Value`.
unfoldable pub primitive_value_of : (A : Primitive) → El A → PrimitiveValue
primitive_value_of Primitive.u8 = PrimitiveValue.u8
primitive_value_of Primitive.u16 = PrimitiveValue.u16
primitive_value_of Primitive.u32 = PrimitiveValue.u32
primitive_value_of Primitive.u64 = PrimitiveValue.u64
primitive_value_of Primitive.i8 = PrimitiveValue.i8
primitive_value_of Primitive.i16 = PrimitiveValue.i16
primitive_value_of Primitive.i32 = PrimitiveValue.i32
primitive_value_of Primitive.i64 = PrimitiveValue.i64
primitive_value_of Primitive.f32 = PrimitiveValue.f32
primitive_value_of Primitive.f64 = PrimitiveValue.f64
primitive_value_of Primitive.bool = PrimitiveValue.bool

unfoldable pub value_of : (A : Primitive) → El A → Value
value_of Primitive.u8 = Value.u8
value_of Primitive.u16 = Value.u16
value_of Primitive.u32 = Value.u32
value_of Primitive.u64 = Value.u64
value_of Primitive.i8 = Value.i8
value_of Primitive.i16 = Value.i16
value_of Primitive.i32 = Value.i32
value_of Primitive.i64 = Value.i64
value_of Primitive.f32 = Value.f32
value_of Primitive.f64 = Value.f64
value_of Primitive.bool = Value.bool

-- The size that a decoded value reports is the width of its type.
pub primitive_size-primitive_value_of :
    (A : Primitive) (a : El A) → primitive_size (primitive_value_of A a) ≡ size_of A
unfolding primitive_size primitive_value_of size_of
primitive_size-primitive_value_of Primitive.u8 a = refl
primitive_size-primitive_value_of _ a = refl

pub size-value_of : (A : Primitive) (a : El A) → size (value_of A a) ≡ size_of A
unfolding size value_of size_of
size-value_of Primitive.u8 a = refl
size-value_of _ a = refl

-- The widths that a primitive type, a `PrimitiveValue` and a `Value` of it report are all the width
-- of the Rust type.
pub sizes_agree :
    (A : Primitive) (a : El A)
    → (type_size (type_of A) ≡ size_of A)
      × (primitive_size (primitive_value_of A a) ≡ size_of A)
      × (size (value_of A a) ≡ size_of A)
sizes_agree A a = (size-type_of A, primitive_size-primitive_value_of A a, size-value_of A a)

module _ (w : Wincode) where
  pub read_value_lem :
      (ty : PrimitiveTy) (r : w.Reader)
      → read_value w ty r ≡ map_read (value_of (element ty)) (w.get (element ty) r)
  unfolding read_value value_of element
  read_value_lem PrimitiveTy.u8 r = refl
  read_value_lem _ r = refl

  -- The same at the type that a Rust type records.
  pub read_value-type_of :
      (A : Primitive) (r : w.Reader)
      → read_value w (type_of A) r ≡ map_read (value_of A) (w.get A r)
  unfolding read_value value_of type_of
  read_value-type_of Primitive.u8 r = refl
  read_value-type_of _ r = refl

  pub read_array-type_of :
      (n : ℕ) (A : Primitive) (r : w.Reader)
      → read_array w n (type_of A) r ≡ result_of (read_len_map w A n (primitive_value_of A) r)
  unfolding read_array primitive_value_of type_of
  read_array-type_of n Primitive.u8 r = refl
  read_array-type_of n _ r = refl
