-- ===== src/Read.antt =====
-- wincode-dynamic/src/value.rs: the `SchemaReadContext` implementations, which read a value of a
-- type that is known at run time.
pub mod Uniform
pub mod RoundTrip
use wincode_dynamic.Prelude.{ℕ, ℤ, pos, negsuc, List, ltb, if◌then◌else◌, usize_mod}
use wincode_dynamic.Wincode.{Wincode, Primitive, Read, ReadResult, ReadError, ok, err}
use wincode_dynamic.Wincode.Monad.{map_read, check_read}
use wincode_dynamic.PrimitiveTy.{PrimitiveTy}
use wincode_dynamic.Value.{PrimitiveValue, Value}
use wincode_dynamic.LenMap.{read_len_map, read_map, result_of}

-- `size_of::<PrimitiveValue>()`: a tag and an 8-byte payload, aligned to 8.
abbrev pub size_of_primitive_value : ℕ
size_of_primitive_value = 16

abbrev pub cast_error : ReadError
cast_error = ReadError.custom "cannot cast to usize"

-- `try_cast_to_usize`, for the unsigned and for the signed types.
unfoldable pub try_cast_unsigned : ℕ → ReadResult ℕ
try_cast_unsigned n = if ltb n usize_mod then ok n else err cast_error

unfoldable pub try_cast_signed : ℤ → ReadResult ℕ
unfolding try_cast_unsigned
try_cast_signed (pos n) = try_cast_unsigned n
try_cast_signed (negsuc n) = err cast_error

module _ (w : Wincode) where
  open w use {Reader, get}

  -- `PrimitiveValue::read_with_context`
  unfoldable pub read_primitive_value : PrimitiveTy → Read Reader PrimitiveValue
  read_primitive_value PrimitiveTy.u8 r = map_read PrimitiveValue.u8 (get Primitive.u8 r)
  read_primitive_value PrimitiveTy.u16 r = map_read PrimitiveValue.u16 (get Primitive.u16 r)
  read_primitive_value PrimitiveTy.u32 r = map_read PrimitiveValue.u32 (get Primitive.u32 r)
  read_primitive_value PrimitiveTy.u64 r = map_read PrimitiveValue.u64 (get Primitive.u64 r)
  read_primitive_value PrimitiveTy.i8 r = map_read PrimitiveValue.i8 (get Primitive.i8 r)
  read_primitive_value PrimitiveTy.i16 r = map_read PrimitiveValue.i16 (get Primitive.i16 r)
  read_primitive_value PrimitiveTy.i32 r = map_read PrimitiveValue.i32 (get Primitive.i32 r)
  read_primitive_value PrimitiveTy.i64 r = map_read PrimitiveValue.i64 (get Primitive.i64 r)
  read_primitive_value PrimitiveTy.f32 r = map_read PrimitiveValue.f32 (get Primitive.f32 r)
  read_primitive_value PrimitiveTy.f64 r = map_read PrimitiveValue.f64 (get Primitive.f64 r)
  read_primitive_value PrimitiveTy.bool r = map_read PrimitiveValue.bool (get Primitive.bool r)

  -- `usize::read_with_context`
  unfoldable pub read_usize : PrimitiveTy → Read Reader ℕ
  unfolding try_cast_unsigned try_cast_signed
  read_usize PrimitiveTy.u8 r = get Primitive.u8 r
  read_usize PrimitiveTy.u16 r = get Primitive.u16 r
  read_usize PrimitiveTy.u32 r = check_read try_cast_unsigned (get Primitive.u32 r)
  read_usize PrimitiveTy.u64 r = check_read try_cast_unsigned (get Primitive.u64 r)
  read_usize PrimitiveTy.i8 r = check_read try_cast_signed (get Primitive.i8 r)
  read_usize PrimitiveTy.i16 r = check_read try_cast_signed (get Primitive.i16 r)
  read_usize PrimitiveTy.i32 r = check_read try_cast_signed (get Primitive.i32 r)
  read_usize PrimitiveTy.i64 r = check_read try_cast_signed (get Primitive.i64 r)
  read_usize _ r = (err cast_error, r)

  -- `Value::read_with_context`
  unfoldable pub read_value : PrimitiveTy → Read Reader Value
  read_value PrimitiveTy.u8 r = map_read Value.u8 (get Primitive.u8 r)
  read_value PrimitiveTy.u16 r = map_read Value.u16 (get Primitive.u16 r)
  read_value PrimitiveTy.u32 r = map_read Value.u32 (get Primitive.u32 r)
  read_value PrimitiveTy.u64 r = map_read Value.u64 (get Primitive.u64 r)
  read_value PrimitiveTy.i8 r = map_read Value.i8 (get Primitive.i8 r)
  read_value PrimitiveTy.i16 r = map_read Value.i16 (get Primitive.i16 r)
  read_value PrimitiveTy.i32 r = map_read Value.i32 (get Primitive.i32 r)
  read_value PrimitiveTy.i64 r = map_read Value.i64 (get Primitive.i64 r)
  read_value PrimitiveTy.f32 r = map_read Value.f32 (get Primitive.f32 r)
  read_value PrimitiveTy.f64 r = map_read Value.f64 (get Primitive.f64 r)
  read_value PrimitiveTy.bool r = map_read Value.bool (get Primitive.bool r)

  -- `<Vec<PrimitiveValue> as SchemaReadContext<_, PrimitiveTy>>::read_with_context`
  unfoldable pub read_vec : PrimitiveTy → Read Reader (List PrimitiveValue)
  unfolding read_map
  read_vec PrimitiveTy.u8 = read_map w Primitive.u8 size_of_primitive_value PrimitiveValue.u8
  read_vec PrimitiveTy.u16 = read_map w Primitive.u16 size_of_primitive_value PrimitiveValue.u16
  read_vec PrimitiveTy.u32 = read_map w Primitive.u32 size_of_primitive_value PrimitiveValue.u32
  read_vec PrimitiveTy.u64 = read_map w Primitive.u64 size_of_primitive_value PrimitiveValue.u64
  read_vec PrimitiveTy.i8 = read_map w Primitive.i8 size_of_primitive_value PrimitiveValue.i8
  read_vec PrimitiveTy.i16 = read_map w Primitive.i16 size_of_primitive_value PrimitiveValue.i16
  read_vec PrimitiveTy.i32 = read_map w Primitive.i32 size_of_primitive_value PrimitiveValue.i32
  read_vec PrimitiveTy.i64 = read_map w Primitive.i64 size_of_primitive_value PrimitiveValue.i64
  read_vec PrimitiveTy.f32 = read_map w Primitive.f32 size_of_primitive_value PrimitiveValue.f32
  read_vec PrimitiveTy.f64 = read_map w Primitive.f64 size_of_primitive_value PrimitiveValue.f64
  read_vec PrimitiveTy.bool = read_map w Primitive.bool size_of_primitive_value PrimitiveValue.bool

  -- `<Array<PrimitiveValue> as SchemaReadContext<_, (Len, PrimitiveTy)>>::get_with_context`
  unfoldable pub read_array : ℕ → PrimitiveTy → Read Reader (List PrimitiveValue)
  unfolding read_len_map
  read_array n PrimitiveTy.u8 r = result_of (read_len_map w Primitive.u8 n PrimitiveValue.u8 r)
  read_array n PrimitiveTy.u16 r = result_of (read_len_map w Primitive.u16 n PrimitiveValue.u16 r)
  read_array n PrimitiveTy.u32 r = result_of (read_len_map w Primitive.u32 n PrimitiveValue.u32 r)
  read_array n PrimitiveTy.u64 r = result_of (read_len_map w Primitive.u64 n PrimitiveValue.u64 r)
  read_array n PrimitiveTy.i8 r = result_of (read_len_map w Primitive.i8 n PrimitiveValue.i8 r)
  read_array n PrimitiveTy.i16 r = result_of (read_len_map w Primitive.i16 n PrimitiveValue.i16 r)
  read_array n PrimitiveTy.i32 r = result_of (read_len_map w Primitive.i32 n PrimitiveValue.i32 r)
  read_array n PrimitiveTy.i64 r = result_of (read_len_map w Primitive.i64 n PrimitiveValue.i64 r)
  read_array n PrimitiveTy.f32 r = result_of (read_len_map w Primitive.f32 n PrimitiveValue.f32 r)
  read_array n PrimitiveTy.f64 r = result_of (read_len_map w Primitive.f64 n PrimitiveValue.f64 r)
  read_array n PrimitiveTy.bool r =
      result_of (read_len_map w Primitive.bool n PrimitiveValue.bool r)
