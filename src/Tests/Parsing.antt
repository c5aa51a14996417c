-- ===== src/Tests/Parsing.antt =====
-- Single values: payloads, sizes and limits.
use wincode_dynamic.Prelude.{
  take, drop, usize_mod, ◌≤◌, ℕ, ◌*◌, ◌^◌, ◌≡◌, ◌<◌, refl, true, false, List, [], ◌∷◌, ◌++◌, length,
  some, checked_mul, arith,
}
use wincode_dynamic.Wincode.{Bytes, Primitive, ReadError, ok, err, Cow, size_of}
use wincode_dynamic.Wincode.Laws.{Takes}
use wincode_dynamic.Wincode.Facts.{put_all}
use wincode_dynamic.Parse.Exact.{read_primitive_payload-ok}
use wincode_dynamic.Wincode.Slice.{
  check_limit, ByteReader, slices, le_bytes, take_bytes, take_payload,
}
use wincode_dynamic.Wincode.Slice.Lawful.{slices_laws, slice}
use wincode_dynamic.PrimitiveTy
use wincode_dynamic.PrimitiveTy.{PrimitiveTy, type_of}
use wincode_dynamic.Ty.{size as ty_size, type_of as ty_of, Ty, FieldType}
use wincode_dynamic.Value.{size as value_size, Value, PrimitiveValue}
use wincode_dynamic.Lazy.{new_unchecked}
use wincode_dynamic.Read.{read_vec}
use wincode_dynamic.Read.Uniform.{primitive_value_of}
use wincode_dynamic.Read.RoundTrip.{read_vec-put_all}
use wincode_dynamic.Parse.{parse, read_byte_payload, read_primitive_payload}
use wincode_dynamic.Parse.RoundTrip.{serialize, decoded, parse-serialize}
use wincode_dynamic.Parse.Size.{size-serialize, size_wraps}
use wincode_dynamic.Tests.Data.{trailer, pair_vec}

-- A cursor over a vector, which lends nothing.
abbrev cursor : Bytes → ByteReader
cursor xs = record { bytes = xs; backing = false }

abbrev pair : FieldType
pair = FieldType.array Primitive.u16 2

abbrev pair_values : List ℕ
pair_values = 1 ∷ 2 ∷ []

abbrev input : ByteReader
input = cursor (serialize slices pair pair_values ++ trailer)

parse-serialize_example :
    Takes
      (λ r. r.bytes)
      (λ r. r.backing)
      input
      (parse slices (ty_of pair) input)
      (decoded slices false pair pair_values)
      trailer
unfolding size_of
parse-serialize_example =
    parse-serialize slices slices_laws pair pair_values input trailer
      ((omega arith, (omega arith, tt)), omega arith, refl) refl

parse_pair :
    (parse slices (Ty.array PrimitiveTy.u16 2) (slice (1 ∷ 0 ∷ 2 ∷ 0 ∷ []))).0
    ≡ ok (Value.vec pair_vec)
unfolding parse new_unchecked take_payload take_bytes checked_mul PrimitiveTy.size
parse_pair = refl

size-serialize_example :
    (length (serialize slices pair pair_values) ≡ 4)
    × (value_size (decoded slices true pair pair_values) ≡ 4)
unfolding size_of ty_size ty_of
size-serialize_example =
    size-serialize slices slices_laws pair pair_values true 4
      ((omega arith, (omega arith, tt)), omega arith, refl) refl

u16-ne-u8 : PrimitiveTy.u16 ≡ PrimitiveTy.u8 → ⊥
u16-ne-u8 e = cc

size_wraps_example :
    (n : ℕ) × (ty_size (Ty.array PrimitiveTy.u16 (2 ^ 63)) ≡ some n)
    × (n < 2 ^ 63 * PrimitiveTy.size PrimitiveTy.u16)
    × (parse slices (Ty.array PrimitiveTy.u16 (2 ^ 63)) (slice trailer)
        ≡ (err (ReadError.length_encoding_overflow "usize::MAX"), slice trailer))
unfolding PrimitiveTy.size
size_wraps_example =
    size_wraps slices slices_laws PrimitiveTy.u16 (2 ^ 63) (slice trailer) u16-ne-u8 (omega arith)

abbrev pair_input : Bytes
pair_input = 1 ∷ 0 ∷ 2 ∷ 0 ∷ trailer

read_pair :
    (read_primitive_payload slices PrimitiveTy.u16 2 (slice pair_input)).0 ≡ ok (Value.vec pair_vec)
unfolding read_primitive_payload new_unchecked take_payload take_bytes checked_mul PrimitiveTy.size
read_pair = refl

read_primitive_payload-ok_example :
    (pair_vec
      ≡ record { ty = PrimitiveTy.u16; payload = Cow.borrowed (take 4 pair_input); len = 2 })
    × ((read_primitive_payload slices PrimitiveTy.u16 2 (slice pair_input)).1.bytes
        ≡ drop 4 pair_input)
    × (4 ≤ 5)
    × (4 < usize_mod)
unfolding PrimitiveTy.size
read_primitive_payload-ok_example =
    read_primitive_payload-ok slices slices_laws PrimitiveTy.u16 2 (slice pair_input) pair_vec
      read_pair

read_two : (read_byte_payload slices 2 (cursor (1 ∷ 2 ∷ trailer))).0 ≡ ok (Cow.owned (1 ∷ 2 ∷ []))
unfolding read_byte_payload take_payload take_bytes check_limit
read_two = refl

read_vec-put_all_example :
    ((read_vec slices PrimitiveTy.u16
        (slice (le_bytes 8 2 ++ (put_all slices Primitive.u16 pair_values ++ trailer)))).0
      ≡ ok (PrimitiveValue.u16 1 ∷ PrimitiveValue.u16 2 ∷ []))
    × ((read_vec slices PrimitiveTy.u16
          (slice (le_bytes 8 2 ++ (put_all slices Primitive.u16 pair_values ++ trailer)))).1.bytes
        ≡ trailer)
unfolding type_of primitive_value_of
read_vec-put_all_example =
    read_vec-put_all slices slices_laws Primitive.u16 pair_values
      (slice (le_bytes 8 2 ++ (put_all slices Primitive.u16 pair_values ++ trailer))) trailer
      (omega arith, (omega arith, tt)) (omega arith) refl
