-- ===== src/Tests/Unit/Enums.antt =====
-- The tests of enums in wincode-dynamic/src/lib.rs.
use wincode_dynamic.Prelude.{
  ℕ, ◌≡◌, ◌-◌, ◌==◌, refl, Bool, true, false, not, ◌&&◌, String, List, [], ◌∷◌, Option, none, some,
  take, length, arith,
}
use wincode_dynamic.Wincode.{Bytes, Primitive, Cow, ReadError, ReadResult, ok, err, size_of}
use wincode_dynamic.Wincode.Slice.{
  ByteReader, slices, take_bytes, interpret, le_value, le_bytes, write,
}
use wincode_dynamic.PrimitiveTy
use wincode_dynamic.PrimitiveTy.{PrimitiveTy}
use wincode_dynamic.Ty.{Ty}
use wincode_dynamic.Value.{Value}
use wincode_dynamic.Read.{read_usize}
use wincode_dynamic.Parse.{parse_into_usize}
use wincode_dynamic.Schema.{RootSchema}
use wincode_dynamic.Fields.{Field, Fields}
use wincode_dynamic.Fields.Drain.{Collected, finished}
use wincode_dynamic.Decoder.{decoder, fields, decode_variant}
use wincode_dynamic.Derive.{root_schema}
use wincode_dynamic.Derive.Reflect.{FieldValues, DeclaredValue}
use wincode_dynamic.Messages.{EnumMessage, enum_value, is_err}
use wincode_dynamic.Tests.Fixtures
use wincode_dynamic.Tests.Unit.{serialize, assert_fields, on_fields, decode}

abbrev u64_ty : Ty
u64_ty = Ty.primitive_ty PrimitiveTy.u64

abbrev bool_ty : Ty
bool_ty = Ty.primitive_ty PrimitiveTy.bool

-- `assert_enum_message`
abbrev assert_enum_message : EnumMessage → List (String × Ty × Option ℕ × Value) → Bool
assert_enum_message message expected =
    on_fields (λ actual. assert_fields actual expected)
      (decode Fixtures.enum_message (serialize Fixtures.enum_message (enum_value message)))

abbrev hello : Bytes
hello = 104 ∷ 101 ∷ 108 ∷ 108 ∷ 111 ∷ []

-- `enum_roundtrips_every_variant_shape`
abbrev enum_roundtrips_every_variant_shape : Bool
enum_roundtrips_every_variant_shape =
    assert_enum_message EnumMessage.ping []
    && (assert_enum_message (EnumMessage.coordinates 42 true)
          (("0", u64_ty, some 8, Value.u64 42) ∷ ("1", bool_ty, some 1, Value.bool true) ∷ [])
        && assert_enum_message (EnumMessage.payload hello (1 ∷ 2 ∷ 3 ∷ 4 ∷ [])) (
            ("text", Ty.string, none, Value.string (Cow.owned hello))
            ∷ ("bytes", Ty.vec PrimitiveTy.u8, none, Value.bytes (Cow.owned (1 ∷ 2 ∷ 3 ∷ 4 ∷ [])))
            ∷ []))

abbrev is_invalid_tag : {A : Type 0} → ℕ → ReadResult A → Bool
is_invalid_tag n (err (ReadError.invalid_tag_encoding m)) = m == n
is_invalid_tag n _ = false

-- `enum_rejects_invalid_discriminant`
abbrev enum_rejects_invalid_discriminant : Bool
enum_rejects_invalid_discriminant = is_invalid_tag 4294967295 (
    fields slices (decoder (root_schema Fixtures.enum_message))
      (slices.from_slice (slices.put Primitive.u32 4294967295)))

abbrev is_invalid_bool : Collected (List Field) → Bool
is_invalid_bool (finished (err (ReadError.invalid_bool_encoding n))) = n == 2
is_invalid_bool _ = false

-- `payload.pop()`, and `*payload.last_mut().unwrap() = 2`
abbrev pop : Bytes → Bytes
pop xs = take (length xs - 1) xs

abbrev pub set_last : ℕ → Bytes → Bytes
set_last n [] = []
set_last n (x ∷ []) = n ∷ []
set_last n (x ∷ y ∷ ys) = x ∷ set_last n (y ∷ ys)

abbrev coordinates : Bytes
coordinates = serialize Fixtures.enum_message (enum_value (EnumMessage.coordinates 42 true))

abbrev enum_fields : Bytes → ReadResult (Fields ByteReader)
enum_fields xs = fields slices (decoder (root_schema Fixtures.enum_message)) (slices.from_slice xs)

abbrev is_ok : {A : Type 0} → ReadResult A → Bool
is_ok (ok a) = true
is_ok (err e) = false

-- `enum_reports_truncated_and_malformed_fields`, with the two calls of `unwrap` behind `fields`.
abbrev enum_reports_truncated_and_malformed_fields : Bool
enum_reports_truncated_and_malformed_fields =
    not (is_ok (enum_fields (0 ∷ 0 ∷ 0 ∷ [])))
    && (is_ok (enum_fields (pop coordinates))
        && (is_err (decode Fixtures.enum_message (pop coordinates))
            && (is_ok (enum_fields (set_last 2 coordinates))
                && is_invalid_bool (decode Fixtures.enum_message (set_last 2 coordinates)))))

abbrev has_tag_encoding : PrimitiveTy → RootSchema → Bool
has_tag_encoding ty (RootSchema.struct schema) = false
has_tag_encoding ty (RootSchema.enum variants size name tag_encoding) =
    PrimitiveTy.eq tag_encoding ty

abbrev pub ping : DeclaredValue (some Primitive.u8) Fixtures.u8_enum_message.body
ping = DeclaredValue.variant 0 _ 0 refl refl (omega arith) FieldValues.nil

abbrev pub value : ℕ → DeclaredValue (some Primitive.u8) Fixtures.u8_enum_message.body
value n =
    DeclaredValue.variant 1 _ 1 refl refl (omega arith) (FieldValues.value refl n FieldValues.nil)

-- `enum_with_u8_tag_encoding_roundtrips`
abbrev enum_with_u8_tag_encoding_roundtrips : Bool
enum_with_u8_tag_encoding_roundtrips =
    has_tag_encoding PrimitiveTy.u8 (root_schema Fixtures.u8_enum_message)
    && (on_fields (λ fs. length fs == 0)
          (decode Fixtures.u8_enum_message (serialize Fixtures.u8_enum_message ping))
        && on_fields (λ fs. assert_fields fs (("0", u64_ty, some 8, Value.u64 42) ∷ []))
            (decode Fixtures.u8_enum_message (serialize Fixtures.u8_enum_message (value 42))))

enum_tests_pass :
    (enum_roundtrips_every_variant_shape ≡ true)
    × (enum_rejects_invalid_discriminant ≡ true)
    × (enum_reports_truncated_and_malformed_fields ≡ true)
    × (enum_with_u8_tag_encoding_roundtrips ≡ true)
unfolding serialize decode assert_fields root_schema fields decoder decode_variant parse_into_usize
    read_usize take_bytes interpret le_value le_bytes write size_of PrimitiveTy.eq
    PrimitiveTy.type_of
enum_tests_pass = (refl, refl, refl, refl)
