-- ===== src/Tests/Unit/Generics.antt =====
-- `generic_enum_schema_and_roundtrip` of wincode-dynamic/src/lib.rs.
use wincode_dynamic.Prelude.{
  ◌≡◌, ◌==◌, refl, Bool, true, not, ◌&&◌, [], ◌∷◌, none, some, length, arith, checked_add,
}
use wincode_dynamic.Wincode.{Primitive, TypeMeta}
use wincode_dynamic.PrimitiveTy.{PrimitiveTy}
use wincode_dynamic.Ty.{Ty}
use wincode_dynamic.Value.{Value}
use wincode_dynamic.Derive.{Args, SerializedSize, max_serialized_size}
use wincode_dynamic.Derive.Reflect.{FieldValues, DeclaredValue}
use wincode_dynamic.Tests.Fixtures
use wincode_dynamic.Tests.Fixtures.{u64_field, string_field}
use wincode_dynamic.Tests.Unit.{serialize, assert_fields, on_fields, decode}
use wincode_dynamic.Tests.Unit.Sizes.{size, size_eq, len_of}

-- `Generic::<u64>` and `Generic::<String>`
abbrev generic_u64 : Args
generic_u64 = Fixtures.generic u64_field TypeMeta.dynamic

abbrev item : DeclaredValue none generic_u64.body
item =
    DeclaredValue.variant 1 _ 1 refl refl (omega arith) (FieldValues.value refl 77 FieldValues.nil)

abbrev empty : DeclaredValue none generic_u64.body
empty = DeclaredValue.variant 0 _ 0 refl refl (omega arith) FieldValues.nil

abbrev skipped : DeclaredValue none (Fixtures.generic_skip u64_field).body
skipped = DeclaredValue.struct (FieldValues.skipped refl (FieldValues.value refl 1 FieldValues.nil))

abbrev value : DeclaredValue none (Fixtures.generic_skip_enum u64_field).body
value =
    DeclaredValue.variant 1 _ 1 refl refl (omega arith) (FieldValues.value refl 1 FieldValues.nil)

abbrev adapted : DeclaredValue none (Fixtures.generic_with Primitive.u64).body
adapted = DeclaredValue.struct (FieldValues.value refl (1 ∷ 2 ∷ []) FieldValues.nil)

abbrev adapted_values : DeclaredValue none (Fixtures.generic_with_enum Primitive.u64).body
adapted_values =
    DeclaredValue.variant 0 _ 0 refl refl (omega arith)
      (FieldValues.value refl (1 ∷ 2 ∷ []) FieldValues.nil)

abbrev sizes : Bool
sizes =
    size_eq (size generic_u64) (SerializedSize.static 12)
    && (size_eq (size (Fixtures.generic string_field TypeMeta.dynamic)) (SerializedSize.dynamic 4)
        && (size_eq (size (Fixtures.generic_skip u64_field)) (SerializedSize.static 8)
            && (size_eq (size (Fixtures.generic_skip_enum u64_field)) (SerializedSize.static 12)
                && (size_eq (size (Fixtures.generic_with Primitive.u64)) (SerializedSize.dynamic 0)
                    && size_eq (size (Fixtures.generic_with_enum Primitive.u64))
                        (SerializedSize.dynamic 4)))))

-- The adapter writes a length and the elements, as `Vec` does.
abbrev lengths : Bool
lengths =
    (len_of (Fixtures.generic_skip u64_field) skipped == 8)
    && ((len_of (Fixtures.generic_skip_enum u64_field) value == 12)
        && (not (len_of (Fixtures.generic_with Primitive.u64) adapted == 0)
            && not (len_of (Fixtures.generic_with_enum Primitive.u64) adapted_values == 0)))

abbrev generic_enum_schema_and_roundtrip : Bool
generic_enum_schema_and_roundtrip =
    sizes
    && (lengths
        && (on_fields
              (λ fs.
                assert_fields fs
                  (("0", Ty.primitive_ty PrimitiveTy.u64, some 8, Value.u64 77) ∷ []))
              (decode generic_u64 (serialize generic_u64 item))
            && on_fields (λ fs. length fs == 0) (decode generic_u64 (serialize generic_u64 empty))))

generic_test_passes : generic_enum_schema_and_roundtrip ≡ true
unfolding max_serialized_size serialize decode assert_fields checked_add
generic_test_passes = refl
