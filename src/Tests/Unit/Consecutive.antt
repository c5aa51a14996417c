-- ===== src/Tests/Unit/Consecutive.antt =====
-- The tests of wincode-dynamic/src/lib.rs in which values follow each other in one reader, and in
-- which an iterator is left before its end.
use wincode_dynamic.Prelude.{
  ◌≡◌, ◌==◌, refl, Bool, true, false, ◌&&◌, String, List, [], ◌∷◌, ◌++◌, map, Option, none, some,
}
use text.Mathlib.Text.{◌==◌ as same_text}
use wincode_dynamic.Wincode.{Bytes, Primitive, ReadResult, ok, err, size_of}
use wincode_dynamic.Wincode.Slice.{
  ByteReader, slices, take_bytes, interpret, le_value, le_bytes, write, of_bool, to_bool,
}
use wincode_dynamic.Wincode.Slice.Lawful.{slice}
use wincode_dynamic.PrimitiveTy
use wincode_dynamic.PrimitiveTy.{PrimitiveTy}
use wincode_dynamic.Ty.{type_of as ty_type_of}
use wincode_dynamic.Value.{Value}
use wincode_dynamic.Value.Eq.{eq, list_eq}
use wincode_dynamic.Read.{read_value, read_usize}
use wincode_dynamic.Parse.{parse, parse_primitive, parse_into_usize}
use wincode_dynamic.Fields.{Field, Fields, next, field_name, field_value}
use wincode_dynamic.Fields.Drain.{Collected, finished, out_of_fuel, collect}
use wincode_dynamic.Decoder.{
  Decoder, EnumDecoder, VariantDecoder, root_decoder, fields, struct_fields, decode_variant,
  variant_name, variant_fields,
}
use wincode_dynamic.Derive.{root_schema}
use wincode_dynamic.Derive.Reflect.{FieldValues, DeclaredValue}
use wincode_dynamic.Tests.Fixtures
use wincode_dynamic.Tests.Unit.{bitwise, serialize, on_fields}
use wincode_dynamic.Tests.Unit.Enums.{ping, value}

abbrev bytes_eq : Bytes → Bytes → Bool
bytes_eq = list_eq (λ m n. m == n)

-- A message with the name of its variant and its values.
abbrev Record : Type 0
Record = DeclaredValue (some Primitive.u8) Fixtures.u8_enum_message.body × String × List Value

abbrev records : List Record
records =
    (value 42, "Value", Value.u64 42 ∷ [])
    ∷ (ping, "Ping", [])
    ∷ (value 7, "Value", Value.u64 7 ∷ [])
    ∷ []

abbrev concat : List Record → Bytes
concat [] = []
concat ((message, name, values) ∷ rest) = serialize Fixtures.u8_enum_message message ++ concat rest

-- What is collected has the values, and the reader is left at some bytes.
abbrev collected_at :
    List Value → (ByteReader → Bool) → Collected (List Field) × Fields ByteReader → Bool
collected_at values rest (finished (ok fs), it) =
    list_eq (eq bitwise) (map field_value fs) values && rest it.reader
collected_at values rest (finished (err e), it) = false
collected_at values rest (out_of_fuel, it) = false

abbrev on_variant :
    (VariantDecoder ByteReader → Bool) → ReadResult (VariantDecoder ByteReader) → Bool
on_variant test (ok variant) = test variant
on_variant test (err e) = false

-- The loop of `enum_variants_decode_consecutively_from_a_mutable_reader`.
abbrev decodes_consecutively : EnumDecoder → List Record → ByteReader → Bool
decodes_consecutively decoder [] reader = bytes_eq reader.bytes []
decodes_consecutively decoder ((message, name, values) ∷ rest) reader =
    on_variant
      (λ variant.
        same_text (variant_name variant) name
        && collected_at values
            (λ reader'.
              bytes_eq reader'.bytes (concat rest) && decodes_consecutively decoder rest reader')
            (collect slices 2 (variant_fields variant)))
      (decode_variant slices decoder reader)

abbrev on_enum : (EnumDecoder → Bool) → Decoder → Bool
on_enum test (Decoder.struct schema) = false
on_enum test (Decoder.enum decoder) = test decoder

abbrev enum_variants_decode_consecutively_from_a_mutable_reader : Bool
enum_variants_decode_consecutively_from_a_mutable_reader =
    on_enum (λ decoder. decodes_consecutively decoder records (slice (concat records)))
      (root_decoder (root_schema Fixtures.u8_enum_message))

abbrev fixed_size : DeclaredValue none Fixtures.fixed_size_message.body
fixed_size =
    DeclaredValue.struct (FieldValues.value refl 42 (FieldValues.value refl true FieldValues.nil))

abbrev fixed_size_payload : Bytes
fixed_size_payload = serialize Fixtures.fixed_size_message fixed_size

abbrev on_given : (Fields ByteReader → Bool) → ReadResult (Fields ByteReader) → Bool
on_given test (ok it) = test it
on_given test (err e) = false

abbrev on_item : (Field → ByteReader → Bool) → Option (ReadResult Field) × Fields ByteReader → Bool
on_item test (some (ok f), it) = test f it.reader
on_item test (some (err e), it) = false
on_item test (none, it) = false

abbrev parses_to : Value → ReadResult Value × ByteReader → Bool
parses_to expected (ok v, reader) = eq bitwise v expected && bytes_eq reader.bytes []
parses_to expected (err e, reader) = false

-- `dropping_field_iterator_leaves_remaining_fields_unread`
abbrev dropping_field_iterator_leaves_remaining_fields_unread : Bool
dropping_field_iterator_leaves_remaining_fields_unread =
    on_given
      (λ it.
        on_item
          (λ field reader.
            same_text (field_name field) "value"
            && (eq bitwise (field_value field) (Value.u64 42)
                && (bytes_eq reader.bytes (slices.put Primitive.bool true)
                    && parses_to (Value.bool true)
                        (parse_primitive slices PrimitiveTy.bool reader))))
          (next slices it))
      (fields slices (root_decoder (root_schema Fixtures.fixed_size_message))
        (slice fixed_size_payload))

-- The assertions on the fields in `decoded_fields_and_variant_names_outlive_decoder_wrappers`.
abbrev value_and_enabled : List Field → Bool
value_and_enabled (f₁ ∷ f₂ ∷ []) =
    same_text (field_name f₁) "value"
    && (eq bitwise (field_value f₁) (Value.u64 42) && eq bitwise (field_value f₂) (Value.bool true))
value_and_enabled _ = false

abbrev item_7 : List Field → Bool
item_7 (f ∷ []) = same_text (field_name f) "0" && eq bitwise (field_value f) (Value.u64 7)
item_7 _ = false

abbrev on_struct : Bytes → Decoder → Bool
on_struct xs (Decoder.struct schema) =
    on_fields value_and_enabled (collect slices 3 (struct_fields schema (slice xs))).0
on_struct xs (Decoder.enum decoder) = false

abbrev decoded_fields_and_variant_names_outlive_decoder_wrappers : Bool
decoded_fields_and_variant_names_outlive_decoder_wrappers =
    on_given (λ it. on_fields value_and_enabled (collect slices 3 it).0)
      (fields slices (root_decoder (root_schema Fixtures.fixed_size_message))
        (slice fixed_size_payload))
    && (on_struct fixed_size_payload (root_decoder (root_schema Fixtures.fixed_size_message))
        && on_enum
            (λ decoder.
              on_variant
                (λ variant.
                  same_text (variant_name variant) "Value"
                  && on_fields item_7 (collect slices 2 (variant_fields variant)).0)
                (decode_variant slices decoder
                  (slice (serialize Fixtures.u8_enum_message (value 7)))))
            (root_decoder (root_schema Fixtures.u8_enum_message)))

consecutive_tests_pass :
    (enum_variants_decode_consecutively_from_a_mutable_reader ≡ true)
    × (dropping_field_iterator_leaves_remaining_fields_unread ≡ true)
    × (decoded_fields_and_variant_names_outlive_decoder_wrappers ≡ true)
unfolding root_decoder root_schema fields decode_variant variant_fields variant_name next collect
    parse read_value parse_primitive parse_into_usize read_usize field_name field_value eq list_eq
    serialize take_bytes interpret le_value le_bytes write of_bool to_bool PrimitiveTy.type_of
    size_of ty_type_of
consecutive_tests_pass = (refl, refl, refl)
