-- ===== src/Tests/Deriving.antt =====
-- Declarations under the derive macro.
use wincode_dynamic.Prelude.{
  ℕ, ◌≡◌, ◌≤◌, ◌++◌, refl, Bool, true, false, List, [], ◌∷◌, none, some, checked_add, arith, String,
  length,
}
use wincode_dynamic.Wincode.{Primitive, TypeMeta, size_of}
use wincode_dynamic.Wincode.Slice.{slices, write}
use wincode_dynamic.Wincode.Slice.Lawful.{slices_laws, slice}
use wincode_dynamic.Ty.{FieldType}
use wincode_dynamic.Schema.{schema}
use wincode_dynamic.Parse.RoundTrip.{serialize}
use wincode_dynamic.Decoder.{decoder}
use wincode_dynamic.Decoder.RoundTrip.{encode, Describes, Decodes}
use wincode_dynamic.Derive.{
  Field, Variant, Body, Args, SerializedSize, Derived, field_write_type_meta, max_serialized_size,
  generate, root_schema, serialized_size, sum_loop, variant_schema, fold_sizes, add_field_size,
  to_string, field_to_tokens, schema_of_body, validate_variant_tags, variant_sizes, max_loop,
  enum_serialized_size, size_of_body,
}
use wincode_dynamic.Derive.Size.{sum}
use wincode_dynamic.Derive.Reflect.{
  FieldValues, DeclaredValue, rows, to_value, schema-Describes, derive_decode,
}
use wincode_dynamic.Derive.Names.{read_decimal}
use wincode_dynamic.Derive.Encoded.{derive-within_size}
use wincode_dynamic.Derive.Overflow.{variant_schema-size, read_metas}
use wincode_dynamic.Tests.Data.{trailer}

abbrev field : String → Primitive → ℕ → Bool → Field
field name A width skip = record {
  ident = some name;
  ty = FieldType.primitive A;
  read_meta = TypeMeta.static width;
  write_meta = TypeMeta.static width;
  skip = skip;
}

abbrev id_field : Field
id_field = field "id" Primitive.u32 4 false

abbrev cache_field : Field
cache_field = field "cache" Primitive.u64 8 true

abbrev flag_field : Field
flag_field = record (field "" Primitive.bool 1 false) { ident = none }

abbrev sample_fields : List Field
sample_fields = id_field ∷ cache_field ∷ flag_field ∷ []

abbrev stopped : Variant
stopped = record { ident = "Stopped"; fields = []; tag = none }

abbrev started : Variant
started = record { ident = "Started"; fields = sample_fields; tag = none }

abbrev tagged : Variant
tagged = record { ident = "Tagged"; fields = []; tag = some "FIRST_TAG" }

-- An enum with a tag of one byte.
abbrev event_args : Args
event_args = record {
  ident = "Event";
  body = Body.enum (stopped ∷ started ∷ []);
  tag_encoding = some Primitive.u8;
  read_meta = TypeMeta.dynamic;
  write_meta = TypeMeta.dynamic;
}

abbrev sample_args : Args
sample_args = record {
  ident = "Sample";
  body = Body.struct sample_fields;
  tag_encoding = none;
  read_meta = TypeMeta.dynamic;
  write_meta = TypeMeta.dynamic;
}

abbrev tagged_args : Args
tagged_args = record event_args { body = Body.enum (stopped ∷ tagged ∷ []) }

abbrev byte_meta : TypeMeta
byte_meta = TypeMeta.static 1

abbrev started_fields : FieldValues sample_fields
started_fields =
    FieldValues.value refl 7
      (FieldValues.skipped refl (FieldValues.value refl true FieldValues.nil))

abbrev started_value : DeclaredValue (some Primitive.u8) (Body.enum (stopped ∷ started ∷ []))
started_value = DeclaredValue.variant 1 started 1 refl refl (omega arith) started_fields

to_string_run : to_string 2048 ≡ "2048"
unfolding to_string
to_string_run = refl

unnamed_field : read_decimal 0 (field_to_tokens flag_field 2048).name ≡ 2048
unfolding read_decimal field_to_tokens
unnamed_field = refl

-- The largest variant takes five bytes, and the smallest none.
event_size : max_serialized_size byte_meta event_args ≡ some (SerializedSize.static 6)
unfolding max_serialized_size size_of_body variant_sizes max_loop enum_serialized_size
    serialized_size sum_loop field_write_type_meta checked_add
event_size = refl

event_generate :
    generate byte_meta event_args
    ≡ Derived.schema_dynamic (SerializedSize.static 6) (root_schema event_args)
unfolding generate max_serialized_size size_of_body variant_sizes max_loop enum_serialized_size
    serialized_size sum_loop field_write_type_meta checked_add validate_variant_tags
event_generate = refl

derive_decode_example :
    Decodes slices slices_laws
      (decoder (root_schema event_args))
      (to_value (some Primitive.u8) started_value)
      (slice (encode slices (to_value (some Primitive.u8) started_value) ++ trailer))
      trailer
unfolding to_value rows
derive_decode_example =
    derive_decode slices slices_laws byte_meta event_args (SerializedSize.static 6)
      (root_schema event_args) started_value
      (slice (encode slices (to_value (some Primitive.u8) started_value) ++ trailer)) trailer
      event_generate (omega arith, (tt, tt)) refl

derive-within_size_example : length (encode slices (to_value (some Primitive.u8) started_value)) ≤ 6
unfolding to_value rows size_of serialize write
derive-within_size_example =
    derive-within_size slices slices_laws byte_meta event_args 6 (root_schema event_args)
      started_value event_generate (refl, (refl, (refl, tt))) tt

schema-Describes_example :
    Describes
      (schema_of_body "Event" TypeMeta.dynamic (some Primitive.u8) event_args.body)
      (to_value (some Primitive.u8) started_value)
schema-Describes_example =
    schema-Describes "Event" TypeMeta.dynamic (some Primitive.u8) started_value

sample_size : max_serialized_size byte_meta sample_args ≡ some (SerializedSize.static 5)
unfolding max_serialized_size size_of_body serialized_size sum_loop field_write_type_meta
    checked_add
sample_size = refl

variant_schema-size_example : sum (4 ∷ 1 ∷ []) ≡ 5
unfolding variant_schema schema fold_sizes add_field_size checked_add read_metas
variant_schema-size_example = variant_schema-size started (4 ∷ 1 ∷ []) 5 refl (refl, (refl, tt))
