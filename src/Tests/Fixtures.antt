-- ===== src/Tests/Fixtures.antt =====
-- The types that the unit tests of wincode-dynamic/src/lib.rs and the documentation test of
-- wincode-dynamic/src/compile_fail.rs declare, with the `TYPE_META`s that wincode gives them.
use wincode_dynamic.Prelude.{String, true, false, List, [], ◌∷◌, Option, none, some, usize_mod, ◌-◌}
use wincode_dynamic.Wincode.{Primitive, TypeMeta}
use wincode_dynamic.Ty.{FieldType}
use wincode_dynamic.Derive.{Field, Variant, Body, Args}

abbrev pub field : Option String → FieldType → TypeMeta → Field
field ident ty meta = record {
  ident = ident;
  ty = ty;
  read_meta = meta;
  write_meta = meta;
  skip = false;
}

abbrev pub u64_field : Option String → Field
u64_field ident = field ident (FieldType.primitive Primitive.u64) (TypeMeta.static 8)

abbrev u8_field : Option String → Field
u8_field ident = field ident (FieldType.primitive Primitive.u8) (TypeMeta.static 1)

abbrev bool_field : Option String → Field
bool_field ident = field ident (FieldType.primitive Primitive.bool) (TypeMeta.static 1)

abbrev pub string_field : Option String → Field
string_field ident = field ident FieldType.string TypeMeta.dynamic

abbrev pub vec_field : Option String → Primitive → Field
vec_field ident A = field ident (FieldType.vec A) TypeMeta.dynamic

abbrev pub skipped : Field → Field
skipped f = record f { skip = true }

abbrev pub variant : String → List Field → Variant
variant ident fields = record { ident = ident; fields = fields; tag = none }

-- A declaration without a tag encoding.
abbrev pub declared : String → Body → TypeMeta → Args
declared ident body meta = record {
  ident = ident;
  body = body;
  tag_encoding = none;
  read_meta = meta;
  write_meta = meta;
}

abbrev pub struct_message : Args
struct_message =
    declared "StructMessage"
      (Body.struct (
        u64_field (some "a")
        ∷ bool_field (some "b")
        ∷ vec_field (some "vals") Primitive.u64
        ∷ string_field (some "str")
        ∷ vec_field (some "bytes") Primitive.u8
        ∷ field (some "ar") (FieldType.array Primitive.u64 4) (TypeMeta.static 32)
        ∷ field (some "ar_bytes") (FieldType.array Primitive.u8 8) (TypeMeta.static 8)
        ∷ []))
      TypeMeta.dynamic

abbrev pub enum_message : Args
enum_message =
    declared "EnumMessage"
      (Body.enum (
        variant "Ping" []
        ∷ variant "Coordinates" (u64_field none ∷ bool_field none ∷ [])
        ∷ variant "Payload"
            (string_field (some "text") ∷ vec_field (some "bytes") Primitive.u8 ∷ [])
        ∷ []))
      TypeMeta.dynamic

abbrev pub u8_enum_message : Args
u8_enum_message =
    record (declared "U8EnumMessage"
      (Body.enum (variant "Ping" [] ∷ variant "Value" (u64_field none ∷ []) ∷ []))
      TypeMeta.dynamic) { tag_encoding = some Primitive.u8 }

abbrev pub fixed_size_message : Args
fixed_size_message =
    declared "FixedSizeMessage"
      (Body.struct (u64_field (some "value") ∷ bool_field (some "enabled") ∷ []))
      (TypeMeta.static 9)

abbrev pub fixed_size_enum : Args
fixed_size_enum =
    declared "FixedSizeEnum"
      (Body.enum
        (variant "Flag" (bool_field none ∷ []) ∷ variant "Value" (u64_field none ∷ []) ∷ []))
      TypeMeta.dynamic

abbrev pub same_size_enum : Args
same_size_enum =
    declared "SameSizeEnum"
      (Body.enum
        (variant "First" (u64_field none ∷ []) ∷ variant "Second" (u64_field none ∷ []) ∷ []))
      (TypeMeta.static 12)

abbrev pub mixed_size_enum : Args
mixed_size_enum =
    declared "MixedSizeEnum"
      (Body.enum (
        variant "Flag" (bool_field none ∷ [])
        ∷ variant "Payload" (u64_field (some "id") ∷ vec_field (some "data") Primitive.u8 ∷ [])
        ∷ []))
      TypeMeta.dynamic

abbrev pub skipped_field_struct : Args
skipped_field_struct =
    declared "SkippedFieldStruct"
      (Body.struct (
        u8_field (some "before")
        ∷ skipped (string_field (some "skipped"))
        ∷ u64_field (some "after")
        ∷ []))
      (TypeMeta.static 9)

-- The type of a skipped field is not looked at, here that of `Opaque`.
abbrev pub opaque_skipped_field : Args
opaque_skipped_field =
    declared "OpaqueSkippedField"
      (Body.struct (skipped (string_field (some "skipped")) ∷ u64_field (some "value") ∷ []))
      (TypeMeta.static 8)

abbrev pub skipped_field_enum : Args
skipped_field_enum =
    declared "SkippedFieldEnum"
      (Body.enum (
        variant "Skipped" (skipped (string_field none) ∷ bool_field none ∷ [])
        ∷ variant "Value" (u64_field none ∷ [])
        ∷ []))
      TypeMeta.dynamic

-- The `TYPE_META` of `PodU64` is that of `u64`.
abbrev pub adapted_field_enum : Args
adapted_field_enum =
    declared "AdaptedFieldEnum"
      (Body.enum
        (variant "Adapted" (u64_field none ∷ []) ∷ variant "Flag" (bool_field none ∷ []) ∷ []))
      TypeMeta.dynamic

abbrev pub empty_enum : Args
empty_enum = declared "EmptyEnum" (Body.enum []) TypeMeta.dynamic

-- `enum Overflow { Huge(Huge), Byte(u8) }`
abbrev pub overflow : Args
overflow =
    declared "Overflow"
      (Body.enum (
        variant "Huge"
          (field none (FieldType.primitive Primitive.u8) (TypeMeta.static (usize_mod - 1)) ∷ [])
        ∷ variant "Byte" (u8_field none ∷ [])
        ∷ []))
      TypeMeta.dynamic

-- `enum Generic<T>`, on a field of the type `T`, and the declarations behind it.
abbrev pub generic : (Option String → Field) → TypeMeta → Args
generic item meta =
    declared "Generic" (Body.enum (variant "Empty" [] ∷ variant "Item" (item none ∷ []) ∷ [])) meta

abbrev pub generic_skip : (Option String → Field) → Args
generic_skip item =
    declared "GenericSkip"
      (Body.struct (skipped (item (some "skipped")) ∷ u64_field (some "value") ∷ []))
      (TypeMeta.static 8)

abbrev pub generic_skip_enum : (Option String → Field) → Args
generic_skip_enum item =
    declared "GenericSkipEnum"
      (Body.enum
        (variant "Skipped" (skipped (item none) ∷ []) ∷ variant "Value" (u64_field none ∷ []) ∷ []))
      TypeMeta.dynamic

-- The adapter `wincode::containers::Vec<_, wincode::len::BincodeLen>` is dynamic, as `Vec<T>` is.
abbrev pub generic_with : Primitive → Args
generic_with A =
    declared "GenericWith" (Body.struct (vec_field (some "values") A ∷ [])) TypeMeta.dynamic

abbrev pub generic_with_enum : Primitive → Args
generic_with_enum A =
    declared "GenericWithEnum"
      (Body.enum (variant "Values" (vec_field none A ∷ []) ∷ variant "Empty" [] ∷ []))
      TypeMeta.dynamic
