-- ===== src/Tests/Unit/Sizes.antt =====
-- The tests of `SERIALIZED_SIZE` and of the generated schema in wincode-dynamic/src/lib.rs.
use wincode_dynamic.Prelude.{
  ℕ, ◌≡◌, ◌==◌, refl, Bool, true, false, ◌&&◌, String, List, [], ◌∷◌, Option, none, some, length,
  arith, checked_add,
}
use text.Mathlib.Text.{◌==◌ as same_text}
use wincode_dynamic.Wincode.{TypeMeta, size_of}
use wincode_dynamic.PrimitiveTy
use wincode_dynamic.PrimitiveTy.{PrimitiveTy}
use wincode_dynamic.Ty.{Ty, eq as ty_eq, type_of}
use wincode_dynamic.Schema.{FieldDef, Schema, RootSchema}
use wincode_dynamic.Derive.{
  Args, SerializedSize, Derived, max_serialized_size, root_schema, generate,
}
use wincode_dynamic.Derive.Reflect.{FieldValues, DeclaredValue}
use wincode_dynamic.Tests.Fixtures
use wincode_dynamic.Tests.Unit.{serialize, option_eq}

-- The derived `PartialEq` of `SerializedSize`, on a constant that was evaluated.
abbrev pub size_eq : Option SerializedSize → SerializedSize → Bool
size_eq none b = false
size_eq (some (SerializedSize.static m)) (SerializedSize.static n) = m == n
size_eq (some (SerializedSize.static m)) (SerializedSize.dynamic n) = false
size_eq (some (SerializedSize.dynamic m)) (SerializedSize.static n) = false
size_eq (some (SerializedSize.dynamic m)) (SerializedSize.dynamic n) = m == n

-- `SERIALIZED_SIZE`, where a tag is a `u32` unless the declaration says otherwise.
abbrev pub size : Args → Option SerializedSize
size args = max_serialized_size (TypeMeta.static 4) args

abbrev fixed_flag : DeclaredValue none Fixtures.fixed_size_enum.body
fixed_flag =
    DeclaredValue.variant 0 _ 0 refl refl (omega arith)
      (FieldValues.value refl false FieldValues.nil)

abbrev fixed_value : DeclaredValue none Fixtures.fixed_size_enum.body
fixed_value =
    DeclaredValue.variant 1 _ 1 refl refl (omega arith) (FieldValues.value refl 0 FieldValues.nil)

abbrev skipped_flag : DeclaredValue none Fixtures.skipped_field_enum.body
skipped_flag =
    DeclaredValue.variant 0 _ 0 refl refl (omega arith)
      (FieldValues.skipped refl (FieldValues.value refl true FieldValues.nil))

abbrev skipped_value : DeclaredValue none Fixtures.skipped_field_enum.body
skipped_value =
    DeclaredValue.variant 1 _ 1 refl refl (omega arith) (FieldValues.value refl 0 FieldValues.nil)

abbrev adapted_value : DeclaredValue none Fixtures.adapted_field_enum.body
adapted_value =
    DeclaredValue.variant 0 _ 0 refl refl (omega arith) (FieldValues.value refl 0 FieldValues.nil)

abbrev adapted_flag : DeclaredValue none Fixtures.adapted_field_enum.body
adapted_flag =
    DeclaredValue.variant 1 _ 1 refl refl (omega arith)
      (FieldValues.value refl false FieldValues.nil)

-- `wincode::serialize(&value).unwrap().len()`
abbrev pub len_of : (args : Args) → DeclaredValue args.tag_encoding args.body → ℕ
len_of args v = length (serialize args v)

abbrev all_true : List Bool → Bool
all_true [] = true
all_true (b ∷ bs) = b && all_true bs

-- `serialized_size_metadata`
abbrev serialized_size_metadata : Bool
serialized_size_metadata = all_true (
    size_eq (size Fixtures.fixed_size_message) (SerializedSize.static 9)
    ∷ size_eq (size Fixtures.fixed_size_enum) (SerializedSize.static 12)
    ∷ size_eq (max_serialized_size (TypeMeta.static 1) Fixtures.u8_enum_message)
        (SerializedSize.static 9)
    ∷ size_eq (size Fixtures.struct_message) (SerializedSize.dynamic 49)
    ∷ size_eq (size Fixtures.enum_message) (SerializedSize.dynamic 13)
    ∷ size_eq (size Fixtures.same_size_enum) (SerializedSize.static 12)
    ∷ size_eq (size Fixtures.mixed_size_enum) (SerializedSize.dynamic 12)
    ∷ size_eq (size Fixtures.skipped_field_struct) (SerializedSize.static 9)
    ∷ size_eq (size Fixtures.opaque_skipped_field) (SerializedSize.static 8)
    ∷ size_eq (size Fixtures.skipped_field_enum) (SerializedSize.static 12)
    ∷ size_eq (size Fixtures.adapted_field_enum) (SerializedSize.static 12)
    ∷ size_eq (size Fixtures.empty_enum) (SerializedSize.static 0)
    ∷ (len_of Fixtures.fixed_size_enum fixed_flag == 5)
    ∷ (len_of Fixtures.fixed_size_enum fixed_value == 12)
    ∷ (len_of Fixtures.skipped_field_enum skipped_flag == 5)
    ∷ (len_of Fixtures.skipped_field_enum skipped_value == 12)
    ∷ (len_of Fixtures.adapted_field_enum adapted_value == 12)
    ∷ (len_of Fixtures.adapted_field_enum adapted_flag == 5)
    ∷ [])

abbrev is_def : FieldDef → String → Ty → Bool
is_def def name ty = same_text def.name name && ty_eq def.ty ty

-- The assertions on `variants[0]`, `variants[1]` and `variants[2]`.
abbrev is_ping : Schema → Bool
is_ping s = same_text s.name "Ping" && ((length s.fields == 0) && option_eq s.size (some 0))

abbrev two_defs : (FieldDef → Bool) → (FieldDef → Bool) → List FieldDef → Bool
two_defs first second (d₁ ∷ d₂ ∷ []) = first d₁ && second d₂
two_defs first second _ = false

abbrev is_coordinates : Schema → Bool
is_coordinates s =
    same_text s.name "Coordinates"
    && (two_defs (λ d. is_def d "0" (Ty.primitive_ty PrimitiveTy.u64))
          (λ d. is_def d "1" (Ty.primitive_ty PrimitiveTy.bool)) s.fields
        && option_eq s.size (some 9))

abbrev is_payload : Schema → Bool
is_payload s =
    same_text s.name "Payload"
    && (two_defs (λ d. is_def d "text" Ty.string) (λ d. is_def d "bytes" (Ty.vec PrimitiveTy.u8))
          s.fields
        && option_eq s.size none)

abbrev three_variants : List Schema → Bool
three_variants (s₁ ∷ s₂ ∷ s₃ ∷ []) = is_ping s₁ && (is_coordinates s₂ && is_payload s₃)
three_variants _ = false

abbrev is_enum_message : RootSchema → Bool
is_enum_message (RootSchema.struct schema) = false
is_enum_message (RootSchema.enum variants size name tag_encoding) =
    same_text name "EnumMessage"
    && (option_eq size none
        && (PrimitiveTy.eq tag_encoding PrimitiveTy.u32 && three_variants variants))

-- `enum_schema`
abbrev enum_schema : Bool
enum_schema = is_enum_message (root_schema Fixtures.enum_message)

size_tests_pass : (serialized_size_metadata ≡ true) × (enum_schema ≡ true)
unfolding max_serialized_size serialize root_schema ty_eq checked_add PrimitiveTy.eq type_of
    PrimitiveTy.type_of size_of
size_tests_pass = (refl, refl)

-- wincode-dynamic/src/compile_fail.rs: the size of `Overflow` is not computed.
overflow_fails : generate (TypeMeta.static 4) Fixtures.overflow ≡ Derived.size_overflow
unfolding generate max_serialized_size checked_add
overflow_fails = refl
