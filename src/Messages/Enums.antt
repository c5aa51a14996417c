-- ===== src/Messages/Enums.antt =====
-- `arbitrary_enum_fields_match` of wincode-dynamic/src/lib.rs, on every message.
use wincode_dynamic.Prelude.{◌≡◌, refl, true, none, All}
use wincode_dynamic.Wincode.{Wincode, Cow, TypeMeta}
use wincode_dynamic.Wincode.Laws.{WincodeLaws}
use wincode_dynamic.Value.Eq.{Floats, eq, list_eq}
use wincode_dynamic.Read.Uniform.{value_of}
use wincode_dynamic.Parse.RoundTrip.{decoded, sequence_value}
use wincode_dynamic.Fields.{field_value}
use wincode_dynamic.Fields.RoundTrip.{IsWritableRow}
use wincode_dynamic.Decoder.RoundTrip.{rows_of}
use wincode_dynamic.Derive.{root_schema}
use wincode_dynamic.Derive.Reflect.{to_value, schema-Describes}
use wincode_dynamic.Messages.{EnumMessage, enum_value, arbitrary_enum_fields_match}
use wincode_dynamic.Messages.Lists.{both, ==_refl, cow_eq_refl, bool_eq_refl, collect_fields-encode}
use wincode_dynamic.Tests.Fixtures

abbrev pub IsEnumMessage : (w : Wincode) → WincodeLaws w → EnumMessage → Type 0
IsEnumMessage w laws m = All (IsWritableRow w laws) (rows_of (to_value none (enum_value m)))

-- Of every message, of each of the three variants, of Rust's types and with texts and bytes within
-- the preallocation limit, the values that the derived schema decodes from its serialization are
-- the expected ones, in order and no more.
pub arbitrary_enum_fields_match_lem :
    (floats : Floats) (w : Wincode) (laws : WincodeLaws w) (m : EnumMessage)
    → IsEnumMessage w laws m
    → arbitrary_enum_fields_match floats w m ≡ true
unfolding arbitrary_enum_fields_match root_schema to_value eq list_eq decoded value_of
    sequence_value field_value
arbitrary_enum_fields_match_lem floats w laws EnumMessage.ping h =
    let v = to_value none (enum_value EnumMessage.ping) in
    let found =
      collect_fields-encode w laws (root_schema Fixtures.enum_message) v
        (schema-Describes "EnumMessage" TypeMeta.dynamic none (enum_value EnumMessage.ping)) h in
    rw found refl
arbitrary_enum_fields_match_lem floats w laws (EnumMessage.coordinates x y) h =
    let m = enum_value (EnumMessage.coordinates x y) in
    let found =
      collect_fields-encode w laws (root_schema Fixtures.enum_message) (to_value none m)
        (schema-Describes "EnumMessage" TypeMeta.dynamic none m) h in
    rw found (both (==_refl x) (both (bool_eq_refl y) refl))
arbitrary_enum_fields_match_lem floats w laws (EnumMessage.payload text content) h =
    let m = enum_value (EnumMessage.payload text content) in
    let found =
      collect_fields-encode w laws (root_schema Fixtures.enum_message) (to_value none m)
        (schema-Describes "EnumMessage" TypeMeta.dynamic none m) h in
    rw found (
      both (cow_eq_refl (Cow.borrowed text) (Cow.borrowed text) refl)
        (both (cow_eq_refl (Cow.borrowed content) (Cow.borrowed content) refl) refl))
