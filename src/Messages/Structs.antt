-- ===== src/Messages/Structs.antt =====
-- `arbitrary_struct_fields_match` of wincode-dynamic/src/lib.rs, on every message.
use wincode_dynamic.Prelude.{◌≡◌, refl, true, none, length, All}
use wincode_dynamic.Wincode.{Wincode, Primitive, Cow, TypeMeta}
use wincode_dynamic.Wincode.Laws.{WincodeLaws}
use wincode_dynamic.Fields.RoundTrip.{IsWritableRow}
use wincode_dynamic.Decoder.RoundTrip.{rows_of}
use wincode_dynamic.Derive.{root_schema}
use wincode_dynamic.Derive.Reflect.{to_value, schema-Describes}
use wincode_dynamic.PrimitiveTy
use wincode_dynamic.Value.Eq.{Floats, eq}
use wincode_dynamic.Read.Uniform.{value_of}
use wincode_dynamic.Parse.RoundTrip.{decoded, sequence_value}
use wincode_dynamic.Lazy.{new_unchecked, vec_len, vec_ty}
use wincode_dynamic.Fields.{field_value}
use wincode_dynamic.Messages.{StructMessage, struct_value, arbitrary_struct_fields_match}
use wincode_dynamic.Messages.Lists.{
  both, ==_refl, cow_eq_refl, bool_eq_refl, numbers_equal, iterates_to-put_all,
  collect_fields-encode,
}
use wincode_dynamic.Tests.Fixtures

abbrev pub IsStructMessage : (w : Wincode) → WincodeLaws w → StructMessage → Type 0
IsStructMessage w laws m = All (IsWritableRow w laws) (rows_of (to_value none (struct_value m)))

-- Of every message, of Rust's types and with texts and sequences within the preallocation limit,
-- the fields that the derived schema decodes from its serialization are the message's: numbers,
-- texts and bytes are equal to the expected values, and the lazy vectors have the lengths and the
-- types of the message's and iterate to their elements.
pub arbitrary_struct_fields_match_lem :
    (floats : Floats) (w : Wincode) (laws : WincodeLaws w) (m : StructMessage)
    → IsStructMessage w laws m
    → arbitrary_struct_fields_match floats w m ≡ true
unfolding arbitrary_struct_fields_match root_schema to_value eq decoded value_of sequence_value
    field_value new_unchecked vec_len vec_ty PrimitiveTy.eq PrimitiveTy.discriminant
    PrimitiveTy.type_of
arbitrary_struct_fields_match_lem floats w laws m h =
    let v = to_value none (struct_value m) in
    let found =
      collect_fields-encode w laws (root_schema Fixtures.struct_message) v
        (schema-Describes "StructMessage" TypeMeta.dynamic none (struct_value m)) h in
    let (_, (_, ((vals, vals_fit), (_, (_, ((ar, ar_fit, _), _)))))) = h in
    rw found (
      both (==_refl m.a) (
        both (bool_eq_refl m.b) (
          both
            (both (==_refl (length m.vals)) (
              both refl (
                iterates_to-put_all floats w laws Primitive.u64 m.vals true vals vals_fit
                  (numbers_equal floats m.vals))))
            (both (cow_eq_refl (Cow.borrowed m.str) (Cow.borrowed m.str) refl) (
              both (cow_eq_refl (Cow.borrowed m.bytes) (Cow.borrowed m.bytes) refl) (
                both
                  (iterates_to-put_all floats w laws Primitive.u64 m.ar true ar ar_fit
                    (numbers_equal floats m.ar))
                  (cow_eq_refl (Cow.borrowed m.ar_bytes) (Cow.borrowed m.ar_bytes) refl)))))))
