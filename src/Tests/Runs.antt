-- ===== src/Tests/Runs.antt =====
-- Runs of the decoder on concrete bytes, after the unit tests of wincode-dynamic/src/lib.rs.
use wincode_dynamic.Prelude.{◌≡◌, refl, false, [], ◌∷◌, some, none, checked_mul}
use wincode_dynamic.Wincode.{Primitive, ReadError, ok, err, Cow, size_of}
use wincode_dynamic.Wincode.Slice.{slices, take_bytes, interpret, le_value, to_bool}
use wincode_dynamic.Wincode.Slice.Lawful.{slice}
use wincode_dynamic.PrimitiveTy
use wincode_dynamic.PrimitiveTy.{PrimitiveTy, DynPrimitiveTy, builtin}
use wincode_dynamic.Value.{Value, LazyVec}
use wincode_dynamic.Read.{read_usize, read_value}
use wincode_dynamic.Lazy.{
  get_slice, Iter, returns, next, item_at, get_unchecked, try_into_iter_as, validate_element_type,
  ty_mismatch, has_borrowed_payload,
}
use wincode_dynamic.Parse.{parse_into_usize, parse_primitive}
use wincode_dynamic.Schema.{root_name, root_size}
use wincode_dynamic.Decoder.{decoder, decode_variant, fields, variant_name}
use wincode_dynamic.Fields.{schema_fields, size_hint, len}
use wincode_dynamic.Tests.Data.{event_root, message_root, started, trailer}

-- `enum_rejects_invalid_discriminant`
unknown_event :
    fields slices (decoder event_root) (slice (99 ∷ [])) ≡ err (ReadError.invalid_tag_encoding 99)
unfolding fields decoder decode_variant parse_into_usize read_usize take_bytes interpret le_value
    size_of
unknown_event = refl

-- `lazy_vector_reports_element_errors_during_iteration`
abbrev malformed : Iter (builtin Primitive.bool)
malformed = record { payload = 1 ∷ 2 ∷ []; len = 2; index = 1 }

malformed_element :
    next (builtin Primitive.bool) (get_slice slices Primitive.bool) malformed
    ≡ returns (some (err (ReadError.invalid_bool_encoding 2)), record malformed { index = 2 })
unfolding next item_at get_unchecked take_bytes interpret to_bool le_value size_of checked_mul
malformed_element = refl

abbrev flags_vec : LazyVec
flags_vec = record { ty = PrimitiveTy.bool; payload = Cow.owned (1 ∷ []); len = 1 }

mismatched_element : try_into_iter_as (builtin Primitive.u8) flags_vec ≡ err ty_mismatch
unfolding try_into_iter_as validate_element_type PrimitiveTy.eq PrimitiveTy.type_of
    PrimitiveTy.discriminant
mismatched_element = refl

owned_payload : has_borrowed_payload flags_vec ≡ false
unfolding has_borrowed_payload
owned_payload = refl

parsed_number :
    parse_primitive slices PrimitiveTy.u16 (slice (1 ∷ 1 ∷ trailer))
    ≡ (ok (Value.u16 257), slice trailer)
unfolding parse_primitive read_value take_bytes interpret le_value size_of
parsed_number = refl

root_names : (root_name event_root ≡ "Event") × (root_size message_root ≡ none)
unfolding root_name root_size
root_names = (refl, refl)

variant_of_event : variant_name (record { schema = started; reader = slice trailer }) ≡ "Started"
unfolding variant_name
variant_of_event = refl

fields_left : size_hint (schema_fields started (slice trailer)) ≡ (1, some 1)
unfolding size_hint schema_fields len
fields_left = refl
