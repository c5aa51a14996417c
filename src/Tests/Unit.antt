-- ===== src/Tests/Unit.antt =====
-- The unit tests of wincode-dynamic/src/lib.rs, of wincode-dynamic/src/wincode_extra.rs and of
-- wincode-dynamic-derive/src/wincode_dynamic.rs as functions and constants in Bool, over the
-- interpretation of Wincode/Slice.antt, and their runs.
pub mod Structs
pub mod Enums
pub mod Consecutive
pub mod Lazies
pub mod Limits
pub mod Drops
pub mod Macro
pub mod Sizes
pub mod Generics
pub mod CratePath
use text.Mathlib.Text.{◌==◌ as same_text}
use wincode_dynamic.Prelude.{
  ℕ, Bool, true, false, ◌&&◌, ◌==◌, String, List, [], ◌∷◌, Option, none, some, checked_mul,
}
use wincode_dynamic.Wincode.{Bytes, Primitive, ok, err, size_of}
use wincode_dynamic.Wincode.Facts.{put_all}
use wincode_dynamic.PrimitiveTy
use wincode_dynamic.Wincode.Slice.{
  slices, write, le_bytes, to_word, of_bool, take_bytes, take_len, take_payload, take_text,
  check_text, interpret, le_value, to_bool, of_word, check_limit,
}
use wincode_dynamic.Ty.{Ty, eq as ty_eq, type_of as ty_type_of}
use wincode_dynamic.Value.{Value}
use wincode_dynamic.Value.Eq.{Floats, eq}
use wincode_dynamic.Read.{read_value, read_usize}
use wincode_dynamic.Lazy.{new_unchecked}
use wincode_dynamic.Parse.{parse, parse_into_usize}
use wincode_dynamic.Parse.RoundTrip.{serialize as serialize_field}
use wincode_dynamic.Fields.RoundTrip.{encode_rows}
use wincode_dynamic.Decoder.{decoder, fields}
use wincode_dynamic.Fields.{Field, next, field_name, field_ty, field_size, field_value}
use wincode_dynamic.Fields.Drain.{Collected, finished, out_of_fuel, collect}
use wincode_dynamic.Decoder.RoundTrip.{encode}
use wincode_dynamic.Derive
use wincode_dynamic.Derive.{root_schema}
use wincode_dynamic.Derive.Reflect.{DeclaredValue, to_value, rows}
use wincode_dynamic.Messages.{collect_fields}

-- Floats compared by their bits; no test below has one.
abbrev pub bitwise : Floats
bitwise = record { f32_eq = λ m n. m == n; f64_eq = λ m n. m == n }

-- `wincode::serialize(&value).unwrap()`
unfoldable pub serialize : (args : Derive.Args) → DeclaredValue args.tag_encoding args.body → Bytes
unfolding encode to_value rows encode_rows serialize_field put_all write le_bytes to_word of_bool
serialize args v = encode slices (to_value args.tag_encoding v)

abbrev pub option_eq : Option ℕ → Option ℕ → Bool
option_eq none none = true
option_eq none (some n) = false
option_eq (some m) none = false
option_eq (some m) (some n) = m == n

-- `assert_field`
unfoldable pub assert_field : Field → String → Ty → Option ℕ → Value → Bool
unfolding field_name field_ty field_size field_value ty_eq eq
assert_field field name ty size value =
    same_text (field_name field) name
    && (ty_eq (field_ty field) ty
        && (option_eq (field_size field) size && eq bitwise (field_value field) value))

-- The loop of `assert_enum_message`, with the comparison of the lengths before it.
unfoldable pub assert_fields : List Field → List (String × Ty × Option ℕ × Value) → Bool
unfolding assert_field
assert_fields [] [] = true
assert_fields [] (e ∷ expected) = false
assert_fields (f ∷ actual) [] = false
assert_fields (f ∷ actual) ((name, ty, size, value) ∷ expected) =
    assert_field f name ty size value && assert_fields actual expected

-- `.unwrap()` before a test of the fields.
abbrev pub on_fields : (List Field → Bool) → Collected (List Field) → Bool
on_fields test (finished (ok fs)) = test fs
on_fields test (finished (err e)) = false
on_fields test out_of_fuel = false

-- `decoder.fields(payload).unwrap().collect::<ReadResult<Vec<_>>>()`; no declaration below has more
-- than eight fields.
unfoldable pub decode : Derive.Args → Bytes → Collected (List Field)
unfolding collect_fields root_schema decoder fields collect next parse read_value read_usize
    parse_into_usize take_bytes take_len take_payload take_text check_text interpret le_value
    to_bool of_word check_limit size_of checked_mul PrimitiveTy.size new_unchecked
    PrimitiveTy.type_of ty_type_of
decode args xs = collect_fields slices 9 (root_schema args) xs
