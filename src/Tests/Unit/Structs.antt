-- ===== src/Tests/Unit/Structs.antt =====
-- The tests of structs and of skipped fields in wincode-dynamic/src/lib.rs.
use wincode_dynamic.Prelude.{
  ℕ, ◌≡◌, ◌==◌, refl, Bool, true, false, not, ◌&&◌, List, [], ◌∷◌, Option, none, some, arith,
}
use text.Mathlib.Text.{◌==◌ as same_text}
use wincode_dynamic.Wincode.{Primitive, Cow, ReadResult, ok, err}
use wincode_dynamic.Wincode.Slice.{slices}
use wincode_dynamic.PrimitiveTy
use wincode_dynamic.PrimitiveTy.{PrimitiveTy, DynPrimitiveTy, builtin}
use wincode_dynamic.Ty.{Ty, eq as ty_eq}
use wincode_dynamic.Value.{Value, LazyVec, PrimitiveValue}
use wincode_dynamic.Value.Eq.{primitive_eq, list_eq}
use wincode_dynamic.Lazy.{
  get_slice, Iter, Checked, returns, fault, try_iter_as, into_dyn_vec, next, size_hint, iter_len,
  vec_len, vec_ty, is_empty, validate_element_type, try_into_iter_as, next_owned,
}
use wincode_dynamic.Lazy.Owned.{collect_owned}
use wincode_dynamic.LenMap.{fill}
use wincode_dynamic.Read.{read_array}
use wincode_dynamic.Fields.{Field, field_name, field_ty, field_size, field_value}
use wincode_dynamic.Derive.Reflect.{FieldValues, DeclaredValue}
use wincode_dynamic.Messages.{StructMessage, struct_value, on_vec, iterates_to}
use wincode_dynamic.Tests.Fixtures
use wincode_dynamic.Tests.Unit.{
  bitwise, serialize, assert_field, assert_fields, on_fields, decode, option_eq,
}

abbrev u64_ty : Ty
u64_ty = Ty.primitive_ty PrimitiveTy.u64

abbrev bool_ty : Ty
bool_ty = Ty.primitive_ty PrimitiveTy.bool

-- `skipped_fields_are_omitted_from_runtime_schemas`
abbrev opaque : DeclaredValue none Fixtures.opaque_skipped_field.body
opaque = DeclaredValue.struct (FieldValues.skipped refl (FieldValues.value refl 3 FieldValues.nil))

abbrev skipped_struct : DeclaredValue none Fixtures.skipped_field_struct.body
skipped_struct =
    DeclaredValue.struct (
      FieldValues.value refl 1
        (FieldValues.skipped refl (FieldValues.value refl 2 FieldValues.nil)))

abbrev skipped_variant : DeclaredValue none Fixtures.skipped_field_enum.body
skipped_variant =
    DeclaredValue.variant 0 _ 0 refl refl (omega arith)
      (FieldValues.skipped refl (FieldValues.value refl true FieldValues.nil))

abbrev skipped_fields_are_omitted_from_runtime_schemas : Bool
skipped_fields_are_omitted_from_runtime_schemas =
    on_fields (λ fs. assert_fields fs (("value", u64_ty, some 8, Value.u64 3) ∷ []))
      (decode Fixtures.opaque_skipped_field (serialize Fixtures.opaque_skipped_field opaque))
    && (on_fields
          (λ fs. assert_fields fs (
            ("before", Ty.primitive_ty PrimitiveTy.u8, some 1, Value.u8 1)
            ∷ ("after", u64_ty, some 8, Value.u64 2)
            ∷ []))
          (decode Fixtures.skipped_field_struct
            (serialize Fixtures.skipped_field_struct skipped_struct))
        && on_fields (λ fs. assert_fields fs (("1", bool_ty, some 1, Value.bool true) ∷ []))
            (decode Fixtures.skipped_field_enum
              (serialize Fixtures.skipped_field_enum skipped_variant)))

-- The message of `struct_roundtrip`; the text is "hello world".
abbrev message : StructMessage
message = record {
  a = 42;
  b = true;
  vals = 333 ∷ 333 ∷ 333 ∷ 333 ∷ [];
  str = 104 ∷ 101 ∷ 108 ∷ 108 ∷ 111 ∷ 32 ∷ 119 ∷ 111 ∷ 114 ∷ 108 ∷ 100 ∷ [];
  bytes = 42 ∷ 42 ∷ 42 ∷ 42 ∷ 42 ∷ 42 ∷ 42 ∷ 42 ∷ [];
  ar = 444 ∷ 444 ∷ 444 ∷ 444 ∷ [];
  ar_bytes = 43 ∷ 43 ∷ 43 ∷ 43 ∷ 43 ∷ 43 ∷ 43 ∷ 43 ∷ [];
}

-- `iter.size_hint() == (n, Some(n))` and `iter.len() == n`
abbrev has_left : {As : DynPrimitiveTy} → ℕ → Iter As → Bool
has_left {As} n it =
    ((size_hint As it).0 == n) && (option_eq (size_hint As it).1 (some n) && (iter_len As it == n))

-- A call of `next` that gives an item, and the iterator behind it.
abbrev takes : {A I : Type 0} → (A → Bool) → (I → Bool) → Checked (Option (ReadResult A) × I) → Bool
takes item rest (returns (some (ok a), it)) = item a && rest it
takes item rest (returns (some (err e), it)) = false
takes item rest (returns (none, it)) = false
takes item rest fault = false

abbrev gives_none : {A I : Type 0} → (I → Bool) → Checked (Option A × I) → Bool
gives_none rest (returns (none, it)) = rest it
gives_none rest (returns (some a, it)) = false
gives_none rest fault = false

abbrev is_333 : ℕ → Bool
is_333 n = n == 333

-- The element by element part of `struct_roundtrip`.
abbrev iterates : Iter (builtin Primitive.u64) → Bool
iterates it =
    has_left 4 it
    && takes is_333
        (λ it₁.
          has_left 3 it₁
          && takes is_333
              (λ it₂.
                takes is_333
                  (λ it₃.
                    takes is_333
                      (λ it₄.
                        has_left 0 it₄
                        && gives_none
                            (λ it₅.
                              gives_none (λ _. true)
                                (next (builtin Primitive.u64) (get_slice slices Primitive.u64) it₅))
                            (next (builtin Primitive.u64) (get_slice slices Primitive.u64) it₄))
                      (next (builtin Primitive.u64) (get_slice slices Primitive.u64) it₃))
                  (next (builtin Primitive.u64) (get_slice slices Primitive.u64) it₂))
              (next (builtin Primitive.u64) (get_slice slices Primitive.u64) it₁))
        (next (builtin Primitive.u64) (get_slice slices Primitive.u64) it)

abbrev on_ok : {A : Type 0} → (A → Bool) → ReadResult A → Bool
on_ok test (ok a) = test a
on_ok test (err e) = false

abbrev fails : {A : Type 0} → ReadResult A → Bool
fails (ok a) = false
fails (err e) = true

abbrev four_333 : List PrimitiveValue
four_333 =
    PrimitiveValue.u64 333
    ∷ PrimitiveValue.u64 333
    ∷ PrimitiveValue.u64 333
    ∷ PrimitiveValue.u64 333
    ∷ []

-- The lazy vector of `struct_roundtrip`.
abbrev vals_roundtrip : LazyVec → Bool
vals_roundtrip vals =
    PrimitiveTy.eq (vec_ty vals) PrimitiveTy.u64
    && ((vec_len vals == 4)
        && (not (is_empty vals)
            && (on_ok (λ vs. list_eq (primitive_eq bitwise) vs four_333) (into_dyn_vec slices vals)
                && (on_ok iterates (try_iter_as (builtin Primitive.u64) vals)
                    && fails (try_iter_as (builtin Primitive.u32) vals)))))

abbrev roundtrips : List Field → Bool
roundtrips (f₁ ∷ f₂ ∷ f₃ ∷ f₄ ∷ f₅ ∷ f₆ ∷ f₇ ∷ []) =
    assert_field f₁ "a" u64_ty (some 8) (Value.u64 42)
    && (assert_field f₂ "b" bool_ty (some 1) (Value.bool true)
        && (same_text (field_name f₃) "vals"
            && (ty_eq (field_ty f₃) (Ty.vec PrimitiveTy.u64)
                && (option_eq (field_size f₃) none
                    && (on_vec vals_roundtrip (field_value f₃)
                        && (assert_field f₄ "str" Ty.string none
                              (Value.string (Cow.owned message.str))
                            && (assert_field f₅ "bytes" (Ty.vec PrimitiveTy.u8) none
                                  (Value.bytes (Cow.owned message.bytes))
                                && (same_text (field_name f₆) "ar"
                                    && (ty_eq (field_ty f₆) (Ty.array PrimitiveTy.u64 4)
                                        && (option_eq (field_size f₆) (some 32)
                                            && (on_vec
                                                  (iterates_to bitwise slices Primitive.u64
                                                    message.ar)
                                                  (field_value f₆)
                                                && assert_field f₇ "ar_bytes"
                                                    (Ty.array PrimitiveTy.u8 8) (some 8)
                                                    (Value.bytes
                                                      (Cow.owned message.ar_bytes)))))))))))))
roundtrips _ = false

abbrev struct_roundtrip : Bool
struct_roundtrip =
    on_fields roundtrips
      (decode Fixtures.struct_message (serialize Fixtures.struct_message (struct_value message)))

struct_tests_pass :
    (skipped_fields_are_omitted_from_runtime_schemas ≡ true) × (struct_roundtrip ≡ true)
unfolding serialize decode assert_field assert_fields field_name field_ty field_size field_value
    primitive_eq list_eq next size_hint iter_len vec_len vec_ty is_empty into_dyn_vec try_iter_as
    iterates_to PrimitiveTy.eq ty_eq read_array fill validate_element_type try_into_iter_as
    collect_owned next_owned
struct_tests_pass = (refl, refl)
