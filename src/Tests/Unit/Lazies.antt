-- ===== src/Tests/Unit/Lazies.antt =====
-- The tests of lazy vectors, and of borrowed and owned payloads, in wincode-dynamic/src/lib.rs.
use wincode_dynamic.Prelude.{
  ℕ, ◌≡◌, ◌==◌, refl, Bool, true, false, not, ◌&&◌, List, [], ◌∷◌, Option, none, some,
}
use text.Mathlib.Text.{◌==◌ as same_text}
use wincode_dynamic.Wincode.{Bytes, Primitive, Cow, ReadError, ReadResult, ok, err, TypeMeta}
use wincode_dynamic.Wincode.Slice.{ByteReader, slices}
use wincode_dynamic.PrimitiveTy
use wincode_dynamic.PrimitiveTy.{PrimitiveTy, DynPrimitiveTy, builtin}
use wincode_dynamic.Value.{Value, LazyVec}
use wincode_dynamic.Value.Eq.{list_eq}
use wincode_dynamic.Lazy.{
  get_slice, IntoIter, Checked, returns, fault, new_unchecked, try_into_iter_as, next_owned,
  size_hint, iter_len, has_borrowed_payload, validate_element_type,
}
use wincode_dynamic.Lazy.Safety.{borrow}
use wincode_dynamic.Lazy.Owned.{collect_owned}
use wincode_dynamic.Fields.{Field, Fields, next, field_name, field_value}
use wincode_dynamic.Decoder.{decoder, fields}
use wincode_dynamic.Derive.{root_schema, Body}
use wincode_dynamic.Derive
use wincode_dynamic.Derive.Reflect.{FieldValues, DeclaredValue}
use wincode_dynamic.Messages.{
  vector_message, vector_value, on_vec, iterates_to, drained_is, first_field,
}
use wincode_dynamic.Tests.Fixtures
use wincode_dynamic.Tests.Unit.{bitwise, serialize, on_fields, decode, option_eq}
use wincode_dynamic.Tests.Unit.Enums.{set_last}

abbrev numbers_eq : List ℕ → List ℕ → Bool
numbers_eq = list_eq (λ m n. m == n)

-- `size_hint() == (n, Some(n))`, and `len()`, which the macro writes for both iterators.
abbrev has_left : {As : DynPrimitiveTy} → ℕ → IntoIter As → Bool
has_left {As} n it =
    ((size_hint As (borrow it)).0 == n)
    && (option_eq (size_hint As (borrow it)).1 (some n) && (iter_len As (borrow it) == n))

abbrev on_ok : {A : Type 0} → (A → Bool) → ReadResult A → Bool
on_ok test (ok a) = test a
on_ok test (err e) = false

-- The item of a call of `next`, and the iterator behind it.
abbrev item :
    {A I : Type 0} → (ReadResult A → Bool) → (I → Bool) → Checked (Option (ReadResult A) × I) → Bool
item test rest (returns (some a, it)) = test a && rest it
item test rest (returns (none, it)) = false
item test rest fault = false

abbrev no_item : {A I : Type 0} → Checked (Option A × I) → Bool
no_item (returns (none, it)) = true
no_item (returns (some a, it)) = false
no_item fault = false

abbrev is_invalid_bool : {A : Type 0} → ReadResult A → Bool
is_invalid_bool (err (ReadError.invalid_bool_encoding n)) = n == 2
is_invalid_bool _ = false

-- `struct Bools`, with its last byte overwritten.
abbrev malformed_bools : Bytes
malformed_bools =
    set_last 2
      (serialize (vector_message Primitive.bool) (vector_value Primitive.bool (true ∷ false ∷ [])))

abbrev reports_malformed : IntoIter (builtin Primitive.bool) → Bool
reports_malformed it =
    has_left 2 it
    && item (on_ok (λ b. b))
        (λ it₁.
          has_left 1 it₁
          && item is_invalid_bool
              (λ it₂.
                has_left 0 it₂
                && no_item
                    (next_owned (builtin Primitive.bool) (get_slice slices Primitive.bool) it₂))
              (next_owned (builtin Primitive.bool) (get_slice slices Primitive.bool) it₁))
        (next_owned (builtin Primitive.bool) (get_slice slices Primitive.bool) it)

-- `lazy_vector_reports_element_errors_during_iteration`
abbrev lazy_vector_reports_element_errors_during_iteration : Bool
lazy_vector_reports_element_errors_during_iteration =
    first_field slices
      (fields slices (decoder (root_schema (vector_message Primitive.bool)))
        (slices.from_slice malformed_bools))
      (λ f.
        on_vec (λ v. on_ok reports_malformed (try_into_iter_as (builtin Primitive.bool) v))
          (field_value f))

abbrev three_bytes : LazyVec
three_bytes = new_unchecked PrimitiveTy.u8 3 (Cow.owned (1 ∷ 2 ∷ 3 ∷ []))

abbrev first_then_rest : IntoIter (builtin Primitive.u8) → Bool
first_then_rest it =
    item (on_ok (λ n. n == 1))
      (λ it₁.
        (iter_len (builtin Primitive.u8) (borrow it₁) == 2)
        && drained_is (λ ns. numbers_eq ns (2 ∷ 3 ∷ [])) (collect_owned slices Primitive.u8 3 it₁))
      (next_owned (builtin Primitive.u8) (get_slice slices Primitive.u8) it)

-- `lazy_vector_iterators_can_borrow_or_own_the_payload`
abbrev lazy_vector_iterators_can_borrow_or_own_the_payload : Bool
lazy_vector_iterators_can_borrow_or_own_the_payload =
    iterates_to bitwise slices Primitive.u8 (1 ∷ 2 ∷ 3 ∷ []) three_bytes
    && on_ok first_then_rest (try_into_iter_as (builtin Primitive.u8) three_bytes)

-- `struct Borrowable` and `struct Owned`
abbrev borrowable : Derive.Args
borrowable =
    Fixtures.declared "Borrowable"
      (Body.struct
        (Fixtures.string_field (some "text") ∷ Fixtures.vec_field (some "bytes") Primitive.u8 ∷ []))
      TypeMeta.dynamic

abbrev owned_message : Derive.Args
owned_message =
    Fixtures.declared "Owned"
      (Body.struct (
        Fixtures.string_field (some "text")
        ∷ Fixtures.vec_field (some "bytes") Primitive.u8
        ∷ Fixtures.vec_field (some "values") Primitive.u64
        ∷ []))
      TypeMeta.dynamic

abbrev borrow_me : Bytes
borrow_me = 98 ∷ 111 ∷ 114 ∷ 114 ∷ 111 ∷ 119 ∷ 32 ∷ 109 ∷ 101 ∷ []

abbrev borrows_text : Bytes → Value → Bool
borrows_text text (Value.string (Cow.borrowed xs)) = numbers_eq xs text
borrows_text text _ = false

abbrev borrows_bytes : Bytes → Value → Bool
borrows_bytes content (Value.bytes (Cow.borrowed xs)) = numbers_eq xs content
borrows_bytes content _ = false

abbrev both_borrowed : List Field → Bool
both_borrowed (f₁ ∷ f₂ ∷ []) =
    same_text (field_name f₁) "text"
    && (same_text (field_name f₂) "bytes"
        && (borrows_text borrow_me (field_value f₁)
            && borrows_bytes (5 ∷ 6 ∷ 7 ∷ 8 ∷ []) (field_value f₂)))
both_borrowed _ = false

-- `string_and_bytes_borrow_from_the_input`
abbrev string_and_bytes_borrow_from_the_input : Bool
string_and_bytes_borrow_from_the_input = on_fields both_borrowed (
    decode borrowable (
      serialize borrowable (
        DeclaredValue.struct (
          FieldValues.value refl borrow_me
            (FieldValues.value refl (5 ∷ 6 ∷ 7 ∷ 8 ∷ []) FieldValues.nil)))))

abbrev owns_text : Bytes → Value → Bool
owns_text text (Value.string (Cow.owned xs)) = numbers_eq xs text
owns_text text _ = false

abbrev owns_bytes : Bytes → Value → Bool
owns_bytes content (Value.bytes (Cow.owned xs)) = numbers_eq xs content
owns_bytes content _ = false

abbrev owned_text : Bytes
owned_text = 111 ∷ 119 ∷ 110 ∷ 101 ∷ 100 ∷ []

-- One call of `next` after another, each giving a field.
abbrev on_next :
    (Value → Bool)
    → (Fields ByteReader → Bool)
    → Option (ReadResult Field) × Fields ByteReader
    → Bool
on_next test rest (some (ok f), it) = test (field_value f) && rest it
on_next test rest (some (err e), it) = false
on_next test rest (none, it) = false

abbrev no_field : Option (ReadResult Field) × Fields ByteReader → Bool
no_field (none, it) = true
no_field (some f, it) = false

abbrev all_owned : Fields ByteReader → Bool
all_owned it =
    on_next (owns_text owned_text)
      (λ it₁.
        on_next (owns_bytes (1 ∷ 2 ∷ 3 ∷ []))
          (λ it₂.
            on_next
              (on_vec (λ v.
                not (has_borrowed_payload v)
                && iterates_to bitwise slices Primitive.u64 (10 ∷ 20 ∷ 30 ∷ []) v))
              (λ it₃. no_field (next slices it₃)) (next slices it₂))
          (next slices it₁))
      (next slices it)

-- `Cursor::new(payload)`, which cannot lend its bytes.
abbrev cursor : Bytes → ByteReader
cursor xs = record { bytes = xs; backing = false }

-- `dynamic_values_own_payloads_from_an_owned_reader`
abbrev dynamic_values_own_payloads_from_an_owned_reader : Bool
dynamic_values_own_payloads_from_an_owned_reader = on_ok all_owned (
    fields slices (decoder (root_schema owned_message)) (
      cursor (
        serialize owned_message (
          DeclaredValue.struct (
            FieldValues.value refl owned_text (
              FieldValues.value refl (1 ∷ 2 ∷ 3 ∷ [])
                (FieldValues.value refl (10 ∷ 20 ∷ 30 ∷ []) FieldValues.nil)))))))

lazy_tests_pass :
    (lazy_vector_reports_element_errors_during_iteration ≡ true)
    × (lazy_vector_iterators_can_borrow_or_own_the_payload ≡ true)
    × (string_and_bytes_borrow_from_the_input ≡ true)
    × (dynamic_values_own_payloads_from_an_owned_reader ≡ true)
unfolding serialize decode fields decoder root_schema next field_name field_value iterates_to
    list_eq new_unchecked try_into_iter_as next_owned size_hint iter_len has_borrowed_payload
    collect_owned validate_element_type PrimitiveTy.eq
lazy_tests_pass = (refl, refl, refl, refl)
