-- ===== src/Messages.antt =====
-- The property tests of wincode-dynamic/src/lib.rs as functions into Bool: each serializes a value
-- of a declared type, decodes it by the derived schema, and compares what it finds.
pub mod Lists
pub mod Structs
pub mod Enums
pub mod Vectors
pub mod Truncated
use wincode_dynamic.Prelude.{
  ℕ, suc, Bool, true, false, ◌&&◌, ◌==◌, ◌%◌, refl, String, List, [], ◌∷◌, map, take, length,
  Option, none, some, arith,
}
use text.Mathlib.Text.{◌==◌ as same_text}
use wincode_dynamic.Wincode.{Wincode, Bytes, Primitive, El, Cow, ReadResult, ok, err, TypeMeta}
use wincode_dynamic.PrimitiveTy
use wincode_dynamic.PrimitiveTy.{PrimitiveTy, builtin}
use wincode_dynamic.Ty.{Ty, FieldType}
use wincode_dynamic.Value.{Value, LazyVec, PrimitiveValue}
use wincode_dynamic.Value.Eq.{Floats, eq, primitive_eq, element_eq, list_eq, bool_eq}
use wincode_dynamic.Lazy.{
  IntoIter, try_into_iter_as, into_dyn_vec, vec_len, vec_ty, is_empty, has_borrowed_payload,
}
use wincode_dynamic.Lazy.Collect
use wincode_dynamic.Lazy.Owned.{collect_owned}
use wincode_dynamic.Read.Uniform.{primitive_value_of}
use wincode_dynamic.Schema.{RootSchema}
use wincode_dynamic.Fields.{Field, Fields, next, field_name, field_ty, field_size, field_value}
use wincode_dynamic.Fields.Drain.{Collected, finished, out_of_fuel, collect}
use wincode_dynamic.Decoder.{decoder, fields}
use wincode_dynamic.Decoder.RoundTrip.{encode}
use wincode_dynamic.Derive
use wincode_dynamic.Derive.{root_schema}
use wincode_dynamic.Derive.Reflect.{FieldValues, DeclaredValue, to_value}
use wincode_dynamic.Tests.Fixtures

-- `struct StructMessage` and `enum EnumMessage`; a text is its UTF-8 bytes.
pub record StructMessage : Type 0 where
  pub a : ℕ
  pub b : Bool
  pub vals : List ℕ
  pub str : Bytes
  pub bytes : Bytes
  pub ar : List ℕ
  pub ar_bytes : Bytes

pub data EnumMessage : Type 0 where
  ping : EnumMessage
  coordinates : ℕ → Bool → EnumMessage
  payload : (text bytes : Bytes) → EnumMessage

abbrev pub struct_value : StructMessage → DeclaredValue none Fixtures.struct_message.body
struct_value m = DeclaredValue.struct (
    FieldValues.value refl m.a (
      FieldValues.value refl m.b (
        FieldValues.value refl m.vals (
          FieldValues.value refl m.str (
            FieldValues.value refl m.bytes
              (FieldValues.value refl m.ar (FieldValues.value refl m.ar_bytes FieldValues.nil)))))))

-- `decoder.fields(payload)` and `collect::<ReadResult<Vec<_>>>()`; the fuel is one call of `next`
-- more than there are fields.
abbrev pub collect_given : (w : Wincode) → ℕ → ReadResult (Fields w.Reader) → Collected (List Field)
collect_given w fuel (ok it) = (collect w fuel it).0
collect_given w fuel (err e) = finished (err e)

unfoldable pub collect_fields : (w : Wincode) → ℕ → RootSchema → Bytes → Collected (List Field)
collect_fields w fuel root xs = collect_given w fuel (fields w (decoder root) (w.from_slice xs))

-- `.unwrap()` before a test of the values.
abbrev pub on_values : (List Value → Bool) → Collected (List Field) → Bool
on_values test (finished (ok fs)) = test (map field_value fs)
on_values test (finished (err e)) = false
on_values test out_of_fuel = false

-- The elements that a lazy vector yields: `try_into_iter_as`, `collect`, `==`.
abbrev pub drained_is : {A : Type 0} → (List A → Bool) → Collect.Collected (List A) → Bool
drained_is test (Collect.finished (ok xs)) = test xs
drained_is test (Collect.finished (err e)) = false
drained_is test Collect.faulted = false
drained_is test Collect.out_of_fuel = false

abbrev pub iterated :
    (w : Wincode) (A : Primitive)
    → ℕ
    → (List (El A) → Bool)
    → ReadResult (IntoIter (builtin A))
    → Bool
iterated w A fuel test (ok it) = drained_is test (collect_owned w A fuel it)
iterated w A fuel test (err e) = false

unfoldable pub iterates_to : Floats → (w : Wincode) (A : Primitive) → List (El A) → LazyVec → Bool
unfolding element_eq list_eq vec_len
iterates_to floats w A xs v =
    iterated w A (suc (vec_len v)) (λ ys. list_eq (element_eq floats A) ys xs)
      (try_into_iter_as (builtin A) v)

-- `let Some(Value::Vec(values)) = fields.next() else { fail }`
abbrev pub on_vec : (LazyVec → Bool) → Value → Bool
on_vec test (Value.vec v) = test v
on_vec test _ = false

-- The assertions of `arbitrary_struct_fields_match`.
abbrev pub struct_matches : Floats → Wincode → StructMessage → List Value → Bool
struct_matches floats w m (v₁ ∷ v₂ ∷ v₃ ∷ v₄ ∷ v₅ ∷ v₆ ∷ v₇ ∷ []) =
    eq floats v₁ (Value.u64 m.a)
    && (eq floats v₂ (Value.bool m.b)
        && (on_vec
              (λ v.
                (vec_len v == length m.vals)
                && (PrimitiveTy.eq (vec_ty v) PrimitiveTy.u64
                    && iterates_to floats w Primitive.u64 m.vals v))
              v₃
            && (eq floats v₄ (Value.string (Cow.borrowed m.str))
                && (eq floats v₅ (Value.bytes (Cow.borrowed m.bytes))
                    && (on_vec (iterates_to floats w Primitive.u64 m.ar) v₆
                        && eq floats v₇ (Value.bytes (Cow.borrowed m.ar_bytes)))))))
struct_matches floats w m _ = false

-- `arbitrary_struct_fields_match`
unfoldable pub arbitrary_struct_fields_match : Floats → Wincode → StructMessage → Bool
unfolding collect_fields
arbitrary_struct_fields_match floats w m = on_values (struct_matches floats w m) (
    collect_fields w 8 (root_schema Fixtures.struct_message)
      (encode w (to_value none (struct_value m))))

abbrev pub enum_value : EnumMessage → DeclaredValue none Fixtures.enum_message.body
enum_value EnumMessage.ping = DeclaredValue.variant 0 _ 0 refl refl (omega arith) FieldValues.nil
enum_value (EnumMessage.coordinates x y) =
    DeclaredValue.variant 1 _ 1 refl refl (omega arith)
      (FieldValues.value refl x (FieldValues.value refl y FieldValues.nil))
enum_value (EnumMessage.payload text content) =
    DeclaredValue.variant 2 _ 2 refl refl (omega arith)
      (FieldValues.value refl text (FieldValues.value refl content FieldValues.nil))

-- `let expected = match &message { … }`
abbrev pub expected_values : EnumMessage → List Value
expected_values EnumMessage.ping = []
expected_values (EnumMessage.coordinates x y) = Value.u64 x ∷ Value.bool y ∷ []
expected_values (EnumMessage.payload text content) =
    Value.string (Cow.borrowed text) ∷ Value.bytes (Cow.borrowed content) ∷ []

-- `arbitrary_enum_fields_match`
unfoldable pub arbitrary_enum_fields_match : Floats → Wincode → EnumMessage → Bool
unfolding collect_fields list_eq eq
arbitrary_enum_fields_match floats w m =
    on_values (λ actual. list_eq (eq floats) actual (expected_values m))
      (collect_fields w (suc (length (expected_values m))) (root_schema Fixtures.enum_message)
        (encode w (to_value none (enum_value m))))

-- `result.is_err()`
abbrev pub is_err : Collected (List Field) → Bool
is_err (finished (ok fs)) = false
is_err (finished (err e)) = true
is_err out_of_fuel = false

-- `arbitrary_truncated_struct_is_rejected`: `payload.truncate(cut_seed % payload.len())`
unfoldable pub arbitrary_truncated_struct_is_rejected : Wincode → StructMessage → ℕ → Bool
unfolding collect_fields
arbitrary_truncated_struct_is_rejected w m cut_seed =
    let full = encode w (to_value none (struct_value m)) in
    is_err (
      collect_fields w 8 (root_schema Fixtures.struct_message) (take (cut_seed % length full) full))

-- `struct Message { values: Vec<$ty> }` of `primitive_vector_property`
abbrev pub vector_message : Primitive → Derive.Args
vector_message A =
    Fixtures.declared "Message" (Derive.Body.struct (Fixtures.vec_field (some "values") A ∷ []))
      TypeMeta.dynamic

abbrev pub vector_value : (A : Primitive) → List (El A) → DeclaredValue none (vector_message A).body
vector_value A xs = DeclaredValue.struct (FieldValues.value refl xs FieldValues.nil)

-- `.fields(payload).unwrap().next().unwrap().unwrap()`
abbrev pub first_item : Option (ReadResult Field) → (Field → Bool) → Bool
first_item (some (ok f)) test = test f
first_item (some (err e)) test = false
first_item none test = false

abbrev pub first_field : (w : Wincode) → ReadResult (Fields w.Reader) → (Field → Bool) → Bool
first_field w (ok it) test = first_item (next w it).0 test
first_field w (err e) test = false

-- `matches!(value.ty(), Ty::Vec { .. })`
abbrev pub is_vec : Ty → Bool
is_vec (Ty.vec ty) = true
is_vec _ = false

abbrev pub is_none {ℓ} : {A : Type ℓ} → Option A → Bool
is_none none = true
is_none (some a) = false

-- `lazy.clone().into_dyn_vec().unwrap() == expected`
abbrev pub dyn_vec_is : (List PrimitiveValue → Bool) → ReadResult (List PrimitiveValue) → Bool
dyn_vec_is test (ok xs) = test xs
dyn_vec_is test (err e) = false

abbrev pub lazy_matches : Floats → (w : Wincode) (A : Primitive) → List (El A) → LazyVec → Bool
lazy_matches floats w A xs lazy =
    (vec_len lazy == length xs)
    && (bool_eq (is_empty lazy) (length xs == 0)
        && (has_borrowed_payload lazy
            && (dyn_vec_is (λ ys. list_eq (primitive_eq floats) ys (map (primitive_value_of A) xs))
                  (into_dyn_vec w lazy)
                && iterates_to floats w A xs lazy)))

-- `primitive_vector_property`, for an element type.
unfoldable pub primitive_vector_property :
    Floats → (w : Wincode) (A : Primitive) → List (El A) → Bool
unfolding iterates_to primitive_eq
primitive_vector_property floats w A xs =
    first_field w
      (fields w (decoder (root_schema (vector_message A)))
        (w.from_slice (encode w (to_value none (vector_value A xs)))))
      (λ f.
        same_text (field_name f) "values"
        && (is_vec (field_ty f)
            && (is_none (field_size f) && on_vec (lazy_matches floats w A xs) (field_value f))))
