-- ===== src/Messages/Vectors.antt =====
-- `primitive_vector_property` of wincode-dynamic/src/lib.rs, for every element type and vector.
use wincode_dynamic.Prelude.{
  suc, ◌*◌, ◌≤◌, ◌≡◌, ◌≢◌, ◌==◌, refl, ap, ◌∙◌, true, none, List, [], ◌∷◌, ◌++◌, map, length, All,
}
use wincode_dynamic.Wincode.{Wincode, Primitive, El, InRange, ok}
use wincode_dynamic.Wincode.Laws.{WincodeLaws}
use wincode_dynamic.Ty.{FieldType, type_of}
use wincode_dynamic.Value.{LazyVec}
use wincode_dynamic.Value.Eq.{Floats, element_eq, primitive_eq}
use wincode_dynamic.Read.{size_of_primitive_value}
use wincode_dynamic.Read.Uniform.{primitive_value_of}
use wincode_dynamic.PrimitiveTy.{builtin}
use wincode_dynamic.Lazy.{Iter, try_iter_as, vec_len}
use wincode_dynamic.Lazy.Collect.{collect, finished}
use wincode_dynamic.Lazy.Owned.{try_into_iter_as-ok, collect_owned-collect}
use wincode_dynamic.Lazy.Vectors.{parse-collect}
use wincode_dynamic.Parse.RoundTrip.{serialize}
use wincode_dynamic.Schema.{FieldDef}
use wincode_dynamic.Fields.{
  parse_field, field_name, field_ty, field_size, field_value, schema_fields,
}
use wincode_dynamic.Fields.Drain.{next-ok}
use wincode_dynamic.Fields.RoundTrip.{encode_rows}
use wincode_dynamic.Decoder.{decoder, fields}
use wincode_dynamic.Decoder.RoundTrip.{encode}
use wincode_dynamic.Derive.{root_schema}
use wincode_dynamic.Derive.Reflect.{to_value, rows}
use wincode_dynamic.Messages.{iterates_to, primitive_vector_property}
use wincode_dynamic.Messages.Lists.{EqualsItself, both, ==_refl, bool_eq_refl, list_eq_refl}

-- A value is equal to itself exactly where its element is.
primitive_eq-primitive_value_of :
    (floats : Floats) (A : Primitive) (x : El A)
    → primitive_eq floats (primitive_value_of A x) (primitive_value_of A x)
      ≡ element_eq floats A x x
unfolding primitive_eq primitive_value_of element_eq
primitive_eq-primitive_value_of floats Primitive.u8 x = refl
primitive_eq-primitive_value_of floats _ x = refl

primitive_values_equal :
    (floats : Floats) (A : Primitive) (xs : List (El A))
    → All (EqualsItself floats A) xs
    → All (λ v. primitive_eq floats v v ≡ true) (map (primitive_value_of A) xs)
primitive_values_equal floats A [] h = tt
primitive_values_equal floats A (x ∷ xs) (h, k) =
    (primitive_eq-primitive_value_of floats A x ∙ h, primitive_values_equal floats A xs k)

iterates_to-collect :
    (floats : Floats) (w : Wincode) (A : Primitive) (xs : List (El A)) (v : LazyVec)
    (it : Iter (builtin A))
    → vec_len v ≡ length xs
    → try_iter_as (builtin A) v ≡ ok it
    → collect w A (suc (length xs)) it ≡ finished (ok xs)
    → All (EqualsItself floats A) xs
    → iterates_to floats w A xs v ≡ true
unfolding iterates_to
iterates_to-collect floats w A xs v it count made run equal =
    let (owning, given, same) = try_into_iter_as-ok (builtin A) v it made in
    let drained =
      collect_owned-collect w A (suc (length xs)) owning
      ∙ ap (collect w A (suc (length xs))) same
      ∙ run in
    rw (given, count, drained) (list_eq_refl (element_eq floats A) xs equal)

-- For every element type but `u8`, and every vector of its values that is within the preallocation
-- limit of eager decoding and whose elements equal themselves (no NaN), the first field that is
-- decoded from the serialized message has the name, a vector type and no static size, and is a lazy
-- vector with the vector's length, empty where it is, that borrows its payload; both its eager and
-- its lazy decoding give the elements.
pub primitive_vector_property_lem :
    (floats : Floats) (w : Wincode) (laws : WincodeLaws w) (A : Primitive) (xs : List (El A))
    → A ≢ Primitive.u8
    → All (InRange A) xs
    → length xs * size_of_primitive_value ≤ w.prealloc_limit
    → All (EqualsItself floats A) xs
    → primitive_vector_property floats w A xs ≡ true
unfolding primitive_vector_property root_schema to_value rows encode encode_rows decoder fields
    schema_fields field_name field_ty field_size field_value parse_field type_of
primitive_vector_property_lem floats w laws A xs other range fits equal =
    let bytes = serialize w (FieldType.vec A) xs in
    let def : FieldDef = record { name = "values"; ty = type_of (FieldType.vec A); size = none } in
    let r = w.from_slice (bytes ++ []) in
    let (v, read, count, _, empty, lends, (it, made, run), eager) =
      parse-collect w laws A xs r [] other range fits (laws.remaining-from_slice (bytes ++ [])) in
    let first = next-ok w def [] r read in
    rw first (
      both refl (
        both refl (
          both refl (
            both (ap (λ n. n == length xs) count ∙ ==_refl (length xs)) (
              both (rw empty (bool_eq_refl (length xs == 0))) (
                both (lends ∙ laws.from_slice_borrows (bytes ++ [])) (
                  both
                    (rw eager (
                      list_eq_refl (primitive_eq floats) (map (primitive_value_of A) xs)
                        (primitive_values_equal floats A xs equal)))
                    (iterates_to-collect floats w A xs v it count made run equal))))))))
