-- ===== src/Tests/Messaging.antt =====
-- Messages of the property tests of wincode-dynamic/src/lib.rs, and values that are compared.
use wincode_dynamic.Prelude.{
  negsuc, ◌≡◌, ◌↔◌, ◌++◌, ◌==◌, refl, true, false, List, [], ◌∷◌, map, arith,
}
use wincode_dynamic.Wincode.{Cow, Primitive, ok, size_of}
use wincode_dynamic.Wincode.Slice.{ByteReader, slices, is_ascii}
use wincode_dynamic.Wincode.Slice.Lawful.{slices_laws, slice}
use wincode_dynamic.Value.{Value}
use wincode_dynamic.Value.Eq.{Floats, eq, element_eq, int_eq}
use wincode_dynamic.Value.Contents.{into_owned, eq-contents}
use wincode_dynamic.Fields.{Field, Fields}
use wincode_dynamic.Fields.Drain.{finished, collect}
use wincode_dynamic.Decoder.{decoder, fields}
use wincode_dynamic.Decoder.RoundTrip.{encode}
use wincode_dynamic.Decoder.Contents.{field_contents, decode-contents}
use wincode_dynamic.Messages.{
  StructMessage, arbitrary_struct_fields_match, primitive_vector_property,
}
use wincode_dynamic.Messages.Structs.{IsStructMessage, arbitrary_struct_fields_match_lem}
use wincode_dynamic.Messages.Vectors.{primitive_vector_property_lem}
use wincode_dynamic.Derive.Reflect.{to_value, rows}
use wincode_dynamic.Tests.Data.{message, message_root, message-IsWritable, trailer}

-- Floats compared by their bits.
abbrev bitwise : Floats
bitwise = record { f32_eq = λ m n. m == n; f64_eq = λ m n. m == n }

-- The message of `struct_roundtrip`'s kind.
abbrev sample : StructMessage
sample = record {
  a = 123;
  b = true;
  vals = 1 ∷ 2 ∷ 3 ∷ [];
  str = 104 ∷ 105 ∷ [];
  bytes = 7 ∷ [];
  ar = 444 ∷ 444 ∷ 444 ∷ 444 ∷ [];
  ar_bytes = 43 ∷ 43 ∷ 43 ∷ 43 ∷ 43 ∷ 43 ∷ 43 ∷ 43 ∷ [];
}

sample-IsStructMessage : IsStructMessage slices slices_laws sample
unfolding to_value rows is_ascii size_of
sample-IsStructMessage = (
  omega arith,
  (
    tt,
    (
      ((omega arith, (omega arith, (omega arith, tt))), omega arith),
      (
        (refl, omega arith),
        (
          ((omega arith, tt), omega arith),
          (
            ((omega arith, (omega arith, (omega arith, (omega arith, tt)))), omega arith, refl),
            (
              (
                (
                  omega arith,
                  (
                    omega arith,
                    (
                      omega arith,
                      (omega arith, (omega arith, (omega arith, (omega arith, (omega arith, tt))))),
                    ),
                  ),
                ),
                omega arith,
                refl,
              ),
              tt,
            ),
          ),
        ),
      ),
    ),
  ),
)

arbitrary_struct_fields_match_lem_example :
    arbitrary_struct_fields_match bitwise slices sample ≡ true
arbitrary_struct_fields_match_lem_example =
    arbitrary_struct_fields_match_lem bitwise slices slices_laws sample sample-IsStructMessage

primitive_vector_property_lem_example :
    primitive_vector_property bitwise slices Primitive.i16 (negsuc 4 ∷ negsuc 0 ∷ []) ≡ true
unfolding element_eq int_eq
primitive_vector_property_lem_example =
    primitive_vector_property_lem bitwise slices slices_laws Primitive.i16
      (negsuc 4 ∷ negsuc 0 ∷ []) (λ e. cc) (omega arith, (omega arith, tt)) (omega arith)
      (refl, (refl, tt))

eq-contents_example :
    (eq bitwise (Value.bytes (Cow.borrowed (7 ∷ []))) (Value.bytes (Cow.owned (7 ∷ []))) ≡ true) ↔ (
      into_owned (Value.bytes (Cow.borrowed (7 ∷ [])))
      ≡ into_owned (Value.bytes (Cow.owned (7 ∷ []))))
eq-contents_example =
    eq-contents bitwise (Value.bytes (Cow.borrowed (7 ∷ []))) (Value.bytes (Cow.owned (7 ∷ []))) tt

-- A reader that cannot lend its bytes.
abbrev cursor : ByteReader
cursor = record { bytes = encode slices message ++ []; backing = false }

decode-contents_example :
    (it it' : Fields slices.Reader) × (fs gs : List Field) × (fields slices
        (decoder message_root)
        (slice (encode slices message ++ trailer))
      ≡ ok it)
    × (fields slices (decoder message_root) cursor ≡ ok it')
    × ((collect slices 4 it).0 ≡ finished (ok fs))
    × ((collect slices 4 it').0 ≡ finished (ok gs))
    × (map field_contents fs ≡ map field_contents gs)
decode-contents_example =
    decode-contents slices slices_laws message_root message
      (slice (encode slices message ++ trailer)) cursor trailer [] refl message-IsWritable refl refl
