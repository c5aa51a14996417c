-- ===== src/Decoder/RoundTrip.antt =====
-- Reflective decoding of a serialized value by its root schema.
use wincode_dynamic.Prelude.{
  ℕ, suc, ◌≡◌, refl, ap, ◌∙◌, List, [], ◌++◌, map, append_assoc, some, get_elem?, length, All,
}
use wincode_dynamic.Wincode.{Wincode, Bytes, Primitive, El, InRange, ok}
use wincode_dynamic.Wincode.Laws.{WincodeLaws}
use wincode_dynamic.PrimitiveTy.{type_of}
use wincode_dynamic.Schema.{Schema, RootSchema}
use wincode_dynamic.Fields.{Fields, schema_fields}
use wincode_dynamic.Fields.Drain.{finished, collect}
use wincode_dynamic.Fields.RoundTrip.{
  Row, row_def, row_field, encode_rows, IsWritableRow, collect-encode_rows,
}
use wincode_dynamic.Decoder.{Decoder, decoder, fields, variant_fields, map_fields}
use wincode_dynamic.Decoder.Tag.{IsTag, decode_variant-put}

-- A value of a Rust struct or enum: its fields, and for an enum the tag of its variant.
pub data Value : Type 0 where
  struct : List Row → Value
  variant : (A : Primitive) → El A → ℕ → List Row → Value

abbrev pub rows_of : Value → List Row
rows_of (Value.struct rows) = rows
rows_of (Value.variant A t n rows) = rows

-- The wire format: the fields in order, behind the tag of an enum.
unfoldable pub encode : (w : Wincode) → Value → Bytes
encode w (Value.struct rows) = encode_rows w rows
encode w (Value.variant A t n rows) = w.put A t ++ encode_rows w rows

-- The schema describes the value: its fields are those of the struct, or of the variant whose
-- index the tag encodes.
abbrev pub Describes : RootSchema → Value → Type 0
Describes (RootSchema.struct s) (Value.struct rows) = s.fields ≡ map row_def rows
Describes (RootSchema.struct s) (Value.variant A t n rows) = ⊥
Describes (RootSchema.enum variants size name tag_encoding) (Value.struct rows) = ⊥
Describes (RootSchema.enum variants size name tag_encoding) (Value.variant A t n rows) =
    (s : Schema) × (tag_encoding ≡ type_of A)
    × IsTag A n t
    × InRange A t
    × (get_elem? variants n ≡ some s)
    × (s.fields ≡ map row_def rows)

module _ (w : Wincode) (laws : WincodeLaws w) where
  open laws use {remaining}

  -- What decoding a value leaves: the iterator is given, it yields the value's fields in schema
  -- order, and the reader stands behind the value.
  abbrev pub Decodes : Decoder → Value → w.Reader → Bytes → Type 0
  Decodes d v r rest =
      (it : Fields w.Reader) × (r' : w.Reader) × (fields w d r ≡ ok it)
      × (collect w (suc (length (rows_of v))) it ≡ (
        finished (ok (map (row_field w (w.supports_borrow r)) (rows_of v))),
        record { fields = []; reader = r' },
      ))
      × (remaining r' ≡ rest)
      × (w.supports_borrow r' ≡ w.supports_borrow r)

  rows_decode :
      (s : Schema) (rows : List Row) (r : w.Reader) (rest : Bytes)
      → s.fields ≡ map row_def rows
      → All (IsWritableRow w laws) rows
      → remaining r ≡ encode_rows w rows ++ rest
      → (r' : w.Reader) × (collect w (suc (length rows)) (schema_fields s r) ≡ (
        finished (ok (map (row_field w (w.supports_borrow r)) rows)),
        record { fields = []; reader = r' },
      ))
        × (remaining r' ≡ rest)
        × (w.supports_borrow r' ≡ w.supports_borrow r)
  unfolding schema_fields
  rows_decode s rows r rest same h e = rw same (collect-encode_rows w laws rows r rest h e)

  -- A serialized struct or enum value is decoded by a root schema that describes it: the fields
  -- that the iterator yields are the value's, in order, and exactly the value's bytes are
  -- consumed. The value's texts and sequences are within the preallocation limit.
  pub decode-encode :
      (root : RootSchema) (v : Value) (r : w.Reader) (rest : Bytes)
      → Describes root v
      → All (IsWritableRow w laws) (rows_of v)
      → remaining r ≡ encode w v ++ rest
      → Decodes (decoder root) v r rest
  unfolding decoder fields encode variant_fields
  decode-encode (RootSchema.struct s) (Value.struct rows) r rest same h e =
      let (r', run, left, borrows) = rows_decode s rows r rest same h e in
      (schema_fields s r, r', refl, run, left, borrows)
  decode-encode (RootSchema.struct s) (Value.variant A t n rows) r rest no_match h e =
      absurd no_match
  decode-encode (RootSchema.enum vs size name tag) (Value.struct rows) r rest no_match h e =
      absurd no_match
  decode-encode (RootSchema.enum vs size name tag) (Value.variant A t n rows) r rest
        (s, same_tag, is_tag, range, known, same) h e =
      let (r₁, picked, left₁, borrows₁) =
        decode_variant-put w laws vs A n t s r (encode_rows w rows ++ rest) is_tag range known
          (e ∙ append_assoc (w.put A t) (encode_rows w rows) rest) in
      let (r', run, left, borrows) = rows_decode s rows r₁ rest same h left₁ in
      (
        schema_fields s r₁,
        r',
        rw same_tag (ap map_fields picked),
        rw (← borrows₁) run,
        left,
        borrows ∙ borrows₁,
      )
