-- ===== src/Derive/Encoded.antt =====
-- `SERIALIZED_SIZE` (wincode-dynamic-derive/src/wincode_dynamic.rs) against the serialized values.
use wincode_dynamic.Prelude.{
  ℕ, ◌+◌, ◌≤◌, ◌≡◌, refl, List, [], ◌∷◌, map, Option, none, some, length, length-append, Bool-cases,
  inl, inr, arith,
}
use wincode_dynamic.Wincode.{Wincode, Primitive, TypeMeta, size_of}
use wincode_dynamic.Wincode.Laws.{WincodeLaws}
use wincode_dynamic.Parse.RoundTrip.{serialize}
use wincode_dynamic.Schema.{RootSchema}
use wincode_dynamic.Fields.RoundTrip.{encode_rows}
use wincode_dynamic.Decoder.RoundTrip.{encode}
use wincode_dynamic.Derive.{
  Field, Body, Args, SerializedSize, Derived, field_write_type_meta, tag_type, max_serialized_size,
  has_valid_tags, implementation, generate,
}
use wincode_dynamic.Derive.Size.{sum, MetaFits, Fits}
use wincode_dynamic.Derive.Bound.{IsEncodedLength, max_serialized_size_bound}
use wincode_dynamic.Derive.Reflect.{FieldValues, rows, DeclaredValue, to_value}

module _ (w : Wincode) where
  -- The bytes that each field takes, of which a skipped one takes none.
  field_lens : {fs : List Field} → FieldValues fs → List ℕ
  field_lens FieldValues.nil = []
  field_lens (FieldValues.skipped e vs) = 0 ∷ field_lens vs
  field_lens (FieldValues.value {f} e d vs) = length (serialize w f.ty d) ∷ field_lens vs

  -- The `TYPE_META` of each written field states the length of its encoding, where it is static.
  abbrev pub FieldsFit : {fs : List Field} → FieldValues fs → Type 0
  FieldsFit FieldValues.nil = Unit
  FieldsFit (FieldValues.skipped e vs) = FieldsFit vs
  FieldsFit (FieldValues.value {f} e d vs) =
      MetaFits f.write_meta (length (serialize w f.ty d)) × FieldsFit vs

  -- The same of a value, with its tag.
  abbrev pub ValueFits :
      TypeMeta
      → (tag_encoding : Option Primitive) {body : Body} → DeclaredValue tag_encoding body
      → Type 0
  ValueFits tag_meta tag_encoding (DeclaredValue.struct vs) = FieldsFit vs
  ValueFits tag_meta tag_encoding (DeclaredValue.variant n v t g i h vs) =
      MetaFits tag_meta (size_of (tag_type tag_encoding)) × FieldsFit vs

  field_lens-Fits :
      {fs : List Field} (vs : FieldValues fs)
      → FieldsFit vs
      → Fits (map field_write_type_meta fs) (field_lens vs)
  unfolding field_lens field_write_type_meta
  field_lens-Fits FieldValues.nil h = tt
  field_lens-Fits (FieldValues.skipped e vs) h = rw e (refl, field_lens-Fits vs h)
  field_lens-Fits (FieldValues.value e d vs) (h, k) = rw e (h, field_lens-Fits vs k)

  sum-field_lens :
      (index : ℕ) {fs : List Field} (vs : FieldValues fs)
      → length (encode_rows w (rows index vs)) ≡ sum (field_lens vs)
  unfolding field_lens rows encode_rows sum
  sum-field_lens index FieldValues.nil = refl
  sum-field_lens index (FieldValues.skipped e vs) = omega (arith, sum-field_lens (index + 1) vs)
  sum-field_lens index (FieldValues.value {f} e d vs) = omega (
    arith,
    length-append (serialize w f.ty d) (encode_rows w (rows (index + 1) vs)),
    sum-field_lens (index + 1) vs,
  )

module _ (w : Wincode) (laws : WincodeLaws w) where
  encode-IsEncodedLength :
      (tag_meta : TypeMeta) (tag_encoding : Option Primitive) {body : Body}
      (v : DeclaredValue tag_encoding body)
      → ValueFits w tag_meta tag_encoding v
      → IsEncodedLength tag_meta body (length (encode w (to_value tag_encoding v)))
  unfolding encode to_value
  encode-IsEncodedLength tag_meta tag_encoding (DeclaredValue.struct vs) h =
      (field_lens w vs, field_lens-Fits w vs h, sum-field_lens w 0 vs)
  encode-IsEncodedLength tag_meta tag_encoding (DeclaredValue.variant n v t g i h vs) (tag, k) = (
    n,
    v,
    size_of (tag_type tag_encoding),
    field_lens w vs,
    g,
    tag,
    field_lens-Fits w vs k,
    omega (
      arith,
      length-append (w.put (tag_type tag_encoding) t) (encode_rows w (rows 0 vs)),
      laws.length-put (tag_type tag_encoding) t,
      sum-field_lens w 0 vs,
    ),
  )

  implementation-size :
      (size : Option SerializedSize) (root : RootSchema) {size' : SerializedSize}
      {root' : RootSchema}
      → implementation size root ≡ Derived.schema_dynamic size' root'
      → size ≡ some size'
  implementation-size none root e = cc
  implementation-size (some size) root e = cc

  generate-size :
      (tag_meta : TypeMeta) (args : Args) {size : SerializedSize} {root : RootSchema}
      → generate tag_meta args ≡ Derived.schema_dynamic size root
      → max_serialized_size tag_meta args ≡ some size
  unfolding generate
  generate-size tag_meta args {size} {root} e = elim (Bool-cases (has_valid_tags args.body)) [
    | inl h ↦ implementation-size (max_serialized_size tag_meta args) _ (rw h at e)
    | inr h ↦ let run = rw h at e in cc
  ]

  -- Where the derive macro accepts a declaration with a static `SERIALIZED_SIZE`, no serialized
  -- value of the type is longer than that, for fields, tags and containers whose static
  -- `TYPE_META`s state the lengths of their encodings.
  pub derive-within_size :
      (tag_meta : TypeMeta) (args : Args) (n : ℕ) (root : RootSchema)
      (v : DeclaredValue args.tag_encoding args.body)
      → generate tag_meta args ≡ Derived.schema_dynamic (SerializedSize.static n) root
      → ValueFits w tag_meta args.tag_encoding v
      → MetaFits args.write_meta (length (encode w (to_value args.tag_encoding v)))
      → length (encode w (to_value args.tag_encoding v)) ≤ n
  derive-within_size tag_meta args n root v made fits whole =
      max_serialized_size_bound tag_meta args (length (encode w (to_value args.tag_encoding v))) n
        (generate-size tag_meta args made)
        (encode-IsEncodedLength tag_meta args.tag_encoding v fits) whole
