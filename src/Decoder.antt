-- ===== src/Decoder.antt =====
-- wincode-dynamic/src/lib.rs: `Decoder`, `SchemaDecoder`, `EnumDecoder` and `VariantDecoder`,
-- which select the fields of a payload by a runtime schema.
pub mod Tag
pub mod RoundTrip
pub mod Stream
pub mod Select
pub mod Cut
pub mod Contents
pub mod Total
use wincode_dynamic.Prelude.{ℕ, String, List, Option, none, some, get_elem?}
use wincode_dynamic.Wincode.{Wincode, ReadResult, ReadError, ok, err}
use wincode_dynamic.PrimitiveTy.{PrimitiveTy}
use wincode_dynamic.Parse.{parse_into_usize}
use wincode_dynamic.Schema.{Schema, RootSchema}
use wincode_dynamic.Fields.{Fields, schema_fields}

-- `struct EnumDecoder`
pub record EnumDecoder : Type 0 where
  pub variants : List Schema
  pub tag_encoding : PrimitiveTy

-- `struct VariantDecoder`
pub record VariantDecoder (R : Type 0) : Type 0 where
  pub schema : Schema
  pub reader : R

-- `struct SchemaDecoder`, a borrowed schema.
abbrev pub SchemaDecoder : Type 0
SchemaDecoder = Schema

-- `enum Decoder`
pub data Decoder : Type 0 where
  struct : SchemaDecoder → Decoder
  enum : EnumDecoder → Decoder

-- `Decoder::new`
unfoldable pub decoder : RootSchema → Decoder
decoder (RootSchema.struct s) = Decoder.struct s
decoder (RootSchema.enum variants _ _ tag_encoding) =
    Decoder.enum (record { variants = variants; tag_encoding = tag_encoding })

-- `RootSchema::decoder`
unfoldable pub root_decoder : RootSchema → Decoder
unfolding decoder
root_decoder schema = decoder schema

-- `SchemaDecoder::fields`
abbrev pub struct_fields : {R : Type 0} → SchemaDecoder → R → Fields R
struct_fields d reader = schema_fields d reader

-- `.ok_or_else(|| invalid_tag_encoding(disc))?`, and the decoder of the variant.
abbrev pub selected : {R : Type 0} → ℕ → R → Option Schema → ReadResult (VariantDecoder R)
selected disc reader none = err (ReadError.invalid_tag_encoding disc)
selected disc reader (some schema) = ok (record { schema = schema; reader = reader })

-- `self.variants.get(disc)`, behind the `?` on the tag.
abbrev pub select : {R : Type 0} → List Schema → ReadResult ℕ × R → ReadResult (VariantDecoder R)
select variants (ok disc, reader) = selected disc reader (get_elem? variants disc)
select variants (err e, reader) = err e

-- `EnumDecoder::decode_variant`
unfoldable pub decode_variant :
    (w : Wincode) → EnumDecoder → w.Reader → ReadResult (VariantDecoder w.Reader)
decode_variant w d reader = select d.variants (parse_into_usize w d.tag_encoding reader)

-- `VariantDecoder::variant_name`
unfoldable pub variant_name : {R : Type 0} → VariantDecoder R → String
variant_name d = d.schema.name

-- `VariantDecoder::fields`, which is `into_iter` too.
unfoldable pub variant_fields : {R : Type 0} → VariantDecoder R → Fields R
unfolding schema_fields
variant_fields d = schema_fields d.schema d.reader

abbrev map_fields : {R : Type 0} → ReadResult (VariantDecoder R) → ReadResult (Fields R)
map_fields (ok d) = ok (variant_fields d)
map_fields (err e) = err e

-- `Decoder::fields`
unfoldable pub fields : (w : Wincode) → Decoder → w.Reader → ReadResult (Fields w.Reader)
unfolding decode_variant variant_fields schema_fields
fields w (Decoder.struct d) reader = ok (struct_fields d reader)
fields w (Decoder.enum d) reader = map_fields (decode_variant w d reader)
