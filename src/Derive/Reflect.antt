-- ===== src/Derive/Reflect.antt =====
-- The schema that the derive macro generates (wincode-dynamic-derive/src/wincode_dynamic.rs)
-- describes the values of the declared type, so that they can be decoded by it.
use wincode_dynamic.Prelude.{
  ℕ, zero, suc, ◌+◌, ◌≡◌, refl, ap, ◌∙◌, String, true, false, List, [], ◌∷◌, ◌++◌, map, Option,
  none, some, get_elem?, All, Bool-cases, Option-cases, inl, inr,
}
use wincode_dynamic.Wincode.{Wincode, Bytes, Primitive, El, InRange, TypeMeta}
use wincode_dynamic.Wincode.Laws.{WincodeLaws}
use wincode_dynamic.Ty.{Datum, type_of}
use wincode_dynamic.Schema.{RootSchema, schema, field_def}
use wincode_dynamic.Fields.RoundTrip.{Row, row_def, IsWritableRow}
use wincode_dynamic.Decoder.{decoder}
use wincode_dynamic.Decoder.Tag.{IsTag}
use wincode_dynamic.Decoder.RoundTrip.{Value, rows_of, encode, Describes, Decodes, decode-encode}
use wincode_dynamic.Derive.{
  Field, Variant, Body, Args, field_to_tokens, field_defs, variant_schema, root_schema,
  schema_of_body, tag_type, to_string, static_size, SerializedSize, Derived, implementation,
  generate, has_valid_tags, max_serialized_size,
}

-- The values of a declaration's fields; a skipped field is not written and has none.
pub data FieldValues : List Field → Type 0 where
  nil : FieldValues []
  skipped : {f : Field} {fs : List Field} → f.skip ≡ true → FieldValues fs → FieldValues (f ∷ fs)
  value :
      {f : Field} {fs : List Field}
      → f.skip ≡ false
      → Datum f.ty
      → FieldValues fs
      → FieldValues (f ∷ fs)

-- The name of a field: its identifier, or its position in the declaration.
abbrev pub name_of : Option String → ℕ → String
name_of (some ident) index = ident
name_of none index = to_string index

-- The size of a field's encoding, where the type that is read has one.
abbrev pub size_read : TypeMeta → Option ℕ
size_read (TypeMeta.static size) = some size
size_read TypeMeta.dynamic = none

-- A written field at a position.
abbrev row_of : (f : Field) → ℕ → Datum f.ty → Row
row_of f index d = record {
  name = name_of f.ident index;
  size = size_read f.read_meta;
  ty = f.ty;
  datum = d;
}

-- The written fields, with the position of each in the declaration.
unfoldable pub rows : ℕ → {fs : List Field} → FieldValues fs → List Row
rows index nil = []
rows index (skipped e vs) = rows (index + 1) vs
rows index (value {f} e d vs) = row_of f index d ∷ rows (index + 1) vs

-- A value of the declared type, with the tag of its variant.
pub data DeclaredValue (tag_encoding : Option Primitive) : Body → Type 0 where
  struct :
      {fields : List Field} → FieldValues fields → DeclaredValue tag_encoding (Body.struct fields)
  variant :
      {variants : List Variant} (n : ℕ) (v : Variant) (t : El (tag_type tag_encoding))
      → get_elem? variants n ≡ some v
      → IsTag (tag_type tag_encoding) n t
      → InRange (tag_type tag_encoding) t
      → FieldValues v.fields
      → DeclaredValue tag_encoding (Body.enum variants)

unfoldable pub to_value :
    (tag_encoding : Option Primitive) {body : Body} → DeclaredValue tag_encoding body → Value
unfolding rows
to_value tag_encoding (struct vs) = Value.struct (rows 0 vs)
to_value tag_encoding (variant n v t g i h vs) =
    Value.variant (tag_type tag_encoding) t n (rows 0 vs)

static_size_lem : (meta : TypeMeta) → static_size meta ≡ size_read meta
unfolding static_size
static_size_lem (TypeMeta.static size) = refl
static_size_lem TypeMeta.dynamic = refl

field_to_tokens_lem :
    (f : Field) (index : ℕ)
    → field_to_tokens f index
      ≡ record { name = name_of f.ident index; ty = type_of f.ty; size = size_read f.read_meta }
unfolding field_to_tokens field_def
field_to_tokens_lem f index = elim (Option-cases f.ident) [
  | inl e ↦ rw (e, static_size_lem f.read_meta)
  | inr (ident, e) ↦ rw (e, static_size_lem f.read_meta)
]

-- The generated definitions are those of the written fields, in declaration order, and an unnamed
-- field keeps its index in the declaration.
pub field_defs-rows :
    (index : ℕ) {fs : List Field} (vs : FieldValues fs)
    → field_defs index fs ≡ map row_def (rows index vs)
unfolding field_defs rows
field_defs-rows index nil = refl
field_defs-rows index (skipped e vs) = rw e (field_defs-rows (index + 1) vs)
field_defs-rows index (value {f} {fs} e d vs) = rw e (
    ap (λ d. d ∷ field_defs (index + 1) fs) (field_to_tokens_lem f index)
    ∙ ap (λ l. row_def (row_of f index d) ∷ l) (field_defs-rows (index + 1) vs))

get_elem?-map {ℓ κ} :
    {A : Type ℓ} {B : Type κ} (f : A → B) (xs : List A) (i : ℕ) {a : A}
    → get_elem? xs i ≡ some a
    → get_elem? (map f xs) i ≡ some (f a)
get_elem?-map f [] i e = cc
get_elem?-map f (x ∷ xs) zero e = let same : x ≡ _ = cc in ap (λ y. some (f y)) same
get_elem?-map f (x ∷ xs) (suc i) e = get_elem?-map f xs i e

-- The generated schema describes every value of the declared type: of the fields that are not
-- skipped, in order, the identifier, or else the position in the declaration, the type, and the size
-- that reading the type has, where it is static; and for an enum the variant at the index that its
-- tag stands for.
pub schema-Describes :
    (ident : String) (meta : TypeMeta) (tag_encoding : Option Primitive) {body : Body}
    (v : DeclaredValue tag_encoding body)
    → Describes (schema_of_body ident meta tag_encoding body) (to_value tag_encoding v)
unfolding schema_of_body to_value schema
schema-Describes ident meta tag_encoding (struct vs) = field_defs-rows 0 vs
schema-Describes ident meta tag_encoding (variant n v t g i h vs) = (
  variant_schema v,
  refl,
  i,
  h,
  get_elem?-map variant_schema _ n g,
  unfold variant_schema in field_defs-rows 0 vs,
)

implementation-eq :
    (size : Option SerializedSize) (root : RootSchema) {size' : SerializedSize} {root' : RootSchema}
    → implementation size root ≡ Derived.schema_dynamic size' root'
    → root ≡ root'
implementation-eq none root e = cc
implementation-eq (some size) root e = cc

generate-eq :
    (tag_meta : TypeMeta) (args : Args) {size : SerializedSize} {root : RootSchema}
    → generate tag_meta args ≡ Derived.schema_dynamic size root
    → root_schema args ≡ root
unfolding generate
generate-eq tag_meta args {size} {root} e = elim (Bool-cases (has_valid_tags args.body)) [
  | inl h ↦
      let run = rw h at e in
      implementation-eq (max_serialized_size tag_meta args) (root_schema args) run
  | inr h ↦ let run = rw h at e in cc
]

-- From declaration to decoded fields: where the derive macro accepts a declaration, the schema
-- that it generates decodes every serialized value of the type whose fields are written in the
-- format of their own types, texts and sequences within the preallocation limit; a skipped field
-- is left out, and exactly the value's bytes are consumed.
pub derive_decode :
    (w : Wincode) (laws : WincodeLaws w) (tag_meta : TypeMeta) (args : Args) (size : SerializedSize)
    (root : RootSchema) (v : DeclaredValue args.tag_encoding args.body) (r : w.Reader)
    (rest : Bytes)
    → generate tag_meta args ≡ Derived.schema_dynamic size root
    → All (IsWritableRow w laws) (rows_of (to_value args.tag_encoding v))
    → laws.remaining r ≡ encode w (to_value args.tag_encoding v) ++ rest
    → Decodes w laws (decoder root) (to_value args.tag_encoding v) r rest
unfolding root_schema
derive_decode w laws tag_meta args size root v r rest made h e =
    let described = schema-Describes args.ident args.read_meta args.tag_encoding v in
    let this = generate-eq tag_meta args made in
    rw (← this)
      (decode-encode w laws (root_schema args) (to_value args.tag_encoding v) r rest described h e)
