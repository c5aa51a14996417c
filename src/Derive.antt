-- ===== src/Derive.antt =====
-- wincode-dynamic-derive/src/lib.rs and wincode_dynamic.rs: the derive macro, as the meaning of the
-- code that it generates for a type declaration. Token syntax, `where` clauses and paths leave no
-- trace in it.
pub mod Size
pub mod Bound
pub mod Reflect
pub mod Overflow
pub mod Encoded
pub mod Names
use wincode_dynamic.Prelude.{
  ℕ, zero, suc, ◌+◌, ◌/◌, ◌%◌, String, Bool, true, false, List, [], ◌∷◌, map, Option, none, some,
  ltb, if◌then◌else◌, checked_add,
}
use Prim.Native.Char.{Char}
use wincode_dynamic.Wincode.{Primitive, TypeMeta}
use wincode_dynamic.PrimitiveTy
use wincode_dynamic.Ty.{FieldType, type_of}
use wincode_dynamic.Schema.{FieldDef, Schema, RootSchema, field_def, schema}

-- `struct Field` of the macro: the declared type, the `TYPE_META` of the type as it is read and of
-- its effective type as it is written (the adapter of `with`, if there is one), and `skip`.
pub record Field : Type 0 where
  pub ident : Option String
  pub ty : FieldType
  pub read_meta : TypeMeta
  pub write_meta : TypeMeta
  pub skip : Bool

-- `struct Variant`; `tag` is the expression of an explicit `#[wincode(tag = …)]`.
pub record Variant : Type 0 where
  pub ident : String
  pub fields : List Field
  pub tag : Option String

-- `Data<Variant, Field>`
pub data Body : Type 0 where
  struct : List Field → Body
  enum : List Variant → Body

-- `struct Args`, with the `TYPE_META` that wincode's own derives give the container.
pub record Args : Type 0 where
  pub ident : String
  pub body : Body
  pub tag_encoding : Option Primitive
  pub read_meta : TypeMeta
  pub write_meta : TypeMeta

-- `enum SerializedSize`
pub data SerializedSize : Type 0 where
  static : ℕ → SerializedSize
  dynamic : ℕ → SerializedSize

-- `validate_variant_tags`: whether no variant carries a tag.
unfoldable pub validate_variant_tags : List Variant → Bool
validate_variant_tags [] = true
validate_variant_tags (variant ∷ variants) = elim variant.tag [
  | none ↦ validate_variant_tags variants
  | some _ ↦ false
]

digit : ℕ → Char
digit zero = "0"
digit (suc zero) = "1"
digit (suc (suc zero)) = "2"
digit (suc (suc (suc zero))) = "3"
digit (suc (suc (suc (suc zero)))) = "4"
digit (suc (suc (suc (suc (suc zero))))) = "5"
digit (suc (suc (suc (suc (suc (suc zero)))))) = "6"
digit (suc (suc (suc (suc (suc (suc (suc zero))))))) = "7"
digit (suc (suc (suc (suc (suc (suc (suc (suc zero)))))))) = "8"
digit _ = "9"

decimal : ℕ → ℕ → String → String
decimal zero n acc = acc
decimal (suc fuel) n acc =
    let rest = decimal fuel (n / 10) (String.◌∷◌ (digit (n % 10)) acc) in
    if ltb n 10 then String.◌∷◌ (digit n) acc else rest

-- `index.to_string()`; a number has at most as many digits as its value plus one.
unfoldable pub to_string : ℕ → String
unfolding decimal digit
to_string n = decimal (suc n) n ""

-- The size that a `TYPE_META` states.
unfoldable pub static_size : TypeMeta → Option ℕ
static_size (TypeMeta.static size) = some size
static_size TypeMeta.dynamic = none

-- `field_to_tokens`
unfoldable pub field_to_tokens : Field → ℕ → FieldDef
unfolding to_string static_size field_def
field_to_tokens field index =
    field_def (elim field.ident [ some ident ↦ ident | none ↦ to_string index ]) (type_of field.ty)
      (static_size field.read_meta)

-- `field_write_type_meta`
unfoldable pub field_write_type_meta : Field → TypeMeta
field_write_type_meta field = if field.skip then TypeMeta.static 0 else field.write_meta

-- The loop of `serialized_size` over the fields, with its two variables; `none` is the overflow,
-- at which compilation fails.
unfoldable pub sum_loop : ℕ → Bool → List TypeMeta → Option SerializedSize
sum_loop fixed_size is_static [] =
    some (if is_static then SerializedSize.static fixed_size else SerializedSize.dynamic fixed_size)
sum_loop fixed_size is_static (TypeMeta.static size ∷ fields) = elim (checked_add fixed_size size) [
  | none ↦ none
  | some total ↦ sum_loop total is_static fields
]
sum_loop fixed_size is_static (TypeMeta.dynamic ∷ fields) = sum_loop fixed_size false fields

-- `serialized_size`
unfoldable pub serialized_size : TypeMeta → List TypeMeta → Option SerializedSize
unfolding sum_loop
serialized_size (TypeMeta.static size) fields = some (SerializedSize.static size)
serialized_size TypeMeta.dynamic fields = sum_loop 0 true fields

-- The loop of `enum_serialized_size`: the largest variant, and whether all are static.
unfoldable pub max_loop : ℕ → Bool → List SerializedSize → ℕ × Bool
max_loop maximum is_static [] = (maximum, is_static)
max_loop maximum is_static (SerializedSize.static size ∷ variants) =
    max_loop (if ltb maximum size then size else maximum) is_static variants
max_loop maximum is_static (SerializedSize.dynamic size ∷ variants) =
    max_loop (if ltb maximum size then size else maximum) false variants

-- `tag_size.checked_add(maximum_variant_size).expect(…)`, and the kind of the result.
abbrev pub tagged_size : ℕ → ℕ × Bool → Option SerializedSize
tagged_size tag_size (maximum, is_static) = elim (checked_add tag_size maximum) [
  | none ↦ none
  | some size ↦ some (if is_static then SerializedSize.static size else SerializedSize.dynamic size)
]

abbrev pub largest_variant : TypeMeta → List SerializedSize → Option SerializedSize
largest_variant tag_meta [] = some (SerializedSize.static 0)
largest_variant (TypeMeta.static size) (v ∷ variants) =
    tagged_size size (max_loop 0 true (v ∷ variants))
largest_variant TypeMeta.dynamic (v ∷ variants) = tagged_size 0 (max_loop 0 false (v ∷ variants))

-- `enum_serialized_size`
unfoldable pub enum_serialized_size :
    TypeMeta → TypeMeta → List SerializedSize → Option SerializedSize
unfolding max_loop
enum_serialized_size (TypeMeta.static size) tag_meta variants = some (SerializedSize.static size)
enum_serialized_size TypeMeta.dynamic tag_meta variants = largest_variant tag_meta variants

abbrev pub cons_size :
    Option SerializedSize → Option (List SerializedSize) → Option (List SerializedSize)
cons_size none sizes = none
cons_size (some size) none = none
cons_size (some size) (some sizes) = some (size ∷ sizes)

-- The sizes of the variants, each over its own fields.
unfoldable pub variant_sizes : List Variant → Option (List SerializedSize)
unfolding serialized_size field_write_type_meta
variant_sizes [] = some []
variant_sizes (variant ∷ variants) =
    cons_size (serialized_size TypeMeta.dynamic (map field_write_type_meta variant.fields))
      (variant_sizes variants)

abbrev pub enum_size_of : TypeMeta → TypeMeta → Option (List SerializedSize) → Option SerializedSize
enum_size_of enum_meta tag_meta none = none
enum_size_of enum_meta tag_meta (some sizes) = enum_serialized_size enum_meta tag_meta sizes

-- `match &args.data`, for the `TYPE_META`s that wincode gives the tag type and the container.
unfoldable pub size_of_body : TypeMeta → TypeMeta → Body → Option SerializedSize
unfolding serialized_size enum_serialized_size variant_sizes field_write_type_meta
size_of_body tag_meta meta (Body.struct fields) =
    serialized_size meta (map field_write_type_meta fields)
size_of_body tag_meta meta (Body.enum variants) =
    enum_size_of meta tag_meta (variant_sizes variants)

-- `SERIALIZED_SIZE`
unfoldable pub max_serialized_size : TypeMeta → Args → Option SerializedSize
unfolding size_of_body
max_serialized_size tag_meta args = size_of_body tag_meta args.write_meta args.body

-- `fields.iter().enumerate().filter(|(_, field)| field.skip.is_none()).map(field_to_tokens)`, from
-- an index on.
unfoldable pub field_defs : ℕ → List Field → List FieldDef
unfolding field_to_tokens
field_defs index [] = []
field_defs index (field ∷ fields) =
    if field.skip
    then field_defs (index + 1) fields
    else field_to_tokens field index ∷ field_defs (index + 1) fields

-- `.and_then(|total| match TYPE_META { … })`
unfoldable pub add_field_size : TypeMeta → Option ℕ → Option ℕ
add_field_size meta none = none
add_field_size (TypeMeta.static size) (some total) = checked_add total size
add_field_size TypeMeta.dynamic (some total) = none

-- `Some(0usize)#(#field_sizes)*`, from a total on.
unfoldable pub fold_sizes : Option ℕ → List Field → Option ℕ
unfolding add_field_size
fold_sizes total [] = total
fold_sizes total (field ∷ fields) =
    fold_sizes (if field.skip then total else add_field_size field.read_meta total) fields

unfoldable pub variant_schema : Variant → Schema
unfolding field_defs fold_sizes schema
variant_schema variant =
    schema variant.ident (field_defs 0 variant.fields) (fold_sizes (some 0) variant.fields)

-- `<DefaultConfig as Config>::TagEncoding` is a `u32`.
abbrev pub tag_type : Option Primitive → Primitive
tag_type (some A) = A
tag_type none = Primitive.u32

-- `match &args.data`
unfoldable pub schema_of_body : String → TypeMeta → Option Primitive → Body → RootSchema
unfolding field_defs variant_schema static_size schema
schema_of_body ident meta tag_encoding (Body.struct fields) =
    RootSchema.struct (schema ident (field_defs 0 fields) (static_size meta))
schema_of_body ident meta tag_encoding (Body.enum variants) =
    RootSchema.enum (map variant_schema variants) (static_size meta) ident
      (PrimitiveTy.type_of (tag_type tag_encoding))

-- The `RootSchema` that `schema()` returns.
unfoldable pub root_schema : Args → RootSchema
unfolding schema_of_body
root_schema args = schema_of_body args.ident args.read_meta args.tag_encoding args.body

-- What the macro makes of a declaration: an error of the macro, an overflow when the constant is
-- evaluated, or the implementation of `SchemaDynamic`.
pub data Derived : Type 0 where
  unsupported_tag : Derived
  size_overflow : Derived
  schema_dynamic : (serialized_size : SerializedSize) (schema : RootSchema) → Derived

abbrev pub implementation : Option SerializedSize → RootSchema → Derived
implementation none root = Derived.size_overflow
implementation (some size) root = Derived.schema_dynamic size root

abbrev pub has_valid_tags : Body → Bool
has_valid_tags (Body.struct fields) = true
has_valid_tags (Body.enum variants) = validate_variant_tags variants

-- `generate`
unfoldable pub generate : TypeMeta → Args → Derived
unfolding validate_variant_tags max_serialized_size root_schema
generate tag_meta args =
    if has_valid_tags args.body
    then implementation (max_serialized_size tag_meta args) (root_schema args)
    else Derived.unsupported_tag
