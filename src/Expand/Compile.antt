-- ===== src/Expand/Compile.antt =====
-- wincode-dynamic-derive/src/wincode_dynamic.rs: `generate` on a parsed declaration, and what the
-- compiler makes of the code that it generates.
pub mod Elaborate
pub mod Complete
pub mod Cases
pub mod Decodes
use wincode_dynamic.Prelude.{
  Bool, true, false, String, List, [], ◌∷◌, Option, none, some, if◌then◌else◌, ◌&&◌,
}
use wincode_dynamic.Wincode.{Primitive, TypeMeta}
use wincode_dynamic.Ty.{FieldType}
use wincode_dynamic.Syntax.{RustType}
use wincode_dynamic.Adapter.{target_resolved}
use wincode_dynamic.Schema.{RootSchema}
use wincode_dynamic.Derive
use wincode_dynamic.Derive.{SerializedSize, Derived}
use wincode_dynamic.Expand.{Field, Variant, Body, Args, Predicate, where_clause, target_of}
use wincode_dynamic.Expand.Traits.{Traits}

-- What `generate` gives: the error of `validate_variant_tags`, the panic in the visit of an adapter,
-- or the implementation, with the predicates that it adds.
pub data Expansion : Type 0 where
  unsupported_tag : Expansion
  panics : Expansion
  implementation : List Predicate → Expansion

-- `validate_variant_tags`: whether no variant carries a tag.
unfoldable pub validate_variant_tags : List Variant → Bool
validate_variant_tags [] = true
validate_variant_tags (variant ∷ variants) = elim variant.tag [
  | none ↦ validate_variant_tags variants
  | some _ ↦ false
]

-- `if let Data::Enum(variants) = &args.data`
abbrev pub has_valid_tags : Body → Bool
has_valid_tags (Body.struct fields) = true
has_valid_tags (Body.enum variants) = validate_variant_tags variants

abbrev pub expansion : Option (List Predicate) → Expansion
expansion none = Expansion.panics
expansion (some predicates) = Expansion.implementation predicates

-- `generate`: the tags before the adapters.
unfoldable pub generate : Args → Expansion
unfolding validate_variant_tags where_clause
generate args =
    if has_valid_tags args.body then expansion (where_clause args) else Expansion.unsupported_tag

abbrev pub cons_option {ℓ} : {A : Type ℓ} → Option A → Option (List A) → Option (List A)
cons_option (some a) (some rest) = some (a ∷ rest)
cons_option (some a) none = none
cons_option none rest = none

module _ (traits : Traits) where
  -- The constants of a field that is not skipped: `DynTy::TYPE`, and the two `TYPE_META`s.
  abbrev pub kept :
      Option String
      → Option FieldType
      → Option (TypeMeta × RustType)
      → Option (TypeMeta × RustType)
      → Option Derive.Field
  kept ident (some ty) (some (read, dst)) (some (write, src)) =
      some (record { ident = ident; ty = ty; read_meta = read; write_meta = write; skip = false })
  kept ident none read write = none
  kept ident (some ty) none write = none
  kept ident (some ty) (some read) none = none

  -- `<target as SchemaWrite>`
  abbrev pub write_of : Option RustType → Option (TypeMeta × RustType)
  write_of none = none
  write_of (some target) = traits.schema_write target

  -- What the code that is generated for a field evaluates to; `none` is a constant of a trait that
  -- its type does not have. No constant of a skipped field is named.
  unfoldable pub compile_field : Field → Option Derive.Field
  compile_field field = elim field.skip [
    | none ↦
        kept field.ident (traits.dyn_ty field.ty) (traits.schema_read field.ty)
          (write_of (target_of (target_resolved field.ty field.adapter)))
    | some _ ↦ some (record {
      ident = field.ident;
      ty = FieldType.string;
      read_meta = TypeMeta.dynamic;
      write_meta = TypeMeta.dynamic;
      skip = true;
    })
  ]

  unfoldable pub compile_fields : List Field → Option (List Derive.Field)
  unfolding compile_field
  compile_fields [] = some []
  compile_fields (field ∷ fields) = cons_option (compile_field field) (compile_fields fields)

  abbrev pub variant_of : Variant → Option (List Derive.Field) → Option Derive.Variant
  variant_of variant none = none
  variant_of variant (some fields) =
      some (record { ident = variant.ident; fields = fields; tag = variant.tag })

  unfoldable pub compile_variants : List Variant → Option (List Derive.Variant)
  unfolding compile_fields
  compile_variants [] = some []
  compile_variants (variant ∷ variants) =
      cons_option (variant_of variant (compile_fields variant.fields)) (compile_variants variants)

  abbrev pub struct_of : Option (List Derive.Field) → Option Derive.Body
  struct_of none = none
  struct_of (some fields) = some (Derive.Body.struct fields)

  abbrev pub enum_of : Option (List Derive.Variant) → Option Derive.Body
  enum_of none = none
  enum_of (some variants) = some (Derive.Body.enum variants)

  unfoldable pub compile_body : Body → Option Derive.Body
  unfolding compile_fields compile_variants
  compile_body (Body.struct fields) = struct_of (compile_fields fields)
  compile_body (Body.enum variants) = enum_of (compile_variants variants)

  -- `<tag_encoding as DynPrimitiveTy>` and `<tag_encoding as SchemaWrite>::TYPE_META`, of which
  -- the default encoding has `default_meta`; named in the code of an enum only.
  abbrev pub explicit_tag :
      Option Primitive → Option (TypeMeta × RustType) → Option (Option Primitive × TypeMeta)
  explicit_tag (some A) (some (meta, src)) = some (some A, meta)
  explicit_tag (some A) none = none
  explicit_tag none write = none

  unfoldable pub compile_tag :
      TypeMeta → Body → Option RustType → Option (Option Primitive × TypeMeta)
  compile_tag default_meta (Body.struct fields) ty = some (none, default_meta)
  compile_tag default_meta (Body.enum variants) none = some (none, default_meta)
  compile_tag default_meta (Body.enum variants) (some ty) =
      explicit_tag (traits.dyn_primitive_ty ty) (traits.schema_write ty)

  abbrev pub assemble :
      String
      → Option Derive.Body
      → Option (Option Primitive × TypeMeta)
      → Option TypeMeta
      → Option TypeMeta
      → Option (TypeMeta × Derive.Args)
  assemble ident (some body) (some (tag, tag_meta)) (some read) (some write) = some (
    tag_meta,
    record { ident = ident; body = body; tag_encoding = tag; read_meta = read; write_meta = write },
  )
  assemble ident (some body) (some tag) (some read) none = none
  assemble ident (some body) (some tag) none write = none
  assemble ident (some body) none read write = none
  assemble ident none tag read write = none

  -- The constants that the code of a declaration names, with the `TYPE_META` of its tag type.
  unfoldable pub compile : TypeMeta → Args → Option (TypeMeta × Derive.Args)
  unfolding compile_body compile_tag
  compile default_meta args =
      assemble args.ident (compile_body args.body)
        (compile_tag default_meta args.body args.tag_encoding) traits.container_read
        traits.container_write

-- What becomes of a declaration: an error or a panic of the macro, an implementation that a trait
-- is missing for, an overflow when `SERIALIZED_SIZE` is evaluated, or a `SchemaDynamic`.
pub data Outcome : Type 0 where
  unsupported_tag : Outcome
  panics : Outcome
  missing_trait : Outcome
  size_overflow : Outcome
  schema_dynamic : (serialized_size : SerializedSize) (schema : RootSchema) → Outcome

abbrev pub evaluated : Derived → Outcome
evaluated Derived.unsupported_tag = Outcome.unsupported_tag
evaluated Derived.size_overflow = Outcome.size_overflow
evaluated (Derived.schema_dynamic size schema) = Outcome.schema_dynamic size schema

abbrev pub run : Option (TypeMeta × Derive.Args) → Outcome
run none = Outcome.missing_trait
run (some (tag_meta, meaning)) = evaluated (Derive.generate tag_meta meaning)

-- `predicates.iter().all(holds)`
unfoldable pub all_hold : (Predicate → Bool) → List Predicate → Bool
all_hold holds [] = true
all_hold holds (p ∷ ps) = holds p && all_hold holds ps

abbrev pub outcome : Traits → (Predicate → Bool) → TypeMeta → Args → Expansion → Outcome
outcome traits holds default_meta args Expansion.unsupported_tag = Outcome.unsupported_tag
outcome traits holds default_meta args Expansion.panics = Outcome.panics
outcome traits holds default_meta args (Expansion.implementation predicates) =
    if all_hold holds predicates
    then run (compile traits default_meta args)
    else Outcome.missing_trait

-- `#[derive(SchemaDynamic)]` on a declaration, where the compiler finds that predicates hold.
unfoldable pub derive : Traits → (Predicate → Bool) → TypeMeta → Args → Outcome
unfolding generate compile all_hold
derive traits holds default_meta args = outcome traits holds default_meta args (generate args)
