-- ===== src/Expand/Traits.antt =====
-- wincode-dynamic-derive/src/wincode_dynamic.rs: the generated code under the traits that the
-- compiler finds, and the `where` clause as what the generated code needs.
use wincode_dynamic.Prelude.{◌≡◌, List, [], ◌∷◌, Option, none, some}
use wincode_dynamic.Wincode.{Primitive, TypeMeta}
use wincode_dynamic.Ty.{FieldType}
use wincode_dynamic.Syntax.{RustType}
use wincode_dynamic.Adapter.{target_resolved}
use wincode_dynamic.Derive
use wincode_dynamic.Expand.{SkipMode, Field, Variant, Body, Args, Predicate, is_some, target_of}

-- The trait implementations in scope of a generated implementation: `DynTy` with its `TYPE`,
-- `SchemaRead` with its `TYPE_META` and `Dst`, `SchemaWrite` with its `TYPE_META` and `Src`, those of
-- the container itself, and `DynPrimitiveTy`, of each type at most one.
pub record Traits : Type 0 where
  pub dyn_ty : RustType → Option FieldType
  pub schema_read : RustType → Option (TypeMeta × RustType)
  pub schema_write : RustType → Option (TypeMeta × RustType)
  pub container_read : Option TypeMeta
  pub container_write : Option TypeMeta
  pub dyn_primitive_ty : RustType → Option Primitive

module _ (traits : Traits) where
  -- A predicate of a `where` clause holds.
  abbrev pub Holds : Predicate → Type 0
  Holds Predicate.container_write = (meta : TypeMeta) × (traits.container_write ≡ some meta)
  Holds Predicate.container_read = (meta : TypeMeta) × (traits.container_read ≡ some meta)
  Holds (Predicate.dyn_ty ty) = (t : FieldType) × (traits.dyn_ty ty ≡ some t)
  Holds (Predicate.schema_read ty dst) =
      (meta : TypeMeta) × (traits.schema_read ty ≡ some (meta, dst))
  Holds (Predicate.schema_write target src) =
      (meta : TypeMeta) × (traits.schema_write target ≡ some (meta, src))

  -- The constants that the generated code names for a field, and for which it compiles: `<ty as
  -- DynTy>::TYPE`, `<ty as SchemaRead>::TYPE_META`, `<target as SchemaWrite>::TYPE_META`. None of a
  -- skipped field.
  abbrev Uses : Option SkipMode → Field → Derive.Field → Type 0
  Uses (some mode) field meaning = Unit
  Uses none field meaning =
      (traits.dyn_ty field.ty ≡ some meaning.ty)
      × ((dst : RustType) × (traits.schema_read field.ty ≡ some (meaning.read_meta, dst)))
      × ((target : RustType) × (target_of (target_resolved field.ty field.adapter) ≡ some target)
          × ((src : RustType) × (traits.schema_write target ≡ some (meaning.write_meta, src))))

  -- The meaning of the code that is generated for a field, for fields, for a variant, for variants,
  -- for a body, for a declaration.
  abbrev pub FieldMeans : Field → Derive.Field → Type 0
  FieldMeans field meaning =
      (meaning.ident ≡ field.ident)
      × (meaning.skip ≡ is_some field.skip)
      × Uses field.skip field meaning

  abbrev pub FieldsMean : List Field → List Derive.Field → Type 0
  FieldsMean [] [] = Unit
  FieldsMean [] (m ∷ ms) = ⊥
  FieldsMean (f ∷ fs) [] = ⊥
  FieldsMean (f ∷ fs) (m ∷ ms) = FieldMeans f m × FieldsMean fs ms

  abbrev pub VariantMeans : Variant → Derive.Variant → Type 0
  VariantMeans variant meaning =
      (meaning.ident ≡ variant.ident)
      × (meaning.tag ≡ variant.tag)
      × FieldsMean variant.fields meaning.fields

  abbrev pub VariantsMean : List Variant → List Derive.Variant → Type 0
  VariantsMean [] [] = Unit
  VariantsMean [] (m ∷ ms) = ⊥
  VariantsMean (v ∷ vs) [] = ⊥
  VariantsMean (v ∷ vs) (m ∷ ms) = VariantMeans v m × VariantsMean vs ms

  abbrev pub BodyMeans : Body → Derive.Body → Type 0
  BodyMeans (Body.struct fields) (Derive.Body.struct meanings) = FieldsMean fields meanings
  BodyMeans (Body.struct fields) (Derive.Body.enum meanings) = ⊥
  BodyMeans (Body.enum variants) (Derive.Body.struct meanings) = ⊥
  BodyMeans (Body.enum variants) (Derive.Body.enum meanings) = VariantsMean variants meanings

  -- The constants of the tag type, `<ty as DynPrimitiveTy>::TYPE` and `<ty as SchemaWrite>::TYPE_META`;
  -- those of the default tag type are known.
  abbrev pub TagMeans : TypeMeta → Option RustType → Option Primitive → TypeMeta → Type 0
  TagMeans default_meta none none tag_meta = tag_meta ≡ default_meta
  TagMeans default_meta none (some A) tag_meta = ⊥
  TagMeans default_meta (some ty) none tag_meta = ⊥
  TagMeans default_meta (some ty) (some A) tag_meta =
      (traits.dyn_primitive_ty ty ≡ some A)
      × ((src : RustType) × (traits.schema_write ty ≡ some (tag_meta, src)))

  -- The code of a struct does not name the tag type.
  abbrev pub TagUses : TypeMeta → Body → Option RustType → Option Primitive → TypeMeta → Type 0
  TagUses default_meta (Body.struct fields) ty tag tag_meta =
      (tag ≡ none) × (tag_meta ≡ default_meta)
  TagUses default_meta (Body.enum variants) ty tag tag_meta = TagMeans default_meta ty tag tag_meta

  -- For a `TYPE_META` of the default tag type, the `TYPE_META` of the tag type and the declaration
  -- that the generated code stands for.
  abbrev pub Means : TypeMeta → Args → TypeMeta → Derive.Args → Type 0
  Means default_meta args tag_meta meaning =
      (meaning.ident ≡ args.ident)
      × BodyMeans args.body meaning.body
      × TagUses default_meta args.body args.tag_encoding meaning.tag_encoding tag_meta
      × (traits.container_read ≡ some meaning.read_meta)
      × (traits.container_write ≡ some meaning.write_meta)
