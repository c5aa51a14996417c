-- ===== src/Expand/Compile/Complete.antt =====
-- wincode-dynamic-derive/src/wincode_dynamic.rs: the generated code evaluates to constants where
-- the declaration has a meaning, and passes the tests of the tags on.
use wincode_dynamic.Prelude.{Option-cases, ◌≡◌, refl, List, [], ◌∷◌, Option, none, some, inl, inr}
use wincode_dynamic.Wincode.{Primitive, TypeMeta}
use wincode_dynamic.Syntax.{RustType}
use wincode_dynamic.Derive
use wincode_dynamic.Expand.{Field, Variant, Body, Args}
use wincode_dynamic.Expand.Traits.{
  Traits, FieldMeans, FieldsMean, VariantsMean, BodyMeans, TagUses, Means,
}
use wincode_dynamic.Expand.Compile.{
  has_valid_tags, validate_variant_tags, compile_field, compile_fields, compile_variants,
  compile_body, compile_tag, compile,
}

abbrev IsSome {ℓ} : {A : Type ℓ} → Option A → Type ℓ
IsSome {A = A} o = (a : A) × (o ≡ some a)

module _ (traits : Traits) where
  Means-compile_field :
      (field : Field) (m : Derive.Field)
      → FieldMeans traits field m
      → IsSome (compile_field traits field)
  unfolding compile_field
  Means-compile_field field m (ident, skip, uses) = elim (Option-cases field.skip) [
    | inl k ↦
        let (ty, (dst, read), (target, found, (src, write))) = rw k at uses in
        rw (k, ty, read, found, write) (_, refl)
    | inr (mode, k) ↦ rw k (_, refl)
  ]

  Means-compile_fields :
      (fields : List Field) (ms : List Derive.Field)
      → FieldsMean traits fields ms
      → IsSome (compile_fields traits fields)
  unfolding compile_fields
  Means-compile_fields [] ms h = (_, refl)
  Means-compile_fields (field ∷ fields) [] h = absurd h
  Means-compile_fields (field ∷ fields) (m ∷ ms) (h, k) =
      let (a, e) = Means-compile_field field m h in
      let (l, f) = Means-compile_fields fields ms k in rw (e, f) (_, refl)

  Means-compile_variants :
      (variants : List Variant) (ms : List Derive.Variant)
      → VariantsMean traits variants ms
      → IsSome (compile_variants traits variants)
  unfolding compile_variants
  Means-compile_variants [] ms h = (_, refl)
  Means-compile_variants (variant ∷ variants) [] h = absurd h
  Means-compile_variants (variant ∷ variants) (m ∷ ms) (h, k) =
      let (a, e) = Means-compile_fields variant.fields m.fields h.2 in
      let (l, f) = Means-compile_variants variants ms k in rw (e, f) (_, refl)

  Means-compile_body :
      (body : Body) (m : Derive.Body) → BodyMeans traits body m → IsSome (compile_body traits body)
  unfolding compile_body
  Means-compile_body (Body.struct fields) (Derive.Body.struct ms) h =
      let (a, e) = Means-compile_fields fields ms h in rw e (_, refl)
  Means-compile_body (Body.struct fields) (Derive.Body.enum ms) h = absurd h
  Means-compile_body (Body.enum variants) (Derive.Body.struct ms) h = absurd h
  Means-compile_body (Body.enum variants) (Derive.Body.enum ms) h =
      let (a, e) = Means-compile_variants variants ms h in rw e (_, refl)

  Means-compile_tag :
      (default_meta meta : TypeMeta) (body : Body) (ty : Option RustType) (t : Option Primitive)
      → TagUses traits default_meta body ty t meta
      → IsSome (compile_tag traits default_meta body ty)
  unfolding compile_tag
  Means-compile_tag default_meta meta (Body.struct fields) ty t h = (_, refl)
  Means-compile_tag default_meta meta (Body.enum variants) none t h = (_, refl)
  Means-compile_tag default_meta meta (Body.enum variants) (some ty) none h = absurd h
  Means-compile_tag default_meta meta (Body.enum variants) (some ty) (some A) (h, (src, write)) =
      rw (h, write) (_, refl)

  -- Where the declaration has a meaning, the code compiles.
  pub Means-compile :
      (default_meta meta : TypeMeta) (args : Args) (m : Derive.Args)
      → Means traits default_meta args meta m
      → IsSome (compile traits default_meta args)
  unfolding compile
  Means-compile default_meta meta args m (ident, body, tag, read, write) =
      let (b, e) = Means-compile_body args.body m.body body in
      let (t, f) =
        Means-compile_tag default_meta meta args.body args.tag_encoding m.tag_encoding tag in
      rw (e, f, read, write) (_, refl)

  validate-Means :
      (variants : List Variant) (ms : List Derive.Variant)
      → VariantsMean traits variants ms
      → Derive.validate_variant_tags ms ≡ validate_variant_tags variants
  unfolding validate_variant_tags Derive.validate_variant_tags
  validate-Means [] [] h = refl
  validate-Means [] (m ∷ ms) h = absurd h
  validate-Means (variant ∷ variants) [] h = absurd h
  validate-Means (variant ∷ variants) (m ∷ ms) (h, k) = elim (Option-cases variant.tag) [
    | inl e ↦ rw (h.1, e) (validate-Means variants ms k)
    | inr (tag, e) ↦ rw (h.1, e) refl
  ]

  -- The macro and its meaning look for the same tags.
  pub has_valid_tags-Means :
      (body : Body) (m : Derive.Body)
      → BodyMeans traits body m
      → Derive.has_valid_tags m ≡ has_valid_tags body
  has_valid_tags-Means (Body.struct fields) (Derive.Body.struct ms) h = refl
  has_valid_tags-Means (Body.struct fields) (Derive.Body.enum ms) h = absurd h
  has_valid_tags-Means (Body.enum variants) (Derive.Body.struct ms) h = absurd h
  has_valid_tags-Means (Body.enum variants) (Derive.Body.enum ms) h = validate-Means variants ms h
