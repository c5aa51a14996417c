-- ===== src/Expand/Skipped.antt =====
-- wincode-dynamic-derive/src/wincode_dynamic.rs: the declaration determines the generated code, of
-- whatever type its skipped fields are.
use wincode_dynamic.Prelude.{
  some_injective, Option-cases, ℕ, ◌+◌, ◌≡◌, refl, sym, ap, ◌∙◌, String, true, List, [], ◌∷◌, map,
  Option, none, some, ◌⊎◌, inl, inr,
}
use wincode_dynamic.Wincode.{Primitive, TypeMeta}
use wincode_dynamic.Syntax.{RustType}
use wincode_dynamic.Derive
use wincode_dynamic.Derive.{
  field_write_type_meta, field_to_tokens, field_defs, fold_sizes, variant_schema, variant_sizes,
  size_of_body, schema_of_body, max_serialized_size, root_schema, generate, validate_variant_tags,
  has_valid_tags,
}
use wincode_dynamic.Expand.{Field, Variant, Body, Args}
use wincode_dynamic.Expand.Traits.{
  Traits, FieldMeans, FieldsMean, VariantsMean, BodyMeans, TagMeans, TagUses, Means,
}

-- Two meanings of a field that differ in nothing that is looked at.
abbrev Agree : Derive.Field → Derive.Field → Type 0
Agree f g =
    (f.ident ≡ g.ident)
    × (f.skip ≡ g.skip)
    × ((f.skip ≡ true)
        ⊎ ((f.ty ≡ g.ty) × (f.read_meta ≡ g.read_meta) × (f.write_meta ≡ g.write_meta)))

first_injective {ℓ κ} :
    {A : Type ℓ} {B : Type κ} {a c : A} {b d : B} {o : Option (A × B)}
    → o ≡ some (a, b)
    → o ≡ some (c, d)
    → a ≡ c
first_injective e k = ap (λ p. p.0) (some_injective (sym e ∙ k))

module _ (traits : Traits) where
  FieldMeans-Agree :
      (field : Field) (f g : Derive.Field)
      → FieldMeans traits field f
      → FieldMeans traits field g
      → Agree f g
  FieldMeans-Agree field f g h k = elim (Option-cases field.skip) [
    | inr (mode, e) ↦ (h.0 ∙ sym k.0, h.1 ∙ sym k.1, inl (rw h.1 (rw e)))
    | inl e ↦
        let (ty1, (dst1, read1), (target1, t1, (src1, write1))) = rw e at h.2 in
        let (ty2, (dst2, read2), (target2, t2, (src2, write2))) = rw e at k.2 in
        let same : target1 ≡ target2 = some_injective (sym t1 ∙ t2) in
        (
          h.0 ∙ sym k.0,
          h.1 ∙ sym k.1,
          inr (
            some_injective (sym ty1 ∙ ty2),
            first_injective read1 read2,
            first_injective write1 (ap traits.schema_write same ∙ write2),
          ),
        )
  ]

field_write_type_meta-Agree :
    (f g : Derive.Field) → Agree f g → field_write_type_meta f ≡ field_write_type_meta g
unfolding field_write_type_meta
field_write_type_meta-Agree f g (_, e, inl k) = rw (sym e, k)
field_write_type_meta-Agree f g (_, e, inr (_, _, k)) = rw (e, k)

field_defs-Agree :
    (f g : Derive.Field) (i : ℕ) (fs gs : List Derive.Field)
    → Agree f g
    → field_defs (i + 1) fs ≡ field_defs (i + 1) gs
    → field_defs i (f ∷ fs) ≡ field_defs i (g ∷ gs)
unfolding field_defs field_to_tokens
field_defs-Agree f g i fs gs (_, e, inl k) h = rw (sym e, k, h)
field_defs-Agree f g i fs gs (n, e, inr (ty, read, _)) h = rw (e, n, ty, read, h)

fold_sizes-Agree :
    (f g : Derive.Field) (total : Option ℕ) (fs gs : List Derive.Field)
    → Agree f g
    → ((t : Option ℕ) → fold_sizes t fs ≡ fold_sizes t gs)
    → fold_sizes total (f ∷ fs) ≡ fold_sizes total (g ∷ gs)
unfolding fold_sizes
fold_sizes-Agree f g total fs gs (_, e, inl k) h = rw (sym e, k) (h total)
fold_sizes-Agree f g total fs gs (_, e, inr (_, read, _)) h = rw (e, read) (h _)

tags_cons :
    (v u : Derive.Variant) (vs us : List Derive.Variant)
    → v.tag ≡ u.tag
    → validate_variant_tags vs ≡ validate_variant_tags us
    → validate_variant_tags (v ∷ vs) ≡ validate_variant_tags (u ∷ us)
unfolding validate_variant_tags
tags_cons v u vs us e h = elim (Option-cases u.tag) [
  | inl k ↦ rw (e, k) h
  | inr (tag, k) ↦ rw (e, k)
]

-- The three readings of a list of fields.
abbrev SameFields : List Derive.Field → List Derive.Field → Type 0
SameFields fs gs =
    (map field_write_type_meta fs ≡ map field_write_type_meta gs)
    × ((i : ℕ) → field_defs i fs ≡ field_defs i gs)
    × ((t : Option ℕ) → fold_sizes t fs ≡ fold_sizes t gs)

module _ (traits : Traits) where
  FieldsMean-SameFields :
      (fields : List Field) (fs gs : List Derive.Field)
      → FieldsMean traits fields fs
      → FieldsMean traits fields gs
      → SameFields fs gs
  FieldsMean-SameFields [] [] [] h k = (refl, λ i. refl, λ t. refl)
  FieldsMean-SameFields [] [] (g ∷ gs) h k = absurd k
  FieldsMean-SameFields [] (f ∷ fs) gs h k = absurd h
  FieldsMean-SameFields (field ∷ fields) [] gs h k = absurd h
  FieldsMean-SameFields (field ∷ fields) (f ∷ fs) [] h k = absurd k
  FieldsMean-SameFields (field ∷ fields) (f ∷ fs) (g ∷ gs) h k =
      let a = FieldMeans-Agree traits field f g h.0 k.0 in
      let (metas, rest_defs, sizes) = FieldsMean-SameFields fields fs gs h.1 k.1 in
      (
        rw (field_write_type_meta-Agree f g a, metas),
        λ i. field_defs-Agree f g i fs gs a (rest_defs (i + 1)),
        λ t. fold_sizes-Agree f g t fs gs a sizes,
      )

  VariantsMean-same :
      (variants : List Variant) (vs us : List Derive.Variant)
      → VariantsMean traits variants vs
      → VariantsMean traits variants us
      → (variant_sizes vs ≡ variant_sizes us)
        × (map variant_schema vs ≡ map variant_schema us)
        × (validate_variant_tags vs ≡ validate_variant_tags us)
  unfolding variant_sizes validate_variant_tags variant_schema
  VariantsMean-same [] [] [] h k = (refl, refl, refl)
  VariantsMean-same [] [] (u ∷ us) h k = absurd k
  VariantsMean-same [] (v ∷ vs) us h k = absurd h
  VariantsMean-same (variant ∷ variants) [] us h k = absurd h
  VariantsMean-same (variant ∷ variants) (v ∷ vs) [] h k = absurd k
  VariantsMean-same (variant ∷ variants) (v ∷ vs) (u ∷ us) h k =
      let ((ident1, tag1, fields1), rest1) = h in
      let ((ident2, tag2, fields2), rest2) = k in
      let (metas, same_defs, totals) =
        FieldsMean-SameFields variant.fields v.fields u.fields fields1 fields2 in
      let (sizes, schemas, tags) = VariantsMean-same variants vs us rest1 rest2 in
      (
        rw (metas, sizes),
        rw (ident1 ∙ sym ident2, same_defs 0, totals (some 0), schemas),
        tags_cons v u vs us (tag1 ∙ sym tag2) tags,
      )

  TagMeans-unique :
      (default_meta : TypeMeta) (tag : Option RustType) (s t : Option Primitive) (m n : TypeMeta)
      → TagMeans traits default_meta tag s m
      → TagMeans traits default_meta tag t n
      → (s ≡ t) × (m ≡ n)
  TagMeans-unique default_meta none none none m n h k = (refl, h ∙ sym k)
  TagMeans-unique default_meta none none (some B) m n h k = absurd k
  TagMeans-unique default_meta none (some A) t m n h k = absurd h
  TagMeans-unique default_meta (some ty) none t m n h k = absurd h
  TagMeans-unique default_meta (some ty) (some A) none m n h k = absurd k
  TagMeans-unique default_meta (some ty) (some A) (some B) m n (h, (src1, w1)) (k, (src2, w2)) =
      (sym h ∙ k, ap (λ p. p.0) (some_injective (sym w1 ∙ w2)))

  TagUses-unique :
      (default_meta : TypeMeta) (body : Body) (ty : Option RustType) (t u : Option Primitive)
      (m n : TypeMeta)
      → TagUses traits default_meta body ty t m
      → TagUses traits default_meta body ty u n
      → (t ≡ u) × (m ≡ n)
  TagUses-unique default_meta (Body.struct fields) ty t u m n (h, i) (k, l) = (h ∙ sym k, i ∙ sym l)
  TagUses-unique default_meta (Body.enum variants) ty t u m n h k =
      TagMeans-unique default_meta ty t u m n h k

  BodyMeans-same :
      (tag_meta meta read : TypeMeta) (ident : String) (tag : Option Primitive) (body : Body)
      (b c : Derive.Body)
      → BodyMeans traits body b
      → BodyMeans traits body c
      → (size_of_body tag_meta meta b ≡ size_of_body tag_meta meta c)
        × (schema_of_body ident read tag b ≡ schema_of_body ident read tag c)
        × (has_valid_tags b ≡ has_valid_tags c)
  unfolding size_of_body schema_of_body
  BodyMeans-same tag_meta meta read ident tag (Body.struct fields) (Derive.Body.struct fs)
        (Derive.Body.struct gs) h k =
      let (metas, same_defs, totals) = FieldsMean-SameFields fields fs gs h k in
      (rw metas, rw (same_defs 0), refl)
  BodyMeans-same tag_meta meta read ident tag (Body.struct fields) (Derive.Body.struct fs)
        (Derive.Body.enum us) h k =
      absurd k
  BodyMeans-same tag_meta meta read ident tag (Body.struct fields) (Derive.Body.enum vs) c h k =
      absurd h
  BodyMeans-same tag_meta meta read ident tag (Body.enum variants) (Derive.Body.struct fs) c h k =
      absurd h
  BodyMeans-same tag_meta meta read ident tag (Body.enum variants) (Derive.Body.enum vs)
        (Derive.Body.struct gs) h k =
      absurd k
  BodyMeans-same tag_meta meta read ident tag (Body.enum variants) (Derive.Body.enum vs)
        (Derive.Body.enum us) h k =
      let (sizes, schemas, tags) = VariantsMean-same variants vs us h k in
      (rw sizes, rw schemas, tags)

  -- Under one set of traits, and the `TYPE_META` of the default tag type, any two meanings of a
  -- declaration give the same output of the macro: no type or `TYPE_META` of a skipped field has an
  -- effect.
  pub generate-Means :
      (default_meta : TypeMeta) (args : Args) (m n : TypeMeta) (a b : Derive.Args)
      → Means traits default_meta args m a
      → Means traits default_meta args n b
      → generate m a ≡ generate n b
  unfolding generate max_serialized_size root_schema
  generate-Means default_meta args m n a b (ident1, body1, tag1, read1, write1)
        (ident2, body2, tag2, read2, write2) =
      let read = some_injective (sym read1 ∙ read2) in
      let write = some_injective (sym write1 ∙ write2) in
      let (tag, meta) =
        TagUses-unique default_meta args.body args.tag_encoding a.tag_encoding b.tag_encoding m n
          tag1 tag2 in
      let (size, root, tags) =
        BodyMeans-same n b.write_meta b.read_meta b.ident b.tag_encoding args.body a.body b.body
          body1 body2 in
      rw (meta, ident1 ∙ sym ident2, tag, read, write, size, root, tags)
