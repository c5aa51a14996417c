-- ===== src/Expand/Bounds.antt =====
-- wincode-dynamic-derive/src/wincode_dynamic.rs: the `where` clause is enough for the generated code.
use wincode_dynamic.Prelude.{
  some_injective, Option-cases, subst, ◌≡◌, refl, sym, true, false, List, [], ◌∷◌, ◌++◌, Option,
  none, some, All, inl, inr,
}
use wincode_dynamic.Wincode.{Primitive, TypeMeta}
use wincode_dynamic.Ty.{FieldType}
use wincode_dynamic.Syntax.{RustType}
use wincode_dynamic.Adapter.{target_resolved}
use wincode_dynamic.Derive
use wincode_dynamic.Expand.{
  SkipMode, Field, Variant, Body, Args, Predicate, target_of, bounds_for, add_field_bounds,
  append_bounds, fields_bounds, variants_bounds, body_bounds, where_clause,
}
use wincode_dynamic.Expand.Traits.{
  Traits, Holds, FieldMeans, FieldsMean, VariantsMean, BodyMeans, TagUses, Means,
}

All-append_split {ℓ κ} :
    {A : Type ℓ} (P : A → Type κ) (xs ys : List A) → All P (xs ++ ys) → All P xs × All P ys
All-append_split P [] ys h = (tt, h)
All-append_split P (x ∷ xs) ys h = let (k, l) = All-append_split P xs ys h.1 in ((h.0, k), l)

append_bounds-All :
    (P : Predicate → Type 0) (a b : Option (List Predicate)) (ps : List Predicate)
    → append_bounds a b ≡ some ps
    → All P ps
    → (xs : List Predicate) × (ys : List Predicate) × (a ≡ some xs)
      × (b ≡ some ys)
      × All P xs
      × All P ys
append_bounds-All P none b ps e h = let impossible : ⊥ = cc in absurd impossible
append_bounds-All P (some xs) none ps e h = let impossible : ⊥ = cc in absurd impossible
append_bounds-All P (some xs) (some ys) ps e h =
    let (k, l) = All-append_split P xs ys (subst (All P) (sym (some_injective e)) h) in
    (xs, ys, refl, refl, k, l)

module _ (traits : Traits) where
  -- A skipped field has a meaning under any traits.
  skipped :
      (field : Field) (mode : SkipMode)
      → field.skip ≡ some mode
      → (meaning : Derive.Field) × FieldMeans traits field meaning
  skipped field mode e = (
    record {
      ident = field.ident;
      ty = FieldType.string;
      read_meta = TypeMeta.dynamic;
      write_meta = TypeMeta.dynamic;
      skip = true;
    },
    (refl, rw e, rw e tt),
  )

  bounds_for-Means :
      (field : Field) (target : Option RustType) (ps : List Predicate)
      → field.skip ≡ none
      → target_of (target_resolved field.ty field.adapter) ≡ target
      → bounds_for field.ty target ≡ some ps
      → All (Holds traits) ps
      → (meaning : Derive.Field) × FieldMeans traits field meaning
  bounds_for-Means field none ps kept e b h = let impossible : ⊥ = cc in absurd impossible
  bounds_for-Means field (some target) ps kept e b h =
      let ((ty, dyn), ((read, reads), ((write, writes), _))) =
        subst (All (Holds traits)) (sym (some_injective b)) h in
      (
        record { ident = field.ident; ty = ty; read_meta = read; write_meta = write; skip = false },
        (refl, rw kept, rw kept (dyn, (field.ty, reads), (target, e, (field.ty, writes)))),
      )

  add_field_bounds-Means :
      (field : Field) (ps : List Predicate)
      → add_field_bounds field ≡ some ps
      → All (Holds traits) ps
      → (meaning : Derive.Field) × FieldMeans traits field meaning
  unfolding add_field_bounds
  add_field_bounds-Means field ps e h = elim (Option-cases field.skip) [
    | inl kept ↦
        bounds_for-Means field (target_of (target_resolved field.ty field.adapter)) ps kept refl
          (rw kept at e) h
    | inr (mode, k) ↦ skipped field mode k
  ]

  fields_bounds-Means :
      (fields : List Field) (ps : List Predicate)
      → fields_bounds fields ≡ some ps
      → All (Holds traits) ps
      → (meanings : List Derive.Field) × FieldsMean traits fields meanings
  unfolding fields_bounds
  fields_bounds-Means [] ps e h = ([], tt)
  fields_bounds-Means (field ∷ fields) ps e h =
      let (xs, ys, e1, e2, h1, h2) =
        append_bounds-All (Holds traits) (add_field_bounds field) (fields_bounds fields) ps e h in
      let (m, k) = add_field_bounds-Means field xs e1 h1 in
      let (ms, l) = fields_bounds-Means fields ys e2 h2 in (m ∷ ms, (k, l))

  variants_bounds-Means :
      (variants : List Variant) (ps : List Predicate)
      → variants_bounds variants ≡ some ps
      → All (Holds traits) ps
      → (meanings : List Derive.Variant) × VariantsMean traits variants meanings
  unfolding variants_bounds
  variants_bounds-Means [] ps e h = ([], tt)
  variants_bounds-Means (variant ∷ variants) ps e h =
      let (xs, ys, e1, e2, h1, h2) =
        append_bounds-All (Holds traits) (fields_bounds variant.fields) (variants_bounds variants)
          ps e h in
      let (fs, k) = fields_bounds-Means variant.fields xs e1 h1 in
      let (vs, l) = variants_bounds-Means variants ys e2 h2 in
      (record { ident = variant.ident; fields = fs; tag = variant.tag } ∷ vs, ((refl, refl, k), l))

  body_bounds-Means :
      (body : Body) (ps : List Predicate)
      → body_bounds body ≡ some ps
      → All (Holds traits) ps
      → (meaning : Derive.Body) × BodyMeans traits body meaning
  unfolding body_bounds
  body_bounds-Means (Body.struct fields) ps e h =
      let (ms, k) = fields_bounds-Means fields ps e h in (Derive.Body.struct ms, k)
  body_bounds-Means (Body.enum variants) ps e h =
      let (ms, k) = variants_bounds-Means variants ps e h in (Derive.Body.enum ms, k)

  -- Where the predicates of the `where` clause hold, and the tag type of an enum has a runtime type
  -- and a `TYPE_META`, every constant that the generated code names exists: the implementation has a
  -- meaning, a declaration of the schema generator with the same names, tags and skipped fields.
  pub where_clause-Means :
      (default_meta : TypeMeta) (args : Args) (tag : Option Primitive) (tag_meta : TypeMeta)
      (ps : List Predicate)
      → where_clause args ≡ some ps
      → All (Holds traits) ps
      → TagUses traits default_meta args.body args.tag_encoding tag tag_meta
      → (meaning : Derive.Args) × Means traits default_meta args tag_meta meaning
  unfolding where_clause
  where_clause-Means default_meta args tag tag_meta ps e h t =
      let (xs, ys, e1, e2, h1, h2) =
        append_bounds-All (Holds traits)
          (some (Predicate.container_write ∷ Predicate.container_read ∷ [])) (body_bounds args.body)
          ps e h in
      let ((write, writes), ((read, reads), _)) =
        subst (All (Holds traits)) (sym (some_injective e1)) h1 in
      let (body, k) = body_bounds-Means args.body ys e2 h2 in
      (
        record {
          ident = args.ident;
          body = body;
          tag_encoding = tag;
          read_meta = read;
          write_meta = write;
        },
        (refl, k, t, reads, writes),
      )
