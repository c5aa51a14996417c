-- ===== src/Expand/Compile/Elaborate.antt =====
-- wincode-dynamic-derive/src/wincode_dynamic.rs: the constants that the generated code evaluates to
-- are a meaning of the declaration.
use wincode_dynamic.Prelude.{
  some_injective, Option-cases, ◌≡◌, refl, sym, ap, subst, String, false, List, [], ◌∷◌, Option,
  none, some, inl, inr,
}
use wincode_dynamic.Wincode.{Primitive, TypeMeta}
use wincode_dynamic.Ty.{FieldType}
use wincode_dynamic.Syntax.{RustType}
use wincode_dynamic.Adapter.{target_resolved}
use wincode_dynamic.Derive
use wincode_dynamic.Expand.{Field, Variant, Body, Args, target_of}
use wincode_dynamic.Expand.Traits.{
  Traits, FieldMeans, FieldsMean, VariantMeans, VariantsMean, BodyMeans, TagUses, Means,
}
use wincode_dynamic.Expand.Compile.{
  cons_option, kept, write_of, compile_field, compile_fields, variant_of, compile_variants,
  struct_of, enum_of, compile_body, explicit_tag, compile_tag, assemble, compile,
}

none_absurd {ℓ κ} : {A : Type ℓ} {B : Type κ} {a : A} → none ≡ some a → B
none_absurd e = let impossible : ⊥ = cc in absurd impossible

cons_option-eq {ℓ} :
    {A : Type ℓ} (o : Option A) (p : Option (List A)) {l : List A}
    → cons_option o p ≡ some l
    → (a : A) × (rest : List A) × (o ≡ some a) × (p ≡ some rest) × (a ∷ rest ≡ l)
cons_option-eq (some a) (some rest) e = (a, rest, refl, refl, some_injective e)
cons_option-eq (some a) none e = none_absurd e
cons_option-eq none p e = none_absurd e

module _ (traits : Traits) where
  kept-eq :
      (ident : Option String) (ty : Option FieldType) (read write : Option (TypeMeta × RustType))
      {m : Derive.Field}
      → kept traits ident ty read write ≡ some m
      → (m.ident ≡ ident)
        × (m.skip ≡ false)
        × (ty ≡ some m.ty)
        × ((dst : RustType) × (read ≡ some (m.read_meta, dst)))
        × ((src : RustType) × (write ≡ some (m.write_meta, src)))
  kept-eq ident (some ty) (some (read, dst)) (some (write, src)) e =
      let same = some_injective e in
      (
        ap (λ n. n.ident) (sym same),
        ap (λ n. n.skip) (sym same),
        ap (λ n. some n.ty) same,
        (dst, ap (λ n. some (n.read_meta, dst)) same),
        (src, ap (λ n. some (n.write_meta, src)) same),
      )
  kept-eq ident none read write e = none_absurd e
  kept-eq ident (some ty) none write e = none_absurd e
  kept-eq ident (some ty) (some read) none e = none_absurd e

  write_of-eq :
      (target : Option RustType) {p : TypeMeta × RustType}
      → write_of traits target ≡ some p
      → (t : RustType) × (target ≡ some t) × (traits.schema_write t ≡ some p)
  write_of-eq (some t) e = (t, refl, e)
  write_of-eq none e = none_absurd e

  compile_field-Means :
      (field : Field) (m : Derive.Field)
      → compile_field traits field ≡ some m
      → FieldMeans traits field m
  unfolding compile_field
  compile_field-Means field m e = elim (Option-cases field.skip) [
    | inl k ↦
        let (ident, skip, ty, read, (src, write)) =
          kept-eq field.ident (traits.dyn_ty field.ty) (traits.schema_read field.ty)
            (write_of traits (target_of (target_resolved field.ty field.adapter))) (rw k at e) in
        let (target, found, written) =
          write_of-eq (target_of (target_resolved field.ty field.adapter)) write in
        (ident, rw (k, skip), rw k (ty, read, (target, found, (src, written))))
    | inr (mode, k) ↦
        let same = some_injective (rw k at e) in
        (ap (λ n. n.ident) (sym same), rw k (ap (λ n. n.skip) (sym same)), rw k tt)
  ]

  compile_fields-Means :
      (fields : List Field) (ms : List Derive.Field)
      → compile_fields traits fields ≡ some ms
      → FieldsMean traits fields ms
  unfolding compile_fields
  compile_fields-Means [] [] e = tt
  compile_fields-Means [] (m ∷ ms) e = let impossible : ⊥ = cc in absurd impossible
  compile_fields-Means (field ∷ fields) ms e =
      let (m, rest, h, k, same) =
        cons_option-eq (compile_field traits field) (compile_fields traits fields) e in
      subst (FieldsMean traits (field ∷ fields)) same
        (compile_field-Means field m h, compile_fields-Means fields rest k)

  variant_of-Means :
      (variant : Variant) (fields : Option (List Derive.Field)) (m : Derive.Variant)
      → compile_fields traits variant.fields ≡ fields
      → variant_of traits variant fields ≡ some m
      → VariantMeans traits variant m
  variant_of-Means variant none m c e = none_absurd e
  variant_of-Means variant (some fields) m c e =
      subst (VariantMeans traits variant) (some_injective e)
        (refl, refl, compile_fields-Means variant.fields fields c)

  compile_variants-Means :
      (variants : List Variant) (ms : List Derive.Variant)
      → compile_variants traits variants ≡ some ms
      → VariantsMean traits variants ms
  unfolding compile_variants
  compile_variants-Means [] [] e = tt
  compile_variants-Means [] (m ∷ ms) e = let impossible : ⊥ = cc in absurd impossible
  compile_variants-Means (variant ∷ variants) ms e =
      let (m, rest, h, k, same) =
        cons_option-eq (variant_of traits variant (compile_fields traits variant.fields))
          (compile_variants traits variants) e in
      subst (VariantsMean traits (variant ∷ variants)) same (
        variant_of-Means variant (compile_fields traits variant.fields) m refl h,
        compile_variants-Means variants rest k,
      )

  struct_of-eq :
      (o : Option (List Derive.Field)) {b : Derive.Body}
      → struct_of traits o ≡ some b
      → (ms : List Derive.Field) × (o ≡ some ms) × (Derive.Body.struct ms ≡ b)
  struct_of-eq (some ms) e = (ms, refl, some_injective e)
  struct_of-eq none e = none_absurd e

  enum_of-eq :
      (o : Option (List Derive.Variant)) {b : Derive.Body}
      → enum_of traits o ≡ some b
      → (ms : List Derive.Variant) × (o ≡ some ms) × (Derive.Body.enum ms ≡ b)
  enum_of-eq (some ms) e = (ms, refl, some_injective e)
  enum_of-eq none e = none_absurd e

  compile_body-Means :
      (body : Body) (m : Derive.Body) → compile_body traits body ≡ some m → BodyMeans traits body m
  unfolding compile_body
  compile_body-Means (Body.struct fields) m e =
      let (ms, k, same) = struct_of-eq (compile_fields traits fields) e in
      subst (BodyMeans traits (Body.struct fields)) same (compile_fields-Means fields ms k)
  compile_body-Means (Body.enum variants) m e =
      let (ms, k, same) = enum_of-eq (compile_variants traits variants) e in
      subst (BodyMeans traits (Body.enum variants)) same (compile_variants-Means variants ms k)

  explicit_tag-eq :
      (o : Option Primitive) (write : Option (TypeMeta × RustType)) {t : Option Primitive}
      {meta : TypeMeta}
      → explicit_tag traits o write ≡ some (t, meta)
      → (A : Primitive) × (o ≡ some A)
        × (some A ≡ t)
        × ((src : RustType) × (write ≡ some (meta, src)))
  explicit_tag-eq (some A) (some (w, src)) e = (
    A,
    refl,
    ap (λ p. p.0) (some_injective e),
    (src, ap (λ p. some (p.1, src)) (some_injective e)),
  )
  explicit_tag-eq (some A) none e = none_absurd e
  explicit_tag-eq none write e = none_absurd e

  compile_tag-Uses :
      (default_meta meta : TypeMeta) (body : Body) (ty : Option RustType) (t : Option Primitive)
      → compile_tag traits default_meta body ty ≡ some (t, meta)
      → TagUses traits default_meta body ty t meta
  unfolding compile_tag
  compile_tag-Uses default_meta meta (Body.struct fields) ty t e =
      let same = sym (some_injective e) in (ap (λ p. p.0) same, ap (λ p. p.1) same)
  compile_tag-Uses default_meta meta (Body.enum variants) none none e =
      ap (λ p. p.1) (sym (some_injective e))
  compile_tag-Uses default_meta meta (Body.enum variants) none (some A) e =
      none_absurd (ap (λ p. p.0) (some_injective e))
  compile_tag-Uses default_meta meta (Body.enum variants) (some ty) t e =
      let (A, h, same, written) =
        explicit_tag-eq (traits.dyn_primitive_ty ty) (traits.schema_write ty) e in
      subst (λ t. TagUses traits default_meta (Body.enum variants) (some ty) t meta) same
        (h, written)

  pub assemble-eq :
      (ident : String) (body : Option Derive.Body) (tag : Option (Option Primitive × TypeMeta))
      (read write : Option TypeMeta) {meta : TypeMeta} {m : Derive.Args}
      → assemble traits ident body tag read write ≡ some (meta, m)
      → (m.ident ≡ ident)
        × (body ≡ some m.body)
        × (tag ≡ some (m.tag_encoding, meta))
        × (read ≡ some m.read_meta)
        × (write ≡ some m.write_meta)
  assemble-eq ident (some body) (some (tag, tag_meta)) (some read) (some write) e =
      let same = some_injective e in
      (
        ap (λ p. p.1.ident) (sym same),
        ap (λ p. some p.1.body) same,
        ap (λ p. some (p.1.tag_encoding, p.0)) same,
        ap (λ p. some p.1.read_meta) same,
        ap (λ p. some p.1.write_meta) same,
      )
  assemble-eq ident (some body) (some tag) (some read) none e = none_absurd e
  assemble-eq ident (some body) (some tag) none write e = none_absurd e
  assemble-eq ident (some body) none read write e = none_absurd e
  assemble-eq ident none tag read write e = none_absurd e

  -- What the generated code evaluates to is a meaning of the declaration.
  pub compile-Means :
      (default_meta meta : TypeMeta) (args : Args) (m : Derive.Args)
      → compile traits default_meta args ≡ some (meta, m)
      → Means traits default_meta args meta m
  unfolding compile
  compile-Means default_meta meta args m e =
      let (ident, body, tag, read, write) =
        assemble-eq args.ident (compile_body traits args.body)
          (compile_tag traits default_meta args.body args.tag_encoding) traits.container_read
          traits.container_write e in
      (
        ident,
        compile_body-Means args.body m.body body,
        compile_tag-Uses default_meta meta args.body args.tag_encoding m.tag_encoding tag,
        read,
        write,
      )
