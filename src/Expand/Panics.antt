-- ===== src/Expand/Panics.antt =====
-- wincode-dynamic-derive/src/wincode_dynamic.rs: the declarations on which the macro panics.
use wincode_dynamic.Prelude.{
  ◌<◌, ◌≡◌, ◌≢◌, ◌↔◌, ◌⊎◌, inl, inr, refl, ap, List, [], ◌∷◌, Option, none, some, length, All, Any,
  Option-cases, some_injective, arith,
}
use wincode_dynamic.Syntax.{RustType, generic_types}
use wincode_dynamic.Adapter.{Resolved, resolved, panics, or_own, target_resolved}
use wincode_dynamic.Adapter.Holes.{NoInfer, placeholders}
use wincode_dynamic.Adapter.Resolve.{target_resolved_lem}
use wincode_dynamic.Expand.{
  Field, Variant, Body, Args, Predicate, target_of, bounds_for, add_field_bounds, append_bounds,
  fields_bounds, variants_bounds, body_bounds, where_clause,
}

-- A field that is not skipped, with an adapter that has more placeholders than there are types
-- collected from the field's type.
abbrev pub LacksTypes : Field → Type 0
LacksTypes field =
    (field.skip ≡ none)
    × ((adapter : RustType) × (field.adapter ≡ some adapter)
        × (length (or_own field.ty (generic_types field.ty)) < placeholders adapter))

abbrev pub VariantLacksTypes : Variant → Type 0
VariantLacksTypes variant = Any LacksTypes variant.fields

-- A body with such a field.
abbrev pub BodyLacksTypes : Body → Type 0
BodyLacksTypes (Body.struct fields) = Any LacksTypes fields
BodyLacksTypes (Body.enum variants) = Any VariantLacksTypes variants

-- The types of the fields have no `_`.
abbrev pub FieldNoInfer : Field → Type 0
FieldNoInfer field = NoInfer field.ty

abbrev pub VariantNoInfer : Variant → Type 0
VariantNoInfer variant = All FieldNoInfer variant.fields

abbrev pub BodyNoInfer : Body → Type 0
BodyNoInfer (Body.struct fields) = All FieldNoInfer fields
BodyNoInfer (Body.enum variants) = All VariantNoInfer variants

append_bounds-none :
    (a b : Option (List Predicate)) → (append_bounds a b ≡ none) ↔ ((a ≡ none) ⊎ (b ≡ none))
append_bounds-none none b = (λ e. inl refl, λ h. refl)
append_bounds-none (some ps) none = (λ e. inr refl, λ h. refl)
append_bounds-none (some ps) (some qs) = (λ e. cc, λ h. elim h [ inl e ↦ cc | inr e ↦ cc ])

bounds_for-none :
    (ty : RustType) (target : Option RustType) → (bounds_for ty target ≡ none) ↔ (target ≡ none)
bounds_for-none ty none = (λ e. refl, λ e. refl)
bounds_for-none ty (some target) = (λ e. cc, λ e. cc)

either : {P Q R S T : Type 0} → P ↔ (Q ⊎ R) → Q ↔ S → R ↔ T → P ↔ (S ⊎ T)
either (split, join) (to, from) (to', from') = (
  λ p. elim (split p) [ inl q ↦ inl (to q) | inr r ↦ inr (to' r) ],
  λ st. elim st [ inl s ↦ join (inl (from s)) | inr t ↦ join (inr (from' t)) ],
)

target_of-resolved :
    (r : Resolved RustType) {target : RustType} {rest : List RustType}
    → r ≡ resolved target rest
    → target_of r ≢ none
unfolding target_of
target_of-resolved r e k = let impossible : some _ ≡ none = rw e at k in cc

target_of-panics : (r : Resolved RustType) → r ≡ panics → target_of r ≡ none
unfolding target_of
target_of-panics r e = rw e

-- The adapter has too many placeholders.
abbrev Lacks : RustType → Option RustType → Type 0
Lacks ty with_type =
    (adapter : RustType) × (with_type ≡ some adapter)
    × (length (or_own ty (generic_types ty)) < placeholders adapter)

no_adapter : (ty : RustType) → target_resolved ty none ≡ resolved ty []
unfolding target_resolved
no_adapter ty = refl

target_lacks :
    (ty : RustType) (with_type : Option RustType)
    → NoInfer ty
    → (target_of (target_resolved ty with_type) ≡ none) ↔ Lacks ty with_type
target_lacks ty none h = (
  λ e. absurd (target_of-resolved (target_resolved ty none) (no_adapter ty) e),
  λ k. let impossible : none ≡ some k.0 = k.1 in cc,
)
target_lacks ty (some adapter) h = elim (target_resolved_lem ty adapter h) [
  | inl (le, target, e, _) ↦ (
    λ k. absurd (target_of-resolved (target_resolved ty (some adapter)) e k),
    λ (found, same, lt).
        let equal : adapter ≡ found = some_injective same in
        absurd (omega (arith, ap placeholders equal)),
  )
  | inr (lt, e) ↦
      (λ k. (adapter, refl, lt), λ k. target_of-panics (target_resolved ty (some adapter)) e)
]

add_field_bounds-none :
    (field : Field) → FieldNoInfer field → (add_field_bounds field ≡ none) ↔ LacksTypes field
unfolding add_field_bounds
add_field_bounds-none field h =
    let (to, from) = target_lacks field.ty field.adapter h in
    let (bounds_to, bounds_from) =
      bounds_for-none field.ty (target_of (target_resolved field.ty field.adapter)) in
    elim (Option-cases field.skip) [
      | inl e ↦
          (λ k. (e, to (bounds_to (rw e at k))), λ (_, lacks). rw e (bounds_from (from lacks)))
      | inr (mode, e) ↦ (λ k. let impossible : some [] ≡ none = rw e at k in cc, λ (kept, _). cc)
    ]

fields_bounds-none :
    (fields : List Field)
    → All FieldNoInfer fields
    → (fields_bounds fields ≡ none) ↔ Any LacksTypes fields
unfolding fields_bounds
fields_bounds-none [] h = (λ e. cc, λ k. absurd k)
fields_bounds-none (field ∷ fields) h =
    either (append_bounds-none (add_field_bounds field) (fields_bounds fields))
      (add_field_bounds-none field h.0) (fields_bounds-none fields h.1)

variants_bounds-none :
    (variants : List Variant)
    → All VariantNoInfer variants
    → (variants_bounds variants ≡ none) ↔ Any VariantLacksTypes variants
unfolding variants_bounds
variants_bounds-none [] h = (λ e. cc, λ k. absurd k)
variants_bounds-none (variant ∷ variants) h =
    either (append_bounds-none (fields_bounds variant.fields) (variants_bounds variants))
      (fields_bounds-none variant.fields h.0) (variants_bounds-none variants h.1)

body_bounds-none :
    (body : Body) → BodyNoInfer body → (body_bounds body ≡ none) ↔ BodyLacksTypes body
unfolding body_bounds
body_bounds-none (Body.struct fields) h = fields_bounds-none fields h
body_bounds-none (Body.enum variants) h = variants_bounds-none variants h

pub where_clause-panics :
    (args : Args) → BodyNoInfer args.body → (where_clause args ≡ none) ↔ BodyLacksTypes args.body
unfolding where_clause
where_clause-panics args h =
    let (to, from) =
      append_bounds-none (some (Predicate.container_write ∷ Predicate.container_read ∷ []))
        (body_bounds args.body) in
    let (body_to, body_from) = body_bounds-none args.body h in
    (λ e. elim (to e) [ inl k ↦ cc | inr k ↦ body_to k ], λ k. from (inr (body_from k)))
