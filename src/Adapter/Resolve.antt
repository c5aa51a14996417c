-- ===== src/Adapter/Resolve.antt =====
-- wincode-dynamic-derive/src/lib.rs, `Field::target_resolved`: which adapters of a field resolve,
-- and to what.
use wincode_dynamic.Prelude.{
  ℕ, suc, ◌≤◌, ◌<◌, ◌≡◌, ◌⊎◌, inl, inr, refl, Bool, true, false, List, [], ◌∷◌, ◌++◌, some, length,
  drop, All, if◌then◌else◌,
}
use wincode_dynamic.Syntax.{
  RustType, RustTypes, Segments, GenericArguments, generic_types, types_generic_types,
  segments_generic_types, arguments_generic_types, push_argument, has_angle_bracketed,
}
use wincode_dynamic.Adapter.{
  Resolved, resolved, panics, out_of_fuel, Visitor, infer_type, infer_types, infer_segments,
  infer_arguments, visit_type, target_resolved, or_own,
}
use wincode_dynamic.Adapter.Holes.{
  NoInfer, TypesNoInfer, SegmentsNoInfer, ArgumentsNoInfer, placeholders, is_infer-NoInfer, Filled,
}
use wincode_dynamic.Adapter.Filled.{Visited, infer_type-Filled}

-- A type with no `_` is left alone.
module _ (inner : Visitor RustType) where
  mutual
    unfolding infer_type NoInfer

    pub infer_type-NoInfer :
        (ty : RustType) (q : List RustType) → NoInfer ty → infer_type inner ty q ≡ resolved ty q
    infer_type-NoInfer (RustType.slice elem) q h = rw (infer_type-NoInfer elem q h)
    infer_type-NoInfer (RustType.array elem len) q h =
        rw (is_infer-NoInfer elem h.0, infer_type-NoInfer elem q h.0, infer_type-NoInfer len q h.1)
    infer_type-NoInfer RustType.infer q h = absurd h
    infer_type-NoInfer (RustType.path qself segments) q h =
        rw (infer_types-NoInfer qself q h.0, infer_segments-NoInfer segments q h.1)
    infer_type-NoInfer (RustType.other tokens types) q h = rw (infer_types-NoInfer types q h)

    pub infer_types-NoInfer :
        (types : RustTypes) (q : List RustType)
        → TypesNoInfer types
        → infer_types inner types q ≡ resolved types q
    infer_types-NoInfer RustTypes.nil q h = refl
    infer_types-NoInfer (RustTypes.cons ty rest) q h =
        rw (infer_type-NoInfer ty q h.0, infer_types-NoInfer rest q h.1)

    infer_segments-NoInfer :
        (segments : Segments) (q : List RustType)
        → SegmentsNoInfer segments
        → infer_segments inner segments q ≡ resolved segments q
    infer_segments-NoInfer Segments.end q h = refl
    infer_segments-NoInfer (Segments.plain ident rest) q h = rw (infer_segments-NoInfer rest q h)
    infer_segments-NoInfer (Segments.angle_bracketed ident args rest) q h =
        rw (infer_arguments-NoInfer args q h.0, infer_segments-NoInfer rest q h.1)
    infer_segments-NoInfer (Segments.parenthesized ident types rest) q h =
        rw (infer_types-NoInfer types q h.0, infer_segments-NoInfer rest q h.1)

    infer_arguments-NoInfer :
        (args : GenericArguments) (q : List RustType)
        → ArgumentsNoInfer args
        → infer_arguments inner args q ≡ resolved args q
    infer_arguments-NoInfer GenericArguments.none q h = refl
    infer_arguments-NoInfer (GenericArguments.type_argument ty rest) q h =
        rw
          (is_infer-NoInfer ty h.0, infer_type-NoInfer ty q h.0, infer_arguments-NoInfer rest q h.1)
    infer_arguments-NoInfer (GenericArguments.other_argument tokens types rest) q h =
        rw (infer_types-NoInfer types q h.0, infer_arguments-NoInfer rest q h.1)

All-append {ℓ κ} :
    {A : Type ℓ} (P : A → Type κ) (xs ys : List A) → All P xs → All P ys → All P (xs ++ ys)
All-append P [] ys h k = k
All-append P (x ∷ xs) ys h k = (h.0, All-append P xs ys h.1 k)

kept-NoInfer :
    (b : Bool) (ty : RustType) (inner : List RustType)
    → NoInfer ty
    → All NoInfer inner
    → All NoInfer (if b then inner else ty ∷ inner)
kept-NoInfer true ty inner h all = all
kept-NoInfer false ty inner h all = (h, all)

push_argument-NoInfer :
    (ty : RustType) (inner : List RustType)
    → NoInfer ty
    → All NoInfer inner
    → All NoInfer (push_argument ty inner)
unfolding push_argument NoInfer
push_argument-NoInfer (RustType.slice elem) inner h all = (h, tt)
push_argument-NoInfer (RustType.array elem len) inner h all = (h.0, tt)
push_argument-NoInfer RustType.infer inner h all = (h, all)
push_argument-NoInfer (RustType.path qself segments) inner h all =
    kept-NoInfer (has_angle_bracketed segments) (RustType.path qself segments) inner h all
push_argument-NoInfer (RustType.other tokens types) inner h all = (h, all)

-- What is collected from a type with no `_` has none.
mutual
  unfolding generic_types NoInfer

  pub generic_types-NoInfer : (ty : RustType) → NoInfer ty → All NoInfer (generic_types ty)
  generic_types-NoInfer (RustType.slice elem) h = generic_types-NoInfer elem h
  generic_types-NoInfer (RustType.array elem len) h =
      All-append NoInfer (generic_types elem) (generic_types len) (generic_types-NoInfer elem h.0)
        (generic_types-NoInfer len h.1)
  generic_types-NoInfer RustType.infer h = tt
  generic_types-NoInfer (RustType.path qself segments) h =
      All-append NoInfer (types_generic_types qself) (segments_generic_types segments)
        (types_generic_types-NoInfer qself h.0) (segments_generic_types-NoInfer segments h.1)
  generic_types-NoInfer (RustType.other tokens types) h = types_generic_types-NoInfer types h

  types_generic_types-NoInfer :
      (types : RustTypes) → TypesNoInfer types → All NoInfer (types_generic_types types)
  types_generic_types-NoInfer RustTypes.nil h = tt
  types_generic_types-NoInfer (RustTypes.cons ty rest) h =
      All-append NoInfer (generic_types ty) (types_generic_types rest)
        (generic_types-NoInfer ty h.0) (types_generic_types-NoInfer rest h.1)

  segments_generic_types-NoInfer :
      (segments : Segments)
      → SegmentsNoInfer segments
      → All NoInfer (segments_generic_types segments)
  segments_generic_types-NoInfer Segments.end h = tt
  segments_generic_types-NoInfer (Segments.plain ident rest) h =
      segments_generic_types-NoInfer rest h
  segments_generic_types-NoInfer (Segments.angle_bracketed ident args rest) h =
      All-append NoInfer (arguments_generic_types args) (segments_generic_types rest)
        (arguments_generic_types-NoInfer args h.0) (segments_generic_types-NoInfer rest h.1)
  segments_generic_types-NoInfer (Segments.parenthesized ident types rest) h =
      All-append NoInfer (types_generic_types types) (segments_generic_types rest)
        (types_generic_types-NoInfer types h.0) (segments_generic_types-NoInfer rest h.1)

  arguments_generic_types-NoInfer :
      (args : GenericArguments) → ArgumentsNoInfer args → All NoInfer (arguments_generic_types args)
  arguments_generic_types-NoInfer GenericArguments.none h = tt
  arguments_generic_types-NoInfer (GenericArguments.type_argument ty rest) h =
      All-append NoInfer (push_argument ty (generic_types ty)) (arguments_generic_types rest)
        (push_argument-NoInfer ty (generic_types ty) h.0 (generic_types-NoInfer ty h.0))
        (arguments_generic_types-NoInfer rest h.1)
  arguments_generic_types-NoInfer (GenericArguments.other_argument tokens types rest) h =
      All-append NoInfer (types_generic_types types) (arguments_generic_types rest)
        (types_generic_types-NoInfer types h.0) (arguments_generic_types-NoInfer rest h.1)

pub or_own-NoInfer :
    (ty : RustType) (q : List RustType) → NoInfer ty → All NoInfer q → All NoInfer (or_own ty q)
or_own-NoInfer ty [] h all = (h, tt)
or_own-NoInfer ty (arg ∷ args) h all = all

visit_type-Filled :
    (fuel : ℕ) (ty : RustType) (q : List RustType)
    → All NoInfer q
    → Filled (Visited ty) (placeholders ty) q (visit_type (suc (suc fuel)) ty q)
unfolding visit_type
visit_type-Filled fuel ty q all =
    infer_type-Filled (visit_type (suc fuel))
      (λ ty' q' h. infer_type-NoInfer (visit_type fuel) ty' q' h) ty q all

resolve-Filled :
    (ty adapter : RustType) (q : List RustType)
    → NoInfer ty
    → All NoInfer q
    → Filled
        (Visited adapter)
        (placeholders adapter)
        (or_own ty q)
        (visit_type (suc (length (or_own ty q))) adapter (or_own ty q))
resolve-Filled ty adapter [] h all = visit_type-Filled 0 adapter (ty ∷ []) (h, tt)
resolve-Filled ty adapter (arg ∷ args) h all =
    visit_type-Filled (length args) adapter (arg ∷ args) all

Filled-cases :
    (P : RustType → Type 0) (n : ℕ) (q : List RustType) (r : Resolved RustType)
    → Filled P n q r
    → ((n ≤ length q) × (target : RustType) × (r ≡ resolved target (drop n q)) × P target)
      ⊎ ((length q < n) × (r ≡ panics))
Filled-cases P n q (resolved target rest) h = inl (h.1, target, rw h.2, h.0)
Filled-cases P n q panics h = inr (h, refl)
Filled-cases P n q out_of_fuel h = absurd h

-- For a field type without `_`, an adapter with no more placeholders than there are collected types
-- (one, the field type itself, where none is collected) resolves: as many types are taken as there
-- are placeholders, and none of these is left. An adapter with more placeholders is a panic.
pub target_resolved_lem :
    (ty adapter : RustType)
    → NoInfer ty
    → ((placeholders adapter ≤ length (or_own ty (generic_types ty)))
        × (target : RustType) × (target_resolved ty (some adapter)
            ≡ resolved target (drop (placeholders adapter) (or_own ty (generic_types ty))))
        × (placeholders target ≡ 0))
      ⊎ ((length (or_own ty (generic_types ty)) < placeholders adapter)
          × (target_resolved ty (some adapter) ≡ panics))
unfolding target_resolved
target_resolved_lem ty adapter h =
    elim (Filled-cases (Visited adapter) (placeholders adapter) (or_own ty (generic_types ty))
      (visit_type (suc (length (or_own ty (generic_types ty)))) adapter
        (or_own ty (generic_types ty)))
      (resolve-Filled ty adapter (generic_types ty) h (generic_types-NoInfer ty h))) [
        | inl (le, target, e, k) ↦ inl (le, target, e, k.0)
        | inr k ↦ inr k
      ]
