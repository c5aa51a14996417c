-- ===== src/Adapter/Order.antt =====
-- wincode-dynamic-derive/src/lib.rs, `Field::target_resolved`: the order in which `GenericTypes`
-- collects types and `InferGeneric` puts them in.
use wincode_dynamic.Prelude.{
  String, suc, ◌≡◌, inl, inr, refl, sym, ap, ◌∙◌, subst, Bool, true, false, List, [], ◌∷◌, ◌++◌,
  append_assoc, append-nil, drop-append, some, length, drop, if◌then◌else◌,
}
use wincode_dynamic.Syntax.{
  RustType, RustTypes, Segments, GenericArguments, generic_types, types_generic_types,
  segments_generic_types, arguments_generic_types, push_argument, has_angle_bracketed,
}
use wincode_dynamic.Adapter.{
  resolved, Visitor, is_infer, pop_front, infer_type, infer_types, infer_segments, infer_arguments,
  visit_type, target_resolved, or_own,
}
use wincode_dynamic.Adapter.Holes.{NoInfer, TypesNoInfer, SegmentsNoInfer, ArgumentsNoInfer}
use wincode_dynamic.Adapter.Resolve.{infer_type-NoInfer}
use wincode_dynamic.Adapter.Shape.{
  IsPlain, ArePlain, TypesArePlain, SegmentsArePlain, ArgumentsArePlain, put_argument, shape,
  types_shape, segments_shape, arguments_shape, with_placeholders, with_names,
}

shape-NoInfer :
    (name : String → String) (ty : RustType)
    → NoInfer ty
    → is_infer (with_placeholders name ty) ≡ false
unfolding NoInfer is_infer shape
shape-NoInfer name (RustType.slice elem) h = refl
shape-NoInfer name (RustType.array elem len) h = refl
shape-NoInfer name RustType.infer h = absurd h
shape-NoInfer name (RustType.path qself segments) h = refl
shape-NoInfer name (RustType.other tokens types) h = refl

module _ (name : String → String) (inner : Visitor RustType)
    (inner_lem : (ty : RustType) (q : List RustType)
      → NoInfer ty
      → inner ty q ≡ resolved ty q) where
  -- The visit of an adapter of the same shape as a type.
  abbrev Restores : RustType → List RustType → Type 0
  Restores ty q =
      infer_type inner (with_placeholders name ty) (generic_types ty ++ q)
      ≡ resolved (with_names name ty) q

  -- The adapter's argument that stands for `ty`, on what is collected from it.
  abbrev RestoresArgument : RustType → List RustType → Type 0
  RestoresArgument ty q =
      (if is_infer (put_argument (λ _. RustType.infer) ty (with_placeholders name ty))
        then pop_front inner (push_argument ty (generic_types ty) ++ q)
        else infer_type inner (put_argument (λ _. RustType.infer) ty (with_placeholders name ty))
            (push_argument ty (generic_types ty) ++ q))
      ≡ resolved (put_argument (λ t. t) ty (with_names name ty)) q

  path-argument :
      (b : Bool) (qself : RustTypes) (segments : Segments) (q : List RustType)
      → has_angle_bracketed segments ≡ b
      → NoInfer (RustType.path qself segments)
      → IsPlain (RustType.path qself segments)
      → Restores (RustType.path qself segments) q
      → RestoresArgument (RustType.path qself segments) q
  unfolding is_infer shape put_argument push_argument IsPlain
  path-argument true qself segments q e h plain ih = rw (e) ih
  path-argument false qself segments q e h (inl k) ih =
      let impossible : true ≡ false = sym k ∙ e in cc
  path-argument false qself segments q e h (inr k) ih =
      rw (e, k) (inner_lem (RustType.path qself segments) q h)

  argument_lem :
      (ty : RustType) (q : List RustType)
      → NoInfer ty
      → IsPlain ty
      → Restores ty q
      → RestoresArgument ty q
  unfolding is_infer shape put_argument push_argument IsPlain NoInfer infer_type generic_types
  argument_lem (RustType.slice elem) q h plain ih = absurd plain
  argument_lem (RustType.array elem len) q h plain ih =
      rw (inner_lem elem q h.0, infer_type-NoInfer inner len q h.1)
  argument_lem RustType.infer q h plain ih = absurd h
  argument_lem (RustType.path qself segments) q h plain ih =
      path-argument (has_angle_bracketed segments) qself segments q refl h plain ih
  argument_lem (RustType.other tokens types) q h plain ih =
      rw (plain, inner_lem (RustType.other tokens types) q h)

  mutual
    unfolding infer_type generic_types shape ArePlain NoInfer

    shape_restores : (ty : RustType) (q : List RustType) → NoInfer ty → ArePlain ty → Restores ty q
    shape_restores (RustType.slice elem) q h plain = rw (shape_restores elem q h plain)
    shape_restores (RustType.array elem len) q h plain = rw (
      shape-NoInfer name elem h.0,
      append_assoc (generic_types elem) (generic_types len) q,
      shape_restores elem (generic_types len ++ q) h.0 plain.0,
      shape_restores len q h.1 plain.1,
    )
    shape_restores RustType.infer q h plain = absurd h
    shape_restores (RustType.path qself segments) q h plain = rw (
      append_assoc (types_generic_types qself) (segments_generic_types segments) q,
      types_shape_restores qself (segments_generic_types segments ++ q) h.0 plain.0,
      segments_shape_restores segments q h.1 plain.1,
    )
    shape_restores (RustType.other tokens types) q h plain =
        rw (types_shape_restores types q h plain)

    types_shape_restores :
        (types : RustTypes) (q : List RustType)
        → TypesNoInfer types
        → TypesArePlain types
        → infer_types inner
            (types_shape name (λ _. RustType.infer) types)
            (types_generic_types types ++ q)
          ≡ resolved (types_shape name (λ ty. ty) types) q
    types_shape_restores RustTypes.nil q h plain = refl
    types_shape_restores (RustTypes.cons ty rest) q h plain = rw (
      append_assoc (generic_types ty) (types_generic_types rest) q,
      shape_restores ty (types_generic_types rest ++ q) h.0 plain.0,
      types_shape_restores rest q h.1 plain.1,
    )

    segments_shape_restores :
        (segments : Segments) (q : List RustType)
        → SegmentsNoInfer segments
        → SegmentsArePlain segments
        → infer_segments inner
            (segments_shape name (λ _. RustType.infer) segments)
            (segments_generic_types segments ++ q)
          ≡ resolved (segments_shape name (λ ty. ty) segments) q
    segments_shape_restores Segments.end q h plain = refl
    segments_shape_restores (Segments.plain ident rest) q h plain =
        rw (segments_shape_restores rest q h plain)
    segments_shape_restores (Segments.angle_bracketed ident args rest) q h plain = rw (
      append_assoc (arguments_generic_types args) (segments_generic_types rest) q,
      arguments_shape_restores args (segments_generic_types rest ++ q) h.0 plain.0,
      segments_shape_restores rest q h.1 plain.1,
    )
    segments_shape_restores (Segments.parenthesized ident types rest) q h plain = rw (
      append_assoc (types_generic_types types) (segments_generic_types rest) q,
      types_shape_restores types (segments_generic_types rest ++ q) h.0 plain.0,
      segments_shape_restores rest q h.1 plain.1,
    )

    arguments_shape_restores :
        (args : GenericArguments) (q : List RustType)
        → ArgumentsNoInfer args
        → ArgumentsArePlain args
        → infer_arguments inner
            (arguments_shape name (λ _. RustType.infer) args)
            (arguments_generic_types args ++ q)
          ≡ resolved (arguments_shape name (λ ty. ty) args) q
    arguments_shape_restores GenericArguments.none q h plain = refl
    arguments_shape_restores (GenericArguments.type_argument ty rest) q h plain =
        let later = arguments_generic_types rest ++ q in
        rw (
          append_assoc (push_argument ty (generic_types ty)) (arguments_generic_types rest) q,
          argument_lem ty later h.0 plain.0 (shape_restores ty later h.0 plain.1),
          arguments_shape_restores rest q h.1 plain.2,
        )
    arguments_shape_restores (GenericArguments.other_argument tokens types rest) q h plain = rw (
      append_assoc (types_generic_types types) (arguments_generic_types rest) q,
      types_shape_restores types (arguments_generic_types rest ++ q) h.0 plain.0,
      arguments_shape_restores rest q h.1 plain.1,
    )

shape_restores_own :
    (name : String → String) (ty : RustType) (collected : List RustType)
    → generic_types ty ≡ collected
    → NoInfer ty
    → ArePlain ty
    → visit_type
        (suc (length (or_own ty collected)))
        (with_placeholders name ty)
        (or_own ty collected)
      ≡ resolved (with_names name ty) (drop (length collected) (or_own ty collected))
unfolding visit_type
shape_restores_own name ty [] e h plain =
    subst
      (λ l.
        infer_type (visit_type 1) (with_placeholders name ty) (l ++ (ty ∷ []))
        ≡ resolved (with_names name ty) (ty ∷ []))
      e
      (shape_restores name (visit_type 1) (λ t q k. infer_type-NoInfer (visit_type 0) t q k) ty
        (ty ∷ []) h plain)
shape_restores_own name ty (arg ∷ args) e h plain =
    let fuel = length args in
    let run =
      shape_restores name (visit_type (suc fuel))
        (λ t q k. infer_type-NoInfer (visit_type fuel) t q k) ty [] h plain in
    let whole : drop (length args) args ≡ [] =
      ap (drop (length args)) (sym (append-nil args)) ∙ drop-append args [] in
    rw whole (
      subst
        (λ l.
          infer_type (visit_type (suc fuel)) (with_placeholders name ty) l
          ≡ resolved (with_names name ty) [])
        (append-nil (generic_types ty) ∙ e) run)

-- For a field type without `_` and with plain generic arguments, the adapter of the same shape, with
-- other names and `_` for every argument, resolves to the field type under the adapter's names: each
-- placeholder takes the type that stands in its place. Nothing is left of the collected types.
pub target_resolved-shape :
    (name : String → String) (ty : RustType)
    → NoInfer ty
    → ArePlain ty
    → target_resolved ty (some (with_placeholders name ty))
      ≡ resolved
          (with_names name ty)
          (drop (length (generic_types ty)) (or_own ty (generic_types ty)))
unfolding target_resolved
target_resolved-shape name ty h plain = shape_restores_own name ty (generic_types ty) refl h plain
