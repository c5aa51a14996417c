-- ===== src/Adapter/Filled.antt =====
-- wincode-dynamic-derive/src/lib.rs, `Field::target_resolved`: which adapters of a field resolve,
-- and to what.
use wincode_dynamic.Prelude.{
  ◌≡◌, refl, sym, subst, Bool, true, false, List, [], ◌∷◌, drop, All, if◌then◌else◌, arith,
}
use wincode_dynamic.Syntax.{RustType, RustTypes, Segments, GenericArguments}
use wincode_dynamic.Adapter.{
  Resolved, resolved, Visitor, map_resolved, is_infer, pop_front, infer_type, infer_types,
  infer_segments, infer_arguments,
}
use wincode_dynamic.Adapter.Holes.{
  NoInfer, at_position, placeholders, types_placeholders, segments_placeholders,
  arguments_placeholders, placeholders-NoInfer, at_position_none, Filled, bind-Filled, map-Filled,
  Filled-imp, All-drop,
}

-- No placeholder is left in a visited type, and `_` itself is left alone.
abbrev pub Visited : RustType → RustType → Type 0
Visited ty visited = (placeholders visited ≡ 0) × (is_infer visited ≡ is_infer ty)

abbrev pub IsFull : RustType → Type 0
IsFull ty = at_position ty (placeholders ty) ≡ 0

abbrev TypesFull : RustTypes → Type 0
TypesFull types = types_placeholders types ≡ 0

abbrev SegmentsFull : Segments → Type 0
SegmentsFull segments = segments_placeholders segments ≡ 0

abbrev ArgumentsFull : GenericArguments → Type 0
ArgumentsFull args = arguments_placeholders args ≡ 0

module _ (inner : Visitor RustType)
    (inner_lem : (ty : RustType) (q : List RustType)
      → NoInfer ty
      → inner ty q ≡ resolved ty q) where
  pop_front-Filled : (q : List RustType) → All NoInfer q → Filled IsFull 1 q (pop_front inner q)
  pop_front-Filled [] h = omega arith
  pop_front-Filled (first ∷ rest) h =
      subst (Filled IsFull 1 (first ∷ rest)) (sym (inner_lem first rest h.0)) (
        at_position_none first h.0 (placeholders first) (placeholders-NoInfer first h.0),
        omega arith,
        refl,
      )

  -- At a position in which a placeholder is replaced.
  choice-Filled :
      (b : Bool) (ty : RustType) (q : List RustType) (r : Resolved RustType)
      → is_infer ty ≡ b
      → All NoInfer q
      → Filled (Visited ty) (placeholders ty) q r
      → Filled IsFull (if b then 1 else placeholders ty) q (if b then pop_front inner q else r)
  unfolding at_position
  choice-Filled true ty q r e all h = pop_front-Filled q all
  choice-Filled false ty q r e all h =
      Filled-imp (Visited ty) IsFull (placeholders ty) q r h (λ visited k. rw (k.1, e, k.0))

  position-Filled :
      (ty : RustType) (q : List RustType)
      → All NoInfer q
      → Filled (Visited ty) (placeholders ty) q (infer_type inner ty q)
      → Filled IsFull
          (at_position ty (placeholders ty))
          q
          (if is_infer ty then pop_front inner q else infer_type inner ty q)
  unfolding at_position
  position-Filled ty q all h = choice-Filled (is_infer ty) ty q (infer_type inner ty q) refl all h

  mutual
    unfolding infer_type placeholders is_infer

    pub infer_type-Filled :
        (ty : RustType) (q : List RustType)
        → All NoInfer q
        → Filled (Visited ty) (placeholders ty) q (infer_type inner ty q)
    infer_type-Filled (RustType.slice elem) q all =
        map-Filled (Visited elem) (Visited (RustType.slice elem)) (placeholders elem) q
          (infer_type inner elem q) RustType.slice (infer_type-Filled elem q all)
          (λ visited h. (h.0, refl))
    infer_type-Filled (RustType.array elem len) q all =
        let m = at_position elem (placeholders elem) in
        bind-Filled IsFull (Visited (RustType.array elem len)) m (placeholders len) q
          (if is_infer elem then pop_front inner q else infer_type inner elem q)
          (λ elem' q'. map_resolved (RustType.array elem') (infer_type inner len q'))
          (position-Filled elem q all (infer_type-Filled elem q all))
          (λ elem' h.
            map-Filled (Visited len) (Visited (RustType.array elem len)) (placeholders len)
              (drop m q) (infer_type inner len (drop m q)) (RustType.array elem')
              (infer_type-Filled len (drop m q) (All-drop NoInfer m q all))
              (λ len' k. (omega (arith, h, k.0), refl)))
    infer_type-Filled RustType.infer q all = ((refl, refl), omega arith, refl)
    infer_type-Filled (RustType.path qself segments) q all =
        let m = types_placeholders qself in
        bind-Filled TypesFull (Visited (RustType.path qself segments)) m
          (segments_placeholders segments) q (infer_types inner qself q)
          (λ qself' q'. map_resolved (RustType.path qself') (infer_segments inner segments q'))
          (infer_types-Filled qself q all)
          (λ qself' h.
            map-Filled SegmentsFull (Visited (RustType.path qself segments))
              (segments_placeholders segments) (drop m q) (infer_segments inner segments (drop m q))
              (RustType.path qself')
              (infer_segments-Filled segments (drop m q) (All-drop NoInfer m q all))
              (λ segments' k. (omega (arith, h, k), refl)))
    infer_type-Filled (RustType.other tokens types) q all =
        map-Filled TypesFull (Visited (RustType.other tokens types)) (types_placeholders types) q
          (infer_types inner types q) (RustType.other tokens) (infer_types-Filled types q all)
          (λ types' h. (h, refl))

    infer_types-Filled :
        (types : RustTypes) (q : List RustType)
        → All NoInfer q
        → Filled TypesFull (types_placeholders types) q (infer_types inner types q)
    infer_types-Filled RustTypes.nil q all = (refl, omega arith, refl)
    infer_types-Filled (RustTypes.cons ty rest) q all =
        let m = placeholders ty in
        bind-Filled (Visited ty) TypesFull m (types_placeholders rest) q (infer_type inner ty q)
          (λ ty' q'. map_resolved (RustTypes.cons ty') (infer_types inner rest q'))
          (infer_type-Filled ty q all)
          (λ ty' h.
            map-Filled TypesFull TypesFull (types_placeholders rest) (drop m q)
              (infer_types inner rest (drop m q)) (RustTypes.cons ty')
              (infer_types-Filled rest (drop m q) (All-drop NoInfer m q all))
              (λ rest' k. omega (arith, h.0, k)))

    infer_segments-Filled :
        (segments : Segments) (q : List RustType)
        → All NoInfer q
        → Filled SegmentsFull (segments_placeholders segments) q (infer_segments inner segments q)
    infer_segments-Filled Segments.end q all = (refl, omega arith, refl)
    infer_segments-Filled (Segments.plain ident rest) q all =
        map-Filled SegmentsFull SegmentsFull (segments_placeholders rest) q
          (infer_segments inner rest q) (Segments.plain ident) (infer_segments-Filled rest q all)
          (λ rest' h. h)
    infer_segments-Filled (Segments.angle_bracketed ident args rest) q all =
        let m = arguments_placeholders args in
        bind-Filled ArgumentsFull SegmentsFull m (segments_placeholders rest) q
          (infer_arguments inner args q)
          (λ args' q'.
            map_resolved (Segments.angle_bracketed ident args') (infer_segments inner rest q'))
          (infer_arguments-Filled args q all)
          (λ args' h.
            map-Filled SegmentsFull SegmentsFull (segments_placeholders rest) (drop m q)
              (infer_segments inner rest (drop m q)) (Segments.angle_bracketed ident args')
              (infer_segments-Filled rest (drop m q) (All-drop NoInfer m q all))
              (λ rest' k. omega (arith, h, k)))
    infer_segments-Filled (Segments.parenthesized ident types rest) q all =
        let m = types_placeholders types in
        bind-Filled TypesFull SegmentsFull m (segments_placeholders rest) q
          (infer_types inner types q)
          (λ types' q'.
            map_resolved (Segments.parenthesized ident types') (infer_segments inner rest q'))
          (infer_types-Filled types q all)
          (λ types' h.
            map-Filled SegmentsFull SegmentsFull (segments_placeholders rest) (drop m q)
              (infer_segments inner rest (drop m q)) (Segments.parenthesized ident types')
              (infer_segments-Filled rest (drop m q) (All-drop NoInfer m q all))
              (λ rest' k. omega (arith, h, k)))

    infer_arguments-Filled :
        (args : GenericArguments) (q : List RustType)
        → All NoInfer q
        → Filled ArgumentsFull (arguments_placeholders args) q (infer_arguments inner args q)
    infer_arguments-Filled GenericArguments.none q all = (refl, omega arith, refl)
    infer_arguments-Filled (GenericArguments.type_argument ty rest) q all =
        let m = at_position ty (placeholders ty) in
        bind-Filled IsFull ArgumentsFull m (arguments_placeholders rest) q
          (if is_infer ty then pop_front inner q else infer_type inner ty q)
          (λ ty' q'.
            map_resolved (GenericArguments.type_argument ty') (infer_arguments inner rest q'))
          (position-Filled ty q all (infer_type-Filled ty q all))
          (λ ty' h.
            map-Filled ArgumentsFull ArgumentsFull (arguments_placeholders rest) (drop m q)
              (infer_arguments inner rest (drop m q)) (GenericArguments.type_argument ty')
              (infer_arguments-Filled rest (drop m q) (All-drop NoInfer m q all))
              (λ rest' k. omega (arith, h, k)))
    infer_arguments-Filled (GenericArguments.other_argument tokens types rest) q all =
        let m = types_placeholders types in
        bind-Filled TypesFull ArgumentsFull m (arguments_placeholders rest) q
          (infer_types inner types q)
          (λ types' q'.
            map_resolved (GenericArguments.other_argument tokens types')
              (infer_arguments inner rest q'))
          (infer_types-Filled types q all)
          (λ types' h.
            map-Filled ArgumentsFull ArgumentsFull (arguments_placeholders rest) (drop m q)
              (infer_arguments inner rest (drop m q))
              (GenericArguments.other_argument tokens types')
              (infer_arguments-Filled rest (drop m q) (All-drop NoInfer m q all))
              (λ rest' k. omega (arith, h, k)))
