-- ===== src/Adapter/Shape.antt =====
-- wincode-dynamic-derive/src/lib.rs: adapters of the same shape as a field type, with a placeholder
-- for every type that `GenericTypes` collects.
use wincode_dynamic.Prelude.{String, ◌≡◌, ◌⊎◌, true, [], if◌then◌else◌}
use wincode_dynamic.Syntax.{
  RustType, RustTypes, Segments, GenericArguments, generic_types, types_generic_types,
  has_angle_bracketed,
}

-- An argument that is collected as a whole, or into which the collection goes, but not both: not a
-- slice, since the `_` of `[_]` is not a placeholder, nor a tuple or a qualified path with generic
-- arguments inside.
unfoldable pub IsPlain : RustType → Type 0
unfolding generic_types
IsPlain (RustType.slice elem) = ⊥
IsPlain (RustType.array elem len) = Unit
IsPlain RustType.infer = Unit
IsPlain (RustType.path qself segments) =
    (has_angle_bracketed segments ≡ true) ⊎ (generic_types (RustType.path qself segments) ≡ [])
IsPlain (RustType.other tokens types) = types_generic_types types ≡ []

unfoldable mutual
  unfolding IsPlain

  -- A type all of whose generic arguments are plain.
  pub ArePlain : RustType → Type 0
  ArePlain (RustType.slice elem) = ArePlain elem
  ArePlain (RustType.array elem len) = ArePlain elem × ArePlain len
  ArePlain RustType.infer = Unit
  ArePlain (RustType.path qself segments) = TypesArePlain qself × SegmentsArePlain segments
  ArePlain (RustType.other tokens types) = TypesArePlain types

  pub TypesArePlain : RustTypes → Type 0
  TypesArePlain RustTypes.nil = Unit
  TypesArePlain (RustTypes.cons ty rest) = ArePlain ty × TypesArePlain rest

  pub SegmentsArePlain : Segments → Type 0
  SegmentsArePlain Segments.end = Unit
  SegmentsArePlain (Segments.plain ident rest) = SegmentsArePlain rest
  SegmentsArePlain (Segments.angle_bracketed ident args rest) =
      ArgumentsArePlain args × SegmentsArePlain rest
  SegmentsArePlain (Segments.parenthesized ident types rest) =
      TypesArePlain types × SegmentsArePlain rest

  pub ArgumentsArePlain : GenericArguments → Type 0
  ArgumentsArePlain GenericArguments.none = Unit
  ArgumentsArePlain (GenericArguments.type_argument ty rest) =
      IsPlain ty × ArePlain ty × ArgumentsArePlain rest
  ArgumentsArePlain (GenericArguments.other_argument tokens types rest) =
      TypesArePlain types × ArgumentsArePlain rest

-- What stands in the place of an argument, given what its inside becomes.
unfoldable pub put_argument : (RustType → RustType) → RustType → RustType → RustType
put_argument put (RustType.array elem len) inside = RustType.array (put elem) len
put_argument put (RustType.path qself segments) inside =
    if has_angle_bracketed segments then inside else put (RustType.path qself segments)
put_argument put (RustType.slice elem) inside = inside
put_argument put RustType.infer inside = put RustType.infer
put_argument put (RustType.other tokens types) inside = put (RustType.other tokens types)

-- The type with other names for what carries generic arguments, and `put` at each type argument that has no
-- arguments of its own.
unfoldable mutual
  unfolding put_argument

  pub shape : (String → String) → (RustType → RustType) → RustType → RustType
  shape name put (RustType.slice elem) = RustType.slice (shape name put elem)
  shape name put (RustType.array elem len) =
      RustType.array (shape name put elem) (shape name put len)
  shape name put RustType.infer = RustType.infer
  shape name put (RustType.path qself segments) =
      RustType.path (types_shape name put qself) (segments_shape name put segments)
  shape name put (RustType.other tokens types) = RustType.other tokens (types_shape name put types)

  pub types_shape : (String → String) → (RustType → RustType) → RustTypes → RustTypes
  types_shape name put RustTypes.nil = RustTypes.nil
  types_shape name put (RustTypes.cons ty rest) =
      RustTypes.cons (shape name put ty) (types_shape name put rest)

  pub segments_shape : (String → String) → (RustType → RustType) → Segments → Segments
  segments_shape name put Segments.end = Segments.end
  segments_shape name put (Segments.plain ident rest) =
      Segments.plain ident (segments_shape name put rest)
  segments_shape name put (Segments.angle_bracketed ident args rest) =
      Segments.angle_bracketed (name ident) (arguments_shape name put args)
        (segments_shape name put rest)
  segments_shape name put (Segments.parenthesized ident types rest) =
      Segments.parenthesized ident (types_shape name put types) (segments_shape name put rest)

  pub arguments_shape :
      (String → String) → (RustType → RustType) → GenericArguments → GenericArguments
  arguments_shape name put GenericArguments.none = GenericArguments.none
  arguments_shape name put (GenericArguments.type_argument ty rest) =
      GenericArguments.type_argument (put_argument put ty (shape name put ty))
        (arguments_shape name put rest)
  arguments_shape name put (GenericArguments.other_argument tokens types rest) =
      GenericArguments.other_argument tokens (types_shape name put types)
        (arguments_shape name put rest)

-- An adapter for a type, with `_` for every collected type.
abbrev pub with_placeholders : (String → String) → RustType → RustType
with_placeholders name = shape name (λ _. RustType.infer)

-- The type under the adapter's names.
abbrev pub with_names : (String → String) → RustType → RustType
with_names name = shape name (λ ty. ty)
