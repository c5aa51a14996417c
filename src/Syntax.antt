-- ===== src/Syntax.antt =====
-- wincode-dynamic-derive/src/lib.rs: the types that the macro reads, and `GenericTypes`, which
-- collects their generic arguments. The syntax tree is that of the `syn` crate, with the nodes apart
-- that the macro tells apart; `syn`'s visitor goes through the children of a node in order.
use wincode_dynamic.Prelude.{String, Bool, true, false, List, [], ◌∷◌, ◌++◌, if◌then◌else◌}

mutual
  -- `syn::Type`. A path may have a qualified self type before it; a length expression, and every
  -- type of another kind, is its tokens and the types and paths in it.
  pub data RustType : Type 0 where
    slice : RustType → RustType
    array : (elem len : RustType) → RustType
    infer : RustType
    path : (qself : RustTypes) (segments : Segments) → RustType
    other : (tokens : String) (types : RustTypes) → RustType

  pub data RustTypes : Type 0 where
    nil : RustTypes
    cons : RustType → RustTypes → RustTypes

  -- `syn::PathSegment`s with their `syn::PathArguments`.
  pub data Segments : Type 0 where
    end : Segments
    plain : (ident : String) → Segments → Segments
    angle_bracketed : (ident : String) → GenericArguments → Segments → Segments
    parenthesized : (ident : String) → RustTypes → Segments → Segments

  -- `syn::GenericArgument`s: types, and arguments of another kind.
  pub data GenericArguments : Type 0 where
    none : GenericArguments
    type_argument : RustType → GenericArguments → GenericArguments
    other_argument : (tokens : String) → RustTypes → GenericArguments → GenericArguments

-- `path.path.segments.iter().any(|segment| matches!(segment.arguments, AngleBracketed(_)))`
unfoldable pub has_angle_bracketed : Segments → Bool
has_angle_bracketed Segments.end = false
has_angle_bracketed (Segments.plain ident rest) = has_angle_bracketed rest
has_angle_bracketed (Segments.angle_bracketed ident args rest) = true
has_angle_bracketed (Segments.parenthesized ident types rest) = has_angle_bracketed rest

-- What `visit_generic_argument` pushes for a type argument, and whether it goes on into the
-- argument, whose own arguments are `inner`.
unfoldable pub push_argument : RustType → List RustType → List RustType
unfolding has_angle_bracketed
push_argument (RustType.slice elem) inner = elem ∷ []
push_argument (RustType.array elem len) inner = elem ∷ []
push_argument (RustType.path qself segments) inner =
    if has_angle_bracketed segments then inner else RustType.path qself segments ∷ inner
push_argument RustType.infer inner = RustType.infer ∷ inner
push_argument (RustType.other tokens types) inner = RustType.other tokens types ∷ inner

-- `GenericTypes`: the arguments in the order in which they are pushed.
unfoldable mutual
  unfolding push_argument

  pub generic_types : RustType → List RustType
  generic_types (RustType.slice elem) = generic_types elem
  generic_types (RustType.array elem len) = generic_types elem ++ generic_types len
  generic_types RustType.infer = []
  generic_types (RustType.path qself segments) =
      types_generic_types qself ++ segments_generic_types segments
  generic_types (RustType.other tokens types) = types_generic_types types

  pub types_generic_types : RustTypes → List RustType
  types_generic_types RustTypes.nil = []
  types_generic_types (RustTypes.cons ty rest) = generic_types ty ++ types_generic_types rest

  pub segments_generic_types : Segments → List RustType
  segments_generic_types Segments.end = []
  segments_generic_types (Segments.plain ident rest) = segments_generic_types rest
  segments_generic_types (Segments.angle_bracketed ident args rest) =
      arguments_generic_types args ++ segments_generic_types rest
  segments_generic_types (Segments.parenthesized ident types rest) =
      types_generic_types types ++ segments_generic_types rest

  pub arguments_generic_types : GenericArguments → List RustType
  arguments_generic_types GenericArguments.none = []
  arguments_generic_types (GenericArguments.type_argument ty rest) =
      push_argument ty (generic_types ty) ++ arguments_generic_types rest
  arguments_generic_types (GenericArguments.other_argument tokens types rest) =
      types_generic_types types ++ arguments_generic_types rest
