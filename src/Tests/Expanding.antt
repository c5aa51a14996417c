-- ===== src/Tests/Expanding.antt =====
-- `where` clauses and the meaning of declarations.
use wincode_dynamic.Prelude.{
  String, ◌≡◌, refl, List, [], ◌∷◌, Option, none, some, true, false, if◌then◌else◌,
}
use text.Mathlib.Text.{◌==◌ as same_text}
use wincode_dynamic.Wincode.{Primitive, TypeMeta}
use wincode_dynamic.Ty.{FieldType}
use wincode_dynamic.Syntax.{RustType, RustTypes, Segments}
use wincode_dynamic.Adapter.{target_resolved}
use wincode_dynamic.Derive
use wincode_dynamic.Derive.{generate}
use wincode_dynamic.Expand.{
  SkipMode, Body, Args, Predicate, where_clause, target_of, get_crate_name, wincode_path,
}
use wincode_dynamic.Expand.Traits.{Traits, Means}
use wincode_dynamic.Expand.Skipped.{generate-Means}
use wincode_dynamic.Tests.Adapting.{named, applied}

abbrev width_of : Primitive → TypeMeta
width_of Primitive.bool = TypeMeta.static 1
width_of _ = TypeMeta.static 8

abbrev primitive_named : String → Option Primitive
primitive_named name =
    if same_text name "u64"
    then some Primitive.u64
    else if same_text name "bool"
    then some Primitive.bool
    else none

abbrev primitive_of : RustType → Option Primitive
primitive_of (RustType.path RustTypes.nil (Segments.plain name Segments.end)) = primitive_named name
primitive_of _ = none

-- The traits of the module of the crate's tests, as far as its declarations below use them.
abbrev traits : Traits
traits = record {
  dyn_ty = λ ty. elim (primitive_of ty) [ none ↦ none | some A ↦ some (FieldType.primitive A) ];
  schema_read = λ ty. elim (primitive_of ty) [ none ↦ none | some A ↦ some (width_of A, ty) ];
  schema_write = λ ty. elim (primitive_of ty) [
    | none ↦ some (TypeMeta.static 8, named "u64")
    | some A ↦ some (width_of A, ty)
  ];
  container_read = some TypeMeta.dynamic;
  container_write = some TypeMeta.dynamic;
  dyn_primitive_ty = primitive_of;
}

-- `struct OpaqueSkippedField`, whose skipped field is of a type with none of the traits.
abbrev opaque_skipped_field : Args
opaque_skipped_field = record {
  ident = "OpaqueSkippedField";
  body = Body.struct (
      record {
        ident = some "skipped";
        ty = named "Opaque";
        adapter = none;
        skip = some SkipMode.default;
      }
      ∷ record { ident = some "value"; ty = named "u64"; adapter = none; skip = none }
      ∷ []);
  internal = true;
  crate_path = none;
  tag_encoding = none;
}

-- `enum AdaptedFieldEnum`
abbrev adapted_field_enum : Args
adapted_field_enum = record {
  ident = "AdaptedFieldEnum";
  body = Body.enum (
      record {
        ident = "Adapted";
        fields =
            record { ident = none; ty = named "u64"; adapter = some (named "PodU64"); skip = none }
            ∷ [];
        tag = none;
      }
      ∷ record {
        ident = "Flag";
        fields = record { ident = none; ty = named "bool"; adapter = none; skip = none } ∷ [];
        tag = none;
      }
      ∷ []);
  internal = true;
  crate_path = none;
  tag_encoding = none;
}

crate_paths :
    (wincode_path (get_crate_name opaque_skipped_field) ≡ "crate::__wincode")
    × (get_crate_name (record opaque_skipped_field { crate_path = some "other::dynamic" })
        ≡ "other::dynamic")
    × (get_crate_name (record opaque_skipped_field { internal = false }) ≡ "::wincode_dynamic")
unfolding wincode_path get_crate_name
crate_paths = (refl, refl, refl)

abbrev adapted_predicates : List Predicate
adapted_predicates =
    Predicate.container_write
    ∷ Predicate.container_read
    ∷ Predicate.dyn_ty (named "u64")
    ∷ Predicate.schema_read (named "u64") (named "u64")
    ∷ Predicate.schema_write (named "PodU64") (named "u64")
    ∷ Predicate.dyn_ty (named "bool")
    ∷ Predicate.schema_read (named "bool") (named "bool")
    ∷ Predicate.schema_write (named "bool") (named "bool")
    ∷ []

adapted_where_clause : where_clause adapted_field_enum ≡ some adapted_predicates
unfolding where_clause
adapted_where_clause = refl

abbrev opaque_meaning : FieldType → Derive.Args
opaque_meaning ty = record {
  ident = "OpaqueSkippedField";
  body = Derive.Body.struct (
      record {
        ident = some "skipped";
        ty = ty;
        read_meta = TypeMeta.dynamic;
        write_meta = TypeMeta.dynamic;
        skip = true;
      }
      ∷ record {
        ident = some "value";
        ty = FieldType.primitive Primitive.u64;
        read_meta = TypeMeta.static 8;
        write_meta = TypeMeta.static 8;
        skip = false;
      }
      ∷ []);
  tag_encoding = none;
  read_meta = TypeMeta.dynamic;
  write_meta = TypeMeta.dynamic;
}

opaque-Means :
    (ty : FieldType)
    → Means traits (TypeMeta.static 4) opaque_skipped_field (TypeMeta.static 4) (opaque_meaning ty)
unfolding target_resolved target_of
opaque-Means ty = (
  refl,
  ((refl, refl, tt), ((refl, refl, (refl, (_, refl), (_, refl, (_, refl)))), tt)),
  (refl, refl),
  refl,
  refl,
)

generate-Means_example :
    generate (TypeMeta.static 4) (opaque_meaning FieldType.string)
    ≡ generate (TypeMeta.static 4) (opaque_meaning (FieldType.primitive Primitive.u8))
generate-Means_example =
    generate-Means traits (TypeMeta.static 4) opaque_skipped_field (TypeMeta.static 4)
      (TypeMeta.static 4) (opaque_meaning FieldType.string)
      (opaque_meaning (FieldType.primitive Primitive.u8)) (opaque-Means FieldType.string)
      (opaque-Means (FieldType.primitive Primitive.u8))

-- One placeholder more than there are types in `u64`.
abbrev pair_adapter : Args
pair_adapter = record opaque_skipped_field {
  body = Body.struct (
      record {
        ident = some "value";
        ty = named "u64";
        adapter = some (applied "Pair" (RustType.infer ∷ RustType.infer ∷ []));
        skip = none;
      }
      ∷ []);
}

pair_adapter_panics : where_clause pair_adapter ≡ none
unfolding where_clause
pair_adapter_panics = refl
