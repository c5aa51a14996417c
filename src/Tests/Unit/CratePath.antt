-- ===== src/Tests/Unit/CratePath.antt =====
-- wincode-dynamic/tests/derive_crate_path.rs: declarations whose crate path is configured.
use wincode_dynamic.Prelude.{
  ◌≡◌, refl, Bool, true, false, ◌&&◌, ◌==◌, [], ◌∷◌, String, none, some, checked_add,
}
use wincode_dynamic.Wincode.{Primitive, TypeMeta}
use wincode_dynamic.Ty.{FieldType}
use wincode_dynamic.Adapter.{target_resolved}
use wincode_dynamic.Schema.{RootSchema}
use wincode_dynamic.Derive
use wincode_dynamic.Derive.{SerializedSize}
use wincode_dynamic.Expand.{
  Field, Body, Args, where_clause, get_crate_name, wincode_path, target_of,
}
use wincode_dynamic.Expand.Compile.{Outcome, derive}
use wincode_dynamic.Tests.Adapting.{named}
use wincode_dynamic.Tests.Compiling.{Impl, scope, u64_impl, trusting}

abbrev u32_impl : String × Impl
u32_impl = ("u32", (FieldType.primitive Primitive.u32, TypeMeta.static 4))

abbrev value_field : String → Field
value_field ty = record { ident = some "value"; ty = named ty; adapter = none; skip = none }

-- `#[wincode(crate = "crate::reexports")]`
abbrev reexported : String → Body → Args
reexported ident body = record {
  ident = ident;
  body = body;
  internal = false;
  crate_path = some "crate::reexports";
  tag_encoding = none;
}

-- `struct Struct`
abbrev struct_args : Args
struct_args = reexported "Struct" (Body.struct (value_field "u64" ∷ []))

-- `enum Enum`
abbrev enum_args : Args
enum_args = reexported "Enum" (
    Body.enum (
      record { ident = "Unit"; fields = []; tag = none }
      ∷ record { ident = "Value"; fields = value_field "u32" ∷ []; tag = none }
      ∷ []))

abbrev struct_outcome : Outcome
struct_outcome =
    derive (scope (u64_impl ∷ []) (TypeMeta.static 8)) trusting (TypeMeta.static 4) struct_args

abbrev enum_outcome : Outcome
enum_outcome =
    derive (scope (u32_impl ∷ []) TypeMeta.dynamic) trusting (TypeMeta.static 4) enum_args

abbrev has_static_size_8 : Outcome → Bool
has_static_size_8 (Outcome.schema_dynamic (SerializedSize.static n) root) = n == 8
has_static_size_8 _ = false

abbrev is_struct : Outcome → Bool
is_struct (Outcome.schema_dynamic size (RootSchema.struct schema)) = true
is_struct _ = false

abbrev is_enum : Outcome → Bool
is_enum (Outcome.schema_dynamic size (RootSchema.enum variants max_size name tag)) = true
is_enum _ = false

-- `derive_resolves_wincode_through_crate_path`
abbrev derive_resolves_wincode_through_crate_path : Bool
derive_resolves_wincode_through_crate_path =
    has_static_size_8 struct_outcome && (is_struct struct_outcome && is_enum enum_outcome)

-- The generated code reaches wincode by the configured path only, and with that the test passes.
crate_path_test_passes :
    (wincode_path (get_crate_name struct_args) ≡ "crate::reexports::__wincode")
    × (wincode_path (get_crate_name enum_args) ≡ "crate::reexports::__wincode")
    × (derive_resolves_wincode_through_crate_path ≡ true)
unfolding wincode_path get_crate_name derive where_clause target_of target_resolved Derive.generate
    Derive.max_serialized_size Derive.root_schema checked_add
crate_path_test_passes = (refl, refl, refl)
