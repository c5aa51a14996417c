-- ===== src/Tests/Compiling.antt =====
-- Declarations with their traits under the derive macro and the compiler: that of
-- wincode-dynamic/src/compile_fail.rs, and an enum with a tag type of
-- wincode-dynamic/src/lib.rs.
use wincode_dynamic.Prelude.{
  All, String, ◌≡◌, ◌++◌, refl, List, [], ◌∷◌, Bool, Option, none, some, true, false, if◌then◌else◌,
  usize_mod, ◌-◌, checked_add, arith,
}
use text.Mathlib.Text.{◌==◌ as same_text}
use wincode_dynamic.Wincode.{Primitive, TypeMeta}
use wincode_dynamic.Wincode.Slice.{slices}
use wincode_dynamic.Wincode.Slice.Lawful.{slices_laws, slice}
use wincode_dynamic.Ty.{FieldType}
use wincode_dynamic.Syntax.{RustType, RustTypes, Segments}
use wincode_dynamic.Adapter.{target_resolved}
use wincode_dynamic.Adapter.Holes.{NoInfer}
use wincode_dynamic.Decoder.{decoder}
use wincode_dynamic.Decoder.RoundTrip.{encode, Decodes}
use wincode_dynamic.Derive
use wincode_dynamic.Derive.{SerializedSize}
use wincode_dynamic.Derive.Reflect.{FieldValues, DeclaredValue, rows, to_value}
use wincode_dynamic.Expand.{Field, Variant, Body, Args, Predicate, where_clause, target_of}
use wincode_dynamic.Expand.Traits.{Traits, Holds, Means}
use wincode_dynamic.Expand.Bounds.{where_clause-Means}
use wincode_dynamic.Expand.Compile.{Outcome, derive}
use wincode_dynamic.Expand.Compile.Cases.{Decides, Becomes, derive_cases}
use wincode_dynamic.Expand.Compile.Decodes.{derive-Decodes}
use wincode_dynamic.Tests.Adapting.{named}
use wincode_dynamic.Tests.Fixtures
use wincode_dynamic.Tests.Data.{trailer}

-- The trait implementations of one type: `DynTy::TYPE` as a Rust type, and the `TYPE_META` of both
-- directions, with the type itself as `Src` and `Dst`.
abbrev pub Impl : Type 0
Impl = FieldType × TypeMeta

abbrev name_of : RustType → String
name_of (RustType.path RustTypes.nil (Segments.plain name Segments.end)) = name
name_of _ = ""

abbrev find : List (String × Impl) → String → Option Impl
find [] name = none
find ((ident, impl) ∷ impls) name = if same_text ident name then some impl else find impls name

abbrev dyn_ty_of : Option Impl → Option FieldType
dyn_ty_of none = none
dyn_ty_of (some (ty, meta)) = some ty

abbrev meta_of : RustType → Option Impl → Option (TypeMeta × RustType)
meta_of ty none = none
meta_of ty (some (_, meta)) = some (meta, ty)

abbrev primitive_of : Option Impl → Option Primitive
primitive_of (some (FieldType.primitive A, meta)) = some A
primitive_of _ = none

-- The traits in scope, for a list of types, and the `TYPE_META` of the container.
abbrev pub scope : List (String × Impl) → TypeMeta → Traits
scope impls meta = record {
  dyn_ty = λ ty. dyn_ty_of (find impls (name_of ty));
  schema_read = λ ty. meta_of ty (find impls (name_of ty));
  schema_write = λ ty. meta_of ty (find impls (name_of ty));
  container_read = some meta;
  container_write = some meta;
  dyn_primitive_ty = λ ty. primitive_of (find impls (name_of ty));
}

abbrev u8_impl : String × Impl
u8_impl = ("u8", (FieldType.primitive Primitive.u8, TypeMeta.static 1))

abbrev pub u64_impl : String × Impl
u64_impl = ("u64", (FieldType.primitive Primitive.u64, TypeMeta.static 8))

-- `impl DynTy for Huge`, `impl SchemaWrite for Huge`, `impl SchemaRead for Huge`
abbrev huge_impl : String × Impl
huge_impl = ("Huge", (FieldType.primitive Primitive.u8, TypeMeta.static (usize_mod - 1)))

-- `impl SchemaWrite for Overflow`, `impl SchemaRead for Overflow`
abbrev overflow_traits : Traits
overflow_traits = scope (huge_impl ∷ u8_impl ∷ []) TypeMeta.dynamic

abbrev tuple_field : String → Field
tuple_field ty = record { ident = none; ty = named ty; adapter = none; skip = none }

abbrev variant : String → List Field → Variant
variant ident fields = record { ident = ident; fields = fields; tag = none }

-- `enum Overflow`
abbrev overflow_args : Args
overflow_args = record {
  ident = "Overflow";
  body =
      Body.enum
        (variant "Huge" (tuple_field "Huge" ∷ []) ∷ variant "Byte" (tuple_field "u8" ∷ []) ∷ []);
  internal = false;
  crate_path = none;
  tag_encoding = none;
}

abbrev pub trusting : Predicate → Bool
trusting p = true

-- `const _: SerializedSize = Overflow::SERIALIZED_SIZE` does not compile.
overflow_does_not_compile :
    derive overflow_traits trusting (TypeMeta.static 4) overflow_args ≡ Outcome.size_overflow
unfolding derive Derive.generate Derive.max_serialized_size checked_add
overflow_does_not_compile = refl

trusting-Decides : Decides overflow_traits trusting (where_clause overflow_args)
unfolding where_clause
trusting-Decides = (
  (λ e. (_, refl), λ h. refl),
  (
    (λ e. (_, refl), λ h. refl),
    (
      (λ e. (_, refl), λ h. refl),
      (
        (λ e. (_, refl), λ h. refl),
        (
          (λ e. (_, refl), λ h. refl),
          (
            (λ e. (_, refl), λ h. refl),
            ((λ e. (_, refl), λ h. refl), ((λ e. (_, refl), λ h. refl), tt)),
          ),
        ),
      ),
    ),
  ),
)

derive_cases_example : Becomes overflow_traits trusting (TypeMeta.static 4) overflow_args
unfolding NoInfer
derive_cases_example =
    derive_cases overflow_traits trusting (TypeMeta.static 4) overflow_args
      ((((tt, tt), tt)), ((((tt, tt), tt)), tt)) trusting-Decides

-- `enum U8EnumMessage`
abbrev u8_enum_args : Args
u8_enum_args = record {
  ident = "U8EnumMessage";
  body = Body.enum (variant "Ping" [] ∷ variant "Value" (tuple_field "u64" ∷ []) ∷ []);
  internal = true;
  crate_path = none;
  tag_encoding = some (named "u8");
}

abbrev u8_enum_traits : Traits
u8_enum_traits = scope (u8_impl ∷ u64_impl ∷ []) TypeMeta.dynamic

u8_enum_derived :
    derive u8_enum_traits trusting (TypeMeta.static 4) u8_enum_args
    ≡ Outcome.schema_dynamic (SerializedSize.static 9) (Derive.root_schema Fixtures.u8_enum_message)
unfolding derive Derive.generate Derive.max_serialized_size checked_add Derive.root_schema
u8_enum_derived = refl

u8_enum-Means :
    Means u8_enum_traits
      (TypeMeta.static 4)
      u8_enum_args
      (TypeMeta.static 1)
      Fixtures.u8_enum_message
unfolding target_resolved target_of
u8_enum-Means = (
  refl,
  (
    (refl, refl, tt),
    ((refl, refl, ((refl, refl, (refl, (_, refl), (_, refl, (_, refl)))), tt)), tt),
  ),
  (refl, (_, refl)),
  refl,
  refl,
)

abbrev value_variant : Derive.Variant
value_variant = Fixtures.variant "Value" (Fixtures.u64_field none ∷ [])

abbrev value_77 : DeclaredValue (some Primitive.u8) Fixtures.u8_enum_message.body
value_77 =
    DeclaredValue.variant 1 value_variant 1 refl refl (omega arith)
      (FieldValues.value refl 77 FieldValues.nil)

derive-Decodes_example :
    Decodes slices slices_laws
      (decoder (Derive.root_schema Fixtures.u8_enum_message))
      (to_value (some Primitive.u8) value_77)
      (slice (encode slices (to_value (some Primitive.u8) value_77) ++ trailer))
      trailer
unfolding to_value rows
derive-Decodes_example =
    derive-Decodes u8_enum_traits trusting (TypeMeta.static 4) slices slices_laws u8_enum_args
      (SerializedSize.static 9) (Derive.root_schema Fixtures.u8_enum_message) (TypeMeta.static 1)
      Fixtures.u8_enum_message value_77
      (slice (encode slices (to_value (some Primitive.u8) value_77) ++ trailer)) trailer
      u8_enum_derived u8_enum-Means (omega arith, tt) refl

abbrev u8_enum_predicates : List Predicate
u8_enum_predicates =
    Predicate.container_write
    ∷ Predicate.container_read
    ∷ Predicate.dyn_ty (named "u64")
    ∷ Predicate.schema_read (named "u64") (named "u64")
    ∷ Predicate.schema_write (named "u64") (named "u64")
    ∷ []

u8_enum_where_clause : where_clause u8_enum_args ≡ some u8_enum_predicates
unfolding where_clause
u8_enum_where_clause = refl

u8_enum-Holds : All (Holds u8_enum_traits) u8_enum_predicates
u8_enum-Holds = ((_, refl), ((_, refl), ((_, refl), ((_, refl), ((_, refl), tt)))))

where_clause-Means_example :
    (meaning : Derive.Args) × Means u8_enum_traits
      (TypeMeta.static 4)
      u8_enum_args
      (TypeMeta.static 1)
      meaning
where_clause-Means_example =
    where_clause-Means u8_enum_traits (TypeMeta.static 4) u8_enum_args (some Primitive.u8)
      (TypeMeta.static 1) u8_enum_predicates u8_enum_where_clause u8_enum-Holds
      (refl, (named "u8", refl))
