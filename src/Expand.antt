-- ===== src/Expand.antt =====
-- wincode-dynamic-derive/src/lib.rs and wincode_dynamic.rs: the declaration as the macro reads it,
-- the `where` clause of the implementation that it generates, and the paths of its output.
pub mod Traits
pub mod Bounds
pub mod Skipped
pub mod Panics
pub mod Compile
use Prim.Native.String.{◌++◌ as text_append}
use wincode_dynamic.Prelude.{
  String, Bool, true, false, List, [], ◌∷◌, ◌++◌, Option, none, some, if◌then◌else◌,
}
use wincode_dynamic.Syntax.{RustType}
use wincode_dynamic.Adapter.{Resolved, resolved, panics, out_of_fuel, target_resolved}

-- `enum SkipMode`, with the tokens of an expression.
pub data SkipMode : Type 0 where
  default : SkipMode
  default_val : String → SkipMode

-- `struct Field`; `adapter` is the field `with`.
pub record Field : Type 0 where
  pub ident : Option String
  pub ty : RustType
  pub adapter : Option RustType
  pub skip : Option SkipMode

-- `struct Variant`; `tag` is the expression of an explicit `#[wincode(tag = …)]`.
pub record Variant : Type 0 where
  pub ident : String
  pub fields : List Field
  pub tag : Option String

-- `Data<Variant, Field>`
pub data Body : Type 0 where
  struct : List Field → Body
  enum : List Variant → Body

-- `struct Args`; a path is its tokens.
pub record Args : Type 0 where
  pub ident : String
  pub body : Body
  pub internal : Bool
  pub crate_path : Option String
  pub tag_encoding : Option RustType

-- A predicate of the `where` clause: on the container, and on the types of its fields.
pub data Predicate : Type 0 where
  container_write : Predicate
  container_read : Predicate
  dyn_ty : RustType → Predicate
  schema_read : (ty dst : RustType) → Predicate
  schema_write : (target src : RustType) → Predicate

abbrev pub is_some {ℓ} : {A : Type ℓ} → Option A → Bool
is_some none = false
is_some (some _) = true

-- The type that a visit of an adapter gives; `none` is the panic of the macro.
unfoldable pub target_of : Resolved RustType → Option RustType
target_of (resolved target rest) = some target
target_of panics = none
target_of out_of_fuel = none

abbrev pub bounds_for : RustType → Option RustType → Option (List Predicate)
bounds_for ty none = none
bounds_for ty (some target) =
    some (Predicate.dyn_ty ty ∷ Predicate.schema_read ty ty ∷ Predicate.schema_write target ty ∷ [])

-- `add_field_bounds`: the predicates that it pushes.
unfoldable pub add_field_bounds : Field → Option (List Predicate)
unfolding target_of target_resolved
add_field_bounds field =
    if is_some field.skip
    then some []
    else bounds_for field.ty (target_of (target_resolved field.ty field.adapter))

abbrev pub append_bounds :
    Option (List Predicate) → Option (List Predicate) → Option (List Predicate)
append_bounds none later = none
append_bounds (some ps) none = none
append_bounds (some ps) (some qs) = some (ps ++ qs)

-- `fields.iter().for_each(&mut add_field_bounds)`
unfoldable pub fields_bounds : List Field → Option (List Predicate)
unfolding add_field_bounds
fields_bounds [] = some []
fields_bounds (field ∷ fields) = append_bounds (add_field_bounds field) (fields_bounds fields)

-- `variants.iter().flat_map(|variant| variant.fields.iter()).for_each(add_field_bounds)`
unfoldable pub variants_bounds : List Variant → Option (List Predicate)
unfolding fields_bounds
variants_bounds [] = some []
variants_bounds (variant ∷ variants) =
    append_bounds (fields_bounds variant.fields) (variants_bounds variants)

unfoldable pub body_bounds : Body → Option (List Predicate)
unfolding fields_bounds variants_bounds
body_bounds (Body.struct fields) = fields_bounds fields
body_bounds (Body.enum variants) = variants_bounds variants

-- The predicates that `generate` adds to those of the declaration.
unfoldable pub where_clause : Args → Option (List Predicate)
unfolding body_bounds
where_clause args =
    append_bounds (some (Predicate.container_write ∷ Predicate.container_read ∷ []))
      (body_bounds args.body)

-- `Args::get_crate_name`
unfoldable pub get_crate_name : Args → String
get_crate_name args = elim args.crate_path [
  | some crate_path ↦ crate_path
  | none ↦ if args.internal then "crate" else "::wincode_dynamic"
]

-- `wincode_path`
unfoldable pub wincode_path : String → String
wincode_path crate_name = text_append crate_name "::__wincode"
