-- ===== src/Adapter.antt =====
-- wincode-dynamic-derive/src/lib.rs: `InferGeneric`, which puts the collected types in the place of
-- the placeholders of a `with` adapter, and `Field::target_resolved`.
pub mod Fuel
pub mod Holes
pub mod Filled
pub mod Resolve
pub mod Shape
pub mod Order
use wincode_dynamic.Prelude.{
  ℕ, zero, suc, Bool, true, false, List, [], ◌∷◌, Option, none, some, length, if◌then◌else◌,
}
use wincode_dynamic.Syntax.{RustType, RustTypes, Segments, GenericArguments, generic_types}

-- A visit: what the node has become and the types that are left; the panic of `expect`, where none
-- is left for a placeholder; or the end of the fuel.
pub data Resolved {ℓ} (A : Type ℓ) : Type ℓ where
  resolved : A → List RustType → Resolved A
  panics : Resolved A
  out_of_fuel : Resolved A

-- A visitor of nodes of one kind.
abbrev pub Visitor {ℓ} : Type ℓ → Type ℓ
Visitor A = A → List RustType → Resolved A

infixl 5 ◌>>=◌
-- One part of a node after another.
abbrev pub ◌>>=◌ {ℓ κ} :
    {A : Type ℓ} {B : Type κ} → Resolved A → (A → List RustType → Resolved B) → Resolved B
resolved a q >>= k = k a q
panics >>= k = panics
out_of_fuel >>= k = out_of_fuel

abbrev pub map_resolved {ℓ κ} : {A : Type ℓ} {B : Type κ} → (A → B) → Resolved A → Resolved B
map_resolved f m = m >>= λ a q. resolved (f a) q

unfoldable pub is_infer : RustType → Bool
is_infer RustType.infer = true
is_infer _ = false

-- `self.0.pop_front().expect(…)`, and the visit of the type that was put in.
abbrev pub pop_front : Visitor RustType → List RustType → Resolved RustType
pop_front inner [] = panics
pop_front inner (ty ∷ rest) = inner ty rest

-- `InferGeneric`'s visit of a node, given the visit of the types that it puts in.
unfoldable mutual
  unfolding is_infer

  pub infer_type : Visitor RustType → Visitor RustType
  infer_type inner (RustType.slice elem) q = map_resolved RustType.slice (infer_type inner elem q)
  infer_type inner (RustType.array elem len) q =
      (if is_infer elem then pop_front inner q else infer_type inner elem q) >>= λ elem' q'.
      map_resolved (RustType.array elem') (infer_type inner len q')
  infer_type inner RustType.infer q = resolved RustType.infer q
  infer_type inner (RustType.path qself segments) q = infer_types inner qself q >>= λ qself' q'.
      map_resolved (RustType.path qself') (infer_segments inner segments q')
  infer_type inner (RustType.other tokens types) q =
      map_resolved (RustType.other tokens) (infer_types inner types q)

  pub infer_types : Visitor RustType → Visitor RustTypes
  infer_types inner RustTypes.nil q = resolved RustTypes.nil q
  infer_types inner (RustTypes.cons ty rest) q = infer_type inner ty q >>= λ ty' q'.
      map_resolved (RustTypes.cons ty') (infer_types inner rest q')

  pub infer_segments : Visitor RustType → Visitor Segments
  infer_segments inner Segments.end q = resolved Segments.end q
  infer_segments inner (Segments.plain ident rest) q =
      map_resolved (Segments.plain ident) (infer_segments inner rest q)
  infer_segments inner (Segments.angle_bracketed ident args rest) q =
      infer_arguments inner args q >>= λ args' q'.
      map_resolved (Segments.angle_bracketed ident args') (infer_segments inner rest q')
  infer_segments inner (Segments.parenthesized ident types rest) q =
      infer_types inner types q >>= λ types' q'.
      map_resolved (Segments.parenthesized ident types') (infer_segments inner rest q')

  pub infer_arguments : Visitor RustType → Visitor GenericArguments
  infer_arguments inner GenericArguments.none q = resolved GenericArguments.none q
  infer_arguments inner (GenericArguments.type_argument ty rest) q =
      (if is_infer ty then pop_front inner q else infer_type inner ty q) >>= λ ty' q'.
      map_resolved (GenericArguments.type_argument ty') (infer_arguments inner rest q')
  infer_arguments inner (GenericArguments.other_argument tokens types rest) q =
      infer_types inner types q >>= λ types' q'.
      map_resolved (GenericArguments.other_argument tokens types') (infer_arguments inner rest q')

-- `InferGeneric(…).visit_type_mut(…)`. A type that is put in is visited too, with one type fewer.
unfoldable pub visit_type : ℕ → Visitor RustType
unfolding infer_type
visit_type zero ty q = out_of_fuel
visit_type (suc fuel) ty q = infer_type (visit_type fuel) ty q

-- `if generic_types.0.is_empty() { generic_types.0.push_back(self.ty.clone()); }`
abbrev pub or_own : RustType → List RustType → List RustType
or_own ty [] = ty ∷ []
or_own ty (arg ∷ args) = arg ∷ args

-- `Field::target_resolved`, of the declared type and the `with` adapter.
unfoldable pub target_resolved : RustType → Option RustType → Resolved RustType
unfolding visit_type generic_types
target_resolved ty none = resolved ty []
target_resolved ty (some adapter) =
    let q = or_own ty (generic_types ty) in visit_type (suc (length q)) adapter q
