-- ===== src/Tests/Adapting.antt =====
-- Adapters of fields.
use wincode_dynamic.Prelude.{
  String, ◌≡◌, ◌≢◌, ◌≤◌, ◌<◌, ◌⊎◌, refl, List, [], ◌∷◌, length, drop, some, inr,
}
use wincode_dynamic.Syntax.{
  RustType, RustTypes, Segments, GenericArguments, generic_types, push_argument,
  has_angle_bracketed,
}
use wincode_dynamic.Adapter.{
  resolved, panics, out_of_fuel, or_own, target_resolved, is_infer, infer_type, visit_type,
}
use wincode_dynamic.Adapter.Fuel.{target_resolved-ends}
use wincode_dynamic.Adapter.Holes.{NoInfer, placeholders}
use wincode_dynamic.Adapter.Resolve.{target_resolved_lem}
use wincode_dynamic.Adapter.Shape.{ArePlain, IsPlain, with_placeholders, with_names}
use wincode_dynamic.Adapter.Order.{target_resolved-shape}

-- `name`, and `name<…>`.
abbrev pub named : String → RustType
named name = RustType.path RustTypes.nil (Segments.plain name Segments.end)

abbrev pub applied : String → List RustType → RustType
applied name args =
    RustType.path RustTypes.nil (Segments.angle_bracketed name (arguments args) Segments.end)
  where
    arguments : List RustType → GenericArguments
    arguments [] = GenericArguments.none
    arguments (ty ∷ rest) = GenericArguments.type_argument ty (arguments rest)

-- `Vec<u64>`, under `Adapter<_>`.
abbrev numbers : RustType
numbers = applied "Vec" (named "u64" ∷ [])

abbrev adapter : RustType
adapter = applied "Adapter" (RustType.infer ∷ [])

resolves_wincode_with_inference :
    target_resolved numbers (some adapter) ≡ resolved (applied "Adapter" (named "u64" ∷ [])) []
unfolding target_resolved visit_type infer_type is_infer generic_types push_argument
    has_angle_bracketed
resolves_wincode_with_inference = refl

-- The adapter of a test of the crate: the second argument is no placeholder.
resolves_vec_with_length :
    target_resolved numbers (
      some (
        applied "wincode::containers::Vec"
          (RustType.infer ∷ named "wincode::len::BincodeLen" ∷ [])))
    ≡ resolved
        (applied "wincode::containers::Vec" (named "u64" ∷ named "wincode::len::BincodeLen" ∷ []))
        []
unfolding target_resolved visit_type infer_type is_infer generic_types push_argument
    has_angle_bracketed
resolves_vec_with_length = refl

target_resolved-ends_example : target_resolved numbers (some adapter) ≢ out_of_fuel
target_resolved-ends_example = target_resolved-ends numbers adapter

numbers-NoInfer : NoInfer numbers
unfolding NoInfer
numbers-NoInfer = (tt, ((((tt, tt), tt), tt)))

target_resolved_lem_example :
    ((placeholders adapter ≤ length (or_own numbers (generic_types numbers)))
      × (target : RustType) × (target_resolved numbers (some adapter)
          ≡ resolved target (drop (placeholders adapter) (or_own numbers (generic_types numbers))))
      × (placeholders target ≡ 0))
    ⊎ ((length (or_own numbers (generic_types numbers)) < placeholders adapter)
        × (target_resolved numbers (some adapter) ≡ panics))
target_resolved_lem_example = target_resolved_lem numbers adapter numbers-NoInfer

numbers-ArePlain : ArePlain numbers
unfolding ArePlain IsPlain generic_types
numbers-ArePlain = (tt, ((inr refl, (tt, tt), tt), tt))

target_resolved-shape_example :
    target_resolved numbers (some (with_placeholders (λ _. "Adapter") numbers))
    ≡ resolved
        (with_names (λ _. "Adapter") numbers)
        (drop (length (generic_types numbers)) (or_own numbers (generic_types numbers)))
target_resolved-shape_example =
    target_resolved-shape (λ _. "Adapter") numbers numbers-NoInfer numbers-ArePlain

-- The element of a slice is collected, but its `_` in an adapter is not a placeholder.
slice_placeholder_stays :
    target_resolved
      (applied "Box" (RustType.slice (named "u8") ∷ []))
      (some (applied "Box" (RustType.slice RustType.infer ∷ [])))
    ≡ resolved (applied "Box" (RustType.slice RustType.infer ∷ [])) (named "u8" ∷ [])
unfolding target_resolved visit_type infer_type is_infer generic_types push_argument
    has_angle_bracketed
slice_placeholder_stays = refl
