-- ===== src/Adapter/Fuel.antt =====
-- wincode-dynamic-derive/src/lib.rs, `InferGeneric`: the visit ends, since each type that is put in
-- leaves one type fewer to put in.
use wincode_dynamic.Prelude.{
  ℕ, zero, suc, ◌≤◌, ◌<◌, ◌≢◌, Bool, true, false, List, [], ◌∷◌, some, length, if◌then◌else◌, arith,
}
use wincode_dynamic.Syntax.{RustType, RustTypes, Segments, GenericArguments, generic_types}
use wincode_dynamic.Adapter.{
  Resolved, resolved, panics, out_of_fuel, Visitor, ◌>>=◌, map_resolved, is_infer, pop_front,
  infer_type, infer_types, infer_segments, infer_arguments, visit_type, target_resolved, or_own,
}

-- The visit ended, with at most `n` types left.
abbrev pub Ended {ℓ} : {A : Type ℓ} → ℕ → Resolved A → Type 0
Ended n (resolved a q) = length q ≤ n
Ended n panics = Unit
Ended n out_of_fuel = ⊥

Ended_le {ℓ} : {A : Type ℓ} (m n : ℕ) (r : Resolved A) → m ≤ n → Ended m r → Ended n r
Ended_le m n (resolved a q) le h = omega arith
Ended_le m n panics le h = tt
Ended_le m n out_of_fuel le h = h

module _ {ℓ} {A : Type ℓ} where
  bind-Ended {κ} :
      {B : Type κ} (n : ℕ) (r : Resolved A) (k : A → List RustType → Resolved B)
      → Ended n r
      → ((a : A) (q : List RustType) → length q ≤ n → Ended (length q) (k a q))
      → Ended n (r >>= k)
  bind-Ended n (resolved a q) k h each = Ended_le (length q) n (k a q) h (each a q h)
  bind-Ended n panics k h each = tt
  bind-Ended n out_of_fuel k h each = h

  map-Ended {κ} :
      {B : Type κ} (n : ℕ) (f : A → B) (r : Resolved A) → Ended n r → Ended n (map_resolved f r)
  map-Ended n f r h = bind-Ended n r (λ a q. resolved (f a) q) h (λ a q le. omega arith)

module _ (inner : Visitor RustType) (n : ℕ)
    (inner-Ended : (ty : RustType) (q : List RustType)
      → length q < n
      → Ended (length q) (inner ty q)) where
  pop_front-Ended : (q : List RustType) → length q ≤ n → Ended (length q) (pop_front inner q)
  pop_front-Ended [] le = tt
  pop_front-Ended (first ∷ rest) le =
      Ended_le (length rest) (suc (length rest)) (inner first rest) (omega arith)
        (inner-Ended first rest (omega arith))

  placeholder-Ended :
      (b : Bool) (q : List RustType) (r : Resolved RustType)
      → length q ≤ n
      → Ended (length q) r
      → Ended (length q) (if b then pop_front inner q else r)
  placeholder-Ended true q r le h = pop_front-Ended q le
  placeholder-Ended false q r le h = h

  mutual
    unfolding infer_type

    infer_type-Ended :
        (ty : RustType) (q : List RustType)
        → length q ≤ n
        → Ended (length q) (infer_type inner ty q)
    infer_type-Ended (RustType.slice elem) q le =
        map-Ended (length q) RustType.slice (infer_type inner elem q) (infer_type-Ended elem q le)
    infer_type-Ended (RustType.array elem len) q le =
        bind-Ended (length q) (if is_infer elem then pop_front inner q else infer_type inner elem q)
          (λ elem' q'. map_resolved (RustType.array elem') (infer_type inner len q'))
          (placeholder-Ended (is_infer elem) q (infer_type inner elem q) le
            (infer_type-Ended elem q le))
          (λ elem' q' k.
            map-Ended (length q') (RustType.array elem') (infer_type inner len q')
              (infer_type-Ended len q' (omega arith)))
    infer_type-Ended RustType.infer q le = omega arith
    infer_type-Ended (RustType.path qself segments) q le =
        bind-Ended (length q) (infer_types inner qself q)
          (λ qself' q'. map_resolved (RustType.path qself') (infer_segments inner segments q'))
          (infer_types-Ended qself q le)
          (λ qself' q' k.
            map-Ended (length q') (RustType.path qself') (infer_segments inner segments q')
              (infer_segments-Ended segments q' (omega arith)))
    infer_type-Ended (RustType.other tokens types) q le =
        map-Ended (length q) (RustType.other tokens) (infer_types inner types q)
          (infer_types-Ended types q le)

    infer_types-Ended :
        (types : RustTypes) (q : List RustType)
        → length q ≤ n
        → Ended (length q) (infer_types inner types q)
    infer_types-Ended RustTypes.nil q le = omega arith
    infer_types-Ended (RustTypes.cons ty rest) q le =
        bind-Ended (length q) (infer_type inner ty q)
          (λ ty' q'. map_resolved (RustTypes.cons ty') (infer_types inner rest q'))
          (infer_type-Ended ty q le)
          (λ ty' q' k.
            map-Ended (length q') (RustTypes.cons ty') (infer_types inner rest q')
              (infer_types-Ended rest q' (omega arith)))

    infer_segments-Ended :
        (segments : Segments) (q : List RustType)
        → length q ≤ n
        → Ended (length q) (infer_segments inner segments q)
    infer_segments-Ended Segments.end q le = omega arith
    infer_segments-Ended (Segments.plain ident rest) q le =
        map-Ended (length q) (Segments.plain ident) (infer_segments inner rest q)
          (infer_segments-Ended rest q le)
    infer_segments-Ended (Segments.angle_bracketed ident args rest) q le =
        bind-Ended (length q) (infer_arguments inner args q)
          (λ args' q'.
            map_resolved (Segments.angle_bracketed ident args') (infer_segments inner rest q'))
          (infer_arguments-Ended args q le)
          (λ args' q' k.
            map-Ended (length q') (Segments.angle_bracketed ident args')
              (infer_segments inner rest q') (infer_segments-Ended rest q' (omega arith)))
    infer_segments-Ended (Segments.parenthesized ident types rest) q le =
        bind-Ended (length q) (infer_types inner types q)
          (λ types' q'.
            map_resolved (Segments.parenthesized ident types') (infer_segments inner rest q'))
          (infer_types-Ended types q le)
          (λ types' q' k.
            map-Ended (length q') (Segments.parenthesized ident types')
              (infer_segments inner rest q') (infer_segments-Ended rest q' (omega arith)))

    infer_arguments-Ended :
        (args : GenericArguments) (q : List RustType)
        → length q ≤ n
        → Ended (length q) (infer_arguments inner args q)
    infer_arguments-Ended GenericArguments.none q le = omega arith
    infer_arguments-Ended (GenericArguments.type_argument ty rest) q le =
        bind-Ended (length q) (if is_infer ty then pop_front inner q else infer_type inner ty q)
          (λ ty' q'.
            map_resolved (GenericArguments.type_argument ty') (infer_arguments inner rest q'))
          (placeholder-Ended (is_infer ty) q (infer_type inner ty q) le (infer_type-Ended ty q le))
          (λ ty' q' k.
            map-Ended (length q') (GenericArguments.type_argument ty')
              (infer_arguments inner rest q') (infer_arguments-Ended rest q' (omega arith)))
    infer_arguments-Ended (GenericArguments.other_argument tokens types rest) q le =
        bind-Ended (length q) (infer_types inner types q)
          (λ types' q'.
            map_resolved (GenericArguments.other_argument tokens types')
              (infer_arguments inner rest q'))
          (infer_types-Ended types q le)
          (λ types' q' k.
            map-Ended (length q') (GenericArguments.other_argument tokens types')
              (infer_arguments inner rest q') (infer_arguments-Ended rest q' (omega arith)))

-- A visit on more fuel than there are types to put in ends.
visit_type-Ended :
    (fuel : ℕ) (ty : RustType) (q : List RustType)
    → length q < fuel
    → Ended (length q) (visit_type fuel ty q)
unfolding visit_type
visit_type-Ended zero ty q le = elim le [ ]
visit_type-Ended (suc fuel) ty q le =
    infer_type-Ended (visit_type fuel) fuel (λ ty' q' k. visit_type-Ended fuel ty' q' k) ty q
      (omega arith)

Ended_finishes {ℓ} : {A : Type ℓ} (n : ℕ) (r : Resolved A) → Ended n r → r ≢ out_of_fuel
Ended_finishes n (resolved a q) h e = cc
Ended_finishes n panics h e = cc
Ended_finishes n out_of_fuel h e = h

-- The fuel that target_resolved gives to the visit is enough for every field type and adapter, also
-- where the types that are put in contain placeholders: it resolves the adapter or panics.
pub target_resolved-ends :
    (field_ty adapter : RustType) → target_resolved field_ty (some adapter) ≢ out_of_fuel
unfolding target_resolved
target_resolved-ends field_ty adapter =
    let q = or_own field_ty (generic_types field_ty) in
    Ended_finishes (length q) (visit_type (suc (length q)) adapter q)
      (visit_type-Ended (suc (length q)) adapter q (omega arith))
