-- ===== src/Adapter/Holes.antt =====
-- wincode-dynamic-derive/src/lib.rs, `InferGeneric`: when the visit panics, and what is left of the
-- placeholders.
use wincode_dynamic.Prelude.{
  ℕ, zero, suc, ◌+◌, ◌≤◌, ◌<◌, ◌≡◌, refl, sym, ◌∙◌, subst, false, List, [], ◌∷◌, length, drop,
  drop-drop, length-drop, All, if◌then◌else◌, arith,
}
use wincode_dynamic.Syntax.{RustType, RustTypes, Segments, GenericArguments}
use wincode_dynamic.Adapter.{Resolved, resolved, panics, out_of_fuel, ◌>>=◌, map_resolved, is_infer}

unfoldable mutual
  -- A type with no `_` in it: the type of a field.
  pub NoInfer : RustType → Type 0
  NoInfer (RustType.slice elem) = NoInfer elem
  NoInfer (RustType.array elem len) = NoInfer elem × NoInfer len
  NoInfer RustType.infer = ⊥
  NoInfer (RustType.path qself segments) = TypesNoInfer qself × SegmentsNoInfer segments
  NoInfer (RustType.other tokens types) = TypesNoInfer types

  pub TypesNoInfer : RustTypes → Type 0
  TypesNoInfer RustTypes.nil = Unit
  TypesNoInfer (RustTypes.cons ty rest) = NoInfer ty × TypesNoInfer rest

  pub SegmentsNoInfer : Segments → Type 0
  SegmentsNoInfer Segments.end = Unit
  SegmentsNoInfer (Segments.plain ident rest) = SegmentsNoInfer rest
  SegmentsNoInfer (Segments.angle_bracketed ident args rest) =
      ArgumentsNoInfer args × SegmentsNoInfer rest
  SegmentsNoInfer (Segments.parenthesized ident types rest) =
      TypesNoInfer types × SegmentsNoInfer rest

  pub ArgumentsNoInfer : GenericArguments → Type 0
  ArgumentsNoInfer GenericArguments.none = Unit
  ArgumentsNoInfer (GenericArguments.type_argument ty rest) = NoInfer ty × ArgumentsNoInfer rest
  ArgumentsNoInfer (GenericArguments.other_argument tokens types rest) =
      TypesNoInfer types × ArgumentsNoInfer rest

-- The placeholders at a position in which they are replaced, of a type with `n` inside it.
unfoldable pub at_position : RustType → ℕ → ℕ
at_position ty n = if is_infer ty then 1 else n

unfoldable mutual
  unfolding at_position

  -- The placeholders of an adapter: each `_` that is a generic argument or the element of an array.
  pub placeholders : RustType → ℕ
  placeholders (RustType.slice elem) = placeholders elem
  placeholders (RustType.array elem len) = at_position elem (placeholders elem) + placeholders len
  placeholders RustType.infer = 0
  placeholders (RustType.path qself segments) =
      types_placeholders qself + segments_placeholders segments
  placeholders (RustType.other tokens types) = types_placeholders types

  pub types_placeholders : RustTypes → ℕ
  types_placeholders RustTypes.nil = 0
  types_placeholders (RustTypes.cons ty rest) = placeholders ty + types_placeholders rest

  pub segments_placeholders : Segments → ℕ
  segments_placeholders Segments.end = 0
  segments_placeholders (Segments.plain ident rest) = segments_placeholders rest
  segments_placeholders (Segments.angle_bracketed ident args rest) =
      arguments_placeholders args + segments_placeholders rest
  segments_placeholders (Segments.parenthesized ident types rest) =
      types_placeholders types + segments_placeholders rest

  pub arguments_placeholders : GenericArguments → ℕ
  arguments_placeholders GenericArguments.none = 0
  arguments_placeholders (GenericArguments.type_argument ty rest) =
      at_position ty (placeholders ty) + arguments_placeholders rest
  arguments_placeholders (GenericArguments.other_argument tokens types rest) =
      types_placeholders types + arguments_placeholders rest

pub is_infer-NoInfer : (ty : RustType) → NoInfer ty → is_infer ty ≡ false
unfolding NoInfer is_infer
is_infer-NoInfer (RustType.slice elem) h = refl
is_infer-NoInfer (RustType.array elem len) h = refl
is_infer-NoInfer RustType.infer h = absurd h
is_infer-NoInfer (RustType.path qself segments) h = refl
is_infer-NoInfer (RustType.other tokens types) h = refl

pub at_position_none : (ty : RustType) → NoInfer ty → (n : ℕ) → n ≡ 0 → at_position ty n ≡ 0
unfolding at_position
at_position_none ty h n e = rw (is_infer-NoInfer ty h, e)

mutual
  unfolding NoInfer placeholders

  pub placeholders-NoInfer : (ty : RustType) → NoInfer ty → placeholders ty ≡ 0
  placeholders-NoInfer (RustType.slice elem) h = placeholders-NoInfer elem h
  placeholders-NoInfer (RustType.array elem len) h = omega (
    arith,
    at_position_none elem h.0 (placeholders elem) (placeholders-NoInfer elem h.0),
    placeholders-NoInfer len h.1,
  )
  placeholders-NoInfer RustType.infer h = refl
  placeholders-NoInfer (RustType.path qself segments) h =
      omega
        (arith, types_placeholders-NoInfer qself h.0, segments_placeholders-NoInfer segments h.1)
  placeholders-NoInfer (RustType.other tokens types) h = types_placeholders-NoInfer types h

  types_placeholders-NoInfer :
      (types : RustTypes) → TypesNoInfer types → types_placeholders types ≡ 0
  types_placeholders-NoInfer RustTypes.nil h = refl
  types_placeholders-NoInfer (RustTypes.cons ty rest) h =
      omega (arith, placeholders-NoInfer ty h.0, types_placeholders-NoInfer rest h.1)

  segments_placeholders-NoInfer :
      (segments : Segments) → SegmentsNoInfer segments → segments_placeholders segments ≡ 0
  segments_placeholders-NoInfer Segments.end h = refl
  segments_placeholders-NoInfer (Segments.plain ident rest) h = segments_placeholders-NoInfer rest h
  segments_placeholders-NoInfer (Segments.angle_bracketed ident args rest) h =
      omega (arith, arguments_placeholders-NoInfer args h.0, segments_placeholders-NoInfer rest h.1)
  segments_placeholders-NoInfer (Segments.parenthesized ident types rest) h =
      omega (arith, types_placeholders-NoInfer types h.0, segments_placeholders-NoInfer rest h.1)

  arguments_placeholders-NoInfer :
      (args : GenericArguments) → ArgumentsNoInfer args → arguments_placeholders args ≡ 0
  arguments_placeholders-NoInfer GenericArguments.none h = refl
  arguments_placeholders-NoInfer (GenericArguments.type_argument ty rest) h = omega (
    arith,
    at_position_none ty h.0 (placeholders ty) (placeholders-NoInfer ty h.0),
    arguments_placeholders-NoInfer rest h.1,
  )
  arguments_placeholders-NoInfer (GenericArguments.other_argument tokens types rest) h =
      omega (arith, types_placeholders-NoInfer types h.0, arguments_placeholders-NoInfer rest h.1)

-- The visit took the first `n` types out of `q` and gave a node with `P`, or panicked where there
-- are fewer.
abbrev pub Filled {ℓ} : {A : Type ℓ} → (P : A → Type 0) → ℕ → List RustType → Resolved A → Type 0
Filled P n q (resolved a rest) = P a × (n ≤ length q) × (rest ≡ drop n q)
Filled P n q panics = length q < n
Filled P n q out_of_fuel = ⊥

pub Filled-after {ℓ} :
    {A : Type ℓ} (P : A → Type 0) (m n : ℕ) (q : List RustType) (r : Resolved A)
    → m ≤ length q
    → Filled P n (drop m q) r
    → Filled P (m + n) q r
Filled-after P m n q (resolved a rest) le h =
    (h.0, omega (arith, h.1, length-drop m q), h.2 ∙ drop-drop n m q)
Filled-after P m n q panics le h = omega (arith, length-drop m q)
Filled-after P m n q out_of_fuel le h = h

pub bind-Filled {ℓ κ} :
    {A : Type ℓ} {B : Type κ} (P : A → Type 0) (Q : B → Type 0) (m n : ℕ) (q : List RustType)
    (r : Resolved A) (k : A → List RustType → Resolved B)
    → Filled P m q r
    → ((a : A) → P a → Filled Q n (drop m q) (k a (drop m q)))
    → Filled Q (m + n) q (r >>= k)
bind-Filled P Q m n q (resolved a rest) k h each =
    subst (λ l. Filled Q (m + n) q (k a l)) (sym h.2)
      (Filled-after Q m n q (k a (drop m q)) h.1 (each a h.0))
bind-Filled P Q m n q panics k h each = omega arith
bind-Filled P Q m n q out_of_fuel k h each = h

pub map-Filled {ℓ κ} :
    {A : Type ℓ} {B : Type κ} (P : A → Type 0) (Q : B → Type 0) (n : ℕ) (q : List RustType)
    (r : Resolved A) (f : A → B)
    → Filled P n q r
    → ((a : A) → P a → Q (f a))
    → Filled Q n q (map_resolved f r)
map-Filled P Q n q (resolved a rest) f h each = (each a h.0, h.1, h.2)
map-Filled P Q n q panics f h each = h
map-Filled P Q n q out_of_fuel f h each = h

pub Filled-imp {ℓ} :
    {A : Type ℓ} (P Q : A → Type 0) (n : ℕ) (q : List RustType) (r : Resolved A)
    → Filled P n q r
    → ((a : A) → P a → Q a)
    → Filled Q n q r
Filled-imp P Q n q (resolved a rest) h each = (each a h.0, h.1, h.2)
Filled-imp P Q n q panics h each = h
Filled-imp P Q n q out_of_fuel h each = h

pub All-drop {ℓ κ} :
    {A : Type ℓ} (P : A → Type κ) (n : ℕ) (xs : List A) → All P xs → All P (drop n xs)
All-drop P zero xs h = h
All-drop P (suc n) [] h = h
All-drop P (suc n) (x ∷ xs) h = All-drop P n xs h.1
