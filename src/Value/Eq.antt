-- ===== src/Value/Eq.antt =====
-- wincode-dynamic/src/value.rs: the derived `PartialEq` of `PrimitiveValue`, `LazyVec` and `Value`.
use wincode_dynamic.Prelude.{ℕ, ℤ, pos, negsuc, Bool, true, false, ◌&&◌, ◌==◌, List, [], ◌∷◌}
use wincode_dynamic.Wincode.{Bytes, Cow, as_ref, Primitive, El}
use wincode_dynamic.PrimitiveTy
use wincode_dynamic.PrimitiveTy.{PrimitiveTy}
use wincode_dynamic.Value.{PrimitiveValue, Value, LazyVec}

-- `f32 == f32` and `f64 == f64`, on the bit patterns: neither is equality of the patterns.
pub record Floats : Type 0 where
  pub f32_eq : ℕ → ℕ → Bool
  pub f64_eq : ℕ → ℕ → Bool

unfoldable pub int_eq : ℤ → ℤ → Bool
int_eq (pos m) (pos n) = m == n
int_eq (negsuc m) (negsuc n) = m == n
int_eq _ _ = false

unfoldable pub bool_eq : Bool → Bool → Bool
bool_eq true b = b
bool_eq false true = false
bool_eq false false = true

-- `PartialEq` of slices, and of `Vec`s.
unfoldable pub list_eq : {A : Type 0} → (A → A → Bool) → List A → List A → Bool
list_eq eq [] [] = true
list_eq eq [] (y ∷ ys) = false
list_eq eq (x ∷ xs) [] = false
list_eq eq (x ∷ xs) (y ∷ ys) = eq x y && list_eq eq xs ys

-- `PartialEq` of `Cow<[u8]>` and `Cow<str>` compares what they hold.
unfoldable pub cow_eq : Cow Bytes → Cow Bytes → Bool
unfolding list_eq
cow_eq a b = list_eq (λ m n. m == n) (as_ref a) (as_ref b)

-- `impl PartialEq for LazyVec`
unfoldable pub lazy_vec_eq : LazyVec → LazyVec → Bool
unfolding cow_eq
lazy_vec_eq a b = PrimitiveTy.eq a.ty b.ty && (cow_eq a.payload b.payload && (a.len == b.len))

-- `PartialEq` of the Rust types that are read as primitives.
unfoldable pub element_eq : Floats → (A : Primitive) → El A → El A → Bool
unfolding int_eq bool_eq
element_eq floats Primitive.u8 = λ m n. m == n
element_eq floats Primitive.u16 = λ m n. m == n
element_eq floats Primitive.u32 = λ m n. m == n
element_eq floats Primitive.u64 = λ m n. m == n
element_eq floats Primitive.i8 = int_eq
element_eq floats Primitive.i16 = int_eq
element_eq floats Primitive.i32 = int_eq
element_eq floats Primitive.i64 = int_eq
element_eq floats Primitive.f32 = floats.f32_eq
element_eq floats Primitive.f64 = floats.f64_eq
element_eq floats Primitive.bool = bool_eq

-- `impl PartialEq for PrimitiveValue`
unfoldable pub primitive_eq : Floats → PrimitiveValue → PrimitiveValue → Bool
unfolding int_eq bool_eq
primitive_eq floats (PrimitiveValue.u8 m) (PrimitiveValue.u8 n) = m == n
primitive_eq floats (PrimitiveValue.u16 m) (PrimitiveValue.u16 n) = m == n
primitive_eq floats (PrimitiveValue.u32 m) (PrimitiveValue.u32 n) = m == n
primitive_eq floats (PrimitiveValue.u64 m) (PrimitiveValue.u64 n) = m == n
primitive_eq floats (PrimitiveValue.i8 m) (PrimitiveValue.i8 n) = int_eq m n
primitive_eq floats (PrimitiveValue.i16 m) (PrimitiveValue.i16 n) = int_eq m n
primitive_eq floats (PrimitiveValue.i32 m) (PrimitiveValue.i32 n) = int_eq m n
primitive_eq floats (PrimitiveValue.i64 m) (PrimitiveValue.i64 n) = int_eq m n
primitive_eq floats (PrimitiveValue.f32 m) (PrimitiveValue.f32 n) = floats.f32_eq m n
primitive_eq floats (PrimitiveValue.f64 m) (PrimitiveValue.f64 n) = floats.f64_eq m n
primitive_eq floats (PrimitiveValue.bool a) (PrimitiveValue.bool b) = bool_eq a b
primitive_eq floats _ _ = false

-- `impl PartialEq for Value`
unfoldable pub eq : Floats → Value → Value → Bool
unfolding int_eq bool_eq cow_eq lazy_vec_eq
eq floats (Value.u8 m) (Value.u8 n) = m == n
eq floats (Value.u16 m) (Value.u16 n) = m == n
eq floats (Value.u32 m) (Value.u32 n) = m == n
eq floats (Value.u64 m) (Value.u64 n) = m == n
eq floats (Value.i8 m) (Value.i8 n) = int_eq m n
eq floats (Value.i16 m) (Value.i16 n) = int_eq m n
eq floats (Value.i32 m) (Value.i32 n) = int_eq m n
eq floats (Value.i64 m) (Value.i64 n) = int_eq m n
eq floats (Value.f32 m) (Value.f32 n) = floats.f32_eq m n
eq floats (Value.f64 m) (Value.f64 n) = floats.f64_eq m n
eq floats (Value.bool a) (Value.bool b) = bool_eq a b
eq floats (Value.string s) (Value.string t) = cow_eq s t
eq floats (Value.bytes s) (Value.bytes t) = cow_eq s t
eq floats (Value.vec u) (Value.vec v) = lazy_vec_eq u v
eq floats _ _ = false
