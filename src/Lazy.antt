-- ===== src/Lazy.antt =====
-- wincode-dynamic/src/value.rs, module `lazy_vec`: the lazy vector's operations and its borrowing
-- and owning iterators.
pub mod Safety
pub mod Collect
pub mod Steps
pub mod Vectors
pub mod Owned
use wincode_dynamic.Prelude.{
  ℕ, ◌+◌, ◌-◌, ◌%◌, Bool, true, false, not, ◌||◌, Option, none, some, List, ◌==◌, leb,
  if◌then◌else◌, length, drop, usize_mod, checked_mul,
}
use wincode_dynamic.Wincode.{
  Wincode, Bytes, Primitive, El, ReadResult, ReadError, ok, err, Cow, as_ref,
}
use wincode_dynamic.PrimitiveTy
use wincode_dynamic.PrimitiveTy.{PrimitiveTy, DynPrimitiveTy}
use wincode_dynamic.Value.{PrimitiveValue, LazyVec}
use wincode_dynamic.Read.{read_array, size_of_primitive_value}

-- `struct Iter`, a borrowing iterator of `As` values.
pub record Iter (As : DynPrimitiveTy) : Type 0 where
  pub payload : Bytes
  pub len : ℕ
  pub index : ℕ

-- `struct IntoIter`, an owning one.
pub record IntoIter (As : DynPrimitiveTy) : Type 0 where
  pub payload : Cow Bytes
  pub len : ℕ
  pub index : ℕ

-- A step in machine arithmetic over unchecked slices: `fault` is an overflow, or an access out of
-- bounds.
pub data Checked {ℓ} (A : Type ℓ) : Type ℓ where
  returns : A → Checked A
  fault : Checked A

-- `LazyVec::new_unchecked`
unfoldable pub new_unchecked : PrimitiveTy → ℕ → Cow Bytes → LazyVec
new_unchecked ty len payload = record { ty = ty; payload = payload; len = len }

abbrev pub ty_mismatch : ReadError
ty_mismatch = ReadError.custom "lazy vector element type mismatch"

-- `validate_element_type::<As>`
unfoldable pub validate_element_type : DynPrimitiveTy → PrimitiveTy → ReadResult (Unit {0})
validate_element_type As ty =
    if not (PrimitiveTy.eq As.ty ty) || not (PrimitiveTy.size ty == As.size)
    then err ty_mismatch
    else ok tt

-- `?` on a check that reads nothing.
abbrev pub after_check {ℓ} : {A : Type ℓ} → ReadResult (Unit {0}) → ReadResult A → ReadResult A
after_check (ok _) k = k
after_check (err e) k = err e

-- `LazyVec::try_iter_as`
unfoldable pub try_iter_as : (As : DynPrimitiveTy) → LazyVec → ReadResult (Iter As)
try_iter_as As v =
    after_check (validate_element_type As v.ty)
      (ok (record { payload = as_ref v.payload; len = v.len; index = 0 }))

-- `LazyVec::try_into_iter_as`
unfoldable pub try_into_iter_as : (As : DynPrimitiveTy) → LazyVec → ReadResult (IntoIter As)
try_into_iter_as As v =
    after_check (validate_element_type As v.ty)
      (ok (record { payload = v.payload; len = v.len; index = 0 }))

-- `LazyVec::into_dyn_vec`
unfoldable pub into_dyn_vec : (w : Wincode) → LazyVec → ReadResult (List PrimitiveValue)
into_dyn_vec w v =
    after_check (w.prealloc_check size_of_primitive_value v.len)
      (read_array w v.len v.ty (w.from_slice (as_ref v.payload))).0

-- `LazyVec::len`
unfoldable pub vec_len : LazyVec → ℕ
vec_len v = v.len

-- `LazyVec::ty`
unfoldable pub vec_ty : LazyVec → PrimitiveTy
vec_ty v = v.ty

-- `LazyVec::is_empty`
unfoldable pub is_empty : LazyVec → Bool
is_empty v = length (as_ref v.payload) == 0

-- `LazyVec::has_borrowed_payload`
unfoldable pub has_borrowed_payload : LazyVec → Bool
has_borrowed_payload v = elim v.payload [ Cow.borrowed _ ↦ true | Cow.owned _ ↦ false ]

-- `payload.get_unchecked(start..)`
unfoldable pub get_unchecked : Bytes → ℕ → Checked Bytes
get_unchecked payload start =
    if leb start (length payload) then returns (drop start payload) else fault

-- `<A as SchemaRead<DefaultConfig, Dst = A>>::get` of a primitive type, on a slice.
abbrev pub get_slice : (w : Wincode) (A : Primitive) → Bytes → ReadResult (El A)
get_slice w A slice = (w.get A (w.from_slice slice)).0

-- The body of `next` below its first test: the item at `index`, by the `get` of the type.
unfoldable pub item_at :
    (As : DynPrimitiveTy) → (Bytes → ReadResult As.Item) → Bytes → ℕ → Checked (ReadResult As.Item)
item_at As get payload index = elim (checked_mul index As.size) [
  | none ↦ fault
  | some start ↦ elim (get_unchecked payload start) [
    | returns slice ↦ returns (get slice)
    | fault ↦ fault
  ]
]

-- The item, and the iterator behind it.
abbrev pub advance {ℓ κ} : {A : Type ℓ} {I : Type κ} → I → Checked A → Checked (Option A × I)
advance it (returns a) = returns (some a, it)
advance it fault = fault

-- `Iterator::next`, which the macro `impl_iterator` writes for both iterators.
unfoldable pub next :
    (As : DynPrimitiveTy)
    → (Bytes → ReadResult As.Item)
    → Iter As
    → Checked (Option (ReadResult As.Item) × Iter As)
unfolding item_at get_unchecked
next As get it =
    if leb it.len it.index
    then returns (none, it)
    else advance (record it { index = it.index + 1 }) (item_at As get it.payload it.index)

unfoldable pub next_owned :
    (As : DynPrimitiveTy)
    → (Bytes → ReadResult As.Item)
    → IntoIter As
    → Checked (Option (ReadResult As.Item) × IntoIter As)
unfolding item_at get_unchecked
next_owned As get it =
    if leb it.len it.index
    then returns (none, it)
    else advance (record it { index = it.index + 1 }) (item_at As get (as_ref it.payload) it.index)

-- `ExactSizeIterator::len`, which `size_hint` returns too. The difference is computed in `usize`.
unfoldable pub iter_len : (As : DynPrimitiveTy) → Iter As → ℕ
iter_len As it = (it.len + usize_mod - it.index) % usize_mod

unfoldable pub size_hint : (As : DynPrimitiveTy) → Iter As → ℕ × Option ℕ
unfolding iter_len
size_hint As it = (iter_len As it, some (iter_len As it))
