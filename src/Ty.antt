-- ===== src/Ty.antt =====
-- wincode-dynamic/src/ty.rs: the runtime type of a field, its static size, and the Rust field
-- types that it describes (the trait `DynTy`). `Ty::parse` stands in Parse.antt.
use wincode_dynamic.Prelude.{
  ℕ, ◌*◌, ◌%◌, ◌==◌, ◌&&◌, Bool, true, false, List, Option, none, some, usize_mod,
}
use wincode_dynamic.Wincode.{Primitive, El, Bytes}
use wincode_dynamic.PrimitiveTy
use wincode_dynamic.PrimitiveTy.{PrimitiveTy}

-- `enum Ty`
pub data Ty : Type 0 where
  primitive_ty : PrimitiveTy → Ty
  string : Ty
  vec : PrimitiveTy → Ty
  array : PrimitiveTy → ℕ → Ty

-- `Ty::size`. The product is computed in `usize`, and wraps in a release build.
unfoldable pub size : Ty → Option ℕ
unfolding PrimitiveTy.size
size (Ty.primitive_ty ty) = some (PrimitiveTy.size ty)
size Ty.string = none
size (Ty.vec _) = none
size (Ty.array ty len) = some (PrimitiveTy.size ty * len % usize_mod)

-- The Rust types that implement `DynTy`: `T: DynPrimitiveTy`, `String`, `Vec<T>` and `[T; N]`.
pub data FieldType : Type 0 where
  primitive : Primitive → FieldType
  string : FieldType
  vec : Primitive → FieldType
  array : Primitive → ℕ → FieldType

-- `<T as DynTy>::TYPE`
unfoldable pub type_of : FieldType → Ty
unfolding PrimitiveTy.type_of
type_of (FieldType.primitive A) = Ty.primitive_ty (PrimitiveTy.type_of A)
type_of FieldType.string = Ty.string
type_of (FieldType.vec A) = Ty.vec (PrimitiveTy.type_of A)
type_of (FieldType.array A n) = Ty.array (PrimitiveTy.type_of A) n

-- The values of a Rust field type. A text is its UTF-8 bytes.
abbrev pub Datum : FieldType → Type 0
Datum (FieldType.primitive A) = El A
Datum FieldType.string = Bytes
Datum (FieldType.vec A) = List (El A)
Datum (FieldType.array A n) = List (El A)

-- The derived `PartialEq` of `Ty`.
unfoldable pub eq : Ty → Ty → Bool
unfolding PrimitiveTy.eq
eq (Ty.primitive_ty a) (Ty.primitive_ty b) = PrimitiveTy.eq a b
eq Ty.string Ty.string = true
eq (Ty.vec a) (Ty.vec b) = PrimitiveTy.eq a b
eq (Ty.array a m) (Ty.array b n) = PrimitiveTy.eq a b && (m == n)
eq _ _ = false
