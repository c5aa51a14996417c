-- ===== src/Wincode.antt =====
-- What the program uses of the `wincode` crate, which is not part of the repository: its error
-- type, its type metadata and its reading and writing traits, as an interface. The components
-- take a value of `Wincode`; the documented behaviour stands in `Wincode/Laws.antt`.
pub mod Monad
pub mod Laws
pub mod Facts
pub mod Slice
use wincode_dynamic.Prelude.{ℕ, ◌^◌, ◌<◌, ℤ, IsSigned, Bool, String, List}

abbrev pub Bytes : Type 0
Bytes = List ℕ

-- The variants of `wincode::ReadError` that the program makes or that its tests name, and `other`
-- for the rest.
pub data ReadError : Type 0 where
  custom : String → ReadError
  invalid_bool_encoding : ℕ → ReadError
  invalid_tag_encoding : ℕ → ReadError
  preallocation_size_limit : ℕ → ℕ → ReadError
  length_encoding_overflow : String → ReadError
  other : ℕ → ReadError

pub data ReadResult {ℓ} (A : Type ℓ) : Type ℓ where
  ok : A → ReadResult A
  err : ReadError → ReadResult A

-- `alloc::borrow::Cow`
pub data Cow (A : Type 0) : Type 0 where
  borrowed : A → Cow A
  owned : A → Cow A

-- `Cow::as_ref`
abbrev pub as_ref : {A : Type 0} → Cow A → A
as_ref (Cow.borrowed a) = a
as_ref (Cow.owned a) = a

-- `wincode::TypeMeta`, without its `zero_copy` flag, which the program does not read.
pub data TypeMeta : Type 0 where
  static : ℕ → TypeMeta
  dynamic : TypeMeta

-- The Rust types that are read as primitives.
pub data Primitive : Type 0 where
  u8 u16 u32 u64 i8 i16 i32 i64 f32 f64 bool : Primitive

-- The values of a Rust type. A float is its bit pattern.
abbrev pub El : Primitive → Type 0
El Primitive.u8 = ℕ
El Primitive.u16 = ℕ
El Primitive.u32 = ℕ
El Primitive.u64 = ℕ
El Primitive.i8 = ℤ
El Primitive.i16 = ℤ
El Primitive.i32 = ℤ
El Primitive.i64 = ℤ
El Primitive.f32 = ℕ
El Primitive.f64 = ℕ
El Primitive.bool = Bool

-- `core::mem::size_of`
unfoldable pub size_of : Primitive → ℕ
size_of Primitive.u8 = 1
size_of Primitive.u16 = 2
size_of Primitive.u32 = 4
size_of Primitive.u64 = 8
size_of Primitive.i8 = 1
size_of Primitive.i16 = 2
size_of Primitive.i32 = 4
size_of Primitive.i64 = 8
size_of Primitive.f32 = 4
size_of Primitive.f64 = 8
size_of Primitive.bool = 1

-- The numbers that a Rust type holds.
abbrev pub InRange : (A : Primitive) → El A → Type 0
InRange Primitive.u8 n = n < 2 ^ 8
InRange Primitive.u16 n = n < 2 ^ 16
InRange Primitive.u32 n = n < 2 ^ 32
InRange Primitive.u64 n = n < 2 ^ 64
InRange Primitive.i8 n = IsSigned (2 ^ 7) n
InRange Primitive.i16 n = IsSigned (2 ^ 15) n
InRange Primitive.i32 n = IsSigned (2 ^ 31) n
InRange Primitive.i64 n = IsSigned (2 ^ 63) n
InRange Primitive.f32 n = n < 2 ^ 32
InRange Primitive.f64 n = n < 2 ^ 64
InRange Primitive.bool b = Unit

-- A reading operation: a result, and the reader as it is left.
abbrev pub Read : Type 0 → Type 0 → Type 0
Read R A = R → ReadResult A × R

pub record Wincode : Type 1 where
  -- The readers of the client, `&[u8]` and `Cursor<Vec<u8>>` among them.
  pub Reader : Type 0
  -- The readers that `as_trusted_for_seq` hands out.
  pub Trusted : Type 0
  -- A byte slice as a reader.
  pub from_slice : Bytes → Reader
  -- `reader.supports_borrow(BorrowKind::Backing)`
  pub supports_borrow : Reader → Bool
  -- `<A as SchemaRead<DefaultConfig>>::get`
  pub get : (A : Primitive) → Read Reader (El A)
  pub get_trusted : (A : Primitive) → Read Trusted (El A)
  -- `<Cow<str> as SchemaRead<DefaultConfig>>::get`; a text is its UTF-8 bytes.
  pub get_str : Read Reader (Cow Bytes)
  -- `<Cow<[u8]> as SchemaRead<DefaultConfig>>::get`
  pub get_bytes : Read Reader (Cow Bytes)
  -- `<Cow<[u8]> as SchemaReadContext<DefaultConfig, Len>>::get_with_context`
  pub get_bytes_len : ℕ → Read Reader (Cow Bytes)
  -- `<LengthEncoding as SeqLen<DefaultConfig>>::read`
  pub read_len : Read Reader ℕ
  -- `reader.as_trusted_for_seq(len, size)`
  pub as_trusted_for_seq : ℕ → ℕ → Read Reader Trusted
  -- `SeqLen::prealloc_check::<T>(len)`, at the size of `T`.
  pub prealloc_check : ℕ → ℕ → ReadResult (Unit {0})
  -- `<A as SchemaRead<DefaultConfig>>::TYPE_META`
  pub type_meta : Primitive → TypeMeta
  -- `DEFAULT_PREALLOCATION_SIZE_LIMIT`
  pub prealloc_limit : ℕ
  -- `SchemaWrite`: the bytes of a primitive value, and of a length prefix.
  pub put : (A : Primitive) → El A → Bytes
  pub put_len : ℕ → Bytes
