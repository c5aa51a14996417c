-- ===== src/Parse.antt =====
-- wincode-dynamic/src/ty.rs: `Ty::parse` and `PrimitiveTy::parse`, which decode a value of a
-- runtime type.
pub mod Payload
pub mod RoundTrip
pub mod Size
pub mod Truncated
pub mod Exact
pub mod Typed
pub mod Cut
use wincode_dynamic.Prelude.{ℕ, not, none, some, if◌then◌else◌, checked_mul}
use wincode_dynamic.Wincode.{Wincode, Bytes, Read, ReadError, ok, err, Cow}
use wincode_dynamic.Wincode.Monad.{◌>>=◌, ◌>>◌, map_read, lift}
use wincode_dynamic.PrimitiveTy
use wincode_dynamic.PrimitiveTy.{PrimitiveTy}
use wincode_dynamic.Ty.{Ty}
use wincode_dynamic.Value.{Value}
use wincode_dynamic.Lazy.{new_unchecked}
use wincode_dynamic.Read.{read_value, read_usize}

module _ (w : Wincode) where
  open w use {Reader, supports_borrow, prealloc_check, get_bytes_len, get_bytes, get_str, read_len}

  -- `read_byte_payload`
  unfoldable pub read_byte_payload : ℕ → Read Reader (Cow Bytes)
  read_byte_payload byte_len reader =
      (do
        lift (if not (supports_borrow reader) then prealloc_check 1 byte_len else ok tt)
        get_bytes_len byte_len)
        reader

  -- `read_primitive_payload`
  unfoldable pub read_primitive_payload : PrimitiveTy → ℕ → Read Reader Value
  unfolding read_byte_payload
  read_primitive_payload ty len reader = elim (checked_mul len (PrimitiveTy.size ty)) [
    | none ↦ (err (ReadError.length_encoding_overflow "usize::MAX"), reader)
    | some byte_len ↦
        map_read (λ payload. Value.vec (new_unchecked ty len payload))
          (read_byte_payload byte_len reader)
  ]

  -- `Ty::parse`
  unfoldable pub parse : Ty → Read Reader Value
  unfolding read_byte_payload read_primitive_payload
  parse (Ty.primitive_ty ty) reader = read_value w ty reader
  parse Ty.string reader = map_read Value.string (get_str reader)
  parse (Ty.vec PrimitiveTy.u8) reader = map_read Value.bytes (get_bytes reader)
  parse (Ty.vec ty) reader = (do len ← read_len; read_primitive_payload ty len) reader
  parse (Ty.array PrimitiveTy.u8 len) reader = map_read Value.bytes (read_byte_payload len reader)
  parse (Ty.array ty len) reader = read_primitive_payload ty len reader

  -- `PrimitiveTy::parse`
  unfoldable pub parse_primitive : PrimitiveTy → Read Reader Value
  parse_primitive ty reader = read_value w ty reader

  -- `PrimitiveTy::parse_into_usize`
  unfoldable pub parse_into_usize : PrimitiveTy → Read Reader ℕ
  parse_into_usize ty reader = read_usize w ty reader
