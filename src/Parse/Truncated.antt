-- ===== src/Parse/Truncated.antt =====
-- Inputs that end too early (wincode-dynamic/src/ty.rs).
use wincode_dynamic.Prelude.{
  ℕ, ◌*◌, ◌%◌, ◌<◌, ◌≡◌, ◌∙◌, not, some, length, usize_mod, if◌then◌else◌, arith,
}
use native.Mathlib.Decide.{dec_lt}
use wincode_dynamic.Wincode.{Wincode, ok, size_of}
use wincode_dynamic.Wincode.Monad.{map_read-IsErr, and_then-IsErr, IsErr}
use wincode_dynamic.Wincode.Laws.{WincodeLaws}
use wincode_dynamic.PrimitiveTy
use wincode_dynamic.PrimitiveTy.{PrimitiveTy}
use wincode_dynamic.PrimitiveTy.Element.{size_of-element, element}
use wincode_dynamic.Ty.{size as ty_size, Ty}
use wincode_dynamic.Value.{Value}
use wincode_dynamic.Read.Uniform.{value_of, read_value_lem}
use wincode_dynamic.Parse.{parse, read_byte_payload, read_primitive_payload}
use wincode_dynamic.Parse.Payload.{read_primitive_payload_fits, read_primitive_payload_overflow}

module _ (w : Wincode) (laws : WincodeLaws w) where
  open laws use {remaining}

  pub payload_short :
      (n : ℕ) (r : w.Reader) → length (remaining r) < n → IsErr (read_byte_payload w n r).0
  unfolding read_byte_payload
  payload_short n r h =
      and_then-IsErr (if not (w.supports_borrow r) then w.prealloc_check 1 n else ok tt) r
        (λ _. w.get_bytes_len n) (λ _. laws.get_bytes_len_short n r h)

  pub primitive_payload_short :
      (ty : PrimitiveTy) (len : ℕ) (r : w.Reader)
      → length (remaining r) < len * PrimitiveTy.size ty
      → IsErr (read_primitive_payload w ty len r).0
  primitive_payload_short ty len r h = elim (dec_lt (len * PrimitiveTy.size ty) usize_mod) [
    | yes fits ↦ rw (read_primitive_payload_fits w laws ty len r fits) (
        map_read-IsErr _ (read_byte_payload w (len * PrimitiveTy.size ty) r)
          (payload_short (len * PrimitiveTy.size ty) r h))
    | no over ↦ rw (read_primitive_payload_overflow w laws ty len r (omega arith)) tt
  ]

  pub array_short :
      (ty : PrimitiveTy) (len : ℕ) (r : w.Reader)
      → length (remaining r) < PrimitiveTy.size ty * len
      → IsErr (parse w (Ty.array ty len) r).0
  unfolding parse PrimitiveTy.size
  array_short PrimitiveTy.u8 len r h =
      map_read-IsErr Value.bytes (read_byte_payload w len r) (payload_short len r (omega arith))
  array_short ty len r h = primitive_payload_short ty len r (omega arith)

  -- Of a type with a static size, an input with fewer bytes is refused with an error.
  pub parse_short :
      (ty : Ty) (n : ℕ) (r : w.Reader)
      → ty_size ty ≡ some n
      → length (remaining r) < n
      → IsErr (parse w ty r).0
  unfolding ty_size parse
  parse_short (Ty.primitive_ty ty) n r e h =
      let width : size_of (element ty) ≡ n = size_of-element ty ∙ cc in
      rw (read_value_lem w ty r) (
        map_read-IsErr (value_of (element ty)) (w.get (element ty) r)
          (laws.get_short (element ty) r (omega arith)))
  parse_short Ty.string n r e h = cc
  parse_short (Ty.vec ty) n r e h = cc
  parse_short (Ty.array ty len) n r e h =
      let same : PrimitiveTy.size ty * len % usize_mod ≡ n = cc in
      array_short ty len r (omega arith)
