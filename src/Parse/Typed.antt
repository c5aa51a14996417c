-- ===== src/Parse/Typed.antt =====
-- Type soundness of `Ty::parse` (wincode-dynamic/src/ty.rs): which values it can return, on any
-- input, and the sizes that they report.
use wincode_dynamic.Prelude.{ℕ, ◌*◌, ◌%◌, ◌<◌, ◌≡◌, sym, ap, ◌∙◌, some, length, usize_mod, arith}
use native.Mathlib.Nat.{mul_comm}
use wincode_dynamic.Wincode.{Wincode, Bytes, ReadResult, ok, Cow, as_ref, El}
use wincode_dynamic.Wincode.Monad.{map_read, and_then, map_read-eq_ok, and_then-eq_ok}
use wincode_dynamic.Wincode.Laws.{WincodeLaws}
use wincode_dynamic.PrimitiveTy
use wincode_dynamic.PrimitiveTy.{PrimitiveTy}
use wincode_dynamic.PrimitiveTy.Element.{element, size_of-element}
use wincode_dynamic.Ty.{size as ty_size, Ty}
use wincode_dynamic.Value.{size as value_size, Value, LazyVec}
use wincode_dynamic.Lazy.Safety.{IsSound}
use wincode_dynamic.Read.Uniform.{value_of, size-value_of, read_value_lem}
use wincode_dynamic.Parse.{parse, read_primitive_payload}
use wincode_dynamic.Parse.Payload.{
  read_primitive_payload-IsSound, read_primitive_payload-eq_vec, length_of_read_byte_payload,
}

-- The values of a runtime type: a scalar of the type, a text, bytes for `u8` sequences, and a sound
-- lazy vector of the recorded element type for the others; an array has its length.
abbrev pub HasType : Ty → Value → Type 0
HasType (Ty.primitive_ty ty) v = (a : El (element ty)) × (v ≡ value_of (element ty) a)
HasType Ty.string v = (text : Cow Bytes) × (v ≡ Value.string text)
HasType (Ty.vec PrimitiveTy.u8) v = (payload : Cow Bytes) × (v ≡ Value.bytes payload)
HasType (Ty.vec ty) v = (l : LazyVec) × (v ≡ Value.vec l) × IsSound l × (l.ty ≡ ty)
HasType (Ty.array PrimitiveTy.u8 len) v =
    (payload : Cow Bytes) × (v ≡ Value.bytes payload) × (length (as_ref payload) ≡ len)
HasType (Ty.array ty len) v =
    (l : LazyVec) × (v ≡ Value.vec l) × IsSound l × (l.ty ≡ ty) × (l.len ≡ len)

module _ (w : Wincode) (laws : WincodeLaws w) where
  -- The lazy vector that a payload is wrapped in.
  payload_vec :
      (ty : PrimitiveTy) (len : ℕ) (r : w.Reader) (v : Value)
      → (read_primitive_payload w ty len r).0 ≡ ok v
      → (l : LazyVec) × (v ≡ Value.vec l) × IsSound l × (l.ty ≡ ty) × (l.len ≡ len)
  payload_vec ty len r v e =
      let (l, same) = read_primitive_payload-eq_vec w laws ty len r v e in
      let (sound, ty_same, len_same) =
        read_primitive_payload-IsSound w laws ty len r l (e ∙ ap ok same) in
      (l, same, sound, ty_same, len_same)

  prefixed_vec :
      (ty : PrimitiveTy) (r : w.Reader) (v : Value)
      → (and_then (w.read_len r) (λ len. read_primitive_payload w ty len)).0 ≡ ok v
      → (l : LazyVec) × (v ≡ Value.vec l) × IsSound l × (l.ty ≡ ty)
  prefixed_vec ty r v e =
      let (len, _, read) =
        and_then-eq_ok (w.read_len r) (λ len. read_primitive_payload w ty len) e in
      let (l, same, sound, ty_same, _) = payload_vec ty len (w.read_len r).1 v read in
      (l, same, sound, ty_same)

  mapped :
      (f : Cow Bytes → Value) (p : ReadResult (Cow Bytes) × w.Reader) (v : Value)
      → (map_read f p).0 ≡ ok v
      → (c : Cow Bytes) × (p.0 ≡ ok c) × (v ≡ f c)
  mapped f p v e = let (c, read, same) = map_read-eq_ok f p e in (c, read, sym same)

  vec-HasType :
      (ty : PrimitiveTy) (r : w.Reader) (v : Value)
      → (parse w (Ty.vec ty) r).0 ≡ ok v
      → HasType (Ty.vec ty) v
  unfolding parse
  vec-HasType PrimitiveTy.u8 r v e =
      let (c, _, same) = mapped Value.bytes (w.get_bytes r) v e in (c, same)
  vec-HasType ty r v e = prefixed_vec ty r v e

  array-HasType :
      (ty : PrimitiveTy) (len : ℕ) (r : w.Reader) (v : Value)
      → (parse w (Ty.array ty len) r).0 ≡ ok v
      → HasType (Ty.array ty len) v
  unfolding parse
  array-HasType PrimitiveTy.u8 len r v e =
      let (c, read, same) = mapped Value.bytes _ v e in
      (c, same, length_of_read_byte_payload w laws len r c read)
  array-HasType ty len r v e = payload_vec ty len r v e

  -- Whatever the input, a value that is parsed has the type that it was parsed at.
  pub parse-HasType : (ty : Ty) (r : w.Reader) (v : Value) → (parse w ty r).0 ≡ ok v → HasType ty v
  unfolding parse
  parse-HasType (Ty.primitive_ty ty) r v e =
      let (a, _, same) =
        map_read-eq_ok (value_of (element ty)) (w.get (element ty) r)
          (ap (λ p. p.0) (sym (read_value_lem w ty r)) ∙ e) in
      (a, sym same)
  parse-HasType Ty.string r v e =
      let (c, _, same) = mapped Value.string (w.get_str r) v e in (c, same)
  parse-HasType (Ty.vec ty) r v e = vec-HasType ty r v e
  parse-HasType (Ty.array ty len) r v e = array-HasType ty len r v e

vec_size :
    (l : LazyVec) (ty : PrimitiveTy) (len : ℕ)
    → IsSound l
    → l.ty ≡ ty
    → l.len ≡ len
    → value_size (Value.vec l) ≡ PrimitiveTy.size ty * len % usize_mod
unfolding value_size
vec_size l ty len s t n =
    let exact : length (as_ref l.payload) ≡ PrimitiveTy.size ty * len =
      s.exact
      ∙ mul_comm l.len (PrimitiveTy.size l.ty)
      ∙ ap (λ k. PrimitiveTy.size l.ty * k) n
      ∙ ap (λ t. PrimitiveTy.size t * len) t in
    omega (arith, exact, s.in_memory)

array_size :
    (ty : PrimitiveTy) (len : ℕ) (v : Value)
    → HasType (Ty.array ty len) v
    → value_size v < usize_mod
    → value_size v ≡ PrimitiveTy.size ty * len % usize_mod
unfolding value_size PrimitiveTy.size
array_size PrimitiveTy.u8 len v (payload, same, exact) m =
    let bytes : value_size v ≡ len = ap value_size same ∙ exact in omega arith
array_size ty len v h m = ap value_size h.1 ∙ vec_size h.0 ty len h.2 h.3 h.4

-- A value of a type with a static size reports that size, except for byte arrays too long for a
-- `usize`, of which there are none in memory.
pub size-HasType :
    (ty : Ty) (v : Value) (n : ℕ)
    → HasType ty v
    → value_size v < usize_mod
    → ty_size ty ≡ some n
    → value_size v ≡ n
unfolding ty_size
size-HasType (Ty.primitive_ty ty) v n (a, same) m e =
    ap value_size same ∙ size-value_of (element ty) a ∙ size_of-element ty ∙ cc
size-HasType Ty.string v n h m e = cc
size-HasType (Ty.vec ty) v n h m e = cc
size-HasType (Ty.array ty len) v n h m e = array_size ty len v h m ∙ cc
