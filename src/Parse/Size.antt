-- ===== src/Parse/Size.antt =====
-- `Ty::size` (wincode-dynamic/src/ty.rs) and `Value::size` (wincode-dynamic/src/value.rs) against
-- the lengths of the encodings, and the soundness of every decoded vector.
use wincode_dynamic.Prelude.{
  ℕ, ◌*◌, ◌%◌, ◌≤◌, ◌<◌, ◌≡◌, ◌≢◌, refl, sym, ap, ◌∙◌, Bool, some, List, length, usize_mod, arith,
}
use native.Mathlib.Nat.{mul_comm}
use wincode_dynamic.Wincode.{
  Wincode, Bytes, Primitive, El, ReadResult, ReadError, ok, err, Cow, size_of,
}
use wincode_dynamic.Wincode.Monad.{map_read, and_then, map_read-eq_ok, and_then-eq_ok}
use wincode_dynamic.Wincode.Laws.{WincodeLaws}
use wincode_dynamic.Wincode.Facts.{put_all, length-put_all, as_ref-cow}
use wincode_dynamic.PrimitiveTy
use wincode_dynamic.PrimitiveTy.{PrimitiveTy}
use wincode_dynamic.PrimitiveTy.Element.{size-type_of, element}
use wincode_dynamic.Ty.{size as ty_size, Ty, FieldType, Datum, type_of}
use wincode_dynamic.Value.{size as value_size, Value, LazyVec}
use wincode_dynamic.Lazy.{new_unchecked}
use wincode_dynamic.Lazy.Safety.{IsSound}
use wincode_dynamic.Read.Uniform.{value_of, size-value_of, read_value_lem}
use wincode_dynamic.Parse.{parse, read_primitive_payload}
use wincode_dynamic.Parse.Payload.{read_primitive_payload-IsSound, read_primitive_payload_overflow}
use wincode_dynamic.Parse.RoundTrip.{serialize, IsWritable, decoded, sequence_value, put_all_u8}

value_of-ne-vec : (A : Primitive) (a : El A) (v : LazyVec) → value_of A a ≢ Value.vec v
unfolding value_of
value_of-ne-vec Primitive.u8 a v e = cc
value_of-ne-vec _ a v e = cc

module _ (w : Wincode) (laws : WincodeLaws w) where
  read_value-ne-vec :
      (ty : PrimitiveTy) (r : w.Reader) (v : LazyVec)
      → (map_read (value_of (element ty)) (w.get (element ty) r)).0 ≢ ok (Value.vec v)
  read_value-ne-vec ty r v e =
      let (a, _, same) = map_read-eq_ok (value_of (element ty)) (w.get (element ty) r) e in
      value_of-ne-vec (element ty) a v (cc same)

  prefixed-IsSound :
      (ty : PrimitiveTy) (r : w.Reader) (v : LazyVec)
      → (and_then (w.read_len r) (λ len. read_primitive_payload w ty len)).0 ≡ ok (Value.vec v)
      → IsSound v
  prefixed-IsSound ty r v e =
      let (len, _, read) =
        and_then-eq_ok (w.read_len r) (λ len. read_primitive_payload w ty len) e in
      (read_primitive_payload-IsSound w laws ty len (w.read_len r).1 v read).0

  bytes-ne-vec :
      (f : Cow Bytes → Value) (p : ReadResult (Cow Bytes) × w.Reader) (v : LazyVec)
      → ((c : Cow Bytes) → f c ≢ Value.vec v)
      → (map_read f p).0 ≢ ok (Value.vec v)
  bytes-ne-vec f p v h e = let (c, _, same) = map_read-eq_ok f p e in h c (cc same)

  vec-IsSound :
      (ty : PrimitiveTy) (r : w.Reader) (v : LazyVec)
      → (parse w (Ty.vec ty) r).0 ≡ ok (Value.vec v)
      → IsSound v
  unfolding parse
  vec-IsSound PrimitiveTy.u8 r v e =
      absurd (bytes-ne-vec Value.bytes (w.get_bytes r) v (λ c k. cc) e)
  vec-IsSound ty r v e = prefixed-IsSound _ r v e

  array-IsSound :
      (ty : PrimitiveTy) (len : ℕ) (r : w.Reader) (v : LazyVec)
      → (parse w (Ty.array ty len) r).0 ≡ ok (Value.vec v)
      → IsSound v
  unfolding parse
  array-IsSound PrimitiveTy.u8 len r v e = absurd (bytes-ne-vec Value.bytes _ v (λ c k. cc) e)
  array-IsSound ty len r v e = (read_primitive_payload-IsSound w laws _ len r v e).0

  -- Every lazy vector that parsing makes, of any type and any input, keeps the promise of
  -- `LazyVec::new_unchecked`: its payload is as long as its type and length say.
  pub parse-IsSound :
      (ty : Ty) (r : w.Reader) (v : LazyVec) → (parse w ty r).0 ≡ ok (Value.vec v) → IsSound v
  unfolding parse
  parse-IsSound (Ty.primitive_ty ty) r v e =
      absurd (read_value-ne-vec ty r v (ap (λ p. p.0) (sym (read_value_lem w ty r)) ∙ e))
  parse-IsSound Ty.string r v e = absurd (bytes-ne-vec Value.string (w.get_str r) v (λ c k. cc) e)
  parse-IsSound (Ty.vec ty) r v e = vec-IsSound ty r v e
  parse-IsSound (Ty.array ty len) r v e = array-IsSound ty len r v e

  size-sequence_value :
      (b : Bool) (A : Primitive) (xs : List (El A))
      → value_size (sequence_value w b A xs) ≡ length (put_all w A xs)
  unfolding sequence_value value_size new_unchecked
  size-sequence_value b Primitive.u8 xs =
      ap length (as_ref-cow b xs) ∙ sym (ap length (put_all_u8 w laws xs))
  size-sequence_value b A xs = ap length (as_ref-cow b (put_all w _ xs))

  array_size :
      (A : Primitive) (n : ℕ)
      → n * size_of A < usize_mod
      → ty_size (Ty.array (PrimitiveTy.type_of A) n) ≡ some (n * size_of A)
  unfolding ty_size
  array_size A n h =
      let product : PrimitiveTy.size (PrimitiveTy.type_of A) * n ≡ n * size_of A =
        mul_comm (PrimitiveTy.size (PrimitiveTy.type_of A)) n ∙ ap (λ k. n * k) (size-type_of A) in
      let small : n * size_of A % usize_mod ≡ n * size_of A = omega arith in
      ap (λ k. some (k % usize_mod)) product ∙ ap some small

  -- A static `Ty::size` is the length of every encoding of the type, and the size that the decoded
  -- value reports, for sequences within the preallocation limit.
  pub size-serialize :
      (T : FieldType) (d : Datum T) (b : Bool) (n : ℕ)
      → IsWritable w laws T d
      → ty_size (type_of T) ≡ some n
      → (length (serialize w T d) ≡ n) × (value_size (decoded w b T d) ≡ n)
  unfolding serialize decoded type_of
  size-serialize (FieldType.primitive A) a b n h e =
      let width : size_of A ≡ n = sym (size-type_of A) ∙ unfold ty_size in cc in
      (laws.length-put A a ∙ width, size-value_of A a ∙ width)
  size-serialize FieldType.string text b n h e = unfold ty_size in cc
  size-serialize (FieldType.vec A) xs b n h e = unfold ty_size in cc
  size-serialize (FieldType.array A k) xs b n (h, fits, count) e =
      let small : k * size_of A < usize_mod =
        rw (← count) (omega (arith, laws.prealloc_limit_bound)) in
      let width : k * size_of A ≡ n = cc (array_size A k small) in
      let all : length (put_all w A xs) ≡ n =
        length-put_all w laws A xs ∙ ap (λ m. m * size_of A) count ∙ width in
      (all, size-sequence_value b A xs ∙ all)

  array_refused :
      (ty : PrimitiveTy) (len : ℕ) (r : w.Reader)
      → ty ≢ PrimitiveTy.u8
      → usize_mod ≤ len * PrimitiveTy.size ty
      → parse w (Ty.array ty len) r ≡ (err (ReadError.length_encoding_overflow "usize::MAX"), r)
  unfolding parse
  array_refused PrimitiveTy.u8 len r not_u8 h = absurd (not_u8 refl)
  array_refused ty len r _ h = read_primitive_payload_overflow w laws _ len r h

  -- Of an array type whose size overflows, of elements other than `u8`, `Ty::size` states a size
  -- that is too small, and a value is refused before anything is read.
  pub size_wraps :
      (ty : PrimitiveTy) (len : ℕ) (r : w.Reader)
      → ty ≢ PrimitiveTy.u8
      → usize_mod ≤ len * PrimitiveTy.size ty
      → (n : ℕ) × (ty_size (Ty.array ty len) ≡ some n)
        × (n < len * PrimitiveTy.size ty)
        × (parse w (Ty.array ty len) r ≡ (err (ReadError.length_encoding_overflow "usize::MAX"), r))
  unfolding ty_size
  size_wraps ty len r not_u8 h = (
    PrimitiveTy.size ty * len % usize_mod,
    refl,
    rw (mul_comm (PrimitiveTy.size ty) len) (omega arith),
    array_refused ty len r not_u8 h,
  )
