-- ===== src/Parse/Payload.antt =====
-- Byte payloads: how long they are, when they are borrowed, and which limits stop them
-- (`read_byte_payload` and `read_primitive_payload` of wincode-dynamic/src/ty.rs).
use wincode_dynamic.Prelude.{
  sym, ℕ, ◌*◌, ◌≤◌, ◌<◌, ◌≡◌, ◌⊎◌, refl, inl, inr, true, false, Bool-cases, not, ◌++◌, length,
  usize_mod, checked_mul-fits, checked_mul-overflow, arith, if◌then◌else◌,
}
use native.Mathlib.Decide.{dec_lt}
use wincode_dynamic.Wincode.{Wincode, Bytes, ReadError, ok, err, Cow, as_ref}
use wincode_dynamic.Wincode.Monad.{map_read, map_read-eq_ok, and_then-eq_ok}
use wincode_dynamic.Wincode.Laws.{WincodeLaws, Takes, cow}
use wincode_dynamic.Wincode.Facts.{length_of_get_bytes_len}
use wincode_dynamic.PrimitiveTy.{PrimitiveTy, size}
use wincode_dynamic.Value.{Value, LazyVec}
use wincode_dynamic.Lazy.{new_unchecked}
use wincode_dynamic.Lazy.Safety.{IsSound}
use wincode_dynamic.Parse.{read_byte_payload, read_primitive_payload}

-- The payloads that may be copied: those of a reader that lends its bytes, and those within the
-- preallocation limit.
abbrev pub IsAllowed : (w : Wincode) → w.Reader → ℕ → Type 0
IsAllowed w r n = (w.supports_borrow r ≡ true) ⊎ (n ≤ w.prealloc_limit)

-- A vector that is made of a payload of the right length is sound.
new_unchecked-IsSound :
    (ty : PrimitiveTy) (len : ℕ) (payload : Cow Bytes) (v : LazyVec)
    → new_unchecked ty len payload ≡ v
    → length (as_ref payload) ≡ len * size ty
    → len * size ty < usize_mod
    → IsSound v × (v.ty ≡ ty) × (v.len ≡ len)
unfolding new_unchecked
new_unchecked-IsSound ty len payload v same exact fits =
    rw (← same) (record { exact = exact; in_memory = rw exact fits }, refl, refl)

module _ (w : Wincode) (laws : WincodeLaws w) where
  open laws use {remaining}

  read_byte_payload_allowed :
      (n : ℕ) (r : w.Reader) → IsAllowed w r n → read_byte_payload w n r ≡ w.get_bytes_len n r
  unfolding read_byte_payload
  read_byte_payload_allowed n r (inl borrows) = rw borrows
  read_byte_payload_allowed n r (inr fits) = elim (Bool-cases (w.supports_borrow r)) [
    | inl e ↦ rw e
    | inr e ↦ rw (e, laws.prealloc_check_fits 1 n (omega arith))
  ]

  -- A payload that is in the input, and within the preallocation limit where the reader cannot
  -- lend its bytes, is returned whole, borrowed where the reader lends its bytes, and the reader
  -- is left behind it.
  pub read_byte_payload-Takes :
      (r : w.Reader) (xs rest : Bytes)
      → IsAllowed w r (length xs)
      → remaining r ≡ xs ++ rest
      → Takes remaining w.supports_borrow r
          (read_byte_payload w (length xs) r)
          (cow (w.supports_borrow r) xs)
          rest
  read_byte_payload-Takes r xs rest a e =
      rw (read_byte_payload_allowed (length xs) r a) (laws.get_bytes_len_takes r xs rest e)

  -- A reader that has to copy is not asked for a payload above the preallocation limit, of a
  -- length that fits a `usize`: the error states both.
  pub read_byte_payload_limit :
      (n : ℕ) (r : w.Reader)
      → w.supports_borrow r ≡ false
      → w.prealloc_limit < n
      → n < usize_mod
      → read_byte_payload w n r ≡ (err (ReadError.preallocation_size_limit n w.prealloc_limit), r)
  unfolding read_byte_payload
  read_byte_payload_limit n r b h m =
      let one : n * 1 ≡ n = omega arith in
      rw (b, laws.prealloc_check_exceeds 1 n (omega arith) (omega arith), one)

  pub length_of_read_byte_payload :
      (n : ℕ) (r : w.Reader) (c : Cow Bytes)
      → (read_byte_payload w n r).0 ≡ ok c
      → length (as_ref c) ≡ n
  unfolding read_byte_payload
  length_of_read_byte_payload n r c e =
      let check = if not (w.supports_borrow r) then w.prealloc_check 1 n else ok tt in
      let (_, _, read) = and_then-eq_ok (check, r) (λ _. w.get_bytes_len n) e in
      length_of_get_bytes_len w laws n r c read

  -- A payload whose size overflows is refused, and nothing is read.
  pub read_primitive_payload_overflow :
      (ty : PrimitiveTy) (len : ℕ) (r : w.Reader)
      → usize_mod ≤ len * size ty
      → read_primitive_payload w ty len r
        ≡ (err (ReadError.length_encoding_overflow "usize::MAX"), r)
  unfolding read_primitive_payload
  read_primitive_payload_overflow ty len r h =
      rw (read_primitive_payload, checked_mul-overflow len (size ty) h)

  pub read_primitive_payload_fits :
      (ty : PrimitiveTy) (len : ℕ) (r : w.Reader)
      → len * size ty < usize_mod
      → read_primitive_payload w ty len r
        ≡ map_read
            (λ payload. Value.vec (new_unchecked ty len payload))
            (read_byte_payload w (len * size ty) r)
  unfolding read_primitive_payload
  read_primitive_payload_fits ty len r h =
      rw (read_primitive_payload, checked_mul-fits len (size ty) h)

  -- The vector of a payload that was read keeps the promise of `LazyVec::new_unchecked`.
  pub read_primitive_payload-IsSound :
      (ty : PrimitiveTy) (len : ℕ) (r : w.Reader) (v : LazyVec)
      → (read_primitive_payload w ty len r).0 ≡ ok (Value.vec v)
      → IsSound v × (v.ty ≡ ty) × (v.len ≡ len)
  read_primitive_payload-IsSound ty len r v e = elim (dec_lt (len * size ty) usize_mod) [
    | yes h ↦
        let n = len * size ty in
        let made = λ (payload : Cow Bytes). Value.vec (new_unchecked ty len payload) in
        let run = rw (read_primitive_payload_fits ty len r h) at e in
        let (payload, read, same) = map_read-eq_ok made (read_byte_payload w n r) run in
        new_unchecked-IsSound ty len payload v (cc same)
          (length_of_read_byte_payload n r payload read) h
    | no h ↦ let run = rw (read_primitive_payload_overflow ty len r (omega arith)) at e in cc run
  ]

  -- What a payload is wrapped in is always a lazy vector.
  pub read_primitive_payload-eq_vec :
      (ty : PrimitiveTy) (len : ℕ) (r : w.Reader) (v : Value)
      → (read_primitive_payload w ty len r).0 ≡ ok v
      → (l : LazyVec) × (v ≡ Value.vec l)
  read_primitive_payload-eq_vec ty len r v e = elim (dec_lt (len * size ty) usize_mod) [
    | yes h ↦
        let made = λ (payload : Cow Bytes). Value.vec (new_unchecked ty len payload) in
        let run = rw (read_primitive_payload_fits ty len r h) at e in
        let (payload, _, same) = map_read-eq_ok made (read_byte_payload w (len * size ty) r) run in
        (new_unchecked ty len payload, sym same)
    | no h ↦ let run = rw (read_primitive_payload_overflow ty len r (omega arith)) at e in cc run
  ]
