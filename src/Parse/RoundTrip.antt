-- ===== src/Parse/RoundTrip.antt =====
-- Parsing what was serialized: `Ty::parse` against the wire format of the Rust field types.
use wincode_dynamic.Prelude.{
  ℕ, ◌*◌, ◌≤◌, ◌<◌, ◌≡◌, refl, sym, ap, ◌∙◌, subst, inr, Bool, true, List, [], ◌∷◌, ◌++◌,
  append_assoc, length, All, usize_mod, le-mul_pos, arith,
}
use wincode_dynamic.Wincode.{Wincode, Bytes, Primitive, El, InRange, size_of}
use wincode_dynamic.Wincode.Monad.{map_read, and_then}
use wincode_dynamic.Wincode.Laws.{WincodeLaws, Takes, Takes-map_read, Takes-and_then, cow}
use wincode_dynamic.Wincode.Facts.{put_all, length-put_all, get-Takes}
use wincode_dynamic.PrimitiveTy
use wincode_dynamic.PrimitiveTy.Element.{size-type_of, size_of_bounds}
use wincode_dynamic.Ty.{Ty, FieldType, Datum, type_of}
use wincode_dynamic.Value.{Value}
use wincode_dynamic.Read.Uniform.{value_of, read_value-type_of}
use wincode_dynamic.Lazy.{new_unchecked}
use wincode_dynamic.Parse.{parse, read_byte_payload, read_primitive_payload}
use wincode_dynamic.Parse.Payload.{read_byte_payload-Takes, read_primitive_payload_fits}

-- The wire format of a field: what wincode's `SchemaWrite` writes for its Rust type.
unfoldable pub serialize : (w : Wincode) (T : FieldType) → Datum T → Bytes
serialize w (FieldType.primitive A) a = w.put A a
serialize w FieldType.string text = w.put_len (length text) ++ text
serialize w (FieldType.vec A) xs = w.put_len (length xs) ++ put_all w A xs
serialize w (FieldType.array A n) xs = put_all w A xs

-- The values of a Rust type, where sequences stay within the preallocation limit.
abbrev pub IsWritable : (w : Wincode) (laws : WincodeLaws w) (T : FieldType) → Datum T → Type 0
IsWritable w laws (FieldType.primitive A) a = InRange A a
IsWritable w laws FieldType.string text =
    (laws.is_utf8 text ≡ true) × (length text ≤ w.prealloc_limit)
IsWritable w laws (FieldType.vec A) xs =
    All (InRange A) xs × (length xs * size_of A ≤ w.prealloc_limit)
IsWritable w laws (FieldType.array A n) xs =
    All (InRange A) xs × (length xs * size_of A ≤ w.prealloc_limit) × (length xs ≡ n)

-- A sequence of `u8` is decoded to its bytes, and any other to a lazy vector over its encoding.
unfoldable pub sequence_value : (w : Wincode) → Bool → (A : Primitive) → List (El A) → Value
sequence_value w borrows Primitive.u8 xs = Value.bytes (cow borrows xs)
sequence_value w borrows A xs =
    Value.vec (new_unchecked (PrimitiveTy.type_of A) (length xs) (cow borrows (put_all w A xs)))

-- The decoded form of a field, for a reader that lends its bytes or not.
unfoldable pub decoded : (w : Wincode) → Bool → (T : FieldType) → Datum T → Value
unfolding sequence_value
decoded w borrows (FieldType.primitive A) a = value_of A a
decoded w borrows FieldType.string text = Value.string (cow borrows text)
decoded w borrows (FieldType.vec A) xs = sequence_value w borrows A xs
decoded w borrows (FieldType.array A n) xs = sequence_value w borrows A xs

module _ (w : Wincode) (laws : WincodeLaws w) where
  open laws use {remaining}

  pub put_all_u8 : (xs : List ℕ) → put_all w Primitive.u8 xs ≡ xs
  unfolding put_all
  put_all_u8 [] = refl
  put_all_u8 (x ∷ xs) = rw (laws.put_u8 x, put_all_u8 xs)

  pub len_fits :
      (A : Primitive) (xs : List (El A))
      → length xs * size_of A ≤ w.prealloc_limit
      → length xs ≤ w.prealloc_limit
  len_fits A xs h = omega (arith, le-mul_pos (length xs) (size_of A) (size_of_bounds A).0)

  -- The elements of a sequence, with its length already known.
  primitive_payload-Takes :
      (A : Primitive) (xs : List (El A)) (r : w.Reader) (rest : Bytes)
      → length xs * size_of A ≤ w.prealloc_limit
      → remaining r ≡ put_all w A xs ++ rest
      → Takes remaining w.supports_borrow r
          (read_primitive_payload w (PrimitiveTy.type_of A) (length xs) r)
          (Value.vec (
            new_unchecked
              (PrimitiveTy.type_of A)
              (length xs)
              (cow (w.supports_borrow r) (put_all w A xs))))
          rest
  primitive_payload-Takes A xs r rest h e =
      let ty = PrimitiveTy.type_of A in
      let n : length xs * PrimitiveTy.size ty ≡ length (put_all w A xs) =
        ap (λ k. length xs * k) (size-type_of A) ∙ sym (length-put_all w laws A xs) in
      let within : length (put_all w A xs) ≤ w.prealloc_limit =
        omega (arith, length-put_all w laws A xs) in
      let fits : length xs * PrimitiveTy.size ty < usize_mod =
        omega (arith, n, laws.prealloc_limit_bound) in
      rw (read_primitive_payload_fits w laws ty (length xs) r fits, n)
        (Takes-map_read remaining w.supports_borrow _ r _
          (read_byte_payload-Takes w laws r (put_all w A xs) rest (inr within) e))

  -- A byte sequence, with its length already known.
  byte_payload-Takes :
      (xs rest : Bytes) (r : w.Reader)
      → length xs ≤ w.prealloc_limit
      → remaining r ≡ xs ++ rest
      → Takes remaining w.supports_borrow r
          (map_read Value.bytes (read_byte_payload w (length xs) r))
          (Value.bytes (cow (w.supports_borrow r) xs))
          rest
  byte_payload-Takes xs rest r h e =
      Takes-map_read remaining w.supports_borrow Value.bytes r _
        (read_byte_payload-Takes w laws r xs rest (inr h) e)

  prefixed_payload-Takes :
      (A : Primitive) (xs : List (El A)) (r : w.Reader) (rest : Bytes)
      → length xs * size_of A ≤ w.prealloc_limit
      → remaining r ≡ w.put_len (length xs) ++ (put_all w A xs ++ rest)
      → Takes remaining w.supports_borrow r
          (and_then (w.read_len r) (λ len. read_primitive_payload w (PrimitiveTy.type_of A) len))
          (Value.vec (
            new_unchecked
              (PrimitiveTy.type_of A)
              (length xs)
              (cow (w.supports_borrow r) (put_all w A xs))))
          rest
  prefixed_payload-Takes A xs r rest h e =
      let prefix =
        laws.read_len-put_len (length xs) r (put_all w A xs ++ rest)
          (omega (arith, len_fits A xs h, laws.prealloc_limit_bound)) e in
      let (_, left, borrows) = prefix in
      Takes-and_then remaining w.supports_borrow r (w.read_len r) _ prefix (
        subst
          (λ b.
            Takes remaining w.supports_borrow (w.read_len r).1
              (read_primitive_payload w (PrimitiveTy.type_of A) (length xs) (w.read_len r).1)
              (Value.vec
                (new_unchecked (PrimitiveTy.type_of A) (length xs) (cow b (put_all w A xs))))
              rest)
          borrows (primitive_payload-Takes A xs (w.read_len r).1 rest h left))

  vec-Takes :
      (A : Primitive) (xs : List (El A)) (r : w.Reader) (rest : Bytes)
      → length xs * size_of A ≤ w.prealloc_limit
      → remaining r ≡ w.put_len (length xs) ++ (put_all w A xs ++ rest)
      → Takes remaining w.supports_borrow r
          (parse w (Ty.vec (PrimitiveTy.type_of A)) r)
          (sequence_value w (w.supports_borrow r) A xs)
          rest
  unfolding parse sequence_value PrimitiveTy.type_of
  vec-Takes Primitive.u8 xs r rest h e =
      Takes-map_read remaining w.supports_borrow Value.bytes r (w.get_bytes r)
        (laws.get_bytes_takes r xs rest (len_fits Primitive.u8 xs h) (rw put_all_u8 at e))
  vec-Takes A xs r rest h e = prefixed_payload-Takes A xs r rest h e

  array-Takes :
      (A : Primitive) (xs : List (El A)) (r : w.Reader) (rest : Bytes)
      → length xs * size_of A ≤ w.prealloc_limit
      → remaining r ≡ put_all w A xs ++ rest
      → Takes remaining w.supports_borrow r
          (parse w (Ty.array (PrimitiveTy.type_of A) (length xs)) r)
          (sequence_value w (w.supports_borrow r) A xs)
          rest
  unfolding parse sequence_value PrimitiveTy.type_of
  array-Takes Primitive.u8 xs r rest h e =
      byte_payload-Takes xs rest r (len_fits Primitive.u8 xs h) (rw put_all_u8 at e)
  array-Takes A xs r rest h e = primitive_payload-Takes A xs r rest h e

  -- `Ty::parse` of a serialized field returns its value, whatever follows it in the input, and
  -- consumes exactly the field, for texts and sequences within the preallocation limit.
  pub parse-serialize :
      (T : FieldType) (d : Datum T) (r : w.Reader) (rest : Bytes)
      → IsWritable w laws T d
      → remaining r ≡ serialize w T d ++ rest
      → Takes remaining w.supports_borrow r
          (parse w (type_of T) r)
          (decoded w (w.supports_borrow r) T d)
          rest
  unfolding parse type_of decoded serialize PrimitiveTy.type_of
  parse-serialize (FieldType.primitive A) a r rest h e = rw (read_value-type_of w A r) (
      Takes-map_read remaining w.supports_borrow (value_of A) r (w.get A r)
        (get-Takes w laws A a r rest h e))
  parse-serialize FieldType.string text r rest (h, fits) e =
      Takes-map_read remaining w.supports_borrow Value.string r (w.get_str r)
        (laws.get_str_takes r text rest h fits (e ∙ append_assoc _ text rest))
  parse-serialize (FieldType.vec A) xs r rest (h, fits) e =
      vec-Takes A xs r rest fits (e ∙ append_assoc _ (put_all w A xs) rest)
  parse-serialize (FieldType.array A n) xs r rest (h, fits, count) e =
      subst
        (λ k.
          Takes remaining w.supports_borrow r (parse w (Ty.array (PrimitiveTy.type_of A) k) r)
            (sequence_value w (w.supports_borrow r) A xs) rest)
        count (array-Takes A xs r rest fits e)
