-- ===== src/Parse/Cut.antt =====
-- A serialized field that is cut off (wincode-dynamic/src/ty.rs, `Ty::parse`).
use wincode_dynamic.Prelude.{
  ◌*◌, ◌≤◌, ◌<◌, sym, inl, inr, List, ◌++◌, length, usize_mod, IsStrictPrefix, IsStrictPrefix-cases,
  length-IsStrictPrefix, arith, subst,
}
use wincode_dynamic.Wincode.{Wincode, Primitive, El, size_of}
use wincode_dynamic.Wincode.Monad.{IsErr, and_then, map_read-IsErr, and_then-IsErr_fst, and_then_ok}
use wincode_dynamic.Wincode.Laws.{WincodeLaws}
use wincode_dynamic.Wincode.Facts.{put_all, length-put_all}
use wincode_dynamic.PrimitiveTy
use wincode_dynamic.PrimitiveTy.Element.{size-type_of}
use wincode_dynamic.Ty.{Ty, FieldType, Datum, type_of}
use wincode_dynamic.Value.{Value}
use wincode_dynamic.Read.Uniform.{value_of, read_value-type_of}
use wincode_dynamic.Parse.{parse, read_primitive_payload}
use wincode_dynamic.Parse.RoundTrip.{serialize, IsWritable, put_all_u8, len_fits}
use wincode_dynamic.Parse.Truncated.{primitive_payload_short, array_short}

module _ (w : Wincode) (laws : WincodeLaws w) where
  open laws use {remaining}

  -- The bytes that a cut leaves of a sequence's elements.
  elements_cut :
      (A : Primitive) (xs : List (El A)) (r : w.Reader)
      → IsStrictPrefix (remaining r) (put_all w A xs)
      → length (remaining r) < length xs * PrimitiveTy.size (PrimitiveTy.type_of A)
  elements_cut A xs r cut = rw size-type_of (
      omega (
        arith,
        length-IsStrictPrefix (remaining r) (put_all w A xs) cut,
        length-put_all w laws A xs,
      ))

  prefixed_payload_cut :
      (A : Primitive) (xs : List (El A)) (r : w.Reader)
      → length xs * size_of A ≤ w.prealloc_limit
      → IsStrictPrefix (remaining r) (w.put_len (length xs) ++ put_all w A xs)
      → IsErr
          (and_then (w.read_len r) (λ len. read_primitive_payload w (PrimitiveTy.type_of A) len)).0
  prefixed_payload_cut A xs r fits cut =
      let few : length xs < usize_mod =
        omega (arith, len_fits w laws A xs fits, laws.prealloc_limit_bound) in
      elim (IsStrictPrefix-cases (remaining r) (w.put_len (length xs)) (put_all w A xs) cut) [
        | inl early ↦
            and_then-IsErr_fst (w.read_len r) _ (laws.read_len_cut (length xs) r few early)
        | inr (rest, e, late) ↦
            let (read, left, _) = laws.read_len-put_len (length xs) r rest few e in
            let r' = (w.read_len r).1 in
            let cut' = subst (λ xs'. IsStrictPrefix xs' (put_all w A xs)) (sym left) late in
            rw
              (and_then_ok (w.read_len r)
                (λ len. read_primitive_payload w (PrimitiveTy.type_of A) len) read)
              (primitive_payload_short w laws (PrimitiveTy.type_of A) (length xs) r'
                (elements_cut A xs r' cut'))
      ]

  vec_cut :
      (A : Primitive) (xs : List (El A)) (r : w.Reader)
      → length xs * size_of A ≤ w.prealloc_limit
      → IsStrictPrefix (remaining r) (w.put_len (length xs) ++ put_all w A xs)
      → IsErr (parse w (Ty.vec (PrimitiveTy.type_of A)) r).0
  unfolding parse PrimitiveTy.type_of
  vec_cut Primitive.u8 xs r fits cut =
      map_read-IsErr Value.bytes (w.get_bytes r)
        (laws.get_bytes_cut r xs (len_fits w laws Primitive.u8 xs fits) (rw put_all_u8 at cut))
  vec_cut A xs r fits cut = prefixed_payload_cut A xs r fits cut

  -- A serialized field of which the end is missing, from one byte to all, is refused with an error.
  pub parse-serialize_cut :
      (T : FieldType) (d : Datum T) (r : w.Reader)
      → IsWritable w laws T d
      → IsStrictPrefix (remaining r) (serialize w T d)
      → IsErr (parse w (type_of T) r).0
  unfolding parse type_of serialize
  parse-serialize_cut (FieldType.primitive A) a r h cut = rw (read_value-type_of w A r) (
      map_read-IsErr (value_of A) (w.get A r) (
        laws.get_short A r (
          omega (arith, length-IsStrictPrefix (remaining r) (w.put A a) cut, laws.length-put A a))))
  parse-serialize_cut FieldType.string text r (h, fits) cut =
      map_read-IsErr Value.string (w.get_str r) (laws.get_str_cut r text fits cut)
  parse-serialize_cut (FieldType.vec A) xs r (h, fits) cut = vec_cut A xs r fits cut
  parse-serialize_cut (FieldType.array A n) xs r (h, fits, count) cut =
      array_short w laws (PrimitiveTy.type_of A) n r
        (rw (← count) (omega (arith, elements_cut A xs r cut)))
