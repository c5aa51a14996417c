-- ===== src/Decoder/Cut.antt =====
-- Values of which the end is missing, under a `Decoder` (wincode-dynamic/src/lib.rs).
use wincode_dynamic.Prelude.{
  ℕ, suc, ◌≡◌, ◌<◌, ◌⊎◌, refl, sym, ap, subst, inl, inr, List, map, length, All, IsStrictPrefix,
  IsStrictPrefix-cases, length-IsStrictPrefix, arith,
}
use wincode_dynamic.Wincode.{Wincode, Primitive, ReadResult, ReadError, ok, err, size_of}
use wincode_dynamic.Wincode.Monad.{IsErr, IsErr-eq_err, check_read-IsErr}
use wincode_dynamic.Wincode.Laws.{WincodeLaws}
use wincode_dynamic.PrimitiveTy.{type_of}
use wincode_dynamic.Read.{read_usize, try_cast_unsigned, try_cast_signed}
use wincode_dynamic.Parse.{parse_into_usize}
use wincode_dynamic.Schema.{Schema, RootSchema}
use wincode_dynamic.Fields.{Fields, schema_fields}
use wincode_dynamic.Fields.Drain.{finished, collect}
use wincode_dynamic.Fields.RoundTrip.{Row, row_def, encode_rows, IsWritableRow}
use wincode_dynamic.Fields.Cut.{collect-encode_rows_cut}
use wincode_dynamic.Decoder.{
  Decoder, decoder, fields, decode_variant, select, map_fields, variant_fields,
}
use wincode_dynamic.Decoder.Tag.{decode_variant-put}
use wincode_dynamic.Decoder.RoundTrip.{Value, rows_of, encode, Describes}

select_err :
    {R : Type 0} (variants : List Schema) (p : ReadResult ℕ × R) {x : ReadError}
    → p.0 ≡ err x
    → select variants p ≡ err x
select_err variants (ok n, r) e = cc
select_err variants (err y, r) e = cc

module _ (w : Wincode) (laws : WincodeLaws w) where
  open laws use {remaining}

  parse_into_usize_short :
      (A : Primitive) (r : w.Reader)
      → length (remaining r) < size_of A
      → IsErr (parse_into_usize w (type_of A) r).0
  unfolding parse_into_usize read_usize type_of
  parse_into_usize_short Primitive.u8 r h = laws.get_short Primitive.u8 r h
  parse_into_usize_short Primitive.u16 r h = laws.get_short Primitive.u16 r h
  parse_into_usize_short Primitive.u32 r h =
      check_read-IsErr try_cast_unsigned (w.get Primitive.u32 r) (laws.get_short Primitive.u32 r h)
  parse_into_usize_short Primitive.u64 r h =
      check_read-IsErr try_cast_unsigned (w.get Primitive.u64 r) (laws.get_short Primitive.u64 r h)
  parse_into_usize_short Primitive.i8 r h =
      check_read-IsErr try_cast_signed (w.get Primitive.i8 r) (laws.get_short Primitive.i8 r h)
  parse_into_usize_short Primitive.i16 r h =
      check_read-IsErr try_cast_signed (w.get Primitive.i16 r) (laws.get_short Primitive.i16 r h)
  parse_into_usize_short Primitive.i32 r h =
      check_read-IsErr try_cast_signed (w.get Primitive.i32 r) (laws.get_short Primitive.i32 r h)
  parse_into_usize_short Primitive.i64 r h =
      check_read-IsErr try_cast_signed (w.get Primitive.i64 r) (laws.get_short Primitive.i64 r h)
  parse_into_usize_short _ r h = tt

  -- What decoding does with a value that it refuses: the decoder gives no iterator, or collecting
  -- the fields ends with an error.
  abbrev pub Refuses : Decoder → ℕ → w.Reader → Type 0
  Refuses d n r =
      ((x : ReadError) × (fields w d r ≡ err x))
      ⊎ ((it : Fields w.Reader) × (x : ReadError) × (fields w d r ≡ ok it)
          × ((collect w (suc n) it).0 ≡ finished (err x)))

  rows_cut :
      (s : Schema) (rows : List Row) (r : w.Reader)
      → s.fields ≡ map row_def rows
      → All (IsWritableRow w laws) rows
      → IsStrictPrefix (remaining r) (encode_rows w rows)
      → (x : ReadError) × ((collect w (suc (length rows)) (schema_fields s r)).0 ≡ finished (err x))
  unfolding schema_fields
  rows_cut s rows r same h cut = rw same (collect-encode_rows_cut w laws rows r h cut)

  -- A serialized value of which the end is missing, from one byte to all, is refused under every
  -- schema that describes it: the tag is an error, or collecting the fields ends with one.
  pub refuse-encode_cut :
      (root : RootSchema) (v : Value) (r : w.Reader)
      → Describes root v
      → All (IsWritableRow w laws) (rows_of v)
      → IsStrictPrefix (remaining r) (encode w v)
      → Refuses (decoder root) (length (rows_of v)) r
  unfolding decoder fields encode variant_fields decode_variant
  refuse-encode_cut (RootSchema.struct s) (Value.struct rows) r same h cut =
      let (x, failed) = rows_cut s rows r same h cut in inr (schema_fields s r, x, refl, failed)
  refuse-encode_cut (RootSchema.struct s) (Value.variant A t n rows) r no_match h cut =
      absurd no_match
  refuse-encode_cut (RootSchema.enum vs size name tag) (Value.struct rows) r no_match h cut =
      absurd no_match
  refuse-encode_cut (RootSchema.enum vs size name tag) (Value.variant A t n rows) r
        (s, same_tag, is_tag, range, known, same) h cut =
      elim (IsStrictPrefix-cases (remaining r) (w.put A t) (encode_rows w rows) cut) [
        | inl early ↦
            let short : length (remaining r) < size_of A =
              omega (
                arith,
                length-IsStrictPrefix (remaining r) (w.put A t) early,
                laws.length-put A t,
              ) in
            let (x, failed) =
              IsErr-eq_err (parse_into_usize w (type_of A) r).0
                (parse_into_usize_short A r short) in
            inl (
              x,
              rw same_tag (ap map_fields (select_err vs (parse_into_usize w (type_of A) r) failed)),
            )
        | inr (rest, e, late) ↦
            let (r₁, picked, left, _) =
              decode_variant-put w laws vs A n t s r rest is_tag range known e in
            let cut' = subst (λ xs. IsStrictPrefix xs (encode_rows w rows)) (sym left) late in
            let (x, failed) = rows_cut s rows r₁ same h cut' in
            inr (schema_fields s r₁, x, rw same_tag (ap map_fields picked), failed)
      ]
