-- ===== src/Decoder/Tag.antt =====
-- The variant tag: `PrimitiveTy::parse_into_usize` and `EnumDecoder::decode_variant` against the
-- encoding of a variant's index.
use wincode_dynamic.Prelude.{
  ℕ, ◌≤◌, ◌<◌, ◌≡◌, ap, ◌∙◌, Bool, ℤ, pos, negsuc, IsSigned, ◌^◌, subst, List, ◌++◌, some,
  get_elem?, get_elem?-none, length, usize_mod, lt→ltb, arith,
}
use wincode_dynamic.Wincode.{Wincode, Bytes, Primitive, El, InRange, ReadResult, ReadError, ok, err}
use wincode_dynamic.Wincode.Monad.{check_read}
use wincode_dynamic.Wincode.Laws.{WincodeLaws, Takes}
use wincode_dynamic.Wincode.Facts.{get-Takes}
use wincode_dynamic.PrimitiveTy.{type_of}
use wincode_dynamic.Read.{read_usize, try_cast_unsigned, try_cast_signed}
use wincode_dynamic.Parse.{parse_into_usize}
use wincode_dynamic.Schema.{Schema}
use wincode_dynamic.Decoder.{selected, select, decode_variant}

-- The value of a tag type that stands for an index. Floats and Booleans encode no index.
abbrev pub IsTag : (A : Primitive) → ℕ → El A → Type 0
IsTag Primitive.u8 n t = t ≡ n
IsTag Primitive.u16 n t = t ≡ n
IsTag Primitive.u32 n t = t ≡ n
IsTag Primitive.u64 n t = t ≡ n
IsTag Primitive.i8 n t = t ≡ pos n
IsTag Primitive.i16 n t = t ≡ pos n
IsTag Primitive.i32 n t = t ≡ pos n
IsTag Primitive.i64 n t = t ≡ pos n
IsTag Primitive.f32 n t = ⊥
IsTag Primitive.f64 n t = ⊥
IsTag Primitive.bool n t = ⊥

Takes-check_read :
    {R A B : Type 0} (remaining : R → Bytes) (borrows : R → Bool) (f : A → ReadResult B) (r : R)
    (p : ReadResult A × R) {a : A} {b : B} {rest : Bytes}
    → f a ≡ ok b
    → Takes remaining borrows r p a rest
    → Takes remaining borrows r (check_read f p) b rest
Takes-check_read remaining borrows f r (ok a', r') h (e, l, b) = (cc, l, b)
Takes-check_read remaining borrows f r (err x, r') h (e, l, b) = cc

try_cast_unsigned-lt : (n : ℕ) → n < usize_mod → try_cast_unsigned n ≡ ok n
unfolding try_cast_unsigned
try_cast_unsigned-lt n h = rw (lt→ltb n usize_mod h)

-- An index fits its tag type.
try_cast_signed-lt :
    (k n : ℕ) (t : ℤ) → k ≤ usize_mod → t ≡ pos n → IsSigned k t → try_cast_signed t ≡ ok n
unfolding try_cast_signed
try_cast_signed-lt k n (pos m) fits i h =
    let same : m ≡ n = cc in rw same (try_cast_unsigned-lt n (omega arith))
try_cast_signed-lt k n (negsuc m) fits i h = cc

module _ (w : Wincode) (laws : WincodeLaws w) where
  open laws use {remaining}

  cast_tag :
      (A : Primitive) (cast : El A → ReadResult ℕ) (t : El A) (n : ℕ) (r : w.Reader) (rest : Bytes)
      → cast t ≡ ok n
      → InRange A t
      → remaining r ≡ w.put A t ++ rest
      → Takes remaining w.supports_borrow r (check_read cast (w.get A r)) n rest
  cast_tag A cast t n r rest c h e =
      Takes-check_read remaining w.supports_borrow cast r (w.get A r) c
        (get-Takes w laws A t r rest h e)

  -- Every integer tag type gives back the index that was written, and only the tag is consumed.
  pub parse_into_usize-put :
      (A : Primitive) (n : ℕ) (t : El A) (r : w.Reader) (rest : Bytes)
      → IsTag A n t
      → InRange A t
      → remaining r ≡ w.put A t ++ rest
      → Takes remaining w.supports_borrow r (parse_into_usize w (type_of A) r) n rest
  unfolding parse_into_usize read_usize type_of
  parse_into_usize-put Primitive.u8 n t r rest i h e =
      subst (λ m. Takes remaining w.supports_borrow r (w.get Primitive.u8 r) m rest) i
        (get-Takes w laws Primitive.u8 t r rest h e)
  parse_into_usize-put Primitive.u16 n t r rest i h e =
      subst (λ m. Takes remaining w.supports_borrow r (w.get Primitive.u16 r) m rest) i
        (get-Takes w laws Primitive.u16 t r rest h e)
  parse_into_usize-put Primitive.u32 n t r rest i h e =
      cast_tag Primitive.u32 try_cast_unsigned t n r rest
        (rw i (try_cast_unsigned-lt n (omega arith))) h e
  parse_into_usize-put Primitive.u64 n t r rest i h e =
      cast_tag Primitive.u64 try_cast_unsigned t n r rest
        (rw i (try_cast_unsigned-lt n (omega arith))) h e
  parse_into_usize-put Primitive.i8 n t r rest i h e =
      cast_tag Primitive.i8 try_cast_signed t n r rest
        (try_cast_signed-lt (2 ^ 7) n t (omega arith) i h) h e
  parse_into_usize-put Primitive.i16 n t r rest i h e =
      cast_tag Primitive.i16 try_cast_signed t n r rest
        (try_cast_signed-lt (2 ^ 15) n t (omega arith) i h) h e
  parse_into_usize-put Primitive.i32 n t r rest i h e =
      cast_tag Primitive.i32 try_cast_signed t n r rest
        (try_cast_signed-lt (2 ^ 31) n t (omega arith) i h) h e
  parse_into_usize-put Primitive.i64 n t r rest i h e =
      cast_tag Primitive.i64 try_cast_signed t n r rest
        (try_cast_signed-lt (2 ^ 63) n t (omega arith) i h) h e
  parse_into_usize-put _ n t r rest i h e = absurd i

  select_known :
      (variants : List Schema) (n : ℕ) (s : Schema) (p : ReadResult ℕ × w.Reader)
      → p.0 ≡ ok n
      → get_elem? variants n ≡ some s
      → select variants p ≡ ok (record { schema = s; reader = p.1 })
  select_known variants n s (ok m, r) e h =
      let same : m ≡ n = cc in ap (selected m r) (ap (get_elem? variants) same ∙ h)
  select_known variants n s (err x, r) e h = cc

  select_unknown :
      (variants : List Schema) (n : ℕ) (p : ReadResult ℕ × w.Reader)
      → p.0 ≡ ok n
      → length variants ≤ n
      → select variants p ≡ err (ReadError.invalid_tag_encoding n)
  select_unknown variants n (ok m, r) e h =
      let same : m ≡ n = cc in
      ap (selected m r) (ap (get_elem? variants) same ∙ get_elem?-none variants n h)
      ∙ ap (λ k. err (ReadError.invalid_tag_encoding k)) same
  select_unknown variants n (err x, r) e h = cc

  -- The written tag of a variant selects the schema at the variant's index, and leaves the reader
  -- at the variant's first field.
  pub decode_variant-put :
      (variants : List Schema) (A : Primitive) (n : ℕ) (t : El A) (s : Schema) (r : w.Reader)
      (rest : Bytes)
      → IsTag A n t
      → InRange A t
      → get_elem? variants n ≡ some s
      → remaining r ≡ w.put A t ++ rest
      → (r' : w.Reader) × (decode_variant w
            (record { variants = variants; tag_encoding = type_of A })
            r
          ≡ ok (record { schema = s; reader = r' }))
        × (remaining r' ≡ rest)
        × (w.supports_borrow r' ≡ w.supports_borrow r)
  unfolding decode_variant
  decode_variant-put variants A n t s r rest i h known e =
      let (read, left, borrows) = parse_into_usize-put A n t r rest i h e in
      (
        (parse_into_usize w (type_of A) r).1,
        select_known variants n s (parse_into_usize w (type_of A) r) read known,
        left,
        borrows,
      )

  -- A written tag whose index is behind the last variant is an error that names the index.
  pub decode_variant_unknown :
      (variants : List Schema) (A : Primitive) (n : ℕ) (t : El A) (r : w.Reader) (rest : Bytes)
      → IsTag A n t
      → InRange A t
      → length variants ≤ n
      → remaining r ≡ w.put A t ++ rest
      → decode_variant w (record { variants = variants; tag_encoding = type_of A }) r
        ≡ err (ReadError.invalid_tag_encoding n)
  unfolding decode_variant
  decode_variant_unknown variants A n t r rest i h beyond e =
      select_unknown variants n (parse_into_usize w (type_of A) r)
        (parse_into_usize-put A n t r rest i h e).0 beyond
