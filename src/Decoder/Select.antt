-- ===== src/Decoder/Select.antt =====
-- Which variant `EnumDecoder::decode_variant` (wincode-dynamic/src/lib.rs) can select, on any input.
use wincode_dynamic.Prelude.{
  ℕ, ◌≡◌, refl, ap, ℤ, pos, negsuc, List, some, none, Option, get_elem?, usize_mod, ltb, Bool-cases,
  inl, inr,
}
use wincode_dynamic.Wincode.{Wincode, Primitive, El, ReadResult, ok, err}
use wincode_dynamic.Wincode.Monad.{check_read}
use wincode_dynamic.PrimitiveTy.{type_of}
use wincode_dynamic.Read.{read_usize, try_cast_unsigned, try_cast_signed}
use wincode_dynamic.Parse.{parse_into_usize}
use wincode_dynamic.Schema.{Schema}
use wincode_dynamic.Decoder.{VariantDecoder, selected, select, decode_variant}
use wincode_dynamic.Decoder.Tag.{IsTag}

check_read-eq_ok :
    {R A B : Type 0} (f : A → ReadResult B) (p : ReadResult A × R) {b : B}
    → (check_read f p).0 ≡ ok b
    → (a : A) × (p.0 ≡ ok a) × (f a ≡ ok b)
check_read-eq_ok f (ok a, r) e = (a, refl, e)
check_read-eq_ok f (err x, r) e = cc

try_cast_unsigned-eq_ok : (t n : ℕ) → try_cast_unsigned t ≡ ok n → t ≡ n
unfolding try_cast_unsigned
try_cast_unsigned-eq_ok t n e = elim (Bool-cases (ltb t usize_mod)) [
  | inl h ↦ let run = rw h at e in cc run
  | inr h ↦ let run = rw h at e in cc run
]

try_cast_signed-eq_ok : (t : ℤ) (n : ℕ) → try_cast_signed t ≡ ok n → t ≡ pos n
unfolding try_cast_signed
try_cast_signed-eq_ok (pos m) n e = ap pos (try_cast_unsigned-eq_ok m n e)
try_cast_signed-eq_ok (negsuc m) n e = cc

module _ (w : Wincode) where
  check_read-IsTag :
      (A : Primitive) (cast : El A → ReadResult ℕ) (n : ℕ) (r : w.Reader)
      → ((t : El A) → cast t ≡ ok n → IsTag A n t)
      → (check_read cast (w.get A r)).0 ≡ ok n
      → (t : El A) × ((w.get A r).0 ≡ ok t) × IsTag A n t
  check_read-IsTag A cast n r h e =
      let (t, read, same) = check_read-eq_ok cast (w.get A r) e in (t, read, h t same)

  -- An index that is parsed is the one that the tag in the input stands for; floats, Booleans and
  -- negative numbers give none.
  pub parse_into_usize-IsTag :
      (A : Primitive) (n : ℕ) (r : w.Reader)
      → (parse_into_usize w (type_of A) r).0 ≡ ok n
      → (t : El A) × ((w.get A r).0 ≡ ok t) × IsTag A n t
  unfolding parse_into_usize read_usize type_of
  parse_into_usize-IsTag Primitive.u8 n r e = (n, e, refl)
  parse_into_usize-IsTag Primitive.u16 n r e = (n, e, refl)
  parse_into_usize-IsTag Primitive.u32 n r e =
      check_read-IsTag Primitive.u32 try_cast_unsigned n r (λ t. try_cast_unsigned-eq_ok t n) e
  parse_into_usize-IsTag Primitive.u64 n r e =
      check_read-IsTag Primitive.u64 try_cast_unsigned n r (λ t. try_cast_unsigned-eq_ok t n) e
  parse_into_usize-IsTag Primitive.i8 n r e =
      check_read-IsTag Primitive.i8 try_cast_signed n r (λ t. try_cast_signed-eq_ok t n) e
  parse_into_usize-IsTag Primitive.i16 n r e =
      check_read-IsTag Primitive.i16 try_cast_signed n r (λ t. try_cast_signed-eq_ok t n) e
  parse_into_usize-IsTag Primitive.i32 n r e =
      check_read-IsTag Primitive.i32 try_cast_signed n r (λ t. try_cast_signed-eq_ok t n) e
  parse_into_usize-IsTag Primitive.i64 n r e =
      check_read-IsTag Primitive.i64 try_cast_signed n r (λ t. try_cast_signed-eq_ok t n) e
  parse_into_usize-IsTag Primitive.f32 n r e = cc
  parse_into_usize-IsTag Primitive.f64 n r e = cc
  parse_into_usize-IsTag Primitive.bool n r e = cc

  selected-eq_ok :
      (n : ℕ) (r : w.Reader) (o : Option Schema) (v : VariantDecoder w.Reader)
      → selected n r o ≡ ok v
      → o ≡ some v.schema
  selected-eq_ok n r none v e = cc
  selected-eq_ok n r (some s) v e = cc

  select-eq_ok :
      (variants : List Schema) (p : ReadResult ℕ × w.Reader) (v : VariantDecoder w.Reader)
      → select variants p ≡ ok v
      → (n : ℕ) × (p.0 ≡ ok n) × (get_elem? variants n ≡ some v.schema)
  select-eq_ok variants (ok n, r) v e = (n, refl, selected-eq_ok n r (get_elem? variants n) v e)
  select-eq_ok variants (err x, r) v e = cc

  -- A variant that is selected, on any input, is the one whose index the tag in the input stands
  -- for, under a tag type that encodes indices.
  pub decode_variant-IsTag :
      (variants : List Schema) (A : Primitive) (r : w.Reader) (v : VariantDecoder w.Reader)
      → decode_variant w (record { variants = variants; tag_encoding = type_of A }) r ≡ ok v
      → (n : ℕ) × (t : El A) × ((w.get A r).0 ≡ ok t)
        × IsTag A n t
        × (get_elem? variants n ≡ some v.schema)
  unfolding decode_variant
  decode_variant-IsTag variants A r v e =
      let (n, parsed, known) = select-eq_ok variants (parse_into_usize w (type_of A) r) v e in
      let (t, read, is_tag) = parse_into_usize-IsTag A n r parsed in (n, t, read, is_tag, known)
