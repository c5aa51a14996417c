-- ===== src/LenMap/Sequence.antt =====
-- `LenMap` (wincode-dynamic/src/wincode_extra.rs) over the laws of `wincode`: which elements it
-- writes or drops, and where it leaves the reader.
use wincode_dynamic.Prelude.{
  ℕ, ◌*◌, ◌<◌, ◌≡◌, refl, ap, ◌∙◌, List, [], ◌∷◌, ◌++◌, length, take, drop, take-append,
  drop-append, All,
}
use wincode_dynamic.Wincode.{
  Wincode, Bytes, Primitive, El, InRange, ReadResult, ReadError, ok, err, size_of,
}
use wincode_dynamic.Wincode.Monad.{IsErr}
use wincode_dynamic.Wincode.Laws.{WincodeLaws}
use wincode_dynamic.Wincode.Facts.{decode, put_all, decode-put}
use wincode_dynamic.LenMap.{Outcome, fill, fill_trusted, read_len_map}
use wincode_dynamic.LenMap.Loop.{prepend, decode_elements, fill_lem}

fill_trusted_ok {ℓ} :
    (w : Wincode) (A : Primitive) {B : Type ℓ} (f : El A → B) (len : ℕ)
    (p : ReadResult w.Trusted × w.Reader) {t : w.Trusted}
    → p.0 ≡ ok t
    → fill_trusted w A f len p ≡ ((fill (w.get_trusted A) f len [] t).0, p.1)
fill_trusted_ok w A f len (ok t', r) e = cc
fill_trusted_ok w A f len (err x, r) e = cc

fill_trusted_err {ℓ} :
    (w : Wincode) (A : Primitive) {B : Type ℓ} (f : El A → B) (len : ℕ)
    (p : ReadResult w.Trusted × w.Reader)
    → IsErr p.0
    → (x : ReadError) × ((fill_trusted w A f len p).0 ≡ Outcome.dropped x [])
fill_trusted_err w A f len (ok t, r) e = absurd e
fill_trusted_err w A f len (err x, r) e = (x, refl)

-- Encodings that were written side by side are decoded to the values.
pub decode_elements-put_all :
    (w : Wincode) (laws : WincodeLaws w) (A : Primitive) (xs : List (El A))
    → All (InRange A) xs
    → decode_elements w A (length xs) (put_all w A xs) ≡ Outcome.written xs
unfolding decode_elements put_all
decode_elements-put_all w laws A [] h = refl
decode_elements-put_all w laws A (a ∷ xs) (ha, hxs) =
    let bytes = w.put A a in
    let rest = put_all w A xs in
    let head : take (size_of A) (bytes ++ rest) ≡ bytes =
      rw (← laws.length-put A a) (take-append bytes rest) in
    let tail : drop (size_of A) (bytes ++ rest) ≡ rest =
      rw (← laws.length-put A a) (drop-append bytes rest) in
    rw (head, tail, decode-put w laws A a ha, decode_elements-put_all w laws A xs hxs)

module _ (w : Wincode) (laws : WincodeLaws w) (A : Primitive) where
  open laws use {remaining}

  read_len_map_static {ℓ} :
      {B : Type ℓ} (len : ℕ) (f : El A → B) (r : w.Reader)
      → read_len_map w A len f r ≡ fill_trusted w A f len (w.as_trusted_for_seq len (size_of A) r)
  unfolding read_len_map
  read_len_map_static len f r = rw (laws.type_meta_size A, read_len_map)

  local :
      (t : w.Trusted) (xs rest : Bytes)
      → laws.remaining_trusted t ≡ xs ++ rest
      → length xs ≡ size_of A
      → (w.get_trusted A t).0 ≡ decode w A xs
  unfolding decode
  local t xs rest e h = laws.get_trusted_local A t xs rest e h

  -- On an input that holds the sequence, `LenMap` maps its elements in order, up to the first that
  -- is malformed, drops those before an error, and leaves the reader behind the whole sequence.
  pub read_len_map_lem {ℓ} :
      {B : Type ℓ} (len : ℕ) (f : El A → B) (r : w.Reader) (xs rest : Bytes)
      → remaining r ≡ xs ++ rest
      → length xs ≡ len * size_of A
      → ((read_len_map w A len f r).0 ≡ prepend [] f (decode_elements w A len xs))
        × (remaining (read_len_map w A len f r).1 ≡ rest)
  read_len_map_lem len f r xs rest e h =
      let (t, trusted, covers, left) =
        laws.as_trusted_for_seq_covers len (size_of A) r xs rest e h in
      let run = read_len_map_static len f r ∙ fill_trusted_ok w A f len _ trusted in
      let elements =
        fill_lem w A laws.remaining_trusted (w.get_trusted A) local (laws.get_trusted_advance A) f
          len [] t (rw covers h) in
      (ap (λ p. p.0) run ∙ elements ∙ rw covers, ap (λ p. remaining p.1) run ∙ left)

  -- On an input that is too short for the sequence, an error is returned and no element is read.
  pub read_len_map_short {ℓ} :
      {B : Type ℓ} (len : ℕ) (f : El A → B) (r : w.Reader)
      → length (remaining r) < len * size_of A
      → (x : ReadError) × ((read_len_map w A len f r).0 ≡ Outcome.dropped x [])
  read_len_map_short len f r h =
      rw (read_len_map_static len f r)
        (fill_trusted_err w A f len _ (laws.as_trusted_for_seq_short len (size_of A) r h))
