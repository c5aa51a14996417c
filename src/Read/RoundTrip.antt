-- ===== src/Read/RoundTrip.antt =====
-- The reading of a `Vec<PrimitiveValue>` (wincode-dynamic/src/value.rs) through `Map`
-- (wincode-dynamic/src/wincode_extra.rs).
use wincode_dynamic.Prelude.{
  ℕ, ◌*◌, ◌≤◌, ◌<◌, ◌≡◌, refl, ap, ◌∙◌, List, [], ◌++◌, map, length, All, usize_mod, le-mul_pos,
  arith,
}
use wincode_dynamic.Wincode.{Wincode, Bytes, Primitive, El, InRange, ReadResult, ReadError, ok, err}
use wincode_dynamic.Wincode.Monad.{and_then}
use wincode_dynamic.Wincode.Laws.{WincodeLaws}
use wincode_dynamic.Wincode.Facts.{put_all, length-put_all}
use wincode_dynamic.PrimitiveTy.{type_of}
use wincode_dynamic.LenMap.{Outcome, result_of, read_len_map, read_map, read_prealloc_check}
use wincode_dynamic.LenMap.Loop.{prepend}
use wincode_dynamic.LenMap.Sequence.{read_len_map_lem, decode_elements-put_all}
use wincode_dynamic.Read.{read_vec, size_of_primitive_value}
use wincode_dynamic.Read.Uniform.{primitive_value_of}

result_of_written :
    {R B : Type 0} (p : Outcome B × R) {xs : List B}
    → p.0 ≡ Outcome.written xs
    → result_of p ≡ (ok xs, p.1)
result_of_written (Outcome.written ys, r) e = cc
result_of_written (Outcome.dropped x ys, r) e = cc

-- A length that passes its check is handed on with the reader.
checked_len :
    {R B : Type 0} (p : ReadResult ℕ × R) (check : ℕ → ReadResult (Unit {0}))
    (k : ℕ → R → ReadResult B × R) {n : ℕ}
    → p.0 ≡ ok n
    → check n ≡ ok tt
    → and_then (and_then p (λ len r. and_then (check len, r) (λ _ r'. (ok len, r')))) k ≡ k n p.1
checked_len (ok m, r) check k {n} e h = let same : m ≡ n = cc in rw (same, h)
checked_len (err x, r) check k e h = cc

refused_len :
    {R B : Type 0} (p : ReadResult ℕ × R) (check : ℕ → ReadResult (Unit {0}))
    (k : ℕ → R → ReadResult B × R) {n : ℕ} {x : ReadError}
    → p.0 ≡ ok n
    → check n ≡ err x
    → and_then (and_then p (λ len r. and_then (check len, r) (λ _ r'. (ok len, r')))) k
      ≡ (err x, p.1)
refused_len (ok m, r) check k {n} e h = let same : m ≡ n = cc in rw (same, h)
refused_len (err y, r) check k e h = cc

read_vec-type_of :
    (w : Wincode) (A : Primitive) (r : w.Reader)
    → read_vec w (type_of A) r ≡ read_map w A size_of_primitive_value (primitive_value_of A) r
unfolding read_vec primitive_value_of type_of
read_vec-type_of w Primitive.u8 r = refl
read_vec-type_of w _ r = refl

module _ (w : Wincode) (laws : WincodeLaws w) (A : Primitive) where
  open laws use {remaining}

  -- A serialized `Vec` of a primitive type, whose values stay within the preallocation limit at
  -- the size of a `PrimitiveValue`, is read to the same values, each tagged with its type, and
  -- exactly its bytes are consumed.
  pub read_vec-put_all :
      (xs : List (El A)) (r : w.Reader) (rest : Bytes)
      → All (InRange A) xs
      → length xs * size_of_primitive_value ≤ w.prealloc_limit
      → remaining r ≡ w.put_len (length xs) ++ (put_all w A xs ++ rest)
      → ((read_vec w (type_of A) r).0 ≡ ok (map (primitive_value_of A) xs))
        × (remaining (read_vec w (type_of A) r).1 ≡ rest)
  unfolding read_map read_prealloc_check
  read_vec-put_all xs r rest h fits e =
      let few : length xs < usize_mod = omega (
        arith,
        le-mul_pos (length xs) size_of_primitive_value (omega arith),
        laws.prealloc_limit_bound,
      ) in
      let (read, left, _) = laws.read_len-put_len (length xs) r (put_all w A xs ++ rest) few e in
      let r₁ = (w.read_len r).1 in
      let (elements, behind) =
        read_len_map_lem w laws A (length xs) (primitive_value_of A) r₁ (put_all w A xs) rest left
          (length-put_all w laws A xs) in
      let p = read_len_map w A (length xs) (primitive_value_of A) r₁ in
      let done =
        elements ∙ ap (prepend [] (primitive_value_of A)) (decode_elements-put_all w laws A xs h) in
      let run =
        read_vec-type_of w A r
        ∙ checked_len (w.read_len r) (w.prealloc_check size_of_primitive_value)
            (λ len r'. result_of (read_len_map w A len (primitive_value_of A) r')) read
            (laws.prealloc_check_fits size_of_primitive_value (length xs) fits)
        ∙ result_of_written p done in
      (ap (λ p. p.0) run, ap (λ p. remaining p.1) run ∙ behind)

  -- A length whose values would take more than the limit, at a size that fits a `usize`, is
  -- refused before any value is read.
  pub read_vec_limit :
      (n : ℕ) (r : w.Reader) (rest : Bytes)
      → w.prealloc_limit < n * size_of_primitive_value
      → n * size_of_primitive_value < usize_mod
      → remaining r ≡ w.put_len n ++ rest
      → ((read_vec w (type_of A) r).0
          ≡ err (ReadError.preallocation_size_limit (n * size_of_primitive_value) w.prealloc_limit))
        × (remaining (read_vec w (type_of A) r).1 ≡ rest)
  unfolding read_map read_prealloc_check
  read_vec_limit n r rest over h e =
      let few : n < usize_mod = omega (arith, le-mul_pos n size_of_primitive_value (omega arith)) in
      let (read, left, _) = laws.read_len-put_len n r rest few e in
      let run =
        read_vec-type_of w A r
        ∙ refused_len (w.read_len r) (w.prealloc_check size_of_primitive_value)
            (λ len r'. result_of (read_len_map w A len (primitive_value_of A) r')) read
            (laws.prealloc_check_exceeds size_of_primitive_value n over h) in
      (ap (λ p. p.0) run, ap (λ p. remaining p.1) run ∙ left)
