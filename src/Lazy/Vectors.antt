-- ===== src/Lazy/Vectors.antt =====
-- A serialized vector, from its bytes to its elements: `Ty::parse` (wincode-dynamic/src/ty.rs), then
-- the lazy and the eager decoding of the `LazyVec` that it makes (wincode-dynamic/src/value.rs).
use wincode_dynamic.Prelude.{
  ℕ, suc, ◌*◌, ◌≤◌, ◌≡◌, ◌≢◌, ◌==◌, refl, sym, ap, ◌∙◌, Bool, true, false, List, ◌++◌, map, length,
  All, arith,
}
use wincode_dynamic.Wincode.{
  Wincode, Bytes, Primitive, El, InRange, ReadResult, ok, as_ref, size_of,
}
use wincode_dynamic.Wincode.Monad.{map_result}
use wincode_dynamic.Wincode.Laws.{WincodeLaws, cow}
use wincode_dynamic.Wincode.Facts.{put_all}
use wincode_dynamic.PrimitiveTy.{type_of, builtin}
use wincode_dynamic.Ty.{FieldType, type_of as ty_of}
use wincode_dynamic.Value.{Value, LazyVec}
use wincode_dynamic.Read.{size_of_primitive_value}
use wincode_dynamic.Read.Uniform.{primitive_value_of}
use wincode_dynamic.Lazy.{
  Iter, try_iter_as, into_dyn_vec, new_unchecked, vec_len, vec_ty, is_empty, has_borrowed_payload,
}
use wincode_dynamic.Lazy.Safety.{IsSound, is_empty_lem}
use wincode_dynamic.Lazy.Collect.{collect, finished, collect-put_all, collect-into_dyn_vec}
use wincode_dynamic.Parse.{parse}
use wincode_dynamic.Parse.RoundTrip.{serialize, decoded, sequence_value, parse-serialize}
use wincode_dynamic.Parse.Size.{parse-IsSound}

sequence_value-vec :
    (w : Wincode) (borrows : Bool) (A : Primitive) (xs : List (El A))
    → A ≢ Primitive.u8
    → sequence_value w borrows A xs
      ≡ Value.vec (new_unchecked (type_of A) (length xs) (cow borrows (put_all w A xs)))
unfolding sequence_value
sequence_value-vec w borrows Primitive.u8 xs h = absurd (h refl)
sequence_value-vec w borrows A xs h = refl

as_ref-cow : (borrows : Bool) (xs : Bytes) → as_ref (cow borrows xs) ≡ xs
as_ref-cow true xs = refl
as_ref-cow false xs = refl

has_borrowed_payload-cow :
    (ty : _) (n : ℕ) (borrows : Bool) (xs : Bytes)
    → has_borrowed_payload (new_unchecked ty n (cow borrows xs)) ≡ borrows
unfolding has_borrowed_payload new_unchecked
has_borrowed_payload-cow ty n true xs = refl
has_borrowed_payload-cow ty n false xs = refl

encoded_fits :
    (A : Primitive) (n limit : ℕ) → n * size_of_primitive_value ≤ limit → n * size_of A ≤ limit
unfolding size_of
encoded_fits Primitive.u8 n limit h = omega arith
encoded_fits _ n limit h = omega arith

ok_injective {ℓ} : {A : Type ℓ} {a b : A} → ok a ≡ ok b → a ≡ b
ok_injective e = cc

finished_injective {ℓ} : {A : Type ℓ} {a b : ReadResult A} → finished a ≡ finished b → a ≡ b
finished_injective e = cc

module _ (w : Wincode) (laws : WincodeLaws w) (As : Primitive) where
  open laws use {remaining}

  -- A serialized vector of elements other than bytes, within the preallocation limit of eager
  -- decoding, is parsed to a lazy vector with its length, its element type and no element exactly
  -- where it has none, borrowed exactly where the reader lends its bytes; the iterator of the element
  -- type yields the elements, and eager decoding gives them, each tagged with its type.
  pub parse-collect :
      (xs : List (El As)) (r : w.Reader) (rest : Bytes)
      → As ≢ Primitive.u8
      → All (InRange As) xs
      → length xs * size_of_primitive_value ≤ w.prealloc_limit
      → remaining r ≡ serialize w (FieldType.vec As) xs ++ rest
      → (v : LazyVec) × ((parse w (ty_of (FieldType.vec As)) r).0 ≡ ok (Value.vec v))
        × (vec_len v ≡ length xs)
        × (vec_ty v ≡ type_of As)
        × (is_empty v ≡ (length xs == 0))
        × (has_borrowed_payload v ≡ w.supports_borrow r)
        × ((it : Iter (builtin As)) × (try_iter_as (builtin As) v ≡ ok it)
            × (collect w As (suc (length xs)) it ≡ finished (ok xs)))
        × (into_dyn_vec w v ≡ ok (map (primitive_value_of As) xs))
  unfolding vec_len vec_ty new_unchecked decoded
  parse-collect xs r rest other range fits e =
      let payload = cow (w.supports_borrow r) (put_all w As xs) in
      let v : LazyVec = new_unchecked (type_of As) (length xs) payload in
      let small : length xs * size_of As ≤ w.prealloc_limit =
        encoded_fits As (length xs) w.prealloc_limit fits in
      let read : (parse w (ty_of (FieldType.vec As)) r).0 ≡ ok (Value.vec v) =
        (parse-serialize w laws (FieldType.vec As) xs r rest (range, small) e).0
        ∙ ap ok (sequence_value-vec w (w.supports_borrow r) As xs other) in
      let sound : IsSound v = parse-IsSound w laws (ty_of (FieldType.vec As)) r v read in
      let bytes : as_ref payload ≡ put_all w As xs =
        as_ref-cow (w.supports_borrow r) (put_all w As xs) in
      let (it, made, drained) = collect-put_all w laws As xs payload bytes range sound.in_memory in
      let (it', m, made', drained', eager) =
        collect-into_dyn_vec w laws As (length xs) payload sound fits in
      let same_it : it' ≡ it = ok_injective (sym made' ∙ made) in
      let same : m ≡ ok xs =
        finished_injective (sym drained' ∙ ap (collect w As (suc (length xs))) same_it ∙ drained) in
      (
        v,
        read,
        refl,
        refl,
        is_empty_lem v sound,
        has_borrowed_payload-cow (type_of As) (length xs) (w.supports_borrow r) (put_all w As xs),
        (it, made, drained),
        eager ∙ ap (map_result (map (primitive_value_of As))) same,
      )
