-- ===== src/Messages/Lists.antt =====
-- The comparisons of the property tests of wincode-dynamic/src/lib.rs hold of a list and itself, and of
-- a lazy vector and the elements that were serialized into it.
use wincode_dynamic.Prelude.{
  suc, ◌*◌, ◌≤◌, ◌<◌, ◌≡◌, refl, sym, ap, ◌∙◌, Bool, true, false, List, [], ◌∷◌, length, All, ℕ,
  ◌==◌, ◌&&◌, usize_mod, arith, map, append-nil, ==_iff,
}
use wincode_dynamic.Wincode.{Wincode, Bytes, Cow, Primitive, El, InRange, as_ref, size_of, ok}
use wincode_dynamic.Wincode.Laws.{WincodeLaws, cow}
use wincode_dynamic.Wincode.Facts.{put_all, length-put_all}
use wincode_dynamic.PrimitiveTy.{type_of, builtin}
use wincode_dynamic.Value.Eq.{Floats, element_eq, list_eq, cow_eq, bool_eq}
use wincode_dynamic.Value.Contents.{cow_eq_iff, bool_eq_iff}
use wincode_dynamic.Lazy.{new_unchecked, vec_len}
use wincode_dynamic.Lazy.Collect.{collect, collect-put_all}
use wincode_dynamic.Lazy.Owned.{try_into_iter_as-ok, collect_owned-collect}
use wincode_dynamic.Schema.{RootSchema}
use wincode_dynamic.Fields.Drain.{finished}
use wincode_dynamic.Fields.RoundTrip.{row_field, IsWritableRow}
use wincode_dynamic.Decoder.RoundTrip.{Value, rows_of, encode, Describes, decode-encode}
use wincode_dynamic.Messages.{iterates_to, collect_fields, collect_given}

-- `x == x`, which does not hold of every float.
abbrev pub EqualsItself : Floats → (A : Primitive) → El A → Type 0
EqualsItself floats A x = element_eq floats A x x ≡ true

pub list_eq_refl :
    {A : Type 0} (eq : A → A → Bool) (xs : List A)
    → All (λ x. eq x x ≡ true) xs
    → list_eq eq xs xs ≡ true
unfolding list_eq
list_eq_refl eq [] h = refl
list_eq_refl eq (x ∷ xs) (h, k) = rw (h, list_eq_refl eq xs k) refl

as_ref-cow : (b : Bool) (xs : _) → as_ref (cow b xs) ≡ xs
as_ref-cow true xs = refl
as_ref-cow false xs = refl

-- The lazy vector over the encoding of some elements iterates to them.
pub iterates_to-put_all :
    (floats : Floats) (w : Wincode) (laws : WincodeLaws w) (A : Primitive) (xs : List (El A))
    (b : Bool)
    → All (InRange A) xs
    → length xs * size_of A ≤ w.prealloc_limit
    → All (EqualsItself floats A) xs
    → iterates_to floats w A xs (new_unchecked (type_of A) (length xs) (cow b (put_all w A xs)))
      ≡ true
unfolding iterates_to new_unchecked vec_len
iterates_to-put_all floats w laws A xs b range fits equal =
    let payload = cow b (put_all w A xs) in
    let v = new_unchecked (type_of A) (length xs) payload in
    let written : as_ref payload ≡ put_all w A xs = as_ref-cow b (put_all w A xs) in
    let memory : length (as_ref payload) < usize_mod =
      rw written (omega (arith, length-put_all w laws A xs, laws.prealloc_limit_bound)) in
    let (it, made, run) = collect-put_all w laws A xs payload written range memory in
    let (owning, given, same) = try_into_iter_as-ok (builtin A) v it made in
    let drained =
      collect_owned-collect w A (suc (length xs)) owning
      ∙ ap (collect w A (suc (length xs))) same
      ∙ run in
    rw (given, drained) (list_eq_refl (element_eq floats A) xs equal)

-- Tests of one thing after another.
pub both : {a b : Bool} → a ≡ true → b ≡ true → (a && b) ≡ true
both h k = rw (h, k) refl

pub ==_refl : (n : ℕ) → (n == n) ≡ true
==_refl n = (==_iff n n).1 refl

bytes_refl : (xs : List ℕ) → All (λ n. (n == n) ≡ true) xs
bytes_refl [] = tt
bytes_refl (x ∷ xs) = (==_refl x, bytes_refl xs)

pub cow_eq_refl : (a b : Cow Bytes) → as_ref a ≡ as_ref b → cow_eq a b ≡ true
cow_eq_refl a b h = (cow_eq_iff a b).1 h

pub bool_eq_refl : (b : Bool) → bool_eq b b ≡ true
bool_eq_refl b = (bool_eq_iff b b).1 refl

-- A number is equal to itself.
pub numbers_equal : (floats : Floats) (xs : List ℕ) → All (EqualsItself floats Primitive.u64) xs
unfolding element_eq
numbers_equal floats xs = bytes_refl xs

-- A schema that describes a value, on the bytes of the value alone.
pub collect_fields-encode :
    (w : Wincode) (laws : WincodeLaws w) (root : RootSchema) (v : Value)
    → Describes root v
    → All (IsWritableRow w laws) (rows_of v)
    → collect_fields w (suc (length (rows_of v))) root (encode w v)
      ≡ finished (ok (map (row_field w true) (rows_of v)))
unfolding collect_fields
collect_fields-encode w laws root v described h =
    let r = w.from_slice (encode w v) in
    let held = laws.remaining-from_slice (encode w v) ∙ sym (append-nil (encode w v)) in
    let (it, _, given, run, _, _) = decode-encode w laws root v r [] described h held in
    ap (collect_given w (suc (length (rows_of v)))) given
    ∙ ap (λ p. p.0) run
    ∙ ap (λ b. finished (ok (map (row_field w b) (rows_of v))))
        (laws.from_slice_borrows (encode w v))
