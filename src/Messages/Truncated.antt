-- ===== src/Messages/Truncated.antt =====
-- `arbitrary_truncated_struct_is_rejected` of wincode-dynamic/src/lib.rs, on every message and cut.
use wincode_dynamic.Prelude.{
  ℕ, zero, suc, ◌<◌, ◌%◌, ◌≡◌, refl, sym, ap, subst, true, none, [], ◌∷◌, take, length,
  length-append, IsStrictPrefix, inl, inr, arith,
}
use wincode_dynamic.Wincode.{Wincode, Bytes, Primitive, TypeMeta, size_of}
use wincode_dynamic.Wincode.Laws.{WincodeLaws}
use wincode_dynamic.Fields.RoundTrip.{encode_rows}
use wincode_dynamic.Parse.RoundTrip.{serialize}
use wincode_dynamic.Decoder.RoundTrip.{encode}
use wincode_dynamic.Decoder.Cut.{refuse-encode_cut}
use wincode_dynamic.Derive.{root_schema}
use wincode_dynamic.Derive.Reflect.{to_value, rows, schema-Describes}
use wincode_dynamic.Messages.{StructMessage, struct_value, arbitrary_truncated_struct_is_rejected}
use wincode_dynamic.Messages.Structs.{IsStructMessage}
use wincode_dynamic.Tests.Fixtures

take-IsStrictPrefix : (n : ℕ) (xs : Bytes) → n < length xs → IsStrictPrefix (take n xs) xs
take-IsStrictPrefix zero [] h = absurd (omega (arith, h))
take-IsStrictPrefix (suc n) [] h = absurd (omega (arith, h))
take-IsStrictPrefix zero (x ∷ xs) h = (x, xs, refl)
take-IsStrictPrefix (suc n) (x ∷ xs) h =
    let (b, missing, e) = take-IsStrictPrefix n xs (omega (arith, h)) in
    (b, missing, ap (λ ys. x ∷ ys) e)

-- A serialized message has at least the bytes of its first field.
encode_nonempty :
    (w : Wincode) (laws : WincodeLaws w) (m : StructMessage)
    → 0 < length (encode w (to_value none (struct_value m)))
unfolding encode to_value rows encode_rows serialize size_of
encode_nonempty w laws m =
    omega (arith, length-append (w.put Primitive.u64 m.a) _, laws.length-put Primitive.u64 m.a)

-- Of every message, of Rust's types and with texts and sequences within the preallocation limit,
-- the serialization cut off at any byte is an error, when the fields are selected or when they are
-- collected.
pub arbitrary_truncated_struct_is_rejected_lem :
    (w : Wincode) (laws : WincodeLaws w) (m : StructMessage) (cut_seed : ℕ)
    → IsStructMessage w laws m
    → arbitrary_truncated_struct_is_rejected w m cut_seed ≡ true
unfolding arbitrary_truncated_struct_is_rejected root_schema to_value
arbitrary_truncated_struct_is_rejected_lem w laws m cut_seed h =
    let v = to_value none (struct_value m) in
    let full = encode w v in
    let some_bytes = encode_nonempty w laws m in
    let kept : cut_seed % length full < length full = omega (arith, some_bytes) in
    let short = take (cut_seed % length full) full in
    let cut =
      subst (λ xs. IsStrictPrefix xs full) (sym (laws.remaining-from_slice short))
        (take-IsStrictPrefix (cut_seed % length full) full kept) in
    elim (refuse-encode_cut w laws (root_schema Fixtures.struct_message) v (w.from_slice short)
      (schema-Describes "StructMessage" TypeMeta.dynamic none (struct_value m)) h cut) [
        | inl (x, refused) ↦ rw refused refl
        | inr (it, x, given, failed) ↦ rw (given, failed) refl
      ]
