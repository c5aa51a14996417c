-- ===== src/LenMap.antt =====
-- wincode-dynamic/src/wincode_extra.rs: the adapters `LenMap` and `Map`, which read a sequence of
-- `A` values and write each, mapped by `f`, into a vector.
pub mod Loop
pub mod Sequence
pub mod Raw
pub mod Unwind
pub mod Pure
use wincode_dynamic.Prelude.{ℕ, zero, suc, List, [], ◌∷◌, ◌++◌}
use wincode_dynamic.Wincode.{Wincode, Primitive, El, Read, ReadResult, ReadError, ok, err, TypeMeta}
use wincode_dynamic.Wincode.Monad.{and_then}

-- What becomes of the vector under construction: it is written to `dst`, or an error is returned
-- and the elements below its length are dropped.
pub data Outcome {ℓ} (B : Type ℓ) : Type ℓ where
  written : List B → Outcome B
  dropped : ReadError → List B → Outcome B

-- `get_with_context`: what `read_with_context` wrote, or its error.
abbrev pub result_of {ℓ} : {R : Type 0} {B : Type ℓ} → Outcome B × R → ReadResult (List B) × R
result_of (Outcome.written vec, r) = (ok vec, r)
result_of (Outcome.dropped e _, r) = (err e, r)

-- One round: `A::get(reader.by_ref())?`, and the rest of the loop on the value.
abbrev pub round {ℓ} :
    {R A : Type 0} {B : Type ℓ}
    → List B
    → ReadResult A × R
    → (A → R → Outcome B × R)
    → Outcome B × R
round vec (ok a, r) rest = rest a r
round vec (err e, r) rest = (Outcome.dropped e vec, r)

-- `for i in 0..len { … ptr.add(i).write(mapped); vec.set_len(i + 1) }`, on the rounds left and the
-- initialized elements.
unfoldable pub fill {ℓ} :
    {R A : Type 0} {B : Type ℓ} → Read R A → (A → B) → ℕ → List B → R → Outcome B × R
fill get f zero vec r = (Outcome.written vec, r)
fill get f (suc n) vec r = round vec (get r) (λ a r'. fill get f n (vec ++ (f a ∷ [])) r')

-- The reading of the elements through a trusted reader; the parent is left as
-- `as_trusted_for_seq` left it.
abbrev pub fill_trusted {ℓ} :
    (w : Wincode) (A : Primitive) {B : Type ℓ}
    → (El A → B)
    → ℕ
    → ReadResult w.Trusted × w.Reader
    → Outcome B × w.Reader
fill_trusted w A f len (ok t, r) = ((fill (w.get_trusted A) f len [] t).0, r)
fill_trusted w A f len (err e, r) = (Outcome.dropped e [], r)

-- `<Vec<B> as SchemaReadContext<DefaultConfig, LenMap<A, F>>>::read_with_context`
unfoldable pub read_len_map {ℓ} :
    (w : Wincode) (A : Primitive) {B : Type ℓ} → ℕ → (El A → B) → w.Reader → Outcome B × w.Reader
read_len_map w A len f r = elim (w.type_meta A) [
  | TypeMeta.static size ↦ fill_trusted w A f len (w.as_trusted_for_seq len size r)
  | TypeMeta.dynamic ↦ fill (w.get A) f len [] r
]

-- `read_prealloc_check::<B>`: the length, checked against the limit at the size of `B`.
unfoldable pub read_prealloc_check : (w : Wincode) → ℕ → Read w.Reader ℕ
read_prealloc_check w size r =
    and_then (w.read_len r)
      (λ len r'. and_then (w.prealloc_check size len, r') (λ _ r''. (ok len, r'')))

-- `<Vec<B> as SchemaReadContext<DefaultConfig, Map<A, F>>>::read_with_context`, at the size of `B`.
unfoldable pub read_map {ℓ} :
    (w : Wincode) (A : Primitive) {B : Type ℓ}
    → ℕ
    → (El A → B)
    → w.Reader
    → ReadResult (List B) × w.Reader
unfolding read_prealloc_check read_len_map
read_map w A size f r =
    and_then (read_prealloc_check w size r) (λ len r'. result_of (read_len_map w A len f r'))
