-- ===== src/LenMap/Loop.antt =====
-- The loop of wincode-dynamic/src/wincode_extra.rs against the elements of the payload.
use wincode_dynamic.Prelude.{
  ℕ, zero, suc, ◌*◌, ◌≡◌, sym, ap, ◌∙◌, inl, inr, List, [], ◌∷◌, ◌++◌, map, append-nil,
  append_assoc, length, take, drop, take-append-drop, length-take_le, length-drop, arith,
}
use wincode_dynamic.Wincode.{
  Wincode, Bytes, Primitive, El, Read, ReadResult, ReadError, ok, err, size_of,
}
use wincode_dynamic.Wincode.Monad.{result_cases}
use wincode_dynamic.Wincode.Facts.{decode}
use wincode_dynamic.LenMap.{Outcome, round, fill}

-- The first element in front of the others, also of those that are dropped.
abbrev pub cons_outcome {ℓ} : {B : Type ℓ} → B → Outcome B → Outcome B
cons_outcome b (Outcome.written bs) = Outcome.written (b ∷ bs)
cons_outcome b (Outcome.dropped e bs) = Outcome.dropped e (b ∷ bs)

abbrev pub first_element {ℓ} : {B : Type ℓ} → ReadResult B → Outcome B → Outcome B
first_element (ok b) rest = cons_outcome b rest
first_element (err e) rest = Outcome.dropped e []

-- The reference: `n` elements of one width side by side, each decoded from its own bytes, up to
-- the first that is malformed.
unfoldable pub decode_elements : (w : Wincode) (A : Primitive) → ℕ → Bytes → Outcome (El A)
decode_elements w A zero xs = Outcome.written []
decode_elements w A (suc n) xs =
    first_element (decode w A (take (size_of A) xs)) (decode_elements w A n (drop (size_of A) xs))

-- The vector of a loop that began with `vec`.
abbrev pub prepend {ℓ κ} : {A : Type ℓ} {B : Type κ} → List B → (A → B) → Outcome A → Outcome B
prepend vec f (Outcome.written xs) = Outcome.written (vec ++ map f xs)
prepend vec f (Outcome.dropped e xs) = Outcome.dropped e (vec ++ map f xs)

prepend-cons_outcome {ℓ κ} :
    {A : Type ℓ} {B : Type κ} (vec : List B) (f : A → B) (a : A) (o : Outcome A)
    → prepend (vec ++ (f a ∷ [])) f o ≡ prepend vec f (cons_outcome a o)
prepend-cons_outcome vec f a (Outcome.written xs) =
    ap Outcome.written (append_assoc vec (f a ∷ []) (map f xs))
prepend-cons_outcome vec f a (Outcome.dropped e xs) =
    ap (Outcome.dropped e) (append_assoc vec (f a ∷ []) (map f xs))

round_ok {ℓ} :
    {R A : Type 0} {B : Type ℓ} (vec : List B) (p : ReadResult A × R) (k : A → R → Outcome B × R)
    {a : A}
    → p.0 ≡ ok a
    → round vec p k ≡ k a p.1
round_ok vec (ok a', r) k e = cc
round_ok vec (err x, r) k e = cc

round_err {ℓ} :
    {R A : Type 0} {B : Type ℓ} (vec : List B) (p : ReadResult A × R) (k : A → R → Outcome B × R)
    {x : ReadError}
    → p.0 ≡ err x
    → round vec p k ≡ (Outcome.dropped x vec, p.1)
round_err vec (ok a, r) k e = cc
round_err vec (err x', r) k e = cc

module _ (w : Wincode) (A : Primitive) {R : Type 0} (remaining : R → Bytes) (get : Read R (El A))
    (local : (r : R) (xs rest : Bytes)
      → remaining r ≡ xs ++ rest
      → length xs ≡ size_of A
      → (get r).0 ≡ decode w A xs)
    (advance : (r : R) (xs rest : Bytes) (a : El A)
      → remaining r ≡ xs ++ rest
      → length xs ≡ size_of A
      → (get r).0 ≡ ok a
      → remaining (get r).1 ≡ rest) where
  -- The loop returns the mapped elements, or drops those that it has mapped.
  pub fill_lem {ℓ} :
      {B : Type ℓ} (f : El A → B) (n : ℕ) (vec : List B) (r : R)
      → length (remaining r) ≡ n * size_of A
      → (fill get f n vec r).0 ≡ prepend vec f (decode_elements w A n (remaining r))
  unfolding fill decode_elements
  fill_lem f zero vec r h = ap Outcome.written (sym (append-nil vec))
  fill_lem f (suc n) vec r h =
      let xs = take (size_of A) (remaining r) in
      let rest = drop (size_of A) (remaining r) in
      let whole : remaining r ≡ xs ++ rest = sym (take-append-drop (size_of A) (remaining r)) in
      let width : length xs ≡ size_of A = length-take_le (size_of A) (remaining r) (omega arith) in
      elim (result_cases (decode w A xs)) [
        | inl (a, e) ↦
            let read : (get r).0 ≡ ok a = local r xs rest whole width ∙ e in
            let left : remaining (get r).1 ≡ rest = advance r xs rest a whole width read in
            ap (λ p. p.0) (round_ok vec (get r) _ read)
            ∙ fill_lem f n (vec ++ (f a ∷ [])) (get r).1
                (rw left (omega (arith, length-drop (size_of A) (remaining r))))
            ∙ prepend-cons_outcome vec f a _
            ∙ rw (left, e)
        | inr (x, e) ↦
            ap (λ p. p.0) (round_err vec (get r) _ (local r xs rest whole width ∙ e))
            ∙ rw e (ap (Outcome.dropped x) (sym (append-nil vec)))
      ]
