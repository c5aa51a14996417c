-- ===== src/LenMap/Pure.antt =====
-- wincode-dynamic/src/wincode_extra.rs: the operation on memory under a mapping function with no
-- state and no panic, against the operation on lists.
use wincode_dynamic.Prelude.{
  ℕ, zero, suc, ◌*◌, ◌≤◌, le→leb, ◌≡◌, refl, ap, ◌∙◌, List, [], ◌∷◌, ◌++◌, some, inl, inr,
}
use wincode_dynamic.Wincode.{Wincode, Primitive, El, Read, ReadResult, ok, err}
use wincode_dynamic.LenMap.{Outcome, round, fill, fill_trusted, read_len_map}
use wincode_dynamic.LenMap.Raw.{Mapper, isize_max, read_with_context}
use wincode_dynamic.LenMap.Unwind.{
  Finished, in_memory, list_get, list_fill, list_fill_trusted, list_read_into, list_read, laid_out,
  type_meta_cases, read_with_context_lem,
}

-- The outcome of the loop with a mapping function that has no state and does not panic.
abbrev pub outcome_of {ℓ} : {B : Type ℓ} → Outcome B → Finished B
outcome_of (Outcome.written bs) = Finished.written bs
outcome_of (Outcome.dropped e bs) = Finished.failed e bs

abbrev pub pure {ℓ} : {S A : Type 0} {B : Type ℓ} → (A → B) → Mapper S A B
pure g a s = (some (g a), s)

module _ {ℓ} {S R A : Type 0} {B : Type ℓ} where
  list_get-round :
      (bs : List B) (p : ReadResult A × R) (s : S) (list : A → R → Finished B × S × R)
      (rest : A → R → Outcome B × R)
      → ((a : A) (r : R) → list a r ≡ (outcome_of (rest a r).0, s, (rest a r).1))
      → list_get bs p s list ≡ (outcome_of (round bs p rest).0, s, (round bs p rest).1)
  list_get-round bs (ok a, r) s list rest h = h a r
  list_get-round bs (err e, r) s list rest h = refl

  list_fill-pure :
      (get : Read R A) (g : A → B) (n : ℕ) (bs : List B) (s : S) (r : R)
      → list_fill get (pure g) n bs s r
        ≡ (outcome_of (fill get g n bs r).0, s, (fill get g n bs r).1)
  unfolding list_fill fill
  list_fill-pure get g zero bs s r = refl
  list_fill-pure get g (suc n) bs s r =
      list_get-round bs (get r) s _ _ (λ a r'. list_fill-pure get g n (bs ++ (g a ∷ [])) s r')

module _ {ℓ} {S : Type 0} (w : Wincode) (A : Primitive) {B : Type ℓ} (len : ℕ) where
  list_fill_trusted-pure :
      (g : El A → B) (s : S) (p : ReadResult w.Trusted × w.Reader)
      → list_fill_trusted w A (pure g) len s p
        ≡ (outcome_of (fill_trusted w A g len p).0, s, (fill_trusted w A g len p).1)
  list_fill_trusted-pure g s (ok t, r) =
      ap (λ q. (q.0, q.1, r)) (list_fill-pure (w.get_trusted A) g len [] s t)
  list_fill_trusted-pure g s (err e, r) = refl

  list_read_into-pure :
      (g : El A → B) (s : S) (r : w.Reader)
      → list_read_into w A len (pure g) s r
        ≡ (outcome_of (read_len_map w A len g r).0, s, (read_len_map w A len g r).1)
  unfolding list_read_into read_len_map
  list_read_into-pure g s r = elim (type_meta_cases (w.type_meta A)) [
    | inl (size, e) ↦
        rw (e, list_read_into, read_len_map)
          (list_fill_trusted-pure g s (w.as_trusted_for_seq len size r))
    | inr e ↦ rw (e, list_read_into, read_len_map) (list_fill-pure (w.get A) g len [] s r)
  ]

  -- With a mapping function that is a plain function, as all those of the program are, and for
  -- elements that fit into an allocation, the operation on memory has the outcome, and leaves the
  -- reader, of the operation on lists.
  pub read_with_context-pure :
      (width : ℕ) (g : El A → B) (s : S) (r : w.Reader)
      → len * width ≤ isize_max
      → read_with_context w A width len (pure g) s r
        ≡ (in_memory (outcome_of (read_len_map w A len g r).0), s, (read_len_map w A len g r).1)
  unfolding list_read
  read_with_context-pure width g s r fits =
      read_with_context_lem w A len width (pure g) s r
      ∙ rw (le→leb (len * width) isize_max fits) (ap laid_out (list_read_into-pure g s r))
