-- ===== src/Lazy/Steps.antt =====
-- Every way to iterate a lazy vector (wincode-dynamic/src/value.rs, module `lazy_vec`) that was
-- parsed: the states that calls of `next` reach, and what holds in each.
use wincode_dynamic.Prelude.{
  ℕ, zero, suc, ◌≡◌, refl, sym, ap, ◌∙◌, Option, none, some, inl, inr, ◌⊎◌, arith, subst,
}
use wincode_dynamic.Wincode.{Wincode, Bytes, ReadResult, ok}
use wincode_dynamic.Wincode.Monad.{result_cases}
use wincode_dynamic.Wincode.Laws.{WincodeLaws}
use wincode_dynamic.PrimitiveTy.{DynPrimitiveTy, size}
use wincode_dynamic.Ty.{Ty}
use wincode_dynamic.Value.{Value, LazyVec}
use wincode_dynamic.Lazy.{
  Iter, IntoIter, returns, validate_element_type, try_iter_as, next, next_owned, iter_len,
}
use wincode_dynamic.Lazy.Safety.{
  IterIsSound, validate_element_type_iff, try_iter_as-IsSound, next_safe, iter_len_lem,
  next_owned_lem, borrow, borrow_step, count, next_end,
}
use wincode_dynamic.Parse.{parse}
use wincode_dynamic.Parse.Size.{parse-IsSound}

-- One call of `next` that returns, with its item.
pub data Step (As : DynPrimitiveTy) (get : Bytes → ReadResult As.Item) (s t : Iter As)
    : Type 0 where
  call : (o : Option (ReadResult As.Item)) → next As get s ≡ returns (o, t) → Step As get s t

-- The iterators that calls of `next` lead to.
pub data Reaches (As : DynPrimitiveTy) (get : Bytes → ReadResult As.Item) (s : Iter As)
    : Iter As → Type 0 where
  here : Reaches As get s s
  later : {t u : Iter As} → Reaches As get s t → Step As get t u → Reaches As get s u

returns_injective {ℓ} : {A : Type ℓ} {a b : A} → returns a ≡ returns b → a ≡ b
returns_injective e = cc

accepted :
    (As : DynPrimitiveTy) (v : LazyVec) (it : Iter As)
    → try_iter_as As v ≡ ok it
    → (As.ty ≡ v.ty) × (size v.ty ≡ As.size)
unfolding try_iter_as
accepted As v it e = elim (result_cases (validate_element_type As v.ty)) [
  | inl (tt, h) ↦ (validate_element_type_iff As v.ty).0 h
  | inr (x, h) ↦ cc (rw h at e)
]

module _ (As : DynPrimitiveTy) (get : Bytes → ReadResult As.Item) where
  Step-IsSound : {s t : Iter As} → Step As get s t → IterIsSound As s → IterIsSound As t
  Step-IsSound {s} {t} (call o e) h =
      let (o', t', run, sound, _, _) = next_safe As get s h in
      let same : (o', t') ≡ (o, t) = returns_injective (sym run ∙ e) in
      subst (IterIsSound As) (ap (λ p. p.1) same) sound

  Reaches-IsSound : {s t : Iter As} → IterIsSound As s → Reaches As get s t → IterIsSound As t
  Reaches-IsSound h here = h
  Reaches-IsSound h (later r st) = Step-IsSound st (Reaches-IsSound h r)

  -- From the bytes to the last element: whatever was parsed, at whatever type, an iterator that a
  -- lazy vector gives out, for any type that implements `DynPrimitiveTy`, whatever `TYPE` and width
  -- it has and whatever its `get` returns, after any calls of `next`, can be asked again without an
  -- overflow or an access outside of the payload; the owning iterator in the same state makes the
  -- same step.
  pub parsed-never-faults :
      (w : Wincode) (laws : WincodeLaws w) (ty : Ty) (r : w.Reader) (v : LazyVec) (s t : Iter As)
      (owning : IntoIter As)
      → (parse w ty r).0 ≡ ok (Value.vec v)
      → try_iter_as As v ≡ ok s
      → Reaches As get s t
      → borrow owning ≡ t
      → (o : Option (ReadResult As.Item)) × (u : Iter As) × (next As get t ≡ returns (o, u))
        × (borrow_step (next_owned As get owning) ≡ returns (o, u))
  parsed-never-faults w laws ty r v s t owning parsed given reached same =
      let (matches, width) = accepted As v s given in
      let (it, made, sound, _, _, _) =
        try_iter_as-IsSound As v (parse-IsSound w laws ty r v parsed) matches width in
      let start : it ≡ s = cc in
      let (o, u, run, _, _, _) =
        next_safe As get t (Reaches-IsSound (subst (IterIsSound As) start sound) reached) in
      (o, u, run, next_owned_lem As get owning ∙ ap (next As get) same ∙ run)

  count_cases : (o : Option (ReadResult As.Item)) → (o ≡ none) ⊎ (count o ≡ 1)
  count_cases none = inl refl
  count_cases (some _) = inr refl

  -- The calls after the first.
  Reaches-first : {s t u : Iter As} → Step As get s t → Reaches As get t u → Reaches As get s u
  Reaches-first st here = Reaches.later Reaches.here st
  Reaches-first st (later r last) = Reaches.later (Reaches-first st r) last

  Reaches-count :
      (n : ℕ) (s : Iter As)
      → IterIsSound As s
      → iter_len As s ≡ n
      → (u : Iter As) × Reaches As get s u
        × (iter_len As u ≡ 0)
        × (next As get u ≡ returns (none, u))
  Reaches-count zero s h e =
      (s, Reaches.here, e, next_end As get s (omega (arith, iter_len_lem As get s h)))
  Reaches-count (suc n) s h e =
      let (o, t, run, sound, left, ends) = next_safe As get s h in
      elim (count_cases o) [
        | inl k ↦ absurd (omega (arith, ends.0 k))
        | inr k ↦
            let (u, rest, zero_left, done) = Reaches-count n t sound (omega (arith, left, k)) in
            (u, Reaches-first (Step.call o run) rest, zero_left, done)
      ]

  -- From every state that calls of `next` on a sound iterator reach, further calls reach its end:
  -- no item is left, and `next` returns nothing and stays where it is.
  pub Reaches-end :
      (s t : Iter As)
      → IterIsSound As s
      → Reaches As get s t
      → (u : Iter As) × Reaches As get t u
        × (iter_len As u ≡ 0)
        × (next As get u ≡ returns (none, u))
  Reaches-end s t h reached = Reaches-count (iter_len As t) t (Reaches-IsSound h reached) refl
