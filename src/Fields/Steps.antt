-- ===== src/Fields/Steps.antt =====
-- Any number of calls of `next` on `Fields` (wincode-dynamic/src/lib.rs), with errors among the
-- items: the iterator goes on behind an error, and is fused at its end.
use wincode_dynamic.Prelude.{
  ℕ, zero, suc, ◌+◌, ◌-◌, ◌≤◌, ◌≡◌, ◌⊎◌, inl, inr, refl, List, [], ◌∷◌, Option, none, some, length,
  arith,
}
use wincode_dynamic.Wincode.{Wincode, ReadResult}
use wincode_dynamic.Schema.{FieldDef}
use wincode_dynamic.Fields.{Field, Fields, next, next_field, len}
use wincode_dynamic.Fields.Drain.{count, len-next}

-- What so many calls return, and the iterator behind them.
unfoldable pub calls :
    (w : Wincode) → ℕ → Fields w.Reader → List (Option (ReadResult Field)) × Fields w.Reader
calls w zero it = ([], it)
calls w (suc n) it =
    let (item, it') = next w it in let (items, it'') = calls w n it' in (item ∷ items, it'')

-- How many of them are items, fields or errors.
unfoldable pub yielded : List (Option (ReadResult Field)) → ℕ
yielded [] = 0
yielded (o ∷ os) = count o + yielded os

count_cases {ℓ} : {A : Type ℓ} (o : Option A) → ((o ≡ none) × (count o ≡ 0)) ⊎ (count o ≡ 1)
count_cases none = inl (refl, refl)
count_cases (some _) = inr refl

module _ (w : Wincode) where
  calls-len :
      (n : ℕ) (it : Fields w.Reader)
      → (len (calls w n it).1 ≡ len it - n)
        × (len it ≡ len (calls w n it).1 + yielded (calls w n it).0)
  unfolding calls yielded
  calls-len zero it = (omega arith, omega arith)
  calls-len (suc n) it =
      let (left, total) = calls-len n (next w it).1 in
      let (lowered, ends) = len-next w it in
      elim (count_cases (next w it).0) [
        | inl (e, k) ↦ let over = ends.0 e in (omega arith, omega arith)
        | inr k ↦ (omega arith, omega arith)
      ]

  next_end : (it : Fields w.Reader) → len it ≡ 0 → next w it ≡ (none, it)
  unfolding next len
  next_end it e = go it.fields it.reader e
    where
      go :
          (defs : List FieldDef) (r : w.Reader)
          → length defs ≡ 0
          → next_field w defs r ≡ (none, record { fields = defs; reader = r })
      go [] r e = refl
      go (d ∷ defs) r e = absurd (omega arith)

  -- However the parsing of the fields goes, so many calls of `next` as there are fields, or more,
  -- yield exactly one item for each field, and from then on `next` returns nothing and leaves the
  -- iterator and its reader alone.
  pub calls-exhaust :
      (n : ℕ) (it : Fields w.Reader)
      → len it ≤ n
      → (yielded (calls w n it).0 ≡ len it)
        × (len (calls w n it).1 ≡ 0)
        × (next w (calls w n it).1 ≡ (none, (calls w n it).1))
  calls-exhaust n it h =
      let (left, total) = calls-len n it in
      let done : len (calls w n it).1 ≡ 0 = omega arith in
      (omega arith, done, next_end (calls w n it).1 done)
