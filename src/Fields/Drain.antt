-- ===== src/Fields/Drain.antt =====
-- Draining the iterator `Fields` of wincode-dynamic/src/lib.rs: `next` until it returns nothing,
-- and `collect::<ReadResult<Vec<_>>>()`, which stops at the first error.
use wincode_dynamic.Prelude.{
  ℕ, zero, suc, ◌+◌, ◌≡◌, ◌↔◌, refl, ap, ◌∙◌, List, [], ◌∷◌, Option, none, some, length, inl, inr,
  arith,
}
use wincode_dynamic.Wincode.{Wincode, ReadResult, ReadError, ok, err}
use wincode_dynamic.Wincode.Monad.{map_read_ok, map_read_err, cons_result, result_cases}
use wincode_dynamic.Value.{Value}
use wincode_dynamic.Schema.{FieldDef}
use wincode_dynamic.Fields.{Field, Fields, next, next_field, field_of, parse_field, len}

-- What `collect` returns, and the iterator as it is left; the fuel may run out.
pub data Collected {ℓ} (A : Type ℓ) : Type ℓ where
  finished : ReadResult A → Collected A
  out_of_fuel : Collected A

abbrev pub cons_collected {ℓ} : {A : Type ℓ} → A → Collected (List A) → Collected (List A)
cons_collected a (finished m) = finished (cons_result a m)
cons_collected a out_of_fuel = out_of_fuel

abbrev pub collect_step {ℓ κ} :
    {I : Type ℓ} {A : Type κ}
    → (I → Collected (List A) × I)
    → Option (ReadResult A) × I
    → Collected (List A) × I
collect_step rest (none, it) = (finished (ok []), it)
collect_step rest (some (ok a), it) = (cons_collected a (rest it).0, (rest it).1)
collect_step rest (some (err e), it) = (finished (err e), it)

unfoldable pub collect :
    (w : Wincode) → ℕ → Fields w.Reader → Collected (List Field) × Fields w.Reader
collect w zero it = (out_of_fuel, it)
collect w (suc fuel) it = collect_step (collect w fuel) (next w it)

-- Whether an item was returned.
abbrev pub count {ℓ} : {A : Type ℓ} → Option A → ℕ
count none = 0
count (some _) = 1

-- `len` is exact: each item lowers it by one, whether it is a field or an error, and `next`
-- returns nothing exactly when it is zero.
pub len-next :
    (w : Wincode) (it : Fields w.Reader)
    → (len it ≡ len (next w it).1 + count (next w it).0) × (((next w it).0 ≡ none) ↔ (len it ≡ 0))
unfolding len next
len-next w it = go it.fields it.reader
  where
    go :
        (defs : List FieldDef) (r : w.Reader)
        → (length defs ≡ length (next_field w defs r).1.fields + count (next_field w defs r).0)
          × (((next_field w defs r).0 ≡ none) ↔ (length defs ≡ 0))
    go [] r = (omega arith, (λ _. refl, λ _. refl))
    go (d ∷ defs) r = (omega arith, (λ e. cc, λ e. absurd (omega arith)))

-- One call of `next` on a field that is decoded, and on one that is not.
pub next-ok :
    (w : Wincode) (d : FieldDef) (defs : List FieldDef) (r : w.Reader) {v : Value}
    → (parse_field w d r).0 ≡ ok v
    → next w (record { fields = d ∷ defs; reader = r })
      ≡ (some (ok (field_of d v)), record { fields = defs; reader = (parse_field w d r).1 })
unfolding next next_field
next-ok w d defs r e =
    ap (λ p. (some p.0, record { fields = defs; reader = p.1 })) (map_read_ok (field_of d) _ e)

next-err :
    (w : Wincode) (d : FieldDef) (defs : List FieldDef) (r : w.Reader) {x : ReadError}
    → (parse_field w d r).0 ≡ err x
    → next w (record { fields = d ∷ defs; reader = r })
      ≡ (some (err x), record { fields = defs; reader = (parse_field w d r).1 })
unfolding next next_field
next-err w d defs r e =
    ap (λ p. (some p.0, record { fields = defs; reader = p.1 })) (map_read_err (field_of d) _ e)

-- A field that is decoded joins what the rest yields, and an error ends the collection with the
-- later fields unread.
pub collect-ok :
    (w : Wincode) (fuel : ℕ) (d : FieldDef) (defs : List FieldDef) (r : w.Reader) {v : Value}
    → (parse_field w d r).0 ≡ ok v
    → collect w (suc fuel) (record { fields = d ∷ defs; reader = r }) ≡ (
      cons_collected
          (field_of d v)
          (collect w fuel (record { fields = defs; reader = (parse_field w d r).1 })).0,
      (collect w fuel (record { fields = defs; reader = (parse_field w d r).1 })).1,
    )
unfolding collect
collect-ok w fuel d defs r e = ap (collect_step (collect w fuel)) (next-ok w d defs r e)

pub collect-err :
    (w : Wincode) (fuel : ℕ) (d : FieldDef) (defs : List FieldDef) (r : w.Reader) {x : ReadError}
    → (parse_field w d r).0 ≡ err x
    → collect w (suc fuel) (record { fields = d ∷ defs; reader = r })
      ≡ (finished (err x), record { fields = defs; reader = (parse_field w d r).1 })
unfolding collect
collect-err w fuel d defs r e = ap (collect_step (collect w fuel)) (next-err w d defs r e)

pub collect-nil :
    (w : Wincode) (fuel : ℕ) (r : w.Reader)
    → collect w (suc fuel) (record { fields = []; reader = r })
      ≡ (finished (ok []), record { fields = []; reader = r })
unfolding collect next next_field
collect-nil w fuel r = refl

-- The fuel of one more call than `len` is enough to finish, on any input.
pub collect_finishes :
    (w : Wincode) (defs : List FieldDef) (r : w.Reader)
    → (m : ReadResult (List Field)) × ((collect w
          (suc (length defs))
          (record { fields = defs; reader = r })).0
        ≡ finished m)
collect_finishes w [] r = (ok [], ap (λ p. p.0) (collect-nil w 0 r))
collect_finishes w (d ∷ defs) r =
    let r' = (parse_field w d r).1 in
    let (m, rest) = collect_finishes w defs r' in
    elim (result_cases (parse_field w d r).0) [
      | inl (v, e) ↦ (
        cons_result (field_of d v) m,
        ap (λ p. p.0) (collect-ok w (suc (length defs)) d defs r e)
            ∙ ap (cons_collected (field_of d v)) rest,
      )
      | inr (x, e) ↦ (err x, ap (λ p. p.0) (collect-err w (suc (length defs)) d defs r e))
    ]
