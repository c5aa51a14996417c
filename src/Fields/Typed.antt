-- ===== src/Fields/Typed.antt =====
-- The fields that the iterator `Fields` (wincode-dynamic/src/lib.rs) yields, on any input, against
-- the definitions of the schema.
use wincode_dynamic.Prelude.{ℕ, zero, suc, ◌≡◌, refl, sym, ap, ◌∙◌, List, [], ◌∷◌, inl, inr}
use wincode_dynamic.Wincode.{Wincode, ok, err}
use wincode_dynamic.Wincode.Monad.{result_cases}
use wincode_dynamic.Wincode.Laws.{WincodeLaws}
use wincode_dynamic.Schema.{FieldDef}
use wincode_dynamic.Parse.Typed.{HasType, parse-HasType}
use wincode_dynamic.Fields.{
  Field, field_of, parse_field, field_name, field_ty, field_size, field_value, def_name, def_ty,
  def_size,
}
use wincode_dynamic.Fields.Drain.{
  Collected, finished, out_of_fuel, cons_collected, collect, collect-ok, collect-err, collect-nil,
}

-- A decoded field has the name, the type and the size of its definition, and a value of that type.
pub record Conforms (def : FieldDef) (f : Field) : Type 0 where
  pub same_name : field_name f ≡ def_name def
  pub same_ty : field_ty f ≡ def_ty def
  pub same_size : field_size f ≡ def_size def
  pub typed : HasType (def_ty def) (field_value f)

-- One field for each definition, in order.
pub data AllConform : List FieldDef → List Field → Type 0 where
  nil : AllConform [] []
  cons :
      {def : FieldDef} {f : Field} {defs : List FieldDef} {fs : List Field}
      → Conforms def f
      → AllConform defs fs
      → AllConform (def ∷ defs) (f ∷ fs)

cons_collected-eq_ok :
    (f : Field) (c : Collected (List Field)) (fs : List Field)
    → cons_collected f c ≡ finished (ok fs)
    → (rest : List Field) × (c ≡ finished (ok rest)) × (fs ≡ f ∷ rest)
cons_collected-eq_ok f (finished (ok rest)) fs e = (rest, refl, cc)
cons_collected-eq_ok f (finished (err x)) fs e = cc
cons_collected-eq_ok f out_of_fuel fs e = cc

module _ (w : Wincode) (laws : WincodeLaws w) where
  field_of-Conforms :
      (def : FieldDef) (r : w.Reader) (v : _)
      → (parse_field w def r).0 ≡ ok v
      → Conforms def (field_of def v)
  unfolding parse_field field_name field_ty field_size field_value def_name def_ty def_size
  field_of-Conforms def r v e = record {
    same_name = refl;
    same_ty = refl;
    same_size = refl;
    typed = parse-HasType w laws def.ty r v e;
  }

  -- What is collected, whatever the input: one field for each definition, in order, with a value of
  -- the type that the definition states.
  pub collect-AllConform :
      (fuel : ℕ) (defs : List FieldDef) (r : w.Reader) (fs : List Field)
      → (collect w fuel (record { fields = defs; reader = r })).0 ≡ finished (ok fs)
      → AllConform defs fs
  collect-AllConform zero defs r fs e = unfold collect in cc
  collect-AllConform (suc fuel) [] r fs e =
      let same : [] ≡ fs = cc (sym (ap (λ p. p.0) (collect-nil w fuel r)) ∙ e) in
      rw (← same) AllConform.nil
  collect-AllConform (suc fuel) (d ∷ defs) r fs e =
      let r' = (parse_field w d r).1 in
      elim (result_cases (parse_field w d r).0) [
        | inl (v, read) ↦
            let (rest, later, same) =
              cons_collected-eq_ok (field_of d v)
                (collect w fuel (record { fields = defs; reader = r' })).0 fs
                (sym (ap (λ p. p.0) (collect-ok w fuel d defs r read)) ∙ e) in
            rw same (
              AllConform.cons (field_of-Conforms d r v read)
                (collect-AllConform fuel defs r' rest later))
        | inr (x, read) ↦
            let stopped = sym (ap (λ p. p.0) (collect-err w fuel d defs r read)) ∙ e in cc stopped
      ]
