-- ===== src/Decoder/Total.antt =====
-- Any input under any schema: what a `Decoder` (wincode-dynamic/src/lib.rs) can end with.
use wincode_dynamic.Prelude.{
  ℕ, suc, ◌≡◌, ◌⊎◌, refl, ap, ◌∙◌, inl, inr, List, some, get_elem?, length, Option-cases,
}
use wincode_dynamic.Wincode.{Wincode, ReadResult, ReadError, ok, err}
use wincode_dynamic.Wincode.Monad.{result_cases}
use wincode_dynamic.Wincode.Laws.{WincodeLaws}
use wincode_dynamic.Parse.{parse_into_usize}
use wincode_dynamic.Schema.{FieldDef, Schema, RootSchema}
use wincode_dynamic.Fields.{Field, Fields, schema_fields, len}
use wincode_dynamic.Fields.Drain.{finished, collect, collect_finishes}
use wincode_dynamic.Fields.Typed.{AllConform, collect-AllConform}
use wincode_dynamic.Decoder.{decoder, fields, decode_variant, select, map_fields, variant_fields}

-- The definitions of a struct, or of one of the variants of an enum.
abbrev pub DefsOf : RootSchema → List FieldDef → Type 0
DefsOf (RootSchema.struct s) defs = defs ≡ s.fields
DefsOf (RootSchema.enum variants size name tag) defs =
    (n : ℕ) × (s : Schema) × (get_elem? variants n ≡ some s) × (defs ≡ s.fields)

select_cases :
    {R : Type 0} (variants : List Schema) (p : ReadResult ℕ × R)
    → ((x : ReadError) × (select variants p ≡ err x))
      ⊎ ((n : ℕ) × (s : Schema) × (reader : R) × (get_elem? variants n ≡ some s)
          × (select variants p ≡ ok (record { schema = s; reader = reader })))
select_cases variants (err e, reader) = inl (e, refl)
select_cases variants (ok disc, reader) = elim (Option-cases (get_elem? variants disc)) [
  | inl e ↦ inl (ReadError.invalid_tag_encoding disc, rw e)
  | inr (s, e) ↦ inr (disc, s, reader, e, rw e)
]

module _ (w : Wincode) (laws : WincodeLaws w) where
  -- Collecting the fields of an iterator ends with an error, or with fields that conform to its
  -- definitions.
  abbrev pub Ends : Fields w.Reader → Type 0
  Ends it =
      ((x : ReadError) × ((collect w (suc (len it)) it).0 ≡ finished (err x)))
      ⊎ ((fs : List Field) × ((collect w (suc (len it)) it).0 ≡ finished (ok fs))
          × AllConform it.fields fs)

  collect-Ends : (defs : List FieldDef) (r : w.Reader) → Ends (record { fields = defs; reader = r })
  unfolding len
  collect-Ends defs r =
      let (m, run) = collect_finishes w defs r in
      elim (result_cases m) [
        | inr (x, e) ↦ inl (x, run ∙ ap finished e)
        | inl (fs, e) ↦
            let ended = run ∙ ap finished e in
            inr (fs, ended, collect-AllConform w laws (suc (length defs)) defs r fs ended)
      ]

  -- Whatever the schema and the input, a decoder refuses the tag with an error, or it gives an
  -- iterator over the definitions of the struct or of one of the variants, of which one more call
  -- of `next` than it has fields are enough to end: with an error, or with one field for each
  -- definition, in order, with the definition's name, type and size and a value of that type.
  pub decode-Ends :
      (root : RootSchema) (r : w.Reader)
      → ((x : ReadError) × (fields w (decoder root) r ≡ err x))
        ⊎ ((it : Fields w.Reader) × (fields w (decoder root) r ≡ ok it)
            × DefsOf root it.fields
            × Ends it)
  unfolding fields decoder schema_fields decode_variant variant_fields
  decode-Ends (RootSchema.struct s) r = inr (schema_fields s r, refl, refl, collect-Ends s.fields r)
  decode-Ends (RootSchema.enum variants size name tag) r =
      elim (select_cases variants (parse_into_usize w tag r)) [
        | inl (x, e) ↦ inl (x, ap map_fields e)
        | inr (n, s, reader, at_index, e) ↦ inr (
          schema_fields s reader,
          ap map_fields e,
          (n, s, at_index, refl),
          collect-Ends s.fields reader,
        )
      ]
