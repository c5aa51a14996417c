-- ===== src/Expand/Compile/Decodes.antt =====
-- wincode-dynamic-derive: from the declaration as the macro reads it to decoded fields.
use wincode_dynamic.Prelude.{
  Bool-cases, ◌≡◌, refl, ◌∙◌, Bool, ◌++◌, Option, none, some, All, inl, inr,
}
use wincode_dynamic.Wincode.{Wincode, Bytes, TypeMeta}
use wincode_dynamic.Wincode.Laws.{WincodeLaws}
use wincode_dynamic.Schema.{RootSchema}
use wincode_dynamic.Fields.RoundTrip.{IsWritableRow}
use wincode_dynamic.Decoder.{decoder}
use wincode_dynamic.Decoder.RoundTrip.{rows_of, encode, Decodes}
use wincode_dynamic.Derive
use wincode_dynamic.Derive.{SerializedSize, Derived}
use wincode_dynamic.Derive.Reflect.{DeclaredValue, to_value, derive_decode}
use wincode_dynamic.Expand.{Args, Predicate}
use wincode_dynamic.Expand.Traits.{Traits, Means}
use wincode_dynamic.Expand.Skipped.{generate-Means}
use wincode_dynamic.Expand.Compile.{
  Expansion, Outcome, evaluated, run, all_hold, outcome, compile, derive, generate,
}
use wincode_dynamic.Expand.Compile.Elaborate.{compile-Means}

evaluated-eq :
    (d : Derived) {size : SerializedSize} {root : RootSchema}
    → evaluated d ≡ Outcome.schema_dynamic size root
    → d ≡ Derived.schema_dynamic size root
evaluated-eq Derived.unsupported_tag e = let impossible : ⊥ = cc in absurd impossible
evaluated-eq Derived.size_overflow e = let impossible : ⊥ = cc in absurd impossible
evaluated-eq (Derived.schema_dynamic size root) e = cc

module _ (traits : Traits) (holds : Predicate → Bool) (default_meta : TypeMeta) where
  run-eq :
      (o : Option (TypeMeta × Derive.Args)) {size : SerializedSize} {root : RootSchema}
      → run o ≡ Outcome.schema_dynamic size root
      → (meta : TypeMeta) × (m : Derive.Args) × (o ≡ some (meta, m))
        × (Derive.generate meta m ≡ Derived.schema_dynamic size root)
  run-eq none e = let impossible : ⊥ = cc in absurd impossible
  run-eq (some (meta, m)) e = (meta, m, refl, evaluated-eq (Derive.generate meta m) e)

  outcome-eq :
      (args : Args) (x : Expansion) {size : SerializedSize} {root : RootSchema}
      → outcome traits holds default_meta args x ≡ Outcome.schema_dynamic size root
      → run (compile traits default_meta args) ≡ Outcome.schema_dynamic size root
  outcome-eq args Expansion.unsupported_tag e = let impossible : ⊥ = cc in absurd impossible
  outcome-eq args Expansion.panics e = let impossible : ⊥ = cc in absurd impossible
  outcome-eq args (Expansion.implementation ps) e = elim (Bool-cases (all_hold holds ps)) [
    | inl h ↦ rw h at e
    | inr h ↦ let missing = rw h at e in let impossible : ⊥ = cc in absurd impossible
  ]

  -- From a declaration as the macro reads it to decoded fields: where the macro and the compiler
  -- make an implementation of it, the schema that this returns decodes every serialized value of
  -- the type, for whatever declaration with the constants of the traits stands for it: fields
  -- written in the format of their own types, texts and sequences within the preallocation limit,
  -- a skipped field left out, and exactly the value's bytes consumed.
  pub derive-Decodes :
      (w : Wincode) (laws : WincodeLaws w) (args : Args) (size : SerializedSize) (root : RootSchema)
      (tag_meta : TypeMeta) (m : Derive.Args) (v : DeclaredValue m.tag_encoding m.body)
      (r : w.Reader) (rest : Bytes)
      → derive traits holds default_meta args ≡ Outcome.schema_dynamic size root
      → Means traits default_meta args tag_meta m
      → All (IsWritableRow w laws) (rows_of (to_value m.tag_encoding v))
      → laws.remaining r ≡ encode w (to_value m.tag_encoding v) ++ rest
      → Decodes w laws (decoder root) (to_value m.tag_encoding v) r rest
  unfolding derive
  derive-Decodes w laws args size root tag_meta m v r rest made means h e =
      let compiled = outcome-eq args (generate args) made in
      let (meta, m', found, run') = run-eq (compile traits default_meta args) compiled in
      let same =
        generate-Means traits default_meta args tag_meta meta m m' means
          (compile-Means traits default_meta meta args m' found) in
      derive_decode w laws tag_meta m size root v r rest (same ∙ run') h e
