-- ===== src/Expand/Compile/Cases.antt =====
-- wincode-dynamic-derive: what becomes of a declaration, by its tags, its adapters and the traits
-- in scope.
use wincode_dynamic.Prelude.{
  Option-cases, Bool-cases, ◌≡◌, refl, ◌∙◌, ◌↔◌, ◌⊎◌, Bool, true, false, List, [], ◌∷◌, Option,
  none, some, All, inl, inr, if◌then◌else◌,
}
use wincode_dynamic.Wincode.{TypeMeta}
use wincode_dynamic.Schema.{RootSchema}
use wincode_dynamic.Derive
use wincode_dynamic.Derive.{SerializedSize, Derived}
use wincode_dynamic.Expand.{Args, Predicate, where_clause}
use wincode_dynamic.Expand.Traits.{Traits, Holds, TagUses}
use wincode_dynamic.Expand.Bounds.{where_clause-Means}
use wincode_dynamic.Expand.Panics.{BodyNoInfer, BodyLacksTypes, where_clause-panics}
use wincode_dynamic.Expand.Compile.{
  Outcome, evaluated, run, all_hold, has_valid_tags, compile, derive, generate,
}
use wincode_dynamic.Expand.Compile.Elaborate.{compile-Means}
use wincode_dynamic.Expand.Compile.Complete.{Means-compile, has_valid_tags-Means}

generate-tags :
    (meta : TypeMeta) (m : Derive.Args)
    → Derive.has_valid_tags m.body ≡ true
    → (evaluated (Derive.generate meta m) ≡ Outcome.size_overflow)
      ⊎ ((size : SerializedSize) × (root : RootSchema) × (evaluated (Derive.generate meta m)
            ≡ Outcome.schema_dynamic size root))
unfolding Derive.generate
generate-tags meta m h = elim (Option-cases (Derive.max_serialized_size meta m)) [
  | inl e ↦ inl (rw (h, e) refl)
  | inr (size, e) ↦ inr (size, Derive.root_schema m, rw (h, e) refl)
]

module _ (traits : Traits) (default_meta : TypeMeta) where
  -- The traits that the code names: those of the predicates, and those of an enum's tag type.
  abbrev pub HasTraits : Args → List Predicate → Type 0
  HasTraits args ps =
      All (Holds traits) ps
      × ((tag : _) × (tag_meta : TypeMeta) × TagUses traits default_meta args.body args.tag_encoding
            tag tag_meta)

module _ (traits : Traits) (holds : Predicate → Bool) where
  -- `holds` decides the predicates that the macro adds.
  abbrev pub Decides : Option (List Predicate) → Type 0
  Decides none = Unit
  Decides (some ps) = All (λ p. (holds p ≡ true) ↔ Holds traits p) ps

  all_hold-All :
      (ps : List Predicate) → Decides (some ps) → (all_hold holds ps ≡ true) ↔ All (Holds traits) ps
  unfolding all_hold
  all_hold-All [] h = (λ e. tt, λ k. refl)
  all_hold-All (p ∷ ps) (d, ds) = elim (Bool-cases (holds p)) [
    | inl e ↦ rw e (λ f. (d.0 e, (all_hold-All ps ds).0 f), λ k. (all_hold-All ps ds).1 k.1)
    | inr e ↦ rw e (λ f. cc, λ k. let both = d.1 k.0 in cc)
  ]

module _ (traits : Traits) (holds : Predicate → Bool) (default_meta : TypeMeta) where
  HasTraits-compile :
      (args : Args) (ps : List Predicate)
      → where_clause args ≡ some ps
      → HasTraits traits default_meta args ps
      → (meta : TypeMeta) × (m : Derive.Args) × (compile traits default_meta args ≡ some (meta, m))
  HasTraits-compile args ps e (h, (tag, tag_meta, uses)) =
      let (m, means) = where_clause-Means traits default_meta args tag tag_meta ps e h uses in
      let ((meta, m'), found) = Means-compile traits default_meta tag_meta args m means in
      (meta, m', found)

  -- A declaration with a tag; with an adapter that has too many placeholders; with predicates, of
  -- which one or a trait of the tag type is missing; with all of these.
  abbrev pub Becomes : Args → Type 0
  Becomes args =
      ((has_valid_tags args.body ≡ false)
        × (derive traits holds default_meta args ≡ Outcome.unsupported_tag))
      ⊎ ((has_valid_tags args.body ≡ true)
          × BodyLacksTypes args.body
          × (derive traits holds default_meta args ≡ Outcome.panics))
      ⊎ ((ps : List Predicate) × (has_valid_tags args.body ≡ true)
          × (where_clause args ≡ some ps)
          × ¬ HasTraits traits default_meta args ps
          × (derive traits holds default_meta args ≡ Outcome.missing_trait))
      ⊎ ((ps : List Predicate) × (has_valid_tags args.body ≡ true)
          × (where_clause args ≡ some ps)
          × HasTraits traits default_meta args ps
          × ((derive traits holds default_meta args ≡ Outcome.size_overflow)
              ⊎ ((size : SerializedSize) × (root : RootSchema) × (derive traits holds default_meta
                      args
                    ≡ Outcome.schema_dynamic size root))))

  derive-implementation :
      (args : Args) (ps : List Predicate)
      → has_valid_tags args.body ≡ true
      → where_clause args ≡ some ps
      → derive traits holds default_meta args ≡ (
          if all_hold holds ps
          then run (compile traits default_meta args)
          else Outcome.missing_trait)
  unfolding derive generate
  derive-implementation args ps e given = rw (e, given) refl

  run-compile :
      (args : Args) (meta : TypeMeta) (m : Derive.Args)
      → has_valid_tags args.body ≡ true
      → compile traits default_meta args ≡ some (meta, m)
      → (run (compile traits default_meta args) ≡ Outcome.size_overflow)
        ⊎ ((size : SerializedSize) × (root : RootSchema) × (run (compile traits default_meta args)
              ≡ Outcome.schema_dynamic size root))
  run-compile args meta m valid c =
      let means = compile-Means traits default_meta meta args m c in
      rw c (generate-tags meta m (has_valid_tags-Means traits args.body m.body means.1 ∙ valid))

  implementation_cases :
      (args : Args) (ps : List Predicate)
      → has_valid_tags args.body ≡ true
      → where_clause args ≡ some ps
      → Decides traits holds (some ps)
      → (¬ HasTraits traits default_meta args ps
          × (derive traits holds default_meta args ≡ Outcome.missing_trait))
        ⊎ (HasTraits traits default_meta args ps
            × ((derive traits holds default_meta args ≡ Outcome.size_overflow)
                ⊎ ((size : SerializedSize) × (root : RootSchema) × (derive traits holds default_meta
                        args
                      ≡ Outcome.schema_dynamic size root))))
  implementation_cases args ps valid given decides =
      rw (derive-implementation args ps valid given) (elim (Bool-cases (all_hold holds ps)) [
        | inr h ↦
            inl (λ has. let both = (all_hold-All traits holds ps decides).1 has.0 in cc, rw h refl)
        | inl h ↦ elim (Option-cases (compile traits default_meta args)) [
          | inl c ↦ inl (
            λ has. let (meta, m, found) = HasTraits-compile args ps given has in cc,
            rw (h, c) refl,
          )
          | inr ((meta, m), c) ↦ inr (
            (
              (all_hold-All traits holds ps decides).0 h,
              (m.tag_encoding, meta, (compile-Means traits default_meta meta args m c).2),
            ),
            rw h (run-compile args meta m valid c),
          )
        ]
      ])

  -- What becomes of a declaration whose field types have no `_`, where the compiler decides the
  -- predicates that the macro adds: the error of a tag; or, without one, the panic for an adapter
  -- with too many placeholders; or else predicates, of which one, or a trait of the tag type,
  -- is missing; or there are all of them, and the size of the type overflows, or a `SchemaDynamic`
  -- is made.
  pub derive_cases :
      (args : Args)
      → BodyNoInfer args.body
      → Decides traits holds (where_clause args)
      → Becomes args
  unfolding derive generate
  derive_cases args plain decides = elim (Bool-cases (has_valid_tags args.body)) [
    | inr e ↦ inl (e, rw e refl)
    | inl e ↦ inr (elim (Option-cases (where_clause args)) [
      | inl given ↦ inl (e, (where_clause-panics args plain).0 given, rw (e, given) refl)
      | inr (ps, given) ↦ inr (elim (implementation_cases args ps e given (rw given at decides)) [
        | inl (lacks, run) ↦ inl (ps, e, given, lacks, run)
        | inr (has, run) ↦ inr (ps, e, given, has, run)
      ])
    ])
  ]
