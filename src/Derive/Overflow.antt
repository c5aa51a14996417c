-- ===== src/Derive/Overflow.antt =====
-- When the macro's output does not compile, and what the sizes of variants state
-- (wincode-dynamic-derive/src/wincode_dynamic.rs).
use wincode_dynamic.Prelude.{
  String, ℕ, ◌+◌, ◌≡◌, ◌≢◌, ◌↔◌, refl, inl, inr, true, false, Bool-cases, List, [], ◌∷◌, get_elem?,
  zero, suc, Option, none, some, checked_add-fits, checked_add-overflow, usize_mod, if◌then◌else◌,
  arith,
}
use native.Mathlib.Decide.{dec_lt}
use native.Mathlib.Nat.{zero-add}
use wincode_dynamic.Wincode.{TypeMeta}
use wincode_dynamic.Schema.{RootSchema, schema}
use wincode_dynamic.Derive.{
  Field, Variant, Body, Args, SerializedSize, Derived, has_valid_tags, max_serialized_size,
  implementation, root_schema, generate, validate_variant_tags, add_field_size, fold_sizes,
  variant_schema,
}
use wincode_dynamic.Derive.Size.{sum, MetaFits, Fits}

-- The sum of the static sizes.
unfoldable pub static_sum : List TypeMeta → ℕ
static_sum [] = 0
static_sum (TypeMeta.static size ∷ metas) = size + static_sum metas
static_sum (TypeMeta.dynamic ∷ metas) = static_sum metas

-- The metadata of the fields that are read.
unfoldable pub read_metas : List Field → List TypeMeta
read_metas [] = []
read_metas (f ∷ fs) = let rest = read_metas fs in if f.skip then rest else f.read_meta ∷ rest

fold_sizes-none : (fields : List Field) {n : ℕ} → fold_sizes none fields ≢ some n
unfolding fold_sizes add_field_size
fold_sizes-none [] e = cc
fold_sizes-none (f ∷ fs) e = elim (Bool-cases f.skip) [
  | inl h ↦ fold_sizes-none fs (rw h at e)
  | inr h ↦ fold_sizes-none fs (rw h at e)
]

add_field_size-fold :
    (meta : TypeMeta) (total : ℕ) (fields : List Field) {n : ℕ}
    → fold_sizes (add_field_size meta (some total)) fields ≡ some n
    → (k : ℕ) × (meta ≡ TypeMeta.static k) × (fold_sizes (some (total + k)) fields ≡ some n)
unfolding add_field_size
add_field_size-fold TypeMeta.dynamic total fields e = absurd (fold_sizes-none fields e)
add_field_size-fold (TypeMeta.static k) total fields e = elim (dec_lt (total + k) usize_mod) [
  | yes h ↦ (k, refl, rw (checked_add-fits total k h) at e)
  | no h ↦ absurd (fold_sizes-none fields (rw (checked_add-overflow total k (omega arith)) at e))
]

Fits-cons :
    (meta : TypeMeta) (metas : List TypeMeta) (lens : List ℕ)
    → Fits (meta ∷ metas) lens
    → (k : ℕ) × (ks : List ℕ) × (lens ≡ k ∷ ks) × MetaFits meta k × Fits metas ks
Fits-cons meta metas [] h = absurd h
Fits-cons meta metas (k ∷ ks) (h, hs) = (k, ks, refl, h, hs)

MetaFits-static : (meta : TypeMeta) (k n : ℕ) → meta ≡ TypeMeta.static k → MetaFits meta n → n ≡ k
MetaFits-static (TypeMeta.static m) k n e h = cc
MetaFits-static TypeMeta.dynamic k n e h = cc

fold_sizes-Fits :
    (fields : List Field) (lens : List ℕ) (total n : ℕ)
    → fold_sizes (some total) fields ≡ some n
    → Fits (read_metas fields) lens
    → total + sum lens ≡ n
unfolding fold_sizes read_metas sum
fold_sizes-Fits [] [] total n e f = let same : total ≡ n = cc in omega arith
fold_sizes-Fits [] (k ∷ ks) total n e f = absurd f
fold_sizes-Fits (f ∷ fs) lens total n e h = elim (Bool-cases f.skip) [
  | inl s ↦ fold_sizes-Fits fs lens total n (rw s at e) (rw s at h)
  | inr s ↦
      let (k, static, rest) = add_field_size-fold f.read_meta total fs (rw s at e) in
      let (m, ms, same, here, later) = Fits-cons f.read_meta (read_metas fs) lens (rw s at h) in
      let width = MetaFits-static f.read_meta k m static here in
      let whole = fold_sizes-Fits fs ms (total + k) n rest later in rw same (omega arith)
]

-- The size that the schema of a variant states is the length of the encoding of its fields, by the
-- `TYPE_META`s of those that are not skipped.
pub variant_schema-size :
    (variant : Variant) (lens : List ℕ) (n : ℕ)
    → (variant_schema variant).size ≡ some n
    → Fits (read_metas variant.fields) lens
    → sum lens ≡ n
unfolding variant_schema schema
variant_schema-size variant lens n e h =
    rw zero-add at (fold_sizes-Fits variant.fields lens 0 n e h)

validate_variant_tags-get_elem? :
    (variants : List Variant) (i : ℕ) (tag : String) (variant : Variant)
    → get_elem? variants i ≡ some variant
    → variant.tag ≡ some tag
    → validate_variant_tags variants ≡ false
unfolding validate_variant_tags
validate_variant_tags-get_elem? [] i tag variant g e = cc
validate_variant_tags-get_elem? (v ∷ vs) zero tag variant g e =
    let same : v ≡ variant = cc in rw (same, e)
validate_variant_tags-get_elem? (v ∷ vs) (suc i) tag variant g e =
    let rest = validate_variant_tags-get_elem? vs i tag variant g e in ground arith

implementation-overflow :
    (size : Option SerializedSize) (root : RootSchema)
    → (implementation size root ≡ Derived.size_overflow) ↔ (size ≡ none)
implementation-overflow none root = (λ _. refl, λ _. refl)
implementation-overflow (some size) root = (λ e. cc, λ e. cc)

-- A tag attribute on any variant is refused by the macro.
pub generate_unsupported_tag :
    (tag_meta : TypeMeta) (args : Args) (variants : List Variant) (i : ℕ) (tag : String)
    (variant : Variant)
    → args.body ≡ Body.enum variants
    → get_elem? variants i ≡ some variant
    → variant.tag ≡ some tag
    → generate tag_meta args ≡ Derived.unsupported_tag
unfolding generate
generate_unsupported_tag tag_meta args variants i tag variant body at_index tagged =
    rw (body, validate_variant_tags-get_elem? variants i tag variant at_index tagged)

-- Without tag attributes the macro's output fails to compile with an overflow exactly when
-- `SERIALIZED_SIZE` overflows.
pub generate_lem :
    (tag_meta : TypeMeta) (args : Args)
    → has_valid_tags args.body ≡ true
    → (generate tag_meta args ≡ Derived.size_overflow) ↔ (max_serialized_size tag_meta args ≡ none)
unfolding generate
generate_lem tag_meta args valid =
    rw valid (implementation-overflow (max_serialized_size tag_meta args) (root_schema args))
