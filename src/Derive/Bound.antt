-- ===== src/Derive/Bound.antt =====
-- `SerializedSize::Static` is an upper bound of the encoded length of every value of the type
-- (wincode-dynamic-derive/src/wincode_dynamic.rs).
use wincode_dynamic.Prelude.{
  ℕ, zero, suc, ◌+◌, ◌≤◌, ◌≡◌, refl, sym, ap, ◌∙◌, true, false, List, [], ◌∷◌, map, Option, none,
  some, get_elem?, subst, arith,
}
use wincode_dynamic.Wincode.{TypeMeta}
use wincode_dynamic.Derive.{
  Field, Variant, Body, Args, SerializedSize, field_write_type_meta, serialized_size, max_loop,
  largest_variant, enum_serialized_size, variant_sizes, cons_size, enum_size_of,
  max_serialized_size, size_of_body,
}
use wincode_dynamic.Derive.Size.{
  sum, MetaFits, Fits, Within, serialized_size-Within, max_loop_bound, max_loop_lem,
  tagged_size-eq_static,
}

-- The length of the encoding of a value: of a struct, or of a variant behind its tag. A skipped
-- field takes no bytes.
abbrev pub IsEncodedLength : TypeMeta → Body → ℕ → Type 0
IsEncodedLength tag_meta (Body.struct fields) total =
    (lens : List ℕ) × Fits (map field_write_type_meta fields) lens × (total ≡ sum lens)
IsEncodedLength tag_meta (Body.enum variants) total =
    (i : ℕ) × (variant : Variant) × (tag : ℕ) × (lens : List ℕ) × (get_elem? variants i
      ≡ some variant)
    × MetaFits tag_meta tag
    × Fits (map field_write_type_meta variant.fields) lens
    × (total ≡ tag + sum lens)

cons_size-eq_some :
    (a : Option SerializedSize) (b : Option (List SerializedSize)) {sizes : List SerializedSize}
    → cons_size a b ≡ some sizes
    → (s : SerializedSize) × (ss : List SerializedSize) × (a ≡ some s)
      × (b ≡ some ss)
      × (sizes ≡ s ∷ ss)
cons_size-eq_some none b e = cc
cons_size-eq_some (some s) none e = cc
cons_size-eq_some (some s) (some ss) e = (s, ss, refl, refl, cc)

-- The size of a variant stands at its index.
variant_sizes-get_elem? :
    (variants : List Variant) (sizes : List SerializedSize) (i : ℕ) (variant : Variant)
    → variant_sizes variants ≡ some sizes
    → get_elem? variants i ≡ some variant
    → (size : SerializedSize) × (get_elem? sizes i ≡ some size)
      × (serialized_size TypeMeta.dynamic (map field_write_type_meta variant.fields) ≡ some size)
unfolding variant_sizes
variant_sizes-get_elem? [] sizes i variant e g = cc
variant_sizes-get_elem? (v ∷ vs) sizes zero variant e g =
    let (size, rest, here, _, same) = cons_size-eq_some _ (variant_sizes vs) e in
    let this : v ≡ variant = cc in
    (
      size,
      ap (λ l. get_elem? l 0) same,
      ap (λ u. serialized_size TypeMeta.dynamic (map field_write_type_meta u.fields)) (sym this)
          ∙ here,
    )
variant_sizes-get_elem? (v ∷ vs) sizes (suc i) variant e g =
    let (_, rest, _, later, same) = cons_size-eq_some _ (variant_sizes vs) e in
    let (size, there, run) = variant_sizes-get_elem? vs rest i variant later g in
    (size, ap (λ l. get_elem? l (suc i)) same ∙ there, run)

largest_variant_bound :
    (tag_meta : TypeMeta) (sizes : List SerializedSize) (i tag total n : ℕ) (size : SerializedSize)
    → largest_variant tag_meta sizes ≡ some (SerializedSize.static n)
    → get_elem? sizes i ≡ some size
    → Within size total
    → MetaFits tag_meta tag
    → tag + total ≤ n
unfolding max_loop
largest_variant_bound tag_meta [] i tag total n size e g h m = cc
largest_variant_bound (TypeMeta.static k) (v ∷ vs) i tag total n size e g h m =
    let (exact, all) = tagged_size-eq_static k (max_loop 0 true (v ∷ vs)) e in
    let bound = max_loop_bound (v ∷ vs) 0 true i total size g h all in omega arith
largest_variant_bound TypeMeta.dynamic (v ∷ vs) i tag total n size e g h m =
    let (exact, all) = tagged_size-eq_static 0 (max_loop 0 false (v ∷ vs)) e in
    cc ((max_loop_lem (v ∷ vs) 0 false).1 all)

enum_bound :
    (enum_meta tag_meta : TypeMeta) (sizes : List SerializedSize) (i tag total n : ℕ)
    (size : SerializedSize)
    → enum_serialized_size enum_meta tag_meta sizes ≡ some (SerializedSize.static n)
    → MetaFits enum_meta (tag + total)
    → get_elem? sizes i ≡ some size
    → Within size total
    → MetaFits tag_meta tag
    → tag + total ≤ n
unfolding enum_serialized_size
enum_bound (TypeMeta.static k) tag_meta sizes i tag total n size e c g h m =
    let same : k ≡ n = cc in omega arith
enum_bound TypeMeta.dynamic tag_meta sizes i tag total n size e c g h m =
    largest_variant_bound tag_meta sizes i tag total n size e g h m

enum_size_of-eq_some :
    (enum_meta tag_meta : TypeMeta) (o : Option (List SerializedSize)) {size : SerializedSize}
    → enum_size_of enum_meta tag_meta o ≡ some size
    → (sizes : List SerializedSize) × (o ≡ some sizes)
      × (enum_serialized_size enum_meta tag_meta sizes ≡ some size)
enum_size_of-eq_some enum_meta tag_meta none e = cc
enum_size_of-eq_some enum_meta tag_meta (some sizes) e = (sizes, refl, e)

body_bound :
    (tag_meta meta : TypeMeta) (body : Body) (total n : ℕ)
    → size_of_body tag_meta meta body ≡ some (SerializedSize.static n)
    → IsEncodedLength tag_meta body total
    → MetaFits meta total
    → total ≤ n
unfolding size_of_body
body_bound tag_meta meta (Body.struct fields) total n e (lens, f, same) m =
    let exact =
      serialized_size-Within meta (map field_write_type_meta fields) lens (SerializedSize.static n)
        e (subst (MetaFits meta) same m) f in
    omega arith
body_bound tag_meta meta (Body.enum variants) total n e (i, v, tag, lens, g, t, f, same) m =
    let (sizes, found, run) = enum_size_of-eq_some meta tag_meta (variant_sizes variants) e in
    let (size, at_index, of_fields) = variant_sizes-get_elem? variants sizes i v found g in
    let within =
      serialized_size-Within TypeMeta.dynamic (map field_write_type_meta v.fields) lens size
        of_fields tt f in
    rw same (
      enum_bound meta tag_meta sizes i tag (sum lens) n size run (subst (MetaFits meta) same m)
        at_index within t)

-- A static `SERIALIZED_SIZE` bounds the encoding of every value of the type: of every struct, and
-- of every variant with its tag. The static `TYPE_META`s of the fields, the tag and the container
-- are taken to state the lengths of their encodings.
pub max_serialized_size_bound :
    (tag_meta : TypeMeta) (args : Args) (total n : ℕ)
    → max_serialized_size tag_meta args ≡ some (SerializedSize.static n)
    → IsEncodedLength tag_meta args.body total
    → MetaFits args.write_meta total
    → total ≤ n
unfolding max_serialized_size
max_serialized_size_bound tag_meta args total n e h m =
    body_bound tag_meta args.write_meta args.body total n e h m

-- For a struct the size is exact where it is static, and otherwise a part of every encoding, where
-- the static `TYPE_META`s of the fields and of the struct state the lengths of their encodings.
pub max_serialized_size_struct :
    (tag_meta : TypeMeta) (args : Args) (fields : List Field) (lens : List ℕ)
    (size : SerializedSize)
    → args.body ≡ Body.struct fields
    → max_serialized_size tag_meta args ≡ some size
    → Fits (map field_write_type_meta fields) lens
    → MetaFits args.write_meta (sum lens)
    → Within size (sum lens)
unfolding max_serialized_size size_of_body
max_serialized_size_struct tag_meta args fields lens size body e f m =
    let run = ap (size_of_body tag_meta args.write_meta) (sym body) ∙ e in
    serialized_size-Within args.write_meta (map field_write_type_meta fields) lens size run m f
