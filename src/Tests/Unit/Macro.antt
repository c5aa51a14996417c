-- ===== src/Tests/Unit/Macro.antt =====
-- The tests of wincode-dynamic-derive/src/wincode_dynamic.rs.
use wincode_dynamic.Prelude.{◌≡◌, refl, Bool, true, false, [], ◌∷◌, Option, none, some, String}
use wincode_dynamic.Syntax.{RustType}
use wincode_dynamic.Adapter.{target_resolved}
use wincode_dynamic.Expand.{Variant, Body, Args, target_of}
use wincode_dynamic.Expand.Compile.{Expansion, generate}
use wincode_dynamic.Tests.Adapting.{named, applied}

abbrev input : Body → Args
input body = record {
  ident = "Message";
  body = body;
  internal = false;
  crate_path = none;
  tag_encoding = none;
}

abbrev unit_variant : String → Option String → Variant
unit_variant ident tag = record { ident = ident; fields = []; tag = tag }

abbrev is_ok : Expansion → Bool
is_ok (Expansion.implementation predicates) = true
is_ok _ = false

-- `accepts_enum_without_variant_tags`
abbrev accepts_enum_without_variant_tags : Bool
accepts_enum_without_variant_tags =
    is_ok
      (generate (input (Body.enum (unit_variant "First" none ∷ unit_variant "Second" none ∷ []))))

-- `resolves_wincode_with_inference`: `Adapter<_>` on `Vec<u64>` is `Adapter<u64>`.
abbrev resolved_target : Option RustType
resolved_target = target_of (
    target_resolved (applied "Vec" (named "u64" ∷ []))
      (some (applied "Adapter" (RustType.infer ∷ []))))

abbrev is_unsupported : Expansion → Bool
is_unsupported Expansion.unsupported_tag = true
is_unsupported _ = false

-- `rejects_variant_tag`, `rejects_variant_tag_expression`
abbrev rejects_variant_tag : Bool
rejects_variant_tag = is_unsupported (
    generate
      (input (Body.enum (unit_variant "First" (some "0") ∷ unit_variant "Second" none ∷ []))))

abbrev rejects_variant_tag_expression : Bool
rejects_variant_tag_expression =
    is_unsupported (generate (input (Body.enum (unit_variant "First" (some "FIRST_TAG") ∷ []))))

macro_tests_pass :
    (accepts_enum_without_variant_tags ≡ true)
    × (resolved_target ≡ some (applied "Adapter" (named "u64" ∷ [])))
    × (rejects_variant_tag ≡ true)
    × (rejects_variant_tag_expression ≡ true)
unfolding generate target_of target_resolved
macro_tests_pass = (refl, refl, refl, refl)
