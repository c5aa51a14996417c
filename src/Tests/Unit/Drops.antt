-- ===== src/Tests/Unit/Drops.antt =====
-- The tests of wincode-dynamic/src/wincode_extra.rs.
use wincode_dynamic.Prelude.{
  ℕ, ◌+◌, ◌-◌, ◌≡◌, ◌==◌, refl, Bool, true, false, ◌&&◌, List, [], ◌∷◌, none, some, if◌then◌else◌,
  length,
}
use wincode_dynamic.Wincode.{Wincode, Primitive, ReadError, TypeMeta, size_of}
use wincode_dynamic.Wincode.Slice.{slices, take_bytes, interpret, le_value, to_bool}
use wincode_dynamic.Wincode.Slice.Lawful.{slice}
use wincode_dynamic.LenMap.Raw.{Mapper, Ended, read_with_context}

-- `DynamicU8`, whose `TYPE_META` is the one that the trait gives by default.
abbrev dynamic_u8 : Wincode
dynamic_u8 = record slices { type_meta = λ A. TypeMeta.dynamic }

-- `DropSpy`, a reference of eight bytes: a value, of which it is counted how often it is dropped.
abbrev DropSpy : Type 0
DropSpy = ℕ

-- `result.is_err()` of the operation, and of `catch_unwind`.
abbrev is_read_error : Ended DropSpy → Bool
is_read_error (Ended.failed e spies) = true
is_read_error _ = false

abbrev is_panic : Ended DropSpy → Bool
is_panic (Ended.unwound spies) = true
is_panic _ = false

-- The spies that the operation dropped.
abbrev dropped : Ended DropSpy → List DropSpy
dropped (Ended.failed e spies) = spies
dropped (Ended.unwound spies) = spies
dropped _ = []

abbrev spy : {A : Type 0} → Mapper ℕ A DropSpy
spy a calls = (some 0, calls + 1)

abbrev len_map_drops_initialized_values_on_read_error : Bool
len_map_drops_initialized_values_on_read_error =
    let (result, _, _) = read_with_context dynamic_u8 Primitive.u8 8 3 spy 0 (slice (1 ∷ 2 ∷ [])) in
    is_read_error result && (length (dropped result) == 2)

-- `assert_ne!(calls.get(), 3)` after the call is counted.
abbrev panics_in_third_call : {A : Type 0} → Mapper ℕ A DropSpy
panics_in_third_call a calls = (if calls + 1 == 3 then none else some 0, calls + 1)

abbrev len_map_drops_initialized_values_when_mapper_panics : Bool
len_map_drops_initialized_values_when_mapper_panics =
    let (result, _, _) =
      read_with_context dynamic_u8 Primitive.u8 8 3 panics_in_third_call 0
        (slice (1 ∷ 2 ∷ 3 ∷ [])) in
    is_panic result && (length (dropped result) == 2)

abbrev is_invalid_bool : Ended DropSpy → Bool
is_invalid_bool (Ended.failed (ReadError.invalid_bool_encoding n) spies) = n == 2
is_invalid_bool _ = false

abbrev static_len_map_drops_initialized_values_on_read_error : Bool
static_len_map_drops_initialized_values_on_read_error =
    let (result, _, _) = read_with_context slices Primitive.bool 8 2 spy 0 (slice (1 ∷ 2 ∷ [])) in
    is_invalid_bool result && (length (dropped result) == 1)

-- `assert_ne!(value, 3)`, and the spy of the value's own cell.
abbrev panics_on_three : Mapper ℕ ℕ DropSpy
panics_on_three n calls = (if n == 3 then none else some (n - 1), calls + 1)

-- How often a cell's spy was dropped.
abbrev drops_of : ℕ → List DropSpy → ℕ
drops_of cell [] = 0
drops_of cell (spy ∷ spies) = (if spy == cell then 1 else 0) + drops_of cell spies

abbrev static_len_map_drops_each_initialized_value_when_mapper_panics : Bool
static_len_map_drops_each_initialized_value_when_mapper_panics =
    let (result, _, _) =
      read_with_context slices Primitive.u8 8 3 panics_on_three 0 (slice (1 ∷ 2 ∷ 3 ∷ [])) in
    is_panic result
    && ((drops_of 0 (dropped result) == 1)
        && ((drops_of 1 (dropped result) == 1) && (drops_of 2 (dropped result) == 0)))

drop_tests_pass :
    (len_map_drops_initialized_values_on_read_error ≡ true)
    × (len_map_drops_initialized_values_when_mapper_panics ≡ true)
    × (static_len_map_drops_initialized_values_on_read_error ≡ true)
    × (static_len_map_drops_each_initialized_value_when_mapper_panics ≡ true)
unfolding read_with_context take_bytes interpret le_value to_bool size_of
drop_tests_pass = (refl, refl, refl, refl)
