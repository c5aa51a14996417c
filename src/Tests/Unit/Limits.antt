-- ===== src/Tests/Unit/Limits.antt =====
-- The tests of the preallocation limit in wincode-dynamic/src/lib.rs.
use wincode_dynamic.Prelude.{
  ℕ, zero, suc, ◌+◌, ◌*◌, ◌/◌, ◌≡◌, ◌==◌, refl, Bool, true, false, ◌&&◌, [], ◌∷◌, checked_mul,
}
use wincode_dynamic.Wincode.{Bytes, Cow, ReadError, ReadResult, err}
use wincode_dynamic.Wincode.Slice.{ByteReader, slices, take_len, le_bytes, check_limit}
use wincode_dynamic.PrimitiveTy
use wincode_dynamic.PrimitiveTy.{PrimitiveTy}
use wincode_dynamic.Ty.{Ty}
use wincode_dynamic.Read.{size_of_primitive_value}
use wincode_dynamic.Lazy.{new_unchecked, into_dyn_vec}
use wincode_dynamic.Parse.{parse}

-- `ReadError::PreallocationSizeLimit { needed, limit }` with the expected numbers.
abbrev exceeds_limit : {A : Type 0} → ℕ → ReadResult A → Bool
exceeds_limit needed (err (ReadError.preallocation_size_limit n limit)) =
    (n == needed) && (limit == slices.prealloc_limit)
exceeds_limit needed _ = false

abbrev cursor : Bytes → ByteReader
cursor xs = record { bytes = xs; backing = false }

-- One element more than the limit allows.
abbrev too_many : ℕ
too_many = slices.prealloc_limit / PrimitiveTy.size PrimitiveTy.u64 + 1

abbrev owned_lazy_payloads_enforce_the_byte_preallocation_limit : Bool
owned_lazy_payloads_enforce_the_byte_preallocation_limit =
    exceeds_limit (too_many * PrimitiveTy.size PrimitiveTy.u64)
      (parse slices (Ty.vec PrimitiveTy.u64) (cursor (slices.put_len too_many))).0
    && exceeds_limit (too_many * PrimitiveTy.size PrimitiveTy.u64)
        (parse slices (Ty.array PrimitiveTy.u64 too_many) (cursor [])).0

-- `vec![0; len]`
abbrev zeros : ℕ → Bytes
zeros zero = []
zeros (suc n) = 0 ∷ zeros n

abbrev too_many_decoded : ℕ
too_many_decoded = slices.prealloc_limit / size_of_primitive_value + 1

abbrev dynamic_lazy_decode_enforces_its_allocation_limit : Bool
dynamic_lazy_decode_enforces_its_allocation_limit =
    exceeds_limit (too_many_decoded * size_of_primitive_value) (
      into_dyn_vec slices
        (new_unchecked PrimitiveTy.u8 too_many_decoded (Cow.owned (zeros too_many_decoded))))

limit_tests_pass :
    (owned_lazy_payloads_enforce_the_byte_preallocation_limit ≡ true)
    × (dynamic_lazy_decode_enforces_its_allocation_limit ≡ true)
unfolding parse new_unchecked into_dyn_vec PrimitiveTy.size take_len le_bytes checked_mul
    check_limit
limit_tests_pass = (refl, refl)
