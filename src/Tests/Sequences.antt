-- ===== src/Tests/Sequences.antt =====
-- Sequences of elements, eager and lazy.
use wincode_dynamic.Prelude.{
  usize_mod, ℕ, if◌then◌else◌, ◌+◌, ◌≡◌, ◌↔◌, ◌==◌, refl, List, [], ◌∷◌, ◌++◌, map, Option, some,
  none, arith,
}
use wincode_dynamic.Wincode.{Bytes, Primitive, El, ReadResult, ok, Cow, size_of}
use wincode_dynamic.Wincode.Monad.{map_result}
use wincode_dynamic.Wincode.Facts.{put_all}
use wincode_dynamic.Wincode.Slice.{slices, take_bytes, interpret, le_value}
use wincode_dynamic.Wincode.Slice.Lawful.{slices_laws, slice}
use wincode_dynamic.PrimitiveTy.{PrimitiveTy, builtin, type_of, size}
use wincode_dynamic.Value.{LazyVec}
use wincode_dynamic.LenMap.{read_len_map}
use wincode_dynamic.LenMap.Loop.{prepend, decode_elements}
use wincode_dynamic.LenMap.Sequence.{read_len_map_lem}
use wincode_dynamic.LenMap.Raw.{Mapper, Ended, read_with_context}
use wincode_dynamic.LenMap.Unwind.{laid_out, list_read, read_with_context_lem}
use wincode_dynamic.Read.Uniform.{primitive_value_of}
use wincode_dynamic.Lazy.{
  get_slice, Iter, IntoIter, returns, try_iter_as, into_dyn_vec, next, iter_len, new_unchecked,
}
use wincode_dynamic.Lazy.Safety.{IsSound, IterIsSound, count, next_safe}
use wincode_dynamic.Lazy.Collect.{collect, finished, collect-into_dyn_vec}

-- Two Booleans and a byte that is none.
abbrev flags : Bytes
flags = 1 ∷ 0 ∷ 2 ∷ []

abbrev flags_vec : LazyVec
flags_vec = record { ty = PrimitiveTy.bool; payload = Cow.borrowed flags; len = 3 }

abbrev flags_iter : Iter (builtin Primitive.bool)
flags_iter = record { payload = flags; len = 3; index = 1 }

flags_vec-IsSound : IsSound flags_vec
unfolding size
flags_vec-IsSound = record { exact = refl; in_memory = omega arith }

flags_iter-IterIsSound : IterIsSound (builtin Primitive.bool) flags_iter
unfolding size_of
flags_iter-IterIsSound = record {
  exact = refl;
  counted = omega arith;
  in_memory = omega arith;
  in_range = omega arith;
}

new_flags-IsSound : IsSound (new_unchecked (type_of Primitive.bool) 3 (Cow.borrowed flags))
unfolding new_unchecked type_of
new_flags-IsSound = flags_vec-IsSound

collect-into_dyn_vec_example :
    (it : Iter (builtin Primitive.bool)) × (m : ReadResult (List (El Primitive.bool)))
    × (try_iter_as
          (builtin Primitive.bool)
          (new_unchecked (type_of Primitive.bool) 3 (Cow.borrowed flags))
        ≡ ok it)
    × (collect slices Primitive.bool 4 it ≡ finished m)
    × (into_dyn_vec slices (new_unchecked (type_of Primitive.bool) 3 (Cow.borrowed flags))
        ≡ map_result (map (primitive_value_of Primitive.bool)) m)
collect-into_dyn_vec_example =
    collect-into_dyn_vec slices slices_laws Primitive.bool 3 (Cow.borrowed flags) new_flags-IsSound
      (omega arith)

abbrev numbers : Bytes
numbers = put_all slices Primitive.u32 (5 ∷ 6 ∷ [])

next_safe_example :
    (o : Option (ReadResult (El Primitive.bool))) × (it : Iter (builtin Primitive.bool)) × (next
        (builtin Primitive.bool)
        (get_slice slices Primitive.bool)
        flags_iter
      ≡ returns (o, it))
    × IterIsSound (builtin Primitive.bool) it
    × (iter_len (builtin Primitive.bool) flags_iter
        ≡ iter_len (builtin Primitive.bool) it + count o)
    × ((o ≡ none) ↔ (iter_len (builtin Primitive.bool) flags_iter ≡ 0))
next_safe_example =
    next_safe (builtin Primitive.bool) (get_slice slices Primitive.bool) flags_iter
      flags_iter-IterIsSound

abbrev owning_iter : IntoIter (builtin Primitive.bool)
owning_iter = record { payload = Cow.owned flags; len = 3; index = 1 }

read_len_map_lem_example :
    ((read_len_map slices Primitive.bool 3
        (primitive_value_of Primitive.bool)
        (slice (flags ++ (9 ∷ [])))).0
      ≡ prepend []
          (primitive_value_of Primitive.bool)
          (decode_elements slices Primitive.bool 3 flags))
    × ((read_len_map slices Primitive.bool 3
          (primitive_value_of Primitive.bool)
          (slice (flags ++ (9 ∷ [])))).1.bytes
        ≡ 9 ∷ [])
unfolding size_of
read_len_map_lem_example =
    read_len_map_lem slices slices_laws Primitive.bool 3 (primitive_value_of Primitive.bool)
      (slice (flags ++ (9 ∷ []))) flags (9 ∷ []) refl refl

-- A mapping function that counts its calls and panics in the third.
abbrev panics_third : Mapper ℕ ℕ ℕ
panics_third a n = (if n == 2 then none else some a, n + 1)

read_with_context_lem_example :
    read_with_context slices Primitive.u8 1 3 panics_third 0 (slice (1 ∷ 2 ∷ 3 ∷ []))
    ≡ laid_out (list_read slices Primitive.u8 1 3 panics_third 0 (slice (1 ∷ 2 ∷ 3 ∷ [])))
read_with_context_lem_example =
    read_with_context_lem slices Primitive.u8 3 1 panics_third 0 (slice (1 ∷ 2 ∷ 3 ∷ []))

-- The two elements that were mapped before the panic are dropped.
drops_initialized_values :
    (read_with_context slices Primitive.u8 1 3 panics_third 0 (slice (1 ∷ 2 ∷ 3 ∷ []))).0
    ≡ Ended.unwound (1 ∷ 2 ∷ [])
unfolding read_with_context take_bytes interpret le_value size_of
drops_initialized_values = refl

-- Elements that no allocation holds: nothing is read and nothing is dropped.
capacity_overflow :
    (read_with_context slices Primitive.u8 8 usize_mod panics_third 0 (slice (1 ∷ []))).0
    ≡ Ended.unwound []
unfolding read_with_context
capacity_overflow = refl
