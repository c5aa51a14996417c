-- ===== src/Tests/Refusing.antt =====
-- Any input and every order of calls: types, ends and cut inputs.
use wincode_dynamic.Prelude.{
  true, ◌++◌, ◌≡◌, refl, [], ◌∷◌, map, Option, none, some, checked_mul, if◌then◌else◌, leb, length,
  take, arith, ◌==◌, ◌⊎◌,
}
use wincode_dynamic.Wincode.{Bytes, Primitive, ReadResult, ok, Cow, ReadError, err}
use wincode_dynamic.Wincode.Slice.{ByteReader, slices, take_bytes, take_payload, write, le_bytes}
use wincode_dynamic.Wincode.Slice.Lawful.{slices_laws, slice}
use wincode_dynamic.PrimitiveTy
use wincode_dynamic.PrimitiveTy.{PrimitiveTy, DynPrimitiveTy, builtin, type_of}
use wincode_dynamic.Ty.{Ty, FieldType, type_of as ty_of}
use wincode_dynamic.Value.{Value, LazyVec}
use wincode_dynamic.Lazy.{
  vec_len, vec_ty, is_empty, has_borrowed_payload, into_dyn_vec, Iter, IntoIter, returns,
  try_iter_as, next, next_owned, iter_len, item_at, get_unchecked, ty_mismatch, new_unchecked,
  validate_element_type,
}
use wincode_dynamic.Lazy.Collect.{collect as drain, finished as drained}
use wincode_dynamic.Lazy.Vectors.{parse-collect}
use wincode_dynamic.Read.Uniform.{primitive_value_of}
use wincode_dynamic.Lazy.Safety.{IterIsSound, borrow_step}
use wincode_dynamic.Lazy.Steps.{Reaches, Step, parsed-never-faults, Reaches-end}
use wincode_dynamic.Parse.{parse}
use wincode_dynamic.Parse.Typed.{HasType, parse-HasType}
use wincode_dynamic.Parse.RoundTrip.{serialize}
use wincode_dynamic.Fields.{Fields, next as next_item, len}
use wincode_dynamic.Fields.RoundTrip.{row_def, encode_rows}
use wincode_dynamic.Fields.Steps.{calls, yielded, calls-exhaust}
use wincode_dynamic.Decoder.{decoder, fields as decode_fields}
use wincode_dynamic.Decoder.RoundTrip.{encode}
use wincode_dynamic.Decoder.Total.{DefsOf, Ends, decode-Ends}
use wincode_dynamic.Tests.Data.{
  event_root, pair_vec, message_rows, message, message_root, message-IsWritable, trailer,
}
use wincode_dynamic.Decoder.Cut.{Refuses, refuse-encode_cut}

abbrev pair_input : ByteReader
pair_input = slice (1 ∷ 0 ∷ 2 ∷ 0 ∷ trailer)

parse_pair : (parse slices (Ty.array PrimitiveTy.u16 2) pair_input).0 ≡ ok (Value.vec pair_vec)
unfolding parse new_unchecked take_payload take_bytes PrimitiveTy.size checked_mul
parse_pair = refl

parse-HasType_example : HasType (Ty.array PrimitiveTy.u16 2) (Value.vec pair_vec)
parse-HasType_example =
    parse-HasType slices slices_laws (Ty.array PrimitiveTy.u16 2) pair_input (Value.vec pair_vec)
      parse_pair

-- A type of another crate that takes two bytes and says that it is a `u16`, with a `get` of its own.
abbrev pair_of_bytes : DynPrimitiveTy
pair_of_bytes = record { Item = Bytes; ty = PrimitiveTy.u16; size = 2 }

abbrev get_pair : Bytes → ReadResult Bytes
get_pair slice = if leb 2 (length slice) then ok (take 2 slice) else err (ReadError.other 0)

-- One that says so and takes eight bytes.
abbrev too_wide : DynPrimitiveTy
too_wide = record { Item = Bytes; ty = PrimitiveTy.u16; size = 8 }

abbrev pair_iter : Iter pair_of_bytes
pair_iter = record { payload = 1 ∷ 0 ∷ 2 ∷ 0 ∷ []; len = 2; index = 0 }

abbrev last_iter : Iter pair_of_bytes
last_iter = record pair_iter { index = 1 }

abbrev owning_last : IntoIter pair_of_bytes
owning_last = record { payload = Cow.borrowed (1 ∷ 0 ∷ 2 ∷ 0 ∷ []); len = 2; index = 1 }

pair_iter_given : try_iter_as pair_of_bytes pair_vec ≡ ok pair_iter
unfolding try_iter_as validate_element_type PrimitiveTy.size PrimitiveTy.eq
pair_iter_given = refl

too_wide_refused : try_iter_as too_wide pair_vec ≡ err ty_mismatch
unfolding try_iter_as validate_element_type PrimitiveTy.size PrimitiveTy.eq PrimitiveTy.discriminant
too_wide_refused = refl

pair_iter-Reaches : Reaches pair_of_bytes get_pair pair_iter last_iter
unfolding next checked_mul item_at get_unchecked
pair_iter-Reaches = Reaches.later Reaches.here (Step.call (some (ok (1 ∷ 0 ∷ []))) refl)

parsed-never-faults_example :
    (o : Option (ReadResult Bytes)) × (u : Iter pair_of_bytes) × (next pair_of_bytes get_pair
        last_iter
      ≡ returns (o, u))
    × (borrow_step (next_owned pair_of_bytes get_pair owning_last) ≡ returns (o, u))
parsed-never-faults_example =
    parsed-never-faults pair_of_bytes get_pair slices slices_laws (Ty.array PrimitiveTy.u16 2)
      pair_input pair_vec pair_iter last_iter owning_last parse_pair pair_iter_given
      pair_iter-Reaches refl

pair_iter-IterIsSound : IterIsSound pair_of_bytes pair_iter
pair_iter-IterIsSound = record {
  exact = refl;
  counted = omega arith;
  in_memory = omega arith;
  in_range = omega arith;
}

Reaches-end_example :
    (u : Iter pair_of_bytes) × Reaches pair_of_bytes get_pair last_iter u
    × (iter_len pair_of_bytes u ≡ 0)
    × (next pair_of_bytes get_pair u ≡ returns (none, u))
Reaches-end_example =
    Reaches-end pair_of_bytes get_pair pair_iter last_iter pair_iter-IterIsSound pair_iter-Reaches

-- A message of which two bytes have arrived.
refuse-encode_cut_example : Refuses slices slices_laws (decoder message_root) 3 (slice (7 ∷ 0 ∷ []))
unfolding encode encode_rows serialize write le_bytes
refuse-encode_cut_example =
    refuse-encode_cut slices slices_laws message_root message (slice (7 ∷ 0 ∷ [])) refl
      message-IsWritable (_, _, refl)

abbrev message_fields : Fields ByteReader
message_fields = record { fields = map row_def message_rows; reader = slice trailer }

-- Fields that are not in the input.
calls-exhaust_example :
    (yielded (calls slices 5 message_fields).0 ≡ len message_fields)
    × (len (calls slices 5 message_fields).1 ≡ 0)
    × (next_item slices (calls slices 5 message_fields).1
        ≡ (none, (calls slices 5 message_fields).1))
unfolding len
calls-exhaust_example = calls-exhaust slices 5 message_fields (omega arith)

abbrev numbers_input : ByteReader
numbers_input = slice (serialize slices (FieldType.vec Primitive.u32) (5 ∷ 6 ∷ []) ++ trailer)

u32-ne-u8 : Primitive.u32 ≡ Primitive.u8 → ⊥
u32-ne-u8 e = cc

parse-collect_example :
    (v : LazyVec) × ((parse slices (ty_of (FieldType.vec Primitive.u32)) numbers_input).0
      ≡ ok (Value.vec v))
    × (vec_len v ≡ 2)
    × (vec_ty v ≡ type_of Primitive.u32)
    × (is_empty v ≡ (2 == 0))
    × (has_borrowed_payload v ≡ true)
    × ((it : Iter (builtin Primitive.u32)) × (try_iter_as (builtin Primitive.u32) v ≡ ok it)
        × (drain slices Primitive.u32 3 it ≡ drained (ok (5 ∷ 6 ∷ []))))
    × (into_dyn_vec slices v ≡ ok (map (primitive_value_of Primitive.u32) (5 ∷ 6 ∷ [])))
parse-collect_example =
    parse-collect slices slices_laws Primitive.u32 (5 ∷ 6 ∷ []) numbers_input trailer u32-ne-u8
      (omega arith, (omega arith, tt)) (omega arith) refl

-- An event, and a byte behind it.
abbrev event_input : ByteReader
event_input = slice (1 ∷ 7 ∷ 0 ∷ 0 ∷ 0 ∷ trailer)

decode-Ends_example :
    ((x : ReadError) × (decode_fields slices (decoder event_root) event_input ≡ err x))
    ⊎ ((it : Fields ByteReader) × (decode_fields slices (decoder event_root) event_input ≡ ok it)
        × DefsOf event_root it.fields
        × Ends slices slices_laws it)
decode-Ends_example = decode-Ends slices slices_laws event_root event_input
