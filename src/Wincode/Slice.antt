-- ===== src/Wincode/Slice.antt =====
-- A concrete interpretation of the interface to `wincode`, over a list of bytes: integers are
-- little-endian, a length prefix takes eight bytes, and texts are ASCII. It shows that the laws can
-- hold, and serves the tests.
pub mod Numbers
pub mod Lawful
use wincode_dynamic.Prelude.{
  ℕ, zero, suc, ◌+◌, ◌-◌, ◌*◌, ◌/◌, ◌%◌, ◌^◌, ℤ, pos, negsuc, Bool, true, false, ◌&&◌, [], ◌∷◌, ltb,
  leb, if◌then◌else◌, length, take, drop,
}
use wincode_dynamic.Wincode.{
  Wincode, Bytes, Read, ReadResult, ReadError, ok, err, Cow, Primitive, El, size_of, TypeMeta,
}
use wincode_dynamic.Wincode.Monad.{and_then}
use wincode_dynamic.Wincode.Laws.{cow}

-- A slice lends its bytes, a cursor over a vector does not.
pub record ByteReader : Type 0 where
  pub bytes : Bytes
  pub backing : Bool

unfoldable pub le_bytes : ℕ → ℕ → Bytes
le_bytes zero n = []
le_bytes (suc k) n = (n % 256) ∷ le_bytes k (n / 256)

unfoldable pub le_value : Bytes → ℕ
le_value [] = 0
le_value (b ∷ bs) = b + 256 * le_value bs

-- Two's complement in `k` bytes.
unfoldable pub to_word : ℕ → ℤ → ℕ
to_word k (pos n) = n
to_word k (negsuc n) = 256 ^ k - 1 - n

unfoldable pub of_word : ℕ → ℕ → ℤ
of_word k v = if ltb v (128 * 256 ^ (k - 1)) then pos v else negsuc (256 ^ k - 1 - v)

unfoldable pub of_bool : Bool → ℕ
of_bool true = 1
of_bool false = 0

unfoldable pub to_bool : ℕ → ReadResult Bool
to_bool zero = ok false
to_bool (suc zero) = ok true
to_bool n = err (ReadError.invalid_bool_encoding n)

unfoldable pub write : (A : Primitive) → El A → Bytes
unfolding le_bytes to_word of_bool
write Primitive.u8 n = n ∷ []
write Primitive.u16 n = le_bytes 2 n
write Primitive.u32 n = le_bytes 4 n
write Primitive.u64 n = le_bytes 8 n
write Primitive.i8 n = le_bytes 1 (to_word 1 n)
write Primitive.i16 n = le_bytes 2 (to_word 2 n)
write Primitive.i32 n = le_bytes 4 (to_word 4 n)
write Primitive.i64 n = le_bytes 8 (to_word 8 n)
write Primitive.f32 n = le_bytes 4 n
write Primitive.f64 n = le_bytes 8 n
write Primitive.bool b = le_bytes 1 (of_bool b)

unfoldable pub interpret : (A : Primitive) → Bytes → ReadResult (El A)
unfolding le_value of_word to_bool
interpret Primitive.u8 xs = ok (le_value xs)
interpret Primitive.u16 xs = ok (le_value xs)
interpret Primitive.u32 xs = ok (le_value xs)
interpret Primitive.u64 xs = ok (le_value xs)
interpret Primitive.i8 xs = ok (of_word 1 (le_value xs))
interpret Primitive.i16 xs = ok (of_word 2 (le_value xs))
interpret Primitive.i32 xs = ok (of_word 4 (le_value xs))
interpret Primitive.i64 xs = ok (of_word 8 (le_value xs))
interpret Primitive.f32 xs = ok (le_value xs)
interpret Primitive.f64 xs = ok (le_value xs)
interpret Primitive.bool xs = to_bool (le_value xs)

abbrev pub end_of_input : ReadError
end_of_input = ReadError.other 0

-- The next `n` bytes, given to `f`.
unfoldable pub take_bytes {ℓ} :
    {A : Type ℓ} → ℕ → (Bytes → ReadResult A) → ByteReader → ReadResult A × ByteReader
take_bytes n f r =
    if leb n (length r.bytes)
    then (f (take n r.bytes), record r { bytes = drop n r.bytes })
    else (err end_of_input, r)

unfoldable pub take_len : Read ByteReader ℕ
unfolding take_bytes le_value
take_len = take_bytes 8 (λ xs. ok (le_value xs))

unfoldable pub take_payload : ℕ → Read ByteReader (Cow Bytes)
unfolding take_bytes
take_payload n r = take_bytes n (λ xs. ok (cow r.backing xs)) r

unfoldable pub is_ascii : Bytes → Bool
is_ascii [] = true
is_ascii (b ∷ bs) = ltb b 128 && is_ascii bs

unfoldable pub check_text : Bool → Bytes → ReadResult (Cow Bytes)
unfolding is_ascii
check_text backing xs = if is_ascii xs then ok (cow backing xs) else err (ReadError.other 1)

unfoldable pub take_text : Read ByteReader (Cow Bytes)
unfolding take_len take_bytes check_text
take_text r = and_then (take_len r) (λ n r'. take_bytes n (check_text r'.backing) r')

unfoldable pub check_limit : ℕ → ℕ → ReadResult (Unit {0})
check_limit size len =
    if leb (len * size) 4194304
    then ok tt
    else err (ReadError.preallocation_size_limit (len * size) 4194304)

abbrev pub slices : Wincode
slices = record {
  Reader = ByteReader;
  Trusted = ByteReader;
  from_slice = λ xs. record { bytes = xs; backing = true };
  supports_borrow = λ r. r.backing;
  get = λ A. take_bytes (size_of A) (interpret A);
  get_trusted = λ A. take_bytes (size_of A) (interpret A);
  get_str = take_text;
  get_bytes = λ r. and_then (take_len r) take_payload;
  get_bytes_len = take_payload;
  read_len = take_len;
  as_trusted_for_seq =
      λ len size. take_bytes (len * size) (λ xs. ok (record { bytes = xs; backing = true }));
  prealloc_check = check_limit;
  type_meta = λ A. TypeMeta.static (size_of A);
  prealloc_limit = 4194304;
  put = write;
  put_len = le_bytes 8;
}
