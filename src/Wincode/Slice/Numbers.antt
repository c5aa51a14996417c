-- ===== src/Wincode/Slice/Numbers.antt =====
-- The encodings of numbers in Slice.antt are read back.
use wincode_dynamic.Prelude.{
  ℕ, zero, suc, ◌/◌, ◌^◌, ◌<◌, ◌≡◌, refl, ap, ℤ, pos, negsuc, IsSigned, true, false, length, arith,
}
use wincode_dynamic.Wincode.{ok, Primitive, El, InRange, size_of}
use wincode_dynamic.Wincode.Slice.{
  le_bytes, le_value, to_word, of_word, of_bool, to_bool, write, interpret,
}

pub length-le_bytes : (k n : ℕ) → length (le_bytes k n) ≡ k
unfolding le_bytes
length-le_bytes zero n = refl
length-le_bytes (suc k) n = ap suc (length-le_bytes k (n / 256))

pub le_value-le_bytes : (k n : ℕ) → n < 256 ^ k → le_value (le_bytes k n) ≡ n
unfolding le_bytes le_value
le_value-le_bytes zero n h = omega arith
le_value-le_bytes (suc k) n h = omega (arith, le_value-le_bytes k (n / 256) (omega arith))

word_read :
    (k v : ℕ) (n : ℤ)
    → to_word k n ≡ v
    → v < 256 ^ k
    → of_word k v ≡ n
    → of_word k (le_value (le_bytes k (to_word k n))) ≡ n
word_read k v n e h same = rw (e, le_value-le_bytes k v h) same

word1 : (n : ℤ) → IsSigned (2 ^ 7) n → (to_word 1 n < 256 ^ 1) × (of_word 1 (to_word 1 n) ≡ n)
unfolding to_word of_word
word1 (pos n) h = (omega arith, ground arith)
word1 (negsuc n) h = (omega arith, ground arith)

word2 : (n : ℤ) → IsSigned (2 ^ 15) n → (to_word 2 n < 256 ^ 2) × (of_word 2 (to_word 2 n) ≡ n)
unfolding to_word of_word
word2 (pos n) h = (omega arith, ground arith)
word2 (negsuc n) h = (omega arith, ground arith)

word4 : (n : ℤ) → IsSigned (2 ^ 31) n → (to_word 4 n < 256 ^ 4) × (of_word 4 (to_word 4 n) ≡ n)
unfolding to_word of_word
word4 (pos n) h = (omega arith, ground arith)
word4 (negsuc n) h = (omega arith, ground arith)

word8 : (n : ℤ) → IsSigned (2 ^ 63) n → (to_word 8 n < 256 ^ 8) × (of_word 8 (to_word 8 n) ≡ n)
unfolding to_word of_word
word8 (pos n) h = (omega arith, ground arith)
word8 (negsuc n) h = (omega arith, ground arith)

-- The bytes of a value have the width of its type.
pub length-write : (A : Primitive) (a : El A) → length (write A a) ≡ size_of A
unfolding write size_of
length-write Primitive.u8 a = refl
length-write _ a = refl

-- A value in range is read back from its bytes.
pub interpret-write : (A : Primitive) (a : El A) → InRange A a → interpret A (write A a) ≡ ok a
unfolding write interpret
interpret-write Primitive.u8 a h = ap ok (omega arith)
interpret-write Primitive.u16 a h = ap ok (le_value-le_bytes 2 a (omega arith))
interpret-write Primitive.u32 a h = ap ok (le_value-le_bytes 4 a (omega arith))
interpret-write Primitive.u64 a h = ap ok (le_value-le_bytes 8 a (omega arith))
interpret-write Primitive.i8 a h = let (b, e) = word1 a h in ap ok (word_read 1 _ a refl b e)
interpret-write Primitive.i16 a h = let (b, e) = word2 a h in ap ok (word_read 2 _ a refl b e)
interpret-write Primitive.i32 a h = let (b, e) = word4 a h in ap ok (word_read 4 _ a refl b e)
interpret-write Primitive.i64 a h = let (b, e) = word8 a h in ap ok (word_read 8 _ a refl b e)
interpret-write Primitive.f32 a h = ap ok (le_value-le_bytes 4 a (omega arith))
interpret-write Primitive.f64 a h = ap ok (le_value-le_bytes 8 a (omega arith))
interpret-write Primitive.bool true h = unfold of_bool to_bool in refl
interpret-write Primitive.bool false h = unfold of_bool to_bool in refl
