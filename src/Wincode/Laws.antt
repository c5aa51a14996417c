-- ===== src/Wincode/Laws.antt =====
-- The documented behaviour of the `wincode` crate under `DefaultConfig` on which the theorems
-- rest. A value of `WincodeLaws` says what a reader holds and how the operations consume it.
use wincode_dynamic.Prelude.{
  IsStrictPrefix, ℕ, ◌*◌, ◌≤◌, ◌<◌, ◌≡◌, ◌∙◌, Bool, true, false, [], ◌∷◌, ◌++◌, length, usize_mod,
}
use wincode_dynamic.Wincode.{
  Wincode, Bytes, ReadResult, ReadError, ok, err, Cow, Primitive, El, size_of, InRange, TypeMeta,
}
use wincode_dynamic.Wincode.Monad.{IsErr, map_read, and_then, and_then_ok}

-- What a reader that can lend its backing bytes returns, and what any other returns.
abbrev pub cow : Bool → Bytes → Cow Bytes
cow true xs = Cow.borrowed xs
cow false xs = Cow.owned xs

-- The outcome of an operation that takes some bytes and leaves the reader at the rest.
abbrev pub Takes :
    {R A : Type 0} → (R → Bytes) → (R → Bool) → R → ReadResult A × R → A → Bytes → Type 0
Takes {R} {A} remaining borrows r p a rest =
    (p.0 ≡ ok a) × (remaining p.1 ≡ rest) × (borrows p.1 ≡ borrows r)

pub record WincodeLaws (w : Wincode) : Type 0 where
  -- The bytes that a reader has not consumed.
  pub remaining : w.Reader → Bytes
  pub remaining_trusted : w.Trusted → Bytes
  -- A byte slice holds its bytes and can lend them.
  pub remaining-from_slice : (xs : Bytes) → remaining (w.from_slice xs) ≡ xs
  pub from_slice_borrows : (xs : Bytes) → w.supports_borrow (w.from_slice xs) ≡ true
  -- The encodings are of the static size that the type metadata states.
  pub type_meta_size : (A : Primitive) → w.type_meta A ≡ TypeMeta.static (size_of A)
  pub length-put : (A : Primitive) (a : El A) → length (w.put A a) ≡ size_of A
  -- The result of reading a primitive depends on its own bytes only.
  pub get_local :
      (A : Primitive) (r : w.Reader) (xs rest : Bytes)
      → remaining r ≡ xs ++ rest
      → length xs ≡ size_of A
      → (w.get A r).0 ≡ (w.get A (w.from_slice xs)).0
  pub get_advance :
      (A : Primitive) (r : w.Reader) (xs rest : Bytes) (a : El A)
      → remaining r ≡ xs ++ rest
      → length xs ≡ size_of A
      → (w.get A r).0 ≡ ok a
      → remaining (w.get A r).1 ≡ rest
  pub get_borrows :
      (A : Primitive) (r : w.Reader) → w.supports_borrow (w.get A r).1 ≡ w.supports_borrow r
  pub get_short :
      (A : Primitive) (r : w.Reader) → length (remaining r) < size_of A → IsErr (w.get A r).0
  -- A trusted reader behaves so within the bytes that it was made for.
  pub get_trusted_local :
      (A : Primitive) (t : w.Trusted) (xs rest : Bytes)
      → remaining_trusted t ≡ xs ++ rest
      → length xs ≡ size_of A
      → (w.get_trusted A t).0 ≡ (w.get A (w.from_slice xs)).0
  pub get_trusted_advance :
      (A : Primitive) (t : w.Trusted) (xs rest : Bytes) (a : El A)
      → remaining_trusted t ≡ xs ++ rest
      → length xs ≡ size_of A
      → (w.get_trusted A t).0 ≡ ok a
      → remaining_trusted (w.get_trusted A t).1 ≡ rest
  -- What was written is read back.
  pub get-put :
      (A : Primitive) (a : El A) → InRange A a → (w.get A (w.from_slice (w.put A a))).0 ≡ ok a
  -- A byte is written as itself.
  pub put_u8 : (n : ℕ) → w.put Primitive.u8 n ≡ n ∷ []
  -- The length prefix.
  pub read_len-put_len :
      (n : ℕ) (r : w.Reader) (rest : Bytes)
      → n < usize_mod
      → remaining r ≡ w.put_len n ++ rest
      → Takes remaining w.supports_borrow r (w.read_len r) n rest
  -- A length prefix that is cut off is an error.
  pub read_len_cut :
      (n : ℕ) (r : w.Reader)
      → n < usize_mod
      → IsStrictPrefix (remaining r) (w.put_len n)
      → IsErr (w.read_len r).0
  -- A payload of a known length, borrowed where the reader can lend it.
  pub get_bytes_len_takes :
      (r : w.Reader) (xs rest : Bytes)
      → remaining r ≡ xs ++ rest
      → Takes remaining w.supports_borrow r
          (w.get_bytes_len (length xs) r)
          (cow (w.supports_borrow r) xs)
          rest
  pub get_bytes_len_short :
      (n : ℕ) (r : w.Reader) → length (remaining r) < n → IsErr (w.get_bytes_len n r).0
  -- Length-prefixed texts and byte vectors, within the preallocation limit.
  pub is_utf8 : Bytes → Bool
  pub get_str_takes :
      (r : w.Reader) (xs rest : Bytes)
      → is_utf8 xs ≡ true
      → length xs ≤ w.prealloc_limit
      → remaining r ≡ w.put_len (length xs) ++ (xs ++ rest)
      → Takes remaining w.supports_borrow r (w.get_str r) (cow (w.supports_borrow r) xs) rest
  pub get_bytes_takes :
      (r : w.Reader) (xs rest : Bytes)
      → length xs ≤ w.prealloc_limit
      → remaining r ≡ w.put_len (length xs) ++ (xs ++ rest)
      → Takes remaining w.supports_borrow r (w.get_bytes r) (cow (w.supports_borrow r) xs) rest
  -- A text or a byte vector that is cut off is an error.
  pub get_str_cut :
      (r : w.Reader) (xs : Bytes)
      → length xs ≤ w.prealloc_limit
      → IsStrictPrefix (remaining r) (w.put_len (length xs) ++ xs)
      → IsErr (w.get_str r).0
  pub get_bytes_cut :
      (r : w.Reader) (xs : Bytes)
      → length xs ≤ w.prealloc_limit
      → IsStrictPrefix (remaining r) (w.put_len (length xs) ++ xs)
      → IsErr (w.get_bytes r).0
  -- The preallocation check compares the bytes that are needed with the limit.
  pub prealloc_limit_bound : w.prealloc_limit < usize_mod
  pub prealloc_check_fits :
      (size len : ℕ) → len * size ≤ w.prealloc_limit → w.prealloc_check size len ≡ ok tt
  pub prealloc_check_exceeds :
      (size len : ℕ)
      → w.prealloc_limit < len * size
      → len * size < usize_mod
      → w.prealloc_check size len
        ≡ err (ReadError.preallocation_size_limit (len * size) w.prealloc_limit)
  -- A trusted reader for a sequence covers exactly its bytes, and the parent moves past them.
  pub as_trusted_for_seq_covers :
      (len size : ℕ) (r : w.Reader) (xs rest : Bytes)
      → remaining r ≡ xs ++ rest
      → length xs ≡ len * size
      → (t : w.Trusted) × ((w.as_trusted_for_seq len size r).0 ≡ ok t)
        × (remaining_trusted t ≡ xs)
        × (remaining (w.as_trusted_for_seq len size r).1 ≡ rest)
  pub as_trusted_for_seq_short :
      (len size : ℕ) (r : w.Reader)
      → length (remaining r) < len * size
      → IsErr (w.as_trusted_for_seq len size r).0

-- The same outcome with the value mapped.
pub Takes-map_read :
    {R A B : Type 0} (remaining : R → Bytes) (borrows : R → Bool) (f : A → B) (r : R)
    (p : ReadResult A × R) {a : A} {rest : Bytes}
    → Takes remaining borrows r p a rest
    → Takes remaining borrows r (map_read f p) (f a) rest
Takes-map_read remaining borrows f r (ok a', r') (e, l, b) = (cc, l, b)
Takes-map_read remaining borrows f r (err x, r') (e, l, b) = cc

-- A step that takes some bytes, and a step that takes more.
pub Takes-and_then :
    {R A B : Type 0} (remaining : R → Bytes) (borrows : R → Bool) (r : R) (p : ReadResult A × R)
    (k : A → R → ReadResult B × R) {a : A} {b : B} {middle rest : Bytes}
    → Takes remaining borrows r p a middle
    → Takes remaining borrows p.1 (k a p.1) b rest
    → Takes remaining borrows r (and_then p k) b rest
Takes-and_then remaining borrows r p k (e, l, h) (e', l', h') =
    rw (and_then_ok p k e) (e', l', h' ∙ h)
