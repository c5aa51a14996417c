-- ===== src/Wincode/Slice/Lawful.antt =====
-- The laws of `wincode` hold in the interpretation of Slice.antt.
use wincode_dynamic.Prelude.{
  IsStrictPrefix, IsStrictPrefix-cases, length-IsStrictPrefix, inl, inr, ℕ, ◌*◌, ◌≤◌, ◌<◌, ◌≡◌,
  refl, sym, ap, ◌∙◌, true, [], ◌∷◌, ◌++◌, le→leb, lt→leb_false, length, length-append, take, drop,
  take-append, drop-append, append-nil, usize_mod, arith,
}
use wincode_dynamic.Wincode.{Bytes, ReadResult, ReadError, ok, err, Primitive, El, size_of, InRange}
use wincode_dynamic.Wincode.Monad.{and_then-IsErr_fst, and_then_ok, IsErr, and_then}
use wincode_dynamic.Wincode.Laws.{WincodeLaws, Takes, Takes-and_then, cow}
use wincode_dynamic.Wincode.Slice.{
  ByteReader, take_bytes, take_len, take_payload, take_text, check_text, is_ascii, interpret, write,
  le_bytes, le_value, check_limit, slices, end_of_input,
}
use wincode_dynamic.Wincode.Slice.Numbers.{
  length-le_bytes, le_value-le_bytes, length-write, interpret-write,
}

-- Where the bytes are there, they are taken and the rest is left.
pub take_bytes_lem {ℓ} :
    {A : Type ℓ} (n : ℕ) (f : Bytes → ReadResult A) (r : ByteReader) (xs rest : Bytes)
    → r.bytes ≡ xs ++ rest
    → length xs ≡ n
    → take_bytes n f r ≡ (f xs, record r { bytes = rest })
unfolding take_bytes
take_bytes_lem n f r xs rest e h =
    let enough : n ≤ length r.bytes = rw e (omega (arith, length-append xs rest)) in
    let front : take n r.bytes ≡ xs = rw (e, ← h) (take-append xs rest) in
    let back : drop n r.bytes ≡ rest = rw (e, ← h) (drop-append xs rest) in
    rw (le→leb n (length r.bytes) enough, front, back)

pub take_bytes_short {ℓ} :
    {A : Type ℓ} (n : ℕ) (f : Bytes → ReadResult A) (r : ByteReader)
    → length r.bytes < n
    → take_bytes n f r ≡ (err end_of_input, r)
unfolding take_bytes
take_bytes_short n f r h = rw (lt→leb_false n (length r.bytes) h)

pub take_bytes_backing {ℓ} :
    {A : Type ℓ} (n : ℕ) (f : Bytes → ReadResult A) (r : ByteReader)
    → (take_bytes n f r).1.backing ≡ r.backing
unfolding take_bytes
take_bytes_backing n f r = ground arith

abbrev pub slice : Bytes → ByteReader
slice xs = record { bytes = xs; backing = true }

pub take_bytes_local {ℓ} :
    {A : Type ℓ} (n : ℕ) (f : Bytes → ReadResult A) (r : ByteReader) (xs rest : Bytes)
    → r.bytes ≡ xs ++ rest
    → length xs ≡ n
    → (take_bytes n f r).0 ≡ (take_bytes n f (slice xs)).0
take_bytes_local n f r xs rest e h =
    ap (λ p. p.0) (take_bytes_lem n f r xs rest e h)
    ∙ sym (ap (λ p. p.0) (take_bytes_lem n f (slice xs) xs [] (sym (append-nil xs)) h))

pub take_bytes_advance {ℓ} :
    {A : Type ℓ} (n : ℕ) (f : Bytes → ReadResult A) (r : ByteReader) (xs rest : Bytes) (a : A)
    → r.bytes ≡ xs ++ rest
    → length xs ≡ n
    → (take_bytes n f r).0 ≡ ok a
    → (take_bytes n f r).1.bytes ≡ rest
take_bytes_advance n f r xs rest a e h _ = ap (λ p. p.1.bytes) (take_bytes_lem n f r xs rest e h)

pub take_bytes-Takes :
    {A : Type 0} (n : ℕ) (f : Bytes → ReadResult A) (r : ByteReader) (xs rest : Bytes) {a : A}
    → r.bytes ≡ xs ++ rest
    → length xs ≡ n
    → f xs ≡ ok a
    → Takes (λ r. r.bytes) (λ r. r.backing) r (take_bytes n f r) a rest
take_bytes-Takes n f r xs rest e h same =
    let run = take_bytes_lem n f r xs rest e h in
    (ap (λ p. p.0) run ∙ same, ap (λ p. p.1.bytes) run, ap (λ p. p.1.backing) run)

pub take_bytes-IsErr {ℓ} :
    {A : Type ℓ} (n : ℕ) (f : Bytes → ReadResult A) (r : ByteReader)
    → length r.bytes < n
    → IsErr (take_bytes n f r).0
take_bytes-IsErr n f r h = rw (take_bytes_short n f r h) tt

pub take_len_lem :
    (n : ℕ) (r : ByteReader) (rest : Bytes)
    → n < usize_mod
    → r.bytes ≡ le_bytes 8 n ++ rest
    → Takes (λ r. r.bytes) (λ r. r.backing) r (take_len r) n rest
unfolding take_len
take_len_lem n r rest h e =
    take_bytes-Takes 8 (λ xs. ok (le_value xs)) r (le_bytes 8 n) rest e (length-le_bytes 8 n)
      (ap ok (le_value-le_bytes 8 n (omega arith)))

pub take_payload-Takes :
    (r : ByteReader) (xs rest : Bytes)
    → r.bytes ≡ xs ++ rest
    → Takes (λ r. r.bytes) (λ r. r.backing) r (take_payload (length xs) r) (cow r.backing xs) rest
unfolding take_payload
take_payload-Takes r xs rest e =
    take_bytes-Takes (length xs) (λ ys. ok (cow r.backing ys)) r xs rest e refl refl

-- A length prefix and then so many bytes.
pub prefixed :
    {A : Type 0} (f : ByteReader → Bytes → ReadResult A) (r : ByteReader) (xs rest : Bytes) {a : A}
    → length xs < usize_mod
    → r.bytes ≡ le_bytes 8 (length xs) ++ (xs ++ rest)
    → ((r' : ByteReader) → r'.backing ≡ r.backing → f r' xs ≡ ok a)
    → Takes
        (λ r. r.bytes)
        (λ r. r.backing)
        r
        (and_then (take_len r) (λ n r'. take_bytes n (f r') r'))
        a
        rest
prefixed f r xs rest h e same =
    let (read, left, backing) = take_len_lem (length xs) r (xs ++ rest) h e in
    Takes-and_then (λ r. r.bytes) (λ r. r.backing) r (take_len r) _ (read, left, backing)
      (take_bytes-Takes (length xs) _ (take_len r).1 xs rest left refl
        (same (take_len r).1 backing))

pub get_write :
    (A : Primitive) (a : El A)
    → InRange A a
    → (take_bytes (size_of A) (interpret A) (slice (write A a))).0 ≡ ok a
get_write A a h =
    ap (λ p. p.0)
      (take_bytes_lem (size_of A) (interpret A) (slice (write A a)) (write A a) []
        (sym (append-nil (write A a))) (length-write A a))
    ∙ interpret-write A a h

pub write_u8 : (n : ℕ) → write Primitive.u8 n ≡ n ∷ []
unfolding write
write_u8 n = refl

pub take_payload-IsErr : (n : ℕ) (r : ByteReader) → length r.bytes < n → IsErr (take_payload n r).0
unfolding take_payload
take_payload-IsErr n r h = take_bytes-IsErr n (λ xs. ok (cow r.backing xs)) r h

pub text-Takes :
    (r : ByteReader) (xs rest : Bytes)
    → is_ascii xs ≡ true
    → length xs ≤ 4194304
    → r.bytes ≡ le_bytes 8 (length xs) ++ (xs ++ rest)
    → Takes (λ r. r.bytes) (λ r. r.backing) r (take_text r) (cow r.backing xs) rest
unfolding take_text check_text
text-Takes r xs rest a h e =
    prefixed (λ r'. check_text r'.backing) r xs rest (omega arith) e (λ r' same. rw (a, same))

pub bytes-Takes :
    (r : ByteReader) (xs rest : Bytes)
    → length xs ≤ 4194304
    → r.bytes ≡ le_bytes 8 (length xs) ++ (xs ++ rest)
    → Takes
        (λ r. r.bytes)
        (λ r. r.backing)
        r
        (and_then (take_len r) take_payload)
        (cow r.backing xs)
        rest
unfolding take_payload
bytes-Takes r xs rest h e =
    prefixed (λ r' ys. ok (cow r'.backing ys)) r xs rest (omega arith) e (λ r' same. rw same)

pub limit_bound : 4194304 < usize_mod
limit_bound = omega arith

pub check_limit_fits : (size len : ℕ) → len * size ≤ 4194304 → check_limit size len ≡ ok tt
unfolding check_limit
check_limit_fits size len h = rw (le→leb (len * size) 4194304 h)

pub check_limit_exceeds :
    (size len : ℕ)
    → 4194304 < len * size
    → len * size < usize_mod
    → check_limit size len ≡ err (ReadError.preallocation_size_limit (len * size) 4194304)
unfolding check_limit
check_limit_exceeds size len h _ = rw (lt→leb_false (len * size) 4194304 h)

pub covers :
    (len size : ℕ) (r : ByteReader) (xs rest : Bytes)
    → r.bytes ≡ xs ++ rest
    → length xs ≡ len * size
    → (t : ByteReader) × ((take_bytes (len * size) (λ ys. ok (slice ys)) r).0 ≡ ok t)
      × (t.bytes ≡ xs)
      × ((take_bytes (len * size) (λ ys. ok (slice ys)) r).1.bytes ≡ rest)
covers len size r xs rest e h =
    let run = take_bytes_lem (len * size) (λ ys. ok (slice ys)) r xs rest e h in
    (slice xs, ap (λ p. p.0) run, refl, ap (λ p. p.1.bytes) run)

pub take_len_cut :
    (n : ℕ) (r : ByteReader) → IsStrictPrefix r.bytes (le_bytes 8 n) → IsErr (take_len r).0
unfolding take_len
take_len_cut n r h =
    take_bytes-IsErr 8 (λ xs. ok (le_value xs)) r
      (omega (arith, length-IsStrictPrefix r.bytes (le_bytes 8 n) h, length-le_bytes 8 n))

-- A length prefix with too few bytes behind it, or cut off itself.
pub prefixed_cut :
    {A : Type 0} (f : ByteReader → Bytes → ReadResult A) (r : ByteReader) (xs : Bytes)
    → length xs < usize_mod
    → IsStrictPrefix r.bytes (le_bytes 8 (length xs) ++ xs)
    → IsErr (and_then (take_len r) (λ n r'. take_bytes n (f r') r')).0
prefixed_cut f r xs h cut = elim (IsStrictPrefix-cases r.bytes (le_bytes 8 (length xs)) xs cut) [
  | inl early ↦ and_then-IsErr_fst (take_len r) _ (take_len_cut (length xs) r early)
  | inr (rest, e, late) ↦
      let (read, left, _) = take_len_lem (length xs) r rest h e in
      rw (and_then_ok (take_len r) (λ n r'. take_bytes n (f r') r') read) (
        take_bytes-IsErr (length xs) (f (take_len r).1) (take_len r).1
          (omega (arith, ap length left, length-IsStrictPrefix rest xs late)))
]

pub text_cut :
    (r : ByteReader) (xs : Bytes)
    → length xs ≤ 4194304
    → IsStrictPrefix r.bytes (le_bytes 8 (length xs) ++ xs)
    → IsErr (take_text r).0
unfolding take_text
text_cut r xs h cut = prefixed_cut (λ r'. check_text r'.backing) r xs (omega arith) cut

pub bytes_cut :
    (r : ByteReader) (xs : Bytes)
    → length xs ≤ 4194304
    → IsStrictPrefix r.bytes (le_bytes 8 (length xs) ++ xs)
    → IsErr (and_then (take_len r) take_payload).0
unfolding take_payload
bytes_cut r xs h cut = prefixed_cut (λ r' ys. ok (cow r'.backing ys)) r xs (omega arith) cut

abbrev pub slices_laws : WincodeLaws slices
slices_laws = record {
  remaining = λ r. r.bytes;
  remaining_trusted = λ t. t.bytes;
  remaining-from_slice = λ xs. refl;
  from_slice_borrows = λ xs. refl;
  type_meta_size = λ A. refl;
  length-put = length-write;
  get_local = λ A r xs rest e h. take_bytes_local (size_of A) (interpret A) r xs rest e h;
  get_advance =
      λ A r xs rest a e h k. take_bytes_advance (size_of A) (interpret A) r xs rest a e h k;
  get_borrows = λ A r. take_bytes_backing (size_of A) (interpret A) r;
  get_short = λ A r h. take_bytes-IsErr (size_of A) (interpret A) r h;
  get_trusted_local = λ A r xs rest e h. take_bytes_local (size_of A) (interpret A) r xs rest e h;
  get_trusted_advance =
      λ A r xs rest a e h k. take_bytes_advance (size_of A) (interpret A) r xs rest a e h k;
  get-put = λ A a h. get_write A a h;
  put_u8 = λ n. write_u8 n;
  read_len-put_len = take_len_lem;
  read_len_cut = λ n r h cut. take_len_cut n r cut;
  get_bytes_len_takes = take_payload-Takes;
  get_bytes_len_short = λ n r h. take_payload-IsErr n r h;
  is_utf8 = is_ascii;
  get_str_takes = text-Takes;
  get_bytes_takes = bytes-Takes;
  get_str_cut = text_cut;
  get_bytes_cut = bytes_cut;
  prealloc_limit_bound = limit_bound;
  prealloc_check_fits = check_limit_fits;
  prealloc_check_exceeds = check_limit_exceeds;
  as_trusted_for_seq_covers = λ len size r xs rest e h. covers len size r xs rest e h;
  as_trusted_for_seq_short =
      λ len size r h. take_bytes-IsErr (len * size) (λ ys. ok (slice ys)) r h;
}
