-- ===== src/Wincode/Facts.antt =====
-- Consequences of the laws of `wincode`: what reading does at a given input, and the elements of a
-- payload as a reference for the code that decodes them.
use wincode_dynamic.Prelude.{
  ℕ, ◌*◌, ◌≤◌, ◌≡◌, refl, sym, ◌∙◌, subst, Bool, List, [], ◌∷◌, ◌++◌, length, take, drop,
  take-append-drop, length-take_le, length-append, arith,
}
use wincode_dynamic.Wincode.{
  Wincode, Bytes, ReadResult, ok, Cow, as_ref, Primitive, El, size_of, InRange,
}
use wincode_dynamic.Wincode.Monad.{IsErr}
use wincode_dynamic.Wincode.Laws.{WincodeLaws, Takes, cow}
use native.Mathlib.Decide.{dec_lt}

-- The value that a primitive's bytes stand for.
unfoldable pub decode : (w : Wincode) (A : Primitive) → Bytes → ReadResult (El A)
decode w A xs = (w.get A (w.from_slice xs)).0

pub as_ref-cow : (b : Bool) (xs : Bytes) → as_ref (cow b xs) ≡ xs
as_ref-cow Bool.true xs = refl
as_ref-cow Bool.false xs = refl

pub not-IsErr-ok {ℓ} : {A : Type ℓ} {m : ReadResult A} {a : A} → m ≡ ok a → IsErr m → ⊥
not-IsErr-ok {m} e h = absurd (rw e at h)

-- The encodings of a list of values, one behind the other.
unfoldable pub put_all : (w : Wincode) (A : Primitive) → List (El A) → Bytes
put_all w A [] = []
put_all w A (a ∷ xs) = w.put A a ++ put_all w A xs

module _ (w : Wincode) (laws : WincodeLaws w) where
  open laws use {remaining}

  -- A written value is read back, whatever follows it, and exactly its bytes are consumed.
  pub get-Takes :
      (A : Primitive) (a : El A) (r : w.Reader) (rest : Bytes)
      → InRange A a
      → remaining r ≡ w.put A a ++ rest
      → Takes remaining w.supports_borrow r (w.get A r) a rest
  get-Takes A a r rest h e =
      let read : (w.get A r).0 ≡ ok a =
        laws.get_local A r (w.put A a) rest e (laws.length-put A a) ∙ laws.get-put A a h in
      (
        read,
        laws.get_advance A r (w.put A a) rest a e (laws.length-put A a) read,
        laws.get_borrows A r,
      )

  pub decode-put : (A : Primitive) (a : El A) → InRange A a → decode w A (w.put A a) ≡ ok a
  unfolding decode
  decode-put A a h = laws.get-put A a h

  pub length-put_all :
      (A : Primitive) (xs : List (El A)) → length (put_all w A xs) ≡ length xs * size_of A
  unfolding put_all
  length-put_all A [] = omega arith
  length-put_all A (a ∷ xs) =
      omega (
        arith,
        length-append (w.put A a) (put_all w A xs),
        laws.length-put A a,
        length-put_all A xs,
      )

  -- Where the reader holds enough bytes, exactly as many as asked for are returned.
  pub get_bytes_len_enough :
      (n : ℕ) (r : w.Reader)
      → n ≤ length (remaining r)
      → Takes remaining w.supports_borrow r
          (w.get_bytes_len n r)
          (cow (w.supports_borrow r) (take n (remaining r)))
          (drop n (remaining r))
  get_bytes_len_enough n r h =
      let xs = take n (remaining r) in
      let rest = drop n (remaining r) in
      subst
        (λ k.
          Takes remaining w.supports_borrow r (w.get_bytes_len k r) (cow (w.supports_borrow r) xs)
            rest)
        (length-take_le n (remaining r) h)
        (laws.get_bytes_len_takes r xs rest (sym (take-append-drop n (remaining r))))

  -- A payload that is returned has the length that was asked for.
  pub length_of_get_bytes_len :
      (n : ℕ) (r : w.Reader) (c : Cow Bytes)
      → (w.get_bytes_len n r).0 ≡ ok c
      → length (as_ref c) ≡ n
  length_of_get_bytes_len n r c e = elim (dec_lt (length (remaining r)) n) [
    | yes short ↦ absurd (not-IsErr-ok e (laws.get_bytes_len_short n r short))
    | no enough ↦
        let h : n ≤ length (remaining r) = omega arith in
        cc (
          (get_bytes_len_enough n r h).0,
          length-take_le n (remaining r) h,
          as_ref-cow (w.supports_borrow r) (take n (remaining r)),
        )
  ]
