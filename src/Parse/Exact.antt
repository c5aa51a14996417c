-- ===== src/Parse/Exact.antt =====
-- What a payload that was read consists of, on any input (`read_byte_payload` and
-- `read_primitive_payload` of wincode-dynamic/src/ty.rs).
use wincode_dynamic.Prelude.{
  ℕ, ◌*◌, ◌≤◌, ◌<◌, ◌≡◌, ap, ◌∙◌, length, take, drop, usize_mod, not, if◌then◌else◌, arith,
}
use native.Mathlib.Decide.{dec_lt}
use wincode_dynamic.Wincode.{Wincode, Bytes, ok, Cow}
use wincode_dynamic.Wincode.Monad.{and_then-eq_ok, and_then_ok, map_read-eq_ok, map_read_ok}
use wincode_dynamic.Wincode.Laws.{WincodeLaws, cow}
use wincode_dynamic.Wincode.Facts.{get_bytes_len_enough, not-IsErr-ok}
use wincode_dynamic.PrimitiveTy.{PrimitiveTy, size}
use wincode_dynamic.Value.{Value, LazyVec}
use wincode_dynamic.Lazy.{new_unchecked}
use wincode_dynamic.Parse.{read_byte_payload, read_primitive_payload}
use wincode_dynamic.Parse.Payload.{read_primitive_payload_fits, read_primitive_payload_overflow}

payload_of_vec :
    (ty : PrimitiveTy) (len : ℕ) (payload : Cow Bytes) (v : LazyVec)
    → Value.vec (new_unchecked ty len payload) ≡ Value.vec v
    → v ≡ record { ty = ty; payload = payload; len = len }
unfolding new_unchecked
payload_of_vec ty len payload v e = cc

module _ (w : Wincode) (laws : WincodeLaws w) where
  open laws use {remaining}

  get_bytes_len-ok :
      (n : ℕ) (r : w.Reader) (c : Cow Bytes)
      → (w.get_bytes_len n r).0 ≡ ok c
      → (c ≡ cow (w.supports_borrow r) (take n (remaining r)))
        × (remaining (w.get_bytes_len n r).1 ≡ drop n (remaining r))
        × (n ≤ length (remaining r))
  get_bytes_len-ok n r c e = elim (dec_lt (length (remaining r)) n) [
    | yes short ↦ absurd (not-IsErr-ok e (laws.get_bytes_len_short n r short))
    | no enough ↦
        let h : n ≤ length (remaining r) = omega arith in
        let (read, left, _) = get_bytes_len_enough w laws n r h in (cc, left, h)
  ]

  -- A byte payload that is read, on any input, is the next bytes of it, borrowed exactly where the
  -- reader lends its bytes; the reader is left behind them, and they were there.
  pub read_byte_payload-ok :
      (n : ℕ) (r : w.Reader) (c : Cow Bytes)
      → (read_byte_payload w n r).0 ≡ ok c
      → (c ≡ cow (w.supports_borrow r) (take n (remaining r)))
        × (remaining (read_byte_payload w n r).1 ≡ drop n (remaining r))
        × (n ≤ length (remaining r))
  unfolding read_byte_payload
  read_byte_payload-ok n r c e =
      let check = if not (w.supports_borrow r) then w.prealloc_check 1 n else ok tt in
      let (_, passed, read) = and_then-eq_ok (check, r) (λ _. w.get_bytes_len n) e in
      let (same, left, enough) = get_bytes_len-ok n r c read in
      let run = and_then_ok (check, r) (λ _. w.get_bytes_len n) passed in
      (same, ap (λ p. remaining p.1) run ∙ left, enough)

  -- A lazy vector that is read, on any input, stands over exactly the next `len` elements' bytes,
  -- borrowed exactly where the reader lends its bytes, and the reader is left behind them; they
  -- were there, and their size did not overflow.
  pub read_primitive_payload-ok :
      (ty : PrimitiveTy) (len : ℕ) (r : w.Reader) (v : LazyVec)
      → (read_primitive_payload w ty len r).0 ≡ ok (Value.vec v)
      → (v ≡ record {
        ty = ty;
        payload = cow (w.supports_borrow r) (take (len * size ty) (remaining r));
        len = len;
      })
        × (remaining (read_primitive_payload w ty len r).1 ≡ drop (len * size ty) (remaining r))
        × (len * size ty ≤ length (remaining r))
        × (len * size ty < usize_mod)
  read_primitive_payload-ok ty len r v e = elim (dec_lt (len * size ty) usize_mod) [
    | yes h ↦
        let n = len * size ty in
        let made = λ (payload : Cow Bytes). Value.vec (new_unchecked ty len payload) in
        let fits = read_primitive_payload_fits w laws ty len r h in
        let (payload, read, same) = map_read-eq_ok made (read_byte_payload w n r) (rw fits at e) in
        let (bytes, left, enough) = read_byte_payload-ok n r payload read in
        let run = fits ∙ map_read_ok made (read_byte_payload w n r) read in
        (
          payload_of_vec ty len payload v same ∙ rw bytes,
          ap (λ p. remaining p.1) run ∙ left,
          enough,
          h,
        )
    | no h ↦
        let run = rw (read_primitive_payload_overflow w laws ty len r (omega arith)) at e in cc run
  ]
