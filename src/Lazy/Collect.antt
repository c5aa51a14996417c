-- ===== src/Lazy/Collect.antt =====
-- Draining the iterators of wincode-dynamic/src/value.rs, module `lazy_vec`, against the eager
-- `into_dyn_vec`.
use wincode_dynamic.Prelude.{
  ℕ, zero, suc, ◌+◌, ◌*◌, ◌≤◌, ◌<◌, ◌≡◌, refl, sym, ap, ◌∙◌, inl, inr, Option, none, some, List, [],
  ◌++◌, map, length, drop, drop-drop, append-nil, All, arith, usize_mod,
}
use wincode_dynamic.Wincode.{
  Wincode, Bytes, Primitive, El, InRange, ReadResult, ReadError, ok, err, Cow, as_ref, size_of,
}
use wincode_dynamic.Wincode.Monad.{result_cases, cons_result, map_result}
use wincode_dynamic.Wincode.Laws.{WincodeLaws}
use wincode_dynamic.Wincode.Facts.{decode, put_all, length-put_all}
use wincode_dynamic.PrimitiveTy.{type_of, size, builtin}
use wincode_dynamic.PrimitiveTy.Element.{size-type_of}
use wincode_dynamic.Value.{LazyVec}
use wincode_dynamic.LenMap.{Outcome, result_of}
use wincode_dynamic.LenMap.Loop.{decode_elements, cons_outcome, prepend}
use wincode_dynamic.LenMap.Sequence.{read_len_map_lem, decode_elements-put_all}
use wincode_dynamic.Read.{size_of_primitive_value}
use wincode_dynamic.Read.Uniform.{primitive_value_of, read_array-type_of}
use wincode_dynamic.Lazy.{
  Iter, Checked, returns, fault, try_iter_as, into_dyn_vec, next, new_unchecked, get_slice,
}
use wincode_dynamic.Lazy.Safety.{
  IsSound, IterIsSound, element_bytes, next_item, next_end, try_iter_as-IsSound,
}

-- `iter.collect::<ReadResult<Vec<_>>>()` on fuel: the items up to the first error.
pub data Collected {ℓ} (A : Type ℓ) : Type ℓ where
  finished : ReadResult A → Collected A
  faulted : Collected A
  out_of_fuel : Collected A

abbrev pub cons_collected {ℓ} : {A : Type ℓ} → A → Collected (List A) → Collected (List A)
cons_collected a (finished m) = finished (cons_result a m)
cons_collected a faulted = faulted
cons_collected a out_of_fuel = out_of_fuel

abbrev pub collect_step {ℓ κ} :
    {I : Type ℓ} {A : Type κ}
    → (I → Collected (List A))
    → Checked (Option (ReadResult A) × I)
    → Collected (List A)
collect_step rest (returns (none, it)) = finished (ok [])
collect_step rest (returns (some (ok a), it)) = cons_collected a (rest it)
collect_step rest (returns (some (err e), it)) = finished (err e)
collect_step rest fault = faulted

unfoldable pub collect :
    (w : Wincode) (As : Primitive) → ℕ → Iter (builtin As) → Collected (List (El As))
collect w As zero it = out_of_fuel
collect w As (suc fuel) it =
    collect_step (collect w As fuel) (next (builtin As) (get_slice w As) it)

-- The result of a run of the reference decoder.
abbrev pub to_result {ℓ} : {B : Type ℓ} → Outcome B → ReadResult (List B)
to_result (Outcome.written xs) = ok xs
to_result (Outcome.dropped e xs) = err e

to_result-cons_outcome {ℓ} :
    {B : Type ℓ} (b : B) (o : Outcome B)
    → to_result (cons_outcome b o) ≡ cons_result b (to_result o)
to_result-cons_outcome b (Outcome.written xs) = refl
to_result-cons_outcome b (Outcome.dropped e xs) = refl

result_of-prepend :
    {R A B : Type 0} (f : A → B) (o : Outcome A) (r : R)
    → (result_of (prepend [] f o, r)).0 ≡ map_result (map f) (to_result o)
result_of-prepend f (Outcome.written xs) r = refl
result_of-prepend f (Outcome.dropped e xs) r = refl

result_of_fst :
    {R B : Type 0} (p : Outcome B × R) {o : Outcome B}
    → p.0 ≡ o
    → (result_of p).0 ≡ (result_of (o, p.1)).0
result_of_fst p e = ap (λ o. (result_of (o, p.1)).0) e

index_step : (i s : ℕ) → (i + 1) * s ≡ i * s + s
index_step i s = omega arith

index_zero : (i s : ℕ) → i ≡ 0 → i * s ≡ 0
index_zero i s h = grind arith

collect_ok :
    (w : Wincode) (As : Primitive) (n : ℕ) (it it' : Iter (builtin As)) {m : ReadResult (El As)}
    {a : El As}
    → next (builtin As) (get_slice w As) it ≡ returns (some m, it')
    → m ≡ ok a
    → collect w As (suc n) it ≡ cons_collected a (collect w As n it')
unfolding collect
collect_ok w As n it it' h e = ap (collect_step (collect w As n)) h ∙ rw e

collect_err :
    (w : Wincode) (As : Primitive) (n : ℕ) (it it' : Iter (builtin As)) {m : ReadResult (El As)}
    {x : ReadError}
    → next (builtin As) (get_slice w As) it ≡ returns (some m, it')
    → m ≡ err x
    → collect w As (suc n) it ≡ finished (err x)
unfolding collect
collect_err w As n it it' h e = ap (collect_step (collect w As n)) h ∙ rw e

module _ (w : Wincode) (laws : WincodeLaws w) (As : Primitive) where
  -- Draining a sound iterator yields the elements of the rest of the payload.
  collect_lem :
      (n : ℕ) (it : Iter (builtin As))
      → IterIsSound (builtin As) it
      → it.len ≡ it.index + n
      → collect w As (suc n) it
        ≡ finished (to_result (decode_elements w As n (drop (it.index * size_of As) it.payload)))
  unfolding decode_elements
  collect_lem zero it s h =
      unfold collect in rw (next_end (builtin As) (get_slice w As) it (omega arith))
  collect_lem (suc n) it s h =
      let bytes = element_bytes As it.payload it.index in
      let here = next_item w laws As it s (omega arith) in
      let it' : Iter (builtin As) = record it { index = it.index + 1 } in
      let later : it.index + 1 ≤ it.len = omega arith in
      let s' : IterIsSound (builtin As) it' = record {
        exact = s.exact;
        counted = s.counted;
        in_memory = s.in_memory;
        in_range = later;
      } in
      let k : it'.len ≡ it'.index + n = omega arith in
      let rest = collect_lem n it' s' k in
      let behind : drop (it'.index * size_of As) it.payload
          ≡ drop (size_of As) (drop (it.index * size_of As) it.payload) =
        ap (λ k. drop k it.payload) (index_step it.index (size_of As))
        ∙ sym (drop-drop (size_of As) (it.index * size_of As) it.payload) in
      elim (result_cases (decode w As bytes)) [
        | inl (a, e) ↦
            collect_ok w As (suc n) it it' here e
            ∙ ap (cons_collected a) rest
            ∙ ap finished (sym (to_result-cons_outcome a _))
            ∙ rw (behind, e)
        | inr (x, e) ↦ collect_err w As (suc n) it it' here e ∙ rw e
      ]

  collect_all :
      {len : ℕ} (it : Iter (builtin As))
      → IterIsSound (builtin As) it
      → it.len ≡ len
      → it.index ≡ 0
      → collect w As (suc len) it ≡ finished (to_result (decode_elements w As len it.payload))
  collect_all {len} it s count start =
      collect_lem len it s (omega arith)
      ∙ ap (λ k. finished (to_result (decode_elements w As len (drop k it.payload))))
          (index_zero it.index (size_of As) start)

  -- The eager decoder runs the same elements.
  into_dyn_vec_lem :
      (len : ℕ) (payload : Cow Bytes)
      → len * size_of_primitive_value ≤ w.prealloc_limit
      → length (as_ref payload) ≡ len * size_of As
      → into_dyn_vec w (new_unchecked (type_of As) len payload)
        ≡ map_result
            (map (primitive_value_of As))
            (to_result (decode_elements w As len (as_ref payload)))
  unfolding into_dyn_vec new_unchecked
  into_dyn_vec_lem len payload fits exact =
      let f = primitive_value_of As in
      let bytes = as_ref payload in
      let slice = w.from_slice bytes in
      let whole : laws.remaining slice ≡ bytes ++ [] =
        laws.remaining-from_slice bytes ∙ sym (append-nil bytes) in
      let run = read_len_map_lem w laws As len f slice bytes [] whole exact in
      rw (laws.prealloc_check_fits size_of_primitive_value len fits) (
        ap (λ p. p.0) (read_array-type_of w len As slice)
        ∙ result_of_fst _ run.0
        ∙ result_of-prepend f _ _)

  -- Within the preallocation limit of eager decoding, lazy and eager decoding of a sound vector
  -- agree, on well-formed elements and on errors: the iterator of the recorded type is given,
  -- draining it ends without a fault, and `into_dyn_vec` returns the same result with each element
  -- tagged.
  pub collect-into_dyn_vec :
      (len : ℕ) (payload : Cow Bytes)
      → IsSound (new_unchecked (type_of As) len payload)
      → len * size_of_primitive_value ≤ w.prealloc_limit
      → (it : Iter (builtin As)) × (m : ReadResult (List (El As))) × (try_iter_as
            (builtin As)
            (new_unchecked (type_of As) len payload)
          ≡ ok it)
        × (collect w As (suc len) it ≡ finished m)
        × (into_dyn_vec w (new_unchecked (type_of As) len payload)
            ≡ map_result (map (primitive_value_of As)) m)
  unfolding new_unchecked
  collect-into_dyn_vec len payload s fits =
      let v : LazyVec = new_unchecked (type_of As) len payload in
      let (it, made, sound, bytes, count, start) =
        try_iter_as-IsSound (builtin As) v s refl (size-type_of As) in
      let exact : length (as_ref payload) ≡ len * size_of As =
        ap length (sym bytes) ∙ sound.exact ∙ ap (λ k. k * size_of As) count in
      (
        it,
        to_result (decode_elements w As len (as_ref payload)),
        made,
        collect_all it sound count start ∙ rw bytes,
        into_dyn_vec_lem len payload fits exact,
      )

  -- A payload of written values of the type, which is in memory, comes back as those values: the
  -- iterator of their type is given, and draining it yields them.
  pub collect-put_all :
      (xs : List (El As)) (payload : Cow Bytes)
      → as_ref payload ≡ put_all w As xs
      → All (InRange As) xs
      → length (as_ref payload) < usize_mod
      → (it : Iter (builtin As)) × (try_iter_as
            (builtin As)
            (new_unchecked (type_of As) (length xs) payload)
          ≡ ok it)
        × (collect w As (suc (length xs)) it ≡ finished (ok xs))
  collect-put_all xs payload written range memory =
      let exact : length (as_ref payload) ≡ length xs * size (type_of As) =
        rw (written, size-type_of) (length-put_all w laws As xs) in
      let v : LazyVec = record { ty = type_of As; payload = payload; len = length xs } in
      let s : IsSound v = record { exact = exact; in_memory = memory } in
      let (it, made, sound, bytes, count, start) =
        try_iter_as-IsSound (builtin As) v s refl (size-type_of As) in
      (
        it,
        unfold new_unchecked in made,
        collect_all it sound count start
            ∙ rw (bytes, written, decode_elements-put_all w laws As xs range),
      )
