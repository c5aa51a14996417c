-- ===== src/Lazy/Owned.antt =====
-- The owning iterator of wincode-dynamic/src/value.rs, module `lazy_vec`, drained.
use wincode_dynamic.Prelude.{ℕ, zero, suc, ◌≡◌, refl, ap, ◌∙◌, Option, none, some, inl, inr, List}
use wincode_dynamic.Wincode.{Wincode, Primitive, El, ReadResult, ok, err}
use wincode_dynamic.Wincode.Monad.{result_cases}
use wincode_dynamic.PrimitiveTy.{DynPrimitiveTy, builtin}
use wincode_dynamic.Value.{LazyVec}
use wincode_dynamic.Lazy.{
  Iter, IntoIter, Checked, returns, fault, validate_element_type, try_iter_as, try_into_iter_as,
  next_owned, get_slice,
}
use wincode_dynamic.Lazy.Safety.{borrow, borrow_step, next_owned_lem}
use wincode_dynamic.Lazy.Collect.{Collected, cons_collected, out_of_fuel, collect_step, collect}

-- `collect::<ReadResult<Vec<_>>>()` of the owning iterator.
unfoldable pub collect_owned :
    (w : Wincode) (As : Primitive) → ℕ → IntoIter (builtin As) → Collected (List (El As))
collect_owned w As zero it = out_of_fuel
collect_owned w As (suc fuel) it =
    collect_step (collect_owned w As fuel) (next_owned (builtin As) (get_slice w As) it)

collect_step-borrow :
    {As : DynPrimitiveTy} (f : Iter As → Collected (List As.Item))
    (g : IntoIter As → Collected (List As.Item))
    (c : Checked (Option (ReadResult As.Item) × IntoIter As))
    → ((it : IntoIter As) → g it ≡ f (borrow it))
    → collect_step g c ≡ collect_step f (borrow_step c)
collect_step-borrow f g (returns (none, it)) h = refl
collect_step-borrow f g (returns (some (ok a), it)) h = ap (cons_collected a) (h it)
collect_step-borrow f g (returns (some (err e), it)) h = refl
collect_step-borrow f g fault h = refl

-- The owning iterator yields what the borrowing one yields.
pub collect_owned-collect :
    (w : Wincode) (As : Primitive) (n : ℕ) (it : IntoIter (builtin As))
    → collect_owned w As n it ≡ collect w As n (borrow it)
unfolding collect_owned collect
collect_owned-collect w As zero it = refl
collect_owned-collect w As (suc n) it =
    collect_step-borrow (collect w As n) (collect_owned w As n)
      (next_owned (builtin As) (get_slice w As) it) (collect_owned-collect w As n)
    ∙ ap (collect_step (collect w As n)) (next_owned_lem (builtin As) (get_slice w As) it)

-- Where a borrowing iterator is given, so is an owning one in the same state.
pub try_into_iter_as-ok :
    (As : DynPrimitiveTy) (v : LazyVec) (it : Iter As)
    → try_iter_as As v ≡ ok it
    → (owning : IntoIter As) × (try_into_iter_as As v ≡ ok owning) × (borrow owning ≡ it)
unfolding try_iter_as try_into_iter_as
try_into_iter_as-ok As v it e = elim (result_cases (validate_element_type As v.ty)) [
  | inl (tt, h) ↦
      let given = rw h at e in
      (record { payload = v.payload; len = v.len; index = 0 }, rw h refl, cc)
  | inr (x, h) ↦ cc (rw h at e)
]
