-- ===== src/Wincode/Monad.antt =====
-- Sequencing for `ReadResult` and for reading operations: `?`, `map` and `and_then`.
use wincode_dynamic.Prelude.{◌≡◌, refl, ◌⊎◌, inl, inr, List, ◌∷◌}
use wincode_dynamic.Wincode.{Read, ReadResult, ReadError, ok, err}

-- `Result::map` beside the reader that the operation leaves.
abbrev pub map_read {ℓ κ} :
    {R : Type 0} {A : Type ℓ} {B : Type κ} → (A → B) → ReadResult A × R → ReadResult B × R
map_read f (ok a, r) = (ok (f a), r)
map_read f (err e, r) = (err e, r)

-- `Result::and_then` with a check that does not read.
abbrev pub check_read {ℓ κ} :
    {R : Type 0} {A : Type ℓ} {B : Type κ}
    → (A → ReadResult B)
    → ReadResult A × R
    → ReadResult B × R
check_read f (ok a, r) = (f a, r)
check_read f (err e, r) = (err e, r)

-- The rest of an operation after a `?`.
abbrev pub and_then {ℓ κ} :
    {R : Type 0} {A : Type ℓ} {B : Type κ}
    → ReadResult A × R
    → (A → R → ReadResult B × R)
    → ReadResult B × R
and_then (ok a, r) k = k a r
and_then (err e, r) k = (err e, r)

infixl 5 ◌>>=◌ ◌>>◌
abbrev pub ◌>>=◌ : {R A B : Type 0} → Read R A → (A → Read R B) → Read R B
◌>>=◌ m f r = and_then (m r) f

abbrev pub ◌>>◌ : {R A B : Type 0} → Read R A → Read R B → Read R B
◌>>◌ m k r = and_then (m r) (λ _. k)

-- A check that does not touch the reader.
abbrev pub lift : {R A : Type 0} → ReadResult A → Read R A
lift a r = (a, r)

abbrev pub IsErr {ℓ} : {A : Type ℓ} → ReadResult A → Type 0
IsErr (ok a) = ⊥
IsErr (err e) = Unit

pub result_cases {ℓ} :
    {A : Type ℓ} (m : ReadResult A) → ((a : A) × (m ≡ ok a)) ⊎ ((e : ReadError) × (m ≡ err e))
result_cases (ok a) = inl (a, refl)
result_cases (err e) = inr (e, refl)

-- A result beside no reader.
abbrev pub map_result {ℓ κ} : {A : Type ℓ} {B : Type κ} → (A → B) → ReadResult A → ReadResult B
map_result f (ok a) = ok (f a)
map_result f (err e) = err e

-- A first element before the others, for a loop that stops at the first error.
abbrev pub cons_result {ℓ} : {A : Type ℓ} → A → ReadResult (List A) → ReadResult (List A)
cons_result a (ok xs) = ok (a ∷ xs)
cons_result a (err e) = err e

-- Inversion of what succeeded.
pub map_read-eq_ok {ℓ κ} :
    {R : Type 0} {A : Type ℓ} {B : Type κ} (f : A → B) (p : ReadResult A × R) {b : B}
    → (map_read f p).0 ≡ ok b
    → (a : A) × (p.0 ≡ ok a) × (f a ≡ b)
map_read-eq_ok f (ok a, r) e = (a, refl, cc)
map_read-eq_ok f (err x, r) e = cc

pub and_then-eq_ok {ℓ κ} :
    {R : Type 0} {A : Type ℓ} {B : Type κ} (p : ReadResult A × R) (k : A → R → ReadResult B × R)
    {b : B}
    → (and_then p k).0 ≡ ok b
    → (a : A) × (p.0 ≡ ok a) × ((k a p.1).0 ≡ ok b)
and_then-eq_ok (ok a, r) k e = (a, refl, e)
and_then-eq_ok (err x, r) k e = cc

-- Computation from the result of the first step.
pub map_read_ok {ℓ κ} :
    {R : Type 0} {A : Type ℓ} {B : Type κ} (f : A → B) (p : ReadResult A × R) {a : A}
    → p.0 ≡ ok a
    → map_read f p ≡ (ok (f a), p.1)
map_read_ok f (ok a, r) e = cc
map_read_ok f (err x, r) e = cc

pub map_read_err {ℓ κ} :
    {R : Type 0} {A : Type ℓ} {B : Type κ} (f : A → B) (p : ReadResult A × R) {x : ReadError}
    → p.0 ≡ err x
    → map_read f p ≡ (err x, p.1)
map_read_err f (ok a, r) e = cc
map_read_err f (err x', r) e = cc

pub and_then_ok {ℓ κ} :
    {R : Type 0} {A : Type ℓ} {B : Type κ} (p : ReadResult A × R) (k : A → R → ReadResult B × R)
    {a : A}
    → p.0 ≡ ok a
    → and_then p k ≡ k a p.1
and_then_ok (ok a', r) k e = cc
and_then_ok (err x, r) k e = cc

-- What fails stays failed.
pub map_read-IsErr :
    {R A B : Type 0} (f : A → B) (p : ReadResult A × R) → IsErr p.0 → IsErr (map_read f p).0
map_read-IsErr f (ok a, r) h = h
map_read-IsErr f (err e, r) h = h

pub and_then-IsErr :
    {R A B : Type 0} (m : ReadResult A) (r : R) (k : A → R → ReadResult B × R)
    → ((a : A) → IsErr (k a r).0)
    → IsErr (and_then (m, r) k).0
and_then-IsErr (ok a) r k h = h a
and_then-IsErr (err e) r k h = tt

pub and_then-IsErr_fst :
    {R A B : Type 0} (p : ReadResult A × R) (k : A → R → ReadResult B × R)
    → IsErr p.0
    → IsErr (and_then p k).0
and_then-IsErr_fst (ok a, r) k h = absurd h
and_then-IsErr_fst (err e, r) k h = tt

pub check_read-IsErr :
    {R A B : Type 0} (f : A → ReadResult B) (p : ReadResult A × R)
    → IsErr p.0
    → IsErr (check_read f p).0
check_read-IsErr f (ok a, r) h = absurd h
check_read-IsErr f (err e, r) h = tt

pub IsErr-eq_err {ℓ} : {A : Type ℓ} (m : ReadResult A) → IsErr m → (x : ReadError) × (m ≡ err x)
IsErr-eq_err (ok a) h = absurd h
IsErr-eq_err (err x) h = (x, refl)
