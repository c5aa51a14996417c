-- ===== src/Prelude/Lists.antt =====
-- Lists measured and cut by native numbers, under the library's names.
use Prim.Native.Nat.{ℕ, zero, suc, ◌+◌, ◌-◌, ◌≤◌, ◌<◌}
use Prim.Native.Nat.add
use mathlib.Core.Path.{◌≡◌, refl, ap}
use mathlib.Core.List.{List, [], ◌∷◌, ◌++◌}
use mathlib.Core.Logic.{◌⊎◌, inl, inr}
use mathlib.Core.Option.{Option, none, some}
use native.Mathlib.Omega.{arith}

module _ {ℓ} {A : Type ℓ} where
  abbrev pub length : List A → ℕ
  length [] = 0
  length (x ∷ xs) = suc (length xs)

  abbrev pub get_elem? : List A → ℕ → Option A
  get_elem? [] i = none
  get_elem? (x ∷ xs) zero = some x
  get_elem? (x ∷ xs) (suc i) = get_elem? xs i

  abbrev pub take : ℕ → List A → List A
  take zero xs = []
  take (suc n) [] = []
  take (suc n) (x ∷ xs) = x ∷ take n xs

  abbrev pub drop : ℕ → List A → List A
  drop zero xs = xs
  drop (suc n) [] = []
  drop (suc n) (x ∷ xs) = drop n xs

  pub length-append : (xs ys : List A) → length (xs ++ ys) ≡ length xs + length ys
  length-append [] ys = omega arith
  length-append (x ∷ xs) ys = omega (arith, length-append xs ys)

-- A predicate on every element.
abbrev pub All {ℓ κ} : {A : Type ℓ} → (A → Type κ) → List A → Type κ
All P [] = Unit
All P (x ∷ xs) = P x × All P xs

-- A predicate on some element.
abbrev pub Any {ℓ} : {A : Type ℓ} → (A → Type 0) → List A → Type 0
Any P [] = ⊥
Any P (x ∷ xs) = P x ⊎ Any P xs

module _ {ℓ} {A : Type ℓ} where
  pub take-append-drop : (n : ℕ) (xs : List A) → take n xs ++ drop n xs ≡ xs
  take-append-drop zero xs = refl
  take-append-drop (suc n) [] = refl
  take-append-drop (suc n) (x ∷ xs) = rw (take-append-drop n xs)

  pub length-take_le : (n : ℕ) (xs : List A) → n ≤ length xs → length (take n xs) ≡ n
  length-take_le zero xs h = refl
  length-take_le (suc n) [] h = elim h [ ]
  length-take_le (suc n) (x ∷ xs) h = ap suc (length-take_le n xs (omega arith))

  pub length-drop : (n : ℕ) (xs : List A) → length (drop n xs) ≡ length xs - n
  length-drop zero xs = omega arith
  length-drop (suc n) [] = omega arith
  length-drop (suc n) (x ∷ xs) = omega (arith, length-drop n xs)

  pub drop-append : (xs ys : List A) → drop (length xs) (xs ++ ys) ≡ ys
  drop-append [] ys = refl
  drop-append (x ∷ xs) ys = drop-append xs ys

  pub take-append : (xs ys : List A) → take (length xs) (xs ++ ys) ≡ xs
  take-append [] ys = refl
  take-append (x ∷ xs) ys = ap (λ t. x ∷ t) (take-append xs ys)

  pub drop-drop : (m n : ℕ) (xs : List A) → drop m (drop n xs) ≡ drop (n + m) xs
  drop-drop m zero xs = rw add.zero
  drop-drop zero (suc n) [] = rw add.suc
  drop-drop (suc m) (suc n) [] = rw add.suc
  drop-drop m (suc n) (x ∷ xs) = rw add.suc (drop-drop m n xs)

  pub get_elem?-none : (xs : List A) (i : ℕ) → length xs ≤ i → get_elem? xs i ≡ none
  get_elem?-none [] i h = refl
  get_elem?-none (x ∷ xs) zero h = elim h [ ]
  get_elem?-none (x ∷ xs) (suc i) h = get_elem?-none xs i (omega arith)

-- The list without one element or more of its end.
abbrev pub IsStrictPrefix {ℓ} : {A : Type ℓ} → List A → List A → Type ℓ
IsStrictPrefix {A} xs ys = (b : A) × (missing : List A) × (xs ++ (b ∷ missing) ≡ ys)

module _ {ℓ} {A : Type ℓ} where
  pub not-IsStrictPrefix-nil : (xs : List A) → IsStrictPrefix xs [] → ⊥
  not-IsStrictPrefix-nil [] (b, missing, e) = cc
  not-IsStrictPrefix-nil (x ∷ xs) (b, missing, e) = cc

  -- A joined list is cut off in its first part or in its second.
  pub IsStrictPrefix-cases :
      (xs ys zs : List A)
      → IsStrictPrefix xs (ys ++ zs)
      → IsStrictPrefix xs ys ⊎ ((rest : List A) × (xs ≡ ys ++ rest) × IsStrictPrefix rest zs)
  IsStrictPrefix-cases xs [] zs h = inr (xs, refl, h)
  IsStrictPrefix-cases [] (y ∷ ys) zs h = inl (y, ys, refl)
  IsStrictPrefix-cases (x ∷ xs) (y ∷ ys) zs (b, missing, e) =
      let same : x ≡ y = cc in
      let tails : xs ++ (b ∷ missing) ≡ ys ++ zs = cc in
      elim (IsStrictPrefix-cases xs ys zs (b, missing, tails)) [
        | inl (c, more, k) ↦ inl (c, more, rw (same, k))
        | inr (rest, k, p) ↦ inr (rest, rw (same, k), p)
      ]

  pub length-IsStrictPrefix : (xs ys : List A) → IsStrictPrefix xs ys → length xs < length ys
  length-IsStrictPrefix xs ys (b, missing, e) =
      omega (arith, ap length e, length-append xs (b ∷ missing))

-- For `simp`, on lists that are joined.
pub ruleset list_laws = (mathlib.Core.List.append-nil, mathlib.Core.List.append_assoc)
