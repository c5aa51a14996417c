-- ===== src/Lazy/Safety.antt =====
-- The invariants that the unsafe code of wincode-dynamic/src/value.rs, module `lazy_vec`, names,
-- and what one call of `next` does under them.
use wincode_dynamic.Prelude.{
  ℕ, ◌+◌, ◌*◌, ◌≤◌, ◌<◌, ◌≡◌, refl, sym, ap, ◌∙◌, ◌↔◌, Option, none, some, length, take, drop,
  take-append-drop, length-take_le, length-drop, usize_mod, ◌==◌, leb, le→leb, lt→leb_false,
  Bool-cases, inl, inr, checked_mul-fits, le-mul_pos, arith,
}
use native.Mathlib.Decide.{dec_lt}
use wincode_dynamic.Wincode.{Wincode, Bytes, Primitive, ReadResult, ok, as_ref, size_of}
use wincode_dynamic.Wincode.Laws.{WincodeLaws}
use wincode_dynamic.Wincode.Facts.{decode}
use wincode_dynamic.PrimitiveTy.{PrimitiveTy, DynPrimitiveTy, size, builtin}
use wincode_dynamic.PrimitiveTy.Element.{eq_iff, size_bounds}
use wincode_dynamic.Value.{LazyVec}
use wincode_dynamic.Lazy.{
  Iter, IntoIter, Checked, returns, fault, validate_element_type, try_iter_as, is_empty,
  get_unchecked, item_at, next, next_owned, iter_len, advance, get_slice,
}

-- `payload.len() == len * ty.size()`, for a payload that is in memory.
pub record IsSound (v : LazyVec) : Type 0 where
  pub exact : length (as_ref v.payload) ≡ v.len * size v.ty
  pub in_memory : length (as_ref v.payload) < usize_mod

-- The same for an iterator, whose length is a `usize` and whose index stays within the elements.
pub record IterIsSound (As : DynPrimitiveTy) (it : Iter As) : Type 0 where
  pub exact : length it.payload ≡ it.len * As.size
  pub counted : it.len < usize_mod
  pub in_memory : length it.payload < usize_mod
  pub in_range : it.index ≤ it.len

element_fits : (len i s : ℕ) → i < len → i * s + s ≤ len * s
element_fits len i s h = grind arith

-- The element count of a sound vector is a `usize`.
len_lt : (v : LazyVec) → IsSound v → v.len < usize_mod
len_lt v s = omega (arith, s.exact, s.in_memory, le-mul_pos v.len (size v.ty) (size_bounds v.ty).0)

-- A type is accepted exactly when it declares the recorded type and has its width.
pub validate_element_type_iff :
    (As : DynPrimitiveTy) (ty : PrimitiveTy)
    → (validate_element_type As ty ≡ ok tt) ↔ ((As.ty ≡ ty) × (size ty ≡ As.size))
unfolding validate_element_type
validate_element_type_iff As ty = (
  λ h. (ground (arith, eq_iff As.ty ty), ground (arith, eq_iff As.ty ty)),
  λ (h, k). ground (arith, eq_iff As.ty ty),
)

-- A sound lazy vector is empty exactly when its length is zero.
pub is_empty_lem : (v : LazyVec) → IsSound v → is_empty v ≡ (v.len == 0)
unfolding is_empty
is_empty_lem v s = ground (arith, s.exact, le-mul_pos v.len (size v.ty), size_bounds v.ty)

-- An iterator of the recorded type over a sound vector is sound, and starts at the first element.
pub try_iter_as-IsSound :
    (As : DynPrimitiveTy) (v : LazyVec)
    → IsSound v
    → As.ty ≡ v.ty
    → size v.ty ≡ As.size
    → (it : Iter As) × (try_iter_as As v ≡ ok it)
      × IterIsSound As it
      × (it.payload ≡ as_ref v.payload)
      × (it.len ≡ v.len)
      × (it.index ≡ 0)
unfolding try_iter_as
try_iter_as-IsSound As v s h k =
    let it : Iter As = record { payload = as_ref v.payload; len = v.len; index = 0 } in
    let exact : length it.payload ≡ it.len * As.size = s.exact ∙ ap (λ n. v.len * n) k in
    (
      it,
      rw ((validate_element_type_iff As v.ty).1 (h, k)),
      record {
        exact = exact;
        counted = len_lt v s;
        in_memory = s.in_memory;
        in_range = omega arith;
      },
      refl,
      refl,
      refl,
    )

-- The owning iterator as a borrowing one.
abbrev pub borrow : {As : DynPrimitiveTy} → IntoIter As → Iter As
borrow it = record { payload = as_ref it.payload; len = it.len; index = it.index }

abbrev pub borrow_step {ℓ} :
    {As : DynPrimitiveTy} {A : Type ℓ} → Checked (A × IntoIter As) → Checked (A × Iter As)
borrow_step (returns (a, it)) = returns (a, borrow it)
borrow_step fault = fault

borrow-advance {ℓ} :
    {As : DynPrimitiveTy} {A : Type ℓ} (it : IntoIter As) (c : Checked A)
    → borrow_step (advance it c) ≡ advance (borrow it) c
borrow-advance it (returns a) = refl
borrow-advance it fault = refl

-- The owning iterator makes the same steps as the borrowing one.
pub next_owned_lem :
    (As : DynPrimitiveTy) (get : Bytes → ReadResult As.Item) (it : IntoIter As)
    → borrow_step (next_owned As get it) ≡ next As get (borrow it)
unfolding next next_owned
next_owned_lem As get it = elim (Bool-cases (leb it.len it.index)) [
  | inl e ↦ rw e
  | inr e ↦ rw e (borrow-advance _ (item_at As get (as_ref it.payload) it.index))
]

-- The bytes of the element at an index.
abbrev pub element_bytes : Primitive → Bytes → ℕ → Bytes
element_bytes As payload i = take (size_of As) (drop (i * size_of As) payload)

abbrev pub count {ℓ} : {A : Type ℓ} → Option A → ℕ
count none = 0
count (some _) = 1

module _ (As : DynPrimitiveTy) (get : Bytes → ReadResult As.Item) where
  item_at_lem :
      (payload : Bytes) (len i : ℕ)
      → length payload ≡ len * As.size
      → length payload < usize_mod
      → i < len
      → item_at As get payload i ≡ returns (get (drop (i * As.size) payload))
  unfolding item_at get_unchecked
  item_at_lem payload len i e m h =
      let fits : i * As.size + As.size ≤ length payload = rw e (element_fits len i As.size h) in
      rw (
        item_at,
        checked_mul-fits i As.size (omega arith),
        get_unchecked,
        le→leb (i * As.size) (length payload) (omega arith),
      )

  -- Within the elements of a sound iterator `next` calls `get` on the payload from the element on,
  -- and moves on by one.
  pub next-some :
      (it : Iter As)
      → IterIsSound As it
      → it.index < it.len
      → next As get it
        ≡ returns
            (some (get (drop (it.index * As.size) it.payload)), record it { index = it.index + 1 })
  unfolding next
  next-some it s h =
      rw (
        lt→leb_false it.len it.index h,
        item_at_lem it.payload it.len it.index s.exact s.in_memory h,
      )

  -- Past the elements it returns nothing, again and again.
  pub next_end : (it : Iter As) → it.len ≤ it.index → next As get it ≡ returns (none, it)
  unfolding next
  next_end it h = rw (le→leb it.len it.index h)

  -- `len` counts the items that are left.
  pub iter_len_lem : (it : Iter As) → IterIsSound As it → iter_len As it + it.index ≡ it.len
  unfolding iter_len
  iter_len_lem it s = omega (arith, s.counted, s.in_range)

  -- On a sound iterator of any type that implements `DynPrimitiveTy`, and whatever its `get` returns,
  -- `next` neither overflows nor leaves the payload, keeps the iterator sound, and lowers `len` by
  -- one for each item; it returns none exactly where `len` is zero.
  pub next_safe :
      (it : Iter As)
      → IterIsSound As it
      → (o : Option (ReadResult As.Item)) × (it' : Iter As) × (next As get it ≡ returns (o, it'))
        × IterIsSound As it'
        × (iter_len As it ≡ iter_len As it' + count o)
        × ((o ≡ none) ↔ (iter_len As it ≡ 0))
  next_safe it s = elim (dec_lt it.index it.len) [
    | yes h ↦
        let it' : Iter As = record it { index = it.index + 1 } in
        let s' : IterIsSound As it' = record {
          exact = s.exact;
          counted = s.counted;
          in_memory = s.in_memory;
          in_range = h' it h;
        } in
        (
          some (get (drop (it.index * As.size) it.payload)),
          it',
          next-some it s h,
          s',
          omega (arith, iter_len_lem it s, iter_len_lem it' s'),
          (λ e. cc, λ e. absurd (omega (arith, iter_len_lem it s))),
        )
    | no h ↦ (
      none,
      it,
      next_end it (omega arith),
      s,
      omega arith,
      (λ _. omega (arith, iter_len_lem it s, s.in_range), λ _. refl),
    )
  ]
    where
      h' : (it : Iter As) → it.index < it.len → it.index + 1 ≤ it.len
      h' it h = omega arith

module _ (w : Wincode) (laws : WincodeLaws w) (A : Primitive) where
  -- The item of a primitive type is decoded from the bytes of its element.
  pub next_item :
      (it : Iter (builtin A))
      → IterIsSound (builtin A) it
      → it.index < it.len
      → next (builtin A) (get_slice w A) it
        ≡ returns (
          some (decode w A (element_bytes A it.payload it.index)),
          record it { index = it.index + 1 },
        )
  unfolding decode
  next_item it s h =
      let n = size_of A in
      let fits : it.index * n + n ≤ length it.payload =
        rw (s.exact) (element_fits it.len it.index n h) in
      let slice = drop (it.index * n) it.payload in
      let width : length (take n slice) ≡ n =
        length-take_le n slice (omega (arith, length-drop (it.index * n) it.payload)) in
      let here : get_slice w A slice ≡ get_slice w A (take n slice) =
        laws.get_local A (w.from_slice slice) (take n slice) (drop n slice)
          (laws.remaining-from_slice slice ∙ sym (take-append-drop n slice)) width in
      next-some (builtin A) (get_slice w A) it s h
      ∙ ap (λ m. returns (some m, record it { index = it.index + 1 })) here
