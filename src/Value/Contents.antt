-- ===== src/Value/Contents.antt =====
-- The derived `PartialEq` of wincode-dynamic/src/value.rs against equality of the contents, and
-- values up to whether their bytes are borrowed.
use mathlib.Core.Quot
use mathlib.Core.Quot.{Quot, Quot-set}
use native.Mathlib.Nat.{ℕ_set}
use wincode_dynamic.Prelude.{
  ℕ, ℤ, pos, negsuc, ◌≡◌, refl, sym, ap, ◌∙◌, ◌↔◌, Bool, true, false, ◌&&◌, ◌==◌, ==_iff, List, [],
  ◌∷◌,
}
use wincode_dynamic.Wincode.{Bytes, Cow, as_ref}
use wincode_dynamic.PrimitiveTy
use wincode_dynamic.PrimitiveTy.Element.{eq_iff}
use wincode_dynamic.Value.{Value, LazyVec, size}
use wincode_dynamic.Value.Eq.{Floats, int_eq, bool_eq, list_eq, cow_eq, lazy_vec_eq, eq}

pub and_iff : (a b : Bool) → ((a && b) ≡ true) ↔ ((a ≡ true) × (b ≡ true))
and_iff true b = (λ h. (refl, h), λ h. h.1)
and_iff false b = (λ h. cc, λ h. h.0)

pub int_eq_iff : (a b : ℤ) → (int_eq a b ≡ true) ↔ (a ≡ b)
unfolding int_eq
int_eq_iff (pos m) (pos n) = (λ h. ap pos ((==_iff m n).0 h), λ h. (==_iff m n).1 cc)
int_eq_iff (pos m) (negsuc n) = (λ h. cc, λ h. cc)
int_eq_iff (negsuc m) (pos n) = (λ h. cc, λ h. cc)
int_eq_iff (negsuc m) (negsuc n) = (λ h. ap negsuc ((==_iff m n).0 h), λ h. (==_iff m n).1 cc)

pub bool_eq_iff : (a b : Bool) → (bool_eq a b ≡ true) ↔ (a ≡ b)
unfolding bool_eq
bool_eq_iff true b = (λ h. sym h, λ h. sym h)
bool_eq_iff false true = (λ h. cc, λ h. cc)
bool_eq_iff false false = (λ h. refl, λ h. refl)

-- A test of elements that is reflexive on those of a list, and one that is equality.
pub list_eq_iff :
    {A : Type 0} (eq : A → A → Bool) (xs ys : List A)
    → ((a b : A) → (eq a b ≡ true) ↔ (a ≡ b))
    → (list_eq eq xs ys ≡ true) ↔ (xs ≡ ys)
unfolding list_eq
list_eq_iff eq [] [] h = (λ e. refl, λ e. refl)
list_eq_iff eq [] (y ∷ ys) h = (λ e. cc, λ e. cc)
list_eq_iff eq (x ∷ xs) [] h = (λ e. cc, λ e. cc)
list_eq_iff eq (x ∷ xs) (y ∷ ys) h =
    let (to, from) = list_eq_iff eq xs ys h in
    (
      λ e.
          let (here, later) = (and_iff (eq x y) (list_eq eq xs ys)).0 e in
          let first = (h x y).0 here in let rest = to later in cc,
      λ e. (and_iff (eq x y) (list_eq eq xs ys)).1 ((h x y).1 cc, from cc),
    )

pub cow_eq_iff : (a b : Cow Bytes) → (cow_eq a b ≡ true) ↔ (as_ref a ≡ as_ref b)
unfolding cow_eq
cow_eq_iff a b = list_eq_iff (λ m n. m == n) (as_ref a) (as_ref b) ==_iff

-- A value that owns its bytes.
abbrev pub owned_vec : LazyVec → LazyVec
owned_vec v = record { ty = v.ty; payload = Cow.owned (as_ref v.payload); len = v.len }

unfoldable pub into_owned : Value → Value
into_owned (Value.string s) = Value.string (Cow.owned (as_ref s))
into_owned (Value.bytes s) = Value.bytes (Cow.owned (as_ref s))
into_owned (Value.vec v) = Value.vec (owned_vec v)
into_owned v = v

abbrev pub NoFloat : Value → Type 0
NoFloat (Value.f32 n) = ⊥
NoFloat (Value.f64 n) = ⊥
NoFloat _ = Unit

pub lazy_vec_eq_iff : (a b : LazyVec) → (lazy_vec_eq a b ≡ true) ↔ (owned_vec a ≡ owned_vec b)
unfolding lazy_vec_eq
lazy_vec_eq_iff a b = (
  λ h.
      let (types, rest) =
        (and_iff (PrimitiveTy.eq a.ty b.ty) (cow_eq a.payload b.payload && (a.len == b.len))).0 h in
      let (bytes, lens) = (and_iff (cow_eq a.payload b.payload) (a.len == b.len)).0 rest in
      let ty = (eq_iff a.ty b.ty).0 types in
      let payload = (cow_eq_iff a.payload b.payload).0 bytes in
      let len = (==_iff a.len b.len).0 lens in cc,
  λ h. (and_iff (PrimitiveTy.eq a.ty b.ty) (cow_eq a.payload b.payload && (a.len == b.len))).1 (
    (eq_iff a.ty b.ty).1 (ap (λ v. v.ty) h),
    (and_iff (cow_eq a.payload b.payload) (a.len == b.len)).1 (
      (cow_eq_iff a.payload b.payload).1 (ap (λ v. as_ref v.payload) h),
      (==_iff a.len b.len).1 (ap (λ v. v.len) h),
    ),
  ),
)

-- The comparison of values other than floats tells two of them apart exactly where their types or
-- contents differ, and never by whether bytes are borrowed or owned.
pub eq-contents :
    (floats : Floats) (a b : Value)
    → NoFloat a
    → (eq floats a b ≡ true) ↔ (into_owned a ≡ into_owned b)
unfolding eq into_owned
eq-contents floats (Value.u8 m) (Value.u8 n) h =
    (λ e. ap Value.u8 ((==_iff m n).0 e), λ e. (==_iff m n).1 cc)
eq-contents floats (Value.u16 m) (Value.u16 n) h =
    (λ e. ap Value.u16 ((==_iff m n).0 e), λ e. (==_iff m n).1 cc)
eq-contents floats (Value.u32 m) (Value.u32 n) h =
    (λ e. ap Value.u32 ((==_iff m n).0 e), λ e. (==_iff m n).1 cc)
eq-contents floats (Value.u64 m) (Value.u64 n) h =
    (λ e. ap Value.u64 ((==_iff m n).0 e), λ e. (==_iff m n).1 cc)
eq-contents floats (Value.i8 m) (Value.i8 n) h =
    (λ e. ap Value.i8 ((int_eq_iff m n).0 e), λ e. (int_eq_iff m n).1 cc)
eq-contents floats (Value.i16 m) (Value.i16 n) h =
    (λ e. ap Value.i16 ((int_eq_iff m n).0 e), λ e. (int_eq_iff m n).1 cc)
eq-contents floats (Value.i32 m) (Value.i32 n) h =
    (λ e. ap Value.i32 ((int_eq_iff m n).0 e), λ e. (int_eq_iff m n).1 cc)
eq-contents floats (Value.i64 m) (Value.i64 n) h =
    (λ e. ap Value.i64 ((int_eq_iff m n).0 e), λ e. (int_eq_iff m n).1 cc)
eq-contents floats (Value.f32 m) v h = absurd h
eq-contents floats (Value.f64 m) v h = absurd h
eq-contents floats (Value.bool m) (Value.bool n) h =
    (λ e. ap Value.bool ((bool_eq_iff m n).0 e), λ e. (bool_eq_iff m n).1 cc)
eq-contents floats (Value.string s) (Value.string t) h =
    (λ e. ap (λ x. Value.string (Cow.owned x)) ((cow_eq_iff s t).0 e), λ e. (cow_eq_iff s t).1 cc)
eq-contents floats (Value.bytes s) (Value.bytes t) h =
    (λ e. ap (λ x. Value.bytes (Cow.owned x)) ((cow_eq_iff s t).0 e), λ e. (cow_eq_iff s t).1 cc)
eq-contents floats (Value.vec u) (Value.vec v) h =
    (λ e. ap Value.vec ((lazy_vec_eq_iff u v).0 e), λ e. (lazy_vec_eq_iff u v).1 cc)
eq-contents floats _ _ h = (λ e. cc, λ e. cc)

-- What a value is when it does not matter whether its bytes are borrowed.
abbrev SameContents : Value → Value → Type 0
SameContents a b = into_owned a ≡ into_owned b

abbrev pub Contents : Type 0
Contents = Quot SameContents

unfoldable pub contents : Value → Contents
contents v = Quot.mk v

size-into_owned : (v : Value) → size (into_owned v) ≡ size v
unfolding size into_owned
size-into_owned (Value.string s) = refl
size-into_owned (Value.bytes s) = refl
size-into_owned (Value.vec v) = refl
size-into_owned _ = refl

-- `Value::size` is a function of the contents.
contents_size : Contents → ℕ
contents_size =
    Quot.lift ℕ_set size (λ a b h. sym (size-into_owned a) ∙ ap size h ∙ size-into_owned b)

contents_size_lem : (v : Value) → contents_size (contents v) ≡ size v
unfolding contents_size contents
contents_size_lem v = refl

pub contents_same : (a b : Value) → into_owned a ≡ into_owned b → contents a ≡ contents b
unfolding contents
contents_same a b h = Quot.sound h
