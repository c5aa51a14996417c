-- ===== src/LenMap/Raw.antt =====
-- wincode-dynamic/src/wincode_extra.rs: `LenMap::read_with_context` on the memory of the vector that
-- it fills, with a mapping function that has a state and may panic.
use wincode_dynamic.Prelude.{
  ℕ, zero, suc, ◌+◌, ◌*◌, ◌-◌, ◌^◌, List, [], ◌∷◌, Option, none, some, length, leb, if◌then◌else◌,
}
use wincode_dynamic.Wincode.{Wincode, Primitive, El, Read, ReadResult, ReadError, ok, err, TypeMeta}

-- `Vec<B>`: the slots of its allocation, initialized or not, and its length.
pub record RawVec {ℓ} (B : Type ℓ) : Type ℓ where
  pub slots : List (Option B)
  pub len : ℕ

abbrev pub uninit {ℓ} : {B : Type ℓ} → ℕ → List (Option B)
uninit zero = []
uninit (suc n) = none ∷ uninit n

-- `isize::MAX`, above which no allocation goes.
abbrev pub isize_max : ℕ
isize_max = 2 ^ 63 - 1

-- `Vec::with_capacity`, at the size of an element; `none` is the panic of a capacity overflow.
abbrev pub with_capacity {ℓ} : {B : Type ℓ} → (width n : ℕ) → Option (RawVec B)
with_capacity width n =
    if leb (n * width) isize_max then some (record { slots = uninit n; len = 0 }) else none

-- `ptr.add(i).write(mapped)`; `none` is a write outside of the allocation.
abbrev pub write_slot {ℓ} : {B : Type ℓ} → ℕ → B → List (Option B) → Option (List (Option B))
write_slot i b [] = none
write_slot zero b (slot ∷ slots) = some (some b ∷ slots)
write_slot (suc i) b (slot ∷ slots) = elim (write_slot i b slots) [
  | none ↦ none
  | some slots' ↦ some (slot ∷ slots')
]

-- `Vec`'s drop: the elements below the length are dropped; `none` is one that is not initialized.
abbrev pub drop_slots {ℓ} : {B : Type ℓ} → ℕ → List (Option B) → Option (List B)
drop_slots zero slots = some []
drop_slots (suc n) [] = none
drop_slots (suc n) (none ∷ slots) = none
drop_slots (suc n) (some b ∷ slots) = elim (drop_slots n slots) [
  | none ↦ none
  | some bs ↦ some (b ∷ bs)
]

abbrev pub drop_vec {ℓ} : {B : Type ℓ} → RawVec B → Option (List B)
drop_vec vec = drop_slots vec.len vec.slots

-- How the operation ends: with the vector in `dst`; with an error or an unwinding panic, and the
-- elements that are dropped; or in undefined behaviour.
pub data Ended {ℓ} (B : Type ℓ) : Type ℓ where
  written : RawVec B → Ended B
  failed : ReadError → List B → Ended B
  unwound : List B → Ended B
  undefined : Ended B

abbrev pub failed_with {ℓ} : {B : Type ℓ} → ReadError → Option (List B) → Ended B
failed_with e none = Ended.undefined
failed_with e (some bs) = Ended.failed e bs

abbrev pub unwound_with {ℓ} : {B : Type ℓ} → Option (List B) → Ended B
unwound_with none = Ended.undefined
unwound_with (some bs) = Ended.unwound bs

-- `FnMut(A::Dst) -> B`: a state, and a call that returns or panics.
abbrev pub Mapper {ℓ} : (S A : Type 0) (B : Type ℓ) → Type ℓ
Mapper S A B = A → S → Option B × S

module _ {ℓ} {S R : Type 0} {B : Type ℓ} where
  -- `ptr.add(i).write(mapped); vec.set_len(i + 1)`, and the rest of the loop; a length above the
  -- capacity is undefined.
  abbrev pub push_mapped :
      ℕ → B → RawVec B → (RawVec B → Ended B × S × R) → (s : S) (r : R) → Ended B × S × R
  push_mapped i b vec rest s r = elim (write_slot i b vec.slots) [
    | none ↦ (Ended.undefined, s, r)
    | some slots ↦
        if leb (i + 1) (length slots)
        then rest (record { slots = slots; len = i + 1 })
        else (Ended.undefined, s, r)
  ]

  -- `let mapped = (f)(val);`, and the rest of the round.
  abbrev pub map_value : RawVec B → Option B × S → R → (B → S → Ended B × S × R) → Ended B × S × R
  map_value vec (none, s) r rest = (unwound_with (drop_vec vec), s, r)
  map_value vec (some b, s) r rest = rest b s

module _ {ℓ} {S R A : Type 0} {B : Type ℓ} where
  -- `let val = A::get(reader.by_ref())?;`, and the rest of the round.
  abbrev pub get_value :
      RawVec B → ReadResult A × R → S → (A → R → Ended B × S × R) → Ended B × S × R
  get_value vec (err e, r) s rest = (failed_with e (drop_vec vec), s, r)
  get_value vec (ok a, r) s rest = rest a r

  -- `for i in 0..len { … }`, from an index on, for the rounds that are left.
  unfoldable pub raw_fill : Read R A → Mapper S A B → ℕ → ℕ → RawVec B → S → R → Ended B × S × R
  raw_fill get f i zero vec s r = (Ended.written vec, s, r)
  raw_fill get f i (suc n) vec s r = get_value vec (get r) s (λ a r'.
      map_value vec (f a s) r'
        (λ b s'. push_mapped i b vec (λ vec'. raw_fill get f (i + 1) n vec' s' r') s' r'))

-- Through a trusted reader, which leaves the parent as `as_trusted_for_seq` left it.
abbrev pub raw_fill_trusted {ℓ} :
    {S : Type 0} (w : Wincode) (A : Primitive) {B : Type ℓ}
    → Mapper S (El A) B
    → ℕ
    → RawVec B
    → S
    → ReadResult w.Trusted × w.Reader
    → Ended B × S × w.Reader
raw_fill_trusted w A f len vec s (ok t, r) =
    let (ended, s', _) = raw_fill (w.get_trusted A) f 0 len vec s t in (ended, s', r)
raw_fill_trusted w A f len vec s (err e, r) = (failed_with e (drop_vec vec), s, r)

-- `match A::TYPE_META { … }`, on the vector that was allocated.
unfoldable pub read_into {ℓ} :
    {S : Type 0} (w : Wincode) (A : Primitive) {B : Type ℓ}
    → ℕ
    → RawVec B
    → Mapper S (El A) B
    → S
    → w.Reader
    → Ended B × S × w.Reader
unfolding raw_fill
read_into w A len vec f s r = elim (w.type_meta A) [
  | TypeMeta.static size ↦ raw_fill_trusted w A f len vec s (w.as_trusted_for_seq len size r)
  | TypeMeta.dynamic ↦ raw_fill (w.get A) f 0 len vec s r
]

-- `<Vec<B> as SchemaReadContext<DefaultConfig, LenMap<A, F>>>::read_with_context`, at the size of
-- `B`.
unfoldable pub read_with_context {ℓ} :
    {S : Type 0} (w : Wincode) (A : Primitive) {B : Type ℓ}
    → (width len : ℕ) → Mapper S (El A) B
    → S
    → w.Reader
    → Ended B × S × w.Reader
unfolding read_into
read_with_context w A {B} width len f s r = elim (with_capacity {B = B} width len) [
  | none ↦ (Ended.unwound [], s, r)
  | some vec ↦ read_into w A len vec f s r
]
