-- ===== src/LenMap/Unwind.antt =====
-- wincode-dynamic/src/wincode_extra.rs: the loop on the memory of the vector against the loop on a
-- list of elements.
use wincode_dynamic.Prelude.{
  ℕ, zero, suc, ◌+◌, ◌*◌, ◌≡◌, refl, sym, ap, ◌∙◌, true, List, [], ◌∷◌, ◌++◌, map, append-nil,
  Option, none, some, length, length-append, leb, le→leb, ◌⊎◌, inl, inr, arith, Bool-cases,
  if◌then◌else◌,
}
use wincode_dynamic.Wincode.{Wincode, Primitive, El, Read, ReadResult, ReadError, ok, err, TypeMeta}
use wincode_dynamic.LenMap.Raw.{
  RawVec, uninit, isize_max, write_slot, drop_slots, Ended, Mapper, push_mapped, map_value,
  get_value, raw_fill, raw_fill_trusted, read_into, read_with_context,
}

-- The reference: a loop that grows a list, and drops it at an error and at a panic.
pub data Finished {ℓ} (B : Type ℓ) : Type ℓ where
  written : List B → Finished B
  failed : ReadError → List B → Finished B
  unwound : List B → Finished B

abbrev pub in_memory {ℓ} : {B : Type ℓ} → Finished B → Ended B
in_memory (Finished.written bs) = Ended.written (record { slots = map some bs; len = length bs })
in_memory (Finished.failed e bs) = Ended.failed e bs
in_memory (Finished.unwound bs) = Ended.unwound bs

module _ {ℓ} {S R : Type 0} {B : Type ℓ} where
  abbrev pub list_map :
      List B → Option B × S → R → (B → S → Finished B × S × R) → Finished B × S × R
  list_map bs (none, s) r rest = (Finished.unwound bs, s, r)
  list_map bs (some b, s) r rest = rest b s

module _ {ℓ} {S R A : Type 0} {B : Type ℓ} where
  abbrev pub list_get :
      List B → ReadResult A × R → S → (A → R → Finished B × S × R) → Finished B × S × R
  list_get bs (err e, r) s rest = (Finished.failed e bs, s, r)
  list_get bs (ok a, r) s rest = rest a r

  unfoldable pub list_fill : Read R A → Mapper S A B → ℕ → List B → S → R → Finished B × S × R
  list_fill get f zero bs s r = (Finished.written bs, s, r)
  list_fill get f (suc n) bs s r =
      list_get bs (get r) s
        (λ a r'. list_map bs (f a s) r' (λ b s'. list_fill get f n (bs ++ (b ∷ [])) s' r'))

-- A vector whose first elements are `bs`, with `n` more slots.
abbrev filled {ℓ} : {B : Type ℓ} → List B → ℕ → RawVec B
filled bs n = record { slots = map some bs ++ uninit n; len = length bs }

module _ {ℓ} {B : Type ℓ} where
  write_slot-end :
      (bs : List B) (b : B) (n : ℕ)
      → write_slot (length bs) b (map some bs ++ uninit (suc n))
        ≡ some (map some (bs ++ (b ∷ [])) ++ uninit n)
  write_slot-end [] b n = refl
  write_slot-end (x ∷ bs) b n = rw (write_slot-end bs b n)

  drop_slots_filled :
      (bs : List B) (rest : List (Option B))
      → drop_slots (length bs) (map some bs ++ rest) ≡ some bs
  drop_slots_filled [] rest = refl
  drop_slots_filled (x ∷ bs) rest = rw (drop_slots_filled bs rest)

  length-map-some : (bs : List B) → length (map {B = Option B} some bs) ≡ length bs
  length-map-some [] = refl
  length-map-some (x ∷ bs) = ap suc (length-map-some bs)

  length-snoc : (bs : List B) (b : B) → length (bs ++ (b ∷ [])) ≡ length bs + 1
  length-snoc bs b = length-append bs (b ∷ [])

  fits :
      (bs : List B) (b : B) (n : ℕ)
      → leb (length bs + 1) (length (map {B = Option B} some (bs ++ (b ∷ [])) ++ uninit n)) ≡ true
  fits bs b n = le→leb (length bs + 1) (length (map some (bs ++ (b ∷ [])) ++ uninit n)) (
      omega (
        arith,
        length-append (map some (bs ++ (b ∷ []))) (uninit n),
        length-map-some (bs ++ (b ∷ [])),
        length-snoc bs b,
      ))

module _ {ℓ} {S R : Type 0} {B : Type ℓ} where
  push_mapped_lem :
      (bs : List B) (b : B) (n : ℕ) (rest : RawVec B → Ended B × S × R) (s : S) (r : R)
      → push_mapped (length bs) b (filled bs (suc n)) rest s r ≡ rest (filled (bs ++ (b ∷ [])) n)
  push_mapped_lem bs b n rest s r =
      rw (write_slot-end bs b n, push_mapped, fits bs b n, length-snoc bs b)

-- The outcome of the loop on a list, laid out in memory.
abbrev pub laid_out {ℓ} : {S R : Type 0} {B : Type ℓ} → Finished B × S × R → Ended B × S × R
laid_out p = (in_memory p.0, p.1, p.2)

module _ {ℓ} {S R : Type 0} {B : Type ℓ} where
  map_value_lem :
      (bs : List B) (n : ℕ) (p : Option B × S) (r : R) (raw : B → S → Ended B × S × R)
      (list : B → S → Finished B × S × R)
      → ((b : B) (s : S) → raw b s ≡ laid_out (list b s))
      → map_value (filled bs n) p r raw ≡ laid_out (list_map bs p r list)
  map_value_lem bs n (none, s) r raw list h = rw (drop_slots_filled bs (uninit n))
  map_value_lem bs n (some b, s) r raw list h = h b s

module _ {ℓ} {S R A : Type 0} {B : Type ℓ} where
  get_value_lem :
      (bs : List B) (n : ℕ) (p : ReadResult A × R) (s : S) (raw : A → R → Ended B × S × R)
      (list : A → R → Finished B × S × R)
      → ((a : A) (r : R) → raw a r ≡ laid_out (list a r))
      → get_value (filled bs n) p s raw ≡ laid_out (list_get bs p s list)
  get_value_lem bs n (err e, r) s raw list h = rw (drop_slots_filled bs (uninit n))
  get_value_lem bs n (ok a, r) s raw list h = h a r

module _ {ℓ} {S R A : Type 0} {B : Type ℓ} (get : Read R A) (f : Mapper S A B) where
  raw_fill_lem :
      (n : ℕ) (bs : List B) (s : S) (r : R)
      → raw_fill get f (length bs) n (filled bs n) s r ≡ laid_out (list_fill get f n bs s r)
  unfolding raw_fill list_fill
  raw_fill_lem zero bs s r = rw (append-nil (map {B = Option B} some bs))
  raw_fill_lem (suc n) bs s r = get_value_lem bs (suc n) (get r) s _ _ (λ a r'.
      map_value_lem bs (suc n) (f a s) r' _ _ (λ b s'.
        push_mapped_lem bs b n (λ vec. raw_fill get f (length bs + 1) n vec s' r') s' r'
        ∙ rw (sym (length-snoc bs b)) (raw_fill_lem n (bs ++ (b ∷ [])) s' r')))

-- The reference of the whole operation: a list grows instead of the memory.
abbrev pub list_fill_trusted {ℓ} :
    {S : Type 0} (w : Wincode) (A : Primitive) {B : Type ℓ}
    → Mapper S (El A) B
    → ℕ
    → S
    → ReadResult w.Trusted × w.Reader
    → Finished B × S × w.Reader
list_fill_trusted w A f len s (ok t, r) =
    let (finished, s', _) = list_fill (w.get_trusted A) f len [] s t in (finished, s', r)
list_fill_trusted w A f len s (err e, r) = (Finished.failed e [], s, r)

unfoldable pub list_read_into {ℓ} :
    {S : Type 0} (w : Wincode) (A : Primitive) {B : Type ℓ}
    → ℕ
    → Mapper S (El A) B
    → S
    → w.Reader
    → Finished B × S × w.Reader
unfolding list_fill
list_read_into w A len f s r = elim (w.type_meta A) [
  | TypeMeta.static size ↦ list_fill_trusted w A f len s (w.as_trusted_for_seq len size r)
  | TypeMeta.dynamic ↦ list_fill (w.get A) f len [] s r
]

-- A panic before anything is read, where the elements do not fit into an allocation.
unfoldable pub list_read {ℓ} :
    {S : Type 0} (w : Wincode) (A : Primitive) {B : Type ℓ}
    → (width len : ℕ) → Mapper S (El A) B
    → S
    → w.Reader
    → Finished B × S × w.Reader
unfolding list_read_into
list_read w A width len f s r =
    if leb (len * width) isize_max
    then list_read_into w A len f s r
    else (Finished.unwound [], s, r)

pub type_meta_cases :
    (m : TypeMeta) → ((size : ℕ) × (m ≡ TypeMeta.static size)) ⊎ (m ≡ TypeMeta.dynamic)
type_meta_cases (TypeMeta.static size) = inl (size, refl)
type_meta_cases TypeMeta.dynamic = inr refl

module _ {ℓ} {S : Type 0} (w : Wincode) (A : Primitive) {B : Type ℓ} (len : ℕ) where
  raw_fill_trusted_lem :
      (f : Mapper S (El A) B) (s : S) (p : ReadResult w.Trusted × w.Reader)
      → raw_fill_trusted w A f len (filled [] len) s p ≡ laid_out (list_fill_trusted w A f len s p)
  raw_fill_trusted_lem f s (ok t, r) =
      ap (λ q. (q.0, q.1, r)) (raw_fill_lem (w.get_trusted A) f len [] s t)
  raw_fill_trusted_lem f s (err e, r) = refl

  read_into_lem :
      (f : Mapper S (El A) B) (s : S) (r : w.Reader)
      → read_into w A len (filled [] len) f s r ≡ laid_out (list_read_into w A len f s r)
  unfolding read_into list_read_into
  read_into_lem f s r = elim (type_meta_cases (w.type_meta A)) [
    | inl (size, e) ↦
        rw (e, read_into, list_read_into)
          (raw_fill_trusted_lem f s (w.as_trusted_for_seq len size r))
    | inr e ↦ rw (e, read_into, list_read_into) (raw_fill_lem (w.get A) f len [] s r)
  ]

  -- On any input, and for any mapping function, with a state and panics, and any size of the
  -- elements, the operation never writes outside of the allocation, never gives the vector a length
  -- above its capacity and never drops what is not initialized; it ends as the loop on a list does:
  -- with the mapped elements in `dst`, or with an error or a panic at which exactly the elements
  -- mapped before it are dropped, none where the capacity overflows.
  pub read_with_context_lem :
      (width : ℕ) (f : Mapper S (El A) B) (s : S) (r : w.Reader)
      → read_with_context w A width len f s r ≡ laid_out (list_read w A width len f s r)
  unfolding read_with_context list_read
  read_with_context_lem width f s r = elim (Bool-cases (leb (len * width) isize_max)) [
    | inl e ↦ rw (read_with_context, e) (read_into_lem f s r)
    | inr e ↦ rw (read_with_context, e) refl
  ]
