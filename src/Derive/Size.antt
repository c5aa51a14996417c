-- ===== src/Derive/Size.antt =====
-- `SERIALIZED_SIZE` (wincode-dynamic-derive/src/wincode_dynamic.rs) against the lengths of the
-- encodings that the `TYPE_META`s describe.
use wincode_dynamic.Prelude.{
  ℕ, zero, suc, ◌+◌, ◌≤◌, ◌≡◌, refl, Bool, true, false, List, [], ◌∷◌, none, some, get_elem?, ltb,
  if◌then◌else◌, checked_add-fits, checked_add-overflow, usize_mod, subst, arith,
}
use native.Mathlib.Decide.{dec_lt}
use native.Mathlib.Nat.{add_assoc, zero-add}
use wincode_dynamic.Wincode.{TypeMeta}
use wincode_dynamic.Derive.{SerializedSize, sum_loop, serialized_size, max_loop, tagged_size}

unfoldable pub sum : List ℕ → ℕ
sum [] = 0
sum (n ∷ ns) = n + sum ns

-- A static `TYPE_META` states the length of every encoding.
abbrev pub MetaFits : TypeMeta → ℕ → Type 0
MetaFits (TypeMeta.static size) n = n ≡ size
MetaFits TypeMeta.dynamic n = Unit

abbrev pub Fits : List TypeMeta → List ℕ → Type 0
Fits [] [] = Unit
Fits [] (n ∷ ns) = ⊥
Fits (m ∷ ms) [] = ⊥
Fits (m ∷ ms) (n ∷ ns) = MetaFits m n × Fits ms ns

none-ne-some : {size : SerializedSize} → none ≡ some size → ⊥
none-ne-some e = cc

-- What a size says of the fields of one value: it is their length, or a part of it.
abbrev pub Within : SerializedSize → ℕ → Type 0
Within (SerializedSize.static n) total = total ≡ n
Within (SerializedSize.dynamic n) total = n ≤ total

-- The state of the loop against what was summed.
abbrev Summed : Bool → ℕ → ℕ → Type 0
Summed true fixed total = total ≡ fixed
Summed false fixed total = fixed ≤ total

Summed-static :
    (st : Bool) (fixed total k n : ℕ)
    → Summed st fixed total
    → n ≡ k
    → Summed st (fixed + k) (total + n)
Summed-static true fixed total k n s e = omega arith
Summed-static false fixed total k n s e = omega arith

Summed-dynamic :
    (st : Bool) (fixed total n : ℕ) → Summed st fixed total → Summed false fixed (total + n)
Summed-dynamic true fixed total n s = omega arith
Summed-dynamic false fixed total n s = omega arith

-- The loop goes on where the sum fits, and gives up where it overflows.
sum_loop_static :
    (fixed k : ℕ) (st : Bool) (ms : List TypeMeta) {size : SerializedSize}
    → sum_loop fixed st (TypeMeta.static k ∷ ms) ≡ some size
    → sum_loop (fixed + k) st ms ≡ some size
unfolding sum_loop
sum_loop_static fixed k st ms e = elim (dec_lt (fixed + k) usize_mod) [
  | yes h ↦ rw (checked_add-fits fixed k h, sum_loop) at e
  | no h ↦ absurd (none-ne-some (rw (checked_add-overflow fixed k (omega arith), sum_loop) at e))
]

-- The sum of a struct's fixed sizes against the encoding of its fields, from any state of the loop.
sum_loop-Within :
    (metas : List TypeMeta) (lens : List ℕ) (fixed total : ℕ) (st : Bool) (size : SerializedSize)
    → Fits metas lens
    → Summed st fixed total
    → sum_loop fixed st metas ≡ some size
    → Within size (total + sum lens)
unfolding sum
sum_loop-Within [] [] fixed total true size f s e =
    let same : SerializedSize.static fixed ≡ size = unfold sum_loop in cc in
    rw (← same) (omega arith)
sum_loop-Within [] [] fixed total false size f s e =
    let same : SerializedSize.dynamic fixed ≡ size = unfold sum_loop in cc in
    rw (← same) (omega arith)
sum_loop-Within [] (n ∷ ns) fixed total st size f s e = absurd f
sum_loop-Within (m ∷ ms) [] fixed total st size f s e = absurd f
sum_loop-Within (TypeMeta.static k ∷ ms) (n ∷ ns) fixed total st size (f, fs) s e =
    subst (Within size) (add_assoc total n (sum ns)) (
      sum_loop-Within ms ns (fixed + k) (total + n) st size fs
        (Summed-static st fixed total k n s f) (sum_loop_static fixed k st ms e))
sum_loop-Within (TypeMeta.dynamic ∷ ms) (n ∷ ns) fixed total st size (f, fs) s e =
    subst (Within size) (add_assoc total n (sum ns)) (
      sum_loop-Within ms ns fixed (total + n) false size fs (Summed-dynamic st fixed total n s)
        (unfold sum_loop in e))

-- Sequential fields: the size is the length of their encoding, or a part of it where some field is
-- dynamic. The container's own `TYPE_META` comes first.
pub serialized_size-Within :
    (meta : TypeMeta) (metas : List TypeMeta) (lens : List ℕ) (size : SerializedSize)
    → serialized_size meta metas ≡ some size
    → MetaFits meta (sum lens)
    → Fits metas lens
    → Within size (sum lens)
unfolding serialized_size
serialized_size-Within (TypeMeta.static k) metas lens size e m f =
    let same : SerializedSize.static k ≡ size = cc in rw (← same) m
serialized_size-Within TypeMeta.dynamic metas lens size e m f =
    rw zero-add at (sum_loop-Within metas lens 0 0 true size f refl e)

-- The loop keeps what it has found, and its verdict is that every variant is static.
pub max_loop_lem :
    (variants : List SerializedSize) (m : ℕ) (st : Bool)
    → (m ≤ (max_loop m st variants).0) × ((max_loop m st variants).1 ≡ true → st ≡ true)
unfolding max_loop
max_loop_lem [] m st = (omega arith, λ e. e)
max_loop_lem (SerializedSize.static k ∷ vs) m st =
    let (lo, keep) = max_loop_lem vs (if ltb m k then k else m) st in (ground arith, keep)
max_loop_lem (SerializedSize.dynamic k ∷ vs) m st =
    let (lo, keep) = max_loop_lem vs (if ltb m k then k else m) false in
    (ground arith, λ e. cc (keep e))

-- A variant is no longer than the largest one, if all are static.
pub max_loop_bound :
    (variants : List SerializedSize) (m : ℕ) (st : Bool) (i total : ℕ) (size : SerializedSize)
    → get_elem? variants i ≡ some size
    → Within size total
    → (max_loop m st variants).1 ≡ true
    → total ≤ (max_loop m st variants).0
unfolding max_loop
max_loop_bound [] m st i total size g h e = cc
max_loop_bound (SerializedSize.static k ∷ vs) m st zero total size g h e =
    let same : SerializedSize.static k ≡ size = cc in
    let exact : total ≡ k = rw (← same) at h in
    ground (arith, max_loop_lem vs (if ltb m k then k else m) st)
max_loop_bound (SerializedSize.dynamic k ∷ vs) m st zero total size g h e =
    cc ((max_loop_lem vs (if ltb m k then k else m) false).1 e)
max_loop_bound (SerializedSize.static k ∷ vs) m st (suc i) total size g h e =
    max_loop_bound vs (if ltb m k then k else m) st i total size g h e
max_loop_bound (SerializedSize.dynamic k ∷ vs) m st (suc i) total size g h e =
    max_loop_bound vs (if ltb m k then k else m) false i total size g h e

pub tagged_size-eq_static :
    (tag : ℕ) (p : ℕ × Bool) {n : ℕ}
    → tagged_size tag p ≡ some (SerializedSize.static n)
    → (n ≡ tag + p.0) × (p.1 ≡ true)
tagged_size-eq_static tag (m, true) e = elim (dec_lt (tag + m) usize_mod) [
  | yes h ↦ let run = rw (checked_add-fits tag m h, tagged_size) at e in (cc run, refl)
  | no h ↦ let run = rw (checked_add-overflow tag m (omega arith), tagged_size) at e in cc run
]
tagged_size-eq_static tag (m, false) e = elim (dec_lt (tag + m) usize_mod) [
  | yes h ↦ let run = rw (checked_add-fits tag m h, tagged_size) at e in cc run
  | no h ↦ let run = rw (checked_add-overflow tag m (omega arith), tagged_size) at e in cc run
]
