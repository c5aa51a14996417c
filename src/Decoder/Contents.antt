-- ===== src/Decoder/Contents.antt =====
-- Decoding from a reader that lends its bytes, and from one that does not, by a `Decoder`
-- (wincode-dynamic/src/lib.rs).
use wincode_dynamic.Prelude.{
  ℕ, suc, ◌≡◌, refl, ap, Bool, true, false, String, Option, List, [], ◌∷◌, ◌++◌, map, length, All,
}
use wincode_dynamic.Wincode.{Wincode, Bytes, Primitive, El, ok}
use wincode_dynamic.Wincode.Laws.{WincodeLaws}
use wincode_dynamic.Ty.{Ty, FieldType, Datum}
use wincode_dynamic.Value.Contents.{into_owned, Contents, contents, contents_same}
use wincode_dynamic.Lazy.{new_unchecked}
use wincode_dynamic.Parse.RoundTrip.{decoded, sequence_value}
use wincode_dynamic.Schema.{RootSchema}
use wincode_dynamic.Fields.{Field, Fields}
use wincode_dynamic.Fields.Drain.{finished, collect}
use wincode_dynamic.Fields.RoundTrip.{Row, row_field, IsWritableRow}
use wincode_dynamic.Decoder.{decoder, fields}
use wincode_dynamic.Decoder.RoundTrip.{Value, rows_of, encode, Describes, decode-encode}

-- A decoded field, with the contents of its value.
abbrev pub field_contents : Field → String × Ty × Option ℕ × Contents
field_contents f = (f.name, f.ty, f.size, contents f.value)

sequence_value-into_owned :
    (w : Wincode) (b c : Bool) (A : Primitive) (xs : List (El A))
    → into_owned (sequence_value w b A xs) ≡ into_owned (sequence_value w c A xs)
unfolding sequence_value into_owned new_unchecked
sequence_value-into_owned w true true A xs = refl
sequence_value-into_owned w false false A xs = refl
sequence_value-into_owned w true false Primitive.u8 xs = refl
sequence_value-into_owned w true false _ xs = refl
sequence_value-into_owned w false true Primitive.u8 xs = refl
sequence_value-into_owned w false true _ xs = refl

string-into_owned :
    (w : Wincode) (b c : Bool) (text : Bytes)
    → into_owned (decoded w b FieldType.string text)
      ≡ into_owned (decoded w c FieldType.string text)
unfolding decoded into_owned
string-into_owned w true true text = refl
string-into_owned w true false text = refl
string-into_owned w false true text = refl
string-into_owned w false false text = refl

decoded-into_owned :
    (w : Wincode) (b c : Bool) (T : FieldType) (d : Datum T)
    → into_owned (decoded w b T d) ≡ into_owned (decoded w c T d)
unfolding decoded
decoded-into_owned w b c (FieldType.primitive A) d = refl
decoded-into_owned w b c FieldType.string d = string-into_owned w b c d
decoded-into_owned w b c (FieldType.vec A) d = sequence_value-into_owned w b c A d
decoded-into_owned w b c (FieldType.array A n) d = sequence_value-into_owned w b c A d

rows_contents :
    (w : Wincode) (b c : Bool) (rows : List Row)
    → map field_contents (map (row_field w b) rows) ≡ map field_contents (map (row_field w c) rows)
rows_contents w b c [] = refl
rows_contents w b c (row ∷ rows) = rw (
  contents_same (decoded w b row.ty row.datum) (decoded w c row.ty row.datum)
      (decoded-into_owned w b c row.ty row.datum),
  rows_contents w b c rows,
)

-- A serialized value, texts and sequences within the preallocation limit, is decoded from any two
-- readers over it, whatever follows in each and whether or not each lends its bytes, to fields with
-- the same names, types, sizes and contents.
pub decode-contents :
    (w : Wincode) (laws : WincodeLaws w) (root : RootSchema) (v : Value) (r s : w.Reader)
    (rest rest' : Bytes)
    → Describes root v
    → All (IsWritableRow w laws) (rows_of v)
    → laws.remaining r ≡ encode w v ++ rest
    → laws.remaining s ≡ encode w v ++ rest'
    → (it it' : Fields w.Reader) × (fs gs : List Field) × (fields w (decoder root) r ≡ ok it)
      × (fields w (decoder root) s ≡ ok it')
      × ((collect w (suc (length (rows_of v))) it).0 ≡ finished (ok fs))
      × ((collect w (suc (length (rows_of v))) it').0 ≡ finished (ok gs))
      × (map field_contents fs ≡ map field_contents gs)
decode-contents w laws root v r s rest rest' described h e k =
    let (it, _, given, run, _, _) = decode-encode w laws root v r rest described h e in
    let (it', _, given', run', _, _) = decode-encode w laws root v s rest' described h k in
    (
      it,
      it',
      map (row_field w (w.supports_borrow r)) (rows_of v),
      map (row_field w (w.supports_borrow s)) (rows_of v),
      given,
      given',
      ap (λ p. p.0) run,
      ap (λ p. p.0) run',
      rows_contents w (w.supports_borrow r) (w.supports_borrow s) (rows_of v),
    )
