-- ===== src/Fields/RoundTrip.antt =====
-- Decoding the fields of a serialized struct or variant by its schema.
use wincode_dynamic.Prelude.{
  ℕ, suc, ◌≡◌, refl, ap, ◌∙◌, String, Bool, List, [], ◌∷◌, ◌++◌, map, append_assoc, Option, some,
  length, All,
}
use wincode_dynamic.Wincode.{Wincode, Bytes, ok}
use wincode_dynamic.Wincode.Laws.{WincodeLaws}
use wincode_dynamic.Ty.{FieldType, Datum, type_of}
use wincode_dynamic.Schema.{FieldDef}
use wincode_dynamic.Parse.{parse}
use wincode_dynamic.Parse.RoundTrip.{serialize, IsWritable, decoded, parse-serialize}
use wincode_dynamic.Fields.{Field, field_of, parse_field, next}
use wincode_dynamic.Fields.Drain.{
  finished, cons_collected, collect, collect-ok, collect-nil, next-ok,
}

-- A field of a Rust value, with the name and the size that its definition records.
pub record Row : Type 0 where
  pub name : String
  pub size : Option ℕ
  pub ty : FieldType
  pub datum : Datum ty

abbrev pub row_def : Row → FieldDef
row_def row = record { name = row.name; ty = type_of row.ty; size = row.size }

-- wincode writes the fields one behind the other.
unfoldable pub encode_rows : (w : Wincode) → List Row → Bytes
encode_rows w [] = []
encode_rows w (row ∷ rows) = serialize w row.ty row.datum ++ encode_rows w rows

abbrev pub IsWritableRow : (w : Wincode) → WincodeLaws w → Row → Type 0
IsWritableRow w laws row = IsWritable w laws row.ty row.datum

abbrev pub row_field : Wincode → Bool → Row → Field
row_field w borrows row = field_of (row_def row) (decoded w borrows row.ty row.datum)

module _ (w : Wincode) (laws : WincodeLaws w) where
  open laws use {remaining}

  split_row :
      (row : Row) (rows : List Row) (r : w.Reader) (rest : Bytes)
      → remaining r ≡ encode_rows w (row ∷ rows) ++ rest
      → remaining r ≡ serialize w row.ty row.datum ++ (encode_rows w rows ++ rest)
  unfolding encode_rows
  split_row row rows r rest e = e ∙ append_assoc _ (encode_rows w rows) rest

  -- One call of `next` decodes the first field, whose text or sequence is within the preallocation
  -- limit, and leaves the reader at the second.
  pub next-encode_rows :
      (row : Row) (rows : List Row) (r : w.Reader) (rest : Bytes)
      → IsWritableRow w laws row
      → remaining r ≡ encode_rows w (row ∷ rows) ++ rest
      → (r' : w.Reader) × (next w (record { fields = map row_def (row ∷ rows); reader = r }) ≡ (
        some (ok (row_field w (w.supports_borrow r) row)),
        record { fields = map row_def rows; reader = r' },
      ))
        × (remaining r' ≡ encode_rows w rows ++ rest)
        × (w.supports_borrow r' ≡ w.supports_borrow r)
  unfolding parse_field
  next-encode_rows row rows r rest h e =
      let (read, left, borrows) =
        parse-serialize w laws row.ty row.datum r (encode_rows w rows ++ rest) h
          (split_row row rows r rest e) in
      (
        (parse w (type_of row.ty) r).1,
        next-ok w (row_def row) (map row_def rows) r read,
        left,
        borrows,
      )

  -- Every field of a serialized value is decoded, in schema order, and exactly the value's bytes
  -- are consumed, for texts and sequences within the preallocation limit.
  pub collect-encode_rows :
      (rows : List Row) (r : w.Reader) (rest : Bytes)
      → All (IsWritableRow w laws) rows
      → remaining r ≡ encode_rows w rows ++ rest
      → (r' : w.Reader) × (collect w
            (suc (length rows))
            (record { fields = map row_def rows; reader = r })
          ≡ (
            finished (ok (map (row_field w (w.supports_borrow r)) rows)),
            record { fields = []; reader = r' },
          ))
        × (remaining r' ≡ rest)
        × (w.supports_borrow r' ≡ w.supports_borrow r)
  unfolding parse_field
  collect-encode_rows [] r rest h e = (r, collect-nil w 0 r, unfold encode_rows in e, refl)
  collect-encode_rows (row ∷ rows) r rest (h, hs) e =
      let def = row_def row in
      let r₁ = (parse_field w def r).1 in
      let (read, left, borrows) =
        parse-serialize w laws row.ty row.datum r (encode_rows w rows ++ rest) h
          (split_row row rows r rest e) in
      let (r', run, left', borrows') = collect-encode_rows rows r₁ rest hs left in
      (
        r',
        collect-ok w (suc (length rows)) def (map row_def rows) r read
            ∙ ap (λ p. (cons_collected (row_field w (w.supports_borrow r) row) p.0, p.1)) run
            ∙ ap
                (λ b. (
                  finished (ok (row_field w (w.supports_borrow r) row ∷ map (row_field w b) rows)),
                  record { fields = []; reader = r' },
                ))
                borrows,
        left',
        borrows' ∙ borrows,
      )
