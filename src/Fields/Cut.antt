-- ===== src/Fields/Cut.antt =====
-- Fields of which the end is missing, under the iterator `Fields` (wincode-dynamic/src/lib.rs).
use wincode_dynamic.Prelude.{
  suc, ◌≡◌, sym, ap, ◌∙◌, subst, inl, inr, List, [], ◌∷◌, map, length, All, IsStrictPrefix,
  IsStrictPrefix-cases, not-IsStrictPrefix-nil,
}
use wincode_dynamic.Wincode.{Wincode, ReadError, err}
use wincode_dynamic.Wincode.Monad.{IsErr-eq_err}
use wincode_dynamic.Wincode.Laws.{WincodeLaws}
use wincode_dynamic.Ty.{type_of}
use wincode_dynamic.Parse.{parse}
use wincode_dynamic.Parse.RoundTrip.{serialize, parse-serialize}
use wincode_dynamic.Parse.Cut.{parse-serialize_cut}
use wincode_dynamic.Fields.{parse_field}
use wincode_dynamic.Fields.Drain.{finished, cons_collected, collect, collect-ok, collect-err}
use wincode_dynamic.Fields.RoundTrip.{Row, row_def, row_field, encode_rows, IsWritableRow}

module _ (w : Wincode) (laws : WincodeLaws w) where
  open laws use {remaining}

  -- Collecting the fields of a value that is cut off, at any byte, ends with an error.
  pub collect-encode_rows_cut :
      (rows : List Row) (r : w.Reader)
      → All (IsWritableRow w laws) rows
      → IsStrictPrefix (remaining r) (encode_rows w rows)
      → (x : ReadError) × ((collect w
            (suc (length rows))
            (record { fields = map row_def rows; reader = r })).0
          ≡ finished (err x))
  unfolding encode_rows parse_field
  collect-encode_rows_cut [] r h cut = absurd (not-IsStrictPrefix-nil (remaining r) cut)
  collect-encode_rows_cut (row ∷ rows) r (h, hs) cut =
      let def = row_def row in
      let bytes = serialize w row.ty row.datum in
      elim (IsStrictPrefix-cases (remaining r) bytes (encode_rows w rows) cut) [
        | inl early ↦
            let (x, failed) =
              IsErr-eq_err (parse w (type_of row.ty) r).0
                (parse-serialize_cut w laws row.ty row.datum r h early) in
            (x, ap (λ p. p.0) (collect-err w (suc (length rows)) def (map row_def rows) r failed))
        | inr (rest, e, late) ↦
            let (read, left, borrows) = parse-serialize w laws row.ty row.datum r rest h e in
            let r' = (parse w (type_of row.ty) r).1 in
            let cut' = subst (λ xs. IsStrictPrefix xs (encode_rows w rows)) (sym left) late in
            let (x, failed) = collect-encode_rows_cut rows r' hs cut' in
            (
              x,
              ap (λ p. p.0) (collect-ok w (suc (length rows)) def (map row_def rows) r read)
                  ∙ ap (cons_collected (row_field w (w.supports_borrow r) row)) failed,
            )
      ]
