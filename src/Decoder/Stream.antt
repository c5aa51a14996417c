-- ===== src/Decoder/Stream.antt =====
-- Values that follow one another in the input, decoded by one decoder from one reader, as the
-- README describes it for a connection.
use wincode_dynamic.Prelude.{suc, ◌≡◌, ◌∙◌, List, [], ◌∷◌, ◌++◌, map, append_assoc, length, All}
use wincode_dynamic.Wincode.{Wincode, Bytes, ok}
use wincode_dynamic.Wincode.Laws.{WincodeLaws}
use wincode_dynamic.Schema.{RootSchema}
use wincode_dynamic.Fields.{Fields}
use wincode_dynamic.Fields.Drain.{finished, collect}
use wincode_dynamic.Fields.RoundTrip.{row_field, IsWritableRow}
use wincode_dynamic.Decoder.{Decoder, decoder, fields}
use wincode_dynamic.Decoder.RoundTrip.{Value, rows_of, encode, Describes, decode-encode}

unfoldable pub encode_all : (w : Wincode) → List Value → Bytes
encode_all w [] = []
encode_all w (v ∷ vs) = encode w v ++ encode_all w vs

-- A value that the schema describes and that stays within the limits.
abbrev pub IsRecord : (w : Wincode) → WincodeLaws w → RootSchema → Value → Type 0
IsRecord w laws root v = Describes root v × All (IsWritableRow w laws) (rows_of v)

module _ (w : Wincode) (laws : WincodeLaws w) where
  open laws use {remaining}

  -- Each value is decoded where the one before it ended, and `rest` is left.
  abbrev pub DecodesAll : Decoder → List Value → w.Reader → Bytes → Type 0
  DecodesAll d [] r rest = remaining r ≡ rest
  DecodesAll d (v ∷ vs) r rest =
      (it : Fields w.Reader) × (r' : w.Reader) × (fields w d r ≡ ok it)
      × (collect w (suc (length (rows_of v))) it ≡ (
        finished (ok (map (row_field w (w.supports_borrow r)) (rows_of v))),
        record { fields = []; reader = r' },
      ))
      × DecodesAll d vs r' rest

  -- A decoder reads any number of values that were written one behind the other, where the schema
  -- describes each and their texts and sequences are within the preallocation limit.
  pub decode-encode_all :
      (root : RootSchema) (vs : List Value) (r : w.Reader) (rest : Bytes)
      → All (IsRecord w laws root) vs
      → remaining r ≡ encode_all w vs ++ rest
      → DecodesAll (decoder root) vs r rest
  unfolding encode_all
  decode-encode_all root [] r rest h e = e
  decode-encode_all root (v ∷ vs) r rest ((described, writable), hs) e =
      let (it, r', given, run, left, _) =
        decode-encode w laws root v r (encode_all w vs ++ rest) described writable
          (e ∙ append_assoc (encode w v) (encode_all w vs) rest) in
      (it, r', given, run, decode-encode_all root vs r' rest hs left)
