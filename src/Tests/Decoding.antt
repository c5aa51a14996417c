-- ===== src/Tests/Decoding.antt =====
-- Whole values, decoded by their schemas.
use wincode_dynamic.Prelude.{
  ℕ, get_elem?, some, ◌≡◌, refl, [], ◌∷◌, ◌++◌, none, arith, ◌↔◌, ◌+◌, map, true,
}
use wincode_dynamic.Wincode.{size_of, Primitive, ok}
use wincode_dynamic.Wincode.Slice.{take_bytes, interpret, le_value, ByteReader, slices, write}
use wincode_dynamic.Wincode.Slice.Lawful.{slices_laws, slice}
use wincode_dynamic.PrimitiveTy.{PrimitiveTy, type_of}
use wincode_dynamic.Parse.{parse_into_usize}
use wincode_dynamic.Fields.{next, len}
use wincode_dynamic.Fields.Drain.{count, len-next}
use wincode_dynamic.Fields.RoundTrip.{row_def, encode_rows}
use wincode_dynamic.Decoder.{decoder, decode_variant}
use wincode_dynamic.Decoder.Tag.{decode_variant-put}
use wincode_dynamic.Decoder.RoundTrip.{encode, Decodes, decode-encode}
use wincode_dynamic.Decoder.Stream.{encode_all, DecodesAll, decode-encode_all}
use wincode_dynamic.Read.{read_usize}
use wincode_dynamic.Decoder.Select.{decode_variant-IsTag}
use wincode_dynamic.Tests.Data.{
  started, message_rows, message, message_root, event, event_variants, event_root, trailer,
  message-IsWritable, event-IsWritable,
}

decode-encode_example :
    Decodes slices slices_laws
      (decoder event_root)
      event
      (slice (encode slices event ++ trailer))
      trailer
unfolding type_of
decode-encode_example =
    decode-encode slices slices_laws event_root event (slice (encode slices event ++ trailer))
      trailer (_, refl, refl, omega arith, refl, refl) event-IsWritable refl

decode-encode_all_example :
    DecodesAll slices slices_laws
      (decoder message_root)
      (message ∷ message ∷ [])
      (slice (encode_all slices (message ∷ message ∷ []) ++ trailer))
      trailer
decode-encode_all_example =
    decode-encode_all slices slices_laws message_root (message ∷ message ∷ [])
      (slice (encode_all slices (message ∷ message ∷ []) ++ trailer)) trailer
      ((refl, message-IsWritable), ((refl, message-IsWritable), tt)) refl

abbrev input : ByteReader
input = slice (encode_rows slices message_rows ++ trailer)

len-next_example :
    (len (record { fields = map row_def message_rows; reader = input })
      ≡ len (next slices (record { fields = map row_def message_rows; reader = input })).1
        + count (next slices (record { fields = map row_def message_rows; reader = input })).0)
    × (((next slices (record { fields = map row_def message_rows; reader = input })).0 ≡ none)
        ↔ (len (record { fields = map row_def message_rows; reader = input }) ≡ 0))
len-next_example = len-next slices (record { fields = map row_def message_rows; reader = input })

-- The tag 1 of an event, and a tag behind its last variant.
decode_variant-put_example :
    (r : ByteReader) × (decode_variant slices
        (record { variants = event_variants; tag_encoding = PrimitiveTy.u8 })
        (slice (1 ∷ trailer))
      ≡ ok (record { schema = started; reader = r }))
    × (r.bytes ≡ trailer)
    × (r.backing ≡ true)
unfolding type_of write
decode_variant-put_example =
    decode_variant-put slices slices_laws event_variants Primitive.u8 1 1 started
      (slice (1 ∷ trailer)) trailer refl (omega arith) refl refl

-- Any result of the decoder on that input comes from the tag 1.
selects_started :
    decode_variant slices
      (record { variants = event_variants; tag_encoding = PrimitiveTy.u8 })
      (slice (1 ∷ trailer))
    ≡ ok (record { schema = started; reader = slice trailer })
unfolding decode_variant parse_into_usize read_usize take_bytes interpret le_value size_of
selects_started = refl

decode_variant-IsTag_example :
    (n : ℕ) × (t : ℕ) × ((slices.get Primitive.u8 (slice (1 ∷ trailer))).0 ≡ ok t)
    × (t ≡ n)
    × (get_elem? event_variants n ≡ some started)
unfolding type_of
decode_variant-IsTag_example =
    decode_variant-IsTag slices event_variants Primitive.u8 (slice (1 ∷ trailer))
      (record { schema = started; reader = slice trailer }) selects_started
