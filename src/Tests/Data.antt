-- ===== src/Tests/Data.antt =====
-- A message and an event, their schemas, and readers over their encodings.
use wincode_dynamic.Prelude.{List, refl, [], ◌∷◌, map, none, some, All, arith}
use wincode_dynamic.Value.{LazyVec}
use wincode_dynamic.Wincode.{Bytes, Cow, Primitive, size_of}
use wincode_dynamic.Wincode.Slice.{slices, is_ascii}
use wincode_dynamic.Wincode.Slice.Lawful.{slices_laws}
use wincode_dynamic.PrimitiveTy.{PrimitiveTy}
use wincode_dynamic.Ty.{FieldType}
use wincode_dynamic.Schema.{Schema, RootSchema}
use wincode_dynamic.Fields.RoundTrip.{Row, row_def, IsWritableRow}
use wincode_dynamic.Decoder.RoundTrip.{Value}

abbrev pub id_row : Row
id_row = record { name = "id"; size = some 4; ty = FieldType.primitive Primitive.u32; datum = 7 }

abbrev pub samples_row : Row
samples_row = record {
  name = "samples";
  size = none;
  ty = FieldType.vec Primitive.u16;
  datum = 1 ∷ 2 ∷ [];
}

abbrev pub label_row : Row
label_row = record { name = "label"; size = none; ty = FieldType.string; datum = 104 ∷ 105 ∷ [] }

abbrev pub later_rows : List Row
later_rows = samples_row ∷ label_row ∷ []

abbrev pub message_rows : List Row
message_rows = id_row ∷ later_rows

abbrev pub message : Value
message = Value.struct message_rows

abbrev pub message_schema : Schema
message_schema = record { name = "Message"; fields = map row_def message_rows; size = none }

abbrev pub message_root : RootSchema
message_root = RootSchema.struct message_schema

-- Two numbers, as they are decoded from an array.
abbrev pub pair_vec : LazyVec
pair_vec = record { ty = PrimitiveTy.u16; payload = Cow.borrowed (1 ∷ 0 ∷ 2 ∷ 0 ∷ []); len = 2 }

-- The second of two variants, with a one-byte tag.
abbrev pub event : Value
event = Value.variant Primitive.u8 1 1 (id_row ∷ [])

abbrev pub started : Schema
started = record { name = "Started"; fields = map row_def (id_row ∷ []); size = some 4 }

abbrev pub event_variants : List Schema
event_variants = record { name = "Stopped"; fields = []; size = some 0 } ∷ started ∷ []

abbrev pub event_root : RootSchema
event_root = RootSchema.enum event_variants none "Event" PrimitiveTy.u8

abbrev pub trailer : Bytes
trailer = 255 ∷ []

pub id_row-IsWritable : IsWritableRow slices slices_laws id_row
id_row-IsWritable = omega arith

pub samples_row-IsWritable : IsWritableRow slices slices_laws samples_row
unfolding size_of
samples_row-IsWritable = ((omega arith, (omega arith, tt)), omega arith)

pub label_row-IsWritable : IsWritableRow slices slices_laws label_row
unfolding is_ascii
label_row-IsWritable = (refl, omega arith)

pub message-IsWritable : All (IsWritableRow slices slices_laws) message_rows
message-IsWritable = (id_row-IsWritable, (samples_row-IsWritable, (label_row-IsWritable, tt)))

pub event-IsWritable : All (IsWritableRow slices slices_laws) (id_row ∷ [])
event-IsWritable = (id_row-IsWritable, tt)
