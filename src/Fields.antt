-- ===== src/Fields.antt =====
-- wincode-dynamic/src/lib.rs: the iterator `Fields`, which decodes the fields of a payload in
-- schema order.
pub mod Drain
pub mod RoundTrip
pub mod Typed
pub mod Cut
pub mod Steps
use wincode_dynamic.Prelude.{ℕ, String, List, [], ◌∷◌, Option, none, some, length}
use wincode_dynamic.Wincode.{Wincode, Read, ReadResult}
use wincode_dynamic.Wincode.Monad.{map_read}
use wincode_dynamic.Ty.{Ty}
use wincode_dynamic.Value.{Value}
use wincode_dynamic.Parse.{parse}
use wincode_dynamic.Schema.{FieldDef, Schema}

-- `struct Field`
pub record Field : Type 0 where
  pub name : String
  pub ty : Ty
  pub size : Option ℕ
  pub value : Value

-- `struct Fields`: the definitions that are left, and the reader.
pub record Fields (R : Type 0) : Type 0 where
  pub fields : List FieldDef
  pub reader : R

-- `Field::name`, `Field::ty`, `Field::size`, and `Field::value`, which `into_value` moves out.
unfoldable pub field_name : Field → String
field_name f = f.name

unfoldable pub field_ty : Field → Ty
field_ty f = f.ty

unfoldable pub field_size : Field → Option ℕ
field_size f = f.size

unfoldable pub field_value : Field → Value
field_value f = f.value

-- `FieldDef::name`, `FieldDef::ty`, `FieldDef::size`
unfoldable pub def_name : FieldDef → String
def_name def = def.name

unfoldable pub def_ty : FieldDef → Ty
def_ty def = def.ty

unfoldable pub def_size : FieldDef → Option ℕ
def_size def = def.size

-- `FieldDef::parse`
unfoldable pub parse_field : (w : Wincode) → FieldDef → Read w.Reader Value
parse_field w def reader = parse w def.ty reader

-- The field that a definition and a decoded value make.
abbrev pub field_of : FieldDef → Value → Field
field_of def value = record { name = def.name; ty = def.ty; size = def.size; value = value }

-- `Iterator::next`, on the definitions that are left. An error is an item like any other: the
-- iterator has moved past the field.
unfoldable pub next_field :
    (w : Wincode) → List FieldDef → w.Reader → Option (ReadResult Field) × Fields w.Reader
unfolding parse_field
next_field w [] reader = (none, record { fields = []; reader = reader })
next_field w (field ∷ rest) reader =
    let (item, reader') = map_read (field_of field) (parse_field w field reader) in
    (some item, record { fields = rest; reader = reader' })

unfoldable pub next : (w : Wincode) → Fields w.Reader → Option (ReadResult Field) × Fields w.Reader
unfolding next_field
next w it = next_field w it.fields it.reader

-- `ExactSizeIterator::len`, and `size_hint` of the slice iterator.
unfoldable pub len : {R : Type 0} → Fields R → ℕ
len it = length it.fields

unfoldable pub size_hint : {R : Type 0} → Fields R → ℕ × Option ℕ
unfolding len
size_hint it = (len it, some (len it))

-- `Schema::fields`
unfoldable pub schema_fields : {R : Type 0} → Schema → R → Fields R
schema_fields s reader = record { fields = s.fields; reader = reader }
