-- ===== src/Schema.antt =====
-- wincode-dynamic/src/lib.rs: the runtime schemas, which a producer announces and a consumer
-- decodes by.
use wincode_dynamic.Prelude.{ℕ, String, List, Option}
use wincode_dynamic.PrimitiveTy.{PrimitiveTy}
use wincode_dynamic.Ty.{Ty}

-- `struct FieldDef`
pub record FieldDef : Type 0 where
  pub name : String
  pub ty : Ty
  pub size : Option ℕ

-- `struct Schema`
pub record Schema : Type 0 where
  pub name : String
  pub fields : List FieldDef
  pub size : Option ℕ

-- `enum RootSchema`
pub data RootSchema : Type 0 where
  struct : Schema → RootSchema
  enum :
      (variants : List Schema) (size : Option ℕ) (name : String) (tag_encoding : PrimitiveTy)
      → RootSchema

-- `FieldDef::new`
unfoldable pub field_def : String → Ty → Option ℕ → FieldDef
field_def name ty size = record { name = name; ty = ty; size = size }

-- `Schema::new`
unfoldable pub schema : String → List FieldDef → Option ℕ → Schema
schema name fields size = record { name = name; fields = fields; size = size }

-- `RootSchema::name`
unfoldable pub root_name : RootSchema → String
root_name (RootSchema.struct s) = s.name
root_name (RootSchema.enum _ _ name _) = name

-- `RootSchema::size`
unfoldable pub root_size : RootSchema → Option ℕ
root_size (RootSchema.struct s) = s.size
root_size (RootSchema.enum _ size _ _) = size

-- `Schema::size`, `Schema::name`, `Schema::field_defs`
unfoldable pub schema_size : Schema → Option ℕ
schema_size s = s.size

unfoldable pub schema_name : Schema → String
schema_name s = s.name

unfoldable pub field_defs : Schema → List FieldDef
field_defs s = s.fields
