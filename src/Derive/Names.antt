-- ===== src/Derive/Names.antt =====
-- wincode-dynamic-derive/src/wincode_dynamic.rs: the names of the unnamed fields, read back.
use Prim.Native.Char.{code}
use wincode_dynamic.Prelude.{ℕ, ◌+◌, ◌*◌, ◌-◌, String}

-- The number that a text of decimal digits states, behind the digits that were read.
unfoldable pub read_decimal : ℕ → String → ℕ
read_decimal acc String.[] = acc
read_decimal acc (String.◌∷◌ c s) = read_decimal (acc * 10 + (code c - 48)) s
