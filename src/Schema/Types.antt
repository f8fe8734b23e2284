-- ===== src/Schema/Types.antt =====
-- src/schema/types.rs: the data types of columns, and the schema of a bank.
pub mod Layout
pub mod Cells
use Prim.Native.String.{String}
use oxihipo.Prelude.{
  ℕ, zero, suc, ◌+◌, ◌-◌, ◌*◌, ◌^◌, min, max, Bool, true, false, ◌&&◌, List, [], ◌∷◌, ◌++◌, Option,
  none, some, ◌==◌, leb, if◌then◌else◌, length, get_elem?, Bytes, Result, HipoError, unknown_column,
  ok_or, map,
}

-- A name, as its code points.
abbrev pub Name : Type 0
Name = List ℕ

abbrev pub same_name : Name → Name → Bool
same_name [] [] = true
same_name [] (d ∷ ds) = false
same_name (c ∷ cs) [] = false
same_name (c ∷ cs) (d ∷ ds) = c == d && same_name cs ds

pub data DataType : Type 0 where
  byte short int float double long : DataType

-- The letter of a type, as its code point.
unfoldable pub letter : DataType → ℕ
letter byte = 66
letter short = 83
letter int = 73
letter float = 70
letter double = 68
letter long = 76

unfoldable pub from_letter : ℕ → Option DataType
from_letter c =
    if c == 66
    then some byte
    else if c == 83
    then some short
    else if c == 73
    then some int
    else if c == 70
    then some float
    else if c == 68
    then some double
    else if c == 76
    then some long
    else none

unfoldable pub type_size : DataType → ℕ
type_size byte = 1
type_size short = 2
type_size int = 4
type_size float = 4
type_size double = 8
type_size long = 8

unfoldable pub type_name : DataType → String
type_name byte = "byte"
type_name short = "short"
type_name int = "int"
type_name float = "float"
type_name double = "double"
type_name long = "long"

-- The discriminant, `ty as u8`.
unfoldable pub type_id : DataType → ℕ
type_id byte = 1
type_id short = 2
type_id int = 3
type_id float = 4
type_id double = 5
type_id long = 8

unfoldable pub from_type_id : ℕ → Option DataType
from_type_id id =
    if id == 1
    then some byte
    else if id == 2
    then some short
    else if id == 3
    then some int
    else if id == 4
    then some float
    else if id == 5
    then some double
    else if id == 8
    then some long
    else none

-- `==` of two types, which have different discriminants.
unfoldable pub same_type : DataType → DataType → Bool
same_type s t = type_id s == type_id t

pub record SchemaEntry : Type 0 where
  pub name : Name
  pub ty : DataType
  -- The sum of the preceding columns' sizes in a row.
  pub row_offset : ℕ
  -- The number of elements in a cell.
  pub length : ℕ

-- A schema without its cache of names, which `column_index` reads off the entries.
pub record Schema : Type 0 where
  pub name : Name
  pub group : ℕ
  pub item : ℕ
  pub entries : List SchemaEntry
  pub row_size : ℕ

unfoldable pub new : Name → ℕ → ℕ → Schema
new name group item = record { name = name; group = group; item = item; entries = []; row_size = 0 }

-- `saturating_add` and `saturating_mul` on `u32`
abbrev pub saturating_add : ℕ → ℕ → ℕ
saturating_add a b = min (a + b) (2 ^ 32 - 1)

abbrev pub saturating_mul : ℕ → ℕ → ℕ
saturating_mul a b = min (a * b) (2 ^ 32 - 1)

-- The loop of `from_columns`, from the column at `offset`: the entries that it pushes, and the row
-- size. `idx` is the number of entries so far; past the last `u16` the loop breaks.
unfoldable pub push_columns : ℕ → ℕ → List (Name × DataType × ℕ) → List SchemaEntry × ℕ
push_columns idx offset [] = ([], offset)
push_columns idx offset ((name, ty, n) ∷ columns) =
    let size : ℕ = max n 1 in
    let rest =
      push_columns (suc idx) (saturating_add offset (saturating_mul (type_size ty) size)) columns in
    if leb idx 65535
    then (record { name = name; ty = ty; row_offset = offset; length = size } ∷ rest.0, rest.1)
    else ([], offset)

unfoldable pub from_columns : Name → ℕ → ℕ → List (Name × DataType × ℕ) → Schema
from_columns name group item columns =
    let filled = push_columns 0 0 columns in
    record (new name group item) { entries = filled.0; row_size = filled.1 }

unfoldable pub bytes_for_rows : Schema → ℕ → ℕ
bytes_for_rows s rows = s.row_size * rows

-- `by_name.get`: the map keeps the last column that was inserted under the name.
unfoldable pub last_index : Name → ℕ → List SchemaEntry → Option ℕ
last_index name idx [] = none
last_index name idx (e ∷ es) = elim (last_index name (suc idx) es) [
  | some i ↦ some i
  | none ↦ if same_name e.name name then some idx else none
]

unfoldable pub column_index : Schema → Name → Option ℕ
column_index s name = last_index name 0 s.entries

unfoldable pub require_column : Schema → Name → Result ℕ
require_column s name = ok_or (column_index s name) (unknown_column s.name name)

-- The offset of a column, and of a cell, in a bank of `total_rows` rows. The index of the column is
-- in range at every call, so an entry stands for it.
unfoldable pub column_byte_offset : SchemaEntry → ℕ → ℕ
column_byte_offset e total_rows = total_rows * e.row_offset

unfoldable pub cell_size : SchemaEntry → ℕ
cell_size e = type_size e.ty * e.length

unfoldable pub cell_byte_offset : SchemaEntry → ℕ → ℕ → ℕ
cell_byte_offset e row total_rows = total_rows * e.row_offset + row * type_size e.ty * e.length
