-- ===== src/Event/BankBuilder.antt =====
-- src/event/build.rs: `BankBuilder`, which fills the columns of a bank row by row. The column
-- buffers hold the bytes of the values; a value comes as its bit pattern.
pub mod Shape
pub mod Finish
pub mod Cell
use Prim.Native.String.{String}
use oxihipo.Prelude.{
  ℕ, zero, suc, ◌+◌, ◌*◌, ◌%◌, ◌^◌, Bool, true, false, not, List, [], ◌∷◌, ◌++◌, Option, none, some,
  ◌==◌, ltb, leb, if◌then◌else◌, length, get_elem?, take, take, drop, replicate, set_at, map, Bytes,
  Result, ok, err, panic, ◌>>=◌, ◌>>◌, refuse_if, HipoError, type_mismatch, column_length_mismatch,
  bank_too_large, invalid_usage,
}
use oxihipo.Schema.Types.{
  Name, DataType, byte, short, int, float, double, long, type_size, type_name, same_type,
  SchemaEntry, Schema, cell_size, require_column,
}
use oxihipo.Wire.Bytes.{le_bytes, copy_at}
use oxihipo.Wire.Constants.Words.{struct_size_mask}

pub record BankBuilder : Type 0 where
  pub schema : Schema
  pub columns : List Bytes
  pub rows : ℕ

unfoldable pub new : Schema → BankBuilder
new schema = record { schema = schema; columns = map (λ e. []) schema.entries; rows = 0 }

-- `Vec::resize_with(n, Vec::new)`
abbrev pub resize_with : ℕ → List Bytes → List Bytes
resize_with zero cs = []
resize_with (suc n) [] = replicate (suc n) []
resize_with (suc n) (c ∷ cs) = c ∷ resize_with n cs

-- The buffers of an earlier builder, truncated, cleared and filled up to the number of columns.
unfoldable pub with_buffers : Schema → List Bytes → BankBuilder
with_buffers schema buffers =
    let n : ℕ = length schema.entries in
    record { schema = schema; columns = resize_with n (map (λ c. []) (take n buffers)); rows = 0 }

unfoldable pub into_buffers : BankBuilder → List Bytes
into_buffers b = b.columns

-- The `zip` of the columns with the entries, each column extended by a cell of zeros.
unfoldable pub extend_columns : List SchemaEntry → List Bytes → List Bytes
extend_columns (e ∷ es) (c ∷ cs) = (c ++ replicate (cell_size e) 0) ∷ extend_columns es cs
extend_columns [] cs = cs
extend_columns (e ∷ es) [] = []

-- The count of rows is a `u32`, which wraps.
unfoldable pub push_row : BankBuilder → BankBuilder
push_row b = record b {
  columns = extend_columns b.schema.entries b.columns;
  rows = (b.rows + 1) % 2 ^ 32;
}

unfoldable pub push_rows : ℕ → BankBuilder → BankBuilder
push_rows zero b = b
push_rows (suc n) b = push_rows n (push_row b)

unfoldable pub reset : BankBuilder → BankBuilder
reset b = record b { columns = map (λ c. []) b.columns; rows = 0 }

-- `&self.schema.entries()[col]` and `&mut self.columns[col]`, which panic out of range
abbrev pub or_panic {ℓ} : {A : Type ℓ} → Option A → Result A
or_panic (some a) = ok a
or_panic none = panic

unfoldable pub check_col : BankBuilder → Name → DataType → Result (ℕ × SchemaEntry)
check_col b name expected = do
  col ← require_column b.schema name
  entry ← or_panic (get_elem? b.schema.entries col)
  refuse_if (not (same_type entry.ty expected))
      (type_mismatch b.schema.name name (type_name expected) (type_name entry.ty))
  ok (col, entry)

unfoldable pub check_col_scalar : BankBuilder → Name → DataType → Result (ℕ × SchemaEntry)
check_col_scalar b name expected = do
  (col, entry) ← check_col b name expected
  refuse_if (not (entry.length == 1)) (column_length_mismatch b.schema.name name 1 entry.length)
  ok (col, entry)

unfoldable pub last_row : BankBuilder → Result ℕ
last_row b = elim b.rows [
  | zero ↦ err (invalid_usage "BankBuilder: set_* called before push_row()")
  | suc row ↦ ok row
]

unfoldable pub check_row : BankBuilder → ℕ → Result (Unit {0})
check_row b row =
    refuse_if (leb b.rows row)
      (invalid_usage "BankBuilder: row index out of range (call push_rows first)")

-- `self.columns[col][off..off + bytes.len()].copy_from_slice(bytes)`
unfoldable pub store : BankBuilder → ℕ → ℕ → Bytes → Result BankBuilder
store b col off bytes = do
  column ← or_panic (get_elem? b.columns col)
  column' ← copy_at column off bytes
  ok (record b { columns = set_at col column' b.columns })

-- The scalar setters, which differ in the type and in the size of its values only.
unfoldable pub set_scalar_at : DataType → BankBuilder → Name → ℕ → ℕ → Result BankBuilder
set_scalar_at ty b name row value = do
  (col, entry) ← check_col_scalar b name ty
  check_row b row
  store b col (row * type_size ty) (le_bytes (type_size ty) value)

abbrev pub set_i32_at : BankBuilder → Name → ℕ → ℕ → Result BankBuilder
set_i32_at = set_scalar_at int

abbrev pub set_i64_at : BankBuilder → Name → ℕ → ℕ → Result BankBuilder
set_i64_at = set_scalar_at long

abbrev pub set_i16_at : BankBuilder → Name → ℕ → ℕ → Result BankBuilder
set_i16_at = set_scalar_at short

abbrev pub set_i8_at : BankBuilder → Name → ℕ → ℕ → Result BankBuilder
set_i8_at = set_scalar_at byte

abbrev pub set_f32_at : BankBuilder → Name → ℕ → ℕ → Result BankBuilder
set_f32_at = set_scalar_at float

abbrev pub set_f64_at : BankBuilder → Name → ℕ → ℕ → Result BankBuilder
set_f64_at = set_scalar_at double

-- `set_i32` and its kin, at the last row
unfoldable pub set_scalar : DataType → BankBuilder → Name → ℕ → Result BankBuilder
set_scalar ty b name value = do row ← last_row b; set_scalar_at ty b name row value

-- The loop of `set_array_at`.
unfoldable pub store_all : BankBuilder → ℕ → ℕ → ℕ → List ℕ → Result BankBuilder
store_all b col size off [] = ok b
store_all b col size off (v ∷ vs) = do
  b' ← store b col off (le_bytes size v)
  store_all b' col size (off + size) vs

unfoldable pub set_array_at : DataType → BankBuilder → Name → ℕ → List ℕ → Result BankBuilder
set_array_at ty b name row values = do
  (col, entry) ← check_col b name ty
  check_row b row
  refuse_if (not (length values == entry.length))
      (column_length_mismatch b.schema.name name entry.length (length values))
  store_all b col (type_size ty) (row * (type_size ty * entry.length)) values

abbrev pub concat : List Bytes → Bytes
concat [] = []
concat (c ∷ cs) = c ++ concat cs

-- `self.columns.iter().map(|c| c.len()).sum()`
abbrev pub sum_lengths : List Bytes → ℕ
sum_lengths [] = 0
sum_lengths (c ∷ cs) = length c + sum_lengths cs

unfoldable pub data_size : BankBuilder → ℕ
data_size b = sum_lengths b.columns

unfoldable pub finish_into : BankBuilder → Bytes → Result Bytes
finish_into b out = do
  refuse_if (ltb struct_size_mask (data_size b))
      (bank_too_large b.schema.name (data_size b) struct_size_mask)
  ok (
      out
      ++ (le_bytes 2 b.schema.group
          ++ (b.schema.item ∷ 11 ∷ (le_bytes 4 (data_size b) ++ concat b.columns))))

unfoldable pub finish : BankBuilder → Result Bytes
finish b = finish_into b []
