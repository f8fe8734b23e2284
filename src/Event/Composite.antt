-- ===== src/Event/Composite.antt =====
-- src/event/composite.rs: banks of rows whose layout stands in an inline format string. The string
-- is its bytes: a character beyond ASCII is no type letter, and neither is any of its bytes.
pub mod Total
use oxihipo.Prelude.{
  ℕ, zero, suc, ◌+◌, ◌-◌, ◌*◌, ◌/◌, ◌%◌, ◌^◌, Bool, true, false, not, ◌&&◌, ◌||◌, List, [], ◌∷◌,
  ◌++◌, reverse, Option, none, some, ltb, leb, ◌==◌, if◌then◌else◌, length, get_elem?, bit_and,
  Bytes, Result, ok, err, ◌>>=◌, ◌>>◌, refuse_if, corrupt_record, schema_parse,
}
use oxihipo.Prelude.Bits.{◌>>>◌}
use oxihipo.Schema.Types.{DataType, byte, short, int, float, double, long, type_size}
use oxihipo.Wire.Bytes.{slice, read_u32_le, read_le}
use oxihipo.Wire.Constants.Words.{bank_structure_size, struct_format_shift, struct_size_mask}

pub record CompositeField : Type 0 where
  pub ty : DataType
  -- Byte offset from the start of a row.
  pub row_offset : ℕ

pub record CompositeFormat : Type 0 where
  pub fields : List CompositeField
  pub row_size : ℕ

-- The `match` of `CompositeFormat::parse` on a character.
unfoldable pub field_type : ℕ → Option DataType
field_type c =
    if c == 98
    then some byte
    else if c == 115
    then some short
    else if c == 105
    then some int
    else if c == 102
    then some float
    else if c == 100
    then some double
    else if c == 108
    then some long
    else none

-- The loop of `CompositeFormat::parse`: the fields from `offset` on, and where they end. The offset
-- is a `u32`, which wraps.
unfoldable pub parse_fields : ℕ → Bytes → List CompositeField × ℕ
parse_fields offset [] = ([], offset)
parse_fields offset (c ∷ cs) = elim (field_type c) [
  | none ↦ parse_fields offset cs
  | some t ↦
      let rest = parse_fields ((offset + type_size t) % 2 ^ 32) cs in
      (record { ty = t; row_offset = offset } ∷ rest.0, rest.1)
]

abbrev pub with_fields : List CompositeField × ℕ → Result CompositeFormat
with_fields ([], offset) = err (schema_parse "composite format has no fields")
with_fields (f ∷ fs, offset) = ok (record { fields = f ∷ fs; row_size = offset })

unfoldable pub parse : Bytes → Result CompositeFormat
parse format = with_fields (parse_fields 0 format)

-- `trim_end_matches('\0')`
abbrev pub drop_zeros : Bytes → Bytes
drop_zeros [] = []
drop_zeros (c ∷ cs) = if c == 0 then drop_zeros cs else c ∷ cs

abbrev pub trim_end : Bytes → Bytes
trim_end s = reverse (drop_zeros (reverse s))

-- `str::from_utf8`: whether the bytes are UTF-8.
abbrev pub in_range : ℕ → ℕ → ℕ → Bool
in_range lo hi c = leb lo c && leb c hi

-- What a first byte asks for: how many bytes follow, and the range of the next one.
abbrev pub lead : ℕ → Bool × ℕ × ℕ × ℕ
lead c =
    if leb c 127
    then (true, 0, 0, 0)
    else if in_range 0xC2 0xDF c
    then (true, 1, 0x80, 0xBF)
    else if c == 0xE0
    then (true, 2, 0xA0, 0xBF)
    else if c == 0xED
    then (true, 2, 0x80, 0x9F)
    else if in_range 0xE1 0xEF c
    then (true, 2, 0x80, 0xBF)
    else if c == 0xF0
    then (true, 3, 0x90, 0xBF)
    else if in_range 0xF1 0xF3 c
    then (true, 3, 0x80, 0xBF)
    else if c == 0xF4
    then (true, 3, 0x80, 0x8F)
    else (false, 0, 0, 0)

unfoldable pub utf8_from : ℕ → ℕ → ℕ → Bytes → Bool
utf8_from zero lo hi [] = true
utf8_from (suc n) lo hi [] = false
utf8_from zero lo hi (c ∷ cs) = let (good, n, lo', hi') = lead c in good && utf8_from n lo' hi' cs
utf8_from (suc n) lo hi (c ∷ cs) = in_range lo hi c && utf8_from n 0x80 0xBF cs

abbrev pub is_utf8 : Bytes → Bool
is_utf8 s = utf8_from 0 0 0 s

-- A view over the payload of a composite bank.
pub record Composite : Type 0 where
  pub format : CompositeFormat
  pub data_bytes : Bytes
  pub rows : ℕ

unfoldable pub from_parts : CompositeFormat → Bytes → Result Composite
from_parts format bytes =
    if format.row_size == 0 then ok (record { format = format; data_bytes = []; rows = 0 }) else do
      refuse_if (not (length bytes % format.row_size == 0))
          (corrupt_record 0 "composite data size is not a multiple of row size")
      ok (record {
        format = format;
        data_bytes = bytes;
        rows = length bytes % 2 ^ 32 / format.row_size;
      })

-- `from_structure` behind the checks of the sizes.
unfoldable pub from_sizes : Bytes → ℕ → ℕ → Result Composite
from_sizes bytes data_size format_size = do
  refuse_if (ltb (length bytes) (8 + format_size) || ltb (length bytes) (8 + data_size))
      (corrupt_record 0 "composite structure truncated")
  format_bytes ← slice bytes 8 (8 + format_size)
  refuse_if (not (is_utf8 format_bytes)) (schema_parse "composite format is not valid UTF-8")
  format ← parse (trim_end format_bytes)
  payload ← slice bytes (8 + format_size) (8 + data_size)
  from_parts format payload

unfoldable pub from_structure : Bytes → Result Composite
from_structure bytes = do
  refuse_if (ltb (length bytes) bank_structure_size)
      (corrupt_record 0 "composite structure shorter than header")
  length_word ← read_u32_le bytes 4
  let data_size = bit_and length_word struct_size_mask
  let format_size = bit_and (length_word >>> struct_format_shift) 0xFF
  refuse_if (format_size == 0)
      (corrupt_record 0 "composite structure has zero-length format string")
  from_sizes bytes data_size format_size

-- `offset` for the field found. `checked_mul` of 32-bit numbers succeeds on a 64-bit `usize`.
abbrev pub offset_of : Composite → Option CompositeField → ℕ → Option (DataType × ℕ)
offset_of c none row = none
offset_of c (some f) row =
    if leb c.rows row
    then none
    else if leb (row * c.format.row_size + f.row_offset + type_size f.ty) (length c.data_bytes)
    then some (f.ty, row * c.format.row_size + f.row_offset)
    else none

-- `offset` and `field_ty` together
unfoldable pub offset : Composite → ℕ → ℕ → Option (DataType × ℕ)
offset c field row = offset_of c (get_elem? c.format.fields field) row

-- A `w`-bit two's complement pattern widened to `v` bits.
abbrev pub widen : ℕ → ℕ → ℕ → ℕ
widen w v x = if ltb x (2 ^ (w - 1)) then x else x + (2 ^ v - 2 ^ w)

abbrev pub read_i8_as : Composite → Option (DataType × ℕ) → Result ℕ
read_i8_as c none = ok 0
read_i8_as c (some (t, off)) = read_le 1 c.data_bytes off

unfoldable pub i8 : Composite → ℕ → ℕ → Result ℕ
i8 c field row = read_i8_as c (offset c field row)

abbrev pub read_i16_as : Composite → Option (DataType × ℕ) → Result ℕ
read_i16_as c none = ok 0
read_i16_as c (some (t, off)) = read_le 2 c.data_bytes off

unfoldable pub i16 : Composite → ℕ → ℕ → Result ℕ
i16 c field row = read_i16_as c (offset c field row)

abbrev pub read_i32_as : Composite → Option (DataType × ℕ) → Result ℕ
read_i32_as c none = ok 0
read_i32_as c (some (byte, off)) = do v ← read_le 1 c.data_bytes off; ok (widen 8 32 v)
read_i32_as c (some (short, off)) = do v ← read_le 2 c.data_bytes off; ok (widen 16 32 v)
read_i32_as c (some (int, off)) = read_le 4 c.data_bytes off
read_i32_as c (some (float, off)) = ok 0
read_i32_as c (some (double, off)) = ok 0
read_i32_as c (some (long, off)) = ok 0

unfoldable pub i32 : Composite → ℕ → ℕ → Result ℕ
i32 c field row = read_i32_as c (offset c field row)

abbrev pub read_i64_as : Composite → Option (DataType × ℕ) → Result ℕ
read_i64_as c none = ok 0
read_i64_as c (some (long, off)) = read_le 8 c.data_bytes off
read_i64_as c (some (int, off)) = do v ← read_le 4 c.data_bytes off; ok (widen 32 64 v)
read_i64_as c (some (short, off)) = do v ← read_le 2 c.data_bytes off; ok (widen 16 64 v)
read_i64_as c (some (byte, off)) = do v ← read_le 1 c.data_bytes off; ok (widen 8 64 v)
read_i64_as c (some (float, off)) = ok 0
read_i64_as c (some (double, off)) = ok 0

unfoldable pub i64 : Composite → ℕ → ℕ → Result ℕ
i64 c field row = read_i64_as c (offset c field row)
