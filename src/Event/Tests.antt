-- ===== src/Event/Tests.antt =====
-- Events and banks at concrete inputs.
use oxihipo.Prelude.{
  ℕ, ◌+◌, ◌*◌, ◌≡◌, refl, arith, List, [], ◌∷◌, some, length, All, Bytes, ok, get_elem?,
}
use oxihipo.Schema.Types.{
  int, byte, type_size, SchemaEntry, Schema, same_type, type_id, column_index, last_index,
  require_column, cell_size, column_byte_offset,
}
use oxihipo.Schema.Types.Layout.{Chained}
use oxihipo.Event.Structures
use oxihipo.Event.Structures.{StructureHeader, Structure, to_bytes, structures}
use oxihipo.Event.Structures.Header.{IsWellFormed}
use oxihipo.Event.Structures.Walk.{Sized, structures_total, IsEncodable}
use oxihipo.Event.Builder
use oxihipo.Event.Builder.{
  EventBuilder, with_tag, set_tag, finish, add_bank_bytes, finished_size, structure_count,
}
use oxihipo.Event.Builder.ReadBack.{
  Reads, add_structures, add_structures-Reads, length-finish, tag-finish,
}
use oxihipo.Prelude.{panic}
use oxihipo.Event.Composite.{
  Composite, from_sizes, is_utf8, utf8_from, parse, parse_fields, field_type,
}
use oxihipo.Event.Composite.Total.{from_sizes_aborts}
use oxihipo.Wire.Bytes.{copy_at, slice, read_le, le_bytes}
use oxihipo.Event.BankBuilder
use oxihipo.Event.BankBuilder.{
  BankBuilder, data_size, concat, set_scalar_at, check_col, check_col_scalar, check_row, store,
}
use oxihipo.Event.BankBuilder.Shape.{IsShaped, Shaped}
use oxihipo.Event.BankBuilder.Finish.{finish-column}
use oxihipo.Event.BankBuilder.Cell.{Outcome, set_scalar_at-Outcome, set_scalar_at-read}

abbrev sample_header : StructureHeader
sample_header = record { group = 300; item = 1; ty = 11; data_size = 3; header_size = 0 }

sample_header-IsWellFormed : IsWellFormed sample_header
sample_header-IsWellFormed = record {
  group = omega arith;
  item = omega arith;
  ty = omega arith;
  data_size = omega arith;
  header_size = omega arith;
}

structures_total_example :
    (ss : List Structure) × (structures (69 ∷ 86 ∷ 78 ∷ []) ≡ ok ss) × All Sized ss
structures_total_example = structures_total (69 ∷ 86 ∷ 78 ∷ [])

abbrev banks : List Structure
banks = (sample_header, 1 ∷ 2 ∷ 3 ∷ []) ∷ (sample_header, 4 ∷ 5 ∷ 6 ∷ []) ∷ []

banks-IsEncodable : All IsEncodable banks
banks-IsEncodable = (
  record { header = sample_header-IsWellFormed; sized = refl },
  (record { header = sample_header-IsWellFormed; sized = refl }, tt),
)

add_structures-Reads_example :
    Reads (finish (add_structures banks (with_tag 5 Builder.new))) 5 banks
unfolding finished_size add_structures add_bank_bytes with_tag set_tag Builder.new to_bytes
add_structures-Reads_example =
    add_structures-Reads 5 banks banks-IsEncodable (omega arith) (omega arith)

abbrev sample_builder : EventBuilder
sample_builder = record { structures = 1 ∷ 2 ∷ []; tag = 9 }

tag-finish_example : Structures.tag (finish sample_builder) ≡ ok 9
tag-finish_example = tag-finish sample_builder (omega arith)

length-finish_example : length (finish sample_builder) ≡ finished_size sample_builder
length-finish_example = length-finish sample_builder

-- "i/I" and "b/B" of a bank of ten bytes, in two rows.
abbrev int_entry : SchemaEntry
int_entry = record { name = 105 ∷ []; ty = int; row_offset = 0; length = 1 }

abbrev byte_entry : SchemaEntry
byte_entry = record { name = 98 ∷ []; ty = byte; row_offset = 4; length = 1 }

abbrev sample_schema : Schema
sample_schema = record {
  name = 82 ∷ [];
  group = 300;
  item = 1;
  entries = int_entry ∷ byte_entry ∷ [];
  row_size = 5;
}

abbrev sample_bank : BankBuilder
sample_bank = record {
  schema = sample_schema;
  columns = (1 ∷ 2 ∷ 3 ∷ 4 ∷ 5 ∷ 6 ∷ 7 ∷ 8 ∷ []) ∷ (9 ∷ 10 ∷ []) ∷ [];
  rows = 2;
}

sample_bank-IsShaped : IsShaped sample_bank
unfolding Shaped cell_size type_size
sample_bank-IsShaped = (refl, (refl, tt))

sample_schema-Chained : Chained 0 sample_schema.entries 5
unfolding Chained cell_size type_size
sample_schema-Chained = (refl, omega arith, (refl, omega arith, refl))

abbrev sample_bytes : Bytes
sample_bytes = 44 ∷ 1 ∷ 1 ∷ 11 ∷ 10 ∷ 0 ∷ 0 ∷ 0 ∷ 1 ∷ 2 ∷ 3 ∷ 4 ∷ 5 ∷ 6 ∷ 7 ∷ 8 ∷ 9 ∷ 10 ∷ []

finish-column_example :
    (c : Bytes) × (get_elem? sample_bank.columns 1 ≡ some c)
    × (slice sample_bytes
          (8 + column_byte_offset byte_entry 2)
          (8 + column_byte_offset byte_entry 2 + 2 * cell_size byte_entry)
        ≡ ok c)
unfolding BankBuilder.finish BankBuilder.finish_into data_size le_bytes
finish-column_example =
    finish-column sample_bank 1 byte_entry sample_bytes sample_bank-IsShaped sample_schema-Chained
      refl refl

set_scalar_at-Outcome_example :
    Outcome sample_bank
      (105 ∷ [])
      (type_size int)
      1
      77
      (set_scalar_at int sample_bank (105 ∷ []) 1 77)
set_scalar_at-Outcome_example =
    set_scalar_at-Outcome int sample_bank (105 ∷ []) 1 77 sample_bank-IsShaped

abbrev written_bank : BankBuilder
written_bank = record sample_bank {
  columns = (1 ∷ 2 ∷ 3 ∷ 4 ∷ 77 ∷ 0 ∷ 0 ∷ 0 ∷ []) ∷ (9 ∷ 10 ∷ []) ∷ [];
}

set_scalar_at-read_example :
    (col : ℕ) × (c : Bytes) × (column_index sample_schema (105 ∷ []) ≡ some col)
    × (get_elem? written_bank.columns col ≡ some c)
    × (read_le (type_size int) c (1 * type_size int) ≡ ok 77)
    × IsShaped written_bank
unfolding set_scalar_at check_col_scalar check_col check_row store require_column column_index
    last_index same_type type_id type_size copy_at le_bytes
set_scalar_at-read_example =
    set_scalar_at-read int sample_bank written_bank (105 ∷ []) 1 77 sample_bank-IsShaped
      (omega arith) refl

-- A composite of one row with one field of one byte.
abbrev one_byte : Composite
one_byte = record {
  format = record { fields = record { ty = byte; row_offset = 0 } ∷ []; row_size = 1 };
  rows = 1;
  data_bytes = 7 ∷ [];
}

-- The format "bb" in a bank that declares one byte of data.
abbrev short_bank : Bytes
short_bank = 44 ∷ 1 ∷ 1 ∷ 10 ∷ 1 ∷ 0 ∷ 0 ∷ 2 ∷ 98 ∷ 98 ∷ []

from_sizes_aborts_example : from_sizes short_bank 1 2 ≡ panic
unfolding is_utf8 utf8_from parse parse_fields field_type type_size
from_sizes_aborts_example =
    from_sizes_aborts short_bank 1 2
      (record {
        fields = record { ty = byte; row_offset = 0 } ∷ record { ty = byte; row_offset = 1 } ∷ [];
        row_size = 2;
      })
      (omega arith) (omega arith) refl refl
