-- ===== src/Schema/Tests.antt =====
-- Schemas and dictionaries at concrete inputs.
use oxihipo.Prelude.{ℕ, ◌+◌, ◌≤◌, ◌≡◌, ◌⊎◌, inl, inr, refl, arith, List, [], ◌∷◌, some, ok}
use oxihipo.Schema.Types.{
  Name, DataType, int, float, byte, SchemaEntry, Schema, from_columns, push_columns, type_size,
  cell_byte_offset, cell_size, bytes_for_rows,
}
use oxihipo.Schema.Types.Cells.{cell_byte_offset-apart}
use oxihipo.Schema.Index
use oxihipo.Schema.Index.{SchemaIndex}
use oxihipo.Schema.Dict.{Dict, new, add_at, lookup_name, try_add, get, get_by_id}
use oxihipo.Schema.Dict.Invariant.{IsValid, new-IsValid, try_add-IsValid}
use oxihipo.Schema.Dict.Lookup.{get-try_add}
use oxihipo.Schema.Dict.Identifier.{get_by_id-try_add, get_by_id-stale}

-- "pid/I", "p/F#3" and "q/B" of the bank "REC"
abbrev columns : List (Name × DataType × ℕ)
columns = ((112 ∷ []), int, 1) ∷ ((113 ∷ []), float, 3) ∷ ((114 ∷ []), byte, 1) ∷ []

abbrev rec : Name
rec = 82 ∷ 69 ∷ 67 ∷ []

abbrev entry_at : Name → DataType → ℕ → ℕ → SchemaEntry
entry_at name ty row_offset n = record { name = name; ty = ty; row_offset = row_offset; length = n }

cell_byte_offset-apart_example :
    (cell_byte_offset (entry_at (113 ∷ []) float 4 3) 1 2
        + cell_size (entry_at (113 ∷ []) float 4 3)
      ≤ bytes_for_rows (from_columns rec 300 1 columns) 2)
    × ((cell_byte_offset (entry_at (113 ∷ []) float 4 3) 1 2
            + cell_size (entry_at (113 ∷ []) float 4 3)
          ≤ cell_byte_offset (entry_at (114 ∷ []) byte 16 1) 0 2)
        ⊎ (cell_byte_offset (entry_at (114 ∷ []) byte 16 1) 0 2
              + cell_size (entry_at (114 ∷ []) byte 16 1)
            ≤ cell_byte_offset (entry_at (113 ∷ []) float 4 3) 1 2))
unfolding from_columns push_columns type_size
cell_byte_offset-apart_example =
    cell_byte_offset-apart rec 300 1 columns 1 2 2 1 0 (entry_at (113 ∷ []) float 4 3)
      (entry_at (114 ∷ []) byte 16 1) (omega arith) refl refl (omega arith) (omega arith)
      (inl (omega arith))

abbrev first : Schema
first = record { name = rec; group = 0; item = 1; entries = []; row_size = 0 }

-- The same name under another identifier.
abbrev second : Schema
second = record { name = rec; group = 0; item = 2; entries = []; row_size = 0 }

abbrev with_first : Dict
with_first = record {
  schemas = first ∷ [];
  by_name = (rec, 0) ∷ [];
  by_id = record { table = 65535 ∷ 0 ∷ []; max_key = 1 };
}

abbrev with_second : Dict
with_second = record {
  schemas = second ∷ [];
  by_name = (rec, 0) ∷ [];
  by_id = record { table = 65535 ∷ 0 ∷ 0 ∷ []; max_key = 2 };
}

first_added : try_add first new ≡ ok with_first
unfolding try_add new add_at lookup_name Index.insert Index.resize Index.new Index.key
first_added = refl

second_added : try_add second with_first ≡ ok with_second
unfolding try_add add_at lookup_name Index.insert Index.resize Index.key
second_added = refl

try_add-IsValid_example : IsValid with_first
try_add-IsValid_example = try_add-IsValid first new with_first new-IsValid first_added

with_first-IsValid : IsValid with_first
with_first-IsValid = record {
  few = omega arith;
  names = ((first, refl, refl), tt);
  ids = (inr refl, (inl (omega arith), tt));
}

get-try_add_example :
    (get rec with_second ≡ ok (some second))
    × ((113 ∷ [] ≡ rec) ⊎ (get (113 ∷ []) with_second ≡ get (113 ∷ []) with_first))
get-try_add_example =
    get-try_add second with_first with_second (113 ∷ []) with_first-IsValid second_added

get_by_id-try_add_example : get_by_id 0 2 with_second ≡ ok (some second)
get_by_id-try_add_example =
    get_by_id-try_add second with_first with_second with_first-IsValid (omega arith) (omega arith)
      (omega arith) second_added

get_by_id-stale_example : get_by_id 0 1 with_second ≡ ok (some second)
unfolding lookup_name Index.get Index.key
get_by_id-stale_example =
    get_by_id-stale second with_first with_second 0 1 0 with_first-IsValid (omega arith)
      (omega arith) (omega arith) (omega arith) (inr (omega arith)) refl refl second_added
