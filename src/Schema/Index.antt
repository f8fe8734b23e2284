-- ===== src/Schema/Index.antt =====
-- src/schema/types.rs: `SchemaIndex`, a table from (group, item) to the id of a schema.
pub mod Lookup
use oxihipo.Prelude.{
  ℕ, zero, suc, ◌+◌, ◌-◌, ◌*◌, ◌/◌, ◌^◌, Bool, List, [], ◌∷◌, ◌++◌, Option, none, some, ◌==◌, leb,
  not, if◌then◌else◌, length, get_elem?, replicate, bit_or, set_at,
}
use oxihipo.Prelude.Bits.{◌<<<◌}

pub record SchemaIndex : Type 0 where
  pub table : List ℕ
  pub max_key : ℕ

-- `u16::MAX`
abbrev pub missing : ℕ
missing = 65535

unfoldable pub new : SchemaIndex
new = record { table = []; max_key = 0 }

unfoldable pub key : ℕ → ℕ → ℕ
key group item = bit_or item (group <<< 8)

unfoldable pub resize : ℕ → SchemaIndex → SchemaIndex
resize k index =
    if leb (length index.table) k
    then record {
      table = index.table ++ replicate (k + 1 - length index.table) missing;
      max_key = k;
    }
    else index

-- The table is resized when the key lies past its end, so the write is in range.
unfoldable pub insert : ℕ → ℕ → ℕ → SchemaIndex → SchemaIndex
insert group item idx index =
    let k : ℕ = key group item in
    let grown : SchemaIndex = resize k index in record grown { table = set_at k idx grown.table }

abbrev pub present : ℕ → Option ℕ
present v = if v == missing then none else some v

abbrev pub and_present : Option ℕ → Option ℕ
and_present none = none
and_present (some v) = present v

-- `*self.table.get(k)?`, and `none` for `missing`
unfoldable pub get : ℕ → ℕ → SchemaIndex → Option ℕ
get group item index = and_present (get_elem? index.table (key group item))
