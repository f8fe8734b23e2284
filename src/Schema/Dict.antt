-- ===== src/Schema/Dict.antt =====
-- src/schema/dict.rs: `Dict`, the schemas of a file, looked up by name and by identifier.
pub mod Invariant
pub mod Lookup
pub mod Identifier
use oxihipo.Prelude.{
  ℕ, zero, suc, ◌+◌, Bool, true, false, List, [], ◌∷◌, ◌++◌, Option, none, some, leb, if◌then◌else◌,
  length, get_elem?, Result, ok, err, panic, ◌>>=◌, HipoError, schema_parse, unknown_schema, ok_or,
  set_at,
}
use oxihipo.Schema.Types.{Name, Schema, same_name}
use oxihipo.Schema.Index
use oxihipo.Schema.Index.{SchemaIndex, insert}

-- The map `by_name` is the list of its pairs; a name is inserted only when it is absent.
pub record Dict : Type 0 where
  pub schemas : List Schema
  pub by_name : List (Name × ℕ)
  pub by_id : SchemaIndex

unfoldable pub new : Dict
new = record { schemas = []; by_name = []; by_id = Index.new }

unfoldable pub lookup_name : Name → List (Name × ℕ) → Option ℕ
lookup_name name [] = none
lookup_name name ((n, i) ∷ rest) = if same_name n name then some i else lookup_name name rest

-- `try_add` behind the lookup of the name. The id is a `u16`. The text of the error is
-- shortened.
unfoldable pub add_at : Option ℕ → Schema → Dict → Result Dict
add_at (some idx) schema d = ok (record {
  schemas = set_at idx schema d.schemas;
  by_name = d.by_name;
  by_id = insert schema.group schema.item idx d.by_id;
})
add_at none schema d =
    if leb (length d.schemas) 65535
    then ok (record {
      schemas = d.schemas ++ (schema ∷ []);
      by_name = (schema.name, length d.schemas) ∷ d.by_name;
      by_id = insert schema.group schema.item (length d.schemas) d.by_id;
    })
    else err (schema_parse "dictionary exceeds 65536 schemas")

unfoldable pub try_add : Schema → Dict → Result Dict
try_add schema d = add_at (lookup_name schema.name d.by_name) schema d

-- `&self.schemas[i]`, which panics out of range
abbrev pub in_bounds : Option Schema → Result (Option Schema)
in_bounds none = panic
in_bounds (some s) = ok (some s)

-- `.map(|i| &self.schemas[i])`
unfoldable pub at_id : Dict → Option ℕ → Result (Option Schema)
at_id d none = ok none
at_id d (some i) = in_bounds (get_elem? d.schemas i)

unfoldable pub get : Name → Dict → Result (Option Schema)
get name d = at_id d (lookup_name name d.by_name)

unfoldable pub require : Name → Dict → Result Schema
require name d = do found ← get name d; ok_or found (unknown_schema name)

unfoldable pub get_by_id : ℕ → ℕ → Dict → Result (Option Schema)
get_by_id group item d = at_id d (Index.get group item d.by_id)
