-- ===== src/Schema/Types/Layout.antt =====
-- The offsets that `from_columns` gives the columns of a row.
use mathlib.Core.Path.{subst}
use oxihipo.Prelude.{
  ℕ, suc, ◌+◌, ◌-◌, ◌*◌, ◌^◌, ◌≤◌, ◌<◌, ◌≡◌, refl, arith, List, [], ◌∷◌, some, leb, Bool-cases, max,
  inl, inr,
}
use oxihipo.Schema.Types.{
  Name, DataType, byte, short, int, float, double, long, letter, from_letter, type_id, from_type_id,
  type_size, SchemaEntry, push_columns, from_columns, cell_size, saturating_add, saturating_mul,
}

-- The letter and the id of a type name it, and `same_type` tells types apart.
pub from_letter-letter :
    (t : DataType) → (from_letter (letter t) ≡ some t) × (from_type_id (type_id t) ≡ some t)
unfolding letter from_letter type_id from_type_id
from_letter-letter byte = (refl, refl)
from_letter-letter short = (refl, refl)
from_letter-letter int = (refl, refl)
from_letter-letter float = (refl, refl)
from_letter-letter double = (refl, refl)
from_letter-letter long = (refl, refl)

-- Columns that lie one behind the other from `offset` to `end`.
unfoldable pub Chained : ℕ → List SchemaEntry → ℕ → Type 0
Chained offset [] end = offset ≡ end
Chained offset (e ∷ es) end =
    (e.row_offset ≡ offset) × (1 ≤ e.length) × Chained (offset + cell_size e) es end

push_columns-ge :
    (idx offset : ℕ) (columns : List (Name × DataType × ℕ))
    → offset < 2 ^ 32
    → offset ≤ (push_columns idx offset columns).1
unfolding push_columns
push_columns-ge idx offset [] h = omega arith
push_columns-ge idx offset ((name, ty, n) ∷ columns) h =
    let next : ℕ = saturating_add offset (saturating_mul (type_size ty) (max n 1)) in
    elim (Bool-cases (leb idx 65535)) [
      | inl more ↦ rw more (omega (arith, push_columns-ge (suc idx) next columns (omega arith)))
      | inr stop ↦ rw stop (omega arith)
    ]

push_columns-Chained :
    (idx offset : ℕ) (columns : List (Name × DataType × ℕ))
    → offset < 2 ^ 32
    → (push_columns idx offset columns).1 < 2 ^ 32 - 1
    → Chained offset (push_columns idx offset columns).0 (push_columns idx offset columns).1
unfolding push_columns Chained cell_size
push_columns-Chained idx offset [] h k = refl
push_columns-Chained idx offset ((name, ty, n) ∷ columns) h k =
    let next : ℕ = saturating_add offset (saturating_mul (type_size ty) (max n 1)) in
    elim (Bool-cases (leb idx 65535)) [
      | inl more ↦
          let rest = push_columns (suc idx) next columns in
          let same : (push_columns idx offset ((name, ty, n) ∷ columns)).1 ≡ rest.1 =
            rw more refl in
          let small : rest.1 < 2 ^ 32 - 1 = omega (arith, same) in
          let le : next ≤ rest.1 = push_columns-ge (suc idx) next columns (omega arith) in
          let exact : next ≡ offset + type_size ty * max n 1 = omega arith in
          rw more (
            refl,
            omega arith,
            subst (λ o. Chained o rest.0 rest.1) exact
                (push_columns-Chained (suc idx) next columns (omega arith) small),
          )
      | inr stop ↦ rw stop refl
    ]

-- A schema whose row size did not saturate lays its columns out one behind the other, without gaps
-- or overlaps, and the row size is where the last one ends.
pub from_columns-Chained :
    (name : Name) (group item : ℕ) (columns : List (Name × DataType × ℕ))
    → (from_columns name group item columns).row_size < 2 ^ 32 - 1
    → Chained 0
        (from_columns name group item columns).entries
        (from_columns name group item columns).row_size
unfolding from_columns
from_columns-Chained name group item columns h = push_columns-Chained 0 0 columns (omega arith) h
