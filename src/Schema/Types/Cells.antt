-- ===== src/Schema/Types/Cells.antt =====
-- The cells of a column-major bank: where `cell_byte_offset` puts them.
use mathlib.Core.Path.{subst}
use native.Mathlib.Nat.{mul-le-mul_left, mul-le-mul_right, mul_assoc, mul_comm}
use oxihipo.Prelude.{
  ℕ, zero, suc, ◌+◌, ◌-◌, ◌*◌, ◌^◌, ◌≤◌, ◌<◌, ◌≡◌, ◌≢◌, ◌⊎◌, inl, inr, sym, ap, arith, List, [],
  ◌∷◌, some, get_elem?, ltb, some-injective, Bool-cases, ltb→lt, ◌∙◌,
}
use oxihipo.Schema.Types.{
  Name, DataType, SchemaEntry, Schema, cell_size, cell_byte_offset, type_size, from_columns,
  bytes_for_rows,
}
use oxihipo.Schema.Types.Layout.{Chained, from_columns-Chained}

Chained-ge : (offset : ℕ) (es : List SchemaEntry) (end : ℕ) → Chained offset es end → offset ≤ end
unfolding Chained
Chained-ge offset [] end c = omega arith
Chained-ge offset (x ∷ es) end (p, q, c) = omega (arith, Chained-ge (offset + cell_size x) es end c)

-- A column starts where the columns start at the earliest, and ends where the row ends at the latest.
entry-inside :
    (offset : ℕ) (es : List SchemaEntry) (end i : ℕ) (e : SchemaEntry)
    → Chained offset es end
    → get_elem? es i ≡ some e
    → (offset ≤ e.row_offset) × (e.row_offset + cell_size e ≤ end)
unfolding Chained
entry-inside offset [] end i e c g = cc
entry-inside offset (x ∷ es) end zero e (p, q, c) g =
    let same : x ≡ e = some-injective g in
    let start : x.row_offset ≡ e.row_offset = ap (λ y. y.row_offset) same in
    let size : cell_size x ≡ cell_size e = ap cell_size same in
    (omega arith, omega (arith, Chained-ge (offset + cell_size x) es end c))
entry-inside offset (x ∷ es) end (suc i) e (p, q, c) g =
    let (lo, hi) = entry-inside (offset + cell_size x) es end i e c g in (omega arith, omega arith)

-- An earlier column ends before a later one starts.
entries-ordered :
    (offset : ℕ) (es : List SchemaEntry) (end i j : ℕ) (e f : SchemaEntry)
    → Chained offset es end
    → get_elem? es i ≡ some e
    → get_elem? es j ≡ some f
    → i < j
    → e.row_offset + cell_size e ≤ f.row_offset
unfolding Chained
entries-ordered offset es end i zero e f c g k h = absurd (omega arith)
entries-ordered offset [] end i (suc j) e f c g k h = cc
entries-ordered offset (x ∷ es) end zero (suc j) e f (p, q, c) g k h =
    let same : x ≡ e = some-injective g in
    let start : x.row_offset ≡ e.row_offset = ap (λ y. y.row_offset) same in
    let size : cell_size x ≡ cell_size e = ap cell_size same in
    let (lo, hi) = entry-inside (offset + cell_size x) es end j f c k in omega arith
entries-ordered offset (x ∷ es) end (suc i) (suc j) e f (p, q, c) g k h =
    entries-ordered (offset + cell_size x) es end i j e f c g k (omega arith)

-- A cell lies in the block of its column.
cell-block :
    (e : SchemaEntry) (row rows : ℕ)
    → row < rows
    → (rows * e.row_offset ≤ cell_byte_offset e row rows)
      × (cell_byte_offset e row rows + cell_size e ≤ rows * (e.row_offset + cell_size e))
unfolding cell_byte_offset cell_size
cell-block e row rows h =
    let w : ℕ = type_size e.ty * e.length in
    let step : suc row * w ≤ rows * w = mul-le-mul_right w h in
    (omega arith, omega (arith, mul_assoc row (type_size e.ty) e.length, step))

-- The cells of one column lie one behind the other.
cell-next :
    (e : SchemaEntry) (row row' rows : ℕ)
    → row < row'
    → cell_byte_offset e row rows + cell_size e ≤ cell_byte_offset e row' rows
unfolding cell_byte_offset cell_size
cell-next e row row' rows h =
    let w : ℕ = type_size e.ty * e.length in
    let step : suc row * w ≤ row' * w = mul-le-mul_right w h in
    omega (
      arith,
      mul_assoc row (type_size e.ty) e.length,
      mul_assoc row' (type_size e.ty) e.length,
      step,
    )

block-end :
    (offset : ℕ) (es : List SchemaEntry) (end i rows row : ℕ) (e : SchemaEntry)
    → Chained offset es end
    → get_elem? es i ≡ some e
    → row < rows
    → cell_byte_offset e row rows + cell_size e ≤ rows * end
block-end offset es end i rows row e c g h =
    let (lo, hi) = entry-inside offset es end i e c g in
    let (low, high) = cell-block e row rows h in
    let last : rows * (e.row_offset + cell_size e) ≤ rows * end = mul-le-mul_left rows hi in
    omega arith

-- A cell of an earlier column ends before any cell of a later column.
cells-ordered :
    (offset : ℕ) (es : List SchemaEntry) (end i j rows row row' : ℕ) (e f : SchemaEntry)
    → Chained offset es end
    → get_elem? es i ≡ some e
    → get_elem? es j ≡ some f
    → i < j
    → row < rows
    → row' < rows
    → cell_byte_offset e row rows + cell_size e ≤ cell_byte_offset f row' rows
cells-ordered offset es end i j rows row row' e f c g k h r r' =
    let between : rows * (e.row_offset + cell_size e) ≤ rows * f.row_offset =
      mul-le-mul_left rows (entries-ordered offset es end i j e f c g k h) in
    let (low, high) = cell-block e row rows r in
    let (low', high') = cell-block f row' rows r' in omega arith

-- In a bank of a schema whose row size did not saturate, every cell lies inside the bank's bytes,
-- and two cells of different columns or of different rows share no byte.
pub cell_byte_offset-apart :
    (name : Name) (group item : ℕ) (columns : List (Name × DataType × ℕ)) (i j rows row row' : ℕ)
    (e f : SchemaEntry)
    → (from_columns name group item columns).row_size < 2 ^ 32 - 1
    → get_elem? (from_columns name group item columns).entries i ≡ some e
    → get_elem? (from_columns name group item columns).entries j ≡ some f
    → row < rows
    → row' < rows
    → (i ≢ j) ⊎ (row ≢ row')
    → (cell_byte_offset e row rows + cell_size e
        ≤ bytes_for_rows (from_columns name group item columns) rows)
      × ((cell_byte_offset e row rows + cell_size e ≤ cell_byte_offset f row' rows)
          ⊎ (cell_byte_offset f row' rows + cell_size f ≤ cell_byte_offset e row rows))
unfolding bytes_for_rows
cell_byte_offset-apart name group item columns i j rows row row' e f h g k r r' d =
    let s : Schema = from_columns name group item columns in
    let c = from_columns-Chained name group item columns h in
    let inside = block-end 0 s.entries s.row_size i rows row e c g r in
    (
      omega (arith, mul_comm rows s.row_size, inside),
      elim (compare_cases i j) [
        | inl lt ↦ inl (cells-ordered 0 s.entries s.row_size i j rows row row' e f c g k lt r r')
        | inr (inl gt) ↦
            inr (cells-ordered 0 s.entries s.row_size j i rows row' row f e c k g gt r' r)
        | inr (inr eq) ↦
            let same : e ≡ f = some-injective (sym g ∙ ap (get_elem? s.entries) eq ∙ k) in
            elim (compare_cases row row') [
              | inl lt ↦ inl (
                  subst
                    (λ x. cell_byte_offset e row rows + cell_size e ≤ cell_byte_offset x row' rows)
                    same (cell-next e row row' rows lt))
              | inr (inl gt) ↦ inr (
                  subst
                    (λ x. cell_byte_offset x row' rows + cell_size x ≤ cell_byte_offset e row rows)
                    same (cell-next e row' row rows gt))
              | inr (inr eq') ↦ elim d [ inl n ↦ absurd (n eq) | inr n ↦ absurd (n eq') ]
            ]
      ],
    )
  where
    compare_cases : (a b : ℕ) → (a < b) ⊎ ((b < a) ⊎ (a ≡ b))
    compare_cases a b = elim (Bool-cases (ltb a b)) [
      | inl lt ↦ inl (ltb→lt a b lt)
      | inr ge ↦ elim (Bool-cases (ltb b a)) [
        | inl gt ↦ inr (inl (ltb→lt b a gt))
        | inr le ↦ inr (inr (ground (arith, ge, le)))
      ]
    ]
