-- ===== src/Event/BankBuilder/Cell.antt =====
-- The setters of a `BankBuilder`: what they refuse, and what they write.
use mathlib.Core.Path.{subst}
use native.Mathlib.Nat.{mul-le-mul_right}
use oxihipo.Prelude.{
  ℕ, suc, ◌+◌, ◌*◌, ◌^◌, ◌≤◌, ◌<◌, ◌≡◌, ◌≢◌, ◌⊎◌, inl, inr, refl, sym, ap, ◌∙◌, arith, true, List,
  [], ◌∷◌, ◌++◌, none, some, ◌==◌, leb, length, get_elem?, take, drop, set_at, get_elem?-some,
  length-take, some-injective, Bytes, Result, ok, err, HipoError, unknown_column, type_mismatch,
  column_length_mismatch, invalid_usage, Bool-cases, Option-cases, leb_false→lt, get_elem?-set_at,
  get_elem?-lt, ==_iff, ok-injective,
}
use oxihipo.Schema.Types.{
  Name, DataType, type_id, from_type_id, type_name, type_size, same_type, SchemaEntry, cell_size,
  column_index, last_index, require_column, same_name,
}
use oxihipo.Schema.Types.Layout.{from_letter-letter}
use oxihipo.Wire.Bytes.{le_bytes, read_le}
use oxihipo.Wire.Bytes.Laws.{length-le_bytes, read_le-append, le_value-le_bytes}
use oxihipo.Event.BankBuilder.{
  BankBuilder, check_col, check_col_scalar, check_row, store, set_scalar_at,
}
use oxihipo.Event.BankBuilder.Shape.{IsShaped, Shaped-column, set_at-Shaped, copy_at-total}

same_type-eq : (s t : DataType) → same_type s t ≡ true → type_size s ≡ type_size t
unfolding same_type
same_type-eq s t h =
    let (letters, back) = from_letter-letter s in
    let (letters', back') = from_letter-letter t in
    let ids : type_id s ≡ type_id t = ground (arith, h) in
    ap type_size (some-injective (sym back ∙ ap from_type_id ids ∙ back'))

-- The index of a name is in range.
last_index-some :
    (name : Name) (idx : ℕ) (es : List SchemaEntry) (i : ℕ)
    → last_index name idx es ≡ some i
    → (idx ≤ i) × (i < idx + length es)
unfolding last_index
last_index-some name idx [] i h = cc
last_index-some name idx (e ∷ es) i h = elim (Option-cases (last_index name (suc idx) es)) [
  | inr (k, later) ↦
      let same : k ≡ i = some-injective (sym (rw later refl) ∙ h) in
      let (lo, hi) = last_index-some name (suc idx) es k later in (omega arith, omega arith)
  | inl gone ↦ elim (Bool-cases (same_name e.name name)) [
    | inl eq ↦
        let same : idx ≡ i = some-injective (sym (rw (gone, eq) refl) ∙ h) in
        (omega arith, omega arith)
    | inr ne ↦ absurd (clash i (sym (rw (gone, ne) refl) ∙ h))
  ]
]
  where
    clash : (i : ℕ) → none ≢ some i
    clash i p = cc

-- The outcome of a store into a row of a scalar column: the value can be read back at its row, the
-- rest of the column and the other columns are as before, and the builder keeps its shape.
pub record Stored (b : BankBuilder) (name : Name) (size row value : ℕ) (b' : BankBuilder)
    : Type 0 where
  pub column : ℕ
  pub old : Bytes
  pub new : Bytes
  pub named : column_index b.schema name ≡ some column
  pub was : get_elem? b.columns column ≡ some old
  pub only : b' ≡ record b { columns = set_at column new b.columns }
  pub in_row : new ≡ take (row * size) old ++ (le_bytes size value ++ drop (row * size + size) old)
  pub inside : row * size + size ≤ length old
  pub shaped : IsShaped b'

store-Stored :
    (b : BankBuilder) (name : Name) (col : ℕ) (e : SchemaEntry) (size row value : ℕ)
    → IsShaped b
    → column_index b.schema name ≡ some col
    → get_elem? b.schema.entries col ≡ some e
    → cell_size e ≡ size
    → row < b.rows
    → (b' : BankBuilder) × (store b col (row * size) (le_bytes size value) ≡ ok b')
      × Stored b name size row value b'
unfolding store
store-Stored b name col e size row value h named g w r =
    let (c, at, l) = Shaped-column b.rows b.schema.entries b.columns col e h g in
    let n : length (le_bytes size value) ≡ size = length-le_bytes size value in
    let room : suc row * size ≤ b.rows * size = mul-le-mul_right size r in
    let fits : row * size + size ≤ length c = omega (arith, l, ap (λ x. b.rows * x) w, room) in
    let (copied, kept) = copy_at-total c (row * size) (le_bytes size value) (omega arith) in
    let c' : Bytes =
      take (row * size) c
      ++ (le_bytes size value ++ drop (row * size + length (le_bytes size value)) c) in
    (
      record b { columns = set_at col c' b.columns },
      rw (at, copied) refl,
      record {
        column = col;
        old = c;
        new = c';
        named = named;
        was = at;
        only = refl;
        in_row =
            ap (λ x. take (row * size) c ++ (le_bytes size value ++ drop (row * size + x) c)) n;
        inside = fits;
        shaped = set_at-Shaped b.rows b.schema.entries b.columns col c c' h at kept;
      },
    )

-- What a store may come to: an error that the caller sees, or the value in its place.
abbrev pub Outcome : BankBuilder → Name → ℕ → ℕ → ℕ → Result BankBuilder → Type 0
Outcome b name size row value r =
    ((e : HipoError) × (r ≡ err e))
    ⊎ ((b' : BankBuilder) × (r ≡ ok b') × Stored b name size row value b')

-- On a shaped builder no scalar setter aborts: it returns an error, or stores the value in its row.
pub set_scalar_at-Outcome :
    (ty : DataType) (b : BankBuilder) (name : Name) (row value : ℕ)
    → IsShaped b
    → Outcome b name (type_size ty) row value (set_scalar_at ty b name row value)
unfolding set_scalar_at check_col_scalar check_col check_row require_column cell_size column_index
set_scalar_at-Outcome ty b name row value h =
    elim (Option-cases (last_index name 0 b.schema.entries)) [
      | inl gone ↦ inl (unknown_column b.schema.name name, rw gone refl)
      | inr (col, named) ↦
          let (lo, hi) = last_index-some name 0 b.schema.entries col named in
          let (e, g) = get_elem?-some b.schema.entries col (omega arith) in
          elim (Bool-cases (same_type e.ty ty)) [
            | inr differ ↦ inl (
              type_mismatch b.schema.name name (type_name ty) (type_name e.ty),
              rw (named, g, differ) refl,
            )
            | inl same ↦ elim (Bool-cases (e.length == 1)) [
              | inr array ↦ inl (
                column_length_mismatch b.schema.name name 1 e.length,
                rw (named, g, same, array) refl,
              )
              | inl scalar ↦ elim (Bool-cases (leb b.rows row)) [
                | inl out ↦ inl (
                  invalid_usage "BankBuilder: row index out of range (call push_rows first)",
                  rw (named, g, same, scalar, out) refl,
                )
                | inr inside ↦
                    let one : e.length ≡ 1 = (==_iff e.length 1).0 scalar in
                    let width : type_size e.ty * e.length ≡ type_size ty =
                      ap (λ n. type_size e.ty * n) one ∙ omega (arith, same_type-eq e.ty ty same) in
                    let (b', done, stored) =
                      store-Stored b name col e (type_size ty) row value h named g width
                        (leb_false→lt b.rows row inside) in
                    inr (b', rw (named, g, same, scalar, inside, done) refl, stored)
              ]
            ]
          ]
    ]

Stored-read :
    (b b' : BankBuilder) (name : Name) (size row value : ℕ)
    → (s : Stored b name size row value b') → value < 256 ^ size
    → read_le size s.new (row * size) ≡ ok value
Stored-read b b' name size row value s h =
    ap (λ c. read_le size c (row * size)) s.in_row
    ∙ read_le-append size (take (row * size) s.old) (le_bytes size value)
        (drop (row * size + size) s.old) (row * size)
        (omega (arith, s.inside, length-take (row * size) s.old)) (length-le_bytes size value)
    ∙ ap ok (le_value-le_bytes size value h)

-- When a scalar setter succeeds on a shaped builder with a value that fits the type, the named
-- column exists, a read at the row's place in it gives the value, and the shape is kept.
pub set_scalar_at-read :
    (ty : DataType) (b b' : BankBuilder) (name : Name) (row value : ℕ)
    → IsShaped b
    → value < 256 ^ type_size ty
    → set_scalar_at ty b name row value ≡ ok b'
    → (col : ℕ) × (c : Bytes) × (column_index b.schema name ≡ some col)
      × (get_elem? b'.columns col ≡ some c)
      × (read_le (type_size ty) c (row * type_size ty) ≡ ok value)
      × IsShaped b'
set_scalar_at-read ty b b' name row value h v done =
    elim (set_scalar_at-Outcome ty b name row value h) [
      | inl (e, refused) ↦ absurd (clash e (sym refused ∙ done))
      | inr (x, stored_ok, s) ↦
          let same : x ≡ b' = ok-injective (sym stored_ok ∙ done) in
          (
            s.column,
            s.new,
            s.named,
            subst (λ y. get_elem? y.columns s.column ≡ some s.new) same
                (ap (λ y. get_elem? y.columns s.column) s.only
                  ∙ get_elem?-set_at s.column s.new b.columns
                      (get_elem?-lt b.columns s.column s.old s.was)),
            Stored-read b x name (type_size ty) row value s v,
            subst IsShaped same s.shaped,
          )
    ]
  where
    clash : (e : HipoError) → err e ≢ ok b'
    clash e p = cc
