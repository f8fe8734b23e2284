-- ===== src/Event/BankBuilder/Shape.antt =====
-- The shape of a `BankBuilder`: each column holds as many cells as there are rows.
use mathlib.Core.Path.{subst}
use oxihipo.Prelude.{
  ℕ, zero, suc, ◌+◌, ◌*◌, ◌^◌, ◌≤◌, ◌<◌, ◌≡◌, refl, sym, ap, ◌∙◌, arith, List, [], ◌∷◌, ◌++◌, some,
  length, get_elem?, take, drop, replicate, set_at, map, length-append, length-replicate,
  length-take, length-drop, some-injective, Bytes, ok,
}
use oxihipo.Schema.Types.{SchemaEntry, Schema, cell_size}
use oxihipo.Wire.Bytes.{copy_at}
use oxihipo.Event.BankBuilder.{
  BankBuilder, new, resize_with, with_buffers, extend_columns, push_row, push_rows,
}

unfoldable pub Shaped : ℕ → List SchemaEntry → List Bytes → Type 0
Shaped rows [] [] = Unit
Shaped rows [] (c ∷ cs) = ⊥
Shaped rows (e ∷ es) [] = ⊥
Shaped rows (e ∷ es) (c ∷ cs) = (length c ≡ rows * cell_size e) × Shaped rows es cs

-- Each column of the builder holds a cell per row.
abbrev pub IsShaped : BankBuilder → Type 0
IsShaped b = Shaped b.rows b.schema.entries b.columns

pub new-IsShaped : (s : Schema) → IsShaped (new s)
unfolding new Shaped
new-IsShaped s = empty s.entries
  where
    empty : (es : List SchemaEntry) → Shaped 0 es (map (λ e. []) es)
    empty [] = tt
    empty (e ∷ es) = (omega arith, empty es)

extend-Shaped :
    (rows : ℕ) (es : List SchemaEntry) (cs : List Bytes)
    → Shaped rows es cs
    → Shaped (suc rows) es (extend_columns es cs)
unfolding Shaped extend_columns
extend-Shaped rows [] [] h = tt
extend-Shaped rows [] (c ∷ cs) h = absurd h
extend-Shaped rows (e ∷ es) [] h = absurd h
extend-Shaped rows (e ∷ es) (c ∷ cs) (p, h) = (
  omega (
    arith,
    length-append c (replicate (cell_size e) 0),
    length-replicate {A = ℕ} (cell_size e) 0,
  ),
  extend-Shaped rows es cs h,
)

rows-push_row : (b : BankBuilder) → b.rows + 1 < 2 ^ 32 → (push_row b).rows ≡ suc b.rows
unfolding push_row
rows-push_row b f = omega arith

push_row-IsShaped : (b : BankBuilder) → b.rows + 1 < 2 ^ 32 → IsShaped b → IsShaped (push_row b)
unfolding push_row
push_row-IsShaped b f h =
    subst (λ n. Shaped n b.schema.entries (extend_columns b.schema.entries b.columns))
      (sym (rows-push_row b f)) (extend-Shaped b.rows b.schema.entries b.columns h)

-- Zero-filled rows keep the shape, every column growing by a cell per row, while the count of rows
-- stays below 2^32; the count is the number of rows pushed.
pub push_rows-IsShaped :
    (n : ℕ) (b : BankBuilder)
    → IsShaped b
    → b.rows + n < 2 ^ 32
    → IsShaped (push_rows n b) × ((push_rows n b).rows ≡ b.rows + n)
unfolding push_rows
push_rows-IsShaped zero b h f = (h, omega arith)
push_rows-IsShaped (suc n) b h f =
    let one : (push_row b).rows ≡ suc b.rows = rows-push_row b (omega arith) in
    let (shaped, count) =
      push_rows-IsShaped n (push_row b) (push_row-IsShaped b (omega arith) h) (omega arith) in
    (shaped, omega arith)

-- The column of an entry, and its length.
pub Shaped-column :
    (rows : ℕ) (es : List SchemaEntry) (cs : List Bytes) (i : ℕ) (e : SchemaEntry)
    → Shaped rows es cs
    → get_elem? es i ≡ some e
    → (c : Bytes) × (get_elem? cs i ≡ some c) × (length c ≡ rows * cell_size e)
unfolding Shaped
Shaped-column rows [] cs i e h g = cc
Shaped-column rows (x ∷ es) [] i e h g = absurd h
Shaped-column rows (x ∷ es) (c ∷ cs) zero e (p, h) g =
    (c, refl, p ∙ ap (λ y. rows * cell_size y) (some-injective g))
Shaped-column rows (x ∷ es) (c ∷ cs) (suc i) e (p, h) g = Shaped-column rows es cs i e h g

pub set_at-Shaped :
    (rows : ℕ) (es : List SchemaEntry) (cs : List Bytes) (i : ℕ) (c c' : Bytes)
    → Shaped rows es cs
    → get_elem? cs i ≡ some c
    → length c' ≡ length c
    → Shaped rows es (set_at i c' cs)
unfolding Shaped
set_at-Shaped rows es [] i c c' h g l = cc
set_at-Shaped rows [] (x ∷ cs) i c c' h g l = absurd h
set_at-Shaped rows (e ∷ es) (x ∷ cs) zero c c' (p, h) g l =
    (l ∙ ap length (some-injective (sym g)) ∙ p, h)
set_at-Shaped rows (e ∷ es) (x ∷ cs) (suc i) c c' (p, h) g l =
    (p, set_at-Shaped rows es cs i c c' h g l)

-- A copy keeps the length, and succeeds where it fits.
pub copy_at-total :
    (buf : Bytes) (off : ℕ) (bs : Bytes)
    → off + length bs ≤ length buf
    → (copy_at buf off bs ≡ ok (take off buf ++ (bs ++ drop (off + length bs) buf)))
      × (length (take off buf ++ (bs ++ drop (off + length bs) buf)) ≡ length buf)
unfolding copy_at
copy_at-total buf off bs h = (
  ground arith,
  omega (
    arith,
    length-append (take off buf) (bs ++ drop (off + length bs) buf),
    length-append bs (drop (off + length bs) buf),
    length-take off buf,
    length-drop (off + length bs) buf,
  ),
)

no_buffers : (es : List SchemaEntry) → replicate {A = Bytes} (length es) [] ≡ map (λ e. []) es
no_buffers [] = refl
no_buffers (e ∷ es) = ap (◌∷◌ []) (no_buffers es)

-- A free list of buffers, whatever it held, gives the builder that fresh buffers give.
pub with_buffers-new : (s : Schema) (buffers : List Bytes) → with_buffers s buffers ≡ new s
unfolding with_buffers new
with_buffers-new s buffers =
    ap (λ c. record { schema = s; columns = c; rows = 0 }) (refilled s.entries buffers)
  where
    refilled :
        (es : List SchemaEntry) (bs : List Bytes)
        → resize_with (length es) (map (λ c. []) (take (length es) bs)) ≡ map (λ e. []) es
    refilled [] bs = refl
    refilled (e ∷ es) [] = ap (◌∷◌ []) (no_buffers es)
    refilled (e ∷ es) (b ∷ bs) = ap (◌∷◌ []) (refilled es bs)
