-- ===== src/Read/Inner/Rows.antt =====
-- The rows of a trailer's index bank, read back.
use mathlib.Core.List.{append_assoc}
use mathlib.Core.Path.{ap₂}
use oxihipo.Prelude.{
  ℕ, suc, ◌+◌, ◌*◌, ◌/◌, ◌%◌, ◌^◌, ◌≤◌, ◌<◌, ◌≡◌, ◌≢◌, refl, sym, ap, ◌∙◌, arith, List, [], ◌∷◌,
  ◌++◌, map, length, Bytes, ok, length-append, length-map,
}
use oxihipo.Wire.Bytes.{le_bytes, read_le}
use oxihipo.Wire.Bytes.Laws.{read_le-append, length-le_bytes, le_value-le_bytes}
use oxihipo.Wire.EventIndex.{FileEventIndex, push, new}
use oxihipo.Record.Codec.{Backends}
use oxihipo.Write.Writer.{IndexEntry, column, trailer_rows}
use oxihipo.Write.Writer.Tracks.{Item, bytes_of}
use oxihipo.Read.Inner.{trailer_row, take_row, take_rows, read_trailer_bank}
use oxihipo.Read.Inner.Sound.{AllPlaced}
use oxihipo.Read.Inner.Scan.{index_items}

length-column :
    (value : IndexEntry → ℕ) (w : ℕ) (es : List IndexEntry)
    → length (column value w es) ≡ w * length es
length-column value w [] = omega arith
length-column value w (e ∷ es) = omega (
  arith,
  length-append (le_bytes w (value e)) (column value w es),
  length-le_bytes w (value e),
  length-column value w es,
)

pub length-trailer_rows : (es : List IndexEntry) → length (trailer_rows es) ≡ 32 * length es
unfolding trailer_rows
length-trailer_rows es =
    let a = column (λ e. e.position) 8 es in
    let b = column (λ e. e.record_length) 4 es in
    let c = column (λ e. e.event_count) 4 es in
    let d = column (λ e. e.user_word_1) 8 es in
    let f = column (λ e. e.user_word_2) 8 es in
    omega (
      arith,
      length-append a (b ++ (c ++ (d ++ f))),
      length-append b (c ++ (d ++ f)),
      length-append c (d ++ f),
      length-append d f,
      length-column (λ e. e.position) 8 es,
      length-column (λ e. e.record_length) 4 es,
      length-column (λ e. e.event_count) 4 es,
      length-column (λ e. e.user_word_1) 8 es,
      length-column (λ e. e.user_word_2) 8 es,
    )

column-append :
    (value : IndexEntry → ℕ) (w : ℕ) (done es : List IndexEntry)
    → column value w (done ++ es) ≡ column value w done ++ column value w es
column-append value w [] es = refl
column-append value w (d ∷ done) es =
    ap (λ x. le_bytes w (value d) ++ x) (column-append value w done es)
    ∙ sym (append_assoc (le_bytes w (value d)) (column value w done) (column value w es))

-- A value of a column that stands in a bank.
read-column :
    (value : IndexEntry → ℕ) (w : ℕ) (pre post : Bytes) (done : List IndexEntry) (e : IndexEntry)
    (es : List IndexEntry) (off : ℕ)
    → off ≡ length pre + w * length done
    → value e < 256 ^ w
    → read_le w (pre ++ (column value w (done ++ (e ∷ es)) ++ post)) off ≡ ok (value e)
read-column value w pre post done e es off at fits =
    let before : Bytes = column value w done in
    let word : Bytes = le_bytes w (value e) in
    let after : Bytes = column value w es in
    let same : pre ++ (column value w (done ++ (e ∷ es)) ++ post)
        ≡ (pre ++ before) ++ (word ++ (after ++ post)) =
      ap (λ x. pre ++ (x ++ post)) (column-append value w done (e ∷ es)) ∙ simp append_assoc in
    ap (λ x. read_le w x off) same
    ∙ read_le-append w (pre ++ before) word (after ++ post) off
        (omega (arith, at, length-append pre before, length-column value w done))
        (length-le_bytes w (value e))
    ∙ ap ok (le_value-le_bytes w (value e) fits)

-- An entry whose fields are those of a row that a reader accepts.
record Fits (e : IndexEntry) : Type 0 where
  position : e.position < 2 ^ 63
  record_length : e.record_length < 2 ^ 31
  event_count : e.event_count < 2 ^ 31

module _ (file_len : ℕ) where
  trailer_row-rows :
      (done es : List IndexEntry) (e : IndexEntry) (rows r : ℕ)
      → rows ≡ length (done ++ (e ∷ es))
      → r ≡ length done
      → Fits e
      → trailer_row (trailer_rows (done ++ (e ∷ es))) rows r
        ≡ ok (e.position, e.record_length, e.event_count)
  unfolding trailer_row trailer_rows
  trailer_row-rows done es e rows r counted at f =
      let all : List IndexEntry = done ++ (e ∷ es) in
      let a = column (λ e. e.position) 8 all in
      let b = column (λ e. e.record_length) 4 all in
      let c = column (λ e. e.event_count) 4 all in
      let tail = column (λ e. e.user_word_1) 8 all ++ column (λ e. e.user_word_2) 8 all in
      let first =
        read-column (λ e. e.position) 8 [] (b ++ (c ++ tail)) done e es (r * 8) (omega arith)
          (omega (arith, f.position)) in
      let second =
        read-column (λ e. e.record_length) 4 a (c ++ tail) done e es (rows * 8 + r * 4)
          (omega (arith, length-column (λ e. e.position) 8 all)) (omega (arith, f.record_length)) in
      let third : read_le 4 (a ++ (b ++ (c ++ tail))) (rows * 12 + r * 4) ≡ ok e.event_count =
        ap (λ x. read_le 4 x (rows * 12 + r * 4)) (sym (append_assoc a b (c ++ tail)))
        ∙ read-column (λ e. e.event_count) 4 (a ++ b) tail done e es (rows * 12 + r * 4)
            (omega (
              arith,
              length-append a b,
              length-column (λ e. e.position) 8 all,
              length-column (λ e. e.record_length) 4 all,
            ))
            (omega (arith, f.event_count)) in
      rw (first, second, third) refl

  take_row-Fits :
      (trailer_pos start : ℕ) (idx : FileEventIndex) (pos len ent : ℕ)
      → pos < 2 ^ 63
      → len < 2 ^ 31
      → ent < 2 ^ 31
      → start ≤ pos
      → pos ≢ trailer_pos
      → pos + len ≤ file_len
      → take_row file_len trailer_pos start idx (pos, len, ent) ≡ ok (push idx pos len ent)
  unfolding take_row
  take_row-Fits trailer_pos start idx pos len ent a b c from apart inside = ground arith

  -- The rows of the entries that are left make the index of their records.
  take_rows-AllPlaced :
      (b : Backends) (trailer_pos start : ℕ) (idx : FileEventIndex) (done : List IndexEntry)
      (pos rows : ℕ) (is : List Item)
      → AllPlaced b pos is
      → rows ≡ length (done ++ map (λ i. i.entry) is)
      → start ≤ pos
      → pos + length (bytes_of is) ≤ trailer_pos
      → trailer_pos ≤ file_len
      → file_len < 2 ^ 63
      → take_rows file_len trailer_pos start
          (trailer_rows (done ++ map (λ i. i.entry) is))
          rows
          (length is)
          (length done)
          idx
        ≡ ok (index_items idx pos is)
  unfolding take_rows
  take_rows-AllPlaced b trailer_pos start idx done pos rows [] ps counted from fits below small =
      refl
  take_rows-AllPlaced b trailer_pos start idx done pos rows (i ∷ is) (p, ps) counted from fits below
        small =
      let e : IndexEntry = i.entry in
      let es : List IndexEntry = map (λ i. i.entry) is in
      let move : done ++ (e ∷ es) ≡ (done ++ (e ∷ [])) ++ es =
        sym (append_assoc done (e ∷ []) es) in
      let long : 56 ≤ length i.bytes = p.readable.long in
      let room : length (bytes_of (i ∷ is)) ≡ length i.bytes + length (bytes_of is) =
        length-append i.bytes (bytes_of is) in
      let row = trailer_row-rows done es e rows (length done) counted refl (record {
        position = omega (arith, p.position);
        record_length = omega (arith, p.record_length, p.readable.small);
        event_count = omega (arith, p.event_count, p.few);
      }) in
      let taken =
        take_row-Fits trailer_pos start idx e.position e.record_length e.event_count
          (omega (arith, p.position)) (omega (arith, p.record_length, p.readable.small))
          (omega (arith, p.event_count, p.few)) (omega (arith, p.position))
          (λ same. omega (arith, p.position)) (omega (arith, p.position, p.record_length)) in
      let idx' : FileEventIndex = push idx pos (length i.bytes) (length i.chunk) in
      let same : push idx e.position e.record_length e.event_count ≡ idx' =
        ap₂ (λ x (yz : ℕ × ℕ). push idx x yz.0 yz.1) p.position
          (ap₂ (λ y z. (y, z)) p.record_length p.event_count) in
      let rest =
        take_rows-AllPlaced b trailer_pos start idx' (done ++ (e ∷ [])) (pos + length i.bytes) rows
          is ps (counted ∙ ap length move) (omega arith) (omega arith) below small in
      rw (row, taken, same)
        (ap
            (λ x.
              take_rows file_len trailer_pos start (trailer_rows x) rows (length is)
                (suc (length done)) idx')
            move
          ∙ ap
              (λ r.
                take_rows file_len trailer_pos start (trailer_rows ((done ++ (e ∷ [])) ++ es)) rows
                  (length is) r idx')
              {y = length (done ++ (e ∷ []))} (omega (arith, length-append done (e ∷ [])))
          ∙ rest)

  -- The bank of the entries of a run of records gives their index.
  pub read_trailer_bank-AllPlaced :
      (b : Backends) (trailer_pos start : ℕ) (is : List Item)
      → AllPlaced b start is
      → start + length (bytes_of is) ≤ trailer_pos
      → trailer_pos ≤ file_len
      → file_len < 2 ^ 63
      → length is < 2 ^ 32
      → read_trailer_bank file_len trailer_pos start (trailer_rows (map (λ i. i.entry) is))
        ≡ ok (index_items new start is)
  unfolding read_trailer_bank
  read_trailer_bank-AllPlaced b trailer_pos start is ps fits below small few =
      let es : List IndexEntry = map (λ i. i.entry) is in
      let bank : Bytes = trailer_rows es in
      let len : length bank ≡ 32 * length is =
        omega (arith, length-trailer_rows es, length-map (λ (i : Item). i.entry) is) in
      let multiple : length bank % 32 ≡ 0 = omega (arith, len) in
      let rows : length bank / 32 % 2 ^ 32 ≡ length is = omega (arith, len) in
      rw (multiple, rows)
        (take_rows-AllPlaced b trailer_pos start new [] start (length is) is ps
          (sym (length-map (λ (i : Item). i.entry) is)) (omega arith) fits below small)
