-- ===== src/Event/BankBuilder/Finish.antt =====
-- `BankBuilder::finish` against the schema's offsets and against the structure header.
use oxihipo.Prelude.{
  ℕ, zero, suc, ◌+◌, ◌*◌, ◌/◌, ◌%◌, ◌^◌, ◌≤◌, ◌<◌, ◌≡◌, ◌⊎◌, inl, inr, refl, sym, ap, ◌∙◌, arith,
  List, [], ◌∷◌, ◌++◌, some, ltb, length, get_elem?, length-append, Bytes, ok, err, Bool-cases,
  ltb→lt, refuse_if, >>=-eq-ok, ok-injective, bank_too_large, some-injective, le→ltb_false, bit_and,
  bit_or,
}
use mathlib.Core.List.{append_assoc}
use native.Mathlib.Nat.{mul_comm}
use oxihipo.Prelude.Bits.{◌<<<◌}
use oxihipo.Schema.Types.{SchemaEntry, cell_size, bytes_for_rows, column_byte_offset}
use oxihipo.Schema.Types.Layout.{Chained}
use oxihipo.Wire.Bytes.{le_bytes, slice}
use oxihipo.Wire.Bytes.Laws.{slice-append}
use oxihipo.Event.BankBuilder.{BankBuilder, concat, sum_lengths, data_size, finish, finish_into}
use oxihipo.Event.BankBuilder.Shape.{Shaped, IsShaped, Shaped-column}
use oxihipo.Event.Structures.{StructureHeader, to_bytes}
use oxihipo.Event.Structures.Header.{word_bytes, header_with, length_word_sum}
use oxihipo.Event.Structures.Walk.{IsEncodable}

length-concat : (cs : List Bytes) → length (concat cs) ≡ sum_lengths cs
length-concat [] = refl
length-concat (c ∷ cs) = omega (arith, length-append c (concat cs), length-concat cs)

-- The bytes of the columns fill the rows.
sum_lengths-Shaped :
    (rows : ℕ) (es : List SchemaEntry) (cs : List Bytes) (offset end : ℕ)
    → Shaped rows es cs
    → Chained offset es end
    → rows * offset + sum_lengths cs ≡ rows * end
unfolding Shaped Chained
sum_lengths-Shaped rows [] [] offset end h c = omega (arith, ap (λ n. rows * n) c)
sum_lengths-Shaped rows [] (x ∷ cs) offset end h c = absurd h
sum_lengths-Shaped rows (e ∷ es) [] offset end h c = absurd h
sum_lengths-Shaped rows (e ∷ es) (x ∷ cs) offset end (p, h) (o, q, c) =
    omega (arith, sum_lengths-Shaped rows es cs (offset + cell_size e) end h c)

-- A column stands in the data where its entry's offset says.
column-place :
    (rows : ℕ) (es : List SchemaEntry) (cs : List Bytes) (offset end i : ℕ) (e : SchemaEntry)
    (c : Bytes)
    → Shaped rows es cs
    → Chained offset es end
    → get_elem? es i ≡ some e
    → get_elem? cs i ≡ some c
    → (pre post : Bytes) × (concat cs ≡ pre ++ (c ++ post))
      × (rows * offset + length pre ≡ rows * e.row_offset)
unfolding Shaped Chained
column-place rows [] cs offset end i e c h k g f = cc
column-place rows (x ∷ es) [] offset end i e c h k g f = cc
column-place rows (x ∷ es) (y ∷ cs) offset end zero e c (p, h) (o, q, k) g f =
    let start : x.row_offset ≡ e.row_offset = ap (λ z. z.row_offset) (some-injective g) in
    (
      [],
      concat cs,
      ap (λ z. z ++ concat cs) (some-injective f),
      omega (arith, ap (λ n. rows * n) (sym o ∙ start)),
    )
column-place rows (x ∷ es) (y ∷ cs) offset end (suc i) e c (p, h) (o, q, k) g f =
    let (pre, post, eq, place) = column-place rows es cs (offset + cell_size x) end i e c h k g f in
    (
      y ++ pre,
      post,
      ap (λ z. y ++ z) eq ∙ sym (append_assoc y pre (c ++ post)),
      omega (arith, length-append y pre, place, p),
    )

abbrev written : BankBuilder → Bytes
written b =
    le_bytes 2 b.schema.group
    ++ (b.schema.item ∷ 11 ∷ (le_bytes 4 (data_size b) ++ concat b.columns))

-- The data of a shaped builder fills its rows exactly. `finish` refuses data of 2^24 bytes or more,
-- and writes anything smaller, eight bytes longer than the data.
pub finish-decides :
    (b : BankBuilder)
    → IsShaped b
    → Chained 0 b.schema.entries b.schema.row_size
    → (data_size b ≡ bytes_for_rows b.schema b.rows)
      × (((2 ^ 24 ≤ data_size b)
            × (finish b ≡ err (bank_too_large b.schema.name (data_size b) 0x00FF_FFFF)))
          ⊎ ((data_size b < 2 ^ 24)
              × ((out : Bytes) × (finish b ≡ ok out) × (length out ≡ 8 + data_size b))))
unfolding data_size bytes_for_rows finish finish_into le_bytes
finish-decides b h c =
    let n : ℕ = data_size b in
    let filled = sum_lengths-Shaped b.rows b.schema.entries b.columns 0 b.schema.row_size h c in
    (
      omega (arith, filled, mul_comm b.rows b.schema.row_size),
      elim (Bool-cases (ltb 0x00FF_FFFF n)) [
        | inl big ↦ inl (omega (arith, ltb→lt 0x00FF_FFFF n big), rw big refl)
        | inr fits ↦ inr (
          ground (arith, fits),
          (written b, rw fits refl, omega (arith, length-concat b.columns)),
        )
      ],
    )

-- The header of a finished bank.
abbrev pub bank_header : BankBuilder → StructureHeader
bank_header b = header_with b.schema.group b.schema.item 11 (data_size b) 0

-- A bank with a 16-bit group, an 8-bit item and less than 2^24 bytes of data is written as its
-- structure header and its data, and the format can express it.
pub finish-IsEncodable :
    (b : BankBuilder)
    → b.schema.group < 2 ^ 16
    → b.schema.item < 2 ^ 8
    → data_size b < 2 ^ 24
    → (finish b ≡ ok (to_bytes (bank_header b) ++ concat b.columns))
      × IsEncodable (bank_header b, concat b.columns)
unfolding data_size finish finish_into to_bytes le_bytes
finish-IsEncodable b g i h =
    let n : ℕ = data_size b in
    let word : bit_or (bit_and n 0x00FF_FFFF) (bit_and 0 0xFF <<< 24) ≡ n =
      length_word_sum n 0 h (omega arith) ∙ omega arith in
    let group : ℕ = b.schema.group in
    let item : ℕ = b.schema.item in
    (
      rw (le→ltb_false 0x00FF_FFFF n (omega arith)) (
          ap (λ x. ok (group % 256 ∷ group / 256 % 256 ∷ item ∷ 11 ∷ x))
            (word_bytes n (concat b.columns))
          ∙ ap
              (λ x. ok (
                group % 256
                ∷ group / 256 % 256
                ∷ item
                ∷ 11
                ∷ x % 2 ^ 8
                ∷ x / 2 ^ 8 % 2 ^ 8
                ∷ x / 2 ^ 16 % 2 ^ 8
                ∷ x / 2 ^ 24 % 2 ^ 8
                ∷ concat b.columns))
              (sym word)),
      record {
        header = record {
          group = g;
          item = i;
          ty = omega arith;
          data_size = h;
          header_size = omega arith;
        };
        sized = sym (length-concat b.columns);
      },
    )

-- A column of a finished bank stands behind the header where the schema's offset says.
pub finish-column :
    (b : BankBuilder) (i : ℕ) (e : SchemaEntry) (out : Bytes)
    → IsShaped b
    → Chained 0 b.schema.entries b.schema.row_size
    → get_elem? b.schema.entries i ≡ some e
    → finish b ≡ ok out
    → (c : Bytes) × (get_elem? b.columns i ≡ some c)
      × (slice out
            (8 + column_byte_offset e b.rows)
            (8 + column_byte_offset e b.rows + b.rows * cell_size e)
          ≡ ok c)
unfolding finish finish_into le_bytes column_byte_offset
finish-column b i e out h k g f =
    let (c, at, l) = Shaped-column b.rows b.schema.entries b.columns i e h g in
    let (pre, post, eq, place) =
      column-place b.rows b.schema.entries b.columns 0 b.schema.row_size i e c h k g at in
    let front : Bytes =
      le_bytes 2 b.schema.group ++ (b.schema.item ∷ 11 ∷ le_bytes 4 (data_size b)) in
    let (u, refused, written) =
      >>=-eq-ok
        (refuse_if (ltb 0x00FF_FFFF (data_size b))
          (bank_too_large b.schema.name (data_size b) 0x00FF_FFFF))
        (λ _. ok (front ++ concat b.columns)) f in
    let shape : out ≡ (front ++ pre) ++ (c ++ post) =
      sym (ok-injective written)
      ∙ ap (λ z. front ++ z) eq
      ∙ sym (append_assoc front pre (c ++ post)) in
    (
      c,
      at,
      ap
            (λ z.
              slice z (8 + b.rows * e.row_offset)
                (8 + b.rows * e.row_offset + b.rows * cell_size e))
            shape
          ∙ slice-append (front ++ pre) c post (8 + b.rows * e.row_offset)
              (8 + b.rows * e.row_offset + b.rows * cell_size e)
              (omega (arith, length-append front pre, place))
              (omega (arith, length-append front pre, place, l)),
    )
