-- ===== src/Record/Endian/Total.antt =====
-- The swap of a payload ends on every input and keeps its length.
use oxihipo.Prelude.{
  ℕ, zero, suc, ◌+◌, ◌-◌, ◌*◌, ◌/◌, ◌≤◌, ◌<◌, ◌≡◌, ◌≢◌, min, refl, ◌∙◌, inl, inr, arith, ◌&&◌, List,
  [], ◌∷◌, ◌++◌, Option, none, some, ltb, leb, ◌==◌, length, take, drop, Bytes, length-append,
  length-take, length-drop, Bool-cases, leb→le, Result, ok, err, panic, bit_and,
}
use oxihipo.Prelude.Bits.{◌>>>◌}
use oxihipo.Schema.Types.{Schema, type_size}
use oxihipo.Schema.Dict.{Dict}
use oxihipo.Schema.Dict.Invariant.{IsValid}
use oxihipo.Schema.Dict.Lookup.{get-total}
use oxihipo.Event.Composite
use oxihipo.Event.Composite.{CompositeField, CompositeFormat, is_utf8, trim_end}
use oxihipo.Event.Composite.Total.{parse-ne-panic_format}
use oxihipo.Wire.Bytes.{le_value}
use oxihipo.Wire.Bytes.Laws.{slice_total}
use oxihipo.Wire.RecordHeader.{RecordHeader}
use oxihipo.Record.Endian.{
  swap_4, swap_elements, swap_at, read_u32_native, on_slice, swap_fields, swap_rows, swap_body,
  normalize_be_composite, swap_columns, index_widths, widths, by_schema, lookup,
  normalize_be_structure, swap_header, swap_structures, fix_magic, normalize_be_event,
  normalize_events, normalize_be_payload,
}
use oxihipo.Record.Endian.Lengths.{
  length-swap_4, length-swap_elements, length-replace, length-swap_at,
}

-- A computation that returns bytes of the given length.
abbrev pub Keeps : ℕ → Result Bytes → Type 0
Keeps n r = (out : Bytes) × (r ≡ ok out) × (length out ≡ n)

on_slice-Keeps :
    (buf : Bytes) (lo hi : ℕ) (f : Bytes → Result Bytes)
    → lo ≤ hi
    → hi ≤ length buf
    → ((part : Bytes) → Keeps (length part) (f part))
    → Keeps (length buf) (on_slice buf lo hi f)
on_slice-Keeps buf lo hi f p q k =
    let part : Bytes = take (hi - lo) (drop lo buf) in
    let (out, e, l) = k part in
    (
      take lo buf ++ (out ++ drop hi buf),
      rw (slice_total buf lo hi p q, e) refl,
      length-replace buf out lo hi p q
          (omega (arith, l, length-take (hi - lo) (drop lo buf), length-drop lo buf)),
    )

length-swap_fields :
    (fs : List CompositeField) (base : ℕ) (body : Bytes)
    → length (swap_fields fs base body) ≡ length body
unfolding swap_fields
length-swap_fields [] base body = refl
length-swap_fields (f ∷ fs) base body =
    length-swap_fields fs base (swap_at body (base + f.row_offset) (type_size f.ty))
    ∙ length-swap_at body (base + f.row_offset) (type_size f.ty)

length-swap_rows :
    (n r : ℕ) (format : CompositeFormat) (body : Bytes)
    → length (swap_rows n r format body) ≡ length body
unfolding swap_rows
length-swap_rows zero r format body = refl
length-swap_rows (suc n) r format body =
    length-swap_rows n (suc r) format (swap_fields format.fields (r * format.row_size) body)
    ∙ length-swap_fields format.fields (r * format.row_size) body

swap_body-Keeps :
    (k : ℕ) (bytes : Bytes) (r : Result CompositeFormat)
    → k ≤ length bytes
    → r ≢ panic
    → Keeps (length bytes) (swap_body k bytes r)
swap_body-Keeps k bytes panic h n = absurd (n refl)
swap_body-Keeps k bytes (err e) h n = (bytes, refl, refl)
swap_body-Keeps k bytes (ok format) h n = elim (Bool-cases (format.row_size == 0)) [
  | inl empty ↦ rw empty (bytes, refl, refl)
  | inr rows ↦ rw rows (
      on_slice-Keeps bytes k (length bytes)
        (λ body. ok (swap_rows (length body / format.row_size) 0 format body)) h (omega arith)
        (λ body. (
          swap_rows (length body / format.row_size) 0 format body,
          refl,
          length-swap_rows (length body / format.row_size) 0 format body,
        )))
]

normalize_be_composite-Keeps :
    (bytes : Bytes) (k : ℕ) → Keeps (length bytes) (normalize_be_composite bytes k)
unfolding normalize_be_composite
normalize_be_composite-Keeps bytes k = elim (Bool-cases (ltb (length bytes) k)) [
  | inl short ↦ rw short (bytes, refl, refl)
  | inr room ↦
      let fits : k ≤ length bytes = ground (arith, room) in
      let text : Bytes = take (k - 0) (drop 0 bytes) in
      elim (Bool-cases (is_utf8 text)) [
        | inr bad ↦ rw (room, slice_total bytes 0 k (omega arith) fits, bad) (bytes, refl, refl)
        | inl good ↦
            rw (room, slice_total bytes 0 k (omega arith) fits, good)
              (swap_body-Keeps k bytes (Composite.parse (trim_end text)) fits
                (parse-ne-panic_format (trim_end text)))
      ]
]

length-swap_columns :
    (cs : List (ℕ × ℕ)) (rows off : ℕ) (bytes : Bytes)
    → length (swap_columns cs rows off bytes) ≡ length bytes
unfolding swap_columns
length-swap_columns [] rows off bytes = refl
length-swap_columns ((n, w) ∷ cs) rows off bytes =
    elim (Bool-cases (leb (off + rows * w) (length bytes))) [
      | inr out ↦ rw out refl
      | inl fits ↦
          let h = leb→le (off + rows * w) (length bytes) fits in
          let part : Bytes = take (rows * w) (drop off bytes) in
          rw fits (
            length-swap_columns cs rows (off + rows * w) _
            ∙ length-replace bytes (swap_elements part n) off (off + rows * w) (omega arith) h (
                omega (
                  arith,
                  length-swap_elements part n,
                  length-take (rows * w) (drop off bytes),
                  length-drop off bytes,
                )))
    ]

-- A dictionary, if any, whose lookups do not abort.
abbrev pub Usable : Option Dict → Type 0
Usable none = Unit
Usable (some d) = IsValid d

lookup-ok :
    (dict : Option Dict) (group item : ℕ)
    → Usable dict
    → (o : Option Schema) × (lookup dict group item ≡ ok o)
lookup-ok none group item u = (none, refl)
lookup-ok (some d) group item v = (get-total d [] group item v).1

length-by_schema : (bytes : Bytes) (o : Option Schema) → length (by_schema bytes o) ≡ length bytes
length-by_schema bytes none = refl
length-by_schema bytes (some s) = elim (Bool-cases (s.row_size == 0)) [
  | inl empty ↦ rw empty refl
  | inr rows ↦ rw rows (length-swap_columns (widths s.entries) (length bytes / s.row_size) 0 bytes)
]

normalize_be_structure-Keeps :
    (bytes : Bytes) (group item format_size : ℕ) (dict : Option Dict)
    → Usable dict
    → Keeps (length bytes) (normalize_be_structure bytes group item format_size dict)
unfolding normalize_be_structure
normalize_be_structure-Keeps bytes group item k dict u = elim (Bool-cases (length bytes == 0)) [
  | inl empty ↦ rw empty (bytes, refl, refl)
  | inr some_bytes ↦ elim (Bool-cases (ltb 0 k)) [
    | inl composite ↦ rw (some_bytes, composite) (normalize_be_composite-Keeps bytes k)
    | inr plain ↦ elim (Bool-cases (group == 32111 && item == 1)) [
      | inl index ↦
          rw (some_bytes, plain, index)
            (
              swap_columns index_widths (length bytes / 32) 0 bytes,
              refl,
              length-swap_columns index_widths (length bytes / 32) 0 bytes,
            )
      | inr bank ↦
          let (o, e) = lookup-ok dict group item u in
          rw (some_bytes, plain, bank, e) (by_schema bytes o, refl, length-by_schema bytes o)
    ]
  ]
]

length-swap_header : (ev : Bytes) (pos : ℕ) → length (swap_header ev pos) ≡ length ev
length-swap_header ev pos = length-swap_at (swap_at ev pos 2) (pos + 4) 4 ∙ length-swap_at ev pos 2

swap_structures-Keeps :
    (rounds : ℕ) (ev : Bytes) (end pos : ℕ) (dict : Option Dict)
    → Usable dict
    → end ≤ length ev
    → 0 < rounds
    → end < rounds + pos
    → Keeps (length ev) (swap_structures rounds ev end pos dict)
unfolding swap_structures
swap_structures-Keeps zero ev end pos dict u h z f = absurd (omega arith)
swap_structures-Keeps (suc rounds) ev end pos dict u h z f = elim (Bool-cases (leb (pos + 8) end)) [
  | inr stop ↦ rw stop (ev, refl, refl)
  | inl more ↦
      let room : pos + 8 ≤ end = leb→le (pos + 8) end more in
      let swapped : Bytes = swap_header ev pos in
      let same : length swapped ≡ length ev = length-swap_header ev pos in
      let word : ℕ = read_u32_native swapped (pos + 4) in
      let size : ℕ = bit_and word 0x00FF_FFFF in
      let format_size : ℕ = bit_and (word >>> 24) 0xFF in
      let first = slice_total swapped pos (pos + 2) (omega arith) (omega arith) in
      let second = slice_total swapped (pos + 2) (pos + 3) (omega arith) (omega arith) in
      let id : Bytes = take (pos + 2 - pos) (drop pos swapped) in
      let item : Bytes = take (pos + 3 - (pos + 2)) (drop (pos + 2) swapped) in
      let normalize : Bytes → Result Bytes =
        λ bytes. normalize_be_structure bytes (le_value id) (le_value item) format_size dict in
      elim (Bool-cases (ltb end (pos + 8 + size))) [
        | inl out ↦ rw (more, first, second, out) (swapped, refl, same)
        | inr inside ↦
            let fits : pos + 8 + size ≤ end = ground (arith, inside) in
            let (changed, e, l) =
              on_slice-Keeps swapped (pos + 8) (pos + 8 + size) normalize (omega arith)
                (omega arith)
                (λ part.
                  normalize_be_structure-Keeps part (le_value id) (le_value item) format_size dict
                    u) in
            let (out, e', l') =
              swap_structures-Keeps rounds changed end (pos + 8 + size) dict u
                (omega (arith, l, same, h)) (omega (arith, room, f)) (omega (arith, room, f)) in
            rw (more, first, second, inside, e) (out, e', l' ∙ l ∙ same)
      ]
]

length-fix_magic : (ev : Bytes) → length (fix_magic ev) ≡ length ev
unfolding fix_magic
length-fix_magic [] = refl
length-fix_magic (a ∷ []) = refl
length-fix_magic (a ∷ b ∷ []) = refl
length-fix_magic (a ∷ b ∷ c ∷ []) = refl
length-fix_magic (a ∷ b ∷ c ∷ d ∷ ev) = ground arith

normalize_be_event-Keeps :
    (ev : Bytes) (dict : Option Dict) → Usable dict → Keeps (length ev) (normalize_be_event ev dict)
unfolding normalize_be_event
normalize_be_event-Keeps ev dict u = elim (Bool-cases (ltb (length ev) 16)) [
  | inl short ↦ rw short (ev, refl, refl)
  | inr room ↦
      let words : Bytes = swap_at (swap_at (swap_at (fix_magic ev) 4 4) 8 4) 12 4 in
      let same : length words ≡ length ev =
        length-swap_at (swap_at (swap_at (fix_magic ev) 4 4) 8 4) 12 4
        ∙ length-swap_at (swap_at (fix_magic ev) 4 4) 8 4
        ∙ length-swap_at (fix_magic ev) 4 4
        ∙ length-fix_magic ev in
      let (out, e, l) =
        swap_structures-Keeps (suc (length words)) words
          (min (read_u32_native words 4) (length words)) 16 dict u (omega arith) (omega arith)
          (omega arith) in
      rw room (out, e, l ∙ same)
]

normalize_events-Keeps :
    (n i off : ℕ) (payload : Bytes) (dict : Option Dict)
    → Usable dict
    → Keeps (length payload) (normalize_events n i off payload dict)
unfolding normalize_events
normalize_events-Keeps zero i off payload dict u = (payload, refl, refl)
normalize_events-Keeps (suc n) i off payload dict u =
    let end : ℕ = off + read_u32_native payload (i * 4) in
    elim (Bool-cases (leb end (length payload))) [
      | inr out ↦ rw out (payload, refl, refl)
      | inl fits ↦
          let (changed, e, l) =
            on_slice-Keeps payload off end (λ ev. normalize_be_event ev dict) (omega arith)
              (leb→le end (length payload) fits) (λ ev. normalize_be_event-Keeps ev dict u) in
          let (out, e', l') = normalize_events-Keeps n (suc i) end changed dict u in
          rw (fits, e) (out, e', l' ∙ l)
    ]

-- Whatever bytes a big-endian record decompresses to, and whatever its header claims, the swap ends
-- without a read or write out of range and keeps the length of the payload, with no dictionary or
-- with a valid one.
pub normalize_be_payload-Keeps :
    (payload : Bytes) (header : RecordHeader) (dict : Option Dict)
    → Usable dict
    → Keeps (length payload) (normalize_be_payload payload header dict)
unfolding normalize_be_payload
normalize_be_payload-Keeps payload header dict u =
    let k : ℕ = min header.index_array_length (length payload) in
    let indexed : Bytes = swap_4 (take k payload) ++ drop k payload in
    let same : length indexed ≡ length payload = omega (
      arith,
      length-append (swap_4 (take k payload)) (drop k payload),
      length-swap_4 (take k payload),
      length-take k payload,
      length-drop k payload,
    ) in
    let start : ℕ =
      header.index_array_length + header.user_header_length + header.user_header_padding in
    elim (Bool-cases (leb (length payload) start)) [
      | inl empty ↦ rw empty (indexed, refl, same)
      | inr data_there ↦
          let (out, e, l) = normalize_events-Keeps header.event_count 0 start indexed dict u in
          rw data_there (out, e, l ∙ same)
    ]
