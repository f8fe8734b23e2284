-- ===== src/Record/Endian.antt =====
-- src/wire/endian.rs: the swap of a decompressed big-endian payload to little-endian, in place.
pub mod Lengths
pub mod Total
use oxihipo.Prelude.{
  ℕ, zero, suc, ◌+◌, ◌-◌, ◌*◌, ◌/◌, ◌%◌, ◌^◌, min, Bool, true, false, not, ◌&&◌, ◌||◌, List, [],
  ◌∷◌, ◌++◌, reverse, Option, none, some, ltb, leb, ◌==◌, if◌then◌else◌, length, take, drop,
  bit_and, Bytes, Result, ok, err, panic, ◌>>=◌,
}
use oxihipo.Prelude.Bits.{◌>>>◌}
use oxihipo.Schema.Types.{SchemaEntry, Schema, type_size}
use oxihipo.Schema.Dict.{Dict, get_by_id}
use oxihipo.Event.Composite
use oxihipo.Event.Composite.{CompositeField, CompositeFormat, is_utf8, trim_end}
use oxihipo.Wire.Bytes.{le_value, slice}
use oxihipo.Wire.RecordHeader.{RecordHeader}
use oxihipo.Wire.Constants.Words.{
  event_header_size, bank_structure_size, eh_size, eh_tag, eh_reserved, struct_size_mask,
  struct_format_shift, struct_format_byte, file_index_group, file_index_item,
}

-- `chunks_exact_mut`, each chunk reversed; the rest stays.
unfoldable pub swap_2 : Bytes → Bytes
swap_2 (a ∷ b ∷ rest) = b ∷ a ∷ swap_2 rest
swap_2 rest = rest

unfoldable pub swap_4 : Bytes → Bytes
swap_4 (a ∷ b ∷ c ∷ d ∷ rest) = d ∷ c ∷ b ∷ a ∷ swap_4 rest
swap_4 rest = rest

unfoldable pub swap_8 : Bytes → Bytes
swap_8 (a ∷ b ∷ c ∷ d ∷ e ∷ f ∷ g ∷ h ∷ rest) = h ∷ g ∷ f ∷ e ∷ d ∷ c ∷ b ∷ a ∷ swap_8 rest
swap_8 rest = rest

unfoldable pub swap_elements : Bytes → ℕ → Bytes
swap_elements buf elem_size =
    if elem_size == 2
    then swap_2 buf
    else if elem_size == 4
    then swap_4 buf
    else if elem_size == 8
    then swap_8 buf
    else buf

-- `buf.get_mut(off..off + width)`, changed by `f`; `none` out of range
abbrev pub change_at : Bytes → ℕ → ℕ → (Bytes → Bytes) → Option Bytes
change_at buf off width f =
    if leb (off + width) (length buf)
    then some (take off buf ++ (f (take width (drop off buf)) ++ drop (off + width) buf))
    else none

abbrev pub or_same : Bytes → Option Bytes → Bytes
or_same buf none = buf
or_same buf (some changed) = changed

unfoldable pub swap_at : Bytes → ℕ → ℕ → Bytes
swap_at buf off width = or_same buf (change_at buf off width reverse)

unfoldable pub read_u32_native : Bytes → ℕ → ℕ
read_u32_native buf off = if leb (off + 4) (length buf) then le_value (take 4 (drop off buf)) else 0

-- A call on `&mut buf[lo..hi]`, which panics out of range.
abbrev pub on_slice : Bytes → ℕ → ℕ → (Bytes → Result Bytes) → Result Bytes
on_slice buf lo hi f = do
  part ← slice buf lo hi
  changed ← f part
  ok (take lo buf ++ (changed ++ drop hi buf))

-- The swap of the fields of one row of a composite bank, at `base`.
unfoldable pub swap_fields : List CompositeField → ℕ → Bytes → Bytes
swap_fields [] base body = body
swap_fields (f ∷ fs) base body =
    swap_fields fs base (swap_at body (base + f.row_offset) (type_size f.ty))

-- The rows from `r` on.
unfoldable pub swap_rows : ℕ → ℕ → CompositeFormat → Bytes → Bytes
swap_rows zero r format body = body
swap_rows (suc n) r format body =
    swap_rows n (suc r) format (swap_fields format.fields (r * format.row_size) body)

abbrev pub swap_body : ℕ → Bytes → Result CompositeFormat → Result Bytes
swap_body format_size bytes panic = panic
swap_body format_size bytes (err e) = ok bytes
swap_body format_size bytes (ok format) =
    if format.row_size == 0
    then ok bytes
    else on_slice bytes format_size (length bytes)
        (λ body. ok (swap_rows (length body / format.row_size) 0 format body))

unfoldable pub normalize_be_composite : Bytes → ℕ → Result Bytes
normalize_be_composite bytes format_size = if ltb (length bytes) format_size then ok bytes else do
  text ← slice bytes 0 format_size
  if not (is_utf8 text)
      then ok bytes
      else swap_body format_size bytes (Composite.parse (trim_end text))

-- The loops over the columns, which end at the first column out of range: widths of an element and
-- of the elements in a row.
unfoldable pub swap_columns : List (ℕ × ℕ) → ℕ → ℕ → Bytes → Bytes
swap_columns [] rows off bytes = bytes
swap_columns ((elem_size, width) ∷ columns) rows off bytes =
    if leb (off + rows * width) (length bytes)
    then swap_columns columns rows (off + rows * width) (
        take off bytes
        ++ (swap_elements (take (rows * width) (drop off bytes)) elem_size
            ++ drop (off + rows * width) bytes))
    else bytes

abbrev pub widths : List SchemaEntry → List (ℕ × ℕ)
widths [] = []
widths (e ∷ es) = (type_size e.ty, type_size e.ty * e.length) ∷ widths es

-- The columns of the file index: position, length, entries and two user words.
abbrev pub index_widths : List (ℕ × ℕ)
index_widths = (8, 8) ∷ (4, 4) ∷ (4, 4) ∷ (8, 8) ∷ (8, 8) ∷ []

abbrev pub by_schema : Bytes → Option Schema → Bytes
by_schema bytes none = bytes
by_schema bytes (some s) =
    if s.row_size == 0
    then bytes
    else swap_columns (widths s.entries) (length bytes / s.row_size) 0 bytes

-- `dict.and_then(|d| d.get_by_id(group, item))`
abbrev pub lookup : Option Dict → ℕ → ℕ → Result (Option Schema)
lookup none group item = ok none
lookup (some d) group item = get_by_id group item d

unfoldable pub normalize_be_structure : Bytes → ℕ → ℕ → ℕ → Option Dict → Result Bytes
normalize_be_structure bytes group item format_size dict =
    if length bytes == 0
    then ok bytes
    else if ltb 0 format_size
    then normalize_be_composite bytes format_size
    else if group == file_index_group && item == file_index_item
    then ok (swap_columns index_widths (length bytes / 32) 0 bytes)
    else do schema ← lookup dict group item; ok (by_schema bytes schema)

-- The structure header at `pos` swapped.
abbrev pub swap_header : Bytes → ℕ → Bytes
swap_header ev pos = swap_at (swap_at ev pos 2) (pos + 4) 4

-- The loop over the structures of an event. Each round passes over eight bytes at least; a round too
-- few would show as `panic`.
unfoldable pub swap_structures : ℕ → Bytes → ℕ → ℕ → Option Dict → Result Bytes
swap_structures zero ev end pos dict = panic
swap_structures (suc rounds) ev end pos dict =
    if leb (pos + bank_structure_size) end
    then (do
      let swapped = swap_header ev pos
      id ← slice swapped pos (pos + 2)
      item ← slice swapped (pos + 2) (pos + 3)
      let length_word = read_u32_native swapped (pos + 4)
      let data_size = bit_and length_word struct_size_mask
      let format_size = bit_and (length_word >>> struct_format_shift) struct_format_byte
      let data_end = pos + bank_structure_size + data_size
      (if ltb end data_end then ok swapped else (do
        changed ←
            on_slice swapped (pos + bank_structure_size) data_end
              (λ bytes. normalize_be_structure bytes (le_value id) (le_value item) format_size dict)
        swap_structures rounds changed end data_end dict)))
    else ok ev

-- The four bytes of the magic, reversed if they read "TNVE".
unfoldable pub fix_magic : Bytes → Bytes
fix_magic (a ∷ b ∷ c ∷ d ∷ rest) =
    if a == 0x54 && b == 0x4E && c == 0x56 && d == 0x45
    then d ∷ c ∷ b ∷ a ∷ rest
    else a ∷ b ∷ c ∷ d ∷ rest
fix_magic ev = ev

unfoldable pub normalize_be_event : Bytes → Option Dict → Result Bytes
normalize_be_event ev dict =
    if ltb (length ev) event_header_size
    then ok ev
    else let words : Bytes =
        swap_at (swap_at (swap_at (fix_magic ev) eh_size 4) eh_tag 4) eh_reserved 4 in
      swap_structures (suc (length words)) words
        (min (read_u32_native words eh_size) (length words)) event_header_size dict

-- The loop over the events, `n` left from `i` on.
unfoldable pub normalize_events : ℕ → ℕ → ℕ → Bytes → Option Dict → Result Bytes
normalize_events zero i off payload dict = ok payload
normalize_events (suc n) i off payload dict =
    let end : ℕ = off + read_u32_native payload (i * 4) in
    if leb end (length payload)
    then (do
      changed ← on_slice payload off end (λ ev. normalize_be_event ev dict)
      normalize_events n (suc i) end changed dict)
    else ok payload

unfoldable pub normalize_be_payload : Bytes → RecordHeader → Option Dict → Result Bytes
normalize_be_payload payload header dict =
    let index_len : ℕ = min header.index_array_length (length payload) in
    let indexed : Bytes = swap_4 (take index_len payload) ++ drop index_len payload in
    let data_start : ℕ =
      header.index_array_length + header.user_header_length + header.user_header_padding in
    if leb (length payload) data_start
    then ok indexed
    else normalize_events header.event_count 0 data_start indexed dict
