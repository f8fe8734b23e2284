-- ===== src/Event/Structures.antt =====
-- src/event/event.rs: the structure header, and the walk over the structures of an event.
pub mod Header
pub mod Walk
use oxihipo.Prelude.{
  ℕ, zero, suc, ◌+◌, ◌-◌, ◌*◌, ◌/◌, ◌%◌, ◌^◌, min, Bool, true, false, ◌&&◌, ◌||◌, List, [], ◌∷◌,
  ◌++◌, Option, none, some, ltb, leb, ◌==◌, if◌then◌else◌, length, get_elem?, take, drop, bit_and,
  bit_or, Bytes, Result, ok, err, panic, ◌>>=◌,
}
use oxihipo.Prelude.Bits.{◌>>>◌, ◌<<<◌}
use oxihipo.Wire.Bytes.{le_value, le_bytes, slice, read_u32_le}
use oxihipo.Wire.Constants.Words.{
  event_header_size, bank_structure_size, eh_size, eh_tag, struct_size_mask, struct_format_shift,
  struct_format_byte,
}

pub record StructureHeader : Type 0 where
  pub group : ℕ
  pub item : ℕ
  pub ty : ℕ
  -- Data size in bytes, without the 8-byte header.
  pub data_size : ℕ
  -- Inline header size of a composite bank, 0 for a plain bank.
  pub header_size : ℕ

-- The header of a structure at the front of a buffer. `as u16` and `as u32` of a byte keep it, and
-- the shifts stay inside the word.
unfoldable pub parse : Bytes → Option StructureHeader
parse (b0 ∷ b1 ∷ b2 ∷ b3 ∷ b4 ∷ b5 ∷ b6 ∷ b7 ∷ rest) =
    let length_word : ℕ = bit_or (bit_or (bit_or b4 (b5 * 2 ^ 8)) (b6 * 2 ^ 16)) (b7 * 2 ^ 24) in
    some (record {
      group = bit_or b0 (b1 * 2 ^ 8);
      item = b2;
      ty = b3;
      data_size = bit_and length_word struct_size_mask;
      header_size = bit_and (length_word >>> struct_format_shift) struct_format_byte % 2 ^ 8;
    })
parse _ = none

unfoldable pub to_bytes : StructureHeader → Bytes
to_bytes h =
    let length_word : ℕ =
      bit_or (bit_and h.data_size struct_size_mask)
        (bit_and h.header_size struct_format_byte <<< struct_format_shift) in
    h.group % 2 ^ 8
    ∷ (h.group >>> 8) % 2 ^ 8
    ∷ h.item
    ∷ h.ty
    ∷ length_word % 2 ^ 8
    ∷ (length_word >>> 8) % 2 ^ 8
    ∷ (length_word >>> 16) % 2 ^ 8
    ∷ (length_word >>> 24) % 2 ^ 8
    ∷ []

-- `Event::size` and `Event::tag`
unfoldable pub size : Bytes → Result ℕ
size buf = if ltb (length buf) event_header_size then ok 0 else read_u32_le buf eh_size

unfoldable pub tag : Bytes → Result ℕ
tag buf = if ltb (length buf) event_header_size then ok 0 else read_u32_le buf eh_tag

-- A structure as the iterator yields it.
abbrev pub Structure : Type 0
Structure = StructureHeader × Bytes

-- `StructureIter::next` of the `Bytes` variant, behind the parse of the header.
unfoldable pub next_data : Bytes → ℕ → ℕ → StructureHeader → Result (Option (Structure × ℕ))
next_data buf end pos hdr =
    let data_start : ℕ = pos + bank_structure_size in
    let data_end : ℕ = data_start + hdr.data_size in
    if ltb end data_end || ltb (length buf) data_end
    then ok none
    else do content ← slice buf data_start data_end; ok (some ((hdr, content), data_end))

-- `?` on the parse of the header
abbrev pub next_item : Bytes → ℕ → ℕ → Option StructureHeader → Result (Option (Structure × ℕ))
next_item buf end pos none = ok none
next_item buf end pos (some hdr) = next_data buf end pos hdr

-- The item that the iterator yields at `pos`, and its next position.
unfoldable pub next : Bytes → ℕ → ℕ → Result (Option (Structure × ℕ))
next buf end pos =
    if ltb end (pos + bank_structure_size)
    then ok none
    else do front ← slice buf pos (length buf); next_item buf end pos (parse front)

-- All that the iterator yields. Each round passes over eight bytes at least, so `length buf` rounds
-- are enough; a round too few would show as `panic`.
unfoldable pub collect : ℕ → Bytes → ℕ → ℕ → Result (List Structure)
collect zero buf end pos = panic
collect (suc rounds) buf end pos = do
  item ← next buf end pos
  elim item [
    | none ↦ ok []
    | some (structure, pos') ↦ do rest ← collect rounds buf end pos'; ok (structure ∷ rest)
  ]

-- `Event::iter_structures`
unfoldable pub structures : Bytes → Result (List Structure)
structures buf = do
  declared ← size buf
  collect (suc (length buf)) buf (min declared (length buf)) event_header_size

abbrev pub is_id : ℕ → ℕ → Structure → Bool
is_id group item s = s.0.group == group && s.0.item == item

-- The first structure with the identifier.
unfoldable pub first_with : ℕ → ℕ → List Structure → Option Structure
first_with group item [] = none
first_with group item (s ∷ rest) = if is_id group item s then some s else first_with group item rest

unfoldable pub find : Bytes → ℕ → ℕ → Result (Option Structure)
find buf group item = do all ← structures buf; ok (first_with group item all)

unfoldable pub has : Bytes → ℕ → ℕ → Result Bool
has buf group item = do
  found ← find buf group item
  ok (elim found [ none ↦ false | some _ ↦ true ])
