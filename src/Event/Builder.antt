-- ===== src/Event/Builder.antt =====
-- src/event/build.rs: `EventBuilder`, which composes an event from the bytes of its banks.
pub mod ReadBack
use oxihipo.Prelude.{
  ℕ, zero, suc, ◌+◌, ◌%◌, ◌^◌, Bool, List, [], ◌∷◌, ◌++◌, leb, if◌then◌else◌, length, bit_and,
  Bytes, Result, ok, panic, ◌>>=◌,
}
use oxihipo.Wire.Bytes.{le_value, le_bytes, slice}
use oxihipo.Wire.Constants.Words.{event_header_size, bank_structure_size, struct_size_mask}

pub record EventBuilder : Type 0 where
  pub structures : Bytes
  pub tag : ℕ

unfoldable pub new : EventBuilder
new = record { structures = []; tag = 0 }

unfoldable pub set_tag : ℕ → EventBuilder → EventBuilder
set_tag tag b = record b { tag = tag }

-- `with_tag` is `set_tag` on a builder passed by value.
unfoldable pub with_tag : ℕ → EventBuilder → EventBuilder
with_tag tag b = set_tag tag b

unfoldable pub add_bank_bytes : Bytes → EventBuilder → EventBuilder
add_bank_bytes bytes b = record b { structures = b.structures ++ bytes }

unfoldable pub reset : EventBuilder → EventBuilder
reset b = record b { structures = []; tag = 0 }

-- The loop of `structure_count`. Each round passes over eight bytes at least, so as many rounds as
-- bytes are enough; a round too few would show as `panic`.
unfoldable pub count_from : ℕ → Bytes → ℕ → Result ℕ
count_from zero bytes pos = panic
count_from (suc rounds) bytes pos =
    if leb (pos + bank_structure_size) (length bytes)
    then (do
      word ← slice bytes (pos + 4) (pos + 8)
      n ←
          count_from rounds bytes
            (pos + (bank_structure_size + bit_and (le_value word) struct_size_mask))
      ok (suc n))
    else ok 0

unfoldable pub structure_count : EventBuilder → Result ℕ
structure_count b = count_from (suc (length b.structures)) b.structures 0

unfoldable pub finished_size : EventBuilder → ℕ
finished_size b = event_header_size + length b.structures

-- b"EVNT"
abbrev pub evnt : Bytes
evnt = 0x45 ∷ 0x56 ∷ 0x4E ∷ 0x54 ∷ []

unfoldable pub finish_into : EventBuilder → Bytes → Bytes
finish_into b out =
    let total : ℕ = event_header_size + length b.structures in
    out ++ (evnt ++ (le_bytes 4 total ++ (le_bytes 4 b.tag ++ (le_bytes 4 0 ++ b.structures))))

unfoldable pub finish : EventBuilder → Bytes
finish b = finish_into b []
