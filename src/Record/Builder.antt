-- ===== src/Record/Builder.antt =====
-- src/write/record.rs: the choice of a compression, the builder that gathers the events of a record,
-- and the record that keeps its payload as one block. The records that are split by bank or by
-- column are not modelled.
pub mod Slices
pub mod Build
pub mod Events
pub mod RoundTrip
use oxihipo.Prelude.{
  ℕ, zero, suc, ◌+◌, ◌-◌, ◌*◌, ◌%◌, ◌^◌, Bool, true, false, List, [], ◌∷◌, ◌++◌, Option, ltb, ◌==◌,
  if◌then◌else◌, length, take, replicate, Bytes, Result, ok, ◌>>=◌, bit_and, bit_or,
}
use oxihipo.Prelude.Bits.{◌<<<◌}
use oxihipo.Wire.Bytes.{Endianness, little, slice, write_u32_le}
use oxihipo.Wire.Constants.Words.{
  record_header_size, hipo_version, bitinfo_pad_mask, bitinfo_pad3_shift, bitinfo_header_type_shift,
}
use oxihipo.Wire.Constants.Tags.{Codec, Layout, CompressionType, for_pair}
use oxihipo.Wire.RecordHeader
use oxihipo.Wire.RecordHeader.{RecordHeader}
use oxihipo.Record.Codec.{Backends, compress}
use oxihipo.Event.BankBuilder.{concat}

pub record Compression : Type 0 where
  pub codec : Codec
  pub layout : Layout
  pub zstd_level : ℕ
  pub encodings : Bool

unfoldable pub pair : Codec → Layout → Compression
pair codec layout = record { codec = codec; layout = layout; zstd_level = 3; encodings = false }

unfoldable pub new_compression : Codec → Layout → Compression
unfolding pair
new_compression codec layout = pair codec layout

unfoldable pub with_zstd_level : Compression → ℕ → Compression
with_zstd_level c level = record c {
  zstd_level = (if ltb level 1 then 1 else if ltb 6 level then 6 else level);
}

unfoldable pub with_encodings : Compression → Compression
with_encodings c = record c { encodings = true }

abbrev pub wire_tag : Compression → CompressionType
wire_tag c = for_pair c.codec c.layout

pub record RecordBuilder : Type 0 where
  pub event_lengths : List ℕ
  pub events : Bytes
  pub user_word_1 : ℕ
  pub user_word_2 : ℕ

unfoldable pub new : RecordBuilder
new = record { event_lengths = []; events = []; user_word_1 = 0; user_word_2 = 0 }

unfoldable pub event_count : RecordBuilder → ℕ
event_count rb = length rb.event_lengths % 2 ^ 32

abbrev pub is_empty : RecordBuilder → Bool
is_empty rb = length rb.event_lengths == 0

unfoldable pub set_user_word_1 : RecordBuilder → ℕ → RecordBuilder
set_user_word_1 rb v = record rb { user_word_1 = v }

unfoldable pub set_user_word_2 : RecordBuilder → ℕ → RecordBuilder
set_user_word_2 rb v = record rb { user_word_2 = v }

-- The builder after the call; the code also returns the new `event_count`.
unfoldable pub add_event : RecordBuilder → Bytes → RecordBuilder
add_event rb event_bytes = record rb {
  event_lengths = rb.event_lengths ++ (length event_bytes % 2 ^ 32 ∷ []);
  events = rb.events ++ event_bytes;
}

-- The user words stay.
unfoldable pub reset : RecordBuilder → RecordBuilder
reset rb = record rb { event_lengths = []; events = [] }

unfoldable pub estimated_payload_size : RecordBuilder → ℕ
estimated_payload_size rb = length rb.event_lengths * 4 + length rb.events

abbrev pub slices_from : List ℕ → ℕ → Bytes → Result (List Bytes)
slices_from [] off buf = ok []
slices_from (len ∷ lens) off buf = do
  ev ← slice buf off (off + len)
  evs ← slices_from lens (off + len) buf
  ok (ev ∷ evs)

-- The items of the iterator, all taken.
unfoldable pub event_slices : RecordBuilder → Result (List Bytes)
event_slices rb = slices_from rb.event_lengths 0 rb.events

-- `for (i, ev) in events.iter().enumerate() { write_u32_le(payload_buf, i * 4, ev.len() as u32); }`
unfoldable pub write_index : List Bytes → ℕ → Bytes → Result Bytes
write_index [] i buf = ok buf
write_index (ev ∷ evs) i buf = do
  buf ← write_u32_le buf (i * 4) (length ev % 2 ^ 32)
  write_index evs (suc i) buf

-- `events.iter().map(|e| e.len()).sum()`
abbrev pub total_data : List Bytes → ℕ
total_data [] = 0
total_data (ev ∷ evs) = length ev + total_data evs

-- `index || data`: the index array is as long as the wrapped product says.
unfoldable pub build_payload : List Bytes → Result Bytes
build_payload events = do
  index ← write_index events 0 (replicate (length events % 2 ^ 32 * 4 % 2 ^ 32) 0)
  ok (index ++ concat events)

unfoldable pub block_bit_info : ℕ → ℕ
block_bit_info pad =
    bit_or (bit_or hipo_version (bit_and pad bitinfo_pad_mask <<< bitinfo_pad3_shift))
      (4 <<< bitinfo_header_type_shift)

unfoldable pub block_header : List Bytes → ℕ → ℕ → Compression → ℕ → ℕ → ℕ → RecordHeader
unfolding block_bit_info
block_header events user_word_1 user_word_2 compression record_number pad compressed_with_pad =
    record {
      record_length = record_header_size + compressed_with_pad;
      record_number = record_number;
      header_length = record_header_size;
      event_count = length events % 2 ^ 32;
      index_array_length = length events % 2 ^ 32 * 4 % 2 ^ 32;
      bit_info = block_bit_info pad;
      user_header_length = 0;
      data_length = total_data events % 2 ^ 32;
      compressed_data_length = compressed_with_pad % 2 ^ 32;
      compression = wire_tag compression;
      user_word_1 = user_word_1;
      user_word_2 = user_word_2;
      endianness = little;
      user_header_padding = 0;
      data_padding = 0;
      compressed_data_padding = pad;
    }

-- `pad`, for a stream of `compressed_len` bytes
abbrev pub block_pad : ℕ → ℕ
block_pad compressed_len = (4 - compressed_len % 4) % 4

module _ (b : Backends) where
  -- The scratch buffers are cleared before they are filled.
  unfoldable pub build_single_block_record_bytes :
      List Bytes → ℕ → ℕ → Compression → ℕ → Result Bytes
  build_single_block_record_bytes events user_word_1 user_word_2 compression record_number = do
    payload ← build_payload events
    stream ← compress b (wire_tag compression) payload
    let pad = block_pad (length stream)
    let padded = stream ++ replicate pad 0
    hdr ←
        RecordHeader.write
          (block_header events user_word_1 user_word_2 compression record_number pad
            (length padded))
          (replicate record_header_size 0)
    ok (hdr ++ padded)
