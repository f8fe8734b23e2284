-- ===== src/Record/Decode.antt =====
-- src/wire/record.rs: a record's bytes decoded into its payload and the offsets of its events. What
-- a failed load leaves behind in the buffers is not modelled.
pub mod Offsets
pub mod Total
pub mod Events
pub mod Iterate
use mathlib.Core.Option
use oxihipo.Prelude.{
  ◌||◌, ℕ, zero, suc, ◌+◌, ◌-◌, ◌*◌, ◌^◌, min, Bool, List, [], ◌∷◌, Option, none, some, ltb, leb,
  if◌then◌else◌, length, take, drop, Bytes, Result, ok, panic, ◌>>=◌, ◌>>◌, refuse_if, map_ok,
  corrupt_record, file_too_small,
}
use oxihipo.Wire.Bytes.{Endianness, little, big, read_u32_le, slice}
use oxihipo.Wire.Constants.Tags.{CompressionType, is_by_bank}
use oxihipo.Wire.RecordHeader
use oxihipo.Wire.RecordHeader.{RecordHeader, payload_bytes, total_bytes, decompressed_payload_size}
use oxihipo.Schema.Dict.{Dict}
use oxihipo.Record.Codec.{Backends, decompress}
use oxihipo.Record.Endian.{normalize_be_payload}

pub record DecodedRecord : Type 0 where
  pub header : RecordHeader
  pub data_start : ℕ

pub record Record : Type 0 where
  pub header : RecordHeader
  pub payload : Bytes
  pub event_offsets : List ℕ

unfoldable pub new : Record
new = record {
  header = record {
    record_length = 0;
    record_number = 0;
    header_length = 0;
    event_count = 0;
    index_array_length = 0;
    bit_info = 0;
    user_header_length = 0;
    data_length = 0;
    compressed_data_length = 0;
    compression = CompressionType.none;
    user_word_1 = 0;
    user_word_2 = 0;
    endianness = little;
    user_header_padding = 0;
    data_padding = 0;
    compressed_data_padding = 0;
  };
  payload = [];
  event_offsets = [];
}

abbrev pub data_section_offset : RecordHeader → ℕ
data_section_offset h = h.index_array_length + h.user_header_length + h.user_header_padding

-- The payload on disk without the padding of a compressed stream.
abbrev pub compressed_input : CompressionType → ℕ → Bytes → Bytes
compressed_input CompressionType.none pad disk = disk
compressed_input _ pad disk = take (length disk - pad) disk

-- The loop over the index array: the last sum and the offsets after the first.
unfoldable pub push_offsets : ℕ → ℕ → ℕ → Bytes → Result (ℕ × List ℕ)
push_offsets zero i acc payload = ok (acc, [])
push_offsets (suc n) i acc payload = do
  size ← read_u32_le payload (i * 4)
  rest ← push_offsets n (suc i) (min (acc + size) (2 ^ 32 - 1)) payload
  ok (rest.0, min (acc + size) (2 ^ 32 - 1) ∷ rest.1)

abbrev pub in_native_order : Endianness → Bytes → RecordHeader → Option Dict → Result Bytes
in_native_order little payload header dict = ok payload
in_native_order big payload header dict = normalize_be_payload payload header dict

-- The guard on the index array and the offsets, the last sum first.
unfoldable pub read_offsets : Bytes → ℕ → Result (ℕ × List ℕ)
read_offsets payload n = do
  refuse_if (ltb (length payload) (n * 4))
      (corrupt_record 0 "index array shorter than event_count*4")
  sums ← push_offsets n 0 0 payload
  ok (sums.0, 0 ∷ sums.1)

-- The sum of the section's start and the last offset does not overflow a 64-bit `usize`.
unfoldable pub build_event_offsets : Bytes → RecordHeader → Result (List ℕ)
build_event_offsets payload header = do
  sums ← read_offsets payload header.event_count
  refuse_if (ltb (length payload) (data_section_offset header + sums.0))
      (corrupt_record 0 "event offsets extend past record payload")
  ok sums.1

module _ (b : Backends) where
  -- From the bytes on disk to the payload in native byte order, once the header is read.
  unfoldable pub decode_payload : Bytes → RecordHeader → Option Dict → Result Bytes
  decode_payload src header dict = do
    refuse_if (ltb (length src) (total_bytes header))
        (file_too_small (length src) (total_bytes header))
    disk ← slice src header.header_length (header.header_length + payload_bytes header)
    payload ←
        decompress b header.compression
          (compressed_input header.compression header.compressed_data_padding disk)
          (decompressed_payload_size header)
    in_native_order header.endianness payload header dict

  -- The result, the payload and the offsets that the caller's buffers are filled with.
  unfoldable pub decode_record_into : Bytes → Option Dict → Result (DecodedRecord × Bytes × List ℕ)
  decode_record_into src dict = do
    header ← RecordHeader.parse src
    payload ← decode_payload src header dict
    sums ← read_offsets payload header.event_count
    refuse_if
        (ltb (2 ^ 32 - 1) (data_section_offset header)
          || ltb (length payload) (data_section_offset header + sums.0))
        (corrupt_record 0 "event offsets extend past record payload")
    ok (record { header = header; data_start = data_section_offset header }, payload, sums.1)

  unfoldable pub load_with_header : Bytes → RecordHeader → Option Dict → Result Record
  load_with_header src header dict = do
    refuse_if (is_by_bank header.compression)
        (corrupt_record 0 "Record::load on by-bank record; use ByBankRecord::parse")
    payload ← decode_payload src header dict
    offsets ← build_event_offsets payload header
    ok (record { header = header; payload = payload; event_offsets = offsets })

  unfoldable pub load_with_dict : Bytes → Option Dict → Result Record
  load_with_dict src dict = do header ← RecordHeader.parse src; load_with_header src header dict

  unfoldable pub load : Bytes → Result Record
  load src = do header ← RecordHeader.parse src; load_with_header src header none

-- `self.event_offsets[i]`
abbrev pub offset_at : List ℕ → ℕ → Result ℕ
offset_at [] i = panic
offset_at (o ∷ os) zero = ok o
offset_at (o ∷ os) (suc i) = offset_at os i

unfoldable pub event : Record → ℕ → Result (Option Bytes)
event r i = if leb (length r.event_offsets) (i + 1) then ok none else do
  lo ← offset_at r.event_offsets i
  hi ← offset_at r.event_offsets (i + 1)
  map_ok some
      (slice r.payload (data_section_offset r.header + lo) (data_section_offset r.header + hi))

unfoldable pub user_header : Record → Result Bytes
user_header r =
    slice r.payload r.header.index_array_length
      (r.header.index_array_length + r.header.user_header_length)

pub record RecordIter : Type 0 where
  pub record_of : Record
  pub next_index : ℕ

abbrev pub iter : Record → RecordIter
iter r = record { record_of = r; next_index = 0 }

-- The item, where there is one, and the iterator after it.
unfoldable pub next : RecordIter → Result (Option (Bytes × RecordIter))
next it = do
  found ← event it.record_of it.next_index
  ok (Option.map (λ ev. (ev, record it { next_index = it.next_index + 1 })) found)

abbrev pub size_hint : RecordIter → ℕ
size_hint it = it.record_of.header.event_count - it.next_index
