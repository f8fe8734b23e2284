-- ===== src/Record/Tests.antt =====
-- The results on records at concrete inputs.
use oxihipo.Prelude.{
  ℕ, ◌≤◌, ◌<◌, ◌≡◌, ◌≢◌, ◌⊎◌, refl, arith, false, List, [], ◌∷◌, ◌++◌, Option, none, some,
  get_elem?, replicate, length, Bytes, ok, panic,
}
use oxihipo.Wire.Bytes.{little, big, slice, le_value, read_le}
use oxihipo.Wire.Fields.{read_word}
use oxihipo.Wire.Constants.Tags.{
  Codec, Layout, CompressionType, codec, layout, is_by_bank, from_tag, from_word,
}
use oxihipo.Wire.RecordHeader
use oxihipo.Wire.RecordHeader.{RecordHeader, from_words}
use oxihipo.Record.Codec.{Backends, decompress, inflate, max_plausible_decompressed}
use oxihipo.Record.Endian.{normalize_be_payload}
use oxihipo.Record.Endian.Total.{Keeps, normalize_be_payload-Keeps}
use oxihipo.Record.Decode.{
  Record, load_with_dict, load_with_header, decode_payload, read_offsets, push_offsets,
  build_event_offsets, event, user_header,
}
use oxihipo.Record.Decode.Total.{load_with_dict-ne-panic}
use oxihipo.Record.Decode.Events.{load_with_dict-event}
use oxihipo.Record.Decode.{iter, size_hint}
use oxihipo.Record.Decode.Iterate.{drain, drain-iter}
use oxihipo.Record.Builder.{Compression}

-- Codecs that store their input.
abbrev stored : Backends
stored = record {
  lz4_decompress = λ src limit. some src;
  lz4_compress = λ hc src. some src;
  gzip_decode = λ src limit. some src;
  gzip_encode = λ src. some src;
  zstd_decode = λ src limit. some src;
  zstd_encode = λ level src. some src;
  capacity = λ src expected. 0;
}

abbrev stored_length : Option Bytes → ℕ
stored_length none = 0
stored_length (some x) = length x

abbrev two_events : List Bytes
two_events = (1 ∷ 2 ∷ 3 ∷ []) ∷ (4 ∷ []) ∷ []

abbrev two_payload : Bytes
two_payload = 3 ∷ 0 ∷ 0 ∷ 0 ∷ 1 ∷ 0 ∷ 0 ∷ 0 ∷ 1 ∷ 2 ∷ 3 ∷ 4 ∷ []

abbrev lz4_block : Compression
lz4_block = record {
  codec = Codec.lz4;
  layout = Layout.per_chunk;
  zstd_level = 3;
  encodings = false;
}

-- A record of those events, uncompressed.
abbrev two_record : Bytes
two_record =
    17
    ∷ 0
    ∷ 0
    ∷ 0
    ∷ 1
    ∷ 0
    ∷ 0
    ∷ 0
    ∷ 14
    ∷ 0
    ∷ 0
    ∷ 0
    ∷ 2
    ∷ 0
    ∷ 0
    ∷ 0
    ∷ 8
    ∷ 0
    ∷ 0
    ∷ 0
    ∷ 6
    ∷ 0
    ∷ 0
    ∷ 64
    ∷ 0
    ∷ 0
    ∷ 0
    ∷ 0
    ∷ 0
    ∷ 1
    ∷ 218
    ∷ 192
    ∷ 4
    ∷ 0
    ∷ 0
    ∷ 0
    ∷ 3
    ∷ 0
    ∷ 0
    ∷ 0
    ∷ (replicate 16 0 ++ two_payload)

abbrev two_header : RecordHeader
two_header = record {
  record_length = 68;
  record_number = 1;
  header_length = 56;
  event_count = 2;
  index_array_length = 8;
  bit_info = 0x4000_0006;
  user_header_length = 0;
  data_length = 4;
  compressed_data_length = 12;
  compression = CompressionType.none;
  user_word_1 = 0;
  user_word_2 = 0;
  endianness = little;
  user_header_padding = 0;
  data_padding = 0;
  compressed_data_padding = 0;
}

two_record_parsed : RecordHeader.parse two_record ≡ ok two_header
unfolding RecordHeader.parse read_word read_le slice le_value from_words from_word from_tag
two_record_parsed = refl

abbrev decoded_record : Record
decoded_record = record {
  header = two_header;
  payload = two_payload;
  event_offsets = 0 ∷ 3 ∷ 4 ∷ [];
}

two_record_loaded : load_with_dict stored two_record none ≡ ok decoded_record
unfolding load_with_dict load_with_header is_by_bank layout decode_payload slice decompress
    max_plausible_decompressed codec inflate build_event_offsets read_offsets push_offsets read_le
    le_value
two_record_loaded = rw two_record_parsed refl

load_with_dict-event_example :
    ((i : ℕ)
      → ((i < 2) × ((ev : Bytes) × (event decoded_record i ≡ ok (some ev))))
        ⊎ ((2 ≤ i) × (event decoded_record i ≡ ok none)))
    × ((bytes : Bytes) × (user_header decoded_record ≡ ok bytes))
load_with_dict-event_example =
    load_with_dict-event stored two_record none decoded_record two_record_loaded

load_with_dict-ne-panic_example : load_with_dict stored (255 ∷ 255 ∷ []) none ≢ panic
load_with_dict-ne-panic_example =
    load_with_dict-ne-panic stored (255 ∷ 255 ∷ []) none (omega arith, (omega arith, tt)) tt

normalize_be_payload-Keeps_example :
    Keeps 12 (normalize_be_payload two_payload (record two_header { endianness = big }) none)
normalize_be_payload-Keeps_example =
    normalize_be_payload-Keeps two_payload (record two_header { endianness = big }) none tt

drain-iter_example :
    (evs : List Bytes) × (drain 3 (iter decoded_record) ≡ ok evs)
    × (length evs ≡ size_hint (iter decoded_record))
    × ((j : ℕ) → event decoded_record j ≡ ok (get_elem? evs j))
drain-iter_example = drain-iter stored two_record none decoded_record two_record_loaded

-- A codec that makes the shortest streams.
abbrev shortest : Backends
shortest = record stored { zstd_encode = λ level src. some [] }
