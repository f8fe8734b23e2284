-- ===== src/Wire/Tests.antt =====
-- The headers and the event index at concrete inputs.
mod Order
use mathlib.Core.Option
use oxihipo.Prelude.{
  ℕ, ◌+◌, ◌-◌, ◌*◌, ◌^◌, ◌≤◌, ◌<◌, ◌≡◌, ◌≢◌, ◌↔◌, bit_and, refl, arith, Bool, List, [], ◌∷◌, Option,
  some, none, replicate, All, length, Bytes, Result, ok, ◌>>=◌, map_ok, true, ltb, ◌&&◌,
}
use oxihipo.Wire.Bytes.{Endianness, little, big, IsByte, read_le, slice, le_value}
use oxihipo.Wire.Fields.{read_word}
use oxihipo.Wire.Constants.Tags.{
  Codec, Layout, CompressionType, from_tag, tag, from_word, for_pair, codec, layout,
}
use oxihipo.Wire.Constants.Tags.RoundTrip.{from_tag-for_pair, from_tag_iff, from_word_fields}
use oxihipo.Wire.RecordHeader
use oxihipo.Wire.RecordHeader.{RecordHeader}
use oxihipo.Wire.RecordHeader.Fields.{HeaderWords}
use oxihipo.Wire.RecordHeader.Fields
use oxihipo.Wire.RecordHeader.RoundTrip
use oxihipo.Wire.RecordHeader.RoundTrip.{parse-write_record, parse_big_endian_record}
use oxihipo.Wire.RecordHeader.Total.{IsParsed, parse-ne-panic_record, parse-IsParsed_record}
use oxihipo.Wire.FileHeader
use oxihipo.Wire.FileHeader.{FileHeader}
use oxihipo.Wire.FileHeader.RoundTrip.{parse-write_file}
use oxihipo.Wire.FileHeader.Total.{parse-ne-panic_file}
use oxihipo.Wire.EventIndex.{FileEventIndex, RecordSpan, push, pop_last, new, locate, from_columns}
use oxihipo.Wire.EventIndex.Invariant.{
  IsValid, push-IsValid, pop_last-push, pop_last-IsValid, from_columns-IsValid, sum,
}
use oxihipo.Wire.EventIndex.Locate.{Holds, locate_found, locate_none, locate_at}

abbrev zeros : Bytes
zeros = replicate 56 0

abbrev sample_record : RecordHeader
sample_record = record {
  record_length = 400;
  record_number = 3;
  header_length = 56;
  event_count = 2;
  index_array_length = 8;
  bit_info = 0x0010_0006;
  user_header_length = 0;
  data_length = 300;
  compressed_data_length = 120;
  compression = CompressionType.lz4;
  user_word_1 = 7;
  user_word_2 = 9;
  endianness = little;
  user_header_padding = 1;
  data_padding = 0;
  compressed_data_padding = 0;
}

parse-write_record_example :
    (RecordHeader.write sample_record zeros >>= RecordHeader.parse) ≡ ok sample_record
parse-write_record_example =
    parse-write_record sample_record zeros
      (record {
        record_words = omega arith;
        record_fits = omega arith;
        header_words = omega arith;
        header_fits = omega arith;
        header_in_record = omega arith;
        compressed_words = omega arith;
        compressed_fits = omega arith;
        record_number = omega arith;
        event_count = omega arith;
        index_array_length = omega arith;
        bit_info = omega arith;
        user_header_length = omega arith;
        data_length = omega arith;
        user_word_1 = omega arith;
        user_word_2 = omega arith;
        user_header_padding = refl;
        data_padding = refl;
        compressed_data_padding = refl;
      })
      refl refl

abbrev sample_words : HeaderWords
sample_words = record {
  record_length = 100;
  record_number = 3;
  header_length = 14;
  event_count = 2;
  index_array_length = 8;
  bit_info = 6;
  user_header_length = 0;
  data_length = 300;
  comp_word = 0x1000_001E;
  user_word_1 = 7;
  user_word_2 = 9;
}

abbrev sample_file : FileHeader
sample_file = record {
  file_number = 1;
  header_length = 56;
  record_count = 2;
  index_array_length = 0;
  bit_info = 0x206;
  user_header_length = 0;
  user_register = 5;
  trailer_position = 4096;
  user_int1 = 1;
  user_int2 = 2;
  endianness = little;
}

parse-write_file_example :
    (FileHeader.write sample_file zeros >>= FileHeader.parse) ≡ ok sample_file
unfolding FileHeader.version
parse-write_file_example =
    parse-write_file sample_file zeros
      (record {
        header_words = omega arith;
        header_length = omega arith;
        file_number = omega arith;
        record_count = omega arith;
        index_array_length = omega arith;
        bit_info = omega arith;
        user_header_length = omega arith;
        user_register = omega arith;
        trailer_position = omega arith;
        user_int1 = omega arith;
        user_int2 = omega arith;
        version_lower = omega arith;
        version_upper = omega arith;
      })
      refl refl

-- Three records, the one in the middle without events.
abbrev sample_index : FileEventIndex
sample_index = push (push (push new 56 400 2) 456 100 0) 556 800 3

sample_index-IsValid : IsValid sample_index
unfolding push
sample_index-IsValid = record {
  covers = (refl, omega arith, (refl, omega arith, (refl, omega arith, refl)));
  fits = omega arith;
}

locate_none_example : locate sample_index 5 ≡ ok none
unfolding push
locate_none_example = locate_none sample_index 5 (omega arith)

locate_at_example : locate sample_index 3 ≡ ok (some (2, 1))
unfolding push
locate_at_example =
    locate_at sample_index 2 1
      (record { file_offset = 556; record_length = 800; event_count = 3; first_event = 2 })
      sample_index-IsValid refl (omega arith)

abbrev sample_bytes : Bytes
sample_bytes =
    100 ∷ 0 ∷ 0 ∷ 0 ∷ 3 ∷ 0 ∷ 0 ∷ 0 ∷ 14 ∷ 0 ∷ 0 ∷ 0 ∷ 2 ∷ 0 ∷ 0 ∷ 0 ∷ 8 ∷ 0 ∷ 0 ∷ 0 ∷ 6 ∷ 0 ∷ 16
    ∷ 0 ∷ 0 ∷ 0 ∷ 0 ∷ 0 ∷ 0 ∷ 1 ∷ 0xda ∷ 0xc0 ∷ 44 ∷ 1 ∷ 0 ∷ 0 ∷ 30 ∷ 0 ∷ 0 ∷ 16 ∷ 7 ∷ 0 ∷ 0 ∷ 0 ∷ 0
    ∷ 0 ∷ 0 ∷ 0 ∷ 9 ∷ 0 ∷ 0 ∷ 0 ∷ 0 ∷ 0 ∷ 0 ∷ 0 ∷ []

abbrev below_256 : Bytes → Bool
below_256 [] = true
below_256 (b ∷ bs) = ltb b 256 && below_256 bs

All-below_256 : (bs : Bytes) → below_256 bs ≡ true → All IsByte bs
All-below_256 [] h = tt
All-below_256 (b ∷ bs) h = ground (arith, All-below_256 bs)

parse-IsParsed_record_example : IsParsed sample_record × (56 ≤ length sample_bytes)
unfolding RecordHeader.parse RecordHeader.from_words read_word read_le slice le_value from_word
    from_tag
parse-IsParsed_record_example =
    parse-IsParsed_record sample_bytes sample_record (All-below_256 sample_bytes refl) refl
