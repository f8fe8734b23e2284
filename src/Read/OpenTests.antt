-- ===== src/Read/OpenTests.antt =====
-- Opening the concrete file of `FileTests` behind a file header.
use oxihipo.Prelude.{ℕ, ◌+◌, ◌≡◌, refl, arith, [], ◌∷◌, ◌++◌, length, replicate, Bytes, Result, ok}
use oxihipo.Wire.Bytes.{
  copy_at, slice, le_value, le_bytes, be_bytes, swap_bytes, read_le, write_le, little,
}
use oxihipo.Wire.Fields.{read_word}
use oxihipo.Wire.Constants.Tags.{codec, for_pair, tag, from_tag, from_word}
use oxihipo.Wire.RecordHeader
use oxihipo.Wire.RecordHeader.{from_words}
use oxihipo.Wire.FileHeader
use oxihipo.Wire.FileHeader.{FileHeader}
use oxihipo.Wire.FileHeader.RoundTrip.{IsWellFormed}
use oxihipo.Wire.EventIndex
use oxihipo.Schema.Dict
use oxihipo.Schema.Dict.{Dict}
use oxihipo.Record.Codec.{compress, compress_at, deflate}
use oxihipo.Record.Builder.{
  build_payload, write_index, block_header, block_bit_info, build_single_block_record_bytes, pair,
}
use oxihipo.Write.Writer.{WriteSummary, trailer_rows, trailer_event}
use oxihipo.Write.Writer.Tracks.{bytes_of}
use oxihipo.Write.Writer.Finish.{Finished, Pieces, patched}
use oxihipo.Write.Writer.Block.{block_format}
use oxihipo.Read.Inner.{from_source}
use oxihipo.Read.Inner.Scan.{index_items}
use oxihipo.Read.Inner.Open.{closed_header, from_source-Finished}
use oxihipo.Read.FileTests.{
  identity, identity-Lossless, image, image-Serves, one_each, first_item-Written, second_placed,
  items, evs, trailer_bytes, trailer_made, items-AllSmall,
}

-- A file header without a user header: the dictionary is empty.
abbrev first_header : FileHeader
first_header = record {
  file_number = 1;
  header_length = 56;
  record_count = 0;
  index_array_length = 0;
  bit_info = 6;
  user_header_length = 0;
  user_register = 0;
  trailer_position = 0;
  user_int1 = 0;
  user_int2 = 0;
  endianness = little;
}

abbrev head_bytes : Bytes
head_bytes =
    0x48 ∷ 0x49 ∷ 0x50 ∷ 0x4F ∷ 1 ∷ 0 ∷ 0 ∷ 0 ∷ 14 ∷ 0 ∷ 0 ∷ 0 ∷ 0 ∷ 0 ∷ 0 ∷ 0 ∷ 0 ∷ 0 ∷ 0 ∷ 0 ∷ []

abbrev magic_bytes : Bytes
magic_bytes = 0 ∷ 0 ∷ 0 ∷ 0 ∷ 0 ∷ 1 ∷ 0xDA ∷ 0xC0 ∷ replicate 8 0

abbrev start : Bytes
start = head_bytes ++ ((6 ∷ 0 ∷ 0 ∷ 0 ∷ []) ++ (magic_bytes ++ replicate 16 0))

abbrev start_pieces : Pieces start
start_pieces = record {
  before = head_bytes;
  flags = 6 ∷ 0 ∷ 0 ∷ 0 ∷ [];
  between = magic_bytes;
  trailer_position = replicate 8 0;
  rest = replicate 8 0;
  parts = refl;
  length_before = refl;
  length_flags = refl;
  length_between = refl;
  length_position = refl;
}

start_written : FileHeader.write first_header (replicate 56 0) ≡ ok start
unfolding FileHeader.write write_le copy_at le_bytes
start_written = refl

first_header-IsWellFormed : IsWellFormed first_header
unfolding FileHeader.version
first_header-IsWellFormed = record {
  header_words = omega arith;
  header_length = omega arith;
  file_number = omega arith;
  record_count = omega arith;
  index_array_length = omega arith;
  bit_info = omega arith;
  user_header_length = omega arith;
  user_register = omega arith;
  trailer_position = omega arith;
  user_int1 = omega arith;
  user_int2 = omega arith;
  version_lower = omega arith;
  version_upper = omega arith;
}

abbrev opened_file : Bytes
opened_file = patched start_pieces (56 + length (bytes_of items)) (bytes_of items ++ trailer_bytes)

abbrev opened_summary : WriteSummary
opened_summary = record { events = 2; records = 2; bytes = length opened_file }

abbrev opened_fin : Finished (block_format identity) one_each start evs opened_summary opened_file
opened_fin = record {
  items = items;
  trailer = trailer_bytes;
  header = start_pieces;
  all_events = refl;
  laid = (first_item-Written, (second_placed, tt));
  trailer_built = trailer_made;
  content = refl;
  events = refl;
  records = refl;
  bytes = refl;
}

length-opened_file : length opened_file ≡ 332
unfolding build_single_block_record_bytes build_payload write_index write_le copy_at le_bytes
    compress compress_at deflate codec for_pair block_bit_info block_header be_bytes le_value
    read_le swap_bytes from_tag from_word tag read_word from_words RecordHeader.parse
    RecordHeader.write slice trailer_event trailer_rows pair
length-opened_file = refl

abbrev empty_dictionary : ℕ → Result Dict
empty_dictionary at = ok Dict.new

from_source-Finished_example :
    from_source (image opened_file) (length opened_file) identity empty_dictionary
    ≡ ok (
      closed_header first_header (56 + length (bytes_of items)),
      Dict.new,
      index_items EventIndex.new 56 items,
    )
from_source-Finished_example =
    from_source-Finished identity one_each (image opened_file) identity-Lossless refl
      empty_dictionary Dict.new first_header start [] start evs opened_summary opened_file
      opened_fin start_written refl first_header-IsWellFormed refl refl refl items-AllSmall
      (omega arith) (image-Serves opened_file) (omega (arith, length-opened_file))
