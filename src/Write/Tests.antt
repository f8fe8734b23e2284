-- ===== src/Write/Tests.antt =====
-- The writer at concrete inputs.
use oxihipo.Prelude.{
  ℕ, ◌+◌, ◌*◌, ◌≤◌, ◌≡◌, inl, refl, sym, ap, arith, false, [], ◌∷◌, ◌++◌, Option, none, some,
  replicate, length, Bytes, Result, ok, err, panic, ok-injective, ok-ne-panic, ◌≢◌, ◌∙◌,
}
use oxihipo.Wire.Bytes.{copy_at, slice, le_value, le_bytes, be_bytes, swap_bytes, read_le, write_le}
use oxihipo.Wire.Fields.{read_word}
use oxihipo.Wire.Constants.Tags.{Codec, Layout, codec, for_pair, tag, from_tag, from_word}
use oxihipo.Wire.RecordHeader
use oxihipo.Wire.RecordHeader.{RecordHeader, from_words}
use oxihipo.Record.Codec.{Backends, Lossless, compress, compress_at, deflate}
use oxihipo.Record.Builder
use oxihipo.Record.Builder.{
  Compression, RecordBuilder, add_event, event_count, estimated_payload_size, event_slices,
  total_data, build_payload, write_index, block_header, block_bit_info,
  build_single_block_record_bytes, pair,
}
use oxihipo.Write.Writer.{
  read_exact_u32, Disk, Reliable, WriterOptions, Writer, WriteSummary, is_full, write_record,
  flush_record, append_raw, trailer_rows, trailer_event, build_trailer_record, write_trailer,
  finalize, finish,
}
use oxihipo.Write.Writer.Tracks.{Tracks}
use oxihipo.Write.Writer.Append.{Reaches, opened, appended, IsFresh, Reaches-Tracks}
use oxihipo.Write.Writer.Finish.{Finished, finish-Finished}
use oxihipo.Write.Writer.Total.{copy_at_total, IsCalm, calls-ne-panic}
use oxihipo.Write.Writer.Block.{block_format-ne-panic, block_format, block_format-Describes}

-- A file in memory, and codecs that store their input.
abbrev memory : Disk
memory = record { write_all = λ file bs. ok (file ++ bs); write_at = copy_at }

memory-Reliable : Reliable memory
memory-Reliable = record {
  write_all = λ file bs out e. sym (ok-injective e);
  write_at = λ file off bs out e. e;
}

abbrev identity : Backends
identity = record {
  lz4_decompress = λ src limit. some src;
  lz4_compress = λ hc src. some src;
  gzip_decode = λ src limit. some src;
  gzip_encode = λ src. some src;
  zstd_decode = λ src limit. some src;
  zstd_encode = λ level src. some src;
  capacity = λ src expected. 0;
}

abbrev some_length : Option Bytes → ℕ
some_length none = 0
some_length (some x) = length x

bounded : (src out : Bytes) → some src ≡ some out → length src ≤ length out * 1056 + 65536
bounded src out e = omega (arith, ap some_length e)

identity-Lossless : Lossless identity
identity-Lossless = record {
  lz4 = λ hc src out limit e h. sym e;
  gzip = λ src out limit e h. sym e;
  zstd = λ level src out limit e h. sym e;
  lz4_ratio = λ hc src out e. bounded src out e;
  gzip_ratio = λ src out e. bounded src out e;
}

abbrev plain : Compression
plain = record { codec = Codec.none; layout = Layout.per_chunk; zstd_level = 3; encodings = false }

-- One event in each record.
abbrev one_each : WriterOptions
one_each = record { compression = plain; max_record_events = 1; max_record_bytes = 1000 }

abbrev fresh_writer : Writer
fresh_writer = record {
  file = replicate 56 0;
  opts = one_each;
  builder = record { event_lengths = []; events = []; user_word_1 = 0; user_word_2 = 0 };
  index_entries = [];
  file_header_offset = 0;
  cursor = 56;
  finished = false;
}

fresh_writer-IsFresh : IsFresh fresh_writer
fresh_writer-IsFresh = record {
  holds = record { lengths = refl; bytes = refl };
  entries = refl;
  cursor = refl;
  fits = omega arith;
  at_start = refl;
  unfinished = refl;
}

abbrev with_event : Writer
with_event = record fresh_writer {
  builder = record {
    event_lengths = 2 ∷ [];
    events = 5 ∷ 6 ∷ [];
    user_word_1 = 0;
    user_word_2 = 0;
  };
}

first_append : append_raw memory (block_format identity) fresh_writer (5 ∷ 6 ∷ []) ≡ ok with_event
unfolding append_raw is_full event_count add_event
first_append = refl

with_event-Reaches :
    Reaches memory (block_format identity) fresh_writer with_event ((5 ∷ 6 ∷ []) ∷ [])
with_event-Reaches = appended (5 ∷ 6 ∷ []) opened (omega arith) first_append

with_event-Tracks : Tracks (block_format identity) (replicate 56 0) with_event ((5 ∷ 6 ∷ []) ∷ [])
with_event-Tracks = record {
  items = [];
  pending = (5 ∷ 6 ∷ []) ∷ [];
  all_events = refl;
  holds = record { lengths = refl; bytes = refl };
  laid = tt;
  entries = refl;
  file = refl;
  cursor = refl;
  limited = record { few = omega arith; small = inl (omega arith) };
  fits = omega arith;
  at_start = refl;
  unfinished = refl;
}

-- The writer in a result.
abbrev writer_of : Result Writer → Writer
writer_of (ok w) = w
writer_of (err e) = fresh_writer
writer_of panic = fresh_writer

abbrev two_records : Writer
two_records = writer_of (append_raw memory (block_format identity) with_event (7 ∷ []))

second_append : append_raw memory (block_format identity) with_event (7 ∷ []) ≡ ok two_records
unfolding append_raw is_full event_count flush_record event_slices slice
    build_single_block_record_bytes build_payload write_index write_le copy_at le_bytes compress
    compress_at deflate codec for_pair add_event block_bit_info block_header estimated_payload_size
    Builder.reset be_bytes le_value read_le swap_bytes from_tag from_word tag read_word from_words
    RecordHeader.parse RecordHeader.write write_record
second_append = refl

two_records-Reaches :
    Reaches memory (block_format identity) fresh_writer two_records ((5 ∷ 6 ∷ []) ∷ (7 ∷ []) ∷ [])
two_records-Reaches = appended (7 ∷ []) with_event-Reaches (omega arith) second_append

Reaches-Tracks_example :
    Tracks (block_format identity) (replicate 56 0) two_records ((5 ∷ 6 ∷ []) ∷ (7 ∷ []) ∷ [])
Reaches-Tracks_example =
    Reaches-Tracks memory memory-Reliable (block_format identity) (block_format-Describes identity)
      fresh_writer two_records ((5 ∷ 6 ∷ []) ∷ (7 ∷ []) ∷ []) fresh_writer-IsFresh
      two_records-Reaches

abbrev finished_with : Result (WriteSummary × Writer) → WriteSummary × Writer
finished_with (ok p) = p
finished_with (err e) = (record { events = 0; records = 0; bytes = 0 }, fresh_writer)
finished_with panic = (record { events = 0; records = 0; bytes = 0 }, fresh_writer)

abbrev closed_file : WriteSummary × Writer
closed_file = finished_with (finish memory (block_format identity) with_event)

with_event_closed :
    finish memory (block_format identity) with_event ≡ ok (closed_file.0, closed_file.1)
unfolding read_exact_u32 finish finalize write_trailer build_trailer_record trailer_event
    trailer_rows pair event_count flush_record event_slices slice build_single_block_record_bytes
    build_payload write_index write_le copy_at le_bytes compress compress_at deflate codec for_pair
    add_event block_bit_info block_header estimated_payload_size Builder.reset be_bytes le_value
    read_le swap_bytes from_tag from_word tag read_word from_words RecordHeader.parse
    RecordHeader.write write_record
with_event_closed = refl

finish-Finished_example :
    Finished
      (block_format identity)
      one_each
      (replicate 56 0)
      ((5 ∷ 6 ∷ []) ∷ [])
      closed_file.0
      closed_file.1.file
finish-Finished_example =
    finish-Finished memory memory-Reliable (block_format identity) (block_format-Describes identity)
      (replicate 56 0) with_event closed_file.1 ((5 ∷ 6 ∷ []) ∷ []) closed_file.0 (omega arith)
      with_event-Tracks with_event_closed

memory-IsCalm : IsCalm memory (block_format identity)
memory-IsCalm = record {
  write_all = λ file bs e. ok-ne-panic (file ++ bs) e;
  write_at = λ file off bs h e.
      let (out, copied, same) = copy_at_total file off bs h in ok-ne-panic out (sym copied ∙ e);
  build = λ evs u1 u2 c n few. block_format-ne-panic identity evs u1 u2 c n few;
}

calls-ne-panic_example :
    (append_raw memory (block_format identity) with_event (7 ∷ []) ≢ panic)
    × (flush_record memory (block_format identity) with_event ≢ panic)
    × (finish memory (block_format identity) with_event ≢ panic)
calls-ne-panic_example =
    calls-ne-panic memory memory-Reliable (block_format identity) (block_format-Describes identity)
      memory-IsCalm (replicate 56 0) with_event ((5 ∷ 6 ∷ []) ∷ []) (7 ∷ []) with_event-Tracks
      (omega arith) (omega arith)
