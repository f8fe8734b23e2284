-- ===== src/Write/Writer.antt =====
-- src/write/writer.rs: the writer of a file, from the events that are appended to the trailer. The
-- scratch buffers and the pool of column buffers hold no state between calls. What a failed write
-- leaves in the file is not modelled.
pub mod Tracks
pub mod Steps
pub mod Append
pub mod Finish
pub mod Total
pub mod Block
pub mod Trailer
use oxihipo.Prelude.{
  ℕ, zero, suc, ◌+◌, ◌*◌, ◌%◌, ◌^◌, ◌≡◌, ◌<◌, ◌≤◌, Bool, true, false, not, ◌&&◌, ◌||◌, List, [],
  ◌∷◌, ◌++◌, ltb, leb, ◌==◌, if◌then◌else◌, length, take, Bytes, Result, ok, ◌>>=◌, ◌>>◌, refuse_if,
  corrupt_record, io, bit_or,
}
use oxihipo.Prelude.Bits.{◌<<<◌}
use oxihipo.Wire.Bytes.{slice, copy_at, le_bytes, read_u32_le, write_u32_le}
use oxihipo.Wire.Constants.Words.{
  record_header_size, rh_record_number, fh_trailer_pos, fh_bit_info, bitinfo_trailer_with_index_bit,
  event_header_size, file_index_group, file_index_item,
}
use oxihipo.Wire.Constants.Tags.{Codec, Layout}
use oxihipo.Wire.RecordHeader
use oxihipo.Wire.RecordHeader.{RecordHeader}
use oxihipo.Record.Builder
use oxihipo.Record.Builder.{
  Compression, RecordBuilder, pair, event_count, is_empty, add_event, estimated_payload_size,
  event_slices,
}

-- The file below the writer: what it holds after bytes were put at its end or over those at an
-- offset, or the error of the operating system.
pub record Disk : Type 0 where
  pub write_all : Bytes → Bytes → Result Bytes
  pub write_at : Bytes → ℕ → Bytes → Result Bytes

-- A write that succeeds has written its bytes, and nothing else.
pub record Reliable (d : Disk) : Type 0 where
  pub write_all : (file bs out : Bytes) → d.write_all file bs ≡ ok out → out ≡ file ++ bs
  pub write_at :
      (file : Bytes) (off : ℕ) (bs out : Bytes)
      → d.write_at file off bs ≡ ok out
      → copy_at file off bs ≡ ok out

-- `build_record_bytes`: the events, the user words, the compression and the record number. The
-- builder of one-block records is one such function.
pub record Format : Type 0 where
  pub build : List Bytes → ℕ → ℕ → Compression → ℕ → Result Bytes

-- What the writer relies on of a format: a record has its number in its place, and a header that
-- says what it was built from.
pub record Describes (f : Format) : Type 0 where
  pub numbered :
      (evs : List Bytes) (u1 u2 : ℕ) (c : Compression) (n : ℕ) (out : Bytes)
      → f.build evs u1 u2 c n ≡ ok out
      → write_u32_le out rh_record_number n ≡ ok out
  pub headed :
      (evs : List Bytes) (u1 u2 : ℕ) (c : Compression) (n : ℕ) (out : Bytes)
      → f.build evs u1 u2 c n ≡ ok out
      → length evs < 2 ^ 30
      → u1 < 2 ^ 64
      → u2 < 2 ^ 64
      → n < 2 ^ 32
      → length out < 2 ^ 30
      → (h : RecordHeader) × (RecordHeader.parse (take record_header_size out) ≡ ok h)
        × (h.event_count ≡ length evs)
        × (h.user_word_1 ≡ u1)
        × (h.user_word_2 ≡ u2)

pub record WriterOptions : Type 0 where
  pub compression : Compression
  pub max_record_events : ℕ
  pub max_record_bytes : ℕ

unfoldable pub default_options : WriterOptions
unfolding pair
default_options = record {
  compression = pair Codec.lz4 Layout.per_chunk;
  max_record_events = 1_000_000;
  max_record_bytes = 8 * 1024 * 1024;
}

abbrev pub is_hc : Codec → Bool
is_hc Codec.lz4_hc = true
is_hc _ = false

abbrev pub is_split : Layout → Bool
is_split Layout.per_chunk = false
is_split _ = true

-- The two constants are matched as a whole: the codec, the layout, the level and the encodings.
unfoldable pub default_max_record_bytes : Compression → ℕ
default_max_record_bytes c =
    if is_hc c.codec && is_split c.layout && (c.zstd_level == 3) && not c.encodings
    then 32 * 1024 * 1024
    else 8 * 1024 * 1024

pub record IndexEntry : Type 0 where
  pub position : ℕ
  pub record_length : ℕ
  pub event_count : ℕ
  pub user_word_1 : ℕ
  pub user_word_2 : ℕ

pub record Writer : Type 0 where
  pub file : Bytes
  pub opts : WriterOptions
  pub builder : RecordBuilder
  pub index_entries : List IndexEntry
  pub file_header_offset : ℕ
  pub cursor : ℕ
  pub finished : Bool

pub record WriteSummary : Type 0 where
  pub events : ℕ
  pub records : ℕ
  pub bytes : ℕ

unfoldable pub set_user_word_1 : Writer → ℕ → Writer
set_user_word_1 w v = record w { builder = Builder.set_user_word_1 w.builder v }

unfoldable pub set_user_word_2 : Writer → ℕ → Writer
set_user_word_2 w v = record w { builder = Builder.set_user_word_2 w.builder v }

-- The number of the next record, a `u32`.
abbrev pub next_number : Writer → ℕ
next_number w = (length w.index_entries % 2 ^ 32 + 1) % 2 ^ 32

-- The test of `append_raw` for a full record.
unfoldable pub is_full : Writer → Bytes → Bool
is_full w event_bytes =
    leb w.opts.max_record_events (event_count w.builder)
    || (ltb 0 (event_count w.builder)
        && ltb w.opts.max_record_bytes (estimated_payload_size w.builder + length event_bytes))

-- `IndexEntry` of a record that is about to be written.
abbrev pub entry_of : Writer → Bytes → RecordHeader → IndexEntry
entry_of w bytes header = record {
  position = w.cursor;
  record_length = length bytes;
  event_count = header.event_count;
  user_word_1 = header.user_word_1;
  user_word_2 = header.user_word_2;
}

-- The five columns of the trailer's bank: each loop fills the range of its column, row by row.
abbrev pub column : (IndexEntry → ℕ) → ℕ → List IndexEntry → Bytes
column value width [] = []
column value width (e ∷ es) = le_bytes width (value e) ++ column value width es

unfoldable pub trailer_rows : List IndexEntry → Bytes
trailer_rows es =
    column (λ e. e.position) 8 es
    ++ (column (λ e. e.record_length) 4 es
        ++ (column (λ e. e.event_count) 4 es
            ++ (column (λ e. e.user_word_1) 8 es ++ column (λ e. e.user_word_2) 8 es)))

-- The magic "EVNT", the size, eight zeros and the structure of the index bank.
unfoldable pub trailer_event : List IndexEntry → Bytes
trailer_event es =
    let rows : Bytes = trailer_rows es in
    69
    ∷ 86
    ∷ 78
    ∷ 84
    ∷ (le_bytes 4 ((event_header_size + (8 + length rows)) % 2 ^ 32)
        ++ (0
            ∷ 0
            ∷ 0
            ∷ 0
            ∷ 0
            ∷ 0
            ∷ 0
            ∷ 0
            ∷ (le_bytes 2 file_index_group
                ++ (file_index_item ∷ 11 ∷ (le_bytes 4 (length rows % 2 ^ 32) ++ rows)))))

-- `events: ….sum()`
abbrev pub total_events : List IndexEntry → ℕ
total_events [] = 0
total_events (e ∷ es) = e.event_count + total_events es

-- `read_exact` of four bytes at a position of the file, and the word that they are.
unfoldable pub read_exact_u32 : Bytes → ℕ → Result ℕ
read_exact_u32 file off = do refuse_if (ltb (length file) (off + 4)) io; read_u32_le file off

module _ (d : Disk) (f : Format) where
  unfoldable pub write_record : Writer → Bytes → Result Writer
  write_record w given = do
    refuse_if (ltb (length given) record_header_size)
        (corrupt_record w.cursor "prebuilt record shorter than the record header")
    bytes ← write_u32_le given rh_record_number (next_number w)
    hdr ← slice bytes 0 record_header_size
    header ← RecordHeader.parse hdr
    file ← d.write_all w.file bytes
    ok (record w {
      file = file;
      cursor = w.cursor + length bytes;
      index_entries = w.index_entries ++ (entry_of w bytes header ∷ []);
    })

  -- The builder is reset only once the record is written.
  unfoldable pub flush_record : Writer → Result Writer
  flush_record w = if is_empty w.builder then ok w else do
    events ← event_slices w.builder
    bytes ←
        f.build events w.builder.user_word_1 w.builder.user_word_2 w.opts.compression
          (next_number w)
    written ← write_record w bytes
    ok (record written { builder = Builder.reset written.builder })

  unfoldable pub append_raw : Writer → Bytes → Result Writer
  append_raw w event_bytes = do
    flushed ← (if is_full w event_bytes then flush_record w else ok w)
    ok (record flushed { builder = add_event flushed.builder event_bytes })

  unfoldable pub build_trailer_record : List IndexEntry → Result Bytes
  build_trailer_record entries =
      f.build (trailer_event entries ∷ []) 0 0 (pair Codec.none Layout.per_chunk) 0

  unfoldable pub write_trailer : Writer → Result Writer
  write_trailer w = do
    trailer ← build_trailer_record w.index_entries
    file ← d.write_all w.file trailer
    file ← d.write_at file (w.file_header_offset + fh_trailer_pos) (le_bytes 8 w.cursor)
    bits ← read_exact_u32 file (w.file_header_offset + fh_bit_info)
    file ←
        d.write_at file (w.file_header_offset + fh_bit_info)
          (le_bytes 4 (bit_or bits (1 <<< bitinfo_trailer_with_index_bit)))
    ok (record w { file = file; cursor = w.cursor + length trailer })

  unfoldable pub finalize : Writer → Result Writer
  finalize w = if w.finished then ok w else do
    flushed ← flush_record w
    closed ← write_trailer flushed
    ok (record closed { finished = true })

  -- The summary, and the writer that is consumed.
  unfoldable pub finish : Writer → Result (WriteSummary × Writer)
  finish w = do
    done ← finalize w
    ok (
      record {
        events = total_events done.index_entries;
        records = length done.index_entries;
        bytes = done.cursor;
      },
      done,
    )
