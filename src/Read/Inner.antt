-- ===== src/Read/Inner.antt =====
-- src/read/inner.rs: the index of a file's records, from the trailer or by a walk over the records,
-- and the reads of whole records. Offsets are `u64`s, whose sums wrap in a release build.
pub mod Framed
pub mod Sound
pub mod Scan
pub mod Ends
pub mod Cut
pub mod Total
pub mod Rows
pub mod Finished
pub mod Whole
pub mod Salvage
pub mod Open
pub mod Lookup
use mathlib.Core.Option
use oxihipo.Prelude.{
  ℕ, zero, suc, ◌+◌, ◌*◌, ◌/◌, ◌%◌, ◌^◌, Bool, true, false, not, ◌&&◌, ◌||◌, List, [], ◌∷◌, Option,
  none, some, ltb, leb, ◌==◌, if◌then◌else◌, length, Bytes, HipoError, ◌≡◌, ◌≢◌, ◌++◌, Result, ok,
  err, panic, ◌>>=◌, ◌>>◌, ◌≡◌, ◌≢◌, ◌++◌, All, refuse_if, corrupt_record, file_too_small,
}
use oxihipo.Wire.Bytes.{IsByte, read_le}
use oxihipo.Wire.Constants.Words.{
  file_header_size, record_header_size, file_index_group, file_index_item,
}
use oxihipo.Wire.RecordHeader
use oxihipo.Wire.RecordHeader.{RecordHeader, total_bytes}
use oxihipo.Wire.FileHeader
use oxihipo.Wire.FileHeader.{FileHeader}
use oxihipo.Wire.EventIndex
use oxihipo.Wire.EventIndex.{RecordSpan, pop, pop_last, FileEventIndex, push}
use oxihipo.Record.Codec.{Backends}
use oxihipo.Record.Decode.{load, event}
use oxihipo.Event.Structures.{find, has}

-- A source of bytes: the buffer that is filled from an offset on, of a given length.
pub record ReadAt : Type 0 where
  pub read_exact_at : ℕ → ℕ → Result Bytes

-- A source that serves the bytes of a file.
pub record Serves (src : ReadAt) (content : Bytes) : Type 0 where
  pub inside :
      (pre bytes post : Bytes) (offset n : ℕ)
      → content ≡ pre ++ (bytes ++ post)
      → offset ≡ length pre
      → n ≡ length bytes
      → src.read_exact_at offset n ≡ ok bytes

-- A source that answers with bytes or with an error.
pub record IsSource (src : ReadAt) : Type 0 where
  pub returns : (offset n : ℕ) → src.read_exact_at offset n ≢ panic
  pub bytes : (offset n : ℕ) (buf : Bytes) → src.read_exact_at offset n ≡ ok buf → All IsByte buf

-- `.ok()` of a result
abbrev pub ok_of {ℓ} : {A : Type ℓ} → Result A → Result (Option A)
ok_of (ok a) = ok (some a)
ok_of (err e) = ok none
ok_of panic = panic

-- A row of the index bank, as bit patterns: the position, the length and the entries.
unfoldable pub trailer_row : Bytes → ℕ → ℕ → Result (ℕ × ℕ × ℕ)
trailer_row bank_data rows r = do
  pos ← read_le 8 bank_data (r * 8)
  len ← read_le 4 bank_data (rows * 8 + r * 4)
  ent ← read_le 4 bank_data (rows * 12 + r * 4)
  ok (pos, len, ent)

module _ (file_len : ℕ) where
  -- What the loop over the rows does with one: a row is negative from its top bit on.
  unfoldable pub take_row : ℕ → ℕ → FileEventIndex → ℕ × ℕ × ℕ → Result FileEventIndex
  take_row trailer_pos first_data_record_offset idx (pos, len, ent) = do
    refuse_if (leb (2 ^ 63) pos || leb (2 ^ 31) len || leb (2 ^ 31) ent)
        (corrupt_record trailer_pos "trailer index row has a negative field")
    if ltb pos first_data_record_offset || (pos == trailer_pos) then ok idx else do
      refuse_if (ltb file_len pos || leb (2 ^ 64) (pos + len) || ltb file_len (pos + len))
          (corrupt_record trailer_pos "trailer index row position/length out of file bounds")
      ok (push idx pos len ent)

  unfoldable pub take_rows : ℕ → ℕ → Bytes → ℕ → ℕ → ℕ → FileEventIndex → Result FileEventIndex
  take_rows trailer_pos first_data_record_offset bank_data rows zero r idx = ok idx
  take_rows trailer_pos first_data_record_offset bank_data rows (suc left) r idx = do
    row ← trailer_row bank_data rows r
    idx' ← take_row trailer_pos first_data_record_offset idx row
    take_rows trailer_pos first_data_record_offset bank_data rows left (suc r) idx'

  -- The rows of the `file::index` bank.
  unfoldable pub read_trailer_bank : ℕ → ℕ → Bytes → Result FileEventIndex
  read_trailer_bank trailer_pos first_data_record_offset bank_data = do
    refuse_if (not (length bank_data % 32 == 0))
        (corrupt_record trailer_pos "trailer bank size is not a multiple of 32")
    let rows = length bank_data / 32 % 2 ^ 32
    take_rows trailer_pos first_data_record_offset bank_data rows rows 0 EventIndex.new

module _ (src : ReadAt) (file_len : ℕ) where
  -- `offset + RECORD_HEADER_SIZE as u64 > file_len`
  unfoldable pub is_past : ℕ → Bool
  is_past offset = ltb file_len ((offset + record_header_size) % 2 ^ 64)

  unfoldable pub read_record_header : ℕ → Result RecordHeader
  read_record_header offset = do
    refuse_if (is_past offset) (corrupt_record offset "record header past EOF")
    hdr ← src.read_exact_at offset record_header_size
    RecordHeader.parse hdr

  -- The header, and what the buffer is filled with.
  unfoldable pub read_record_into : ℕ → Result (RecordHeader × Bytes)
  read_record_into offset = do
    refuse_if (is_past offset) (corrupt_record offset "record header past EOF")
    hdr ← src.read_exact_at offset record_header_size
    header ← RecordHeader.parse hdr
    let end = offset + total_bytes header
    refuse_if (leb (2 ^ 64) end || ltb file_len end)
        (corrupt_record offset "record extends past EOF")
    buf ← src.read_exact_at offset (total_bytes header)
    ok (header, buf)

  -- The condition on the header at an offset, where one parses.
  unfoldable pub fits_at : ℕ → Option RecordHeader → Bool
  fits_at off none = false
  fits_at off (some h) =
      leb record_header_size (total_bytes h) && leb ((off + total_bytes h) % 2 ^ 64) file_len

  -- The test of `find_first_record` at an offset, `none` where its loop ends.
  unfoldable pub is_record : ℕ → Result (Option Bool)
  is_record off = if is_past off then ok none else do
    parsed ← ok_of (src.read_exact_at off record_header_size >>= RecordHeader.parse)
    ok (some (fits_at off parsed))

  -- A round too few would show as `panic`.
  unfoldable pub find_first : ℕ → ℕ → Result (Option ℕ)
  find_first zero off = panic
  find_first (suc rounds) off = do
    test ← is_record off
    elim test [
      | none ↦ ok none
      | some true ↦ ok (some off)
      | some false ↦ find_first rounds ((off + 4) % 2 ^ 64)
    ]

  -- Each round moves four bytes on.
  unfoldable pub find_first_record : ℕ → Result (Option ℕ)
  find_first_record from = find_first (suc file_len) from

  -- `off.checked_add(len)`: the index and the offset of the next round.
  unfoldable pub advance : FileEventIndex → ℕ → ℕ → Result (Option (FileEventIndex × ℕ))
  advance idx off len = do
    refuse_if (leb (2 ^ 64) (off + len)) (corrupt_record off "record length overflows file offset")
    ok (some (idx, off + len))

  -- What the walk does with a header that does not parse.
  unfoldable pub resynchronise :
      Bool → HipoError → FileEventIndex → ℕ → Result (Option (FileEventIndex × ℕ))
  resynchronise salvage e idx off =
      if salvage
      then (do
        next ← find_first_record ((off + 4) % 2 ^ 64)
        ok (Option.map (λ to. (idx, to)) next))
      else err e

  -- What the walk does with a header at `off`: the next round, or `none` for a `break`.
  unfoldable pub scan_record :
      ℕ → Bool → FileEventIndex → ℕ → RecordHeader → Result (Option (FileEventIndex × ℕ))
  scan_record trailer_pos salvage idx off h =
      if (total_bytes h == 0) || (salvage && ltb file_len ((off + total_bytes h) % 2 ^ 64))
      then ok none
      else if ltb h.index_array_length (h.event_count * 4)
      then (if salvage
          then advance idx off (total_bytes h)
          else err (corrupt_record off "record event_count exceeds what its index array can hold"))
      else advance
          (if ltb 0 h.event_count && not (off == trailer_pos)
            then push idx off (total_bytes h) h.event_count
            else idx)
          off (total_bytes h)

  -- The `match` on the header at `off`.
  unfoldable pub scan_parsed :
      ℕ → Bool → FileEventIndex → ℕ → Result RecordHeader → Result (Option (FileEventIndex × ℕ))
  scan_parsed trailer_pos salvage idx off (ok h) = scan_record trailer_pos salvage idx off h
  scan_parsed trailer_pos salvage idx off (err e) = resynchronise salvage e idx off
  scan_parsed trailer_pos salvage idx off panic = panic

  -- One round of the walk, the test of its loop included.
  unfoldable pub scan_step : ℕ → Bool → FileEventIndex → ℕ → Result (Option (FileEventIndex × ℕ))
  scan_step trailer_pos salvage idx off = if is_past off then ok none else do
    hdr ← src.read_exact_at off record_header_size
    scan_parsed trailer_pos salvage idx off (RecordHeader.parse hdr)

  -- A round too few would show as `panic`.
  unfoldable pub scan : ℕ → ℕ → Bool → FileEventIndex → ℕ → Result FileEventIndex
  scan zero trailer_pos salvage idx off = panic
  scan (suc rounds) trailer_pos salvage idx off = do
    next ← scan_step trailer_pos salvage idx off
    elim next [ none ↦ ok idx | some (idx', off') ↦ scan rounds trailer_pos salvage idx' off' ]

  -- Each round moves on inside the file.
  unfoldable pub build_index_by_scanning : ℕ → ℕ → Bool → Result FileEventIndex
  build_index_by_scanning first_data_record_offset trailer_pos salvage =
      scan (suc file_len) trailer_pos salvage EventIndex.new first_data_record_offset

  module _ (b : Backends) where
    unfoldable pub trailer_bank : ℕ → Result Bytes
    trailer_bank trailer_pos = do
      whole ← read_record_into trailer_pos
      trailer ← load b whole.1
      first ← event trailer 0
      elim first [
        | none ↦ err (corrupt_record trailer_pos "trailer record has no event")
        | some idx_event ↦ do
          found ← find idx_event file_index_group file_index_item
          elim found [
            | none ↦ err (corrupt_record trailer_pos "trailer event missing file::index bank")
            | some (_, bank_data) ↦ ok bank_data
          ]
      ]

    unfoldable pub build_index_from_trailer : ℕ → ℕ → Result FileEventIndex
    build_index_from_trailer trailer_pos first_data_record_offset = do
      bank_data ← trailer_bank trailer_pos
      read_trailer_bank file_len trailer_pos first_data_record_offset bank_data

    -- The index that `from_source` builds.
    unfoldable pub build_index : FileHeader → Result FileEventIndex
    build_index h =
        let first : ℕ = h.header_length + h.user_header_length in
        if h.trailer_position == 0 then build_index_by_scanning first 0 false else do
          listed ← ok_of (build_index_from_trailer h.trailer_position first)
          elim listed [
            | none ↦ build_index_by_scanning first h.trailer_position false
            | some idx ↦ ok idx
          ]

    unfoldable pub holds_file_index : ℕ → Result Bool
    holds_file_index offset = do
      whole ← ok_of (read_record_into offset)
      elim whole [
        | none ↦ ok false
        | some (_, buf) ↦ do
          loaded ← ok_of (load b buf)
          elim loaded [
            | none ↦ ok false
            | some r ↦ do
              first ← event r 0
              elim first [ none ↦ ok false | some ev ↦ has ev file_index_group file_index_item ]
          ]
      ]

    -- What a salvage does with the last record of the walk: it is dropped where it is the trailer.
    unfoldable pub drop_trailer :
        FileEventIndex → Option (List RecordSpan × RecordSpan) → Result FileEventIndex
    drop_trailer idx none = ok idx
    drop_trailer idx (some (before, last)) = do
      is_trailer ← holds_file_index last.file_offset
      ok (if is_trailer then pop_last idx else idx)

    -- The index that `salvage_from_source` builds, from the first data record on.
    unfoldable pub salvage_index : ℕ → Result FileEventIndex
    salvage_index first_data = do
      idx ← build_index_by_scanning first_data 0 true
      drop_trailer idx (pop idx.records)

    -- Opening a file: the header, the dictionary record and the index. The parse of the dictionary
    -- record at an offset is an argument, since it reads the text of the schemas.
    unfoldable pub from_source :
        {D : Type 0} → (ℕ → Result D) → Result (FileHeader × D × FileEventIndex)
    from_source parse_dictionary = do
      refuse_if (ltb file_len file_header_size) (file_too_small file_len file_header_size)
      hdr ← src.read_exact_at 0 file_header_size
      file_header ← FileHeader.parse hdr
      dict ← parse_dictionary file_header.header_length
      idx ← build_index file_header
      ok (file_header, dict, idx)
