-- ===== src/Read/Iter.antt =====
-- src/read/iter.rs: the iterator over the events of a file. The buffers that it recycles hold no
-- state between records. The records of the split layouts (src/wire/by_bank.rs, per_column.rs) are
-- not modelled: their parse and the filter's test on them are a parameter.
pub mod Load
pub mod Rounds
pub mod Ahead
pub mod Stream
pub mod Written
use oxihipo.Prelude.{
  ℕ, zero, suc, ◌+◌, ◌-◌, ◌%◌, ◌^◌, Bool, true, false, not, List, [], ◌∷◌, Option, none, some, ltb,
  leb, ◌==◌, if◌then◌else◌, length, drop, Bytes, HipoError, Result, ok, err, panic, ◌>>=◌,
}
use oxihipo.Wire.Bytes.{slice}
use oxihipo.Wire.Constants.Tags.{CompressionType, is_by_bank, is_per_column}
use oxihipo.Wire.RecordHeader.{RecordHeader}
use oxihipo.Wire.EventIndex.{RecordSpan, FileEventIndex}
use oxihipo.Schema.Dict.{Dict}
use oxihipo.Record.Codec.{Backends}
use oxihipo.Record.Decode.{decode_record_into, offset_at}
use oxihipo.Read.Filter.{Filter, contains, check, bind}
use oxihipo.Read.Inner.{ReadAt, read_record_header, read_record_into}
use oxihipo.Read.Located.{locate}

-- A file that was opened.
pub record FileInner : Type 0 where
  pub path : List ℕ
  pub file : ReadAt
  pub len : ℕ
  pub dict : Dict
  pub index : FileEventIndex

-- The split records: the count of events of one that parses, the filter's test at an event, and the
-- bytes that are put together for an event.
pub record SplitRecords : Type 0 where
  pub synthesize_by_bank : Bytes → ℕ → Result Bytes
  pub synthesize_per_column : Bytes → ℕ → Result Bytes
  pub parse_by_bank : Bytes → Result ℕ
  pub parse_per_column : Bytes → Result ℕ
  pub check_by_bank : Filter → Bytes → ℕ → Result Bool
  pub check_per_column : Filter → Bytes → ℕ → Result Bool

-- An event that shares its record: the payload and the range, or the split record and the index.
pub data OwnedEvent : Type 0 where
  in_payload : Bytes → ℕ → ℕ → OwnedEvent
  by_bank : Bytes → ℕ → OwnedEvent
  per_column : Bytes → ℕ → OwnedEvent

pub data CurrentRecord : Type 0 where
  nothing : CurrentRecord
  bytes : Bytes → List ℕ → ℕ → CurrentRecord
  by_bank : Bytes → ℕ → CurrentRecord
  per_column : Bytes → ℕ → CurrentRecord

-- `saturating_sub(1) as u32` of the offsets
unfoldable pub event_count : CurrentRecord → ℕ
event_count CurrentRecord.nothing = 0
event_count (CurrentRecord.bytes payload event_offsets data_start) =
    (length event_offsets - 1) % 2 ^ 32
event_count (CurrentRecord.by_bank raw n) = n
event_count (CurrentRecord.per_column raw n) = n

pub record EventIter : Type 0 where
  pub inner : FileInner
  pub dict : Dict
  pub filter : Option Filter
  pub record_tags : Option (List ℕ)
  pub cur : CurrentRecord
  pub next_record : ℕ
  pub next_event : ℕ
  pub finished : Bool

-- The filter is bound to the file's own dictionary.
abbrev pub bound_filter : Option Filter → Dict → Result (Option Filter)
bound_filter none d = ok none
bound_filter (some f) d = do bound ← bind d f; ok (some bound)

unfoldable pub new : FileInner → Dict → Option Filter → Option (List ℕ) → Result EventIter
new inner dict filter record_tags = do
  bound ← bound_filter filter inner.dict
  ok (record {
    inner = inner;
    dict = dict;
    filter = bound;
    record_tags = record_tags;
    cur = CurrentRecord.nothing;
    next_record = 0;
    next_event = 0;
    finished = false;
  })

module _ (b : Backends) (split : SplitRecords) where
  -- `OwnedEvent::bytes` of src/event/owned.rs
  unfoldable pub event_bytes : OwnedEvent → Result Bytes
  event_bytes (OwnedEvent.in_payload payload start end) = slice payload start end
  event_bytes (OwnedEvent.by_bank raw i) = split.synthesize_by_bank raw i
  event_bytes (OwnedEvent.per_column raw i) = split.synthesize_per_column raw i

  -- The record of a header, decoded or parsed.
  unfoldable pub decode_current : CompressionType → Bytes → Dict → Result CurrentRecord
  decode_current compression read_buf dict =
      if is_by_bank compression
      then (do n ← split.parse_by_bank read_buf; ok (CurrentRecord.by_bank read_buf n))
      else if is_per_column compression
      then (do n ← split.parse_per_column read_buf; ok (CurrentRecord.per_column read_buf n))
      else do
        decoded ← decode_record_into b read_buf (some dict)
        ok (CurrentRecord.bytes decoded.1 decoded.2 (decoded.0.data_start))

  -- The test of the tag pushdown, which reads no more than the header.
  unfoldable pub is_wanted : FileInner → Option (List ℕ) → RecordSpan → Result Bool
  is_wanted inner none span = ok true
  is_wanted inner (some tags) span = do
    h ←
        locate inner.path span.file_offset
          (read_record_header inner.file inner.len span.file_offset)
    ok (contains tags h.user_word_1)

  unfoldable pub load_record : FileInner → Dict → RecordSpan → Result CurrentRecord
  load_record inner dict span = do
    whole ←
        locate inner.path span.file_offset (read_record_into inner.file inner.len span.file_offset)
    locate inner.path span.file_offset (decode_current whole.0.compression whole.1 dict)

  -- The loop over the records that are left: `false` at the end of them. What an error leaves in the
  -- iterator is not modelled, since `next_result` ends with it.
  unfoldable pub advance_over : List RecordSpan → EventIter → Result (Bool × EventIter)
  advance_over [] it = ok (false, it)
  advance_over (span ∷ spans) it = do
    wanted ← is_wanted it.inner it.record_tags span
    elim wanted [
      | false ↦ advance_over spans (record it { next_record = it.next_record + 1 })
      | true ↦ do
        cur ← load_record it.inner it.dict span
        ok (true, record it { cur = cur; next_record = it.next_record + 1; next_event = 0 })
    ]

  unfoldable pub advance_record : EventIter → Result (Bool × EventIter)
  advance_record it = advance_over (drop it.next_record it.inner.index.records) it

  -- The event of the current record at an index, where the filter passes it.
  unfoldable pub event_of : Option Filter → CurrentRecord → ℕ → Result (Option OwnedEvent)
  event_of filter CurrentRecord.nothing i = panic
  event_of filter (CurrentRecord.bytes payload event_offsets data_start) i = do
    lo ← offset_at event_offsets i
    hi ← offset_at event_offsets (i + 1)
    let start = (data_start + lo) % 2 ^ 32
    let end = (data_start + hi) % 2 ^ 32
    passes ← (elim filter [
      | none ↦ ok true
      | some f ↦ do event ← slice payload start end; check f event
    ])
    ok (if passes then some (OwnedEvent.in_payload payload start end) else none)
  event_of filter (CurrentRecord.by_bank raw n) i = do
    passes ← (elim filter [ none ↦ ok true | some f ↦ split.check_by_bank f raw i ])
    ok (if passes then some (OwnedEvent.by_bank raw i) else none)
  event_of filter (CurrentRecord.per_column raw n) i = do
    passes ← (elim filter [ none ↦ ok true | some f ↦ split.check_per_column f raw i ])
    ok (if passes then some (OwnedEvent.per_column raw i) else none)

  -- The rounds of the outer loop inside the current record: the next event that the filter passes.
  unfoldable pub next_in_record : ℕ → EventIter → Result (Option OwnedEvent × EventIter)
  next_in_record zero it = ok (none, it)
  next_in_record (suc left) it = do
    found ← event_of it.filter it.cur it.next_event
    elim found [
      | none ↦ next_in_record left (record it { next_event = it.next_event + 1 })
      | some ev ↦ ok (some ev, record it { next_event = it.next_event + 1 })
    ]

  -- The `match` on an advance, and what is done with a record that was loaded.
  unfoldable pub on_advance :
      (EventIter → Result (Option (Result OwnedEvent) × EventIter))
      → EventIter
      → Result (Bool × EventIter)
      → Result (Option (Result OwnedEvent) × EventIter)
  on_advance again it (ok (true, it')) = again it'
  on_advance again it (ok (false, it')) = ok (none, record it' { finished = true })
  on_advance again it (err e) = ok (some (err e), record it { finished = true })
  on_advance again it panic = panic

  -- The `match` on what the current record has left.
  unfoldable pub on_found :
      (EventIter → Result (Option (Result OwnedEvent) × EventIter))
      → Option OwnedEvent × EventIter
      → Result (Option (Result OwnedEvent) × EventIter)
  on_found again (some ev, it) = ok (some (ok ev), it)
  on_found again (none, it) = on_advance again it (advance_record it)

  -- Each round uses up a record, so one more round than there are records is enough; a round too few
  -- would show as `panic`.
  unfoldable pub next_from : ℕ → EventIter → Result (Option (Result OwnedEvent) × EventIter)
  next_from zero it = panic
  next_from (suc rounds) it =
      next_in_record (event_count it.cur - it.next_event) it >>= on_found (next_from rounds)

  unfoldable pub next_result : EventIter → Result (Option (Result OwnedEvent) × EventIter)
  next_result it =
      if it.finished then ok (none, it) else next_from (suc (length it.inner.index.records)) it
