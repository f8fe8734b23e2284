-- ===== src/Read/Chain.antt =====
-- src/read/chain.rs: files in a row, read event by event and by event number. The union of the
-- dictionaries, which is a check on the files, is an argument; the lock around the cache of the last
-- record is not modelled.
pub mod Cache
pub mod Stale
pub mod Stream
pub mod Access
use oxihipo.Prelude.{
  ℕ, zero, suc, ◌+◌, ◌-◌, ◌%◌, ◌^◌, Bool, true, false, ◌&&◌, List, [], ◌∷◌, Option, none, some, ltb,
  leb, ◌==◌, if◌then◌else◌, length, get_elem?, Bytes, HipoError, Result, ok, err, panic, ◌>>=◌,
}
use oxihipo.Wire.Constants.Tags.{CompressionType, is_by_bank, is_per_column}
use oxihipo.Wire.EventIndex.{RecordSpan, FileEventIndex, partition_point, index, locate}
use oxihipo.Schema.Dict.{Dict}
use oxihipo.Record.Codec.{Backends}
use oxihipo.Record.Decode.{decode_record_into, offset_at}
use oxihipo.Read.Filter
use oxihipo.Read.Filter.{Filter, validate, bind, is_empty}
use oxihipo.Read.Inner.{ok_of, read_record_into}
use oxihipo.Read.Iter
use oxihipo.Read.Iter.{FileInner, SplitRecords, OwnedEvent, EventIter}

pub data CachedRecord : Type 0 where
  bytes : Bytes → List ℕ → ℕ → CachedRecord
  by_bank : Bytes → ℕ → CachedRecord
  per_column : Bytes → ℕ → CachedRecord

pub record RecordCache : Type 0 where
  pub file_idx : ℕ
  pub rec_idx : ℕ
  pub decoded : CachedRecord

pub record Chain : Type 0 where
  pub files : List FileInner
  pub file_event_offsets : List ℕ
  pub dict : Dict
  pub filter : Option Filter
  pub record_tags : Option (List ℕ)
  pub record_cache : Option RecordCache

-- The sums that `from_inners` pushes behind the first offset.
unfoldable pub offsets_from : ℕ → List FileInner → List ℕ
offsets_from acc [] = []
offsets_from acc (f ∷ fs) =
    (acc + f.index.total_events) % 2 ^ 64 ∷ offsets_from ((acc + f.index.total_events) % 2 ^ 64) fs

unfoldable pub from_inners : List FileInner → Dict → Chain
from_inners files dict = record {
  files = files;
  file_event_offsets = 0 ∷ offsets_from 0 files;
  dict = dict;
  filter = none;
  record_tags = none;
  record_cache = none;
}

-- `last().copied().unwrap_or(0)`
abbrev last_or_zero : List ℕ → ℕ
last_or_zero [] = 0
last_or_zero (x ∷ []) = x
last_or_zero (x ∷ y ∷ xs) = last_or_zero (y ∷ xs)

unfoldable pub event_count : Chain → ℕ
event_count c = last_or_zero c.file_event_offsets

-- The record tags of the filter replace those of the one before it.
unfoldable pub with_filter : Chain → Filter → Result Chain
with_filter c f = do
  _ ← validate f c.dict
  bound ← bind c.dict f
  ok (record c {
    record_tags = (if is_empty bound.record_tags then none else some bound.record_tags);
    filter = some bound;
  })

-- `partition_point(…).checked_sub(1)`
abbrev pub last_by : ℕ → List ℕ → Option ℕ
last_by idx offsets = elim (partition_point (λ o. leb o idx) offsets) [
  | zero ↦ none
  | suc i ↦ some i
]

-- The event of a decoded record.
unfoldable pub handed_out : CachedRecord → ℕ → Result (Option OwnedEvent)
handed_out (CachedRecord.by_bank raw n) i =
    ok (if leb n i then none else some (OwnedEvent.by_bank raw i))
handed_out (CachedRecord.per_column raw n) i =
    ok (if leb n i then none else some (OwnedEvent.per_column raw i))
handed_out (CachedRecord.bytes payload offsets data_start) i =
    if leb (length offsets) (i + 1) then ok none else do
      lo ← offset_at offsets i
      hi ← offset_at offsets (i + 1)
      ok (
          some (
            OwnedEvent.in_payload payload ((data_start + lo) % 2 ^ 32)
              ((data_start + hi) % 2 ^ 32)))

-- The cached record, where it is the one that is asked for.
unfoldable pub hot : Option RecordCache → ℕ → ℕ → Option CachedRecord
hot none file_idx rec_idx = none
hot (some c) file_idx rec_idx =
    if c.file_idx == file_idx && c.rec_idx == rec_idx then some c.decoded else none

module _ (b : Backends) (split : SplitRecords) where
  unfoldable pub decode_cached : CompressionType → Bytes → Dict → Result CachedRecord
  decode_cached compression raw dict =
      if is_by_bank compression
      then (do n ← split.parse_by_bank raw; ok (CachedRecord.by_bank raw n))
      else if is_per_column compression
      then (do n ← split.parse_per_column raw; ok (CachedRecord.per_column raw n))
      else do
        decoded ← decode_record_into b raw (some dict)
        ok (CachedRecord.bytes decoded.1 decoded.2 (decoded.0.data_start))

  -- The record of a span, read and decoded; `none` where that fails.
  unfoldable pub fetch : FileInner → Dict → RecordSpan → Result (Option CachedRecord)
  fetch inner dict span = ok_of (do
    whole ← read_record_into inner.file inner.len span.file_offset
    decode_cached whole.0.compression whole.1 dict)

  -- The event of a record that was fetched, and the cache that is left: the record is put in.
  unfoldable pub serve_fetched :
      Option RecordCache
      → ℕ
      → ℕ
      → ℕ
      → Option CachedRecord
      → Result (Option OwnedEvent × Option RecordCache)
  serve_fetched cache file_idx rec_idx ev_local none = ok (none, cache)
  serve_fetched cache file_idx rec_idx ev_local (some decoded) = do
    ev ← handed_out decoded ev_local
    ok (ev, some (record { file_idx = file_idx; rec_idx = rec_idx; decoded = decoded }))

  -- From the cache, or from the file.
  unfoldable pub serve :
      Option CachedRecord
      → Chain
      → FileInner
      → ℕ
      → ℕ
      → ℕ
      → Result (Option OwnedEvent × Option RecordCache)
  serve (some decoded) c inner file_idx rec_idx ev_local = do
    ev ← handed_out decoded ev_local
    ok (ev, c.record_cache)
  serve none c inner file_idx rec_idx ev_local = do
    span ← index inner.index.records rec_idx
    fetched ← fetch inner c.dict span
    serve_fetched c.record_cache file_idx rec_idx ev_local fetched

  unfoldable pub serve_located :
      Chain → FileInner → ℕ → Option (ℕ × ℕ) → Result (Option OwnedEvent × Option RecordCache)
  serve_located c inner file_idx none = ok (none, c.record_cache)
  serve_located c inner file_idx (some (rec_idx, ev_local)) =
      serve (hot c.record_cache file_idx rec_idx) c inner file_idx rec_idx ev_local

  -- The event of a file; there may be no file of that number.
  unfoldable pub event_of_file :
      Chain → ℕ → ℕ → Option FileInner → Result (Option OwnedEvent × Option RecordCache)
  event_of_file c idx file_idx none = ok (none, c.record_cache)
  event_of_file c idx file_idx (some inner) = do
    start ← index c.file_event_offsets file_idx
    located ← locate inner.index ((idx + 2 ^ 64 - start) % 2 ^ 64)
    serve_located c inner file_idx located

  unfoldable pub event_in : Chain → ℕ → Option ℕ → Result (Option OwnedEvent × Option RecordCache)
  event_in c idx none = ok (none, c.record_cache)
  event_in c idx (some file_idx) = event_of_file c idx file_idx (get_elem? c.files file_idx)

  -- The event of a number, and the cache that is left.
  unfoldable pub event : Chain → ℕ → Result (Option OwnedEvent × Option RecordCache)
  event c idx = event_in c idx (last_by idx c.file_event_offsets)

-- The iterator over all events of a chain.
pub record ChainEventIter : Type 0 where
  pub files : List FileInner
  pub next_file : ℕ
  pub current : Option EventIter
  pub filter : Option Filter
  pub record_tags : Option (List ℕ)
  pub finished : Bool

unfoldable pub events : Chain → ChainEventIter
events c = record {
  files = c.files;
  next_file = 0;
  current = none;
  filter = c.filter;
  record_tags = c.record_tags;
  finished = false;
}

abbrev pub open_file :
    ChainEventIter → Option FileInner → Result (Option (EventIter × ChainEventIter))
open_file it none = ok none
open_file it (some inner) = do
  iter ← Iter.new inner inner.dict it.filter it.record_tags
  ok (some (iter, record it { next_file = it.next_file + 1; current = some iter }))

-- The iterator of the next file; `none` for `false`, where there is no file left.
unfoldable pub open_next : ChainEventIter → Result (Option (EventIter × ChainEventIter))
open_next it = open_file it (get_elem? it.files it.next_file)

-- The outcome of a call: what `next_result` returns, and the iterator after it.
abbrev pub Outcome : Type 0
Outcome = Result (Option (Result OwnedEvent) × ChainEventIter)

module _ (b : Backends) (split : SplitRecords) where
  -- The `match` on what the iterator of the current file returned.
  unfoldable pub on_item :
      (ChainEventIter → Outcome) → ChainEventIter → Option (Result OwnedEvent) × EventIter → Outcome
  on_item again it (none, cur) = again (record it { current = none })
  on_item again it (some (ok ev), cur) = ok (some (ok ev), record it { current = some cur })
  on_item again it (some (err e), cur) =
      ok (some (err e), record it { current = some cur; finished = true })
  on_item again it (some panic, cur) = panic

  unfoldable pub on_opened :
      (ChainEventIter → Outcome) → ChainEventIter → Option (EventIter × ChainEventIter) → Outcome
  on_opened again it none = ok (none, record it { finished = true })
  on_opened again it (some (cur, it')) = Iter.next_result b split cur >>= on_item again it'

  -- The round of the loop: the current file, which is the next one where there is none.
  unfoldable pub round : (ChainEventIter → Outcome) → ChainEventIter → Option EventIter → Outcome
  round again it (some cur) = Iter.next_result b split cur >>= on_item again it
  round again it none = open_next it >>= on_opened again it

  -- Each round but the last leaves a file behind; a round too few would show as `panic`.
  unfoldable pub next_from : ℕ → ChainEventIter → Outcome
  next_from zero it = panic
  next_from (suc rounds) it = round (next_from rounds) it it.current

  -- One round for the current file, one for each other and one for the end.
  unfoldable pub next_result : ChainEventIter → Outcome
  next_result it = if it.finished then ok (none, it) else next_from (suc (suc (length it.files))) it
