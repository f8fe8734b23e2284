-- ===== src/Wire/EventIndex.antt =====
-- src/wire/event_index.rs: from a global event number to a record and an event in it.
pub mod Invariant
pub mod Locate
use mathlib.Core.Bool.{◌||◌}
use oxihipo.Prelude.{
  ℕ, zero, suc, ◌+◌, ◌-◌, ◌%◌, ◌^◌, Bool, true, false, not, List, [], ◌∷◌, ◌++◌, Option, none, some,
  ltb, leb, ◌==◌, if◌then◌else◌, length, get_elem?, corrupt_record, Result, ok, err, panic, ◌>>=◌,
  ◌>>◌, refuse_if,
}

pub record RecordSpan : Type 0 where
  pub file_offset : ℕ
  pub record_length : ℕ
  pub event_count : ℕ
  -- Cumulative event count before this record.
  pub first_event : ℕ

pub record FileEventIndex : Type 0 where
  pub records : List RecordSpan
  pub total_events : ℕ

abbrev pub new : FileEventIndex
new = record { records = []; total_events = 0 }

-- `Vec::pop`: the other elements, and the last.
unfoldable pub pop {ℓ} : {A : Type ℓ} → List A → Option (List A × A)
pop [] = none
pop (x ∷ xs) = elim (pop xs) [ none ↦ some ([], x) | some (ys, y) ↦ some (x ∷ ys, y) ]

-- Subtraction of `u64`s, which wraps in a release build.
unfoldable pub pop_last : FileEventIndex → FileEventIndex
pop_last idx = elim (pop idx.records) [
  | none ↦ idx
  | some (rest, last) ↦ record {
    records = rest;
    total_events = (idx.total_events + 2 ^ 64 - last.event_count) % 2 ^ 64;
  }
]

unfoldable pub push : FileEventIndex → ℕ → ℕ → ℕ → FileEventIndex
push idx file_offset record_length event_count = record {
  records =
      idx.records
      ++ (record {
        file_offset = file_offset;
        record_length = record_length;
        event_count = event_count;
        first_event = idx.total_events;
      }
          ∷ []);
  total_events = (idx.total_events + event_count) % 2 ^ 64;
}

unfoldable pub record_count : FileEventIndex → ℕ
record_count idx = length idx.records

-- `slice::partition_point`: how many elements come before the first one that fails the test.
unfoldable pub partition_point {ℓ} : {A : Type ℓ} → (A → Bool) → List A → ℕ
partition_point p [] = 0
partition_point p (x ∷ xs) = if p x then suc (partition_point p xs) else 0

-- `&self.records[idx]`
abbrev pub index {ℓ} : {A : Type ℓ} → List A → ℕ → Result A
index xs i = elim (get_elem? xs i) [ none ↦ panic | some x ↦ ok x ]

abbrev pub starts_by : ℕ → RecordSpan → Bool
starts_by global r = leb r.first_event global

unfoldable pub locate : FileEventIndex → ℕ → Result (Option (ℕ × ℕ))
locate idx global = if leb idx.total_events global then ok none else do
  let i = partition_point (starts_by global) idx.records - 1
  span ← index idx.records i
  ok (some (i, (global + 2 ^ 64 - span.first_event) % 2 ^ 64 % 2 ^ 32))

-- `self.records.get(idx)`
unfoldable pub record_at : FileEventIndex → ℕ → Option RecordSpan
record_at idx i = get_elem? idx.records i

-- `l as u64` of an `i32`, on bit patterns.
abbrev pub sign_extend : ℕ → ℕ
sign_extend l = if ltb l (2 ^ 31) then l else l + (2 ^ 64 - 2 ^ 32)

unfoldable pub push_columns : FileEventIndex → List ℕ → List ℕ → List ℕ → FileEventIndex
push_columns idx (p ∷ ps) (l ∷ ls) (e ∷ es) = push_columns (push idx p (sign_extend l) e) ps ls es
push_columns idx _ _ _ = idx

unfoldable pub from_columns : List ℕ → List ℕ → List ℕ → Result FileEventIndex
from_columns positions lengths entries = do
  refuse_if (not (length positions == length lengths) || not (length positions == length entries))
      (corrupt_record 0 "trailer index columns have mismatched lengths")
  ok (push_columns new positions lengths entries)
