-- ===== src/Write/Writer/Append.antt =====
-- The steps of a writer, and what every writer that they reach stands for.
use mathlib.Core.List.{append_assoc, append-nil}
use mathlib.Core.Path.{subst}
use oxihipo.Prelude.{
  ℕ, ◌+◌, ◌*◌, ◌^◌, ◌≤◌, ◌<◌, ◌≡◌, inl, inr, refl, sym, ap, ◌∙◌, arith, false, List, [], ◌∷◌, ◌++◌,
  length, Bytes, ok, if◌then◌else◌, length-append, length-map, Bool-cases, nat_eq, >>=-eq-ok,
  ok-injective,
}
use oxihipo.Record.Builder
use oxihipo.Record.Builder.{
  RecordBuilder, add_event, event_count, estimated_payload_size, total_data,
}
use oxihipo.Record.Builder.Slices.{Holds, add_event-Holds, length-concat, IsShort}
use oxihipo.Write.Writer.{
  Disk, Reliable, Format, Describes, Writer, is_full, flush_record, append_raw, set_user_word_1,
  set_user_word_2,
}
use oxihipo.Write.Writer.Tracks.{events_of, Limited, Tracks}
use oxihipo.Write.Writer.Steps.{flush_record-Tracks}

total_data-append :
    (xs : List Bytes) (y : Bytes) → total_data (xs ++ (y ∷ [])) ≡ total_data xs + length y
total_data-append [] y = omega arith
total_data-append (x ∷ xs) y = omega (arith, total_data-append xs y)

-- A record that is not full has room for the event.
Limited-append :
    (w : Writer) (pending : List Bytes) (ev : Bytes)
    → Holds w.builder pending
    → Limited w.opts pending
    → w.opts.max_record_events < 2 ^ 32
    → is_full w ev ≡ false
    → Limited w.opts (pending ++ (ev ∷ []))
unfolding is_full event_count estimated_payload_size
Limited-append w pending ev h l fits room =
    let count : length w.builder.event_lengths ≡ length pending =
      ap length h.lengths ∙ length-map length pending in
    let size : length w.builder.events ≡ total_data pending =
      ap length h.bytes ∙ length-concat pending in
    let more : length (pending ++ (ev ∷ [])) ≡ length pending + 1 =
      length-append pending (ev ∷ []) in
    record {
      few = ground (arith, room, count, more, l.few, fits);
      small = elim (nat_eq (length pending) 0) [
        | inl none_yet ↦ inl (omega (arith, none_yet, more))
        | inr some_there ↦ inr (
            let within : length w.builder.event_lengths * 4 + length w.builder.events + length ev
                ≤ w.opts.max_record_bytes =
              ground (arith, room, count, some_there, l.few, fits) in
            omega (arith, within, count, size, more, total_data-append pending ev))
      ];
    }

module _ (d : Disk) (reliable : Reliable d) (f : Format) (describes : Describes f) where
  add_event-Tracks :
      (start : Bytes) (w : Writer) (evs : List Bytes) (ev : Bytes) (t : Tracks f start w evs)
      → IsShort ev
      → Limited w.opts (t.pending ++ (ev ∷ []))
      → Tracks f start (record w { builder = add_event w.builder ev }) (evs ++ (ev ∷ []))
  add_event-Tracks start w evs ev t short l = record {
    items = t.items;
    pending = t.pending ++ (ev ∷ []);
    all_events =
        ap (λ x. x ++ (ev ∷ [])) t.all_events
        ∙ append_assoc (events_of t.items) t.pending (ev ∷ []);
    holds = add_event-Holds w.builder t.pending ev t.holds short;
    laid = t.laid;
    entries = t.entries;
    file = t.file;
    cursor = t.cursor;
    limited = l;
    fits = t.fits;
    at_start = t.at_start;
    unfinished = t.unfinished;
  }

  -- Appending an event, with the flush of a full record before it, adds that event to those the
  -- writer stands for and keeps the limits: the records on disk follow one another from the cursor's
  -- first position, the index has an entry for each, and none is empty or beyond the limits of the
  -- options. The disk writes what it says it wrote, and the event is shorter than 4 GiB.
  pub append_raw-Tracks :
      (start : Bytes) (w out : Writer) (evs : List Bytes) (ev : Bytes)
      → Tracks f start w evs
      → IsShort ev
      → append_raw d f w ev ≡ ok out
      → Tracks f start out (evs ++ (ev ∷ []))
  unfolding append_raw
  append_raw-Tracks start w out evs ev t short e =
      let (flushed, first, second) =
        >>=-eq-ok (if is_full w ev then flush_record d f w else ok w) _ e in
      let last : record flushed { builder = add_event flushed.builder ev } ≡ out =
        ok-injective second in
      subst (λ x. Tracks f start x (evs ++ (ev ∷ []))) last
        (elim (Bool-cases (is_full w ev)) [
          | inl full ↦
              let ran : flush_record d f w ≡ ok flushed = sym (rw full refl) ∙ first in
              let (t', empty, same) =
                flush_record-Tracks d reliable f describes start w flushed evs t ran in
              add_event-Tracks start flushed evs ev t' short (
                subst (λ p. Limited flushed.opts (p ++ (ev ∷ []))) (sym empty)
                  (record { few = omega arith; small = inl (omega arith) }))
          | inr room ↦
              let same : w ≡ flushed = ok-injective (sym (rw room refl) ∙ first) in
              subst
                (λ x.
                  Tracks f start (record x { builder = add_event x.builder ev }) (evs ++ (ev ∷ [])))
                same
                (add_event-Tracks start w evs ev t short
                  (Limited-append w t.pending ev t.holds t.limited t.fits room))
        ])

module _ (f : Format) where
  -- Another builder with the same events.
  reworded :
      (start : Bytes) (w : Writer) (evs : List Bytes) (rb : RecordBuilder)
      → rb.event_lengths ≡ w.builder.event_lengths
      → rb.events ≡ w.builder.events
      → Tracks f start w evs
      → Tracks f start (record w { builder = rb }) evs
  reworded start w evs rb lengths bytes t = record {
    items = t.items;
    pending = t.pending;
    all_events = t.all_events;
    holds = record { lengths = lengths ∙ t.holds.lengths; bytes = bytes ∙ t.holds.bytes };
    laid = t.laid;
    entries = t.entries;
    file = t.file;
    cursor = t.cursor;
    limited = t.limited;
    fits = t.fits;
    at_start = t.at_start;
    unfinished = t.unfinished;
  }

-- The calls of a client before it finishes the file, and the events it has appended by then.
pub data Reaches (d : Disk) (f : Format) (first : Writer) : Writer → List Bytes → Type 0 where
  opened : Reaches d f first first []
  appended :
      {w out : Writer} {evs : List Bytes} (ev : Bytes)
      → Reaches d f first w evs
      → IsShort ev
      → append_raw d f w ev ≡ ok out
      → Reaches d f first out (evs ++ (ev ∷ []))
  flushed :
      {w out : Writer} {evs : List Bytes}
      → Reaches d f first w evs
      → flush_record d f w ≡ ok out
      → Reaches d f first out evs
  word_1_set :
      {w : Writer} {evs : List Bytes} (v : ℕ)
      → Reaches d f first w evs
      → Reaches d f first (set_user_word_1 w v) evs
  word_2_set :
      {w : Writer} {evs : List Bytes} (v : ℕ)
      → Reaches d f first w evs
      → Reaches d f first (set_user_word_2 w v) evs

-- A writer on a file that holds the header and the dictionary only.
pub record IsFresh (w : Writer) : Type 0 where
  pub holds : Holds w.builder []
  pub entries : w.index_entries ≡ []
  pub cursor : w.cursor ≡ length w.file
  pub fits : w.opts.max_record_events < 2 ^ 32
  pub at_start : w.file_header_offset ≡ 0
  pub unfinished : w.finished ≡ false

module _ (d : Disk) (reliable : Reliable d) (f : Format) (describes : Describes f) where
  -- Whatever a client calls, in whatever order, the file is what stood there at first and then the
  -- records, one after another; their events and those still pending are, in order, the events that
  -- were appended; the index lists the records with their offsets, lengths and header words; no
  -- record is empty or has more events than the options allow, which is one where they say 0, and the payload of more than one event
  -- passes `max_record_bytes` by the last index word at most. The calls are those that add events
  -- shorter than 4 GiB, flush, or set a user word, and that succeed, on a fresh writer; the disk
  -- writes what it says it wrote, and the record builder puts the record number in its place.
  pub Reaches-Tracks :
      (first w : Writer) (evs : List Bytes)
      → IsFresh first
      → Reaches d f first w evs
      → Tracks f first.file w evs
  unfolding set_user_word_1 set_user_word_2 Builder.set_user_word_1 Builder.set_user_word_2
  Reaches-Tracks first w evs fresh opened = record {
    items = [];
    pending = [];
    all_events = refl;
    holds = fresh.holds;
    laid = tt;
    entries = fresh.entries;
    file = sym (append-nil first.file);
    cursor = fresh.cursor;
    limited = record { few = omega arith; small = inl (omega arith) };
    fits = fresh.fits;
    at_start = fresh.at_start;
    unfinished = fresh.unfinished;
  }
  Reaches-Tracks first w evs fresh (appended {w = before} {evs = earlier} ev r short e) =
      append_raw-Tracks d reliable f describes first.file before w earlier ev
        (Reaches-Tracks first before earlier fresh r) short e
  Reaches-Tracks first w evs fresh (flushed {w = before} r e) =
      (flush_record-Tracks d reliable f describes first.file before w evs
        (Reaches-Tracks first before evs fresh r) e).0
  Reaches-Tracks first w evs fresh (word_1_set {w = before} v r) =
      reworded f first.file before evs (Builder.set_user_word_1 before.builder v) refl refl
        (Reaches-Tracks first before evs fresh r)
  Reaches-Tracks first w evs fresh (word_2_set {w = before} v r) =
      reworded f first.file before evs (Builder.set_user_word_2 before.builder v) refl refl
        (Reaches-Tracks first before evs fresh r)
