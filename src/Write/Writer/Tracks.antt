-- ===== src/Write/Writer/Tracks.antt =====
-- What a writer stands for: the events that were appended, cut into records.
use mathlib.Core.List.{append_assoc, append-nil}
use mathlib.Core.Path.{subst}
use oxihipo.Prelude.{
  ℕ, suc, ◌+◌, ◌*◌, ◌%◌, ◌^◌, ◌≤◌, ◌<◌, ◌≡◌, ◌⊎◌, max, sym, ap, ◌∙◌, arith, false, List, [], ◌∷◌,
  ◌++◌, map, length, take, Bytes, ok, length-append,
}
use oxihipo.Wire.RecordHeader
use oxihipo.Wire.RecordHeader.{RecordHeader}
use oxihipo.Record.Builder.{total_data}
use oxihipo.Record.Builder.Slices.{Holds}
use oxihipo.Write.Writer.{Format, WriterOptions, IndexEntry, Writer}

-- A record on disk: the events in it, the user words, its bytes and its entry in the index.
pub record Item : Type 0 where
  pub chunk : List Bytes
  pub user_word_1 : ℕ
  pub user_word_2 : ℕ
  pub bytes : Bytes
  pub entry : IndexEntry

-- The events and the bytes of a run of records.
abbrev pub events_of : List Item → List Bytes
events_of [] = []
events_of (i ∷ is) = i.chunk ++ events_of is

abbrev pub bytes_of : List Item → Bytes
bytes_of [] = []
bytes_of (i ∷ is) = i.bytes ++ bytes_of is

-- The limits of a record's events: as many as the options allow, and at least one; the payload may
-- pass `max_record_bytes` by the index word of the last event.
pub record Limited (o : WriterOptions) (evs : List Bytes) : Type 0 where
  pub few : length evs ≤ max 1 o.max_record_events
  pub small : (length evs ≤ 1) ⊎ (length evs * 4 + total_data evs ≤ o.max_record_bytes + 4)

-- The record after `n` others, at an offset of the file.
pub record Written (f : Format) (o : WriterOptions) (pos n : ℕ) (i : Item) : Type 0 where
  pub built :
      f.build i.chunk i.user_word_1 i.user_word_2 o.compression ((n % 2 ^ 32 + 1) % 2 ^ 32)
      ≡ ok i.bytes
  pub filled : 0 < length i.chunk
  pub limited : Limited o i.chunk
  pub position : i.entry.position ≡ pos
  pub record_length : i.entry.record_length ≡ length i.bytes
  pub header : RecordHeader
  pub parsed : RecordHeader.parse (take 56 i.bytes) ≡ ok header
  pub event_count : i.entry.event_count ≡ header.event_count
  pub first_word : i.entry.user_word_1 ≡ header.user_word_1
  pub second_word : i.entry.user_word_2 ≡ header.user_word_2

abbrev pub Laid : Format → WriterOptions → ℕ → ℕ → List Item → Type 0
Laid f o pos n [] = Unit {0}
Laid f o pos n (i ∷ is) = Written f o pos n i × Laid f o (pos + length i.bytes) (suc n) is

-- A writer that started on a file `start` and was given the events `evs`.
pub record Tracks (f : Format) (start : Bytes) (w : Writer) (evs : List Bytes) : Type 0 where
  pub items : List Item
  pub pending : List Bytes
  pub all_events : evs ≡ events_of items ++ pending
  pub holds : Holds w.builder pending
  pub laid : Laid f w.opts (length start) 0 items
  pub entries : w.index_entries ≡ map (λ i. i.entry) items
  pub file : w.file ≡ start ++ bytes_of items
  pub cursor : w.cursor ≡ length w.file
  pub limited : Limited w.opts pending
  pub fits : w.opts.max_record_events < 2 ^ 32
  pub at_start : w.file_header_offset ≡ 0
  pub unfinished : w.finished ≡ false

pub Laid-append :
    (f : Format) (o : WriterOptions) (pos n : ℕ) (is : List Item) (i : Item)
    → Laid f o pos n is
    → Written f o (pos + length (bytes_of is)) (n + length is) i
    → Laid f o pos n (is ++ (i ∷ []))
Laid-append f o pos n [] i l w =
    let here : pos + 0 ≡ pos = omega arith in
    let index : n + 0 ≡ n = omega arith in
    (subst (λ p. Written f o p n i) here (subst (λ k. Written f o (pos + 0) k i) index w), tt)
Laid-append f o pos n (j ∷ is) i (wj, l) w =
    let at : pos + length (j.bytes ++ bytes_of is) ≡ pos + length j.bytes + length (bytes_of is) =
      omega (arith, length-append j.bytes (bytes_of is)) in
    let index : n + suc (length is) ≡ suc n + length is = omega arith in
    (
      wj,
      Laid-append f o (pos + length j.bytes) (suc n) is i l (
          subst (λ p. Written f o p (suc n + length is) i) at
            (subst (λ k. Written f o (pos + length (j.bytes ++ bytes_of is)) k i) index w)),
    )

pub events_of-append :
    (is : List Item) (i : Item) → events_of (is ++ (i ∷ [])) ≡ events_of is ++ i.chunk
events_of-append [] i = append-nil i.chunk
events_of-append (j ∷ is) i =
    ap (λ x. j.chunk ++ x) (events_of-append is i)
    ∙ sym (append_assoc j.chunk (events_of is) i.chunk)

pub bytes_of-append :
    (is : List Item) (i : Item) → bytes_of (is ++ (i ∷ [])) ≡ bytes_of is ++ i.bytes
bytes_of-append [] i = append-nil i.bytes
bytes_of-append (j ∷ is) i =
    ap (λ x. j.bytes ++ x) (bytes_of-append is i) ∙ sym (append_assoc j.bytes (bytes_of is) i.bytes)
