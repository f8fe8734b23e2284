-- ===== src/Read/Inner/Salvage.antt =====
-- The salvage of a finished file, whose header is not trusted.
use mathlib.Core.List.{append_assoc, append-nil}
use mathlib.Core.Path.{subst}
use oxihipo.Prelude.{
  ℕ, ◌+◌, ◌*◌, ◌^◌, ◌<◌, ◌≡◌, refl, sym, ap, ◌∙◌, inl, arith, true, List, [], ◌∷◌, ◌++◌, map, some,
  length, Bytes, ok, length-append, length-map,
}
use oxihipo.Wire.Constants.Tags.{Layout}
use oxihipo.Wire.EventIndex.{RecordSpan, FileEventIndex, push, pop, new}
use oxihipo.Wire.EventIndex.Invariant.{pop-append, pop_last-push, new-IsValid}
use oxihipo.Record.Codec.{Backends, Lossless}
use oxihipo.Event.Structures.{has}
use oxihipo.Write.Writer.{IndexEntry, WriterOptions, WriteSummary, trailer_event}
use oxihipo.Write.Writer.Tracks.{Item, bytes_of, bytes_of-append, events_of}
use oxihipo.Write.Writer.Finish.{Finished}
use oxihipo.Write.Writer.Block.{block_format}
use oxihipo.Write.Writer.Trailer.{find-trailer_event}
use oxihipo.Read.Inner.{
  ReadAt, Serves, read_record_into, build_index_by_scanning, holds_file_index, drop_trailer,
  salvage_index,
}
use oxihipo.Read.Inner.Sound.{Readable, Placed, AllPlaced, AllSmall, AllPlaced-AllFramed}
use oxihipo.Read.Inner.Scan.{index_items}
use oxihipo.Read.Inner.Ends.{scan-short}
use oxihipo.Read.Inner.Rows.{length-trailer_rows}
use oxihipo.Read.Inner.Finished.{read_record_into-Readable}
use oxihipo.Read.Inner.Lookup.{index_items-IsValid}
use oxihipo.Read.Inner.Whole.{Finished-Standing}

-- The trailer as the record that a walk takes it for.
abbrev trailer_item :
    {b : Backends} {trailer : Bytes} {evs : List Bytes} → ℕ → Readable b trailer evs → Item
trailer_item {trailer = trailer} {evs} pos r = record {
  chunk = evs;
  user_word_1 = r.header.user_word_1;
  user_word_2 = 0;
  bytes = trailer;
  entry = record {
    position = pos;
    record_length = length trailer;
    event_count = length evs;
    user_word_1 = 0;
    user_word_2 = 0;
  };
}

AllPlaced-append :
    (b : Backends) (pos : ℕ) (is : List Item) (i : Item)
    → AllPlaced b pos is
    → Placed b (pos + length (bytes_of is)) i
    → AllPlaced b pos (is ++ (i ∷ []))
AllPlaced-append b pos [] i ps p =
    (subst (λ k. Placed b k i) {x = pos + 0} {y = pos} (omega arith) p, tt)
AllPlaced-append b pos (j ∷ is) i (q, ps) p = (
  q,
  AllPlaced-append b (pos + length j.bytes) is i ps (
      subst (λ k. Placed b k i) {x = pos + length (bytes_of (j ∷ is))}
        {y = pos + length j.bytes + length (bytes_of is)}
        (omega (arith, length-append j.bytes (bytes_of is))) p),
)

index_items-append :
    (idx : FileEventIndex) (pos : ℕ) (is : List Item) (i : Item)
    → index_items idx pos (is ++ (i ∷ []))
      ≡ push (index_items idx pos is) (pos + length (bytes_of is)) (length i.bytes) (length i.chunk)
index_items-append idx pos [] i =
    ap (λ k. push idx k (length i.bytes) (length i.chunk)) {x = pos} {y = pos + 0} (omega arith)
index_items-append idx pos (j ∷ is) i =
    let idx' : FileEventIndex = push idx pos (length j.bytes) (length j.chunk) in
    index_items-append idx' (pos + length j.bytes) is i
    ∙ ap
        (λ k. push (index_items idx' (pos + length j.bytes) is) k (length i.bytes) (length i.chunk))
        {x = pos + length j.bytes + length (bytes_of is)} {y = pos + length (bytes_of (j ∷ is))}
        (omega (arith, length-append j.bytes (bytes_of is)))

has-trailer_event :
    (es : List IndexEntry) → length es < 2 ^ 19 → has (trailer_event es) 32111 1 ≡ ok true
unfolding has
has-trailer_event es few =
    rw (find-trailer_event es (32 * length es) (length-trailer_rows es) (omega (arith, few))) refl

pop-push :
    (idx : FileEventIndex) (pos len n : ℕ)
    → (before : List RecordSpan) × (last : RecordSpan) × (pop (push idx pos len n).records
        ≡ some (before, last))
      × (last.file_offset ≡ pos)
unfolding push
pop-push idx pos len n = (_, _, pop-append idx.records _, refl)

module _ (b : Backends) (src : ReadAt) (file_len : ℕ) (small : file_len < 2 ^ 63)
    (start trailer : Bytes) (is : List Item) (es : List IndexEntry)
    (s : Serves src (start ++ (bytes_of is ++ trailer)))
    (whole : file_len ≡ length (start ++ (bytes_of is ++ trailer)))
    (r : Readable b trailer (trailer_event es ∷ [])) (few : length es < 2 ^ 19) where
  holds_file_index-trailer :
      holds_file_index src file_len b (length start + length (bytes_of is)) ≡ ok true
  unfolding holds_file_index
  holds_file_index-trailer =
      let pre : Bytes = start ++ bytes_of is in
      let same : start ++ (bytes_of is ++ trailer) ≡ pre ++ (trailer ++ []) =
        simp (append_assoc, append-nil) in
      let read =
        ap (read_record_into src file_len) (sym (length-append start (bytes_of is)))
        ∙ read_record_into-Readable src file_len b pre trailer [] (trailer_event es ∷ [])
            (subst (Serves src) same s) (whole ∙ ap length same) small r in
      rw (read, r.loads, r.events 0, has-trailer_event es few) refl

  salvaged :
      AllPlaced b (length start) is
      → 0 < length start
      → length (events_of is) < 2 ^ 63
      → salvage_index src file_len b (length start) ≡ ok (index_items new (length start) is)
  unfolding salvage_index drop_trailer
  salvaged ps some_start count =
      let at : ℕ = length start + length (bytes_of is) in
      let i : Item = trailer_item at r in
      let last : Placed b at i = record {
        readable = r;
        tagged = refl;
        filled = omega arith;
        few = omega arith;
        position = refl;
        record_length = refl;
        event_count = refl;
      } in
      let same : start ++ (bytes_of is ++ trailer) ≡ start ++ (bytes_of (is ++ (i ∷ [])) ++ []) =
        ap (λ x. start ++ x)
          (sym (bytes_of-append is i) ∙ sym (append-nil (bytes_of (is ++ (i ∷ []))))) in
      let idx : FileEventIndex = index_items new (length start) is in
      let scanned : build_index_by_scanning src file_len (length start) 0 true
          ≡ ok (push idx at (length trailer) 1) =
        scan-short src file_len 0 true small start [] (is ++ (i ∷ [])) (subst (Serves src) same s)
          (whole ∙ ap length same)
          (AllPlaced-AllFramed b (length start) (is ++ (i ∷ []))
            (AllPlaced-append b (length start) is i ps last))
          (inl some_start) (omega arith)
        ∙ ap ok (index_items-append new (length start) is i) in
      let (before, end, popped, place) = pop-push idx at (length trailer) 1 in
      let (valid, total) =
        index_items-IsValid b new (length start) is ps new-IsValid (omega (arith, count)) in
      rw (scanned, popped, place, holds_file_index-trailer)
        (ap ok
          (pop_last-push idx at (length trailer) 1 (omega arith) (omega (arith, total, count))))

-- A salvage of a finished file finds the same records as the opening of the file does: the walk,
-- which is not told where the trailer is, takes the trailer for a record of one event, and this last
-- record is recognised by what it holds and dropped. There are less than 2^63 events, the walk
-- starts at the first record, which is not at offset 0, and the file was finished by a writer of one-block records.
-- Its records are whole ones, the codec libraries decode what they encoded, and zstd, where it is used,
-- has made no stream so short that a reader refuses it. Each record is below 1 GiB, its index and
-- events below 4 GiB, and its user words fit 64 bits; there are less than 2^19 records, and the file
-- is shorter than 2^63 bytes.
pub salvage_index-Finished :
    (b : Backends) (o : WriterOptions) (src : ReadAt) (start : Bytes) (evs : List Bytes)
    (summary : WriteSummary) (file : Bytes)
    → Lossless b
    → o.compression.layout ≡ Layout.per_chunk
    → (fin : Finished (block_format b) o start evs summary file)
    → AllSmall b o.compression fin.items
    → length fin.items < 2 ^ 19
    → length evs < 2 ^ 63
    → Serves src file
    → length file < 2 ^ 63
    → 0 < length start
    → salvage_index src (length file) b (length start)
      ≡ ok (index_items new (length start) fin.items)
salvage_index-Finished b o src start evs summary file lossless chunk fin s few fewer serves small
      some_start =
    let st = Finished-Standing b o src lossless chunk start evs summary file fin s few in
    ap (salvage_index src (length file) b) (sym st.same_length)
    ∙ salvaged b src (length file) small st.head fin.trailer fin.items
        (map (λ i. i.entry) fin.items) (subst (Serves src) st.whole serves) (ap length st.whole)
        st.readable (omega (arith, few, length-map (λ (i : Item). i.entry) fin.items)) st.placed
        (omega (arith, some_start, st.same_length))
        (subst (λ l. length l < 2 ^ 63) fin.all_events fewer)
    ∙ ap (λ k. ok (index_items new k fin.items)) st.same_length
