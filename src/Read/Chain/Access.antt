-- ===== src/Read/Chain/Access.antt =====
-- An event of a finished file, by its number.
use mathlib.Core.List.{append_assoc}
use mathlib.Core.Path.{ap₂, subst}
use oxihipo.Prelude.{
  ℕ, zero, suc, ◌+◌, ◌-◌, ◌%◌, ◌^◌, ◌<◌, ◌≡◌, refl, sym, ap, ◌∙◌, arith, List, [], ◌∷◌, ◌++◌, none,
  some, Option, leb, length, get_elem?, Bytes, ok, ok-injective, lt→leb_false, length-append,
}
use oxihipo.Wire.Bytes.{slice}
use oxihipo.Wire.Constants.Tags.{Layout}
use oxihipo.Wire.FileHeader.{FileHeader}
use oxihipo.Wire.EventIndex
use oxihipo.Wire.EventIndex.{RecordSpan, FileEventIndex, index, locate, partition_point}
use oxihipo.Wire.EventIndex.Invariant.{new-IsValid}
use oxihipo.Wire.EventIndex.Locate.{locate_at}
use oxihipo.Schema.Dict.{Dict}
use oxihipo.Record.Codec.{Backends, Lossless}
use oxihipo.Record.Decode.{data_section_offset}
use oxihipo.Write.Writer.{WriterOptions, WriteSummary}
use oxihipo.Write.Writer.Tracks.{bytes_of, events_of}
use oxihipo.Write.Writer.Finish.{Finished}
use oxihipo.Write.Writer.Block.{block_format}
use oxihipo.Read.Inner.{ReadAt, Serves, read_record_into, build_index}
use oxihipo.Read.Inner.Sound.{Readable, AllSmall, AllPlaced}
use oxihipo.Read.Inner.Scan.{index_items}
use oxihipo.Read.Inner.Finished.{read_record_into-Readable}
use oxihipo.Read.Inner.Whole.{Finished-Standing, build_index-Finished}
use oxihipo.Read.Inner.Lookup.{get_elem?-lt, index_items-IsValid, find_event_new}
use oxihipo.Read.Iter.{SplitRecords, OwnedEvent, event_bytes}
use oxihipo.Read.Iter.Load.{decode_record_into-Readable, event-parts, slice_inside}
use oxihipo.Read.Iter.Written.{file_of}
use oxihipo.Read.Chain.{
  CachedRecord, RecordCache, offsets_from, from_inners, last_by, handed_out, hot, decode_cached,
  fetch, serve_fetched, serve, serve_located, event_of_file, event_in, event,
}
use oxihipo.Read.Chain.Cache.{index-some}

-- The events of a record that was decoded.
handed_out-Readable :
    (b : Backends) (split : SplitRecords) (bytes : Bytes) (evs : List Bytes) (d : Dict)
    (r : Readable b bytes evs)
    → length evs < 2 ^ 30
    → (cached : CachedRecord) × (decode_cached b split r.header.compression bytes d ≡ ok cached)
      × ((j : ℕ) (ev : Bytes)
          → get_elem? evs j ≡ some ev
          → (o : OwnedEvent) × (handed_out cached j ≡ ok (some o))
            × (event_bytes b split o ≡ ok ev))
unfolding decode_cached handed_out event_bytes
handed_out-Readable b split bytes evs d r few = (
  CachedRecord.bytes r.loaded.payload r.loaded.event_offsets (data_section_offset r.header),
  rw (r.not_by_bank, r.not_per_column, decode_record_into-Readable b bytes evs d r few) refl,
  λ j ev e. one j ev e,
)
  where
    one :
        (j : ℕ) (ev : Bytes)
        → get_elem? evs j ≡ some ev
        → (o : OwnedEvent) × (handed_out
              (CachedRecord.bytes r.loaded.payload r.loaded.event_offsets
                (data_section_offset r.header))
              j
            ≡ ok (some o))
          × (event_bytes b split o ≡ ok ev)
    one j ev e =
        let (lo, hi, first, second, cut, there) =
          event-parts r.loaded j ev (r.events j ∙ ap ok e) in
        let same : data_section_offset r.loaded.header ≡ data_section_offset r.header =
          ap (λ h. data_section_offset h) r.loaded_header in
        let (up, inside) =
          slice_inside r.loaded.payload (data_section_offset r.loaded.header + lo)
            (data_section_offset r.loaded.header + hi) ev cut in
        (
          OwnedEvent.in_payload r.loaded.payload ((data_section_offset r.header + lo) % 2 ^ 32)
              ((data_section_offset r.header + hi) % 2 ^ 32),
          rw (lt→leb_false (length r.loaded.event_offsets) (j + 1) there, first, second) refl,
          ap₂ (slice r.loaded.payload) {x = (data_section_offset r.header + lo) % 2 ^ 32}
                {y = data_section_offset r.loaded.header + lo} (omega (arith, same, r.payload_fits))
                (omega (arith, same, r.payload_fits))
              ∙ cut,
        )

-- The one file of a chain holds the numbers below its total.
last_by-first : (g t : ℕ) → g < t → last_by g (0 ∷ t ∷ []) ≡ some 0
unfolding partition_point
last_by-first g t h =
    let counted : partition_point (λ o. leb o g) (0 ∷ t ∷ []) ≡ 1 = ground arith in
    ap (λ n. elim n [ zero ↦ none | suc i ↦ some i ]) counted

module _ (b : Backends) (o : WriterOptions) (src : ReadAt) (lossless : Lossless b)
    (chunk : o.compression.layout ≡ Layout.per_chunk) (split : SplitRecords) where
  pub event-Finished :
      (start : Bytes) (evs : List Bytes) (summary : WriteSummary) (file : Bytes) (h : FileHeader)
      (idx : FileEventIndex) (path : List ℕ) (dict d : Dict) (g : ℕ) (ev : Bytes)
      (fin : Finished (block_format b) o start evs summary file)
      → AllSmall b o.compression fin.items
      → length fin.items < 2 ^ 19
      → length evs < 2 ^ 64
      → Serves src file
      → length file < 2 ^ 63
      → 0 < length start
      → h.header_length + h.user_header_length ≡ length start
      → h.trailer_position ≡ length start + length (bytes_of fin.items)
      → build_index src (length file) b h ≡ ok idx
      → get_elem? evs g ≡ some ev
      → (owned : OwnedEvent) × (cache : Option RecordCache) × (event b split
            (from_inners (file_of path src (length file) dict idx ∷ []) d)
            g
          ≡ ok (some owned, cache))
        × (event_bytes b split owned ≡ ok ev)
  unfolding event from_inners offsets_from event_in event_of_file serve_located hot serve
      serve_fetched fetch
  event-Finished start evs summary file h idx path dict d g ev fin s few fewer serves small
        some_header first at indexed e =
      let st = Finished-Standing b o src lossless chunk start evs summary file fin s few in
      let same : idx ≡ index_items EventIndex.new (length start) fin.items = ok-injective (
        sym indexed
        ∙ build_index-Finished b o src lossless chunk start evs summary file h fin s few serves
            small some_header first at) in
      let placed : AllPlaced b (length start) fin.items =
        subst (λ k. AllPlaced b k fin.items) st.same_length st.placed in
      let count : length (events_of fin.items) < 2 ^ 64 =
        subst (λ l. length l < 2 ^ 64) fin.all_events fewer in
      let (valid, total) =
        index_items-IsValid b EventIndex.new (length start) fin.items placed new-IsValid
          (omega (arith, count)) in
      let l =
        find_event_new b (length start) fin.items g ev placed count
          (ap (λ x. get_elem? x g) (sym fin.all_events) ∙ e) in
      let found : locate idx g ≡ ok (some (l.number, l.local)) =
        ap (λ x. locate x g) same
        ∙ ap (locate (index_items EventIndex.new (length start) fin.items))
            {y = l.span.first_event + l.local} (omega (arith, l.sums))
        ∙ locate_at (index_items EventIndex.new (length start) fin.items) l.number l.local l.span
            valid l.at l.inside in
      let below : g < length evs = get_elem?-lt evs g ev e in
      let r : Readable b l.item.bytes l.item.chunk = l.placed.readable in
      let pre : Bytes = st.head ++ l.pre in
      let post : Bytes = l.post ++ fin.trailer in
      let content : file ≡ pre ++ (l.item.bytes ++ post) =
        st.whole ∙ ap (λ x. st.head ++ (x ++ fin.trailer)) l.bytes ∙ simp append_assoc in
      let place : l.span.file_offset ≡ length pre =
        omega (arith, l.offset, st.same_length, length-append st.head l.pre) in
      let read =
        ap (λ k. read_record_into src (length file) k) place
        ∙ read_record_into-Readable src (length file) b pre l.item.bytes post l.item.chunk
            (subst (Serves src) content serves) (ap length content) small r in
      let (cached, decoded, handed) =
        handed_out-Readable b split l.item.bytes l.item.chunk d r l.placed.few in
      let (owned, out, shown) = handed l.local ev l.event in
      let records : index idx.records l.number ≡ ok l.span =
        index-some idx.records l.number l.span
          (ap (λ x. get_elem? x.records l.number) same ∙ l.at) in
      let all : idx.total_events ≡ length evs =
        omega (arith, ap (λ x. x.total_events) same, total, ap length fin.all_events) in
      let offset : (0 + idx.total_events) % 2 ^ 64 ≡ length evs = omega (arith, all, fewer) in
      let number : (g + 2 ^ 64 - 0) % 2 ^ 64 ≡ g = omega (arith, below, fewer) in
      (
        owned,
        some (record { file_idx = 0; rec_idx = l.number; decoded = cached }),
        rw (offset, last_by-first g (length evs) below, number, found, records, read, decoded, out)
            refl,
        shown,
      )
