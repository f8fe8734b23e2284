-- ===== src/Read/Iter/Written.antt =====
-- The events of a finished file, as a reader iterates over them.
use mathlib.Core.List.{append_assoc, append-nil}
use mathlib.Core.Path.{ap₂, subst}
use oxihipo.Prelude.{
  ℕ, suc, ◌+◌, ◌^◌, ◌<◌, ◌≡◌, refl, sym, ap, ◌∙◌, arith, false, List, [], ◌∷◌, ◌++◌, none, Option,
  length, Bytes, ok, ok-injective, >>=-eq-ok,
}
use oxihipo.Wire.Constants.Tags.{Layout}
use oxihipo.Wire.FileHeader.{FileHeader}
use oxihipo.Wire.EventIndex
use oxihipo.Wire.EventIndex.{RecordSpan, FileEventIndex, push}
use oxihipo.Schema.Dict.{Dict}
use oxihipo.Record.Codec.{Backends, Lossless}
use oxihipo.Write.Writer.{WriterOptions, WriteSummary}
use oxihipo.Write.Writer.Tracks.{Item, bytes_of, events_of}
use oxihipo.Write.Writer.Finish.{Finished}
use oxihipo.Write.Writer.Block.{block_format}
use oxihipo.Read.Filter.{Filter}
use oxihipo.Read.Inner.{ReadAt, Serves, build_index}
use oxihipo.Read.Inner.Sound.{AllSmall}
use oxihipo.Read.Inner.Scan.{index_items}
use oxihipo.Read.Inner.Whole.{Finished-Standing, build_index-Finished}
use oxihipo.Read.Iter.{
  FileInner, CurrentRecord, SplitRecords, EventIter, event_count, bound_filter, new,
}
use oxihipo.Read.Iter.Load.{Left}
use oxihipo.Read.Iter.Rounds.{Kept, passes}
use oxihipo.Read.Iter.Ahead.{SpansOf, KeptItems, is_selected}
use oxihipo.Read.Iter.Stream.{Yields, Standing-Yields}

-- The spans of the index that a run of records makes.
index_items-SpansOf :
    (idx : FileEventIndex) (pos : ℕ) (is : List Item)
    → (spans : List RecordSpan) × ((index_items idx pos is).records ≡ idx.records ++ spans)
      × SpansOf pos spans is
unfolding push
index_items-SpansOf idx pos [] = ([], sym (append-nil idx.records), tt)
index_items-SpansOf idx pos (i ∷ is) =
    let span : RecordSpan = record {
      file_offset = pos;
      record_length = length i.bytes;
      event_count = length i.chunk;
      first_event = idx.total_events;
    } in
    let (spans, e, c) =
      index_items-SpansOf (push idx pos (length i.bytes) (length i.chunk)) (pos + length i.bytes)
        is in
    (span ∷ spans, e ∙ append_assoc idx.records (span ∷ []) spans, (refl, c))

length-SpansOf :
    (pos : ℕ) (spans : List RecordSpan) (is : List Item)
    → SpansOf pos spans is
    → length is ≡ length spans
length-SpansOf pos [] [] c = refl
length-SpansOf pos [] (i ∷ is) c = elim c [ ]
length-SpansOf pos (s ∷ spans) [] c = elim c [ ]
length-SpansOf pos (s ∷ spans) (i ∷ is) (at, c) =
    ap suc (length-SpansOf (pos + length i.bytes) spans is c)

-- A file of this path, source, length and dictionary.
abbrev pub file_of : List ℕ → ReadAt → ℕ → Dict → FileEventIndex → FileInner
file_of path src len dict index = record {
  path = path;
  file = src;
  len = len;
  dict = dict;
  index = index;
}

new-fields :
    (inner : FileInner) (d : Dict) (filter : Option Filter) (tags : Option (List ℕ))
    (it : EventIter)
    → new inner d filter tags ≡ ok it
    → (bound : Option Filter) × (it ≡ record {
      inner = inner;
      dict = d;
      filter = bound;
      record_tags = tags;
      cur = CurrentRecord.nothing;
      next_record = 0;
      next_event = 0;
      finished = false;
    })
unfolding new
new-fields inner d filter tags it e =
    let (bound, _, made) = >>=-eq-ok (bound_filter filter inner.dict) _ e in
    (bound, sym (ok-injective made))

Left-nothing : Left CurrentRecord.nothing 0 []
unfolding event_count
Left-nothing = record { count = refl; shows = λ i ev e. cc e }

module _ (b : Backends) (o : WriterOptions) (src : ReadAt) (lossless : Lossless b)
    (chunk : o.compression.layout ≡ Layout.per_chunk) (split : SplitRecords) where
  pub new-Yields :
      (start : Bytes) (evs ks : List Bytes) (summary : WriteSummary) (file : Bytes) (h : FileHeader)
      (idx : FileEventIndex) (path : List ℕ) (dict d : Dict) (filter : Option Filter)
      (tags : Option (List ℕ)) (it : EventIter)
      (fin : Finished (block_format b) o start evs summary file)
      → AllSmall b o.compression fin.items
      → length fin.items < 2 ^ 19
      → Serves src file
      → length file < 2 ^ 63
      → 0 < length start
      → h.header_length + h.user_header_length ≡ length start
      → h.trailer_position ≡ length start + length (bytes_of fin.items)
      → build_index src (length file) b h ≡ ok idx
      → new (file_of path src (length file) dict idx) d filter tags ≡ ok it
      → KeptItems it.filter tags fin.items ks
      → Yields b split it ks
  new-Yields start evs ks summary file h idx path dict d filter tags it fin s few serves small
        some_header first at indexed made kept =
      let st = Finished-Standing b o src lossless chunk start evs summary file fin s few in
      let same : idx ≡ index_items EventIndex.new (length start) fin.items = ok-injective (
        sym indexed
        ∙ build_index-Finished b o src lossless chunk start evs summary file h fin s few serves
            small some_header first at) in
      let (spans, records, covers) = index_items-SpansOf EventIndex.new (length start) fin.items in
      let (bound, fresh) =
        new-fields (file_of path src (length file) dict idx) d filter tags it made in
      let spans_here : idx.records ≡ spans = ap (λ x. x.records) same ∙ records in
      subst (λ x. KeptItems x.filter tags fin.items ks → Yields b split x ks) (sym fresh)
        (λ kept. Standing-Yields b split ks _ (record {
          unfinished = refl;
          es = [];
          these = [];
          others = ks;
          spans = spans;
          items = fin.items;
          left = Left-nothing;
          these_kept = Kept.none_left;
          ahead = record {
            pre = st.head;
            post = fin.trailer;
            at = spans_here;
            covers = subst (λ k. SpansOf k spans fin.items) (sym st.same_length) covers;
            serves = subst (Serves src) st.whole serves;
            len = ap length st.whole;
            small = small;
            placed = st.placed;
          };
          others_kept = kept;
          all = refl;
          few =
              omega
                (arith, length-SpansOf (length start) spans fin.items covers, ap length spans_here);
        }))
        kept

  all-Kept : (evs : List Bytes) → Kept none evs evs
  unfolding passes
  all-Kept [] = Kept.none_left
  all-Kept (ev ∷ evs) = Kept.kept refl (all-Kept evs)

  all-KeptItems : (is : List Item) → KeptItems none none is (events_of is)
  unfolding is_selected
  all-KeptItems [] = KeptItems.none_left
  all-KeptItems (i ∷ is) = KeptItems.selected refl (all-Kept i.chunk) (all-KeptItems is)

  no_filter :
      (inner : FileInner) (d : Dict) (it : EventIter)
      → new inner d none none ≡ ok it
      → it.filter ≡ none
  unfolding new
  no_filter inner d it e = ap (λ x. x.filter) (sym (ok-injective e))

  pub new-Yields_all :
      (start : Bytes) (evs : List Bytes) (summary : WriteSummary) (file : Bytes) (h : FileHeader)
      (idx : FileEventIndex) (path : List ℕ) (dict d : Dict) (it : EventIter)
      (fin : Finished (block_format b) o start evs summary file)
      → AllSmall b o.compression fin.items
      → length fin.items < 2 ^ 19
      → Serves src file
      → length file < 2 ^ 63
      → 0 < length start
      → h.header_length + h.user_header_length ≡ length start
      → h.trailer_position ≡ length start + length (bytes_of fin.items)
      → build_index src (length file) b h ≡ ok idx
      → new (file_of path src (length file) dict idx) d none none ≡ ok it
      → Yields b split it evs
  new-Yields_all start evs summary file h idx path dict d it fin s few serves small some_header
        first at indexed made =
      new-Yields start evs evs summary file h idx path dict d none none it fin s few serves small
        some_header first at indexed made
        (subst (λ (p : Option Filter × List Bytes). KeptItems p.0 none fin.items p.1)
          (ap₂ (λ x y. (x, y)) (sym (no_filter (file_of path src (length file) dict idx) d it made))
            (sym fin.all_events))
          (all-KeptItems fin.items))
