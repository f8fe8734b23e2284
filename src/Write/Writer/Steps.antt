-- ===== src/Write/Writer/Steps.antt =====
-- Appending and flushing keep what the writer stands for.
use mathlib.Core.List.{append_assoc, append-nil}
use mathlib.Core.Path.{subst}
use oxihipo.Prelude.{
  ◌+◌, ◌%◌, ◌^◌, ◌≡◌, inl, refl, sym, ap, ◌∙◌, arith, true, false, List, [], ◌∷◌, ◌++◌, length,
  take, Bytes, ok, ◌>>=◌, ltb, length-append, length-map, >>=-eq-ok, ok-injective, refuse_if,
  refuse_if-ok,
}
use oxihipo.Wire.Bytes.{slice, write_u32_le}
use oxihipo.Wire.Bytes.Laws.{slice_total}
use oxihipo.Wire.RecordHeader
use oxihipo.Wire.RecordHeader.{RecordHeader}
use oxihipo.Record.Builder
use oxihipo.Record.Builder.{
  RecordBuilder, add_event, event_slices, estimated_payload_size, total_data, is_empty,
}
use oxihipo.Record.Builder.Slices.{map-append, Holds, reset-Holds, Holds-event_slices}
use oxihipo.Write.Writer.{
  Disk, Reliable, Format, Describes, Writer, next_number, entry_of, write_record, flush_record,
}
use oxihipo.Write.Writer.Tracks.{
  Item, events_of, bytes_of, Limited, Written, Tracks, Laid-append, events_of-append,
  bytes_of-append,
}

abbrev reset_in : Writer → Writer
reset_in w = record w { builder = Builder.reset w.builder }

module _ (d : Disk) (reliable : Reliable d) (f : Format) (describes : Describes f) where
  -- What a record that was written leaves in the writer.
  record Stored (w : Writer) (bytes : Bytes) (out : Writer) : Type 0 where
    header : RecordHeader
    parsed : RecordHeader.parse (take 56 bytes) ≡ ok header
    result : out ≡ record w {
      file = w.file ++ bytes;
      cursor = w.cursor + length bytes;
      index_entries = w.index_entries ++ (entry_of w bytes header ∷ []);
    }

  write_record-Stored :
      (w out : Writer) (bytes : Bytes)
      → write_u32_le bytes 4 (next_number w) ≡ ok bytes
      → write_record d f w bytes ≡ ok out
      → Stored w bytes out
  unfolding write_record
  write_record-Stored w out bytes same e =
      let (u, long, e1) = >>=-eq-ok (refuse_if (ltb (length bytes) 56) _) _ e in
      let (numbered, patched, e2) = >>=-eq-ok (write_u32_le bytes 4 (next_number w)) _ e1 in
      let (hdr, cut, e3) = >>=-eq-ok (slice numbered 0 56) _ e2 in
      let (header, parsed, e4) = >>=-eq-ok (RecordHeader.parse hdr) _ e3 in
      let (file, stored, e5) = >>=-eq-ok (d.write_all w.file numbered) _ e4 in
      let eq : numbered ≡ bytes = ok-injective (sym patched ∙ same) in
      let room : ltb (length bytes) 56 ≡ false = refuse_if-ok _ _ long in
      let there : hdr ≡ take 56 numbered =
        ok-injective (
          sym cut ∙ slice_total numbered 0 56 (omega arith) (ground (arith, room, ap length eq))) in
      subst (λ x. Stored w x out) eq
        (record {
          header = header;
          parsed = ap RecordHeader.parse (sym there) ∙ parsed;
          result =
              sym (ok-injective e5)
              ∙ ap
                  (λ x. record w {
                    file = x;
                    cursor = w.cursor + length numbered;
                    index_entries = w.index_entries ++ (entry_of w numbered header ∷ []);
                  })
                  (reliable.write_all w.file numbered file stored);
        })

  -- The record that a flush writes.
  abbrev item_of :
      (w : Writer) (pending : List Bytes) (bytes : Bytes) (header : RecordHeader) → Item
  item_of w pending bytes header = record {
    chunk = pending;
    user_word_1 = w.builder.user_word_1;
    user_word_2 = w.builder.user_word_2;
    bytes = bytes;
    entry = entry_of w bytes header;
  }

  busy :
      (rb : RecordBuilder) (ev : Bytes) (evs : List Bytes)
      → Holds rb (ev ∷ evs)
      → is_empty rb ≡ false
  busy rb ev evs h = ground (arith, ap length h.lengths)

  flush_record-parts :
      (w out : Writer) (ev : Bytes) (evs : List Bytes)
      → Holds w.builder (ev ∷ evs)
      → flush_record d f w ≡ ok out
      → (bytes : Bytes) × (written : Writer) × (f.build
            (ev ∷ evs)
            w.builder.user_word_1
            w.builder.user_word_2
            w.opts.compression
            (next_number w)
          ≡ ok bytes)
        × Stored w bytes written
        × (out ≡ record written { builder = Builder.reset written.builder })
  unfolding flush_record
  flush_record-parts w out ev evs h e =
      let started : (do
        events ← event_slices w.builder
        bytes ←
            f.build events w.builder.user_word_1 w.builder.user_word_2 w.opts.compression
              (next_number w)
        written ← write_record d f w bytes
        ok (record written { builder = Builder.reset written.builder }))
          ≡ ok out =
        sym (rw (busy w.builder ev evs h) refl) ∙ e in
      let (events, sliced, e1) = >>=-eq-ok (event_slices w.builder) _ started in
      let (bytes, built, e2) = >>=-eq-ok (f.build events _ _ _ _) _ e1 in
      let (written, stored, e3) = >>=-eq-ok (write_record d f w bytes) _ e2 in
      let same : events ≡ ev ∷ evs =
        ok-injective (sym sliced ∙ Holds-event_slices w.builder (ev ∷ evs) h) in
      let built_here =
        ap
          (λ x.
            f.build x w.builder.user_word_1 w.builder.user_word_2 w.opts.compression
              (next_number w))
          (sym same)
        ∙ built in
      (
        bytes,
        written,
        built_here,
        write_record-Stored w written bytes (describes.numbered _ _ _ _ _ bytes built_here) stored,
        sym (ok-injective e3),
      )

  -- A flushed writer: the same events, none of them pending.
  abbrev pub Flushed : Bytes → Writer → List Bytes → Writer → Type 0
  Flushed start w evs out = (t : Tracks f start out evs) × (t.pending ≡ []) × (out.opts ≡ w.opts)

  number_of :
      {start : Bytes} (w : Writer) {evs : List Bytes} (t : Tracks f start w evs)
      → length w.index_entries ≡ 0 + length t.items
  number_of w t = omega (arith, ap length t.entries, length-map (λ i. i.entry) t.items)

  item_of-Written :
      {start : Bytes} (w : Writer) {evs : List Bytes} (t : Tracks f start w evs) (ev bytes : Bytes)
      (more : List Bytes) (header : RecordHeader)
      → t.pending ≡ ev ∷ more
      → f.build
          (ev ∷ more)
          w.builder.user_word_1
          w.builder.user_word_2
          w.opts.compression
          (next_number w)
        ≡ ok bytes
      → RecordHeader.parse (take 56 bytes) ≡ ok header
      → Written f w.opts
          (length start + length (bytes_of t.items))
          (0 + length t.items)
          (item_of w (ev ∷ more) bytes header)
  item_of-Written {start} w t ev bytes more header q built parsed = record {
    built =
        ap
          (λ k.
            f.build (ev ∷ more) w.builder.user_word_1 w.builder.user_word_2 w.opts.compression
              ((k % 2 ^ 32 + 1) % 2 ^ 32))
          (sym (number_of w t))
        ∙ built;
    filled = omega arith;
    limited = subst (Limited w.opts) q t.limited;
    position = t.cursor ∙ ap length t.file ∙ length-append start (bytes_of t.items);
    record_length = refl;
    header = header;
    parsed = parsed;
    event_count = refl;
    first_word = refl;
    second_word = refl;
  }

  pub flush_record-Tracks :
      (start : Bytes) (w out : Writer) (evs : List Bytes)
      → Tracks f start w evs
      → flush_record d f w ≡ ok out
      → Flushed start w evs out
  unfolding flush_record
  flush_record-Tracks start w out evs t e = from t.pending refl
    where
      from : (p : List Bytes) → t.pending ≡ p → Flushed start w evs out
      from [] q =
          let empty : is_empty w.builder ≡ true =
            ground (arith, ap length t.holds.lengths, ap length q, length-map length t.pending) in
          let same : w ≡ out = ok-injective (sym (rw empty refl) ∙ e) in
          subst (Flushed start w evs) same (t, q, refl)
      from (ev ∷ more) q =
          let (bytes, written, built, stored, last) =
            flush_record-parts w out ev more (subst (Holds w.builder) q t.holds) e in
          let i : Item = item_of w (ev ∷ more) bytes stored.header in
          let done : Writer = record w {
            file = w.file ++ bytes;
            cursor = w.cursor + length bytes;
            index_entries = w.index_entries ++ (i.entry ∷ []);
            builder = Builder.reset w.builder;
          } in
          let eq : out ≡ done = last ∙ ap reset_in stored.result in
          subst (Flushed start w evs) (sym eq) (
            record {
              items = t.items ++ (i ∷ []);
              pending = [];
              all_events =
                  t.all_events
                  ∙ ap (λ p. events_of t.items ++ p) q
                  ∙ sym (events_of-append t.items i)
                  ∙ sym (append-nil (events_of (t.items ++ (i ∷ []))));
              holds = reset-Holds w.builder;
              laid =
                  Laid-append f w.opts (length start) 0 t.items i t.laid
                    (item_of-Written w t ev bytes more stored.header q built stored.parsed);
              entries =
                  ap (λ x. x ++ (i.entry ∷ [])) t.entries
                  ∙ sym (map-append (λ j. j.entry) t.items (i ∷ []));
              file =
                  ap (λ x. x ++ bytes) t.file
                  ∙ append_assoc start (bytes_of t.items) bytes
                  ∙ ap (λ x. start ++ x) (sym (bytes_of-append t.items i));
              cursor = ap (λ n. n + length bytes) t.cursor ∙ sym (length-append w.file bytes);
              limited = record { few = omega arith; small = inl (omega arith) };
              fits = t.fits;
              at_start = t.at_start;
              unfinished = t.unfinished;
            },
            refl,
            refl,
          )
