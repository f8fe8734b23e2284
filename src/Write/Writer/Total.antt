-- ===== src/Write/Writer/Total.antt =====
-- The calls of a writer end with a result or an error.
use mathlib.Core.Path.{subst}
use oxihipo.Prelude.{
  ℕ, ◌+◌, ◌^◌, ◌≤◌, ◌<◌, ◌≡◌, ◌≢◌, inl, inr, refl, sym, ap, ◌∙◌, arith, true, false, List, [], ◌∷◌,
  ◌++◌, length, take, drop, Bytes, ok, panic, ◌>>=◌, refuse_if, ltb, if◌then◌else◌, length-append,
  length-take, length-drop, le→leb, le→ltb_false, bit_or, Bool-cases, >>=-ne-panic, ok-ne-panic,
  refuse_if-ne-panic, refuse_if-ok, ok-injective,
}
use oxihipo.Prelude.Bits.{◌<<<◌}
use oxihipo.Wire.Bytes.{le_bytes, copy_at, read_u32_le, write_le, slice}
use oxihipo.Wire.Bytes.Laws.{slice_total, read_le_total, length-le_bytes}
use oxihipo.Wire.RecordHeader
use oxihipo.Wire.RecordHeader.{RecordHeader}
use oxihipo.Wire.RecordHeader.Total.{parse-ne-panic_record}
use oxihipo.Record.Builder.{Compression, is_empty}
use oxihipo.Record.Builder.Slices.{Holds-event_slices}
use oxihipo.Write.Writer.{
  Disk, Reliable, Format, Describes, Writer, next_number, entry_of, is_full, write_record,
  read_exact_u32, flush_record, append_raw, build_trailer_record, write_trailer, finalize, finish,
}
use oxihipo.Write.Writer.Tracks.{Tracks}
use oxihipo.Write.Writer.Steps.{flush_record-Tracks}

pub copy_at_total :
    (buf : Bytes) (off : ℕ) (bs : Bytes)
    → off + length bs ≤ length buf
    → (out : Bytes) × (copy_at buf off bs ≡ ok out) × (length out ≡ length buf)
unfolding copy_at
copy_at_total buf off bs h = (
  take off buf ++ (bs ++ drop (off + length bs) buf),
  rw (le→leb (off + length bs) (length buf) h) refl,
  omega (
    arith,
    length-append (take off buf) (bs ++ drop (off + length bs) buf),
    length-append bs (drop (off + length bs) buf),
    length-take off buf,
    length-drop (off + length bs) buf,
  ),
)

read_exact_u32_there :
    (file : Bytes) (off bits : ℕ)
    → off + 4 ≤ length file
    → read_u32_le file off ≡ ok bits
    → read_exact_u32 file off ≡ ok bits
unfolding read_exact_u32
read_exact_u32_there file off bits room e = rw (le→ltb_false (length file) (off + 4) room) e

-- The disk and the record builder end with a result or an error, where they are used as they should.
pub record IsCalm (d : Disk) (f : Format) : Type 0 where
  pub write_all : (file bs : Bytes) → d.write_all file bs ≢ panic
  pub write_at :
      (file : Bytes) (off : ℕ) (bs : Bytes)
      → off + length bs ≤ length file
      → d.write_at file off bs ≢ panic
  pub build :
      (evs : List Bytes) (u1 u2 : ℕ) (c : Compression) (n : ℕ)
      → length evs < 2 ^ 30
      → f.build evs u1 u2 c n ≢ panic

-- The writer with a record more, and the writer at its end.
abbrev stored : Writer → Bytes → RecordHeader → Bytes → Writer
stored w bytes header file = record w {
  file = file;
  cursor = w.cursor + length bytes;
  index_entries = w.index_entries ++ (entry_of w bytes header ∷ []);
}

abbrev ended : Writer → Writer
ended w = record w { finished = true }

module _ (d : Disk) (reliable : Reliable d) (f : Format) (describes : Describes f)
    (calm : IsCalm d f) where
  write_record-ne-panic : (w : Writer) (given : Bytes) → write_record d f w given ≢ panic
  unfolding write_record write_le
  write_record-ne-panic w given =
      >>=-ne-panic (refuse_if (ltb (length given) 56) _) _ (refuse_if-ne-panic _ _) (λ u long.
        let room : ltb (length given) 56 ≡ false = refuse_if-ok _ _ long in
        let word : Bytes = le_bytes 4 (next_number w) in
        let (numbered, patched, same) =
          copy_at_total given 4 word (ground (arith, room, length-le_bytes 4 (next_number w))) in
        let cut = slice_total numbered 0 56 (omega arith) (ground (arith, room, same)) in
        subst
          (λ x.
            (x >>= λ bytes. do
              hdr ← slice bytes 0 56
              header ← RecordHeader.parse hdr
              file ← d.write_all w.file bytes
              ok (stored w bytes header file))
            ≢ panic)
          (sym patched)
          (subst
            (λ x.
              (x >>= λ hdr. do
                header ← RecordHeader.parse hdr
                file ← d.write_all w.file numbered
                ok (stored w numbered header file))
              ≢ panic)
            (sym cut)
            (>>=-ne-panic (RecordHeader.parse (take 56 numbered)) _
              (parse-ne-panic_record (take 56 numbered))
              (λ header _.
                >>=-ne-panic (d.write_all w.file numbered) _ (calm.write_all w.file numbered)
                  (λ file _. ok-ne-panic _)))))

  flush_record-ne-panic :
      (start : Bytes) (w : Writer) (evs : List Bytes)
      → Tracks f start w evs
      → w.opts.max_record_events < 2 ^ 30
      → flush_record d f w ≢ panic
  unfolding flush_record
  flush_record-ne-panic start w evs t few = elim (Bool-cases (is_empty w.builder)) [
    | inl empty ↦ rw empty (ok-ne-panic w)
    | inr busy ↦
        let sliced = Holds-event_slices w.builder t.pending t.holds in
        rw (busy, sliced)
          (>>=-ne-panic
            (f.build t.pending w.builder.user_word_1 w.builder.user_word_2 w.opts.compression
              (next_number w))
            _ (calm.build t.pending _ _ _ _ (omega (arith, t.limited.few, few)))
            (λ bytes _.
              >>=-ne-panic (write_record d f w bytes) _ (write_record-ne-panic w bytes)
                (λ out _. ok-ne-panic _)))
  ]

  append_raw-ne-panic :
      (start : Bytes) (w : Writer) (evs : List Bytes) (ev : Bytes)
      → Tracks f start w evs
      → w.opts.max_record_events < 2 ^ 30
      → append_raw d f w ev ≢ panic
  unfolding append_raw
  append_raw-ne-panic start w evs ev t few = elim (Bool-cases (is_full w ev)) [
    | inl full ↦ rw full (
        >>=-ne-panic (flush_record d f w) _ (flush_record-ne-panic start w evs t few)
          (λ out _. ok-ne-panic _))
    | inr room ↦ rw room (ok-ne-panic _)
  ]

  write_trailer-ne-panic :
      (start : Bytes) (w : Writer) (evs : List Bytes)
      → Tracks f start w evs
      → 56 ≤ length start
      → write_trailer d f w ≢ panic
  unfolding write_trailer build_trailer_record
  write_trailer-ne-panic start w evs t long =
      >>=-ne-panic (build_trailer_record d f w.index_entries) _ (calm.build _ _ _ _ _ (omega arith))
        (λ trailer _.
          >>=-ne-panic (d.write_all w.file trailer) _ (calm.write_all w.file trailer)
            (λ file1 stored_there.
              let whole : length file1 ≡ length w.file + length trailer =
                ap length (reliable.write_all w.file trailer file1 stored_there)
                ∙ length-append w.file trailer in
              let room : 56 ≤ length w.file =
                omega (arith, ap length t.file, length-append start _, long) in
              >>=-ne-panic (d.write_at file1 (w.file_header_offset + 40) (le_bytes 8 w.cursor)) _
                (calm.write_at file1 _ _
                  (omega (arith, t.at_start, length-le_bytes 8 w.cursor, whole, room)))
                (λ file2 placed.
                  let (out, copied, same) =
                    copy_at_total file1 (w.file_header_offset + 40) (le_bytes 8 w.cursor)
                      (omega (arith, t.at_start, length-le_bytes 8 w.cursor, whole, room)) in
                  let file2_is : file2 ≡ out =
                    ok-injective (sym (reliable.write_at file1 _ _ file2 placed) ∙ copied) in
                  let long2 : 56 ≤ length file2 =
                    omega (arith, ap length file2_is, same, whole, room) in
                  let (bits, read) =
                    read_le_total 4 file2 (w.file_header_offset + 20)
                      (omega (arith, t.at_start, long2)) in
                  rw
                    (read_exact_u32_there file2 (w.file_header_offset + 20) bits
                      (omega (arith, t.at_start, long2)) read)
                    (>>=-ne-panic
                      (d.write_at file2 (w.file_header_offset + 20)
                        (le_bytes 4 (bit_or bits (1 <<< 10))))
                      _
                      (calm.write_at file2 _ _ (
                        omega
                          (arith, t.at_start, length-le_bytes 4 (bit_or bits (1 <<< 10)), long2)))
                      (λ file3 _. ok-ne-panic _)))))

  finalize-ne-panic :
      (start : Bytes) (w : Writer) (evs : List Bytes)
      → Tracks f start w evs
      → w.opts.max_record_events < 2 ^ 30
      → 56 ≤ length start
      → finalize d f w ≢ panic
  unfolding finalize
  finalize-ne-panic start w evs t few long =
      subst
        (λ b.
          (if b
            then ok w
            else (flush_record d f w >>= λ flushed.
                write_trailer d f flushed >>= λ closed. ok (ended closed)))
          ≢ panic)
        (sym t.unfinished)
        (>>=-ne-panic (flush_record d f w) _ (flush_record-ne-panic start w evs t few)
          (λ flushed ran.
            let (t', empty, opts) =
              flush_record-Tracks d reliable f describes start w flushed evs t ran in
            >>=-ne-panic (write_trailer d f flushed) _
              (write_trailer-ne-panic start flushed evs t' long) (λ closed _. ok-ne-panic _)))

  -- No call on a writer that stands as successful calls leave it aborts the process: appending an
  -- event, flushing and finishing return or give an error. The events appended before are shorter than
  -- 4 GiB, the file began with a header of 56 bytes, the options allow fewer than 2^30 events to a
  -- record, and the disk and the record builder do not abort.
  pub calls-ne-panic :
      (start : Bytes) (w : Writer) (evs : List Bytes) (ev : Bytes)
      → Tracks f start w evs
      → w.opts.max_record_events < 2 ^ 30
      → 56 ≤ length start
      → (append_raw d f w ev ≢ panic) × (flush_record d f w ≢ panic) × (finish d f w ≢ panic)
  unfolding finish
  calls-ne-panic start w evs ev t few long = (
    append_raw-ne-panic start w evs ev t few,
    flush_record-ne-panic start w evs t few,
    >>=-ne-panic (finalize d f w) _ (finalize-ne-panic start w evs t few long)
        (λ done _. ok-ne-panic _),
  )
