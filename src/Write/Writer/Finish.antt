-- ===== src/Write/Writer/Finish.antt =====
-- A finished file.
use mathlib.Core.List.{append_assoc, append-nil}
use mathlib.Core.Path.{ap₂, subst}
use oxihipo.Prelude.{
  ℕ, ◌+◌, ◌-◌, ◌≤◌, ◌≡◌, refl, sym, ap, ◌∙◌, arith, true, List, [], ◌∷◌, ◌++◌, map, length, take,
  drop, Bytes, Result, ok, ◌>>=◌, length-append, length-take, length-drop, length-map,
  take-append-drop, >>=-eq-ok, ok-injective, bit_or, ltb, io, refuse_if,
}
use oxihipo.Prelude.Bits.{◌<<<◌}
use oxihipo.Wire.Bytes.{le_value, le_bytes, copy_at, read_u32_le, write_le}
use oxihipo.Wire.Bytes.Laws.{read_le-append, write_le-append, length-le_bytes}
use oxihipo.Wire.Constants.Tags.{Codec, Layout}
use oxihipo.Record.Builder.{pair}
use oxihipo.Write.Writer.{
  Disk, Reliable, Format, Describes, WriterOptions, Writer, WriteSummary, trailer_event,
  read_exact_u32, total_events, flush_record, build_trailer_record, write_trailer, finalize, finish,
}
use oxihipo.Write.Writer.Tracks.{Item, events_of, bytes_of, Laid, Tracks}
use oxihipo.Write.Writer.Steps.{flush_record-Tracks}

-- A file header around its word of flags and the position of its trailer.
pub record Pieces (start : Bytes) : Type 0 where
  pub before : Bytes
  pub flags : Bytes
  pub between : Bytes
  pub trailer_position : Bytes
  pub rest : Bytes
  pub parts : start ≡ before ++ (flags ++ (between ++ (trailer_position ++ rest)))
  pub length_before : length before ≡ 20
  pub length_flags : length flags ≡ 4
  pub length_between : length between ≡ 16
  pub length_position : length trailer_position ≡ 8

pieces : (start : Bytes) → 56 ≤ length start → Pieces start
pieces start h =
    let tail : Bytes = drop 20 start in
    let tail2 : Bytes = drop 4 tail in
    let tail3 : Bytes = drop 16 tail2 in
    let n1 : length tail ≡ length start - 20 = length-drop 20 start in
    let n2 : length tail2 ≡ length tail - 4 = length-drop 4 tail in
    let n3 : length tail3 ≡ length tail2 - 16 = length-drop 16 tail2 in
    record {
      before = take 20 start;
      flags = take 4 tail;
      between = take 16 tail2;
      trailer_position = take 8 tail3;
      rest = drop 8 tail3;
      parts =
          sym (take-append-drop 20 start)
          ∙ ap (λ x. take 20 start ++ x)
              (sym (take-append-drop 4 tail)
                ∙ ap (λ x. take 4 tail ++ x)
                    (sym (take-append-drop 16 tail2)
                      ∙ ap (λ x. take 16 tail2 ++ x) (sym (take-append-drop 8 tail3))));
      length_before = omega (arith, length-take 20 start, h);
      length_flags = omega (arith, length-take 4 tail, n1, h);
      length_between = omega (arith, length-take 16 tail2, n1, n2, h);
      length_position = omega (arith, length-take 8 tail3, n1, n2, n3, h);
    }

-- The header with the trailer's position and the flag that says there is an index.
abbrev pub patched : {start : Bytes} → Pieces start → ℕ → Bytes → Bytes
patched p position body =
    p.before
    ++ (le_bytes 4 (bit_or (le_value p.flags) (1 <<< 10))
        ++ (p.between ++ (le_bytes 8 position ++ (p.rest ++ body))))

-- The file that a writer leaves which started on `start` and was given `evs`.
pub record Finished (f : Format) (o : WriterOptions) (start : Bytes) (evs : List Bytes)
    (summary : WriteSummary) (file : Bytes) : Type 0 where
  pub items : List Item
  pub trailer : Bytes
  pub header : Pieces start
  pub all_events : evs ≡ events_of items
  pub laid : Laid f o (length start) 0 items
  pub trailer_built :
      f.build
        (trailer_event (map (λ i. i.entry) items) ∷ [])
        0
        0
        (pair Codec.none Layout.per_chunk)
        0
      ≡ ok trailer
  pub content :
      file ≡ patched header (length start + length (bytes_of items)) (bytes_of items ++ trailer)
  pub events : summary.events ≡ total_events (map (λ i. i.entry) items)
  pub records : summary.records ≡ length items
  pub bytes : summary.bytes ≡ length file

length_five :
    (a b c e g : Bytes)
    → length (a ++ (b ++ (c ++ (e ++ g)))) ≡ length a + length b + length c + length e + length g
length_five a b c e g = omega (
  arith,
  length-append a (b ++ (c ++ (e ++ g))),
  length-append b (c ++ (e ++ g)),
  length-append c (e ++ g),
  length-append e g,
)

pub length-patched :
    {start : Bytes} (p : Pieces start) (n : ℕ) (body : Bytes)
    → length (patched p n body) ≡ length start + length body
length-patched {start} p n body =
    let flags : Bytes = le_bytes 4 (bit_or (le_value p.flags) (1 <<< 10)) in
    omega (
      arith,
      length_five p.before flags p.between (le_bytes 8 n) (p.rest ++ body),
      length-append p.rest body,
      ap length p.parts,
      length_five p.before p.flags p.between p.trailer_position p.rest,
      length-le_bytes 4 (bit_or (le_value p.flags) (1 <<< 10)),
      length-le_bytes 8 n,
      p.length_flags,
      p.length_position,
    )

regroup :
    (a b c e g body : Bytes)
    → (a ++ (b ++ (c ++ (e ++ g)))) ++ body ≡ (a ++ (b ++ c)) ++ (e ++ (g ++ body))
regroup a b c e g body = simp append_assoc

back : (a b c e g : Bytes) → (a ++ (b ++ c)) ++ (e ++ g) ≡ a ++ (b ++ (c ++ (e ++ g)))
back a b c e g = simp append_assoc

read_exact_u32-ok :
    (file : Bytes) (off bits : ℕ)
    → read_exact_u32 file off ≡ ok bits
    → read_u32_le file off ≡ ok bits
unfolding read_exact_u32
read_exact_u32-ok file off bits e = (>>=-eq-ok (refuse_if (ltb (length file) (off + 4)) io) _ e).2

-- The states of a writer that is being closed.
abbrev closing : Writer → ℕ → Bytes → Writer
closing w n file = record w { file = file; cursor = n }

abbrev finishing : Writer → Writer
finishing w = record w { finished = true }

abbrev closing_up : Writer → ℕ → Bytes → Writer
closing_up w n file = finishing (closing w n file)

module _ (d : Disk) (reliable : Reliable d) where
  patches :
      {start : Bytes} (p : Pieces start) (n bits : ℕ) (body file2 file3 : Bytes)
      → d.write_at (start ++ body) 40 (le_bytes 8 n) ≡ ok file2
      → read_u32_le file2 20 ≡ ok bits
      → d.write_at file2 20 (le_bytes 4 (bit_or bits (1 <<< 10))) ≡ ok file3
      → file3 ≡ patched p n body
  unfolding write_le
  patches {start} p n bits body file2 file3 first read second =
      let pre : Bytes = p.before ++ (p.flags ++ p.between) in
      let here : start ++ body ≡ pre ++ (p.trailer_position ++ (p.rest ++ body)) =
        ap (λ x. x ++ body) p.parts
        ∙ regroup p.before p.flags p.between p.trailer_position p.rest body in
      let forty : 40 ≡ length pre = omega (
        arith,
        length-append p.before (p.flags ++ p.between),
        length-append p.flags p.between,
        p.length_before,
        p.length_flags,
        p.length_between,
      ) in
      let put : ok file2 ≡ ok (pre ++ (le_bytes 8 n ++ (p.rest ++ body))) =
        sym (reliable.write_at (start ++ body) 40 (le_bytes 8 n) file2 first)
        ∙ ap (λ x. copy_at x 40 (le_bytes 8 n)) here
        ∙ write_le-append 8 pre p.trailer_position (p.rest ++ body) 40 n forty p.length_position in
      let tail : Bytes = p.between ++ (le_bytes 8 n ++ (p.rest ++ body)) in
      let file : file2 ≡ p.before ++ (p.flags ++ tail) =
        ok-injective put ∙ back p.before p.flags p.between (le_bytes 8 n) (p.rest ++ body) in
      let twenty : 20 ≡ length p.before = sym p.length_before in
      let value : bits ≡ le_value p.flags = ok-injective (
        sym read
        ∙ ap (λ x. read_u32_le x 20) file
        ∙ read_le-append 4 p.before p.flags tail 20 twenty p.length_flags) in
      ok-injective (
        sym (reliable.write_at file2 20 (le_bytes 4 (bit_or bits (1 <<< 10))) file3 second)
        ∙ ap₂ (λ x v. copy_at x 20 (le_bytes 4 (bit_or v (1 <<< 10)))) file value
        ∙ write_le-append 4 p.before p.flags tail 20 (bit_or (le_value p.flags) (1 <<< 10)) twenty
            p.length_flags)

module _ (d : Disk) (reliable : Reliable d) (f : Format) (describes : Describes f) where
  -- The trailer is built from the index, put at the end, and the header patched.
  record Closed (start : Bytes) (w : Writer) (evs : List Bytes) (t : Tracks f start w evs)
      (p : Pieces start) (out : Writer) : Type 0 where
    trailer : Bytes
    built : build_trailer_record d f w.index_entries ≡ ok trailer
    result : out ≡ record w {
      file = patched p w.cursor (bytes_of t.items ++ trailer);
      cursor = w.cursor + length trailer;
    }

  write_trailer-Closed :
      (start : Bytes) (w out : Writer) (evs : List Bytes) (t : Tracks f start w evs)
      (p : Pieces start)
      → write_trailer d f w ≡ ok out
      → Closed start w evs t p out
  unfolding write_trailer
  write_trailer-Closed start w out evs t p e =
      let (trailer, built, e1) = >>=-eq-ok (build_trailer_record d f w.index_entries) _ e in
      let (file1, stored, e2) = >>=-eq-ok (d.write_all w.file trailer) _ e1 in
      let (file2, first, e3) =
        >>=-eq-ok (d.write_at file1 (w.file_header_offset + 40) (le_bytes 8 w.cursor)) _ e2 in
      let (bits, exact, e4) = >>=-eq-ok (read_exact_u32 file2 (w.file_header_offset + 20)) _ e3 in
      let read = read_exact_u32-ok file2 (w.file_header_offset + 20) bits exact in
      let (file3, second, e5) =
        >>=-eq-ok
          (d.write_at file2 (w.file_header_offset + 20) (le_bytes 4 (bit_or bits (1 <<< 10)))) _
          e4 in
      let forty : 40 ≡ w.file_header_offset + 40 = omega (arith, t.at_start) in
      let twenty : 20 ≡ w.file_header_offset + 20 = omega (arith, t.at_start) in
      let whole : start ++ (bytes_of t.items ++ trailer) ≡ file1 =
        sym (append_assoc start (bytes_of t.items) trailer)
        ∙ ap (λ x. x ++ trailer) (sym t.file)
        ∙ sym (reliable.write_all w.file trailer file1 stored) in
      let file : file3 ≡ patched p w.cursor (bytes_of t.items ++ trailer) =
        patches d reliable p w.cursor bits (bytes_of t.items ++ trailer) file2 file3
          (ap₂ (λ x k. d.write_at x k (le_bytes 8 w.cursor)) whole forty ∙ first)
          (ap (read_u32_le file2) twenty ∙ read)
          (ap (λ k. d.write_at file2 k (le_bytes 4 (bit_or bits (1 <<< 10)))) twenty ∙ second) in
      record {
        trailer = trailer;
        built = built;
        result = sym (ok-injective e5) ∙ ap (closing w (w.cursor + length trailer)) file;
      }

  finished_by :
      (start : Bytes) (w : Writer) (evs : List Bytes) (t : Tracks f start w evs)
      → t.pending ≡ []
      → (p : Pieces start) (out closed done : Writer) (summary : WriteSummary)
      → Closed start w evs t p out
      → record out { finished = true } ≡ closed
      → ◌≡◌ {A = Result (WriteSummary × Writer)}
          (ok (
            record {
              events = total_events closed.index_entries;
              records = length closed.index_entries;
              bytes = closed.cursor;
            },
            closed,
          ))
          (ok (summary, done))
      → {o : WriterOptions} → w.opts ≡ o
      → Finished f o start evs summary done.file
  unfolding build_trailer_record
  finished_by start w evs t empty p out closed done summary c ended last same =
      let position : w.cursor ≡ length start + length (bytes_of t.items) =
        t.cursor ∙ ap length t.file ∙ length-append start (bytes_of t.items) in
      let state : closed
          ≡ closing_up w (w.cursor + length c.trailer)
              (patched p w.cursor (bytes_of t.items ++ c.trailer)) =
        sym ended ∙ ap finishing c.result in
      let pair_eq = ok-injective last in
      let reported = ap (λ x. x.0) pair_eq in
      let final : done ≡ closed = sym (ap (λ x. x.1) pair_eq) in
      let entries : closed.index_entries ≡ map (λ i. i.entry) t.items =
        ap (λ x. x.index_entries) state ∙ t.entries in
      let content = ap (λ x. x.file) (final ∙ state) in
      subst (λ o. Finished f o start evs summary done.file) same
        (record {
          items = t.items;
          trailer = c.trailer;
          header = p;
          all_events =
              t.all_events
              ∙ ap (λ q. events_of t.items ++ q) empty
              ∙ append-nil (events_of t.items);
          laid = t.laid;
          trailer_built =
              ap (λ es. f.build (trailer_event es ∷ []) 0 0 (pair Codec.none Layout.per_chunk) 0)
                (sym t.entries)
              ∙ c.built;
          content = content ∙ ap (λ n. patched p n (bytes_of t.items ++ c.trailer)) position;
          events = ap (λ x. x.events) (sym reported) ∙ ap total_events entries;
          records =
              ap (λ x. x.records) (sym reported)
              ∙ ap length entries
              ∙ length-map (λ i. i.entry) t.items;
          bytes =
              ap (λ x. x.bytes) (sym reported)
              ∙ ap (λ x. x.cursor) state
              ∙ omega (
                arith,
                position,
                ap length content,
                length-patched p w.cursor (bytes_of t.items ++ c.trailer),
                length-append (bytes_of t.items) c.trailer,
              );
        })

  -- Finishing a writer writes out the events that were pending and closes the file: all the events
  -- that were appended are in its records, in order; the trailer, built from the entries of the
  -- records, stands behind the last of them; the header gives the trailer's position and says that
  -- there is an index, and keeps its other bytes; the summary counts the events of the entries, the
  -- records and the bytes of the file. The disk writes what it says it wrote, and the file began with
  -- a header of 56 bytes.
  pub finish-Finished :
      (start : Bytes) (w done : Writer) (evs : List Bytes) (summary : WriteSummary)
      → 56 ≤ length start
      → Tracks f start w evs
      → finish d f w ≡ ok (summary, done)
      → Finished f w.opts start evs summary done.file
  unfolding finish finalize write_trailer build_trailer_record
  finish-Finished start w done evs summary long t e =
      let (closed, e0, last) = >>=-eq-ok (finalize d f w) _ e in
      let e1 : (do
        flushed ← flush_record d f w
        out ← write_trailer d f flushed
        ok (record out { finished = true }))
          ≡ ok closed =
        sym (rw t.unfinished refl) ∙ e0 in
      let (flushed, ran, e2) = >>=-eq-ok (flush_record d f w) _ e1 in
      let (out, wrote, e3) = >>=-eq-ok (write_trailer d f flushed) _ e2 in
      let (t', empty, opts) =
        flush_record-Tracks d reliable f describes start w flushed evs t ran in
      let c = write_trailer-Closed start flushed out evs t' (pieces start long) wrote in
      let ended : record out { finished = true } ≡ closed = ok-injective e3 in
      finished_by start flushed evs t' empty (pieces start long) out closed done summary c ended
        last opts
