-- ===== src/Read/Inner/Whole.antt =====
-- The file that a writer finished, or that it was killed over, as a reader indexes it.
use mathlib.Core.List.{append_assoc}
use mathlib.Core.Path.{subst}
use oxihipo.Prelude.{
  ℕ, ◌+◌, ◌*◌, ◌^◌, ◌<◌, ◌≡◌, refl, sym, ap, ◌∙◌, arith, Bool, true, List, [], ◌∷◌, ◌++◌, map,
  length, Bytes, ok, length-append, length-map, bit_or, ok-injective,
}
use oxihipo.Prelude.Bits.{◌<<<◌}
use oxihipo.Wire.Bytes.{le_bytes, le_value}
use oxihipo.Wire.Constants.Tags.{Codec, Layout, codec, for_pair}
use oxihipo.Wire.FileHeader.{FileHeader}
use oxihipo.Wire.EventIndex.{new}
use oxihipo.Event.BankBuilder.{concat}
use oxihipo.Record.Codec.{Backends, Lossless, IsPlausible, compress, compress_at, deflate}
use oxihipo.Record.Builder.{Compression, pair, wire_tag, build_single_block_record_bytes}
use oxihipo.Record.Builder.Build.{index_of, build_payload-index, length-payload}
use oxihipo.Write.Writer.{IndexEntry, WriterOptions, WriteSummary, trailer_event}
use oxihipo.Write.Writer.Tracks.{Item, Written, Laid, bytes_of}
use oxihipo.Write.Writer.Finish.{Finished, Pieces, patched, length-patched}
use oxihipo.Write.Writer.Trailer.{length-trailer_event}
use oxihipo.Write.Writer.Block.{block_format, build-Built, length-Built}
use oxihipo.Read.Inner.{
  ReadAt, Serves, build_index_from_trailer, build_index, build_index_by_scanning,
}
use oxihipo.Read.Inner.Sound.{Readable, AllSmall, AllPlaced, Laid-AllPlaced, block-Readable}
use oxihipo.Read.Inner.Framed.{IsBounded, AllBounded, Laid-AllFramed, Written-Framed}
use oxihipo.Read.Inner.Scan.{index_items}
use oxihipo.Read.Inner.Rows.{length-trailer_rows}
use oxihipo.Read.Inner.Finished.{from_trailer, from_records, opened}
use oxihipo.Read.Inner.Cut.{scan-cut}

-- The head of a finished file: its header and what stood behind it before the first record.
abbrev pub head_of : {start : Bytes} → Pieces start → ℕ → Bytes
head_of p position =
    p.before
    ++ (le_bytes 4 (bit_or (le_value p.flags) (1 <<< 10))
        ++ (p.between ++ (le_bytes 8 position ++ p.rest)))

pub patched-parts :
    {start : Bytes} (p : Pieces start) (position : ℕ) (body : Bytes)
    → patched p position body ≡ head_of p position ++ body
patched-parts p position body = simp append_assoc

length-head :
    {start : Bytes} (p : Pieces start) (position : ℕ) → length (head_of p position) ≡ length start
length-head p position = omega (
  arith,
  length-patched p position [],
  ap length (patched-parts p position []),
  length-append (head_of p position) [],
)

layout-pair : (pair Codec.none Layout.per_chunk).layout ≡ Layout.per_chunk
unfolding pair
layout-pair = refl

IsPlausible-pair :
    (b : Backends) (payload : Bytes)
    → IsPlausible b (pair Codec.none Layout.per_chunk).codec 3 payload
unfolding pair
IsPlausible-pair b payload = tt

stored :
    (b : Backends) (payload stream : Bytes)
    → compress b (wire_tag (pair Codec.none Layout.per_chunk)) payload ≡ ok stream
    → stream ≡ payload
unfolding compress compress_at deflate codec for_pair pair
stored b payload stream e = ok-injective (sym e)

-- The trailer of less than 2^19 records is a record that can be read.
trailer-Readable :
    (b : Backends) (es : List IndexEntry) (trailer : Bytes)
    → Lossless b
    → length es < 2 ^ 19
    → build_single_block_record_bytes b
        (trailer_event es ∷ [])
        0
        0
        (pair Codec.none Layout.per_chunk)
        0
      ≡ ok trailer
    → Readable b trailer (trailer_event es ∷ [])
trailer-Readable b es trailer lossless few built =
    let c : Compression = pair Codec.none Layout.per_chunk in
    let evs : List Bytes = trailer_event es ∷ [] in
    let size : length (trailer_event es) ≡ 24 + 32 * length es =
      length-trailer_event es ∙ ap (λ n. 24 + n) (length-trailer_rows es) in
    let p = build-Built b evs 0 0 c 0 trailer built in
    let plain : p.stream ≡ p.payload = stored b p.payload p.stream p.compressed in
    let content : index_of evs ++ concat evs ≡ p.payload =
      ok-injective (sym (build_payload-index evs (omega arith)) ∙ p.packed) in
    (block-Readable b evs 0 0 c 0 trailer lossless layout-pair built (omega (arith, size))
      (IsPlausible-pair b (index_of evs ++ concat evs)) (omega arith) (omega arith) (omega arith)
      (omega (
        arith,
        length-Built p,
        p.measured,
        ap length plain,
        ap length content,
        length-payload evs,
        size,
      ))).0

module _ (b : Backends) (o : WriterOptions) (src : ReadAt) (lossless : Lossless b)
    (chunk : o.compression.layout ≡ Layout.per_chunk) where
  -- The finished file, as it stands: its head, its records and its trailer.
  pub record Standing (start : Bytes) (is : List Item) (trailer file : Bytes) : Type 0 where
    pub head : Bytes
    pub same_length : length head ≡ length start
    pub whole : file ≡ head ++ (bytes_of is ++ trailer)
    pub placed : AllPlaced b (length head) is
    pub readable : Readable b trailer (trailer_event (map (λ i. i.entry) is) ∷ [])

  pub Finished-Standing :
      (start : Bytes) (evs : List Bytes) (summary : WriteSummary) (file : Bytes)
      (fin : Finished (block_format b) o start evs summary file)
      → AllSmall b o.compression fin.items
      → length fin.items < 2 ^ 19
      → Standing start fin.items fin.trailer file
  Finished-Standing start evs summary file fin s few =
      let n : ℕ = length start + length (bytes_of fin.items) in
      let head : Bytes = head_of fin.header n in
      record {
        head = head;
        same_length = length-head fin.header n;
        whole = fin.content ∙ patched-parts fin.header n (bytes_of fin.items ++ fin.trailer);
        placed =
            subst (λ k. AllPlaced b k fin.items) (sym (length-head fin.header n))
              (Laid-AllPlaced b o (length start) 0 fin.items lossless chunk fin.laid s);
        readable =
            trailer-Readable b (map (λ i. i.entry) fin.items) fin.trailer lossless
              (omega (arith, few, length-map (λ (i : Item). i.entry) fin.items)) fin.trailer_built;
      }

  -- A finished file is indexed by its trailer and by a walk over its records alike, with or without
  -- salvage: the index has, for each record that the writer made, in order, its offset, its length
  -- and the number of its events. The file was finished by a writer of one-block
  -- records.
  -- Its records are whole ones, the codec libraries decode what they encoded, and zstd, where it is used,
  -- has made no stream so short that a reader refuses it. Each record is below 1 GiB, its index and
  -- events below 4 GiB, and its user words fit 64 bits; there are less than 2^19 records, and the file
  -- is shorter than 2^63 bytes.
  pub build_index_from_trailer-scanning :
      (start : Bytes) (evs : List Bytes) (summary : WriteSummary) (file : Bytes) (salvage : Bool)
      (fin : Finished (block_format b) o start evs summary file)
      → AllSmall b o.compression fin.items
      → length fin.items < 2 ^ 19
      → Serves src file
      → length file < 2 ^ 63
      → let position = length start + length (bytes_of fin.items) in
        (build_index_from_trailer src (length file) b position (length start)
          ≡ ok (index_items new (length start) fin.items))
        × (build_index_by_scanning src (length file) (length start) position salvage
            ≡ ok (index_items new (length start) fin.items))
  build_index_from_trailer-scanning start evs summary file salvage fin s few serves small =
      let st = Finished-Standing start evs summary file fin s few in
      let n : ℕ = length start + length (bytes_of fin.items) in
      let at : n ≡ length st.head + length (bytes_of fin.items) = omega (arith, st.same_length) in
      let here : Serves src (st.head ++ (bytes_of fin.items ++ fin.trailer)) =
        subst (Serves src) st.whole serves in
      (
        ap (build_index_from_trailer src (length file) b n) (sym st.same_length)
            ∙ from_trailer src (length file) small b st.head fin.trailer fin.items here
                (ap length st.whole) st.placed st.readable few n at
            ∙ ap (λ k. ok (index_items new k fin.items)) st.same_length,
        ap (λ k. build_index_by_scanning src (length file) k n salvage) (sym st.same_length)
            ∙ from_records src (length file) small b st.head fin.trailer fin.items here
                (ap length st.whole) st.placed st.readable few salvage n at
            ∙ ap (λ k. ok (index_items new k fin.items)) st.same_length,
      )

  -- A reader that opens a finished file has the index of its records, when the lengths in the header
  -- lead to the first of them and its trailer position behind the last.
  -- Its records are whole ones, the codec libraries decode what they encoded, and zstd, where it is used,
  -- has made no stream so short that a reader refuses it. Each record is below 1 GiB, its index and
  -- events below 4 GiB, and its user words fit 64 bits; there are less than 2^19 records, and the file
  -- is shorter than 2^63 bytes.
  pub build_index-Finished :
      (start : Bytes) (evs : List Bytes) (summary : WriteSummary) (file : Bytes) (h : FileHeader)
      (fin : Finished (block_format b) o start evs summary file)
      → AllSmall b o.compression fin.items
      → length fin.items < 2 ^ 19
      → Serves src file
      → length file < 2 ^ 63
      → 0 < length start
      → h.header_length + h.user_header_length ≡ length start
      → h.trailer_position ≡ length start + length (bytes_of fin.items)
      → build_index src (length file) b h ≡ ok (index_items new (length start) fin.items)
  build_index-Finished start evs summary file h fin s few serves small some_header first at =
      let st = Finished-Standing start evs summary file fin s few in
      opened src (length file) small b st.head fin.trailer fin.items
        (subst (Serves src) st.whole serves) (ap length st.whole) st.placed st.readable few h
        (omega (arith, first, st.same_length)) (omega (arith, st.same_length))
        (omega (arith, at, st.same_length))
      ∙ ap (λ k. ok (index_items new k fin.items)) st.same_length

-- A writer that was killed in a record has left the records before it: when a file ends inside a
-- record, wherever that is, the salvage walk finds exactly the records before it; no position of a
-- trailer was written, and the first record is not at offset 0. The writer makes one-block records,
-- with any codec, lossless or not; each record is below 1 GiB and has less than 2^30 events, the user words fit 64 bits, and
-- the file is shorter than 2^63 bytes.
pub build_index_by_scanning-cut :
    (b : Backends) (o : WriterOptions) (src : ReadAt) (start part lost file : Bytes)
    (is : List Item) (i : Item)
    → Laid (block_format b) o (length start) 0 is
    → AllBounded is
    → Written (block_format b) o (length start + length (bytes_of is)) (length is) i
    → IsBounded i
    → i.bytes ≡ part ++ lost
    → 0 < length lost
    → 0 < length start
    → file ≡ start ++ (bytes_of is ++ part)
    → Serves src file
    → length file < 2 ^ 63
    → build_index_by_scanning src (length file) (length start) 0 true
      ≡ ok (index_items new (length start) is)
build_index_by_scanning-cut b o src start part lost file is i laid s w si parts some_lost some_start
      content serves small =
    scan-cut src (length file) 0 small start part lost is i (subst (Serves src) content serves)
      (ap length content) (Laid-AllFramed b o (length start) 0 is laid s) some_start
      (Written-Framed b o (length start + length (bytes_of is)) (length is) i w si) parts some_lost
