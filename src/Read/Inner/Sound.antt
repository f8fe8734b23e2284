-- ===== src/Read/Inner/Sound.antt =====
-- The records of a writer of one-block records, as a reader meets them.
use oxihipo.Prelude.{
  ℕ, suc, ◌+◌, ◌*◌, ◌%◌, ◌^◌, ◌≤◌, ◌<◌, ◌≡◌, refl, sym, ap, ◌∙◌, arith, List, [], ◌∷◌, ◌++◌, length,
  get_elem?, take, replicate, false, none, Bytes, ok, ok-injective,
}
use oxihipo.Wire.Bytes.{little}
use oxihipo.Wire.Constants.Tags.{Codec, Layout, is_by_bank, is_per_column, for_pair, layout}
use oxihipo.Wire.RecordHeader
use oxihipo.Wire.RecordHeader.{RecordHeader}
use oxihipo.Event.BankBuilder.{concat}
use oxihipo.Record.Codec.{Backends, Lossless, IsPlausible, compress}
use oxihipo.Record.Decode.{Record, load, load_with_header, event, data_section_offset}
use oxihipo.Record.Builder.{
  Compression, total_data, block_pad, block_header, build_single_block_record_bytes, wire_tag,
}
use oxihipo.Record.Builder.Build.{index_of, build_payload-index, length-payload}
use oxihipo.Record.Builder.Events.{little_header, ends, event-index_of}
use oxihipo.Record.Builder.RoundTrip.{load_with_header-built, block_header-words}
use oxihipo.Write.Writer.{WriterOptions}
use oxihipo.Write.Writer.Tracks.{Item, Written, Laid}
use oxihipo.Read.Inner.Framed.{Framed, block_header_lem, parse-Built, AllFramed}
use oxihipo.Write.Writer.Block.{block_format, Built, build-Built, Built-parse, length-Built}

-- What the header of a record says of it, and what a load of the record gives.
pub record Readable (b : Backends) (bytes : Bytes) (evs : List Bytes) : Type 0 where
  pub header : RecordHeader
  pub parsed : RecordHeader.parse (take 56 bytes) ≡ ok header
  pub parsed_whole : RecordHeader.parse bytes ≡ ok header
  pub long : 56 ≤ length bytes
  pub small : length bytes < 2 ^ 30
  pub total : header.record_length ≡ length bytes
  pub count : header.event_count ≡ length evs
  pub index : header.index_array_length ≡ length evs * 4
  pub order : header.endianness ≡ little
  pub not_by_bank : is_by_bank header.compression ≡ false
  pub not_per_column : is_per_column header.compression ≡ false
  pub section : data_section_offset header ≡ length evs * 4
  pub loaded : Record
  pub loaded_header : loaded.header ≡ header
  pub payload_fits : length loaded.payload < 2 ^ 32
  pub loads : load b bytes ≡ ok loaded
  pub events : (j : ℕ) → event loaded j ≡ ok (get_elem? evs j)

pub framed :
    {b : Backends} {bytes : Bytes} {evs : List Bytes} → Readable b bytes evs → Framed bytes evs
framed r = record {
  header = r.header;
  parsed = r.parsed;
  parsed_whole = r.parsed_whole;
  long = r.long;
  small = r.small;
  total = r.total;
  count = r.count;
  index = r.index;
  order = r.order;
}

whole_events :
    (k : Codec)
    → (is_by_bank (for_pair k Layout.per_chunk) ≡ false)
      × (is_per_column (for_pair k Layout.per_chunk) ≡ false)
unfolding is_by_bank is_per_column layout for_pair
whole_events k = (ground arith, ground arith)

abbrev loaded_block : List Bytes → RecordHeader → Record
loaded_block evs h = record {
  header = h;
  payload = index_of evs ++ concat evs;
  event_offsets = 0 ∷ ends 0 evs;
}

load-Built :
    {b : Backends} {evs : List Bytes} {u1 u2 : ℕ} {c : Compression} {n : ℕ} {out : Bytes}
    → (p : Built b evs u1 u2 c n out) → Lossless b
    → c.layout ≡ Layout.per_chunk
    → length evs * 4 + total_data evs < 2 ^ 32
    → IsPlausible b c.codec 3 (index_of evs ++ concat evs)
    → (hdr : Bytes) → out ≡ hdr ++ p.padded
    → length hdr ≡ 56
    → length p.stream + 4 ≤ 2 ^ 30
    → let h = block_header evs u1 u2 c n (block_pad (length p.stream)) p.len in
      RecordHeader.parse out ≡ ok h → load b out ≡ ok (loaded_block evs h)
unfolding load
load-Built {b} {evs} {u1} {u2} {c} {n} {out} p lossless chunk fits plausible hdr whole size short
      parsed =
    let pad : ℕ = block_pad (length p.stream) in
    let h : RecordHeader = block_header evs u1 u2 c n pad p.len in
    let content : index_of evs ++ concat evs ≡ p.payload =
      ok-injective (sym (build_payload-index evs (omega (arith, fits))) ∙ p.packed) in
    let made : compress b (wire_tag c) (index_of evs ++ concat evs) ≡ ok p.stream =
      ap (compress b (wire_tag c)) content ∙ p.compressed in
    rw parsed (
      ap (λ x. load_with_header b x h none) (whole ∙ ap (λ x. hdr ++ x) p.parts)
      ∙ ap
          (λ k.
            load_with_header b (hdr ++ (p.stream ++ replicate pad 0))
              (block_header evs u1 u2 c n pad k) none)
          p.measured
      ∙ load_with_header-built b lossless evs u1 u2 n c hdr p.stream chunk fits made plausible short
          size
      ∙ ap (λ k. ok (loaded_block evs (block_header evs u1 u2 c n pad k))) (sym p.measured))

pub block-Readable :
    (b : Backends) (evs : List Bytes) (u1 u2 : ℕ) (c : Compression) (n : ℕ) (out : Bytes)
    → Lossless b
    → c.layout ≡ Layout.per_chunk
    → build_single_block_record_bytes b evs u1 u2 c n ≡ ok out
    → length evs * 4 + total_data evs < 2 ^ 32
    → IsPlausible b c.codec 3 (index_of evs ++ concat evs)
    → u1 < 2 ^ 64
    → u2 < 2 ^ 64
    → n < 2 ^ 32
    → length out < 2 ^ 30
    → (r : Readable b out evs) × (r.header.user_word_1 ≡ u1)
block-Readable b evs u1 u2 c n out lossless chunk built fits plausible h1 h2 hn small =
    let p = build-Built b evs u1 u2 c n out built in
    let pad : ℕ = block_pad (length p.stream) in
    let h : RecordHeader = block_header evs u1 u2 c n pad p.len in
    let short : length p.stream + 4 ≤ 2 ^ 30 = omega (arith, length-Built p, p.measured, small) in
    let (start, counted, numbered, first, second) =
      block_header-words evs u1 u2 c n pad p.len (omega (arith, fits)) in
    let (indexed, whole, kind) = block_header_lem evs u1 u2 c n pad p.len (omega (arith, fits)) in
    let (by_bank, per_column) = whole_events c.codec in
    let kind_here : h.compression ≡ for_pair c.codec Layout.per_chunk =
      kind ∙ ap (for_pair c.codec) chunk in
    let (hdr, parts, size, parsed) = parse-Built p h1 h2 hn short in
    (
      record {
        header = h;
        parsed = Built-parse p h1 h2 hn small;
        parsed_whole = parsed;
        long = omega (arith, length-Built p);
        small = small;
        total = whole ∙ sym (length-Built p);
        count = counted;
        index = indexed;
        order = little_header evs u1 u2 c n pad p.len;
        not_by_bank = ap is_by_bank kind_here ∙ by_bank;
        not_per_column = ap is_per_column kind_here ∙ per_column;
        section = start;
        loaded = loaded_block evs h;
        loaded_header = refl;
        payload_fits = omega (arith, length-payload evs, fits);
        loads = load-Built p lossless chunk fits plausible hdr parts size short parsed;
        events = λ j. event-index_of (loaded_block evs h) evs j refl refl start;
      },
      first,
    )

-- The limits under which the records of a file can be read back: each is below 1 GiB, its index and
-- its events below 4 GiB, the user words fit 64 bits, and zstd, where it is used, has not made the
-- stream so short that the reader refuses it.
pub record IsSmall (b : Backends) (c : Compression) (i : Item) : Type 0 where
  pub fits : length i.chunk * 4 + total_data i.chunk < 2 ^ 32
  pub first_word : i.user_word_1 < 2 ^ 64
  pub second_word : i.user_word_2 < 2 ^ 64
  pub bytes : length i.bytes < 2 ^ 30
  pub plausible : IsPlausible b c.codec 3 (index_of i.chunk ++ concat i.chunk)

-- A record at its place, readable, with an entry in the index that says where and what it is.
pub record Placed (b : Backends) (pos : ℕ) (i : Item) : Type 0 where
  pub readable : Readable b i.bytes i.chunk
  pub tagged : readable.header.user_word_1 ≡ i.user_word_1
  pub filled : 0 < length i.chunk
  pub few : length i.chunk < 2 ^ 30
  pub position : i.entry.position ≡ pos
  pub record_length : i.entry.record_length ≡ length i.bytes
  pub event_count : i.entry.event_count ≡ length i.chunk

abbrev pub AllPlaced : Backends → ℕ → List Item → Type 0
AllPlaced b pos [] = Unit {0}
AllPlaced b pos (i ∷ is) = Placed b pos i × AllPlaced b (pos + length i.bytes) is

abbrev pub AllSmall : Backends → Compression → List Item → Type 0
AllSmall b c [] = Unit {0}
AllSmall b c (i ∷ is) = IsSmall b c i × AllSmall b c is

pub AllPlaced-AllFramed :
    (b : Backends) (pos : ℕ) (is : List Item) → AllPlaced b pos is → AllFramed is
AllPlaced-AllFramed b pos [] ps = tt
AllPlaced-AllFramed b pos (i ∷ is) (p, ps) =
    ((framed p.readable, p.filled), AllPlaced-AllFramed b (pos + length i.bytes) is ps)

Written-Placed :
    (b : Backends) (o : WriterOptions) (pos n : ℕ) (i : Item)
    → Lossless b
    → o.compression.layout ≡ Layout.per_chunk
    → Written (block_format b) o pos n i
    → IsSmall b o.compression i
    → Placed b pos i
Written-Placed b o pos n i lossless chunk w s =
    let k : ℕ = (n % 2 ^ 32 + 1) % 2 ^ 32 in
    let (r, tagged) =
      block-Readable b i.chunk i.user_word_1 i.user_word_2 o.compression k i.bytes lossless chunk
        w.built s.fits s.plausible s.first_word s.second_word (omega arith) s.bytes in
    record {
      readable = r;
      tagged = tagged;
      filled = w.filled;
      few = omega (arith, s.fits);
      position = w.position;
      record_length = w.record_length;
      event_count =
          w.event_count
          ∙ ap (λ h. h.event_count) (ok-injective (sym w.parsed ∙ r.parsed))
          ∙ r.count;
    }

pub Laid-AllPlaced :
    (b : Backends) (o : WriterOptions) (pos n : ℕ) (is : List Item)
    → Lossless b
    → o.compression.layout ≡ Layout.per_chunk
    → Laid (block_format b) o pos n is
    → AllSmall b o.compression is
    → AllPlaced b pos is
Laid-AllPlaced b o pos n [] lossless chunk l s = tt
Laid-AllPlaced b o pos n (i ∷ is) lossless chunk (w, l) (s, ss) = (
  Written-Placed b o pos n i lossless chunk w s,
  Laid-AllPlaced b o (pos + length i.bytes) (suc n) is lossless chunk l ss,
)
