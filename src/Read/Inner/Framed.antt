-- ===== src/Read/Inner/Framed.antt =====
-- The headers of the records of a writer of one-block records, as a walk meets them.
use mathlib.Core.Path.{subst}
use oxihipo.Prelude.{
  ℕ, suc, ◌+◌, ◌*◌, ◌%◌, ◌^◌, ◌≤◌, ◌<◌, ◌≡◌, refl, sym, ap, ◌∙◌, arith, List, [], ◌∷◌, ◌++◌, length,
  take, replicate, Bytes, ok, ok-injective,
}
use oxihipo.Wire.Bytes.{little}
use oxihipo.Wire.RecordHeader
use oxihipo.Wire.RecordHeader.{RecordHeader}
use oxihipo.Wire.RecordHeader.Fields.{encode, words_of, write-encode}
use oxihipo.Wire.RecordHeader.RoundTrip.{IsWellFormed, write-parse_append}
use oxihipo.Record.Codec.{Backends}
use oxihipo.Record.Builder.{
  Compression, block_pad, block_header, build_single_block_record_bytes, wire_tag,
}
use oxihipo.Record.Builder.Build.{block_header-IsWellFormed}
use oxihipo.Record.Builder.Events.{little_header}
use oxihipo.Record.Builder.RoundTrip.{block_header-words}
use oxihipo.Write.Writer.{WriterOptions}
use oxihipo.Write.Writer.Tracks.{Item, Written, Laid}
use oxihipo.Write.Writer.Block.{block_format, Built, build-Built, Built-parse, length-Built}

-- What the header of a record says of it.
pub record Framed (bytes : Bytes) (evs : List Bytes) : Type 0 where
  pub header : RecordHeader
  pub parsed : RecordHeader.parse (take 56 bytes) ≡ ok header
  pub parsed_whole : RecordHeader.parse bytes ≡ ok header
  pub long : 56 ≤ length bytes
  pub small : length bytes < 2 ^ 30
  pub total : header.record_length ≡ length bytes
  pub count : header.event_count ≡ length evs
  pub index : header.index_array_length ≡ length evs * 4
  pub order : header.endianness ≡ little

pub block_header_lem :
    (evs : List Bytes) (u1 u2 : ℕ) (c : Compression) (n pad len : ℕ)
    → length evs < 2 ^ 30
    → let h = block_header evs u1 u2 c n pad len in
      (h.index_array_length ≡ length evs * 4)
      × (h.record_length ≡ 56 + len)
      × (h.compression ≡ wire_tag c)
unfolding block_header
block_header_lem evs u1 u2 c n pad len few = (omega arith, refl, refl)

-- The parse of the whole record.
pub parse-Built :
    {b : Backends} {evs : List Bytes} {u1 u2 : ℕ} {c : Compression} {n : ℕ} {out : Bytes}
    → (p : Built b evs u1 u2 c n out) → u1 < 2 ^ 64
    → u2 < 2 ^ 64
    → n < 2 ^ 32
    → length p.stream + 4 ≤ 2 ^ 30
    → (hdr : Bytes) × (out ≡ hdr ++ p.padded)
      × (length hdr ≡ 56)
      × (RecordHeader.parse out
          ≡ ok (block_header evs u1 u2 c n (block_pad (length p.stream)) p.len))
parse-Built {evs = evs} {u1} {u2} {c} {n} {out} p h1 h2 hn short =
    let h : RecordHeader = block_header evs u1 u2 c n (block_pad (length p.stream)) p.len in
    let good : IsWellFormed h =
      subst (λ k. IsWellFormed (block_header evs u1 u2 c n (block_pad (length p.stream)) k))
        (sym p.measured)
        (block_header-IsWellFormed evs u1 u2 c n (length p.stream) h1 h2 hn
          (omega (arith, short))) in
    let (hdr, written, size, parsed) =
      write-parse_append h (replicate 56 0) p.padded good
        (little_header evs u1 u2 c n (block_pad (length p.stream)) p.len) refl in
    let same : hdr ≡ encode little (words_of h) =
      ok-injective (sym written ∙ write-encode h (replicate 56 0) refl) in
    let whole : out ≡ hdr ++ p.padded = p.result ∙ ap (λ x. x ++ p.padded) (sym same) in
    (hdr, whole, size, ap RecordHeader.parse whole ∙ parsed)

-- The header of a record, whatever its payload was compressed to.
block-Framed :
    (b : Backends) (evs : List Bytes) (u1 u2 : ℕ) (c : Compression) (n : ℕ) (out : Bytes)
    → build_single_block_record_bytes b evs u1 u2 c n ≡ ok out
    → length evs < 2 ^ 30
    → u1 < 2 ^ 64
    → u2 < 2 ^ 64
    → n < 2 ^ 32
    → length out < 2 ^ 30
    → Framed out evs
block-Framed b evs u1 u2 c n out built few h1 h2 hn small =
    let p = build-Built b evs u1 u2 c n out built in
    let pad : ℕ = block_pad (length p.stream) in
    let h : RecordHeader = block_header evs u1 u2 c n pad p.len in
    let short : length p.stream + 4 ≤ 2 ^ 30 = omega (arith, length-Built p, p.measured, small) in
    let words = block_header-words evs u1 u2 c n pad p.len few in
    let (indexed, whole, kind) = block_header_lem evs u1 u2 c n pad p.len few in
    let (hdr, parts, size, parsed) = parse-Built p h1 h2 hn short in
    record {
      header = h;
      parsed = Built-parse p h1 h2 hn small;
      parsed_whole = parsed;
      long = omega (arith, length-Built p);
      small = small;
      total = whole ∙ sym (length-Built p);
      count = words.1;
      index = indexed;
      order = little_header evs u1 u2 c n pad p.len;
    }

-- The records of a walk, which reads the headers only, and the limits for it.
abbrev pub AllFramed : List Item → Type 0
AllFramed [] = Unit {0}
AllFramed (i ∷ is) = (Framed i.bytes i.chunk × (0 < length i.chunk)) × AllFramed is

pub record IsBounded (i : Item) : Type 0 where
  pub events : length i.chunk < 2 ^ 30
  pub first_word : i.user_word_1 < 2 ^ 64
  pub second_word : i.user_word_2 < 2 ^ 64
  pub bytes : length i.bytes < 2 ^ 30

abbrev pub AllBounded : List Item → Type 0
AllBounded [] = Unit {0}
AllBounded (i ∷ is) = IsBounded i × AllBounded is

pub Written-Framed :
    (b : Backends) (o : WriterOptions) (pos n : ℕ) (i : Item)
    → Written (block_format b) o pos n i
    → IsBounded i
    → Framed i.bytes i.chunk
Written-Framed b o pos n i w s =
    block-Framed b i.chunk i.user_word_1 i.user_word_2 o.compression ((n % 2 ^ 32 + 1) % 2 ^ 32)
      i.bytes w.built s.events s.first_word s.second_word (omega arith) s.bytes

pub Laid-AllFramed :
    (b : Backends) (o : WriterOptions) (pos n : ℕ) (is : List Item)
    → Laid (block_format b) o pos n is
    → AllBounded is
    → AllFramed is
Laid-AllFramed b o pos n [] l s = tt
Laid-AllFramed b o pos n (i ∷ is) (w, l) (s, ss) = (
  (Written-Framed b o pos n i w s, w.filled),
  Laid-AllFramed b o (pos + length i.bytes) (suc n) is l ss,
)
