-- ===== src/Write/Writer/Block.antt =====
-- The one-block records as the format of a writer.
use mathlib.Core.List.{append_assoc}
use mathlib.Core.Path.{subst}
use oxihipo.Prelude.{
  ℕ, ◌+◌, ◌^◌, ◌<◌, ◌≡◌, refl, sym, ap, ◌∙◌, arith, false, List, ◌++◌, length, take, replicate,
  Bytes, ok, length-append, length-replicate, take-append-length, >>=-eq-ok, >>=-ne-panic,
  ok-ne-panic, panic, ◌≢◌, ok-injective,
}
use oxihipo.Wire.Bytes.{little, le_bytes, write_u32_le}
use oxihipo.Wire.Bytes.Laws.{write_le-append, length-le_bytes}
use oxihipo.Wire.Fields.{fields_bytes, length-fields_bytes}
use oxihipo.Wire.RecordHeader
use oxihipo.Wire.RecordHeader.{RecordHeader}
use oxihipo.Wire.RecordHeader.Fields.{HeaderWords, encode, fields, words_of, write-encode}
use oxihipo.Wire.RecordHeader.RoundTrip.{IsWellFormed, parse-write_record}
use oxihipo.Record.Codec.{Backends, compress}
use oxihipo.Record.Builder.{
  Compression, wire_tag, build_payload, block_header, block_pad, build_single_block_record_bytes,
}
use oxihipo.Record.Builder.Events.{little_header}
use oxihipo.Event.BankBuilder.{concat}
use oxihipo.Record.Codec.Total.{compress-ne-panic}
use oxihipo.Record.Builder.Build.{build_payload-index, index_of, block_header-IsWellFormed}
use oxihipo.Record.Builder.RoundTrip.{block_header-words}
use oxihipo.Write.Writer.{Format, Describes}

-- The `PerChunk` arm of `build_record_bytes`.
abbrev pub block_format : Backends → Format
block_format b = record { build = build_single_block_record_bytes b }

-- The record number stands in the second word of a header.
encode-number :
    (w : HeaderWords) (rest : Bytes)
    → (post : Bytes) × (encode little w ++ rest
        ≡ le_bytes 4 w.record_length ++ (le_bytes 4 w.record_number ++ post))
unfolding fields_bytes
encode-number w rest = (
  _,
  append_assoc (le_bytes 4 w.record_length) _ rest
      ∙ ap (λ x. le_bytes 4 w.record_length ++ x)
          (append_assoc (le_bytes 4 w.record_number) _ rest),
)

number_of-block_header :
    (evs : List Bytes) (u1 u2 : ℕ) (c : Compression) (n pad len : ℕ)
    → (block_header evs u1 u2 c n pad len).record_number ≡ n
unfolding block_header
number_of-block_header evs u1 u2 c n pad len = refl

renumber :
    (h : RecordHeader) (n : ℕ) (rest : Bytes)
    → h.record_number ≡ n
    → write_u32_le (encode little (words_of h) ++ rest) 4 n
      ≡ ok (encode little (words_of h) ++ rest)
renumber h n rest same =
    let (post, parts) = encode-number (words_of h) rest in
    let word : Bytes = le_bytes 4 (words_of h).record_length in
    ap (λ x. write_u32_le x 4 n) parts
    ∙ write_le-append 4 word (le_bytes 4 h.record_number) post 4 n (sym (length-le_bytes 4 _))
        (length-le_bytes 4 _)
    ∙ ap (λ k. ok (word ++ (le_bytes 4 k ++ post))) (sym same)
    ∙ ap ok (sym parts)

-- What a build went through.
pub record Built (b : Backends) (evs : List Bytes) (u1 u2 : ℕ) (c : Compression) (n : ℕ)
    (out : Bytes) : Type 0 where
  pub payload : Bytes
  pub stream : Bytes
  pub packed : build_payload evs ≡ ok payload
  pub compressed : compress b (wire_tag c) payload ≡ ok stream
  pub len : ℕ
  pub measured : len ≡ length stream + block_pad (length stream)
  pub padded : Bytes
  pub parts : padded ≡ stream ++ replicate (block_pad (length stream)) 0
  length_padded : length padded ≡ len
  pub result :
      out
      ≡ encode little (words_of (block_header evs u1 u2 c n (block_pad (length stream)) len))
        ++ padded

pub build-Built :
    (b : Backends) (evs : List Bytes) (u1 u2 : ℕ) (c : Compression) (n : ℕ) (out : Bytes)
    → build_single_block_record_bytes b evs u1 u2 c n ≡ ok out
    → Built b evs u1 u2 c n out
unfolding build_single_block_record_bytes
build-Built b evs u1 u2 c n out e =
    let (payload, packed, e1) = >>=-eq-ok (build_payload evs) _ e in
    let (stream, compressed, e2) = >>=-eq-ok (compress b (wire_tag c) payload) _ e1 in
    let padded : Bytes = stream ++ replicate (block_pad (length stream)) 0 in
    let h : RecordHeader = block_header evs u1 u2 c n (block_pad (length stream)) (length padded) in
    let (hdr, written, e3) = >>=-eq-ok (RecordHeader.write h (replicate 56 0)) _ e2 in
    record {
      payload = payload;
      stream = stream;
      packed = packed;
      compressed = compressed;
      len = length padded;
      measured =
          length-append stream (replicate (block_pad (length stream)) 0)
          ∙ ap (λ k. length stream + k) (length-replicate {A = ℕ} (block_pad (length stream)) 0);
      padded = padded;
      parts = refl;
      length_padded = refl;
      result =
          sym (ok-injective e3)
          ∙ ap (λ x. x ++ padded)
              (ok-injective (sym written ∙ write-encode h (replicate 56 0) refl));
    }

length-header : (h : RecordHeader) → length (encode little (words_of h)) ≡ 56
length-header h = length-fields_bytes false (fields (words_of h))

pub length-Built :
    {b : Backends} {evs : List Bytes} {u1 u2 : ℕ} {c : Compression} {n : ℕ} {out : Bytes}
    (p : Built b evs u1 u2 c n out)
    → length out ≡ 56 + p.len
length-Built {evs = evs} {u1} {u2} {c} {n} p =
    let h : RecordHeader = block_header evs u1 u2 c n (block_pad (length p.stream)) p.len in
    ap length p.result
    ∙ omega (
      arith,
      length-append (encode little (words_of h)) p.padded,
      length-header h,
      p.length_padded,
    )

-- A header that was built is well formed, where its record is below 1 GiB.
pub Built-parse :
    {b : Backends} {evs : List Bytes} {u1 u2 : ℕ} {c : Compression} {n : ℕ} {out : Bytes}
    → (p : Built b evs u1 u2 c n out) → u1 < 2 ^ 64
    → u2 < 2 ^ 64
    → n < 2 ^ 32
    → length out < 2 ^ 30
    → RecordHeader.parse (take 56 out)
      ≡ ok (block_header evs u1 u2 c n (block_pad (length p.stream)) p.len)
Built-parse {evs = evs} {u1} {u2} {c} {n} {out} p h1 h2 hn small =
    let h : RecordHeader = block_header evs u1 u2 c n (block_pad (length p.stream)) p.len in
    let fits : length p.stream + block_pad (length p.stream) < 2 ^ 30 =
      omega (arith, length-Built p, p.measured, small) in
    let good : IsWellFormed h =
      subst (λ k. IsWellFormed (block_header evs u1 u2 c n (block_pad (length p.stream)) k))
        (sym p.measured)
        (block_header-IsWellFormed evs u1 u2 c n (length p.stream) h1 h2 hn fits) in
    let front : take 56 out ≡ encode little (words_of h) =
      ap (take 56) p.result
      ∙ ap (λ k. take k (encode little (words_of h) ++ p.padded))
          {y = length (encode little (words_of h))} (sym (length-header h))
      ∙ take-append-length (encode little (words_of h)) p.padded in
    ap RecordHeader.parse front
    ∙ sym (rw (write-encode h (replicate 56 0) refl) refl)
    ∙ parse-write_record h (replicate 56 0) good
        (little_header evs u1 u2 c n (block_pad (length p.stream)) p.len) refl

pub block_format-Describes : (b : Backends) → Describes (block_format b)
block_format-Describes b = record {
  numbered = λ evs u1 u2 c n out e.
      let p = build-Built b evs u1 u2 c n out e in
      let h : RecordHeader = block_header evs u1 u2 c n (block_pad (length p.stream)) p.len in
      ap (λ x. write_u32_le x 4 n) p.result
      ∙ renumber h n p.padded
          (number_of-block_header evs u1 u2 c n (block_pad (length p.stream)) p.len)
      ∙ ap ok (sym p.result);
  headed = λ evs u1 u2 c n out e few h1 h2 hn small.
      let p = build-Built b evs u1 u2 c n out e in
      let (start, counted, numbered, first, second) =
        block_header-words evs u1 u2 c n (block_pad (length p.stream)) p.len few in
      (
        block_header evs u1 u2 c n (block_pad (length p.stream)) p.len,
        Built-parse p h1 h2 hn small,
        counted,
        first,
        second,
      );
}

-- The builder ends with a record or an error.
pub block_format-ne-panic :
    (b : Backends) (evs : List Bytes) (u1 u2 : ℕ) (c : Compression) (n : ℕ)
    → length evs < 2 ^ 30
    → build_single_block_record_bytes b evs u1 u2 c n ≢ panic
unfolding build_single_block_record_bytes
block_format-ne-panic b evs u1 u2 c n few = rw (build_payload-index evs few) (
    >>=-ne-panic (compress b (wire_tag c) (index_of evs ++ concat evs)) _
      (compress-ne-panic b (wire_tag c) (index_of evs ++ concat evs))
      (λ stream _.
        let padded : Bytes = stream ++ replicate (block_pad (length stream)) 0 in
        let h : RecordHeader =
          block_header evs u1 u2 c n (block_pad (length stream)) (length padded) in
        rw (write-encode h (replicate 56 0) refl) (ok-ne-panic _)))
