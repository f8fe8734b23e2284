-- ===== src/Record/Builder/RoundTrip.antt =====
-- A record that the builder made, loaded again.
use mathlib.Core.Path.{subst}
use oxihipo.Prelude.{
  ℕ, ◌+◌, ◌-◌, ◌*◌, ◌^◌, ◌≤◌, ◌<◌, ◌≡◌, refl, sym, ap, ◌∙◌, arith, false, List, ◌∷◌, ◌++◌, none,
  ltb, length, take, replicate, Bytes, ok, length-append, length-replicate, take-append-length,
  le→ltb_false,
}
use oxihipo.Wire.Bytes.{little, slice}
use oxihipo.Wire.Bytes.Laws.{slice_rest}
use oxihipo.Wire.Constants.Tags.{
  Codec, Layout, CompressionType, codec, layout, for_pair, is_by_bank,
}
use oxihipo.Wire.Constants.Tags.RoundTrip.{codec-for_pair}
use oxihipo.Wire.RecordHeader.{RecordHeader, payload_bytes, decompressed_payload_size}
use oxihipo.Event.BankBuilder.{concat}
use oxihipo.Record.Codec.{Backends, Lossless, IsPlausible, compress, compress_at}
use oxihipo.Record.Codec.RoundTrip.{Padded, decompress-compress_at}
use oxihipo.Record.Decode.{
  Record, data_section_offset, compressed_input, decode_payload, load_with_header,
}
use oxihipo.Record.Builder.{Compression, wire_tag, total_data, block_header, block_pad}
use oxihipo.Record.Builder.Build.{index_of, length-payload}
use oxihipo.Record.Builder.Events.{ends, build_event_offsets-index_of}

without_pad :
    (stream : Bytes) (pad : ℕ)
    → take (length (stream ++ replicate {A = ℕ} pad 0) - pad) (stream ++ replicate {A = ℕ} pad 0)
      ≡ stream
without_pad stream pad =
    let short : length (stream ++ replicate {A = ℕ} pad 0) - pad ≡ length stream =
      omega
        (arith, length-append stream (replicate {A = ℕ} pad 0), length-replicate {A = ℕ} pad 0) in
    ap (λ k. take k (stream ++ replicate {A = ℕ} pad 0)) short
    ∙ take-append-length stream (replicate {A = ℕ} pad 0)

input-Padded :
    (b : Backends) (l : Lossless b) (k : Codec) (stream : Bytes) (pad : ℕ)
    → Padded b l k stream
        (replicate pad 0)
        (compressed_input (for_pair k Layout.per_chunk) pad (stream ++ replicate pad 0))
unfolding for_pair
input-Padded b l Codec.none stream pad = refl
input-Padded b l Codec.lz4 stream pad = without_pad stream pad
input-Padded b l Codec.lz4_hc stream pad = without_pad stream pad
input-Padded b l Codec.gzip stream pad = without_pad stream pad
input-Padded b l Codec.zstd stream pad = without_pad stream pad

per_chunk-is_by_bank : (k : Codec) → is_by_bank (for_pair k Layout.per_chunk) ≡ false
unfolding is_by_bank layout for_pair
per_chunk-is_by_bank k = ground arith

-- The counts and words that a reader finds in the header.
pub block_header-words :
    (evs : List Bytes) (u1 u2 : ℕ) (c : Compression) (number pad len : ℕ)
    → length evs < 2 ^ 30
    → let h = block_header evs u1 u2 c number pad len in
      (data_section_offset h ≡ length evs * 4)
      × (h.event_count ≡ length evs)
      × (h.record_number ≡ number)
      × (h.user_word_1 ≡ u1)
      × (h.user_word_2 ≡ u2)
unfolding block_header
block_header-words evs u1 u2 c number pad len fits = (omega arith, omega arith, refl, refl, refl)

module _ (b : Backends) (l : Lossless b) where
  decode_payload-built :
      (hdr payload stream : Bytes) (h : RecordHeader) (c : Compression)
      → length hdr ≡ 56
      → h.record_length ≡ 56 + (length stream + block_pad (length stream))
      → h.header_length ≡ 56
      → h.compression ≡ wire_tag c
      → c.layout ≡ Layout.per_chunk
      → h.compressed_data_padding ≡ block_pad (length stream)
      → h.endianness ≡ little
      → decompressed_payload_size h ≡ length payload
      → length payload < 2 ^ 33
      → length stream < 2 ^ 60
      → compress b (wire_tag c) payload ≡ ok stream
      → IsPlausible b c.codec 3 payload
      → decode_payload b (hdr ++ (stream ++ replicate (block_pad (length stream)) 0)) h none
        ≡ ok payload
  unfolding decode_payload compress
  decode_payload-built hdr payload stream h c size total start kind chunk pad order whole small
        short made plausible =
      let padded : Bytes = stream ++ replicate (block_pad (length stream)) 0 in
      let long : length padded ≡ length stream + block_pad (length stream) = omega (
        arith,
        length-append stream (replicate (block_pad (length stream)) 0),
        length-replicate {A = ℕ} (block_pad (length stream)) 0,
      ) in
      let all : length (hdr ++ padded) ≡ 56 + length padded =
        omega (arith, size, length-append hdr padded) in
      let there : ltb (length (hdr ++ padded)) h.record_length ≡ false =
        le→ltb_false _ _ (omega (arith, all, long, total)) in
      let disk : slice (hdr ++ padded) h.header_length (h.header_length + payload_bytes h)
          ≡ ok padded =
        ap (λ k. slice (hdr ++ padded) k (h.header_length + payload_bytes h)) {y = length hdr}
          (omega (arith, start, size))
        ∙ ap (slice (hdr ++ padded) (length hdr)) {y = length (hdr ++ padded)}
            (omega (arith, start, total, all, long))
        ∙ slice_rest hdr padded in
      let k : CompressionType = for_pair c.codec Layout.per_chunk in
      let input : Bytes = compressed_input k (block_pad (length stream)) padded in
      let chunk_made : compress_at b k 3 payload ≡ ok stream =
        ap (λ y. compress_at b (for_pair c.codec y) 3 payload) (sym chunk) ∙ made in
      let good : Padded b l (codec k) stream (replicate (block_pad (length stream)) 0) input =
        subst (λ y. Padded b l y stream (replicate (block_pad (length stream)) 0) input)
          (sym (codec-for_pair c.codec Layout.per_chunk))
          (input-Padded b l c.codec stream (block_pad (length stream))) in
      rw
        (
          there,
          disk,
          pad,
          order,
          whole,
          kind,
          chunk,
          decompress-compress_at b l k 3 payload stream (replicate (block_pad (length stream)) 0)
              input (omega (arith, small)) chunk_made good
              (subst (λ y. IsPlausible b y 3 payload)
                (sym (codec-for_pair c.codec Layout.per_chunk)) plausible),
        )
        refl

  pub load_with_header-built :
      (evs : List Bytes) (u1 u2 number : ℕ) (c : Compression) (hdr stream : Bytes)
      → c.layout ≡ Layout.per_chunk
      → length evs * 4 + total_data evs < 2 ^ 32
      → compress b (wire_tag c) (index_of evs ++ concat evs) ≡ ok stream
      → IsPlausible b c.codec 3 (index_of evs ++ concat evs)
      → length stream + 4 ≤ 2 ^ 30
      → length hdr ≡ 56
      → load_with_header b
          (hdr ++ (stream ++ replicate (block_pad (length stream)) 0))
          (block_header evs u1 u2 c number
            (block_pad (length stream))
            (length stream + block_pad (length stream)))
          none
        ≡ ok (record {
          header =
              block_header evs u1 u2 c number
                (block_pad (length stream))
                (length stream + block_pad (length stream));
          payload = index_of evs ++ concat evs;
          event_offsets = 0 ∷ ends 0 evs;
        })
  unfolding load_with_header block_header
  load_with_header-built evs u1 u2 number c hdr stream chunk fits made plausible short size =
      let h : RecordHeader =
        block_header evs u1 u2 c number (block_pad (length stream))
          (length stream + block_pad (length stream)) in
      let plain : is_by_bank (wire_tag c) ≡ false =
        ap (λ y. is_by_bank (for_pair c.codec y)) chunk ∙ per_chunk-is_by_bank c.codec in
      let decoded =
        decode_payload-built hdr (index_of evs ++ concat evs) stream h c size refl refl refl chunk
          refl refl (omega (arith, length-payload evs, fits))
          (omega (arith, length-payload evs, fits)) (omega (arith, short)) made plausible in
      let offsets =
        build_event_offsets-index_of evs h fits (omega (arith, fits)) (omega (arith, fits)) in
      rw (plain, decoded, offsets) refl
