-- ===== src/Record/Decode/Total.antt =====
-- Decoding ends on every input.
use mathlib.Core.Path.{subst}
use oxihipo.Prelude.{
  ℕ, ◌+◌, ◌≡◌, ◌≢◌, sym, ◌∙◌, inl, inr, arith, false, List, Option, ltb, length, All, Bytes, ok,
  panic, refuse_if, Bool-cases, err-ne-panic, >>=-eq-ok, >>=-ne-panic, ok-ne-panic,
  refuse_if-ne-panic, refuse_if-ok, ok-injective,
}
use oxihipo.Wire.Bytes.{IsByte, Endianness, little, big}
use oxihipo.Wire.Bytes.Laws.{slice_total}
use oxihipo.Wire.Constants.Tags.{is_by_bank}
use oxihipo.Wire.RecordHeader
use oxihipo.Wire.RecordHeader.{RecordHeader, payload_bytes, total_bytes, decompressed_payload_size}
use oxihipo.Wire.RecordHeader.Total.{IsParsed, parse-ne-panic_record, parse-IsParsed_record}
use oxihipo.Schema.Dict.{Dict}
use oxihipo.Record.Codec.{Backends, decompress}
use oxihipo.Record.Codec.Total.{decompress-ne-panic}
use oxihipo.Record.Endian.Total.{Usable, normalize_be_payload-Keeps}
use oxihipo.Record.Decode.{
  Record, data_section_offset, in_native_order, read_offsets, build_event_offsets, decode_payload,
  load_with_header, load_with_dict,
}
use oxihipo.Record.Decode.Offsets.{IsValid, read_offsets-cases, build_event_offsets-IsValid}

module _ (b : Backends) where
  load_with_header-parts :
      (src : Bytes) (header : RecordHeader) (dict : Option Dict) (r : Record)
      → load_with_header b src header dict ≡ ok r
      → (payload : Bytes) × (os : List ℕ) × (is_by_bank header.compression ≡ false)
        × (decode_payload b src header dict ≡ ok payload)
        × (build_event_offsets payload header ≡ ok os)
        × (r ≡ record { header = header; payload = payload; event_offsets = os })
  unfolding load_with_header
  load_with_header-parts src header dict r e =
      let (u, plain, e1) = >>=-eq-ok (refuse_if (is_by_bank header.compression) _) _ e in
      let (payload, decoded, e2) = >>=-eq-ok (decode_payload b src header dict) _ e1 in
      let (os, built, e3) = >>=-eq-ok (build_event_offsets payload header) _ e2 in
      (payload, os, refuse_if-ok _ _ plain, decoded, built, sym (ok-injective e3))

  pub load_with_dict-IsValid :
      (src : Bytes) (dict : Option Dict) (r : Record) → load_with_dict b src dict ≡ ok r → IsValid r
  unfolding load_with_dict
  load_with_dict-IsValid src dict r e =
      let (header, parsed, e1) = >>=-eq-ok (RecordHeader.parse src) _ e in
      let (payload, os, plain, decoded, built, same) =
        load_with_header-parts src header dict r e1 in
      subst IsValid (sym same) (build_event_offsets-IsValid payload header os built)

  in_native_order-ne-panic :
      (e : Endianness) (payload : Bytes) (header : RecordHeader) (dict : Option Dict)
      → Usable dict
      → in_native_order e payload header dict ≢ panic
  in_native_order-ne-panic little payload header dict u = ok-ne-panic payload
  in_native_order-ne-panic big payload header dict u =
      let (out, e, l) = normalize_be_payload-Keeps payload header dict u in rw e (ok-ne-panic out)

  decode_payload-ne-panic :
      (src : Bytes) (header : RecordHeader) (dict : Option Dict)
      → IsParsed header
      → Usable dict
      → decode_payload b src header dict ≢ panic
  unfolding decode_payload
  decode_payload-ne-panic src header dict p u =
      elim (Bool-cases (ltb (length src) header.record_length)) [
        | inl cut ↦ rw cut (err-ne-panic _)
        | inr whole ↦
            let cut_out =
              slice_total src header.header_length (header.header_length + payload_bytes header)
                (omega arith) (ground (arith, p.payload)) in
            rw (whole, cut_out)
              (>>=-ne-panic (decompress b header.compression _ (decompressed_payload_size header)) _
                (decompress-ne-panic b header.compression _ _)
                (λ payload _. in_native_order-ne-panic header.endianness payload header dict u))
      ]

  read_offsets-ne-panic : (payload : Bytes) (n : ℕ) → read_offsets payload n ≢ panic
  read_offsets-ne-panic payload n e = elim (read_offsets-cases payload n) [
    | inl (problem, bad) ↦ cc
    | inr found ↦ clash (sym found.result ∙ e)
  ]
    where
      clash : {A : Type 0} {a : A} → ok a ≡ panic → ⊥
      clash h = cc

  build_event_offsets-ne-panic :
      (payload : Bytes) (header : RecordHeader) → build_event_offsets payload header ≢ panic
  unfolding build_event_offsets
  build_event_offsets-ne-panic payload header =
      >>=-ne-panic (read_offsets payload header.event_count) _
        (read_offsets-ne-panic payload header.event_count)
        (λ sums _.
          >>=-ne-panic (refuse_if (ltb (length payload) (data_section_offset header + sums.0)) _) _
            (refuse_if-ne-panic _ _) (λ u _. ok-ne-panic sums.1))

  -- Whatever bytes it is given, `load_with_dict` returns a record or an error, with no dictionary or
  -- with a valid one: no slice of the input, no read of the index array and no swap of a big-endian
  -- payload is out of range.
  pub load_with_dict-ne-panic :
      (src : Bytes) (dict : Option Dict)
      → All IsByte src
      → Usable dict
      → load_with_dict b src dict ≢ panic
  unfolding load_with_dict load_with_header
  load_with_dict-ne-panic src dict bytes u =
      >>=-ne-panic (RecordHeader.parse src) _ (parse-ne-panic_record src) (λ header parsed.
        >>=-ne-panic (refuse_if (is_by_bank header.compression) _) _ (refuse_if-ne-panic _ _)
          (λ _ _.
            >>=-ne-panic (decode_payload b src header dict) _
              (decode_payload-ne-panic src header dict
                (parse-IsParsed_record src header bytes parsed).0 u)
              (λ payload _.
                >>=-ne-panic (build_event_offsets payload header) _
                  (build_event_offsets-ne-panic payload header) (λ os _. ok-ne-panic _))))
