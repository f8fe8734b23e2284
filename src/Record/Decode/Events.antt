-- ===== src/Record/Decode/Events.antt =====
-- The events of a record that was loaded.
use oxihipo.Prelude.{
  ℕ, suc, ◌+◌, ◌-◌, ◌^◌, ◌≤◌, ◌<◌, ◌≡◌, refl, ap, ◌∙◌, inl, inr, arith, false, ◌||◌, List, ◌∷◌,
  Option, none, some, ltb, leb, length, take, drop, Bytes, ok, ◌>>=◌, ◌>>◌, refuse_if, map_ok,
  corrupt_record, Bool-cases, leb_false→lt, ◌⊎◌, le→ltb_false, leb→le, >>=-map_ok,
}
use oxihipo.Wire.Bytes.Laws.{slice_total}
use oxihipo.Wire.Constants.Tags.{is_by_bank}
use oxihipo.Wire.RecordHeader
use oxihipo.Wire.RecordHeader.{RecordHeader, payload_bytes, total_bytes, decompressed_payload_size}
use oxihipo.Schema.Dict.{Dict}
use oxihipo.Record.Codec.{Backends}
use oxihipo.Record.Decode.{
  DecodedRecord, Record, data_section_offset, read_offsets, build_event_offsets, decode_payload,
  decode_record_into, load_with_header, load_with_dict, offset_at, event, user_header,
}
use oxihipo.Record.Decode.Offsets.{IsValid, read_offsets-cases, offset_at-Ascends}
use oxihipo.Record.Decode.Total.{load_with_dict-IsValid}

-- Each event of a loaded record, and each index past the last one.
pub IsValid-event :
    (r : Record)
    → IsValid r
    → (i : ℕ)
    → ((i < r.header.event_count) × ((ev : Bytes) × (event r i ≡ ok (some ev))))
      ⊎ ((r.header.event_count ≤ i) × (event r i ≡ ok none))
unfolding event
IsValid-event r v i = elim (Bool-cases (leb (length r.event_offsets) (i + 1))) [
  | inl past ↦ inr (ground (arith, ap length v.all_offsets, v.count, leb→le _ _ past), rw past refl)
  | inr there ↦
      let (lo, hi, first, second, up, last) =
        offset_at-Ascends 0 v.offsets v.last i v.ascends
          (omega (arith, ap length v.all_offsets, v.count, leb_false→lt _ _ there)) in
      let at_lo : offset_at r.event_offsets i ≡ ok lo =
        ap (λ os. offset_at os i) v.all_offsets ∙ first in
      let at_hi : offset_at r.event_offsets (i + 1) ≡ ok hi =
        ap (λ os. offset_at os (i + 1)) v.all_offsets
        ∙ ap (offset_at (0 ∷ v.offsets)) {x = i + 1} {y = suc i} (omega arith)
        ∙ second in
      let cut =
        slice_total r.payload (data_section_offset r.header + lo)
          (data_section_offset r.header + hi) (omega arith) (omega (arith, v.inside)) in
      inl (
        omega (arith, ap length v.all_offsets, v.count, leb_false→lt _ _ there),
        (
          take (data_section_offset r.header + hi - (data_section_offset r.header + lo))
              (drop (data_section_offset r.header + lo) r.payload),
          rw (there, at_lo, at_hi, cut) refl,
        ),
      )
]

user_header_total : (r : Record) → IsValid r → (bytes : Bytes) × (user_header r ≡ ok bytes)
unfolding user_header
user_header_total r v = (
  take (r.header.index_array_length + r.header.user_header_length - r.header.index_array_length)
      (drop r.header.index_array_length r.payload),
  slice_total r.payload r.header.index_array_length
      (r.header.index_array_length + r.header.user_header_length) (omega arith)
      (omega (arith, v.inside)),
)

abbrev pub as_record : DecodedRecord × Bytes × List ℕ → Record
as_record (d, payload, offsets) = record {
  header = d.header;
  payload = payload;
  event_offsets = offsets;
}

offsets_agree :
    (payload : Bytes) (header : RecordHeader)
    → data_section_offset header < 2 ^ 32
    → (build_event_offsets payload header >>= λ offsets.
        ok (record { header = header; payload = payload; event_offsets = offsets }))
      ≡ map_ok as_record (do
        sums ← read_offsets payload header.event_count
        refuse_if
            (ltb (2 ^ 32 - 1) (data_section_offset header)
              || ltb (length payload) (data_section_offset header + sums.0))
            (corrupt_record 0 "event offsets extend past record payload")
        ok (record { header = header; data_start = data_section_offset header }, payload, sums.1))
unfolding build_event_offsets
offsets_agree payload header small = elim (read_offsets-cases payload header.event_count) [
  | inl (e, bad) ↦ rw bad refl
  | inr found ↦
      let low : ltb (2 ^ 32 - 1) (data_section_offset header) ≡ false =
        le→ltb_false _ _ (omega arith) in
      elim (Bool-cases (ltb (length payload) (data_section_offset header + found.last))) [
        | inl past ↦ rw (found.result, low, past) refl
        | inr fits ↦ rw (found.result, low, fits) refl
      ]
]

module _ (b : Backends) where
  -- Once `load_with_dict` has accepted a record, `event` gives the bytes of every event that the
  -- header counts and `None` past them, and `user_header` gives bytes: no access aborts, whatever the
  -- index array and the lengths of the header claimed.
  pub load_with_dict-event :
      (src : Bytes) (dict : Option Dict) (r : Record)
      → load_with_dict b src dict ≡ ok r
      → ((i : ℕ)
          → ((i < r.header.event_count) × ((ev : Bytes) × (event r i ≡ ok (some ev))))
            ⊎ ((r.header.event_count ≤ i) × (event r i ≡ ok none)))
        × ((bytes : Bytes) × (user_header r ≡ ok bytes))
  load_with_dict-event src dict r e =
      let v : IsValid r = load_with_dict-IsValid b src dict r e in
      (IsValid-event r v, user_header_total r v)

  -- `decode_record_into` and `load_with_dict` agree on a record that is not split by bank and whose
  -- data section starts below 4 GiB: what the first accepts the second accepts, with the same header,
  -- payload and offsets, and the other way round.
  pub decode_record_into-load_with_dict :
      (src : Bytes) (dict : Option Dict) (header : RecordHeader)
      → RecordHeader.parse src ≡ ok header
      → is_by_bank header.compression ≡ false
      → data_section_offset header < 2 ^ 32
      → load_with_dict b src dict ≡ map_ok as_record (decode_record_into b src dict)
  unfolding load_with_dict load_with_header decode_record_into
  decode_record_into-load_with_dict src dict header parsed plain small =
      rw (parsed, plain)
        (>>=-map_ok (decode_payload b src header dict) _ _
          (λ payload. offsets_agree payload header small))
