-- ===== src/Read/Iter/Load.antt =====
-- A record that a writer made, loaded by the iterator.
use mathlib.Core.Option.{some-injective}
use mathlib.Core.Path.{ap₂, subst}
use oxihipo.Prelude.{
  ℕ, ◌+◌, ◌-◌, ◌%◌, ◌^◌, ◌≤◌, ◌<◌, ◌≡◌, refl, sym, ap, ◌∙◌, inl, inr, arith, false, List, none,
  some, Option, ltb, leb, length, get_elem?, Bytes, Result, ok, err, panic, ◌>>=◌, leb_false→lt,
  corrupt_record, refuse_if, map_ok, >>=-eq-ok, refuse_if-ok, ok-injective, Bool-cases,
  le→ltb_false,
}
use oxihipo.Wire.Bytes.{slice, little}
use oxihipo.Wire.RecordHeader.{RecordHeader}
use oxihipo.Schema.Dict.{Dict}
use oxihipo.Record.Codec.{Backends}
use oxihipo.Record.Decode.{
  Record, DecodedRecord, decode_payload, build_event_offsets, read_offsets, load, load_with_header,
  load_with_dict, decode_record_into, data_section_offset, offset_at, event,
}
use oxihipo.Record.Decode.Total.{load_with_dict-IsValid}
use oxihipo.Read.Iter.{CurrentRecord, SplitRecords, event_count, decode_current}
use oxihipo.Read.Inner.Sound.{Readable}

decode_payload-little :
    (b : Backends) (src : Bytes) (h : RecordHeader) (d : Option Dict)
    → h.endianness ≡ little
    → decode_payload b src h d ≡ decode_payload b src h none
unfolding decode_payload
decode_payload-little b src h d order = rw order refl

abbrev pub decoded_as : RecordHeader → Bytes → List ℕ → Record
decoded_as h payload offsets = record { header = h; payload = payload; event_offsets = offsets }

abbrev pub decoded_parts : RecordHeader → Record → DecodedRecord × Bytes × List ℕ
decoded_parts h x =
    (record { header = h; data_start = data_section_offset h }, x.payload, x.event_offsets)

-- What the iterator's decoder makes of a record that loads.
pub decode_record_into-Readable :
    (b : Backends) (bytes : Bytes) (evs : List Bytes) (d : Dict) (r : Readable b bytes evs)
    → length evs < 2 ^ 30
    → decode_record_into b bytes (some d) ≡ ok (decoded_parts r.header r.loaded)
unfolding load load_with_header build_event_offsets decode_record_into
decode_record_into-Readable b bytes evs d r few =
    let e1 : (do
      payload ← decode_payload b bytes r.header none
      offsets ← build_event_offsets payload r.header
      ok (decoded_as r.header payload offsets))
        ≡ ok r.loaded =
      sym (rw (r.parsed_whole, r.not_by_bank) refl) ∙ r.loads in
    let (payload, decoded, e2) = >>=-eq-ok (decode_payload b bytes r.header none) _ e1 in
    let (offsets, listed, e3) = >>=-eq-ok (build_event_offsets payload r.header) _ e2 in
    let (sums, summed, e4) = >>=-eq-ok (read_offsets payload r.header.event_count) _ listed in
    let (_, checked, e5) =
      >>=-eq-ok
        (refuse_if (ltb (length payload) (data_section_offset r.header + sums.0))
          (corrupt_record 0 "event offsets extend past record payload"))
        _ e4 in
    let inside : ltb (length payload) (data_section_offset r.header + sums.0) ≡ false =
      refuse_if-ok _ _ checked in
    let low : ltb (2 ^ 32 - 1) (data_section_offset r.header) ≡ false =
      le→ltb_false _ _ (omega (arith, r.section)) in
    rw
      (
        r.parsed_whole,
        decode_payload-little b bytes r.header (some d) r.order,
        decoded,
        summed,
        low,
        inside,
      )
      (ap (λ os. ok (decoded_parts r.header (decoded_as r.header payload os))) (ok-injective e5)
        ∙ ap (λ x. ok (decoded_parts r.header x)) (ok-injective e3))

-- The event at an index of a current record, its range inside 32 bits.
pub record Shows (cur : CurrentRecord) (j : ℕ) (ev : Bytes) : Type 0 where
  pub payload : Bytes
  pub offsets : List ℕ
  pub data_start : ℕ
  pub is_bytes : cur ≡ CurrentRecord.bytes payload offsets data_start
  pub lo : ℕ
  pub hi : ℕ
  pub first : offset_at offsets j ≡ ok lo
  pub second : offset_at offsets (j + 1) ≡ ok hi
  pub cut : slice payload ((data_start + lo) % 2 ^ 32) ((data_start + hi) % 2 ^ 32) ≡ ok ev

-- The range of an event that `event` gives.
pub event-parts :
    (r : Record) (j : ℕ) (ev : Bytes)
    → event r j ≡ ok (some ev)
    → (lo hi : ℕ) × (offset_at r.event_offsets j ≡ ok lo)
      × (offset_at r.event_offsets (j + 1) ≡ ok hi)
      × (slice r.payload (data_section_offset r.header + lo) (data_section_offset r.header + hi)
          ≡ ok ev)
      × (j + 1 < length r.event_offsets)
unfolding event
event-parts r j ev e = elim (Bool-cases (leb (length r.event_offsets) (j + 1))) [
  | inl past ↦ let stop : event r j ≡ ok none = rw past refl in cc (stop, e)
  | inr there ↦
      let found : (do
        lo ← offset_at r.event_offsets j
        hi ← offset_at r.event_offsets (j + 1)
        map_ok some (
            slice r.payload (data_section_offset r.header + lo)
              (data_section_offset r.header + hi)))
          ≡ ok (some ev) =
        sym (rw there refl) ∙ e in
      let (lo, first, e1) = >>=-eq-ok (offset_at r.event_offsets j) _ found in
      let (hi, second, e2) = >>=-eq-ok (offset_at r.event_offsets (j + 1)) _ e1 in
      (
        lo,
        hi,
        first,
        second,
        inner
            (slice r.payload (data_section_offset r.header + lo)
              (data_section_offset r.header + hi))
            e2,
        leb_false→lt _ _ there,
      )
]
  where
    inner : (x : Result Bytes) → map_ok some x ≡ ok (some ev) → x ≡ ok ev
    inner (ok x) h = ap ok (some-injective x ev (ok-injective h))
    inner (err p) h = cc
    inner panic h = cc

-- The events of a current record that are left from an index on.
pub record Left (cur : CurrentRecord) (j : ℕ) (es : List Bytes) : Type 0 where
  pub count : event_count cur ≡ j + length es
  pub shows : (i : ℕ) (ev : Bytes) → get_elem? es i ≡ some ev → Shows cur (j + i) ev

pub slice_inside :
    (buf : Bytes) (lo hi : ℕ) (out : Bytes)
    → slice buf lo hi ≡ ok out
    → (lo ≤ hi) × (hi ≤ length buf)
unfolding slice
slice_inside buf lo hi out e = (ground arith, ground arith)

abbrev pub loaded_record : RecordHeader → Record → CurrentRecord
loaded_record h x = CurrentRecord.bytes x.payload x.event_offsets (data_section_offset h)

pub loaded-Shows :
    (b : Backends) (bytes : Bytes) (evs : List Bytes) (r : Readable b bytes evs) (j : ℕ)
    (ev : Bytes)
    → get_elem? evs j ≡ some ev
    → Shows (loaded_record r.header r.loaded) j ev
loaded-Shows b bytes evs r j ev e =
    let (lo, hi, first, second, cut, _) = event-parts r.loaded j ev (r.events j ∙ ap ok e) in
    let same : data_section_offset r.loaded.header ≡ data_section_offset r.header =
      ap (λ h. data_section_offset h) r.loaded_header in
    let (up, inside) =
      slice_inside r.loaded.payload (data_section_offset r.loaded.header + lo)
        (data_section_offset r.loaded.header + hi) ev cut in
    record {
      payload = r.loaded.payload;
      offsets = r.loaded.event_offsets;
      data_start = data_section_offset r.header;
      is_bytes = refl;
      lo = lo;
      hi = hi;
      first = first;
      second = second;
      cut =
          ap₂ (slice r.loaded.payload) {x = (data_section_offset r.header + lo) % 2 ^ 32}
            {y = data_section_offset r.loaded.header + lo} (omega (arith, same, r.payload_fits))
            (omega (arith, same, r.payload_fits))
          ∙ cut;
    }

-- The record of a writer, loaded: all its events are left.
pub decode_current-Readable :
    (b : Backends) (split : SplitRecords) (bytes : Bytes) (evs : List Bytes) (d : Dict)
    (r : Readable b bytes evs)
    → length evs < 2 ^ 30
    → (cur : CurrentRecord) × (decode_current b split r.header.compression bytes d ≡ ok cur)
      × Left cur 0 evs
unfolding decode_current event_count load load_with_dict
decode_current-Readable b split bytes evs d r few =
    let valid = load_with_dict-IsValid b bytes none r.loaded r.loads in
    (
      loaded_record r.header r.loaded,
      rw (r.not_by_bank, r.not_per_column, decode_record_into-Readable b bytes evs d r few) refl,
      record {
        count = omega (
          arith,
          ap length valid.all_offsets,
          valid.count,
          ap (λ h. h.event_count) r.loaded_header,
          r.count,
        );
        shows = λ i ev e.
            subst (λ k. Shows (loaded_record r.header r.loaded) k ev) {x = i} {y = 0 + i}
              (omega arith) (loaded-Shows b bytes evs r i ev e);
      },
    )
