-- ===== src/Record/Builder/Events.antt =====
-- The events that an index array and their bytes stand for.
use mathlib.Core.List.{append_assoc}
use oxihipo.Prelude.{
  ℕ, zero, suc, ◌+◌, ◌-◌, ◌*◌, ◌%◌, ◌^◌, ◌≤◌, ◌<◌, ◌≡◌, min, refl, sym, ap, ◌∙◌, inl, inr, arith,
  false, List, [], ◌∷◌, ◌++◌, none, some, ltb, leb, length, get_elem?, Bytes, ok, length-append,
  Bool-cases, leb→le, leb_false→lt, le→ltb_false,
}
use oxihipo.Wire.Bytes.{le_bytes, le_value, little}
use oxihipo.Wire.Bytes.Laws.{slice-append, read_le-append, le_value-le_bytes, length-le_bytes}
use oxihipo.Wire.RecordHeader.{RecordHeader}
use oxihipo.Event.BankBuilder.{concat}
use oxihipo.Record.Decode.{
  Record, data_section_offset, push_offsets, read_offsets, build_event_offsets, offset_at, event,
}
use oxihipo.Record.Builder.{Compression, total_data, block_header}
use oxihipo.Record.Builder.Build.{index_of, length-index_of, length-payload}

-- The ends of the events, from a first offset.
abbrev pub ends : ℕ → List Bytes → List ℕ
ends acc [] = []
ends acc (ev ∷ evs) = (acc + length ev) ∷ ends (acc + length ev) evs

push_offsets-index_of :
    (pre : Bytes) (evs : List Bytes) (post : Bytes) (i acc : ℕ)
    → i * 4 ≡ length pre
    → acc + total_data evs < 2 ^ 32
    → push_offsets (length evs) i acc (pre ++ (index_of evs ++ post))
      ≡ ok (acc + total_data evs, ends acc evs)
unfolding push_offsets
push_offsets-index_of pre [] post i acc h k = ap (λ n. ok (n, [])) (omega arith)
push_offsets-index_of pre (ev ∷ evs) post i acc h k =
    let word : Bytes = le_bytes 4 (length ev % 2 ^ 32) in
    let value : le_value word ≡ length ev =
      le_value-le_bytes 4 (length ev % 2 ^ 32) (omega arith) ∙ omega arith in
    let sum : min (acc + length ev) (2 ^ 32 - 1) ≡ acc + length ev = omega arith in
    rw
      (
        append_assoc word (index_of evs) post,
        read_le-append 4 pre word (index_of evs ++ post) (i * 4) h
            (length-le_bytes 4 (length ev % 2 ^ 32)),
        value,
        sum,
        sym (append_assoc pre word (index_of evs ++ post)),
        push_offsets-index_of (pre ++ word) evs post (suc i) (acc + length ev)
            (omega (arith, h, length-append pre word, length-le_bytes 4 (length ev % 2 ^ 32)))
            (omega arith),
      )
      (ap (λ n. ok (n, (acc + length ev) ∷ ends (acc + length ev) evs)) (omega arith))

length-ends : (acc : ℕ) (evs : List Bytes) → length (ends acc evs) ≡ length evs
length-ends acc [] = refl
length-ends acc (ev ∷ evs) = ap suc (length-ends (acc + length ev) evs)

-- An event's place among the bytes of all.
pub record Place (acc : ℕ) (evs : List Bytes) (i : ℕ) : Type 0 where
  pub before : Bytes
  pub item : Bytes
  pub after : Bytes
  pub parts : concat evs ≡ before ++ (item ++ after)
  pub found : get_elem? evs i ≡ some item
  pub first : offset_at (acc ∷ ends acc evs) i ≡ ok (acc + length before)
  pub second : offset_at (acc ∷ ends acc evs) (suc i) ≡ ok (acc + length before + length item)

pub place : (acc : ℕ) (evs : List Bytes) (i : ℕ) → i < length evs → Place acc evs i
place acc [] i h = absurd (omega arith)
place acc (ev ∷ evs) zero h = record {
  before = [];
  item = ev;
  after = concat evs;
  parts = refl;
  found = refl;
  first = ap ok (omega arith);
  second = ap ok (omega arith);
}
place acc (ev ∷ evs) (suc i) h =
    let p = place (acc + length ev) evs i (omega (arith, h)) in
    let sum : acc + length ev + length p.before ≡ acc + length (ev ++ p.before) =
      omega (arith, length-append ev p.before) in
    record {
      before = ev ++ p.before;
      item = p.item;
      after = p.after;
      parts = ap (λ x. ev ++ x) p.parts ∙ sym (append_assoc ev p.before (p.item ++ p.after));
      found = p.found;
      first = p.first ∙ ap ok sum;
      second = p.second ∙ ap (λ n. ok (n + length p.item)) sum;
    }

get_elem?-past : (evs : List Bytes) (i : ℕ) → length evs ≤ i → get_elem? evs i ≡ none
get_elem?-past [] i h = refl
get_elem?-past (ev ∷ evs) zero h = absurd (omega arith)
get_elem?-past (ev ∷ evs) (suc i) h = get_elem?-past evs i (omega (arith, h))

-- A record whose payload is an index array and the events after it.
pub event-index_of :
    (r : Record) (evs : List Bytes) (i : ℕ)
    → r.payload ≡ index_of evs ++ concat evs
    → r.event_offsets ≡ 0 ∷ ends 0 evs
    → data_section_offset r.header ≡ length evs * 4
    → event r i ≡ ok (get_elem? evs i)
unfolding event
event-index_of r evs i payload offsets start =
    elim (Bool-cases (leb (length r.event_offsets) (i + 1))) [
      | inl past ↦ rw past (
          ap ok (
            sym (
              get_elem?-past evs i
                (omega (arith, leb→le _ _ past, ap length offsets, length-ends 0 evs)))))
      | inr there ↦
          let p =
            place 0 evs i
              (omega (arith, leb_false→lt _ _ there, ap length offsets, length-ends 0 evs)) in
          let lo : offset_at r.event_offsets i ≡ ok (0 + length p.before) =
            ap (λ os. offset_at os i) offsets ∙ p.first in
          let hi : offset_at r.event_offsets (i + 1) ≡ ok (0 + length p.before + length p.item) =
            ap (λ os. offset_at os (i + 1)) offsets
            ∙ ap (offset_at (0 ∷ ends 0 evs)) {x = i + 1} {y = suc i} (omega arith)
            ∙ p.second in
          let bytes : r.payload ≡ (index_of evs ++ p.before) ++ (p.item ++ p.after) =
            payload
            ∙ ap (λ x. index_of evs ++ x) p.parts
            ∙ sym (append_assoc (index_of evs) p.before (p.item ++ p.after)) in
          let cut =
            slice-append (index_of evs ++ p.before) p.item p.after
              (data_section_offset r.header + (0 + length p.before))
              (data_section_offset r.header + (0 + length p.before + length p.item))
              (omega (arith, start, length-append (index_of evs) p.before, length-index_of evs))
              (omega (arith, start, length-append (index_of evs) p.before, length-index_of evs)) in
          rw (there, lo, hi) (rw (bytes, cut) (ap ok (sym p.found)))
    ]

pub build_event_offsets-index_of :
    (evs : List Bytes) (h : RecordHeader)
    → length evs * 4 + total_data evs < 2 ^ 32
    → h.event_count ≡ length evs
    → data_section_offset h ≡ length evs * 4
    → build_event_offsets (index_of evs ++ concat evs) h ≡ ok (0 ∷ ends 0 evs)
unfolding build_event_offsets read_offsets
build_event_offsets-index_of evs h fits count start =
    let room : ltb (length (index_of evs ++ concat evs)) (length evs * 4) ≡ false =
      le→ltb_false _ _ (omega (arith, length-payload evs)) in
    let inside : ltb (length (index_of evs ++ concat evs)) (length evs * 4 + (0 + total_data evs))
        ≡ false =
      le→ltb_false _ _ (omega (arith, length-payload evs)) in
    rw
      (
        count,
        room,
        push_offsets-index_of [] evs (concat evs) 0 0 refl (omega (arith, fits)),
        start,
        inside,
      )
      refl

pub little_header :
    (evs : List Bytes) (u1 u2 : ℕ) (c : Compression) (number pad len : ℕ)
    → (block_header evs u1 u2 c number pad len).endianness ≡ little
unfolding block_header
little_header evs u1 u2 c number pad len = refl
