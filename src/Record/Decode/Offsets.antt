-- ===== src/Record/Decode/Offsets.antt =====
-- The offsets of the events, as decoding builds them.
use oxihipo.Prelude.{
  ℕ, zero, suc, ◌+◌, ◌-◌, ◌*◌, ◌^◌, ◌≤◌, ◌<◌, ◌≡◌, min, refl, sym, ap, ◌∙◌, inl, inr, arith, false,
  List, [], ◌∷◌, ltb, length, Bytes, ok, err, refuse_if, corrupt_record, Bool-cases, HipoError, ◌⊎◌,
  >>=-eq-ok, refuse_if-ok, ok-injective,
}
use oxihipo.Wire.Bytes.Laws.{read_le_total}
use oxihipo.Wire.RecordHeader.{RecordHeader}
use oxihipo.Record.Decode.{
  Record, data_section_offset, push_offsets, read_offsets, build_event_offsets, offset_at,
}

-- Offsets that never step back, from a first to a last one.
abbrev pub Ascends : ℕ → List ℕ → ℕ → Type 0
Ascends lo [] hi = lo ≡ hi
Ascends lo (o ∷ os) hi = (lo ≤ o) × Ascends o os hi

push_offsets-Ascends :
    (n i acc : ℕ) (payload : Bytes)
    → (i + n) * 4 ≤ length payload
    → acc < 2 ^ 32
    → (last : ℕ) × (os : List ℕ) × (push_offsets n i acc payload ≡ ok (last, os))
      × Ascends acc os last
      × (length os ≡ n)
unfolding push_offsets
push_offsets-Ascends zero i acc payload h k = (acc, [], refl, refl, refl)
push_offsets-Ascends (suc n) i acc payload h k =
    let (size, e) = read_le_total 4 payload (i * 4) (omega arith) in
    let (last, os, e', a, l) =
      push_offsets-Ascends n (suc i) (min (acc + size) (2 ^ 32 - 1)) payload (omega arith)
        (omega arith) in
    (last, min (acc + size) (2 ^ 32 - 1) ∷ os, rw (e, e') refl, (omega arith, a), ap suc l)

Ascends-le : (lo : ℕ) (os : List ℕ) (hi : ℕ) → Ascends lo os hi → lo ≤ hi
Ascends-le lo [] hi a = omega (arith, a)
Ascends-le lo (o ∷ os) hi (le, a) = omega (arith, le, Ascends-le o os hi a)

pub offset_at-Ascends :
    (lo : ℕ) (os : List ℕ) (hi i : ℕ)
    → Ascends lo os hi
    → i < length os
    → (a b : ℕ) × (offset_at (lo ∷ os) i ≡ ok a)
      × (offset_at (lo ∷ os) (suc i) ≡ ok b)
      × (a ≤ b)
      × (b ≤ hi)
offset_at-Ascends lo [] hi i a h = absurd (omega arith)
offset_at-Ascends lo (o ∷ os) hi zero (le, a) h = (lo, o, refl, refl, le, Ascends-le o os hi a)
offset_at-Ascends lo (o ∷ os) hi (suc i) (le, a) h =
    offset_at-Ascends o os hi i a (omega (arith, h))

-- What a loaded record keeps to.
pub record IsValid (r : Record) : Type 0 where
  pub last : ℕ
  pub offsets : List ℕ
  pub all_offsets : r.event_offsets ≡ 0 ∷ offsets
  pub ascends : Ascends 0 offsets last
  pub count : length offsets ≡ r.header.event_count
  pub inside : data_section_offset r.header + last ≤ length r.payload

-- Reading the index array: it is refused, or the offsets ascend.
pub record Offsets (payload : Bytes) (n : ℕ) : Type 0 where
  pub last : ℕ
  pub offsets : List ℕ
  pub result : read_offsets payload n ≡ ok (last, 0 ∷ offsets)
  pub ascends : Ascends 0 offsets last
  pub count : length offsets ≡ n

pub read_offsets-cases :
    (payload : Bytes) (n : ℕ)
    → ((e : HipoError) × (read_offsets payload n ≡ err e)) ⊎ Offsets payload n
unfolding read_offsets
read_offsets-cases payload n = elim (Bool-cases (ltb (length payload) (n * 4))) [
  | inl small ↦ inl (corrupt_record 0 "index array shorter than event_count*4", rw small refl)
  | inr room ↦
      let (last, os, e, a, l) = push_offsets-Ascends n 0 0 payload (ground arith) (omega arith) in
      inr (record {
        last = last;
        offsets = os;
        result = unfold read_offsets in rw (room, e) refl;
        ascends = a;
        count = l;
      })
]

pub build_event_offsets-IsValid :
    (payload : Bytes) (header : RecordHeader) (os : List ℕ)
    → build_event_offsets payload header ≡ ok os
    → IsValid (record { header = header; payload = payload; event_offsets = os })
unfolding build_event_offsets
build_event_offsets-IsValid payload header os e =
    let (sums, first, second) = >>=-eq-ok (read_offsets payload header.event_count) _ e in
    let (u, fits, third) =
      >>=-eq-ok (refuse_if (ltb (length payload) (data_section_offset header + sums.0)) _) _
        second in
    elim (read_offsets-cases payload header.event_count) [
      | inl (problem, bad) ↦ cc
      | inr found ↦
          let same : (found.last, 0 ∷ found.offsets) ≡ sums =
            ok-injective (sym found.result ∙ first) in
          let inside : ltb (length payload) (data_section_offset header + sums.0) ≡ false =
            refuse_if-ok _ _ fits in
          record {
            last = found.last;
            offsets = found.offsets;
            all_offsets = sym (ok-injective third) ∙ ap (λ p. p.1) (sym same);
            ascends = found.ascends;
            count = found.count;
            inside = ground (arith, inside, ap (λ p. p.0) same);
          }
    ]
