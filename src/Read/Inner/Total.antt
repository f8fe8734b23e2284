-- ===== src/Read/Inner/Total.antt =====
-- The walk over a file ends, whatever bytes the source gives.
use mathlib.Core.Option
use oxihipo.Prelude.{
  ℕ, zero, suc, ◌+◌, ◌%◌, ◌^◌, ◌≤◌, ◌<◌, ◌≡◌, ◌≢◌, refl, ap, ◌∙◌, ◌⊎◌, inl, inr, arith, Bool, true,
  false, Option, none, some, Bytes, HipoError, Result, ok, err, panic, ◌>>=◌, Bool-cases, All,
  >>=-ne-panic, ok-ne-panic,
}
use oxihipo.Wire.Bytes.{IsByte}
use oxihipo.Wire.RecordHeader
use oxihipo.Wire.RecordHeader.{RecordHeader}
use oxihipo.Wire.RecordHeader.Total.{parse-ne-panic_record, parse-IsParsed_record}
use oxihipo.Wire.EventIndex.{FileEventIndex, new}
use oxihipo.Read.Inner.{
  ReadAt, IsSource, ok_of, is_past, fits_at, is_record, find_first, find_first_record, advance,
  resynchronise, scan_record, scan_parsed, scan_step, scan, build_index_by_scanning,
}

-- The outcome of a result: it is one of the three.
ok_of-total : {A : Type 0} (r : Result A) → r ≢ panic → (o : Option A) × (ok_of r ≡ ok o)
ok_of-total (ok a) h = (some a, refl)
ok_of-total (err e) h = (none, refl)
ok_of-total panic h = absurd (h refl)

module _ (src : ReadAt) (source : IsSource src) (file_len : ℕ) (small : file_len < 2 ^ 63) where
  -- An offset from which sums do not wrap.
  Near : ℕ → Type 0
  Near off = off < 2 ^ 63 + 2 ^ 35

  not_past : (off : ℕ) → Near off → is_past src file_len off ≡ false → off + 56 ≤ file_len
  unfolding is_past Near
  not_past off near h = ground arith

  is_record-cases :
      (off : ℕ)
      → Near off
      → (is_record src file_len off ≡ ok none)
        ⊎ ((t : Bool) × (is_record src file_len off ≡ ok (some t)) × (off + 56 ≤ file_len))
  unfolding is_record
  is_record-cases off near = elim (Bool-cases (is_past src file_len off)) [
    | inl past ↦ inl (rw past refl)
    | inr room ↦
        let (o, found) = ok_of-total (src.read_exact_at off 56 >>= RecordHeader.parse) (
          >>=-ne-panic (src.read_exact_at off 56) RecordHeader.parse (source.returns off 56)
            (λ hdr _. parse-ne-panic_record hdr)) in
        inr (fits_at src file_len off o, rw (room, found) refl, not_past off near room)
  ]

  find_first-total :
      (rounds off : ℕ)
      → 0 < rounds
      → file_len < rounds + off
      → Near off
      → (o : Option ℕ) × (find_first src file_len rounds off ≡ ok o)
        × ((to : ℕ) → o ≡ some to → (off ≤ to) × (to + 56 ≤ file_len))
  unfolding find_first Near
  find_first-total zero off z f near = absurd (omega arith)
  find_first-total (suc rounds) off z f near = elim (is_record-cases off near) [
    | inl past ↦ (none, rw past refl, λ to e. cc)
    | inr (true, e, room) ↦ (some off, rw e refl, λ to same. ground arith)
    | inr (false, e, room) ↦
        let next : (off + 4) % 2 ^ 64 ≡ off + 4 = omega arith in
        let (o, found, after) =
          find_first-total rounds (off + 4) (omega arith) (omega arith) (omega arith) in
        (
          o,
          rw e (ap (find_first src file_len rounds) next ∙ found),
          λ to same. let (lo, hi) = after to same in (omega arith, hi),
        )
  ]

  -- The header at an offset, for what the walk does with it.
  record Sane (off : ℕ) (h : RecordHeader) : Type 0 where
    length_fits : h.record_length < 2 ^ 34
    inside : off + 56 ≤ file_len

  -- A round answers, and where it goes on it has moved on inside the file.
  Goes : ℕ → Result (Option (FileEventIndex × ℕ)) → Type 0
  Goes off r =
      (r ≢ panic)
      × ((idx : FileEventIndex) (to : ℕ) → r ≡ ok (some (idx, to)) → (off < to) × Near to)

  advance-Goes :
      (idx : FileEventIndex) (off len : ℕ)
      → off + 56 ≤ file_len
      → 0 < len
      → len < 2 ^ 34
      → Goes off (advance src file_len idx off len)
  unfolding advance Goes Near
  advance-Goes idx off len room z f = (λ e. ground arith, λ idx' to e. ground arith)

  scan_record-Goes :
      (trailer_pos : ℕ) (salvage : Bool) (idx : FileEventIndex) (off : ℕ) (h : RecordHeader)
      → off + 56 ≤ file_len
      → h.record_length < 2 ^ 34
      → Goes off (scan_record src file_len trailer_pos salvage idx off h)
  unfolding scan_record advance Goes Near
  scan_record-Goes trailer_pos salvage idx off h room f =
      (λ e. ground arith, λ idx' to e. ground arith)

  resynchronise-Goes :
      (salvage : Bool) (problem : HipoError) (idx : FileEventIndex) (off : ℕ)
      → off + 56 ≤ file_len
      → Goes off (resynchronise src file_len salvage problem idx off)
  unfolding resynchronise Goes Near find_first_record
  resynchronise-Goes false problem idx off room = (λ e. cc, λ idx' to e. cc)
  resynchronise-Goes true problem idx off room =
      let next : (off + 4) % 2 ^ 64 ≡ off + 4 = omega arith in
      let (o, found, after) =
        find_first-total (suc file_len) (off + 4) (omega arith) (omega arith) (omega arith) in
      rw (next, found) (ends o after)
    where
      ends :
          (o : Option ℕ)
          → ((to : ℕ) → o ≡ some to → (off + 4 ≤ to) × (to + 56 ≤ file_len))
          → Goes off (ok (Option.map (λ to. (idx, to)) o))
      ends none after = (λ e. cc, λ idx' to e. cc)
      ends (some x) after =
          let (lo, hi) = after x refl in (λ e. cc, λ idx' to e. ground (arith, lo, hi))

  scan_parsed-Goes :
      (trailer_pos : ℕ) (salvage : Bool) (idx : FileEventIndex) (off : ℕ) (hdr : Bytes)
      → All IsByte hdr
      → off + 56 ≤ file_len
      → (r : Result RecordHeader) → RecordHeader.parse hdr ≡ r
      → Goes off (scan_parsed src file_len trailer_pos salvage idx off r)
  unfolding scan_parsed
  scan_parsed-Goes trailer_pos salvage idx off hdr bytes room (ok h) e =
      scan_record-Goes trailer_pos salvage idx off h room
        (parse-IsParsed_record hdr h bytes e).0.record_fits
  scan_parsed-Goes trailer_pos salvage idx off hdr bytes room (err problem) e =
      resynchronise-Goes salvage problem idx off room
  scan_parsed-Goes trailer_pos salvage idx off hdr bytes room panic e =
      absurd (parse-ne-panic_record hdr e)

  scan_step-Goes :
      (trailer_pos : ℕ) (salvage : Bool) (idx : FileEventIndex) (off : ℕ)
      → Near off
      → (scan_step src file_len trailer_pos salvage idx off ≡ ok none)
        ⊎ (Goes off (scan_step src file_len trailer_pos salvage idx off) × (off + 56 ≤ file_len))
  unfolding scan_step Goes
  scan_step-Goes trailer_pos salvage idx off near = elim (Bool-cases (is_past src file_len off)) [
    | inl past ↦ inl (rw past refl)
    | inr room ↦
        let inside = not_past off near room in
        inr (rw room (read (src.read_exact_at off 56) refl inside), inside)
  ]
    where
      read :
          (r : Result Bytes)
          → src.read_exact_at off 56 ≡ r
          → off + 56 ≤ file_len
          → Goes off (
              r >>= λ hdr.
              scan_parsed src file_len trailer_pos salvage idx off (RecordHeader.parse hdr))
      read panic e inside = absurd (source.returns off 56 e)
      read (err problem) e inside = (λ q. cc, λ idx' to q. cc)
      read (ok hdr) e inside =
          scan_parsed-Goes trailer_pos salvage idx off hdr (source.bytes off 56 hdr e) inside
            (RecordHeader.parse hdr) refl

  scan-ne-panic :
      (trailer_pos : ℕ) (salvage : Bool) (rounds : ℕ) (idx : FileEventIndex) (off : ℕ)
      → 0 < rounds
      → file_len < rounds + off
      → Near off
      → scan src file_len rounds trailer_pos salvage idx off ≢ panic
  unfolding scan Goes
  scan-ne-panic trailer_pos salvage zero idx off z f near = absurd (omega arith)
  scan-ne-panic trailer_pos salvage (suc rounds) idx off z f near =
      elim (scan_step-Goes trailer_pos salvage idx off near) [
        | inl stop ↦ rw stop (ok-ne-panic idx)
        | inr ((calm, on), inside) ↦
            >>=-ne-panic (scan_step src file_len trailer_pos salvage idx off) _ calm
              (next on inside (scan-ne-panic trailer_pos salvage rounds))
      ]
    where
      next :
          ((idx' : FileEventIndex) (to : ℕ)
            → scan_step src file_len trailer_pos salvage idx off ≡ ok (some (idx', to))
            → (off < to) × Near to)
          → off + 56 ≤ file_len
          → ((idx' : FileEventIndex) (to : ℕ)
              → 0 < rounds
              → file_len < rounds + to
              → Near to
              → scan src file_len rounds trailer_pos salvage idx' to ≢ panic)
          → (s : Option (FileEventIndex × ℕ))
          → scan_step src file_len trailer_pos salvage idx off ≡ ok s
          → elim s [
            | none ↦ ok idx
            | some (idx', off') ↦ scan src file_len rounds trailer_pos salvage idx' off'
          ]
            ≢ panic
      next on inside again none e = ok-ne-panic idx
      next on inside again (some (idx', to)) e =
          let (lo, near') = on idx' to e in again idx' to (omega arith) (omega arith) near'

  -- The walk over a file ends with an index or an error, in both modes and whatever bytes the file
  -- holds: the source answers with bytes or an error, the file is shorter than 2^63 bytes, and the
  -- walk starts below 2^63, as the sum of two header lengths does.
  pub build_index_by_scanning-ne-panic :
      (first trailer_pos : ℕ) (salvage : Bool)
      → first < 2 ^ 63
      → build_index_by_scanning src file_len first trailer_pos salvage ≢ panic
  unfolding build_index_by_scanning Near
  build_index_by_scanning-ne-panic first trailer_pos salvage near =
      scan-ne-panic trailer_pos salvage (suc file_len) new first (omega arith) (omega arith)
        (omega arith)
