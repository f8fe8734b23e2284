-- ===== src/Read/Inner/Cut.antt =====
-- A file that ends inside a record.
use mathlib.Core.List.{append_assoc, append-nil}
use mathlib.Core.Path.{ap₂, subst}
use oxihipo.Prelude.{
  ℕ, zero, suc, ◌+◌, ◌*◌, ◌^◌, ◌≤◌, ◌<◌, ◌≡◌, refl, sym, ap, ◌∙◌, inl, inr, arith, true, false,
  List, [], ◌∷◌, ◌++◌, none, length, take, Bytes, ok, length-append, ltb, Bool-cases,
}
use oxihipo.Wire.RecordHeader
use oxihipo.Wire.RecordHeader.{RecordHeader}
use oxihipo.Wire.EventIndex.{FileEventIndex, new}
use oxihipo.Write.Writer.Tracks.{Item, bytes_of}
use oxihipo.Read.Inner.{
  ReadAt, Serves, is_past, scan_record, scan_parsed, scan_step, scan, build_index_by_scanning,
}
use oxihipo.Read.Inner.Framed.{Framed, AllFramed}
use oxihipo.Read.Inner.Scan.{index_items, is_past-inside, read_header}
use oxihipo.Read.Inner.Ends.{scan-ends, scan-short}

take-append : (n : ℕ) (xs ys : Bytes) → n ≤ length xs → take n (xs ++ ys) ≡ take n xs
take-append zero xs ys h = refl
take-append (suc n) [] ys h = absurd (omega arith)
take-append (suc n) (x ∷ xs) ys h = ap (◌∷◌ x) (take-append n xs ys (omega arith))

module _ (src : ReadAt) (file_len trailer_pos : ℕ) (small : file_len < 2 ^ 63) where
  -- The header of the record that was cut is there.
  record Cut (pre part : Bytes) (h : RecordHeader) (len n : ℕ) : Type 0 where
    inside : is_past src file_len (length pre) ≡ false
    front : src.read_exact_at (length pre) 56 ≡ ok (take 56 part)
    parsed : RecordHeader.parse (take 56 part) ≡ ok h
    total : h.record_length ≡ len
    count : h.event_count ≡ n
    index : h.index_array_length ≡ n * 4
    past : file_len < length pre + len
    below : length pre + len < 2 ^ 64
    full : 56 ≤ len

  cut :
      (pre part lost : Bytes) (i : Item)
      → Serves src (pre ++ (part ++ []))
      → file_len ≡ length pre + length part
      → Framed i.bytes i.chunk
      → i.bytes ≡ part ++ lost
      → 56 ≤ length part
      → 0 < length lost
      → (h : RecordHeader) × Cut pre part h (length i.bytes) (length i.chunk)
  cut pre part lost i s whole r parts long some_lost = (
    r.header,
    record {
      inside = is_past-inside src file_len (length pre) (omega arith) small;
      front = read_header src pre part [] (length pre) s long refl;
      parsed =
          ap RecordHeader.parse (sym (take-append 56 part lost long) ∙ ap (take 56) (sym parts))
          ∙ r.parsed;
      total = r.total;
      count = r.count;
      index = r.index;
      past = omega (arith, ap length parts, length-append part lost);
      below = omega (arith, r.small);
      full = r.long;
    },
  )

  scan_record-cut :
      (idx : FileEventIndex) (off : ℕ) (h : RecordHeader) (len : ℕ)
      → h.record_length ≡ len
      → file_len < off + len
      → off + len < 2 ^ 64
      → scan_record src file_len trailer_pos true idx off h ≡ ok none
  unfolding scan_record
  scan_record-cut idx off h len a past below = ground arith

  scan_step-Cut :
      (idx : FileEventIndex) (pre part : Bytes) (h : RecordHeader) (len n : ℕ)
      → Cut pre part h len n
      → scan_step src file_len trailer_pos true idx (length pre) ≡ ok none
  unfolding scan_step scan_parsed
  scan_step-Cut idx pre part h len n c =
      rw (c.inside, c.front, c.parsed)
        (scan_record-cut idx (length pre) h len c.total c.past c.below)

  -- Salvage stops at the record that was cut.
  pub scan-cut :
      (start part lost : Bytes) (is : List Item) (i : Item)
      → Serves src (start ++ (bytes_of is ++ part))
      → file_len ≡ length (start ++ (bytes_of is ++ part))
      → AllFramed is
      → trailer_pos < length start
      → Framed i.bytes i.chunk
      → i.bytes ≡ part ++ lost
      → 0 < length lost
      → build_index_by_scanning src file_len (length start) trailer_pos true
        ≡ ok (index_items new (length start) is)
  unfolding scan
  scan-cut start part lost is i s whole ps before r parts some_lost =
      elim (Bool-cases (ltb (length part) 56)) [
        | inl short ↦
            scan-short src file_len trailer_pos true small start part is s whole ps (inl before)
              (ground arith)
        | inr long ↦
            let pre : Bytes = start ++ bytes_of is in
            let same : start ++ (bytes_of is ++ part) ≡ pre ++ (part ++ []) =
              simp (append_assoc, append-nil) in
            let place : length pre ≡ length start + length (bytes_of is) =
              length-append start (bytes_of is) in
            let c =
              cut pre part lost i (subst (Serves src) same s)
                (omega (
                  arith,
                  whole,
                  ap length same,
                  length-append pre (part ++ []),
                  length-append part [],
                ))
                r parts (ground arith) some_lost in
            scan-ends src file_len trailer_pos true small start part is 1 s whole ps (inl before)
              (omega arith)
              (λ more idx.
                ap₂ (λ n o. scan src file_len n trailer_pos true idx o) {x = 1 + more}
                  {y = suc more} (omega arith) (sym place)
                ∙ rw (scan_step-Cut idx pre part c.0 (length i.bytes) (length i.chunk) c.1) refl)
      ]
