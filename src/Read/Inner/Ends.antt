-- ===== src/Read/Inner/Ends.antt =====
-- Where the walk over the records of a file ends: at the end of the file, in a record that was cut,
-- or behind the trailer.
use mathlib.Core.List.{append_assoc, append-nil}
use mathlib.Core.Path.{ap₂, subst}
use oxihipo.Prelude.{
  ℕ, suc, ◌+◌, ◌-◌, ◌*◌, ◌^◌, ◌≤◌, ◌<◌, ◌≡◌, refl, sym, ap, ◌∙◌, ◌⊎◌, inr, arith, Bool, List, [],
  ◌∷◌, ◌++◌, none, some, length, Bytes, ok, length-append,
}
use oxihipo.Wire.RecordHeader.{RecordHeader}
use oxihipo.Wire.EventIndex.{FileEventIndex, new}
use oxihipo.Write.Writer.Tracks.{Item, bytes_of}
use oxihipo.Read.Inner.{
  ReadAt, Serves, is_past, advance, scan_record, scan_parsed, scan_step, scan,
  build_index_by_scanning,
}
use oxihipo.Read.Inner.Framed.{Framed, AllFramed}
use oxihipo.Read.Inner.Scan.{index_items, is_past-inside, read_header, scan-AllFramed}

length-items : (is : List Item) → AllFramed is → length is ≤ length (bytes_of is)
length-items [] ps = omega arith
length-items (i ∷ is) (p, ps) =
    omega (arith, length-items is ps, length-append i.bytes (bytes_of is), p.0.long)

module _ (src : ReadAt) (file_len trailer_pos : ℕ) (salvage : Bool)
    (small : file_len < 2 ^ 63) where
  -- The walk over the records, and then its end after some rounds.
  pub scan-ends :
      (start rest : Bytes) (is : List Item) (needed : ℕ)
      → Serves src (start ++ (bytes_of is ++ rest))
      → file_len ≡ length (start ++ (bytes_of is ++ rest))
      → AllFramed is
      → (trailer_pos < length start) ⊎ (length start + length (bytes_of is) ≤ trailer_pos)
      → needed ≤ suc (length rest)
      → ((more : ℕ) (idx : FileEventIndex)
          → scan src file_len
              (needed + more)
              trailer_pos
              salvage
              idx
              (length start + length (bytes_of is))
            ≡ ok idx)
      → build_index_by_scanning src file_len (length start) trailer_pos salvage
        ≡ ok (index_items new (length start) is)
  unfolding build_index_by_scanning
  scan-ends start rest is needed s whole ps apart few end =
      let more : ℕ = suc file_len - length is - needed in
      let enough : length is + (needed + more) ≡ suc file_len = omega (
        arith,
        length-items is ps,
        length-append start (bytes_of is ++ rest),
        length-append (bytes_of is) rest,
      ) in
      ap (λ r. scan src file_len r trailer_pos salvage new (length start)) (sym enough)
      ∙ scan-AllFramed src file_len trailer_pos salvage small (needed + more) new start rest is s
          whole ps apart
      ∙ end more (index_items new (length start) is)

  scan_step-past :
      (idx : FileEventIndex) (off : ℕ)
      → file_len < off + 56
      → off ≤ file_len
      → scan_step src file_len trailer_pos salvage idx off ≡ ok none
  unfolding scan_step is_past
  scan_step-past idx off h f = ground arith

  pub scan-past :
      (more off : ℕ) (idx : FileEventIndex)
      → file_len < off + 56
      → off ≤ file_len
      → scan src file_len (1 + more) trailer_pos salvage idx off ≡ ok idx
  unfolding scan
  scan-past more off idx h f =
      ap (λ r. scan src file_len r trailer_pos salvage idx off) {y = suc more} (omega arith)
      ∙ rw (scan_step-past idx off h f) refl

  -- Behind the records stands less than a header.
  pub scan-short :
      (start rest : Bytes) (is : List Item)
      → Serves src (start ++ (bytes_of is ++ rest))
      → file_len ≡ length (start ++ (bytes_of is ++ rest))
      → AllFramed is
      → (trailer_pos < length start) ⊎ (length start + length (bytes_of is) ≤ trailer_pos)
      → length rest < 56
      → build_index_by_scanning src file_len (length start) trailer_pos salvage
        ≡ ok (index_items new (length start) is)
  scan-short start rest is s whole ps apart short =
      scan-ends start rest is 1 s whole ps apart (omega arith) (λ more idx.
        scan-past more (length start + length (bytes_of is)) idx
          (omega (
            arith,
            whole,
            length-append start (bytes_of is ++ rest),
            length-append (bytes_of is) rest,
          ))
          (omega (
            arith,
            whole,
            length-append start (bytes_of is ++ rest),
            length-append (bytes_of is) rest,
          )))

  scan_record-trailer :
      (idx : FileEventIndex) (h : RecordHeader) (len n : ℕ)
      → h.record_length ≡ len
      → h.event_count ≡ n
      → h.index_array_length ≡ n * 4
      → 0 < len
      → trailer_pos + len ≤ file_len
      → scan_record src file_len trailer_pos salvage idx trailer_pos h
        ≡ ok (some (idx, trailer_pos + len))
  unfolding scan_record advance
  scan_record-trailer idx h len n a c x p fits = ground arith

  scan_step-trailer :
      (idx : FileEventIndex) (pre trailer : Bytes) (evs : List Bytes)
      → Serves src (pre ++ (trailer ++ []))
      → file_len ≡ length (pre ++ (trailer ++ []))
      → Framed trailer evs
      → trailer_pos ≡ length pre
      → scan_step src file_len trailer_pos salvage idx trailer_pos
        ≡ ok (some (idx, trailer_pos + length trailer))
  unfolding scan_step scan_parsed
  scan_step-trailer idx pre trailer evs s whole r at =
      let fits : trailer_pos + length trailer ≤ file_len =
        omega (arith, length-append pre (trailer ++ []), length-append trailer [], whole) in
      rw
        (
          is_past-inside src file_len trailer_pos (omega (arith, r.long)) small,
          read_header src pre trailer [] trailer_pos s r.long at,
          r.parsed,
        )
        (scan_record-trailer idx r.header (length trailer) (length evs) r.total r.count r.index
          (omega (arith, r.long)) fits)

  -- Behind the records stands the trailer, whose position the walk was given.
  pub scan-trailer :
      (start trailer : Bytes) (is : List Item) (evs : List Bytes)
      → Serves src (start ++ (bytes_of is ++ trailer))
      → file_len ≡ length (start ++ (bytes_of is ++ trailer))
      → AllFramed is
      → trailer_pos ≡ length start + length (bytes_of is)
      → Framed trailer evs
      → build_index_by_scanning src file_len (length start) trailer_pos salvage
        ≡ ok (index_items new (length start) is)
  unfolding scan
  scan-trailer start trailer is evs s whole ps at r =
      let pre : Bytes = start ++ bytes_of is in
      let place : trailer_pos ≡ length pre = omega (arith, at, length-append start (bytes_of is)) in
      let same : start ++ (bytes_of is ++ trailer) ≡ pre ++ (trailer ++ []) =
        simp (append_assoc, append-nil) in
      let end : (idx : FileEventIndex)
          → scan_step src file_len trailer_pos salvage idx trailer_pos
            ≡ ok (some (idx, trailer_pos + length trailer)) =
        λ idx.
          scan_step-trailer idx pre trailer evs (subst (Serves src) same s) (whole ∙ ap length same)
            r place in
      scan-ends start trailer is 2 s whole ps (inr (omega arith)) (omega (arith, r.long))
        (λ more idx.
          ap₂ (λ n o. scan src file_len n trailer_pos salvage idx o) {x = 2 + more}
            {y = suc (1 + more)} (omega arith) (sym at)
          ∙ rw (end idx) (
              scan-past more (trailer_pos + length trailer) idx
                (omega (
                  arith,
                  whole,
                  ap length same,
                  length-append pre (trailer ++ []),
                  length-append trailer [],
                  place,
                ))
                (omega (
                  arith,
                  whole,
                  ap length same,
                  length-append pre (trailer ++ []),
                  length-append trailer [],
                  place,
                ))))
