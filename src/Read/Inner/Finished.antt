-- ===== src/Read/Inner/Finished.antt =====
-- A finished file, read by its trailer.
use mathlib.Core.List.{append_assoc, append-nil}
use mathlib.Core.Path.{subst}
use oxihipo.Prelude.{
  ℕ, ◌+◌, ◌*◌, ◌^◌, ◌≤◌, ◌<◌, ◌≡◌, refl, ap, ◌∙◌, arith, List, [], ◌∷◌, ◌++◌, map, length, take,
  Bytes, some, ok, length-append, length-map, take-length, ◌==◌, false, Bool,
}
use oxihipo.Wire.FileHeader.{FileHeader}
use oxihipo.Wire.EventIndex.{new}
use oxihipo.Record.Codec.{Backends}
use oxihipo.Event.Structures.{find}
use oxihipo.Write.Writer.{IndexEntry, trailer_event, trailer_rows}
use oxihipo.Write.Writer.Tracks.{Item, bytes_of}
use oxihipo.Write.Writer.Trailer.{find-trailer_event, index_header}
use oxihipo.Read.Inner.{
  ReadAt, Serves, read_record_into, trailer_bank, build_index_from_trailer, build_index,
  build_index_by_scanning,
}
use oxihipo.Read.Inner.Sound.{Readable, AllPlaced, AllPlaced-AllFramed, framed}
use oxihipo.Read.Inner.Scan.{index_items, is_past-inside, read_header}
use oxihipo.Read.Inner.Ends.{scan-trailer}
use oxihipo.Read.Inner.Rows.{length-trailer_rows, read_trailer_bank-AllPlaced}

-- A record that stands whole in the file is read.
pub read_record_into-Readable :
    (src : ReadAt) (file_len : ℕ) (b : Backends) (pre bytes post : Bytes) (evs : List Bytes)
    → Serves src (pre ++ (bytes ++ post))
    → file_len ≡ length (pre ++ (bytes ++ post))
    → file_len < 2 ^ 63
    → (r : Readable b bytes evs) → read_record_into src file_len (length pre) ≡ ok (r.header, bytes)
unfolding read_record_into
read_record_into-Readable src file_len b pre bytes post evs s whole small r =
    let room : length pre + length bytes ≤ file_len =
      omega (arith, whole, length-append pre (bytes ++ post), length-append bytes post) in
    rw
      (
        is_past-inside src file_len (length pre) (omega (arith, r.long)) small,
        read_header src pre bytes post (length pre) s r.long refl,
        r.parsed,
        r.total,
        s.inside pre bytes post (length pre) (length bytes) refl refl refl,
      )
      (ground arith)

module _ (src : ReadAt) (file_len : ℕ) (small : file_len < 2 ^ 63) where
  -- The bank of a trailer of less than 2^24 bytes of rows.
  trailer_bank-event :
      (b : Backends) (pre trailer : Bytes) (es : List IndexEntry) (trailer_pos : ℕ)
      → Serves src (pre ++ (trailer ++ []))
      → file_len ≡ length (pre ++ (trailer ++ []))
      → Readable b trailer (trailer_event es ∷ [])
      → trailer_pos ≡ length pre
      → length es < 2 ^ 19
      → trailer_bank src file_len b trailer_pos ≡ ok (trailer_rows es)
  unfolding trailer_bank
  trailer_bank-event b pre trailer es trailer_pos s whole r at few =
      let n : ℕ = length (trailer_rows es) in
      let len : n ≡ 32 * length es = length-trailer_rows es in
      let found : find (trailer_event es) 32111 1 ≡ ok (some (index_header n, trailer_rows es)) =
        find-trailer_event es n refl (omega (arith, len))
        ∙ ap (λ k. ok (some (index_header n, take k (trailer_rows es)))) {y = n}
            (omega (arith, len))
        ∙ ap (λ x. ok (some (index_header n, x))) (take-length (trailer_rows es)) in
      let read : read_record_into src file_len trailer_pos ≡ ok (r.header, trailer) =
        ap (read_record_into src file_len) at
        ∙ read_record_into-Readable src file_len b pre trailer [] (trailer_event es ∷ []) s whole
            small r in
      rw (read, r.loads, r.events 0, found) refl

  -- The index of a finished file, from its trailer, from its records, and as a file is opened.
  module _ (b : Backends) (start trailer : Bytes) (is : List Item)
      (s : Serves src (start ++ (bytes_of is ++ trailer)))
      (whole : file_len ≡ length (start ++ (bytes_of is ++ trailer)))
      (ps : AllPlaced b (length start) is)
      (r : Readable b trailer (trailer_event (map (λ i. i.entry) is) ∷ []))
      (few : length is < 2 ^ 19) where
    pub from_trailer :
        (trailer_pos : ℕ)
        → trailer_pos ≡ length start + length (bytes_of is)
        → build_index_from_trailer src file_len b trailer_pos (length start)
          ≡ ok (index_items new (length start) is)
    unfolding build_index_from_trailer
    from_trailer trailer_pos at =
        let pre : Bytes = start ++ bytes_of is in
        let place : trailer_pos ≡ length pre =
          omega (arith, at, length-append start (bytes_of is)) in
        let same : start ++ (bytes_of is ++ trailer) ≡ pre ++ (trailer ++ []) =
          simp (append_assoc, append-nil) in
        rw
          (trailer_bank-event b pre trailer (map (λ i. i.entry) is) trailer_pos
            (subst (Serves src) same s) (whole ∙ ap length same) r place
            (omega (arith, length-map (λ (i : Item). i.entry) is)))
          (read_trailer_bank-AllPlaced file_len b trailer_pos (length start) is ps
            (omega (arith, at))
            (omega (
              arith,
              at,
              whole,
              length-append start (bytes_of is ++ trailer),
              length-append (bytes_of is) trailer,
            ))
            small (omega arith))

    pub from_records :
        (salvage : Bool) (trailer_pos : ℕ)
        → trailer_pos ≡ length start + length (bytes_of is)
        → build_index_by_scanning src file_len (length start) trailer_pos salvage
          ≡ ok (index_items new (length start) is)
    from_records salvage trailer_pos at =
        scan-trailer src file_len trailer_pos salvage small start trailer is _ s whole
          (AllPlaced-AllFramed b (length start) is ps) at (framed r)

    pub opened :
        (h : FileHeader)
        → h.header_length + h.user_header_length ≡ length start
        → 0 < length start
        → h.trailer_position ≡ length start + length (bytes_of is)
        → build_index src file_len b h ≡ ok (index_items new (length start) is)
    unfolding build_index
    opened h first some_header at =
        let there : (h.trailer_position == 0) ≡ false = ground arith in
        rw (there, first, from_trailer h.trailer_position at) refl
