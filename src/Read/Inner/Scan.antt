-- ===== src/Read/Inner/Scan.antt =====
-- The walk over the records of a file that a writer made.
use mathlib.Core.List.{append_assoc}
use mathlib.Core.Path.{ap₂, subst}
use oxihipo.Prelude.{
  ℕ, suc, ◌+◌, ◌*◌, ◌^◌, ◌≤◌, ◌<◌, ◌≡◌, ◌≢◌, refl, sym, ap, ◌∙◌, ◌⊎◌, inl, inr, arith, Bool, false,
  List, [], ◌∷◌, ◌++◌, some, length, take, drop, Bytes, ok, length-append, length-take,
  take-append-drop,
}
use oxihipo.Wire.RecordHeader.{RecordHeader}
use oxihipo.Wire.EventIndex.{FileEventIndex, push}
use oxihipo.Write.Writer.Tracks.{Item, bytes_of}
use oxihipo.Read.Inner.{ReadAt, Serves, is_past, advance, scan_record, scan_parsed, scan_step, scan}
use oxihipo.Read.Inner.Framed.{Framed, AllFramed}

-- The index of a run of records, from an offset on.
abbrev pub index_items : FileEventIndex → ℕ → List Item → FileEventIndex
index_items idx pos [] = idx
index_items idx pos (i ∷ is) =
    index_items (push idx pos (length i.bytes) (length i.chunk)) (pos + length i.bytes) is

pub is_past-inside :
    (src : ReadAt) (file_len off : ℕ)
    → off + 56 ≤ file_len
    → file_len < 2 ^ 63
    → is_past src file_len off ≡ false
unfolding is_past
is_past-inside src file_len off h f = ground arith

-- The header of a record that stands in the file.
pub read_header :
    (src : ReadAt) (pre bytes post : Bytes) (off : ℕ)
    → Serves src (pre ++ (bytes ++ post))
    → 56 ≤ length bytes
    → off ≡ length pre
    → src.read_exact_at off 56 ≡ ok (take 56 bytes)
read_header src pre bytes post off s long at =
    s.inside pre (take 56 bytes) (drop 56 bytes ++ post) off 56
      (ap (λ x. pre ++ x)
        (ap (λ x. x ++ post) (sym (take-append-drop 56 bytes))
          ∙ append_assoc (take 56 bytes) (drop 56 bytes) post))
      at (omega (arith, length-take 56 bytes))

module _ (src : ReadAt) (file_len trailer_pos : ℕ) (salvage : Bool)
    (small : file_len < 2 ^ 63) where
  scan_record-fits :
      (idx : FileEventIndex) (off : ℕ) (h : RecordHeader) (len n : ℕ)
      → h.record_length ≡ len
      → h.event_count ≡ n
      → h.index_array_length ≡ n * 4
      → 0 < len
      → 0 < n
      → off + len ≤ file_len
      → off ≢ trailer_pos
      → scan_record src file_len trailer_pos salvage idx off h
        ≡ ok (some (push idx off len n, off + len))
  unfolding scan_record advance
  scan_record-fits idx off h len n a c x p q fits apart = ground arith

  scan_step-Framed :
      (idx : FileEventIndex) (pre post : Bytes) (i : Item)
      → Serves src (pre ++ (i.bytes ++ post))
      → file_len ≡ length (pre ++ (i.bytes ++ post))
      → Framed i.bytes i.chunk
      → 0 < length i.chunk
      → length pre ≢ trailer_pos
      → scan_step src file_len trailer_pos salvage idx (length pre)
        ≡ ok (
            some (
              push idx (length pre) (length i.bytes) (length i.chunk),
              length pre + length i.bytes,
            ))
  unfolding scan_step scan_parsed
  scan_step-Framed idx pre post i s whole r filled apart =
      let fits : length pre + length i.bytes ≤ file_len =
        omega (arith, length-append pre (i.bytes ++ post), length-append i.bytes post, whole) in
      rw
        (
          is_past-inside src file_len (length pre) (omega (arith, r.long)) small,
          read_header src pre i.bytes post (length pre) s r.long refl,
          r.parsed,
        )
        (scan_record-fits idx (length pre) r.header (length i.bytes) (length i.chunk) r.total
          r.count r.index (omega (arith, r.long)) filled fits apart)

  pub scan-AllFramed :
      (rounds : ℕ) (idx : FileEventIndex) (pre post : Bytes) (is : List Item)
      → Serves src (pre ++ (bytes_of is ++ post))
      → file_len ≡ length (pre ++ (bytes_of is ++ post))
      → AllFramed is
      → (trailer_pos < length pre) ⊎ (length pre + length (bytes_of is) ≤ trailer_pos)
      → scan src file_len (length is + rounds) trailer_pos salvage idx (length pre)
        ≡ scan src file_len rounds trailer_pos salvage
            (index_items idx (length pre) is)
            (length pre + length (bytes_of is))
  unfolding scan
  scan-AllFramed rounds idx pre post [] s whole p apart =
      ap (λ r. scan src file_len r trailer_pos salvage idx (length pre)) {x = 0 + rounds}
        {y = rounds} (omega arith)
      ∙ ap (scan src file_len rounds trailer_pos salvage idx) {y = length pre + 0} (omega arith)
  scan-AllFramed rounds idx pre post (i ∷ is) s whole (p, ps) apart =
      let same : pre ++ (bytes_of (i ∷ is) ++ post) ≡ pre ++ (i.bytes ++ (bytes_of is ++ post)) =
        ap (λ x. pre ++ x) (append_assoc i.bytes (bytes_of is) post) in
      let next : Bytes = pre ++ i.bytes in
      let moved : pre ++ (bytes_of (i ∷ is) ++ post) ≡ next ++ (bytes_of is ++ post) =
        same ∙ sym (append_assoc pre i.bytes (bytes_of is ++ post)) in
      let place : length next ≡ length pre + length i.bytes = length-append pre i.bytes in
      let idx' : FileEventIndex = push idx (length pre) (length i.bytes) (length i.chunk) in
      let rest =
        scan-AllFramed rounds idx' next post is (subst (Serves src) moved s)
          (whole ∙ ap length moved) ps (later place apart) in
      ap (λ r. scan src file_len r trailer_pos salvage idx (length pre))
        {y = suc (length is + rounds)} (omega arith)
      ∙ rw
          (scan_step-Framed idx pre (bytes_of is ++ post) i (subst (Serves src) same s)
            (whole ∙ ap length same) p.0 p.1 (not_here apart))
          (ap (scan src file_len (length is + rounds) trailer_pos salvage idx') (sym place)
            ∙ rest
            ∙ ap₂ (scan src file_len rounds trailer_pos salvage)
                (ap (λ n. index_items idx' n is) place)
                (omega (arith, place, length-append i.bytes (bytes_of is))))
    where
      later :
          {n : ℕ}
          → n ≡ length pre + length i.bytes
          → (trailer_pos < length pre) ⊎ (length pre + length (bytes_of (i ∷ is)) ≤ trailer_pos)
          → (trailer_pos < n) ⊎ (n + length (bytes_of is) ≤ trailer_pos)
      later e (inl h) = inl (omega arith)
      later e (inr h) = inr (omega (arith, length-append i.bytes (bytes_of is)))

      not_here :
          (trailer_pos < length pre) ⊎ (length pre + length (bytes_of (i ∷ is)) ≤ trailer_pos)
          → length pre ≢ trailer_pos
      not_here (inl h) e = omega arith
      not_here (inr h) e = omega (arith, length-append i.bytes (bytes_of is), p.0.long)
