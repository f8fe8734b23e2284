-- ===== src/Write/Writer/Trailer.antt =====
-- The trailer's event, as a reader finds its index bank.
use mathlib.Core.List.{append_assoc}
use mathlib.Core.Path.{subst}
use oxihipo.Prelude.{
  ℕ, suc, ◌+◌, ◌/◌, ◌%◌, ◌^◌, ◌<◌, min, ◌≡◌, refl, sym, ap, ◌∙◌, arith, false, List, [], ◌∷◌, ◌++◌,
  some, ltb, length, take, drop, Bytes, ok, length-append, length-take, take-append-drop,
  le→ltb_false, >>=-eq-ok, ok-injective,
}
use oxihipo.Wire.Bytes.{le_bytes, slice}
use oxihipo.Wire.Bytes.Laws.{
  read_le-append, slice_rest, slice-append, length-le_bytes, le_value-le_bytes,
}
use oxihipo.Event.Structures.{
  StructureHeader, Structure, size, next, next_data, collect, structures, first_with, find,
}
use oxihipo.Event.Structures.Header.{header_with, header_bytes, parse-header_bytes, word_bytes}
use oxihipo.Event.Structures.Walk.{structures_total}
use oxihipo.Write.Writer.{IndexEntry, trailer_rows, trailer_event}

-- The 16 bytes in front of the bank.
abbrev event_head : ℕ → Bytes
event_head n = 69 ∷ 86 ∷ 78 ∷ 84 ∷ (le_bytes 4 n ++ (0 ∷ 0 ∷ 0 ∷ 0 ∷ 0 ∷ 0 ∷ 0 ∷ 0 ∷ []))

trailer_event-parts :
    (es : List IndexEntry)
    → let n = length (trailer_rows es) in
      n + 24 < 2 ^ 32
      → trailer_event es ≡ event_head (24 + n) ++ header_bytes 32111 1 11 n (trailer_rows es)
unfolding trailer_event le_bytes
trailer_event-parts es small =
    let rows : Bytes = trailer_rows es in
    let n : ℕ = length rows in
    let total : (16 + (8 + n)) % 2 ^ 32 ≡ 24 + n = omega arith in
    let word : n % 2 ^ 32 ≡ n = omega arith in
    ap (λ k. event_head k ++ (le_bytes 2 32111 ++ (1 ∷ 11 ∷ (le_bytes 4 (n % 2 ^ 32) ++ rows))))
      total
    ∙ ap (λ k. event_head (24 + n) ++ (le_bytes 2 32111 ++ (1 ∷ 11 ∷ (le_bytes 4 k ++ rows)))) word
    ∙ ap (λ x. event_head (24 + n) ++ (le_bytes 2 32111 ++ (1 ∷ 11 ∷ x))) (word_bytes n rows)

length-event_head : (n : ℕ) → length (event_head n) ≡ 16
unfolding le_bytes
length-event_head n = refl

size-event : (n : ℕ) (rest : Bytes) → n < 2 ^ 32 → size (event_head n ++ rest) ≡ ok n
unfolding size le_bytes
size-event n rest small =
    let long : ltb (length (event_head n ++ rest)) 16 ≡ false =
      le→ltb_false _ _ (omega (arith, length-append (event_head n) rest, length-event_head n)) in
    rw long (
      read_le-append 4 (69 ∷ 86 ∷ 78 ∷ 84 ∷ []) (le_bytes 4 n)
        ((0 ∷ 0 ∷ 0 ∷ 0 ∷ 0 ∷ 0 ∷ 0 ∷ 0 ∷ []) ++ rest) 4 refl (length-le_bytes 4 n)
      ∙ ap ok (le_value-le_bytes 4 n (omega arith)))

-- The header of the index bank, with `n` bytes of rows: 24 bits of the length word are the size.
abbrev pub index_header : ℕ → StructureHeader
index_header n = header_with 32111 1 11 (n % 2 ^ 24) (n / 2 ^ 24)

next-bank :
    (pre rows : Bytes) (n end : ℕ)
    → n ≡ length rows
    → n < 2 ^ 32
    → end ≡ length (pre ++ header_bytes 32111 1 11 n rows)
    → next (pre ++ header_bytes 32111 1 11 n rows) end (length pre)
      ≡ ok (some ((index_header n, take (n % 2 ^ 24) rows), length pre + 8 + n % 2 ^ 24))
unfolding next next_data
next-bank pre rows n end counted small whole =
    let hdr : Bytes = header_bytes 32111 1 11 n [] in
    let k : ℕ = n % 2 ^ 24 in
    let buf : Bytes = pre ++ (hdr ++ rows) in
    let total : length buf ≡ length pre + (8 + n) =
      omega (arith, length-append pre (hdr ++ rows)) in
    let cut : length (take k rows) ≡ k = omega (arith, length-take k rows) in
    let content : slice buf (length pre + 8) (length pre + 8 + k) ≡ ok (take k rows) =
      ap (λ x. slice x (length pre + 8) (length pre + 8 + k))
        (sym (append_assoc pre hdr rows)
          ∙ ap (λ x. (pre ++ hdr) ++ x) (sym (take-append-drop k rows)))
      ∙ slice-append (pre ++ hdr) (take k rows) (drop k rows) (length pre + 8) (length pre + 8 + k)
          (omega (arith, length-append pre hdr)) (omega (arith, length-append pre hdr, cut)) in
    rw
      (
        le→ltb_false end (length pre + 8) (omega (arith, whole, total)),
        slice_rest pre (hdr ++ rows),
        parse-header_bytes 32111 1 11 n rows (omega arith) small,
        le→ltb_false end (length pre + 8 + k) (omega (arith, whole, total)),
        le→ltb_false (length buf) (length pre + 8 + k) (omega (arith, total)),
        content,
      )
      refl

first_with-index :
    (n : ℕ) (bank : Bytes) (rest : List Structure)
    → first_with 32111 1 ((index_header n, bank) ∷ rest) ≡ some (index_header n, bank)
unfolding first_with
first_with-index n bank rest = refl

find_bank :
    (es : List IndexEntry)
    → length (trailer_rows es) + 24 < 2 ^ 32
    → let n = length (trailer_rows es) in
      find (trailer_event es) 32111 1
      ≡ ok (some (index_header n, take (n % 2 ^ 24) (trailer_rows es)))
unfolding find structures collect
find_bank es small =
    let rows : Bytes = trailer_rows es in
    let n : ℕ = length rows in
    let head : Bytes = event_head (24 + n) in
    let buf : Bytes = head ++ header_bytes 32111 1 11 n rows in
    let total : length buf ≡ 24 + n =
      omega
        (arith, length-append head (header_bytes 32111 1 11 n rows), length-event_head (24 + n)) in
    let (ss, e, all) = structures_total buf in
    let walked : collect (suc (length buf)) buf (length buf) 16 ≡ ok ss =
      ap (λ k. collect (suc (length buf)) buf k 16) {y = min (24 + n) (length buf)}
        (omega (arith, total))
      ∙ sym (rw (size-event (24 + n) (header_bytes 32111 1 11 n rows) (omega (arith, small))) refl)
      ∙ e in
    let bank : Bytes = take (n % 2 ^ 24) rows in
    let item : Structure = (index_header n, bank) in
    let here : next buf (length buf) 16 ≡ ok (some (item, 24 + n % 2 ^ 24)) =
      ap (next buf (length buf)) (sym (length-event_head (24 + n)))
      ∙ next-bank head rows n (length buf) refl (omega (arith, small)) refl
      ∙ ap (λ k. ok (some (item, k))) {y = 24 + n % 2 ^ 24}
          (omega (arith, length-event_head (24 + n))) in
    let (rest, _, last) =
      >>=-eq-ok (collect (length buf) buf (length buf) (24 + n % 2 ^ 24)) (λ rest. ok (item ∷ rest))
        (sym (rw here refl) ∙ walked) in
    ap (λ x. find x 32111 1) (trailer_event-parts es small)
    ∙ rw e (
        ap (λ x. ok (first_with 32111 1 x)) (sym (ok-injective last))
        ∙ ap ok (first_with-index n bank rest))

-- A reader that looks for the index bank in the trailer's event finds it on every index of less than
-- 2^32 bytes, but its data are cut: of the `n` bytes of rows that the writer put there, the reader
-- sees the first `n % 2 ^ 24`, because a structure header has 24 bits for the size. So an index of
-- 524,288 records reads back as one of no record.
pub find-trailer_event :
    (es : List IndexEntry) (n : ℕ)
    → length (trailer_rows es) ≡ n
    → n + 24 < 2 ^ 32
    → find (trailer_event es) 32111 1
      ≡ ok (some (index_header n, take (n % 2 ^ 24) (trailer_rows es)))
find-trailer_event es n counted small =
    find_bank es (subst (λ k. k + 24 < 2 ^ 32) (sym counted) small)
    ∙ ap (λ k. ok (some (index_header k, take (k % 2 ^ 24) (trailer_rows es)))) counted

pub length-trailer_event :
    (es : List IndexEntry) → length (trailer_event es) ≡ 24 + length (trailer_rows es)
unfolding trailer_event le_bytes
length-trailer_event es = omega arith
