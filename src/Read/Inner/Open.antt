-- ===== src/Read/Inner/Open.antt =====
-- A finished file, opened: its header as the writer patched it, and its index.
use mathlib.Core.List.{append_assoc}
use mathlib.Core.Path.{ap₂}
use oxihipo.Prelude.{
  ℕ, ◌+◌, ◌*◌, ◌/◌, ◌%◌, ◌^◌, ◌<◌, ◌≡◌, refl, sym, ap, ◌∙◌, arith, false, List, [], ◌∷◌, ◌++◌,
  length, replicate, Bytes, Result, ok, ltb, bit_or, bit_and, length-append, ok-injective,
  le→ltb_false,
}
use oxihipo.Prelude.Bits.{◌<<<◌, bit_or_bit_10, bit_and_mask}
use oxihipo.Wire.Bytes.{little, le_value, le_bytes, header_magic}
use oxihipo.Wire.Bytes.Laws.{length-le_bytes, le_value-le_bytes}
use oxihipo.Wire.Fields.{fields_bytes, length-fields_bytes}
use oxihipo.Wire.Constants.Tags.{Layout}
use oxihipo.Wire.Constants.Words.{hipo_file_unique_word}
use oxihipo.Wire.FileHeader
use oxihipo.Wire.FileHeader.{FileHeader, version}
use oxihipo.Wire.FileHeader.Fields.{encode, fields, words_of, unique_word, write-encode}
use oxihipo.Wire.FileHeader.RoundTrip.{IsWellFormed, parse-write_file}
use oxihipo.Wire.EventIndex.{new}
use oxihipo.Record.Codec.{Backends, Lossless}
use oxihipo.Write.Writer.{WriterOptions, WriteSummary}
use oxihipo.Write.Writer.Tracks.{bytes_of}
use oxihipo.Write.Writer.Finish.{Finished, Pieces}
use oxihipo.Write.Writer.Block.{block_format}
use oxihipo.Read.Inner.{ReadAt, Serves, from_source}
use oxihipo.Read.Inner.Sound.{AllSmall}
use oxihipo.Read.Inner.Scan.{index_items}
use oxihipo.Read.Inner.Whole.{head_of, patched-parts, build_index-Finished}

append-injective :
    (xs xs' ys ys' : Bytes)
    → length xs ≡ length xs'
    → xs ++ ys ≡ xs' ++ ys'
    → (xs ≡ xs') × (ys ≡ ys')
append-injective [] [] ys ys' n e = (refl, e)
append-injective [] (x ∷ xs') ys ys' n e = absurd (omega arith)
append-injective (x ∷ xs) [] ys ys' n e = absurd (omega arith)
append-injective (x ∷ xs) (x' ∷ xs') ys ys' n e =
    let (same, rest) = append-injective xs xs' ys ys' (omega arith) (cc e) in
    (ap₂ (λ a b. a ∷ b) {x = x} {y = x'} (cc e) same, rest)

-- The header that a writer leaves: the trailer's position, and the flag that says there is an index.
abbrev pub closed_header : FileHeader → ℕ → FileHeader
closed_header h position = record h {
  trailer_position = position;
  bit_info = bit_or h.bit_info (1 <<< 10);
}

closed_header-IsWellFormed :
    (h : FileHeader) (position : ℕ)
    → IsWellFormed h
    → position < 2 ^ 64
    → IsWellFormed (closed_header h position)
unfolding version
closed_header-IsWellFormed h position f p =
    let bits : bit_or h.bit_info (1 <<< 10)
        ≡ h.bit_info / 2 ^ 11 * 2 ^ 11 + 2 ^ 10 + h.bit_info % 2 ^ 10 =
      bit_or_bit_10 h.bit_info in
    let low : bit_and h.bit_info 0xFF ≡ h.bit_info % 2 ^ 8 = bit_and_mask 8 h.bit_info in
    let same : bit_and (bit_or h.bit_info (1 <<< 10)) 0xFF ≡ h.bit_info % 2 ^ 8 =
      bit_and_mask 8 (bit_or h.bit_info (1 <<< 10)) ∙ omega (arith, bits) in
    record {
      header_words = f.header_words;
      header_length = f.header_length;
      file_number = f.file_number;
      record_count = f.record_count;
      index_array_length = f.index_array_length;
      bit_info = omega (arith, bits, f.bit_info);
      user_header_length = f.user_header_length;
      user_register = f.user_register;
      trailer_position = p;
      user_int1 = f.user_int1;
      user_int2 = f.user_int2;
      version_lower = omega (arith, same, low, f.version_lower);
      version_upper = omega (arith, same, low, f.version_upper);
    }

-- A header in five pieces, as `Pieces` cuts it.
abbrev front : FileHeader → Bytes
front h =
    le_bytes 4 hipo_file_unique_word
    ++ (le_bytes 4 h.file_number
        ++ (le_bytes 4 (h.header_length / 4)
            ++ (le_bytes 4 h.record_count ++ le_bytes 4 h.index_array_length)))

abbrev middle : FileHeader → Bytes
middle h =
    le_bytes 4 h.user_header_length ++ (le_bytes 4 header_magic ++ le_bytes 8 h.user_register)

abbrev back : FileHeader → Bytes
back h = le_bytes 4 h.user_int1 ++ le_bytes 4 h.user_int2

encode-pieces :
    (h : FileHeader) (rest : Bytes)
    → encode little (words_of h) ++ rest
      ≡ front h
        ++ (le_bytes 4 h.bit_info
            ++ (middle h ++ (le_bytes 8 h.trailer_position ++ (back h ++ rest))))
unfolding fields_bytes unique_word
encode-pieces h rest = simp append_assoc

length-pieces : (h : FileHeader) → (length (front h) ≡ 20) × (length (middle h) ≡ 16)
unfolding le_bytes
length-pieces h = (refl, refl)

-- The five pieces of a start that begins with a header.
pieces-encode :
    (h : FileHeader) (rest : Bytes) {start : Bytes} (p : Pieces start)
    → start ≡ encode little (words_of h) ++ rest
    → (p.before ≡ front h)
      × (p.flags ≡ le_bytes 4 h.bit_info)
      × (p.between ≡ middle h)
      × (p.rest ≡ back h ++ rest)
pieces-encode h rest p e =
    let len = length-pieces h in
    let (a, e1) =
      append-injective p.before (front h) _ _ (p.length_before ∙ sym len.0)
        (sym p.parts ∙ e ∙ encode-pieces h rest) in
    let (b, e2) =
      append-injective p.flags (le_bytes 4 h.bit_info) _ _
        (p.length_flags ∙ sym (length-le_bytes 4 h.bit_info)) e1 in
    let (c, e3) = append-injective p.between (middle h) _ _ (p.length_between ∙ sym len.1) e2 in
    let (d, e4) =
      append-injective p.trailer_position (le_bytes 8 h.trailer_position) _ _
        (p.length_position ∙ sym (length-le_bytes 8 h.trailer_position)) e3 in
    (a, b, c, e4)

-- The head of the closed file begins with the header that the writer leaves.
head-encode :
    (h : FileHeader) (rest : Bytes) {start : Bytes} (p : Pieces start) (position : ℕ)
    → start ≡ encode little (words_of h) ++ rest
    → h.bit_info < 2 ^ 32
    → head_of p position ≡ encode little (words_of (closed_header h position)) ++ rest
head-encode h rest p position e small =
    let (a, b, c, d) = pieces-encode h rest p e in
    let bits : le_value p.flags ≡ h.bit_info =
      ap le_value b ∙ le_value-le_bytes 4 h.bit_info small in
    ap₂ (λ x y. x ++ (le_bytes 4 (bit_or (le_value p.flags) (1 <<< 10)) ++ y)) a
      (ap₂ (λ x y. x ++ (le_bytes 8 position ++ y)) c d)
    ∙ ap
        (λ v.
          front h
          ++ (le_bytes 4 (bit_or v (1 <<< 10))
              ++ (middle h ++ (le_bytes 8 position ++ (back h ++ rest)))))
        bits
    ∙ sym (encode-pieces (closed_header h position) rest)

module _ (b : Backends) (o : WriterOptions) (src : ReadAt) (lossless : Lossless b)
    (chunk : o.compression.layout ≡ Layout.per_chunk) where
  -- Opening a finished file that began with a header: the reader finds the header that the writer was
  -- given, with the position of the trailer and the flag for the index put in and nothing else
  -- changed, the dictionary, which it reads at the length of that header, and the index of the
  -- records that were written. The header is a supported one whose lengths lead to the first record,
  -- and the dictionary record reads well; the file was finished by a writer of one-block records.
  -- Its records are whole ones, the codec libraries decode what they encoded, and zstd, where it is used,
  -- has made no stream so short that a reader refuses it. Each record is below 1 GiB, its index and
  -- events below 4 GiB, and its user words fit 64 bits; there are less than 2^19 records, and the file
  -- is shorter than 2^63 bytes.
  pub from_source-Finished :
      {D : Type 0} (parse_dictionary : ℕ → Result D) (dict : D) (h : FileHeader)
      (hdr rest start : Bytes) (evs : List Bytes) (summary : WriteSummary) (file : Bytes)
      (fin : Finished (block_format b) o start evs summary file)
      → FileHeader.write h (replicate 56 0) ≡ ok hdr
      → start ≡ hdr ++ rest
      → IsWellFormed h
      → h.endianness ≡ little
      → h.header_length + h.user_header_length ≡ length start
      → parse_dictionary h.header_length ≡ ok dict
      → AllSmall b o.compression fin.items
      → length fin.items < 2 ^ 19
      → Serves src file
      → length file < 2 ^ 63
      → from_source src (length file) b parse_dictionary
        ≡ ok (
          closed_header h (length start + length (bytes_of fin.items)),
          dict,
          index_items new (length start) fin.items,
        )
  unfolding from_source
  from_source-Finished parse_dictionary dict h hdr rest start evs summary file fin written begins
        good order first parses s few serves small =
      let n : ℕ = length start + length (bytes_of fin.items) in
      let h' : FileHeader = closed_header h n in
      let hdr' : Bytes = encode little (words_of h') in
      let same : start ≡ encode little (words_of h) ++ rest =
        begins
        ∙ ap (λ x. x ++ rest) (ok-injective (sym written ∙ write-encode h (replicate 56 0) refl)) in
      let size : length hdr' ≡ 56 = length-fields_bytes false (fields little (words_of h')) in
      let body : Bytes = bytes_of fin.items ++ fin.trailer in
      let content : file ≡ hdr' ++ (rest ++ body) =
        fin.content
        ∙ patched-parts fin.header n body
        ∙ ap (λ x. x ++ body) (head-encode h rest fin.header n same good.bit_info)
        ∙ append_assoc hdr' rest body in
      let long : length start ≡ 56 + length rest = omega (
        arith,
        ap length same,
        length-append (encode little (words_of h)) rest,
        length-fields_bytes false (fields little (words_of h)),
      ) in
      let total : length file
          ≡ 56 + (length rest + (length (bytes_of fin.items) + length fin.trailer)) =
        omega (
          arith,
          ap length content,
          length-append hdr' (rest ++ body),
          length-append rest body,
          length-append (bytes_of fin.items) fin.trailer,
          size,
        ) in
      let enough : ltb (length file) 56 ≡ false = le→ltb_false _ _ (omega (arith, total)) in
      let read : src.read_exact_at 0 56 ≡ ok hdr' =
        serves.inside [] hdr' (rest ++ body) 0 56 content refl (sym size) in
      let parsed : FileHeader.parse hdr' ≡ ok h' =
        sym (rw (write-encode h' (replicate 56 0) refl) refl)
        ∙ parse-write_file h' (replicate 56 0)
            (closed_header-IsWellFormed h n good (omega (arith, total, long, small))) order refl in
      rw
        (
          enough,
          read,
          parsed,
          parses,
          build_index-Finished b o src lossless chunk start evs summary file h' fin s few serves
              small (omega (arith, long)) first refl,
        )
        refl
