-- ===== src/Wire/RecordHeader/RoundTrip.antt =====
-- `RecordHeader::write` and `RecordHeader::parse` against each other, and the two byte orders.
use oxihipo.Prelude.{
  ◌++◌, false, ◌+◌, ◌*◌, ◌/◌, ◌%◌, ◌^◌, ◌≤◌, ◌<◌, ◌≡◌, sym, ap, ◌∙◌, arith, length, Bytes, bit_or,
  ok, ◌>>=◌, map_ok,
}
use oxihipo.Prelude.Bits.{◌<<<◌, bit_and_mask, bit_or_fields_high}
use oxihipo.Wire.Bytes.{Endianness, little, big}
use oxihipo.Wire.Constants.Tags.{tag}
use oxihipo.Wire.Constants.Tags.RoundTrip.{from_word_fields, tag-lt}
use oxihipo.Wire.Fields.{length-fields_bytes}
use oxihipo.Wire.RecordHeader.{RecordHeader, from_words, parse, write, pad_bits, comp_word_of}
use oxihipo.Wire.RecordHeader.Fields.{
  HeaderWords, FitWords, encode, fields, words_of, parse-encode, parse-encode_append, write-encode,
}

-- A header that the format can express: what `parse` returns and the builders fill in. Lengths are
-- whole words that fit their fields, and the padding fields repeat the bits of `bit_info`.
pub record IsWellFormed (h : RecordHeader) : Type 0 where
  pub record_words : h.record_length ≡ h.record_length / 4 * 4
  pub record_fits : h.record_length < 2 ^ 34
  pub header_words : h.header_length ≡ h.header_length / 4 * 4
  pub header_fits : h.header_length < 2 ^ 32
  pub header_in_record : h.header_length ≤ h.record_length
  pub compressed_words : h.compressed_data_length ≡ h.compressed_data_length / 4 * 4
  pub compressed_fits : h.compressed_data_length < 2 ^ 30
  pub record_number : h.record_number < 2 ^ 32
  pub event_count : h.event_count < 2 ^ 32
  pub index_array_length : h.index_array_length < 2 ^ 32
  pub bit_info : h.bit_info < 2 ^ 32
  pub user_header_length : h.user_header_length < 2 ^ 32
  pub data_length : h.data_length < 2 ^ 32
  pub user_word_1 : h.user_word_1 < 2 ^ 64
  pub user_word_2 : h.user_word_2 < 2 ^ 64
  pub user_header_padding : h.user_header_padding ≡ pad_bits h.bit_info 20
  pub data_padding : h.data_padding ≡ pad_bits h.bit_info 22
  pub compressed_data_padding : h.compressed_data_padding ≡ pad_bits h.bit_info 24

-- The compression word as a sum of its two fields.
comp_word_sum :
    (h : RecordHeader)
    → h.compressed_data_length < 2 ^ 30
    → comp_word_of h ≡ h.compressed_data_length / 4 + tag h.compression * 2 ^ 28
comp_word_sum h f =
    ap (bit_or (tag h.compression <<< 28))
      (bit_and_mask 28 (h.compressed_data_length / 4) ∙ omega arith)
    ∙ ap (λ t. bit_or t (h.compressed_data_length / 4)) {y = tag h.compression * 2 ^ 28}
        (omega (arith, tag-lt h.compression))
    ∙ bit_or_fields_high 28 (tag h.compression) (h.compressed_data_length / 4) (omega arith)

words_of-FitWords : (h : RecordHeader) → IsWellFormed h → FitWords (words_of h)
words_of-FitWords h f = record {
  record_length = omega arith;
  record_number = f.record_number;
  header_length = omega (arith, f.header_fits);
  event_count = f.event_count;
  index_array_length = f.index_array_length;
  bit_info = f.bit_info;
  user_header_length = f.user_header_length;
  data_length = f.data_length;
  comp_word =
      rw (comp_word_sum h f.compressed_fits)
        (omega (arith, f.compressed_fits, tag-lt h.compression));
  user_word_1 = f.user_word_1;
  user_word_2 = f.user_word_2;
}

-- Interpreting the words of a well-formed header gives it back, with the byte order that was read.
from_words-words_of :
    (h : RecordHeader) (e : Endianness)
    → IsWellFormed h
    → from_words e
        (h.record_length / 4 % 2 ^ 32)
        h.record_number
        (h.header_length / 4)
        h.event_count
        h.index_array_length
        h.bit_info
        h.user_header_length
        h.data_length
        (comp_word_of h)
        h.user_word_1
        h.user_word_2
      ≡ ok (record h { endianness = e })
unfolding from_words
from_words-words_of h e f = ground (
  arith,
  comp_word_sum h f.compressed_fits,
  from_word_fields h.compression (h.compressed_data_length / 4) (omega (arith, f.compressed_fits)),
)

-- The same where the record's payload follows the header.
pub write-parse_append :
    (h : RecordHeader) (out rest : Bytes)
    → IsWellFormed h
    → h.endianness ≡ little
    → length out ≡ 56
    → (hdr : Bytes) × (write h out ≡ ok hdr) × (length hdr ≡ 56) × (parse (hdr ++ rest) ≡ ok h)
write-parse_append h out rest f e l = (
  encode little (words_of h),
  write-encode h out l,
  length-fields_bytes false (fields (words_of h)),
  parse-encode_append little (words_of h) rest (words_of-FitWords h f)
      ∙ from_words-words_of h little f
      ∙ ap (λ x. ok (record h { endianness = x })) (sym e),
)

-- `parse` of what `write` puts into an array of 56 bytes gives back a well-formed little-endian
-- header, whatever the array held.
pub parse-write_record :
    (h : RecordHeader) (out : Bytes)
    → IsWellFormed h
    → h.endianness ≡ little
    → length out ≡ 56
    → (write h out >>= parse) ≡ ok h
parse-write_record h out f e l = rw (write-encode h out l) (
    parse-encode little (words_of h) (words_of-FitWords h f)
    ∙ from_words-words_of h little f
    ∙ ap (λ x. ok (record h { endianness = x })) (sym e))

abbrev pub in_order : Endianness → RecordHeader → RecordHeader
in_order e h = record h { endianness = e }

from_words_order :
    (w : HeaderWords)
    → from_words big w.record_length w.record_number w.header_length w.event_count
        w.index_array_length w.bit_info w.user_header_length w.data_length w.comp_word w.user_word_1
        w.user_word_2
      ≡ map_ok (in_order big) (
          from_words little w.record_length w.record_number w.header_length w.event_count
            w.index_array_length w.bit_info w.user_header_length w.data_length w.comp_word
            w.user_word_1 w.user_word_2)
unfolding from_words
from_words_order w = ground arith

-- A big-endian header means what its little-endian twin means, errors included.
pub parse_big_endian_record :
    (w : HeaderWords)
    → FitWords w
    → parse (encode big w) ≡ map_ok (in_order big) (parse (encode little w))
parse_big_endian_record w f =
    rw (parse-encode big w f, parse-encode little w f) (from_words_order w)
