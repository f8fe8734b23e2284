-- ===== src/Wire/FileHeader/RoundTrip.antt =====
-- `FileHeader::write` and `FileHeader::parse` against each other, and the two byte orders.
use oxihipo.Prelude.{
  ◌*◌, ◌/◌, ◌^◌, ◌≤◌, ◌<◌, ◌≡◌, sym, ap, ◌∙◌, arith, length, Bytes, ok, ◌>>=◌, map_ok,
}
use oxihipo.Wire.Bytes.{Endianness, little, big}
use oxihipo.Wire.FileHeader.{FileHeader, parse, check_version, version, write}
use oxihipo.Wire.FileHeader.Fields.{
  HeaderWords, FitWords, encode, header_of, words_of, parse-encode, write-encode,
}

-- A header that the format can express, of a supported version.
pub record IsWellFormed (h : FileHeader) : Type 0 where
  pub header_words : h.header_length ≡ h.header_length / 4 * 4
  pub header_length : h.header_length < 2 ^ 32
  pub file_number : h.file_number < 2 ^ 32
  pub record_count : h.record_count < 2 ^ 32
  pub index_array_length : h.index_array_length < 2 ^ 32
  pub bit_info : h.bit_info < 2 ^ 32
  pub user_header_length : h.user_header_length < 2 ^ 32
  pub user_register : h.user_register < 2 ^ 64
  pub trailer_position : h.trailer_position < 2 ^ 64
  pub user_int1 : h.user_int1 < 2 ^ 32
  pub user_int2 : h.user_int2 < 2 ^ 32
  pub version_lower : 1 ≤ version h
  pub version_upper : version h ≤ 6

words_of-FitWords : (h : FileHeader) → IsWellFormed h → FitWords (words_of h)
words_of-FitWords h f = record {
  file_number = f.file_number;
  header_length = omega (arith, f.header_length);
  record_count = f.record_count;
  index_array_length = f.index_array_length;
  bit_info = f.bit_info;
  user_header_length = f.user_header_length;
  user_register = f.user_register;
  trailer_position = f.trailer_position;
  user_int1 = f.user_int1;
  user_int2 = f.user_int2;
}

check_version_passes :
    (h : FileHeader) → IsWellFormed h → check_version (header_of h.endianness (words_of h)) ≡ ok h
unfolding check_version
check_version_passes h f = ground (arith, f.version_lower, f.version_upper)

-- `parse` of what `write` puts into an array of 56 bytes gives back a well-formed little-endian
-- header, whatever the array held.
pub parse-write_file :
    (h : FileHeader) (out : Bytes)
    → IsWellFormed h
    → h.endianness ≡ little
    → length out ≡ 56
    → (write h out >>= parse) ≡ ok h
parse-write_file h out f e l = rw (write-encode h out l) (
    parse-encode little (words_of h) (words_of-FitWords h f)
    ∙ ap (λ x. check_version (header_of x (words_of h))) (sym e)
    ∙ check_version_passes h f)

abbrev pub in_order : Endianness → FileHeader → FileHeader
in_order e h = record h { endianness = e }

check_version_order :
    (w : HeaderWords)
    → check_version (header_of big w) ≡ map_ok (in_order big) (check_version (header_of little w))
unfolding check_version
check_version_order w = ground arith

-- A big-endian header means what its little-endian twin means, an unsupported version included.
pub parse_big_endian_file :
    (w : HeaderWords)
    → FitWords w
    → parse (encode big w) ≡ map_ok (in_order big) (parse (encode little w))
parse_big_endian_file w f =
    rw (parse-encode big w f, parse-encode little w f) (check_version_order w)
