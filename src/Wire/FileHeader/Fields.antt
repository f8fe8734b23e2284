-- ===== src/Wire/FileHeader/Fields.antt =====
-- The file header as a list of words. The unique word is character data: it reads as `HIPO` in
-- little-endian order whatever the order of the other words.
use oxihipo.Prelude.{ℕ, ◌/◌, ◌^◌, ◌<◌, ◌≡◌, refl, arith, List, [], ◌∷◌, length, All, Bytes, ok}
use oxihipo.Wire.Bytes.{Endianness, little, big, header_magic, le_value, le_bytes, be_bytes}
use oxihipo.Wire.Constants.Words.{hipo_file_unique_word}
use oxihipo.Wire.FileHeader.{FileHeader, parse, check_version, write}
use oxihipo.Wire.Fields.{
  Field, Fits, order, fields_bytes, length-fields_bytes, read_word-fields, read_le-fields,
  write_fields_all,
}
use oxihipo.Wire.RecordHeader.{is_big, saturating_mul}
use oxihipo.Wire.RecordHeader.Fields.{magic_word, from_magic-magic_of}

-- The words of a file header, before they are interpreted.
pub record HeaderWords : Type 0 where
  pub file_number : ℕ
  pub header_length : ℕ
  pub record_count : ℕ
  pub index_array_length : ℕ
  pub bit_info : ℕ
  pub user_header_length : ℕ
  pub user_register : ℕ
  pub trailer_position : ℕ
  pub user_int1 : ℕ
  pub user_int2 : ℕ

-- The unique word as a number whose bytes in the given order are `HIPO`.
unfoldable pub unique_word : Endianness → ℕ
unique_word little = hipo_file_unique_word
unique_word big = 0x4849_504F

abbrev pub fields : Endianness → HeaderWords → List Field
fields e w =
    (4, unique_word e)
    ∷ (4, w.file_number)
    ∷ (4, w.header_length)
    ∷ (4, w.record_count)
    ∷ (4, w.index_array_length)
    ∷ (4, w.bit_info)
    ∷ (4, w.user_header_length)
    ∷ (4, header_magic)
    ∷ (8, w.user_register)
    ∷ (8, w.trailer_position)
    ∷ (4, w.user_int1)
    ∷ (4, w.user_int2)
    ∷ []

-- Each word fits its field.
pub record FitWords (w : HeaderWords) : Type 0 where
  pub file_number : w.file_number < 2 ^ 32
  pub header_length : w.header_length < 2 ^ 32
  pub record_count : w.record_count < 2 ^ 32
  pub index_array_length : w.index_array_length < 2 ^ 32
  pub bit_info : w.bit_info < 2 ^ 32
  pub user_header_length : w.user_header_length < 2 ^ 32
  pub user_register : w.user_register < 2 ^ 64
  pub trailer_position : w.trailer_position < 2 ^ 64
  pub user_int1 : w.user_int1 < 2 ^ 32
  pub user_int2 : w.user_int2 < 2 ^ 32

-- A header in the given byte order.
abbrev pub encode : Endianness → HeaderWords → Bytes
encode e w = fields_bytes (is_big e) (fields e w)

unique_word-lt : (e : Endianness) → unique_word e < 2 ^ 32
unfolding unique_word
unique_word-lt little = omega arith
unique_word-lt big = omega arith

FitWords-Fits : (e : Endianness) (w : HeaderWords) → FitWords w → All Fits (fields e w)
FitWords-Fits e w f = omega (arith, unique_word-lt e)

unique_word_read :
    (e : Endianness) → le_value (order (is_big e) 4 (unique_word e)) ≡ hipo_file_unique_word
unfolding unique_word le_value le_bytes be_bytes
unique_word_read little = refl
unique_word_read big = refl

-- The header that `parse` assembles from the words, before it checks the version.
abbrev pub header_of : Endianness → HeaderWords → FileHeader
header_of e w = record {
  file_number = w.file_number;
  header_length = saturating_mul w.header_length 4;
  record_count = w.record_count;
  index_array_length = w.index_array_length;
  bit_info = w.bit_info;
  user_header_length = w.user_header_length;
  user_register = w.user_register;
  trailer_position = w.trailer_position;
  user_int1 = w.user_int1;
  user_int2 = w.user_int2;
  endianness = e;
}

-- In either byte order `parse` finds the words and notes the order.
pub parse-encode :
    (e : Endianness) (w : HeaderWords)
    → FitWords w
    → parse (encode e w) ≡ check_version (header_of e w)
unfolding parse
parse-encode e w f =
    let fits : All Fits (fields e w) = FitWords-Fits e w f in
    let at = read_word-fields (is_big e) (fields e w) fits in
    rw (
      length-fields_bytes (is_big e) (fields e w),
      read_le-fields (is_big e) (fields e w) fits 0 4 (unique_word e) refl,
      unique_word_read e,
      read_le-fields (is_big e) (fields e w) fits 28 4 header_magic refl,
      magic_word e,
      from_magic-magic_of e,
      at 4 4 w.file_number refl,
      at 8 4 w.header_length refl,
      at 12 4 w.record_count refl,
      at 16 4 w.index_array_length refl,
      at 20 4 w.bit_info refl,
      at 24 4 w.user_header_length refl,
      at 32 8 w.user_register refl,
      at 40 8 w.trailer_position refl,
      at 48 4 w.user_int1 refl,
      at 52 4 w.user_int2 refl,
    )

-- The words that `write` stores.
abbrev pub words_of : FileHeader → HeaderWords
words_of h = record {
  file_number = h.file_number;
  header_length = h.header_length / 4;
  record_count = h.record_count;
  index_array_length = h.index_array_length;
  bit_info = h.bit_info;
  user_header_length = h.user_header_length;
  user_register = h.user_register;
  trailer_position = h.trailer_position;
  user_int1 = h.user_int1;
  user_int2 = h.user_int2;
}

-- `write` replaces all 56 bytes of the array.
pub write-encode :
    (h : FileHeader) (out : Bytes) → length out ≡ 56 → write h out ≡ ok (encode little (words_of h))
unfolding write unique_word
write-encode h out e = write_fields_all (fields little (words_of h)) out e
