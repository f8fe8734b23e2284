-- ===== src/Wire/RecordHeader/Fields.antt =====
-- The record header as a list of words.
use mathlib.Core.List.{append-nil}
use oxihipo.Prelude.{
  ◌++◌, sym, ap, ◌∙◌, ltb, false, length-append, le→ltb_false, ℕ, ◌/◌, ◌%◌, ◌^◌, ◌<◌, ◌≡◌, refl,
  arith, List, [], ◌∷◌, some, length, All, Bytes, ok,
}
use oxihipo.Wire.Bytes.{
  Endianness, little, big, from_magic, header_magic, header_magic_be, le_value, le_bytes, be_bytes,
}
use oxihipo.Wire.Fields.{
  Field, Fits, order, fields_bytes, read_word-fields_append, read_le-fields_append,
  length-fields_bytes, write_fields_all,
}
use oxihipo.Wire.RecordHeader.{RecordHeader, from_words, parse, is_big, comp_word_of, write}

-- The words of a record header, before they are interpreted.
pub record HeaderWords : Type 0 where
  pub record_length : ℕ
  pub record_number : ℕ
  pub header_length : ℕ
  pub event_count : ℕ
  pub index_array_length : ℕ
  pub bit_info : ℕ
  pub user_header_length : ℕ
  pub data_length : ℕ
  pub comp_word : ℕ
  pub user_word_1 : ℕ
  pub user_word_2 : ℕ

abbrev pub fields : HeaderWords → List Field
fields w =
    (4, w.record_length)
    ∷ (4, w.record_number)
    ∷ (4, w.header_length)
    ∷ (4, w.event_count)
    ∷ (4, w.index_array_length)
    ∷ (4, w.bit_info)
    ∷ (4, w.user_header_length)
    ∷ (4, header_magic)
    ∷ (4, w.data_length)
    ∷ (4, w.comp_word)
    ∷ (8, w.user_word_1)
    ∷ (8, w.user_word_2)
    ∷ []

-- Each word fits its field.
pub record FitWords (w : HeaderWords) : Type 0 where
  pub record_length : w.record_length < 2 ^ 32
  pub record_number : w.record_number < 2 ^ 32
  pub header_length : w.header_length < 2 ^ 32
  pub event_count : w.event_count < 2 ^ 32
  pub index_array_length : w.index_array_length < 2 ^ 32
  pub bit_info : w.bit_info < 2 ^ 32
  pub user_header_length : w.user_header_length < 2 ^ 32
  pub data_length : w.data_length < 2 ^ 32
  pub comp_word : w.comp_word < 2 ^ 32
  pub user_word_1 : w.user_word_1 < 2 ^ 64
  pub user_word_2 : w.user_word_2 < 2 ^ 64

-- A header in the given byte order, its magic word included.
abbrev pub encode : Endianness → HeaderWords → Bytes
encode e w = fields_bytes (is_big e) (fields w)

FitWords-Fits : (w : HeaderWords) → FitWords w → All Fits (fields w)
FitWords-Fits w f = omega arith

-- The magic word as a little-endian read finds it.
abbrev pub magic_of : Endianness → ℕ
magic_of little = header_magic
magic_of big = header_magic_be

pub magic_word : (e : Endianness) → le_value (order (is_big e) 4 header_magic) ≡ magic_of e
unfolding le_value le_bytes be_bytes
magic_word little = refl
magic_word big = refl

pub from_magic-magic_of : (e : Endianness) → from_magic (magic_of e) ≡ some e
from_magic-magic_of little = refl
from_magic-magic_of big = refl

-- In either byte order `parse` finds the words and notes the order, whatever
-- follows the header.
pub parse-encode_append :
    (e : Endianness) (w : HeaderWords) (rest : Bytes)
    → FitWords w
    → parse (encode e w ++ rest)
      ≡ from_words e w.record_length w.record_number w.header_length w.event_count
          w.index_array_length w.bit_info w.user_header_length w.data_length w.comp_word
          w.user_word_1 w.user_word_2
unfolding parse
parse-encode_append e w rest f =
    let fs : List Field = fields w in
    let fits : All Fits (fields w) = FitWords-Fits w f in
    let at = read_word-fields_append (is_big e) (fields w) fits rest in
    let long : ltb (length (encode e w ++ rest)) 56 ≡ false =
      le→ltb_false _ 56 (
        omega
          (arith, length-append (encode e w) rest, length-fields_bytes (is_big e) (fields w))) in
    rw (
      long,
      read_le-fields_append (is_big e) (fields w) fits rest 28 4 header_magic refl,
      magic_word e,
      from_magic-magic_of e,
      at 0 4 w.record_length refl,
      at 4 4 w.record_number refl,
      at 8 4 w.header_length refl,
      at 12 4 w.event_count refl,
      at 16 4 w.index_array_length refl,
      at 20 4 w.bit_info refl,
      at 24 4 w.user_header_length refl,
      at 32 4 w.data_length refl,
      at 36 4 w.comp_word refl,
      at 40 8 w.user_word_1 refl,
      at 48 8 w.user_word_2 refl,
    )

pub parse-encode :
    (e : Endianness) (w : HeaderWords)
    → FitWords w
    → parse (encode e w)
      ≡ from_words e w.record_length w.record_number w.header_length w.event_count
          w.index_array_length w.bit_info w.user_header_length w.data_length w.comp_word
          w.user_word_1 w.user_word_2
parse-encode e w f = ap parse (sym (append-nil (encode e w))) ∙ parse-encode_append e w [] f

-- The words that `write` stores.
abbrev pub words_of : RecordHeader → HeaderWords
words_of h = record {
  record_length = h.record_length / 4 % 2 ^ 32;
  record_number = h.record_number;
  header_length = h.header_length / 4;
  event_count = h.event_count;
  index_array_length = h.index_array_length;
  bit_info = h.bit_info;
  user_header_length = h.user_header_length;
  data_length = h.data_length;
  comp_word = comp_word_of h;
  user_word_1 = h.user_word_1;
  user_word_2 = h.user_word_2;
}

-- `write` replaces all 56 bytes of the array.
pub write-encode :
    (h : RecordHeader) (out : Bytes)
    → length out ≡ 56
    → write h out ≡ ok (encode little (words_of h))
unfolding write
write-encode h out e = write_fields_all (fields (words_of h)) out e
