-- ===== src/Wire/FileHeader.antt =====
-- src/wire/file_header.rs: the 56-byte header of a file.
pub mod Fields
pub mod RoundTrip
pub mod Total
use oxihipo.Prelude.{
  ℕ, ◌+◌, ◌/◌, ◌^◌, Bool, true, false, not, ◌||◌, ltb, ◌==◌, length, bit_and, Bytes, file_too_small,
  bad_magic, unsupported_version, Result, ok, ◌>>=◌, ◌>>◌, refuse_if, ok_or,
}
use oxihipo.Prelude.Bits.{◌>>>◌}
use oxihipo.Wire.Bytes.{
  Endianness, from_magic, header_magic, read_u32_le, write_u32_le, write_u64_le,
}
use oxihipo.Wire.Constants.Words.{
  hipo_file_unique_word, file_header_size, fh_unique_word, fh_file_number, fh_header_length,
  fh_record_count, fh_index_array_len, fh_bit_info, fh_user_header_len, fh_magic_number,
  fh_user_register, fh_trailer_pos, fh_user_int1, fh_user_int2, bitinfo_version_mask,
  bitinfo_has_dictionary_bit, bitinfo_trailer_with_index_bit, hipo_version,
}
use oxihipo.Wire.Fields.{read_word}
use oxihipo.Wire.RecordHeader.{saturating_mul, is_big}

pub record FileHeader : Type 0 where
  pub file_number : ℕ
  pub header_length : ℕ
  pub record_count : ℕ
  pub index_array_length : ℕ
  pub bit_info : ℕ
  pub user_header_length : ℕ
  pub user_register : ℕ
  pub trailer_position : ℕ
  pub user_int1 : ℕ
  pub user_int2 : ℕ
  pub endianness : Endianness

unfoldable pub version : FileHeader → ℕ
version h = bit_and h.bit_info bitinfo_version_mask

unfoldable pub has_trailer_with_index : FileHeader → Bool
has_trailer_with_index h = bit_and (h.bit_info >>> bitinfo_trailer_with_index_bit) 1 == 1

unfoldable pub has_dictionary : FileHeader → Bool
has_dictionary h = bit_and (h.bit_info >>> bitinfo_has_dictionary_bit) 1 == 1

-- The check of the version, behind the assembled header.
unfoldable pub check_version : FileHeader → Result FileHeader
unfolding version
check_version header = do
  refuse_if (version header == 0 || ltb hipo_version (version header))
      (unsupported_version (version header))
  ok header

unfoldable pub parse : Bytes → Result FileHeader
parse buf = do
  refuse_if (ltb (length buf) file_header_size) (file_too_small (length buf) file_header_size)
  unique ← read_u32_le buf fh_unique_word
  refuse_if (not (unique == hipo_file_unique_word)) (bad_magic 0 unique hipo_file_unique_word)
  magic ← read_u32_le buf fh_magic_number
  endianness ← ok_or (from_magic magic) (bad_magic fh_magic_number magic header_magic)
  file_number ← read_word (is_big endianness) 4 buf fh_file_number
  header_length ← read_word (is_big endianness) 4 buf fh_header_length
  record_count ← read_word (is_big endianness) 4 buf fh_record_count
  index_array_length ← read_word (is_big endianness) 4 buf fh_index_array_len
  bit_info ← read_word (is_big endianness) 4 buf fh_bit_info
  user_header_length ← read_word (is_big endianness) 4 buf fh_user_header_len
  user_register ← read_word (is_big endianness) 8 buf fh_user_register
  trailer_position ← read_word (is_big endianness) 8 buf fh_trailer_pos
  user_int1 ← read_word (is_big endianness) 4 buf fh_user_int1
  user_int2 ← read_word (is_big endianness) 4 buf fh_user_int2
  check_version (record {
    file_number = file_number;
    header_length = saturating_mul header_length 4;
    record_count = record_count;
    index_array_length = index_array_length;
    bit_info = bit_info;
    user_header_length = user_header_length;
    user_register = user_register;
    trailer_position = trailer_position;
    user_int1 = user_int1;
    user_int2 = user_int2;
    endianness = endianness;
  })

-- `out` is the 56-byte array that the header is written over.
unfoldable pub write : FileHeader → Bytes → Result Bytes
write h out = do
  out ← write_u32_le out fh_unique_word hipo_file_unique_word
  out ← write_u32_le out fh_file_number h.file_number
  out ← write_u32_le out fh_header_length (h.header_length / 4)
  out ← write_u32_le out fh_record_count h.record_count
  out ← write_u32_le out fh_index_array_len h.index_array_length
  out ← write_u32_le out fh_bit_info h.bit_info
  out ← write_u32_le out fh_user_header_len h.user_header_length
  out ← write_u32_le out fh_magic_number header_magic
  out ← write_u64_le out fh_user_register h.user_register
  out ← write_u64_le out fh_trailer_pos h.trailer_position
  out ← write_u32_le out fh_user_int1 h.user_int1
  out ← write_u32_le out fh_user_int2 h.user_int2
  ok out
