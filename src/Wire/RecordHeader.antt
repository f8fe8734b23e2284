-- ===== src/Wire/RecordHeader.antt =====
-- src/wire/record_header.rs: the 56-byte header of a record.
pub mod Fields
pub mod RoundTrip
pub mod Total
use Prim.Native.Nat.{bit_and, bit_or}
use oxihipo.Prelude.{
  ℕ, ◌+◌, ◌-◌, ◌*◌, ◌/◌, ◌%◌, ◌^◌, min, Bool, true, false, ltb, ◌==◌, length, Bytes, HipoError,
  file_too_small, bad_magic, unknown_compression, corrupt_record, Result, ok, err, ◌>>=◌, ◌>>◌,
  refuse_if, ok_or,
}
use oxihipo.Prelude.Bits.{◌>>>◌, ◌<<<◌}
use oxihipo.Wire.Bytes.{
  Endianness, little, big, from_magic, header_magic, read_u32_le, write_u32_le, write_u64_le,
}
use oxihipo.Wire.Constants.Tags.{CompressionType, tag, from_word}
use oxihipo.Wire.Constants.Words.{
  record_header_size, rh_record_length, rh_record_number, rh_header_length, rh_event_count,
  rh_index_array_len, rh_bit_info, rh_user_header_len, rh_magic_number, rh_data_length,
  rh_comp_word, rh_user_word1, rh_user_word2, bitinfo_version_mask, bitinfo_has_dictionary_bit,
  bitinfo_has_first_event_bit, bitinfo_pad1_shift, bitinfo_pad2_shift, bitinfo_pad3_shift,
  bitinfo_pad_mask, comp_type_shift, comp_type_byte, comp_length_mask,
}
use oxihipo.Wire.Fields.{read_word}

pub record RecordHeader : Type 0 where
  pub record_length : ℕ
  pub record_number : ℕ
  pub header_length : ℕ
  pub event_count : ℕ
  pub index_array_length : ℕ
  pub bit_info : ℕ
  pub user_header_length : ℕ
  pub data_length : ℕ
  pub compressed_data_length : ℕ
  pub compression : CompressionType
  pub user_word_1 : ℕ
  pub user_word_2 : ℕ
  pub endianness : Endianness
  pub user_header_padding : ℕ
  pub data_padding : ℕ
  pub compressed_data_padding : ℕ

-- `saturating_mul` of two `u32`s
abbrev pub saturating_mul : ℕ → ℕ → ℕ
saturating_mul a b = min (a * b) (2 ^ 32 - 1)

unfoldable pub version : RecordHeader → ℕ
version h = bit_and h.bit_info bitinfo_version_mask

unfoldable pub has_dictionary : RecordHeader → Bool
has_dictionary h = bit_and (h.bit_info >>> bitinfo_has_dictionary_bit) 1 == 1

unfoldable pub has_first_event : RecordHeader → Bool
has_first_event h = bit_and (h.bit_info >>> bitinfo_has_first_event_bit) 1 == 1

-- The two bits of a padding field, `(bit_info >> shift) & BITINFO_PAD_MASK`.
abbrev pub pad_bits : ℕ → ℕ → ℕ
pad_bits bit_info shift = bit_and (bit_info >>> shift) bitinfo_pad_mask

abbrev pub is_big : Endianness → Bool
is_big little = false
is_big big = true

-- What `parse` does with the words once it has read them, in the order of the header.
unfoldable pub from_words :
    Endianness → ℕ → ℕ → ℕ → ℕ → ℕ → ℕ → ℕ → ℕ → ℕ → ℕ → ℕ → Result RecordHeader
from_words endianness record_length_words record_number header_length_words event_count
      index_array_length bit_info user_header_length data_length comp_word user_word_1 user_word_2 =
    do
      compression ←
          ok_or (from_word comp_word)
            (unknown_compression (bit_and (comp_word >>> comp_type_shift) comp_type_byte))
      let compressed_words = bit_and comp_word comp_length_mask
      let record_length = record_length_words * 4
      let header_length = saturating_mul header_length_words 4
      refuse_if (ltb record_length header_length)
          (corrupt_record rh_record_length "record header_length exceeds record_length")
      ok (record {
        record_length = record_length;
        record_number = record_number;
        header_length = header_length;
        event_count = event_count;
        index_array_length = index_array_length;
        bit_info = bit_info;
        user_header_length = user_header_length;
        data_length = data_length;
        compressed_data_length = saturating_mul compressed_words 4;
        compression = compression;
        user_word_1 = user_word_1;
        user_word_2 = user_word_2;
        endianness = endianness;
        user_header_padding = pad_bits bit_info bitinfo_pad1_shift;
        data_padding = pad_bits bit_info bitinfo_pad2_shift;
        compressed_data_padding = pad_bits bit_info bitinfo_pad3_shift;
      })

unfoldable pub parse : Bytes → Result RecordHeader
parse buf = do
  refuse_if (ltb (length buf) record_header_size) (file_too_small (length buf) record_header_size)
  magic ← read_u32_le buf rh_magic_number
  endianness ← ok_or (from_magic magic) (bad_magic rh_magic_number magic header_magic)
  record_length_words ← read_word (is_big endianness) 4 buf rh_record_length
  record_number ← read_word (is_big endianness) 4 buf rh_record_number
  header_length_words ← read_word (is_big endianness) 4 buf rh_header_length
  event_count ← read_word (is_big endianness) 4 buf rh_event_count
  index_array_length ← read_word (is_big endianness) 4 buf rh_index_array_len
  bit_info ← read_word (is_big endianness) 4 buf rh_bit_info
  user_header_length ← read_word (is_big endianness) 4 buf rh_user_header_len
  data_length ← read_word (is_big endianness) 4 buf rh_data_length
  comp_word ← read_word (is_big endianness) 4 buf rh_comp_word
  user_word_1 ← read_word (is_big endianness) 8 buf rh_user_word1
  user_word_2 ← read_word (is_big endianness) 8 buf rh_user_word2
  from_words endianness record_length_words record_number header_length_words event_count
      index_array_length bit_info user_header_length data_length comp_word user_word_1 user_word_2

abbrev pub total_bytes : RecordHeader → ℕ
total_bytes h = h.record_length

-- Subtraction of `u64`s, which wraps in a release build.
abbrev pub payload_bytes : RecordHeader → ℕ
payload_bytes h = (h.record_length + 2 ^ 64 - h.header_length) % 2 ^ 64

-- A sum of four `u32`s in a 64-bit `usize`.
abbrev pub decompressed_payload_size : RecordHeader → ℕ
decompressed_payload_size h =
    h.index_array_length + h.user_header_length + h.user_header_padding + h.data_length

abbrev pub comp_word_of : RecordHeader → ℕ
comp_word_of h =
    bit_or (tag h.compression <<< comp_type_shift)
      (bit_and (h.compressed_data_length / 4) comp_length_mask)

-- `out` is the 56-byte array that the header is written over.
unfoldable pub write : RecordHeader → Bytes → Result Bytes
write h out = do
  out ← write_u32_le out rh_record_length (h.record_length / 4 % 2 ^ 32)
  out ← write_u32_le out rh_record_number h.record_number
  out ← write_u32_le out rh_header_length (h.header_length / 4)
  out ← write_u32_le out rh_event_count h.event_count
  out ← write_u32_le out rh_index_array_len h.index_array_length
  out ← write_u32_le out rh_bit_info h.bit_info
  out ← write_u32_le out rh_user_header_len h.user_header_length
  out ← write_u32_le out rh_magic_number header_magic
  out ← write_u32_le out rh_data_length h.data_length
  out ← write_u32_le out rh_comp_word (comp_word_of h)
  out ← write_u64_le out rh_user_word1 h.user_word_1
  out ← write_u64_le out rh_user_word2 h.user_word_2
  ok out
