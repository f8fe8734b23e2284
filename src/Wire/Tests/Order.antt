-- ===== src/Wire/Tests/Order.antt =====
-- The file header in both byte orders at a concrete input.

use oxihipo.Wire.FileHeader.Fields.{HeaderWords}

abbrev sample_file_words : HeaderWords
sample_file_words = record {
  file_number = 1;
  header_length = 14;
  record_count = 2;
  index_array_length = 0;
  bit_info = 0x206;
  user_header_length = 0;
  user_register = 5;
  trailer_position = 4096;
  user_int1 = 1;
  user_int2 = 2;
}
