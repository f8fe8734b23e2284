-- ===== src/Wire/Constants/Words.antt =====
-- src/wire/constants.rs: sizes, byte offsets, shifts and masks of the wire format.
use oxihipo.Prelude.{ℕ}

abbrev pub hipo_file_unique_word : ℕ
hipo_file_unique_word = 0x4F50_4948

abbrev pub file_header_size : ℕ
file_header_size = 56

abbrev pub record_header_size : ℕ
record_header_size = 56

abbrev pub event_header_size : ℕ
event_header_size = 16

abbrev pub bank_structure_size : ℕ
bank_structure_size = 8

abbrev pub fh_unique_word : ℕ
fh_unique_word = 0

abbrev pub fh_file_number : ℕ
fh_file_number = 4

abbrev pub fh_header_length : ℕ
fh_header_length = 8

abbrev pub fh_record_count : ℕ
fh_record_count = 12

abbrev pub fh_index_array_len : ℕ
fh_index_array_len = 16

abbrev pub fh_bit_info : ℕ
fh_bit_info = 20

abbrev pub fh_user_header_len : ℕ
fh_user_header_len = 24

abbrev pub fh_magic_number : ℕ
fh_magic_number = 28

abbrev pub fh_user_register : ℕ
fh_user_register = 32

abbrev pub fh_trailer_pos : ℕ
fh_trailer_pos = 40

abbrev pub fh_user_int1 : ℕ
fh_user_int1 = 48

abbrev pub fh_user_int2 : ℕ
fh_user_int2 = 52

abbrev pub rh_record_length : ℕ
rh_record_length = 0

abbrev pub rh_record_number : ℕ
rh_record_number = 4

abbrev pub rh_header_length : ℕ
rh_header_length = 8

abbrev pub rh_event_count : ℕ
rh_event_count = 12

abbrev pub rh_index_array_len : ℕ
rh_index_array_len = 16

abbrev pub rh_bit_info : ℕ
rh_bit_info = 20

abbrev pub rh_user_header_len : ℕ
rh_user_header_len = 24

abbrev pub rh_magic_number : ℕ
rh_magic_number = 28

abbrev pub rh_data_length : ℕ
rh_data_length = 32

abbrev pub rh_comp_word : ℕ
rh_comp_word = 36

abbrev pub rh_user_word1 : ℕ
rh_user_word1 = 40

abbrev pub rh_user_word2 : ℕ
rh_user_word2 = 48

abbrev pub eh_size : ℕ
eh_size = 4

abbrev pub eh_tag : ℕ
eh_tag = 8

abbrev pub eh_reserved : ℕ
eh_reserved = 12

abbrev pub dict_group : ℕ
dict_group = 120

abbrev pub dict_item : ℕ
dict_item = 2

abbrev pub file_index_group : ℕ
file_index_group = 32111

abbrev pub file_index_item : ℕ
file_index_item = 1

abbrev pub bitinfo_version_mask : ℕ
bitinfo_version_mask = 0x0000_00FF

abbrev pub bitinfo_has_dictionary_bit : ℕ
bitinfo_has_dictionary_bit = 8

abbrev pub bitinfo_has_first_event_bit : ℕ
bitinfo_has_first_event_bit = 9

abbrev pub bitinfo_trailer_with_index_bit : ℕ
bitinfo_trailer_with_index_bit = 10

abbrev pub bitinfo_pad1_shift : ℕ
bitinfo_pad1_shift = 20

abbrev pub bitinfo_pad2_shift : ℕ
bitinfo_pad2_shift = 22

abbrev pub bitinfo_pad3_shift : ℕ
bitinfo_pad3_shift = 24

abbrev pub bitinfo_pad_mask : ℕ
bitinfo_pad_mask = 0x3

abbrev pub bitinfo_header_type_shift : ℕ
bitinfo_header_type_shift = 28

abbrev pub comp_type_shift : ℕ
comp_type_shift = 28

abbrev pub comp_type_byte : ℕ
comp_type_byte = 0x0000_000F

abbrev pub comp_length_mask : ℕ
comp_length_mask = 0x0FFF_FFFF

abbrev pub struct_size_mask : ℕ
struct_size_mask = 0x00FF_FFFF

abbrev pub struct_format_shift : ℕ
struct_format_shift = 24

abbrev pub struct_format_byte : ℕ
struct_format_byte = 0x0000_00FF

abbrev pub hipo_version : ℕ
hipo_version = 6
