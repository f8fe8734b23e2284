-- ===== src/Wire/Constants/Tags.antt =====
-- src/wire/constants.rs: the compression tag of a record and its two halves, the header type and the
-- stream encodings.
pub mod RoundTrip
use oxihipo.Prelude.{ℕ, Bool, true, false, Option, ◌==◌, if◌then◌else◌, bit_and}
use oxihipo.Prelude.Bits.{◌>>>◌}
use oxihipo.Wire.Constants.Words.{comp_type_shift, comp_type_byte, bitinfo_header_type_shift}

-- What squeezes the bytes.
pub data Codec : Type 0 where
  none lz4 lz4_hc gzip zstd : Codec

-- How the bytes of a record are grouped before compression.
pub data Layout : Type 0 where
  per_chunk per_bank per_column : Layout

pub data CompressionType : Type 0 where
  none lz4 lz4_best gzip zstd_per_chunk zstd_per_bank lz4_per_bank lz4_per_column : CompressionType
  zstd_per_column lz4_fast_per_bank lz4_fast_per_column gzip_per_bank : CompressionType
  gzip_per_column none_per_bank none_per_column : CompressionType

-- `self as u32`
unfoldable pub tag : CompressionType → ℕ
tag CompressionType.none = 0
tag CompressionType.lz4 = 1
tag CompressionType.lz4_best = 2
tag CompressionType.gzip = 3
tag CompressionType.zstd_per_chunk = 4
tag CompressionType.zstd_per_bank = 5
tag CompressionType.lz4_per_bank = 6
tag CompressionType.lz4_per_column = 7
tag CompressionType.zstd_per_column = 8
tag CompressionType.lz4_fast_per_bank = 9
tag CompressionType.lz4_fast_per_column = 10
tag CompressionType.gzip_per_bank = 11
tag CompressionType.gzip_per_column = 12
tag CompressionType.none_per_bank = 13
tag CompressionType.none_per_column = 14

unfoldable pub from_tag : ℕ → Option CompressionType
from_tag t =
    if t == 0
    then Option.some CompressionType.none
    else if t == 1
    then Option.some CompressionType.lz4
    else if t == 2
    then Option.some CompressionType.lz4_best
    else if t == 3
    then Option.some CompressionType.gzip
    else if t == 4
    then Option.some CompressionType.zstd_per_chunk
    else if t == 5
    then Option.some CompressionType.zstd_per_bank
    else if t == 6
    then Option.some CompressionType.lz4_per_bank
    else if t == 7
    then Option.some CompressionType.lz4_per_column
    else if t == 8
    then Option.some CompressionType.zstd_per_column
    else if t == 9
    then Option.some CompressionType.lz4_fast_per_bank
    else if t == 10
    then Option.some CompressionType.lz4_fast_per_column
    else if t == 11
    then Option.some CompressionType.gzip_per_bank
    else if t == 12
    then Option.some CompressionType.gzip_per_column
    else if t == 13
    then Option.some CompressionType.none_per_bank
    else if t == 14
    then Option.some CompressionType.none_per_column
    else Option.none

unfoldable pub from_word : ℕ → Option CompressionType
from_word w = from_tag (bit_and (w >>> comp_type_shift) comp_type_byte)

unfoldable pub for_pair : Codec → Layout → CompressionType
for_pair Codec.none Layout.per_chunk = CompressionType.none
for_pair Codec.lz4 Layout.per_chunk = CompressionType.lz4
for_pair Codec.lz4_hc Layout.per_chunk = CompressionType.lz4_best
for_pair Codec.gzip Layout.per_chunk = CompressionType.gzip
for_pair Codec.zstd Layout.per_chunk = CompressionType.zstd_per_chunk
for_pair Codec.zstd Layout.per_bank = CompressionType.zstd_per_bank
for_pair Codec.lz4_hc Layout.per_bank = CompressionType.lz4_per_bank
for_pair Codec.lz4_hc Layout.per_column = CompressionType.lz4_per_column
for_pair Codec.zstd Layout.per_column = CompressionType.zstd_per_column
for_pair Codec.lz4 Layout.per_bank = CompressionType.lz4_fast_per_bank
for_pair Codec.lz4 Layout.per_column = CompressionType.lz4_fast_per_column
for_pair Codec.gzip Layout.per_bank = CompressionType.gzip_per_bank
for_pair Codec.gzip Layout.per_column = CompressionType.gzip_per_column
for_pair Codec.none Layout.per_bank = CompressionType.none_per_bank
for_pair Codec.none Layout.per_column = CompressionType.none_per_column

unfoldable pub codec : CompressionType → Codec
codec CompressionType.none = Codec.none
codec CompressionType.lz4 = Codec.lz4
codec CompressionType.lz4_best = Codec.lz4_hc
codec CompressionType.gzip = Codec.gzip
codec CompressionType.zstd_per_chunk = Codec.zstd
codec CompressionType.zstd_per_bank = Codec.zstd
codec CompressionType.lz4_per_bank = Codec.lz4_hc
codec CompressionType.lz4_per_column = Codec.lz4_hc
codec CompressionType.zstd_per_column = Codec.zstd
codec CompressionType.lz4_fast_per_bank = Codec.lz4
codec CompressionType.lz4_fast_per_column = Codec.lz4
codec CompressionType.gzip_per_bank = Codec.gzip
codec CompressionType.gzip_per_column = Codec.gzip
codec CompressionType.none_per_bank = Codec.none
codec CompressionType.none_per_column = Codec.none

unfoldable pub layout : CompressionType → Layout
layout CompressionType.none = Layout.per_chunk
layout CompressionType.lz4 = Layout.per_chunk
layout CompressionType.lz4_best = Layout.per_chunk
layout CompressionType.gzip = Layout.per_chunk
layout CompressionType.zstd_per_chunk = Layout.per_chunk
layout CompressionType.zstd_per_bank = Layout.per_bank
layout CompressionType.lz4_per_bank = Layout.per_bank
layout CompressionType.lz4_per_column = Layout.per_column
layout CompressionType.zstd_per_column = Layout.per_column
layout CompressionType.lz4_fast_per_bank = Layout.per_bank
layout CompressionType.lz4_fast_per_column = Layout.per_column
layout CompressionType.gzip_per_bank = Layout.per_bank
layout CompressionType.gzip_per_column = Layout.per_column
layout CompressionType.none_per_bank = Layout.per_bank
layout CompressionType.none_per_column = Layout.per_column

unfoldable pub is_by_bank : CompressionType → Bool
is_by_bank c = elim (layout c) [ Layout.per_bank ↦ true | _ ↦ false ]

unfoldable pub is_per_column : CompressionType → Bool
is_per_column c = elim (layout c) [ Layout.per_column ↦ true | _ ↦ false ]

pub data HeaderType : Type 0 where
  evio_record evio_file evio_ext_file hipo_record hipo_file hipo_ext_file hipo_trailer : HeaderType

-- `self as u32`
unfoldable pub type_code : HeaderType → ℕ
type_code HeaderType.evio_record = 0
type_code HeaderType.evio_file = 1
type_code HeaderType.evio_ext_file = 2
type_code HeaderType.hipo_record = 4
type_code HeaderType.hipo_file = 5
type_code HeaderType.hipo_ext_file = 6
type_code HeaderType.hipo_trailer = 7

unfoldable pub from_type_code : ℕ → Option HeaderType
from_type_code t =
    if t == 0
    then Option.some HeaderType.evio_record
    else if t == 1
    then Option.some HeaderType.evio_file
    else if t == 2
    then Option.some HeaderType.evio_ext_file
    else if t == 4
    then Option.some HeaderType.hipo_record
    else if t == 5
    then Option.some HeaderType.hipo_file
    else if t == 6
    then Option.some HeaderType.hipo_ext_file
    else if t == 7
    then Option.some HeaderType.hipo_trailer
    else Option.none

-- `(bit_info >> BITINFO_HEADER_TYPE_SHIFT) & 0xF`
unfoldable pub from_bit_info : ℕ → Option HeaderType
unfolding from_type_code
from_bit_info b = from_type_code (bit_and (b >>> bitinfo_header_type_shift) 0xF)

pub data StreamEncoding : Type 0 where
  raw byte_split : StreamEncoding

unfoldable pub from_u8 : ℕ → Option StreamEncoding
from_u8 v =
    if v == 0 then Option.some raw else if v == 1 then Option.some byte_split else Option.none
