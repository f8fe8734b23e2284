-- ===== src/Wire/Bytes.antt =====
-- src/wire/bytes.rs: reads and writes of little-endian words in a byte buffer. A buffer is the list
-- of its bytes. A signed or a floating-point word is kept as its bit pattern.
pub mod Laws
use oxihipo.Prelude.{
  ℕ, zero, suc, ◌+◌, ◌-◌, ◌*◌, ◌/◌, ◌%◌, ◌<◌, Bool, true, false, ◌&&◌, List, [], ◌∷◌, ◌++◌, reverse,
  Option, none, some, ◌==◌, leb, if◌then◌else◌, length, take, drop, Bytes, Result, ok, panic, ◌>>=◌,
}

abbrev pub IsByte : ℕ → Type 0
IsByte b = b < 256

-- `from_le_bytes`
unfoldable pub le_value : Bytes → ℕ
le_value [] = 0
le_value (b ∷ bs) = b + 256 * le_value bs

-- `to_le_bytes` of a word of `n` bytes
unfoldable pub le_bytes : ℕ → ℕ → Bytes
le_bytes zero v = []
le_bytes (suc n) v = v % 256 ∷ le_bytes n (v / 256)

-- `to_be_bytes`
unfoldable pub be_bytes : ℕ → ℕ → Bytes
be_bytes n v = reverse (le_bytes n v)

-- `v.swap_bytes()` of a word of `n` bytes
unfoldable pub swap_bytes : ℕ → ℕ → ℕ
swap_bytes n v = le_value (be_bytes n v)

-- `&buf[lo..hi]`, which panics out of range
unfoldable pub slice : Bytes → ℕ → ℕ → Result Bytes
slice buf lo hi =
    if leb lo hi && leb hi (length buf) then ok (take (hi - lo) (drop lo buf)) else panic

-- `buf[off..off + bs.len()].copy_from_slice(bs)`
unfoldable pub copy_at : Bytes → ℕ → Bytes → Result Bytes
copy_at buf off bs =
    if leb (off + length bs) (length buf)
    then ok (take off buf ++ (bs ++ drop (off + length bs) buf))
    else panic

-- A word of `n` bytes at `off`.
unfoldable pub read_le : ℕ → Bytes → ℕ → Result ℕ
read_le n buf off = do w ← slice buf off (off + n); ok (le_value w)

unfoldable pub write_le : ℕ → Bytes → ℕ → ℕ → Result Bytes
write_le n buf off v = copy_at buf off (le_bytes n v)

abbrev pub read_u32_le : Bytes → ℕ → Result ℕ
read_u32_le = read_le 4

abbrev pub read_i32_le : Bytes → ℕ → Result ℕ
read_i32_le = read_u32_le

abbrev pub read_u64_le : Bytes → ℕ → Result ℕ
read_u64_le = read_le 8

abbrev pub read_i16_le : Bytes → ℕ → Result ℕ
read_i16_le = read_le 2

abbrev pub read_f32_le : Bytes → ℕ → Result ℕ
read_f32_le = read_u32_le

abbrev pub read_f64_le : Bytes → ℕ → Result ℕ
read_f64_le = read_u64_le

abbrev pub write_u32_le : Bytes → ℕ → ℕ → Result Bytes
write_u32_le = write_le 4

abbrev pub write_u64_le : Bytes → ℕ → ℕ → Result Bytes
write_u64_le = write_le 8

abbrev pub header_magic : ℕ
header_magic = 0xc0da_0100

abbrev pub header_magic_be : ℕ
header_magic_be = 0x0001_dac0

pub data Endianness : Type 0 where
  little big : Endianness

abbrev pub from_magic : ℕ → Option Endianness
from_magic magic =
    if magic == header_magic
    then some little
    else if magic == header_magic_be
    then some big
    else none
