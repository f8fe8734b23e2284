-- ===== src/Record/Codec.antt =====
-- src/compress.rs: the choice of a codec and the checks around it. The codecs themselves are
-- third-party libraries, and are parameters.
pub mod RoundTrip
pub mod Total
use oxihipo.Prelude.{
  ℕ, zero, suc, ◌+◌, ◌-◌, ◌*◌, ◌%◌, ◌^◌, min, max, Bool, true, false, List, [], ◌∷◌, Option, none,
  some, ltb, ◌==◌, ◌≤◌, ◌≡◌, if◌then◌else◌, length, take, Bytes, Result, ok, err, ◌>>=◌, ◌>>◌,
  refuse_if, ok_or, HipoError, io, corrupt_record, compression_error, decompress_underflow,
}
use oxihipo.Wire.Constants.Tags.{Codec, CompressionType, codec}

-- The libraries: LZ4 blocks, with a limit on the output and the choice of the high-compression mode,
-- gzip and zstd streams, with a limit on the bytes read or a level. `none` stands for their errors.
-- The last field is the allocator's part: the capacity that the recycled buffer has when a stream is
-- decoded into it.
pub record Backends : Type 0 where
  pub lz4_decompress : Bytes → ℕ → Option Bytes
  pub lz4_compress : Bool → Bytes → Option Bytes
  pub gzip_decode : Bytes → ℕ → Option Bytes
  pub gzip_encode : Bytes → Option Bytes
  pub zstd_decode : Bytes → ℕ → Option Bytes
  pub zstd_encode : ℕ → Bytes → Option Bytes
  pub capacity : Bytes → ℕ → ℕ

abbrev pub decompress_slack : ℕ
decompress_slack = 65536

-- `saturating_mul` and `saturating_add` of a 64-bit `usize`
unfoldable pub max_plausible_decompressed : CompressionType → ℕ → ℕ
max_plausible_decompressed kind comp_len = elim (codec kind) [
  | Codec.none ↦ comp_len
  | _ ↦ min (min (comp_len * 1056) (2 ^ 64 - 1) + decompress_slack) (2 ^ 64 - 1)
]

-- `reserve_exact` on an empty buffer, where its capacity is below `wanted`: it asks for the difference
-- only, and that beside the length, which is 0.
abbrev reserved : ℕ → ℕ → ℕ
reserved capacity wanted =
    if ltb capacity wanted then max capacity (wanted - capacity) else capacity

-- The bytes that the LZ4 decoder may write into a buffer of a capacity.
unfoldable pub target_len : ℕ → ℕ → ℕ → ℕ
target_len capacity comp_len expected =
    let bound : ℕ = max (min (expected * 2) (2 ^ 64 - 1)) (min (comp_len * 32) (2 ^ 64 - 1)) in
    min (reserved (reserved capacity ((expected + decompress_slack) % 2 ^ 64)) bound) bound

-- The last check of the arms of `decompress`.
abbrev pub enough : ℕ → Bytes → Result Bytes
enough expected out = do
  refuse_if (ltb (length out + decompress_slack) expected)
      (decompress_underflow (length out) expected)
  ok out

module _ (b : Backends) where
  -- The arms of `decompress`.
  unfoldable pub inflate : Codec → Bytes → ℕ → Result Bytes
  inflate Codec.none src expected = do
    refuse_if (ltb (length src) expected) (decompress_underflow (length src) expected)
    ok (take expected src)
  inflate Codec.gzip src expected = do
    out ← ok_or (b.gzip_decode src (min (expected + decompress_slack) (2 ^ 64 - 1))) io
    enough expected out
  inflate Codec.zstd src expected = do
    out ← ok_or (b.zstd_decode src (min (expected + decompress_slack) (2 ^ 64 - 1))) io
    enough expected out
  inflate _ src expected = if expected == 0 then ok [] else do
    out ←
        ok_or (b.lz4_decompress src (target_len (b.capacity src expected) (length src) expected))
          (compression_error "lz4 decompress failed")
    enough expected out

  -- `dst` is cleared first, so its new content is the result.
  unfoldable pub decompress : CompressionType → Bytes → ℕ → Result Bytes
  decompress kind src expected = do
    refuse_if (ltb (max_plausible_decompressed kind (length src)) expected)
        (corrupt_record 0 "decompressed size implausibly large for compressed input")
    inflate (codec kind) src expected

  -- The arms of `compress_at`.
  unfoldable pub deflate : Codec → ℕ → Bytes → Result Bytes
  deflate Codec.none level src = ok src
  deflate Codec.lz4 level src =
      ok_or (b.lz4_compress false src) (compression_error "lz4 compress failed")
  deflate Codec.lz4_hc level src =
      ok_or (b.lz4_compress true src) (compression_error "lz4 compress failed")
  deflate Codec.gzip level src = ok_or (b.gzip_encode src) io
  deflate Codec.zstd level src = ok_or (b.zstd_encode level src) io

  -- What `compress_at` appends to `dst`.
  unfoldable pub compress_at : CompressionType → ℕ → Bytes → Result Bytes
  compress_at kind level src = deflate (codec kind) level src

  -- `ZSTD_DEFAULT_LEVEL`
  unfoldable pub compress : CompressionType → Bytes → Result Bytes
  compress kind src = compress_at kind 3 src

-- What the code relies on of the libraries: a stream decodes to what was encoded when the limit
-- admits it, and LZ4 and gzip expand no further than the bound on plausible sizes. For zstd there is
-- no such promise.
pub record Lossless (b : Backends) : Type 0 where
  pub lz4 :
      (hc : Bool) (src out : Bytes) (limit : ℕ)
      → b.lz4_compress hc src ≡ some out
      → length src ≤ limit
      → b.lz4_decompress out limit ≡ some src
  pub gzip :
      (src out : Bytes) (limit : ℕ)
      → b.gzip_encode src ≡ some out
      → length src ≤ limit
      → b.gzip_decode out limit ≡ some src
  pub zstd :
      (level : ℕ) (src out : Bytes) (limit : ℕ)
      → b.zstd_encode level src ≡ some out
      → length src ≤ limit
      → b.zstd_decode out limit ≡ some src
  pub lz4_ratio :
      (hc : Bool) (src out : Bytes)
      → b.lz4_compress hc src ≡ some out
      → length src ≤ length out * 1056 + 65536
  pub gzip_ratio :
      (src out : Bytes) → b.gzip_encode src ≡ some out → length src ≤ length out * 1056 + 65536

-- Whether the bound on plausible sizes admits a payload that is compressed: zstd may make its stream
-- so short that it does not.
abbrev pub IsPlausible : Backends → Codec → ℕ → Bytes → Type 0
IsPlausible b Codec.zstd level src =
    (out : Bytes) → b.zstd_encode level src ≡ some out → length src ≤ length out * 1056 + 65536
IsPlausible b _ level src = Unit {0}
