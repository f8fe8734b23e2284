-- ===== src/Record/Codec/Total.antt =====
-- Decompression ends with a payload or an error.
use oxihipo.Prelude.{
  ℕ, ◌+◌, inl, inr, [], Option, none, some, ltb, ◌==◌, ◌≢◌, length, take, Bytes, panic, ◌>>=◌,
  refuse_if, ok_or, HipoError, Bool-cases, >>=-ne-panic, ok-ne-panic, refuse_if-ne-panic,
}
use oxihipo.Wire.Constants.Tags.{Codec, CompressionType, codec}
use oxihipo.Record.Codec.{deflate, compress_at, compress, Backends, enough, inflate, decompress}

ok_or-ne-panic : (o : Option Bytes) (e : HipoError) → ok_or o e ≢ panic
ok_or-ne-panic none problem e = cc
ok_or-ne-panic (some a) problem e = cc

enough-ne-panic : (n : ℕ) (out : Bytes) → enough n out ≢ panic
enough-ne-panic n out =
    >>=-ne-panic (refuse_if (ltb (length out + 65536) n) _) _ (refuse_if-ne-panic _ _)
      (λ u _. ok-ne-panic out)

checked-ne-panic : (o : Option Bytes) (e : HipoError) (n : ℕ) → (ok_or o e >>= enough n) ≢ panic
checked-ne-panic o e n =
    >>=-ne-panic (ok_or o e) (enough n) (ok_or-ne-panic o e) (λ out _. enough-ne-panic n out)

module _ (b : Backends) where
  inflate-ne-panic : (k : Codec) (src : Bytes) (n : ℕ) → inflate b k src n ≢ panic
  unfolding inflate
  inflate-ne-panic Codec.none src n =
      >>=-ne-panic (refuse_if (ltb (length src) n) _) _ (refuse_if-ne-panic _ _)
        (λ u _. ok-ne-panic (take n src))
  inflate-ne-panic Codec.gzip src n = checked-ne-panic _ _ n
  inflate-ne-panic Codec.zstd src n = checked-ne-panic _ _ n
  inflate-ne-panic Codec.lz4 src n = elim (Bool-cases (n == 0)) [
    | inl h ↦ rw h (ok-ne-panic [])
    | inr h ↦ rw h (checked-ne-panic _ _ n)
  ]
  inflate-ne-panic Codec.lz4_hc src n = elim (Bool-cases (n == 0)) [
    | inl h ↦ rw h (ok-ne-panic [])
    | inr h ↦ rw h (checked-ne-panic _ _ n)
  ]

  pub decompress-ne-panic :
      (kind : CompressionType) (src : Bytes) (n : ℕ) → decompress b kind src n ≢ panic
  unfolding decompress
  decompress-ne-panic kind src n =
      >>=-ne-panic (refuse_if _ _) _ (refuse_if-ne-panic _ _)
        (λ u _. inflate-ne-panic (codec kind) src n)

  deflate-ne-panic : (k : Codec) (level : ℕ) (src : Bytes) → deflate b k level src ≢ panic
  unfolding deflate
  deflate-ne-panic Codec.none level src = ok-ne-panic src
  deflate-ne-panic Codec.lz4 level src = ok_or-ne-panic _ _
  deflate-ne-panic Codec.lz4_hc level src = ok_or-ne-panic _ _
  deflate-ne-panic Codec.gzip level src = ok_or-ne-panic _ _
  deflate-ne-panic Codec.zstd level src = ok_or-ne-panic _ _

  pub compress-ne-panic : (kind : CompressionType) (src : Bytes) → compress b kind src ≢ panic
  unfolding compress compress_at
  compress-ne-panic kind src = deflate-ne-panic (codec kind) 3 src
