-- ===== src/Record/Codec/RoundTrip.antt =====
-- Decompression undoes compression, whatever follows the stream in an uncompressed record.
use oxihipo.Prelude.{
  ℕ, ◌+◌, ◌-◌, ◌*◌, ◌^◌, ◌≤◌, ◌<◌, ◌≡◌, min, refl, sym, ap, ◌∙◌, arith, Bool, true, false, [], ◌∷◌,
  ◌++◌, Option, none, some, ◌==◌, length, take, Bytes, ok, ok_or, HipoError, le→ltb_false,
  take-append-length, length-append, ok-injective,
}
use oxihipo.Wire.Constants.Tags.{Codec, CompressionType, codec}
use oxihipo.Record.Codec.{
  Backends, Lossless, IsPlausible, target_len, max_plausible_decompressed, enough, inflate,
  decompress, deflate, compress_at,
}

ok_or-ok : (o : Option Bytes) (e : HipoError) {out : Bytes} → ok_or o e ≡ ok out → o ≡ some out
ok_or-ok none problem h = cc
ok_or-ok (some x) problem h = ap some (ok-injective h)

enough-ok : (src : Bytes) → enough (length src) src ≡ ok src
enough-ok src = rw (le→ltb_false (length src + 65536) (length src) (omega arith)) refl

-- The LZ4 decoder has room for the payload, whatever the capacity was.
target_len-fits :
    (capacity comp_len expected : ℕ)
    → expected < 2 ^ 62
    → expected ≤ target_len capacity comp_len expected
unfolding target_len
target_len-fits capacity comp_len expected h = ground arith

module _ (b : Backends) (l : Lossless b) where
  -- The padding that follows an uncompressed payload.
  abbrev pub Padded : Codec → Bytes → Bytes → Bytes → Type 0
  Padded Codec.none out pad input = input ≡ out ++ pad
  Padded _ out pad input = input ≡ out

  lz4_back :
      (hc : Bool) (src out input : Bytes)
      → length src < 2 ^ 62
      → b.lz4_compress hc src ≡ some out
      → input ≡ out
      → inflate b Codec.lz4 input (length src) ≡ ok src
  unfolding inflate
  lz4_back hc [] out input h made p = refl
  lz4_back hc (c ∷ cs) out input h made p =
      let src : Bytes = c ∷ cs in
      let limit : ℕ = target_len (b.capacity input (length src)) (length input) (length src) in
      let back : b.lz4_decompress input limit ≡ some src =
        ap (λ x. b.lz4_decompress x limit) p
        ∙ l.lz4 hc src out limit made
            (target_len-fits (b.capacity input (length src)) (length input) (length src) h) in
      let busy : (length src == 0) ≡ false = ground arith in rw (busy, back) (enough-ok src)

  inflate-deflate :
      (k : Codec) (level : ℕ) (src out pad input : Bytes)
      → length src < 2 ^ 62
      → deflate b k level src ≡ ok out
      → Padded k out pad input
      → inflate b k input (length src) ≡ ok src
  unfolding inflate deflate
  inflate-deflate Codec.none level src out pad input h e p =
      let same : input ≡ src ++ pad = p ∙ ap (λ x. x ++ pad) (sym (ok-injective e)) in
      let long : length src ≤ length input = omega (arith, ap length same, length-append src pad) in
      rw (le→ltb_false (length input) (length src) long)
        (ap (λ x. ok (take (length src) x)) same ∙ ap ok (take-append-length src pad))
  inflate-deflate Codec.gzip level src out pad input h e p =
      let made : b.gzip_encode src ≡ some out = ok_or-ok (b.gzip_encode src) _ e in
      rw (p, l.gzip src out (min (length src + 65536) (2 ^ 64 - 1)) made (omega arith))
        (enough-ok src)
  inflate-deflate Codec.zstd level src out pad input h e p =
      let made : b.zstd_encode level src ≡ some out = ok_or-ok (b.zstd_encode level src) _ e in
      rw (p, l.zstd level src out (min (length src + 65536) (2 ^ 64 - 1)) made (omega arith))
        (enough-ok src)
  inflate-deflate Codec.lz4 level src out pad input h e p =
      lz4_back false src out input h (ok_or-ok (b.lz4_compress false src) _ e) p
  inflate-deflate Codec.lz4_hc level src out pad input h e p =
      lz4_back true src out input h (ok_or-ok (b.lz4_compress true src) _ e) p

  -- The bound on plausible sizes admits what was compressed.
  plausible :
      (kind : CompressionType) (level : ℕ) (src out pad input : Bytes)
      → length src < 2 ^ 62
      → deflate b (codec kind) level src ≡ ok out
      → Padded (codec kind) out pad input
      → IsPlausible b (codec kind) level src
      → length src ≤ max_plausible_decompressed kind (length input)
  unfolding deflate max_plausible_decompressed
  plausible kind level src out pad input h e p q = from (codec kind) e p q
    where
      same :
          input ≡ out
          → length src ≤ length out * 1056 + 65536
          → length src ≤ min (min (length input * 1056) (2 ^ 64 - 1) + 65536) (2 ^ 64 - 1)
      same q r = omega (arith, ap length q)

      from :
          (k : Codec)
          → deflate b k level src ≡ ok out
          → Padded k out pad input
          → IsPlausible b k level src
          → length src ≤ (elim k [
            | Codec.none ↦ length input
            | _ ↦ min (min (length input * 1056) (2 ^ 64 - 1) + 65536) (2 ^ 64 - 1)
          ])
      from Codec.none e p q =
          omega (arith, ap length p, length-append out pad, ap length (ok-injective e))
      from Codec.gzip e p q = same p (l.gzip_ratio src out (ok_or-ok (b.gzip_encode src) _ e))
      from Codec.zstd e p q = same p (q out (ok_or-ok (b.zstd_encode level src) _ e))
      from Codec.lz4 e p q =
          same p (l.lz4_ratio false src out (ok_or-ok (b.lz4_compress false src) _ e))
      from Codec.lz4_hc e p q =
          same p (l.lz4_ratio true src out (ok_or-ok (b.lz4_compress true src) _ e))

  pub decompress-compress_at :
      (kind : CompressionType) (level : ℕ) (src out pad input : Bytes)
      → length src < 2 ^ 62
      → compress_at b kind level src ≡ ok out
      → Padded (codec kind) out pad input
      → IsPlausible b (codec kind) level src
      → decompress b kind input (length src) ≡ ok src
  unfolding decompress compress_at
  decompress-compress_at kind level src out pad input h e p q =
      rw
        (le→ltb_false (max_plausible_decompressed kind (length input)) (length src)
          (plausible kind level src out pad input h e p q))
        (inflate-deflate (codec kind) level src out pad input h e p)
