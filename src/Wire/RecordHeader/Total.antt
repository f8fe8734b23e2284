-- ===== src/Wire/RecordHeader/Total.antt =====
-- `RecordHeader::parse` on arbitrary bytes.
use oxihipo.Prelude.{
  ℕ, ◌+◌, ◌*◌, ◌/◌, ◌^◌, ◌≤◌, ◌<◌, ◌≡◌, ◌≢◌, false, sym, ◌⊎◌, All, ◌∙◌, arith, length, Bytes, some,
  ok, err, panic, ltb, Option-cases, Bool-cases, inl, inr, HipoError, file_too_small, bad_magic,
}
use oxihipo.Prelude.Bits.{bit_and_mask}
use oxihipo.Wire.Bytes.{IsByte, header_magic, Endianness, from_magic, read_le}
use oxihipo.Wire.Bytes.Laws.{read_le_total}
use oxihipo.Wire.Fields.{read_word, read_word_total, read_word-lt}
use oxihipo.Wire.RecordHeader.{RecordHeader, from_words, parse, payload_bytes, is_big}

from_words-ne-panic :
    (e : Endianness) (a b c d i j k l m n o : ℕ) → from_words e a b c d i j k l m n o ≢ panic
unfolding from_words
from_words-ne-panic e a b c d i j k l m n o = ground arith

-- What `parse` guarantees of a header that it accepts.
pub record IsParsed (h : RecordHeader) : Type 0 where
  pub header_in_record : h.header_length ≤ h.record_length
  pub record_fits : h.record_length < 2 ^ 34
  pub record_words : h.record_length ≡ h.record_length / 4 * 4
  pub compressed_fits : h.compressed_data_length < 2 ^ 30
  header_padding_fits : h.user_header_padding < 4
  pub data_padding_fits : h.data_padding < 4
  compressed_padding_fits : h.compressed_data_padding < 4
  pub payload : payload_bytes h + h.header_length ≡ h.record_length

from_words-IsParsed :
    (e : Endianness) (a b c d i j k l m n o : ℕ) (h : RecordHeader)
    → a < 2 ^ 32
    → from_words e a b c d i j k l m n o ≡ ok h
    → IsParsed h
unfolding from_words
from_words-IsParsed e a b c d i j k l m n o h lt p = ground (
  arith,
  bit_and_mask 28 m,
  bit_and_mask 2 (j / 2 ^ 20),
  bit_and_mask 2 (j / 2 ^ 22),
  bit_and_mask 2 (j / 2 ^ 24),
)

pub ltb_56 : {n : ℕ} → 56 ≤ n → ltb n 56 ≡ false
ltb_56 h = ground arith

-- `parse` refuses a short buffer or a bad magic word, or interprets words that it could read.
record Reads (buf : Bytes) : Type 0 where
  order : Endianness
  record_length_words : ℕ
  first : read_word (is_big order) 4 buf 0 ≡ ok record_length_words
  b : ℕ
  c : ℕ
  d : ℕ
  i : ℕ
  j : ℕ
  k : ℕ
  l : ℕ
  m : ℕ
  n : ℕ
  o : ℕ
  result : parse buf ≡ from_words order record_length_words b c d i j k l m n o

parse-Reads :
    (buf : Bytes) (e : Endianness) (magic : ℕ)
    → 56 ≤ length buf
    → read_le 4 buf 28 ≡ ok magic
    → from_magic magic ≡ some e
    → Reads buf
unfolding parse
parse-Reads buf e magic h r f =
    let at =
      λ (n off : ℕ) (le : off + n ≤ 56). read_word_total (is_big e) n buf off (omega arith) in
    record {
      order = e;
      record_length_words = (at 4 0 (omega arith)).0;
      first = (at 4 0 (omega arith)).1;
      b = (at 4 4 (omega arith)).0;
      c = (at 4 8 (omega arith)).0;
      d = (at 4 12 (omega arith)).0;
      i = (at 4 16 (omega arith)).0;
      j = (at 4 20 (omega arith)).0;
      k = (at 4 24 (omega arith)).0;
      l = (at 4 32 (omega arith)).0;
      m = (at 4 36 (omega arith)).0;
      n = (at 8 40 (omega arith)).0;
      o = (at 8 48 (omega arith)).0;
      result = rw (
        ltb_56 h,
        r,
        f,
        (at 4 0 (omega arith)).1,
        (at 4 4 (omega arith)).1,
        (at 4 8 (omega arith)).1,
        (at 4 12 (omega arith)).1,
        (at 4 16 (omega arith)).1,
        (at 4 20 (omega arith)).1,
        (at 4 24 (omega arith)).1,
        (at 4 32 (omega arith)).1,
        (at 4 36 (omega arith)).1,
        (at 8 40 (omega arith)).1,
        (at 8 48 (omega arith)).1,
      );
    }

parse-cases :
    (buf : Bytes) → ((e : HipoError) × (parse buf ≡ err e)) ⊎ (Reads buf × (56 ≤ length buf))
parse-cases buf = elim (Bool-cases (ltb (length buf) 56)) [
  | inl short ↦ inl (file_too_small (length buf) 56, unfold parse in rw short)
  | inr long ↦
      let (magic, r) = read_le_total 4 buf 28 (ground arith) in
      elim (Option-cases (from_magic magic)) [
        | inl bad ↦ inl (bad_magic 28 magic header_magic, unfold parse in rw (long, r, bad))
        | inr (e, f) ↦ inr (parse-Reads buf e magic (ground arith) r f, ground arith)
      ]
]

-- `parse` returns or refuses on every input; no read is out of range.
pub parse-ne-panic_record : (buf : Bytes) → parse buf ≢ panic
parse-ne-panic_record buf p = elim (parse-cases buf) [
  | inl (e, q) ↦ cc
  | inr (r, _) ↦
      from_words-ne-panic r.order r.record_length_words r.b r.c r.d r.i r.j r.k r.l r.m r.n r.o
        (sym r.result ∙ p)
]

-- On bytes, an accepted header has `header_length <= record_length`, so `payload_bytes` does not
-- wrap, and the two add up to `record_length`, which is a whole number of words below 2^34; the
-- compressed length is below 2^30, each padding below 4, and at least 56 bytes were there.
pub parse-IsParsed_record :
    (buf : Bytes) (h : RecordHeader)
    → All IsByte buf
    → parse buf ≡ ok h
    → IsParsed h × (56 ≤ length buf)
parse-IsParsed_record buf h bytes p = elim (parse-cases buf) [
  | inl (e, q) ↦ cc
  | inr (r, long) ↦ (
    from_words-IsParsed r.order r.record_length_words r.b r.c r.d r.i r.j r.k r.l r.m r.n r.o h
        (read_word-lt (is_big r.order) 4 buf 0 r.record_length_words bytes (omega arith) r.first)
        (sym r.result ∙ p),
    long,
  )
]
