-- ===== src/Record/Builder/Build.antt =====
-- The parts of a record that the builder puts together.
use mathlib.Core.List.{append_assoc}
use oxihipo.Prelude.{
  ℕ, zero, suc, ◌+◌, ◌*◌, ◌%◌, ◌^◌, ◌<◌, ◌≡◌, refl, sym, ap, arith, List, [], ◌∷◌, ◌++◌, length,
  replicate, Bytes, ok, length-append,
}
use oxihipo.Wire.Bytes.{le_bytes}
use oxihipo.Wire.Bytes.Laws.{write_le-append, length-le_bytes}
use oxihipo.Wire.RecordHeader.{pad_bits}
use oxihipo.Wire.RecordHeader.RoundTrip.{IsWellFormed}
use oxihipo.Event.BankBuilder.{concat}
use oxihipo.Record.Builder.{
  Compression, write_index, total_data, build_payload, block_bit_info, block_header, block_pad,
}
use oxihipo.Record.Builder.Slices.{length-concat}

-- The index array of the events.
abbrev pub index_of : List Bytes → Bytes
index_of [] = []
index_of (ev ∷ evs) = le_bytes 4 (length ev % 2 ^ 32) ++ index_of evs

pub length-index_of : (evs : List Bytes) → length (index_of evs) ≡ length evs * 4
length-index_of [] = refl
length-index_of (ev ∷ evs) = omega (
  arith,
  length-append (le_bytes 4 (length ev % 2 ^ 32)) (index_of evs),
  length-le_bytes 4 (length ev % 2 ^ 32),
  length-index_of evs,
)

four_more : (n : ℕ) → replicate {A = ℕ} (suc n * 4) 0 ≡ replicate 4 0 ++ replicate (n * 4) 0
four_more n = ap (λ k. replicate {A = ℕ} k 0) {y = suc (suc (suc (suc (n * 4))))} (omega arith)

write_index-replicate :
    (pre : Bytes) (evs : List Bytes) (i : ℕ)
    → i * 4 ≡ length pre
    → write_index evs i (pre ++ replicate (length evs * 4) 0) ≡ ok (pre ++ index_of evs)
unfolding write_index
write_index-replicate pre [] i h = refl
write_index-replicate pre (ev ∷ evs) i h =
    let word : Bytes = le_bytes 4 (length ev % 2 ^ 32) in
    rw
      (
        four_more (length evs),
        write_le-append 4 pre (replicate 4 0) (replicate (length evs * 4) 0) (i * 4)
            (length ev % 2 ^ 32) h refl,
        sym (append_assoc pre word (replicate (length evs * 4) 0)),
        write_index-replicate (pre ++ word) evs (suc i)
            (omega (arith, h, length-append pre word, length-le_bytes 4 (length ev % 2 ^ 32))),
      )
      (ap ok (append_assoc pre word (index_of evs)))

pub build_payload-index :
    (evs : List Bytes) → length evs < 2 ^ 30 → build_payload evs ≡ ok (index_of evs ++ concat evs)
unfolding build_payload
build_payload-index evs h =
    let size : length evs % 2 ^ 32 * 4 % 2 ^ 32 ≡ length evs * 4 = omega arith in
    rw (size, write_index-replicate [] evs 0 refl) refl

pub length-payload :
    (evs : List Bytes) → length (index_of evs ++ concat evs) ≡ length evs * 4 + total_data evs
length-payload evs =
    omega (arith, length-append (index_of evs) (concat evs), length-index_of evs, length-concat evs)

block_pad-lt : (n : ℕ) → block_pad n < 4
block_pad-lt n = omega arith

-- The bits of a pad.
record PadBits (pad : ℕ) : Type 0 where
  low : block_bit_info pad < 2 ^ 32
  user_bits : pad_bits (block_bit_info pad) 20 ≡ 0
  data_bits : pad_bits (block_bit_info pad) 22 ≡ 0
  pad_stays : pad_bits (block_bit_info pad) 24 ≡ pad

pads : (pad : ℕ) → pad < 4 → PadBits pad
unfolding block_bit_info
pads zero h = record { low = omega arith; user_bits = refl; data_bits = refl; pad_stays = refl }
pads (suc zero) h = record {
  low = omega arith;
  user_bits = refl;
  data_bits = refl;
  pad_stays = refl;
}
pads (suc (suc zero)) h = record {
  low = omega arith;
  user_bits = refl;
  data_bits = refl;
  pad_stays = refl;
}
pads (suc (suc (suc zero))) h = record {
  low = omega arith;
  user_bits = refl;
  data_bits = refl;
  pad_stays = refl;
}
pads (suc (suc (suc (suc n)))) h = absurd (omega arith)

pub block_header-IsWellFormed :
    (evs : List Bytes) (u1 u2 : ℕ) (c : Compression) (number len : ℕ)
    → u1 < 2 ^ 64
    → u2 < 2 ^ 64
    → number < 2 ^ 32
    → len + block_pad len < 2 ^ 30
    → IsWellFormed (block_header evs u1 u2 c number (block_pad len) (len + block_pad len))
unfolding block_header
block_header-IsWellFormed evs u1 u2 c number len h1 h2 hn hl =
    let p = pads (block_pad len) (block_pad-lt len) in
    record {
      record_words = omega arith;
      record_fits = omega arith;
      header_words = refl;
      header_fits = omega arith;
      header_in_record = omega arith;
      compressed_words = omega arith;
      compressed_fits = omega arith;
      record_number = hn;
      event_count = omega arith;
      index_array_length = omega arith;
      bit_info = p.low;
      user_header_length = omega arith;
      data_length = omega arith;
      user_word_1 = h1;
      user_word_2 = h2;
      user_header_padding = sym p.user_bits;
      data_padding = sym p.data_bits;
      compressed_data_padding = sym p.pad_stays;
    }
