-- ===== src/Wire/FileHeader/Total.antt =====
-- `FileHeader::parse` on arbitrary bytes.
use oxihipo.Prelude.{
  ℕ, ◌+◌, ◌≤◌, ◌≡◌, ◌≢◌, some, true, refl, sym, ◌⊎◌, inl, inr, ◌∙◌, arith, length, Bytes, ok, err,
  panic, ltb, ◌==◌, Option-cases, Bool-cases, HipoError, file_too_small, bad_magic,
}
use oxihipo.Wire.Bytes.{header_magic, Endianness, from_magic, read_le}
use oxihipo.Wire.Bytes.Laws.{read_le_total}
use oxihipo.Wire.FileHeader.{FileHeader, parse, check_version, version}
use oxihipo.Wire.Constants.Words.{hipo_file_unique_word}
use oxihipo.Wire.Fields.{read_word_total}
use oxihipo.Wire.RecordHeader.{is_big, saturating_mul}
use oxihipo.Wire.RecordHeader.Total.{ltb_56}

-- With both magic words right, only the check of the version is left.
parse_checks :
    (buf : Bytes) (e : Endianness) (unique magic : ℕ)
    → 56 ≤ length buf
    → read_le 4 buf 0 ≡ ok unique
    → (unique == hipo_file_unique_word) ≡ true
    → read_le 4 buf 28 ≡ ok magic
    → from_magic magic ≡ some e
    → (h : FileHeader) × (parse buf ≡ check_version h) × (h.endianness ≡ e)
unfolding parse
parse_checks buf e unique magic h u ue r f =
    let at =
      λ (n off : ℕ) (le : off + n ≤ 56). read_word_total (is_big e) n buf off (omega arith) in
    let header : FileHeader = record {
      file_number = (at 4 4 (omega arith)).0;
      header_length = saturating_mul (at 4 8 (omega arith)).0 4;
      record_count = (at 4 12 (omega arith)).0;
      index_array_length = (at 4 16 (omega arith)).0;
      bit_info = (at 4 20 (omega arith)).0;
      user_header_length = (at 4 24 (omega arith)).0;
      user_register = (at 8 32 (omega arith)).0;
      trailer_position = (at 8 40 (omega arith)).0;
      user_int1 = (at 4 48 (omega arith)).0;
      user_int2 = (at 4 52 (omega arith)).0;
      endianness = e;
    } in
    (
      header,
      rw (
        ltb_56 h,
        u,
        ue,
        r,
        f,
        (at 4 4 (omega arith)).1,
        (at 4 8 (omega arith)).1,
        (at 4 12 (omega arith)).1,
        (at 4 16 (omega arith)).1,
        (at 4 20 (omega arith)).1,
        (at 4 24 (omega arith)).1,
        (at 8 32 (omega arith)).1,
        (at 8 40 (omega arith)).1,
        (at 4 48 (omega arith)).1,
        (at 4 52 (omega arith)).1,
      ),
      refl,
    )

-- The versions that `parse` accepts.
pub record IsParsed (h : FileHeader) : Type 0 where
  pub version_lower : 1 ≤ version h
  pub version_upper : version h ≤ 6

check_version-ne-panic : (h : FileHeader) → check_version h ≢ panic
unfolding check_version
check_version-ne-panic h = ground arith

check_version-IsParsed : (h h' : FileHeader) → check_version h ≡ ok h' → IsParsed h'
unfolding check_version
check_version-IsParsed h h' e = ground arith

parse-cases :
    (buf : Bytes)
    → ((e : HipoError) × (parse buf ≡ err e))
      ⊎ ((56 ≤ length buf) × ((h : FileHeader) × (parse buf ≡ check_version h)))
parse-cases buf = elim (Bool-cases (ltb (length buf) 56)) [
  | inl short ↦ inl (file_too_small (length buf) 56, unfold parse in rw short)
  | inr long ↦
      let (unique, u) = read_le_total 4 buf 0 (ground arith) in
      let (magic, r) = read_le_total 4 buf 28 (ground arith) in
      elim (Bool-cases (unique == hipo_file_unique_word)) [
        | inr other ↦
            inl (bad_magic 0 unique hipo_file_unique_word, unfold parse in rw (long, u, other))
        | inl same ↦ elim (Option-cases (from_magic magic)) [
          | inl bad ↦
              inl (bad_magic 28 magic header_magic, unfold parse in rw (long, u, same, r, bad))
          | inr (e, f) ↦
              let (h, p, _) = parse_checks buf e unique magic (ground arith) u same r f in
              inr (ground arith, (h, p))
        ]
      ]
]

-- `parse` returns or refuses on every input; no read is out of range.
pub parse-ne-panic_file : (buf : Bytes) → parse buf ≢ panic
parse-ne-panic_file buf p = elim (parse-cases buf) [
  | inl (e, q) ↦ cc
  | inr (_, (h, q)) ↦ check_version-ne-panic h (sym q ∙ p)
]

-- An accepted header has a supported version, and 56 bytes were there.
pub parse-IsParsed_file :
    (buf : Bytes) (h : FileHeader) → parse buf ≡ ok h → IsParsed h × (56 ≤ length buf)
parse-IsParsed_file buf h p = elim (parse-cases buf) [
  | inl (e, q) ↦ cc
  | inr (long, (h', q)) ↦ (check_version-IsParsed h' h (sym q ∙ p), long)
]
