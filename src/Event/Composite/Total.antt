-- ===== src/Event/Composite/Total.antt =====
-- Where the accessors of a composite bank return, and where they abort.
use mathlib.Core.Path.{subst}
use oxihipo.Prelude.{
  ℕ, ◌+◌, ◌-◌, ◌*◌, ◌≤◌, ◌<◌, ◌≡◌, ◌≢◌, ◌⊎◌, inl, inr, refl, sym, ap, ◌∙◌, arith, Bool, true, false,
  not, ◌||◌, List, [], ◌∷◌, Option, none, some, ltb, leb, length, get_elem?, take, drop, Bytes,
  Result, ok, panic, >>=-ne-panic, ok-ne-panic, err-ne-panic, refuse_if-ne-panic, refuse_if-ok,
  ◌>>=◌, ◌>>◌, refuse_if, corrupt_record, schema_parse, HipoError, Bool-cases, Option-cases, leb→le,
  le→ltb_false, some-injective,
}
use oxihipo.Schema.Types.{DataType, byte, short, int, float, double, long, type_size}
use oxihipo.Wire.Bytes.{slice, read_le}
use oxihipo.Wire.Bytes.Laws.{read_le_total, slice_total, slice_panics}
use oxihipo.Event.Composite.{
  Composite, CompositeField, CompositeFormat, parse, with_fields, parse_fields, trim_end, is_utf8,
  from_parts, from_sizes, offset, offset_of, i8, i16, i32, i64, read_i8_as, read_i16_as,
  read_i32_as, read_i64_as, widen,
}

-- What an offset is good for: the element of the field's type lies in the data.
offset_of-fits :
    (c : Composite) (f : Option CompositeField) (row : ℕ) (t : DataType) (off : ℕ)
    → offset_of c f row ≡ some (t, off)
    → off + type_size t ≤ length c.data_bytes
offset_of-fits c none row t off h = cc
offset_of-fits c (some f) row t off h = elim (Bool-cases (leb c.rows row)) [
  | inl out ↦ absurd (clash (sym (rw out refl) ∙ h))
  | inr inside ↦ elim (Bool-cases (leb (at + type_size f.ty) (length c.data_bytes))) [
    | inr beyond ↦ absurd (clash (sym (rw (inside, beyond) refl) ∙ h))
    | inl fits ↦
        let same : some (f.ty, at) ≡ some (t, off) = sym (rw (inside, fits) refl) ∙ h in
        subst (λ (p : DataType × ℕ). p.1 + type_size p.0 ≤ length c.data_bytes)
          (some-injective same) (leb→le (at + type_size f.ty) (length c.data_bytes) fits)
  ]
]
  where
    at : ℕ
    at = row * c.format.row_size + f.row_offset

    clash : ◌≢◌ {A = Option (DataType × ℕ)} none (some (t, off))
    clash p = cc

read_le-short : (n : ℕ) (buf : Bytes) (off : ℕ) → length buf < off + n → read_le n buf off ≡ panic
unfolding read_le
read_le-short n buf off h = rw (slice_panics buf off (off + n) h) refl

read-ne-panic : (n : ℕ) (buf : Bytes) (off : ℕ) → off + n ≤ length buf → read_le n buf off ≢ panic
read-ne-panic n buf off h e = let (v, r) = read_le_total n buf off h in ok-ne-panic v (sym r ∙ e)

widened-ne-panic :
    (n w v : ℕ) (buf : Bytes) (off : ℕ)
    → off + n ≤ length buf
    → (read_le n buf off >>= λ x. ok (widen w v x)) ≢ panic
widened-ne-panic n w v buf off h =
    >>=-ne-panic (read_le n buf off) (λ x. ok (widen w v x)) (read-ne-panic n buf off h)
      (λ x e. ok-ne-panic (widen w v x))

-- What a getter is given: no offset, or one where the element of the field's type fits.
offset-cases :
    (c : Composite) (field row : ℕ)
    → (offset c field row ≡ none)
      ⊎ ((t : DataType) × (off : ℕ) × (offset c field row ≡ some (t, off))
          × (off + type_size t ≤ length c.data_bytes))
unfolding offset
offset-cases c field row = elim (Option-cases (offset_of c (get_elem? c.format.fields field) row)) [
  | inl gone ↦ inl gone
  | inr (p, e) ↦ inr (p.0, p.1, e, offset_of-fits c (get_elem? c.format.fields field) row p.0 p.1 e)
]

read_i32_as-ne-panic :
    (c : Composite) (t : DataType) (off : ℕ)
    → off + type_size t ≤ length c.data_bytes
    → read_i32_as c (some (t, off)) ≢ panic
unfolding type_size
read_i32_as-ne-panic c byte off h = widened-ne-panic 1 8 32 c.data_bytes off h
read_i32_as-ne-panic c short off h = widened-ne-panic 2 16 32 c.data_bytes off h
read_i32_as-ne-panic c int off h = read-ne-panic 4 c.data_bytes off h
read_i32_as-ne-panic c float off h = ok-ne-panic 0
read_i32_as-ne-panic c double off h = ok-ne-panic 0
read_i32_as-ne-panic c long off h = ok-ne-panic 0

read_i64_as-ne-panic :
    (c : Composite) (t : DataType) (off : ℕ)
    → off + type_size t ≤ length c.data_bytes
    → read_i64_as c (some (t, off)) ≢ panic
unfolding type_size
read_i64_as-ne-panic c byte off h = widened-ne-panic 1 8 64 c.data_bytes off h
read_i64_as-ne-panic c short off h = widened-ne-panic 2 16 64 c.data_bytes off h
read_i64_as-ne-panic c int off h = widened-ne-panic 4 32 64 c.data_bytes off h
read_i64_as-ne-panic c float off h = ok-ne-panic 0
read_i64_as-ne-panic c double off h = ok-ne-panic 0
read_i64_as-ne-panic c long off h = read-ne-panic 8 c.data_bytes off h

type_size-pos : (t : DataType) → 1 ≤ type_size t
unfolding type_size
type_size-pos byte = omega arith
type_size-pos short = omega arith
type_size-pos int = omega arith
type_size-pos float = omega arith
type_size-pos double = omega arith
type_size-pos long = omega arith

-- `i8`, `i32` and `i64` return on every composite, field and row: what they read was checked to be
-- there.
pub getters-ne-panic :
    (c : Composite) (field row : ℕ)
    → (i8 c field row ≢ panic) × (i32 c field row ≢ panic) × (i64 c field row ≢ panic)
unfolding i8 i32 i64
getters-ne-panic c field row = elim (offset-cases c field row) [
  | inl gone ↦ (
    subst (λ o. read_i8_as c o ≢ panic) (sym gone) (ok-ne-panic 0),
    subst (λ o. read_i32_as c o ≢ panic) (sym gone) (ok-ne-panic 0),
    subst (λ o. read_i64_as c o ≢ panic) (sym gone) (ok-ne-panic 0),
  )
  | inr (t, off, e, fits) ↦ (
    subst (λ o. read_i8_as c o ≢ panic) (sym e)
        (read-ne-panic 1 c.data_bytes off (omega (arith, type_size-pos t))),
    subst (λ o. read_i32_as c o ≢ panic) (sym e) (read_i32_as-ne-panic c t off fits),
    subst (λ o. read_i64_as c o ≢ panic) (sym e) (read_i64_as-ne-panic c t off fits),
  )
]

-- `i16` reads two bytes although only the field's own width was checked: on a field of one byte at
-- the very end of the data it aborts.
pub i16_aborts :
    (c : Composite) (field row off : ℕ)
    → offset c field row ≡ some (byte, off)
    → off + 1 ≡ length c.data_bytes
    → i16 c field row ≡ panic
unfolding i16
i16_aborts c field row off here last =
    ap (read_i16_as c) here ∙ read_le-short 2 c.data_bytes off (omega arith)

slice_backwards : (buf : Bytes) (lo hi : ℕ) → hi < lo → slice buf lo hi ≡ panic
unfolding slice
slice_backwards buf lo hi h = ground arith

slice-ne-panic : (buf : Bytes) (lo hi : ℕ) → lo ≤ hi → hi ≤ length buf → slice buf lo hi ≢ panic
slice-ne-panic buf lo hi p q e =
    ok-ne-panic (take (hi - lo) (drop lo buf)) (sym (slice_total buf lo hi p q) ∙ e)

pub parse-ne-panic_format : (s : Bytes) → parse s ≢ panic
unfolding parse
parse-ne-panic_format s = from (parse_fields 0 s)
  where
    from : (r : List CompositeField × ℕ) → with_fields r ≢ panic
    from ([], o) = err-ne-panic (schema_parse "composite format has no fields")
    from (f ∷ fs, o) = ok-ne-panic (record { fields = f ∷ fs; row_size = o })

from_parts-ne-panic : (format : CompositeFormat) (bytes : Bytes) → from_parts format bytes ≢ panic
unfolding from_parts
from_parts-ne-panic format bytes = ground arith

-- A composite bank whose declared size covers its format string is decoded or refused, never with an
-- abort, whatever the bytes and however short the buffer.
pub from_sizes-ne-panic :
    (bytes : Bytes) (data_size format_size : ℕ)
    → format_size ≤ data_size
    → from_sizes bytes data_size format_size ≢ panic
unfolding from_sizes
from_sizes-ne-panic bytes data_size format_size covers =
    >>=-ne-panic (refuse_if short truncated) (λ _. checked) (refuse_if-ne-panic short truncated)
      (λ _ passed.
        let fits = room (refuse_if-ok short truncated passed) in
        >>=-ne-panic (slice bytes 8 (8 + format_size)) with_format
          (slice-ne-panic bytes 8 (8 + format_size) (omega arith) (omega (arith, fits)))
          (λ s _. with_format-ne-panic covers (omega (arith, fits)) s))
  where
    truncated : HipoError
    truncated = corrupt_record 0 "composite structure truncated"

    short : Bool
    short = ltb (length bytes) (8 + format_size) || ltb (length bytes) (8 + data_size)

    with_format : Bytes → Result Composite
    with_format s = do
      refuse_if (not (is_utf8 s)) (schema_parse "composite format is not valid UTF-8")
      format ← parse (trim_end s)
      payload ← slice bytes (8 + format_size) (8 + data_size)
      from_parts format payload

    checked : Result Composite
    checked = do s ← slice bytes 8 (8 + format_size); with_format s

    room : short ≡ false → (8 + format_size ≤ length bytes) × (8 + data_size ≤ length bytes)
    room h = (ground (arith, h), ground (arith, h))

    with_format-ne-panic :
        format_size ≤ data_size → 8 + data_size ≤ length bytes → (s : Bytes) → with_format s ≢ panic
    with_format-ne-panic covers fits s =
        >>=-ne-panic
          (refuse_if (not (is_utf8 s)) (schema_parse "composite format is not valid UTF-8")) _
          (refuse_if-ne-panic _ _)
          (λ _ _.
            >>=-ne-panic (parse (trim_end s)) _ (parse-ne-panic_format (trim_end s)) (λ format _.
              >>=-ne-panic (slice bytes (8 + format_size) (8 + data_size)) _
                (slice-ne-panic bytes _ _ (omega arith) fits)
                (λ payload _. from_parts-ne-panic format payload)))

    shorter : 8 + format_size - 8 ≡ format_size
    shorter = omega arith

-- The decoding aborts on a bank whose declared size is smaller than the format string that it holds,
-- where both fit the buffer and the format is good UTF-8 that parses.
pub from_sizes_aborts :
    (bytes : Bytes) (data_size format_size : ℕ) (format : CompositeFormat)
    → 8 + format_size ≤ length bytes
    → data_size < format_size
    → is_utf8 (take format_size (drop 8 bytes)) ≡ true
    → parse (trim_end (take format_size (drop 8 bytes))) ≡ ok format
    → from_sizes bytes data_size format_size ≡ panic
unfolding from_sizes
from_sizes_aborts bytes data_size format_size format fits smaller utf8 parsed =
    let shorter : 8 + format_size - 8 ≡ format_size = omega arith in
    rw
      (
        le→ltb_false (length bytes) (8 + format_size) fits,
        le→ltb_false (length bytes) (8 + data_size) (omega arith),
        slice_total bytes 8 (8 + format_size) (omega arith) fits,
        shorter,
        utf8,
        parsed,
        slice_backwards bytes (8 + format_size) (8 + data_size) (omega arith),
      )
      refl
