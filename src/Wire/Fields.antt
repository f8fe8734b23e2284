-- ===== src/Wire/Fields.antt =====
-- A header as the list of its words, shared by the two 56-byte headers: where each word stands,
-- in either byte order, and what the `r32`/`r64` closures of the parsers read there.
use mathlib.Core.List.{append_assoc, append-nil}
use mathlib.Core.Path.{ap₂, subst}
use oxihipo.Prelude.{
  ℕ, ◌+◌, ◌-◌, ◌^◌, ◌≤◌, ◌<◌, ◌≡◌, refl, sym, ap, ◌∙◌, ◌⊎◌, arith, Bool, true, false, List, [], ◌∷◌,
  ◌++◌, Option, none, some, ◌==◌, leb, if◌then◌else◌, length, All, length-append, Bytes, Result, ok,
  ◌>>=◌, >>=-eq-ok, ok-injective, drop, length-drop, take-append-drop, take, length-take, inl, inr,
}
use oxihipo.Wire.Bytes.{IsByte, le_value, le_bytes, be_bytes, swap_bytes, read_le, write_le}
use oxihipo.Wire.Bytes.Laws.{
  length-le_bytes, length-be_bytes, le_value-le_bytes, swap_bytes-be_bytes, read_le-append,
  read_le_total, read_le-lt, swap_bytes-lt, write_le-append,
}

-- A word of a header: its width in bytes and its value.
abbrev pub Field : Type 0
Field = ℕ × ℕ

abbrev pub Fits : Field → Type 0
Fits f = f.1 < 256 ^ f.0

-- The bytes of a word in the header's byte order.
abbrev pub order : Bool → ℕ → ℕ → Bytes
order true = be_bytes
order false = le_bytes

unfoldable pub fields_bytes : Bool → List Field → Bytes
fields_bytes big [] = []
fields_bytes big ((n, v) ∷ fs) = order big n v ++ fields_bytes big fs

abbrev pub width : List Field → ℕ
width [] = 0
width ((n, v) ∷ fs) = n + width fs

-- The word of width `n` that starts at byte `off`.
abbrev pub field_at : List Field → ℕ → ℕ → Option ℕ
field_at [] off n = none
field_at ((w, v) ∷ fs) off n =
    if off == 0
    then if w == n then some v else none
    else if leb w off
    then field_at fs (off - w) n
    else none

-- `let r32 = |off| { let v = read_u32_le(buf, off); if big { v.swap_bytes() } else { v } }`
unfoldable pub read_word : Bool → ℕ → Bytes → ℕ → Result ℕ
read_word big n buf off = do v ← read_le n buf off; ok (if big then swap_bytes n v else v)

length-order : (big : Bool) (n v : ℕ) → length (order big n v) ≡ n
length-order true n v = length-be_bytes n v
length-order false n v = length-le_bytes n v

pub length-fields_bytes : (big : Bool) (fs : List Field) → length (fields_bytes big fs) ≡ width fs
unfolding fields_bytes
length-fields_bytes big [] = refl
length-fields_bytes big ((n, v) ∷ fs) =
    length-append (order big n v) (fields_bytes big fs)
    ∙ omega (arith, length-order big n v, length-fields_bytes big fs)

-- The bytes before and after a word.
record Splits (big : Bool) (fs : List Field) (off n v : ℕ) : Type 0 where
  pre : Bytes
  post : Bytes
  parts : fields_bytes big fs ≡ pre ++ (order big n v ++ post)
  place : off ≡ length pre
  fits : v < 256 ^ n

Splits-cons :
    (big : Bool) (w x : ℕ) {fs : List Field} {off n v : ℕ}
    → w ≤ off
    → Splits big fs (off - w) n v
    → Splits big ((w, x) ∷ fs) off n v
unfolding fields_bytes
Splits-cons big w x {n = n} {v = v} h s = record {
  pre = order big w x ++ s.pre;
  post = s.post;
  parts =
      ap (λ t. order big w x ++ t) s.parts
      ∙ sym (append_assoc (order big w x) s.pre (order big n v ++ s.post));
  place = omega (arith, length-append (order big w x) s.pre, length-order big w x, s.place);
  fits = s.fits;
}

field_at-cases :
    (w x : ℕ) (fs : List Field) (off n v : ℕ)
    → field_at ((w, x) ∷ fs) off n ≡ some v
    → ((off ≡ 0) × (w ≡ n) × (x ≡ v)) ⊎ ((w ≤ off) × (field_at fs (off - w) n ≡ some v))
field_at-cases w x fs off n v h = ground arith

field_at-Splits :
    (big : Bool) (fs : List Field) (off n v : ℕ)
    → All Fits fs
    → field_at fs off n ≡ some v
    → Splits big fs off n v
unfolding fields_bytes
field_at-Splits big [] off n v f h = cc
field_at-Splits big ((w, x) ∷ fs) off n v (fx, f) h = elim (field_at-cases w x fs off n v h) [
  | inl (o, p, q) ↦ record {
    pre = [];
    post = fields_bytes big fs;
    parts = ap₂ (λ a b. order big a b ++ fields_bytes big fs) p q;
    place = o;
    fits = subst (λ a. v < 256 ^ a) p (subst (λ b. b < 256 ^ w) q fx);
  }
  | inr (le, rest) ↦ Splits-cons big w x le (field_at-Splits big fs (off - w) n v f rest)
]

order_value :
    (big : Bool) (n v : ℕ)
    → v < 256 ^ n
    → (if big then swap_bytes n (le_value (order big n v)) else le_value (order big n v)) ≡ v
order_value true n v h = swap_bytes-be_bytes n v h
order_value false n v h = le_value-le_bytes n v h

module _ (big : Bool) (fs : List Field) (f : All Fits fs) where
  -- What a plain little-endian read finds at a word's place, whatever follows the words.
  pub read_le-fields_append :
      (rest : Bytes) (off n v : ℕ)
      → field_at fs off n ≡ some v
      → read_le n (fields_bytes big fs ++ rest) off ≡ ok (le_value (order big n v))
  read_le-fields_append rest off n v h =
      let s = field_at-Splits big fs off n v f h in
      rw
        (
          s.parts,
          append_assoc s.pre (order big n v ++ s.post) rest,
          append_assoc (order big n v) s.post rest,
        )
        (read_le-append n s.pre (order big n v) (s.post ++ rest) off s.place (length-order big n v))

  -- In either byte order the closures read the word that was stored.
  pub read_word-fields_append :
      (rest : Bytes) (off n v : ℕ)
      → field_at fs off n ≡ some v
      → read_word big n (fields_bytes big fs ++ rest) off ≡ ok v
  unfolding read_word
  read_word-fields_append rest off n v h =
      rw (read_le-fields_append rest off n v h)
        (ap ok (order_value big n v (field_at-Splits big fs off n v f h).fits))

  pub read_le-fields :
      (off n v : ℕ)
      → field_at fs off n ≡ some v
      → read_le n (fields_bytes big fs) off ≡ ok (le_value (order big n v))
  read_le-fields off n v h =
      ap (λ x. read_le n x off) (sym (append-nil (fields_bytes big fs)))
      ∙ read_le-fields_append [] off n v h

  pub read_word-fields :
      (off n v : ℕ) → field_at fs off n ≡ some v → read_word big n (fields_bytes big fs) off ≡ ok v
  read_word-fields off n v h =
      ap (λ x. read_word big n x off) (sym (append-nil (fields_bytes big fs)))
      ∙ read_word-fields_append [] off n v h

pub read_word-lt :
    (big : Bool) (n : ℕ) (buf : Bytes) (off v : ℕ)
    → All IsByte buf
    → off + n ≤ length buf
    → read_word big n buf off ≡ ok v
    → v < 256 ^ n
unfolding read_word
read_word-lt big n buf off v h le e =
    let (x, r, s) = >>=-eq-ok (read_le n buf off) (λ x. ok (if big then swap_bytes n x else x)) e in
    subst (λ y. y < 256 ^ n) (ok-injective s) (go big x (read_le-lt n buf off x h le r))
  where
    go : (b : Bool) (x : ℕ) → x < 256 ^ n → (if b then swap_bytes n x else x) < 256 ^ n
    go true x lt = swap_bytes-lt n x
    go false x lt = lt

pub read_word_total :
    (big : Bool) (n : ℕ) (buf : Bytes) (off : ℕ)
    → off + n ≤ length buf
    → (v : ℕ) × (read_word big n buf off ≡ ok v)
unfolding read_word
read_word_total big n buf off h =
    let (v, e) = read_le_total n buf off h in ((if big then swap_bytes n v else v), rw e)

-- The writes of a header, one after the other from byte `off` on.
abbrev pub write_fields : Bytes → ℕ → List Field → Result Bytes
write_fields buf off [] = ok buf
write_fields buf off ((n, v) ∷ fs) = do buf' ← write_le n buf off v; write_fields buf' (off + n) fs

write_fields-from :
    (fs : List Field) (pre rest : Bytes) (off : ℕ)
    → off ≡ length pre
    → length rest ≡ width fs
    → write_fields (pre ++ rest) off fs ≡ ok (pre ++ fields_bytes false fs)
unfolding fields_bytes
write_fields-from [] pre [] off p q = refl
write_fields-from [] pre (r ∷ rest) off p q = absurd (omega arith)
write_fields-from ((n, v) ∷ fs) pre rest off p q =
    let mid : Bytes = take n rest in
    let post : Bytes = drop n rest in
    let pre' : Bytes = pre ++ le_bytes n v in
    ap (λ x. write_le n (pre ++ x) off v >>= λ b. write_fields b (off + n) fs)
      (sym (take-append-drop n rest))
    ∙ ap (λ r. r >>= λ b. write_fields b (off + n) fs)
        (write_le-append n pre mid post off v p (omega (arith, length-take n rest)))
    ∙ ap (λ b. write_fields b (off + n) fs) (sym (append_assoc pre (le_bytes n v) post))
    ∙ write_fields-from fs pre' post (off + n)
        (omega (arith, length-append pre (le_bytes n v), length-le_bytes n v))
        (omega (arith, length-drop n rest))
    ∙ ap ok (append_assoc pre (le_bytes n v) (fields_bytes false fs))

-- They leave nothing of what the buffer held before.
pub write_fields_all :
    (fs : List Field) (buf : Bytes)
    → length buf ≡ width fs
    → write_fields buf 0 fs ≡ ok (fields_bytes false fs)
write_fields_all fs buf h = write_fields-from fs [] buf 0 refl h
