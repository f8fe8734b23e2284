-- ===== src/Event/Structures/Header.antt =====
-- `StructureHeader::to_bytes` and `StructureHeader::parse` against each other.
use oxihipo.Prelude.{
  ℕ, ◌+◌, ◌*◌, ◌/◌, ◌%◌, ◌^◌, ◌<◌, ◌≡◌, refl, ap, ◌∙◌, arith, ◌∷◌, ◌++◌, some, Bytes, bit_and,
  bit_or,
}
use oxihipo.Prelude.Bits.{◌>>>◌, ◌<<<◌, bit_and_mask, bit_or_fields}
use oxihipo.Wire.Bytes.{le_bytes}
use oxihipo.Event.Structures.{StructureHeader, parse, to_bytes}

-- A header that eight bytes can express.
pub record IsWellFormed (h : StructureHeader) : Type 0 where
  pub group : h.group < 2 ^ 16
  pub item : h.item < 2 ^ 8
  pub ty : h.ty < 2 ^ 8
  pub data_size : h.data_size < 2 ^ 24
  pub header_size : h.header_size < 2 ^ 8

-- Four bytes joined by shifts and `|`.
join_bytes :
    (a b c d : ℕ)
    → a < 256
    → b < 256
    → c < 256
    → bit_or (bit_or (bit_or a (b * 2 ^ 8)) (c * 2 ^ 16)) (d * 2 ^ 24)
      ≡ a + b * 2 ^ 8 + c * 2 ^ 16 + d * 2 ^ 24
join_bytes a b c d ha hb hc =
    ap (λ x. bit_or (bit_or x (c * 2 ^ 16)) (d * 2 ^ 24)) (bit_or_fields 8 b a ha)
    ∙ ap (λ x. bit_or x (d * 2 ^ 24)) (bit_or_fields 16 c (a + b * 2 ^ 8) (omega arith))
    ∙ bit_or_fields 24 d (a + b * 2 ^ 8 + c * 2 ^ 16) (omega arith)

-- The length word as a sum of its two fields.
pub length_word_sum :
    (n m : ℕ)
    → n < 2 ^ 24
    → m < 2 ^ 8
    → bit_or (bit_and n 0x00FF_FFFF) (bit_and m 0xFF <<< 24) ≡ n + m * 2 ^ 24
length_word_sum n m hn hm =
    ap (λ x. bit_or x (bit_and m 0xFF <<< 24)) (bit_and_mask 24 n ∙ omega arith)
    ∙ ap (bit_or n) {y = m * 2 ^ 24} (omega (arith, bit_and_mask 8 m))
    ∙ bit_or_fields 24 m n hn

abbrev pub header_with : ℕ → ℕ → ℕ → ℕ → ℕ → StructureHeader
header_with group item ty data_size header_size = record {
  group = group;
  item = item;
  ty = ty;
  data_size = data_size;
  header_size = header_size;
}

-- The eight bytes of an identifier, a type and a length word.
abbrev pub header_bytes : ℕ → ℕ → ℕ → ℕ → Bytes → Bytes
header_bytes group item ty v rest =
    group % 2 ^ 8
    ∷ (group >>> 8) % 2 ^ 8
    ∷ item
    ∷ ty
    ∷ v % 2 ^ 8
    ∷ (v >>> 8) % 2 ^ 8
    ∷ (v >>> 16) % 2 ^ 8
    ∷ (v >>> 24) % 2 ^ 8
    ∷ rest

-- A word, byte by byte.
pub word_bytes :
    (n : ℕ) (rest : Bytes)
    → le_bytes 4 n ++ rest
      ≡ n % 2 ^ 8 ∷ (n >>> 8) % 2 ^ 8 ∷ (n >>> 16) % 2 ^ 8 ∷ (n >>> 24) % 2 ^ 8 ∷ rest
unfolding le_bytes
word_bytes n rest = λ i. (n % 256 ∷ n / 256 % 256 ∷ second i ∷ third i ∷ rest)
  where
    second : n / 256 / 256 % 256 ≡ n / 2 ^ 16 % 2 ^ 8
    second = omega arith

    third : n / 256 / 256 / 256 % 256 ≡ n / 2 ^ 24 % 2 ^ 8
    third = omega arith

record_eq :
    (group item ty : ℕ) {a b c d e : ℕ}
    → a ≡ group
    → b ≡ d
    → c ≡ e
    → some (record { group = a; item = item; ty = ty; data_size = b; header_size = c })
      ≡ some (header_with group item ty d e)
record_eq group item ty p q r =
    λ i. some (record { group = p i; item = item; ty = ty; data_size = q i; header_size = r i })

pub parse-header_bytes :
    (group item ty v : ℕ) (rest : Bytes)
    → group < 2 ^ 16
    → v < 2 ^ 32
    → parse (header_bytes group item ty v rest)
      ≡ some (header_with group item ty (v % 2 ^ 24) (v / 2 ^ 24))
unfolding parse
parse-header_bytes group item ty v rest g f =
    let word =
      join_bytes (v % 2 ^ 8) (v / 2 ^ 8 % 2 ^ 8) (v / 2 ^ 16 % 2 ^ 8) (v / 2 ^ 24 % 2 ^ 8)
        (omega arith) (omega arith) (omega arith)
      ∙ joined v f in
    record_eq group item ty
      (bit_or_fields 8 (group / 2 ^ 8 % 2 ^ 8) (group % 2 ^ 8) (omega arith) ∙ omega arith)
      (ap (λ x. bit_and x 0x00FF_FFFF) word ∙ bit_and_mask 24 v)
      (ap (λ x. bit_and (x / 2 ^ 24) 0xFF % 2 ^ 8) word
        ∙ ap (λ x. x % 2 ^ 8) (bit_and_mask 8 (v / 2 ^ 24))
        ∙ omega arith)
  where
    joined :
        (v : ℕ)
        → v < 2 ^ 32
        → v % 2 ^ 8
            + v / 2 ^ 8 % 2 ^ 8 * 2 ^ 8
            + v / 2 ^ 16 % 2 ^ 8 * 2 ^ 16
            + v / 2 ^ 24 % 2 ^ 8 * 2 ^ 24
          ≡ v
    joined v h = omega arith

-- `parse` of a header that `to_bytes` wrote gives the header back, whatever bytes follow, when the
-- fields fit: 16 bits of group, 8 of item, type and header size, 24 of data size.
pub parse-to_bytes :
    (h : StructureHeader) (rest : Bytes) → IsWellFormed h → parse (to_bytes h ++ rest) ≡ some h
unfolding to_bytes
parse-to_bytes h rest w =
    let v : ℕ = h.data_size + h.header_size * 2 ^ 24 in
    ap (λ x. parse (header_bytes h.group h.item h.ty x rest))
      (length_word_sum h.data_size h.header_size w.data_size w.header_size)
    ∙ parse-header_bytes h.group h.item h.ty v rest w.group
        (omega (arith, w.data_size, w.header_size))
    ∙ record_eq h.group h.item h.ty refl (omega (arith, w.data_size)) (omega (arith, w.data_size))
