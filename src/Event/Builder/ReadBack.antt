-- ===== src/Event/Builder/ReadBack.antt =====
-- What `EventBuilder` wrote, read by the accessors of an event.
use mathlib.Core.List.{append_assoc, append-nil}
use oxihipo.Prelude.{
  ℕ, zero, suc, ◌+◌, ◌*◌, ◌/◌, ◌%◌, ◌^◌, ◌≤◌, ◌<◌, ◌≡◌, refl, sym, ap, ◌∙◌, arith, List, [], ◌∷◌,
  ◌++◌, length, take, drop, All, length-append, Bytes, ok, le→leb, le→ltb_false, lt→leb_false,
  bit_and,
}
use oxihipo.Prelude.Bits.{bit_and_mask}
use oxihipo.Event.Structures
use oxihipo.Event.Structures.{
  Structure, StructureHeader, to_bytes, size, structures, find, first_with,
}
use oxihipo.Event.Structures.Header.{IsWellFormed, length_word_sum}
use oxihipo.Event.Structures.Walk.{
  structures_bytes, IsEncodable, structures-encoded, length-to_bytes, length-structures_bytes,
}
use oxihipo.Event.Builder.{
  EventBuilder, new, with_tag, set_tag, add_bank_bytes, finish, finish_into, finished_size,
  structure_count, count_from, evnt,
}
use oxihipo.Wire.Bytes.{le_bytes, le_value, slice, read_le}
use oxihipo.Wire.Bytes.Laws.{read_le-append, length-le_bytes, le_value-le_bytes, slice-append}

-- The banks added one after the other.
unfoldable pub add_structures : List Structure → EventBuilder → EventBuilder
add_structures [] b = b
add_structures (s ∷ ss) b = add_structures ss (add_bank_bytes (to_bytes s.0 ++ s.1) b)

structures-add_structures :
    (ss : List Structure) (b : EventBuilder)
    → (add_structures ss b).structures ≡ b.structures ++ structures_bytes ss
unfolding add_structures add_bank_bytes structures_bytes
structures-add_structures [] b = sym (append-nil b.structures)
structures-add_structures (s ∷ ss) b =
    structures-add_structures ss (add_bank_bytes (to_bytes s.0 ++ s.1) b)
    ∙ append_assoc b.structures (to_bytes s.0 ++ s.1) (structures_bytes ss)
    ∙ ap (λ x. b.structures ++ x) (append_assoc (to_bytes s.0) s.1 (structures_bytes ss))

tag-add_structures : (ss : List Structure) (b : EventBuilder) → (add_structures ss b).tag ≡ b.tag
unfolding add_structures add_bank_bytes
tag-add_structures [] b = refl
tag-add_structures (s ∷ ss) b = tag-add_structures ss (add_bank_bytes (to_bytes s.0 ++ s.1) b)

-- The 16 bytes of the header of an event.
abbrev header : EventBuilder → Bytes
header b = evnt ++ (le_bytes 4 (finished_size b) ++ (le_bytes 4 b.tag ++ le_bytes 4 0))

length-header : (b : EventBuilder) → length (header b) ≡ 16
unfolding le_bytes
length-header b = refl

finish-header : (b : EventBuilder) → finish b ≡ header b ++ b.structures
unfolding finish finish_into finished_size le_bytes
finish-header b = refl

-- An event is as long as `finished_size` says.
pub length-finish : (b : EventBuilder) → length (finish b) ≡ finished_size b
unfolding finished_size
length-finish b =
    omega
      (arith, ap length (finish-header b), length-append (header b) b.structures, length-header b)

finished_size-ge : (b : EventBuilder) → 16 ≤ finished_size b
unfolding finished_size
finished_size-ge b = omega arith

size-finish : (b : EventBuilder) → finished_size b < 2 ^ 32 → size (finish b) ≡ ok (finished_size b)
unfolding size finish finish_into finished_size
size-finish b h =
    let n : ℕ = finished_size b in
    let rest : Bytes = le_bytes 4 b.tag ++ (le_bytes 4 0 ++ b.structures) in
    let e : read_le 4 (finish b) 4 ≡ ok n =
      read_le-append 4 evnt (le_bytes 4 n) rest 4 refl (length-le_bytes 4 n)
      ∙ ap ok (le_value-le_bytes 4 n h) in
    rw (le→ltb_false (length (finish b)) 16 (omega (arith, length-finish b, finished_size-ge b)), e)

-- The event carries the tag of its builder, a 32-bit word.
pub tag-finish : (b : EventBuilder) → b.tag < 2 ^ 32 → Structures.tag (finish b) ≡ ok b.tag
unfolding Structures.tag finish finish_into finished_size le_bytes
tag-finish b h =
    let rest : Bytes = le_bytes 4 0 ++ b.structures in
    let e : read_le 4 (finish b) 8 ≡ ok b.tag =
      read_le-append 4 (evnt ++ le_bytes 4 (finished_size b)) (le_bytes 4 b.tag) rest 8 refl
        (length-le_bytes 4 b.tag)
      ∙ ap ok (le_value-le_bytes 4 b.tag h) in
    rw (le→ltb_false (length (finish b)) 16 (omega (arith, length-finish b, finished_size-ge b)), e)

-- What an event that was built holds, as `Event` reads it.
pub record Reads (event : Bytes) (t : ℕ) (ss : List Structure) : Type 0 where
  pub walked : structures event ≡ ok ss
  pub tagged : Structures.tag event ≡ ok t
  pub found : (group item : ℕ) → find event group item ≡ ok (first_with group item ss)

-- Banks that the format can express, added one by one to a builder with a 32-bit tag, are what a
-- reader of the finished event walks over, in their order, as long as the event stays below 4 GiB;
-- the tag is read back, and a search finds the first bank with the identifier.
pub add_structures-Reads :
    (t : ℕ) (ss : List Structure)
    → All IsEncodable ss
    → t < 2 ^ 32
    → finished_size (add_structures ss (with_tag t new)) < 2 ^ 32
    → Reads (finish (add_structures ss (with_tag t new))) t ss
unfolding find new with_tag set_tag
add_structures-Reads t ss w ht h =
    let b0 : EventBuilder = with_tag t new in
    let b : EventBuilder = add_structures ss b0 in
    let shape : finish b ≡ header b ++ structures_bytes ss =
      finish-header b ∙ ap (λ x. header b ++ x) (structures-add_structures ss b0) in
    let whole : finished_size b ≡ length (header b ++ structures_bytes ss) =
      sym (length-finish b) ∙ ap length shape in
    let declared : size (header b ++ structures_bytes ss)
        ≡ ok (length (header b ++ structures_bytes ss)) =
      ap size (sym shape) ∙ size-finish b h ∙ ap ok whole in
    let walk : structures (finish b) ≡ ok ss =
      ap structures shape ∙ structures-encoded (header b) ss w (length-header b) declared in
    let same : b.tag ≡ t = tag-add_structures ss b0 in
    record {
      walked = walk;
      tagged = tag-finish b (omega (arith, same)) ∙ ap ok same;
      found = λ group item. rw walk;
    }

-- The size field of a structure, from the bytes of its header.
size_word :
    (h : StructureHeader)
    → IsWellFormed h
    → (front last : Bytes) × (to_bytes h ≡ front ++ last)
      × (length front ≡ 4)
      × (length last ≡ 4)
      × (bit_and (le_value last) 0x00FF_FFFF ≡ h.data_size)
unfolding to_bytes le_value
size_word h w =
    let word : ℕ = h.data_size + h.header_size * 2 ^ 24 in
    let small : word < 2 ^ 32 = omega (arith, w.data_size, w.header_size) in
    let field : bit_and word 0x00FF_FFFF ≡ h.data_size =
      bit_and_mask 24 word ∙ omega (arith, w.data_size) in
    (
      take 4 (to_bytes h),
      drop 4 (to_bytes h),
      refl,
      refl,
      refl,
      ap (λ x. bit_and (four x) 0x00FF_FFFF)
            (length_word_sum h.data_size h.header_size w.data_size w.header_size)
          ∙ ap (λ x. bit_and x 0x00FF_FFFF) (four-id word small)
          ∙ field,
    )
  where
    four : ℕ → ℕ
    four x =
        x % 2 ^ 8
        + 256
          * (x / 2 ^ 8 % 2 ^ 8 + 256 * (x / 2 ^ 16 % 2 ^ 8 + 256 * (x / 2 ^ 24 % 2 ^ 8 + 256 * 0)))

    four-id : (x : ℕ) → x < 2 ^ 32 → four x ≡ x
    four-id x h = omega arith

count_from-append :
    (ss : List Structure) (pre : Bytes) (rounds : ℕ)
    → All IsEncodable ss
    → length ss < rounds
    → count_from rounds (pre ++ structures_bytes ss) (length pre) ≡ ok (length ss)
unfolding count_from structures_bytes
count_from-append ss pre zero w f = absurd (omega arith)
count_from-append [] pre (suc rounds) w f =
    rw (lt→leb_false (length pre + 8) (length (pre ++ [])) (omega (arith, length-append pre [])))
count_from-append (s ∷ ss) pre (suc rounds) (e, w) f =
    let (front, last, cut, p, q, v) = size_word s.0 e.header in
    let rest : Bytes = s.1 ++ structures_bytes ss in
    let buf : Bytes = pre ++ (to_bytes s.0 ++ rest) in
    let piece : Bytes = to_bytes s.0 ++ s.1 in
    let place : length (pre ++ piece) ≡ length pre + (8 + length s.1) =
      omega
        (arith, length-append pre piece, length-append (to_bytes s.0) s.1, length-to_bytes s.0) in
    let same : (pre ++ piece) ++ structures_bytes ss ≡ buf =
      append_assoc pre piece (structures_bytes ss)
      ∙ ap (λ x. pre ++ x) (append_assoc (to_bytes s.0) s.1 (structures_bytes ss)) in
    let apart : buf ≡ (pre ++ front) ++ (last ++ rest) =
      ap (λ x. pre ++ (x ++ rest)) cut
      ∙ ap (λ x. pre ++ x) (append_assoc front last rest)
      ∙ sym (append_assoc pre front (last ++ rest)) in
    let word : slice buf (length pre + 4) (length pre + 8) ≡ ok last =
      ap (λ x. slice x (length pre + 4) (length pre + 8)) apart
      ∙ slice-append (pre ++ front) last rest (length pre + 4) (length pre + 8)
          (omega (arith, length-append pre front, p))
          (omega (arith, length-append pre front, p, q)) in
    let next : count_from rounds buf (length pre + (8 + bit_and (le_value last) 0x00FF_FFFF))
        ≡ ok (length ss) =
      ap (λ n. count_from rounds buf (length pre + (8 + n))) (v ∙ e.sized)
      ∙ ap (λ n. count_from rounds buf n) (sym place)
      ∙ ap (λ x. count_from rounds x (length (pre ++ piece))) (sym same)
      ∙ count_from-append ss (pre ++ piece) rounds w (omega arith) in
    let room : length pre + 8 ≤ length buf = omega (
      arith,
      length-append pre (to_bytes s.0 ++ rest),
      length-append (to_bytes s.0) rest,
      length-to_bytes s.0,
    ) in
    rw (le→leb (length pre + 8) (length buf) room, word, next)

-- `structure_count` counts the banks that were added, when the format can express them.
pub structure_count-add_structures :
    (t : ℕ) (ss : List Structure)
    → All IsEncodable ss
    → structure_count (add_structures ss (with_tag t new)) ≡ ok (length ss)
unfolding structure_count new with_tag set_tag
structure_count-add_structures t ss w =
    let same = structures-add_structures ss (with_tag t new) in
    ap (λ x. count_from (suc (length x)) x 0) same
    ∙ count_from-append ss [] (suc (length (structures_bytes ss))) w
        (omega (arith, length-structures_bytes ss))
