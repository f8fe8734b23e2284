-- ===== src/Event/Structures/Walk.antt =====
-- The walk over the structures of an event ends on every buffer, and finds what was put there.
use mathlib.Core.List.{append_assoc}
use mathlib.Core.Path.{ap₂}
use oxihipo.Prelude.{
  ℕ, zero, suc, ◌+◌, ◌-◌, ◌≤◌, ◌<◌, min, ◌≡◌, refl, sym, ap, ◌∙◌, ◌⊎◌, inl, inr, arith, ◌||◌, List,
  [], ◌∷◌, ◌++◌, none, some, ltb, length, take, drop, All, length-append, length-take, length-drop,
  Bytes, ok, Bool-cases, Option-cases, le→ltb_false,
}
use oxihipo.Event.Structures.{
  StructureHeader, Structure, parse, to_bytes, size, next, next_data, collect, structures,
}
use oxihipo.Event.Structures.Header.{IsWellFormed, parse-to_bytes}
use oxihipo.Wire.Bytes.{slice}
use oxihipo.Wire.Bytes.Laws.{slice_total, slice-append, slice_rest, read_le_total}

-- What an item of the iterator is good for: it lies in the buffer, and the walk moves on.
record Advances (end pos : ℕ) (s : Structure) (pos' : ℕ) : Type 0 where
  forward : pos + 8 ≤ pos'
  inside : pos' ≤ end
  sized : length s.1 ≡ s.0.data_size

next_data-cases :
    (buf : Bytes) (end pos : ℕ) (hdr : StructureHeader)
    → end ≤ length buf
    → (next_data buf end pos hdr ≡ ok none)
      ⊎ ((s : Structure) × (pos' : ℕ) × (next_data buf end pos hdr ≡ ok (some (s, pos')))
          × Advances end pos s pos')
unfolding next_data
next_data-cases buf end pos hdr h =
    let lo : ℕ = pos + 8 in
    let hi : ℕ = lo + hdr.data_size in
    elim (Bool-cases (ltb end hi || ltb (length buf) hi)) [
      | inl out ↦ inl (rw out)
      | inr fits ↦
          let le : hi ≤ end = ground arith in
          inr (
            (hdr, take (hi - lo) (drop lo buf)),
            hi,
            rw (fits, slice_total buf lo hi (omega arith) (omega arith)),
            record {
              forward = omega arith;
              inside = le;
              sized = omega (arith, length-take (hi - lo) (drop lo buf), length-drop lo buf);
            },
          )
    ]

next-cases :
    (buf : Bytes) (end pos : ℕ)
    → end ≤ length buf
    → (next buf end pos ≡ ok none)
      ⊎ ((s : Structure) × (pos' : ℕ) × (next buf end pos ≡ ok (some (s, pos')))
          × Advances end pos s pos')
unfolding next
next-cases buf end pos h = elim (Bool-cases (ltb end (pos + 8))) [
  | inl out ↦ inl (rw out)
  | inr room ↦
      let rest : Bytes = take (length buf - pos) (drop pos buf) in
      let front = slice_total buf pos (length buf) (ground arith) (omega arith) in
      elim (Option-cases (parse rest)) [
        | inl short ↦ inl (rw (room, front, short))
        | inr (hdr, p) ↦ elim (next_data-cases buf end pos hdr h) [
          | inl stop ↦ inl (rw (room, front, p) stop)
          | inr (s, pos', e, a) ↦ inr (s, pos', rw (room, front, p) e, a)
        ]
      ]
]

-- The data of a structure is as long as its header says.
abbrev pub Sized : Structure → Type 0
Sized s = length s.1 ≡ s.0.data_size

collect_total :
    (rounds : ℕ) (buf : Bytes) (end pos : ℕ)
    → end ≤ length buf
    → 0 < rounds
    → end < rounds + pos
    → (ss : List Structure) × (collect rounds buf end pos ≡ ok ss) × All Sized ss
unfolding collect
collect_total zero buf end pos h z f = absurd (omega arith)
collect_total (suc rounds) buf end pos h z f = elim (next-cases buf end pos h) [
  | inl stop ↦ ([], rw stop, tt)
  | inr (s, pos', e, a) ↦
      let (ss, p, all) =
        collect_total rounds buf end pos' h (omega (arith, a.forward, a.inside))
          (omega (arith, a.forward)) in
      (s ∷ ss, rw (e, p), (a.sized, all))
]

size_total : (buf : Bytes) → (n : ℕ) × (size buf ≡ ok n)
unfolding size
size_total buf = elim (Bool-cases (ltb (length buf) 16)) [
  | inl short ↦ (0, rw short)
  | inr long ↦ let (n, r) = read_le_total 4 buf 4 (ground arith) in (n, rw long r)
]

-- Whatever bytes an event holds, the walk ends without a read out of range, and the data of each
-- structure that it yields is as long as its header says.
pub structures_total :
    (buf : Bytes) → (ss : List Structure) × (structures buf ≡ ok ss) × All Sized ss
unfolding structures
structures_total buf =
    let (n, s) = size_total buf in
    let (ss, c, all) =
      collect_total (suc (length buf)) buf (min n (length buf)) 16 (omega arith) (omega arith)
        (omega arith) in
    (ss, rw (s, c), all)

-- Structures as they stand one after the other in an event.
unfoldable pub structures_bytes : List Structure → Bytes
structures_bytes [] = []
structures_bytes (s ∷ ss) = to_bytes s.0 ++ (s.1 ++ structures_bytes ss)

-- A structure that the format can express.
pub record IsEncodable (s : Structure) : Type 0 where
  pub header : IsWellFormed s.0
  pub sized : s.0.data_size ≡ length s.1

pub length-to_bytes : (h : StructureHeader) → length (to_bytes h) ≡ 8
unfolding to_bytes
length-to_bytes h = refl

pub next-append :
    (pre post : Bytes) (s : Structure) (end : ℕ)
    → IsEncodable s
    → length pre + 8 + length s.1 ≤ end
    → end ≤ length (pre ++ (to_bytes s.0 ++ (s.1 ++ post)))
    → next (pre ++ (to_bytes s.0 ++ (s.1 ++ post))) end (length pre)
      ≡ ok (some (s, length pre + 8 + length s.1))
unfolding next next_data
next-append pre post s end e fits inside =
    let buf : Bytes = pre ++ (to_bytes s.0 ++ (s.1 ++ post)) in
    let content : slice buf (length pre + 8) (length pre + 8 + s.0.data_size) ≡ ok s.1 =
      ap (λ x. slice x (length pre + 8) (length pre + 8 + s.0.data_size))
        (sym (append_assoc pre (to_bytes s.0) (s.1 ++ post)))
      ∙ slice-append (pre ++ to_bytes s.0) s.1 post (length pre + 8)
          (length pre + 8 + s.0.data_size)
          (omega (arith, length-append pre (to_bytes s.0), length-to_bytes s.0))
          (omega (arith, length-append pre (to_bytes s.0), length-to_bytes s.0, e.sized)) in
    rw (
      le→ltb_false end (length pre + 8) (omega arith),
      slice_rest pre (to_bytes s.0 ++ (s.1 ++ post)),
      parse-to_bytes s.0 (s.1 ++ post) e.header,
      le→ltb_false end (length pre + 8 + s.0.data_size) (omega (arith, e.sized)),
      le→ltb_false (length buf) (length pre + 8 + s.0.data_size) (omega (arith, e.sized)),
      content,
      e.sized,
    )

next_end : (buf : Bytes) (end pos : ℕ) → end < pos + 8 → next buf end pos ≡ ok none
unfolding next
next_end buf end pos h = ground arith

pub length-structures_bytes : (ss : List Structure) → length ss ≤ length (structures_bytes ss)
unfolding structures_bytes
length-structures_bytes [] = omega arith
length-structures_bytes (s ∷ ss) = omega (
  arith,
  length-append (to_bytes s.0) (s.1 ++ structures_bytes ss),
  length-append s.1 (structures_bytes ss),
  length-to_bytes s.0,
  length-structures_bytes ss,
)

collect-append :
    (ss : List Structure) (pre : Bytes) (rounds : ℕ)
    → All IsEncodable ss
    → length ss < rounds
    → collect rounds (pre ++ structures_bytes ss) (length (pre ++ structures_bytes ss)) (length pre)
      ≡ ok ss
unfolding collect structures_bytes
collect-append ss pre zero w f = absurd (omega arith)
collect-append [] pre (suc rounds) w f =
    rw
      (next_end (pre ++ []) (length (pre ++ [])) (length pre) (omega (arith, length-append pre [])))
collect-append (s ∷ ss) pre (suc rounds) (e, w) f =
    let piece : Bytes = to_bytes s.0 ++ s.1 in
    let buf : Bytes = pre ++ (to_bytes s.0 ++ (s.1 ++ structures_bytes ss)) in
    let place : length (pre ++ piece) ≡ length pre + 8 + length s.1 =
      omega
        (arith, length-append pre piece, length-append (to_bytes s.0) s.1, length-to_bytes s.0) in
    let same : (pre ++ piece) ++ structures_bytes ss ≡ buf =
      append_assoc pre piece (structures_bytes ss)
      ∙ ap (λ x. pre ++ x) (append_assoc (to_bytes s.0) s.1 (structures_bytes ss)) in
    let rest : collect rounds buf (length buf) (length pre + 8 + length s.1) ≡ ok ss =
      ap₂ (λ b n. collect rounds b (length b) n) (sym same) (sym place)
      ∙ collect-append ss (pre ++ piece) rounds w (omega arith) in
    let room : length pre + 8 + length s.1 ≤ length buf =
      omega (arith, ap length same, length-append (pre ++ piece) (structures_bytes ss), place) in
    rw (next-append pre (structures_bytes ss) s (length buf) e room (omega arith), rest)

-- The walk over a buffer that ends with encoded structures, from where they start.
pub structures-encoded :
    (pre : Bytes) (ss : List Structure)
    → All IsEncodable ss
    → length pre ≡ 16
    → size (pre ++ structures_bytes ss) ≡ ok (length (pre ++ structures_bytes ss))
    → structures (pre ++ structures_bytes ss) ≡ ok ss
unfolding structures
structures-encoded pre ss w p s =
    let buf : Bytes = pre ++ structures_bytes ss in
    let m : min (length buf) (length buf) ≡ length buf = omega arith in
    let enough : length ss < suc (length buf) =
      omega (arith, length-append pre (structures_bytes ss), length-structures_bytes ss) in
    rw s (
      ap (λ n. collect (suc (length buf)) buf n 16) m
      ∙ ap (λ k. collect (suc (length buf)) buf (length buf) k) (sym p)
      ∙ collect-append ss pre (suc (length buf)) w enough)
