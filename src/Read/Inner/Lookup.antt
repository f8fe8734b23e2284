-- ===== src/Read/Inner/Lookup.antt =====
-- An event number in the index of a file's records.
use mathlib.Core.List.{append_assoc, append-nil}
use mathlib.Core.Path.{subst}
use oxihipo.Prelude.{
  ℕ, zero, suc, ◌+◌, ◌^◌, ◌<◌, ◌≡◌, refl, sym, ap, ◌∙◌, ◌⊎◌, inl, inr, arith, List, [], ◌∷◌, ◌++◌,
  some, length, get_elem?, Bytes, length-append,
}
use oxihipo.Wire.EventIndex.{RecordSpan, FileEventIndex, push, new}
use oxihipo.Wire.EventIndex.Invariant.{IsValid, push-IsValid}
use oxihipo.Record.Codec.{Backends}
use oxihipo.Write.Writer.Tracks.{Item, bytes_of, events_of}
use oxihipo.Read.Inner.Sound.{Placed, AllPlaced}
use oxihipo.Read.Inner.Scan.{index_items}

get_elem?-append :
    {A : Type 0} (xs ys : List A) (g : ℕ) (a : A)
    → get_elem? (xs ++ ys) g ≡ some a
    → (get_elem? xs g ≡ some a) ⊎ ((g' : ℕ) × (g ≡ length xs + g') × (get_elem? ys g' ≡ some a))
get_elem?-append [] ys g a e = inr (g, omega arith, e)
get_elem?-append (x ∷ xs) ys zero a e = inl e
get_elem?-append (x ∷ xs) ys (suc g) a e = elim (get_elem?-append xs ys g a e) [
  | inl h ↦ inl h
  | inr (g', place, h) ↦ inr (g', omega arith, h)
]

pub get_elem?-lt :
    {A : Type 0} (xs : List A) (g : ℕ) (a : A) → get_elem? xs g ≡ some a → g < length xs
get_elem?-lt [] g a e = cc e
get_elem?-lt (x ∷ xs) zero a e = omega arith
get_elem?-lt (x ∷ xs) (suc g) a e = omega (arith, get_elem?-lt xs g a e)

-- Where an event of a run of records is: its record, the place in it, and the bytes around.
pub record Located (b : Backends) (pos first : ℕ) (spans : List RecordSpan) (is : List Item) (g : ℕ)
    (ev : Bytes) : Type 0 where
  pub number : ℕ
  pub local : ℕ
  pub span : RecordSpan
  pub item : Item
  pub pre : Bytes
  pub post : Bytes
  pub at : get_elem? spans number ≡ some span
  pub sums : span.first_event + local ≡ first + g
  pub inside : local < span.event_count
  pub offset : span.file_offset ≡ pos + length pre
  pub bytes : bytes_of is ≡ pre ++ (item.bytes ++ post)
  pub placed : Placed b span.file_offset item
  pub event : get_elem? item.chunk local ≡ some ev

abbrev span_of : FileEventIndex → ℕ → Item → RecordSpan
span_of idx pos i = record {
  file_offset = pos;
  record_length = length i.bytes;
  event_count = length i.chunk;
  first_event = idx.total_events;
}

-- The spans of a run of records, and an event of theirs.
spans_of : FileEventIndex → ℕ → List Item → List RecordSpan
spans_of idx pos [] = []
spans_of idx pos (i ∷ is) =
    span_of idx pos i
    ∷ spans_of (push idx pos (length i.bytes) (length i.chunk)) (pos + length i.bytes) is

records-index_items :
    (idx : FileEventIndex) (pos : ℕ) (is : List Item)
    → (index_items idx pos is).records ≡ idx.records ++ spans_of idx pos is
unfolding push spans_of
records-index_items idx pos [] = sym (append-nil idx.records)
records-index_items idx pos (i ∷ is) =
    records-index_items (push idx pos (length i.bytes) (length i.chunk)) (pos + length i.bytes) is
    ∙ append_assoc idx.records (span_of idx pos i ∷ []) _

total-push :
    (idx : FileEventIndex) (p l n : ℕ)
    → idx.total_events + n < 2 ^ 64
    → (push idx p l n).total_events ≡ idx.total_events + n
unfolding push
total-push idx p l n f = omega arith

pub index_items-IsValid :
    (b : Backends) (idx : FileEventIndex) (pos : ℕ) (is : List Item)
    → AllPlaced b pos is
    → IsValid idx
    → idx.total_events + length (events_of is) < 2 ^ 64
    → IsValid (index_items idx pos is)
      × ((index_items idx pos is).total_events ≡ idx.total_events + length (events_of is))
index_items-IsValid b idx pos [] ps v f = (v, omega arith)
index_items-IsValid b idx pos (i ∷ is) (p, ps) v f =
    let len = length-append i.chunk (events_of is) in
    let idx' : FileEventIndex = push idx pos (length i.bytes) (length i.chunk) in
    let total : idx'.total_events ≡ idx.total_events + length i.chunk =
      total-push idx pos (length i.bytes) (length i.chunk) (omega (arith, len)) in
    let (valid, all) =
      index_items-IsValid b idx' (pos + length i.bytes) is ps
        (push-IsValid idx pos (length i.bytes) (length i.chunk) v (omega (arith, p.few))
          (omega (arith, len)))
        (omega (arith, len, total)) in
    (valid, omega (arith, len, total, all))

find_event :
    (b : Backends) (idx : FileEventIndex) (pos : ℕ) (is : List Item) (g : ℕ) (ev : Bytes)
    → AllPlaced b pos is
    → idx.total_events + length (events_of is) < 2 ^ 64
    → get_elem? (events_of is) g ≡ some ev
    → Located b pos idx.total_events (spans_of idx pos is) is g ev
unfolding spans_of
find_event b idx pos [] g ev ps f e = cc e
find_event b idx pos (i ∷ is) g ev (p, ps) f e =
    elim (get_elem?-append i.chunk (events_of is) g ev e) [
      | inl here ↦ record {
        number = 0;
        local = g;
        span = span_of idx pos i;
        item = i;
        pre = [];
        post = bytes_of is;
        at = refl;
        sums = refl;
        inside = get_elem?-lt i.chunk g ev here;
        offset = omega arith;
        bytes = refl;
        placed = p;
        event = here;
      }
      | inr (g', place, later) ↦
          let len = length-append i.chunk (events_of is) in
          let idx' : FileEventIndex = push idx pos (length i.bytes) (length i.chunk) in
          let total : idx'.total_events ≡ idx.total_events + length i.chunk =
            total-push idx pos (length i.bytes) (length i.chunk) (omega (arith, len)) in
          let l =
            find_event b idx' (pos + length i.bytes) is g' ev ps (omega (arith, len, total))
              later in
          record {
            number = suc l.number;
            local = l.local;
            span = l.span;
            item = l.item;
            pre = i.bytes ++ l.pre;
            post = l.post;
            at = l.at;
            sums = omega (arith, l.sums, total, place);
            inside = l.inside;
            offset = omega (arith, l.offset, length-append i.bytes l.pre);
            bytes =
                ap (λ x. i.bytes ++ x) l.bytes
                ∙ sym (append_assoc i.bytes l.pre (l.item.bytes ++ l.post));
            placed = l.placed;
            event = l.event;
          }
    ]

-- The same in the index that starts empty.
pub find_event_new :
    (b : Backends) (pos : ℕ) (is : List Item) (g : ℕ) (ev : Bytes)
    → AllPlaced b pos is
    → length (events_of is) < 2 ^ 64
    → get_elem? (events_of is) g ≡ some ev
    → Located b pos 0 (index_items new pos is).records is g ev
find_event_new b pos is g ev ps f e =
    subst (λ s. Located b pos 0 s is g ev) (sym (records-index_items new pos is))
      (find_event b new pos is g ev ps (omega arith) e)
