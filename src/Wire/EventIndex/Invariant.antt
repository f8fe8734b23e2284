-- ===== src/Wire/EventIndex/Invariant.antt =====
-- The invariant of the index: each record starts where the one before it ends.
use mathlib.Core.Path.{subst}
use oxihipo.Prelude.{
  ℕ, ◌+◌, ◌-◌, ◌*◌, ◌%◌, ◌^◌, ◌≤◌, ◌<◌, ◌≡◌, refl, sym, ap, ◌∙◌, arith, List, [], ◌∷◌, ◌++◌, some,
  length, All, length-append, ok, ◌⊎◌, inl, inr,
}
use oxihipo.Wire.EventIndex.{
  RecordSpan, FileEventIndex, new, pop, pop_last, push, push_columns, from_columns, sign_extend,
}

-- The records cover the events from `start` up to `total`, in order and without gaps.
abbrev pub Covers : ℕ → List RecordSpan → ℕ → Type 0
Covers start [] total = start ≡ total
Covers start (r ∷ rs) total =
    (r.first_event ≡ start) × (r.event_count < 2 ^ 32) × Covers (start + r.event_count) rs total

pub record IsValid (idx : FileEventIndex) : Type 0 where
  pub covers : Covers 0 idx.records idx.total_events
  pub fits : idx.total_events < 2 ^ 64

pub new-IsValid : IsValid new
new-IsValid = record { covers = refl; fits = omega arith }

Covers-append :
    (rs : List RecordSpan) (start total : ℕ) (r : RecordSpan)
    → Covers start rs total
    → r.first_event ≡ total
    → r.event_count < 2 ^ 32
    → Covers start (rs ++ (r ∷ [])) (total + r.event_count)
Covers-append [] start total r h f c = (f ∙ sym h, c, ap (λ t. t + r.event_count) h)
Covers-append (x ∷ rs) start total r (a, b, h) f c =
    (a, b, Covers-append rs (start + x.event_count) total r h f c)

-- `push` of a record with a 32-bit event count keeps an index valid, as long as the total stays
-- below 2^64.
pub push-IsValid :
    (idx : FileEventIndex) (file_offset record_length event_count : ℕ)
    → IsValid idx
    → event_count < 2 ^ 32
    → idx.total_events + event_count < 2 ^ 64
    → IsValid (push idx file_offset record_length event_count)
unfolding push
push-IsValid idx p l e v c f = record {
  covers =
      subst (Covers 0 (idx.records ++ (last ∷ []))) (sym exact)
        (Covers-append idx.records 0 idx.total_events last v.covers refl c);
  fits = omega arith;
}
  where
    last : RecordSpan
    last = record {
      file_offset = p;
      record_length = l;
      event_count = e;
      first_event = idx.total_events;
    }

    exact : (idx.total_events + e) % 2 ^ 64 ≡ idx.total_events + e
    exact = omega arith

pub pop-append {ℓ} : {A : Type ℓ} (xs : List A) (x : A) → pop (xs ++ (x ∷ [])) ≡ some (xs, x)
unfolding pop
pop-append [] x = refl
pop-append (y ∷ ys) x = rw (pop-append ys x)

-- `pop_last` undoes `push` of a record with a 32-bit event count, for a total below 2^64.
pub pop_last-push :
    (idx : FileEventIndex) (file_offset record_length event_count : ℕ)
    → event_count < 2 ^ 32
    → idx.total_events < 2 ^ 64
    → pop_last (push idx file_offset record_length event_count) ≡ idx
unfolding pop_last push
pop_last-push idx p l e c f = ground (arith, pop-append idx.records last)
  where
    last : RecordSpan
    last = record {
      file_offset = p;
      record_length = l;
      event_count = e;
      first_event = idx.total_events;
    }

pub Covers-total : (rs : List RecordSpan) (start total : ℕ) → Covers start rs total → start ≤ total
Covers-total [] start total h = omega arith
Covers-total (r ∷ rs) start total (a, b, h) =
    omega (arith, Covers-total rs (start + r.event_count) total h)

Covers-unsnoc :
    (rs : List RecordSpan) (start total : ℕ) (r : RecordSpan)
    → Covers start (rs ++ (r ∷ [])) total
    → Covers start rs r.first_event × (r.first_event + r.event_count ≡ total)
Covers-unsnoc [] start total r (a, b, h) = (sym a, omega arith)
Covers-unsnoc (x ∷ rs) start total r (a, b, h) =
    let (c, e) = Covers-unsnoc rs (start + x.event_count) total r h in ((a, b, c), e)

snoc-cases {ℓ} :
    {A : Type ℓ} (xs : List A) → (xs ≡ []) ⊎ ((ys : List A) × (y : A) × (xs ≡ ys ++ (y ∷ [])))
snoc-cases [] = inl refl
snoc-cases (x ∷ xs) = elim (snoc-cases xs) [
  | inl e ↦ inr ([], x, ap (◌∷◌ x) e)
  | inr (ys, y, e) ↦ inr (x ∷ ys, y, ap (◌∷◌ x) e)
]

abbrev index_of : ℕ → List RecordSpan → FileEventIndex
index_of total rs = record { records = rs; total_events = total }

pop_last_snoc :
    (rs : List RecordSpan) (r : RecordSpan) (total : ℕ)
    → Covers 0 (rs ++ (r ∷ [])) total
    → total < 2 ^ 64
    → IsValid (pop_last (index_of total (rs ++ (r ∷ []))))
unfolding pop_last
pop_last_snoc rs r total h f =
    let (c, e) = Covers-unsnoc rs 0 total r h in
    let same : (total + 2 ^ 64 - r.event_count) % 2 ^ 64 ≡ r.first_event = omega arith in
    rw (pop-append rs r, pop_last) (record { covers = rw same c; fits = omega arith })

-- `pop_last` of a valid index is valid, also when there is no record to drop.
pub pop_last-IsValid : (idx : FileEventIndex) → IsValid idx → IsValid (pop_last idx)
pop_last-IsValid idx v = elim (snoc-cases idx.records) [
  | inl e ↦
      subst (λ rs. Covers 0 rs idx.total_events → IsValid (pop_last (index_of idx.total_events rs)))
        (sym e) (λ c. unfold pop_last pop in record { covers = c; fits = v.fits }) v.covers
  | inr (rs, r, e) ↦
      subst (λ rs. Covers 0 rs idx.total_events → IsValid (pop_last (index_of idx.total_events rs)))
        (sym e) (λ c. pop_last_snoc rs r idx.total_events c v.fits) v.covers
]

-- Sum of the entries column.
abbrev pub sum : List ℕ → ℕ
sum [] = 0
sum (x ∷ xs) = x + sum xs

push_lem :
    (idx : FileEventIndex) (p l e : ℕ)
    → idx.total_events + e < 2 ^ 64
    → ((push idx p l e).total_events ≡ idx.total_events + e)
      × (length (push idx p l e).records ≡ length idx.records + 1)
unfolding push
push_lem idx p l e h = (omega arith, length-append idx.records _)

push_columns-IsValid :
    (ps ls es : List ℕ) (idx : FileEventIndex)
    → length ps ≡ length ls
    → length ps ≡ length es
    → IsValid idx
    → All (λ e. e < 2 ^ 32) es
    → idx.total_events + sum es < 2 ^ 64
    → IsValid (push_columns idx ps ls es)
      × ((push_columns idx ps ls es).total_events ≡ idx.total_events + sum es)
      × (length (push_columns idx ps ls es).records ≡ length idx.records + length ps)
unfolding push_columns
push_columns-IsValid [] [] [] idx p q v b f = (v, omega arith, omega arith)
push_columns-IsValid [] [] (e ∷ es) idx p q v b f = absurd (omega arith)
push_columns-IsValid [] (l ∷ ls) es idx p q v b f = absurd (omega arith)
push_columns-IsValid (x ∷ ps) [] es idx p q v b f = absurd (omega arith)
push_columns-IsValid (x ∷ ps) (l ∷ ls) [] idx p q v b f = absurd (omega arith)
push_columns-IsValid (x ∷ ps) (l ∷ ls) (e ∷ es) idx p q v (c, b) f =
    let next : FileEventIndex = push idx x (sign_extend l) e in
    let (total, len) = push_lem idx x (sign_extend l) e (omega arith) in
    let (valid, t, n) =
      push_columns-IsValid ps ls es next (omega arith) (omega arith)
        (push-IsValid idx x (sign_extend l) e v c (omega arith)) b (omega arith) in
    (valid, omega arith, omega arith)

sum-le : (es : List ℕ) → All (λ e. e < 2 ^ 32) es → sum es ≤ length es * (2 ^ 32 - 1)
sum-le [] h = omega arith
sum-le (e ∷ es) (h, k) = omega (arith, sum-le es k)

-- The index that is read from a trailer is valid, keeps all rows and counts all events, for columns
-- of one length with at most 2^32 rows of `u32` counts.
pub from_columns-IsValid :
    (positions lengths entries : List ℕ)
    → length positions ≡ length lengths
    → length positions ≡ length entries
    → length entries ≤ 2 ^ 32
    → All (λ e. e < 2 ^ 32) entries
    → (idx : FileEventIndex) × (from_columns positions lengths entries ≡ ok idx)
      × IsValid idx
      × (idx.total_events ≡ sum entries)
      × (length idx.records ≡ length positions)
unfolding from_columns
from_columns-IsValid ps ls es p q small b =
    let (valid, total, len) =
      push_columns-IsValid ps ls es new p q new-IsValid b (omega (arith, sum-le es b)) in
    (push_columns new ps ls es, ground arith, valid, omega arith, omega arith)
