-- ===== src/Wire/EventIndex/Locate.antt =====
-- `locate` finds the one record that holds an event.
use mathlib.Core.Option.{some-injective}
use mathlib.Core.Path.{ap₂}
use oxihipo.Prelude.{
  ℕ, zero, suc, ◌+◌, ◌-◌, ◌^◌, ◌≤◌, ◌<◌, ◌≡◌, refl, ap, ◌∙◌, arith, List, [], ◌∷◌, inl, inr, none,
  some, leb, get_elem?, ok, Bool-cases,
}
use oxihipo.Wire.EventIndex.{RecordSpan, FileEventIndex, partition_point, starts_by, locate}
use oxihipo.Wire.EventIndex.Invariant.{Covers, IsValid, Covers-total}

-- The record at `i` holds event `global`.
pub record Holds (rs : List RecordSpan) (i global : ℕ) (r : RecordSpan) : Type 0 where
  pub at : get_elem? rs i ≡ some r
  pub starts : r.first_event ≤ global
  pub ends : global < r.first_event + r.event_count

-- No later record starts by an event that lies before it.
partition_point_zero :
    (rs : List RecordSpan) (start total global : ℕ)
    → Covers start rs total
    → global < start
    → partition_point (starts_by global) rs ≡ 0
unfolding partition_point
partition_point_zero [] start total global h lt = refl
partition_point_zero (r ∷ rs) start total global h lt = ground arith

Holds-suc :
    (x : RecordSpan) (rs : List RecordSpan) (i global : ℕ) (r : RecordSpan)
    → Holds rs i global r
    → Holds (x ∷ rs) (suc i) global r
Holds-suc x rs i global r h = record { at = h.at; starts = h.starts; ends = h.ends }

partition_point-Holds :
    (rs : List RecordSpan) (start total global : ℕ)
    → Covers start rs total
    → start ≤ global
    → global < total
    → (i : ℕ) × (r : RecordSpan) × (partition_point (starts_by global) rs ≡ suc i)
      × Holds rs i global r
      × (r.event_count < 2 ^ 32)
unfolding partition_point
partition_point-Holds [] start total global h le lt = absurd (omega arith)
partition_point-Holds (x ∷ rs) start total global (a, b, h) le lt =
    elim (Bool-cases (leb (start + x.event_count) global)) [
      | inl later ↦
          let (i, r, p, holds, c) =
            partition_point-Holds rs (start + x.event_count) total global h (ground arith) lt in
          (suc i, r, ground arith, Holds-suc x rs i global r holds, c)
      | inr here ↦ (
        0,
        x,
        ground
            (arith, partition_point_zero rs (start + x.event_count) total global h (ground arith)),
        record { at = refl; starts = omega arith; ends = ground arith },
        b,
      )
    ]

-- On a valid index an event below the total is found: the answer is a record that holds it, and its
-- place in that record.
pub locate_found :
    (idx : FileEventIndex) (global : ℕ)
    → IsValid idx
    → global < idx.total_events
    → (i : ℕ) × (r : RecordSpan) × (locate idx global ≡ ok (some (i, global - r.first_event)))
      × Holds idx.records i global r
unfolding locate
locate_found idx global v lt =
    let (i, r, p, holds, c) =
      partition_point-Holds idx.records 0 idx.total_events global v.covers (omega arith) lt in
    (i, r, ground (arith, holds.at, holds.starts, holds.ends, v.fits), holds)

-- An event number past the end is answered with `None`, on every index.
pub locate_none :
    (idx : FileEventIndex) (global : ℕ) → idx.total_events ≤ global → locate idx global ≡ ok none
unfolding locate
locate_none idx global h = ground arith

Covers-bound :
    (rs : List RecordSpan) (start total i : ℕ) (r : RecordSpan)
    → Covers start rs total
    → get_elem? rs i ≡ some r
    → (start ≤ r.first_event) × (r.first_event + r.event_count ≤ total)
Covers-bound [] start total i r h e = cc
Covers-bound (x ∷ rs) start total zero r (a, b, h) e =
    ground (arith, Covers-total rs (start + x.event_count) total h)
Covers-bound (x ∷ rs) start total (suc i) r (a, b, h) e =
    let (lo, hi) = Covers-bound rs (start + x.event_count) total i r h e in (omega arith, hi)

first_excludes :
    (x : RecordSpan) (rs : List RecordSpan) (start total global j : ℕ) (r s : RecordSpan)
    → x.first_event ≡ start
    → Covers (start + x.event_count) rs total
    → Holds (x ∷ rs) 0 global r
    → Holds (x ∷ rs) (suc j) global s
    → ⊥
first_excludes x rs start total global j r s a c h k =
    let (lo, hi) = Covers-bound rs (start + x.event_count) total j s c k.at in
    let same : x ≡ r = some-injective x r h.at in
    omega (arith, k.starts, h.ends, ap (λ (t : RecordSpan). t.first_event + t.event_count) same)

-- Only one record holds an event.
Holds-unique :
    (rs : List RecordSpan) (start total global i j : ℕ) (r s : RecordSpan)
    → Covers start rs total
    → Holds rs i global r
    → Holds rs j global s
    → (i ≡ j) × (r ≡ s)
Holds-unique [] start total global i j r s c h k = cc (h.at)
Holds-unique (x ∷ rs) start total global zero zero r s c h k = (refl, cc (h.at, k.at))
Holds-unique (x ∷ rs) start total global zero (suc j) r s (a, b, c) h k =
    absurd (first_excludes x rs start total global j r s a c h k)
Holds-unique (x ∷ rs) start total global (suc i) zero r s (a, b, c) h k =
    absurd (first_excludes x rs start total global i s r a c k h)
Holds-unique (x ∷ rs) start total global (suc i) (suc j) r s (a, b, c) h k =
    let (e, f) = Holds-unique rs (start + x.event_count) total global i j r s c (tail h) (tail k) in
    (ap suc e, f)
  where
    tail : {n : ℕ} {t : RecordSpan} → Holds (x ∷ rs) (suc n) global t → Holds rs n global t
    tail h = record { at = h.at; starts = h.starts; ends = h.ends }

-- On a valid index the global number of event `local` of record `i`, one of the record's events, is
-- located as exactly that pair, whatever records without events lie between.
pub locate_at :
    (idx : FileEventIndex) (i local : ℕ) (r : RecordSpan)
    → IsValid idx
    → get_elem? idx.records i ≡ some r
    → local < r.event_count
    → locate idx (r.first_event + local) ≡ ok (some (i, local))
locate_at idx i local r v e lt =
    let (lo, hi) = Covers-bound idx.records 0 idx.total_events i r v.covers e in
    let (j, s, l, holds) = locate_found idx (r.first_event + local) v (omega arith) in
    let here : Holds idx.records i (r.first_event + local) r = record {
      at = e;
      starts = omega arith;
      ends = omega arith;
    } in
    let (same, same_span) =
      Holds-unique idx.records 0 idx.total_events (r.first_event + local) j i s r v.covers holds
        here in
    l
    ∙ ap₂ (λ a b. ok (some (a, b))) same
        (ap (λ (t : RecordSpan). r.first_event + local - t.first_event) same_span ∙ omega arith)
