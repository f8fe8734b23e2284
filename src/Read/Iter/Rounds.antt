-- ===== src/Read/Iter/Rounds.antt =====
-- The rounds of the iterator inside a record, and over the records.
use mathlib.Core.Path.{subst}
use oxihipo.Prelude.{
  ℕ, suc, ◌+◌, ◌%◌, ◌^◌, ◌≡◌, refl, ap, ◌∙◌, ◌⊎◌, inl, inr, arith, Bool, true, false, List, [], ◌∷◌,
  none, some, Option, length, Bytes, Result, ok, if◌then◌else◌, ok-injective,
}
use oxihipo.Record.Codec.{Backends}
use oxihipo.Read.Filter.{Filter, check}
use oxihipo.Read.Iter.{
  CurrentRecord, SplitRecords, OwnedEvent, EventIter, event_bytes, event_of, next_in_record,
}
use oxihipo.Read.Iter.Load.{Shows, Left}

-- The filter's answer on an event, `true` where there is no filter.
unfoldable pub passes : Option Filter → Bytes → Result Bool
passes none ev = ok true
passes (some f) ev = check f ev

-- The events of a list that pass the filter.
pub data Kept (filter : Option Filter) : List Bytes → List Bytes → Type 0 where
  none_left : Kept filter [] []
  kept :
      {ev : Bytes} {evs ks : List Bytes}
      → passes filter ev ≡ ok true
      → Kept filter evs ks
      → Kept filter (ev ∷ evs) (ev ∷ ks)
  dropped :
      {ev : Bytes} {evs ks : List Bytes}
      → passes filter ev ≡ ok false
      → Kept filter evs ks
      → Kept filter (ev ∷ evs) ks

abbrev pub moved_to : EventIter → ℕ → EventIter
moved_to it j = record it { next_event = j }

Left-next :
    {cur : CurrentRecord} {j : ℕ} {ev : Bytes} {es : List Bytes}
    → Left cur j (ev ∷ es)
    → Left cur (j + 1) es
Left-next {cur} {j} l = record {
  count = omega (arith, l.count);
  shows = λ i ev e.
      subst (λ k. Shows cur k ev) {x = j + suc i} {y = j + 1 + i} (omega arith)
        (l.shows (suc i) ev e);
}

module _ (b : Backends) (split : SplitRecords) where
  -- An event that the current record shows is tested, and handed out where it passes.
  event_of-Shows :
      (filter : Option Filter) (cur : CurrentRecord) (j : ℕ) (ev : Bytes) (t : Bool)
      → Shows cur j ev
      → passes filter ev ≡ ok t
      → (o : OwnedEvent) × (event_of b split filter cur j ≡ ok (if t then some o else none))
        × (event_bytes b split o ≡ ok ev)
  unfolding event_of event_bytes passes
  event_of-Shows none cur j ev t s p = (
    OwnedEvent.in_payload s.payload ((s.data_start + s.lo) % 2 ^ 32)
        ((s.data_start + s.hi) % 2 ^ 32),
    ap (λ c. event_of b split none c j) s.is_bytes
        ∙ rw (s.first, s.second)
            (ap
              (λ x. ok (
                if x
                then some (
                    OwnedEvent.in_payload s.payload ((s.data_start + s.lo) % 2 ^ 32)
                      ((s.data_start + s.hi) % 2 ^ 32))
                else none))
              (ok-injective p)),
    s.cut,
  )
  event_of-Shows (some f) cur j ev t s p = (
    OwnedEvent.in_payload s.payload ((s.data_start + s.lo) % 2 ^ 32)
        ((s.data_start + s.hi) % 2 ^ 32),
    ap (λ c. event_of b split (some f) c j) s.is_bytes ∙ rw (s.first, s.second, s.cut, p) refl,
    s.cut,
  )

  -- The current record has no event left that passes.
  pub record Exhausted (it : EventIter) (ks : List Bytes)
      (r : Result (Option OwnedEvent × EventIter)) : Type 0 where
    pub nothing_kept : ks ≡ []
    pub at : ℕ
    pub result : r ≡ ok (none, moved_to it at)

  -- The next event that passes is handed out.
  pub record HandsOut (it : EventIter) (ks : List Bytes)
      (r : Result (Option OwnedEvent × EventIter)) : Type 0 where
    pub first : Bytes
    pub others : List Bytes
    pub left : List Bytes
    pub at : ℕ
    pub event : OwnedEvent
    pub all : ks ≡ first ∷ others
    pub result : r ≡ ok (some event, moved_to it at)
    pub bytes : event_bytes b split event ≡ ok first
    pub to_come : Left it.cur at left
    pub others_kept : Kept it.filter left others

  pub next_in_record-Kept :
      (it : EventIter) (es ks : List Bytes)
      → Left it.cur it.next_event es
      → Kept it.filter es ks
      → Exhausted it ks (next_in_record b split (length es) it)
        ⊎ HandsOut it ks (next_in_record b split (length es) it)
  unfolding next_in_record
  next_in_record-Kept it [] ks l none_left =
      inl (record { nothing_kept = refl; at = it.next_event; result = refl })
  next_in_record-Kept it (ev ∷ es) ks l (kept {ks = others} p k) =
      let here : Shows it.cur it.next_event ev =
        subst (λ k. Shows it.cur k ev) {x = it.next_event + 0} {y = it.next_event} (omega arith)
          (l.shows 0 ev refl) in
      let (o, found, bytes) = event_of-Shows it.filter it.cur it.next_event ev true here p in
      inr (record {
        first = ev;
        others = others;
        left = es;
        at = it.next_event + 1;
        event = o;
        all = refl;
        result = rw found refl;
        bytes = bytes;
        to_come = Left-next l;
        others_kept = k;
      })
  next_in_record-Kept it (ev ∷ es) ks l (dropped p k) =
      let here : Shows it.cur it.next_event ev =
        subst (λ k. Shows it.cur k ev) {x = it.next_event + 0} {y = it.next_event} (omega arith)
          (l.shows 0 ev refl) in
      let (o, found, bytes) = event_of-Shows it.filter it.cur it.next_event ev false here p in
      elim (next_in_record-Kept (moved_to it (it.next_event + 1)) es ks (Left-next l) k) [
        | inl x ↦
            inl (record { nothing_kept = x.nothing_kept; at = x.at; result = rw found x.result })
        | inr x ↦ inr (record {
          first = x.first;
          others = x.others;
          left = x.left;
          at = x.at;
          event = x.event;
          all = x.all;
          result = rw found x.result;
          bytes = x.bytes;
          to_come = x.to_come;
          others_kept = x.others_kept;
        })
      ]
