-- ===== src/Read/Iter/Stream.antt =====
-- What the iterator yields over a file that a writer made.
use mathlib.Core.Path.{subst}
use oxihipo.Prelude.{
  ℕ, zero, suc, ◌-◌, ◌≤◌, ◌<◌, ◌≡◌, refl, sym, ap, ◌∙◌, ◌⊎◌, inl, inr, arith, true, false, List, [],
  ◌∷◌, ◌++◌, none, some, Option, length, Bytes, Result, ok, ◌>>=◌, if◌then◌else◌,
}
use oxihipo.Wire.EventIndex.{RecordSpan}
use oxihipo.Record.Codec.{Backends}
use oxihipo.Write.Writer.Tracks.{Item}
use oxihipo.Read.Iter.{
  SplitRecords, OwnedEvent, EventIter, event_count, event_bytes, on_found, on_advance,
  advance_record, next_in_record, next_from, next_result,
}
use oxihipo.Read.Iter.Load.{Left}
use oxihipo.Read.Iter.Rounds.{Kept, HandsOut, moved_to, next_in_record-Kept}
use oxihipo.Read.Iter.Ahead.{Ahead, KeptItems, advance_over-Ahead}

module _ (b : Backends) (split : SplitRecords) where
  -- An iterator that is still to yield the events `ks`.
  pub record Standing (it : EventIter) (ks : List Bytes) : Type 0 where
    pub unfinished : it.finished ≡ false
    pub es : List Bytes
    pub these : List Bytes
    pub others : List Bytes
    pub spans : List RecordSpan
    pub items : List Item
    pub left : Left it.cur it.next_event es
    pub these_kept : Kept it.filter es these
    pub ahead : Ahead b it.inner it.next_record spans items
    pub others_kept : KeptItems it.filter it.record_tags items others
    pub all : ks ≡ these ++ others
    pub few : length items ≤ length it.inner.index.records

  -- The outcome of a call: the end, or the next event.
  record Ends (ks : List Bytes) (r : Result (Option (Result OwnedEvent) × EventIter)) : Type 0 where
    nothing : ks ≡ []
    after : EventIter
    result : r ≡ ok (none, after)

  record Gives (ks : List Bytes) (r : Result (Option (Result OwnedEvent) × EventIter))
      : Type 0 where
    first : Bytes
    rest : List Bytes
    event : OwnedEvent
    after : EventIter
    all : ks ≡ first ∷ rest
    result : r ≡ ok (some (ok event), after)
    bytes : event_bytes b split event ≡ ok first
    standing : Standing after rest

  on_found-HandsOut :
      (it : EventIter) (ks : List Bytes) (s : Standing it ks)
      (again : EventIter → Result (Option (Result OwnedEvent) × EventIter))
      (r : Result (Option OwnedEvent × EventIter))
      → HandsOut b split it s.these r
      → Gives ks (r >>= on_found b split again)
  unfolding on_found
  on_found-HandsOut it ks s again r x = record {
    first = x.first;
    rest = x.others ++ s.others;
    event = x.event;
    after = moved_to it x.at;
    all = s.all ∙ ap (λ l. l ++ s.others) x.all;
    result = ap (λ q. q >>= on_found b split again) x.result;
    bytes = x.bytes;
    standing = record {
      unfinished = s.unfinished;
      es = x.left;
      these = x.others;
      others = s.others;
      spans = s.spans;
      items = s.items;
      left = x.to_come;
      these_kept = x.others_kept;
      ahead = s.ahead;
      others_kept = s.others_kept;
      all = refl;
      few = s.few;
    };
  }

  next_from-Standing :
      (rounds : ℕ) (it : EventIter) (ks : List Bytes) (s : Standing it ks)
      → length s.items < rounds
      → Ends ks (next_from b split rounds it) ⊎ Gives ks (next_from b split rounds it)
  unfolding next_from on_found on_advance advance_record
  next_from-Standing zero it ks s f = absurd (omega arith)
  next_from-Standing (suc rounds) it ks s f =
      let count : event_count it.cur - it.next_event ≡ length s.es = omega (arith, s.left.count) in
      elim (next_in_record-Kept b split it s.es s.these s.left s.these_kept) [
        | inr x ↦ inr (
            subst
              (λ n.
                Gives ks
                  (next_in_record b split n it >>= on_found b split (next_from b split rounds)))
              (sym count) (on_found-HandsOut it ks s (next_from b split rounds) _ x))
        | inl x ↦
            let it' : EventIter = moved_to it x.at in
            let now : ks ≡ s.others = s.all ∙ ap (λ l. l ++ s.others) x.nothing_kept in
            elim (advance_over-Ahead b split it' s.spans s.items s.others s.ahead s.others_kept) [
              | inl y ↦ inl (record {
                nothing = now ∙ y.nothing_kept;
                after = record it { next_event = x.at; next_record = y.number; finished = true };
                result = rw (count, x.result, s.ahead.at, y.result) refl;
              })
              | inr y ↦
                  let it'' : EventIter = record it {
                    next_event = 0;
                    cur = y.cur;
                    next_record = y.number;
                  } in
                  let s' : Standing it'' s.others = record {
                    unfinished = s.unfinished;
                    es = y.chunk;
                    these = y.these;
                    others = y.others;
                    spans = y.spans;
                    items = y.items;
                    left = y.left;
                    these_kept = y.these_kept;
                    ahead = y.ahead;
                    others_kept = y.others_kept;
                    all = y.all;
                    few = omega (arith, y.fewer, s.few);
                  } in
                  subst (λ r. Ends ks r ⊎ Gives ks r)
                    (sym (rw (count, x.result, s.ahead.at, y.result) refl))
                    (subst
                      (λ l.
                        Ends l (next_from b split rounds it'')
                        ⊎ Gives l (next_from b split rounds it''))
                      (sym now)
                      (next_from-Standing rounds it'' s.others s' (omega (arith, y.fewer))))
            ]
      ]

  -- The loop `for ev in iter` yields events of these bytes, and then it ends.
  pub data Yields : EventIter → List Bytes → Type 0 where
    ended : {it it' : EventIter} → next_result b split it ≡ ok (none, it') → Yields it []
    yielded :
        {it it' : EventIter} {event : OwnedEvent} {bytes : Bytes} {rest : List Bytes}
        → next_result b split it ≡ ok (some (ok event), it')
        → event_bytes b split event ≡ ok bytes
        → Yields it' rest
        → Yields it (bytes ∷ rest)

  next_result-Standing :
      (it : EventIter) (ks : List Bytes)
      → Standing it ks
      → Ends ks (next_result b split it) ⊎ Gives ks (next_result b split it)
  unfolding next_result
  next_result-Standing it ks s =
      let more = next_from b split (suc (length it.inner.index.records)) it in
      subst
        (λ t.
          Ends ks (if t then ok (none, it) else more)
          ⊎ Gives ks (if t then ok (none, it) else more))
        (sym s.unfinished)
        (next_from-Standing (suc (length it.inner.index.records)) it ks s (omega (arith, s.few)))

  pub Standing-Yields : (ks : List Bytes) (it : EventIter) → Standing it ks → Yields it ks
  Standing-Yields [] it s = elim (next_result-Standing it [] s) [
    | inl x ↦ ended x.result
    | inr x ↦ cc (x.all)
  ]
  Standing-Yields (k ∷ ks) it s = elim (next_result-Standing it (k ∷ ks) s) [
    | inl x ↦ cc (x.nothing)
    | inr x ↦
        subst (λ f. Yields it (f ∷ ks)) (heads x.all)
          (yielded x.result x.bytes
            (Standing-Yields ks x.after (subst (Standing x.after) (tails x.all) x.standing)))
  ]
    where
      heads : {a c : Bytes} {xs ys : List Bytes} → a ∷ xs ≡ c ∷ ys → c ≡ a
      heads e = cc e

      tails : {a c : Bytes} {xs ys : List Bytes} → a ∷ xs ≡ c ∷ ys → ys ≡ xs
      tails e = cc e
