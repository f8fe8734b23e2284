-- ===== src/Read/Chain/Stream.antt =====
-- A loop over a chain goes over its files one after the other.
use mathlib.Core.Path.{subst}
use oxihipo.Prelude.{
  ℕ, zero, suc, ◌+◌, ◌≤◌, ◌≡◌, refl, sym, ap, ◌∙◌, ◌⊎◌, inl, inr, arith, true, false, List, [], ◌∷◌,
  ◌++◌, none, some, Option, length, get_elem?, drop, length-drop, Bytes, ok, ◌>>=◌, if◌then◌else◌,
}
use oxihipo.Record.Codec.{Backends}
use oxihipo.Read.Filter.{Filter}
use oxihipo.Read.Iter
use oxihipo.Read.Iter.{FileInner, SplitRecords, OwnedEvent, EventIter, event_bytes}
use oxihipo.Read.Iter.Stream.{Yields}
use oxihipo.Read.Chain.{
  Chain, ChainEventIter, events, Outcome, open_next, on_item, on_opened, round, next_from,
  next_result,
}

abbrev pub flat : List (List Bytes) → List Bytes
flat [] = []
flat (es ∷ ess) = es ++ flat ess

-- What stands at an index, and behind it.
drop-nil_at : {A : Type 0} (n : ℕ) (xs : List A) → drop n xs ≡ [] → get_elem? xs n ≡ none
drop-nil_at zero [] e = refl
drop-nil_at zero (x ∷ xs) e = cc e
drop-nil_at (suc n) [] e = refl
drop-nil_at (suc n) (x ∷ xs) e = drop-nil_at n xs e

drop-cons_at :
    {A : Type 0} (n : ℕ) (xs : List A) (y : A) (ys : List A)
    → drop n xs ≡ y ∷ ys
    → (get_elem? xs n ≡ some y) × (drop (suc n) xs ≡ ys)
drop-cons_at zero [] y ys e = cc e
drop-cons_at zero (x ∷ xs) y ys e = (cc e, cc e)
drop-cons_at (suc n) [] y ys e = cc e
drop-cons_at (suc n) (x ∷ xs) y ys e = drop-cons_at n xs y ys e

module _ (b : Backends) (split : SplitRecords) where
  -- The files open, each with an iterator that yields its events.
  unfoldable pub FilesYield :
      Option Filter → Option (List ℕ) → List FileInner → List (List Bytes) → Type 0
  FilesYield filter tags [] [] = Unit {0}
  FilesYield filter tags [] (es ∷ ess) = ⊥
  FilesYield filter tags (f ∷ fs) [] = ⊥
  FilesYield filter tags (f ∷ fs) (es ∷ ess) =
      ((it : EventIter) × (Iter.new f f.dict filter tags ≡ ok it) × Yields b split it es)
      × FilesYield filter tags fs ess

  -- The loop `for ev in chain.events()` yields events of these bytes, and then it ends.
  pub data ChainYields : ChainEventIter → List Bytes → Type 0 where
    ended : {it it' : ChainEventIter} → next_result b split it ≡ ok (none, it') → ChainYields it []
    yielded :
        {it it' : ChainEventIter} {event : OwnedEvent} {bytes : Bytes} {rest : List Bytes}
        → next_result b split it ≡ ok (some (ok event), it')
        → event_bytes b split event ≡ ok bytes
        → ChainYields it' rest
        → ChainYields it (bytes ∷ rest)

  -- The files that are still to be opened.
  record Unopened (it : ChainEventIter) (ks : List Bytes) : Type 0 where
    unfinished : it.finished ≡ false
    fs : List FileInner
    ess : List (List Bytes)
    at : drop it.next_file it.files ≡ fs
    yield : FilesYield it.filter it.record_tags fs ess
    all : ks ≡ flat ess

  -- An iterator that is still to yield the events `ks`.
  record Waiting (it : ChainEventIter) (ks : List Bytes) : Type 0 where
    es : List Bytes
    others : List Bytes
    unopened : Unopened it others
    current :
        ((it.current ≡ none) × (es ≡ []))
        ⊎ ((cur : EventIter) × (it.current ≡ some cur) × Yields b split cur es)
    every : ks ≡ es ++ others

  record Ends (ks : List Bytes) (r : Outcome) : Type 0 where
    nothing : ks ≡ []
    after : ChainEventIter
    result : r ≡ ok (none, after)

  record Gives (ks : List Bytes) (r : Outcome) : Type 0 where
    first : Bytes
    rest : List Bytes
    event : OwnedEvent
    after : ChainEventIter
    all : ks ≡ first ∷ rest
    result : r ≡ ok (some (ok event), after)
    bytes : event_bytes b split event ≡ ok first
    waiting : Waiting after rest

  abbrev on_file : ChainEventIter → EventIter → ChainEventIter
  on_file it cur = record it { current = some cur }

  abbrev next_at : ChainEventIter → EventIter → ChainEventIter
  next_at it iter = record it { next_file = it.next_file + 1; current = some iter }

  abbrev left_behind : ChainEventIter → ChainEventIter
  left_behind it = record it { current = none }

  -- The iterator of the current file, and what comes when it has ended.
  on_current :
      (again : ChainEventIter → Outcome) (it : ChainEventIter) (cur : EventIter)
      (es others : List Bytes)
      → Yields b split cur es
      → Unopened it others
      → (Ends others (again (left_behind it)) ⊎ Gives others (again (left_behind it)))
      → Ends (es ++ others) (Iter.next_result b split cur >>= on_item b split again it)
        ⊎ Gives (es ++ others) (Iter.next_result b split cur >>= on_item b split again it)
  unfolding on_item
  on_current again it cur es others (Yields.ended e) u more = rw e more
  on_current again it cur es others (Yields.yielded {it' = cur'} {bytes = k} {rest} e shown y) u
        more =
      inr (record {
        first = k;
        rest = rest ++ others;
        event = _;
        after = on_file it cur';
        all = refl;
        result = rw e refl;
        bytes = shown;
        waiting = record {
          es = rest;
          others = others;
          unopened = record {
            unfinished = u.unfinished;
            fs = u.fs;
            ess = u.ess;
            at = u.at;
            yield = u.yield;
            all = u.all;
          };
          current = inr (cur', refl, y);
          every = refl;
        };
      })

  between_files :
      (rounds : ℕ) (it : ChainEventIter) (fs : List FileInner) (ess : List (List Bytes))
      → length fs ≤ rounds
      → it.finished ≡ false
      → drop it.next_file it.files ≡ fs
      → FilesYield it.filter it.record_tags fs ess
      → Ends (flat ess) (round b split (next_from b split rounds) it none)
        ⊎ Gives (flat ess) (round b split (next_from b split rounds) it none)
  unfolding round open_next on_opened next_from FilesYield
  between_files rounds it [] [] f going at y = inl (record {
    nothing = refl;
    after = record it { finished = true };
    result = rw (drop-nil_at it.next_file it.files at) refl;
  })
  between_files rounds it [] (es ∷ ess) f going at y = elim y [ ]
  between_files rounds it (file ∷ fs) [] f going at y = elim y [ ]
  between_files zero it (file ∷ fs) (es ∷ ess) f going at y = absurd (omega arith)
  between_files (suc rounds) it (file ∷ fs) (es ∷ ess) f going at ((iter, made, here), later) =
      let (there, behind) = drop-cons_at it.next_file it.files file fs at in
      let next : drop (it.next_file + 1) it.files ≡ fs =
        ap (λ n. drop n it.files) {y = suc it.next_file} (omega arith) ∙ behind in
      rw (there, made)
        (on_current (next_from b split (suc rounds)) (next_at it iter) iter es (flat ess) here
          (record { unfinished = going; fs = fs; ess = ess; at = next; yield = later; all = refl })
          (between_files rounds (left_behind (next_at it iter)) fs ess (omega arith) going next
            later))

  next_from-Waiting :
      (rounds : ℕ) (it : ChainEventIter) (ks : List Bytes) (w : Waiting it ks)
      → length w.unopened.fs + 2 ≤ rounds
      → Ends ks (next_from b split rounds it) ⊎ Gives ks (next_from b split rounds it)
  unfolding next_from round
  next_from-Waiting zero it ks w f = absurd (omega arith)
  next_from-Waiting (suc zero) it ks w f = absurd (omega arith)
  next_from-Waiting (suc (suc rounds)) it ks w f =
      let u = w.unopened in
      let again = next_from b split (suc rounds) in
      subst
        (λ l.
          Ends l (round b split again it it.current) ⊎ Gives l (round b split again it it.current))
        (sym (w.every ∙ ap (λ x. w.es ++ x) u.all))
        (elim w.current [
          | inl (idle, empty) ↦
              subst
                (λ c.
                  Ends (w.es ++ flat u.ess) (round b split again it c)
                  ⊎ Gives (w.es ++ flat u.ess) (round b split again it c))
                (sym idle)
                (subst
                  (λ l.
                    Ends (l ++ flat u.ess) (round b split again it none)
                    ⊎ Gives (l ++ flat u.ess) (round b split again it none))
                  (sym empty)
                  (between_files (suc rounds) it u.fs u.ess (omega arith) u.unfinished u.at
                    u.yield))
          | inr (cur, busy, yields) ↦
              subst
                (λ c.
                  Ends (w.es ++ flat u.ess) (round b split again it c)
                  ⊎ Gives (w.es ++ flat u.ess) (round b split again it c))
                (sym busy)
                (on_current again it cur w.es (flat u.ess) yields
                  (record {
                    unfinished = u.unfinished;
                    fs = u.fs;
                    ess = u.ess;
                    at = u.at;
                    yield = u.yield;
                    all = refl;
                  })
                  (between_files rounds (left_behind it) u.fs u.ess (omega arith) u.unfinished u.at
                    u.yield))
        ])

  next_result-Waiting :
      (it : ChainEventIter) (ks : List Bytes)
      → Waiting it ks
      → Ends ks (next_result b split it) ⊎ Gives ks (next_result b split it)
  unfolding next_result
  next_result-Waiting it ks w =
      let more = next_from b split (suc (suc (length it.files))) it in
      subst
        (λ t.
          Ends ks (if t then ok (none, it) else more)
          ⊎ Gives ks (if t then ok (none, it) else more))
        (sym w.unopened.unfinished)
        (next_from-Waiting (suc (suc (length it.files))) it ks w
          (omega (arith, ap length w.unopened.at, length-drop it.next_file it.files)))

  Waiting-ChainYields : (ks : List Bytes) (it : ChainEventIter) → Waiting it ks → ChainYields it ks
  Waiting-ChainYields [] it w = elim (next_result-Waiting it [] w) [
    | inl x ↦ ended x.result
    | inr x ↦ cc (x.all)
  ]
  Waiting-ChainYields (k ∷ ks) it w = elim (next_result-Waiting it (k ∷ ks) w) [
    | inl x ↦ cc (x.nothing)
    | inr x ↦
        subst (λ f. ChainYields it (f ∷ ks)) (heads x.all)
          (yielded x.result x.bytes
            (Waiting-ChainYields ks x.after (subst (Waiting x.after) (tails x.all) x.waiting)))
  ]
    where
      heads : {a c : Bytes} {xs ys : List Bytes} → a ∷ xs ≡ c ∷ ys → c ≡ a
      heads e = cc e

      tails : {a c : Bytes} {xs ys : List Bytes} → a ∷ xs ≡ c ∷ ys → ys ≡ xs
      tails e = cc e

  -- A loop over a chain yields the events of its files one file after the other, and then ends, as a
  -- loop over each file alone does with the chain's filter and record tags: no event is lost or
  -- repeated where one file ends and the next begins, also when a file yields none.
  pub events-ChainYields :
      (c : Chain) (ess : List (List Bytes))
      → FilesYield c.filter c.record_tags c.files ess
      → ChainYields (events c) (flat ess)
  unfolding events
  events-ChainYields c ess y = Waiting-ChainYields (flat ess) (events c) (record {
    es = [];
    others = flat ess;
    unopened = record {
      unfinished = refl;
      fs = c.files;
      ess = ess;
      at = refl;
      yield = y;
      all = refl;
    };
    current = inl (refl, refl);
    every = refl;
  })
