-- ===== src/Read/Chain/Stale.antt =====
-- The cache of the last record over a file that changes.
use mathlib.Core.Option.{some-injective}
use oxihipo.Prelude.{
  ℕ, zero, suc, ◌+◌, ◌%◌, ◌-◌, ◌^◌, ◌≡◌, refl, sym, ap, ◌∙◌, arith, true, ◌&&◌, List, [], ◌∷◌, map,
  Option, none, some, ◌==◌, get_elem?, ok, >>=-eq-ok, ok-injective,
}
use oxihipo.Wire.EventIndex.{index, locate}
use oxihipo.Record.Codec.{Backends}
use oxihipo.Read.Inner.{ReadAt}
use oxihipo.Read.Iter.{FileInner, SplitRecords, OwnedEvent}
use oxihipo.Read.Chain.{
  CachedRecord, RecordCache, Chain, last_by, handed_out, hot, fetch, serve_fetched, serve,
  serve_located, event_of_file, event_in, event,
}
use oxihipo.Read.Chain.Cache.{with_cache}

-- A file, and a chain, whose bytes are others.
abbrev rewritten_file : (FileInner → ReadAt) → FileInner → FileInner
rewritten_file change inner = record inner { file = change inner }

abbrev pub rewritten : (FileInner → ReadAt) → Chain → Chain
rewritten change c = record c { files = map (rewritten_file change) c.files }

get_elem?-map :
    (change : FileInner → ReadAt) (xs : List FileInner) (i : ℕ) (x : FileInner)
    → get_elem? xs i ≡ some x
    → get_elem? (map (rewritten_file change) xs) i ≡ some (rewritten_file change x)
get_elem?-map change [] i x e = cc e
get_elem?-map change (y ∷ ys) zero x e =
    ap (λ z. some (rewritten_file change z)) (some-injective y x e)
get_elem?-map change (y ∷ ys) (suc i) x e = get_elem?-map change ys i x e

hot_entry :
    (fi ri : ℕ) (d : CachedRecord)
    → hot (some (record { file_idx = fi; rec_idx = ri; decoded = d })) fi ri ≡ some d
unfolding hot
hot_entry fi ri d = let same : (fi == fi && ri == ri) ≡ true = ground arith in rw same refl

module _ (b : Backends) (split : SplitRecords) where
  -- The record that an event came from is in the cache that the call leaves.
  record Cached (cache : Option RecordCache) (fi ri i : ℕ) (ev : OwnedEvent) : Type 0 where
    decoded : CachedRecord
    there : hot cache fi ri ≡ some decoded
    handed : handed_out decoded i ≡ ok (some ev)

  fetched-Cached :
      (fetched : Option CachedRecord) (old cache : Option RecordCache) (fi ri i : ℕ)
      (ev : OwnedEvent)
      → serve_fetched b split old fi ri i fetched ≡ ok (some ev, cache)
      → Cached cache fi ri i ev
  unfolding serve_fetched
  fetched-Cached none old cache fi ri i ev e = cc e
  fetched-Cached (some d) old cache fi ri i ev e =
      let (out, handed, last) = >>=-eq-ok (handed_out d i) _ e in
      let pair = ok-injective last in
      record {
        decoded = d;
        there = ap (λ x. hot x fi ri) (sym (ap (λ x. x.1) pair)) ∙ hot_entry fi ri d;
        handed = handed ∙ ap (λ x. ok (x.0)) pair;
      }

  serve-Cached :
      (c : Chain) (inner : FileInner) (fi ri i : ℕ) (ev : OwnedEvent) (cache : Option RecordCache)
      (h : Option CachedRecord)
      → hot c.record_cache fi ri ≡ h
      → serve b split h c inner fi ri i ≡ ok (some ev, cache)
      → Cached cache fi ri i ev
  unfolding serve
  serve-Cached c inner fi ri i ev cache none h e =
      let (span, _, fetching) = >>=-eq-ok (index inner.index.records ri) _ e in
      let (fetched, _, last) = >>=-eq-ok (fetch b split inner c.dict span) _ fetching in
      fetched-Cached fetched c.record_cache cache fi ri i ev last
  serve-Cached c inner fi ri i ev cache (some d) h e =
      let (out, handed, last) = >>=-eq-ok (handed_out d i) _ e in
      let pair = ok-injective last in
      record {
        decoded = d;
        there = ap (λ x. hot x fi ri) (sym (ap (λ x. x.1) pair)) ∙ h;
        handed = handed ∙ ap (λ x. ok (x.0)) pair;
      }

  located-again :
      (c c' : Chain) (inner inner' : FileInner) (fi : ℕ) (l : Option (ℕ × ℕ)) (ev : OwnedEvent)
      (cache : Option RecordCache)
      → c'.record_cache ≡ cache
      → serve_located b split c inner fi l ≡ ok (some ev, cache)
      → serve_located b split c' inner' fi l ≡ ok (some ev, cache)
  unfolding serve_located serve
  located-again c c' inner inner' fi none ev cache same e = cc e
  located-again c c' inner inner' fi (some (ri, i)) ev cache same e =
      let s = serve-Cached c inner fi ri i ev cache _ refl e in
      let there : hot c'.record_cache fi ri ≡ some s.decoded =
        ap (λ x. hot x fi ri) same ∙ s.there in
      rw (there, s.handed, same) refl

  file-again :
      (change : FileInner → ReadAt) (c : Chain) (idx fi : ℕ) (o : Option FileInner)
      (ev : OwnedEvent) (cache : Option RecordCache)
      → get_elem? c.files fi ≡ o
      → event_of_file b split c idx fi o ≡ ok (some ev, cache)
      → event_in b split (rewritten change (with_cache c cache)) idx (some fi) ≡ ok (some ev, cache)
  unfolding event_of_file event_in
  file-again change c idx fi none ev cache at e = cc e
  file-again change c idx fi (some inner) ev cache at e =
      let (start, starts, rest) = >>=-eq-ok (index c.file_event_offsets fi) _ e in
      let (l, found, last) =
        >>=-eq-ok (locate inner.index ((idx + 2 ^ 64 - start) % 2 ^ 64)) _ rest in
      rw (get_elem?-map change c.files fi inner at, starts, found)
        (located-again c (rewritten change (with_cache c cache)) inner (rewritten_file change inner)
          fi l ev cache refl last)

  found-again :
      (change : FileInner → ReadAt) (c : Chain) (idx : ℕ) (o : Option ℕ) (ev : OwnedEvent)
      (cache : Option RecordCache)
      → event_in b split c idx o ≡ ok (some ev, cache)
      → event_in b split (rewritten change (with_cache c cache)) idx o ≡ ok (some ev, cache)
  unfolding event_in
  found-again change c idx none ev cache e = cc e
  found-again change c idx (some fi) ev cache e =
      file-again change c idx fi (get_elem? c.files fi) ev cache refl e

  -- A call that gave an event gives it again from the cache it left, whatever bytes the files of the
  -- chain hold by then: what a chain writes to its files between the two calls, such as another tag of
  -- the event, does not show.
  pub event_stale :
      (change : FileInner → ReadAt) (c : Chain) (idx : ℕ) (ev : OwnedEvent)
      (cache : Option RecordCache)
      → event b split c idx ≡ ok (some ev, cache)
      → event b split (rewritten change (with_cache c cache)) idx ≡ ok (some ev, cache)
  unfolding event
  event_stale change c idx ev cache e =
      found-again change c idx (last_by idx c.file_event_offsets) ev cache e
