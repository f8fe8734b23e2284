-- ===== src/Read/Chain/Cache.antt =====
-- The cache of the last record changes no answer.
use mathlib.Core.Option.{some-injective}
use mathlib.Core.Path.{ap₂, subst}
use oxihipo.Prelude.{
  ℕ, ◌+◌, ◌-◌, ◌%◌, ◌^◌, ◌≡◌, refl, sym, ap, ◌∙◌, inl, inr, arith, ◌&&◌, List, Option, none, some,
  leb, ◌==◌, if◌then◌else◌, get_elem?, Result, ok, err, panic, ◌>>=◌, map_ok, >>=-eq-ok,
  ok-injective, Option-cases, Bool-cases,
}
use oxihipo.Wire.EventIndex.{RecordSpan, FileEventIndex, partition_point, starts_by, index, locate}
use oxihipo.Record.Codec.{Backends}
use oxihipo.Read.Iter.{FileInner, SplitRecords, OwnedEvent}
use oxihipo.Read.Chain.{
  CachedRecord, RecordCache, Chain, last_by, handed_out, hot, fetch, serve_fetched, serve,
  serve_located, event_of_file, event_in, event,
}

abbrev pub with_cache : Chain → Option RecordCache → Chain
with_cache c cache = record c { record_cache = cache }

abbrev pub answer {ℓ} : {A B : Type ℓ} → Result (A × B) → Result A
answer r = map_ok (λ x. x.0) r

hot-some :
    (cache : Option RecordCache) (fi ri : ℕ) (d : CachedRecord)
    → hot cache fi ri ≡ some d
    → (e : RecordCache) × (cache ≡ some e) × (e.file_idx ≡ fi) × (e.rec_idx ≡ ri) × (e.decoded ≡ d)
unfolding hot
hot-some none fi ri d h = cc h
hot-some (some e) fi ri d h = elim (Bool-cases (e.file_idx == fi && e.rec_idx == ri)) [
  | inl hit ↦ (
    e,
    refl,
    ground arith,
    ground arith,
    some-injective e.decoded d (sym (ap (λ t. if t then some e.decoded else none) hit) ∙ h),
  )
  | inr miss ↦
      let stop : none ≡ some d = sym (ap (λ t. if t then some e.decoded else none) miss) ∙ h in
      cc stop
]

index-ok : {A : Type 0} (xs : List A) (i : ℕ) (a : A) → index xs i ≡ ok a → get_elem? xs i ≡ some a
index-ok {A = A} xs i a e = from (get_elem? xs i) e
  where
    from : (o : Option A) → (elim o [ none ↦ panic | some x ↦ ok x ]) ≡ ok a → o ≡ some a
    from none h = cc h
    from (some x) h = ap some (ok-injective h)

pub index-some :
    {A : Type 0} (xs : List A) (i : ℕ) (a : A) → get_elem? xs i ≡ some a → index xs i ≡ ok a
index-some xs i a e = ap (λ o. elim o [ none ↦ panic | some x ↦ ok x ]) e

abbrev place_of : ℕ → Option (ℕ × ℕ) → ℕ
place_of other none = other
place_of other (some (i, l)) = i

-- A record that `locate` names is one of the index.
locate-some :
    (idx : FileEventIndex) (global i l : ℕ)
    → locate idx global ≡ ok (some (i, l))
    → (span : RecordSpan) × (get_elem? idx.records i ≡ some span)
unfolding locate
locate-some idx global i l e = elim (Bool-cases (leb idx.total_events global)) [
  | inl past ↦ let stop : locate idx global ≡ ok none = rw past refl in absurd (cc (stop, e))
  | inr there ↦
      let at : ℕ = partition_point (starts_by global) idx.records - 1 in
      let found : (do
        span ← index idx.records at
        ok (some (at, (global + 2 ^ 64 - span.first_event) % 2 ^ 64 % 2 ^ 32)))
          ≡ ok (some (i, l)) =
        sym (rw there refl) ∙ e in
      let (span, is_there, last) = >>=-eq-ok (index idx.records at) _ found in
      let same : at ≡ i = ap (place_of at) (ok-injective last) in
      (span, ap (get_elem? idx.records) (sym same) ∙ index-ok idx.records at span is_there)
]

module _ (b : Backends) (split : SplitRecords) where
  -- What the cache holds is what its record decodes to.
  unfoldable pub IsTrue : Chain → Type 0
  IsTrue c =
      (e : RecordCache) (inner : FileInner) (span : RecordSpan)
      → c.record_cache ≡ some e
      → get_elem? c.files e.file_idx ≡ some inner
      → get_elem? inner.index.records e.rec_idx ≡ some span
      → fetch b split inner c.dict span ≡ ok (some e.decoded)

  -- An outcome with the cache, and without.
  record Agrees (c : Chain) (warm cold : Result (Option OwnedEvent × Option RecordCache))
      : Type 0 where
    same : answer warm ≡ answer cold
    still :
        (ev : Option OwnedEvent) (cache : Option RecordCache)
        → warm ≡ ok (ev, cache)
        → IsTrue (with_cache c cache)

  kept :
      (c : Chain) (ev : Option OwnedEvent)
      → IsTrue c
      → Agrees c (ok (ev, c.record_cache)) (ok (ev, none))
  unfolding IsTrue
  kept c ev t = record {
    same = refl;
    still = λ ev' cache e. subst (λ x. IsTrue (with_cache c x)) (ap (λ x. x.1) (ok-injective e)) t;
  }

  -- An event that is handed out, with one cache or another.
  either :
      (c : Chain) (r : Result (Option OwnedEvent)) (x y : Option RecordCache)
      → IsTrue (with_cache c x)
      → Agrees c (r >>= λ ev. ok (ev, x)) (r >>= λ ev. ok (ev, y))
  unfolding IsTrue
  either c (ok a) x y t = record {
    same = refl;
    still = λ ev cache e. subst (λ z. IsTrue (with_cache c z)) (ap (λ q. q.1) (ok-injective e)) t;
  }
  either c (err p) x y t = record { same = refl; still = λ ev cache e. cc e }
  either c panic x y t = record { same = refl; still = λ ev cache e. cc e }

  abbrev entry : ℕ → ℕ → CachedRecord → RecordCache
  entry fi ri d = record { file_idx = fi; rec_idx = ri; decoded = d }

  -- A record that was fetched may be cached.
  fetched-IsTrue :
      (c : Chain) (inner : FileInner) (span : RecordSpan) (fi ri : ℕ) (d : CachedRecord)
      → get_elem? c.files fi ≡ some inner
      → get_elem? inner.index.records ri ≡ some span
      → fetch b split inner c.dict span ≡ ok (some d)
      → IsTrue (with_cache c (some (entry fi ri d)))
  unfolding IsTrue
  fetched-IsTrue c inner span fi ri d file there fetched = λ e inner' span' same file' there'.
      let place : entry fi ri d ≡ e = some-injective (entry fi ri d) e same in
      subst
        (λ (x : RecordCache).
          get_elem? c.files x.file_idx ≡ some inner'
          → get_elem? inner'.index.records x.rec_idx ≡ some span'
          → fetch b split inner' c.dict span' ≡ ok (some x.decoded))
        place
        (λ f r.
          let inners : inner ≡ inner' = some-injective inner inner' (sym file ∙ f) in
          let spans : span ≡ span' =
            some-injective span span'
              (sym there ∙ ap (λ (x : FileInner). get_elem? x.index.records ri) inners ∙ r) in
          ap₂ (λ x y. fetch b split x c.dict y) (sym inners) (sym spans) ∙ fetched)
        file' there'

  on_fetch :
      (c : Chain) (inner : FileInner) (span : RecordSpan) (fi ri i : ℕ)
      → IsTrue c
      → get_elem? c.files fi ≡ some inner
      → get_elem? inner.index.records ri ≡ some span
      → (r : Result (Option CachedRecord)) → fetch b split inner c.dict span ≡ r
      → Agrees c
          (r >>= serve_fetched b split c.record_cache fi ri i)
          (r >>= serve_fetched b split none fi ri i)
  unfolding serve_fetched
  on_fetch c inner span fi ri i t file there (ok none) e = kept c none t
  on_fetch c inner span fi ri i t file there (ok (some d)) e =
      either c (handed_out d i) (some (entry fi ri d)) (some (entry fi ri d))
        (fetched-IsTrue c inner span fi ri d file there e)
  on_fetch c inner span fi ri i t file there (err p) e = record {
    same = refl;
    still = λ ev cache q. cc q;
  }
  on_fetch c inner span fi ri i t file there panic e = record {
    same = refl;
    still = λ ev cache q. cc q;
  }

  serve-Agrees :
      (c : Chain) (inner : FileInner) (span : RecordSpan) (fi ri i : ℕ)
      → IsTrue c
      → get_elem? c.files fi ≡ some inner
      → get_elem? inner.index.records ri ≡ some span
      → Agrees c
          (serve b split (hot c.record_cache fi ri) c inner fi ri i)
          (serve b split none (with_cache c none) inner fi ri i)
  unfolding serve serve_fetched IsTrue
  serve-Agrees c inner span fi ri i t file there = elim (Option-cases (hot c.record_cache fi ri)) [
    | inr (d, h) ↦
        let (e, cached, at_file, at_record, same) = hot-some c.record_cache fi ri d h in
        let fetched : fetch b split inner c.dict span ≡ ok (some d) =
          t e inner span cached (ap (get_elem? c.files) at_file ∙ file)
            (ap (get_elem? inner.index.records) at_record ∙ there)
          ∙ ap (λ x. ok (some x)) same in
        rw (h, serve, index-some inner.index.records ri span there, fetched)
          (either c (handed_out d i) c.record_cache (some (entry fi ri d)) t)
    | inl miss ↦
        rw (miss, serve, index-some inner.index.records ri span there)
          (on_fetch c inner span fi ri i t file there (fetch b split inner c.dict span) refl)
  ]

  serve_located-Agrees :
      (c : Chain) (inner : FileInner) (fi : ℕ) (located : Option (ℕ × ℕ)) (local : ℕ)
      → IsTrue c
      → get_elem? c.files fi ≡ some inner
      → locate inner.index local ≡ ok located
      → Agrees c
          (serve_located b split c inner fi located)
          (serve_located b split (with_cache c none) inner fi located)
  unfolding serve_located hot
  serve_located-Agrees c inner fi none local t file e = kept c none t
  serve_located-Agrees c inner fi (some (ri, i)) local t file e =
      let (span, there) = locate-some inner.index local ri i e in
      serve-Agrees c inner span fi ri i t file there

  event_in-Agrees :
      (c : Chain) (idx : ℕ) (found : Option ℕ)
      → IsTrue c
      → Agrees c (event_in b split c idx found) (event_in b split (with_cache c none) idx found)
  unfolding event_in event_of_file
  event_in-Agrees c idx none t = kept c none t
  event_in-Agrees c idx (some fi) t = opened (get_elem? c.files fi) refl
    where
      located :
          (inner : FileInner)
          → get_elem? c.files fi ≡ some inner
          → (local : ℕ) → (r : Result (Option (ℕ × ℕ))) → locate inner.index local ≡ r
          → Agrees c
              (r >>= serve_located b split c inner fi)
              (r >>= serve_located b split (with_cache c none) inner fi)
      located inner file local (ok x) e = serve_located-Agrees c inner fi x local t file e
      located inner file local (err p) e = record { same = refl; still = λ ev cache q. cc q }
      located inner file local panic e = record { same = refl; still = λ ev cache q. cc q }

      from :
          (inner : FileInner)
          → get_elem? c.files fi ≡ some inner
          → (r : Result ℕ)
          → Agrees c
              (r >>= λ start.
                locate inner.index ((idx + 2 ^ 64 - start) % 2 ^ 64)
                >>= serve_located b split c inner fi)
              (r >>= λ start.
                locate inner.index ((idx + 2 ^ 64 - start) % 2 ^ 64)
                >>= serve_located b split (with_cache c none) inner fi)
      from inner file (ok start) = located inner file ((idx + 2 ^ 64 - start) % 2 ^ 64) _ refl
      from inner file (err p) = record { same = refl; still = λ ev cache q. cc q }
      from inner file panic = record { same = refl; still = λ ev cache q. cc q }

      opened :
          (o : Option FileInner)
          → get_elem? c.files fi ≡ o
          → Agrees c
              (event_of_file b split c idx fi o)
              (event_of_file b split (with_cache c none) idx fi o)
      opened none e = kept c none t
      opened (some inner) e = from inner e (index c.file_event_offsets fi)

  -- Random access gives the same answer with a warm cache as with an empty one, for every chain, event
  -- number and cache that holds what its record decodes to in the files as they are; and the cache that
  -- the call leaves holds that again. So no sequence of these calls makes the cache show, as long as
  -- the files do not change: a change of a cached record breaks the condition.
  pub event-with_cache :
      (c : Chain) (idx : ℕ)
      → IsTrue c
      → (answer (event b split c idx) ≡ answer (event b split (with_cache c none) idx))
        × ((ev : Option OwnedEvent) (cache : Option RecordCache)
            → event b split c idx ≡ ok (ev, cache)
            → IsTrue (with_cache c cache))
  unfolding event
  event-with_cache c idx t =
      let a = event_in-Agrees c idx (last_by idx c.file_event_offsets) t in (a.same, a.still)
