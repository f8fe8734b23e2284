-- ===== src/Read/Iter/Ahead.antt =====
-- The records that lie ahead of the iterator, and the advance to the next one it wants.
use mathlib.Core.List.{append_assoc}
use mathlib.Core.Path.{subst}
use oxihipo.Prelude.{
  ℕ, ◌+◌, ◌^◌, ◌≤◌, ◌<◌, ◌≡◌, refl, sym, ap, ◌∙◌, ◌⊎◌, inl, inr, arith, Bool, true, false, List, [],
  ◌∷◌, ◌++◌, none, some, Option, length, drop, drop-drop, Bytes, Result, ok, length-append,
}
use oxihipo.Wire.EventIndex.{RecordSpan}
use oxihipo.Schema.Dict.{Dict}
use oxihipo.Record.Codec.{Backends}
use oxihipo.Write.Writer.Tracks.{Item, bytes_of}
use oxihipo.Read.Filter.{Filter, contains}
use oxihipo.Read.Inner.{Serves, read_record_header}
use oxihipo.Read.Inner.Sound.{Readable, AllPlaced}
use oxihipo.Read.Inner.Scan.{is_past-inside, read_header}
use oxihipo.Read.Inner.Finished.{read_record_into-Readable}
use oxihipo.Read.Located.{locate}
use oxihipo.Read.Iter.{
  FileInner, CurrentRecord, SplitRecords, EventIter, is_wanted, load_record, advance_over,
}
use oxihipo.Read.Iter.Load.{Left, decode_current-Readable}
use oxihipo.Read.Iter.Rounds.{Kept}

-- The spans of a run of records, from an offset on.
abbrev pub SpansOf : ℕ → List RecordSpan → List Item → Type 0
SpansOf pos [] [] = Unit {0}
SpansOf pos [] (i ∷ is) = ⊥
SpansOf pos (s ∷ ss) [] = ⊥
SpansOf pos (s ∷ ss) (i ∷ is) = (s.file_offset ≡ pos) × SpansOf (pos + length i.bytes) ss is

-- The record tags that are wanted; all records, where there are none.
unfoldable pub is_selected : Option (List ℕ) → Item → Bool
is_selected none i = true
is_selected (some tags) i = contains tags i.user_word_1

-- The events of a run of records that the tags and the filter leave.
pub data KeptItems (filter : Option Filter) (tags : Option (List ℕ))
    : List Item → List Bytes → Type 0 where
  none_left : KeptItems filter tags [] []
  selected :
      {i : Item} {is : List Item} {ks others : List Bytes}
      → is_selected tags i ≡ true
      → Kept filter i.chunk ks
      → KeptItems filter tags is others
      → KeptItems filter tags (i ∷ is) (ks ++ others)
  skipped :
      {i : Item} {is : List Item} {ks : List Bytes}
      → is_selected tags i ≡ false
      → KeptItems filter tags is ks
      → KeptItems filter tags (i ∷ is) ks

-- The records from the one of a number on stand in the file where the index says.
pub record Ahead (b : Backends) (inner : FileInner) (n : ℕ) (spans : List RecordSpan)
    (is : List Item) : Type 0 where
  pub pre : Bytes
  pub post : Bytes
  pub at : drop n inner.index.records ≡ spans
  pub covers : SpansOf (length pre) spans is
  pub serves : Serves inner.file (pre ++ (bytes_of is ++ post))
  pub len : inner.len ≡ length (pre ++ (bytes_of is ++ post))
  pub small : inner.len < 2 ^ 63
  pub placed : AllPlaced b (length pre) is

Ahead-next :
    {b : Backends} {inner : FileInner} {n : ℕ} {s : RecordSpan} {spans : List RecordSpan} {i : Item}
    {is : List Item}
    → Ahead b inner n (s ∷ spans) (i ∷ is)
    → Ahead b inner (n + 1) spans is
Ahead-next {b} {inner} {n} {s} {spans} {i} {is} a =
    let whole : a.pre ++ (bytes_of (i ∷ is) ++ a.post)
        ≡ (a.pre ++ i.bytes) ++ (bytes_of is ++ a.post) =
      simp append_assoc in
    let place : length a.pre + length i.bytes ≡ length (a.pre ++ i.bytes) =
      sym (length-append a.pre i.bytes) in
    record {
      pre = a.pre ++ i.bytes;
      post = a.post;
      at = sym (drop-drop 1 n inner.index.records) ∙ ap (drop 1) a.at;
      covers = subst (λ k. SpansOf k spans is) place a.covers.1;
      serves = subst (Serves inner.file) whole a.serves;
      len = a.len ∙ ap length whole;
      small = a.small;
      placed = subst (λ k. AllPlaced b k is) place a.placed.1;
    }

module _ (b : Backends) (split : SplitRecords) where
  read_record_header-Ahead :
      {inner : FileInner} {n : ℕ} {s : RecordSpan} {spans : List RecordSpan} {i : Item}
      {is : List Item} (a : Ahead b inner n (s ∷ spans) (i ∷ is))
      → read_record_header inner.file inner.len s.file_offset ≡ ok a.placed.0.readable.header
  unfolding read_record_header
  read_record_header-Ahead {inner} {n} {s} {spans} {i} {is} a =
      let r : Readable b i.bytes i.chunk = a.placed.0.readable in
      let rest : Bytes = bytes_of is ++ a.post in
      let whole : a.pre ++ (bytes_of (i ∷ is) ++ a.post) ≡ a.pre ++ (i.bytes ++ rest) =
        simp append_assoc in
      let room : length a.pre + 56 ≤ inner.len = omega (
        arith,
        a.len,
        ap length whole,
        length-append a.pre (i.bytes ++ rest),
        length-append i.bytes rest,
        r.long,
      ) in
      ap (read_record_header inner.file inner.len) a.covers.0
      ∙ rw
          (
            is_past-inside inner.file inner.len (length a.pre) room a.small,
            read_header inner.file a.pre i.bytes rest (length a.pre)
                (subst (Serves inner.file) whole a.serves) r.long refl,
          )
          r.parsed

  is_wanted-Ahead :
      {inner : FileInner} {n : ℕ} {s : RecordSpan} {spans : List RecordSpan} {i : Item}
      {is : List Item} (tags : Option (List ℕ))
      → Ahead b inner n (s ∷ spans) (i ∷ is)
      → is_wanted b split inner tags s ≡ ok (is_selected tags i)
  unfolding is_wanted is_selected locate
  is_wanted-Ahead none a = refl
  is_wanted-Ahead (some tags) a =
      rw (read_record_header-Ahead a) (ap (λ w. ok (contains tags w)) a.placed.0.tagged)

  load_record-Ahead :
      {inner : FileInner} {n : ℕ} {s : RecordSpan} {spans : List RecordSpan} {i : Item}
      {is : List Item} (d : Dict) (a : Ahead b inner n (s ∷ spans) (i ∷ is))
      → (cur : CurrentRecord) × (load_record b split inner d s ≡ ok cur) × Left cur 0 i.chunk
  unfolding load_record locate
  load_record-Ahead {inner} {n} {s} {spans} {i} {is} d a =
      let r : Readable b i.bytes i.chunk = a.placed.0.readable in
      let rest : Bytes = bytes_of is ++ a.post in
      let whole : a.pre ++ (bytes_of (i ∷ is) ++ a.post) ≡ a.pre ++ (i.bytes ++ rest) =
        simp append_assoc in
      let read =
        read_record_into-Readable inner.file inner.len b a.pre i.bytes rest i.chunk
          (subst (Serves inner.file) whole a.serves) (a.len ∙ ap length whole) a.small r in
      let (cur, decoded, left) =
        decode_current-Readable b split i.bytes i.chunk d r a.placed.0.few in
      (cur, rw (a.covers.0, read, decoded) refl, left)

  -- The iterator has come to the end of the records.
  pub record AtEnd (it : EventIter) (ks : List Bytes) (r : Result (Bool × EventIter)) : Type 0 where
    pub nothing_kept : ks ≡ []
    pub number : ℕ
    pub result : r ≡ ok (false, record it { next_record = number })

  -- The iterator stands at the start of a record that is wanted.
  pub record AtRecord (it : EventIter) (is : List Item) (ks : List Bytes)
      (r : Result (Bool × EventIter)) : Type 0 where
    pub number : ℕ
    pub cur : CurrentRecord
    pub chunk : List Bytes
    pub spans : List RecordSpan
    pub items : List Item
    pub these : List Bytes
    pub others : List Bytes
    pub result : r ≡ ok (true, record it { cur = cur; next_record = number; next_event = 0 })
    pub left : Left cur 0 chunk
    pub ahead : Ahead b it.inner number spans items
    pub these_kept : Kept it.filter chunk these
    pub others_kept : KeptItems it.filter it.record_tags items others
    pub all : ks ≡ these ++ others
    pub fewer : length items < length is

  pub advance_over-Ahead :
      (it : EventIter) (spans : List RecordSpan) (is : List Item) (ks : List Bytes)
      → Ahead b it.inner it.next_record spans is
      → KeptItems it.filter it.record_tags is ks
      → AtEnd it ks (advance_over b split spans it)
        ⊎ AtRecord it is ks (advance_over b split spans it)
  unfolding advance_over
  advance_over-Ahead it [] [] ks a none_left =
      inl (record { nothing_kept = refl; number = it.next_record; result = refl })
  advance_over-Ahead it [] (i ∷ is) ks a k = elim (a.covers) [ ]
  advance_over-Ahead it (s ∷ spans) [] ks a k = elim (a.covers) [ ]
  advance_over-Ahead it (s ∷ spans) (i ∷ is) ks a
        (selected {ks = these} {others = others} wanted kept_here kept_later) =
      let (cur, loaded, left) = load_record-Ahead it.dict a in
      inr (record {
        number = it.next_record + 1;
        cur = cur;
        chunk = i.chunk;
        spans = spans;
        items = is;
        these = these;
        others = others;
        result = rw (is_wanted-Ahead it.record_tags a, wanted, loaded) refl;
        left = left;
        ahead = Ahead-next a;
        these_kept = kept_here;
        others_kept = kept_later;
        all = refl;
        fewer = omega arith;
      })
  advance_over-Ahead it (s ∷ spans) (i ∷ is) ks a (skipped unwanted kept_later) =
      let it' : EventIter = record it { next_record = it.next_record + 1 } in
      elim (advance_over-Ahead it' spans is ks (Ahead-next a) kept_later) [
        | inl x ↦ inl (record {
          nothing_kept = x.nothing_kept;
          number = x.number;
          result = rw (is_wanted-Ahead it.record_tags a, unwanted) x.result;
        })
        | inr x ↦ inr (record {
          number = x.number;
          cur = x.cur;
          chunk = x.chunk;
          spans = x.spans;
          items = x.items;
          these = x.these;
          others = x.others;
          result = rw (is_wanted-Ahead it.record_tags a, unwanted) x.result;
          left = x.left;
          ahead = x.ahead;
          these_kept = x.these_kept;
          others_kept = x.others_kept;
          all = x.all;
          fewer = omega (arith, x.fewer);
        })
      ]
