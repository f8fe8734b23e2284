-- ===== src/Record/Decode/Iterate.antt =====
-- The iterator over the events of a record.
use oxihipo.Prelude.{
  ℕ, zero, suc, ◌+◌, ◌≤◌, ◌<◌, ◌≡◌, ◌⊎◌, inl, inr, refl, ap, ◌∙◌, arith, List, [], ◌∷◌, Option,
  none, some, length, get_elem?, Bytes, Result, ok, panic, ◌>>=◌,
}
use oxihipo.Schema.Dict.{Dict}
use oxihipo.Record.Codec.{Backends}
use oxihipo.Record.Decode.{Record, RecordIter, iter, next, size_hint, event, load_with_dict}
use oxihipo.Record.Decode.Offsets.{IsValid}
use oxihipo.Record.Decode.Total.{load_with_dict-IsValid}
use oxihipo.Record.Decode.Events.{IsValid-event}

-- `collect`, on fuel that stops short with a panic.
unfoldable pub drain : ℕ → RecordIter → Result (List Bytes)
drain zero it = panic
drain (suc n) it = do
  found ← next it
  elim found [ none ↦ ok [] | some (ev, rest) ↦ drain n rest >>= λ evs. ok (ev ∷ evs) ]

abbrev at : Record → ℕ → RecordIter
at r i = record { record_of = r; next_index = i }

drain-at :
    (r : Record) (n i : ℕ)
    → IsValid r
    → i + n ≡ r.header.event_count
    → (evs : List Bytes) × (drain (suc n) (at r i) ≡ ok evs)
      × (length evs ≡ n)
      × ((j : ℕ) → event r (i + j) ≡ ok (get_elem? evs j))
unfolding drain next
drain-at r zero i v h = elim (IsValid-event r v i) [
  | inl (less, _) ↦ absurd (omega arith)
  | inr (_, e) ↦ ([], rw e refl, refl, λ j. none_after j (IsValid-event r v (i + j)))
]
  where
    none_after :
        (j : ℕ)
        → ((i + j < r.header.event_count) × ((ev : Bytes) × (event r (i + j) ≡ ok (some ev))))
          ⊎ ((r.header.event_count ≤ i + j) × (event r (i + j) ≡ ok none))
        → event r (i + j) ≡ ok none
    none_after j (inl (less, _)) = absurd (omega (arith, h, less))
    none_after j (inr (_, e)) = e
drain-at r (suc n) i v h = elim (IsValid-event r v i) [
  | inr (past, _) ↦ absurd (omega arith)
  | inl (_, (ev, e)) ↦
      let (evs, rest, counted, each) = drain-at r n (i + 1) v (omega arith) in
      (ev ∷ evs, rw (e, rest) refl, ap suc counted, λ j. shifted j ev evs e each)
]
  where
    shifted :
        (j : ℕ) (ev : Bytes) (evs : List Bytes)
        → event r i ≡ ok (some ev)
        → ((k : ℕ) → event r (i + 1 + k) ≡ ok (get_elem? evs k))
        → event r (i + j) ≡ ok (get_elem? (ev ∷ evs) j)
    shifted zero ev evs e each = ap (event r) {x = i + zero} {y = i} (omega arith) ∙ e
    shifted (suc j) ev evs e each =
        ap (event r) {x = i + suc j} {y = i + 1 + j} (omega arith) ∙ each j

module _ (b : Backends) where
  -- Iterating over a record that `load_with_dict` accepted ends: one round for each event and one for
  -- the `None` give as many events as the header counts and as `size_hint` announces, and the event
  -- at each place is the one that `event` gives for that index.
  pub drain-iter :
      (src : Bytes) (dict : Option Dict) (r : Record)
      → load_with_dict b src dict ≡ ok r
      → (evs : List Bytes) × (drain (suc r.header.event_count) (iter r) ≡ ok evs)
        × (length evs ≡ size_hint (iter r))
        × ((j : ℕ) → event r j ≡ ok (get_elem? evs j))
  drain-iter src dict r e =
      let (evs, drained, counted, each) =
        drain-at r r.header.event_count 0 (load_with_dict-IsValid b src dict r e) (omega arith) in
      (
        evs,
        drained,
        counted ∙ omega arith,
        λ j. ap (event r) {x = j} {y = 0 + j} (omega arith) ∙ each j,
      )
