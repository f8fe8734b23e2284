-- ===== src/Record/Builder/Slices.antt =====
-- The builder holds the events that were added, in order.
use mathlib.Core.List.{append_assoc, append-nil}
use mathlib.Core.Path.{ap₂, subst}
use oxihipo.Prelude.{
  ℕ, ◌+◌, ◌*◌, ◌%◌, ◌^◌, ◌<◌, ◌≡◌, refl, sym, ap, ◌∙◌, arith, List, [], ◌∷◌, ◌++◌, map, length, All,
  Bytes, ok, length-append, length-map,
}
use oxihipo.Wire.Bytes.Laws.{slice-append}
use oxihipo.Event.BankBuilder.{concat}
use oxihipo.Record.Builder.{
  RecordBuilder, add_event, reset, event_slices, slices_from, total_data, estimated_payload_size,
}

concat-append : (xs ys : List Bytes) → concat (xs ++ ys) ≡ concat xs ++ concat ys
concat-append [] ys = refl
concat-append (x ∷ xs) ys =
    ap (λ t. x ++ t) (concat-append xs ys) ∙ sym (append_assoc x (concat xs) (concat ys))

pub length-concat : (evs : List Bytes) → length (concat evs) ≡ total_data evs
length-concat [] = refl
length-concat (ev ∷ evs) =
    length-append ev (concat evs) ∙ ap (λ n. length ev + n) (length-concat evs)

pub map-append {ℓ κ} :
    {A : Type ℓ} {B : Type κ} (f : A → B) (xs ys : List A) → map f (xs ++ ys) ≡ map f xs ++ map f ys
map-append f [] ys = refl
map-append f (x ∷ xs) ys = ap (λ t. f x ∷ t) (map-append f xs ys)

-- The events that a builder stands for.
pub record Holds (rb : RecordBuilder) (evs : List Bytes) : Type 0 where
  pub lengths : rb.event_lengths ≡ map length evs
  pub bytes : rb.events ≡ concat evs

pub reset-Holds : (rb : RecordBuilder) → Holds (reset rb) []
unfolding reset
reset-Holds rb = record { lengths = refl; bytes = refl }

pub add_event-Holds :
    (rb : RecordBuilder) (evs : List Bytes) (ev : Bytes)
    → Holds rb evs
    → length ev < 2 ^ 32
    → Holds (add_event rb ev) (evs ++ (ev ∷ []))
unfolding add_event
add_event-Holds rb evs ev h fits = record {
  lengths =
      let short : length ev % 2 ^ 32 ≡ length ev = omega (arith, fits) in
      ap₂ (λ x n. x ++ (n ∷ [])) h.lengths short ∙ sym (map-append length evs (ev ∷ []));
  bytes = ap₂ (λ x y. x ++ y) h.bytes (sym (append-nil ev)) ∙ sym (concat-append evs (ev ∷ []));
}

slices_from-concat :
    (pre : Bytes) (evs : List Bytes) (off : ℕ)
    → off ≡ length pre
    → slices_from (map length evs) off (pre ++ concat evs) ≡ ok evs
slices_from-concat pre [] off h = refl
slices_from-concat pre (ev ∷ evs) off h =
    rw
      (
        slice-append pre ev (concat evs) off (off + length ev) h (omega (arith, h)),
        sym (append_assoc pre ev (concat evs)),
        slices_from-concat (pre ++ ev) evs (off + length ev)
            (omega (arith, h, length-append pre ev)),
      )
      refl

pub Holds-event_slices :
    (rb : RecordBuilder) (evs : List Bytes) → Holds rb evs → event_slices rb ≡ ok evs
unfolding event_slices
Holds-event_slices rb evs h =
    ap₂ (λ x y. slices_from x 0 y) h.lengths h.bytes ∙ slices_from-concat [] evs 0 refl

abbrev pub add_events : RecordBuilder → List Bytes → RecordBuilder
add_events rb [] = rb
add_events rb (ev ∷ evs) = add_events (add_event rb ev) evs

abbrev pub IsShort : Bytes → Type 0
IsShort ev = length ev < 2 ^ 32

add_events-Holds :
    (rb : RecordBuilder) (before evs : List Bytes)
    → Holds rb before
    → All IsShort evs
    → Holds (add_events rb evs) (before ++ evs)
add_events-Holds rb before [] h s = subst (Holds rb) (sym (append-nil before)) h
add_events-Holds rb before (ev ∷ evs) h (s, ss) =
    subst (Holds (add_events (add_event rb ev) evs)) (append_assoc before (ev ∷ []) evs) (
      add_events-Holds (add_event rb ev) (before ++ (ev ∷ [])) evs
        (add_event-Holds rb before ev h s) ss)

-- After `reset`, the slices of the builder are the events added since, in order and each with its own
-- bytes, and the estimate of the payload is four bytes for each event and the bytes of all, where
-- each event is shorter than 4 GiB.
pub event_slices-add_events :
    (rb : RecordBuilder) (evs : List Bytes)
    → All IsShort evs
    → (event_slices (add_events (reset rb) evs) ≡ ok evs)
      × (estimated_payload_size (add_events (reset rb) evs) ≡ length evs * 4 + total_data evs)
unfolding estimated_payload_size
event_slices-add_events rb evs s =
    let h : Holds (add_events (reset rb) evs) evs =
      add_events-Holds (reset rb) [] evs (reset-Holds rb) s in
    (
      Holds-event_slices (add_events (reset rb) evs) evs h,
      omega
          (arith, ap length h.lengths, ap length h.bytes, length-map length evs, length-concat evs),
    )
