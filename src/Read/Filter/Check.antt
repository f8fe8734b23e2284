-- ===== src/Read/Filter/Check.antt =====
-- What `check` and `bind` decide.
use mathlib.Core.List.{append_assoc, append-nil}
use oxihipo.Prelude.{
  ℕ, ◌≡◌, inl, inr, refl, sym, ap, ◌∙◌, arith, Bool, true, false, not, ◌&&◌, ◌||◌, List, [], ◌∷◌,
  ◌++◌, Option, none, some, if◌then◌else◌, Bytes, ok, Bool-cases, ◌⊎◌,
}
use oxihipo.Schema.Types.{Name, Schema}
use oxihipo.Schema.Dict.{Dict, get}
use oxihipo.Schema.Dict.Invariant.{IsValid}
use oxihipo.Schema.Dict.Lookup.{get-total}
use oxihipo.Event.Structures
use oxihipo.Event.Structures.{is_id, Structure, structures, find, has, first_with}
use oxihipo.Read.Filter.Clauses.{
  all_present, Passes, both, tag_matches-Decides, all_present-Decides, unsatisfiable-Decides,
}
use oxihipo.Read.Filter.{
  Filter, event_tag_active, tag_matches, has_all, check, resolved, bind_names, bind,
}

if_and : (b c : Bool) → (if b then ok c else ok false) ≡ ok (b && c)
if_and true c = refl
if_and false c = refl

has_all_present :
    (ids : List (ℕ × ℕ)) (event : Bytes) (ss : List Structure)
    → structures event ≡ ok ss
    → has_all ids event ≡ ok (all_present ids ss)
unfolding has_all has find
has_all_present [] event ss h = refl
has_all_present ((g, i) ∷ ids) event ss h =
    rw (h, has_all_present ids event ss h)
      (if_and (elim (first_with g i ss) [ none ↦ false | some _ ↦ true ]) (all_present ids ss))

inactive_matches : (f : Filter) (t : ℕ) → event_tag_active f ≡ false → tag_matches f t ≡ true
unfolding event_tag_active tag_matches
inactive_matches f t h = ground (arith, h)

check_test :
    (f : Filter) (event : Bytes) (t : ℕ) (ss : List Structure)
    → Structures.tag event ≡ ok t
    → structures event ≡ ok ss
    → check f event ≡ ok (not f.unsatisfiable && (tag_matches f t && all_present f.require_ids ss))
unfolding check event_tag_active tag_matches
check_test f event t ss e h = elim (Bool-cases f.unsatisfiable) [
  | inl never ↦ rw never refl
  | inr may ↦ elim (Bool-cases (event_tag_active f)) [
    | inl active ↦
        rw (may, active, e, has_all_present f.require_ids event ss h)
          (if_and (tag_matches f t) (all_present f.require_ids ss))
    | inr idle ↦
        rw (may, idle, has_all_present f.require_ids event ss h, inactive_matches f t idle) refl
  ]
]

-- `check` decides whether a bound filter keeps an event whose tag and structures can be read: it
-- answers true when no required bank is missing from the dictionary, the tag is in the list of tags if
-- there are any, the tag has a bit of the mask if there is one, and a bank of each required identifier
-- is among the structures of the event; and it answers false when one of these fails.
pub check_decides :
    (f : Filter) (event : Bytes) (t : ℕ) (ss : List Structure)
    → Structures.tag event ≡ ok t
    → structures event ≡ ok ss
    → ((check f event ≡ ok true) × Passes f t ss) ⊎ ((check f event ≡ ok false) × (¬ Passes f t ss))
check_decides f event t ss e h =
    let test = check_test f event t ss e h in
    elim (both (not f.unsatisfiable) (tag_matches f t && all_present f.require_ids ss)
      (unsatisfiable-Decides f.unsatisfiable)
      (both (tag_matches f t) (all_present f.require_ids ss) (tag_matches-Decides f t)
        (all_present-Decides f.require_ids ss))) [
          | inl (kept, p) ↦ inl (test ∙ ap ok kept, p)
          | inr (left, p) ↦ inr (test ∙ ap ok left, p)
        ]

-- What the dictionary holds under each name.
unfoldable pub Lookups : Dict → List Name → List (Option Schema) → Type 0
Lookups d [] [] = Unit
Lookups d [] (o ∷ os) = ⊥
Lookups d (n ∷ ns) [] = ⊥
Lookups d (n ∷ ns) (o ∷ os) = (get n d ≡ ok o) × Lookups d ns os

abbrev pub ids_of : List (Option Schema) → List (ℕ × ℕ)
ids_of [] = []
ids_of (none ∷ os) = ids_of os
ids_of (some s ∷ os) = (s.group, s.item) ∷ ids_of os

abbrev pub any_none : List (Option Schema) → Bool
any_none [] = false
any_none (none ∷ os) = true
any_none (some s ∷ os) = any_none os

-- The filter with the outcome of the lookups added to it.
abbrev pub bound : Filter → List (Option Schema) → Filter
bound f os = record f {
  require_ids = f.require_ids ++ ids_of os;
  unsatisfiable = f.unsatisfiable || any_none os;
}

get_some : (d : Dict) (name : Name) → IsValid d → (o : Option Schema) × (get name d ≡ ok o)
get_some d name v =
    let (outcome, by_id) = get-total d name 0 0 v in
    elim outcome [ inl absent ↦ (none, absent) | inr (s, found, same) ↦ (some s, found) ]

bound_nil : (f : Filter) → bound f [] ≡ f
bound_nil f = λ i. record f {
  require_ids = append-nil f.require_ids i;
  unsatisfiable = or_false f.unsatisfiable i;
}
  where
    or_false : (b : Bool) → (b || false) ≡ b
    or_false true = refl
    or_false false = refl

bound_cons :
    (f : Filter) (o : Option Schema) (os : List (Option Schema))
    → bound (resolved o f) os ≡ bound f (o ∷ os)
unfolding resolved
bound_cons f none os = λ i. record f {
  require_ids = f.require_ids ++ ids_of os;
  unsatisfiable = or_true f.unsatisfiable i;
}
  where
    or_true : (b : Bool) → true ≡ (b || true)
    or_true true = refl
    or_true false = refl
bound_cons f (some s) os = λ i. record f {
  require_ids = append_assoc f.require_ids ((s.group, s.item) ∷ []) (ids_of os) i;
  unsatisfiable = f.unsatisfiable || any_none os;
}

bind_names-bound :
    (names : List Name) (d : Dict) (f : Filter)
    → IsValid d
    → (os : List (Option Schema)) × Lookups d names os × (bind_names names d f ≡ ok (bound f os))
unfolding bind_names Lookups
bind_names-bound [] d f v = ([], tt, ap ok (sym (bound_nil f)))
bind_names-bound (name ∷ names) d f v =
    let (o, found) = get_some d name v in
    let (os, rest, e) = bind_names-bound names d (resolved o f) v in
    (o ∷ os, (found, rest), rw found (e ∙ ap ok (bound_cons f o os)))

-- On a valid dictionary `bind` ends, collects the identifiers of the required banks that the
-- dictionary knows, in their order, and marks the filter unsatisfiable exactly when one is unknown;
-- what an earlier `bind` left is dropped.
pub bind_decides :
    (d : Dict) (f : Filter)
    → IsValid d
    → (os : List (Option Schema)) × Lookups d f.require_names os
      × (bind d f ≡ ok (record f { require_ids = ids_of os; unsatisfiable = any_none os }))
unfolding bind
bind_decides d f v =
    bind_names-bound f.require_names d (record f { require_ids = []; unsatisfiable = false }) v
