-- ===== src/Read/Filter.antt =====
-- src/read/filter.rs: `Filter`, which keeps the events that carry the required banks and tags.
pub mod Clauses
pub mod Check
use oxihipo.Prelude.{
  ℕ, Bool, true, false, not, ◌&&◌, ◌||◌, List, [], ◌∷◌, ◌++◌, Option, none, some, ◌==◌,
  if◌then◌else◌, bit_and, bit_or, Bytes, Result, ok, err, ◌>>=◌, ◌>>◌, unknown_schema,
}
use oxihipo.Schema.Types.{Name, Schema}
use oxihipo.Schema.Dict.{Dict, get}
use oxihipo.Event.Structures
use oxihipo.Event.Structures.{has}

pub record Filter : Type 0 where
  pub require_names : List Name
  pub require_ids : List (ℕ × ℕ)
  -- A required bank is absent from the dictionary that the filter is bound to.
  pub unsatisfiable : Bool
  pub record_tags : List ℕ
  pub event_tags : List ℕ
  pub event_tag_mask : ℕ

unfoldable pub new : Filter
new = record {
  require_names = [];
  require_ids = [];
  unsatisfiable = false;
  record_tags = [];
  event_tags = [];
  event_tag_mask = 0;
}

unfoldable pub and_require : List Name → Filter → Filter
and_require names f = record f { require_names = f.require_names ++ names }

unfoldable pub require : List Name → Filter
require names = and_require names new

unfoldable pub record_tag : List ℕ → Filter → Filter
record_tag tags f = record f { record_tags = f.record_tags ++ tags }

unfoldable pub event_tag : List ℕ → Filter → Filter
event_tag tags f = record f { event_tags = f.event_tags ++ tags }

unfoldable pub event_tag_any : ℕ → Filter → Filter
event_tag_any mask f = record f { event_tag_mask = bit_or f.event_tag_mask mask }

abbrev pub is_empty {ℓ} : {A : Type ℓ} → List A → Bool
is_empty [] = true
is_empty (x ∷ xs) = false

abbrev pub contains : List ℕ → ℕ → Bool
contains [] t = false
contains (x ∷ xs) t = x == t || contains xs t

unfoldable pub event_tag_active : Filter → Bool
event_tag_active f = not (is_empty f.event_tags) || not (f.event_tag_mask == 0)

unfoldable pub is_active : Filter → Bool
is_active f =
    not (is_empty f.require_names)
    || not (is_empty f.record_tags)
    || not (is_empty f.require_ids)
    || event_tag_active f

unfoldable pub tag_matches : Filter → ℕ → Bool
tag_matches f tag =
    if not (is_empty f.event_tags) && not (contains f.event_tags tag)
    then false
    else if not (f.event_tag_mask == 0) && bit_and tag f.event_tag_mask == 0
    then false
    else true

-- The loop of `validate`.
unfoldable pub validate_names : List Name → Dict → Result (Unit {0})
validate_names [] d = ok tt
validate_names (name ∷ names) d = do
  found ← get name d
  elim found [ none ↦ err (unknown_schema name) | some _ ↦ validate_names names d ]

unfoldable pub validate : Filter → Dict → Result (Unit {0})
validate f d = validate_names f.require_names d

-- One round of the loop of `bind`.
unfoldable pub resolved : Option Schema → Filter → Filter
resolved (some s) f = record f { require_ids = f.require_ids ++ ((s.group, s.item) ∷ []) }
resolved none f = record f { unsatisfiable = true }

unfoldable pub bind_names : List Name → Dict → Filter → Result Filter
bind_names [] d f = ok f
bind_names (name ∷ names) d f = do found ← get name d; bind_names names d (resolved found f)

unfoldable pub bind : Dict → Filter → Result Filter
bind d f = bind_names f.require_names d (record f { require_ids = []; unsatisfiable = false })

-- The loop of `check` over the required identifiers.
unfoldable pub has_all : List (ℕ × ℕ) → Bytes → Result Bool
has_all [] event = ok true
has_all ((g, i) ∷ ids) event = do
  found ← has event g i
  if found then has_all ids event else ok false

unfoldable pub check : Filter → Bytes → Result Bool
check f event =
    if f.unsatisfiable
    then ok false
    else if event_tag_active f
    then (do
      tag ← Structures.tag event
      if tag_matches f tag then has_all f.require_ids event else ok false)
    else has_all f.require_ids event
