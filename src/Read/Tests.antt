-- ===== src/Read/Tests.antt =====
-- The filter and the tallies at concrete inputs.
use oxihipo.Prelude.{ℕ, ◌≡◌, refl, ◌⊎◌, true, false, List, [], ◌∷◌, Option, Bytes, ok}
use oxihipo.Schema.Types.{Schema}
use oxihipo.Schema.Dict
use oxihipo.Schema.Dict.{Dict}
use oxihipo.Schema.Dict.Invariant.{new-IsValid}
use oxihipo.Event.Structures
use oxihipo.Event.Structures.{structures}
use oxihipo.Wire.Bytes.{read_le, slice, le_value}
use oxihipo.Read.Filter
use oxihipo.Read.Filter.{Filter, require, event_tag_any, and_require, bind, check}
use oxihipo.Read.Filter.Clauses.{Passes}
use oxihipo.Read.Filter.Check.{check_decides, bind_decides, Lookups, ids_of, any_none}
use oxihipo.Read.Occupancy.{Slot, Tally}

-- An event without banks, with the tag 5.
abbrev empty_event : Bytes
empty_event = 69 ∷ 86 ∷ 78 ∷ 84 ∷ 16 ∷ 0 ∷ 0 ∷ 0 ∷ 5 ∷ 0 ∷ 0 ∷ 0 ∷ 0 ∷ 0 ∷ 0 ∷ 0 ∷ []

abbrev tagged : Filter
tagged = record {
  require_names = [];
  require_ids = (300, 1) ∷ [];
  unsatisfiable = false;
  record_tags = [];
  event_tags = [];
  event_tag_mask = 4;
}

check_decides_example :
    ((check tagged empty_event ≡ ok true) × Passes tagged 5 [])
    ⊎ ((check tagged empty_event ≡ ok false) × (¬ Passes tagged 5 []))
unfolding Structures.tag structures read_le slice le_value Structures.size Structures.collect
    Structures.next
check_decides_example = check_decides tagged empty_event 5 [] refl refl

bind_decides_example :
    (os : List (Option Schema)) × Lookups Dict.new ((82 ∷ []) ∷ []) os
    × (bind Dict.new (require ((82 ∷ []) ∷ []))
        ≡ ok (record (require ((82 ∷ []) ∷ [])) {
          require_ids = ids_of os;
          unsatisfiable = any_none os;
        }))
unfolding require and_require Filter.new
bind_decides_example = bind_decides Dict.new (require ((82 ∷ []) ∷ [])) new-IsValid

abbrev slot_of : ℕ → ℕ → ℕ → Slot
slot_of a b c = record { events = a; rows = b; largest = c }

abbrev first_task : Tally
first_task = (2, slot_of 1 3 3 ∷ slot_of 0 0 0 ∷ [])

abbrev second_task : Tally
second_task = (4, slot_of 2 9 5 ∷ slot_of 1 1 1 ∷ [])
