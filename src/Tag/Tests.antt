-- ===== src/Tag/Tests.antt =====
-- The registry at a concrete input.
use oxihipo.Prelude.{◌≡◌, ◌⊎◌, refl, [], ◌∷◌, some}
use oxihipo.Schema.Types.{Name}
use oxihipo.Tag.{TagRegistry, insert, refusal, put, position}
use oxihipo.Tag.Registry.{position-insert}

-- "a" at bit 0, then replaced by bit 3.
abbrev before : TagRegistry
before = record { entries = ((97 ∷ []), 0) ∷ ((98 ∷ []), 1) ∷ [] }

abbrev after : TagRegistry
after = record { entries = ((97 ∷ []), 3) ∷ ((98 ∷ []), 1) ∷ [] }

position-insert_example :
    (position (97 ∷ []) after ≡ some 3)
    × ((◌≡◌ {A = Name} (98 ∷ []) (97 ∷ []))
        ⊎ (position (98 ∷ []) after ≡ position (98 ∷ []) before))
unfolding insert refusal put
position-insert_example = position-insert (97 ∷ []) (98 ∷ []) 3 before after refl
