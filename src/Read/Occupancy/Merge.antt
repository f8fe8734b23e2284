-- ===== src/Read/Occupancy/Merge.antt =====
-- The order in which the tallies of the tasks are merged does not matter.
use oxihipo.Prelude.{
  ℕ, zero, suc, ◌≡◌, refl, sym, ap, ◌∙◌, arith, List, [], ◌∷◌, some, ◌==◌, length, get_elem?,
  set_at, ok, some-injective, Bool-cases, inl, inr, map_ok,
}
use mathlib.Core.Path.{ap₂}
use oxihipo.Read.Occupancy.{Slot, Tally, add_u64, merge_slot, merge_slots, merge, noted, note}

abbrev slot : ℕ → ℕ → ℕ → Slot
slot a b c = record { events = a; rows = b; largest = c }

slot_eq : {a b c x y z : ℕ} → a ≡ x → b ≡ y → c ≡ z → slot a b c ≡ slot x y z
slot_eq p q r = λ i. slot (p i) (q i) (r i)

merge_slot_comm : (a b : Slot) → merge_slot a b ≡ merge_slot b a
merge_slot_comm a b = slot_eq (omega arith) (omega arith) (omega arith)

merge_slot_assoc : (a b c : Slot) → merge_slot (merge_slot a b) c ≡ merge_slot a (merge_slot b c)
merge_slot_assoc a b c = slot_eq (omega arith) (omega arith) (omega arith)

merge_slots_comm :
    (xs ys : List Slot) → length xs ≡ length ys → merge_slots xs ys ≡ merge_slots ys xs
unfolding merge_slots
merge_slots_comm [] [] h = refl
merge_slots_comm [] (y ∷ ys) h = absurd (omega arith)
merge_slots_comm (x ∷ xs) [] h = absurd (omega arith)
merge_slots_comm (x ∷ xs) (y ∷ ys) h =
    ap₂ (◌∷◌) (merge_slot_comm x y) (merge_slots_comm xs ys (omega arith))

merge_slots_assoc :
    (xs ys zs : List Slot)
    → length xs ≡ length ys
    → length ys ≡ length zs
    → merge_slots (merge_slots xs ys) zs ≡ merge_slots xs (merge_slots ys zs)
unfolding merge_slots
merge_slots_assoc [] ys zs h k = refl
merge_slots_assoc (x ∷ xs) [] zs h k = absurd (omega arith)
merge_slots_assoc (x ∷ xs) (y ∷ ys) [] h k = absurd (omega arith)
merge_slots_assoc (x ∷ xs) (y ∷ ys) (z ∷ zs) h k =
    ap₂ (◌∷◌) (merge_slot_assoc x y z) (merge_slots_assoc xs ys zs (omega arith) (omega arith))

-- Tallies with one slot per schema merge to the same total in every order and grouping.
pub merge_any_order :
    (a b c : Tally)
    → length a.1 ≡ length b.1
    → length b.1 ≡ length c.1
    → (merge a b ≡ merge b a) × (merge (merge a b) c ≡ merge a (merge b c))
unfolding merge
merge_any_order (n, xs) (k, ys) (l, zs) h j = (
  ap₂ (λ u v. (u, v)) (omega arith) (merge_slots_comm xs ys h),
  ap₂ (λ u v. (u, v)) (omega arith) (merge_slots_assoc xs ys zs h j),
)

merge_slots-set_at :
    (xs ys : List Slot) (place rows : ℕ) (t : Slot)
    → get_elem? xs place ≡ some t
    → length xs ≡ length ys
    → (u : Slot) × (get_elem? (merge_slots xs ys) place ≡ some u)
      × (merge_slots (set_at place (noted t rows) xs) ys
          ≡ set_at place (noted u rows) (merge_slots xs ys))
unfolding merge_slots
merge_slots-set_at [] ys place rows t g h = cc
merge_slots-set_at (x ∷ xs) [] slot rows t g h = absurd (omega arith)
merge_slots-set_at (x ∷ xs) (y ∷ ys) zero rows t g h =
    let same : x ≡ t = some-injective g in
    (
      merge_slot x y,
      refl,
      ap (λ z. z ∷ merge_slots xs ys)
          (ap (λ z. merge_slot (noted z rows) y) (sym same)
            ∙ slot_eq (omega arith) (omega arith) (omega arith)),
    )
merge_slots-set_at (x ∷ xs) (y ∷ ys) (suc place) rows t g h =
    let (u, found, e) = merge_slots-set_at xs ys place rows t g (omega arith) in
    (u, found, ap (◌∷◌ (merge_slot x y)) e)

-- Noting rows in a task's tally before it is merged gives the same total as noting them in the
-- merged tally.
pub merge-note :
    (a b : Tally) (place rows : ℕ) (t : Slot)
    → get_elem? a.1 place ≡ some t
    → length a.1 ≡ length b.1
    → map_ok (λ x. merge x b) (note a place rows) ≡ note (merge a b) place rows
unfolding merge note
merge-note (n, xs) (k, ys) place rows t g h =
    let (u, found, e) = merge_slots-set_at xs ys place rows t g h in
    elim (Bool-cases (rows == 0)) [
      | inl none_seen ↦ rw none_seen refl
      | inr some_seen ↦ rw (some_seen, g, found) (ap (λ z. ok (add_u64 n k, z)) e)
    ]
