-- ===== src/Read/Occupancy.antt =====
-- src/read/occupancy.rs: the tallies of the occupancy scan. Sums are `u64`s, which wrap.
pub mod Merge
use oxihipo.Prelude.{
  ℕ, zero, suc, ◌+◌, ◌%◌, ◌^◌, max, Bool, List, [], ◌∷◌, Option, none, some, ◌==◌, ◌&&◌, leb, ltb,
  if◌then◌else◌, get_elem?, set_at, Result, ok, panic, true,
}

-- Events, rows and the largest row count of one bank.
pub record Slot : Type 0 where
  pub events : ℕ
  pub rows : ℕ
  pub largest : ℕ

abbrev pub Tally : Type 0
Tally = ℕ × List Slot

abbrev pub add_u64 : ℕ → ℕ → ℕ
add_u64 a b = (a + b) % 2 ^ 64

abbrev pub merge_slot : Slot → Slot → Slot
merge_slot dst src = record {
  events = add_u64 dst.events src.events;
  rows = add_u64 dst.rows src.rows;
  largest = max dst.largest src.largest;
}

-- `into.iter_mut().zip(from)`: slots beyond the shorter side stay as they are.
unfoldable pub merge_slots : List Slot → List Slot → List Slot
merge_slots (dst ∷ into) (src ∷ from) = merge_slot dst src ∷ merge_slots into from
merge_slots [] from = []
merge_slots (dst ∷ into) [] = dst ∷ into

unfoldable pub merge : Tally → Tally → Tally
merge (n, into) (k, from) = (add_u64 n k, merge_slots into from)

abbrev pub noted : Slot → ℕ → Slot
noted t rows = record {
  events = add_u64 t.events 1;
  rows = add_u64 t.rows rows;
  largest = max t.largest rows;
}

-- `&mut tally.1[slot]`, which panics out of range.
abbrev pub note_at : Tally → ℕ → ℕ → Option Slot → Result Tally
note_at (n, slots) slot rows none = panic
note_at (n, slots) slot rows (some t) = ok (n, set_at slot (noted t rows) slots)

unfoldable pub note : Tally → ℕ → ℕ → Result Tally
note (n, slots) slot rows =
    if rows == 0 then ok (n, slots) else note_at (n, slots) slot rows (get_elem? slots slot)

-- `range.is_none_or(|r| r.contains(&idx))`
unfoldable pub in_range : Option (ℕ × ℕ) → ℕ → Bool
in_range none idx = true
in_range (some (start, stop)) idx = leb start idx && ltb idx stop
