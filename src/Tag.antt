-- ===== src/Tag.antt =====
-- src/tag.rs: the tag of an event as a set of bits, and the registry of the names of the bits.
mod Tests
pub mod Registry
use Prim.Native.String.{String}
use oxihipo.Prelude.{
  ℕ, zero, suc, ◌+◌, ◌*◌, ◌%◌, ◌^◌, Bool, true, false, not, ◌&&◌, ◌||◌, List, [], ◌∷◌, ◌++◌,
  reverse, Option, none, some, ◌==◌, leb, ltb, if◌then◌else◌, bit_and, bit_or, Result, ok, err,
  ◌>>=◌, ◌>>◌, HipoError, invalid_tag_name,
}
use oxihipo.Prelude.Bits.{◌<<<◌}
use oxihipo.Schema.Types.{Name, same_name}

-- `TagSet` wraps a `u32`, its bits. `1u32 << bit` masks the shift by 31 in a release build.
abbrev pub TagSet : Type 0
TagSet = ℕ

unfoldable pub from_index : ℕ → TagSet
from_index bit = 1 <<< (bit % 32)

unfoldable pub is_empty : TagSet → Bool
is_empty t = t == 0

unfoldable pub contains : TagSet → TagSet → Bool
contains t other = bit_and t other == other

unfoldable pub intersects : TagSet → TagSet → Bool
intersects t other = not (bit_and t other == 0)

-- `with`, `insert`, `|` and `|=`
unfoldable pub with_bits : TagSet → TagSet → TagSet
with_bits t other = bit_or t other

-- `char::is_whitespace`
abbrev pub is_whitespace : ℕ → Bool
is_whitespace c =
    (leb 9 c && leb c 13)
    || c == 32
    || c == 133
    || c == 160
    || c == 5760
    || (leb 8192 c && leb c 8202)
    || c == 8232
    || c == 8233
    || c == 8239
    || c == 8287
    || c == 12288

abbrev pub trim_start : Name → Name
trim_start [] = []
trim_start (c ∷ cs) = if is_whitespace c then trim_start cs else c ∷ cs

abbrev pub trim : Name → Name
trim name = reverse (trim_start (reverse (trim_start name)))

abbrev pub has_char : ℕ → Name → Bool
has_char c [] = false
has_char c (d ∷ ds) = d == c || has_char c ds

-- `TagRegistry`: pairs of a name and a bit position, in the order of insertion.
pub record TagRegistry : Type 0 where
  pub entries : List (Name × ℕ)

unfoldable pub new : TagRegistry
new = record { entries = [] }

-- Why `insert` refuses a name. 61 is '=', 10 and 13 are the line breaks.
unfoldable pub refusal : Name → Option String
refusal [] = some "a tag name cannot be empty"
refusal (c ∷ cs) =
    if has_char 61 (c ∷ cs)
    then some "a tag name cannot contain '=' — it separates the name from the bit"
    else if has_char 10 (c ∷ cs) || has_char 13 (c ∷ cs)
    then some "a tag name cannot contain a line break — one entry is one line"
    else if not (same_name (trim (c ∷ cs)) (c ∷ cs))
    then some "a tag name cannot start or end with whitespace — it is trimmed when read"
    else none

-- The first entry of the name replaced, or one more entry at the end.
unfoldable pub put : Name → ℕ → List (Name × ℕ) → List (Name × ℕ)
put name bit [] = (name, bit) ∷ []
put name bit ((n, b) ∷ rest) =
    if same_name n name then (n, bit) ∷ rest else (n, b) ∷ put name bit rest

-- `insert` behind the test of the name
abbrev pub insert_unless : Option String → Name → ℕ → TagRegistry → Result TagRegistry
insert_unless (some reason) name bit reg = err (invalid_tag_name name reason)
insert_unless none name bit reg = ok (record { entries = put name bit reg.entries })

unfoldable pub insert : Name → ℕ → TagRegistry → Result TagRegistry
insert name bit reg = insert_unless (refusal name) name bit reg

unfoldable pub from_pairs : List (Name × ℕ) → TagRegistry → Result TagRegistry
from_pairs [] reg = ok reg
from_pairs ((name, bit) ∷ rest) reg = do reg' ← insert name bit reg; from_pairs rest reg'

unfoldable pub from_names : List (Name × ℕ) → Result TagRegistry
from_names names = from_pairs names new

unfoldable pub find_name : Name → List (Name × ℕ) → Option ℕ
find_name name [] = none
find_name name ((n, b) ∷ rest) = if same_name n name then some b else find_name name rest

unfoldable pub position : Name → TagRegistry → Option ℕ
position name reg = find_name name reg.entries

unfoldable pub find_bit : ℕ → List (Name × ℕ) → Option Name
find_bit bit [] = none
find_bit bit ((n, b) ∷ rest) = if b == bit then some n else find_bit bit rest

-- `name`
unfoldable pub name_of : ℕ → TagRegistry → Option Name
name_of bit reg = find_bit bit reg.entries

-- `1u32.checked_shl(p)`
unfoldable pub mask : Name → TagRegistry → Option ℕ
mask name reg = elim (position name reg) [
  | none ↦ none
  | some p ↦ if ltb p 32 then some (1 <<< p) else none
]

unfoldable pub mask_from : ℕ → List Name → TagRegistry → Option ℕ
mask_from acc [] reg = some acc
mask_from acc (name ∷ names) reg = elim (mask name reg) [
  | none ↦ none
  | some m ↦ mask_from (bit_or acc m) names reg
]

unfoldable pub mask_of : List Name → TagRegistry → Option ℕ
mask_of names reg = mask_from 0 names reg
