-- ===== src/Wire/Constants/Tags/RoundTrip.antt =====
-- The tag and the pair (codec, layout) carry the same information, and only 15 is unassigned.
use oxihipo.Prelude.{ℕ, ◌+◌, ◌*◌, ◌/◌, ◌^◌, ◌<◌, ◌≤◌, ◌≡◌, refl, ap, ◌∙◌, arith, bit_and}
use mathlib.Core.Option
use mathlib.Core.Logic.{◌↔◌}
use mathlib.Core.Option.{Option}
use oxihipo.Prelude.Bits.{bit_and_mask}
use oxihipo.Wire.Constants.Tags.{
  Codec, Layout, CompressionType, tag, from_tag, from_word, for_pair, codec, layout,
}

pub from_tag-tag : (c : CompressionType) → from_tag (tag c) ≡ Option.some c
unfolding from_tag tag
from_tag-tag CompressionType.none = refl
from_tag-tag _ = refl

pub for_pair-codec-layout : (c : CompressionType) → for_pair (codec c) (layout c) ≡ c
unfolding for_pair codec layout
for_pair-codec-layout CompressionType.none = refl
for_pair-codec-layout _ = refl

pub codec-for_pair : (k : Codec) (l : Layout) → codec (for_pair k l) ≡ k
unfolding for_pair codec
codec-for_pair k l = ground arith

pub layout-for_pair : (k : Codec) (l : Layout) → layout (for_pair k l) ≡ l
unfolding for_pair layout
layout-for_pair k l = ground arith

pub tag-lt : (c : CompressionType) → tag c < 15
unfolding tag
tag-lt CompressionType.none = omega arith
tag-lt _ = omega arith

-- A tag is refused exactly when it is 15 or more.
pub from_tag_none : (t : ℕ) → 15 ≤ t → from_tag t ≡ Option.none
unfolding from_tag
from_tag_none t h = ground arith

pub tag-from_tag : (t : ℕ) (c : CompressionType) → from_tag t ≡ Option.some c → tag c ≡ t
unfolding from_tag tag
tag-from_tag t c h = ground arith

-- A codec and a layout survive the way over the 4-bit tag of the record header.
pub from_tag-for_pair :
    (k : Codec) (l : Layout)
    → Option.map {B = Codec × Layout} (λ c. (codec c, layout c)) (from_tag (tag (for_pair k l)))
      ≡ Option.some (k, l)
from_tag-for_pair k l = rw (from_tag-tag, codec-for_pair, layout-for_pair)

-- The reader takes a tag for a compression type exactly when the writer writes that tag for it.
pub from_tag_iff : (t : ℕ) (c : CompressionType) → (from_tag t ≡ Option.some c) ↔ (tag c ≡ t)
from_tag_iff t c = (tag-from_tag t c, λ e. rw (← e) (from_tag-tag c))

-- The compression word: the tag in the top four bits, a length in the low 28.
pub from_word_fields :
    (c : CompressionType) (n : ℕ)
    → n < 2 ^ 28
    → (from_word (n + tag c * 2 ^ 28) ≡ Option.some c)
      × (bit_and (n + tag c * 2 ^ 28) 0x0FFF_FFFF ≡ n)
unfolding from_word
from_word_fields c n h = (
  ap from_tag (bit_and_mask 4 ((n + tag c * 2 ^ 28) / 2 ^ 28) ∙ omega (arith, tag-lt c))
      ∙ from_tag-tag c,
  bit_and_mask 28 (n + tag c * 2 ^ 28) ∙ omega (arith, tag-lt c),
)
