-- ===== src/Tag/Registry.antt =====
-- Lookups in a `TagRegistry` after an insertion.
use Prim.Native.String.{String}
use oxihipo.Prelude.{
  ℕ, ◌≡◌, ◌≢◌, ◌⊎◌, inl, inr, refl, sym, ap, ◌∙◌, true, false, List, [], ◌∷◌, some, if◌then◌else◌,
  ok, err, Bool-cases, Option-cases, ok-injective, invalid_tag_name,
}
use oxihipo.Schema.Types.{Name, same_name}
use oxihipo.Tag.{TagRegistry, refusal, put, insert, insert_unless, find_name, position}
use oxihipo.Schema.Dict.Invariant.{same_name_refl, same_name-eq}
use mathlib.Core.Path.{subst}

find_name-put :
    (name : Name) (bit : ℕ) (es : List (Name × ℕ)) → find_name name (put name bit es) ≡ some bit
unfolding find_name put
find_name-put name bit [] = rw (same_name_refl name) refl
find_name-put name bit ((n, b) ∷ es) = elim (Bool-cases (same_name n name)) [
  | inl eq ↦ rw (eq, eq) refl
  | inr ne ↦ rw (ne, ne) (find_name-put name bit es)
]

find_name-put_other :
    (name other : Name) (bit : ℕ) (es : List (Name × ℕ))
    → other ≢ name
    → find_name other (put name bit es) ≡ find_name other es
unfolding find_name put
find_name-put_other name other bit [] h = elim (Bool-cases (same_name name other)) [
  | inl eq ↦ absurd (h (sym (same_name-eq name other eq)))
  | inr ne ↦ rw ne refl
]
find_name-put_other name other bit ((n, b) ∷ es) h = elim (Bool-cases (same_name n name)) [
  | inl eq ↦ rw (eq, apart (same_name-eq n name eq)) refl
  | inr ne ↦
      rw ne (
        ap (λ x. if same_name n other then some b else x) (find_name-put_other name other bit es h))
]
  where
    apart : n ≡ name → same_name n other ≡ false
    apart same = elim (Bool-cases (same_name n other)) [
      | inl eq ↦ absurd (h (sym (same_name-eq n other eq) ∙ same))
      | inr ne ↦ ne
    ]

-- When `insert` takes a name, the name has the new bit, whether it was there or not, and every
-- other name what it had.
pub position-insert :
    (name other : Name) (bit : ℕ) (reg reg' : TagRegistry)
    → insert name bit reg ≡ ok reg'
    → (position name reg' ≡ some bit)
      × ((other ≡ name) ⊎ (position other reg' ≡ position other reg))
unfolding insert position
position-insert name other bit reg reg' h = elim (Option-cases (refusal name)) [
  | inr (reason, refused) ↦
      let out : insert name bit reg ≡ err (invalid_tag_name name reason) =
        ap (λ o. insert_unless o name bit reg) refused in
      absurd (clash reason (sym out ∙ h))
  | inl taken ↦
      let out : insert name bit reg ≡ ok (record { entries = put name bit reg.entries }) =
        ap (λ o. insert_unless o name bit reg) taken in
      let same : record { entries = put name bit reg.entries } ≡ reg' =
        ok-injective (sym out ∙ h) in
      subst
        (λ (r : TagRegistry).
          (find_name name r.entries ≡ some bit)
          × ((other ≡ name) ⊎ (find_name other r.entries ≡ find_name other reg.entries)))
        same
        (
          find_name-put name bit reg.entries,
          elim (Bool-cases (same_name other name)) [
            | inl eq ↦ inl (same_name-eq other name eq)
            | inr ne ↦ inr (find_name-put_other name other bit reg.entries (differ ne))
          ],
        )
]
  where
    clash : (reason : String) → err (invalid_tag_name name reason) ≢ ok reg'
    clash reason p = cc

    distinct : true ≢ false
    distinct p = cc

    differ : same_name other name ≡ false → other ≢ name
    differ ne p = distinct (sym (same_name_refl name) ∙ ap (λ x. same_name x name) (sym p) ∙ ne)
