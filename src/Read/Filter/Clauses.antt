-- ===== src/Read/Filter/Clauses.antt =====
-- What the clauses of a filter ask of an event, and the tests that decide them.
use mathlib.Core.Option.{some-injective}
use oxihipo.Prelude.{
  ℕ, ◌≡◌, inl, inr, refl, sym, ap, ◌∙◌, arith, Bool, true, false, not, ◌&&◌, List, [], ◌∷◌, none,
  some, if◌then◌else◌, Bool-cases, ◌⊎◌, ◌≢◌, zero, suc, ◌==◌, ==_iff, nat_eq, bit_and, get_elem?,
  All,
}
use mathlib.Core.Path.{subst}
use oxihipo.Event.Structures.{is_id, Structure, first_with}
use oxihipo.Read.Filter.{Filter, contains, is_empty, tag_matches}

-- Whether a bank of each identifier is among the structures.
abbrev pub all_present : List (ℕ × ℕ) → List Structure → Bool
all_present [] ss = true
all_present ((g, i) ∷ ids) ss =
    (elim (first_with g i ss) [ none ↦ false | some _ ↦ true ]) && all_present ids ss

-- A test that decides a property.
abbrev pub Decides : Bool → Type 0 → Type 0
Decides b P = ((b ≡ true) × P) ⊎ ((b ≡ false) × (¬ P))

pub both : {P Q : Type 0} (a b : Bool) → Decides a P → Decides b Q → Decides (a && b) (P × Q)
both a b (inl (s, p)) (inl (t, q)) = inl (rw (s, t) refl, (p, q))
both a b (inl (s, p)) (inr (t, q)) = inr (rw (s, t) refl, λ x. q x.1)
both a b (inr (s, p)) d = inr (rw s refl, λ x. p x.0)

-- A number in a list, and a structure with an identifier among the structures.
abbrev pub IsAmong : ℕ → List ℕ → Type 0
IsAmong t xs = (i : ℕ) × (get_elem? xs i ≡ some t)

abbrev pub Carries : ℕ → ℕ → List Structure → Type 0
Carries g i ss =
    (k : ℕ) × (s : Structure) × (get_elem? ss k ≡ some s) × (s.0.group ≡ g) × (s.0.item ≡ i)

-- The two clauses on the tag: no list or a tag in the list, no mask or a bit of the mask in the tag.
abbrev pub TagPasses : Filter → ℕ → Type 0
TagPasses f t =
    ((f.event_tags ≡ []) ⊎ IsAmong t f.event_tags)
    × ((f.event_tag_mask ≡ 0) ⊎ (bit_and t f.event_tag_mask ≢ 0))

-- An event with a tag and structures that a bound filter is meant to keep.
abbrev pub Passes : Filter → ℕ → List Structure → Type 0
Passes f t ss =
    (f.unsatisfiable ≡ false)
    × (TagPasses f t × All (λ (id : ℕ × ℕ). Carries id.0 id.1 ss) f.require_ids)

not_in : (x : ℕ) (xs : List ℕ) (t : ℕ) → (x == t) ≡ false → (¬ IsAmong t xs) → ¬ IsAmong t (x ∷ xs)
not_in x xs t other never (zero, e) =
    let same : x ≡ t = some-injective x t e in absurd (ground arith)
not_in x xs t other never (suc i, e) = never (i, e)

contains-Decides : (xs : List ℕ) (t : ℕ) → Decides (contains xs t) (IsAmong t xs)
contains-Decides [] t = inr (refl, λ (i, e). cc e)
contains-Decides (x ∷ xs) t = elim (Bool-cases (x == t)) [
  | inl same ↦ inl (rw same refl, (0, ap some ((==_iff x t).0 same)))
  | inr other ↦ elim (contains-Decides xs t) [
    | inl (s, (i, e)) ↦ inl (rw (other, s) refl, (suc i, e))
    | inr (s, never) ↦ inr (rw (other, s) refl, not_in x xs t other never)
  ]
]

ids_equal : (g i : ℕ) (s : Structure) → is_id g i s ≡ true → (s.0.group ≡ g) × (s.0.item ≡ i)
ids_equal g i s hit = (ground arith, ground arith)

not_carried :
    (g i : ℕ) (s : Structure) (ss : List Structure)
    → is_id g i s ≡ false
    → (¬ Carries g i ss)
    → ¬ Carries g i (s ∷ ss)
not_carried g i s ss miss never (zero, x, e, p, q) =
    let same : s ≡ x = some-injective s x e in
    let group : s.0.group ≡ g = ap (λ (y : Structure). y.0.group) same ∙ p in
    let item : s.0.item ≡ i = ap (λ (y : Structure). y.0.item) same ∙ q in
    absurd (ground (arith, group, item))
not_carried g i s ss miss never (suc k, x, e, p, q) = never (k, x, e, p, q)

first_with-Decides :
    (g i : ℕ) (ss : List Structure)
    → Decides (elim (first_with g i ss) [ none ↦ false | some _ ↦ true ]) (Carries g i ss)
unfolding first_with
first_with-Decides g i [] = inr (refl, λ (k, s, e, _, _). cc e)
first_with-Decides g i (s ∷ ss) = elim (Bool-cases (is_id g i s)) [
  | inl hit ↦ inl (rw hit refl, (0, s, refl, (ids_equal g i s hit).0, (ids_equal g i s hit).1))
  | inr miss ↦ elim (first_with-Decides g i ss) [
    | inl (there, (k, x, e, p, q)) ↦ inl (rw (miss, there) refl, (suc k, x, e, p, q))
    | inr (gone, never) ↦ inr (rw (miss, gone) refl, not_carried g i s ss miss never)
  ]
]

pub all_present-Decides :
    (ids : List (ℕ × ℕ)) (ss : List Structure)
    → Decides (all_present ids ss) (All (λ (id : ℕ × ℕ). Carries id.0 id.1 ss) ids)
all_present-Decides [] ss = inl (refl, tt)
all_present-Decides ((g, i) ∷ ids) ss =
    both (elim (first_with g i ss) [ none ↦ false | some _ ↦ true ]) (all_present ids ss)
      (first_with-Decides g i ss) (all_present-Decides ids ss)

listed-Decides :
    (tags : List ℕ) (t : ℕ)
    → Decides (not (not (is_empty tags) && not (contains tags t))) ((tags ≡ []) ⊎ IsAmong t tags)
listed-Decides [] t = inl (refl, inl refl)
listed-Decides (x ∷ xs) t = elim (contains-Decides (x ∷ xs) t) [
  | inl (there, p) ↦ inl (rw there refl, inr p)
  | inr (gone, never) ↦ inr (rw gone refl, λ p. elim p [ inl e ↦ cc e | inr q ↦ never q ])
]

masked-Decides :
    (mask t : ℕ)
    → Decides (not (not (mask == 0) && bit_and t mask == 0)) ((mask ≡ 0) ⊎ (bit_and t mask ≢ 0))
masked-Decides mask t = elim (nat_eq mask 0) [
  | inl e ↦ inl (ground arith, inl e)
  | inr n ↦ elim (nat_eq (bit_and t mask) 0) [
    | inl z ↦ inr (ground arith, λ p. elim p [ inl e ↦ n e | inr q ↦ q z ])
    | inr q ↦ inl (ground arith, inr q)
  ]
]

not_either : (a b : Bool) → (if a then false else if b then false else true) ≡ (not a && not b)
not_either true b = refl
not_either false true = refl
not_either false false = refl

pub tag_matches-Decides : (f : Filter) (t : ℕ) → Decides (tag_matches f t) (TagPasses f t)
unfolding tag_matches
tag_matches-Decides f t =
    let a : Bool = not (is_empty f.event_tags) && not (contains f.event_tags t) in
    let b : Bool = not (f.event_tag_mask == 0) && bit_and t f.event_tag_mask == 0 in
    subst (λ x. Decides x (TagPasses f t)) (sym (not_either a b))
      (both (not a) (not b) (listed-Decides f.event_tags t) (masked-Decides f.event_tag_mask t))

pub unsatisfiable-Decides : (b : Bool) → Decides (not b) (b ≡ false)
unsatisfiable-Decides true = inr (refl, λ e. cc e)
unsatisfiable-Decides false = inl (refl, refl)
