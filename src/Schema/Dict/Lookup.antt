-- ===== src/Schema/Dict/Lookup.antt =====
-- What the lookups of a `Dict` find.
use mathlib.Core.Path.{subst}
use oxihipo.Prelude.{
  ℕ, ◌<◌, ◌≡◌, ◌≢◌, ◌⊎◌, inl, inr, refl, sym, ap, ◌∙◌, true, false, [], ◌∷◌, Option, none, some,
  length, get_elem?, get_elem?-set_at, get_elem?-set_at_other, get_elem?-last, get_elem?-front,
  get_elem?-lt, get_elem?-some, All-get, some-injective, ok, Bool-cases, Option-cases,
}
use oxihipo.Schema.Types.{Name, Schema, same_name}
use oxihipo.Schema.Index
use oxihipo.Schema.Index.{SchemaIndex, insert, missing}
use oxihipo.Schema.Index.Lookup.{get-table}
use oxihipo.Schema.Dict.{Dict, lookup_name, try_add, in_bounds, at_id, get, get_by_id}
use oxihipo.Schema.Dict.Invariant.{
  IsValid, InRange, same_name_refl, same_name-eq, lookup_name-some, replaced, appended,
  was_replaced, was_appended, Added-try_add,
}

at_id-some :
    (d : Dict) (i : ℕ) (s : Schema)
    → get_elem? d.schemas i ≡ some s
    → at_id d (some i) ≡ ok (some s)
unfolding at_id
at_id-some d i s h = ap in_bounds h

at_id-lt :
    (d : Dict) (i : ℕ) → i < length d.schemas → (o : Option Schema) × (at_id d (some i) ≡ ok o)
at_id-lt d i h = let (s, e) = get_elem?-some d.schemas i h in (some s, at_id-some d i s e)

-- On a valid dictionary, no lookup aborts: a name gives none or the schema of that name, and an
-- identifier none or some schema.
pub get-total :
    (d : Dict) (name : Name) (group item : ℕ)
    → IsValid d
    → ((get name d ≡ ok none) ⊎ ((s : Schema) × (get name d ≡ ok (some s)) × (s.name ≡ name)))
      × ((o : Option Schema) × (get_by_id group item d ≡ ok o))
unfolding get get_by_id at_id
get-total d name group item v = (
  elim (Option-cases (lookup_name name d.by_name)) [
    | inl e ↦ inl (absent e)
    | inr (i, e) ↦
        let (s, g, n) = lookup_name-some d.schemas d.by_name name i v.names e in
        inr (s, ap (at_id d) e ∙ at_id-some d i s g, n)
  ],
  elim (Option-cases (Index.get group item d.by_id)) [
    | inl e ↦ (none, absent_id e)
    | inr (i, e) ↦ let (o, p) = at_id-lt d i (in_range i e) in (o, ap (at_id d) e ∙ p)
  ],
)
  where
    absent : lookup_name name d.by_name ≡ none → at_id d (lookup_name name d.by_name) ≡ ok none
    absent e = ap (at_id d) e

    absent_id :
        Index.get group item d.by_id ≡ none → at_id d (Index.get group item d.by_id) ≡ ok none
    absent_id e = ap (at_id d) e

    in_range : (i : ℕ) → Index.get group item d.by_id ≡ some i → i < length d.schemas
    in_range i e =
        let (g, present) = get-table group item i d.by_id e in
        elim (All-get (InRange (length d.schemas)) d.by_id.table (Index.key group item) i v.ids g) [
          | inl lt ↦ lt
          | inr eq ↦ absurd (present eq)
        ]

-- A lookup by name, from what the list of names gives.
get-at :
    (d : Dict) (name : Name) (i : ℕ) (s : Schema)
    → lookup_name name d.by_name ≡ some i
    → get_elem? d.schemas i ≡ some s
    → get name d ≡ ok (some s)
unfolding get
get-at d name i s e g = ap (at_id d) e ∙ at_id-some d i s g

lookup_name-first :
    (s : Schema) (d : Dict) → lookup_name s.name (appended s d).by_name ≡ some (length d.schemas)
unfolding lookup_name
lookup_name-first s d = rw (same_name_refl s.name) refl

lookup_name-rest :
    (s : Schema) (d : Dict) (name : Name)
    → name ≢ s.name
    → lookup_name name (appended s d).by_name ≡ lookup_name name d.by_name
unfolding lookup_name
lookup_name-rest s d name h = elim (Bool-cases (same_name s.name name)) [
  | inl eq ↦ absurd (h (sym (same_name-eq s.name name eq)))
  | inr ne ↦ rw ne refl
]

-- What a lookup by another name finds, when the schemas at all ids in use but one are as before.
get-same :
    (d d' : Dict) (name : Name)
    → lookup_name name d'.by_name ≡ lookup_name name d.by_name
    → ((i : ℕ) (s : Schema)
        → lookup_name name d.by_name ≡ some i
        → get_elem? d.schemas i ≡ some s
        → get_elem? d'.schemas i ≡ some s)
    → IsValid d
    → get name d' ≡ get name d
unfolding get at_id
get-same d d' name e keep v = elim (Option-cases (lookup_name name d.by_name)) [
  | inl gone ↦ ap (at_id d') (e ∙ gone) ∙ sym (ap (at_id d) gone)
  | inr (i, there) ↦
      let (s, g, n) = lookup_name-some d.schemas d.by_name name i v.names there in
      get-at d' name i s (e ∙ there) (keep i s there g) ∙ sym (get-at d name i s there g)
]

-- After a schema is added to a valid dictionary, its name leads to it, and every other name to what
-- it led to before.
pub get-try_add :
    (s : Schema) (d d' : Dict) (name : Name)
    → IsValid d
    → try_add s d ≡ ok d'
    → (get s.name d' ≡ ok (some s)) × ((name ≡ s.name) ⊎ (get name d' ≡ get name d))
get-try_add s d d' name v h = elim (Added-try_add s d d' h) [
  | was_replaced idx e out ↦
      let (old, g, n) = lookup_name-some d.schemas d.by_name s.name idx v.names e in
      subst Found (sym out) (
        get-at (replaced s idx d) s.name idx s e
            (get_elem?-set_at idx s d.schemas (get_elem?-lt d.schemas idx old g)),
        elim (name_eq name s.name) [
          | inl same ↦ inl same
          | inr other ↦ inr (
              get-same d (replaced s idx d) name refl
                (λ i t k j.
                  get_elem?-set_at_other idx i s d.schemas (apart idx old i t other e g n k j) ∙ j)
                v)
        ],
      )
  | was_appended e room out ↦ subst Found (sym out) (
    get-at (appended s d) s.name (length d.schemas) s (lookup_name-first s d)
        (get_elem?-last d.schemas s),
    elim (name_eq name s.name) [
      | inl same ↦ inl same
      | inr other ↦ inr (
          get-same d (appended s d) name (lookup_name-rest s d name other)
            (λ i t k j. get_elem?-front d.schemas (s ∷ []) i (get_elem?-lt d.schemas i t j) ∙ j) v)
    ],
  )
]
  where
    Found : Dict → Type 0
    Found x = (get s.name x ≡ ok (some s)) × ((name ≡ s.name) ⊎ (get name x ≡ get name d))

    distinct : true ≢ false
    distinct p = cc

    name_eq : (n m : Name) → (n ≡ m) ⊎ (n ≢ m)
    name_eq n m = elim (Bool-cases (same_name n m)) [
      | inl eq ↦ inl (same_name-eq n m eq)
      | inr ne ↦ inr (λ p. distinct (sym (same_name_refl n) ∙ ap (same_name n) p ∙ ne))
    ]

    apart :
        (idx : ℕ) (old : Schema) (i : ℕ) (t : Schema)
        → name ≢ s.name
        → lookup_name s.name d.by_name ≡ some idx
        → get_elem? d.schemas idx ≡ some old
        → old.name ≡ s.name
        → lookup_name name d.by_name ≡ some i
        → get_elem? d.schemas i ≡ some t
        → i ≢ idx
    apart idx old i t other e g n k j p =
        let (u, q, m) = lookup_name-some d.schemas d.by_name name i v.names k in
        let same : u ≡ old = some-injective (sym q ∙ ap (get_elem? d.schemas) p ∙ g) in
        other (sym m ∙ ap (λ x. x.name) same ∙ n)
