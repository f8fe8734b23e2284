-- ===== src/Schema/Dict/Invariant.antt =====
-- What a `Dict` keeps between its two lookups, and that `try_add` keeps it.
use mathlib.Core.Path.{subst}
use oxihipo.Prelude.{
  ℕ, suc, ◌+◌, ◌-◌, ◌≤◌, ◌<◌, ◌≡◌, ◌⊎◌, inl, inr, refl, sym, ap, ◌∙◌, arith, true, false, List, [],
  ◌∷◌, ◌++◌, none, some, leb, length, get_elem?, replicate, All, set_at, length-set_at,
  get_elem?-set_at, get_elem?-set_at_other, get_elem?-last, get_elem?-front, get_elem?-lt,
  All-set_at, All-replicate, All-mono, some-injective, All-append, length-append, ok, err,
  ok-injective, Bool-cases, Option-cases, schema_parse, leb→le, nat_eq,
}
use oxihipo.Schema.Types.{Name, Schema, same_name}
use oxihipo.Schema.Index
use oxihipo.Schema.Index.{SchemaIndex, insert, resize, missing, present, and_present, key}
use oxihipo.Schema.Dict.{Dict, new, lookup_name, add_at, try_add}

pub same_name_refl : (n : Name) → same_name n n ≡ true
same_name_refl [] = refl
same_name_refl (c ∷ cs) = ground (arith, same_name_refl cs)

pub same_name-eq : (n m : Name) → same_name n m ≡ true → n ≡ m
same_name-eq [] [] h = refl
same_name-eq [] (d ∷ ds) h = cc
same_name-eq (c ∷ cs) [] h = cc
same_name-eq (c ∷ cs) (d ∷ ds) h = ground (arith, same_name-eq cs ds)

-- An entry of the table of identifiers stands for a schema, or for none.
abbrev pub InRange : ℕ → ℕ → Type 0
InRange n v = (v < n) ⊎ (v ≡ missing)

-- A name leads to a schema of that name.
abbrev pub Named : List Schema → Name × ℕ → Type 0
Named schemas (name, i) = (s : Schema) × (get_elem? schemas i ≡ some s) × (s.name ≡ name)

-- What a dictionary keeps: ids are 16-bit, every name leads to the schema of that name, and every
-- identifier in the table leads to some schema.
pub record IsValid (d : Dict) : Type 0 where
  pub few : length d.schemas ≤ 65536
  pub names : All (Named d.schemas) d.by_name
  pub ids : All (InRange (length d.schemas)) d.by_id.table

pub new-IsValid : IsValid new
unfolding new Index.new
new-IsValid = record { few = omega arith; names = tt; ids = tt }

resize-InRange :
    (n k : ℕ) (index : SchemaIndex)
    → All (InRange n) index.table
    → All (InRange n) (resize k index).table
unfolding resize
resize-InRange n k index w = elim (Bool-cases (leb (length index.table) k)) [
  | inl short ↦
      let more : ℕ = k + 1 - length index.table in
      rw short (
        All-append (InRange n) index.table (replicate more missing) w
          (All-replicate (InRange n) more missing (inr refl)))
  | inr long ↦ rw long w
]

insert-InRange :
    (n group item idx : ℕ) (index : SchemaIndex)
    → idx < n
    → All (InRange n) index.table
    → All (InRange n) (insert group item idx index).table
unfolding insert
insert-InRange n group item idx index h w =
    All-set_at (InRange n) (key group item) idx (resize (key group item) index).table (inl h)
      (resize-InRange n (key group item) index w)

pub lookup_name-some :
    (schemas : List Schema) (names : List (Name × ℕ)) (name : Name) (i : ℕ)
    → All (Named schemas) names
    → lookup_name name names ≡ some i
    → Named schemas (name, i)
unfolding lookup_name
lookup_name-some schemas [] name i w h = cc
lookup_name-some schemas ((n, k) ∷ rest) name i ((s, g, e), w) h =
    elim (Bool-cases (same_name n name)) [
      | inl eq ↦
          let same : k ≡ i = some-injective (sym (first k eq) ∙ h) in
          (s, ap (get_elem? schemas) (sym same) ∙ g, e ∙ same_name-eq n name eq)
      | inr ne ↦ lookup_name-some schemas rest name i w (sym (other ne) ∙ h)
    ]
  where
    first : (k : ℕ) → same_name n name ≡ true → lookup_name name ((n, k) ∷ rest) ≡ some k
    first k eq = rw eq refl

    other : same_name n name ≡ false → lookup_name name ((n, k) ∷ rest) ≡ lookup_name name rest
    other ne = rw ne refl

Named-last :
    (schemas : List Schema) (s : Schema) (p : Name × ℕ)
    → Named schemas p
    → Named (schemas ++ (s ∷ [])) p
Named-last schemas s (name, i) (t, g, e) =
    (t, get_elem?-front schemas (s ∷ []) i (get_elem?-lt schemas i t g) ∙ g, e)

Named-set_at :
    (schemas : List Schema) (s : Schema) (idx : ℕ)
    → Named schemas (s.name, idx)
    → (p : Name × ℕ) → Named schemas p
    → Named (set_at idx s schemas) p
Named-set_at schemas s idx (old, g, e) (name, i) (t, h, f) = elim (nat_eq i idx) [
  | inl eq ↦
      let same : old ≡ t = some-injective (sym g ∙ ap (get_elem? schemas) (sym eq) ∙ h) in
      (
        s,
        ap (get_elem? (set_at idx s schemas)) eq
            ∙ get_elem?-set_at idx s schemas (get_elem?-lt schemas idx old g),
        sym e ∙ ap (λ x. x.name) same ∙ f,
      )
  | inr ne ↦ (t, get_elem?-set_at_other idx i s schemas ne ∙ h, f)
]

InRange-suc : (n v : ℕ) → InRange n v → InRange (suc n) v
InRange-suc n v (inl h) = inl (omega arith)
InRange-suc n v (inr h) = inr h

-- The dictionary with a schema in place of the one at an id, and with a schema more.
abbrev pub replaced : Schema → ℕ → Dict → Dict
replaced s idx d = record {
  schemas = set_at idx s d.schemas;
  by_name = d.by_name;
  by_id = insert s.group s.item idx d.by_id;
}

abbrev pub appended : Schema → Dict → Dict
appended s d = record {
  schemas = d.schemas ++ (s ∷ []);
  by_name = (s.name, length d.schemas) ∷ d.by_name;
  by_id = insert s.group s.item (length d.schemas) d.by_id;
}

-- How an addition that succeeded came about.
pub data Added (s : Schema) (d d' : Dict) : Type 0 where
  was_replaced :
      (idx : ℕ) → lookup_name s.name d.by_name ≡ some idx → d' ≡ replaced s idx d → Added s d d'
  was_appended :
      lookup_name s.name d.by_name ≡ none
      → length d.schemas ≤ 65535
      → d' ≡ appended s d
      → Added s d d'

pub Added-try_add : (s : Schema) (d d' : Dict) → try_add s d ≡ ok d' → Added s d d'
unfolding try_add add_at
Added-try_add s d d' h = elim (Option-cases (lookup_name s.name d.by_name)) [
  | inr (idx, e) ↦
      let out : try_add s d ≡ ok (replaced s idx d) = rw e refl in
      was_replaced idx e (ok-injective (sym h ∙ out))
  | inl e ↦ elim (Bool-cases (leb (length d.schemas) 65535)) [
    | inl room ↦
        let out : try_add s d ≡ ok (appended s d) = rw (e, room) refl in
        was_appended e (leb→le (length d.schemas) 65535 room) (ok-injective (sym h ∙ out))
    | inr full ↦
        let out : try_add s d ≡ err (schema_parse "dictionary exceeds 65536 schemas") =
          rw (e, full) refl in
        cc
  ]
]

length-appended : (s : Schema) (d : Dict) → length (appended s d).schemas ≡ suc (length d.schemas)
length-appended s d = omega (arith, length-append d.schemas (s ∷ []))

replaced-IsValid :
    (s : Schema) (idx : ℕ) (d : Dict)
    → IsValid d
    → lookup_name s.name d.by_name ≡ some idx
    → IsValid (replaced s idx d)
replaced-IsValid s idx d v e =
    let named = lookup_name-some d.schemas d.by_name s.name idx v.names e in
    let room : idx < length d.schemas = get_elem?-lt d.schemas idx named.0 named.1 in
    let same : length (set_at idx s d.schemas) ≡ length d.schemas = length-set_at idx s d.schemas in
    record {
      few = omega (arith, same, v.few);
      names = All-mono (Named d.schemas) (Named-set_at d.schemas s idx named) d.by_name v.names;
      ids =
          subst (λ n. All (InRange n) (replaced s idx d).by_id.table) (sym same)
            (insert-InRange (length d.schemas) s.group s.item idx d.by_id room v.ids);
    }

appended-IsValid :
    (s : Schema) (d : Dict) → IsValid d → length d.schemas ≤ 65535 → IsValid (appended s d)
appended-IsValid s d v room =
    let n : ℕ = length d.schemas in
    let wider = All-mono (InRange n) (InRange-suc n) d.by_id.table v.ids in
    record {
      few = omega (arith, length-appended s d);
      names = (
        (s, get_elem?-last d.schemas s, refl),
        All-mono (Named d.schemas) (Named-last d.schemas s) d.by_name v.names,
      );
      ids =
          subst (λ m. All (InRange m) (appended s d).by_id.table) (sym (length-appended s d))
            (insert-InRange (suc n) s.group s.item n d.by_id (omega arith) wider);
    }

-- Adding a schema keeps a dictionary valid, whether its name is new or replaced.
pub try_add-IsValid : (s : Schema) (d d' : Dict) → IsValid d → try_add s d ≡ ok d' → IsValid d'
try_add-IsValid s d d' v h = elim (Added-try_add s d d' h) [
  | was_replaced idx e out ↦ subst IsValid (sym out) (replaced-IsValid s idx d v e)
  | was_appended e room out ↦ subst IsValid (sym out) (appended-IsValid s d v room)
]
