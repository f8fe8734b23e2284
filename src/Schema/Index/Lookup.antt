-- ===== src/Schema/Index/Lookup.antt =====
-- Lookups after an insertion into a `SchemaIndex`.
use oxihipo.Prelude.{
  ℕ, zero, suc, ◌+◌, ◌-◌, ◌*◌, ◌^◌, ◌<◌, ◌≡◌, ◌≢◌, ◌⊎◌, inl, inr, refl, sym, ap, ◌∙◌, arith, List,
  [], ◌∷◌, ◌++◌, Option, none, some, ◌==◌, leb, if◌then◌else◌, length, get_elem?, replicate, set_at,
  Bool-cases, leb→le, nat_eq, length-append, length-replicate, leb_false→lt, bit_or,
}
use oxihipo.Prelude.Bits.{bit_or_fields}
use oxihipo.Schema.Index.{SchemaIndex, missing, key, insert, resize, present, and_present, get}

-- The entry of a table at a key, `missing` past its end.
abbrev entry : List ℕ → ℕ → ℕ
entry xs k = elim (get_elem? xs k) [ none ↦ missing | some v ↦ v ]

entry-append : (xs : List ℕ) (n k : ℕ) → entry (xs ++ replicate n missing) k ≡ entry xs k
entry-append [] zero k = refl
entry-append [] (suc n) zero = refl
entry-append [] (suc n) (suc k) = entry-append [] n k
entry-append (x ∷ xs) n zero = refl
entry-append (x ∷ xs) n (suc k) = entry-append xs n k

entry-set_at : (xs : List ℕ) (k v : ℕ) → k < length xs → entry (set_at k v xs) k ≡ v
entry-set_at [] k v h = absurd (omega arith)
entry-set_at (x ∷ xs) zero v h = refl
entry-set_at (x ∷ xs) (suc k) v h = entry-set_at xs k v (omega arith)

entry-set_at_other : (xs : List ℕ) (k j v : ℕ) → j ≢ k → entry (set_at k v xs) j ≡ entry xs j
entry-set_at_other [] k j v h = refl
entry-set_at_other (x ∷ xs) zero zero v h = absurd (h refl)
entry-set_at_other (x ∷ xs) zero (suc j) v h = refl
entry-set_at_other (x ∷ xs) (suc k) zero v h = refl
entry-set_at_other (x ∷ xs) (suc k) (suc j) v h = entry-set_at_other xs k j v (omega arith)

and_present-entry :
    (o : Option ℕ) → and_present o ≡ present (elim o [ none ↦ missing | some v ↦ v ])
and_present-entry none = refl
and_present-entry (some v) = refl

get-entry :
    (group item : ℕ) (index : SchemaIndex)
    → get group item index ≡ present (entry index.table (key group item))
unfolding get
get-entry group item index = and_present-entry (get_elem? index.table (key group item))

key-sum : (group item : ℕ) → group < 2 ^ 16 → item < 2 ^ 8 → key group item ≡ item + group * 2 ^ 8
unfolding key
key-sum group item g i =
    ap (bit_or item) {y = group * 2 ^ 8} (omega arith) ∙ bit_or_fields 8 group item i

resize-entry :
    (k : ℕ) (index : SchemaIndex)
    → (k < length (resize k index).table)
      × ((j : ℕ) → entry (resize k index).table j ≡ entry index.table j)
unfolding resize
resize-entry k index =
    let more : ℕ = k + 1 - length index.table in
    elim (Bool-cases (leb (length index.table) k)) [
      | inl short ↦
          let le = leb→le (length index.table) k short in
          rw short (
            omega (
              arith,
              length-append index.table (replicate more missing),
              length-replicate more missing,
            ),
            λ j. entry-append index.table more j,
          )
      | inr long ↦ rw long (leb_false→lt (length index.table) k long, λ j. refl)
    ]

-- The identifier that was inserted is found under the new id, and every other identifier as before.
-- Groups have 16 bits and items 8. The id 65535 stands for an absent entry.
pub get-insert :
    (group item idx : ℕ) (index : SchemaIndex) (group' item' : ℕ)
    → group < 2 ^ 16
    → item < 2 ^ 8
    → group' < 2 ^ 16
    → item' < 2 ^ 8
    → (get group item (insert group item idx index) ≡ (if idx == 65535 then none else some idx))
      × ((group' ≡ group) × (item' ≡ item)
          ⊎ (get group' item' (insert group item idx index) ≡ get group' item' index))
unfolding insert
get-insert group item idx index group' item' g i g' i' =
    let k : ℕ = key group item in
    let k' : ℕ = key group' item' in
    let (room, same) = resize-entry k index in
    let found =
      get-entry group item (insert group item idx index)
      ∙ ap present (entry-set_at (resize k index).table k idx room) in
    (
      found,
      elim (nat_eq k' k) [
        | inl eq ↦ inl (
          omega (arith, key-sum group item g i, key-sum group' item' g' i'),
          omega (arith, key-sum group item g i, key-sum group' item' g' i'),
        )
        | inr ne ↦ inr (
            get-entry group' item' (insert group item idx index)
            ∙ ap present (entry-set_at_other (resize k index).table k k' idx ne ∙ same k')
            ∙ sym (get-entry group' item' index))
      ],
    )

-- What is found stands in the table, and is not the mark of an absent entry.
pub get-table :
    (group item i : ℕ) (index : SchemaIndex)
    → get group item index ≡ some i
    → (get_elem? index.table (key group item) ≡ some i) × (i ≢ missing)
unfolding get
get-table group item i index h = from (get_elem? index.table (key group item)) h
  where
    from : (o : Option ℕ) → and_present o ≡ some i → (o ≡ some i) × (i ≢ missing)
    from none h = cc
    from (some v) h = ground (arith, h)
