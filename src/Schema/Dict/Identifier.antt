-- ===== src/Schema/Dict/Identifier.antt =====
-- What the lookup of a `Dict` by identifier finds after `try_add`.
use mathlib.Core.Path.{subst}
use oxihipo.Prelude.{
  ℕ, ◌^◌, ◌<◌, ◌≡◌, ◌≢◌, ◌⊎◌, inl, inr, sym, ap, ◌∙◌, arith, none, some, length, get_elem?,
  get_elem?-set_at, get_elem?-last, get_elem?-lt, some-injective, ok,
}
use oxihipo.Schema.Types.{Schema}
use oxihipo.Schema.Index
use oxihipo.Schema.Index.{SchemaIndex, insert}
use oxihipo.Schema.Index.Lookup.{get-insert}
use oxihipo.Schema.Dict.{Dict, lookup_name, try_add, in_bounds, at_id, get_by_id}
use oxihipo.Schema.Dict.Invariant.{
  IsValid, lookup_name-some, replaced, appended, was_replaced, was_appended, Added-try_add,
}

id_at :
    (s : Schema) (idx : ℕ) (d : Dict)
    → s.group < 2 ^ 16
    → s.item < 2 ^ 8
    → idx < 65535
    → Index.get s.group s.item (insert s.group s.item idx d.by_id) ≡ some idx
id_at s idx d g i h =
    let (found, other) = get-insert s.group s.item idx d.by_id s.group s.item g i g i in
    found ∙ ground arith

get_by_id-at :
    (d : Dict) (group item i : ℕ) (s : Schema)
    → Index.get group item d.by_id ≡ some i
    → get_elem? d.schemas i ≡ some s
    → get_by_id group item d ≡ ok (some s)
unfolding get_by_id at_id
get_by_id-at d group item i s e g = ap (at_id d) e ∙ ap in_bounds g

-- After a schema with a 16-bit group and an 8-bit item is added to a valid dictionary of fewer than
-- 65535 schemas, its identifier leads to it, be its name new or not.
pub get_by_id-try_add :
    (s : Schema) (d d' : Dict)
    → IsValid d
    → length d.schemas < 65535
    → s.group < 2 ^ 16
    → s.item < 2 ^ 8
    → try_add s d ≡ ok d'
    → get_by_id s.group s.item d' ≡ ok (some s)
get_by_id-try_add s d d' v few g i h = elim (Added-try_add s d d' h) [
  | was_replaced idx e out ↦
      let (old, at, n) = lookup_name-some d.schemas d.by_name s.name idx v.names e in
      let room : idx < length d.schemas = get_elem?-lt d.schemas idx old at in
      subst (λ x. get_by_id s.group s.item x ≡ ok (some s)) (sym out)
        (get_by_id-at (replaced s idx d) s.group s.item idx s (id_at s idx d g i (omega arith))
          (get_elem?-set_at idx s d.schemas room))
  | was_appended e room out ↦
      subst (λ x. get_by_id s.group s.item x ≡ ok (some s)) (sym out)
        (get_by_id-at (appended s d) s.group s.item (length d.schemas) s
          (id_at s (length d.schemas) d g i few) (get_elem?-last d.schemas s))
]

-- When a schema replaces one of its name under another identifier, the old identifier stays in the
-- table: it leads to the new schema, whose own identifier it is not.
pub get_by_id-stale :
    (s : Schema) (d d' : Dict) (group item idx : ℕ)
    → IsValid d
    → s.group < 2 ^ 16
    → s.item < 2 ^ 8
    → group < 2 ^ 16
    → item < 2 ^ 8
    → (group ≢ s.group) ⊎ (item ≢ s.item)
    → lookup_name s.name d.by_name ≡ some idx
    → Index.get group item d.by_id ≡ some idx
    → try_add s d ≡ ok d'
    → get_by_id group item d' ≡ ok (some s)
get_by_id-stale s d d' group item idx v g i g' i' differ e there h = elim (Added-try_add s d d' h) [
  | was_appended gone room out ↦ absurd (clash (sym gone ∙ e))
  | was_replaced k k_eq out ↦
      let (old, at, n) = lookup_name-some d.schemas d.by_name s.name k v.names k_eq in
      let (found, other) = get-insert s.group s.item k d.by_id group item g i g' i' in
      let same : idx ≡ k = nat-some (sym e ∙ k_eq) in
      subst (λ x. get_by_id group item x ≡ ok (some s)) (sym out)
        (get_by_id-at (replaced s k d) group item k s
          (elim other [
            | inl (p, q) ↦ elim differ [ inl c ↦ absurd (c p) | inr c ↦ absurd (c q) ]
            | inr kept ↦ kept ∙ there ∙ ap some same
          ])
          (get_elem?-set_at k s d.schemas (get_elem?-lt d.schemas k old at)))
]
  where
    clash : none ≢ some idx
    clash p = cc

    nat-some : {a b : ℕ} → some a ≡ some b → a ≡ b
    nat-some p = some-injective p
