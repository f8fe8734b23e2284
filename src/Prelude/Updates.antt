-- ===== src/Prelude/Updates.antt =====
-- Lists with an element replaced.
use Prim.Native.Nat.{ℕ, zero, suc, ◌<◌}
use mathlib.Core.Path.{◌≡◌, refl, ap, subst}
use mathlib.Core.Logic.{◌≢◌}
use mathlib.Core.List.{List, [], ◌∷◌, ◌++◌}
use mathlib.Core.Option.{some}
use native.Mathlib.Omega.{arith}
use oxihipo.Prelude.Lists.{length, get_elem?, replicate, All}

module _ {ℓ} {A : Type ℓ} where
  -- `xs[k] = v`, for a `k` in range
  abbrev pub set_at : ℕ → A → List A → List A
  set_at k v [] = []
  set_at zero v (x ∷ xs) = v ∷ xs
  set_at (suc k) v (x ∷ xs) = x ∷ set_at k v xs

  pub length-set_at : (k : ℕ) (v : A) (xs : List A) → length (set_at k v xs) ≡ length xs
  length-set_at k v [] = refl
  length-set_at zero v (x ∷ xs) = refl
  length-set_at (suc k) v (x ∷ xs) = ap suc (length-set_at k v xs)

  pub get_elem?-set_at :
      (k : ℕ) (v : A) (xs : List A) → k < length xs → get_elem? (set_at k v xs) k ≡ some v
  get_elem?-set_at k v [] h = absurd (omega arith)
  get_elem?-set_at zero v (x ∷ xs) h = refl
  get_elem?-set_at (suc k) v (x ∷ xs) h = get_elem?-set_at k v xs (omega arith)

  pub get_elem?-set_at_other :
      (k j : ℕ) (v : A) (xs : List A) → j ≢ k → get_elem? (set_at k v xs) j ≡ get_elem? xs j
  get_elem?-set_at_other k j v [] h = refl
  get_elem?-set_at_other zero zero v (x ∷ xs) h = absurd (h refl)
  get_elem?-set_at_other zero (suc j) v (x ∷ xs) h = refl
  get_elem?-set_at_other (suc k) zero v (x ∷ xs) h = refl
  get_elem?-set_at_other (suc k) (suc j) v (x ∷ xs) h =
      get_elem?-set_at_other k j v xs (omega arith)

  pub get_elem?-last : (xs : List A) (v : A) → get_elem? (xs ++ (v ∷ [])) (length xs) ≡ some v
  get_elem?-last [] v = refl
  get_elem?-last (x ∷ xs) v = get_elem?-last xs v

  pub get_elem?-front :
      (xs ys : List A) (i : ℕ) → i < length xs → get_elem? (xs ++ ys) i ≡ get_elem? xs i
  get_elem?-front [] ys i h = absurd (omega arith)
  get_elem?-front (x ∷ xs) ys zero h = refl
  get_elem?-front (x ∷ xs) ys (suc i) h = get_elem?-front xs ys i (omega arith)

  pub get_elem?-lt : (xs : List A) (i : ℕ) (a : A) → get_elem? xs i ≡ some a → i < length xs
  get_elem?-lt [] i a h = cc
  get_elem?-lt (x ∷ xs) zero a h = omega arith
  get_elem?-lt (x ∷ xs) (suc i) a h = omega (arith, get_elem?-lt xs i a h)

  pub some-injective : {a b : A} → some a ≡ some b → a ≡ b
  some-injective {a} e = ap (λ r. elim r [ some x ↦ x | _ ↦ a ]) e

module _ {ℓ κ} {A : Type ℓ} (P : A → Type κ) where
  pub All-set_at : (k : ℕ) (v : A) (xs : List A) → P v → All P xs → All P (set_at k v xs)
  All-set_at k v [] p h = tt
  All-set_at zero v (x ∷ xs) p (q, h) = (p, h)
  All-set_at (suc k) v (x ∷ xs) p (q, h) = (q, All-set_at k v xs p h)

  pub All-replicate : (n : ℕ) (v : A) → P v → All P (replicate n v)
  All-replicate zero v p = tt
  All-replicate (suc n) v p = (p, All-replicate n v p)

  pub All-get : (xs : List A) (i : ℕ) (a : A) → All P xs → get_elem? xs i ≡ some a → P a
  All-get [] i a h g = cc
  All-get (x ∷ xs) zero a (p, h) g = subst P (some-injective g) p
  All-get (x ∷ xs) (suc i) a (p, h) g = All-get xs i a h g

  pub All-mono {μ} : {Q : A → Type μ} (f : (a : A) → P a → Q a) (xs : List A) → All P xs → All Q xs
  All-mono f [] h = tt
  All-mono f (x ∷ xs) (p, h) = (f x p, All-mono f xs h)
