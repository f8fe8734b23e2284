-- ===== src/Prelude/Results.antt =====
-- The outcome of an operation. `panic` stands for an abort of the process: an index out of range
-- or a failed `expect` (release builds set `panic = "abort"`).
use Prim.Native.Nat.{ℕ}
use Prim.Native.String.{String}
use mathlib.Core.Path.{◌≡◌, refl, ap}
use mathlib.Core.List.{List}
use mathlib.Core.Option.{Option, none, some}
use mathlib.Core.Logic.{◌≢◌}
use mathlib.Core.Bool.{Bool, true, false}

abbrev pub Bytes : Type 0
Bytes = List ℕ

-- A name, a path or a text that the code puts together is a list of code points; the payload of an
-- I/O error is left out.
pub data HipoError : Type 0 where
  io : HipoError
  file_too_small : ℕ → ℕ → HipoError
  bad_magic : ℕ → ℕ → ℕ → HipoError
  unsupported_version : ℕ → HipoError
  unknown_compression : ℕ → HipoError
  unknown_schema : List ℕ → HipoError
  unknown_column : List ℕ → List ℕ → HipoError
  type_mismatch : List ℕ → List ℕ → String → String → HipoError
  column_length_mismatch : List ℕ → List ℕ → ℕ → ℕ → HipoError
  bank_too_large : List ℕ → ℕ → ℕ → HipoError
  corrupt_record : ℕ → String → HipoError
  invalid_tag_name : List ℕ → String → HipoError
  event_index_out_of_range : ℕ → ℕ → HipoError
  in_place_tag_unsupported : ℕ → List ℕ → HipoError
  filter_ignored_by_column_sweep : List ℕ → List ℕ → HipoError
  invalid_usage : String → HipoError
  compression_error : String → HipoError
  thread_pool : List ℕ → HipoError
  internal : String → HipoError
  decompress_underflow : ℕ → ℕ → HipoError
  schema_parse : String → HipoError
  invalid_glob : List ℕ → List ℕ → HipoError
  path : List ℕ → HipoError → HipoError
  at_offset : ℕ → HipoError → HipoError

pub data Result {ℓ} (A : Type ℓ) : Type ℓ where
  ok : A → Result A
  err : HipoError → Result A
  panic : Result A

-- `?` after the first computation
infixl 5 ◌>>=◌
abbrev pub ◌>>=◌ {ℓ κ} : {S : Type ℓ} {T : Type κ} → Result S → (S → Result T) → Result T
panic >>= next = panic
err problem >>= next = err problem
ok s >>= next = next s

infixl 5 ◌>>◌
abbrev pub ◌>>◌ {κ} : {T : Type κ} → Result (Unit {0}) → Result T → Result T
check >> rest = check >>= λ _. rest

-- `if bad { return Err(e) }`
abbrev pub refuse_if : Bool → HipoError → Result (Unit {0})
refuse_if true e = err e
refuse_if false e = ok tt

abbrev pub ok_or {ℓ} : {A : Type ℓ} → Option A → HipoError → Result A
ok_or (some a) e = ok a
ok_or none e = err e

abbrev pub map_ok {ℓ κ} : {A : Type ℓ} {B : Type κ} → (A → B) → Result A → Result B
map_ok f (ok a) = ok (f a)
map_ok f (err e) = err e
map_ok f panic = panic

pub >>=-eq-ok {ℓ κ} :
    {S : Type ℓ} {T : Type κ} (first : Result S) (next : S → Result T) {t : T}
    → (first >>= next) ≡ ok t
    → (s : S) × (first ≡ ok s) × (next s ≡ ok t)
>>=-eq-ok panic next e = cc
>>=-eq-ok (err problem) next e = cc
>>=-eq-ok (ok s) next e = (s, refl, e)

pub ok-injective {ℓ} : {A : Type ℓ} {a b : A} → ok a ≡ ok b → a ≡ b
ok-injective {a} e = ap (λ r. elim r [ ok x ↦ x | _ ↦ a ]) e

-- A chain does not abort where none of its parts does.
pub >>=-ne-panic {ℓ κ} :
    {S : Type ℓ} {T : Type κ} (first : Result S) (next : S → Result T)
    → first ≢ panic
    → ((s : S) → first ≡ ok s → next s ≢ panic)
    → (first >>= next) ≢ panic
>>=-ne-panic panic next h k e = h refl
>>=-ne-panic (err problem) next h k e = cc
>>=-ne-panic (ok s) next h k e = k s refl e

pub ok-ne-panic {ℓ} : {A : Type ℓ} (a : A) → ok a ≢ panic
ok-ne-panic a e = cc

pub err-ne-panic {ℓ} : {A : Type ℓ} (e : HipoError) → ◌≢◌ {A = Result A} (err e) panic
err-ne-panic problem e = cc

pub refuse_if-ne-panic : (bad : Bool) (e : HipoError) → refuse_if bad e ≢ panic
refuse_if-ne-panic true problem e = cc
refuse_if-ne-panic false problem e = cc

pub refuse_if-ok :
    (bad : Bool) (e : HipoError) {u : Unit {0}} → refuse_if bad e ≡ ok u → bad ≡ false
refuse_if-ok true problem e = cc
refuse_if-ok false problem e = refl

pub >>=-map_ok {ℓ κ μ} :
    {S : Type ℓ} {T : Type κ} {W : Type μ} (first : Result S) {next : S → Result W}
    (next' : S → Result T) (f : T → W)
    → ((s : S) → next s ≡ map_ok f (next' s))
    → (first >>= next) ≡ map_ok f (first >>= next')
>>=-map_ok panic next' f h = refl
>>=-map_ok (err problem) next' f h = refl
>>=-map_ok (ok s) next' f h = h s
