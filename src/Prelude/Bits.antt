-- ===== src/Prelude/Bits.antt =====
-- `&` with a mask of low bits, and `|` of fields that do not overlap, as arithmetic.
use Prim.Native.Nat.{ℕ, zero, suc, ◌+◌, ◌-◌, ◌*◌, ◌/◌, ◌%◌, ◌^◌, ◌≤◌, ◌<◌, min, max}
use Prim.Native.Nat.{bit_and, bit_or, digits, bit_and-bitwise, bit_or-bitwise}
use mathlib.Core.Path.{◌≡◌, refl, ap, ◌∙◌}
use native.Mathlib.Nat.{pow-suc, one-le-pow}
use native.Mathlib.Omega.{arith}

-- `x >> k` of an unsigned word; it never overflows.
infixl 72 ◌>>>◌
abbrev pub ◌>>>◌ : ℕ → ℕ → ℕ
x >>> k = x / 2 ^ k

-- `x << k` of a `u32`, which drops what leaves the word.
infixl 72 ◌<<<◌
abbrev pub ◌<<<◌ : ℕ → ℕ → ℕ
x <<< k = x * 2 ^ k % 2 ^ 32

-- More rounds than the first number has digits change nothing.
digits_more :
    (z : ℕ → ℕ) (f : ℕ → ℕ → ℕ) (n m a b : ℕ) → a ≤ n → a ≤ m → digits z f n a b ≡ digits z f m a b
digits_more z f zero zero zero b p q = refl
digits_more z f zero (suc m) zero b p q = refl
digits_more z f (suc n) zero zero b p q = refl
digits_more z f (suc n) (suc m) zero b p q = refl
digits_more z f zero m (suc a) b p q = absurd (omega arith)
digits_more z f (suc n) zero (suc a) b p q = absurd (omega arith)
digits_more z f (suc n) (suc m) (suc a) b p q =
    ap (λ (t : ℕ). t * 2 + f (suc a % 2) (b % 2))
      (digits_more z f n m (suc a / 2) (b / 2) (omega arith) (omega arith))

bit_and_unfold : (a b : ℕ) → bit_and a b ≡ bit_and (a / 2) (b / 2) * 2 + min (a % 2) (b % 2)
bit_and_unfold zero b = simp bit_and-bitwise (omega arith)
bit_and_unfold (suc a) b = simp bit_and-bitwise (
    ap (λ (t : ℕ). t * 2 + min (suc a % 2) (b % 2))
      (digits_more (λ y. 0) min a (suc a / 2) (suc a / 2) (b / 2) (omega arith) (omega arith)))

bit_or_unfold : (a b : ℕ) → bit_or a b ≡ bit_or (a / 2) (b / 2) * 2 + max (a % 2) (b % 2)
bit_or_unfold zero b = simp bit_or-bitwise (omega arith)
bit_or_unfold (suc a) b = simp bit_or-bitwise (
    ap (λ (t : ℕ). t * 2 + max (suc a % 2) (b % 2))
      (digits_more (λ y. y) max a (suc a / 2) (suc a / 2) (b / 2) (omega arith) (omega arith)))

bit_and-zero_below : (n a : ℕ) → a ≤ n → bit_and a 0 ≡ 0
bit_and-zero_below n zero h = refl
bit_and-zero_below zero (suc a) h = absurd (omega arith)
bit_and-zero_below (suc n) (suc a) h =
    omega (arith, bit_and_unfold (suc a) 0, bit_and-zero_below n (suc a / 2) (omega arith))

double-pow : (h k : ℕ) → h * 2 ^ suc k ≡ h * 2 ^ k + h * 2 ^ k
double-pow h k = omega (arith, ap (λ (t : ℕ). h * t) (pow-suc 2 k))

bit_and_low : (k hi lo : ℕ) → lo < 2 ^ k → bit_and (lo + hi * 2 ^ k) (2 ^ k - 1) ≡ lo
bit_and_low zero hi lo h =
    omega (arith, bit_and-zero_below (lo + hi * 1) (lo + hi * 1) (omega arith))
bit_and_low (suc k) hi lo h = ground (
  arith,
  bit_and_unfold (lo + hi * 2 ^ suc k) (2 ^ suc k - 1),
  double-pow hi k,
  pow-suc 2 k,
  one-le-pow k 2,
  bit_and_low k hi (lo / 2) (omega (arith, pow-suc 2 k)),
)

-- `x & (2^k - 1)` is the remainder by `2^k`.
pub bit_and_mask : (k x : ℕ) → bit_and x (2 ^ k - 1) ≡ x % 2 ^ k
bit_and_mask k x = ground (arith, one-le-pow k 2, bit_and_low k (x / 2 ^ k) (x % 2 ^ k))

-- `lo | hi << k` is a sum where `lo` fits `k` bits.
pub bit_or_fields : (k hi lo : ℕ) → lo < 2 ^ k → bit_or lo (hi * 2 ^ k) ≡ lo + hi * 2 ^ k
bit_or_fields zero hi zero h = omega (arith, bit_or-bitwise 0 (hi * 1))
bit_or_fields zero hi (suc lo) h = absurd (omega arith)
bit_or_fields (suc k) hi lo h = ground (
  arith,
  bit_or_unfold lo (hi * 2 ^ suc k),
  double-pow hi k,
  pow-suc 2 k,
  bit_or_fields k hi (lo / 2) (omega (arith, pow-suc 2 k)),
)

bit_or-zero_below : (n a : ℕ) → a ≤ n → bit_or a 0 ≡ a
bit_or-zero_below n zero h = refl
bit_or-zero_below zero (suc a) h = absurd (omega arith)
bit_or-zero_below (suc n) (suc a) h =
    omega (arith, bit_or_unfold (suc a) 0, bit_or-zero_below n (suc a / 2) (omega arith))

-- `hi << k | lo`, with the high field first.
pub bit_or_fields_high : (k hi lo : ℕ) → lo < 2 ^ k → bit_or (hi * 2 ^ k) lo ≡ lo + hi * 2 ^ k
bit_or_fields_high zero hi zero h = omega (arith, bit_or-zero_below (hi * 1) (hi * 1) (omega arith))
bit_or_fields_high zero hi (suc lo) h = absurd (omega arith)
bit_or_fields_high (suc k) hi lo h = ground (
  arith,
  bit_or_unfold (hi * 2 ^ suc k) lo,
  double-pow hi k,
  pow-suc 2 k,
  bit_or_fields_high k hi (lo / 2) (omega (arith, pow-suc 2 k)),
)

bit_or_double : (x c : ℕ) → bit_or x (2 * c) ≡ bit_or (x / 2) c * 2 + x % 2
bit_or_double x c =
    bit_or_unfold x (2 * c)
    ∙ ap (λ t. bit_or (x / 2) t * 2 + max (x % 2) (2 * c % 2)) {x = 2 * c / 2} {y = c} (omega arith)
    ∙ omega arith

bit_or_one : (x : ℕ) → bit_or x 1 ≡ x / 2 * 2 + 1
bit_or_one x =
    bit_or_unfold x 1
    ∙ ap (λ t. t * 2 + max (x % 2) 1) (bit_or-zero_below (x / 2) (x / 2) (omega arith))
    ∙ omega arith

-- `x | 1 << 10`: the bits above and below stay.
pub bit_or_bit_10 : (x : ℕ) → bit_or x 1024 ≡ x / 2 ^ 11 * 2 ^ 11 + 2 ^ 10 + x % 2 ^ 10
bit_or_bit_10 x =
    let e0 : bit_or x 1024 ≡ bit_or (x / 2) 512 * 2 + x % 2 = bit_or_double x 512 in
    let e1 : bit_or (x / 2) 512 ≡ bit_or (x / 2 / 2) 256 * 2 + x / 2 % 2 =
      bit_or_double (x / 2) 256 in
    let e2 : bit_or (x / 2 / 2) 256 ≡ bit_or (x / 2 / 2 / 2) 128 * 2 + x / 2 / 2 % 2 =
      bit_or_double (x / 2 / 2) 128 in
    let e3 : bit_or (x / 2 / 2 / 2) 128 ≡ bit_or (x / 2 / 2 / 2 / 2) 64 * 2 + x / 2 / 2 / 2 % 2 =
      bit_or_double (x / 2 / 2 / 2) 64 in
    let e4 : bit_or (x / 2 / 2 / 2 / 2) 64
        ≡ bit_or (x / 2 / 2 / 2 / 2 / 2) 32 * 2 + x / 2 / 2 / 2 / 2 % 2 =
      bit_or_double (x / 2 / 2 / 2 / 2) 32 in
    let e5 : bit_or (x / 2 / 2 / 2 / 2 / 2) 32
        ≡ bit_or (x / 2 / 2 / 2 / 2 / 2 / 2) 16 * 2 + x / 2 / 2 / 2 / 2 / 2 % 2 =
      bit_or_double (x / 2 / 2 / 2 / 2 / 2) 16 in
    let e6 : bit_or (x / 2 / 2 / 2 / 2 / 2 / 2) 16
        ≡ bit_or (x / 2 / 2 / 2 / 2 / 2 / 2 / 2) 8 * 2 + x / 2 / 2 / 2 / 2 / 2 / 2 % 2 =
      bit_or_double (x / 2 / 2 / 2 / 2 / 2 / 2) 8 in
    let e7 : bit_or (x / 2 / 2 / 2 / 2 / 2 / 2 / 2) 8
        ≡ bit_or (x / 2 / 2 / 2 / 2 / 2 / 2 / 2 / 2) 4 * 2 + x / 2 / 2 / 2 / 2 / 2 / 2 / 2 % 2 =
      bit_or_double (x / 2 / 2 / 2 / 2 / 2 / 2 / 2) 4 in
    let e8 : bit_or (x / 2 / 2 / 2 / 2 / 2 / 2 / 2 / 2) 4
        ≡ bit_or (x / 2 / 2 / 2 / 2 / 2 / 2 / 2 / 2 / 2) 2 * 2
          + x / 2 / 2 / 2 / 2 / 2 / 2 / 2 / 2 % 2 =
      bit_or_double (x / 2 / 2 / 2 / 2 / 2 / 2 / 2 / 2) 2 in
    let e9 : bit_or (x / 2 / 2 / 2 / 2 / 2 / 2 / 2 / 2 / 2) 2
        ≡ bit_or (x / 2 / 2 / 2 / 2 / 2 / 2 / 2 / 2 / 2 / 2) 1 * 2
          + x / 2 / 2 / 2 / 2 / 2 / 2 / 2 / 2 / 2 % 2 =
      bit_or_double (x / 2 / 2 / 2 / 2 / 2 / 2 / 2 / 2 / 2) 1 in
    omega (
      arith,
      e0,
      e1,
      e2,
      e3,
      e4,
      e5,
      e6,
      e7,
      e8,
      e9,
      bit_or_one (x / 2 / 2 / 2 / 2 / 2 / 2 / 2 / 2 / 2 / 2),
    )
