-- ===== src/Wire/Bytes/Laws.antt =====
-- Words and their bytes: decoding inverts encoding, and a read sees the last write.
use mathlib.Core.List.{append-nil, reverse-reverse, reverse_aux}
use mathlib.Core.Path.{ap₂, subst}
use native.Mathlib.Nat.{pow-suc}
use oxihipo.Prelude.{
  ℕ, zero, suc, ◌+◌, ◌-◌, ◌/◌, ◌^◌, ◌≤◌, ◌<◌, ◌≡◌, refl, sym, ap, ◌∙◌, arith, [], ◌∷◌, ◌++◌,
  reverse, le→leb, length, take, drop, All, length-append, length-take, length-drop, length-reverse,
  take-append-length, drop-append-length, drop-drop, Bytes, ok, panic, ok-injective, All-take,
  All-drop,
}
use oxihipo.Wire.Bytes.{
  IsByte, le_value, le_bytes, be_bytes, swap_bytes, slice, copy_at, read_le, write_le,
}

pub length-le_bytes : (n v : ℕ) → length (le_bytes n v) ≡ n
unfolding le_bytes
length-le_bytes zero v = refl
length-le_bytes (suc n) v = ap suc (length-le_bytes n (v / 256))

pub length-be_bytes : (n v : ℕ) → length (be_bytes n v) ≡ n
unfolding be_bytes
length-be_bytes n v = length-reverse (le_bytes n v) ∙ length-le_bytes n v

pub le_bytes-IsByte : (n v : ℕ) → All IsByte (le_bytes n v)
unfolding le_bytes
le_bytes-IsByte zero v = tt
le_bytes-IsByte (suc n) v = (omega arith, le_bytes-IsByte n (v / 256))

pub le_value-lt : (bs : Bytes) → All IsByte bs → le_value bs < 256 ^ length bs
unfolding le_value
le_value-lt [] h = omega arith
le_value-lt (b ∷ bs) (hb, h) = omega (arith, le_value-lt bs h, pow-suc 256 (length bs))

pub le_value-le_bytes : (n v : ℕ) → v < 256 ^ n → le_value (le_bytes n v) ≡ v
unfolding le_value le_bytes
le_value-le_bytes zero v h = omega arith
le_value-le_bytes (suc n) v h =
    omega (arith, le_value-le_bytes n (v / 256) (omega (arith, pow-suc 256 n)))

pub le_bytes-le_value : (bs : Bytes) → All IsByte bs → le_bytes (length bs) (le_value bs) ≡ bs
unfolding le_value le_bytes
le_bytes-le_value [] h = refl
le_bytes-le_value (b ∷ bs) (hb, h) = ground (arith, le_bytes-le_value bs h)

All-reverse_aux :
    (bs acc : Bytes) → All IsByte bs → All IsByte acc → All IsByte (reverse_aux bs acc)
All-reverse_aux [] acc h k = k
All-reverse_aux (b ∷ bs) acc (hb, h) k = All-reverse_aux bs (b ∷ acc) h (hb, k)

-- A word that is stored in the other byte order comes back by `swap_bytes`.
pub swap_bytes-be_bytes : (n v : ℕ) → v < 256 ^ n → swap_bytes n (le_value (be_bytes n v)) ≡ v
unfolding swap_bytes be_bytes
swap_bytes-be_bytes n v h =
    let bs : Bytes = be_bytes n v in
    let same : le_bytes n (le_value bs) ≡ bs =
      ap (λ k. le_bytes k (le_value bs)) (sym (length-be_bytes n v))
      ∙ le_bytes-le_value bs (All-reverse_aux (le_bytes n v) [] (le_bytes-IsByte n v) tt) in
    ap (λ x. le_value (reverse x)) same
    ∙ ap le_value (reverse-reverse (le_bytes n v))
    ∙ le_value-le_bytes n v h

pub slice_total :
    (buf : Bytes) (lo hi : ℕ)
    → lo ≤ hi
    → hi ≤ length buf
    → slice buf lo hi ≡ ok (take (hi - lo) (drop lo buf))
unfolding slice
slice_total buf lo hi p q = ground arith

pub slice_panics : (buf : Bytes) (lo hi : ℕ) → length buf < hi → slice buf lo hi ≡ panic
unfolding slice
slice_panics buf lo hi p = ground arith

-- `slice` at the place where a piece of the buffer stands.
pub slice-append :
    (pre mid post : Bytes) (lo hi : ℕ)
    → lo ≡ length pre
    → hi ≡ length pre + length mid
    → slice (pre ++ (mid ++ post)) lo hi ≡ ok mid
slice-append pre mid post lo hi p q =
    slice_total (pre ++ (mid ++ post)) lo hi (omega arith)
      (omega (arith, length-append pre (mid ++ post), length-append mid post))
    ∙ ap (λ k. ok (take k (drop lo (pre ++ (mid ++ post))))) {y = length mid} (omega arith)
    ∙ ap (λ k. ok (take (length mid) (drop k (pre ++ (mid ++ post))))) p
    ∙ ap (λ x. ok (take (length mid) x)) (drop-append-length pre (mid ++ post))
    ∙ ap ok (take-append-length mid post)

pub read_le_total :
    (n : ℕ) (buf : Bytes) (off : ℕ) → off + n ≤ length buf → (v : ℕ) × (read_le n buf off ≡ ok v)
unfolding read_le
read_le_total n buf off h = (
  le_value (take (off + n - off) (drop off buf)),
  rw (slice_total buf off (off + n) (omega arith) h),
)

-- Reading a word where its bytes stand.
pub read_le-append :
    (n : ℕ) (pre mid post : Bytes) (off : ℕ)
    → off ≡ length pre
    → length mid ≡ n
    → read_le n (pre ++ (mid ++ post)) off ≡ ok (le_value mid)
unfolding read_le
read_le-append n pre mid post off p q = rw (slice-append pre mid post off (off + n) p (omega arith))

pub write_le-append :
    (n : ℕ) (pre mid post : Bytes) (off v : ℕ)
    → off ≡ length pre
    → length mid ≡ n
    → write_le n (pre ++ (mid ++ post)) off v ≡ ok (pre ++ (le_bytes n v ++ post))
unfolding write_le copy_at
write_le-append n pre mid post off v p q =
    rw
      (le→leb (off + length (le_bytes n v)) (length (pre ++ (mid ++ post))) (
        omega
          (arith, length-le_bytes n v, length-append pre (mid ++ post), length-append mid post)))
      (ap₂ (λ x y. ok (x ++ (le_bytes n v ++ y)))
        (ap (λ k. take k (pre ++ (mid ++ post))) p ∙ take-append-length pre (mid ++ post))
        (ap (λ k. drop k (pre ++ (mid ++ post))) {y = length pre + length mid}
            (omega (arith, length-le_bytes n v))
          ∙ sym (drop-drop (length mid) (length pre) (pre ++ (mid ++ post)))
          ∙ ap (drop (length mid)) (drop-append-length pre (mid ++ post))
          ∙ drop-append-length mid post))

pub swap_bytes-lt : (n v : ℕ) → swap_bytes n v < 256 ^ n
unfolding swap_bytes be_bytes
swap_bytes-lt n v =
    subst (λ k. le_value (be_bytes n v) < 256 ^ k) (length-be_bytes n v)
      (le_value-lt (be_bytes n v) (All-reverse_aux (le_bytes n v) [] (le_bytes-IsByte n v) tt))

-- A word that a read returns fits its width.
pub read_le-lt :
    (n : ℕ) (buf : Bytes) (off v : ℕ)
    → All IsByte buf
    → off + n ≤ length buf
    → read_le n buf off ≡ ok v
    → v < 256 ^ n
unfolding read_le
read_le-lt n buf off v h le e =
    let w : Bytes = take (off + n - off) (drop off buf) in
    let len : length w ≡ n =
      omega (arith, length-take (off + n - off) (drop off buf), length-drop off buf) in
    let value : ok (le_value w) ≡ ok v =
      sym (rw (slice_total buf off (off + n) (omega arith) le)) ∙ e in
    subst (λ x. x < 256 ^ n) (ok-injective value)
      (subst (λ k. le_value w < 256 ^ k) len
        (le_value-lt w
          (All-take IsByte (off + n - off) (drop off buf) (All-drop IsByte off buf h))))

-- `&buf[pos..]`
pub slice_rest :
    (pre rest : Bytes) → slice (pre ++ rest) (length pre) (length (pre ++ rest)) ≡ ok rest
slice_rest pre rest =
    ap (λ x. slice (pre ++ x) (length pre) (length (pre ++ rest))) (sym (append-nil rest))
    ∙ slice-append pre rest [] (length pre) (length (pre ++ rest)) refl (length-append pre rest)
