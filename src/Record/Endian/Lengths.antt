-- ===== src/Record/Endian/Lengths.antt =====
-- The swaps keep the lengths.
use oxihipo.Prelude.{
  ℕ, ◌+◌, ◌-◌, ◌≤◌, ◌≡◌, refl, inl, inr, arith, [], ◌∷◌, ◌++◌, reverse, leb, length, take, drop,
  Bytes, length-append, length-take, length-drop, length-reverse, Bool-cases, leb→le,
}
use oxihipo.Record.Endian.{swap_2, swap_4, swap_8, swap_elements, swap_at}

pub length-swap_2 : (bs : Bytes) → length (swap_2 bs) ≡ length bs
unfolding swap_2
length-swap_2 [] = refl
length-swap_2 (a ∷ []) = refl
length-swap_2 (a ∷ b ∷ bs) = omega (arith, length-swap_2 bs)

pub length-swap_4 : (bs : Bytes) → length (swap_4 bs) ≡ length bs
unfolding swap_4
length-swap_4 [] = refl
length-swap_4 (a ∷ []) = refl
length-swap_4 (a ∷ b ∷ []) = refl
length-swap_4 (a ∷ b ∷ c ∷ []) = refl
length-swap_4 (a ∷ b ∷ c ∷ d ∷ bs) = omega (arith, length-swap_4 bs)

pub length-swap_8 : (bs : Bytes) → length (swap_8 bs) ≡ length bs
unfolding swap_8
length-swap_8 [] = refl
length-swap_8 (a ∷ []) = refl
length-swap_8 (a ∷ b ∷ []) = refl
length-swap_8 (a ∷ b ∷ c ∷ []) = refl
length-swap_8 (a ∷ b ∷ c ∷ d ∷ []) = refl
length-swap_8 (a ∷ b ∷ c ∷ d ∷ e ∷ []) = refl
length-swap_8 (a ∷ b ∷ c ∷ d ∷ e ∷ f ∷ []) = refl
length-swap_8 (a ∷ b ∷ c ∷ d ∷ e ∷ f ∷ g ∷ []) = refl
length-swap_8 (a ∷ b ∷ c ∷ d ∷ e ∷ f ∷ g ∷ h ∷ bs) = omega (arith, length-swap_8 bs)

pub length-swap_elements : (bs : Bytes) (n : ℕ) → length (swap_elements bs n) ≡ length bs
unfolding swap_elements
length-swap_elements bs n = ground (arith, length-swap_2 bs, length-swap_4 bs, length-swap_8 bs)

-- A piece replaced by one of its length.
pub length-replace :
    (buf part : Bytes) (lo hi : ℕ)
    → lo ≤ hi
    → hi ≤ length buf
    → length part ≡ hi - lo
    → length (take lo buf ++ (part ++ drop hi buf)) ≡ length buf
length-replace buf part lo hi p q e = omega (
  arith,
  length-append (take lo buf) (part ++ drop hi buf),
  length-append part (drop hi buf),
  length-take lo buf,
  length-drop hi buf,
)

pub length-swap_at : (buf : Bytes) (off width : ℕ) → length (swap_at buf off width) ≡ length buf
unfolding swap_at
length-swap_at buf off width = elim (Bool-cases (leb (off + width) (length buf))) [
  | inr out ↦ rw out refl
  | inl fits ↦
      let h = leb→le (off + width) (length buf) fits in
      rw fits (
        length-replace buf (reverse (take width (drop off buf))) off (off + width) (omega arith) h (
          omega (
            arith,
            length-reverse (take width (drop off buf)),
            length-take width (drop off buf),
            length-drop off buf,
          )))
]
