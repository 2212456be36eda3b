-- ===== src/Ring/Capacity.antt =====
-- `next_power_of_two` rounds up to a power of two, for arguments that fit 32 bits.
use native.Mathlib.Nat.{pow-le-pow_right, pow-succ', one-le-pow, div-eq_of_lt, div-add-mod, mod-lt}
use lib_stereo_camera.Common.{
  ℕ, zero, suc, ◌+◌, ◌-◌, ◌*◌, ◌/◌, ◌^◌, ◌≤◌, ◌<◌, ◌≡◌, refl, arith, ◌∙◌, dec_lt, max, ap,
  Bool-cases, inl, inr, ◌==◌,
}
use lib_stereo_camera.Common.Bits.{shr, bit, shr-bit_or, bit-bit_or, bit-shr}
use lib_stereo_camera.Ring.{smear, next_power_of_two}

-- `v` has at most `l` bits, and the highest `j` of them are ones.
record HasOnes (l j v : ℕ) : Type 0 where
  fits : v < 2 ^ l
  ones : (i : ℕ) → i < l → l ≤ j + i → bit v i ≡ 1

shr_small : (l v : ℕ) → v < 2 ^ l → shr v l ≡ 0
shr_small l v h = div-eq_of_lt h

lt_of_shr : (l v : ℕ) → shr v l ≡ 0 → v < 2 ^ l
lt_of_shr l v h = omega (
  arith,
  div-add-mod v (2 ^ l),
  ap (λ (t : ℕ). 2 ^ l * t) h,
  mod-lt v (one-le-pow l 2 (omega arith)),
)

-- One smearing doubles the run of ones.
smear-HasOnes : (l j v : ℕ) → HasOnes l j v → HasOnes l (j + j) (smear j v)
unfolding smear
smear-HasOnes l j v h = record { fits = fits'; ones = ones' }
  where
    fits' : smear j v < 2 ^ l
    fits' = lt_of_shr l _ (
        shr-bit_or l v (shr v j)
        ∙ rw (shr_small l v h.fits, shr_small l (shr v j) (omega (arith, h.fits))) refl)

    ones' : (i : ℕ) → i < l → l ≤ j + j + i → bit (smear j v) i ≡ 1
    ones' i lt le = elim (dec_lt (j + i) l) [
      | yes inside ↦
          omega
            (arith, bit-bit_or i v (shr v j), bit-shr i j v, h.ones (j + i) inside (omega arith))
      | no above ↦ omega (arith, bit-bit_or i v (shr v j), h.ones i lt (omega arith))
    ]

-- A number all of whose `l` bits are ones.
all_ones : (l v : ℕ) → v < 2 ^ l → ((i : ℕ) → i < l → bit v i ≡ 1) → v + 1 ≡ 2 ^ l
all_ones zero v h ones = omega arith
all_ones (suc l) v h ones = omega (
  arith,
  pow-succ' 2 l,
  ones 0 (omega arith),
  all_ones l (v / 2) (omega (arith, pow-succ' 2 l))
      (λ i lt. bit-shr i 1 v ∙ ones (1 + i) (omega arith)),
)

-- The number of bits of `n`.
bit_length : (k n : ℕ) → n < 2 ^ k → (l : ℕ) × (l ≤ k) × (2 ^ l ≤ 2 * n + 1) × HasOnes l 1 n
bit_length zero n h =
    (0, omega arith, omega arith, record { fits = h; ones = λ i lt le. elim lt [ ] })
bit_length (suc k) n h = elim (dec_lt n (2 ^ k)) [
  | yes small ↦ let (l, le, top, o) = bit_length k n small in (l, omega arith, top, o)
  | no large ↦
      (suc k, omega arith, omega (arith, pow-succ' 2 k), record { fits = h; ones = top_bit large })
]
  where
    top_bit : ¬ (n < 2 ^ k) → (i : ℕ) → i < suc k → suc k ≤ 1 + i → bit n i ≡ 1
    top_bit large i lt le = rw last (grind (arith, pow-succ' 2 k))
      where
        last : i ≡ k
        last = omega arith

smear_all :
    (l n : ℕ)
    → l ≤ 32
    → HasOnes l 1 n
    → smear 16 (smear 8 (smear 4 (smear 2 (smear 1 n)))) + 1 ≡ 2 ^ l
smear_all l n le o = all_ones l _ all.fits (λ i lt. all.ones i lt (omega arith))
  where
    all : HasOnes l 32 (smear 16 (smear 8 (smear 4 (smear 2 (smear 1 n)))))
    all =
        smear-HasOnes l 16 _
          (smear-HasOnes l 8 _ (smear-HasOnes l 4 _ (smear-HasOnes l 2 _ (smear-HasOnes l 1 n o))))

-- For a capacity of at most 2 ^ 32, `next_power_of_two` gives the least power of two that is not
-- below it.
pub next_power_of_two_lem :
    (v : ℕ)
    → v ≤ 2 ^ 32
    → (k : ℕ) × (k ≤ 32) × (next_power_of_two v ≡ 2 ^ k) × (v ≤ 2 ^ k) × (2 ^ k < 2 * max v 1)
unfolding next_power_of_two
next_power_of_two_lem v h = elim (Bool-cases (v == 0)) [
  | inl e ↦ (0, omega arith, rw e, ground arith, omega arith)
  | inr e ↦
      let (l, le, top, o) = bit_length 32 (v - 1) (omega arith) in
      let sum : smear 16 (smear 8 (smear 4 (smear 2 (smear 1 (v - 1))))) + 1 ≡ 2 ^ l =
        smear_all l (v - 1) le o in
      let pos : 1 ≤ v = ground arith in
      let small : 2 ^ l ≤ 2 ^ 32 = pow-le-pow_right {n = 2} (omega arith) le in
      (l, le, rw (e, sum) (omega arith), omega (arith, o.fits), omega arith)
]
