-- ===== src/Common/Bits.antt =====
-- Laws of the bit operations at variables, which the native numbers come without.
use Prim.Native.Nat.{
  ℕ, zero, suc, ◌+◌, ◌-◌, ◌*◌, ◌/◌, ◌%◌, ◌^◌, ◌≤◌, ◌<◌, min, max, bit_and, bit_or, digits, bitwise,
  bit_and-bitwise, bit_or-bitwise, bit_xor, bit_xor-bitwise, differ,
}
use mathlib.Core.Path.{◌≡◌, refl, ap, ap₂}
use mathlib.Core.Path.{◌∙◌}
use native.Mathlib.Nat.{
  pow-zero, pow-succ', div-div-eq-div-mul, div-add-mod, add-mul-mod_self_left, mod-eq_of_lt,
  one-le-pow, mod-lt,
}
use native.Mathlib.Omega.{arith}

-- The native operations are digit recursions on fuel; a sufficient fuel may be changed.
module _ (z : ℕ → ℕ) (f : ℕ → ℕ → ℕ) where
  enough_fuel : (n m a b : ℕ) → a ≤ n → a ≤ m → digits z f n a b ≡ digits z f m a b
  enough_fuel n m zero b p q = zero_first n m
    where
      zero_first : (n m : ℕ) → digits z f n zero b ≡ digits z f m zero b
      zero_first zero zero = refl
      zero_first zero (suc m) = refl
      zero_first (suc n) zero = refl
      zero_first (suc n) (suc m) = refl
  enough_fuel zero m (suc a) b p q = elim p [ ]
  enough_fuel (suc n) zero (suc a) b p q = elim q [ ]
  enough_fuel (suc n) (suc m) (suc a) b p q =
      rw (enough_fuel n m (suc a / 2) (b / 2) (omega arith) (omega arith))

  low_digit :
      (a b : ℕ)
      → bitwise z f (suc a) b ≡ bitwise z f (suc a / 2) (b / 2) * 2 + f (suc a % 2) (b % 2)
  low_digit a b =
      omega (arith, enough_fuel a (suc a / 2) (suc a / 2) (b / 2) (omega arith) (omega arith))

pub bit_or_digit : (a b : ℕ) → bit_or a b ≡ bit_or (a / 2) (b / 2) * 2 + max (a % 2) (b % 2)
bit_or_digit zero b = simp bit_or-bitwise (omega arith)
bit_or_digit (suc a) b = simp bit_or-bitwise (low_digit (λ y. y) max a b)

pub bit_and_digit : (a b : ℕ) → bit_and a b ≡ bit_and (a / 2) (b / 2) * 2 + min (a % 2) (b % 2)
bit_and_digit zero b = simp bit_and-bitwise (omega arith)
bit_and_digit (suc a) b = simp bit_and-bitwise (low_digit (λ y. 0) min a b)

pub pow-add : (m i j : ℕ) → m ^ (i + j) ≡ m ^ i * m ^ j
pow-add m zero j = rw pow-zero (ground (arith, nothing))
  where
    nothing : 0 + j ≡ j
    nothing = omega arith
pow-add m (suc i) j =
    ap (λ k. m ^ k) suc_left
    ∙ pow-succ' m (i + j)
    ∙ omega
        (arith, ap (λ (t : ℕ). m * t) (pow-add m i j), ap (λ (t : ℕ). t * m ^ j) (pow-succ' m i))
  where
    suc_left : suc i + j ≡ suc (i + j)
    suc_left = omega arith

-- `x >> i`
abbrev pub shr : ℕ → ℕ → ℕ
shr x i = x / 2 ^ i

-- Bit `i` of `x`, 0 or 1.
abbrev pub bit : ℕ → ℕ → ℕ
bit x i = shr x i % 2

shr-suc : (x i : ℕ) → shr x (suc i) ≡ shr (x / 2) i
shr-suc x i = rw (pow-succ', ← div-div-eq-div-mul)

pub shr-bit_or : (i a b : ℕ) → shr (bit_or a b) i ≡ bit_or (shr a i) (shr b i)
shr-bit_or zero a b = rw (div_one a, div_one b, div_one (bit_or a b))
  where
    div_one : (x : ℕ) → x / 2 ^ 0 ≡ x
    div_one x = omega arith
shr-bit_or (suc i) a b =
    rw (shr-suc (bit_or a b), shr-suc a, shr-suc b, halves) (shr-bit_or i (a / 2) (b / 2))
  where
    halves : bit_or a b / 2 ≡ bit_or (a / 2) (b / 2)
    halves = omega (arith, bit_or_digit a b)

pub bit-bit_or : (i a b : ℕ) → bit (bit_or a b) i ≡ max (bit a i) (bit b i)
bit-bit_or i a b = rw shr-bit_or (omega (arith, bit_or_digit (shr a i) (shr b i)))

pub bit-shr : (i j x : ℕ) → bit (shr x j) i ≡ bit x (j + i)
bit-shr i j x = rw (pow-add, ← div-div-eq-div-mul)

bit_and-zero : (k a : ℕ) → a < k → bit_and a 0 ≡ 0
bit_and-zero zero a h = elim h [ ]
bit_and-zero (suc k) zero h = refl
bit_and-zero (suc k) (suc a) h =
    omega (arith, bit_and_digit (suc a) 0, bit_and-zero k (suc a / 2) (omega arith))

mod_double : (m a : ℕ) → 1 ≤ m → a % (2 * m) ≡ a / 2 % m * 2 + a % 2
mod_double m a h =
    ap (λ k. k % (2 * m)) split
    ∙ add-mul-mod_self_left (a / 2 % m * 2 + a % 2) (2 * m) (a / 2 / m)
    ∙ mod-eq_of_lt small
  where
    split : a ≡ a / 2 % m * 2 + a % 2 + 2 * m * (a / 2 / m)
    split = omega (arith, div-add-mod (a / 2) m)

    small : a / 2 % m * 2 + a % 2 < 2 * m
    small = omega (arith, mod-lt (a / 2) h)

-- A mask of `k` ones is the remainder by `2 ^ k`.
pub bit_and_mask : (k a : ℕ) → bit_and a (2 ^ k - 1) ≡ a % 2 ^ k
bit_and_mask zero a = omega (arith, bit_and-zero (suc a) a (omega arith))
bit_and_mask (suc k) a = rw pow-succ' (
    ground (
      arith,
      bit_and_digit a (2 * 2 ^ k - 1),
      one-le-pow k 2,
      bit_and_mask k (a / 2),
      mod_double (2 ^ k) a,
    ))

-- A single bit picked out.
pub bit_and_below : (k a : ℕ) → a < 2 ^ k → bit_and a (2 ^ k) ≡ 0
bit_and_below zero a h =
    omega (arith, bit_and_digit a 1, bit_and-zero (suc (a / 2)) (a / 2) (omega arith))
bit_and_below (suc k) a h = rw pow-succ' (
    omega (
      arith,
      bit_and_digit a (2 * 2 ^ k),
      ap (bit_and (a / 2)) {x = 2 * 2 ^ k / 2} {y = 2 ^ k} (omega arith),
      bit_and_below k (a / 2) (omega (arith, pow-succ' 2 k)),
    ))

bit_or-zero : (k a : ℕ) → a < k → bit_or a 0 ≡ a
bit_or-zero zero a h = elim h [ ]
bit_or-zero (suc k) zero h = refl
bit_or-zero (suc k) (suc a) h =
    omega (arith, bit_or_digit (suc a) 0, bit_or-zero k (suc a / 2) (omega arith))

-- Bits set above others are added.
pub bit_or_shift : (k x y : ℕ) → y < 2 ^ k → bit_or (x * 2 ^ k) y ≡ x * 2 ^ k + y
bit_or_shift zero x y h =
    ap₂ bit_or {y = x} {v = 0} (omega arith) (omega arith)
    ∙ bit_or-zero (suc x) x (omega arith)
    ∙ omega arith
bit_or_shift (suc k) x y h =
    ap (λ n. bit_or n y) doubled
    ∙ bit_or_digit (2 * (x * 2 ^ k)) y
    ∙ ap (λ n. bit_or n (y / 2) * 2 + max (2 * (x * 2 ^ k) % 2) (y % 2)) {x = 2 * (x * 2 ^ k) / 2}
        {y = x * 2 ^ k} (omega arith)
    ∙ omega (arith, bit_or_shift k x (y / 2) (omega (arith, pow-succ' 2 k)), doubled)
  where
    doubled : x * 2 ^ suc k ≡ 2 * (x * 2 ^ k)
    doubled = omega (arith, ap (λ (t : ℕ). x * t) (pow-succ' 2 k))

-- The bit above the others is found.
pub bit_and_top : (k a : ℕ) → a < 2 ^ k → bit_and (2 ^ k + a) (2 ^ k) ≡ 2 ^ k
bit_and_top zero a h = ap (λ (n : ℕ). bit_and n 1) {x = 1 + a} {y = 1} (omega (arith, h))
bit_and_top (suc k) a h = rw pow-succ' (
    omega (
      arith,
      bit_and_digit (2 * 2 ^ k + a) (2 * 2 ^ k),
      ap₂ bit_and {x = (2 * 2 ^ k + a) / 2} {y = 2 ^ k + a / 2} {u = 2 * 2 ^ k / 2} {v = 2 ^ k}
          (omega arith) (omega arith),
      bit_and_top k (a / 2) (omega (arith, pow-succ' 2 k)),
    ))

pub bit_xor_digit : (a b : ℕ) → bit_xor a b ≡ bit_xor (a / 2) (b / 2) * 2 + differ (a % 2) (b % 2)
bit_xor_digit zero b = simp bit_xor-bitwise (omega arith)
bit_xor_digit (suc a) b = simp bit_xor-bitwise (low_digit (λ y. y) differ a b)

differ-twice : (x y : ℕ) → x < 2 → y < 2 → (differ x y < 2) × (differ (differ x y) y ≡ x)
differ-twice zero zero h g = (omega arith, refl)
differ-twice zero (suc zero) h g = (omega arith, refl)
differ-twice (suc zero) zero h g = (omega arith, refl)
differ-twice (suc zero) (suc zero) h g = (omega arith, refl)
differ-twice zero (suc (suc y)) h g = absurd (omega arith)
differ-twice (suc zero) (suc (suc y)) h g = absurd (omega arith)
differ-twice (suc (suc x)) y h g = absurd (omega arith)

bit_xor-step :
    (a m : ℕ) → bit_xor (bit_xor (a / 2) (m / 2)) (m / 2) ≡ a / 2 → bit_xor (bit_xor a m) m ≡ a
bit_xor-step a m rest =
    let c = bit_xor a m in
    let (small, twice) = differ-twice (a % 2) (m % 2) (omega arith) (omega arith) in
    let high : c / 2 ≡ bit_xor (a / 2) (m / 2) = omega (arith, bit_xor_digit a m) in
    let low : c % 2 ≡ differ (a % 2) (m % 2) = omega (arith, bit_xor_digit a m) in
    omega
      (arith, bit_xor_digit c m, ap (λ n. bit_xor n (m / 2)) high, ap (λ n. differ n (m % 2)) low)

bit_xor-fuel : (k a m : ℕ) → a + m < k → bit_xor (bit_xor a m) m ≡ a
bit_xor-fuel zero a m h = elim h [ ]
bit_xor-fuel (suc k) zero zero h = refl
bit_xor-fuel (suc k) (suc a) m h =
    bit_xor-step (suc a) m (bit_xor-fuel k (suc a / 2) (m / 2) (omega (arith, h)))
bit_xor-fuel (suc k) zero (suc m) h =
    bit_xor-step zero (suc m) (bit_xor-fuel k (zero / 2) (suc m / 2) (omega (arith, h)))

-- A number taken exclusively twice with the same one is itself.
pub bit_xor-bit_xor : (a m : ℕ) → bit_xor (bit_xor a m) m ≡ a
bit_xor-bit_xor a m = bit_xor-fuel (suc (a + m)) a m (omega arith)
