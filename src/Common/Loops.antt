-- ===== src/Common/Loops.antt =====
-- Counted loops whose body may fail, and reads and writes that fail out of range. Common to the
-- modules that model src/vision and src/calibration.
use Prim.Native.Nat.{ℕ, zero, suc, ◌+◌, ◌*◌, ◌<◌, ◌≤◌}
use mathlib.Core.Path.{◌≡◌, refl, ap, ◌∙◌}
use mathlib.Core.Logic.{◌≢◌}
use mathlib.Core.Option.{Option, none, some}
use mathlib.Core.List.{List, [], ◌∷◌}
use native.Mathlib.Omega.{arith}
use lib_stereo_camera.Common.Tests.{◌>>=◌}
use lib_stereo_camera.Common.Lists.{length, set, get_or, replicate}

-- `for (i = 0; i < n; ++i) body`; none where a round has no defined result.
unfoldable pub for_up {ℓ} : {S : Type ℓ} → ℕ → (ℕ → S → Option S) → S → Option S
for_up zero body s = some s
for_up (suc n) body s = for_up n body s >>= body n

-- What each round is defined on and keeps, the loop is defined on and ends with.
pub for_up_lem {ℓ κ} :
    {S : Type ℓ} (P : ℕ → S → Type κ) (n : ℕ) (body : ℕ → S → Option S)
    → ((i : ℕ) (s : S) → i < n → P i s → (t : S) × (body i s ≡ some t) × P (suc i) t)
    → (s : S) → P 0 s
    → (t : S) × (for_up n body s ≡ some t) × P n t
unfolding for_up
for_up_lem P zero body round s p = (s, refl, p)
for_up_lem P (suc n) body round s p =
    let (t, ran, kept) = for_up_lem P n body (λ i u lt. round i u (omega arith)) s p in
    let (u, ran', kept') = round n t (omega arith) kept in
    (u, ap (λ o. o >>= body n) ran ∙ ran', kept')

-- A loop whose states are known.
pub for_up-states {ℓ} :
    {S : Type ℓ} (state : ℕ → S) (n : ℕ) (body : ℕ → S → Option S)
    → ((i : ℕ) → i < n → body i (state i) ≡ some (state (suc i)))
    → for_up n body (state 0) ≡ some (state n)
unfolding for_up
for_up-states state zero body round = refl
for_up-states state (suc n) body round =
    ap (λ o. o >>= body n) (for_up-states state n body (λ i lt. round i (omega arith)))
    ∙ round n (omega arith)

-- A loop whose last round is undefined.
pub for_up-none {ℓ} :
    {S : Type ℓ} (n : ℕ) (body : ℕ → S → Option S)
    → ((s : S) → body n s ≡ none)
    → (s : S) → for_up (suc n) body s ≡ none
unfolding for_up
for_up-none n body last s = elim (for_up n body s) as (λ o. (o >>= body n) ≡ none) [
  | none ↦ refl
  | some t ↦ last t
]

module _ {ℓ} {A : Type ℓ} where
  -- A read or a write out of range is undefined.
  abbrev pub get_elem? : List A → ℕ → Option A
  get_elem? [] i = none
  get_elem? (x ∷ xs) zero = some x
  get_elem? (x ∷ xs) (suc i) = get_elem? xs i

  unfoldable pub write : List A → ℕ → A → Option (List A)
  write [] i v = none
  write (x ∷ xs) zero v = some (v ∷ xs)
  write (x ∷ xs) (suc i) v = write xs i v >>= (λ ys. some (x ∷ ys))

  pub get_elem?-found : (xs : List A) (i : ℕ) → i < length xs → (a : A) × (get_elem? xs i ≡ some a)
  get_elem?-found [] i h = absurd (omega arith)
  get_elem?-found (x ∷ xs) zero h = (x, refl)
  get_elem?-found (x ∷ xs) (suc i) h = get_elem?-found xs i (omega arith)

  pub get_elem?-get_or :
      (xs : List A) (i : ℕ) (d : A) → i < length xs → get_elem? xs i ≡ some (get_or xs i d)
  get_elem?-get_or [] i d h = absurd (omega arith)
  get_elem?-get_or (x ∷ xs) zero d h = refl
  get_elem?-get_or (x ∷ xs) (suc i) d h = get_elem?-get_or xs i d (omega arith)

  pub get_elem?-none : (xs : List A) (i : ℕ) → length xs ≤ i → get_elem? xs i ≡ none
  get_elem?-none [] i h = refl
  get_elem?-none (x ∷ xs) zero h = absurd (omega arith)
  get_elem?-none (x ∷ xs) (suc i) h = get_elem?-none xs i (omega arith)

  pub get_elem?-ext :
      (xs ys : List A)
      → length xs ≡ length ys
      → ((i : ℕ) → i < length xs → get_elem? xs i ≡ get_elem? ys i)
      → xs ≡ ys
  get_elem?-ext [] [] e h = refl
  get_elem?-ext [] (y ∷ ys) e h = absurd (omega arith)
  get_elem?-ext (x ∷ xs) [] e h = absurd (omega arith)
  get_elem?-ext (x ∷ xs) (y ∷ ys) e h =
      let heads : x ≡ y = cc (h 0 (omega arith)) in
      let tails : xs ≡ ys = get_elem?-ext xs ys (omega arith) (λ i lt. h (suc i) (omega arith)) in
      cc (heads, tails)

  pub write-set : (xs : List A) (i : ℕ) (v : A) → i < length xs → write xs i v ≡ some (set xs i v)
  unfolding write
  write-set [] i v h = absurd (omega arith)
  write-set (x ∷ xs) zero v h = refl
  write-set (x ∷ xs) (suc i) v h =
      ap (λ o. o >>= (λ ys. some (x ∷ ys))) (write-set xs i v (omega arith))

  pub get_elem?-set_self :
      (xs : List A) (i : ℕ) (v : A) → i < length xs → get_elem? (set xs i v) i ≡ some v
  get_elem?-set_self [] i v h = absurd (omega arith)
  get_elem?-set_self (x ∷ xs) zero v h = refl
  get_elem?-set_self (x ∷ xs) (suc i) v h = get_elem?-set_self xs i v (omega arith)

  pub get_elem?-set_ne :
      (xs : List A) (i j : ℕ) (v : A) → i ≢ j → get_elem? (set xs i v) j ≡ get_elem? xs j
  get_elem?-set_ne [] i j v h = refl
  get_elem?-set_ne (x ∷ xs) zero zero v h = absurd (h refl)
  get_elem?-set_ne (x ∷ xs) zero (suc j) v h = refl
  get_elem?-set_ne (x ∷ xs) (suc i) zero v h = refl
  get_elem?-set_ne (x ∷ xs) (suc i) (suc j) v h = get_elem?-set_ne xs i j v (λ e. h (ap suc e))

  pub get_elem?-replicate : (n i : ℕ) (v : A) → i < n → get_elem? (replicate n v) i ≡ some v
  get_elem?-replicate zero i v h = absurd (omega arith)
  get_elem?-replicate (suc n) zero v h = refl
  get_elem?-replicate (suc n) (suc i) v h = get_elem?-replicate n i v (omega arith)

-- A position of row `y` and column `x` lies in the grid, and tells both.
pub index-lt : (w h x y : ℕ) → x < w → y < h → y * w + x < w * h
index-lt w h x y p q = grind arith

index-lt-index : (w x y x' y' : ℕ) → x < w → y < y' → y * w + x < y' * w + x'
index-lt-index w x y x' y' p q = grind arith

pub index_inj : (w x y x' y' : ℕ) → x < w → x' < w → y * w + x ≡ y' * w + x' → (x ≡ x') × (y ≡ y')
index_inj w x y x' y' p q e =
    let rows : y ≡ y' = ground (arith, index-lt-index w x y x' y', index-lt-index w x' y' x y) in
    (omega (arith, ap (λ k. k * w) rows, e), rows)
