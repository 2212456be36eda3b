-- ===== src/Common/Modular.antt =====
-- Remainders by a capacity that divides 2 ^ 64: indices into a ring under wrapping counters.
use native.Mathlib.Nat.{
  mod-lt, mod-eq-sub-mod, add-mul-mod_self_left, mod-add-mod, mod-eq_of_lt, mod-mod_of_dvd,
}
use Prim.Native.Nat.{ℕ, suc, ◌+◌, ◌-◌, ◌*◌, ◌%◌, ◌≤◌, ◌<◌}
use mathlib.Core.Path.{◌≡◌, sym, ap, ◌∙◌}
use mathlib.Core.Logic.{◌≢◌}
use native.Mathlib.Decide.{dec_lt}
use native.Mathlib.Omega.{arith}
use lib_stereo_camera.Common.Size.{size_mod, sub_size, add_size}

-- Remainders by a divisor of 2 ^ 64 do not see the wrap.
pub record Divides (c : ℕ) : Type 0 where
  pub quotient : ℕ
  pub product : c * quotient ≡ size_mod
  pub positive : 1 ≤ c

pub mod-wrap : {c : ℕ} → Divides c → (x : ℕ) → x % size_mod % c ≡ x % c
mod-wrap {c} d x = mod-mod_of_dvd c x ∣ (d.quotient, sym d.product) ∣₁

pub mod-add-size_mod : {c : ℕ} → Divides c → (x : ℕ) → (x + size_mod) % c ≡ x % c
mod-add-size_mod {c} d x =
    ap (λ k. (x + k) % c) (sym d.product) ∙ add-mul-mod_self_left x c d.quotient

-- Stepping back once more from the next index is stepping back from this one, wrap or no wrap.
pub step_back :
    {c : ℕ}
    → Divides c
    → (w i : ℕ) → w < size_mod
    → i < size_mod
    → sub_size (add_size w 1) (suc i) % c ≡ sub_size w i % c
step_back {c} d w i hw hi = elim (dec_lt (w + 1) size_mod) [
  | yes p ↦ ap (λ k. k % c) (omega arith)
  | no p ↦
      mod-wrap d _
      ∙ ap (λ k. k % c) {y = size_mod - suc i} (omega arith)
      ∙ sym (mod-add-size_mod d (size_mod - suc i))
      ∙ ap (λ k. k % c) {y = w + size_mod - i} (omega arith)
      ∙ sym (mod-wrap d _)
]

-- Fewer than `c` steps forward do not come back to the start.
pub mod-add-ne : (c x j : ℕ) → 0 < j → j < c → (x + j) % c ≢ x % c
mod-add-ne c x j pos lt e = elim (dec_lt (x % c + j) c) [
  | yes p ↦ omega (arith, mod-add-mod x c j, mod-eq_of_lt p)
  | no p ↦ omega (
    arith,
    mod-add-mod x c j,
    mod-lt x {m = c} (omega arith),
    mod-eq-sub-mod {n = x % c + j} {m = c} (omega arith),
    mod-eq_of_lt {n = x % c + j - c} {m = c} (omega (arith, mod-lt x {m = c} (omega arith))),
  )
]
