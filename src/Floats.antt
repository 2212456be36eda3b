-- ===== src/Floats.antt =====
-- The floating-point arithmetic of the machine, which src/vision and src/calibration compute with.
use lib_stereo_camera.Common.{ℕ, ◌^◌, ◌<◌, ◌≡◌, String, Bool, true, false, ltb}

-- Operations of `float`, or of `double`.
pub record FloatOps (F : Type 0) : Type 0 where
  -- A literal, by its text in the source.
  pub literal : String → F
  -- `static_cast<F>(n)` of an unsigned integer.
  pub of_nat : ℕ → F
  -- `static_cast<uint8_t>(x)`
  pub to_byte : F → ℕ
  pub add : F → F → F
  pub sub : F → F → F
  pub mul : F → F → F
  pub div : F → F → F
  pub abs : F → F
  pub sqrt : F → F
  -- `<` and `<=`, false where an argument is not a number
  pub less : F → F → Bool
  pub less_eq : F → F → Bool

-- What IEEE 754 says of them: `<` is transitive and never holds of a value and itself, and 24 bits of an integer are kept.
pub record IsFloat {F : Type 0} (ops : FloatOps F) : Type 0 where
  pub less_trans : (a b c : F) → ops.less a b ≡ true → ops.less b c ≡ true → ops.less a c ≡ true
  pub less_irrefl : (a : F) → ops.less a a ≡ false
  pub literal_zero : ops.literal "0.0f" ≡ ops.of_nat 0
  pub less_of_nat :
      (m n : ℕ) → m < 2 ^ 24 → n < 2 ^ 24 → ops.less (ops.of_nat m) (ops.of_nat n) ≡ ltb m n
