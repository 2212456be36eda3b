-- ===== src/Vision/Sad.antt =====
-- src/vision/DisparityMap.cpp: what `compute_sad` computes, and that it stays inside the images.
use lib_stereo_camera.Common.{
  ℕ, zero, suc, ◌+◌, ◌-◌, ◌*◌, ◌/◌, ◌^◌, ◌<◌, ◌≤◌, ◌≡◌, refl, ap, ap₂, ◌∙◌, arith, List, Bool,
  false, Bool-cases, inl, inr, ◌||◌, some, ◌>>=◌, not, ◌/◌, if◌then◌else◌, length, get_or,
}
use lib_stereo_camera.Common.Loops.{for_up, for_up-states, get_elem?, get_elem?-get_or, index-lt}
use lib_stereo_camera.Floats.{FloatOps}
use lib_stereo_camera.Vision.{
  u32, abs_diff, row_outside, column_outside, sad_cell, sad_row, mean_cost, compute_sad,
}

-- An image of one byte for each pixel.
abbrev pub Covers : ℕ → ℕ → List ℕ → Type 0
Covers w h gray = length gray ≡ w * h

-- The terms `f 0` to `f (n - 1)`, added up.
unfoldable pub sum_below : ℕ → (ℕ → ℕ) → ℕ
sum_below zero f = 0
sum_below (suc n) f = sum_below n f + f n

-- A pixel of the window counts if it lies in the left image, and the one `d` to its left, in the right
-- image, does too.
unfoldable pub pixel_inside : (w h half d x y ky kx : ℕ) → Bool
unfolding row_outside column_outside
pixel_inside w h half d x y ky kx = not (row_outside h half y ky || column_outside w half d x kx)

-- What the pixel of the window adds to the sum of absolute differences.
unfoldable pub difference : (left right : List ℕ) (w h half d x y ky kx : ℕ) → ℕ
unfolding pixel_inside
difference left right w h half d x y ky kx =
    if pixel_inside w h half d x y ky kx
    then abs_diff (get_or left ((y + ky - half) * w + (x + kx - half)) 0)
        (get_or right ((y + ky - half) * w + (x + kx - half - d)) 0)
    else 0

unfoldable pub counted : (w h half d x y ky kx : ℕ) → ℕ
unfolding pixel_inside
counted w h half d x y ky kx = if pixel_inside w h half d x y ky kx then 1 else 0

-- The sums over the whole window.
unfoldable pub window_sad : (left right : List ℕ) (w h half d x y : ℕ) → ℕ
unfolding sum_below difference
window_sad left right w h half d x y =
    sum_below (2 * half + 1)
      (λ ky. sum_below (2 * half + 1) (difference left right w h half d x y ky))

unfoldable pub window_count : (w h half d x y : ℕ) → ℕ
unfolding sum_below counted
window_count w h half d x y =
    sum_below (2 * half + 1) (λ ky. sum_below (2 * half + 1) (counted w h half d x y ky))

-- What the tests of the loops say when they fail.
row_inside :
    (h half y ky : ℕ) → row_outside h half y ky ≡ false → (half ≤ y + ky) × (y + ky - half < h)
unfolding row_outside
row_inside h half y ky e = ground arith

column_inside :
    (w half d x kx : ℕ)
    → column_outside w half d x kx ≡ false
    → (x + kx - half < w) × (x + kx - half - d < w)
unfolding column_outside
column_inside w half d x kx e = ground arith

-- A pixel of a row that is inside is read.
read_pixel :
    (gray : List ℕ) (w h rx ry : ℕ)
    → Covers w h gray
    → w * h < 2 ^ 32
    → rx < w
    → ry < h
    → get_elem? gray (u32 (ry * w + rx)) ≡ some (get_or gray (ry * w + rx) 0)
read_pixel gray w h rx ry covers small in_row in_column =
    let inside : ry * w + rx < w * h = index-lt w h rx ry in_row in_column in
    ap (get_elem? gray) {x = u32 (ry * w + rx)} {y = ry * w + rx} (omega arith)
    ∙ get_elem?-get_or gray (ry * w + rx) 0 (omega arith)

add_u32 : (a b : ℕ) → u32 (u32 a + b) ≡ u32 (a + b)
add_u32 a b = omega arith

sum_below-zero : (n : ℕ) (f : ℕ → ℕ) → ((k : ℕ) → f k ≡ 0) → sum_below n f ≡ 0
unfolding sum_below
sum_below-zero zero f h = refl
sum_below-zero (suc n) f h = omega (arith, sum_below-zero n f h, h n)

module _ (left right : List ℕ) (w h half d x y : ℕ) (covers_left : Covers w h left)
    (covers_right : Covers w h right) (small : w * h < 2 ^ 32) where
  sad_cell_lem :
      (ky kx sad count : ℕ)
      → row_outside h half y ky ≡ false
      → sad_cell left right w half d x (y + ky - half) kx (u32 sad, u32 count)
        ≡ some (
          u32 (sad + difference left right w h half d x y ky kx),
          u32 (count + counted w h half d x y ky kx),
        )
  unfolding sad_cell difference counted pixel_inside
  sad_cell_lem ky kx sad count inside = elim (Bool-cases (column_outside w half d x kx)) [
    | inl out ↦ rw (inside, out) (ap₂ (λ a b. some (u32 a, u32 b)) (omega arith) (omega arith))
    | inr within ↦
        let (low, row) = row_inside h half y ky inside in
        let (column, shifted) = column_inside w half d x kx within in
        rw
          (
            inside,
            within,
            read_pixel left w h (x + kx - half) (y + ky - half) covers_left small column row,
            read_pixel right w h (x + kx - half - d) (y + ky - half) covers_right small shifted row,
          )
          (ap₂ (λ a b. some (a, b)) (add_u32 sad _) (add_u32 count 1))
  ]

  sad_row_lem :
      (ky sad count : ℕ)
      → sad_row left right w h half d x y ky (u32 sad, u32 count)
        ≡ some (
          u32 (sad + sum_below (2 * half + 1) (difference left right w h half d x y ky)),
          u32 (count + sum_below (2 * half + 1) (counted w h half d x y ky)),
        )
  unfolding sad_row sum_below difference counted pixel_inside
  sad_row_lem ky sad count = elim (Bool-cases (row_outside h half y ky)) [
    | inl out ↦ rw out (
        ap₂ (λ a b. some (u32 a, u32 b))
          (omega (
            arith,
            sum_below-zero (2 * half + 1) (difference left right w h half d x y ky)
                (λ k. rw out refl),
          ))
          (omega
            (arith, sum_below-zero (2 * half + 1) (counted w h half d x y ky) (λ k. rw out refl))))
    | inr within ↦ rw within (
        ap₂
          (λ a b.
            for_up (2 * half + 1) (λ kx. sad_cell left right w half d x (y + ky - half) kx)
              (u32 a, u32 b))
          {x = sad} {y = sad + 0} {u = count} {v = count + 0} (omega arith) (omega arith)
        ∙ for_up-states
            (λ i. (
              u32 (sad + sum_below i (difference left right w h half d x y ky)),
              u32 (count + sum_below i (counted w h half d x y ky)),
            ))
            (2 * half + 1) (λ kx. sad_cell left right w half d x (y + ky - half) kx)
            (λ i lt.
              sad_cell_lem ky i (sad + sum_below i (difference left right w h half d x y ky))
                (count + sum_below i (counted w h half d x y ky)) within
              ∙ ap₂ (λ a b. some (u32 a, u32 b)) (omega arith) (omega arith)))
  ]

module _ {F : Type 0} (ops : FloatOps F) where
  -- On two gray images of fewer than 2^32 pixels `compute_sad` reads inside them only, and gives the sum of
  -- the absolute differences over the pixels of the window that lie in both images, divided by their
  -- number, both modulo 2^32; or 1e30 if there is none.
  pub compute_sad_lem :
      (left right : List ℕ) (w h x y d block : ℕ)
      → Covers w h left
      → Covers w h right
      → w * h < 2 ^ 32
      → compute_sad ops left right w h x y d block
        ≡ some (
            mean_cost ops (
              u32 (window_sad left right w h (block / 2) d x y),
              u32 (window_count w h (block / 2) d x y),
            ))
  unfolding compute_sad window_sad window_count sum_below
  compute_sad_lem left right w h x y d block covers_left covers_right small =
      let half = block / 2 in
      let n = 2 * half + 1 in
      ap (λ o. o >>= (λ acc. some (mean_cost ops acc)))
        (for_up-states
          (λ i. (
            u32 (sum_below i (λ ky. sum_below n (difference left right w h half d x y ky))),
            u32 (sum_below i (λ ky. sum_below n (counted w h half d x y ky))),
          ))
          n (λ ky. sad_row left right w h half d x y ky)
          (λ ky lt. sad_row_lem left right w h half d x y covers_left covers_right small ky _ _))
